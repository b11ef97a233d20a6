-- ===== src/Ptp/PropList/Bound.antt =====
-- How many elements a property list can hold.
use bsdroid.Base.{length}
use bsdroid.Base.{Result, ok, err}
use bsdroid.Base.{ℕ, zero, suc, ◌+◌, ◌*◌, ◌≤◌, ◌≡◌, refl, ap, List, arith}
use bsdroid.Ptp.Error.{ParseError}
use bsdroid.Ptp.Reader.{Reader, Parser, pure, ◌>>=◌, new, continue, read_u32, read_times}
use bsdroid.Ptp.Reader.Bounds.{
  Takes, Takes-pure, Takes-raise, Takes-bind, Takes-if, Takes-le, take_bytes-Takes, bind_ok,
  read_u8-Takes, read_u16-Takes, read_u32-Takes, read_u64-Takes, read_string-Takes,
  read_times-Takes,
}
use bsdroid.Ptp.PropList.{
  number, text, wide, PropEntry, read_value, read_entry, read_prop_list, parse_object_prop_list,
}

-- A step that reads `n` bytes, and then gives a value.
valued :
    {A B : Type 0} (n : ℕ) (p : Parser A) (f : A → B)
    → Takes n p
    → 1 ≤ n
    → Takes 1 (p >>= λ a. pure (f a))
valued n p f t h = Takes-le 1 (n + 0) _ (omega arith) (Takes-bind n 0 p _ t (λ a. Takes-pure (f a)))

read_value-Takes : (kind : ℕ) → Takes 1 (read_value kind)
unfolding read_value
read_value-Takes kind = Takes-if _ 1 _ _ (valued 1 _ number (read_u8-Takes _) (omega arith)) (
    Takes-if _ 1 _ _ (valued 2 _ number (read_u16-Takes _) (omega arith)) (
      Takes-if _ 1 _ _ (valued 4 _ number (read_u32-Takes _) (omega arith)) (
        Takes-if _ 1 _ _ (valued 8 _ number (read_u64-Takes _) (omega arith)) (
          Takes-if _ 1 _ _ (valued 16 _ (λ _. wide) (take_bytes-Takes 16 _) (omega arith)) (
            Takes-if _ 1 _ _ (valued 1 _ text (read_string-Takes _) (omega arith))
              (Takes-raise 1 _))))))

read_entry-Takes : Takes 9 read_entry
unfolding read_entry
read_entry-Takes = Takes-bind 4 5 _ _ (read_u32-Takes _) λ handle.
    Takes-bind 2 3 _ _ (read_u16-Takes _) λ code.
      Takes-bind 2 1 _ _ (read_u16-Takes _)
        λ kind. Takes-bind 1 0 _ _ (read_value-Takes kind) λ value. Takes-pure _

pub read_prop_list-Takes : Takes 4 read_prop_list
unfolding read_prop_list
read_prop_list-Takes = Takes-bind 4 0 _ _ (read_u32-Takes _) λ count.
    Takes-le 0 (count * 9) _ (omega arith) (read_times-Takes count 9 read_entry read_entry-Takes)

length-read_times :
    {A : Type 0} (n : ℕ) (p : Parser A) (r : Reader) (xs : List A)
    → (read_times n p r).0 ≡ ok xs
    → length xs ≡ n
unfolding read_times
length-read_times zero p r xs e = ground arith
length-read_times (suc n) p r xs e =
    let (x, ex, e1) = bind_ok p _ r xs e in
    let (ys, ey, e2) = bind_ok (read_times n p) _ (p r).1 xs e1 in
    ground (arith, length-read_times n p (p r).1 ys ey)

-- A property list of `n` elements takes four bytes and nine more for each of them at least. So a damaged count cannot make the host hold more elements than the answer has bytes.
pub parse_object_prop_list_bound :
    (payload : List ℕ) (es : List PropEntry)
    → parse_object_prop_list payload ≡ ok es
    → 4 + length es * 9 ≤ length payload
unfolding parse_object_prop_list read_prop_list
parse_object_prop_list_bound payload es e =
    go (read_u32 "prop_list_count" (new payload)).0 (read_u32 "prop_list_count" (new payload)).1
      (t.buf _ (omega arith)) (t.inside _ (omega arith)) (λ a. t.took _ a (omega arith)) e
  where
    t : Takes 4 (read_u32 "prop_list_count")
    t = read_u32-Takes _

    go :
        (x : Result ParseError ℕ) (s : Reader)
        → s.buf ≡ payload
        → (0 ≤ s.pos) × (s.pos ≤ length payload)
        → ((a : ℕ) → x ≡ ok a → 0 + 4 ≤ s.pos)
        → (continue x (λ count. read_times count read_entry) s).0 ≡ ok es
        → 4 + length es * 9 ≤ length payload
    go (err x) s eb i k h = cc
    go (ok count) s eb i k h =
        let u = read_times-Takes count 9 read_entry read_entry-Takes in
        let room : s.pos ≤ length s.buf = rw eb i.1 in
        omega (
          arith,
          length-read_times count read_entry s es h,
          u.took s es room h,
          u.inside s room,
          ap length eb,
          k count refl,
        )
