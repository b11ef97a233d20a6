-- ===== src/Ptp/Reader/Bounds.antt =====
-- The cursor of a reading function on any input, damaged or not.
use bsdroid.Base.{ltb, ◌==◌, if◌then◌else◌}
use bsdroid.Base.{length}
use bsdroid.Base.{Result, ok, err}
use bsdroid.Base.{usize_max}
use bsdroid.Base.{
  ℕ, zero, suc, ◌+◌, ◌*◌, ◌≤◌, String, ◌≡◌, refl, ap, ◌∙◌, Bool, true, false, Option, none, some,
  List, [], arith,
}
use bsdroid.Ptp.Error.{ParseError, truncated}
use bsdroid.Ptp.Reader.{
  Reader, Parser, pure, raise, or_default, continue, ◌>>=◌, remaining, take_bytes, read_u8,
  read_u16, read_u32, read_u64, or_bad_string, read_string, read_times, read_array, read_u16_array,
  read_u32_array,
}

-- The cursor never passes the end, never goes back, and the buffer stays; a result that is no
-- error took `n` bytes at least.
pub record Takes {ℓ} {A : Type ℓ} (n : ℕ) (p : Parser A) : Type ℓ where
  pub buf : (r : Reader) → r.pos ≤ length r.buf → (p r).1.buf ≡ r.buf
  pub inside :
      (r : Reader) → r.pos ≤ length r.buf → (r.pos ≤ (p r).1.pos) × ((p r).1.pos ≤ length r.buf)
  pub took : (r : Reader) (a : A) → r.pos ≤ length r.buf → (p r).0 ≡ ok a → r.pos + n ≤ (p r).1.pos

module _ {ℓ} {A : Type ℓ} where
  pub Takes-pure : (a : A) → Takes 0 (pure a)
  Takes-pure a = record {
    buf = λ r h. refl;
    inside = λ r h. omega arith;
    took = λ r b h e. omega arith;
  }

  pub Takes-raise : (n : ℕ) (x : ParseError) → Takes n (raise {A = A} x)
  Takes-raise n x = record { buf = λ r h. refl; inside = λ r h. omega arith; took = λ r b h e. cc }

  pub Takes-or_default : (d : A) (n : ℕ) (p : Parser A) → Takes n p → Takes 0 (or_default d p)
  unfolding or_default
  Takes-or_default d n p t = record {
    buf = t.buf;
    inside = t.inside;
    took = λ r b h e. omega (arith, t.inside r h);
  }

  pub Takes-if :
      (b : Bool) (n : ℕ) (p q : Parser A) → Takes n p → Takes n q → Takes n (if b then p else q)
  Takes-if true n p q tp tq = tp
  Takes-if false n p q tp tq = tq

  pub Takes-le : (m n : ℕ) (p : Parser A) → m ≤ n → Takes n p → Takes m p
  Takes-le m n p h t = record {
    buf = t.buf;
    inside = t.inside;
    took = λ r a i e. omega (arith, t.took r a i e);
  }

module _ {ℓ κ} {A : Type ℓ} {B : Type κ} (m n : ℕ) (p : Parser A) (f : A → Parser B)
    (tp : Takes m p) (tf : (a : A) → Takes n (f a)) where
  bind_buf : (r : Reader) → r.pos ≤ length r.buf → ((p >>= f) r).1.buf ≡ r.buf
  bind_buf r h = go (p r).0 (p r).1 (tp.buf r h) (tp.inside r h)
    where
      go :
          (x : Result ParseError A) (s : Reader)
          → s.buf ≡ r.buf
          → (r.pos ≤ s.pos) × (s.pos ≤ length r.buf)
          → (continue x f s).1.buf ≡ r.buf
      go (ok a) s e i = (tf a).buf s (rw e (i.1)) ∙ e
      go (err x) s e i = e

  bind_inside :
      (r : Reader)
      → r.pos ≤ length r.buf
      → (r.pos ≤ ((p >>= f) r).1.pos) × (((p >>= f) r).1.pos ≤ length r.buf)
  bind_inside r h = go (p r).0 (p r).1 (tp.buf r h) (tp.inside r h)
    where
      go :
          (x : Result ParseError A) (s : Reader)
          → s.buf ≡ r.buf
          → (r.pos ≤ s.pos) × (s.pos ≤ length r.buf)
          → (r.pos ≤ (continue x f s).1.pos) × ((continue x f s).1.pos ≤ length r.buf)
      go (ok a) s e i = let t = (tf a).inside s (rw e (i.1)) in omega (arith, ap length e, t)
      go (err x) s e i = i

  bind_took :
      (r : Reader) (b : B)
      → r.pos ≤ length r.buf
      → ((p >>= f) r).0 ≡ ok b
      → r.pos + (m + n) ≤ ((p >>= f) r).1.pos
  bind_took r b h = go (p r).0 (p r).1 (tp.buf r h) (tp.inside r h) (λ a. tp.took r a h)
    where
      go :
          (x : Result ParseError A) (s : Reader)
          → s.buf ≡ r.buf
          → (r.pos ≤ s.pos) × (s.pos ≤ length r.buf)
          → ((a : A) → x ≡ ok a → r.pos + m ≤ s.pos)
          → (continue x f s).0 ≡ ok b
          → r.pos + (m + n) ≤ (continue x f s).1.pos
      go (ok a) s e i k e' = let t = (tf a).took s b (rw e (i.1)) e' in omega (arith, t, k a refl)
      go (err x) s e i k e' = cc

  pub Takes-bind : Takes (m + n) (p >>= f)
  Takes-bind = record { buf = bind_buf; inside = bind_inside; took = bind_took }

pub take_bytes-Takes : (n : ℕ) (field : String) → Takes n (take_bytes n field)
unfolding take_bytes remaining
take_bytes-Takes n field = record {
  buf = λ r h. ground arith;
  inside = λ r h. ground arith;
  took = λ r a h e. ground arith;
}

pub read_u8-Takes : (field : String) → Takes 1 (read_u8 field)
unfolding read_u8
read_u8-Takes field = Takes-bind 1 0 _ _ (take_bytes-Takes 1 field) (λ b. Takes-pure _)

pub read_u16-Takes : (field : String) → Takes 2 (read_u16 field)
unfolding read_u16
read_u16-Takes field = Takes-bind 2 0 _ _ (take_bytes-Takes 2 field) (λ b. Takes-pure _)

pub read_u32-Takes : (field : String) → Takes 4 (read_u32 field)
unfolding read_u32
read_u32-Takes field = Takes-bind 4 0 _ _ (take_bytes-Takes 4 field) (λ b. Takes-pure _)

pub read_u64-Takes : (field : String) → Takes 8 (read_u64 field)
unfolding read_u64
read_u64-Takes field = Takes-bind 8 0 _ _ (take_bytes-Takes 8 field) (λ b. Takes-pure _)

or_bad_string-Takes : (field : String) (o : Option (List ℕ)) → Takes 0 (or_bad_string field o)
unfolding or_bad_string
or_bad_string-Takes field none = Takes-raise 0 _
or_bad_string-Takes field (some s) = Takes-pure s

-- A text takes its count byte at least.
pub read_string-Takes : (field : String) → Takes 1 (read_string field)
unfolding read_string
read_string-Takes field = Takes-bind 1 0 _ _ (read_u8-Takes field) λ count.
    Takes-if (count == 0) 0 _ _ (Takes-pure []) (
      Takes-le 0 (count * 2 + 0) _ (omega arith) (
        Takes-bind (count * 2) 0 _ _ (take_bytes-Takes (count * 2) field)
          (λ bytes. or_bad_string-Takes field _)))

pub read_times-Takes {ℓ} :
    {A : Type ℓ} (count width : ℕ) (p : Parser A)
    → Takes width p
    → Takes (count * width) (read_times count p)
unfolding read_times
read_times-Takes zero width p t = Takes-le _ 0 _ (omega arith) (Takes-pure [])
read_times-Takes (suc count) width p t = Takes-le _ (width + (count * width + 0)) _ (omega arith) (
    Takes-bind width (count * width + 0) p _ t
      λ x. Takes-bind (count * width) 0 _ _ (read_times-Takes count width p t) λ xs. Takes-pure _)

read_counted-Takes {ℓ} :
    {A : Type ℓ} (field : String) (width : ℕ) (read : String → Parser A) (count : ℕ)
    → Takes width (read field)
    → Takes (count * width) (λ r.
      if ltb usize_max (count * width)
      then (err (truncated field usize_max (remaining r)), r)
      else if ltb (remaining r) (count * width)
      then (err (truncated field (count * width) (remaining r)), r)
      else read_times count (read field) r)
read_counted-Takes field width read count t =
    let s = read_times-Takes count width (read field) t in
    record {
      buf = λ r h. ground (arith, s.buf r h);
      inside = λ r h. ground (arith, s.inside r h);
      took = λ r a h e. ground (arith, s.took r a h);
    }

-- A chain that succeeds has a first step that succeeds, and goes on from there.
pub bind_ok {ℓ κ} :
    {A : Type ℓ} {B : Type κ} (p : Parser A) (f : A → Parser B) (r : Reader) (b : B)
    → ((p >>= f) r).0 ≡ ok b
    → (a : A) × ((p r).0 ≡ ok a) × ((f a (p r).1).0 ≡ ok b)
bind_ok {A = A} p f r b e = go (p r).0 (p r).1 e
  where
    go :
        (x : Result ParseError A) (s : Reader)
        → (continue x f s).0 ≡ ok b
        → (a : A) × (x ≡ ok a) × ((f a s).0 ≡ ok b)
    go (ok a) s h = (a, refl, h)
    go (err x) s h = cc

pub read_u16_array-Takes : (field : String) → Takes 4 (read_u16_array field)
unfolding read_u16_array read_array
read_u16_array-Takes field = Takes-bind 4 0 _ _ (read_u32-Takes field) λ count.
    Takes-le 0 (count * 2) _ (omega arith)
      (read_counted-Takes field 2 read_u16 count (read_u16-Takes field))

pub read_u32_array-Takes : (field : String) → Takes 4 (read_u32_array field)
unfolding read_u32_array read_array
read_u32_array-Takes field = Takes-bind 4 0 _ _ (read_u32-Takes field) λ count.
    Takes-le 0 (count * 4) _ (omega arith)
      (read_counted-Takes field 4 read_u32 count (read_u32-Takes field))
