-- ===== src/Usb/Descriptor/Loop.antt =====
-- The loop of `ConfigDescriptor::parse` (crates/usb-freebsd/src/descriptor.rs) as the source writes
-- it, without a count of rounds.
use bsdroid.Base.{leb, Bool-cases}
use bsdroid.Base.{length, get_or}
use bsdroid.Base.{Result, ok, err, then_ok, Result-cases}
use bsdroid.Base.{u16_at}
use bsdroid.Base.{
  ℕ, zero, suc, ◌+◌, ◌≤◌, ◌<◌, min, ◌≡◌, refl, sym, subst, inl, inr, List, [], arith,
}
use bsdroid.Usb.Descriptor.{DescriptorError, Interface, type_configuration, round, loop, parse}

-- `while pos + 2 <= end`: what the loop gives from a position, with the interfaces found so far.
pub data While (buf : List ℕ) (end : ℕ)
    : ℕ → List Interface → Result DescriptorError (List Interface) → Type 0 where
  stop : (pos : ℕ) (found : List Interface) → end < pos + 2 → While buf end pos found (ok found)
  fault :
      (pos : ℕ) (found : List Interface) (e : DescriptorError)
      → pos + 2 ≤ end
      → round buf end pos found ≡ err e
      → While buf end pos found (err e)
  again :
      (pos : ℕ) (found more : List Interface) (r : Result DescriptorError (List Interface))
      → pos + 2 ≤ end
      → round buf end pos found ≡ ok more
      → While buf end (pos + get_or buf pos 0) more r
      → While buf end pos found r

round_moves :
    (buf : List ℕ) (end pos : ℕ) (found more : List Interface)
    → round buf end pos found ≡ ok more
    → (0 < get_or buf pos 0) × (pos + get_or buf pos 0 ≤ end)
unfolding round
round_moves buf end pos found more e = ground (arith, e)

loop-While :
    (rounds : ℕ) (buf : List ℕ) (end pos : ℕ) (found : List Interface)
    → end ≤ pos + rounds
    → While buf end pos found (loop rounds buf end pos found)
unfolding loop
loop-While zero buf end pos found le = stop pos found (omega arith)
loop-While (suc rounds) buf end pos found le = elim (Bool-cases (leb (pos + 2) end)) [
  | inl more ↦
      let room : pos + 2 ≤ end = ground (arith, more) in
      elim (Result-cases (round buf end pos found)) [
        | inl (next, went) ↦
            let here : loop (suc rounds) buf end pos found
                ≡ loop rounds buf end (pos + get_or buf pos 0) next =
              rw (loop, more, went) in
            let (some_bytes, inside) = round_moves buf end pos found next went in
            subst (While buf end pos found) (sym here) (
              again pos found next _ room went
                (loop-While rounds buf end (pos + get_or buf pos 0) next (omega arith)))
        | inr (e, failed) ↦
            let here : loop (suc rounds) buf end pos found ≡ err e = rw (loop, more, failed) in
            subst (While buf end pos found) (sym here) (fault pos found e room failed)
      ]
  | inr last ↦
      let no_room : end < pos + 2 = ground (arith, last) in
      let here : loop (suc rounds) buf end pos found ≡ ok found = rw (loop, last) in
      subst (While buf end pos found) (sym here) (stop pos found (omega arith))
]

pub While-unique :
    (buf : List ℕ) (end : ℕ) {pos : ℕ} {found : List Interface}
    {r s : Result DescriptorError (List Interface)}
    → While buf end pos found r
    → While buf end pos found s
    → r ≡ s
While-unique buf end (stop p f lt) (stop q g lt') = refl
While-unique buf end (stop p f lt) (fault q g e le x) = absurd (omega arith)
While-unique buf end (stop p f lt) (again q g m r le x w) = absurd (omega arith)
While-unique buf end (fault p f e le x) (stop q g lt) = absurd (omega arith)
While-unique buf end (fault p f e le x) (fault q g d le' y) = cc
While-unique buf end (fault p f e le x) (again q g m r le' y w) = absurd cc
While-unique buf end (again p f m r le x w) (stop q g lt) = absurd (omega arith)
While-unique buf end (again p f m r le x w) (fault q g e le' y) = absurd cc
While-unique buf end (again p f m r le x w) (again q g n s le' y v) =
    let same_found : m ≡ n = cc in
    While-unique buf end w (subst (λ k. While buf end (p + get_or buf p 0) k s) (sym same_found) v)

-- On every buffer that passes the checks of the header, the loop stops: the parser gives what the loop of the source gives, and keeps the fields of the header.
pub parse-While :
    (buf : List ℕ)
    → 9 ≤ length buf
    → get_or buf 1 0 ≡ type_configuration
    → 0 < get_or buf 0 0
    → (r : Result DescriptorError (List Interface)) × While buf
        (min (length buf) (u16_at buf 2))
        (get_or buf 0 0)
        []
        r
      × (parse buf
          ≡ then_ok r (λ found. ok (record {
            total_length = u16_at buf 2;
            num_interfaces = get_or buf 4 0;
            configuration_value = get_or buf 5 0;
            interfaces = found;
          })))
unfolding parse
parse-While buf long kind size =
    let end = min (length buf) (u16_at buf 2) in
    let w = loop-While end buf end (get_or buf 0 0) [] (omega arith) in
    (loop end buf end (get_or buf 0 0) [], w, ground (arith, long, kind, size))
