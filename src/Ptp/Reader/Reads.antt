-- ===== src/Ptp/Reader/Reads.antt =====
-- What a reading function gives where the buffer goes on with a known text.
use bsdroid.Base.{ltb}
use bsdroid.Base.{
  length, drop, length-append, length-drop, take-length_append, drop-length_append, drop-drop,
}
use bsdroid.Base.{ok}
use bsdroid.Base.{IsU16, IsU32, le_u16, le_u32, from_le-le_u16, from_le-le_u32}
use bsdroid.Base.{
  ℕ, ◌+◌, ◌-◌, String, ◌≡◌, refl, sym, ap, ◌∙◌, false, List, [], ◌∷◌, ◌++◌, append_assoc, arith,
}
use bsdroid.Ptp.Reader.{
  Reader, Parser, pure, continue, ◌>>=◌, remaining, take_bytes, read_u8, read_u16, read_u32, new,
  run, or_default, default_of,
}

-- `p` reads `bs`, gives `a`, and leaves what follows `bs`.
pub record Reads {ℓ} {A : Type ℓ} (p : Parser A) (a : A) (bs : List ℕ) : Type ℓ where
  pub at :
      (r : Reader) (ys : List ℕ)
      → drop r.pos r.buf ≡ bs ++ ys
      → (r' : Reader) × (p r ≡ (ok a, r')) × (drop r'.pos r'.buf ≡ ys)

module _ {ℓ} {A : Type ℓ} where
  pub Reads-pure : (a : A) → Reads (pure a) a []
  Reads-pure a = record { at = λ r ys e. (r, refl, e) }

  pub Reads-or_default :
      (p : Parser A) {a : A} (d : A) (bs : List ℕ) → Reads p a bs → Reads (or_default d p) a bs
  unfolding or_default
  Reads-or_default p d bs h = record {
    at = λ r ys e. let (r', ep, er) = h.at r ys e in (r', rw (ep, default_of), er);
  }

  -- The whole buffer is what `p` reads and a rest.
  pub run-Reads : (p : Parser A) {a : A} (bs ys : List ℕ) → Reads p a bs → run p (bs ++ ys) ≡ ok a
  run-Reads p bs ys h = let (r', ep, er) = h.at (new (bs ++ ys)) ys refl in rw (run, ep)

module _ {ℓ κ} {A : Type ℓ} {B : Type κ} where
  pub Reads-bind :
      (p : Parser A) {a : A} (f : A → Parser B) {b : B} (xs zs : List ℕ)
      → Reads p a xs
      → Reads (f a) b zs
      → Reads (p >>= f) b (xs ++ zs)
  Reads-bind p f xs zs h k = record {
    at = λ r ys e.
        let (r1, e1, d1) = h.at r (zs ++ ys) (e ∙ append_assoc xs zs ys) in
        let (r2, e2, d2) = k.at r1 ys d1 in (r2, rw (e1, ◌>>=◌, continue) e2, d2);
  }

  -- A last step that reads nothing.
  pub Reads-end :
      (p : Parser A) {a : A} (f : A → Parser B) {b : B} (xs : List ℕ)
      → Reads p a xs
      → Reads (f a) b []
      → Reads (p >>= f) b xs
  Reads-end p f xs h k = record {
    at = λ r ys e.
        let (r1, e1, d1) = h.at r ys e in
        let (r2, e2, d2) = k.at r1 ys d1 in (r2, rw (e1, ◌>>=◌, continue) e2, d2);
  }

pub take_bytes-Reads : (bs : List ℕ) (field : String) → Reads (take_bytes (length bs) field) bs bs
unfolding take_bytes remaining
take_bytes-Reads bs field = record { at = took }
  where
    took :
        (r : Reader) (ys : List ℕ)
        → drop r.pos r.buf ≡ bs ++ ys
        → (r' : Reader) × (take_bytes (length bs) field r ≡ (ok bs, r')) × (drop r'.pos r'.buf ≡ ys)
    took r ys e =
        let size : length r.buf - r.pos ≡ length bs + length ys =
          sym (length-drop r.pos r.buf) ∙ ap length e ∙ length-append bs ys in
        let enough : ltb (length r.buf - r.pos) (length bs) ≡ false = ground (arith, size) in
        (
          record r { pos = r.pos + length bs },
          rw (enough, e) (rw (take-length_append bs ys)),
          sym (drop-drop r.pos (length bs) r.buf)
              ∙ ap (drop (length bs)) e
              ∙ drop-length_append bs ys,
        )

-- The bytes of a fixed width, and the number that they stand for.
pub read_u8-Reads : (v : ℕ) (field : String) → Reads (read_u8 field) v (v ∷ [])
unfolding read_u8
read_u8-Reads v field = Reads-bind _ _ (v ∷ []) [] (take_bytes-Reads (v ∷ []) field) (Reads-pure v)

pub read_u16-Reads : (v : ℕ) (field : String) → IsU16 v → Reads (read_u16 field) v (le_u16 v)
unfolding read_u16
read_u16-Reads v field h =
    Reads-bind _ _ (le_u16 v) [] (take_bytes-Reads (le_u16 v) field)
      (rw (from_le-le_u16 v h) (Reads-pure v))

pub read_u32-Reads : (v : ℕ) (field : String) → IsU32 v → Reads (read_u32 field) v (le_u32 v)
unfolding read_u32
read_u32-Reads v field h =
    Reads-bind _ _ (le_u32 v) [] (take_bytes-Reads (le_u32 v) field)
      (rw (from_le-le_u32 v h) (Reads-pure v))
