-- ===== src/Backend/Read.antt =====
-- How the mount reads a part of a file (`read_at`, `read_from_device` and `partial_read` of
-- crates/mtpfs/src/backend.rs).
pub mod Slices
pub mod Quirk
pub mod Served
pub mod Exact
use bsdroid.Base.{
  ltb, leb, ◌==◌, if◌then◌else◌, ltb→lt, lt→ltb, le→ltb, ==_iff, ==_refl, Bool-cases, Option-cases,
  same, same_iff,
}
use bsdroid.Base.{
  length, get_or, get_elem?, take, drop, find, All, length-append, length-take, length-drop,
  take-append-drop, take-length_append, drop-length_append, take_all, take-min, take-append-take,
  take-take, drop-drop, find-some, All-append, All-take, All-drop, get_or-All,
}
use bsdroid.Base.{Result, ok, err, then_ok, map_err, IsOk, Result-cases, map_err-ok}
use bsdroid.Base.{
  IsByte, IsU16, IsU32, IsU64, usize_max, le_u16, le_u32, from_le_u16, from_le_u32, u16_at, u32_at,
  from_le-le_u16, from_le-le_u32, le-from_le_u16, le-from_le_u32, u32_at-IsU32,
}
use bsdroid.Base.{
  ℕ, zero, suc, ◌+◌, ◌-◌, ◌*◌, ◌/◌, ◌%◌, ◌^◌, ◌≤◌, ◌<◌, min, max, String, ◌≡◌, refl, sym, ap, ◌∙◌,
  subst, ◌≢◌, ◌↔◌, ◌⊎◌, inl, inr, Bool, true, false, not, ◌&&◌, ◌||◌, Option, none, some, List, [],
  ◌∷◌, ◌++◌, map, append_assoc, append-nil, arith,
}
use bsdroid.Base.Action.{Action, pure, raise, lift, ◌>>=◌}
use bsdroid.Ptp.Device.{get_partial_object_64}
use bsdroid.Session.{Transport}
use bsdroid.Backend.{Error, read_ahead, split_final_read, ReadCache, cached, Mtp}
use bsdroid.Backend.Calls.{operation}

-- The parameters of a partial read. A conversion to `u32` keeps the low 32 bits.
unfoldable pub partial_params : ℕ → ℕ → ℕ → ℕ → List ℕ
partial_params code handle offset want =
    if code == get_partial_object_64
    then handle ∷ offset % 2 ^ 32 ∷ (offset / 2 ^ 32) % 2 ^ 32 ∷ want % 2 ^ 32 ∷ []
    else handle ∷ offset % 2 ^ 32 ∷ want % 2 ^ 32 ∷ []

module _ {D : Type 0} (tr : Transport D) where
  unfoldable pub partial_read : ℕ → ℕ → ℕ → Action Error (Mtp D) (List ℕ)
  unfolding operation partial_params
  partial_read handle offset want m =
      operation tr "GetPartialObject" m.partial_read
        (partial_params m.partial_read handle offset want) m

  -- The last byte, when the first read left it and gave all that it was asked for.
  unfoldable pub read_tail : ℕ → ℕ → ℕ → Bool → List ℕ → Action Error (Mtp D) (List ℕ)
  unfolding partial_read
  read_tail handle offset first short bytes =
      if short && (length bytes == first)
      then (partial_read handle (offset + first) 1 >>= λ tail. pure (bytes ++ tail))
      else pure bytes

  unfoldable pub read_from_device : ℕ → ℕ → ℕ → ℕ → Action Error (Mtp D) (List ℕ)
  unfolding split_final_read read_tail
  read_from_device handle offset want file_size m =
      let (first, short) = split_final_read offset want file_size m.packet in
      (partial_read handle offset first >>= λ bytes. read_tail handle offset first short bytes) m

  abbrev pub find_cached : ℕ → ℕ → ℕ → Option ReadCache → Option (List ℕ)
  find_cached handle at need none = none
  find_cached handle at need (some c) = cached c handle at need

  abbrev pub keep_cache : ℕ → ℕ → List ℕ → Mtp D → Mtp D
  keep_cache handle at bytes m = record m {
    cache = some (record { handle = handle; start = at; data_bytes = bytes });
  }

  -- The loop of `read_at`, with its rounds left: `out` is the answer so far.
  unfoldable pub fill_answer : ℕ → ℕ → ℕ → ℕ → ℕ → List ℕ → Action Error (Mtp D) (List ℕ)
  unfolding cached read_from_device
  fill_answer zero handle offset want file_size out m = (ok out, m)
  fill_answer (suc rounds) handle offset want file_size out m = elim (ltb (length out) want) [
    | false ↦ (ok out, m)
    | true ↦
        let at = offset + length out in
        let need = want - length out in
        elim (find_cached handle at need m.cache) [
          | some bytes ↦ fill_answer rounds handle offset want file_size (out ++ bytes) m
          | none ↦
              (read_from_device handle at (min (max need read_ahead) (file_size - at)) file_size
                  >>= λ bytes. elim (length bytes == 0) [
                    | true ↦ pure out
                    | false ↦ λ t.
                        fill_answer rounds handle offset want file_size
                          (out ++ take (min need (length bytes)) bytes)
                          (keep_cache handle at bytes t)
                  ])
                m
        ]
  ]

  -- Every round adds a byte, so there are as many rounds as bytes are wanted.
  unfoldable pub read_at : ℕ → ℕ → ℕ → ℕ → Action Error (Mtp D) (List ℕ)
  unfolding fill_answer
  read_at handle offset want file_size m =
      if (want == 0) || leb file_size offset
      then (ok [], m)
      else (let count = min want (file_size - offset) in
          fill_answer count handle offset count file_size [] m)
