-- ===== src/Usb/Bos/Speeds.antt =====
-- What a BOS descriptor says of a device's speed (crates/usb-freebsd/src/descriptor.rs).
use bsdroid.Base.{leb, ◌==◌, Bool-cases}
use bsdroid.Base.{length, get_or}
use bsdroid.Base.{ok}
use bsdroid.Base.{u16_at}
use bsdroid.Base.{
  ℕ, zero, suc, ◌+◌, ◌≤◌, ◌<◌, min, ◌≡◌, refl, ◌⊎◌, inl, inr, true, ◌||◌, none, List, arith,
}
use bsdroid.Usb.Bos.{
  DeviceCapabilities, note_capability, loop, no_capabilities, parse, supports_faster_than_high,
  type_bos,
}

-- A mask of speeds is there only with the capability that carries it.
abbrev IsBacked : DeviceCapabilities → Type 0
IsBacked c = (c.super_speed ≡ true) ⊎ (c.speeds_supported ≡ none)

note_capability-IsBacked :
    (buf : List ℕ) (pos len : ℕ) (out : DeviceCapabilities)
    → IsBacked out
    → IsBacked (note_capability buf pos len out)
unfolding note_capability
note_capability-IsBacked buf pos len out h = ground (arith, h)

loop-IsBacked :
    (rounds : ℕ) (buf : List ℕ) (end pos : ℕ) (out c : DeviceCapabilities)
    → IsBacked out
    → loop rounds buf end pos out ≡ ok c
    → IsBacked c
unfolding loop
loop-IsBacked zero buf end pos out c h e = let same_out : out ≡ c = cc in rw (← same_out) h
loop-IsBacked (suc rounds) buf end pos out c h e =
    let len = get_or buf pos 0 in
    let ih =
      loop-IsBacked rounds buf end (pos + len) (note_capability buf pos len out) c
        (note_capability-IsBacked buf pos len out h) in
    elim (Bool-cases (leb (pos + 3) end)) [
      | inl more ↦
          let next : loop rounds buf end (pos + len) (note_capability buf pos len out) ≡ ok c =
            ground (arith, more, e) in
          ih next
      | inr last ↦ let same_out : out ≡ c = ground (arith, last, e) in rw (← same_out) h
    ]

-- For what the parser reads, a device is faster than high speed exactly when it names one of the two capabilities: the mask of speeds never decides.
pub supports_faster_than_high_lem :
    (buf : List ℕ) (c : DeviceCapabilities)
    → parse buf ≡ ok c
    → supports_faster_than_high c ≡ (c.super_speed_plus || c.super_speed)
unfolding supports_faster_than_high parse
supports_faster_than_high_lem buf c e =
    let end = min (length buf) (u16_at buf 2) in
    let looped : loop end buf end (get_or buf 0 0) no_capabilities ≡ ok c = ground (arith, e) in
    ground (arith, loop-IsBacked end buf end (get_or buf 0 0) no_capabilities c (inr refl) looped)

loop_rounds :
    (m n : ℕ) (buf : List ℕ) (end pos : ℕ) (out : DeviceCapabilities)
    → end ≤ pos + m
    → end ≤ pos + n
    → loop m buf end pos out ≡ loop n buf end pos out
unfolding loop
loop_rounds zero zero buf end pos out hm hn = refl
loop_rounds zero (suc n) buf end pos out hm hn = ground arith
loop_rounds (suc m) zero buf end pos out hm hn = ground arith
loop_rounds (suc m) (suc n) buf end pos out hm hn =
    let len = get_or buf pos 0 in
    elim (Bool-cases (len == 0)) [
      | inl stuck ↦ ground (arith, stuck)
      | inr moves ↦
          let positive : 0 < len = ground (arith, moves) in
          rw
            (loop_rounds m n buf end (pos + len) (note_capability buf pos len out) (omega arith)
              (omega arith))
            refl
    ]

-- The loop stops by itself: any larger count of rounds gives what the parser gives, on every buffer that passes the checks of the header.
pub parse_rounds :
    (buf : List ℕ) (rounds : ℕ)
    → 5 ≤ length buf
    → get_or buf 1 0 ≡ type_bos
    → 0 < get_or buf 0 0
    → length buf ≤ rounds
    → parse buf ≡ loop rounds buf (min (length buf) (u16_at buf 2)) (get_or buf 0 0) no_capabilities
unfolding parse
parse_rounds buf rounds long kind size enough =
    let end = min (length buf) (u16_at buf 2) in
    ground (
      arith,
      long,
      kind,
      size,
      loop_rounds end rounds buf end (get_or buf 0 0) no_capabilities (omega arith) (omega arith),
    )
