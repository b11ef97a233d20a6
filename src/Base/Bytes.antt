-- ===== src/Base/Bytes.antt =====
-- Bytes, machine widths and little-endian fields (`to_le_bytes` and `from_le_bytes` of Rust).
use Prim.Native.Nat.{ℕ, suc, ◌+◌, ◌*◌, ◌/◌, ◌%◌, ◌^◌, ◌<◌}
use mathlib.Core.Path.{◌≡◌}
use mathlib.Core.List.{List, [], ◌∷◌}
use native.Mathlib.Omega.{arith}
use bsdroid.Base.Lists.{get_or, All, get_or-All}

abbrev pub IsByte : ℕ → Type 0
IsByte b = b < 256

abbrev pub IsU16 : ℕ → Type 0
IsU16 v = v < 2 ^ 16

abbrev pub IsU32 : ℕ → Type 0
IsU32 v = v < 2 ^ 32

abbrev pub IsU64 : ℕ → Type 0
IsU64 v = v < 2 ^ 64

-- The target is 64-bit: `usize` has 64 bits.
abbrev pub usize_max : ℕ
usize_max = 0xffff_ffff_ffff_ffff

abbrev pub le_u16 : ℕ → List ℕ
le_u16 v = v % 256 ∷ v / 256 % 256 ∷ []

abbrev pub le_u32 : ℕ → List ℕ
le_u32 v = v % 256 ∷ v / 256 % 256 ∷ v / 0x1_0000 % 256 ∷ v / 0x100_0000 % 256 ∷ []

abbrev pub from_le_u16 : ℕ → ℕ → ℕ
from_le_u16 a b = a + b * 0x100

abbrev pub from_le_u32 : ℕ → ℕ → ℕ → ℕ → ℕ
from_le_u32 a b c d = a + b * 0x100 + c * 0x1_0000 + d * 0x100_0000

-- The field at an offset. A caller has checked the length first, so the default is never read.
abbrev pub u16_at : List ℕ → ℕ → ℕ
u16_at buf i = from_le_u16 (get_or buf i 0) (get_or buf (suc i) 0)

abbrev pub u32_at : List ℕ → ℕ → ℕ
u32_at buf i =
    from_le_u32 (get_or buf i 0) (get_or buf (suc i) 0) (get_or buf (suc (suc i)) 0)
      (get_or buf (suc (suc (suc i))) 0)

pub from_le-le_u16 : (v : ℕ) → IsU16 v → from_le_u16 (v % 256) (v / 256 % 256) ≡ v
from_le-le_u16 v h = omega arith

pub from_le-le_u32 :
    (v : ℕ)
    → IsU32 v
    → from_le_u32 (v % 256) (v / 256 % 256) (v / 0x1_0000 % 256) (v / 0x100_0000 % 256) ≡ v
from_le-le_u32 v h = omega arith

pub le-from_le_u16 : (a b : ℕ) → IsByte a → IsByte b → le_u16 (from_le_u16 a b) ≡ a ∷ b ∷ []
le-from_le_u16 a b ha hb = ground arith

pub le-from_le_u32 :
    (a b c d : ℕ)
    → IsByte a
    → IsByte b
    → IsByte c
    → IsByte d
    → le_u32 (from_le_u32 a b c d) ≡ a ∷ b ∷ c ∷ d ∷ []
le-from_le_u32 a b c d ha hb hc hd = ground arith

pub u32_at-IsU32 : (buf : List ℕ) (i : ℕ) → All IsByte buf → IsU32 (u32_at buf i)
u32_at-IsU32 buf i h =
    let byte = λ (j : ℕ). get_or-All IsByte 0 buf j (omega arith) h in
    omega (arith, byte i, byte (suc i), byte (suc (suc i)), byte (suc (suc (suc i))))
