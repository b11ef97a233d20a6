-- ===== src/Usb/Device/Tables.antt =====
-- What the tables of crates/usb-freebsd/src/device.rs promise.
use bsdroid.Base.{ltb, Bool-cases}
use bsdroid.Base.{ok, err}
use bsdroid.Base.{IsU32}
use bsdroid.Base.{
  ℕ, ◌*◌, ◌%◌, ◌^◌, ◌≤◌, ◌<◌, max, ◌≡◌, refl, sym, ap, ◌∙◌, ◌↔◌, ◌⊎◌, inl, inr, true, none, some,
  arith,
}
use bsdroid.Usb.Device.{
  timeout_too_large, TransferStatus, status_from_wire, is_ok, LinkSpeed, speed_from_wire,
  bits_per_second, practical_bytes_per_second, timeout_millis,
}

-- The wire value that each status and each speed stands for.
status_to_wire : TransferStatus → ℕ
status_to_wire TransferStatus.completed = 0
status_to_wire TransferStatus.error = 3
status_to_wire TransferStatus.timed_out = 4
status_to_wire TransferStatus.cancelled = 5
status_to_wire TransferStatus.stall = 6
status_to_wire TransferStatus.no_device = 7
status_to_wire TransferStatus.overflow = 8
status_to_wire (TransferStatus.other v) = v

speed_to_wire : LinkSpeed → ℕ
speed_to_wire LinkSpeed.unknown = 0
speed_to_wire LinkSpeed.low = 1
speed_to_wire LinkSpeed.full = 2
speed_to_wire LinkSpeed.high = 3
speed_to_wire LinkSpeed.variable = 4
speed_to_wire LinkSpeed.super = 5
speed_to_wire LinkSpeed.super_plus = 6
speed_to_wire (LinkSpeed.other_speed v) = v

status_wire : (v : ℕ) → status_to_wire (status_from_wire v) ≡ v
unfolding status_to_wire status_from_wire
status_wire v = ground arith

speed_wire : (v : ℕ) → speed_to_wire (speed_from_wire v) ≡ v
unfolding speed_to_wire speed_from_wire
speed_wire v = ground arith

-- A timeout that is accepted is at least one millisecond, fits in 32 bits, and is the one that was asked for unless that was zero; a timeout is refused exactly when it does not fit, and the error names it.
pub timeout_millis_lem :
    (ms : ℕ)
    → ((t : ℕ) × (timeout_millis ms ≡ ok t) × (1 ≤ t) × IsU32 t × ((ms ≡ t) ⊎ ((ms ≡ 0) × (t ≡ 1))))
      ⊎ ((2 ^ 32 ≤ ms) × (timeout_millis ms ≡ err (timeout_too_large ms)))
unfolding timeout_millis
timeout_millis_lem ms = elim (Bool-cases (ltb 0xffff_ffff ms)) [
  | inl large ↦ inr (ground (arith, large), rw large)
  | inr fits ↦ inl (
    max 1 (ms % 2 ^ 32),
    rw fits,
    ground (arith, fits),
    ground (arith, fits),
    ground (arith, fits),
  )
]

-- The estimate of what a copy can reach is there exactly where the rate of the signal is, and never above it.
pub practical_bytes_per_second_lem :
    (s : LinkSpeed)
    → ((bits_per_second s ≡ none) × (practical_bytes_per_second s ≡ none))
      ⊎ ((b p : ℕ) × (bits_per_second s ≡ some b)
          × (practical_bytes_per_second s ≡ some p)
          × (0 < p)
          × (p * 8 ≤ b))
unfolding bits_per_second practical_bytes_per_second
practical_bytes_per_second_lem LinkSpeed.unknown = inl (refl, refl)
practical_bytes_per_second_lem LinkSpeed.low = inr (_, _, refl, refl, omega arith, omega arith)
practical_bytes_per_second_lem LinkSpeed.full = inr (_, _, refl, refl, omega arith, omega arith)
practical_bytes_per_second_lem LinkSpeed.high = inr (_, _, refl, refl, omega arith, omega arith)
practical_bytes_per_second_lem LinkSpeed.variable = inl (refl, refl)
practical_bytes_per_second_lem LinkSpeed.super = inr (_, _, refl, refl, omega arith, omega arith)
practical_bytes_per_second_lem LinkSpeed.super_plus =
    inr (_, _, refl, refl, omega arith, omega arith)
practical_bytes_per_second_lem (LinkSpeed.other_speed v) = inl (refl, refl)

-- No two wire values read as the same status or as the same speed, and only the value zero is a transfer that finished.
pub from_wire_lem :
    (v w : ℕ)
    → ((status_from_wire v ≡ status_from_wire w) ↔ (v ≡ w))
      × ((speed_from_wire v ≡ speed_from_wire w) ↔ (v ≡ w))
      × ((is_ok (status_from_wire v) ≡ true) ↔ (v ≡ 0))
unfolding is_ok
from_wire_lem v w = (
  (λ e. sym (status_wire v) ∙ ap status_to_wire e ∙ status_wire w, ap status_from_wire),
  (λ e. sym (speed_wire v) ∙ ap speed_to_wire e ∙ speed_wire w, ap speed_from_wire),
  unfold status_from_wire in ground arith,
)
