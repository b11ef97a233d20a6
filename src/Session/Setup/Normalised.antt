-- ===== src/Session/Setup/Normalised.antt =====
-- What `Config::normalised` (crates/mtp-session/src/lib.rs) makes sure of.
use bsdroid.Base.{ltb, ◌==◌, if◌then◌else◌, le→ltb, ==_iff, Bool-cases}
use bsdroid.Base.{ℕ, ◌+◌, ◌-◌, ◌*◌, ◌/◌, ◌%◌, ◌≤◌, ◌<◌, ◌≡◌, ap, ◌∙◌, inl, inr, false, arith}
use native.Mathlib.Nat.{
  div-add-mod, mul-mod_right, mod-lt, le-div_iff_mul-le, mul-le-mul_left, lt_of_mul-lt-mul_left,
}
use bsdroid.Ptp.Header.{header_len}
use bsdroid.Session.Setup.{Config, read_buffer_min, usb2_packet, next_multiple_of, normalised}

-- A configuration with which a transfer works: a read holds a header, and a write is a whole number of packets and holds more than a header.
pub record IsUsable (c : Config) : Type 0 where
  pub has_packet : 0 < c.packet
  pub read_holds : read_buffer_min ≤ c.read_buffer
  pub write_holds : header_len < c.write_chunk
  pub whole_packets : c.write_chunk % c.packet ≡ 0

round_down : (n m : ℕ) → n - n % m ≡ m * (n / m)
round_down n m = omega (arith, div-add-mod n m)

round_down_whole : (n m : ℕ) → (n - n % m) % m ≡ 0
round_down_whole n m = ap (λ x. x % m) (round_down n m) ∙ mul-mod_right m (n / m)

next_multiple_of-eq : (n m : ℕ) → 0 < m → (k : ℕ) × (next_multiple_of n m ≡ m * k) × (n ≤ m * k)
unfolding next_multiple_of
next_multiple_of-eq n m h = elim (Bool-cases (n % m == 0)) [
  | inl whole ↦
      let none_left : n % m ≡ 0 = (==_iff (n % m) 0).0 whole in
      let e : n ≡ m * (n / m) = omega (arith, div-add-mod n m) in
      (n / m, rw whole e, omega (arith, e))
  | inr part ↦
      let small = mod-lt n h in
      let step : m * (n / m + 1) ≡ m * (n / m) + m = grind arith in
      let e : n + (m - n % m) ≡ m * (n / m + 1) = omega (arith, div-add-mod n m) in
      (n / m + 1, rw part e, omega (arith, e))
]

-- A count that is at least a multiple stays so when it is rounded down.
round_down_le : (n m k : ℕ) → 0 < m → m * k ≤ n → m * k ≤ n - n % m
round_down_le n m k h le =
    let swapped : k * m ≤ n = omega arith in
    let below : k ≤ n / m = (le-div_iff_mul-le h).1 swapped in
    let scaled = mul-le-mul_left m below in omega (arith, round_down n m)

-- The chunk that is rounded down holds more than a header.
rounded_chunk :
    (packet chunk : ℕ)
    → 0 < packet
    → let c =
        if ltb chunk (next_multiple_of (header_len + 1) packet)
        then next_multiple_of (header_len + 1) packet
        else chunk in
      header_len < c - c % packet
rounded_chunk packet chunk h =
    let (k, e, holds) = next_multiple_of-eq (header_len + 1) packet h in
    let enough = λ (c : ℕ) (le : packet * k ≤ c). round_down_le c packet k h le in
    elim (Bool-cases (ltb chunk (next_multiple_of (header_len + 1) packet))) [
      | inl small ↦ rw (small, e) (omega (arith, enough (packet * k) (omega arith)))
      | inr large ↦
          let le : packet * k ≤ chunk = ground (arith, large, e) in
          rw large (omega (arith, enough chunk le))
    ]

-- A usable configuration stays as it is.
next_multiple_of-le :
    (n m chunk : ℕ) → 0 < m → n ≤ chunk → chunk % m ≡ 0 → next_multiple_of n m ≤ chunk
unfolding next_multiple_of
next_multiple_of-le n m chunk h le whole = elim (Bool-cases (n % m == 0)) [
  | inl exact ↦ rw exact le
  | inr part ↦
      let some_left : 0 < n % m = ground (arith, part) in
      let between : m * (n / m) < m * (chunk / m) =
        omega (arith, div-add-mod n m, div-add-mod chunk m) in
      let scaled : m * (n / m + 1) ≤ m * (chunk / m) =
        mul-le-mul_left m (omega (arith, lt_of_mul-lt-mul_left m between)) in
      let step : m * (n / m + 1) ≡ m * (n / m) + m = grind arith in
      rw part (omega (arith, mod-lt n h, div-add-mod n m, div-add-mod chunk m, scaled, step))
]

normalised_usable : (c : Config) → IsUsable c → normalised c ≡ c
unfolding normalised
normalised_usable c u =
    let packet : (c.packet == 0) ≡ false = ground (arith, u.has_packet) in
    let chunk : ltb c.write_chunk (next_multiple_of (header_len + 1) c.packet) ≡ false =
      le→ltb _ _ (
        next_multiple_of-le (header_len + 1) c.packet c.write_chunk u.has_packet
          (omega (arith, u.write_holds)) u.whole_packets) in
    let buffer : ltb c.read_buffer read_buffer_min ≡ false = le→ltb _ _ u.read_holds in
    let exact : c.write_chunk - c.write_chunk % c.packet ≡ c.write_chunk =
      omega (arith, u.whole_packets) in
    rw (packet, chunk, buffer, exact)

usable : (c : Config) → IsUsable (normalised c)
unfolding normalised
usable c =
    let packet = (if c.packet == 0 then usb2_packet else c.packet) in
    let positive : 0 < packet = ground arith in
    record {
      has_packet = positive;
      read_holds = ground arith;
      write_holds = rounded_chunk packet c.write_chunk positive;
      whole_packets = round_down_whole _ packet;
    }

-- Whatever the caller asks for, the configuration that a session uses is one with which a transfer works; and to correct it again changes nothing.
pub normalised-IsUsable :
    (c : Config) → IsUsable (normalised c) × (normalised (normalised c) ≡ normalised c)
normalised-IsUsable c = (usable c, normalised_usable (normalised c) (usable c))
