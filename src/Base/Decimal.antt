-- ===== src/Base/Decimal.antt =====
-- A number as `format!` prints it.
use bsdroid.Base.{ltb, if◌then◌else◌}
use bsdroid.Base.{ℕ, zero, suc, ◌+◌, ◌/◌, ◌%◌, List, [], ◌∷◌}

-- The decimal digits of a `u64`, which has 20 at most, before the digits behind them.
unfoldable pub digits : ℕ → ℕ → List ℕ → List ℕ
digits zero n behind = behind
digits (suc rounds) n behind =
    let text = (48 + n % 10) ∷ behind in
    let more = digits rounds (n / 10) text in if ltb n 10 then text else more

abbrev pub decimal : ℕ → List ℕ
decimal n = digits 20 n []
