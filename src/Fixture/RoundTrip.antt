-- ===== src/Fixture/RoundTrip.antt =====
-- A fixture as a person writes it, and what the reader (crates/hex-fixture/src/lib.rs) gives for it.
use bsdroid.Base.{ltb, if◌then◌else◌}
use bsdroid.Base.{All}
use bsdroid.Base.{IsByte}
use bsdroid.Base.{ℕ, ◌+◌, ◌-◌, ◌/◌, ◌%◌, ◌≢◌, List, [], ◌∷◌, ◌++◌}
use bsdroid.Fixture.{newline}

-- One digit, in lower case.
abbrev pub digit : ℕ → ℕ
digit v = if ltb v 10 then b'0' + v else b'a' + (v - 10)

-- Each byte as two digits and a space.
abbrev pub hex : List ℕ → List ℕ
hex [] = []
hex (b ∷ bs) = digit (b / 16) ∷ digit (b % 16) ∷ b' ' ∷ hex bs

-- A line of bytes with a comment behind them.
abbrev pub render_rows : List (List ℕ × List ℕ) → List ℕ
render_rows [] = []
render_rows ((bytes, comment) ∷ rows) = (hex bytes ++ b'#' ∷ comment) ++ newline ∷ render_rows rows

-- A comment stays on its line.
abbrev pub OnOneLine : ℕ → Type 0
OnOneLine c = (c ≢ newline) × (c ≢ 13)

abbrev pub IsRow : List ℕ × List ℕ → Type 0
IsRow (bytes, comment) = All IsByte bytes × All OnOneLine comment

abbrev pub bytes_of : List (List ℕ × List ℕ) → List ℕ
bytes_of [] = []
bytes_of ((bytes, comment) ∷ rows) = bytes ++ bytes_of rows

-- The digits of bytes, as the reader keeps them.
abbrev digits : List ℕ → List ℕ
digits [] = []
digits (b ∷ bs) = digit (b / 16) ∷ digit (b % 16) ∷ digits bs
