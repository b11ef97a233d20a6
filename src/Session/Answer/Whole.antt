-- ===== src/Session/Answer/Whole.antt =====
-- An answer that `read_answer` (crates/mtp-session/src/lib.rs) reports as a success is whole,
-- whatever the device sends.
use bsdroid.Base.{length}
use bsdroid.Base.{ℕ, ◌+◌, ◌≡◌, List}
use bsdroid.Base.Action.{Action}
use bsdroid.Ptp.Header
use bsdroid.Ptp.Header.{Header}
use bsdroid.Session.{Transport, Session}
use bsdroid.Session.Answer.{Progress}

module _ {D : Type 0} (tr : Transport D) where
  -- What the loop adds to the vector is what it counts.
  abbrev Counted : Progress → List ℕ → Progress → List ℕ → Type 0
  Counted p w q v =
      (length v + p.payload_bytes ≡ length w + q.payload_bytes)
      × (q.have + p.payload_bytes ≡ p.have + q.payload_bytes)
