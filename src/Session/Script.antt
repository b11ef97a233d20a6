-- ===== src/Session/Script.antt =====
-- A device that answers from a script, for the tests of crates/mtp-session/src/lib.rs.
use bsdroid.Base.{length, ok, err}
use bsdroid.Base.{ℕ, false, List, [], ◌∷◌, ◌++◌}
use bsdroid.Usb.Device.{no_backend, high}
use bsdroid.Session.{Transport, Session}
use bsdroid.Session.Setup.{Config}

-- A device that gives the transfers of a script, and keeps what was written to it.
pub record Script : Type 0 where
  pub left : List (List ℕ)
  pub written : List (List ℕ)

abbrev next_transfer : List (List ℕ) → List ℕ × List (List ℕ)
next_transfer [] = ([], [])
next_transfer (x ∷ xs) = (x, xs)

abbrev pub scripted : Transport Script
scripted = record {
  write = λ bytes timeout d. (ok (length bytes), record d { written = d.written ++ (bytes ∷ []) });
  read =
      λ size timeout d. (ok (next_transfer d.left).0, record d { left = (next_transfer d.left).1 });
  clear_stalls = λ d. d;
  speed = λ d. high;
  capabilities = λ timeout d. (err no_backend, d);
  reset = λ d. (ok tt, d);
}

abbrev pub session_on : List (List ℕ) → Config → Session Script
session_on transfers config = record {
  device = record { left = transfers; written = [] };
  transaction = 7;
  config = config;
  session_open = false;
}

-- `OK`, with the transaction 7.
abbrev pub ok_response : List ℕ
ok_response = 12 ∷ 0 ∷ 0 ∷ 0 ∷ 3 ∷ 0 ∷ 1 ∷ 32 ∷ 7 ∷ 0 ∷ 0 ∷ 0 ∷ []
