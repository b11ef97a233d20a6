-- ===== src/Backend/Calls.antt =====
-- The operations of the mount on its session (`operation`, `operation_that_changes` and
-- `sending_data` of crates/mtpfs/src/backend.rs).
use bsdroid.Base.{if◌then◌else◌}
use bsdroid.Base.{ok, err, map_err}
use bsdroid.Base.{ℕ, String, not, none, List}
use bsdroid.Base.Action.{Action, ◌>>=◌}
use bsdroid.Session.{SessionError, Outcome, is_success, Transport, Session}
use bsdroid.Session.Answer
use bsdroid.Session.Send.{operation_with_data}
use bsdroid.Backend.{Error, device, session, Mtp}

module _ {D : Type 0} where
  -- An action of the session, with its fault as a fault of the mount.
  abbrev pub on_session {ℓ} :
      {A : Type ℓ} → Action SessionError (Session D) A → Action Error (Mtp D) A
  on_session m t = let (r, s) = m t.session in (map_err session r, record t { session = s })

  abbrev pub drop_cache : Action Error (Mtp D) (Unit {0})
  drop_cache t = (ok tt, record t { cache = none })

  -- The test of the response code.
  unfoldable pub accepted {ℓ} : {A : Type ℓ} → String → Outcome → A → Action Error (Mtp D) A
  accepted step o a t =
      if not (is_success o) then (err (device step o.response_code), t) else (ok a, t)

module _ {D : Type 0} (tr : Transport D) where
  unfoldable pub operation : String → ℕ → List ℕ → Action Error (Mtp D) (List ℕ)
  unfolding Answer.operation accepted
  operation step code params =
      on_session (Answer.operation tr step code params) >>= λ o. accepted step o o.data_bytes

  unfoldable pub operation_that_changes : String → ℕ → List ℕ → Action Error (Mtp D) (List ℕ)
  unfolding Answer.operation accepted
  operation_that_changes step code params =
      on_session (Answer.operation tr step code params) >>= λ o.
      drop_cache >>= λ _. accepted step o o.response_params

  unfoldable pub sending_data : String → ℕ → List ℕ → List ℕ → Action Error (Mtp D) (List ℕ)
  unfolding operation_with_data accepted
  sending_data step code params payload =
      on_session (operation_with_data tr step code params payload) >>= λ o.
      drop_cache >>= λ _. accepted step o o.response_params
