-- ===== src/Backend/Changes/Dropped.antt =====
-- A change of the device drops what was read in advance (crates/mtpfs/src/backend.rs).
use bsdroid.Base.{Bool-cases}
use bsdroid.Base.{Result, ok, err}
use bsdroid.Base.{ℕ, String, ◌≡◌, refl, ◌⊎◌, inl, inr, none, List, [], ◌∷◌}
use bsdroid.Base.Action.{Action, pure, ◌>>=◌}
use bsdroid.Session.{SessionError, Outcome, is_success, Transport, Session}
use bsdroid.Session.Answer
use bsdroid.Session.Send.{operation_with_data}
use bsdroid.Backend.{Error, session, Mtp}
use bsdroid.Backend.Calls.{on_session, drop_cache, accepted, operation_that_changes, sending_data}
use bsdroid.Ptp.Text.{push_string}
use bsdroid.Ptp.PropList.{object_file_name}
use bsdroid.Ptp.Device
use bsdroid.Backend.Changes.{
  move_object_code, set_object_prop_value, parent_arg, rename_object, move_object, delete_object,
}

module _ {D : Type 0} (tr : Transport D) where
  -- An action drops the cache, unless the session itself fails.
  abbrev pub Drops : {A : Type 0} → Mtp D → Action Error (Mtp D) A → Type 0
  Drops m a = ((e : SessionError) × ((a m).0 ≡ err (session e))) ⊎ ((a m).1.cache ≡ none)

  accepted-cache {ℓ} :
      {A : Type ℓ} (step : String) (o : Outcome) (a : A) (m : Mtp D)
      → (accepted step o a m).1.cache ≡ m.cache
  unfolding accepted
  accepted-cache step o a m = elim (Bool-cases (is_success o)) [
    | inl good ↦ rw good refl
    | inr bad ↦ rw bad refl
  ]

  changing-Drops :
      (x : Action SessionError (Session D) Outcome) (step : String) (m : Mtp D)
      → Drops m (on_session x >>= λ o. drop_cache >>= λ u. accepted step o o.response_params)
  changing-Drops x step m = go (x m.session) refl
    where
      go :
          (r : Result SessionError Outcome × Session D)
          → x m.session ≡ r
          → Drops m (on_session x >>= λ o. drop_cache >>= λ u. accepted step o o.response_params)
      go (err e, s) run = inl (e, rw run refl)
      go (ok o, s) run = inr (
          rw run (accepted-cache step o o.response_params (record m { session = s; cache = none })))

  ignoring-Drops :
      {A : Type 0} (m : Mtp D) (a : Action Error (Mtp D) A)
      → Drops m a
      → Drops m (a >>= λ u. pure tt)
  ignoring-Drops {A = A} m a h = go (a m) refl h
    where
      go :
          (r : Result Error A × Mtp D)
          → a m ≡ r
          → ((e : SessionError) × (r.0 ≡ err (session e))) ⊎ (r.1.cache ≡ none)
          → Drops m (a >>= λ u. pure tt)
      go (ok b, t) run (inl (e, fault)) = absurd cc
      go (ok b, t) run (inr dropped) = inr (rw run dropped)
      go (err f, t) run (inl (e, fault)) = inl (e, rw run (cc))
      go (err f, t) run (inr dropped) = inr (rw run dropped)

  operation_that_changes-Drops :
      (step : String) (code : ℕ) (params : List ℕ) (m : Mtp D)
      → Drops m (operation_that_changes tr step code params)
  unfolding operation_that_changes
  operation_that_changes-Drops step code params m =
      changing-Drops (Answer.operation tr step code params) step m

  sending_data-Drops :
      (step : String) (code : ℕ) (params payload : List ℕ) (m : Mtp D)
      → Drops m (sending_data tr step code params payload)
  unfolding sending_data
  sending_data-Drops step code params payload m =
      changing-Drops (operation_with_data tr step code params payload) step m

  -- Removing, moving and renaming an object each drop what was read in advance, whether the device accepts the change or refuses it; the cache can only outlive a change when the session itself fails.
  pub changes-Drops :
      (m : Mtp D) (handle new_parent : ℕ) (name : List ℕ)
      → Drops m (delete_object tr handle)
        × Drops m (move_object tr handle new_parent)
        × Drops m (rename_object tr handle name)
  unfolding delete_object move_object rename_object
  changes-Drops m handle new_parent name = (
    ignoring-Drops m
        (operation_that_changes tr "DeleteObject" Device.delete_object (handle ∷ 0 ∷ []))
        (operation_that_changes-Drops "DeleteObject" Device.delete_object (handle ∷ 0 ∷ []) m),
    ignoring-Drops m
        (operation_that_changes tr "MoveObject" move_object_code
          (handle ∷ m.storage ∷ parent_arg new_parent ∷ []))
        (operation_that_changes-Drops "MoveObject" move_object_code
          (handle ∷ m.storage ∷ parent_arg new_parent ∷ []) m),
    ignoring-Drops m
        (sending_data tr "SetObjectPropValue" set_object_prop_value (handle ∷ object_file_name ∷ [])
          (push_string [] name))
        (sending_data-Drops "SetObjectPropValue" set_object_prop_value
          (handle ∷ object_file_name ∷ []) (push_string [] name) m),
  )
