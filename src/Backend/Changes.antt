-- ===== src/Backend/Changes.antt =====
-- What the mount changes on the device (`send_object`, `announce_object`, `storage_info`,
-- `rename_object`, `move_object`, `send_object_stream` and `delete_object` of
-- crates/mtpfs/src/backend.rs).
pub mod Dropped
use bsdroid.Base.{
  ltb, leb, ◌==◌, if◌then◌else◌, ltb→lt, lt→ltb, le→ltb, ==_iff, ==_refl, Bool-cases, Option-cases,
  same, same_iff,
}
use bsdroid.Base.{
  length, get_or, get_elem?, take, drop, find, All, length-append, length-take, length-drop,
  take-append-drop, take-length_append, drop-length_append, take_all, take-min, take-append-take,
  take-take, drop-drop, find-some, All-append, All-take, All-drop, get_or-All,
}
use bsdroid.Base.{Result, ok, err, then_ok, map_err, IsOk, Result-cases, map_err-ok}
use bsdroid.Base.{
  IsByte, IsU16, IsU32, IsU64, usize_max, le_u16, le_u32, from_le_u16, from_le_u32, u16_at, u32_at,
  from_le-le_u16, from_le-le_u32, le-from_le_u16, le-from_le_u32, u32_at-IsU32,
}
use bsdroid.Base.{
  ℕ, zero, suc, ◌+◌, ◌-◌, ◌*◌, ◌/◌, ◌%◌, ◌^◌, ◌≤◌, ◌<◌, min, max, String, ◌≡◌, refl, sym, ap, ◌∙◌,
  subst, ◌≢◌, ◌↔◌, ◌⊎◌, inl, inr, Bool, true, false, not, ◌&&◌, ◌||◌, Option, none, some, List, [],
  ◌∷◌, ◌++◌, map, append_assoc, append-nil, arith,
}
use bsdroid.Base.Action.{Action, pure, raise, lift, ◌>>=◌}
use bsdroid.Ptp.Header.{max_payload_len}
use bsdroid.Ptp.Text.{push_string}
use bsdroid.Ptp.Object.{build_for_send}
use bsdroid.Ptp.PropList.{object_file_name}
use bsdroid.Ptp.Device.{StorageInfo, parse_storage_info, supports, send_object_info}
use bsdroid.Ptp.Device
use bsdroid.Tree.{root}
use bsdroid.Session.{resp_ok, Transport, Source}
use bsdroid.Session.Send.{operation_sending}
use bsdroid.Backend.{Error, parse, device, session, too_large, Mtp}
use bsdroid.Backend.Calls.{drop_cache, accepted, operation, operation_that_changes, sending_data}

-- `op::GET_STORAGE_INFO`, `op::MOVE_OBJECT` and `op::SET_OBJECT_PROP_VALUE`.
abbrev pub get_storage_info : ℕ
get_storage_info = 0x1005

abbrev pub move_object_code : ℕ
move_object_code = 0x1019

abbrev pub set_object_prop_value : ℕ
set_object_prop_value = 0x9804

-- The parent of an object in the root, as `SendObjectInfo` and `MoveObject` take it.
abbrev pub parent_arg : ℕ → ℕ
parent_arg parent = if parent == root then 0xffff_ffff else parent

-- `params.get(2)`: the response holds the storage, the parent and the handle.
unfoldable pub third : List ℕ → Result Error ℕ
third params = elim (get_elem? params 2) [
  | some handle ↦ ok handle
  | none ↦ err (device "SendObjectInfo" resp_ok)
]

module _ {D : Type 0} (tr : Transport D) where
  unfoldable pub announce_object : List ℕ → ℕ → Action Error (Mtp D) ℕ
  unfolding sending_data third
  announce_object info parent m =
      (sending_data tr "SendObjectInfo" send_object_info (m.storage ∷ parent ∷ []) info
          >>= λ params. lift (third params))
        m

  unfoldable pub send_object : ℕ → List ℕ → List ℕ → Bool → Action Error (Mtp D) ℕ
  unfolding announce_object sending_data
  send_object parent name bytes is_folder m =
      if ltb max_payload_len (length bytes)
      then (err (too_large (length bytes)), m)
      else (announce_object (build_for_send m.storage parent name (length bytes) is_folder)
              (parent_arg parent)
            >>= λ handle.
                if is_folder
                then pure handle
                else (sending_data tr "SendObject" Device.send_object [] bytes >>= λ _.
                    pure handle))
          m

  unfoldable pub storage_info : Action Error (Mtp D) (ℕ × ℕ)
  unfolding operation
  storage_info m =
      (operation tr "GetStorageInfo" get_storage_info (m.storage ∷ []) >>= λ bytes.
      lift (map_err parse (parse_storage_info bytes)) >>= λ i.
      pure (i.max_capacity, i.free_space_in_bytes))
        m

  unfoldable pub rename_object : ℕ → List ℕ → Action Error (Mtp D) (Unit {0})
  unfolding sending_data
  rename_object handle name =
      sending_data tr "SetObjectPropValue" set_object_prop_value (handle ∷ object_file_name ∷ [])
        (push_string [] name)
      >>= λ _. pure tt

  unfoldable pub move_object : ℕ → ℕ → Action Error (Mtp D) (Unit {0})
  unfolding operation_that_changes
  move_object handle new_parent m =
      (operation_that_changes tr "MoveObject" move_object_code
            (handle ∷ m.storage ∷ parent_arg new_parent ∷ [])
          >>= λ _. pure tt)
        m

  unfoldable pub delete_object : ℕ → Action Error (Mtp D) (Unit {0})
  unfolding operation_that_changes
  delete_object handle =
      operation_that_changes tr "DeleteObject" Device.delete_object (handle ∷ 0 ∷ []) >>= λ _.
      pure tt

  -- `send_object_stream`: the bytes come from a source, which may be interrupted `patience` times in a read.
  unfoldable pub send_object_stream :
      {R : Type 0} → Source R → ℕ → ℕ → List ℕ → ℕ → Action Error (Mtp D × R) ℕ
  unfolding announce_object operation_sending accepted
  send_object_stream source patience parent name size (m, r) =
      if ltb max_payload_len size
      then (err (too_large size), (m, r))
      else (let (announced, m1) =
            announce_object (build_for_send m.storage parent name size false) (parent_arg parent)
              m in
          elim announced [
            | err e ↦ (err e, (m1, r))
            | ok handle ↦
                let (sent, (s, r1)) =
                  operation_sending tr source patience "SendObject" Device.send_object [] size
                    (m1.session, r) in
                let m2 = record m1 { session = s } in
                elim sent [
                  | err e ↦ (err (session e), (m2, r1))
                  | ok o ↦
                      let (x, m3) = (drop_cache >>= λ _. accepted "SendObject" o handle) m2 in
                      (x, (m3, r1))
                ]
          ])

abbrev pub can_rename : {D : Type 0} → Mtp D → Bool
can_rename m = supports m.info set_object_prop_value

abbrev pub can_move : {D : Type 0} → Mtp D → Bool
can_move m = supports m.info move_object_code
