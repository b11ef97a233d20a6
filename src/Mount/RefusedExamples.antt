-- ===== src/Mount/RefusedExamples.antt =====
-- A rename and a send on a device whose answers are all lost (crates/mtpfs/src/main.rs).
use bsdroid.Base.{same, ltb, ◌==◌, if◌then◌else◌, Bool-cases}
use bsdroid.Base.{get_or, length}
use bsdroid.Base.{err, Result-cases}
use bsdroid.Base.{ℕ, String, ◌≡◌, refl, inl, inr, Bool, true, false, ◌&&◌, some, List, [], ◌∷◌}
use bsdroid.Tree
use bsdroid.Tree.{Tree, Entry}
use bsdroid.Mount.{Pending, Fs}
use bsdroid.Usb.Device.{no_backend, high}
use bsdroid.Session.{Transport, Source, Session, SessionError, slice_source}
use bsdroid.Session.Send.{operation_sending, operation_with_data, send_phase}
use bsdroid.Ptp.Container.{build_command}
use bsdroid.Ptp.Header.{container_length}
use bsdroid.Session.Setup.{default_config}
use bsdroid.Backend.{Error, Mtp}
use bsdroid.Backend.Calls.{sending_data}
use bsdroid.Ptp.Device.{send_object_info}
use bsdroid.Ptp.PropList.{object_file_name}
use bsdroid.Ptp.Object.{build_for_send}
use bsdroid.Ptp.Text.{push_string}
use bsdroid.Backend.Examples.{mount_on}
use bsdroid.Backend.Folder.{list, list_by_properties, list_one_at_a_time}
use bsdroid.Backend.Changes.{
  storage_info, rename_object, move_object, delete_object, send_object_stream, announce_object,
  parent_arg, set_object_prop_value,
}
use bsdroid.Ptp.Header.{max_payload_len}
use bsdroid.Mount.Harmless.{Harmless}
use bsdroid.Mount.Change.{op_rename}
use bsdroid.Mount.Change.Renamed.{op_rename-Keeps}
use bsdroid.Mount.Send.{send_pending, make_room}
use bsdroid.Ptp.Header
use bsdroid.Ptp.Text
use bsdroid.Ptp.Utf16
use bsdroid.Base.Map
use bsdroid.Mount.Send.Saved.{DeleteFault, send_pending_fault}
use bsdroid.Base.{refl, ◌⊎◌}
use bsdroid.Mount.FileExamples.{Disk, two_at_a_time, path_a, path_b, entry_a, writing_a}

-- A command to delete, by the code in its header.
abbrev is_delete : List ℕ → Bool
is_delete bytes = (get_or bytes 6 0 == 0x0b) && (get_or bytes 7 0 == 0x10)

-- A device whose answers are all lost. Its state says whether the object is there, which a delete ends.
abbrev losing : Transport Bool
losing = record {
  write = λ bytes timeout d. (err no_backend, if is_delete bytes then false else d);
  read = λ n timeout d. (err no_backend, d);
  clear_stalls = λ d. d;
  speed = λ d. high;
  capabilities = λ timeout d. (err no_backend, d);
  reset = λ d. (err no_backend, d);
}

-- The object is there.
abbrev HasObject : Mtp Bool → Type 0
HasObject m = m.session.device ≡ true

-- The command of the code is no delete.
abbrev IsOther : ℕ → List ℕ → Type 0
IsOther code params = (tid : ℕ) → is_delete (build_command code tid params) ≡ false

-- An operation with a data phase that is no delete is refused, and the object stays.
operation_sending-Refused :
    {R : Type 0} (source : Source R) (patience : ℕ) (step : String) (code : ℕ) (params : List ℕ)
    (size : ℕ) (s : Session Bool) (r : R)
    → IsOther code params
    → s.device ≡ true
    → let (o, (s', r')) = operation_sending losing source patience step code params size (s, r) in
      (e : SessionError) × (o ≡ err e) × (s'.device ≡ true)
unfolding operation_sending send_phase
operation_sending-Refused source patience step code params size s r other k =
    elim (Result-cases (container_length size)) [
      | inl (n, fits) ↦ rw (operation_sending, send_phase, fits, other) (_, refl, k)
      | inr (e, large) ↦ rw (operation_sending, send_phase, large) (_, refl, k)
    ]

sending_data-Refused :
    (step : String) (code : ℕ) (params payload : List ℕ) (m : Mtp Bool)
    → IsOther code params
    → HasObject m
    → let (o, m') = sending_data losing step code params payload m in
      (e : Error) × (o ≡ err e) × HasObject m'
unfolding sending_data operation_with_data
sending_data-Refused step code params payload m other k =
    let (e, refused, kept) =
      operation_sending-Refused slice_source 0 step code params (length payload) m.session payload
        other k in
    rw (sending_data, operation_with_data, refused) (_, refl, kept)

announce_object-Refused :
    (info : List ℕ) (parent : ℕ) (m : Mtp Bool)
    → HasObject m
    → let (o, m') = announce_object losing info parent m in (e : Error) × (o ≡ err e) × HasObject m'
unfolding announce_object build_command
announce_object-Refused info parent m k =
    let (e, refused, kept) =
      sending_data-Refused "SendObjectInfo" send_object_info (m.storage ∷ parent ∷ []) info m
        (λ tid. refl) k in
    rw (announce_object, refused) (e, refl, kept)

list-HasObject : (p : ℕ) (m : Mtp Bool) → HasObject m → HasObject (list losing p m).1
unfolding list list_by_properties list_one_at_a_time Header.container_length build_command
list-HasObject p m k = elim (Bool-cases m.fast_list) [
  | inl fast ↦ rw (list, fast) k
  | inr slow ↦ rw (list, slow) k
]

-- The announcement is refused, so that no object is sent.
send-HasObject :
    (f : Unit {0}) (p size : ℕ) (name : List ℕ) (m : Mtp Bool) (h : Disk)
    → HasObject m
    → HasObject
        (send_object_stream losing
          (two_at_a_time.reader f)
          two_at_a_time.patience
          p
          name
          size
          (m, h)).1.0
unfolding send_object_stream
send-HasObject f p size name m h k = elim (Bool-cases (ltb max_payload_len size)) [
  | inl large ↦ rw (send_object_stream, large) k
  | inr fits ↦
      let (e, refused, kept) =
        announce_object-Refused (build_for_send m.storage p name size false) (parent_arg p) m k in
      rw (send_object_stream, fits, refused) kept
]

losing-Harmless : Harmless losing two_at_a_time HasObject
unfolding build_command storage_info rename_object move_object
losing-Harmless = record {
  listing = list-HasObject;
  space = λ m k. k;
  renaming = λ h name m k.
      let (e, refused, kept) =
        sending_data-Refused "SetObjectPropValue" set_object_prop_value (h ∷ object_file_name ∷ [])
          (push_string [] name) m (λ tid. refl) k in
      rw (rename_object, refused) kept;
  moving = λ h p m k. k;
  sending = send-HasObject;
}

-- The delete whose answer is lost is carried out.
delete_lost : (m : Mtp Bool) → (delete_object losing 9 m).1.session.device ≡ false
unfolding delete_object build_command
delete_lost m = refl

-- The root was read, and holds `a` and `b`.
abbrev fs_refused : Fs Bool Disk (Unit {0})
fs_refused = record {
  mtp =
      mount_on
        (record { device = true; transaction = 0; config = default_config; session_open = true });
  tree = record {
    entries = (9, entry_a) ∷ (10, record entry_a { handle = 10; name = b'b' ∷ [] }) ∷ [];
    children = (0, 9 ∷ 10 ∷ []) ∷ [];
    listed = (0, tt) ∷ [];
  };
  pending = [];
  host = ([], 0);
  spool_count = 1;
}

-- `/a` onto `/b`: the object at the target cannot be moved aside.
refused_rename : (op_rename losing path_a path_b (some fs_refused)).0 ≡ err 5
unfolding op_rename Tree.split_path same Tree.is_listed Map.contains_key Tree.children_named
    Header.container_length Text.push_string Utf16.encode_utf16 Utf16.char_units
refused_rename = refl

op_rename-Keeps_example :
    (next : Fs Bool Disk (Unit {0})) × ((op_rename losing path_a path_b (some fs_refused)).1
      ≡ some next)
    × HasObject next.mtp
op_rename-Keeps_example =
    op_rename-Keeps HasObject losing two_at_a_time losing-Harmless path_a path_b fs_refused 5
      (op_rename losing path_a path_b (some fs_refused)).1 refl
      (λ i. (refused_rename i, (op_rename losing path_a path_b (some fs_refused)).1))

-- A new content for `/a`.
abbrev replacing_a : Pending (Unit {0})
replacing_a = record writing_a { replaces = some 9 }

refused_send : (send_pending losing two_at_a_time replacing_a fs_refused).0.0 ≡ err 5
unfolding send_pending make_room Header.container_length Text.push_string Utf16.encode_utf16
    Utf16.char_units
refused_send = refl

send_pending_fault_example :
    HasObject (send_pending losing two_at_a_time replacing_a fs_refused).1.mtp
    ⊎ ((send_pending losing two_at_a_time replacing_a fs_refused).0.1.keep_spool ≡ true)
    ⊎ DeleteFault losing replacing_a fs_refused.mtp
send_pending_fault_example =
    send_pending_fault HasObject losing two_at_a_time losing-Harmless replacing_a fs_refused 5 refl
      refused_send
