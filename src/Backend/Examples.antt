-- ===== src/Backend/Examples.antt =====
-- Mounts over devices that answer from a script (crates/mtpfs/src/backend.rs).
use bsdroid.Base.{length, ok, err}
use bsdroid.Base.{
  ℕ, ◌+◌, ◌%◌, ◌^◌, ◌≤◌, ◌<◌, String, ◌≡◌, refl, sym, subst, ◌⊎◌, inl, Bool, true, false, none,
  some, List, [], ◌∷◌, arith,
}
use bsdroid.Usb.Device.{no_backend, high}
use bsdroid.Base.Map
use bsdroid.Ptp.Reader
use bsdroid.Ptp.Utf16
use bsdroid.Ptp.PropList
use bsdroid.Ptp.Header
use bsdroid.Ptp.Container
use bsdroid.Ptp.Device.{DeviceInfo, get_partial_object_64}
use bsdroid.Ptp.PropList.{PropEntry, fold_prop_list}
use bsdroid.Tree.{Entry}
use bsdroid.Session.{Outcome, resp_ok, Transport, Session}
use bsdroid.Session.Setup.{default_config}
use bsdroid.Session.Answer
use bsdroid.Session.Script.{Script, scripted, session_on, ok_response}
use bsdroid.Backend.{default_settings, split_final_read, ReadCache, Mtp}
use bsdroid.Backend.Read.{read_at}
use bsdroid.Backend.Read.Slices.{slice}
use bsdroid.Backend.Read.Quirk.{IsSafe, split_final_read-IsSafe}
use bsdroid.Backend.Read.Served.{Serves}
use bsdroid.Backend.Read.Exact.{IsReady, GivesAndKeeps, read_at-GivesAndKeeps}
use bsdroid.Backend.Changes.{delete_object, move_object, rename_object}
use bsdroid.Backend.Changes.Dropped.{Drops, changes-Drops}
use bsdroid.Backend.Folder.{list_by_properties}
use bsdroid.Backend.Folder.Asked.{Asked}
use bsdroid.Backend.Folder.Inside.{IsListing, list_by_properties-IsChild}

split_final_read-IsSafe_example :
    IsSafe 512 1024 0 (split_final_read 0 1024 1024 512).0
    × ((((split_final_read 0 1024 1024 512).1 ≡ false)
          × ((split_final_read 0 1024 1024 512).0 ≡ 1024))
        ⊎ (((split_final_read 0 1024 1024 512).1 ≡ true)
            × ((split_final_read 0 1024 1024 512).0 + 1 ≡ 1024)
            × (0 < (split_final_read 0 1024 1024 512).0)
            × IsSafe 512 1024 (0 + (split_final_read 0 1024 1024 512).0) 1))
split_final_read-IsSafe_example =
    split_final_read-IsSafe 0 1024 1024 512 (omega arith) (omega arith) (omega arith) (omega arith)

abbrev last_two : ReadCache
last_two = record { handle = 9; start = 1; data_bytes = 6 ∷ 7 ∷ [] }

-- A device with one file of one byte: it answers every operation with that byte.
abbrev pub one_byte : Transport Bool
one_byte = record {
  write = λ bytes timeout d. (ok (length bytes), false);
  read = λ size timeout d. (
    ok (elim d [
      | false ↦ 13 ∷ 0 ∷ 0 ∷ 0 ∷ 2 ∷ 0 ∷ 0xc1 ∷ 0x95 ∷ 0 ∷ 0 ∷ 0 ∷ 0 ∷ 42 ∷ []
      | true ↦ ok_response
    ]),
    true,
  );
  clear_stalls = λ d. d;
  speed = λ d. high;
  capabilities = λ timeout d. (err no_backend, d);
  reset = λ d. (ok tt, d);
}

abbrev byte_outcome : Outcome
byte_outcome = record {
  response_code = resp_ok;
  data_bytes = 42 ∷ [];
  response_params = [];
  reads = 1;
}

byte_operation :
    (step : String) (code : ℕ) (params : List ℕ) (d : Bool) (n : ℕ) (b : Bool)
    → Answer.operation one_byte step code params
        (record { device = d; transaction = n; config = default_config; session_open = b })
      ≡ (
        ok byte_outcome,
        record {
          device = true;
          transaction = (n + 1) % 2 ^ 32;
          config = default_config;
          session_open = b;
        },
      )
unfolding Answer.operation Header.parse Container.parse Container.parameters
byte_operation step code params d n b = refl

abbrev pub IsFit : Session Bool → Type 0
IsFit s = s.config ≡ default_config

-- In a file of one byte there is one part to read.
one_part :
    (offset want : ℕ)
    → 0 < want
    → offset + want ≤ length {A = ℕ} (42 ∷ [])
    → 42 ∷ [] ≡ slice (42 ∷ []) offset want
one_part offset want h fits =
    let start : offset ≡ 0 = omega (arith, h, fits) in
    let one : want ≡ 1 = omega (arith, h, fits) in rw (start, one) refl

byte_Serves : Serves one_byte (42 ∷ []) 9 get_partial_object_64 512 IsFit
byte_Serves = record {
  answers = λ s params offset want fit names hw fits safe. (
    byte_outcome,
    record s { device = true; transaction = (s.transaction + 1) % 2 ^ 32 },
    subst
        (λ c.
          Answer.operation one_byte "GetPartialObject" get_partial_object_64 params
            (record s { config = c })
          ≡ (
            ok byte_outcome,
            record s { device = true; transaction = (s.transaction + 1) % 2 ^ 32; config = c },
          ))
        (sym fit)
        (byte_operation "GetPartialObject" get_partial_object_64 params s.device s.transaction
          s.session_open),
    refl,
    one_part offset want hw fits,
    fit,
  );
}

abbrev pub no_info : DeviceInfo
no_info = record {
  standard_version = 0;
  vendor_extension_id = 0;
  vendor_extension_version = 0;
  vendor_extension_desc = [];
  operations_supported = [];
  events_supported = [];
  device_properties_supported = [];
  capture_formats = [];
  image_formats = [];
  manufacturer = [];
  model = [];
  device_version = [];
  serial_number = [];
}

abbrev pub mount_on : {D : Type 0} → Session D → Mtp D
mount_on s = record {
  session = s;
  settings = default_settings;
  storage = 1;
  partial_read = get_partial_object_64;
  fast_list = true;
  packet = 512;
  cache = some last_two;
  info = no_info;
}

changes-Drops_example :
    let m = mount_on (session_on (ok_response ∷ []) default_config) in
    Drops scripted m (delete_object scripted 9)
    × Drops scripted m (move_object scripted 9 0)
    × Drops scripted m (rename_object scripted 9 (97 ∷ []))
changes-Drops_example =
    changes-Drops scripted (mount_on (session_on (ok_response ∷ []) default_config)) 9 0 (97 ∷ [])

abbrev pub byte_mount : Mtp Bool
byte_mount =
    record (mount_on
      (record { device = false; transaction = 0; config = default_config; session_open = true })) {
        cache = none;
      }

pub byte_IsReady : IsReady one_byte (42 ∷ []) 9 IsFit byte_mount
byte_IsReady = record {
  serves = byte_Serves;
  fit = refl;
  agrees = tt;
  reaches = inl (refl, omega arith);
  packet_holds = omega arith;
  file_fits = omega arith;
}

read_at-GivesAndKeeps_example :
    GivesAndKeeps one_byte (42 ∷ []) 9 IsFit byte_mount 0 100 (read_at one_byte 9 0 100 1)
read_at-GivesAndKeeps_example =
    read_at-GivesAndKeeps one_byte (42 ∷ []) 9 IsFit byte_mount 0 100 byte_IsReady (omega arith)

-- The answers to three requests: the folder with a name, one object with a name, and no other property.
abbrev names_transfer : List ℕ
names_transfer =
    42 ∷ 0 ∷ 0 ∷ 0 ∷ 2 ∷ 0 ∷ 5 ∷ 0x98 ∷ 7 ∷ 0 ∷ 0 ∷ 0 ∷ 2 ∷ 0 ∷ 0 ∷ 0 ∷ 5 ∷ 0 ∷ 0 ∷ 0 ∷ 7 ∷ 0xdc
    ∷ 0xff ∷ 0xff ∷ 2 ∷ 97 ∷ 0 ∷ 0 ∷ 0 ∷ 9 ∷ 0 ∷ 0 ∷ 0 ∷ 7 ∷ 0xdc ∷ 0xff ∷ 0xff ∷ 2 ∷ 98 ∷ 0 ∷ 0 ∷ 0
    ∷ []

abbrev nothing_transfer : List ℕ
nothing_transfer = 16 ∷ 0 ∷ 0 ∷ 0 ∷ 2 ∷ 0 ∷ 5 ∷ 0x98 ∷ 7 ∷ 0 ∷ 0 ∷ 0 ∷ 0 ∷ 0 ∷ 0 ∷ 0 ∷ []

abbrev listing : Mtp Script
listing = mount_on (
    session_on
      (names_transfer ∷ ok_response ∷ nothing_transfer ∷ ok_response ∷ nothing_transfer
        ∷ ok_response ∷ [])
      default_config)

abbrev listed : List Entry
listed = record { handle = 9; parent = 5; name = 98 ∷ []; is_dir = false; size = 0 } ∷ []

listing_runs :
    list_by_properties scripted 5 listing ≡ (ok listed, (list_by_properties scripted 5 listing).1)
unfolding list_by_properties Header.parse Container.parse Container.parameters
    PropList.read_prop_list Reader.read_u32 Reader.take_bytes Reader.read_times PropList.read_entry
    Reader.read_u16 PropList.read_value Reader.read_string Reader.read_u8 Utf16.from_utf16
    Reader.drop_terminator Reader.u16_chunks PropList.fold_entry Map.get Map.insert PropList.assign
    PropList.is_folder
listing_runs = refl

list_by_properties-IsChild_example :
    (props : List PropEntry) × Asked scripted 5
      (0xdc07 ∷ 0xdc04 ∷ 0xdc02 ∷ [])
      listing
      (list_by_properties scripted 5 listing).1
      props
    × IsListing 5 props listed
list_by_properties-IsChild_example =
    list_by_properties-IsChild scripted 5 listing (list_by_properties scripted 5 listing).1 listed
      listing_runs
