-- ===== src/Mount/Examples.antt =====
-- A walk along a path on a device that answers from a script (crates/mtpfs/src/main.rs).
use bsdroid.Base.{length, same, get_elem?, ok, err, ◌==◌, if◌then◌else◌}
use bsdroid.Base.{Bool, false, ◌&&◌, Option, some}
use bsdroid.Usb.Device.{no_backend, high}
use bsdroid.Session.{Transport, Session}
use bsdroid.Session.Setup.{Config}
use bsdroid.Backend.{Mtp}
use bsdroid.Backend.Folder.{list}
use bsdroid.Tree.{Entry}
use bsdroid.Mount.Storage.{Storage, object_at}
use bsdroid.Base.{ℕ, ◌≤◌, ◌≡◌, refl, none, List, [], ◌∷◌, true}
use bsdroid.Ptp.Device.{get_partial_object_64}
use bsdroid.Tree
use bsdroid.Base.Map
use bsdroid.Ptp.Header
use bsdroid.Ptp.Container
use bsdroid.Ptp.PropList
use bsdroid.Ptp.Reader
use bsdroid.Ptp.Utf16
use bsdroid.Session.Setup.{default_config}
use bsdroid.Session.Script.{Script, scripted, session_on, ok_response}
use bsdroid.Backend.{default_settings}
use bsdroid.Mount.{Fs, resolve, max_walk}
use bsdroid.Mount.Names.{split_args, split_parent}
use bsdroid.Mount.Walk.{Reads, Stops, resolve-Names}

-- The names of the root: one folder `a` with the handle 9.
abbrev names_transfer : List ℕ
names_transfer =
    29 ∷ 0 ∷ 0 ∷ 0 ∷ 2 ∷ 0 ∷ 5 ∷ 0x98 ∷ 7 ∷ 0 ∷ 0 ∷ 0 ∷ 1 ∷ 0 ∷ 0 ∷ 0 ∷ 9 ∷ 0 ∷ 0 ∷ 0 ∷ 7 ∷ 0xdc
    ∷ 0xff ∷ 0xff ∷ 2 ∷ 97 ∷ 0 ∷ 0 ∷ 0 ∷ []

abbrev nothing_transfer : List ℕ
nothing_transfer = 16 ∷ 0 ∷ 0 ∷ 0 ∷ 2 ∷ 0 ∷ 5 ∷ 0x98 ∷ 7 ∷ 0 ∷ 0 ∷ 0 ∷ 0 ∷ 0 ∷ 0 ∷ 0 ∷ []

abbrev mount_of : {D : Type 0} → Session D → Mtp D
mount_of s = record {
  session = s;
  settings = default_settings;
  storage = 1;
  partial_read = get_partial_object_64;
  fast_list = true;
  packet = 512;
  cache = none;
  info = record {
    standard_version = 0;
    vendor_extension_id = 0;
    vendor_extension_version = 0;
    vendor_extension_desc = [];
    operations_supported = [];
    events_supported = [];
    device_properties_supported = [];
    capture_formats = [];
    image_formats = [];
    manufacturer = [];
    model = [];
    device_version = [];
    serial_number = [];
  };
}

abbrev mounted : Fs Script (Unit {0}) (Unit {0})
mounted = record {
  mtp = mount_of (
      session_on
        (names_transfer ∷ ok_response ∷ nothing_transfer ∷ ok_response ∷ nothing_transfer
          ∷ ok_response ∷ [])
        default_config);
  tree = Tree.new;
  pending = [];
  host = tt;
  spool_count = 0;
}

-- The path `/a`.
resolve-Names_example :
    let (r, end) = resolve scripted (47 ∷ 97 ∷ []) mounted in
    (n : ℕ) × (last : Fs Script (Unit {0}) (Unit {0})) × (n ≤ max_walk)
    × Reads scripted (47 ∷ 97 ∷ []) n mounted last
    × Stops scripted (47 ∷ 97 ∷ []) max_walk n last end r
resolve-Names_example = resolve-Names scripted (47 ∷ 97 ∷ []) mounted

-- `mtpfs -o ro m` and `/a/b`, and a name at the root.
split_args_o :
    split_args ((45 ∷ 111 ∷ []) ∷ (114 ∷ 111 ∷ []) ∷ (109 ∷ []) ∷ [])
    ≡ ((109 ∷ []) ∷ [], (45 ∷ 111 ∷ []) ∷ (114 ∷ 111 ∷ []) ∷ [])
unfolding split_args same
split_args_o = refl

split_parent_two : split_parent (47 ∷ 97 ∷ 47 ∷ 98 ∷ []) ≡ (47 ∷ 97 ∷ [], 98 ∷ [])
unfolding split_parent
split_parent_two = refl

split_parent_one : split_parent (47 ∷ 97 ∷ []) ≡ (47 ∷ [], 97 ∷ [])
unfolding split_parent
split_parent_one = refl

-- A device that holds one object in the root, `a` with the handle 9. It remembers the bytes that say which folder and which property it was asked for.
abbrev Asked : Type 0
Asked = Bool × Bool

abbrev low_byte : Option ℕ → ℕ
low_byte none = 0
low_byte (some b) = b

abbrev one_object : Transport Asked
one_object = record {
  write = λ bytes timeout d. (
    ok (length bytes),
    (true, (low_byte (get_elem? bytes 12) == 0) && (low_byte (get_elem? bytes 20) == 7)),
  );
  read = λ size timeout d. (
    ok (if d.0 then (if d.1 then names_transfer else nothing_transfer) else ok_response),
    (false, d.1),
  );
  clear_stalls = λ d. d;
  speed = λ d. high;
  capabilities = λ timeout d. (err no_backend, d);
  reset = λ d. (ok tt, d);
}

abbrev object_a : Entry
object_a = record { handle = 9; parent = 0; name = 97 ∷ []; is_dir = false; size = 0 }

abbrev storage_a : Storage
storage_a = record {
  object = λ h. if h == 9 then some object_a else none;
  inside = λ p. if p == 0 then object_a ∷ [] else [];
}

abbrev IsFast : Mtp Asked → Type 0
IsFast m = (m.fast_list ≡ true) × (m.session.config ≡ default_config)

-- The same mount, with the fast way of listing and the configuration of a new one.
abbrev fast_mount : Mtp Asked → Bool → Config → Mtp Asked
fast_mount m fast config = record m {
  fast_list = fast;
  session = record m.session { config = config };
}

abbrev ListsOne : Mtp Asked → ℕ → Type 0
ListsOne m p = (m' : Mtp Asked) × (list one_object p m ≡ (ok (storage_a.inside p), m')) × IsFast m'

abbrev fs_one : Fs Asked (Unit {0}) (Unit {0})
fs_one = record {
  mtp = mount_of (record {
    device = (false, false);
    transaction = 0;
    config = default_config;
    session_open = true;
  });
  tree = Tree.new;
  pending = [];
  host = tt;
  spool_count = 0;
}

-- The name leads to the object.
object_at_a : object_at storage_a 0 (Tree.split_path (47 ∷ 97 ∷ [])) ≡ some 9
unfolding object_at Tree.split_path same
object_at_a = refl
