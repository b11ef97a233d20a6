-- ===== src/Discover.antt =====
-- The search for a device that gives an MTP interface (crates/usb-freebsd/src/discover.rs). What
-- libusb20 gives of a device is a parameter.
pub mod Names
pub mod Order
mod Examples
use bsdroid.Base.{
  ltb, leb, ◌==◌, if◌then◌else◌, ltb→lt, lt→ltb, le→ltb, ==_iff, ==_refl, Bool-cases, Option-cases,
  same, same_iff,
}
use bsdroid.Base.{
  length, get_or, get_elem?, take, drop, find, All, length-append, length-take, length-drop,
  take-append-drop, take-length_append, drop-length_append, take_all, take-min, take-append-take,
  take-take, drop-drop, find-some, All-append, All-take, All-drop, get_or-All,
}
use bsdroid.Base.{Result, ok, err, then_ok, map_err, IsOk, Result-cases, map_err-ok}
use bsdroid.Base.{
  IsByte, IsU16, IsU32, IsU64, usize_max, le_u16, le_u32, from_le_u16, from_le_u32, u16_at, u32_at,
  from_le-le_u16, from_le-le_u32, le-from_le_u16, le-from_le_u32, u32_at-IsU32,
}
use bsdroid.Base.{
  ℕ, zero, suc, ◌+◌, ◌-◌, ◌*◌, ◌/◌, ◌%◌, ◌^◌, ◌≤◌, ◌<◌, min, max, String, ◌≡◌, refl, sym, ap, ◌∙◌,
  subst, ◌≢◌, ◌↔◌, ◌⊎◌, inl, inr, Bool, true, false, not, ◌&&◌, ◌||◌, Option, none, some, List, [],
  ◌∷◌, ◌++◌, map, append_assoc, append-nil, arith,
}
use bsdroid.Base.Decimal.{digits, decimal}
use bsdroid.Usb.Descriptor
use bsdroid.Usb.Descriptor.{ConfigDescriptor, Interface, is_mtp, is_adb, is_vendor_mtp_candidate}
use bsdroid.Usb.Mtp.{MtpInterface, find_with_names}
use bsdroid.Session.Env.{decimal_digit, parse_radix}

-- A device of the bus, as an open handle shows it: the descriptor is `none` where the device does not open or does not answer.
pub record DeviceHandle : Type 0 where
  pub bus : ℕ
  pub address : ℕ
  pub vendor_id : ℕ
  pub product_id : ℕ
  pub config_descriptor_raw : Option (List ℕ)
  pub string_descriptor : ℕ → Option (List ℕ)

pub record Found : Type 0 where
  pub device : DeviceHandle
  pub iface : MtpInterface
  pub config : ConfigDescriptor

pub data Selector : Type 0 where
  node : ℕ → ℕ → Selector
  ids : ℕ → ℕ → Selector

unfoldable pub matches : Selector → DeviceHandle → Bool
matches (node bus address) h = (h.bus == bus) && (h.address == address)
matches (ids vendor product) h = (h.vendor_id == vendor) && (h.product_id == product)

-- `str::split_once`.
unfoldable pub split_once : ℕ → List ℕ → Option (List ℕ × List ℕ)
split_once c [] = none
split_once c (x ∷ xs) =
    let rest = split_once c xs in
    if x == c then some ([], xs) else elim rest [ none ↦ none | some p ↦ some (x ∷ p.0, p.1) ]

-- `str::strip_prefix`.
unfoldable pub strip_prefix : List ℕ → List ℕ → Option (List ℕ)
strip_prefix [] s = some s
strip_prefix (p ∷ ps) [] = none
strip_prefix (p ∷ ps) (c ∷ cs) = let rest = strip_prefix ps cs in if p == c then rest else none

-- `trim_start_matches("0x")`: each one at the start is left out.
unfoldable pub trim_hex : List ℕ → List ℕ
trim_hex [] = []
trim_hex (a ∷ []) = a ∷ []
trim_hex (a ∷ b ∷ cs) =
    let rest = trim_hex cs in if (a == b'0') && (b == b'x') then rest else a ∷ b ∷ cs

abbrev pub hex_digit : ℕ → Option ℕ
hex_digit c =
    if leb b'0' c && leb c b'9'
    then some (c - b'0')
    else if leb b'a' c && leb c b'f'
    then some (c - b'a' + 10)
    else if leb b'A' c && leb c b'F'
    then some (c - b'A' + 10)
    else none

-- Two numbers, where both read.
abbrev pub both : {A : Type 0} → (ℕ → ℕ → A) → Option ℕ → Option ℕ → Option A
both f (some a) (some b) = some (f a b)
both f (some a) none = none
both f none b = none

abbrev pub dev : List ℕ
dev = b'/' ∷ b'd' ∷ b'e' ∷ b'v' ∷ b'/' ∷ []

abbrev pub ugen : List ℕ
ugen = b'u' ∷ b'g' ∷ b'e' ∷ b'n' ∷ []

abbrev pub unwrap_or : Option (List ℕ) → List ℕ → List ℕ
unwrap_or none s = s
unwrap_or (some t) s = t

unfoldable pub parse_node : List ℕ → Option (ℕ × ℕ)
unfolding strip_prefix split_once parse_radix
parse_node s = elim (strip_prefix ugen (unwrap_or (strip_prefix dev s) s)) [
  | none ↦ none
  | some t ↦ elim (split_once b'.' t) [
    | none ↦ none
    | some p ↦
        both (λ bus address. (bus, address)) (parse_radix decimal_digit 10 256 p.0)
          (parse_radix decimal_digit 10 256 p.1)
  ]
]

unfoldable pub parse_selector : List ℕ → Option Selector
unfolding split_once trim_hex parse_radix parse_node
parse_selector s = elim (split_once b':' s) [
  | some p ↦
      both ids (parse_radix hex_digit 16 (2 ^ 16) (trim_hex p.0))
        (parse_radix hex_digit 16 (2 ^ 16) (trim_hex p.1))
  | none ↦ elim (parse_node s) [ none ↦ none | some n ↦ some (node n.0 n.1) ]
]

-- The names of the interfaces that could be MTP, by their index.
unfoldable pub read_names : DeviceHandle → List Interface → List (ℕ × Option (List ℕ))
read_names h [] = []
read_names h (i ∷ rest) =
    let names = read_names h rest in
    if is_vendor_mtp_candidate i
    then (i.string_index, h.string_descriptor i.string_index) ∷ names
    else names

unfoldable pub name_at : List (ℕ × Option (List ℕ)) → ℕ → Option (List ℕ)
name_at [] index = none
name_at ((i, name) ∷ rest) index =
    let later = name_at rest index in if i == index then name else later

unfoldable pub inspect : DeviceHandle → Option Found
unfolding read_names name_at find_with_names Descriptor.parse
inspect h = elim h.config_descriptor_raw [
  | none ↦ none
  | some raw ↦ elim (Descriptor.parse raw) [
    | err e ↦ none
    | ok config ↦ elim (find_with_names config (name_at (read_names h config.interfaces))) [
      | err e ↦ none
      | ok iface ↦ some (record { device = h; iface = iface; config = config })
    ]
  ]
]

-- `list`.
unfoldable pub list_found : List DeviceHandle → List Found
unfolding inspect
list_found [] = []
list_found (h ∷ hs) =
    let rest = list_found hs in elim (inspect h) [ none ↦ rest | some f ↦ f ∷ rest ]

abbrev pub is_wanted : Option Selector → DeviceHandle → Bool
is_wanted none h = true
is_wanted (some s) h = matches s h

-- `find`: the first device that is wanted and gives an interface.
unfoldable pub find_first : List DeviceHandle → Option Selector → Option Found
unfolding inspect
find_first [] want = none
find_first (h ∷ hs) want =
    let rest = find_first hs want in
    if is_wanted want h then elim (inspect h) [ none ↦ rest | some f ↦ some f ] else rest

unfoldable pub shows_adb_alone : ConfigDescriptor → Bool
shows_adb_alone config = elim (find is_adb config.interfaces) [
  | none ↦ false
  | some i ↦ elim (find is_mtp config.interfaces) [ none ↦ true | some j ↦ false ]
]

-- The bus, the address and the identifiers of each device that shows adb and no MTP.
unfoldable pub android_without_mtp : List DeviceHandle → List (ℕ × ℕ × ℕ × ℕ)
unfolding shows_adb_alone Descriptor.parse
android_without_mtp [] = []
android_without_mtp (h ∷ hs) =
    let rest = android_without_mtp hs in
    elim h.config_descriptor_raw [
      | none ↦ rest
      | some raw ↦ elim (Descriptor.parse raw) [
        | err e ↦ rest
        | ok config ↦
            if shows_adb_alone config
            then (h.bus, h.address, h.vendor_id, h.product_id) ∷ rest
            else rest
      ]
    ]

-- `Found::node`.
unfoldable pub node_name : ℕ → ℕ → List ℕ
unfolding digits
node_name bus address = ugen ++ (decimal bus ++ b'.' ∷ decimal address)

-- `char::is_whitespace`.
abbrev pub is_whitespace : ℕ → Bool
is_whitespace c =
    (leb 9 c && leb c 13)
    || (c == 32)
    || (c == 0x85)
    || (c == 0xa0)
    || (c == 0x1680)
    || (leb 0x2000 c && leb c 0x200a)
    || (c == 0x2028)
    || (c == 0x2029)
    || (c == 0x202f)
    || (c == 0x205f)
    || (c == 0x3000)

unfoldable pub trim_start : List ℕ → List ℕ
trim_start [] = []
trim_start (c ∷ cs) = let rest = trim_start cs in if is_whitespace c then rest else c ∷ cs

-- The end is trimmed where only whitespace is left.
unfoldable pub trim_end : List ℕ → List ℕ
trim_end [] = []
trim_end (c ∷ cs) = elim (trim_end cs) [
  | [] ↦ if is_whitespace c then [] else c ∷ []
  | d ∷ ds ↦ c ∷ d ∷ ds
]

-- `Found::name`: the maker and the model, without whitespace around them.
unfoldable pub device_name : DeviceHandle → List ℕ
unfolding trim_start trim_end
device_name h =
    trim_end (
      trim_start
        (unwrap_or (h.string_descriptor 1) [] ++ 32 ∷ unwrap_or (h.string_descriptor 2) []))
