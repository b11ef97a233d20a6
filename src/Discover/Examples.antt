-- ===== src/Discover/Examples.antt =====
-- Names of devices as a person writes them (crates/usb-freebsd/src/discover.rs).
use bsdroid.Base.{◌≡◌, refl, some, [], ◌∷◌}
use bsdroid.Base.{none, find, arith, ◌++◌, ◌==◌, if◌then◌else◌}
use bsdroid.Discover.{
  DeviceHandle, ids, node, dev, parse_node, parse_selector, node_name, list_found, is_wanted,
  find_first, device_name,
}
use bsdroid.Discover.Names.{parse_selector-node_name}
use bsdroid.Discover.Order.{find_first-list_found}

-- `ugen0.11`
node_reads : parse_node (b'u' ∷ b'g' ∷ b'e' ∷ b'n' ∷ b'0' ∷ b'.' ∷ b'1' ∷ b'1' ∷ []) ≡ some (0, 11)
unfolding parse_node
node_reads = refl

-- `04e8:6860`
ids_read :
    parse_selector (b'0' ∷ b'4' ∷ b'e' ∷ b'8' ∷ b':' ∷ b'6' ∷ b'8' ∷ b'6' ∷ b'0' ∷ [])
    ≡ some (ids 0x04e8 0x6860)
unfolding parse_selector
ids_read = refl

parse_selector-node_name_example :
    (parse_selector (node_name 0 11) ≡ some (node 0 11))
    × (parse_selector (dev ++ node_name 0 11) ≡ some (node 0 11))
parse_selector-node_name_example = parse_selector-node_name 0 11 (omega arith) (omega arith)

-- A cellphone, and a device that does not answer.
abbrev phone : DeviceHandle
phone = record {
  bus = 0;
  address = 11;
  vendor_id = 0x04e8;
  product_id = 0x6860;
  config_descriptor_raw = some (
      9 ∷ 2 ∷ 39 ∷ 0 ∷ 1 ∷ 1 ∷ 0 ∷ 0x80 ∷ 250 ∷ 9 ∷ 4 ∷ 0 ∷ 0 ∷ 3 ∷ 6 ∷ 1 ∷ 1 ∷ 0 ∷ 7 ∷ 5 ∷ 0x81 ∷ 2
      ∷ 0 ∷ 2 ∷ 0 ∷ 7 ∷ 5 ∷ 1 ∷ 2 ∷ 0 ∷ 2 ∷ 0 ∷ 7 ∷ 5 ∷ 0x82 ∷ 3 ∷ 28 ∷ 0 ∷ 6 ∷ []);
  string_descriptor = λ index. if index == 1 then some (32 ∷ 97 ∷ []) else none;
}

abbrev silent : DeviceHandle
silent = record phone { address = 2; config_descriptor_raw = none }

find_first-list_found_example :
    find_first (silent ∷ phone ∷ []) (some (node 0 11))
    ≡ find (λ f. is_wanted (some (node 0 11)) f.device) (list_found (silent ∷ phone ∷ []))
find_first-list_found_example = find_first-list_found (silent ∷ phone ∷ []) (some (node 0 11))

-- A maker ` a` and no model give the name `a`.
phone_name : device_name phone ≡ 97 ∷ []
unfolding device_name
phone_name = refl
