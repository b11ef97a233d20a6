-- ===== src/Usb/Examples.antt =====
-- Descriptors of a phone in file transfer mode (crates/usb-freebsd/src/descriptor.rs).
use bsdroid.Base.{All}
use bsdroid.Base.{Result, ok, err, then_ok}
use bsdroid.Base.{ℕ, ◌≡◌, refl, ◌⊎◌, true, false, Option, none, some, List, [], ◌∷◌, arith}
use bsdroid.Usb.Descriptor.{
  DescriptorError, Endpoint, Interface, ConfigDescriptor, parse, no_mtp_interface, is_mtp,
}
use bsdroid.Usb.Descriptor.Rendered.{Group, endpoint_item, other_item}
use bsdroid.Usb.Descriptor.Loop.{While, parse-While}
use bsdroid.Usb.Mtp.{from_interface, find_mtp, find_with_names}
use bsdroid.Usb.Mtp.Choice.{IsFirst, is_vendor_mtp, find_with_names_lem}
use bsdroid.Usb.Bos.{DeviceCapabilities}

abbrev bulk_in : Endpoint
bulk_in = record { address = 0x81; transfer_type = 2; max_packet_size = 512 }

abbrev bulk_out : Endpoint
bulk_out = record { address = 0x01; transfer_type = 2; max_packet_size = 512 }

abbrev mtp : Interface
mtp = record {
  number = 0;
  alternate_setting = 0;
  class = 6;
  subclass = 1;
  protocol = 1;
  string_index = 5;
  endpoints = bulk_in ∷ bulk_out ∷ [];
}

-- Between the two endpoints stands a class descriptor.
abbrev phone : List Group
phone =
    record {
      head = mtp;
      items =
          endpoint_item bulk_in [] ∷ other_item 0x24 (1 ∷ 2 ∷ []) ∷ endpoint_item bulk_out [] ∷ [];
    }
    ∷ []

abbrev damaged : List ℕ
damaged = 9 ∷ 2 ∷ 11 ∷ 0 ∷ 1 ∷ 1 ∷ 0 ∷ 0x80 ∷ 50 ∷ 0 ∷ 4 ∷ []

parse-While_example :
    (r : Result DescriptorError (List Interface)) × While damaged 11 9 [] r
    × (parse damaged
        ≡ then_ok r (λ found. ok (record {
          total_length = 11;
          num_interfaces = 1;
          configuration_value = 1;
          interfaces = found;
        })))
parse-While_example = parse-While damaged (omega arith) refl (omega arith)

abbrev one_interface : ConfigDescriptor
one_interface = record {
  total_length = 36;
  num_interfaces = 1;
  configuration_value = 1;
  interfaces = mtp ∷ [];
}

abbrev no_name : ℕ → Option (List ℕ)
no_name index = none

find_with_names_lem_example :
    ((i : Interface) × IsFirst is_mtp one_interface.interfaces i
      × (find_with_names one_interface no_name ≡ from_interface i)
      × (find_mtp one_interface ≡ from_interface i))
    ⊎ (All (λ j. is_mtp j ≡ false) one_interface.interfaces
        × (find_mtp one_interface ≡ err no_mtp_interface)
        × (((i : Interface) × IsFirst (is_vendor_mtp no_name) one_interface.interfaces i
              × (find_with_names one_interface no_name ≡ from_interface i))
            ⊎ (All (λ j. is_vendor_mtp no_name j ≡ false) one_interface.interfaces
                × (find_with_names one_interface no_name ≡ err no_mtp_interface))))
find_with_names_lem_example = find_with_names_lem one_interface no_name

abbrev fast : List ℕ
fast = 5 ∷ 0x0f ∷ 15 ∷ 0 ∷ 1 ∷ 10 ∷ 0x10 ∷ 3 ∷ 0 ∷ 0x0e ∷ 0 ∷ 3 ∷ 0 ∷ 0 ∷ 0 ∷ []

abbrev fast_device : DeviceCapabilities
fast_device = record { super_speed = true; super_speed_plus = false; speeds_supported = some 14 }

abbrev no_wait : ℕ
no_wait = 0
