-- ===== src/Discover/Order.antt =====
-- The search for one device and the list of all devices (crates/usb-freebsd/src/discover.rs).
use bsdroid.Base.{Bool-cases, Option-cases}
use bsdroid.Base.{find}
use bsdroid.Base.{Result-cases}
use bsdroid.Base.{◌≡◌, refl, sym, ap, ◌∙◌, inl, inr, Option, none, some, List, [], ◌∷◌}
use bsdroid.Usb.Descriptor
use bsdroid.Usb.Mtp.{find_with_names}
use bsdroid.Discover.{
  DeviceHandle, Found, Selector, inspect, read_names, name_at, list_found, is_wanted, find_first,
}

-- The device of what was found, or else another one.
abbrev device_or : Option Found → DeviceHandle → DeviceHandle
device_or none h = h
device_or (some f) h = f.device

device-inspect : (h : DeviceHandle) → device_or (inspect h) h ≡ h
unfolding inspect
device-inspect h = elim (Option-cases h.config_descriptor_raw) [
  | inl silent ↦ simp (inspect, silent) refl
  | inr (raw, answer) ↦ elim (Result-cases (Descriptor.parse raw)) [
    | inr (e, damaged) ↦ simp (inspect, answer, damaged) refl
    | inl (config, read) ↦
        elim (Result-cases (find_with_names config (name_at (read_names h config.interfaces)))) [
          | inr (e, other) ↦ simp (inspect, answer, read, other) refl
          | inl (iface, mtp) ↦ simp (inspect, answer, read, mtp) refl
        ]
  ]
]

-- What an inspection finds is of the device that was inspected.
inspect-device : (h : DeviceHandle) (f : Found) → inspect h ≡ some f → f.device ≡ h
inspect-device h f is = ap (λ o. device_or o h) (sym is) ∙ device-inspect h

-- The search for a device finds the first of the listed devices that is wanted, and none where no listed device is.
pub find_first-list_found :
    (hs : List DeviceHandle) (want : Option Selector)
    → find_first hs want ≡ find (λ f. is_wanted want f.device) (list_found hs)
unfolding find_first list_found
find_first-list_found [] want = refl
find_first-list_found (h ∷ hs) want = elim (Option-cases (inspect h)) [
  | inl nothing ↦ elim (Bool-cases (is_wanted want h)) [
    | inl wanted ↦ rw (find_first, list_found, wanted, nothing) (find_first-list_found hs want)
    | inr other ↦ rw (find_first, list_found, other, nothing) (find_first-list_found hs want)
  ]
  | inr (f, there) ↦
      let same_device = ap (is_wanted want) (inspect-device h f there) in
      elim (Bool-cases (is_wanted want h)) [
        | inl wanted ↦ rw (find_first, list_found, wanted, there, find, same_device ∙ wanted) refl
        | inr other ↦
            rw (find_first, list_found, other, there, find, same_device ∙ other)
              (find_first-list_found hs want)
      ]
]
