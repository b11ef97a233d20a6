-- ===== src/Usb/Descriptor/RoundTrip.antt =====
-- Configuration descriptors as a device writes them, and what `ConfigDescriptor::parse`
-- (crates/usb-freebsd/src/descriptor.rs) reads from them.
use bsdroid.Base.{length}
use bsdroid.Base.{le_u16}
use bsdroid.Base.{ℕ, List, ◌∷◌, ◌++◌}
use bsdroid.Usb.Descriptor.Rendered.{Group, render_groups}

-- A whole descriptor: the header, its total length, and the groups.
abbrev pub render : ℕ → ℕ → List ℕ → List Group → List ℕ
render total value tail groups =
    9 ∷ 2 ∷ (le_u16 total ++ length groups ∷ value ∷ tail ++ render_groups groups)
