-- ===== src/Usb/Mtp/Choice.antt =====
-- Which interface and which endpoints are chosen (crates/usb-freebsd/src/descriptor.rs).
use bsdroid.Base.{Bool-cases, Option-cases}
use bsdroid.Base.{find, All}
use bsdroid.Base.{ok, err}
use bsdroid.Base.{
  ℕ, ◌≡◌, refl, ap, ◌∙◌, ◌⊎◌, inl, inr, Bool, true, false, ◌&&◌, Option, none, some, List, [], ◌∷◌,
  ◌++◌, arith,
}
use bsdroid.Usb.Descriptor.{
  Endpoint, Interface, ConfigDescriptor, no_mtp_interface, incomplete_mtp_endpoints, is_mtp,
  is_vendor_mtp_candidate,
}
use bsdroid.Usb.Mtp.{
  MtpInterface, of_endpoints, is_bulk_in, is_bulk_out, from_interface, find_mtp, is_named_mtp,
  find_vendor, find_with_names,
}

-- The first element that passes a test: it passes, and none before it does.
abbrev pub IsFirst {ℓ} : {A : Type ℓ} → (A → Bool) → List A → A → Type ℓ
IsFirst {A = A} p xs a =
    (before after : List A) × (xs ≡ before ++ a ∷ after)
    × (p a ≡ true)
    × All (λ x. p x ≡ false) before

find-IsFirst {ℓ} :
    {A : Type ℓ} (p : A → Bool) (xs : List A) (a : A) → find p xs ≡ some a → IsFirst p xs a
find-IsFirst p [] a e = absurd cc
find-IsFirst p (x ∷ xs) a e = elim (Bool-cases (p x)) [
  | inl here ↦ let is_a : x ≡ a = ground (arith, here, e) in ([], xs, ap (λ y. y ∷ xs) is_a, cc, tt)
  | inr no_match ↦
      let there : find p xs ≡ some a = ground (arith, no_match, e) in
      let (before, after, s, t, h) = find-IsFirst p xs a there in
      (x ∷ before, after, ap (λ r. x ∷ r) s, t, (no_match, h))
]

find-none {ℓ} :
    {A : Type ℓ} (p : A → Bool) (xs : List A) → find p xs ≡ none → All (λ x. p x ≡ false) xs
find-none p [] e = tt
find-none p (x ∷ xs) e = ground (arith, find-none p xs)

-- A chosen interface gives the address of its first bulk endpoint in each direction; it is refused exactly when one of the directions has none, and the error says which.
pub from_interface_lem :
    (i : Interface)
    → ((m : MtpInterface) × (a b : Endpoint) × (from_interface i ≡ ok m)
        × IsFirst is_bulk_in i.endpoints a
        × (m.bulk_in ≡ a.address)
        × (m.max_packet_size ≡ a.max_packet_size)
        × IsFirst is_bulk_out i.endpoints b
        × (m.bulk_out ≡ b.address)
        × (m.interface_number ≡ i.number))
      ⊎ ((has_in has_out : Bool) × (from_interface i
            ≡ err (incomplete_mtp_endpoints has_in has_out))
          × (((has_in ≡ false) × All (λ e. is_bulk_in e ≡ false) i.endpoints)
              ⊎ ((has_out ≡ false) × All (λ e. is_bulk_out e ≡ false) i.endpoints)))
unfolding from_interface of_endpoints
from_interface_lem i =
    let es = i.endpoints in
    elim (Option-cases (find is_bulk_in es)) [
      | inl no_in ↦ elim (Option-cases (find is_bulk_out es)) [
        | inl no_out ↦
            inr (false, false, rw (no_in, no_out), inl (refl, find-none is_bulk_in es no_in))
        | inr (b, out) ↦
            inr (false, true, rw (no_in, out), inl (refl, find-none is_bulk_in es no_in))
      ]
      | inr (a, into) ↦ elim (Option-cases (find is_bulk_out es)) [
        | inl no_out ↦
            inr (true, false, rw (into, no_out), inr (refl, find-none is_bulk_out es no_out))
        | inr (b, out) ↦ inl (
          of_endpoints i a b,
          a,
          b,
          rw (into, out),
          find-IsFirst is_bulk_in es a into,
          refl,
          refl,
          find-IsFirst is_bulk_out es b out,
          refl,
          refl,
        )
      ]
    ]

abbrev pub is_vendor_mtp : (ℕ → Option (List ℕ)) → Interface → Bool
is_vendor_mtp name_of i = is_vendor_mtp_candidate i && is_named_mtp (name_of i.string_index)

find_vendor-find :
    (name_of : ℕ → Option (List ℕ)) (is : List Interface)
    → find_vendor name_of is ≡ elim (find (is_vendor_mtp name_of) is) [
      | none ↦ err no_mtp_interface
      | some i ↦ from_interface i
    ]
unfolding find_vendor
find_vendor-find name_of [] = refl
find_vendor-find name_of (i ∷ is) = elim (Bool-cases (is_vendor_mtp name_of i)) [
  | inl chosen ↦ rw (chosen)
  | inr passed ↦ rw (passed) (find_vendor-find name_of is)
]

-- The interface that is opened is the first one of the still imaging class; only where no interface has that class, and whatever names the device gives, it is the first vendor interface whose trimmed name is "MTP". Where the first search finds one, no name counts.
pub find_with_names_lem :
    (cfg : ConfigDescriptor) (name_of : ℕ → Option (List ℕ))
    → ((i : Interface) × IsFirst is_mtp cfg.interfaces i
        × (find_with_names cfg name_of ≡ from_interface i)
        × (find_mtp cfg ≡ from_interface i))
      ⊎ (All (λ j. is_mtp j ≡ false) cfg.interfaces
          × (find_mtp cfg ≡ err no_mtp_interface)
          × (((i : Interface) × IsFirst (is_vendor_mtp name_of) cfg.interfaces i
                × (find_with_names cfg name_of ≡ from_interface i))
              ⊎ (All (λ j. is_vendor_mtp name_of j ≡ false) cfg.interfaces
                  × (find_with_names cfg name_of ≡ err no_mtp_interface))))
unfolding find_with_names find_mtp
find_with_names_lem cfg name_of =
    let is = cfg.interfaces in
    elim (Option-cases (find is_mtp is)) [
      | inr (i, standard) ↦ inl (
        i,
        find-IsFirst is_mtp is i standard,
        rw (find_with_names, standard),
        rw (find_mtp, standard),
      )
      | inl no_standard ↦ inr (
        find-none is_mtp is no_standard,
        rw (find_mtp, no_standard),
        elim (Option-cases (find (is_vendor_mtp name_of) is)) [
          | inr (i, vendor) ↦ inl (
            i,
            find-IsFirst (is_vendor_mtp name_of) is i vendor,
            rw (find_with_names, no_standard) (find_vendor-find name_of is ∙ rw vendor),
          )
          | inl no_vendor ↦ inr (
            find-none (is_vendor_mtp name_of) is no_vendor,
            rw (find_with_names, no_standard) (find_vendor-find name_of is ∙ rw no_vendor),
          )
        ],
      )
    ]
