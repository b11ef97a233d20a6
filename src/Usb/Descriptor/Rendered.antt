-- ===== src/Usb/Descriptor/Rendered.antt =====
-- Configuration descriptors as a device writes them, and one round of the loop of
-- `ConfigDescriptor::parse` (crates/usb-freebsd/src/descriptor.rs) on each of them.
use bsdroid.Base.{length, get_or, All, length-append}
use bsdroid.Base.{ok}
use bsdroid.Base.{IsU16, le_u16}
use bsdroid.Base.{ℕ, suc, ◌+◌, ◌/◌, ◌%◌, ◌<◌, ◌≡◌, refl, ap, ◌∙◌, ◌≢◌, List, [], ◌∷◌, ◌++◌, arith}
use bsdroid.Usb.Descriptor.{
  Endpoint, Interface, type_interface, type_endpoint, add_endpoint, push_endpoint, endpoint_at,
  interface_at, read_descriptor, round,
}

-- What stands behind an interface descriptor: an endpoint, or a descriptor of another type, with the bytes a device adds to either.
pub data Item : Type 0 where
  endpoint_item : Endpoint → List ℕ → Item
  other_item : ℕ → List ℕ → Item

abbrev pub render_item : Item → List ℕ
render_item (endpoint_item e extra) =
    (7 + length extra)
    ∷ type_endpoint
    ∷ e.address
    ∷ e.transfer_type
    ∷ (le_u16 e.max_packet_size ++ 0 ∷ extra)
render_item (other_item kind body) = (2 + length body) ∷ kind ∷ body

abbrev pub IsItem : Item → Type 0
IsItem (endpoint_item e extra) = (e.transfer_type < 4) × IsU16 e.max_packet_size
IsItem (other_item kind body) = (kind ≢ type_interface) × (kind ≢ type_endpoint)

abbrev pub render_items : List Item → List ℕ
render_items [] = []
render_items (i ∷ is) = render_item i ++ render_items is

-- The endpoints among the items, in order.
abbrev pub endpoints_of : List Item → List Endpoint
endpoints_of [] = []
endpoints_of (endpoint_item e extra ∷ is) = e ∷ endpoints_of is
endpoints_of (other_item kind body ∷ is) = endpoints_of is

-- An interface descriptor and the items behind it. The interface has no endpoints of its own.
pub record Group : Type 0 where
  pub head : Interface
  pub items : List Item

abbrev pub render_group : Group → List ℕ
render_group g =
    9
    ∷ type_interface
    ∷ g.head.number
    ∷ g.head.alternate_setting
    ∷ length (endpoints_of g.items)
    ∷ g.head.class
    ∷ g.head.subclass
    ∷ g.head.protocol
    ∷ g.head.string_index
    ∷ render_items g.items

abbrev pub IsGroup : Group → Type 0
IsGroup g = All IsItem g.items

abbrev pub render_groups : List Group → List ℕ
render_groups [] = []
render_groups (g ∷ gs) = render_group g ++ render_groups gs

abbrev pub interface_of : Group → Interface
interface_of g = record g.head { endpoints = endpoints_of g.items }

-- The list with the endpoints added to its last interface.
unfoldable pub with_endpoints : Interface → List Endpoint → Interface
with_endpoints i es = record i { endpoints = i.endpoints ++ es }

pub push_endpoint-last :
    (found : List Interface) (i : Interface) (e : Endpoint)
    → push_endpoint (found ++ i ∷ []) e ≡ ok (found ++ add_endpoint e i ∷ [])
unfolding push_endpoint
push_endpoint-last [] i e = refl
push_endpoint-last (f ∷ []) i e = refl
push_endpoint-last (f ∷ g ∷ found) i e = rw (push_endpoint-last (g ∷ found) i e)

-- From a position on, a buffer holds the given bytes and no more.
abbrev pub At : List ℕ → ℕ → List ℕ → Type 0
At buf pos ys = ((k : ℕ) → get_or buf (pos + k) 0 ≡ get_or ys k 0) × (length buf ≡ pos + length ys)

pub get_or-append : (xs ys : List ℕ) (k : ℕ) → get_or (xs ++ ys) (length xs + k) 0 ≡ get_or ys k 0
get_or-append [] ys k = let e : 0 + k ≡ k = omega arith in rw e
get_or-append (x ∷ xs) ys k =
    let e : suc (length xs) + k ≡ suc (length xs + k) = omega arith in rw e (get_or-append xs ys k)

pub At-next :
    (buf : List ℕ) (pos : ℕ) (xs ys : List ℕ) → At buf pos (xs ++ ys) → At buf (pos + length xs) ys
At-next buf pos xs ys (at, size) = (
  λ k. ap (λ i. get_or buf i 0) (omega arith) ∙ at (length xs + k) ∙ get_or-append xs ys k,
  omega (arith, length-append xs ys),
)

-- One descriptor of another type is stepped over.
pub round_other :
    (buf rest body : List ℕ) (pos kind : ℕ) (found : List Interface)
    → At buf pos (render_item (other_item kind body) ++ rest)
    → kind ≢ type_interface
    → kind ≢ type_endpoint
    → round buf (length buf) pos found ≡ ok found
unfolding round read_descriptor
round_other buf rest body pos kind found (at, size) no_interface no_endpoint =
    let len : get_or buf pos 0 ≡ 2 + length body = ap (λ i. get_or buf i 0) (omega arith) ∙ at 0 in
    let type_byte : get_or buf (suc pos) 0 ≡ kind = ap (λ i. get_or buf i 0) (omega arith) ∙ at 1 in
    ground (arith, len, type_byte, length-append body rest, no_interface, no_endpoint)

pub round_endpoint :
    (buf rest extra : List ℕ) (pos : ℕ) (e : Endpoint) (found : List Interface)
    → At buf pos (render_item (endpoint_item e extra) ++ rest)
    → e.transfer_type < 4
    → IsU16 e.max_packet_size
    → round buf (length buf) pos found ≡ push_endpoint found e
unfolding round read_descriptor endpoint_at
round_endpoint buf rest extra pos e found (at, size) ht hm =
    let len : get_or buf pos 0 ≡ 7 + length extra = ap (λ i. get_or buf i 0) (omega arith) ∙ at 0 in
    let type_byte : get_or buf (suc pos) 0 ≡ type_endpoint =
      ap (λ i. get_or buf i 0) (omega arith) ∙ at 1 in
    let low : get_or buf (pos + 4) 0 ≡ e.max_packet_size % 256 = at 4 in
    let high : get_or buf (suc (pos + 4)) 0 ≡ e.max_packet_size / 256 % 256 =
      ap (λ i. get_or buf i 0) (omega arith) ∙ at 5 in
    ground (arith, len, type_byte, length-append extra rest, at 2, at 3, low, high)

pub round_interface :
    (buf rest : List ℕ) (pos count : ℕ) (i : Interface) (found : List Interface)
    → At buf pos (
        9 ∷ type_interface ∷ i.number ∷ i.alternate_setting ∷ count ∷ i.class ∷ i.subclass
        ∷ i.protocol ∷ i.string_index ∷ rest)
    → round buf (length buf) pos found ≡ ok (found ++ (record i { endpoints = [] }) ∷ [])
unfolding round read_descriptor interface_at
round_interface buf rest pos count i found (at, size) =
    let len : get_or buf pos 0 ≡ 9 = ap (λ i. get_or buf i 0) (omega arith) ∙ at 0 in
    let type_byte : get_or buf (suc pos) 0 ≡ type_interface =
      ap (λ i. get_or buf i 0) (omega arith) ∙ at 1 in
    ground (arith, len, type_byte, at 2, at 3, at 5, at 6, at 7, at 8)
