-- ===== src/Tree.antt =====
-- The map from a path to an object handle (crates/mtpfs/src/tree.rs). A path and a name are lists
-- of code points.
pub mod Parts
pub mod Invariant
pub mod Listing
pub mod Agree
pub mod Depth
mod Examples
use bsdroid.Base.{
  ltb, leb, ◌==◌, if◌then◌else◌, ltb→lt, lt→ltb, le→ltb, ==_iff, ==_refl, Bool-cases, Option-cases,
  same, same_iff,
}
use bsdroid.Base.{
  length, get_or, get_elem?, take, drop, find, All, length-append, length-take, length-drop,
  take-append-drop, take-length_append, drop-length_append, take_all, take-min, take-append-take,
  take-take, drop-drop, find-some, All-append, All-take, All-drop, get_or-All,
}
use bsdroid.Base.{Result, ok, err, then_ok, map_err, IsOk}
use bsdroid.Base.{
  IsByte, IsU16, IsU32, IsU64, usize_max, le_u16, le_u32, from_le_u16, from_le_u32, u16_at, u32_at,
  from_le-le_u16, from_le-le_u32, le-from_le_u16, le-from_le_u32, u32_at-IsU32,
}
use bsdroid.Base.{
  ℕ, zero, suc, ◌+◌, ◌-◌, ◌*◌, ◌/◌, ◌%◌, ◌^◌, ◌≤◌, ◌<◌, min, max, String, ◌≡◌, refl, sym, ap, ◌∙◌,
  ◌≢◌, ◌↔◌, ◌⊎◌, inl, inr, Bool, true, false, not, ◌&&◌, ◌||◌, Option, none, some, List, [], ◌∷◌,
  ◌++◌, map, append_assoc, append-nil, arith,
}
use bsdroid.Base.Map
use bsdroid.Base.Map.{Map}

-- The handle of the root folder.
abbrev pub root : ℕ
root = 0

pub record Entry : Type 0 where
  pub handle : ℕ
  pub parent : ℕ
  pub name : List ℕ
  pub is_dir : Bool
  pub size : ℕ

pub data Lookup : Type 0 where
  found : ℕ → Lookup
  need_listing : ℕ → Lookup
  not_found : Lookup

-- A `BTreeSet` of handles is a map to the value without content.
pub record Tree : Type 0 where
  pub entries : Map Entry
  pub children : Map (List ℕ)
  pub listed : Map (Unit {0})

abbrev pub new : Tree
new = record { entries = []; children = []; listed = [] }

unfoldable pub is_listed : Tree → ℕ → Bool
is_listed t parent = Map.contains_key t.listed parent

-- The loop of `set_children`: the handles in order, and each object into the map.
unfoldable pub insert_all : Map Entry → List Entry → Map Entry
insert_all m [] = m
insert_all m (e ∷ es) = insert_all (Map.insert m e.handle e) es

abbrev pub handles : List Entry → List ℕ
handles [] = []
handles (e ∷ es) = e.handle ∷ handles es

unfoldable pub set_children : Tree → ℕ → List Entry → Tree
unfolding insert_all
set_children t parent es = record {
  entries = insert_all t.entries es;
  children = Map.insert t.children parent (handles es);
  listed = Map.insert t.listed parent tt;
}

unfoldable pub get : Tree → ℕ → Option Entry
get t handle = Map.get t.entries handle

-- `filter_map(|h| self.entries.get(h))`.
unfoldable pub present : Map Entry → List ℕ → List Entry
present m [] = []
present m (h ∷ hs) =
    let rest = present m hs in elim (Map.get m h) [ none ↦ rest | some e ↦ e ∷ rest ]

unfoldable pub children_of : Tree → ℕ → Option (List Entry)
unfolding present
children_of t parent =
    if Map.contains_key t.listed parent
    then elim (Map.get t.children parent) [ none ↦ none | some hs ↦ some (present t.entries hs) ]
    else none

abbrev pub is_named : List ℕ → Entry → Bool
is_named name e = same e.name name

unfoldable pub children_named : Tree → ℕ → List ℕ → Option Entry
unfolding present
children_named t parent name = elim (Map.get t.children parent) [
  | none ↦ none
  | some hs ↦ find (is_named name) (present t.entries hs)
]

-- `path.split('/')`: an empty text has one part, which is empty.
unfoldable pub split : ℕ → List ℕ → List (List ℕ)
split c [] = [] ∷ []
split c (x ∷ xs) = elim (split c xs) [
  | [] ↦ (x ∷ []) ∷ []
  | p ∷ ps ↦ if x == c then [] ∷ p ∷ ps else (x ∷ p) ∷ ps
]

-- Parts that are empty or `.` are dropped.
unfoldable pub keep_parts : List (List ℕ) → List (List ℕ)
keep_parts [] = []
keep_parts (p ∷ ps) =
    let rest = keep_parts ps in if same p [] || same p (b'.' ∷ []) then rest else p ∷ rest

unfoldable pub split_path : List ℕ → List (List ℕ)
unfolding split keep_parts
split_path path = keep_parts (split b'/' path)

-- The loop of `lookup`: the folder that was reached, and the parts to go.
unfoldable pub lookup_from : Tree → ℕ → List (List ℕ) → Lookup
lookup_from t current [] = found current
lookup_from t current (part ∷ parts) = elim (is_listed t current) [
  | false ↦ need_listing current
  | true ↦ elim (children_named t current part) [
    | none ↦ not_found
    | some e ↦ lookup_from t e.handle parts
  ]
]

unfoldable pub lookup : Tree → List ℕ → Lookup
unfolding lookup_from
lookup t path = lookup_from t root (split_path path)

-- The largest depth the tree walks.
abbrev pub max_depth : ℕ
max_depth = 256

-- Each part behind a separator. The parts are in the order of `parts.iter().rev()`.
unfoldable pub join : List (List ℕ) → List ℕ
join [] = []
join (p ∷ ps) = b'/' ∷ (p ++ join ps)

-- The loop of `path_of` with its rounds left. `parts` holds the last name that was pushed first.
unfoldable pub climb : ℕ → Tree → ℕ → List (List ℕ) → Option (List ℕ)
unfolding join get
climb zero t current parts = none
climb (suc rounds) t current parts = elim (current == root) [
  | true ↦ some (join parts)
  | false ↦ elim (get t current) [ none ↦ none | some e ↦ climb rounds t e.parent (e.name ∷ parts) ]
]

unfoldable pub path_of : Tree → ℕ → Option (List ℕ)
unfolding climb
path_of t handle = if handle == root then some (b'/' ∷ []) else climb max_depth t handle []

unfoldable pub forget_listing : Tree → ℕ → Tree
forget_listing t parent = record t {
  children = Map.remove t.children parent;
  listed = Map.remove t.listed parent;
}
