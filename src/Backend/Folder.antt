-- ===== src/Backend/Folder.antt =====
-- How the mount reads a folder (`list`, `list_by_properties` and `list_one_at_a_time` of
-- crates/mtpfs/src/backend.rs).
pub mod Asked
pub mod Inside
use bsdroid.Base.{
  ltb, leb, ◌==◌, if◌then◌else◌, ltb→lt, lt→ltb, le→ltb, ==_iff, ==_refl, Bool-cases, Option-cases,
  same, same_iff,
}
use bsdroid.Base.{
  length, get_or, get_elem?, take, drop, find, All, length-append, length-take, length-drop,
  take-append-drop, take-length_append, drop-length_append, take_all, take-min, take-append-take,
  take-take, drop-drop, find-some, All-append, All-take, All-drop, get_or-All,
}
use bsdroid.Base.{Result, ok, err, then_ok, map_err, IsOk, Result-cases, map_err-ok}
use bsdroid.Base.{
  IsByte, IsU16, IsU32, IsU64, usize_max, le_u16, le_u32, from_le_u16, from_le_u32, u16_at, u32_at,
  from_le-le_u16, from_le-le_u32, le-from_le_u16, le-from_le_u32, u32_at-IsU32,
}
use bsdroid.Base.{
  ℕ, zero, suc, ◌+◌, ◌-◌, ◌*◌, ◌/◌, ◌%◌, ◌^◌, ◌≤◌, ◌<◌, min, max, String, ◌≡◌, refl, sym, ap, ◌∙◌,
  subst, ◌≢◌, ◌↔◌, ◌⊎◌, inl, inr, Bool, true, false, not, ◌&&◌, ◌||◌, Option, none, some, List, [],
  ◌∷◌, ◌++◌, map, append_assoc, append-nil, arith,
}
use bsdroid.Base.Action.{Action, pure, raise, lift, ◌>>=◌}
use bsdroid.Ptp.Object
use bsdroid.Ptp.Object.{ObjectInfo}
use bsdroid.Ptp.PropList
use bsdroid.Ptp.PropList.{
  PropEntry, PropRecord, object_format, object_size, object_file_name, parse_object_prop_list,
  fold_prop_list,
}
use bsdroid.Ptp.Device.{get_object_prop_list}
use bsdroid.Tree.{root, Entry}
use bsdroid.Session.{Transport}
use bsdroid.Backend.{Error, parse, bad_listing, drop_the_folder, Mtp}
use bsdroid.Backend.Calls.{operation}

-- `op::GET_OBJECT_HANDLES`, `op::GET_OBJECT_INFO` and `association::ROOT_ONLY`.
abbrev pub get_object_handles : ℕ
get_object_handles = 0x1007

abbrev pub get_object_info : ℕ
get_object_info = 0x1008

abbrev pub root_only : ℕ
root_only = 0xffff_ffff

abbrev pub depth_children : ℕ
depth_children = 1

-- The properties that the fast listing asks for.
abbrev pub wanted : List ℕ
wanted = object_file_name ∷ object_size ∷ object_format ∷ []

-- The entry of a record, or the fault of a record without a name.
unfoldable pub entry_of : ℕ → PropRecord → Result Error Entry
entry_of parent r = elim r.name [
  | [] ↦ err (bad_listing r.handle)
  | c ∷ cs ↦ ok (record {
    handle = r.handle;
    parent = parent;
    name = r.name;
    is_dir = PropList.is_folder r;
    size = r.size;
  })
]

unfoldable pub entries_of : ℕ → List PropRecord → Result Error (List Entry)
unfolding entry_of
entries_of parent [] = ok []
entries_of parent (r ∷ rs) =
    then_ok (entry_of parent r) λ e. then_ok (entries_of parent rs) λ es. ok (e ∷ es)

-- `chunks_exact(4)` behind the count.
unfoldable pub handle_chunks : List ℕ → List ℕ
handle_chunks (a ∷ b ∷ c ∷ d ∷ rest) = from_le_u32 a b c d ∷ handle_chunks rest
handle_chunks (a ∷ b ∷ c ∷ []) = []
handle_chunks (a ∷ b ∷ []) = []
handle_chunks (a ∷ []) = []
handle_chunks [] = []

module _ {D : Type 0} (tr : Transport D) where
  -- The loop over the properties: the elements of every answer.
  unfoldable pub ask_each : ℕ → List ℕ → Action Error (Mtp D) (List PropEntry)
  unfolding operation parse_object_prop_list
  ask_each arg [] = pure []
  ask_each arg (code ∷ codes) =
      operation tr "GetObjectPropList" get_object_prop_list
        (arg ∷ 0 ∷ code ∷ 0 ∷ depth_children ∷ [])
      >>= λ bytes. lift (map_err parse (parse_object_prop_list bytes)) >>= λ es.
          ask_each arg codes >>= λ rest. pure (es ++ rest)

  unfoldable pub list_by_properties : ℕ → Action Error (Mtp D) (List Entry)
  unfolding ask_each fold_prop_list drop_the_folder entries_of
  list_by_properties parent =
      let arg = if parent == root then 0 else parent in
      ask_each arg wanted >>= λ es.
      lift (entries_of parent (drop_the_folder (fold_prop_list es) arg))

  -- The loop over the handles. An object whose dataset does not parse is left out.
  unfoldable pub ask_objects : ℕ → List ℕ → Action Error (Mtp D) (List Entry)
  unfolding operation
  ask_objects parent [] = pure []
  ask_objects parent (h ∷ hs) = operation tr "GetObjectInfo" get_object_info (h ∷ []) >>= λ bytes.
      ask_objects parent hs >>= λ rest. elim (Object.parse bytes) [
        | err e ↦ pure rest
        | ok o ↦ pure (
            record {
              handle = h;
              parent = parent;
              name = o.filename;
              is_dir = Object.is_folder o;
              size = o.compressed_size;
            }
            ∷ rest)
      ]

  unfoldable pub list_one_at_a_time : ℕ → Action Error (Mtp D) (List Entry)
  unfolding operation ask_objects handle_chunks
  list_one_at_a_time parent m =
      (operation tr "GetObjectHandles" get_object_handles
            (m.storage ∷ 0 ∷ (if parent == root then root_only else parent) ∷ [])
          >>= λ bytes. ask_objects parent (handle_chunks (drop 4 bytes)))
        m

  -- A fault of the fast way turns the fast way off, and the older way answers.
  unfoldable pub list : ℕ → Action Error (Mtp D) (List Entry)
  unfolding list_by_properties list_one_at_a_time
  list parent m = elim m.fast_list [
    | false ↦ list_one_at_a_time parent m
    | true ↦
        let (r, m1) = list_by_properties parent m in
        elim r [
          | ok es ↦ (ok es, m1)
          | err e ↦ list_one_at_a_time parent (record m1 { fast_list = false })
        ]
  ]
