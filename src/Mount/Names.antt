-- ===== src/Mount/Names.antt =====
-- The arguments of the program, the marks of a file handle, and the parts and the names of a path
-- (crates/mtpfs/src/main.rs).
use bsdroid.Base.{◌==◌, if◌then◌else◌, same}
use bsdroid.Base.{
  ℕ, ◌+◌, ◌*◌, ◌/◌, ◌%◌, ◌^◌, Bool, true, false, not, ◌||◌, Option, none, some, List, [], ◌∷◌, ◌++◌,
}
use bsdroid.Base.Decimal.{digits, decimal}
use bsdroid.Mount.{Host, Fs}

-- `oflag::writes`: the low two bits hold the access mode.
abbrev pub writes : ℕ → Bool
writes flags = let mode = flags % 4 in (mode == 1) || (mode == 2)

-- The bit of `O_TRUNC`.
abbrev pub truncates : ℕ → Bool
truncates flags = not ((flags / 1024) % 2 == 0)

abbrev pub fh_writer : ℕ
fh_writer = 2 ^ 32

abbrev pub fh_handle : ℕ → ℕ
fh_handle fh = fh % 2 ^ 32

-- The bit of `FH_WRITER`; without a handle the answer is true.
abbrev pub fh_writes : Option ℕ → Bool
fh_writes none = true
fh_writes (some fh) = not ((fh / 2 ^ 32) % 2 == 0)

abbrev pub starts_with_dash : List ℕ → Bool
starts_with_dash [] = false
starts_with_dash (c ∷ cs) = c == b'-'

-- The names and the arguments of FUSE. The option `-o` takes the argument behind it.
unfoldable pub split_args : List (List ℕ) → List (List ℕ) × List (List ℕ)
split_args [] = ([], [])
split_args (a ∷ []) = if starts_with_dash a then ([], a ∷ []) else (a ∷ [], [])
split_args (a ∷ b ∷ rest) =
    let behind = split_args rest in
    let next = split_args (b ∷ rest) in
    if starts_with_dash a
    then if same a (b'-' ∷ b'o' ∷ []) then (behind.0, a ∷ b ∷ behind.1) else (next.0, a ∷ next.1)
    else (a ∷ next.0, next.1)

-- What stands before and behind the last separator, `none` where there is no separator.
unfoldable pub split_last : List ℕ → Option (List ℕ × List ℕ)
split_last [] = none
split_last (c ∷ cs) =
    let rest = split_last cs in
    elim rest [
      | some parts ↦ some (c ∷ parts.0, parts.1)
      | none ↦ if c == b'/' then some ([], cs) else none
    ]

-- The folder and the name.
unfoldable pub split_parent : List ℕ → List ℕ × List ℕ
unfolding split_last
split_parent path = elim (split_last path) [
  | none ↦ (b'/' ∷ [], path)
  | some parts ↦ elim parts.0 [ [] ↦ (b'/' ∷ [], parts.1) | c ∷ cs ↦ (parts.0, parts.1) ]
]

-- `name.replace(['/', '\0'], "_")`.
unfoldable pub shown_name : List ℕ → List ℕ
shown_name [] = []
shown_name (c ∷ cs) = (if (c == b'/') || (c == 0) then b'_' else c) ∷ shown_name cs

-- `.bsdroid-old-`.
abbrev pub old_mark : List ℕ
old_mark =
    b'.' ∷ b'b' ∷ b's' ∷ b'd' ∷ b'r' ∷ b'o' ∷ b'i' ∷ b'd' ∷ b'-' ∷ b'o' ∷ b'l' ∷ b'd' ∷ b'-' ∷ []

-- `mtpfs-{pid}-{n}.spool`.
unfoldable pub spool_name : ℕ → ℕ → List ℕ
unfolding digits
spool_name pid n =
    (b'm' ∷ b't' ∷ b'p' ∷ b'f' ∷ b's' ∷ b'-' ∷ [])
    ++ decimal pid
    ++ b'-' ∷ decimal n
    ++ (b'.' ∷ b's' ∷ b'p' ∷ b'o' ∷ b'o' ∷ b'l' ∷ [])

module _ {D H F : Type 0} where
  -- `SPOOL_COUNT.fetch_add(1)`: the count, and the next state.
  unfoldable pub next_count : Fs D H F → ℕ × Fs D H F
  next_count fs = (fs.spool_count, record fs { spool_count = (fs.spool_count + 1) % 2 ^ 64 })

  unfoldable pub aside_name : List ℕ → Fs D H F → List ℕ × Fs D H F
  unfolding next_count digits
  aside_name name fs = let (n, fs') = next_count fs in (name ++ old_mark ++ decimal n, fs')

-- `/var/tmp`.
abbrev pub var_tmp : List ℕ
var_tmp = b'/' ∷ b'v' ∷ b'a' ∷ b'r' ∷ b'/' ∷ b't' ∷ b'm' ∷ b'p' ∷ []

module _ {H F : Type 0} (host : Host H F) where
  unfoldable pub spool_dir : List ℕ
  spool_dir = elim (host.var "BSDROID_SPOOL") [
    | some d ↦ d
    | none ↦ elim (host.var "TMPDIR") [ some d ↦ d | none ↦ var_tmp ]
  ]

  -- A CString cannot be made, or the call fails: the host then gives no answer. A product past 2^64 stops the program, and is not modelled.
  unfoldable pub free_bytes : List ℕ → H → Option ℕ
  free_bytes dir h = elim (host.statvfs dir h) [ none ↦ none | some st ↦ some (st.0 * st.1) ]
