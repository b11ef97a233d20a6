-- ===== src/Mount/FileExamples.antt =====
-- A file that a program writes, on a host that takes two bytes at a time
-- (crates/mtpfs/src/main.rs).
use bsdroid.Base.{same}
use bsdroid.Base.{length, take}
use bsdroid.Base.{ok, err}
use bsdroid.Base.{
  ℕ, ◌+◌, min, ◌≡◌, refl, Bool, true, false, Option, none, some, List, [], ◌∷◌, arith,
}
use bsdroid.Base.PathMap
use bsdroid.Tree
use bsdroid.Tree.{Tree, Entry}
use bsdroid.Session.{got}
use bsdroid.Backend.Read.Slices.{slice}
use bsdroid.Backend.Read.Exact.{IsReady}
use bsdroid.Backend.Examples.{one_byte, IsFit, byte_mount, byte_IsReady}
use bsdroid.Mount.{Host, Pending, Fs}
use bsdroid.Mount.Spool.{op_write, adopt_for_write, is_too_large}
use bsdroid.Mount.Names.{free_bytes}
use bsdroid.Mount.Spool.Contents.{patch, resized}
use bsdroid.Mount.Spool.Filled.{Stores}
use bsdroid.Mount.Spool.Refines.{
  FileOp, write, truncate, read, size, all_on_mount, all_on_bytes, Holds, all_on_mount-Refines,
}
use bsdroid.Mount.Spool.Adopted.{Appends, adopt_for_write-Holds}
use bsdroid.Mount.Send.{op_flush, op_release}
use bsdroid.Base.{refl}
use bsdroid.Mount.Send.Once.{device_side, op_flush_once, op_flush-op_write_failed}

-- The disk: the bytes of its one file, and how far they were written.
abbrev pub Disk : Type 0
Disk = List ℕ × ℕ

abbrev pub two_at_a_time : Host Disk (Unit {0})
two_at_a_time = record {
  owner = (1001, 1001);
  pid = 7;
  patience = 0;
  var = λ name. none;
  statvfs = λ dir h. none;
  create_file = λ path h. (ok tt, ([], 0));
  remove_file = λ path h. h;
  write_at = λ f bytes offset h.
      (ok (min 2 (length bytes)), (patch h.0 offset (take (min 2 (length bytes)) bytes), h.1));
  write_all = λ f bytes h. (ok tt, (patch h.0 h.1 bytes, h.1 + length bytes));
  read_at = λ f want offset h. (ok (slice h.0 offset want), h);
  set_len = λ f n h. (ok tt, (resized h.0 n, h.1));
  rewind = λ f h. (ok tt, (h.0, 0));
  reader = λ f. record { read_some = λ want h. (got (slice h.0 h.1 want), (h.0, h.1 + want)) };
}

abbrev bytes_of : Unit {0} → Disk → List ℕ
bytes_of f h = h.0

abbrev cursor_of : Unit {0} → Disk → ℕ
cursor_of f h = h.1

two_at_a_time-Stores : Stores two_at_a_time bytes_of
two_at_a_time-Stores = record {
  written = λ f bytes offset h some_bytes. (
    min 2 (length bytes),
    (patch h.0 offset (take (min 2 (length bytes)) bytes), h.1),
    refl,
    omega (arith, some_bytes),
    omega arith,
    refl,
  );
  sized = λ f n h. ((resized h.0 n, h.1), refl, refl);
  gives = λ f want offset h. (h, refl, refl);
}

two_at_a_time-Appends : Appends two_at_a_time bytes_of cursor_of
two_at_a_time-Appends = record {
  created = λ path h. (tt, ([], 0), refl, refl, refl);
  appended = λ f bytes h. ((patch h.0 h.1 bytes, h.1 + length bytes), refl, refl, refl);
}

-- `/a`, a file that was just made.
abbrev pub path_a : List ℕ
path_a = b'/' ∷ b'a' ∷ []

abbrev pub path_b : List ℕ
path_b = b'/' ∷ b'b' ∷ []

abbrev pub writing_a : Pending (Unit {0})
writing_a = record {
  parent = 0;
  name = b'a' ∷ [];
  file = tt;
  spool = record { dir = []; name = [] };
  size = 0;
  sent = none;
  replaces = none;
  broken = none;
  keep_spool = false;
}

abbrev fs_writing : Fs Bool Disk (Unit {0})
fs_writing = record {
  mtp = byte_mount;
  tree = Tree.new;
  pending = (path_a, writing_a) ∷ [];
  host = ([], 0);
  spool_count = 1;
}

-- Three bytes behind a gap of one, then a cut to two bytes, a read and the size.
abbrev some_ops : List FileOp
some_ops = write 7 (8 ∷ 9 ∷ []) 1 ∷ truncate 2 ∷ read 5 0 ∷ size ∷ []

a_there : PathMap.get fs_writing.pending path_a ≡ some writing_a
unfolding PathMap.get same
a_there = refl

all_on_mount-Refines_example :
    (st' : Option (Fs Bool Disk (Unit {0}))) × (all_on_mount one_byte two_at_a_time path_a some_ops
        (some fs_writing)
      ≡ (ok (all_on_bytes some_ops []).0, st'))
    × Holds one_byte two_at_a_time path_a bytes_of (all_on_bytes some_ops []).1 st'
all_on_mount-Refines_example =
    all_on_mount-Refines one_byte two_at_a_time path_a bytes_of two_at_a_time-Stores some_ops []
      (some fs_writing) (omega arith, (tt, (tt, (tt, tt))))
      (fs_writing, writing_a, refl, a_there, refl, refl)

some_ops_answers :
    all_on_bytes some_ops [] ≡ ((3 ∷ []) ∷ [] ∷ (0 ∷ 7 ∷ []) ∷ (2 ∷ []) ∷ [], 0 ∷ 7 ∷ [])
unfolding all_on_bytes patch resized
some_ops_answers = refl

-- The file `/a` on a device that serves one byte.
abbrev pub entry_a : Entry
entry_a = record { handle = 9; parent = 0; name = b'a' ∷ []; is_dir = false; size = 1 }

abbrev fs_idle : Fs Bool Disk (Unit {0})
fs_idle = record fs_writing { pending = [] }

adopt_for_write-Holds_example :
    (next : Fs Bool Disk (Unit {0})) × (adopt_for_write one_byte two_at_a_time path_a 9 entry_a true
        fs_idle
      ≡ (ok tt, next))
    × Holds one_byte two_at_a_time path_a bytes_of (42 ∷ []) (some next)
    × IsReady one_byte (42 ∷ []) 9 IsFit next.mtp
adopt_for_write-Holds_example =
    adopt_for_write-Holds one_byte two_at_a_time (42 ∷ []) 9 IsFit bytes_of cursor_of
      two_at_a_time-Appends path_a entry_a fs_idle byte_IsReady refl
      (unfold is_too_large free_bytes in refl) (unfold PathMap.get in refl)

op_flush_once_example :
    let (r, st1) = op_flush one_byte two_at_a_time path_a none (some fs_writing) in
    (op_flush one_byte two_at_a_time path_a none st1 ≡ (r, st1))
    × (device_side (op_release one_byte two_at_a_time path_a none st1) ≡ device_side st1)
op_flush_once_example = op_flush_once one_byte two_at_a_time path_a none (some fs_writing)

-- A host whose disk is full.
abbrev full_disk : Host Disk (Unit {0})
full_disk = record two_at_a_time { write_at = λ f bytes offset h. (err 28, h) }

abbrev fs_broken : Fs Bool Disk (Unit {0})
fs_broken = record fs_writing { pending = (path_a, record writing_a { broken = some 28 }) ∷ [] }

full_write : op_write full_disk path_a (7 ∷ []) 0 (some fs_writing) ≡ (err 28, some fs_broken)
unfolding op_write PathMap.get same PathMap.insert
full_write = refl

op_flush-op_write_failed_example :
    let (r, flushed) = op_flush one_byte full_disk path_a none (some fs_broken) in
    (r ≡ err 28)
    × (device_side flushed ≡ some (byte_mount, Tree.new))
    × (device_side (op_release one_byte full_disk path_a none flushed)
        ≡ some (byte_mount, Tree.new))
op_flush-op_write_failed_example =
    op_flush-op_write_failed one_byte full_disk path_a (7 ∷ []) 0 none fs_writing writing_a 28
      (some fs_broken) a_there full_write refl
