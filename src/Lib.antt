-- ===== src/Lib.antt =====
-- bsdroid: an Android phone as a folder on FreeBSD, over USB and MTP. This library models the parts
-- of the program that decide what bytes mean and what a path names, and proves what they promise.
--
-- The program. The host opens a USB device, reads its descriptors and chooses the MTP interface
-- (crates/usb-freebsd). Over the bulk endpoints of that interface it exchanges containers, each a
-- header of 12 bytes and a payload; the payloads hold datasets (crates/ptp-proto). The mount keeps
-- a tree of the objects it has listed so far and turns a path into the handle of an object
-- (crates/mtpfs/src/tree.rs). A walk along a path stops at a folder that was not listed yet; the
-- mount lists it, puts the answer into the tree and walks again.
--
-- The model.
--   Base: lists, options, results and maps over the native numbers, and little-endian fields.
--   Ptp: crates/ptp-proto/src/lib.rs.
--     Ptp.Error, Ptp.Header, Ptp.Container: `ParseError`, `Header`, `Container`, the functions
--       `build`, `build_data_header`, `build_command` and their limits.
--     Ptp.Reader: the cursor `Reader` as a state that each read takes and gives back, with the
--       result of the read; a chain of reads is `>>=`, and stops at the first error as `?` does.
--     Ptp.Utf16, Ptp.Text: UTF-16 as the standard library encodes and decodes it, and `push_string`.
--     Ptp.Object, Ptp.PropList, Ptp.Device: `ObjectInfo`, the property list and its fold into one
--       record for each object, `StorageInfo`, `DeviceInfo` and the questions on its operations.
--   Tree: crates/mtpfs/src/tree.rs. `Tree` has the three maps of the source; an operation takes the
--     tree and gives the new one.
--   Usb: crates/usb-freebsd/src/descriptor.rs. Usb.Descriptor reads a configuration descriptor,
--     Usb.Mtp chooses the interface and its endpoints, Usb.Bos reads the BOS descriptor.
--     Usb.Device: the tables and the timeout of crates/usb-freebsd/src/device.rs.
--   Session: crates/mtp-session/src/lib.rs. An operation is an `Action`: a function from the state to a
--     result and the next state, which keeps what was done before a fault. The state is `Session`,
--     with the device behind the transport inside it.
--     Session.Setup: `Config`, its correction, and the rule of the zero packet.
--     Session.Env: the switches, from the value of a variable on.
--     Session.Answer: `operation`, `operation_stream` and `read_answer`; the loop over the transfers is
--       `collect`, and `Progress` holds the counts of the loop.
--     Session.Send: `operation_sending`, `operation_with_data` and `read_exact_or_short`.
--     Session.Life: `new`, `recover`, `drain`, `open_session`, `open_session_or_repair`,
--       `close_session`, and `Drop`.
--   Backend: crates/mtpfs/src/backend.rs. `Mtp` holds the session, the cache and what the mount knows
--     of its device.
--     Backend.Calls: the three ways to call the session. Backend.Read: `read_at` and what it calls.
--     Backend.Changes: the calls that change objects. Backend.Folder: the two ways to list.
--     Backend.Start: the session of a device that was found, the attempts of `open`, and `Drop`.
--   Mount: crates/mtpfs/src/main.rs. `Fs` is the state that the callbacks share, with the disk of the
--     host and the counter of spool files, which are global in the source; a callback is an `Action`
--     on it, or on no mount. An error number is that of the code without its sign.
--     Mount: the state, `with_fs` and `resolve`. Mount.Names: the arguments, the marks of a file
--       handle, the parts of a path, and the names of spool files and of objects that move aside.
--     Mount.Change: `remove`, `op_mkdir`, `op_rename`. Mount.Spool: `op_open`, `op_create`,
--       `op_write`, and how a spool file comes to be. Mount.Send: `send_pending`, `op_flush`,
--       `op_release`, `op_truncate`. Mount.Look: `op_getattr`, `op_readdir`, `op_read`, `op_statfs`.
--     Mount.Spool.Contents and Mount.Storage specify a file of bytes and what a device holds.
--   Discover: crates/usb-freebsd/src/discover.rs. A device handle is a record of what the library
--     gives of a device.
--   Fixture: crates/hex-fixture/src/lib.rs, from the text of a file on. A panic is an error value.
--
-- Numbers and texts. A byte, a `u16`, a `u32` and a `usize` are natural numbers; where the source
-- narrows a value the remainder is written out, and `usize` has 64 bits. A text is the list of its
-- code points. A `BTreeMap` is an association list with one entry for each key.
--
-- Loops. The loops over a byte buffer count their rounds: the descriptor loops run for as many
-- rounds as the buffer has bytes, and each round moves by one byte at least. Usb.Descriptor.Loop
-- relates the counted loop to the loop of the source, which has no count. `Tree::path_of` has the
-- count 256 in the source, and the loops of a session have the counts of the source. The loop of
-- `Mtp::read_at` has no count; the model gives it as many rounds as bytes are wanted, and every round
-- adds a byte; `op_write` and `copy_object_to_spool` have as many rounds as bytes, and every round
-- takes a byte at least. A read of a source that is interrupted is tried again, in the model a given
-- number of times.
--
-- Parameters. The name of a USB interface comes from the device, so the choice of the interface
-- takes a function from the index of a string to a name.
--
-- The transport of a session, the writer that takes a payload and the reader that gives one are
-- parameters, as in the source. The files of the host (`std::fs`, `statvfs`) are the parameter `Host`;
-- a theorem on their contents has what POSIX says of them as a hypothesis. A theorem on a device that
-- answers as MTP says has that as a hypothesis.
--
-- Not modelled: the texts of the errors and the messages, and the names that `op::name` and `resp::name`
-- give for a report; the transfers on the USB device (the rest of crates/usb-freebsd/src/device.rs);
-- `main` and the start of FUSE (crates/mtpfs/src/main.rs); the search for a device in
-- crates/mtpfs/src/backend.rs; the bindings to libusb and libfuse; the probe (crates/mtpprobe), which
-- prints; the time that an operation took.
pub mod Base
pub mod Ptp
pub mod Tree
pub mod Usb
pub mod Fixture
pub mod Session
pub mod Backend
pub mod Mount
pub mod Discover
