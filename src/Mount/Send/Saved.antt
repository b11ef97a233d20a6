-- ===== src/Mount/Send/Saved.antt =====
-- A send that fails (`send_pending` of crates/mtpfs/src/main.rs).
use bsdroid.Base.{leb, Bool-cases, Option-cases}
use bsdroid.Base.{Result, ok, err, Result-cases}
use bsdroid.Base.{usize_max}
use bsdroid.Base.{ℕ, ◌+◌, min, ◌≡◌, refl, ◌⊎◌, inl, inr, Bool, true, false, some}
use bsdroid.Base.Action.{pure}
use bsdroid.Tree
use bsdroid.Tree.{root, Lookup, found, need_listing, not_found, lookup, set_children}
use bsdroid.Session.{Transport}
use bsdroid.Backend.{Error, Mtp}
use bsdroid.Backend.Changes.{storage_info, rename_object, delete_object, send_object_stream}
use bsdroid.Mount.{eio, Host, Pending, Fs, on_device, or_errno}
use bsdroid.Mount.Names.{aside_name, next_count}
use bsdroid.Mount.Send.{free_or_max, size_of, make_room, send_contents, send_pending}
use bsdroid.Mount.Harmless.{Harmless, Keeps-chain, put_back-Keeps}

-- A fault of making room is a fault of the send.
add_kept : {A B C : Type 0} → A ⊎ C → A ⊎ B ⊎ C
add_kept (inl a) = inl a
add_kept (inr c) = inr (inr c)

-- The storage had no room for the old contents beside the new ones, so the old object was to be deleted, and the delete came back with a fault. A device whose answer is lost may have deleted it.
abbrev pub DeleteFault : {D F : Type 0} → Transport D → Pending F → Mtp D → Type 0
DeleteFault tr p m =
    (old : ℕ) × (p.replaces ≡ some old)
    × (leb p.size (free_or_max (storage_info tr m).0) ≡ false)
    × (x : Error) × ((delete_object tr old (storage_info tr m).1).0 ≡ err x)

module _ {D H F : Type 0} (K : Mtp D → Type 0) where
  -- The answer of a send, with what holds where it is an error; `Lost` is the case that the send says nothing of.
  abbrev Saved : Type 0 → (Result ℕ (Unit {0}) × Pending F) × Fs D H F → Type 0
  Saved Lost r = (e : ℕ) → r.0.0 ≡ err e → K r.1.mtp ⊎ (r.0.1.keep_spool ≡ true) ⊎ Lost

  -- Room was made: without a fault the old contents are there as far as the answer says so.
  abbrev MadeRoom : Type 0 → Result ℕ (Pending F × Bool) × Fs D H F → Type 0
  MadeRoom Lost r =
      ((e : ℕ) → r.0 ≡ err e → K r.1.mtp ⊎ Lost)
      × ((p : Pending F) (there : Bool) → r.0 ≡ ok (p, there) → there ≡ true → K r.1.mtp)

  module _ (tr : Transport D) (host : Host H F) (harmless : Harmless tr host K)
      (Lost : Type 0) where
    send_contents-Saved :
        (p : Pending F) (there : Bool) (fs : Fs D H F)
        → (there ≡ true → K fs.mtp)
        → Saved Lost (send_contents tr host p there fs)
    unfolding send_contents
    send_contents-Saved p there fs k e is =
        let sent =
          send_object_stream tr (host.reader p.file) host.patience p.parent p.name p.size
            (fs.mtp, fs.host) in
        elim (Result-cases sent.0) [
          | inl (a, done) ↦ absurd (cc (rw (send_contents, done) at is))
          | inr (x, failed) ↦ elim (Bool-cases there) [
            | inl kept ↦ inl (
                rw (send_contents, failed)
                  (put_back-Keeps K tr host harmless p.replaces p.name _
                    (harmless.sending p.file p.parent p.size p.name fs.mtp fs.host (k kept))))
            | inr gone ↦ inr (inl (rw (send_contents, failed, gone) refl))
          ]
        ]

    make_room-MadeRoom :
        (p : Pending F) (old : ℕ) (fs : Fs D H F)
        → (leb p.size (free_or_max (storage_info tr fs.mtp).0) ≡ false
            → (x : Error) → (delete_object tr old (storage_info tr fs.mtp).1).0 ≡ err x
            → Lost)
        → K fs.mtp
        → MadeRoom Lost (make_room tr host p old fs)
    unfolding make_room aside_name next_count
    make_room-MadeRoom p old fs lost k =
        let m = (storage_info tr fs.mtp).1 in
        let free = free_or_max (storage_info tr fs.mtp).0 in
        let km : K m = harmless.space fs.mtp k in
        let aside = (aside_name p.name (record fs { mtp = m })).0 in
        elim (Bool-cases (leb p.size free)) [
          | inl fits ↦
              let kept =
                Keeps-chain {H = H} {F = F} K
                  (or_errno (on_device (rename_object tr old aside)) eio) (λ _. pure (p, true))
                  (λ u ku. harmless.renaming old aside u.mtp ku) (λ a u ku. ku)
                  (aside_name p.name (record fs { mtp = m })).1 km in
              rw (make_room, fits) ((λ e is. inl kept), λ q there is t. kept)
          | inr no_room ↦
              elim (Bool-cases
                (leb p.size (min (free + size_of (Tree.get fs.tree old)) usize_max))) [
                  | inl room ↦ elim (Result-cases (delete_object tr old m).0) [
                    | inl (a, deleted) ↦
                        rw (make_room, no_room, room, deleted)
                          ((λ e is. absurd (cc is)), λ q there is t. absurd (cc (is, t)))
                    | inr (x, failed) ↦
                        let fault : Lost = lost no_room x failed in
                        rw (make_room, no_room, room, failed)
                          ((λ e is. inr fault), λ q there is t. absurd (cc is))
                  ]
                  | inr full ↦ rw (make_room, no_room, full) ((λ e is. inl km), λ q there is t. km)
                ]
        ]

    send_pending-Saved :
        (p : Pending F) (fs : Fs D H F)
        → (DeleteFault tr p fs.mtp → Lost)
        → K fs.mtp
        → Saved Lost (send_pending tr host p fs)
    unfolding send_pending
    send_pending-Saved p fs lost k =
        let rewound = host.rewind p.file fs.host in
        let fs1 : Fs D H F = record fs { host = rewound.1 } in
        elim (Option-cases p.broken) [
          | inr (rc, broken) ↦ simp (send_pending, broken) (λ e is. inl k)
          | inl sound ↦ elim (Result-cases rewound.0) [
            | inr (x, failed) ↦ simp (send_pending, sound, failed) (λ e is. inl k)
            | inl (a, ready) ↦ elim (Option-cases p.replaces) [
              | inl new ↦
                  simp (send_pending, sound, ready, new) (send_contents-Saved p true fs1 (λ t. k))
              | inr (old, replaces) ↦
                  let room = make_room tr host p old fs1 in
                  let (on_fault, on_room) =
                    make_room-MadeRoom p old fs1
                      (λ no_room x failed. lost (old, replaces, no_room, x, failed)) k in
                  elim (Result-cases room.0) [
                    | inr (x, refused) ↦
                        simp (send_pending, sound, ready, replaces, refused)
                          (λ e is. add_kept (on_fault x refused))
                    | inl ((q, there), made) ↦
                        simp (send_pending, sound, ready, replaces, made)
                          (send_contents-Saved q there room.1 (on_room q there made))
                  ]
            ]
          ]
        ]

  module _ (tr : Transport D) (host : Host H F) (harmless : Harmless tr host K) where
    -- A send that fails: whatever holds of the device and is kept by every call but a delete, such as that the old contents are there, holds behind it; or the spool file is marked to stay on the disk of the host; or the storage had no room for the new contents beside the old ones, and the delete of the old object came back with a fault.
    pub send_pending_fault :
        (p : Pending F) (fs : Fs D H F) (e : ℕ)
        → K fs.mtp
        → (send_pending tr host p fs).0.0 ≡ err e
        → K (send_pending tr host p fs).1.mtp
          ⊎ ((send_pending tr host p fs).0.1.keep_spool ≡ true)
          ⊎ DeleteFault tr p fs.mtp
    send_pending_fault p fs e k is =
        send_pending-Saved tr host harmless (DeleteFault tr p fs.mtp) p fs (λ d. d) k e is
