-- ===== src/Fuse/Reads.antt =====
-- What `read` of crates/steam-depot-mount/src/fuse.rs answers.
use native.Mathlib.Decide.{dec_lt}
use steam_depot_vfs.Prelude.{
  ℕ, ◌+◌, ◌-◌, ◌<◌, ◌≡◌, ◌≢◌, min, refl, ap, ◌∙◌, arith, true, false, [], some, ltb, get_elem?,
  if◌then◌else◌, ◌==◌, nat_eq,
}
use steam_depot_vfs.Depot.{Bytes, Text, ChunkHash, DepotFile, DepotApi}
use steam_depot_vfs.Outcome.{Outcome, ok, err}
use steam_depot_vfs.ChunkStore.{ChunkStore, IsFaithful}
use steam_depot_vfs.Inode.{unpack}
use steam_depot_vfs.Inode
use steam_depot_vfs.Fs.{DepotManifestStore, past_end}
use steam_depot_vfs.Fs.Read.{find_file, read_into, read_file, u64_mod}
use steam_depot_vfs.Fs.Read.Slices.{between}
use steam_depot_vfs.Fs.Read.Layout.{HasSha, HoldsContent}
use steam_depot_vfs.Fs.Read.Content.{read_into-total}
use steam_depot_vfs.Tree.{SnapshotEntry, MountTree}
use steam_depot_vfs.View.{is_ready, slot_lookup}
use steam_depot_vfs.Fuse
use steam_depot_vfs.Fuse.{Result, eio, Handled, resolve_lookup, read_entry, read_found, read}

beyond : (size offset : ℕ) → size < offset → ltb size offset ≡ true
beyond size offset h = ground arith

module _ {S : Type 0} (store : ChunkStore S) (Inv : S → Type 0) (Good : ChunkHash → Bytes → Type 0)
    (faithful : IsFaithful Inv Good store) (api : DepotApi) {O W : Type 0}
    (open_manifest : O → W → Outcome Text DepotManifestStore × W) (entry : SnapshotEntry)
    (f : DepotFile) (content : Bytes) (found : find_file entry.snapshot f.path ≡ ok f)
    (holds : HoldsContent Good api f content) where
  read-ready :
      (t : MountTree O) (w : W) (s : S) (ino offset size : ℕ)
      → slot_lookup t (unpack ino).0 ≡ is_ready entry
      → (unpack ino).0 ≢ Inode.synthetic
      → (unpack ino).1 ≢ 0
      → get_elem? entry.snapshot.manifest.files ((unpack ino).1 - 1) ≡ some f
      → (read api open_manifest store (t, w, s) ino offset size).0
        ≡ Fuse.io_error (read_into store api entry.snapshot f.path offset size [] s).0
  unfolding read
  read-ready t w s ino offset size slot snap file at =
      let a : ((unpack ino).0 == Inode.synthetic) ≡ false = ground (arith, snap) in
      let b : ((unpack ino).1 == 0) ≡ false = ground (arith, file) in
      let sid = (unpack ino).0 in
      let open_slot : resolve_lookup api open_manifest store (t, w, s) (slot_lookup t sid) sid
          ≡ (ok entry, t, w, s) =
        ap (λ l. resolve_lookup api open_manifest store (t, w, s) l sid) slot in
      let idx = (unpack ino).1 - 1 in
      let unread : read api open_manifest store (t, w, s) ino offset size
          ≡ read_found api open_manifest store
              (resolve_lookup api open_manifest store (t, w, s) (slot_lookup t sid) sid) idx offset
              size =
        rw (a, b) refl in
      ap (λ (h : Handled api open_manifest store Bytes). h.0)
        (unread
          ∙ ap
              (λ (h : Handled api open_manifest store SnapshotEntry).
                read_found api open_manifest store h idx offset size)
              open_slot)
      ∙ unfold read_entry in rw (at, read_entry) refl

  failed :
      (s : S) (offset size : ℕ)
      → f.size < offset
      → (read_into store api entry.snapshot f.path offset size [] s).0
        ≡ err (past_end f.size offset)
  failed s offset size past =
      unfold read_into in
      rw (found, read_into)
        (unfold read_file in rw (holds.regular, beyond f.size offset past, read_file) refl)

  -- A `read` of a file of a snapshot that is open, whose content the store has: the bytes from
  -- `offset` on, `size` of them or up to the end of the file; past the end it is an input and output
  -- error.
  pub fuse_read_lem :
      (t : MountTree O) (w : W) (s : S) (ino offset size : ℕ)
      → slot_lookup t (unpack ino).0 ≡ is_ready entry
      → (unpack ino).0 ≢ Inode.synthetic
      → (unpack ino).1 ≢ 0
      → get_elem? entry.snapshot.manifest.files ((unpack ino).1 - 1) ≡ some f
      → offset + size < u64_mod
      → ((sha : ChunkHash) (t : S)
          → HasSha sha (api.chunks f)
          → Inv t
          → (b : Bytes) × ((store.get sha t).0 ≡ ok b))
      → Inv s
      → (read api open_manifest store (t, w, s) ino offset size).0 ≡ (
          if ltb f.size offset
          then err eio
          else ok (between offset (min (offset + size) f.size) content))
  fuse_read_lem t w s ino offset size slot snap file at fits has inv =
      read-ready t w s ino offset size slot snap file at ∙ elim (dec_lt f.size offset) [
        | yes past ↦ rw (beyond f.size offset past) (ap Fuse.io_error (failed s offset size past))
        | no inside ↦
            let a : ltb f.size offset ≡ false = ground (arith, inside) in
            rw a (
              ap Fuse.io_error (
                read_into-total store Inv Good faithful api entry.snapshot f.path f content found
                  holds offset size [] s (omega arith) fits (omega (arith, holds.small)) has inv))
      ]
