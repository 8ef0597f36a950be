-- ===== src/Fuse/Agrees.antt =====
-- The handlers of crates/steam-depot-mount/src/fuse.rs against those of crates/steam-depot-mount/src/nfs.rs.
use steam_depot_vfs.Prelude.{
  ℕ, ◌≡◌, ◌≢◌, refl, sym, ap, ◌∙◌, true, false, Option, some, none, inl, inr, Bool-cases, ◌==◌,
  nat_eq,
}
use steam_depot_vfs.Depot.{Bytes, Text, DepotApi}
use steam_depot_vfs.Outcome.{Outcome, ok, err, panicked, ◌>>=◌}
use steam_depot_vfs.ChunkStore.{ChunkStore}
use steam_depot_vfs.Inode.{unpack}
use steam_depot_vfs.Inode
use steam_depot_vfs.Fs.{DepotManifestStore}
use steam_depot_vfs.Tree.{SnapshotEntry, MountTree}
use steam_depot_vfs.View.{
  Node, SlotLookup, is_ready, is_pending, missing, slot_lookup, resolve, synthetic_child,
  snapshot_child,
}
use steam_depot_vfs.Nfs.Utf8.{is_utf8}
use steam_depot_vfs.Nfs.{NfsStat, noent, io, snapshot_of, lookup_inner, or_noent}
use steam_depot_vfs.Nfs
use steam_depot_vfs.Fuse.{
  Errno, enoent, eio, eisdir, FileAttr, Result, attr_of, or_enoent, io_error, lookup,
}

-- The NFS status that stands for an error of FUSE.
abbrev pub status_of : Errno → NfsStat
status_of enoent = noent
status_of eio = io
status_of eisdir = NfsStat.isdir

-- Of an answer of FUSE, what NFS tells.
abbrev pub fileid_of : Result FileAttr → Nfs.Result ℕ
fileid_of (ok a) = ok a.ino
fileid_of (err e) = err (status_of e)
fileid_of panicked = panicked

fileid-or_enoent :
    (o : Option Node)
    → fileid_of (or_enoent o >>= (λ n. ok (attr_of n))) ≡ (or_noent o >>= (λ n. ok n.ino))
fileid-or_enoent none = refl
fileid-or_enoent (some n) = refl

module _ {O W S : Type 0} (api : DepotApi)
    (open_manifest : O → W → Outcome Text DepotManifestStore × W) (store : ChunkStore S) where
  fileid-resolved :
      {E : Type 0} (r : Outcome E SnapshotEntry) (parent : ℕ) (name : Bytes)
      → fileid_of (
          io_error r >>= λ entry.
          or_enoent (snapshot_child api entry parent name) >>= (λ n. ok (attr_of n)))
        ≡ (Nfs.io_error r >>= λ entry.
            or_noent (snapshot_child api entry parent name) >>= (λ n. ok n.ino))
  fileid-resolved (ok entry) parent name = fileid-or_enoent (snapshot_child api entry parent name)
  fileid-resolved (err e) parent name = refl
  fileid-resolved panicked parent name = refl

  lookup-snapshot :
      (t : MountTree O) (w : W) (s : S) (parent : ℕ) (name : Bytes) (l : SlotLookup O)
      → is_utf8 name ≡ true
      → ((unpack parent).0 == Inode.synthetic) ≡ false
      → slot_lookup t (unpack parent).0 ≡ l
      → let f = lookup api open_manifest store (t, w, s) parent name in
        let n = lookup_inner api open_manifest store (t, w, s) parent name in
        (fileid_of f.0 ≡ n.0) × (f.1 ≡ n.1) × (f.2 ≡ n.2) × (f.3 ≡ n.3)
  unfolding lookup lookup_inner
  lookup-snapshot t w s parent name (is_ready entry) good snap e =
      rw (good, snap, e, snapshot_of)
        (fileid-or_enoent (snapshot_child api entry parent name), refl, refl, refl)
  lookup-snapshot t w s parent name (is_pending l) good snap e =
      rw (good, snap, e, snapshot_of)
        (
          fileid-resolved (resolve open_manifest t l (unpack parent).0 w).0 parent name,
          refl,
          refl,
          refl,
        )
  lookup-snapshot t w s parent name missing good snap e =
      rw (good, snap, e, snapshot_of) (refl, refl, refl, refl)

  lookup-inner :
      (t : MountTree O) (w : W) (s : S) (parent : ℕ) (name : Bytes)
      → let f = lookup api open_manifest store (t, w, s) parent name in
        let n = lookup_inner api open_manifest store (t, w, s) parent name in
        (fileid_of f.0 ≡ n.0) × (f.1 ≡ n.1) × (f.2 ≡ n.2) × (f.3 ≡ n.3)
  lookup-inner t w s parent name = elim (Bool-cases (is_utf8 name)) [
    | inr bad ↦ unfold lookup lookup_inner in rw bad (refl, refl, refl, refl)
    | inl good ↦ elim (Bool-cases ((unpack parent).0 == Inode.synthetic)) [
      | inl synth ↦
          unfold lookup lookup_inner in
          rw (good, synth) (fileid-or_enoent (synthetic_child t parent name), refl, refl, refl)
      | inr snap ↦ lookup-snapshot t w s parent name _ good snap refl
    ]
  ]

  -- The answer of NFS to an answer of FUSE.
  answered : (f : Result FileAttr) → f ≢ panicked → Nfs.caught (fileid_of f) ≡ fileid_of f
  answered (ok a) h = refl
  answered (err e) h = refl
  answered panicked h = absurd (h refl)

  -- The handlers `lookup` of FUSE and of NFS find the same inode or fail with the same error, where
  -- that of FUSE does not panic; where it panics, which NFS catches, NFS answers `NFS3ERR_IO`. In
  -- each case they leave the tree, the outside and the chunk store in the same state.
  pub lookup_agrees :
      (t : MountTree O) (w : W) (s : S) (parent : ℕ) (name : Bytes)
      → let f = lookup api open_manifest store (t, w, s) parent name in
        let n = Nfs.lookup api open_manifest store (t, w, s) parent name in
        (f.0 ≢ panicked → fileid_of f.0 ≡ n.0)
        × (f.0 ≡ panicked → n.0 ≡ err io)
        × (f.1 ≡ n.1)
        × (f.2 ≡ n.2)
        × (f.3 ≡ n.3)
  lookup_agrees t w s parent name =
      let f = lookup api open_manifest store (t, w, s) parent name in
      let (same, tree, outside, chunk_store) = lookup-inner t w s parent name in
      unfold Nfs.lookup in
      (
        λ h. sym (answered f.0 h) ∙ ap (λ r. Nfs.caught r) same,
        λ h. sym (ap (λ r. Nfs.caught r) same) ∙ ap (λ r. Nfs.caught (fileid_of r)) h,
        tree,
        outside,
        chunk_store,
      )
