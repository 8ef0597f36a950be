-- ===== src/Fuse.antt =====
-- crates/steam-depot-mount/src/fuse.rs: the handlers of `FuseFs`. What a handler tells the kernel is its
-- result; the state is the mount tree, that of the outside, which the openers act on, and the chunk store's.
pub mod Paging
pub mod Reads
pub mod Agrees
pub mod Tests
use steam_depot_vfs.Prelude.{
  ℕ, zero, suc, ◌+◌, ◌-◌, ◌*◌, ◌/◌, Bool, true, false, List, [], ◌∷◌, ◌++◌, map, Option, some, none,
  if◌then◌else◌, leb, get_elem?, ◌==◌, nat_eq, list_eq,
}
use steam_depot_vfs.Depot.{Bytes, Text, DepotFile, DepotApi}
use steam_depot_vfs.Outcome.{Outcome, ok, err, panicked, ◌>>=◌, ok_or}
use steam_depot_vfs.ChunkStore.{ChunkStore}
use steam_depot_vfs.Inode.{unpack}
use steam_depot_vfs.Inode
use steam_depot_vfs.Fs.{DepotManifestStore}
use steam_depot_vfs.Fs.Read.{read_into}
use steam_depot_vfs.Tree.{SnapshotEntry, MountTree, slot}
use steam_depot_vfs.View.{
  NodeKind, Node, dir_node, Listing, SlotLookup, is_ready, is_pending, missing, slot_lookup,
  slot_mtime, resolve, synthetic_node, synthetic_child, synthetic_dir, snapshot_node,
  snapshot_child, snapshot_dir,
}
use steam_depot_vfs.Nfs.Utf8.{is_utf8}

pub data Errno : Type 0 where
  enoent eio eisdir : Errno

abbrev pub Result {ℓ} : Type ℓ → Type ℓ
Result = Outcome Errno

pub data FileType : Type 0 where
  directory regular_file : FileType

pub record FileAttr : Type 0 where
  pub ino : ℕ
  pub size : ℕ
  pub blocks : ℕ
  pub seconds : ℕ
  pub kind : FileType
  pub perm : ℕ
  pub nlink : ℕ
  pub uid : ℕ
  pub gid : ℕ
  pub blksize : ℕ

abbrev pub file_type_of : NodeKind → FileType
file_type_of NodeKind.dir = directory
file_type_of (NodeKind.file executable) = regular_file
file_type_of (NodeKind.symlink target) = regular_file

-- Permission bits, in octal in the source, and links.
abbrev perm_of : NodeKind → ℕ × ℕ
perm_of NodeKind.dir = (5 * 64 + 5 * 8 + 5, 2)
perm_of (NodeKind.file executable) =
    (if executable then 5 * 64 + 5 * 8 + 5 else 4 * 64 + 4 * 8 + 4, 1)
perm_of (NodeKind.symlink target) = (4 * 64 + 4 * 8 + 4, 1)

abbrev blocks_of : FileType → ℕ → ℕ
blocks_of regular_file size = (size + 511) / 512
blocks_of directory size = 0

-- The four times are equal; `rdev` and `flags` are zero.
abbrev pub attr_of : Node → FileAttr
attr_of node =
    let (perm, nlink) = perm_of node.kind in
    record {
      ino = node.ino;
      size = node.size;
      blocks = blocks_of (file_type_of node.kind) node.size;
      seconds = node.mtime_secs;
      kind = file_type_of node.kind;
      perm = perm;
      nlink = nlink;
      uid = 1000;
      gid = 1000;
      blksize = 4096;
    }

pub record DirEntry : Type 0 where
  pub ino : ℕ
  pub next_offset : ℕ
  pub kind : FileType
  pub name : Text

abbrev child_entry : Text × Node → ℕ × FileType × Text
child_entry (name, node) = (node.ino, file_type_of node.kind, name)

-- The vector `all`, with `.` and `..`.
abbrev pub all_entries : ℕ → Listing → List (ℕ × FileType × Text)
all_entries ino entries =
    (ino, directory, b'.' ∷ []) ∷ (ino, directory, b'.' ∷ b'.' ∷ []) ∷ map child_entry entries

-- `reply.add` says whether the buffer, with `added` in it, is full: then the entry is not added.
module _ (full : List DirEntry → DirEntry → Bool) where
  unfoldable pub emit_from : ℕ → ℕ → List (ℕ × FileType × Text) → List DirEntry → List DirEntry
  emit_from i offset [] added = added
  emit_from i offset ((ino, kind, name) ∷ all) added =
      let e : DirEntry = record { ino = ino; next_offset = i + 1; kind = kind; name = name } in
      let skip = emit_from (i + 1) offset all added in
      let more = emit_from (i + 1) offset all (added ++ e ∷ []) in
      if leb (i + 1) offset then skip else if full added e then added else more

  unfoldable pub emit_readdir : ℕ → Listing → ℕ → List DirEntry
  unfolding emit_from
  emit_readdir ino entries offset = emit_from 0 offset (all_entries ino entries) []

abbrev pub or_enoent {ℓ} : {A : Type ℓ} → Option A → Result A
or_enoent = ok_or enoent

-- `map_err(|e| Errno::EIO)`
abbrev pub io_error {ℓ κ} : {E : Type ℓ} {A : Type κ} → Outcome E A → Result A
io_error (ok a) = ok a
io_error (err e) = err eio
io_error panicked = panicked

-- `unwrap_or_default`
abbrev pub or_default : Outcome (Unit {0}) Listing → Result Listing
or_default (ok l) = ok l
or_default (err e) = ok []
or_default panicked = panicked

module _ {O W S : Type 0} (api : DepotApi)
    (open_manifest : O → W → Outcome Text DepotManifestStore × W) (store : ChunkStore S) where
  abbrev pub Handled : Type 0 → Type 0
  Handled A = Result A × MountTree O × W × S

  -- The slot's snapshot as `initial` found it, opened if it must be.
  unfoldable pub resolve_lookup : MountTree O × W × S → SlotLookup O → ℕ → Handled SnapshotEntry
  resolve_lookup (t, w, s) initial sid = elim initial [
    | is_ready entry ↦ (ok entry, t, w, s)
    | is_pending l ↦ let (r, t', w') = resolve open_manifest t l sid w in (io_error r, t', w', s)
    | missing ↦ (err enoent, t, w, s)
  ]

  abbrev with_entry : {A : Type 0} → Handled SnapshotEntry → (SnapshotEntry → Result A) → Handled A
  with_entry (r, t, w, s) f = (r >>= f, t, w, s)

  unfoldable pub with_snapshot :
      {A : Type 0} → MountTree O × W × S → ℕ → (SnapshotEntry → Result A) → Handled A
  unfolding resolve_lookup
  with_snapshot (t, w, s) sid f = with_entry (resolve_lookup (t, w, s) (slot_lookup t sid) sid) f

  unfoldable pub lookup : MountTree O × W × S → ℕ → Bytes → Handled FileAttr
  unfolding with_snapshot is_utf8
  lookup (t, w, s) parent name =
      let (sid, _) = unpack parent in
      if is_utf8 name
      then (if sid == Inode.synthetic
          then (or_enoent (synthetic_child t parent name) >>= (λ n. ok (attr_of n)), t, w, s)
          else with_snapshot (t, w, s) sid
              (λ entry. or_enoent (snapshot_child api entry parent name) >>= (λ n. ok (attr_of n))))
      else (err enoent, t, w, s)

  unfoldable pub getattr : MountTree O × W × S → ℕ → Handled FileAttr
  unfolding with_snapshot
  getattr (t, w, s) ino =
      let (sid, idx) = unpack ino in
      if sid == Inode.synthetic
      then (or_enoent (synthetic_node t ino) >>= (λ n. ok (attr_of n)), t, w, s)
      else if idx == 0
      then elim (slot t sid) as (λ _. Handled FileAttr) [
        | none ↦ (err enoent, t, w, s)
        | some sl ↦ (ok (attr_of (dir_node ino (slot_mtime t sid))), t, w, s)
      ]
      else with_snapshot (t, w, s) sid
          (λ entry. or_enoent (snapshot_node api entry ino) >>= (λ n. ok (attr_of n)))

  unfoldable pub readdir :
      (List DirEntry → DirEntry → Bool) → MountTree O × W × S → ℕ → ℕ → Handled (List DirEntry)
  unfolding with_snapshot emit_readdir
  readdir full (t, w, s) ino offset =
      let (sid, _) = unpack ino in
      if sid == Inode.synthetic
      then (or_enoent (synthetic_dir t ino) >>= (λ l. ok (emit_readdir full ino l offset)), t, w, s)
      else with_snapshot (t, w, s) sid
          (λ entry.
            or_default (snapshot_dir api entry ino) >>= λ l. ok (emit_readdir full ino l offset))

  -- The part of `read` after the slot is resolved.
  unfoldable pub read_entry : SnapshotEntry → ℕ → ℕ → ℕ → S → Result Bytes × S
  read_entry entry file_idx offset size s =
      elim (get_elem? entry.snapshot.manifest.files file_idx) as (λ _. Result Bytes × S) [
        | none ↦ (err enoent, s)
        | some f ↦
            let (r, s') = read_into store api entry.snapshot f.path offset size [] s in
            (io_error r, s')
      ]

  abbrev pub read_found : Handled SnapshotEntry → ℕ → ℕ → ℕ → Handled Bytes
  read_found (ok entry, t, w, s) file_idx offset size =
      let (r, s') = read_entry entry file_idx offset size s in (r, t, w, s')
  read_found (err e, t, w, s) file_idx offset size = (err e, t, w, s)
  read_found (panicked, t, w, s) file_idx offset size = (panicked, t, w, s)

  unfoldable pub read : MountTree O × W × S → ℕ → ℕ → ℕ → Handled Bytes
  unfolding resolve_lookup read_entry
  read (t, w, s) ino offset size =
      let (sid, idx) = unpack ino in
      if sid == Inode.synthetic
      then (err eisdir, t, w, s)
      else if idx == 0
      then (err eisdir, t, w, s)
      else read_found (resolve_lookup (t, w, s) (slot_lookup t sid) sid) (idx - 1) offset size

  unfoldable pub access : ℕ → ℕ → Result (Unit {0})
  access ino mask = ok tt
