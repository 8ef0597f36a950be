-- ===== src/Nfs.antt =====
-- crates/steam-depot-mount/src/nfs.rs: the handlers of `NfsFs`. Their state is the mount tree, that of the
-- chunk store, and that of the outside, which the openers act on.
pub mod Utf8
pub mod Paging
pub mod Reads
mod Tests
use steam_depot_vfs.Prelude.{
  ℕ, zero, suc, ◌+◌, ◌-◌, ◌*◌, ◌/◌, min, Bool, true, false, List, [], ◌∷◌, map, Option, some, none,
  if◌then◌else◌, leb, length, take, drop, ◌==◌, nat_eq, list_eq,
}
use steam_depot_vfs.Depot.{Bytes, Text, DepotFile, DepotApi}
use steam_depot_vfs.Outcome.{Outcome, ok, err, panicked, ◌>>=◌, ok_or}
use steam_depot_vfs.ChunkStore.{ChunkStore}
use steam_depot_vfs.Inode.{unpack}
use steam_depot_vfs.Inode
use steam_depot_vfs.Fs.{DepotManifestStore, IoError}
use steam_depot_vfs.Fs.Read.{read_into}
use steam_depot_vfs.Tree.{SnapshotEntry, MountTree, slot}
use steam_depot_vfs.View.{
  NodeKind, Node, dir_node, Listing, is_ready, is_pending, missing, slot_lookup, slot_mtime,
  resolve, synthetic_node, synthetic_child, synthetic_dir, snapshot_node, snapshot_child,
  snapshot_dir, nth_file,
}
use Utf8.{is_utf8}

-- The status codes that the handlers answer with.
pub data NfsStat : Type 0 where
  noent io isdir inval rofs : NfsStat

abbrev pub Result {ℓ} : Type ℓ → Type ℓ
Result = Outcome NfsStat

pub data FileKind : Type 0 where
  directory regular link : FileKind

pub record Fattr : Type 0 where
  pub ftype : FileKind
  pub mode : ℕ
  pub nlink : ℕ
  pub size : ℕ
  pub used : ℕ
  pub fileid : ℕ
  pub seconds : ℕ

pub record DirEntry : Type 0 where
  pub fileid : ℕ
  pub name : Text
  pub attr : Fattr

pub record ReadDirResult : Type 0 where
  pub entries : List DirEntry
  pub end : Bool

-- Permission bits, written in octal in the source.
abbrev read_bits : ℕ
read_bits = 4 * 64 + 4 * 8 + 4

abbrev read_execute_bits : ℕ
read_execute_bits = 5 * 64 + 5 * 8 + 5

abbrev all_bits : ℕ
all_bits = 7 * 64 + 7 * 8 + 7

abbrev kind_bits : NodeKind → FileKind × ℕ × ℕ
kind_bits NodeKind.dir = (directory, read_execute_bits, 2)
kind_bits (NodeKind.file executable) =
    (regular, if executable then read_execute_bits else read_bits, 1)
kind_bits (NodeKind.symlink target) = (link, all_bits, 1)

-- The fields that are always zero are left out.
abbrev pub attr_of : Node → Fattr
attr_of node =
    let (ftype, mode, nlink) = kind_bits node.kind in
    record {
      ftype = ftype;
      mode = mode;
      nlink = nlink;
      size = node.size;
      used = (node.size + 511) / 512 * 512;
      fileid = node.ino;
      seconds = node.mtime_secs;
    }

abbrev pub dir_entry : Text × Node → DirEntry
dir_entry (name, node) = record { fileid = node.ino; name = name; attr = attr_of node }

-- The place after the first entry with the inode `cookie`.
unfoldable pub position_after : ℕ → Listing → Option ℕ
position_after cookie [] = none
position_after cookie ((name, node) ∷ l) =
    let rest = position_after cookie l in
    if node.ino == cookie then some 1 else elim rest [ none ↦ none | some i ↦ some (suc i) ]

abbrev pub skip_of : ℕ → Listing → ℕ
skip_of start_after entries =
    if start_after == 0
    then 0
    else elim (position_after start_after entries) [ none ↦ 0 | some i ↦ i ]

-- The end of `readdir_inner`: a page of a listing.
unfoldable pub page_of : Listing → ℕ → ℕ → ReadDirResult
unfolding position_after
page_of entries start_after max_entries =
    let skip = skip_of start_after entries in
    let page = map dir_entry (take max_entries (drop skip entries)) in
    record { entries = page; end = leb (length entries) (skip + length page) }

-- A panic becomes an error that the client is told.
abbrev pub caught {ℓ} : {A : Type ℓ} → Result A → Result A
caught (ok a) = ok a
caught (err e) = err e
caught panicked = err io

abbrev pub or_noent {ℓ} : {A : Type ℓ} → Option A → Result A
or_noent = ok_or noent

-- `map_err(|e| NFS3ERR_IO)`
abbrev pub io_error {ℓ κ} : {E : Type ℓ} {A : Type κ} → Outcome E A → Result A
io_error (ok a) = ok a
io_error (err e) = err io
io_error panicked = panicked

abbrev pub dir_or_noent : Outcome (Unit {0}) Listing → Result Listing
dir_or_noent (ok l) = ok l
dir_or_noent (err e) = err noent
dir_or_noent panicked = panicked

-- The parameters: the manifest accessors, the opener, and the chunk store.
module _ {O W S : Type 0} (api : DepotApi)
    (open_manifest : O → W → Outcome Text DepotManifestStore × W) (store : ChunkStore S) where
  abbrev Fs : Type 0
  Fs = MountTree O × W × S

  abbrev pub Handled : Type 0 → Type 0
  Handled A = Result A × MountTree O × W × S

  unfoldable pub snapshot_of : MountTree O × W × S → ℕ → Handled SnapshotEntry
  snapshot_of (t, w, s) sid = elim (slot_lookup t sid) [
    | is_ready entry ↦ (ok entry, t, w, s)
    | is_pending l ↦ let (r, t', w') = resolve open_manifest t l sid w in (io_error r, t', w', s)
    | missing ↦ (err noent, t, w, s)
  ]

  -- `snapshot_of(sid).await?`, then `f`, which changes nothing.
  abbrev with_snapshot :
      {A : Type 0} → Handled SnapshotEntry → (SnapshotEntry → Result A) → Handled A
  with_snapshot (r, t, w, s) f = (r >>= f, t, w, s)

  unfoldable pub node : MountTree O × W × S → ℕ → Handled Node
  unfolding snapshot_of
  node (t, w, s) id =
      let (sid, idx) = unpack id in
      if sid == Inode.synthetic
      then (or_noent (synthetic_node t id), t, w, s)
      else if idx == 0
      then elim (slot t sid) as (λ _. Handled Node) [
        | none ↦ (err noent, t, w, s)
        | some sl ↦ (ok (dir_node id (slot_mtime t sid)), t, w, s)
      ]
      else with_snapshot (snapshot_of (t, w, s) sid)
          (λ entry. or_noent (snapshot_node api entry id))

  abbrev ino_of : Node → ℕ
  ino_of n = n.ino

  unfoldable pub lookup_inner : MountTree O × W × S → ℕ → Bytes → Handled ℕ
  unfolding snapshot_of is_utf8
  lookup_inner (t, w, s) dirid filename =
      let (sid, _) = unpack dirid in
      if is_utf8 filename
      then (if sid == Inode.synthetic
          then (or_noent (synthetic_child t dirid filename) >>= (λ n. ok (ino_of n)), t, w, s)
          else with_snapshot (snapshot_of (t, w, s) sid) (λ entry.
            or_noent (snapshot_child api entry dirid filename) >>= (λ n. ok (ino_of n))))
      else (err noent, t, w, s)

  -- A file's bytes from `offset` on, and whether they reach its end.
  unfoldable pub read_file_at : SnapshotEntry → DepotFile → ℕ → ℕ → S → Result (Bytes × Bool) × S
  read_file_at entry f offset count s =
      if leb f.size offset
      then (ok ([], true), s)
      else let len = min count (f.size - offset) in
        let (r, s') = read_into store api entry.snapshot f.path offset len [] s in
        (io_error r >>= (λ buf. ok (buf, leb f.size (offset + length buf))), s')

  abbrev file_of : ℕ → SnapshotEntry → Result (SnapshotEntry × DepotFile)
  file_of idx entry = or_noent (nth_file entry idx) >>= λ f. ok (entry, f)

  unfoldable pub read_inner : MountTree O × W × S → ℕ → ℕ → ℕ → Handled (Bytes × Bool)
  unfolding snapshot_of read_file_at
  read_inner (t, w, s) id offset count =
      let (sid, idx) = unpack id in
      if sid == Inode.synthetic
      then (err isdir, t, w, s)
      else if idx == 0
      then (err isdir, t, w, s)
      else let (found, t', w', s') = snapshot_of (t, w, s) sid in
        elim (found >>= file_of idx) as (λ _. Handled (Bytes × Bool)) [
          | ok (entry, f) ↦ let (r, s'') = read_file_at entry f offset count s' in (r, t', w', s'')
          | err e ↦ (err e, t', w', s')
          | panicked ↦ (panicked, t', w', s')
        ]

  unfoldable pub readdir_inner : MountTree O × W × S → ℕ → ℕ → ℕ → Handled ReadDirResult
  unfolding snapshot_of page_of
  readdir_inner (t, w, s) dirid start_after max_entries =
      let (sid, _) = unpack dirid in
      if sid == Inode.synthetic
      then (
        or_noent (synthetic_dir t dirid) >>= (λ l. ok (page_of l start_after max_entries)),
        t,
        w,
        s,
      )
      else with_snapshot (snapshot_of (t, w, s) sid) (λ entry.
        dir_or_noent (snapshot_dir api entry dirid) >>= λ l. ok (page_of l start_after max_entries))

  abbrev target_of : NodeKind → Result Text
  target_of (NodeKind.symlink target) = ok target
  target_of NodeKind.dir = err inval
  target_of (NodeKind.file executable) = err inval

  abbrev catching : {A : Type 0} → Handled A → Handled A
  catching (r, t, w, s) = (caught r, t, w, s)

  unfoldable pub lookup : MountTree O × W × S → ℕ → Bytes → Handled ℕ
  unfolding lookup_inner
  lookup fs dirid filename = catching (lookup_inner fs dirid filename)

  unfoldable pub getattr : MountTree O × W × S → ℕ → Handled Fattr
  unfolding node
  getattr fs id = let (r, t, w, s) = node fs id in (caught (r >>= λ n. ok (attr_of n)), t, w, s)

  unfoldable pub read : MountTree O × W × S → ℕ → ℕ → ℕ → Handled (Bytes × Bool)
  unfolding read_inner
  read fs id offset count = catching (read_inner fs id offset count)

  unfoldable pub readdir : MountTree O × W × S → ℕ → ℕ → ℕ → Handled ReadDirResult
  unfolding readdir_inner
  readdir fs dirid start_after max_entries =
      catching (readdir_inner fs dirid start_after max_entries)

  unfoldable pub readlink : MountTree O × W × S → ℕ → Handled Text
  unfolding node
  readlink fs id = let (r, t, w, s) = node fs id in (caught (r >>= λ n. target_of n.kind), t, w, s)

-- The methods that would write: `setattr`, `write`, `create`, `create_exclusive`, `mkdir`, `remove`,
-- `rename`, `symlink`.
abbrev pub refused : {A : Type 0} → Result A
refused = err rofs
