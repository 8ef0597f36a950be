-- ===== src/View.antt =====
-- crates/steam-depot-mount/src/view.rs: what a node of the mount tree is, and what a directory of it has.
-- An opener is run by the parameter `open`, on the state `W` of the outside.
pub mod Children
pub mod Resolve
mod Tests
use mathlib.Core.Option
use steam_depot_vfs.Prelude.{
  ℕ, zero, suc, ◌+◌, ◌-◌, Bool, true, false, ◌&&◌, ◌||◌, List, [], ◌∷◌, ◌++◌, map, Option, some,
  none, if◌then◌else◌, ltb, length, get_elem?, set, ◌==◌, nat_eq, list_eq,
}
use steam_depot_vfs.Prelude.Maps.{HashMap, lookup}
use steam_depot_vfs.Depot.{Text, DepotFile, FileType, DepotApi}
use steam_depot_vfs.Outcome.{Outcome, ok, err, panicked, ◌>>=◌}
use steam_depot_vfs.Inode.{pack, unpack}
use steam_depot_vfs.Inode
use steam_depot_vfs.Fs.{DepotManifestStore, Entry, index_of, list_dir}
use steam_depot_vfs.Tree.{
  SnapshotEntry, SyntheticDir, LazyEntry, SlotState, pending, ready, Slot, MountTree, slot,
  synthetic, promote,
}

pub data NodeKind : Type 0 where
  dir : NodeKind
  file : (executable : Bool) → NodeKind
  symlink : (target : Text) → NodeKind

pub record Node : Type 0 where
  pub ino : ℕ
  pub kind : NodeKind
  pub size : ℕ
  pub mtime_secs : ℕ

abbrev pub dir_node : ℕ → ℕ → Node
dir_node ino mtime_secs = record {
  ino = ino;
  kind = NodeKind.dir;
  size = 0;
  mtime_secs = mtime_secs;
}

-- The listing of a directory, by name.
abbrev pub Listing : Type 0
Listing = List (Text × Node)

pub data SlotLookup (O : Type 0) : Type 0 where
  is_ready : SnapshotEntry → SlotLookup O
  is_pending : LazyEntry O → SlotLookup O
  missing : SlotLookup O

-- `String::cmp` is that of the bytes.
unfoldable pub text_le : Text → Text → Bool
text_le [] b = true
text_le (x ∷ xs) [] = false
text_le (x ∷ xs) (y ∷ ys) = let rest = text_le xs ys in ltb x y || (x == y && rest)

unfoldable pub insert_by_name : Text × Node → Listing → Listing
insert_by_name e [] = e ∷ []
insert_by_name (n, d) ((m, c) ∷ l) =
    let rest = insert_by_name (n, d) l in if text_le n m then (n, d) ∷ (m, c) ∷ l else (m, c) ∷ rest

-- `sort_by(|a, b| a.0.cmp(&b.0))`, which is stable.
unfoldable pub sort_by_name : Listing → Listing
unfolding insert_by_name
sort_by_name [] = []
sort_by_name (e ∷ l) = insert_by_name e (sort_by_name l)

unfoldable pub kind_of : FileType → Bool → Option Text → NodeKind
kind_of FileType.directory executable target = NodeKind.dir
kind_of FileType.symlink executable (some target) = NodeKind.symlink target
kind_of FileType.symlink executable none = NodeKind.file executable
kind_of FileType.file executable target = NodeKind.file executable

unfoldable pub join : Text → Text → Text
join [] name = name
join (c ∷ cs) name = (c ∷ cs) ++ b'/' ∷ name

-- The file of an index, which counts from one: zero is the snapshot's root.
abbrev pub nth_file : SnapshotEntry → ℕ → Option DepotFile
nth_file entry idx = get_elem? entry.snapshot.manifest.files (idx - 1)

unfoldable pub path_within_snapshot : SnapshotEntry → ℕ → Option Text
path_within_snapshot entry idx =
    if idx == 0 then some [] else Option.map (λ f. f.path) (nth_file entry idx)

module _ {O : Type 0} where
  unfoldable pub slot_lookup : MountTree O → ℕ → SlotLookup O
  slot_lookup t sid = elim (slot t sid) [
    | none ↦ missing
    | some s ↦ elim s.state [ ready entry ↦ is_ready entry | pending l ↦ is_pending l ]
  ]

  unfoldable pub slot_mtime : MountTree O → ℕ → ℕ
  slot_mtime t sid = elim (slot t sid) [ none ↦ 0 | some s ↦ Option.get_or s.creation_time 0 ]

  unfoldable pub synthetic_node : MountTree O → ℕ → Option Node
  synthetic_node t ino = elim (synthetic t ino) [ none ↦ none | some d ↦ some (dir_node ino 0) ]

  unfoldable pub node_below_synthetic : MountTree O → ℕ → Node
  unfolding slot_mtime
  node_below_synthetic t child =
      let (sid, _) = unpack child in
      dir_node child (if sid == Inode.synthetic then 0 else slot_mtime t sid)

  unfoldable pub synthetic_child : MountTree O → ℕ → Text → Option Node
  unfolding node_below_synthetic
  synthetic_child t parent name = elim (synthetic t parent) [
    | none ↦ none
    | some d ↦ Option.map (node_below_synthetic t) (lookup name d.children)
  ]

  abbrev pub below : MountTree O → Text × ℕ → Text × Node
  below t (name, child) = (name, node_below_synthetic t child)

  unfoldable pub synthetic_dir : MountTree O → ℕ → Option Listing
  unfolding sort_by_name
  synthetic_dir t ino = Option.map (λ d. sort_by_name (map (below t) d.children)) (synthetic t ino)

  -- The slot's cell, which the callers share, once the opener has returned.
  unfoldable pub fill_cell : MountTree O → ℕ → Outcome Text SnapshotEntry → MountTree O
  fill_cell t sid r = elim (slot t sid) [
    | none ↦ t
    | some s ↦ elim s.state [
      | ready e ↦ t
      | pending l ↦ record t {
        slots = set t.slots sid (some (record s { state = pending (record l { cell = some r }) }));
      }
    ]
  ]

  module _ {W : Type 0} (open_manifest : O → W → Outcome Text DepotManifestStore × W) where
    -- `get_or_init`: the opener runs only when the cell is empty; a panic leaves it empty.
    unfoldable pub get_or_init :
        MountTree O → LazyEntry O → ℕ → W → Outcome Text SnapshotEntry × MountTree O × W
    unfolding fill_cell
    get_or_init t l sid w = elim l.cell [
      | some r ↦ (r, t, w)
      | none ↦
          let (opened, w') = open_manifest l.opener w in
          elim opened [
            | ok st ↦
                let r : Outcome Text SnapshotEntry = ok (record { snapshot = st }) in
                (r, fill_cell t sid r, w')
            | err e ↦ (err e, fill_cell t sid (err e), w')
            | panicked ↦ (panicked, t, w')
          ]
    ]

    unfoldable pub resolve :
        MountTree O → LazyEntry O → ℕ → W → Outcome Text SnapshotEntry × MountTree O × W
    unfolding get_or_init
    resolve t l sid w =
        let (r, t', w') = get_or_init t l sid w in
        elim r [
          | ok entry ↦ (ok entry, promote t' sid entry, w')
          | err e ↦ (err e, t', w')
          | panicked ↦ (panicked, t', w')
        ]

module _ (api : DepotApi) where
  unfoldable pub snapshot_node : SnapshotEntry → ℕ → Option Node
  unfolding kind_of
  snapshot_node entry ino =
      let idx = (unpack ino).1 in
      let time = entry.snapshot.manifest.creation_time in
      if idx == 0
      then some (dir_node ino time)
      else Option.map
          (λ f. record {
            ino = ino;
            kind = kind_of (api.file_type f) (api.executable f) (api.linktarget f);
            size = f.size;
            mtime_secs = time;
          })
          (nth_file entry idx)

  unfoldable pub snapshot_child : SnapshotEntry → ℕ → Text → Option Node
  unfolding path_within_snapshot snapshot_node join
  snapshot_child entry parent name =
      let (sid, idx) = unpack parent in
      elim (path_within_snapshot entry idx) [
        | none ↦ none
        | some parent_path ↦ elim (index_of entry.snapshot (join parent_path name)) [
          | none ↦ none
          | some child_idx ↦ snapshot_node entry (pack sid (child_idx + 1))
        ]
      ]

  abbrev pub is_executable : SnapshotEntry → ℕ → Bool
  is_executable entry child_idx = elim (get_elem? entry.snapshot.manifest.files child_idx) [
    | none ↦ false
    | some f ↦ api.executable f
  ]

  -- The loop of `snapshot_dir`: an entry that the index does not know is left out.
  unfoldable pub nodes_of : SnapshotEntry → ℕ → Text → List Entry → Listing
  unfolding join kind_of
  nodes_of entry sid dir_path [] = []
  nodes_of entry sid dir_path (e ∷ es) =
      let rest = nodes_of entry sid dir_path es in
      elim (index_of entry.snapshot (join dir_path e.name)) [
        | none ↦ rest
        | some child_idx ↦
            (
              e.name,
              record {
                ino = pack sid (child_idx + 1);
                kind = kind_of e.meta.kind (is_executable entry child_idx) e.meta.linktarget;
                size = e.meta.size;
                mtime_secs = entry.snapshot.manifest.creation_time;
              },
            )
            ∷ rest
      ]

  -- The error stands for `None`.
  unfoldable pub snapshot_dir : SnapshotEntry → ℕ → Outcome (Unit {0}) Listing
  unfolding path_within_snapshot nodes_of sort_by_name
  snapshot_dir entry ino =
      let (sid, idx) = unpack ino in
      elim (path_within_snapshot entry idx) [
        | none ↦ err tt
        | some dir_path ↦ elim (list_dir api entry.snapshot dir_path) [
          | ok listed ↦ ok (sort_by_name (nodes_of entry sid dir_path listed))
          | err e ↦ err tt
          | panicked ↦ panicked
        ]
      ]
