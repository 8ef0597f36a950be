-- ===== src/Tree.antt =====
-- crates/steam-depot-mount/src/tree.rs: `MountTree`. An opener is opaque, of a type `O`; a `OnceCell` is
-- what it holds, if anything.
pub mod Slots
pub mod Changes
pub mod Ids
pub mod Paths
pub mod Shape
pub mod Growth
pub mod Depots
pub mod Ensuring
pub mod Entries
pub mod Matching
pub mod Valid
pub mod Removal
pub mod Abstract
pub mod Refines
pub mod Runs
mod Tests
use steam_depot_vfs.Prelude.{
  ℕ, zero, suc, ◌-◌, ◌^◌, Bool, true, false, List, [], ◌∷◌, ◌++◌, map, Option, some, none,
  if◌then◌else◌, ltb, length, get_elem?, set, ◌==◌, nat_eq, list_eq,
}
use steam_depot_vfs.Prelude.Maps.{HashMap, lookup, insert, contains_key}
use steam_depot_vfs.Prelude.Maps
use steam_depot_vfs.Prelude.Decimal.{to_string}
use steam_depot_vfs.Depot.{Text}
use steam_depot_vfs.Outcome.{Outcome, ok, err, panicked, ◌>>=◌, index}
use steam_depot_vfs.Fs.{DepotManifestStore}
use steam_depot_vfs.Inode.{pack, unpack}
use steam_depot_vfs.Inode

pub data AddError : Type 0 where
  already_mounted : (app_id depot_id manifest_gid : ℕ) → AddError
  too_many_snapshots : AddError

abbrev pub Result {ℓ} : Type ℓ → Type ℓ
Result = Outcome AddError

pub record SnapshotEntry : Type 0 where
  pub snapshot : DepotManifestStore

pub record SyntheticDir : Type 0 where
  pub parent : Option ℕ
  pub name : Text
  pub children : HashMap Text ℕ

-- The error of an opener that failed is kept as its text.
pub record LazyEntry (O : Type 0) : Type 0 where
  pub opener : O
  pub cell : Option (Outcome Text SnapshotEntry)

pub data SlotState (O : Type 0) : Type 0 where
  pending : LazyEntry O → SlotState O
  ready : SnapshotEntry → SlotState O

pub record Slot (O : Type 0) : Type 0 where
  pub app_id : ℕ
  pub depot_id : ℕ
  pub manifest_gid : ℕ
  pub state : SlotState O
  pub creation_time : Option ℕ

pub record MountTree (O : Type 0) : Type 0 where
  pub synthetic : List SyntheticDir
  pub synth_by_path : HashMap Text ℕ
  pub slots : List (Option (Slot O))

abbrev empty_dir : SyntheticDir
empty_dir = record { parent = none; name = []; children = [] }

-- `u16::MAX` and `u32::MAX`
abbrev pub max_snapshot_id : ℕ
max_snapshot_id = 2 ^ 16 - 1

abbrev pub max_u32 : ℕ
max_u32 = 2 ^ 32 - 1

abbrev pub join_path : Text → Text → Text
join_path parent_path name = if parent_path == [] then b'/' ∷ name else parent_path ++ b'/' ∷ name

abbrev pub expect {ℓ} : {A : Type ℓ} → Option A → Result A
expect none = panicked
expect (some a) = ok a

abbrev pub depot_path : ℕ → ℕ → Text
depot_path app_id depot_id = b'/' ∷ to_string app_id ++ b'/' ∷ to_string depot_id

abbrev key_of : Text × ℕ → Text
key_of (k, v) = k

module _ {O : Type 0} where
  abbrev pub new : MountTree O
  new = record { synthetic = empty_dir ∷ empty_dir ∷ []; synth_by_path = []; slots = none ∷ [] }

  unfoldable pub children_of : MountTree O → ℕ → Result (HashMap Text ℕ)
  children_of t ino = do dir ← index t.synthetic (unpack ino).1; ok dir.children

  -- `children_of_mut(ino)`, changed by `f`.
  unfoldable pub change_children :
      MountTree O → ℕ → (HashMap Text ℕ → HashMap Text ℕ) → Result (MountTree O)
  change_children t ino f = do
    dir ← index t.synthetic (unpack ino).1
    ok (record t {
      synthetic = set t.synthetic (unpack ino).1 (record dir { children = f dir.children });
    })

  -- A directory stands after its parent, so the number of directories is fuel enough.
  unfoldable pub path_upto : ℕ → MountTree O → ℕ → Result Text
  path_upto zero t ino = panicked
  path_upto (suc fuel) t ino = if ino == Inode.root then ok [] else do
    dir ← index t.synthetic (unpack ino).1
    parent ← expect dir.parent
    parent_path ← path_upto fuel t parent
    ok (join_path parent_path dir.name)

  unfoldable pub path_of_synthetic : MountTree O → ℕ → Result Text
  unfolding path_upto
  path_of_synthetic t ino = path_upto (length t.synthetic) t ino

  -- A new directory `name` in `parent`, which does not have it.
  unfoldable pub add_synthetic : MountTree O → ℕ → Text → Result (ℕ × MountTree O)
  unfolding path_of_synthetic change_children
  add_synthetic t parent name = do
    let ino = pack Inode.synthetic (length t.synthetic)
    parent_path ← path_of_synthetic t parent
    let dir : SyntheticDir = record { parent = some parent; name = name; children = [] }
    t' ←
        change_children
          (record t {
            synthetic = t.synthetic ++ dir ∷ [];
            synth_by_path = insert (join_path parent_path name) ino t.synth_by_path;
          })
          parent (insert name ino)
    ok (ino, t')

  unfoldable pub ensure_synthetic : MountTree O → ℕ → Text → Result (ℕ × MountTree O)
  unfolding children_of add_synthetic
  ensure_synthetic t parent name = do
    children ← children_of t parent
    elim (lookup name children) [
      | some existing ↦ ok (existing, t)
      | none ↦ add_synthetic t parent name
    ]

  -- The two directories of a depot.
  unfoldable pub ensure_depot : MountTree O → ℕ → ℕ → Result (ℕ × MountTree O)
  unfolding ensure_synthetic
  ensure_depot t app_id depot_id = do
    (app_dir, t1) ← ensure_synthetic t Inode.root (to_string app_id)
    ensure_synthetic t1 app_dir (to_string depot_id)

  abbrev pub time_of : SlotState O → Option ℕ → Option ℕ
  time_of (ready entry) hint = some entry.snapshot.manifest.creation_time
  time_of (pending l) hint = hint

  -- The end of `reserve_slot`: the slot and its name in the depot's directory.
  unfoldable pub fill_slot :
      MountTree O
      → ℕ
      → (app_id depot_id manifest_gid : ℕ) → SlotState O
      → Option ℕ
      → Result ℕ × MountTree O
  unfolding change_children
  fill_slot t depot_dir app_id depot_id manifest_gid state hint =
      let id = length t.slots in
      let s : Slot O = record {
        app_id = app_id;
        depot_id = depot_id;
        manifest_gid = manifest_gid;
        state = state;
        creation_time = time_of state hint;
      } in
      let t1 = record t { slots = t.slots ++ some s ∷ [] } in
      elim (change_children t1 depot_dir (insert (to_string manifest_gid) (pack id 0))) [
        | ok t2 ↦ (ok id, t2)
        | err e ↦ (err e, t1)
        | panicked ↦ (panicked, t1)
      ]

  -- An error leaves the directories that were made for it.
  unfoldable pub reserve_slot :
      MountTree O
      → (app_id depot_id manifest_gid : ℕ) → SlotState O
      → Option ℕ
      → Result ℕ × MountTree O
  unfolding ensure_depot children_of fill_slot
  reserve_slot t app_id depot_id manifest_gid state hint = elim (ensure_depot t app_id depot_id) [
    | err e ↦ (err e, t)
    | panicked ↦ (panicked, t)
    | ok (depot_dir, t2) ↦ elim (children_of t2 depot_dir) [
      | err e ↦ (err e, t2)
      | panicked ↦ (panicked, t2)
      | ok children ↦
          if contains_key (to_string manifest_gid) children
          then (err (already_mounted app_id depot_id manifest_gid), t2)
          else if ltb max_u32 (length t2.slots)
          then (panicked, t2)
          else if ltb max_snapshot_id (length t2.slots)
          then (err too_many_snapshots, t2)
          else fill_slot t2 depot_dir app_id depot_id manifest_gid state hint
    ]
  ]

  unfoldable pub add :
      MountTree O → (app_id depot_id manifest_gid : ℕ) → DepotManifestStore → Result ℕ × MountTree O
  unfolding reserve_slot
  add t app_id depot_id manifest_gid snapshot =
      reserve_slot t app_id depot_id manifest_gid (ready (record { snapshot = snapshot })) none

  unfoldable pub add_lazy :
      MountTree O → (app_id depot_id manifest_gid : ℕ) → O → Option ℕ → Result ℕ × MountTree O
  unfolding reserve_slot
  add_lazy t app_id depot_id manifest_gid opener creation_time =
      reserve_slot t app_id depot_id manifest_gid
        (pending (record { opener = opener; cell = none })) creation_time

  -- `slots.get(id)`, where a slot is.
  unfoldable pub slot : MountTree O → ℕ → Option (Slot O)
  slot t id = elim (get_elem? t.slots id) [ none ↦ none | some s ↦ s ]

  unfoldable pub detach : MountTree O → Slot O → Result (MountTree O)
  unfolding change_children
  detach t entry = elim (lookup (depot_path entry.app_id entry.depot_id) t.synth_by_path) [
    | none ↦ ok t
    | some depot_ino ↦ change_children t depot_ino (Maps.remove (to_string entry.manifest_gid))
  ]

  unfoldable pub remove : MountTree O → ℕ → Result (Option (Slot O)) × MountTree O
  unfolding slot detach
  remove t id = elim (slot t id) [
    | none ↦ (ok none, t)
    | some entry ↦
        let t1 = record t { slots = set t.slots id none } in
        elim (detach t1 entry) [
          | ok t2 ↦ (ok (some entry), t2)
          | err e ↦ (err e, t1)
          | panicked ↦ (panicked, t1)
        ]
  ]

  unfoldable pub find : MountTree O → ℕ → ℕ → ℕ → Result (Option ℕ)
  unfolding children_of
  find t app_id depot_id manifest_gid = elim (lookup (depot_path app_id depot_id) t.synth_by_path) [
    | none ↦ ok none
    | some depot_ino ↦ do
      children ← children_of t depot_ino
      elim (lookup (to_string manifest_gid) children) [
        | none ↦ ok none
        | some gid_ino ↦ ok (some (unpack gid_ino).0)
      ]
  ]

  unfoldable pub synthetic_children_at : MountTree O → Text → Result (Option (List Text))
  unfolding children_of
  synthetic_children_at t [] = do
    children ← children_of t Inode.root
    ok (some (map key_of children))
  synthetic_children_at t (c ∷ cs) = elim (lookup (c ∷ cs) t.synth_by_path) [
    | none ↦ ok none
    | some ino ↦ do children ← children_of t ino; ok (some (map key_of children))
  ]

  unfoldable pub synthetic : MountTree O → ℕ → Option SyntheticDir
  synthetic t ino =
      let (sid, idx) = unpack ino in
      if sid == Inode.synthetic then get_elem? t.synthetic idx else none

  unfoldable pub promote : MountTree O → ℕ → SnapshotEntry → MountTree O
  unfolding slot
  promote t id entry = elim (slot t id) [
    | none ↦ t
    | some s ↦ elim s.state [
      | ready e ↦ t
      | pending l ↦ record t {
        slots = set t.slots id (
            some (record s {
              state = ready entry;
              creation_time = some entry.snapshot.manifest.creation_time;
            }));
      }
    ]
  ]
