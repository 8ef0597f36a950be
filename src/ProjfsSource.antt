-- ===== src/ProjfsSource.antt =====
-- crates/steam-depot-mount/src/projfs.rs: `ProjFsSource`, a `projfs::Filesystem` over the mount tree. Its
-- state is that tree, that of the outside, which the openers act on, and that of the chunk store.
pub mod Reads
mod Tests
use steam_depot_vfs.Prelude.{
  ℕ, zero, suc, ◌+◌, ◌-◌, ◌^◌, min, Bool, true, false, ◌||◌, List, [], ◌∷◌, ◌++◌, map, Option, some,
  none, if◌then◌else◌, leb, ltb, length, drop, ◌==◌, nat_eq, list_eq,
}
use steam_depot_vfs.Prelude.Decimal.{parse_uint}
use steam_depot_vfs.Depot.{Bytes, Text, FileType, DepotApi}
use steam_depot_vfs.Outcome.{Outcome, ok, err, panicked}
use steam_depot_vfs.ChunkStore.{ChunkStore}
use steam_depot_vfs.Fs.{DepotManifestStore, IoError, FileMeta, Entry, metadata, list_dir}
use steam_depot_vfs.Fs.Read.{is_file_type}
use steam_depot_vfs.Fs.Read
use steam_depot_vfs.Tree.{SnapshotEntry, MountTree, max_u32, find, synthetic_children_at}
use steam_depot_vfs.View.{is_ready, is_pending, missing, slot_lookup}
use steam_depot_vfs.View
use steam_depot_vfs.Projfs.{Metadata, DirEntry, Filesystem, unix_to_filetime}

pub data ReadError : Type 0 where
  not_a_depot_path : ReadError
  snapshot_not_found : ReadError
  from_io : IoError → ReadError

-- The parts between separators; a Windows path has two.
unfoldable pub split_separators : Text → List Text
split_separators [] = [] ∷ []
split_separators (c ∷ cs) = elim (split_separators cs) [
  | [] ↦ (c ∷ []) ∷ []
  | part ∷ parts ↦ if c == b'/' || c == 0x5C then [] ∷ part ∷ parts else (c ∷ part) ∷ parts
]

-- `Component::Normal`: neither empty nor a dot or two.
abbrev pub is_normal : Text → Bool
is_normal part =
    if part == [] || (part == b'.' ∷ [] || part == b'.' ∷ b'.' ∷ []) then false else true

unfoldable pub normal_parts : List Text → List Text
normal_parts [] = []
normal_parts (part ∷ parts) =
    let rest = normal_parts parts in if is_normal part then part ∷ rest else rest

-- For the relative paths that ProjFS hands out, which have no drive.
unfoldable pub components : Text → List Text
unfolding split_separators normal_parts
components path = normal_parts (split_separators path)

abbrev pub u64_max : ℕ
u64_max = 2 ^ 64 - 1

abbrev pub triple_of : Option ℕ → Option ℕ → Option ℕ → Option (ℕ × ℕ × ℕ)
triple_of (some app) (some depot) (some gid) = some (app, depot, gid)
triple_of _ _ _ = none

unfoldable pub parse_triple : List Text → Option (ℕ × ℕ × ℕ)
unfolding parse_uint
parse_triple (app ∷ depot ∷ gid ∷ rest) =
    triple_of (parse_uint max_u32 app) (parse_uint max_u32 depot) (parse_uint u64_max gid)
parse_triple _ = none

-- `[String]::join("/")`
unfoldable pub join_components : List Text → Text
join_components [] = []
join_components (p ∷ []) = p
join_components (p ∷ q ∷ rest) = p ++ b'/' ∷ join_components (q ∷ rest)

unfoldable pub synthetic_prefix : List Text → Text
unfolding join_components
synthetic_prefix [] = []
synthetic_prefix (p ∷ ps) = b'/' ∷ join_components (p ∷ ps)

abbrev pub dir_meta : Metadata
dir_meta = record { is_dir = true; size = 0; creation_time = 0; last_write_time = 0 }

abbrev is_directory_type : FileType → Bool
is_directory_type FileType.directory = true
is_directory_type _ = false

unfoldable pub file_meta : FileMeta → ℕ → Metadata
unfolding unix_to_filetime
file_meta m creation_unix =
    let ft = unix_to_filetime creation_unix in
    record {
      is_dir = is_directory_type m.kind;
      size = m.size;
      creation_time = ft;
      last_write_time = ft;
    }

-- `none` is a panic.
abbrev pub or_panic {ℓ κ} : {E : Type ℓ} {A : Type κ} → Outcome E A → Option A
or_panic (ok a) = some a
or_panic (err e) = none
or_panic panicked = none

module _ {O W S : Type 0} (api : DepotApi)
    (open_manifest : O → W → Outcome Text DepotManifestStore × W) (store : ChunkStore S) where
  abbrev pub State : Type 0
  State = MountTree O × W × S

  -- An opener that fails gives `None`.
  abbrev pub entry_of :
      Outcome Text SnapshotEntry × MountTree O × W
      → S
      → Option (Option SnapshotEntry) × MountTree O × W × S
  entry_of (ok entry, t, w) s = (some (some entry), t, w, s)
  entry_of (err e, t, w) s = (some none, t, w, s)
  entry_of (panicked, t, w) s = (none, t, w, s)

  unfoldable pub resolve_slot :
      ℕ → MountTree O × W × S → Option (Option SnapshotEntry) × MountTree O × W × S
  resolve_slot sid (t, w, s) = elim (slot_lookup t sid) [
    | is_ready entry ↦ (some (some entry), t, w, s)
    | is_pending l ↦ entry_of (View.resolve open_manifest t l sid w) s
    | missing ↦ (some none, t, w, s)
  ]

  unfoldable pub resolve :
      ℕ × ℕ × ℕ → MountTree O × W × S → Option (Option SnapshotEntry) × MountTree O × W × S
  unfolding resolve_slot
  resolve (app, depot, gid) (t, w, s) = elim (or_panic (find t app depot gid)) [
    | none ↦ (none, t, w, s)
    | some none ↦ (some none, t, w, s)
    | some (some sid) ↦ resolve_slot sid (t, w, s)
  ]

  abbrev pub named_dir : Text → DirEntry
  named_dir name = record { name = name; metadata = dir_meta }

  abbrev pub synthetic_entries : Option (List Text) → List DirEntry
  synthetic_entries none = []
  synthetic_entries (some names) = map named_dir names

  abbrev pub snapshot_entry : ℕ → Entry → DirEntry
  snapshot_entry creation e = record { name = e.name; metadata = file_meta e.meta creation }

  -- The part of `list_directory` inside a snapshot. A panic of `list_dir` is one of the handler.
  unfoldable pub list_snapshot : Text → SnapshotEntry → Option (List DirEntry)
  unfolding file_meta
  list_snapshot rest entry = elim (list_dir api entry.snapshot rest) [
    | ok entries ↦ some (map (snapshot_entry entry.snapshot.manifest.creation_time) entries)
    | err e ↦ some []
    | panicked ↦ none
  ]

  abbrev pub then_list :
      Text
      → Option (Option SnapshotEntry) × MountTree O × W × S
      → Option (List DirEntry) × MountTree O × W × S
  then_list rest (none, t, w, s) = (none, t, w, s)
  then_list rest (some none, t, w, s) = (some [], t, w, s)
  then_list rest (some (some entry), t, w, s) = (list_snapshot rest entry, t, w, s)

  abbrev pub map_some {ℓ κ} : {A : Type ℓ} {B : Type κ} → (A → B) → Option A → Option B
  map_some f none = none
  map_some f (some a) = some (f a)

  unfoldable pub list_components :
      List Text → MountTree O × W × S → Option (List DirEntry) × MountTree O × W × S
  unfolding synthetic_prefix parse_triple resolve list_snapshot
  list_components comps (t, w, s) =
      if ltb (length comps) 3
      then (
        map_some synthetic_entries (or_panic (synthetic_children_at t (synthetic_prefix comps))),
        t,
        w,
        s,
      )
      else elim (parse_triple comps) as (λ _. Option (List DirEntry) × MountTree O × W × S) [
        | none ↦ (some [], t, w, s)
        | some triple ↦ then_list (join_components (drop 3 comps)) (resolve triple (t, w, s))
      ]

  unfoldable pub list_directory :
      Text → MountTree O × W × S → Option (List DirEntry) × MountTree O × W × S
  unfolding components list_components
  list_directory path st = list_components (components path) st

  abbrev found_dir : {A : Type 0} → Option A → Option Metadata
  found_dir none = none
  found_dir (some a) = some dir_meta

  unfoldable pub snapshot_metadata : Text → SnapshotEntry → Option (Option Metadata)
  unfolding file_meta
  snapshot_metadata rest entry = elim (metadata api entry.snapshot rest) [
    | ok meta ↦ some (some (file_meta meta entry.snapshot.manifest.creation_time))
    | err e ↦ some none
    | panicked ↦ none
  ]

  abbrev pub then_metadata :
      Text
      → Option (Option SnapshotEntry) × MountTree O × W × S
      → Option (Option Metadata) × MountTree O × W × S
  then_metadata rest (none, t, w, s) = (none, t, w, s)
  then_metadata rest (some none, t, w, s) = (some none, t, w, s)
  then_metadata rest (some (some entry), t, w, s) = (snapshot_metadata rest entry, t, w, s)

  -- By the number of components: none, one or two, three, more.
  unfoldable pub metadata_of :
      List Text → MountTree O × W × S → Option (Option Metadata) × MountTree O × W × S
  unfolding synthetic_prefix parse_triple resolve snapshot_metadata
  metadata_of [] (t, w, s) = (some (some dir_meta), t, w, s)
  metadata_of (p ∷ ps) (t, w, s) =
      if ltb (length (p ∷ ps)) 3
      then (
        map_some found_dir (or_panic (synthetic_children_at t (synthetic_prefix (p ∷ ps)))),
        t,
        w,
        s,
      )
      else elim (parse_triple (p ∷ ps)) as (λ _. Option (Option Metadata) × MountTree O × W × S) [
        | none ↦ (some none, t, w, s)
        | some (app, depot, gid) ↦
            if length (p ∷ ps) == 3
            then (map_some found_dir (or_panic (find t app depot gid)), t, w, s)
            else then_metadata (join_components (drop 3 (p ∷ ps)))
                (resolve (app, depot, gid) (t, w, s))
      ]

  unfoldable pub get_metadata :
      Text → MountTree O × W × S → Option (Option Metadata) × MountTree O × W × S
  unfolding components metadata_of
  get_metadata path st = metadata_of (components path) st

  abbrev from_fs : {A : Type 0} → Outcome IoError A → Outcome ReadError A
  from_fs (ok a) = ok a
  from_fs (err e) = err (from_io e)
  from_fs panicked = panicked

  -- The part of `read_file` from `metadata` on.
  unfoldable pub read_snapshot :
      Text → (offset length : ℕ) → SnapshotEntry → S → Outcome ReadError Bytes × S
  read_snapshot rest offset length entry s =
      elim (metadata api entry.snapshot rest) as (λ _. Outcome ReadError Bytes × S) [
        | err e ↦ (err (from_io e), s)
        | panicked ↦ (panicked, s)
        | ok meta ↦
            if is_file_type meta.kind
            then (if leb meta.size offset
                then (ok [], s)
                else let (r, s') =
                    Read.read store api entry.snapshot rest offset (min length (meta.size - offset))
                      s in
                  (from_fs r, s'))
            else (ok [], s)
      ]

  abbrev pub then_read :
      Text
      → (offset length : ℕ) → Option (Option SnapshotEntry) × MountTree O × W × S
      → Outcome ReadError Bytes × MountTree O × W × S
  then_read rest offset length (none, t, w, s) = (panicked, t, w, s)
  then_read rest offset length (some none, t, w, s) = (err snapshot_not_found, t, w, s)
  then_read rest offset length (some (some entry), t, w, s) =
      let (r, s') = read_snapshot rest offset length entry s in (r, t, w, s')

  unfoldable pub read_components :
      List Text
      → (offset length : ℕ) → MountTree O × W × S
      → Outcome ReadError Bytes × MountTree O × W × S
  unfolding parse_triple resolve read_snapshot
  read_components comps offset len (t, w, s) =
      if ltb (length comps) 4
      then (ok [], t, w, s)
      else elim (parse_triple comps) as (λ _. Outcome ReadError Bytes × MountTree O × W × S) [
        | none ↦ (err not_a_depot_path, t, w, s)
        | some triple ↦
            then_read (join_components (drop 3 comps)) offset len (resolve triple (t, w, s))
      ]

  unfoldable pub read_file :
      Text
      → (offset length : ℕ) → MountTree O × W × S
      → Outcome ReadError Bytes × MountTree O × W × S
  unfolding components read_components
  read_file path offset len st = read_components (components path) offset len st

  abbrev grouped : {A : Type 0} → A × MountTree O × W × S → A × (MountTree O × W × S)
  grouped (a, t, w, s) = (a, (t, w, s))

  abbrev pub source : Filesystem ReadError (MountTree O × W × S)
  source = record {
    list_directory = λ path st. grouped (list_directory path st);
    get_metadata = λ path st. grouped (get_metadata path st);
    read_file = λ path offset len st. grouped (read_file path offset len st);
  }
