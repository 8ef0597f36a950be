-- ===== src/Fs.antt =====
-- crates/steam-depot-vfs/src/fs.rs: the data of `DepotManifestStore`, its index and its lookups.
-- The chunk store is an argument of the reads, in Fs/Read.antt and Fs/Reader.antt.
pub mod Paths
pub mod Index
pub mod Listing
pub mod Missing
pub mod Read
pub mod Reader
pub mod Tests
use Paths.{strip_leading_slash, parent_of, file_name, find_slash}
use mathlib.Core.Option
use steam_depot_vfs.Prelude.{
  ℕ, zero, suc, ◌+◌, Bool, true, false, ◌||◌, List, [], ◌∷◌, ◌++◌, Option, none, some,
  if◌then◌else◌, ◌==◌, list_eq, nat_eq, length, take,
}
use steam_depot_vfs.Prelude.Maps.{HashMap, lookup, insert, contains_key}
use steam_depot_vfs.Depot.{Text, ChunkHash, DepotFile, Manifest, FileType, DepotApi}
use steam_depot_vfs.Outcome.{Outcome, ok, err, ◌>>=◌, index, ok_or}
use steam_depot_vfs.ChunkStore.{VfsError}

-- `std::io::Error` with the parts of its message.
pub data IoError : Type 0 where
  not_found : (requested : Text) (missing : Option Text) → IoError
  not_regular : (path : Text) → IoError
  past_end : (size offset : ℕ) → IoError
  short_chunk : (sha : ChunkHash) (path : Text) (got promised : ℕ) → IoError
  no_chunk_covers : (offset : ℕ) (path : Text) → IoError
  before_start : IoError
  store_failed : VfsError → IoError

abbrev pub Result {ℓ} : Type ℓ → Type ℓ
Result = Outcome IoError

pub record FileMeta : Type 0 where
  pub size : ℕ
  pub kind : FileType
  pub linktarget : Option Text

pub record Entry : Type 0 where
  pub name : Text
  pub meta : FileMeta

pub record DepotManifestStore : Type 0 where
  pub manifest : Manifest
  -- path to its place in `manifest.files`
  pub by_path : HashMap Text ℕ
  -- directory to the places of its direct children
  pub children : HashMap Text (List ℕ)

-- `children.entry(parent).or_default().push(i)`
abbrev pub push_child : Text → ℕ → HashMap Text (List ℕ) → HashMap Text (List ℕ)
push_child parent i m = insert parent (Option.get_or (lookup parent m) [] ++ i ∷ []) m

abbrev pub parent_key : Text → Text
parent_key path = Option.get_or (parent_of path) []

-- The loop of `new`, from place `i` on.
unfoldable pub index_files :
    ℕ
    → List DepotFile
    → HashMap Text ℕ × HashMap Text (List ℕ)
    → HashMap Text ℕ × HashMap Text (List ℕ)
index_files i [] maps = maps
index_files i (f ∷ fs) (by_path, children) =
    index_files (suc i) fs (insert f.path i by_path, push_child (parent_key f.path) i children)

unfoldable pub new : Manifest → DepotManifestStore
unfolding index_files
new m =
    let (by_path, children) = index_files 0 m.files ([], []) in
    record { manifest = m; by_path = by_path; children = children }

unfoldable pub index_of : DepotManifestStore → Text → Option ℕ
index_of st path = lookup (strip_leading_slash path) st.by_path

abbrev pub is_present : DepotManifestStore → Text → Bool
is_present st prefix = contains_key prefix st.by_path || contains_key prefix st.children

-- The loop of `first_missing_component`: `end` is where the next component begins. Each round
-- moves it forward, so the path's length and one more is fuel enough.
unfoldable pub missing_from : ℕ → DepotManifestStore → Text → ℕ → Option Text
missing_from zero st path end = none
missing_from (suc fuel) st path end =
    let next = Option.get_or (find_slash path end) (length path) in
    let prefix = take next path in
    let rest = missing_from fuel st path (next + 1) in
    if is_present st prefix then (if next == length path then none else rest) else some prefix

unfoldable pub first_missing_component : DepotManifestStore → Text → Option Text
unfolding missing_from
first_missing_component st [] = none
first_missing_component st (c ∷ cs) = missing_from (suc (length (c ∷ cs))) st (c ∷ cs) 0

abbrev pub not_found_error : DepotManifestStore → Text → Text → IoError
not_found_error st requested stripped = not_found requested (first_missing_component st stripped)

abbrev pub is_root : Text → Bool
is_root path = path == [] || path == b'/' ∷ []

module _ (api : DepotApi) where
  abbrev pub meta_of : DepotFile → FileMeta
  meta_of f = record { size = f.size; kind = api.file_type f; linktarget = api.linktarget f }

  unfoldable pub metadata : DepotManifestStore → Text → Result FileMeta
  metadata st path =
      if is_root path
      then ok (record { size = 0; kind = FileType.directory; linktarget = none })
      else do
        let stripped = strip_leading_slash path
        idx ← ok_or (not_found_error st path stripped) (lookup stripped st.by_path)
        f ← index st.manifest.files idx
        ok (meta_of f)

  abbrev pub entry_of : DepotFile → Entry
  entry_of f = record { name = Option.get_or (file_name f.path) f.path; meta = meta_of f }

  -- The loop of `list_dir` over the places of the children.
  unfoldable pub entries_at : List DepotFile → List ℕ → Result (List Entry)
  entries_at files [] = ok []
  entries_at files (i ∷ is) = do
    f ← index files i
    rest ← entries_at files is
    ok (entry_of f ∷ rest)

  unfoldable pub list_dir : DepotManifestStore → Text → Result (List Entry)
  unfolding entries_at
  list_dir st path = do
    let key = if is_root path then [] else strip_leading_slash path
    idxs ← ok_or (not_found_error st path key) (lookup key st.children)
    entries_at st.manifest.files idxs
