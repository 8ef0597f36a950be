-- ===== src/Depot.antt =====
-- The manifest types of the crate `steam_vent_depot`, with the fields that
-- crates/steam-depot-vfs/src/manifest_cache.rs reads and rebuilds one by one, and the accessors of
-- `DepotFile`, which are methods of that crate and so a parameter of the model.
use steam_depot_vfs.Prelude.{ℕ, Bool, List, Option}

abbrev pub Bytes : Type 0
Bytes = List ℕ

-- A Rust `String` as its bytes.
abbrev pub Text : Type 0
Text = List ℕ

-- `ChunkHash` and `FileHash` wrap `[u8; 20]`.
abbrev pub ChunkHash : Type 0
ChunkHash = List ℕ

pub record Chunk : Type 0 where
  pub sha : ChunkHash
  pub crc : ℕ
  pub offset : ℕ
  pub size_uncompressed : ℕ
  pub size_compressed : ℕ

pub data DepotFileKind : Type 0 where
  regular : (sha : List ℕ) (executable : Bool) (chunks : List Chunk) → DepotFileKind
  directory : DepotFileKind
  symlink : (target : Text) → DepotFileKind

pub record DepotFile : Type 0 where
  pub path : Text
  pub size : ℕ
  pub kind : DepotFileKind

pub record Manifest : Type 0 where
  pub depot_id : ℕ
  pub manifest_id : ℕ
  pub creation_time : ℕ
  pub size_uncompressed : ℕ
  pub size_compressed : ℕ
  pub files : List DepotFile

pub data FileType : Type 0 where
  file directory symlink : FileType

-- `DepotFile::{file_type, is_file, executable, linktarget, chunks}`.
pub record DepotApi : Type 0 where
  pub file_type : DepotFile → FileType
  pub is_file : DepotFile → Bool
  pub executable : DepotFile → Bool
  pub linktarget : DepotFile → Option Text
  pub chunks : DepotFile → List Chunk
