-- ===== src/ManifestCache/Cached.antt =====
-- The mirror types of crates/steam-depot-vfs/src/manifest_cache.rs and the conversions of a manifest.
use steam_depot_vfs.Prelude.{ℕ, ◌≡◌, refl, ap, Bool, List, [], ◌∷◌, map}
use steam_depot_vfs.Depot.{
  Text, Chunk, DepotFile, DepotFileKind, regular, directory, symlink, Manifest,
}

pub record CachedChunk : Type 0 where
  pub sha : List ℕ
  pub crc : ℕ
  pub offset : ℕ
  pub size_uncompressed : ℕ
  pub size_compressed : ℕ

pub data CachedFileKind : Type 0 where
  cached_regular : (sha : List ℕ) (executable : Bool) (chunks : List CachedChunk) → CachedFileKind
  cached_directory : CachedFileKind
  cached_symlink : (target : Text) → CachedFileKind

pub record CachedFile : Type 0 where
  pub path : Text
  pub size : ℕ
  pub kind : CachedFileKind

pub record CachedManifest : Type 0 where
  pub depot_id : ℕ
  pub manifest_id : ℕ
  pub creation_time : ℕ
  pub size_uncompressed : ℕ
  pub size_compressed : ℕ
  pub files : List CachedFile

abbrev pub to_cached_chunk : Chunk → CachedChunk
to_cached_chunk c = record {
  sha = c.sha;
  crc = c.crc;
  offset = c.offset;
  size_uncompressed = c.size_uncompressed;
  size_compressed = c.size_compressed;
}

abbrev pub from_cached_chunk : CachedChunk → Chunk
from_cached_chunk c = record {
  sha = c.sha;
  crc = c.crc;
  offset = c.offset;
  size_uncompressed = c.size_uncompressed;
  size_compressed = c.size_compressed;
}

abbrev pub to_cached_kind : DepotFileKind → CachedFileKind
to_cached_kind (regular sha executable chunks) =
    cached_regular sha executable (map to_cached_chunk chunks)
to_cached_kind directory = cached_directory
to_cached_kind (symlink target) = cached_symlink target

abbrev pub from_cached_kind : CachedFileKind → DepotFileKind
from_cached_kind (cached_regular sha executable chunks) =
    regular sha executable (map from_cached_chunk chunks)
from_cached_kind cached_directory = directory
from_cached_kind (cached_symlink target) = symlink target

abbrev pub to_cached_file : DepotFile → CachedFile
to_cached_file f = record { path = f.path; size = f.size; kind = to_cached_kind f.kind }

abbrev pub from_cached_file : CachedFile → DepotFile
from_cached_file f = record { path = f.path; size = f.size; kind = from_cached_kind f.kind }

unfoldable pub to_cached : Manifest → CachedManifest
to_cached m = record {
  depot_id = m.depot_id;
  manifest_id = m.manifest_id;
  creation_time = m.creation_time;
  size_uncompressed = m.size_uncompressed;
  size_compressed = m.size_compressed;
  files = map to_cached_file m.files;
}

unfoldable pub from_cached : CachedManifest → Manifest
from_cached c = record {
  depot_id = c.depot_id;
  manifest_id = c.manifest_id;
  creation_time = c.creation_time;
  size_uncompressed = c.size_uncompressed;
  size_compressed = c.size_compressed;
  files = map from_cached_file c.files;
}

back_and_forth :
    {A B : Type 0} (f : A → B) (g : B → A)
    → ((a : A) → g (f a) ≡ a)
    → (l : List A) → map g (map f l) ≡ l
back_and_forth f g h [] = refl
back_and_forth f g h (a ∷ l) = λ i. h a i ∷ back_and_forth f g h l i

kind_back : (k : DepotFileKind) → from_cached_kind (to_cached_kind k) ≡ k
kind_back (regular sha executable chunks) =
    ap (regular sha executable)
      (back_and_forth to_cached_chunk from_cached_chunk (λ c. refl) chunks)
kind_back directory = refl
kind_back (symlink target) = refl

file_back : (f : DepotFile) → from_cached_file (to_cached_file f) ≡ f
file_back f = λ i. record { path = f.path; size = f.size; kind = kind_back f.kind i }

-- The cached form of a manifest loses nothing: converted back it is the same manifest.
pub from_cached-to_cached : (m : Manifest) → from_cached (to_cached m) ≡ m
unfolding to_cached from_cached
from_cached-to_cached m = λ i. record {
  depot_id = m.depot_id;
  manifest_id = m.manifest_id;
  creation_time = m.creation_time;
  size_uncompressed = m.size_uncompressed;
  size_compressed = m.size_compressed;
  files = back_and_forth to_cached_file from_cached_file file_back m.files i;
}
