-- ===== src/Fs/Tests.antt =====
-- Runs of crates/steam-depot-vfs/src/fs.rs and of the properties of its functions, on a manifest with
-- the files "a" (three bytes, in one chunk) and "d/b" and a store that always has these bytes.
use steam_depot_vfs.Prelude.{
  ℕ, ◌+◌, ◌<◌, ◌≡◌, refl, sym, arith, Bool, true, false, List, [], ◌∷◌, ◌++◌, map, Option, some,
  none, list_beq, min, if◌then◌else◌, list_eq, nat_eq, length,
}
use steam_depot_vfs.Prelude.Maps.{lookup, insert}
use steam_depot_vfs.Depot.{
  Bytes, Text, Chunk, ChunkHash, DepotFile, DepotFileKind, Manifest, FileType, DepotApi,
}
use steam_depot_vfs.Outcome.{ok, err, panicked, ok-injective}
use steam_depot_vfs.ChunkStore.{ChunkStore, IsFaithful, ensure_by_get}
use steam_depot_vfs.Fs.{
  Result, Entry, new, index_files, not_found_error, is_root, entry_of, list_dir,
}
use steam_depot_vfs.Fs.Paths.{strip_leading_slash, parent_of, rfind_slash, file_name}
use steam_depot_vfs.Fs.Listing.{children_of, list_dir-new}
use steam_depot_vfs.Fs.Read.{find_file, read_into}
use steam_depot_vfs.Fs.Read.Slices.{between}
use steam_depot_vfs.Fs.Read.Layout.{HasSha, HoldsContent, ReadResult}
use steam_depot_vfs.Fs.Read.Content.{read_into-content, read_into-total}
use steam_depot_vfs.Fs.Reader.{DepotFileReader, covering_chunk, partition_point, read}
use steam_depot_vfs.Fs.Reader.Sequential.{IsSound}
use steam_depot_vfs.Fs.Reader.Whole.{read_to_end, read_to_end_lem}
use steam_depot_vfs.Fs.Reader.Short.{read_short}

-- "/a", the parent of "a/b/c", the name of "a/bc/".
paths_run :
    (strip_leading_slash (b'/' ∷ b'a' ∷ []) ≡ b'a' ∷ [])
    × (parent_of (b'a' ∷ b'/' ∷ b'b' ∷ b'/' ∷ b'c' ∷ []) ≡ some (b'a' ∷ b'/' ∷ b'b' ∷ []))
    × (file_name (b'a' ∷ b'/' ∷ b'b' ∷ b'c' ∷ b'/' ∷ []) ≡ some (b'b' ∷ b'c' ∷ []))
unfolding strip_leading_slash parent_of file_name list_beq
paths_run = (refl, refl, refl)

abbrev pub content : Bytes
content = 1 ∷ 2 ∷ 3 ∷ []

abbrev chunk : Chunk
chunk = record { sha = 9 ∷ []; crc = 0; offset = 0; size_uncompressed = 3; size_compressed = 3 }

abbrev path_a : Text
path_a = b'a' ∷ []

abbrev path_d : Text
path_d = b'd' ∷ []

abbrev path_db : Text
path_db = b'd' ∷ b'/' ∷ b'b' ∷ []

abbrev pub file_a : DepotFile
file_a = record { path = path_a; size = 3; kind = DepotFileKind.regular [] false (chunk ∷ []) }

abbrev file_b : DepotFile
file_b = record { path = path_db; size = 3; kind = DepotFileKind.regular [] false (chunk ∷ []) }

abbrev pub manifest : Manifest
manifest = record {
  depot_id = 1;
  manifest_id = 2;
  creation_time = 0;
  size_uncompressed = 6;
  size_compressed = 6;
  files = file_a ∷ file_b ∷ [];
}

abbrev type_of : DepotFileKind → FileType
type_of (DepotFileKind.regular sha executable chunks) = FileType.file
type_of DepotFileKind.directory = FileType.directory
type_of (DepotFileKind.symlink target) = FileType.symlink

abbrev is_regular : DepotFileKind → Bool
is_regular (DepotFileKind.regular sha executable chunks) = true
is_regular _ = false

abbrev target_of : DepotFileKind → Option Text
target_of (DepotFileKind.symlink target) = some target
target_of _ = none

abbrev chunks_of : DepotFileKind → List Chunk
chunks_of (DepotFileKind.regular sha executable chunks) = chunks
chunks_of _ = []

abbrev pub api : DepotApi
api = record {
  file_type = λ f. type_of f.kind;
  is_file = λ f. is_regular f.kind;
  executable = λ f. false;
  linktarget = λ f. target_of f.kind;
  chunks = λ f. chunks_of f.kind;
}

abbrev always : Bytes → ChunkStore (Unit {0})
always b = record { get = λ sha s. (ok b, s); ensure = ensure_by_get (λ sha s. (ok b, s)) }

abbrev pub store : ChunkStore (Unit {0})
store = always content

abbrev pub Inv : Unit {0} → Type 0
Inv s = Unit {0}

abbrev pub Good : ChunkHash → Bytes → Type 0
Good sha b = b ≡ content

pub faithful : IsFaithful Inv Good store
faithful = record { keeps = λ sha s i. tt; good = λ sha s b i e. sym (ok-injective content b e) }

pub holds : HoldsContent Good api file_a content
holds = record {
  regular = refl;
  sized = refl;
  small = omega arith;
  contiguous = (refl, refl);
  parts = (λ b e. e, tt);
}

pub found_a : find_file (new manifest) path_a ≡ ok file_a
unfolding find_file new index_files lookup insert strip_leading_slash parent_of rfind_slash list_beq
found_a = refl

read_into-content_example :
    let r = read_into store api (new manifest) path_a 1 5 (7 ∷ []) tt in
    Inv r.1
    × ReadResult store Inv
        (λ sha. HasSha sha (api.chunks file_a))
        (7 ∷ [] ++ between 1 (min (1 + 5) 3) content)
        r.0
read_into-content_example =
    read_into-content store Inv Good faithful api (new manifest) path_a file_a content found_a holds
      1 5 (7 ∷ []) tt (omega arith) (omega arith) (omega arith) tt

read_into-total_example :
    (read_into store api (new manifest) path_a 1 5 (7 ∷ []) tt).0
    ≡ ok (7 ∷ [] ++ between 1 (min (1 + 5) 3) content)
read_into-total_example =
    read_into-total store Inv Good faithful api (new manifest) path_a file_a content found_a holds 1
      5 (7 ∷ []) tt (omega arith) (omega arith) (omega arith) (λ sha t h i. (content, refl)) tt

abbrev at : ℕ → DepotFileReader
at p = record { file = file_a; size = 3; pos = p; cached = none }

at-IsSound : (p : ℕ) → IsSound store Inv Good faithful api file_a content holds (at p)
at-IsSound p = record { file_eq = refl; size_eq = refl; cached_good = λ i b c h g. absurd cc }

read_to_end_example : read_to_end api store 2 4 (at 0) tt ≡ some (ok (between 0 3 content))
read_to_end_example =
    read_to_end_lem store Inv Good faithful api file_a content holds (λ sha t i. (content, refl)) 2
      (omega arith) 4 (at 0) tt (at-IsSound 0) tt (omega arith) (omega arith)

abbrev one_byte : Bytes
one_byte = 1 ∷ []

covers_two : covering_chunk api (at 2) ≡ ok (0, chunk)
unfolding covering_chunk partition_point
covers_two = refl

read_short_example :
    (0 + length one_byte ≡ 2 → (read api (always one_byte) (at 2) 5 tt).0 ≡ ok [])
    × (0 + length one_byte < 2 → (read api (always one_byte) (at 2) 5 tt).0 ≡ panicked)
read_short_example =
    read_short api (always one_byte) (at 2) 5 0 chunk one_byte tt (omega arith) (omega arith)
      covers_two refl refl

list_dir_example :
    let key = if is_root path_d then [] else strip_leading_slash path_d in
    list_dir api (new manifest) path_d
    ≡ elim (children_of key manifest.files) as (λ _. Result (List Entry)) [
      | [] ↦ err (not_found_error (new manifest) path_d key)
      | f ∷ fs ↦ ok (map (entry_of api) (f ∷ fs))
    ]
list_dir_example = list_dir-new api manifest path_d
