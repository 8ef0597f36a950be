-- ===== src/DepotStore/Tests.antt =====
-- Runs of crates/steam-depot-vfs/src/context.rs.
use steam_depot_vfs.Prelude.{
  ℕ, ◌+◌, ◌≡◌, min, refl, ap, arith, Bool, true, false, List, [], ◌∷◌, map, some, none, length,
  ◌==◌, ==_iff, nat_eq, list_eq, list_beq,
}
use steam_depot_vfs.Prelude.Maps.{lookup, insert}
use steam_depot_vfs.Depot.{Bytes, Text, Chunk, ChunkHash, DepotFile, DepotFileKind, Manifest}
use steam_depot_vfs.Outcome.{ok, err}
use steam_depot_vfs.Fs
use steam_depot_vfs.Fs.{new, index_files}
use steam_depot_vfs.Fs.Paths.{strip_leading_slash, parent_of, rfind_slash}
use steam_depot_vfs.Fs.Tests.{api}
use steam_depot_vfs.Fs.Read.{find_file, read}
use steam_depot_vfs.Fs.Read.Slices.{between}
use steam_depot_vfs.Fs.Read.Layout.{HasSha, HoldsContent, ReadResult}
use steam_depot_vfs.Frame.{Codec, CodecLaws}
use steam_depot_vfs.Cache.{fs_cache_store}
use steam_depot_vfs.Cache.Interfaces.{Env}
use steam_depot_vfs.Cache.Laws.{EnvLaws}
use steam_depot_vfs.Cache.Fetches.{Honest}
use steam_depot_vfs.Cache.Sample.{
  Files, Held, stored, stored_laws, sample_with, sample_with_laws, empty_state, empty-Honest_with,
}
use steam_depot_vfs.ChunkStore.{connection}
use steam_depot_vfs.ManifestCache.{FilesApi, Postcard, found, load, decode_or_remove}
use steam_depot_vfs.ManifestCache.Cached.{to_cached, from_cached}
use steam_depot_vfs.Cdn
use steam_depot_vfs.DepotKeys
use steam_depot_vfs.DepotKeys.{get_lazy}
use steam_depot_vfs.DepotStore.{Client, DepotStore, manifests_root, open_depot_manifest}
use steam_depot_vfs.DepotStore.Opening.{open_offline}
use steam_depot_vfs.DepotStore.Reading.{read_snapshot_lem}
use steam_depot_vfs.DepotStore.Directories.{entries, list_manifests, strip_suffix, gid_of}
use steam_depot_vfs.DepotStore.Listing.{
  numbered, stray, Apps, app_shown, app_triples, app_paths, written_at, list_manifests_lem,
}

abbrev three_bytes : Bytes
three_bytes = 1 ∷ 2 ∷ 3 ∷ []

abbrev digits : ℕ → ChunkHash
digits n = n ∷ 0 ∷ 0 ∷ 0 ∷ 0 ∷ 0 ∷ 0 ∷ 0 ∷ 0 ∷ 0 ∷ 0 ∷ 0 ∷ 0 ∷ 0 ∷ 0 ∷ 0 ∷ 0 ∷ 0 ∷ 0 ∷ 0 ∷ []

-- A hash that tells three bytes from all others.
abbrev told : Bool → ChunkHash
told true = digits 1
told false = digits 2

abbrev telling : Codec
telling = record stored { sha1 = λ b. told (b == three_bytes) }

length-told : (b : Bool) → length (told b) ≡ 20
length-told true = refl
length-told false = refl

telling_laws : CodecLaws telling
telling_laws = record {
  sha1_len = λ b. length-told (b == three_bytes);
  decompress-compress = stored_laws.decompress-compress;
  decompress-cut = stored_laws.decompress-cut;
}

abbrev env : Env Files Held ℕ
env = sample_with telling

env_laws : EnvLaws env
env_laws = sample_with_laws telling telling_laws

abbrev chunk : Chunk
chunk = record { sha = digits 1; crc = 0; offset = 0; size_uncompressed = 3; size_compressed = 3 }

abbrev path : Text
path = b'a' ∷ []

abbrev one_file : DepotFile
one_file = record { path = path; size = 3; kind = DepotFileKind.regular [] false (chunk ∷ []) }

abbrev manifest : Manifest
manifest = record {
  depot_id = 1;
  manifest_id = 2;
  creation_time = 0;
  size_uncompressed = 3;
  size_compressed = 3;
  files = one_file ∷ [];
}

found_file : find_file (new manifest) path ≡ ok one_file
unfolding find_file new index_files lookup insert strip_leading_slash parent_of rfind_slash list_beq
found_file = refl

abbrev head_of : List ℕ → ℕ
head_of [] = 0
head_of (n ∷ ns) = n

only_three : (v : Bool) → told v ≡ digits 1 → v ≡ true
only_three true e = refl
only_three false e = absurd (let q = ap head_of e in omega (arith, q))

holds : HoldsContent (λ sha b. telling.sha1 b ≡ sha) api one_file three_bytes
holds = record {
  regular = refl;
  sized = refl;
  small = omega arith;
  contiguous = (refl, refl);
  parts = (λ b e. (==_iff b three_bytes).0 (only_three (b == three_bytes) e), tt);
}

nothing_Honest : Honest env env_laws empty_state
unfolding env_laws
nothing_Honest = empty-Honest_with telling telling_laws

read_snapshot_example :
    let r = read (fs_cache_store env) api (Fs.new manifest) path 1 5 empty_state in
    Honest env env_laws r.1
    × ReadResult
        (fs_cache_store env)
        (Honest env env_laws)
        (λ sha. HasSha sha (api.chunks one_file))
        (between 1 (min (1 + 5) 3) three_bytes)
        r.0
read_snapshot_example =
    read_snapshot_lem env env_laws api manifest path one_file three_bytes 1 5 empty_state found_file
      holds (omega arith) (omega arith) (omega arith) nothing_Honest

-- One manifest, a temporary file beside it and a directory that is no app's.
abbrev tree : Apps
tree =
    numbered 7 (
      numbered 8 (numbered 99 tt ∷ stray (some (b'9' ∷ b'.' ∷ b't' ∷ b'm' ∷ b'p' ∷ [])) tt ∷ [])
      ∷ [])
    ∷ stray none []
    ∷ []

no_gid : gid_of (some (b'9' ∷ b'.' ∷ b't' ∷ b'm' ∷ b'p' ∷ [])) ≡ none
unfolding gid_of strip_suffix
no_gid = refl

abbrev cache_root : Text
cache_root = b'/' ∷ b'm' ∷ []

list_manifests_example :
    (list_manifests (entries (map app_shown tree)) ≡ ok (app_triples tree))
    × (map (written_at cache_root) (app_triples tree) ≡ app_paths cache_root tree)
list_manifests_example =
    list_manifests_lem cache_root tree
      (omega arith, (omega arith, (omega arith, (no_gid, tt)), tt), (refl, tt))

abbrev files : FilesApi (Unit {0})
files = record {
  read = λ p d. (found (1 ∷ []), d);
  remove_file = λ p d. (none, d);
  create_dir_all = λ p d. (none, d);
  write = λ p b d. (none, d);
  rename = λ p to d. (none, d);
}

abbrev postcard : Postcard
postcard = record { from_bytes = λ b. some (to_cached manifest); to_allocvec = λ c. ok (1 ∷ []) }

-- Nobody answers.
abbrev offline : Client ℕ
offline = record {
  session = record {
    resolve = λ w. (err (connection 1), w + 1);
    depot_key = λ c app_id depot_id w. (ok 5, w);
  };
  fetch_manifest = λ c app_id depot_id gid branch key w. (ok manifest, w);
  fetch_chunk = λ c depot_id chunk key w. (ok [], w);
}

loaded : load files postcard (manifests_root []) 7 1 2 tt ≡ (ok (some manifest), tt)
unfolding load decode_or_remove to_cached from_cached
loaded = refl

abbrev nothing_open : DepotStore (Unit {0})
nothing_open = record { depot_keys = DepotKeys.new; in_flight = []; files = tt }

open_offline_example :
    open_depot_manifest api files postcard offline [] 7 (λ e. 0) (λ s. s) 7 1 2 [] nothing_open 0
    ≡ (
      ok (record {
        manifest_store = Fs.new manifest;
        cdn = Cdn.new api 1 manifest;
        depot_key = (get_lazy 7 1 DepotKeys.new).0;
      }),
      record { depot_keys = (get_lazy 7 1 DepotKeys.new).1; in_flight = []; files = tt },
      0,
    )
open_offline_example =
    open_offline api files postcard offline [] 7 (λ e. 0) (λ s. s) 7 1 2 [] nothing_open 0 manifest
      tt loaded
