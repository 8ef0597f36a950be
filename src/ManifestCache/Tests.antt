-- ===== src/ManifestCache/Tests.antt =====
-- Runs of crates/steam-depot-vfs/src/manifest_cache.rs, on files in an association list.
use steam_depot_vfs.Prelude.{
  ℕ, suc, ◌⊎◌, ◌≡◌, refl, sym, ap, ◌∙◌, List, [], ◌∷◌, Option, some, none, list_eq, nat_eq,
  list_beq, ==_iff,
}
use steam_depot_vfs.Prelude.Maps.{
  HashMap, lookup, insert, remove, lookup-insert_self, lookup-remove,
}
use steam_depot_vfs.Prelude.Decimal.{to_string}
use steam_depot_vfs.Depot.{Bytes, Text, Manifest}
use steam_depot_vfs.Outcome.{Outcome, ok, err, ok-injective}
use steam_depot_vfs.ManifestCache.Cached.{CachedManifest, CachedFile, to_cached}
use steam_depot_vfs.ManifestCache.{
  ReadResult, found, absent, FilesApi, FilesLaws, Postcard, PostcardLaw, path_for, load, save,
  get_or_fetch, enter, CacheError,
}
use steam_depot_vfs.Fs.Paths.{join_base}
use steam_depot_vfs.ManifestCache.Fetched.{Saved, get_or_fetch_lem}
use steam_depot_vfs.ManifestCache.Saved.{load-save}

abbrev Files : Type 0
Files = HashMap Text Bytes

abbrev found_or : Option Bytes → ReadResult
found_or none = absent
found_or (some b) = found b

abbrev moved : Option Bytes → Text → Text → Files → Option ℕ × Files
moved none p to d = (some 2, d)
moved (some b) p to d = (none, insert to b d)

abbrev files : FilesApi Files
files = record {
  read = λ p d. (found_or (lookup p d), d);
  remove_file = λ p d. (none, remove p d);
  create_dir_all = λ p d. (none, d);
  write = λ p b d. (none, insert p b d);
  rename = λ p to d. moved (lookup p d) p to d;
}

is_found : (o : Option Bytes) (b : Bytes) → found_or o ≡ found b → o ≡ some b
is_found none b h = absurd cc
is_found (some a) b h = ap some (ap bytes h)
  where
    bytes : ReadResult → Bytes
    bytes (found c) = c
    bytes _ = []

is_moved :
    (o : Option Bytes) (p to : Text) (d : Files)
    → (moved o p to d).0 ≡ none
    → lookup to (moved o p to d).1 ≡ o
is_moved none p to d h = absurd cc
is_moved (some b) p to d h = lookup-insert_self to b d

files_laws : FilesLaws files
files_laws = record {
  content = λ d p. lookup p d;
  read_found = λ p d b h. is_found (lookup p d) b h;
  write_ok = λ p b d h. lookup-insert_self p b d;
  rename_ok = λ p to d h. is_moved (lookup p d) p to d h;
  remove_ok = λ p d h. lookup-remove p p d ∙ rw ((==_iff p p).1 refl) refl;
}

-- An encoding of the manifests that have no files.
abbrev decode : Bytes → Option CachedManifest
decode (a ∷ b ∷ c ∷ d ∷ e ∷ []) = some (record {
  depot_id = a;
  manifest_id = b;
  creation_time = c;
  size_uncompressed = d;
  size_compressed = e;
  files = [];
})
decode _ = none

abbrev encode_with : (a b c d e : ℕ) → List CachedFile → Outcome Text Bytes
encode_with a b c d e [] = ok (a ∷ b ∷ c ∷ d ∷ e ∷ [])
encode_with a b c d e (f ∷ fs) = err []

abbrev without_files : Postcard
without_files = record {
  from_bytes = decode;
  to_allocvec = λ c.
      encode_with c.depot_id c.manifest_id c.creation_time c.size_uncompressed c.size_compressed
        c.files;
}

decoded :
    (a b c d e : ℕ) (fs : List CachedFile) (bytes : Bytes)
    → encode_with a b c d e fs ≡ ok bytes
    → decode bytes
      ≡ some (record {
        depot_id = a;
        manifest_id = b;
        creation_time = c;
        size_uncompressed = d;
        size_compressed = e;
        files = fs;
      })
decoded a b c d e [] bytes h = ap decode (sym (ok-injective (a ∷ b ∷ c ∷ d ∷ e ∷ []) bytes h))
decoded a b c d e (f ∷ fs) bytes h = absurd cc

without_files_law : PostcardLaw without_files
without_files_law c bytes h =
    decoded c.depot_id c.manifest_id c.creation_time c.size_uncompressed c.size_compressed c.files
      bytes h

abbrev empty_manifest : Manifest
empty_manifest = record {
  depot_id = 2;
  manifest_id = 3;
  creation_time = 0;
  size_uncompressed = 0;
  size_compressed = 0;
  files = [];
}

abbrev encoded : Bytes
encoded = 2 ∷ 3 ∷ 0 ∷ 0 ∷ 0 ∷ []

abbrev stale : Files
stale = insert (path_for [] 1 2 3) (7 ∷ []) []

is_saved : (save files without_files [] 9 1 empty_manifest []).0 ≡ ok tt
unfolding save lookup insert to_cached join_base list_beq to_string
is_saved = refl

is_there :
    (files.read (path_for [] 1 2 3) (save files without_files [] 9 1 empty_manifest []).1).0
    ≡ found encoded
unfolding save lookup insert to_cached join_base list_beq to_string
is_there = refl

load-save_example :
    (load files without_files [] 1 2 3 (save files without_files [] 9 1 empty_manifest []).1).0
    ≡ ok (some empty_manifest)
load-save_example =
    load-save files without_files [] files_laws 9 1 empty_manifest [] without_files_law encoded
      is_saved is_there

abbrev fetch_empty : ℕ → Outcome CacheError Manifest × ℕ
fetch_empty w = (ok empty_manifest, suc w)

abbrev InFlight : Type 0
InFlight = HashMap (List ℕ) (Unit {0})

abbrev alone : InFlight × Files × ℕ → InFlight × Files × ℕ
alone s = s

abbrev fetching : Outcome CacheError Manifest × InFlight × Files × ℕ
fetching = get_or_fetch files without_files [] (λ e. e) 9 fetch_empty alone 1 2 3 [] [] 0

fetches : fetching.0 ≡ ok empty_manifest
unfolding get_or_fetch load save lookup insert to_cached join_base list_beq to_string
fetches = refl

get_or_fetch_example :
    ((load files without_files [] 1 2 3 []).0 ≡ ok (some empty_manifest))
    ⊎ ((load files without_files [] 1 2 3
          (alone (
            enter files without_files [] (λ e. e) 9 fetch_empty alone (1 ∷ 2 ∷ 3 ∷ []) [],
            (load files without_files [] 1 2 3 []).1,
            0,
          )).1).0
        ≡ ok (some empty_manifest))
    ⊎ Saved files without_files []
        (λ e. e)
        9
        fetch_empty
        alone
        (1 ∷ 2 ∷ 3 ∷ [])
        1
        empty_manifest
        fetching
get_or_fetch_example =
    get_or_fetch_lem files without_files [] (λ e. e) 9 fetch_empty alone 1 2 3 [] [] 0
      empty_manifest fetches
