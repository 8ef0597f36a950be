-- ===== src/ManifestCache.antt =====
-- crates/steam-depot-vfs/src/manifest_cache.rs: `ManifestCache`. The file system is a parameter with a
-- state `D`; so is the crate `postcard`.
pub mod Cached
pub mod Saved
pub mod Fetched
mod Tests
use steam_depot_vfs.Prelude.{
  ℕ, ◌≡◌, ◌≢◌, Bool, true, false, List, [], ◌∷◌, ◌++◌, Option, some, none, if◌then◌else◌, ◌==◌,
  nat_eq, list_eq,
}
use steam_depot_vfs.Prelude.Maps.{HashMap, lookup, insert, remove, contains_key}
use steam_depot_vfs.Prelude.Decimal.{to_string}
use steam_depot_vfs.Depot.{Bytes, Text, Manifest}
use steam_depot_vfs.Outcome.{Outcome, ok, err, panicked, ◌>>=◌}
use steam_depot_vfs.Fs.Paths.{join_base}
use Cached.{CachedManifest, to_cached, from_cached}

pub data Op : Type 0 where
  reading removing creating writing renaming : Op

pub data CacheError : Type 0 where
  io : Op → (path : Text) → (source : ℕ) → CacheError
  encode : Text → CacheError

-- What `std::fs::read` returns: the kind `NotFound` is told apart.
pub data ReadResult : Type 0 where
  found : Bytes → ReadResult
  absent : ReadResult
  failed : ℕ → ReadResult

-- The calls of `std::fs`; `none` is success, else an error code.
pub record FilesApi (D : Type 0) : Type 0 where
  pub read : Text → D → ReadResult × D
  pub remove_file : Text → D → Option ℕ × D
  pub create_dir_all : Text → D → Option ℕ × D
  pub write : Text → Bytes → D → Option ℕ × D
  pub rename : Text → Text → D → Option ℕ × D

pub record FilesLaws {D : Type 0} (api : FilesApi D) : Type 0 where
  pub content : D → Text → Option Bytes
  pub read_found :
      (p : Text) (d : D) (b : Bytes) → (api.read p d).0 ≡ found b → content d p ≡ some b
  pub write_ok :
      (p : Text) (b : Bytes) (d : D)
      → (api.write p b d).0 ≡ none
      → content (api.write p b d).1 p ≡ some b
  pub rename_ok :
      (p to : Text) (d : D)
      → (api.rename p to d).0 ≡ none
      → content (api.rename p to d).1 to ≡ content d p
  pub remove_ok :
      (p : Text) (d : D) → (api.remove_file p d).0 ≡ none → content (api.remove_file p d).1 p ≡ none

pub record Postcard : Type 0 where
  pub from_bytes : Bytes → Option CachedManifest
  pub to_allocvec : CachedManifest → Outcome Text Bytes

-- What is encoded is decoded again.
abbrev pub PostcardLaw : Postcard → Type 0
PostcardLaw p = (c : CachedManifest) (b : Bytes) → p.to_allocvec c ≡ ok b → p.from_bytes b ≡ some c

abbrev pub Result {ℓ} : Type ℓ → Type ℓ
Result = Outcome CacheError

-- `map_err(|e| CacheError::io(op, path, e))`
abbrev pub io_result : Op → Text → Option ℕ → Result (Unit {0})
io_result op path none = ok tt
io_result op path (some e) = err (io op path e)

abbrev pub encode_result : Outcome Text Bytes → Result Bytes
encode_result (ok b) = ok b
encode_result (err e) = err (encode e)
encode_result panicked = panicked

-- The directory of a depot, and a file in it.
abbrev pub depot_dir : Text → ℕ → ℕ → Text
depot_dir root app_id depot_id = join_base (join_base root (to_string app_id)) (to_string depot_id)

abbrev pub entry_path : Text → ℕ → ℕ → ℕ → Text → Text
entry_path root app_id depot_id manifest_id extension =
    join_base (depot_dir root app_id depot_id) (to_string manifest_id ++ b'.' ∷ extension)

abbrev pub path_for : Text → ℕ → ℕ → ℕ → Text
path_for root app_id depot_id manifest_id =
    entry_path root app_id depot_id manifest_id
      (b'p' ∷ b'o' ∷ b's' ∷ b't' ∷ b'c' ∷ b'a' ∷ b'r' ∷ b'd' ∷ [])

-- `path.with_extension`, with the process id.
abbrev pub tmp_for : Text → ℕ → ℕ → ℕ → ℕ → Text
tmp_for root pid app_id depot_id manifest_id =
    entry_path root app_id depot_id manifest_id (b't' ∷ b'm' ∷ b'p' ∷ b'.' ∷ to_string pid)

module _ {D : Type 0} (api : FilesApi D) (postcard : Postcard) (root : Text) where
  -- A file that does not decode is removed.
  unfoldable pub decode_or_remove : Text → Bytes → D → Result (Option Manifest) × D
  decode_or_remove path bytes d = elim (postcard.from_bytes bytes) [
    | some c ↦ (ok (some (from_cached c)), d)
    | none ↦
        let (r, d') = api.remove_file path d in (io_result removing path r >>= λ _. ok none, d')
  ]

  unfoldable pub load : ℕ → ℕ → ℕ → D → Result (Option Manifest) × D
  unfolding decode_or_remove
  load app_id depot_id manifest_id d =
      let path = path_for root app_id depot_id manifest_id in
      let (r, d') = api.read path d in
      elim r [
        | found bytes ↦ decode_or_remove path bytes d'
        | absent ↦ (ok none, d')
        | failed e ↦ (err (io reading path e), d')
      ]

  -- A call, and the next one if it succeeds.
  abbrev pub after_call :
      {A : Type 0} → Result A × D → (A → D → Result (Unit {0}) × D) → Result (Unit {0}) × D
  after_call (ok a, d) f = f a d
  after_call (err e, d) f = (err e, d)
  after_call (panicked, d) f = (panicked, d)

  abbrev pub call : Op → Text → Option ℕ × D → Result (Unit {0}) × D
  call op path (r, d) = (io_result op path r, d)

  unfoldable pub save : (pid app_id : ℕ) → Manifest → D → Result (Unit {0}) × D
  save pid app_id m d =
      let path = path_for root app_id m.depot_id m.manifest_id in
      let dir = depot_dir root app_id m.depot_id in
      let tmp = tmp_for root pid app_id m.depot_id m.manifest_id in
      after_call (call creating dir (api.create_dir_all dir d)) λ _ d1.
        after_call (encode_result (postcard.to_allocvec (to_cached m)), d1)
          λ bytes d2.
            after_call (call writing tmp (api.write tmp bytes d2))
              λ _ d3. call renaming path (api.rename tmp path d3)

  -- `in_flight` has a key for each manifest that is being fetched; `wait` is what other tasks do while
  -- a caller waits for the lock of its key.
  module _ {W E : Type 0} (from_cache : CacheError → E) (pid : ℕ)
      (fetch : W → Outcome E Manifest × W)
      (wait : HashMap (List ℕ) (Unit {0}) × D × W → HashMap (List ℕ) (Unit {0}) × D × W) where
    abbrev pub Fetching : Type 0
    Fetching = Outcome E Manifest × HashMap (List ℕ) (Unit {0}) × D × W

    abbrev convert : {A : Type 0} → Result A → Outcome E A
    convert (ok a) = ok a
    convert (err e) = err (from_cache e)
    convert panicked = panicked

    -- Once the key's lock is held, and the second `load` has found nothing.
    unfoldable pub fetch_and_save : List ℕ → ℕ → HashMap (List ℕ) (Unit {0}) → D → W → Fetching
    unfolding save
    fetch_and_save key app_id in_flight d w =
        let (r, w') = fetch w in
        elim r as (λ _. Fetching) [
          | err e ↦ (err e, in_flight, d, w')
          | panicked ↦ (panicked, in_flight, d, w')
          | ok m ↦
              let (saved, d') = save pid app_id m d in
              elim saved as (λ _. Fetching) [
                | ok _ ↦ (ok m, remove key in_flight, d', w')
                | err e ↦ (err (from_cache e), in_flight, d', w')
                | panicked ↦ (panicked, in_flight, d', w')
              ]
        ]

    -- A loaded manifest, or `rest`.
    abbrev pub loaded_or :
        Result (Option Manifest) × D → HashMap (List ℕ) (Unit {0}) → W → (D → Fetching) → Fetching
    loaded_or (ok (some m), d) in_flight w rest = (ok m, in_flight, d, w)
    loaded_or (ok none, d) in_flight w rest = rest d
    loaded_or (err e, d) in_flight w rest = (err (from_cache e), in_flight, d, w)
    loaded_or (panicked, d) in_flight w rest = (panicked, in_flight, d, w)

    -- `entry(key).or_insert_with`
    abbrev pub enter : List ℕ → HashMap (List ℕ) (Unit {0}) → HashMap (List ℕ) (Unit {0})
    enter key in_flight = if contains_key key in_flight then in_flight else insert key tt in_flight

    unfoldable pub get_or_fetch :
        (app_id depot_id manifest_id : ℕ) → HashMap (List ℕ) (Unit {0}) → D → W → Fetching
    unfolding load fetch_and_save
    get_or_fetch app_id depot_id manifest_id in_flight d w =
        let key = app_id ∷ depot_id ∷ manifest_id ∷ [] in
        loaded_or (load app_id depot_id manifest_id d) in_flight w (λ d1.
          let (in_flight', d2, w') = wait (enter key in_flight, d1, w) in
          loaded_or (load app_id depot_id manifest_id d2) in_flight' w'
            (λ d3. fetch_and_save key app_id in_flight' d3 w'))
