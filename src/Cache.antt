-- ===== src/Cache.antt =====
-- `ChunkDir` and `FsCacheStore` of crates/steam-depot-vfs/src/chunk_store/cache.rs.
pub mod Interfaces
pub mod Names
pub mod Laws
pub mod Writes
pub mod Fetches
pub mod Loads
pub mod Gets
pub mod Warm
pub mod Locks
pub mod LockMap
pub mod Sample
mod Tests
use steam_depot_vfs.Prelude.{
  ℕ, ◌+◌, ◌%◌, ◌^◌, Bool, true, false, List, [], ◌∷◌, ◌++◌, Option, some, none, if◌then◌else◌, ◌==◌,
  nat_eq, list_eq,
}
use steam_depot_vfs.Prelude.Decimal.{to_string}
use steam_depot_vfs.Depot.{Bytes, Text, ChunkHash}
use steam_depot_vfs.Outcome.{Outcome, ok, err, panicked, ◌>>=◌}
use steam_depot_vfs.ChunkStore
use steam_depot_vfs.ChunkStore.{ChunkStore, VfsError, other, io, discard}
use steam_depot_vfs.Frame.{encode_frame_as}
use steam_depot_vfs.Frame.Decode.{decode_frame}
use steam_depot_vfs.Cache.Interfaces.{Env, State, DiskApi, LruApi}

abbrev pub Result : Type 0 → Type 0
Result = ChunkStore.Result

abbrev pub decoded_cache_entries : ℕ
decoded_cache_entries = 160

abbrev pub from_io : {A : Type 0} → Outcome ℕ A → Result A
from_io (ok a) = ok a
from_io (err e) = err (io e)
from_io panicked = panicked

abbrev pub wrong_hash : VfsError
wrong_hash = other (
    b'f' ∷ b'e' ∷ b't' ∷ b'c' ∷ b'h' ∷ b'e' ∷ b'd' ∷ b' ' ∷ b'c' ∷ b'h' ∷ b'u' ∷ b'n' ∷ b'k' ∷ b' '
    ∷ b'd' ∷ b'o' ∷ b'e' ∷ b's' ∷ b' ' ∷ b'n' ∷ b'o' ∷ b't' ∷ b' ' ∷ b'h' ∷ b'a' ∷ b's' ∷ b'h'
    ∷ b' ' ∷ b't' ∷ b'o' ∷ b' ' ∷ b'i' ∷ b't' ∷ b's' ∷ b' ' ∷ b'n' ∷ b'a' ∷ b'm' ∷ b'e' ∷ [])

-- `<name>.tmp.<process id>.<nonce>`
unfoldable pub tmp_name : ℕ → Text → ℕ → Text
tmp_name pid name nonce =
    name ++ (b'.' ∷ b't' ∷ b'm' ∷ b'p' ∷ b'.' ∷ to_string pid ++ b'.' ∷ to_string nonce)

-- Whether `try_exists` says yes.
abbrev pub says_yes : Outcome ℕ Bool → Bool
says_yes (ok b) = b
says_yes _ = false

module _ {D C I : Type 0} (env : Env D C I) where
  abbrev St : Type 0
  St = State D C I

  abbrev pub path_for : ChunkHash → Text
  path_for sha = env.to_hex sha

  -- `ChunkDir::new` and `FsCacheStore::new`, over a directory and an inner store.
  unfoldable pub new : D → I → ℕ → State D C I
  new disk inner writes = record {
    disk = disk;
    decoded = env.lru.new decoded_cache_entries;
    writes = writes;
    inner = inner;
  }

  unfoldable pub cache_hit : ChunkHash → State D C I → Option Bytes × State D C I
  cache_hit sha s = let (found, c) = env.lru.get sha s.decoded in (found, record s { decoded = c })

  abbrev pub cache_decoded : ChunkHash → Bytes → State D C I → State D C I
  cache_decoded sha bytes s = record s { decoded = env.lru.put sha bytes s.decoded }

  unfoldable pub tmp_path : Text → State D C I → Text × State D C I
  unfolding tmp_name
  tmp_path path s =
      (tmp_name env.process_id path s.writes, record s { writes = (s.writes + 1) % 2 ^ 64 })

  abbrev pub with_disk : {A : Type 0} → State D C I → Outcome ℕ A × D → Result A × State D C I
  with_disk s (r, d) = (from_io r, record s { disk = d })

  -- `m?`, then the rest.
  infixl 5 ◌then_try◌
  abbrev pub ◌then_try◌ :
      {A B : Type 0}
      → Result A × State D C I
      → (A → State D C I → Result B × State D C I)
      → Result B × State D C I
  ◌then_try◌ (ok a, s) f = f a s
  ◌then_try◌ (err e, s) f = (err e, s)
  ◌then_try◌ (panicked, s) f = (panicked, s)

  unfoldable pub write_atomic : Text → Bytes → State D C I → Result (Unit {0}) × State D C I
  write_atomic path bytes s =
      let (tmp, s0) = tmp_path path s in
      with_disk s0 (env.disk_api.create tmp s0.disk) then_try λ _ s1.
      with_disk s1 (env.disk_api.write_all tmp bytes s1.disk) then_try λ _ s2.
      with_disk s2 (env.disk_api.rename tmp path s2.disk)

  -- The closure that runs on a blocking thread.
  unfoldable pub frame_for : ChunkHash → Bytes → Result Bytes
  frame_for sha bytes =
      let digest = env.codec.sha1 bytes in
      if digest == sha then encode_frame_as env.codec bytes digest else err wrong_hash

  -- `.await.map_err(|e| VfsError::Other(e.into()))??`: a panic of the thread is an error. Its text is not
  -- told from an empty one.
  abbrev pub awaited : {A : Type 0} → Result A → Result A
  awaited (ok a) = ok a
  awaited (err e) = err e
  awaited panicked = err (other [])

  unfoldable pub fetch_and_persist : ChunkHash → Text → State D C I → Result Bytes × State D C I
  unfolding write_atomic frame_for
  fetch_and_persist sha path s =
      let (fetched, i) = env.inner_store.get sha s.inner in
      (fetched, record s { inner = i }) then_try λ bytes s1.
      (awaited (frame_for sha bytes), s1) then_try λ frame s2.
      write_atomic path frame s2 then_try λ _ s3. (ok bytes, cache_decoded sha bytes s3)

  -- A failure to delete is only logged.
  unfoldable pub delete_corrupt : Text → State D C I → State D C I
  delete_corrupt path s = record s { disk = (env.disk_api.remove_file path s.disk).1 }

  unfoldable pub read_verified : ChunkHash → Text → State D C I → Option Bytes × State D C I
  unfolding delete_corrupt
  read_verified sha path s =
      let (r, d) = env.disk_api.read path s.disk in
      let s1 = record s { disk = d } in
      elim r [
        | ok frame ↦ elim (decode_frame env.codec frame) [
          | none ↦ (none, delete_corrupt path s1)
          | some (claimed, plain) ↦
              if claimed == sha then (some plain, s1) else (none, delete_corrupt path s1)
        ]
        | err e ↦ (none, s1)
        | panicked ↦ (none, s1)
      ]

  -- `get` once the chunk's lock is held.
  unfoldable pub get_locked : ChunkHash → State D C I → Result Bytes × State D C I
  unfolding read_verified fetch_and_persist cache_hit
  get_locked sha s =
      let (hit, s1) = cache_hit sha s in
      elim hit [
        | some bytes ↦ (ok bytes, s1)
        | none ↦
            let (found, s2) = read_verified sha (path_for sha) s1 in
            elim found [
              | some bytes ↦ (ok bytes, cache_decoded sha bytes s2)
              | none ↦ fetch_and_persist sha (path_for sha) s2
            ]
      ]

  unfoldable pub get : ChunkHash → State D C I → Result Bytes × State D C I
  unfolding get_locked cache_hit
  get sha s =
      let (hit, s1) = cache_hit sha s in
      elim hit [ some bytes ↦ (ok bytes, s1) | none ↦ get_locked sha (env.wait_lock sha s1) ]

  -- `try_exists(path).await.unwrap_or(false)`
  unfoldable pub on_disk : ChunkHash → State D C I → Bool × State D C I
  on_disk sha s =
      let (r, d) = env.disk_api.try_exists (path_for sha) s.disk in
      (says_yes r, record s { disk = d })

  unfoldable pub ensure : ChunkHash → State D C I → Result (Unit {0}) × State D C I
  unfolding on_disk fetch_and_persist
  ensure sha s =
      let (there, s1) = on_disk sha s in
      if there
      then (ok tt, s1)
      else let (there', s2) = on_disk sha (env.wait_lock sha s1) in
        if there'
        then (ok tt, s2)
        else let (r, s3) = fetch_and_persist sha (path_for sha) s2 in (discard r, s3)

  abbrev pub fs_cache_store : ChunkStore (State D C I)
  fs_cache_store = record { get = get; ensure = ensure }
