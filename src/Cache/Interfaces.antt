-- ===== src/Cache/Interfaces.antt =====
-- What crates/steam-depot-vfs/src/chunk_store/cache.rs uses of other crates and of the system: the
-- codec, the crate `lru`, the calls of `tokio::fs`, and what other tasks do while a caller waits
-- for the lock of a chunk. `EnvLaws` says what is relied on. A path is a file name in the
-- cache's root directory.
use steam_depot_vfs.Prelude.{ℕ, ◌≡◌, ◌≢◌, ◌⊎◌, Bool, true, [], ◌++◌, Option, some, none, take}
use steam_depot_vfs.Depot.{Bytes, Text, ChunkHash}
use steam_depot_vfs.Outcome.{Outcome, ok}
use steam_depot_vfs.ChunkStore.{ChunkStore}
use steam_depot_vfs.Frame.{Codec}

-- The calls on the directory; each may fail, with an error code.
pub record DiskApi (D : Type 0) : Type 0 where
  pub read : Text → D → Outcome ℕ Bytes × D
  pub try_exists : Text → D → Outcome ℕ Bool × D
  pub create : Text → D → Outcome ℕ (Unit {0}) × D
  pub write_all : Text → Bytes → D → Outcome ℕ (Unit {0}) × D
  pub rename : Text → Text → D → Outcome ℕ (Unit {0}) × D
  pub remove_file : Text → D → Outcome ℕ (Unit {0}) × D

-- `LruCache`: `get` marks its entry as used, so it changes the cache.
pub record LruApi (C : Type 0) : Type 0 where
  pub new : (capacity : ℕ) → C
  pub get : ChunkHash → C → Option Bytes × C
  pub put : ChunkHash → Bytes → C → C

-- The state of a store: that of its `ChunkDir`, the process's counter `WRITES`, and that of the
-- store it wraps.
pub record State (D C I : Type 0) : Type 0 where
  pub disk : D
  pub decoded : C
  pub writes : ℕ
  pub inner : I

pub record Env (D C I : Type 0) : Type 0 where
  pub codec : Codec
  pub disk_api : DiskApi D
  pub lru : LruApi C
  pub inner_store : ChunkStore I
  -- `ChunkHash::to_string`
  pub to_hex : ChunkHash → Text
  pub process_id : ℕ
  -- What others do to the shared state until the chunk's lock is ours.
  pub wait_lock : ChunkHash → State D C I → State D C I

-- The directory as a map from names to contents. `tokio::fs::File` hands what it writes to a thread in the
-- background, and `write_all` returns before that thread has written it: `content` is what a file
-- holds once the thread is done, and a read of the file is taken to come after that.
pub record DiskLaws {D : Type 0} (api : DiskApi D) : Type 0 where
  pub content : D → Text → Option Bytes
  pub read_keeps : (p q : Text) (d : D) → content (api.read p d).1 q ≡ content d q
  pub read_ok : (p : Text) (d : D) (b : Bytes) → (api.read p d).0 ≡ ok b → content d p ≡ some b
  pub exists_keeps : (p q : Text) (d : D) → content (api.try_exists p d).1 q ≡ content d q
  pub exists_ok : (p : Text) (d : D) → (api.try_exists p d).0 ≡ ok true → content d p ≢ none
  -- A call that changes one file leaves the others, also when it fails.
  pub create_frame : (p q : Text) (d : D) → p ≢ q → content (api.create p d).1 q ≡ content d q
  pub create_ok :
      (p : Text) (d : D) → (api.create p d).0 ≡ ok tt → content (api.create p d).1 p ≡ some []
  pub write_frame :
      (p q : Text) (b : Bytes) (d : D) → p ≢ q → content (api.write_all p b d).1 q ≡ content d q
  -- A write in the background may fail after the call has returned, and then only a first part of the
  -- bytes is there.
  pub write_ok :
      (p : Text) (b old : Bytes) (d : D)
      → content d p ≡ some old
      → (api.write_all p b d).0 ≡ ok tt
      → (k : ℕ) × (content (api.write_all p b d).1 p ≡ some (old ++ take k b))
  -- A rename happens whole or not at all.
  pub rename_err :
      (p to q : Text) (d : D)
      → (api.rename p to d).0 ≢ ok tt
      → content (api.rename p to d).1 q ≡ content d q
  pub rename_ok :
      (p to : Text) (d : D)
      → (api.rename p to d).0 ≡ ok tt
      → content (api.rename p to d).1 to ≡ content d p
  pub rename_frame :
      (p to q : Text) (d : D) → p ≢ q → to ≢ q → content (api.rename p to d).1 q ≡ content d q
  pub remove_frame : (p q : Text) (d : D) → p ≢ q → content (api.remove_file p d).1 q ≡ content d q
  pub remove_same :
      (p : Text) (d : D)
      → (content (api.remove_file p d).1 p ≡ none)
        ⊎ (content (api.remove_file p d).1 p ≡ content d p)
  pub remove_ok :
      (p : Text) (d : D)
      → (api.remove_file p d).0 ≡ ok tt
      → content (api.remove_file p d).1 p ≡ none

-- What the cache holds for a key; others may be evicted by a `put`.
pub record LruLaws {C : Type 0} (lru : LruApi C) : Type 0 where
  pub peek : C → ChunkHash → Option Bytes
  pub new_empty : (n : ℕ) (k : ChunkHash) → peek (lru.new n) k ≡ none
  pub get_peek : (k : ChunkHash) (c : C) → (lru.get k c).0 ≡ peek c k
  pub get_keeps : (k j : ChunkHash) (c : C) → peek (lru.get k c).1 j ≡ peek c j
  pub put_same : (k : ChunkHash) (b : Bytes) (c : C) → peek (lru.put k b c) k ≡ some b
  pub put_other :
      (k j : ChunkHash) (b : Bytes) (c : C)
      → k ≢ j
      → (peek (lru.put k b c) j ≡ none) ⊎ (peek (lru.put k b c) j ≡ peek c j)
