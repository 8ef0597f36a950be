-- ===== src/Cache/Laws.antt =====
-- What the proofs on crates/steam-depot-vfs/src/chunk_store/cache.rs rely on, and the invariant of a
-- store's state.
use steam_depot_vfs.Prelude.{◌≡◌, ◌≤◌, false, Option, some, length}
use steam_depot_vfs.Depot.{Bytes, Text, ChunkHash}
use steam_depot_vfs.Outcome.{ok}
use steam_depot_vfs.Fs.Read.{isize_max}
use steam_depot_vfs.Frame.{CodecLaws}
use steam_depot_vfs.Frame.Decode.{decode_frame}
use steam_depot_vfs.Cache.Interfaces.{Env, State, DiskLaws, LruLaws}
use steam_depot_vfs.Cache.Names.{has_dot}

module _ {D C I : Type 0} (env : Env D C I) (disk : DiskLaws env.disk_api)
    (lru : LruLaws env.lru) where
  abbrev pub file_at : State D C I → Text → Option Bytes
  file_at s p = disk.content s.disk p

  abbrev pub held : State D C I → ChunkHash → Option Bytes
  held s sha = lru.peek s.decoded sha

  -- Every decoded chunk hashes to its name, and so does what any frame on disk that names itself
  -- as the file it stands in decodes to. Other files may be anything.
  pub record IsHonest (s : State D C I) : Type 0 where
    pub held_hashes : (sha : ChunkHash) (b : Bytes) → held s sha ≡ some b → env.codec.sha1 b ≡ sha
    pub file_hashes :
        (sha : ChunkHash) (frame plain : Bytes)
        → file_at s (env.to_hex sha) ≡ some frame
        → decode_frame env.codec frame ≡ some (sha, plain)
        → env.codec.sha1 plain ≡ sha

-- `inner_small`: no allocation passes `isize::MAX` bytes. `waits_honestly`: the other tasks keep
-- the invariant; of what the inner store returns nothing else is assumed.
pub record EnvLaws {D C I : Type 0} (env : Env D C I) : Type 0 where
  pub codec : CodecLaws env.codec
  pub disk : DiskLaws env.disk_api
  pub lru : LruLaws env.lru
  pub hex_dotless : (sha : ChunkHash) → has_dot (env.to_hex sha) ≡ false
  pub hex_injective : (a b : ChunkHash) → env.to_hex a ≡ env.to_hex b → a ≡ b
  pub inner_small :
      (sha : ChunkHash) (i : I) (b : Bytes)
      → (env.inner_store.get sha i).0 ≡ ok b
      → length b ≤ isize_max
  pub waits_honestly :
      (sha : ChunkHash) (s : State D C I)
      → IsHonest env disk lru s
      → IsHonest env disk lru (env.wait_lock sha s)
