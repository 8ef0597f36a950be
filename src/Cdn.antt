-- ===== src/Cdn.antt =====
-- crates/steam-depot-vfs/src/chunk_store/cdn.rs: `CdnChunkStore`. The network is a parameter, on the state
-- `W` of the outside: the depot key, the connection, and the fetch of a chunk.
pub mod Chunks
use steam_depot_vfs.Prelude.{
  ℕ, Bool, List, [], ◌∷◌, Option, some, none, if◌then◌else◌, ◌==◌, nat_eq, list_eq,
}
use steam_depot_vfs.Prelude.Maps.{HashMap, lookup, insert, contains_key}
use steam_depot_vfs.Depot.{Bytes, Chunk, ChunkHash, DepotFile, DepotApi, Manifest}
use steam_depot_vfs.Outcome.{Outcome, ok, err, panicked}
use steam_depot_vfs.ChunkStore.{ChunkStore, Result, VfsError, chunk_not_in_manifest, ensure_by_get}

pub record Network (W : Type 0) : Type 0 where
  pub depot_key : W → Result ℕ × W
  pub resolve : W → Result ℕ × W
  pub fetch_chunk : (connection depot_id : ℕ) → Chunk → (key : ℕ) → W → Result Bytes × W

-- `or_insert_with` of an entry that holds `o`.
abbrev pub or_insert : Option Chunk → Chunk → HashMap ChunkHash Chunk → HashMap ChunkHash Chunk
or_insert none c m = insert c.sha c m
or_insert (some d) c m = m

-- `entry(c.sha).or_insert_with`: the first chunk of a hash stays.
abbrev pub keep_first : Chunk → HashMap ChunkHash Chunk → HashMap ChunkHash Chunk
keep_first c m = or_insert (lookup c.sha m) c m

unfoldable pub index_chunks : List Chunk → HashMap ChunkHash Chunk → HashMap ChunkHash Chunk
index_chunks [] m = m
index_chunks (c ∷ cs) m = index_chunks cs (keep_first c m)

module _ (api : DepotApi) where
  unfoldable pub index_files : List DepotFile → HashMap ChunkHash Chunk → HashMap ChunkHash Chunk
  unfolding index_chunks
  index_files [] m = m
  index_files (f ∷ fs) m = index_files fs (index_chunks (api.chunks f) m)

  pub record CdnChunkStore : Type 0 where
    pub depot_id : ℕ
    pub chunk_index : HashMap ChunkHash Chunk

  unfoldable pub new : ℕ → Manifest → CdnChunkStore
  unfolding index_files
  new depot_id m = record { depot_id = depot_id; chunk_index = index_files m.files [] }

  module _ {W : Type 0} (net : Network W) (store : CdnChunkStore) where
    -- `m.await?`, then the rest.
    abbrev and_then : {A : Type 0} → Result A × W → (A → W → Result Bytes × W) → Result Bytes × W
    and_then (ok a, w) f = f a w
    and_then (err e, w) f = (err e, w)
    and_then (panicked, w) f = (panicked, w)

    unfoldable pub get : ChunkHash → W → Result Bytes × W
    get sha w = elim (lookup sha store.chunk_index) [
      | none ↦ (err (chunk_not_in_manifest sha), w)
      | some chunk ↦ and_then (net.depot_key w) λ key w1.
          and_then (net.resolve w1)
            λ connection w2. net.fetch_chunk connection store.depot_id chunk key w2
    ]

    abbrev pub cdn_store : ChunkStore W
    cdn_store = record { get = get; ensure = ensure_by_get get }
