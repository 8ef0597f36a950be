-- ===== src/DepotStore.antt =====
-- crates/steam-depot-vfs/src/context.rs: `DepotStore`, which puts the manifest cache, the depot keys, the CDN
-- and the chunk cache together. The file system and the connection are parameters, on the states `D`
-- and `W`.
pub mod Directories
pub mod Listing
pub mod Opening
pub mod Reading
mod Tests
use steam_depot_vfs.Prelude.{
  ℕ, ◌+◌, ◌-◌, ◌*◌, ◌^◌, Bool, List, [], ◌∷◌, ◌++◌, Option, some, none, length, if◌then◌else◌, leb,
  ◌&&◌, drop, take, ◌==◌, nat_eq, list_eq, ◌⊎◌, inl, inr,
}
use steam_depot_vfs.Prelude.Maps.{HashMap}
use steam_depot_vfs.Prelude.Decimal.{parse_uint}
use steam_depot_vfs.Depot.{Bytes, Text, Chunk, ChunkHash, DepotApi, Manifest}
use steam_depot_vfs.Outcome.{Outcome, ok, err, panicked, ◌>>=◌}
use steam_depot_vfs.ChunkStore.{ChunkStore, Result, VfsError, manifest_cache}
use steam_depot_vfs.Fs.Paths.{join_base}
use steam_depot_vfs.Fs.{DepotManifestStore}
use steam_depot_vfs.Fs
use steam_depot_vfs.ManifestCache.{FilesApi, Postcard, CacheError, load, get_or_fetch}
use steam_depot_vfs.Cdn.{Network, CdnChunkStore, cdn_store}
use steam_depot_vfs.Cdn
use steam_depot_vfs.DepotKeys.{Session, DepotKeyMemoryCache, LazyDepotKey, get_lazy}
use steam_depot_vfs.DepotKeys

abbrev pub chunks_dir : Text
chunks_dir = b'c' ∷ b'h' ∷ b'u' ∷ b'n' ∷ b'k' ∷ b's' ∷ []

abbrev pub chunks_root : Text → Text
chunks_root root = join_base root chunks_dir

abbrev pub manifests_root : Text → Text
manifests_root root =
    join_base root (b'm' ∷ b'a' ∷ b'n' ∷ b'i' ∷ b'f' ∷ b'e' ∷ b's' ∷ b't' ∷ b's' ∷ [])

-- The connection: the session, and the fetches of the client.
pub record Client (W : Type 0) : Type 0 where
  pub session : Session W
  pub fetch_manifest :
      (connection app_id depot_id manifest_gid : ℕ) (branch : Text) (key : ℕ)
      → W
      → Result Manifest × W
  pub fetch_chunk : (connection depot_id : ℕ) → Chunk → (key : ℕ) → W → Result Bytes × W

-- The state of a `DepotStore` but for its chunk directory: the keys, the manifests that are being
-- fetched, and the files.
pub record DepotStore (D : Type 0) : Type 0 where
  pub depot_keys : DepotKeyMemoryCache
  pub in_flight : HashMap (List ℕ) (Unit {0})
  pub files : D

-- What a snapshot is made of; `FsCacheStore` goes over the wrapped CDN store.
pub record Snapshot (api : DepotApi) : Type 0 where
  pub manifest_store : DepotManifestStore
  pub cdn : CdnChunkStore api
  pub depot_key : LazyDepotKey

module _ {D W : Type 0} (api : DepotApi) (files : FilesApi D) (postcard : Postcard)
    (client : Client W) (root : Text) (pid : ℕ) (code_of : CacheError → ℕ)
    (wait : HashMap (List ℕ) (Unit {0}) × D × (DepotKeyMemoryCache × W)
      → HashMap (List ℕ) (Unit {0}) × D × (DepotKeyMemoryCache × W)) where
  -- `m.await?`, then the rest.
  abbrev and_then :
      {A B : Type 0}
      → Result A × (DepotKeyMemoryCache × W)
      → (A → DepotKeyMemoryCache × W → Result B × (DepotKeyMemoryCache × W))
      → Result B × (DepotKeyMemoryCache × W)
  and_then (ok a, s) f = f a s
  and_then (err e, s) f = (err e, s)
  and_then (panicked, s) f = (panicked, s)

  abbrev with_keys :
      {A : Type 0} → DepotKeyMemoryCache → Result A × W → Result A × (DepotKeyMemoryCache × W)
  with_keys keys (r, w) = (r, (keys, w))

  abbrev got_key : Result ℕ × DepotKeyMemoryCache × W → Result ℕ × (DepotKeyMemoryCache × W)
  got_key (r, keys, w) = (r, (keys, w))

  -- What the CDN store of a snapshot calls.
  unfoldable pub network : LazyDepotKey → Network (DepotKeyMemoryCache × W)
  network depot_key = record {
    depot_key = λ (keys, w). got_key (DepotKeys.get client.session depot_key keys w);
    resolve = λ (keys, w). with_keys keys (client.session.resolve w);
    fetch_chunk = λ connection depot_id chunk key (keys, w).
        with_keys keys (client.fetch_chunk connection depot_id chunk key w);
  }

  -- The closure that fetches a manifest.
  unfoldable pub fetch :
      (app_id depot_id manifest_gid : ℕ) (branch : Text)
      → LazyDepotKey
      → DepotKeyMemoryCache × W
      → Result Manifest × (DepotKeyMemoryCache × W)
  fetch app_id depot_id manifest_gid branch depot_key (keys, w) =
      and_then (got_key (DepotKeys.get client.session depot_key keys w)) λ key (keys1, w1).
        and_then (with_keys keys1 (client.session.resolve w1)) λ connection (keys2, w2).
          with_keys keys2
            (client.fetch_manifest connection app_id depot_id manifest_gid branch key w2)

  abbrev pub Got : Type 0
  Got = Result Manifest × HashMap (List ℕ) (Unit {0}) × D × (DepotKeyMemoryCache × W)

  unfoldable pub get_manifest :
      (app_id depot_id manifest_gid : ℕ) (branch : Text) → LazyDepotKey → DepotStore D → W → Got
  unfolding fetch get_or_fetch
  get_manifest app_id depot_id manifest_gid branch depot_key s w =
      get_or_fetch files postcard (manifests_root root) (λ e. manifest_cache (code_of e)) pid
        (fetch app_id depot_id manifest_gid branch depot_key) wait app_id depot_id manifest_gid
        s.in_flight s.files (s.depot_keys, w)

  abbrev pub snapshot_from : ℕ → LazyDepotKey → Got → Result (Snapshot api) × DepotStore D × W
  snapshot_from depot_id depot_key (ok m, in_flight, d, (keys, w)) = (
    ok (record { manifest_store = Fs.new m; cdn = Cdn.new api depot_id m; depot_key = depot_key }),
    record { depot_keys = keys; in_flight = in_flight; files = d },
    w,
  )
  snapshot_from depot_id depot_key (err e, in_flight, d, (keys, w)) =
      (err e, record { depot_keys = keys; in_flight = in_flight; files = d }, w)
  snapshot_from depot_id depot_key (panicked, in_flight, d, (keys, w)) =
      (panicked, record { depot_keys = keys; in_flight = in_flight; files = d }, w)

  unfoldable pub open_depot_manifest :
      (app_id depot_id manifest_gid : ℕ) (branch : Text)
      → DepotStore D
      → W
      → Result (Snapshot api) × DepotStore D × W
  unfolding get_manifest get_lazy
  open_depot_manifest app_id depot_id manifest_gid branch s w =
      let (depot_key, keys) = get_lazy app_id depot_id s.depot_keys in
      snapshot_from depot_id depot_key (
        get_manifest app_id depot_id manifest_gid branch depot_key (record s { depot_keys = keys })
          w)

  -- The chunk store that goes below the chunk cache; `wrap_cdn` is the caller's.
  abbrev pub wrapped :
      (ChunkStore (DepotKeyMemoryCache × W) → ChunkStore (DepotKeyMemoryCache × W))
      → Snapshot api
      → ChunkStore (DepotKeyMemoryCache × W)
  wrapped wrap_cdn snapshot = wrap_cdn (cdn_store api (network snapshot.depot_key) snapshot.cdn)
