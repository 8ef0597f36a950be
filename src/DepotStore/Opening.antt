-- ===== src/DepotStore/Opening.antt =====
-- `open_depot_manifest` of crates/steam-depot-vfs/src/context.rs.
use steam_depot_vfs.Prelude.{ℕ, ◌≡◌, refl, List, some}
use steam_depot_vfs.Prelude.Maps.{HashMap}
use steam_depot_vfs.Depot.{Text, DepotApi, Manifest}
use steam_depot_vfs.Outcome.{ok}
use steam_depot_vfs.Fs
use steam_depot_vfs.Cdn
use steam_depot_vfs.ManifestCache.{FilesApi, Postcard, CacheError, load, get_or_fetch, loaded_or}
use steam_depot_vfs.DepotKeys.{DepotKeyMemoryCache, get_lazy}
use steam_depot_vfs.DepotStore.{
  Client, DepotStore, manifests_root, get_manifest, open_depot_manifest,
}

module _ {D W : Type 0} (api : DepotApi) (files : FilesApi D) (postcard : Postcard)
    (client : Client W) (root : Text) (pid : ℕ) (code_of : CacheError → ℕ)
    (wait : HashMap (List ℕ) (Unit {0}) × D × (DepotKeyMemoryCache × W)
      → HashMap (List ℕ) (Unit {0}) × D × (DepotKeyMemoryCache × W)) where
  -- A manifest that is in its file is opened offline: the snapshot has this manifest, for the files and
  -- for the chunk index of the CDN store, and the connection is not used.
  pub open_offline :
      (app_id depot_id manifest_gid : ℕ) (branch : Text) (s : DepotStore D) (w : W) (m : Manifest)
      (d : D)
      → load files postcard (manifests_root root) app_id depot_id manifest_gid s.files
        ≡ (ok (some m), d)
      → let (depot_key, keys) = get_lazy app_id depot_id s.depot_keys in
        open_depot_manifest api files postcard client root pid code_of wait app_id depot_id
          manifest_gid branch s w
        ≡ (
          ok (record {
            manifest_store = Fs.new m;
            cdn = Cdn.new api depot_id m;
            depot_key = depot_key;
          }),
          record { depot_keys = keys; in_flight = s.in_flight; files = d },
          w,
        )
  open_offline app_id depot_id manifest_gid branch s w m d h =
      unfold open_depot_manifest get_manifest get_or_fetch in rw (h, loaded_or) refl
