-- ===== src/ManifestCache/Saved.antt =====
-- What crates/steam-depot-vfs/src/manifest_cache.rs loads after it has saved, and what a file that does
-- not decode becomes.
use steam_depot_vfs.Prelude.{ℕ, ◌≡◌, refl, sym, ap, ◌∙◌, Option, some, none, list_eq, nat_eq}
use mathlib.Core.Option.{some-injective}
use steam_depot_vfs.Depot.{Bytes, Text, Manifest}
use steam_depot_vfs.Outcome.{Outcome, ok, err, panicked, ok-injective}
use steam_depot_vfs.ManifestCache.Cached.{to_cached, from_cached, from_cached-to_cached}
use steam_depot_vfs.ManifestCache.{
  Op, io, found, FilesApi, FilesLaws, Postcard, PostcardLaw, Result, io_result, encode_result,
  depot_dir, path_for, tmp_for, decode_or_remove, load, after_call, call, save, creating, writing,
  renaming, removing,
}

module _ {D : Type 0} (api : FilesApi D) (postcard : Postcard) (root : Text) where
  after_call-ok :
      {A : Type 0} (r : Result A × D) (f : A → D → Result (Unit {0}) × D)
      → (after_call api postcard root r f).0 ≡ ok tt
      → (a : A) × (r.0 ≡ ok a) × (after_call api postcard root r f ≡ f a r.1)
  after_call-ok (ok a, d) f h = (a, refl, refl)
  after_call-ok (err e, d) f h = absurd cc
  after_call-ok (panicked, d) f h = absurd cc

  io_result-ok :
      (op : Op) (path : Text) (r : Option ℕ) (u : Unit {0}) → io_result op path r ≡ ok u → r ≡ none
  io_result-ok op path none u h = refl
  io_result-ok op path (some e) u h = absurd cc

  encode_result-ok : (r : Outcome Text Bytes) (b : Bytes) → encode_result r ≡ ok b → r ≡ ok b
  encode_result-ok (ok a) b h = ap ok (ok-injective a b h)
  encode_result-ok (err e) b h = absurd cc
  encode_result-ok panicked b h = absurd cc

  module _ (laws : FilesLaws api) (pid app_id : ℕ) (m : Manifest) (d : D) where
    abbrev path : Text
    path = path_for root app_id m.depot_id m.manifest_id

    abbrev saved : Result (Unit {0}) × D
    saved = save api postcard root pid app_id m d

    -- A save that succeeds leaves the encoded manifest at its path.
    save-content :
        saved.0 ≡ ok tt
        → (b : Bytes) × (postcard.to_allocvec (to_cached m) ≡ ok b)
          × (laws.content saved.1 path ≡ some b)
    unfolding save
    save-content h =
        let tmp = tmp_for root pid app_id m.depot_id m.manifest_id in
        let d1 = (api.create_dir_all (depot_dir root app_id m.depot_id) d).1 in
        let (_, _, e1) =
          after_call-ok
            (call api postcard root creating (depot_dir root app_id m.depot_id)
              (api.create_dir_all (depot_dir root app_id m.depot_id) d))
            _ h in
        let h1 = sym (ap (λ (x : Result (Unit {0}) × D). x.0) e1) ∙ h in
        let (b, enc, e2) =
          after_call-ok (encode_result (postcard.to_allocvec (to_cached m)), d1) _ h1 in
        let h2 = sym (ap (λ (x : Result (Unit {0}) × D). x.0) e2) ∙ h1 in
        let (_, wrote, e3) =
          after_call-ok (call api postcard root writing tmp (api.write tmp b d1)) _ h2 in
        let h3 = sym (ap (λ (x : Result (Unit {0}) × D). x.0) e3) ∙ h2 in
        let d3 = (api.write tmp b d1).1 in
        (
          b,
          encode_result-ok _ b enc,
          ap (λ (x : Result (Unit {0}) × D). laws.content x.1 path) (e1 ∙ e2 ∙ e3)
              ∙ laws.rename_ok tmp path d3 (io_result-ok renaming path _ tt h3)
              ∙ laws.write_ok tmp b d1 (io_result-ok writing tmp _ tt wrote),
        )

    -- A manifest that `save` has saved is loaded again as it was, if its file can be read.
    pub load-save :
        PostcardLaw postcard
        → (b : Bytes) → saved.0 ≡ ok tt
        → (api.read (path_for root app_id m.depot_id m.manifest_id) saved.1).0 ≡ found b
        → (load api postcard root app_id m.depot_id m.manifest_id saved.1).0 ≡ ok (some m)
    load-save law b h r =
        let (b', enc, there) = save-content h in
        let same : b' ≡ b = some-injective b' b (sym there ∙ laws.read_found path saved.1 b r) in
        let dec : postcard.from_bytes b ≡ some (to_cached m) =
          ap postcard.from_bytes (sym same) ∙ law (to_cached m) b' enc in
        let q : (load api postcard root app_id m.depot_id m.manifest_id saved.1).0
            ≡ ok (some (from_cached (to_cached m))) =
          unfold load decode_or_remove in rw (r, dec, load, decode_or_remove) refl in
        q ∙ ap (λ (x : Manifest). ok (some x)) (from_cached-to_cached m)

  -- A file that can be read but does not decode counts as absent, and is removed; if it cannot be
  -- removed, the load fails.
  pub load-stale :
      (app_id depot_id manifest_id : ℕ) (b : Bytes) (d : D) (laws : FilesLaws api)
      → let path = path_for root app_id depot_id manifest_id in
        let res = load api postcard root app_id depot_id manifest_id d in
        (api.read path d).0 ≡ found b
        → postcard.from_bytes b ≡ none
        → ((api.remove_file path (api.read path d).1).0 ≡ none
            → (res.0 ≡ ok none) × (laws.content res.1 path ≡ none))
          × ((e : ℕ)
              → (api.remove_file path (api.read path d).1).0 ≡ some e
              → res.0 ≡ err (io removing path e))
  load-stale app_id depot_id manifest_id b d laws r stale = (
    λ gone.
        unfold load decode_or_remove in
        rw (r, stale, gone, load, decode_or_remove)
          (
            refl,
            laws.remove_ok (path_for root app_id depot_id manifest_id)
                (api.read (path_for root app_id depot_id manifest_id) d).1 gone,
          ),
    λ e kept. unfold load decode_or_remove in rw (r, stale, kept, load, decode_or_remove) refl,
  )
