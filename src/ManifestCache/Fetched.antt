-- ===== src/ManifestCache/Fetched.antt =====
-- Where the manifest comes from that `get_or_fetch` of crates/steam-depot-vfs/src/manifest_cache.rs
-- returns.
use steam_depot_vfs.Prelude.{
  ℕ, ◌≡◌, ◌⊎◌, refl, sym, ap, subst, ◌∙◌, List, [], ◌∷◌, Option, some, none, inl, inr, list_eq,
  nat_eq, ==_iff,
}
use steam_depot_vfs.Prelude.Maps.{HashMap, lookup, remove, lookup-remove}
use steam_depot_vfs.Depot.{Text, Manifest}
use steam_depot_vfs.Outcome.{
  Outcome, ok, err, panicked, ok-injective, Outcome-cases, is_ok, is_err, is_panic,
}
use steam_depot_vfs.ManifestCache.{
  CacheError, FilesApi, Postcard, Result, load, save, Fetching, loaded_or, enter, fetch_and_save,
  get_or_fetch,
}

module _ {D : Type 0} (api : FilesApi D) (postcard : Postcard) (root : Text) {W E : Type 0}
    (from_cache : CacheError → E) (pid : ℕ) (fetch : W → Outcome E Manifest × W)
    (wait : HashMap (List ℕ) (Unit {0}) × D × W → HashMap (List ℕ) (Unit {0}) × D × W) where
  abbrev InFlight : Type 0
  InFlight = HashMap (List ℕ) (Unit {0})

  loaded_or-ok :
      (l : Result (Option Manifest) × D) (in_flight : InFlight) (w : W)
      (rest : D → Outcome E Manifest × InFlight × D × W) (m : Manifest)
      → (loaded_or api postcard root from_cache pid fetch wait l in_flight w rest).0 ≡ ok m
      → (l.0 ≡ ok (some m))
        ⊎ ((rest l.1).0 ≡ ok m)
          × (loaded_or api postcard root from_cache pid fetch wait l in_flight w rest ≡ rest l.1)
  loaded_or-ok (ok (some x), d) in_flight w rest m h =
      inl (ap (λ v. ok (some v)) (ok-injective x m h))
  loaded_or-ok (ok none, d) in_flight w rest m h = inr (h, refl)
  loaded_or-ok (err e, d) in_flight w rest m h = absurd cc
  loaded_or-ok (panicked, d) in_flight w rest m h = absurd cc

  -- `m` was fetched and saved, and the key of its fetch is gone.
  abbrev pub Saved : List ℕ → ℕ → Manifest → Outcome E Manifest × InFlight × D × W → Type 0
  Saved key app_id m r =
      (w : W) × (d : D) × ((fetch w).0 ≡ ok m)
      × ((save api postcard root pid app_id m d).0 ≡ ok tt)
      × (r.2 ≡ (save api postcard root pid app_id m d).1)
      × (lookup key r.1 ≡ none)

  fetch_and_save-ok :
      (key : List ℕ) (app_id : ℕ) (in_flight : InFlight) (d : D) (w : W) (m : Manifest)
      → let r =
          fetch_and_save api postcard root from_cache pid fetch wait key app_id in_flight d w in
        r.0 ≡ ok m → Saved key app_id m r
  fetch_and_save-ok key app_id in_flight d w m h =
      let all =
        fetch_and_save api postcard root from_cache pid fetch wait key app_id in_flight d w in
      elim (Outcome-cases ((fetch w).0)) [
        | is_err e q ↦
            absurd
              (let t : all.0 ≡ err e = unfold fetch_and_save in rw (q, fetch_and_save) refl in cc)
        | is_panic q ↦
            absurd (
              let t : all.0 ≡ panicked = unfold fetch_and_save in rw (q, fetch_and_save) refl in cc)
        | is_ok x q ↦ elim (Outcome-cases ((save api postcard root pid app_id x d).0)) [
          | is_err e s ↦ absurd (
              let t : all.0 ≡ err (from_cache e) =
                unfold fetch_and_save in rw (q, s, fetch_and_save) refl in
              cc)
          | is_panic s ↦ absurd (
              let t : all.0 ≡ panicked = unfold fetch_and_save in rw (q, s, fetch_and_save) refl in
              cc)
          | is_ok u s ↦
              let t : all ≡ (
                ok x,
                remove key in_flight,
                (save api postcard root pid app_id x d).1,
                (fetch w).1,
              ) =
                unfold fetch_and_save in rw (q, s, fetch_and_save) refl in
              let same : x ≡ m = ok-injective x m (
                sym (ap (λ (r : Fetching api postcard root from_cache pid fetch wait). r.0) t)
                ∙ h) in
              subst (λ y. Saved key app_id y all) same
                (
                  w,
                  d,
                  q,
                  s,
                  ap (λ (r : Fetching api postcard root from_cache pid fetch wait). r.2) t,
                  ap (λ (r : Fetching api postcard root from_cache pid fetch wait). lookup key r.1)
                        t
                      ∙ lookup-remove key key in_flight
                      ∙ rw ((==_iff key key).1 refl) refl,
                )
        ]
      ]

  -- A manifest that `get_or_fetch` returns was loaded from its file, before or after the wait for the
  -- lock of its key, or was fetched and saved by this call; in the last case the files are as the save
  -- left them and the key is no longer in flight.
  pub get_or_fetch_lem :
      (app_id depot_id manifest_id : ℕ) (in_flight : InFlight) (d : D) (w : W) (m : Manifest)
      → let key = app_id ∷ depot_id ∷ manifest_id ∷ [] in
        let first = load api postcard root app_id depot_id manifest_id d in
        let second =
          load api postcard root app_id depot_id manifest_id
            (wait
              (enter api postcard root from_cache pid fetch wait key in_flight, first.1, w)).1 in
        let r =
          get_or_fetch api postcard root from_cache pid fetch wait app_id depot_id manifest_id
            in_flight d w in
        r.0 ≡ ok m → (first.0 ≡ ok (some m)) ⊎ (second.0 ≡ ok (some m)) ⊎ Saved key app_id m r
  unfolding get_or_fetch
  get_or_fetch_lem app_id depot_id manifest_id in_flight d w m h =
      let key = app_id ∷ depot_id ∷ manifest_id ∷ [] in
      let first = load api postcard root app_id depot_id manifest_id d in
      let waited =
        wait (enter api postcard root from_cache pid fetch wait key in_flight, first.1, w) in
      let second = load api postcard root app_id depot_id manifest_id waited.1 in
      elim (loaded_or-ok first in_flight w _ m h) [
        | inl e ↦ inl e
        | inr (h1, e1) ↦ elim (loaded_or-ok second waited.0 waited.2 _ m h1) [
          | inl e ↦ inr (inl e)
          | inr (h2, e2) ↦ inr (
              inr (
                subst (Saved key app_id m) (sym (e1 ∙ e2))
                  (fetch_and_save-ok key app_id waited.0 second.1 waited.2 m h2)))
        ]
      ]
