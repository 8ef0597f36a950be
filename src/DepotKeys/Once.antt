-- ===== src/DepotKeys/Once.antt =====
-- A key is asked for once, in crates/steam-depot-vfs/src/depot_key_cache.rs.
use steam_depot_vfs.Prelude.{
  ℕ, ◌≡◌, ◌≢◌, refl, sym, ap, subst, ◌∙◌, arith, [], ◌∷◌, Option, some, none, get_elem?, nat_eq,
  list_eq, get_elem?-set_self, get_elem?-set_ne, length-set,
}
use steam_depot_vfs.Prelude.Maps.{lookup}
use steam_depot_vfs.Outcome.{ok, err, panicked, ok-injective}
use steam_depot_vfs.ChunkStore.{Result}
use steam_depot_vfs.DepotKeys.{
  new, Session, DepotKeyMemoryCache, LazyDepotKey, lazy_key, cell_or_new, get_lazy, fill,
  get_or_try_init, connected, get,
}
use steam_depot_vfs.DepotKeys.Cells.{
  IsKnown, IsSound, same_value, ask-IsKnown, ask-IsSound, cell_or_new-has_cell,
}

-- What any users of the cache do, one call after the other; each call meets its own outside.
pub data Use {W : Type 0} (session : Session W)
    : DepotKeyMemoryCache → DepotKeyMemoryCache → Type 0 where
  asks :
      (app_id depot_id : ℕ) (s : DepotKeyMemoryCache) → Use session s (get_lazy app_id depot_id s).1
  gets : (l : LazyDepotKey) (s : DepotKeyMemoryCache) (w : W) → Use session s (get session l s w).1

pub data Uses {W : Type 0} (session : Session W) (s : DepotKeyMemoryCache)
    : DepotKeyMemoryCache → Type 0 where
  here : Uses session s s
  next : {t u : DepotKeyMemoryCache} → Uses session s t → Use session t u → Uses session s u

module _ {W : Type 0} (session : Session W) where
  fill-IsKnown :
      (app_id depot_id k cell : ℕ) (r : Result ℕ × W) (s : DepotKeyMemoryCache)
      (h : IsKnown app_id depot_id k s)
      → cell ≢ h.cell
      → IsKnown app_id depot_id k (fill session cell r s).1
  fill-IsKnown app_id depot_id k cell (ok v, w) s h other = record {
    cell = h.cell;
    has_cell = h.has_cell;
    has_value = get_elem?-set_ne s.values cell h.cell (some v) other ∙ h.has_value;
  }
  fill-IsKnown app_id depot_id k cell (err e, w) s h other = h
  fill-IsKnown app_id depot_id k cell (panicked, w) s h other = h

  init-IsKnown :
      (app_id depot_id k : ℕ) (o : Option (Option ℕ)) (l : LazyDepotKey) (c : ℕ)
      (s : DepotKeyMemoryCache) (w : W)
      → get_elem? s.values l.depot_key_cell ≡ o
      → IsKnown app_id depot_id k s
      → IsKnown app_id depot_id k (get_or_try_init session o l c s w).1
  init-IsKnown app_id depot_id k (some (some v)) l c s w e h = h
  init-IsKnown app_id depot_id k (some none) l c s w e h =
      fill-IsKnown app_id depot_id k l.depot_key_cell (session.depot_key c l.app_id l.depot_id w) s
        h (λ q. absurd (let f = ap (λ n. get_elem? s.values n) q in let g = h.has_value in cc))
  init-IsKnown app_id depot_id k none l c s w e h =
      fill-IsKnown app_id depot_id k l.depot_key_cell (session.depot_key c l.app_id l.depot_id w) s
        h (λ q. absurd (let f = ap (λ n. get_elem? s.values n) q in let g = h.has_value in cc))

  connected-IsKnown :
      (app_id depot_id k : ℕ) (l : LazyDepotKey) (r : Result ℕ × W) (s : DepotKeyMemoryCache)
      → IsKnown app_id depot_id k s
      → IsKnown app_id depot_id k (connected session l r s).1
  connected-IsKnown app_id depot_id k l (ok c, w) s h =
      init-IsKnown app_id depot_id k (get_elem? s.values l.depot_key_cell) l c s w refl h
  connected-IsKnown app_id depot_id k l (err e, w) s h = h
  connected-IsKnown app_id depot_id k l (panicked, w) s h = h

  get-IsKnown :
      (app_id depot_id k : ℕ) (l : LazyDepotKey) (s : DepotKeyMemoryCache) (w : W)
      → IsKnown app_id depot_id k s
      → IsKnown app_id depot_id k (get session l s w).1
  get-IsKnown app_id depot_id k l s w h =
      unfold get in connected-IsKnown app_id depot_id k l (session.resolve w) s h

  fill-IsSound :
      (cell : ℕ) (r : Result ℕ × W) (s : DepotKeyMemoryCache)
      → IsSound s
      → IsSound (fill session cell r s).1
  fill-IsSound cell (ok v, w) s h =
      λ key c found. omega (arith, h key c found, length-set s.values cell (some v))
  fill-IsSound cell (err e, w) s h = h
  fill-IsSound cell (panicked, w) s h = h

  init-IsSound :
      (o : Option (Option ℕ)) (l : LazyDepotKey) (c : ℕ) (s : DepotKeyMemoryCache) (w : W)
      → IsSound s
      → IsSound (get_or_try_init session o l c s w).1
  init-IsSound (some (some v)) l c s w h = h
  init-IsSound (some none) l c s w h =
      fill-IsSound l.depot_key_cell (session.depot_key c l.app_id l.depot_id w) s h
  init-IsSound none l c s w h =
      fill-IsSound l.depot_key_cell (session.depot_key c l.app_id l.depot_id w) s h

  connected-IsSound :
      (l : LazyDepotKey) (r : Result ℕ × W) (s : DepotKeyMemoryCache)
      → IsSound s
      → IsSound (connected session l r s).1
  connected-IsSound l (ok c, w) s h = init-IsSound (get_elem? s.values l.depot_key_cell) l c s w h
  connected-IsSound l (err e, w) s h = h
  connected-IsSound l (panicked, w) s h = h

  Use-IsSound : {s t : DepotKeyMemoryCache} → Use session s t → IsSound s → IsSound t
  Use-IsSound (asks a d s) h = ask-IsSound a d s h
  Use-IsSound (gets l s w) h = unfold get in connected-IsSound l (session.resolve w) s h

  Uses-IsSound : {s t : DepotKeyMemoryCache} → Uses session s t → IsSound s → IsSound t
  Uses-IsSound here h = h
  Uses-IsSound (next before last) h = Use-IsSound last (Uses-IsSound before h)

  Use-IsKnown :
      (app_id depot_id k : ℕ) {s t : DepotKeyMemoryCache}
      → Use session s t
      → IsKnown app_id depot_id k s
      → IsKnown app_id depot_id k t
  Use-IsKnown app_id depot_id k (asks a d s) h = ask-IsKnown app_id depot_id k a d s h
  Use-IsKnown app_id depot_id k (gets l s w) h = get-IsKnown app_id depot_id k l s w h

  Uses-IsKnown :
      (app_id depot_id k : ℕ) {s t : DepotKeyMemoryCache}
      → Uses session s t
      → IsKnown app_id depot_id k s
      → IsKnown app_id depot_id k t
  Uses-IsKnown app_id depot_id k here h = h
  Uses-IsKnown app_id depot_id k (next before last) h =
      Use-IsKnown app_id depot_id k last (Uses-IsKnown app_id depot_id k before h)

  module _ (app_id depot_id k cell : ℕ) (s : DepotKeyMemoryCache) (sound : IsSound s)
      (has : lookup (app_id ∷ depot_id ∷ []) s.cells ≡ some cell) where
    filled :
        (r : Result ℕ × W)
        → (fill session cell r s).0 ≡ ok k
        → IsKnown app_id depot_id k (fill session cell r s).1
    filled (ok v, w) h = record {
      cell = cell;
      has_cell = has;
      has_value =
          get_elem?-set_self s.values cell (some v) (sound (app_id ∷ depot_id ∷ []) cell has)
          ∙ ap (λ x. some (some x)) (ok-injective v k h);
    }
    filled (err e, w) h = absurd cc
    filled (panicked, w) h = absurd cc

    initialised :
        (o : Option (Option ℕ)) (c : ℕ) (w : W)
        → get_elem? s.values cell ≡ o
        → (get_or_try_init session o (lazy_key cell app_id depot_id) c s w).0 ≡ ok k
        → IsKnown app_id depot_id k
            (get_or_try_init session o (lazy_key cell app_id depot_id) c s w).1
    initialised (some (some v)) c w e h = record {
      cell = cell;
      has_cell = has;
      has_value = e ∙ ap (λ x. some (some x)) (ok-injective v k h);
    }
    initialised (some none) c w e h = filled (session.depot_key c app_id depot_id w) h
    initialised none c w e h = filled (session.depot_key c app_id depot_id w) h

    known_after :
        (r : Result ℕ × W)
        → (connected session (lazy_key cell app_id depot_id) r s).0 ≡ ok k
        → IsKnown app_id depot_id k (connected session (lazy_key cell app_id depot_id) r s).1
    known_after (ok c, w) h = initialised (get_elem? s.values cell) c w refl h
    known_after (err e, w) h = absurd cc
    known_after (panicked, w) h = absurd cc

  -- A known key, once the session is resolved; nothing else is asked for.
  abbrev pub answered : ℕ → DepotKeyMemoryCache → Result ℕ × W → Result ℕ × DepotKeyMemoryCache × W
  answered k s (ok c, w) = (ok k, s, w)
  answered k s (err e, w) = (err e, s, w)
  answered k s (panicked, w) = (panicked, s, w)

  connected-known :
      (app_id depot_id k cell : ℕ) (r : Result ℕ × W) (s : DepotKeyMemoryCache)
      → get_elem? s.values cell ≡ some (some k)
      → connected session (lazy_key cell app_id depot_id) r s ≡ answered k s r
  connected-known app_id depot_id k cell (ok c, w) s h = rw h refl
  connected-known app_id depot_id k cell (err e, w) s h = refl
  connected-known app_id depot_id k cell (panicked, w) s h = refl

  known_cell :
      (app_id depot_id k : ℕ) (o : Option ℕ) (s : DepotKeyMemoryCache)
      (h : IsKnown app_id depot_id k s)
      → lookup (app_id ∷ depot_id ∷ []) s.cells ≡ o
      → cell_or_new o (app_id ∷ depot_id ∷ []) s ≡ (h.cell, s)
  known_cell app_id depot_id k (some c) s h e =
      ap (λ x. (x, s)) (same_value _ _ (sym e ∙ h.has_cell))
  known_cell app_id depot_id k none s h e = absurd (let g = h.has_cell in cc)

  get_lazy-known :
      (app_id depot_id k : ℕ) (s : DepotKeyMemoryCache) (h : IsKnown app_id depot_id k s)
      → get_lazy app_id depot_id s ≡ (lazy_key h.cell app_id depot_id, s)
  get_lazy-known app_id depot_id k s h =
      unfold get_lazy in
      ap (λ (p : ℕ × DepotKeyMemoryCache). (lazy_key p.0 app_id depot_id, p.1))
        (known_cell app_id depot_id k (lookup (app_id ∷ depot_id ∷ []) s.cells) s h refl)

  get_known :
      (app_id depot_id k : ℕ) (s : DepotKeyMemoryCache) (w : W)
      → IsKnown app_id depot_id k s
      → let (l, t) = get_lazy app_id depot_id s in
        get session l t w ≡ answered k s (session.resolve w)
  get_known app_id depot_id k s w h =
      ap (λ (p : LazyDepotKey × DepotKeyMemoryCache). get session p.0 p.1 w)
        (get_lazy-known app_id depot_id k s h)
      ∙ unfold get in connected-known app_id depot_id k h.cell (session.resolve w) s h.has_value

  first_get :
      (app_id depot_id k : ℕ) (s : DepotKeyMemoryCache) (w : W)
      → IsSound s
      → let (l, t) = get_lazy app_id depot_id s in
        (get session l t w).0 ≡ ok k → IsKnown app_id depot_id k (get session l t w).1
  first_get app_id depot_id k s w sound =
      let (l, t) = get_lazy app_id depot_id s in
      let key = app_id ∷ depot_id ∷ [] in
      let cell : ℕ = (cell_or_new (lookup key s.cells) key s).0 in
      let has : lookup key t.cells ≡ some cell =
        unfold get_lazy in cell_or_new-has_cell (lookup key s.cells) key s refl in
      let lazy : l ≡ lazy_key cell app_id depot_id = unfold get_lazy in refl in
      subst
        (λ (x : LazyDepotKey).
          (get session x t w).0 ≡ ok k → IsKnown app_id depot_id k (get session x t w).1)
        (sym lazy)
        (unfold get in
          known_after app_id depot_id k cell t (ask-IsSound app_id depot_id s sound) has
            (session.resolve w))

  -- Once the key of a depot was obtained, it is never asked for again: whatever is done with the keys
  -- of this and other depots in between, a later request for it resolves the session, and if that
  -- succeeds returns the same key and leaves the cache and the outside as they are.
  pub key_once :
      (app_id depot_id k : ℕ) (s : DepotKeyMemoryCache) (w : W)
      → Uses session new s
      → let (l, t) = get_lazy app_id depot_id s in
        (get session l t w).0 ≡ ok k
        → (u : DepotKeyMemoryCache) (v : W) → Uses session (get session l t w).1 u
        → let (l', u') = get_lazy app_id depot_id u in
          get session l' u' v ≡ answered k u (session.resolve v)
  key_once app_id depot_id k s w uses h u v later =
      let start : IsSound new = λ key c found. unfold lookup in absurd cc in
      let known = first_get app_id depot_id k s w (Uses-IsSound uses start) h in
      get_known app_id depot_id k u v (Uses-IsKnown app_id depot_id k later known)
