-- ===== src/DepotKeys.antt =====
-- crates/steam-depot-vfs/src/depot_key_cache.rs: the keys of the depots, fetched when they are first needed.
-- A `OnceCell` behind an `Arc` is a place in a list of cells; the connection is a parameter, on the
-- state `W` of the outside.
pub mod Cells
pub mod Once
mod Tests
use steam_depot_vfs.Prelude.{
  ℕ, ◌+◌, List, [], ◌∷◌, ◌++◌, Option, some, none, length, get_elem?, set, nat_eq, list_eq,
}
use steam_depot_vfs.Prelude.Maps.{HashMap, lookup, insert}
use steam_depot_vfs.Outcome.{Outcome, ok, err, panicked}
use steam_depot_vfs.ChunkStore.{Result}

-- What a resolved session gives: `resolve` a connection, `depot_key` the key of a depot over it.
pub record Session (W : Type 0) : Type 0 where
  pub resolve : W → Result ℕ × W
  pub depot_key : (connection app_id depot_id : ℕ) → W → Result ℕ × W

pub record DepotKeyMemoryCache : Type 0 where
  pub cells : HashMap (List ℕ) ℕ
  pub values : List (Option ℕ)

abbrev pub new : DepotKeyMemoryCache
new = record { cells = []; values = [] }

pub record LazyDepotKey : Type 0 where
  pub depot_key_cell : ℕ
  pub app_id : ℕ
  pub depot_id : ℕ

abbrev pub lazy_key : ℕ → ℕ → ℕ → LazyDepotKey
lazy_key cell app_id depot_id = record {
  depot_key_cell = cell;
  app_id = app_id;
  depot_id = depot_id;
}

-- The cell of a depot, or a new one.
abbrev pub cell_or_new : Option ℕ → List ℕ → DepotKeyMemoryCache → ℕ × DepotKeyMemoryCache
cell_or_new (some cell) key s = (cell, s)
cell_or_new none key s = (
  length s.values,
  record { cells = insert key (length s.values) s.cells; values = s.values ++ none ∷ [] },
)

unfoldable pub get_lazy :
    (app_id depot_id : ℕ) → DepotKeyMemoryCache → LazyDepotKey × DepotKeyMemoryCache
get_lazy app_id depot_id s =
    let key = app_id ∷ depot_id ∷ [] in
    let (cell, s') = cell_or_new (lookup key s.cells) key s in (lazy_key cell app_id depot_id, s')

module _ {W : Type 0} (session : Session W) where
  -- What fetching the key leaves in the cell: nothing, if it fails.
  abbrev pub fill : ℕ → Result ℕ × W → DepotKeyMemoryCache → Result ℕ × DepotKeyMemoryCache × W
  fill cell (ok k, w) s = (ok k, record s { values = set s.values cell (some k) }, w)
  fill cell (err e, w) s = (err e, s, w)
  fill cell (panicked, w) s = (panicked, s, w)

  -- `get_or_try_init`, with what the cell holds; a cell that is not there is an empty one.
  abbrev pub get_or_try_init :
      Option (Option ℕ)
      → LazyDepotKey
      → ℕ
      → DepotKeyMemoryCache
      → W
      → Result ℕ × DepotKeyMemoryCache × W
  get_or_try_init (some (some k)) l connection s w = (ok k, s, w)
  get_or_try_init _ l connection s w =
      fill l.depot_key_cell (session.depot_key connection l.app_id l.depot_id w) s

  abbrev pub connected :
      LazyDepotKey → Result ℕ × W → DepotKeyMemoryCache → Result ℕ × DepotKeyMemoryCache × W
  connected l (ok connection, w) s =
      get_or_try_init (get_elem? s.values l.depot_key_cell) l connection s w
  connected l (err e, w) s = (err e, s, w)
  connected l (panicked, w) s = (panicked, s, w)

  -- `LazyDepotKey::get`: the session is resolved first, also when the key is known.
  unfoldable pub get : LazyDepotKey → DepotKeyMemoryCache → W → Result ℕ × DepotKeyMemoryCache × W
  get l s w = connected l (session.resolve w) s

  -- `DepotKeyMemoryCache::get`
  abbrev pub get_key :
      (app_id depot_id : ℕ) → DepotKeyMemoryCache → W → Result ℕ × DepotKeyMemoryCache × W
  get_key app_id depot_id s w = let (l, t) = get_lazy app_id depot_id s in get l t w
