-- ===== src/DepotKeys/Tests.antt =====
-- Runs of crates/steam-depot-vfs/src/depot_key_cache.rs.
use steam_depot_vfs.Prelude.{ℕ, ◌+◌, ◌*◌, ◌≡◌, refl, nat_eq, list_eq, list_beq}
use steam_depot_vfs.Prelude.Maps.{lookup, insert}
use steam_depot_vfs.Outcome.{ok}
use steam_depot_vfs.DepotKeys.{Session, DepotKeyMemoryCache, new, get_lazy, get}
use steam_depot_vfs.DepotKeys.Once.{asks, here, next, answered, key_once}

-- A session that counts what it is asked for; the key of a depot changes with the count.
abbrev counting : Session (ℕ × ℕ)
counting = record {
  resolve = λ w. (ok 5, (w.0 + 1, w.1));
  depot_key = λ connection app_id depot_id w. (ok (100 * depot_id + w.1), (w.0, w.1 + 1));
}

abbrev asked : DepotKeyMemoryCache
asked = (get_lazy 7 1 new).1

first : (get counting (get_lazy 7 8 asked).0 (get_lazy 7 8 asked).1 (0, 3)).0 ≡ ok 803
unfolding get get_lazy lookup insert list_beq
first = refl

abbrev had : DepotKeyMemoryCache
had = (get counting (get_lazy 7 8 asked).0 (get_lazy 7 8 asked).1 (0, 3)).1

abbrev other : DepotKeyMemoryCache
other = (get_lazy 9 9 had).1

key_once_example :
    get counting (get_lazy 7 8 other).0 (get_lazy 7 8 other).1 (4, 4)
    ≡ answered counting 803 other (counting.resolve (4, 4))
key_once_example =
    key_once counting 7 8 803 asked (0, 3) (next here (asks 7 1 new)) first other (4, 4)
      (next here (asks 9 9 had))
