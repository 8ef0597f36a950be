-- ===== src/Tree/Tests.antt =====
-- Runs of crates/steam-depot-mount/src/tree.rs on a tree with one manifest, with openers that are numbers.
use steam_depot_vfs.Prelude.{
  ℕ, ◌≡◌, ◌≢◌, ◌↔◌, arith, refl, List, [], ◌∷◌, Option, some, none, list_beq,
}
use steam_depot_vfs.Prelude.Maps
use steam_depot_vfs.Prelude.Decimal.{to_string}
use steam_depot_vfs.Outcome.{ok, err}
use steam_depot_vfs.Inode.{pack, unpack}
use steam_depot_vfs.Tree.{
  Slot, SlotState, MountTree, new, pending, already_mounted, children_of, change_children,
  path_upto, path_of_synthetic, add_synthetic, ensure_synthetic, ensure_depot, fill_slot,
  reserve_slot, add_lazy, remove, find, slot, detach,
}
use steam_depot_vfs.Tree.Matching.{IsFor}
use steam_depot_vfs.Tree.Abstract.{nothing_mounted}
use steam_depot_vfs.Tree.Runs.{Request, adds_lazy, removes, run, promised, tree_refines}
use steam_depot_vfs.Tree.Changes.{done, step, take_out}
use steam_depot_vfs.Tree.Ids.{Later, ids_stable}

abbrev state : SlotState ℕ
state = pending (record { opener = 4; cell = none })

abbrev mounted : Slot ℕ
mounted = record {
  app_id = 10;
  depot_id = 20;
  manifest_gid = 30;
  state = state;
  creation_time = none;
}

abbrev one : MountTree ℕ
one = record new { slots = none ∷ some mounted ∷ [] }

-- What is added is found, is not added again, and is not found after its removal.
add_run :
    let (id, t) = add_lazy {O = ℕ} new 10 20 30 4 none in
    (id ≡ ok 1)
    × (find t 10 20 30 ≡ ok (some 1))
    × ((add_lazy t 10 20 30 5 none).0 ≡ err (already_mounted 10 20 30))
    × (find (remove t 1).1 10 20 30 ≡ ok none)
unfolding add_lazy reserve_slot ensure_depot ensure_synthetic add_synthetic path_of_synthetic
    path_upto children_of change_children fill_slot find remove detach slot to_string Maps.lookup
    Maps.insert Maps.remove list_beq pack unpack
add_run = (refl, refl, refl, refl)

is_mounted : slot one 1 ≡ some mounted
unfolding slot
is_mounted = refl

ids_stable_example :
    Later one (remove one 1).1 1
    × ((a d g : ℕ) (st : SlotState ℕ) (hint : Option ℕ) (new_id : ℕ)
        → (reserve_slot (remove one 1).1 a d g st hint).0 ≡ ok new_id
        → new_id ≢ 1)
ids_stable_example =
    ids_stable one (remove one 1).1 1 mounted is_mounted
      (step one (remove one 1).1 done (take_out 1))

is_empty : slot one 0 ≡ none
unfolding slot
is_empty = refl

abbrev calls : List (Request ℕ)
calls =
    adds_lazy 10 20 30 4 none
    ∷ adds_lazy 10 20 30 5 none
    ∷ adds_lazy 10 21 30 6 none
    ∷ removes 1
    ∷ adds_lazy 10 20 30 7 none
    ∷ []

-- A triple is not added twice, and after its removal it gets a new id.
tree_refines_example :
    let (answers, t) = run calls new in
    let (promises, m) = promised calls nothing_mounted in
    (answers ≡ ok 1 ∷ err (already_mounted 10 20 30) ∷ ok 2 ∷ ok 3 ∷ [])
    × ((a d g : ℕ) → find t a d g ≡ ok (m.ids a d g))
    × ((a d g id : ℕ)
        → (m.ids a d g ≡ some id) ↔ ((s : Slot ℕ) × (slot t id ≡ some s) × IsFor s a d g))
    × ((id : ℕ) → (remove t id).0 ≡ ok (slot t id))
tree_refines_example = tree_refines calls (omega arith)
