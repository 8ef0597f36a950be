-- ===== src/View/Tests.antt =====
-- Runs of crates/steam-depot-mount/src/view.rs.
use steam_depot_vfs.Prelude.{
  ℕ, ◌+◌, ◌<◌, ◌≡◌, refl, arith, [], ◌∷◌, some, none, if◌then◌else◌, ◌==◌, nat_eq,
}
use mathlib.Core.Option
use steam_depot_vfs.Depot.{Text}
use steam_depot_vfs.Outcome.{Outcome, ok, err, panicked}
use steam_depot_vfs.Fs.{DepotManifestStore, index_of, index_files}
use steam_depot_vfs.Fs
use steam_depot_vfs.Fs.Tests.{manifest, api}
use steam_depot_vfs.Tree.{LazyEntry, Slot, MountTree, pending, slot}
use steam_depot_vfs.Tree
use steam_depot_vfs.Fs.Paths.{strip_leading_slash}
use steam_depot_vfs.Inode.{pack, unpack}
use steam_depot_vfs.View.{
  path_within_snapshot, snapshot_child, slot_lookup, is_ready, is_pending, resolve,
}
use steam_depot_vfs.View.Children.{entry, child_path, last_file, node_of, snapshot_child_lem}
use steam_depot_vfs.View.Resolve.{resolve_lem}

root_path : path_within_snapshot (entry api manifest) (unpack (pack 1 0)).1 ≡ some []
unfolding path_within_snapshot pack unpack
root_path = refl

small_id : (unpack (pack 1 0)).0 < 65536
unfolding pack unpack
small_id = omega arith

abbrev name_a : Text
name_a = b'a' ∷ []

no_slash : strip_leading_slash (child_path [] name_a) ≡ child_path [] name_a
unfolding strip_leading_slash
no_slash = refl

snapshot_child_example :
    snapshot_child api (entry api manifest) (pack 1 0) name_a
    ≡ Option.map
        (node_of api manifest (unpack (pack 1 0)).0)
        (last_file 0 (child_path [] name_a) manifest.files)
snapshot_child_example =
    snapshot_child_lem api manifest (pack 1 0) name_a [] small_id (omega arith) root_path no_slash

abbrev unopened : LazyEntry ℕ
unopened = record { opener = 4; cell = none }

abbrev lazy_slot : Slot ℕ
lazy_slot = record {
  app_id = 10;
  depot_id = 20;
  manifest_gid = 30;
  state = pending unopened;
  creation_time = none;
}

abbrev lazy_tree : MountTree ℕ
lazy_tree = record Tree.new { slots = none ∷ some lazy_slot ∷ [] }

-- An opener that counts its runs, and fails in the first.
abbrev second_try : ℕ → ℕ → Outcome Text DepotManifestStore × ℕ
second_try o w = (if w == 0 then err [] else ok (Fs.new manifest), w + 1)

there : slot lazy_tree 1 ≡ some lazy_slot
unfolding slot
there = refl

resolve_example :
    ((st : DepotManifestStore)
      → (second_try 4 0).0 ≡ ok st
      → let res = resolve second_try lazy_tree unopened 1 0 in
        (res.0 ≡ ok (record { snapshot = st }))
        × (slot_lookup res.1 1 ≡ is_ready (record { snapshot = st }))
        × (res.2 ≡ (second_try 4 0).1))
    × ((e : Text)
        → (second_try 4 0).0 ≡ err e
        → let res = resolve second_try lazy_tree unopened 1 0 in
          (res.0 ≡ err e)
          × (slot_lookup res.1 1 ≡ is_pending (record unopened { cell = some (err e) }))
          × (res.2 ≡ (second_try 4 0).1))
    × ((second_try 4 0).0 ≡ panicked
        → resolve second_try lazy_tree unopened 1 0 ≡ (panicked, lazy_tree, (second_try 4 0).1))
resolve_example = resolve_lem second_try lazy_tree lazy_slot unopened 1 0 there refl refl

abbrev failed_once : LazyEntry ℕ
failed_once = record { opener = 4; cell = some (err []) }
