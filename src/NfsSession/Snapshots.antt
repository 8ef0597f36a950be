-- ===== src/NfsSession/Snapshots.antt =====
-- What an `NfsMount` of crates/steam-depot-mount/src/nfs_session.rs does to its tree: `add`, `add_lazy` and
-- `remove`, each under the lock of the tree.
use steam_depot_vfs.Prelude.{ℕ, Bool, true, false, Option, none, some, ◌≡◌, ap}
use steam_depot_vfs.Outcome.{ok, err, panicked}
use steam_depot_vfs.Fs.{DepotManifestStore}
use steam_depot_vfs.Tree.{Result, Slot, MountTree, slot}
use steam_depot_vfs.Tree
use steam_depot_vfs.Tree.Valid.{IsValid}
use steam_depot_vfs.Tree.Refines.{remove-answer}

module _ {O : Type 0} where
  unfoldable pub add :
      MountTree O → (app_id depot_id manifest_gid : ℕ) → DepotManifestStore → Result ℕ × MountTree O
  unfolding Tree.add
  add tree app_id depot_id manifest_gid snapshot =
      Tree.add tree app_id depot_id manifest_gid snapshot

  unfoldable pub add_lazy :
      MountTree O → (app_id depot_id manifest_gid : ℕ) → O → Option ℕ → Result ℕ × MountTree O
  unfolding Tree.add_lazy
  add_lazy tree app_id depot_id manifest_gid opener creation_time =
      Tree.add_lazy tree app_id depot_id manifest_gid opener creation_time

  abbrev pub is_some : Option (Slot O) → Bool
  is_some none = false
  is_some (some s) = true

  abbrev was_there : Result (Option (Slot O)) → Result Bool
  was_there (ok s) = ok (is_some s)
  was_there (err e) = err e
  was_there panicked = panicked

  unfoldable pub remove : MountTree O → ℕ → Result Bool × MountTree O
  unfolding Tree.remove
  remove tree id = let (removed, tree') = Tree.remove tree id in (was_there removed, tree')

  -- `remove` tells whether the id had a snapshot.
  remove_tells :
      (tree : MountTree O) (id : ℕ)
      → IsValid tree
      → (remove tree id).0 ≡ ok (is_some (slot tree id))
  unfolding remove
  remove_tells tree id valid = ap was_there (remove-answer tree id valid)
