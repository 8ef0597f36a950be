-- ===== src/Nfs/Tests.antt =====
-- Runs of crates/steam-depot-mount/src/nfs.rs.
use steam_depot_vfs.Prelude.{ℕ, ◌+◌, ◌≡◌, min, refl, arith, [], ◌∷◌, map, some, leb}
use steam_depot_vfs.Outcome.{Outcome, ok, err}
use steam_depot_vfs.Depot.{Text}
use steam_depot_vfs.Fs.{DepotManifestStore}
use steam_depot_vfs.Fs.Read.Slices.{between}
use steam_depot_vfs.Fs.Tests.{
  content, file_a, manifest, api, store, Inv, Good, faithful, holds, found_a,
}
use steam_depot_vfs.Fs
use steam_depot_vfs.Tree.{SnapshotEntry}
use steam_depot_vfs.View.{Listing, dir_node}
use steam_depot_vfs.Nfs.{dir_entry, read_file_at}
use steam_depot_vfs.Nfs.Paging.{Distinct, read_all, read_all_lem}
use steam_depot_vfs.Nfs.Reads.{read_file_at_lem}

abbrev three : Listing
three = (b'a' ∷ [], dir_node 5 0) ∷ (b'b' ∷ [], dir_node 7 0) ∷ (b'c' ∷ [], dir_node 6 0) ∷ []

three-Distinct : Distinct three
three-Distinct = (λ e. cc, (λ e. cc, (λ e. cc, tt)), (λ e. cc, (λ e. cc, tt), (λ e. cc, tt, tt)))

read_all_example : read_all 4 three 0 2 ≡ some (map dir_entry three)
read_all_example = read_all_lem three 2 4 (omega arith) three-Distinct (omega arith)

abbrev no_opener : ℕ → Unit {0} → Outcome Text DepotManifestStore × (Unit {0})
no_opener o w = (err [], w)

abbrev entry : SnapshotEntry
entry = record { snapshot = Fs.new manifest }

read_file_at_example :
    (read_file_at {O = ℕ} {W = Unit {0}} api no_opener store entry file_a 1 9 tt).0
    ≡ ok (between 1 (min (1 + 9) 3) content, leb 3 (1 + 9))
read_file_at_example =
    read_file_at_lem store Inv Good faithful api no_opener entry file_a content found_a holds
      (λ sha t h i. (content, refl)) 1 9 tt tt
