-- ===== src/ProjfsSource/Tests.antt =====
-- Runs of crates/steam-depot-mount/src/projfs.rs, on the path "1\1\2\a".
use steam_depot_vfs.Prelude.{ℕ, ◌+◌, ◌^◌, ◌≡◌, min, refl, list_beq, [], ◌∷◌, false, some, none}
use steam_depot_vfs.Prelude.Maps.{lookup}
use steam_depot_vfs.Prelude.Decimal.{to_string}
use steam_depot_vfs.Depot.{Text}
use steam_depot_vfs.Outcome.{ok}
use steam_depot_vfs.Inode.{unpack}
use steam_depot_vfs.Fs.{is_root}
use steam_depot_vfs.Fs.Read.Slices.{between}
use steam_depot_vfs.Fs.Tests.{content, file_a, api, store, Inv, Good, faithful, holds, found_a}
use steam_depot_vfs.Tree.{SyntheticDir, MountTree, slot, find}
use steam_depot_vfs.View.{slot_lookup}
use steam_depot_vfs.Fuse.Tests.{no_opener, entry, open_slot}
use steam_depot_vfs.ProjfsSource.{components, parse_triple, join_components, resolve, read_file}
use steam_depot_vfs.ProjfsSource.Reads.{read_file_lem}

abbrev digit1 : Text
digit1 = b'1' ∷ []

abbrev digit2 : Text
digit2 = b'2' ∷ []

abbrev path_a : Text
path_a = b'1' ∷ 0x5C ∷ b'1' ∷ 0x5C ∷ b'2' ∷ 0x5C ∷ b'a' ∷ []

abbrev folder : SyntheticDir
folder = record { parent = none; name = []; children = [] }

abbrev tree : MountTree ℕ
tree = record {
  synthetic =
      folder
      ∷ folder
      ∷ record { parent = some 1; name = digit1; children = (digit2, 2 ^ 48) ∷ [] }
      ∷ [];
  synth_by_path = (b'/' ∷ b'1' ∷ b'/' ∷ b'1' ∷ [], 2) ∷ [];
  slots = none ∷ some open_slot ∷ [];
}

parts_run : components path_a ≡ digit1 ∷ digit1 ∷ digit2 ∷ (b'a' ∷ []) ∷ []
unfolding components list_beq
parts_run = refl

triple_run : parse_triple (digit1 ∷ digit1 ∷ digit2 ∷ (b'a' ∷ []) ∷ []) ≡ some (1, 1, 2)
unfolding parse_triple
triple_run = refl

resolve_run :
    resolve api no_opener store (1, 1, 2) (tree, tt, tt) ≡ (some (some entry), tree, tt, tt)
unfolding resolve find lookup list_beq to_string unpack slot_lookup slot
resolve_run = refl

below_root : is_root (b'a' ∷ []) ≡ false
unfolding list_beq
below_root = refl

joined_run : join_components ((b'a' ∷ []) ∷ []) ≡ b'a' ∷ []
unfolding join_components
joined_run = refl

read_file_example :
    (read_file api no_opener store path_a 1 9 (tree, tt, tt)).0
    ≡ ok (between 1 (min (1 + 9) 3) content)
read_file_example =
    read_file_lem store Inv Good faithful api no_opener entry (b'a' ∷ []) file_a content found_a
      below_root refl holds (λ sha t h i. (content, refl)) path_a digit1 digit1 digit2 (b'a' ∷ [])
      [] (1, 1, 2) tree tree tt tt tt 1 9 parts_run joined_run triple_run resolve_run tt
