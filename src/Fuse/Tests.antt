-- ===== src/Fuse/Tests.antt =====
-- Runs of crates/steam-depot-mount/src/fuse.rs.
use steam_depot_vfs.Prelude.{
  ℕ, ◌+◌, ◌^◌, ◌-◌, ◌≡◌, ◌≢◌, refl, Bool, List, [], ◌∷◌, some, none, leb, length, get_elem?,
}
use steam_depot_vfs.Outcome.{Outcome, err, panicked}
use steam_depot_vfs.Depot.{Text}
use steam_depot_vfs.Inode.{unpack}
use steam_depot_vfs.Inode
use steam_depot_vfs.Fs.{DepotManifestStore}
use steam_depot_vfs.Fs.Tests.{file_a, manifest, api, store}
use steam_depot_vfs.Fs
use steam_depot_vfs.Tree.{SnapshotEntry, MountTree, Slot, ready, slot}
use steam_depot_vfs.View.{Listing, dir_node, slot_lookup, is_ready}
use steam_depot_vfs.Nfs.{io}
use steam_depot_vfs.Nfs
use steam_depot_vfs.Fuse.{DirEntry, emit_readdir, all_entries, lookup}
use steam_depot_vfs.Fuse.Paging.{numbered, read_all}
use steam_depot_vfs.Fuse.Agrees.{fileid_of, lookup_agrees}

abbrev two : Listing
two = (b'a' ∷ [], dir_node 5 0) ∷ (b'b' ∷ [], dir_node 7 0) ∷ []

-- A buffer of two entries.
abbrev full : List DirEntry → DirEntry → Bool
full added e = leb 2 (length added)

pages_run : read_all full 5 1 two 0 ≡ some (numbered 0 (all_entries 1 two))
unfolding read_all emit_readdir
pages_run = refl

abbrev pub no_opener : ℕ → Unit {0} → Outcome Text DepotManifestStore × (Unit {0})
no_opener o w = (err [], w)

abbrev pub entry : SnapshotEntry
entry = record { snapshot = Fs.new manifest }

abbrev pub open_slot : Slot ℕ
open_slot = record {
  app_id = 1;
  depot_id = 1;
  manifest_gid = 2;
  state = ready entry;
  creation_time = some 0;
}

abbrev tree : MountTree ℕ
tree = record { synthetic = []; synth_by_path = []; slots = none ∷ some open_slot ∷ [] }

abbrev ino_a : ℕ
ino_a = 2 ^ 48 + 1

is_open : slot_lookup tree (unpack ino_a).0 ≡ is_ready entry
unfolding slot_lookup slot unpack
is_open = refl

in_snapshot : (unpack ino_a).0 ≢ Inode.synthetic
unfolding unpack
in_snapshot = λ e. cc

not_root : (unpack ino_a).1 ≢ 0
unfolding unpack
not_root = λ e. cc

is_file_a : get_elem? manifest.files ((unpack ino_a).1 - 1) ≡ some file_a
unfolding unpack
is_file_a = refl

at_files : get_elem? entry.snapshot.manifest.files ((unpack ino_a).1 - 1) ≡ some file_a
unfolding Fs.new
at_files = is_file_a

lookup_agrees_example :
    let f = lookup api no_opener store (tree, tt, tt) ino_a [] in
    let n = Nfs.lookup api no_opener store (tree, tt, tt) ino_a [] in
    (f.0 ≢ panicked → fileid_of f.0 ≡ n.0)
    × (f.0 ≡ panicked → n.0 ≡ err io)
    × (f.1 ≡ n.1)
    × (f.2 ≡ n.2)
    × (f.3 ≡ n.3)
lookup_agrees_example = lookup_agrees api no_opener store tree tt tt ino_a []
