-- ===== src/Nfs/Reads.antt =====
-- What `read_file_at` of crates/steam-depot-mount/src/nfs.rs answers.
use native.Mathlib.Decide.{dec_lt}
use steam_depot_vfs.Prelude.{
  ℕ, ◌+◌, ◌-◌, ◌≤◌, ◌<◌, ◌≡◌, min, refl, ap, ◌∙◌, arith, Bool, true, false, [], leb, length,
}
use steam_depot_vfs.Depot.{Bytes, Text, ChunkHash, DepotFile, DepotApi}
use steam_depot_vfs.Outcome.{Outcome, ok}
use steam_depot_vfs.ChunkStore.{ChunkStore, IsFaithful}
use steam_depot_vfs.Fs.{DepotManifestStore}
use steam_depot_vfs.Fs.Read.{find_file}
use steam_depot_vfs.Fs.Read.Slices.{between, between_empty, length-between}
use steam_depot_vfs.Fs.Read.Layout.{HasSha, HoldsContent}
use steam_depot_vfs.Fs.Read.Content.{read_into-total}
use steam_depot_vfs.Tree.{SnapshotEntry}
use steam_depot_vfs.Nfs.{Result, read_file_at}

not_end : (size offset : ℕ) → offset < size → leb size offset ≡ false
not_end size offset h = ground arith

at_end : (size offset : ℕ) → size ≤ offset → leb size offset ≡ true
at_end size offset h = ground arith

module _ {S : Type 0} (store : ChunkStore S) (Inv : S → Type 0) (Good : ChunkHash → Bytes → Type 0)
    (faithful : IsFaithful Inv Good store) (api : DepotApi) {O W : Type 0}
    (open_manifest : O → W → Outcome Text DepotManifestStore × W) (entry : SnapshotEntry)
    (f : DepotFile) (content : Bytes) (found : find_file entry.snapshot f.path ≡ ok f)
    (holds : HoldsContent Good api f content) where
  abbrev answer : ℕ → ℕ → S → Result (Bytes × Bool) × S
  answer offset count s =
      read_file_at {O = O} {W = W} api open_manifest store entry f offset count s

  past : (offset count : ℕ) (s : S) → f.size ≤ offset → answer offset count s ≡ (ok ([], true), s)
  past offset count s h = unfold read_file_at in rw (at_end f.size offset h) refl

  -- A `read` of a file whose content the store has, at any offset, also past the end of the file:
  -- the bytes from the offset on, `count` of them or up to the end of the file, and whether they
  -- reach the end.
  pub read_file_at_lem :
      ((sha : ChunkHash) (t : S)
        → HasSha sha (api.chunks f)
        → Inv t
        → (b : Bytes) × ((store.get sha t).0 ≡ ok b))
      → (offset count : ℕ) (s : S) → Inv s
      → (answer offset count s).0
        ≡ ok (between offset (min (offset + count) f.size) content, leb f.size (offset + count))
  read_file_at_lem has offset count s inv = elim (dec_lt offset f.size) [
    | no h ↦
        ap (λ (r : Result (Bytes × Bool) × S). r.0) (past offset count s (omega arith))
        ∙ rw
            (
              between_empty offset (min (offset + count) f.size) content (omega arith),
              at_end f.size (offset + count) (omega arith),
            )
            refl
    | yes h ↦
        let len = min count (f.size - offset) in
        let e : min (offset + len) f.size ≡ min (offset + count) f.size = omega (arith, h) in
        let total =
          read_into-total store Inv Good faithful api entry.snapshot f.path f content found holds
            offset len [] s (omega arith) (omega (arith, holds.small)) (omega (arith, holds.small))
            has inv in
        let size =
          length-between offset (min (offset + len) f.size) content (omega arith)
            (omega (arith, holds.sized)) in
        let stop : leb f.size (offset + length (between offset (min (offset + len) f.size) content))
            ≡ leb f.size (offset + count) =
          ground (arith, size, h) in
        unfold read_file_at in rw (not_end f.size offset h, total, stop, e) refl
  ]
