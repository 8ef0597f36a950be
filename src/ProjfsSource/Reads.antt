-- ===== src/ProjfsSource/Reads.antt =====
-- What `read_file` of crates/steam-depot-mount/src/projfs.rs returns.
use native.Mathlib.Decide.{dec_lt}
use steam_depot_vfs.Prelude.{
  ℕ, ◌+◌, ◌-◌, ◌≡◌, min, refl, ap, ◌∙◌, arith, list_eq, nat_eq, true, false, List, [], ◌∷◌, Option,
  some, leb, ltb, length,
}
use steam_depot_vfs.Prelude.Maps.{lookup}
use steam_depot_vfs.Depot.{Bytes, Text, ChunkHash, DepotFile, FileType, DepotApi}
use steam_depot_vfs.Outcome.{Outcome, ok, err, panicked, ◌>>=◌, index, ok_or}
use steam_depot_vfs.ChunkStore.{ChunkStore, IsFaithful}
use steam_depot_vfs.Fs.{DepotManifestStore, not_found_error, is_root, meta_of, metadata}
use steam_depot_vfs.Fs.Paths.{strip_leading_slash}
use steam_depot_vfs.Fs.Read.{find_file}
use steam_depot_vfs.Fs.Read
use steam_depot_vfs.Fs.Read.Slices.{between, between_empty}
use steam_depot_vfs.Fs.Read.Layout.{HasSha, HoldsContent}
use steam_depot_vfs.Fs.Read.Content.{read_into-total}
use steam_depot_vfs.Tree.{SnapshotEntry, MountTree}
use steam_depot_vfs.ProjfsSource.{
  ReadError, components, parse_triple, join_components, resolve, read_snapshot, then_read,
  read_components, read_file,
}

bind_assoc {ℓ κ μ ν} :
    {E : Type ℓ} {A : Type κ} {B : Type μ} {C : Type ν} (m : Outcome E A) (f : A → Outcome E B)
    (g : B → Outcome E C)
    → (m >>= λ a. f a >>= g) ≡ ((m >>= f) >>= g)
bind_assoc (ok a) f g = refl
bind_assoc (err e) f g = refl
bind_assoc panicked f g = refl

metadata-find_file :
    (api : DepotApi) (st : DepotManifestStore) (path : Text)
    → is_root path ≡ false
    → metadata api st path ≡ (find_file st path >>= λ f. ok (meta_of api f))
unfolding metadata find_file
metadata-find_file api st path h = rw h (
    bind_assoc
      (ok_or (not_found_error st path (strip_leading_slash path))
        (lookup (strip_leading_slash path) st.by_path))
      (λ idx. index st.manifest.files idx) (λ f. ok (meta_of api f)))

module _ {S : Type 0} (store : ChunkStore S) (Inv : S → Type 0) (Good : ChunkHash → Bytes → Type 0)
    (faithful : IsFaithful Inv Good store) (api : DepotApi) {O W : Type 0}
    (open_manifest : O → W → Outcome Text DepotManifestStore × W) (entry : SnapshotEntry)
    (rest : Text) (f : DepotFile) (content : Bytes) (found : find_file entry.snapshot rest ≡ ok f)
    (below : is_root rest ≡ false) (file : api.file_type f ≡ FileType.file)
    (holds : HoldsContent Good api f content) where
  has_metadata : metadata api entry.snapshot rest ≡ ok (meta_of api f)
  has_metadata = metadata-find_file api entry.snapshot rest below ∙ rw found refl

  abbrev part : (offset length : ℕ) → S → Outcome ReadError Bytes × S
  part offset len s = read_snapshot {O = O} {W = W} api open_manifest store rest offset len entry s

  read_snapshot_lem :
      ((sha : ChunkHash) (t : S)
        → HasSha sha (api.chunks f)
        → Inv t
        → (b : Bytes) × ((store.get sha t).0 ≡ ok b))
      → (offset len : ℕ) (s : S) → Inv s
      → (part offset len s).0 ≡ ok (between offset (min (offset + len) f.size) content)
  read_snapshot_lem has offset len s inv = elim (dec_lt offset f.size) [
    | no h ↦
        let past : leb f.size offset ≡ true = ground (arith, h) in
        unfold read_snapshot in
        rw
          (
            has_metadata,
            file,
            past,
            between_empty offset (min (offset + len) f.size) content (omega (arith, h)),
            read_snapshot,
          )
          refl
    | yes h ↦
        let inside : leb f.size offset ≡ false = ground (arith, h) in
        let n = min len (f.size - offset) in
        let e : min (offset + n) f.size ≡ min (offset + len) f.size = omega (arith, h) in
        let total =
          read_into-total store Inv Good faithful api entry.snapshot rest f content found holds
            offset n [] s (omega arith) (omega (arith, holds.small)) (omega (arith, holds.small))
            has inv in
        unfold read_snapshot Read.read in
        rw (has_metadata, file, inside, total, e, read_snapshot) refl
  ]

  -- With more than three components, and the numbers of the first three.
  read_components-inside :
      (app depot gid first : Text) (others : List Text) (triple : ℕ × ℕ × ℕ) (t : MountTree O)
      (w : W) (s : S) (offset len : ℕ)
      → parse_triple (app ∷ depot ∷ gid ∷ first ∷ others) ≡ some triple
      → read_components api open_manifest store
          (app ∷ depot ∷ gid ∷ first ∷ others)
          offset
          len
          (t, w, s)
        ≡ then_read api open_manifest store
            (join_components (first ∷ others))
            offset
            len
            (resolve api open_manifest store triple (t, w, s))
  unfolding read_components
  read_components-inside app depot gid first others triple t w s offset len numbers =
      let many : ltb (length (app ∷ depot ∷ gid ∷ first ∷ others)) 4 ≡ false = ground arith in
      rw (many, numbers) refl

  read_file_of :
      (path : Text) (offset len : ℕ) (t : MountTree O) (w : W) (s : S)
      → read_file api open_manifest store path offset len (t, w, s)
        ≡ read_components api open_manifest store (components path) offset len (t, w, s)
  unfolding read_file
  read_file_of path offset len t w s = refl

  abbrev Answer : Type 0
  Answer = Outcome ReadError Bytes × MountTree O × W × S

  -- A `read_file` of a file of a snapshot that is found and opened, whose content the store has: the
  -- bytes from the offset on, as many as asked for or up to the end of the file, and none past it.
  pub read_file_lem :
      ((sha : ChunkHash) (t : S)
        → HasSha sha (api.chunks f)
        → Inv t
        → (b : Bytes) × ((store.get sha t).0 ≡ ok b))
      → (path app depot gid first : Text) (others : List Text) (triple : ℕ × ℕ × ℕ)
        (t t' : MountTree O) (w w' : W) (s : S) (offset len : ℕ)
      → components path ≡ app ∷ depot ∷ gid ∷ first ∷ others
      → join_components (first ∷ others) ≡ rest
      → parse_triple (app ∷ depot ∷ gid ∷ first ∷ others) ≡ some triple
      → resolve api open_manifest store triple (t, w, s) ≡ (some (some entry), t', w', s)
      → Inv s
      → (read_file api open_manifest store path offset len (t, w, s)).0
        ≡ ok (between offset (min (offset + len) f.size) content)
  read_file_lem has path app depot gid first others triple t t' w w' s offset len parts joined
        numbers opened inv =
      ap (λ (r : Answer). r.0)
        (read_file_of path offset len t w s
          ∙ ap (λ (l : List Text). read_components api open_manifest store l offset len (t, w, s))
              parts
          ∙ read_components-inside app depot gid first others triple t w s offset len numbers
          ∙ ap
              (λ (r : Text).
                then_read api open_manifest store r offset len
                  (resolve api open_manifest store triple (t, w, s)))
              joined
          ∙ ap
              (λ (r : Option (Option SnapshotEntry) × MountTree O × W × S).
                then_read api open_manifest store rest offset len r)
              opened)
      ∙ read_snapshot_lem has offset len s inv
