-- ===== src/View/Children.antt =====
-- The children of a directory of a snapshot, in crates/steam-depot-mount/src/view.rs: a lookup by name
-- against a search through the manifest.
use mathlib.Core.Option.{or_else, some-injective}
use mathlib.Core.Option
use steam_depot_vfs.Prelude.{
  ℕ, suc, ◌+◌, ◌-◌, ◌≤◌, ◌<◌, ◌^◌, ◌≡◌, refl, sym, ap, ◌∙◌, arith, false, List, [], ◌∷◌, ◌++◌,
  Option, some, none, get_elem?, get_elem?-lt, length, Option-cases, Bool-cases, inl, inr,
  if◌then◌else◌, ◌==◌, nat_eq, list_eq,
}
use steam_depot_vfs.Depot.{Text, DepotFile, Manifest, DepotApi}
use steam_depot_vfs.Inode.{pack, unpack, index_mask}
use steam_depot_vfs.Inode.Packing.{unpack-pack}
use steam_depot_vfs.Fs.{index_of}
use steam_depot_vfs.Fs
use steam_depot_vfs.Fs.Paths.{strip_leading_slash}
use steam_depot_vfs.Fs.Index.{last_place, lookup-new}
use steam_depot_vfs.Tree.{SnapshotEntry}
use steam_depot_vfs.View.{
  Node, join, path_within_snapshot, nth_file, snapshot_node, snapshot_child, kind_of,
}

-- The path of a child: the directory's, which is empty for the root, a slash and the name.
abbrev pub child_path : Text → Text → Text
child_path [] name = name
child_path (c ∷ dir) name = c ∷ dir ++ b'/' ∷ name

-- The last file of a path, with its place, counted from `i`.
abbrev pub last_file : ℕ → Text → List DepotFile → Option (ℕ × DepotFile)
last_file i p [] = none
last_file i p (f ∷ fs) =
    or_else (last_file (suc i) p fs) (if f.path == p then some (i, f) else none)

last_place-none :
    (i : ℕ) (p : Text) (fs : List DepotFile) → last_file i p fs ≡ none → last_place i p fs ≡ none
unfolding last_place or_else
last_place-none i p [] h = refl
last_place-none i p (f ∷ fs) h = elim (Option-cases (last_file (suc i) p fs)) [
  | inl e ↦ rw (last_place-none (suc i) p fs e) (ground (arith, e, h))
  | inr (q, e) ↦ absurd (ground (arith, e, h))
]

last_place-some :
    (i : ℕ) (p : Text) (fs : List DepotFile) (j : ℕ) (f : DepotFile)
    → last_file i p fs ≡ some (j, f)
    → (last_place i p fs ≡ some j) × (i ≤ j) × (get_elem? fs (j - i) ≡ some f)
unfolding last_place or_else
last_place-some i p [] j f h = absurd cc
last_place-some i p (g ∷ fs) j f h = elim (Option-cases (last_file (suc i) p fs)) [
  | inl e ↦ elim (Bool-cases (g.path == p)) [
    | inl same ↦
        let q : ◌≡◌ {A = ℕ × DepotFile} (i, g) (j, f) =
          some-injective (i, g) (j, f) (sym (rw (e, same) refl) ∙ h) in
        let k : i ≡ j = ap (λ (x : ℕ × DepotFile). x.0) q in
        let z : j - i ≡ 0 = omega arith in
        (
          rw (last_place-none (suc i) p fs e, same) (ap some k),
          omega arith,
          rw z (ap (λ (x : ℕ × DepotFile). some x.1) q),
        )
    | inr other ↦ absurd (ground (arith, e, h, other))
  ]
  | inr ((k, f'), e) ↦
      let q : ◌≡◌ {A = ℕ × DepotFile} (k, f') (j, f) =
        some-injective (k, f') (j, f) (sym (rw e refl) ∙ h) in
      let (placed, above, there) = last_place-some (suc i) p fs j f (e ∙ ap some q) in
      let z : j - i ≡ suc (j - suc i) = omega arith in (rw placed refl, omega arith, rw z there)
]

-- The node of a file and its place in the manifest.
abbrev pub node_of : DepotApi → Manifest → ℕ → ℕ × DepotFile → Node
node_of api m sid (i, f) = record {
  ino = pack sid (i + 1);
  kind = kind_of (api.file_type f) (api.executable f) (api.linktarget f);
  size = f.size;
  mtime_secs = m.creation_time;
}

joins : (dir name : Text) → join dir name ≡ child_path dir name
unfolding join
joins [] name = refl
joins (c ∷ dir) name = refl

module _ (api : DepotApi) (m : Manifest) where
  abbrev pub entry : SnapshotEntry
  entry = record { snapshot = Fs.new m }

  files_new : entry.snapshot.manifest.files ≡ m.files
  unfolding Fs.new
  files_new = refl

  third : (i : ℕ) → (i + 1 == 0) ≡ false
  third i = ground arith

  file_after :
      (i : ℕ) (f : DepotFile) → get_elem? m.files i ≡ some f → nth_file entry (i + 1) ≡ some f
  file_after i f h =
      let e : i + 1 - 1 ≡ i = omega arith in
      ap (λ (n : ℕ). get_elem? entry.snapshot.manifest.files n) e
      ∙ ap (λ (l : List DepotFile). get_elem? l i) files_new
      ∙ h

  node_at :
      (sid i : ℕ) (f : DepotFile)
      → sid < 2 ^ 16
      → i + 1 ≤ index_mask
      → get_elem? m.files i ≡ some f
      → snapshot_node api entry (pack sid (i + 1)) ≡ some (node_of api m sid (i, f))
  unfolding Fs.new
  node_at sid i f small fits there =
      let u : (unpack (pack sid (i + 1))).1 ≡ i + 1 =
        ap (λ (p : ℕ × ℕ). p.1) (unpack-pack sid (i + 1) small fits) in
      unfold snapshot_node in rw (u, third i, file_after i f there) refl

  -- A lookup of `name` in a directory of a snapshot, by the index, finds what a search through the
  -- manifest finds: the node of the last file whose path is the directory's, a slash and the name
  -- (in the root, the name), with its attributes and the inode of its place; or nothing, when there
  -- is no such file. (The path does not begin with a slash, and a manifest has fewer than 2 ^ 48 files.)
  pub snapshot_child_lem :
      (parent : ℕ) (name dir : Text)
      → (unpack parent).0 < 2 ^ 16
      → length m.files ≤ index_mask
      → path_within_snapshot entry (unpack parent).1 ≡ some dir
      → strip_leading_slash (child_path dir name) ≡ child_path dir name
      → snapshot_child api entry parent name
        ≡ Option.map (node_of api m (unpack parent).0) (last_file 0 (child_path dir name) m.files)
  snapshot_child_lem parent name dir small fits at plain =
      let found : index_of entry.snapshot (join dir name)
          ≡ last_place 0 (child_path dir name) m.files =
        unfold index_of in
        lookup-new m (strip_leading_slash (join dir name))
        ∙ ap (λ p. last_place 0 p m.files) (ap strip_leading_slash (joins dir name) ∙ plain) in
      elim (Option-cases (last_file 0 (child_path dir name) m.files)) [
        | inl e ↦
            let q = found ∙ last_place-none 0 _ m.files e in
            unfold snapshot_child in rw (at, q, e, snapshot_child) refl
        | inr ((i, f), e) ↦
            let (placed, _, there) = last_place-some 0 _ m.files i f e in
            let z : i - 0 ≡ i = omega arith in
            let here : get_elem? m.files i ≡ some f = rw (← z) there in
            let inside : i + 1 ≤ index_mask = omega (arith, get_elem?-lt m.files i here) in
            let q = found ∙ placed in
            unfold snapshot_child in
            rw (at, q, e, snapshot_child) (node_at (unpack parent).0 i f small inside here)
      ]
