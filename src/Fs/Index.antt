-- ===== src/Fs/Index.antt =====
-- What the index of crates/steam-depot-vfs/src/fs.rs (`DepotManifestStore::new`) answers: lookups by
-- path and the listings of directories.
use mathlib.Core.Option.{or_else}
use steam_depot_vfs.Prelude.{
  ℕ, zero, suc, ◌+◌, ◌-◌, ◌≤◌, ◌≡◌, refl, sym, ap, ◌∙◌, arith, List, [], ◌∷◌, Option, none, some,
  if◌then◌else◌, ◌==◌, ==_iff, list_eq, nat_eq, get_elem?, Option-cases, inl, inr,
}
use steam_depot_vfs.Prelude.Maps.{HashMap, lookup, lookup-insert}
use steam_depot_vfs.Depot.{Text, DepotFile, Manifest}
use steam_depot_vfs.Fs.{index_files, new, index_of}
use steam_depot_vfs.Fs.Paths.{strip_leading_slash}

-- The last place of a path, counted from `i`.
unfoldable pub last_place : ℕ → Text → List DepotFile → Option ℕ
last_place i p [] = none
last_place i p (f ∷ fs) = or_else (last_place (suc i) p fs) (if f.path == p then some i else none)

lookup-by_path :
    (i : ℕ) (p : Text) (fs : List DepotFile) (by_path : HashMap Text ℕ)
    (children : HashMap Text (List ℕ))
    → lookup p (index_files i fs (by_path, children)).0
      ≡ or_else (last_place i p fs) (lookup p by_path)
unfolding index_files last_place or_else
lookup-by_path i p [] by_path children = refl
lookup-by_path i p (f ∷ fs) by_path children =
    rw (lookup-by_path (suc i) p fs, lookup-insert f.path p i by_path) (ground arith)

last_place_sound :
    (i : ℕ) (p : Text) (fs : List DepotFile) (j : ℕ)
    → last_place i p fs ≡ some j
    → (f : DepotFile) × (i ≤ j) × (get_elem? fs (j - i) ≡ some f) × (f.path ≡ p)
unfolding last_place or_else
last_place_sound i p [] j h = absurd (ground arith)
last_place_sound i p (f ∷ fs) j h = elim (Option-cases (last_place (suc i) p fs)) [
  | inl last ↦
      let e : f.path ≡ p = ground (arith, ==_iff f.path p) in
      let k : i ≡ j = ground arith in let z : j - i ≡ 0 = omega arith in (f, omega arith, rw z, e)
  | inr (k, later) ↦
      let e : k ≡ j = ground arith in
      let (g, above, there, same) = last_place_sound (suc i) p fs j (later ∙ ap some e) in
      let z : j - i ≡ suc (j - suc i) = omega arith in (g, omega arith, rw z there, same)
]

last_place_complete :
    (i : ℕ) (p : Text) (fs : List DepotFile) (k : ℕ) (f : DepotFile)
    → get_elem? fs k ≡ some f
    → f.path ≡ p
    → (j : ℕ) × (last_place i p fs ≡ some j) × (i + k ≤ j)
unfolding last_place or_else
last_place_complete i p [] k f h e = absurd (ground arith)
last_place_complete i p (g ∷ fs) zero f h e = elim (Option-cases (last_place (suc i) p fs)) [
  | inl last ↦ (i, rw last (ground (arith, ==_iff g.path p)), omega arith)
  | inr (j, later) ↦
      let (f', above, _, _) = last_place_sound (suc i) p fs j later in (j, rw later, omega arith)
]
last_place_complete i p (g ∷ fs) (suc k) f h e =
    let (j, later, above) = last_place_complete (suc i) p fs k f h e in (j, rw later, omega arith)

pub lookup-new : (m : Manifest) (p : Text) → lookup p (new m).by_path ≡ last_place 0 p m.files
unfolding new lookup or_else
lookup-new m p = lookup-by_path 0 p m.files [] [] ∙ or_none (last_place 0 p m.files)
  where
    or_none : (o : Option ℕ) → or_else o none ≡ o
    or_none none = refl
    or_none (some a) = refl

-- `index_of` on a fresh index returns a place at which the manifest has a file of that path (a
-- leading slash dropped), and no later place has one. It finds one whenever some file has the path.
pub index_of-new :
    (m : Manifest) (path : Text)
    → ((i : ℕ)
        → index_of (new m) path ≡ some i
        → (f : DepotFile) × (get_elem? m.files i ≡ some f) × (f.path ≡ strip_leading_slash path))
      × ((k : ℕ) (f : DepotFile)
          → get_elem? m.files k ≡ some f
          → f.path ≡ strip_leading_slash path
          → (i : ℕ) × (index_of (new m) path ≡ some i) × (k ≤ i))
unfolding index_of
index_of-new m path = (
  λ i h.
      let (f, _, there, same) = last_place_sound 0 p m.files i (sym (lookup-new m p) ∙ h) in
      let z : i - 0 ≡ i = omega arith in (f, rw (← z) there, same),
  λ k f there same.
      let (i, found, above) = last_place_complete 0 p m.files k f there same in
      (i, lookup-new m p ∙ found, omega arith),
)
  where
    p : Text
    p = strip_leading_slash path
