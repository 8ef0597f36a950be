-- ===== src/Tree/Shape.antt =====
-- The shape of the synthetic directories of crates/steam-depot-mount/src/tree.rs: the root, below it
-- the directories of the apps, below those the directories of the depots, and `synth_by_path` beside
-- them.
use steam_depot_vfs.Prelude.{
  ℕ, ◌<◌, ◌≡◌, ◌≢◌, refl, sym, ap, ◌∙◌, arith, List, [], ◌∷◌, ◌++◌, Option, some, none, length,
  get_elem?, set, length-append, get_elem?-append_left, get_elem?-append_end, get_elem?-lt,
  get_elem?-set_self, get_elem?-set_ne, list_eq, nat_eq, ◌⊎◌, inl, inr, ◌==◌, Bool-cases,
  nat_beq_iff,
}
use steam_depot_vfs.Prelude.Maps.{HashMap, lookup}
use steam_depot_vfs.Prelude.Decimal.{to_string, to_string-injective}
use steam_depot_vfs.Depot.{Text}
use steam_depot_vfs.Inode.{unpack}
use steam_depot_vfs.Inode
use steam_depot_vfs.Tree.{SyntheticDir, depot_path}

abbrev pub dir_at : List SyntheticDir → ℕ → Option SyntheticDir
dir_at ds ino = get_elem? ds (unpack ino).1

-- The directory of an app has the directories of its depots, and `synth_by_path` has the same ones.
pub record App (ds : List SyntheticDir) (bp : HashMap Text ℕ) (a ino : ℕ) : Type 0 where
  pub dir : SyntheticDir
  pub there : dir_at ds ino ≡ some dir
  pub parent : dir.parent ≡ some Inode.root
  pub name : dir.name ≡ to_string a
  pub depots : (d : ℕ) → lookup (to_string d) dir.children ≡ lookup (depot_path a d) bp

pub record Depot (ds : List SyntheticDir) (top : SyntheticDir) (a d ino : ℕ) : Type 0 where
  pub app_ino : ℕ
  pub in_app : lookup (to_string a) top.children ≡ some app_ino
  pub dir : SyntheticDir
  pub there : dir_at ds ino ≡ some dir
  pub parent : dir.parent ≡ some app_ino
  pub name : dir.name ≡ to_string d

pub nat_eq_cases : (a b : ℕ) → (a ≡ b) ⊎ (a ≢ b)
nat_eq_cases a b = elim (Bool-cases (a == b)) [
  | inl e ↦ inl ((nat_beq_iff a b).0 e)
  | inr e ↦ inr (λ f. absurd (let g = (nat_beq_iff a b).1 f in cc))
]

pub record IsTree (ds : List SyntheticDir) (bp : HashMap Text ℕ) : Type 0 where
  pub top : SyntheticDir
  pub top_there : dir_at ds Inode.root ≡ some top
  pub top_parent : top.parent ≡ none
  pub apps : (a ino : ℕ) → lookup (to_string a) top.children ≡ some ino → App ds bp a ino
  pub depots : (a d ino : ℕ) → lookup (depot_path a d) bp ≡ some ino → Depot ds top a d ino

-- What the directory of a depot has under the name of a manifest.
unfoldable pub ino_of : List SyntheticDir → HashMap Text ℕ → ℕ → ℕ → ℕ → Option ℕ
ino_of ds bp a d g = elim (lookup (depot_path a d) bp) [
  | none ↦ none
  | some ino ↦ elim (dir_at ds ino) [ none ↦ none | some dir ↦ lookup (to_string g) dir.children ]
]

module _ {ds : List SyntheticDir} {bp : HashMap Text ℕ} (h : IsTree ds bp) where
  pub App-ne-root : (a ino : ℕ) → App ds bp a ino → (unpack ino).1 ≢ (unpack Inode.root).1
  App-ne-root a ino p same =
      let e : dir_at ds ino ≡ dir_at ds Inode.root = ap (get_elem? ds) same in
      let q = p.there in
      let r = h.top_there in
      let f : p.dir ≡ h.top = cc in
      let g = ap (λ (x : SyntheticDir). x.parent) f in
      let u = p.parent in let v = h.top_parent in cc

  pub Depot-ne-root :
      (a d ino : ℕ) → Depot ds h.top a d ino → (unpack ino).1 ≢ (unpack Inode.root).1
  Depot-ne-root a d ino p same =
      let e : dir_at ds ino ≡ dir_at ds Inode.root = ap (get_elem? ds) same in
      let q = p.there in
      let r = h.top_there in
      let f : p.dir ≡ h.top = cc in
      let g = ap (λ (x : SyntheticDir). x.parent) f in
      let u = p.parent in let v = h.top_parent in cc

  -- The directories of two apps differ.
  pub App-ne-App :
      (a b ino jno : ℕ)
      → App ds bp a ino
      → App ds bp b jno
      → a ≢ b
      → (unpack ino).1 ≢ (unpack jno).1
  App-ne-App a b ino jno p q ne same =
      let e : dir_at ds ino ≡ dir_at ds jno = ap (get_elem? ds) same in
      let r = p.there in
      let s = q.there in
      let f : p.dir ≡ q.dir = cc in
      let g = ap (λ (x : SyntheticDir). x.name) f in
      let u = p.name in let v = q.name in ne (to_string-injective a b cc)

  pub Depot-ne-App :
      (a d b ino jno : ℕ)
      → Depot ds h.top a d ino
      → App ds bp b jno
      → (unpack ino).1 ≢ (unpack jno).1
  Depot-ne-App a d b ino jno p q same =
      let e : dir_at ds ino ≡ dir_at ds jno = ap (get_elem? ds) same in
      let r = p.there in
      let s = q.there in
      let f : p.dir ≡ q.dir = cc in
      let g = ap (λ (x : SyntheticDir). x.parent) f in
      let u = p.parent in
      let v = q.parent in
      let root : p.app_ino ≡ Inode.root = cc in
      App-ne-root a p.app_ino (h.apps a p.app_ino p.in_app) (ap (λ (i : ℕ). (unpack i).1) root)

  -- The directories of two depots differ.
  pub Depot-ne-Depot :
      (a d b e ino jno : ℕ)
      → Depot ds h.top a d ino
      → Depot ds h.top b e jno
      → ¬ ((a ≡ b) × (d ≡ e))
      → (unpack ino).1 ≢ (unpack jno).1
  Depot-ne-Depot a d b e ino jno p q ne same =
      let e1 : dir_at ds ino ≡ dir_at ds jno = ap (get_elem? ds) same in
      let r = p.there in
      let s = q.there in
      let f : p.dir ≡ q.dir = cc in
      let g = ap (λ (x : SyntheticDir). x.parent) f in
      let n = ap (λ (x : SyntheticDir). x.name) f in
      let u = p.parent in
      let v = q.parent in
      let w = p.name in
      let z = q.name in
      let app : p.app_ino ≡ q.app_ino = cc in
      let depot = to_string-injective d e cc in
      elim (nat_eq_cases a b) [
        | inl eq ↦ ne (eq, depot)
        | inr other ↦
            App-ne-App a b p.app_ino q.app_ino (h.apps a p.app_ino p.in_app)
              (h.apps b q.app_ino q.in_app) other (ap (λ (i : ℕ). (unpack i).1) app)
      ]

pub ino_of-Depot :
    (ds : List SyntheticDir) (bp : HashMap Text ℕ) (a d ino g : ℕ) (dir : SyntheticDir)
    → lookup (depot_path a d) bp ≡ some ino
    → dir_at ds ino ≡ some dir
    → ino_of ds bp a d g ≡ lookup (to_string g) dir.children
ino_of-Depot ds bp a d ino g dir e f = unfold ino_of in rw (e, f, ino_of) refl

pub ino_of-none :
    (ds : List SyntheticDir) (bp : HashMap Text ℕ) (a d g : ℕ)
    → lookup (depot_path a d) bp ≡ none
    → ino_of ds bp a d g ≡ none
ino_of-none ds bp a d g e = unfold ino_of in rw (e, ino_of) refl

-- A directory is added at the end and that at `k` is changed.
abbrev pub grown : List SyntheticDir → ℕ → SyntheticDir → SyntheticDir → List SyntheticDir
grown ds k changed added = set (ds ++ added ∷ []) k changed

module _ (ds : List SyntheticDir) (k : ℕ) (y x : SyntheticDir) (inside : k < length ds) where
  pub grown_self : get_elem? (grown ds k y x) k ≡ some y
  grown_self =
      get_elem?-set_self (ds ++ x ∷ []) k y (omega (arith, inside, length-append ds (x ∷ [])))

  pub grown_end : get_elem? (grown ds k y x) (length ds) ≡ some x
  grown_end =
      get_elem?-set_ne (ds ++ x ∷ []) k (length ds) y (λ e. absurd (omega (arith, inside, e)))
      ∙ get_elem?-append_end ds x

  pub grown_old :
      (i : ℕ) (dir : SyntheticDir)
      → get_elem? ds i ≡ some dir
      → i ≢ k
      → get_elem? (grown ds k y x) i ≡ some dir
  grown_old i dir e ne =
      get_elem?-set_ne (ds ++ x ∷ []) k i y (λ f. ne (sym f))
      ∙ get_elem?-append_left ds (x ∷ []) i (get_elem?-lt ds i e)
      ∙ e
