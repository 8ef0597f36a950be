-- ===== src/Tree/Depots.antt =====
-- What `ensure_synthetic` of crates/steam-depot-mount/src/tree.rs does to the shape of the synthetic
-- directories: a new depot of an app.
use steam_depot_vfs.Prelude.{
  ℕ, ◌≤◌, ◌<◌, nat_eq, ◌≡◌, ◌≢◌, refl, sym, ap, ◌∙◌, List, some, none, length, get_elem?-lt,
  Option-cases, ◌⊎◌, inl, inr, list_eq,
}
use steam_depot_vfs.Prelude.Maps.{HashMap, lookup, insert, lookup-insert_self, lookup-insert_ne}
use steam_depot_vfs.Prelude.Decimal.{to_string, to_string-injective}
use steam_depot_vfs.Depot.{Text}
use steam_depot_vfs.Inode.{unpack, index_mask}
use steam_depot_vfs.Inode
use steam_depot_vfs.Tree.{SyntheticDir, depot_path}
use steam_depot_vfs.Tree.Paths.{depot_path-injective}
use steam_depot_vfs.Tree.Shape.{
  dir_at, App, Depot, IsTree, ino_of-none, ino_of-Depot, App-ne-root, App-ne-App, Depot-ne-App,
  nat_eq_cases, grown, grown_self, grown_old,
}
use steam_depot_vfs.Tree.Growth.{new_ino, new_dir, with_child, SameEntries, new_there}

-- Two pairs of numbers are the same or not.
pub pair_cases : (a d b e : ℕ) → ((a ≡ b) × (d ≡ e)) ⊎ ¬ ((a ≡ b) × (d ≡ e))
pair_cases a d b e = elim (nat_eq_cases a b) [
  | inr ne ↦ inr (λ h. ne h.0)
  | inl eq ↦ elim (nat_eq_cases d e) [ inl eq' ↦ inl (eq, eq') | inr ne ↦ inr (λ h. ne h.1) ]
]

-- A new depot `e` of the app `b`, whose directory is at `bno`.
module _ (ds : List SyntheticDir) (bp : HashMap Text ℕ) (h : IsTree ds bp)
    (small : length ds ≤ index_mask) (b e bno : ℕ)
    (app : lookup (to_string b) h.top.children ≡ some bno)
    (fresh : lookup (depot_path b e) bp ≡ none) where
  abbrev parent_app : App ds bp b bno
  parent_app = h.apps b bno app

  abbrev pub depot_ds : List SyntheticDir
  depot_ds =
      grown ds (unpack bno).1 (with_child parent_app.dir (to_string e) (new_ino ds))
        (new_dir bno (to_string e))

  abbrev pub depot_bp : HashMap Text ℕ
  depot_bp = insert (depot_path b e) (new_ino ds) bp

  other_path :
      (a d : ℕ)
      → ¬ ((b ≡ a) × (e ≡ d))
      → lookup (depot_path a d) depot_bp ≡ lookup (depot_path a d) bp
  other_path a d ne =
      lookup-insert_ne (depot_path b e) (depot_path a d) (new_ino ds) bp
        (λ f. ne (depot_path-injective b e a d f))

  app_inside : (unpack bno).1 < length ds
  app_inside = get_elem?-lt ds _ parent_app.there

  depot_old :
      (ino : ℕ) (dir : SyntheticDir)
      → dir_at ds ino ≡ some dir
      → (unpack ino).1 ≢ (unpack bno).1
      → dir_at depot_ds ino ≡ some dir
  depot_old ino dir = grown_old ds _ _ _ app_inside (unpack ino).1 dir

  -- The parent's children and `synth_by_path` gain the same directory.
  children-grow :
      (d : ℕ)
      → lookup (to_string d) (insert (to_string e) (new_ino ds) parent_app.dir.children)
        ≡ lookup (depot_path b d) depot_bp
  children-grow d = elim (nat_eq_cases e d) [
    | inl same ↦
        let p =
          lookup-insert_self (to_string e) (new_ino ds) parent_app.dir.children
          ∙ sym (lookup-insert_self (depot_path b e) (new_ino ds) bp) in
        ap
          (λ (n : ℕ).
            lookup (to_string n) (insert (to_string e) (new_ino ds) parent_app.dir.children))
          (sym same)
        ∙ p
        ∙ ap (λ (n : ℕ). lookup (depot_path b n) depot_bp) same
    | inr other ↦
        lookup-insert_ne (to_string e) (to_string d) (new_ino ds) parent_app.dir.children
          (λ f. other (to_string-injective e d f))
        ∙ parent_app.depots d
        ∙ sym (other_path b d (λ f. other f.1))
  ]

  apps-grow_depot :
      (a ino : ℕ) → lookup (to_string a) h.top.children ≡ some ino → App depot_ds depot_bp a ino
  apps-grow_depot a ino q = elim (nat_eq_cases b a) [
    | inl same ↦
        let k : lookup (to_string b) h.top.children ≡ some ino =
          ap (λ (n : ℕ). lookup (to_string n) h.top.children) same ∙ q in
        let here : bno ≡ ino = cc in
        record {
          dir = with_child parent_app.dir (to_string e) (new_ino ds);
          there = ap (dir_at depot_ds) (sym here) ∙ grown_self ds _ _ _ app_inside;
          parent = parent_app.parent;
          name = parent_app.name ∙ ap to_string same;
          depots = λ d. children-grow d ∙ ap (λ (n : ℕ). lookup (depot_path n d) depot_bp) same;
        }
    | inr other ↦
        let p = h.apps a ino q in
        record {
          dir = p.dir;
          there =
              depot_old ino p.dir p.there
                (App-ne-App h a b ino bno p parent_app (λ f. other (sym f)));
          parent = p.parent;
          name = p.name;
          depots = λ d. p.depots d ∙ sym (other_path a d (λ f. other f.0));
        }
  ]

  depots-grow_depot :
      (a d ino : ℕ) → lookup (depot_path a d) depot_bp ≡ some ino → Depot depot_ds h.top a d ino
  depots-grow_depot a d ino q = elim (pair_cases b e a d) [
    | inl (same, same') ↦
        let k : lookup (depot_path b e) depot_bp ≡ some ino =
          ap (λ (n : ℕ). lookup (depot_path n e) depot_bp) same
          ∙ ap (λ (n : ℕ). lookup (depot_path a n) depot_bp) same'
          ∙ q in
        let self = lookup-insert_self (depot_path b e) (new_ino ds) bp in
        let is_new : new_ino ds ≡ ino = cc in
        record {
          app_ino = bno;
          in_app = ap (λ (n : ℕ). lookup (to_string n) h.top.children) (sym same) ∙ app;
          dir = new_dir bno (to_string e);
          there = ap (dir_at depot_ds) (sym is_new) ∙ new_there ds bp h small _ _ _ app_inside;
          parent = refl;
          name = ap to_string same';
        }
    | inr other ↦
        let p = h.depots a d ino (sym (other_path a d other) ∙ q) in
        record {
          app_ino = p.app_ino;
          in_app = p.in_app;
          dir = p.dir;
          there = depot_old ino p.dir p.there (Depot-ne-App h a d b ino bno p parent_app);
          parent = p.parent;
          name = p.name;
        }
  ]

  pub grow_depot-IsTree : IsTree depot_ds depot_bp
  grow_depot-IsTree = record {
    top = h.top;
    top_there =
        grown_old ds _ _ _ app_inside (unpack Inode.root).1 h.top h.top_there
          (λ f. App-ne-root h b bno parent_app (sym f));
    top_parent = h.top_parent;
    apps = apps-grow_depot;
    depots = depots-grow_depot;
  }

  -- The new directory is empty.
  pub grow_depot-entries : SameEntries ds bp depot_ds depot_bp
  unfolding lookup
  grow_depot-entries a d g = elim (pair_cases b e a d) [
    | inl (same, same') ↦
        let was =
          ap (λ (n : ℕ). lookup (depot_path n d) bp) (sym same)
          ∙ ap (λ (n : ℕ). lookup (depot_path b n) bp) (sym same')
          ∙ fresh in
        let now =
          ap (λ (n : ℕ). lookup (depot_path n d) depot_bp) (sym same)
          ∙ ap (λ (n : ℕ). lookup (depot_path b n) depot_bp) (sym same')
          ∙ lookup-insert_self (depot_path b e) (new_ino ds) bp in
        ino_of-Depot depot_ds depot_bp a d (new_ino ds) g (new_dir bno (to_string e)) now
          (new_there ds bp h small _ _ _ app_inside)
        ∙ sym (ino_of-none ds bp a d g was)
    | inr other ↦ elim (Option-cases (lookup (depot_path a d) bp)) [
      | inl q ↦
          ino_of-none depot_ds depot_bp a d g (other_path a d other ∙ q)
          ∙ sym (ino_of-none ds bp a d g q)
      | inr (ino, q) ↦
          let p = h.depots a d ino q in
          ino_of-Depot depot_ds depot_bp a d ino g p.dir (other_path a d other ∙ q)
            (depot_old ino p.dir p.there (Depot-ne-App h a d b ino bno p parent_app))
          ∙ sym (ino_of-Depot ds bp a d ino g p.dir q p.there)
    ]
  ]
