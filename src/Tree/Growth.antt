-- ===== src/Tree/Growth.antt =====
-- What `ensure_synthetic` of crates/steam-depot-mount/src/tree.rs does to the shape of the synthetic
-- directories: a new app.
use steam_depot_vfs.Prelude.{
  ℕ, ◌≤◌, ◌<◌, nat_eq, ◌≡◌, ◌≢◌, refl, sym, ap, ◌∙◌, arith, List, [], some, none, length, get_elem?,
  get_elem?-lt, Option-cases, inl, inr, list_eq,
}
use steam_depot_vfs.Prelude.Maps.{HashMap, lookup, insert, lookup-insert_self, lookup-insert_ne}
use steam_depot_vfs.Prelude.Decimal.{to_string, to_string-injective}
use steam_depot_vfs.Depot.{Text}
use steam_depot_vfs.Inode.{pack, unpack, index_mask}
use steam_depot_vfs.Inode
use steam_depot_vfs.Inode.Packing.{unpack-pack}
use steam_depot_vfs.Tree.{SyntheticDir, depot_path, join_path}
use steam_depot_vfs.Tree.Paths.{app_path-ne}
use steam_depot_vfs.Tree.Shape.{
  dir_at, App, Depot, IsTree, ino_of, ino_of-none, ino_of-Depot, App-ne-root, Depot-ne-root,
  nat_eq_cases, grown, grown_self, grown_end, grown_old,
}

abbrev pub new_ino : List SyntheticDir → ℕ
new_ino ds = pack Inode.synthetic (length ds)

abbrev pub new_dir : ℕ → Text → SyntheticDir
new_dir parent name = record { parent = some parent; name = name; children = [] }

abbrev pub with_child : SyntheticDir → Text → ℕ → SyntheticDir
with_child dir name ino = record dir { children = insert name ino dir.children }

index_of_new :
    (ds : List SyntheticDir) → length ds ≤ index_mask → (unpack (new_ino ds)).1 ≡ length ds
index_of_new ds h = ap (λ (x : ℕ × ℕ). x.1) (unpack-pack 0 (length ds) (omega arith) h)

-- No manifest of the old tree is lost, and none is gained.
abbrev pub SameEntries :
    List SyntheticDir → HashMap Text ℕ → List SyntheticDir → HashMap Text ℕ → Type 0
SameEntries ds bp ds' bp' = (a d g : ℕ) → ino_of ds' bp' a d g ≡ ino_of ds bp a d g

module _ (ds : List SyntheticDir) (bp : HashMap Text ℕ) (h : IsTree ds bp)
    (small : length ds ≤ index_mask) where
  pub new_there :
      (k : ℕ) (y x : SyntheticDir) → k < length ds → dir_at (grown ds k y x) (new_ino ds) ≡ some x
  new_there k y x inside =
      ap (get_elem? (grown ds k y x)) (index_of_new ds small) ∙ grown_end ds k y x inside

  -- A new app `b`.
  module _ (b : ℕ) (fresh : lookup (to_string b) h.top.children ≡ none) where
    abbrev pub app_ds : List SyntheticDir
    app_ds =
        grown ds (unpack Inode.root).1 (with_child h.top (to_string b) (new_ino ds))
          (new_dir Inode.root (to_string b))

    abbrev pub app_bp : HashMap Text ℕ
    app_bp = insert (join_path [] (to_string b)) (new_ino ds) bp

    same_path : (a d : ℕ) → lookup (depot_path a d) app_bp ≡ lookup (depot_path a d) bp
    same_path a d =
        lookup-insert_ne (join_path [] (to_string b)) (depot_path a d) (new_ino ds) bp
          (app_path-ne b a d)

    root_inside : (unpack Inode.root).1 < length ds
    root_inside = get_elem?-lt ds _ h.top_there

    app_old :
        (ino : ℕ) (dir : SyntheticDir)
        → dir_at ds ino ≡ some dir
        → (unpack ino).1 ≢ (unpack Inode.root).1
        → dir_at app_ds ino ≡ some dir
    app_old ino dir = grown_old ds _ _ _ root_inside (unpack ino).1 dir

    no_depots : (d : ℕ) → lookup (depot_path b d) bp ≡ none
    no_depots d = elim (Option-cases (lookup (depot_path b d) bp)) [
      | inl e ↦ e
      | inr (ino, e) ↦ absurd (let p = (h.depots b d ino e).in_app in cc)
    ]

    apps-grow_app :
        (a ino : ℕ)
        → lookup (to_string a) (insert (to_string b) (new_ino ds) h.top.children) ≡ some ino
        → App app_ds app_bp a ino
    unfolding lookup
    apps-grow_app a ino e = elim (nat_eq_cases b a) [
      | inl same ↦
          let k : lookup (to_string b) (insert (to_string b) (new_ino ds) h.top.children)
              ≡ some ino =
            ap (λ (n : ℕ). lookup (to_string n) (insert (to_string b) (new_ino ds) h.top.children))
              same
            ∙ e in
          let self = lookup-insert_self (to_string b) (new_ino ds) h.top.children in
          let is_new : new_ino ds ≡ ino = cc in
          record {
            dir = new_dir Inode.root (to_string b);
            there = ap (dir_at app_ds) (sym is_new) ∙ new_there _ _ _ root_inside;
            parent = refl;
            name = ap to_string same;
            depots = λ d. sym (
                same_path a d
                ∙ ap (λ (n : ℕ). lookup (depot_path n d) bp) (sym same)
                ∙ no_depots d);
          }
      | inr other ↦
          let p = h.apps a ino (
            sym (
              lookup-insert_ne (to_string b) (to_string a) (new_ino ds) h.top.children
                (λ f. other (to_string-injective b a f)))
            ∙ e) in
          record {
            dir = p.dir;
            there = app_old ino p.dir p.there (App-ne-root h a ino p);
            parent = p.parent;
            name = p.name;
            depots = λ d. p.depots d ∙ sym (same_path a d);
          }
    ]

    depots-grow_app :
        (a d ino : ℕ)
        → lookup (depot_path a d) app_bp ≡ some ino
        → Depot app_ds (with_child h.top (to_string b) (new_ino ds)) a d ino
    depots-grow_app a d ino e =
        let p = h.depots a d ino (sym (same_path a d) ∙ e) in
        record {
          app_ino = p.app_ino;
          in_app =
              lookup-insert_ne (to_string b) (to_string a) (new_ino ds) h.top.children
                (λ f. let q = p.in_app in absurd cc)
              ∙ p.in_app;
          dir = p.dir;
          there = app_old ino p.dir p.there (Depot-ne-root h a d ino p);
          parent = p.parent;
          name = p.name;
        }

    -- The shape is kept, and the root has the new directory.
    pub grow_app-IsTree :
        (grew : IsTree app_ds app_bp) × (lookup (to_string b) grew.top.children ≡ some (new_ino ds))
    grow_app-IsTree = (
      record {
        top = with_child h.top (to_string b) (new_ino ds);
        top_there = grown_self ds _ _ _ root_inside;
        top_parent = h.top_parent;
        apps = apps-grow_app;
        depots = depots-grow_app;
      },
      lookup-insert_self (to_string b) (new_ino ds) h.top.children,
    )

    pub grow_app-entries : SameEntries ds bp app_ds app_bp
    grow_app-entries a d g = elim (Option-cases (lookup (depot_path a d) bp)) [
      | inl e ↦
          ino_of-none app_ds app_bp a d g (same_path a d ∙ e) ∙ sym (ino_of-none ds bp a d g e)
      | inr (ino, e) ↦
          let p = h.depots a d ino e in
          ino_of-Depot app_ds app_bp a d ino g p.dir (same_path a d ∙ e)
            (app_old ino p.dir p.there (Depot-ne-root h a d ino p))
          ∙ sym (ino_of-Depot ds bp a d ino g p.dir e p.there)
    ]
