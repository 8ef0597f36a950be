-- ===== src/Tree/Ensuring.antt =====
-- `ensure_synthetic` of crates/steam-depot-mount/src/tree.rs, called for the directory of an app and then for
-- that of a depot, gives directories of the right shape.
use steam_depot_vfs.Prelude.{
  ℕ, suc, ◌+◌, ◌-◌, ◌≤◌, nat_eq, ◌≡◌, refl, ap, ◌∙◌, arith, List, set, [], ◌∷◌, ◌++◌, Option, some,
  none, length, get_elem?, get_elem?-lt, get_elem?-append_left, length-append, length-set,
  Option-cases, inl, inr, list_eq, nat_beq_iff, false, ◌==◌, Bool-cases,
}
use steam_depot_vfs.Prelude.Maps.{HashMap, lookup, insert, lookup-insert_self}
use steam_depot_vfs.Prelude.Decimal.{to_string}
use steam_depot_vfs.Depot.{Text}
use steam_depot_vfs.Outcome.{ok, index}
use steam_depot_vfs.Inode.{unpack, index_mask}
use steam_depot_vfs.Inode
use steam_depot_vfs.Tree.{
  SyntheticDir, Result, MountTree, depot_path, join_path, children_of, change_children, path_upto,
  path_of_synthetic, add_synthetic, ensure_synthetic, ensure_depot,
}
use steam_depot_vfs.Tree.Paths.{join_path-app}
use steam_depot_vfs.Tree.Shape.{dir_at, App, IsTree, App-ne-root, grown}
use steam_depot_vfs.Tree.Growth.{
  new_ino, new_dir, with_child, SameEntries, app_ds, app_bp, grow_app-IsTree, grow_app-entries,
}
use steam_depot_vfs.Tree.Depots.{depot_ds, depot_bp, grow_depot-IsTree, grow_depot-entries}

index-some :
    (ds : List SyntheticDir) (i : ℕ) (dir : SyntheticDir)
    → get_elem? ds i ≡ some dir
    → ◌≡◌ {A = Result SyntheticDir} (index ds i) (ok dir)
index-some ds i dir e = rw (e, index) refl

module _ {O : Type 0} where
  abbrev pub IsShaped : MountTree O → Type 0
  IsShaped t = IsTree t.synthetic t.synth_by_path

  -- What a call that makes directories leaves: at most `n` more of them, and what was there.
  pub record Extends (n : ℕ) (t u : MountTree O) : Type 0 where
    pub shaped : IsShaped u
    pub entries : SameEntries t.synthetic t.synth_by_path u.synthetic u.synth_by_path
    pub slots : u.slots ≡ t.slots
    pub longer : length u.synthetic ≤ length t.synthetic + n

  pub children_of-dir :
      (t : MountTree O) (ino : ℕ) (dir : SyntheticDir)
      → dir_at t.synthetic ino ≡ some dir
      → children_of t ino ≡ ok dir.children
  unfolding children_of
  children_of-dir t ino dir e = rw (index-some t.synthetic (unpack ino).1 dir e) refl

  pub change_children-dir :
      (t : MountTree O) (ino : ℕ) (f : HashMap Text ℕ → HashMap Text ℕ) (dir : SyntheticDir)
      → dir_at t.synthetic ino ≡ some dir
      → change_children t ino f
        ≡ ok (record t {
          synthetic = set t.synthetic (unpack ino).1 (record dir { children = f dir.children });
        })
  unfolding change_children
  change_children-dir t ino f dir e = rw (index-some t.synthetic (unpack ino).1 dir e) refl

  add_synthetic-dir :
      (t : MountTree O) (parent : ℕ) (name path : Text) (dir : SyntheticDir)
      → dir_at t.synthetic parent ≡ some dir
      → path_of_synthetic t parent ≡ ok path
      → add_synthetic t parent name
        ≡ ok (
          new_ino t.synthetic,
          record t {
            synthetic =
                grown t.synthetic
                  (unpack parent).1
                  (with_child dir name (new_ino t.synthetic))
                  (new_dir parent name);
            synth_by_path = insert (join_path path name) (new_ino t.synthetic) t.synth_by_path;
          },
        )
  unfolding add_synthetic
  add_synthetic-dir t parent name path dir e f =
      let g =
        get_elem?-append_left t.synthetic (new_dir parent name ∷ []) (unpack parent).1
          (get_elem?-lt t.synthetic (unpack parent).1 e)
        ∙ e in
      let t1 : MountTree O = record t {
        synthetic = t.synthetic ++ new_dir parent name ∷ [];
        synth_by_path = insert (join_path path name) (new_ino t.synthetic) t.synth_by_path;
      } in
      rw (f, change_children-dir t1 parent (insert name (new_ino t.synthetic)) dir g) refl

  path_of-root : (t : MountTree O) (h : IsShaped t) → path_of_synthetic t Inode.root ≡ ok []
  unfolding path_of_synthetic path_upto
  path_of-root t h =
      let inside = get_elem?-lt t.synthetic (unpack Inode.root).1 h.top_there in
      let e : length t.synthetic ≡ suc (length t.synthetic - 1) = omega (arith, inside) in rw e refl

  path_of-app :
      (t : MountTree O) (h : IsShaped t) (a ino : ℕ)
      → App t.synthetic t.synth_by_path a ino
      → path_of_synthetic t ino ≡ ok (join_path [] (to_string a))
  unfolding path_of_synthetic path_upto
  path_of-app t h a ino p =
      let ne = App-ne-root h a ino p in
      let k : (ino == Inode.root) ≡ false = elim (Bool-cases (ino == Inode.root)) [
        | inl e ↦ absurd (ne (ap (λ (i : ℕ). (unpack i).1) ((nat_beq_iff ino Inode.root).0 e)))
        | inr e ↦ e
      ] in
      let inside = get_elem?-lt t.synthetic (unpack Inode.root).1 h.top_there in
      let inside' = get_elem?-lt t.synthetic (unpack ino).1 p.there in
      let e : length t.synthetic ≡ suc (suc (length t.synthetic - 2)) =
        omega (arith, inside, inside', ne) in
      let q = index-some t.synthetic (unpack ino).1 p.dir p.there in
      rw (e, k, q, p.parent, p.name) refl

  -- A tree that is left as it is.
  same_tree :
      (t : MountTree O) (h : IsShaped t)
      → (e : Extends 1 t t) × (e.shaped.top.children ≡ h.top.children)
  same_tree t h =
      (record { shaped = h; entries = λ a d g. refl; slots = refl; longer = omega arith }, refl)

  grown-length :
      (t : MountTree O) (k : ℕ) (y x : SyntheticDir)
      → length (grown t.synthetic k y x) ≤ length t.synthetic + 1
  grown-length t k y x =
      omega (arith, length-set (t.synthetic ++ x ∷ []) k y, length-append t.synthetic (x ∷ []))

  ensure_synthetic-dir :
      (t : MountTree O) (parent : ℕ) (name : Text) (dir : SyntheticDir) (o : Option ℕ)
      → dir_at t.synthetic parent ≡ some dir
      → lookup name dir.children ≡ o
      → ensure_synthetic t parent name
        ≡ (elim o [ some existing ↦ ok (existing, t) | none ↦ add_synthetic t parent name ])
  unfolding ensure_synthetic
  ensure_synthetic-dir t parent name dir o there e = rw (children_of-dir t parent dir there) (
      ap
        (λ (o : Option ℕ). elim o as (λ _. Result (ℕ × MountTree O)) [
          | some existing ↦ ok (existing, t)
          | none ↦ add_synthetic t parent name
        ])
        e)

  -- The directory of an app is there, or is made below the root.
  ensure_synthetic-app :
      (t : MountTree O) (h : IsShaped t) (a : ℕ)
      → length t.synthetic ≤ index_mask
      → (ino : ℕ) × (u : MountTree O) × (ensure_synthetic t Inode.root (to_string a) ≡ ok (ino, u))
        × (e : Extends 1 t u) × (lookup (to_string a) e.shaped.top.children ≡ some ino)
  ensure_synthetic-app t h a small = elim (Option-cases (lookup (to_string a) h.top.children)) [
    | inr (ino, e) ↦ (
      ino,
      t,
      ensure_synthetic-dir t Inode.root (to_string a) h.top (some ino) h.top_there e,
      (same_tree t h).0,
      ap (lookup (to_string a)) (same_tree t h).1 ∙ e,
    )
    | inl e ↦ (
      new_ino t.synthetic,
      record t {
        synthetic = app_ds t.synthetic t.synth_by_path h small a e;
        synth_by_path = app_bp t.synthetic t.synth_by_path h small a e;
      },
      ensure_synthetic-dir t Inode.root (to_string a) h.top none h.top_there e
          ∙ add_synthetic-dir t Inode.root (to_string a) [] h.top h.top_there (path_of-root t h),
      record {
        shaped = (grow_app-IsTree t.synthetic t.synth_by_path h small a e).0;
        entries = grow_app-entries t.synthetic t.synth_by_path h small a e;
        slots = refl;
        longer = grown-length t _ _ _;
      },
      (grow_app-IsTree t.synthetic t.synth_by_path h small a e).1,
    )
  ]

  -- The directory of a depot is there, or is made below that of its app.
  ensure_synthetic-depot :
      (t : MountTree O) (h : IsShaped t) (a d app_ino : ℕ)
      → length t.synthetic ≤ index_mask
      → lookup (to_string a) h.top.children ≡ some app_ino
      → (ino : ℕ) × (u : MountTree O) × (ensure_synthetic t app_ino (to_string d) ≡ ok (ino, u))
        × Extends 1 t u
        × (lookup (depot_path a d) u.synth_by_path ≡ some ino)
  ensure_synthetic-depot t h a d app_ino small app =
      let p = h.apps a app_ino app in
      elim (Option-cases (lookup (depot_path a d) t.synth_by_path)) [
        | inr (ino, e) ↦ (
          ino,
          t,
          ensure_synthetic-dir t app_ino (to_string d) p.dir (some ino) p.there (p.depots d ∙ e),
          (same_tree t h).0,
          e,
        )
        | inl e ↦ (
          new_ino t.synthetic,
          record t {
            synthetic = depot_ds t.synthetic t.synth_by_path h small a d app_ino app e;
            synth_by_path = depot_bp t.synthetic t.synth_by_path h small a d app_ino app e;
          },
          ensure_synthetic-dir t app_ino (to_string d) p.dir none p.there (p.depots d ∙ e)
              ∙ add_synthetic-dir t app_ino (to_string d) (join_path [] (to_string a)) p.dir p.there
                  (path_of-app t h a app_ino p)
              ∙ ap
                  (λ (path : Text). ok (
                    new_ino t.synthetic,
                    record t {
                      synthetic = depot_ds t.synthetic t.synth_by_path h small a d app_ino app e;
                      synth_by_path = insert path (new_ino t.synthetic) t.synth_by_path;
                    },
                  ))
                  (join_path-app a d),
          record {
            shaped = grow_depot-IsTree t.synthetic t.synth_by_path h small a d app_ino app e;
            entries = grow_depot-entries t.synthetic t.synth_by_path h small a d app_ino app e;
            slots = refl;
            longer = grown-length t _ _ _;
          },
          lookup-insert_self (depot_path a d) (new_ino t.synthetic) t.synth_by_path,
        )
      ]

  -- Both directories of a depot are there or are made; no slot changes and no manifest is lost.
  pub ensure_depot-shaped :
      (t : MountTree O) (h : IsShaped t) (a d : ℕ)
      → length t.synthetic + 1 ≤ index_mask
      → (ino : ℕ) × (u : MountTree O) × (ensure_depot t a d ≡ ok (ino, u))
        × Extends 2 t u
        × (lookup (depot_path a d) u.synth_by_path ≡ some ino)
  unfolding ensure_depot
  ensure_depot-shaped t h a d small =
      let (app_ino, u, e, ext, app) = ensure_synthetic-app t h a (omega (arith, small)) in
      let (ino, w, e', ext', depot) =
        ensure_synthetic-depot u ext.shaped a d app_ino (omega (arith, small, ext.longer)) app in
      (
        ino,
        w,
        rw (e, e') refl,
        record {
          shaped = ext'.shaped;
          entries = λ b c g. ext'.entries b c g ∙ ext.entries b c g;
          slots = ext'.slots ∙ ext.slots;
          longer = omega (arith, ext.longer, ext'.longer);
        },
        depot,
      )
