-- ===== src/Tree/Entries.antt =====
-- What `reserve_slot` and `remove` of crates/steam-depot-mount/src/tree.rs do to the children of one
-- depot's directory.
use steam_depot_vfs.Prelude.{
  ℕ, nat_eq, ◌≡◌, ◌≢◌, sym, ap, ◌∙◌, List, Option, some, set, get_elem?-lt, get_elem?-set_self,
  get_elem?-set_ne, Option-cases, inl, inr, list_eq,
}
use steam_depot_vfs.Prelude.Maps.{HashMap, lookup}
use steam_depot_vfs.Prelude.Decimal.{to_string}
use steam_depot_vfs.Depot.{Text}
use steam_depot_vfs.Inode.{unpack}
use steam_depot_vfs.Inode
use steam_depot_vfs.Tree.{SyntheticDir, depot_path}
use steam_depot_vfs.Tree.Shape.{
  dir_at, Depot, IsTree, ino_of, ino_of-none, ino_of-Depot, Depot-ne-root, Depot-ne-App,
  Depot-ne-Depot,
}
use steam_depot_vfs.Tree.Depots.{pair_cases}
use steam_depot_vfs.Tree.Matching.{Update}

module _ (ds : List SyntheticDir) (bp : HashMap Text ℕ) (h : IsTree ds bp) (b e jno : ℕ)
    (depot : lookup (depot_path b e) bp ≡ some jno) (c : HashMap Text ℕ) where
  abbrev this : Depot ds h.top b e jno
  this = h.depots b e jno depot

  -- The directories, with `c` for the children of the depot.
  abbrev pub changed : List SyntheticDir
  changed = set ds (unpack jno).1 (record this.dir { children = c })

  unchanged :
      (ino : ℕ) (dir : SyntheticDir)
      → dir_at ds ino ≡ some dir
      → (unpack ino).1 ≢ (unpack jno).1
      → dir_at changed ino ≡ some dir
  unchanged ino dir q ne =
      get_elem?-set_ne ds (unpack jno).1 (unpack ino).1 (record this.dir { children = c })
        (λ f. ne (sym f))
      ∙ q

  changed_there : dir_at changed jno ≡ some (record this.dir { children = c })
  changed_there =
      get_elem?-set_self ds (unpack jno).1 (record this.dir { children = c })
        (get_elem?-lt ds (unpack jno).1 this.there)

  depots-changed :
      (a d ino : ℕ) → lookup (depot_path a d) bp ≡ some ino → Depot changed h.top a d ino
  depots-changed a d ino q = elim (pair_cases b e a d) [
    | inl (same, same') ↦
        let here : jno ≡ ino =
          (let k =
              sym depot
              ∙ ap (λ (n : ℕ). lookup (depot_path n e) bp) same
              ∙ ap (λ (n : ℕ). lookup (depot_path a n) bp) same'
              ∙ q in
            cc) in
        record {
          app_ino = this.app_ino;
          in_app = ap (λ (n : ℕ). lookup (to_string n) h.top.children) (sym same) ∙ this.in_app;
          dir = record this.dir { children = c };
          there = ap (dir_at changed) (sym here) ∙ changed_there;
          parent = this.parent;
          name = this.name ∙ ap to_string same';
        }
    | inr other ↦
        let p = h.depots a d ino q in
        record {
          app_ino = p.app_ino;
          in_app = p.in_app;
          dir = p.dir;
          there =
              unchanged ino p.dir p.there
                (Depot-ne-Depot h a d b e ino jno p this (λ f. other (sym f.0, sym f.1)));
          parent = p.parent;
          name = p.name;
        }
  ]

  pub changed-IsTree : IsTree changed bp
  changed-IsTree = record {
    top = h.top;
    top_there = unchanged Inode.root h.top h.top_there (λ f. Depot-ne-root h b e jno this (sym f));
    top_parent = h.top_parent;
    apps = λ a ino q.
        let p = h.apps a ino q in
        record {
          dir = p.dir;
          there = unchanged ino p.dir p.there (λ f. Depot-ne-App h b e a jno ino this p (sym f));
          parent = p.parent;
          name = p.name;
          depots = p.depots;
        };
    depots = depots-changed;
  }

  pub ino_of-here : (g : ℕ) → ino_of ds bp b e g ≡ lookup (to_string g) this.dir.children
  ino_of-here g = ino_of-Depot ds bp b e jno g this.dir depot this.there

  pub ino_of-changed : (g : ℕ) → ino_of changed bp b e g ≡ lookup (to_string g) c
  ino_of-changed g =
      ino_of-Depot changed bp b e jno g (record this.dir { children = c }) depot changed_there

  pub ino_of-other :
      (a d g : ℕ) → ¬ ((b ≡ a) × (e ≡ d)) → ino_of changed bp a d g ≡ ino_of ds bp a d g
  ino_of-other a d g ne = elim (Option-cases (lookup (depot_path a d) bp)) [
    | inl q ↦ ino_of-none changed bp a d g q ∙ sym (ino_of-none ds bp a d g q)
    | inr (ino, q) ↦
        let p = h.depots a d ino q in
        ino_of-Depot changed bp a d ino g p.dir q (
          unchanged ino p.dir p.there
            (Depot-ne-Depot h a d b e ino jno p this (λ f. ne (sym f.0, sym f.1))))
        ∙ sym (ino_of-Depot ds bp a d ino g p.dir q p.there)
  ]

  -- Where the children change at one name only, so do the entries.
  pub changed-Update :
      (g : ℕ) (o : Option ℕ)
      → lookup (to_string g) c ≡ o
      → ((f : ℕ) → g ≢ f → lookup (to_string f) c ≡ lookup (to_string f) this.dir.children)
      → Update (ino_of ds bp) b e g o (ino_of changed bp)
  changed-Update g o at_g elsewhere = record {
    hit = ino_of-changed g ∙ at_g;
    miss = λ a d f ne. elim (pair_cases b e a d) [
      | inr other ↦ ino_of-other a d f other
      | inl (same, same') ↦
          let p = elsewhere f (λ k. ne (same, same', k)) in
          ap (λ (n : ℕ). ino_of changed bp n d f) (sym same)
          ∙ ap (λ (n : ℕ). ino_of changed bp b n f) (sym same')
          ∙ ino_of-changed f
          ∙ p
          ∙ sym (ino_of-here f)
          ∙ ap (λ (n : ℕ). ino_of ds bp b n f) same'
          ∙ ap (λ (n : ℕ). ino_of ds bp n d f) same
    ];
  }
