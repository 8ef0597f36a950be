-- ===== src/Tree/Slots.antt =====
-- What the operations of crates/steam-depot-mount/src/tree.rs do to the slots.
use steam_depot_vfs.Prelude.{
  ℕ, ◌≡◌, ◌≢◌, ◌≤◌, refl, sym, ap, ◌∙◌, arith, List, [], ◌∷◌, ◌++◌, Option, some, none, length, set,
  ltb, Bool-cases, inl, inr, nat_eq, list_eq,
}
use steam_depot_vfs.Prelude.Maps.{HashMap, lookup, insert, contains_key}
use steam_depot_vfs.Prelude.Decimal.{to_string}
use steam_depot_vfs.Depot.{Text}
use steam_depot_vfs.Outcome.{
  ok, index, bind-ok, ok-injective, is_ok, is_err, is_panic, Outcome-cases,
}
use steam_depot_vfs.Inode.{pack, unpack}
use steam_depot_vfs.Inode
use steam_depot_vfs.Tree.{
  Result, Slot, SlotState, MountTree, max_snapshot_id, max_u32, children_of, change_children,
  path_of_synthetic, add_synthetic, ensure_synthetic, ensure_depot, fill_slot, reserve_slot,
  time_of,
}

module _ {O : Type 0} where
  pub change-slots :
      (t t' : MountTree O) (ino : ℕ) (f : HashMap Text ℕ → HashMap Text ℕ)
      → change_children t ino f ≡ ok t'
      → t'.slots ≡ t.slots
  unfolding change_children
  change-slots t t' ino f h =
      let (dir, _, e) = bind-ok (index t.synthetic (unpack ino).1) _ t' h in
      ap (λ (x : MountTree O). x.slots) (sym (ok-injective _ t' e))

  add_synthetic-slots :
      (t : MountTree O) (parent : ℕ) (name : Text) (r : ℕ × MountTree O)
      → add_synthetic t parent name ≡ ok r
      → r.1.slots ≡ t.slots
  unfolding add_synthetic
  add_synthetic-slots t parent name r h =
      let (path, _, e) = bind-ok (path_of_synthetic t parent) _ r h in
      let (t', c, e') = bind-ok (change_children _ parent _) _ r e in
      ap (λ (x : ℕ × MountTree O). x.1.slots) (sym (ok-injective _ r e'))
      ∙ change-slots _ t' parent _ c

  ensure_synthetic-slots :
      (t : MountTree O) (parent : ℕ) (name : Text) (r : ℕ × MountTree O)
      → ensure_synthetic t parent name ≡ ok r
      → r.1.slots ≡ t.slots
  unfolding ensure_synthetic
  ensure_synthetic-slots t parent name r h =
      let (children, _, e) = bind-ok (children_of t parent) _ r h in
      by_child children (lookup name children) e
    where
      by_child :
          (children : HashMap Text ℕ) (o : Option ℕ)
          → ◌≡◌ {A = Result (ℕ × MountTree O)}
              (elim o [ some existing ↦ ok (existing, t) | none ↦ add_synthetic t parent name ])
              (ok r)
          → r.1.slots ≡ t.slots
      by_child children none e = add_synthetic-slots t parent name r e
      by_child children (some existing) e =
          ap (λ (x : ℕ × MountTree O). x.1.slots) (sym (ok-injective _ r e))

  ensure_depot-slots :
      (t : MountTree O) (a d : ℕ) (r : ℕ × MountTree O)
      → ensure_depot t a d ≡ ok r
      → r.1.slots ≡ t.slots
  unfolding ensure_depot
  ensure_depot-slots t a d r h =
      let ((app_dir, t1), e, h') = bind-ok (ensure_synthetic t Inode.root (to_string a)) _ r h in
      ensure_synthetic-slots t1 app_dir (to_string d) r h'
      ∙ ensure_synthetic-slots t Inode.root (to_string a) (app_dir, t1) e

  -- `reserved`: a slot with the triple is appended, and its place is the id. `refused`: no slot changes.
  pub data Reserve (t : MountTree O) (app_id depot_id manifest_gid : ℕ)
      (res : Result ℕ × MountTree O) : Type 0 where
    reserved :
        (s : Slot O)
        → res.0 ≡ ok (length t.slots)
        → length t.slots ≤ max_snapshot_id
        → res.1.slots ≡ t.slots ++ some s ∷ []
        → s.app_id ≡ app_id
        → s.depot_id ≡ depot_id
        → s.manifest_gid ≡ manifest_gid
        → Reserve t app_id depot_id manifest_gid res
    refused :
        ((id : ℕ) → res.0 ≢ ok id)
        → res.1.slots ≡ t.slots
        → Reserve t app_id depot_id manifest_gid res

  module _ (t : MountTree O) (a d g : ℕ) (state : SlotState O) (hint : Option ℕ) where
    can_change :
        (t2 : MountTree O) (ino : ℕ) (c : HashMap Text ℕ) (slots : List (Option (Slot O)))
        (f : HashMap Text ℕ → HashMap Text ℕ)
        → children_of t2 ino ≡ ok c
        → (t' : MountTree O) × (change_children (record t2 { slots = slots }) ino f ≡ ok t')
    unfolding children_of change_children
    can_change t2 ino c slots f h =
        let (dir, e, _) = bind-ok (index t2.synthetic (unpack ino).1) _ c h in
        (
          record t2 {
            synthetic = set t2.synthetic (unpack ino).1 (record dir { children = f dir.children });
            slots = slots;
          },
          rw e refl,
        )

    fills :
        (t2 : MountTree O) (ino : ℕ) (c : HashMap Text ℕ)
        → t2.slots ≡ t.slots
        → children_of t2 ino ≡ ok c
        → length t2.slots ≤ max_snapshot_id
        → Reserve t a d g (fill_slot t2 ino a d g state hint)
    fills t2 ino c same there small =
        let s : Slot O = record {
          app_id = a;
          depot_id = d;
          manifest_gid = g;
          state = state;
          creation_time = time_of state hint;
        } in
        let (t', e) =
          can_change t2 ino c (t2.slots ++ some s ∷ [])
            (insert (to_string g) (pack (length t2.slots) 0)) there in
        unfold fill_slot in
        rw (e, fill_slot)
          (reserved s (ap (λ (l : List (Option (Slot O))). ok (length l)) same)
            (omega (arith, ap length same))
            (change-slots _ t' ino _ e ∙ ap (λ (l : List (Option (Slot O))). l ++ some s ∷ []) same)
            refl refl refl)

    checks :
        (t2 : MountTree O) (ino : ℕ) (c : HashMap Text ℕ)
        → ensure_depot t a d ≡ ok (ino, t2)
        → children_of t2 ino ≡ ok c
        → Reserve t a d g (reserve_slot t a d g state hint)
    checks t2 ino c made there =
        let same = ensure_depot-slots t a d (ino, t2) made in
        elim (Bool-cases (contains_key (to_string g) c)) [
          | inl dup ↦
              unfold reserve_slot in
              rw (made, there, dup, reserve_slot) (refused (λ id h. absurd cc) same)
          | inr new ↦ elim (Bool-cases (ltb max_u32 (length t2.slots))) [
            | inl over ↦
                unfold reserve_slot in
                rw (made, there, new, over, reserve_slot) (refused (λ id h. absurd cc) same)
            | inr fits ↦ elim (Bool-cases (ltb max_snapshot_id (length t2.slots))) [
              | inl many ↦
                  unfold reserve_slot in
                  rw (made, there, new, fits, many, reserve_slot) (refused (λ id h. absurd cc) same)
              | inr few ↦
                  unfold reserve_slot in
                  rw (made, there, new, fits, few, reserve_slot)
                    (fills t2 ino c same there (ground arith))
            ]
          ]
        ]

    -- `add` and `add_lazy` give out the next id, of at most 16 bits, and append a slot with the triple;
    -- or they return an error or panic, and no slot changes.
    pub reserve_slot_lem : Reserve t a d g (reserve_slot t a d g state hint)
    reserve_slot_lem = elim (Outcome-cases (ensure_depot t a d)) [
      | is_ok (ino, t2) made ↦ elim (Outcome-cases (children_of t2 ino)) [
        | is_ok c there ↦ checks t2 ino c made there
        | is_err e h ↦
            unfold reserve_slot in
            rw (made, h, reserve_slot)
              (refused (λ id k. absurd cc) (ensure_depot-slots t a d (ino, t2) made))
        | is_panic h ↦
            unfold reserve_slot in
            rw (made, h, reserve_slot)
              (refused (λ id k. absurd cc) (ensure_depot-slots t a d (ino, t2) made))
      ]
      | is_err e h ↦ unfold reserve_slot in rw (h, reserve_slot) (refused (λ id k. absurd cc) refl)
      | is_panic h ↦ unfold reserve_slot in rw (h, reserve_slot) (refused (λ id k. absurd cc) refl)
    ]
