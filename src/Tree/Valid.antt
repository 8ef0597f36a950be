-- ===== src/Tree/Valid.antt =====
-- The invariant of `MountTree` of crates/steam-depot-mount/src/tree.rs, and that `add`, `add_lazy`,
-- `remove` and `promote` keep it and never panic.
use steam_depot_vfs.Prelude.{
  ℕ, ◌+◌, ◌≤◌, nat_eq, true, false, ◌≡◌, refl, sym, ap, ◌∙◌, arith, List, [], ◌∷◌, ◌++◌, Option,
  some, none, length, length-set, ltb, Option-cases, Bool-cases, inl, inr, list_eq,
}
use steam_depot_vfs.Prelude.Maps.{
  HashMap, lookup, insert, contains_key, lookup-insert_self, lookup-insert_ne,
}
use steam_depot_vfs.Prelude.Decimal.{to_string, to_string-injective}
use steam_depot_vfs.Depot.{Text}
use steam_depot_vfs.Outcome.{ok, err}
use steam_depot_vfs.Inode.{pack, unpack, index_mask}
use steam_depot_vfs.Tree.{
  Result, Slot, SlotState, MountTree, already_mounted, too_many_snapshots, depot_path,
  max_snapshot_id, max_u32, time_of, children_of, fill_slot, ensure_depot, reserve_slot,
}
use steam_depot_vfs.Tree.Shape.{ino_of}
use steam_depot_vfs.Tree.Ensuring.{
  IsShaped, Extends, ensure_depot-shaped, children_of-dir, change_children-dir,
}
use steam_depot_vfs.Tree.Entries.{changed, changed-IsTree, changed-Update, ino_of-here}
use steam_depot_vfs.Tree.Matching.{Names, Update, IsFor, Matches}

module _ {O : Type 0} where
  abbrev pub names_of : MountTree O → Names
  names_of t = ino_of t.synthetic t.synth_by_path

  pub record IsValid (t : MountTree O) : Type 0 where
    pub shaped : IsShaped t
    pub matches : Matches (names_of t) t.slots

  abbrev pub new_slot : (a d g : ℕ) → SlotState O → Option ℕ → Slot O
  new_slot a d g state hint = record {
    app_id = a;
    depot_id = d;
    manifest_gid = g;
    state = state;
    creation_time = time_of state hint;
  }

  -- What an addition does: the triple is there, or the ids are used up, or it gets the next id.
  pub data Addition (t : MountTree O) (a d g : ℕ) (res : Result ℕ × MountTree O) : Type 0 where
    taken :
        (ino : ℕ)
        → names_of t a d g ≡ some ino
        → res.0 ≡ err (already_mounted a d g)
        → ((b e f : ℕ) → names_of res.1 b e f ≡ names_of t b e f)
        → res.1.slots ≡ t.slots
        → Addition t a d g res
    full :
        names_of t a d g ≡ none
        → ltb max_snapshot_id (length t.slots) ≡ true
        → res.0 ≡ err too_many_snapshots
        → ((b e f : ℕ) → names_of res.1 b e f ≡ names_of t b e f)
        → res.1.slots ≡ t.slots
        → Addition t a d g res
    added :
        (s : Slot O)
        → names_of t a d g ≡ none
        → ltb max_snapshot_id (length t.slots) ≡ false
        → res.0 ≡ ok (length t.slots)
        → Update (names_of t) a d g (some (pack (length t.slots) 0)) (names_of res.1)
        → res.1.slots ≡ t.slots ++ some s ∷ []
        → IsFor s a d g
        → Addition t a d g res

  pub record Added (t : MountTree O) (a d g : ℕ) (res : Result ℕ × MountTree O) : Type 0 where
    pub shaped : IsShaped res.1
    pub longer : length res.1.synthetic ≤ length t.synthetic + 2
    pub addition : Addition t a d g res

  module _ (t : MountTree O) (v : IsValid t) (a d g : ℕ) (state : SlotState O) (hint : Option ℕ)
      (ino : ℕ) (u : MountTree O) (made : ensure_depot t a d ≡ ok (ino, u)) (ext : Extends 2 t u)
      (depot : lookup (depot_path a d) u.synth_by_path ≡ some ino) where
    abbrev children : HashMap Text ℕ
    children = (ext.shaped.depots a d ino depot).dir.children

    children_there : children_of u ino ≡ ok children
    children_there = let p = ext.shaped.depots a d ino depot in children_of-dir u ino p.dir p.there

    name_there : lookup (to_string g) children ≡ names_of t a d g
    name_there =
        sym (ino_of-here u.synthetic u.synth_by_path ext.shaped a d ino depot children g)
        ∙ ext.entries a d g

    abbrev filled : HashMap Text ℕ
    filled = insert (to_string g) (pack (length u.slots) 0) children

    abbrev filled_tree : MountTree O
    filled_tree = record u {
      synthetic = changed u.synthetic u.synth_by_path ext.shaped a d ino depot filled;
      slots = u.slots ++ some (new_slot a d g state hint) ∷ [];
    }

    fill_slot-tree : fill_slot u ino a d g state hint ≡ (ok (length u.slots), filled_tree)
    fill_slot-tree =
        let p = ext.shaped.depots a d ino depot in
        let t1 : MountTree O = record u {
          slots = u.slots ++ some (new_slot a d g state hint) ∷ [];
        } in
        let e =
          change_children-dir t1 ino (insert (to_string g) (pack (length u.slots) 0)) p.dir
            p.there in
        unfold fill_slot in rw (e, fill_slot) refl

    -- The depot's directory gains the one name.
    filled-Update :
        Update (names_of t) a d g (some (pack (length t.slots) 0)) (names_of filled_tree)
    filled-Update =
        let w =
          changed-Update u.synthetic u.synth_by_path ext.shaped a d ino depot filled g
            (some (pack (length u.slots) 0))
            (lookup-insert_self (to_string g) (pack (length u.slots) 0) children)
            (λ f ne.
              lookup-insert_ne (to_string g) (to_string f) (pack (length u.slots) 0) children
                (λ q. ne (to_string-injective g f q))) in
        record {
          hit = w.hit ∙ ap (λ (l : List (Option (Slot O))). some (pack (length l) 0)) ext.slots;
          miss = λ b e f ne. w.miss b e f ne ∙ ext.entries b e f;
        }

    filled-Added :
        ltb max_snapshot_id (length t.slots) ≡ false
        → names_of t a d g ≡ none
        → Added t a d g (fill_slot u ino a d g state hint)
    filled-Added few free = rw fill_slot-tree (record {
      shaped = changed-IsTree u.synthetic u.synth_by_path ext.shaped a d ino depot filled;
      longer = omega (
        arith,
        ext.longer,
        length-set u.synthetic (unpack ino).1
            (record (ext.shaped.depots a d ino depot).dir { children = filled }),
      );
      addition =
          added (new_slot a d g state hint) free few
            (ap (λ (l : List (Option (Slot O))). ok (length l)) ext.slots) filled-Update
            (ap (λ (l : List (Option (Slot O))). l ++ some (new_slot a d g state hint) ∷ [])
              ext.slots)
            (refl, refl, refl);
    })

    reserve-cases : Added t a d g (reserve_slot t a d g state hint)
    reserve-cases =
        let c = children_there in
        let small : ltb max_u32 (length u.slots) ≡ false =
          ground (arith, v.matches.few, ap length ext.slots) in
        elim (Option-cases (names_of t a d g)) [
          | inr (old, e) ↦
              let k : contains_key (to_string g) children ≡ true =
                rw (name_there ∙ e, contains_key) refl in
              unfold reserve_slot in
              rw (made, c, k, reserve_slot)
                (record {
                  shaped = ext.shaped;
                  longer = ext.longer;
                  addition = taken old e refl ext.entries ext.slots;
                })
          | inl e ↦
              let k : contains_key (to_string g) children ≡ false =
                rw (name_there ∙ e, contains_key) refl in
              elim (Bool-cases (ltb max_snapshot_id (length t.slots))) [
                | inl over ↦
                    let over' : ltb max_snapshot_id (length u.slots) ≡ true =
                      ap (λ (l : List (Option (Slot O))). ltb max_snapshot_id (length l)) ext.slots
                      ∙ over in
                    unfold reserve_slot in
                    rw (made, c, k, small, over', reserve_slot)
                      (record {
                        shaped = ext.shaped;
                        longer = ext.longer;
                        addition = full e over refl ext.entries ext.slots;
                      })
                | inr few ↦
                    let few' : ltb max_snapshot_id (length u.slots) ≡ false =
                      ap (λ (l : List (Option (Slot O))). ltb max_snapshot_id (length l)) ext.slots
                      ∙ few in
                    unfold reserve_slot in
                    rw (made, c, k, small, few', reserve_slot) (filled-Added few e)
              ]
        ]

  pub reserve_slot-Added :
      (t : MountTree O) (a d g : ℕ) (state : SlotState O) (hint : Option ℕ)
      → IsValid t
      → length t.synthetic + 1 ≤ index_mask
      → Added t a d g (reserve_slot t a d g state hint)
  reserve_slot-Added t a d g state hint v small =
      let (ino, u, made, ext, depot) = ensure_depot-shaped t v.shaped a d small in
      reserve-cases t v a d g state hint ino u made ext depot
