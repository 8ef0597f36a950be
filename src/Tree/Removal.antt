-- ===== src/Tree/Removal.antt =====
-- `remove` and `promote` of crates/steam-depot-mount/src/tree.rs on a tree that keeps the invariant.
use steam_depot_vfs.Prelude.{
  ℕ, nat_eq, ◌≡◌, refl, sym, ◌∙◌, some, none, length, set, length-set, Option-cases, inl, inr,
  list_eq,
}
use steam_depot_vfs.Prelude.Maps.{HashMap, lookup, lookup-remove_self, lookup-remove_ne}
use steam_depot_vfs.Prelude.Maps
use steam_depot_vfs.Prelude.Decimal.{to_string, to_string-injective}
use steam_depot_vfs.Depot.{Text}
use steam_depot_vfs.Outcome.{ok}
use steam_depot_vfs.Inode.{unpack}
use steam_depot_vfs.Tree.{
  Slot, SlotState, MountTree, SnapshotEntry, depot_path, slot, detach, remove, promote, pending,
  ready,
}
use steam_depot_vfs.Tree.Shape.{ino_of-none}
use steam_depot_vfs.Tree.Ensuring.{change_children-dir}
use steam_depot_vfs.Tree.Entries.{changed, changed-IsTree, changed-Update}
use steam_depot_vfs.Tree.Matching.{Update, Matches-remove, Matches-replace}
use steam_depot_vfs.Tree.Changes.{slot-at}
use steam_depot_vfs.Tree.Valid.{names_of, IsValid}

module _ {O : Type 0} where
  -- What a removal does: the slot is returned and emptied, and its triple has no name any more; or
  -- there is no slot, and nothing changes.
  pub data Removal (t : MountTree O) (id : ℕ) : Type 0 where
    removed :
        (s : Slot O)
        → slot t id ≡ some s
        → (remove t id).0 ≡ ok (some s)
        → Update (names_of t) s.app_id s.depot_id s.manifest_gid none (names_of (remove t id).1)
        → length (remove t id).1.slots ≡ length t.slots
        → Removal t id
    absent : slot t id ≡ none → remove t id ≡ (ok none, t) → Removal t id

  pub record Removed (t : MountTree O) (id : ℕ) : Type 0 where
    pub valid : IsValid (remove t id).1
    pub as_long : length (remove t id).1.synthetic ≡ length t.synthetic
    pub removal : Removal t id

  module _ (t : MountTree O) (v : IsValid t) (id : ℕ) (s : Slot O) (here : slot t id ≡ some s) where
    depot_of : (ino : ℕ) × (lookup (depot_path s.app_id s.depot_id) t.synth_by_path ≡ some ino)
    depot_of = elim (Option-cases (lookup (depot_path s.app_id s.depot_id) t.synth_by_path)) [
      | inr (ino, e) ↦ (ino, e)
      | inl e ↦
          let p = ino_of-none t.synthetic t.synth_by_path s.app_id s.depot_id s.manifest_gid e in
          let q = v.matches.entered id s (sym (slot-at t id) ∙ here) in absurd cc
    ]

    take_out_slot :
        (ino : ℕ)
        → lookup (depot_path s.app_id s.depot_id) t.synth_by_path ≡ some ino
        → Removed t id
    take_out_slot ino e =
        let dir = (v.shaped.depots s.app_id s.depot_id ino e).dir in
        let there = (v.shaped.depots s.app_id s.depot_id ino e).there in
        let c : HashMap Text ℕ = Maps.remove (to_string s.manifest_gid) dir.children in
        let t1 : MountTree O = record t { slots = set t.slots id none } in
        let t2 : MountTree O = record t1 {
          synthetic = changed t.synthetic t.synth_by_path v.shaped s.app_id s.depot_id ino e c;
        } in
        let d : detach t1 s ≡ ok t2 =
          unfold detach in
          rw
            (
              e,
              change_children-dir t1 ino (Maps.remove (to_string s.manifest_gid)) dir there,
              detach,
            )
            refl in
        let r : remove t id ≡ (ok (some s), t2) = unfold remove in rw (here, d, remove) refl in
        let w =
          changed-Update t.synthetic t.synth_by_path v.shaped s.app_id s.depot_id ino e c
            s.manifest_gid none (lookup-remove_self (to_string s.manifest_gid) dir.children)
            (λ f ne.
              lookup-remove_ne (to_string s.manifest_gid) (to_string f) dir.children
                (λ q. ne (to_string-injective s.manifest_gid f q))) in
        record {
          valid = rw r (record {
            shaped =
                changed-IsTree t.synthetic t.synth_by_path v.shaped s.app_id s.depot_id ino e c;
            matches =
                Matches-remove (names_of t) (names_of t2) t.slots v.matches id s
                  (sym (slot-at t id) ∙ here) w;
          });
          as_long = rw r (length-set t.synthetic (unpack ino).1 (record dir { children = c }));
          removal = removed s here (rw r refl) (rw r w) (rw r (length-set t.slots id none));
        }

  pub remove-Removed : (t : MountTree O) (id : ℕ) → IsValid t → Removed t id
  remove-Removed t id v = elim (Option-cases (slot t id)) [
    | inr (s, e) ↦ let (ino, d) = depot_of t v id s e in take_out_slot t v id s e ino d
    | inl e ↦
        let r : remove t id ≡ (ok none, t) = unfold remove in rw (e, remove) refl in
        record { valid = rw r v; as_long = rw r refl; removal = absent e r }
  ]

  -- `promote` changes no name.
  pub record Promoted (t : MountTree O) (id : ℕ) (entry : SnapshotEntry) : Type 0 where
    pub valid : IsValid (promote t id entry)
    pub same_dirs : (promote t id entry).synthetic ≡ t.synthetic
    pub names : (a d g : ℕ) → names_of (promote t id entry) a d g ≡ names_of t a d g
    pub slots : length (promote t id entry).slots ≡ length t.slots

  unpromoted :
      (t : MountTree O) (id : ℕ) (entry : SnapshotEntry)
      → IsValid t
      → promote t id entry ≡ t
      → Promoted t id entry
  unpromoted t id entry v r = record {
    valid = rw r v;
    same_dirs = rw r refl;
    names = λ a d g. rw r refl;
    slots = rw r refl;
  }

  promote-state :
      (t : MountTree O) (id : ℕ) (entry : SnapshotEntry) (s : Slot O) (q : SlotState O)
      → IsValid t
      → slot t id ≡ some s
      → s.state ≡ q
      → Promoted t id entry
  promote-state t id entry s (ready x) v e f =
      unpromoted t id entry v (unfold promote in rw (e, f, promote) refl)
  promote-state t id entry s (pending x) v e f =
      let r : Slot O = record s {
        state = ready entry;
        creation_time = some entry.snapshot.manifest.creation_time;
      } in
      let p : promote t id entry ≡ record t { slots = set t.slots id (some r) } =
        unfold promote in rw (e, f, promote) refl in
      record {
        valid = rw p (record {
          shaped = v.shaped;
          matches =
              Matches-replace (names_of t) t.slots v.matches id s r (sym (slot-at t id) ∙ e)
                (refl, refl, refl);
        });
        same_dirs = rw p refl;
        names = λ a d g. rw p refl;
        slots = rw p (length-set t.slots id (some r));
      }

  pub promote-Promoted :
      (t : MountTree O) (id : ℕ) (entry : SnapshotEntry) → IsValid t → Promoted t id entry
  promote-Promoted t id entry v = elim (Option-cases (slot t id)) [
    | inl e ↦ unpromoted t id entry v (unfold promote in rw (e, promote) refl)
    | inr (s, e) ↦ promote-state t id entry s s.state v e refl
  ]
