-- ===== src/Tree/Refines.antt =====
-- Each operation of `MountTree` of crates/steam-depot-mount/src/tree.rs does what the partial map promises.
use steam_depot_vfs.Prelude.{
  ℕ, zero, suc, ◌<◌, ◌^◌, nat_eq, true, false, Bool, ◌≡◌, ◌≢◌, refl, sym, ap, subst, ◌∙◌, arith, [],
  ◌∷◌, some, none, length, length-append, ltb, ◌==◌, if◌then◌else◌, inl, inr, nat_beq_iff, list_eq,
}
use steam_depot_vfs.Prelude.Maps.{lookup}
use steam_depot_vfs.Outcome.{ok}
use steam_depot_vfs.Inode.{pack, unpack}
use steam_depot_vfs.Inode.Packing.{unpack-pack}
use steam_depot_vfs.Tree.{
  Result, Slot, MountTree, SnapshotEntry, max_snapshot_id, new, remove, promote, slot,
}
use steam_depot_vfs.Tree.Shape.{ino_of}
use steam_depot_vfs.Tree.Matching.{
  same_cases, names_cong, Update-cong, Matches, Matches-cong, Matches-add,
}
use steam_depot_vfs.Tree.Changes.{at}
use steam_depot_vfs.Tree.Valid.{names_of, IsValid, Added, taken, full, added}
use steam_depot_vfs.Tree.Removal.{removed, absent, remove-Removed, promote-Promoted}
use steam_depot_vfs.Tree.Abstract.{
  Mounted, nothing_mounted, mount_triple, mount_triple-taken, mount_triple-full, mount_triple-added,
  unless_id, unless_id-other, unmount_id, id_of, is_triple-true, is_triple-false, Agrees,
  Agrees-slot, Agrees-entered,
}

module _ {O : Type 0} where
  pub new-IsValid : IsValid {O = O} new
  unfolding unpack lookup ino_of
  new-IsValid = record {
    shaped = record {
      top = record { parent = none; name = []; children = [] };
      top_there = refl;
      top_parent = refl;
      apps = λ a ino e. absurd cc;
      depots = λ a d ino e. absurd cc;
    };
    matches = record {
      entered = λ id s e. absurd (no_slot id s e);
      held = λ a d g ino e. absurd cc;
      few = omega arith;
    };
  }
    where
      no_slot : (id : ℕ) (s : Slot O) → at {O = O} (none ∷ []) id ≢ some s
      no_slot zero s e = cc
      no_slot (suc zero) s e = cc
      no_slot (suc (suc id)) s e = cc

  pub new-Agrees : Agrees {O = O} new nothing_mounted
  unfolding lookup ino_of
  new-Agrees = record { ids = λ a d g. refl; next = refl }

  pub reserve_slot-Agrees :
      (t : MountTree O) (m : Mounted) (a d g : ℕ) (res : Result ℕ × MountTree O)
      → Agrees t m
      → Added t a d g res
      → (res.0 ≡ (mount_triple a d g m).0) × Agrees res.1 (mount_triple a d g m).1
  reserve_slot-Agrees t m a d g res h made = elim made.addition [
    | taken ino e answer names slots ↦
        let q : m.ids a d g ≡ some (unpack ino).0 = sym (h.ids a d g) ∙ ap id_of e in
        rw (mount_triple-taken a d g m (unpack ino).0 q) (
          answer,
          record {
            ids = λ b e f. ap id_of (names b e f) ∙ h.ids b e f;
            next = ap length slots ∙ h.next;
          },
        )
    | full e over answer names slots ↦
        let q : m.ids a d g ≡ none = sym (h.ids a d g) ∙ ap id_of e in
        let k : ltb max_snapshot_id m.next ≡ true = ap (ltb max_snapshot_id) (sym h.next) ∙ over in
        rw (mount_triple-full a d g m q k) (
          answer,
          record {
            ids = λ b e f. ap id_of (names b e f) ∙ h.ids b e f;
            next = ap length slots ∙ h.next;
          },
        )
    | added s e few answer names slots triple ↦
        let q : m.ids a d g ≡ none = sym (h.ids a d g) ∙ ap id_of e in
        let k : ltb max_snapshot_id m.next ≡ false = ap (ltb max_snapshot_id) (sym h.next) ∙ few in
        let small : length t.slots < 2 ^ 16 = ground arith in
        let given : (unpack (pack (length t.slots) 0)).0 ≡ m.next =
          ap (λ (x : ℕ × ℕ). x.0) (unpack-pack (length t.slots) 0 small (omega arith)) ∙ h.next in
        rw (mount_triple-added a d g m q k) (
          answer ∙ ap ok h.next,
          record {
            ids = λ b e f. elim (same_cases a d g b e f) [
              | inl same ↦ rw (is_triple-true a d g b e f same) (
                  ap id_of (sym (names_cong (names_of res.1) _ _ _ _ _ _ same) ∙ names.hit)
                  ∙ ap some given)
              | inr other ↦
                  rw (is_triple-false a d g b e f other)
                    (ap id_of (names.miss b e f other) ∙ h.ids b e f)
            ];
            next = ap length slots ∙ omega (arith, h.next, length-append t.slots (some s ∷ []));
          },
        )
  ]

  remove-Agrees-ids :
      (t : MountTree O) (m : Mounted) (id : ℕ)
      → IsValid t
      → Agrees t m
      → (a d g : ℕ) → id_of (names_of (remove t id).1 a d g) ≡ unless_id id (m.ids a d g)
  remove-Agrees-ids t m id v h a d g = elim (remove-Removed t id v).removal [
    | absent e r ↦
        let other = λ (i : ℕ) (p : m.ids a d g ≡ some i) (same : i ≡ id).
          let (s, here, _) = Agrees-slot t m a d g i v h p in
          let q = ap (slot t) same in absurd cc in
        rw r (h.ids a d g ∙ sym (unless_id-other id (m.ids a d g) other))
    | removed s here answer names slots ↦
        elim (same_cases s.app_id s.depot_id s.manifest_gid a d g) [
          | inl same ↦
              let p : m.ids a d g ≡ some id =
                sym (names_cong m.ids _ _ _ _ _ _ same) ∙ Agrees-entered t m id s v h here in
              let k : (id == id) ≡ true = (nat_beq_iff id id).1 refl in
              ap id_of (sym (names_cong (names_of (remove t id).1) _ _ _ _ _ _ same) ∙ names.hit)
              ∙ sym (ap (unless_id id) p ∙ ap (λ (b : Bool). if b then none else some id) k)
          | inr ne ↦
              let other = λ (i : ℕ) (p : m.ids a d g ≡ some i) (same : i ≡ id).
                let (r, there, f) = Agrees-slot t m a d g i v h p in
                let q = ap (slot t) same in
                let is : s ≡ r = cc in
                ne (
                  ap (λ (x : Slot O). x.app_id) is ∙ f.0,
                  ap (λ (x : Slot O). x.depot_id) is ∙ f.1,
                  ap (λ (x : Slot O). x.manifest_gid) is ∙ f.2,
                ) in
              ap id_of (names.miss a d g ne)
              ∙ h.ids a d g
              ∙ sym (unless_id-other id (m.ids a d g) other)
        ]
  ]

  pub remove-Agrees :
      (t : MountTree O) (m : Mounted) (id : ℕ)
      → IsValid t
      → Agrees t m
      → Agrees (remove t id).1 (unmount_id id m)
  remove-Agrees t m id v h = record {
    ids = remove-Agrees-ids t m id v h;
    next = elim (remove-Removed t id v).removal [
      | absent e r ↦ rw r h.next
      | removed s here answer names slots ↦ slots ∙ h.next
    ];
  }

  pub promote-Agrees :
      (t : MountTree O) (m : Mounted) (id : ℕ) (entry : SnapshotEntry)
      → IsValid t
      → Agrees t m
      → Agrees (promote t id entry) m
  promote-Agrees t m id entry v h =
      let p = promote-Promoted t id entry v in
      record { ids = λ a d g. ap id_of (p.names a d g) ∙ h.ids a d g; next = p.slots ∙ h.next }

  -- A removal that finds a slot returns it, and no removal panics.
  pub remove-answer : (t : MountTree O) (id : ℕ) → IsValid t → (remove t id).0 ≡ ok (slot t id)
  remove-answer t id v = elim (remove-Removed t id v).removal [
    | absent e r ↦ rw (r, e) refl
    | removed s here answer names slots ↦ answer ∙ ap ok (sym here)
  ]

  -- An addition keeps the invariant.
  pub reserve_slot-IsValid :
      (t : MountTree O) (a d g : ℕ) (res : Result ℕ × MountTree O)
      → IsValid t
      → Added t a d g res
      → IsValid res.1
  reserve_slot-IsValid t a d g res v made = elim made.addition [
    | taken ino e answer names slots ↦ record {
      shaped = made.shaped;
      matches =
          subst (Matches (names_of res.1)) (sym slots)
            (Matches-cong (names_of t) (names_of res.1) t.slots v.matches names);
    }
    | full e over answer names slots ↦ record {
      shaped = made.shaped;
      matches =
          subst (Matches (names_of res.1)) (sym slots)
            (Matches-cong (names_of t) (names_of res.1) t.slots v.matches names);
    }
    | added s e few answer names slots triple ↦ record {
      shaped = made.shaped;
      matches = subst (Matches (names_of res.1)) (sym slots) (
          Matches-add (names_of t) (names_of res.1) t.slots v.matches s (ground arith)
            (names_cong (names_of t) _ _ _ _ _ _ triple ∙ e)
            (Update-cong (names_of t) (names_of res.1) _ _ _ _ _ _ _ triple names));
    }
  ]
