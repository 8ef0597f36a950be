-- ===== src/Tree/Changes.antt =====
-- What an operation of crates/steam-depot-mount/src/tree.rs does to the list of slots.
use steam_depot_vfs.Prelude.{
  ℕ, ◌≡◌, ◌≢◌, ◌≤◌, ◌<◌, refl, sym, ap, ◌∙◌, arith, List, [], ◌∷◌, ◌++◌, Option, some, none, length,
  get_elem?, set, length-append, length-set, get_elem?-append_left, get_elem?-lt,
  get_elem?-set_self, get_elem?-set_ne, Bool-cases, Option-cases, inl, inr, ◌==◌, nat_eq, list_eq,
  nat_beq_iff,
}
use steam_depot_vfs.Outcome.{ok, ok-injective, is_ok, is_err, is_panic, Outcome-cases}
use steam_depot_vfs.Prelude.Maps.{lookup}
use steam_depot_vfs.Prelude.Maps
use steam_depot_vfs.Prelude.Decimal.{to_string}
use steam_depot_vfs.Tree.{
  depot_path, Slot, SlotState, pending, ready, SnapshotEntry, MountTree, reserve_slot, slot, detach,
  remove, promote,
}
use steam_depot_vfs.Tree.Slots.{reserve_slot_lem, reserved, refused, change-slots}

module _ {O : Type 0} where
  -- One operation on the tree.
  pub data Step (t : MountTree O) : MountTree O → Type 0 where
    reserve :
        (app_id depot_id manifest_gid : ℕ) (state : SlotState O) (hint : Option ℕ)
        → Step t (reserve_slot t app_id depot_id manifest_gid state hint).1
    take_out : (id : ℕ) → Step t (remove t id).1
    resolved : (id : ℕ) (entry : SnapshotEntry) → Step t (promote t id entry)

  pub data Steps (t : MountTree O) : MountTree O → Type 0 where
    done : Steps t t
    step : (t' t'' : MountTree O) → Steps t t' → Step t' t'' → Steps t t''

  abbrev pub SameTriple : Slot O → Slot O → Type 0
  SameTriple s r =
      (s.app_id ≡ r.app_id) × (s.depot_id ≡ r.depot_id) × (s.manifest_gid ≡ r.manifest_gid)

  abbrev pub flat : Option (Option (Slot O)) → Option (Slot O)
  flat none = none
  flat (some s) = s

  abbrev pub at : List (Option (Slot O)) → ℕ → Option (Slot O)
  at slots id = flat (get_elem? slots id)

  pub slot-at : (t : MountTree O) (id : ℕ) → slot t id ≡ at t.slots id
  unfolding slot
  slot-at t id = elim (Option-cases (get_elem? t.slots id)) [
    | inl e ↦ rw (e, slot) refl
    | inr (o, e) ↦ rw (e, slot) refl
  ]

  -- What an operation does to the list of slots.
  pub data Change (l : List (Option (Slot O))) (l' : List (Option (Slot O))) : Type 0 where
    same : l' ≡ l → Change l l'
    appended : (s : Slot O) → l' ≡ l ++ some s ∷ [] → Change l l'
    cleared : (id : ℕ) → l' ≡ set l id none → Change l l'
    replaced :
        (id : ℕ) (s r : Slot O)
        → at l id ≡ some s
        → SameTriple s r
        → l' ≡ set l id (some r)
        → Change l l'

  detach-slots :
      (t : MountTree O) (s : Slot O) (t' : MountTree O) → detach t s ≡ ok t' → t'.slots ≡ t.slots
  unfolding detach
  detach-slots t s t' h =
      elim (Option-cases (lookup (depot_path s.app_id s.depot_id) t.synth_by_path)) [
        | inl e ↦
            ap (λ (x : MountTree O). x.slots)
              (sym (ok-injective t t' (sym (rw (e, detach) refl) ∙ h)))
        | inr (ino, e) ↦
            change-slots t t' ino (Maps.remove (to_string s.manifest_gid))
              (sym (rw (e, detach) refl) ∙ h)
      ]

  remove-Change : (t : MountTree O) (id : ℕ) → Change t.slots (remove t id).1.slots
  remove-Change t id = elim (Option-cases (slot t id)) [
    | inl e ↦ unfold remove in rw (e, remove) (same refl)
    | inr (s, e) ↦ elim (Outcome-cases (detach (record t { slots = set t.slots id none }) s)) [
      | is_ok t2 d ↦ unfold remove in rw (e, d, remove) (cleared id (detach-slots _ s t2 d))
      | is_err x d ↦ unfold remove in rw (e, d, remove) (cleared id refl)
      | is_panic d ↦ unfold remove in rw (e, d, remove) (cleared id refl)
    ]
  ]

  promote-Change :
      (t : MountTree O) (id : ℕ) (entry : SnapshotEntry) → Change t.slots (promote t id entry).slots
  unfolding promote
  promote-Change t id entry = elim (Option-cases (slot t id)) [
    | inl e ↦ rw (e, promote) (same refl)
    | inr (s, e) ↦ by_state s s.state refl e
  ]
    where
      by_state :
          (s : Slot O) (q : SlotState O)
          → s.state ≡ q
          → slot t id ≡ some s
          → Change t.slots (promote t id entry).slots
      by_state s (ready r) f e = rw (e, f, promote) (same refl)
      by_state s (pending l) f e =
          rw (e, f, promote) (replaced id s _ (sym (slot-at t id) ∙ e) (refl, refl, refl) refl)

  reserve-Change :
      (t : MountTree O) (a d g : ℕ) (state : SlotState O) (hint : Option ℕ)
      → Change t.slots (reserve_slot t a d g state hint).1.slots
  reserve-Change t a d g state hint = elim (reserve_slot_lem t a d g state hint) [
    | reserved s _ _ e _ _ _ ↦ appended s e
    | refused _ e ↦ same e
  ]

  pub step-Change : (t t' : MountTree O) → Step t t' → Change t.slots t'.slots
  step-Change t _ (reserve a d g state hint) = reserve-Change t a d g state hint
  step-Change t _ (take_out id) = remove-Change t id
  step-Change t _ (resolved id entry) = promote-Change t id entry

  pub at-lt : (l : List (Option (Slot O))) (id : ℕ) (s : Slot O) → at l id ≡ some s → id < length l
  at-lt l id s h = elim (Option-cases (get_elem? l id)) [
    | inl e ↦ absurd cc
    | inr (o, e) ↦ get_elem?-lt l id e
  ]

  -- An id in range after a change: what it was, the same triple, or none.
  pub data Kept (l l' : List (Option (Slot O))) (id : ℕ) : Type 0 where
    kept : at l' id ≡ at l id → Kept l l' id
    dropped : at l' id ≡ none → Kept l l' id
    renewed : (s r : Slot O) → at l id ≡ some s → at l' id ≡ some r → SameTriple s r → Kept l l' id

  pub Change-Kept :
      (l l' : List (Option (Slot O))) (id : ℕ)
      → Change l l'
      → id < length l
      → (length l ≤ length l') × Kept l l' id
  Change-Kept l l' id (same e) h = (omega (arith, ap length e), kept (ap (λ x. at x id) e))
  Change-Kept l l' id (appended s e) h = (
    omega (arith, ap length e, length-append l (some s ∷ [])),
    kept (ap (λ x. at x id) e ∙ ap flat (get_elem?-append_left l (some s ∷ []) id h)),
  )
  Change-Kept l l' id (cleared k e) h = (
    omega (arith, ap length e, length-set l k none),
    elim (Bool-cases (k == id)) [
      | inl hit ↦
          let same_id = (nat_beq_iff k id).0 hit in
          dropped (
            ap (λ x. at x id) e
            ∙ ap (λ (i : ℕ). at (set l k none) i) (sym same_id)
            ∙ ap flat (get_elem?-set_self l k none (omega (arith, same_id))))
      | inr miss ↦
          let other : k ≢ id = λ e'. absurd (let t = (nat_beq_iff k id).1 e' in cc) in
          kept (ap (λ x. at x id) e ∙ ap flat (get_elem?-set_ne l k id none other))
    ],
  )
  Change-Kept l l' id (replaced k s r was triple e) h = (
    omega (arith, ap length e, length-set l k (some r)),
    elim (Bool-cases (k == id)) [
      | inl hit ↦
          let same_id = (nat_beq_iff k id).0 hit in
          renewed s r (ap (at l) (sym same_id) ∙ was)
            (ap (λ x. at x id) e
              ∙ ap (λ (i : ℕ). at (set l k (some r)) i) (sym same_id)
              ∙ ap flat (get_elem?-set_self l k (some r) (omega (arith, same_id))))
            triple
      | inr miss ↦
          let other : k ≢ id = λ e'. absurd (let t = (nat_beq_iff k id).1 e' in cc) in
          kept (ap (λ x. at x id) e ∙ ap flat (get_elem?-set_ne l k id (some r) other))
    ],
  )

  pub slot-set :
      (t : MountTree O) (id : ℕ) (s r : Slot O)
      → slot t id ≡ some s
      → slot (record t { slots = set t.slots id (some r) }) id ≡ some r
  slot-set t id s r h =
      slot-at (record t { slots = set t.slots id (some r) }) id
      ∙ ap flat
          (get_elem?-set_self t.slots id (some r) (at-lt t.slots id s (sym (slot-at t id) ∙ h)))
