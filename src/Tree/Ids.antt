-- ===== src/Tree/Ids.antt =====
-- The snapshot ids of crates/steam-depot-mount/src/tree.rs over any sequence of operations.
use steam_depot_vfs.Prelude.{
  ℕ, ◌≡◌, ◌≢◌, ◌≤◌, ◌<◌, refl, sym, ap, ◌∙◌, arith, List, Option, some, none, length, nat_eq,
  list_eq,
}
use mathlib.Core.Option.{some-injective}
use steam_depot_vfs.Outcome.{ok, ok-injective}
use steam_depot_vfs.Tree.{Slot, SlotState, MountTree, reserve_slot, slot}
use steam_depot_vfs.Tree.Slots.{reserve_slot_lem, reserved, refused}
use steam_depot_vfs.Tree.Changes.{
  Steps, done, step, SameTriple, at, slot-at, at-lt, Change, step-Change, Kept, kept, dropped,
  renewed, Change-Kept,
}

module _ {O : Type 0} where
  -- What becomes of a given id: it stays what it was, for the same triple, or is gone for good.
  pub data Later (t t' : MountTree O) (id : ℕ) : Type 0 where
    still :
        (s r : Slot O) → slot t id ≡ some s → slot t' id ≡ some r → SameTriple s r → Later t t' id
    gone : slot t' id ≡ none → Later t t' id

  Kept-Later :
      (t t' t'' : MountTree O) (id : ℕ)
      → Later t t' id
      → Kept t'.slots t''.slots id
      → Later t t'' id
  Kept-Later t t' t'' id (gone e) (kept k) = gone (slot-at t'' id ∙ k ∙ sym (slot-at t' id) ∙ e)
  Kept-Later t t' t'' id (gone e) (dropped d) = gone (slot-at t'' id ∙ d)
  Kept-Later t t' t'' id (gone e) (renewed s r was is triple) =
      absurd (let f = sym (slot-at t' id) ∙ e in cc)
  Kept-Later t t' t'' id (still s r was now triple) (kept k) =
      still s r was (slot-at t'' id ∙ k ∙ sym (slot-at t' id) ∙ now) triple
  Kept-Later t t' t'' id (still s r was now triple) (dropped d) = gone (slot-at t'' id ∙ d)
  Kept-Later t t' t'' id (still s r was now triple) (renewed p q is then_ triple') =
      let e : r ≡ p = some-injective r p (sym now ∙ slot-at t' id ∙ is) in
      still s q was (slot-at t'' id ∙ then_) (
        triple.0 ∙ ap (λ (x : Slot O). x.app_id) e ∙ triple'.0,
        triple.1 ∙ ap (λ (x : Slot O). x.depot_id) e ∙ triple'.1,
        triple.2 ∙ ap (λ (x : Slot O). x.manifest_gid) e ∙ triple'.2,
      )

  later :
      (t t' : MountTree O) (id : ℕ) (s : Slot O)
      → slot t id ≡ some s
      → Steps t t'
      → (length t.slots ≤ length t'.slots) × Later t t' id
  later t _ id s h done = (omega arith, still s s h h (refl, refl, refl))
  later t _ id s h (step t' t'' before one) =
      let (longer, now) = later t t' id s h before in
      let inside = at-lt t.slots id s (sym (slot-at t id) ∙ h) in
      let (longer', k) =
        Change-Kept t'.slots t''.slots id (step-Change t' t'' one)
          (omega (arith, longer, inside)) in
      (omega (arith, longer, longer'), Kept-Later t t' t'' id now k)

  -- Over any sequence of additions, removals and promotions, a snapshot id that stood for a triple of
  -- app, depot and manifest stands for the same triple or for nothing; and an addition that succeeds
  -- at the end gives out an id that is not this one.
  pub ids_stable :
      (t t' : MountTree O) (id : ℕ) (s : Slot O)
      → slot t id ≡ some s
      → Steps t t'
      → Later t t' id
        × ((a d g : ℕ) (state : SlotState O) (hint : Option ℕ) (new_id : ℕ)
            → (reserve_slot t' a d g state hint).0 ≡ ok new_id
            → new_id ≢ id)
  ids_stable t t' id s h steps =
      let (longer, l) = later t t' id s h steps in
      let inside = at-lt t.slots id s (sym (slot-at t id) ∙ h) in
      (
        l,
        λ a d g state hint new_id r e. elim (reserve_slot_lem t' a d g state hint) [
          | reserved q k _ _ _ _ _ ↦
              let n : length t'.slots ≡ new_id = ok-injective _ new_id (sym k ∙ r) in
              absurd (omega (arith, longer, inside, n, e))
          | refused no_id _ ↦ absurd (no_id new_id r)
        ],
      )

  empty-kept :
      (l l' : List (Option (Slot O))) (id : ℕ)
      → Change l l'
      → id < length l
      → at l id ≡ none
      → at l' id ≡ none
  empty-kept l l' id c h e = elim (Change-Kept l l' id c h).1 [
    | kept k ↦ k ∙ e
    | dropped d ↦ d
    | renewed s r was is triple ↦ absurd cc
  ]

  -- A removed id is never given to a slot again: once there was an id and its slot is gone, it stays
  -- gone over any sequence of operations.
  pub removed_stays :
      (t t' : MountTree O) (id : ℕ)
      → id < length t.slots
      → slot t id ≡ none
      → Steps t t'
      → (id < length t'.slots) × (slot t' id ≡ none)
  removed_stays t _ id inside e done = (inside, e)
  removed_stays t _ id inside e (step t' t'' before one) =
      let (inside', e') = removed_stays t t' id inside e before in
      let c = step-Change t' t'' one in
      (
        omega (arith, inside', (Change-Kept t'.slots t''.slots id c inside').0),
        slot-at t'' id ∙ empty-kept t'.slots t''.slots id c inside' (sym (slot-at t' id) ∙ e'),
      )
