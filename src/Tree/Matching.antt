-- ===== src/Tree/Matching.antt =====
-- The names of manifests and the slots of crates/steam-depot-mount/src/tree.rs: each slot has its name in
-- the directory of its depot, and each name there stands for a slot.
use steam_depot_vfs.Prelude.{
  ℕ, ◌≤◌, ◌<◌, ◌^◌, ◌≡◌, ◌≢◌, sym, ap, ◌∙◌, arith, List, [], ◌∷◌, ◌++◌, Option, some, none, length,
  set, length-append, length-set, get_elem?-append_left, get_elem?-append_end, get_elem?-set_self,
  get_elem?-set_ne, ◌⊎◌, inl, inr,
}
use steam_depot_vfs.Inode.{pack, unpack}
use steam_depot_vfs.Inode.Packing.{unpack-pack}
use steam_depot_vfs.Tree.{Slot}
use steam_depot_vfs.Tree.Shape.{nat_eq_cases}
use steam_depot_vfs.Tree.Changes.{at, flat, at-lt, SameTriple}

abbrev pub Names : Type 0
Names = ℕ → ℕ → ℕ → Option ℕ

abbrev pub AreSame : (a d g b e f : ℕ) → Type 0
AreSame a d g b e f = (a ≡ b) × (d ≡ e) × (g ≡ f)

pub same_cases : (a d g b e f : ℕ) → AreSame a d g b e f ⊎ ¬ AreSame a d g b e f
same_cases a d g b e f = elim (nat_eq_cases a b) [
  | inr ne ↦ inr (λ h. ne h.0)
  | inl p ↦ elim (nat_eq_cases d e) [
    | inr ne ↦ inr (λ h. ne h.1)
    | inl q ↦ elim (nat_eq_cases g f) [ inr ne ↦ inr (λ h. ne h.2) | inl r ↦ inl (p, q, r) ]
  ]
]

pub names_cong : (names : Names) (a d g b e f : ℕ) → AreSame a d g b e f → names a d g ≡ names b e f
names_cong names a d g b e f h =
    ap (λ (x : ℕ). names x d g) h.0
    ∙ ap (λ (x : ℕ). names b x g) h.1
    ∙ ap (λ (x : ℕ). names b e x) h.2

-- `names'` is `names` with `o` for the one triple.
pub record Update (names : Names) (a d g : ℕ) (o : Option ℕ) (names' : Names) : Type 0 where
  pub hit : names' a d g ≡ o
  pub miss : (b e f : ℕ) → ¬ AreSame a d g b e f → names' b e f ≡ names b e f

pub Update-cong :
    (names names' : Names) (b e f a d g : ℕ) (o : Option ℕ)
    → AreSame b e f a d g
    → Update names a d g o names'
    → Update names b e f o names'
Update-cong names names' b e f a d g o same u = record {
  hit = names_cong names' b e f a d g same ∙ u.hit;
  miss =
      λ x y z ne. u.miss x y z (λ at_it. ne (same.0 ∙ at_it.0, same.1 ∙ at_it.1, same.2 ∙ at_it.2));
}

pub pack-injective : (i j : ℕ) → i < 2 ^ 16 → j < 2 ^ 16 → pack i 0 ≡ pack j 0 → i ≡ j
pack-injective i j hi hj e =
    ap (λ (x : ℕ × ℕ). x.0)
      (sym (unpack-pack i 0 hi (omega arith)) ∙ ap unpack e ∙ unpack-pack j 0 hj (omega arith))

module _ {O : Type 0} where
  abbrev pub IsFor : Slot O → (a d g : ℕ) → Type 0
  IsFor s a d g = AreSame s.app_id s.depot_id s.manifest_gid a d g

  pub record Matches (names : Names) (slots : List (Option (Slot O))) : Type 0 where
    pub entered :
        (id : ℕ) (s : Slot O)
        → at slots id ≡ some s
        → names s.app_id s.depot_id s.manifest_gid ≡ some (pack id 0)
    pub held :
        (a d g ino : ℕ)
        → names a d g ≡ some ino
        → (id : ℕ) × (s : Slot O) × (ino ≡ pack id 0) × (at slots id ≡ some s) × IsFor s a d g
    pub few : length slots ≤ 2 ^ 16

  at-set_ne :
      (slots : List (Option (Slot O))) (k id : ℕ) (o : Option (Slot O))
      → k ≢ id
      → at (set slots k o) id ≡ at slots id
  at-set_ne slots k id o ne = ap flat (get_elem?-set_ne slots k id o ne)

  module _ (names names' : Names) (slots : List (Option (Slot O))) (m : Matches names slots) where
    pub Matches-cong : ((a d g : ℕ) → names' a d g ≡ names a d g) → Matches names' slots
    Matches-cong same = record {
      entered = λ id s e. same s.app_id s.depot_id s.manifest_gid ∙ m.entered id s e;
      held = λ a d g ino e. m.held a d g ino (sym (same a d g) ∙ e);
      few = m.few;
    }

    at-new :
        (s : Slot O) (id : ℕ) (r : Slot O)
        → at (slots ++ some s ∷ []) id ≡ some r
        → (at slots id ≡ some r) ⊎ ((id ≡ length slots) × (r ≡ s))
    at-new s id r e =
        let inside = at-lt (slots ++ some s ∷ []) id r e in
        elim (nat_eq_cases id (length slots)) [
          | inl last ↦
              let q = ap flat (get_elem?-append_end slots (some s)) in
              let k = ap (at (slots ++ some s ∷ [])) last in inr (last, cc)
          | inr other ↦
              let shorter : id < length slots =
                omega (arith, inside, other, length-append slots (some s ∷ [])) in
              inl (sym (ap flat (get_elem?-append_left slots (some s ∷ []) id shorter)) ∙ e)
        ]

    -- A slot is appended, and its triple, which had no name, is named after it.
    pub Matches-add :
        (s : Slot O)
        → length slots < 2 ^ 16
        → names s.app_id s.depot_id s.manifest_gid ≡ none
        → Update names s.app_id s.depot_id s.manifest_gid (some (pack (length slots) 0)) names'
        → Matches names' (slots ++ some s ∷ [])
    Matches-add s room new u = record {
      entered = λ id r e. elim (at-new s id r e) [
        | inl old ↦
            let was = m.entered id r old in
            elim (same_cases s.app_id s.depot_id s.manifest_gid r.app_id r.depot_id
              r.manifest_gid) [
                | inl same ↦ absurd (let k = names_cong names _ _ _ _ _ _ same in cc)
                | inr other ↦ u.miss _ _ _ other ∙ was
              ]
        | inr (last, is) ↦
            ap (λ (x : Slot O). names' x.app_id x.depot_id x.manifest_gid) is
            ∙ u.hit
            ∙ ap (λ (x : ℕ). some (pack x 0)) (sym last)
      ];
      held = λ a d g ino e. elim (same_cases s.app_id s.depot_id s.manifest_gid a d g) [
        | inl same ↦ (
          length slots,
          s,
          (let k = names_cong names' _ _ _ _ _ _ same in let h = u.hit in cc),
          ap flat (get_elem?-append_end slots (some s)),
          same,
        )
        | inr other ↦
            let (id, r, p, q, f) = m.held a d g ino (sym (u.miss a d g other) ∙ e) in
            (
              id,
              r,
              p,
              ap flat (get_elem?-append_left slots (some s ∷ []) id (at-lt slots id r q)) ∙ q,
              f,
            )
      ];
      few = omega (arith, room, length-append slots (some s ∷ []));
    }

    -- A slot is emptied, and its triple loses its name.
    pub Matches-remove :
        (id : ℕ) (s : Slot O)
        → at slots id ≡ some s
        → Update names s.app_id s.depot_id s.manifest_gid none names'
        → Matches names' (set slots id none)
    Matches-remove id s here u = record {
      entered = λ k r e. elim (nat_eq_cases id k) [
        | inl same ↦
            let p = ap flat (get_elem?-set_self slots id none (at-lt slots id s here)) in
            let q = ap (at (set slots id none)) same in absurd cc
        | inr ne ↦
            let was = m.entered k r (sym (at-set_ne slots id k none ne) ∙ e) in
            let old = at-lt slots k r (sym (at-set_ne slots id k none ne) ∙ e) in
            elim (same_cases s.app_id s.depot_id s.manifest_gid r.app_id r.depot_id
              r.manifest_gid) [
                | inl same ↦
                    let p = names_cong names _ _ _ _ _ _ same in
                    let q = m.entered id s here in
                    let inside = at-lt slots id s here in
                    absurd (
                      ne (
                        pack-injective id k (omega (arith, inside, m.few))
                          (omega (arith, old, m.few)) cc))
                | inr other ↦ u.miss _ _ _ other ∙ was
              ]
      ];
      held = λ a d g ino e. elim (same_cases s.app_id s.depot_id s.manifest_gid a d g) [
        | inl same ↦ absurd (let k = names_cong names' _ _ _ _ _ _ same in let h = u.hit in cc)
        | inr other ↦
            let (k, r, p, q, f) = m.held a d g ino (sym (u.miss a d g other) ∙ e) in
            elim (nat_eq_cases id k) [
              | inl same ↦
                  let z = ap (at slots) same in
                  let is : s ≡ r = cc in
                  absurd (
                    other (
                      ap (λ (x : Slot O). x.app_id) is ∙ f.0,
                      ap (λ (x : Slot O). x.depot_id) is ∙ f.1,
                      ap (λ (x : Slot O). x.manifest_gid) is ∙ f.2,
                    ))
              | inr ne ↦ (k, r, p, at-set_ne slots id k none ne ∙ q, f)
            ]
      ];
      few = omega (arith, m.few, length-set slots id none);
    }

  -- A slot is replaced by one with the same triple.
  pub Matches-replace :
      (names : Names) (slots : List (Option (Slot O)))
      → Matches names slots
      → (id : ℕ) (s r : Slot O) → at slots id ≡ some s
      → SameTriple s r
      → Matches names (set slots id (some r))
  Matches-replace names slots m id s r here triple =
      let self = ap flat (get_elem?-set_self slots id (some r) (at-lt slots id s here)) in
      record {
        entered = λ k q e. elim (nat_eq_cases id k) [
          | inl same ↦
              let z = ap (at (set slots id (some r))) same in
              let is : r ≡ q = cc in
              ap (λ (x : Slot O). names x.app_id x.depot_id x.manifest_gid) (sym is)
              ∙ sym (names_cong names _ _ _ _ _ _ triple)
              ∙ m.entered id s here
              ∙ ap (λ (x : ℕ). some (pack x 0)) same
          | inr ne ↦ m.entered k q (sym (at-set_ne slots id k (some r) ne) ∙ e)
        ];
        held = λ a d g ino e.
            let (k, q, p, there, f) = m.held a d g ino e in
            elim (nat_eq_cases id k) [
              | inl same ↦
                  let z = ap (at slots) same in
                  let is : s ≡ q = cc in
                  (
                    id,
                    r,
                    p ∙ ap (λ (x : ℕ). pack x 0) (sym same),
                    self,
                    (
                      sym triple.0 ∙ ap (λ (x : Slot O). x.app_id) is ∙ f.0,
                      sym triple.1 ∙ ap (λ (x : Slot O). x.depot_id) is ∙ f.1,
                      sym triple.2 ∙ ap (λ (x : Slot O). x.manifest_gid) is ∙ f.2,
                    ),
                  )
              | inr ne ↦ (k, q, p, at-set_ne slots id k (some r) ne ∙ there, f)
            ];
        few = omega (arith, m.few, length-set slots id (some r));
      }
