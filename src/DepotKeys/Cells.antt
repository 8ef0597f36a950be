-- ===== src/DepotKeys/Cells.antt =====
-- The cells of the depots, in crates/steam-depot-vfs/src/depot_key_cache.rs.
use steam_depot_vfs.Prelude.{
  ℕ, ◌≡◌, ◌<◌, refl, sym, ap, ◌∙◌, arith, List, [], ◌∷◌, Option, some, none, length, get_elem?,
  nat_eq, list_eq, ◌==◌, ==_iff, Bool-cases, inl, inr, get_elem?-lt, get_elem?-append_left,
  length-append, ==_refl, ◌⊎◌,
}
use steam_depot_vfs.Prelude.Maps.{HashMap, lookup, insert, lookup-insert}
use steam_depot_vfs.DepotKeys.{DepotKeyMemoryCache, cell_or_new, get_lazy}

-- The key of a depot is known.
pub record IsKnown (app_id depot_id k : ℕ) (s : DepotKeyMemoryCache) : Type 0 where
  pub cell : ℕ
  pub has_cell : lookup (app_id ∷ depot_id ∷ []) s.cells ≡ some cell
  pub has_value : get_elem? s.values cell ≡ some (some k)

pub same_value : (a b : ℕ) → ◌≡◌ {A = Option ℕ} (some a) (some b) → a ≡ b
same_value a b h = cc

-- Every cell of a depot exists.
abbrev pub IsSound : DepotKeyMemoryCache → Type 0
IsSound s = (key : List ℕ) (c : ℕ) → lookup key s.cells ≡ some c → c < length s.values

inserted_cell :
    (key other : List ℕ) (n c : ℕ) (cells : HashMap (List ℕ) ℕ)
    → lookup other cells ≡ some c
    → lookup key cells ≡ none
    → lookup other (insert key n cells) ≡ some c
inserted_cell key other n c cells h absent = elim (Bool-cases (key == other)) [
  | inl same ↦ absurd (
      let e : lookup key cells ≡ lookup other cells =
        ap (λ x. lookup x cells) ((==_iff key other).0 same) in
      cc)
  | inr differs ↦ lookup-insert key other n cells ∙ rw differs h
]

cell_or_new-IsKnown :
    (app_id depot_id k : ℕ) (o : Option ℕ) (key : List ℕ) (s : DepotKeyMemoryCache)
    → lookup key s.cells ≡ o
    → IsKnown app_id depot_id k s
    → IsKnown app_id depot_id k (cell_or_new o key s).1
cell_or_new-IsKnown app_id depot_id k (some c) key s e h = h
cell_or_new-IsKnown app_id depot_id k none key s e h = record {
  cell = h.cell;
  has_cell =
      inserted_cell key (app_id ∷ depot_id ∷ []) (length s.values) h.cell s.cells h.has_cell e;
  has_value =
      get_elem?-append_left s.values (none ∷ []) h.cell (get_elem?-lt s.values h.cell h.has_value)
      ∙ h.has_value;
}

inserted_cases :
    (key other : List ℕ) (n c : ℕ) (cells : HashMap (List ℕ) ℕ)
    → lookup other (insert key n cells) ≡ some c
    → (n ≡ c) ⊎ (lookup other cells ≡ some c)
inserted_cases key other n c cells h = elim (Bool-cases (key == other)) [
  | inl same ↦ inl (
      let e : lookup other (insert key n cells) ≡ some n =
        lookup-insert key other n cells ∙ rw same refl in
      same_value _ _ (sym e ∙ h))
  | inr differs ↦ inr (
      let e : lookup other (insert key n cells) ≡ lookup other cells =
        lookup-insert key other n cells ∙ rw differs refl in
      sym e ∙ h)
]

cell_or_new-IsSound :
    (o : Option ℕ) (key : List ℕ) (s : DepotKeyMemoryCache)
    → lookup key s.cells ≡ o
    → IsSound s
    → IsSound (cell_or_new o key s).1
cell_or_new-IsSound (some c) key s e h = h
cell_or_new-IsSound none key s e h = λ other c found.
    elim (inserted_cases key other (length s.values) c s.cells found) [
      | inl q ↦ omega (arith, length-append s.values (none ∷ []))
      | inr old ↦ omega (arith, length-append s.values (none ∷ []), h other c old)
    ]

pub cell_or_new-has_cell :
    (o : Option ℕ) (key : List ℕ) (s : DepotKeyMemoryCache)
    → lookup key s.cells ≡ o
    → lookup key (cell_or_new o key s).1.cells ≡ some (cell_or_new o key s).0
cell_or_new-has_cell (some c) key s e = e
cell_or_new-has_cell none key s e =
    lookup-insert key key (length s.values) s.cells ∙ rw (==_refl key) refl

pub ask-IsKnown :
    (app_id depot_id k a d : ℕ) (s : DepotKeyMemoryCache)
    → IsKnown app_id depot_id k s
    → IsKnown app_id depot_id k (get_lazy a d s).1
ask-IsKnown app_id depot_id k a d s h =
    unfold get_lazy in
    cell_or_new-IsKnown app_id depot_id k (lookup (a ∷ d ∷ []) s.cells) (a ∷ d ∷ []) s refl h

pub ask-IsSound : (a d : ℕ) (s : DepotKeyMemoryCache) → IsSound s → IsSound (get_lazy a d s).1
ask-IsSound a d s h =
    unfold get_lazy in cell_or_new-IsSound (lookup (a ∷ d ∷ []) s.cells) (a ∷ d ∷ []) s refl h
