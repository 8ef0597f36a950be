-- ===== src/Fs/Missing.antt =====
-- What `first_missing_component` of crates/steam-depot-vfs/src/fs.rs finds.
use mathlib.Core.Option
use mathlib.Core.Option.{some-injective}
use mathlib.Core.Bool.{false≢true}
use native.Mathlib.Decide.{dec_lt}
use steam_depot_vfs.Prelude.{
  ℕ, zero, suc, ◌+◌, ◌≤◌, ◌<◌, ◌≡◌, ◌≢◌, refl, sym, ap, ◌∙◌, subst, arith, true, false, [], ◌∷◌,
  ◌⊎◌, Option, none, some, if◌then◌else◌, ◌==◌, list_eq, nat_eq, nat_beq_iff, get_elem?, length,
  take, get_elem?-lt, ◌↔◌, Bool-cases, inl, inr,
}
use steam_depot_vfs.Depot.{Text}
use steam_depot_vfs.Fs.Paths.{slash, find_slash}
use steam_depot_vfs.Fs.{DepotManifestStore, is_present, missing_from, first_missing_component}

-- A component of `path` ends at `k`: a slash stands there, or the end of the text.
abbrev pub IsBoundary : Text → ℕ → Type 0
IsBoundary path k = (get_elem? path k ≡ some slash) ⊎ (k ≡ length path)

shift : (c : ℕ) (cs : Text) (k : ℕ) → IsBoundary cs k → IsBoundary (c ∷ cs) (suc k)
shift c cs k (inl e) = inl e
shift c cs k (inr e) = inr (ap suc e)

-- Where the component that begins at `from` ends.
abbrev next : Text → ℕ → ℕ
next s from = Option.get_or (find_slash s from) (length s)

next-zero : (c : ℕ) (cs : Text) → next (c ∷ cs) 0 ≡ (if c == slash then 0 else suc (next cs 0))
unfolding find_slash
next-zero c cs = ground arith

next-suc : (c : ℕ) (cs : Text) (from : ℕ) → next (c ∷ cs) (suc from) ≡ suc (next cs from)
unfolding find_slash
next-suc c cs from = ground arith

next_bounds :
    (s : Text) (from : ℕ) → from ≤ length s → (from ≤ next s from) × (next s from ≤ length s)
unfolding find_slash
next_bounds [] from h = omega arith
next_bounds (c ∷ cs) zero h = rw (next-zero c cs) (ground (arith, next_bounds cs 0))
next_bounds (c ∷ cs) (suc from) h =
    rw (next-suc c cs from) (omega (arith, next_bounds cs from (omega arith)))

next-IsBoundary : (s : Text) (from : ℕ) → from ≤ length s → IsBoundary s (next s from)
next-IsBoundary [] from h = unfold find_slash in inr refl
next-IsBoundary (c ∷ cs) zero h = elim (Bool-cases (c == slash)) [
  | inl here ↦ rw (next-zero c cs, here) (inl (ap some ((nat_beq_iff c slash).0 here)))
  | inr more ↦ rw (next-zero c cs, more) (shift c cs _ (next-IsBoundary cs 0 (omega arith)))
]
next-IsBoundary (c ∷ cs) (suc from) h =
    rw (next-suc c cs from) (shift c cs _ (next-IsBoundary cs from (omega arith)))

next_least : (s : Text) (from k : ℕ) → from ≤ k → k < next s from → get_elem? s k ≢ some slash
next_least [] from k h below e = cc
next_least (c ∷ cs) zero zero h below e =
    absurd (ground (arith, next-zero c cs, nat_beq_iff c slash))
next_least (c ∷ cs) zero (suc k) h below e =
    next_least cs 0 k (omega arith) (ground (arith, next-zero c cs)) e
next_least (c ∷ cs) (suc from) zero h below e = absurd (omega arith)
next_least (c ∷ cs) (suc from) (suc k) h below e =
    next_least cs from k (omega arith) (omega (arith, next-suc c cs from)) e

-- Every component of `path` that ends before `end` is there.
abbrev PresentBefore : DepotManifestStore → Text → ℕ → Type 0
PresentBefore st path end =
    (k : ℕ) → k < end → IsBoundary path k → is_present st (take k path) ≡ true

-- No component of `path` is missing.
abbrev pub AllPresent : DepotManifestStore → Text → Type 0
AllPresent st path = (k : ℕ) → IsBoundary path k → is_present st (take k path) ≡ true

-- The component that ends at `k` is missing, and those before it are there.
pub record IsFirstMissing (st : DepotManifestStore) (path prefix : Text) : Type 0 where
  pub place : ℕ
  pub boundary : IsBoundary path place
  pub prefix_eq : prefix ≡ take place path
  pub missing : is_present st prefix ≡ false
  pub before : PresentBefore st path place

abbrev Answer : DepotManifestStore → Text → Option Text → Type 0
Answer st path none = AllPresent st path
Answer st path (some prefix) = IsFirstMissing st path prefix

boundary-le : (path : Text) (k : ℕ) → IsBoundary path k → k ≤ length path
boundary-le path k (inl e) = omega (arith, get_elem?-lt path k e)
boundary-le path k (inr e) = omega arith

missing_from_lem :
    (fuel : ℕ) (st : DepotManifestStore) (path : Text) (end : ℕ)
    → length path < fuel + end
    → end ≤ length path
    → PresentBefore st path end
    → Answer st path (missing_from fuel st path end)
unfolding missing_from
missing_from_lem zero st path end enough inside before = absurd (omega arith)
missing_from_lem (suc fuel) st path end enough inside before =
    elim (Bool-cases (is_present st (take stop path))) [
      | inr gone ↦ rw gone (record {
        place = stop;
        boundary = next-IsBoundary path end inside;
        prefix_eq = refl;
        missing = gone;
        before = earlier;
      })
      | inl there ↦ elim (Bool-cases (stop == length path)) [
        | inl last ↦ rw (there, last) (upto_end there ((nat_beq_iff _ _).0 last))
        | inr more ↦
            rw (there, more)
              (missing_from_lem fuel st path (stop + 1) (omega (arith, next_bounds path end inside))
                (ground (arith, next_bounds path end inside)) (upto there))
      ]
    ]
  where
    stop : ℕ
    stop = next path end

    earlier : PresentBefore st path stop
    earlier k below (inl e) = elim (dec_lt k end) [
      | yes h ↦ before k h (inl e)
      | no h ↦ absurd (next_least path end k (omega arith) below e)
    ]
    earlier k below (inr e) = absurd (omega (arith, next_bounds path end inside))

    upto : is_present st (take stop path) ≡ true → PresentBefore st path (stop + 1)
    upto there k below b = elim (dec_lt k stop) [
      | yes h ↦ earlier k h b
      | no h ↦ let e : k ≡ stop = omega arith in rw e there
    ]

    upto_end : is_present st (take stop path) ≡ true → stop ≡ length path → AllPresent st path
    upto_end there last k b = upto there k (omega (arith, boundary-le path k b)) b

answer :
    (st : DepotManifestStore) (path : Text)
    → path ≢ []
    → Answer st path (first_missing_component st path)
unfolding first_missing_component
answer st [] h = absurd (h refl)
answer st (c ∷ cs) h =
    missing_from_lem (suc (length (c ∷ cs))) st (c ∷ cs) 0 (omega arith) (omega arith)
      (λ k below b. absurd (omega arith))

read_off :
    (st : DepotManifestStore) (path : Text) (o : Option Text)
    → Answer st path o
    → ((prefix : Text) → o ≡ some prefix → IsFirstMissing st path prefix)
      × ((o ≡ none) ↔ AllPresent st path)
read_off st path none a = (λ prefix e. cc, (λ e. a, λ all. refl))
read_off st path (some p) a = (
  λ prefix e. subst (IsFirstMissing st path) (some-injective p prefix e) a,
  (
    λ e. cc,
    λ all.
        absurd
          (false≢true (sym a.missing ∙ ap (is_present st) a.prefix_eq ∙ all a.place a.boundary)),
  ),
)

-- For a path that is not empty the walk ends, and names the first component that is neither a file
-- nor a directory of the index; it names none exactly when every component is one.
pub first_missing_component_lem :
    (st : DepotManifestStore) (path : Text)
    → path ≢ []
    → ((prefix : Text)
        → first_missing_component st path ≡ some prefix
        → IsFirstMissing st path prefix)
      × ((first_missing_component st path ≡ none) ↔ AllPresent st path)
first_missing_component_lem st path h =
    read_off st path (first_missing_component st path) (answer st path h)
