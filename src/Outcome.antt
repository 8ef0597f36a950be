-- ===== src/Outcome.antt =====
-- What a call returns: a value, an error, or a panic of the Rust code (an index or a slice out of
-- bounds, a capacity overflow).
use steam_depot_vfs.Prelude.{◌≡◌, refl, ap, ℕ, List, Option, none, some, take, drop, length, leb}
use steam_depot_vfs.Prelude.{if◌then◌else◌, ◌&&◌, get_elem?}

pub data Outcome {ℓ κ} (E : Type ℓ) (A : Type κ) : Type (ℓ ⊔ κ) where
  ok : A → Outcome E A
  err : E → Outcome E A
  panicked : Outcome E A

infixl 5 ◌>>=◌
abbrev pub ◌>>=◌ {ℓ κ μ} :
    {E : Type ℓ} {A : Type κ} {B : Type μ} → Outcome E A → (A → Outcome E B) → Outcome E B
ok a >>= f = f a
err e >>= f = err e
panicked >>= f = panicked

module _ {ℓ κ} {E : Type ℓ} {A : Type κ} where
  -- `ok_or_else`
  abbrev pub ok_or : E → Option A → Outcome E A
  ok_or e none = err e
  ok_or e (some a) = ok a

  -- `xs[i]`
  abbrev pub index : List A → ℕ → Outcome E A
  index xs i = elim (get_elem? xs i) [ none ↦ panicked | some a ↦ ok a ]

  -- `&xs[from..to]`
  abbrev pub slice : List A → ℕ → ℕ → Outcome E (List A)
  slice xs from to =
      if leb from to && leb to (length xs) then ok (drop from (take to xs)) else panicked

-- A chain that succeeds has a first step that does.
pub bind-ok {ℓ κ μ} :
    {E : Type ℓ} {A : Type κ} {B : Type μ} (m : Outcome E A) (f : A → Outcome E B) (b : B)
    → (m >>= f) ≡ ok b
    → (a : A) × (m ≡ ok a) × (f a ≡ ok b)
bind-ok (ok a) f b h = (a, refl, h)
bind-ok (err e) f b h = absurd cc
bind-ok panicked f b h = absurd cc

pub data OutcomeCase {ℓ κ} {E : Type ℓ} {A : Type κ} (m : Outcome E A) : Type (ℓ ⊔ κ) where
  is_ok : (a : A) → m ≡ ok a → OutcomeCase m
  is_err : (e : E) → m ≡ err e → OutcomeCase m
  is_panic : m ≡ panicked → OutcomeCase m

pub Outcome-cases {ℓ κ} : {E : Type ℓ} {A : Type κ} (m : Outcome E A) → OutcomeCase m
Outcome-cases (ok a) = is_ok a refl
Outcome-cases (err e) = is_err e refl
Outcome-cases panicked = is_panic refl

pub ok-injective {ℓ κ} :
    {E : Type ℓ} {A : Type κ} (a b : A) → ◌≡◌ {A = Outcome E A} (ok a) (ok b) → a ≡ b
ok-injective {E} {A} a b h = ap from_ok h
  where
    from_ok : Outcome E A → A
    from_ok (ok x) = x
    from_ok _ = a
