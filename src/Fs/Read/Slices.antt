-- ===== src/Fs/Read/Slices.antt =====
-- The part of a list between two places, as `&xs[from..to]` takes it.
use steam_depot_vfs.Prelude.{
  ℕ, zero, suc, ◌+◌, ◌-◌, ◌≤◌, ◌≡◌, refl, ap, sym, arith, List, [], ◌∷◌, ◌++◌, length, take, drop,
  length-take, length-drop, drop-all,
}

module _ {ℓ} {A : Type ℓ} where
  abbrev pub between : ℕ → ℕ → List A → List A
  between from to xs = drop from (take to xs)

  pub between_empty : (from to : ℕ) (xs : List A) → to ≤ from → between from to xs ≡ []
  between_empty from to xs h = drop-all from (take to xs) (omega (arith, length-take to xs))

  pub length-between :
      (from to : ℕ) (xs : List A)
      → from ≤ to
      → to ≤ length xs
      → length (between from to xs) ≡ to - from
  length-between from to xs h k = omega (arith, length-drop from (take to xs), length-take to xs)

  -- Two adjoining parts make one.
  pub between-append :
      (a m b : ℕ) (xs : List A) → a ≤ m → m ≤ b → between a m xs ++ between m b xs ≡ between a b xs
  between-append zero zero b xs h k = refl
  between-append zero (suc m) zero xs h k = absurd (omega arith)
  between-append zero (suc m) (suc b) [] h k = refl
  between-append zero (suc m) (suc b) (x ∷ xs) h k =
      ap (◌∷◌ x) (between-append zero m b xs (omega arith) (omega arith))
  between-append (suc a) zero b xs h k = absurd (omega arith)
  between-append (suc a) (suc m) zero xs h k = absurd (omega arith)
  between-append (suc a) (suc m) (suc b) [] h k = refl
  between-append (suc a) (suc m) (suc b) (x ∷ xs) h k =
      between-append a m b xs (omega arith) (omega arith)

  take-take : (a b : ℕ) (xs : List A) → a ≤ b → take a (take b xs) ≡ take a xs
  take-take zero b xs h = refl
  take-take (suc a) zero xs h = absurd (omega arith)
  take-take (suc a) (suc b) [] h = refl
  take-take (suc a) (suc b) (x ∷ xs) h = ap (◌∷◌ x) (take-take a b xs (omega arith))

  between_empty_nil : (a b : ℕ) → between a b [] ≡ []
  between_empty_nil zero zero = refl
  between_empty_nil zero (suc b) = refl
  between_empty_nil (suc a) zero = refl
  between_empty_nil (suc a) (suc b) = refl

  -- A part of a part, by places in the whole.
  pub between-between :
      (a b c d : ℕ) (xs : List A)
      → b ≤ d - c
      → between a b (between c d xs) ≡ between (a + c) (b + c) xs
  between-between a b zero d xs h =
      let e : a + 0 ≡ a = omega arith in
      let f : b + 0 ≡ b = omega arith in rw (e, f) (ap (drop a) (take-take b d xs (omega arith)))
  between-between zero zero (suc c) d xs h =
      let e : 0 + suc c ≡ suc c = omega arith in
      rw e (sym (between_empty (suc c) (suc c) xs (omega arith)))
  between-between (suc a) zero (suc c) d xs h =
      rw (between_empty (suc a + suc c) (0 + suc c) xs (omega arith))
  between-between a (suc b) (suc c) zero xs h = absurd (omega arith)
  between-between a (suc b) (suc c) (suc d) [] h =
      rw (between_empty_nil (a + suc c) (suc b + suc c), between_empty_nil a (suc b))
  between-between a (suc b) (suc c) (suc d) (x ∷ xs) h =
      let e : a + suc c ≡ suc (a + c) = omega arith in
      let f : suc b + suc c ≡ suc (suc b + c) = omega arith in
      rw (e, f) (between-between a (suc b) c d xs (omega arith))
