-- ===== src/Prelude/Decimal.antt =====
-- Rust's `to_string` and `str::parse` for unsigned integers, over the bytes of the text.
use Prim.Native.Nat.{ℕ, zero, suc, ◌+◌, ◌-◌, ◌*◌, ◌/◌, ◌%◌, ◌≤◌}
use mathlib.Core.Path.{◌≡◌, refl}
use mathlib.Core.Logic.{◌≢◌, inl, inr}
use mathlib.Core.Bool.{◌&&◌}
use mathlib.Core.List.{List, [], ◌∷◌, ◌++◌}
use mathlib.Core.Option.{Option, none, some}
use native.Mathlib.Omega.{arith}
use steam_depot_vfs.Prelude.Tests.{ltb, leb, if◌then◌else◌, Bool-cases}

-- With fuel: one round for each digit but the first.
pub digits_of : ℕ → ℕ → List ℕ
digits_of zero n = (b'0' + n % 10) ∷ []
digits_of (suc fuel) n =
    let more = digits_of fuel (n / 10) ++ (b'0' + n % 10) ∷ [] in
    if ltb n 10 then (b'0' + n) ∷ [] else more

unfoldable pub to_string : ℕ → List ℕ
unfolding digits_of
to_string n = digits_of n n

-- `bound` is the largest value of the integer type.
unfoldable pub parse_digits : ℕ → ℕ → List ℕ → Option ℕ
parse_digits bound acc [] = some acc
parse_digits bound acc (c ∷ s) =
    let v = acc * 10 + (c - b'0') in
    let rest = parse_digits bound v s in
    if leb b'0' c && leb c b'9' then (if leb v bound then rest else none) else none

-- A leading `+` is accepted, an empty text is not.
unfoldable pub parse_uint : ℕ → List ℕ → Option ℕ
unfolding parse_digits
parse_uint bound [] = none
parse_uint bound (c ∷ []) = parse_digits bound 0 (c ∷ [])
parse_uint bound (c ∷ d ∷ s) =
    if leb b'+' c && leb c b'+'
    then parse_digits bound 0 (d ∷ s)
    else parse_digits bound 0 (c ∷ d ∷ s)

parse_digits-append :
    (bound acc v : ℕ) (s t : List ℕ)
    → parse_digits bound acc s ≡ some v
    → parse_digits bound acc (s ++ t) ≡ parse_digits bound v t
unfolding parse_digits
parse_digits-append bound acc v [] t h = ground arith
parse_digits-append bound acc v (c ∷ s) t h =
    ground (arith, parse_digits-append bound (acc * 10 + (c - b'0')) v s t)

parse_digits-digits_of :
    (bound fuel n : ℕ) → n ≤ fuel → n ≤ bound → parse_digits bound 0 (digits_of fuel n) ≡ some n
unfolding parse_digits digits_of
parse_digits-digits_of bound zero n h fits = ground arith
parse_digits-digits_of bound (suc fuel) n h fits = elim (Bool-cases (ltb n 10)) [
  | inl small ↦ rw small (ground arith)
  | inr large ↦
      rw
        (
          large,
          parse_digits-append bound 0 (n / 10) (digits_of fuel (n / 10)) _
              (parse_digits-digits_of bound fuel (n / 10) (ground arith) (omega arith)),
        )
        (ground arith)
]

-- Every byte of a printed number is a digit.
abbrev pub IsDigits : List ℕ → Type 0
IsDigits [] = Unit
IsDigits (c ∷ s) = (b'0' ≤ c) × (c ≤ b'9') × IsDigits s

IsDigits-append : (s t : List ℕ) → IsDigits s → IsDigits t → IsDigits (s ++ t)
IsDigits-append [] t hs ht = ht
IsDigits-append (c ∷ s) t hs ht = (hs.0, hs.1, IsDigits-append s t hs.2 ht)

IsDigits-digits_of : (fuel n : ℕ) → IsDigits (digits_of fuel n)
unfolding digits_of
IsDigits-digits_of zero n = (omega arith, omega arith, tt)
IsDigits-digits_of (suc fuel) n = elim (Bool-cases (ltb n 10)) [
  | inl small ↦ rw small (ground arith)
  | inr large ↦
      rw large
        (IsDigits-append _ _ (IsDigits-digits_of fuel (n / 10)) (omega arith, omega arith, tt))
]

pub IsDigits-to_string : (n : ℕ) → IsDigits (to_string n)
unfolding to_string
IsDigits-to_string n = IsDigits-digits_of n n

skip_sign :
    (bound v : ℕ) (s : List ℕ)
    → IsDigits s
    → parse_digits bound 0 s ≡ some v
    → s ≢ []
    → parse_uint bound s ≡ some v
unfolding parse_uint
skip_sign bound v [] d h ne = absurd (ne refl)
skip_sign bound v (c ∷ []) d h ne = h
skip_sign bound v (c ∷ e ∷ s) d h ne = ground arith

append_end-ne-nil : (s : List ℕ) (c : ℕ) → s ++ c ∷ [] ≢ []
append_end-ne-nil [] c = λ h. cc
append_end-ne-nil (d ∷ s) c = λ h. cc

to_string-ne-nil : (n : ℕ) → to_string n ≢ []
unfolding to_string
to_string-ne-nil zero = λ h. cc
to_string-ne-nil (suc n) = elim (Bool-cases (ltb (suc n) 10)) [
  | inl small ↦ rw small (λ h. cc)
  | inr large ↦ rw large (append_end-ne-nil (digits_of n (suc n / 10)) (b'0' + suc n % 10))
]

-- A number is read back from its print.
pub parse_uint-to_string : (bound n : ℕ) → n ≤ bound → parse_uint bound (to_string n) ≡ some n
parse_uint-to_string bound n fits =
    skip_sign bound n (to_string n) (IsDigits-to_string n)
      (unfold to_string in parse_digits-digits_of bound n n (omega arith) fits) (to_string-ne-nil n)

pub to_string-injective : (a b : ℕ) → to_string a ≡ to_string b → a ≡ b
to_string-injective a b h =
    ground (arith, parse_uint-to_string (a + b) a, parse_uint-to_string (a + b) b)
