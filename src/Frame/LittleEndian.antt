-- ===== src/Frame/LittleEndian.antt =====
-- `u64::to_le_bytes` and `u64::from_le_bytes`, and `slice::get` of a range.
use steam_depot_vfs.Prelude.{
  ℕ, zero, suc, ◌+◌, ◌*◌, ◌/◌, ◌%◌, ◌^◌, ◌<◌, ◌≤◌, ◌≡◌, refl, ap, arith, List, [], ◌∷◌, ◌++◌,
  Option, some, none, if◌then◌else◌, leb, le→leb, length, take, drop, ◌&&◌,
}
use steam_depot_vfs.Depot.{Bytes}

unfoldable pub to_le_bytes : ℕ → ℕ → Bytes
to_le_bytes zero n = []
to_le_bytes (suc k) n = n % 256 ∷ to_le_bytes k (n / 256)

unfoldable pub from_le_bytes : Bytes → ℕ
from_le_bytes [] = 0
from_le_bytes (b ∷ bs) = b + 256 * from_le_bytes bs

-- `xs.get(from..to)`
abbrev pub get_range {ℓ} : {A : Type ℓ} → ℕ → ℕ → List A → Option (List A)
get_range from to xs =
    if leb from to && leb to (length xs) then some (drop from (take to xs)) else none

-- `xs.get(from..)`
abbrev pub get_from {ℓ} : {A : Type ℓ} → ℕ → List A → Option (List A)
get_from from xs = if leb from (length xs) then some (drop from xs) else none

pub length-to_le_bytes : (k n : ℕ) → length (to_le_bytes k n) ≡ k
unfolding to_le_bytes
length-to_le_bytes zero n = refl
length-to_le_bytes (suc k) n = omega (arith, length-to_le_bytes k (n / 256))

below_256 : (n m : ℕ) → n < 256 * m → n / 256 < m
below_256 n m h = omega arith

pub from_le_bytes-to_le_bytes : (k n : ℕ) → n < 256 ^ k → from_le_bytes (to_le_bytes k n) ≡ n
unfolding to_le_bytes from_le_bytes
from_le_bytes-to_le_bytes zero n h = omega arith
from_le_bytes-to_le_bytes (suc k) n h =
    let p : 256 ^ suc k ≡ 256 * 256 ^ k = omega arith in
    let e : from_le_bytes (to_le_bytes k (n / 256)) ≡ n / 256 =
      from_le_bytes-to_le_bytes k (n / 256) (below_256 n (256 ^ k) (omega arith)) in
    omega (arith, e)

module _ {ℓ} {A : Type ℓ} where
  pub drop-append : (xs ys : List A) (n : ℕ) → length xs ≡ n → drop n (xs ++ ys) ≡ ys
  drop-append [] ys zero h = refl
  drop-append [] ys (suc n) h = absurd (omega arith)
  drop-append (x ∷ xs) ys zero h = absurd (omega arith)
  drop-append (x ∷ xs) ys (suc n) h = drop-append xs ys n (omega arith)

  pub take-append : (xs ys : List A) (n : ℕ) → length xs ≡ n → take n (xs ++ ys) ≡ xs
  take-append [] ys zero h = refl
  take-append [] ys (suc n) h = absurd (omega arith)
  take-append (x ∷ xs) ys zero h = absurd (omega arith)
  take-append (x ∷ xs) ys (suc n) h = ap (◌∷◌ x) (take-append xs ys n (omega arith))

  -- A range is there exactly when its ends are in order and inside.
  pub get_range-some :
      (from to : ℕ) (xs : List A)
      → from ≤ to
      → to ≤ length xs
      → get_range from to xs ≡ some (drop from (take to xs))
  get_range-some from to xs h k = rw (le→leb from to h, le→leb to (length xs) k)

  pub get_from-some :
      (from : ℕ) (xs : List A) → from ≤ length xs → get_from from xs ≡ some (drop from xs)
  get_from-some from xs h = rw (le→leb from (length xs) h)
