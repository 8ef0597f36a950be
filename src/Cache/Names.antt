-- ===== src/Cache/Names.antt =====
-- The names of temporary files in crates/steam-depot-vfs/src/chunk_store/cache.rs (`tmp_path`).
use steam_depot_vfs.Prelude.{
  ℕ, ◌≡◌, ◌≢◌, refl, sym, ap, ◌∙◌, arith, Bool, true, false, ◌||◌, [], ◌∷◌, ◌++◌, ◌==◌, nat_eq,
}
use steam_depot_vfs.Prelude.Decimal.{to_string, to_string-injective}
use steam_depot_vfs.Depot.{Text}
use steam_depot_vfs.Cache.{tmp_name}

abbrev pub has_dot : Text → Bool
has_dot [] = false
has_dot (c ∷ cs) = c == b'.' || has_dot cs

has_dot-after : (xs ys : Text) → has_dot (xs ++ b'.' ∷ ys) ≡ true
has_dot-after [] ys = refl
has_dot-after (x ∷ xs) ys = ground (arith, has_dot-after xs ys)

has_dot-tmp_name : (pid : ℕ) (name : Text) (nonce : ℕ) → has_dot (tmp_name pid name nonce) ≡ true
has_dot-tmp_name pid name nonce = unfold tmp_name in has_dot-after name _

-- No file whose name has no dot is a temporary one.
pub tmp_name-ne :
    (pid : ℕ) (name : Text) (nonce : ℕ) (q : Text) → has_dot q ≡ false → tmp_name pid name nonce ≢ q
tmp_name-ne pid name nonce q h e =
    absurd (let t = sym (ap has_dot e) ∙ has_dot-tmp_name pid name nonce in ground (arith, t, h))

head_or : ℕ → Text → ℕ
head_or d [] = d
head_or d (x ∷ xs) = x

tail_of : Text → Text
tail_of [] = []
tail_of (x ∷ xs) = xs

cons-tail : (x y : ℕ) (xs ys : Text) → x ∷ xs ≡ y ∷ ys → xs ≡ ys
unfolding tail_of
cons-tail x y xs ys h = ap tail_of h

cons-head : (x y : ℕ) (xs ys : Text) → x ∷ xs ≡ y ∷ ys → x ≡ y
unfolding head_or
cons-head x y xs ys h = ap (head_or x) h

append_left_cancel : (xs ys zs : Text) → xs ++ ys ≡ xs ++ zs → ys ≡ zs
append_left_cancel [] ys zs h = h
append_left_cancel (x ∷ xs) ys zs h =
    append_left_cancel xs ys zs (cons-tail x x (xs ++ ys) (xs ++ zs) h)

-- What stands before the first dot, and after it.
dot_split :
    (a b us vs : Text)
    → has_dot a ≡ false
    → has_dot b ≡ false
    → a ++ b'.' ∷ us ≡ b ++ b'.' ∷ vs
    → (a ≡ b) × (us ≡ vs)
dot_split [] [] us vs ha hb h = (refl, cons-tail b'.' b'.' us vs h)
dot_split [] (y ∷ b) us vs ha hb h =
    absurd (let e = cons-head b'.' y us (b ++ b'.' ∷ vs) h in ground (arith, hb, e))
dot_split (x ∷ a) [] us vs ha hb h =
    absurd (let e = cons-head x b'.' (a ++ b'.' ∷ us) vs h in ground (arith, ha, e))
dot_split (x ∷ a) (y ∷ b) us vs ha hb h =
    let (rest, after) =
      dot_split a b us vs (ground (arith, ha)) (ground (arith, hb))
        (cons-tail x y (a ++ b'.' ∷ us) (b ++ b'.' ∷ vs) h) in
    let e = cons-head x y (a ++ b'.' ∷ us) (b ++ b'.' ∷ vs) h in ((λ i. e i ∷ rest i), after)

-- Two names with no dot give different temporary names, unless the names and the nonces are equal.
pub tmp_name-injective :
    (pid : ℕ) (a b : Text) (n k : ℕ)
    → has_dot a ≡ false
    → has_dot b ≡ false
    → tmp_name pid a n ≡ tmp_name pid b k
    → (a ≡ b) × (n ≡ k)
unfolding tmp_name
tmp_name-injective pid a b n k ha hb h =
    let (same, after) = dot_split a b _ _ ha hb h in
    let rest = append_left_cancel (b't' ∷ b'm' ∷ b'p' ∷ b'.' ∷ to_string pid) _ _ after in
    (same, to_string-injective n k (cons-tail b'.' b'.' (to_string n) (to_string k) rest))
