-- ===== src/Tree/Paths.antt =====
-- The keys of `synth_by_path` in crates/steam-depot-mount/src/tree.rs: which of the paths that
-- `add` makes can be the same.
use steam_depot_vfs.Prelude.{ℕ, ◌≡◌, ◌≢◌, refl, arith, [], ◌∷◌, ◌++◌, list_beq}
use steam_depot_vfs.Prelude.Decimal.{to_string, IsDigits, IsDigits-to_string, to_string-injective}
use steam_depot_vfs.Depot.{Text}
use steam_depot_vfs.Tree.{depot_path, join_path}

-- The part before the first `/` and what stands behind it are determined.
cut-injective :
    (s t u v : Text) → IsDigits s → IsDigits t → s ++ b'/' ∷ u ≡ t ++ b'/' ∷ v → (s ≡ t) × (u ≡ v)
cut-injective [] [] u v hs ht e = (refl, cc)
cut-injective [] (d ∷ t) u v hs ht e = ground (arith, ht.0)
cut-injective (c ∷ s) [] u v hs ht e = ground (arith, hs.0)
cut-injective (c ∷ s) (d ∷ t) u v hs ht e =
    let (p, q) = cut-injective s t u v hs.2 ht.2 cc in (cc, q)

no_slash : (s t u : Text) → IsDigits s → s ≢ t ++ b'/' ∷ u
no_slash [] [] u hs = λ e. cc
no_slash [] (d ∷ t) u hs = λ e. cc
no_slash (c ∷ s) [] u hs = λ e. ground (arith, hs.0)
no_slash (c ∷ s) (d ∷ t) u hs = λ e. no_slash s t u hs.2 cc

-- The path of a depot's directory determines the app and the depot.
pub depot_path-injective : (a d b e : ℕ) → depot_path a d ≡ depot_path b e → (a ≡ b) × (d ≡ e)
depot_path-injective a d b e h =
    let (p, q) =
      cut-injective (to_string a) (to_string b) (to_string d) (to_string e) (IsDigits-to_string a)
        (IsDigits-to_string b) cc in
    (to_string-injective a b p, to_string-injective d e q)

pub join_path-root : (name : Text) → join_path [] name ≡ b'/' ∷ name
unfolding list_beq
join_path-root name = refl

pub join_path-app :
    (a d : ℕ) → join_path (join_path [] (to_string a)) (to_string d) ≡ depot_path a d
unfolding list_beq
join_path-app a d = refl

-- It is not the path of an app's directory.
pub app_path-ne : (b a d : ℕ) → join_path [] (to_string b) ≢ depot_path a d
app_path-ne b a d h =
    no_slash (to_string b) (to_string a) (to_string d) (IsDigits-to_string b)
      (let e = join_path-root (to_string b) in cc)
