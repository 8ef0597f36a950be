-- ===== src/Nfs/Utf8.antt =====
-- `str::from_utf8` of the standard library, as a test: the well-formed sequences of the Unicode standard.
use steam_depot_vfs.Prelude.{
  ℕ, zero, suc, Bool, true, false, ◌&&◌, [], ◌∷◌, Option, some, none, if◌then◌else◌, ltb, leb,
}
use steam_depot_vfs.Depot.{Bytes}

-- How many bytes follow a first byte, and the range of the next one.
abbrev first_byte : ℕ → Option (ℕ × ℕ × ℕ)
first_byte b =
    if ltb b 128
    then some (0, 128, 191)
    else if ltb b 194
    then none
    else if ltb b 224
    then some (1, 128, 191)
    else if ltb b 225
    then some (2, 160, 191)
    else if ltb b 237
    then some (2, 128, 191)
    else if ltb b 238
    then some (2, 128, 159)
    else if ltb b 240
    then some (2, 128, 191)
    else if ltb b 241
    then some (3, 144, 191)
    else if ltb b 244
    then some (3, 128, 191)
    else if ltb b 245
    then some (3, 128, 143)
    else none

unfoldable pub utf8_from : ℕ → ℕ → ℕ → Bytes → Bool
utf8_from zero lo hi [] = true
utf8_from (suc n) lo hi [] = false
utf8_from zero lo hi (b ∷ bs) = elim (first_byte b) [
  | none ↦ false
  | some (n, lo', hi') ↦ utf8_from n lo' hi' bs
]
utf8_from (suc n) lo hi (b ∷ bs) = let rest = utf8_from n 128 191 bs in leb lo b && leb b hi && rest

unfoldable pub is_utf8 : Bytes → Bool
unfolding utf8_from
is_utf8 bs = utf8_from 0 128 191 bs
