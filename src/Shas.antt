-- ===== src/Shas.antt =====
-- `parse_sha` of crates/steam-depot/src/prefetch.rs and crates/steam-depot/src/stats.rs: a chunk's name in
-- the cache directory. A text is its bytes, in UTF-8.
pub mod Names
mod Tests
use steam_depot_vfs.Prelude.{
  ℕ, ◌+◌, ◌-◌, ◌*◌, Bool, true, false, not, ◌&&◌, List, [], ◌∷◌, Option, some, none, if◌then◌else◌,
  leb, length, ◌==◌, nat_eq,
}
use steam_depot_vfs.Depot.{Text, ChunkHash}
use steam_depot_vfs.Outcome.{Outcome, ok, err, panicked, ◌>>=◌}

-- `char::to_digit(16)`
unfoldable pub hex_digit : ℕ → Option ℕ
hex_digit c =
    if leb b'0' c && leb c b'9'
    then some (c - b'0')
    else if leb b'a' c && leb c b'f'
    then some (c - b'a' + 10)
    else if leb b'A' c && leb c b'F'
    then some (c - b'A' + 10)
    else none

abbrev pub two_digits : Option ℕ → Option ℕ → Option ℕ
two_digits (some high) (some low) = some (high * 16 + low)
two_digits _ _ = none

-- `u8::from_str_radix` of two characters in base 16, which takes a sign.
unfoldable pub byte_of : ℕ → ℕ → Option ℕ
unfolding hex_digit
byte_of a b = if a == b'+' then hex_digit b else two_digits (hex_digit a) (hex_digit b)

-- A byte that continues a character: no text may be cut before it.
abbrev pub is_continuation : ℕ → Bool
is_continuation c = leb 128 c && leb c 191

abbrev pub is_boundary : Text → Bool
is_boundary [] = true
is_boundary (c ∷ cs) = not (is_continuation c)

-- The loop over the pairs; `err` is `None`. The slice of a pair panics where it ends inside a character.
unfoldable pub parse_pairs : Text → Outcome (Unit {0}) (List ℕ)
unfolding byte_of
parse_pairs [] = ok []
parse_pairs (a ∷ []) = err tt
parse_pairs (a ∷ b ∷ s) =
    let rest = parse_pairs s in
    if is_boundary s
    then elim (byte_of a b) [ none ↦ err tt | some v ↦ rest >>= λ vs. ok (v ∷ vs) ]
    else panicked

unfoldable pub parse_sha : Text → Outcome (Unit {0}) ChunkHash
unfolding parse_pairs
parse_sha s = if length s == 40 then parse_pairs s else err tt
