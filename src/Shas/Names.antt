-- ===== src/Shas/Names.antt =====
-- Which names `parse_sha` of crates/steam-depot/src/prefetch.rs reads, and as what.
use steam_depot_vfs.Prelude.{
  ℕ, ◌+◌, ◌-◌, ◌*◌, ◌/◌, ◌%◌, ◌<◌, ◌≡◌, ◌≢◌, refl, arith, true, false, List, [], ◌∷◌, some,
  if◌then◌else◌, ltb, length, ◌==◌, nat_eq,
}
use steam_depot_vfs.Depot.{Text, ChunkHash}
use steam_depot_vfs.Outcome.{ok, err, panicked}
use steam_depot_vfs.Shas.{hex_digit, byte_of, is_continuation, is_boundary, parse_pairs, parse_sha}

-- The digit that the cache writes: `Display` of a chunk hash is lower-case hexadecimal.
abbrev pub digit_char : ℕ → ℕ
digit_char d = if ltb d 10 then b'0' + d else b'a' + (d - 10)

abbrev pub hex_name : List ℕ → Text
hex_name [] = []
hex_name (v ∷ vs) = digit_char (v / 16) ∷ digit_char (v % 16) ∷ hex_name vs

abbrev pub AreBytes : List ℕ → Type 0
AreBytes [] = Unit
AreBytes (v ∷ vs) = (v < 256) × AreBytes vs

hex_digit-char : (d : ℕ) → d < 16 → hex_digit (digit_char d) ≡ some d
unfolding hex_digit
hex_digit-char d h = ground arith

not_sign : (d : ℕ) → d < 16 → (digit_char d == b'+') ≡ false
not_sign d h = ground arith

byte_of-char : (v : ℕ) → v < 256 → byte_of (digit_char (v / 16)) (digit_char (v % 16)) ≡ some v
byte_of-char v h =
    let high : v / 16 < 16 = omega arith in
    let low : v % 16 < 16 = omega arith in
    let whole : v / 16 * 16 + v % 16 ≡ v = omega arith in
    unfold byte_of in
    rw (not_sign (v / 16) high, hex_digit-char (v / 16) high, hex_digit-char (v % 16) low, whole)
      refl

ascii : (d : ℕ) → d < 16 → is_continuation (digit_char d) ≡ false
ascii d h = ground arith

boundary-hex_name : (vs : List ℕ) → AreBytes vs → is_boundary (hex_name vs) ≡ true
boundary-hex_name [] h = refl
boundary-hex_name (v ∷ vs) h = rw (ascii (v / 16) (omega (arith, h.0))) refl

parse_pairs-step :
    (a b v : ℕ) (s : Text) (vs : List ℕ)
    → is_boundary s ≡ true
    → byte_of a b ≡ some v
    → parse_pairs s ≡ ok vs
    → parse_pairs (a ∷ b ∷ s) ≡ ok (v ∷ vs)
parse_pairs-step a b v s vs cut byte rest =
    unfold parse_pairs in rw (cut, byte, rest, parse_pairs) refl

parse_pairs-hex_name : (vs : List ℕ) → AreBytes vs → parse_pairs (hex_name vs) ≡ ok vs
parse_pairs-hex_name [] h = unfold parse_pairs in refl
parse_pairs-hex_name (v ∷ vs) (small, h) =
    parse_pairs-step (digit_char (v / 16)) (digit_char (v % 16)) v (hex_name vs) vs
      (boundary-hex_name vs h) (byte_of-char v small) (parse_pairs-hex_name vs h)

length-hex_name : (vs : List ℕ) → length (hex_name vs) ≡ length vs + length vs
length-hex_name [] = omega arith
length-hex_name (v ∷ vs) = omega (arith, length-hex_name vs)

-- The name under which a chunk is cached, the forty hexadecimal digits of its hash, is read as that
-- hash; a name of another length, such as that of a temporary file, is skipped.
pub parse_sha-hex_name :
    (sha : ChunkHash) (s : Text)
    → AreBytes sha
    → length sha ≡ 20
    → (parse_sha (hex_name sha) ≡ ok sha) × (length s ≢ 40 → parse_sha s ≡ err tt)
parse_sha-hex_name sha s bytes twenty = (
  unfold parse_sha in rw (forty, parse_sha) (parse_pairs-hex_name sha bytes),
  λ other.
      (let e : (length s == 40) ≡ false = ground (arith, other) in unfold parse_sha in rw e refl),
)
  where
    forty : length (hex_name sha) ≡ 40
    forty = omega (arith, length-hex_name sha, twenty)

-- Digits, each with a sign before it.
abbrev pub signed_name : List ℕ → Text
signed_name [] = []
signed_name (d ∷ ds) = b'+' ∷ digit_char d ∷ signed_name ds

abbrev pub AreDigits : List ℕ → Type 0
AreDigits [] = Unit
AreDigits (d ∷ ds) = (d < 16) × AreDigits ds

boundary-signed_name : (ds : List ℕ) → is_boundary (signed_name ds) ≡ true
boundary-signed_name [] = refl
boundary-signed_name (d ∷ ds) = refl

parse_pairs-signed_name : (ds : List ℕ) → AreDigits ds → parse_pairs (signed_name ds) ≡ ok ds
parse_pairs-signed_name [] h = unfold parse_pairs in refl
parse_pairs-signed_name (d ∷ ds) (small, h) =
    parse_pairs-step b'+' (digit_char d) d (signed_name ds) ds (boundary-signed_name ds)
      (unfold byte_of in hex_digit-char d small) (parse_pairs-signed_name ds h)

length-signed_name : (ds : List ℕ) → length (signed_name ds) ≡ length ds + length ds
length-signed_name [] = omega arith
length-signed_name (d ∷ ds) = omega (arith, length-signed_name ds)

-- A name of forty bytes whose third byte is inside a character makes `parse_sha` panic; and a name of
-- twenty digits, each with a plus sign before it, is read as a hash, though it is not of forty digits.
pub parse_sha_strays :
    (a b c : ℕ) (s : Text) (ds : List ℕ)
    → is_continuation c ≡ true
    → length (a ∷ b ∷ c ∷ s) ≡ 40
    → AreDigits ds
    → length ds ≡ 20
    → (parse_sha (a ∷ b ∷ c ∷ s) ≡ panicked) × (parse_sha (signed_name ds) ≡ ok ds)
parse_sha_strays a b c s ds inside forty digits twenty = (
  unfold parse_sha in rw (forty, parse_sha) (unfold parse_pairs in rw (inside, parse_pairs) refl),
  unfold parse_sha in rw (signs, parse_sha) (parse_pairs-signed_name ds digits),
)
  where
    signs : length (signed_name ds) ≡ 40
    signs = omega (arith, length-signed_name ds, twenty)
