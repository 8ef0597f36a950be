-- ===== src/Shas/Tests.antt =====
-- Runs of `parse_sha` of crates/steam-depot/src/prefetch.rs.
use steam_depot_vfs.Prelude.{ℕ, zero, suc, ◌≡◌, arith, refl, List, [], ◌∷◌}
use steam_depot_vfs.Outcome.{ok, panicked}
use steam_depot_vfs.Shas.{parse_sha}
use steam_depot_vfs.Shas.Names.{signed_name, parse_sha_strays}

abbrev zeros : ℕ → List ℕ
zeros zero = []
zeros (suc n) = 0 ∷ zeros n

strays_example :
    (parse_sha (b'a' ∷ 195 ∷ 169 ∷ zeros 37) ≡ panicked)
    × (parse_sha (signed_name (zeros 20)) ≡ ok (zeros 20))
strays_example = parse_sha_strays b'a' 195 169 (zeros 37) (zeros 20) refl refl (omega arith) refl
