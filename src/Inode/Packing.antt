-- ===== src/Inode/Packing.antt =====
-- `pack` and `unpack` of crates/steam-depot-mount/src/inode.rs are inverse to one another.
use steam_depot_vfs.Prelude.{ℕ, ◌+◌, ◌*◌, ◌%◌, ◌^◌, ◌≤◌, ◌<◌, ◌≡◌, arith}
use steam_depot_vfs.Prelude.Bits.{bit_or-eq-add, bit_and-eq-mod}
use steam_depot_vfs.Inode.{pack, unpack, index_mask}

pub pack_as_sum : (s i : ℕ) → s < 2 ^ 16 → i ≤ index_mask → pack s i ≡ s * 2 ^ 48 + i
unfolding pack
pack_as_sum s i hs hi =
    let e : s * 2 ^ 48 % 2 ^ 64 ≡ s * 2 ^ 48 = omega arith in
    rw e (bit_or-eq-add 48 s i (omega arith))

-- For a 16-bit snapshot id and an index of at most 48 bits, `unpack` recovers both from `pack`.
pub unpack-pack : (s i : ℕ) → s < 2 ^ 16 → i ≤ index_mask → unpack (pack s i) ≡ (s, i)
unfolding unpack
unpack-pack s i hs hi =
    rw (pack_as_sum s i hs hi) (ground (arith, bit_and-eq-mod 48 (s * 2 ^ 48 + i)))

small : (ino : ℕ) → (unpack ino).0 < 2 ^ 16
unfolding unpack
small ino = omega arith

fits : (ino : ℕ) → (unpack ino).1 ≤ index_mask
unfolding unpack
fits ino = omega (arith, bit_and-eq-mod 48 ino)

whole : (ino : ℕ) → ino < 2 ^ 64 → pack (unpack ino).0 (unpack ino).1 ≡ ino
whole ino h =
    rw (pack_as_sum (unpack ino).0 (unpack ino).1 (small ino) (fits ino))
      (unfold unpack in omega (arith, bit_and-eq-mod 48 ino))

-- `unpack` recovers a 16-bit snapshot id and an index of at most 48 bits from their `pack`, and every
-- 64-bit inode is the `pack` of the parts that `unpack` returns, which are in range.
pub pack-unpack :
    (s i ino : ℕ)
    → s < 2 ^ 16
    → i ≤ index_mask
    → ino < 2 ^ 64
    → (unpack (pack s i) ≡ (s, i))
      × ((unpack ino).0 < 2 ^ 16)
      × ((unpack ino).1 ≤ index_mask)
      × (pack (unpack ino).0 (unpack ino).1 ≡ ino)
pack-unpack s i ino hs hi h = (unpack-pack s i hs hi, small ino, fits ino, whole ino h)
