-- ===== src/Inode.antt =====
-- crates/steam-depot-mount/src/inode.rs: a 16-bit snapshot id above a 48-bit index, in a `u64`.
pub mod Packing
use Prim.Native.Nat.{bit_and, bit_or}
use steam_depot_vfs.Prelude.{ℕ, ◌-◌, ◌*◌, ◌/◌, ◌%◌, ◌^◌}

abbrev pub synthetic : ℕ
synthetic = 0

abbrev pub root : ℕ
root = 1

abbrev pub snapshot_shift : ℕ
snapshot_shift = 48

abbrev pub index_mask : ℕ
index_mask = 2 ^ snapshot_shift - 1

-- The shift drops what leaves the `u64`.
unfoldable pub pack : ℕ → ℕ → ℕ
pack snapshot index = bit_or (snapshot * 2 ^ snapshot_shift % 2 ^ 64) index

-- `as SnapshotId` keeps the low 16 bits.
unfoldable pub unpack : ℕ → ℕ × ℕ
unpack ino = (ino / 2 ^ snapshot_shift % 2 ^ 16, bit_and ino index_mask)
