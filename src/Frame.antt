-- ===== src/Frame.antt =====
-- The frame format of crates/steam-depot-vfs/src/chunk_store/cache.rs: `encode_frame`. The crates
-- `sha1` and `zstd` are a parameter, with what their documentation promises as `CodecLaws`.
pub mod Decode
pub mod LittleEndian
pub mod RoundTrip
pub mod Cut
pub mod Accepts
use steam_depot_vfs.Prelude.{
  ℕ, ◌+◌, ◌*◌, ◌≡◌, ◌≤◌, List, ◌++◌, Option, some, none, length, take, ◌%◌, ◌^◌,
}
use steam_depot_vfs.Depot.{Bytes, Text, ChunkHash}
use steam_depot_vfs.Outcome.{Outcome, ok, err, panicked, ◌>>=◌}
use steam_depot_vfs.ChunkStore.{Result, VfsError, other}
use steam_depot_vfs.Frame.LittleEndian.{to_le_bytes}

abbrev pub max_plain_len : ℕ
max_plain_len = 64 * 2 ^ 20

abbrev pub frame_header_len : ℕ
frame_header_len = 8 + 20

-- `Sha1::digest`, and `zstd::bulk`. `compressor` and `set_checksum` may fail before anything is compressed;
-- `decompress` gets the capacity of its output.
pub record Codec : Type 0 where
  pub sha1 : Bytes → ChunkHash
  pub compressor : Outcome Text (Unit {0})
  pub set_checksum : Outcome Text (Unit {0})
  pub compress : Bytes → Outcome Text Bytes
  pub decompress : Bytes → ℕ → Option Bytes

-- A digest has 20 bytes; what was compressed decompresses into any capacity that is large enough; and
-- a first part of it, as a write that was cut off leaves, decompresses to nothing of the same
-- length but the input itself.
pub record CodecLaws (codec : Codec) : Type 0 where
  pub sha1_len : (b : Bytes) → length (codec.sha1 b) ≡ 20
  pub decompress-compress :
      (plain z : Bytes) (capacity : ℕ)
      → codec.compress plain ≡ ok z
      → length plain ≤ capacity
      → codec.decompress z capacity ≡ some plain
  pub decompress-cut :
      (plain z out : Bytes) (k capacity : ℕ)
      → codec.compress plain ≡ ok z
      → codec.decompress (take k z) capacity ≡ some out
      → length out ≡ length plain
      → out ≡ plain

-- `map_err(|e| VfsError::Other(e.into()))`
abbrev pub map_other : {A : Type 0} → Outcome Text A → Result A
map_other (ok a) = ok a
map_other (err e) = err (other e)
map_other panicked = panicked

module _ (codec : Codec) where
  unfoldable pub encode_frame_as : Bytes → ChunkHash → Result Bytes
  unfolding to_le_bytes
  encode_frame_as plain digest = do
    _ ← map_other codec.compressor
    _ ← map_other codec.set_checksum
    compressed ← map_other (codec.compress plain)
    ok (to_le_bytes 8 (length plain % 2 ^ 64) ++ digest ++ compressed)

  unfoldable pub encode_frame : Bytes → Result Bytes
  unfolding encode_frame_as
  encode_frame plain = encode_frame_as plain (codec.sha1 plain)
