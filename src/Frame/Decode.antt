-- ===== src/Frame/Decode.antt =====
-- `decode_frame` of crates/steam-depot-vfs/src/chunk_store/cache.rs. A `usize` has 64 bits.
use steam_depot_vfs.Prelude.{Option, some, none, if◌then◌else◌, ltb, length, ◌==◌, nat_eq}
use steam_depot_vfs.Depot.{Bytes, ChunkHash}
use steam_depot_vfs.Frame.{Codec, max_plain_len, frame_header_len}
use steam_depot_vfs.Frame.LittleEndian.{from_le_bytes, get_range, get_from}

infixl 5 ◌>>=◌
abbrev ◌>>=◌ {ℓ κ} : {A : Type ℓ} {B : Type κ} → Option A → (A → Option B) → Option B
none >>= f = none
some a >>= f = f a

module _ (codec : Codec) where
  unfoldable pub decode_frame : Bytes → Option (ChunkHash × Bytes)
  unfolding from_le_bytes
  decode_frame frame = do
    head ← get_range 0 8 frame
    let plain_len = from_le_bytes head
    if ltb max_plain_len plain_len then none else do
      digest ← get_range 8 frame_header_len frame
      body ← get_from frame_header_len frame
      plain ← codec.decompress body plain_len
      if length plain == plain_len then some (digest, plain) else none
