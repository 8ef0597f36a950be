-- ===== src/Frame/RoundTrip.antt =====
-- `decode_frame` of crates/steam-depot-vfs/src/chunk_store/cache.rs undoes `encode_frame`.
use steam_depot_vfs.Prelude.{
  ℕ, ◌+◌, ◌%◌, ◌^◌, ◌<◌, ◌≡◌, refl, sym, ap, ◌∙◌, subst, arith, ◌++◌, append_assoc, Option, some,
  none, if◌then◌else◌, ltb, length, length-append, take, drop, Option-cases, inl, inr, ◌==◌, nat_eq,
  ==_refl,
}
use steam_depot_vfs.Depot.{Bytes, Text, ChunkHash}
use steam_depot_vfs.Outcome.{Outcome, ok, err, panicked, bind-ok, ok-injective}
use steam_depot_vfs.Frame.{
  Codec, CodecLaws, max_plain_len, map_other, encode_frame_as, encode_frame,
}
use steam_depot_vfs.Frame.LittleEndian.{
  to_le_bytes, from_le_bytes, get_range, get_from, length-to_le_bytes, from_le_bytes-to_le_bytes,
  drop-append, take-append, get_range-some, get_from-some,
}
use steam_depot_vfs.Frame.Decode.{decode_frame}

module _ (codec : Codec) where
  -- What `decode_frame` makes of a frame with a whole header.
  abbrev pub checked : ChunkHash → ℕ → Option Bytes → Option (ChunkHash × Bytes)
  checked digest n none = none
  checked digest n (some plain) = if length plain == n then some (digest, plain) else none

  pub decode-parts :
      (head digest body : Bytes)
      → length head ≡ 8
      → length digest ≡ 20
      → decode_frame codec (head ++ digest ++ body) ≡ (
          if ltb max_plain_len (from_le_bytes head)
          then none
          else checked digest (from_le_bytes head) (codec.decompress body (from_le_bytes head)))
  decode-parts head digest body h d =
      let frame = head ++ digest ++ body in
      let hd = length-append head digest in
      let len : length frame ≡ 28 + length body =
        omega (arith, length-append (head ++ digest) body, hd) in
      let a : get_range 0 8 frame ≡ some head =
        get_range-some 0 8 frame (omega arith) (omega (arith, len))
        ∙ ap some (
            subst (λ (x : Bytes). take 8 x ≡ head) (sym (append_assoc head digest body))
              (take-append head (digest ++ body) 8 h)) in
      let b : get_range 8 28 frame ≡ some digest =
        get_range-some 8 28 frame (omega arith) (omega (arith, len))
        ∙ ap some (
            ap (drop 8) (take-append (head ++ digest) body 28 (omega (arith, hd)))
            ∙ drop-append head digest 8 h) in
      let c : get_from 28 frame ≡ some body =
        get_from-some 28 frame (omega (arith, len))
        ∙ ap some (drop-append (head ++ digest) body 28 (omega (arith, hd))) in
      unfold decode_frame in
      rw (a, b, c)
        (elim (Option-cases (codec.decompress body (from_le_bytes head))) [
          | inl e ↦ rw e refl
          | inr (p, e) ↦ rw e refl
        ])

  pub encode_parts :
      (plain frame : Bytes)
      → encode_frame codec plain ≡ ok frame
      → (z : Bytes) × (codec.compress plain ≡ ok z)
        × (frame ≡ to_le_bytes 8 (length plain % 2 ^ 64) ++ codec.sha1 plain ++ z)
  unfolding encode_frame encode_frame_as
  encode_parts plain frame h =
      let (_, _, h1) = bind-ok (map_other codec.compressor) _ frame h in
      let (_, _, h2) = bind-ok (map_other codec.set_checksum) _ frame h1 in
      let (z, e, h3) = bind-ok (map_other (codec.compress plain)) _ frame h2 in
      (z, unmap (codec.compress plain) z e, sym (ok-injective _ _ h3))
    where
      unmap : (o : Outcome Text Bytes) (z : Bytes) → map_other o ≡ ok z → o ≡ ok z
      unmap (ok a) z e = ap ok (ok-injective a z e)
      unmap (err e') z e = absurd cc
      unmap panicked z e = absurd cc

  -- A frame that `encode_frame` builds decodes to the same bytes and to their digest, unless there
  -- are more than 64 MiB of them: such a frame, which `encode_frame` still builds, is refused.
  pub decode_frame-encode_frame :
      CodecLaws codec
      → (plain frame : Bytes) → length plain < 2 ^ 64
      → encode_frame codec plain ≡ ok frame
      → decode_frame codec frame
        ≡ (if ltb max_plain_len (length plain) then none else some (codec.sha1 plain, plain))
  decode_frame-encode_frame laws plain frame small h =
      let (z, packed, e) = encode_parts plain frame h in
      let head = to_le_bytes 8 (length plain % 2 ^ 64) in
      let m : length plain % 2 ^ 64 ≡ length plain = omega arith in
      let n : from_le_bytes head ≡ length plain =
        from_le_bytes-to_le_bytes 8 (length plain % 2 ^ 64) (omega arith) ∙ m in
      let u = laws.decompress-compress plain z (length plain) packed (omega arith) in
      let same = ==_refl (length plain) in
      rw (
        e,
        decode-parts head (codec.sha1 plain) z (length-to_le_bytes 8 _) (laws.sha1_len plain),
        n,
        u,
        same,
      )
