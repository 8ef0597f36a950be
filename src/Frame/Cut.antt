-- ===== src/Frame/Cut.antt =====
-- `decode_frame` of crates/steam-depot-vfs/src/chunk_store/cache.rs on a frame whose writing was cut off.
use steam_depot_vfs.Prelude.{
  ℕ, zero, suc, ◌-◌, ◌%◌, ◌^◌, ◌<◌, ◌≤◌, ◌≡◌, refl, sym, ap, ◌∙◌, arith, List, [], ◌∷◌, ◌++◌, some,
  ltb, length, length-append, length-take, take, Bool-cases, inl, inr,
}
use steam_depot_vfs.Depot.{Bytes, ChunkHash}
use steam_depot_vfs.Outcome.{ok}
use steam_depot_vfs.Frame.{Codec, CodecLaws, max_plain_len, encode_frame}
use steam_depot_vfs.Frame.LittleEndian.{
  to_le_bytes, from_le_bytes, length-to_le_bytes, from_le_bytes-to_le_bytes,
}
use steam_depot_vfs.Frame.Decode.{decode_frame}
use steam_depot_vfs.Frame.RoundTrip.{decode-parts, encode_parts}
use steam_depot_vfs.Frame.Accepts.{decode_frame_lem, checked-some}

take-append_right {ℓ} :
    {A : Type ℓ} (n : ℕ) (xs ys : List A)
    → length xs ≤ n
    → take n (xs ++ ys) ≡ xs ++ take (n - length xs) ys
take-append_right n [] ys h = let e : n ≡ n - 0 = omega arith in ap (λ m. take m ys) e
take-append_right zero (x ∷ xs) ys h = absurd (omega arith)
take-append_right (suc n) (x ∷ xs) ys h =
    let e : n - length xs ≡ suc n - suc (length xs) = omega arith in
    ap (◌∷◌ x) (take-append_right n xs ys (omega arith) ∙ ap (λ m. xs ++ take m ys) e)

module _ (codec : Codec) where
  -- A part that decodes has a whole header.
  has_header :
      (frame plain : Bytes) (key : ChunkHash) (k : ℕ)
      → decode_frame codec (take k frame) ≡ some (key, plain)
      → 28 ≤ k
  has_header frame plain key k dec =
      let f = (decode_frame_lem codec (take k frame) key plain).0 dec in
      omega (arith, f.whole_header, length-take k frame)

  -- A frame of which only a first part was written decodes, if at all, to the bytes it was made of.
  pub decode_cut :
      CodecLaws codec
      → (b frame plain : Bytes) (key : ChunkHash) (k : ℕ) → length b < 2 ^ 64
      → encode_frame codec b ≡ ok frame
      → decode_frame codec (take k frame) ≡ some (key, plain)
      → (key ≡ codec.sha1 b) × (plain ≡ b)
  decode_cut laws b frame plain key k small enc dec =
      let (z, packed, e) = encode_parts codec b frame enc in
      let head = to_le_bytes 8 (length b % 2 ^ 64) in
      let digest = codec.sha1 b in
      let j = k - length (head ++ digest) in
      let long = has_header frame plain key k dec in
      let n : from_le_bytes head ≡ length b =
        from_le_bytes-to_le_bytes 8 (length b % 2 ^ 64) (omega arith) ∙ omega arith in
      let header : length (head ++ digest) ≡ 28 = omega (
        arith,
        length-append head digest,
        length-to_le_bytes 8 (length b % 2 ^ 64),
        laws.sha1_len b,
      ) in
      let cut : take k frame ≡ head ++ digest ++ take j z =
        ap (take k) e ∙ take-append_right k (head ++ digest) z (omega arith) in
      let parts =
        decode-parts codec head digest (take j z) (length-to_le_bytes 8 _) (laws.sha1_len b) in
      let made = sym parts ∙ ap (decode_frame codec) (sym cut) ∙ dec in
      elim (Bool-cases (ltb max_plain_len (from_le_bytes head))) [
        | inl over ↦ absurd (ground (arith, made, over))
        | inr under ↦
            let (unpacks, same, named) =
              checked-some codec frame digest key (from_le_bytes head) _ plain
                ((sym (rw under refl)) ∙ made) in
            (named, laws.decompress-cut b z plain j (from_le_bytes head) packed unpacks (same ∙ n))
      ]
