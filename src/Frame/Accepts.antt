-- ===== src/Frame/Accepts.antt =====
-- What `decode_frame` of crates/steam-depot-vfs/src/chunk_store/cache.rs accepts.
use mathlib.Core.Option.{some-injective}
use native.Mathlib.Decide.{dec_lt}
use steam_depot_vfs.Prelude.{
  ℕ, ◌<◌, ◌≤◌, ◌≡◌, ◌↔◌, refl, sym, ap, ◌∙◌, arith, Option, some, none, if◌then◌else◌, ltb, leb,
  length, take, drop, Bool-cases, Option-cases, inl, inr, Bool, true, false, ◌==◌, nat_eq,
  nat_beq_iff,
}
use steam_depot_vfs.Depot.{Bytes, ChunkHash}
use steam_depot_vfs.Fs.Read.Slices.{between}
use steam_depot_vfs.Frame.{Codec, max_plain_len, frame_header_len}
use steam_depot_vfs.Frame.LittleEndian.{from_le_bytes, get_range-some, get_from-some}
use steam_depot_vfs.Frame.Decode.{decode_frame}
use steam_depot_vfs.Frame.RoundTrip.{checked}

too_short : (n to : ℕ) → n < to → leb to n ≡ false
too_short n to h = ground arith

module _ (codec : Codec) (frame : Bytes) where
  abbrev claimed_len : ℕ
  claimed_len = from_le_bytes (take 8 frame)

  -- The frame is at least its header long, promises no more than the cap, names `sha`, and its body
  -- decompresses to exactly as many bytes as it promises.
  pub record IsFrame (sha : ChunkHash) (plain : Bytes) : Type 0 where
    pub whole_header : frame_header_len ≤ length frame
    pub capped : length plain ≤ max_plain_len
    pub promised : claimed_len ≡ length plain
    pub names : sha ≡ between 8 frame_header_len frame
    pub unpacks : codec.decompress (drop frame_header_len frame) claimed_len ≡ some plain

  decode-short : length frame < frame_header_len → decode_frame codec frame ≡ none
  decode-short h = elim (dec_lt (length frame) 8) [
    | yes k ↦ unfold decode_frame in rw (too_short (length frame) 8 k) refl
    | no k ↦
        unfold decode_frame in
        rw (get_range-some 0 8 frame (omega arith) (omega arith), too_short (length frame) 28 h)
          (never (ltb max_plain_len claimed_len))
  ]
    where
      never : (b : Bool) → ◌≡◌ {A = Option (ChunkHash × Bytes)} (if b then none else none) none
      never true = refl
      never false = refl

  decode-whole :
      frame_header_len ≤ length frame
      → decode_frame codec frame ≡ (
          if ltb max_plain_len claimed_len
          then none
          else checked codec
              (between 8 28 frame)
              claimed_len
              (codec.decompress (drop 28 frame) claimed_len))
  decode-whole h =
      unfold decode_frame in
      rw
        (
          get_range-some 0 8 frame (omega arith) (omega arith),
          get_range-some 8 28 frame (omega arith) h,
          get_from-some 28 frame h,
        )
        (elim (Option-cases (codec.decompress (drop 28 frame) claimed_len)) [
          | inl e ↦ rw e refl
          | inr (p, e) ↦ rw e refl
        ])

  pub checked-some :
      (digest sha : ChunkHash) (n : ℕ) (o : Option Bytes) (plain : Bytes)
      → checked codec digest n o ≡ some (sha, plain)
      → (o ≡ some plain) × (length plain ≡ n) × (sha ≡ digest)
  checked-some digest sha n none plain h = absurd cc
  checked-some digest sha n (some p) plain h = elim (Bool-cases (length p == n)) [
    | inl same ↦
        let e : ◌≡◌ {A = ChunkHash × Bytes} (digest, p) (sha, plain) =
          some-injective _ _ (ground (arith, same, h)) in
        let q : p ≡ plain = ap (λ (x : ChunkHash × Bytes). x.1) e in
        (
          ap some q,
          sym (ap length q) ∙ (nat_beq_iff _ _).0 same,
          sym (ap (λ (x : ChunkHash × Bytes). x.0) e),
        )
    | inr other ↦ absurd (ground (arith, other, h))
  ]

  accepted :
      (sha : ChunkHash) (plain : Bytes)
      → decode_frame codec frame ≡ some (sha, plain)
      → IsFrame sha plain
  accepted sha plain h = elim (dec_lt (length frame) 28) [
    | yes k ↦ absurd (let e = decode-short k in cc)
    | no k ↦ elim (Bool-cases (ltb max_plain_len claimed_len)) [
      | inl over ↦ absurd (let e = decode-whole (omega arith) in ground (arith, e, over))
      | inr under ↦
          let e : checked codec (between 8 28 frame) claimed_len
                (codec.decompress (drop 28 frame) claimed_len)
              ≡ some (sha, plain) =
            sym (decode-whole (omega arith) ∙ rw under refl) ∙ h in
          let (u, l, d) = checked-some _ sha claimed_len _ plain e in
          record {
            whole_header = omega arith;
            capped = ground (arith, under, l);
            promised = sym l;
            names = d;
            unpacks = u;
          }
    ]
  ]

  -- `decode_frame` returns a digest and bytes exactly for a frame that promises at most 64 MiB, names
  -- that digest, and decompresses to those bytes, as many as it promises.
  pub decode_frame_lem :
      (sha : ChunkHash) (plain : Bytes)
      → (decode_frame codec frame ≡ some (sha, plain)) ↔ IsFrame sha plain
  decode_frame_lem sha plain = (
    accepted sha plain,
    λ f.
        let under : ltb max_plain_len claimed_len ≡ false = ground (arith, f.capped, f.promised) in
        decode-whole f.whole_header
        ∙ rw (under, f.unpacks)
            (elim (Bool-cases (length plain == claimed_len)) [
              | inl same ↦ rw same (ap (λ (d : ChunkHash). some (d, plain)) (sym f.names))
              | inr other ↦ absurd (ground (arith, other, f.promised))
            ]),
  )
