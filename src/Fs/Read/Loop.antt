-- ===== src/Fs/Read/Loop.antt =====
-- The loop over the chunks in `read_into` of crates/steam-depot-vfs/src/fs.rs.
use Prim.Native.Nat.{max}
use native.Mathlib.Decide.{dec_le}
use steam_depot_vfs.Prelude.{
  ℕ, ◌+◌, ◌-◌, ◌%◌, ◌≤◌, ◌<◌, min, ◌≡◌, refl, subst, ◌∙◌, arith, List, [], ◌∷◌, ◌++◌, append_assoc,
  append-nil, leb, length, Bool-cases, inl, inr,
}
use steam_depot_vfs.Depot.{Bytes, Text, Chunk, ChunkHash}
use steam_depot_vfs.Outcome.{ok, err, panicked, ◌>>=◌}
use steam_depot_vfs.ChunkStore
use steam_depot_vfs.ChunkStore.{ChunkStore, VfsError, IsFaithful}
use steam_depot_vfs.Fs.{Result}
use steam_depot_vfs.Fs.Read.{chunk_end, from_store, append_part, read_chunks, u64_mod, isize_max}
use steam_depot_vfs.Fs.Read.Slices.{
  between, between_empty, length-between, between-append, between-between,
}
use steam_depot_vfs.Fs.Read.Layout.{
  Contiguous, Contiguous-le, PartsOf, AllShas, ReadResult, whole, store_error, store_panic,
}

checked_slice :
    (c : Chunk) (path : Text) (offset end : ℕ) (out b : Bytes) (to : ℕ)
    → (min end (chunk_end c) + u64_mod - c.offset) % u64_mod ≡ to
    → offset - c.offset ≤ to
    → to ≤ length b
    → append_part path c offset end out b ≡ ok (out ++ between (offset - c.offset) to b)
unfolding append_part
checked_slice c path offset end out b to e h k = rw e (ground arith)

module _ (c : Chunk) (offset end : ℕ) (content : Bytes) where
  append_part_lem :
      (path : Text) (out : Bytes)
      → c.offset + c.size_uncompressed ≤ length content
      → length content ≤ isize_max
      → offset < c.offset + c.size_uncompressed
      → c.offset < end
      → offset ≤ end
      → append_part path c offset end out
          (between c.offset (c.offset + c.size_uncompressed) content)
        ≡ ok (
            out ++ between (max c.offset offset) (min end (c.offset + c.size_uncompressed)) content)
  append_part_lem path out fits small after before ordered =
      let to = min end (c.offset + c.size_uncompressed) - c.offset in
      let from = offset - c.offset in
      let len =
        length-between c.offset (c.offset + c.size_uncompressed) content (omega arith) fits in
      let part =
        between-between from to c.offset (c.offset + c.size_uncompressed) content (omega arith) in
      let e : from + c.offset ≡ max c.offset offset = omega arith in
      let g : to + c.offset ≡ min end (c.offset + c.size_uncompressed) = omega arith in
      checked_slice c path offset end out _ to (omega arith) (omega arith) (omega (arith, len))
      ∙ rw (part, e, g)

  -- The part of one chunk, and what the later chunks add.
  join_parts :
      (out : Bytes) (e : ℕ)
      → offset < e
      → c.offset ≤ e
      → c.offset < end
      → (out ++ between (max c.offset offset) (min end e) content)
          ++ between (max e offset) end content
        ≡ out ++ between (max c.offset offset) end content
  join_parts out e after wide before = elim (dec_le end e) [
    | yes h ↦
        let m : min end e ≡ end = omega arith in
        rw (m, between_empty (max e offset) end content (omega arith)) (append-nil _)
    | no h ↦
        let m : min end e ≡ e = omega arith in
        let n : max e offset ≡ e = omega arith in
        rw (m, n)
          (append_assoc out _ _
            ∙ rw (between-append (max c.offset offset) e end content (omega arith) (omega arith)))
  ]

  -- What one chunk and the later ones add, by the place where the chunk begins.
  parts_joined :
      (out : Bytes) (pos : ℕ)
      → c.offset ≡ pos
      → offset < c.offset + c.size_uncompressed
      → c.offset < end
      → (out ++ between (max c.offset offset) (min end (c.offset + c.size_uncompressed)) content)
          ++ between (max (pos + c.size_uncompressed) offset) end content
        ≡ out ++ between (max pos offset) end content
  parts_joined out pos e after before =
      rw (← e) (join_parts out (c.offset + c.size_uncompressed) after (omega arith) before)

module _ {S : Type 0} (store : ChunkStore S) (Inv : S → Type 0) (Good : ChunkHash → Bytes → Type 0)
    (faithful : IsFaithful Inv Good store) (Ours : ChunkHash → Type 0) (content : Bytes)
    (small : length content ≤ isize_max) (path : Text) (offset end : ℕ)
    (end_fits : end ≤ length content) (ordered : offset ≤ end) where
  -- One fetched chunk, by what the store returned.
  after_fetch :
      (c : Chunk) (cs : List Chunk) (out : Bytes) (s : S) (r : ChunkStore.Result Bytes)
      (want : Bytes)
      → (store.get c.sha s).0 ≡ r
      → Ours c.sha
      → Inv s
      → ((b : Bytes)
          → r ≡ ok b
          → (out' : Bytes) × (append_part path c offset end out b ≡ ok out')
            × Inv (read_chunks store path offset end cs out' (store.get c.sha s).1).1
            × ReadResult store Inv Ours want
                (read_chunks store path offset end cs out' (store.get c.sha s).1).0)
      → let step =
          elim (from_store (store.get c.sha s).0 >>= append_part path c offset end out)
            as (λ _. Result Bytes × S) [
              | ok out' ↦ read_chunks store path offset end cs out' (store.get c.sha s).1
              | err e ↦ (err e, (store.get c.sha s).1)
              | panicked ↦ (panicked, (store.get c.sha s).1)
            ] in
        Inv step.1 × ReadResult store Inv Ours want step.0
  after_fetch c cs out s (ok b) want got ours inv rest =
      let (out', appended, inv', result) = rest b refl in rw (got, appended) (inv', result)
  after_fetch c cs out s (err e) want got ours inv rest =
      rw got (faithful.keeps c.sha s inv, store_error c.sha s e ours inv got refl)
  after_fetch c cs out s panicked want got ours inv rest =
      rw got (faithful.keeps c.sha s inv, store_panic c.sha s ours inv got refl)

  pub read_chunks_content :
      (pos : ℕ) (cs : List Chunk) (out : Bytes) (s : S)
      → Contiguous pos cs (length content)
      → PartsOf Good content cs
      → AllShas Ours cs
      → Inv s
      → Inv (read_chunks store path offset end cs out s).1
        × ReadResult store Inv Ours
            (out ++ between (max pos offset) end content)
            (read_chunks store path offset end cs out s).0
  unfolding read_chunks
  read_chunks_content pos [] out s tiles parts ours inv =
      (inv, whole (rw (between_empty (max pos offset) end content (omega arith), append-nil)))
  read_chunks_content pos (c ∷ cs) out s tiles parts ours inv =
      let bound = Contiguous-le (pos + c.size_uncompressed) cs (length content) tiles.1 in
      let past : chunk_end c ≡ c.offset + c.size_uncompressed = omega (arith, bound) in
      let rec = read_chunks_content (pos + c.size_uncompressed) cs in
      elim (Bool-cases (leb (chunk_end c) offset)) [
        | inl skip ↦
            let e : max pos offset ≡ max (pos + c.size_uncompressed) offset =
              ground (arith, past) in
            rw (skip, e) (rec out s tiles.1 parts.1 ours.1 inv)
        | inr touched ↦ elim (Bool-cases (leb end c.offset)) [
          | inl stop ↦
              rw
                (
                  touched,
                  stop,
                  between_empty (max pos offset) end content (ground arith),
                  append-nil,
                )
                (inv, whole refl)
          | inr go ↦
              rw (touched, go)
                (after_fetch c cs out s (store.get c.sha s).0
                  (out ++ between (max pos offset) end content) refl ours.0 inv
                  λ b got.
                    let e : b ≡ between c.offset (c.offset + c.size_uncompressed) content =
                      parts.0 b (faithful.good c.sha s b inv got) in
                    let out' =
                      out
                      ++ between (max c.offset offset) (min end (c.offset + c.size_uncompressed))
                          content in
                    let s' = (store.get c.sha s).1 in
                    let (inv', result) =
                      rec out' s' tiles.1 parts.1 ours.1 (faithful.keeps c.sha s inv) in
                    (
                      out',
                      rw e (
                          append_part_lem c offset end content path out (omega (arith, bound)) small
                            (ground (arith, past)) (ground arith) ordered),
                      inv',
                      subst
                          (λ w.
                            ReadResult store Inv Ours w
                              (read_chunks store path offset end cs out' s').0)
                          (parts_joined c offset end content out pos tiles.0 (ground (arith, past))
                            (ground arith))
                          result,
                    ))
        ]
      ]
