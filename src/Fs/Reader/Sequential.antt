-- ===== src/Fs/Reader/Sequential.antt =====
-- What `DepotFileReader::read` of crates/steam-depot-vfs/src/fs.rs returns on a file whose chunks
-- hold its content, and what a loop over it collects.
use mathlib.Core.Option.{some-injective}
use steam_depot_vfs.Prelude.{
  ℕ, ◌+◌, ◌-◌, ◌≤◌, ◌<◌, min, ◌≡◌, refl, sym, ap, ◌∙◌, subst, arith, true, false, ◌||◌, [], none,
  some, leb, length, get_elem?, inl, inr, Bool-cases, Option-cases, ◌==◌, nat_eq, nat_beq_iff,
}
use steam_depot_vfs.Depot.{Bytes, Chunk, ChunkHash, DepotFile, DepotApi}
use steam_depot_vfs.Outcome.{ok, err, panicked}
use steam_depot_vfs.ChunkStore
use steam_depot_vfs.ChunkStore.{ChunkStore, VfsError, IsFaithful}
use steam_depot_vfs.Fs.{Result, store_failed}
use steam_depot_vfs.Fs.Read.Slices.{between, between_empty, length-between, between-between}
use steam_depot_vfs.Fs.Read.Layout.{HoldsContent, Contiguous}
use steam_depot_vfs.Fs.Reader.{
  DepotFileReader, covering_chunk, fetch_chunk, chunk_bytes, copy_out, read,
}
use steam_depot_vfs.Fs.Reader.Covering.{Covers, PartsOf-get, covering_chunk_lem}

pub copied :
    (r : DepotFileReader) (chunk_offset k n : ℕ) (b : Bytes) (buf_len : ℕ)
    → r.pos - chunk_offset ≡ k
    → min (length b - k) buf_len ≡ n
    → k + n ≤ length b
    → copy_out r chunk_offset b buf_len ≡ (ok (between k (k + n) b), record r { pos = r.pos + n })
unfolding copy_out
copied r chunk_offset k n b buf_len e g h = rw (e, g, copy_out) (ground arith)

module _ {S : Type 0} (store : ChunkStore S) (r : DepotFileReader) (i : ℕ) (sha : ChunkHash)
    (s : S) where
  no_cache : r.cached ≡ none → chunk_bytes store r i sha s ≡ fetch_chunk store r i sha s
  unfolding chunk_bytes
  no_cache e = ground arith

  module _ (j : ℕ) (b : Bytes) (held : r.cached ≡ some (j, b)) where
    cache_hit : (j == i) ≡ true → chunk_bytes store r i sha s ≡ (ok b, r, s)
    unfolding chunk_bytes
    cache_hit same = ground arith

    cache_other : (j == i) ≡ false → chunk_bytes store r i sha s ≡ fetch_chunk store r i sha s
    unfolding chunk_bytes
    cache_other other = ground arith

module _ {S : Type 0} (store : ChunkStore S) (Inv : S → Type 0) (Good : ChunkHash → Bytes → Type 0)
    (faithful : IsFaithful Inv Good store) (api : DepotApi) (f : DepotFile) (content : Bytes)
    (holds : HoldsContent Good api f content) where
  -- The reader is over `f`, and what it caches is good for the chunk of that place.
  pub record IsSound (r : DepotFileReader) : Type 0 where
    pub file_eq : r.file ≡ f
    pub size_eq : r.size ≡ f.size
    pub cached_good :
        (i : ℕ) (b : Bytes) (c : Chunk)
        → r.cached ≡ some (i, b)
        → get_elem? (api.chunks f) i ≡ some c
        → b ≡ between c.offset (c.offset + c.size_uncompressed) content

  -- What a read of at most `buf_len` bytes gives: `n` bytes of the content from the position on,
  -- at least one before the end of the file, or a failure of the store and an unmoved position.
  pub data ReadStep (r : DepotFileReader) (buf_len : ℕ) (res : Result Bytes) (r' : DepotFileReader)
      : Type 0 where
    got :
        (n : ℕ)
        → res ≡ ok (between r.pos (r.pos + n) content)
        → r'.pos ≡ r.pos + n
        → n ≤ buf_len
        → (r.pos ≤ f.size → r.pos + n ≤ f.size)
        → (0 < buf_len → r.pos < f.size → 0 < n)
        → ReadStep r buf_len res r'
    store_error :
        (sha : ChunkHash) (t : S) (e : VfsError)
        → Inv t
        → (store.get sha t).0 ≡ err e
        → res ≡ err (store_failed e)
        → r'.pos ≡ r.pos
        → ReadStep r buf_len res r'
    store_panic :
        (sha : ChunkHash) (t : S)
        → Inv t
        → (store.get sha t).0 ≡ panicked
        → res ≡ panicked
        → r'.pos ≡ r.pos
        → ReadStep r buf_len res r'

  module _ (buf_len : ℕ) (some_room : 0 < buf_len) where
    copy_out_lem :
        (r : DepotFileReader) (i : ℕ) (c : Chunk)
        → Covers (api.chunks f) f.size r.pos i c
        → let n = min (c.offset + c.size_uncompressed - r.pos) buf_len in
          copy_out r c.offset (between c.offset (c.offset + c.size_uncompressed) content) buf_len
          ≡ (ok (between r.pos (r.pos + n) content), record r { pos = r.pos + n })
    copy_out_lem r i c covers =
        let k = r.pos - c.offset in
        let n = min (c.offset + c.size_uncompressed - r.pos) buf_len in
        let hi = c.offset + c.size_uncompressed in
        let len =
          length-between c.offset hi content (omega arith)
            (omega (arith, covers.inside, holds.sized)) in
        let part =
          between-between k (k + n) c.offset hi content
            (omega (arith, covers.begins, covers.reaches)) in
        let e : k + c.offset ≡ r.pos = omega (arith, covers.begins) in
        let g : k + n + c.offset ≡ r.pos + n = omega (arith, covers.begins) in
        let m : hi - c.offset - k ≡ hi - r.pos = omega (arith, covers.begins, covers.reaches) in
        copied r c.offset k n _ buf_len refl (omega (arith, len, m))
          (omega (arith, len, covers.begins, covers.reaches))
        ∙ rw (part, e, g)

    -- The bytes of the covering chunk, from the reader's cache or from the store.
    data Fetched (r : DepotFileReader) (i : ℕ) (c : Chunk)
        (res : Result Bytes × DepotFileReader × S) : Type 0 where
      bytes :
          res.0 ≡ ok (between c.offset (c.offset + c.size_uncompressed) content)
          → res.1.pos ≡ r.pos
          → IsSound res.1
          → Inv res.2
          → Fetched r i c res
      failed :
          (t : S) (e : VfsError)
          → Inv t
          → (store.get c.sha t).0 ≡ err e
          → res.0 ≡ err (store_failed e)
          → res.1 ≡ r
          → Inv res.2
          → Fetched r i c res
      broke :
          (t : S)
          → Inv t
          → (store.get c.sha t).0 ≡ panicked
          → res.0 ≡ panicked
          → res.1 ≡ r
          → Inv res.2
          → Fetched r i c res

    fetch_chunk_lem :
        (r : DepotFileReader) (i : ℕ) (c : Chunk) (s : S) (res : ChunkStore.Result Bytes)
        → (store.get c.sha s).0 ≡ res
        → IsSound r
        → Inv s
        → get_elem? (api.chunks f) i ≡ some c
        → Fetched r i c (fetch_chunk store r i c.sha s)
    unfolding fetch_chunk
    fetch_chunk_lem r i c s (ok b) e sound inv there =
        let kept = faithful.keeps c.sha s inv in
        let right =
          PartsOf-get Good content (api.chunks f) i c holds.parts there b
            (faithful.good c.sha s b inv e) in
        rw (e, fetch_chunk)
          (bytes (ap ok right) refl
            (record {
              file_eq = sound.file_eq;
              size_eq = sound.size_eq;
              cached_good = λ j b' d same there'.
                  let p : (i, b) ≡ (j, b') = some-injective (i, b) (j, b') same in
                  let q : some c ≡ some d =
                    sym there
                    ∙ ap (get_elem? (api.chunks f)) (ap (λ (t : ℕ × Bytes). t.0) p)
                    ∙ there' in
                  subst
                    (λ (x : Chunk). b' ≡ between x.offset (x.offset + x.size_uncompressed) content)
                    (some-injective c d q) (sym (ap (λ (t : ℕ × Bytes). t.1) p) ∙ right);
            })
            kept)
    fetch_chunk_lem r i c s (err x) e sound inv there =
        rw (e, fetch_chunk) (failed s x inv e refl refl (faithful.keeps c.sha s inv))
    fetch_chunk_lem r i c s panicked e sound inv there =
        rw (e, fetch_chunk) (broke s inv e refl refl (faithful.keeps c.sha s inv))

    chunk_bytes_lem :
        (r : DepotFileReader) (i : ℕ) (c : Chunk) (s : S)
        → IsSound r
        → Inv s
        → get_elem? (api.chunks f) i ≡ some c
        → Fetched r i c (chunk_bytes store r i c.sha s)
    chunk_bytes_lem r i c s sound inv there =
        let miss = fetch_chunk_lem r i c s (store.get c.sha s).0 refl sound inv there in
        elim (Option-cases r.cached) [
          | inl empty ↦ subst (Fetched r i c) (sym (no_cache store r i c.sha s empty)) miss
          | inr ((j, b), held) ↦ elim (Bool-cases (j == i)) [
            | inl same ↦ subst (Fetched r i c) (sym (cache_hit store r i c.sha s j b held same)) (
                bytes
                  (ap ok (
                    sound.cached_good j b c held (
                      subst (λ k. get_elem? (api.chunks f) k ≡ some c)
                        (sym ((nat_beq_iff j i).0 same)) there)))
                  refl sound inv)
            | inr other ↦
                subst (Fetched r i c) (sym (cache_other store r i c.sha s j b held other)) miss
          ]
        ]

    abbrev Step : Type 0
    Step = Result Bytes × DepotFileReader × S

    -- What `read` does with the bytes of the chunk.
    abbrev finish : Chunk → Step → Step
    finish c (found, r', s') = elim found as (λ _. Step) [
      | ok b ↦ let (out, r'') = copy_out r' c.offset b buf_len in (out, r'', s')
      | err e ↦ (err e, r', s')
      | panicked ↦ (panicked, r', s')
    ]

    abbrev GoodStep : DepotFileReader → Step → Type 0
    GoodStep r res = Inv res.2 × IsSound res.1 × ReadStep r buf_len res.0 res.1

    finish_lem :
        (r : DepotFileReader) (i : ℕ) (c : Chunk) (res : Step)
        → Covers (api.chunks f) f.size r.pos i c
        → IsSound r
        → Fetched r i c res
        → GoodStep r (finish c res)
    finish_lem r i c (found, r', s') covers sound (bytes e same sound' inv') =
        let n = min (c.offset + c.size_uncompressed - r'.pos) buf_len in
        rw
          (
            e,
            copy_out_lem r' i c (subst (λ p. Covers (api.chunks f) f.size p i c) (sym same) covers),
          )
          (
            inv',
            record {
              file_eq = sound'.file_eq;
              size_eq = sound'.size_eq;
              cached_good = sound'.cached_good;
            },
            got n (rw same) (rw same) (omega arith)
                (λ _. omega (arith, covers.reaches, covers.inside, same))
                (λ _ _. omega (arith, covers.reaches, covers.inside, same)),
          )
    finish_lem r i c (found, r', s') covers sound (failed t e inv broken is_err same inv') =
        rw is_err (
          inv',
          subst IsSound (sym same) sound,
          store_error c.sha t e inv broken refl (ap (λ (x : DepotFileReader). x.pos) same),
        )
    finish_lem r i c (found, r', s') covers sound (broke t inv broken is_panic same inv') =
        rw is_panic (
          inv',
          subst IsSound (sym same) sound,
          store_panic c.sha t inv broken refl (ap (λ (x : DepotFileReader). x.pos) same),
        )

  read-finish :
      (buf_len : ℕ) (r : DepotFileReader) (s : S) (i : ℕ) (c : Chunk) (some_room : 0 < buf_len)
      → (buf_len == 0 || leb r.size r.pos) ≡ false
      → covering_chunk api r ≡ ok (i, c)
      → read api store r buf_len s ≡ finish buf_len some_room c (chunk_bytes store r i c.sha s)
  unfolding read
  read-finish buf_len r s i c some_room below found = rw (below, found, read)

  -- One `read` of a reader in a sound state keeps the store's invariant and the reader's, and does
  -- what `ReadStep` says.
  pub read_lem :
      (r : DepotFileReader) (buf_len : ℕ) (s : S)
      → IsSound r
      → Inv s
      → let res = read api store r buf_len s in
        Inv res.2 × IsSound res.1 × ReadStep r buf_len res.0 res.1
  read_lem r buf_len s sound inv = elim (Bool-cases (buf_len == 0 || leb r.size r.pos)) [
    | inl stop ↦ rw (at_stop r buf_len s stop) (
      inv,
      sound,
      got 0 (rw (between_empty r.pos (r.pos + 0) content (omega arith))) (omega arith) (omega arith)
          (λ h. omega arith) (λ a b. absurd (ground (arith, sound.size_eq))),
    )
    | inr go ↦
        let below : r.pos < f.size = ground (arith, sound.size_eq) in
        let chunks_eq : api.chunks r.file ≡ api.chunks f = ap api.chunks sound.file_eq in
        let (i, c, found, covers) =
          covering_chunk_lem api r f.size
            (subst (λ cs. Contiguous 0 cs f.size) (sym chunks_eq) holds.contiguous) holds.small
            below in
        let covers' = subst (λ cs. Covers cs f.size r.pos i c) chunks_eq covers in
        let some_room : 0 < buf_len = ground arith in
        rw (read-finish buf_len r s i c some_room go found) (
          finish_lem buf_len some_room r i c (chunk_bytes store r i c.sha s) covers' sound
            (chunk_bytes_lem buf_len some_room r i c s sound inv covers'.there))
  ]
    where
      at_stop :
          (r : DepotFileReader) (buf_len : ℕ) (s : S)
          → (buf_len == 0 || leb r.size r.pos) ≡ true
          → read api store r buf_len s ≡ (ok [], r, s)
      at_stop r buf_len s e = unfold read in rw e
