-- ===== src/Fs/Reader/Short.antt =====
-- `DepotFileReader::read` of crates/steam-depot-vfs/src/fs.rs on a chunk shorter than the manifest says.
use steam_depot_vfs.Prelude.{
  ℕ, ◌+◌, ◌-◌, ◌<◌, ◌≡◌, refl, ap, ◌∙◌, arith, false, ◌||◌, [], none, some, leb, length, ◌==◌,
  nat_eq,
}
use steam_depot_vfs.Depot.{Bytes, Chunk, DepotApi}
use steam_depot_vfs.Outcome.{ok, panicked}
use steam_depot_vfs.ChunkStore.{ChunkStore}
use steam_depot_vfs.Fs.{Result}
use steam_depot_vfs.Fs.Reader.Sequential.{copied}
use steam_depot_vfs.Fs.Read.Slices.{between_empty}
use steam_depot_vfs.Fs.Reader.{
  DepotFileReader, covering_chunk, fetch_chunk, chunk_bytes, copy_out, read,
}

ended_copy :
    (r : DepotFileReader) (at : ℕ) (b : Bytes) (buf_len : ℕ)
    → at + length b ≡ r.pos
    → (copy_out r at b buf_len).0 ≡ ok []
ended_copy r at b buf_len e =
    let k = r.pos - at in
    ap (λ (q : Result Bytes × DepotFileReader). q.0)
      (copied r at k 0 b buf_len refl (omega arith) (omega arith))
    ∙ ap ok (between_empty k (k + 0) b (omega arith))

past_copy :
    (r : DepotFileReader) (at : ℕ) (b : Bytes) (buf_len : ℕ)
    → at + length b < r.pos
    → (copy_out r at b buf_len).0 ≡ panicked
unfolding copy_out
past_copy r at b buf_len h = ground arith

module _ (api : DepotApi) {S : Type 0} (store : ChunkStore S) where
  fetched :
      (r : DepotFileReader) (i : ℕ) (c : Chunk) (b : Bytes) (s : S)
      → r.cached ≡ none
      → (store.get c.sha s).0 ≡ ok b
      → chunk_bytes store r i c.sha s
        ≡ (ok b, record r { cached = some (i, b) }, (store.get c.sha s).1)
  unfolding chunk_bytes fetch_chunk
  fetched r i c b s e g = rw (e, g, chunk_bytes, fetch_chunk) refl

  copies :
      (r : DepotFileReader) (buf_len i : ℕ) (c : Chunk) (b : Bytes) (s : S)
      → (buf_len == 0 || leb r.size r.pos) ≡ false
      → covering_chunk api r ≡ ok (i, c)
      → r.cached ≡ none
      → (store.get c.sha s).0 ≡ ok b
      → (read api store r buf_len s).0
        ≡ (copy_out (record r { cached = some (i, b) }) c.offset b buf_len).0
  copies r buf_len i c b s go found e g =
      unfold read in
      rw
        (
          go,
          found,
          ap (λ (q : Result Bytes × DepotFileReader × S). q.0) (fetched r i c b s e g),
          ap (λ (q : Result Bytes × DepotFileReader × S). q.1) (fetched r i c b s e g),
        )
        refl

  -- A reader without a cached chunk, at a position that the chunk `c` covers, when the store returns
  -- too few bytes for `c`: with just the bytes before the position the read returns no bytes, which
  -- callers take for the end of the file, and with fewer it panics.
  pub read_short :
      (r : DepotFileReader) (buf_len i : ℕ) (c : Chunk) (b : Bytes) (s : S)
      → 0 < buf_len
      → r.pos < r.size
      → covering_chunk api r ≡ ok (i, c)
      → r.cached ≡ none
      → (store.get c.sha s).0 ≡ ok b
      → (c.offset + length b ≡ r.pos → (read api store r buf_len s).0 ≡ ok [])
        × (c.offset + length b < r.pos → (read api store r buf_len s).0 ≡ panicked)
  read_short r buf_len i c b s room inside found e g =
      let go : (buf_len == 0 || leb r.size r.pos) ≡ false = ground arith in
      let r' = record r { cached = some (i, b) } in
      (
        λ h. copies r buf_len i c b s go found e g ∙ ended_copy r' c.offset b buf_len h,
        λ h. copies r buf_len i c b s go found e g ∙ past_copy r' c.offset b buf_len h,
      )
