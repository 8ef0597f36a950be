-- ===== src/Fs/Reader.antt =====
-- `open_reader` and `DepotFileReader` of crates/steam-depot-vfs/src/fs.rs. A reader keeps the file
-- instead of its place in the manifest; `read` returns the bytes that it writes to the buffer.
pub mod Covering
pub mod Sequential
pub mod Whole
pub mod Seeking
pub mod Short
use steam_depot_vfs.Prelude.{
  ℕ, zero, suc, ◌+◌, ◌-◌, ◌%◌, ◌^◌, min, Bool, true, false, ◌||◌, List, [], ◌∷◌, Option, none, some,
  if◌then◌else◌, ◌==◌, nat_eq, ltb, leb, length, get_elem?,
}
use steam_depot_vfs.Prelude.Int.{ℤ, negsuc, ◌+ℤ◌}
use steam_depot_vfs.Depot.{Bytes, Text, Chunk, ChunkHash, DepotFile, DepotApi}
use steam_depot_vfs.Outcome.{ok, err, panicked, ◌>>=◌, index, slice}
use steam_depot_vfs.ChunkStore.{ChunkStore}
use steam_depot_vfs.Fs.{
  IoError, Result, DepotManifestStore, not_regular, no_chunk_covers, before_start,
}
use steam_depot_vfs.Fs.Read.{u64_mod, chunk_end, from_store, find_file}

pub record DepotFileReader : Type 0 where
  pub file : DepotFile
  pub size : ℕ
  pub pos : ℕ
  -- the last chunk fetched, by its place
  pub cached : Option (ℕ × Bytes)

pub data SeekFrom : Type 0 where
  start : ℕ → SeekFrom
  end current : ℤ → SeekFrom

-- `partition_point`, on chunks of which those that begin at or before `pos` come first.
unfoldable pub partition_point : ℕ → List Chunk → ℕ
partition_point pos [] = 0
partition_point pos (c ∷ cs) =
    let more = partition_point pos cs in if leb c.offset pos then suc more else 0

-- The copy into a buffer of `buf_len` bytes.
unfoldable pub copy_out : DepotFileReader → ℕ → Bytes → ℕ → Result Bytes × DepotFileReader
copy_out r chunk_offset bytes buf_len =
    let chunk_off = r.pos - chunk_offset in
    let to_copy = min (length bytes - chunk_off) buf_len in
    elim (slice {E = IoError} bytes chunk_off (chunk_off + to_copy)) [
      | ok part ↦ (ok part, record r { pos = r.pos + to_copy })
      | err e ↦ (err e, r)
      | panicked ↦ (panicked, r)
    ]

module _ {S : Type 0} (store : ChunkStore S) where
  -- A fetch that fails leaves the cache as it was.
  unfoldable pub fetch_chunk :
      DepotFileReader → ℕ → ChunkHash → S → Result Bytes × DepotFileReader × S
  fetch_chunk r i sha s =
      let (fetched, s') = store.get sha s in
      elim (from_store fetched) [
        | ok b ↦ (ok b, record r { cached = some (i, b) }, s')
        | err e ↦ (err e, r, s')
        | panicked ↦ (panicked, r, s')
      ]

  -- The cached bytes of chunk `i`, or those of the store.
  unfoldable pub chunk_bytes :
      DepotFileReader → ℕ → ChunkHash → S → Result Bytes × DepotFileReader × S
  chunk_bytes r i sha s = elim r.cached [
    | none ↦ fetch_chunk r i sha s
    | some (j, b) ↦ if j == i then (ok b, r, s) else fetch_chunk r i sha s
  ]

module _ (api : DepotApi) where
  unfoldable pub open_reader : DepotManifestStore → Text → Result DepotFileReader
  open_reader st path = do
    f ← find_file st path
    if api.is_file f
        then ok (record { file = f; size = f.size; pos = 0; cached = none })
        else err (not_regular path)

  -- The chunk that covers the position, with its place.
  unfoldable pub covering_chunk : DepotFileReader → Result (ℕ × Chunk)
  unfolding partition_point
  covering_chunk r = elim (partition_point r.pos (api.chunks r.file)) [
    | zero ↦ err (no_chunk_covers r.pos r.file.path)
    | suc i ↦ do
      c ← index (api.chunks r.file) i
      if leb (chunk_end c) r.pos then err (no_chunk_covers r.pos r.file.path) else ok (i, c)
  ]

  module _ {S : Type 0} (store : ChunkStore S) where
    unfoldable pub read : DepotFileReader → ℕ → S → Result Bytes × DepotFileReader × S
    read r buf_len s =
        if buf_len == 0 || leb r.size r.pos then (ok [], r, s) else elim (covering_chunk r) [
          | ok (i, c) ↦
              let (found, r', s') = chunk_bytes store r i c.sha s in
              elim found as (λ _. Result Bytes × DepotFileReader × S) [
                | ok bytes ↦ let (out, r'') = copy_out r' c.offset bytes buf_len in (out, r'', s')
                | err e ↦ (err e, r', s')
                | panicked ↦ (panicked, r', s')
              ]
          | err e ↦ (err e, r, s)
          | panicked ↦ (panicked, r, s)
        ]

-- The cast `as u64` of a position that is not negative.
abbrev seek_to : DepotFileReader → ℤ → Result ℕ × DepotFileReader
seek_to r (ℤ.pos n) = (ok (n % u64_mod), record r { pos = n % u64_mod })
seek_to r (negsuc n) = (err before_start, r)

unfoldable pub seek : DepotFileReader → SeekFrom → Result ℕ × DepotFileReader
seek r (start n) = seek_to r (ℤ.pos n)
seek r (end n) = seek_to r (ℤ.pos r.size +ℤ n)
seek r (current n) = seek_to r (ℤ.pos r.pos +ℤ n)
