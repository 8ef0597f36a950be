-- ===== src/Fs/Read.antt =====
-- `read_into`, `read` and `read_full` of crates/steam-depot-vfs/src/fs.rs. The additions of `u64`
-- wrap around, as in a release build; `reserve` panics past `isize::MAX`.
pub mod Slices
pub mod Layout
mod Loop
pub mod Content
use steam_depot_vfs.Prelude.{
  ℕ, ◌+◌, ◌-◌, ◌%◌, ◌^◌, min, Bool, true, false, List, [], ◌∷◌, ◌++◌, if◌then◌else◌, ltb, leb,
  length, nat_eq, list_eq,
}
use steam_depot_vfs.Prelude.Maps.{lookup}
use steam_depot_vfs.Depot.{Bytes, Text, Chunk, DepotFile, FileType, DepotApi}
use steam_depot_vfs.Outcome.{Outcome, ok, err, panicked, ◌>>=◌, index, ok_or, slice}
use steam_depot_vfs.ChunkStore.{ChunkStore, VfsError}
use steam_depot_vfs.ChunkStore
use steam_depot_vfs.Fs.Paths.{strip_leading_slash}
use steam_depot_vfs.Fs.{
  IoError, Result, DepotManifestStore, FileMeta, not_found_error, metadata, not_regular, past_end,
  short_chunk, store_failed,
}

abbrev pub u64_mod : ℕ
u64_mod = 2 ^ 64

abbrev pub isize_max : ℕ
isize_max = 2 ^ 63 - 1

abbrev pub chunk_end : Chunk → ℕ
chunk_end c = (c.offset + c.size_uncompressed) % u64_mod

-- `map_err(std::io::Error::other)`
abbrev pub from_store : {A : Type 0} → ChunkStore.Result A → Result A
from_store (ok a) = ok a
from_store (err e) = err (store_failed e)
from_store panicked = panicked

-- `matches!(kind, FileType::File)`
abbrev pub is_file_type : FileType → Bool
is_file_type FileType.file = true
is_file_type _ = false

-- What a chunk adds to `out`, once its bytes are there.
unfoldable pub append_part : Text → Chunk → ℕ → ℕ → Bytes → Bytes → Result Bytes
append_part path c offset end out bytes =
    let slice_start = offset - c.offset in
    let slice_end = (min end (chunk_end c) + u64_mod - c.offset) % u64_mod in
    if ltb (length bytes) slice_end
    then err (short_chunk c.sha path (length bytes) c.size_uncompressed)
    else do part ← slice bytes slice_start slice_end; ok (out ++ part)

-- What `read_into` and `open_reader` begin with: the file at a path.
unfoldable pub find_file : DepotManifestStore → Text → Result DepotFile
find_file st path = do
  let p = strip_leading_slash path
  idx ← ok_or (not_found_error st path p) (lookup p st.by_path)
  index st.manifest.files idx

module _ {S : Type 0} (store : ChunkStore S) where
  -- The loop over the chunks; an error leaves what was appended before in `out`, which the
  -- callers drop.
  unfoldable pub read_chunks : Text → ℕ → ℕ → List Chunk → Bytes → S → Result Bytes × S
  unfolding append_part
  read_chunks path offset end [] out s = (ok out, s)
  read_chunks path offset end (c ∷ cs) out s =
      let skip = read_chunks path offset end cs out s in
      if leb (chunk_end c) offset
      then skip
      else if leb end c.offset
      then (ok out, s)
      else let (fetched, s') = store.get c.sha s in
        elim (from_store fetched >>= append_part path c offset end out) [
          | ok out' ↦ read_chunks path offset end cs out' s'
          | err e ↦ (err e, s')
          | panicked ↦ (panicked, s')
        ]

  module _ (api : DepotApi) where
    -- `read_into` from the file on.
    unfoldable pub read_file : Text → DepotFile → ℕ → ℕ → Bytes → S → Result Bytes × S
    unfolding read_chunks
    read_file path f offset len out s =
        if api.is_file f
        then (if ltb f.size offset
            then (err (past_end f.size offset), s)
            else let end = min ((offset + len) % u64_mod) f.size in
              let want_len = (end + u64_mod - offset) % u64_mod in
              if ltb isize_max (length out + want_len)
              then (panicked, s)
              else read_chunks f.path offset end (api.chunks f) out s)
        else (err (not_regular path), s)

    unfoldable pub read_into : DepotManifestStore → Text → ℕ → ℕ → Bytes → S → Result Bytes × S
    unfolding read_file
    read_into st path offset len out s = elim (find_file st path) [
      | ok f ↦ read_file path f offset len out s
      | err e ↦ (err e, s)
      | panicked ↦ (panicked, s)
    ]

    unfoldable pub read : DepotManifestStore → Text → ℕ → ℕ → S → Result Bytes × S
    read st path offset len s = read_into st path offset len [] s

    unfoldable pub read_full : DepotManifestStore → Text → S → Result Bytes × S
    unfolding read read_into
    read_full st path s = elim (metadata api st path) [
      | ok meta ↦
          if is_file_type meta.kind then read st path 0 meta.size s else (err (not_regular path), s)
      | err e ↦ (err e, s)
      | panicked ↦ (panicked, s)
    ]
