-- ===== src/Fs/Read/Layout.antt =====
-- Files of crates/steam-depot-vfs/src/fs.rs whose chunks are laid out one after the other, and what a
-- read of one may return.
use steam_depot_vfs.Prelude.{
  ℕ, ◌+◌, ◌≤◌, ◌≡◌, refl, arith, true, List, [], ◌∷◌, length, inl, inr, ◌⊎◌,
}
use steam_depot_vfs.Depot.{Bytes, Chunk, ChunkHash, DepotFile, DepotApi}
use steam_depot_vfs.Outcome.{ok, err, panicked}
use steam_depot_vfs.ChunkStore.{ChunkStore, VfsError}
use steam_depot_vfs.Fs.{Result, store_failed}
use steam_depot_vfs.Fs.Read.{isize_max}
use steam_depot_vfs.Fs.Read.Slices.{between}

-- The chunks cover the bytes from `pos` to `end`, one after the other.
abbrev pub Contiguous : ℕ → List Chunk → ℕ → Type 0
Contiguous pos [] end = pos ≡ end
Contiguous pos (c ∷ cs) end = (c.offset ≡ pos) × Contiguous (pos + c.size_uncompressed) cs end

-- What is good for a chunk's hash is the chunk's part of the content.
abbrev pub PartsOf : (ChunkHash → Bytes → Type 0) → Bytes → List Chunk → Type 0
PartsOf Good content [] = Unit
PartsOf Good content (c ∷ cs) =
    ((b : Bytes) → Good c.sha b → b ≡ between c.offset (c.offset + c.size_uncompressed) content)
    × PartsOf Good content cs

-- Of the hashes of the chunks.
abbrev pub AllShas : (ChunkHash → Type 0) → List Chunk → Type 0
AllShas P [] = Unit
AllShas P (c ∷ cs) = P c.sha × AllShas P cs

-- `sha` is the hash of one of the chunks.
abbrev pub HasSha : ChunkHash → List Chunk → Type 0
HasSha sha [] = ⊥
HasSha sha (c ∷ cs) = (sha ≡ c.sha) ⊎ HasSha sha cs

AllShas-imp :
    (P Q : ChunkHash → Type 0) (cs : List Chunk)
    → ((sha : ChunkHash) → P sha → Q sha)
    → AllShas P cs
    → AllShas Q cs
AllShas-imp P Q [] h a = tt
AllShas-imp P Q (c ∷ cs) h a = (h c.sha a.0, AllShas-imp P Q cs h a.1)

pub AllShas-HasSha : (cs : List Chunk) → AllShas (λ sha. HasSha sha cs) cs
AllShas-HasSha [] = tt
AllShas-HasSha (c ∷ cs) = (
  inl refl,
  AllShas-imp (λ sha. HasSha sha cs) (λ sha. HasSha sha (c ∷ cs)) cs (λ sha h. inr h)
      (AllShas-HasSha cs),
)

-- The file's chunks hold `content`, which is as long as the file says, and fits an allocation.
pub record HoldsContent (Good : ChunkHash → Bytes → Type 0) (api : DepotApi) (f : DepotFile)
    (content : Bytes) : Type 0 where
  pub regular : api.is_file f ≡ true
  pub sized : length content ≡ f.size
  pub small : f.size ≤ isize_max
  pub contiguous : Contiguous 0 (api.chunks f) f.size
  pub parts : PartsOf Good content (api.chunks f)

-- A read returns what is wanted, or the failure of one call of the store.
pub data ReadResult {S : Type 0} (store : ChunkStore S) (Inv : S → Type 0)
    (Ours : ChunkHash → Type 0) (want : Bytes) (r : Result Bytes) : Type 0 where
  whole : r ≡ ok want → ReadResult store Inv Ours want r
  store_error :
      (sha : ChunkHash) (t : S) (e : VfsError)
      → Ours sha
      → Inv t
      → (store.get sha t).0 ≡ err e
      → r ≡ err (store_failed e)
      → ReadResult store Inv Ours want r
  store_panic :
      (sha : ChunkHash) (t : S)
      → Ours sha
      → Inv t
      → (store.get sha t).0 ≡ panicked
      → r ≡ panicked
      → ReadResult store Inv Ours want r

pub Contiguous-le : (pos : ℕ) (cs : List Chunk) (end : ℕ) → Contiguous pos cs end → pos ≤ end
Contiguous-le pos [] end h = omega arith
Contiguous-le pos (c ∷ cs) end h =
    omega (arith, Contiguous-le (pos + c.size_uncompressed) cs end h.1)
