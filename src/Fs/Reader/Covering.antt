-- ===== src/Fs/Reader/Covering.antt =====
-- `DepotFileReader::read` of crates/steam-depot-vfs/src/fs.rs finds the chunk that covers the
-- position, in a file whose chunks are laid out one after the other.
use mathlib.Core.Option.{some-injective}
use native.Mathlib.Decide.{dec_lt}
use steam_depot_vfs.Prelude.{
  ℕ, zero, suc, ◌+◌, ◌≤◌, ◌<◌, ◌≡◌, refl, subst, arith, List, [], ◌∷◌, some, get_elem?,
}
use steam_depot_vfs.Depot.{Bytes, Chunk, ChunkHash, DepotApi}
use steam_depot_vfs.Outcome.{ok}
use steam_depot_vfs.Fs.Read.{chunk_end, isize_max}
use steam_depot_vfs.Fs.Read.Slices.{between}
use steam_depot_vfs.Fs.Read.Layout.{Contiguous, Contiguous-le, PartsOf}
use steam_depot_vfs.Fs.Reader.{DepotFileReader, partition_point, covering_chunk}

partition_point-zero :
    (q : ℕ) (cs : List Chunk) (end p : ℕ) → Contiguous q cs end → p < q → partition_point p cs ≡ 0
unfolding partition_point
partition_point-zero q [] end p t h = refl
partition_point-zero q (c ∷ cs) end p t h = ground arith

-- The chunk of place `i` covers position `p`.
pub record Covers (cs : List Chunk) (end p i : ℕ) (c : Chunk) : Type 0 where
  pub there : get_elem? cs i ≡ some c
  pub begins : c.offset ≤ p
  pub reaches : p < c.offset + c.size_uncompressed
  pub inside : c.offset + c.size_uncompressed ≤ end

covering :
    (q : ℕ) (cs : List Chunk) (end p : ℕ)
    → Contiguous q cs end
    → q ≤ p
    → p < end
    → (i : ℕ) × (c : Chunk) × (partition_point p cs ≡ suc i) × Covers cs end p i c
unfolding partition_point
covering q [] end p t h below = absurd (omega arith)
covering q (c ∷ cs) end p t h below = elim (dec_lt p (q + c.size_uncompressed)) [
  | yes here ↦ (
    0,
    c,
    ground (arith, partition_point-zero (q + c.size_uncompressed) cs end p t.1 here),
    record {
      there = refl;
      begins = omega arith;
      reaches = omega arith;
      inside = omega (arith, Contiguous-le (q + c.size_uncompressed) cs end t.1);
    },
  )
  | no past ↦
      let (i, d, found, covers) =
        covering (q + c.size_uncompressed) cs end p t.1 (omega arith) below in
      (
        suc i,
        d,
        ground (arith, found),
        record {
          there = covers.there;
          begins = covers.begins;
          reaches = covers.reaches;
          inside = covers.inside;
        },
      )
]

pub PartsOf-get :
    (Good : ChunkHash → Bytes → Type 0) (content : Bytes) (cs : List Chunk) (i : ℕ) (c : Chunk)
    → PartsOf Good content cs
    → get_elem? cs i ≡ some c
    → (b : Bytes) → Good c.sha b
    → b ≡ between c.offset (c.offset + c.size_uncompressed) content
PartsOf-get Good content [] i c parts h = absurd (ground arith)
PartsOf-get Good content (d ∷ cs) zero c parts h =
    subst
      (λ e.
        (b : Bytes) → Good e.sha b → b ≡ between e.offset (e.offset + e.size_uncompressed) content)
      (some-injective d c h) parts.0
PartsOf-get Good content (d ∷ cs) (suc i) c parts h = PartsOf-get Good content cs i c parts.1 h

found-Covers :
    (api : DepotApi) (r : DepotFileReader) (end i : ℕ) (c : Chunk)
    → end ≤ isize_max
    → partition_point r.pos (api.chunks r.file) ≡ suc i
    → Covers (api.chunks r.file) end r.pos i c
    → covering_chunk api r ≡ ok (i, c)
unfolding covering_chunk
found-Covers api r end i c small found covers =
    let there = covers.there in
    let e : chunk_end c ≡ c.offset + c.size_uncompressed = omega (arith, covers.inside) in
    rw (found, covering_chunk) (ground (arith, e, there, covers.reaches))

-- A position inside such a file has a covering chunk, and `read` finds it.
pub covering_chunk_lem :
    (api : DepotApi) (r : DepotFileReader) (end : ℕ)
    → Contiguous 0 (api.chunks r.file) end
    → end ≤ isize_max
    → r.pos < end
    → (i : ℕ) × (c : Chunk) × (covering_chunk api r ≡ ok (i, c))
      × Covers (api.chunks r.file) end r.pos i c
unfolding covering_chunk
covering_chunk_lem api r end t small below =
    let (i, c, found, covers) = covering 0 (api.chunks r.file) end r.pos t (omega arith) below in
    (i, c, found-Covers api r end i c small found covers, covers)
