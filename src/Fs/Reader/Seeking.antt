-- ===== src/Fs/Reader/Seeking.antt =====
-- Random access through `DepotFileReader` of crates/steam-depot-vfs/src/fs.rs: a `seek`, then a `read`.
use steam_depot_vfs.Prelude.{ℕ, ◌%◌, ◌<◌, ◌≡◌, refl, sym, ap, ◌∙◌, subst, arith}
use steam_depot_vfs.Prelude.Int.{ℤ, negsuc, ◌+ℤ◌}
use steam_depot_vfs.Depot.{Bytes, ChunkHash, DepotFile, DepotApi}
use steam_depot_vfs.Outcome.{ok, err}
use steam_depot_vfs.ChunkStore.{ChunkStore, IsFaithful}
use steam_depot_vfs.Fs.{Result, before_start}
use steam_depot_vfs.Fs.Read.{u64_mod}
use steam_depot_vfs.Fs.Read.Layout.{HoldsContent}
use steam_depot_vfs.Fs.Reader.{DepotFileReader, SeekFrom, start, end, current, seek, seek_to, read}
use steam_depot_vfs.Fs.Reader.Sequential.{IsSound, ReadStep, read_lem}

-- Where a seek is to go, as an integer.
abbrev pub target : DepotFileReader → SeekFrom → ℤ
target r (start n) = ℤ.pos n
target r (end n) = ℤ.pos r.size +ℤ n
target r (current n) = ℤ.pos r.pos +ℤ n

seek-target : (r : DepotFileReader) (from : SeekFrom) → seek r from ≡ seek_to r (target r from)
unfolding seek
seek-target r (start n) = refl
seek-target r (end n) = refl
seek-target r (current n) = refl

abbrev moved : DepotFileReader → ℕ → DepotFileReader
moved r t = record r { pos = t }

lands :
    (r : DepotFileReader) (from : SeekFrom) (t : ℕ)
    → target r from ≡ ℤ.pos t
    → t < u64_mod
    → seek r from ≡ (ok t, moved r t)
lands r from t to fits =
    let e : t % u64_mod ≡ t = omega arith in
    seek-target r from ∙ ap (seek_to r) to ∙ ap (λ (n : ℕ). (ok n, moved r n)) e

-- A seek to before the start is refused, and the reader stays as it was.
pub seek_refused :
    (r : DepotFileReader) (from : SeekFrom) (n : ℕ)
    → target r from ≡ negsuc n
    → seek r from ≡ (err before_start, r)
seek_refused r from n to = seek-target r from ∙ ap (seek_to r) to

module _ {S : Type 0} (store : ChunkStore S) (Inv : S → Type 0) (Good : ChunkHash → Bytes → Type 0)
    (faithful : IsFaithful Inv Good store) (api : DepotApi) (f : DepotFile) (content : Bytes)
    (holds : HoldsContent Good api f content) where
  -- A seek of a reader in a sound state to a position that fits a `u64`, past the end of the file
  -- too, returns that position and moves there. The next read does what `ReadStep` says from there:
  -- it gives the content from that position on, or a failure of the store.
  pub seek-read :
      (r : DepotFileReader) (from : SeekFrom) (t buf_len : ℕ) (s : S)
      → IsSound store Inv Good faithful api f content holds r
      → Inv s
      → target r from ≡ ℤ.pos t
      → t < u64_mod
      → let r' = (seek r from).1 in
        let out = read api store r' buf_len s in
        ((seek r from).0 ≡ ok t)
        × (r'.pos ≡ t)
        × Inv out.2
        × IsSound store Inv Good faithful api f content holds out.1
        × ReadStep store Inv Good faithful api f content holds r' buf_len out.0 out.1
  seek-read r from t buf_len s sound inv to fits =
      subst
        (λ (q : Result ℕ × DepotFileReader).
          let out = read api store q.1 buf_len s in
          (q.0 ≡ ok t)
          × (q.1.pos ≡ t)
          × Inv out.2
          × IsSound store Inv Good faithful api f content holds out.1
          × ReadStep store Inv Good faithful api f content holds q.1 buf_len out.0 out.1)
        (sym (lands r from t to fits))
        (let (inv', sound', step) =
            read_lem store Inv Good faithful api f content holds (moved r t) buf_len s
              (record {
                file_eq = sound.file_eq;
                size_eq = sound.size_eq;
                cached_good = sound.cached_good;
              })
              inv in
          (refl, refl, inv', sound', step))
