-- ===== src/Fs/Reader/Whole.antt =====
-- Reading a file to its end through `DepotFileReader::read` of crates/steam-depot-vfs/src/fs.rs, as
-- `Read::read_to_end` and `io::copy` do: until a read returns no bytes.
use mathlib.Core.Option
use native.Mathlib.Decide.{dec_lt}
use steam_depot_vfs.Prelude.{
  ℕ, zero, suc, ◌+◌, ◌-◌, ◌≤◌, ◌<◌, ◌≡◌, sym, ap, ◌∙◌, arith, [], ◌∷◌, ◌++◌, Option, none, some,
  length,
}
use steam_depot_vfs.Depot.{Bytes, ChunkHash, DepotFile, DepotApi}
use steam_depot_vfs.Outcome.{ok, err, panicked}
use steam_depot_vfs.ChunkStore.{ChunkStore, IsFaithful}
use steam_depot_vfs.Fs.{Result}
use steam_depot_vfs.Fs.Read.Slices.{between, between_empty, length-between, between-append}
use steam_depot_vfs.Fs.Read.Layout.{HoldsContent}
use steam_depot_vfs.Fs.Reader.{DepotFileReader, read}
use steam_depot_vfs.Fs.Reader.Sequential.{
  IsSound, ReadStep, got, store_error, store_panic, read_lem,
}

module _ (api : DepotApi) {S : Type 0} (store : ChunkStore S) (buf_len : ℕ) where
  -- `none` when the fuel runs out.
  unfoldable pub read_to_end : ℕ → DepotFileReader → S → Option (Result Bytes)
  read_to_end zero r s = none
  read_to_end (suc fuel) r s =
      let (res, r', s') = read api store r buf_len s in
      elim res [
        | ok bytes ↦ elim bytes [
          | [] ↦ some (ok [])
          | b ∷ bs ↦
              Option.map
                (λ rest. elim rest [
                  | ok more ↦ ok ((b ∷ bs) ++ more)
                  | err e ↦ err e
                  | panicked ↦ panicked
                ])
                (read_to_end fuel r' s')
        ]
        | err e ↦ some (err e)
        | panicked ↦ some panicked
      ]

module _ {S : Type 0} (store : ChunkStore S) (Inv : S → Type 0) (Good : ChunkHash → Bytes → Type 0)
    (faithful : IsFaithful Inv Good store) (api : DepotApi) (f : DepotFile) (content : Bytes)
    (holds : HoldsContent Good api f content)
    (available : (sha : ChunkHash) (t : S) → Inv t → (b : Bytes) × ((store.get sha t).0 ≡ ok b))
    (buf_len : ℕ) (some_room : 0 < buf_len) where
  abbrev Sound : DepotFileReader → Type 0
  Sound = IsSound store Inv Good faithful api f content holds

  abbrev StepOf : DepotFileReader → Result Bytes → DepotFileReader → Type 0
  StepOf r res r' = ReadStep store Inv Good faithful api f content holds r buf_len res r'

  -- With an available store, a read is the successful one.
  succeeds :
      (r : DepotFileReader) (res : Result Bytes) (r' : DepotFileReader)
      → r.pos ≤ f.size
      → StepOf r res r'
      → (n : ℕ) × (res ≡ ok (between r.pos (r.pos + n) content))
        × (r'.pos ≡ r.pos + n)
        × (r.pos + n ≤ f.size)
        × (r.pos < f.size → 0 < n)
  succeeds r res r' inside (got n e p fits within more) = (n, e, p, within inside, more some_room)
  succeeds r res r' inside (store_error sha t e inv failed _ _) =
      absurd (let (b, g) = available sha t inv in cc)
  succeeds r res r' inside (store_panic sha t inv failed _ _) =
      absurd (let (b, g) = available sha t inv in cc)

  read_to_end-step :
      (fuel : ℕ) (r r' : DepotFileReader) (s s' : S) (part : Bytes) (rest : Bytes)
      → read api store r buf_len s ≡ (ok part, r', s')
      → 0 < length part
      → read_to_end api store buf_len fuel r' s' ≡ some (ok rest)
      → read_to_end api store buf_len (suc fuel) r s ≡ some (ok (part ++ rest))
  unfolding read_to_end
  read_to_end-step fuel r r' s s' [] rest e h again = absurd (omega arith)
  read_to_end-step fuel r r' s s' (b ∷ bs) rest e h again = ground arith

  read_to_end-stop :
      (fuel : ℕ) (r r' : DepotFileReader) (s s' : S)
      → read api store r buf_len s ≡ (ok [], r', s')
      → read_to_end api store buf_len (suc fuel) r s ≡ some (ok [])
  unfolding read_to_end
  read_to_end-stop fuel r r' s s' e = ground arith

  -- With a buffer that is not empty and a store that has every chunk, a loop of reads from a
  -- position inside the file ends, and collects exactly the content from that position on.
  pub read_to_end_lem :
      (fuel : ℕ) (r : DepotFileReader) (s : S)
      → Sound r
      → Inv s
      → r.pos ≤ f.size
      → f.size - r.pos < fuel
      → read_to_end api store buf_len fuel r s ≡ some (ok (between r.pos f.size content))
  read_to_end_lem zero r s sound inv inside enough = absurd (omega arith)
  read_to_end_lem (suc fuel) r s sound inv inside enough =
      let res = read api store r buf_len s in
      let (inv', sound', step) =
        read_lem store Inv Good faithful api f content holds r buf_len s sound inv in
      let (n, e, moved, within, more) = succeeds r res.0 res.1 inside step in
      elim (dec_lt r.pos f.size) [
        | yes before ↦
            let part = between r.pos (r.pos + n) content in
            let len =
              length-between r.pos (r.pos + n) content (omega arith) (omega (arith, holds.sized)) in
            let some_bytes = more before in
            let again =
              read_to_end_lem fuel res.1 res.2 sound' inv' (omega (arith, moved))
                (omega (arith, moved, some_bytes)) in
            read_to_end-step fuel r res.1 s res.2 part _ (λ i. (e i, res.1, res.2))
              (omega (arith, len, some_bytes)) again
            ∙ ap (λ (p : ℕ). some (ok (part ++ between p f.size content))) moved
            ∙ ap (λ (w : Bytes). some (ok w))
                (between-append r.pos (r.pos + n) f.size content (omega arith) within)
        | no past ↦
            let nothing = between_empty r.pos f.size content (omega arith) in
            let no_more : n ≡ 0 = omega arith in
            read_to_end-stop fuel r res.1 s res.2 (λ i.
              ((e ∙ ap ok (between_empty r.pos (r.pos + n) content (omega arith))) i, res.1, res.2))
            ∙ ap (λ (w : Bytes). some (ok w)) (sym nothing)
      ]
