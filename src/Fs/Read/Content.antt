-- ===== src/Fs/Read/Content.antt =====
-- `read_into` of crates/steam-depot-vfs/src/fs.rs on a file whose chunks hold its content.
use Prim.Native.Nat.{max}
use steam_depot_vfs.Prelude.{
  ℕ, ◌+◌, ◌-◌, ◌%◌, ◌≤◌, ◌<◌, min, ◌≡◌, sym, subst, arith, false, ◌++◌, ltb, length,
}
use steam_depot_vfs.Depot.{Bytes, Text, ChunkHash, DepotFile, DepotApi}
use steam_depot_vfs.Outcome.{ok}
use steam_depot_vfs.ChunkStore.{ChunkStore, IsFaithful}
use steam_depot_vfs.Fs.{Result, DepotManifestStore}
use steam_depot_vfs.Fs.Read.{read_chunks, read_file, find_file, read_into, u64_mod, isize_max}
use steam_depot_vfs.Fs.Read.Slices.{between}
use steam_depot_vfs.Fs.Read.Layout.{
  Contiguous, HasSha, AllShas-HasSha, HoldsContent, ReadResult, whole, store_error, store_panic,
}
use steam_depot_vfs.Fs.Read.Loop.{read_chunks_content}

not_past : (size offset : ℕ) → offset ≤ size → ltb size offset ≡ false
not_past size offset h = ground arith

no_overflow : (n : ℕ) → n ≤ isize_max → ltb isize_max n ≡ false
no_overflow n h = ground arith

module _ {S : Type 0} (store : ChunkStore S) (Inv : S → Type 0) (Good : ChunkHash → Bytes → Type 0)
    (faithful : IsFaithful Inv Good store) (api : DepotApi) (st : DepotManifestStore) (path : Text)
    (f : DepotFile) (content : Bytes) (found : find_file st path ≡ ok f)
    (holds : HoldsContent Good api f content) where
  abbrev Ours : ChunkHash → Type 0
  Ours sha = HasSha sha (api.chunks f)

  read_file-chunks :
      (offset len : ℕ) (out : Bytes) (s : S)
      → offset ≤ f.size
      → offset + len < u64_mod
      → length out + (min (offset + len) f.size - offset) ≤ isize_max
      → read_into store api st path offset len out s
        ≡ read_chunks store f.path offset (min (offset + len) f.size) (api.chunks f) out s
  unfolding read_into
  read_file-chunks offset len out s inside fits room =
      let e : (offset + len) % u64_mod ≡ offset + len = omega arith in
      let end = min (offset + len) f.size in
      let w : (end + u64_mod - offset) % u64_mod ≡ end - offset = omega (arith, holds.small) in
      rw (found, read_into)
        (unfold read_file in
          rw (holds.regular, not_past f.size offset inside, e, w, no_overflow _ room))

  -- `read_into` of a file that holds `content`, from an offset inside it, with no overflow of
  -- `offset + len` or of the buffer: it appends exactly the bytes from `offset` to `offset + len`,
  -- or to the end of the file if that comes first, or returns the failure of a call of the store
  -- for a chunk of the file. The store's invariant holds afterwards.
  pub read_into-content :
      (offset len : ℕ) (out : Bytes) (s : S)
      → offset ≤ f.size
      → offset + len < u64_mod
      → length out + (min (offset + len) f.size - offset) ≤ isize_max
      → Inv s
      → Inv (read_into store api st path offset len out s).1
        × ReadResult store Inv Ours
            (out ++ between offset (min (offset + len) f.size) content)
            (read_into store api st path offset len out s).0
  read_into-content offset len out s inside fits room inv =
      let zero_max : max 0 offset ≡ offset = omega arith in
      let end = min (offset + len) f.size in
      let r = read_chunks store f.path offset end (api.chunks f) out s in
      rw (read_file-chunks offset len out s inside fits room) (
        subst (λ m. Inv r.1 × ReadResult store Inv Ours (out ++ between m end content) r.0) zero_max
          (read_chunks_content store Inv Good faithful Ours content
            (omega (arith, holds.sized, holds.small)) f.path offset (min (offset + len) f.size)
            (omega (arith, holds.sized)) (omega arith) 0 (api.chunks f) out s
            (subst (λ n. Contiguous 0 (api.chunks f) n) (sym holds.sized) holds.contiguous)
            holds.parts (AllShas-HasSha (api.chunks f)) inv))

  -- Under the same conditions, if the store has every chunk of the file, the read succeeds.
  pub read_into-total :
      (offset len : ℕ) (out : Bytes) (s : S)
      → offset ≤ f.size
      → offset + len < u64_mod
      → length out + (min (offset + len) f.size - offset) ≤ isize_max
      → ((sha : ChunkHash) (t : S)
          → HasSha sha (api.chunks f)
          → Inv t
          → (b : Bytes) × ((store.get sha t).0 ≡ ok b))
      → Inv s
      → (read_into store api st path offset len out s).0
        ≡ ok (out ++ between offset (min (offset + len) f.size) content)
  read_into-total offset len out s inside fits room has inv =
      never_fails (read_into-content offset len out s inside fits room inv).1
    where
      never_fails :
          {r : Result Bytes} {want : Bytes} → ReadResult store Inv Ours want r → r ≡ ok want
      never_fails (whole e) = e
      never_fails (store_error sha t e ours i failed _) =
          absurd (let (b, g) = has sha t ours i in cc)
      never_fails (store_panic sha t ours i failed _) = absurd (let (b, g) = has sha t ours i in cc)
