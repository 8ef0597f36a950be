-- ===== src/ChunkStore.antt =====
-- The trait of crates/steam-depot-vfs/src/chunk_store/mod.rs and the errors of
-- crates/steam-depot-vfs/src/error.rs. A store is a state with the two methods as transitions;
-- `Errors` stands for the types of other crates that the variants wrap.
use steam_depot_vfs.Prelude.{ℕ, ◌≡◌}
use steam_depot_vfs.Depot.{Bytes, Text, ChunkHash}
use steam_depot_vfs.Outcome.{Outcome, ok, ◌>>=◌}

-- An error of another type is a number.
pub data VfsError : Type 0 where
  not_found : Text → VfsError
  not_a_file : Text → VfsError
  out_of_range : (size offset : ℕ) → VfsError
  chunk_not_in_manifest : ChunkHash → VfsError
  other : Text → VfsError
  depot server_discovery connection manifest_cache io : ℕ → VfsError

abbrev pub Result : Type 0 → Type 0
Result = Outcome VfsError

pub record ChunkStore (S : Type 0) : Type 0 where
  pub get : ChunkHash → S → Result Bytes × S
  pub ensure : ChunkHash → S → Result (Unit {0}) × S

abbrev pub discard : Result Bytes → Result (Unit {0})
discard r = r >>= λ _. ok tt

-- The trait's own `ensure`: `get`, without the bytes.
pub ensure_by_get :
    {S : Type 0} → (ChunkHash → S → Result Bytes × S) → ChunkHash → S → Result (Unit {0}) × S
ensure_by_get get sha s = let (r, s') = get sha s in (discard r, s')

-- While `Inv` holds, whatever `get` returns for a hash is good for it, and `Inv` holds again.
pub record IsFaithful {S : Type 0} (Inv : S → Type 0) (Good : ChunkHash → Bytes → Type 0)
    (store : ChunkStore S) : Type 0 where
  pub keeps : (sha : ChunkHash) (s : S) → Inv s → Inv (store.get sha s).1
  pub good : (sha : ChunkHash) (s : S) (b : Bytes) → Inv s → (store.get sha s).0 ≡ ok b → Good sha b
