-- ===== src/Cache/LockMap.antt =====
-- The map of locks of crates/steam-depot-vfs/src/chunk_store/cache.rs after `ChunkDir::chunk_lock`.
use steam_depot_vfs.Prelude.{
  ℕ, ◌≡◌, ◌≢◌, refl, sym, ◌∙◌, subst, Bool, some, none, Bool-cases, inl, inr, ◌==◌, nat_eq, list_eq,
}
use steam_depot_vfs.Prelude.Maps.{lookup, insert, lookup-insert, lookup-insert_self}
use steam_depot_vfs.Depot.{ChunkHash}
use steam_depot_vfs.Cache.Locks.{Loading, chunk_lock, LockOf, reused, fresh, chunk_lock_lem}

-- `chunk_lock` never removes an entry: every chunk that has one keeps one, and the chunk asked for
-- has one afterwards, which is the lock returned.
pub chunk_lock-grows :
    (upgrade : ℕ → Bool) (sha k : ChunkHash) (m : Loading)
    → let (lock, m') = chunk_lock upgrade sha m in
      (lookup sha m'.locks ≡ some lock) × (lookup k m.locks ≢ none → lookup k m'.locks ≢ none)
chunk_lock-grows upgrade sha k m = by_lock (chunk_lock upgrade sha m) (chunk_lock_lem upgrade sha m)
  where
    by_lock :
        (r : ℕ × Loading)
        → LockOf upgrade sha m r
        → (lookup sha r.1.locks ≡ some r.0) × (lookup k m.locks ≢ none → lookup k r.1.locks ≢ none)
    by_lock r (reused l e alive same) =
        subst
          (λ (x : ℕ × Loading).
            (lookup sha x.1.locks ≡ some x.0)
            × (lookup k m.locks ≢ none → lookup k x.1.locks ≢ none))
          (sym same) (e, λ h. h)
    by_lock r (fresh dead new) =
        subst
          (λ (x : ℕ × Loading).
            (lookup sha x.1.locks ≡ some x.0)
            × (lookup k m.locks ≢ none → lookup k x.1.locks ≢ none))
          (sym new)
          (
            lookup-insert_self sha m.next m.locks,
            λ h gone. elim (Bool-cases (sha == k)) [
              | inl same ↦ absurd (
                  let e : lookup k (insert sha m.next m.locks) ≡ some m.next =
                    lookup-insert sha k m.next m.locks ∙ rw same refl in
                  cc)
              | inr n ↦ h (sym (lookup-insert sha k m.next m.locks ∙ rw n refl) ∙ gone)
            ],
          )
