-- ===== src/Cache/Writes.antt =====
-- What `write_atomic` of crates/steam-depot-vfs/src/chunk_store/cache.rs leaves.
use steam_depot_vfs.Prelude.{ℕ, ◌≡◌, ◌≢◌, refl, ◌∙◌, [], some, take}
use steam_depot_vfs.Depot.{Bytes, Text}
use steam_depot_vfs.Outcome.{Outcome, ok, is_ok, is_err, is_panic, Outcome-cases}
use steam_depot_vfs.Cache.{Result, tmp_name, tmp_path, write_atomic}
use steam_depot_vfs.Cache.Interfaces.{Env, State, DiskLaws}

module _ {D C I : Type 0} (env : Env D C I) (disk : DiskLaws env.disk_api) where
  -- A write of `bytes` to `path` through `tmp`. `done`: the target holds what the temporary file held
  -- after `write_all`, a first part of the bytes. `kept`: an error, or a panic, and the target is as
  -- it was. No other file than `tmp` changes, nor the decoded chunks or the inner store.
  pub data AtomicWrite (tmp path : Text) (bytes : Bytes) (s : State D C I)
      (res : Result (Unit {0}) × State D C I) : Type 0 where
    done :
        res.0 ≡ ok tt
        → disk.content res.1.disk path
          ≡ disk.content (env.disk_api.write_all tmp bytes (env.disk_api.create tmp s.disk).1).1 tmp
        → (k : ℕ) × (disk.content res.1.disk path ≡ some (take k bytes))
        → ((q : Text) → tmp ≢ q → path ≢ q → disk.content res.1.disk q ≡ disk.content s.disk q)
        → res.1.decoded ≡ s.decoded
        → res.1.inner ≡ s.inner
        → AtomicWrite tmp path bytes s res
    kept :
        ((r : Unit {0}) → res.0 ≢ ok r)
        → ((q : Text) → tmp ≢ q → disk.content res.1.disk q ≡ disk.content s.disk q)
        → res.1.decoded ≡ s.decoded
        → res.1.inner ≡ s.inner
        → AtomicWrite tmp path bytes s res

  module _ (path : Text) (bytes : Bytes) (s : State D C I) where
    abbrev tmp : Text
    tmp = tmp_name env.process_id path s.writes

    abbrev created : Outcome ℕ (Unit {0}) × D
    created = env.disk_api.create tmp s.disk

    abbrev written : Outcome ℕ (Unit {0}) × D
    written = env.disk_api.write_all tmp bytes created.1

    abbrev renamed : Outcome ℕ (Unit {0}) × D
    renamed = env.disk_api.rename tmp path written.1

    write_frames : (q : Text) → tmp ≢ q → disk.content written.1 q ≡ disk.content s.disk q
    write_frames q n = disk.write_frame tmp q bytes created.1 n ∙ disk.create_frame tmp q s.disk n

    renames :
        created.0 ≡ ok tt
        → written.0 ≡ ok tt
        → AtomicWrite tmp path bytes s (write_atomic env path bytes s)
    renames c w = elim (Outcome-cases renamed.0) [
      | is_ok _ m ↦
          unfold write_atomic tmp_path in
          rw (c, w, m)
            (done refl (disk.rename_ok tmp path written.1 m)
              (let (k, e) = disk.write_ok tmp bytes [] created.1 (disk.create_ok tmp s.disk c) w in
                (k, disk.rename_ok tmp path written.1 m ∙ e))
              (λ q n p. disk.rename_frame tmp path q written.1 n p ∙ write_frames q n) refl refl)
      | is_err e m ↦
          unfold write_atomic tmp_path in
          rw (c, w, m)
            (kept (λ r h. cc)
              (λ q n. disk.rename_err tmp path q written.1 (λ h. cc) ∙ write_frames q n) refl refl)
      | is_panic m ↦
          unfold write_atomic tmp_path in
          rw (c, w, m)
            (kept (λ r h. cc)
              (λ q n. disk.rename_err tmp path q written.1 (λ h. cc) ∙ write_frames q n) refl refl)
    ]

    writes : created.0 ≡ ok tt → AtomicWrite tmp path bytes s (write_atomic env path bytes s)
    writes c = elim (Outcome-cases written.0) [
      | is_ok _ w ↦ renames c w
      | is_err e w ↦
          unfold write_atomic tmp_path in rw (c, w) (kept (λ r h. cc) write_frames refl refl)
      | is_panic w ↦
          unfold write_atomic tmp_path in rw (c, w) (kept (λ r h. cc) write_frames refl refl)
    ]

    -- Whatever the system calls return, also when one fails half-way, either `write_atomic` returns an
    -- error or panics, and the target is as it was; or it returns `Ok`, and the target holds what the
    -- temporary file held after `write_all`: a first part of the bytes, which is all of them if the
    -- write in the background, which nothing waits for, does not fail. No file but these two changes.
    pub write_atomic_lem : AtomicWrite tmp path bytes s (write_atomic env path bytes s)
    write_atomic_lem = elim (Outcome-cases created.0) [
      | is_ok _ c ↦ writes c
      | is_err e c ↦
          unfold write_atomic tmp_path in
          rw c (kept (λ r h. cc) (λ q n. disk.create_frame tmp q s.disk n) refl refl)
      | is_panic c ↦
          unfold write_atomic tmp_path in
          rw c (kept (λ r h. cc) (λ q n. disk.create_frame tmp q s.disk n) refl refl)
    ]
