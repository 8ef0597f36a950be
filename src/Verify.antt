-- ===== src/Verify.antt =====
-- crates/steam-depot/src/verify.rs, and its copy in crates/steam-depot/src/stats.rs: the check of every
-- chunk file by a pool of threads. Reading a file is a parameter, with `none` for a failure; the files
-- stay as they are during a check.
pub mod Pools
pub mod Totals
pub mod Reports
mod Tests
use steam_depot_vfs.Prelude.{
  ℕ, ◌+◌, ◌%◌, ◌^◌, ◌<◌, ◌≡◌, Bool, true, false, List, [], ◌∷◌, ◌++◌, map, Option, some, none,
  length, ◌⊎◌, inl, inr, ◌==◌, nat_eq, list_eq,
}
use steam_depot_vfs.Depot.{Bytes, Text, ChunkHash}
use steam_depot_vfs.Fs.Paths.{join_base}

pub record VerifyReport : Type 0 where
  pub ok : ℕ
  pub mismatched : List ChunkHash
  pub errored : List (ChunkHash × Text)
  pub total_bytes : ℕ

abbrev pub empty_report : VerifyReport
empty_report = record { ok = 0; mismatched = []; errored = []; total_bytes = 0 }

-- A job of the channel: an expected hash and the path of its file.
abbrev pub Job : Type 0
Job = ChunkHash × Text

-- What `verify_cache` shares with its threads: the jobs still to be sent, those in the channel, those
-- that a thread has received, and what was counted.
pub record Pool (R : Type 0) : Type 0 where
  pub unsent : List Job
  pub queue : List Job
  pub busy : List Job
  pub report : R

abbrev pub pool : {R : Type 0} → List Job → List Job → List Job → R → Pool R
pool unsent queue busy report = record {
  unsent = unsent;
  queue = queue;
  busy = busy;
  report = report;
}

-- The moves of the pool, in any order: the main thread sends a job, a free thread receives one, a
-- thread counts the result of its job.
module _ {R : Type 0} (check : Job → R → R) (workers : ℕ) where
  pub data Step : Pool R → Pool R → Type 0 where
    send :
        (j : Job) (unsent queue busy : List Job) (r : R)
        → Step (pool (j ∷ unsent) queue busy r) (pool unsent (queue ++ j ∷ []) busy r)
    receive :
        (j : Job) (unsent queue busy : List Job) (r : R)
        → length busy < workers
        → Step (pool unsent (j ∷ queue) busy r) (pool unsent queue (busy ++ j ∷ []) r)
    finish :
        (j : Job) (unsent queue before after : List Job) (r : R)
        → Step
            (pool unsent queue (before ++ j ∷ after) r)
            (pool unsent queue (before ++ after) (check j r))

  -- So many moves.
  pub data Steps (p : Pool R) : ℕ → Pool R → Type 0 where
    here : Steps p 0 p
    next : {q s : Pool R} {n : ℕ} → Steps p n q → Step q s → Steps p (n + 1) s

-- Every job is sent, received and counted, and the threads return as the channel is closed.
pub record IsDone {R : Type 0} (p : Pool R) : Type 0 where
  pub all_sent : p.unsent ≡ []
  pub all_received : p.queue ≡ []
  pub all_counted : p.busy ≡ []

module _ (fs_read : Text → Option Bytes) (sha1 : Bytes → ChunkHash) where
  abbrev reading : Text → Text
  reading path = b'r' ∷ b'e' ∷ b'a' ∷ b'd' ∷ b'i' ∷ b'n' ∷ b'g' ∷ b' ' ∷ path

  unfoldable pub verify_one : ChunkHash → Text → Text ⊎ (Bool × ℕ)
  verify_one expected path = elim (fs_read path) [
    | none ↦ inl (reading path)
    | some bytes ↦ inr (sha1 bytes == expected, length bytes)
  ]

  abbrev pub count : ChunkHash → Text ⊎ (Bool × ℕ) → VerifyReport → VerifyReport
  count expected (inr (true, len)) r = record r {
    ok = (r.ok + 1) % 2 ^ 64;
    total_bytes = (r.total_bytes + len) % 2 ^ 64;
  }
  count expected (inr (false, len)) r = record r {
    total_bytes = (r.total_bytes + len) % 2 ^ 64;
    mismatched = r.mismatched ++ expected ∷ [];
  }
  count expected (inl e) r = record r { errored = r.errored ++ (expected, e) ∷ [] }

  unfoldable pub check_job : Job → VerifyReport → VerifyReport
  unfolding verify_one
  check_job (expected, path) r = count expected (verify_one expected path) r

-- `ChunkHash::to_string` is of another crate.
module _ (to_hex : ChunkHash → Text) where
  -- The jobs for a set of hashes.
  unfoldable pub jobs_for : Text → List ChunkHash → List Job
  jobs_for chunks_root [] = []
  jobs_for chunks_root (sha ∷ shas) =
      (sha, join_base chunks_root (to_hex sha)) ∷ jobs_for chunks_root shas

  -- How `verify_cache` begins.
  abbrev pub start : Text → List ChunkHash → Pool VerifyReport
  start chunks_root shas = pool (jobs_for chunks_root shas) [] [] empty_report
