-- ===== src/Verify/Tests.antt =====
-- Runs of the check of crates/steam-depot/src/verify.rs.
use mathlib.Core.List.{Perm}
use mathlib.Core.List as List
use steam_depot_vfs.Prelude.{
  ℕ, ◌+◌, ◌%◌, ◌^◌, ◌*◌, ◌≡◌, ◌≤◌, refl, arith, List, [], ◌∷◌, Option, some, none, length, ◌⊎◌,
  if◌then◌else◌, ◌==◌, nat_eq, list_eq,
}
use steam_depot_vfs.Depot.{Bytes, Text, ChunkHash}
use steam_depot_vfs.Verify.{
  VerifyReport, empty_report, Job, Pool, pool, Step, send, receive, finish, Steps, here, next,
  IsDone, check_job, jobs_for, start,
}
use steam_depot_vfs.Verify.Pools.{pool_ends}
use steam_depot_vfs.Verify.Totals.{bytes_read}
use steam_depot_vfs.Verify.Reports.{mismatch, failure, verify_cache_lem}
use steam_depot_vfs.Fs.Paths.{join_base}

abbrev first_byte : Bytes → ChunkHash
first_byte [] = []
first_byte (b ∷ bs) = b ∷ []

-- A good file, a bad one, and one that is gone.
abbrev test_read : Text → Option Bytes
test_read path =
    if path == (1 ∷ []) then some (1 ∷ 5 ∷ []) else if path == (2 ∷ []) then some (9 ∷ []) else none

abbrev test_hex : ChunkHash → Text
test_hex sha = sha

abbrev three_shas : List ChunkHash
three_shas = (1 ∷ []) ∷ (2 ∷ []) ∷ (3 ∷ []) ∷ []

abbrev job : ℕ → Job
job n = (n ∷ [], n ∷ [])

abbrev C : Job → VerifyReport → VerifyReport
C = check_job test_read first_byte

abbrev last_report : VerifyReport
last_report = C (job 1) (C (job 3) (C (job 2) empty_report))

-- Two threads: the second and the third file are counted before the first one.
three_steps : Steps C 2 (start test_hex [] three_shas) 9 (pool [] [] [] last_report)
unfolding jobs_for join_base
three_steps =
    let e = empty_report in
    let r2 = C (job 2) e in
    let r3 = C (job 3) r2 in
    let s1 : Steps C 2 (start test_hex [] three_shas) 1
        (pool (job 2 ∷ job 3 ∷ []) (job 1 ∷ []) [] e) =
      next here (send (job 1) (job 2 ∷ job 3 ∷ []) [] [] e) in
    let s2 : Steps C 2 (start test_hex [] three_shas) 2
        (pool (job 2 ∷ job 3 ∷ []) [] (job 1 ∷ []) e) =
      next s1 (receive (job 1) (job 2 ∷ job 3 ∷ []) [] [] e (omega arith)) in
    let s3 : Steps C 2 (start test_hex [] three_shas) 3
        (pool (job 3 ∷ []) (job 2 ∷ []) (job 1 ∷ []) e) =
      next s2 (send (job 2) (job 3 ∷ []) [] (job 1 ∷ []) e) in
    let s4 : Steps C 2 (start test_hex [] three_shas) 4
        (pool [] (job 2 ∷ job 3 ∷ []) (job 1 ∷ []) e) =
      next s3 (send (job 3) [] (job 2 ∷ []) (job 1 ∷ []) e) in
    let s5 : Steps C 2 (start test_hex [] three_shas) 5
        (pool [] (job 3 ∷ []) (job 1 ∷ job 2 ∷ []) e) =
      next s4 (receive (job 2) [] (job 3 ∷ []) (job 1 ∷ []) e (omega arith)) in
    let s6 : Steps C 2 (start test_hex [] three_shas) 6 (pool [] (job 3 ∷ []) (job 1 ∷ []) r2) =
      next s5 (finish (job 2) [] (job 3 ∷ []) (job 1 ∷ []) [] e) in
    let s7 : Steps C 2 (start test_hex [] three_shas) 7 (pool [] [] (job 1 ∷ job 3 ∷ []) r2) =
      next s6 (receive (job 3) [] [] (job 1 ∷ []) r2 (omega arith)) in
    let s8 : Steps C 2 (start test_hex [] three_shas) 8 (pool [] [] (job 1 ∷ []) r3) =
      next s7 (finish (job 3) [] [] (job 1 ∷ []) [] r2) in
    next s8 (finish (job 1) [] [] [] [] r3)

everything_counted : IsDone (pool [] [] [] last_report)
everything_counted = record { all_sent = refl; all_received = refl; all_counted = refl }

verify_cache_example :
    let jobs = jobs_for test_hex [] three_shas in
    Perm last_report.mismatched (List.filter_map (mismatch test_read first_byte) jobs)
    × Perm last_report.errored (List.filter_map (failure test_read first_byte) jobs)
    × (last_report.ok + length last_report.mismatched + length last_report.errored
        ≡ length three_shas)
    × (last_report.total_bytes ≡ bytes_read test_read jobs % 2 ^ 64)
verify_cache_example =
    verify_cache_lem test_read first_byte test_hex [] three_shas 2 9 (pool [] [] [] last_report)
      (omega arith) three_steps everything_counted

pool_ends_example :
    (0 ≤ 3 * length (job 1 ∷ []))
    × (IsDone (pool (job 1 ∷ []) [] [] empty_report)
        ⊎ ((q : Pool VerifyReport) × Step C 2 (pool (job 1 ∷ []) [] [] empty_report) q))
pool_ends_example =
    pool_ends C 2 (job 1 ∷ []) empty_report 0 (pool (job 1 ∷ []) [] [] empty_report) (omega arith)
      here
