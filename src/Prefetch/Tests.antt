-- ===== src/Prefetch/Tests.antt =====
-- Runs of the planning and the loop of crates/steam-depot/src/prefetch.rs.
use steam_depot_vfs.Prelude.{
  ℕ, Bool, ◌⊎◌, ◌≡◌, ◌≤◌, nat_eq, list_eq, arith, refl, true, false, List, [], ◌∷◌, ◌++◌, Option,
  some, none, zero, suc, sym, ap, subst, inr, drop, length, if◌then◌else◌, ◌&&◌, list_beq,
}
use steam_depot_vfs.Prelude.Maps.{lookup, insert}
use steam_depot_vfs.Depot.{
  Bytes, Text, ChunkHash, Manifest, Chunk, DepotFile, DepotApi, regular, file,
}
use mathlib.Core.List.{Perm}
use steam_depot_vfs.Outcome.{Outcome, ok, err, panicked, ok-injective}
use steam_depot_vfs.ChunkStore.{chunk_not_in_manifest}
use steam_depot_vfs.Prefetch.{
  Work, Event, joined, shutdown, prime, run_loop, result_of, plan_files, empty_plan, contains,
}
use steam_depot_vfs.Prefetch.Attempts.{Calls, entries, bad_chunks_left, run}
use steam_depot_vfs.Prefetch.Checks.{Intact, Checked, HasFrame}
use steam_depot_vfs.Prefetch.Outcomes.{IsCheck, Verified, Dirty, run_lem}
use steam_depot_vfs.Cache.Sample.{stored}
use steam_depot_vfs.Fs.Paths.{join_base}
use steam_depot_vfs.Verify.{
  VerifyReport, empty_report, Job, pool, send, receive, finish, here, next, check_job, jobs_for,
}
use steam_depot_vfs.Prefetch.Draining.{sizes}
use steam_depot_vfs.Prefetch.Schedules.{loop_bounded, loop_ends}
use steam_depot_vfs.Prefetch.Fetched.{fetched, loop_complete}
use steam_depot_vfs.Prefetch.Panics.{loop_panics}
use steam_depot_vfs.Prefetch.Choices.{size_of, is_some}
use steam_depot_vfs.Prefetch.Selection.{all_chunks, plan_files_lem}

abbrev three : List Work
three = (1 ∷ [], 10) ∷ (2 ∷ [], 20) ∷ (3 ∷ [], 30) ∷ []

abbrev mixed : List Event
mixed =
    joined 5 (ok tt)
    ∷ joined 0 panicked
    ∷ joined 1 (err (chunk_not_in_manifest (2 ∷ [])))
    ∷ shutdown
    ∷ []

abbrev all_fetched : List Event
all_fetched = joined 1 (ok tt) ∷ joined 0 (ok tt) ∷ joined 7 (ok tt) ∷ []

abbrev all_panic : List Event
all_panic = joined 1 panicked ∷ joined 0 panicked ∷ []

abbrev chunk_of : ℕ → ℕ → Chunk
chunk_of sha size = record {
  sha = sha ∷ [];
  crc = 0;
  offset = 0;
  size_uncompressed = 9;
  size_compressed = size;
}

abbrev test_api : DepotApi
test_api = record {
  file_type = λ f. file;
  is_file = λ f. true;
  executable = λ f. false;
  linktarget = λ f. none;
  chunks = λ f. elim f.kind [ regular sha executable chunks ↦ chunks | _ ↦ [] ];
}

abbrev file_of : List Chunk → DepotFile
file_of cs = record { path = []; size = 0; kind = regular [] false cs }

abbrev two_files : List DepotFile
two_files = file_of (chunk_of 1 10 ∷ chunk_of 2 20 ∷ []) ∷ file_of (chunk_of 1 11 ∷ []) ∷ []

plan_files_example :
    let plan = plan_files test_api ((2 ∷ []) ∷ []) two_files empty_plan in
    (lookup (1 ∷ []) plan.unique ≡ (
      if contains (1 ∷ []) ((2 ∷ []) ∷ [])
      then none
      else size_of (1 ∷ []) (all_chunks test_api two_files)))
    × (contains (1 ∷ []) plan.skipped ≡ (
        is_some (size_of (1 ∷ []) (all_chunks test_api two_files))
        && contains (1 ∷ []) ((2 ∷ []) ∷ [])))
plan_files_example = plan_files_lem test_api ((2 ∷ []) ∷ []) two_files (1 ∷ [])

loop_bounded_example : length (run_loop mixed (prime 2 three)).in_flight ≤ 2
loop_bounded_example = loop_bounded 2 three mixed

loop_ends_example : (run_loop mixed (prime 2 three)).in_flight ≡ []
loop_ends_example = loop_ends 2 three mixed (omega arith)

loop_complete_example :
    let s = run_loop all_fetched (prime 2 three) in
    Perm (fetched all_fetched (prime 2 three)) three
    × (s.todo ≡ [])
    × (s.chunks_done ≡ length three)
    × (s.bytes_done ≡ sizes three)
    × (result_of false s ≡ ok tt)
loop_complete_example =
    loop_complete 2 three all_fetched (omega arith) (refl, (refl, (refl, tt))) (omega arith)

loop_panics_example :
    let s = run_loop all_panic (prime 2 three) in
    (s.in_flight ≡ []) × (s.todo ≡ drop 2 three) × (s.chunks_done ≡ 0) × (result_of false s ≡ ok tt)
loop_panics_example = loop_panics 2 three all_panic (refl, (refl, tt)) (omega arith)

abbrev to_hex : ChunkHash → Text
to_hex sha = sha

-- The name of the chunk with the one byte 1, whose hash is that byte and zeros.
abbrev chunk_name : Text
chunk_name = b'0' ∷ b'1' ∷ zero_digits 38
  where
    zero_digits : ℕ → Text
    zero_digits zero = []
    zero_digits (suc n) = b'0' ∷ zero_digits n

abbrev file_bytes : Bytes → Text → Option Bytes
file_bytes w path = some w

abbrev check_one : List ChunkHash → Bytes → Outcome ℕ VerifyReport × Bytes
check_one [] w = (err 0, w)
check_one (sha ∷ []) w =
    (ok (check_job (file_bytes w) stored.sha1 (sha, join_base [] sha) empty_report), w)
check_one (sha ∷ tha ∷ shas) w = (err 0, w)

-- A directory with one chunk file, whose bytes are the state, and manifests with one file; what a fetch
-- of a chunk leaves is `written`.
abbrev one_file : Bytes → Calls (Unit {0}) Bytes
one_file written = record {
  read_dir = λ w. (entries (listing w), w);
  open_depot_manifest = λ m w. (ok one_manifest, w);
  tasks = λ work w. (joined 0 (ok tt) ∷ [], if is_none work then w else written);
  verify_cache = check_one;
  remove_file = λ sha w. (ok tt, []);
}
  where
    listing : Bytes → List (ℕ ⊎ Option Text)
    listing [] = []
    listing (b ∷ bs) = inr (some chunk_name) ∷ []

    is_none : List Work → Bool
    is_none [] = true
    is_none (w ∷ ws) = false

    one_manifest : Manifest
    one_manifest = record {
      depot_id = 1;
      manifest_id = 2;
      creation_time = 3;
      size_uncompressed = 1;
      size_compressed = 1;
      files = file_of (record (chunk_of 1 1) { sha = stored.sha1 (1 ∷ []) } ∷ []) ∷ [];
    }

one_file_checks : (written : Bytes) → IsCheck (one_file written) file_bytes stored to_hex []
unfolding jobs_for
one_file_checks written [] w w' report h = absurd (let e = ap (λ q. q.0) h in cc)
one_file_checks written (sha ∷ []) w w' report h =
    let job : Job = (sha, join_base [] sha) in
    let same : w ≡ w' = ap (λ q. q.1) h in
    subst (λ x. Checked (file_bytes x) stored.sha1 to_hex [] (sha ∷ []) report) same
      (record {
        few = omega arith;
        workers = 1;
        moves = 3;
        end_state = pool [] [] [] (check_job (file_bytes w) stored.sha1 job empty_report);
        steps =
            next
              (next (next here (send job [] [] [] empty_report))
                (receive job [] [] [] empty_report (omega arith)))
              (finish job [] [] [] [] empty_report);
        done = record { all_sent = refl; all_received = refl; all_counted = refl };
        reported = sym (ok-injective _ report (ap (λ (q : Outcome ℕ VerifyReport × Bytes). q.0) h));
      })
one_file_checks written (sha ∷ tha ∷ shas) w w' report h = absurd (let e = ap (λ q. q.0) h in cc)

abbrev frame : Bytes
frame = 1 ∷ 0 ∷ 0 ∷ 0 ∷ 0 ∷ 0 ∷ 0 ∷ 0 ∷ stored.sha1 (1 ∷ []) ++ 1 ∷ []

-- Raw bytes pass; the frame that the cache writes for them never does.
attempts_run :
    (run (one_file (1 ∷ [])) test_api (tt ∷ []) none false [] ≡ (ok tt, 1 ∷ []))
    × (run (one_file frame) test_api (tt ∷ []) none false [] ≡ (err bad_chunks_left, []))
unfolding run check_job list_beq lookup insert
attempts_run = (refl, refl)

run_lem_example :
    let (r, w') = run (one_file (1 ∷ [])) test_api (tt ∷ []) none false [] in
    (r ≡ ok tt
      → (v : Verified (one_file (1 ∷ [])) [] w') × Intact
          (file_bytes w')
          stored.sha1
          to_hex
          []
          v.post
        × ¬ HasFrame stored (file_bytes w') to_hex [] v.post)
    × (r ≡ err bad_chunks_left → Dirty (one_file (1 ∷ [])) test_api 32 (tt ∷ []) 3 [] w')
run_lem_example =
    run_lem (one_file (1 ∷ [])) file_bytes stored to_hex [] test_api (tt ∷ []) none []
      (one_file_checks (1 ∷ []))
