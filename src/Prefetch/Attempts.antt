-- ===== src/Prefetch/Attempts.antt =====
-- crates/steam-depot/src/prefetch.rs: `scan_chunks_on_disk`, `prefetch_snapshot`, and `run` from its loop on, which
-- fetches what is missing, checks all chunk files, deletes the bad ones and tries again. Opening a
-- manifest, what wakes the tasks' loop, the threads of the check and the calls of the system are
-- parameters, which act on the state `W` of the outside.
use steam_depot_vfs.Prelude.{
  ℕ, zero, suc, Bool, List, [], ◌∷◌, ◌++◌, map, Option, none, some, if◌then◌else◌, ◌==◌, nat_eq,
  list_eq, ◌⊎◌, inl, inr,
}
use steam_depot_vfs.Depot.{Text, ChunkHash, DepotApi, Manifest}
use steam_depot_vfs.Outcome.{Outcome, ok, err, panicked}
use steam_depot_vfs.Shas.{parse_sha}
use steam_depot_vfs.View.{text_le}
use steam_depot_vfs.Prefetch.{
  Plan, empty_plan, plan_files, Work, Event, prime, run_loop, PrefetchError, interrupted_by_signal,
  result_of, is_empty, default_parallelism, contains,
}
use steam_depot_vfs.Verify.{VerifyReport}

abbrev pub max_refetch_attempts : ℕ
max_refetch_attempts = 3

-- `parallelism.unwrap_or(DEFAULT_PARALLELISM).max(1)`
abbrev pub parallelism_of : Option ℕ → ℕ
parallelism_of none = default_parallelism
parallelism_of (some n) = if n == 0 then 1 else n

-- What `read_dir` gives: an error, or the entries, whose names may not be UTF-8. Errors are numbers.
pub data DirEntries : Type 0 where
  no_such_dir : DirEntries
  dir_error : ℕ → DirEntries
  entries : List (ℕ ⊎ Option Text) → DirEntries

abbrev pub insert_sha : ChunkHash → List ChunkHash → List ChunkHash
insert_sha sha out = if contains sha out then out else sha ∷ out

-- A name that is no hash is passed over.
abbrev pub take_name :
    Outcome (Unit {0}) ChunkHash
    → List ChunkHash
    → (List ChunkHash → Outcome ℕ (List ChunkHash))
    → Outcome ℕ (List ChunkHash)
take_name (ok sha) out more = more (insert_sha sha out)
take_name (err _) out more = more out
take_name panicked out more = panicked

unfoldable pub scan_names : List (ℕ ⊎ Option Text) → List ChunkHash → Outcome ℕ (List ChunkHash)
unfolding parse_sha contains
scan_names [] out = ok out
scan_names (inl e ∷ rest) out = err e
scan_names (inr none ∷ rest) out = scan_names rest out
scan_names (inr (some name) ∷ rest) out = take_name (parse_sha name) out (scan_names rest)

unfoldable pub scan_chunks_on_disk : DirEntries → Outcome ℕ (List ChunkHash)
unfolding scan_names
scan_chunks_on_disk no_such_dir = ok []
scan_chunks_on_disk (dir_error e) = err e
scan_chunks_on_disk (entries es) = scan_names es []

-- `work.sort_unstable_by_key(|(sha, _)| sha.0)`; no hash is there twice.
unfoldable pub insert_work : Work → List Work → List Work
unfolding text_le
insert_work w [] = w ∷ []
insert_work (sha, size) ((tha, n) ∷ rest) =
    let later = insert_work (sha, size) rest in
    if text_le sha tha then (sha, size) ∷ (tha, n) ∷ rest else (tha, n) ∷ later

unfoldable pub sort_work : List Work → List Work
unfolding insert_work
sort_work [] = []
sort_work (w ∷ ws) = insert_work w (sort_work ws)

module _ (api : DepotApi) where
  abbrev pub plan_of : List ChunkHash → Manifest → Plan
  plan_of cached manifest = plan_files api cached manifest.files empty_plan

  -- `prefetch_snapshot`, for what wakes its loop.
  unfoldable pub prefetch_snapshot :
      (bounded : Bool) (parallelism : ℕ) (already_cached : List ChunkHash)
      → Manifest
      → List Event
      → Outcome PrefetchError (Unit {0})
  unfolding plan_files prime run_loop sort_work
  prefetch_snapshot bounded parallelism already_cached manifest events =
      let work = (plan_of already_cached manifest).unique in
      if is_empty work
      then ok tt
      else result_of bounded (run_loop events (prime parallelism (sort_work work)))

-- `tasks` tells what wakes the loop of a `prefetch_snapshot` with this work, up to its end.
pub record Calls (M W : Type 0) : Type 0 where
  pub read_dir : W → DirEntries × W
  pub open_depot_manifest : M → W → Outcome ℕ Manifest × W
  pub tasks : List Work → W → List Event × W
  pub verify_cache : List ChunkHash → W → Outcome ℕ VerifyReport × W
  pub remove_file : ChunkHash → W → Outcome ℕ (Unit {0}) × W

-- How a pass of the loop ends: a run that is bounded by `--seconds` checks nothing.
pub data PassEnd : Type 0 where
  time_is_up : PassEnd
  verified : (bad : List ChunkHash) → PassEnd

-- Why a pass fails.
pub data PassError : Type 0 where
  call_failed : ℕ → PassError
  interrupted : PassError

pub data RunError : Type 0 where
  pass_failed : PassError → RunError
  bad_chunks_left : RunError

abbrev name_of : ChunkHash × Text → ChunkHash
name_of (sha, _) = sha

abbrev pub bad_of : VerifyReport → List ChunkHash
bad_of report = report.mismatched ++ map name_of report.errored

abbrev pub from_call : {A : Type 0} → Outcome ℕ A → Outcome PassError A
from_call (ok a) = ok a
from_call (err e) = err (call_failed e)
from_call panicked = panicked

abbrev pub from_prefetch : Outcome PrefetchError (Unit {0}) → Outcome PassError (Unit {0})
from_prefetch (ok _) = ok tt
from_prefetch (err interrupted_by_signal) = err interrupted
from_prefetch panicked = panicked

-- `?`, then the rest.
abbrev pub and_then :
    {W : Type 0} {A B : Type 0}
    → Outcome PassError A × W
    → (A → W → Outcome PassError B × W)
    → Outcome PassError B × W
and_then (ok a, w) f = f a w
and_then (err e, w) f = (err e, w)
and_then (panicked, w) f = (panicked, w)

module _ {M W : Type 0} (calls : Calls M W) where
  abbrev pub call : {A : Type 0} → Outcome ℕ A × W → Outcome PassError A × W
  call (r, w) = (from_call r, w)

  abbrev pub scan : W → Outcome PassError (List ChunkHash) × W
  scan w = let (found, w') = calls.read_dir w in (from_call (scan_chunks_on_disk found), w')

  module _ (api : DepotApi) (bounded : Bool) (parallelism : ℕ) where
    -- One manifest of the configuration.
    abbrev pub prefetch_one : M → List ChunkHash → W → Outcome PassError (Unit {0}) × W
    prefetch_one m cached w = and_then (call (calls.open_depot_manifest m w)) λ manifest w1.
        let (events, w2) = calls.tasks (plan_of api cached manifest).unique w1 in
        (from_prefetch (prefetch_snapshot api bounded parallelism cached manifest events), w2)

    unfoldable pub prefetch_all : List M → List ChunkHash → W → Outcome PassError (Unit {0}) × W
    unfolding prefetch_snapshot
    prefetch_all [] cached w = (ok tt, w)
    prefetch_all (m ∷ ms) cached w =
        and_then (prefetch_one m cached w) λ _ w'. prefetch_all ms cached w'

  -- A file that cannot be removed is only logged.
  unfoldable pub delete_bad : List ChunkHash → W → W
  delete_bad [] w = w
  delete_bad (sha ∷ bad) w = let (_, w') = calls.remove_file sha w in delete_bad bad w'

  module _ (api : DepotApi) (bounded : Bool) (parallelism : ℕ) where
    unfoldable pub pass : List M → W → Outcome PassError PassEnd × W
    unfolding prefetch_all scan_chunks_on_disk
    pass manifests w = and_then (scan w) λ cached w1.
        and_then (prefetch_all api bounded parallelism manifests cached w1) λ _ w2.
          if bounded
          then (ok time_is_up, w2)
          else and_then (scan w2) λ post w3.
            and_then (call (calls.verify_cache post w3))
              λ report w4. (ok (verified (bad_of report)), w4)

    -- What the loop does after a pass; `again` is the rest of it.
    abbrev pub after_pass :
        Outcome PassError PassEnd × W
        → (W → Outcome RunError (Unit {0}) × W)
        → Outcome RunError (Unit {0}) × W
    after_pass (ok time_is_up, w) again = (ok tt, w)
    after_pass (ok (verified []), w) again = (ok tt, w)
    after_pass (ok (verified (sha ∷ bad)), w) again = again (delete_bad (sha ∷ bad) w)
    after_pass (err e, w) again = (err (pass_failed e), w)
    after_pass (panicked, w) again = (panicked, w)

    unfoldable pub attempts : List M → ℕ → W → Outcome RunError (Unit {0}) × W
    unfolding pass delete_bad
    attempts manifests zero w = (err bad_chunks_left, w)
    attempts manifests (suc n) w = after_pass (pass manifests w) (attempts manifests n)

  -- `bounded` is whether `--seconds` is given.
  unfoldable pub run :
      DepotApi → List M → Option ℕ → (bounded : Bool) → W → Outcome RunError (Unit {0}) × W
  unfolding attempts
  run api manifests parallelism bounded w =
      attempts api bounded (parallelism_of parallelism) manifests max_refetch_attempts w
