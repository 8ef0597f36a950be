-- ===== src/Prefetch.antt =====
-- crates/steam-depot/src/prefetch.rs: what a manifest's prefetch has to fetch, and the loop that keeps up to
-- `parallelism` fetches in flight. The byte counts do not overflow a `u64`, as the sizes are `u32`.
pub mod Choices
pub mod Selection
pub mod Draining
pub mod Schedules
pub mod Fetched
pub mod Panics
pub mod Attempts
pub mod Checks
pub mod Outcomes
mod Tests
use steam_depot_vfs.Prelude.{
  ℕ, zero, suc, ◌+◌, ◌%◌, Bool, true, false, not, ◌&&◌, List, [], ◌∷◌, ◌++◌, Option, some, none,
  if◌then◌else◌, length, take, drop, get_elem?, ◌==◌, nat_eq, list_eq,
}
use steam_depot_vfs.Prelude.Maps.{HashMap, lookup, insert, contains_key}
use steam_depot_vfs.Depot.{ChunkHash, Chunk, DepotFile, DepotApi, Manifest}
use steam_depot_vfs.Outcome.{Outcome, ok, err, panicked}
use steam_depot_vfs.ChunkStore.{VfsError}

abbrev pub default_parallelism : ℕ
default_parallelism = 32

-- A set of hashes as a list without repetitions.
unfoldable pub contains : ChunkHash → List ChunkHash → Bool
contains sha [] = false
contains sha (x ∷ xs) = let rest = contains sha xs in if x == sha then true else rest

pub record Plan : Type 0 where
  pub unique : HashMap ChunkHash ℕ
  pub skipped : List ChunkHash
  pub skipped_bytes : ℕ

abbrev pub empty_plan : Plan
empty_plan = record { unique = []; skipped = []; skipped_bytes = 0 }

-- `skipped.insert(sha)`, and the bytes of a chunk that was not there.
abbrev pub skip : Chunk → Plan → Plan
skip c p = if contains c.sha p.skipped then p else record p {
  skipped = c.sha ∷ p.skipped;
  skipped_bytes = p.skipped_bytes + c.size_compressed;
}

abbrev pub or_insert : Option ℕ → Chunk → Plan → Plan
or_insert (some size) c p = p
or_insert none c p = record p { unique = insert c.sha c.size_compressed p.unique }

unfoldable pub plan_chunk : List ChunkHash → Chunk → Plan → Plan
unfolding contains
plan_chunk cached c p =
    if contains c.sha cached then skip c p else or_insert (lookup c.sha p.unique) c p

unfoldable pub plan_chunks : List ChunkHash → List Chunk → Plan → Plan
unfolding plan_chunk
plan_chunks cached [] p = p
plan_chunks cached (c ∷ cs) p = plan_chunks cached cs (plan_chunk cached c p)

module _ (api : DepotApi) where
  unfoldable pub plan_files : List ChunkHash → List DepotFile → Plan → Plan
  unfolding plan_chunks
  plan_files cached [] p = p
  plan_files cached (f ∷ fs) p = plan_files cached fs (plan_chunks cached (api.chunks f) p)

abbrev pub Work : Type 0
Work = ChunkHash × ℕ

-- The variables of the loop: what `iter` has left, and the tasks that were spawned and not yet joined.
pub record Loop : Type 0 where
  pub todo : List Work
  pub in_flight : List Work
  pub chunks_done : ℕ
  pub bytes_done : ℕ
  pub interrupted : Bool
  pub bar_finished : Bool

-- What wakes the loop. `joined place r` is the end of one of the tasks in flight, counted round;
-- `panicked` is a task that panicked, `err` a fetch that failed.
pub data Event : Type 0 where
  shutdown : Event
  joined : (place : ℕ) → Outcome VfsError (Unit {0}) → Event

unfoldable pub remove_at : List Work → ℕ → List Work
remove_at [] i = []
remove_at (w ∷ ws) zero = ws
remove_at (w ∷ ws) (suc i) = w ∷ remove_at ws i

-- "Prime the pipeline."
unfoldable pub prime : ℕ → List Work → Loop
prime parallelism work = record {
  todo = drop parallelism work;
  in_flight = take parallelism work;
  chunks_done = 0;
  bytes_done = 0;
  interrupted = false;
  bar_finished = false;
}

abbrev pub next_work : List Work → Loop → Loop
next_work (w ∷ ws) s = record s { todo = ws; in_flight = s.in_flight ++ w ∷ [] }
next_work [] s = record s { bar_finished = true }

-- The next task, unless interrupted.
unfoldable pub refill : Loop → Loop
refill s = if s.interrupted then s else next_work s.todo s

-- A task that panicked is followed by no other.
abbrev pub settle : Outcome VfsError (Unit {0}) → Option Work → Loop → Loop
settle (ok _) (some (sha, size)) s =
    refill (record s { chunks_done = s.chunks_done + 1; bytes_done = s.bytes_done + size })
settle (err e) w s = refill s
settle panicked w s = s
settle (ok _) none s = s

unfoldable pub join_at : Loop → ℕ → Outcome VfsError (Unit {0}) → Loop
unfolding remove_at refill
join_at s i r =
    settle r (get_elem? s.in_flight i) (record s { in_flight = remove_at s.in_flight i })

unfoldable pub step : Event → Loop → Loop
unfolding join_at
step shutdown s = record s { interrupted = true }
step (joined place r) s = join_at s (place % length s.in_flight) r

abbrev pub is_empty {ℓ} : {A : Type ℓ} → List A → Bool
is_empty [] = true
is_empty (x ∷ xs) = false

-- When nothing is in flight, a shutdown that is ready is still seen before the loop ends.
abbrev pub at_end : List Event → Loop → Loop
at_end (shutdown ∷ events) s = record s { interrupted = true }
at_end _ s = s

unfoldable pub run_loop : List Event → Loop → Loop
unfolding step
run_loop [] s = s
run_loop (e ∷ events) s =
    let more = run_loop events (step e s) in
    if is_empty s.in_flight then at_end (e ∷ events) s else more

pub data PrefetchError : Type 0 where
  interrupted_by_signal : PrefetchError

-- How `prefetch_snapshot` ends.
abbrev pub result_of : (bounded : Bool) → Loop → Outcome PrefetchError (Unit {0})
result_of bounded s = if s.interrupted && not bounded then err interrupted_by_signal else ok tt
