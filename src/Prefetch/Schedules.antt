-- ===== src/Prefetch/Schedules.antt =====
-- Where the loop of `prefetch_snapshot` of crates/steam-depot/src/prefetch.rs gets, for any sequence of events.
use steam_depot_vfs.Prelude.{
  ℕ, zero, suc, ◌+◌, ◌≤◌, ◌<◌, ◌≡◌, ◌≢◌, min, refl, sym, ap, subst, ◌∙◌, arith, false, List, [],
  ◌∷◌, length, take, drop, length-take, length-drop, take-append-drop, inl, inr, ◌⊎◌,
}
use steam_depot_vfs.Outcome.{ok, panicked}
use steam_depot_vfs.Prefetch.{
  Work, Loop, Event, shutdown, joined, prime, step, is_empty, at_end, run_loop, result_of,
}
use steam_depot_vfs.Prefetch.Draining.{left, sizes, sizes-append, step-Joined}

pub List-cases : (l : List Work) → (l ≡ []) ⊎ (0 < length l)
List-cases [] = inl refl
List-cases (w ∷ ws) = inr (omega arith)

pub run_loop-idle :
    (e : Event) (events : List Event) (s : Loop)
    → s.in_flight ≡ []
    → run_loop (e ∷ events) s ≡ at_end (e ∷ events) s
run_loop-idle e events s h = unfold run_loop in rw (h, run_loop) refl

pub busy_list : (l : List Work) → 0 < length l → is_empty l ≡ false
busy_list [] h = absurd (omega arith)
busy_list (w ∷ ws) h = refl

pub run_loop-busy :
    (e : Event) (events : List Event) (s : Loop)
    → 0 < length s.in_flight
    → run_loop (e ∷ events) s ≡ run_loop events (step e s)
run_loop-busy e events s h = unfold run_loop in rw (busy_list s.in_flight h, run_loop) refl

at_end-in_flight : (events : List Event) (s : Loop) → (at_end events s).in_flight ≡ s.in_flight
at_end-in_flight [] s = refl
at_end-in_flight (shutdown ∷ events) s = refl
at_end-in_flight (joined place r ∷ events) s = refl

-- How many of the events are ends of tasks.
abbrev pub joins : List Event → ℕ
joins [] = 0
joins (shutdown ∷ events) = joins events
joins (joined place r ∷ events) = suc (joins events)

step-in_flight :
    (e : Event) (s : Loop)
    → 0 < length s.in_flight
    → length (step e s).in_flight ≤ length s.in_flight
step-in_flight shutdown s h = unfold step in omega arith
step-in_flight (joined place r) s h = (step-Joined r place s h).no_more

run_loop-in_flight :
    (events : List Event) (s : Loop) → length (run_loop events s).in_flight ≤ length s.in_flight
run_loop-in_flight [] s = unfold run_loop in omega arith
run_loop-in_flight (e ∷ events) s = elim (List-cases s.in_flight) [
  | inl idle ↦ omega (
    arith,
    ap (λ (t : Loop). length t.in_flight) (run_loop-idle e events s idle),
    ap (λ (l : List Work). length l) (at_end-in_flight (e ∷ events) s),
  )
  | inr busy ↦ omega (
    arith,
    ap (λ (t : Loop). length t.in_flight) (run_loop-busy e events s busy),
    run_loop-in_flight events (step e s),
    step-in_flight e s busy,
  )
]

-- At every moment, whatever has happened, at most `parallelism` fetches are in flight.
pub loop_bounded :
    (parallelism : ℕ) (work : List Work) (events : List Event)
    → length (run_loop events (prime parallelism work)).in_flight ≤ parallelism
loop_bounded parallelism work events =
    let n : length (prime parallelism work).in_flight ≡ min parallelism (length work) =
      unfold prime in length-take parallelism work in
    omega (arith, run_loop-in_flight events (prime parallelism work), n)

run_loop-ends :
    (events : List Event) (s : Loop) → left s ≤ joins events → (run_loop events s).in_flight ≡ []
run_loop-ends [] s h = elim (List-cases s.in_flight) [
  | inl idle ↦ unfold run_loop in idle
  | inr busy ↦ absurd (omega arith)
]
run_loop-ends (e ∷ events) s h = elim (List-cases s.in_flight) [
  | inl idle ↦
      ap (λ (t : Loop). t.in_flight) (run_loop-idle e events s idle)
      ∙ at_end-in_flight (e ∷ events) s
      ∙ idle
  | inr busy ↦
      ap (λ (t : Loop). t.in_flight) (run_loop-busy e events s busy)
      ∙ run_loop-ends events (step e s) (left_after e busy h)
]
  where
    left_after :
        (x : Event)
        → 0 < length s.in_flight
        → left s ≤ joins (x ∷ events)
        → left (step x s) ≤ joins events
    left_after shutdown busy k = unfold step in k
    left_after (joined place r) busy k = omega (arith, (step-Joined r place s busy).one_less)

-- The loop ends: once as many tasks have ended as there are chunks to fetch, or fewer, nothing is in
-- flight, in whatever order and way they end, and also if it was told to stop.
pub loop_ends :
    (parallelism : ℕ) (work : List Work) (events : List Event)
    → length work ≤ joins events
    → (run_loop events (prime parallelism work)).in_flight ≡ []
loop_ends parallelism work events h =
    let all : left (prime parallelism work) ≡ length work =
      unfold prime in omega (arith, length-take parallelism work, length-drop parallelism work) in
    run_loop-ends events (prime parallelism work) (omega arith)

-- No shutdown, and every task ends without a panic.
abbrev pub NoPanic : List Event → Type 0
NoPanic [] = Unit
NoPanic (shutdown ∷ events) = ⊥
NoPanic (joined place r ∷ events) = (r ≢ panicked) × NoPanic events

-- Every task has fetched its chunk.
abbrev pub AllFetched : List Event → Type 0
AllFetched [] = Unit
AllFetched (shutdown ∷ events) = ⊥
AllFetched (joined place r ∷ events) = (r ≡ ok tt) × AllFetched events

abbrev Busy : Loop → Type 0
Busy s = (s.todo ≡ []) ⊎ (0 < length s.in_flight)

run_loop-todo :
    (events : List Event) (s : Loop)
    → s.interrupted ≡ false
    → Busy s
    → NoPanic events
    → left s ≤ joins events
    → ((run_loop events s).todo ≡ []) × ((run_loop events s).interrupted ≡ false)
run_loop-todo [] s flag b n h = elim (List-cases s.todo) [
  | inl nothing ↦ unfold run_loop in (nothing, flag)
  | inr some_left ↦ absurd (omega arith)
]
run_loop-todo (shutdown ∷ events) s flag b n h = elim n [ ]
run_loop-todo (joined place r ∷ events) s flag b n h = elim (List-cases s.in_flight) [
  | inl idle ↦
      let e = run_loop-idle (joined place r) events s idle in
      elim b [
        | inl nothing ↦
            (ap (λ (t : Loop). t.todo) e ∙ nothing, ap (λ (t : Loop). t.interrupted) e ∙ flag)
        | inr some_in ↦ absurd (omega (arith, ap (λ (l : List Work). length l) idle))
      ]
  | inr busy ↦
      let e = run_loop-busy (joined place r) events s busy in
      let j = step-Joined r place s busy in
      let (a, c) =
        run_loop-todo events (step (joined place r) s) (j.same_flag ∙ flag) (j.busy n.0 flag) n.1
          (omega (arith, j.one_less)) in
      (ap (λ (t : Loop). t.todo) e ∙ a, ap (λ (t : Loop). t.interrupted) e ∙ c)
]

AllFetched-NoPanic : (events : List Event) → AllFetched events → NoPanic events
AllFetched-NoPanic [] a = tt
AllFetched-NoPanic (shutdown ∷ events) a = a
AllFetched-NoPanic (joined place r ∷ events) a =
    ((λ q. absurd (let e = a.0 in cc)), AllFetched-NoPanic events a.1)

abbrev Kept : Loop → Loop → Type 0
Kept s t =
    (t.chunks_done + left t ≡ s.chunks_done + left s)
    × (t.bytes_done + sizes t.todo + sizes t.in_flight
        ≡ s.bytes_done + sizes s.todo + sizes s.in_flight)

run_loop-counts : (events : List Event) (s : Loop) → AllFetched events → Kept s (run_loop events s)
run_loop-counts [] s a = unfold run_loop in (refl, refl)
run_loop-counts (shutdown ∷ events) s a = elim a [ ]
run_loop-counts (joined place r ∷ events) s a = elim (List-cases s.in_flight) [
  | inl idle ↦
      subst (λ t. Kept s t) (sym (run_loop-idle (joined place r) events s idle)) (refl, refl)
  | inr busy ↦
      let j = step-Joined r place s busy in
      let (chunks, bytes) = run_loop-counts events (step (joined place r) s) a.1 in
      let (one, same) = j.counted a.0 in
      subst (λ t. Kept s t) (sym (run_loop-busy (joined place r) events s busy))
        (omega (arith, chunks, one, j.one_less), bytes ∙ same)
]

none_left :
    (s : Loop)
    → s.todo ≡ []
    → s.in_flight ≡ []
    → (left s ≡ 0) × (sizes s.todo + sizes s.in_flight ≡ 0)
none_left s a b = (
  omega (arith, ap (λ (l : List Work). length l) a, ap (λ (l : List Work). length l) b),
  omega (arith, ap (λ (l : List Work). sizes l) a, ap (λ (l : List Work). sizes l) b),
)

primed_busy :
    (parallelism : ℕ) (work : List Work)
    → 0 < parallelism
    → (drop parallelism work ≡ []) ⊎ (0 < length (take parallelism work))
primed_busy zero work h = absurd (omega arith)
primed_busy (suc n) [] h = inl refl
primed_busy (suc n) (w ∷ ws) h = inr (omega arith)

-- If every task fetches its chunk, the loop ends with nothing left to do and everything counted.
pub loop_counts :
    (parallelism : ℕ) (work : List Work) (events : List Event)
    → 0 < parallelism
    → AllFetched events
    → length work ≤ joins events
    → let s = run_loop events (prime parallelism work) in
      (s.todo ≡ [])
      × (s.chunks_done ≡ length work)
      × (s.bytes_done ≡ sizes work)
      × (result_of false s ≡ ok tt)
loop_counts parallelism work events some_room a h =
    let s = prime parallelism work in
    let t = run_loop events s in
    let all : left s ≡ length work =
      unfold prime in omega (arith, length-take parallelism work, length-drop parallelism work) in
    let whole : sizes s.todo + sizes s.in_flight ≡ sizes work =
      unfold prime in
      omega (
        arith,
        sizes-append (take parallelism work) (drop parallelism work),
        ap (λ (l : List Work). sizes l) (take-append-drop parallelism work),
      ) in
    let begun : (s.chunks_done ≡ 0) × (s.bytes_done ≡ 0) × (s.interrupted ≡ false) =
      unfold prime in (refl, refl, refl) in
    let busy : Busy s = unfold prime in primed_busy parallelism work some_room in
    let (done, flag) =
      run_loop-todo events s begun.2 busy (AllFetched-NoPanic events a) (omega (arith, all, h)) in
    let ended = run_loop-ends events s (omega (arith, all, h)) in
    let (chunks, bytes) = run_loop-counts events s a in
    let (zero_left, zero_bytes) = none_left t done ended in
    (
      done,
      omega (arith, chunks, zero_left, all, begun.0),
      omega (arith, bytes, zero_bytes, whole, begun.1),
      rw flag refl,
    )
