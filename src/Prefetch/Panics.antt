-- ===== src/Prefetch/Panics.antt =====
-- What panics do to the loop of `prefetch_snapshot` of crates/steam-depot/src/prefetch.rs.
use steam_depot_vfs.Prelude.{
  ℕ, ◌+◌, ◌≤◌, ◌<◌, ◌≡◌, refl, sym, ap, subst, ◌∙◌, arith, false, List, [], ◌∷◌, length, drop,
  length-take, inl, inr,
}
use steam_depot_vfs.Outcome.{ok, panicked}
use steam_depot_vfs.Prefetch.{Work, Loop, Event, shutdown, joined, prime, step, run_loop, result_of}
use steam_depot_vfs.Prefetch.Draining.{step-Joined}
use steam_depot_vfs.Prefetch.Schedules.{List-cases, run_loop-idle, run_loop-busy, joins}

-- Only panics.
abbrev pub AllPanic : List Event → Type 0
AllPanic [] = Unit
AllPanic (shutdown ∷ events) = ⊥
AllPanic (joined place r ∷ events) = (r ≡ panicked) × AllPanic events

abbrev Stalled : List Event → Loop → Loop → Type 0
Stalled events s t =
    (t.todo ≡ s.todo)
    × (t.chunks_done ≡ s.chunks_done)
    × (t.interrupted ≡ s.interrupted)
    × (length s.in_flight ≤ joins events → t.in_flight ≡ [])

no_length : (l : List Work) → length l ≤ 0 → l ≡ []
no_length [] h = refl
no_length (w ∷ ws) h = absurd (omega arith)

panicked-Stalled :
    (s : Loop) (place : ℕ)
    → 0 < length s.in_flight
    → let t = step (joined place panicked) s in
      (t.todo ≡ s.todo)
      × (t.chunks_done ≡ s.chunks_done)
      × (t.interrupted ≡ s.interrupted)
      × (length t.in_flight + 1 ≡ length s.in_flight)
panicked-Stalled s place busy =
    let less = (step-Joined panicked place s busy).one_less in
    let same : (step (joined place panicked) s).todo ≡ s.todo = unfold step in refl in
    (
      same,
      unfold step in refl,
      unfold step in refl,
      omega (arith, less, ap (λ (l : List Work). length l) same),
    )

run_loop-panics :
    (events : List Event) (s : Loop) → AllPanic events → Stalled events s (run_loop events s)
run_loop-panics [] s a = unfold run_loop in (refl, refl, refl, λ h. no_length s.in_flight h)
run_loop-panics (shutdown ∷ events) s a = elim a [ ]
run_loop-panics (joined place r ∷ events) s a = elim (List-cases s.in_flight) [
  | inl idle ↦
      subst (λ t. Stalled (joined place r ∷ events) s t)
        (sym (run_loop-idle (joined place r) events s idle)) (refl, refl, refl, λ h. idle)
  | inr busy ↦
      let again : step (joined place r) s ≡ step (joined place panicked) s =
        ap (λ x. step (joined place x) s) a.0 in
      let (todo, chunks, flag, less) = panicked-Stalled s place busy in
      let (later_todo, later_chunks, later_flag, over) =
        run_loop-panics events (step (joined place panicked) s) a.1 in
      subst (λ t. Stalled (joined place r ∷ events) s t)
        (sym (run_loop-busy (joined place r) events s busy ∙ ap (λ t. run_loop events t) again))
        (
          later_todo ∙ todo,
          later_chunks ∙ chunks,
          later_flag ∙ flag,
          λ h. over (omega (arith, less)),
        )
]

-- A task that panics is not replaced: if the first `parallelism` tasks panic, the loop ends with all
-- the other chunks still to do and none fetched, and yet without an error.
pub loop_panics :
    (parallelism : ℕ) (work : List Work) (events : List Event)
    → AllPanic events
    → parallelism ≤ joins events
    → let s = run_loop events (prime parallelism work) in
      (s.in_flight ≡ [])
      × (s.todo ≡ drop parallelism work)
      × (s.chunks_done ≡ 0)
      × (result_of false s ≡ ok tt)
loop_panics parallelism work events a h =
    let (todo, chunks, flag, over) = run_loop-panics events (prime parallelism work) a in
    let begun : ((prime parallelism work).interrupted ≡ false)
        × (length (prime parallelism work).in_flight ≤ parallelism) =
      unfold prime in (refl, omega (arith, length-take parallelism work)) in
    (
      over (omega (arith, begun.1)),
      unfold prime in todo,
      unfold prime in chunks,
      rw (flag ∙ begun.0) refl,
    )
