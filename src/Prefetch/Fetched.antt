-- ===== src/Prefetch/Fetched.antt =====
-- Which chunks the loop of `prefetch_snapshot` of crates/steam-depot/src/prefetch.rs fetches.
use steam_depot_vfs.Prelude.{
  ℕ, zero, suc, ◌<◌, ◌≤◌, ◌≡◌, refl, sym, ap, subst, ◌∙◌, arith, false, List, [], ◌∷◌, ◌++◌, Option,
  some, none, length, get_elem?, get_elem?-some, append_assoc, take-append-drop, append-nil, inl,
  inr, Bool-cases, if◌then◌else◌,
}
use mathlib.Core.Option.{some-injective}
use mathlib.Core.List.{Perm}
use mathlib.Core.List.Perm
use steam_depot_vfs.Outcome.{ok}
use steam_depot_vfs.Prefetch.{
  Work, Loop, Event, shutdown, joined, remove_at, refill, prime, step, next_work, is_empty,
  run_loop, result_of,
}
use steam_depot_vfs.Prefetch.Draining.{sizes, step_ok, place_in}
use steam_depot_vfs.Prefetch.Schedules.{
  List-cases, busy_list, run_loop-idle, run_loop-busy, loop_ends, loop_counts, AllFetched, joins,
}

abbrev pub one_of : Option Work → List Work
one_of none = []
one_of (some w) = w ∷ []

-- The chunk of the task that has fetched it when the event is handled.
abbrev pub fetched_by : Event → Loop → List Work
fetched_by (joined place (ok _)) s = one_of (get_elem? s.in_flight (place_in s place))
fetched_by _ s = []

-- The chunks that have been fetched, in the order in which their tasks ended.
unfoldable pub fetched : List Event → Loop → List Work
unfolding step
fetched [] s = []
fetched (e ∷ events) s =
    let rest = fetched events (step e s) in
    if is_empty s.in_flight then [] else fetched_by e s ++ rest

abbrev all : Loop → List Work
all s = s.in_flight ++ s.todo

remove_at-perm :
    (ws : List Work) (i : ℕ) (w : Work) → get_elem? ws i ≡ some w → Perm (w ∷ remove_at ws i) ws
unfolding remove_at
remove_at-perm [] i w h = absurd cc
remove_at-perm (x ∷ ws) zero w h =
    subst (λ y. Perm (y ∷ ws) (x ∷ ws)) (some-injective x w h) (Perm.refl (x ∷ ws))
remove_at-perm (x ∷ ws) (suc i) w h =
    Perm.trans (Perm.swap x w (remove_at ws i)) (Perm.cons x (remove_at-perm ws i w h))

next_work-all : (todo : List Work) (s : Loop) → s.todo ≡ todo → all (next_work todo s) ≡ all s
next_work-all [] s e = refl
next_work-all (w ∷ ws) s e =
    append_assoc s.in_flight (w ∷ []) ws ∙ ap (λ l. s.in_flight ++ l) (sym e)

refill-all : (s : Loop) → all (refill s) ≡ all s
refill-all s = elim (Bool-cases s.interrupted) [
  | inl on ↦ unfold refill in ap (λ b. all (if b then s else next_work s.todo s)) on
  | inr off ↦
      unfold refill in
      ap (λ b. all (if b then s else next_work s.todo s)) off ∙ next_work-all s.todo s refl
]

-- What a task that fetches its chunk takes from the work, whichever it is.
step-fetched :
    (place : ℕ) (s : Loop)
    → 0 < length s.in_flight
    → Perm (fetched_by (joined place (ok tt)) s ++ all (step (joined place (ok tt)) s)) (all s)
step-fetched place s some_in =
    let i = place_in s place in
    let ((sha, size), at) = get_elem?-some s.in_flight i (omega (arith, some_in)) in
    let e : all (step (joined place (ok tt)) s) ≡ remove_at s.in_flight i ++ s.todo =
      ap all (step_ok s place size sha at) ∙ refill-all _ in
    subst (λ l. Perm (l ++ all (step (joined place (ok tt)) s)) (all s)) (ap one_of (sym at))
      (subst (λ l. Perm ((sha, size) ∷ l) (all s)) (sym e)
        (Perm.append_right s.todo (remove_at-perm s.in_flight i (sha, size) at)))

fetched-idle :
    (e : Event) (events : List Event) (s : Loop) → s.in_flight ≡ [] → fetched (e ∷ events) s ≡ []
fetched-idle e events s h = unfold fetched in rw (h, fetched) refl

fetched-busy :
    (e : Event) (events : List Event) (s : Loop)
    → 0 < length s.in_flight
    → fetched (e ∷ events) s ≡ fetched_by e s ++ fetched events (step e s)
fetched-busy e events s h = unfold fetched in rw (busy_list s.in_flight h, fetched) refl

run_loop-fetched :
    (events : List Event) (s : Loop)
    → AllFetched events
    → Perm (fetched events s ++ all (run_loop events s)) (all s)
run_loop-fetched [] s a = unfold fetched run_loop in Perm.refl (all s)
run_loop-fetched (shutdown ∷ events) s a = elim a [ ]
run_loop-fetched (joined place r ∷ events) s a = elim (List-cases s.in_flight) [
  | inl idle ↦
      let e = joined place r in
      subst (λ l. Perm (l ++ all (run_loop (e ∷ events) s)) (all s))
        (sym (fetched-idle e events s idle))
        (subst (λ t. Perm (all t) (all s)) (sym (run_loop-idle e events s idle))
          (Perm.refl (all s)))
  | inr busy ↦
      let e = joined place r in
      let rest = all (run_loop events (step e s)) in
      let later = run_loop-fetched events (step e s) a.1 in
      let now : Perm (fetched_by e s ++ all (step e s)) (all s) =
        subst (λ x. Perm (fetched_by (joined place x) s ++ all (step (joined place x) s)) (all s))
          (sym a.0) (step-fetched place s busy) in
      subst (λ l. Perm (l ++ all (run_loop (e ∷ events) s)) (all s))
        (sym (fetched-busy e events s busy))
        (subst (λ t. Perm ((fetched_by e s ++ fetched events (step e s)) ++ all t) (all s))
          (sym (run_loop-busy e events s busy))
          (subst (λ l. Perm l (all s))
            (sym (append_assoc (fetched_by e s) (fetched events (step e s)) rest))
            (Perm.trans (Perm.append_left (fetched_by e s) later) now)))
]

-- If every task fetches its chunk and none panics, and there is no shutdown, then, in whatever order
-- they end, the loop ends with nothing left to do, and the chunks that have been fetched are those
-- of the work, each as often as it stands there: all are counted, with their sizes.
pub loop_complete :
    (parallelism : ℕ) (work : List Work) (events : List Event)
    → 0 < parallelism
    → AllFetched events
    → length work ≤ joins events
    → let s = run_loop events (prime parallelism work) in
      Perm (fetched events (prime parallelism work)) work
      × (s.todo ≡ [])
      × (s.chunks_done ≡ length work)
      × (s.bytes_done ≡ sizes work)
      × (result_of false s ≡ ok tt)
loop_complete parallelism work events some_room a h =
    let s = prime parallelism work in
    let counts = loop_counts parallelism work events some_room a h in
    let ended = loop_ends parallelism work events h in
    let nothing : all (run_loop events s) ≡ [] =
      ap (λ l. l ++ (run_loop events s).todo) ended ∙ counts.0 in
    let begun : all s ≡ work = unfold prime in take-append-drop parallelism work in
    let got =
      subst (λ l. Perm (fetched events s ++ l) (all s)) nothing (run_loop-fetched events s a) in
    (
      subst (λ l. Perm l work) (append-nil (fetched events s))
          (subst (λ l. Perm (fetched events s ++ []) l) begun got),
      counts.0,
      counts.1,
      counts.2,
      counts.3,
    )
