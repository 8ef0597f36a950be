-- ===== src/Prefetch/Draining.antt =====
-- The loop of `prefetch_snapshot` of crates/steam-depot/src/prefetch.rs, for any order in which the tasks end.
use steam_depot_vfs.Prelude.{
  ℕ, zero, suc, ◌+◌, ◌%◌, ◌≤◌, ◌<◌, ◌≡◌, ◌≢◌, refl, sym, ap, subst, arith, Bool, true, false, List,
  [], ◌∷◌, ◌++◌, Option, some, none, length, get_elem?, length-append, get_elem?-some, inl, inr,
  ◌⊎◌,
}
use steam_depot_vfs.Depot.{ChunkHash}
use steam_depot_vfs.Outcome.{Outcome, ok, err, panicked}
use steam_depot_vfs.ChunkStore.{VfsError}
use steam_depot_vfs.Prefetch.{Work, Loop, joined, remove_at, refill, step}

length-remove_at :
    (ws : List Work) (i : ℕ) → i < length ws → length (remove_at ws i) + 1 ≡ length ws
unfolding remove_at
length-remove_at [] i h = absurd (omega arith)
length-remove_at (w ∷ ws) zero h = omega arith
length-remove_at (w ∷ ws) (suc i) h = omega (arith, length-remove_at ws i (omega arith))

-- The work that is left.
abbrev pub left : Loop → ℕ
left s = length s.todo + length s.in_flight

abbrev pub sizes : List Work → ℕ
sizes [] = 0
sizes ((sha, size) ∷ ws) = size + sizes ws

pub sizes-append : (xs ys : List Work) → sizes (xs ++ ys) ≡ sizes xs + sizes ys
sizes-append [] ys = omega arith
sizes-append ((sha, size) ∷ xs) ys = omega (arith, sizes-append xs ys)

sizes-remove_at :
    (ws : List Work) (i size : ℕ) (sha : ChunkHash)
    → get_elem? ws i ≡ some (sha, size)
    → sizes (remove_at ws i) + size ≡ sizes ws
unfolding remove_at
sizes-remove_at [] i size sha h = absurd cc
sizes-remove_at ((x, n) ∷ ws) zero size sha h = let e : n ≡ size = ap size_of h in omega (arith, e)
  where
    size_of : Option Work → ℕ
    size_of none = 0
    size_of (some (y, k)) = k
sizes-remove_at ((x, n) ∷ ws) (suc i) size sha h = omega (arith, sizes-remove_at ws i size sha h)

-- What `refill` keeps, and that it leaves something in flight while there is something to do.
record Refilled (s t : Loop) : Type 0 where
  same_left : left t ≡ left s
  same_bytes : sizes t.todo + sizes t.in_flight ≡ sizes s.todo + sizes s.in_flight
  same_chunks : t.chunks_done ≡ s.chunks_done
  same_done : t.bytes_done ≡ s.bytes_done
  same_flag : t.interrupted ≡ s.interrupted
  one_more : length t.in_flight ≤ length s.in_flight + 1
  busy : s.interrupted ≡ false → (t.todo ≡ []) ⊎ (0 < length t.in_flight)

abbrev loop_of : (todo in_flight : List Work) (chunks bytes : ℕ) (interrupted bar : Bool) → Loop
loop_of todo in_flight chunks bytes interrupted bar = record {
  todo = todo;
  in_flight = in_flight;
  chunks_done = chunks;
  bytes_done = bytes;
  interrupted = interrupted;
  bar_finished = bar;
}

refilled :
    (todo in_flight : List Work) (chunks bytes : ℕ) (interrupted bar : Bool)
    → let s = loop_of todo in_flight chunks bytes interrupted bar in Refilled s (refill s)
unfolding refill
refilled todo in_flight chunks bytes true bar = record {
  same_left = refl;
  same_bytes = refl;
  same_chunks = refl;
  same_done = refl;
  same_flag = refl;
  one_more = omega arith;
  busy = λ e. absurd (cc);
}
refilled [] in_flight chunks bytes false bar = record {
  same_left = refl;
  same_bytes = refl;
  same_chunks = refl;
  same_done = refl;
  same_flag = refl;
  one_more = omega arith;
  busy = λ e. inl refl;
}
refilled ((sha, size) ∷ todo) in_flight chunks bytes false bar = record {
  same_left = omega (arith, length-append in_flight ((sha, size) ∷ []));
  same_bytes = omega (arith, sizes-append in_flight ((sha, size) ∷ []));
  same_chunks = refl;
  same_done = refl;
  same_flag = refl;
  one_more = omega (arith, length-append in_flight ((sha, size) ∷ []));
  busy = λ e. inr (omega (arith, length-append in_flight ((sha, size) ∷ [])));
}

refill-Refilled : (s : Loop) → Refilled s (refill s)
refill-Refilled s =
    refilled s.todo s.in_flight s.chunks_done s.bytes_done s.interrupted s.bar_finished

-- The state without the task at a place.
abbrev pub without : Loop → ℕ → Loop
without s i = record s { in_flight = remove_at s.in_flight i }

abbrev pub place_in : Loop → ℕ → ℕ
place_in s place = place % length s.in_flight

-- The end of a task, by how it ended.
step_failed :
    (s : Loop) (place : ℕ) (e : VfsError)
    → step (joined place (err e)) s ≡ refill (without s (place_in s place))
unfolding step
step_failed s place e = refl

pub step_panicked :
    (s : Loop) (place : ℕ) → step (joined place panicked) s ≡ without s (place_in s place)
unfolding step
step_panicked s place = refl

pub step_ok :
    (s : Loop) (place size : ℕ) (sha : ChunkHash)
    → get_elem? s.in_flight (place_in s place) ≡ some (sha, size)
    → step (joined place (ok tt)) s
      ≡ refill (record (without s (place_in s place)) {
        chunks_done = s.chunks_done + 1;
        bytes_done = s.bytes_done + size;
      })
step_ok s place size sha h = unfold step in rw (h, step) refl

-- What the end of any task does, while one is in flight.
pub record Joined (r : Outcome VfsError (Unit {0})) (s t : Loop) : Type 0 where
  pub one_less : left t + 1 ≡ left s
  pub no_more : length t.in_flight ≤ length s.in_flight
  pub same_flag : t.interrupted ≡ s.interrupted
  pub busy : r ≢ panicked → s.interrupted ≡ false → (t.todo ≡ []) ⊎ (0 < length t.in_flight)
  pub counted :
      r ≡ ok tt
      → (t.chunks_done ≡ s.chunks_done + 1)
        × (t.bytes_done + sizes t.todo + sizes t.in_flight
            ≡ s.bytes_done + sizes s.todo + sizes s.in_flight)

pub step-Joined :
    (r : Outcome VfsError (Unit {0})) (place : ℕ) (s : Loop)
    → 0 < length s.in_flight
    → Joined r s (step (joined place r) s)
step-Joined (ok _) place s some_in =
    let i = place_in s place in
    let inside : i < length s.in_flight = omega (arith, some_in) in
    let ((sha, size), at) = get_elem?-some s.in_flight i inside in
    let gone = length-remove_at s.in_flight i inside in
    let u : Loop = record (without s i) {
      chunks_done = s.chunks_done + 1;
      bytes_done = s.bytes_done + size;
    } in
    let f = refill-Refilled u in
    subst (λ t. Joined (ok tt) s t) (sym (step_ok s place size sha at))
      (record {
        one_less = omega (arith, f.same_left, gone);
        no_more = omega (arith, f.one_more, gone);
        same_flag = f.same_flag;
        busy = λ _ e. f.busy e;
        counted = λ _. (
          f.same_chunks,
          omega (arith, f.same_done, f.same_bytes, sizes-remove_at s.in_flight i size sha at),
        );
      })
step-Joined (err e) place s some_in =
    let i = place_in s place in
    let inside : i < length s.in_flight = omega (arith, some_in) in
    let gone = length-remove_at s.in_flight i inside in
    let f = refill-Refilled (without s i) in
    subst (λ t. Joined (err e) s t) (sym (step_failed s place e))
      (record {
        one_less = omega (arith, f.same_left, gone);
        no_more = omega (arith, f.one_more, gone);
        same_flag = f.same_flag;
        busy = λ _ e. f.busy e;
        counted = λ q. absurd cc;
      })
step-Joined panicked place s some_in =
    let i = place_in s place in
    let inside : i < length s.in_flight = omega (arith, some_in) in
    let gone = length-remove_at s.in_flight i inside in
    subst (λ t. Joined panicked s t) (sym (step_panicked s place))
      (record {
        one_less = omega (arith, gone);
        no_more = omega (arith, gone);
        same_flag = refl;
        busy = λ q. absurd (q refl);
        counted = λ q. absurd cc;
      })
