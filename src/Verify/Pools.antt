-- ===== src/Verify/Pools.antt =====
-- The pool of threads of crates/steam-depot/src/verify.rs, whatever a job does.
use steam_depot_vfs.Prelude.{
  ℕ, ◌+◌, ◌*◌, ◌≤◌, ◌<◌, ◌≡◌, refl, sym, ap, subst, ◌∙◌, arith, List, [], ◌∷◌, ◌++◌, length,
  length-append, append_assoc, append-nil, ◌⊎◌, inl, inr,
}
use mathlib.Core.List.{Perm, perm_middle}
use mathlib.Core.List.Perm
use steam_depot_vfs.Verify.{Job, Pool, pool, Step, send, receive, finish, Steps, here, next, IsDone}

-- The jobs counted one after the other.
abbrev pub in_order : {R : Type 0} → (Job → R → R) → List Job → R → R
in_order check [] r = r
in_order check (j ∷ js) r = in_order check js (check j r)

abbrev open_jobs : {R : Type 0} → Pool R → List Job
open_jobs p = p.busy ++ (p.queue ++ p.unsent)

module _ {R : Type 0} (check : Job → R → R) (workers : ℕ) where
  -- The report is that of the jobs that are done, in some order; the others are open.
  record Accounted (all : List Job) (r : R) (p : Pool R) : Type 0 where
    done : List Job
    same_report : p.report ≡ in_order check done r
    same_jobs : Perm (done ++ open_jobs p) all
    same_number : length done + length (open_jobs p) ≡ length all

  in_order-append :
      (xs : List Job) (j : Job) (r : R)
      → in_order check (xs ++ j ∷ []) r ≡ check j (in_order check xs r)
  in_order-append [] j r = refl
  in_order-append (x ∷ xs) j r = in_order-append xs j (check x r)

  same_open :
      (all : List Job) (r : R) (p q : Pool R)
      → open_jobs p ≡ open_jobs q
      → p.report ≡ q.report
      → Accounted all r p
      → Accounted all r q
  same_open all r p q e f a = record {
    done = a.done;
    same_report = sym f ∙ a.same_report;
    same_jobs = subst (λ l. Perm (a.done ++ l) all) e a.same_jobs;
    same_number = subst (λ l. length a.done + length l ≡ length all) e a.same_number;
  }

  Step-Accounted :
      (all : List Job) (r : R) {p q : Pool R}
      → Step check workers p q
      → Accounted all r p
      → Accounted all r q
  Step-Accounted all r (send j unsent queue busy now) a =
      same_open all r (pool (j ∷ unsent) queue busy now) (pool unsent (queue ++ j ∷ []) busy now)
        (ap (λ l. busy ++ l) (sym (append_assoc queue (j ∷ []) unsent))) refl a
  Step-Accounted all r (receive j unsent queue busy now free) a =
      same_open all r (pool unsent (j ∷ queue) busy now) (pool unsent queue (busy ++ j ∷ []) now)
        (sym (append_assoc busy (j ∷ []) (queue ++ unsent))) refl a
  Step-Accounted all r (finish j unsent queue before after now) a = record {
    done = a.done ++ j ∷ [];
    same_report = ap (λ x. check j x) a.same_report ∙ sym (in_order-append a.done j r);
    same_jobs =
        subst (λ l. Perm l all)
          (sym (append_assoc a.done (j ∷ []) ((before ++ after) ++ (queue ++ unsent))))
          (Perm.trans
            (Perm.append_left a.done
              (Perm.symm (Perm.append_right (queue ++ unsent) (perm_middle before after))))
            a.same_jobs);
    same_number = omega (
      arith,
      a.same_number,
      length-append a.done (j ∷ []),
      length-append (before ++ after) (queue ++ unsent),
      length-append before after,
      length-append (before ++ j ∷ after) (queue ++ unsent),
      length-append before (j ∷ after),
    );
  }

  begun : (all : List Job) (r : R) → Accounted all r (pool all [] [] r)
  begun all r = record {
    done = [];
    same_report = refl;
    same_jobs = Perm.refl all;
    same_number = omega arith;
  }

  Steps-Accounted :
      (all : List Job) (r : R) {n : ℕ} {p : Pool R}
      → Steps check workers (pool all [] [] r) n p
      → Accounted all r p
  Steps-Accounted all r here = begun all r
  Steps-Accounted all r (next before last) =
      Step-Accounted all r last (Steps-Accounted all r before)

  no_open : (p : Pool R) → IsDone p → open_jobs p ≡ []
  no_open p d = rw (d.all_counted, d.all_received, d.all_sent) refl

  -- In whatever order the threads run, the report at the end is that of counting every job once, one
  -- after the other, in some order.
  pub pool_lem :
      (all : List Job) (r : R) (n : ℕ) (p : Pool R)
      → Steps check workers (pool all [] [] r) n p
      → IsDone p
      → (order : List Job) × Perm order all
        × (length order ≡ length all)
        × (p.report ≡ in_order check order r)
  pool_lem all r n p steps d =
      let a = Steps-Accounted all r steps in
      let none_open = no_open p d in
      (
        a.done,
        subst (λ l. Perm l all) (ap (λ l. a.done ++ l) none_open ∙ append-nil a.done) a.same_jobs,
        omega (arith, a.same_number, ap (λ (l : List Job). length l) none_open),
        a.same_report,
      )

  -- Three moves for a job that is not sent, two for one in the channel.
  abbrev work : Pool R → ℕ
  work p = 3 * length p.unsent + 2 * length p.queue + length p.busy

  Step-work : {p q : Pool R} → Step check workers p q → work q + 1 ≡ work p
  Step-work (send j unsent queue busy r) = omega (arith, length-append queue (j ∷ []))
  Step-work (receive j unsent queue busy r free) = omega (arith, length-append busy (j ∷ []))
  Step-work (finish j unsent queue before after r) =
      omega (arith, length-append before (j ∷ after), length-append before after)

  Steps-work : {p q : Pool R} {n : ℕ} → Steps check workers p n q → work q + n ≡ work p
  Steps-work here = omega arith
  Steps-work (next {q} {s} before last) = omega (arith, Steps-work before, Step-work last)

  moves :
      (unsent queue busy : List Job) (r : R)
      → 0 < workers
      → IsDone (pool unsent queue busy r)
        ⊎ ((q : Pool R) × Step check workers (pool unsent queue busy r) q)
  moves (j ∷ unsent) queue busy r h = inr (_, send j unsent queue busy r)
  moves [] queue (j ∷ busy) r h = inr (_, finish j [] queue [] busy r)
  moves [] (j ∷ queue) [] r h = inr (_, receive j [] queue [] r (omega arith))
  moves [] [] [] r h = inl (record { all_sent = refl; all_received = refl; all_counted = refl })

  -- A check of some files with a thread at least ends: it makes at most three moves per file, and as
  -- long as it is not done some move is possible.
  pub pool_ends :
      (all : List Job) (r : R) (n : ℕ) (p : Pool R)
      → 0 < workers
      → Steps check workers (pool all [] [] r) n p
      → (n ≤ 3 * length all) × (IsDone p ⊎ ((q : Pool R) × Step check workers p q))
  pool_ends all r n p h steps =
      (omega (arith, Steps-work steps), moves p.unsent p.queue p.busy p.report h)
