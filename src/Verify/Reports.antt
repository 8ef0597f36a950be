-- ===== src/Verify/Reports.antt =====
-- What `verify_cache` of crates/steam-depot/src/verify.rs reports.
use mathlib.Core.List.{Perm}
use mathlib.Core.List as List
use mathlib.Core.List.Perm
use mathlib.Core.Option.{Option-elim}
use steam_depot_vfs.Prelude.{
  ℕ, ◌+◌, ◌%◌, ◌^◌, ◌≤◌, ◌<◌, ◌≡◌, refl, sym, ap, subst, ◌∙◌, arith, Bool, true, false, List, [],
  ◌∷◌, ◌++◌, Option, some, none, length, append_assoc, append-nil, length-append, ◌⊎◌, inl, inr,
  nat_eq, list_eq,
}
use steam_depot_vfs.Depot.{Bytes, Text, ChunkHash}
use steam_depot_vfs.Verify.{
  VerifyReport, empty_report, Job, Pool, Steps, IsDone, verify_one, count, check_job, jobs_for,
  start,
}
use steam_depot_vfs.Verify.Pools.{in_order, pool_lem}
use steam_depot_vfs.Verify.Totals.{bytes_read, in_order-bytes, bytes_read-perm}

length-jobs_for :
    (to_hex : ChunkHash → Text) (chunks_root : Text) (shas : List ChunkHash)
    → length (jobs_for to_hex chunks_root shas) ≡ length shas
unfolding jobs_for
length-jobs_for to_hex chunks_root [] = refl
length-jobs_for to_hex chunks_root (sha ∷ shas) =
    omega (arith, length-jobs_for to_hex chunks_root shas)

abbrev pub listed {ℓ} : {A : Type ℓ} → Option A → List A
listed none = []
listed (some a) = a ∷ []

pub filter_map-cons {ℓ κ} :
    {A : Type ℓ} {B : Type κ} (f : A → Option B) (a : A) (rest : List A)
    → List.filter_map f (a ∷ rest) ≡ listed (f a) ++ List.filter_map f rest
unfolding List.filter_map
filter_map-cons {B} f a rest = by_value (f a)
  where
    by_value :
        (o : Option B)
        → Option-elim o (List.filter_map f rest) (λ b. b ∷ List.filter_map f rest)
          ≡ listed o ++ List.filter_map f rest
    by_value none = refl
    by_value (some b) = refl

module _ (fs_read : Text → Option Bytes) (sha1 : Bytes → ChunkHash) where
  abbrev pub V : ChunkHash → Text → Text ⊎ (Bool × ℕ)
  V = verify_one fs_read sha1

  abbrev pub miss_of : ChunkHash → Text ⊎ (Bool × ℕ) → Option ChunkHash
  miss_of sha (inr (false, len)) = some sha
  miss_of sha _ = none

  abbrev pub error_of : ChunkHash → Text ⊎ (Bool × ℕ) → Option (ChunkHash × Text)
  error_of sha (inl e) = some (sha, e)
  error_of sha _ = none

  -- The hash of a file that could be read and hashes to something else.
  abbrev pub mismatch : Job → Option ChunkHash
  mismatch (sha, path) = miss_of sha (V sha path)

  -- The hash of a file that could not be read, with the error.
  abbrev pub failure : Job → Option (ChunkHash × Text)
  failure (sha, path) = error_of sha (V sha path)

  abbrev C : Job → VerifyReport → VerifyReport
  C = check_job fs_read sha1

  record Reported (js : List Job) (r t : VerifyReport) : Type 0 where
    misses : t.mismatched ≡ r.mismatched ++ List.filter_map mismatch js
    failures : t.errored ≡ r.errored ++ List.filter_map failure js
    total :
        r.ok + length js < 2 ^ 64
        → t.ok + length t.mismatched + length t.errored
          ≡ r.ok + length r.mismatched + length r.errored + length js
    ok_bound : r.ok + length js < 2 ^ 64 → t.ok ≤ r.ok + length js

  -- What one file adds to a report.
  record Counted (sha : ChunkHash) (v : Text ⊎ (Bool × ℕ)) (r t : VerifyReport) : Type 0 where
    misses : t.mismatched ≡ r.mismatched ++ listed (miss_of sha v)
    failures : t.errored ≡ r.errored ++ listed (error_of sha v)
    total :
        r.ok + 1 < 2 ^ 64
        → t.ok + length t.mismatched + length t.errored
          ≡ r.ok + length r.mismatched + length r.errored + 1
    ok_bound : r.ok + 1 < 2 ^ 64 → t.ok ≤ r.ok + 1

  count-Counted :
      (sha : ChunkHash) (v : Text ⊎ (Bool × ℕ)) (r : VerifyReport)
      → Counted sha v r (count fs_read sha1 sha v r)
  count-Counted sha (inl e) r = record {
    misses = sym (append-nil r.mismatched);
    failures = refl;
    total = λ h. omega (arith, length-append r.errored ((sha, e) ∷ []));
    ok_bound = λ h. omega arith;
  }
  count-Counted sha (inr (true, len)) r = record {
    misses = sym (append-nil r.mismatched);
    failures = sym (append-nil r.errored);
    total = λ h. omega arith;
    ok_bound = λ h. omega arith;
  }
  count-Counted sha (inr (false, len)) r = record {
    misses = refl;
    failures = sym (append-nil r.errored);
    total = λ h. omega (arith, length-append r.mismatched (sha ∷ []));
    ok_bound = λ h. omega arith;
  }

  in_order-Reported : (js : List Job) (r : VerifyReport) → Reported js r (in_order C js r)
  unfolding List.filter_map
  in_order-Reported [] r = record {
    misses = sym (append-nil r.mismatched);
    failures = sym (append-nil r.errored);
    total = λ h. omega arith;
    ok_bound = λ h. omega arith;
  }
  in_order-Reported ((sha, path) ∷ js) r =
      let v = V sha path in
      let t = count fs_read sha1 sha v r in
      let one = count-Counted sha v r in
      let rest = in_order-Reported js t in
      let same : C (sha, path) r ≡ t = unfold check_job in refl in
      subst (λ u. Reported ((sha, path) ∷ js) r (in_order C js u)) (sym same)
        (record {
          misses =
              rest.misses
              ∙ ap (λ l. l ++ List.filter_map mismatch js) one.misses
              ∙ append_assoc r.mismatched (listed (mismatch (sha, path)))
                  (List.filter_map mismatch js)
              ∙ ap (λ l. r.mismatched ++ l) (sym (filter_map-cons mismatch (sha, path) js));
          failures =
              rest.failures
              ∙ ap (λ l. l ++ List.filter_map failure js) one.failures
              ∙ append_assoc r.errored (listed (failure (sha, path))) (List.filter_map failure js)
              ∙ ap (λ l. r.errored ++ l) (sym (filter_map-cons failure (sha, path) js));
          total = λ h. omega (
            arith,
            one.total (omega arith),
            one.ok_bound (omega arith),
            rest.total (omega (arith, one.ok_bound (omega arith))),
          );
          ok_bound = λ h. omega (
            arith,
            one.ok_bound (omega arith),
            rest.ok_bound (omega (arith, one.ok_bound (omega arith))),
          );
        })

  -- What is reported at the end, in whatever order the threads ran: the mismatched files are those
  -- that could be read and hash to another name, the errored ones those that could not be read, each
  -- once, and the number of the other files is `ok`, for less than 2 ^ 64 files; `total_bytes` is the
  -- size of all files that could be read, modulo 2 ^ 64.
  pub verify_cache_lem :
      (to_hex : ChunkHash → Text) (chunks_root : Text) (shas : List ChunkHash) (workers n : ℕ)
      (p : Pool VerifyReport)
      → length shas < 2 ^ 64
      → Steps (check_job fs_read sha1) workers (start to_hex chunks_root shas) n p
      → IsDone p
      → let jobs = jobs_for to_hex chunks_root shas in
        Perm p.report.mismatched (List.filter_map mismatch jobs)
        × Perm p.report.errored (List.filter_map failure jobs)
        × (p.report.ok + length p.report.mismatched + length p.report.errored ≡ length shas)
        × (p.report.total_bytes ≡ bytes_read fs_read jobs % 2 ^ 64)
  verify_cache_lem to_hex chunks_root shas workers n p small steps d =
      let jobs = jobs_for to_hex chunks_root shas in
      let (order, same_jobs, same_number, e) = pool_lem C workers jobs empty_report n p steps d in
      let a =
        subst (λ t. Reported order empty_report t) (sym e) (in_order-Reported order empty_report) in
      let number = length-jobs_for to_hex chunks_root shas in
      (
        subst (λ l. Perm l (List.filter_map mismatch jobs)) (sym a.misses)
            (Perm.filter_map mismatch same_jobs),
        subst (λ l. Perm l (List.filter_map failure jobs)) (sym a.failures)
            (Perm.filter_map failure same_jobs),
        omega (arith, a.total (omega (arith, same_number, number)), same_number, number),
        omega (
          arith,
          ap (λ t. t.total_bytes) e,
          in_order-bytes fs_read sha1 order empty_report (omega arith),
          bytes_read-perm fs_read same_jobs,
        ),
      )
