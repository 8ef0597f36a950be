-- ===== src/Prefetch/Outcomes.antt =====
-- How `run` of crates/steam-depot/src/prefetch.rs ends, with the check of crates/steam-depot/src/verify.rs.
use steam_depot_vfs.Prelude.{
  ℕ, zero, suc, ◌≡◌, refl, sym, ap, subst, ◌∙◌, false, List, [], ◌∷◌, Option, nat_eq, list_eq,
}
use steam_depot_vfs.Depot.{Bytes, Text, ChunkHash, DepotApi}
use steam_depot_vfs.Outcome.{Outcome, ok, err, panicked, ok-injective}
use steam_depot_vfs.Frame.{Codec}
use steam_depot_vfs.Verify.{VerifyReport}
use steam_depot_vfs.Prefetch.Attempts.{
  Calls, PassEnd, time_is_up, verified, PassError, RunError, bad_chunks_left, bad_of, and_then,
  call, from_call, scan, prefetch_all, delete_bad, pass, after_pass, attempts, run, parallelism_of,
}
use steam_depot_vfs.Prefetch.Checks.{Intact, Checked, Checked-Intact, HasFrame, Intact-no_frame}

and_then-ok :
    {W : Type 0} {A B : Type 0} (m : Outcome PassError A × W) (f : A → W → Outcome PassError B × W)
    (b : B) (w' : W)
    → and_then m f ≡ (ok b, w')
    → (a : A) × (w : W) × (m ≡ (ok a, w)) × (f a w ≡ (ok b, w'))
and_then-ok (ok a, w) f b w' h = (a, w, refl, h)
and_then-ok (err x, w) f b w' h = absurd (let p = ap (λ q. q.0) h in cc)
and_then-ok (panicked, w) f b w' h = absurd (let p = ap (λ q. q.0) h in cc)

call-ok :
    {A W : Type 0} (r : Outcome ℕ A × W) (a : A) (w : W)
    → ◌≡◌ {A = Outcome PassError A × W} (from_call r.0, r.1) (ok a, w)
    → r ≡ (ok a, w)
call-ok {A} {W} (ok b, v) a w h =
    let x = ok-injective b a (ap (λ (q : Outcome PassError A × W). q.0) h) in
    let y = ap (λ (q : Outcome PassError A × W). q.1) h in cc
call-ok (err e, v) a w h = absurd (let p = ap (λ q. q.0) h in cc)
call-ok (panicked, v) a w h = absurd (let p = ap (λ q. q.0) h in cc)

module _ {M W : Type 0} (calls : Calls M W) where
  -- The end of a pass that checks: a scan of the directory, and the check of what it found.
  pub record Verified (bad : List ChunkHash) (w' : W) : Type 0 where
    pub post : List ChunkHash
    pub before : W
    pub after : W
    pub report : VerifyReport
    pub scanned : scan calls before ≡ (ok post, after)
    pub checked : calls.verify_cache post after ≡ (ok report, w')
    pub bad_ones : bad_of report ≡ bad

module _ {M W : Type 0} (calls : Calls M W) (api : DepotApi) (parallelism : ℕ) where
  pass-Verified :
      (ms : List M) (w w' : W) (e : PassEnd)
      → pass calls api false parallelism ms w ≡ (ok e, w')
      → (bad : List ChunkHash) × (e ≡ verified bad) × Verified calls bad w'
  unfolding pass
  pass-Verified ms w w' e h =
      let (cached, w1, _, h1) = and_then-ok (scan calls w) _ e w' h in
      let (_, w2, _, h2) =
        and_then-ok (prefetch_all calls api false parallelism ms cached w1) _ e w' h1 in
      let (post, w3, s, h3) = and_then-ok (scan calls w2) _ e w' h2 in
      let (report, w4, c, h4) = and_then-ok (call calls (calls.verify_cache post w3)) _ e w' h3 in
      let same : w4 ≡ w' = ap (λ (q : Outcome PassError PassEnd × W). q.1) h4 in
      let checked = call-ok (calls.verify_cache post w3) report w4 c in
      (
        bad_of report,
        sym (ok-injective _ e (ap (λ (q : Outcome PassError PassEnd × W). q.0) h4)),
        record {
          post = post;
          before = w2;
          after = w3;
          report = report;
          scanned = s;
          checked = checked ∙ ap (λ (x : W). (ok report, x)) same;
          bad_ones = refl;
        },
      )

  -- So many passes that each found bad chunks, and their deletion.
  abbrev pub Dirty : List M → ℕ → W → W → Type 0
  Dirty ms zero w w' = w ≡ w'
  Dirty ms (suc n) w w' =
      (sha : ChunkHash) × (bad : List ChunkHash) × (w1 : W) × (pass calls api false parallelism ms w
        ≡ (ok (verified (sha ∷ bad)), w1))
      × Dirty ms n (delete_bad calls (sha ∷ bad) w1) w'

  abbrev Ends : List M → ℕ → W → Outcome RunError (Unit {0}) × W → Type 0
  Ends ms n w r =
      (r.0 ≡ ok tt → Verified calls [] r.1) × (r.0 ≡ err bad_chunks_left → Dirty ms n w r.1)

  attempts-Ends :
      (ms : List M) (n : ℕ) (w : W) → Ends ms n w (attempts calls api false parallelism ms n w)
  unfolding attempts
  attempts-Ends ms zero w = (λ h. absurd cc, λ h. refl)
  attempts-Ends ms (suc n) w =
      by_pass (pass calls api false parallelism ms w) refl (λ w1. attempts-Ends ms n w1)
    where
      by_pass :
          (q : Outcome PassError PassEnd × W)
          → pass calls api false parallelism ms w ≡ q
          → ((w1 : W) → Ends ms n w1 (attempts calls api false parallelism ms n w1))
          → Ends ms
              (suc n)
              w
              (after_pass calls api false parallelism q (attempts calls api false parallelism ms n))
      by_pass (ok time_is_up, w1) e ih =
          absurd (let (bad, f, _) = pass-Verified ms w w1 time_is_up e in cc)
      by_pass (ok (verified []), w1) e ih = (
        λ h.
            let (bad, f, v) = pass-Verified ms w w1 (verified []) e in
            let g : bad ≡ [] = cc in subst (λ b. Verified calls b w1) g v,
        λ h. absurd cc,
      )
      by_pass (ok (verified (sha ∷ bad)), w1) e ih = (
        (ih (delete_bad calls (sha ∷ bad) w1)).0,
        λ h. (sha, bad, w1, e, (ih (delete_bad calls (sha ∷ bad) w1)).1 h),
      )
      by_pass (err x, w1) e ih = (λ h. absurd cc, λ h. absurd cc)
      by_pass (panicked, w1) e ih = (λ h. absurd cc, λ h. absurd cc)

module _ {M W : Type 0} (calls : Calls M W) (files : W → Text → Option Bytes) (codec : Codec)
    (to_hex : ChunkHash → Text) (root : Text) where
  -- `verify_cache` reports on the files as they are.
  abbrev pub IsCheck : Type 0
  IsCheck =
      (shas : List ChunkHash) (w w' : W) (report : VerifyReport)
      → calls.verify_cache shas w ≡ (ok report, w')
      → Checked (files w') codec.sha1 to_hex root shas report

  -- A run without a time limit, with a check that reports on the files as they are: it returns `Ok`
  -- only if the last pass scanned the chunk directory and each file that it found hashes, as a whole,
  -- to its name, so that none of them is a frame of the chunk cache with another hash than its
  -- content; and it gives up on bad chunks only after three passes, each of which found bad chunks
  -- and asked to delete them.
  pub run_lem :
      (api : DepotApi) (ms : List M) (parallelism : Option ℕ) (w : W)
      → IsCheck
      → let (r, w') = run calls api ms parallelism false w in
        (r ≡ ok tt
          → (v : Verified calls [] w') × Intact (files w') codec.sha1 to_hex root v.post
            × ¬ HasFrame codec (files w') to_hex root v.post)
        × (r ≡ err bad_chunks_left → Dirty calls api (parallelism_of parallelism) ms 3 w w')
  unfolding run
  run_lem api ms parallelism w check =
      let (fine, dirty) = attempts-Ends calls api (parallelism_of parallelism) ms 3 w in
      let end_files = files (attempts calls api false (parallelism_of parallelism) ms 3 w).1 in
      (
        λ h.
            let v = fine h in
            let good =
              Checked-Intact end_files codec.sha1 to_hex root v.post v.report
                (check v.post v.after _ v.report v.checked) v.bad_ones in
            (v, good, Intact-no_frame codec end_files to_hex root v.post good),
        dirty,
      )
