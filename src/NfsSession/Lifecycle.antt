-- ===== src/NfsSession/Lifecycle.antt =====
-- When the server of an `NfsMount` of crates/steam-depot-mount/src/nfs_session.rs runs.
use steam_depot_vfs.Prelude.{
  ℕ, ◌≡◌, refl, ap, true, false, List, [], ◌∷◌, ◌++◌, append_assoc, some, none, ◌==◌, nat_eq, ◌⊎◌,
  inl, inr, Bool-cases,
}
use steam_depot_vfs.Depot.{Text}
use steam_depot_vfs.Outcome.{Outcome, ok, err, panicked}
use steam_depot_vfs.NfsSession.{
  System, Output, NfsMountError, check_mount_output, unless_complaint, join_complaints, trim,
}
use steam_depot_vfs.NfsSession.Mounting.{
  umount, force, mount_nfs, option_flag, export, mount_options, Event, ran, aborted, serving, Host,
  NfsMount, Try, happens, privileged, run_privileged, force_unmount_if_mounted, prepare_mountpoint,
  mount_result, run_mount, give_up, after_mount, after_prepare, after_bind, start, drop,
  after_umount, unmount,
}
use steam_depot_vfs.NfsSession.Serving.{
  is_running, running_from-snoc, Keeps, Keeps-force, Keeps-prepare, ran_more,
}

snoc_three :
    (l : List Event) (a b c : Event) → ((l ++ a ∷ []) ++ b ∷ []) ++ c ∷ [] ≡ l ++ (a ∷ b ∷ c ∷ [])
snoc_three [] a b c = refl
snoc_three (x ∷ l) a b c = ap (λ y. x ∷ y) (snoc_three l a b c)

snoc_four :
    (l : List Event) (a b c d : Event)
    → (((l ++ a ∷ []) ++ b ∷ []) ++ c ∷ []) ++ d ∷ [] ≡ l ++ (a ∷ b ∷ c ∷ d ∷ [])
snoc_four [] a b c d = refl
snoc_four (x ∷ l) a b c d = ap (λ y. x ∷ y) (snoc_four l a b c d)

module _ {K : Type 0} (sys : System K) where
  -- What a start gives: a mount at the path, with its server running, or an error, with no server.
  abbrev pub Started : Text → Try sys NfsMount → Type 0
  Started path none = Unit
  Started path (some (ok m, h)) =
      (m ≡ record { mountpoint = path; mounted = true }) × (is_running h.log ≡ true)
  Started path (some (err e, h)) = is_running h.log ≡ false
  Started path (some (panicked, h)) = ⊥

  Started-give_up :
      (path : Text) (e : NfsMountError) (t : Try sys (Unit {0}))
      → Keeps sys false t
      → Started path (give_up sys e t)
  Started-give_up path e none k = tt
  Started-give_up path e (some (ok _, h)) k = k
  Started-give_up path e (some (err _, h)) k = k
  Started-give_up path e (some (panicked, h)) k = elim k [ ]

  abbrev NoPanic : Outcome NfsMountError (Unit {0}) → Type 0
  NoPanic panicked = ⊥
  NoPanic _ = Unit

  unless_complaint-NoPanic : (complaint : Text) → NoPanic (unless_complaint complaint)
  unless_complaint-NoPanic [] = tt
  unless_complaint-NoPanic (c ∷ cs) = tt

  mount_result-NoPanic : (r : ℕ ⊎ Output) → NoPanic (mount_result sys r)
  mount_result-NoPanic (inl e) = tt
  mount_result-NoPanic (inr out) =
      let complaint = join_complaints (trim out.stdout) (trim out.stderr) in
      elim (Bool-cases (out.status == 0)) [
        | inl good ↦
            unfold check_mount_output in
            rw (good, check_mount_output) (unless_complaint-NoPanic complaint)
        | inr bad ↦ unfold check_mount_output in rw (bad, check_mount_output) tt
      ]

  Started-after_mount :
      (fuel : ℕ) (path : Text) (r : Outcome NfsMountError (Unit {0})) (h : Host K)
      → NoPanic r
      → is_running h.log ≡ true
      → Started path (after_mount sys fuel path (r, h))
  Started-after_mount fuel path (ok _) h n e = (refl, e)
  Started-after_mount fuel path (err x) h n e =
      Started-give_up path x (force_unmount_if_mounted sys fuel path (happens sys aborted h)) (
        Keeps-force sys false fuel path (happens sys aborted h)
          (running_from-snoc false h.log aborted))
  Started-after_mount fuel path panicked h n e = elim n [ ]

  Started-run_mount :
      (fuel : ℕ) (path : Text) (port : ℕ) (h : Host K)
      → is_running h.log ≡ true
      → Started path (after_mount sys fuel path (run_mount sys path port h))
  Started-run_mount fuel path port h e =
      let args = option_flag ∷ mount_options port ∷ export ∷ path ∷ [] in
      let (r, h1) = run_privileged sys mount_nfs args h in
      unfold run_mount in
      Started-after_mount fuel path (mount_result sys r) h1 (mount_result-NoPanic r)
        (ran_more sys true mount_nfs args h e)

  Started-after_prepare :
      (fuel : ℕ) (path : Text) (port : ℕ) (t : Try sys (Unit {0}))
      → Keeps sys true t
      → Started path (after_prepare sys fuel path port t)
  Started-after_prepare fuel path port none k = tt
  Started-after_prepare fuel path port (some (ok _, h)) k = Started-run_mount fuel path port h k
  Started-after_prepare fuel path port (some (err e, h)) k = running_from-snoc false h.log aborted
  Started-after_prepare fuel path port (some (panicked, h)) k = elim k [ ]

  Started-after_bind :
      (fuel : ℕ) (path : Text) (r : ℕ ⊎ ℕ) (h : Host K)
      → is_running h.log ≡ false
      → Started path (after_bind sys fuel path (r, h))
  Started-after_bind fuel path (inl e) h off = off
  Started-after_bind fuel path (inr port) h off =
      Started-after_prepare fuel path port
        (prepare_mountpoint sys fuel path (happens sys (serving port) h))
        (Keeps-prepare sys true fuel path (happens sys (serving port) h)
          (running_from-snoc false h.log (serving port)))

  -- A start, whatever the system does, either gives a mount at the mountpoint, with the server task
  -- running, or an error, with no server task left; it never panics.
  pub start_lem :
      (fuel : ℕ) (path : Text) (h : Host K)
      → is_running h.log ≡ false
      → Started path (start sys fuel path h)
  start_lem fuel path h off =
      unfold start in
      Started-after_bind fuel path (sys.bind h.kernel).0
        (record h { kernel = (sys.bind h.kernel).1 }) off

  -- What happens when a live mount is unmounted.
  abbrev ran_umount : Text → Event
  ran_umount path = let (program, args) = privileged sys umount (path ∷ []) in ran program args

  abbrev ran_force : Text → Event
  ran_force path =
      let (program, args) = privileged sys umount (force ∷ path ∷ []) in ran program args

  -- After the polite `umount` the server is stopped, and, unless that worked, the mount is forced out.
  abbrev pub Unmounted : Text → Host K → Outcome NfsMountError (Unit {0}) × Host K → Type 0
  Unmounted path h (ok _, h1) = h1.log ≡ h.log ++ (ran_umount path ∷ aborted ∷ [])
  Unmounted path h (err e, h1) =
      (stops : List Event) × (is_running stops ≡ false)
      × (h1.log ≡ h.log ++ (ran_umount path ∷ (stops ++ ran_force path ∷ [])))
  Unmounted path h (panicked, h1) = ⊥

  after_umount-Unmounted :
      (path : Text) (h : Host K) (r : ℕ ⊎ Output) (k : K)
      → Unmounted path h (
          after_umount sys
            (record { mountpoint = path; mounted = true })
            (r, record { kernel = k; log = h.log ++ ran_umount path ∷ [] }))
  after_umount-Unmounted path h (inl e) k = (
    aborted ∷ [],
    refl,
    unfold drop in snoc_three h.log (ran_umount path) aborted (ran_force path),
  )
  after_umount-Unmounted path h (inr out) k = elim (Bool-cases (out.status == 0)) [
    | inl good ↦
        rw (good, after_umount)
          (unfold drop in append_assoc h.log (ran_umount path ∷ []) (aborted ∷ []))
    | inr bad ↦
        rw (bad, after_umount)
          (
            aborted ∷ aborted ∷ [],
            refl,
            unfold drop in snoc_four h.log (ran_umount path) aborted aborted (ran_force path),
          )
  ]

  -- Unmounting a live mount runs `umount` first, while the server still answers, and stops the server
  -- then. If `umount` could not be run or failed, it returns an error, and the last thing that was done is
  -- to force the mount out.
  pub unmount_lem :
      (path : Text) (h : Host K)
      → Unmounted path h (unmount sys (record { mountpoint = path; mounted = true }) h)
  unmount_lem path h =
      let (program, args) = privileged sys umount (path ∷ []) in
      let (r, k) = sys.run program args h.kernel in
      unfold unmount in after_umount-Unmounted path h r k
