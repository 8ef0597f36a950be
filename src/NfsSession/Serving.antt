-- ===== src/NfsSession/Serving.antt =====
-- The steps of crates/steam-depot-mount/src/nfs_session.rs that leave its server task as it is.
use steam_depot_vfs.Prelude.{
  ℕ, zero, suc, ◌+◌, ◌≡◌, refl, ◌∙◌, Bool, true, false, List, [], ◌∷◌, ◌++◌, Option, some, none,
  leb, ◌==◌, nat_eq, ◌⊎◌, inl, inr, Bool-cases,
}
use steam_depot_vfs.Depot.{Text}
use steam_depot_vfs.Outcome.{ok, err, panicked}
use steam_depot_vfs.NfsSession.{System, Output, is_mounted, look_up, resolved, in_table}
use steam_depot_vfs.NfsSession.Mounting.{
  umount, force, Event, ran, aborted, serving, Host, Try, run_privileged, and_then, mounted_at,
  with_kernel, unless_late, settle_round, settle, force_if, umount_result, umount_settle_timeout,
  force_unmount_if_mounted, make_dir, prepare_mountpoint,
}

abbrev pub after_event : Event → Bool → Bool
after_event (ran program args) b = b
after_event (serving port) b = true
after_event aborted b = false

-- Whether the server task runs after these events, if it does not before.
abbrev pub running_from : Bool → List Event → Bool
running_from b [] = b
running_from b (e ∷ es) = running_from (after_event e b) es

abbrev pub is_running : List Event → Bool
is_running es = running_from false es

pub running_from-snoc :
    (b : Bool) (es : List Event) (e : Event)
    → running_from b (es ++ e ∷ []) ≡ after_event e (running_from b es)
running_from-snoc b [] e = refl
running_from-snoc b (x ∷ es) e = running_from-snoc (after_event x b) es e

module _ {K : Type 0} (sys : System K) where
  -- Nothing panics, and the server runs as before.
  abbrev pub Keeps : {A : Type 0} → Bool → Try sys A → Type 0
  Keeps b none = Unit
  Keeps b (some (ok a, h)) = is_running h.log ≡ b
  Keeps b (some (err e, h)) = is_running h.log ≡ b
  Keeps b (some (panicked, h)) = ⊥

  Keeps-and_then :
      {A B : Type 0} (b : Bool) (t : Try sys A) (f : A → Host K → Try sys B)
      → Keeps b t
      → ((a : A) (h : Host K) → is_running h.log ≡ b → Keeps b (f a h))
      → Keeps b (and_then sys t f)
  Keeps-and_then b none f k g = tt
  Keeps-and_then b (some (ok a, h)) f k g = g a h k
  Keeps-and_then b (some (err e, h)) f k g = k
  Keeps-and_then b (some (panicked, h)) f k g = elim k [ ]

  Keeps-looked_up :
      (b : Bool) (h : Host K) (r : Option Text × K)
      → is_running h.log ≡ b
      → Keeps b (some (with_kernel sys h (look_up sys r)))
  Keeps-looked_up b h (none, k) e = e
  Keeps-looked_up b h (some wanted, k) e = in_the_table (sys.read_mounts k).0
    where
      in_the_table :
          (x : ℕ ⊎ Text)
          → Keeps b (some (in_table sys wanted x, record h { kernel = (sys.read_mounts k).1 }))
      in_the_table (inl c) = e
      in_the_table (inr table) = e

  Keeps-mounted_at :
      (b : Bool) (path : Text) (h : Host K) → is_running h.log ≡ b → Keeps b (mounted_at sys path h)
  Keeps-mounted_at b path h e =
      unfold is_mounted in Keeps-looked_up b h (resolved sys path h.kernel) e

  Keeps-round :
      (b there : Bool) (deadline : ℕ) (h : Host K) (again : Host K → Try sys (Unit {0}))
      → is_running h.log ≡ b
      → ((k : K) → Keeps b (again (record h { kernel = k })))
      → Keeps b (settle_round sys there deadline h again)
  Keeps-round b false deadline h again e g = e
  Keeps-round b true deadline h again e g = elim (Bool-cases (leb deadline (sys.now h.kernel).0)) [
    | inl late ↦ rw (late, unless_late) e
    | inr early ↦ rw (early, unless_late) (g (sys.sleep 50 (sys.now h.kernel).1))
  ]

  Keeps-settle_step :
      (b : Bool) (fuel deadline : ℕ) (path : Text) (h : Host K)
      → is_running h.log ≡ b
      → ((h1 : Host K) → is_running h1.log ≡ b → Keeps b (settle sys fuel deadline path h1))
      → Keeps b (settle sys (suc fuel) deadline path h)
  Keeps-settle_step b fuel deadline path h e g =
      unfold settle in
      Keeps-and_then b (mounted_at sys path h) _ (Keeps-mounted_at b path h e) λ there h1 e1.
        Keeps-round b there deadline h1 (λ h2. settle sys fuel deadline path h2) e1
          (λ k. g (record h1 { kernel = k }) e1)

  Keeps-settle :
      (b : Bool) (fuel deadline : ℕ) (path : Text) (h : Host K)
      → is_running h.log ≡ b
      → Keeps b (settle sys fuel deadline path h)
  Keeps-settle b zero deadline path h e = unfold settle in tt
  Keeps-settle b (suc fuel) deadline path h e =
      Keeps-settle_step b fuel deadline path h e (λ h1 e1. Keeps-settle b fuel deadline path h1 e1)

  pub ran_more :
      (b : Bool) (program : Text) (args : List Text) (h : Host K)
      → is_running h.log ≡ b
      → is_running (run_privileged sys program args h).1.log ≡ b
  ran_more b program args h e = running_from-snoc false h.log _ ∙ e

  Keeps-umount :
      (b : Bool) (r : ℕ ⊎ Output) (h : Host K)
      → is_running h.log ≡ b
      → Keeps b (some (umount_result sys r, h))
  Keeps-umount b (inl c) h e = e
  Keeps-umount b (inr out) h e = elim (Bool-cases (out.status == 0)) [
    | inl good ↦ rw (good, umount_result) e
    | inr bad ↦ rw (bad, umount_result) e
  ]

  Keeps-force_if :
      (b : Bool) (fuel : ℕ) (path : Text) (there : Bool) (h : Host K)
      → is_running h.log ≡ b
      → Keeps b (force_if sys fuel path there h)
  Keeps-force_if b fuel path false h e = e
  Keeps-force_if b fuel path true h e =
      let (r, h1) = run_privileged sys umount (force ∷ path ∷ []) h in
      Keeps-and_then b (some (umount_result sys r, h1)) _
        (Keeps-umount b r h1 (ran_more b umount (force ∷ path ∷ []) h e))
        λ _ h2 e2.
          Keeps-settle b fuel ((sys.now h2.kernel).0 + umount_settle_timeout) path
            (record h2 { kernel = (sys.now h2.kernel).1 }) e2

  pub Keeps-force :
      (b : Bool) (fuel : ℕ) (path : Text) (h : Host K)
      → is_running h.log ≡ b
      → Keeps b (force_unmount_if_mounted sys fuel path h)
  Keeps-force b fuel path h e =
      unfold force_unmount_if_mounted in
      Keeps-and_then b (mounted_at sys path h) _ (Keeps-mounted_at b path h e)
        (λ there h1 e1. Keeps-force_if b fuel path there h1 e1)

  Keeps-made :
      (b : Bool) (r : Option ℕ) (k : K) (h : Host K)
      → is_running h.log ≡ b
      → Keeps b (make_dir sys (r, k) h)
  Keeps-made b none k h e = e
  Keeps-made b (some c) k h e = e

  pub Keeps-prepare :
      (b : Bool) (fuel : ℕ) (path : Text) (h : Host K)
      → is_running h.log ≡ b
      → Keeps b (prepare_mountpoint sys fuel path h)
  Keeps-prepare b fuel path h e =
      unfold prepare_mountpoint in
      Keeps-and_then b (force_unmount_if_mounted sys fuel path h) _ (Keeps-force b fuel path h e)
        λ _ h1 e1. let (r, k) = sys.create_dir_all path h1.kernel in Keeps-made b r k h1 e1
