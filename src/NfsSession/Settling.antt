-- ===== src/NfsSession/Settling.antt =====
-- The wait for a forced unmount in crates/steam-depot-mount/src/nfs_session.rs ends.
use steam_depot_vfs.Prelude.{
  ℕ, zero, suc, ◌+◌, ◌*◌, ◌≤◌, ◌≡◌, refl, ap, arith, Bool, true, false, List, [], ◌∷◌, Option, some,
  none, leb, ◌⊎◌, inl, inr, Bool-cases,
}
use steam_depot_vfs.Depot.{Text}
use steam_depot_vfs.Outcome.{Outcome, ok, err, panicked}
use steam_depot_vfs.NfsSession.{
  System, Output, NfsMountError, is_mounted, resolved, resolve_parent, parent_and_name, look_up,
}
use steam_depot_vfs.NfsSession.Mounting.{
  umount, force, Event, happens, aborted, serving, Host, Try, and_then, mounted_at, with_kernel,
  unless_late, settle_round, settle, settled, after_force, force_if, umount_settle_timeout,
  force_unmount_if_mounted, umount_result, run_privileged, prepare_mountpoint, run_mount, give_up,
  after_mount, after_prepare, after_bind, NfsMount, start,
}

-- `Instant` does not go back, and a sleep takes its time.
pub record ClockLaws {K : Type 0} (sys : System K) : Type 0 where
  pub clock : K → ℕ
  pub read_forward : (k : K) → clock k ≤ clock (sys.read_mounts k).1
  pub canonicalize_forward : (path : Text) (k : K) → clock k ≤ clock (sys.canonicalize path k).1
  pub now_after : (k : K) → clock k ≤ (sys.now k).0
  pub now_before : (k : K) → (sys.now k).0 ≤ clock (sys.now k).1
  pub sleep_forward : (millis : ℕ) (k : K) → clock k + millis ≤ clock (sys.sleep millis k)

module _ {K : Type 0} (sys : System K) (laws : ClockLaws sys) where
  parent_forward :
      (path : Text) (o : Option (Text × Text)) (k : K)
      → laws.clock k ≤ laws.clock (resolve_parent sys path o k).1
  parent_forward path none k = laws.canonicalize_forward path k
  parent_forward path (some (parent, name)) k = laws.canonicalize_forward parent k

  look_up_forward : (r : Option Text × K) → laws.clock r.1 ≤ laws.clock (look_up sys r).1
  look_up_forward (none, k) = omega arith
  look_up_forward (some wanted, k) = laws.read_forward k

  is_mounted_forward : (path : Text) (k : K) → laws.clock k ≤ laws.clock (is_mounted sys path k).1
  is_mounted_forward path k =
      unfold is_mounted resolved in
      omega (
        arith,
        parent_forward path (parent_and_name path) k,
        look_up_forward (resolve_parent sys path (parent_and_name path) k),
      )

  abbrev Ends : {A : Type 0} → Try sys A → Type 0
  Ends {A} t = (r : Outcome NfsMountError A × Host K) × (t ≡ some r)

  Ends-and_then :
      {A B : Type 0} (t : Try sys A) (f : A → Host K → Try sys B)
      → Ends t
      → ((a : A) (h : Host K) → t ≡ some (ok a, h) → Ends (f a h))
      → Ends (and_then sys t f)
  Ends-and_then none f e g = absurd (let q = e.1 in cc)
  Ends-and_then (some (ok a, h)) f e g = g a h refl
  Ends-and_then (some (err x, h)) f e g = (_, refl)
  Ends-and_then (some (panicked, h)) f e g = (_, refl)

  Ends-unless_late :
      (deadline : ℕ) (h : Host K) (again : Host K → Try sys (Unit {0}))
      → (leb deadline (sys.now h.kernel).0 ≡ false
          → Ends (again (record h { kernel = sys.sleep 50 (sys.now h.kernel).1 })))
      → Ends (unless_late sys deadline (sys.now h.kernel) h again)
  Ends-unless_late deadline h again g = elim (Bool-cases (leb deadline (sys.now h.kernel).0)) [
    | inl late ↦ rw (late, unless_late) (_, refl)
    | inr early ↦ rw (early, unless_late) (g early)
  ]

  kernel_of : Try sys Bool → K → K
  kernel_of none k = k
  kernel_of (some (r, h)) k = h.kernel

  same_kernel :
      (path : Text) (h h1 : Host K) (there : Bool)
      → mounted_at sys path h ≡ some (ok there, h1)
      → laws.clock h.kernel ≤ laws.clock h1.kernel
  same_kernel path h h1 there q =
      let e : (is_mounted sys path h.kernel).1 ≡ h1.kernel =
        unfold kernel_of in ap (λ (t : Try sys Bool). kernel_of t h.kernel) q in
      omega (arith, is_mounted_forward path h.kernel, ap laws.clock e)

  Ends-round :
      (there : Bool) (deadline : ℕ) (h : Host K) (again : Host K → Try sys (Unit {0}))
      → (leb deadline (sys.now h.kernel).0 ≡ false
          → Ends (again (record h { kernel = sys.sleep 50 (sys.now h.kernel).1 })))
      → Ends (settle_round sys there deadline h again)
  Ends-round false deadline h again g = (_, refl)
  Ends-round true deadline h again g = Ends-unless_late deadline h again g

  -- Each round takes 50 milliseconds.
  Ends-settle_step :
      (n deadline : ℕ) (path : Text) (h : Host K)
      → ((k : K)
          → laws.clock h.kernel ≤ laws.clock k
          → leb deadline (sys.now k).0 ≡ false
          → (log : List Event)
          → Ends (
              settle sys n deadline path
                (record { kernel = sys.sleep 50 (sys.now k).1; log = log })))
      → Ends (settle sys (suc n) deadline path h)
  Ends-settle_step n deadline path h g =
      unfold settle in
      Ends-and_then (mounted_at sys path h) _ (_, refl)
        λ there h1 q.
          Ends-round there deadline h1 (λ h2. settle sys n deadline path h2)
            (λ early. g h1.kernel (same_kernel path h h1 there q) early h1.log)

  Ends-settle :
      (n deadline : ℕ) (path : Text) (h : Host K)
      → deadline ≤ laws.clock h.kernel + 50 * n
      → Ends (settle sys (suc n) deadline path h)
  Ends-settle zero deadline path h e =
      Ends-settle_step zero deadline path h
        (λ k later early log. absurd (ground (arith, laws.now_after k)))
  Ends-settle (suc n) deadline path h e =
      Ends-settle_step (suc n) deadline path h λ k later early log.
        Ends-settle n deadline path (record { kernel = sys.sleep 50 (sys.now k).1; log = log })
          (omega (arith, laws.now_after k, laws.now_before k, laws.sleep_forward 50 (sys.now k).1))

  Ends-settled : (path : Text) (h : Host K) → Ends (settled sys 201 path (sys.now h.kernel) h)
  Ends-settled path h =
      Ends-settle 200 ((sys.now h.kernel).0 + umount_settle_timeout) path
        (record h { kernel = (sys.now h.kernel).1 }) (omega (arith, laws.now_before h.kernel))

  Ends-after_force : (path : Text) (p : (ℕ ⊎ Output) × Host K) → Ends (after_force sys 201 path p)
  Ends-after_force path (r, h) =
      Ends-and_then (some (umount_result sys r, h)) _ (_, refl) (λ _ h1 q. Ends-settled path h1)

  Ends-force_if : (path : Text) (there : Bool) (h : Host K) → Ends (force_if sys 201 path there h)
  Ends-force_if path false h = (_, refl)
  Ends-force_if path true h =
      Ends-after_force path (run_privileged sys umount (force ∷ path ∷ []) h)

  Ends-force : (path : Text) (h : Host K) → Ends (force_unmount_if_mounted sys 201 path h)
  Ends-force path h =
      unfold force_unmount_if_mounted in
      Ends-and_then (mounted_at sys path h) _ (_, refl) (λ there h1 q. Ends-force_if path there h1)

  Ends-prepare : (path : Text) (h : Host K) → Ends (prepare_mountpoint sys 201 path h)
  Ends-prepare path h =
      unfold prepare_mountpoint in
      Ends-and_then (force_unmount_if_mounted sys 201 path h) _ (Ends-force path h)
        (λ _ h1 q. (_, refl))

  Ends-give_up : (e : NfsMountError) (t : Try sys (Unit {0})) → Ends t → Ends (give_up sys e t)
  Ends-give_up e none g = absurd (let q = g.1 in cc)
  Ends-give_up e (some (r, h)) g = (_, refl)

  Ends-after_mount :
      (path : Text) (p : Outcome NfsMountError (Unit {0}) × Host K)
      → Ends (after_mount sys 201 path p)
  Ends-after_mount path (ok _, h) = (_, refl)
  Ends-after_mount path (err e, h) =
      Ends-give_up e (force_unmount_if_mounted sys 201 path (happens sys aborted h))
        (Ends-force path (happens sys aborted h))
  Ends-after_mount path (panicked, h) = (_, refl)

  Ends-after_prepare :
      (path : Text) (port : ℕ) (t : Try sys (Unit {0}))
      → Ends t
      → Ends (after_prepare sys 201 path port t)
  Ends-after_prepare path port none g = absurd (let q = g.1 in cc)
  Ends-after_prepare path port (some (ok _, h)) g =
      Ends-after_mount path (run_mount sys path port h)
  Ends-after_prepare path port (some (err e, h)) g = (_, refl)
  Ends-after_prepare path port (some (panicked, h)) g = (_, refl)

  Ends-after_bind : (path : Text) (p : (ℕ ⊎ ℕ) × Host K) → Ends (after_bind sys 201 path p)
  Ends-after_bind path (inl e, h) = (_, refl)
  Ends-after_bind path (inr port, h) =
      Ends-after_prepare path port (prepare_mountpoint sys 201 path (happens sys (serving port) h))
        (Ends-prepare path (happens sys (serving port) h))

  -- `start` returns, whatever the system does: with a clock that does not go back and sleeps that take
  -- their time, each wait for a forced unmount is over after at most 201 looks at the mount table.
  pub start_ends :
      (path : Text) (h : Host K)
      → (r : Outcome NfsMountError NfsMount × Host K) × (start sys 201 path h ≡ some r)
  start_ends path h = unfold start in Ends-after_bind path (with_kernel sys h (sys.bind h.kernel))
