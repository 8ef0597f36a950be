-- ===== src/NfsSession/Mounting.antt =====
-- The life of an `NfsMount` of crates/steam-depot-mount/src/nfs_session.rs: `start`, `unmount` and `drop`. A
-- loop that runs out of fuel gives `none`.
use steam_depot_vfs.Prelude.{
  ℕ, zero, suc, ◌+◌, ◌*◌, Bool, true, false, List, [], ◌∷◌, ◌++◌, Option, some, none, if◌then◌else◌,
  leb, ◌==◌, nat_eq, ◌⊎◌, inl, inr,
}
use steam_depot_vfs.Prelude.Decimal.{to_string}
use steam_depot_vfs.Depot.{Text}
use steam_depot_vfs.Outcome.{Outcome, ok, err, panicked}
use steam_depot_vfs.NfsSession.{
  System, Output, NfsMountError, bind_error, mountpoint_error, mount_command, unmount_error,
  unmount_failed, unmount_did_not_settle, is_mounted, check_mount_output,
}

abbrev pub umount_settle_timeout : ℕ
umount_settle_timeout = 10_000

abbrev pub attr_cache_secs : ℕ
attr_cache_secs = 60 * 60

abbrev pub umount : Text
umount = b'u' ∷ b'm' ∷ b'o' ∷ b'u' ∷ b'n' ∷ b't' ∷ []

abbrev pub force : Text
force = b'-' ∷ b'f' ∷ []

abbrev sudo : Text
sudo = b's' ∷ b'u' ∷ b'd' ∷ b'o' ∷ []

abbrev no_prompt : Text
no_prompt = b'-' ∷ b'n' ∷ []

abbrev pub mount_nfs : Text
mount_nfs = b'm' ∷ b'o' ∷ b'u' ∷ b'n' ∷ b't' ∷ b'.' ∷ b'n' ∷ b'f' ∷ b's' ∷ []

abbrev pub option_flag : Text
option_flag = b'-' ∷ b'o' ∷ []

abbrev pub export : Text
export = b'1' ∷ b'2' ∷ b'7' ∷ b'.' ∷ b'0' ∷ b'.' ∷ b'0' ∷ b'.' ∷ b'1' ∷ b':' ∷ b'/' ∷ []

-- "ro,nolock,vers=3,tcp,rsize=1048576,actimeo=<secs>,port=<port>,mountport=<port>"
abbrev pub mount_options : ℕ → Text
mount_options port =
    b'r'
      ∷ b'o'
      ∷ b','
      ∷ b'n'
      ∷ b'o'
      ∷ b'l'
      ∷ b'o'
      ∷ b'c'
      ∷ b'k'
      ∷ b','
      ∷ b'v'
      ∷ b'e'
      ∷ b'r'
      ∷ b's'
      ∷ b'='
      ∷ b'3'
      ∷ b','
      ∷ b't'
      ∷ b'c'
      ∷ b'p'
      ∷ b','
      ∷ b'r'
      ∷ b's'
      ∷ b'i'
      ∷ b'z'
      ∷ b'e'
      ∷ b'='
      ∷ b'1'
      ∷ b'0'
      ∷ b'4'
      ∷ b'8'
      ∷ b'5'
      ∷ b'7'
      ∷ b'6'
      ∷ b','
      ∷ b'a'
      ∷ b'c'
      ∷ b't'
      ∷ b'i'
      ∷ b'm'
      ∷ b'e'
      ∷ b'o'
      ∷ b'='
      ∷ to_string attr_cache_secs
    ++ b',' ∷ b'p' ∷ b'o' ∷ b'r' ∷ b't' ∷ b'=' ∷ to_string port
    ++ b',' ∷ b'm' ∷ b'o' ∷ b'u' ∷ b'n' ∷ b't' ∷ b'p' ∷ b'o' ∷ b'r' ∷ b't' ∷ b'=' ∷ to_string port

-- What happens on the host, in order: a command that was run, the start and the end of the server task.
pub data Event : Type 0 where
  ran : (program : Text) (args : List Text) → Event
  serving : (port : ℕ) → Event
  aborted : Event

pub record Host (K : Type 0) : Type 0 where
  pub kernel : K
  pub log : List Event

pub record NfsMount : Type 0 where
  pub mountpoint : Text
  pub mounted : Bool

module _ {K : Type 0} (sys : System K) where
  abbrev pub happens : Event → Host K → Host K
  happens e h = record h { log = h.log ++ e ∷ [] }

  -- The program and its arguments, by way of `sudo` unless the process is root's.
  abbrev pub privileged : Text → List Text → Text × List Text
  privileged program args =
      if sys.geteuid == 0 then (program, args) else (sudo, no_prompt ∷ program ∷ args)

  abbrev pub with_kernel : {A : Type 0} → Host K → A × K → A × Host K
  with_kernel h (a, k) = (a, record h { kernel = k })

  abbrev pub run_privileged : Text → List Text → Host K → (ℕ ⊎ Output) × Host K
  run_privileged program args h =
      let (program', args') = privileged program args in
      with_kernel (happens (ran program' args') h) (sys.run program' args' h.kernel)

  abbrev pub Try : Type 0 → Type 0
  Try A = Option (Outcome NfsMountError A × Host K)

  -- `m?`, then the rest.
  abbrev pub and_then : {A B : Type 0} → Try A → (A → Host K → Try B) → Try B
  and_then none f = none
  and_then (some (ok a, h)) f = f a h
  and_then (some (err e, h)) f = some (err e, h)
  and_then (some (panicked, h)) f = some (panicked, h)

  abbrev pub mounted_at : Text → Host K → Try Bool
  mounted_at path h = some (with_kernel h (is_mounted sys path h.kernel))

  -- The deadline is looked at only while the mount is still there.
  abbrev pub unless_late : ℕ → ℕ × K → Host K → (Host K → Try (Unit {0})) → Try (Unit {0})
  unless_late deadline (now, k) h again =
      if leb deadline now
      then some (err unmount_did_not_settle, record h { kernel = k })
      else again (record h { kernel = sys.sleep 50 k })

  -- A round of the wait, by whether the mount is there.
  abbrev pub settle_round : Bool → ℕ → Host K → (Host K → Try (Unit {0})) → Try (Unit {0})
  settle_round false deadline h again = some (ok tt, h)
  settle_round true deadline h again = unless_late deadline (sys.now h.kernel) h again

  unfoldable pub settle : ℕ → ℕ → Text → Host K → Try (Unit {0})
  settle zero deadline path h = none
  settle (suc fuel) deadline path h =
      and_then (mounted_at path h)
        λ there h1. settle_round there deadline h1 (λ h2. settle fuel deadline path h2)

  -- How a `umount` ended.
  abbrev pub umount_result : ℕ ⊎ Output → Outcome NfsMountError (Unit {0})
  umount_result (inl e) = err (unmount_error e)
  umount_result (inr out) = if out.status == 0 then ok tt else err (unmount_failed out.status)

  abbrev pub settled : ℕ → Text → ℕ × K → Host K → Try (Unit {0})
  settled fuel path (now, k) h =
      settle fuel (now + umount_settle_timeout) path (record h { kernel = k })

  abbrev pub after_force : ℕ → Text → (ℕ ⊎ Output) × Host K → Try (Unit {0})
  after_force fuel path (r, h) =
      and_then (some (umount_result r, h)) λ _ h1. settled fuel path (sys.now h1.kernel) h1

  abbrev pub force_if : ℕ → Text → Bool → Host K → Try (Unit {0})
  force_if fuel path false h = some (ok tt, h)
  force_if fuel path true h = after_force fuel path (run_privileged umount (force ∷ path ∷ []) h)

  unfoldable pub force_unmount_if_mounted : ℕ → Text → Host K → Try (Unit {0})
  unfolding settle
  force_unmount_if_mounted fuel path h =
      and_then (mounted_at path h) λ there h1. force_if fuel path there h1

  abbrev pub created : Option ℕ → Outcome NfsMountError (Unit {0})
  created none = ok tt
  created (some e) = err (mountpoint_error e)

  abbrev pub make_dir : Option ℕ × K → Host K → Try (Unit {0})
  make_dir (r, k) h = some (created r, record h { kernel = k })

  unfoldable pub prepare_mountpoint : ℕ → Text → Host K → Try (Unit {0})
  unfolding force_unmount_if_mounted
  prepare_mountpoint fuel path h =
      and_then (force_unmount_if_mounted fuel path h)
        λ _ h1. make_dir (sys.create_dir_all path h1.kernel) h1

  abbrev pub mount_result : ℕ ⊎ Output → Outcome NfsMountError (Unit {0})
  mount_result (inl e) = err (mount_command e)
  mount_result (inr out) = check_mount_output out

  abbrev pub mounted_by : (ℕ ⊎ Output) × Host K → Outcome NfsMountError (Unit {0}) × Host K
  mounted_by (r, h) = (mount_result r, h)

  unfoldable pub run_mount : Text → ℕ → Host K → Outcome NfsMountError (Unit {0}) × Host K
  unfolding check_mount_output to_string
  run_mount path port h =
      mounted_by
        (run_privileged mount_nfs (option_flag ∷ mount_options port ∷ export ∷ path ∷ []) h)

  -- A failure to clean up is only logged.
  abbrev pub give_up : NfsMountError → Try (Unit {0}) → Try NfsMount
  give_up e none = none
  give_up e (some (r, h)) = some (err e, h)

  abbrev pub after_mount : ℕ → Text → Outcome NfsMountError (Unit {0}) × Host K → Try NfsMount
  after_mount fuel path (ok _, h) = some (ok (record { mountpoint = path; mounted = true }), h)
  after_mount fuel path (err e, h) =
      give_up e (force_unmount_if_mounted fuel path (happens aborted h))
  after_mount fuel path (panicked, h) = some (panicked, h)

  abbrev pub after_prepare : ℕ → Text → ℕ → Try (Unit {0}) → Try NfsMount
  after_prepare fuel path port none = none
  after_prepare fuel path port (some (ok _, h)) = after_mount fuel path (run_mount path port h)
  after_prepare fuel path port (some (err e, h)) = some (err e, happens aborted h)
  after_prepare fuel path port (some (panicked, h)) = some (panicked, h)

  abbrev pub after_bind : ℕ → Text → (ℕ ⊎ ℕ) × Host K → Try NfsMount
  after_bind fuel path (inl e, h) = some (err (bind_error e), h)
  after_bind fuel path (inr port, h) =
      after_prepare fuel path port (prepare_mountpoint fuel path (happens (serving port) h))

  -- `NfsMount::start`
  unfoldable pub start : ℕ → Text → Host K → Try NfsMount
  unfolding prepare_mountpoint run_mount
  start fuel path h = after_bind fuel path (with_kernel h (sys.bind h.kernel))

  -- `drop`: how the forced unmount ends is only logged.
  unfoldable pub drop : NfsMount → Host K → Host K
  drop m h =
      if m.mounted
      then (run_privileged umount (force ∷ m.mountpoint ∷ []) (happens aborted h)).1
      else h

  abbrev pub after_umount :
      NfsMount → (ℕ ⊎ Output) × Host K → Outcome NfsMountError (Unit {0}) × Host K
  after_umount m (inl e, h) = (err (unmount_error e), drop m h)
  after_umount m (inr out, h) =
      if out.status == 0
      then (ok tt, drop (record m { mounted = false }) (happens aborted h))
      else (err (unmount_failed out.status), drop m (happens aborted h))

  -- `NfsMount::unmount`, with the drop that follows, since it takes the mount by value.
  unfoldable pub unmount : NfsMount → Host K → Outcome NfsMountError (Unit {0}) × Host K
  unfolding drop
  unmount m h = after_umount m (run_privileged umount (m.mountpoint ∷ []) h)
