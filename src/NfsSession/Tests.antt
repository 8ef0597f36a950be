-- ===== src/NfsSession/Tests.antt =====
-- Runs of crates/steam-depot-mount/src/nfs_session.rs.
use steam_depot_vfs.Prelude.{
  ℕ, ◌+◌, ◌≡◌, refl, arith, true, [], ◌∷◌, some, none, inr, list_beq, nat_eq, list_eq,
}
use steam_depot_vfs.Depot.{Text}
use steam_depot_vfs.Outcome.{Outcome, ok, err}
use steam_depot_vfs.Fs.Paths.{rfind_slash, join_base}
use steam_depot_vfs.NfsSession.{
  System, NfsMountError, is_mounted, resolved, parent_and_name, check_mount_output,
  mount_option_rejected, split_from, lines_from, any_mounts_on, mounts_on, trim_start, trim_end,
}
use steam_depot_vfs.NfsSession.Mounting.{Host, NfsMount, start}
use steam_depot_vfs.NfsSession.Settling.{ClockLaws, start_ends}
use steam_depot_vfs.NfsSession.Lifecycle.{Started, start_lem}

-- "srv /a nfs\n"
abbrev table : Text
table = b's' ∷ b'r' ∷ b'v' ∷ b' ' ∷ b'/' ∷ b'a' ∷ b' ' ∷ b'n' ∷ b'f' ∷ b's' ∷ 10 ∷ []

-- Every command fails, and the state is the time.
abbrev stuck : System ℕ
stuck = record {
  bind = λ k. (inr 2049, k);
  create_dir_all = λ path k. (none, k);
  read_mounts = λ k. (inr table, k);
  canonicalize = λ path k. (some path, k);
  run = λ program args k. (inr (record { status = 1; stdout = []; stderr = [] }), k + 5);
  now = λ k. (k, k);
  sleep = λ millis k. k + millis;
  geteuid = 0;
}

clock : ClockLaws stuck
clock = record {
  clock = λ k. k;
  read_forward = λ k. omega arith;
  canonicalize_forward = λ path k. omega arith;
  now_after = λ k. omega arith;
  now_before = λ k. omega arith;
  sleep_forward = λ millis k. omega arith;
}

abbrev path_a : Text
path_a = b'/' ∷ b'a' ∷ []

abbrev idle : Host ℕ
idle = record { kernel = 0; log = [] }

a_is_mounted : (is_mounted stuck path_a 0).0 ≡ ok true
unfolding is_mounted resolved parent_and_name rfind_slash join_base lines_from split_from
    any_mounts_on mounts_on list_beq
a_is_mounted = refl

-- A complaint of a command that exits with 0.
complaint_is_rejected :
    check_mount_output (record { status = 0; stdout = []; stderr = b'b' ∷ b'a' ∷ b'd' ∷ 10 ∷ [] })
    ≡ err (mount_option_rejected (b'b' ∷ b'a' ∷ b'd' ∷ []))
unfolding check_mount_output trim_start trim_end
complaint_is_rejected = refl

start_lem_example : Started stuck path_a (start stuck 3 path_a idle)
start_lem_example = start_lem stuck 3 path_a idle refl

start_ends_example :
    (r : Outcome NfsMountError NfsMount × Host ℕ) × (start stuck 201 path_a idle ≡ some r)
start_ends_example = start_ends stuck clock path_a idle
