-- ===== src/NfsSession.antt =====
-- crates/steam-depot-mount/src/nfs_session.rs on linux: the mount of the NFS server on the local host. What
-- the system does is a parameter, on the state `K` of the kernel. A path has no slash doubled or at its
-- end, and white space is that of ASCII.
pub mod Mounting
pub mod Snapshots
pub mod Tables
pub mod Settling
pub mod Serving
pub mod Lifecycle
mod Tests
use steam_depot_vfs.Prelude.{
  ℕ, zero, suc, ◌+◌, Bool, true, false, not, ◌&&◌, ◌||◌, List, [], ◌∷◌, ◌++◌, map, Option, some,
  none, length, if◌then◌else◌, ltb, leb, drop, take, get_elem?, ◌==◌, nat_eq, list_eq, ◌⊎◌, inl,
  inr,
}
use steam_depot_vfs.Prelude.Decimal.{to_string}
use steam_depot_vfs.Depot.{Text}
use steam_depot_vfs.Outcome.{Outcome, ok, err, panicked}
use steam_depot_vfs.Fs.Paths.{rfind_slash, join_base, slash}

pub data NfsMountError : Type 0 where
  bind_error : ℕ → NfsMountError
  mountpoint_error : ℕ → NfsMountError
  mount_command : ℕ → NfsMountError
  mount_failed : (status : ℕ) → (complaint : Text) → NfsMountError
  mount_option_rejected : (complaint : Text) → NfsMountError
  unmount_error : ℕ → NfsMountError
  unmount_failed : (status : ℕ) → NfsMountError
  mount_table : ℕ → NfsMountError
  unmount_did_not_settle : NfsMountError
  unsupported_platform : NfsMountError

-- What a command that could be run gives; a status of 0 is a success. The texts are as
-- `from_utf8_lossy` decodes them.
pub record Output : Type 0 where
  pub status : ℕ
  pub stdout : Text
  pub stderr : Text

-- The calls of the system; `inl` is an error code. `now` is in milliseconds.
pub record System (K : Type 0) : Type 0 where
  pub bind : K → (ℕ ⊎ ℕ) × K
  pub create_dir_all : Text → K → Option ℕ × K
  pub read_mounts : K → (ℕ ⊎ Text) × K
  pub canonicalize : Text → K → Option Text × K
  pub run : (program : Text) (args : List Text) → K → (ℕ ⊎ Output) × K
  pub now : K → ℕ × K
  pub sleep : (millis : ℕ) → K → K
  pub geteuid : ℕ

abbrev pub is_white : ℕ → Bool
is_white c = c == b' ' || (leb 9 c && leb c 13)

-- `split_whitespace`: the runs of other bytes. `field` has what the current run has so far.
abbrev pub end_field : List ℕ → List Text → List Text
end_field [] fields = fields
end_field (c ∷ cs) fields = (c ∷ cs) ∷ fields

unfoldable pub split_from : List ℕ → Text → List Text
split_from field [] = end_field field []
split_from field (c ∷ s) =
    let ended = split_from [] s in
    let longer = split_from (field ++ c ∷ []) s in
    if is_white c then end_field field ended else longer

abbrev pub split_whitespace : Text → List Text
split_whitespace s = split_from [] s

-- `lines`, up to a `\\r` at the end of a line, which splits no field
unfoldable pub lines_from : List ℕ → Text → List Text
lines_from line [] = end_field line []
lines_from line (c ∷ s) =
    let ended = lines_from [] s in
    let longer = lines_from (line ++ c ∷ []) s in if c == 10 then line ∷ ended else longer

abbrev pub lines : Text → List Text
lines s = lines_from [] s

abbrev pub is_text : Text → Option Text → Bool
is_text wanted none = false
is_text wanted (some on) = on == wanted

-- Whether a line of the mount table has a path in its second field.
unfoldable pub mounts_on : Text → Text → Bool
unfolding split_from
mounts_on wanted line = is_text wanted (get_elem? (split_whitespace line) 1)

unfoldable pub any_mounts_on : Text → List Text → Bool
unfolding mounts_on
any_mounts_on wanted [] = false
any_mounts_on wanted (line ∷ rest) =
    let more = any_mounts_on wanted rest in mounts_on wanted line || more

-- `parent` and `file_name`: neither for the root, and an empty parent without a slash.
abbrev pub split_at : Text → Option ℕ → Text × Text
split_at path none = ([], path)
split_at path (some zero) = (slash ∷ [], drop 1 path)
split_at path (some (suc i)) = (take (suc i) path, drop (suc i + 1) path)

unfoldable pub parent_and_name : Text → Option (Text × Text)
unfolding rfind_slash
parent_and_name [] = none
parent_and_name (c ∷ cs) =
    if (c ∷ cs) == (slash ∷ []) then none else some (split_at (c ∷ cs) (rfind_slash (c ∷ cs)))

abbrev pub joined : Text → Option Text → Option Text
joined name none = none
joined name (some parent) = some (join_base parent name)

module _ {K : Type 0} (sys : System K) where
  abbrev pub resolve_parent : Text → Option (Text × Text) → K → Option Text × K
  resolve_parent path none k = sys.canonicalize path k
  resolve_parent path (some (parent, name)) k =
      let (r, k') = sys.canonicalize parent k in (joined name r, k')

  unfoldable pub resolved : Text → K → Option Text × K
  unfolding parent_and_name join_base
  resolved path k = resolve_parent path (parent_and_name path) k

  abbrev pub in_table : Text → ℕ ⊎ Text → Outcome NfsMountError Bool
  in_table wanted (inl e) = err (mount_table e)
  in_table wanted (inr table) = ok (any_mounts_on wanted (lines table))

  abbrev pub look_up : Option Text × K → Outcome NfsMountError Bool × K
  look_up (none, k) = (ok false, k)
  look_up (some wanted, k) = let (r, k') = sys.read_mounts k in (in_table wanted r, k')

  unfoldable pub is_mounted : Text → K → Outcome NfsMountError Bool × K
  unfolding resolved lines_from any_mounts_on
  is_mounted path k = look_up (resolved path k)

-- The texts without the white space around them that are not empty, with `"; "` between them.
unfoldable pub trim_start : Text → Text
trim_start [] = []
trim_start (c ∷ s) = let rest = trim_start s in if is_white c then rest else c ∷ s

unfoldable pub trim_end : Text → Text
trim_end [] = []
trim_end (c ∷ s) = elim (trim_end s) [
  | [] ↦ if is_white c then [] else c ∷ []
  | d ∷ rest ↦ c ∷ d ∷ rest
]

abbrev pub trim : Text → Text
trim s = trim_end (trim_start s)

abbrev pub join_complaints : Text → Text → Text
join_complaints [] b = b
join_complaints (c ∷ a) [] = c ∷ a
join_complaints (c ∷ a) (d ∷ b) = c ∷ a ++ b';' ∷ b' ' ∷ d ∷ b

abbrev pub unless_complaint : Text → Outcome NfsMountError (Unit {0})
unless_complaint [] = ok tt
unless_complaint (c ∷ cs) = err (mount_option_rejected (c ∷ cs))

unfoldable pub check_mount_output : Output → Outcome NfsMountError (Unit {0})
unfolding trim_start trim_end
check_mount_output out =
    let complaint = join_complaints (trim out.stdout) (trim out.stderr) in
    if out.status == 0 then unless_complaint complaint else err (mount_failed out.status complaint)
