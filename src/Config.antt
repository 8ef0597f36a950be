-- ===== src/Config.antt =====
-- crates/steam-depot/src/config.rs: the configuration, from the parsed TOML on. `Path::is_absolute` and
-- `Path::join` are those of Unix.
pub mod Entries
use steam_depot_vfs.Prelude.{
  ℕ, zero, suc, ◌-◌, ◌^◌, Bool, true, false, List, [], ◌∷◌, ◌++◌, Option, some, none, if◌then◌else◌,
  ◌==◌, nat_eq, list_eq,
}
use steam_depot_vfs.Prelude.Decimal.{parse_uint}
use steam_depot_vfs.Depot.{Text}
use steam_depot_vfs.Outcome.{Outcome, ok, err, panicked, ◌>>=◌}
use steam_depot_vfs.Fs.Paths.{join_base, parent_dir}

pub data ConfigError : Type 0 where
  invalid_gid : (gid_str : Text) → ConfigError

abbrev pub Result {ℓ} : Type ℓ → Type ℓ
Result = Outcome ConfigError

pub record Steam : Type 0 where
  pub account : Text
  pub password : Text

pub record Manifest : Type 0 where
  pub app_id : ℕ
  pub depot_id : ℕ
  pub gid : ℕ
  pub branch : Text

pub record Config : Type 0 where
  pub mountpoint : Text
  pub store_root : Text
  pub steam : Steam
  pub manifests : List Manifest

pub record RawDepot : Type 0 where
  pub app_id : ℕ
  pub depot_id : ℕ
  pub manifests : List Text

pub record RawConfig : Type 0 where
  pub mountpoint : Text
  pub store_root : Text
  pub steam : Steam
  pub depots : List RawDepot

abbrev pub u64_max : ℕ
u64_max = 2 ^ 64 - 1

abbrev pub default_branch : Text
default_branch = b'p' ∷ b'u' ∷ b'b' ∷ b'l' ∷ b'i' ∷ b'c' ∷ []

-- `str::split_once`, at the first `sep`.
unfoldable pub split_once : ℕ → Text → Option (Text × Text)
split_once sep [] = none
split_once sep (c ∷ cs) = elim (split_once sep cs) [
  | none ↦ if c == sep then some ([], cs) else none
  | some (before, after) ↦ if c == sep then some ([], cs) else some (c ∷ before, after)
]

abbrev pub gid_and_branch : Text → Text × Text
gid_and_branch raw = elim (split_once b':' raw) [
  | some (gid, branch) ↦ (gid, branch)
  | none ↦ (raw, default_branch)
]

-- With the gid and the branch apart.
unfoldable pub parse_parts : ℕ → ℕ → Text × Text → Result Manifest
unfolding parse_uint
parse_parts app_id depot_id (gid_str, branch) = elim (parse_uint u64_max gid_str) [
  | none ↦ err (invalid_gid gid_str)
  | some gid ↦ ok (record { app_id = app_id; depot_id = depot_id; gid = gid; branch = branch })
]

unfoldable pub parse_manifest_entry : ℕ → ℕ → Text → Result Manifest
unfolding split_once parse_parts
parse_manifest_entry app_id depot_id raw = parse_parts app_id depot_id (gid_and_branch raw)

-- The two loops of `from_file`; the first bad entry ends them.
unfoldable pub parse_entries : ℕ → ℕ → List Text → Result (List Manifest)
unfolding parse_manifest_entry
parse_entries app_id depot_id [] = ok []
parse_entries app_id depot_id (raw ∷ rest) = do
  m ← parse_manifest_entry app_id depot_id raw
  ms ← parse_entries app_id depot_id rest
  ok (m ∷ ms)

unfoldable pub parse_depots : List RawDepot → Result (List Manifest)
unfolding parse_entries
parse_depots [] = ok []
parse_depots (d ∷ ds) = do
  ms ← parse_entries d.app_id d.depot_id d.manifests
  rest ← parse_depots ds
  ok (ms ++ rest)

unfoldable pub resolve : Text → Text → Text
unfolding join_base
resolve base [] = join_base base []
resolve base (c ∷ cs) = if c == b'/' then c ∷ cs else join_base base (c ∷ cs)

-- `from_file`, once the file at `path` is read and parsed.
unfoldable pub from_raw : Text → RawConfig → Result Config
unfolding parse_depots resolve parent_dir
from_raw path raw = do
  manifests ← parse_depots raw.depots
  let base = parent_dir path
  ok (record {
    mountpoint = resolve base raw.mountpoint;
    store_root = resolve base raw.store_root;
    steam = raw.steam;
    manifests = manifests;
  })
