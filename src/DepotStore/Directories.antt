-- ===== src/DepotStore/Directories.antt =====
-- `list_manifests` and `list_chunks` of crates/steam-depot-vfs/src/context.rs, over what reading the
-- directories gives. Errors of the system but `NotFound` are numbers.
use steam_depot_vfs.Prelude.{
  ℕ, ◌-◌, List, [], ◌∷◌, ◌++◌, Option, some, none, length, if◌then◌else◌, leb, ◌&&◌, drop, take,
  ◌==◌, nat_eq, list_eq, ◌⊎◌, inl, inr,
}
use steam_depot_vfs.Prelude.Decimal.{parse_uint}
use steam_depot_vfs.Depot.{Text, ChunkHash}
use steam_depot_vfs.Outcome.{Outcome, ok, err, ◌>>=◌}

pub data IoError : Type 0 where
  not_found : IoError
  code : ℕ → IoError

-- What `read_dir` gives: an entry may fail, its name may not be UTF-8, and it may be read as a
-- directory with `A`.
pub data ReadDir (A : Type 0) : Type 0 where
  unreadable : IoError → ReadDir A
  entries : List (IoError ⊎ (Option Text × A)) → ReadDir A

abbrev pub Triple : Type 0
Triple = ℕ × ℕ × ℕ

-- `str::strip_suffix`
unfoldable pub strip_suffix : Text → Text → Option Text
strip_suffix suffix s =
    let n = length s - length suffix in
    if leb (length suffix) (length s) && (drop n s == suffix) then some (take n s) else none

abbrev pub and_parse : ℕ → Option Text → Option ℕ
and_parse bound none = none
and_parse bound (some s) = parse_uint bound s

abbrev pub u32_max : ℕ
u32_max = 4294967295

abbrev pub u64_max : ℕ
u64_max = 18446744073709551615

abbrev pub postcard_suffix : Text
postcard_suffix = b'.' ∷ b'p' ∷ b'o' ∷ b's' ∷ b't' ∷ b'c' ∷ b'a' ∷ b'r' ∷ b'd' ∷ []

abbrev pub strip_postcard : Option Text → Option Text
strip_postcard none = none
strip_postcard (some s) = strip_suffix postcard_suffix s

abbrev pub id_of : Option Text → Option ℕ
id_of name = and_parse u32_max name

unfoldable pub gid_of : Option Text → Option ℕ
unfolding strip_suffix
gid_of name = and_parse u64_max (strip_postcard name)

abbrev pub push_gid : (app_id depot_id : ℕ) → Option ℕ → List Triple → List Triple
push_gid app_id depot_id none out = out
push_gid app_id depot_id (some gid) out = out ++ (app_id, depot_id, gid) ∷ []

unfoldable pub list_gids :
    (app_id depot_id : ℕ)
    → List (IoError ⊎ (Option Text × Unit {0}))
    → List Triple
    → Outcome IoError (List Triple)
unfolding gid_of
list_gids app_id depot_id [] out = ok out
list_gids app_id depot_id (inl e ∷ rest) out = err e
list_gids app_id depot_id (inr (name, _) ∷ rest) out =
    list_gids app_id depot_id rest (push_gid app_id depot_id (gid_of name) out)

-- `for entry in read_dir(path)?`
abbrev pub each_of {ℓ} :
    {A : Type 0} {B : Type ℓ}
    → ReadDir A
    → (List (IoError ⊎ (Option Text × A)) → Outcome IoError B)
    → Outcome IoError B
each_of (unreadable e) f = err e
each_of (entries es) f = f es

abbrev pub DepotDir : Type 0
DepotDir = ReadDir (Unit {0})

-- The files of a directory whose name is a number.
abbrev pub in_depot : ℕ → Option ℕ → DepotDir → List Triple → Outcome IoError (List Triple)
in_depot app_id none dir out = ok out
in_depot app_id (some depot_id) dir out = each_of dir (λ es. list_gids app_id depot_id es out)

unfoldable pub list_depots :
    ℕ → List (IoError ⊎ (Option Text × DepotDir)) → List Triple → Outcome IoError (List Triple)
unfolding list_gids
list_depots app_id [] out = ok out
list_depots app_id (inl e ∷ rest) out = err e
list_depots app_id (inr (name, dir) ∷ rest) out = do
  more ← in_depot app_id (id_of name) dir out
  list_depots app_id rest more

abbrev pub AppDir : Type 0
AppDir = ReadDir DepotDir

abbrev pub in_app : Option ℕ → AppDir → List Triple → Outcome IoError (List Triple)
in_app none dir out = ok out
in_app (some app_id) dir out = each_of dir (λ es. list_depots app_id es out)

unfoldable pub list_apps :
    List (IoError ⊎ (Option Text × AppDir)) → List Triple → Outcome IoError (List Triple)
unfolding list_depots
list_apps [] out = ok out
list_apps (inl e ∷ rest) out = err e
list_apps (inr (name, dir) ∷ rest) out = do more ← in_app (id_of name) dir out; list_apps rest more

-- A missing root is an empty one.
unfoldable pub list_manifests : ReadDir AppDir → Outcome IoError (List Triple)
unfolding list_apps
list_manifests (unreadable not_found) = ok []
list_manifests (unreadable (code e)) = err (code e)
list_manifests (entries es) = list_apps es []

-- `ChunkHash::from_hex` is of another crate.
module _ (from_hex : Text → Option ChunkHash) where
  abbrev pub keep_hash : Option ChunkHash → List (IoError ⊎ ChunkHash) → List (IoError ⊎ ChunkHash)
  keep_hash none rest = rest
  keep_hash (some sha) rest = inr sha ∷ rest

  abbrev pub hash_of : Option Text → Option ChunkHash
  hash_of none = none
  hash_of (some name) = from_hex name

  unfoldable pub hashes_of : List (IoError ⊎ (Option Text × Unit {0})) → List (IoError ⊎ ChunkHash)
  hashes_of [] = []
  hashes_of (inl e ∷ rest) = inl e ∷ hashes_of rest
  hashes_of (inr (name, _) ∷ rest) = keep_hash (hash_of name) (hashes_of rest)

  -- The iterator as the list of its items.
  unfoldable pub list_chunks : ReadDir (Unit {0}) → Outcome IoError (List (IoError ⊎ ChunkHash))
  unfolding hashes_of
  list_chunks (unreadable not_found) = ok []
  list_chunks (unreadable (code e)) = err (code e)
  list_chunks (entries es) = ok (hashes_of es)
