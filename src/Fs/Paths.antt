-- ===== src/Fs/Paths.antt =====
-- The path functions of crates/steam-depot-vfs/src/fs.rs, and the standard library's that it calls:
-- `str::find` from a place on, `str::rfind`, `Path::file_name` on Unix.
use mathlib.Core.Option
use steam_depot_vfs.Prelude.{
  ℕ, zero, suc, ◌||◌, List, [], ◌∷◌, Option, none, some, if◌then◌else◌, ◌==◌, list_eq, nat_eq, take,
}
use steam_depot_vfs.Depot.{Text}

abbrev pub slash : ℕ
slash = b'/'

-- The place of the first slash at or after `from`.
unfoldable pub find_slash : Text → ℕ → Option ℕ
find_slash [] from = none
find_slash (c ∷ cs) zero = if c == slash then some 0 else Option.map suc (find_slash cs zero)
find_slash (c ∷ cs) (suc from) = Option.map suc (find_slash cs from)

-- The place of the last slash.
unfoldable pub rfind_slash : Text → Option ℕ
rfind_slash [] = none
rfind_slash (c ∷ cs) = elim (rfind_slash cs) [
  | some i ↦ some (suc i)
  | none ↦ if c == slash then some 0 else none
]

unfoldable pub parent_of : Text → Option Text
unfolding rfind_slash
parent_of path = Option.map (λ i. take i path) (rfind_slash path)

-- `Path::join` of a relative path: no slash is doubled, and an empty base adds none.
unfoldable pub join_base : Text → Text → Text
join_base [] p = p
join_base (c ∷ []) p = if c == slash then c ∷ p else c ∷ slash ∷ p
join_base (c ∷ d ∷ cs) p = c ∷ join_base (d ∷ cs) p

-- `Path::parent`, or the empty path, for a path with no slash doubled or at its end.
unfoldable pub parent_dir : Text → Text
unfolding rfind_slash
parent_dir path = elim (rfind_slash path) [
  | none ↦ []
  | some zero ↦ slash ∷ []
  | some (suc i) ↦ take (suc i) path
]

unfoldable pub strip_leading_slash : Text → Text
strip_leading_slash [] = []
strip_leading_slash (c ∷ cs) = if c == slash then cs else c ∷ cs

-- The parts between slashes, the last one included.
unfoldable pub split_slash : Text → List Text
split_slash [] = [] ∷ []
split_slash (c ∷ cs) = elim (split_slash cs) [
  | [] ↦ (c ∷ []) ∷ []
  | part ∷ parts ↦ if c == slash then [] ∷ part ∷ parts else (c ∷ part) ∷ parts
]

-- `Path` drops empty parts and `.`; a last part `..` is no file name.
unfoldable pub last_component : Option Text → List Text → Option Text
last_component found [] = found
last_component found (part ∷ parts) =
    last_component (if part == [] || part == b'.' ∷ [] then found else some part) parts

unfoldable pub file_name : Text → Option Text
unfolding split_slash last_component
file_name path = elim (last_component none (split_slash path)) [
  | none ↦ none
  | some part ↦ if part == b'.' ∷ b'.' ∷ [] then none else some part
]
