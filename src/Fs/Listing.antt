-- ===== src/Fs/Listing.antt =====
-- What `list_dir` of crates/steam-depot-vfs/src/fs.rs returns on a fresh index.
use mathlib.Core.Option
use mathlib.Core.Option.{or_else}
use steam_depot_vfs.Prelude.{
  ℕ, suc, ◌≡◌, refl, ap, subst, ◌∙◌, arith, List, [], ◌∷◌, ◌++◌, map, append_assoc, Option, none,
  some, if◌then◌else◌, ◌==◌, ==_iff, list_eq, nat_eq, get_elem?, length, length-append, Bool-cases,
  inl, inr,
}
use steam_depot_vfs.Prelude.Maps.{HashMap, lookup, lookup-insert}
use steam_depot_vfs.Depot.{Text, DepotFile, Manifest, DepotApi}
use steam_depot_vfs.Outcome.{ok, err, ◌>>=◌, ok_or}
use steam_depot_vfs.Fs.{
  IoError, Result, Entry, push_child, parent_key, index_files, new, not_found_error, is_root,
  entry_of, entries_at, list_dir,
}
use steam_depot_vfs.Fs.Paths.{strip_leading_slash}

-- The places, from `i` on, of the files whose parent is `key`.
places : ℕ → Text → List DepotFile → List ℕ
places i key [] = []
places i key (f ∷ fs) =
    let rest = places (suc i) key fs in if parent_key f.path == key then i ∷ rest else rest

-- The files whose parent is `key`, in the manifest's order.
pub children_of : Text → List DepotFile → List DepotFile
children_of key [] = []
children_of key (f ∷ fs) =
    let rest = children_of key fs in if parent_key f.path == key then f ∷ rest else rest

abbrev grown : Option (List ℕ) → List ℕ → Option (List ℕ)
grown o [] = o
grown o (i ∷ is) = some (Option.get_or o [] ++ i ∷ is)

grown_once :
    (o : Option (List ℕ)) (i : ℕ) (is : List ℕ)
    → grown (some (Option.get_or o [] ++ i ∷ [])) is ≡ grown o (i ∷ is)
grown_once o i [] = refl
grown_once o i (j ∷ is) = ap some (append_assoc (Option.get_or o []) (i ∷ []) (j ∷ is))

lookup-children :
    (i : ℕ) (key : Text) (fs : List DepotFile) (by_path : HashMap Text ℕ)
    (children : HashMap Text (List ℕ))
    → lookup key (index_files i fs (by_path, children)).1
      ≡ grown (lookup key children) (places i key fs)
unfolding index_files places
lookup-children i key [] by_path children = refl
lookup-children i key (f ∷ fs) by_path children =
    lookup-children (suc i) key fs _ (push_child parent i children)
    ∙ elim (Bool-cases (parent == key)) [
      | inl same ↦
          rw (lookup-insert parent key _ children, same, (==_iff parent key).0 same)
            (grown_once (lookup key children) i (places (suc i) key fs))
      | inr other ↦ rw (lookup-insert parent key _ children, other)
    ]
  where
    parent : Text
    parent = parent_key f.path

get_elem?-after {ℓ} :
    {A : Type ℓ} (xs : List A) (y : A) (ys : List A) → get_elem? (xs ++ y ∷ ys) (length xs) ≡ some y
get_elem?-after [] y ys = refl
get_elem?-after (x ∷ xs) y ys = get_elem?-after xs y ys

length-places :
    (i : ℕ) (key : Text) (fs : List DepotFile)
    → length (places i key fs) ≡ length (children_of key fs)
unfolding places children_of
length-places i key [] = refl
length-places i key (f ∷ fs) = ground (arith, length-places (suc i) key fs)

children-new :
    (m : Manifest) (key : Text) → lookup key (new m).children ≡ grown none (places 0 key m.files)
unfolding new lookup
children-new m key = lookup-children 0 key m.files [] []

module _ (api : DepotApi) where
  by_shape :
      (files : List DepotFile) (e : IoError) (ps : List ℕ) (fs : List DepotFile)
      → length ps ≡ length fs
      → entries_at api files ps ≡ ok (map (entry_of api) fs)
      → (ok_or e (grown none ps) >>= entries_at api files) ≡ elim fs as (λ _. Result (List Entry)) [
        | [] ↦ err e
        | g ∷ gs ↦ ok (map (entry_of api) (g ∷ gs))
      ]
  by_shape files e [] [] h same = refl
  by_shape files e [] (f ∷ fs) h same = absurd (omega arith)
  by_shape files e (p ∷ ps) [] h same = absurd (omega arith)
  by_shape files e (p ∷ ps) (f ∷ fs) h same = same

  entries_at-cons :
      (files : List DepotFile) (i : ℕ) (is : List ℕ) (f : DepotFile) (r : List Entry)
      → get_elem? files i ≡ some f
      → entries_at api files is ≡ ok r
      → entries_at api files (i ∷ is) ≡ ok (entry_of api f ∷ r)
  unfolding entries_at
  entries_at-cons files i is f r there rest = ground arith

  entries_at-places :
      (before : List DepotFile) (key : Text) (fs : List DepotFile)
      → entries_at api (before ++ fs) (places (length before) key fs)
        ≡ ok (map (entry_of api) (children_of key fs))
  unfolding places children_of
  entries_at-places before key [] = unfold entries_at in refl
  entries_at-places before key (f ∷ fs) =
      let shift : length (before ++ f ∷ []) ≡ suc (length before) =
        omega (arith, length-append before (f ∷ [])) in
      let rest =
        subst
          (λ n.
            entries_at api (before ++ f ∷ fs) (places n key fs)
            ≡ ok (map (entry_of api) (children_of key fs)))
          shift
          (subst
            (λ l.
              entries_at api l (places (length (before ++ f ∷ [])) key fs)
              ≡ ok (map (entry_of api) (children_of key fs)))
            (append_assoc before (f ∷ []) fs) (entries_at-places (before ++ f ∷ []) key fs)) in
      elim (Bool-cases (parent_key f.path == key)) [
        | inl same ↦ rw same (
            entries_at-cons (before ++ f ∷ fs) (length before) _ f _ (get_elem?-after before f fs)
              rest)
        | inr other ↦ rw (other, rest)
      ]

  -- The listing of a directory of a fresh index never panics. It has one entry for each file whose
  -- parent is that directory, in the manifest's order; without any such file the directory is
  -- reported as not found, an empty directory of the manifest too.
  pub list_dir-new :
      (m : Manifest) (path : Text)
      → let key = if is_root path then [] else strip_leading_slash path in
        list_dir api (new m) path ≡ elim (children_of key m.files) as (λ _. Result (List Entry)) [
          | [] ↦ err (not_found_error (new m) path key)
          | f ∷ fs ↦ ok (map (entry_of api) (f ∷ fs))
        ]
  unfolding list_dir new
  list_dir-new m path =
      let key = if is_root path then [] else strip_leading_slash path in
      rw (children-new m key) (
        by_shape m.files (not_found_error (new m) path key) (places 0 key m.files)
          (children_of key m.files) (length-places 0 key m.files)
          (entries_at-places [] key m.files))
