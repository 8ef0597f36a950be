-- ===== src/DepotStore/Listing.antt =====
-- `list_manifests` of crates/steam-depot-vfs/src/context.rs on the layout of files that the manifest cache of
-- crates/steam-depot-vfs/src/manifest_cache.rs writes.
use steam_depot_vfs.Prelude.{
  ℕ, ◌+◌, ◌-◌, ◌≤◌, ◌≡◌, refl, sym, ap, ◌∙◌, arith, true, List, [], ◌∷◌, ◌++◌, map, Option, some,
  none, length, length-append, leb, take, take-append_left, take-all, drop-length-add, ==_refl,
  nat_eq, list_eq, ◌⊎◌, inr, append_assoc, append-nil,
}
use mathlib.Core.List.{map-append}
use steam_depot_vfs.Prelude.Decimal.{to_string, parse_uint-to_string}
use steam_depot_vfs.Depot.{Text}
use steam_depot_vfs.Fs.Paths.{join_base}
use steam_depot_vfs.ManifestCache.{depot_dir, path_for}
use steam_depot_vfs.Outcome.{ok, ◌>>=◌}
use steam_depot_vfs.DepotStore.Directories.{
  IoError, entries, Triple, strip_suffix, and_parse, u32_max, u64_max, postcard_suffix, id_of,
  gid_of, push_gid, list_gids, DepotDir, in_depot, list_depots, AppDir, in_app, list_apps,
  list_manifests,
}

-- An entry whose name is a number, or another one, with what is in it.
pub data Item (A : Type 0) : Type 0 where
  numbered : (n : ℕ) → A → Item A
  stray : (name : Option Text) → A → Item A

abbrev pub Files : Type 0
Files = List (Item (Unit {0}))

abbrev pub Depots : Type 0
Depots = List (Item Files)

abbrev pub Apps : Type 0
Apps = List (Item Depots)

abbrev pub file_shown : Item (Unit {0}) → IoError ⊎ (Option Text × Unit {0})
file_shown (numbered gid u) = inr (some (to_string gid ++ postcard_suffix), u)
file_shown (stray name u) = inr (name, u)

abbrev pub depot_shown : Item Files → IoError ⊎ (Option Text × DepotDir)
depot_shown (numbered depot_id fs) = inr (some (to_string depot_id), entries (map file_shown fs))
depot_shown (stray name fs) = inr (name, entries (map file_shown fs))

abbrev pub app_shown : Item Depots → IoError ⊎ (Option Text × AppDir)
app_shown (numbered app_id ds) = inr (some (to_string app_id), entries (map depot_shown ds))
app_shown (stray name ds) = inr (name, entries (map depot_shown ds))

-- Numbers are in range, and other names are not read as numbers.
abbrev pub AreFiles : Files → Type 0
AreFiles [] = Unit
AreFiles (numbered gid u ∷ fs) = (gid ≤ u64_max) × AreFiles fs
AreFiles (stray name u ∷ fs) = (gid_of name ≡ none) × AreFiles fs

abbrev pub AreDepots : Depots → Type 0
AreDepots [] = Unit
AreDepots (numbered depot_id fs ∷ ds) = (depot_id ≤ u32_max) × AreFiles fs × AreDepots ds
AreDepots (stray name fs ∷ ds) = (id_of name ≡ none) × AreDepots ds

abbrev pub AreApps : Apps → Type 0
AreApps [] = Unit
AreApps (numbered app_id ds ∷ apps) = (app_id ≤ u32_max) × AreDepots ds × AreApps apps
AreApps (stray name ds ∷ apps) = (id_of name ≡ none) × AreApps apps

abbrev pub file_triples : ℕ → ℕ → Files → List Triple
file_triples app_id depot_id [] = []
file_triples app_id depot_id (numbered gid u ∷ fs) =
    (app_id, depot_id, gid) ∷ file_triples app_id depot_id fs
file_triples app_id depot_id (stray name u ∷ fs) = file_triples app_id depot_id fs

abbrev pub depot_triples : ℕ → Depots → List Triple
depot_triples app_id [] = []
depot_triples app_id (numbered depot_id fs ∷ ds) =
    file_triples app_id depot_id fs ++ depot_triples app_id ds
depot_triples app_id (stray name fs ∷ ds) = depot_triples app_id ds

abbrev pub app_triples : Apps → List Triple
app_triples [] = []
app_triples (numbered app_id ds ∷ apps) = depot_triples app_id ds ++ app_triples apps
app_triples (stray name ds ∷ apps) = app_triples apps

strip_suffix-append : (s suffix : Text) → strip_suffix suffix (s ++ suffix) ≡ some s
strip_suffix-append s suffix =
    let n : length (s ++ suffix) - length suffix ≡ length s + 0 =
      omega (arith, length-append s suffix) in
    let fits : leb (length suffix) (length (s ++ suffix)) ≡ true =
      ground (arith, length-append s suffix) in
    let front : take (length s + 0) (s ++ suffix) ≡ s =
      take-append_left (length s + 0) s suffix (omega arith)
      ∙ take-all (length s + 0) s (omega arith) in
    unfold strip_suffix in rw (n, fits, drop-length-add s suffix 0, ==_refl suffix, front) refl

gid_of-to_string :
    (gid : ℕ) → gid ≤ u64_max → gid_of (some (to_string gid ++ postcard_suffix)) ≡ some gid
gid_of-to_string gid h =
    unfold gid_of in
    ap (λ o. and_parse u64_max o) (strip_suffix-append (to_string gid) postcard_suffix)
    ∙ parse_uint-to_string u64_max gid h

list_gids-files :
    (app_id depot_id : ℕ) (fs : Files) (out : List Triple)
    → AreFiles fs
    → list_gids app_id depot_id (map file_shown fs) out
      ≡ ok (out ++ file_triples app_id depot_id fs)
unfolding list_gids
list_gids-files app_id depot_id [] out h = ap (λ l. ok l) (sym (append-nil out))
list_gids-files app_id depot_id (numbered gid u ∷ fs) out h =
    ap (λ o. list_gids app_id depot_id (map file_shown fs) (push_gid app_id depot_id o out))
      (gid_of-to_string gid h.0)
    ∙ list_gids-files app_id depot_id fs (out ++ (app_id, depot_id, gid) ∷ []) h.1
    ∙ ap (λ l. ok l)
        (append_assoc out ((app_id, depot_id, gid) ∷ []) (file_triples app_id depot_id fs))
list_gids-files app_id depot_id (stray name u ∷ fs) out h =
    ap (λ o. list_gids app_id depot_id (map file_shown fs) (push_gid app_id depot_id o out)) h.0
    ∙ list_gids-files app_id depot_id fs out h.1

list_depots-files :
    (app_id : ℕ) (ds : Depots) (out : List Triple)
    → AreDepots ds
    → list_depots app_id (map depot_shown ds) out ≡ ok (out ++ depot_triples app_id ds)
unfolding list_depots
list_depots-files app_id [] out h = ap (λ l. ok l) (sym (append-nil out))
list_depots-files app_id (numbered depot_id fs ∷ ds) out h =
    ap
      (λ o. in_depot app_id o (entries (map file_shown fs)) out >>= λ more.
        list_depots app_id (map depot_shown ds) more)
      (parse_uint-to_string u32_max depot_id h.0)
    ∙ ap (λ r. r >>= λ more. list_depots app_id (map depot_shown ds) more)
        (list_gids-files app_id depot_id fs out h.1)
    ∙ list_depots-files app_id ds (out ++ file_triples app_id depot_id fs) h.2
    ∙ ap (λ l. ok l) (append_assoc out (file_triples app_id depot_id fs) (depot_triples app_id ds))
list_depots-files app_id (stray name fs ∷ ds) out h =
    ap
      (λ o. in_depot app_id o (entries (map file_shown fs)) out >>= λ more.
        list_depots app_id (map depot_shown ds) more)
      h.0
    ∙ list_depots-files app_id ds out h.1

list_apps-files :
    (apps : Apps) (out : List Triple)
    → AreApps apps
    → list_apps (map app_shown apps) out ≡ ok (out ++ app_triples apps)
unfolding list_apps
list_apps-files [] out h = ap (λ l. ok l) (sym (append-nil out))
list_apps-files (numbered app_id ds ∷ apps) out h =
    ap
      (λ o.
        in_app o (entries (map depot_shown ds)) out >>= λ more. list_apps (map app_shown apps) more)
      (parse_uint-to_string u32_max app_id h.0)
    ∙ ap (λ r. r >>= λ more. list_apps (map app_shown apps) more)
        (list_depots-files app_id ds out h.1)
    ∙ list_apps-files apps (out ++ depot_triples app_id ds) h.2
    ∙ ap (λ l. ok l) (append_assoc out (depot_triples app_id ds) (app_triples apps))
list_apps-files (stray name ds ∷ apps) out h =
    ap
      (λ o.
        in_app o (entries (map depot_shown ds)) out >>= λ more. list_apps (map app_shown apps) more)
      h.0
    ∙ list_apps-files apps out h.1

-- The paths of the manifests in a directory: names of directories and of files, joined.
abbrev pub file_paths : Text → Files → List Text
file_paths dir [] = []
file_paths dir (numbered gid u ∷ fs) =
    join_base dir (to_string gid ++ postcard_suffix) ∷ file_paths dir fs
file_paths dir (stray name u ∷ fs) = file_paths dir fs

abbrev pub depot_paths : Text → Depots → List Text
depot_paths dir [] = []
depot_paths dir (numbered depot_id fs ∷ ds) =
    file_paths (join_base dir (to_string depot_id)) fs ++ depot_paths dir ds
depot_paths dir (stray name fs ∷ ds) = depot_paths dir ds

abbrev pub app_paths : Text → Apps → List Text
app_paths root [] = []
app_paths root (numbered app_id ds ∷ apps) =
    depot_paths (join_base root (to_string app_id)) ds ++ app_paths root apps
app_paths root (stray name ds ∷ apps) = app_paths root apps

-- Where the manifest cache writes the manifest of a triple.
abbrev pub written_at : Text → Triple → Text
written_at root (app_id, depot_id, gid) = path_for root app_id depot_id gid

module _ (root : Text) where
  files_written :
      (app_id depot_id : ℕ) (fs : Files)
      → map (written_at root) (file_triples app_id depot_id fs)
        ≡ file_paths (depot_dir root app_id depot_id) fs
  files_written app_id depot_id [] = refl
  files_written app_id depot_id (numbered gid u ∷ fs) =
      ap (λ l. path_for root app_id depot_id gid ∷ l) (files_written app_id depot_id fs)
  files_written app_id depot_id (stray name u ∷ fs) = files_written app_id depot_id fs

  depots_written :
      (app_id : ℕ) (ds : Depots)
      → map (written_at root) (depot_triples app_id ds)
        ≡ depot_paths (join_base root (to_string app_id)) ds
  depots_written app_id [] = refl
  depots_written app_id (numbered depot_id fs ∷ ds) =
      map-append (written_at root) (file_triples app_id depot_id fs) (depot_triples app_id ds)
      ∙ rw (files_written app_id depot_id fs, depots_written app_id ds) refl
  depots_written app_id (stray name fs ∷ ds) = depots_written app_id ds

  apps_written : (apps : Apps) → map (written_at root) (app_triples apps) ≡ app_paths root apps
  apps_written [] = refl
  apps_written (numbered app_id ds ∷ apps) =
      map-append (written_at root) (depot_triples app_id ds) (app_triples apps)
      ∙ rw (depots_written app_id ds, apps_written apps) refl
  apps_written (stray name ds ∷ apps) = apps_written apps

-- In a directory of files `<app>/<depot>/<gid>.postcard`, with any files and directories among them whose
-- names are not such numbers, `list_manifests` gives exactly the triples of the numbered files, in
-- the order of the directories, and where the manifest cache writes the manifests of these triples
-- (`path_for`) is where these files are.
pub list_manifests_lem :
    (root : Text) (apps : Apps)
    → AreApps apps
    → (list_manifests (entries (map app_shown apps)) ≡ ok (app_triples apps))
      × (map (written_at root) (app_triples apps) ≡ app_paths root apps)
list_manifests_lem root apps h =
    (unfold list_manifests in list_apps-files apps [] h, apps_written root apps)
