-- ===== src/Config/Entries.antt =====
-- What crates/steam-depot/src/config.rs makes of the entries of a `manifests` list.
use steam_depot_vfs.Prelude.{
  ℕ, ◌≡◌, ◌≤◌, refl, ap, ◌∙◌, arith, false, [], ◌∷◌, ◌++◌, some, none, Option-cases, inl, inr, ◌==◌,
  nat_eq,
}
use steam_depot_vfs.Prelude.Decimal.{to_string, parse_uint-to_string, IsDigits, IsDigits-to_string}
use steam_depot_vfs.Depot.{Text}
use steam_depot_vfs.Outcome.{ok}
use steam_depot_vfs.Config.{
  u64_max, default_branch, split_once, gid_and_branch, parse_parts, parse_manifest_entry,
}

split_once-here : (after : Text) → split_once b':' (b':' ∷ after) ≡ some ([], after)
split_once-here after = elim (Option-cases (split_once b':' after)) [
  | inl e ↦ unfold split_once in rw (e, split_once) refl
  | inr (p, e) ↦ unfold split_once in rw (e, split_once) refl
]

not_colon : (c : ℕ) → c ≤ b'9' → (c == b':') ≡ false
not_colon c h = ground arith

split_once-later :
    (c : ℕ) (cs before after : Text)
    → (c == b':') ≡ false
    → split_once b':' cs ≡ some (before, after)
    → split_once b':' (c ∷ cs) ≡ some (c ∷ before, after)
split_once-later c cs before after h e = unfold split_once in rw (e, h, split_once) refl

split_once-never :
    (c : ℕ) (cs : Text)
    → (c == b':') ≡ false
    → split_once b':' cs ≡ none
    → split_once b':' (c ∷ cs) ≡ none
split_once-never c cs h e = unfold split_once in rw (e, h, split_once) refl

-- The decimal digits have no colon.
split_once-digits :
    (s after : Text) → IsDigits s → split_once b':' (s ++ b':' ∷ after) ≡ some (s, after)
split_once-digits [] after h = split_once-here after
split_once-digits (c ∷ s) after (low, high, h) =
    split_once-later c (s ++ b':' ∷ after) s after (not_colon c high) (split_once-digits s after h)

split_once-none : (s : Text) → IsDigits s → split_once b':' s ≡ none
split_once-none [] h = unfold split_once in refl
split_once-none (c ∷ s) (low, high, h) =
    split_once-never c s (not_colon c high) (split_once-none s h)

parsed :
    (a d gid : ℕ) (branch : Text)
    → gid ≤ u64_max
    → parse_parts a d (to_string gid, branch)
      ≡ ok (record { app_id = a; depot_id = d; gid = gid; branch = branch })
parsed a d gid branch fits =
    unfold parse_parts in rw (parse_uint-to_string u64_max gid fits, parse_parts) refl

-- An entry with a gid of 64 bits in decimal, and a branch after a colon, is read as that gid and
-- branch, whatever the branch contains; without a colon the branch is "public".
pub parse_manifest_entry_lem :
    (app_id depot_id gid : ℕ) (branch : Text)
    → gid ≤ u64_max
    → (parse_manifest_entry app_id depot_id (to_string gid ++ b':' ∷ branch)
        ≡ ok (record { app_id = app_id; depot_id = depot_id; gid = gid; branch = branch }))
      × (parse_manifest_entry app_id depot_id (to_string gid)
          ≡ ok
              (record { app_id = app_id; depot_id = depot_id; gid = gid; branch = default_branch }))
unfolding parse_manifest_entry
parse_manifest_entry_lem app_id depot_id gid branch fits =
    let digits = IsDigits-to_string gid in
    let with_branch : gid_and_branch (to_string gid ++ b':' ∷ branch) ≡ (to_string gid, branch) =
      rw (split_once-digits (to_string gid) branch digits, gid_and_branch) refl in
    let without : gid_and_branch (to_string gid) ≡ (to_string gid, default_branch) =
      rw (split_once-none (to_string gid) digits, gid_and_branch) refl in
    (
      ap (parse_parts app_id depot_id) with_branch ∙ parsed app_id depot_id gid branch fits,
      ap (parse_parts app_id depot_id) without ∙ parsed app_id depot_id gid default_branch fits,
    )
