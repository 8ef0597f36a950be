-- ===== src/Verify/Totals.antt =====
-- The bytes that `verify_cache` of crates/steam-depot/src/verify.rs counts.
use mathlib.Core.List.{Perm, foldr}
use mathlib.Core.List.Perm
use steam_depot_vfs.Prelude.{
  ℕ, ◌+◌, ◌%◌, ◌^◌, ◌<◌, ◌≡◌, refl, ap, ◌∙◌, arith, Bool, true, false, List, [], ◌∷◌, Option, some,
  none, length, Option-cases, ◌⊎◌, inl, inr, nat_eq, list_eq,
}
use steam_depot_vfs.Depot.{Bytes, Text, ChunkHash}
use steam_depot_vfs.Verify.{VerifyReport, Job, verify_one, count, check_job}
use steam_depot_vfs.Verify.Pools.{in_order}

module _ (fs_read : Text → Option Bytes) where
  abbrev pub len_of : Option Bytes → ℕ
  len_of none = 0
  len_of (some bytes) = length bytes

  -- With the size of a file, if it could be read.
  abbrev pub add_size : Job → ℕ → ℕ
  add_size (sha, path) n = len_of (fs_read path) + n

  -- The bytes of the files that could be read.
  abbrev pub bytes_read : List Job → ℕ
  bytes_read = foldr add_size 0

  pub bytes_read-perm : {js ks : List Job} → Perm js ks → bytes_read js ≡ bytes_read ks
  bytes_read-perm p = Perm.foldr-eq (hlevel) add_size (λ a b x. omega arith) p 0

module _ (fs_read : Text → Option Bytes) (sha1 : Bytes → ChunkHash) where
  abbrev told : Text ⊎ (Bool × ℕ) → ℕ
  told (inl e) = 0
  told (inr (same, len)) = len

  told-verify_one :
      (sha : ChunkHash) (path : Text)
      → told (verify_one fs_read sha1 sha path) ≡ len_of fs_read (fs_read path)
  told-verify_one sha path = elim (Option-cases (fs_read path)) [
    | inl e ↦ unfold verify_one in rw (e, verify_one) refl
    | inr (b, e) ↦ unfold verify_one in rw (e, verify_one) refl
  ]

  count-bytes :
      (sha : ChunkHash) (v : Text ⊎ (Bool × ℕ)) (r : VerifyReport)
      → r.total_bytes < 2 ^ 64
      → (count fs_read sha1 sha v r).total_bytes ≡ (r.total_bytes + told v) % 2 ^ 64
  count-bytes sha (inl e) r h = omega arith
  count-bytes sha (inr (true, len)) r h = refl
  count-bytes sha (inr (false, len)) r h = refl

  check_job-bytes :
      (sha : ChunkHash) (path : Text) (r : VerifyReport)
      → r.total_bytes < 2 ^ 64
      → (check_job fs_read sha1 (sha, path) r).total_bytes
        ≡ (r.total_bytes + len_of fs_read (fs_read path)) % 2 ^ 64
  check_job-bytes sha path r h =
      unfold check_job in
      count-bytes sha (verify_one fs_read sha1 sha path) r h
      ∙ ap (λ n. (r.total_bytes + n) % 2 ^ 64) (told-verify_one sha path)

  pub in_order-bytes :
      (js : List Job) (r : VerifyReport)
      → r.total_bytes < 2 ^ 64
      → (in_order (check_job fs_read sha1) js r).total_bytes
        ≡ (r.total_bytes + bytes_read fs_read js) % 2 ^ 64
  in_order-bytes [] r h = omega arith
  in_order-bytes ((sha, path) ∷ js) r h =
      let one = check_job-bytes sha path r h in
      let rest = in_order-bytes js (check_job fs_read sha1 (sha, path) r) (omega (arith, one)) in
      omega (arith, one, rest)
