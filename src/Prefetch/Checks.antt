-- ===== src/Prefetch/Checks.antt =====
-- What a check of crates/steam-depot/src/verify.rs that finds no bad chunk shows of the chunk files, for
-- `run` of crates/steam-depot/src/prefetch.rs.
use mathlib.Core.List as List
use mathlib.Core.List.{Perm}
use mathlib.Core.List.Perm
use steam_depot_vfs.Prelude.{
  ℕ, ◌<◌, ◌^◌, ◌≡◌, ◌≢◌, refl, sym, ap, subst, ◌∙◌, List, [], ◌∷◌, ◌++◌, map, Option, none, some,
  length, Option-cases, Bool-cases, ◌⊎◌, inl, inr, ==_iff, ◌==◌, nat_eq, list_eq,
}
use steam_depot_vfs.Depot.{Bytes, Text, ChunkHash}
use steam_depot_vfs.Outcome.{ok}
use steam_depot_vfs.Fs.Paths.{join_base}
use steam_depot_vfs.Frame.{Codec, encode_frame}
use steam_depot_vfs.Verify.{
  Job, VerifyReport, Pool, Steps, IsDone, check_job, jobs_for, start, verify_one,
}
use steam_depot_vfs.Verify.Reports.{mismatch, failure, listed, filter_map-cons, verify_cache_lem}
use steam_depot_vfs.Prefetch.Attempts.{bad_of}

listed-nil : {A : Type 0} (o : Option A) (l : List A) → listed o ++ l ≡ [] → (o ≡ none) × (l ≡ [])
listed-nil none l h = (refl, h)
listed-nil (some a) l h = absurd cc

append-nil_parts : {A : Type 0} (l k : List A) → l ++ k ≡ [] → (l ≡ []) × (k ≡ [])
append-nil_parts [] k h = (refl, h)
append-nil_parts (a ∷ l) k h = absurd cc

map-nil : {A B : Type 0} (f : A → B) (l : List A) → map f l ≡ [] → l ≡ []
map-nil f [] h = refl
map-nil f (a ∷ l) h = absurd cc

module _ (fs_read : Text → Option Bytes) (sha1 : Bytes → ChunkHash) (to_hex : ChunkHash → Text)
    (root : Text) where
  -- Each of the files hashes to its name.
  abbrev pub Intact : List ChunkHash → Type 0
  Intact [] = Unit
  Intact (sha ∷ shas) =
      ((bytes : Bytes) × (fs_read (join_base root (to_hex sha)) ≡ some bytes) × (sha1 bytes ≡ sha))
      × Intact shas

  intact_one :
      (sha : ChunkHash) (path : Text)
      → mismatch fs_read sha1 (sha, path) ≡ none
      → failure fs_read sha1 (sha, path) ≡ none
      → (bytes : Bytes) × (fs_read path ≡ some bytes) × (sha1 bytes ≡ sha)
  unfolding verify_one
  intact_one sha path h k = elim (Option-cases (fs_read path)) [
    | inl e ↦ absurd (
        let q : failure fs_read sha1 (sha, path) ≢ none = rw (e, failure, verify_one) (λ x. cc) in
        q k)
    | inr (bytes, e) ↦ elim (Bool-cases (sha1 bytes == sha)) [
      | inl same ↦ (bytes, e, (==_iff (sha1 bytes) sha).0 same)
      | inr other ↦ absurd (
          let q : mismatch fs_read sha1 (sha, path) ≢ none =
            rw (e, other, mismatch, verify_one) (λ x. cc) in
          q h)
    ]
  ]

  intact :
      (shas : List ChunkHash)
      → List.filter_map (mismatch fs_read sha1) (jobs_for to_hex root shas) ≡ []
      → List.filter_map (failure fs_read sha1) (jobs_for to_hex root shas) ≡ []
      → Intact shas
  unfolding jobs_for
  intact [] h k = tt
  intact (sha ∷ shas) h k =
      let job : Job = (sha, join_base root (to_hex sha)) in
      let jobs = jobs_for to_hex root shas in
      let (h0, h1) =
        listed-nil (mismatch fs_read sha1 job) (List.filter_map (mismatch fs_read sha1) jobs)
          (sym (filter_map-cons (mismatch fs_read sha1) job jobs) ∙ h) in
      let (k0, k1) =
        listed-nil (failure fs_read sha1 job) (List.filter_map (failure fs_read sha1) jobs)
          (sym (filter_map-cons (failure fs_read sha1) job jobs) ∙ k) in
      (intact_one sha (join_base root (to_hex sha)) h0 k0, intact shas h1 k1)

  -- What `verify_cache` returns: the report of its threads, which check fewer than 2 ^ 64 files.
  pub record Checked (shas : List ChunkHash) (report : VerifyReport) : Type 0 where
    pub few : length shas < 2 ^ 64
    pub workers : ℕ
    pub moves : ℕ
    pub end_state : Pool VerifyReport
    pub steps : Steps (check_job fs_read sha1) workers (start to_hex root shas) moves end_state
    pub done : IsDone end_state
    pub reported : report ≡ end_state.report

  -- A report without bad chunks is of intact files only.
  pub Checked-Intact :
      (shas : List ChunkHash) (report : VerifyReport)
      → Checked shas report
      → bad_of report ≡ []
      → Intact shas
  Checked-Intact shas report c none_bad =
      let (misses, failures, _, _) =
        verify_cache_lem fs_read sha1 to_hex root shas c.workers c.moves c.end_state c.few c.steps
          c.done in
      let none_bad' : bad_of c.end_state.report ≡ [] = ap bad_of (sym c.reported) ∙ none_bad in
      let (m, e) = append-nil_parts c.end_state.report.mismatched _ none_bad' in
      let e' = map-nil _ c.end_state.report.errored e in
      intact shas
        (sym (
          Perm.nil-eq (
            subst
              (λ l. Perm l (List.filter_map (mismatch fs_read sha1) (jobs_for to_hex root shas))) m
              misses)))
        (sym (
          Perm.nil-eq (
            subst (λ l. Perm l (List.filter_map (failure fs_read sha1) (jobs_for to_hex root shas)))
              e' failures)))

-- One of the files holds the frame that the chunk cache writes for some bytes under the name of their
-- hash, and the frame has another hash than the bytes.
abbrev pub HasFrame :
    Codec → (Text → Option Bytes) → (ChunkHash → Text) → Text → List ChunkHash → Type 0
HasFrame codec fs_read to_hex root [] = ⊥
HasFrame codec fs_read to_hex root (sha ∷ shas) =
    ((plain : Bytes) × (frame : Bytes) × (encode_frame codec plain ≡ ok frame)
      × (sha ≡ codec.sha1 plain)
      × (fs_read (join_base root (to_hex sha)) ≡ some frame)
      × (codec.sha1 frame ≢ codec.sha1 plain))
    ⊎ HasFrame codec fs_read to_hex root shas

pub Intact-no_frame :
    (codec : Codec) (fs_read : Text → Option Bytes) (to_hex : ChunkHash → Text) (root : Text)
    (shas : List ChunkHash)
    → Intact fs_read codec.sha1 to_hex root shas
    → ¬ HasFrame codec fs_read to_hex root shas
Intact-no_frame codec fs_read to_hex root [] h = λ f. f
Intact-no_frame codec fs_read to_hex root (sha ∷ shas) ((bytes, there, same), rest) = λ f. elim f [
  | inr g ↦ Intact-no_frame codec fs_read to_hex root shas rest g
  | inl (plain, frame, _, name, held, other) ↦
      let e : bytes ≡ frame = cc in other (ap codec.sha1 (sym e) ∙ same ∙ name)
]
