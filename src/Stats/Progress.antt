-- ===== src/Stats/Progress.antt =====
-- The counters of crates/steam-depot/src/stats.rs against the plan of crates/steam-depot/src/prefetch.rs.
use steam_depot_vfs.Prelude.{
  ℕ, ◌+◌, ◌≡◌, refl, sym, ap, subst, ◌∙◌, arith, Bool, true, false, List, [], ◌∷◌, Option, some,
  none, if◌then◌else◌, length, Bool-cases, Option-cases, inl, inr, ◌||◌, nat_eq, list_eq, ◌==◌,
  ==_iff,
}
use steam_depot_vfs.Prelude.Maps.{HashMap, lookup, insert, lookup-insert}
use steam_depot_vfs.Depot.{ChunkHash, Chunk, DepotFile, DepotApi}
use steam_depot_vfs.Prefetch.{
  Plan, empty_plan, contains, skip, or_insert, plan_chunk, plan_chunks, plan_files,
}
use steam_depot_vfs.Prefetch.Choices.{contains-cons, plan_chunk-cached, plan_chunk-new}
use steam_depot_vfs.Stats.{Counters, no_counts, fetch_if, count_chunk, count_chunks, count_files}

-- The sizes of what is to be fetched.
abbrev pub bytes_of : HashMap ChunkHash ℕ → ℕ
bytes_of [] = 0
bytes_of ((sha, size) ∷ m) = size + bytes_of m

length-insert :
    (sha : ChunkHash) (size : ℕ) (m : HashMap ChunkHash ℕ)
    → lookup sha m ≡ none
    → (length (insert sha size m) ≡ length m + 1)
      × (bytes_of (insert sha size m) ≡ bytes_of m + size)
unfolding lookup insert
length-insert sha size [] h = (omega arith, omega arith)
length-insert sha size ((key, old) ∷ m) h = elim (Bool-cases (key == sha)) [
  | inl e ↦ absurd (let q : ◌≡◌ {A = Option ℕ} (some old) none = rw⁻¹ h (rw (e, lookup) refl) in cc)
  | inr e ↦ ground (arith, e, h, length-insert sha size m)
]

abbrev is_some : Option ℕ → Bool
is_some none = false
is_some (some n) = true

-- The two counts agree.
record Agree (cached : List ChunkHash) (p : Plan) (k : Counters) : Type 0 where
  same_set :
      (sha : ChunkHash)
      → contains sha k.unique ≡ (contains sha p.skipped || is_some (lookup sha p.unique))
  skipped_cached : (sha : ChunkHash) → contains sha p.skipped ≡ true → contains sha cached ≡ true
  unique_new :
      (sha : ChunkHash) → is_some (lookup sha p.unique) ≡ true → contains sha cached ≡ false
  bytes : k.total_compr ≡ bytes_of p.unique + p.skipped_bytes
  fetched_bytes : k.fetched_compr ≡ p.skipped_bytes
  chunks : k.total_chunks ≡ length p.unique + length p.skipped
  fetched : k.fetched_chunks ≡ length p.skipped

count_chunk-seen :
    (shas : List ChunkHash) (c : Chunk) (k : Counters) (all : HashMap ChunkHash ℕ)
    → contains c.sha k.unique ≡ true
    → (count_chunk shas c (k, all)).0 ≡ k
count_chunk-seen shas c k all h = unfold count_chunk in rw (h, count_chunk) refl

count_chunk-new :
    (shas : List ChunkHash) (c : Chunk) (k : Counters) (all : HashMap ChunkHash ℕ) (fetched : Bool)
    → contains c.sha k.unique ≡ false
    → contains c.sha shas ≡ fetched
    → (count_chunk shas c (k, all)).0
      ≡ fetch_if fetched c.size_compressed (record k {
        unique = c.sha ∷ k.unique;
        total_uncompr = k.total_uncompr + c.size_uncompressed;
        total_compr = k.total_compr + c.size_compressed;
        total_chunks = k.total_chunks + 1;
      })
count_chunk-new shas c k all fetched h e = unfold count_chunk in rw (h, e, count_chunk) refl

skip-seen : (c : Chunk) (p : Plan) → contains c.sha p.skipped ≡ true → skip c p ≡ p
skip-seen c p h = rw (h, skip) refl

skip-new :
    (c : Chunk) (p : Plan)
    → contains c.sha p.skipped ≡ false
    → skip c p ≡ record p {
      skipped = c.sha ∷ p.skipped;
      skipped_bytes = p.skipped_bytes + c.size_compressed;
    }
skip-new c p h = rw (h, skip) refl

or_assoc : (b s u : Bool) → (b || (s || u)) ≡ ((b || s) || u)
or_assoc true s u = refl
or_assoc false s u = refl

or_right : (b x : Bool) → b ≡ false → (b || x) ≡ true → x ≡ true
or_right true x e h = absurd cc
or_right false x e h = h

or_inserted :
    (b s : Bool) (o : Option ℕ) (size : ℕ)
    → (b || (s || is_some o)) ≡ (s || is_some (if b then some size else o))
or_inserted true true o size = refl
or_inserted true false o size = refl
or_inserted false s o size = refl

not_inserted :
    (b : Bool) (o : Option ℕ) (size : ℕ)
    → b ≡ false
    → is_some (if b then some size else o) ≡ true
    → is_some o ≡ true
not_inserted true o size e h = absurd cc
not_inserted false o size e h = h

same_sha :
    (a b : ChunkHash) (cached : List ChunkHash) (v : Bool)
    → (a == b) ≡ true
    → contains a cached ≡ v
    → contains b cached ≡ v
same_sha a b cached v e h = ap (λ x. contains x cached) (sym ((==_iff a b).0 e)) ∙ h

module _ (cached : List ChunkHash) (c : Chunk) (p : Plan) (k : Counters) (all : HashMap ChunkHash ℕ)
    (a : Agree cached p k) where
  abbrev Next : Type 0
  Next = Agree cached (plan_chunk cached c p) (count_chunk cached c (k, all)).0

  to_next :
      (q : Plan) (l : Counters)
      → plan_chunk cached c p ≡ q
      → (count_chunk cached c (k, all)).0 ≡ l
      → Agree cached q l
      → Next
  to_next q l e f b =
      subst (λ x. Agree cached x (count_chunk cached c (k, all)).0) (sym e)
        (subst (λ x. Agree cached q x) (sym f) b)

  seen_skipped : contains c.sha cached ≡ true → contains c.sha p.skipped ≡ true → Next
  seen_skipped here seen =
      to_next p k (plan_chunk-cached cached c p here ∙ skip-seen c p seen)
        (count_chunk-seen cached c k all (a.same_set c.sha ∙ rw seen refl)) a

  seen_unique : (n : ℕ) → contains c.sha cached ≡ false → lookup c.sha p.unique ≡ some n → Next
  seen_unique n away seen =
      to_next p k (plan_chunk-new cached c p away ∙ ap (λ o. or_insert o c p) seen)
        (count_chunk-seen cached c k all (a.same_set c.sha ∙ rw seen (ground arith))) a

  not_unique : contains c.sha cached ≡ true → is_some (lookup c.sha p.unique) ≡ false
  not_unique here = elim (Bool-cases (is_some (lookup c.sha p.unique))) [
    | inl e ↦ absurd (let f = a.unique_new c.sha e in cc)
    | inr e ↦ e
  ]

  not_skipped : contains c.sha cached ≡ false → contains c.sha p.skipped ≡ false
  not_skipped away = elim (Bool-cases (contains c.sha p.skipped)) [
    | inl e ↦ absurd (let f = a.skipped_cached c.sha e in cc)
    | inr e ↦ e
  ]

  new_skipped : contains c.sha cached ≡ true → contains c.sha p.skipped ≡ false → Next
  new_skipped here new =
      to_next _ _ (plan_chunk-cached cached c p here ∙ skip-new c p new)
        (count_chunk-new cached c k all true (a.same_set c.sha ∙ rw (new, not_unique here) refl)
          here)
        (record {
          same_set = λ sha.
              contains-cons sha c.sha k.unique
              ∙ ap (λ x. (c.sha == sha) || x) (a.same_set sha)
              ∙ or_assoc (c.sha == sha) (contains sha p.skipped) (is_some (lookup sha p.unique))
              ∙ ap (λ x. x || is_some (lookup sha p.unique))
                  (sym (contains-cons sha c.sha p.skipped));
          skipped_cached = λ sha h. elim (Bool-cases (c.sha == sha)) [
            | inl e ↦ same_sha c.sha sha cached true e here
            | inr e ↦ a.skipped_cached sha (
                or_right (c.sha == sha) (contains sha p.skipped) e
                  (sym (contains-cons sha c.sha p.skipped) ∙ h))
          ];
          unique_new = a.unique_new;
          bytes = omega (arith, a.bytes);
          fetched_bytes = omega (arith, a.fetched_bytes);
          chunks = omega (arith, a.chunks);
          fetched = omega (arith, a.fetched);
        })

  new_unique : contains c.sha cached ≡ false → lookup c.sha p.unique ≡ none → Next
  new_unique away new =
      let (more, sum) = length-insert c.sha c.size_compressed p.unique new in
      to_next _ _ (plan_chunk-new cached c p away ∙ ap (λ o. or_insert o c p) new)
        (count_chunk-new cached c k all false (a.same_set c.sha ∙ rw (not_skipped away, new) refl)
          away)
        (record {
          same_set = λ sha.
              contains-cons sha c.sha k.unique
              ∙ ap (λ x. (c.sha == sha) || x) (a.same_set sha)
              ∙ or_inserted (c.sha == sha) (contains sha p.skipped) (lookup sha p.unique)
                  c.size_compressed
              ∙ ap (λ o. contains sha p.skipped || is_some o)
                  (sym (lookup-insert c.sha sha c.size_compressed p.unique));
          skipped_cached = a.skipped_cached;
          unique_new = λ sha h. elim (Bool-cases (c.sha == sha)) [
            | inl e ↦ same_sha c.sha sha cached false e away
            | inr e ↦ a.unique_new sha (
                not_inserted (c.sha == sha) (lookup sha p.unique) c.size_compressed e (
                  ap (λ o. is_some o) (sym (lookup-insert c.sha sha c.size_compressed p.unique))
                  ∙ h))
          ];
          bytes = omega (arith, a.bytes, sum);
          fetched_bytes = a.fetched_bytes;
          chunks = omega (arith, a.chunks, more);
          fetched = a.fetched;
        })

  count_chunk-Agree : Next
  count_chunk-Agree = elim (Bool-cases (contains c.sha cached)) [
    | inl here ↦ elim (Bool-cases (contains c.sha p.skipped)) [
      | inl seen ↦ seen_skipped here seen
      | inr new ↦ new_skipped here new
    ]
    | inr away ↦ elim (Option-cases (lookup c.sha p.unique)) [
      | inl new ↦ new_unique away new
      | inr (n, seen) ↦ seen_unique n away seen
    ]
  ]

count_chunks-Agree :
    (cached : List ChunkHash) (cs : List Chunk) (p : Plan) (s : Counters × HashMap ChunkHash ℕ)
    → Agree cached p s.0
    → Agree cached (plan_chunks cached cs p) (count_chunks cached cs s).0
unfolding plan_chunks count_chunks
count_chunks-Agree cached [] p s a = a
count_chunks-Agree cached (c ∷ cs) p (k, all) a =
    count_chunks-Agree cached cs (plan_chunk cached c p) (count_chunk cached c (k, all))
      (count_chunk-Agree cached c p k all a)

count_files-Agree :
    (api : DepotApi) (cached : List ChunkHash) (fs : List DepotFile) (p : Plan)
    (s : Counters × HashMap ChunkHash ℕ)
    → Agree cached p s.0
    → Agree cached (plan_files api cached fs p) (count_files api cached fs s).0
unfolding plan_files count_files
count_files-Agree api cached [] p s a = a
count_files-Agree api cached (f ∷ fs) p s a =
    count_files-Agree api cached fs (plan_chunks cached (api.chunks f) p)
      (count_chunks cached (api.chunks f) s) (count_chunks-Agree cached (api.chunks f) p s a)

none_yet : (cached : List ChunkHash) → Agree cached empty_plan no_counts
unfolding contains lookup
none_yet cached = record {
  same_set = λ sha. refl;
  skipped_cached = λ sha h. absurd cc;
  unique_new = λ sha h. absurd cc;
  bytes = refl;
  fetched_bytes = refl;
  chunks = refl;
  fetched = refl;
}

-- For the same manifest and the same chunks on disk, `stats` and `prefetch` count alike: what `stats`
-- shows as fetched is what `prefetch` skips, in chunks and in compressed bytes, and what is left of
-- the totals of `stats` is what `prefetch` goes on to fetch.
pub stats_agrees :
    (api : DepotApi) (cached : List ChunkHash) (files : List DepotFile) (all : HashMap ChunkHash ℕ)
    → let plan = plan_files api cached files empty_plan in
      let k = (count_files api cached files (no_counts, all)).0 in
      (k.fetched_compr ≡ plan.skipped_bytes)
      × (k.fetched_chunks ≡ length plan.skipped)
      × (k.total_compr ≡ bytes_of plan.unique + plan.skipped_bytes)
      × (k.total_chunks ≡ length plan.unique + length plan.skipped)
stats_agrees api cached files all =
    let a = count_files-Agree api cached files empty_plan (no_counts, all) (none_yet cached) in
    (a.fetched_bytes, a.fetched, a.bytes, a.chunks)
