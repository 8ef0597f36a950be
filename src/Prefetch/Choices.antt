-- ===== src/Prefetch/Choices.antt =====
-- What one chunk adds to the plan of `prefetch_snapshot` of crates/steam-depot/src/prefetch.rs.
use steam_depot_vfs.Prelude.{
  ℕ, ◌+◌, ◌≡◌, refl, sym, subst, ◌∙◌, arith, Bool, true, false, not, ◌&&◌, ◌||◌, List, [], ◌∷◌,
  Option, some, none, if◌then◌else◌, Bool-cases, inl, inr, ap, ◌==◌, ==_iff, nat_eq, list_eq,
}
use steam_depot_vfs.Prelude.Maps.{HashMap, lookup, lookup-insert}
use steam_depot_vfs.Depot.{ChunkHash, Chunk}
use steam_depot_vfs.Prefetch.{Plan, contains, skip, or_insert, plan_chunk}

-- The compressed size of the first chunk of a hash.
abbrev pub size_of : ChunkHash → List Chunk → Option ℕ
size_of sha [] = none
size_of sha (c ∷ cs) = if c.sha == sha then some c.size_compressed else size_of sha cs

abbrev pub is_some {ℓ} : {A : Type ℓ} → Option A → Bool
is_some none = false
is_some (some a) = true

abbrev pub or_else {ℓ} : {A : Type ℓ} → Option A → Option A → Option A
or_else (some a) b = some a
or_else none b = b

skip-unique : (c : Chunk) (p : Plan) → (skip c p).unique ≡ p.unique
skip-unique c p = elim (Bool-cases (contains c.sha p.skipped)) [
  | inl there ↦ rw (there, skip) refl
  | inr new ↦ rw (new, skip) refl
]

pub contains-cons :
    (sha x : ChunkHash) (xs : List ChunkHash)
    → contains sha (x ∷ xs) ≡ ((x == sha) || contains sha xs)
contains-cons sha x xs = unfold contains in ground arith

skip-skipped :
    (sha : ChunkHash) (c : Chunk) (p : Plan)
    → contains sha (skip c p).skipped ≡ (contains sha p.skipped || (c.sha == sha))
skip-skipped sha c p = elim (Bool-cases (contains c.sha p.skipped)) [
  | inl there ↦
      ap (λ (q : Plan). contains sha q.skipped) (same there)
      ∙ ground (arith, there, (list_eq {K = ℕ}).beq_iff c.sha sha)
  | inr new ↦
      ap (λ (q : Plan). contains sha q.skipped) (added new)
      ∙ contains-cons sha c.sha p.skipped
      ∙ ground arith
]
  where
    same : contains c.sha p.skipped ≡ true → skip c p ≡ p
    same there = rw (there, skip) refl

    added :
        contains c.sha p.skipped ≡ false
        → skip c p ≡ record p {
          skipped = c.sha ∷ p.skipped;
          skipped_bytes = p.skipped_bytes + c.size_compressed;
        }
    added new = rw (new, skip) refl

or_insert-skipped : (o : Option ℕ) (c : Chunk) (p : Plan) → (or_insert o c p).skipped ≡ p.skipped
or_insert-skipped none c p = refl
or_insert-skipped (some n) c p = refl

inserted :
    (b : Bool) (o : Option ℕ) (size : ℕ)
    → (b ≡ true → o ≡ none)
    → (if b then some size else o) ≡ or_else o (if b then some size else none)
inserted true o size h = rw (h refl) refl
inserted false none size h = refl
inserted false (some n) size h = refl

kept :
    (b : Bool) (o : Option ℕ) (n size : ℕ)
    → (b ≡ true → o ≡ some n)
    → o ≡ or_else o (if b then some size else none)
kept true o n size h = rw (h refl) refl
kept false none n size h = refl
kept false (some m) n size h = refl

lookup-same :
    (sha : ChunkHash) (c : Chunk) (u : HashMap ChunkHash ℕ)
    → (c.sha == sha) ≡ true
    → lookup sha u ≡ lookup c.sha u
lookup-same sha c u h = ap (λ k. lookup k u) (sym ((==_iff c.sha sha).0 h))

or_insert-unique :
    (sha : ChunkHash) (o : Option ℕ) (c : Chunk) (p : Plan)
    → lookup c.sha p.unique ≡ o
    → lookup sha (or_insert o c p).unique
      ≡ or_else (lookup sha p.unique) (if c.sha == sha then some c.size_compressed else none)
or_insert-unique sha none c p h =
    lookup-insert c.sha sha c.size_compressed p.unique
    ∙ inserted (c.sha == sha) (lookup sha p.unique) c.size_compressed
        (λ b. lookup-same sha c p.unique b ∙ h)
or_insert-unique sha (some n) c p h =
    kept (c.sha == sha) (lookup sha p.unique) n c.size_compressed
      (λ b. lookup-same sha c p.unique b ∙ h)

-- What one chunk adds to the two sets.
pub record Added (cached : List ChunkHash) (sha : ChunkHash) (c : Chunk) (p q : Plan) : Type 0 where
  pub to_skipped :
      contains sha q.skipped ≡ (contains sha p.skipped || ((c.sha == sha) && contains sha cached))
  pub to_unique :
      lookup sha q.unique
      ≡ or_else
          (lookup sha p.unique)
          (if (c.sha == sha) && not (contains sha cached) then some c.size_compressed else none)

pub plan_chunk-cached :
    (cached : List ChunkHash) (c : Chunk) (p : Plan)
    → contains c.sha cached ≡ true
    → plan_chunk cached c p ≡ skip c p
plan_chunk-cached cached c p h = unfold plan_chunk in rw (h, plan_chunk) refl

pub plan_chunk-new :
    (cached : List ChunkHash) (c : Chunk) (p : Plan)
    → contains c.sha cached ≡ false
    → plan_chunk cached c p ≡ or_insert (lookup c.sha p.unique) c p
plan_chunk-new cached c p h = unfold plan_chunk in rw (h, plan_chunk) refl

pub same_contains :
    (sha : ChunkHash) (c : Chunk) (xs : List ChunkHash)
    → (c.sha == sha) ≡ true
    → contains sha xs ≡ contains c.sha xs
same_contains sha c xs h = ap (λ k. contains k xs) (sym ((==_iff c.sha sha).0 h))

pub or_else-none : (o : Option ℕ) → o ≡ or_else o none
or_else-none none = refl
or_else-none (some n) = refl

both : (x b k : Bool) → (b ≡ true → k ≡ true) → (x || b) ≡ (x || (b && k))
both x true k h = rw (h refl) refl
both x false k h = refl

neither : (x b k : Bool) → (b ≡ true → k ≡ false) → x ≡ (x || (b && k))
neither x true k h = rw (h refl) (ground arith)
neither x false k h = ground arith

not_taken :
    (o e : Option ℕ) (b k : Bool)
    → (b ≡ true → k ≡ true)
    → o ≡ or_else o (if b && not k then e else none)
not_taken o e true k h = rw (h refl) (or_else-none o)
not_taken o e false k h = or_else-none o

taken :
    (o e : Option ℕ) (b k : Bool)
    → (b ≡ true → k ≡ false)
    → or_else o (if b then e else none) ≡ or_else o (if b && not k then e else none)
taken o e true k h = rw (h refl) refl
taken o e false k h = refl

pub plan_chunk-Added :
    (cached : List ChunkHash) (sha : ChunkHash) (c : Chunk) (p : Plan)
    → Added cached sha c p (plan_chunk cached c p)
plan_chunk-Added cached sha c p = elim (Bool-cases (contains c.sha cached)) [
  | inl there ↦
      subst (λ q. Added cached sha c p q) (sym (plan_chunk-cached cached c p there))
        (record {
          to_skipped =
              skip-skipped sha c p
              ∙ both (contains sha p.skipped) (c.sha == sha) (contains sha cached)
                  (λ b. same_contains sha c cached b ∙ there);
          to_unique =
              ap (λ u. lookup sha u) (skip-unique c p)
              ∙ not_taken (lookup sha p.unique) (some c.size_compressed) (c.sha == sha)
                  (contains sha cached) (λ b. same_contains sha c cached b ∙ there);
        })
  | inr new ↦
      subst (λ q. Added cached sha c p q) (sym (plan_chunk-new cached c p new))
        (record {
          to_skipped =
              ap (λ l. contains sha l) (or_insert-skipped (lookup c.sha p.unique) c p)
              ∙ neither (contains sha p.skipped) (c.sha == sha) (contains sha cached)
                  (λ b. same_contains sha c cached b ∙ new);
          to_unique =
              or_insert-unique sha (lookup c.sha p.unique) c p refl
              ∙ taken (lookup sha p.unique) (some c.size_compressed) (c.sha == sha)
                  (contains sha cached) (λ b. same_contains sha c cached b ∙ new);
        })
]
