-- ===== src/Prefetch/Selection.antt =====
-- What `prefetch_snapshot` of crates/steam-depot/src/prefetch.rs decides to fetch.
use steam_depot_vfs.Prelude.{
  ℕ, ◌≡◌, refl, sym, ◌∙◌, arith, Bool, true, false, not, ◌&&◌, ◌||◌, List, [], ◌∷◌, ◌++◌, Option,
  some, none, if◌then◌else◌, ap, ◌==◌, nat_eq, list_eq,
}
use steam_depot_vfs.Prelude.Maps.{lookup}
use steam_depot_vfs.Depot.{ChunkHash, Chunk, DepotFile, DepotApi}
use steam_depot_vfs.Prefetch.{Plan, empty_plan, contains, plan_chunk, plan_chunks, plan_files}
use steam_depot_vfs.Prefetch.Choices.{size_of, is_some, or_else, or_else-none, plan_chunk-Added}

abbrev pub all_chunks : DepotApi → List DepotFile → List Chunk
all_chunks api [] = []
all_chunks api (f ∷ fs) = api.chunks f ++ all_chunks api fs

abbrev first_size : List ChunkHash → ChunkHash → List Chunk → Option ℕ
first_size cached sha cs = if contains sha cached then none else size_of sha cs

-- What a list of chunks adds.
record AllAdded (cached : List ChunkHash) (sha : ChunkHash) (cs : List Chunk) (p q : Plan)
    : Type 0 where
  to_skipped :
      contains sha q.skipped
      ≡ (contains sha p.skipped || (is_some (size_of sha cs) && contains sha cached))
  to_unique : lookup sha q.unique ≡ or_else (lookup sha p.unique) (first_size cached sha cs)

skipped_next :
    (x b k : Bool) (s : ℕ) (o : Option ℕ)
    → ((x || (b && k)) || (is_some o && k)) ≡ (x || (is_some (if b then some s else o) && k))
skipped_next x true k s none = ground arith
skipped_next x true k s (some n) = ground arith
skipped_next x false k s none = ground arith
skipped_next x false k s (some n) = ground arith

unique_next :
    (o r : Option ℕ) (b k : Bool) (s : ℕ)
    → or_else (or_else o (if b && not k then some s else none)) (if k then none else r)
      ≡ or_else o (if k then none else (if b then some s else r))
unique_next (some n) r b k s = refl
unique_next none r true true s = refl
unique_next none r true false s = refl
unique_next none r false k s = refl

none_added : (o : Option ℕ) (k : Bool) → o ≡ or_else o (if k then none else none)
none_added o true = or_else-none o
none_added o false = or_else-none o

plan_chunks-Added :
    (cached : List ChunkHash) (sha : ChunkHash) (cs : List Chunk) (p : Plan)
    → AllAdded cached sha cs p (plan_chunks cached cs p)
unfolding plan_chunks
plan_chunks-Added cached sha [] p = record {
  to_skipped = ground arith;
  to_unique = none_added (lookup sha p.unique) (contains sha cached);
}
plan_chunks-Added cached sha (c ∷ cs) p =
    let one = plan_chunk-Added cached sha c p in
    let rest = plan_chunks-Added cached sha cs (plan_chunk cached c p) in
    record {
      to_skipped =
          rest.to_skipped
          ∙ ap (λ x. x || (is_some (size_of sha cs) && contains sha cached)) one.to_skipped
          ∙ skipped_next (contains sha p.skipped) (c.sha == sha) (contains sha cached)
              c.size_compressed (size_of sha cs);
      to_unique =
          rest.to_unique
          ∙ ap (λ o. or_else o (first_size cached sha cs)) one.to_unique
          ∙ unique_next (lookup sha p.unique) (size_of sha cs) (c.sha == sha) (contains sha cached)
              c.size_compressed;
    }

pub plan_chunks-append :
    (cached : List ChunkHash) (xs ys : List Chunk) (p : Plan)
    → plan_chunks cached (xs ++ ys) p ≡ plan_chunks cached ys (plan_chunks cached xs p)
unfolding plan_chunks
plan_chunks-append cached [] ys p = refl
plan_chunks-append cached (x ∷ xs) ys p = plan_chunks-append cached xs ys (plan_chunk cached x p)

pub plan_files-flat :
    (api : DepotApi) (cached : List ChunkHash) (files : List DepotFile) (p : Plan)
    → plan_files api cached files p ≡ plan_chunks cached (all_chunks api files) p
unfolding plan_files plan_chunks
plan_files-flat api cached [] p = refl
plan_files-flat api cached (f ∷ fs) p =
    plan_files-flat api cached fs (plan_chunks cached (api.chunks f) p)
    ∙ sym (plan_chunks-append cached (api.chunks f) (all_chunks api fs) p)

-- What a manifest's prefetch fetches: a hash is to be fetched exactly when a chunk of the manifest has
-- it and the cache does not, with the compressed size of the first such chunk; and it counts as
-- skipped exactly when a chunk of the manifest has it and the cache does too.
pub plan_files_lem :
    (api : DepotApi) (cached : List ChunkHash) (files : List DepotFile) (sha : ChunkHash)
    → let plan = plan_files api cached files empty_plan in
      (lookup sha plan.unique
        ≡ (if contains sha cached then none else size_of sha (all_chunks api files)))
      × (contains sha plan.skipped
          ≡ (is_some (size_of sha (all_chunks api files)) && contains sha cached))
plan_files_lem api cached files sha =
    let flat = plan_files-flat api cached files empty_plan in
    let all = plan_chunks-Added cached sha (all_chunks api files) empty_plan in
    (
      ap (λ (p : Plan). lookup sha p.unique) flat ∙ unfold lookup in all.to_unique,
      ap (λ (p : Plan). contains sha p.skipped) flat ∙ unfold contains in all.to_skipped,
    )
