-- ===== src/Stats.antt =====
-- crates/steam-depot/src/stats.rs: what the `stats` command counts. The sums do not overflow a `u64`, as
-- the sizes are `u32`. The percentages, which are floats, and the printing are left out.
pub mod Progress
pub mod Scans
mod Tests
use steam_depot_vfs.Prelude.{
  ℕ, ◌+◌, Bool, true, false, List, [], ◌∷◌, ◌++◌, Option, some, none, if◌then◌else◌, length, ◌⊎◌,
  inl, inr, nat_eq, list_eq, ◌==◌,
}
use steam_depot_vfs.Prelude.Maps.{HashMap, lookup, insert}
use steam_depot_vfs.Depot.{Bytes, Text, ChunkHash, Chunk, DepotFile, DepotApi, Manifest}
use steam_depot_vfs.Outcome.{Outcome, ok, err, panicked, ◌>>=◌}
use steam_depot_vfs.Shas.{parse_sha}
use steam_depot_vfs.Prefetch.{contains}

-- The counters of one manifest.
pub record Counters : Type 0 where
  pub total_uncompr : ℕ
  pub total_compr : ℕ
  pub fetched_compr : ℕ
  pub total_chunks : ℕ
  pub fetched_chunks : ℕ
  pub unique : List ChunkHash

abbrev pub no_counts : Counters
no_counts = record {
  total_uncompr = 0;
  total_compr = 0;
  fetched_compr = 0;
  total_chunks = 0;
  fetched_chunks = 0;
  unique = [];
}

-- The counters over all manifests.
pub record Totals : Type 0 where
  pub all_chunks : HashMap ChunkHash ℕ
  pub all_uncompr_per_manifest : ℕ
  pub missing_count : ℕ

abbrev pub no_totals : Totals
no_totals = record { all_chunks = []; all_uncompr_per_manifest = 0; missing_count = 0 }

abbrev pub fetch_if : Bool → ℕ → Counters → Counters
fetch_if true size k = record k {
  fetched_compr = k.fetched_compr + size;
  fetched_chunks = k.fetched_chunks + 1;
}
fetch_if false size k = k

-- The counters of a chunk that was not yet counted.
abbrev pub add_chunk : List ChunkHash → Chunk → Counters → Counters
add_chunk shas c k = fetch_if (contains c.sha shas) c.size_compressed (record k {
  unique = c.sha ∷ k.unique;
  total_uncompr = k.total_uncompr + c.size_uncompressed;
  total_compr = k.total_compr + c.size_compressed;
  total_chunks = k.total_chunks + 1;
})

-- `entry(sha).or_insert(size)`
abbrev pub keep_size : Option ℕ → Chunk → HashMap ChunkHash ℕ → HashMap ChunkHash ℕ
keep_size (some size) c all = all
keep_size none c all = insert c.sha c.size_compressed all

unfoldable pub count_chunk :
    List ChunkHash → Chunk → Counters × HashMap ChunkHash ℕ → Counters × HashMap ChunkHash ℕ
unfolding contains
count_chunk shas c (k, all) =
    if contains c.sha k.unique
    then (k, all)
    else (add_chunk shas c k, keep_size (lookup c.sha all) c all)

unfoldable pub count_chunks :
    List ChunkHash → List Chunk → Counters × HashMap ChunkHash ℕ → Counters × HashMap ChunkHash ℕ
unfolding count_chunk
count_chunks shas [] s = s
count_chunks shas (c ∷ cs) s = count_chunks shas cs (count_chunk shas c s)

module _ (api : DepotApi) where
  unfoldable pub count_files :
      List ChunkHash
      → List DepotFile
      → Counters × HashMap ChunkHash ℕ
      → Counters × HashMap ChunkHash ℕ
  unfolding count_chunks
  count_files shas [] s = s
  count_files shas (f ∷ fs) s = count_files shas fs (count_chunks shas (api.chunks f) s)

  abbrev pub with_counts : Totals → Counters × HashMap ChunkHash ℕ → Counters × Totals
  with_counts t (k, all) = (
    k,
    record t {
      all_chunks = all;
      all_uncompr_per_manifest = t.all_uncompr_per_manifest + k.total_uncompr;
    },
  )

  unfoldable pub count_manifest : List ChunkHash → Manifest → Totals → Counters × Totals
  unfolding count_files
  count_manifest shas m t = with_counts t (count_files shas m.files (no_counts, t.all_chunks))

  -- The loop over the manifests of the configuration: what loading each gave, and the row for it, which
  -- is `none` for a manifest that is not cached.
  unfoldable pub count_all {ℓ} :
      {E : Type ℓ}
      → List ChunkHash
      → List (Outcome E (Option Manifest))
      → Totals
      → Outcome E (List (Option Counters) × Totals)
  unfolding count_manifest
  count_all shas [] t = ok ([], t)
  count_all shas (ok none ∷ rest) t = do
    (rows, last) ← count_all shas rest (record t { missing_count = t.missing_count + 1 })
    ok (none ∷ rows, last)
  count_all shas (ok (some m) ∷ rest) t = do
    (rows, last) ← count_all shas rest (count_manifest shas m t).1
    ok (some (count_manifest shas m t).0 ∷ rows, last)
  count_all shas (err e ∷ rest) t = err e
  count_all shas (panicked ∷ rest) t = panicked

pub record Summary : Type 0 where
  pub all_compr : ℕ
  pub all_fetched : ℕ
  pub all_fetched_chunks : ℕ

-- The last loop, over the chunks of all manifests.
unfoldable pub summarize : List ChunkHash → HashMap ChunkHash ℕ → Summary → Summary
unfolding contains
summarize shas [] s = s
summarize shas ((sha, size) ∷ rest) s =
    let t = record s { all_compr = s.all_compr + size } in
    let fetched = record t {
      all_fetched = t.all_fetched + size;
      all_fetched_chunks = t.all_fetched_chunks + 1;
    } in
    summarize shas rest (if contains sha shas then fetched else t)

pub record CacheScan : Type 0 where
  pub shas : List ChunkHash
  pub bytes : ℕ
  pub count : ℕ

-- What `read_dir` gives, and an entry of it: its name, if it is UTF-8, and the length that
-- `metadata` tells. Errors are numbers.
pub data ReadDir : Type 0 where
  no_such_dir : ReadDir
  dir_error : ℕ → ReadDir
  entries : List (ℕ ⊎ (Option Text × (ℕ ⊎ ℕ))) → ReadDir

-- `HashSet::insert`
abbrev pub insert_sha : ChunkHash → List ChunkHash → List ChunkHash
insert_sha sha shas = if contains sha shas then shas else sha ∷ shas

abbrev pub scan_named : Outcome (Unit {0}) ChunkHash → ℕ ⊎ ℕ → CacheScan → Outcome ℕ CacheScan
scan_named (err _) meta s = ok s
scan_named panicked meta s = panicked
scan_named (ok sha) (inl e) s = err e
scan_named (ok sha) (inr len) s =
    ok (record { shas = insert_sha sha s.shas; bytes = s.bytes + len; count = s.count + 1 })

unfoldable pub scan_entry : Option Text × (ℕ ⊎ ℕ) → CacheScan → Outcome ℕ CacheScan
unfolding parse_sha contains
scan_entry (none, meta) s = ok s
scan_entry (some name, meta) s = scan_named (parse_sha name) meta s

unfoldable pub scan_entries : List (ℕ ⊎ (Option Text × (ℕ ⊎ ℕ))) → CacheScan → Outcome ℕ CacheScan
unfolding scan_entry
scan_entries [] s = ok s
scan_entries (inl e ∷ rest) s = err e
scan_entries (inr entry ∷ rest) s = do t ← scan_entry entry s; scan_entries rest t

unfoldable pub scan_chunks : ReadDir → Outcome ℕ CacheScan
unfolding scan_entries
scan_chunks no_such_dir = ok (record { shas = []; bytes = 0; count = 0 })
scan_chunks (dir_error e) = err e
scan_chunks (entries es) = scan_entries es (record { shas = []; bytes = 0; count = 0 })
