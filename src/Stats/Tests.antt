-- ===== src/Stats/Tests.antt =====
-- Runs of crates/steam-depot/src/stats.rs.
use steam_depot_vfs.Prelude.{
  ℕ, zero, suc, ◌+◌, ◌≡◌, arith, refl, true, false, List, [], ◌∷◌, map, some, none, length, inl,
  inr, nat_eq, list_eq,
}
use steam_depot_vfs.Depot.{Chunk, DepotFile, DepotApi, ChunkHash, regular, file}
use steam_depot_vfs.Outcome.{ok}
use steam_depot_vfs.Shas.Names.{AreBytes}
use steam_depot_vfs.Prefetch.{contains, empty_plan, plan_files}
use steam_depot_vfs.Stats.{CacheScan, entries, scan_chunks, no_counts, count_files}
use steam_depot_vfs.Stats.Progress.{bytes_of, stats_agrees}
use steam_depot_vfs.Stats.Scans.{
  Found, chunk_file, stray, shown, listed, number, total, scan_chunks_lem,
}

abbrev repeated : ℕ → List ℕ
repeated zero = []
repeated (suc n) = 7 ∷ repeated n

repeated-AreBytes : (n : ℕ) → AreBytes (repeated n)
repeated-AreBytes zero = tt
repeated-AreBytes (suc n) = (omega arith, repeated-AreBytes n)

-- A chunk's file, a temporary file and one whose name is not UTF-8.
abbrev found : List Found
found =
    chunk_file (repeated 20) 100
    ∷ stray (some (b'x' ∷ b'.' ∷ b't' ∷ [])) (inr 5)
    ∷ stray none (inl 3)
    ∷ []

scan_chunks_example :
    (scan : CacheScan) × (scan_chunks (entries (map shown found)) ≡ ok scan)
    × (scan.count ≡ number found)
    × (scan.bytes ≡ total found)
    × ((sha : ChunkHash) → contains sha scan.shas ≡ listed sha found)
scan_chunks_example =
    scan_chunks_lem found
      (((repeated-AreBytes 20), refl), ((λ e. absurd (omega (arith, e))), (tt, tt)))

abbrev chunk_of : ℕ → ℕ → Chunk
chunk_of sha size = record {
  sha = sha ∷ [];
  crc = 0;
  offset = 0;
  size_uncompressed = 9;
  size_compressed = size;
}

abbrev test_api : DepotApi
test_api = record {
  file_type = λ f. file;
  is_file = λ f. true;
  executable = λ f. false;
  linktarget = λ f. none;
  chunks = λ f. elim f.kind [ regular sha executable chunks ↦ chunks | _ ↦ [] ];
}

abbrev one_file : List DepotFile
one_file =
    record {
      path = [];
      size = 0;
      kind = regular [] false (chunk_of 1 10 ∷ chunk_of 2 20 ∷ chunk_of 1 10 ∷ []);
    }
    ∷ []

stats_agrees_example :
    let plan = plan_files test_api ((2 ∷ []) ∷ []) one_file empty_plan in
    let k = (count_files test_api ((2 ∷ []) ∷ []) one_file (no_counts, [])).0 in
    (k.fetched_compr ≡ plan.skipped_bytes)
    × (k.fetched_chunks ≡ length plan.skipped)
    × (k.total_compr ≡ bytes_of plan.unique + plan.skipped_bytes)
    × (k.total_chunks ≡ length plan.unique + length plan.skipped)
stats_agrees_example = stats_agrees test_api ((2 ∷ []) ∷ []) one_file []
