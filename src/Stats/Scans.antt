-- ===== src/Stats/Scans.antt =====
-- What `scan_chunks` of crates/steam-depot/src/stats.rs counts in the directory of the chunk cache.
use steam_depot_vfs.Prelude.{
  ℕ, ◌+◌, ◌≡◌, ◌≢◌, refl, sym, ap, ◌∙◌, arith, Bool, true, false, List, [], ◌∷◌, map, Option, some,
  none, length, Bool-cases, ◌⊎◌, inl, inr, ◌||◌, nat_eq, list_eq, ◌==◌, ==_iff,
}
use steam_depot_vfs.Depot.{Text, ChunkHash}
use steam_depot_vfs.Outcome.{ok, err, ◌>>=◌}
use steam_depot_vfs.Shas.{parse_sha}
use steam_depot_vfs.Shas.Names.{hex_name, AreBytes, parse_sha-hex_name}
use steam_depot_vfs.Prefetch.{contains}
use steam_depot_vfs.Prefetch.Choices.{contains-cons}
use steam_depot_vfs.Stats.{
  CacheScan, entries, insert_sha, scan_named, scan_entry, scan_entries, scan_chunks,
}

-- A file in the directory: a chunk's with its length, or another one, whose name may not be UTF-8.
pub data Found : Type 0 where
  chunk_file : (sha : ChunkHash) (len : ℕ) → Found
  stray : (name : Option Text) (meta : ℕ ⊎ ℕ) → Found

abbrev pub shown : Found → ℕ ⊎ (Option Text × (ℕ ⊎ ℕ))
shown (chunk_file sha len) = inr (some (hex_name sha), inr len)
shown (stray name meta) = inr (name, meta)

-- Hashes have twenty bytes, and the names of strays are not forty bytes long.
abbrev pub IsFound : Found → Type 0
IsFound (chunk_file sha len) = AreBytes sha × (length sha ≡ 20)
IsFound (stray none meta) = Unit
IsFound (stray (some name) meta) = length name ≢ 40

abbrev pub AreFound : List Found → Type 0
AreFound [] = Unit
AreFound (f ∷ fs) = IsFound f × AreFound fs

abbrev pub listed : ChunkHash → List Found → Bool
listed sha [] = false
listed sha (chunk_file x len ∷ fs) = (x == sha) || listed sha fs
listed sha (stray name meta ∷ fs) = listed sha fs

abbrev pub number : List Found → ℕ
number [] = 0
number (chunk_file x len ∷ fs) = 1 + number fs
number (stray name meta ∷ fs) = number fs

abbrev pub total : List Found → ℕ
total [] = 0
total (chunk_file x len ∷ fs) = len + total fs
total (stray name meta ∷ fs) = total fs

record Scanned (fs : List Found) (s t : CacheScan) : Type 0 where
  same_count : t.count ≡ s.count + number fs
  same_bytes : t.bytes ≡ s.bytes + total fs
  same_shas : (sha : ChunkHash) → contains sha t.shas ≡ (contains sha s.shas || listed sha fs)

contains-insert_sha :
    (sha x : ChunkHash) (shas : List ChunkHash)
    → contains sha (insert_sha x shas) ≡ (contains sha shas || (x == sha))
contains-insert_sha sha x shas = elim (Bool-cases (contains x shas)) [
  | inl there ↦
      ap (λ l. contains sha l) (rw (there, insert_sha) refl) ∙ already (Bool-cases (x == sha)) there
  | inr new ↦
      ap (λ l. contains sha l) (rw (new, insert_sha) refl) ∙ contains-cons sha x shas ∙ ground arith
]
  where
    already :
        ((x == sha) ≡ true) ⊎ ((x == sha) ≡ false)
        → contains x shas ≡ true
        → contains sha shas ≡ (contains sha shas || (x == sha))
    already (inl e) there =
        let found : contains sha shas ≡ true =
          ap (λ k. contains k shas) (sym ((==_iff x sha).0 e)) ∙ there in
        rw found refl
    already (inr e) there = rw e (ground arith)

entry_of_chunk :
    (sha : ChunkHash) (len : ℕ) (s : CacheScan)
    → IsFound (chunk_file sha len)
    → scan_entry (some (hex_name sha), inr len) s
      ≡ ok (record { shas = insert_sha sha s.shas; bytes = s.bytes + len; count = s.count + 1 })
entry_of_chunk sha len s (bytes, twenty) =
    unfold scan_entry in
    ap (λ p. scan_named p (inr len) s) ((parse_sha-hex_name sha [] bytes twenty).0)

parse_sha-other : (name : Text) → length name ≢ 40 → parse_sha name ≡ err tt
parse_sha-other name other =
    let e : (length name == 40) ≡ false = ground (arith, other) in unfold parse_sha in rw e refl

entry_of_stray :
    (name : Option Text) (meta : ℕ ⊎ ℕ) (s : CacheScan)
    → IsFound (stray name meta)
    → scan_entry (name, meta) s ≡ ok s
entry_of_stray none meta s h = unfold scan_entry in refl
entry_of_stray (some name) meta s h =
    unfold scan_entry in ap (λ p. scan_named p meta s) (parse_sha-other name h)

or_assoc : (a b c : Bool) → ((a || b) || c) ≡ (a || (b || c))
or_assoc true b c = refl
or_assoc false b c = refl

scan_entries-Scanned :
    (fs : List Found) (s : CacheScan)
    → AreFound fs
    → (t : CacheScan) × (scan_entries (map shown fs) s ≡ ok t) × Scanned fs s t
unfolding scan_entries
scan_entries-Scanned [] s h = (
  s,
  refl,
  record { same_count = omega arith; same_bytes = omega arith; same_shas = λ sha. ground arith },
)
scan_entries-Scanned (chunk_file x len ∷ fs) s h =
    let u : CacheScan = record {
      shas = insert_sha x s.shas;
      bytes = s.bytes + len;
      count = s.count + 1;
    } in
    let (t, e, rest) = scan_entries-Scanned fs u h.1 in
    (
      t,
      ap (λ o. o >>= λ v. scan_entries (map shown fs) v) (entry_of_chunk x len s h.0) ∙ e,
      record {
        same_count = omega (arith, rest.same_count);
        same_bytes = omega (arith, rest.same_bytes);
        same_shas = λ sha.
            rest.same_shas sha
            ∙ ap (λ b. b || listed sha fs) (contains-insert_sha sha x s.shas)
            ∙ or_assoc (contains sha s.shas) (x == sha) (listed sha fs);
      },
    )
scan_entries-Scanned (stray name meta ∷ fs) s h =
    let (t, e, rest) = scan_entries-Scanned fs s h.1 in
    (
      t,
      ap (λ o. o >>= λ v. scan_entries (map shown fs) v) (entry_of_stray name meta s h.0) ∙ e,
      record {
        same_count = rest.same_count;
        same_bytes = rest.same_bytes;
        same_shas = rest.same_shas;
      },
    )

-- In a directory where every chunk's file can be asked for its length, and the names of the other
-- files do not have forty bytes, the scan succeeds: it has the hashes of exactly the chunk files, their
-- number and their bytes.
pub scan_chunks_lem :
    (fs : List Found)
    → AreFound fs
    → (scan : CacheScan) × (scan_chunks (entries (map shown fs)) ≡ ok scan)
      × (scan.count ≡ number fs)
      × (scan.bytes ≡ total fs)
      × ((sha : ChunkHash) → contains sha scan.shas ≡ listed sha fs)
scan_chunks_lem fs h =
    let (t, e, s) = scan_entries-Scanned fs (record { shas = []; bytes = 0; count = 0 }) h in
    (
      t,
      unfold scan_chunks in e,
      omega (arith, s.same_count),
      omega (arith, s.same_bytes),
      λ sha. s.same_shas sha ∙ unfold contains in refl,
    )
