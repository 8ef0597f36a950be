-- ===== src/Cdn/Chunks.antt =====
-- The chunk index of crates/steam-depot-vfs/src/chunk_store/cdn.rs, and which hashes `get` refuses.
use steam_depot_vfs.Prelude.{
  ℕ, ◌≡◌, ◌≢◌, ◌⊎◌, refl, sym, ap, ◌∙◌, subst, List, [], ◌∷◌, some, none, inl, inr, Bool-cases,
  Option-cases, ◌==◌, ==_iff, nat_eq, list_eq,
}
use steam_depot_vfs.Prelude.Maps.{HashMap, lookup, insert, lookup-insert, lookup-insert_self}
use mathlib.Core.Option.{some-injective}
use steam_depot_vfs.Depot.{Chunk, ChunkHash, DepotFile, DepotApi, Manifest}
use steam_depot_vfs.Outcome.{err}
use steam_depot_vfs.ChunkStore.{chunk_not_in_manifest}
use steam_depot_vfs.Fs.Read.Layout.{HasSha}
use steam_depot_vfs.Cdn.{Network, or_insert, keep_first, index_chunks, index_files, new, get}

abbrev Index : Type 0
Index = HashMap ChunkHash Chunk

-- The index has, for each hash, a chunk of that hash.
abbrev Named : Index → Type 0
Named m = (k : ChunkHash) (c : Chunk) → lookup k m ≡ some c → c.sha ≡ k

keep_new : (c : Chunk) (m : Index) → lookup c.sha m ≡ none → keep_first c m ≡ insert c.sha c m
keep_new c m e = ap (λ o. or_insert o c m) e

keep_old : (c d : Chunk) (m : Index) → lookup c.sha m ≡ some d → keep_first c m ≡ m
keep_old c d m e = ap (λ o. or_insert o c m) e

-- What `keep_first` does to a hash.
keep_first-cases :
    (c : Chunk) (m : Index) (k : ChunkHash)
    → (lookup k (keep_first c m) ≡ lookup k m)
      ⊎ ((c.sha ≡ k) × (lookup k (keep_first c m) ≡ some c))
keep_first-cases c m k = elim (Option-cases (lookup c.sha m)) [
  | inr (d, e) ↦ inl (ap (lookup k) (keep_old c d m e))
  | inl e ↦ elim (Bool-cases (c.sha == k)) [
    | inl same ↦ inr (
      (==_iff c.sha k).0 same,
      ap (lookup k) (keep_new c m e) ∙ lookup-insert c.sha k c m ∙ rw same refl,
    )
    | inr other ↦ inl (ap (lookup k) (keep_new c m e) ∙ lookup-insert c.sha k c m ∙ rw other refl)
  ]
]

keep_first-has : (c : Chunk) (m : Index) → lookup c.sha (keep_first c m) ≢ none
keep_first-has c m h = elim (Option-cases (lookup c.sha m)) [
  | inr (d, e) ↦ absurd (
      let t : lookup c.sha (keep_first c m) ≡ lookup c.sha m =
        ap (lookup c.sha) (keep_old c d m e) in
      cc)
  | inl e ↦ elim (keep_first-cases c m c.sha) [
    | inr (_, f) ↦ absurd cc
    | inl f ↦ absurd (
        let t : lookup c.sha (keep_first c m) ≡ some c =
          ap (lookup c.sha) (keep_new c m e) ∙ lookup-insert_self c.sha c m in
        cc)
  ]
]

keep_first-Named : (c : Chunk) (m : Index) → Named m → Named (keep_first c m)
keep_first-Named c m named k d h = elim (keep_first-cases c m k) [
  | inl e ↦ named k d (sym e ∙ h)
  | inr (same, e) ↦ ap (λ (x : Chunk). x.sha) (sym (some-injective c d (sym e ∙ h))) ∙ same
]

keep_first-keeps :
    (c : Chunk) (m : Index) (k : ChunkHash) → lookup k m ≢ none → lookup k (keep_first c m) ≢ none
keep_first-keeps c m k has h = elim (keep_first-cases c m k) [
  | inl e ↦ has (sym e ∙ h)
  | inr (same, e) ↦ absurd cc
]

-- What an index has after the chunks `cs`: the hashes of `m` and theirs.
record IsIndexed (m m' : Index) (P : ChunkHash → Type 0) : Type 0 where
  named : Named m → Named m'
  keeps : (k : ChunkHash) → lookup k m ≢ none → lookup k m' ≢ none
  has : (k : ChunkHash) → P k → lookup k m' ≢ none
  only : (k : ChunkHash) → (P k → ⊥) → lookup k m' ≡ lookup k m

index_chunks-IsIndexed :
    (cs : List Chunk) (m : Index) → IsIndexed m (index_chunks cs m) (λ k. HasSha k cs)
unfolding index_chunks
index_chunks-IsIndexed [] m = record {
  named = λ n. n;
  keeps = λ k h. h;
  has = λ k h. elim h [ ];
  only = λ k h. refl;
}
index_chunks-IsIndexed (c ∷ cs) m =
    let rest = index_chunks-IsIndexed cs (keep_first c m) in
    record {
      named = λ n. rest.named (keep_first-Named c m n);
      keeps = λ k h. rest.keeps k (keep_first-keeps c m k h);
      has = λ k h. elim h [
        | inl e ↦
            rest.keeps k
              (subst (λ x. lookup x (keep_first c m) ≢ none) (sym e) (keep_first-has c m))
        | inr later ↦ rest.has k later
      ];
      only = λ k h. rest.only k (λ later. h (inr later)) ∙ elim (keep_first-cases c m k) [
        | inl e ↦ e
        | inr (same, e) ↦ absurd (h (inl (sym same)))
      ];
    }

module _ (api : DepotApi) where
  -- Some file has a chunk of the hash.
  abbrev pub InFiles : ChunkHash → List DepotFile → Type 0
  InFiles k [] = ⊥
  InFiles k (f ∷ fs) = HasSha k (api.chunks f) ⊎ InFiles k fs

  index_files-IsIndexed :
      (fs : List DepotFile) (m : Index) → IsIndexed m (index_files api fs m) (λ k. InFiles k fs)
  unfolding index_files
  index_files-IsIndexed [] m = record {
    named = λ n. n;
    keeps = λ k h. h;
    has = λ k h. elim h [ ];
    only = λ k h. refl;
  }
  index_files-IsIndexed (f ∷ fs) m =
      let first = index_chunks-IsIndexed (api.chunks f) m in
      let rest = index_files-IsIndexed fs (index_chunks (api.chunks f) m) in
      record {
        named = λ n. rest.named (first.named n);
        keeps = λ k h. rest.keeps k (first.keeps k h);
        has = λ k h. elim h [
          | inl here ↦ rest.keeps k (first.has k here)
          | inr later ↦ rest.has k later
        ];
        only = λ k h. rest.only k (λ later. h (inr later)) ∙ first.only k (λ here. h (inl here));
      }

  -- A store for a manifest knows a chunk of every hash that a file of the manifest has, under that
  -- hash; any other hash is refused with an error that names it, and the network is not used.
  pub chunk_index_lem :
      {W : Type 0} (net : Network W) (depot_id : ℕ) (m : Manifest) (sha : ChunkHash) (w : W)
      → (InFiles sha m.files
          → (c : Chunk) × (lookup sha (new api depot_id m).chunk_index ≡ some c) × (c.sha ≡ sha))
        × ((InFiles sha m.files → ⊥)
            → get api net (new api depot_id m) sha w ≡ (err (chunk_not_in_manifest sha), w))
  unfolding new
  chunk_index_lem net depot_id m sha w =
      let ix = index_files-IsIndexed m.files [] in
      let empty : (k : ChunkHash) → lookup {K = ChunkHash} {V = Chunk} k [] ≡ none =
        λ k. unfold lookup in refl in
      (
        λ h. elim (Option-cases (lookup sha (index_files api m.files []))) [
          | inl e ↦ absurd (ix.has sha h e)
          | inr (c, e) ↦ (c, e, ix.named (λ k d q. absurd (let t = empty k in cc)) sha c e)
        ],
        λ h. let e = ix.only sha h ∙ empty sha in unfold get in rw (e, get) refl,
      )
