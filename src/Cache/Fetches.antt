-- ===== src/Cache/Fetches.antt =====
-- `fetch_and_persist` of crates/steam-depot-vfs/src/chunk_store/cache.rs.
use steam_depot_vfs.Prelude.{
  ℕ, ◌≡◌, ◌≢◌, refl, sym, ap, ◌∙◌, subst, Option, some, take, Bool-cases, inl, inr, ◌==◌, nat_eq,
  list_eq, ==_iff,
}
use steam_depot_vfs.Depot.{Bytes, Text, ChunkHash}
use steam_depot_vfs.Outcome.{ok, err, panicked, is_ok, is_err, is_panic, Outcome-cases}
use steam_depot_vfs.Frame.{encode_frame}
use steam_depot_vfs.Cache.{
  Result, tmp_name, write_atomic, fetch_and_persist, frame_for, cache_decoded, wrong_hash,
  ◌then_try◌,
}
use steam_depot_vfs.Cache.Interfaces.{Env, State}
use steam_depot_vfs.Cache.Laws.{EnvLaws, IsHonest, file_at, held}
use steam_depot_vfs.Cache.Names.{tmp_name-ne}
use steam_depot_vfs.Cache.Writes.{AtomicWrite, done, kept, write_atomic_lem}

module _ {D C I : Type 0} (env : Env D C I) (laws : EnvLaws env) where
  abbrev pub Honest : State D C I → Type 0
  Honest = IsHonest env laws.disk laws.lru

  abbrev pub files : State D C I → Text → Option Bytes
  files = file_at env laws.disk laws.lru

  abbrev pub chunks : State D C I → ChunkHash → Option Bytes
  chunks = held env laws.disk laws.lru

  -- What a fetch of `sha` does. `persisted`: the inner store's bytes hash to `sha`, they are returned
  -- and held, and the file of `sha` is a first part of their frame: all of it, if the write in the
  -- background succeeds. `failed`: no file of a chunk changes, nor what is held.
  pub data Fetch (sha : ChunkHash) (s : State D C I) (res : Result Bytes × State D C I)
      : Type 0 where
    persisted :
        (b frame : Bytes) (k : ℕ)
        → (env.inner_store.get sha s.inner).0 ≡ ok b
        → env.codec.sha1 b ≡ sha
        → encode_frame env.codec b ≡ ok frame
        → res.0 ≡ ok b
        → res.1.decoded ≡ env.lru.put sha b s.decoded
        → files res.1 (env.to_hex sha) ≡ some (take k frame)
        → ((other : ChunkHash)
            → sha ≢ other
            → files res.1 (env.to_hex other) ≡ files s (env.to_hex other))
        → Fetch sha s res
    failed :
        ((b : Bytes) → res.0 ≢ ok b)
        → ((other : ChunkHash) → files res.1 (env.to_hex other) ≡ files s (env.to_hex other))
        → res.1.decoded ≡ s.decoded
        → Fetch sha s res

  module _ (sha : ChunkHash) (s : State D C I) where
    abbrev fetched : Result Bytes × I
    fetched = env.inner_store.get sha s.inner

    abbrev after : State D C I
    after = record s { inner = fetched.1 }

    abbrev Fetched : Result Bytes × State D C I → Type 0
    Fetched = Fetch sha s

    abbrev result : Result Bytes × State D C I
    result = fetch_and_persist env sha (env.to_hex sha) s

    abbrev path : Text
    path = env.to_hex sha

    abbrev tmp : Text
    tmp = tmp_name env.process_id path s.writes

    not_tmp : (other : ChunkHash) → tmp ≢ env.to_hex other
    not_tmp other =
        tmp_name-ne env.process_id path s.writes (env.to_hex other) (laws.hex_dotless other)

    abbrev finish : Bytes → Result (Unit {0}) × State D C I → Result Bytes × State D C I
    finish b w = ◌then_try◌ env w (λ _ s3. (ok b, cache_decoded env sha b s3))

    fails :
        (b frame : Bytes) (w : Result (Unit {0}) × State D C I)
        → ((r : Unit {0}) → w.0 ≢ ok r)
        → ((q : Text) → tmp ≢ q → laws.disk.content w.1.disk q ≡ laws.disk.content s.disk q)
        → w.1.decoded ≡ s.decoded
        → Fetched (finish b w)
    fails b frame (ok r, s') nope others dec = absurd (nope r refl)
    fails b frame (err x, s') nope others dec =
        failed (λ b' h. cc) (λ other. others (env.to_hex other) (not_tmp other)) dec
    fails b frame (panicked, s') nope others dec =
        failed (λ b' h. cc) (λ other. others (env.to_hex other) (not_tmp other)) dec

    module _ (b frame : Bytes) (got : fetched.0 ≡ ok b) (same : env.codec.sha1 b ≡ sha)
        (enc : encode_frame env.codec b ≡ ok frame) where
      finishes :
          (w : Result (Unit {0}) × State D C I)
          → AtomicWrite env laws.disk tmp path frame after w
          → Fetched (finish b w)
      finishes (r, s') (done e moved (k, there) others dec inn) = rw e (
          persisted b frame k got same enc refl (ap (env.lru.put sha b) dec) there (λ other n.
            others (env.to_hex other) (not_tmp other)
              (λ (p : env.to_hex sha ≡ env.to_hex other). n (laws.hex_injective sha other p))))
      finishes w (kept nope others dec inn) = fails b frame w nope others dec

      fetch-write :
          frame_for env sha b ≡ ok frame → result ≡ finish b (write_atomic env path frame after)
      fetch-write framed = unfold fetch_and_persist in rw (got, framed) refl

    frames : (b : Bytes) → env.codec.sha1 b ≡ sha → frame_for env sha b ≡ encode_frame env.codec b
    frames b same =
        unfold frame_for encode_frame in rw ((==_iff (env.codec.sha1 b) sha).1 same) refl

    unframed :
        (b : Bytes) → fetched.0 ≡ ok b → ((f : Bytes) → frame_for env sha b ≢ ok f) → Fetched result
    unframed b got nope = elim (Outcome-cases (frame_for env sha b)) [
      | is_ok f e ↦ absurd (nope f e)
      | is_err x e ↦
          unfold fetch_and_persist in rw (got, e) (failed (λ b' h. cc) (λ other. refl) refl)
      | is_panic e ↦
          unfold fetch_and_persist in rw (got, e) (failed (λ b' h. cc) (λ other. refl) refl)
    ]

    fetches : (b : Bytes) → fetched.0 ≡ ok b → Fetched result
    fetches b got = elim (Bool-cases (env.codec.sha1 b == sha)) [
      | inr other ↦ unframed b got (λ f h.
          absurd (
            let e : frame_for env sha b ≡ err wrong_hash = unfold frame_for in rw other refl in cc))
      | inl same' ↦
          let same = (==_iff (env.codec.sha1 b) sha).0 same' in
          elim (Outcome-cases (frame_for env sha b)) [
            | is_ok f e ↦
                subst Fetched (sym (fetch-write b f got same (sym (frames b same) ∙ e) e)) (
                  finishes b f got same (sym (frames b same) ∙ e) (write_atomic env path f after)
                    (write_atomic_lem env laws.disk path f after))
            | is_err x e ↦ unframed b got (λ f h. cc)
            | is_panic e ↦ unframed b got (λ f h. cc)
          ]
    ]

    -- A fetch either returns the inner store's bytes, which then hash to the name asked for, and has
    -- a first part of their frame on disk and the bytes in memory, or it fails and leaves every chunk's file and the
    -- decoded chunks as they were.
    pub fetch_and_persist_lem : Fetched result
    fetch_and_persist_lem = elim (Outcome-cases fetched.0) [
      | is_ok b e ↦ fetches b e
      | is_err x e ↦ unfold fetch_and_persist in rw e (failed (λ b' h. cc) (λ other. refl) refl)
      | is_panic e ↦ unfold fetch_and_persist in rw e (failed (λ b' h. cc) (λ other. refl) refl)
    ]
