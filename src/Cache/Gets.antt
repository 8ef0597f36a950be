-- ===== src/Cache/Gets.antt =====
-- `get` of crates/steam-depot-vfs/src/chunk_store/cache.rs returns only bytes that hash to the name
-- asked for, from a state that is `Honest`: a frame on disk that names itself as the file it stands
-- in is trusted, since `read_verified` compares that name and does not hash the body.
use steam_depot_vfs.Prelude.{
  ℕ, take, ◌≡◌, refl, sym, ap, ◌∙◌, subst, arith, Option, some, none, Bool-cases, Option-cases, inl,
  inr, ◌==◌, nat_eq, list_eq, ==_iff, length, ◌≤◌,
}
use mathlib.Core.Option.{some-injective}
use steam_depot_vfs.Depot.{Bytes, ChunkHash}
use steam_depot_vfs.Outcome.{ok, ok-injective}
use steam_depot_vfs.ChunkStore.{IsFaithful}
use steam_depot_vfs.Fs.Read.{isize_max}
use steam_depot_vfs.Frame.{encode_frame}
use steam_depot_vfs.Frame.Decode.{decode_frame}
use steam_depot_vfs.Frame.Cut.{decode_cut}
use steam_depot_vfs.Cache.{
  Result, cache_hit, cache_decoded, read_verified, fetch_and_persist, get_locked, get,
  fs_cache_store,
}
use steam_depot_vfs.Cache.Interfaces.{Env, State}
use steam_depot_vfs.Cache.Laws.{EnvLaws}
use steam_depot_vfs.Cache.Fetches.{
  Honest, files, chunks, Fetch, persisted, failed, fetch_and_persist_lem,
}
use steam_depot_vfs.Cache.Loads.{Load, loaded, missed, read_verified_lem}

module _ {D C I : Type 0} (env : Env D C I) (laws : EnvLaws env) where
  -- A success is what `get` returned, hashes to the name, and is held afterwards.
  abbrev pub Good : ChunkHash → Result Bytes × State D C I → Type 0
  Good sha res =
      Honest env laws res.1
      × ((b : Bytes)
          → res.0 ≡ ok b
          → (env.codec.sha1 b ≡ sha) × (chunks env laws res.1 sha ≡ some b))

  held_after_put :
      (sha : ChunkHash) (b : Bytes) (s : State D C I) (k : ChunkHash) (c : Bytes)
      → Honest env laws s
      → env.codec.sha1 b ≡ sha
      → laws.lru.peek (env.lru.put sha b s.decoded) k ≡ some c
      → env.codec.sha1 c ≡ k
  held_after_put sha b s k c honest hashes there = elim (Bool-cases (sha == k)) [
    | inl same ↦
        let e = (==_iff sha k).0 same in
        let q : b ≡ c = some-injective b c (
          sym (laws.lru.put_same sha b s.decoded)
          ∙ ap (laws.lru.peek (env.lru.put sha b s.decoded)) e
          ∙ there) in
        sym (ap env.codec.sha1 q) ∙ hashes ∙ e
    | inr other ↦
        elim (laws.lru.put_other sha k b s.decoded
          (λ e. absurd (let t = (==_iff sha k).1 e in cc))) [
            | inl gone ↦ absurd cc
            | inr kept ↦ honest.held_hashes k c (sym kept ∙ there)
          ]
  ]

  -- What a fetch writes decodes to nothing but the fetched bytes, also when it is cut off.
  framed :
      (sha key : ChunkHash) (b frame plain : Bytes) (k : ℕ)
      → length b ≤ isize_max
      → env.codec.sha1 b ≡ sha
      → encode_frame env.codec b ≡ ok frame
      → decode_frame env.codec (take k frame) ≡ some (key, plain)
      → env.codec.sha1 plain ≡ key
  framed sha key b frame plain k small hashes enc dec =
      let (k1, k2) = decode_cut env.codec laws.codec b frame plain key k (omega arith) enc dec in
      ap env.codec.sha1 k2 ∙ sym k1

  pub fetch-Good :
      (sha : ChunkHash) (s : State D C I) (res : Result Bytes × State D C I)
      → Honest env laws s
      → Fetch env laws sha s res
      → Good sha res
  fetch-Good sha s res honest (persisted b frame k' got hashes enc e dec there others) = (
    record {
      held_hashes = λ k c h.
          held_after_put sha b s k c honest hashes
            (sym (ap (λ (x : C). laws.lru.peek x k) dec) ∙ h);
      file_hashes = λ k f plain h d. elim (Bool-cases (sha == k)) [
        | inl same ↦
            let t =
              ap (λ (x : ChunkHash). files env laws res.1 (env.to_hex x)) ((==_iff sha k).0 same) in
            let q : take k' frame ≡ f = some-injective (take k' frame) f (sym there ∙ t ∙ h) in
            framed sha k b frame plain k' (laws.inner_small sha s.inner b got) hashes enc
              (ap (decode_frame env.codec) q ∙ d)
        | inr n ↦
            honest.file_hashes k f plain
              (sym (others k (λ e'. absurd (let t = (==_iff sha k).1 e' in cc))) ∙ h) d
      ];
    },
    λ c h.
        let q : b ≡ c = ok-injective b c (sym e ∙ h) in
        (
          sym (ap env.codec.sha1 q) ∙ hashes,
          ap (λ (x : C). laws.lru.peek x sha) dec ∙ laws.lru.put_same sha b s.decoded ∙ ap some q,
        ),
  )
  fetch-Good sha s res honest (failed nope others dec) = (
    record {
      held_hashes =
          λ k c h. honest.held_hashes k c (sym (ap (λ (x : C). laws.lru.peek x k) dec) ∙ h);
      file_hashes = λ k f plain h d. honest.file_hashes k f plain (sym (others k) ∙ h) d;
    },
    λ c h. absurd (nope c h),
  )

  -- After the read of the file: its bytes, or a fetch.
  abbrev pub loads : ChunkHash → Option Bytes × State D C I → Result Bytes × State D C I
  loads sha (some bytes, s2) = (ok bytes, cache_decoded env sha bytes s2)
  loads sha (none, s2) = fetch_and_persist env sha (env.to_hex sha) s2

  load-Good :
      (sha : ChunkHash) (s : State D C I) (res : Option Bytes × State D C I)
      → Honest env laws s
      → Load env laws sha s res
      → Good sha (loads sha res)
  load-Good sha s (none, s2) honest (loaded frame plain there dec e same held inn) = absurd cc
  load-Good sha s (some b, s2) honest (loaded frame plain there dec e same held inn) =
      let q : b ≡ plain = some-injective b plain e in
      let hashes = ap env.codec.sha1 q ∙ honest.file_hashes sha frame plain there dec in
      let before : Honest env laws s2 = record {
        held_hashes =
            λ k c h. honest.held_hashes k c (sym (ap (λ (x : C). laws.lru.peek x k) held) ∙ h);
        file_hashes = λ k f p h d. honest.file_hashes k f p (sym (same (env.to_hex k)) ∙ h) d;
      } in
      (
        record {
          held_hashes = λ k c h. held_after_put sha b s2 k c before hashes h;
          file_hashes = before.file_hashes;
        },
        λ c h.
            let q' : b ≡ c = ok-injective b c h in
            (sym (ap env.codec.sha1 q') ∙ hashes, laws.lru.put_same sha b s2.decoded ∙ ap some q'),
      )
  load-Good sha s (some b, s2) honest (missed e lost others held inn) = absurd cc
  load-Good sha s (none, s2) honest (missed e lost others held inn) =
      fetch-Good sha s2 (fetch_and_persist env sha (env.to_hex sha) s2)
        (record {
          held_hashes =
              λ k c h. honest.held_hashes k c (sym (ap (λ (x : C). laws.lru.peek x k) held) ∙ h);
          file_hashes = λ k f p h d. elim (lost (env.to_hex k)) [
            | inl gone ↦ absurd cc
            | inr still ↦ honest.file_hashes k f p (sym still ∙ h) d
          ];
        })
        (fetch_and_persist_lem env laws sha s2)

  loads-cases :
      (sha : ChunkHash) (x : Option Bytes × State D C I)
      → ◌≡◌ {A = Result Bytes × State D C I}
          (elim x.0 [
            | some bytes ↦ (ok bytes, cache_decoded env sha bytes x.1)
            | none ↦ fetch_and_persist env sha (env.to_hex sha) x.1
          ])
          (loads sha x)
  loads-cases sha (none, s2) = refl
  loads-cases sha (some b, s2) = refl

  -- After a look into the decoded chunks: what is held, or `rest`.
  abbrev pub looks :
      (State D C I → Result Bytes × State D C I)
      → Option Bytes × State D C I
      → Result Bytes × State D C I
  looks rest (some bytes, s1) = (ok bytes, s1)
  looks rest (none, s1) = rest s1

  look-Good :
      (sha : ChunkHash) (s : State D C I) (rest : State D C I → Result Bytes × State D C I)
      → Honest env laws s
      → ((t : State D C I) → Honest env laws t → Good sha (rest t))
      → Good sha (looks rest (cache_hit env sha s))
  look-Good sha s rest honest then_good = elim (Option-cases (env.lru.get sha s.decoded).0) [
    | inl e ↦ unfold cache_hit in rw e (then_good after touched)
    | inr (b, e) ↦
        unfold cache_hit in
        rw e (
          touched,
          λ c h.
              let q : b ≡ c = ok-injective b c h in
              let was = sym (laws.lru.get_peek sha s.decoded) ∙ e ∙ ap some q in
              (honest.held_hashes sha c was, laws.lru.get_keeps sha sha s.decoded ∙ was),
        )
  ]
    where
      after : State D C I
      after = record s { decoded = (env.lru.get sha s.decoded).1 }

      touched : Honest env laws after
      touched = record {
        held_hashes =
            λ k c h. honest.held_hashes k c (sym (laws.lru.get_keeps sha k s.decoded) ∙ h);
        file_hashes = honest.file_hashes;
      }

  pub get_locked-parts :
      (sha : ChunkHash) (s : State D C I)
      → get_locked env sha s
        ≡ looks (λ s1. loads sha (read_verified env sha (env.to_hex sha) s1)) (cache_hit env sha s)
  get_locked-parts sha s = elim (Option-cases (env.lru.get sha s.decoded).0) [
    | inr (b, e) ↦ unfold get_locked cache_hit in rw (e, get_locked) refl
    | inl e ↦
        unfold get_locked cache_hit in
        rw (e, get_locked)
          (loads-cases sha (
            read_verified env sha (env.to_hex sha)
              (record s { decoded = (env.lru.get sha s.decoded).1 })))
  ]

  get-parts :
      (sha : ChunkHash) (s : State D C I)
      → get env sha s
        ≡ looks (λ s1. get_locked env sha (env.wait_lock sha s1)) (cache_hit env sha s)
  get-parts sha s = elim (Option-cases (env.lru.get sha s.decoded).0) [
    | inr (b, e) ↦ unfold get cache_hit in rw (e, get) refl
    | inl e ↦ unfold get cache_hit in rw (e, get) refl
  ]

  get_locked-Good :
      (sha : ChunkHash) (s : State D C I) → Honest env laws s → Good sha (get_locked env sha s)
  get_locked-Good sha s honest = subst (Good sha) (sym (get_locked-parts sha s)) (
      look-Good sha s _ honest (λ t ht.
        load-Good sha t (read_verified env sha (env.to_hex sha) t) ht
          (read_verified_lem env laws sha t)))

  pub get-Good : (sha : ChunkHash) (s : State D C I) → Honest env laws s → Good sha (get env sha s)
  get-Good sha s honest = subst (Good sha) (sym (get-parts sha s)) (
      look-Good sha s _ honest
        (λ t ht. get_locked-Good sha (env.wait_lock sha t) (laws.waits_honestly sha t ht)))

  -- From a state that is `Honest` (a decoded chunk hashes to its name, and so does the body of any file
  -- on disk that decodes as a frame naming that file; other files may hold anything), `get` leaves an
  -- honest state, and whatever it returns for a hash has that hash: also when the inner store lies,
  -- when files do not decode or name another chunk, when system calls fail or a write is cut off
  -- in the background, and when other tasks that keep the invariant change the state while a
  -- caller waits. The laws of the directory and of the codec are assumed.
  pub get-IsFaithful :
      IsFaithful (Honest env laws) (λ sha b. env.codec.sha1 b ≡ sha) (fs_cache_store env)
  get-IsFaithful = record {
    keeps = λ sha s honest. (get-Good sha s honest).0;
    good = λ sha s b honest h. ((get-Good sha s honest).1 b h).0;
  }
