-- ===== src/Cache/Warm.antt =====
-- Later calls on a chunk that crates/steam-depot-vfs/src/chunk_store/cache.rs has loaded, in the same
-- process and in a new one, and `ensure`.
use steam_depot_vfs.Prelude.{
  ℕ, ◌≡◌, ◌≢◌, ◌≤◌, refl, sym, ap, ◌∙◌, subst, arith, true, false, Bool, some, none, nat_eq,
  list_eq, length, ltb, if◌then◌else◌,
}
use steam_depot_vfs.Depot.{Bytes, ChunkHash}
use steam_depot_vfs.Outcome.{Outcome, ok, is_ok, is_err, is_panic, Outcome-cases, bind-ok}
use steam_depot_vfs.ChunkStore.{discard}
use steam_depot_vfs.Frame.{encode_frame, max_plain_len}
use steam_depot_vfs.Frame.Decode.{decode_frame}
use steam_depot_vfs.Frame.RoundTrip.{decode_frame-encode_frame}
use steam_depot_vfs.Cache.{
  Result, new, cache_hit, cache_decoded, read_verified, fetch_and_persist, get_locked, get, on_disk,
  ensure,
}
use steam_depot_vfs.Cache.Interfaces.{Env, State}
use steam_depot_vfs.Cache.Laws.{EnvLaws}
use steam_depot_vfs.Cache.Fetches.{
  Honest, files, chunks, Fetch, persisted, failed, fetch_and_persist_lem,
}
use steam_depot_vfs.Cache.Gets.{get-Good, fetch-Good, get_locked-parts, looks, loads}
use steam_depot_vfs.Cache.Loads.{usable}

module _ {D C I : Type 0} (env : Env D C I) (laws : EnvLaws env) where
  hits :
      (sha : ChunkHash) (s : State D C I) (b : Bytes)
      → chunks env laws s sha ≡ some b
      → get env sha s ≡ (ok b, record s { decoded = (env.lru.get sha s.decoded).1 })
  hits sha s b h =
      let e : (env.lru.get sha s.decoded).0 ≡ some b = laws.lru.get_peek sha s.decoded ∙ h in
      unfold get cache_hit in rw (e, get) refl

  -- A `get` right after a successful one returns the same bytes, without a call of the inner store
  -- and without touching the directory.
  pub get_again :
      (sha : ChunkHash) (s : State D C I) (b : Bytes)
      → Honest env laws s
      → (get env sha s).0 ≡ ok b
      → let s' = (get env sha s).1 in
        let again = get env sha s' in
        (again.0 ≡ ok b) × (again.1.inner ≡ s'.inner) × (again.1.disk ≡ s'.disk)
  get_again sha s b honest h =
      let e = hits sha (get env sha s).1 b ((get-Good env laws sha s honest).1 b h).1 in
      (
        ap (λ (r : Result Bytes × State D C I). r.0) e,
        ap (λ (r : Result Bytes × State D C I). r.1.inner) e,
        ap (λ (r : Result Bytes × State D C I). r.1.disk) e,
      )

  -- A new store over a directory in which a fetch left the whole frame of `b`, of at most 64 MiB, returns
  -- `b` from the directory, with no call of the inner store, if the file can be read.
  pub get_locked-reload :
      (sha : ChunkHash) (b frame : Bytes) (d : D) (i : I) (writes : ℕ)
      → env.codec.sha1 b ≡ sha
      → encode_frame env.codec b ≡ ok frame
      → length b ≤ max_plain_len
      → (env.disk_api.read (env.to_hex sha) d).0 ≡ ok frame
      → let res = get_locked env sha (new env d i writes) in
        (res.0 ≡ ok b) × (res.1.inner ≡ i) × (chunks env laws res.1 sha ≡ some b)
  unfolding new
  get_locked-reload sha b frame d i writes hashes enc small r =
      let empty : (env.lru.get sha (env.lru.new 160)).0 ≡ none =
        laws.lru.get_peek sha (env.lru.new 160) ∙ laws.lru.new_empty 160 sha in
      let under : ltb max_plain_len (length b) ≡ false = ground arith in
      let dec : decode_frame env.codec frame ≡ some (sha, b) =
        decode_frame-encode_frame env.codec laws.codec b frame (omega arith) enc
        ∙ rw under (ap (λ (k : ChunkHash). some (k, b)) hashes) in
      let s = new env d i writes in
      let s1 = record s { decoded = (env.lru.get sha s.decoded).1 } in
      let s2 = record s1 { disk = (env.disk_api.read (env.to_hex sha) d).1 } in
      let look : cache_hit env sha s ≡ (none, s1) = unfold cache_hit new in rw empty refl in
      let load : read_verified env sha (env.to_hex sha) s1 ≡ (some b, s2) =
        usable env laws sha s1 frame b (unfold new in r) dec in
      let e : get_locked env sha s ≡ (ok b, cache_decoded env sha b s2) =
        get_locked-parts env laws sha s
        ∙ ap (looks env laws (λ t. loads env laws sha (read_verified env sha (env.to_hex sha) t)))
            look
        ∙ ap (loads env laws sha) load in
      (
        ap (λ (x : Result Bytes × State D C I). x.0) e,
        ap (λ (x : Result Bytes × State D C I). x.1.inner) e,
        ap (λ (x : Result Bytes × State D C I). chunks env laws x.1 sha) e
            ∙ laws.lru.put_same sha b s1.decoded,
      )

  -- After `ensure`.
  abbrev Ensured : ChunkHash → Result (Unit {0}) × State D C I → Type 0
  Ensured sha res =
      Honest env laws res.1 × (res.0 ≡ ok tt → files env laws res.1 (env.to_hex sha) ≢ none)

  Fetch-Ensured :
      (sha : ChunkHash) (s : State D C I) (res : Result Bytes × State D C I)
      → Honest env laws s
      → Fetch env laws sha s res
      → Ensured sha (discard res.0, res.1)
  Fetch-Ensured sha s res honest (persisted b frame k got hashes enc e dec there others) = (
    (fetch-Good env laws sha s res honest
        (persisted b frame k got hashes enc e dec there others)).0,
    λ _ gone. cc,
  )
  Fetch-Ensured sha s res honest (failed nope others dec) = (
    (fetch-Good env laws sha s res honest (failed nope others dec)).0,
    λ h gone. let (b, e, _) = bind-ok res.0 _ tt h in nope b e,
  )

  -- What `try_exists` says, and then `rest`.
  abbrev tries :
      ChunkHash
      → (State D C I → Result (Unit {0}) × State D C I)
      → State D C I
      → Result (Unit {0}) × State D C I
  tries sha rest s = let (there, s1) = on_disk env sha s in if there then (ok tt, s1) else rest s1

  tries-Ensured :
      (sha : ChunkHash) (s : State D C I) (rest : State D C I → Result (Unit {0}) × State D C I)
      → Honest env laws s
      → ((t : State D C I) → Honest env laws t → Ensured sha (rest t))
      → Ensured sha (tries sha rest s)
  tries-Ensured sha s rest honest then_ensured = elim (Outcome-cases said.0) [
    | is_ok b e ↦ said_ok b e
    | is_err x e ↦ unfold on_disk in rw e (then_ensured after same)
    | is_panic e ↦ unfold on_disk in rw e (then_ensured after same)
  ]
    where
      said : Outcome ℕ Bool × D
      said = env.disk_api.try_exists (env.to_hex sha) s.disk

      after : State D C I
      after = record s { disk = said.1 }

      same : Honest env laws after
      same = record {
        held_hashes = honest.held_hashes;
        file_hashes = λ k f p h d.
            honest.file_hashes k f p
              (sym (laws.disk.exists_keeps (env.to_hex sha) (env.to_hex k) s.disk) ∙ h) d;
      }

      said_ok : (b : Bool) → said.0 ≡ ok b → Ensured sha (tries sha rest s)
      said_ok true e =
          unfold on_disk in
          rw e (
            same,
            λ _ gone.
                laws.disk.exists_ok (env.to_hex sha) s.disk e
                  (sym (laws.disk.exists_keeps (env.to_hex sha) (env.to_hex sha) s.disk) ∙ gone),
          )
      said_ok false e = unfold on_disk in rw e (then_ensured after same)

  ensure-parts :
      (sha : ChunkHash) (s : State D C I)
      → ensure env sha s
        ≡ tries sha
            (λ s1.
              tries sha
                (λ s2.
                  let (r, s3) = fetch_and_persist env sha (env.to_hex sha) s2 in (discard r, s3))
                (env.wait_lock sha s1))
            s
  ensure-parts sha s = unfold ensure in refl

  -- `ensure` keeps the invariant, and after it succeeds the chunk's file is there.
  pub ensure_lem :
      (sha : ChunkHash) (s : State D C I) → Honest env laws s → Ensured sha (ensure env sha s)
  ensure_lem sha s honest = subst (Ensured sha) (sym (ensure-parts sha s)) (
      tries-Ensured sha s _ honest (λ t ht.
        tries-Ensured sha (env.wait_lock sha t) _ (laws.waits_honestly sha t ht) (λ u hu.
          Fetch-Ensured sha u (fetch_and_persist env sha (env.to_hex sha) u) hu
            (fetch_and_persist_lem env laws sha u))))
