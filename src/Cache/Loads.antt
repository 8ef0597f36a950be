-- ===== src/Cache/Loads.antt =====
-- `cache_hit` and `read_verified` of crates/steam-depot-vfs/src/chunk_store/cache.rs.
use steam_depot_vfs.Prelude.{
  ℕ, ◌≡◌, ◌≢◌, ◌⊎◌, refl, sym, ap, ◌∙◌, subst, false, Option, some, none, Bool-cases, Option-cases,
  inl, inr, ◌==◌, nat_eq, list_eq, ==_iff,
}
use steam_depot_vfs.Depot.{Bytes, Text, ChunkHash}
use steam_depot_vfs.Outcome.{Outcome, ok, is_ok, is_err, is_panic, Outcome-cases}
use steam_depot_vfs.Frame.Decode.{decode_frame}
use steam_depot_vfs.Cache.{read_verified, delete_corrupt}
use steam_depot_vfs.Cache.Interfaces.{Env, State}
use steam_depot_vfs.Cache.Laws.{EnvLaws}
use steam_depot_vfs.Cache.Fetches.{files}

module _ {D C I : Type 0} (env : Env D C I) (laws : EnvLaws env) where
  -- A read of the file of `sha`. `loaded`: its frame names `sha` and decodes, and no file changes.
  -- `missed`: at most that one file is gone.
  pub data Load (sha : ChunkHash) (s : State D C I) (res : Option Bytes × State D C I)
      : Type 0 where
    loaded :
        (frame plain : Bytes)
        → files env laws s (env.to_hex sha) ≡ some frame
        → decode_frame env.codec frame ≡ some (sha, plain)
        → res.0 ≡ some plain
        → ((q : Text) → files env laws res.1 q ≡ files env laws s q)
        → res.1.decoded ≡ s.decoded
        → res.1.inner ≡ s.inner
        → Load sha s res
    missed :
        res.0 ≡ none
        → ((q : Text)
            → (files env laws res.1 q ≡ none) ⊎ (files env laws res.1 q ≡ files env laws s q))
        → ((q : Text) → env.to_hex sha ≢ q → files env laws res.1 q ≡ files env laws s q)
        → res.1.decoded ≡ s.decoded
        → res.1.inner ≡ s.inner
        → Load sha s res

  module _ (sha : ChunkHash) (s : State D C I) where
    abbrev path : Text
    path = env.to_hex sha

    abbrev had : Outcome ℕ Bytes × D
    had = env.disk_api.read path s.disk

    abbrev after : State D C I
    after = record s { disk = had.1 }

    abbrev result : Option Bytes × State D C I
    result = read_verified env sha path s

    -- The file could not be read.
    absent : ((b : Bytes) → had.0 ≢ ok b) → result ≡ (none, after)
    absent nope = elim (Outcome-cases had.0) [
      | is_ok b e ↦ absurd (nope b e)
      | is_err x e ↦ unfold read_verified in rw (e, read_verified) refl
      | is_panic e ↦ unfold read_verified in rw (e, read_verified) refl
    ]

    undecodable :
        (frame : Bytes)
        → had.0 ≡ ok frame
        → decode_frame env.codec frame ≡ none
        → result ≡ (none, delete_corrupt env path after)
    undecodable frame e d = unfold read_verified in rw (e, d, read_verified) refl

    misnamed :
        (frame plain : Bytes) (claimed : ChunkHash)
        → had.0 ≡ ok frame
        → decode_frame env.codec frame ≡ some (claimed, plain)
        → (claimed == sha) ≡ false
        → result ≡ (none, delete_corrupt env path after)
    misnamed frame plain claimed e d n = unfold read_verified in rw (e, d, n, read_verified) refl

    pub usable :
        (frame plain : Bytes)
        → had.0 ≡ ok frame
        → decode_frame env.codec frame ≡ some (sha, plain)
        → result ≡ (some plain, after)
    usable frame plain e d =
        unfold read_verified in rw (e, d, (==_iff sha sha).1 refl, read_verified) refl

    deleted : Load sha s (none, delete_corrupt env path after)
    unfolding delete_corrupt
    deleted =
        missed refl
          (λ q. elim (Bool-cases (path == q)) [
            | inl e ↦
                subst
                  (λ (x : Text).
                    (files env laws (delete_corrupt env path after) x ≡ none)
                    ⊎ (files env laws (delete_corrupt env path after) x ≡ files env laws s x))
                  ((==_iff path q).0 e) (gone (laws.disk.remove_same path had.1))
            | inr n ↦ inr (elsewhere q (λ e. absurd (let t = (==_iff path q).1 e in cc)))
          ])
          elsewhere refl refl
      where
        elsewhere :
            (q : Text)
            → path ≢ q
            → files env laws (delete_corrupt env path after) q ≡ files env laws s q
        elsewhere q n = laws.disk.remove_frame path q had.1 n ∙ laws.disk.read_keeps path q s.disk

        gone :
            (laws.disk.content (env.disk_api.remove_file path had.1).1 path ≡ none)
              ⊎ (laws.disk.content (env.disk_api.remove_file path had.1).1 path
                  ≡ laws.disk.content had.1 path)
            → (files env laws (delete_corrupt env path after) path ≡ none)
              ⊎ (files env laws (delete_corrupt env path after) path ≡ files env laws s path)
        gone (inl e) = inl e
        gone (inr e) = inr (e ∙ laws.disk.read_keeps path path s.disk)

    pub read_verified_lem : Load sha s result
    read_verified_lem = elim (Outcome-cases had.0) [
      | is_ok frame e ↦ elim (Option-cases (decode_frame env.codec frame)) [
        | inl d ↦ subst (Load sha s) (sym (undecodable frame e d)) deleted
        | inr ((claimed, plain), d) ↦ elim (Bool-cases (claimed == sha)) [
          | inl same ↦
              let d' = d ∙ ap (λ (c : ChunkHash). some (c, plain)) ((==_iff claimed sha).0 same) in
              subst (Load sha s) (sym (usable frame plain e d')) (
                loaded frame plain (laws.disk.read_ok path s.disk frame e) d' refl
                  (λ q. laws.disk.read_keeps path q s.disk) refl refl)
          | inr n ↦ subst (Load sha s) (sym (misnamed frame plain claimed e d n)) deleted
        ]
      ]
      | is_err x e ↦ subst (Load sha s) (sym (absent (λ b h. cc))) unread
      | is_panic e ↦ subst (Load sha s) (sym (absent (λ b h. cc))) unread
    ]
      where
        unread : Load sha s (none, after)
        unread =
            missed refl (λ q. inr (laws.disk.read_keeps path q s.disk))
              (λ q _. laws.disk.read_keeps path q s.disk) refl refl

    -- A file that can be read and deleted but is not a frame that names its chunk is deleted, so that
    -- it is fetched again; no bytes are returned, and no other file changes.
    pub read_verified-corrupt :
        (frame : Bytes)
        → (env.disk_api.read path s.disk).0 ≡ ok frame
        → ((plain : Bytes) → decode_frame env.codec frame ≢ some (sha, plain))
        → (env.disk_api.remove_file path (env.disk_api.read path s.disk).1).0 ≡ ok tt
        → (result.0 ≡ none)
          × (files env laws result.1 path ≡ none)
          × ((q : Text) → path ≢ q → files env laws result.1 q ≡ files env laws s q)
    read_verified-corrupt frame e corrupt removed =
        subst
          (λ (r : Option Bytes × State D C I).
            (r.0 ≡ none)
            × (files env laws r.1 path ≡ none)
            × ((q : Text) → path ≢ q → files env laws r.1 q ≡ files env laws s q))
          (sym is_deleted)
          (unfold delete_corrupt in
            (
              refl,
              laws.disk.remove_ok path had.1 removed,
              λ q n. laws.disk.remove_frame path q had.1 n ∙ laws.disk.read_keeps path q s.disk,
            ))
      where
        is_deleted : result ≡ (none, delete_corrupt env path after)
        is_deleted = elim (Option-cases (decode_frame env.codec frame)) [
          | inl d ↦ undecodable frame e d
          | inr ((claimed, plain), d) ↦ elim (Bool-cases (claimed == sha)) [
            | inl same ↦ absurd (
                corrupt plain
                  (d ∙ ap (λ (c : ChunkHash). some (c, plain)) ((==_iff claimed sha).0 same)))
            | inr n ↦ misnamed frame plain claimed e d n
          ]
        ]
