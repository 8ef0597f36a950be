-- ===== src/Cache/Locks.antt =====
-- The per-chunk locks of crates/steam-depot-vfs/src/chunk_store/cache.rs: `ChunkDir::chunk_lock`, and
-- the tasks that take, hold and drop them, in any interleaving.
use mathlib.Core.Option.{some-injective}
use steam_depot_vfs.Prelude.{
  ℕ, suc, ◌≡◌, ◌⊎◌, ◌<◌, ◌↔◌, refl, sym, ap, ◌∙◌, subst, arith, true, false, Bool, Option, some,
  none, Bool-cases, Option-cases, inl, inr, ◌==◌, nat_eq, list_eq, ==_iff, nat_beq_iff,
  if◌then◌else◌, [],
}
use steam_depot_vfs.Prelude.Maps.{HashMap, lookup, insert, lookup-insert, lookup-insert_self}
use steam_depot_vfs.Depot.{ChunkHash}

-- The map `loading`, and the identity of the next `Arc` to allocate.
pub record Loading : Type 0 where
  pub locks : HashMap ChunkHash ℕ
  pub next : ℕ

-- `upgrade` is `Weak::upgrade`: whether a lock still has an owner.
unfoldable pub chunk_lock : (upgrade : ℕ → Bool) → ChunkHash → Loading → ℕ × Loading
chunk_lock upgrade sha m = elim (lookup sha m.locks) [
  | none ↦ (m.next, record { locks = insert sha m.next m.locks; next = suc m.next })
  | some lock ↦
      if upgrade lock
      then (lock, m)
      else (m.next, record { locks = insert sha m.next m.locks; next = suc m.next })
]

-- A task in `get` or `ensure`, from `chunk_lock` on: the chunk, its lock, whether it is held.
pub record Owner : Type 0 where
  pub sha : ChunkHash
  pub lock : ℕ
  pub holding : Bool

pub record Tasks : Type 0 where
  pub loading : Loading
  pub owners : ℕ → Option Owner

abbrev pub put_owner : ℕ → Option Owner → Tasks → ℕ → Option Owner
put_owner t o s u = if t == u then o else s.owners u

abbrev pub IsOwned : Tasks → ℕ → Type 0
IsOwned s lock = (t : ℕ) × (o : Owner) × (s.owners t ≡ some o) × (o.lock ≡ lock)

pub data Step (s : Tasks) : Tasks → Type 0 where
  -- A task calls `chunk_lock`. A lock upgrades exactly while some task owns it.
  take_lock :
      (t : ℕ) (sha : ChunkHash) (upgrade : ℕ → Bool)
      → s.owners t ≡ none
      → ((lock : ℕ) → (upgrade lock ≡ true) ↔ IsOwned s lock)
      → Step s (record {
        loading = (chunk_lock upgrade sha s.loading).1;
        owners =
            put_owner t
              (some (record {
                sha = sha;
                lock = (chunk_lock upgrade sha s.loading).0;
                holding = false;
              }))
              s;
      })
  -- The lock is granted to a task when no task holds it.
  grant :
      (t : ℕ) (o : Owner)
      → s.owners t ≡ some o
      → ((u : ℕ) (p : Owner) → s.owners u ≡ some p → p.lock ≡ o.lock → p.holding ≡ false)
      → Step s (record s { owners = put_owner t (some (record o { holding = true })) s })
  -- A task is done, or is cancelled while it waits.
  drop_lock : (t : ℕ) → Step s (record s { owners = put_owner t none s })

pub data IsReachable : Tasks → Type 0 where
  start :
      (n : ℕ)
      → IsReachable (record { loading = record { locks = []; next = n }; owners = λ _. none })
  after : (s s' : Tasks) → IsReachable s → Step s s' → IsReachable s'

-- Every owner's lock is the one the map has for its chunk, and at most one task holds a lock.
record IsSound (s : Tasks) : Type 0 where
  listed : (t : ℕ) (o : Owner) → s.owners t ≡ some o → lookup o.sha s.loading.locks ≡ some o.lock
  old : (t : ℕ) (o : Owner) → s.owners t ≡ some o → o.lock < s.loading.next
  single :
      (t u : ℕ) (o p : Owner)
      → s.owners t ≡ some o
      → s.owners u ≡ some p
      → o.lock ≡ p.lock
      → o.holding ≡ true
      → p.holding ≡ true
      → t ≡ u

pub put_owner-cases :
    (t u : ℕ) (o : Option Owner) (s : Tasks) (p : Owner)
    → put_owner t o s u ≡ some p
    → ((t ≡ u) × (o ≡ some p)) ⊎ (s.owners u ≡ some p)
put_owner-cases t u o s p h = elim (Bool-cases (t == u)) [
  | inl e ↦ inl ((nat_beq_iff t u).0 e, sym (rw e refl) ∙ h)
  | inr e ↦ inr (sym (rw e refl) ∙ h)
]

-- What `chunk_lock` returns: a lock that is alive, or a new one, when no lock of the chunk is.
pub data LockOf (upgrade : ℕ → Bool) (sha : ChunkHash) (m : Loading) (r : ℕ × Loading)
    : Type 0 where
  reused :
      (l : ℕ) → lookup sha m.locks ≡ some l → upgrade l ≡ true → r ≡ (l, m) → LockOf upgrade sha m r
  fresh :
      ((l : ℕ) → lookup sha m.locks ≡ some l → upgrade l ≡ false)
      → r ≡ (m.next, record { locks = insert sha m.next m.locks; next = suc m.next })
      → LockOf upgrade sha m r

pub chunk_lock_lem :
    (upgrade : ℕ → Bool) (sha : ChunkHash) (m : Loading)
    → LockOf upgrade sha m (chunk_lock upgrade sha m)
chunk_lock_lem upgrade sha m = elim (Option-cases (lookup sha m.locks)) [
  | inl e ↦ unfold chunk_lock in rw (e, chunk_lock) (fresh (λ l h. absurd cc) refl)
  | inr (l, e) ↦ elim (Bool-cases (upgrade l)) [
    | inl live ↦ unfold chunk_lock in rw (e, live, chunk_lock) (reused l e live refl)
    | inr dead ↦
        unfold chunk_lock in
        rw (e, dead, chunk_lock)
          (fresh (λ k h. ap upgrade (some-injective k l (sym h ∙ e)) ∙ dead) refl)
  ]
]

abbrev entered : ℕ → ChunkHash → Tasks → ℕ × Loading → Tasks
entered t sha s r = record {
  loading = r.1;
  owners = put_owner t (some (record { sha = sha; lock = r.0; holding = false })) s;
}

-- A task that does not hold its lock yet joins.
enters :
    (t : ℕ) (sha : ChunkHash) (s : Tasks) (r : ℕ × Loading)
    → IsSound s
    → lookup sha r.1.locks ≡ some r.0
    → ((u : ℕ) (p : Owner) → s.owners u ≡ some p → lookup p.sha r.1.locks ≡ some p.lock)
    → r.0 < r.1.next
    → ((u : ℕ) (p : Owner) → s.owners u ≡ some p → p.lock < r.1.next)
    → IsSound (entered t sha s r)
enters t sha s r sound here others mine theirs = record {
  listed = λ u p h. elim (put_owner-cases t u _ s p h) [
    | inl (_, e) ↦
        subst (λ (x : Owner). lookup x.sha r.1.locks ≡ some x.lock) (some-injective _ p e) here
    | inr e ↦ others u p e
  ];
  old = λ u p h. elim (put_owner-cases t u _ s p h) [
    | inl (_, e) ↦ subst (λ (x : Owner). x.lock < r.1.next) (some-injective _ p e) mine
    | inr e ↦ theirs u p e
  ];
  single = λ u v o p ho hp same o_holds p_holds. elim (put_owner-cases t u _ s o ho) [
    | inl (_, e) ↦ absurd (let f = ap (λ (x : Owner). x.holding) (some-injective _ o e) in cc)
    | inr eo ↦ elim (put_owner-cases t v _ s p hp) [
      | inl (_, e) ↦ absurd (let f = ap (λ (x : Owner). x.holding) (some-injective _ p e) in cc)
      | inr ep ↦ sound.single u v o p eo ep same o_holds p_holds
    ]
  ];
}

step-IsSound : (s s' : Tasks) → IsSound s → Step s s' → IsSound s'
step-IsSound s _ sound (take_lock t sha upgrade idle live) =
    with_lock (chunk_lock upgrade sha s.loading) (chunk_lock_lem upgrade sha s.loading)
  where
    unaffected :
        ((l : ℕ) → lookup sha s.loading.locks ≡ some l → upgrade l ≡ false)
        → (u : ℕ) (p : Owner) → s.owners u ≡ some p
        → lookup p.sha (insert sha s.loading.next s.loading.locks) ≡ some p.lock
    unaffected dead u p h = elim (Bool-cases (sha == p.sha)) [
      | inl same ↦
          let there =
            ap (λ (k : ChunkHash). lookup k s.loading.locks) ((==_iff sha p.sha).0 same)
            ∙ sound.listed u p h in
          let alive = (live p.lock).1 (u, p, h, refl) in
          absurd (let no_owner = dead p.lock there in cc)
      | inr n ↦ lookup-insert sha p.sha s.loading.next s.loading.locks ∙ rw n (sound.listed u p h)
    ]

    with_lock : (r : ℕ × Loading) → LockOf upgrade sha s.loading r → IsSound (entered t sha s r)
    with_lock r (reused l e alive same) =
        let (u, p, hp, lp) = (live l).0 alive in
        subst (λ x. IsSound (entered t sha s x)) (sym same)
          (enters t sha s (l, s.loading) sound e sound.listed (omega (arith, sound.old u p hp, lp))
            sound.old)
    with_lock r (fresh dead new) =
        subst (λ x. IsSound (entered t sha s x)) (sym new)
          (enters t sha s
            (
              s.loading.next,
              record {
                locks = insert sha s.loading.next s.loading.locks;
                next = suc s.loading.next;
              },
            )
            sound (lookup-insert_self sha s.loading.next s.loading.locks) (unaffected dead)
            (omega arith) (λ u p h. omega (arith, sound.old u p h)))
step-IsSound s _ sound (grant t o mine unheld) = record {
  listed = λ u p h. elim (put_owner-cases t u _ s p h) [
    | inl (_, e) ↦
        subst (λ (x : Owner). lookup x.sha s.loading.locks ≡ some x.lock) (some-injective _ p e)
          (sound.listed t o mine)
    | inr e ↦ sound.listed u p e
  ];
  old = λ u p h. elim (put_owner-cases t u _ s p h) [
    | inl (_, e) ↦
        subst (λ (x : Owner). x.lock < s.loading.next) (some-injective _ p e) (sound.old t o mine)
    | inr e ↦ sound.old u p e
  ];
  single = λ u v q p hq hp same q_holds p_holds. elim (put_owner-cases t u _ s q hq) [
    | inl (tu, e) ↦ elim (put_owner-cases t v _ s p hp) [
      | inl (tv, e') ↦ sym tu ∙ tv
      | inr ep ↦ absurd (
          let no_one =
            unheld v p ep (sym (ap (λ (x : Owner). x.lock) (some-injective _ q e) ∙ same)) in
          cc)
    ]
    | inr eq ↦ elim (put_owner-cases t v _ s p hp) [
      | inl (_, e') ↦ absurd (
          let no_one =
            unheld u q eq (same ∙ sym (ap (λ (x : Owner). x.lock) (some-injective _ p e'))) in
          cc)
      | inr ep ↦ sound.single u v q p eq ep same q_holds p_holds
    ]
  ];
}
step-IsSound s _ sound (drop_lock t) = record {
  listed = λ u p h. elim (put_owner-cases t u none s p h) [
    | inl (_, e) ↦ absurd cc
    | inr e ↦ sound.listed u p e
  ];
  old = λ u p h. elim (put_owner-cases t u none s p h) [
    | inl (_, e) ↦ absurd cc
    | inr e ↦ sound.old u p e
  ];
  single = λ u v o p ho hp same o_holds p_holds. elim (put_owner-cases t u none s o ho) [
    | inl (_, e) ↦ absurd cc
    | inr eo ↦ elim (put_owner-cases t v none s p hp) [
      | inl (_, e) ↦ absurd cc
      | inr ep ↦ sound.single u v o p eo ep same o_holds p_holds
    ]
  ];
}

reachable-IsSound : (s : Tasks) → IsReachable s → IsSound s
reachable-IsSound _ (start n) = record {
  listed = λ t o h. absurd cc;
  old = λ t o h. absurd cc;
  single = λ t u o p h. absurd cc;
}
reachable-IsSound _ (after s s' r step) = step-IsSound s s' (reachable-IsSound s r) step

-- In any interleaving, two tasks that hold the lock they took for the same chunk are the same task:
-- a chunk is loaded by one task at a time.
pub locks_exclude :
    (s : Tasks) (t u : ℕ) (o p : Owner)
    → IsReachable s
    → s.owners t ≡ some o
    → s.owners u ≡ some p
    → o.sha ≡ p.sha
    → o.holding ≡ true
    → p.holding ≡ true
    → t ≡ u
locks_exclude s t u o p r ho hp same o_holds p_holds =
    let sound = reachable-IsSound s r in
    let e : o.lock ≡ p.lock = some-injective o.lock p.lock (
      sym (sound.listed t o ho)
      ∙ ap (λ (k : ChunkHash). lookup k s.loading.locks) same
      ∙ sound.listed u p hp) in
    sound.single t u o p ho hp e o_holds p_holds
