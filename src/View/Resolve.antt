-- ===== src/View/Resolve.antt =====
-- `resolve` of crates/steam-depot-mount/src/view.rs: what a lazy slot is afterwards.
use steam_depot_vfs.Prelude.{ℕ, ◌≡◌, refl, ap, ◌∙◌, some, none, set}
use steam_depot_vfs.Depot.{Text}
use steam_depot_vfs.Outcome.{Outcome, ok, err, panicked}
use steam_depot_vfs.Fs.{DepotManifestStore}
use steam_depot_vfs.Tree.{SnapshotEntry, LazyEntry, pending, ready, Slot, MountTree, slot, promote}
use steam_depot_vfs.Tree.Changes.{slot-set}
use steam_depot_vfs.View.{is_ready, is_pending, slot_lookup, fill_cell, get_or_init, resolve}

module _ {O W : Type 0} (open_manifest : O → W → Outcome Text DepotManifestStore × W) where
  abbrev settle :
      ℕ
      → Outcome Text SnapshotEntry × MountTree O × W
      → Outcome Text SnapshotEntry × MountTree O × W
  settle sid (ok entry, t, w) = (ok entry, promote t sid entry, w)
  settle sid (err e, t, w) = (err e, t, w)
  settle sid (panicked, t, w) = (panicked, t, w)

  settle-cases :
      (sid : ℕ) (x : Outcome Text SnapshotEntry × MountTree O × W)
      → ◌≡◌ {A = Outcome Text SnapshotEntry × MountTree O × W}
          (elim x.0 [
            | ok entry ↦ (ok entry, promote x.1 sid entry, x.2)
            | err e ↦ (err e, x.1, x.2)
            | panicked ↦ (panicked, x.1, x.2)
          ])
          (settle sid x)
  settle-cases sid (ok entry, t, w) = refl
  settle-cases sid (err e, t, w) = refl
  settle-cases sid (panicked, t, w) = refl

  resolve-settle :
      (t : MountTree O) (l : LazyEntry O) (sid : ℕ) (w : W)
      → resolve open_manifest t l sid w ≡ settle sid (get_or_init open_manifest t l sid w)
  unfolding resolve
  resolve-settle t l sid w = settle-cases sid (get_or_init open_manifest t l sid w)

  module _ (t : MountTree O) (s : Slot O) (l : LazyEntry O) (sid : ℕ) (w : W)
      (there : slot t sid ≡ some s) (lazy : s.state ≡ pending l) (empty : l.cell ≡ none) where
    abbrev filled : Outcome Text SnapshotEntry → Slot O
    filled r = record s { state = pending (record l { cell = some r }) }

    abbrev cells : Outcome Text SnapshotEntry → MountTree O
    cells r = record t { slots = set t.slots sid (some (filled r)) }

    fills : (r : Outcome Text SnapshotEntry) → fill_cell t sid r ≡ cells r
    fills r = unfold fill_cell in rw (there, lazy, fill_cell) refl

    now_filled : (r : Outcome Text SnapshotEntry) → slot (cells r) sid ≡ some (filled r)
    now_filled r = slot-set t sid s (filled r) there

    promoted :
        (entry : SnapshotEntry)
        → slot_lookup (promote (cells (ok entry)) sid entry) sid ≡ is_ready entry
    promoted entry =
        let p : promote (cells (ok entry)) sid entry ≡ record t {
          slots = set (cells (ok entry)).slots sid (
              some (record (filled (ok entry)) {
                state = ready entry;
                creation_time = some entry.snapshot.manifest.creation_time;
              }));
        } =
          unfold promote in rw (now_filled (ok entry), promote) refl in
        ap (λ (x : MountTree O). slot_lookup x sid) p
        ∙ (unfold slot_lookup in
            rw
              (
                slot-set (cells (ok entry)) sid (filled (ok entry))
                    (record (filled (ok entry)) {
                      state = ready entry;
                      creation_time = some entry.snapshot.manifest.creation_time;
                    })
                    (now_filled (ok entry)),
                slot_lookup,
              )
              refl)

    -- The first `resolve` of a lazy slot runs the opener once. If it succeeds, the slot is ready with
    -- the opener's manifest; if it fails, the slot keeps the error; if it panics, so does `resolve`, and
    -- the tree is left as it was.
    pub resolve_lem :
        ((st : DepotManifestStore)
          → (open_manifest l.opener w).0 ≡ ok st
          → let res = resolve open_manifest t l sid w in
            (res.0 ≡ ok (record { snapshot = st }))
            × (slot_lookup res.1 sid ≡ is_ready (record { snapshot = st }))
            × (res.2 ≡ (open_manifest l.opener w).1))
        × ((e : Text)
            → (open_manifest l.opener w).0 ≡ err e
            → let res = resolve open_manifest t l sid w in
              (res.0 ≡ err e)
              × (slot_lookup res.1 sid ≡ is_pending (record l { cell = some (err e) }))
              × (res.2 ≡ (open_manifest l.opener w).1))
        × ((open_manifest l.opener w).0 ≡ panicked
            → resolve open_manifest t l sid w ≡ (panicked, t, (open_manifest l.opener w).1))
    resolve_lem = (
      λ st h.
          let entry : SnapshotEntry = record { snapshot = st } in
          let g : get_or_init open_manifest t l sid w
              ≡ (ok entry, cells (ok entry), (open_manifest l.opener w).1) =
            unfold get_or_init in rw (empty, h, fills (ok entry), get_or_init) refl in
          let q = resolve-settle t l sid w ∙ ap (settle sid) g in
          (
            ap (λ (x : Outcome Text SnapshotEntry × MountTree O × W). x.0) q,
            ap (λ (x : Outcome Text SnapshotEntry × MountTree O × W). slot_lookup x.1 sid) q
                ∙ promoted entry,
            ap (λ (x : Outcome Text SnapshotEntry × MountTree O × W). x.2) q,
          ),
      λ e h.
          let g : get_or_init open_manifest t l sid w
              ≡ (err e, cells (err e), (open_manifest l.opener w).1) =
            unfold get_or_init in rw (empty, h, fills (err e), get_or_init) refl in
          let q = resolve-settle t l sid w ∙ ap (settle sid) g in
          (
            ap (λ (x : Outcome Text SnapshotEntry × MountTree O × W). x.0) q,
            ap (λ (x : Outcome Text SnapshotEntry × MountTree O × W). slot_lookup x.1 sid) q
                ∙ (unfold slot_lookup in rw (now_filled (err e), slot_lookup) refl),
            ap (λ (x : Outcome Text SnapshotEntry × MountTree O × W). x.2) q,
          ),
      λ h.
          let g : get_or_init open_manifest t l sid w
              ≡ (panicked, t, (open_manifest l.opener w).1) =
            unfold get_or_init in rw (empty, h, get_or_init) refl in
          resolve-settle t l sid w ∙ ap (settle sid) g,
    )

  -- A lazy slot whose opener has failed once returns the same error, and the opener is not run again.
  pub resolve_failed :
      (t : MountTree O) (l : LazyEntry O) (sid : ℕ) (w : W) (e : Text)
      → l.cell ≡ some (err e)
      → resolve open_manifest t l sid w ≡ (err e, t, w)
  resolve_failed t l sid w e h =
      let g : get_or_init open_manifest t l sid w ≡ (err e, t, w) =
        unfold get_or_init in rw (h, get_or_init) refl in
      resolve-settle t l sid w ∙ ap (settle sid) g
