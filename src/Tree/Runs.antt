-- ===== src/Tree/Runs.antt =====
-- Any sequence of calls on `MountTree` of crates/steam-depot-mount/src/tree.rs.
use steam_depot_vfs.Prelude.{
  ℕ, ◌+◌, ◌*◌, ◌≤◌, ◌≡◌, refl, sym, ap, ◌∙◌, arith, List, [], ◌∷◌, Option, some, none, length, ◌↔◌,
}
use steam_depot_vfs.Outcome.{ok}
use steam_depot_vfs.Fs.{DepotManifestStore}
use steam_depot_vfs.Inode.{index_mask}
use steam_depot_vfs.Tree.{
  Result, Slot, MountTree, SnapshotEntry, new, add, add_lazy, remove, promote, find, slot,
  reserve_slot, ready, pending, SlotState,
}
use steam_depot_vfs.Tree.Matching.{IsFor, names_cong}
use steam_depot_vfs.Tree.Valid.{IsValid, reserve_slot-Added}
use steam_depot_vfs.Tree.Removal.{remove-Removed, promote-Promoted}
use steam_depot_vfs.Tree.Abstract.{
  Mounted, nothing_mounted, mount_triple, unmount_id, Agrees, Agrees-slot, Agrees-entered,
  find-names,
}
use steam_depot_vfs.Tree.Refines.{
  new-IsValid, new-Agrees, reserve_slot-Agrees, reserve_slot-IsValid, remove-Agrees, promote-Agrees,
  remove-answer,
}

-- A call that changes the tree.
pub data Request (O : Type 0) : Type 0 where
  adds : (app_id depot_id manifest_gid : ℕ) → DepotManifestStore → Request O
  adds_lazy : (app_id depot_id manifest_gid : ℕ) → O → Option ℕ → Request O
  removes : ℕ → Request O
  promotes : ℕ → SnapshotEntry → Request O

module _ {O : Type 0} where
  -- The answers of the additions, and the tree in the end.
  abbrev pub run : List (Request O) → MountTree O → List (Result ℕ) × MountTree O
  run [] t = ([], t)
  run (adds a d g snapshot ∷ requests) t =
      let (answer, t') = add t a d g snapshot in
      let (answers, u) = run requests t' in (answer ∷ answers, u)
  run (adds_lazy a d g opener hint ∷ requests) t =
      let (answer, t') = add_lazy t a d g opener hint in
      let (answers, u) = run requests t' in (answer ∷ answers, u)
  run (removes id ∷ requests) t = run requests (remove t id).1
  run (promotes id entry ∷ requests) t = run requests (promote t id entry)

  -- The same for the partial map.
  abbrev pub promised : List (Request O) → Mounted → List (Result ℕ) × Mounted
  promised [] m = ([], m)
  promised (adds a d g snapshot ∷ requests) m =
      let (answer, m') = mount_triple a d g m in
      let (answers, n) = promised requests m' in (answer ∷ answers, n)
  promised (adds_lazy a d g opener hint ∷ requests) m =
      let (answer, m') = mount_triple a d g m in
      let (answers, n) = promised requests m' in (answer ∷ answers, n)
  promised (removes id ∷ requests) m = promised requests (unmount_id id m)
  promised (promotes id entry ∷ requests) m = promised requests m

  -- There is room for the directories of so many requests.
  abbrev pub Fits : List (Request O) → MountTree O → Type 0
  Fits requests t = length t.synthetic + 2 * length requests ≤ index_mask

  -- What an addition leaves, for the rest of the requests.
  record Goes (t : MountTree O) (m : Mounted) (a d g : ℕ) (res : Result ℕ × MountTree O)
      : Type 0 where
    answer : res.0 ≡ (mount_triple a d g m).0
    agrees : Agrees res.1 (mount_triple a d g m).1
    valid : IsValid res.1
    longer : length res.1.synthetic ≤ length t.synthetic + 2

  add-Goes :
      (t : MountTree O) (m : Mounted) (a d g : ℕ) (state : SlotState O) (hint : Option ℕ)
      → IsValid t
      → Agrees t m
      → length t.synthetic + 1 ≤ index_mask
      → Goes t m a d g (reserve_slot t a d g state hint)
  add-Goes t m a d g state hint v h small =
      let made = reserve_slot-Added t a d g state hint v small in
      let (answer, agrees) =
        reserve_slot-Agrees t m a d g (reserve_slot t a d g state hint) h made in
      record {
        answer = answer;
        agrees = agrees;
        valid = reserve_slot-IsValid t a d g (reserve_slot t a d g state hint) v made;
        longer = made.longer;
      }

  -- Whatever is added, resolved and removed, the additions answer as the partial map does, and in the
  -- end the tree agrees with the map and keeps its invariant.
  run-Agrees :
      (requests : List (Request O)) (t : MountTree O) (m : Mounted)
      → IsValid t
      → Agrees t m
      → Fits requests t
      → ((run requests t).0 ≡ (promised requests m).0)
        × Agrees (run requests t).1 (promised requests m).1
        × IsValid (run requests t).1
  run-Agrees [] t m v h small = (refl, h, v)
  run-Agrees (adds a d g snapshot ∷ requests) t m v h small =
      let goes : Goes t m a d g (add t a d g snapshot) =
        unfold add in
        add-Goes t m a d g (ready (record { snapshot = snapshot })) none v h
          (omega (arith, small)) in
      let (answers, agrees, valid) =
        run-Agrees requests (add t a d g snapshot).1 (mount_triple a d g m).1 goes.valid goes.agrees
          (omega (arith, small, goes.longer)) in
      (let e = goes.answer in cc, agrees, valid)
  run-Agrees (adds_lazy a d g opener hint ∷ requests) t m v h small =
      let goes : Goes t m a d g (add_lazy t a d g opener hint) =
        unfold add_lazy in
        add-Goes t m a d g (pending (record { opener = opener; cell = none })) hint v h
          (omega (arith, small)) in
      let (answers, agrees, valid) =
        run-Agrees requests (add_lazy t a d g opener hint).1 (mount_triple a d g m).1 goes.valid
          goes.agrees (omega (arith, small, goes.longer)) in
      (let e = goes.answer in cc, agrees, valid)
  run-Agrees (removes id ∷ requests) t m v h small =
      let gone = remove-Removed t id v in
      run-Agrees requests (remove t id).1 (unmount_id id m) gone.valid (remove-Agrees t m id v h)
        (omega (arith, small, gone.as_long))
  run-Agrees (promotes id entry ∷ requests) t m v h small =
      let p = promote-Promoted t id entry v in
      run-Agrees requests (promote t id entry) m p.valid (promote-Agrees t m id entry v h)
        (omega (arith, small, ap length p.same_dirs))

  -- For any sequence of at most 2^47 - 2 calls of `add`, `add_lazy`, `remove` and `promote` on a new
  -- tree: each addition returns what a partial map from triples to ids promises, which is the next id,
  -- `AlreadyMounted` where the triple has an id, or `TooManySnapshots` once 65535 ids are given out,
  -- and never panics; in the end `find` gives for each triple what the map holds, a triple has an id
  -- in the map exactly when the slot of that id holds the triple, and a `remove` of any id returns
  -- the slot of that id.
  pub tree_refines :
      (requests : List (Request O))
      → Fits requests new
      → let (answers, t) = run requests new in
        let (promises, m) = promised requests nothing_mounted in
        (answers ≡ promises)
        × ((a d g : ℕ) → find t a d g ≡ ok (m.ids a d g))
        × ((a d g id : ℕ)
            → (m.ids a d g ≡ some id) ↔ ((s : Slot O) × (slot t id ≡ some s) × IsFor s a d g))
        × ((id : ℕ) → (remove t id).0 ≡ ok (slot t id))
  tree_refines requests small =
      let (answers, agrees, valid) =
        run-Agrees requests new nothing_mounted new-IsValid new-Agrees small in
      let t = (run requests new).1 in
      let m = (promised requests nothing_mounted).1 in
      (
        answers,
        λ a d g. find-names t a d g valid ∙ ap ok (agrees.ids a d g),
        λ a d g id. (
          Agrees-slot t m a d g id valid agrees,
          λ held.
              sym (names_cong m.ids _ _ _ _ _ _ held.2)
              ∙ Agrees-entered t m id held.0 valid agrees held.1,
        ),
        λ id. remove-answer t id valid,
      )
