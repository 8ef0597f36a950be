-- ===== src/Tree/Abstract.antt =====
-- `MountTree` of crates/steam-depot-mount/src/tree.rs against what it promises: a partial map from the triple of
-- an app, a depot and a manifest to a snapshot id, in which an id is never given out twice.
use steam_depot_vfs.Prelude.{
  ℕ, ◌+◌, nat_eq, true, false, Bool, ◌&&◌, ◌≡◌, ◌≢◌, refl, sym, ap, ◌∙◌, arith, Option, some, none,
  length, ltb, ◌==◌, if◌then◌else◌, Option-cases, Bool-cases, inl, inr, nat_beq_iff, list_eq,
}
use steam_depot_vfs.Prelude.Maps.{lookup}
use steam_depot_vfs.Prelude.Decimal.{to_string}
use steam_depot_vfs.Outcome.{ok, err}
use steam_depot_vfs.Inode.{unpack}
use steam_depot_vfs.Inode.Packing.{unpack-pack}
use steam_depot_vfs.Tree.{
  Result, Slot, MountTree, already_mounted, too_many_snapshots, depot_path, max_snapshot_id, find,
  slot,
}
use steam_depot_vfs.Tree.Shape.{ino_of-none, ino_of-Depot}
use steam_depot_vfs.Tree.Ensuring.{children_of-dir}
use steam_depot_vfs.Tree.Matching.{AreSame, IsFor}
use steam_depot_vfs.Tree.Changes.{at, at-lt, slot-at}
use steam_depot_vfs.Tree.Valid.{names_of, IsValid}

pub record Mounted : Type 0 where
  pub ids : ℕ → ℕ → ℕ → Option ℕ
  pub next : ℕ

abbrev pub nothing_mounted : Mounted
nothing_mounted = record { ids = λ _ _ _. none; next = 1 }

abbrev pub is_triple : (a d g b e f : ℕ) → Bool
is_triple a d g b e f = a == b && (d == e && g == f)

-- An addition answers with the next id, unless the triple is mounted or the ids are used up.
abbrev pub mount_triple : (a d g : ℕ) → Mounted → Result ℕ × Mounted
mount_triple a d g m = elim (m.ids a d g) [
  | some _ ↦ (err (already_mounted a d g), m)
  | none ↦ if ltb max_snapshot_id m.next then (err too_many_snapshots, m) else (
    ok m.next,
    record {
      ids = λ b e f. if is_triple a d g b e f then some m.next else m.ids b e f;
      next = m.next + 1;
    },
  )
]

abbrev pub unless_id : ℕ → Option ℕ → Option ℕ
unless_id id none = none
unless_id id (some i) = if i == id then none else some i

abbrev pub unmount_id : ℕ → Mounted → Mounted
unmount_id id m = record m { ids = λ a d g. unless_id id (m.ids a d g) }

abbrev pub id_of : Option ℕ → Option ℕ
id_of none = none
id_of (some ino) = some (unpack ino).0

pub is_triple-true : (a d g b e f : ℕ) → AreSame a d g b e f → is_triple a d g b e f ≡ true
is_triple-true a d g b e f h = ground (arith, h.0, h.1, h.2)

pub is_triple-false : (a d g b e f : ℕ) → ¬ AreSame a d g b e f → is_triple a d g b e f ≡ false
is_triple-false a d g b e f h = elim (Bool-cases (is_triple a d g b e f)) [
  | inr other ↦ other
  | inl same ↦ absurd (h (ground arith, ground arith, ground arith))
]

module _ (a d g : ℕ) (m : Mounted) where
  pub mount_triple-taken :
      (id : ℕ) → m.ids a d g ≡ some id → mount_triple a d g m ≡ (err (already_mounted a d g), m)
  mount_triple-taken id e = rw (e, mount_triple) refl

  pub mount_triple-full :
      m.ids a d g ≡ none
      → ltb max_snapshot_id m.next ≡ true
      → mount_triple a d g m ≡ (err too_many_snapshots, m)
  mount_triple-full e k = rw (e, k, mount_triple) refl

  pub mount_triple-added :
      m.ids a d g ≡ none
      → ltb max_snapshot_id m.next ≡ false
      → mount_triple a d g m ≡ (
        ok m.next,
        record {
          ids = λ b e f. if is_triple a d g b e f then some m.next else m.ids b e f;
          next = m.next + 1;
        },
      )
  mount_triple-added e k = rw (e, k, mount_triple) refl

pub unless_id-other : (id : ℕ) (o : Option ℕ) → ((i : ℕ) → o ≡ some i → i ≢ id) → unless_id id o ≡ o
unless_id-other id none h = refl
unless_id-other id (some i) h = elim (Bool-cases (i == id)) [
  | inl same ↦ absurd (h i refl ((nat_beq_iff i id).0 same))
  | inr other ↦ rw other refl
]

module _ {O : Type 0} where
  pub record Agrees (t : MountTree O) (m : Mounted) : Type 0 where
    pub ids : (a d g : ℕ) → id_of (names_of t a d g) ≡ m.ids a d g
    pub next : length t.slots ≡ m.next

  -- `find` gives the id that the name of the manifest stands for.
  pub find-names :
      (t : MountTree O) (a d g : ℕ) → IsValid t → find t a d g ≡ ok (id_of (names_of t a d g))
  find-names t a d g v = elim (Option-cases (lookup (depot_path a d) t.synth_by_path)) [
    | inl e ↦
        rw (ino_of-none t.synthetic t.synth_by_path a d g e) (unfold find in rw (e, find) refl)
    | inr (ino, e) ↦
        let p = v.shaped.depots a d ino e in
        let c = children_of-dir t ino p.dir p.there in
        let at_name = λ (o : Option ℕ). elim o as (λ _. Result (Option ℕ)) [
          | none ↦ ok none
          | some gid_ino ↦ ok (some (unpack gid_ino).0)
        ] in
        let n = ino_of-Depot t.synthetic t.synth_by_path a d ino g p.dir e p.there in
        elim (Option-cases (lookup (to_string g) p.dir.children)) [
          | inl f ↦ rw (n ∙ f) (unfold find in rw (e, c, find) (ap at_name f))
          | inr (k, f) ↦ rw (n ∙ f) (unfold find in rw (e, c, find) (ap at_name f))
        ]
  ]

  -- A triple is mapped to the ids of the slots that hold it.
  pub Agrees-slot :
      (t : MountTree O) (m : Mounted) (a d g id : ℕ)
      → IsValid t
      → Agrees t m
      → m.ids a d g ≡ some id
      → (s : Slot O) × (slot t id ≡ some s) × IsFor s a d g
  Agrees-slot t m a d g id v h e = elim (Option-cases (names_of t a d g)) [
    | inl n ↦ absurd (let k = ap id_of n in let q = h.ids a d g in cc)
    | inr (ino, n) ↦
        let (i, s, p, here, f) = v.matches.held a d g ino n in
        let inside = at-lt t.slots i s here in
        let u =
          ap id_of n
          ∙ ap (λ (x : ℕ). some (unpack x).0) p
          ∙ ap (λ (x : ℕ × ℕ). some x.0)
              (unpack-pack i 0 (omega (arith, inside, v.matches.few)) (omega arith)) in
        let q = h.ids a d g in
        let is : i ≡ id = cc in (s, slot-at t id ∙ ap (λ (x : ℕ). at t.slots x) (sym is) ∙ here, f)
  ]

  -- The triple of a slot is mapped to it.
  pub Agrees-entered :
      (t : MountTree O) (m : Mounted) (id : ℕ) (s : Slot O)
      → IsValid t
      → Agrees t m
      → slot t id ≡ some s
      → m.ids s.app_id s.depot_id s.manifest_gid ≡ some id
  Agrees-entered t m id s v h e =
      let here = sym (slot-at t id) ∙ e in
      let inside = at-lt t.slots id s here in
      sym (h.ids s.app_id s.depot_id s.manifest_gid)
      ∙ ap id_of (v.matches.entered id s here)
      ∙ ap (λ (x : ℕ × ℕ). some x.0)
          (unpack-pack id 0 (omega (arith, inside, v.matches.few)) (omega arith))
