-- ===== src/Fuse/Paging.antt =====
-- Reading a directory through `emit_readdir` of crates/steam-depot-mount/src/fuse.rs, call after call.
use steam_depot_vfs.Prelude.{
  ℕ, zero, suc, ◌+◌, ◌≤◌, ◌<◌, ◌≡◌, refl, sym, ap, ◌∙◌, arith, Bool, true, false, List, [], ◌∷◌,
  ◌++◌, Option, some, none, length, take, drop, leb, if◌then◌else◌, Bool-cases, inl, inr,
  append_assoc, append-nil, length-drop, take-append-drop, drop-add,
}
use steam_depot_vfs.Depot.{Text}
use steam_depot_vfs.View.{Listing}
use steam_depot_vfs.Fuse.{FileType, DirEntry, all_entries, emit_from, emit_readdir}

-- The entries with their cookies, which count from `i + 1`.
abbrev pub numbered : ℕ → List (ℕ × FileType × Text) → List DirEntry
numbered i [] = []
numbered i ((ino, kind, name) ∷ all) =
    record { ino = ino; next_offset = i + 1; kind = kind; name = name } ∷ numbered (i + 1) all

-- The cookie of the next call: that of the last entry, or that of this call.
abbrev pub last_offset : ℕ → List DirEntry → ℕ
last_offset offset [] = offset
last_offset offset (e ∷ es) = last_offset e.next_offset es

abbrev join_pages : List DirEntry → Option (List DirEntry) → Option (List DirEntry)
join_pages [] more = some []
join_pages (e ∷ es) more = elim more [ none ↦ none | some rest ↦ some ((e ∷ es) ++ rest) ]

-- What a kernel collects that calls `readdir` until nothing comes; `none` when the fuel runs out.
-- Each call has a fresh buffer, of which `full` tells the size.
unfoldable pub read_all :
    (List DirEntry → DirEntry → Bool) → ℕ → ℕ → Listing → ℕ → Option (List DirEntry)
read_all full zero ino entries offset = none
read_all full (suc fuel) ino entries offset =
    let page = emit_readdir full ino entries offset in
    join_pages page (read_all full fuel ino entries (last_offset offset page))

drop-numbered :
    (i k : ℕ) (all : List (ℕ × FileType × Text))
    → drop k (numbered i all) ≡ numbered (i + k) (drop k all)
drop-numbered i zero all = let e : i + 0 ≡ i = omega arith in rw e
drop-numbered i (suc k) [] = refl
drop-numbered i (suc k) ((ino, kind, name) ∷ all) =
    let e : i + suc k ≡ i + 1 + k = omega arith in rw e (drop-numbered (i + 1) k all)

length-numbered : (i : ℕ) (all : List (ℕ × FileType × Text)) → length (numbered i all) ≡ length all
length-numbered i [] = refl
length-numbered i ((ino, kind, name) ∷ all) = ap suc (length-numbered (i + 1) all)

last-numbered :
    (i n : ℕ) (all : List (ℕ × FileType × Text))
    → n ≤ length all
    → last_offset i (take n (numbered i all)) ≡ i + n
last-numbered i zero all h = omega arith
last-numbered i (suc n) [] h = absurd (omega arith)
last-numbered i (suc n) ((ino, kind, name) ∷ all) h =
    last-numbered (i + 1) n all (omega arith) ∙ omega arith

module _ (full : List DirEntry → DirEntry → Bool) where
  -- Entries while the buffer takes them.
  abbrev fill : List DirEntry → List DirEntry → List DirEntry
  fill added [] = added
  fill added (e ∷ es) = let more = fill (added ++ e ∷ []) es in if full added e then added else more

  emit-all :
      (i offset : ℕ) (all : List (ℕ × FileType × Text)) (added : List DirEntry)
      → offset ≤ i
      → emit_from full i offset all added ≡ fill added (numbered i all)
  unfolding emit_from
  emit-all i offset [] added h = refl
  emit-all i offset ((ino, kind, name) ∷ all) added h =
      let e : DirEntry = record { ino = ino; next_offset = i + 1; kind = kind; name = name } in
      let seen : leb (i + 1) offset ≡ false = ground arith in
      rw (seen, emit-all (i + 1) offset all (added ++ e ∷ []) (omega arith)) refl

  emit-seen :
      (i offset ino : ℕ) (kind : FileType) (name : Text) (all : List (ℕ × FileType × Text))
      (added : List DirEntry)
      → leb (i + 1) offset ≡ true
      → emit_from full i offset ((ino, kind, name) ∷ all) added
        ≡ emit_from full (i + 1) offset all added
  unfolding emit_from
  emit-seen i offset ino kind name all added seen = rw seen refl

  emit-skip :
      (k i offset : ℕ) (all : List (ℕ × FileType × Text)) (added : List DirEntry)
      → offset ≡ i + k
      → emit_from full i offset all added ≡ fill added (drop k (numbered i all))
  emit-skip zero i offset all added h = emit-all i offset all added (omega arith)
  emit-skip (suc k) i offset [] added h = unfold emit_from in refl
  emit-skip (suc k) i offset ((ino, kind, name) ∷ all) added h =
      emit-seen i offset ino kind name all added (ground arith)
      ∙ emit-skip k (i + 1) offset all added (omega arith)

  -- It takes a first part of them.
  fill-take :
      (added es : List DirEntry) → (n : ℕ) × (n ≤ length es) × (fill added es ≡ added ++ take n es)
  fill-take added [] = (0, omega arith, sym (append-nil added))
  fill-take added (e ∷ es) =
      let (n, le, rest) = fill-take (added ++ e ∷ []) es in
      elim (Bool-cases (full added e)) [
        | inl stop ↦ (0, omega arith, rw stop (sym (append-nil added)))
        | inr go ↦ (suc n, omega arith, rw go (rest ∙ append_assoc added (e ∷ []) (take n es)))
      ]

  -- An empty buffer takes any entry.
  module _ (room : (e : DirEntry) → full [] e ≡ false) (ino : ℕ) (entries : Listing) where
    abbrev all : List (ℕ × FileType × Text)
    all = all_entries ino entries

    page-rest : (k : ℕ) → emit_readdir full ino entries k ≡ fill [] (numbered k (drop k all))
    unfolding emit_readdir
    page-rest k =
        let zero_add : 0 + k ≡ k = omega arith in
        emit-skip k 0 k all [] (omega arith)
        ∙ ap (λ (l : List DirEntry). fill [] l)
            (drop-numbered 0 k all ∙ ap (λ (n : ℕ). numbered n (drop k all)) zero_add)

    read_all-step :
        (fuel k : ℕ)
        → read_all full (suc fuel) ino entries k
          ≡ join_pages
              (emit_readdir full ino entries k)
              (read_all full fuel ino entries (last_offset k (emit_readdir full ino entries k)))
    unfolding read_all
    read_all-step fuel k = refl

    read_all-from :
        (fuel k : ℕ) (rest : List (ℕ × FileType × Text))
        → drop k all ≡ rest
        → length rest < fuel
        → read_all full fuel ino entries k ≡ some (numbered k rest)
    read_all-from zero k rest e enough = absurd (omega arith)
    read_all-from (suc fuel) k [] e enough =
        let p : emit_readdir full ino entries k ≡ [] =
          page-rest k ∙ ap (λ (l : List (ℕ × FileType × Text)). fill [] (numbered k l)) e in
        read_all-step fuel k ∙ rw p refl
    read_all-from (suc fuel) k ((child, kind, name) ∷ rest) e enough =
        let first : DirEntry = record {
          ino = child;
          next_offset = k + 1;
          kind = kind;
          name = name;
        } in
        let (n, le, part) = fill-take (first ∷ []) (numbered (k + 1) rest) in
        let few : n ≤ length rest = omega (arith, length-numbered (k + 1) rest) in
        let p : emit_readdir full ino entries k ≡ first ∷ take n (numbered (k + 1) rest) =
          page-rest k
          ∙ ap (λ (l : List (ℕ × FileType × Text)). fill [] (numbered k l)) e
          ∙ rw (room first) part in
        let last : last_offset (k + 1) (take n (numbered (k + 1) rest)) ≡ k + suc n =
          last-numbered (k + 1) n rest few ∙ omega arith in
        let later : drop (k + suc n) all ≡ drop n rest =
          drop-add all k (suc n) ∙ ap (λ (l : List (ℕ × FileType × Text)). drop (suc n) l) e in
        let next =
          read_all-from fuel (k + suc n) (drop n rest) later (omega (arith, length-drop n rest)) in
        let number : k + suc n ≡ k + 1 + n = omega arith in
        let whole : take n (numbered (k + 1) rest) ++ numbered (k + suc n) (drop n rest)
            ≡ numbered (k + 1) rest =
          ap (λ (m : ℕ). take n (numbered (k + 1) rest) ++ numbered m (drop n rest)) number
          ∙ ap (λ (l : List DirEntry). take n (numbered (k + 1) rest) ++ l)
              (sym (drop-numbered (k + 1) n rest))
          ∙ take-append-drop n (numbered (k + 1) rest) in
        read_all-step fuel k
        ∙ rw (p, last, next) (ap (λ (l : List DirEntry). some (first ∷ l)) whole)

-- A kernel that reads a directory from the start, passing on the last cookie of each reply, gets
-- `.`, `..` and every entry once and in order, and ends after at most as many calls as there are
-- of these and one more, whatever the size of its buffer, if an empty buffer takes any one entry.
pub fuse_read_all_lem :
    (full : List DirEntry → DirEntry → Bool)
    → ((e : DirEntry) → full [] e ≡ false)
    → (ino : ℕ) (entries : Listing) (fuel : ℕ) → length (all_entries ino entries) < fuel
    → read_all full fuel ino entries 0 ≡ some (numbered 0 (all_entries ino entries))
fuse_read_all_lem full room ino entries fuel enough =
    read_all-from full room ino entries fuel 0 (all_entries ino entries) refl enough
