-- ===== src/Nfs/Paging.antt =====
-- Reading a directory page by page through `readdir` of crates/steam-depot-mount/src/nfs.rs.
use steam_depot_vfs.Prelude.{
  ℕ, zero, suc, ◌+◌, ◌<◌, ◌≡◌, ◌≢◌, refl, sym, ap, ◌∙◌, subst, arith, true, false, List, [], ◌∷◌,
  ◌++◌, map, Option, some, none, length, take, drop, leb, if◌then◌else◌, ◌==◌, nat_eq, nat_beq_iff,
  Bool-cases, inl, inr, append_assoc, length-append, drop-length-add, length-take, length-drop,
  take-append-drop, take-all,
}
use steam_depot_vfs.Depot.{Text}
use steam_depot_vfs.View.{Node, Listing}
use steam_depot_vfs.Nfs.{DirEntry, ReadDirResult, dir_entry, position_after, skip_of, page_of}

abbrev ino_at : Text × Node → ℕ
ino_at (name, n) = n.ino

-- No entry of the listing has the inode.
abbrev pub Without : ℕ → Listing → Type 0
Without ino [] = Unit
Without ino (e ∷ l) = (ino_at e ≢ ino) × Without ino l

-- The inodes are different, and none is zero, which stands for the start of a directory.
abbrev pub Distinct : Listing → Type 0
Distinct [] = Unit
Distinct (e ∷ l) = (ino_at e ≢ 0) × Without (ino_at e) l × Distinct l

position-Without :
    (before : Listing) (e : Text × Node) (after : Listing)
    → Without (ino_at e) before
    → position_after (ino_at e) (before ++ e ∷ after) ≡ some (length before + 1)
unfolding position_after
position-Without [] (name, n) after h =
    let same : (n.ino == n.ino) ≡ true = (nat_beq_iff n.ino n.ino).1 refl in rw same refl
position-Without ((m, k) ∷ before) (name, n) after (other, h) =
    let differ : (k.ino == n.ino) ≡ false = ground (arith, other) in
    let rest = position-Without before (name, n) after h in
    rw (differ, rest) (ap some (omega arith))

Distinct-before :
    (before : Listing) (e : Text × Node) (after : Listing)
    → Distinct (before ++ e ∷ after)
    → (ino_at e ≢ 0) × Without (ino_at e) before
Distinct-before [] e after d = (d.0, tt)
Distinct-before (b ∷ before) e after (nonzero, without, d) =
    let (z, w) = Distinct-before before e after d in (z, (λ q. absent before without q, w))
  where
    absent : (bs : Listing) → Without (ino_at b) (bs ++ e ∷ after) → ino_at b ≢ ino_at e
    absent [] h q = h.0 (sym q)
    absent (x ∷ bs) h q = absent bs h.1 q

skip_after :
    (before : Listing) (e : Text × Node) (after : Listing)
    → Distinct (before ++ e ∷ after)
    → skip_of (ino_at e) (before ++ e ∷ after) ≡ length before + 1
skip_after before e after d =
    let (nonzero, without) = Distinct-before before e after d in
    let z : (ino_at e == 0) ≡ false = ground (arith, nonzero) in
    rw (z, position-Without before e after without) refl

-- The cookie of the next call: the inode of the last entry of a page, or that of this call.
abbrev pub last_id : ℕ → List DirEntry → ℕ
last_id cookie [] = cookie
last_id cookie (e ∷ es) = last_id e.fileid es

-- What a client collects that calls `readdir` until `end`; `none` when the fuel runs out.
unfoldable pub read_all : ℕ → Listing → ℕ → ℕ → Option (List DirEntry)
read_all zero entries cookie max = none
read_all (suc fuel) entries cookie max =
    let page = page_of entries cookie max in
    let more = read_all fuel entries (last_id cookie page.entries) max in
    if page.end
    then some page.entries
    else elim more [ none ↦ none | some es ↦ some (page.entries ++ es) ]

-- Where the client is: it has seen `seen`, and the cookie says so.
data At (seen : Listing) : ℕ → Type 0 where
  at_start : seen ≡ [] → At seen 0
  at_entry : (before : Listing) (e : Text × Node) → seen ≡ before ++ e ∷ [] → At seen (ino_at e)

skip-At :
    (seen rest : Listing) (cookie : ℕ)
    → Distinct (seen ++ rest)
    → At seen cookie
    → skip_of cookie (seen ++ rest) ≡ length seen
skip-At seen rest _ d (at_start e) = omega (arith, ap length e)
skip-At seen rest _ d (at_entry before e same) =
    let split : seen ++ rest ≡ before ++ e ∷ rest =
      ap (λ (l : Listing). l ++ rest) same ∙ append_assoc before (e ∷ []) rest in
    let len : length seen ≡ length before + 1 = ap length same ∙ length-append before (e ∷ []) in
    ap (skip_of (ino_at e)) split ∙ skip_after before e rest (subst Distinct split d) ∙ sym len

length-map : (l : Listing) → length (map dir_entry l) ≡ length l
length-map [] = refl
length-map (e ∷ l) = ap suc (length-map l)

same_end : (a b c : ℕ) → leb (a + b) (a + c) ≡ leb b c
same_end a b c = ground arith

drop-seen : (seen rest : Listing) → drop (length seen) (seen ++ rest) ≡ rest
drop-seen seen rest =
    let e : length seen + 0 ≡ length seen = omega arith in
    ap (λ (n : ℕ). drop n (seen ++ rest)) (sym e) ∙ drop-length-add seen rest 0

abbrev next_page : Listing → ℕ → ReadDirResult
next_page rest max = record {
  entries = map dir_entry (take max rest);
  end = leb (length rest) (length (take max rest));
}

-- A page is the next entries, and says whether they are the last.
page-At :
    (seen rest : Listing) (cookie max : ℕ)
    → Distinct (seen ++ rest)
    → At seen cookie
    → page_of (seen ++ rest) cookie max ≡ next_page rest max
unfolding page_of
page-At seen rest cookie max d at =
    let skip = skip-At seen rest cookie d at in
    let page = take max rest in
    rw
      (
        skip,
        drop-seen seen rest,
        length-append seen rest,
        length-map page,
        same_end (length seen) (length rest) (length page),
      )
      refl

last-At :
    (seen xs : Listing) (x : Text × Node) (cookie : ℕ)
    → At (seen ++ x ∷ xs) (last_id cookie (map dir_entry (x ∷ xs)))
last-At seen [] (name, n) cookie = at_entry seen (name, n) refl
last-At seen (y ∷ xs) (name, n) cookie =
    subst (λ (l : Listing). At l (last_id n.ino (map dir_entry (y ∷ xs))))
      (append_assoc seen ((name, n) ∷ []) (y ∷ xs)) (last-At (seen ++ (name, n) ∷ []) xs y n.ino)

last-At_page :
    (seen page : Listing) (cookie : ℕ)
    → 0 < length page
    → At (seen ++ page) (last_id cookie (map dir_entry page))
last-At_page seen [] cookie h = absurd (omega arith)
last-At_page seen (x ∷ xs) cookie h = last-At seen xs x cookie

map-append : (xs ys : Listing) → map dir_entry xs ++ map dir_entry ys ≡ map dir_entry (xs ++ ys)
map-append [] ys = refl
map-append (x ∷ xs) ys = ap (◌∷◌ (dir_entry x)) (map-append xs ys)

abbrev rest_of : ℕ → Listing → ℕ → ReadDirResult → ℕ → Option (List DirEntry)
rest_of fuel entries cookie page max =
    let more = read_all fuel entries (last_id cookie page.entries) max in
    if page.end
    then some page.entries
    else elim more [ none ↦ none | some es ↦ some (page.entries ++ es) ]

read_all-step :
    (fuel : ℕ) (entries : Listing) (cookie max : ℕ)
    → read_all (suc fuel) entries cookie max
      ≡ rest_of fuel entries cookie (page_of entries cookie max) max
unfolding read_all
read_all-step fuel entries cookie max = refl

read_all-from :
    (fuel : ℕ) (seen rest : Listing) (cookie max : ℕ)
    → 0 < max
    → Distinct (seen ++ rest)
    → At seen cookie
    → length rest < fuel
    → read_all fuel (seen ++ rest) cookie max ≡ some (map dir_entry rest)
read_all-from zero seen rest cookie max some_room d at enough = absurd (omega arith)
read_all-from (suc fuel) seen rest cookie max some_room d at enough =
    read_all-step fuel (seen ++ rest) cookie max
    ∙ ap (λ (p : ReadDirResult). rest_of fuel (seen ++ rest) cookie p max)
        (page-At seen rest cookie max d at)
    ∙ elim (Bool-cases (leb (length rest) (length page))) [
      | inl last ↦
          let whole : page ≡ rest =
            take-all max rest (ground (arith, length-take max rest, last)) in
          rw last (ap (λ (l : Listing). some (map dir_entry l)) whole)
      | inr more ↦
          let shorter : length page < length rest = ground (arith, more) in
          let n = length-take max rest in
          let join : page ++ drop max rest ≡ rest = take-append-drop max rest in
          let split : (seen ++ page) ++ drop max rest ≡ seen ++ rest =
            append_assoc seen page (drop max rest) ∙ ap (λ (l : Listing). seen ++ l) join in
          let next : read_all fuel (seen ++ rest) (last_id cookie (map dir_entry page)) max
              ≡ some (map dir_entry (drop max rest)) =
            ap (λ (l : Listing). read_all fuel l (last_id cookie (map dir_entry page)) max)
              (sym split)
            ∙ read_all-from fuel (seen ++ page) (drop max rest)
                (last_id cookie (map dir_entry page)) max some_room (subst Distinct (sym split) d)
                (last-At_page seen page cookie (omega (arith, n, shorter)))
                (omega (arith, length-drop max rest, n, shorter)) in
          rw (more, next)
            (ap some (map-append page (drop max rest) ∙ ap (λ (l : Listing). map dir_entry l) join))
    ]
  where
    page : Listing
    page = take max rest

-- A client that reads a directory from the start in pages of at least one entry, passing on the last
-- inode of each page as the next cookie, gets every entry of the listing once and in order, and
-- ends after at most as many calls as there are entries and one more, if the entries' inodes are
-- different and not zero.
pub read_all_lem :
    (entries : Listing) (max fuel : ℕ)
    → 0 < max
    → Distinct entries
    → length entries < fuel
    → read_all fuel entries 0 max ≡ some (map dir_entry entries)
read_all_lem entries max fuel some_room d enough =
    read_all-from fuel [] entries 0 max some_room d (at_start refl) enough
