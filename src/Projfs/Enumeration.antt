-- ===== src/Projfs/Enumeration.antt =====
-- A directory enumeration through the callbacks of crates/projfs/src/lib.rs, from its start on.
use steam_depot_vfs.Prelude.{
  ℕ, zero, suc, ◌+◌, ◌≤◌, ◌<◌, ◌≡◌, refl, sym, ap, ◌∙◌, arith, true, false, List, [], ◌∷◌, ◌++◌,
  map, Option, some, none, length, take, drop, if◌then◌else◌, Bool-cases, inl, inr, ◌⊎◌, ◌==◌,
  nat_eq, length-drop, take-all, take-append-drop, drop-add,
}
use steam_depot_vfs.Prelude.Maps.{lookup, insert, lookup-insert_self}
use steam_depot_vfs.Depot.{Text}
use steam_depot_vfs.Projfs.{
  s_ok, DirEntry, Filesystem, Entry, EnumSession, Guid, guid_key, PcWstr, path_from_pcwstr,
  expression_of, Context, Windows, entry_of, insert_sorted, sort_entries, fill_from, captured,
  get_from_session, after_get, start_dir_enum, get_dir_enum,
}
use steam_depot_vfs.Projfs.Pages.{Fills, kept, kept-append, fill_from-Page}

module _ (windows : Windows) where
  abbrev continued : Option (List Entry) → List Entry → Option (List Entry)
  continued more [] = some []
  continued more (e ∷ es) = elim more [ none ↦ none | some rest ↦ some ((e ∷ es) ++ rest) ]

  abbrev next_scan :
      {D : Type 0}
      → (Context D → Option (List Entry))
      → ℕ × Context D × List Entry
      → Option (List Entry)
  next_scan again (hr, ctx, buffer) =
      let more = again ctx in if hr == s_ok then continued more buffer else none

  -- What a caller collects that asks until nothing comes; `none` when the fuel runs out or a call fails.
  unfoldable pub scan_all :
      {E D : Type 0} → Filesystem E D → ℕ → PcWstr → Guid → Context D → Option (List Entry)
  scan_all fs zero expression id ctx = none
  scan_all fs (suc fuel) expression id ctx =
      next_scan (scan_all fs fuel expression id) (get_dir_enum windows fs false expression id ctx)

  module _ {E D : Type 0} (fs : Filesystem E D) (fills : Fills windows) (expression : PcWstr)
      (id : Guid) where
    abbrev pattern_of : Option Text
    pattern_of = expression_of expression

    record At (ctx : Context D) (rest : List Entry) : Type 0 where
      sess : EnumSession
      there : lookup (guid_key id) ctx.enums ≡ some sess
      searched : (captured windows expression sess).search ≡ pattern_of
      left : drop sess.index sess.entries ≡ rest

    captured_lem :
        (sess : EnumSession)
        → let s = captured windows expression sess in
          (s.entries ≡ sess.entries) × (s.index ≡ sess.index) × (s.search_captured ≡ true)
    captured_lem sess = (ground arith, ground arith, ground arith)

    -- The session after a call, which is captured.
    captured_again :
        (s : EnumSession) (n : ℕ)
        → s.search_captured ≡ true
        → captured windows expression (record s { index = n }) ≡ record s { index = n }
    captured_again s n c = rw c refl

    abbrev answer_of : EnumSession → ℕ × ℕ × List Entry → ℕ × EnumSession × List Entry
    answer_of s r = (r.0, record s { index = r.1 }, r.2)

    got_session :
        (ctx : Context D) (sess : EnumSession)
        → lookup (guid_key id) ctx.enums ≡ some sess
        → get_dir_enum windows fs false expression id ctx
          ≡ after_get windows fs id ctx (get_from_session windows false expression sess)
    got_session ctx sess there = unfold get_dir_enum in rw (there, get_dir_enum) refl

    record Call (ctx : Context D) (rest : List Entry) : Type 0 where
      n : ℕ
      few : n ≤ length rest
      last : kept windows pattern_of (take n rest) ≡ [] → n ≡ length rest
      after : Context D
      call :
          get_dir_enum windows fs false expression id ctx
          ≡ (s_ok, after, kept windows pattern_of (take n rest))
      then_at : At after (drop n rest)

    get_dir_enum-Call : (ctx : Context D) (rest : List Entry) → At ctx rest → Call ctx rest
    get_dir_enum-Call ctx rest at =
        let s = captured windows expression at.sess in
        let (same_entries, same_index, c) = captured_lem at.sess in
        let p =
          fill_from-Page windows fills pattern_of rest s.index false [] (λ h. absurd (h refl)) in
        let where_at : drop s.index s.entries ≡ rest =
          ap (λ (k : ℕ). drop k s.entries) same_index
          ∙ ap (λ (l : List Entry). drop at.sess.index l) same_entries
          ∙ at.left in
        let filled : fill_from windows s.search (drop s.index s.entries) s.index false []
            ≡ (s_ok, s.index + p.n, kept windows pattern_of (take p.n rest)) =
          ap (λ (o : Option Text). fill_from windows o (drop s.index s.entries) s.index false [])
            at.searched
          ∙ ap (λ (l : List Entry). fill_from windows pattern_of l s.index false []) where_at
          ∙ p.page in
        let got : get_from_session windows false expression at.sess
            ≡ (s_ok, record s { index = s.index + p.n }, kept windows pattern_of (take p.n rest)) =
          unfold get_from_session in ap (λ r. answer_of s r) filled in
        let s' : EnumSession = record s { index = s.index + p.n } in
        record {
          n = p.n;
          few = p.few;
          last = p.last;
          after = record ctx { enums = insert (guid_key id) s' ctx.enums };
          call =
              got_session ctx at.sess at.there
              ∙ ap (λ (r : ℕ × EnumSession × List Entry). after_get windows fs id ctx r) got;
          then_at = record {
            sess = s';
            there = lookup-insert_self (guid_key id) s' ctx.enums;
            searched =
                ap (λ (x : EnumSession). x.search) (captured_again s (s.index + p.n) c)
                ∙ at.searched;
            left = drop-add s.entries s.index p.n ∙ ap (λ (l : List Entry). drop p.n l) where_at;
          };
        }

    scan-step :
        (fuel : ℕ) (ctx after : Context D) (buffer : List Entry)
        → get_dir_enum windows fs false expression id ctx ≡ (s_ok, after, buffer)
        → scan_all fs (suc fuel) expression id ctx
          ≡ continued (scan_all fs fuel expression id after) buffer
    unfolding scan_all
    scan-step fuel ctx after buffer e =
        ap (λ (r : ℕ × Context D × List Entry). next_scan (scan_all fs fuel expression id) r) e

    List-cases : (l : List Entry) → (l ≡ []) ⊎ ((e : Entry) × (es : List Entry) × (l ≡ e ∷ es))
    List-cases [] = inl refl
    List-cases (e ∷ es) = inr (e, es, refl)

    taken_moves :
        (n : ℕ) (rest : List Entry) (e : Entry) (es : List Entry)
        → kept windows pattern_of (take n rest) ≡ e ∷ es
        → 0 < n
    taken_moves zero rest e es h = absurd cc
    taken_moves (suc n) rest e es h = omega arith

    scan-from :
        (fuel : ℕ) (ctx : Context D) (rest : List Entry)
        → At ctx rest
        → length rest < fuel
        → scan_all fs fuel expression id ctx ≡ some (kept windows pattern_of rest)
    scan-from zero ctx rest at enough = absurd (omega arith)
    scan-from (suc fuel) ctx rest at enough =
        let c = get_dir_enum-Call ctx rest at in
        let later = scan-from fuel c.after (drop c.n rest) c.then_at in
        scan-step fuel ctx c.after (kept windows pattern_of (take c.n rest)) c.call
        ∙ elim (List-cases (kept windows pattern_of (take c.n rest))) [
          | inl nothing ↦
              let all : take c.n rest ≡ rest = take-all c.n rest (omega (arith, c.last nothing)) in
              let none_left : kept windows pattern_of rest ≡ [] =
                ap (λ (l : List Entry). kept windows pattern_of l) (sym all) ∙ nothing in
              rw (nothing, none_left) refl
          | inr (e, es, some_taken) ↦
              let moved : 0 < c.n = taken_moves c.n rest e es some_taken in
              let more = later (omega (arith, length-drop c.n rest, c.few)) in
              rw (some_taken, more)
                (ap some (
                  ap (λ (l : List Entry). l ++ kept windows pattern_of (drop c.n rest))
                    (sym some_taken)
                  ∙ sym (kept-append windows pattern_of (take c.n rest) (drop c.n rest))
                  ∙ ap (λ (l : List Entry). kept windows pattern_of l) (take-append-drop c.n rest)))
        ]

    fresh : List DirEntry → EnumSession
    fresh listed = record {
      entries = sort_entries windows (map entry_of listed);
      index = 0;
      search = none;
      search_captured = false;
    }

    started :
        (path : PcWstr) (ctx : Context D) (listed : List DirEntry)
        → (fs.list_directory (path_from_pcwstr path) ctx.source).0 ≡ some listed
        → start_dir_enum windows fs path id ctx ≡ (
          s_ok,
          record {
            source = (fs.list_directory (path_from_pcwstr path) ctx.source).1;
            enums = insert (guid_key id) (fresh listed) ctx.enums;
          },
        )
    unfolding fresh
    started path ctx listed e = unfold start_dir_enum in rw (e, start_dir_enum) refl

    fresh-At :
        (source : D) (ctx : Context D) (listed : List DirEntry)
        → At
            (record { source = source; enums = insert (guid_key id) (fresh listed) ctx.enums })
            (sort_entries windows (map entry_of listed))
    unfolding fresh
    fresh-At source ctx listed = record {
      sess = fresh listed;
      there = lookup-insert_self (guid_key id) (fresh listed) ctx.enums;
      searched = refl;
      left = refl;
    }

    length-insert :
        (e : Entry) (l : List Entry) → length (insert_sorted windows e l) ≡ suc (length l)
    unfolding insert_sorted
    length-insert e [] = refl
    length-insert (n, i) ((m, j) ∷ l) = elim (Bool-cases (windows.name_le n m)) [
      | inl le ↦ rw le refl
      | inr gt ↦ rw gt (ap suc (length-insert (n, i) l))
    ]

    length-sort : (l : List DirEntry) → length (sort_entries windows (map entry_of l)) ≡ length l
    unfolding sort_entries
    length-sort [] = refl
    length-sort (e ∷ l) =
        length-insert (entry_of e) (sort_entries windows (map entry_of l)) ∙ ap suc (length-sort l)

  -- An enumeration that lists `path` and then asks until nothing comes gets every entry of the listing
  -- that matches the expression of its first call, once and in the order of the names, whatever the
  -- size of the buffers, if an empty one takes any entry; it ends after at most as many calls as there
  -- are entries and one more.
  pub enumeration_lem :
      {E D : Type 0} (fs : Filesystem E D)
      → Fills windows
      → (path expression : PcWstr) (id : Guid) (ctx : Context D) (listed : List DirEntry) (fuel : ℕ)
      → (fs.list_directory (path_from_pcwstr path) ctx.source).0 ≡ some listed
      → length listed < fuel
      → ((start_dir_enum windows fs path id ctx).0 ≡ s_ok)
        × (scan_all fs fuel expression id (start_dir_enum windows fs path id ctx).1
            ≡ some (
                kept windows
                  (expression_of expression)
                  (sort_entries windows (map entry_of listed))))
  enumeration_lem {E} {D} fs fills path expression id ctx listed fuel e enough =
      let begun = started fs fills expression id path ctx listed e in
      let source = (fs.list_directory (path_from_pcwstr path) ctx.source).1 in
      (
        ap (λ (r : ℕ × Context D). r.0) begun,
        ap (λ (r : ℕ × Context D). scan_all fs fuel expression id r.1) begun
            ∙ scan-from fs fills expression id fuel _ (sort_entries windows (map entry_of listed))
                (fresh-At fs fills expression id source ctx listed)
                (omega (arith, length-sort fs fills expression id listed)),
      )
