-- ===== src/NfsSession/Tables.antt =====
-- What `is_mounted` of crates/steam-depot-mount/src/nfs_session.rs finds in the mount table.
use steam_depot_vfs.Prelude.{
  ℕ, zero, suc, ◌≡◌, ◌≢◌, refl, sym, ap, subst, ◌∙◌, Bool, true, false, ◌||◌, List, [], ◌∷◌, ◌++◌,
  Option, some, none, get_elem?, ◌==◌, ==_iff, nat_eq, list_eq, Bool-cases, inl, inr, ◌⊎◌,
}
use steam_depot_vfs.Depot.{Text}
use steam_depot_vfs.Outcome.{ok}
use steam_depot_vfs.NfsSession.{
  System, is_white, end_field, split_from, split_whitespace, lines, is_text, mounts_on,
  any_mounts_on, resolved, in_table, look_up, is_mounted,
}

abbrev pub has_white : Text → Bool
has_white [] = false
has_white (c ∷ s) = is_white c || has_white s

has_white-snoc :
    (s : Text) (c : ℕ) → has_white s ≡ false → is_white c ≡ false → has_white (s ++ c ∷ []) ≡ false
has_white-snoc [] c h w = rw w refl
has_white-snoc (d ∷ s) c h w = elim (Bool-cases (is_white d)) [
  | inl e ↦ absurd (let q : has_white (d ∷ s) ≡ true = rw (e, has_white) refl in cc)
  | inr e ↦ rw (e, has_white) (has_white-snoc s c (sym (rw (e, has_white) refl) ∙ h) w)
]

abbrev ArePlain : List Text → Type 0
ArePlain [] = Unit
ArePlain (f ∷ fs) = (has_white f ≡ false) × ArePlain fs

end_field-ArePlain :
    (field : Text) (fs : List Text)
    → has_white field ≡ false
    → ArePlain fs
    → ArePlain (end_field field fs)
end_field-ArePlain [] fs h a = a
end_field-ArePlain (c ∷ cs) fs h a = (h, a)

split_from-ArePlain : (field s : Text) → has_white field ≡ false → ArePlain (split_from field s)
unfolding split_from
split_from-ArePlain field [] h = end_field-ArePlain field [] h tt
split_from-ArePlain field (c ∷ s) h = elim (Bool-cases (is_white c)) [
  | inl e ↦
      rw (e, split_from)
        (end_field-ArePlain field (split_from [] s) h (split_from-ArePlain [] s refl))
  | inr e ↦
      rw (e, split_from) (split_from-ArePlain (field ++ c ∷ []) s (has_white-snoc field c h e))
]

not_field :
    (wanted : Text) (fs : List Text) (i : ℕ)
    → has_white wanted ≡ true
    → ArePlain fs
    → is_text wanted (get_elem? fs i) ≡ false
not_field wanted [] i h a = refl
not_field wanted (f ∷ fs) zero h a = elim (Bool-cases (f == wanted)) [
  | inl e ↦ absurd (let q = ap has_white ((==_iff f wanted).0 e) in let p = a.0 in cc)
  | inr e ↦ e
]
not_field wanted (f ∷ fs) (suc i) h a = not_field wanted fs i h a.1

not_any :
    (wanted : Text) (ls : List Text) → has_white wanted ≡ true → any_mounts_on wanted ls ≡ false
unfolding any_mounts_on
not_any wanted [] h = refl
not_any wanted (line ∷ ls) h =
    let here : mounts_on wanted line ≡ false =
      unfold mounts_on in
      not_field wanted (split_whitespace line) 1 h (split_from-ArePlain [] line refl) in
    rw (here, any_mounts_on) (not_any wanted ls h)

module _ {K : Type 0} (sys : System K) where
  never_true :
      (r : ℕ ⊎ Text) (wanted : Text) → has_white wanted ≡ true → in_table sys wanted r ≢ ok true
  never_true (inl e) wanted h q = absurd cc
  never_true (inr table) wanted h q = absurd (let e = not_any wanted (lines table) h in cc)

  looked_up :
      (r : Option Text × K) (wanted : Text)
      → has_white wanted ≡ true
      → r.0 ≡ some wanted
      → (look_up sys r).0 ≢ ok true
  looked_up (none, k) wanted w h = absurd cc
  looked_up (some p, k) wanted w h =
      let e : p ≡ wanted = cc in
      subst (λ x. in_table sys x (sys.read_mounts k).0 ≢ ok true) (sym e)
        (never_true (sys.read_mounts k).0 wanted w)

  -- A mountpoint whose resolved path has a white space in it is never found to be mounted, whatever the
  -- mount table says, since a table's fields have none: the kernel writes a space as `\040`.
  pub is_mounted_white :
      (path wanted : Text) (k : K)
      → (resolved sys path k).0 ≡ some wanted
      → has_white wanted ≡ true
      → (is_mounted sys path k).0 ≢ ok true
  is_mounted_white path wanted k h w =
      unfold is_mounted in looked_up (resolved sys path k) wanted w h
