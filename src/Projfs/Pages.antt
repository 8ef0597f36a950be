-- ===== src/Projfs/Pages.antt =====
-- What one call of `get_dir_enum` of crates/projfs/src/lib.rs puts into the buffer.
use steam_depot_vfs.Prelude.{
  ℕ, suc, ◌+◌, ◌≤◌, ◌≡◌, ◌≢◌, refl, sym, ap, ◌∙◌, arith, Bool, true, false, List, [], ◌∷◌, ◌++◌,
  Option, length, take, if◌then◌else◌, Bool-cases, inl, inr, ◌⊎◌, nat_eq, append_assoc, append-nil,
}
use steam_depot_vfs.Depot.{Text}
use steam_depot_vfs.Projfs.{s_ok, hr_insufficient_buffer, Entry, Windows, matches, fill_from}

module _ (windows : Windows) where
  -- The buffer takes an entry or is full, and an empty one takes any.
  abbrev pub Fills : Type 0
  Fills =
      (buffer : List Entry) (e : Entry)
      → (windows.fill buffer e ≡ s_ok)
        ⊎ ((windows.fill buffer e ≡ hr_insufficient_buffer) × (buffer ≢ []))

  -- The entries that match.
  abbrev pub kept : Option Text → List Entry → List Entry
  kept search [] = []
  kept search (e ∷ es) =
      let rest = kept search es in if matches windows search e then e ∷ rest else rest

  pub kept-append :
      (search : Option Text) (xs ys : List Entry)
      → kept search (xs ++ ys) ≡ kept search xs ++ kept search ys
  kept-append search [] ys = refl
  kept-append search (x ∷ xs) ys = elim (Bool-cases (matches windows search x)) [
    | inl m ↦ rw m (ap (λ (l : List Entry). x ∷ l) (kept-append search xs ys))
    | inr m ↦ rw m (kept-append search xs ys)
  ]

  module _ (fills : Fills) (search : Option Text) where
    -- What one call takes: the first `n` entries are done, all of them if none is taken.
    pub record Page (rest : List Entry) (index : ℕ) (added : Bool) (buffer : List Entry)
        : Type 0 where
      pub n : ℕ
      pub few : n ≤ length rest
      pub page :
          fill_from windows search rest index added buffer
          ≡ (s_ok, index + n, buffer ++ kept search (take n rest))
      pub last : buffer ++ kept search (take n rest) ≡ [] → n ≡ length rest

    append-ne : (xs : List Entry) (e : Entry) (ys : List Entry) → xs ++ e ∷ ys ≢ []
    append-ne [] e ys h = absurd cc
    append-ne (x ∷ xs) e ys h = absurd cc

    step_pass :
        (e : Entry) (rest : List Entry) (index : ℕ) (added : Bool) (buffer : List Entry)
        → matches windows search e ≡ false
        → fill_from windows search (e ∷ rest) index added buffer
          ≡ fill_from windows search rest (index + 1) added buffer
    unfolding fill_from
    step_pass e rest index added buffer m = rw m refl

    step_taken :
        (e : Entry) (rest : List Entry) (index : ℕ) (added : Bool) (buffer : List Entry)
        → matches windows search e ≡ true
        → windows.fill buffer e ≡ s_ok
        → fill_from windows search (e ∷ rest) index added buffer
          ≡ fill_from windows search rest (index + 1) true (buffer ++ e ∷ [])
    unfolding fill_from
    step_taken e rest index added buffer m ok = rw (m, ok) refl

    step_full :
        (e : Entry) (rest : List Entry) (index : ℕ) (added : Bool) (buffer : List Entry)
        → matches windows search e ≡ true
        → windows.fill buffer e ≡ hr_insufficient_buffer
        → added ≡ true
        → fill_from windows search (e ∷ rest) index added buffer ≡ (s_ok, index, buffer)
    unfolding fill_from
    step_full e rest index added buffer m full a = rw (m, full, a) refl

    pub fill_from-Page :
        (rest : List Entry) (index : ℕ) (added : Bool) (buffer : List Entry)
        → (buffer ≢ [] → added ≡ true)
        → Page rest index added buffer
    fill_from-Page [] index added buffer h = record {
      n = 0;
      few = omega arith;
      page =
          let e : index + 0 ≡ index = omega arith in
          unfold fill_from in rw (e, append-nil buffer) refl;
      last = λ e. refl;
    }
    fill_from-Page (e ∷ rest) index added buffer h =
        let passed = fill_from-Page rest (index + 1) added buffer h in
        let went = fill_from-Page rest (index + 1) true (buffer ++ e ∷ []) (λ _. refl) in
        let next = λ (n : ℕ). (let q : index + 1 + n ≡ index + suc n = omega arith in q) in
        elim (Bool-cases (matches windows search e)) [
          | inr other ↦ record {
            n = suc passed.n;
            few = omega (arith, passed.few);
            page =
                step_pass e rest index added buffer other
                ∙ passed.page
                ∙ rw (next passed.n, other) refl;
            last = λ q. ap suc (passed.last (rw other at q));
          }
          | inl m ↦ elim (fills buffer e) [
            | inl ok ↦ record {
              n = suc went.n;
              few = omega (arith, went.few);
              page =
                  step_taken e rest index added buffer m ok
                  ∙ went.page
                  ∙ rw
                      (
                        next went.n,
                        m,
                        append_assoc buffer (e ∷ []) (kept search (take went.n rest)),
                      )
                      refl;
              last = λ q. absurd (append-ne buffer e (kept search (take went.n rest)) (rw m at q));
            }
            | inr (full, some_in) ↦ record {
              n = 0;
              few = omega arith;
              page =
                  let z : index + 0 ≡ index = omega arith in
                  step_full e rest index added buffer m full (h some_in)
                  ∙ rw (z, append-nil buffer) refl;
              last = λ q. absurd (some_in (sym (append-nil buffer) ∙ q));
            }
          ]
        ]
