-- ===== src/Cache/Sample.antt =====
-- A concrete environment for crates/steam-depot-vfs/src/chunk_store/cache.rs, which satisfies the laws:
-- files in an association list, a codec that stores its input, an inner store that always has
-- the same three bytes, an unbounded cache and no other tasks.
use mathlib.Core.Option.{some-injective}
use steam_depot_vfs.Prelude.{
  ℕ, ◌+◌, ◌≡◌, ◌≢◌, ◌⊎◌, ◌-◌, refl, sym, ap, ◌∙◌, arith, Bool, true, false, List, [], ◌∷◌, ◌++◌,
  Option, some, none, inl, inr, if◌then◌else◌, leb, length, length-append, length-take, take,
  take-all, ◌≤◌, ◌==◌, ==_iff, list_eq, nat_eq, Bool-cases,
}
use steam_depot_vfs.Prelude.Maps.{
  HashMap, lookup, insert, remove, lookup-insert, lookup-remove, lookup-insert_self,
}
use steam_depot_vfs.Depot.{Bytes, Text, ChunkHash}
use steam_depot_vfs.Outcome.{Outcome, ok, err, ok-injective}
use steam_depot_vfs.ChunkStore.{ChunkStore, ensure_by_get}
use steam_depot_vfs.ChunkStore
use steam_depot_vfs.Frame.{Codec, CodecLaws}
use steam_depot_vfs.Cache.Interfaces.{DiskApi, DiskLaws, LruApi, LruLaws, Env, State}
use steam_depot_vfs.Cache.Laws.{EnvLaws}
use steam_depot_vfs.Cache.Fetches.{Honest}
use steam_depot_vfs.Cache.Names.{has_dot}

abbrev zeros : Bytes
zeros = 0 ∷ 0 ∷ 0 ∷ 0 ∷ 0 ∷ 0 ∷ 0 ∷ 0 ∷ 0 ∷ 0 ∷ 0 ∷ 0 ∷ 0 ∷ 0 ∷ 0 ∷ 0 ∷ 0 ∷ 0 ∷ 0 ∷ 0 ∷ []

-- The first twenty bytes stand for the digest.
abbrev pub stored : Codec
stored = record {
  sha1 = λ b. take 20 (b ++ zeros);
  compressor = ok tt;
  set_checksum = ok tt;
  compress = λ b. ok b;
  decompress = λ z n. if leb (length z) n then some z else none;
}

stored_cut :
    (plain z out : Bytes) (k n : ℕ)
    → plain ≡ z
    → (if leb (length (take k z)) n then some (take k z) else none) ≡ some out
    → length out ≡ length plain
    → out ≡ plain
stored_cut plain z out k n q h e = elim (Bool-cases (leb (length (take k z)) n)) [
  | inl fits ↦
      let o : take k z ≡ out = some-injective (take k z) out (sym (rw fits refl) ∙ h) in
      let same : length z ≤ k = omega (arith, length-take k z, ap length o, ap length q, e) in
      sym o ∙ take-all k z same ∙ sym q
  | inr larger ↦ absurd (ground (arith, h, larger))
]

pub stored_laws : CodecLaws stored
stored_laws = record {
  sha1_len = λ b. omega (arith, length-take 20 (b ++ zeros), length-append b zeros);
  decompress-compress =
      λ plain z n e h. let q : plain ≡ z = ok-injective plain z e in ground (arith, q, h);
  decompress-cut = λ plain z out k n e h l. stored_cut plain z out k n (ok-injective plain z e) h l;
}

abbrev pub Files : Type 0
Files = HashMap Text Bytes

abbrev is_some : Option Bytes → Bool
is_some none = false
is_some (some b) = true

abbrev or_missing {ℓ} : {A : Type ℓ} → Option A → Outcome ℕ A
or_missing none = err 2
or_missing (some a) = ok a

-- With what the file has.
abbrev append_to : Option Bytes → Text → Bytes → Files → Outcome ℕ (Unit {0}) × Files
append_to none p b d = (err 2, d)
append_to (some old) p b d = (ok tt, insert p (old ++ b) d)

abbrev move_to : Option Bytes → Text → Text → Files → Outcome ℕ (Unit {0}) × Files
move_to none p to d = (err 2, d)
move_to (some b) p to d = (ok tt, insert to b (remove p d))

abbrev delete : Option Bytes → Text → Files → Outcome ℕ (Unit {0}) × Files
delete none p d = (err 2, d)
delete (some b) p d = (ok tt, remove p d)

abbrev pub files_api : DiskApi Files
files_api = record {
  read = λ p d. (or_missing (lookup p d), d);
  try_exists = λ p d. (ok (is_some (lookup p d)), d);
  create = λ p d. (ok tt, insert p [] d);
  write_all = λ p b d. append_to (lookup p d) p b d;
  rename = λ p to d. move_to (lookup p d) p to d;
  remove_file = λ p d. delete (lookup p d) p d;
}

insert-frame {κ} :
    {V : Type κ} (p q : List ℕ) (b : V) (d : HashMap (List ℕ) V)
    → p ≢ q
    → lookup q (insert p b d) ≡ lookup q d
insert-frame p q b d n = elim (Bool-cases (p == q)) [
  | inl e ↦ absurd (n ((==_iff p q).0 e))
  | inr e ↦ lookup-insert p q b d ∙ rw e refl
]

remove-frame : (p q : Text) (d : Files) → p ≢ q → lookup q (remove p d) ≡ lookup q d
remove-frame p q d n = elim (Bool-cases (p == q)) [
  | inl e ↦ absurd (n ((==_iff p q).0 e))
  | inr e ↦ lookup-remove p q d ∙ rw e refl
]

remove-same : (p : Text) (d : Files) → lookup p (remove p d) ≡ none
remove-same p d = lookup-remove p p d ∙ rw ((==_iff p p).1 refl) refl

read_found :
    (p : Text) (d : Files) (b : Bytes) (o : Option Bytes) → or_missing o ≡ ok b → o ≡ some b
read_found p d b none h = absurd cc
read_found p d b (some a) h = ap some (ok-injective a b h)

module _ (p : Text) (d : Files) where
  append-frame :
      (q : Text) (b : Bytes) (o : Option Bytes)
      → p ≢ q
      → lookup q (append_to o p b d).1 ≡ lookup q d
  append-frame q b none n = refl
  append-frame q b (some old) n = insert-frame p q (old ++ b) d n

  append-whole :
      (b old : Bytes) (o : Option Bytes)
      → o ≡ some old
      → lookup p (append_to o p b d).1 ≡ some (old ++ b)
  append-whole b old none e = absurd cc
  append-whole b old (some c) e =
      lookup-insert_self p (c ++ b) d ∙ ap (λ (x : Bytes). some (x ++ b)) (some-injective c old e)

  move-err :
      (to q : Text) (o : Option Bytes)
      → (move_to o p to d).0 ≢ ok tt
      → lookup q (move_to o p to d).1 ≡ lookup q d
  move-err to q none h = refl
  move-err to q (some b) h = absurd (h refl)

  move-ok :
      (to : Text) (o : Option Bytes)
      → (move_to o p to d).0 ≡ ok tt
      → lookup to (move_to o p to d).1 ≡ o
  move-ok to none h = absurd cc
  move-ok to (some b) h = lookup-insert_self to b (remove p d)

  move-frame :
      (to q : Text) (o : Option Bytes) → p ≢ q → to ≢ q → lookup q (move_to o p to d).1 ≡ lookup q d
  move-frame to q none n m = refl
  move-frame to q (some b) n m = insert-frame to q b (remove p d) m ∙ remove-frame p q d n

  delete-frame : (q : Text) (o : Option Bytes) → p ≢ q → lookup q (delete o p d).1 ≡ lookup q d
  delete-frame q none n = refl
  delete-frame q (some b) n = remove-frame p q d n

  delete-same :
      (o : Option Bytes)
      → (lookup p (delete o p d).1 ≡ none) ⊎ (lookup p (delete o p d).1 ≡ lookup p d)
  delete-same none = inr refl
  delete-same (some b) = inl (remove-same p d)

  delete-ok : (o : Option Bytes) → (delete o p d).0 ≡ ok tt → lookup p (delete o p d).1 ≡ none
  delete-ok none h = absurd cc
  delete-ok (some b) h = remove-same p d

  there : (o : Option Bytes) → ◌≡◌ {A = Outcome ℕ Bool} (ok (is_some o)) (ok true) → o ≢ none
  there none h gone = absurd (let t = ok-injective false true h in cc)
  there (some b) h gone = cc

pub files_laws : DiskLaws files_api
files_laws = record {
  content = λ d p. lookup p d;
  read_keeps = λ p q d. refl;
  read_ok = λ p d b h. read_found p d b (lookup p d) h;
  exists_keeps = λ p q d. refl;
  exists_ok = λ p d h. there p d (lookup p d) h;
  create_frame = λ p q d n. insert-frame p q [] d n;
  create_ok = λ p d h. lookup-insert_self p [] d;
  write_frame = λ p q b d n. append-frame p d q b (lookup p d) n;
  write_ok = λ p b old d e h. (
    length b,
    append-whole p d b old (lookup p d) e
        ∙ ap (λ x. some (old ++ x)) (sym (take-all (length b) b (omega arith))),
  );
  rename_err = λ p to q d h. move-err p d to q (lookup p d) h;
  rename_ok = λ p to d h. move-ok p d to (lookup p d) h;
  rename_frame = λ p to q d n m. move-frame p d to q (lookup p d) n m;
  remove_frame = λ p q d n. delete-frame p d q (lookup p d) n;
  remove_same = λ p d. delete-same p d (lookup p d);
  remove_ok = λ p d h. delete-ok p d (lookup p d) h;
}

abbrev pub Held : Type 0
Held = HashMap ChunkHash Bytes

abbrev unbounded : LruApi Held
unbounded = record { new = λ n. []; get = λ k c. (lookup k c, c); put = insert }

unbounded_laws : LruLaws unbounded
unfolding lookup
unbounded_laws = record {
  peek = λ c k. lookup k c;
  new_empty = λ n k. refl;
  get_peek = λ k c. refl;
  get_keeps = λ k j c. refl;
  put_same = λ k b c. lookup-insert_self k b c;
  put_other = λ k j b c n. inr (insert-frame k j b c n);
}

-- The chunk that the inner store has, and its name.
abbrev pub three_bytes : Bytes
three_bytes = 1 ∷ 2 ∷ 3 ∷ []

abbrev pub three_name : ChunkHash
three_name = stored.sha1 three_bytes

abbrev counted : ChunkHash → ℕ → ChunkStore.Result Bytes × ℕ
counted sha n = (ok three_bytes, n + 1)

abbrev hex : ChunkHash → Text
hex [] = []
hex (b ∷ bs) = (b + 100) ∷ hex bs

hex_no_dot : (k : ChunkHash) → has_dot (hex k) ≡ false
hex_no_dot [] = refl
hex_no_dot (b ∷ bs) = ground (arith, hex_no_dot bs)

back : Text → ChunkHash
back [] = []
back (c ∷ cs) = (c - 100) ∷ back cs

back-hex : (k : ChunkHash) → back (hex k) ≡ k
unfolding back
back-hex [] = refl
back-hex (b ∷ bs) = let e : b + 100 - 100 ≡ b = omega arith in rw e (ap (◌∷◌ b) (back-hex bs))

abbrev pub sample_with : Codec → Env Files Held ℕ
sample_with codec = record {
  codec = codec;
  disk_api = files_api;
  lru = unbounded;
  inner_store = record { get = counted; ensure = ensure_by_get counted };
  to_hex = hex;
  process_id = 7;
  wait_lock = λ sha s. s;
}

pub sample_with_laws : (codec : Codec) → CodecLaws codec → EnvLaws (sample_with codec)
sample_with_laws codec laws = record {
  codec = laws;
  disk = files_laws;
  lru = unbounded_laws;
  hex_dotless = hex_no_dot;
  hex_injective = λ a b e. sym (back-hex a) ∙ ap back e ∙ back-hex b;
  inner_small = λ sha i b e.
      let q : three_bytes ≡ b = ok-injective three_bytes b e in omega (arith, ap length q);
  waits_honestly = λ sha s h. h;
}

abbrev pub sample : Env Files Held ℕ
sample = sample_with stored

pub sample_laws : EnvLaws sample
sample_laws = sample_with_laws stored stored_laws

abbrev pub empty_state : State Files Held ℕ
empty_state = record { disk = []; decoded = []; writes = 0; inner = 0 }

pub empty-Honest_with :
    (codec : Codec) (laws : CodecLaws codec)
    → Honest (sample_with codec) (sample_with_laws codec laws) empty_state
unfolding lookup sample_with_laws files_laws unbounded_laws
empty-Honest_with codec laws = record {
  held_hashes = λ sha b h. absurd cc;
  file_hashes = λ sha f p h d. absurd cc;
}

pub empty-Honest : Honest sample sample_laws empty_state
unfolding sample_laws
empty-Honest = empty-Honest_with stored stored_laws
