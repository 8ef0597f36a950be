-- ===== src/Cache/Tests.antt =====
-- Runs of crates/steam-depot-vfs/src/chunk_store/cache.rs in the concrete environment.
use mathlib.Core.Option.{some-injective}
use steam_depot_vfs.Prelude.{
  inl, inr, ℕ, ◌≡◌, ◌≢◌, ◌↔◌, refl, sym, ap, arith, Bool, true, false, List, [], ◌∷◌, ◌++◌, some,
  none, length, ltb, if◌then◌else◌, list_beq, nat_eq, list_eq,
}
use steam_depot_vfs.Prelude.Maps.{lookup, insert, remove}
use steam_depot_vfs.Prelude.Decimal.{to_string}
use steam_depot_vfs.Depot.{Bytes, Text, ChunkHash}
use steam_depot_vfs.Outcome.{ok}
use steam_depot_vfs.ChunkStore.{IsFaithful}
use steam_depot_vfs.Frame.{encode_frame, encode_frame_as, max_plain_len}
use steam_depot_vfs.Frame.LittleEndian.{to_le_bytes}
use steam_depot_vfs.Frame.Decode.{decode_frame}
use steam_depot_vfs.Frame.RoundTrip.{decode_frame-encode_frame}
use steam_depot_vfs.Frame.Accepts.{IsFrame, decode_frame_lem}
use steam_depot_vfs.Cache.{
  new, cache_hit, tmp_name, tmp_path, write_atomic, frame_for, fetch_and_persist, read_verified,
  get_locked, get, fs_cache_store,
}
use steam_depot_vfs.Cache.Interfaces.{State}
use steam_depot_vfs.Cache.Writes.{AtomicWrite, write_atomic_lem}
use steam_depot_vfs.Cache.Fetches.{Honest, chunks}
use steam_depot_vfs.Cache.Gets.{get-IsFaithful}
use steam_depot_vfs.Cache.Warm.{get_locked-reload}
use steam_depot_vfs.Cache.Locks.{
  put_owner-cases, Tasks, Owner, put_owner, IsOwned, take_lock, grant, start, after, IsReachable,
  chunk_lock, locks_exclude,
}
use steam_depot_vfs.Cache.Sample.{
  stored, stored_laws, three_bytes, three_name, sample, sample_laws, empty_state,
}

abbrev three_frame : Bytes
three_frame = 3 ∷ 0 ∷ 0 ∷ 0 ∷ 0 ∷ 0 ∷ 0 ∷ 0 ∷ three_name ++ three_bytes

three_encodes : encode_frame stored three_bytes ≡ ok three_frame
unfolding encode_frame encode_frame_as to_le_bytes
three_encodes = refl

decode_frame-encode_frame_example : decode_frame stored three_frame ≡ (
    if ltb max_plain_len (length three_bytes)
    then none
    else some (stored.sha1 three_bytes, three_bytes))
decode_frame-encode_frame_example =
    decode_frame-encode_frame stored stored_laws three_bytes three_frame (omega arith) three_encodes

decode_frame_example :
    (decode_frame stored three_frame ≡ some (three_name, three_bytes))
    ↔ IsFrame stored three_frame three_name three_bytes
decode_frame_example = decode_frame_lem stored three_frame three_name three_bytes

write_atomic_example :
    AtomicWrite sample sample_laws.disk
      (tmp_name 7 three_name 0)
      three_name
      three_frame
      empty_state
      (write_atomic sample three_name three_frame empty_state)
write_atomic_example = write_atomic_lem sample sample_laws.disk three_name three_frame empty_state

get_example :
    IsFaithful (Honest sample sample_laws) (λ sha b. stored.sha1 b ≡ sha) (fs_cache_store sample)
get_example = get-IsFaithful sample sample_laws

get_three : (get sample three_name empty_state).0 ≡ ok three_bytes
unfolding get cache_hit get_locked read_verified fetch_and_persist frame_for encode_frame_as
    to_le_bytes write_atomic tmp_path tmp_name to_string lookup insert remove list_beq
get_three = refl

abbrev one_file : Bytes → List (Text × Bytes)
one_file b = (sample.to_hex three_name, b) ∷ []

read_file : (b : Bytes) → (sample.disk_api.read (sample.to_hex three_name) (one_file b)).0 ≡ ok b
unfolding lookup list_beq
read_file b = refl

get_locked-reload_example :
    let res = get_locked sample three_name (new sample (one_file three_frame) 5 0) in
    (res.0 ≡ ok three_bytes)
    × (res.1.inner ≡ 5)
    × (chunks sample sample_laws res.1 three_name ≡ some three_bytes)
get_locked-reload_example =
    get_locked-reload sample sample_laws three_name three_bytes three_frame (one_file three_frame) 5
      0 refl three_encodes (omega arith) (read_file three_frame)

abbrev torn : State (List (Text × Bytes)) (List (ChunkHash × Bytes)) ℕ
torn = record empty_state { disk = one_file (3 ∷ 0 ∷ []) }

torn_undecodable : (plain : Bytes) → decode_frame stored (3 ∷ 0 ∷ []) ≢ some (three_name, plain)
unfolding decode_frame
torn_undecodable plain h = cc

removes : (sample.disk_api.remove_file (sample.to_hex three_name) (one_file (3 ∷ 0 ∷ []))).0 ≡ ok tt
unfolding lookup list_beq
removes = refl

abbrev owner : ℕ → Bool → Owner
owner lock holding = record { sha = three_name; lock = lock; holding = holding }

no_upgrade : ℕ → Bool
no_upgrade lock = false

abbrev idle : Tasks
idle = record { loading = record { locks = []; next = 0 }; owners = λ t. none }

abbrev joined : Tasks
joined = record {
  loading = (chunk_lock no_upgrade three_name idle.loading).1;
  owners = put_owner 3 (some (owner (chunk_lock no_upgrade three_name idle.loading).0 false)) idle;
}

abbrev held : Tasks
held = record joined {
  owners = put_owner 3 (some (owner (chunk_lock no_upgrade three_name idle.loading).0 true)) joined;
}

none_owns : (lock : ℕ) → (no_upgrade lock ≡ true) ↔ IsOwned idle lock
unfolding no_upgrade
none_owns lock = (λ e. absurd cc, λ (t, o, e, l). absurd cc)

only_three :
    (u : ℕ) (p : Owner)
    → joined.owners u ≡ some p
    → p.lock ≡ (chunk_lock no_upgrade three_name idle.loading).0
    → p.holding ≡ false
only_three u p h l = elim (put_owner-cases 3 u _ idle p h) [
  | inl (_, e) ↦ sym (ap (λ (x : Owner). x.holding) (some-injective _ p e))
  | inr e ↦ absurd cc
]

held_reachable : IsReachable held
held_reachable =
    after joined held
      (after idle joined (start 0) (take_lock 3 three_name no_upgrade refl none_owns))
      (grant 3 (owner (chunk_lock no_upgrade three_name idle.loading).0 false) refl only_three)

locks_exclude_example : ◌≡◌ {A = ℕ} 3 3
locks_exclude_example =
    locks_exclude held 3 3 (owner (chunk_lock no_upgrade three_name idle.loading).0 true)
      (owner (chunk_lock no_upgrade three_name idle.loading).0 true) held_reachable refl refl refl
      refl refl
