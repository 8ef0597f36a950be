-- ===== src/Projfs/Sessions.antt =====
-- The enumerations that are open at once, and the times, of crates/projfs/src/lib.rs.
use steam_depot_vfs.Prelude.{
  ℕ, ◌^◌, ◌≤◌, ◌<◌, ◌≡◌, ◌≢◌, refl, ◌∙◌, arith, Bool, false, Option-cases, inl, inr, ◌==◌, nat_eq,
}
use steam_depot_vfs.Prelude.Maps.{HashMap, lookup, insert, lookup-insert, lookup-remove}
use steam_depot_vfs.Projfs.{
  EnumSession, Filesystem, Guid, guid_key, PcWstr, path_from_pcwstr, Context, Windows,
  start_dir_enum, get_dir_enum, end_dir_enum, unix_to_filetime,
}

-- The fields fit their types: `u32`, `u16`, `u16`, eight bytes.
pub record IsGuid (g : Guid) : Type 0 where
  pub data1 : g.data1 < 2 ^ 32
  pub data2 : g.data2 < 2 ^ 16
  pub data3 : g.data3 < 2 ^ 16
  pub data4 : g.data4 < 2 ^ 64

guid_key-injective : (g h : Guid) → IsGuid g → IsGuid h → guid_key g ≡ guid_key h → g ≡ h
unfolding guid_key
guid_key-injective g h vg vh e =
    let (e1, e2, e3, e4) = parts in
    λ i. record { data1 = e1 i; data2 = e2 i; data3 = e3 i; data4 = e4 i }
  where
    parts : (g.data1 ≡ h.data1) × (g.data2 ≡ h.data2) × (g.data3 ≡ h.data3) × (g.data4 ≡ h.data4)
    parts = omega (arith, e, vg, vh)

module _ {E D : Type 0} (windows : Windows) (fs : Filesystem E D) (mine other : Guid)
    (vm : IsGuid mine) (vo : IsGuid other) (differ : mine ≢ other) where
  abbrev Same : Context D → Context D → Type 0
  Same before after = lookup (guid_key other) after.enums ≡ lookup (guid_key other) before.enums

  keys_differ : (guid_key mine == guid_key other) ≡ false
  keys_differ = ground (
    arith,
    λ (e : guid_key mine ≡ guid_key other). differ (guid_key-injective mine other vm vo e),
  )

  inserted :
      (sess : EnumSession) (enums : HashMap ℕ EnumSession)
      → lookup (guid_key other) (insert (guid_key mine) sess enums) ≡ lookup (guid_key other) enums
  inserted sess enums =
      lookup-insert (guid_key mine) (guid_key other) sess enums ∙ rw keys_differ refl

  -- No callback for one enumeration changes the session of another.
  pub sessions_apart :
      (path expression : PcWstr) (restart : Bool) (ctx : Context D)
      → Same ctx (start_dir_enum windows fs path mine ctx).1
        × Same ctx (get_dir_enum windows fs restart expression mine ctx).1
        × Same ctx (end_dir_enum windows fs mine ctx).1
  sessions_apart path expression restart ctx = (started, got, removed)
    where
      started : Same ctx (start_dir_enum windows fs path mine ctx).1
      started = elim (Option-cases (fs.list_directory (path_from_pcwstr path) ctx.source).0) [
        | inl e ↦ unfold start_dir_enum in rw (e, start_dir_enum) refl
        | inr (l, e) ↦ unfold start_dir_enum in rw (e, start_dir_enum) (inserted _ ctx.enums)
      ]

      got : Same ctx (get_dir_enum windows fs restart expression mine ctx).1
      got = elim (Option-cases (lookup (guid_key mine) ctx.enums)) [
        | inl e ↦ unfold get_dir_enum in rw (e, get_dir_enum) refl
        | inr (sess, e) ↦ unfold get_dir_enum in rw (e, get_dir_enum) (inserted _ ctx.enums)
      ]

      removed : Same ctx (end_dir_enum windows fs mine ctx).1
      removed =
          unfold end_dir_enum in
          lookup-remove (guid_key mine) (guid_key other) ctx.enums ∙ rw keys_differ refl

-- The time of a manifest, a `u32`, becomes a file time without overflow of an `i64`, and two times
-- in the same order; only zero, for an unknown time, becomes zero.
pub unix_to_filetime_bounds :
    (s t : ℕ)
    → s < 2 ^ 32
    → t < 2 ^ 32
    → (unix_to_filetime s < 2 ^ 63)
      × (s ≤ t → unix_to_filetime s ≤ unix_to_filetime t)
      × (s < t → unix_to_filetime s < unix_to_filetime t)
      × (unix_to_filetime s ≡ 0 → s ≡ 0)
unfolding unix_to_filetime
unix_to_filetime_bounds s t hs ht =
    (ground arith, λ h. ground arith, λ h. ground arith, λ h. ground arith)
