-- ===== src/Projfs/Tests.antt =====
-- A run of crates/projfs/src/lib.rs.
use steam_depot_vfs.Prelude.{
  ℕ, ◌^◌, ◌≤◌, ◌<◌, ◌≡◌, ◌≢◌, refl, ap, nat_eq, arith, true, false, List, [], ◌∷◌, map, some, none,
}
use steam_depot_vfs.Prelude.{inl, inr}
use steam_depot_vfs.Outcome.{ok}
use steam_depot_vfs.Projfs.{
  s_ok, hr_insufficient_buffer, Metadata, DirEntry, Filesystem, Entry, Guid, null, wide,
  expression_of, Context, Windows, entry_of, sort_entries, start_dir_enum, get_dir_enum,
  end_dir_enum, guid_key, unix_to_filetime,
}
use steam_depot_vfs.Prelude.Maps.{lookup}
use steam_depot_vfs.Projfs.Sessions.{IsGuid, sessions_apart, unix_to_filetime_bounds}
use steam_depot_vfs.Projfs.Pages.{Fills, kept}
use steam_depot_vfs.Projfs.Enumeration.{scan_all, enumeration_lem}

abbrev fill_one : List Entry → Entry → ℕ
fill_one [] e = s_ok
fill_one (x ∷ xs) e = hr_insufficient_buffer

abbrev windows : Windows
windows = record {
  name_le = λ a b. true;
  name_match = λ name pattern. true;
  fill = fill_one;
  write_placeholder_info = λ path info. s_ok;
  allocate_aligned_buffer = λ n. true;
  write_file_data = λ bytes offset. s_ok;
}

windows-Fills : Fills windows
windows-Fills [] e = inl refl
windows-Fills (x ∷ xs) e = inr (refl, λ q. absurd cc)

abbrev folder : Metadata
folder = record { is_dir = true; size = 0; creation_time = 0; last_write_time = 0 }

abbrev listed : List DirEntry
listed =
    record { name = b'1' ∷ []; metadata = folder }
    ∷ record { name = b'2' ∷ []; metadata = folder }
    ∷ []

abbrev fs : Filesystem (Unit {0}) (Unit {0})
fs = record {
  list_directory = λ path d. (some listed, d);
  get_metadata = λ path d. (some none, d);
  read_file = λ path offset length d. (ok [], d);
}

abbrev id : Guid
id = record { data1 = 1; data2 = 2; data3 = 3; data4 = 4 }

abbrev idle : Context (Unit {0})
idle = record { source = tt; enums = [] }

enumeration_example :
    ((start_dir_enum windows fs null id idle).0 ≡ s_ok)
    × (scan_all windows fs 3 (wide (b'*' ∷ [])) id (start_dir_enum windows fs null id idle).1
        ≡ some (
            kept windows
              (expression_of (wide (b'*' ∷ [])))
              (sort_entries windows (map entry_of listed))))
enumeration_example =
    enumeration_lem windows fs windows-Fills null (wide (b'*' ∷ [])) id idle listed 3 refl
      (omega arith)

abbrev id2 : Guid
id2 = record { data1 = 1; data2 = 2; data3 = 3; data4 = 5 }

id-IsGuid : IsGuid id
id-IsGuid = record {
  data1 = omega arith;
  data2 = omega arith;
  data3 = omega arith;
  data4 = omega arith;
}

id2-IsGuid : IsGuid id2
id2-IsGuid = record {
  data1 = omega arith;
  data2 = omega arith;
  data3 = omega arith;
  data4 = omega arith;
}

ids_differ : id ≢ id2
ids_differ e = absurd (cc (ap (λ (g : Guid). g.data4) e))

sessions_apart_example :
    (lookup (guid_key id2) (start_dir_enum windows fs null id idle).1.enums
      ≡ lookup (guid_key id2) idle.enums)
    × (lookup (guid_key id2) (get_dir_enum windows fs false null id idle).1.enums
        ≡ lookup (guid_key id2) idle.enums)
    × (lookup (guid_key id2) (end_dir_enum windows fs id idle).1.enums
        ≡ lookup (guid_key id2) idle.enums)
sessions_apart_example =
    sessions_apart windows fs id id2 id-IsGuid id2-IsGuid ids_differ null null false idle

unix_to_filetime_example :
    (unix_to_filetime 1 < 2 ^ 63)
    × (1 ≤ 2 → unix_to_filetime 1 ≤ unix_to_filetime 2)
    × (1 < 2 → unix_to_filetime 1 < unix_to_filetime 2)
    × (unix_to_filetime 1 ≡ 0 → ◌≡◌ {A = ℕ} 1 0)
unix_to_filetime_example = unix_to_filetime_bounds 1 2 (omega arith) (omega arith)
