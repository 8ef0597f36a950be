-- ===== src/Projfs.antt =====
-- crates/projfs/src/lib.rs: the callbacks of a projection, and the directory enumerations that are open.
-- The calls of Windows are a parameter; so is the `Filesystem` behind it, with a state `D`.
pub mod Pages
pub mod Enumeration
pub mod Sessions
mod Tests
use steam_depot_vfs.Prelude.{
  ℕ, ◌+◌, ◌*◌, ◌%◌, ◌^◌, Bool, true, false, List, [], ◌∷◌, ◌++◌, map, Option, some, none,
  if◌then◌else◌, length, drop, ◌==◌, nat_eq, list_eq,
}
use steam_depot_vfs.Prelude.Maps.{HashMap, lookup, insert, remove}
use steam_depot_vfs.Depot.{Bytes, Text}
use steam_depot_vfs.Outcome.{Outcome, ok, err, panicked}

-- An `HRESULT` as the `u32` of its bits.
abbrev pub s_ok : ℕ
s_ok = 0

abbrev pub hr_file_not_found : ℕ
hr_file_not_found = 0x80070002

abbrev pub hr_insufficient_buffer : ℕ
hr_insufficient_buffer = 0x8007007A

abbrev pub hr_out_of_memory : ℕ
hr_out_of_memory = 0x8007000E

abbrev pub hr_fail : ℕ
hr_fail = 0x80004005

abbrev pub file_attribute_readonly : ℕ
file_attribute_readonly = 0x1

abbrev pub file_attribute_directory : ℕ
file_attribute_directory = 0x10

pub record Metadata : Type 0 where
  pub is_dir : Bool
  pub size : ℕ
  pub creation_time : ℕ
  pub last_write_time : ℕ

pub record DirEntry : Type 0 where
  pub name : Text
  pub metadata : Metadata

-- The trait `Filesystem`. `none` is a panic of a method that returns no error.
pub record Filesystem (E D : Type 0) : Type 0 where
  pub list_directory : Text → D → Option (List DirEntry) × D
  pub get_metadata : Text → D → Option (Option Metadata) × D
  pub read_file : Text → (offset length : ℕ) → D → Outcome E Bytes × D

-- For the seconds that its callers pass, which are not negative and less than 2 ^ 32.
unfoldable pub unix_to_filetime : ℕ → ℕ
unix_to_filetime unix_secs = if unix_secs == 0 then 0 else (unix_secs + 11_644_473_600) * 10_000_000

-- `PRJ_FILE_BASIC_INFO`; the size is the bit pattern of the `i64`.
pub record BasicInfo : Type 0 where
  pub is_directory : Bool
  pub file_size : ℕ
  pub creation_time : ℕ
  pub last_access_time : ℕ
  pub last_write_time : ℕ
  pub change_time : ℕ
  pub file_attributes : ℕ

unfoldable pub basic_info : Metadata → BasicInfo
basic_info m = record {
  is_directory = m.is_dir;
  file_size = m.size % 2 ^ 64;
  creation_time = m.creation_time;
  last_access_time = m.last_write_time;
  last_write_time = m.last_write_time;
  change_time = m.last_write_time;
  file_attributes = if m.is_dir then file_attribute_directory else file_attribute_readonly;
}

abbrev pub Entry : Type 0
Entry = Text × BasicInfo

pub record EnumSession : Type 0 where
  pub entries : List Entry
  pub index : ℕ
  pub search : Option Text
  pub search_captured : Bool

-- `data4` is its eight bytes as a big-endian number.
pub record Guid : Type 0 where
  pub data1 : ℕ
  pub data2 : ℕ
  pub data3 : ℕ
  pub data4 : ℕ

-- The parts do not overlap, so that `|` adds them.
unfoldable pub guid_key : Guid → ℕ
guid_key g = g.data1 * 2 ^ 96 + g.data2 * 2 ^ 80 + g.data3 * 2 ^ 64 + g.data4

-- A `PCWSTR`, whose text may not be UTF-16.
pub data PcWstr : Type 0 where
  null : PcWstr
  invalid : PcWstr
  wide : Text → PcWstr

abbrev pub path_from_pcwstr : PcWstr → Text
path_from_pcwstr null = []
path_from_pcwstr invalid = []
path_from_pcwstr (wide s) = s

-- What `search_captured` captures: an empty expression counts as none.
abbrev pub expression_of : PcWstr → Option Text
expression_of (wide (c ∷ cs)) = some (c ∷ cs)
expression_of (wide []) = none
expression_of null = none
expression_of invalid = none

pub record Context (D : Type 0) : Type 0 where
  pub source : D
  pub enums : HashMap ℕ EnumSession

-- `name_le a b` is `PrjFileNameCompare(a, b) <= 0`. `fill` is `PrjFillDirEntryBuffer` on a buffer that
-- has the given entries; the others return a code, and `none` is a null pointer.
pub record Windows : Type 0 where
  pub name_le : Text → Text → Bool
  pub name_match : Text → Text → Bool
  pub fill : List Entry → Entry → ℕ
  pub write_placeholder_info : Text → BasicInfo → ℕ
  pub allocate_aligned_buffer : ℕ → Bool
  pub write_file_data : Bytes → (offset : ℕ) → ℕ

abbrev pub guard : Option ℕ → ℕ
guard none = hr_fail
guard (some hr) = hr

abbrev pub entry_of : DirEntry → Entry
entry_of e = (e.name, basic_info e.metadata)

module _ (windows : Windows) where
  unfoldable pub insert_sorted : Entry → List Entry → List Entry
  insert_sorted e [] = e ∷ []
  insert_sorted (n, i) ((m, j) ∷ l) =
      let later = insert_sorted (n, i) l in
      if windows.name_le n m then (n, i) ∷ (m, j) ∷ l else (m, j) ∷ later

  -- `sort_by`, which is stable.
  unfoldable pub sort_entries : List Entry → List Entry
  unfolding insert_sorted
  sort_entries [] = []
  sort_entries (e ∷ l) = insert_sorted e (sort_entries l)

  abbrev pub matches : Option Text → Entry → Bool
  matches none e = true
  matches (some pattern) (name, info) = windows.name_match name pattern

  -- `if added { S_OK } else { HR_INSUFFICIENT_BUFFER }`
  abbrev pub when_full : Bool → ℕ
  when_full added = if added then s_ok else hr_insufficient_buffer

  -- The loop of `get_dir_enum` over the entries from `index` on: the code, the new index, the buffer.
  unfoldable pub fill_from : Option Text → List Entry → ℕ → Bool → List Entry → ℕ × ℕ × List Entry
  fill_from search [] index added buffer = (s_ok, index, buffer)
  fill_from search (e ∷ es) index added buffer =
      let pass = fill_from search es (index + 1) added buffer in
      let taken = fill_from search es (index + 1) true (buffer ++ e ∷ []) in
      let hr = windows.fill buffer e in
      if matches search e
      then (if hr == s_ok
          then taken
          else if hr == hr_insufficient_buffer
          then (when_full added, index, buffer)
          else (hr, index, buffer))
      else pass

  abbrev pub restarted : Bool → EnumSession → EnumSession
  restarted true s = record s { index = 0; search = none; search_captured = false }
  restarted false s = s

  abbrev pub captured : PcWstr → EnumSession → EnumSession
  captured expression s =
      if s.search_captured
      then s
      else record s { search = expression_of expression; search_captured = true }

  unfoldable pub get_from_session : Bool → PcWstr → EnumSession → ℕ × EnumSession × List Entry
  unfolding fill_from
  get_from_session restart expression sess =
      let s = captured expression (restarted restart sess) in
      let (hr, index, buffer) = fill_from s.search (drop s.index s.entries) s.index false [] in
      (hr, record s { index = index }, buffer)

  module _ {E D : Type 0} (fs : Filesystem E D) where
    unfoldable pub start_dir_enum : PcWstr → Guid → Context D → ℕ × Context D
    unfolding sort_entries
    start_dir_enum path id ctx =
        let (listed, source) = fs.list_directory (path_from_pcwstr path) ctx.source in
        elim listed as (λ _. ℕ × Context D) [
          | none ↦ (guard none, record ctx { source = source })
          | some entries ↦
              let sess : EnumSession = record {
                entries = sort_entries (map entry_of entries);
                index = 0;
                search = none;
                search_captured = false;
              } in
              (s_ok, record { source = source; enums = insert (guid_key id) sess ctx.enums })
        ]

    abbrev pub after_get :
        Guid → Context D → ℕ × EnumSession × List Entry → ℕ × Context D × List Entry
    after_get id ctx (hr, sess, buffer) =
        (hr, record ctx { enums = insert (guid_key id) sess ctx.enums }, buffer)

    unfoldable pub get_dir_enum :
        (restart : Bool) → PcWstr → Guid → Context D → ℕ × Context D × List Entry
    unfolding get_from_session
    get_dir_enum restart expression id ctx =
        elim (lookup (guid_key id) ctx.enums) as (λ _. ℕ × Context D × List Entry) [
          | none ↦ (hr_file_not_found, ctx, [])
          | some sess ↦ after_get id ctx (get_from_session restart expression sess)
        ]

    unfoldable pub end_dir_enum : Guid → Context D → ℕ × Context D
    end_dir_enum id ctx = (s_ok, record ctx { enums = remove (guid_key id) ctx.enums })

    unfoldable pub get_placeholder_info : PcWstr → Context D → ℕ × Context D
    get_placeholder_info path ctx =
        let (found, source) = fs.get_metadata (path_from_pcwstr path) ctx.source in
        elim found as (λ _. ℕ × Context D) [
          | none ↦ (guard none, record ctx { source = source })
          | some none ↦ (hr_file_not_found, record ctx { source = source })
          | some (some meta) ↦ (
            windows.write_placeholder_info (path_from_pcwstr path) (basic_info meta),
            record ctx { source = source },
          )
        ]

    abbrev pub write_bytes : Bytes → ℕ → ℕ
    write_bytes [] offset = s_ok
    write_bytes (b ∷ bs) offset =
        if windows.allocate_aligned_buffer (length (b ∷ bs))
        then windows.write_file_data (b ∷ bs) offset
        else hr_out_of_memory

    unfoldable pub get_file_data : PcWstr → (offset length : ℕ) → Context D → ℕ × Context D
    get_file_data path offset length ctx =
        let (read, source) = fs.read_file (path_from_pcwstr path) offset length ctx.source in
        elim read as (λ _. ℕ × Context D) [
          | ok bytes ↦ (write_bytes bytes offset, record ctx { source = source })
          | err e ↦ (hr_fail, record ctx { source = source })
          | panicked ↦ (guard none, record ctx { source = source })
        ]
