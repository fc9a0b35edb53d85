-- ===== src/Mmap/Region/Windows.antt =====
-- The Windows branch of mmap/mmap_region.cpp: Create, Sync, Close and the moves.
--
-- The operating system's answers are an argument (`WindowsOs`), `none` for a null or invalid handle
-- and for a null view; what the code opens and gives back is a list of calls.
pub mod Views
use logger_high.Base.{
  ℕ, ◌+◌, ◌-◌, ◌/◌, ◌%◌, ◌^◌, Bool, not, List, [], ◌∷◌, ◌++◌, Option, none, some, ok, throws, ltb,
  leb, ◌==◌, if◌then◌else◌,
}
use logger_high.Errors.{
  Throwing, region_size_zero, region_open_failed, region_resize_failed, region_mapping_failed,
  region_map_failed,
}
use logger_high.Mmap.Region.{round_up_to_page}

pub record WindowsRegion : Type 0 where
  pub data_at : Option ℕ
  pub size : ℕ
  pub file_handle : Option ℕ
  pub mapping_handle : Option ℕ

abbrev pub empty_windows : WindowsRegion
empty_windows = record { data_at = none; size = 0; file_handle = none; mapping_handle = none }

pub record WindowsOs : Type 0 where
  pub page : ℕ
  pub create_file_answer : Option ℕ
  -- SetFilePointerEx and SetEndOfFile both succeeded.
  pub set_end_answer : Bool
  pub mapping_answer : Option ℕ
  pub view_answer : Option ℕ

pub data WindowsCall : Type 0 where
  opens_file : ℕ → WindowsCall
  -- The size's high and low words, and the handle that was returned.
  opens_mapping : ℕ → ℕ → ℕ → WindowsCall
  opens_view : ℕ → ℕ → WindowsCall
  unmaps_view : ℕ → WindowsCall
  closes_handle : ℕ → WindowsCall

abbrev pub size_hi : ℕ → ℕ
size_hi mapped = mapped % 2 ^ 64 / 2 ^ 32 % 2 ^ 32

abbrev pub size_lo : ℕ → ℕ
size_lo mapped = mapped % 2 ^ 32

abbrev pub viewed_or_closed : ℕ → ℕ → ℕ → Option ℕ → List WindowsCall × Throwing WindowsRegion
viewed_or_closed mapped file mapping none = (
  opens_file file
      ∷ opens_mapping (size_hi mapped) (size_lo mapped) mapping
      ∷ closes_handle mapping
      ∷ closes_handle file
      ∷ [],
  throws region_map_failed,
)
viewed_or_closed mapped file mapping (some view) = (
  opens_file file
      ∷ opens_mapping (size_hi mapped) (size_lo mapped) mapping
      ∷ opens_view view mapped
      ∷ [],
  ok (record {
    data_at = some view;
    size = mapped;
    file_handle = some file;
    mapping_handle = some mapping;
  }),
)

abbrev pub mapping_or_closed :
    WindowsOs → ℕ → ℕ → Option ℕ → List WindowsCall × Throwing WindowsRegion
mapping_or_closed os mapped file none =
    (opens_file file ∷ closes_handle file ∷ [], throws region_mapping_failed)
mapping_or_closed os mapped file (some mapping) =
    viewed_or_closed mapped file mapping os.view_answer

abbrev pub sized_or_closed : WindowsOs → ℕ → Option ℕ → List WindowsCall × Throwing WindowsRegion
sized_or_closed os mapped none = ([], throws region_open_failed)
sized_or_closed os mapped (some file) =
    if not os.set_end_answer
    then (opens_file file ∷ closes_handle file ∷ [], throws region_resize_failed)
    else mapping_or_closed os mapped file os.mapping_answer

-- Create; that the parent directories are made is left out, since its error is ignored.
unfoldable pub create_windows : WindowsOs → ℕ → List WindowsCall × Throwing WindowsRegion
create_windows os size_bytes =
    if size_bytes == 0
    then ([], throws region_size_zero)
    else sized_or_closed os (round_up_to_page os.page size_bytes) os.create_file_answer

abbrev pub unmap_view : Option ℕ → List WindowsCall
unmap_view none = []
unmap_view (some view) = unmaps_view view ∷ []

abbrev pub close_handle : Option ℕ → List WindowsCall
close_handle none = []
close_handle (some handle) = closes_handle handle ∷ []

-- Close, which the destructor calls too: the view, then the mapping, then the file.
unfoldable pub close_windows : WindowsRegion → List WindowsCall × WindowsRegion
close_windows r = (
  unmap_view r.data_at ++ (close_handle r.mapping_handle ++ close_handle r.file_handle),
  empty_windows,
)

-- The move assignment between two objects: the new values of both.
unfoldable pub assign_windows :
    WindowsRegion → WindowsRegion → List WindowsCall × (WindowsRegion × WindowsRegion)
unfolding close_windows
assign_windows self other = ((close_windows self).0, (other, empty_windows))

-- Sync: the offset and length given to FlushViewOfFile, or `none` where it returns before that.
unfoldable pub sync_windows : WindowsRegion → ℕ → ℕ → Option (ℕ × ℕ)
sync_windows r offset length = elim r.data_at [
  | none ↦ none
  | some view ↦
      if length == 0
      then none
      else if leb r.size offset
      then none
      else some
          (offset, if ltb r.size ((offset + length) % 2 ^ 64) then r.size - offset else length)
]
