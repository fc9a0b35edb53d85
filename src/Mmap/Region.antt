-- ===== src/Mmap/Region.antt =====
-- mmap/mmap_region.h and mmap/mmap_region.cpp, the POSIX branch: Create, Sync, Close and the moves.
--
-- The operating system's answers are an argument (`Os`); what the code asks of it is a list of
-- calls. An address is a number.
pub mod Handles
pub mod Windows
use logger_high.Base.{
  ℕ, ◌+◌, ◌-◌, ◌*◌, ◌/◌, ◌%◌, ◌^◌, Bool, not, List, [], ◌∷◌, ◌++◌, Option, none, some, ok, throws,
  ltb, leb, ◌==◌, if◌then◌else◌,
}
use logger_high.Errors.{
  Throwing, region_size_zero, region_open_failed, region_resize_failed, region_map_failed,
}

pub record MmapRegion : Type 0 where
  pub data_at : Option ℕ  -- data_, `none` for nullptr
  pub size : ℕ
  pub fd : Option ℕ  -- `none` for -1

-- The default constructor.
abbrev pub empty_region : MmapRegion
empty_region = record { data_at = none; size = 0; fd = none }

pub record Os : Type 0 where
  pub page : ℕ  -- utils::GetPageSize()
  pub open_answer : Option ℕ
  pub ftruncate_answer : Bool
  pub mmap_answer : Option ℕ

pub data Call : Type 0 where
  opens closes : ℕ → Call
  maps unmaps : ℕ → ℕ → Call

abbrev pub round_up_to_page : ℕ → ℕ → ℕ
round_up_to_page page n = if page == 0 then n else (n + page - 1) % 2 ^ 64 / page * page

abbrev pub mapped_or_closed : ℕ → ℕ → Option ℕ → List Call × Throwing MmapRegion
mapped_or_closed fd mapped none = (opens fd ∷ closes fd ∷ [], throws region_map_failed)
mapped_or_closed fd mapped (some addr) = (
  opens fd ∷ maps addr mapped ∷ [],
  ok (record { data_at = some addr; size = mapped; fd = some fd }),
)

abbrev pub opened_or_not : Os → ℕ → Option ℕ → List Call × Throwing MmapRegion
opened_or_not os mapped none = ([], throws region_open_failed)
opened_or_not os mapped (some fd) =
    if not os.ftruncate_answer
    then (opens fd ∷ closes fd ∷ [], throws region_resize_failed)
    else mapped_or_closed fd mapped os.mmap_answer

-- Create; that the parent directories are made is left out, since its error is ignored.
unfoldable pub create : Os → ℕ → List Call × Throwing MmapRegion
create os size_bytes =
    if size_bytes == 0
    then ([], throws region_size_zero)
    else opened_or_not os (round_up_to_page os.page size_bytes) os.open_answer

abbrev pub unmap_calls : ℕ → Option ℕ → List Call
unmap_calls size none = []
unmap_calls size (some addr) = unmaps addr size ∷ []

abbrev pub close_calls : Option ℕ → List Call
close_calls none = []
close_calls (some fd) = closes fd ∷ []

-- Close, which the destructor calls too: munmap, then close, then size zero.
unfoldable pub close : MmapRegion → List Call × MmapRegion
close r = (unmap_calls r.size r.data_at ++ close_calls r.fd, empty_region)

-- The move constructor: the new region, and the one moved from.
abbrev pub move_construct : MmapRegion → MmapRegion × MmapRegion
move_construct other = (other, record { data_at = none; size = 0; fd = none })

-- The move assignment between two objects, which closes what the target held.
unfoldable pub move_assign : MmapRegion → MmapRegion → List Call × (MmapRegion × MmapRegion)
unfolding close
move_assign self other = ((close self).0, (other, record { data_at = none; size = 0; fd = none }))

-- Sync: the offset and length given to msync, or `none` where it returns before that.
abbrev pub synced : ℕ → ℕ → ℕ → Option (ℕ × ℕ)
synced page offset length =
    let aligned_off = if page == 0 then offset else offset / page * page in
    some (aligned_off, length + (offset - aligned_off))

abbrev pub sync_mapped : ℕ → ℕ → ℕ → ℕ → Option (ℕ × ℕ)
sync_mapped page size offset length =
    if length == 0
    then none
    else if leb size offset
    then none
    else synced page offset
        (if ltb size ((offset + length) % 2 ^ 64) then size - offset else length)

abbrev pub sync_data : ℕ → ℕ → ℕ → ℕ → Option ℕ → Option (ℕ × ℕ)
sync_data page size offset length none = none
sync_data page size offset length (some addr) = sync_mapped page size offset length

unfoldable pub sync : ℕ → MmapRegion → ℕ → ℕ → Option (ℕ × ℕ)
sync page r offset length = sync_data page r.size offset length r.data_at
