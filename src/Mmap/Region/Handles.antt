-- ===== src/Mmap/Region/Handles.antt =====
-- What mmap/mmap_region.cpp holds of the operating system, and what Sync writes out.
use logger_high.Base.{
  ℕ, ◌+◌, ◌-◌, ◌*◌, ◌/◌, ◌%◌, ◌^◌, ◌≤◌, ◌<◌, ◌≡◌, refl, ◌∙◌, ap, inl, inr, true, false, not, ◌&&◌,
  List, [], ◌∷◌, ◌++◌, Option, none, some, ok, throws, ltb, leb, ◌==◌, if◌then◌else◌, arith,
  Bool-cases, ==_iff, if_both, min, ltb→lt, not_lt,
}
use native.Mathlib.Nat.{div-add-mod', mod-lt}
use logger_high.Decimal.{negsuc}
use logger_high.Errors.{Throwing}
use logger_high.Utils.{get_page_size}
use logger_high.Mmap.Region.{
  MmapRegion, Os, Call, opens, closes, maps, unmaps, create, close, sync, round_up_to_page,
  opened_or_not, mapped_or_closed,
}

-- Descriptors and mappings that stay after some calls: those that were there, then what was opened
-- or mapped and not given back.
abbrev pub without : ℕ → List ℕ → List ℕ
without x [] = []
without x (y ∷ ys) = let rest = y ∷ without x ys in if x == y then ys else rest

-- A mapping is its address and its length; munmap gives it back on the same two.
abbrev unmapped : ℕ → ℕ → List (ℕ × ℕ) → List (ℕ × ℕ)
unmapped at n [] = []
unmapped at n (v ∷ vs) =
    let rest = v ∷ unmapped at n vs in if v.0 == at && v.1 == n then vs else rest

abbrev pub held_after : List ℕ × List (ℕ × ℕ) → List Call → List ℕ × List (ℕ × ℕ)
held_after h [] = h
held_after (fds, views) (opens fd ∷ cs) = held_after (fd ∷ fds, views) cs
held_after (fds, views) (closes fd ∷ cs) = held_after (without fd fds, views) cs
held_after (fds, views) (maps at n ∷ cs) = held_after (fds, (at, n) ∷ views) cs
held_after (fds, views) (unmaps at n ∷ cs) = held_after (fds, unmapped at n views) cs

-- What the code returned is what it holds.
abbrev pub Owns : List ℕ × List (ℕ × ℕ) → List Call → Throwing MmapRegion → Type 0
Owns h cs (throws e) = held_after h cs ≡ h
Owns h cs (ok r) =
    (fd : ℕ) × (addr : ℕ) × (r.fd ≡ some fd)
    × (r.data_at ≡ some addr)
    × (held_after h cs ≡ (fd ∷ h.0, (addr, r.size) ∷ h.1))
    × (held_after h (cs ++ (close r).0) ≡ h)
    × ((close (close r).1).0 ≡ [])

pub same : (n : ℕ) → (n == n) ≡ true
same n = (==_iff n n).1 refl

-- Whatever the operating system answers: where Create throws, it has given back every descriptor and
-- mapping; where it returns, the region holds a descriptor and a mapping of its size, its Close gives
-- the descriptor back and unmaps the whole mapping, and a second Close asks for nothing.
pub create-Owns :
    (os : Os) (size_bytes : ℕ) (h : List ℕ × List (ℕ × ℕ))
    → let r = create os size_bytes in Owns h r.0 r.1
unfolding create close
create-Owns os size_bytes h =
    if_both (λ (r : List Call × Throwing MmapRegion). Owns h r.0 r.1) (size_bytes == 0) _ _ refl
      (by_open (round_up_to_page os.page size_bytes) os.open_answer)
  where
    by_map :
        (mapped fd : ℕ) (answer : Option ℕ)
        → let r = mapped_or_closed fd mapped answer in Owns h r.0 r.1
    by_map mapped fd none = rw (same fd) refl
    by_map mapped fd (some addr) =
        (fd, addr, refl, refl, refl, rw (same addr, same mapped, same fd) refl, refl)

    by_open :
        (mapped : ℕ) (answer : Option ℕ) → let r = opened_or_not os mapped answer in Owns h r.0 r.1
    by_open mapped none = refl
    by_open mapped (some fd) =
        if_both (λ (r : List Call × Throwing MmapRegion). Owns h r.0 r.1) (not os.ftruncate_answer)
          _ _ (rw (same fd) refl) (by_map mapped fd os.mmap_answer)

-- The largest multiple of the page size up to `m`: it is at most `m`, and less than a page below.
page_floor : (page m : ℕ) → 0 < page → (m / page * page ≤ m) × (m < m / page * page + page)
page_floor page m h =
    let split : m / page * page + m % page ≡ m = div-add-mod' m page in
    let small : m % page < page = mod-lt m h in (omega (arith, split), omega (arith, split, small))

-- On pages of a positive size, and where the sum with one page keeps to 64 bits, the mapped size is
-- the least number of whole pages that holds the request.
pub round_up_to_page_bounds :
    (page n : ℕ)
    → 0 < page
    → n + page ≤ 2 ^ 64
    → (n ≤ round_up_to_page page n)
      × (round_up_to_page page n < n + page)
      × ((k : ℕ) × (round_up_to_page page n ≡ k * page))
round_up_to_page_bounds page n h fits =
    let z : (page == 0) ≡ false = ground arith in
    let whole : (n + page - 1) % 2 ^ 64 ≡ n + page - 1 = omega (arith, h, fits) in
    let (low, high) = page_floor page (n + page - 1) h in
    rw (z, whole) (omega (arith, high), omega (arith, low), ((n + page - 1) / page, refl))

-- Where sysconf fails, GetPageSize is the greatest number of 64 bits, and every request of two bytes
-- or more rounds up to no byte at all.
unknown_page_maps_nothing :
    (n : ℕ) → 2 ≤ n → n < 2 ^ 64 → round_up_to_page (get_page_size (negsuc 0)) n ≡ 0
unfolding get_page_size
unknown_page_maps_nothing n h k =
    let wraps : (n + (2 ^ 64 - 1) - 1) % 2 ^ 64 ≡ n - 2 = omega (arith, h, k) in
    ap (λ m. m / (2 ^ 64 - 1) * (2 ^ 64 - 1)) wraps ∙ omega (arith, k)

le→leb_false : (a b : ℕ) → b < a → leb a b ≡ false
le→leb_false a b h = ground arith

-- Sync of a range that starts inside the region, on an offset and length whose sum keeps to 64 bits:
-- what goes to msync starts at a page, covers the part of the range that lies in the region, starts
-- less than a page before it, and ends inside the region.
pub sync_covers :
    (page offset length : ℕ) (r : MmapRegion) (addr : ℕ)
    → 0 < page
    → r.data_at ≡ some addr
    → 0 < length
    → offset < r.size
    → offset + length < 2 ^ 64
    → (at : ℕ) × (n : ℕ) × (k : ℕ) × (sync page r offset length ≡ some (at, n))
      × (at ≡ k * page)
      × (at ≤ offset)
      × (offset < at + page)
      × (at + n ≡ min (offset + length) r.size)
unfolding sync
sync_covers page offset length r addr p mapped l inside fits =
    let z : (page == 0) ≡ false = ground arith in
    let nl : (length == 0) ≡ false = ground arith in
    let (low, high) = page_floor page offset p in
    let wraps : (offset + length) % 2 ^ 64 ≡ offset + length = omega (arith, fits) in
    let at = offset / page * page in
    elim (Bool-cases (ltb r.size (offset + length))) [
      | inl e ↦ (
        at,
        (r.size - offset) + (offset - at),
        offset / page,
        rw (mapped, nl, le→leb_false r.size offset inside, wraps, e, z) refl,
        refl,
        low,
        high,
        omega (arith, ltb→lt _ _ e, low, inside),
      )
      | inr e ↦ (
        at,
        length + (offset - at),
        offset / page,
        rw (mapped, nl, le→leb_false r.size offset inside, wraps, e, z) refl,
        refl,
        low,
        high,
        omega (arith, not_lt _ _ e, low),
      )
    ]
