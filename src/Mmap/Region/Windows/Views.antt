-- ===== src/Mmap/Region/Windows/Views.antt =====
-- What the Windows branch of mmap/mmap_region.cpp holds of the operating system, and what Sync writes
-- out.
use logger_high.Base.{
  ℕ, ◌+◌, ◌*◌, ◌/◌, ◌%◌, ◌^◌, ◌≡◌, refl, not, List, [], ◌∷◌, ◌++◌, Option, none, some, ok, throws,
  ◌==◌, arith, if_both, ◌-◌, ◌<◌, ap, inl, inr, false, ltb, leb, min, Bool-cases, ltb→lt, not_lt,
}
use native.Mathlib.Nat.{div-add-mod'}
use logger_high.Errors.{Throwing}
use logger_high.Mmap.Region.{round_up_to_page}
use logger_high.Mmap.Region.Handles.{without, same}
use logger_high.Mmap.Region.Windows.{
  WindowsRegion, WindowsOs, WindowsCall, opens_file, opens_mapping, opens_view, unmaps_view,
  closes_handle, create_windows, close_windows, sized_or_closed, mapping_or_closed,
  viewed_or_closed, size_hi, size_lo, sync_windows,
}

-- The handles and the views that stay after some calls.
abbrev pub kept_after : List ℕ × List ℕ → List WindowsCall → List ℕ × List ℕ
kept_after h [] = h
kept_after (handles, views) (opens_file f ∷ cs) = kept_after (f ∷ handles, views) cs
kept_after (handles, views) (opens_mapping hi lo m ∷ cs) = kept_after (m ∷ handles, views) cs
kept_after (handles, views) (opens_view at n ∷ cs) = kept_after (handles, at ∷ views) cs
kept_after (handles, views) (unmaps_view at ∷ cs) = kept_after (handles, without at views) cs
kept_after (handles, views) (closes_handle x ∷ cs) = kept_after (without x handles, views) cs

-- What the code returned is what it holds: a file, its mapping and a view.
abbrev pub OwnsView : List ℕ × List ℕ → List WindowsCall → Throwing WindowsRegion → Type 0
OwnsView h cs (throws e) = kept_after h cs ≡ h
OwnsView h cs (ok r) =
    (file : ℕ) × (mapping : ℕ) × (view : ℕ) × (r.file_handle ≡ some file)
    × (r.mapping_handle ≡ some mapping)
    × (r.data_at ≡ some view)
    × (kept_after h cs ≡ (mapping ∷ file ∷ h.0, view ∷ h.1))
    × (kept_after h (cs ++ (close_windows r).0) ≡ h)
    × ((close_windows (close_windows r).1).0 ≡ [])

-- The two words that CreateFileMappingW gets, as a 64-bit size.
size_words : (n : ℕ) → size_hi n * 2 ^ 32 + size_lo n ≡ n % 2 ^ 64
size_words n =
    let high : n % 2 ^ 64 / 2 ^ 32 * 2 ^ 32 + n % 2 ^ 64 % 2 ^ 32 ≡ n % 2 ^ 64 =
      div-add-mod' (n % 2 ^ 64) (2 ^ 32) in
    omega (arith, high)

-- The mapping and the view that some calls ask for are of `n` bytes.
abbrev pub AllOfSize : ℕ → List WindowsCall → Type 0
AllOfSize n [] = Unit
AllOfSize n (opens_file f ∷ cs) = AllOfSize n cs
AllOfSize n (opens_mapping hi lo m ∷ cs) = (hi * 2 ^ 32 + lo ≡ n % 2 ^ 64) × AllOfSize n cs
AllOfSize n (opens_view at k ∷ cs) = (k ≡ n) × AllOfSize n cs
AllOfSize n (unmaps_view at ∷ cs) = AllOfSize n cs
AllOfSize n (closes_handle x ∷ cs) = AllOfSize n cs

-- On Windows, whatever the operating system answers: where Create throws, it has given back every
-- handle and view; where it returns, the region holds a file, a mapping and a view, its Close gives
-- all of them back, and a second Close asks for nothing. The mapping and the view are asked for at
-- the request's size rounded up to whole pages, as far as 64 bits hold it.
pub create_windows-OwnsView :
    (os : WindowsOs) (size_bytes : ℕ) (h : List ℕ × List ℕ)
    → let r = create_windows os size_bytes in
      OwnsView h r.0 r.1 × AllOfSize (round_up_to_page os.page size_bytes) r.0
unfolding create_windows close_windows
create_windows-OwnsView os size_bytes h =
    if_both
      (λ (r : List WindowsCall × Throwing WindowsRegion).
        OwnsView h r.0 r.1 × AllOfSize (round_up_to_page os.page size_bytes) r.0)
      (size_bytes == 0) _ _ (refl, tt)
      (by_file (round_up_to_page os.page size_bytes) os.create_file_answer)
  where
    by_view :
        (mapped file mapping : ℕ) (answer : Option ℕ)
        → let r = viewed_or_closed mapped file mapping answer in
          OwnsView h r.0 r.1 × AllOfSize mapped r.0
    by_view mapped file mapping none = (rw (same mapping, same file) refl, (size_words mapped, tt))
    by_view mapped file mapping (some view) = (
      (
        file,
        mapping,
        view,
        refl,
        refl,
        refl,
        refl,
        rw (same view, same mapping, same file) refl,
        refl,
      ),
      (size_words mapped, (refl, tt)),
    )

    by_mapping :
        (mapped file : ℕ) (answer : Option ℕ)
        → let r = mapping_or_closed os mapped file answer in
          OwnsView h r.0 r.1 × AllOfSize mapped r.0
    by_mapping mapped file none = (rw (same file) refl, tt)
    by_mapping mapped file (some mapping) = by_view mapped file mapping os.view_answer

    by_file :
        (mapped : ℕ) (answer : Option ℕ)
        → let r = sized_or_closed os mapped answer in OwnsView h r.0 r.1 × AllOfSize mapped r.0
    by_file mapped none = (refl, tt)
    by_file mapped (some file) =
        if_both
          (λ (r : List WindowsCall × Throwing WindowsRegion).
            OwnsView h r.0 r.1 × AllOfSize mapped r.0)
          (not os.set_end_answer) _ _ (rw (same file) refl, tt)
          (by_mapping mapped file os.mapping_answer)

-- Sync of a range that starts inside the region, on an offset and length whose sum keeps to 64 bits,
-- writes out the part of the range that lies in the region, and no more.
sync_windows_inside :
    (r : WindowsRegion) (offset length view : ℕ)
    → r.data_at ≡ some view
    → 0 < length
    → offset < r.size
    → offset + length < 2 ^ 64
    → sync_windows r offset length ≡ some (offset, min length (r.size - offset))
unfolding sync_windows
sync_windows_inside r offset length view mapped l inside fits =
    let nl : (length == 0) ≡ false = ground arith in
    let starts : leb r.size offset ≡ false = ground arith in
    let wraps : (offset + length) % 2 ^ 64 ≡ offset + length = omega (arith, fits) in
    elim (Bool-cases (ltb r.size (offset + length))) [
      | inl e ↦
          let cut : r.size - offset ≡ min length (r.size - offset) =
            omega (arith, ltb→lt _ _ e, inside) in
          rw (mapped, nl, starts, wraps, e) (ap (λ n. some (offset, n)) cut)
      | inr e ↦
          let kept : length ≡ min length (r.size - offset) = omega (arith, not_lt _ _ e, inside) in
          rw (mapped, nl, starts, wraps, e) (ap (λ n. some (offset, n)) kept)
    ]
