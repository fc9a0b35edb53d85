-- ===== src/Mmap/Buffer.antt =====
-- mmap/mmap_buffer.h and mmap/mmap_buffer.cpp: one mapped region that takes framed writes.
--
-- The region of a buffer is mapped by the constructor and never moved from or closed while the
-- buffer lives, so `mem` stands for `region_.data()[0 .. region_.size())` and `length mem` for
-- `region_.size()`. This file is a call at a time; where several Writes and a Seal overlap, see Concurrent.
pub mod Drain
pub mod Fill
pub mod Runs
pub mod Long
pub mod Reuse
pub mod Concurrent
use logger_high.Base.{
  ℕ, zero, suc, ◌+◌, ◌-◌, ◌%◌, ◌^◌, Bool, true, false, ◌||◌, List, [], ◌∷◌, ◌++◌, Option, none,
  some, min, length, take, drop, replicate, ltb, leb, ◌==◌, if◌then◌else◌,
}
use logger_high.Bytes.{encode_le_u32, decode_le_u32}
use mathlib.Core.Option

pub record MmapBuffer : Type 0 where
  pub mem : List ℕ
  pub offset : ℕ  -- std::atomic<std::size_t>
  pub writers : ℕ
  pub sealed : Bool

-- The constructor over the bytes that the file already holds: MmapRegion::Create opens it without
-- truncating it.
abbrev pub open_buffer : List ℕ → MmapBuffer
open_buffer image = record { mem = image; offset = 0; writers = 0; sealed = false }

abbrev pub max_payload : ℕ
max_payload = 0xFFFFFFFF

-- The bytes from `at` on are replaced; a write that fits leaves the size alone.
abbrev pub store : List ℕ → ℕ → List ℕ → List ℕ
store mem at bytes = take at mem ++ (bytes ++ drop (at + length bytes) mem)

abbrev enter : MmapBuffer → MmapBuffer
enter b = record b { writers = b.writers + 1 }

abbrev leave : MmapBuffer → MmapBuffer
leave b = record b { writers = b.writers - 1 }

-- From `offset_.fetch_add(need)` on. `old + need` is a size_t sum.
unfoldable pub reserve_and_copy : MmapBuffer → List ℕ → MmapBuffer × Bool
reserve_and_copy b payload =
    let need = 4 + length payload in
    let cap = length b.mem in
    let old = b.offset in
    let reserved = record b { offset = (old + need) % 2 ^ 64 } in
    if ltb cap ((old + need) % 2 ^ 64) then (leave reserved, false) else (
      leave (record reserved { mem = store b.mem old (encode_le_u32 (length payload) ++ payload) }),
      true,
    )

unfoldable pub write : MmapBuffer → List ℕ → MmapBuffer × Bool
unfolding reserve_and_copy
write b payload =
    if length payload == 0 || ltb max_payload (length payload)
    then (b, false)
    else if b.sealed
    then (leave (enter b), false)
    else reserve_and_copy (enter b) payload

-- Seal spins until no writer is left. A call on its own finds none, so it returns at once; with
-- writers inside it does not return, which is `none`.
unfoldable pub seal : MmapBuffer → Option MmapBuffer
seal b = if b.writers == 0 then some (record b { sealed = true }) else none

abbrev pub used : MmapBuffer → ℕ
used b = min b.offset (length b.mem)

-- The loop of ForEachFrame, with the frames that it hands to `fn`. The test of the frame's end is a
-- size_t sum inside the address space; the step to the next frame adds `4 + len` in 32 bits. `none`
-- means that the fuel ran out.
unfoldable pub frames_loop : ℕ → List ℕ → ℕ → ℕ → Option (List (List ℕ))
frames_loop zero mem end pos = none
frames_loop (suc fuel) mem end pos =
    let len = decode_le_u32 (drop pos mem) in
    let rest = frames_loop fuel mem end (pos + (4 + len) % 2 ^ 32) in
    if leb (pos + 4) end
    then (if len == 0 || ltb end (pos + 4 + len)
        then some []
        else Option.map (λ fs. take len (drop (pos + 4) mem) ∷ fs) rest)
    else some []

-- Each round that goes on moves `pos` by a byte at least, unless `4 + len` is 2 ^ 32: the code then
-- reads the same frame for ever, which is `none` here.
unfoldable pub for_each_frame : MmapBuffer → Option (List (List ℕ))
for_each_frame b = frames_loop (suc (used b)) b.mem (used b) 0

-- ResetForReuse stores the offset and the flag first, and clears the bytes then.
abbrev pub reopen : MmapBuffer → MmapBuffer
reopen b = record b { offset = 0; sealed = false }

abbrev pub scrub : ℕ → MmapBuffer → MmapBuffer
scrub prev_used b = record b { mem = replicate prev_used 0 ++ drop prev_used b.mem }

unfoldable pub reset_for_reuse : MmapBuffer → MmapBuffer
reset_for_reuse b = scrub (used b) (reopen b)

-- The byte range that Sync hands to the region: none if nothing is used.
unfoldable pub sync_range : MmapBuffer → Option (ℕ × ℕ)
sync_range b = if ltb 0 (used b) then some (0, used b) else none

-- A run of writes, with the payloads that were accepted.
unfoldable pub write_all : MmapBuffer → List (List ℕ) → MmapBuffer × List (List ℕ)
write_all b [] = (b, [])
write_all b (p ∷ ps) =
    let (b', done) = write b p in
    let (b'', accepted) = write_all b' ps in (b'', if done then p ∷ accepted else accepted)
