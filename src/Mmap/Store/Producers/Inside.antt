-- ===== src/Mmap/Store/Producers/Inside.antt =====
-- Threads of mmap/mmap_store.cpp write to buffers of the pool only.
use logger_high.Base.{ℕ, ◌≤◌, ◌<◌, Bool, true, false, List, arith}
use logger_high.Mmap.Store.{Retry}
use logger_high.Mmap.Store.Producers.{
  Thread, resting, reading, writing, refused_by, waiting, flushing, next_round, wrote, flush_round,
}

-- The buffer that a thread is about to write to is one of the first `n`.
abbrev pub Inside : ℕ → Thread → Type 0
Inside n resting = Unit
Inside n (reading p) = Unit
Inside n (writing p cur) = cur < n
Inside n (refused_by p cur) = Unit
Inside n (waiting p) = Unit
Inside n flushing = Unit

pub Inside-grow : (m n : ℕ) (t : Thread) → m ≤ n → Inside m t → Inside n t
Inside-grow m n resting k h = tt
Inside-grow m n (reading p) k h = tt
Inside-grow m n (writing p cur) k h = omega (arith, k, h)
Inside-grow m n (refused_by p cur) k h = tt
Inside-grow m n (waiting p) k h = tt
Inside-grow m n flushing k h = tt

pub next_round-Inside : (n : ℕ) (p : List ℕ) (r : Retry) → Inside n (next_round p r)
next_round-Inside n p Retry.again = tt
next_round-Inside n p Retry.give_up = tt
next_round-Inside n p Retry.waits = tt

pub flush_round-Inside : (n : ℕ) (r : Retry) → Inside n (flush_round r)
flush_round-Inside n Retry.again = tt
flush_round-Inside n Retry.give_up = tt
flush_round-Inside n Retry.waits = tt

pub wrote-Inside : (n : ℕ) (p : List ℕ) (cur : ℕ) (done : Bool) → Inside n (wrote p cur done)
wrote-Inside n p cur true = tt
wrote-Inside n p cur false = tt
