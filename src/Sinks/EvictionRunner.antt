-- ===== src/Sinks/EvictionRunner.antt =====
-- sinks/eviction_runner.h and sinks/eviction_runner.cpp: the sweep of the log directory, and the
-- start and stop of its thread.
--
-- What the file system answers for a directory entry is part of the entry. A path is the number of
-- its canonical form; a name is its bytes.
pub mod Sweep
pub mod Collect
use logger_high.Names.{name_lt}
use logger_high.Base.{
  ℕ, suc, ◌+◌, ◌-◌, Bool, true, false, not, ◌&&◌, ◌||◌, List, [], ◌∷◌, Option, none, some, length,
  take, drop, ltb, leb, ◌==◌, if◌then◌else◌,
}

abbrev pub equal_bytes : List ℕ → List ℕ → Bool
equal_bytes [] [] = true
equal_bytes (a ∷ l) (b ∷ m) = a == b && equal_bytes l m
equal_bytes _ _ = false

abbrev pub prefix : List ℕ
prefix = b'l' ∷ b'o' ∷ b'g' ∷ b'-' ∷ []

abbrev pub suffix : List ℕ
suffix = b'.' ∷ b'b' ∷ b'i' ∷ b'n' ∷ []

unfoldable pub looks_like_shard : List ℕ → Bool
looks_like_shard name =
    ltb (length prefix + length suffix) (length name)
    && (equal_bytes (take 4 name) prefix && equal_bytes (drop (length name - 4) name) suffix)

-- A directory entry: its name, what is_regular_file reports (`none`: false with an error code),
-- what file_size reports (`none`: an error code), its canonical path (`none`: an error code), and
-- whether remove succeeds.
pub record DirEntry : Type 0 where
  pub filename : List ℕ
  pub regular : Option Bool
  pub file_size : Option ℕ
  pub canonical : Option ℕ
  pub removable : Bool

pub record Entry : Type 0 where
  pub filename : List ℕ
  pub size : ℕ
  pub canonical : Option ℕ
  pub removable : Bool

abbrev pub to_entry : DirEntry → ℕ → Entry
to_entry d size = record {
  filename = d.filename;
  size = size;
  canonical = d.canonical;
  removable = d.removable;
}

-- The loop over the directory, with the one `ec` that all its calls share: `failed` is whether `ec`
-- holds an error when the body begins. is_regular_file and file_size set it or clear it. `none` is
-- the `return` at the head of the body.
abbrev sized : DirEntry → Option ℕ → Option (List Entry) → Option (List Entry) → Option (List Entry)
sized d none after_error rest = after_error
sized d (some size) after_error none = none
sized d (some size) after_error (some es) = some (to_entry d size ∷ es)

abbrev classified :
    DirEntry → Option Bool → Option (List Entry) → Option (List Entry) → Option (List Entry)
classified d none after_error rest = after_error
classified d (some false) after_error rest = rest
classified d (some true) after_error rest =
    if looks_like_shard d.filename then sized d d.file_size after_error rest else rest

unfoldable pub collect : Bool → List DirEntry → Option (List Entry)
collect failed [] = some []
collect failed (d ∷ ds) =
    let after_error = collect true ds in
    let rest = collect false ds in if failed then none else classified d d.regular after_error rest

-- std::sort by filename: a sorting function, of which only the result matters.
pub insert_entry : Entry → List Entry → List Entry
insert_entry e [] = e ∷ []
insert_entry e (x ∷ xs) =
    if name_lt x.filename e.filename then x ∷ insert_entry e xs else e ∷ x ∷ xs

unfoldable pub sort_entries : List Entry → List Entry
unfolding insert_entry
sort_entries [] = []
sort_entries (e ∷ es) = insert_entry e (sort_entries es)

abbrev pub sum_sizes : List Entry → ℕ
sum_sizes [] = 0
sum_sizes (e ∷ es) = e.size + sum_sizes es

abbrev pub same_path : Option ℕ → Option ℕ → Bool
same_path (some a) (some b) = a == b
same_path _ _ = false

-- Whether an entry is the active shard; without a canonical path on either side it is not.
abbrev pub is_active : Option ℕ → Entry → Bool
is_active active e = same_path active e.canonical

-- What a sweep has done: the removed entries in order, the others, and the total it goes by.
pub record Swept : Type 0 where
  pub removed : List Entry
  pub kept : List Entry
  pub total : ℕ

abbrev pub keep : Entry → Swept → Swept
keep e r = record r { kept = e ∷ r.kept }

abbrev pub remove : Entry → Swept → Swept
remove e r = record r { removed = e ∷ r.removed }

-- The loop that removes, oldest name first.
unfoldable pub evict : ℕ → Option ℕ → List Entry → ℕ → Swept
evict cap_bytes active [] total = record { removed = []; kept = []; total = total }
evict cap_bytes active (e ∷ es) total =
    let passed_over = evict cap_bytes active es total in
    let rest = evict cap_bytes active es (total - e.size) in
    if leb total cap_bytes
    then record { removed = []; kept = e ∷ es; total = total }
    else if is_active active e || not e.removable
    then keep e passed_over
    else remove e rest

-- SweepOnce_ on a directory that exists.
abbrev pub swept : ℕ → Option ℕ → Option (List Entry) → Option Swept
swept cap_bytes active none = none
swept cap_bytes active (some es) = some (
    if leb (sum_sizes es) cap_bytes
    then record { removed = []; kept = es; total = sum_sizes es }
    else evict cap_bytes active (sort_entries es) (sum_sizes es))

unfoldable pub sweep_once : ℕ → Option ℕ → List DirEntry → Option Swept
unfolding collect evict sort_entries
sweep_once cap_bytes active ds = swept cap_bytes active (collect false ds)

-- started_, stop_, and whether `thread_` is joinable.
pub record Runner : Type 0 where
  pub started : Bool
  pub stop_flag : Bool
  pub joinable : Bool

unfoldable pub start : Runner → Runner
start r = if r.started then r else record r { started = true; joinable = true }

unfoldable pub stop : Runner → Runner
stop r = if r.started then record { started = false; stop_flag = true; joinable = false } else r

-- RunLoop_ of a thread: how many sweeps it makes, for what `stop_` is when the loop begins and at the
-- end of each of its waits. A sweep that throws is caught and counts.
unfoldable pub run_loop : Bool → List Bool → ℕ
run_loop stop_flag [] = 0
run_loop stop_flag (woken ∷ rest) =
    let more = run_loop woken rest in if stop_flag then 0 else if woken then 0 else suc more
