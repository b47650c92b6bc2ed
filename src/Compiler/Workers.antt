-- ===== src/Compiler/Workers.antt =====
-- src/firehol_blocklist_ipsets/compiler.cpp: the worker threads of `compile_to_mmdb`. A worker is where it
-- stands between two accesses to what the workers share; an interleaving is a list of the workers
-- that take a step.
pub mod Sums
pub mod Share
pub mod Steps
pub mod Ends
pub mod Turns
use haproxy_spoa_firehol_mmd.Prelude.{
  ℕ, zero, suc, ◌+◌, ◌%◌, ◌^◌, ◌==◌, Bool, true, false, List, [], ◌∷◌, Option, none, some, ltb,
  if◌then◌else◌,
}
use haproxy_spoa_firehol_mmd.Prelude.Lists.{length, get_or, set, replicate}

-- `ParsedBlocklist`
pub record Parsed : Type 0 where
  pub networks : ℕ
  pub category : List ℕ

pub data Phase : Type 0 where
  fetching : Phase
  parsing : ℕ → Phase
  leaving : Phase
  finished : Phase

-- The local variables of a worker, with its slot of `errors`: the file whose reading threw.
pub record Worker : Type 0 where
  pub phase : Phase
  pub parsed : ℕ
  pub error : Option ℕ

abbrev pub new_worker : Worker
new_worker = record { phase = fetching; parsed = 0; error = none }

-- What the workers share.
pub record Shared : Type 0 where
  pub next_file : ℕ
  pub total_networks : ℕ
  pub stats : List (Option Parsed)
  pub workers : List Worker

-- What stands for a worker that is not there: it takes no step.
abbrev pub gone : Worker
gone = record { phase = finished; parsed = 0; error = none }

module _ (process : ℕ → Option Parsed) (files : ℕ) where
  -- The reading of a file, and its slot of the statistics.
  unfoldable pub parse_file :
      ℕ → Option Parsed → Worker → List (Option Parsed) → Worker × List (Option Parsed)
  parse_file i none w stats = (record w { phase = leaving; error = some i }, stats)
  parse_file i (some r) w stats = (
    record w { phase = fetching; parsed = (w.parsed + r.networks) % 2 ^ 64 },
    set stats i (some r),
  )

  -- One step of a worker that stands in a phase.
  unfoldable pub act : Phase → ℕ → Worker → Shared → Shared
  act fetching t w s = record s {
    next_file = s.next_file + 1;
    workers =
        set s.workers t
          (record w { phase = if ltb s.next_file files then parsing s.next_file else leaving });
  }
  act (parsing i) t w s =
      let (w', stats) = parse_file i (process i) w s.stats in
      record s { stats = stats; workers = set s.workers t w' }
  act leaving t w s = record s {
    total_networks = (s.total_networks + w.parsed) % 2 ^ 64;
    workers = set s.workers t (record w { phase = finished });
  }
  act finished t w s = s

  unfoldable pub step : ℕ → Shared → Shared
  step t s = let w = get_or s.workers t gone in act w.phase t w s

  unfoldable pub interleave : List ℕ → Shared → Shared
  interleave [] s = s
  interleave (t ∷ ts) s = interleave ts (step t s)

  abbrev pub begin : ℕ → Shared
  begin threads = record {
    next_file = 0;
    total_networks = 0;
    stats = replicate files none;
    workers = replicate threads new_worker;
  }

-- The number of workers: at least one where there is a file.
unfoldable pub thread_count : ℕ → ℕ → ℕ
thread_count hardware files =
    let threads = if hardware == 0 then 4 else hardware in
    if ltb files threads then files else threads

-- The first worker that failed.
unfoldable pub first_error : List Worker → Option ℕ
first_error [] = none
first_error (w ∷ ws) = elim w.error [ none ↦ first_error ws | some i ↦ some i ]

unfoldable pub is_finished : Phase → Bool
is_finished fetching = false
is_finished (parsing i) = false
is_finished leaving = false
is_finished finished = true

-- The workers are joined.
unfoldable pub all_finished : List Worker → Bool
all_finished [] = true
all_finished (w ∷ ws) = if is_finished w.phase then all_finished ws else false
