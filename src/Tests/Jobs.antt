-- ===== src/Tests/Jobs.antt =====
-- Expressions and rounds of the scheduler.
use haproxy_spoa_firehol_mmd.Prelude.{◌+◌, ◌%◌, ◌^◌, ◌≡◌, refl, true, false, List, [], ◌∷◌, some}
use haproxy_spoa_firehol_mmd.Scheduler.{Stats, Tick, run_job, run_round, run}
use haproxy_spoa_firehol_mmd.Scheduler.Runs.{jobs, failures, run_lem}

abbrev fresh : Stats
fresh = record {
  runs_total = 0;
  failures_total = 0;
  running = 0;
  last_run_seconds = 0;
  last_run_unix = 0;
  next_run_unix = 0;
}

-- A job that throws, a time that is past, and a stop while the thread waits.
abbrev rounds : List Tick
rounds =
    record {
      stop_before = false;
      stop_waiting = false;
      now = 5;
      next = some 60;
      throws = true;
      seconds = 2;
      finished = 62;
    }
    ∷ record {
      stop_before = false;
      stop_waiting = false;
      now = 60000000001;
      next = some 60;
      throws = false;
      seconds = 0;
      finished = 0;
    }
    ∷ record {
      stop_before = false;
      stop_waiting = true;
      now = 61000000000;
      next = some 120;
      throws = false;
      seconds = 0;
      finished = 0;
    }
    ∷ []

run_rounds : ((run rounds fresh).runs_total ≡ 1) × ((run rounds fresh).failures_total ≡ 1)
unfolding run run_round run_job
run_rounds = (refl, refl)

run_lem_example :
    ((run rounds fresh).running ≡ 0)
    × ((run rounds fresh).runs_total % 2 ^ 64 ≡ (fresh.runs_total + jobs rounds) % 2 ^ 64)
    × ((run rounds fresh).failures_total % 2 ^ 64
        ≡ (fresh.failures_total + failures rounds) % 2 ^ 64)
run_lem_example = run_lem rounds fresh refl
