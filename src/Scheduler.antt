-- ===== src/Scheduler.antt =====
-- src/job_scheduler/job_scheduler.cpp: the field count of an expression, and the loop that runs the job. The
-- library for expressions and the clocks are the environment: a `Tick` has what they say in a round.
pub mod Fields
pub mod Runs
use haproxy_spoa_firehol_mmd.Prelude.{
  ℕ, ◌+◌, ◌*◌, ◌%◌, ◌^◌, ◌==◌, Bool, true, false, not, ◌&&◌, ◌||◌, List, [], ◌∷◌, ◌++◌, Option,
  none, some, leb, if◌then◌else◌,
}
use haproxy_spoa_firehol_mmd.Prelude.Text.{ascii}

unfoldable pub is_space : ℕ → Bool
is_space c = c == 32 || c == 9 || c == 10 || c == 13

-- The loop of `count_fields`.
unfoldable pub count_loop : ℕ → Bool → List ℕ → ℕ
count_loop count in_field [] = count
count_loop count in_field (c ∷ cs) =
    let space = is_space c in
    count_loop (if not space && not in_field then count + 1 else count) (not space) cs

unfoldable pub count_fields : List ℕ → ℕ
count_fields expr = count_loop 0 false expr

unfoldable pub normalize_cron_expr : List ℕ → List ℕ
normalize_cron_expr expr = if count_fields expr == 5 then ascii "0 " ++ expr else expr

-- `Stats`. The duration of the last run is what the clock says.
pub record Stats : Type 0 where
  pub runs_total : ℕ
  pub failures_total : ℕ
  pub running : ℕ
  pub last_run_seconds : ℕ
  pub last_run_unix : ℕ
  pub next_run_unix : ℕ

-- A round: whether a stop is requested before it and while it waits, the clock in nanoseconds, the next
-- time of the expression in seconds (`none` is INVALID_TIME), whether the job throws, how long it takes
-- and when it ends.
pub record Tick : Type 0 where
  pub stop_before : Bool
  pub stop_waiting : Bool
  pub now : ℕ
  pub next : Option ℕ
  pub throws : Bool
  pub seconds : ℕ
  pub finished : ℕ

-- The job, with what is counted around it.
unfoldable pub run_job : Tick → Stats → Stats
run_job t s =
    let started : Stats = record s { runs_total = (s.runs_total + 1) % 2 ^ 64; running = 1 } in
    let ran : Stats =
      if t.throws
      then record started { failures_total = (started.failures_total + 1) % 2 ^ 64 }
      else started in
    record ran { running = 0; last_run_seconds = t.seconds; last_run_unix = t.finished }

-- The body of the loop of `run`; `true` is another round.
unfoldable pub run_round : Tick → Stats → Stats × Bool
run_round t s = if t.stop_before then (s, false) else (elim t.next [
  | none ↦ (s, false)
  | some seconds ↦
      let planned : Stats = record s { next_run_unix = seconds } in
      if leb (seconds * 1000000000) t.now
      then (planned, true)
      else if t.stop_waiting
      then (planned, false)
      else (run_job t planned, true)
])

-- The loop, for the rounds that happen.
unfoldable pub run : List Tick → Stats → Stats
run [] s = s
run (t ∷ ts) s = let (s', more) = run_round t s in let rest = run ts s' in if more then rest else s'
