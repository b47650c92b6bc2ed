-- ===== src/Scheduler/Runs.antt =====
-- What the loop counts.
use haproxy_spoa_firehol_mmd.Prelude.{
  ap, ◌∙◌, sym, ℕ, suc, ◌+◌, ◌*◌, ◌%◌, ◌^◌, ◌≡◌, refl, Bool, true, false, not, ◌&&◌, List, [], ◌∷◌,
  Option, none, some, arith, leb, if◌then◌else◌,
}
use haproxy_spoa_firehol_mmd.Scheduler.{Stats, Tick, run_job, run_round, run}

-- Whether a round runs the job, and whether another follows it.
abbrev pub is_due : Tick → Bool
is_due t = elim t.next [ none ↦ false | some seconds ↦ not (leb (seconds * 1000000000) t.now) ]

abbrev pub runs_job : Tick → Bool
runs_job t = not t.stop_before && (not t.stop_waiting && is_due t)

abbrev pub goes_on : Tick → Bool
goes_on t = not t.stop_before && (elim t.next [
  | none ↦ false
  | some seconds ↦ if leb (seconds * 1000000000) t.now then true else not t.stop_waiting
])

-- The jobs of the rounds up to the end of the loop, and those of them that throw.
abbrev pub jobs : List Tick → ℕ
jobs [] = 0
jobs (t ∷ ts) =
    let later : ℕ = if goes_on t then jobs ts else 0 in if runs_job t then suc later else later

abbrev pub failures : List Tick → ℕ
failures [] = 0
failures (t ∷ ts) =
    let later : ℕ = if goes_on t then failures ts else 0 in
    if runs_job t && t.throws then suc later else later

-- What a round makes of the counters.
abbrev Counted : Tick → Stats → Stats × Bool → Type 0
Counted t s (s', more) =
    (s'.running ≡ 0)
    × (more ≡ goes_on t)
    × (s'.runs_total ≡ (if runs_job t then (s.runs_total + 1) % 2 ^ 64 else s.runs_total))
    × (s'.failures_total
        ≡ (if runs_job t && t.throws then (s.failures_total + 1) % 2 ^ 64 else s.failures_total))

round_fields :
    (stop_before stop_waiting : Bool) (now : ℕ) (next : Option ℕ) (throws : Bool)
    (seconds finished : ℕ) (s : Stats)
    → s.running ≡ 0
    → let t : Tick = record {
      stop_before = stop_before;
      stop_waiting = stop_waiting;
      now = now;
      next = next;
      throws = throws;
      seconds = seconds;
      finished = finished;
    } in
      Counted t s (run_round t s)
unfolding run_round run_job
round_fields true w now next throws sec fin s h = (h, refl, refl, refl)
round_fields false w now none throws sec fin s h = ground arith
round_fields false true now (some n) throws sec fin s h = ground arith
round_fields false false now (some n) throws sec fin s h = ground arith

-- One more, counted with 64 bits on both sides.
one_more : (a b n : ℕ) → b ≡ (a + 1) % 2 ^ 64 → (b + n) % 2 ^ 64 ≡ (a + suc n) % 2 ^ 64
one_more a b n h = omega (arith, h)

counted :
    (b : Bool) (x y n : ℕ)
    → y ≡ (if b then (x + 1) % 2 ^ 64 else x)
    → (y + n) % 2 ^ 64 ≡ (x + (if b then suc n else n)) % 2 ^ 64
counted true x y n h = one_more x y n h
counted false x y n h = ap (λ v. (v + n) % 2 ^ 64) h

-- What a run makes of the counters.
abbrev Totals : ℕ → ℕ → Stats → Stats → Type 0
Totals runs fails s s' =
    (s'.running ≡ 0)
    × (s'.runs_total % 2 ^ 64 ≡ (s.runs_total + runs) % 2 ^ 64)
    × (s'.failures_total % 2 ^ 64 ≡ (s.failures_total + fails) % 2 ^ 64)

-- A last round, and one before others.
end_or_more :
    (t : Tick) (ts : List Tick) (s : Stats) (r : Stats × Bool)
    → Counted t s r
    → Totals (jobs ts) (failures ts) r.0 (run ts r.0)
    → Totals (jobs (t ∷ ts)) (failures (t ∷ ts)) s (if r.1 then run ts r.0 else r.0)
end_or_more t ts s (s', true) (idle, more, runs, fails) (idle', runs', fails') = rw (sym more) (
  idle',
  runs' ∙ counted (runs_job t) s.runs_total s'.runs_total (jobs ts) runs,
  fails' ∙ counted (runs_job t && t.throws) s.failures_total s'.failures_total (failures ts) fails,
)
end_or_more t ts s (s', false) (idle, more, runs, fails) later = rw (sym more) (
  idle,
  counted_zero (runs_job t) s.runs_total s'.runs_total runs,
  counted_zero (runs_job t && t.throws) s.failures_total s'.failures_total fails,
)
  where
    counted_zero :
        (b : Bool) (x y : ℕ)
        → y ≡ (if b then (x + 1) % 2 ^ 64 else x)
        → y % 2 ^ 64 ≡ (x + (if b then 1 else 0)) % 2 ^ 64
    counted_zero b x y h = ap (λ v. v % 2 ^ 64) (omega arith) ∙ counted b x y 0 h

-- For any rounds, of which each may be stopped before it starts or while it waits, find no next time or
-- one that is past, and run a job that throws or not: a scheduler that is not running a job is not
-- running one after the loop, and has counted, with 64 bits, the jobs that ran and those that threw.
pub run_lem :
    (ts : List Tick) (s : Stats)
    → s.running ≡ 0
    → ((run ts s).running ≡ 0)
      × ((run ts s).runs_total % 2 ^ 64 ≡ (s.runs_total + jobs ts) % 2 ^ 64)
      × ((run ts s).failures_total % 2 ^ 64 ≡ (s.failures_total + failures ts) % 2 ^ 64)
unfolding run
run_lem [] s h = (h, omega arith, omega arith)
run_lem (t ∷ ts) s h =
    let c =
      round_fields t.stop_before t.stop_waiting t.now t.next t.throws t.seconds t.finished s h in
    end_or_more t ts s (run_round t s) c (run_lem ts ((run_round t s).0) c.0)
