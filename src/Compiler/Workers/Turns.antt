-- ===== src/Compiler/Workers/Turns.antt =====
-- How many steps the workers can take.
use haproxy_spoa_firehol_mmd.Prelude.{
  ℕ, zero, suc, ◌+◌, ◌-◌, ◌*◌, ◌<◌, ◌≤◌, ◌≡◌, refl, ap, true, false, List, [], ◌∷◌, Option, none,
  some, arith, ltb, if◌then◌else◌, Bool-cases, inl, inr,
}
use haproxy_spoa_firehol_mmd.Prelude.Lists.{length, get_or, set, replicate}
use haproxy_spoa_firehol_mmd.Compiler.Workers.{
  Parsed, Phase, fetching, parsing, leaving, finished, Worker, new_worker, Shared, parse_file, act,
  gone, step, interleave, begin, is_finished,
}
use haproxy_spoa_firehol_mmd.Compiler.Workers.Sums.{sum, get_or_behind}
use haproxy_spoa_firehol_mmd.Compiler.Workers.Share.{moved}

module _ (process : ℕ → Option Parsed) (files : ℕ) where
  abbrev weight_at : Phase → ℕ
  weight_at fetching = 2
  weight_at (parsing i) = 3
  weight_at leaving = 1
  weight_at finished = 0

  abbrev weight : Worker → ℕ
  weight w = weight_at w.phase

  abbrev measure : Shared → ℕ
  measure s = 2 * (files - s.next_file) + sum weight s.workers

  -- The steps in which a worker does something.
  abbrev pub turns : List ℕ → Shared → ℕ
  turns [] s = 0
  turns (t ∷ ts) s =
      let rest = turns ts (step process files t s) in
      if is_finished (get_or s.workers t gone).phase then rest else suc rest

  parse-weight :
      (t i p : ℕ) (e : Option ℕ) (o : Option Parsed) (s : Shared)
      → t < length s.workers
      → get_or s.workers t gone ≡ record { phase = parsing i; parsed = p; error = e }
      → suc (
          sum weight (
            set s.workers t
              (parse_file process files i o
                (record { phase = parsing i; parsed = p; error = e })
                s.stats).0))
        ≤ sum weight s.workers
  unfolding parse_file
  parse-weight t i p e none s lt at = omega (arith, moved weight s.workers t _ _ lt at)
  parse-weight t i p e (some r) s lt at = omega (arith, moved weight s.workers t _ _ lt at)

  act-measure :
      (ph : Phase) (t p : ℕ) (e : Option ℕ) (s : Shared)
      → t < length s.workers
      → get_or s.workers t gone ≡ record { phase = ph; parsed = p; error = e }
      → is_finished ph ≡ false
      → suc (measure (act process files ph t (record { phase = ph; parsed = p; error = e }) s))
        ≤ measure s
  unfolding act is_finished
  act-measure fetching t p e s lt at busy_now = elim (Bool-cases (ltb s.next_file files)) [
    | inl file ↦
        (let w' : Worker = record { phase = parsing s.next_file; parsed = p; error = e } in
          let below : s.next_file < files = ground arith in
          rw file (omega (arith, moved weight s.workers t _ w' lt at, below)))
    | inr behind ↦
        (let w' : Worker = record { phase = leaving; parsed = p; error = e } in
          rw behind (omega (arith, moved weight s.workers t _ w' lt at)))
  ]
  act-measure (parsing i) t p e s lt at busy_now =
      omega (arith, parse-weight t i p e (process i) s lt at)
  act-measure leaving t p e s lt at busy_now = omega (arith, moved weight s.workers t _ _ lt at)
  act-measure finished t p e s lt at busy_now = absurd cc

  step-measure :
      (t : ℕ) (s : Shared)
      → is_finished (get_or s.workers t gone).phase ≡ false
      → suc (measure (step process files t s)) ≤ measure s
  unfolding step is_finished
  step-measure t s busy_now = elim (Bool-cases (ltb t (length s.workers))) [
    | inl there ↦
        (let w = get_or s.workers t gone in
          act-measure w.phase t w.parsed w.error s (ground arith) refl busy_now)
    | inr none_there ↦
        absurd (let now = rw (get_or_behind s.workers t gone (ground arith)) at busy_now in cc)
  ]

  act_done :
      (ph : Phase) (t : ℕ) (w : Worker) (s : Shared)
      → is_finished ph ≡ true
      → act process files ph t w s ≡ s
  unfolding act is_finished
  act_done fetching t w s done = absurd cc
  act_done (parsing i) t w s done = absurd cc
  act_done leaving t w s done = absurd cc
  act_done finished t w s done = refl

  step_done :
      (t : ℕ) (s : Shared)
      → is_finished (get_or s.workers t gone).phase ≡ true
      → step process files t s ≡ s
  unfolding step
  step_done t s done = let w = get_or s.workers t gone in act_done w.phase t w s done

  turns-measure :
      (ts : List ℕ) (s : Shared) → turns ts s + measure (interleave process files ts s) ≤ measure s
  unfolding interleave
  turns-measure [] s = omega arith
  turns-measure (t ∷ ts) s =
      let rest = turns-measure ts (step process files t s) in
      elim (Bool-cases (is_finished (get_or s.workers t gone).phase)) [
        | inl done ↦ rw done (omega (arith, rest, ap measure (step_done t s done)))
        | inr on ↦ rw on (omega (arith, rest, step-measure t s on))
      ]

  -- Whatever the interleaving is, the workers take at most two steps for each file and two for each
  -- worker before they are done.
  pub turns-begin :
      (threads : ℕ) (ts : List ℕ) → turns ts (begin process files threads) ≤ 2 * files + 2 * threads
  turns-begin threads ts =
      omega (arith, turns-measure ts (begin process files threads), weights threads)
    where
      weights : (n : ℕ) → sum weight (replicate n new_worker) ≡ 2 * n
      weights zero = refl
      weights (suc n) = omega (arith, weights n)
