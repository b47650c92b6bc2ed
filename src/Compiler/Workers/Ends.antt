-- ===== src/Compiler/Workers/Ends.antt =====
-- The workers when they are joined,
use haproxy_spoa_firehol_mmd.Prelude.{
  ℕ, ◌<◌, ◌≤◌, ◌%◌, ◌^◌, ◌≡◌, ◌≢◌, refl, ◌∙◌, sym, true, List, [], ◌∷◌, Option, none, some, arith,
  Bool-cases, inl, inr,
}
use haproxy_spoa_firehol_mmd.Prelude.Lists.{length, get_or, All, length-replicate}
use haproxy_spoa_firehol_mmd.Compiler.Workers.{
  Parsed, Phase, fetching, parsing, leaving, finished, Worker, new_worker, Shared, act, gone, step,
  interleave, begin, thread_count, first_error, is_finished, all_finished,
}
use haproxy_spoa_firehol_mmd.Compiler.Workers.Sums.{sum, length-set}
use haproxy_spoa_firehol_mmd.Compiler.Workers.Share.{
  busy, busy_at, failed, failed_with, stated, networks_of, pending, pending_at, Ok, OkPhase,
  IsError, Inv,
}
use haproxy_spoa_firehol_mmd.Compiler.Workers.Steps.{interleave-Inv, begin-Inv}

busy_finished : (i : ℕ) (ph : Phase) → is_finished ph ≡ true → busy_at i ph ≡ 0
unfolding is_finished
busy_finished i fetching h = refl
busy_finished i (parsing j) h = absurd cc
busy_finished i leaving h = refl
busy_finished i finished h = refl

pending_finished : (n : ℕ) (ph : Phase) → is_finished ph ≡ true → pending_at n ph ≡ 0
unfolding is_finished
pending_finished n fetching h = absurd cc
pending_finished n (parsing j) h = absurd cc
pending_finished n leaving h = absurd cc
pending_finished n finished h = refl

-- All workers are joined, and none threw.
abbrev Quiet : List Worker → Type 0
Quiet ws = (all_finished ws ≡ true) × (first_error ws ≡ none)

split_finished :
    (w : Worker) (ws : List Worker)
    → all_finished (w ∷ ws) ≡ true
    → (is_finished w.phase ≡ true) × (all_finished ws ≡ true)
unfolding all_finished
split_finished w ws h = elim (Bool-cases (is_finished w.phase)) [
  | inl e ↦ (e, rw e at h)
  | inr e ↦ absurd (ground arith)
]

split_error :
    (w : Worker) (ws : List Worker)
    → first_error (w ∷ ws) ≡ none
    → (w.error ≡ none) × (first_error ws ≡ none)
unfolding first_error
split_error w ws h = by_error w.error refl
  where
    by_error : (e : Option ℕ) → w.error ≡ e → (w.error ≡ none) × (first_error ws ≡ none)
    by_error none is = (is, rw is at h)
    by_error (some i) is = (let e : some i ≡ none = rw is at h in absurd cc)

Quiet-busy : (i : ℕ) (ws : List Worker) → Quiet ws → sum (busy i) ws ≡ 0
Quiet-busy i [] q = refl
Quiet-busy i (w ∷ ws) (done, clean) =
    let (d, ds) = split_finished w ws done in
    let (e, es) = split_error w ws clean in
    omega (arith, busy_finished i w.phase d, Quiet-busy i ws (ds, es))

Quiet-failed : (i : ℕ) (ws : List Worker) → Quiet ws → sum (failed i) ws ≡ 0
Quiet-failed i [] q = refl
Quiet-failed i (w ∷ ws) (done, clean) =
    let (d, ds) = split_finished w ws done in
    let (e, es) = split_error w ws clean in
    let zero_here : failed_with i w.error ≡ 0 = rw e refl in
    omega (arith, zero_here, Quiet-failed i ws (ds, es))

Quiet-pending : (ws : List Worker) → Quiet ws → sum pending ws ≡ 0
Quiet-pending [] q = refl
Quiet-pending (w ∷ ws) (done, clean) =
    let (d, ds) = split_finished w ws done in
    let (e, es) = split_error w ws clean in
    omega (arith, pending_finished w.parsed w.phase d, Quiet-pending ws (ds, es))

module _ (process : ℕ → Option Parsed) (files : ℕ) where
  -- Workers that are done took every file.
  Quiet-taken :
      (next : ℕ) (ws : List Worker)
      → Quiet ws
      → 0 < length ws
      → All (Ok process files next) ws
      → files ≤ next
  unfolding is_finished
  Quiet-taken next [] q some_worker oks = absurd (omega arith)
  Quiet-taken next (w ∷ ws) (done, clean) some_worker ((ok, good), oks) =
      let (d, ds) = split_finished w ws done in
      let (e, es) = split_error w ws clean in at_end w.error w.phase d e ok
    where
      at_end :
          (e : Option ℕ) (ph : Phase)
          → is_finished ph ≡ true
          → e ≡ none
          → OkPhase process files next e ph
          → files ≤ next
      at_end e fetching d is h = absurd cc
      at_end e (parsing j) d is h = absurd cc
      at_end e leaving d is h = h is
      at_end e finished d is h = h is

  error_true :
      (next i : ℕ) (ws : List Worker)
      → first_error ws ≡ some i
      → All (Ok process files next) ws
      → (i < files) × (process i ≡ none)
  unfolding first_error
  error_true next i [] h oks = absurd cc
  error_true next i (w ∷ ws) h ((ok, good), oks) =
      by_error w.error refl good (λ h'. error_true next i ws h' oks)
    where
      by_error :
          (e : Option ℕ)
          → w.error ≡ e
          → IsError process files e
          → (first_error ws ≡ some i → (i < files) × (process i ≡ none))
          → (i < files) × (process i ≡ none)
      by_error none is good behind = behind (rw is at h)
      by_error (some j) is (below, bad) behind =
          let e : some j ≡ some i = rw is at h in
          let same : j ≡ i = cc in
          let both : (j < files) × (process j ≡ none) = (below, bad) in rw same at both

  -- What the workers leave behind, by the first error.
  abbrev pub Compiled : Option ℕ → Shared → Type 0
  Compiled none s =
      ((i : ℕ) → i < files → (get_or s.stats i none ≡ process i) × (process i ≢ none))
      × (s.total_networks % 2 ^ 64 ≡ sum networks_of s.stats % 2 ^ 64)
  Compiled (some i) s = (i < files) × (process i ≡ none)

  parsed_slot :
      (o : Option Parsed) (i : ℕ)
      → stated o ≡ 1
      → ((r : Parsed) → o ≡ some r → process i ≡ some r)
      → (o ≡ process i) × (process i ≢ none)
  parsed_slot none i h slots = absurd (omega (arith, h))
  parsed_slot (some r) i h slots = (sym (slots r refl), λ e. (let is = slots r refl in cc))

  Compiled-Quiet :
      (s : Shared)
      → Inv process files s
      → Quiet s.workers
      → (0 < files → 0 < length s.workers)
      → Compiled none s
  Compiled-Quiet s i q crew = (
    λ k lt.
        (let claimed = i.claims k in
          let taken = Quiet-taken s.next_file s.workers q (crew (omega arith)) i.oks in
          let idle = Quiet-busy k s.workers q in
          let none_failed = Quiet-failed k s.workers q in
          parsed_slot (get_or s.stats k none) k (ground arith) (i.slots k)),
    omega (arith, Quiet-pending s.workers q, i.total),
  )

  crew-act :
      (ph : Phase) (t : ℕ) (w : Worker) (s : Shared)
      → length (act process files ph t w s).workers ≡ length s.workers
  unfolding act
  crew-act fetching t w s = length-set s.workers t _
  crew-act (parsing i) t w s = length-set s.workers t _
  crew-act leaving t w s = length-set s.workers t _
  crew-act finished t w s = refl

  crew-interleave :
      (ts : List ℕ) (s : Shared) → length (interleave process files ts s).workers ≡ length s.workers
  unfolding interleave step
  crew-interleave [] s = refl
  crew-interleave (t ∷ ts) s =
      let w = get_or s.workers t gone in
      crew-interleave ts (step process files t s) ∙ crew-act w.phase t w s

  some_crew : (hardware : ℕ) → 0 < files → 0 < thread_count hardware files
  unfolding thread_count
  some_crew hardware lt = ground arith

  compiled :
      (e : Option ℕ) (s : Shared)
      → first_error s.workers ≡ e
      → all_finished s.workers ≡ true
      → Inv process files s
      → (0 < files → 0 < length s.workers)
      → Compiled e s
  compiled none s is done i crew = Compiled-Quiet s i (done, is) crew
  compiled (some k) s is done i crew = error_true s.next_file k s.workers is i.oks

  -- Whatever the interleaving of the workers is: when all of them are done and none threw, the slot of
  -- every file holds what its reading gave, no reading threw, and the total is, modulo 2^64, that of
  -- the slots. Otherwise the first error is that of a file whose reading threw.
  pub interleave_lem :
      (hardware : ℕ) (ts : List ℕ)
      → all_finished
          (interleave process files ts (begin process files (thread_count hardware files))).workers
        ≡ true
      → let s = interleave process files ts (begin process files (thread_count hardware files)) in
        Compiled (first_error s.workers) s
  interleave_lem hardware ts done =
      let start = begin process files (thread_count hardware files) in
      let s = interleave process files ts start in
      compiled (first_error s.workers) s refl done
        (interleave-Inv process files ts start
          (begin-Inv process files (thread_count hardware files)))
        (λ lt. omega (
          arith,
          some_crew hardware lt,
          crew-interleave ts start,
          length-replicate (thread_count hardware files) new_worker,
        ))
