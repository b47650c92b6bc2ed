-- ===== src/Compiler/Workers/Steps.antt =====
-- Every step of a worker keeps what the workers share in order.
use haproxy_spoa_firehol_mmd.Prelude.{
  ℕ, ◌+◌, ◌<◌, ◌%◌, ◌^◌, ◌≡◌, ◌==◌, refl, ◌∙◌, List, [], ◌∷◌, Option, none, some, arith, ltb,
  if◌then◌else◌, Bool-cases, inl, inr,
}
use haproxy_spoa_firehol_mmd.Prelude.Lists.{length, get_or, set, length-replicate}
use haproxy_spoa_firehol_mmd.Compiler.Workers.{
  Parsed, Phase, fetching, parsing, leaving, finished, Worker, new_worker, Shared, parse_file, act,
  gone, step, interleave, begin,
}
use haproxy_spoa_firehol_mmd.Compiler.Workers.Sums.{
  sum-set, sum-replicate, length-set, get_or-set, get_or-set_other, get_or-replicate, get_or_behind,
  All-get_or, All-set, All-replicate,
}
use haproxy_spoa_firehol_mmd.Compiler.Workers.Share.{
  busy, failed, stated, networks_of, pending, moved, OkPhase, IsError, Ok, Inv, fetch_file,
  fetch_none, leave,
}

module _ (process : ℕ → Option Parsed) (files : ℕ) where
  -- The slot of a file that is being parsed is free.
  slot_free :
      (s : Shared) (t j p : ℕ) (e : Option ℕ)
      → t < length s.workers
      → get_or s.workers t gone ≡ record { phase = parsing j; parsed = p; error = e }
      → Inv process files s
      → stated (get_or s.stats j none) ≡ 0
  slot_free s t j p e lt at i =
      let w : Worker = record { phase = parsing j; parsed = p; error = e } in
      let one = moved (busy j) s.workers t w gone lt at in let all = i.claims j in ground arith

  parse_bad :
      (t j p : ℕ) (s : Shared)
      → t < length s.workers
      → get_or s.workers t gone ≡ record { phase = parsing j; parsed = p; error = none }
      → j < files
      → process j ≡ none
      → Inv process files s
      → Inv process files (record s {
        workers = set s.workers t (record { phase = leaving; parsed = p; error = some j });
      })
  parse_bad t j p s lt at below bad i =
      let w : Worker = record { phase = parsing j; parsed = p; error = none } in
      let w' : Worker = record { phase = leaving; parsed = p; error = some j } in
      let same = moved pending s.workers t w w' lt at in
      record {
        claims = λ k. omega (
          arith,
          i.claims k,
          moved (busy k) s.workers t w w' lt at,
          moved (failed k) s.workers t w w' lt at,
        );
        oks =
            All-set (Ok process files s.next_file) s.workers t w' i.oks
              ((λ clean. cc), (below, bad));
        slots = i.slots;
        size = i.size;
        total = omega (arith, same, i.total);
      }

  slot_after :
      (stats : List (Option Parsed)) (j k : ℕ) (r : Parsed)
      → j < length stats
      → stated (get_or stats j none) ≡ 0
      → stated (get_or (set stats j (some r)) k none)
        ≡ stated (get_or stats k none) + (if j == k then 1 else 0)
  slot_after stats j k r lt free = elim (Bool-cases (k == j)) [
    | inl same ↦
        (let e : k ≡ j = ground arith in
          rw (e, get_or-set stats j (some r) none lt, free) (ground arith))
    | inr other ↦ rw (get_or-set_other stats j k (some r) none (λ e. ground arith)) (ground arith)
  ]

  slot_true :
      (stats : List (Option Parsed)) (j : ℕ) (r : Parsed)
      → j < length stats
      → process j ≡ some r
      → ((k : ℕ) (q : Parsed) → get_or stats k none ≡ some q → process k ≡ some q)
      → (k : ℕ) (q : Parsed) → get_or (set stats j (some r)) k none ≡ some q
      → process k ≡ some q
  slot_true stats j r lt good slots k q e = elim (Bool-cases (k == j)) [
    | inl same ↦
        (let here : k ≡ j = ground arith in
          let there : get_or (set stats j (some r)) j none ≡ some q = rw here at e in
          let is : some r ≡ some q = rw (get_or-set stats j (some r) none lt) at there in cc)
    | inr other ↦
        slots k q (rw (get_or-set_other stats j k (some r) none (λ e'. ground arith)) at e)
  ]

  networks_free : (o : Option Parsed) → stated o ≡ 0 → networks_of o ≡ 0
  networks_free none h = refl
  networks_free (some r) h = absurd (omega (arith, h))

  parse_good :
      (t j p : ℕ) (r : Parsed) (s : Shared)
      → t < length s.workers
      → get_or s.workers t gone ≡ record { phase = parsing j; parsed = p; error = none }
      → j < files
      → process j ≡ some r
      → Inv process files s
      → Inv process files (record s {
        stats = set s.stats j (some r);
        workers =
            set s.workers t
              (record { phase = fetching; parsed = (p + r.networks) % 2 ^ 64; error = none });
      })
  parse_good t j p r s lt at below good i =
      let w : Worker = record { phase = parsing j; parsed = p; error = none } in
      let w' : Worker = record {
        phase = fetching;
        parsed = (p + r.networks) % 2 ^ 64;
        error = none;
      } in
      let same = moved pending s.workers t w w' lt at in
      let room : j < length s.stats = omega (arith, i.size, below) in
      let free = slot_free s t j p none lt at i in
      let more = sum-set networks_of s.stats j (some r) none room in
      let fresh = networks_free (get_or s.stats j none) free in
      record {
        claims = λ k. omega (
          arith,
          i.claims k,
          moved (busy k) s.workers t w w' lt at,
          moved (failed k) s.workers t w w' lt at,
          slot_after s.stats j k r room free,
        );
        oks = All-set (Ok process files s.next_file) s.workers t w' i.oks (refl, tt);
        slots = slot_true s.stats j r room good i.slots;
        size = length-set s.stats j (some r) ∙ i.size;
        total = omega (arith, same, i.total, more, fresh);
      }

  parse_file-Inv :
      (t j p : ℕ) (o : Option Parsed) (s : Shared)
      → t < length s.workers
      → get_or s.workers t gone ≡ record { phase = parsing j; parsed = p; error = none }
      → j < files
      → process j ≡ o
      → Inv process files s
      → Inv process files (record s {
        stats =
            (parse_file process files j o
              (record { phase = parsing j; parsed = p; error = none })
              s.stats).1;
        workers =
            set s.workers t
              (parse_file process files j o
                (record { phase = parsing j; parsed = p; error = none })
                s.stats).0;
      })
  unfolding parse_file
  parse_file-Inv t j p none s lt at below is i = parse_bad t j p s lt at below is i
  parse_file-Inv t j p (some r) s lt at below is i = parse_good t j p r s lt at below is i

  act-Inv :
      (ph : Phase) (t p : ℕ) (e : Option ℕ) (s : Shared)
      → t < length s.workers
      → get_or s.workers t gone ≡ record { phase = ph; parsed = p; error = e }
      → OkPhase process files s.next_file e ph
      → IsError process files e
      → Inv process files s
      → Inv process files (act process files ph t (record { phase = ph; parsed = p; error = e }) s)
  unfolding act
  act-Inv fetching t p e s lt at ok good i = elim (Bool-cases (ltb s.next_file files)) [
    | inl file ↦ rw file (fetch_file process files t p e s lt at ok good (ground arith) i)
    | inr behind ↦ rw behind (fetch_none process files t p e s lt at good (ground arith) i)
  ]
  act-Inv (parsing j) t p none s lt at (clean, below) good i =
      parse_file-Inv t j p (process j) s lt at below refl i
  act-Inv (parsing j) t p (some k) s lt at (clean, below) good i = absurd cc
  act-Inv leaving t p e s lt at ok good i = leave process files t p e s lt at (ok, good) i
  act-Inv finished t p e s lt at ok good i = i

  pub step-Inv :
      (t : ℕ) (s : Shared) → Inv process files s → Inv process files (step process files t s)
  unfolding step act
  step-Inv t s i = elim (Bool-cases (ltb t (length s.workers))) [
    | inl there ↦
        (let w = get_or s.workers t gone in
          let (ok, good) =
            All-get_or (Ok process files s.next_file) s.workers t gone (ground arith) i.oks in
          act-Inv w.phase t w.parsed w.error s (ground arith) refl ok good i)
    | inr none_there ↦ rw (get_or_behind s.workers t gone (ground arith)) i
  ]

  pub interleave-Inv :
      (ts : List ℕ) (s : Shared)
      → Inv process files s
      → Inv process files (interleave process files ts s)
  unfolding interleave
  interleave-Inv [] s i = i
  interleave-Inv (t ∷ ts) s i = interleave-Inv ts (step process files t s) (step-Inv t s i)

  pub begin-Inv : (threads : ℕ) → Inv process files (begin process files threads)
  begin-Inv threads = record {
    claims = λ k.
        (let none_busy = sum-replicate (busy k) threads new_worker refl in
          let none_failed = sum-replicate (failed k) threads new_worker refl in
          rw (get_or-replicate {A = Option Parsed} files k none, none_busy, none_failed)
            (ground arith));
    oks = All-replicate (Ok process files 0) threads new_worker (refl, tt);
    slots = λ k r e.
        (let e' : none ≡ some r = rw (get_or-replicate {A = Option Parsed} files k none) at e in
          cc);
    size = length-replicate files none;
    total =
        rw
          (sum-replicate pending threads new_worker refl, sum-replicate networks_of files none refl)
          refl;
  }
