-- ===== src/Compiler/Workers/Share.antt =====
-- What holds in every interleaving of the workers: each file that was taken is being parsed by one
-- worker, was parsed, or failed.
use haproxy_spoa_firehol_mmd.Prelude.{
  ℕ, ◌+◌, ◌<◌, ◌≤◌, ◌%◌, ◌^◌, ◌≡◌, ◌==◌, ◌&&◌, List, Option, none, some, arith, ltb, if◌then◌else◌,
}
use haproxy_spoa_firehol_mmd.Prelude.Lists.{length, get_or, set, All}
use haproxy_spoa_firehol_mmd.Compiler.Workers.{
  Parsed, Phase, fetching, parsing, leaving, finished, Worker, Shared, gone,
}
use haproxy_spoa_firehol_mmd.Compiler.Workers.Sums.{sum, sum-set, All-set, All_map}

abbrev pub busy_at : ℕ → Phase → ℕ
busy_at i fetching = 0
busy_at i (parsing j) = if j == i then 1 else 0
busy_at i leaving = 0
busy_at i finished = 0

abbrev pub busy : ℕ → Worker → ℕ
busy i w = busy_at i w.phase

abbrev pub failed_with : ℕ → Option ℕ → ℕ
failed_with i none = 0
failed_with i (some j) = if j == i then 1 else 0

abbrev pub failed : ℕ → Worker → ℕ
failed i w = failed_with i w.error

abbrev pub stated : Option Parsed → ℕ
stated none = 0
stated (some r) = 1

abbrev pub networks_of : Option Parsed → ℕ
networks_of none = 0
networks_of (some r) = r.networks

-- What a worker has not added to the total.
abbrev pub pending_at : ℕ → Phase → ℕ
pending_at n fetching = n
pending_at n (parsing j) = n
pending_at n leaving = n
pending_at n finished = 0

abbrev pub pending : Worker → ℕ
pending w = pending_at w.parsed w.phase

pub moved :
    (f : Worker → ℕ) (ws : List Worker) (t : ℕ) (w w' : Worker)
    → t < length ws
    → get_or ws t gone ≡ w
    → sum f (set ws t w') + f w ≡ sum f ws + f w'
moved f ws t w w' lt e = rw e at (sum-set f ws t w' gone lt)

module _ (process : ℕ → Option Parsed) (files : ℕ) where
  abbrev pub claim : ℕ → ℕ → ℕ
  claim i next = if ltb i next && ltb i files then 1 else 0

  -- A worker without an error leaves only behind the last file.
  abbrev pub OkPhase : ℕ → Option ℕ → Phase → Type 0
  OkPhase next e fetching = e ≡ none
  OkPhase next e (parsing i) = (e ≡ none) × (i < files)
  OkPhase next e leaving = e ≡ none → files ≤ next
  OkPhase next e finished = e ≡ none → files ≤ next

  abbrev pub IsError : Option ℕ → Type 0
  IsError none = Unit
  IsError (some i) = (i < files) × (process i ≡ none)

  abbrev pub Ok : ℕ → Worker → Type 0
  Ok next w = OkPhase next w.error w.phase × IsError w.error

  pub record Inv (s : Shared) : Type 0 where
    pub claims :
        (i : ℕ)
        → sum (busy i) s.workers + sum (failed i) s.workers + stated (get_or s.stats i none)
          ≡ claim i s.next_file
    pub oks : All (Ok s.next_file) s.workers
    pub slots : (i : ℕ) (r : Parsed) → get_or s.stats i none ≡ some r → process i ≡ some r
    pub size : length s.stats ≡ files
    pub total :
        (s.total_networks + sum pending s.workers) % 2 ^ 64 ≡ sum networks_of s.stats % 2 ^ 64

  OkPhase-next :
      (next : ℕ) (e : Option ℕ) (ph : Phase) → OkPhase next e ph → OkPhase (next + 1) e ph
  OkPhase-next next e fetching h = h
  OkPhase-next next e (parsing i) h = h
  OkPhase-next next e leaving h = λ none_now. omega (arith, h none_now)
  OkPhase-next next e finished h = λ none_now. omega (arith, h none_now)

  Ok-next : (next : ℕ) (w : Worker) → Ok next w → Ok (next + 1) w
  Ok-next next w (h, e) = (OkPhase-next next w.error w.phase h, e)

  claim-fetch :
      (i next : ℕ) → next < files → claim i (next + 1) ≡ claim i next + (if next == i then 1 else 0)
  claim-fetch i next lt = ground arith

  claim_behind : (i next : ℕ) → files ≤ next → claim i (next + 1) ≡ claim i next
  claim_behind i next le = ground arith

  pub fetch_file :
      (t p : ℕ) (e : Option ℕ) (s : Shared)
      → t < length s.workers
      → get_or s.workers t gone ≡ record { phase = fetching; parsed = p; error = e }
      → e ≡ none
      → IsError e
      → s.next_file < files
      → Inv s
      → Inv (record s {
        next_file = s.next_file + 1;
        workers = set s.workers t (record { phase = parsing s.next_file; parsed = p; error = e });
      })
  fetch_file t p e s lt at clean good file i =
      let w : Worker = record { phase = fetching; parsed = p; error = e } in
      let w' : Worker = record { phase = parsing s.next_file; parsed = p; error = e } in
      record {
        claims = λ k. omega (
          arith,
          i.claims k,
          moved (busy k) s.workers t w w' lt at,
          moved (failed k) s.workers t w w' lt at,
          claim-fetch k s.next_file file,
        );
        oks =
            All-set (Ok (s.next_file + 1)) s.workers t w'
              (All_map (Ok s.next_file) (Ok (s.next_file + 1)) s.workers (Ok-next s.next_file)
                i.oks)
              ((clean, file), good);
        slots = i.slots;
        size = i.size;
        total = (let same = moved pending s.workers t w w' lt at in omega (arith, same, i.total));
      }

  pub fetch_none :
      (t p : ℕ) (e : Option ℕ) (s : Shared)
      → t < length s.workers
      → get_or s.workers t gone ≡ record { phase = fetching; parsed = p; error = e }
      → IsError e
      → files ≤ s.next_file
      → Inv s
      → Inv (record s {
        next_file = s.next_file + 1;
        workers = set s.workers t (record { phase = leaving; parsed = p; error = e });
      })
  fetch_none t p e s lt at good behind i =
      let w : Worker = record { phase = fetching; parsed = p; error = e } in
      let w' : Worker = record { phase = leaving; parsed = p; error = e } in
      let same = moved pending s.workers t w w' lt at in
      record {
        claims = λ k. omega (
          arith,
          i.claims k,
          moved (busy k) s.workers t w w' lt at,
          moved (failed k) s.workers t w w' lt at,
          claim_behind k s.next_file behind,
        );
        oks =
            All-set (Ok (s.next_file + 1)) s.workers t w'
              (All_map (Ok s.next_file) (Ok (s.next_file + 1)) s.workers (Ok-next s.next_file)
                i.oks)
              ((λ clean. omega (arith, behind)), good);
        slots = i.slots;
        size = i.size;
        total = omega (arith, same, i.total);
      }

  pub leave :
      (t p : ℕ) (e : Option ℕ) (s : Shared)
      → t < length s.workers
      → get_or s.workers t gone ≡ record { phase = leaving; parsed = p; error = e }
      → Ok s.next_file (record { phase = leaving; parsed = p; error = e })
      → Inv s
      → Inv (record s {
        total_networks = (s.total_networks + p) % 2 ^ 64;
        workers = set s.workers t (record { phase = finished; parsed = p; error = e });
      })
  leave t p e s lt at ok i =
      let w : Worker = record { phase = leaving; parsed = p; error = e } in
      let w' : Worker = record { phase = finished; parsed = p; error = e } in
      let same = moved pending s.workers t w w' lt at in
      record {
        claims = λ k. omega (
          arith,
          i.claims k,
          moved (busy k) s.workers t w w' lt at,
          moved (failed k) s.workers t w w' lt at,
        );
        oks = All-set (Ok s.next_file) s.workers t w' i.oks ok;
        slots = i.slots;
        size = i.size;
        total = omega (arith, same, i.total);
      }
