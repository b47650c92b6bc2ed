-- ===== src/Compiler/Publish/Endings.antt =====
-- What a compilation leaves behind, whatever happens in it.
use haproxy_spoa_firehol_mmd.Prelude.{
  ℕ, ◌+◌, ◌<◌, ◌%◌, ◌^◌, ◌≡◌, refl, true, false, List, Option, none, some, Bool-cases, inl, inr,
  ◌⊎◌,
}
use haproxy_spoa_firehol_mmd.Prelude.Lists.{length}
use haproxy_spoa_firehol_mmd.Compiler.Workers.{first_error, all_finished}
use haproxy_spoa_firehol_mmd.Compiler.Workers.Ends.{Compiled, interleave_lem}
use haproxy_spoa_firehol_mmd.Compiler.Publish.{
  Entry, BlocklistFile, list_blocklists, BuildStats, Live, Metrics, World, Outcome, published,
  bad_blocklist, no_directory, no_temporary, not_built, not_renamed, Conditions, process_at,
  parse_all, begin_run, end_run, remove_temporary, live_now, publish, write_database,
  build_temporary, build_unless, compile_listed, compile_files, compile_to_mmdb,
}

-- The database and its metrics stay, and the failure is counted.
abbrev pub failed_world : World → World
failed_world w = record {
  metrics = record {
    compile_runs_total = (w.metrics.compile_runs_total + 1) % 2 ^ 64;
    compile_in_progress = 0;
    compile_failures_total = (w.metrics.compile_failures_total + 1) % 2 ^ 64;
    live = w.metrics.live;
  };
  target = w.target;
  temporary = none;
}

-- The new database is live.
abbrev pub published_world : World → List ℕ → Live → World
published_world w bytes live = record {
  metrics = record {
    compile_runs_total = (w.metrics.compile_runs_total + 1) % 2 ^ 64;
    compile_in_progress = 0;
    compile_failures_total = w.metrics.compile_failures_total;
    live = live;
  };
  target = some bytes;
  temporary = none;
}

-- Each file was parsed, into its own slot, and the total is that of the slots.
abbrev pub AllParsed : Conditions → List BlocklistFile → Type 0
AllParsed c files = Compiled (process_at c files) (length files) none (parse_all c files)

abbrev pub files_of : List Entry → List BlocklistFile
files_of entries = (list_blocklists entries).files

-- How a compilation may end.
pub data Ends (c : Conditions) (w : World) : Outcome → World → Type 0 where
  success :
      (entries : List Entry) (stats : BuildStats) (bytes : List ℕ)
      → c.entries ≡ some entries
      → AllParsed c (files_of entries)
      → c.mkstemp ≡ true
      → c.close ≡ true
      → c.build ≡ some (stats, bytes)
      → c.rename ≡ true
      → Ends c w published (
          published_world w bytes
            (live_now c (files_of entries) (parse_all c (files_of entries)) stats))
  unlisted : c.entries ≡ none → Ends c w no_directory (failed_world w)
  unparsed :
      (entries : List Entry) (i : ℕ)
      → c.entries ≡ some entries
      → i < length (files_of entries)
      → process_at c (files_of entries) i ≡ none
      → Ends c w (bad_blocklist i) (failed_world w)
  unopened :
      (entries : List Entry)
      → c.entries ≡ some entries
      → AllParsed c (files_of entries)
      → (c.mkstemp ≡ false) ⊎ (c.close ≡ false)
      → Ends c w no_temporary (failed_world w)
  unbuilt :
      (entries : List Entry)
      → c.entries ≡ some entries
      → AllParsed c (files_of entries)
      → c.build ≡ none
      → Ends c w not_built (failed_world w)
  unmoved :
      (entries : List Entry)
      → c.entries ≡ some entries
      → AllParsed c (files_of entries)
      → c.rename ≡ false
      → Ends c w not_renamed (failed_world w)

abbrev pub EndsAs : Conditions → World → Outcome × World → Type 0
EndsAs c w r = Ends c w r.0 r.1

-- The world when a compilation starts.
abbrev pub before : Metrics → Option (List ℕ) → World
before m target = record { metrics = m; target = target; temporary = none }

module _ (c : Conditions) (m : Metrics) (target : Option (List ℕ)) where
  publish-Ends :
      (entries : List Entry) (stats : BuildStats) (bytes : List ℕ)
      → c.entries ≡ some entries
      → AllParsed c (files_of entries)
      → c.mkstemp ≡ true
      → c.close ≡ true
      → c.build ≡ some (stats, bytes)
      → EndsAs c (before m target) (
          end_run (
            remove_temporary (
              publish c
                (files_of entries)
                (parse_all c (files_of entries))
                stats
                (record (begin_run (before m target)) { temporary = some bytes }))))
  unfolding publish end_run begin_run
  publish-Ends entries stats bytes listed all made closed built = elim (Bool-cases c.rename) [
    | inl moved ↦ simp moved (success entries stats bytes listed all made closed built moved)
    | inr stuck ↦ simp stuck (unmoved entries listed all stuck)
  ]

  write-Ends :
      (entries : List Entry) (o : Option (BuildStats × List ℕ))
      → c.entries ≡ some entries
      → AllParsed c (files_of entries)
      → c.mkstemp ≡ true
      → c.close ≡ true
      → c.build ≡ o
      → EndsAs c (before m target) (
          end_run (
            remove_temporary (
              write_database c
                (files_of entries)
                (parse_all c (files_of entries))
                o
                (begin_run (before m target)))))
  unfolding write_database end_run begin_run
  write-Ends entries none listed all made closed built = unbuilt entries listed all built
  write-Ends entries (some (stats, bytes)) listed all made closed built =
      publish-Ends entries stats bytes listed all made closed built

  temporary-Ends :
      (entries : List Entry)
      → c.entries ≡ some entries
      → AllParsed c (files_of entries)
      → EndsAs c (before m target) (
          end_run (
            build_temporary c
              (files_of entries)
              (parse_all c (files_of entries))
              (begin_run (before m target))))
  unfolding build_temporary end_run begin_run
  temporary-Ends entries listed all = elim (Bool-cases c.mkstemp) [
    | inr unmade ↦ simp unmade (unopened entries listed all (inl unmade))
    | inl made ↦ elim (Bool-cases c.close) [
      | inr unclosed ↦ simp (made, unclosed) (unopened entries listed all (inr unclosed))
      | inl closed ↦ simp (made, closed) (write-Ends entries c.build listed all made closed refl)
    ]
  ]

  unless-Ends :
      (entries : List Entry) (e : Option ℕ)
      → c.entries ≡ some entries
      → Compiled
          (process_at c (files_of entries))
          (length (files_of entries))
          e
          (parse_all c (files_of entries))
      → EndsAs c (before m target) (
          end_run (
            build_unless e c
              (files_of entries)
              (parse_all c (files_of entries))
              (begin_run (before m target))))
  unfolding build_unless end_run begin_run
  unless-Ends entries none listed all = temporary-Ends entries listed all
  unless-Ends entries (some i) listed (below, bad) = unparsed entries i listed below bad

  listed-Ends :
      (o : Option (List Entry))
      → c.entries ≡ o
      → ((entries : List Entry)
          → c.entries ≡ some entries
          → all_finished (parse_all c (files_of entries)).workers ≡ true)
      → EndsAs c (before m target) (end_run (compile_listed o c (begin_run (before m target))))
  unfolding compile_listed compile_files end_run begin_run parse_all
  listed-Ends none listed joined = unlisted listed
  listed-Ends (some entries) listed joined =
      unless-Ends entries (first_error (parse_all c (files_of entries)).workers) listed (
        interleave_lem (process_at c (files_of entries)) (length (files_of entries)) c.hardware
          c.schedule (joined entries listed))

  -- A compilation in which the workers are joined ends as one of its six outcomes, each under its
  -- conditions. It is published only if every file was parsed. Otherwise the database that was live
  -- stays, with its metrics, and the failure is counted. In either case no compilation is in progress
  -- any more, and the temporary file is gone.
  pub compile_to_mmdb_lem :
      ((entries : List Entry)
        → c.entries ≡ some entries
        → all_finished (parse_all c (files_of entries)).workers ≡ true)
      → EndsAs c (before m target) (compile_to_mmdb c (before m target))
  unfolding compile_to_mmdb
  compile_to_mmdb_lem joined = listed-Ends c.entries refl joined
