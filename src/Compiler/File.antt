-- ===== src/Compiler/File.antt =====
-- A whole blocklist: what `process_file` hands over, or why it throws.
use haproxy_spoa_firehol_mmd.Prelude.{
  ℕ, zero, suc, ◌+◌, ◌<◌, ◌≡◌, ◌≢◌, refl, ap, List, [], ◌∷◌, ◌++◌, Option, arith, ◌⊎◌, inl, inr,
  append_assoc, append-nil,
}
use haproxy_spoa_firehol_mmd.Prelude.Lists.{length, All}
use haproxy_spoa_firehol_mmd.Builder.Network.{NetworkEntry}
use haproxy_spoa_firehol_mmd.Compiler.{
  Metadata, no_metadata, Store, out_of_fuel, State, Step, goes_on, throws, flush, read_line,
  and_then, read_lines, start, process_file, chomp, next_line,
}
use haproxy_spoa_firehol_mmd.Compiler.Meaning.{
  Meaning, nothing, sets, bad_date, lists, meaning, metadata_after, listed_by, listed,
  last_metadata, act, read_line-act,
}
use haproxy_spoa_firehol_mmd.Compiler.Lines.{lines_of, next_line-lines_of}
use haproxy_spoa_firehol_mmd.Compiler.Reading.{
  concat, concat-snoc, All-snoc, Recorded, FitsBatch, Inv, After, Broken, act-After,
}

module _ (s : Store) (parse_date : List ℕ → Option (List ℕ))
    (parse_network : List ℕ → ℕ → Option NetworkEntry) (file_name : List ℕ) where
  -- One of the lines cannot be read.
  abbrev pub AnyBroken : List (List ℕ) → Type 0
  AnyBroken [] = ⊥
  AnyBroken (line ∷ lines) =
      Broken s parse_date parse_network file_name (meaning parse_date (chomp line))
      ⊎ AnyBroken lines

  listed_behind :
      (line : Meaning) (m : Metadata) (ps more : List (Metadata × List ℕ))
      → (ps ++ listed_by parse_date line m []) ++ more ≡ ps ++ listed_by parse_date line m more
  listed_behind nothing m ps more = ap (λ v. v ++ more) (append-nil ps)
  listed_behind (sets slot v) m ps more = ap (λ v. v ++ more) (append-nil ps)
  listed_behind bad_date m ps more = ap (λ v. v ++ more) (append-nil ps)
  listed_behind (lists text) m ps more = append_assoc ps ((m, text) ∷ []) more

  next_number :
      (st : State s parse_date parse_network) (ps : List (Metadata × List ℕ))
      → Inv s parse_date parse_network file_name st ps
      → Inv s parse_date parse_network file_name (record st { line_number = st.line_number + 1 }) ps
  next_number st ps i = record {
    recorded = i.recorded;
    current = i.current;
    counted = i.counted;
    total = i.total;
    room = i.room;
    sizes = i.sizes;
  }

  -- The lines behind a line.
  lines_behind :
      (fuel : ℕ) (rest : List ℕ) (lines : List (List ℕ)) (line : Meaning) (m : Metadata)
      (ps : List (Metadata × List ℕ)) (step : Step s parse_date parse_network)
      → After s parse_date parse_network file_name
          (Broken s parse_date parse_network file_name line)
          step
          (ps ++ listed_by parse_date line m [])
          (metadata_after parse_date line m)
      → ((st : State s parse_date parse_network)
          → Inv s parse_date parse_network file_name st (ps ++ listed_by parse_date line m [])
          → st.metadata ≡ metadata_after parse_date line m
          → After s parse_date parse_network file_name
              (AnyBroken lines)
              (read_lines s parse_date parse_network fuel file_name rest st)
              ((ps ++ listed_by parse_date line m [])
                ++ listed parse_date (metadata_after parse_date line m) lines)
              (last_metadata parse_date (metadata_after parse_date line m) lines))
      → After s parse_date parse_network file_name
          (Broken s parse_date parse_network file_name line ⊎ AnyBroken lines)
          (and_then s parse_date parse_network
            (λ st. read_lines s parse_date parse_network fuel file_name rest st)
            step)
          (ps
            ++ listed_by parse_date line m
                (listed parse_date (metadata_after parse_date line m) lines))
          (last_metadata parse_date (metadata_after parse_date line m) lines)
  unfolding and_then
  lines_behind fuel rest lines line m ps (throws e) (known, why) go = (known, inl why)
  lines_behind fuel rest lines line m ps (goes_on st) (i, same) go =
      weaken (read_lines s parse_date parse_network fuel file_name rest st) (
        rw (listed_behind line m ps (listed parse_date (metadata_after parse_date line m) lines)) at
          (go st i same))
    where
      weaken :
          (step : Step s parse_date parse_network)
          → After s parse_date parse_network file_name
              (AnyBroken lines)
              step
              (ps
                ++ listed_by parse_date line m
                    (listed parse_date (metadata_after parse_date line m) lines))
              (last_metadata parse_date (metadata_after parse_date line m) lines)
          → After s parse_date parse_network file_name
              (Broken s parse_date parse_network file_name line ⊎ AnyBroken lines)
              step
              (ps
                ++ listed_by parse_date line m
                    (listed parse_date (metadata_after parse_date line m) lines))
              (last_metadata parse_date (metadata_after parse_date line m) lines)
      weaken (throws e) (known, why) = (known, inr why)
      weaken (goes_on st') a = a

  at_metadata :
      (step : Step s parse_date parse_network) (ps : List (Metadata × List ℕ))
      (lines : List (List ℕ)) (m m' : Metadata)
      → m ≡ m'
      → After s parse_date parse_network file_name
          (AnyBroken lines)
          step
          (ps ++ listed parse_date m lines)
          (last_metadata parse_date m lines)
      → After s parse_date parse_network file_name
          (AnyBroken lines)
          step
          (ps ++ listed parse_date m' lines)
          (last_metadata parse_date m' lines)
  at_metadata step ps lines m m' e a = rw e at a

  one_line :
      (fuel : ℕ) (text line rest : List ℕ) (st : State s parse_date parse_network)
      (ps : List (Metadata × List ℕ))
      → lines_of text ≡ line ∷ lines_of rest
      → let x = meaning parse_date (chomp line) in
        let st₁ : State s parse_date parse_network = record st {
          line_number = st.line_number + 1;
        } in
        let m = metadata_after parse_date x st.metadata in
        After s parse_date parse_network file_name
          (Broken s parse_date parse_network file_name x ⊎ AnyBroken (lines_of rest))
          (and_then s parse_date parse_network
            (λ st'. read_lines s parse_date parse_network fuel file_name rest st')
            (act parse_date s parse_network file_name x st₁))
          (ps ++ listed_by parse_date x st.metadata (listed parse_date m (lines_of rest)))
          (last_metadata parse_date m (lines_of rest))
        → After s parse_date parse_network file_name
            (AnyBroken (lines_of text))
            (and_then s parse_date parse_network
              (λ st'. read_lines s parse_date parse_network fuel file_name rest st')
              (read_line s parse_date parse_network file_name (chomp line) st₁))
            (ps ++ listed parse_date st.metadata (lines_of text))
            (last_metadata parse_date st.metadata (lines_of text))
  unfolding listed last_metadata
  one_line fuel text line rest st ps e a =
      let st₁ : State s parse_date parse_network = record st { line_number = st.line_number + 1 } in
      rw (e, read_line-act parse_date s parse_network file_name (chomp line) st₁) a

  read_lines-After :
      (fuel : ℕ) (text : List ℕ) (st : State s parse_date parse_network)
      (ps : List (Metadata × List ℕ))
      → Inv s parse_date parse_network file_name st ps
      → length text < fuel
      → After s parse_date parse_network file_name
          (AnyBroken (lines_of text))
          (read_lines s parse_date parse_network fuel file_name text st)
          (ps ++ listed parse_date st.metadata (lines_of text))
          (last_metadata parse_date st.metadata (lines_of text))
  unfolding read_lines listed last_metadata lines_of
  read_lines-After zero text st ps i le = absurd (omega arith)
  read_lines-After (suc fuel) [] st ps i le = (rw (append-nil ps) i, refl)
  read_lines-After (suc fuel) (c ∷ cs) st ps i le =
      let (lines, shorter) = next_line-lines_of c cs in
      let line = (next_line (c ∷ cs)).0 in
      let rest = (next_line (c ∷ cs)).1 in
      let st₁ : State s parse_date parse_network = record st { line_number = st.line_number + 1 } in
      let x = meaning parse_date (chomp line) in
      let step = act-After s parse_date parse_network file_name x st₁ ps (next_number st ps i) in
      one_line fuel (c ∷ cs) line rest st ps lines (
        lines_behind fuel rest (lines_of rest) x st.metadata ps
          (act parse_date s parse_network file_name x st₁) step
          (λ st' i' same'.
            at_metadata (read_lines s parse_date parse_network fuel file_name rest st')
              (ps ++ listed_by parse_date x st.metadata []) (lines_of rest) st'.metadata
              (metadata_after parse_date x st.metadata) same'
              (read_lines-After fuel rest st' (ps ++ listed_by parse_date x st.metadata []) i'
                (omega arith))))

  -- What `process_file` makes of a file.
  abbrev pub Processed : List ℕ → Step s parse_date parse_network → Type 0
  Processed text (goes_on st) =
      Recorded s parse_date parse_network file_name st.pool
        (listed parse_date no_metadata (lines_of text)) (concat st.flushed)
      × (st.total_networks ≡ length (listed parse_date no_metadata (lines_of text)))
      × (st.metadata ≡ last_metadata parse_date no_metadata (lines_of text))
      × All (FitsBatch s parse_date parse_network file_name) st.flushed
  Processed text (throws e) = (e ≢ out_of_fuel) × AnyBroken (lines_of text)

  start-Inv :
      (pool : s.Pool)
      → Inv s parse_date parse_network file_name (start s parse_date parse_network pool) []
  start-Inv pool = record {
    recorded = tt;
    current = λ ne. absurd (ne refl);
    counted = λ ne. absurd (ne refl);
    total = refl;
    room = omega arith;
    sizes = tt;
  }

  flushed :
      (text : List ℕ) (step : Step s parse_date parse_network)
      → After s parse_date parse_network file_name
          (AnyBroken (lines_of text))
          step
          (listed parse_date no_metadata (lines_of text))
          (last_metadata parse_date no_metadata (lines_of text))
      → Processed text (
          and_then s parse_date parse_network
            (λ st. goes_on (flush s parse_date parse_network st))
            step)
  unfolding and_then flush
  flushed text (throws e) a = a
  flushed text (goes_on st) (i, same) = (
    rw (concat-snoc st.flushed st.batch) i.recorded,
    i.total,
    same,
    All-snoc (FitsBatch s parse_date parse_network file_name) st.flushed st.batch i.sizes
        (omega (arith, i.room)),
  )

  -- `process_file` always ends. It hands over, in batches of at most 32768, exactly the networks that the
  -- lines of the file list, in their order, each with the ID of a record of the file's name and the
  -- metadata in force at its line, and counts them and ends with the last metadata; or it throws, and
  -- then a date or a network of the file cannot be read.
  pub process_file_lem :
      (text : List ℕ) (pool : s.Pool)
      → Processed text (process_file s parse_date parse_network file_name text pool)
  unfolding process_file listed last_metadata lines_of
  process_file_lem [] pool = (tt, refl, refl, tt)
  process_file_lem (c ∷ cs) pool = flushed (c ∷ cs) _ (
      read_lines-After (length (c ∷ cs) + 1) (c ∷ cs) (start s parse_date parse_network pool) []
        (start-Inv pool) (omega arith))
