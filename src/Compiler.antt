-- ===== src/Compiler.antt =====
-- src/firehol_blocklist_ipsets/compiler.cpp: the reading of one blocklist, `process_file`, behind
-- `read_file`. What it needs of the builder's pool is the interface `Store`, which Pooled fills; the
-- batches that are handed to `insert_parsed` are given back in their order. `strptime` with `strftime` is
-- a parameter.
pub mod Meaning
pub mod Lines
pub mod Reading
pub mod Workers
pub mod Publish
pub mod File
pub mod Pooled
use haproxy_spoa_firehol_mmd.Prelude.{
  ℕ, zero, suc, ◌+◌, ◌<◌, ◌≡◌, ◌≢◌, ◌==◌, Bool, true, false, not, ◌&&◌, List, [], ◌∷◌, ◌++◌, Option,
  none, some, ltb, if◌then◌else◌, bytes_eq,
}
use haproxy_spoa_firehol_mmd.Prelude.Lists.{length}
use haproxy_spoa_firehol_mmd.Prelude.Text.{ascii}
use haproxy_spoa_firehol_mmd.Utils.Strings.{trim, split_at}
use haproxy_spoa_firehol_mmd.Builder.Network.{NetworkEntry}

-- `kInsertBatchSize`
abbrev pub insert_batch_size : ℕ
insert_batch_size = 32768

-- `Metadata`
pub record Metadata : Type 0 where
  pub category : List ℕ
  pub maintainer_url : List ℕ
  pub maintainer : List ℕ
  pub list_source_url : List ℕ
  pub source_file_date_rfc3339 : List ℕ

abbrev pub no_metadata : Metadata
no_metadata = record {
  category = [];
  maintainer_url = [];
  maintainer = [];
  list_source_url = [];
  source_file_date_rfc3339 = [];
}

-- The record that `update_did` stores: the columns of the file.
pub record Columns : Type 0 where
  pub file_name : List ℕ
  pub metadata : Metadata

-- What the reader needs of the builder's pool: `store_data` gives an ID other than 0, under which the
-- record stands from then on.
pub record Store : Type 1 where
  pub Pool : Type 0
  pub store_data : Columns → Pool → ℕ × Pool
  pub Stands : Pool → ℕ → Columns → Type 0
  pub stored : (c : Columns) (p : Pool) → Stands (store_data c p).1 (store_data c p).0 c
  pub nonzero : (c : Columns) (p : Pool) → (store_data c p).0 ≢ 0
  pub kept : (c d : Columns) (i : ℕ) (p : Pool) → Stands p i d → Stands (store_data c p).1 i d

-- `parse_error`, with the line.
pub data FileError : Type 0 where
  invalid_date : ℕ → FileError
  invalid_entry : ℕ → List ℕ → FileError
  out_of_fuel : FileError

pub data Slot : Type 0 where
  category maintainer_url maintainer list_source_url source_file_date : Slot

unfoldable pub slot_of : List ℕ → Option Slot
slot_of key =
    if bytes_eq key (ascii "Category")
    then some category
    else if bytes_eq key (ascii "Maintainer URL")
    then some maintainer_url
    else if bytes_eq key (ascii "Maintainer")
    then some maintainer
    else if bytes_eq key (ascii "List source URL")
    then some list_source_url
    else if bytes_eq key (ascii "Source File Date")
    then some source_file_date
    else none

abbrev pub get_slot : Slot → Metadata → List ℕ
get_slot category m = m.category
get_slot maintainer_url m = m.maintainer_url
get_slot maintainer m = m.maintainer
get_slot list_source_url m = m.list_source_url
get_slot source_file_date m = m.source_file_date_rfc3339

abbrev pub set_slot : Slot → List ℕ → Metadata → Metadata
set_slot category v m = record m { category = v }
set_slot maintainer_url v m = record m { maintainer_url = v }
set_slot maintainer v m = record m { maintainer = v }
set_slot list_source_url v m = record m { list_source_url = v }
set_slot source_file_date v m = record m { source_file_date_rfc3339 = v }

-- A line without the carriage return at its end.
unfoldable pub chomp : List ℕ → List ℕ
chomp [] = []
chomp (c ∷ cs) =
    let rest = chomp cs in elim cs [ [] ↦ if c == 13 then [] else c ∷ [] | d ∷ ds ↦ c ∷ rest ]

-- The line in front, and what is behind its end.
unfoldable pub next_line : List ℕ → List ℕ × List ℕ
next_line text = elim (split_at 10 text) [ none ↦ (text, []) | some (line, rest) ↦ (line, rest) ]

-- The value of a slot; `none` is that `parse_source_file_date` throws.
unfoldable pub slot_value : (List ℕ → Option (List ℕ)) → Slot → List ℕ → Option (List ℕ)
slot_value parse_date category v = some v
slot_value parse_date maintainer_url v = some v
slot_value parse_date maintainer v = some v
slot_value parse_date list_source_url v = some v
slot_value parse_date source_file_date v = parse_date v

module _ (s : Store) (parse_date : List ℕ → Option (List ℕ))
    (parse_network : List ℕ → ℕ → Option NetworkEntry) where
  -- The local variables of `process_file`.
  pub record State : Type 0 where
    pub metadata : Metadata
    pub did : ℕ
    pub network_count : ℕ
    pub total_networks : ℕ
    pub metadata_sections : ℕ
    pub batch : List NetworkEntry
    pub flushed : List (List NetworkEntry)
    pub line_number : ℕ
    pub pool : s.Pool

  pub data Step : Type 0 where
    goes_on : State → Step
    throws : FileError → Step

  unfoldable pub update_did : List ℕ → State → State
  update_did file_name st =
      let (id, pool) =
        s.store_data (record { file_name = file_name; metadata = st.metadata }) st.pool in
      record st {
        did = id;
        network_count = 0;
        metadata_sections = st.metadata_sections + 1;
        pool = pool;
      }

  unfoldable pub flush : State → State
  flush st = record st { batch = []; flushed = st.flushed ++ (st.batch ∷ []) }

  -- A slot that changes after networks starts a new record.
  unfoldable pub change_slot : Slot → List ℕ → State → State
  change_slot slot value st = if bytes_eq (get_slot slot st.metadata) value then st else record st {
    did = if ltb 0 st.network_count then 0 else st.did;
    metadata = set_slot slot value st.metadata;
  }

  unfoldable pub read_slot : Slot → List ℕ → State → Step
  read_slot slot value st = elim (slot_value parse_date slot value) [
    | none ↦ throws (invalid_date st.line_number)
    | some v ↦ goes_on (change_slot slot v st)
  ]

  unfoldable pub read_comment : List ℕ → State → Step
  read_comment comment st = elim (split_at 58 comment) [
    | none ↦ goes_on st
    | some (key, value) ↦ elim (slot_of (trim key)) [
      | none ↦ goes_on st
      | some slot ↦ read_slot slot (trim value) st
    ]
  ]

  unfoldable pub push_network : NetworkEntry → State → State
  push_network e st =
      let pushed : State = record st {
        batch = st.batch ++ (e ∷ []);
        network_count = st.network_count + 1;
        total_networks = st.total_networks + 1;
      } in
      if length pushed.batch == insert_batch_size then flush pushed else pushed

  unfoldable pub take_parsed : List ℕ → State → Option NetworkEntry → Step
  take_parsed entry st none = throws (invalid_entry st.line_number entry)
  take_parsed entry st (some parsed) = goes_on (push_network parsed st)

  unfoldable pub read_entry : List ℕ → List ℕ → State → Step
  read_entry file_name entry st =
      let ready : State = if st.did == 0 then update_did file_name st else st in
      take_parsed entry ready (parse_network entry ready.did)

  -- The body of the loop, for a line without its end.
  unfoldable pub read_line : List ℕ → List ℕ → State → Step
  read_line file_name [] st = goes_on st
  read_line file_name (c ∷ cs) st =
      if c == 35
      then read_comment cs st
      else (elim (trim (c ∷ cs)) [ [] ↦ goes_on st | d ∷ ds ↦ read_entry file_name (d ∷ ds) st ])

  -- An exception leaves the loop.
  unfoldable pub and_then : (State → Step) → Step → Step
  and_then next (throws e) = throws e
  and_then next (goes_on st) = next st

  unfoldable pub read_lines : ℕ → List ℕ → List ℕ → State → Step
  read_lines zero file_name text st = throws out_of_fuel
  read_lines (suc fuel) file_name [] st = goes_on st
  read_lines (suc fuel) file_name (c ∷ cs) st =
      let (line, rest) = next_line (c ∷ cs) in
      let behind : State → Step = λ st'. read_lines fuel file_name rest st' in
      and_then behind
        (read_line file_name (chomp line) (record st { line_number = st.line_number + 1 }))

  abbrev pub start : s.Pool → State
  start pool = record {
    metadata = no_metadata;
    did = 0;
    network_count = 0;
    total_networks = 0;
    metadata_sections = 0;
    batch = [];
    flushed = [];
    line_number = 0;
    pool = pool;
  }

  -- An empty file gives nothing; the last batch is flushed behind the loop.
  unfoldable pub process_file : List ℕ → List ℕ → s.Pool → Step
  process_file file_name [] pool = goes_on (start pool)
  process_file file_name (c ∷ cs) pool =
      and_then (λ st. goes_on (flush st))
        (read_lines (length (c ∷ cs) + 1) file_name (c ∷ cs) (start pool))
