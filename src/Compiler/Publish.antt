-- ===== src/Compiler/Publish.antt =====
-- src/firehol_blocklist_ipsets/compiler.cpp: `list_blocklists` and `compile_to_mmdb`, with the guards
-- `CompileRun` and `TemporaryMmdb`. What the builder gives, the calls of the file system, the number of
-- processors, the clock and the interleaving of the workers are arguments. A path is the file's
-- name: the files are in one directory.
pub mod Listed
pub mod Endings
use haproxy_spoa_firehol_mmd.Prelude.{
  ℕ, ◌+◌, ◌%◌, ◌^◌, ◌==◌, Bool, true, false, ◌&&◌, ◌||◌, not, List, [], ◌∷◌, ◌++◌, Option, none,
  some, ltb, if◌then◌else◌, bytes_eq,
}
use haproxy_spoa_firehol_mmd.Prelude.Lists.{length, get_or}
use haproxy_spoa_firehol_mmd.Prelude.Text.{ascii}
use haproxy_spoa_firehol_mmd.Spoa.Categories.{bytes_lt}
use haproxy_spoa_firehol_mmd.Builder.Network.{NetworkEntry}
use haproxy_spoa_firehol_mmd.Compiler.{Store, Step, goes_on, throws}
use haproxy_spoa_firehol_mmd.Compiler.Workers.{
  Parsed, Shared, interleave, begin, thread_count, first_error,
}

-- What the directory says of an entry.
pub record Entry : Type 0 where
  pub name : List ℕ
  pub extension : List ℕ
  pub is_regular_file : Bool
  pub file_size : ℕ

pub record BlocklistFile : Type 0 where
  pub path : List ℕ
  pub size : ℕ

pub record Listing : Type 0 where
  pub files : List BlocklistFile
  pub ipset_count : ℕ
  pub netset_count : ℕ

unfoldable pub is_ipset : Entry → Bool
is_ipset e = bytes_eq e.extension (ascii ".ipset")

unfoldable pub is_netset : Entry → Bool
is_netset e = bytes_eq e.extension (ascii ".netset")

unfoldable pub list_entry : Entry → Listing → Listing
list_entry e l =
    if not e.is_regular_file
    then l
    else if not (is_ipset e) && not (is_netset e)
    then l
    else record {
      files = l.files ++ (record { path = e.name; size = e.file_size } ∷ []);
      ipset_count = if is_ipset e then l.ipset_count + 1 else l.ipset_count;
      netset_count = if is_ipset e then l.netset_count else l.netset_count + 1;
    }

unfoldable pub list_entries : List Entry → Listing → Listing
list_entries [] l = l
list_entries (e ∷ es) l = list_entries es (list_entry e l)

-- The largest file first.
unfoldable pub is_before : BlocklistFile → BlocklistFile → Bool
is_before a b = if not (a.size == b.size) then ltb b.size a.size else bytes_lt a.path b.path

-- `std::sort`, which may be any algorithm: insertion.
unfoldable pub insert_file : BlocklistFile → List BlocklistFile → List BlocklistFile
insert_file a [] = a ∷ []
insert_file a (b ∷ bs) =
    let rest = insert_file a bs in if is_before b a then b ∷ rest else a ∷ b ∷ bs

unfoldable pub sort_files : List BlocklistFile → List BlocklistFile
sort_files [] = []
sort_files (a ∷ bs) = insert_file a (sort_files bs)

unfoldable pub list_blocklists : List Entry → Listing
list_blocklists entries =
    let l = list_entries entries (record { files = []; ipset_count = 0; netset_count = 0 }) in
    record l { files = sort_files l.files }

-- `BuildStats`
pub record BuildStats : Type 0 where
  pub node_count : ℕ
  pub data_records : ℕ
  pub total_bytes : ℕ

-- `BlocklistStat`
pub record BlocklistStat : Type 0 where
  pub file_name : List ℕ
  pub category : List ℕ
  pub networks : ℕ

-- What the metrics say of the database that is live.
pub record Live : Type 0 where
  pub networks : ℕ
  pub blocklists : ℕ
  pub mmdb_bytes : ℕ
  pub trie_nodes : ℕ
  pub data_records : ℕ
  pub last_success_unix : ℕ
  pub stats : List BlocklistStat

pub record Metrics : Type 0 where
  pub compile_runs_total : ℕ
  pub compile_in_progress : ℕ
  pub compile_failures_total : ℕ
  pub live : Live

-- The metrics, the published database and the temporary file beside it.
pub record World : Type 0 where
  pub metrics : Metrics
  pub target : Option (List ℕ)
  pub temporary : Option (List ℕ)

pub data Outcome : Type 0 where
  published : Outcome
  bad_blocklist : ℕ → Outcome
  no_directory : Outcome
  no_temporary : Outcome
  not_built : Outcome
  not_renamed : Outcome

-- What a compilation meets: `none` stands for a call that throws.
pub record Conditions : Type 0 where
  pub entries : Option (List Entry)
  pub process : BlocklistFile → Option Parsed
  pub hardware : ℕ
  pub schedule : List ℕ
  pub mkstemp : Bool
  pub close : Bool
  pub build : Option (BuildStats × List ℕ)
  pub rename : Bool
  pub now : ℕ

-- What `process_file` returns.
unfoldable pub parsed_of :
    {s : Store} {parse_date : List ℕ → Option (List ℕ)}
    {parse_network : List ℕ → ℕ → Option NetworkEntry}
    → Step s parse_date parse_network
    → Option Parsed
parsed_of (goes_on st) =
    some (record { networks = st.total_networks; category = st.metadata.category })
parsed_of (throws e) = none

abbrev no_file : BlocklistFile
no_file = record { path = []; size = 0 }

abbrev pub process_at : Conditions → List BlocklistFile → ℕ → Option Parsed
process_at c files i = c.process (get_or files i no_file)

-- The workers when they are joined.
unfoldable pub parse_all : Conditions → List BlocklistFile → Shared
parse_all c files =
    interleave (process_at c files) (length files) c.schedule
      (begin (process_at c files) (length files) (thread_count c.hardware (length files)))

-- The constructor of `CompileRun`.
unfoldable pub begin_run : World → World
begin_run w = record w {
  metrics = record w.metrics {
    compile_runs_total = (w.metrics.compile_runs_total + 1) % 2 ^ 64;
    compile_in_progress = 1;
  };
}

-- Its destructor.
unfoldable pub end_run : Outcome × World → Outcome × World
end_run (published, w) =
    (published, record w { metrics = record w.metrics { compile_in_progress = 0 } })
end_run (o, w) = (
  o,
  record w {
    metrics = record w.metrics {
      compile_failures_total = (w.metrics.compile_failures_total + 1) % 2 ^ 64;
      compile_in_progress = 0;
    };
  },
)

-- The destructor of `TemporaryMmdb`.
abbrev pub remove_temporary : Outcome × World → Outcome × World
remove_temporary (o, w) = (o, record w { temporary = none })

-- The slots of the statistics, one for each file.
unfoldable pub blocklist_stats : List BlocklistFile → List (Option Parsed) → List BlocklistStat
blocklist_stats [] slots = []
blocklist_stats (f ∷ fs) [] = []
blocklist_stats (f ∷ fs) (none ∷ slots) =
    record { file_name = []; category = []; networks = 0 } ∷ blocklist_stats fs slots
blocklist_stats (f ∷ fs) (some r ∷ slots) =
    record { file_name = f.path; category = r.category; networks = r.networks }
    ∷ blocklist_stats fs slots

-- The metrics of the database that was published.
unfoldable pub live_now : Conditions → List BlocklistFile → Shared → BuildStats → Live
live_now c files s stats = record {
  networks = s.total_networks;
  blocklists = length files;
  mmdb_bytes = stats.total_bytes;
  trie_nodes = stats.node_count;
  data_records = stats.data_records;
  last_success_unix = c.now;
  stats = blocklist_stats files s.stats;
}

-- The renaming of the temporary file, and the metrics.
unfoldable pub publish :
    Conditions → List BlocklistFile → Shared → BuildStats → World → Outcome × World
publish c files s stats w =
    if c.rename
    then (
      published,
      record w {
        target = w.temporary;
        temporary = none;
        metrics = record w.metrics { live = live_now c files s stats };
      },
    )
    else (not_renamed, w)

-- What is made of the result of the builder.
unfoldable pub write_database :
    Conditions
    → List BlocklistFile
    → Shared
    → Option (BuildStats × List ℕ)
    → World
    → Outcome × World
write_database c files s none w = (not_built, record w { temporary = some [] })
write_database c files s (some (stats, bytes)) w =
    publish c files s stats (record w { temporary = some bytes })

-- The building into a temporary file, which goes whatever happens.
unfoldable pub build_temporary : Conditions → List BlocklistFile → Shared → World → Outcome × World
build_temporary c files s w =
    if not c.mkstemp
    then (no_temporary, w)
    else if not c.close
    then (no_temporary, record w { temporary = none })
    else remove_temporary (write_database c files s c.build w)

-- The first error of the workers is thrown on.
unfoldable pub build_unless :
    Option ℕ → Conditions → List BlocklistFile → Shared → World → Outcome × World
build_unless none c files s w = build_temporary c files s w
build_unless (some i) c files s w = (bad_blocklist i, w)

unfoldable pub compile_files : Conditions → List BlocklistFile → World → Outcome × World
compile_files c files w =
    let s = parse_all c files in build_unless (first_error s.workers) c files s w

unfoldable pub compile_listed : Option (List Entry) → Conditions → World → Outcome × World
compile_listed none c w = (no_directory, w)
compile_listed (some entries) c w = compile_files c (list_blocklists entries).files w

unfoldable pub compile_to_mmdb : Conditions → World → Outcome × World
compile_to_mmdb c w = end_run (compile_listed c.entries c (begin_run w))
