-- ===== src/Tests/Compilations.antt =====
-- Two blocklists that two workers read, and their database.
use haproxy_spoa_firehol_mmd.Compiler.Pooled.{data_pool}
use haproxy_spoa_firehol_mmd.Builder.Pool.{
  find, add, intern_as, intern, same, same_scalar, same_fields, text_of, insert_field, sort_fields,
  store_scalar, store, store_members, store_items,
}
use haproxy_spoa_firehol_mmd.Spoa.Categories.{bytes_lt}
use haproxy_spoa_firehol_mmd.Utils.Strings.{
  split_at, trim, find_first_not_of, find_last_not_of, is_whitespace,
}
use haproxy_spoa_firehol_mmd.Prelude.{
  ℕ, ◌+◌, ◌-◌, ◌*◌, ◌≤◌, ◌≡◌, refl, true, List, [], ◌∷◌, Option, none, some, bytes_eq,
}
use haproxy_spoa_firehol_mmd.Prelude.Text.{ascii}
use mathlib.Core.List.{Perm}
use haproxy_spoa_firehol_mmd.Compiler.{
  process_file, read_lines, read_line, read_comment, read_slot, read_entry, take_parsed,
  push_network, change_slot, update_did, flush, and_then, next_line, chomp, slot_of, slot_value,
}
use haproxy_spoa_firehol_mmd.Compiler.Workers.{
  Parsed, interleave, step, act, parse_file, begin, thread_count, first_error, is_finished,
  all_finished,
}
use haproxy_spoa_firehol_mmd.Compiler.Workers.Ends.{Compiled, interleave_lem}
use haproxy_spoa_firehol_mmd.Compiler.Workers.Turns.{turns, turns-begin}
use haproxy_spoa_firehol_mmd.Compiler.Publish.{
  is_netset, is_ipset, list_entry, list_entries, Entry, Conditions, Metrics, parsed_of,
  list_blocklists, parse_all, compile_to_mmdb, sort_files, insert_file, is_before,
}
use haproxy_spoa_firehol_mmd.Compiler.Publish.Listed.{
  count_kind, IsOrdered, blocklists, list_blocklists_lem,
}
use haproxy_spoa_firehol_mmd.Compiler.Publish.Endings.{
  EndsAs, files_of, before, compile_to_mmdb_lem,
}
use haproxy_spoa_firehol_mmd.Tests.Blocklists.{no_records, any_network, blocklist}

-- The first file has five networks, the second three.
abbrev sizes : ℕ → Option Parsed
sizes i = some (record { networks = 5 - 2 * i; category = ascii "spam" })

-- The second worker is overtaken, and there is no third.
abbrev turns_taken : List ℕ
turns_taken = 0 ∷ 1 ∷ 0 ∷ 2 ∷ 0 ∷ 1 ∷ 0 ∷ 1 ∷ 1 ∷ 0 ∷ []

workers_done :
    all_finished (interleave sizes 2 turns_taken (begin sizes 2 (thread_count 8 2))).workers ≡ true
unfolding interleave step act parse_file thread_count is_finished all_finished
workers_done = refl

interleave_lem_example :
    Compiled sizes 2
      (first_error (interleave sizes 2 turns_taken (begin sizes 2 (thread_count 8 2))).workers)
      (interleave sizes 2 turns_taken (begin sizes 2 (thread_count 8 2)))
interleave_lem_example = interleave_lem sizes 2 8 turns_taken workers_done

turns-begin_example : turns sizes 2 turns_taken (begin sizes 2 2) ≤ 2 * 2 + 2 * 2
turns-begin_example = turns-begin sizes 2 2 turns_taken

abbrev entries : List Entry
entries =
    record {
      name = ascii "b.netset";
      extension = ascii ".netset";
      is_regular_file = true;
      file_size = 70;
    }
    ∷ record { name = ascii "README"; extension = []; is_regular_file = true; file_size = 900 }
    ∷ record {
      name = ascii "a.ipset";
      extension = ascii ".ipset";
      is_regular_file = true;
      file_size = 90;
    }
    ∷ []

list_blocklists_lem_example :
    Perm (list_blocklists entries).files (blocklists entries)
    × IsOrdered (list_blocklists entries).files
    × ((list_blocklists entries).ipset_count ≡ count_kind (ascii ".ipset") entries)
    × ((list_blocklists entries).netset_count ≡ count_kind (ascii ".netset") entries)
list_blocklists_lem_example = list_blocklists_lem entries

abbrev conditions : Conditions
conditions = record {
  entries = some entries;
  process = λ file.
      parsed_of
        (process_file data_pool (λ date. some date) any_network file.path blocklist no_records);
  hardware = 2;
  schedule = turns_taken;
  mkstemp = true;
  close = true;
  build = some (record { node_count = 3; data_records = 2; total_bytes = 90 }, 1 ∷ 2 ∷ []);
  rename = true;
  now = 1700000000;
}

abbrev metrics : Metrics
metrics = record {
  compile_runs_total = 4;
  compile_in_progress = 0;
  compile_failures_total = 1;
  live = record {
    networks = 0;
    blocklists = 0;
    mmdb_bytes = 0;
    trie_nodes = 0;
    data_records = 0;
    last_success_unix = 0;
    stats = [];
  };
}

all_joined : all_finished (parse_all conditions (files_of entries)).workers ≡ true
unfolding find add intern_as intern same same_scalar same_fields text_of insert_field sort_fields
    store_scalar store store_members store_items parse_all interleave step act parse_file
    thread_count is_finished all_finished list_blocklists list_entries list_entry is_ipset is_netset
    sort_files insert_file is_before bytes_lt bytes_eq parsed_of process_file read_lines read_line
    read_comment read_slot read_entry take_parsed push_network change_slot update_did flush and_then
    next_line chomp slot_of slot_value split_at trim find_first_not_of find_last_not_of
    is_whitespace
all_joined = refl

compile_to_mmdb_lem_example :
    EndsAs conditions (before metrics none) (compile_to_mmdb conditions (before metrics none))
unfolding parse_all
compile_to_mmdb_lem_example =
    compile_to_mmdb_lem conditions metrics none (λ es listed. listed_joined es listed)
  where
    listed_joined :
        (es : List Entry)
        → conditions.entries ≡ some es
        → all_finished (parse_all conditions (files_of es)).workers ≡ true
    listed_joined es listed = (let same : entries ≡ es = cc in rw same at all_joined)
