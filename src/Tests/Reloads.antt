-- ===== src/Tests/Reloads.antt =====
-- A database that is opened, changed and closed.
use haproxy_spoa_firehol_mmd.Prelude.{
  ℕ, ◌≡◌, refl, true, false, List, [], ◌∷◌, ◌++◌, none, some, arith, bytes_eq,
}
use haproxy_spoa_firehol_mmd.Prelude.Text.{ascii}
use haproxy_spoa_firehol_mmd.Spoa.Database.{c_string}
use haproxy_spoa_firehol_mmd.Spoa.Reload.{
  absent, running, returned, CopyCall, moves, unsupported, copied, copy_contents, Files, Reloadable,
  Round, ready, ReadCall, events, drained, Event, read_events, watch, watch_round, act_on, going_on,
  publish, reload, load_snapshot, scan_events, is_gone, is_change, Opening,
}
use haproxy_spoa_firehol_mmd.Spoa.Reload.Copy.{copy_contents_ends}
use haproxy_spoa_firehol_mmd.Spoa.Reload.Watch.{thread_after, loads, Watched, watch_lem}

-- A call that is interrupted, a file system without `copy_file_range`, and two pieces.
abbrev copying_calls : List CopyCall
copying_calls = CopyCall.interrupted ∷ unsupported ∷ moves 1 ∷ moves 5 ∷ moves 0 ∷ []

abbrev file : List ℕ
file = 1 ∷ 2 ∷ 3 ∷ []

file_copied : copy_contents copying_calls false file [] ≡ copied file
unfolding copy_contents
file_copied = refl

copy_contents_ends_example :
    copy_contents (moves 0 ∷ CopyCall.interrupted ∷ copying_calls) false file (9 ∷ [])
    ≡ copied (9 ∷ [] ++ file)
copy_contents_ends_example =
    copy_contents_ends (moves 0 ∷ CopyCall.interrupted ∷ copying_calls) false file (9 ∷ []) tt
      (omega arith)

abbrev files : Files
files = record {
  source = some file;
  has_tmpfile = true;
  calls = copying_calls;
  opens = λ copy. true;
}

-- The file is written and closed; another file is touched.
abbrev written : Event
written = record { mask = 8; name = ascii "a.mmdb" ++ (0 ∷ 0 ∷ []) }

abbrev touched : Event
touched = record { mask = 4; name = ascii "b" ++ (0 ∷ []) }

abbrev reads : List ReadCall
reads =
    events (touched ∷ []) false
    ∷ ReadCall.interrupted
    ∷ events (touched ∷ written ∷ []) false
    ∷ drained
    ∷ []

abbrev open_now : Reloadable
open_now = record {
  current = some (7 ∷ []);
  reload_count = 0;
  log_enabled = true;
  path = ascii "/db/a.mmdb";
  basename = ascii "a.mmdb";
  inotify = true;
  stop_event = true;
  watcher = running;
}

abbrev rounds : List Round
rounds =
    record { stop_before = false; poll = ready; reads = reads; stop_behind = false; files = files }
    ∷ []

abbrev reloaded : Reloadable
reloaded = record open_now { current = some file; reload_count = 1 }

round_watched : watch rounds open_now ≡ some reloaded
unfolding watch watch_round act_on going_on reload publish load_snapshot copy_contents read_events
    scan_events is_gone is_change bytes_eq c_string
round_watched = refl

watch_lem_example :
    Watched open_now
      (loads (ascii "a.mmdb") rounds)
      (thread_after (ascii "a.mmdb") rounds running)
      reloaded
watch_lem_example = watch_lem rounds open_now reloaded round_watched

abbrev closed_now : Reloadable
closed_now = record {
  current = none;
  reload_count = 0;
  log_enabled = true;
  path = [];
  basename = [];
  inotify = false;
  stop_event = false;
  watcher = absent;
}

abbrev opening : Opening
opening = record {
  path = ascii "/db/a.mmdb";
  basename = ascii "a.mmdb";
  log_enabled = true;
  inotify_init = true;
  add_watch = true;
  eventfd = true;
  files = files;
  thread = true;
}

-- The directory is removed: the watcher returns, and the snapshot stays until `close`.
abbrev removed : Round
removed = record {
  stop_before = false;
  poll = ready;
  reads = events (record { mask = 0x400; name = [] } ∷ []) false ∷ [];
  stop_behind = false;
  files = files;
}

abbrev abandoned : Reloadable
abandoned = record open_now { watcher = returned }

watcher_returns : watch (removed ∷ []) open_now ≡ some abandoned
unfolding watch watch_round act_on read_events scan_events is_gone is_change bytes_eq c_string
watcher_returns = refl
