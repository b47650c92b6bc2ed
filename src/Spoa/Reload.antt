-- ===== src/Spoa/Reload.antt =====
-- src/mmdb/mmdb_reload.cpp: the class ReloadableMmdb. The kernel is the environment: what each call of it
-- gives is an argument. A snapshot is the bytes of the private copy that it maps. `open` and `close` are
-- split where another thread can see the object between two of their steps.
pub mod Copy
pub mod Watch
pub mod Life
use Prim.Native.Nat.{bit_and, bit_or}
use haproxy_spoa_firehol_mmd.Prelude.{
  ℕ, zero, suc, ◌+◌, ◌%◌, ◌^◌, ◌==◌, Bool, true, false, not, ◌&&◌, ◌||◌, List, [], ◌∷◌, ◌++◌,
  Option, none, some, if◌then◌else◌, bytes_eq,
}
use haproxy_spoa_firehol_mmd.Prelude.Lists.{length, take, drop}
use haproxy_spoa_firehol_mmd.Spoa.Database.{c_string}

-- What `copy_file_range` or `sendfile` does: it moves up to so many bytes and one, or sets errno.
pub data CopyCall : Type 0 where
  moves : ℕ → CopyCall
  interrupted : CopyCall
  unsupported : CopyCall
  fails : CopyCall

-- `failed` is `posix_error`; `copying` that the calls given do not end the loop.
pub data CopyResult : Type 0 where
  copied : List ℕ → CopyResult
  failed : CopyResult
  copying : CopyResult

-- The loop of `copy_contents`, with what is left of the source and what has been copied. EXDEV, EINVAL,
-- ENOSYS and EOPNOTSUPP are `unsupported`.
unfoldable pub copy_contents : List CopyCall → Bool → List ℕ → List ℕ → CopyResult
copy_contents [] use_sendfile source copy = copying
copy_contents (moves n ∷ calls) use_sendfile [] copy = copied copy
copy_contents (moves n ∷ calls) use_sendfile (b ∷ source) copy =
    copy_contents calls use_sendfile (drop n source) (copy ++ (b ∷ take n source))
copy_contents (interrupted ∷ calls) use_sendfile source copy =
    copy_contents calls use_sendfile source copy
copy_contents (unsupported ∷ calls) use_sendfile source copy =
    let again = copy_contents calls true source copy in if not use_sendfile then again else failed
copy_contents (fails ∷ calls) use_sendfile source copy = failed

-- The file at the path, the temporary file, the calls that copy, and whether libmaxminddb opens a copy.
pub record Files : Type 0 where
  pub source : Option (List ℕ)
  pub has_tmpfile : Bool
  pub calls : List CopyCall
  pub opens : List ℕ → Bool

-- What `load_snapshot` returns, or that it throws.
pub data Loaded : Type 0 where
  snapshot : List ℕ → Loaded
  throws : Loaded
  loading : Loaded

unfoldable pub load_snapshot : Files → Loaded
load_snapshot files = elim files.source [
  | none ↦ throws
  | some source ↦
      if not files.has_tmpfile then throws else (elim (copy_contents files.calls false source []) [
        | copied copy ↦ if files.opens copy then snapshot copy else throws
        | failed ↦ throws
        | copying ↦ loading
      ])
]

-- The thread of the watcher: none, or one to join, which runs `watch` or has returned from it.
pub data Thread : Type 0 where
  absent running returned : Thread

-- The members of the class; a descriptor is whether it is open.
pub record Reloadable : Type 0 where
  pub current : Option (List ℕ)
  pub reload_count : ℕ
  pub log_enabled : Bool
  pub path : List ℕ
  pub basename : List ℕ
  pub inotify : Bool
  pub stop_event : Bool
  pub watcher : Thread

unfoldable pub joinable : Thread → Bool
joinable absent = false
joinable running = true
joinable returned = true

-- What `open` meets: the two names of the path, and which calls succeed.
pub record Opening : Type 0 where
  pub path : List ℕ
  pub basename : List ℕ
  pub log_enabled : Bool
  pub inotify_init : Bool
  pub add_watch : Bool
  pub eventfd : Bool
  pub files : Files
  pub thread : Bool

pub data OpenError : Type 0 where
  already_started : OpenError
  posix_error : OpenError
  not_loaded : OpenError
  never_returns : OpenError
  not_started : OpenError

-- The calls of `open` that may throw, in their order.
unfoldable pub open_snapshot : Opening → Loaded × OpenError
open_snapshot o =
    if not o.inotify_init || not o.add_watch || not o.eventfd
    then (throws, posix_error)
    else (elim (load_snapshot o.files) [
      | snapshot copy ↦ (snapshot copy, not_loaded)
      | throws ↦ (throws, not_loaded)
      | loading ↦ (loading, never_returns)
    ])

-- `open` up to the moment where readers have the snapshot: the exception, if one leaves the call, and the
-- object.
unfoldable pub open_published : Opening → Reloadable → Option OpenError × Reloadable
open_published o r =
    let logging : Reloadable = record r { log_enabled = o.log_enabled } in
    let named : Reloadable = record logging { path = o.path; basename = o.basename } in
    let result = open_snapshot o in
    if r.inotify then (some already_started, logging) else (elim result.0 [
      | snapshot copy ↦ (none, record named { current = some copy })
      | throws ↦ (some result.1, named)
      | loading ↦ (some result.1, named)
    ])

-- The descriptors get to the object.
unfoldable pub keep_descriptors : Reloadable → Reloadable
keep_descriptors r = record r { inotify = true; stop_event = true }

-- The thread starts, or its constructor throws.
unfoldable pub start_watcher : Bool → Reloadable → Option OpenError × Reloadable
start_watcher true r = (none, record r { watcher = running })
start_watcher false r = (some not_started, r)

unfoldable pub open_behind : Bool → Option OpenError × Reloadable → Option OpenError × Reloadable
open_behind thread (none, r) = start_watcher thread (keep_descriptors r)
open_behind thread (some e, r) = (some e, r)

unfoldable pub open_database : Opening → Reloadable → Option OpenError × Reloadable
open_database o r = open_behind o.thread (open_published o r)

-- `stop_watcher` wakes the thread and joins it, which returns from `watch` first.
unfoldable pub stop_watcher : Reloadable → Reloadable
stop_watcher r = if not (joinable r.watcher) then r else record r { watcher = absent }

unfoldable pub clear_current : Reloadable → Reloadable
clear_current r = record r { current = none }

unfoldable pub reset_descriptors : Reloadable → Reloadable
reset_descriptors r = record r { inotify = false; stop_event = false }

unfoldable pub close : Reloadable → Reloadable
close r = reset_descriptors (clear_current (stop_watcher r))

-- An exception of `load_snapshot` is caught; `none` is a copy that does not end.
unfoldable pub publish : Loaded → Reloadable → Option Reloadable
publish (snapshot copy) r =
    some (record r { current = some copy; reload_count = (r.reload_count + 1) % 2 ^ 64 })
publish throws r = some r
publish loading r = none

unfoldable pub reload : Files → Reloadable → Option Reloadable
reload files r = publish (load_snapshot files) r

-- An event of inotify: its mask, and the bytes of its name, none if its length is 0.
pub record Event : Type 0 where
  pub mask : ℕ
  pub name : List ℕ

-- IN_ATTRIB, IN_CLOSE_WRITE, IN_MOVED_TO; IN_DELETE_SELF, IN_MOVE_SELF; IN_IGNORED; IN_Q_OVERFLOW
abbrev pub database_events : ℕ
database_events = 0x8C

abbrev pub directory_events : ℕ
directory_events = 0xC00

abbrev pub ignored : ℕ
ignored = 0x8000

abbrev pub queue_overflow : ℕ
queue_overflow = 0x4000

abbrev pub has_flag : ℕ → ℕ → Bool
has_flag mask flags = not (bit_and mask flags == 0)

unfoldable pub is_gone : Event → Bool
is_gone e = has_flag e.mask (bit_or ignored directory_events)

unfoldable pub is_change : List ℕ → Event → Bool
is_change basename e =
    has_flag e.mask queue_overflow
    || (not (length e.name == 0)
        && has_flag e.mask database_events
        && bytes_eq basename (c_string e.name))

-- The loop over the events of a buffer: `changed`; `none` is a directory that is gone.
unfoldable pub scan_events : List ℕ → Bool → List Event → Option Bool
scan_events basename changed [] = some changed
scan_events basename changed (e ∷ es) =
    let rest = scan_events basename (changed || is_change basename e) es in
    if is_gone e then none else rest

-- What `read` gives, and whether a stop is requested behind its events.
pub data ReadCall : Type 0 where
  interrupted : ReadCall
  drained : ReadCall
  fails : ReadCall
  events : List Event → Bool → ReadCall

-- The loop over `read`: `changed`, or that `watch` returns, or that the calls given do not end the loop.
pub data ReadResult : Type 0 where
  changed : Bool → ReadResult
  returns : ReadResult
  reading : ReadResult

unfoldable pub read_events : List ℕ → Bool → List ReadCall → ReadResult
read_events basename change [] = reading
read_events basename change (interrupted ∷ calls) = read_events basename change calls
read_events basename change (drained ∷ calls) = changed change
read_events basename change (fails ∷ calls) = returns
read_events basename change (events es stop ∷ calls) = elim (scan_events basename change es) [
  | none ↦ returns
  | some change' ↦ let rest = read_events basename change' calls in if stop then returns else rest
]

-- A round of `watch`: the stop token in front of it, what `poll` gives, the reads, the stop token behind
-- them, and the files that a reload meets.
pub data Poll : Type 0 where
  interrupted : Poll
  fails : Poll
  stopped : Poll
  ready : Poll

pub record Round : Type 0 where
  pub stop_before : Bool
  pub poll : Poll
  pub reads : List ReadCall
  pub stop_behind : Bool
  pub files : Files

-- The object and whether `watch` goes on; `none` is a call that does not end.
unfoldable pub going_on : Option Reloadable → Option (Reloadable × Bool)
going_on none = none
going_on (some r) = some (r, true)

unfoldable pub act_on : ReadResult → Bool → Files → Reloadable → Option (Reloadable × Bool)
act_on returns stop files r = some (r, false)
act_on reading stop files r = none
act_on (changed change) stop files r =
    if change && not stop then going_on (reload files r) else some (r, true)

unfoldable pub watch_round : Round → Reloadable → Option (Reloadable × Bool)
watch_round w r = if w.stop_before then some (r, false) else (elim w.poll [
  | interrupted ↦ some (r, true)
  | fails ↦ some (r, false)
  | stopped ↦ some (r, false)
  | ready ↦ act_on (read_events r.basename false w.reads) w.stop_behind w.files r
])

-- The rounds that happen. A round that is the last one returns from `watch`.
unfoldable pub watch : List Round → Reloadable → Option Reloadable
watch [] r = some r
watch (w ∷ ws) r = elim (watch_round w r) [
  | none ↦ none
  | some (r', more) ↦
      let rest = watch ws r' in if more then rest else some (record r' { watcher = returned })
]
