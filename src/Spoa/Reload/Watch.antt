-- ===== src/Spoa/Reload/Watch.antt =====
-- What the watcher makes of the events, and of the snapshot.
use haproxy_spoa_firehol_mmd.Prelude.{
  ℕ, ◌+◌, ◌%◌, ◌^◌, ◌≡◌, refl, sym, ap, ◌∙◌, Bool, true, false, not, ◌&&◌, ◌||◌, List, [], ◌∷◌,
  ◌++◌, Option, none, some, arith, if◌then◌else◌, inl, inr, Bool-cases,
}
use haproxy_spoa_firehol_mmd.Prelude.Lists.{length}
use haproxy_spoa_firehol_mmd.Spoa.Reload.{
  Event, is_gone, is_change, scan_events, ReadCall, drained, events, ReadResult, changed, returns,
  reading, read_events, Poll, stopped, ready, Round, Files, Thread, returned, Loaded, snapshot,
  throws, loading, load_snapshot, Reloadable, publish, reload, going_on, act_on, watch_round, watch,
}

-- The events of the calls up to the one that finds no more.
abbrev pub all_events : List ReadCall → List Event
all_events [] = []
all_events (ReadCall.interrupted ∷ calls) = all_events calls
all_events (drained ∷ calls) = []
all_events (ReadCall.fails ∷ calls) = []
all_events (events es stop ∷ calls) = es ++ all_events calls

-- The calls find no more in the end, none fails, and no stop is requested.
abbrev pub Drains : List ReadCall → Type 0
Drains [] = ⊥
Drains (ReadCall.interrupted ∷ calls) = Drains calls
Drains (drained ∷ calls) = Unit
Drains (ReadCall.fails ∷ calls) = ⊥
Drains (events es true ∷ calls) = ⊥
Drains (events es false ∷ calls) = Drains calls

abbrev pub any : (Event → Bool) → List Event → Bool
any p [] = false
any p (e ∷ es) = p e || any p es

or_assoc : (a b c : Bool) → ((a || b) || c) ≡ (a || (b || c))
or_assoc true b c = refl
or_assoc false b c = refl

or_false : (a : Bool) → (a || false) ≡ a
or_false true = refl
or_false false = refl

any-append : (p : Event → Bool) (es fs : List Event) → any p (es ++ fs) ≡ (any p es || any p fs)
any-append p [] fs = refl
any-append p (e ∷ es) fs =
    ap (λ b. p e || b) (any-append p es fs) ∙ sym (or_assoc (p e) (any p es) (any p fs))

-- A buffer: whether the directory is gone, and whether the database has changed.
scan_events_lem :
    (basename : List ℕ) (change : Bool) (es : List Event)
    → scan_events basename change es
      ≡ (if any is_gone es then none else some (change || any (is_change basename) es))
unfolding scan_events
scan_events_lem basename change [] = ap some (sym (or_false change))
scan_events_lem basename change (e ∷ es) = elim (Bool-cases (is_gone e)) [
  | inl gone ↦ rw gone refl
  | inr there ↦ rw there (
      scan_events_lem basename (change || is_change basename e) es
      ∙ ap (λ b. if any is_gone es then none else some b)
          (or_assoc change (is_change basename e) (any (is_change basename) es)))
]

-- However the events come in buffers and whatever interrupts the reads: the watcher returns exactly if
-- one of them says that the directory is gone, and else the database has changed exactly if one of them
-- says so.
pub read_events_lem :
    (basename : List ℕ) (change : Bool) (calls : List ReadCall)
    → Drains calls
    → read_events basename change calls ≡ (
        if any is_gone (all_events calls)
        then returns
        else changed (change || any (is_change basename) (all_events calls)))
unfolding read_events
read_events_lem basename change [] d = absurd d
read_events_lem basename change (ReadCall.interrupted ∷ calls) d =
    read_events_lem basename change calls d
read_events_lem basename change (drained ∷ calls) d = ap changed (sym (or_false change))
read_events_lem basename change (ReadCall.fails ∷ calls) d = absurd d
read_events_lem basename change (events es true ∷ calls) d = absurd d
read_events_lem basename change (events es false ∷ calls) d = elim (Bool-cases (any is_gone es)) [
  | inl gone ↦
      let scan : scan_events basename change es ≡ none =
        scan_events_lem basename change es ∙ rw gone refl in
      rw (scan, read_events, any-append is_gone es (all_events calls), gone) refl
  | inr there ↦
      let now = change || any (is_change basename) es in
      let scan : scan_events basename change es ≡ some now =
        scan_events_lem basename change es ∙ rw there refl in
      let rest = read_events_lem basename now calls d in
      rw
        (
          scan,
          read_events,
          any-append is_gone es (all_events calls),
          there,
          any-append (is_change basename) es (all_events calls),
        )
        (rest
          ∙ ap (λ b. if any is_gone (all_events calls) then returns else changed b)
              (or_assoc change (any (is_change basename) es)
                (any (is_change basename) (all_events calls))))
]

-- The snapshot that a round loads, if any, and whether another round follows.
abbrev load_after : Loaded → Option (List ℕ) × Bool
load_after (snapshot copy) = (some copy, true)
load_after throws = (none, true)
load_after loading = (none, false)

abbrev load_on : ReadResult → Bool → Files → Option (List ℕ) × Bool
load_on returns stop files = (none, false)
load_on reading stop files = (none, false)
load_on (changed change) stop files =
    if change && not stop then load_after (load_snapshot files) else (none, true)

abbrev pub load_round : List ℕ → Round → Option (List ℕ) × Bool
load_round basename w = if w.stop_before then (none, false) else (elim w.poll [
  | Poll.interrupted ↦ (none, true)
  | Poll.fails ↦ (none, false)
  | stopped ↦ (none, false)
  | ready ↦ load_on (read_events basename false w.reads) w.stop_behind w.files
])

-- The snapshots that the rounds load, in their order, up to the round that ends the loop.
abbrev pub loads : List ℕ → List Round → List (List ℕ)
loads basename [] = []
loads basename (w ∷ ws) =
    let later : List (List ℕ) = if (load_round basename w).1 then loads basename ws else [] in
    elim (load_round basename w).0 [ none ↦ later | some copy ↦ copy ∷ later ]

-- The thread behind the rounds: it has returned if one of them ends the loop.
abbrev pub thread_after : List ℕ → List Round → Thread → Thread
thread_after basename [] thread = thread
thread_after basename (w ∷ ws) thread =
    let rest = thread_after basename ws thread in
    if (load_round basename w).1 then rest else returned

abbrev pub last_or : Option (List ℕ) → List (List ℕ) → Option (List ℕ)
last_or current [] = current
last_or current (s ∷ ss) = last_or (some s) ss

-- What is published after a round.
abbrev published : Reloadable → Option (List ℕ) → Reloadable
published r none = r
published r (some copy) = record r {
  current = some copy;
  reload_count = (r.reload_count + 1) % 2 ^ 64;
}

-- A result by what is loaded.
abbrev Publishes : Reloadable → Option (List ℕ) × Bool → Option (Reloadable × Bool) → Type 0
Publishes r (loaded, more) none = Unit {0}
Publishes r (loaded, more) (some (r', more')) = (r' ≡ published r loaded) × (more' ≡ more)

reload-Publishes :
    (x : Loaded) (r : Reloadable) → Publishes r (load_after x) (going_on (publish x r))
unfolding going_on publish
reload-Publishes (snapshot copy) r = (refl, refl)
reload-Publishes throws r = (refl, refl)
reload-Publishes loading r = tt

act_on-Publishes :
    (x : ReadResult) (stop : Bool) (files : Files) (r : Reloadable)
    → Publishes r (load_on x stop files) (act_on x stop files r)
unfolding act_on reload
act_on-Publishes returns stop files r = (refl, refl)
act_on-Publishes reading stop files r = tt
act_on-Publishes (changed change) stop files r = elim (Bool-cases (change && not stop)) [
  | inl wanted ↦ rw wanted (reload-Publishes (load_snapshot files) r)
  | inr not_now ↦ rw not_now (refl, refl)
]

round_fields :
    (stop_before : Bool) (poll : Poll) (reads : List ReadCall) (stop_behind : Bool) (files : Files)
    (r : Reloadable)
    → let w : Round = record {
      stop_before = stop_before;
      poll = poll;
      reads = reads;
      stop_behind = stop_behind;
      files = files;
    } in
      Publishes r (load_round r.basename w) (watch_round w r)
unfolding watch_round
round_fields true poll reads sb files r = (refl, refl)
round_fields false Poll.interrupted reads sb files r = (refl, refl)
round_fields false Poll.fails reads sb files r = (refl, refl)
round_fields false stopped reads sb files r = (refl, refl)
round_fields false ready reads sb files r =
    act_on-Publishes (read_events r.basename false reads) sb files r

-- What the rounds have published.
abbrev pub Watched : Reloadable → List (List ℕ) → Thread → Reloadable → Type 0
Watched r ss thread r' =
    (r'.current ≡ last_or r.current ss)
    × (r'.reload_count % 2 ^ 64 ≡ (r.reload_count + length ss) % 2 ^ 64)
    × (r'.basename ≡ r.basename)
    × (r'.inotify ≡ r.inotify)
    × (r'.stop_event ≡ r.stop_event)
    × (r'.watcher ≡ thread)

one_load :
    (r : Reloadable) (o : Option (List ℕ)) (ss : List (List ℕ)) (thread : Thread) (r' : Reloadable)
    → Watched (published r o) ss thread r'
    → Watched r (elim o [ none ↦ ss | some c ↦ c ∷ ss ]) thread r'
one_load r none ss thread r' w = w
one_load r (some c) ss thread r' (cur, n, b, i, e, w) = (cur, omega (arith, n), b, i, e, w)

none_loaded : (r : Reloadable) → Watched r [] r.watcher r
none_loaded r = (refl, omega arith, refl, refl, refl, refl)

-- The last round.
one_last :
    (r : Reloadable) (o : Option (List ℕ))
    → Watched r
        (elim o [ none ↦ [] | some c ↦ c ∷ [] ])
        returned
        (record (published r o) { watcher = returned })
one_last r none = (refl, omega arith, refl, refl, refl, refl)
one_last r (some c) = (refl, omega arith, refl, refl, refl, refl)

some-eq : (a b : Reloadable) → some a ≡ some b → a ≡ b
some-eq a b e = ap (value_or a) e
  where
    value_or : Reloadable → Option Reloadable → Reloadable
    value_or d none = d
    value_or d (some v) = v

Behind : List Round → Reloadable → Reloadable → Type 0
Behind ws r r' = Watched r (loads r.basename ws) (thread_after r.basename ws r.watcher) r'

-- The rounds behind, from the object that a round leaves.
next_rounds :
    (ws : List Round) (r' r : Reloadable) (o : Option (List ℕ))
    → Behind ws (published r o) r'
    → Watched (published r o) (loads r.basename ws) (thread_after r.basename ws r.watcher) r'
unfolding Behind
next_rounds ws r' r none w = w
next_rounds ws r' r (some c) w = w

watch_step :
    (ws : List Round) (r r' : Reloadable) (l : Option (List ℕ) × Bool)
    (o : Option (Reloadable × Bool))
    → Publishes r l o
    → (elim o as (λ _. Option Reloadable) [
      | none ↦ none
      | some (r₁, more) ↦ if more then watch ws r₁ else some (record r₁ { watcher = returned })
    ])
      ≡ some r'
    → ((r₁ : Reloadable) → watch ws r₁ ≡ some r' → Behind ws r₁ r')
    → let later : List (List ℕ) = if l.1 then loads r.basename ws else [] in
      let thread : Thread = if l.1 then thread_after r.basename ws r.watcher else returned in
      Watched r (elim l.0 [ none ↦ later | some copy ↦ copy ∷ later ]) thread r'
unfolding Behind
watch_step ws r r' (lo, lb) none p e ih = cc
watch_step ws r r' (lo, true) (some (r₁, true)) (same, more) e ih =
    let behind : Behind ws (published r lo) r' = ih (published r lo) (rw same at e) in
    one_load r lo (loads r.basename ws) (thread_after r.basename ws r.watcher) r'
      (next_rounds ws r' r lo behind)
watch_step ws r r' (lo, false) (some (r₁, true)) (same, more) e ih = absurd cc
watch_step ws r r' (lo, true) (some (r₁, false)) (same, more) e ih = absurd cc
watch_step ws r r' (lo, false) (some (r₁, false)) (same, more) e ih =
    let ended : record (published r lo) { watcher = returned } ≡ r' = some-eq _ r' (rw same at e) in
    rw (sym ended) (one_last r lo)

-- Whatever the rounds: the snapshot that is published is the last one loaded, or the one from before if
-- none is, and the reloads are counted, with 64 bits; a reload that fails changes nothing. The thread has
-- returned exactly if one of the rounds ends the loop.
pub watch_lem :
    (ws : List Round) (r r' : Reloadable)
    → watch ws r ≡ some r'
    → Watched r (loads r.basename ws) (thread_after r.basename ws r.watcher) r'
unfolding watch Behind
watch_lem [] r r' e = rw (sym (some-eq r r' e)) (none_loaded r)
watch_lem (w ∷ ws) r r' e =
    watch_step ws r r' (load_round r.basename w) (watch_round w r)
      (round_fields w.stop_before w.poll w.reads w.stop_behind w.files r) e
      (λ r₁ h. watch_lem ws r₁ r' h)
