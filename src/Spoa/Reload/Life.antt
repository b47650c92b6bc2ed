-- ===== src/Spoa/Reload/Life.antt =====
-- The life of the object: opened, watched, closed.
use haproxy_spoa_firehol_mmd.Prelude.{
  ℕ, ◌≡◌, ◌≢◌, refl, sym, ap, ◌∙◌, Bool, true, false, List, [], Option, none, some, ◌⊎◌, inl, inr,
  Bool-cases,
}
use haproxy_spoa_firehol_mmd.Spoa.Reload.{
  Opening, OpenError, open_published, keep_descriptors, start_watcher, clear_current,
  reset_descriptors, close, open_database, open_behind, absent, running, Loaded, snapshot, throws,
  loading, CopyResult, copied, failed, copying, copy_contents, load_snapshot, Files, Reloadable,
  stop_watcher, Round, watch,
}
use haproxy_spoa_firehol_mmd.Spoa.Reload.Copy.{copy_contents_whole}

abbrev pub is_some : Option (List ℕ) → Bool
is_some none = false
is_some (some s) = true

CopyResult-cases :
    (x : CopyResult) → ((c : List ℕ) × (x ≡ copied c)) ⊎ ((x ≡ failed) ⊎ (x ≡ copying))
CopyResult-cases (copied c) = inl (c, refl)
CopyResult-cases failed = inr (inl refl)
CopyResult-cases copying = inr (inr refl)

-- A snapshot that is loaded is the whole file that stood at the path.
pub load_snapshot_whole :
    (files : Files) (source copy : List ℕ)
    → files.source ≡ some source
    → load_snapshot files ≡ snapshot copy
    → copy ≡ source
unfolding load_snapshot
load_snapshot_whole files source copy e h = elim (Bool-cases files.has_tmpfile) [
  | inr none_there ↦ absurd (throws_not copy (rw (e, none_there, load_snapshot) at h))
  | inl there ↦ elim (CopyResult-cases (copy_contents files.calls false source [])) [
    | inl (c, done) ↦ elim (Bool-cases (files.opens c)) [
      | inl fine ↦
          (let same = snapshot_inj c copy (rw (e, there, done, fine, load_snapshot) at h) in
            sym same ∙ copy_contents_whole files.calls false source [] c done)
      | inr bad ↦ absurd (throws_not copy (rw (e, there, done, bad, load_snapshot) at h))
    ]
    | inr (inl bad) ↦ absurd (throws_not copy (rw (e, there, bad, load_snapshot) at h))
    | inr (inr bad) ↦ absurd (loading_not copy (rw (e, there, bad, load_snapshot) at h))
  ]
]
  where
    throws_not : (c : List ℕ) → throws ≡ snapshot c → ⊥
    throws_not c h = cc

    loading_not : (c : List ℕ) → loading ≡ snapshot c → ⊥
    loading_not c h = cc

    content : Loaded → List ℕ
    content (snapshot c) = c
    content throws = []
    content loading = []

    snapshot_inj : (a b : List ℕ) → snapshot a ≡ snapshot b → a ≡ b
    snapshot_inj a b h = ap content h

-- Where the thread that calls `open` and `close` stands: between two calls, behind one of the steps of
-- `open`, or behind one of those of `close`.
pub data Place : Type 0 where
  idle published_first armed joined cleared : Place

-- Readers have a snapshot exactly while the descriptors are open.
abbrev pub Matched : Reloadable → Type 0
Matched r = (r.stop_event ≡ r.inotify) × (is_some r.current ≡ r.inotify)

-- What holds of the object at each place.
abbrev pub IsConsistent : Place → Reloadable → Type 0
IsConsistent idle r = Matched r × (r.watcher ≢ absent → r.inotify ≡ true)
IsConsistent published_first r =
    (is_some r.current ≡ true) × (r.inotify ≡ false) × (r.stop_event ≡ false) × (r.watcher ≡ absent)
IsConsistent armed r =
    (is_some r.current ≡ true) × (r.inotify ≡ true) × (r.stop_event ≡ true) × (r.watcher ≡ absent)
IsConsistent joined r = Matched r × (r.watcher ≡ absent)
IsConsistent cleared r = (r.current ≡ none) × (r.stop_event ≡ r.inotify) × (r.watcher ≡ absent)

-- What every place has: a thread that can be joined has its two descriptors, and a snapshot is published.
abbrev pub Guarded : Reloadable → Type 0
Guarded r =
    r.watcher ≢ absent → (r.inotify ≡ true) × (r.stop_event ≡ true) × (is_some r.current ≡ true)

-- The moments of an object's life: the steps of `open` and `close`, in their order, and between them the
-- rounds of a watcher that runs.
pub data Lives : Place → Reloadable → Type 0 where
  fresh :
      (r : Reloadable)
      → r.watcher ≡ absent
      → r.inotify ≡ false
      → r.stop_event ≡ false
      → r.current ≡ none
      → Lives idle r
  refused :
      (r r' : Reloadable) (o : Opening) (e : OpenError)
      → Lives idle r
      → open_published o r ≡ (some e, r')
      → Lives idle r'
  opened :
      (r r' : Reloadable) (o : Opening)
      → Lives idle r
      → open_published o r ≡ (none, r')
      → Lives published_first r'
  kept : (r : Reloadable) → Lives published_first r → Lives armed (keep_descriptors r)
  started : (r : Reloadable) (starts : Bool) → Lives armed r → Lives idle (start_watcher starts r).1
  watched :
      (r r' : Reloadable) (at : Place) (ws : List Round)
      → Lives at r
      → r.watcher ≡ running
      → watch ws r ≡ some r'
      → Lives at r'
  stopped : (r : Reloadable) → Lives idle r → Lives joined (stop_watcher r)
  emptied : (r : Reloadable) → Lives joined r → Lives cleared (clear_current r)
  closed : (r : Reloadable) → Lives cleared r → Lives idle (reset_descriptors r)

-- What `open` makes of the object up to the publication.
abbrev Opened : Reloadable → Option OpenError × Reloadable → Type 0
Opened r (none, r') =
    (is_some r'.current ≡ true)
    × (r.inotify ≡ false)
    × (r'.inotify ≡ r.inotify)
    × (r'.stop_event ≡ r.stop_event)
    × (r'.watcher ≡ r.watcher)
Opened r (some e, r') =
    (r'.current ≡ r.current)
    × (r'.inotify ≡ r.inotify)
    × (r'.stop_event ≡ r.stop_event)
    × (r'.watcher ≡ r.watcher)

-- The whole calls are these steps.
pub Lives-close : (r : Reloadable) → Lives idle r → Lives idle (close r)
unfolding close
Lives-close r l = closed (clear_current (stop_watcher r)) (emptied (stop_watcher r) (stopped r l))

pub Lives-open_database :
    (o : Opening) (r : Reloadable) → Lives idle r → Lives idle (open_database o r).1
unfolding open_database open_behind
Lives-open_database o r l = by_result (open_published o r).0 (open_published o r).1 refl
  where
    by_result :
        (e : Option OpenError) (r' : Reloadable)
        → open_published o r ≡ (e, r')
        → Lives idle (open_behind o.thread (e, r')).1
    by_result none r' e = started (keep_descriptors r') o.thread (kept r' (opened r r' o l e))
    by_result (some x) r' e = refused r r' o x l e
