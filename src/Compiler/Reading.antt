-- ===== src/Compiler/Reading.antt =====
-- The networks that `process_file` hands over are those that the file lists, each stored with the
-- metadata in force.
use haproxy_spoa_firehol_mmd.Prelude.{
  ℕ, ◌+◌, ◌<◌, ◌≤◌, ◌≡◌, ◌≢◌, ◌==◌, refl, sym, ap, ◌∙◌, true, false, List, [], ◌∷◌, ◌++◌, Option,
  none, some, arith, ltb, inl, inr, Bool-cases, append_assoc, append-nil, bytes_eq, bytes_eq→eq,
}
use haproxy_spoa_firehol_mmd.Prelude.Lists.{length, length-append, All}
use haproxy_spoa_firehol_mmd.Builder.Network.{NetworkEntry}
use haproxy_spoa_firehol_mmd.Compiler.{
  Metadata, Columns, Store, Slot, get_slot, set_slot, out_of_fuel, State, Step, goes_on, throws,
  change_slot, take_parsed, read_entry, push_network, update_did, flush, insert_batch_size,
}
use haproxy_spoa_firehol_mmd.Compiler.Meaning.{
  Meaning, nothing, sets, bad_date, lists, metadata_after, listed_by, act,
}

abbrev pub concat : List (List NetworkEntry) → List NetworkEntry
concat [] = []
concat (b ∷ bs) = b ++ concat bs

pub concat-snoc :
    (bs : List (List NetworkEntry)) (b : List NetworkEntry)
    → concat (bs ++ (b ∷ [])) ≡ concat bs ++ b
concat-snoc [] b = append-nil b
concat-snoc (c ∷ bs) b = ap (λ v. c ++ v) (concat-snoc bs b) ∙ sym (append_assoc c (concat bs) b)

pub All-snoc :
    {A : Type 0} (P : A → Type 0) (xs : List A) (x : A) → All P xs → P x → All P (xs ++ (x ∷ []))
All-snoc P [] x h p = (p, tt)
All-snoc P (y ∷ xs) x (q, h) p = (q, All-snoc P xs x h p)

-- A slot that has the value already.
unchanged : (slot : Slot) (v : List ℕ) (m : Metadata) → get_slot slot m ≡ v → m ≡ set_slot slot v m
unchanged Slot.category v m e = rw (sym e) refl
unchanged Slot.maintainer_url v m e = rw (sym e) refl
unchanged Slot.maintainer v m e = rw (sym e) refl
unchanged Slot.list_source_url v m e = rw (sym e) refl
unchanged Slot.source_file_date v m e = rw (sym e) refl

module _ (s : Store) (parse_date : List ℕ → Option (List ℕ))
    (parse_network : List ℕ → ℕ → Option NetworkEntry) (file_name : List ℕ) where
  -- An entry is the network of the text, with the ID of the record of the file and the metadata.
  abbrev pub Linked : s.Pool → Metadata × List ℕ → NetworkEntry → Type 0
  Linked pool (m, text) e =
      (id : ℕ) × (parse_network text id ≡ some e)
      × s.Stands pool id (record { file_name = file_name; metadata = m })

  abbrev pub Recorded : s.Pool → List (Metadata × List ℕ) → List NetworkEntry → Type 0
  Recorded pool [] [] = Unit {0}
  Recorded pool [] (e ∷ es) = ⊥
  Recorded pool (p ∷ ps) [] = ⊥
  Recorded pool (p ∷ ps) (e ∷ es) = Linked pool p e × Recorded pool ps es

  Recorded-snoc :
      (pool : s.Pool) (ps : List (Metadata × List ℕ)) (es : List NetworkEntry)
      (p : Metadata × List ℕ) (e : NetworkEntry)
      → Recorded pool ps es
      → Linked pool p e
      → Recorded pool (ps ++ (p ∷ [])) (es ++ (e ∷ []))
  Recorded-snoc pool [] [] p e r l = (l, tt)
  Recorded-snoc pool [] (x ∷ es) p e r l = absurd r
  Recorded-snoc pool (q ∷ ps) [] p e r l = absurd r
  Recorded-snoc pool (q ∷ ps) (x ∷ es) p e (k, r) l = (k, Recorded-snoc pool ps es p e r l)

  -- Storing more changes nothing of it.
  Recorded-store :
      (pool : s.Pool) (c : Columns) (ps : List (Metadata × List ℕ)) (es : List NetworkEntry)
      → Recorded pool ps es
      → Recorded (s.store_data c pool).1 ps es
  Recorded-store pool c [] [] r = tt
  Recorded-store pool c [] (x ∷ es) r = absurd r
  Recorded-store pool c (q ∷ ps) [] r = absurd r
  Recorded-store pool c (q ∷ ps) (x ∷ es) ((id, parsed, stands), r) =
      ((id, parsed, s.kept c _ id pool stands), Recorded-store pool c ps es r)

  abbrev St : Type 0
  St = State s parse_date parse_network

  abbrev pub entries : State s parse_date parse_network → List NetworkEntry
  entries st = concat st.flushed ++ st.batch

  abbrev pub FitsBatch : List NetworkEntry → Type 0
  FitsBatch b = length b ≤ insert_batch_size

  -- The state between two lines, with the networks listed so far.
  pub record Inv (st : State s parse_date parse_network) (ps : List (Metadata × List ℕ))
      : Type 0 where
    pub recorded : Recorded st.pool ps (entries st)
    pub current :
        st.did ≢ 0
        → s.Stands st.pool st.did (record { file_name = file_name; metadata = st.metadata })
    pub counted : st.did ≢ 0 → 0 < st.network_count
    pub total : st.total_networks ≡ length ps
    pub room : length st.batch < insert_batch_size
    pub sizes : All FitsBatch st.flushed

  change_slot-Inv :
      (slot : Slot) (v : List ℕ) (st : State s parse_date parse_network)
      (ps : List (Metadata × List ℕ))
      → Inv st ps
      → Inv (change_slot s parse_date parse_network slot v st) ps
  unfolding change_slot
  change_slot-Inv slot v st ps i = elim (Bool-cases (bytes_eq (get_slot slot st.metadata) v)) [
    | inl same ↦ rw same i
    | inr other ↦ rw other (elim (Bool-cases (ltb 0 st.network_count)) [
      | inl some_read ↦ rw some_read (record {
        recorded = i.recorded;
        current = λ ne. absurd (ne refl);
        counted = λ ne. absurd (ne refl);
        total = i.total;
        room = i.room;
        sizes = i.sizes;
      })
      | inr none_read ↦ rw none_read (record {
        recorded = i.recorded;
        current = λ ne. (let n = i.counted ne in absurd (ground arith));
        counted = i.counted;
        total = i.total;
        room = i.room;
        sizes = i.sizes;
      })
    ])
  ]

  -- The state in front of a network: its ID is that of the record with the metadata in force.
  record Ready (st : State s parse_date parse_network) (ps : List (Metadata × List ℕ))
      (m : Metadata) : Type 0 where
    recorded : Recorded st.pool ps (entries st)
    current : s.Stands st.pool st.did (record { file_name = file_name; metadata = m })
    same : st.metadata ≡ m
    total : st.total_networks ≡ length ps
    room : length st.batch < insert_batch_size
    sizes : All FitsBatch st.flushed

  update_did-Ready :
      (st : State s parse_date parse_network) (ps : List (Metadata × List ℕ))
      → Inv st ps
      → Ready (update_did s parse_date parse_network file_name st) ps st.metadata
  unfolding update_did
  update_did-Ready st ps i =
      let c : Columns = record { file_name = file_name; metadata = st.metadata } in
      record {
        recorded = Recorded-store st.pool c ps (entries st) i.recorded;
        current = s.stored c st.pool;
        same = refl;
        total = i.total;
        room = i.room;
        sizes = i.sizes;
      }

  pushed_entries :
      (st : State s parse_date parse_network) (e : NetworkEntry)
      → concat (st.flushed ++ ((st.batch ++ (e ∷ [])) ∷ [])) ++ [] ≡ entries st ++ (e ∷ [])
  pushed_entries st e =
      append-nil (concat (st.flushed ++ ((st.batch ++ (e ∷ [])) ∷ [])))
      ∙ concat-snoc st.flushed (st.batch ++ (e ∷ []))
      ∙ sym (append_assoc (concat st.flushed) st.batch (e ∷ []))

  push_network-Inv :
      (e : NetworkEntry) (text : List ℕ) (st : State s parse_date parse_network)
      (ps : List (Metadata × List ℕ)) (m : Metadata)
      → Ready st ps m
      → parse_network text st.did ≡ some e
      → Inv (push_network s parse_date parse_network e st) (ps ++ ((m, text) ∷ []))
  unfolding push_network flush
  push_network-Inv e text st ps m r parsed =
      let linked : Linked st.pool (m, text) e = (st.did, parsed, r.current) in
      let more = Recorded-snoc st.pool ps (entries st) (m, text) e r.recorded linked in
      let longer = length-append st.batch (e ∷ []) in
      let one_more : st.total_networks + 1 ≡ length (ps ++ ((m, text) ∷ [])) =
        omega (arith, r.total, length-append ps ((m, text) ∷ [])) in
      elim (Bool-cases (length (st.batch ++ (e ∷ [])) == insert_batch_size)) [
        | inl full ↦ rw full (record {
          recorded = rw (pushed_entries st e) more;
          current = λ _. rw r.same r.current;
          counted = λ _. omega arith;
          total = one_more;
          room = omega arith;
          sizes = All-snoc FitsBatch st.flushed (st.batch ++ (e ∷ [])) r.sizes (ground arith);
        })
        | inr space ↦ rw space (record {
          recorded = rw (sym (append_assoc (concat st.flushed) st.batch (e ∷ []))) more;
          current = λ _. rw r.same r.current;
          counted = λ _. omega arith;
          total = one_more;
          room = ground (arith, r.room, longer);
          sizes = r.sizes;
        })
      ]

  -- What a step makes of the networks listed so far; `Why` is the reason of an exception.
  abbrev pub After :
      Type 0 → Step s parse_date parse_network → List (Metadata × List ℕ) → Metadata → Type 0
  After Why (goes_on st) ps m = Inv st ps × (st.metadata ≡ m)
  After Why (throws e) ps m = (e ≢ out_of_fuel) × Why

  -- The network is refused.
  abbrev pub Refused : List ℕ → Type 0
  Refused text = (id : ℕ) × (parse_network text id ≡ none)

  -- The line cannot be read.
  abbrev pub Broken : Meaning → Type 0
  Broken nothing = ⊥
  Broken (sets slot v) = ⊥
  Broken bad_date = Unit {0}
  Broken (lists text) = Refused text

  push_network-metadata :
      (e : NetworkEntry) (st : State s parse_date parse_network)
      → (push_network s parse_date parse_network e st).metadata ≡ st.metadata
  unfolding push_network flush
  push_network-metadata e st =
      elim (Bool-cases (length (st.batch ++ (e ∷ [])) == insert_batch_size)) [
        | inl full ↦ rw full refl
        | inr space ↦ rw space refl
      ]

  read_entry_unset :
      (text : List ℕ) (st : State s parse_date parse_network)
      → (st.did == 0) ≡ true
      → let u = update_did s parse_date parse_network file_name st in
        read_entry s parse_date parse_network file_name text st
        ≡ take_parsed s parse_date parse_network text u (parse_network text u.did)
  unfolding read_entry
  read_entry_unset text st e = rw (e, read_entry) refl

  read_entry_set :
      (text : List ℕ) (st : State s parse_date parse_network)
      → (st.did == 0) ≡ false
      → read_entry s parse_date parse_network file_name text st
        ≡ take_parsed s parse_date parse_network text st (parse_network text st.did)
  unfolding read_entry
  read_entry_set text st e = rw (e, read_entry) refl

  entry_with :
      (text : List ℕ) (st : State s parse_date parse_network) (ps : List (Metadata × List ℕ))
      (m : Metadata) (parsed : Option NetworkEntry)
      → parse_network text st.did ≡ parsed
      → Ready st ps m
      → After
          (Refused text)
          (take_parsed s parse_date parse_network text st parsed)
          (ps ++ ((m, text) ∷ []))
          m
  unfolding take_parsed
  entry_with text st ps m none e r = (λ f. cc, (st.did, e))
  entry_with text st ps m (some p) e r =
      (push_network-Inv p text st ps m r e, push_network-metadata p st ∙ r.same)

  -- A network: the record is stored first, if it is not.
  read_entry-After :
      (text : List ℕ) (st : State s parse_date parse_network) (ps : List (Metadata × List ℕ))
      → Inv st ps
      → After
          (Refused text)
          (read_entry s parse_date parse_network file_name text st)
          (ps ++ ((st.metadata, text) ∷ []))
          st.metadata
  unfolding read_entry
  read_entry-After text st ps i = elim (Bool-cases (st.did == 0)) [
    | inl unset ↦
        let u = update_did s parse_date parse_network file_name st in
        rw (read_entry_unset text st unset) (
          entry_with text u ps st.metadata (parse_network text u.did) refl
            (update_did-Ready st ps i))
    | inr set_before ↦
        let ne : st.did ≢ 0 = λ z. ground arith in
        rw (read_entry_set text st set_before) (
          entry_with text st ps st.metadata (parse_network text st.did) refl (record {
            recorded = i.recorded;
            current = i.current ne;
            same = refl;
            total = i.total;
            room = i.room;
            sizes = i.sizes;
          }))
  ]

  change_slot-metadata :
      (slot : Slot) (v : List ℕ) (st : State s parse_date parse_network)
      → (change_slot s parse_date parse_network slot v st).metadata ≡ set_slot slot v st.metadata
  unfolding change_slot
  change_slot-metadata slot v st = elim (Bool-cases (bytes_eq (get_slot slot st.metadata) v)) [
    | inl same ↦
        rw same (unchanged slot v st.metadata (bytes_eq→eq (get_slot slot st.metadata) v same))
    | inr other ↦ rw other refl
  ]

  pub act-After :
      (line : Meaning) (st : State s parse_date parse_network) (ps : List (Metadata × List ℕ))
      → Inv st ps
      → After
          (Broken line)
          (act parse_date s parse_network file_name line st)
          (ps ++ listed_by parse_date line st.metadata [])
          (metadata_after parse_date line st.metadata)
  unfolding act
  act-After nothing st ps i = (rw (append-nil ps) i, refl)
  act-After (sets slot v) st ps i =
      (rw (append-nil ps) (change_slot-Inv slot v st ps i), change_slot-metadata slot v st)
  act-After bad_date st ps i = (λ e. cc, tt)
  act-After (lists text) st ps i = read_entry-After text st ps i
