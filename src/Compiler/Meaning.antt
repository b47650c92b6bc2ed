-- ===== src/Compiler/Meaning.antt =====
-- What the lines of a blocklist mean, without the state of the reader: the networks that are listed, each
-- with the metadata in force.
use haproxy_spoa_firehol_mmd.Prelude.{
  ℕ, ◌≡◌, ◌==◌, refl, List, [], ◌∷◌, Option, none, some, if◌then◌else◌, inl, inr, Bool-cases,
  Option-cases,
}
use haproxy_spoa_firehol_mmd.Utils.Strings.{trim, split_at}
use haproxy_spoa_firehol_mmd.Builder.Network.{NetworkEntry}
use haproxy_spoa_firehol_mmd.Compiler.{
  Metadata, Store, Slot, slot_of, set_slot, slot_value, invalid_date, State, Step, goes_on, throws,
  change_slot, read_slot, read_comment, read_entry, read_line, chomp,
}

-- A line: nothing, a new value of a slot, a date that cannot be read, or a network.
pub data Meaning : Type 0 where
  nothing : Meaning
  sets : Slot → List ℕ → Meaning
  bad_date : Meaning
  lists : List ℕ → Meaning

module _ (parse_date : List ℕ → Option (List ℕ)) where
  abbrev value_meaning : Slot → Option (List ℕ) → Meaning
  value_meaning slot none = bad_date
  value_meaning slot (some v) = sets slot v

  abbrev key_meaning : Option Slot → List ℕ → Meaning
  key_meaning none value = nothing
  key_meaning (some slot) value = value_meaning slot (slot_value parse_date slot value)

  abbrev comment_meaning : Option (List ℕ × List ℕ) → Meaning
  comment_meaning none = nothing
  comment_meaning (some (key, value)) = key_meaning (slot_of (trim key)) (trim value)

  abbrev entry_meaning : List ℕ → Meaning
  entry_meaning [] = nothing
  entry_meaning (d ∷ ds) = lists (d ∷ ds)

  unfoldable pub meaning : List ℕ → Meaning
  meaning [] = nothing
  meaning (c ∷ cs) =
      if c == 35 then comment_meaning (split_at 58 cs) else entry_meaning (trim (c ∷ cs))

  -- The metadata after a line, and the network that it lists with its metadata.
  abbrev pub metadata_after : Meaning → Metadata → Metadata
  metadata_after (sets slot v) m = set_slot slot v m
  metadata_after nothing m = m
  metadata_after bad_date m = m
  metadata_after (lists text) m = m

  abbrev pub listed_by : Meaning → Metadata → List (Metadata × List ℕ) → List (Metadata × List ℕ)
  listed_by (lists text) m more = (m, text) ∷ more
  listed_by nothing m more = more
  listed_by bad_date m more = more
  listed_by (sets slot v) m more = more

  -- The networks of the lines, from the metadata in front of them.
  unfoldable pub listed : Metadata → List (List ℕ) → List (Metadata × List ℕ)
  listed m [] = []
  listed m (line ∷ lines) =
      let more = listed (metadata_after (meaning (chomp line)) m) lines in
      listed_by (meaning (chomp line)) m more

  unfoldable pub last_metadata : Metadata → List (List ℕ) → Metadata
  last_metadata m [] = m
  last_metadata m (line ∷ lines) = last_metadata (metadata_after (meaning (chomp line)) m) lines

  module _ (s : Store) (parse_network : List ℕ → ℕ → Option NetworkEntry) where
    -- What the reader does for a line.
    unfoldable pub act :
        List ℕ → Meaning → State s parse_date parse_network → Step s parse_date parse_network
    act file_name nothing st = goes_on st
    act file_name (sets slot v) st = goes_on (change_slot s parse_date parse_network slot v st)
    act file_name bad_date st = throws (invalid_date st.line_number)
    act file_name (lists text) st = read_entry s parse_date parse_network file_name text st

    read_slot-act :
        (file_name : List ℕ) (slot : Slot) (value : List ℕ) (st : State s parse_date parse_network)
        → read_slot s parse_date parse_network slot value st
          ≡ act file_name (value_meaning slot (slot_value parse_date slot value)) st
    unfolding read_slot act
    read_slot-act file_name slot value st = elim (Option-cases (slot_value parse_date slot value)) [
      | inl bad ↦ rw (bad, read_slot) refl
      | inr (v, good) ↦ rw (good, read_slot) refl
    ]

    read_comment-act :
        (file_name comment : List ℕ) (st : State s parse_date parse_network)
        → read_comment s parse_date parse_network comment st
          ≡ act file_name (comment_meaning (split_at 58 comment)) st
    unfolding read_comment act
    read_comment-act file_name comment st = elim (Option-cases (split_at 58 comment)) [
      | inl bare ↦ rw (bare, read_comment) refl
      | inr ((key, value), colon) ↦ elim (Option-cases (slot_of (trim key))) [
        | inl unknown ↦ rw (colon, unknown, read_comment) refl
        | inr (slot, known) ↦
            rw (colon, known, read_comment) (read_slot-act file_name slot (trim value) st)
      ]
    ]

    entry-act :
        (file_name text : List ℕ) (st : State s parse_date parse_network)
        → (elim text as (λ _. Step s parse_date parse_network) [
          | [] ↦ goes_on st
          | d ∷ ds ↦ read_entry s parse_date parse_network file_name (d ∷ ds) st
        ])
          ≡ act file_name (entry_meaning text) st
    unfolding act
    entry-act file_name [] st = refl
    entry-act file_name (d ∷ ds) st = refl

    -- A line does what it means.
    pub read_line-act :
        (file_name line : List ℕ) (st : State s parse_date parse_network)
        → read_line s parse_date parse_network file_name line st ≡ act file_name (meaning line) st
    unfolding read_line meaning act
    read_line-act file_name [] st = refl
    read_line-act file_name (c ∷ cs) st = elim (Bool-cases (c == 35)) [
      | inl hash ↦ rw hash (read_comment-act file_name cs st)
      | inr other ↦ rw other (entry-act file_name (trim (c ∷ cs)) st)
    ]
