-- ===== src/Spoa/Metadata.antt =====
-- `metadata_string` of src/mmdb/mmdb.cpp. A pointer of the library that may be null is an Option; the UTC
-- time that `gmtime_r` and `strftime` print is a parameter, `none` where `gmtime_r` fails.
use haproxy_spoa_firehol_mmd.Prelude.{
  ℕ, Bool, not, List, [], ◌∷◌, ◌++◌, Option, none, some, if◌then◌else◌,
}
use haproxy_spoa_firehol_mmd.Prelude.Text.{ascii}
use haproxy_spoa_firehol_mmd.Utils.Strings.{group_thousands}
use haproxy_spoa_firehol_mmd.Spoa.Database.{digits_loop}

-- What `metadata_string` reads of `MMDB_metadata_s`; a description is its text, if it has one.
pub record Metadata : Type 0 where
  pub database_type : Option (List ℕ)
  pub ip_version : ℕ
  pub record_size : ℕ
  pub node_count : ℕ
  pub binary_format_major_version : ℕ
  pub binary_format_minor_version : ℕ
  pub build_epoch : ℕ
  pub languages : List (Option (List ℕ))
  pub descriptions : List (Option (List ℕ))

unfoldable pub or_unknown : Option (List ℕ) → List ℕ
or_unknown none = ascii "?"
or_unknown (some text) = text

-- The languages behind the first, each after a comma.
unfoldable pub more_languages : List (Option (List ℕ)) → List ℕ
more_languages [] = []
more_languages (name ∷ names) = ascii "," ++ or_unknown name ++ more_languages names

unfoldable pub join_languages : List (Option (List ℕ)) → List ℕ
join_languages [] = []
join_languages (name ∷ names) = or_unknown name ++ more_languages names

unfoldable pub first_description : List (Option (List ℕ)) → List ℕ
first_description (some text ∷ others) = text
first_description (none ∷ others) = []
first_description [] = []

unfoldable pub decimal : ℕ → List ℕ
decimal n = digits_loop 20 n []

module _ (utc_text : ℕ → Option (List ℕ)) where
  unfoldable pub format_epoch : ℕ → List ℕ
  format_epoch epoch = elim (utc_text epoch) [ none ↦ [] | some text ↦ text ]

  unfoldable pub metadata_string : Bool → Metadata → List ℕ
  metadata_string is_open m =
      if not is_open
      then ascii "(database not open)"
      else ascii "type="
        ++ or_unknown m.database_type
        ++ ascii " ip_version="
        ++ decimal m.ip_version
        ++ ascii " record_size="
        ++ decimal m.record_size
        ++ ascii " node_count="
        ++ group_thousands (decimal m.node_count)
        ++ ascii " format="
        ++ decimal m.binary_format_major_version
        ++ ascii "."
        ++ decimal m.binary_format_minor_version
        ++ ascii " built_at="
        ++ format_epoch m.build_epoch
        ++ ascii " languages="
        ++ join_languages m.languages
        ++ ascii " description="
        ++ first_description m.descriptions
