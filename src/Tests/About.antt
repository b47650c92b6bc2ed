-- ===== src/Tests/About.antt =====
-- The description of a database.
use haproxy_spoa_firehol_mmd.Prelude.{true, [], ◌∷◌, ◌≡◌, refl, none, some}
use haproxy_spoa_firehol_mmd.Prelude.Text.{ascii}
use haproxy_spoa_firehol_mmd.Utils.Strings.{group_thousands, group_loop}
use haproxy_spoa_firehol_mmd.Spoa.Database.{digits_loop}
use haproxy_spoa_firehol_mmd.Spoa.Metadata.{
  Metadata, metadata_string, or_unknown, join_languages, more_languages, first_description, decimal,
  format_epoch,
}

abbrev metadata : Metadata
metadata = record {
  database_type = none;
  ip_version = 6;
  record_size = 28;
  node_count = 12345;
  binary_format_major_version = 2;
  binary_format_minor_version = 0;
  build_epoch = 0;
  languages = some (ascii "en") ∷ none ∷ [];
  descriptions = none ∷ [];
}

metadata_printed :
    metadata_string (λ epoch. none) true metadata
    ≡ ascii
        "type=? ip_version=6 record_size=28 node_count=12 345 format=2.0 built_at= languages=en,? description="
unfolding metadata_string or_unknown join_languages more_languages first_description decimal
    format_epoch group_thousands group_loop digits_loop
metadata_printed = refl
