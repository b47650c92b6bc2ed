-- ===== src/Compiler/Pooled.antt =====
-- The pool of the builder behind `process_file`: the record of a file as `update_did` of
-- src/firehol_blocklist_ipsets/compiler.cpp builds it, stored by src/mmdb_builder/builder.cpp.
use haproxy_spoa_firehol_mmd.Prelude.{ℕ, ◌≢◌, refl, List, [], ◌∷◌, Option, arith}
use haproxy_spoa_firehol_mmd.Prelude.Text.{ascii}
use haproxy_spoa_firehol_mmd.Spoa.Database.{Library}
use haproxy_spoa_firehol_mmd.Spoa.Categories.{bytes_lt}
use haproxy_spoa_firehol_mmd.Builder.Pool.{Data, object, Pool, store}
use haproxy_spoa_firehol_mmd.Builder.Pool.Intern.{IsPool}
use haproxy_spoa_firehol_mmd.Builder.Pool.Cells.{
  cells, RecordAt, RecordAt-Grown, IsAscending, store-RecordAt,
}
use haproxy_spoa_firehol_mmd.Builder.Network.{parse_network}
use haproxy_spoa_firehol_mmd.Compiler.{Columns, Store, process_file}
use haproxy_spoa_firehol_mmd.Compiler.File.{Processed, process_file_lem}

-- The members of the object, by their keys.
abbrev pub columns_of : Columns → List (List ℕ × List ℕ)
columns_of c =
    (ascii "category", c.metadata.category)
    ∷ (ascii "file_name", c.file_name)
    ∷ (ascii "list_source_url", c.metadata.list_source_url)
    ∷ (ascii "maintainer", c.metadata.maintainer)
    ∷ (ascii "maintainer_url", c.metadata.maintainer_url)
    ∷ (ascii "source_file_date_rfc3339", c.metadata.source_file_date_rfc3339)
    ∷ []

abbrev pub columns_data : Columns → Data
columns_data c = object (cells (columns_of c))

pub columns_of-IsAscending : (c : Columns) → IsAscending (columns_of c)
unfolding bytes_lt
columns_of-IsAscending c = (refl, (refl, (refl, (refl, (refl, tt)))))

-- A pool that calls of `store` have led to.
pub record ValidPool : Type 0 where
  pub pool : Pool
  pub valid : IsPool pool

abbrev pub store_columns : Columns → ValidPool → ℕ × ValidPool
store_columns c p =
    let result = store-RecordAt (columns_of c) p.pool p.valid (columns_of-IsAscending c) in
    (
      (store (columns_data c) p.pool).0,
      record { pool = (store (columns_data c) p.pool).1; valid = result.0 },
    )

pub store_columns-positive : (c : Columns) (p : ValidPool) → (store_columns c p).0 ≢ 0
store_columns-positive c p zero_id =
    let (fields, h, hs) =
      (store-RecordAt (columns_of c) p.pool p.valid (columns_of-IsAscending c)).2 in
    absurd (omega (arith, h.positive, zero_id))

-- The builder's pool keeps what the reader relies on.
abbrev pub data_pool : Store
data_pool = record {
  Pool = ValidPool;
  store_data = store_columns;
  Stands = λ p i c. RecordAt p.pool i (columns_of c);
  stored = λ c p. (store-RecordAt (columns_of c) p.pool p.valid (columns_of-IsAscending c)).2;
  nonzero = store_columns-positive;
  kept = λ c d i p stands.
      RecordAt-Grown p.pool (store (columns_data c) p.pool).1 i (columns_of d)
        (store-RecordAt (columns_of c) p.pool p.valid (columns_of-IsAscending c)).1 stands;
}

-- Reading a blocklist into the builder's pool always ends. It hands over, in batches of at most 32768,
-- exactly the networks that the lines of the file list, in their order, each with an ID under which the
-- pool then holds the record of the file's name and the metadata in force at its line, and counts them
-- and ends with the last metadata; or it throws, and then a date or a network of the file cannot be read.
pub process_file_stored :
    (lib : Library) (parse_date : List ℕ → Option (List ℕ)) (file_name text : List ℕ)
    (pool : ValidPool)
    → Processed data_pool parse_date
        (parse_network lib 6)
        file_name
        text
        (process_file data_pool parse_date (parse_network lib 6) file_name text pool)
process_file_stored lib parse_date file_name text pool =
    process_file_lem data_pool parse_date (parse_network lib 6) file_name text pool
