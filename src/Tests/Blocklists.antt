-- ===== src/Tests/Blocklists.antt =====
-- A blocklist of two networks under different categories.
use haproxy_spoa_firehol_mmd.Prelude.{
  ℕ, List, [], ◌∷◌, ◌++◌, Option, none, some, ◌==◌, if◌then◌else◌,
}
use haproxy_spoa_firehol_mmd.Prelude.Text.{ascii}
use haproxy_spoa_firehol_mmd.Builder.Network.{NetworkEntry, parse_network}
use haproxy_spoa_firehol_mmd.Compiler.{process_file}
use haproxy_spoa_firehol_mmd.Compiler.File.{Processed}
use haproxy_spoa_firehol_mmd.Compiler.Pooled.{ValidPool, data_pool, process_file_stored}
use haproxy_spoa_firehol_mmd.Builder.Pool.{empty_pool}
use haproxy_spoa_firehol_mmd.Builder.Pool.Intern.{empty_pool-IsPool}
use haproxy_spoa_firehol_mmd.Tests.Tries.{no_ipv6}

abbrev pub no_records : ValidPool
no_records = record { pool = empty_pool; valid = empty_pool-IsPool }

-- Every line of digits is a network.
abbrev pub any_network : List ℕ → ℕ → Option NetworkEntry
any_network [] id = none
any_network (c ∷ cs) id =
    if c == 120 then none else some (record { bits = c ∷ []; prefix_len = 8; data_id = id })

abbrev pub blocklist : List ℕ
blocklist =
    ascii "# Category: spam"
    ++ (13 ∷ 10 ∷ [])
    ++ ascii "10.0.0.0/8"
    ++ (10 ∷ 10 ∷ [])
    ++ ascii "# Category : abuse"
    ++ (10 ∷ [])
    ++ ascii " 7.0.0.0/8"

process_file_stored_example :
    Processed data_pool
      (λ date. some date)
      (parse_network no_ipv6 6)
      (ascii "a.netset")
      blocklist
      (process_file data_pool
        (λ date. some date)
        (parse_network no_ipv6 6)
        (ascii "a.netset")
        blocklist
        no_records)
process_file_stored_example =
    process_file_stored no_ipv6 (λ date. some date) (ascii "a.netset") blocklist no_records
