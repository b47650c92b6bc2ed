-- ===== src/Tests/Mappings.antt =====
-- Objects that own mappings.
use haproxy_spoa_firehol_mmd.Prelude.{ℕ, ◌+◌, true, List, [], ◌∷◌, arith}
use haproxy_spoa_firehol_mmd.Prelude.Int.{ℤ, pos}
use haproxy_spoa_firehol_mmd.Prelude.Text.{ascii}
use haproxy_spoa_firehol_mmd.Spoa.Mapping.{Mmdb, Mappings, close, open_path, move_assign}
use haproxy_spoa_firehol_mmd.Spoa.Mapping.Balance.{Balanced, owns, times, ownership_kept}

abbrev one : Mmdb
one = record { handle = 1; is_open = true; path = ascii "a.mmdb" }

abbrev two : Mmdb
two = record { handle = 2; is_open = true; path = ascii "b.mmdb" }

abbrev mappings : Mappings
mappings = record { live = 2 ∷ 1 ∷ []; next = 3 }

abbrev no_others : ℕ → ℕ
no_others h = 0

one-Balanced : Balanced (λ h. no_others h + owns h two) one mappings
unfolding times
one-Balanced = record { owned = λ h. ground arith; used = omega arith }

abbrev missing : List ℕ → ℤ
missing path = pos 1

ownership_kept_example :
    let (closed, s₁) = close one mappings in
    let (thrown, opened, s₂) = open_path missing (ascii "c.mmdb") one mappings in
    let (assigned, two', s₃) = move_assign [] one two mappings in
    Balanced (λ h. no_others h + owns h two) closed s₁
    × Balanced (λ h. no_others h + owns h two) opened s₂
    × Balanced (λ h. no_others h + owns h two') assigned s₃
ownership_kept_example =
    ownership_kept missing no_others (ascii "c.mmdb") [] one two mappings one-Balanced
