-- ===== src/Builder/Network.antt =====
-- src/mmdb_builder/builder.cpp: `parse_network`, `insert_parsed` and `insert_network`. `std::from_chars` is
-- the reading of decimal digits. A network that is refused leaves no entry that anything reads.
pub mod Parse
pub mod Batch
use haproxy_spoa_firehol_mmd.Prelude.{
  ℕ, zero, suc, ◌+◌, ◌-◌, ◌*◌, ◌==◌, Bool, true, false, ◌||◌, List, [], ◌∷◌, ◌++◌, Option, none,
  some, ltb, if◌then◌else◌,
}
use haproxy_spoa_firehol_mmd.Prelude.Lists.{length, replicate}
use haproxy_spoa_firehol_mmd.Utils.Ipv4.{is_digit, parse_ipv4}
use haproxy_spoa_firehol_mmd.Utils.Strings.{split_at}
use haproxy_spoa_firehol_mmd.Spoa.Database.{Library, parse_ipv6}
use haproxy_spoa_firehol_mmd.Builder.Trie.{Tree, insert_bits}

-- `NetworkEntry`
pub record NetworkEntry : Type 0 where
  pub bits : List ℕ
  pub prefix_len : ℕ
  pub data_id : ℕ

-- `from_chars` on a text that has to be used up; three digits fit.
unfoldable pub digits_value : ℕ → List ℕ → Option ℕ
digits_value value [] = some value
digits_value value (c ∷ cs) =
    let more = digits_value (value * 10 + (c - 48)) cs in if is_digit c then more else none

-- The text behind the slash.
unfoldable pub parse_prefix : List ℕ → Option ℕ
parse_prefix text = if length text == 0 || ltb 3 (length text) then none else digits_value 0 text

unfoldable pub ipv4_entry : ℕ → ℕ → List ℕ → ℕ → Option NetworkEntry
ipv4_entry ip_version data_id v4 prefix =
    if ltb 32 prefix
    then none
    else some (record {
      bits = if ip_version == 6 then replicate 12 0 ++ v4 else v4 ++ replicate 12 0;
      prefix_len = if ip_version == 6 then prefix + 96 else prefix;
      data_id = data_id;
    })

unfoldable pub ipv6_entry : Library → ℕ → ℕ → List ℕ → ℕ → Option NetworkEntry
ipv6_entry lib ip_version data_id ip prefix =
    if ip_version == 4 then none else (elim (parse_ipv6 lib ip) [
      | none ↦ none
      | some octets ↦
          if ltb 128 prefix
          then none
          else some (record { bits = octets; prefix_len = prefix; data_id = data_id })
    ])

unfoldable pub or_default : Option ℕ → ℕ → ℕ
or_default none n = n
or_default (some m) n = m

-- The address, with the prefix that is written, if one is.
unfoldable pub parse_address : Library → ℕ → ℕ → List ℕ → Option ℕ → Option NetworkEntry
parse_address lib ip_version data_id ip explicit_prefix = elim (parse_ipv4 ip) [
  | some v4 ↦ ipv4_entry ip_version data_id v4 (or_default explicit_prefix 32)
  | none ↦ ipv6_entry lib ip_version data_id ip (or_default explicit_prefix 128)
]

unfoldable pub parse_network : Library → ℕ → List ℕ → ℕ → Option NetworkEntry
parse_network lib ip_version cidr data_id = elim (split_at 47 cidr) [
  | none ↦ parse_address lib ip_version data_id cidr none
  | some (ip, text) ↦ elim (parse_prefix text) [
    | none ↦ none
    | some prefix ↦ parse_address lib ip_version data_id ip (some prefix)
  ]
]

module _ {Pool : Type 0} (deep_merge : ℕ → ℕ → Pool → ℕ × Pool) where
  -- `none` is fuel that runs out.
  unfoldable pub insert_parsed : ℕ → List NetworkEntry → Tree Pool → Option (Tree Pool)
  insert_parsed ip_version [] tree = some tree
  insert_parsed ip_version (e ∷ es) tree =
      elim (insert_bits deep_merge ip_version e.bits e.prefix_len e.data_id tree) [
        | none ↦ none
        | some tree' ↦ insert_parsed ip_version es tree'
      ]

  -- Whether the text is a network, and the tree.
  unfoldable pub insert_network : Library → ℕ → List ℕ → ℕ → Tree Pool → Option (Bool × Tree Pool)
  insert_network lib ip_version cidr data_id tree =
      elim (parse_network lib ip_version cidr data_id) [
        | none ↦ some (false, tree)
        | some entry ↦ elim (insert_parsed ip_version (entry ∷ []) tree) [
          | none ↦ none
          | some tree' ↦ some (true, tree')
        ]
      ]
