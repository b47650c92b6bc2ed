-- ===== src/Tests/Tries.antt =====
-- Networks in a small trie, and its search tree.
use haproxy_spoa_firehol_mmd.Prelude.{
  ℕ, zero, suc, ◌+◌, ◌≡◌, ◌≢◌, ◌<◌, ◌≤◌, ◌%◌, refl, Bool, true, false, List, [], ◌∷◌, ◌++◌, Option,
  some, arith,
}
use haproxy_spoa_firehol_mmd.Prelude.Lists.{length, replicate}
use haproxy_spoa_firehol_mmd.Prelude.Int.{pos}
use haproxy_spoa_firehol_mmd.Utils.Ipv4.Spelling.{octet_text, quad_text}
use haproxy_spoa_firehol_mmd.Spoa.Database.{Library}
use haproxy_spoa_firehol_mmd.Builder.Used.{has, collect_used_data}
use haproxy_spoa_firehol_mmd.Builder.Used.Found.{Holds, collect_used_data_lem}
use haproxy_spoa_firehol_mmd.Builder.Trie.{Nodes, Tree, child, leaf_of, insert_bits, bit_at}
use haproxy_spoa_firehol_mmd.Builder.Trie.Walk.{Finds, IsTrie}
use haproxy_spoa_firehol_mmd.Builder.Trie.Insert.{IsTree, IsInserted, insert_bits_lem}
use haproxy_spoa_firehol_mmd.Builder.Prune.{prune_tree, prune_child, collapse}
use haproxy_spoa_firehol_mmd.Builder.Prune.Leaf.{Pruned}
use haproxy_spoa_firehol_mmd.Builder.Prune.Keeps.{prune_tree-Pruned}
use haproxy_spoa_firehol_mmd.Builder.Search.{
  search_tree, assign_node_ids, assign_child, number_node, resolve, tree_bytes, node_bytes,
  record_bytes,
}
use haproxy_spoa_firehol_mmd.Builder.Search.Lookup.{read_tree, location}
use haproxy_spoa_firehol_mmd.Builder.Search.Built.{search_tree_total, search_tree_lookup}
use haproxy_spoa_firehol_mmd.Builder.Search.Empty.{Full, search_tree_root}
use haproxy_spoa_firehol_mmd.Builder.Network.{NetworkEntry, insert_parsed, parse_network}
use haproxy_spoa_firehol_mmd.Builder.Network.Batch.{IsInsertedAll, insert_parsed_lem}
use haproxy_spoa_firehol_mmd.Builder.Network.Parse.{parse_network-quad_text}

-- A merge that adds, and counts its calls.
abbrev adds : ℕ → ℕ → ℕ → ℕ × ℕ
adds a b calls = (a + b, calls + 1)

abbrev lone_root : ℕ → Nodes
lone_root d = record { at = λ i. leaf_of d; size = 1 }

no_labels : ℕ → List Bool
no_labels i = []

lone_root-IsTrie : (d : ℕ) → IsTrie (lone_root d) no_labels
unfolding no_labels
lone_root-IsTrie d = record {
  some_node = omega arith;
  root = refl;
  below = λ i b h ne. absurd (ne (no_child b));
  labelled = λ i b h ne. absurd (ne (no_child b));
  short = λ i h. omega arith;
  leaves = λ i b h ne. no_child b;
}
  where
    no_child : (b : Bool) → child b (leaf_of d) ≡ 0
    no_child false = refl
    no_child true = refl

abbrev empty_tree : Tree ℕ
empty_tree = record { nodes = lone_root 0; ipv4_root = 0; pool = 0 }

empty_tree-IsTree : IsTree empty_tree
empty_tree-IsTree = record {
  labels = no_labels;
  trie = lone_root-IsTrie 0;
  shared = λ ne. absurd (ne refl);
}

-- 10.0.0.0/8 and 10.1.0.0/16
abbrev ten : List ℕ
ten = replicate 12 0 ++ (10 ∷ 0 ∷ 0 ∷ 0 ∷ [])

abbrev ten_one : List ℕ
ten_one = replicate 12 0 ++ (10 ∷ 1 ∷ 0 ∷ 0 ∷ [])

insert_bits_lem_example :
    (tree' : Tree ℕ) × (insert_bits adds 6 ten 104 5 empty_tree ≡ some tree')
    × IsInserted adds empty_tree tree' ten 104 5
insert_bits_lem_example =
    insert_bits_lem adds 6 ten 104 5 empty_tree empty_tree-IsTree (omega arith)

abbrev batch : List NetworkEntry
batch =
    record { bits = ten; prefix_len = 104; data_id = 5 }
    ∷ record { bits = ten_one; prefix_len = 112; data_id = 7 }
    ∷ []

insert_parsed_lem_example :
    (tree' : Tree ℕ) × (insert_parsed adds 6 batch empty_tree ≡ some tree')
    × IsInsertedAll adds empty_tree tree' batch
insert_parsed_lem_example =
    insert_parsed_lem adds 6 batch empty_tree empty_tree-IsTree (omega arith, (omega arith, tt))

-- The two halves of the addresses.
abbrev halves : ℕ → ℕ → Nodes
halves a b = record {
  at = λ i. elim i [
    | zero ↦ record { child0 = 1; child1 = 2; data_id = 0 }
    | suc j ↦ elim j [ zero ↦ leaf_of a | suc k ↦ leaf_of b ]
  ];
  size = 3;
}

abbrev half_labels : ℕ → List Bool
half_labels i = elim i [ zero ↦ [] | suc j ↦ elim j [ zero ↦ false ∷ [] | suc k ↦ true ∷ [] ] ]

halves-IsTrie : (a b : ℕ) → IsTrie (halves a b) half_labels
halves-IsTrie a b = record {
  some_node = omega arith;
  root = refl;
  below = below_of;
  labelled = labelled_of;
  short = short_of;
  leaves = leaves_of;
}
  where
    below_of :
        (i : ℕ) (c : Bool)
        → i < 3
        → child c ((halves a b).at i) ≢ 0
        → child c ((halves a b).at i) < 3
    below_of zero false h ne = omega arith
    below_of zero true h ne = omega arith
    below_of (suc zero) false h ne = absurd (ne refl)
    below_of (suc zero) true h ne = absurd (ne refl)
    below_of (suc (suc k)) false h ne = absurd (ne refl)
    below_of (suc (suc k)) true h ne = absurd (ne refl)

    labelled_of :
        (i : ℕ) (c : Bool)
        → i < 3
        → child c ((halves a b).at i) ≢ 0
        → half_labels (child c ((halves a b).at i)) ≡ c ∷ half_labels i
    labelled_of zero false h ne = refl
    labelled_of zero true h ne = refl
    labelled_of (suc zero) false h ne = absurd (ne refl)
    labelled_of (suc zero) true h ne = absurd (ne refl)
    labelled_of (suc (suc k)) false h ne = absurd (ne refl)
    labelled_of (suc (suc k)) true h ne = absurd (ne refl)

    short_of : (i : ℕ) → i < 3 → length (half_labels i) ≤ 128
    short_of zero h = omega arith
    short_of (suc zero) h = omega arith
    short_of (suc (suc k)) h = omega arith

    leaves_of :
        (i : ℕ) (c : Bool)
        → i < 3
        → ((halves a b).at i).data_id ≢ 0
        → child c ((halves a b).at i) ≡ 0
    leaves_of zero c h ne = absurd (ne refl)
    leaves_of (suc zero) false h ne = refl
    leaves_of (suc zero) true h ne = refl
    leaves_of (suc (suc k)) false h ne = refl
    leaves_of (suc (suc k)) true h ne = refl

-- Equal halves become one leaf.
prune_tree-Pruned_example :
    (d : ℕ) × (t' : Nodes) × (prune_tree 129 0 (halves 5 5) ≡ some (d, t'))
    × Pruned (halves 5 5) t' half_labels 0 d
prune_tree-Pruned_example =
    prune_tree-Pruned 129 0 (halves 5 5) half_labels (halves-IsTrie 5 5) (omega arith) (omega arith)

abbrev offsets : ℕ → ℕ
offsets d = d % 100

search_tree_total_example :
    (node_count : ℕ) × (bytes : List ℕ) × (search_tree (halves 5 6) offsets
      ≡ some (node_count, bytes))
search_tree_total_example = search_tree_total (halves 5 6) half_labels offsets (halves-IsTrie 5 6)

-- One node, and data at 5 and 6 behind the separator.
abbrev two_records : List ℕ
two_records = 0 ∷ 0 ∷ 22 ∷ 0 ∷ 0 ∷ 0 ∷ 23 ∷ []

halves_written : search_tree (halves 5 6) offsets ≡ some (1, two_records)
unfolding search_tree prune_tree prune_child collapse assign_node_ids assign_child number_node
    resolve tree_bytes node_bytes record_bytes
halves_written = refl

halves_found : Finds (halves 5 6) (128 ∷ []) 0 0 6
unfolding bit_at
halves_found = Finds.down 0 0 2 6 refl (λ e. absurd (omega arith)) (Finds.stop 2 1 6 refl refl)

search_tree_lookup_example :
    read_tree 128 1 two_records (128 ∷ []) 0 0 ≡ some (location 1 offsets 6)
search_tree_lookup_example =
    search_tree_lookup (halves 5 6) half_labels offsets 1 two_records (128 ∷ []) 6
      (halves-IsTrie 5 6) halves_written (omega arith) (λ d. omega arith) halves_found

-- Pruning collapses the root.
search_tree_root_example :
    (search_tree (halves 5 5) offsets ≡ some (0, [])) × ((a : List ℕ) → Finds (halves 5 5) a 0 0 5)
search_tree_root_example =
    search_tree_root (halves 5 5) half_labels offsets 5 (halves-IsTrie 5 5) (omega arith)
      (Full.forks 0 two_sides (Full.ends 1 refl refl) (Full.ends 2 refl refl))
  where
    two_sides : (b : Bool) → child b ((halves 5 5).at 0) ≢ 0
    two_sides false = omega arith
    two_sides true = omega arith

abbrev pub no_ipv6 : Library
no_ipv6 = record {
  lookup_sockaddr = λ octets. (record { found_entry = false; entry = 0 }, pos 0);
  lookup_name = λ text. (record { found_entry = false; entry = 0 }, pos 0, pos 0);
  get_value = λ offset step. Option.none;
  inet_pton = λ text. Option.none;
  invalid_data_error = pos 7;
}

parse_network-quad_text_example :
    parse_network no_ipv6 6 (quad_text 10 1 0 0 ++ (47 ∷ octet_text 16)) 7
    ≡ some (record {
      bits = replicate 12 0 ++ (10 ∷ 1 ∷ 0 ∷ 0 ∷ []);
      prefix_len = 16 + 96;
      data_id = 7;
    })
parse_network-quad_text_example =
    parse_network-quad_text no_ipv6 10 1 0 0 16 7 (omega arith) (omega arith) (omega arith)
      (omega arith) (omega arith)

collect_used_data_lem_example :
    (used : List ℕ) × (collect_used_data (halves 5 6) 129 0 [] ≡ some used)
    × ((a : List ℕ) (x : ℕ) → x ≢ 0 → Finds (halves 5 6) a 0 0 x → has x used ≡ true)
    × ((x : ℕ) → has x used ≡ true → Holds (halves 5 6) 0 x)
collect_used_data_lem_example = collect_used_data_lem (halves 5 6) half_labels (halves-IsTrie 5 6)
