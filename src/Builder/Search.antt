-- ===== src/Builder/Search.antt =====
-- src/mmdb_builder/builder.cpp: `assign_node_ids`, and the search tree that `build` writes. What the
-- buffer holds is written in pieces, one after the other. Node counts fit 32 bits.
pub mod Numbers
pub mod Records
pub mod Lookup
pub mod Built
pub mod Empty
use Prim.Native.Nat.{bit_or}
use haproxy_spoa_firehol_mmd.Prelude.{
  ℕ, zero, suc, ◌+◌, ◌*◌, ◌/◌, ◌%◌, ◌^◌, ◌==◌, Bool, true, false, not, ◌&&◌, List, [], ◌∷◌, ◌++◌,
  Option, none, some, if◌then◌else◌,
}
use haproxy_spoa_firehol_mmd.Builder.Trie.{TrieNode, Nodes, child}
use haproxy_spoa_firehol_mmd.Builder.Prune.{prune_tree}

abbrev pub no_id : ℕ
no_id = 0xFFFFFFFF

-- `next_id`, `mapping` and `ordered`
pub record Numbering : Type 0 where
  pub next_id : ℕ
  pub mapping : ℕ → ℕ
  pub ordered : List ℕ

abbrev pub unnumbered : Numbering
unnumbered = record { next_id = 0; mapping = λ i. no_id; ordered = [] }

abbrev pub is_leaf : TrieNode → Bool
is_leaf n = n.child0 == 0 && n.child1 == 0

unfoldable pub number_node : ℕ → Numbering → Numbering
number_node i s = record {
  next_id = suc s.next_id;
  mapping = λ j. if j == i then s.next_id else s.mapping j;
  ordered = s.ordered ++ (i ∷ []);
}

unfoldable pub assign_child :
    (ℕ → Numbering → Option Numbering) → Bool → TrieNode → Numbering → Option Numbering
assign_child assign b n s = if child b n == 0 then some s else assign (child b n) s

-- `none` is fuel that runs out.
unfoldable pub assign_node_ids : Nodes → ℕ → ℕ → Numbering → Option Numbering
assign_node_ids t zero i s = none
assign_node_ids t (suc fuel) i s =
    let assign : ℕ → Numbering → Option Numbering = λ c. assign_node_ids t fuel c in
    if is_leaf (t.at i)
    then some s
    else (elim (assign_child assign false (t.at i) (number_node i s)) [
      | none ↦ none
      | some s' ↦ assign_child assign true (t.at i) s'
    ])

-- What is written for a child: the ID of a node, or where data is, or `node_count` for nothing.
unfoldable pub resolve : Nodes → Numbering → (ℕ → ℕ) → ℕ → ℕ
resolve t s data_offsets c =
    if c == 0
    then s.next_id
    else if not (s.mapping c == no_id)
    then s.mapping c
    else if (t.at c).data_id == 0
    then s.next_id
    else s.next_id + 16 + data_offsets (t.at c).data_id

-- Two records of 28 bits.
unfoldable pub record_bytes : ℕ → ℕ → List ℕ
record_bytes left right =
    left / 65536 % 256
    ∷ left / 256 % 256
    ∷ left % 256
    ∷ bit_or (left / 16777216 % 16 * 16) (right / 16777216 % 16)
    ∷ right / 65536 % 256
    ∷ right / 256 % 256
    ∷ right % 256
    ∷ []

unfoldable pub node_bytes : Nodes → Numbering → (ℕ → ℕ) → ℕ → List ℕ
node_bytes t s data_offsets i =
    record_bytes (resolve t s data_offsets (t.at i).child0)
      (resolve t s data_offsets (t.at i).child1)

unfoldable pub tree_bytes : Nodes → Numbering → (ℕ → ℕ) → List ℕ → List ℕ
tree_bytes t s data_offsets [] = []
tree_bytes t s data_offsets (i ∷ is) =
    node_bytes t s data_offsets i ++ tree_bytes t s data_offsets is

-- The node count and the search tree of `build`.
unfoldable pub search_tree : Nodes → (ℕ → ℕ) → Option (ℕ × List ℕ)
search_tree t data_offsets = elim (prune_tree 129 0 t) [
  | none ↦ none
  | some (d, pruned) ↦ elim (assign_node_ids pruned 129 0 unnumbered) [
    | none ↦ none
    | some s ↦ some (s.next_id, tree_bytes pruned s data_offsets s.ordered)
  ]
]
