-- ===== src/Builder/Prune.antt =====
-- src/mmdb_builder/builder.cpp: `prune_tree_parallel`. The two tasks of a node work on the nodes of
-- different subtrees and are joined before the node is looked at again; here one runs after the other.
pub mod Leaf
pub mod Keeps
use haproxy_spoa_firehol_mmd.Prelude.{
  ℕ, zero, suc, ◌==◌, Bool, true, false, not, ◌&&◌, Option, none, some, if◌then◌else◌,
}
use haproxy_spoa_firehol_mmd.Builder.Trie.{TrieNode, Nodes, child, write, leaf_of}

-- Equal data of both sides becomes the data of the node.
unfoldable pub collapse : ℕ → ℕ → ℕ → Nodes → ℕ × Nodes
collapse i d0 d1 t =
    if not (d0 == 0) && not (d1 == 0) && d0 == d1 then (d0, write t i (leaf_of d0)) else (0, t)

unfoldable pub prune_child :
    (ℕ → Nodes → Option (ℕ × Nodes)) → Bool → ℕ → Nodes → Option (ℕ × Nodes)
prune_child prune b i t = if child b (t.at i) == 0 then some (0, t) else prune (child b (t.at i)) t

-- `none` is fuel that runs out.
unfoldable pub prune_tree : ℕ → ℕ → Nodes → Option (ℕ × Nodes)
prune_tree zero i t = none
prune_tree (suc fuel) i t =
    let prune : ℕ → Nodes → Option (ℕ × Nodes) = λ c. prune_tree fuel c in
    if (t.at i).child0 == 0 && (t.at i).child1 == 0
    then some ((t.at i).data_id, t)
    else (elim (prune_child prune false i t) [
      | none ↦ none
      | some (d0, t') ↦ elim (prune_child prune true i t') [
        | none ↦ none
        | some (d1, t'') ↦ some (collapse i d0 d1 t'')
      ]
    ])
