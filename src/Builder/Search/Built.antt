-- ===== src/Builder/Search/Built.antt =====
-- The search tree of a database, from the trie to the bytes.
use haproxy_spoa_firehol_mmd.Prelude.{
  ℕ, suc, ◌+◌, ◌^◌, ◌<◌, ◌≡◌, refl, sym, ap, ◌∙◌, Bool, true, false, List, arith, some, inl, inr,
  Bool-cases,
}
use haproxy_spoa_firehol_mmd.Prelude.Lists.{length}
use haproxy_spoa_firehol_mmd.Builder.Trie.{Nodes}
use haproxy_spoa_firehol_mmd.Builder.Trie.Walk.{Finds, IsTrie}
use haproxy_spoa_firehol_mmd.Builder.Prune.Leaf.{Pruned}
use haproxy_spoa_firehol_mmd.Builder.Prune.Keeps.{prune_tree-Pruned}
use haproxy_spoa_firehol_mmd.Builder.Search.{
  Numbering, unnumbered, is_leaf, assign_node_ids, tree_bytes, search_tree,
}
use haproxy_spoa_firehol_mmd.Builder.Search.Numbers.{self, Assigned, assign_node_ids-Assigned}
use haproxy_spoa_firehol_mmd.Builder.Search.Lookup.{read_tree, location, read_tree-Finds}

-- What `search_tree` is made of.
record IsBuilt (t : Nodes) (l : ℕ → List Bool) (data_offsets : ℕ → ℕ) : Type 0 where
  root_data : ℕ
  nodes : Nodes
  pruned : Pruned t nodes l 0 root_data
  numbering : Numbering
  numbered : assign_node_ids nodes 129 0 unnumbered ≡ some numbering
  assigned : Assigned nodes l 0 unnumbered numbering
  result :
      search_tree t data_offsets
      ≡ some (numbering.next_id, tree_bytes nodes numbering data_offsets numbering.ordered)

search_tree-IsBuilt :
    (t : Nodes) (l : ℕ → List Bool) (data_offsets : ℕ → ℕ) → IsTrie t l → IsBuilt t l data_offsets
unfolding search_tree
search_tree-IsBuilt t l data_offsets s =
    let (d, t', e, m) = prune_tree-Pruned 129 0 t l s s.some_node (omega arith) in
    let (n, f, v) =
      assign_node_ids-Assigned t' l m.trie 129 0 unnumbered m.trie.some_node refl (omega arith) in
    record {
      root_data = d;
      nodes = t';
      pruned = m;
      numbering = n;
      numbered = f;
      assigned = v;
      result = rw (e, f, search_tree) refl;
    }

-- Whatever the trie, `build` gets a search tree.
pub search_tree_total :
    (t : Nodes) (l : ℕ → List Bool) (data_offsets : ℕ → ℕ)
    → IsTrie t l
    → (node_count : ℕ) × (bytes : List ℕ) × (search_tree t data_offsets ≡ some (node_count, bytes))
search_tree_total t l data_offsets s =
    let b = search_tree-IsBuilt t l data_offsets s in
    (b.numbering.next_id, tree_bytes b.nodes b.numbering data_offsets b.numbering.ordered, b.result)

pub assign_leaf :
    (t : Nodes) (fuel i : ℕ) (s : Numbering)
    → is_leaf (t.at i) ≡ true
    → assign_node_ids t (suc fuel) i s ≡ some s
unfolding assign_node_ids
assign_leaf t fuel i s leaf = rw leaf refl

some-inj : (a b : Numbering) → some a ≡ some b → a.next_id ≡ b.next_id
some-inj a b e = cc

-- A search tree that has nodes and fits 28 bits gives, for every address, where the data is that the
-- trie has for the address, and `node_count` exactly for an address without data.
pub search_tree_lookup :
    (t : Nodes) (l : ℕ → List Bool) (data_offsets : ℕ → ℕ) (node_count : ℕ) (bytes a : List ℕ)
    (x : ℕ)
    → IsTrie t l
    → search_tree t data_offsets ≡ some (node_count, bytes)
    → 0 < node_count
    → ((d : ℕ) → node_count + 16 + data_offsets d < 2 ^ 28)
    → Finds t a 0 0 x
    → read_tree 128 node_count bytes a 0 0 ≡ some (location node_count data_offsets x)
search_tree_lookup t l data_offsets node_count bytes a x s e nonempty fits f =
    let b = search_tree-IsBuilt t l data_offsets s in
    let same = sym b.result ∙ e in
    let count : b.numbering.next_id ≡ node_count = cc in
    let written : tree_bytes b.nodes b.numbering data_offsets b.numbering.ordered ≡ bytes = cc in
    let inner = inner_root b count in
    let looked =
      read_tree-Finds b.nodes l b.pruned.trie b.numbering b.assigned data_offsets
        (λ d. rw count (fits d)) 128 0 0 x a b.pruned.trie.some_node (self 0) inner
        (ap length s.root) (omega arith) (b.pruned.finds a 0 x f) in
    rw (count, written, b.assigned.first inner) at looked
  where
    inner_root :
        (b : IsBuilt t l data_offsets)
        → b.numbering.next_id ≡ node_count
        → is_leaf (b.nodes.at 0) ≡ false
    inner_root b count = elim (Bool-cases (is_leaf (b.nodes.at 0))) [
      | inl leaf ↦
          (let none_there =
              some-inj _ _ (sym (assign_leaf b.nodes 128 0 unnumbered leaf) ∙ b.numbered) in
            absurd (omega arith))
      | inr inner ↦ inner
    ]
