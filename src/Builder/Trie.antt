-- ===== src/Builder/Trie.antt =====
-- src/mmdb_builder/builder.cpp: the trie of networks. The vector `nodes_` is a function with a size, which
-- nothing reads at an index past the size; the nodes that fit an index of 32 bits.
pub mod Walk
pub mod Attach
pub mod Below
pub mod Descend
pub mod Sides
pub mod Merge
pub mod Prefix
pub mod Insert
use haproxy_spoa_firehol_mmd.Prelude.{
  ℕ, zero, suc, ◌+◌, ◌-◌, ◌/◌, ◌%◌, ◌^◌, ◌==◌, Bool, true, false, ◌&&◌, ◌||◌, List, [], ◌∷◌, Option,
  none, some, leb, if◌then◌else◌, bytes_eq,
}
use haproxy_spoa_firehol_mmd.Prelude.Lists.{take, replicate, get_or}

-- `TrieNode`
pub record TrieNode : Type 0 where
  pub child0 : ℕ
  pub child1 : ℕ
  pub data_id : ℕ

-- `nodes_`
pub record Nodes : Type 0 where
  pub at : ℕ → TrieNode
  pub size : ℕ

abbrev pub child : Bool → TrieNode → ℕ
child false n = n.child0
child true n = n.child1

abbrev pub set_child : Bool → ℕ → TrieNode → TrieNode
set_child false c n = record n { child0 = c }
set_child true c n = record n { child1 = c }

abbrev pub write : Nodes → ℕ → TrieNode → Nodes
write t i n = record t { at = λ j. if j == i then n else t.at j }

abbrev pub leaf_of : ℕ → TrieNode
leaf_of d = record { child0 = 0; child1 = 0; data_id = d }

abbrev pub set_data : Nodes → ℕ → ℕ → Nodes
set_data t i d = write t i (record (t.at i) { data_id = d })

unfoldable pub alloc_node : Nodes → Nodes × ℕ
alloc_node t =
    (record t { at = λ j. if j == t.size then leaf_of 0 else t.at j; size = suc t.size }, t.size)

-- `nodes_[i].children[b] = alloc_node()`
unfoldable pub attach : Nodes → ℕ → Bool → Nodes
unfolding alloc_node
attach t i b = let (t', c) = alloc_node t in write t' i (set_child b c (t'.at i))

-- The same, and the data of the new node.
unfoldable pub attach_data : Nodes → ℕ → Bool → ℕ → Nodes
unfolding attach
attach_data t i b d = let t' = attach t i b in set_data t' (child b (t'.at i)) d

-- The bit of an address at a depth, from the front.
unfoldable pub bit_at : List ℕ → ℕ → Bool
bit_at bits depth = get_or bits (depth / 8) 0 / 2 ^ (7 - depth % 8) % 2 == 1

-- A node with data hands it to two children.
unfoldable pub split : Nodes → ℕ → Nodes
split t i =
    let d = (t.at i).data_id in
    if d == 0 then t else attach_data (attach_data (set_data t i 0) i false d) i true d

unfoldable pub ensure_child : Nodes → ℕ → Bool → Nodes
ensure_child t i b = if child b (t.at i) == 0 then attach t i b else t

-- The loop of `descend` for the depths that are left.
unfoldable pub descend : Nodes → ℕ → ℕ → List ℕ → ℕ → Nodes × ℕ
descend t current depth bits zero = (t, current)
descend t current depth bits (suc depths) =
    let bit = bit_at bits depth in
    let t' = ensure_child (split t current) current bit in
    descend t' (child bit (t'.at current)) (suc depth) bits depths

-- The members that an insertion changes.
pub record Tree (Pool : Type 0) : Type 0 where
  pub nodes : Nodes
  pub ipv4_root : ℕ
  pub pool : Pool

-- `kZeroBits`
abbrev pub zeros : List ℕ
zeros = replicate 16 0

-- An IPv4 network of an IPv6 tree is below ::/96.
unfoldable pub is_ipv4 : ℕ → List ℕ → ℕ → Bool
is_ipv4 ip_version bits prefix_len =
    ip_version == 6 && leb 96 prefix_len && bytes_eq (take 12 bits) (take 12 zeros)

-- The node of ::/96, which is kept once it is there.
unfoldable pub shared_node : Nodes → ℕ → Nodes × ℕ
shared_node nodes ipv4_root =
    if ipv4_root == 0 then descend nodes 0 0 zeros 96 else (nodes, ipv4_root)

-- The node that an insertion descends to, and `ipv4_root_`.
unfoldable pub descend_from : {Pool : Type 0} → ℕ → List ℕ → ℕ → Tree Pool → (Nodes × ℕ) × ℕ
descend_from ip_version bits prefix_len tree =
    let shared = shared_node tree.nodes tree.ipv4_root in
    if is_ipv4 ip_version bits prefix_len
    then (descend shared.0 shared.1 96 bits (prefix_len - 96), shared.1)
    else (descend tree.nodes 0 0 bits prefix_len, tree.ipv4_root)

-- The pool of records is what `deep_merge` reads and changes.
module _ {Pool : Type 0} (deep_merge : ℕ → ℕ → Pool → ℕ × Pool) where
  -- The data of a leaf, with what is merged into it.
  unfoldable pub merge_data : ℕ → ℕ → Pool → ℕ × Pool
  merge_data existing new_data pool =
      if existing == 0 || existing == new_data
      then (new_data, pool)
      else deep_merge existing new_data pool

  unfoldable pub merge_leaf : ℕ → ℕ → Nodes → Pool → Nodes × Pool
  unfolding merge_data
  merge_leaf i new_data t pool =
      let (d, pool') = merge_data (t.at i).data_id new_data pool in (set_data t i d, pool')

  unfoldable pub merge_child :
      (ℕ → Nodes → Pool → Option (Nodes × Pool))
      → Bool
      → ℕ
      → ℕ
      → Nodes
      → Pool
      → Option (Nodes × Pool)
  unfolding attach_data
  merge_child merge b i new_data t pool =
      if child b (t.at i) == 0
      then some (attach_data t i b new_data, pool)
      else merge (child b (t.at i)) t pool

  -- `none` is fuel that runs out.
  unfoldable pub merge_subtree : ℕ → ℕ → ℕ → Nodes → Pool → Option (Nodes × Pool)
  unfolding merge_leaf merge_child
  merge_subtree zero i new_data t pool = none
  merge_subtree (suc fuel) i new_data t pool =
      let merge : ℕ → Nodes → Pool → Option (Nodes × Pool) = λ c. merge_subtree fuel c new_data in
      if (t.at i).child0 == 0 && (t.at i).child1 == 0
      then some (merge_leaf i new_data t pool)
      else (elim (merge_child merge false i new_data t pool) [
        | none ↦ none
        | some (t', pool') ↦ merge_child merge true i new_data t' pool'
      ])

  unfoldable pub insert_bits : ℕ → List ℕ → ℕ → ℕ → Tree Pool → Option (Tree Pool)
  insert_bits ip_version bits prefix_len new_data tree =
      let (reached, ipv4_root) = descend_from ip_version bits prefix_len tree in
      elim (merge_subtree 129 reached.1 new_data reached.0 tree.pool) [
        | none ↦ none
        | some (nodes, pool) ↦ some (record { nodes = nodes; ipv4_root = ipv4_root; pool = pool })
      ]
