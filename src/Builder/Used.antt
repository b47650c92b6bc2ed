-- ===== src/Builder/Used.antt =====
-- `collect_used_data_parallel` of src/mmdb_builder/builder.cpp: the IDs of the records that the trie uses.
-- The two branches of the parallel walk fill sets of their own, which are joined; they are run in order
-- into one set here. A set is the list of its members.
pub mod Found
use haproxy_spoa_firehol_mmd.Prelude.{
  ℕ, zero, suc, ◌==◌, Bool, true, false, ◌||◌, List, [], ◌∷◌, Option, none, some, if◌then◌else◌,
}
use haproxy_spoa_firehol_mmd.Builder.Trie.{TrieNode, Nodes, child}
use haproxy_spoa_firehol_mmd.Builder.Search.{is_leaf}

unfoldable pub has : ℕ → List ℕ → Bool
has x [] = false
has x (y ∷ ys) = x == y || has x ys

unfoldable pub insert_used : ℕ → List ℕ → List ℕ
insert_used x used = if x == 0 || has x used then used else x ∷ used

unfoldable pub collect_child :
    (ℕ → List ℕ → Option (List ℕ)) → Bool → TrieNode → List ℕ → Option (List ℕ)
collect_child collect b n used = if child b n == 0 then some used else collect (child b n) used

unfoldable pub collect_used_data : Nodes → ℕ → ℕ → List ℕ → Option (List ℕ)
collect_used_data t zero i used = none
collect_used_data t (suc fuel) i used =
    let collect : ℕ → List ℕ → Option (List ℕ) = λ c u. collect_used_data t fuel c u in
    if is_leaf (t.at i)
    then some (insert_used (t.at i).data_id used)
    else (elim (collect_child collect false (t.at i) used) [
      | none ↦ none
      | some used' ↦ collect_child collect true (t.at i) used'
    ])
