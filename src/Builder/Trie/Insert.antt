-- ===== src/Builder/Trie/Insert.antt =====
-- `insert_bits`: the network that is inserted is merged into what its addresses find, with the shortcut
-- to the IPv4 networks or without it.
use haproxy_spoa_firehol_mmd.Prelude.{
  ℕ, ◌-◌, ◌<◌, ◌≤◌, ◌≡◌, ◌≢◌, ◌==◌, refl, sym, ap, ◌∙◌, Bool, true, List, arith, some, bytes_eq→eq,
  inl, inr, Bool-cases,
}
use haproxy_spoa_firehol_mmd.Prelude.Lists.{length, take}
use haproxy_spoa_firehol_mmd.Builder.Trie.{
  Nodes, Tree, descend, merge_subtree, insert_bits, zeros, is_ipv4, shared_node, descend_from,
}
use haproxy_spoa_firehol_mmd.Builder.Trie.Walk.{
  Finds, Way, IsTrie, Grows, Way-trans, Way-Grows, Way-label, bits_to,
}
use haproxy_spoa_firehol_mmd.Builder.Trie.Attach.{Refined, Refined-refl, Refined-trans}
use haproxy_spoa_firehol_mmd.Builder.Trie.Descend.{Descended, descend-Descended}
use haproxy_spoa_firehol_mmd.Builder.Trie.Below.{length-bits_to}
use haproxy_spoa_firehol_mmd.Builder.Trie.Merge.{merge_subtree-Merged}
use haproxy_spoa_firehol_mmd.Builder.Trie.Prefix.{
  agrees, Way-agree, bit_at-take, Inserted, Finds-Inserted,
}

-- The node that is kept is that of ::/96.
abbrev pub IsShared : Nodes → ℕ → Type 0
IsShared t root = root ≢ 0 → Way t zeros 0 0 root 96

pub record IsTree {Pool : Type 0} (tree : Tree Pool) : Type 0 where
  pub labels : ℕ → List Bool
  pub trie : IsTrie tree.nodes labels
  pub shared : IsShared tree.nodes tree.ipv4_root

-- A way to the end of a prefix that changes nothing of what an address finds.
record Reached (t t' : Nodes) (l : ℕ → List Bool) (bits : List ℕ) (r n : ℕ) : Type 0 where
  labels : ℕ → List Bool
  refined : Refined t t' l labels
  inside : r < t'.size
  way : Way t' bits 0 0 r n
  label : labels r ≡ bits_to bits n

Reached-of :
    (t t' : Nodes) (l : ℕ → List Bool) (bits : List ℕ) (i k r n : ℕ)
    → IsTrie t l
    → Way t bits 0 0 i k
    → Descended t t' l bits i k r n
    → Reached t t' l bits r n
unfolding bits_to
Reached-of t t' l bits i k r n s w d =
    let w' =
      Way-trans t' bits 0 0 i k r n
        (Way-Grows t t' l d.labels s d.refined.grows bits 0 0 i k s.some_node w) d.way in
    record {
      labels = d.labels;
      refined = d.refined;
      inside = d.inside;
      way = w';
      label =
          (Way-label t' d.labels d.refined.trie bits 0 0 r n d.refined.trie.some_node w'
            d.refined.trie.root).1;
    }

-- From the root.
from_root :
    (t : Nodes) (l : ℕ → List Bool) (bits : List ℕ) (n : ℕ)
    → IsTrie t l
    → n ≤ 128
    → let (t', r) = descend t 0 0 bits n in Reached t t' l bits r n
from_root t l bits n s le =
    Reached-of t _ l bits 0 0 _ n s (Way.here 0 0)
      (descend-Descended n t l 0 0 n bits s s.some_node (ap length s.root) (omega arith) le)

-- From a node on the way.
from_node :
    (t : Nodes) (l : ℕ → List Bool) (bits : List ℕ) (i n : ℕ)
    → IsTrie t l
    → Way t bits 0 0 i 96
    → 96 ≤ n
    → n ≤ 128
    → let (t', r) = descend t i 96 bits (n - 96) in Reached t t' l bits r n
unfolding bits_to
from_node t l bits i n s w ge le =
    let (inside, label) = Way-label t l s bits 0 0 i 96 s.some_node w s.root in
    Reached-of t _ l bits i 96 _ n s w (
      descend-Descended (n - 96) t l i 96 n bits s inside (ap length label ∙ length-bits_to bits 96)
        (omega arith) le)

-- The node of ::/96, found or kept.
shared_node-Reached :
    (t : Nodes) (l : ℕ → List Bool) (root : ℕ)
    → IsTrie t l
    → IsShared t root
    → let (t', r) = shared_node t root in Reached t t' l zeros r 96
unfolding shared_node bits_to
shared_node-Reached t l root s kept = elim (Bool-cases (root == 0)) [
  | inl absent ↦ rw absent (from_root t l zeros 96 s (omega arith))
  | inr there ↦
      let w = kept (λ z. ground arith) in
      let (inside, label) = Way-label t l s zeros 0 0 root 96 s.some_node w s.root in
      rw there (record {
        labels = l;
        refined = Refined-refl t l s;
        inside = inside;
        way = w;
        label = label;
      })
]

-- One after the other.
Reached-on :
    (t t₁ t₂ : Nodes) (l : ℕ → List Bool) (a bits : List ℕ) (i k r n : ℕ)
    → (v : Reached t t₁ l a i k) → Reached t₁ t₂ v.labels bits r n
    → Reached t t₂ l bits r n
Reached-on t t₁ t₂ l a bits i k r n v w = record {
  labels = w.labels;
  refined = Refined-trans t t₁ t₂ l v.labels w.labels v.refined w.refined;
  inside = w.inside;
  way = w.way;
  label = w.label;
}

Way_kept :
    (t t' : Nodes) (l l' : ℕ → List Bool) (root : ℕ)
    → IsTrie t l
    → Grows t t' l l'
    → IsShared t root
    → IsShared t' root
Way_kept t t' l l' root s g kept ne =
    Way-Grows t t' l l' s g zeros 0 0 root 96 s.some_node (kept ne)

ipv4_parts :
    (ip_version n : ℕ) (bits : List ℕ)
    → is_ipv4 ip_version bits n ≡ true
    → (96 ≤ n) × (take 12 bits ≡ take 12 zeros)
unfolding is_ipv4
ipv4_parts ip_version n bits h = ground (arith, bytes_eq→eq (take 12 bits) (take 12 zeros))

-- Either way the descent leads to the end of the prefix.
abbrev Led : {Pool : Type 0} → Tree Pool → (ℕ → List Bool) → List ℕ → ℕ → (Nodes × ℕ) × ℕ → Type 0
Led tree l bits n (reached, root) =
    (v : Reached tree.nodes reached.0 l bits reached.1 n) × IsShared reached.0 root

descend_from-Led :
    {Pool : Type 0} (ip_version : ℕ) (bits : List ℕ) (n : ℕ) (tree : Tree Pool) (v : IsTree tree)
    → n ≤ 128
    → Led tree v.labels bits n (descend_from ip_version bits n tree)
unfolding descend_from
descend_from-Led ip_version bits n tree v le = elim (Bool-cases (is_ipv4 ip_version bits n)) [
  | inr elsewhere ↦
      let w = from_root tree.nodes v.labels bits n v.trie le in
      rw elsewhere
        (w, Way_kept tree.nodes _ v.labels w.labels tree.ipv4_root v.trie w.refined.grows v.shared)
  | inl ipv4 ↦
      let shared = shared_node tree.nodes tree.ipv4_root in
      let w = shared_node-Reached tree.nodes v.labels tree.ipv4_root v.trie v.shared in
      let (long, same) = ipv4_parts ip_version n bits ipv4 in
      let way =
        Way-agree shared.0 zeros bits 0 0 shared.1 96 (bit_at-take zeros bits (sym same)) w.way in
      let w' = from_node shared.0 w.labels bits shared.1 n w.refined.trie way long le in
      rw ipv4 (
        Reached-on tree.nodes shared.0 _ v.labels zeros bits shared.1 96 _ n w w',
        Way_kept shared.0 _ w.labels w'.labels shared.1 w.refined.trie w'.refined.grows
            (λ _. w.way),
      )
]

module _ {Pool : Type 0} (deep_merge : ℕ → ℕ → Pool → ℕ × Pool) where
  -- What an insertion makes of a tree.
  pub record IsInserted (tree tree' : Tree Pool) (bits : List ℕ) (n d : ℕ) : Type 0 where
    pub is_tree : IsTree tree'
    pub finds :
        (a : List ℕ) (x : ℕ)
        → Finds tree.nodes a 0 0 x
        → (y : ℕ) × Finds tree'.nodes a 0 0 y × Inserted deep_merge (agrees a bits n) d x y

  -- The merge behind the way.
  merge-Reached :
      (tree : Tree Pool) (l : ℕ → List Bool) (t : Nodes) (bits : List ℕ) (r n d root : ℕ)
      → IsTrie tree.nodes l
      → Reached tree.nodes t l bits r n
      → IsShared t root
      → (nodes : Nodes) × (pool : Pool) × (merge_subtree deep_merge 129 r d t tree.pool
          ≡ some (nodes, pool))
        × IsInserted tree (record { nodes = nodes; ipv4_root = root; pool = pool }) bits n d
  merge-Reached tree l t bits r n d root s v kept =
      let (t', pool, e, m) =
        merge_subtree-Merged deep_merge 129 r d t tree.pool v.labels v.refined.trie v.inside
          (omega arith) in
      (
        t',
        pool,
        e,
        record {
          is_tree = record {
            labels = m.labels;
            trie = m.trie;
            shared = Way_kept t t' v.labels m.labels root v.refined.trie m.grows kept;
          };
          finds = λ a x f.
              Finds-Inserted deep_merge t t' v.labels v.refined.trie a bits r n d m v.label x v.way
                (v.refined.finds a 0 0 x s.some_node f);
        },
      )

  -- The insertion of a network of at most 128 bits into a tree always ends, gives a tree, and merges the
  -- data into what each address of the network finds; any other address finds what it found. This does
  -- not depend on whether the descent starts at the root or at the node kept for the IPv4 networks.
  pub insert_bits_lem :
      (ip_version : ℕ) (bits : List ℕ) (prefix_len new_data : ℕ) (tree : Tree Pool)
      → IsTree tree
      → prefix_len ≤ 128
      → (tree' : Tree Pool) × (insert_bits deep_merge ip_version bits prefix_len new_data tree
          ≡ some tree')
        × IsInserted tree tree' bits prefix_len new_data
  unfolding insert_bits
  insert_bits_lem ip_version bits n d tree v le =
      let ((t, r), root) = descend_from ip_version bits n tree in
      let (w, kept) = descend_from-Led ip_version bits n tree v le in
      let (t', pool, e, m) = merge-Reached tree v.labels t bits r n d root v.trie w kept in
      (record { nodes = t'; ipv4_root = root; pool = pool }, rw (e, insert_bits) refl, m)
