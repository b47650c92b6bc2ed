-- ===== src/Builder/Prune/Leaf.antt =====
-- A node that becomes a leaf, with what its two sides have.
use haproxy_spoa_firehol_mmd.Prelude.{
  ℕ, suc, ◌<◌, ◌≡◌, ◌≢◌, ◌==◌, refl, sym, ap, ◌∙◌, Bool, false, List, ◌∷◌, arith, inl, inr,
  Bool-cases, ==_refl,
}
use haproxy_spoa_firehol_mmd.Builder.Trie.{Nodes, child, write, leaf_of, bit_at}
use haproxy_spoa_firehol_mmd.Builder.Trie.Walk.{Finds, Finds.stop, Finds.down, IsTrie, Finds-same}
use haproxy_spoa_firehol_mmd.Builder.Trie.Attach.{child-leaf}
use haproxy_spoa_firehol_mmd.Builder.Trie.Below.{Below, Below-refl, Below-cons, Below-apart}

-- The subtree of node `i` pruned: every address finds the same, and data `d` other than 0 is that of the
-- node, now a leaf.
pub record Pruned (t t' : Nodes) (l : ℕ → List Bool) (i d : ℕ) : Type 0 where
  pub trie : IsTrie t' l
  pub sized : t'.size ≡ t.size
  pub frame : (j : ℕ) → j < t.size → ¬ Below (l i) (l j) → t'.at j ≡ t.at j
  pub finds : (a : List ℕ) (k x : ℕ) → Finds t a i k x → Finds t' a i k x
  pub leaf : d ≢ 0 → ((b : Bool) → child b (t'.at i) ≡ 0) × ((t'.at i).data_id ≡ d)

-- One side of node `i` pruned.
pub record SidePruned (t t' : Nodes) (l : ℕ → List Bool) (i : ℕ) (b : Bool) (d : ℕ) : Type 0 where
  pub trie : IsTrie t' l
  pub sized : t'.size ≡ t.size
  pub frame : (j : ℕ) → j < t.size → ¬ Below (b ∷ l i) (l j) → t'.at j ≡ t.at j
  pub finds : (a : List ℕ) (k x : ℕ) → bit_at a k ≡ b → Finds t a i k x → Finds t' a i k x
  pub leaf :
      d ≢ 0
      → (child b (t'.at i) ≢ 0)
        × ((c : Bool) → child c (t'.at (child b (t'.at i))) ≡ 0)
        × ((t'.at (child b (t'.at i))).data_id ≡ d)

pub side_apart : (p : List Bool) (b : Bool) → ¬ Below (b ∷ p) p
side_apart p b v = absurd (omega (arith, v.0))

module _ (t t' : Nodes) (l : ℕ → List Bool) (i : ℕ) (b : Bool) (d : ℕ) (s : IsTrie t l)
    (h : i < t.size) (m : SidePruned t t' l i b d) where
  pub same_node : t'.at i ≡ t.at i
  same_node = m.frame i h (side_apart (l i) b)

  -- The child on the other side, and what is found there, are as before.
  pub other_node :
      (c : Bool) → c ≢ b → child c (t.at i) ≢ 0 → t'.at (child c (t.at i)) ≡ t.at (child c (t.at i))
  other_node c ne there = m.frame (child c (t.at i)) (s.below i c h there) (λ v.
      Below-apart (l i) (c ∷ l i) c b ne (Below-refl (c ∷ l i)) (rw (s.labelled i c h there) at v))

  pub other_side : (a : List ℕ) (k x : ℕ) → bit_at a k ≢ b → Finds t a i k x → Finds t' a i k x
  other_side a k x ne (stop _ _ _ z e) =
      stop i k x (ap (child (bit_at a k)) same_node ∙ z) (ap (λ n. n.data_id) same_node ∙ e)
  other_side a k x ne (down _ _ c _ e nz f) =
      let side = bit_at a k in
      let there : child side (t.at i) ≢ 0 = λ z. nz (sym e ∙ z) in
      let inside : c < t.size = rw (← e) (s.below i side h there) in
      let label : l c ≡ side ∷ l i = ap l (sym e) ∙ s.labelled i side h there in
      down i k c x (ap (child side) same_node ∙ e) nz (
        Finds-same t l s a t' (λ _ v. Below (side ∷ l i) v)
          (λ k v on. Below-cons (side ∷ l i) v (bit_at a k) on)
          (λ j k lt on. m.frame j lt (λ v. Below-apart (l i) (l j) side b ne on v)) c (suc k) x
          inside (rw label (Below-refl (side ∷ l i))) f)

-- A node that becomes a leaf.
module _ (t : Nodes) (l : ℕ → List Bool) (i d : ℕ) (s : IsTrie t l) where
  at_i : (write t i (leaf_of d)).at i ≡ leaf_of d
  at_i = rw (==_refl i) refl

  at_other : (j : ℕ) → (j == i) ≡ false → (write t i (leaf_of d)).at j ≡ t.at j
  at_other j ne = rw ne refl

  old_child :
      (j : ℕ) (b : Bool)
      → child b ((write t i (leaf_of d)).at j) ≢ 0
      → child b ((write t i (leaf_of d)).at j) ≡ child b (t.at j)
  old_child j b ne = elim (Bool-cases (j == i)) [
    | inl e ↦
        (let same : j ≡ i = ground arith in
          absurd (
            ne (
              ap (λ v. child b ((write t i (leaf_of d)).at v)) same
              ∙ ap (child b) at_i
              ∙ child-leaf b d)))
    | inr other ↦ ap (child b) (at_other j other)
  ]

  pub write_leaf-IsTrie : IsTrie (write t i (leaf_of d)) l
  write_leaf-IsTrie = record {
    some_node = s.some_node;
    root = s.root;
    below = λ j b h ne. (let e = old_child j b ne in rw e (s.below j b h (λ z. ne (e ∙ z))));
    labelled =
        λ j b h ne. (let e = old_child j b ne in ap l e ∙ s.labelled j b h (λ z. ne (e ∙ z)));
    short = s.short;
    leaves = λ j b h ne. elim (Bool-cases (j == i)) [
      | inl e ↦
          (let same : j ≡ i = ground arith in
            ap (λ v. child b ((write t i (leaf_of d)).at v)) same
            ∙ ap (child b) at_i
            ∙ child-leaf b d)
      | inr other ↦
          (let e = at_other j other in
            ap (child b) e ∙ s.leaves j b h (λ z. ne (ap (λ n. n.data_id) e ∙ z)))
    ];
  }

  pub write_leaf-Finds : (a : List ℕ) (k : ℕ) → Finds (write t i (leaf_of d)) a i k d
  write_leaf-Finds a k =
      stop i k d (ap (child (bit_at a k)) at_i ∙ child-leaf (bit_at a k) d)
        (ap (λ n. n.data_id) at_i)

  pub write_leaf-leaf :
      ((b : Bool) → child b ((write t i (leaf_of d)).at i) ≡ 0)
      × (((write t i (leaf_of d)).at i).data_id ≡ d)
  write_leaf-leaf = (λ b. ap (child b) at_i ∙ child-leaf b d, ap (λ n. n.data_id) at_i)
