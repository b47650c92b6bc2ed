-- ===== src/Builder/Prune/Keeps.antt =====
-- Pruning changes nothing of what an address finds.
use haproxy_spoa_firehol_mmd.Prelude.{
  ℕ, zero, suc, ◌+◌, ◌<◌, ◌≡◌, ◌≢◌, ◌==◌, refl, sym, ap, ◌∙◌, Bool, true, false, not, ◌&&◌, List,
  ◌∷◌, arith, Option, some, inl, inr, Bool-cases,
}
use haproxy_spoa_firehol_mmd.Prelude.Lists.{length}
use haproxy_spoa_firehol_mmd.Builder.Trie.{Nodes, child, bit_at}
use haproxy_spoa_firehol_mmd.Builder.Trie.Walk.{Finds, Finds.stop, Finds.down, IsTrie}
use haproxy_spoa_firehol_mmd.Builder.Trie.Below.{Below, Below-refl, Below-tail}
use haproxy_spoa_firehol_mmd.Builder.Prune.{collapse, prune_child, prune_tree}
use haproxy_spoa_firehol_mmd.Builder.Prune.Leaf.{
  Pruned, SidePruned, same_node, other_node, other_side, write_leaf-IsTrie, write_leaf-Finds,
  write_leaf-leaf,
}

leaf_found :
    (t : Nodes) (j d : ℕ)
    → ((c : Bool) → child c (t.at j) ≡ 0)
    → (t.at j).data_id ≡ d
    → (a : List ℕ) (k x : ℕ) → Finds t a j k x
    → x ≡ d
leaf_found t j d leaf e a k x (stop _ _ _ z f) = sym f ∙ e
leaf_found t j d leaf e a k x (down _ _ c _ f ne g) = absurd (ne (sym f ∙ leaf (bit_at a k)))

module _ (t t₁ t₂ : Nodes) (l : ℕ → List Bool) (i d0 d1 : ℕ) (s : IsTrie t l) (h : i < t.size)
    (m : SidePruned t t₁ l i false d0) (n : SidePruned t₁ t₂ l i true d1) where
  h₁ : i < t₁.size
  h₁ = omega (arith, m.sized)

  true-false : (b : Bool) → b ≡ false → b ≢ true
  true-false b e f = absurd_bool (sym e ∙ f)
    where
      absurd_bool : false ≡ true → ⊥
      absurd_bool e = cc

  both-Finds : (a : List ℕ) (k x : ℕ) → Finds t a i k x → Finds t₂ a i k x
  both-Finds a k x f = elim (Bool-cases (bit_at a k)) [
    | inl one_side ↦
        n.finds a k x one_side
          (other_side t t₁ l i false d0 s h m a k x (λ e. true-false (bit_at a k) e one_side) f)
    | inr zero_side ↦
        other_side t₁ t₂ l i true d1 m.trie h₁ n a k x (true-false (bit_at a k) zero_side)
          (m.finds a k x zero_side f)
  ]

  both_frame : (j : ℕ) → j < t.size → ¬ Below (l i) (l j) → t₂.at j ≡ t.at j
  both_frame j lt apart =
      n.frame j (omega (arith, m.sized)) (λ v. apart (Below-tail (l i) (l j) true v))
      ∙ m.frame j lt (λ v. apart (Below-tail (l i) (l j) false v))

  -- Where both sides are leaves with the same data, that is what is found.
  side_found :
      d0 ≢ 0
      → d0 ≡ d1
      → (a : List ℕ) (k x : ℕ) (b : Bool) → bit_at a k ≡ b
      → Finds t₂ a i k x
      → x ≡ d0
  side_found ne e a k x true side (stop _ _ _ z f) =
      absurd ((n.leaf (λ w. ne (e ∙ w))).0 (ap (λ v. child v (t₂.at i)) (sym side) ∙ z))
  side_found ne e a k x true side (down _ _ c _ f nz g) =
      let (there, leaf, value) = n.leaf (λ w. ne (e ∙ w)) in
      let at_c : child true (t₂.at i) ≡ c = ap (λ v. child v (t₂.at i)) (sym side) ∙ f in
      leaf_found t₂ (child true (t₂.at i)) d0 leaf (value ∙ sym e) a (suc k) x (rw at_c g)
  side_found ne e a k x false side (stop _ _ _ z f) = absurd (
      (m.leaf ne).0 (
        ap (child false) (sym (same_node t₁ t₂ l i true d1 m.trie h₁ n))
        ∙ ap (λ v. child v (t₂.at i)) (sym side)
        ∙ z))
  side_found ne e a k x false side (down _ _ c _ f nz g) =
      let (there, leaf, value) = m.leaf ne in
      let c₁ = child false (t₁.at i) in
      let same =
        other_node t₁ t₂ l i true d1 m.trie h₁ n false (λ w. true-false false refl w) there in
      let at_c : c₁ ≡ c =
        ap (child false) (sym (same_node t₁ t₂ l i true d1 m.trie h₁ n))
        ∙ ap (λ v. child v (t₂.at i)) (sym side)
        ∙ f in
      leaf_found t₂ c₁ d0 (λ v. ap (child v) same ∙ leaf v) (ap (λ w. w.data_id) same ∙ value) a
        (suc k) x (rw at_c g)

  collapse-Pruned : Pruned t (collapse i d0 d1 t₂).1 l i (collapse i d0 d1 t₂).0
  unfolding collapse
  collapse-Pruned = elim (Bool-cases (not (d0 == 0) && not (d1 == 0) && d0 == d1)) [
    | inr apart ↦ rw apart (record {
      trie = n.trie;
      sized = n.sized ∙ m.sized;
      frame = both_frame;
      finds = both-Finds;
      leaf = λ ne. absurd (ne refl);
    })
    | inl same ↦
        let ne : d0 ≢ 0 = λ z. ground arith in
        let e : d0 ≡ d1 = ground arith in
        rw same (record {
          trie = write_leaf-IsTrie t₂ l i d0 n.trie;
          sized = n.sized ∙ m.sized;
          frame = λ j lt apart. elim (Bool-cases (j == i)) [
            | inl here_i ↦
                (let at_i : j ≡ i = ground arith in absurd (apart (rw at_i (Below-refl (l i)))))
            | inr other ↦ rw other (both_frame j lt apart)
          ];
          finds = λ a k x f.
              rw (side_found ne e a k x (bit_at a k) refl (both-Finds a k x f))
                (write_leaf-Finds t₂ l i d0 n.trie a k);
          leaf = λ _. write_leaf-leaf t₂ l i d0 n.trie;
        })
  ]

below-SidePruned :
    (t t' : Nodes) (l : ℕ → List Bool) (i : ℕ) (b : Bool) (d : ℕ)
    → IsTrie t l
    → i < t.size
    → child b (t.at i) ≢ 0
    → Pruned t t' l (child b (t.at i)) d
    → SidePruned t t' l i b d
below-SidePruned t t' l i b d s h there m = record {
  trie = m.trie;
  sized = m.sized;
  frame = λ j lt apart. m.frame j lt (λ v. apart (rw label at v));
  finds = on_side;
  leaf = λ ne.
      let (leaf, value) = m.leaf ne in
      (
        λ z. there (sym same_child ∙ z),
        λ c. ap (λ j. child c (t'.at j)) same_child ∙ leaf c,
        ap (λ j. (t'.at j).data_id) same_child ∙ value,
      );
}
  where
    label : l (child b (t.at i)) ≡ b ∷ l i
    label = s.labelled i b h there

    same_child : child b (t'.at i) ≡ child b (t.at i)
    same_child = ap (child b) (m.frame i h (λ v. absurd (omega (arith, v.0, ap length label))))

    on_side : (a : List ℕ) (k x : ℕ) → bit_at a k ≡ b → Finds t a i k x → Finds t' a i k x
    on_side a k x side (stop _ _ _ z e) = absurd (there (ap (λ v. child v (t.at i)) (sym side) ∙ z))
    on_side a k x side (down _ _ c _ e nz f) =
        let at_c : child b (t.at i) ≡ c = ap (λ v. child v (t.at i)) (sym side) ∙ e in
        down i k (child b (t.at i)) x (ap (λ v. child v (t'.at i)) side ∙ same_child) there
          (m.finds a (suc k) x (rw at_c f))

none-SidePruned :
    (t : Nodes) (l : ℕ → List Bool) (i : ℕ) (b : Bool) → IsTrie t l → SidePruned t t l i b 0
none-SidePruned t l i b s = record {
  trie = s;
  sized = refl;
  frame = λ j lt _. refl;
  finds = λ a k x _ f. f;
  leaf = λ ne. absurd (ne refl);
}

prune_child-SidePruned :
    (prune : ℕ → Nodes → Option (ℕ × Nodes)) (b : Bool) (i : ℕ) (t : Nodes) (l : ℕ → List Bool)
    → IsTrie t l
    → i < t.size
    → (child b (t.at i) ≢ 0
        → (d : ℕ) × (t' : Nodes) × (prune (child b (t.at i)) t ≡ some (d, t'))
          × Pruned t t' l (child b (t.at i)) d)
    → (d : ℕ) × (t' : Nodes) × (prune_child prune b i t ≡ some (d, t')) × SidePruned t t' l i b d
unfolding prune_child
prune_child-SidePruned prune b i t l s h rec = elim (Bool-cases (child b (t.at i) == 0)) [
  | inl absent ↦ (0, t, rw absent refl, none-SidePruned t l i b s)
  | inr there ↦
      let ne : child b (t.at i) ≢ 0 = λ e. ground arith in
      let (d, t', e, m) = rec ne in (d, t', rw there e, below-SidePruned t t' l i b d s h ne m)
]

-- Pruning a subtree ends, with as much fuel as there are levels, and every address finds what it found;
-- data that is returned is that of the node, which has no children any more.
pub prune_tree-Pruned :
    (fuel i : ℕ) (t : Nodes) (l : ℕ → List Bool)
    → IsTrie t l
    → i < t.size
    → 128 < length (l i) + fuel
    → (d : ℕ) × (t' : Nodes) × (prune_tree fuel i t ≡ some (d, t')) × Pruned t t' l i d
unfolding prune_tree
prune_tree-Pruned zero i t l s h le = absurd (omega (arith, s.short i h))
prune_tree-Pruned (suc fuel) i t l s h le =
    elim (Bool-cases ((t.at i).child0 == 0 && (t.at i).child1 == 0)) [
      | inl leaf ↦ (
        (t.at i).data_id,
        t,
        rw leaf refl,
        record {
          trie = s;
          sized = refl;
          frame = λ j lt _. refl;
          finds = λ a k x f. f;
          leaf = λ _. (no_child leaf, refl);
        },
      )
      | inr internal ↦
          let prune : ℕ → Nodes → Option (ℕ × Nodes) = λ c. prune_tree fuel c in
          let (d0, t₁, e₁, m₁) = prune_child-SidePruned prune false i t l s h (λ c.
            prune_tree-Pruned fuel (child false (t.at i)) t l s (s.below i false h c)
              (omega (arith, ap length (s.labelled i false h c)))) in
          let h₁ : i < t₁.size = omega (arith, m₁.sized) in
          let (d1, t₂, e₂, m₂) = prune_child-SidePruned prune true i t₁ l m₁.trie h₁ (λ c.
            prune_tree-Pruned fuel (child true (t₁.at i)) t₁ l m₁.trie (m₁.trie.below i true h₁ c)
              (omega (arith, ap length (m₁.trie.labelled i true h₁ c)))) in
          (
            (collapse i d0 d1 t₂).0,
            (collapse i d0 d1 t₂).1,
            rw (internal, e₁, e₂) refl,
            collapse-Pruned t t₁ t₂ l i d0 d1 s h m₁ m₂,
          )
    ]
  where
    no_child :
        ((t.at i).child0 == 0 && (t.at i).child1 == 0) ≡ true → (b : Bool) → child b (t.at i) ≡ 0
    no_child e false = ground arith
    no_child e true = ground arith
