-- ===== src/Builder/Trie/Merge.antt =====
-- `merge_subtree`: what is merged into the leaves below a node, and that nothing else changes.
use haproxy_spoa_firehol_mmd.Prelude.{
  ℕ, zero, suc, ◌+◌, ◌<◌, ◌≡◌, ◌≢◌, ◌==◌, refl, sym, ap, ◌∙◌, Bool, true, false, ◌&&◌, List, ◌∷◌,
  arith, Option, some, inl, inr, Bool-cases,
}
use haproxy_spoa_firehol_mmd.Prelude.Lists.{length}
use haproxy_spoa_firehol_mmd.Builder.Trie.{
  Nodes, child, bit_at, attach_data, merge_leaf, merge_child, merge_subtree,
}
use haproxy_spoa_firehol_mmd.Builder.Trie.Walk.{
  Finds, Finds.stop, Finds.down, IsTrie, Grows-trans, Finds-same,
}
use haproxy_spoa_firehol_mmd.Builder.Trie.Attach.{attach_data-Attached}
use haproxy_spoa_firehol_mmd.Builder.Trie.Below.{
  Below, Below-refl, Below-cons, Below-tail, Below-apart,
}
use haproxy_spoa_firehol_mmd.Builder.Trie.Sides.{
  MergedInto, Merged, SideMerged, merge_leaf-Merged, attach-SideMerged,
}

module _ {Pool : Type 0} (deep_merge : ℕ → ℕ → Pool → ℕ × Pool) where
  -- A merge into the subtree of the child on a side is a merge on that side.
  below-SideMerged :
      (t t' : Nodes) (l : ℕ → List Bool) (i : ℕ) (b : Bool) (d : ℕ)
      → IsTrie t l
      → i < t.size
      → child b (t.at i) ≢ 0
      → Merged deep_merge t t' l (child b (t.at i)) d
      → SideMerged deep_merge t t' l i b d
  below-SideMerged t t' l i b d s h ne m = record {
    labels = m.labels;
    trie = m.trie;
    grows = m.grows;
    frame = λ j lt _ apart. m.frame j lt (λ v. apart (rw label at v));
    other_side = λ c _. ap (child c) unchanged;
    same_data = ap (λ n. n.data_id) unchanged;
    effect = λ a k x side f. on_side a k x side f;
  }
    where
      label : l (child b (t.at i)) ≡ b ∷ l i
      label = s.labelled i b h ne

      unchanged : t'.at i ≡ t.at i
      unchanged = m.frame i h (λ v. absurd (omega (arith, ap length label, v.0)))

      on_side :
          (a : List ℕ) (k x : ℕ)
          → bit_at a k ≡ b
          → Finds t a i k x
          → (y : ℕ) × Finds t' a i k y × MergedInto deep_merge d x y
      on_side a k x side (stop _ _ _ z e) = absurd (ne (ap (λ v. child v (t.at i)) (sym side) ∙ z))
      on_side a k x side (down _ _ c _ e nz f) =
          let child_c : child b (t.at i) ≡ c = ap (λ v. child v (t.at i)) (sym side) ∙ e in
          let (y, g, into) = m.effect a (suc k) x (rw child_c f) in
          (
            y,
            down i k (child b (t.at i)) y
                (ap (λ v. child v (t'.at i)) side ∙ ap (child b) unchanged) ne g,
            into,
          )

  merge_child-SideMerged :
      (merge : ℕ → Nodes → Pool → Option (Nodes × Pool)) (b : Bool) (i d : ℕ) (t : Nodes)
      (pool : Pool) (l : ℕ → List Bool)
      → IsTrie t l
      → i < t.size
      → (t.at i).data_id ≡ 0
      → length (l i) < 128
      → (child b (t.at i) ≢ 0
          → (t' : Nodes) × (pool' : Pool) × (merge (child b (t.at i)) t pool ≡ some (t', pool'))
            × Merged deep_merge t t' l (child b (t.at i)) d)
      → (t' : Nodes) × (pool' : Pool) × (merge_child deep_merge merge b i d t pool
          ≡ some (t', pool'))
        × SideMerged deep_merge t t' l i b d
  unfolding merge_child
  merge_child-SideMerged merge b i d t pool l s h z room rec =
      elim (Bool-cases (child b (t.at i) == 0)) [
        | inl absent ↦
            let free : child b (t.at i) ≡ 0 = ground arith in
            (
              attach_data t i b d,
              pool,
              rw absent refl,
              attach-SideMerged deep_merge t _ l i b d pool s (attach_data-Attached t i b d h) h
                  free z room,
            )
        | inr there ↦
            let ne : child b (t.at i) ≢ 0 = λ e. ground arith in
            let (t', pool', e, m) = rec ne in
            (t', pool', rw there e, below-SideMerged t t' l i b d s h ne m)
      ]

  -- What an address finds on the side that is not merged.
  other-Finds :
      (t t' : Nodes) (l : ℕ → List Bool) (i : ℕ) (b : Bool) (d : ℕ)
      → IsTrie t l
      → i < t.size
      → SideMerged deep_merge t t' l i b d
      → (a : List ℕ) (k x : ℕ) → bit_at a k ≢ b
      → Finds t a i k x
      → Finds t' a i k x
  other-Finds t t' l i b d s h m a k x ne (stop _ _ _ z e) =
      stop i k x (m.other_side (bit_at a k) ne ∙ z) (m.same_data ∙ e)
  other-Finds t t' l i b d s h m a k x ne (down _ _ c _ e nz f) =
      let side = bit_at a k in
      let there : child side (t.at i) ≢ 0 = λ z. nz (sym e ∙ z) in
      let inside : c < t.size = rw (← e) (s.below i side h there) in
      let label : l c ≡ side ∷ l i = ap l (sym e) ∙ s.labelled i side h there in
      down i k c x (m.other_side side ne ∙ e) nz (
        Finds-same t l s a t' (λ _ v. Below (side ∷ l i) v)
          (λ k v on. Below-cons (side ∷ l i) v (bit_at a k) on)
          (λ j k lt on.
            m.frame j lt (λ same. absurd (omega (arith, on.0, ap (λ w. length (l w)) same)))
              (λ v. Below-apart (l i) (l j) side b ne on v))
          c (suc k) x inside (rw label (Below-refl (side ∷ l i))) f)

  -- Both sides, one after the other.
  both-Merged :
      (t t₁ t₂ : Nodes) (l : ℕ → List Bool) (i d : ℕ)
      → IsTrie t l
      → i < t.size
      → (m : SideMerged deep_merge t t₁ l i false d) → SideMerged deep_merge t₁ t₂ m.labels i true d
      → Merged deep_merge t t₂ l i d
  both-Merged t t₁ t₂ l i d s h m n = record {
    labels = n.labels;
    trie = n.trie;
    grows = Grows-trans t t₁ t₂ l m.labels n.labels m.grows n.grows;
    frame = λ j lt apart.
        let ne : j ≢ i = λ e. apart (rw e (Below-refl (l i))) in
        n.frame j (omega (arith, m.grows.sized)) ne (λ v.
          apart (Below-tail (l i) (l j) true (rw (m.grows.named i h, m.grows.named j lt) at v)))
        ∙ m.frame j lt ne (λ v. apart (Below-tail (l i) (l j) false v));
    effect = λ a k x f. elim (Bool-cases (bit_at a k)) [
      | inr zero_side ↦
          (let (y, g, into) = m.effect a k x zero_side f in
            (
              y,
              other-Finds t₁ t₂ m.labels i true d m.trie h₁ n a k y
                  (λ e. false_true (sym zero_side ∙ e)) g,
              into,
            ))
      | inl one_side ↦
          n.effect a k x one_side
            (other-Finds t t₁ l i false d s h m a k x (λ e. false_true (sym e ∙ one_side)) f)
    ];
  }
    where
      false_true : false ≡ true → ⊥
      false_true e = cc

      h₁ : i < t₁.size
      h₁ = omega (arith, m.grows.sized)

  -- The depth of a node is that of its children less one.
  parent_short :
      (t : Nodes) (l : ℕ → List Bool) (i : ℕ) (b : Bool)
      → IsTrie t l
      → i < t.size
      → child b (t.at i) ≢ 0
      → length (l i) < 128
  parent_short t l i b s h ne =
      omega (arith, ap length (s.labelled i b h ne), s.short (child b (t.at i)) (s.below i b h ne))

  internal-blank :
      (t : Nodes) (l : ℕ → List Bool) (i : ℕ) (b : Bool)
      → IsTrie t l
      → i < t.size
      → child b (t.at i) ≢ 0
      → (t.at i).data_id ≡ 0
  internal-blank t l i b s h ne = elim (Bool-cases ((t.at i).data_id == 0)) [
    | inl blank ↦ ground arith
    | inr full ↦ absurd (ne (s.leaves i b h (λ z. ground arith)))
  ]

  has_child :
      (t : Nodes) (i : ℕ)
      → ((t.at i).child0 == 0 && (t.at i).child1 == 0) ≡ false
      → (b : Bool) × (child b (t.at i) ≢ 0)
  has_child t i e = elim (Bool-cases ((t.at i).child0 == 0)) [
    | inr there ↦ (false, λ z. ground arith)
    | inl absent ↦ (true, λ z. ground arith)
  ]

  -- `merge_subtree` ends, with as much fuel as there are levels below the node, and merges the data into
  -- the leaves of the subtree alone.
  pub merge_subtree-Merged :
      (fuel i d : ℕ) (t : Nodes) (pool : Pool) (l : ℕ → List Bool)
      → IsTrie t l
      → i < t.size
      → 128 < length (l i) + fuel
      → (t' : Nodes) × (pool' : Pool) × (merge_subtree deep_merge fuel i d t pool
          ≡ some (t', pool'))
        × Merged deep_merge t t' l i d
  unfolding merge_subtree
  merge_subtree-Merged zero i d t pool l s h le = absurd (omega (arith, s.short i h))
  merge_subtree-Merged (suc fuel) i d t pool l s h le =
      elim (Bool-cases ((t.at i).child0 == 0 && (t.at i).child1 == 0)) [
        | inl leaf ↦ (
          ((merge_leaf deep_merge i d t pool).0),
          ((merge_leaf deep_merge i d t pool).1),
          rw leaf refl,
          merge_leaf-Merged deep_merge i d t pool l s h (no_child leaf),
        )
        | inr internal ↦
            let (b, ne) = has_child t i internal in
            let blank = internal-blank t l i b s h ne in
            let room = parent_short t l i b s h ne in
            let merge : ℕ → Nodes → Pool → Option (Nodes × Pool) =
              λ c. merge_subtree deep_merge fuel c d in
            let (t₁, p₁, e₁, m₁) =
              merge_child-SideMerged merge false i d t pool l s h blank room (λ c.
                merge_subtree-Merged fuel (child false (t.at i)) d t pool l s (s.below i false h c)
                  (omega (arith, ap length (s.labelled i false h c)))) in
            let h₁ : i < t₁.size = omega (arith, m₁.grows.sized) in
            let room₁ : length (m₁.labels i) < 128 = rw (m₁.grows.named i h) room in
            let (t₂, p₂, e₂, m₂) =
              merge_child-SideMerged merge true i d t₁ p₁ m₁.labels m₁.trie h₁
                (m₁.same_data ∙ blank) room₁
                (λ c.
                  merge_subtree-Merged fuel (child true (t₁.at i)) d t₁ p₁ m₁.labels m₁.trie
                    (m₁.trie.below i true h₁ c)
                    (omega (
                      arith,
                      ap length (m₁.trie.labelled i true h₁ c),
                      ap length (m₁.grows.named i h),
                    ))) in
            (t₂, p₂, rw (internal, e₁, e₂) refl, both-Merged t t₁ t₂ l i d s h m₁ m₂)
      ]
    where
      no_child :
          ((t.at i).child0 == 0 && (t.at i).child1 == 0) ≡ true → (b : Bool) → child b (t.at i) ≡ 0
      no_child e false = ground arith
      no_child e true = ground arith
