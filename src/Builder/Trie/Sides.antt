-- ===== src/Builder/Trie/Sides.antt =====
-- What a merge into a leaf and into one side of a node are, for `merge_subtree`.
use haproxy_spoa_firehol_mmd.Prelude.{
  ℕ, suc, ◌<◌, ◌≡◌, ◌≢◌, ◌==◌, refl, sym, ap, ◌∙◌, Bool, true, false, List, ◌∷◌, arith, inl, inr,
  Bool-cases, ==_refl,
}
use haproxy_spoa_firehol_mmd.Prelude.Lists.{length}
use haproxy_spoa_firehol_mmd.Builder.Trie.{Nodes, child, bit_at, set_data, merge_data, merge_leaf}
use haproxy_spoa_firehol_mmd.Builder.Trie.Walk.{Finds, Finds.stop, Finds.down, IsTrie, Grows}
use haproxy_spoa_firehol_mmd.Builder.Trie.Attach.{
  Attached, extend, child-set_child, child-leaf, data-set_child, bits_differ, Attached-IsTrie,
  Attached-Grows, set_data-IsTrie, set_data-Grows,
}
use haproxy_spoa_firehol_mmd.Builder.Trie.Below.{Below, Below-refl}

module _ {Pool : Type 0} (deep_merge : ℕ → ℕ → Pool → ℕ × Pool) where
  -- `y` is `x` with `d` merged into it, with some pool.
  abbrev pub MergedInto : ℕ → ℕ → ℕ → Type 0
  MergedInto d x y = (pool : Pool) × (y ≡ (merge_data deep_merge x d pool).0)

  -- A merge of `d` into the subtree of node `i`.
  pub record Merged (t t' : Nodes) (l : ℕ → List Bool) (i d : ℕ) : Type 0 where
    pub labels : ℕ → List Bool
    pub trie : IsTrie t' labels
    pub grows : Grows t t' l labels
    pub frame : (j : ℕ) → j < t.size → ¬ Below (l i) (l j) → t'.at j ≡ t.at j
    pub effect :
        (a : List ℕ) (k x : ℕ) → Finds t a i k x → (y : ℕ) × Finds t' a i k y × MergedInto d x y

  -- A merge on side `b` of node `i`, which has a child.
  pub record SideMerged (t t' : Nodes) (l : ℕ → List Bool) (i : ℕ) (b : Bool) (d : ℕ) : Type 0 where
    pub labels : ℕ → List Bool
    pub trie : IsTrie t' labels
    pub grows : Grows t t' l labels
    pub frame : (j : ℕ) → j < t.size → j ≢ i → ¬ Below (b ∷ l i) (l j) → t'.at j ≡ t.at j
    pub other_side : (c : Bool) → c ≢ b → child c (t'.at i) ≡ child c (t.at i)
    pub same_data : (t'.at i).data_id ≡ (t.at i).data_id
    pub effect :
        (a : List ℕ) (k x : ℕ)
        → bit_at a k ≡ b
        → Finds t a i k x
        → (y : ℕ) × Finds t' a i k y × MergedInto d x y

  pub merge_leaf-Merged :
      (i d : ℕ) (t : Nodes) (pool : Pool) (l : ℕ → List Bool)
      → IsTrie t l
      → i < t.size
      → ((b : Bool) → child b (t.at i) ≡ 0)
      → Merged t (merge_leaf deep_merge i d t pool).0 l i d
  unfolding merge_leaf
  merge_leaf-Merged i d t pool l s h leaf =
      let m = (merge_data deep_merge (t.at i).data_id d pool).0 in
      record {
        labels = l;
        trie = set_data-IsTrie t l i m s leaf;
        grows = set_data-Grows t l i m s leaf;
        frame = λ j lt apart. elim (Bool-cases (j == i)) [
          | inl e ↦ (let same : j ≡ i = ground arith in absurd (apart (rw same (Below-refl (l i)))))
          | inr other ↦ rw other refl
        ];
        effect = λ a k x f. (
          m,
          found a k m,
          (pool, ap (λ v. (merge_data deep_merge v d pool).0) (data_of a k x f)),
        );
      }
    where
      data_of : (a : List ℕ) (k x : ℕ) → Finds t a i k x → (t.at i).data_id ≡ x
      data_of a k x (stop _ _ _ z e) = e
      data_of a k x (down _ _ c _ e ne f) = absurd (ne (sym e ∙ leaf (bit_at a k)))

      free_of : (m : ℕ) (b : Bool) → child b ((set_data t i m).at i) ≡ 0
      free_of m false = rw (==_refl i) (leaf false)
      free_of m true = rw (==_refl i) (leaf true)

      found : (a : List ℕ) (k m : ℕ) → Finds (set_data t i m) a i k m
      found a k m = stop i k m (free_of m (bit_at a k)) (rw (==_refl i) refl)

  merge_data_fresh : (d : ℕ) (pool : Pool) → (merge_data deep_merge 0 d pool).0 ≡ d
  unfolding merge_data
  merge_data_fresh d pool = refl

  pub attach-SideMerged :
      (t t' : Nodes) (l : ℕ → List Bool) (i : ℕ) (b : Bool) (d : ℕ) (pool : Pool)
      → IsTrie t l
      → Attached t t' i b d
      → i < t.size
      → child b (t.at i) ≡ 0
      → (t.at i).data_id ≡ 0
      → length (l i) < 128
      → SideMerged t t' l i b d
  attach-SideMerged t t' l i b d pool s m h free z room = record {
    labels = extend l t.size i b;
    trie = Attached-IsTrie t t' l i b d s m h free z room;
    grows = Attached-Grows t t' l i b d s m h free z room;
    frame = λ j lt ne apart. m.others j ne lt;
    other_side = λ c ne. elim (bits_differ b c) [
      | inl e ↦ absurd (ne e)
      | inr differ ↦ ap (child c) m.changed ∙ differ t.size (t.at i)
    ];
    same_data = ap (λ n. n.data_id) m.changed ∙ data-set_child b t.size (t.at i);
    effect = λ a k x side f. (
      d,
      down i k t.size d
          (ap (λ v. child v (t'.at i)) side
            ∙ ap (child b) m.changed
            ∙ child-set_child b t.size (t.at i))
          (λ e. absurd (omega (arith, s.some_node)))
          (stop t.size (suc k) d
            (ap (child (bit_at a (suc k))) m.new ∙ child-leaf (bit_at a (suc k)) d)
            (ap (λ n. n.data_id) m.new)),
      (
        pool,
        sym (
            ap (λ v. (merge_data deep_merge v d pool).0) (nothing a k x side f)
            ∙ merge_data_fresh d pool),
      ),
    );
  }
    where
      nothing : (a : List ℕ) (k x : ℕ) → bit_at a k ≡ b → Finds t a i k x → x ≡ 0
      nothing a k x side (stop _ _ _ c e) = sym e ∙ z
      nothing a k x side (down _ _ c _ e ne f) =
          absurd (ne (sym e ∙ ap (λ v. child v (t.at i)) side ∙ free))
