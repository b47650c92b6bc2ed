-- ===== src/Builder/Trie/Descend.antt =====
-- `descend`: the nodes that it adds change nothing of what an address finds.
use haproxy_spoa_firehol_mmd.Prelude.{
  ℕ, zero, suc, ◌+◌, ◌<◌, ◌≤◌, ◌≡◌, ◌≢◌, ◌==◌, refl, sym, ap, ◌∙◌, Bool, true, false, List, ◌∷◌,
  arith, inl, inr, Bool-cases, ==_refl,
}
use haproxy_spoa_firehol_mmd.Prelude.Lists.{length}
use haproxy_spoa_firehol_mmd.Builder.Trie.{
  Nodes, child, leaf_of, bit_at, attach, attach_data, split, ensure_child, descend, set_data,
}
use haproxy_spoa_firehol_mmd.Builder.Trie.Walk.{
  Finds, Finds.stop, Finds.down, Way, Way.here, Way.step, IsTrie, Grows-trans, Finds-kept,
}
use haproxy_spoa_firehol_mmd.Builder.Trie.Attach.{
  Attached, attach-Attached, attach_data-Attached, extend, child-set_child, child-leaf,
  Attached-IsTrie, Attached-Grows, Attached-ends, set_data-IsTrie, set_data-Grows, Refined,
  Refined-refl, Refined-trans,
}

-- Node `i` with its data handed to two new leaves.
record Halved (t t' : Nodes) (i d : ℕ) : Type 0 where
  cleared : (t'.at i).data_id ≡ 0
  halves : (b : Bool) → (c : ℕ) × (child b (t'.at i) ≡ c) × (c ≢ 0) × (t'.at c ≡ leaf_of d)
  rest : (j : ℕ) → j ≢ i → j < t.size → t'.at j ≡ t.at j

Attached-twice-Halved :
    (t t₁ t₂ : Nodes) (i d : ℕ)
    → i < t.size
    → (t.at i).data_id ≡ 0
    → Attached t t₁ i false d
    → Attached t₁ t₂ i true d
    → Halved t t₂ i d
Attached-twice-Halved t t₁ t₂ i d h z m₁ m₂ = record {
  cleared = ap (λ n. n.data_id) m₂.changed ∙ ap (λ n. n.data_id) m₁.changed ∙ z;
  halves = halves_of;
  rest = λ j ne lt. m₂.others j ne (omega (arith, m₁.one_more)) ∙ m₁.others j ne lt;
}
  where
    halves_of : (b : Bool) → (c : ℕ) × (child b (t₂.at i) ≡ c) × (c ≢ 0) × (t₂.at c ≡ leaf_of d)
    halves_of false = (
      t.size,
      ap (λ n. n.child0) m₂.changed ∙ ap (λ n. n.child0) m₁.changed,
      λ e. absurd (omega arith),
      m₂.others t.size (λ e. absurd (omega arith)) (omega (arith, m₁.one_more)) ∙ m₁.new,
    )
    halves_of true =
        (t₁.size, ap (λ n. n.child1) m₂.changed, λ e. absurd (omega (arith, m₁.one_more)), m₂.new)

-- An address finds the data of the node in the leaf on its side.
Halved-ends :
    (t t₀ t' : Nodes) (i : ℕ)
    → Halved t₀ t' i ((t.at i).data_id)
    → t₀.size ≡ t.size
    → ((j : ℕ) → j ≢ i → t₀.at j ≡ t.at j)
    → (a : List ℕ) (j k : ℕ) → j < t.size
    → child (bit_at a k) (t.at j) ≡ 0
    → Finds t' a j k ((t.at j).data_id)
Halved-ends t t₀ t' i v e same a j k h z = elim (Bool-cases (j == i)) [
  | inl e_i ↦
      let at_i : j ≡ i = ground arith in
      let (c, there, ne, leaf) = v.halves (bit_at a k) in
      down j k c _ (ap (λ w. child (bit_at a k) (t'.at w)) at_i ∙ there) ne (
        stop c (suc k) _ (ap (child (bit_at a (suc k))) leaf ∙ child-leaf (bit_at a (suc k)) _)
          (ap (λ n. n.data_id) leaf ∙ ap (λ w. (t.at w).data_id) (sym at_i)))
  | inr other ↦
      let ne : j ≢ i = λ e. ground arith in
      let kept = v.rest j ne (omega (arith, e)) ∙ same j ne in
      stop j k _ (ap (child (bit_at a k)) kept ∙ z) (ap (λ n. n.data_id) kept)
]

-- The three steps of `split`, at any nodes that they lead to.
halved-Refined :
    (t t₁ t₂ : Nodes) (l : ℕ → List Bool) (i : ℕ)
    → IsTrie t l
    → i < t.size
    → length (l i) < 128
    → ((b : Bool) → child b (t.at i) ≡ 0)
    → Attached (set_data t i 0) t₁ i false ((t.at i).data_id)
    → Attached t₁ t₂ i true ((t.at i).data_id)
    → (l' : ℕ → List Bool) × Refined t t₂ l l' × ((t₂.at i).data_id ≡ 0)
halved-Refined t t₁ t₂ l i s h room leaf m₁ m₂ =
    let d = (t.at i).data_id in
    let t₀ = set_data t i 0 in
    let s₀ = set_data-IsTrie t l i 0 s leaf in
    let g₀ = set_data-Grows t l i 0 s leaf in
    let z₀ : (t₀.at i).data_id ≡ 0 = ground arith in
    let free : (b : Bool) → child b (t₀.at i) ≡ 0 = λ b. free_of b in
    let l₁ = extend l t.size i false in
    let s₁ = Attached-IsTrie t₀ t₁ l i false d s₀ m₁ h (free false) z₀ room in
    let g₁ = Attached-Grows t₀ t₁ l i false d s₀ m₁ h (free false) z₀ room in
    let h₁ : i < t₁.size = omega (arith, m₁.one_more) in
    let z₁ : (t₁.at i).data_id ≡ 0 = ap (λ n. n.data_id) m₁.changed ∙ z₀ in
    let free₁ : child true (t₁.at i) ≡ 0 = ap (λ n. n.child1) m₁.changed ∙ free true in
    let room₁ : length (l₁ i) < 128 = rw (g₁.named i h) room in
    let s₂ = Attached-IsTrie t₁ t₂ l₁ i true d s₁ m₂ h₁ free₁ z₁ room₁ in
    let g₂ = Attached-Grows t₁ t₂ l₁ i true d s₁ m₂ h₁ free₁ z₁ room₁ in
    let g = Grows-trans t t₁ t₂ l l₁ _ (Grows-trans t t₀ t₁ l l l₁ g₀ g₁) g₂ in
    let v = Attached-twice-Halved t₀ t₁ t₂ i d h z₀ m₁ m₂ in
    (
      extend l₁ t₁.size i true,
      record {
        trie = s₂;
        grows = g;
        finds = λ a j k x lt f.
            Finds-kept t l s a t₂ _ g (Halved-ends t t₀ t₂ i v refl (λ j ne. ground arith) a) j k x
              lt f;
      },
      v.cleared,
    )
  where
    free_of : (b : Bool) → child b ((set_data t i 0).at i) ≡ 0
    free_of false = rw (==_refl i) (leaf false)
    free_of true = rw (==_refl i) (leaf true)

split-Refined :
    (t : Nodes) (l : ℕ → List Bool) (i : ℕ)
    → IsTrie t l
    → i < t.size
    → length (l i) < 128
    → (l' : ℕ → List Bool) × Refined t (split t i) l l' × (((split t i).at i).data_id ≡ 0)
unfolding split
split-Refined t l i s h room = elim (Bool-cases ((t.at i).data_id == 0)) [
  | inl blank ↦ rw blank (l, Refined-refl t l s, ground arith)
  | inr full ↦
      let ne : (t.at i).data_id ≢ 0 = λ z. ground arith in
      let d = (t.at i).data_id in
      let t₀ = set_data t i 0 in
      let m₁ = attach_data-Attached t₀ i false d h in
      rw full (
        halved-Refined t _ _ l i s h room (λ b. s.leaves i b h ne) m₁
          (attach_data-Attached (attach_data t₀ i false d) i true d (omega (arith, m₁.one_more))))
]

ensure_child-Refined :
    (t : Nodes) (l : ℕ → List Bool) (i : ℕ) (b : Bool)
    → IsTrie t l
    → i < t.size
    → length (l i) < 128
    → (t.at i).data_id ≡ 0
    → (l' : ℕ → List Bool) × Refined t (ensure_child t i b) l l'
      × (child b ((ensure_child t i b).at i) ≢ 0)
unfolding ensure_child
ensure_child-Refined t l i b s h room z = elim (Bool-cases (child b (t.at i) == 0)) [
  | inl absent ↦
      let free : child b (t.at i) ≡ 0 = ground arith in
      let m = attach-Attached t i b h in
      let g = Attached-Grows t _ l i b 0 s m h free z room in
      rw absent (
        extend l t.size i b,
        record {
          trie = Attached-IsTrie t _ l i b 0 s m h free z room;
          grows = g;
          finds = λ a j k x lt f.
              Finds-kept t l s a (attach t i b) _ g
                (λ j k. Attached-ends t _ l i b 0 s m h free z room a j k refl) j k x lt f;
        },
        λ e.
            let made = ap (child b) m.changed ∙ child-set_child b t.size (t.at i) in
            let zero_size : t.size ≡ 0 = sym made ∙ e in absurd (omega (arith, s.some_node)),
      )
  | inr there ↦ rw there (l, Refined-refl t l s, λ e. ground arith)
]

-- What `descend` makes of the nodes, and where it ends.
pub record Descended (t t' : Nodes) (l : ℕ → List Bool) (bits : List ℕ) (i depth r n : ℕ)
    : Type 0 where
  pub labels : ℕ → List Bool
  pub refined : Refined t t' l labels
  pub inside : r < t'.size
  pub way : Way t' bits i depth r n

-- `descend` from a node at its depth changes nothing of what an address finds, and leads to the node
-- that the bits lead to.
pub descend-Descended :
    (depths : ℕ) (t : Nodes) (l : ℕ → List Bool) (i depth n : ℕ) (bits : List ℕ)
    → IsTrie t l
    → i < t.size
    → length (l i) ≡ depth
    → depth + depths ≡ n
    → n ≤ 128
    → let (t', r) = descend t i depth bits depths in Descended t t' l bits i depth r n
unfolding descend
descend-Descended zero t l i depth n bits s h e en le =
    let same : depth ≡ n = omega arith in
    record {
      labels = l;
      refined = Refined-refl t l s;
      inside = h;
      way = rw (sym same) (here i depth);
    }
descend-Descended (suc depths) t l i depth n bits s h e en le =
    let b = bit_at bits depth in
    let room : length (l i) < 128 = omega arith in
    let (l₁, r₁, z) = split-Refined t l i s h room in
    let t₁ = split t i in
    let h₁ : i < t₁.size = omega (arith, r₁.grows.sized) in
    let room₁ : length (l₁ i) < 128 = rw (r₁.grows.named i h) room in
    let (l₂, r₂, ne) = ensure_child-Refined t₁ l₁ i b r₁.trie h₁ room₁ z in
    let t₂ = ensure_child t₁ i b in
    let h₂ : i < t₂.size = omega (arith, r₂.grows.sized) in
    let c = child b (t₂.at i) in
    let deeper : length (l₂ c) ≡ suc depth =
      ap length
        (r₂.trie.labelled i b h₂ ne ∙ ap (λ v. b ∷ v) (r₂.grows.named i h₁ ∙ r₁.grows.named i h))
      ∙ ap suc e in
    let inner =
      descend-Descended depths t₂ l₂ c (suc depth) n bits r₂.trie (r₂.trie.below i b h₂ ne) deeper
        (omega arith) le in
    record {
      labels = inner.labels;
      refined = Refined-trans t t₁ _ l l₁ _ r₁ (Refined-trans t₁ t₂ _ l₁ l₂ _ r₂ inner.refined);
      inside = inner.inside;
      way = step i depth c _ n (inner.refined.grows.kept i b h₂ ne) ne inner.way;
    }
