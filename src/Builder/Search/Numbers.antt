-- ===== src/Builder/Search/Numbers.antt =====
-- The numbers of the nodes: each node with children has one, and the node at a number is that node.
use haproxy_spoa_firehol_mmd.Prelude.{
  ℕ, zero, suc, ◌+◌, ◌<◌, ◌≤◌, ◌≡◌, ◌≢◌, ◌==◌, refl, sym, ap, ◌∙◌, Bool, true, false, List, [], ◌∷◌,
  ◌++◌, arith, Option, some, inl, inr, Bool-cases, ==_refl,
}
use haproxy_spoa_firehol_mmd.Prelude.Lists.{length, get_or, length-append}
use haproxy_spoa_firehol_mmd.Builder.Trie.{Nodes, child}
use haproxy_spoa_firehol_mmd.Builder.Trie.Walk.{IsTrie}
use haproxy_spoa_firehol_mmd.Builder.Trie.Below.{
  Below, Below-refl, Below-tail, Below-apart, Below-cons,
}
use haproxy_spoa_firehol_mmd.Builder.Prune.Leaf.{side_apart}
use haproxy_spoa_firehol_mmd.Builder.Search.{
  Numbering, is_leaf, number_node, assign_child, assign_node_ids,
}

-- Nodes below a node, by their children.
pub data Reach (t : Nodes) : ℕ → ℕ → Type 0 where
  self : (i : ℕ) → Reach t i i
  side : (i j : ℕ) (b : Bool) → child b (t.at i) ≢ 0 → Reach t (child b (t.at i)) j → Reach t i j

-- The node has a number, at which it stands in the order.
pub record Numbered (s : Numbering) (j : ℕ) : Type 0 where
  pub known : s.mapping j < s.next_id
  pub placed : get_or s.ordered (s.mapping j) 0 ≡ j

get_or-append : (xs ys : List ℕ) (k : ℕ) → k < length xs → get_or (xs ++ ys) k 0 ≡ get_or xs k 0
get_or-append [] ys k h = absurd (omega arith)
get_or-append (x ∷ xs) ys zero h = refl
get_or-append (x ∷ xs) ys (suc k) h = get_or-append xs ys k (omega arith)

get_or-end : (xs : List ℕ) (y : ℕ) → get_or (xs ++ (y ∷ [])) (length xs) 0 ≡ y
get_or-end [] y = refl
get_or-end (x ∷ xs) y = get_or-end xs y

-- The numbering of the subtree of node `i`.
pub record Assigned (t : Nodes) (l : ℕ → List Bool) (i : ℕ) (s s' : Numbering) : Type 0 where
  pub counted : length s'.ordered ≡ s'.next_id
  pub more : s.next_id ≤ s'.next_id
  pub placed : (k : ℕ) → k < s.next_id → get_or s'.ordered k 0 ≡ get_or s.ordered k 0
  pub frame : (j : ℕ) → j < t.size → ¬ Below (l i) (l j) → s'.mapping j ≡ s.mapping j
  pub leaves : (j : ℕ) → is_leaf (t.at j) ≡ true → s'.mapping j ≡ s.mapping j
  pub all : (j : ℕ) → Reach t i j → is_leaf (t.at j) ≡ false → Numbered s' j
  pub first : is_leaf (t.at i) ≡ false → s'.mapping i ≡ s.next_id

record SideAssigned (t : Nodes) (l : ℕ → List Bool) (i : ℕ) (b : Bool) (s s' : Numbering)
    : Type 0 where
  counted : length s'.ordered ≡ s'.next_id
  more : s.next_id ≤ s'.next_id
  placed : (k : ℕ) → k < s.next_id → get_or s'.ordered k 0 ≡ get_or s.ordered k 0
  frame : (j : ℕ) → j < t.size → ¬ Below (b ∷ l i) (l j) → s'.mapping j ≡ s.mapping j
  leaves : (j : ℕ) → is_leaf (t.at j) ≡ true → s'.mapping j ≡ s.mapping j
  all :
      (j : ℕ)
      → child b (t.at i) ≢ 0
      → Reach t (child b (t.at i)) j
      → is_leaf (t.at j) ≡ false
      → Numbered s' j

-- A number stays.
Numbered-kept :
    (s s' : Numbering) (j : ℕ)
    → s'.mapping j ≡ s.mapping j
    → s.next_id ≤ s'.next_id
    → ((k : ℕ) → k < s.next_id → get_or s'.ordered k 0 ≡ get_or s.ordered k 0)
    → Numbered s j
    → Numbered s' j
Numbered-kept s s' j same more placed n = record {
  known = rw same (omega (arith, n.known, more));
  placed = rw same (placed (s.mapping j) n.known ∙ n.placed);
}

-- What is below a node has a label below its label.
pub Reach-Below :
    (t : Nodes) (l : ℕ → List Bool) (s : IsTrie t l) (i j : ℕ) (p : List Bool)
    → i < t.size
    → Reach t i j
    → ((v : List Bool) (b : Bool) → Below p v → Below p (b ∷ v))
    → Below p (l i)
    → (j < t.size) × Below p (l j)
Reach-Below t l s i j p h (self _) next on = (h, on)
Reach-Below t l s i j p h (side _ _ b ne r) next on =
    Reach-Below t l s (child b (t.at i)) j p (s.below i b h ne) r next
      (rw (s.labelled i b h ne) (next (l i) b on))

module _ (t : Nodes) (l : ℕ → List Bool) (trie : IsTrie t l) where
  Below-side :
      (i j : ℕ) (b : Bool)
      → i < t.size
      → child b (t.at i) ≢ 0
      → Reach t (child b (t.at i)) j
      → (j < t.size) × Below (b ∷ l i) (l j)
  Below-side i j b h ne r =
      Reach-Below t l trie (child b (t.at i)) j (b ∷ l i) (trie.below i b h ne) r
        (λ v c on. Below-cons (b ∷ l i) v c on) (rw (trie.labelled i b h ne) (Below-refl (b ∷ l i)))

  none-SideAssigned :
      (i : ℕ) (b : Bool) (s : Numbering)
      → length s.ordered ≡ s.next_id
      → child b (t.at i) ≡ 0
      → SideAssigned t l i b s s
  none-SideAssigned i b s e z = record {
    counted = e;
    more = omega arith;
    placed = λ k lt. refl;
    frame = λ j lt _. refl;
    leaves = λ j _. refl;
    all = λ j ne r _. absurd (ne z);
  }

  below-SideAssigned :
      (i : ℕ) (b : Bool) (s s' : Numbering)
      → i < t.size
      → child b (t.at i) ≢ 0
      → Assigned t l (child b (t.at i)) s s'
      → SideAssigned t l i b s s'
  below-SideAssigned i b s s' h ne m = record {
    counted = m.counted;
    more = m.more;
    placed = m.placed;
    frame = λ j lt apart. m.frame j lt (λ v. apart (rw (trie.labelled i b h ne) at v));
    leaves = m.leaves;
    all = λ j _ r inner. m.all j r inner;
  }

  assign_child-SideAssigned :
      (assign : ℕ → Numbering → Option Numbering) (i : ℕ) (b : Bool) (s : Numbering)
      → i < t.size
      → length s.ordered ≡ s.next_id
      → (child b (t.at i) ≢ 0
          → (s' : Numbering) × (assign (child b (t.at i)) s ≡ some s')
            × Assigned t l (child b (t.at i)) s s')
      → (s' : Numbering) × (assign_child assign b (t.at i) s ≡ some s') × SideAssigned t l i b s s'
  unfolding assign_child
  assign_child-SideAssigned assign i b s h e rec = elim (Bool-cases (child b (t.at i) == 0)) [
    | inl absent ↦ (s, rw absent refl, none-SideAssigned i b s e (ground arith))
    | inr there ↦
        let ne : child b (t.at i) ≢ 0 = λ z. ground arith in
        let (s', f, m) = rec ne in (s', rw there f, below-SideAssigned i b s s' h ne m)
  ]

  number_node-Numbered :
      (i : ℕ) (s : Numbering) → length s.ordered ≡ s.next_id → Numbered (number_node i s) i
  unfolding number_node
  number_node-Numbered i s e = record {
    known = rw (==_refl i) (omega arith);
    placed = rw (==_refl i, sym e) (get_or-end s.ordered i);
  }

  length-number_node :
      (i : ℕ) (s : Numbering)
      → length s.ordered ≡ s.next_id
      → length (number_node i s).ordered ≡ (number_node i s).next_id
  unfolding number_node
  length-number_node i s e = omega (arith, length-append s.ordered (i ∷ []))

  -- The node itself, then its sides.
  node-Assigned :
      (i : ℕ) (s s₁ s₂ : Numbering)
      → i < t.size
      → is_leaf (t.at i) ≡ false
      → length s.ordered ≡ s.next_id
      → SideAssigned t l i false (number_node i s) s₁
      → SideAssigned t l i true s₁ s₂
      → Assigned t l i s s₂
  unfolding number_node
  node-Assigned i s s₁ s₂ h inner e m n = record {
    counted = n.counted;
    more = omega (arith, m.more, n.more);
    placed = λ k lt.
        n.placed k (omega (arith, m.more))
        ∙ m.placed k (omega arith)
        ∙ get_or-append s.ordered (i ∷ []) k (omega arith);
    frame = λ j lt apart.
        n.frame j lt (λ v. apart (Below-tail (l i) (l j) true v))
        ∙ m.frame j lt (λ v. apart (Below-tail (l i) (l j) false v))
        ∙ other j (λ same. apart (rw same (Below-refl (l i))));
    leaves = λ j leaf.
        n.leaves j leaf
        ∙ m.leaves j leaf
        ∙ other j (λ same. leaf_or_not (ap (λ v. is_leaf (t.at v)) (sym same) ∙ leaf));
    all = reached;
    first = λ _.
        n.frame i h (side_apart (l i) true)
        ∙ m.frame i h (side_apart (l i) false)
        ∙ rw (==_refl i) refl;
  }
    where
      leaf_or_not : is_leaf (t.at i) ≡ true → ⊥
      leaf_or_not leaf = cc

      other : (j : ℕ) → j ≢ i → (number_node i s).mapping j ≡ s.mapping j
      other j ne = ground arith

      true-false : true ≡ false → ⊥
      true-false f = cc

      kept : (j : ℕ) → j < t.size → ¬ Below (true ∷ l i) (l j) → Numbered s₁ j → Numbered s₂ j
      kept j lt apart v = Numbered-kept s₁ s₂ j (n.frame j lt apart) n.more n.placed v

      reached : (j : ℕ) → Reach t i j → is_leaf (t.at j) ≡ false → Numbered s₂ j
      reached j (self _) inner_j = kept i h (side_apart (l i) true) (
          Numbered-kept (number_node i s) s₁ i (m.frame i h (side_apart (l i) false)) m.more
            m.placed (number_node-Numbered i s e))
      reached j (side _ _ false ne r) inner_j =
          let (lt, on) = Below-side i j false h ne r in
          kept j lt (λ v. Below-apart (l i) (l j) true false (λ f. true-false f) v on)
            (m.all j ne r inner_j)
      reached j (side _ _ true ne r) inner_j = n.all j ne r inner_j

  -- Numbering a subtree ends, with as much fuel as there are levels, and numbers the nodes that have
  -- children, and no other.
  pub assign_node_ids-Assigned :
      (fuel i : ℕ) (s : Numbering)
      → i < t.size
      → length s.ordered ≡ s.next_id
      → 128 < length (l i) + fuel
      → (s' : Numbering) × (assign_node_ids t fuel i s ≡ some s') × Assigned t l i s s'
  unfolding assign_node_ids
  assign_node_ids-Assigned zero i s h e le = absurd (omega (arith, trie.short i h))
  assign_node_ids-Assigned (suc fuel) i s h e le = elim (Bool-cases (is_leaf (t.at i))) [
    | inl leaf ↦ (s, rw leaf refl, leaf-Assigned leaf)
    | inr inner ↦
        let assign : ℕ → Numbering → Option Numbering = λ c. assign_node_ids t fuel c in
        let (s₁, e₁, m₁) =
          assign_child-SideAssigned assign i false (number_node i s) h counted_node (λ c.
            assign_node_ids-Assigned fuel (child false (t.at i)) (number_node i s)
              (trie.below i false h c) counted_node
              (omega (arith, ap length (trie.labelled i false h c)))) in
        let (s₂, e₂, m₂) = assign_child-SideAssigned assign i true s₁ h m₁.counted (λ c.
          assign_node_ids-Assigned fuel (child true (t.at i)) s₁ (trie.below i true h c) m₁.counted
            (omega (arith, ap length (trie.labelled i true h c)))) in
        (s₂, rw (inner, e₁, e₂) refl, node-Assigned i s s₁ s₂ h inner e m₁ m₂)
  ]
    where
      counted_node : length (number_node i s).ordered ≡ (number_node i s).next_id
      counted_node = length-number_node i s e

      both : is_leaf (t.at i) ≡ true → is_leaf (t.at i) ≡ false → ⊥
      both leaf inner = cc

      only_leaf :
          is_leaf (t.at i) ≡ true → (j : ℕ) → Reach t i j → is_leaf (t.at j) ≡ false → Numbered s j
      only_leaf leaf j (self _) inner_j = cc
      only_leaf leaf j (side _ _ false ne r) inner_j = absurd (ne (ground arith))
      only_leaf leaf j (side _ _ true ne r) inner_j = absurd (ne (ground arith))

      leaf-Assigned : is_leaf (t.at i) ≡ true → Assigned t l i s s
      leaf-Assigned leaf = record {
        counted = e;
        more = omega arith;
        placed = λ k lt. refl;
        frame = λ j lt _. refl;
        leaves = λ j _. refl;
        all = λ j r inner_j. only_leaf leaf j r inner_j;
        first = λ inner. absurd (both leaf inner);
      }
