-- ===== src/Builder/Used/Found.antt =====
-- The records that are used are those that an address finds.
use haproxy_spoa_firehol_mmd.Prelude.{
  ℕ, zero, suc, ◌+◌, ◌<◌, ◌≡◌, ◌≢◌, ◌==◌, refl, sym, ap, ◌∙◌, Bool, true, false, List, [], Option,
  some, arith, ◌⊎◌, inl, inr, Bool-cases, ==_refl,
}
use haproxy_spoa_firehol_mmd.Prelude.Lists.{length}
use haproxy_spoa_firehol_mmd.Builder.Trie.{Nodes, child, bit_at}
use haproxy_spoa_firehol_mmd.Builder.Trie.Walk.{Finds, Finds.stop, Finds.down, IsTrie}
use haproxy_spoa_firehol_mmd.Builder.Search.{is_leaf}
use haproxy_spoa_firehol_mmd.Builder.Search.Numbers.{Reach, self, side}
use haproxy_spoa_firehol_mmd.Builder.Used.{has, insert_used, collect_child, collect_used_data}

-- A leaf below a node that has data.
pub record Holds (t : Nodes) (i x : ℕ) : Type 0 where
  pub node : ℕ
  pub reached : Reach t i node
  pub leaf : is_leaf (t.at node) ≡ true
  pub data_there : (t.at node).data_id ≡ x
  pub some_data : x ≢ 0

-- The set got exactly the data of the leaves below a node.
pub record Collected (t : Nodes) (i : ℕ) (used used' : List ℕ) : Type 0 where
  pub kept : (x : ℕ) → has x used ≡ true → has x used' ≡ true
  pub all : (x : ℕ) → Holds t i x → has x used' ≡ true
  pub only : (x : ℕ) → has x used' ≡ true → (has x used ≡ true) ⊎ Holds t i x

record SideCollected (t : Nodes) (i : ℕ) (b : Bool) (used used' : List ℕ) : Type 0 where
  kept : (x : ℕ) → has x used ≡ true → has x used' ≡ true
  all : child b (t.at i) ≢ 0 → (x : ℕ) → Holds t (child b (t.at i)) x → has x used' ≡ true
  only :
      (x : ℕ)
      → has x used' ≡ true
      → (has x used ≡ true) ⊎ ((child b (t.at i) ≢ 0) × Holds t (child b (t.at i)) x)

leaf_alone : (t : Nodes) (i j : ℕ) → is_leaf (t.at i) ≡ true → Reach t i j → j ≡ i
leaf_alone t i j leaf (self _) = refl
leaf_alone t i j leaf (side _ _ true ne r) = absurd (ground arith)
leaf_alone t i j leaf (side _ _ false ne r) = absurd (ground arith)

insert_used-has : (x y : ℕ) (used : List ℕ) → has x used ≡ true → has x (insert_used y used) ≡ true
unfolding insert_used has
insert_used-has x y used h = ground arith

insert_used-new : (x : ℕ) (used : List ℕ) → x ≢ 0 → has x (insert_used x used) ≡ true
unfolding insert_used has
insert_used-new x used ne = ground (arith, ==_refl x)

insert_used-only :
    (x y : ℕ) (used : List ℕ)
    → has x (insert_used y used) ≡ true
    → (has x used ≡ true) ⊎ ((x ≡ y) × (x ≢ 0))
unfolding insert_used has
insert_used-only x y used h = elim (Bool-cases (has x used)) [
  | inl there ↦ inl there
  | inr not_there ↦ inr (ground arith, λ z. ground arith)
]

leaf-Collected :
    (t : Nodes) (i : ℕ) (used : List ℕ)
    → is_leaf (t.at i) ≡ true
    → Collected t i used (insert_used (t.at i).data_id used)
leaf-Collected t i used leaf = record {
  kept = λ x h. insert_used-has x (t.at i).data_id used h;
  all = λ x h.
      (let same = leaf_alone t i h.node leaf h.reached in
        let here : (t.at i).data_id ≡ x = ap (λ j. (t.at j).data_id) (sym same) ∙ h.data_there in
        rw here (insert_used-new x used h.some_data));
  only = λ x h. elim (insert_used-only x (t.at i).data_id used h) [
    | inl before ↦ inl before
    | inr (is, ne) ↦
        inr
          (record { node = i; reached = self i; leaf = leaf; data_there = sym is; some_data = ne })
  ];
}

collect_child-SideCollected :
    (t : Nodes) (collect : ℕ → List ℕ → Option (List ℕ)) (i : ℕ) (b : Bool) (used : List ℕ)
    → (child b (t.at i) ≢ 0
        → (used' : List ℕ) × (collect (child b (t.at i)) used ≡ some used')
          × Collected t (child b (t.at i)) used used')
    → (used' : List ℕ) × (collect_child collect b (t.at i) used ≡ some used')
      × SideCollected t i b used used'
unfolding collect_child
collect_child-SideCollected t collect i b used rec = elim (Bool-cases (child b (t.at i) == 0)) [
  | inl absent ↦ (
    used,
    rw absent refl,
    record { kept = λ x h. h; all = λ ne x h. absurd (ground arith); only = λ x h. inl h },
  )
  | inr there ↦
      (let ne : child b (t.at i) ≢ 0 = λ e. ground arith in
        let (used', e, m) = rec ne in
        (
          used',
          rw there e,
          record {
            kept = m.kept;
            all = λ _ x h. m.all x h;
            only = λ x h. elim (m.only x h) [ inl before ↦ inl before | inr new ↦ inr (ne, new) ];
          },
        ))
]

-- What is below a side is below the node.
Holds-above :
    (t : Nodes) (i x : ℕ) (b : Bool)
    → child b (t.at i) ≢ 0
    → Holds t (child b (t.at i)) x
    → Holds t i x
Holds-above t i x b ne h = record {
  node = h.node;
  reached = side i h.node b ne h.reached;
  leaf = h.leaf;
  data_there = h.data_there;
  some_data = h.some_data;
}

both_sides :
    (t : Nodes) (i : ℕ) (used used₁ used₂ : List ℕ)
    → is_leaf (t.at i) ≡ false
    → SideCollected t i false used used₁
    → SideCollected t i true used₁ used₂
    → Collected t i used used₂
both_sides t i used used₁ used₂ inner m n = record {
  kept = λ x h. n.kept x (m.kept x h);
  all = λ x h. at_side x h.node h.reached h.leaf h.data_there h.some_data;
  only = λ x h. elim (n.only x h) [
    | inr (ne, new) ↦ inr (Holds-above t i x true ne new)
    | inl before ↦ elim (m.only x before) [
      | inl first ↦ inl first
      | inr (ne, new) ↦ inr (Holds-above t i x false ne new)
    ]
  ];
}
  where
    at_side :
        (x j : ℕ)
        → Reach t i j
        → is_leaf (t.at j) ≡ true
        → (t.at j).data_id ≡ x
        → x ≢ 0
        → has x used₂ ≡ true
    at_side x j (self _) leaf e ne = absurd cc
    at_side x j (side _ _ true there r) leaf e ne =
        n.all there x
          (record { node = j; reached = r; leaf = leaf; data_there = e; some_data = ne })
    at_side x j (side _ _ false there r) leaf e ne = n.kept x (
        m.all there x
          (record { node = j; reached = r; leaf = leaf; data_there = e; some_data = ne }))

collect_used_data-Collected :
    (t : Nodes) (l : ℕ → List Bool) (fuel i : ℕ) (used : List ℕ)
    → IsTrie t l
    → i < t.size
    → 128 < length (l i) + fuel
    → (used' : List ℕ) × (collect_used_data t fuel i used ≡ some used') × Collected t i used used'
unfolding collect_used_data
collect_used_data-Collected t l zero i used s h le = absurd (omega (arith, s.short i h))
collect_used_data-Collected t l (suc fuel) i used s h le = elim (Bool-cases (is_leaf (t.at i))) [
  | inl leaf ↦ (insert_used (t.at i).data_id used, rw leaf refl, leaf-Collected t i used leaf)
  | inr inner ↦
      (let collect : ℕ → List ℕ → Option (List ℕ) = λ c u. collect_used_data t fuel c u in
        let (used₁, e₁, m₁) = collect_child-SideCollected t collect i false used (λ c.
          collect_used_data-Collected t l fuel (child false (t.at i)) used s (s.below i false h c)
            (omega (arith, ap length (s.labelled i false h c)))) in
        let (used₂, e₂, m₂) = collect_child-SideCollected t collect i true used₁ (λ c.
          collect_used_data-Collected t l fuel (child true (t.at i)) used₁ s (s.below i true h c)
            (omega (arith, ap length (s.labelled i true h c)))) in
        (used₂, rw (inner, e₁, e₂) refl, both_sides t i used used₁ used₂ inner m₁ m₂))
]

Finds-Holds :
    (t : Nodes) (l : ℕ → List Bool) (a : List ℕ) (i k x : ℕ)
    → IsTrie t l
    → i < t.size
    → x ≢ 0
    → Finds t a i k x
    → Holds t i x
Finds-Holds t l a i k x s h ne (stop _ _ _ z e) =
    let some_data : (t.at i).data_id ≢ 0 = λ d. ne (sym e ∙ d) in
    let left = s.leaves i false h some_data in
    let right = s.leaves i true h some_data in
    record { node = i; reached = self i; leaf = ground arith; data_there = e; some_data = ne }
Finds-Holds t l a i k x s h ne (down _ _ c _ e nz f) =
    let there : child (bit_at a k) (t.at i) ≢ 0 = λ z. nz (sym e ∙ z) in
    let inside : c < t.size = rw (← e) (s.below i (bit_at a k) h there) in
    let below = Finds-Holds t l a c (suc k) x s inside ne f in
    Holds-above t i x (bit_at a k) there (rw e below)

-- The walk over the trie ends. It gives the ID of every record that an address finds, and no ID but those
-- of the records of leaves of the trie; 0, which stands for no record, is not among them.
pub collect_used_data_lem :
    (t : Nodes) (l : ℕ → List Bool)
    → IsTrie t l
    → (used : List ℕ) × (collect_used_data t 129 0 [] ≡ some used)
      × ((a : List ℕ) (x : ℕ) → x ≢ 0 → Finds t a 0 0 x → has x used ≡ true)
      × ((x : ℕ) → has x used ≡ true → Holds t 0 x)
unfolding has
collect_used_data_lem t l s =
    let (used, e, m) = collect_used_data-Collected t l 129 0 [] s s.some_node (omega arith) in
    (
      used,
      e,
      (λ a x ne f. m.all x (Finds-Holds t l a 0 0 x s s.some_node ne f)),
      λ x h. new_only (m.only x h),
    )
  where
    new_only : {x : ℕ} → (has x [] ≡ true) ⊎ Holds t 0 x → Holds t 0 x
    new_only (inl none_before) = absurd cc
    new_only (inr new) = new
