-- ===== src/Builder/Trie/Attach.antt =====
-- What a new child of a node and new data of a leaf do to the walk.
use haproxy_spoa_firehol_mmd.Prelude.{
  ℕ, suc, ◌<◌, ◌≡◌, ◌≢◌, ◌==◌, refl, sym, ap, ◌∙◌, Bool, true, false, List, ◌∷◌, arith,
  if◌then◌else◌, ◌⊎◌, inl, inr, Bool-cases, ==_refl,
}
use haproxy_spoa_firehol_mmd.Prelude.Lists.{length}
use haproxy_spoa_firehol_mmd.Builder.Trie.{
  TrieNode, Nodes, child, set_child, leaf_of, bit_at, attach, attach_data, set_data,
}
use haproxy_spoa_firehol_mmd.Builder.Trie.Walk.{
  Finds, Finds.stop, Finds.down, IsTrie, Grows, Grows-refl, Grows-trans,
}

-- A child `t.size` of node `i`, a leaf with data `d`; the other nodes are as before.
pub record Attached (t t' : Nodes) (i : ℕ) (b : Bool) (d : ℕ) : Type 0 where
  pub one_more : t'.size ≡ suc t.size
  pub new : t'.at t.size ≡ leaf_of d
  pub changed : t'.at i ≡ set_child b t.size (t.at i)
  pub others : (j : ℕ) → j ≢ i → j < t.size → t'.at j ≡ t.at j

pub attach-Attached : (t : Nodes) (i : ℕ) (b : Bool) → i < t.size → Attached t (attach t i b) i b 0
unfolding attach
attach-Attached t i b h = record {
  one_more = refl;
  new = ground arith;
  changed = ground arith;
  others = λ j ne lt. ground arith;
}

pub attach_data-Attached :
    (t : Nodes) (i : ℕ) (b : Bool) (d : ℕ) → i < t.size → Attached t (attach_data t i b d) i b d
unfolding attach_data
attach_data-Attached t i false d h = record {
  one_more = refl;
  new = ground arith;
  changed = ground arith;
  others = λ j ne lt. ground arith;
}
attach_data-Attached t i true d h = record {
  one_more = refl;
  new = ground arith;
  changed = ground arith;
  others = λ j ne lt. ground arith;
}

-- The label of a new node.
abbrev pub extend : (ℕ → List Bool) → ℕ → ℕ → Bool → ℕ → List Bool
extend l n i b j = if j == n then b ∷ l i else l j

pub bits_differ :
    (b b' : Bool) → (b' ≡ b) ⊎ ((c : ℕ) (n : TrieNode) → child b' (set_child b c n) ≡ child b' n)
bits_differ false false = inl refl
bits_differ true true = inl refl
bits_differ false true = inr (λ c n. refl)
bits_differ true false = inr (λ c n. refl)

pub child-set_child : (b : Bool) (c : ℕ) (n : TrieNode) → child b (set_child b c n) ≡ c
child-set_child false c n = refl
child-set_child true c n = refl

pub child-leaf : (b : Bool) (d : ℕ) → child b (leaf_of d) ≡ 0
child-leaf false d = refl
child-leaf true d = refl

pub data-set_child : (b : Bool) (c : ℕ) (n : TrieNode) → (set_child b c n).data_id ≡ n.data_id
data-set_child false c n = refl
data-set_child true c n = refl

module _ (t t' : Nodes) (l : ℕ → List Bool) (i : ℕ) (b : Bool) (d : ℕ) (s : IsTrie t l)
    (m : Attached t t' i b d) (inside : i < t.size) (free : child b (t.at i) ≡ 0)
    (internal : (t.at i).data_id ≡ 0) (room : length (l i) < 128) where
  old_child :
      (j : ℕ) (b' : Bool)
      → j < t.size
      → ((j ≡ i) × (b' ≡ b) × (child b' (t'.at j) ≡ t.size))
        ⊎ (child b' (t'.at j) ≡ child b' (t.at j))
  old_child j b' h = elim (Bool-cases (j == i)) [
    | inl e ↦
        (let same : j ≡ i = ground arith in
          elim (bits_differ b b') [
            | inl eb ↦ inl (same, eb, rw (same, eb, m.changed) (child-set_child b t.size (t.at i)))
            | inr differ ↦ inr (rw (same, m.changed) (differ t.size (t.at i)))
          ])
    | inr ne ↦ inr (ap (child b') (m.others j (λ e. ground arith) h))
  ]

  -- A child is the new node, or it was there before.
  new_child :
      (j : ℕ) (b' : Bool)
      → j < t'.size
      → child b' (t'.at j) ≢ 0
      → ((j ≡ i) × (b' ≡ b) × (child b' (t'.at j) ≡ t.size))
        ⊎ ((j < t.size) × (child b' (t'.at j) ≡ child b' (t.at j)))
  new_child j b' h ne = elim (Bool-cases (j == t.size)) [
    | inl e ↦
        (let last : j ≡ t.size = ground arith in
          absurd (ne (ap (λ v. child b' (t'.at v)) last ∙ ap (child b') m.new ∙ child-leaf b' d)))
    | inr before ↦
        (let h' : j < t.size = ground (arith, m.one_more) in
          elim (old_child j b' h') [ inl changed ↦ inl changed | inr same ↦ inr (h', same) ])
  ]

  extend-old : (j : ℕ) → j < t.size → extend l t.size i b j ≡ l j
  extend-old j h = ground arith

  extend-new : extend l t.size i b t.size ≡ b ∷ l i
  extend-new = rw (==_refl t.size)

  pub Attached-IsTrie : IsTrie t' (extend l t.size i b)
  Attached-IsTrie = record {
    some_node = omega (arith, m.one_more);
    root = extend-old 0 s.some_node ∙ s.root;
    below = λ j b' h ne. elim (new_child j b' h ne) [
      | inl (e, eb, c) ↦ omega (arith, m.one_more)
      | inr (h', c) ↦ (let older = s.below j b' h' (λ z. ne (c ∙ z)) in omega (arith, m.one_more))
    ];
    labelled = λ j b' h ne. elim (new_child j b' h ne) [
      | inl (e, eb, c) ↦
          ap (extend l t.size i b) c
          ∙ extend-new
          ∙ sym (
              ap (λ v. b' ∷ extend l t.size i b v) e
              ∙ ap (λ v. b' ∷ v) (extend-old i inside)
              ∙ ap (λ v. v ∷ l i) eb)
      | inr (h', c) ↦
          (let older = s.below j b' h' (λ z. ne (c ∙ z)) in
            ap (extend l t.size i b) c
            ∙ extend-old _ older
            ∙ s.labelled j b' h' (λ z. ne (c ∙ z))
            ∙ ap (λ v. b' ∷ v) (sym (extend-old j h')))
    ];
    short = λ j h. elim (Bool-cases (j == t.size)) [
      | inl e ↦ rw e (omega arith)
      | inr before ↦ rw before (s.short j (ground (arith, m.one_more)))
    ];
    leaves = λ j b' h ne. elim (Bool-cases (j == t.size)) [
      | inl e ↦
          (let last : j ≡ t.size = ground arith in
            ap (λ v. child b' (t'.at v)) last ∙ ap (child b') m.new ∙ child-leaf b' d)
      | inr before ↦
          (let h' : j < t.size = ground (arith, m.one_more) in
            elim (Bool-cases (j == i)) [
              | inl e ↦
                  (let same : j ≡ i = ground arith in
                    absurd (
                      ne (
                        ap (λ v. (t'.at v).data_id) same
                        ∙ ap (λ n. n.data_id) m.changed
                        ∙ data-set_child b t.size (t.at i)
                        ∙ internal)))
              | inr other ↦
                  (let same = m.others j (λ e. ground arith) h' in
                    ap (child b') same ∙ s.leaves j b' h' (λ z. ne (ap (λ n. n.data_id) same ∙ z)))
            ])
    ];
  }

  pub Attached-Grows : Grows t t' l (extend l t.size i b)
  Attached-Grows = record {
    sized = omega (arith, m.one_more);
    named = λ j h. extend-old j h;
    kept = λ j b' h ne. elim (old_child j b' h) [
      | inl (e, eb, c) ↦
          absurd (ne (ap (λ v. child b' (t.at v)) e ∙ ap (λ v. child v (t.at i)) eb ∙ free))
      | inr same ↦ same
    ];
  }

  pub data_kept : (j : ℕ) → j < t.size → (t'.at j).data_id ≡ (t.at j).data_id
  data_kept j h = elim (Bool-cases (j == i)) [
    | inl e ↦
        (let same : j ≡ i = ground arith in rw (same, m.changed) (data-set_child b t.size (t.at i)))
    | inr other ↦ ap (λ n. n.data_id) (m.others j (λ e. ground arith) h)
  ]

  -- An address whose way ends at the node finds nothing, as before.
  pub Attached-ends :
      (a : List ℕ) (j k : ℕ)
      → d ≡ 0
      → j < t.size
      → child (bit_at a k) (t.at j) ≡ 0
      → Finds t' a j k ((t.at j).data_id)
  Attached-ends a j k blank h z = elim (old_child j (bit_at a k) h) [
    | inl (e, eb, c) ↦
        down j k t.size _ c (λ z. absurd (omega (arith, s.some_node)))
          (stop t.size (suc k) _
            (ap (child (bit_at a (suc k))) m.new ∙ child-leaf (bit_at a (suc k)) d)
            (ap (λ n. n.data_id) m.new ∙ blank ∙ sym internal ∙ ap (λ v. (t.at v).data_id) (sym e)))
    | inr same ↦ stop j k _ (same ∙ z) (data_kept j h)
  ]

-- Data of a leaf.
module _ (t : Nodes) (l : ℕ → List Bool) (i d : ℕ) (s : IsTrie t l)
    (leaf : (b : Bool) → child b (t.at i) ≡ 0) where
  same_child : (j : ℕ) (b : Bool) → child b ((set_data t i d).at j) ≡ child b (t.at j)
  same_child j false = ground arith
  same_child j true = ground arith

  pub set_data-IsTrie : IsTrie (set_data t i d) l
  set_data-IsTrie = record {
    some_node = s.some_node;
    root = s.root;
    below = λ j b h ne. rw (same_child j b) (s.below j b h (λ z. ne (same_child j b ∙ z)));
    labelled = λ j b h ne. rw (same_child j b) (s.labelled j b h (λ z. ne (same_child j b ∙ z)));
    short = s.short;
    leaves = λ j b h ne. same_child j b ∙ elim (Bool-cases (j == i)) [
      | inl e ↦ (let same : j ≡ i = ground arith in rw same (leaf b))
      | inr other ↦ s.leaves j b h (λ z. ne (rw other z))
    ];
  }

  pub set_data-Grows : Grows t (set_data t i d) l l
  set_data-Grows = record {
    sized = omega arith;
    named = λ j h. refl;
    kept = λ j b h ne. same_child j b;
  }

-- A step of `descend`: every address finds what it found before.
pub record Refined (t t' : Nodes) (l l' : ℕ → List Bool) : Type 0 where
  pub trie : IsTrie t' l'
  pub grows : Grows t t' l l'
  pub finds : (a : List ℕ) (j k x : ℕ) → j < t.size → Finds t a j k x → Finds t' a j k x

pub Refined-refl : (t : Nodes) (l : ℕ → List Bool) → IsTrie t l → Refined t t l l
Refined-refl t l s = record { trie = s; grows = Grows-refl t l; finds = λ a j k x h f. f }

pub Refined-trans :
    (t t' t'' : Nodes) (l l' l'' : ℕ → List Bool)
    → Refined t t' l l'
    → Refined t' t'' l' l''
    → Refined t t'' l l''
Refined-trans t t' t'' l l' l'' r q = record {
  trie = q.trie;
  grows = Grows-trans t t' t'' l l' l'' r.grows q.grows;
  finds = λ a j k x h f. q.finds a j k x (omega (arith, r.grows.sized)) (r.finds a j k x h f);
}
