-- ===== src/Builder/Trie/Walk.antt =====
-- The way an address takes through the trie, and the labels of the nodes: the bits that lead to them.
use haproxy_spoa_firehol_mmd.Prelude.{
  ℕ, zero, suc, ◌+◌, ◌<◌, ◌≤◌, ◌≡◌, ◌≢◌, ◌==◌, refl, sym, ap, ◌∙◌, Bool, List, [], ◌∷◌, arith, inl,
  inr, Bool-cases,
}
use haproxy_spoa_firehol_mmd.Prelude.Lists.{length}
use haproxy_spoa_firehol_mmd.Builder.Trie.{Nodes, child, bit_at}

-- What a reader of the tree finds for an address: it goes on while there is a child.
pub data Finds (t : Nodes) (a : List ℕ) : ℕ → ℕ → ℕ → Type 0 where
  stop : (i k x : ℕ) → child (bit_at a k) (t.at i) ≡ 0 → (t.at i).data_id ≡ x → Finds t a i k x
  down :
      (i k c x : ℕ)
      → child (bit_at a k) (t.at i) ≡ c
      → c ≢ 0
      → Finds t a c (suc k) x
      → Finds t a i k x

-- The children from one node to another, by the bits of an address.
pub data Way (t : Nodes) (a : List ℕ) : ℕ → ℕ → ℕ → ℕ → Type 0 where
  here : (i k : ℕ) → Way t a i k i k
  step :
      (i k c j n : ℕ)
      → child (bit_at a k) (t.at i) ≡ c
      → c ≢ 0
      → Way t a c (suc k) j n
      → Way t a i k j n

-- The first bits of an address, the last one first.
unfoldable pub bits_to : List ℕ → ℕ → List Bool
bits_to a zero = []
bits_to a (suc k) = bit_at a k ∷ bits_to a k

-- A node has the bits that lead to it as its label, at most 128; a node with data has no children.
pub record IsTrie (t : Nodes) (label : ℕ → List Bool) : Type 0 where
  pub some_node : 0 < t.size
  pub root : label 0 ≡ []
  pub below : (i : ℕ) (b : Bool) → i < t.size → child b (t.at i) ≢ 0 → child b (t.at i) < t.size
  pub labelled :
      (i : ℕ) (b : Bool)
      → i < t.size
      → child b (t.at i) ≢ 0
      → label (child b (t.at i)) ≡ b ∷ label i
  pub short : (i : ℕ) → i < t.size → length (label i) ≤ 128
  pub leaves : (i : ℕ) (b : Bool) → i < t.size → (t.at i).data_id ≢ 0 → child b (t.at i) ≡ 0

-- Nodes keep their labels and their children.
pub record Grows (t t' : Nodes) (label label' : ℕ → List Bool) : Type 0 where
  pub sized : t.size ≤ t'.size
  pub named : (i : ℕ) → i < t.size → label' i ≡ label i
  pub kept :
      (i : ℕ) (b : Bool) → i < t.size → child b (t.at i) ≢ 0 → child b (t'.at i) ≡ child b (t.at i)

pub Grows-refl : (t : Nodes) (label : ℕ → List Bool) → Grows t t label label
Grows-refl t label = record { sized = omega arith; named = λ i h. refl; kept = λ i b h c. refl }

pub Grows-trans :
    (t t' t'' : Nodes) (l l' l'' : ℕ → List Bool)
    → Grows t t' l l'
    → Grows t' t'' l' l''
    → Grows t t'' l l''
Grows-trans t t' t'' l l' l'' g h = record {
  sized = omega (arith, g.sized, h.sized);
  named = λ i lt. h.named i (omega (arith, g.sized)) ∙ g.named i lt;
  kept = λ i b lt ne.
      let e = g.kept i b lt ne in h.kept i b (omega (arith, g.sized)) (λ z. ne (sym e ∙ z)) ∙ e;
}

-- A node's data does not depend on the way on.
pub Way-trans :
    (t : Nodes) (a : List ℕ) (i k j n m o : ℕ) → Way t a i k j n → Way t a j n m o → Way t a i k m o
Way-trans t a i k j n m o (here _ _) w = w
Way-trans t a i k j n m o (step _ _ c _ _ e ne v) w =
    step i k c m o e ne (Way-trans t a c (suc k) j n m o v w)

module _ (t t' : Nodes) (l l' : ℕ → List Bool) (s : IsTrie t l) (g : Grows t t' l l')
    (a : List ℕ) where
  -- A way stays.
  pub Way-Grows : (i k j n : ℕ) → i < t.size → Way t a i k j n → Way t' a i k j n
  Way-Grows i k j n h (here _ _) = here i k
  Way-Grows i k j n h (step _ _ c _ _ e ne w) =
      let inside : c < t.size = rw (← e) (s.below i (bit_at a k) h (λ z. ne (sym e ∙ z))) in
      step i k c j n (g.kept i (bit_at a k) h (λ z. ne (sym e ∙ z)) ∙ e) ne
        (Way-Grows c (suc k) j n inside w)

module _ (t : Nodes) (l : ℕ → List Bool) (s : IsTrie t l) (a : List ℕ) where
  -- The label of the node that a way leads to.
  pub Way-label :
      (i k j n : ℕ)
      → i < t.size
      → Way t a i k j n
      → l i ≡ bits_to a k
      → (j < t.size) × (l j ≡ bits_to a n)
  unfolding bits_to
  Way-label i k j n h (here _ _) e = (h, e)
  Way-label i k j n h (step _ _ c _ _ e ne w) f =
      let there : child (bit_at a k) (t.at i) ≢ 0 = λ z. ne (sym e ∙ z) in
      let inside : c < t.size = rw (← e) (s.below i (bit_at a k) h there) in
      Way-label c (suc k) j n inside w
        (ap l (sym e) ∙ s.labelled i (bit_at a k) h there ∙ ap (λ v. bit_at a k ∷ v) f)

  -- Where the nodes on the way of an address are the same, it finds the same. `On k` holds of the labels
  -- on the way.
  pub Finds-same :
      (t' : Nodes) (On : ℕ → List Bool → Type 0)
      → ((k : ℕ) (v : List Bool) → On k v → On (suc k) (bit_at a k ∷ v))
      → ((j k : ℕ) → j < t.size → On k (l j) → t'.at j ≡ t.at j)
      → (i k x : ℕ) → i < t.size
      → On k (l i)
      → Finds t a i k x
      → Finds t' a i k x
  Finds-same t' On next same i k x h on (stop _ _ _ z d) =
      stop i k x (ap (child (bit_at a k)) (same i k h on) ∙ z)
        (ap (λ n. n.data_id) (same i k h on) ∙ d)
  Finds-same t' On next same i k x h on (down _ _ c _ e ne f) =
      let there : child (bit_at a k) (t.at i) ≢ 0 = λ z. ne (sym e ∙ z) in
      let inside : c < t.size = rw (← e) (s.below i (bit_at a k) h there) in
      let named = ap l (sym e) ∙ s.labelled i (bit_at a k) h there in
      down i k c x (ap (child (bit_at a k)) (same i k h on) ∙ e) ne
        (Finds-same t' On next same c (suc k) x inside (rw named (next k (l i) on)) f)

  -- At most one thing is found.
  pub Finds-unique : (i k x y : ℕ) → Finds t a i k x → Finds t a i k y → x ≡ y
  Finds-unique i k x y (stop _ _ _ z d) (stop _ _ _ z' d') = sym d ∙ d'
  Finds-unique i k x y (stop _ _ _ z d) (down _ _ c _ e ne f) = absurd (ne (sym e ∙ z))
  Finds-unique i k x y (down _ _ c _ e ne f) (stop _ _ _ z d) = absurd (ne (sym e ∙ z))
  Finds-unique i k x y (down _ _ c _ e ne f) (down _ _ c' _ e' ne' f') =
      let same : c' ≡ c = sym e' ∙ e in Finds-unique c (suc k) x y f (rw (sym same) f')

  -- Something is found, since labels are short.
  pub Finds-total :
      (fuel i k : ℕ) → i < t.size → 128 < length (l i) + fuel → (x : ℕ) × Finds t a i k x
  Finds-total zero i k h le = absurd (omega (arith, s.short i h))
  Finds-total (suc fuel) i k h le = elim (Bool-cases (child (bit_at a k) (t.at i) == 0)) [
    | inl none_there ↦ ((t.at i).data_id, stop i k _ (ground arith) refl)
    | inr one_there ↦
        let there : child (bit_at a k) (t.at i) ≢ 0 = λ z. ground arith in
        let c = child (bit_at a k) (t.at i) in
        let named = s.labelled i (bit_at a k) h there in
        let longer : length (l c) ≡ suc (length (l i)) = ap length named in
        let (x, f) = Finds-total fuel c (suc k) (s.below i (bit_at a k) h there) (omega arith) in
        (x, down i k c x refl there f)
  ]

  -- What an address finds stays, if it does where the way ends.
  pub Finds-kept :
      (t' : Nodes) (l' : ℕ → List Bool)
      → Grows t t' l l'
      → ((j k : ℕ)
          → j < t.size
          → child (bit_at a k) (t.at j) ≡ 0
          → Finds t' a j k ((t.at j).data_id))
      → (i k x : ℕ) → i < t.size
      → Finds t a i k x
      → Finds t' a i k x
  Finds-kept t' l' g ends i k x h (stop _ _ _ z d) = rw (sym d) (ends i k h z)
  Finds-kept t' l' g ends i k x h (down _ _ c _ e ne f) =
      let there : child (bit_at a k) (t.at i) ≢ 0 = λ z. ne (sym e ∙ z) in
      let inside : c < t.size = rw (← e) (s.below i (bit_at a k) h there) in
      down i k c x (g.kept i (bit_at a k) h there ∙ e) ne
        (Finds-kept t' l' g ends c (suc k) x inside f)
