-- ===== src/Builder/Search/Empty.antt =====
-- A trie with the same data everywhere gives a search tree without nodes.
use haproxy_spoa_firehol_mmd.Prelude.{
  ℕ, zero, suc, ◌+◌, ◌<◌, ◌≡◌, ◌≢◌, ◌==◌, refl, sym, ap, ◌∙◌, Bool, true, false, List, [], ◌∷◌,
  arith, Option, none, some, ==_refl,
}
use haproxy_spoa_firehol_mmd.Prelude.Lists.{length}
use haproxy_spoa_firehol_mmd.Builder.Trie.{Nodes, child, bit_at}
use haproxy_spoa_firehol_mmd.Builder.Trie.Walk.{Finds, Finds.stop, Finds.down, IsTrie}
use haproxy_spoa_firehol_mmd.Builder.Trie.Below.{Below, Below-refl, Below-cons, Below-apart}
use haproxy_spoa_firehol_mmd.Builder.Prune.{collapse, prune_child, prune_tree}
use haproxy_spoa_firehol_mmd.Builder.Prune.Leaf.{Pruned, side_apart}
use haproxy_spoa_firehol_mmd.Builder.Prune.Keeps.{prune_tree-Pruned}
use haproxy_spoa_firehol_mmd.Builder.Search.{unnumbered, is_leaf, tree_bytes, search_tree}
use haproxy_spoa_firehol_mmd.Builder.Search.Lookup.{leaf-child}
use haproxy_spoa_firehol_mmd.Builder.Search.Built.{assign_leaf}

-- Below the node no child is missing, and every leaf has the data.
pub data Full (t : Nodes) (x : ℕ) : ℕ → Type 0 where
  ends : (i : ℕ) → is_leaf (t.at i) ≡ true → (t.at i).data_id ≡ x → Full t x i
  forks :
      (i : ℕ)
      → ((b : Bool) → child b (t.at i) ≢ 0)
      → Full t x (child false (t.at i))
      → Full t x (child true (t.at i))
      → Full t x i

side-Finds :
    (t : Nodes) (a : List ℕ) (i k x : ℕ) (b : Bool)
    → Finds t a (child false (t.at i)) k x
    → Finds t a (child true (t.at i)) k x
    → Finds t a (child b (t.at i)) k x
side-Finds t a i k x false f g = f
side-Finds t a i k x true f g = g

Full-Finds : (t : Nodes) (x i : ℕ) (a : List ℕ) (k : ℕ) → Full t x i → Finds t a i k x
Full-Finds t x i a k (ends _ leaf e) = stop i k x (leaf-child (t.at i) (bit_at a k) leaf) e
Full-Finds t x i a k (forks _ there f g) =
    down i k (child (bit_at a k) (t.at i)) x refl (there (bit_at a k)) (
      side-Finds t a i (suc k) x (bit_at a k) (Full-Finds t x (child false (t.at i)) a (suc k) f)
        (Full-Finds t x (child true (t.at i)) a (suc k) g))

Full-same :
    (t t' : Nodes) (l : ℕ → List Bool) (p : List Bool) (x i : ℕ)
    → IsTrie t l
    → ((j : ℕ) → j < t.size → Below p (l j) → t'.at j ≡ t.at j)
    → i < t.size
    → Below p (l i)
    → Full t x i
    → Full t' x i
Full-same t t' l p x i s same h on (ends _ leaf e) =
    let here = same i h on in ends i (ap is_leaf here ∙ leaf) (ap (λ n. n.data_id) here ∙ e)
Full-same t t' l p x i s same h on (forks _ there f g) =
    let here = same i h on in
    let below : (b : Bool) → Below p (l (child b (t.at i))) =
      λ b. rw (s.labelled i b h (there b)) (Below-cons p (l i) b on) in
    let left =
      Full-same t t' l p x (child false (t.at i)) s same (s.below i false h (there false))
        (below false) f in
    let right =
      Full-same t t' l p x (child true (t.at i)) s same (s.below i true h (there true)) (below true)
        g in
    forks i (λ b. rw here (there b)) (rw here left) (rw here right)

result_inj : (r r' : ℕ × Nodes) → some r ≡ some r' → r ≡ r'
result_inj r r' e = ap or_this e
  where
    or_this : Option (ℕ × Nodes) → ℕ × Nodes
    or_this none = r
    or_this (some v) = v

prune_tree_result :
    (fuel i : ℕ) (t t' : Nodes) (l : ℕ → List Bool) (x : ℕ)
    → IsTrie t l
    → i < t.size
    → 128 < length (l i) + fuel
    → prune_tree fuel i t ≡ some (x, t')
    → Pruned t t' l i x
prune_tree_result fuel i t t' l x s h le e =
    let (d, u, e', m) = prune_tree-Pruned fuel i t l s h le in
    let same = result_inj (d, u) (x, t') (sym e' ∙ e) in
    rw (ap (λ r. r.0) same, ap (λ r. r.1) same) at m

true_not : true ≡ false → ⊥
true_not e = cc

-- A node whose two sides have the same data.
forked :
    (fuel i x : ℕ) (t t₁ t₂ : Nodes)
    → ((b : Bool) → child b (t.at i) ≢ 0)
    → t₁.at i ≡ t.at i
    → x ≢ 0
    → prune_tree fuel (child false (t.at i)) t ≡ some (x, t₁)
    → prune_tree fuel (child true (t.at i)) t₁ ≡ some (x, t₂)
    → prune_tree (suc fuel) i t ≡ some (x, (collapse i x x t₂).1)
unfolding prune_tree prune_child collapse
forked fuel i x t t₁ t₂ there at_i nz e₁ e₂ =
    let left : (child false (t.at i) == 0) ≡ false = (let ne = there false in ground arith) in
    let right : (child true (t.at i) == 0) ≡ false = (let ne = there true in ground arith) in
    let some_data : (x == 0) ≡ false = ground arith in
    rw (left, e₁, at_i, right, e₂, some_data, ==_refl x) refl

prune_tree-Full :
    (fuel i : ℕ) (t : Nodes) (l : ℕ → List Bool) (x : ℕ)
    → IsTrie t l
    → i < t.size
    → 128 < length (l i) + fuel
    → x ≢ 0
    → Full t x i
    → (t' : Nodes) × (prune_tree fuel i t ≡ some (x, t'))
unfolding prune_tree prune_child collapse
prune_tree-Full zero i t l x s h le nz f = absurd (omega (arith, s.short i h))
prune_tree-Full (suc fuel) i t l x s h le nz (ends _ leaf e) = (t, rw (leaf, e) refl)
prune_tree-Full (suc fuel) i t l x s h le nz (forks _ there f g) =
    let below : (b : Bool) → 128 < length (l (child b (t.at i))) + fuel =
      λ b. omega (arith, ap length (s.labelled i b h (there b))) in
    let (t₁, e₁) =
      prune_tree-Full fuel (child false (t.at i)) t l x s (s.below i false h (there false))
        (below false) nz f in
    let m =
      prune_tree_result fuel (child false (t.at i)) t t₁ l x s (s.below i false h (there false))
        (below false) e₁ in
    let at_i : t₁.at i ≡ t.at i =
      m.frame i h (λ v. side_apart (l i) false (rw (s.labelled i false h (there false)) at v)) in
    let c = child true (t.at i) in
    let same : (j : ℕ) → j < t.size → Below (true ∷ l i) (l j) → t₁.at j ≡ t.at j = λ j lt on.
      m.frame j lt (λ v.
        Below-apart (l i) (l j) true false (λ e. true_not e) on
          (rw (s.labelled i false h (there false)) at v)) in
    let label = s.labelled i true h (there true) in
    let g₁ =
      Full-same t t₁ l (true ∷ l i) x c s same (s.below i true h (there true))
        (rw label (Below-refl (true ∷ l i))) g in
    let (t₂, e₂) =
      prune_tree-Full fuel c t₁ l x m.trie (omega (arith, m.sized, s.below i true h (there true)))
        (below true) nz g₁ in
    ((collapse i x x t₂).1, forked fuel i x t t₁ t₂ there at_i nz e₁ e₂)

-- Whatever the addresses find is the same data: the leaves below the root all have it, and no child is
-- missing. Then the database has no nodes, and so no record of the data, which every address finds in
-- the trie.
pub search_tree_root :
    (t : Nodes) (l : ℕ → List Bool) (data_offsets : ℕ → ℕ) (x : ℕ)
    → IsTrie t l
    → x ≢ 0
    → Full t x 0
    → (search_tree t data_offsets ≡ some (0, [])) × ((a : List ℕ) → Finds t a 0 0 x)
unfolding search_tree tree_bytes
search_tree_root t l data_offsets x s nz f =
    let (t', e) = prune_tree-Full 129 0 t l x s s.some_node (omega arith) nz f in
    let m = prune_tree_result 129 0 t t' l x s s.some_node (omega arith) e in
    let no_child = (m.leaf nz).0 in
    let leaf : is_leaf (t'.at 0) ≡ true = rw (no_child false, no_child true) refl in
    let none_numbered = assign_leaf t' 128 0 unnumbered leaf in
    (rw (e, none_numbered, search_tree) refl, λ a. Full-Finds t x 0 a 0 f)
