-- ===== src/Builder/Search/Lookup.antt =====
-- A lookup in the search tree that is written, against what the address finds in the trie.
use haproxy_spoa_firehol_mmd.Prelude.{
  ℕ, zero, suc, ◌+◌, ◌*◌, ◌^◌, ◌<◌, ◌≤◌, ◌≡◌, ◌≢◌, ◌==◌, refl, sym, ap, ◌∙◌, Bool, true, false,
  List, arith, Option, none, some, ltb, if◌then◌else◌, inl, inr, Bool-cases, lt→ltb, le→ltb,
}
use haproxy_spoa_firehol_mmd.Prelude.Lists.{length, drop}
use haproxy_spoa_firehol_mmd.Builder.Trie.{TrieNode, Nodes, child, bit_at}
use haproxy_spoa_firehol_mmd.Builder.Trie.Walk.{Finds, Finds.stop, Finds.down, IsTrie}
use haproxy_spoa_firehol_mmd.Builder.Search.{
  Numbering, no_id, is_leaf, unnumbered, resolve, tree_bytes,
}
use haproxy_spoa_firehol_mmd.Builder.Search.Numbers.{Reach, self, side, Assigned}
use haproxy_spoa_firehol_mmd.Builder.Search.Records.{read_record, read_record-tree_bytes}

-- The lookup of an address as the format says: from the node with number `id`, at depth `k`, to the first
-- record that is not the number of a node.
unfoldable pub read_tree : ℕ → ℕ → List ℕ → List ℕ → ℕ → ℕ → Option ℕ
read_tree zero node_count bytes a id k = none
read_tree (suc fuel) node_count bytes a id k =
    elim (read_record (bit_at a k) (drop (7 * id) bytes)) [
      | none ↦ none
      | some r ↦ if ltb r node_count then read_tree fuel node_count bytes a r (suc k) else some r
    ]

-- Where data is, for a reader; `node_count` for none.
abbrev pub location : ℕ → (ℕ → ℕ) → ℕ → ℕ
location node_count data_offsets x = if x == 0 then node_count else node_count + 16 + data_offsets x

Reach-side :
    (t : Nodes) (i j : ℕ) (b : Bool)
    → Reach t i j
    → child b (t.at j) ≢ 0
    → Reach t i (child b (t.at j))
Reach-side t i j b (self _) ne = side i (child b (t.at i)) b ne (self (child b (t.at i)))
Reach-side t i j b (side _ _ c there r) ne =
    side i (child b (t.at j)) c there (Reach-side t (child c (t.at i)) j b r ne)

pub leaf-child : (n : TrieNode) (b : Bool) → is_leaf n ≡ true → child b n ≡ 0
leaf-child n false h = ground arith
leaf-child n true h = ground arith

not-leaf : (n : TrieNode) → is_leaf n ≡ false → (b : Bool) × (child b n ≢ 0)
not-leaf n h = elim (Bool-cases (n.child0 == 0)) [
  | inr there ↦ (false, λ z. ground arith)
  | inl absent ↦ (true, λ z. ground arith)
]

module _ (t : Nodes) (l : ℕ → List Bool) (trie : IsTrie t l) (s : Numbering)
    (m : Assigned t l 0 unnumbered s) (data_offsets : ℕ → ℕ)
    (fits : (d : ℕ) → s.next_id + 16 + data_offsets d < 2 ^ 28) where
  resolve_none : resolve t s data_offsets 0 ≡ s.next_id
  unfolding resolve
  resolve_none = refl

  resolve_leaf :
      (c : ℕ)
      → c ≢ 0
      → is_leaf (t.at c) ≡ true
      → resolve t s data_offsets c ≡ location s.next_id data_offsets (t.at c).data_id
  unfolding resolve
  resolve_leaf c ne leaf =
      let unknown : s.mapping c ≡ no_id = m.leaves c leaf in rw unknown (ground arith)

  resolve_node :
      (c : ℕ)
      → c ≢ 0
      → Reach t 0 c
      → is_leaf (t.at c) ≡ false
      → resolve t s data_offsets c ≡ s.mapping c
  unfolding resolve
  resolve_node c ne r inner =
      let v = m.all c r inner in
      let known : s.mapping c ≢ no_id = λ e. absurd (omega (arith, v.known, fits 0)) in ground arith

  resolve_fits :
      (i : ℕ) (b : Bool) → Reach t 0 i → resolve t s data_offsets (child b (t.at i)) < 2 ^ 28
  resolve_fits i b r = elim (Bool-cases (child b (t.at i) == 0)) [
    | inl absent ↦
        let none_there : child b (t.at i) ≡ 0 = ground arith in
        rw (none_there, resolve_none) (omega (arith, fits 0))
    | inr there ↦
        let ne : child b (t.at i) ≢ 0 = λ z. ground arith in
        elim (Bool-cases (is_leaf (t.at (child b (t.at i))))) [
          | inl leaf ↦
              rw (resolve_leaf (child b (t.at i)) ne leaf)
                (location_fits (t.at (child b (t.at i))).data_id)
          | inr inner ↦
              let v = m.all (child b (t.at i)) (Reach-side t 0 i b r ne) inner in
              rw (resolve_node (child b (t.at i)) ne (Reach-side t 0 i b r ne) inner)
                (omega (arith, v.known, fits 0))
        ]
  ]
    where
      location_fits : (d : ℕ) → location s.next_id data_offsets d < 2 ^ 28
      location_fits d = ground (arith, fits d)

  record_of :
      (i : ℕ) (b : Bool)
      → Reach t 0 i
      → is_leaf (t.at i) ≡ false
      → read_record b (drop (7 * s.mapping i) (tree_bytes t s data_offsets s.ordered))
        ≡ some (resolve t s data_offsets (child b (t.at i)))
  record_of i b r inner =
      let v = m.all i r inner in
      read_record-tree_bytes t s data_offsets b s.ordered (s.mapping i)
        (omega (arith, v.known, m.counted)) (λ c. rw v.placed (resolve_fits i c r))
      ∙ ap (λ j. some (resolve t s data_offsets (child b (t.at j)))) v.placed

  at_leaf :
      (a : List ℕ) (c k x : ℕ) → is_leaf (t.at c) ≡ true → Finds t a c k x → (t.at c).data_id ≡ x
  at_leaf a c k x leaf (stop _ _ _ z e) = e
  at_leaf a c k x leaf (down _ _ d _ e ne f) =
      absurd (ne (sym e ∙ leaf-child (t.at c) (bit_at a k) leaf))

  at_inner : (i : ℕ) (x : ℕ) → i < t.size → is_leaf (t.at i) ≡ false → (t.at i).data_id ≡ x → x ≡ 0
  at_inner i x h inner e = elim (Bool-cases ((t.at i).data_id == 0)) [
    | inl blank ↦ sym e ∙ (let z : (t.at i).data_id ≡ 0 = ground arith in z)
    | inr full ↦
        (let (b, there) = not-leaf (t.at i) inner in
          absurd (there (trie.leaves i b h (λ z. ground arith))))
  ]

  read_step :
      (fuel k : ℕ) (a bytes : List ℕ) (id r : ℕ)
      → read_record (bit_at a k) (drop (7 * id) bytes) ≡ some r
      → read_tree (suc fuel) s.next_id bytes a id k
        ≡ (if ltb r s.next_id then read_tree fuel s.next_id bytes a r (suc k) else some r)
  unfolding read_tree
  read_step fuel k a bytes id r e = rw (e, read_tree) refl

  not_node : (x : ℕ) → ltb (location s.next_id data_offsets x) s.next_id ≡ false
  not_node x = ground arith

  pub read_tree-Finds :
      (fuel i k x : ℕ) (a : List ℕ)
      → i < t.size
      → Reach t 0 i
      → is_leaf (t.at i) ≡ false
      → length (l i) ≡ k
      → 128 ≤ k + fuel
      → Finds t a i k x
      → read_tree fuel s.next_id (tree_bytes t s data_offsets s.ordered) a (s.mapping i) k
        ≡ some (location s.next_id data_offsets x)
  read_tree-Finds zero i k x a h r inner e le f =
      let (b, ne) = not-leaf (t.at i) inner in
      absurd (omega (arith, ap length (trie.labelled i b h ne), trie.short _ (trie.below i b h ne)))
  read_tree-Finds (suc fuel) i k x a h r inner e le (stop _ _ _ z d) =
      let nothing : x ≡ 0 = at_inner i x h inner d in
      let found =
        record_of i (bit_at a k) r inner
        ∙ ap (λ c. some (resolve t s data_offsets c)) z
        ∙ ap some resolve_none in
      read_step fuel k a _ (s.mapping i) s.next_id found
      ∙ rw (le→ltb s.next_id s.next_id (omega arith), nothing) refl
  read_tree-Finds (suc fuel) i k x a h r inner e le (down _ _ c _ ce ne f) =
      let b = bit_at a k in
      let there : child b (t.at i) ≢ 0 = λ z. ne (sym ce ∙ z) in
      let inside : c < t.size = rw (← ce) (trie.below i b h there) in
      let reach : Reach t 0 c = rw (← ce) (Reach-side t 0 i b r there) in
      let deeper : length (l c) ≡ suc k =
        ap (λ v. length (l v)) (sym ce) ∙ ap length (trie.labelled i b h there) ∙ ap suc e in
      let found = record_of i b r inner ∙ ap (λ v. some (resolve t s data_offsets v)) ce in
      elim (Bool-cases (is_leaf (t.at c))) [
        | inl leaf ↦
            let there_is =
              resolve_leaf c ne leaf
              ∙ ap (location s.next_id data_offsets) (at_leaf a c (suc k) x leaf f) in
            read_step fuel k a _ (s.mapping i) _ (found ∙ ap some there_is) ∙ rw (not_node x) refl
        | inr inner_c ↦
            let v = m.all c reach inner_c in
            read_step fuel k a _ (s.mapping i) _ (found ∙ ap some (resolve_node c ne reach inner_c))
            ∙ rw (lt→ltb (s.mapping c) s.next_id v.known)
                (read_tree-Finds fuel c (suc k) x a inside reach inner_c deeper (omega arith) f)
      ]
