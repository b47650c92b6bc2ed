-- ===== src/Builder/Network/Batch.antt =====
-- A batch of networks in the trie.
use haproxy_spoa_firehol_mmd.Prelude.{ℕ, ◌≤◌, ◌≡◌, refl, List, [], ◌∷◌, some}
use haproxy_spoa_firehol_mmd.Prelude.Lists.{All}
use haproxy_spoa_firehol_mmd.Builder.Trie.{Tree}
use haproxy_spoa_firehol_mmd.Builder.Trie.Walk.{Finds}
use haproxy_spoa_firehol_mmd.Builder.Trie.Prefix.{agrees, Inserted}
use haproxy_spoa_firehol_mmd.Builder.Trie.Insert.{IsTree, insert_bits_lem}
use haproxy_spoa_firehol_mmd.Builder.Network.{NetworkEntry, insert_parsed}

abbrev pub FitsAddress : NetworkEntry → Type 0
FitsAddress e = e.prefix_len ≤ 128

module _ {Pool : Type 0} (deep_merge : ℕ → ℕ → Pool → ℕ × Pool) where
  -- `y` is `x` with the data of each network of the address merged into it, in their order.
  abbrev pub InsertedAll : List ℕ → List NetworkEntry → ℕ → ℕ → Type 0
  InsertedAll a [] x y = y ≡ x
  InsertedAll a (e ∷ es) x y =
      (z : ℕ) × Inserted deep_merge (agrees a e.bits e.prefix_len) e.data_id x z
      × InsertedAll a es z y

  pub record IsInsertedAll (tree tree' : Tree Pool) (es : List NetworkEntry) : Type 0 where
    pub is_tree : IsTree tree'
    pub finds :
        (a : List ℕ) (x : ℕ)
        → Finds tree.nodes a 0 0 x
        → (y : ℕ) × Finds tree'.nodes a 0 0 y × InsertedAll a es x y

  -- Inserting a batch of networks of at most 128 bits ends with a tree in which every address finds what
  -- it found, with the data of the networks that it belongs to merged into it in their order.
  pub insert_parsed_lem :
      (ip_version : ℕ) (es : List NetworkEntry) (tree : Tree Pool)
      → IsTree tree
      → All FitsAddress es
      → (tree' : Tree Pool) × (insert_parsed deep_merge ip_version es tree ≡ some tree')
        × IsInsertedAll tree tree' es
  unfolding insert_parsed
  insert_parsed_lem ip_version [] tree v fit =
      (tree, refl, record { is_tree = v; finds = λ a x f. (x, f, refl) })
  insert_parsed_lem ip_version (e ∷ es) tree v (fit, fits) =
      let (t₁, eq₁, m₁) =
        insert_bits_lem deep_merge ip_version e.bits e.prefix_len e.data_id tree v fit in
      let (t₂, eq₂, m₂) = insert_parsed_lem ip_version es t₁ m₁.is_tree fits in
      (
        t₂,
        rw (eq₁, insert_parsed) eq₂,
        record {
          is_tree = m₂.is_tree;
          finds = λ a x f.
              (let (z, g, into) = m₁.finds a x f in
                let (y, g', rest) = m₂.finds a z g in (y, g', (z, into, rest)));
        },
      )
