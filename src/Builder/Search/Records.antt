-- ===== src/Builder/Search/Records.antt =====
-- The records of the search tree as a reader of the format takes them.
use haproxy_spoa_firehol_mmd.Prelude.{
  ℕ, zero, suc, ◌+◌, ◌*◌, ◌/◌, ◌%◌, ◌^◌, ◌<◌, ◌≡◌, refl, sym, ap, ◌∙◌, Bool, true, false, List, [],
  ◌∷◌, ◌++◌, arith, Option, none, some,
}
use haproxy_spoa_firehol_mmd.Prelude.Bytes.{bit_or_16}
use haproxy_spoa_firehol_mmd.Prelude.Lists.{length, get_or, drop, drop-drop}
use haproxy_spoa_firehol_mmd.Builder.Trie.{Nodes, child}
use haproxy_spoa_firehol_mmd.Builder.Search.{
  Numbering, resolve, record_bytes, node_bytes, tree_bytes,
}

-- A side of the record at the front.
unfoldable pub read_record : Bool → List ℕ → Option ℕ
read_record false (a ∷ b ∷ c ∷ m ∷ rest) = some (m / 16 * 16777216 + a * 65536 + b * 256 + c)
read_record true (a ∷ b ∷ c ∷ m ∷ d ∷ e ∷ f ∷ rest) =
    some (m % 16 * 16777216 + d * 65536 + e * 256 + f)
read_record b bytes = none

read_record-record_bytes :
    (b : Bool) (left right : ℕ) (rest : List ℕ)
    → left < 2 ^ 28
    → right < 2 ^ 28
    → read_record b (record_bytes left right ++ rest)
      ≡ some (elim b [ true ↦ right | false ↦ left ])
unfolding read_record record_bytes
read_record-record_bytes false left right rest h k =
    ground (arith, bit_or_16 (left / 16777216 % 16) (right / 16777216 % 16))
read_record-record_bytes true left right rest h k =
    ground (arith, bit_or_16 (left / 16777216 % 16) (right / 16777216 % 16))

drop-record_bytes :
    (left right : ℕ) (rest : List ℕ) → drop 7 (record_bytes left right ++ rest) ≡ rest
unfolding record_bytes
drop-record_bytes left right rest = refl

module _ (t : Nodes) (s : Numbering) (data_offsets : ℕ → ℕ) where
  drop-node_bytes : (i : ℕ) (rest : List ℕ) → drop 7 (node_bytes t s data_offsets i ++ rest) ≡ rest
  unfolding node_bytes
  drop-node_bytes i rest = drop-record_bytes _ _ rest

  -- The record at an index is that of the node at the index.
  tree_bytes_at :
      (is : List ℕ) (k : ℕ)
      → k < length is
      → (rest : List ℕ) × (drop (7 * k) (tree_bytes t s data_offsets is)
          ≡ node_bytes t s data_offsets (get_or is k 0) ++ rest)
  unfolding tree_bytes
  tree_bytes_at [] k h = absurd (omega arith)
  tree_bytes_at (i ∷ is) zero h = (tree_bytes t s data_offsets is, refl)
  tree_bytes_at (i ∷ is) (suc k) h =
      let (rest, e) = tree_bytes_at is k (omega arith) in
      let later : 7 * suc k ≡ 7 + 7 * k = omega arith in
      (
        rest,
        ap (λ n. drop n (node_bytes t s data_offsets i ++ tree_bytes t s data_offsets is)) later
            ∙ sym (
                drop-drop 7 (7 * k)
                  (node_bytes t s data_offsets i ++ tree_bytes t s data_offsets is))
            ∙ ap (drop (7 * k)) (drop-node_bytes i (tree_bytes t s data_offsets is))
            ∙ e,
      )

  -- Where the numbers fit 28 bits, a side of it is what is written for the child on that side.
  pub read_record-tree_bytes :
      (b : Bool) (is : List ℕ) (k : ℕ)
      → k < length is
      → ((c : Bool) → resolve t s data_offsets (child c (t.at (get_or is k 0))) < 2 ^ 28)
      → read_record b (drop (7 * k) (tree_bytes t s data_offsets is))
        ≡ some (resolve t s data_offsets (child b (t.at (get_or is k 0))))
  unfolding node_bytes
  read_record-tree_bytes b is k h small =
      let (rest, e) = tree_bytes_at is k h in ap (read_record b) e ∙ one_side b rest
    where
      i : ℕ
      i = get_or is k 0

      one_side :
          (b : Bool) (rest : List ℕ)
          → read_record b (node_bytes t s data_offsets i ++ rest)
            ≡ some (resolve t s data_offsets (child b (t.at i)))
      one_side false rest = read_record-record_bytes false _ _ rest (small false) (small true)
      one_side true rest = read_record-record_bytes true _ _ rest (small false) (small true)
