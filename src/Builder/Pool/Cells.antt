-- ===== src/Builder/Pool/Cells.antt =====
-- Records whose fields are arrays of one text, as `process_file` stores them: what stands in the pool.
use haproxy_spoa_firehol_mmd.Prelude.{ℕ, ◌≡◌, refl, ap, ◌∙◌, false, List, [], ◌∷◌}
use haproxy_spoa_firehol_mmd.Spoa.Categories.{bytes_lt}
use haproxy_spoa_firehol_mmd.Builder.Values.{string_view}
use haproxy_spoa_firehol_mmd.Builder.Pool.{
  scalar, map, array, Data, value, object, array_of, Members, no_member, member, item, no_item,
  Pool, data_at, intern, text_of, insert_field, sort_fields, store_scalar, store, store_members,
  store_items,
}
use haproxy_spoa_firehol_mmd.Builder.Pool.Intern.{
  string-IsExact, array-IsExact, map-IsExact, IsPool, Grown, Grown-refl, Grown-trans, Holds,
  Holds-Grown, intern-Interned,
}

-- An array of one text.
abbrev pub cell : List ℕ → Data
cell s = array_of (item (value (string_view s)) no_item)

abbrev pub cells : List (List ℕ × List ℕ) → Members
cells [] = no_member
cells ((key, s) ∷ kvs) = member key (cell s) (cells kvs)

-- Under the ID stands an array of the text.
abbrev pub CellAt : Pool → ℕ → List ℕ → Type 0
CellAt p v s = (j : ℕ) × Holds p v (array (j ∷ [])) × Holds p j (scalar (string_view s))

abbrev pub FieldsAt : Pool → List (ℕ × ℕ) → List (List ℕ × List ℕ) → Type 0
FieldsAt p [] [] = Unit {0}
FieldsAt p [] (kv ∷ kvs) = ⊥
FieldsAt p (f ∷ fs) [] = ⊥
FieldsAt p ((k, v) ∷ fs) ((key, s) ∷ kvs) =
    Holds p k (scalar (string_view key)) × CellAt p v s × FieldsAt p fs kvs

-- Under the ID stands a map with these keys and texts.
abbrev pub RecordAt : Pool → ℕ → List (List ℕ × List ℕ) → Type 0
RecordAt p i kvs = (fields : List (ℕ × ℕ)) × Holds p i (map fields) × FieldsAt p fields kvs

pub CellAt-Grown : (p p' : Pool) (v : ℕ) (s : List ℕ) → Grown p p' → CellAt p v s → CellAt p' v s
CellAt-Grown p p' v s g (j, h, t) = (j, Holds-Grown p p' v _ g h, Holds-Grown p p' j _ g t)

pub FieldsAt-Grown :
    (p p' : Pool) (fs : List (ℕ × ℕ)) (kvs : List (List ℕ × List ℕ))
    → Grown p p'
    → FieldsAt p fs kvs
    → FieldsAt p' fs kvs
FieldsAt-Grown p p' [] [] g h = tt
FieldsAt-Grown p p' [] (kv ∷ kvs) g h = absurd h
FieldsAt-Grown p p' (f ∷ fs) [] g h = absurd h
FieldsAt-Grown p p' ((k, v) ∷ fs) ((key, s) ∷ kvs) g (h, c, hs) =
    (Holds-Grown p p' k _ g h, CellAt-Grown p p' v s g c, FieldsAt-Grown p p' fs kvs g hs)

pub RecordAt-Grown :
    (p p' : Pool) (i : ℕ) (kvs : List (List ℕ × List ℕ))
    → Grown p p'
    → RecordAt p i kvs
    → RecordAt p' i kvs
RecordAt-Grown p p' i kvs g (fields, h, hs) =
    (fields, Holds-Grown p p' i _ g h, FieldsAt-Grown p p' fields kvs g hs)

store-cell :
    (s : List ℕ) (p : Pool)
    → IsPool p
    → IsPool (store (cell s) p).1
      × Grown p (store (cell s) p).1
      × CellAt (store (cell s) p).1 (store (cell s) p).0 s
unfolding store store_items store_scalar
store-cell s p i =
    let text = intern-Interned (scalar (string_view s)) p (string-IsExact s) i in
    let (j, p₁) = intern (scalar (string_view s)) p in
    let whole = intern-Interned (array (j ∷ [])) p₁ (array-IsExact (j ∷ [])) text.pool in
    let p₂ = (intern (array (j ∷ [])) p₁).1 in
    (
      whole.pool,
      Grown-trans p p₁ p₂ text.grown whole.grown,
      (j, whole.held, Holds-Grown p₁ p₂ j _ whole.grown text.held),
    )

store_members-cells :
    (kvs : List (List ℕ × List ℕ)) (p : Pool)
    → IsPool p
    → IsPool (store_members (cells kvs) p).1
      × Grown p (store_members (cells kvs) p).1
      × FieldsAt (store_members (cells kvs) p).1 (store_members (cells kvs) p).0 kvs
unfolding store_members
store_members-cells [] p i = (i, Grown-refl p, tt)
store_members-cells ((key, s) ∷ kvs) p i =
    let text = intern-Interned (scalar (string_view key)) p (string-IsExact key) i in
    let (k, p₁) = intern (scalar (string_view key)) p in
    let (i₂, g₂, c) = store-cell s p₁ text.pool in
    let (v, p₂) = store (cell s) p₁ in
    let (i₃, g₃, hs) = store_members-cells kvs p₂ i₂ in
    let p₃ = (store_members (cells kvs) p₂).1 in
    let behind = Grown-trans p₁ p₂ p₃ g₂ g₃ in
    (
      i₃,
      Grown-trans p p₁ p₃ text.grown behind,
      (Holds-Grown p₁ p₃ k _ behind text.held, CellAt-Grown p₂ p₃ v s g₃ c, hs),
    )

-- The keys are in order.
abbrev pub IsAscending : List (List ℕ × List ℕ) → Type 0
IsAscending [] = Unit {0}
IsAscending (kv ∷ []) = Unit {0}
IsAscending ((key, s) ∷ (key', s') ∷ kvs) =
    (bytes_lt key' key ≡ false) × IsAscending ((key', s') ∷ kvs)

text-Holds :
    (p : Pool) (k : ℕ) (key : List ℕ)
    → Holds p k (scalar (string_view key))
    → text_of (data_at p k) ≡ key
unfolding text_of
text-Holds p k key h = ap text_of h.is

-- Sorting fields that are in order changes nothing.
sort_fields-FieldsAt :
    (p : Pool) (fs : List (ℕ × ℕ)) (kvs : List (List ℕ × List ℕ))
    → FieldsAt p fs kvs
    → IsAscending kvs
    → sort_fields p fs ≡ fs
unfolding sort_fields insert_field
sort_fields-FieldsAt p [] [] h a = refl
sort_fields-FieldsAt p [] (kv ∷ kvs) h a = absurd h
sort_fields-FieldsAt p (f ∷ fs) [] h a = absurd h
sort_fields-FieldsAt p (f ∷ []) (kv ∷ []) h a = refl
sort_fields-FieldsAt p (f ∷ []) (kv ∷ kv' ∷ kvs) (_, _, h) a = absurd h
sort_fields-FieldsAt p (f ∷ g ∷ fs) (kv ∷ []) (_, _, h) a = absurd h
sort_fields-FieldsAt p ((k, v) ∷ (k', v') ∷ fs) ((key, s) ∷ (key', s') ∷ kvs) (h, c, (h', c', hs))
      (first, a) =
    let rest = sort_fields-FieldsAt p ((k', v') ∷ fs) ((key', s') ∷ kvs) (h', c', hs) a in
    ap (insert_field p (k, v)) rest ∙ rw (text-Holds p k key h, text-Holds p k' key' h', first) refl

-- Storing such a record gives an ID under which it stands, and what is there stays.
pub store-RecordAt :
    (kvs : List (List ℕ × List ℕ)) (p : Pool)
    → IsPool p
    → IsAscending kvs
    → IsPool (store (object (cells kvs)) p).1
      × Grown p (store (object (cells kvs)) p).1
      × RecordAt (store (object (cells kvs)) p).1 (store (object (cells kvs)) p).0 kvs
unfolding store
store-RecordAt kvs p i a =
    let (i₁, g₁, hs) = store_members-cells kvs p i in
    let (fields, p₁) = store_members (cells kvs) p in
    let sorted = sort_fields-FieldsAt p₁ fields kvs hs a in
    let whole = intern-Interned (map fields) p₁ (map-IsExact fields) i₁ in
    let p₂ = (intern (map fields) p₁).1 in
    rw sorted (
      whole.pool,
      Grown-trans p p₁ p₂ g₁ whole.grown,
      (fields, whole.held, FieldsAt-Grown p₁ p₂ fields kvs whole.grown hs),
    )
