-- ===== src/Spoa/Categories/Names.antt =====
-- The names in sorted order.
use haproxy_spoa_firehol_mmd.Prelude.{
  ℕ, suc, ◌≡◌, refl, ◌∙◌, true, false, List, [], ◌∷◌, arith, inl, inr, if◌then◌else◌, bytes_eq,
  Bool-cases,
}
use haproxy_spoa_firehol_mmd.Spoa.Categories.{Categories, bytes_lt, insert, sort, keys, names}

-- No name is less than the one before it.
abbrev pub IsSorted : List (List ℕ) → Type 0
IsSorted [] = Unit
IsSorted (x ∷ []) = Unit
IsSorted (x ∷ y ∷ ys) = (bytes_lt y x ≡ false) × IsSorted (y ∷ ys)

pub bytes_lt_asym : (xs ys : List ℕ) → bytes_lt xs ys ≡ true → bytes_lt ys xs ≡ false
unfolding bytes_lt
bytes_lt_asym [] [] h = cc
bytes_lt_asym [] (y ∷ ys) h = refl
bytes_lt_asym (x ∷ xs) [] h = cc
bytes_lt_asym (x ∷ xs) (y ∷ ys) h = ground (arith, bytes_lt_asym xs ys)

-- Inserting into a sorted list, behind a name that is no more than all.
insert_behind :
    (a x : List ℕ) (ys : List (List ℕ))
    → IsSorted (a ∷ ys)
    → bytes_lt x a ≡ false
    → IsSorted (a ∷ insert x ys)
unfolding insert
insert_behind a x [] s h = (h, tt)
insert_behind a x (y ∷ ys) (ha, s) h = elim (Bool-cases (bytes_lt y x)) [
  | inl before ↦ rw before (ha, insert_behind y x ys s (bytes_lt_asym y x before))
  | inr here ↦ rw here (h, (here, s))
]

insert-IsSorted : (x : List ℕ) (ys : List (List ℕ)) → IsSorted ys → IsSorted (insert x ys)
unfolding insert
insert-IsSorted x [] s = tt
insert-IsSorted x (y ∷ ys) s = elim (Bool-cases (bytes_lt y x)) [
  | inl before ↦ rw before (insert_behind y x ys s (bytes_lt_asym y x before))
  | inr here ↦ rw here (here, s)
]

sort-IsSorted : (xs : List (List ℕ)) → IsSorted (sort xs)
unfolding sort
sort-IsSorted [] = tt
sort-IsSorted (x ∷ xs) = insert-IsSorted x (sort xs) (sort-IsSorted xs)

-- How often a name stands in a list.
unfoldable pub occurrences : List ℕ → List (List ℕ) → ℕ
occurrences name [] = 0
occurrences name (x ∷ xs) =
    let rest = occurrences name xs in if bytes_eq x name then suc rest else rest

occurrences-insert :
    (name x : List ℕ) (ys : List (List ℕ))
    → occurrences name (insert x ys) ≡ occurrences name (x ∷ ys)
unfolding insert occurrences
occurrences-insert name x [] = refl
occurrences-insert name x (y ∷ ys) = ground (arith, occurrences-insert name x ys)

occurrences-sort :
    (name : List ℕ) (xs : List (List ℕ)) → occurrences name (sort xs) ≡ occurrences name xs
unfolding sort occurrences
occurrences-sort name [] = refl
occurrences-sort name (x ∷ xs) =
    occurrences-insert name x (sort xs) ∙ ground (arith, occurrences-sort name xs)

-- `names` gives the configured names in ascending order, each as often as it is a key.
pub names_lem :
    (m : Categories)
    → IsSorted (names m)
      × ((name : List ℕ) → occurrences name (names m) ≡ occurrences name (keys m))
unfolding names
names_lem m = (sort-IsSorted (keys m), λ name. occurrences-sort name (keys m))
