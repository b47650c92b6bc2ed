-- ===== src/Spoa/Database/Visits.antt =====
-- Visiting the categories is going through the list of them.
use haproxy_spoa_firehol_mmd.Prelude.{
  ℕ, zero, suc, ◌+◌, ◌-◌, ◌*◌, ◌/◌, ◌%◌, ◌^◌, ◌<◌, ◌≡◌, refl, ap, ◌∙◌, Bool, List, [], ◌∷◌, arith,
  inl, inr, ltb, lt→ltb, if◌then◌else◌, Option-cases, Bool-cases,
}
use haproxy_spoa_firehol_mmd.Spoa.Database.{
  Library, LookupResult, CategoryArray, category_at, category_array, visit_loop, for_each_category,
  collect_loop, get_categories, digits_loop, to_chars,
}

module _ {ℓ} {S : Type ℓ} (lib : Library) (visit : List ℕ → S → S × Bool) where
  -- Going through a list until `visit` says stop.
  unfoldable pub visit_until : List (List ℕ) → S → S
  visit_until [] s = s
  visit_until (c ∷ cs) s =
      let step = visit c s in let rest = visit_until cs (step.0) in if step.1 then rest else step.0

  visit_loop-until :
      (array : CategoryArray) (left index : ℕ) (s : S)
      → visit_loop lib visit array left index s ≡ visit_until (collect_loop lib array left index) s
  unfolding visit_loop collect_loop visit_until
  visit_loop-until array zero index s = refl
  visit_loop-until array (suc left) index s = elim (Option-cases (category_at lib array index)) [
    | inl missing ↦
        rw (missing, visit_loop, collect_loop) (visit_loop-until array left (suc index) s)
    | inr (c, found) ↦
        rw (found, visit_loop, collect_loop)
          (ap (λ rest. if (visit c s).1 then rest else ((visit c s).0))
            (visit_loop-until array left (suc index) ((visit c s).0)))
  ]

  -- `for_each_category` visits the members that `get_categories` collects, in that order, until the
  -- visitor says stop.
  pub for_each_category-get_categories :
      (result : LookupResult) (s : S)
      → for_each_category lib visit result s ≡ visit_until (get_categories lib result) s
  unfolding for_each_category get_categories
  for_each_category-get_categories result s =
      let array = category_array lib result in visit_loop-until array array.size 0 s

-- The number that decimal digits spell.
unfoldable pub digits_value : ℕ → List ℕ → ℕ
digits_value acc [] = acc
digits_value acc (d ∷ ds) = digits_value (acc * 10 + (d - 48)) ds

digits_value-digits_loop :
    (fuel n : ℕ) (out : List ℕ)
    → n < 10 ^ fuel
    → 0 < fuel
    → digits_value 0 (digits_loop fuel n out) ≡ digits_value n out
unfolding digits_loop digits_value
digits_value-digits_loop zero n out h p = absurd (omega arith)
digits_value-digits_loop (suc zero) n out h p =
    rw (lt→ltb n 10 (omega arith)) (ap (λ k. digits_value k out) (omega arith))
digits_value-digits_loop (suc (suc fuel)) n out h p = elim (Bool-cases (ltb n 10)) [
  | inl small ↦
      rw small
        (ap (λ k. digits_value k out) (let e : 0 * 10 + (48 + n % 10 - 48) ≡ n = ground arith in e))
  | inr large ↦ rw large (
      digits_value-digits_loop (suc fuel) (n / 10) ((48 + n % 10) ∷ out) (omega arith) (omega arith)
      ∙ ap (λ k. digits_value k out)
          (let e : n / 10 * 10 + (48 + n % 10 - 48) ≡ n = omega arith in e))
]

-- Ten digits are enough for a uint32_t: what `to_chars` writes stands for the number.
pub digits_value-to_chars : (n : ℕ) → n < 2 ^ 32 → digits_value 0 (to_chars n) ≡ n
unfolding to_chars digits_value
digits_value-to_chars n h = digits_value-digits_loop 10 n [] (omega arith) (omega arith)
