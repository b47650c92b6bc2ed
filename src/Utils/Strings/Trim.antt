-- ===== src/Utils/Strings/Trim.antt =====
-- `trim` against a reference that drops the whitespace at either end.
use haproxy_spoa_firehol_mmd.Prelude.{
  ℕ, zero, suc, ◌+◌, ◌-◌, ◌≡◌, refl, sym, ap, ◌∙◌, List, [], ◌∷◌, Option, none, some, arith,
  if◌then◌else◌, Bool-cases, Option-cases, inl, inr,
}
use haproxy_spoa_firehol_mmd.Prelude.Lists.{take, drop}
use haproxy_spoa_firehol_mmd.Utils.Strings.{
  is_whitespace, find_first_not_of, find_last_not_of, trim,
}

unfoldable pub trim_right : List ℕ → List ℕ
trim_right [] = []
trim_right (c ∷ cs) = elim (trim_right cs) [
  | [] ↦ if is_whitespace c then [] else c ∷ []
  | d ∷ ds ↦ c ∷ d ∷ ds
]

unfoldable pub trim_left : List ℕ → List ℕ
trim_left [] = []
trim_left (c ∷ cs) = let rest = trim_left cs in if is_whitespace c then rest else c ∷ cs

-- The text up to the last character that is no whitespace.
abbrev up_to : Option ℕ → List ℕ → List ℕ
up_to none cs = []
up_to (some i) cs = take (suc i) cs

take_last : (cs : List ℕ) → up_to (find_last_not_of cs) cs ≡ trim_right cs
unfolding find_last_not_of trim_right
take_last [] = refl
take_last (c ∷ cs) = ground (arith, take_last cs)

-- Where a text begins with whitespace, what stands behind it decides.
last_after :
    (cs : List ℕ) (b : ℕ)
    → find_first_not_of cs ≡ some b
    → (l : ℕ) × (find_last_not_of cs ≡ some (b + l))
      × (find_last_not_of (drop b cs) ≡ some l)
      × (drop b cs ≡ trim_left cs)
unfolding find_first_not_of find_last_not_of trim_left
last_after [] b e = cc
last_after (c ∷ cs) zero e = elim (Bool-cases (is_whitespace c)) [
  | inl space ↦ absurd (ground arith)
  | inr other ↦ elim (Option-cases (find_last_not_of cs)) [
    | inl end ↦ (0, ground arith, ground arith, ground arith)
    | inr (i, more) ↦ (suc i, ground arith, ground arith, ground arith)
  ]
]
last_after (c ∷ cs) (suc b) e = elim (Bool-cases (is_whitespace c)) [
  | inl space ↦
      let (l, whole, rest, dropped) = last_after cs b (ground arith) in
      (l, rw whole (ap some (omega arith)), rest, rw space dropped)
  | inr other ↦ absurd (ground arith)
]

first_none : (cs : List ℕ) → find_first_not_of cs ≡ none → trim_left cs ≡ []
unfolding find_first_not_of trim_left
first_none [] e = refl
first_none (c ∷ cs) e = ground (arith, first_none cs)

trim_found :
    (text : List ℕ) (b l : ℕ)
    → find_first_not_of text ≡ some b
    → find_last_not_of text ≡ some (b + l)
    → trim text ≡ take (suc l) (drop b text)
unfolding trim
trim_found text b l e₁ e₂ =
    rw (e₁, trim) (rw (e₂, (let s : b + l - b + 1 ≡ suc l = omega arith in s)))

trim_blank : (text : List ℕ) → find_first_not_of text ≡ none → trim text ≡ []
unfolding trim
trim_blank text e = rw (e, trim)

-- `trim` drops the leading whitespace and then the trailing whitespace, and nothing else.
pub trim_lem : (text : List ℕ) → trim text ≡ trim_right (trim_left text)
unfolding trim_right
trim_lem text = elim (Option-cases (find_first_not_of text)) [
  | inl blank ↦ trim_blank text blank ∙ ap trim_right (sym (first_none text blank))
  | inr (b, e) ↦
      let (l, whole, rest, dropped) = last_after text b e in
      trim_found text b l e whole
      ∙ sym (ap (λ o. up_to o (drop b text)) rest)
      ∙ take_last (drop b text)
      ∙ ap trim_right dropped
]
