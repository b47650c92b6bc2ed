-- ===== src/Utils/Strings.antt =====
-- src/utils/string_utils.h, on byte strings.
pub mod Trim
use haproxy_spoa_firehol_mmd.Prelude.{
  ℕ, zero, suc, ◌+◌, ◌-◌, ◌%◌, ◌==◌, Bool, not, ◌&&◌, ◌||◌, List, [], ◌∷◌, Option, none, some,
  if◌then◌else◌,
}
use haproxy_spoa_firehol_mmd.Prelude.Lists.{length, take, drop}

-- `kWhitespace`: space, tab, carriage return, newline.
unfoldable pub is_whitespace : ℕ → Bool
is_whitespace c = c == 32 || c == 9 || c == 13 || c == 10

-- `find_first_not_of(kWhitespace)` and `find_last_not_of(kWhitespace)`; `none` is npos.
unfoldable pub find_first_not_of : List ℕ → Option ℕ
find_first_not_of [] = none
find_first_not_of (c ∷ cs) =
    let more : Option ℕ = elim (find_first_not_of cs) [ none ↦ none | some i ↦ some (suc i) ] in
    if is_whitespace c then more else some 0

unfoldable pub find_last_not_of : List ℕ → Option ℕ
find_last_not_of [] = none
find_last_not_of (c ∷ cs) = elim (find_last_not_of cs) [
  | none ↦ if is_whitespace c then none else some 0
  | some i ↦ some (suc i)
]

-- `find_last_not_of` gives npos only where `find_first_not_of` does, which has been tested.
abbrev or_zero : Option ℕ → ℕ
or_zero none = 0
or_zero (some i) = i

unfoldable pub trim : List ℕ → List ℕ
trim text = elim (find_first_not_of text) [
  | none ↦ []
  | some begin ↦ take (or_zero (find_last_not_of text) - begin + 1) (drop begin text)
]

-- The loop of `group_thousands` over the digits from index `i` on, of `size` digits in all.
unfoldable pub group_loop : ℕ → ℕ → List ℕ → List ℕ
group_loop size i [] = []
group_loop size i (d ∷ ds) =
    let rest = group_loop size (suc i) ds in
    if not (i == 0) && (size - i) % 3 == 0 then 32 ∷ d ∷ rest else d ∷ rest

-- On the decimal digits of the value, which `std::to_string` gives.
unfoldable pub group_thousands : List ℕ → List ℕ
group_thousands digits = group_loop (length digits) 0 digits

-- `find` of a byte with the two `substr` around it; `none` is npos.
unfoldable pub split_at : ℕ → List ℕ → Option (List ℕ × List ℕ)
split_at b [] = none
split_at b (c ∷ cs) =
    let more : Option (List ℕ × List ℕ) = elim (split_at b cs) [
      | none ↦ none
      | some (front, back) ↦ some (c ∷ front, back)
    ] in
    if c == b then some ([], cs) else more
