-- ===== src/Utils/Ipv4.antt =====
-- `parse_ipv4` of src/utils/net_utils.h. The text from `pos` on is a list, so moving on is taking its
-- tail; the loop on digits ends with the list.
pub mod Spelling
pub mod Canonical
use haproxy_spoa_firehol_mmd.Prelude.{
  ℕ, zero, suc, ◌+◌, ◌-◌, ◌*◌, ◌==◌, Bool, ◌&&◌, ◌||◌, List, [], ◌∷◌, Option, none, some, ltb, leb,
  if◌then◌else◌,
}

unfoldable pub is_digit : ℕ → Bool
is_digit c = leb 48 c && leb c 57

-- The inner loop: the value, the number of digits and what follows; `none` is `return false`.
unfoldable pub read_digits : ℕ → ℕ → List ℕ → Option (ℕ × ℕ × List ℕ)
read_digits value digits [] = some (value, digits, [])
read_digits value digits (c ∷ cs) =
    let value' = value * 10 + (c - 48) in
    let more = read_digits value' (digits + 1) cs in
    if is_digit c
    then (if digits == 1 && value == 0
        then none
        else if ltb 255 value' || ltb 3 (digits + 1)
        then none
        else more)
    else some (value, digits, c ∷ cs)

-- One octet: at least a digit.
unfoldable pub read_octet : List ℕ → Option (ℕ × List ℕ)
read_octet text = elim (read_digits 0 0 text) [
  | none ↦ none
  | some (value, digits, rest) ↦ if digits == 0 then none else some (value, rest)
]

-- `if (octet < 3) { if (pos >= text.size() || text[pos] != '.') return false; ++pos; }`
unfoldable pub skip_dot : List ℕ → Option (List ℕ)
skip_dot [] = none
skip_dot (c ∷ cs) = if c == b'.' then some cs else none

infixl 5 ◌>>=◌
abbrev pub ◌>>=◌ {ℓ κ} : {A : Type ℓ} {B : Type κ} → Option A → (A → Option B) → Option B
none >>= f = none
some a >>= f = f a

unfoldable pub at_end : List ℕ → List ℕ → Option (List ℕ)
at_end octets [] = some octets
at_end octets (c ∷ cs) = none

-- The four rounds of the outer loop, and the test that the text is used up.
unfoldable pub parse_ipv4 : List ℕ → Option (List ℕ)
parse_ipv4 text = do
  (a, r₁) ← read_octet text
  t₁ ← skip_dot r₁
  (b, r₂) ← read_octet t₁
  t₂ ← skip_dot r₂
  (c, r₃) ← read_octet t₂
  t₃ ← skip_dot r₃
  (d, r₄) ← read_octet t₃
  at_end (a ∷ b ∷ c ∷ d ∷ []) r₄
