-- ===== src/Utils/Ipv4/Spelling.antt =====
-- Every address in its usual spelling is accepted by `parse_ipv4`.
use haproxy_spoa_firehol_mmd.Prelude.{
  ℕ, suc, ◌+◌, ◌*◌, ◌/◌, ◌%◌, ◌<◌, ◌≡◌, refl, sym, ap, ◌∙◌, false, List, [], ◌∷◌, ◌++◌, append-nil,
  some, arith, ltb, if◌then◌else◌, Bool-cases, inl, inr, ◌⊎◌, ◌≢◌,
}
use haproxy_spoa_firehol_mmd.Utils.Ipv4.{
  is_digit, read_digits, read_octet, skip_dot, at_end, parse_ipv4,
}

-- The decimal digits of an octet.
unfoldable pub octet_text : ℕ → List ℕ
octet_text n =
    if ltb n 10
    then (48 + n) ∷ []
    else if ltb n 100
    then (48 + n / 10) ∷ (48 + n % 10) ∷ []
    else (48 + n / 100) ∷ (48 + n / 10 % 10) ∷ (48 + n % 10) ∷ []

-- What does not go on with a digit.
abbrev Stops : List ℕ → Type 0
Stops [] = Unit
Stops (c ∷ cs) = is_digit c ≡ false

digits_stop : (v d : ℕ) (rest : List ℕ) → Stops rest → read_digits v d rest ≡ some (v, d, rest)
unfolding read_digits
digits_stop v d [] h = refl
digits_stop v d (c ∷ cs) h = rw h

digit_step :
    (v d x : ℕ) (cs : List ℕ)
    → x < 10
    → (d ≢ 1) ⊎ (0 < v)
    → v * 10 + x < 256
    → d < 3
    → read_digits v d ((48 + x) ∷ cs) ≡ read_digits (v * 10 + x) (d + 1) cs
unfolding read_digits is_digit
digit_step v d x cs hx (inl h) hv hd = ground arith
digit_step v d x cs hx (inr h) hv hd = ground arith

octet_found :
    (text rest : List ℕ) (n d : ℕ)
    → read_digits 0 0 text ≡ some (n, suc d, rest)
    → read_octet text ≡ some (n, rest)
unfolding read_octet
octet_found text rest n d e = rw (e, read_octet) (ground arith)

read_octet-octet_text :
    (n : ℕ) (rest : List ℕ)
    → n < 256
    → Stops rest
    → read_octet (octet_text n ++ rest) ≡ some (n, rest)
unfolding octet_text
read_octet-octet_text n rest h s = elim (Bool-cases (ltb n 10)) [
  | inl one ↦ rw one (
      octet_found _ rest n 0 (
        digit_step 0 0 n rest (ground arith) (inl (omega arith)) (ground arith) (omega arith)
        ∙ rw (digits_stop (0 * 10 + n) 1 rest s) (ground arith)))
  | inr more ↦ elim (Bool-cases (ltb n 100)) [
    | inl two ↦
        rw (more, two)
          (octet_found _ rest n 1 (
            digit_step 0 0 (n / 10) _ (ground arith) (inl (omega arith)) (ground arith)
              (omega arith)
            ∙ digit_step (0 * 10 + n / 10) 1 (n % 10) rest (omega arith) (inr (ground arith))
                (ground arith) (omega arith)
            ∙ rw (digits_stop ((0 * 10 + n / 10) * 10 + n % 10) 2 rest s) (ground arith)))
    | inr three ↦
        rw (more, three)
          (octet_found _ rest n 2 (
            digit_step 0 0 (n / 100) _ (omega arith) (inl (omega arith)) (omega arith) (omega arith)
            ∙ digit_step (0 * 10 + n / 100) 1 (n / 10 % 10) _ (omega arith) (inr (ground arith))
                (omega arith) (omega arith)
            ∙ digit_step ((0 * 10 + n / 100) * 10 + n / 10 % 10) 2 (n % 10) rest (omega arith)
                (inl (omega arith)) (omega arith) (omega arith)
            ∙ rw (digits_stop (((0 * 10 + n / 100) * 10 + n / 10 % 10) * 10 + n % 10) 3 rest s)
                (ground arith)))
  ]
]

-- The usual spelling of an address.
abbrev pub quad_text : ℕ → ℕ → ℕ → ℕ → List ℕ
quad_text a b c d =
    octet_text a ++ (b'.' ∷ (octet_text b ++ (b'.' ∷ (octet_text c ++ (b'.' ∷ octet_text d)))))

octet_dot :
    (n : ℕ) (cs : List ℕ) → n < 256 → read_octet (octet_text n ++ (b'.' ∷ cs)) ≡ some (n, b'.' ∷ cs)
octet_dot n cs h = read_octet-octet_text n (b'.' ∷ cs) h (unfold is_digit in refl)

octet_end : (n : ℕ) → n < 256 → read_octet (octet_text n) ≡ some (n, [])
octet_end n h = ap read_octet (sym (append-nil (octet_text n))) ∙ read_octet-octet_text n [] h tt

-- Every address is accepted in its usual spelling, with its octets.
pub parse_ipv4-quad_text :
    (a b c d : ℕ)
    → a < 256
    → b < 256
    → c < 256
    → d < 256
    → parse_ipv4 (quad_text a b c d) ≡ some (a ∷ b ∷ c ∷ d ∷ [])
unfolding parse_ipv4 skip_dot at_end
parse_ipv4-quad_text a b c d ha hb hc hd = rw (
  octet_dot a (octet_text b ++ (b'.' ∷ (octet_text c ++ (b'.' ∷ octet_text d)))) ha,
  octet_dot b (octet_text c ++ (b'.' ∷ octet_text d)) hb,
  octet_dot c (octet_text d) hc,
  octet_end d hd,
)
