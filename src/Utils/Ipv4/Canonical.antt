-- ===== src/Utils/Ipv4/Canonical.antt =====
-- `parse_ipv4` accepts nothing but the usual spelling.
use haproxy_spoa_firehol_mmd.Prelude.{
  ℕ, ◌+◌, ◌-◌, ◌*◌, ◌==◌, ◌≤◌, ◌<◌, ◌≡◌, refl, ap, ◌∙◌, true, List, [], ◌∷◌, ◌++◌, append-nil,
  Option, none, some, arith, Bool-cases, Option-cases, inl, inr, ◌⊎◌, ◌≢◌,
}
use haproxy_spoa_firehol_mmd.Utils.Ipv4.{
  is_digit, read_digits, read_octet, skip_dot, at_end, parse_ipv4, ◌>>=◌,
}
use haproxy_spoa_firehol_mmd.Utils.Ipv4.Spelling.{octet_text, quad_text}

-- One round of the loop on digits, backwards.
abbrev Stopped : ℕ → ℕ → List ℕ → ℕ → ℕ → List ℕ → Type 0
Stopped v d text n k rest = (n ≡ v) × (k ≡ d) × (rest ≡ text)

abbrev WentOn : ℕ → ℕ → List ℕ → ℕ → ℕ → List ℕ → Type 0
WentOn v d text n k rest =
    (x : ℕ) × (cs : List ℕ) × (text ≡ (48 + x) ∷ cs)
    × (x < 10)
    × ((d ≢ 1) ⊎ (0 < v))
    × (v * 10 + x < 256)
    × (d < 3)
    × (read_digits (v * 10 + x) (d + 1) cs ≡ some (n, k, rest))

-- The guards that a digit passed.
digit_passed :
    (v d c : ℕ) (cs : List ℕ) (n k : ℕ) (rest : List ℕ)
    → is_digit c ≡ true
    → read_digits v d (c ∷ cs) ≡ some (n, k, rest)
    → WentOn v d (c ∷ cs) n k rest
unfolding read_digits
digit_passed v d c cs n k rest digit e =
    let range : (48 ≤ c) × (c ≤ 57) = unfold is_digit in ground arith in
    (
      c - 48,
      cs,
      ap (λ t. t ∷ cs) (let q : c ≡ 48 + (c - 48) = omega arith in q),
      omega arith,
      first_or_pos,
      ground arith,
      ground arith,
      ground arith,
    )
  where
    first_or_pos : (d ≢ 1) ⊎ (0 < v)
    first_or_pos = elim (Bool-cases (v == 0)) [
      | inl zero_value ↦ inl (λ one. ground arith)
      | inr positive ↦ inr (ground arith)
    ]

digits_round :
    (text : List ℕ) (v d n k : ℕ) (rest : List ℕ)
    → read_digits v d text ≡ some (n, k, rest)
    → Stopped v d text n k rest ⊎ WentOn v d text n k rest
digits_round [] v d n k rest e = unfold read_digits in inl (ground arith, ground arith, cc)
digits_round (c ∷ cs) v d n k rest e = elim (Bool-cases (is_digit c)) [
  | inl digit ↦ inr (digit_passed v d c cs n k rest digit e)
  | inr other ↦ unfold read_digits in inl (ground arith, ground arith, ground arith)
]

-- An octet that was read stands in the text in its usual spelling, in front of the rest.
abbrev Octet : List ℕ → ℕ → List ℕ → Type 0
Octet text n rest = (n < 256) × (text ≡ octet_text n ++ rest)

octet_text_one : (n : ℕ) → n < 10 → octet_text n ≡ (48 + n) ∷ []
unfolding octet_text
octet_text_one n h = ground arith

octet_text_two :
    (x y : ℕ) → 0 < x → x < 10 → y < 10 → octet_text (x * 10 + y) ≡ (48 + x) ∷ (48 + y) ∷ []
unfolding octet_text
octet_text_two x y p hx hy = ground arith

octet_text_three :
    (x y z : ℕ)
    → 0 < x
    → x < 10
    → y < 10
    → z < 10
    → octet_text ((x * 10 + y) * 10 + z) ≡ (48 + x) ∷ (48 + y) ∷ (48 + z) ∷ []
unfolding octet_text
octet_text_three x y z p hx hy hz = ground arith

third_digit :
    (x y : ℕ) (cs : List ℕ) (n k : ℕ) (rest : List ℕ)
    → 0 < x
    → x < 10
    → y < 10
    → read_digits (x * 10 + y) 2 cs ≡ some (n, k, rest)
    → n < 256
    → (48 + x) ∷ (48 + y) ∷ cs ≡ octet_text n ++ rest
third_digit x y cs n k rest p hx hy e small = elim (digits_round cs (x * 10 + y) 2 n k rest e) [
  | inl (value, count, same) ↦ rw (value, octet_text_two x y p hx hy, same)
  | inr (z, more, text, hz, _, fits, _, e₃) ↦
      elim (digits_round more ((x * 10 + y) * 10 + z) 3 n k rest e₃) [
        | inl (value, count, same) ↦ rw (text, value, octet_text_three x y z p hx hy hz, same)
        | inr (w, _, _, _, _, _, over, _) ↦ absurd (omega arith)
      ]
]

second_digit :
    (x : ℕ) (cs : List ℕ) (n k : ℕ) (rest : List ℕ)
    → x < 10
    → read_digits x 1 cs ≡ some (n, k, rest)
    → n < 256
    → (48 + x) ∷ cs ≡ octet_text n ++ rest
second_digit x cs n k rest hx e small = elim (digits_round cs x 1 n k rest e) [
  | inl (value, count, same) ↦ rw (value, octet_text_one x hx, same)
  | inr (y, more, text, hy, lead, fits, _, e₂) ↦
      let p : 0 < x = omega arith in rw text (third_digit x y more n k rest p hx hy e₂ small)
]

digits_small :
    (text : List ℕ) (v d n k : ℕ) (rest : List ℕ)
    → v < 256
    → read_digits v d text ≡ some (n, k, rest)
    → n < 256
digits_small [] v d n k rest h e = unfold read_digits in ground arith
digits_small (c ∷ cs) v d n k rest h e = elim (digits_round (c ∷ cs) v d n k rest e) [
  | inl (value, _, _) ↦ omega arith
  | inr (x, cs', text, _, _, fits, _, e') ↦
      let tail : cs ≡ cs' = ground arith in
      digits_small cs (v * 10 + x) (d + 1) n k rest fits (rw tail e')
]

digits_Octet :
    (text rest : List ℕ) (n k : ℕ)
    → read_digits 0 0 text ≡ some (n, k, rest)
    → k ≢ 0
    → Octet text n rest
digits_Octet text rest n k e some_digit = elim (digits_round text 0 0 n k rest e) [
  | inl (_, none_read, _) ↦ absurd (some_digit none_read)
  | inr (x, cs, front, hx, _, _, _, e₁) ↦
      let zero_add : 0 * 10 + x ≡ x = omega arith in
      let e₂ : read_digits x 1 cs ≡ some (n, k, rest) = rw zero_add at e₁ in
      let small = digits_small text 0 0 n k rest (omega arith) e in
      (small, rw front (second_digit x cs n k rest hx e₂ small))
]

octet_parts :
    (text rest : List ℕ) (n : ℕ)
    → read_octet text ≡ some (n, rest)
    → (k : ℕ) × (read_digits 0 0 text ≡ some (n, k, rest)) × (k ≢ 0)
unfolding read_octet
octet_parts text rest n e = elim (Option-cases (read_digits 0 0 text)) [
  | inl bad ↦ absurd (ground arith)
  | inr ((n', k, rest'), found) ↦ (k, ground arith, λ zero_digits. ground arith)
]

read_octet_inv : (text rest : List ℕ) (n : ℕ) → read_octet text ≡ some (n, rest) → Octet text n rest
read_octet_inv text rest n e =
    let (k, found, some_digit) = octet_parts text rest n e in
    digits_Octet text rest n k found some_digit

skip_dot_inv : (text rest : List ℕ) → skip_dot text ≡ some rest → text ≡ b'.' ∷ rest
unfolding skip_dot
skip_dot_inv [] rest e = cc
skip_dot_inv (c ∷ cs) rest e = ground arith

at_end_inv :
    (octets text out : List ℕ) → at_end octets text ≡ some out → (text ≡ []) × (out ≡ octets)
unfolding at_end
at_end_inv octets [] out e = (refl, cc)
at_end_inv octets (c ∷ cs) out e = cc

>>=-eq-some {ℓ κ} :
    {A : Type ℓ} {B : Type κ} (o : Option A) (f : A → Option B) {b : B}
    → (o >>= f) ≡ some b
    → (a : A) × (o ≡ some a) × (f a ≡ some b)
>>=-eq-some none f e = cc
>>=-eq-some (some a) f e = (a, refl, e)

-- One round of the parser: an octet and the dot after it.
round_inv :
    (text : List ℕ) (f : ℕ → List ℕ → Option (List ℕ)) {out : List ℕ}
    → (read_octet text >>= λ (a, r). skip_dot r >>= λ t. f a t) ≡ some out
    → (a : ℕ) × (t : List ℕ) × Octet text a (b'.' ∷ t) × (f a t ≡ some out)
round_inv text f e =
    let ((a, r), p, e₁) = >>=-eq-some (read_octet text) _ e in
    let (t, q, e₂) = >>=-eq-some (skip_dot r) _ e₁ in
    let (small, spelled) = read_octet_inv text r a p in
    (a, t, (small, spelled ∙ ap (λ s. octet_text a ++ s) (skip_dot_inv r t q)), e₂)

-- The last round.
last_round_inv :
    (text : List ℕ) (f : ℕ → List ℕ) {out : List ℕ}
    → (read_octet text >>= λ (d, r). at_end (f d) r) ≡ some out
    → (d : ℕ) × Octet text d [] × (out ≡ f d)
last_round_inv text f e =
    let ((d, r), p, e₁) = >>=-eq-some (read_octet text) _ e in
    let (done, same) = at_end_inv (f d) r _ e₁ in
    let (small, spelled) = read_octet_inv text r d p in
    (d, (small, spelled ∙ ap (λ s. octet_text d ++ s) done), same)

quad_spelled :
    (a b c d : ℕ) {text t₁ t₂ t₃ : List ℕ}
    → text ≡ octet_text a ++ (b'.' ∷ t₁)
    → t₁ ≡ octet_text b ++ (b'.' ∷ t₂)
    → t₂ ≡ octet_text c ++ (b'.' ∷ t₃)
    → t₃ ≡ octet_text d ++ []
    → text ≡ quad_text a b c d
quad_spelled a b c d pa pb pc pd = rw (pa, pb, pc, pd, append-nil (octet_text d))

-- A text that is accepted is the usual spelling of the address that it gives: no leading zeros, no
-- other characters.
pub parse_ipv4_canonical :
    (text octets : List ℕ)
    → parse_ipv4 text ≡ some octets
    → (a : ℕ) × (b : ℕ) × (c : ℕ) × (d : ℕ) × (octets ≡ a ∷ b ∷ c ∷ d ∷ [])
      × (text ≡ quad_text a b c d)
      × (a < 256)
      × (b < 256)
      × (c < 256)
      × (d < 256)
unfolding parse_ipv4
parse_ipv4_canonical text octets e =
    let (a, t₁, (ha, pa), e₁) = round_inv text _ e in
    let (b, t₂, (hb, pb), e₂) = round_inv t₁ _ e₁ in
    let (c, t₃, (hc, pc), e₃) = round_inv t₂ _ e₂ in
    let (d, (hd, pd), same) = last_round_inv t₃ _ e₃ in
    (a, b, c, d, same, quad_spelled a b c d pa pb pc pd, ha, hb, hc, hd)
