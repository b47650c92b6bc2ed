-- ===== src/Spoa/Varint/Decode.antt =====
-- `decode` against exact arithmetic: it returns the number that the bytes stand for, unless there is
-- none or it does not fit 64 bits.
use native.Mathlib.Nat.{le-div_iff_mul-le, one-le-pow}
use native.Mathlib.Numerals.{towards_suc}
use haproxy_spoa_firehol_mmd.Prelude.{
  ℕ, ◌+◌, ◌-◌, ◌*◌, ◌/◌, ◌%◌, ◌^◌, ◌≤◌, ◌<◌, ◌≡◌, refl, ap, List, [], ◌∷◌, Option, none, some,
  false, arith, ltb, leb, if◌then◌else◌, Bool-cases, inl, inr, dec_le, le→ltb, lt→ltb,
}
use haproxy_spoa_firehol_mmd.Prelude.Lists.{length}
use haproxy_spoa_firehol_mmd.Prelude.Bytes.{IsByte, IsU64}
use haproxy_spoa_firehol_mmd.Spoa.Varint.{Decoded, decode_loop, decode}

-- The number that the groups at the front stand for, with how many bytes they take.
unfoldable pub groups_value : List ℕ → Option (ℕ × ℕ)
groups_value [] = none
groups_value (b ∷ bs) =
    let more : Option (ℕ × ℕ) = elim (groups_value bs) [
      | none ↦ none
      | some (q, c) ↦ some (b + 128 * q, c + 1)
    ] in
    if ltb b 128 then some (b, 1) else more

-- What `decode_loop` owes for groups that stand for `q` above bit `shift`.
unfoldable pub in_range : ℕ → ℕ → ℕ → Option (ℕ × ℕ) → Option Decoded
in_range n shift i none = none
in_range n shift i (some (q, c)) =
    if ltb (n + q * 2 ^ shift) (2 ^ 64)
    then some (record { value = n + q * 2 ^ shift; consumed = i + c })
    else none

pow_shift_pos : (s : ℕ) → 0 < 2 ^ s
pow_shift_pos s = one-le-pow s 2 (omega arith)

pub shift_seven : (s : ℕ) → 2 ^ (s + 7) ≡ 128 * 2 ^ s
shift_seven s = simp towards_suc (omega arith)

-- The test before the shift is the test that the sum does not fit.
guard_exact :
    (n b shift : ℕ)
    → IsU64 n
    → ltb ((2 ^ 64 - 1 - n) / 2 ^ shift) b ≡ ltb (2 ^ 64 - 1) (n + b * 2 ^ shift)
guard_exact n b shift h =
    let fit = le-div_iff_mul-le {x = b} {y = 2 ^ 64 - 1 - n} (pow_shift_pos shift) in
    elim (dec_le b ((2 ^ 64 - 1 - n) / 2 ^ shift)) [
      | yes p ↦ rw (
        le→ltb ((2 ^ 64 - 1 - n) / 2 ^ shift) b p,
        le→ltb (2 ^ 64 - 1) (n + b * 2 ^ shift) (let q = fit.0 p in omega arith),
      )
      | no p ↦ rw (
        lt→ltb ((2 ^ 64 - 1 - n) / 2 ^ shift) b (omega arith),
        lt→ltb (2 ^ 64 - 1) (n + b * 2 ^ shift)
            (let q : ¬ (b * 2 ^ shift ≤ 2 ^ 64 - 1 - n) = λ r. p (fit.1 r) in omega arith),
      )
    ]

-- The 64-bit addition is exact where the sum fits.
no_wrap :
    (n b shift : ℕ)
    → n + b * 2 ^ shift < 2 ^ 64
    → (n + b * 2 ^ shift % 2 ^ 64) % 2 ^ 64 ≡ n + b * 2 ^ shift
no_wrap n b shift h = omega arith

in_range-cons :
    (n b shift i : ℕ) (o : Option (ℕ × ℕ))
    → in_range (n + b * 2 ^ shift) (shift + 7) (i + 1) o
      ≡ in_range n shift i (elim o [ none ↦ none | some (q, c) ↦ some (b + 128 * q, c + 1) ])
unfolding in_range
in_range-cons n b shift i none = refl
in_range-cons n b shift i (some (q, c)) = ground (arith, ap (λ (t : ℕ). q * t) (shift_seven shift))

in_range_over :
    (n b shift i : ℕ) (o : Option (ℕ × ℕ))
    → 2 ^ 64 ≤ n + b * 2 ^ shift
    → in_range n shift i (elim o [ none ↦ none | some (q, c) ↦ some (b + 128 * q, c + 1) ]) ≡ none
unfolding in_range
in_range_over n b shift i none h = refl
in_range_over n b shift i (some (q, c)) h = ground arith

le→leb_false : (s : ℕ) → s ≤ 60 → leb 64 s ≡ false
le→leb_false s h = ground arith

early :
    (n b shift j : ℕ)
    → IsU64 n
    → shift ≡ 4 + 7 * j
    → j ≤ 8
    → 128 ≤ b
    → n + b * 2 ^ shift < 2 ^ 64
    → j + 1 ≤ 8
early n b shift j h e k more fits = elim (dec_le 8 j) [
  | yes p ↦
      let at_60 : shift ≡ 60 = omega arith in
      absurd (omega (arith, ap (λ (t : ℕ). b * 2 ^ t) at_60))
  | no p ↦ omega arith
]

-- After `j` groups the shift is 4 + 7 * j, and a ninth group that is not the last never fits.
decode_loop-in_range :
    (bs : List ℕ) (n shift i j : ℕ)
    → IsU64 n
    → shift ≡ 4 + 7 * j
    → j ≤ 8
    → decode_loop bs n shift i ≡ in_range n shift i (groups_value bs)
unfolding decode_loop groups_value
decode_loop-in_range [] n shift i j h e k = unfold in_range in refl
decode_loop-in_range (b ∷ bs) n shift i j h e k = elim (Bool-cases (ltb b 128)) [
  | inl last ↦ unfold in_range in ground (arith, guard_exact n b shift)
  | inr more ↦ elim (Bool-cases (ltb (2 ^ 64 - 1) (n + b * 2 ^ shift))) [
    | inl over ↦
        rw (guard_exact n b shift h, over, more)
          (ground (arith, in_range_over n b shift i (groups_value bs)))
    | inr fits ↦ rw (
      guard_exact n b shift h,
      fits,
      more,
      no_wrap n b shift (ground arith),
      le→leb_false shift (ground arith),
      decode_loop-in_range bs (n + b * 2 ^ shift) (shift + 7) (i + 1) (j + 1) (ground arith)
          (omega arith) (early n b shift j h e k (ground arith) (ground arith)),
      in_range-cons n b shift i (groups_value bs),
    )
  ]
]

-- `decode` is exact on every buffer that starts with a byte.
pub decode_exact :
    (b : ℕ) (bs : List ℕ)
    → IsByte b
    → decode (b ∷ bs) ≡ (
        if ltb b 240
        then some (record { value = b; consumed = 1 })
        else in_range b 4 1 (groups_value bs))
unfolding decode
decode_exact b bs h = rw (decode_loop-in_range bs b 4 1 0 (omega arith) (omega arith) (omega arith))

decode_loop_bounds :
    (bs : List ℕ) (n shift i : ℕ) (d : Decoded)
    → decode_loop bs n shift i ≡ some d
    → (i + 1 ≤ d.consumed) × (d.consumed ≤ i + length bs)
unfolding decode_loop
decode_loop_bounds [] n shift i d e = cc
decode_loop_bounds (b ∷ bs) n shift i d e =
    ground
      (arith, decode_loop_bounds bs ((n + b * 2 ^ shift % 2 ^ 64) % 2 ^ 64) (shift + 7) (i + 1) d)

-- What is consumed is at least a byte, and is there.
pub decode_bounds :
    (buf : List ℕ) (d : Decoded)
    → decode buf ≡ some d
    → (1 ≤ d.consumed) × (d.consumed ≤ length buf)
unfolding decode
decode_bounds [] d e = cc
decode_bounds (b ∷ bs) d e = ground (arith, decode_loop_bounds bs b 4 1 d)
