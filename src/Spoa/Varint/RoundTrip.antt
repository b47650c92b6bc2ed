-- ===== src/Spoa/Varint/RoundTrip.antt =====
-- Decoding inverts encoding, and nothing else decodes: the encoding of a number is unique.
use haproxy_spoa_firehol_mmd.Prelude.{
  ℕ, zero, suc, ◌+◌, ◌-◌, ◌*◌, ◌/◌, ◌%◌, ◌^◌, ◌≤◌, ◌<◌, ◌≡◌, refl, ap, List, [], ◌∷◌, ◌++◌, Option,
  none, some, arith, ltb, Bool-cases, inl, inr, ◌⊎◌, Option-cases,
}
use haproxy_spoa_firehol_mmd.Prelude.Lists.{length, All, drop, drop-append}
use haproxy_spoa_firehol_mmd.Prelude.Bytes.{IsByte, IsU64}
use haproxy_spoa_firehol_mmd.Spoa.Varint.{Decoded, decode, encoded_size, encode_to_vec}
use haproxy_spoa_firehol_mmd.Spoa.Varint.Encoding.{groups, encoding}
use haproxy_spoa_firehol_mmd.Spoa.Varint.Encode.{encoded_size-length, encode_to_vec-encoding}
use haproxy_spoa_firehol_mmd.Spoa.Varint.Decode.{groups_value, in_range, decode_exact}

groups_value-groups :
    (k q : ℕ) (rest : List ℕ)
    → q < 128 ^ suc k
    → groups_value (groups k q ++ rest) ≡ some (q, length (groups k q))
unfolding groups_value groups
groups_value-groups zero q rest h = ground arith
groups_value-groups (suc k) q rest h = elim (Bool-cases (ltb q 128)) [
  | inl last ↦ ground arith
  | inr more ↦ ground (arith, groups_value-groups k ((q - 128) / 128) rest (omega arith))
]

pub decode-encoding :
    (n : ℕ) (rest : List ℕ)
    → IsU64 n
    → decode (encoding n ++ rest) ≡ some (record { value = n; consumed = length (encoding n) })
unfolding encoding in_range
decode-encoding n rest h = elim (Bool-cases (ltb n 240)) [
  | inl small ↦ rw (small, decode_exact n rest (ground arith)) (ground arith)
  | inr big ↦
      rw (big, decode_exact (n % 16 + 240) (groups 8 ((n - 240) / 16) ++ rest) (omega arith))
        (ground (arith, groups_value-groups 8 ((n - 240) / 16) rest (omega arith)))
]

groups_value-cases :
    (x : ℕ) (bs : List ℕ) (q c : ℕ)
    → groups_value (x ∷ bs) ≡ some (q, c)
    → ((x < 128) × (q ≡ x) × (c ≡ 1))
      ⊎ ((q' : ℕ) × (c' : ℕ) × (groups_value bs ≡ some (q', c'))
          × (128 ≤ x)
          × (q ≡ x + 128 * q')
          × (c ≡ c' + 1))
unfolding groups_value
groups_value-cases x bs q c e = elim (Bool-cases (ltb x 128)) [
  | inl last ↦ inl (ground arith, ground arith, ground arith)
  | inr more ↦ elim (Option-cases (groups_value bs)) [
    | inl stop ↦ absurd (ground arith)
    | inr ((q', c'), r) ↦ inr (q', c', r, ground arith, ground arith, ground arith)
  ]
]

groups_last : (k q : ℕ) → q < 128 → groups k q ≡ q ∷ []
unfolding groups
groups_last zero q h = refl
groups_last (suc k) q h = ground arith

groups_more : (k q : ℕ) → 128 ≤ q → groups (suc k) q ≡ (q % 128 + 128) ∷ groups k ((q - 128) / 128)
unfolding groups
groups_more k q h = ground arith

-- A buffer that stands for `q` begins with the groups of `q`.
groups_value_inv :
    (bs : List ℕ) (k q c : ℕ)
    → All IsByte bs
    → groups_value bs ≡ some (q, c)
    → q < 128 ^ suc k
    → (r : List ℕ) × (bs ≡ groups k q ++ r) × (c ≡ length (groups k q))
groups_value_inv [] k q c h e b = unfold groups_value in cc
groups_value_inv (x ∷ bs) zero q c h e b = elim (groups_value-cases x bs q c e) [
  | inl (lt, same, one) ↦ (bs, rw (groups_last 0 q b) (cc), rw (groups_last 0 q b) one)
  | inr (q', c', rest, ge, value, count) ↦ absurd (omega arith)
]
groups_value_inv (x ∷ bs) (suc k) q c h e b = elim (groups_value-cases x bs q c e) [
  | inl (lt, same, one) ↦
      let few = groups_last (suc k) q (omega arith) in (bs, rw few (cc), rw few one)
  | inr (q', c', rest, ge, value, count) ↦
      let (r, split, len) = groups_value_inv bs k q' c' h.1 rest (omega arith) in
      let more = groups_more k q (omega arith) in
      let tail : (q - 128) / 128 ≡ q' = omega arith in
      let head : q % 128 + 128 ≡ x = omega arith in
      (r, rw (more, tail, head) (ap (◌∷◌ x) split), rw (more, tail) (omega arith))
]

in_range_inv :
    (n i : ℕ) (o : Option (ℕ × ℕ)) (d : Decoded)
    → in_range n 4 i o ≡ some d
    → (q : ℕ) × (c : ℕ) × (o ≡ some (q, c))
      × (d.value ≡ n + q * 16)
      × (d.consumed ≡ i + c)
      × IsU64 d.value
unfolding in_range
in_range_inv n i none d e = cc
in_range_inv n i (some (q, c)) d e = (q, c, refl, ground arith, ground arith, ground arith)

encoding_small : (n : ℕ) → n < 240 → encoding n ≡ n ∷ []
unfolding encoding
encoding_small n h = ground arith

encoding_big : (n : ℕ) → 240 ≤ n → encoding n ≡ (n % 16 + 240) ∷ groups 8 ((n - 240) / 16)
unfolding encoding
encoding_big n h = ground arith

-- What a decoded buffer begins with.
abbrev Begins : List ℕ → Decoded → Type 0
Begins buf d =
    (r : List ℕ) × (buf ≡ encoding d.value ++ r)
    × (d.consumed ≡ length (encoding d.value))
    × IsU64 d.value

decode-Begins_big :
    (b : ℕ) (bs : List ℕ) (d : Decoded)
    → All IsByte (b ∷ bs)
    → 240 ≤ b
    → in_range b 4 1 (groups_value bs) ≡ some d
    → Begins (b ∷ bs) d
decode-Begins_big b bs d h big e =
    let (q, c, o, value, count, fits) = in_range_inv b 1 (groups_value bs) d e in
    let (r, split, len) = groups_value_inv bs 8 q c h.1 o (omega arith) in
    let head : d.value % 16 + 240 ≡ b = omega (arith, h.0) in
    let tail : (d.value - 240) / 16 ≡ q = omega arith in
    let enc = encoding_big d.value (omega arith) in
    (r, rw (enc, head, tail) (ap (◌∷◌ b) split), rw (enc, tail) (omega arith), fits)

pub decode-Begins :
    (buf : List ℕ) (d : Decoded) → All IsByte buf → decode buf ≡ some d → Begins buf d
decode-Begins [] d h e = unfold decode in cc
decode-Begins (b ∷ bs) d h e = elim (Bool-cases (ltb b 240)) [
  | inl small ↦
      let r : some (record { value = b; consumed = 1 }) ≡ some d =
        rw (decode_exact b bs h.0, small) at e in
      let same : b ≡ d.value = cc in
      let enc = encoding_small d.value (ground arith) in
      (bs, rw enc (cc), rw enc (ground arith), ground arith)
  | inr big ↦ decode-Begins_big b bs d h (ground arith) (rw (decode_exact b bs h.0, big) at e)
]

-- Reading back a number that `encode_to_vec` appended, whatever follows it, gives the number and
-- the size that `encoded_size` announces.
pub decode-encode_to_vec :
    (n : ℕ) (rest : List ℕ)
    → IsU64 n
    → decode (encode_to_vec [] n ++ rest) ≡ some (record { value = n; consumed = encoded_size n })
decode-encode_to_vec n rest h =
    rw (encode_to_vec-encoding [] n h, encoded_size-length n h) (decode-encoding n rest h)

-- Whenever `decode` accepts a buffer of bytes, the value is a uint64_t and the bytes that it
-- consumed are the ones that `encode_to_vec` writes for it: no number has a second encoding.
pub decode_canonical :
    (buf : List ℕ) (d : Decoded)
    → All IsByte buf
    → decode buf ≡ some d
    → IsU64 d.value
      × (buf ≡ encode_to_vec [] d.value ++ drop d.consumed buf)
      × (d.consumed ≡ encoded_size d.value)
decode_canonical buf d h e =
    let (r, split, count, fits) = decode-Begins buf d h e in
    let rest : drop d.consumed buf ≡ r = rw (count, split) (drop-append (encoding d.value) r) in
    (
      fits,
      rw (encode_to_vec-encoding [] d.value fits, rest) split,
      rw (encoded_size-length d.value fits) count,
    )
