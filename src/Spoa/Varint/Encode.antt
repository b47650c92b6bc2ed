-- ===== src/Spoa/Varint/Encode.antt =====
-- The encoders write the encoding: its length, its bytes, and when `encode` refuses.
use Prim.Native.Nat.{bit_or}
use mathlib.Core.WellFounded.{Acc}
use haproxy_spoa_firehol_mmd.Prelude.{
  ℕ, zero, suc, ◌+◌, ◌-◌, ◌/◌, ◌%◌, ◌^◌, ◌≤◌, ◌<◌, ◌≡◌, ap, ◌∙◌, List, ◌++◌, none, some, arith,
  lt_wf,
}
use haproxy_spoa_firehol_mmd.Prelude.Lists.{
  length, set, replicate, length-replicate, overwrite, overwrite_end,
}
use haproxy_spoa_firehol_mmd.Prelude.Bytes.{IsU64, bit_or_80, bit_or_f0}
use haproxy_spoa_firehol_mmd.Spoa.Varint.{
  size_loop, encoded_size, encode_unsafe_loop, encode_unsafe, encode_loop, encode, encode_to_vec,
}
use haproxy_spoa_firehol_mmd.Spoa.Varint.Encoding.{groups, encoding}

size_loop-groups :
    (k size q : ℕ) (w : Acc ◌<◌ q)
    → q < 128 ^ suc k
    → size_loop size q w + 1 ≡ size + length (groups k q)
unfolding size_loop groups
size_loop-groups zero size q (Acc.intro _ smaller) h = ground arith
size_loop-groups (suc k) size q (Acc.intro _ smaller) h = grind (
  arith,
  λ (w : Acc ◌<◌ ((q - 128) / 128)).
      size_loop-groups k (size + 1) ((q - 128) / 128) w (omega arith),
)

-- `encoded_size` is the number of bytes of the encoding.
pub encoded_size-length : (n : ℕ) → IsU64 n → encoded_size n ≡ length (encoding n)
unfolding encoded_size encoding
encoded_size-length n h =
    ground
      (arith, size_loop-groups 8 2 ((n - 240) / 16) (lt_wf.apply ((n - 240) / 16)) (omega arith))

group_byte : (q : ℕ) → bit_or (q % 256) 0x80 ≡ q % 128 + 128
group_byte q = omega (arith, bit_or_80 (q % 256) (omega arith))

first_byte : (n : ℕ) → bit_or (n % 256) 0xF0 ≡ n % 16 + 240
first_byte n = omega (arith, bit_or_f0 (n % 256) (omega arith))

encode_unsafe_loop-groups :
    (k base p q : ℕ) (buf : List ℕ) (w : Acc ◌<◌ q)
    → q < 128 ^ suc k
    → encode_unsafe_loop base buf p q w
      ≡ (overwrite buf (base + p) (groups k q), p + length (groups k q))
unfolding encode_unsafe_loop groups overwrite
encode_unsafe_loop-groups zero base p q buf (Acc.intro _ smaller) h = ground arith
encode_unsafe_loop-groups (suc k) base p q buf (Acc.intro _ smaller) h = grind (
  arith,
  group_byte q,
  λ (w : Acc ◌<◌ ((q - 128) / 128)).
      encode_unsafe_loop-groups k base (p + 1) ((q - 128) / 128)
        (set buf (base + p) (q % 128 + 128)) w (omega arith),
)

-- `encode_unsafe` writes the encoding at the place it is given, and returns its length.
pub encode_unsafe-encoding :
    (buf : List ℕ) (base n : ℕ)
    → IsU64 n
    → encode_unsafe buf base n ≡ (overwrite buf base (encoding n), length (encoding n))
unfolding encode_unsafe encoding overwrite
encode_unsafe-encoding buf base n h = ground (
  arith,
  first_byte n,
  encode_unsafe_loop-groups 8 base 1 ((n - 240) / 16) (set buf base (n % 16 + 240))
      (lt_wf.apply ((n - 240) / 16)) (omega arith),
)

-- `encode_to_vec` appends the encoding to the vector.
pub encode_to_vec-encoding :
    (out : List ℕ) (n : ℕ) → IsU64 n → encode_to_vec out n ≡ out ++ encoding n
unfolding encode_to_vec
encode_to_vec-encoding out n h =
    ap (λ (r : List ℕ × ℕ). r.0) (encode_unsafe-encoding _ (length out) n h)
    ∙ overwrite_end out (replicate (encoded_size n) 0) (encoding n)
        (length-replicate (encoded_size n) 0 ∙ encoded_size-length n h)

encode_loop-groups :
    (k cap p q : ℕ) (buf : List ℕ) (w : Acc ◌<◌ q)
    → q < 128 ^ suc k
    → p + length (groups k q) ≤ cap
    → encode_loop cap buf p q w ≡ (overwrite buf p (groups k q), some (p + length (groups k q)))
unfolding encode_loop groups overwrite
encode_loop-groups zero cap p q buf (Acc.intro _ smaller) h r = ground arith
encode_loop-groups (suc k) cap p q buf (Acc.intro _ smaller) h r = grind (
  arith,
  group_byte q,
  λ (w : Acc ◌<◌ ((q - 128) / 128)).
      encode_loop-groups k cap (p + 1) ((q - 128) / 128) (set buf p (q % 128 + 128)) w
        (omega arith),
)

encode_loop_refuses :
    (k cap p q : ℕ) (buf : List ℕ) (w : Acc ◌<◌ q)
    → q < 128 ^ suc k
    → cap < p + length (groups k q)
    → (encode_loop cap buf p q w).1 ≡ none
unfolding encode_loop groups
encode_loop_refuses zero cap p q buf (Acc.intro _ smaller) h r = ground arith
encode_loop_refuses (suc k) cap p q buf (Acc.intro _ smaller) h r = grind (
  arith,
  λ (w : Acc ◌<◌ ((q - 128) / 128)) (buf' : List ℕ).
      encode_loop_refuses k cap (p + 1) ((q - 128) / 128) buf' w (omega arith),
)

-- With room for the encoding `encode` writes it at the start of the buffer.
pub encode_fits :
    (buf : List ℕ) (cap n : ℕ)
    → IsU64 n
    → length (encoding n) ≤ cap
    → encode buf cap n ≡ (overwrite buf 0 (encoding n), some (length (encoding n)))
unfolding encode encoding overwrite
encode_fits buf cap n h r = ground (
  arith,
  first_byte n,
  encode_loop-groups 8 cap 1 ((n - 240) / 16) (set buf 0 (n % 16 + 240))
      (lt_wf.apply ((n - 240) / 16)) (omega arith),
)

-- With less room `encode` returns nothing.
pub encode_refuses :
    (buf : List ℕ) (cap n : ℕ) → IsU64 n → cap < length (encoding n) → (encode buf cap n).1 ≡ none
unfolding encode encoding
encode_refuses buf cap n h r = ground (
  arith,
  first_byte n,
  encode_loop_refuses 8 cap 1 ((n - 240) / 16) (set buf 0 (n % 16 + 240))
      (lt_wf.apply ((n - 240) / 16)) (omega arith),
)
