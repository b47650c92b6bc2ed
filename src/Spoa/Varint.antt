-- ===== src/Spoa/Varint.antt =====
-- src/spoa/varint.h: integers in the variable-length encoding of the SPOE peers protocol.
-- A byte buffer is a list of numbers below 256, a uint64_t a number below 2 ^ 64. Loops on a number
-- that falls recur on its accessibility, so they need no fuel.
pub mod Encoding
pub mod Encode
pub mod Decode
pub mod RoundTrip
use Prim.Native.Nat.{bit_or}
use mathlib.Core.WellFounded.{Acc}
use haproxy_spoa_firehol_mmd.Prelude.{
  ℕ, suc, ◌+◌, ◌-◌, ◌*◌, ◌/◌, ◌%◌, ◌^◌, ◌≤◌, ◌<◌, List, [], ◌∷◌, ◌++◌, Option, none, some, ◌||◌,
  dite, dec_le, arith, ltb, leb, if◌then◌else◌, lt_wf,
}
use haproxy_spoa_firehol_mmd.Prelude.Lists.{length, set, replicate}

abbrev pub max_encoded_size : ℕ
max_encoded_size = 10

pub shrinks : (n : ℕ) → 128 ≤ n → (n - 128) / 128 < n
shrinks n h = omega arith

-- `while (n >= 128) { n = (n - 128) >> 7; ++size; }`
unfoldable pub size_loop : ℕ → (n : ℕ) → Acc ◌<◌ n → ℕ
size_loop size n (Acc.intro _ smaller) =
    dite (dec_le 128 n)
      (λ more. size_loop (size + 1) ((n - 128) / 128) (smaller _ (shrinks n more))) (λ _. size)

unfoldable pub encoded_size : ℕ → ℕ
encoded_size n =
    if ltb n 240 then 1 else size_loop 2 ((n - 240) / 16) (lt_wf.apply ((n - 240) / 16))

pub record Decoded : Type 0 where
  pub value : ℕ
  pub consumed : ℕ

-- The list is what the loop has not reached of `buf`, and `i` the index of its head. `shift` stays
-- below 2 ^ 32, since the guard stops the loop from 64 on.
unfoldable pub decode_loop : List ℕ → ℕ → ℕ → ℕ → Option Decoded
decode_loop [] n shift i = none
decode_loop (b ∷ bs) n shift i =
    let n' = (n + b * 2 ^ shift % 2 ^ 64) % 2 ^ 64 in
    let more = decode_loop bs n' (shift + 7) (i + 1) in
    if leb 64 shift || ltb ((2 ^ 64 - 1 - n) / 2 ^ shift) b
    then none
    else if ltb b 128
    then some (record { value = n'; consumed = i + 1 })
    else more

unfoldable pub decode : List ℕ → Option Decoded
decode [] = none
decode (n ∷ bs) =
    if ltb n 240 then some (record { value = n; consumed = 1 }) else decode_loop bs n 4 1

-- `encode` leaves the bytes in `buf`; the result is the new buffer with what is returned.
unfoldable pub encode_loop : ℕ → List ℕ → ℕ → (n : ℕ) → Acc ◌<◌ n → List ℕ × Option ℕ
encode_loop cap buf p n (Acc.intro _ smaller) =
    dite (dec_le 128 n)
      (λ more.
        dite (dec_le cap p) (λ _. (buf, none))
          (λ _.
            encode_loop cap (set buf p (bit_or (n % 256) 0x80)) (p + 1) ((n - 128) / 128)
              (smaller _ (shrinks n more))))
      (λ _. if leb cap p then (buf, none) else (set buf p (n % 256), some (p + 1)))

unfoldable pub encode : List ℕ → ℕ → ℕ → List ℕ × Option ℕ
encode buf cap n =
    if leb cap 0
    then (buf, none)
    else if ltb n 240
    then (set buf 0 (n % 256), some 1)
    else encode_loop cap (set buf 0 (bit_or (n % 256) 0xF0)) 1 ((n - 240) / 16)
        (lt_wf.apply ((n - 240) / 16))

unfoldable pub encode_unsafe_loop : ℕ → List ℕ → ℕ → (n : ℕ) → Acc ◌<◌ n → List ℕ × ℕ
encode_unsafe_loop base buf p n (Acc.intro _ smaller) =
    dite (dec_le 128 n)
      (λ more.
        encode_unsafe_loop base (set buf (base + p) (bit_or (n % 256) 0x80)) (p + 1)
          ((n - 128) / 128) (smaller _ (shrinks n more)))
      (λ _. (set buf (base + p) (n % 256), p + 1))

-- The pointer that the code is given points at index `base` of the buffer.
unfoldable pub encode_unsafe : List ℕ → ℕ → ℕ → List ℕ × ℕ
encode_unsafe buf base n =
    if ltb n 240
    then (set buf base (n % 256), 1)
    else encode_unsafe_loop base (set buf base (bit_or (n % 256) 0xF0)) 1 ((n - 240) / 16)
        (lt_wf.apply ((n - 240) / 16))

-- `out.resize(old_size + needed)` appends zeros, which `encode_unsafe` overwrites.
unfoldable pub encode_to_vec : List ℕ → ℕ → List ℕ
encode_to_vec out n = (encode_unsafe (out ++ replicate (encoded_size n) 0) (length out) n).0
