-- ===== src/Builder/Headers.antt =====
-- Headers and pointers as a reader of the format takes them.
use Prim.Native.Nat.{bit_or}
use haproxy_spoa_firehol_mmd.Prelude.{
  ℕ, ◌+◌, ◌*◌, ◌/◌, ◌%◌, ◌-◌, ◌^◌, ◌<◌, ◌≤◌, ◌≡◌, refl, List, [], ◌∷◌, ◌++◌, Option, none, some,
  ltb, arith, if◌then◌else◌, ◌==◌, true, false, Bool-cases, inl, inr, append_assoc,
}
use haproxy_spoa_firehol_mmd.Prelude.Bytes.{bit_or_8, bit_or_32}
use haproxy_spoa_firehol_mmd.Builder.{
  ctrl_type, size_bytes, encode_ctrl_and_size, pointer_bytes, encode_pointer,
}

-- A pointer of the format: three bits of type, two of length, three of the value, with the offset that
-- each length starts from.
unfoldable pub read_pointer : List ℕ → Option (ℕ × List ℕ)
read_pointer (c ∷ a ∷ rest) = if c / 8 == 4 then some (c % 8 * 256 + a, rest) else (elim rest [
  | [] ↦ none
  | b ∷ rest₁ ↦
      if c / 8 == 5 then some (c % 8 * 65536 + a * 256 + b + 2048, rest₁) else (elim rest₁ [
        | [] ↦ none
        | d ∷ rest₂ ↦
            if c / 8 == 6
            then some (c % 8 * 16777216 + a * 65536 + b * 256 + d + 526336, rest₂)
            else (elim rest₂ [
              | [] ↦ none
              | e ∷ rest₃ ↦
                  if c / 8 == 7 then some (a * 16777216 + b * 65536 + d * 256 + e, rest₃) else none
            ])
      ])
])
read_pointer bytes = none

first_bytes :
    (tag low : ℕ)
    → tag < 32
    → low < 8
    → (bit_or (tag * 8) low / 8 ≡ tag) × (bit_or (tag * 8) low % 8 ≡ low)
first_bytes tag low t l = (omega (arith, bit_or_8 tag low t l), omega (arith, bit_or_8 tag low t l))

read_pointer-pointer_bytes :
    (offset : ℕ) (rest : List ℕ)
    → offset < 2 ^ 32
    → read_pointer (pointer_bytes offset ++ rest) ≡ some (offset, rest)
unfolding read_pointer pointer_bytes
read_pointer-pointer_bytes offset rest h =
    let (a, b) = first_bytes 4 (offset / 256 % 8) (omega arith) (omega arith) in
    let (a', b') = first_bytes 5 ((offset - 2048) / 65536 % 8) (omega arith) (omega arith) in
    let (a'', b'') = first_bytes 6 ((offset - 526336) / 16777216 % 8) (omega arith) (omega arith) in
    ground (arith, a, b, a', b', a'', b'')

-- Any offset of 32 bits is added to the output as bytes that a reader of the format, with anything
-- behind them, takes back as that offset.
pub encode_pointer_lem :
    (out rest : List ℕ) (offset : ℕ)
    → offset < 2 ^ 32
    → (encode_pointer out offset ≡ out ++ encode_pointer [] offset)
      × (read_pointer (encode_pointer [] offset ++ rest) ≡ some (offset, rest))
unfolding encode_pointer
encode_pointer_lem out rest offset h = (refl, read_pointer-pointer_bytes offset rest h)

-- The size of the format, by the low bits of the control byte and the bytes behind the type.
unfoldable pub read_size : ℕ → List ℕ → Option (ℕ × List ℕ)
read_size low bytes = if ltb low 29 then some (low, bytes) else (elim bytes [
  | [] ↦ none
  | a ∷ rest ↦ if low == 29 then some (29 + a, rest) else (elim rest [
    | [] ↦ none
    | b ∷ rest₁ ↦
        if low == 30
        then some (285 + a * 256 + b, rest₁)
        else (elim rest₁ [ [] ↦ none | d ∷ rest₂ ↦ some (65821 + a * 65536 + b * 256 + d, rest₂) ])
  ])
])

-- A header of the format: the control byte, a byte of an extended type directly behind it, the size.
unfoldable pub read_header : List ℕ → ℕ × Option (ℕ × List ℕ)
read_header [] = (0, none)
read_header (c ∷ rest) =
    if c / 32 == 0
    then (elim rest [ [] ↦ (0, none) | t ∷ rest₁ ↦ (t + 7, read_size (c % 32) rest₁) ])
    else (c / 32, read_size (c % 32) rest)

low_bits :
    (tag low : ℕ)
    → tag < 8
    → low < 32
    → (bit_or (tag * 32) low / 32 ≡ tag) × (bit_or (tag * 32) low % 32 ≡ low)
low_bits tag low t l = (omega (arith, bit_or_32 tag low t l), omega (arith, bit_or_32 tag low t l))

basic_header :
    (type size : ℕ) (rest : List ℕ)
    → 0 < type
    → type < 8
    → size < 65821 + 2 ^ 24
    → read_header (size_bytes (type * 32) size ++ rest) ≡ (type, some (size, rest))
unfolding read_header read_size size_bytes
basic_header type size rest p t h = elim (Bool-cases (ltb size 29)) [
  | inl small ↦ let (a, b) = low_bits type size t (ground arith) in ground (arith, a, b, small)
  | inr big ↦
      let (a, b) = low_bits type 29 t (omega arith) in
      let (a', b') = low_bits type 30 t (omega arith) in
      let (a'', b'') = low_bits type 31 t (omega arith) in
      ground (arith, a, b, a', b', a'', b'', big)
]

extended_header :
    (type size : ℕ) (rest : List ℕ)
    → 8 ≤ type
    → type < 256
    → size < 29
    → read_header (bit_or 0 size ∷ (type - 7) % 256 ∷ rest) ≡ (type, some (size, rest))
unfolding read_header read_size
extended_header type size rest t u h =
    let (a, b) = low_bits 0 size (omega arith) (omega arith) in ground (arith, a, b)

swapped_header :
    (type size : ℕ) (rest : List ℕ)
    → 8 ≤ type
    → type < 256
    → 29 ≤ size
    → size < 285
    → read_header (bit_or 0 29 ∷ (size - 29) % 256 ∷ (type - 7) % 256 ∷ rest)
      ≡ (size - 29 + 7, some (29 + (type - 7), rest))
unfolding read_header read_size
swapped_header type size rest t u h k = ground arith

small_bytes : (size : ℕ) → size < 29 → size_bytes 0 size ≡ bit_or 0 size ∷ []
unfolding size_bytes
small_bytes size h = ground arith

added :
    (out : List ℕ) (type size : ℕ)
    → encode_ctrl_and_size out type size ≡ out ++ encode_ctrl_and_size [] type size
unfolding encode_ctrl_and_size
added out type size = elim (Bool-cases (ltb type 8)) [
  | inl basic ↦ rw basic refl
  | inr extended ↦ rw extended (append_assoc out (size_bytes (ctrl_type type) size) _)
]

-- For a type of 1 to 7 and a size the format can express, or a type of 8 to 255 and a size of less
-- than 29, what is added to the output is read back, with anything behind it, as that type and size.
pub encode_ctrl_and_size_lem :
    (out rest : List ℕ) (type size : ℕ)
    → 0 < type
    → type < 256
    → size < (if ltb type 8 then 65821 + 2 ^ 24 else 29)
    → (encode_ctrl_and_size out type size ≡ out ++ encode_ctrl_and_size [] type size)
      × (read_header (encode_ctrl_and_size [] type size ++ rest) ≡ (type, some (size, rest)))
unfolding encode_ctrl_and_size ctrl_type
encode_ctrl_and_size_lem out rest type size p t h = (
  added out type size,
  elim (Bool-cases (ltb type 8)) [
    | inl basic ↦
        let shifted : type * 32 % 256 ≡ type * 32 = ground (arith, basic) in
        rw (basic, shifted)
          (basic_header type size rest p (ground (arith, basic)) (ground (arith, basic, h)))
    | inr extended ↦ rw extended (ext extended)
  ],
)
  where
    ext :
        ltb type 8 ≡ false
        → read_header ((size_bytes 0 size ++ ((type - 7) % 256 ∷ [])) ++ rest)
          ≡ (type, some (size, rest))
    ext e =
        rw (small_bytes size (ground (arith, e, h)))
          (extended_header type size rest (ground (arith, e)) t (ground (arith, e, h)))

-- For a type of 8 to 255 and a size of 29 to 284 the byte of the size comes before the byte of the type,
-- and a reader of the format takes each for the other.
pub encode_ctrl_and_size-swapped :
    (rest : List ℕ) (type size : ℕ)
    → 8 ≤ type
    → type < 256
    → 29 ≤ size
    → size < 285
    → read_header (encode_ctrl_and_size [] type size ++ rest)
      ≡ (size - 29 + 7, some (29 + (type - 7), rest))
unfolding encode_ctrl_and_size ctrl_type size_bytes
encode_ctrl_and_size-swapped rest type size t u h k =
    let extended : ltb type 8 ≡ false = ground (arith) in
    let big : ltb size 29 ≡ false = ground (arith) in
    let one : ltb size 285 ≡ true = ground (arith) in
    rw (extended, big, one) (swapped_header type size rest t u h k)
