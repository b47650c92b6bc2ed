-- ===== src/Spoa/Reader.antt =====
-- The Reader of src/spoa/protocol_io.h: bounds-checked reads from a receive buffer. A read takes the
-- reader and returns its value with the moved reader, or throws. Views into the buffer are their
-- bytes.
pub mod Reads
pub mod Bounds
use haproxy_spoa_firehol_mmd.Prelude.{
  ℕ, ◌+◌, ◌-◌, ◌==◌, Bool, List, [], ◌∷◌, none, some, ltb, if◌then◌else◌,
}
use haproxy_spoa_firehol_mmd.Prelude.Lists.{length, take, drop}
use haproxy_spoa_firehol_mmd.Prelude.Result.{Error, buffer_too_small, bad_varint, Result, ok, err}
use haproxy_spoa_firehol_mmd.Spoa.Varint.{Decoded, decode}

-- `buf` is the field `data_`.
pub record Reader : Type 0 where
  pub buf : List ℕ
  pub pos : ℕ

abbrev pub Read {ℓ} : Type ℓ → Type ℓ
Read A = Reader → Result (A × Reader)

module _ {ℓ κ} {A : Type ℓ} {B : Type κ} where
  infixl 5 ◌>>=◌ ◌>>◌
  abbrev pub ◌>>=◌ : Read A → (A → Read B) → Read B
  ◌>>=◌ p f r = elim (p r) [ ok (a, r') ↦ f a r' | err e ↦ err e ]

  abbrev pub ◌>>◌ : Read A → Read B → Read B
  p >> q = p >>= λ _. q

module _ {ℓ} {A : Type ℓ} where
  abbrev pub pure : A → Read A
  pure a r = ok (a, r)

  -- `throw e;`
  abbrev pub throw : Error → Read A
  throw e r = err e

unfoldable pub remaining : Reader → ℕ
remaining r = length r.buf - r.pos

unfoldable pub is_empty : Reader → Bool
unfolding remaining
is_empty r = remaining r == 0

unfoldable pub rest : Reader → List ℕ
rest r = drop r.pos r.buf

unfoldable pub read_bytes : ℕ → Read (List ℕ)
unfolding remaining
read_bytes count r =
    if ltb (remaining r) count
    then err buffer_too_small
    else ok (take count (drop r.pos r.buf), record r { pos = r.pos + count })

-- `bytes[0]`, for the one byte that the caller has read.
abbrev pub first : List ℕ → ℕ
first [] = 0
first (b ∷ bs) = b

unfoldable pub read_byte : Read ℕ
read_byte = do bytes ← read_bytes 1; pure (first bytes)

unfoldable pub read_varint : Read ℕ
unfolding rest
read_varint r = elim (decode (rest r)) [
  | none ↦ err bad_varint
  | some d ↦ ok (d.value, record r { pos = r.pos + d.consumed })
]

-- `if (length > remaining()) throw e; return read_bytes(length);`
unfoldable pub read_checked : ℕ → Read (List ℕ)
unfolding remaining
read_checked len r = if ltb (remaining r) len then err buffer_too_small else read_bytes len r

unfoldable pub read_length_prefixed : Read (List ℕ)
read_length_prefixed = do len ← read_varint; read_checked len

unfoldable pub read_string : Read (List ℕ)
read_string = read_length_prefixed
