-- ===== src/Builder/Values.antt =====
-- src/mmdb_builder/builder.cpp: the encoders of numbers, and the branches of `serialize_data` for a value
-- that holds no other. A double or a float is the word of its bits, what `memcpy` copies.
use haproxy_spoa_firehol_mmd.Prelude.{
  ℕ, zero, suc, ◌+◌, ◌*◌, ◌/◌, ◌%◌, ◌^◌, ◌<◌, ◌≤◌, ◌≡◌, Bool, List, [], ◌∷◌, ◌++◌, ltb, ◌==◌, arith,
  if◌then◌else◌, Bool-cases, inl, inr,
}
use haproxy_spoa_firehol_mmd.Prelude.Lists.{length}
use haproxy_spoa_firehol_mmd.Prelude.Int.{ℤ, to_u64}
use haproxy_spoa_firehol_mmd.Builder.{encode_ctrl_and_size}

-- `while (val > 0)`, on fuel.
unfoldable pub push_bytes : ℕ → ℕ → List ℕ
push_bytes zero val = []
push_bytes (suc fuel) val =
    let rest = push_bytes fuel (val / 256) in if ltb 0 val then val % 256 ∷ rest else []

-- `rbegin` to `rend`, in front of `out`.
unfoldable pub backwards : List ℕ → List ℕ → List ℕ
backwards [] out = out
backwards (b ∷ bs) out = backwards bs (b ∷ out)

-- Eight rounds are enough for a uint64_t.
unfoldable pub encode_uint : List ℕ → ℕ → ℕ → List ℕ
encode_uint out type val =
    if val == 0
    then encode_ctrl_and_size out type 0
    else let bytes = push_bytes 8 val in
      encode_ctrl_and_size out type (length bytes) ++ backwards bytes []

-- The bytes of a word of `n` bytes, the highest first.
unfoldable pub word_bytes : ℕ → ℕ → List ℕ
word_bytes zero v = []
word_bytes (suc n) v = v / 256 ^ n % 256 ∷ word_bytes n v

unfoldable pub encode_int : List ℕ → ℤ → List ℕ
encode_int out val = encode_ctrl_and_size out 8 4 ++ word_bytes 4 (to_u64 val)

-- The alternatives of the variant that hold no other value.
pub data Scalar : Type 0 where
  monostate : Scalar
  string_view : List ℕ → Scalar
  bytes : List ℕ → Scalar
  uint16 : ℕ → Scalar
  uint32 : ℕ → Scalar
  uint64 : ℕ → Scalar
  int32 : ℤ → Scalar
  boolean : Bool → Scalar
  double : ℕ → Scalar
  float : ℕ → Scalar

unfoldable pub serialize_scalar : Scalar → List ℕ → List ℕ
serialize_scalar monostate out = out
serialize_scalar (string_view arg) out = encode_ctrl_and_size out 2 (length arg % 2 ^ 32) ++ arg
serialize_scalar (bytes arg) out = encode_ctrl_and_size out 4 (length arg % 2 ^ 32) ++ arg
serialize_scalar (uint16 arg) out = encode_uint out 5 arg
serialize_scalar (uint32 arg) out = encode_uint out 6 arg
serialize_scalar (uint64 arg) out = encode_uint out 9 arg
serialize_scalar (int32 arg) out = encode_int out arg
serialize_scalar (boolean arg) out = encode_ctrl_and_size out 14 (if arg then 1 else 0)
serialize_scalar (double v) out = encode_ctrl_and_size out 3 8 ++ word_bytes 8 v
serialize_scalar (float v) out = encode_ctrl_and_size out 15 4 ++ word_bytes 4 v

-- The value of bytes, the lowest first.
unfoldable little : List ℕ → ℕ
little [] = 0
little (b ∷ bs) = b + 256 * little bs

-- The bytes that are pushed for a number that as many bytes can hold are its digits, and no more of them.
push_bytes_lem :
    (fuel val : ℕ)
    → val < 256 ^ fuel
    → (little (push_bytes fuel val) ≡ val) × (length (push_bytes fuel val) ≤ fuel)
unfolding push_bytes little
push_bytes_lem zero val h = ground arith
push_bytes_lem (suc fuel) val h =
    let (value, size) = push_bytes_lem fuel (val / 256) (omega arith) in
    elim (Bool-cases (ltb 0 val)) [
      | inl more ↦ rw more (omega (arith, value), omega (arith, size))
      | inr done ↦ rw done (ground (arith, done), omega arith)
    ]
