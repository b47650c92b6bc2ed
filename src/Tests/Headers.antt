-- ===== src/Tests/Headers.antt =====
-- Headers and pointers of the database's data section.
use haproxy_spoa_firehol_mmd.Prelude.{◌+◌, ◌-◌, ◌++◌, ◌≡◌, refl, [], ◌∷◌, some, arith}
use haproxy_spoa_firehol_mmd.Builder.{
  encode_ctrl_and_size, encode_pointer, size_bytes, pointer_bytes, ctrl_type,
}
use haproxy_spoa_firehol_mmd.Prelude.{true}
use haproxy_spoa_firehol_mmd.Prelude.Int.{negsuc, to_u64}
use haproxy_spoa_firehol_mmd.Builder.Values.{
  Scalar, serialize_scalar, encode_uint, encode_int, push_bytes, backwards, word_bytes,
}
use haproxy_spoa_firehol_mmd.Builder.Headers.{
  read_header, read_pointer, encode_pointer_lem, encode_ctrl_and_size_lem,
  encode_ctrl_and_size-swapped,
}

-- An array of 29 elements: the byte of its size, then that of its type.
array_of_29 : encode_ctrl_and_size [] 11 29 ≡ 29 ∷ 0 ∷ 4 ∷ []
unfolding encode_ctrl_and_size size_bytes ctrl_type
array_of_29 = refl

pointer_of_2048 : encode_pointer [] 2048 ≡ 0x28 ∷ 0 ∷ 0 ∷ []
unfolding encode_pointer pointer_bytes
pointer_of_2048 = refl

encode_pointer_lem_example :
    (encode_pointer (1 ∷ []) 600000 ≡ 1 ∷ [] ++ encode_pointer [] 600000)
    × (read_pointer (encode_pointer [] 600000 ++ 7 ∷ []) ≡ some (600000, 7 ∷ []))
encode_pointer_lem_example = encode_pointer_lem (1 ∷ []) (7 ∷ []) 600000 (omega arith)

encode_ctrl_and_size_lem_example :
    (encode_ctrl_and_size (1 ∷ []) 7 300 ≡ 1 ∷ [] ++ encode_ctrl_and_size [] 7 300)
    × (read_header (encode_ctrl_and_size [] 7 300 ++ 7 ∷ []) ≡ (7, some (300, 7 ∷ [])))
encode_ctrl_and_size_lem_example =
    encode_ctrl_and_size_lem (1 ∷ []) (7 ∷ []) 7 300 (omega arith) (omega arith) (omega arith)

encode_ctrl_and_size-swapped_example :
    read_header (encode_ctrl_and_size [] 11 29 ++ 7 ∷ [])
    ≡ (29 - 29 + 7, some (29 + (11 - 7), 7 ∷ []))
encode_ctrl_and_size-swapped_example =
    encode_ctrl_and_size-swapped (7 ∷ []) 11 29 (omega arith) (omega arith) (omega arith)
      (omega arith)

scalars_written :
    (serialize_scalar (Scalar.uint32 300) [] ≡ 0xC2 ∷ 1 ∷ 44 ∷ [])
    × (serialize_scalar (Scalar.boolean true) [] ≡ 1 ∷ 7 ∷ [])
    × (serialize_scalar (Scalar.int32 (negsuc 1)) [] ≡ 4 ∷ 1 ∷ 255 ∷ 255 ∷ 255 ∷ 254 ∷ [])
unfolding serialize_scalar encode_uint encode_int push_bytes backwards word_bytes
    encode_ctrl_and_size size_bytes ctrl_type to_u64
scalars_written = (refl, refl, refl)
