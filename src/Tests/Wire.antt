-- ===== src/Tests/Wire.antt =====
-- The varint, the typed values, texts and addresses.
use haproxy_spoa_firehol_mmd.Prelude.{
  ◌+◌, ◌≡◌, refl, [], ◌∷◌, ◌++◌, none, some, arith, leb, if◌then◌else◌,
}
use haproxy_spoa_firehol_mmd.Prelude.Lists.{length}
use haproxy_spoa_firehol_mmd.Prelude.Text.{ascii}
use haproxy_spoa_firehol_mmd.Prelude.Bytes.{IsU64}
use haproxy_spoa_firehol_mmd.Prelude.Int.{negsuc}
use haproxy_spoa_firehol_mmd.Prelude.Result.{ok, err, buffer_too_small}
use haproxy_spoa_firehol_mmd.Spoa.Varint.{decode, decode_loop, encoded_size, encode_to_vec}
use haproxy_spoa_firehol_mmd.Spoa.Varint.RoundTrip.{decode-encode_to_vec, decode_canonical}
use haproxy_spoa_firehol_mmd.Spoa.Reader.{Reader, rest}
use haproxy_spoa_firehol_mmd.Spoa.Reader.Reads.{advance}
use haproxy_spoa_firehol_mmd.Spoa.Writer.{BufferWriter}
use haproxy_spoa_firehol_mmd.Spoa.Writer.Writes.{appended}
use haproxy_spoa_firehol_mmd.Spoa.TypedData
use haproxy_spoa_firehol_mmd.Spoa.TypedData.Wire.{wire}
use haproxy_spoa_firehol_mmd.Spoa.TypedData.Encode.{encode-wire}
use haproxy_spoa_firehol_mmd.Spoa.TypedData.Decode.{decode-wire}
use haproxy_spoa_firehol_mmd.Utils.Ipv4.{
  parse_ipv4, read_octet, read_digits, skip_dot, at_end, is_digit,
}

-- The protocol's own example: two bytes from 240 on.
decode_two_bytes : decode (244 ∷ 3 ∷ 9 ∷ []) ≡ some (record { value = 292; consumed = 2 })
unfolding decode decode_loop
decode_two_bytes = refl

decode_truncated : decode (255 ∷ 128 ∷ []) ≡ none
unfolding decode decode_loop
decode_truncated = refl

decode-encode_to_vec_example :
    decode (encode_to_vec [] 1000 ++ (5 ∷ []))
    ≡ some (record { value = 1000; consumed = encoded_size 1000 })
decode-encode_to_vec_example = decode-encode_to_vec 1000 (5 ∷ []) (omega arith)

decode_canonical_example :
    IsU64 292 × ((244 ∷ 3 ∷ 9 ∷ []) ≡ encode_to_vec [] 292 ++ (9 ∷ [])) × (2 ≡ encoded_size 292)
decode_canonical_example =
    decode_canonical (244 ∷ 3 ∷ 9 ∷ []) (record { value = 292; consumed = 2 }) (omega arith)
      decode_two_bytes

abbrev minus_one : TypedData.TypedData
minus_one = TypedData.int32 (negsuc 0)

abbrev room : BufferWriter
room = record { buffer = 0 ∷ 0 ∷ []; pos = 1 }

encode-wire_example : TypedData.encode minus_one room ≡ (
    if leb (1 + length (wire minus_one)) 2
    then ok (appended room (wire minus_one))
    else err buffer_too_small)
encode-wire_example = encode-wire minus_one room (omega arith) (omega arith)

abbrev at_minus_one : Reader
at_minus_one = record { buf = wire minus_one ++ (8 ∷ []); pos = 0 }

decode-wire_example :
    TypedData.decode at_minus_one ≡ ok (minus_one, advance at_minus_one (length (wire minus_one)))
decode-wire_example =
    decode-wire minus_one at_minus_one (8 ∷ []) (omega arith) (unfold rest in refl)

accepted : parse_ipv4 (ascii "10.0.0.255") ≡ some (10 ∷ 0 ∷ 0 ∷ 255 ∷ [])
unfolding parse_ipv4 read_octet read_digits skip_dot at_end is_digit
accepted = refl
