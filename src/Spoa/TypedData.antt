-- ===== src/Spoa/TypedData.antt =====
-- src/spoa/typed_data.h and typed_data.cpp: the typed values of the protocol. The tagged union is a data
-- type with a constructor for each type; strings, binaries and addresses are their bytes.
pub mod Wire
pub mod Encode
pub mod Decode
use Prim.Native.Nat.{bit_and, bit_or}
use Prim.Native.String.{String}
use haproxy_spoa_firehol_mmd.Prelude.{
  ℕ, ◌+◌, ◌%◌, ◌^◌, ◌==◌, Bool, true, false, not, List, [], ◌∷◌, ◌++◌, Option, none, some,
  if◌then◌else◌,
}
use haproxy_spoa_firehol_mmd.Prelude.Lists.{length, drop, replicate}
use haproxy_spoa_firehol_mmd.Prelude.Int.{ℤ, to_u64, to_i32, to_i64}
use haproxy_spoa_firehol_mmd.Prelude.Result.{Error, unknown_type, Result, ok, err}
use haproxy_spoa_firehol_mmd.Spoa.Varint
use haproxy_spoa_firehol_mmd.Spoa.Reader.{
  Reader, Read, ◌>>=◌, ◌>>◌, pure, throw, read_bytes, read_byte, read_varint, read_length_prefixed,
  read_string,
}
use haproxy_spoa_firehol_mmd.Spoa.Writer
use haproxy_spoa_firehol_mmd.Spoa.Writer.{
  BufferWriter, Write, done, write_byte, write_bytes, write_varint, write_length_prefixed,
  write_string, length_prefixed_size,
}

pub data TypedType : Type 0 where
  null boolean int32 uint32 int64 uint64 ipv4 ipv6 string binary : TypedType

pub data TypedData : Type 0 where
  null : TypedData
  boolean : Bool → TypedData
  int32 : ℤ → TypedData
  uint32 : ℕ → TypedData
  int64 : ℤ → TypedData
  uint64 : ℕ → TypedData
  ipv4 ipv6 string binary : List ℕ → TypedData

unfoldable pub type_of : TypedData → TypedType
type_of null = TypedType.null
type_of (boolean b) = TypedType.boolean
type_of (int32 z) = TypedType.int32
type_of (uint32 n) = TypedType.uint32
type_of (int64 z) = TypedType.int64
type_of (uint64 n) = TypedType.uint64
type_of (ipv4 o) = TypedType.ipv4
type_of (ipv6 o) = TypedType.ipv6
type_of (string s) = TypedType.string
type_of (binary s) = TypedType.binary

-- `static_cast<uint8_t>(type)`
unfoldable pub type_code : TypedType → ℕ
type_code TypedType.null = 0
type_code TypedType.boolean = 1
type_code TypedType.int32 = 2
type_code TypedType.uint32 = 3
type_code TypedType.int64 = 4
type_code TypedType.uint64 = 5
type_code TypedType.ipv4 = 6
type_code TypedType.ipv6 = 7
type_code TypedType.string = 8
type_code TypedType.binary = 9

-- `static_cast<TypedType>(code)`; `none` is a value that is no enumerator.
unfoldable pub typed_type : ℕ → Option TypedType
typed_type c =
    if c == 0
    then some TypedType.null
    else if c == 1
    then some TypedType.boolean
    else if c == 2
    then some TypedType.int32
    else if c == 3
    then some TypedType.uint32
    else if c == 4
    then some TypedType.int64
    else if c == 5
    then some TypedType.uint64
    else if c == 6
    then some TypedType.ipv4
    else if c == 7
    then some TypedType.ipv6
    else if c == 8
    then some TypedType.string
    else if c == 9
    then some TypedType.binary
    else none

unfoldable pub typed_type_name : TypedType → String
typed_type_name TypedType.null = "Null"
typed_type_name TypedType.boolean = "Boolean"
typed_type_name TypedType.int32 = "Int32"
typed_type_name TypedType.uint32 = "UInt32"
typed_type_name TypedType.int64 = "Int64"
typed_type_name TypedType.uint64 = "UInt64"
typed_type_name TypedType.ipv4 = "IPv4"
typed_type_name TypedType.ipv6 = "IPv6"
typed_type_name TypedType.string = "String"
typed_type_name TypedType.binary = "Binary"

-- The size of the arrays of an address is that of their type, whatever the list.
unfoldable pub encoded_size : TypedData → ℕ
encoded_size null = 1
encoded_size (boolean b) = 1
encoded_size (int32 z) = 1 + Varint.encoded_size (to_u64 z)
encoded_size (uint32 n) = 1 + Varint.encoded_size n
encoded_size (int64 z) = 1 + Varint.encoded_size (to_u64 z)
encoded_size (uint64 n) = 1 + Varint.encoded_size n
encoded_size (ipv4 o) = 1 + 4
encoded_size (ipv6 o) = 1 + 16
encoded_size (string s) = 1 + length_prefixed_size (length s)
encoded_size (binary s) = 1 + length_prefixed_size (length s)

-- `type == TypedType::Boolean && boolean ? 0x10 : 0`
unfoldable pub boolean_flag : TypedData → ℕ
boolean_flag (boolean true) = 0x10
boolean_flag _ = 0

unfoldable pub write_payload : TypedData → Write
write_payload null = done
write_payload (boolean b) = done
write_payload (int32 z) = write_varint (to_u64 z)
write_payload (uint32 n) = write_varint n
write_payload (int64 z) = write_varint (to_u64 z)
write_payload (uint64 n) = write_varint n
write_payload (ipv4 o) = write_bytes o
write_payload (ipv6 o) = write_bytes o
write_payload (string s) = write_string s
write_payload (binary s) = write_length_prefixed s

-- `encode(BufferWriter &)`
unfoldable pub encode : TypedData → Write
encode v =
    Writer.◌>>◌ (write_byte (bit_or (type_code (type_of v)) (boolean_flag v))) (write_payload v)

-- `encode(std::vector<uint8_t> &)`: the vector grows once, and the writer fills what was added.
unfoldable pub encode_to_vec : TypedData → List ℕ → Result (List ℕ)
encode_to_vec v out =
    let span : BufferWriter = record { buffer = replicate (encoded_size v) 0; pos = 0 } in
    elim (encode v span) [ ok w ↦ ok (out ++ w.buffer) | err e ↦ err e ]

-- `read_array<N>`
unfoldable pub read_array : ℕ → Read (List ℕ)
read_array n = read_bytes n

unfoldable pub read_payload : ℕ → Option TypedType → Read TypedData
read_payload header none = throw (unknown_type (bit_and header 0x0F))
read_payload header (some TypedType.null) = pure null
read_payload header (some TypedType.boolean) = pure (boolean (not (bit_and header 0x10 == 0)))
read_payload header (some TypedType.int32) = do v ← read_varint; pure (int32 (to_i32 v))
read_payload header (some TypedType.uint32) = do v ← read_varint; pure (uint32 (v % 2 ^ 32))
read_payload header (some TypedType.int64) = do v ← read_varint; pure (int64 (to_i64 v))
read_payload header (some TypedType.uint64) = do v ← read_varint; pure (uint64 v)
read_payload header (some TypedType.ipv4) = do o ← read_array 4; pure (ipv4 o)
read_payload header (some TypedType.ipv6) = do o ← read_array 16; pure (ipv6 o)
read_payload header (some TypedType.string) = do s ← read_string; pure (string s)
read_payload header (some TypedType.binary) = do s ← read_length_prefixed; pure (binary s)

-- `decode(Reader &)`
unfoldable pub decode : Read TypedData
decode = do header ← read_byte; read_payload header (typed_type (bit_and header 0x0F))

-- `decode(std::span)`
unfoldable pub decode_span : List ℕ → Result (TypedData × ℕ)
decode_span bytes = elim (decode (record { buf = bytes; pos = 0 })) [
  | ok (v, r) ↦ ok (v, r.pos)
  | err e ↦ err e
]
