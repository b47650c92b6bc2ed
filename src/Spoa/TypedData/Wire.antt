-- ===== src/Spoa/TypedData/Wire.antt =====
-- The wire form of a typed value, in plain arithmetic, and the values that a TypedData can hold.
use haproxy_spoa_firehol_mmd.Prelude.{ℕ, ◌≡◌, true, List, [], ◌∷◌}
use haproxy_spoa_firehol_mmd.Prelude.Lists.{length}
use haproxy_spoa_firehol_mmd.Prelude.Int.{IsSigned, to_u64}
use haproxy_spoa_firehol_mmd.Prelude.Bytes.{IsU32, IsU64}
use haproxy_spoa_firehol_mmd.Spoa.Varint.Encoding.{encoding}
use haproxy_spoa_firehol_mmd.Spoa.Reader.Reads.{prefixed}
use haproxy_spoa_firehol_mmd.Spoa.TypedData.{
  TypedData, null, boolean, int32, uint32, int64, uint64, ipv4, ipv6, string, binary, type_of,
  type_code,
}

-- The ranges of the C++ members.
abbrev pub IsValid : TypedData → Type 0
IsValid null = Unit
IsValid (boolean b) = Unit
IsValid (int32 z) = IsSigned 31 z
IsValid (uint32 n) = IsU32 n
IsValid (int64 z) = IsSigned 63 z
IsValid (uint64 n) = IsU64 n
IsValid (ipv4 o) = length o ≡ 4
IsValid (ipv6 o) = length o ≡ 16
IsValid (string s) = IsU64 (length s)
IsValid (binary s) = IsU64 (length s)

unfoldable pub header : TypedData → ℕ
header (boolean true) = 17
header v = type_code (type_of v)

unfoldable pub payload : TypedData → List ℕ
payload null = []
payload (boolean b) = []
payload (int32 z) = encoding (to_u64 z)
payload (uint32 n) = encoding n
payload (int64 z) = encoding (to_u64 z)
payload (uint64 n) = encoding n
payload (ipv4 o) = o
payload (ipv6 o) = o
payload (string s) = prefixed s
payload (binary s) = prefixed s

abbrev pub wire : TypedData → List ℕ
wire v = header v ∷ payload v
