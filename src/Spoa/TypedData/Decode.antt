-- ===== src/Spoa/TypedData/Decode.antt =====
-- `decode` reads back the wire form, stays in the buffer, and refuses the unknown types.
use Prim.Native.Nat.{bit_and}
use native.Mathlib.Nat.{mod-eq_of_lt}
use mathlib.Core.Path.{subst}
use haproxy_spoa_firehol_mmd.Prelude.{
  ◌++◌, ℕ, ◌%◌, ◌^◌, ◌≡◌, refl, ap, true, false, List, some, none, Option, arith,
}
use haproxy_spoa_firehol_mmd.Prelude.Result.{ok}
use haproxy_spoa_firehol_mmd.Prelude.Lists.{length}
use haproxy_spoa_firehol_mmd.Prelude.Int.{
  to_u64, to_u64-lt, to_i32, to_i64, to_i32-to_u64, to_i64-to_u64,
}
use haproxy_spoa_firehol_mmd.Spoa.Reader.{rest, Reader, Read, read_bytes}
use haproxy_spoa_firehol_mmd.Spoa.Reader.Reads.{
  advance, Reads, Reads-pure, Reads-bind, Reads-map, Reads-byte, Reads-bytes, Reads-varint,
  Reads-string, Reads-length-prefixed,
}
use haproxy_spoa_firehol_mmd.Spoa.Reader.Bounds.{
  Safe, Safe-pure, Safe-bind, Safe-weaken, Safe-bytes, Safe-byte, Safe-varint, Safe-string,
  Safe-length_prefixed,
}
use haproxy_spoa_firehol_mmd.Spoa.TypedData.{
  TypedType, TypedData, null, boolean, int32, uint32, int64, uint64, ipv4, ipv6, string, binary,
  type_of, type_code, typed_type, read_array, read_payload, decode,
}
use haproxy_spoa_firehol_mmd.Spoa.TypedData.Wire.{IsValid, header, payload, wire}

header_type : (v : TypedData) → typed_type (bit_and (header v) 0x0F) ≡ some (type_of v)
unfolding typed_type header type_code type_of
header_type null = refl
header_type (boolean true) = refl
header_type (boolean false) = refl
header_type (int32 z) = refl
header_type (uint32 n) = refl
header_type (int64 z) = refl
header_type (uint64 n) = refl
header_type (ipv4 o) = refl
header_type (ipv6 o) = refl
header_type (string s) = refl
header_type (binary s) = refl

-- A value that the code casts on the way in.
Reads-cast {ℓ} :
    {A : Type ℓ} {p : Read A} {w : List ℕ} {a : A} (b : A) → a ≡ b → Reads p w a → Reads p w b
Reads-cast {p} {w} b e h = subst (Reads p w) e h

Reads-array : (o : List ℕ) (n : ℕ) → length o ≡ n → Reads (read_array n) o o
unfolding read_array
Reads-array o n e = subst (λ k. Reads (read_bytes k) o o) e (Reads-bytes o)

read_payload-Reads :
    (v : TypedData) → IsValid v → Reads (read_payload (header v) (some (type_of v))) (payload v) v
unfolding read_payload payload type_of header type_code
read_payload-Reads null h = Reads-pure null
read_payload-Reads (boolean true) h = Reads-pure (boolean true)
read_payload-Reads (boolean false) h = Reads-pure (boolean false)
read_payload-Reads (int32 z) h =
    Reads-cast (int32 z) (ap int32 (to_i32-to_u64 z h))
      (Reads-map (λ v. int32 (to_i32 v)) (Reads-varint (to_u64 z) (to_u64-lt z)))
read_payload-Reads (uint32 n) h =
    Reads-cast (uint32 n) (ap uint32 (mod-eq_of_lt h))
      (Reads-map (λ v. uint32 (v % 2 ^ 32)) (Reads-varint n (omega arith)))
read_payload-Reads (int64 z) h =
    Reads-cast (int64 z) (ap int64 (to_i64-to_u64 z h))
      (Reads-map (λ v. int64 (to_i64 v)) (Reads-varint (to_u64 z) (to_u64-lt z)))
read_payload-Reads (uint64 n) h = Reads-map uint64 (Reads-varint n h)
read_payload-Reads (ipv4 o) h = Reads-map ipv4 (Reads-array o 4 h)
read_payload-Reads (ipv6 o) h = Reads-map ipv6 (Reads-array o 16 h)
read_payload-Reads (string s) h = Reads-map string (Reads-string s h)
read_payload-Reads (binary s) h = Reads-map binary (Reads-length-prefixed s h)

-- `decode` reads a valid value off the front of any input that begins with its wire form.
pub decode-Reads : (v : TypedData) → IsValid v → Reads decode (wire v) v
unfolding decode
decode-Reads v h =
    Reads-bind (λ b. read_payload b (typed_type (bit_and b 0x0F))) (Reads-byte (header v))
      (rw (header_type v) (read_payload-Reads v h))

-- Where the unread bytes begin with the wire form of a valid value, `decode` gives that value and moves
-- just behind it.
pub decode-wire :
    (v : TypedData) (r : Reader) (tail : List ℕ)
    → IsValid v
    → rest r ≡ wire v ++ tail
    → decode r ≡ ok (v, advance r (length (wire v)))
decode-wire v r tail h e = (decode-Reads v h).run r tail e

read_payload-Safe : (b : ℕ) (t : Option TypedType) → Safe 0 (read_payload b t)
unfolding read_payload read_array
read_payload-Safe b none = record { run = λ r h e. cc }
read_payload-Safe b (some TypedType.null) = Safe-pure _
read_payload-Safe b (some TypedType.boolean) = Safe-pure _
read_payload-Safe b (some TypedType.int32) =
    Safe-weaken 0 (omega arith) (Safe-bind _ Safe-varint (λ v. Safe-pure (int32 (to_i32 v))))
read_payload-Safe b (some TypedType.uint32) =
    Safe-weaken 0 (omega arith) (Safe-bind _ Safe-varint (λ v. Safe-pure (uint32 (v % 2 ^ 32))))
read_payload-Safe b (some TypedType.int64) =
    Safe-weaken 0 (omega arith) (Safe-bind _ Safe-varint (λ v. Safe-pure (int64 (to_i64 v))))
read_payload-Safe b (some TypedType.uint64) =
    Safe-weaken 0 (omega arith) (Safe-bind _ Safe-varint (λ v. Safe-pure (uint64 v)))
read_payload-Safe b (some TypedType.ipv4) =
    Safe-weaken 0 (omega arith) (Safe-bind _ (Safe-bytes 4) (λ o. Safe-pure (ipv4 o)))
read_payload-Safe b (some TypedType.ipv6) =
    Safe-weaken 0 (omega arith) (Safe-bind _ (Safe-bytes 16) (λ o. Safe-pure (ipv6 o)))
read_payload-Safe b (some TypedType.string) =
    Safe-weaken 0 (omega arith) (Safe-bind _ Safe-string (λ s. Safe-pure (string s)))
read_payload-Safe b (some TypedType.binary) =
    Safe-weaken 0 (omega arith) (Safe-bind _ Safe-length_prefixed (λ s. Safe-pure (binary s)))

pub decode-Safe : Safe 1 decode
unfolding decode
decode-Safe = Safe-bind _ Safe-byte (λ b. read_payload-Safe b (typed_type (bit_and b 0x0F)))
