-- ===== src/Spoa/TypedData/Encode.antt =====
-- Both encoders write the wire form, whose length is what `encoded_size` announces.
use Prim.Native.Nat.{bit_or}
use haproxy_spoa_firehol_mmd.Prelude.{
  ℕ, ◌+◌, ◌≤◌, leb, if◌then◌else◌, ◌≡◌, refl, ◌∙◌, true, false, List, ◌++◌, arith,
}
use haproxy_spoa_firehol_mmd.Prelude.Lists.{length, replicate, length-replicate}
use haproxy_spoa_firehol_mmd.Prelude.Int.{to_u64, to_u64-lt}
use haproxy_spoa_firehol_mmd.Prelude.Result.{ok, err, buffer_too_small}
use haproxy_spoa_firehol_mmd.Spoa.Varint.Encode.{encoded_size-length}
use haproxy_spoa_firehol_mmd.Spoa.Writer.{BufferWriter}
use haproxy_spoa_firehol_mmd.Spoa.Writer.Writes.{
  appended, Writes, Writes-done, Writes-then, Writes-byte, Writes-bytes, Writes-varint,
  Writes-string, Writes-length-prefixed, Writes-fill, length_prefixed_size-length,
}
use haproxy_spoa_firehol_mmd.Spoa.TypedData.{
  TypedData, null, boolean, int32, uint32, int64, uint64, ipv4, ipv6, string, binary, type_of,
  type_code, boolean_flag, encoded_size, write_payload, encode, encode_to_vec,
}
use haproxy_spoa_firehol_mmd.Spoa.TypedData.Wire.{IsValid, header, payload, wire}

header_lem : (v : TypedData) → bit_or (type_code (type_of v)) (boolean_flag v) ≡ header v
unfolding type_code type_of boolean_flag header
header_lem null = refl
header_lem (boolean true) = refl
header_lem (boolean false) = refl
header_lem (int32 z) = refl
header_lem (uint32 n) = refl
header_lem (int64 z) = refl
header_lem (uint64 n) = refl
header_lem (ipv4 o) = refl
header_lem (ipv6 o) = refl
header_lem (string s) = refl
header_lem (binary s) = refl

write_payload-Writes : (v : TypedData) → IsValid v → Writes (write_payload v) (payload v)
unfolding write_payload payload
write_payload-Writes null h = Writes-done
write_payload-Writes (boolean b) h = Writes-done
write_payload-Writes (int32 z) h = Writes-varint (to_u64 z) (to_u64-lt z)
write_payload-Writes (uint32 n) h = Writes-varint n (omega arith)
write_payload-Writes (int64 z) h = Writes-varint (to_u64 z) (to_u64-lt z)
write_payload-Writes (uint64 n) h = Writes-varint n h
write_payload-Writes (ipv4 o) h = Writes-bytes o
write_payload-Writes (ipv6 o) h = Writes-bytes o
write_payload-Writes (string s) h = Writes-string s h
write_payload-Writes (binary s) h = Writes-length-prefixed s h

-- A valid value is written in its wire form, or refused where that does not fit the span.
pub encode-Writes : (v : TypedData) → IsValid v → Writes (encode v) (wire v)
unfolding encode
encode-Writes v h =
    rw (header_lem v) (Writes-then (Writes-byte (header v)) (write_payload-Writes v h))

-- Into a writer that has room for the wire form of a valid value, `encode` writes it and moves behind
-- it; a writer that has not throws.
pub encode-wire :
    (v : TypedData) (w : BufferWriter)
    → IsValid v
    → w.pos ≤ length w.buffer
    → encode v w ≡ (
        if leb (w.pos + length (wire v)) (length w.buffer)
        then ok (appended w (wire v))
        else err buffer_too_small)
encode-wire v w h inside = (encode-Writes v h).run w inside

pub encoded_size-length-wire : (v : TypedData) → IsValid v → encoded_size v ≡ length (wire v)
unfolding encoded_size payload
encoded_size-length-wire null h = refl
encoded_size-length-wire (boolean b) h = refl
encoded_size-length-wire (int32 z) h = omega (arith, encoded_size-length (to_u64 z) (to_u64-lt z))
encoded_size-length-wire (uint32 n) h = omega (arith, encoded_size-length n (omega arith))
encoded_size-length-wire (int64 z) h = omega (arith, encoded_size-length (to_u64 z) (to_u64-lt z))
encoded_size-length-wire (uint64 n) h = omega (arith, encoded_size-length n h)
encoded_size-length-wire (ipv4 o) h = omega arith
encoded_size-length-wire (ipv6 o) h = omega arith
encoded_size-length-wire (string s) h = omega (arith, length_prefixed_size-length s h)
encoded_size-length-wire (binary s) h = omega (arith, length_prefixed_size-length s h)

-- The vector encoder never throws on a valid value, and appends the wire form.
pub encode_to_vec-wire :
    (v : TypedData) (out : List ℕ) → IsValid v → encode_to_vec v out ≡ ok (out ++ wire v)
unfolding encode_to_vec
encode_to_vec-wire v out h =
    let zeros : List ℕ = replicate (encoded_size v) 0 in
    rw (
      Writes-fill zeros (encode-Writes v h)
          (length-replicate (encoded_size v) 0 ∙ encoded_size-length-wire v h),
      encode_to_vec,
    )
