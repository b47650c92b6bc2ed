-- ===== src/Spoa/Writer.antt =====
-- The BufferWriter of src/spoa/protocol_io.h: writes into a span of fixed size, and the free functions
-- beside it. A write returns the writer after it, or throws.
pub mod Words
pub mod Writes
use haproxy_spoa_firehol_mmd.Prelude.{
  ℕ, ◌+◌, ◌-◌, ◌*◌, ◌/◌, ◌%◌, ◌^◌, List, [], ◌∷◌, ◌++◌, ltb, leb, if◌then◌else◌,
}
use haproxy_spoa_firehol_mmd.Prelude.Lists.{length, set, take, overwrite, replicate}
use haproxy_spoa_firehol_mmd.Prelude.Result.{Error, buffer_too_small, Result, ok, err, ◌>>=◌}
use haproxy_spoa_firehol_mmd.Spoa.Varint.{encoded_size, encode_unsafe, encode_to_vec}

unfoldable pub length_prefixed_size : ℕ → ℕ
length_prefixed_size len = encoded_size len + len

-- The vector grows by zeros, which the `memcpy` overwrites.
unfoldable pub append_length_prefixed : List ℕ → List ℕ → List ℕ
append_length_prefixed out bytes =
    let prefix = encode_to_vec out (length bytes) in
    overwrite (prefix ++ replicate (length bytes) 0) (length prefix) bytes

pub record BufferWriter : Type 0 where
  pub buffer : List ℕ
  pub pos : ℕ

abbrev pub Write : Type 0
Write = BufferWriter → Result BufferWriter

-- One write after the other.
infixl 5 ◌>>◌
abbrev pub ◌>>◌ : Write → Write → Write
◌>>◌ f g w = f w >>= g

abbrev pub done : Write
done w = ok w

unfoldable pub remaining : BufferWriter → ℕ
remaining w = length w.buffer - w.pos

unfoldable pub written_span : BufferWriter → List ℕ
written_span w = take w.pos w.buffer

unfoldable pub write_byte : ℕ → Write
write_byte b w =
    if leb (length w.buffer) w.pos
    then err buffer_too_small
    else ok (record w { buffer = set w.buffer w.pos b; pos = w.pos + 1 })

unfoldable pub write_bytes : List ℕ → Write
unfolding remaining
write_bytes src w =
    if ltb (remaining w) (length src)
    then err buffer_too_small
    else ok (record w { buffer = overwrite w.buffer w.pos src; pos = w.pos + length src })

unfoldable pub write_varint : ℕ → Write
unfolding remaining
write_varint n w =
    let needed = encoded_size n in
    if ltb (remaining w) needed
    then err buffer_too_small
    else ok (record w { buffer = (encode_unsafe w.buffer w.pos n).0; pos = w.pos + needed })

unfoldable pub write_length_prefixed : List ℕ → Write
write_length_prefixed bytes = write_varint (length bytes) >> write_bytes bytes

unfoldable pub write_string : List ℕ → Write
write_string = write_length_prefixed

-- The byte order of the host, `std::endian::native`.
pub data Endian : Type 0 where
  little big : Endian

-- The bytes of a uint32_t in memory.
unfoldable pub memory_u32 : Endian → ℕ → List ℕ
memory_u32 little v = v % 256 ∷ (v / 2 ^ 8 % 256) ∷ (v / 2 ^ 16 % 256) ∷ (v / 2 ^ 24 % 256) ∷ []
memory_u32 big v = (v / 2 ^ 24 % 256) ∷ (v / 2 ^ 16 % 256) ∷ (v / 2 ^ 8 % 256) ∷ (v % 256) ∷ []

unfoldable pub bswap32 : ℕ → ℕ
bswap32 v =
    v % 256 * 2 ^ 24 + v / 2 ^ 8 % 256 * 2 ^ 16 + v / 2 ^ 16 % 256 * 2 ^ 8 + v / 2 ^ 24 % 256

-- `native == big ? val : __builtin_bswap32(val)`
unfoldable pub to_be : Endian → ℕ → ℕ
to_be little v = bswap32 v
to_be big v = v

unfoldable pub write_u32_be : Endian → ℕ → Write
unfolding remaining
write_u32_be e v w =
    if ltb (remaining w) 4
    then err buffer_too_small
    else ok
        (record w { buffer = overwrite w.buffer w.pos (memory_u32 e (to_be e v)); pos = w.pos + 4 })
