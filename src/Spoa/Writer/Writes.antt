-- ===== src/Spoa/Writer/Writes.antt =====
-- What a write does: it appends the wire form of its value, or throws where that does not fit.
use haproxy_spoa_firehol_mmd.Prelude.{
  ℕ, ◌+◌, ◌≤◌, ◌<◌, ◌≡◌, ap, ◌∙◌, List, [], ◌∷◌, ◌++◌, append_assoc, arith, leb, if◌then◌else◌,
  Bool-cases, inl, inr, ◌⊎◌,
}
use haproxy_spoa_firehol_mmd.Prelude.Lists.{
  length, overwrite, replicate, length-append, length-overwrite, length-replicate, overwrite-append,
  overwrite_end,
}
use haproxy_spoa_firehol_mmd.Prelude.Bytes.{IsU32, IsU64}
use haproxy_spoa_firehol_mmd.Prelude.Result.{buffer_too_small, Result, ok, err}
use haproxy_spoa_firehol_mmd.Spoa.Varint.{encode_to_vec}
use haproxy_spoa_firehol_mmd.Spoa.Varint.Encoding.{encoding}
use haproxy_spoa_firehol_mmd.Spoa.Varint.Encode.{
  encoded_size-length, encode_unsafe-encoding, encode_to_vec-encoding,
}
use haproxy_spoa_firehol_mmd.Spoa.Reader.Reads.{prefixed}
use haproxy_spoa_firehol_mmd.Spoa.Writer.{
  length_prefixed_size, append_length_prefixed, BufferWriter, Write, ◌>>◌, done, write_byte,
  write_bytes, write_varint, write_length_prefixed, write_string, Endian, write_u32_be,
}
use haproxy_spoa_firehol_mmd.Spoa.Writer.Words.{be32, length-be32, memory_u32-to_be}

-- The writer after the bytes of `wire`.
abbrev pub appended : BufferWriter → List ℕ → BufferWriter
appended w wire = record w { buffer = overwrite w.buffer w.pos wire; pos = w.pos + length wire }

abbrev pub append_or_throw : BufferWriter → List ℕ → Result BufferWriter
append_or_throw w wire =
    if leb (w.pos + length wire) (length w.buffer)
    then ok (appended w wire)
    else err buffer_too_small

pub record Writes (f : Write) (wire : List ℕ) : Type 0 where
  pub run : (w : BufferWriter) → w.pos ≤ length w.buffer → f w ≡ append_or_throw w wire

done_run : (w : BufferWriter) → w.pos ≤ length w.buffer → done w ≡ append_or_throw w []
unfolding overwrite
done_run w h = ground arith

pub Writes-done : Writes done []
Writes-done = record { run = done_run }

append_or_throw_twice :
    (w : BufferWriter) (a b : List ℕ)
    → w.pos + length a ≤ length w.buffer
    → append_or_throw (appended w a) b ≡ append_or_throw w (a ++ b)
append_or_throw_twice w a b h = ground (
  arith,
  length-append a b,
  length-overwrite w.buffer w.pos a,
  overwrite-append w.buffer w.pos a b,
)

fits_cases :
    (w : BufferWriter) (wire : List ℕ)
    → ((w.pos + length wire ≤ length w.buffer) × (append_or_throw w wire ≡ ok (appended w wire)))
      ⊎ ((length w.buffer < w.pos + length wire) × (append_or_throw w wire ≡ err buffer_too_small))
fits_cases w wire = elim (Bool-cases (leb (w.pos + length wire) (length w.buffer))) [
  | inl fits ↦ inl (ground arith, rw fits)
  | inr over ↦ inr (ground arith, rw over)
]

pub Writes-then : {f g : Write} {a b : List ℕ} → Writes f a → Writes g b → Writes (f >> g) (a ++ b)
Writes-then {f} {g} {a} {b} hf hg = record {
  run = λ w h. elim (fits_cases w a) [
    | inl (fits, e) ↦
        rw (hf.run w h ∙ e, ◌>>◌)
          (hg.run (appended w a) (omega (arith, length-overwrite w.buffer w.pos a))
            ∙ append_or_throw_twice w a b fits)
    | inr (over, e) ↦ rw (hf.run w h ∙ e, ◌>>◌) (ground (arith, length-append a b))
  ];
}

write_byte_run :
    (b : ℕ) (w : BufferWriter)
    → w.pos ≤ length w.buffer
    → write_byte b w ≡ append_or_throw w (b ∷ [])
unfolding write_byte overwrite
write_byte_run b w h = ground arith

write_bytes_run :
    (bs : List ℕ) (w : BufferWriter)
    → w.pos ≤ length w.buffer
    → write_bytes bs w ≡ append_or_throw w bs
unfolding write_bytes
write_bytes_run bs w h = ground arith

write_varint_run :
    (n : ℕ) (w : BufferWriter)
    → IsU64 n
    → w.pos ≤ length w.buffer
    → write_varint n w ≡ append_or_throw w (encoding n)
unfolding write_varint
write_varint_run n w v h =
    ground (arith, encoded_size-length n v, encode_unsafe-encoding w.buffer w.pos n v)

write_u32_be_run :
    (e : Endian) (v : ℕ) (w : BufferWriter)
    → IsU32 v
    → w.pos ≤ length w.buffer
    → write_u32_be e v w ≡ append_or_throw w (be32 v)
unfolding write_u32_be
write_u32_be_run e v w u h = ground (arith, length-be32 v, memory_u32-to_be e v u)

pub Writes-byte : (b : ℕ) → Writes (write_byte b) (b ∷ [])
Writes-byte b = record { run = write_byte_run b }

pub Writes-bytes : (bs : List ℕ) → Writes (write_bytes bs) bs
Writes-bytes bs = record { run = write_bytes_run bs }

pub Writes-varint : (n : ℕ) → IsU64 n → Writes (write_varint n) (encoding n)
Writes-varint n v = record { run = λ w h. write_varint_run n w v h }

pub Writes-u32_be : (e : Endian) (v : ℕ) → IsU32 v → Writes (write_u32_be e v) (be32 v)
Writes-u32_be e v u = record { run = λ w h. write_u32_be_run e v w u h }

pub Writes-length-prefixed :
    (bs : List ℕ) → IsU64 (length bs) → Writes (write_length_prefixed bs) (prefixed bs)
unfolding write_length_prefixed
Writes-length-prefixed bs h = Writes-then (Writes-varint (length bs) h) (Writes-bytes bs)

pub Writes-string : (bs : List ℕ) → IsU64 (length bs) → Writes (write_string bs) (prefixed bs)
unfolding write_string
Writes-string = Writes-length-prefixed

pub length_prefixed_size-length :
    (bs : List ℕ) → IsU64 (length bs) → length_prefixed_size (length bs) ≡ length (prefixed bs)
unfolding length_prefixed_size
length_prefixed_size-length bs h =
    omega (arith, encoded_size-length (length bs) h, length-append (encoding (length bs)) bs)

-- `append_length_prefixed` appends the length and the bytes to the vector.
pub append_length_prefixed_lem :
    (out bs : List ℕ) → IsU64 (length bs) → append_length_prefixed out bs ≡ out ++ prefixed bs
unfolding append_length_prefixed
append_length_prefixed_lem out bs h =
    overwrite_end (encode_to_vec out (length bs)) (replicate (length bs) 0) bs
      (length-replicate (length bs) 0)
    ∙ ap (λ p. p ++ bs) (encode_to_vec-encoding out (length bs) h)
    ∙ append_assoc out (encoding (length bs)) bs

-- A write that fits a fresh span of just its size fills it.
pub Writes-fill :
    {f : Write} {wire : List ℕ} (zeros : List ℕ)
    → Writes f wire
    → length zeros ≡ length wire
    → f (record { buffer = zeros; pos = 0 }) ≡ ok (record { buffer = wire; pos = length wire })
Writes-fill {f} {wire} zeros hf e =
    hf.run (record { buffer = zeros; pos = 0 }) (omega arith)
    ∙ ground (arith, overwrite_end [] zeros wire e)
