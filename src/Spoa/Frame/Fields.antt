-- ===== src/Spoa/Frame/Fields.antt =====
-- The frames made of fields: AGENT-HELLO and AGENT-DISCONNECT.
use mathlib.Core.Path.{fun_ext}
use haproxy_spoa_firehol_mmd.Prelude.{
  ℕ, ◌+◌, ◌≤◌, ◌<◌, ◌≡◌, sym, ap, ◌∙◌, List, [], ◌∷◌, ◌++◌, append_assoc, append-nil, arith, leb,
  if◌then◌else◌, inl, inr,
}
use haproxy_spoa_firehol_mmd.Prelude.Lists.{length, All, length-append}
use haproxy_spoa_firehol_mmd.Prelude.Bytes.{IsU32, IsU64}
use haproxy_spoa_firehol_mmd.Prelude.Result.{frame_too_long, Result, ok, err, ◌>>=◌}
use haproxy_spoa_firehol_mmd.Spoa.Varint.Encoding.{encoding}
use haproxy_spoa_firehol_mmd.Spoa.Varint.Encode.{encode_to_vec-encoding}
use haproxy_spoa_firehol_mmd.Spoa.Writer.{Endian, append_length_prefixed}
use haproxy_spoa_firehol_mmd.Spoa.Writer.Words.{be32, memory_u32-to_be}
use haproxy_spoa_firehol_mmd.Spoa.Writer.Writes.{append_length_prefixed_lem}
use haproxy_spoa_firehol_mmd.Spoa.Reader.Reads.{prefixed}
use haproxy_spoa_firehol_mmd.Spoa.TypedData.{TypedData}
use haproxy_spoa_firehol_mmd.Spoa.TypedData.Wire.{IsValid, wire}
use haproxy_spoa_firehol_mmd.Spoa.TypedData.Encode.{encode_to_vec-wire}
use haproxy_spoa_firehol_mmd.Spoa.Message.{Arg}
use haproxy_spoa_firehol_mmd.Spoa.Frame.{
  FrameType, max_size, frame_size, begin_frame, append_field, append_fields, encode_fields,
  hello_fields, encode_agent_hello, disconnect_fields, encode_agent_disconnect,
}
use haproxy_spoa_firehol_mmd.Spoa.Frame.Sizes.{
  checked, checked-cases, field_wire, fields_wire, fields_size_lem, frame_body, frame_size_lem,
  IsValidArg,
}

-- A frame of the given body, if its length fits 32 bits.
abbrev pub framed : List ℕ → Result (List ℕ)
framed body =
    if leb (length body) max_size then ok (be32 (length body) ++ body) else err frame_too_long

pub framed_fits :
    (body : List ℕ) → length body ≤ max_size → framed body ≡ ok (be32 (length body) ++ body)
framed_fits body h = ground arith

pub framed_over : (body : List ℕ) → max_size < length body → framed body ≡ err frame_too_long
framed_over body h = ground arith

append_field_lem :
    (out name : List ℕ) (value : TypedData)
    → IsU64 (length name)
    → IsValid value
    → append_field out name value ≡ ok (out ++ field_wire name value)
unfolding append_field
append_field_lem out name value n v =
    encode_to_vec-wire value (append_length_prefixed out name) v
    ∙ ap ok (
        ap (λ t. t ++ wire value) (append_length_prefixed_lem out name n)
        ∙ append_assoc out (prefixed name) (wire value))

append_fields_lem :
    (out : List ℕ) (fields : List Arg)
    → All IsValidArg fields
    → append_fields out fields ≡ ok (out ++ fields_wire fields)
unfolding append_fields
append_fields_lem out [] h = ap ok (sym (append-nil out))
append_fields_lem out (a ∷ fields) ((n, v), h) = rw (append_field_lem out a.name a.value n v) (
    append_fields_lem (out ++ field_wire a.name a.value) fields h
    ∙ ap ok (append_assoc out (field_wire a.name a.value) (fields_wire fields)))

begin_frame_lem :
    (e : Endian) (type : FrameType) (s f size payload_size : ℕ)
    → IsU64 s
    → IsU64 f
    → size ≤ max_size
    → frame_size s f payload_size ≡ ok size
    → begin_frame e type s f payload_size ≡ ok (be32 size ++ frame_body type s f [])
unfolding begin_frame
begin_frame_lem e type s f size payload_size hs hf small ok_size =
    rw (ok_size, ◌>>=◌)
      (ap ok (
        encode_to_vec-encoding _ f hf
        ∙ ap (λ t. t ++ encoding f) (encode_to_vec-encoding _ s hs)
        ∙ rw (memory_u32-to_be e size (omega arith)) (simp (append_assoc, append-nil))))

begin_frame_refuses :
    (e : Endian) (type : FrameType) (s f payload_size : ℕ)
    → frame_size s f payload_size ≡ err frame_too_long
    → begin_frame e type s f payload_size ≡ err frame_too_long
unfolding begin_frame
begin_frame_refuses e type s f payload_size refused = rw (refused, ◌>>=◌)

with_payload :
    (type : FrameType) (s f : ℕ) (lead payload : List ℕ)
    → (lead ++ frame_body type s f []) ++ payload ≡ lead ++ frame_body type s f payload
with_payload type s f lead payload = simp (append_assoc, append-nil)

pub payload_short :
    (type : FrameType) (s f : ℕ) (payload : List ℕ)
    → length payload ≤ length (frame_body type s f payload)
payload_short type s f payload =
    omega (
      arith,
      length-append (encoding s) (encoding f ++ payload),
      length-append (encoding f) payload,
    )

-- The frame around a payload of the announced size.
begin_frame-framed :
    (e : Endian) (type : FrameType) (s f : ℕ) (payload : List ℕ)
    → IsU64 s
    → IsU64 f
    → (begin_frame e type s f (length payload) >>= λ out. ok (out ++ payload))
      ≡ framed (frame_body type s f payload)
begin_frame-framed e type s f payload hs hf =
    let n = length (frame_body type s f payload) in
    elim (checked-cases n) [
      | inl (fits, c) ↦
          rw (begin_frame_lem e type s f n _ hs hf fits (frame_size_lem type s f payload hs hf ∙ c))
            (ap ok (with_payload type s f (be32 n) payload)
              ∙ sym (framed_fits (frame_body type s f payload) fits))
      | inr (over, c) ↦
          rw (begin_frame_refuses e type s f _ (frame_size_lem type s f payload hs hf ∙ c))
            (sym (framed_over (frame_body type s f payload) over))
    ]

-- Whatever fields are valid, `encode_fields` gives the frame of their wire forms, its length in
-- front, and throws only where that length exceeds 32 bits.
pub encode_fields-framed :
    (e : Endian) (type : FrameType) (s f : ℕ) (fields : List Arg)
    → IsU64 s
    → IsU64 f
    → All IsValidArg fields
    → encode_fields e type s f fields ≡ framed (frame_body type s f (fields_wire fields))
unfolding encode_fields
encode_fields-framed e type s f fields hs hf h =
    let payload = fields_wire fields in
    let short = payload_short type s f payload in
    let zero_add : 0 + length payload ≡ length payload = omega arith in
    rw (fields_size_lem 0 fields h (omega arith) ∙ ap checked zero_add)
      (elim (checked-cases (length payload)) [
        | inl (fits, c) ↦
            rw (c, ◌>>=◌)
              (ap (λ k. begin_frame e type s f (length payload) >>= k)
                  (fun_ext (λ out. append_fields_lem out fields h))
                ∙ begin_frame-framed e type s f payload hs hf)
        | inr (over, c) ↦
            rw (c, ◌>>=◌) (sym (framed_over (frame_body type s f payload) (omega arith)))
      ])

-- An AGENT-HELLO announces version 2.0, the frame size of the argument, and pipelining.
pub encode_agent_hello-framed :
    (e : Endian) (s f max_frame_size : ℕ)
    → IsU64 s
    → IsU64 f
    → IsU32 max_frame_size
    → encode_agent_hello e s f max_frame_size
      ≡ framed (frame_body FrameType.agent_hello s f (fields_wire (hello_fields max_frame_size)))
unfolding encode_agent_hello
encode_agent_hello-framed e s f m hs hf hm =
    encode_fields-framed e FrameType.agent_hello s f (hello_fields m) hs hf
      (unfold hello_fields in omega arith)

pub encode_agent_disconnect-framed :
    (e : Endian) (s f status : ℕ) (message : List ℕ)
    → IsU64 s
    → IsU64 f
    → IsU32 status
    → IsU64 (length message)
    → encode_agent_disconnect e s f status message
      ≡ framed (
          frame_body FrameType.agent_disconnect s f
            (fields_wire (disconnect_fields status message)))
unfolding encode_agent_disconnect
encode_agent_disconnect-framed e s f status message hs hf hm hl =
    encode_fields-framed e FrameType.agent_disconnect s f (disconnect_fields status message) hs hf
      (unfold disconnect_fields in omega arith)
