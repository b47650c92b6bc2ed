-- ===== src/Spoa/Frame.antt =====
-- src/spoa/frame.h and the encoding half of frame.cpp: frames that the agent sends.
pub mod Sizes
pub mod Fields
pub mod Ack
use haproxy_spoa_firehol_mmd.Prelude.{
  ℕ, ◌+◌, ◌-◌, ◌^◌, ◌||◌, List, [], ◌∷◌, ◌++◌, ltb, leb, if◌then◌else◌,
}
use haproxy_spoa_firehol_mmd.Prelude.Lists.{length, take, replicate}
use haproxy_spoa_firehol_mmd.Prelude.Text.{ascii}
use haproxy_spoa_firehol_mmd.Prelude.Result.{Error, frame_too_long, Result, ok, err, ◌>>=◌}
use haproxy_spoa_firehol_mmd.Spoa.Varint
use haproxy_spoa_firehol_mmd.Spoa.Writer
use haproxy_spoa_firehol_mmd.Spoa.Writer.{
  length_prefixed_size, append_length_prefixed, BufferWriter, Write, done, Endian, memory_u32,
  to_be, write_u32_be, write_byte, write_bytes, write_varint, write_string,
}
use haproxy_spoa_firehol_mmd.Spoa.TypedData
use haproxy_spoa_firehol_mmd.Spoa.TypedData.{TypedData, uint32, string}
use haproxy_spoa_firehol_mmd.Spoa.Message.{Arg}

-- A byte that is none of the enumerators is `other`: the server casts the frame's first byte.
pub data FrameType : Type 0 where
  haproxy_hello haproxy_disconnect notify agent_hello agent_disconnect agent_ack : FrameType
  other : ℕ → FrameType

unfoldable pub frame_code : FrameType → ℕ
frame_code FrameType.haproxy_hello = 0x01
frame_code FrameType.haproxy_disconnect = 0x02
frame_code FrameType.notify = 0x03
frame_code FrameType.agent_hello = 0x65
frame_code FrameType.agent_disconnect = 0x66
frame_code FrameType.agent_ack = 0x67
frame_code (FrameType.other n) = n

pub data VarScope : Type 0 where
  process session transaction request response : VarScope

unfoldable pub scope_code : VarScope → ℕ
scope_code VarScope.process = 0
scope_code VarScope.session = 1
scope_code VarScope.transaction = 2
scope_code VarScope.request = 3
scope_code VarScope.response = 4

pub record AckVar : Type 0 where
  pub scope : VarScope
  pub name : List ℕ
  pub value : TypedData

-- `kLengthPrefixSize`, `kFlagsFin`, `kActionSetVar`, `kSetVarArgCount`
abbrev pub length_prefix_size : ℕ
length_prefix_size = 4

abbrev pub flags_fin : List ℕ
flags_fin = 0 ∷ 0 ∷ 0 ∷ 1 ∷ []

abbrev pub action_set_var : ℕ
action_set_var = 1

abbrev pub set_var_arg_count : ℕ
set_var_arg_count = 3

-- `std::numeric_limits<uint32_t>::max()`
abbrev pub max_size : ℕ
max_size = 2 ^ 32 - 1

unfoldable pub add_size : ℕ → ℕ → Result ℕ
add_size size extra =
    if ltb max_size extra || ltb (max_size - extra) size
    then err frame_too_long
    else ok (size + extra)

unfoldable pub field_size : List ℕ → TypedData → Result ℕ
field_size name value = add_size (length_prefixed_size (length name)) (TypedData.encoded_size value)

unfoldable pub append_field : List ℕ → List ℕ → TypedData → Result (List ℕ)
append_field out name value = TypedData.encode_to_vec value (append_length_prefixed out name)

-- What `begin_frame` and `ack_frame_size` sum up: type, flags, IDs and payload.
unfoldable pub frame_size : ℕ → ℕ → ℕ → Result ℕ
frame_size stream_id frame_id payload_size = do
  with_stream ← add_size (1 + length flags_fin) (Varint.encoded_size stream_id)
  with_frame ← add_size with_stream (Varint.encoded_size frame_id)
  add_size with_frame payload_size

unfoldable pub begin_frame : Endian → FrameType → ℕ → ℕ → ℕ → Result (List ℕ)
begin_frame e type stream_id frame_id payload_size = do
  size ← frame_size stream_id frame_id payload_size
  let start = memory_u32 e (to_be e size) ++ (frame_code type ∷ flags_fin)
  ok (Varint.encode_to_vec (Varint.encode_to_vec start stream_id) frame_id)

-- The two loops of `encode_fields`.
unfoldable pub fields_size : ℕ → List Arg → Result ℕ
fields_size size [] = ok size
fields_size size (a ∷ fields) = do
  extra ← field_size a.name a.value
  size' ← add_size size extra
  fields_size size' fields

unfoldable pub append_fields : List ℕ → List Arg → Result (List ℕ)
append_fields out [] = ok out
append_fields out (a ∷ fields) = do
  out' ← append_field out a.name a.value
  append_fields out' fields

unfoldable pub encode_fields : Endian → FrameType → ℕ → ℕ → List Arg → Result (List ℕ)
encode_fields e type stream_id frame_id fields = do
  payload_size ← fields_size 0 fields
  out ← begin_frame e type stream_id frame_id payload_size
  append_fields out fields

abbrev pub arg : List ℕ → TypedData → Arg
arg name value = record { name = name; value = value }

unfoldable pub hello_fields : ℕ → List Arg
hello_fields max_frame_size =
    arg (ascii "version") (string (ascii "2.0"))
    ∷ arg (ascii "max-frame-size") (uint32 max_frame_size)
    ∷ arg (ascii "capabilities") (string (ascii "pipelining"))
    ∷ []

unfoldable pub encode_agent_hello : Endian → ℕ → ℕ → ℕ → Result (List ℕ)
encode_agent_hello e stream_id frame_id max_frame_size =
    encode_fields e FrameType.agent_hello stream_id frame_id (hello_fields max_frame_size)

unfoldable pub disconnect_fields : ℕ → List ℕ → List Arg
disconnect_fields status_code message =
    arg (ascii "status-code") (uint32 status_code) ∷ arg (ascii "message") (string message) ∷ []

unfoldable pub encode_agent_disconnect : Endian → ℕ → ℕ → ℕ → List ℕ → Result (List ℕ)
encode_agent_disconnect e stream_id frame_id status_code message =
    encode_fields e FrameType.agent_disconnect stream_id frame_id
      (disconnect_fields status_code message)

abbrev pub action_header_size : ℕ
action_header_size = 3

-- The loop of `ack_frame_size`.
unfoldable pub vars_size : ℕ → List AckVar → Result ℕ
vars_size size [] = ok size
vars_size size (v ∷ vars) = do
  with_header ← add_size size action_header_size
  extra ← field_size v.name v.value
  size' ← add_size with_header extra
  vars_size size' vars

unfoldable pub ack_frame_size : ℕ → ℕ → List AckVar → Result ℕ
ack_frame_size stream_id frame_id vars = do
  payload_size ← vars_size 0 vars
  frame_size stream_id frame_id payload_size

-- The body of the loop of `encode_agent_ack_into`, and the loop.
unfoldable pub write_var : AckVar → Write
write_var v = Writer.◌>>◌ (write_byte action_set_var) (
    Writer.◌>>◌ (write_byte set_var_arg_count) (
      Writer.◌>>◌ (write_byte (scope_code v.scope))
        (Writer.◌>>◌ (write_string v.name) (TypedData.encode v.value))))

unfoldable pub write_vars : List AckVar → Write
write_vars [] = done
write_vars (v ∷ vars) = Writer.◌>>◌ (write_var v) (write_vars vars)

unfoldable pub write_ack : Endian → ℕ → ℕ → ℕ → List AckVar → Write
write_ack e size stream_id frame_id vars = Writer.◌>>◌ (write_u32_be e size) (
    Writer.◌>>◌ (write_byte (frame_code FrameType.agent_ack)) (
      Writer.◌>>◌ (write_bytes flags_fin) (
        Writer.◌>>◌ (write_varint stream_id)
          (Writer.◌>>◌ (write_varint frame_id) (write_vars vars)))))

-- The span after the call, with the number of bytes returned.
unfoldable pub encode_agent_ack_into : Endian → List ℕ → ℕ → ℕ → List AckVar → Result (List ℕ × ℕ)
encode_agent_ack_into e out stream_id frame_id vars = do
  size ← ack_frame_size stream_id frame_id vars
  if ltb (length out) (length_prefix_size + size) then ok (out, 0) else do
    w ← write_ack e size stream_id frame_id vars (record { buffer = out; pos = 0 })
    ok (w.buffer, w.pos)

-- `std::vector<uint8_t>::resize`
unfoldable pub resize : ℕ → List ℕ → List ℕ
resize n out = take n out ++ replicate (n - length out) 0

unfoldable pub encode_agent_ack : Endian → ℕ → ℕ → List AckVar → Result (List ℕ)
encode_agent_ack e stream_id frame_id vars = do
  size ← ack_frame_size stream_id frame_id vars
  (out, written) ←
      encode_agent_ack_into e (replicate (length_prefix_size + size) 0) stream_id frame_id vars
  ok (resize written out)
