-- ===== src/Spoa/Parse.antt =====
-- The parsing half of src/spoa/frame.cpp: the frames that HAProxy sends. Loops run until the reader is
-- empty; each round reads a byte at least, so the bytes that are left bound the rounds.
pub mod Safety
pub mod Kind
pub mod Messages
pub mod Fields
pub mod Hello
use haproxy_spoa_firehol_mmd.Prelude.{
  ℕ, zero, suc, ◌+◌, ◌/◌, ◌==◌, Bool, true, false, ◌&&◌, List, [], ◌∷◌, ltb, if◌then◌else◌,
  bytes_eq,
}
use haproxy_spoa_firehol_mmd.Prelude.Lists.{length}
use haproxy_spoa_firehol_mmd.Prelude.Text.{ascii}
use haproxy_spoa_firehol_mmd.Prelude.Result.{
  Error, too_many_arguments, unexpected_frame, unknown_frame, stuck, Result, ok, err,
}
use haproxy_spoa_firehol_mmd.Spoa.Reader.{
  Reader, Read, ◌>>=◌, ◌>>◌, pure, throw, remaining, is_empty, read_bytes, read_byte, read_varint,
  read_string,
}
use haproxy_spoa_firehol_mmd.Spoa.TypedData
use haproxy_spoa_firehol_mmd.Spoa.TypedData.{TypedType, TypedData, type_of, type_code}
use haproxy_spoa_firehol_mmd.Spoa.Message.{Arg, Message}
use haproxy_spoa_firehol_mmd.Spoa.Frame.{FrameType, frame_code, flags_fin}

pub record HaproxyHello : Type 0 where
  pub stream_id : ℕ
  pub frame_id : ℕ
  pub engine_id : List ℕ
  pub supported_versions : List ℕ
  pub max_frame_size : ℕ
  pub healthcheck : Bool

pub record HaproxyDisconnect : Type 0 where
  pub stream_id : ℕ
  pub frame_id : ℕ
  pub status_code : ℕ
  pub message : List ℕ

pub record Notify : Type 0 where
  pub stream_id : ℕ
  pub frame_id : ℕ
  pub messages : List Message

-- The variant `InFrame`.
pub data InFrame : Type 0 where
  hello : HaproxyHello → InFrame
  disconnect : HaproxyDisconnect → InFrame
  notify : Notify → InFrame

unfoldable pub read_arg : Read Arg
read_arg = do
  name ← read_string
  value ← TypedData.decode
  pure (record { name = name; value = value })

-- `visit` updates the state that the C++ lambda captures.
module _ {ℓ} {S : Type ℓ} (visit : S → Arg → S) where
  unfoldable pub for_each_field : ℕ → S → Read S
  for_each_field zero s r = if is_empty r then ok (s, r) else err stuck
  for_each_field (suc fuel) s r =
      let more = (read_arg >>= λ a. for_each_field fuel (visit s a)) r in
      if is_empty r then ok (s, r) else more

-- `value.type == type`
abbrev pub has_type : TypedData → TypedType → Bool
has_type v t = type_code (type_of v) == type_code t

-- The union's members, read where the type has been tested.
abbrev pub str : TypedData → List ℕ
str (TypedData.string s) = s
str _ = []

abbrev pub u32 : TypedData → ℕ
u32 (TypedData.uint32 n) = n
u32 _ = 0

abbrev pub as_boolean : TypedData → Bool
as_boolean (TypedData.boolean b) = b
as_boolean _ = false

-- The lambda of `parse_hello`.
unfoldable pub visit_hello : HaproxyHello → Arg → HaproxyHello
visit_hello frame a =
    if bytes_eq a.name (ascii "engine-id") && has_type a.value TypedType.string
    then record frame { engine_id = str a.value }
    else if bytes_eq a.name (ascii "supported-versions") && has_type a.value TypedType.string
    then record frame { supported_versions = str a.value }
    else if bytes_eq a.name (ascii "max-frame-size") && has_type a.value TypedType.uint32
    then record frame { max_frame_size = u32 a.value }
    else if bytes_eq a.name (ascii "healthcheck") && has_type a.value TypedType.boolean
    then record frame { healthcheck = as_boolean a.value }
    else frame

abbrev pub empty_hello : ℕ → ℕ → HaproxyHello
empty_hello stream_id frame_id = record {
  stream_id = stream_id;
  frame_id = frame_id;
  engine_id = [];
  supported_versions = [];
  max_frame_size = 0;
  healthcheck = false;
}

unfoldable pub parse_hello : ℕ → ℕ → Read HaproxyHello
parse_hello stream_id frame_id r =
    for_each_field visit_hello (remaining r) (empty_hello stream_id frame_id) r

-- The lambda of `parse_disconnect`.
unfoldable pub visit_disconnect : HaproxyDisconnect → Arg → HaproxyDisconnect
visit_disconnect frame a =
    if bytes_eq a.name (ascii "status-code") && has_type a.value TypedType.uint32
    then record frame { status_code = u32 a.value }
    else if bytes_eq a.name (ascii "message") && has_type a.value TypedType.string
    then record frame { message = str a.value }
    else frame

abbrev pub empty_disconnect : ℕ → ℕ → HaproxyDisconnect
empty_disconnect stream_id frame_id = record {
  stream_id = stream_id;
  frame_id = frame_id;
  status_code = 0;
  message = [];
}

unfoldable pub parse_disconnect : ℕ → ℕ → Read HaproxyDisconnect
parse_disconnect stream_id frame_id r =
    for_each_field visit_disconnect (remaining r) (empty_disconnect stream_id frame_id) r

-- `for (size_t i = 0; i < arg_count; ++i) args.push_back(read_arg(reader));`
unfoldable pub read_args : ℕ → Read (List Arg)
read_args zero = pure []
read_args (suc count) = do a ← read_arg; args ← read_args count; pure (a ∷ args)

-- `if (arg_count > reader.remaining() / 2) throw e;`
unfoldable pub check_arg_count : ℕ → Read (Unit {0})
check_arg_count count r = if ltb (remaining r / 2) count then err too_many_arguments else ok (tt, r)

-- One round of the loop of `parse_notify`.
unfoldable pub read_message : Read Message
read_message = do
  name ← read_string
  arg_count ← read_byte
  check_arg_count arg_count
  args ← read_args arg_count
  pure (record { name = name; args = args })

unfoldable pub read_messages : ℕ → Read (List Message)
read_messages zero r = if is_empty r then ok ([], r) else err stuck
read_messages (suc fuel) r =
    let more = (read_message >>= λ m. read_messages fuel >>= λ ms. pure (m ∷ ms)) r in
    if is_empty r then ok ([], r) else more

unfoldable pub parse_notify : ℕ → ℕ → Read Notify
parse_notify stream_id frame_id r =
    (read_messages (remaining r) >>= λ ms.
    pure (record { stream_id = stream_id; frame_id = frame_id; messages = ms }))
      r

-- The switch of `parse`.
unfoldable pub parse_body : FrameType → ℕ → ℕ → Read InFrame
parse_body FrameType.haproxy_hello s f = do h ← parse_hello s f; pure (hello h)
parse_body FrameType.haproxy_disconnect s f = do d ← parse_disconnect s f; pure (disconnect d)
parse_body FrameType.notify s f = do n ← parse_notify s f; pure (notify n)
parse_body FrameType.agent_hello s f = throw (unexpected_frame (frame_code FrameType.agent_hello))
parse_body FrameType.agent_disconnect s f =
    throw (unexpected_frame (frame_code FrameType.agent_disconnect))
parse_body FrameType.agent_ack s f = throw (unexpected_frame (frame_code FrameType.agent_ack))
parse_body (FrameType.other n) s f = throw (unknown_frame n)

unfoldable pub read_frame : FrameType → Read InFrame
read_frame type = do
  flags ← read_bytes (length flags_fin)
  stream_id ← read_varint
  frame_id ← read_varint
  parse_body type stream_id frame_id

unfoldable pub parse : FrameType → List ℕ → Result InFrame
parse type payload = elim (read_frame type (record { buf = payload; pos = 0 })) [
  | ok (f, r) ↦ ok f
  | err e ↦ err e
]
