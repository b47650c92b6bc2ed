-- ===== src/Tests/Frames.antt =====
-- Frames that arrive and frames that are sent.
use haproxy_spoa_firehol_mmd.Prelude.{ℕ, ◌≡◌, refl, true, List, [], ◌∷◌, arith}
use haproxy_spoa_firehol_mmd.Prelude.Text.{ascii}
use haproxy_spoa_firehol_mmd.Prelude.Result.{ok}
use haproxy_spoa_firehol_mmd.Spoa.Writer.{Endian}
use haproxy_spoa_firehol_mmd.Spoa.Reader.{
  Reader, read_varint, read_bytes, rest, remaining, is_empty,
}
use haproxy_spoa_firehol_mmd.Spoa.Reader.Bounds.{Moves}
use haproxy_spoa_firehol_mmd.Spoa.Varint.{decode, decode_loop}
use haproxy_spoa_firehol_mmd.Spoa.TypedData.{TypedData}
use haproxy_spoa_firehol_mmd.Spoa.Message.{Arg, Message}
use haproxy_spoa_firehol_mmd.Spoa.Frame.{FrameType, AckVar, VarScope, arg, encode_agent_ack_into}
use haproxy_spoa_firehol_mmd.Spoa.Frame.Ack.{ack_body, ack_into, encode_agent_ack_into_lem}
use haproxy_spoa_firehol_mmd.Spoa.Parse.{
  hello, notify, empty_hello, parse, parse_body, read_frame, parse_hello, for_each_field,
}
use haproxy_spoa_firehol_mmd.Spoa.Parse.Fields.{payload}
use haproxy_spoa_firehol_mmd.Spoa.Parse.Messages.{messages_wire, parse-notify}
use haproxy_spoa_firehol_mmd.Spoa.Parse.Safety.{read_frame-Moves}

abbrev no_flags : List ℕ
no_flags = 0 ∷ 0 ∷ 0 ∷ 1 ∷ []

-- Fields out of order, one of them repeated and one unknown.
abbrev some_fields : List Arg
some_fields =
    arg (ascii "max-frame-size") (TypedData.uint32 16380)
    ∷ arg (ascii "healthcheck") (TypedData.boolean true)
    ∷ arg (ascii "colour") (TypedData.binary (1 ∷ []))
    ∷ arg (ascii "max-frame-size") (TypedData.uint32 1024)
    ∷ []

abbrev some_messages : List Message
some_messages =
    record {
      name = ascii "check";
      args = arg (ascii "src") (TypedData.ipv4 (203 ∷ 0 ∷ 113 ∷ 7 ∷ [])) ∷ [];
    }
    ∷ record { name = ascii "none"; args = [] }
    ∷ []

abbrev ip_bad : List AckVar
ip_bad =
    record { scope = VarScope.session; name = ascii "ip_bad"; value = TypedData.boolean true } ∷ []

parse-notify_example :
    parse FrameType.notify (payload no_flags 7 300 (messages_wire some_messages))
    ≡ ok (notify (record { stream_id = 7; frame_id = 300; messages = some_messages }))
parse-notify_example =
    parse-notify no_flags 7 300 some_messages refl (omega arith) (omega arith) (omega arith)

abbrev short_payload : List ℕ
short_payload = 0 ∷ 0 ∷ 0 ∷ 1 ∷ 7 ∷ 1 ∷ []

read_frame-Moves_example :
    let start : Reader = record { buf = short_payload; pos = 0 } in
    Moves 6 start (read_frame FrameType.notify start)
read_frame-Moves_example = read_frame-Moves FrameType.notify short_payload

parsed_short : parse FrameType.haproxy_hello short_payload ≡ ok (hello (empty_hello 7 1))
unfolding parse read_frame read_varint read_bytes decode decode_loop rest remaining is_empty
    parse_body parse_hello for_each_field
parsed_short = refl

encode_agent_ack_into_lem_example :
    encode_agent_ack_into Endian.big (0 ∷ 0 ∷ []) 1 2 ip_bad
    ≡ ack_into (0 ∷ 0 ∷ []) (ack_body 1 2 ip_bad)
encode_agent_ack_into_lem_example =
    encode_agent_ack_into_lem Endian.big (0 ∷ 0 ∷ []) 1 2 ip_bad (omega arith) (omega arith)
      (omega arith)
