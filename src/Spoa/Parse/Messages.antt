-- ===== src/Spoa/Parse/Messages.antt =====
-- NOTIFY frames: the messages that were encoded are the messages that are parsed.
use haproxy_spoa_firehol_mmd.Prelude.{
  ℕ, zero, suc, ◌*◌, ◌/◌, ◌≤◌, ◌<◌, ◌≡◌, ap, ◌∙◌, List, [], ◌∷◌, ◌++◌, arith, le→ltb,
}
use haproxy_spoa_firehol_mmd.Prelude.Lists.{length, All, length-append}
use haproxy_spoa_firehol_mmd.Prelude.Bytes.{IsU64}
use haproxy_spoa_firehol_mmd.Prelude.Result.{ok}
use haproxy_spoa_firehol_mmd.Spoa.Reader.{Reader, ◌>>=◌, pure, remaining, rest}
use haproxy_spoa_firehol_mmd.Spoa.Reader.Reads.{
  Reads, Reads-pure, Reads-bind, Reads-byte, Reads-string, Reads-map, advance, rest-advance,
  remaining-rest, prefixed,
}
use haproxy_spoa_firehol_mmd.Spoa.Message.{Arg, Message}
use haproxy_spoa_firehol_mmd.Spoa.Frame.{FrameType}
use haproxy_spoa_firehol_mmd.Spoa.Frame.Sizes.{IsValidArg, field_wire, fields_wire}
use haproxy_spoa_firehol_mmd.Spoa.Parse.{
  notify, read_args, check_arg_count, read_message, read_messages, parse_notify, parse_body, parse,
}
use haproxy_spoa_firehol_mmd.Spoa.Parse.Fields.{
  read_arg-Reads, is_empty-rest, not_empty, two-le-field_wire, payload, read_frame_lem, parse_run,
}

-- The wire form of a message: its name, the number of its arguments in a byte, and the arguments.
abbrev pub message_wire : Message → List ℕ
message_wire m = prefixed m.name ++ (length m.args ∷ fields_wire m.args)

abbrev pub messages_wire : List Message → List ℕ
messages_wire [] = []
messages_wire (m ∷ ms) = message_wire m ++ messages_wire ms

abbrev pub IsValidMessage : Message → Type 0
IsValidMessage m = IsU64 (length m.name) × (length m.args < 256) × All IsValidArg m.args

read_args-Reads :
    (args : List Arg)
    → All IsValidArg args
    → Reads (read_args (length args)) (fields_wire args) args
unfolding read_args
read_args-Reads [] h = Reads-pure []
read_args-Reads (a ∷ args) (v, h) =
    Reads-bind _ (read_arg-Reads a v) (Reads-map (λ more. a ∷ more) (read_args-Reads args h))

-- An argument takes two bytes at least, so the count of a well-formed message is never refused.
fields_wire_long : (args : List Arg) → 2 * length args ≤ length (fields_wire args)
fields_wire_long [] = omega arith
fields_wire_long (a ∷ args) = omega (
  arith,
  two-le-field_wire a,
  length-append (field_wire a.name a.value) (fields_wire args),
  fields_wire_long args,
)

check_arg_count_run :
    (args : List Arg) (tail : List ℕ) (r : Reader)
    → rest r ≡ fields_wire args ++ tail
    → check_arg_count (length args) r ≡ ok (tt, r)
unfolding check_arg_count
check_arg_count_run args tail r e = rw (
    le→ltb (remaining r / 2) (length args) (
      omega (
        arith,
        remaining-rest r,
        ap length e,
        length-append (fields_wire args) tail,
        fields_wire_long args,
      )))

checked_args-Reads :
    (name : List ℕ) (args : List Arg)
    → All IsValidArg args
    → Reads
        (check_arg_count (length args) >>= λ u.
          read_args (length args) >>= λ read. pure (record { name = name; args = read }))
        (fields_wire args)
        (let m : Message = record { name = name; args = args } in m)
checked_args-Reads name args h = record {
  run = λ r tail e.
      rw (check_arg_count_run args tail r e, ◌>>=◌)
        ((Reads-map (λ read. let m : Message = record { name = name; args = read } in m)
            (read_args-Reads args h)).run
          r tail e);
}

read_message-Reads : (m : Message) → IsValidMessage m → Reads read_message (message_wire m) m
unfolding read_message
read_message-Reads m (n, c, h) = Reads-bind _ (Reads-string m.name n) (
    Reads-bind _ {v = length m.args ∷ []} (Reads-byte (length m.args))
      (checked_args-Reads m.name m.args h))

message_wire_pos : (m : Message) → 1 ≤ length (message_wire m)
message_wire_pos m =
    omega (arith, length-append (prefixed m.name) (length m.args ∷ fields_wire m.args))

read_messages_run :
    (ms : List Message) (fuel : ℕ) (r : Reader)
    → All IsValidMessage ms
    → rest r ≡ messages_wire ms
    → length (messages_wire ms) ≤ fuel
    → (r' : Reader) × (read_messages fuel r ≡ ok (ms, r'))
unfolding read_messages
read_messages_run [] zero r h e le = (r, rw (is_empty-rest r, e))
read_messages_run [] (suc fuel) r h e le = (r, rw (is_empty-rest r, e))
read_messages_run (m ∷ ms) zero r h e le =
    absurd (omega (arith, message_wire_pos m, length-append (message_wire m) (messages_wire ms)))
read_messages_run (m ∷ ms) (suc fuel) r (v, h) e le =
    let w = message_wire m in
    let parts = length-append w (messages_wire ms) in
    let (r', more) =
      read_messages_run ms fuel (advance r (length w)) h (rest-advance r w (messages_wire ms) e)
        (omega (arith, message_wire_pos m, parts)) in
    (
      r',
      rw
          (
            not_empty r (omega (arith, message_wire_pos m, parts, ap length e)),
            (read_message-Reads m v).run r (messages_wire ms) e,
            ◌>>=◌,
          )
          (rw more),
    )

notify_run :
    (s f : ℕ) (ms : List Message) (r : Reader)
    → All IsValidMessage ms
    → rest r ≡ messages_wire ms
    → (r' : Reader) × (parse_body FrameType.notify s f r
        ≡ ok (notify (record { stream_id = s; frame_id = f; messages = ms }), r'))
unfolding parse_body parse_notify
notify_run s f ms r h e =
    let (r', run) =
      read_messages_run ms (remaining r) r h e (omega (arith, remaining-rest r, ap length e)) in
    (r', rw (run, ◌>>=◌))

-- Any list of valid messages, with up to 255 arguments each, comes back from the NOTIFY frame that
-- encodes it, with the IDs; the flags are not looked at.
pub parse-notify :
    (flags : List ℕ) (s f : ℕ) (ms : List Message)
    → length flags ≡ 4
    → IsU64 s
    → IsU64 f
    → All IsValidMessage ms
    → parse FrameType.notify (payload flags s f (messages_wire ms))
      ≡ ok (notify (record { stream_id = s; frame_id = f; messages = ms }))
parse-notify flags s f ms four hs hf h =
    let (r, e, start) = read_frame_lem FrameType.notify flags s f (messages_wire ms) four hs hf in
    let (r', run) = notify_run s f ms r h e in parse_run FrameType.notify _ _ r' (start ∙ run)
