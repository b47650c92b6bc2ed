-- ===== src/Spoa/Agent/Answer.antt =====
-- The answer to a NOTIFY frame.
use haproxy_spoa_firehol_mmd.Prelude.{
  ℕ, ◌+◌, ◌≤◌, ◌≡◌, refl, sym, ap, ◌∙◌, Bool, true, false, List, [], ◌∷◌, ◌++◌, Option, arith,
  lt→ltb, le→ltb, if◌then◌else◌, inl, inr, Bool-cases,
}
use haproxy_spoa_firehol_mmd.Prelude.Lists.{
  length, All, length-append, take, drop, take-append, overwrite, overwrite_lem,
}
use haproxy_spoa_firehol_mmd.Prelude.Text.{ascii}
use haproxy_spoa_firehol_mmd.Prelude.Bytes.{IsU64}
use haproxy_spoa_firehol_mmd.Prelude.Result.{ok, ◌>>=◌}
use haproxy_spoa_firehol_mmd.Spoa.Varint.Encoding.{encoding, length-encoding}
use haproxy_spoa_firehol_mmd.Spoa.Writer.{Endian}
use haproxy_spoa_firehol_mmd.Spoa.Writer.Words.{be32, length-be32}
use haproxy_spoa_firehol_mmd.Spoa.TypedData.Wire.{header, payload}
use haproxy_spoa_firehol_mmd.Spoa.Frame.{
  FrameType, max_size, disconnect_fields, encode_agent_disconnect, encode_agent_ack_into,
}
use haproxy_spoa_firehol_mmd.Spoa.Frame.Sizes.{IsValidVar, vars_wire, fields_wire, frame_body}
use haproxy_spoa_firehol_mmd.Spoa.Frame.Fields.{framed_fits, encode_agent_disconnect-framed}
use haproxy_spoa_firehol_mmd.Spoa.Frame.Ack.{ack_body, encode_agent_ack_into_lem}
use haproxy_spoa_firehol_mmd.Spoa.Parse.{Notify}
use haproxy_spoa_firehol_mmd.Spoa.Categories.Counting.{IsConfigured}
use haproxy_spoa_firehol_mmd.Spoa.Database.{Library}
use haproxy_spoa_firehol_mmd.Spoa.Agent.{
  Agent, Evaluation, Reply, send, ack_var, answer, handle_notify, evaluate_messages,
  status_not_implemented,
}
use haproxy_spoa_firehol_mmd.Spoa.Agent.Evaluate.{any_bad, any_unsupported, all_args}
use haproxy_spoa_firehol_mmd.Spoa.Agent.Loop.{evaluate_messages_lem}

-- A body with its length in front.
abbrev pub with_length : List ℕ → List ℕ
with_length body = be32 (length body) ++ body

-- The bodies of the two answers.
abbrev pub answer_ack : ℕ → ℕ → Bool → List ℕ
answer_ack s f ip_bad = ack_body s f (ack_var ip_bad ∷ [])

abbrev pub answer_disconnect : List ℕ
answer_disconnect = frame_body FrameType.agent_disconnect 0 0 (
    fields_wire
      (disconnect_fields status_not_implemented (ascii "agent does not implement argument type")))

length-ack_vars : (ip_bad : Bool) → length (vars_wire (ack_var ip_bad ∷ [])) ≡ 11
unfolding ack_var encoding header payload
length-ack_vars true = refl
length-ack_vars false = refl

-- 1 + 4 + at most 10 for each ID + 11: with its length the frame fits 64 bytes.
length-answer_ack : (s f : ℕ) (ip_bad : Bool) → length (answer_ack s f ip_bad) ≤ 36
length-answer_ack s f ip_bad =
    let vars = vars_wire (ack_var ip_bad ∷ []) in
    let ids = length-append (encoding s) (encoding f ++ vars) in
    let id = length-append (encoding f) vars in
    omega (arith, ids, id, length-encoding s, length-encoding f, length-ack_vars ip_bad)

-- What a span holds at its front after a run was written there.
take_written :
    (out bytes : List ℕ)
    → length bytes ≤ length out
    → take (length bytes) (overwrite out 0 bytes) ≡ bytes
take_written out bytes h =
    ap (take (length bytes)) (overwrite_lem out 0 bytes (omega arith))
    ∙ take-append bytes (drop (0 + length bytes) out)

ack_var-IsValid : (ip_bad : Bool) → All IsValidVar (ack_var ip_bad ∷ [])
unfolding ack_var
ack_var-IsValid ip_bad = ((omega arith, tt), tt)

-- The acknowledgement is always encoded into the buffer of 64 bytes.
encode_agent_ack_into-answer :
    (e : Endian) (stack_buf : List ℕ) (s f : ℕ) (ip_bad : Bool)
    → length stack_buf ≡ 64
    → IsU64 s
    → IsU64 f
    → let body = answer_ack s f ip_bad in
      encode_agent_ack_into e stack_buf s f (ack_var ip_bad ∷ [])
      ≡ ok (overwrite stack_buf 0 (with_length body), 4 + length body)
encode_agent_ack_into-answer e stack_buf s f ip_bad room hs hf =
    let body = answer_ack s f ip_bad in
    let short = length-answer_ack s f ip_bad in
    encode_agent_ack_into_lem e stack_buf s f (ack_var ip_bad ∷ []) hs hf (ack_var-IsValid ip_bad)
    ∙ rw (
      le→ltb max_size (length body) (omega arith),
      le→ltb (length stack_buf) (4 + length body) (omega arith),
    )

-- What is sent of the buffer.
ack_sent :
    (stack_buf body : List ℕ)
    → 4 + length body ≤ length stack_buf
    → take (4 + length body) (overwrite stack_buf 0 (with_length body)) ≡ with_length body
ack_sent stack_buf body h =
    let total : length (with_length body) ≡ 4 + length body =
      omega (arith, length-append (be32 (length body)) body, length-be32 (length body)) in
    ap (λ (n : ℕ). take n (overwrite stack_buf 0 (with_length body))) (sym total)
    ∙ take_written stack_buf (with_length body) (omega arith)

encode_agent_disconnect-answer :
    (e : Endian)
    → encode_agent_disconnect e 0 0 status_not_implemented
        (ascii "agent does not implement argument type")
      ≡ ok (with_length answer_disconnect)
unfolding encoding disconnect_fields payload
encode_agent_disconnect-answer e =
    encode_agent_disconnect-framed e 0 0 status_not_implemented
      (ascii "agent does not implement argument type") (omega arith) (omega arith) (omega arith)
      (omega arith)
    ∙ framed_fits answer_disconnect short
  where
    short : length answer_disconnect ≤ max_size
    short = omega arith

-- The reply to an evaluation, as a specification.
abbrev pub reply_to : ℕ → ℕ → Bool → Bool → Reply
reply_to s f ip_bad not_implemented =
    if not_implemented
    then send true (with_length answer_disconnect)
    else send false (with_length (answer_ack s f ip_bad))

answer_lem :
    (e : Endian) (stack_buf : List ℕ) (s f : ℕ) (ev : Evaluation)
    → length stack_buf ≡ 64
    → IsU64 s
    → IsU64 f
    → answer e stack_buf s f ev ≡ ok (reply_to s f ev.ip_bad ev.not_implemented)
unfolding answer
answer_lem e stack_buf s f ev room hs hf =
    let body = answer_ack s f ev.ip_bad in
    elim (Bool-cases ev.not_implemented) [
      | inl missing ↦ rw (missing, encode_agent_disconnect-answer e, ◌>>=◌)
      | inr fine ↦
          rw
            (
              fine,
              encode_agent_ack_into-answer e stack_buf s f ev.ip_bad room hs hf,
              ◌>>=◌,
              lt→ltb 0 (4 + length body) (omega arith),
            )
            (ap (λ bytes. ok (send false bytes))
              (ack_sent stack_buf body (omega (arith, length-answer_ack s f ev.ip_bad))))
    ]

-- `handle_notify` never throws and never needs the fallback. If an argument has a type that is not
-- supported, the reply is AGENT-DISCONNECT with status 14, and the connection stops. Otherwise it is
-- AGENT-ACK with the IDs of the frame, which sets `ip_bad` to whether one of the arguments has a
-- configured category, and the connection goes on. What the buffer on the stack held does not matter.
pub handle_notify_lem :
    (e : Endian) (log : Bool) (db : Option Library) (stack_buf : List ℕ) (n : Notify)
    (agent : Agent)
    → length stack_buf ≡ 64
    → IsU64 n.stream_id
    → IsU64 n.frame_id
    → IsConfigured agent.drop_categories
    → let args = all_args n.messages in
      (handle_notify e log db stack_buf n agent).0
      ≡ ok (
          reply_to n.stream_id n.frame_id
            (any_bad db agent.drop_categories args)
            (any_unsupported args))
unfolding handle_notify
handle_notify_lem e log db stack_buf n agent room hs hf h =
    let start : Evaluation = record { agent = agent; ip_bad = false; not_implemented = false } in
    let ev = evaluate_messages log db n.messages start in
    let (bad, missing, counts) = evaluate_messages_lem log db n.messages agent h in
    answer_lem e stack_buf n.stream_id n.frame_id ev room hs hf ∙ rw (bad, missing)
