-- ===== src/Spoa/Agent/Session.antt =====
-- Whole frames: from the bytes that arrive to the reply.
use haproxy_spoa_firehol_mmd.Prelude.{
  ℕ, ◌+◌, ◌^◌, ◌%◌, ◌≡◌, ◌≢◌, refl, ap, ◌∙◌, Bool, true, false, List, [], Option, arith,
}
use haproxy_spoa_firehol_mmd.Prelude.Lists.{length, All}
use haproxy_spoa_firehol_mmd.Prelude.Text.{ascii}
use haproxy_spoa_firehol_mmd.Prelude.Bytes.{IsU64, IsU32}
use haproxy_spoa_firehol_mmd.Prelude.Result.{Error, Result, ok, err, ◌>>=◌}
use haproxy_spoa_firehol_mmd.Spoa.Writer.{Endian}
use haproxy_spoa_firehol_mmd.Spoa.Message.{Arg, Message}
use haproxy_spoa_firehol_mmd.Spoa.TypedData.{TypedType}
use haproxy_spoa_firehol_mmd.Spoa.Frame.{FrameType, encode_agent_hello}
use haproxy_spoa_firehol_mmd.Spoa.Frame.Sizes.{IsValidArg, fields_wire}
use haproxy_spoa_firehol_mmd.Spoa.Frame.Fields.{framed_fits, encode_agent_hello-framed}
use haproxy_spoa_firehol_mmd.Spoa.Parse.{
  HaproxyHello, Notify, InFrame, hello, notify, u32, empty_hello, parse,
}
use haproxy_spoa_firehol_mmd.Spoa.Parse.Fields.{payload}
use haproxy_spoa_firehol_mmd.Spoa.Parse.Messages.{IsValidMessage, messages_wire, parse-notify}
use haproxy_spoa_firehol_mmd.Spoa.Parse.Hello.{last_value, last_hello, parse-hello}
use haproxy_spoa_firehol_mmd.Spoa.Parse.Kind.{kind, parse-kind}
use haproxy_spoa_firehol_mmd.Spoa.Categories.Counting.{IsConfigured}
use haproxy_spoa_firehol_mmd.Spoa.Categories.{blocked}
use haproxy_spoa_firehol_mmd.Spoa.Database.{Library}
use haproxy_spoa_firehol_mmd.Spoa.Agent.{Agent, send, caught, handle_notify, handle_frame}
use haproxy_spoa_firehol_mmd.Spoa.Agent.Evaluate.{any_bad, any_unsupported, all_args, hits}
use haproxy_spoa_firehol_mmd.Spoa.Agent.Loop.{evaluate_messages_lem}
use haproxy_spoa_firehol_mmd.Spoa.Agent.Hello.{last_u32, answer_hello, length-answer_hello}
use haproxy_spoa_firehol_mmd.Spoa.Agent.Answer.{reply_to, with_length, handle_notify_lem}

module _ (e : Endian) (log : Bool) (db : Option Library) (stack_buf : List ℕ) where
  -- The counters after `handle_notify`.
  handle_notify-blocked :
      (n : Notify) (agent : Agent) (name : List ℕ)
      → IsConfigured agent.drop_categories
      → blocked name ((handle_notify e log db stack_buf n agent).1.drop_categories)
        ≡ (blocked name agent.drop_categories
            + hits name db agent.drop_categories (all_args n.messages))
          % 2 ^ 64
  unfolding handle_notify
  handle_notify-blocked n agent name h =
      let (bad, missing, counts) = evaluate_messages_lem log db n.messages agent h in counts name

  handle_frame-notify :
      (type : FrameType) (bytes : List ℕ) (n : Notify) (agent : Agent)
      → parse type bytes ≡ ok (notify n)
      → handle_frame e log db stack_buf type bytes agent ≡ (
        caught ((handle_notify e log db stack_buf n agent).0),
        (handle_notify e log db stack_buf n agent).1,
      )
  unfolding handle_frame
  handle_frame-notify type bytes n agent parsed = rw (parsed, handle_frame)

  -- The NOTIFY frame of any valid messages is answered as `handle_notify` specifies, and each name's
  -- counter goes up, modulo 2^64, by the number of arguments whose first configured category it is.
  pub handle_frame-messages :
      (flags : List ℕ) (s f : ℕ) (ms : List Message) (agent : Agent)
      → length stack_buf ≡ 64
      → length flags ≡ 4
      → IsU64 s
      → IsU64 f
      → All IsValidMessage ms
      → IsConfigured agent.drop_categories
      → let (reply, agent') =
          handle_frame e log db stack_buf FrameType.notify
            (payload flags s f (messages_wire ms))
            agent in
        let m = agent.drop_categories in
        (reply ≡ reply_to s f (any_bad db m (all_args ms)) (any_unsupported (all_args ms)))
        × ((name : List ℕ)
            → blocked name agent'.drop_categories
              ≡ (blocked name m + hits name db m (all_args ms)) % 2 ^ 64)
  handle_frame-messages flags s f ms agent room four hs hf valid h =
      let n : Notify = record { stream_id = s; frame_id = f; messages = ms } in
      rw
        (handle_frame-notify FrameType.notify (payload flags s f (messages_wire ms)) n agent
          (parse-notify flags s f ms four hs hf valid))
        (
          ap caught (handle_notify_lem e log db stack_buf n agent room hs hf h),
          λ name. handle_notify-blocked n agent name h,
        )

  handle_frame_hello :
      (type : FrameType) (bytes : List ℕ) (h : HaproxyHello) (agent : Agent)
      → parse type bytes ≡ ok (hello h)
      → handle_frame e log db stack_buf type bytes agent ≡ (
        caught (
            encode_agent_hello e h.stream_id h.frame_id h.max_frame_size >>= λ r.
            ok (send false r)),
        agent,
      )
  unfolding handle_frame
  handle_frame_hello type bytes h agent parsed = rw (parsed, handle_frame)

  handle_frame_throws :
      (type : FrameType) (bytes : List ℕ) (x : Error) (agent : Agent)
      → parse type bytes ≡ err x
      → handle_frame e log db stack_buf type bytes agent ≡ (send true [], agent)
  unfolding handle_frame
  handle_frame_throws type bytes x agent thrown = rw (thrown, handle_frame)

  -- A HELLO frame is answered by an AGENT-HELLO with its IDs and its frame size, which is 0 if it has none.
  pub handle_frame-hello :
      (flags : List ℕ) (s f : ℕ) (args : List Arg) (agent : Agent)
      → length flags ≡ 4
      → IsU64 s
      → IsU64 f
      → All IsValidArg args
      → let size = last_value (ascii "max-frame-size") TypedType.uint32 u32 0 args in
        handle_frame e log db stack_buf FrameType.haproxy_hello
          (payload flags s f (fields_wire args))
          agent
        ≡ (send false (with_length (answer_hello s f size)), agent)
  handle_frame-hello flags s f args agent four hs hf valid =
      let size = last_value (ascii "max-frame-size") TypedType.uint32 u32 0 args in
      let small : IsU32 size = last_u32 (ascii "max-frame-size") 0 args (omega arith) valid in
      handle_frame_hello FrameType.haproxy_hello (payload flags s f (fields_wire args))
        (last_hello (empty_hello s f) args) agent (parse-hello flags s f args four hs hf valid)
      ∙ rw (
          encode_agent_hello-framed e s f size hs hf small
          ∙ framed_fits (answer_hello s f size) (length-answer_hello s f size small))

  -- A frame of a type that HAProxy does not send, whatever its bytes, ends the connection without a
  -- reply.
  pub handle_frame-unexpected :
      (type : FrameType) (bytes : List ℕ) (agent : Agent)
      → ((g : InFrame) → kind g ≢ type)
      → handle_frame e log db stack_buf type bytes agent ≡ (send true [], agent)
  handle_frame-unexpected type bytes agent other = unexpected (parse type bytes) refl
    where
      unexpected :
          (o : Result InFrame)
          → parse type bytes ≡ o
          → handle_frame e log db stack_buf type bytes agent ≡ (send true [], agent)
      unexpected (ok g) parsed = absurd (other g (parse-kind type bytes g parsed))
      unexpected (err x) thrown = handle_frame_throws type bytes x agent thrown
