-- ===== src/Spoa/Agent.antt =====
-- src/spoa/spoa_agent.h and spoa_agent.cpp: the evaluation of requests and the replies. The database
-- snapshot is an argument, and so is `log`: whether the logger's level is info or below. A reply is
-- what is sent with the value of the future; `out` is an output stream of Seastar.
pub mod Lookup
pub mod Evaluate
pub mod Loop
pub mod Answer
pub mod Hello
pub mod Session
use haproxy_spoa_firehol_mmd.Prelude.{
  ℕ, ◌+◌, ◌%◌, ◌^◌, ◌==◌, Bool, true, false, not, ◌&&◌, ◌||◌, List, [], ◌∷◌, ◌++◌, Option, none,
  some, ltb, if◌then◌else◌,
}
use haproxy_spoa_firehol_mmd.Prelude.Lists.{take}
use haproxy_spoa_firehol_mmd.Prelude.Int.{ℤ}
use haproxy_spoa_firehol_mmd.Prelude.Text.{ascii}
use haproxy_spoa_firehol_mmd.Prelude.Result.{Result, ok, err, ◌>>=◌}
use haproxy_spoa_firehol_mmd.Spoa.Writer.{Endian}
use haproxy_spoa_firehol_mmd.Spoa.TypedData.{TypedType, TypedData}
use haproxy_spoa_firehol_mmd.Spoa.Message.{Arg, Message}
use haproxy_spoa_firehol_mmd.Spoa.Frame.{
  FrameType, VarScope, AckVar, encode_agent_hello, encode_agent_disconnect, encode_agent_ack_into,
  encode_agent_ack,
}
use haproxy_spoa_firehol_mmd.Spoa.Parse.{
  Notify, InFrame, hello, disconnect, notify, has_type, str, parse,
}
use haproxy_spoa_firehol_mmd.Spoa.Categories
use haproxy_spoa_firehol_mmd.Spoa.Categories.{Categories, is_nil, match_and_increment}
use haproxy_spoa_firehol_mmd.Spoa.Database.{
  LookupResult, Library, is_zero, lookup_ipv4, lookup_ipv6, lookup_string, for_each_category,
}

-- The members that requests change: `drop_categories_` and the counters of `metrics_`.
pub record Agent : Type 0 where
  pub drop_categories : Categories
  pub lookups : ℕ
  pub lookup_errors : ℕ

unfoldable pub load_drop_categories : List ℕ → Agent → Agent
load_drop_categories raw agent = record agent { drop_categories = Categories.load raw }

-- `SpoaMetrics::inc_lookups` and `inc_lookup_errors`, on a uint64_t.
unfoldable pub inc_lookups : Agent → Agent
inc_lookups agent = record agent { lookups = (agent.lookups + 1) % 2 ^ 64 }

unfoldable pub inc_lookup_errors : Agent → Agent
inc_lookup_errors agent = record agent { lookup_errors = (agent.lookup_errors + 1) % 2 ^ 64 }

-- What the lambda of `evaluate_lookup` captures.
pub record Visit : Type 0 where
  pub matched : List ℕ
  pub categories : List (List ℕ)
  pub counters : Categories

unfoldable pub visit_category : Bool → List ℕ → Visit → Visit × Bool
visit_category log category v =
    let step = match_and_increment category v.counters in
    let matched = if is_nil v.matched then step.0 else v.matched in
    let counters = if is_nil v.matched then step.1 else v.counters in
    let categories = if log then v.categories ++ (category ∷ []) else v.categories in
    (
      record { matched = matched; categories = categories; counters = counters },
      log || is_nil matched,
    )

unfoldable pub evaluate_lookup : Bool → Library → LookupResult × ℤ → Agent × Bool → Agent × Bool
evaluate_lookup log lib (result, mmdb_error) (agent, ip_bad) =
    let counted = inc_lookups agent in
    let start : Visit = record {
      matched = [];
      categories = [];
      counters = agent.drop_categories;
    } in
    let v = for_each_category lib (visit_category log) result start in
    if not (is_zero mmdb_error)
    then (inc_lookup_errors counted, ip_bad)
    else if not result.found_entry
    then (counted, ip_bad)
    else (
      record counted { drop_categories = v.counters },
      if is_nil v.matched then ip_bad else true,
    )

unfoldable pub is_supported : TypedData → Bool
is_supported v =
    has_type v TypedType.ipv4 || has_type v TypedType.ipv6 || has_type v TypedType.string

-- The switch of `evaluate_argument`.
unfoldable pub lookup_value : Library → TypedData → LookupResult × ℤ
lookup_value lib (TypedData.ipv4 octets) = lookup_ipv4 lib octets
lookup_value lib (TypedData.ipv6 octets) = lookup_ipv6 lib octets
lookup_value lib v = lookup_string lib (str v)

unfoldable pub evaluate_argument :
    Bool → Option Library → Arg → Agent × Bool → Bool × (Agent × Bool)
evaluate_argument log none a s = (is_supported a.value, s)
evaluate_argument log (some lib) a s =
    if is_supported a.value
    then (true, evaluate_lookup log lib (lookup_value lib a.value) s)
    else (false, s)

-- What `handle_notify` keeps while it goes through the arguments.
pub record Evaluation : Type 0 where
  pub agent : Agent
  pub ip_bad : Bool
  pub not_implemented : Bool

-- The inner and the outer loop.
unfoldable pub evaluate_args : Bool → Option Library → List Arg → Evaluation → Evaluation
evaluate_args log db [] e = e
evaluate_args log db (a ∷ args) e =
    let (supported, (agent, ip_bad)) = evaluate_argument log db a (e.agent, e.ip_bad) in
    evaluate_args log db args (record {
      agent = agent;
      ip_bad = ip_bad;
      not_implemented = if not supported then true else e.not_implemented;
    })

unfoldable pub evaluate_messages : Bool → Option Library → List Message → Evaluation → Evaluation
evaluate_messages log db [] e = e
evaluate_messages log db (m ∷ ms) e = evaluate_messages log db ms (evaluate_args log db m.args e)

-- The bytes that are written, and `stop_iteration`.
pub record Reply : Type 0 where
  pub sent : List ℕ
  pub stop : Bool

abbrev pub send : Bool → List ℕ → Reply
send stop bytes = record { sent = bytes; stop = stop }

-- `kStatusNotImplemented`
abbrev pub status_not_implemented : ℕ
status_not_implemented = 14

unfoldable pub ack_var : Bool → AckVar
ack_var ip_bad = record {
  scope = VarScope.session;
  name = ascii "ip_bad";
  value = TypedData.boolean ip_bad;
}

-- The answer to an evaluated frame. `stack_buf` has the indeterminate bytes of the buffer.
unfoldable pub answer : Endian → List ℕ → ℕ → ℕ → Evaluation → Result Reply
answer endian stack_buf stream_id frame_id e =
    if e.not_implemented
    then (do
      response ←
          encode_agent_disconnect endian 0 0 status_not_implemented
            (ascii "agent does not implement argument type")
      ok (send true response))
    else (do
      (out, written) ←
          encode_agent_ack_into endian stack_buf stream_id frame_id (ack_var e.ip_bad ∷ [])
      if ltb 0 written then ok (send false (take written out)) else do
        response ← encode_agent_ack endian stream_id frame_id (ack_var e.ip_bad ∷ [])
        ok (send false response))

unfoldable pub handle_notify :
    Endian → Bool → Option Library → List ℕ → Notify → Agent → Result Reply × Agent
handle_notify endian log db stack_buf n agent =
    let start : Evaluation = record { agent = agent; ip_bad = false; not_implemented = false } in
    let e = evaluate_messages log db n.messages start in
    (answer endian stack_buf n.stream_id n.frame_id e, e.agent)

-- `catch (const std::exception &)`: nothing is sent.
abbrev pub caught : Result Reply → Reply
caught (ok reply) = reply
caught (err e) = send true []

unfoldable pub handle_frame :
    Endian → Bool → Option Library → List ℕ → FrameType → List ℕ → Agent → Reply × Agent
handle_frame endian log db stack_buf type payload agent = elim (parse type payload) [
  | err e ↦ (caught (err e), agent)
  | ok (hello h) ↦ (
    caught (do
      response ← encode_agent_hello endian h.stream_id h.frame_id h.max_frame_size
      ok (send false response)),
    agent,
  )
  | ok (disconnect d) ↦ (send true [], agent)
  | ok (notify n) ↦
      let (result, agent') = handle_notify endian log db stack_buf n agent in
      (caught result, agent')
]
