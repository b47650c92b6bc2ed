-- ===== src/Spoa/Server.antt =====
-- The connection of src/spoa/spoa_server.cpp: `process_one_frame` and `handle_connection`. The input is
-- what the peer sends until it closes; `read_exactly` takes as many bytes as there are, up to the number
-- asked for. Seastar's `read_be` is a parameter.
pub mod Ends
pub mod Serve
use haproxy_spoa_firehol_mmd.Prelude.{
  ℕ, zero, suc, ◌+◌, ◌-◌, ◌==◌, Bool, true, false, ◌&&◌, ◌||◌, List, [], ◌∷◌, ◌++◌, Option, none,
  some, ltb, leb, if◌then◌else◌,
}
use haproxy_spoa_firehol_mmd.Prelude.Lists.{length, take, drop}
use haproxy_spoa_firehol_mmd.Spoa.Writer.{Endian}
use haproxy_spoa_firehol_mmd.Spoa.Frame.{FrameType}
use haproxy_spoa_firehol_mmd.Spoa.Database.{Library}
use haproxy_spoa_firehol_mmd.Spoa.Agent.{Agent, Reply, handle_frame}

-- What the environment decides in a round: the arguments of `handle_frame`, and whether its future is
-- available at once. It is not when the write has to wait for the peer.
pub record World : Type 0 where
  pub endian : Endian
  pub log : Bool
  pub snapshot : Option Library
  pub stack_buf : List ℕ
  pub available : Bool

-- `in`, `out`, the agent, and the number of futures in `pipeline`.
pub record Connection : Type 0 where
  pub input : List ℕ
  pub output : List ℕ
  pub agent : Agent
  pub pipeline : ℕ

-- `static_cast<frame::FrameType>(byte)`
unfoldable pub frame_type : ℕ → FrameType
frame_type b =
    if b == 0x01
    then FrameType.haproxy_hello
    else if b == 0x02
    then FrameType.haproxy_disconnect
    else if b == 0x03
    then FrameType.notify
    else if b == 0x65
    then FrameType.agent_hello
    else if b == 0x66
    then FrameType.agent_disconnect
    else if b == 0x67
    then FrameType.agent_ack
    else FrameType.other b

-- `kFrameLengthSize`
abbrev pub frame_length_size : ℕ
frame_length_size = 4

-- `pipeline.push_back`, and the wait for the front from 128 on.
unfoldable pub push_pipeline : Connection → Connection
push_pipeline c =
    let pushed = c.pipeline + 1 in
    record c { pipeline = if leb 128 pushed then pushed - 1 else pushed }

-- The frame has been read, and is not empty. `true` is stop_iteration::yes.
unfoldable pub dispatch : World → ℕ → List ℕ → Connection → Connection × Bool
dispatch w type payload c =
    let (reply, agent) =
      handle_frame w.endian w.log w.snapshot w.stack_buf (frame_type type) payload c.agent in
    let c' : Connection = record c { output = c.output ++ reply.sent; agent = agent } in
    if w.available && reply.stop then (c', true) else (push_pipeline c', false)

module _ (read_be : List ℕ → ℕ) where
  unfoldable pub process_one_frame : World → Connection → Connection × Bool
  process_one_frame w c =
      let len = take frame_length_size c.input in
      let behind = drop frame_length_size c.input in
      let size = read_be len in
      let frame = take size behind in
      let rest = drop size behind in
      if ltb (length len) frame_length_size
      then (record c { input = behind }, true)
      else if ltb (length frame) size
      then (record c { input = rest }, true)
      else (elim frame [
        | [] ↦ (record c { input = rest }, true)
        | type ∷ payload ↦ dispatch w type payload (record c { input = rest })
      ])

  -- `repeat`, on fuel: `none` is fuel that runs out. Round k runs in the world `worlds k`.
  unfoldable pub repeat_frames : (ℕ → World) → ℕ → ℕ → Connection → Option Connection
  repeat_frames worlds zero k c = none
  repeat_frames worlds (suc fuel) k c =
      let (c', stop) = process_one_frame (worlds k) c in
      let more = repeat_frames worlds fuel (suc k) c' in if stop then some c' else more

  -- Each round that goes on takes a byte at least. At the end the pipeline is waited for.
  unfoldable pub handle_connection : (ℕ → World) → Connection → Option Connection
  handle_connection worlds c = elim (repeat_frames worlds (length c.input + 1) 0 c) [
    | none ↦ none
    | some c' ↦ some (record c' { pipeline = 0 })
  ]
