-- ===== src/Spoa/Server/Serve.antt =====
-- A connection serves the frames that it is sent, one by one and in order.
use haproxy_spoa_firehol_mmd.Prelude.{
  ℕ, zero, suc, ◌+◌, ◌≤◌, ◌<◌, ◌^◌, ◌≡◌, refl, sym, ap, ◌∙◌, Bool, true, false, ◌&&◌, List, [], ◌∷◌,
  ◌++◌, append_assoc, append-nil, some, arith, ltb, le→ltb, if◌then◌else◌, Bool-cases, inl, inr,
}
use haproxy_spoa_firehol_mmd.Prelude.Lists.{
  length, take, drop, All, take-append, drop-append, length-append,
}
use haproxy_spoa_firehol_mmd.Spoa.Writer.Words.{be32}
use haproxy_spoa_firehol_mmd.Spoa.Agent.{Agent, Reply, handle_frame}
use haproxy_spoa_firehol_mmd.Spoa.Agent.Answer.{with_length}
use haproxy_spoa_firehol_mmd.Spoa.Server.{
  World, Connection, frame_type, push_pipeline, dispatch, process_one_frame, repeat_frames,
  handle_connection, frame_length_size,
}

-- A frame as the peer means it: the byte of its type and its payload.
pub record Request : Type 0 where
  pub type : ℕ
  pub payload : List ℕ

abbrev pub request_body : Request → List ℕ
request_body q = q.type ∷ q.payload

abbrev pub FitsLength : Request → Type 0
FitsLength q = length (request_body q) < 2 ^ 32

abbrev pub requests_wire : List Request → List ℕ
requests_wire [] = []
requests_wire (q ∷ qs) = with_length (request_body q) ++ requests_wire qs

-- The reply to a request.
abbrev pub reply_of : World → Request → Agent → Reply × Agent
reply_of w q agent =
    handle_frame w.endian w.log w.snapshot w.stack_buf (frame_type q.type) q.payload agent

-- The specification: the bytes of the replies, up to the first one that stops the connection, and the
-- agent after them. A reply that is not available at once does not stop it.
unfoldable pub serve : (ℕ → World) → ℕ → List Request → Agent → List ℕ × Agent
serve worlds k [] agent = ([], agent)
serve worlds k (q ∷ qs) agent =
    let (reply, agent') = reply_of (worlds k) q agent in
    let (more, last) = serve worlds (suc k) qs agent' in
    if (worlds k).available && reply.stop then (reply.sent, agent') else (reply.sent ++ more, last)

take-be32 : (n : ℕ) (xs : List ℕ) → take 4 (be32 n ++ xs) ≡ be32 n
unfolding be32
take-be32 n xs = refl

drop-be32 : (n : ℕ) (xs : List ℕ) → drop 4 (be32 n ++ xs) ≡ xs
unfolding be32
drop-be32 n xs = refl

-- What a round does with the bytes of the length, those behind them, the length read, the frame and
-- what is behind it.
abbrev after_length : World → Connection → List ℕ → List ℕ → ℕ → List ℕ → List ℕ → Connection × Bool
after_length w c len behind size frame rest =
    if ltb (length len) frame_length_size
    then (record c { input = behind }, true)
    else if ltb (length frame) size
    then (record c { input = rest }, true)
    else (elim frame [
      | [] ↦ (record c { input = rest }, true)
      | type ∷ payload ↦ dispatch w type payload (record c { input = rest })
    ])

whole_frame :
    (w : World) (c : Connection) (len body more : List ℕ)
    → ltb (length len) 4 ≡ false
    → after_length w c len (body ++ more) (length body) body more
      ≡ elim body as (λ _. Connection × Bool) [
        | [] ↦ (record c { input = more }, true)
        | type ∷ payload ↦ dispatch w type payload (record c { input = more })
      ]
whole_frame w c len body more four = rw (four, le→ltb (length body) (length body) (omega arith))

module _ (read_be : List ℕ → ℕ) (read_be32 : (n : ℕ) → n < 2 ^ 32 → read_be (be32 n) ≡ n) where
  process_request :
      (w : World) (q : Request) (more : List ℕ) (c : Connection)
      → FitsLength q
      → c.input ≡ with_length (request_body q) ++ more
      → process_one_frame read_be w c ≡ dispatch w q.type q.payload (record c { input = more })
  unfolding process_one_frame
  process_request w q more c fits e =
      let body = request_body q in
      let n = length body in
      let split : c.input ≡ be32 n ++ (body ++ more) = e ∙ append_assoc (be32 n) body more in
      let front = ap (take 4) split ∙ take-be32 n (body ++ more) in
      let back = ap (drop 4) split ∙ drop-be32 n (body ++ more) in
      let read = λ (len behind : List ℕ) (size : ℕ).
        after_length w c len behind size (take size behind) (drop size behind) in
      ap (λ len. read len (drop 4 c.input) (read_be len)) front
      ∙ ap (λ behind. read (be32 n) behind (read_be (be32 n))) back
      ∙ ap (read (be32 n) (body ++ more)) (read_be32 n fits)
      ∙ ap (λ frame. after_length w c (be32 n) (body ++ more) n frame (drop n (body ++ more)))
          (take-append body more)
      ∙ ap (after_length w c (be32 n) (body ++ more) n body) (drop-append body more)
      ∙ whole_frame w c (be32 n) body more (unfold be32 in refl)

  -- At the end of the input the loop stops.
  process_end :
      (w : World) (c : Connection) → c.input ≡ [] → process_one_frame read_be w c ≡ (c, true)
  unfolding process_one_frame
  process_end w c e = rw e

  -- The connection after the reply to a request.
  abbrev served : World → Request → List Request → Connection → Connection
  served w q qs c =
      let (reply, agent) = reply_of w q c.agent in
      record c { input = requests_wire qs; output = c.output ++ reply.sent; agent = agent }

  abbrev stops : World → Request → Connection → Bool
  stops w q c = w.available && ((reply_of w q c.agent).0).stop

  request_stops :
      (w : World) (q : Request) (qs : List Request) (c : Connection)
      → FitsLength q
      → c.input ≡ requests_wire (q ∷ qs)
      → stops w q c ≡ true
      → process_one_frame read_be w c ≡ (served w q qs c, true)
  unfolding dispatch
  request_stops w q qs c fits e stop = process_request w q (requests_wire qs) c fits e ∙ rw stop

  request_goes_on :
      (w : World) (q : Request) (qs : List Request) (c : Connection)
      → FitsLength q
      → c.input ≡ requests_wire (q ∷ qs)
      → stops w q c ≡ false
      → process_one_frame read_be w c ≡ (push_pipeline (served w q qs c), false)
  unfolding dispatch
  request_goes_on w q qs c fits e go = process_request w q (requests_wire qs) c fits e ∙ rw go

  repeat_stops :
      (worlds : ℕ → World) (fuel k : ℕ) (c c' : Connection)
      → process_one_frame read_be (worlds k) c ≡ (c', true)
      → repeat_frames read_be worlds (suc fuel) k c ≡ some c'
  unfolding repeat_frames
  repeat_stops worlds fuel k c c' e = rw e

  repeat_goes_on :
      (worlds : ℕ → World) (fuel k : ℕ) (c c' : Connection)
      → process_one_frame read_be (worlds k) c ≡ (c', false)
      → repeat_frames read_be worlds (suc fuel) k c ≡ repeat_frames read_be worlds fuel (suc k) c'
  unfolding repeat_frames
  repeat_goes_on worlds fuel k c c' e = rw e

  -- What the loop owes: the replies are appended, and the agent is the last one.
  repeat_frames-serve :
      (worlds : ℕ → World) (fuel k : ℕ) (qs : List Request) (c : Connection)
      → All FitsLength qs
      → c.input ≡ requests_wire qs
      → length qs < fuel
      → (c' : Connection) × (repeat_frames read_be worlds fuel k c ≡ some c')
        × (c'.output ≡ c.output ++ (serve worlds k qs c.agent).0)
        × (c'.agent ≡ (serve worlds k qs c.agent).1)
  unfolding serve push_pipeline
  repeat_frames-serve worlds zero k qs c fits e le = absurd (omega arith)
  repeat_frames-serve worlds (suc fuel) k [] c fits e le = (
    c,
    repeat_stops worlds fuel k c c (process_end (worlds k) c e),
    sym (append-nil c.output),
    refl,
  )
  repeat_frames-serve worlds (suc fuel) k (q ∷ qs) c (fit, fits) e le =
      let w = worlds k in
      let c₁ = served w q qs c in
      elim (Bool-cases (stops w q c)) [
        | inl stop ↦ (
          c₁,
          repeat_stops worlds fuel k c c₁ (request_stops w q qs c fit e stop),
          rw stop,
          rw stop,
        )
        | inr go ↦
            let (c', run, out, last) =
              repeat_frames-serve worlds fuel (suc k) qs (push_pipeline c₁) fits refl
                (omega arith) in
            (
              c',
              repeat_goes_on worlds fuel k c (push_pipeline c₁) (request_goes_on w q qs c fit e go)
                  ∙ run,
              rw go (out ∙ append_assoc c.output ((reply_of w q c.agent).0).sent _),
              rw go last,
            )
      ]

  requests_long : (qs : List Request) → length qs ≤ length (requests_wire qs)
  requests_long [] = omega arith
  requests_long (q ∷ qs) = omega (
    arith,
    length-append (with_length (request_body q)) (requests_wire qs),
    length-append (be32 (length (request_body q))) (request_body q),
    requests_long qs,
  )

  -- A connection on which the peer sends any requests and closes sends the replies to them, in order,
  -- up to the first one that stops it, and leaves the agent as these requests do. A reply stops it only
  -- if its future is available at once.
  pub handle_connection-serve :
      (worlds : ℕ → World) (qs : List Request) (c : Connection)
      → All FitsLength qs
      → c.input ≡ requests_wire qs
      → (c' : Connection) × (handle_connection read_be worlds c ≡ some c')
        × (c'.output ≡ c.output ++ (serve worlds 0 qs c.agent).0)
        × (c'.agent ≡ (serve worlds 0 qs c.agent).1)
  unfolding handle_connection
  handle_connection-serve worlds qs c fits e =
      let (c', run, out, last) =
        repeat_frames-serve worlds (length c.input + 1) 0 qs c fits e
          (omega (arith, requests_long qs, ap length e)) in
      (record c' { pipeline = 0 }, rw (run, handle_connection), out, last)
