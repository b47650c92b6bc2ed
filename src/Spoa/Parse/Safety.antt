-- ===== src/Spoa/Parse/Safety.antt =====
-- Every payload is parsed to a frame or refused with an error of the program: the loops end, within
-- the fuel that they are given, and no read leaves the payload.
use haproxy_spoa_firehol_mmd.Prelude.{
  ℕ, zero, suc, ◌/◌, ◌≤◌, refl, ap, List, [], ◌∷◌, arith, ltb, Bool-cases, inl, inr,
}
use haproxy_spoa_firehol_mmd.Prelude.Lists.{length}
use haproxy_spoa_firehol_mmd.Prelude.Result.{Result, ok, err}
use haproxy_spoa_firehol_mmd.Spoa.Reader.{Reader, Read, ◌>>=◌, pure, remaining, is_empty}
use haproxy_spoa_firehol_mmd.Spoa.Reader.Bounds.{
  Moves, Moves-later, Moves-bind, Safe, Safe-pure, Safe-bind, Safe-weaken, Safe-bytes, Safe-byte,
  Safe-varint, Safe-string,
}
use haproxy_spoa_firehol_mmd.Spoa.TypedData.Decode.{decode-Safe}
use haproxy_spoa_firehol_mmd.Spoa.Message.{Arg}
use haproxy_spoa_firehol_mmd.Spoa.Frame.{FrameType}
use haproxy_spoa_firehol_mmd.Spoa.Parse.{
  hello, disconnect, notify, read_arg, for_each_field, visit_hello, empty_hello, parse_hello,
  visit_disconnect, empty_disconnect, parse_disconnect, read_args, check_arg_count, read_message,
  read_messages, parse_notify, parse_body, read_frame,
}

read_arg-Safe : Safe 1 read_arg
unfolding read_arg
read_arg-Safe =
    Safe-weaken 1 (omega arith)
      (Safe-bind _ Safe-string (λ name. Safe-bind _ decode-Safe (λ value. Safe-pure _)))

-- One round of a loop that goes on in `next`, after a read that moves.
round-Moves {ℓ κ} :
    {A : Type ℓ} {B : Type κ} (fuel : ℕ) (next : A → Read B) (r : Reader) (o : Result (A × Reader))
    → Moves 1 r o
    → remaining r ≤ suc fuel
    → ((a : A) (r' : Reader)
        → r'.pos ≤ length r'.buf
        → remaining r' ≤ fuel
        → Moves 0 r' (next a r'))
    → Moves 0 r (elim o [ ok (a, r') ↦ next a r' | err e ↦ err e ])
unfolding remaining
round-Moves fuel next r (ok (a, r')) (same, far, inside) le k =
    let same_length = ap length same in
    Moves-later 0 0 r r' (next a r') same (omega arith) (k a r' (omega arith) (omega arith))
round-Moves fuel next r (err e) h le k = h

module _ {ℓ} {S : Type ℓ} (visit : S → Arg → S) where
  for_each_field-Moves :
      (fuel : ℕ) (s : S) (r : Reader)
      → r.pos ≤ length r.buf
      → remaining r ≤ fuel
      → Moves 0 r (for_each_field visit fuel s r)
  unfolding for_each_field
  for_each_field-Moves zero s r h le = elim (Bool-cases (is_empty r)) [
    | inl done ↦ rw done (refl, omega arith, h)
    | inr more ↦ absurd (unfold is_empty in ground arith)
  ]
  for_each_field-Moves (suc fuel) s r h le = elim (Bool-cases (is_empty r)) [
    | inl done ↦ rw done (refl, omega arith, h)
    | inr more ↦ rw more (
        round-Moves fuel (λ a. for_each_field visit fuel (visit s a)) r (read_arg r)
          (read_arg-Safe.run r h) le
          (λ a r' h' le'. for_each_field-Moves fuel (visit s a) r' h' le'))
  ]

read_args-Safe : (count : ℕ) → Safe 0 (read_args count)
unfolding read_args
read_args-Safe zero = Safe-pure []
read_args-Safe (suc count) = Safe-weaken 0 (omega arith) (
    Safe-bind _ read_arg-Safe
      (λ a. Safe-bind _ (read_args-Safe count) (λ args. Safe-pure (a ∷ args))))

check_arg_count-Moves :
    (count : ℕ) (r : Reader) → r.pos ≤ length r.buf → Moves 0 r (check_arg_count count r)
unfolding check_arg_count
check_arg_count-Moves count r h = elim (Bool-cases (ltb (remaining r / 2) count)) [
  | inl over ↦ rw over (λ e. cc)
  | inr fits ↦ rw fits (refl, omega arith, h)
]

read_message-Safe : Safe 1 read_message
unfolding read_message
read_message-Safe = Safe-weaken 1 (omega arith) (
    Safe-bind _ Safe-string (λ name. Safe-bind _ Safe-byte (λ count.
      Safe-bind _ (record { run = check_arg_count-Moves count })
        (λ u. Safe-bind _ (read_args-Safe count) (λ args. Safe-pure _)))))

read_messages-Moves :
    (fuel : ℕ) (r : Reader)
    → r.pos ≤ length r.buf
    → remaining r ≤ fuel
    → Moves 0 r (read_messages fuel r)
unfolding read_messages
read_messages-Moves zero r h le = elim (Bool-cases (is_empty r)) [
  | inl done ↦ rw done (refl, omega arith, h)
  | inr more ↦ absurd (unfold is_empty in ground arith)
]
read_messages-Moves (suc fuel) r h le = elim (Bool-cases (is_empty r)) [
  | inl done ↦ rw done (refl, omega arith, h)
  | inr more ↦ rw more (
      round-Moves fuel (λ m. read_messages fuel >>= λ ms. pure (m ∷ ms)) r (read_message r)
        (read_message-Safe.run r h) le
        (λ m r' h' le'.
          Moves-bind 0 0 (λ ms. pure (m ∷ ms)) (λ ms. Safe-pure (m ∷ ms)) r' (read_messages fuel r')
            (read_messages-Moves fuel r' h' le')))
]

-- The switch, with the fuel that it hands to the loops.
parse_body-Safe : (type : FrameType) (s f : ℕ) → Safe 0 (parse_body type s f)
unfolding parse_body parse_hello parse_disconnect parse_notify
parse_body-Safe FrameType.haproxy_hello s f =
    Safe-bind _
      (record {
        run = λ r h.
            for_each_field-Moves visit_hello (remaining r) (empty_hello s f) r h (omega arith);
      })
      (λ h. Safe-pure (hello h))
parse_body-Safe FrameType.haproxy_disconnect s f =
    Safe-bind _
      (record {
        run = λ r h.
            for_each_field-Moves visit_disconnect (remaining r) (empty_disconnect s f) r h
              (omega arith);
      })
      (λ d. Safe-pure (disconnect d))
parse_body-Safe FrameType.notify s f =
    Safe-bind _
      (record {
        run = λ r h.
            Moves-bind 0 0 _ (λ ms. Safe-pure _) r (read_messages (remaining r) r)
              (read_messages-Moves (remaining r) r h (omega arith));
      })
      (λ n. Safe-pure (notify n))
parse_body-Safe FrameType.agent_hello s f = record { run = λ r h e. cc }
parse_body-Safe FrameType.agent_disconnect s f = record { run = λ r h e. cc }
parse_body-Safe FrameType.agent_ack s f = record { run = λ r h e. cc }
parse_body-Safe (FrameType.other n) s f = record { run = λ r h e. cc }

read_frame-Safe : (type : FrameType) → Safe 6 (read_frame type)
unfolding read_frame
read_frame-Safe type = Safe-weaken 6 (omega arith) (
    Safe-bind _ (Safe-bytes 4) (λ flags.
      Safe-bind _ Safe-varint (λ s. Safe-bind _ Safe-varint (λ f. parse_body-Safe type s f))))

-- For every frame type and every payload `parse` ends. A frame comes only from a payload of at least
-- 6 bytes, none of the reads leaves the payload, and otherwise an exception of the program is thrown,
-- never the model's `stuck`.
pub read_frame-Moves :
    (type : FrameType) (payload : List ℕ)
    → let start : Reader = record { buf = payload; pos = 0 } in
      Moves 6 start (read_frame type start)
read_frame-Moves type payload =
    (read_frame-Safe type).run (record { buf = payload; pos = 0 }) (omega arith)
