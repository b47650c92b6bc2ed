-- ===== src/Spoa/Frame/Ack.antt =====
-- AGENT-ACK: the encoder into a caller's span and the allocating one.
use haproxy_spoa_firehol_mmd.Prelude.{
  ℕ, ◌+◌, ◌-◌, ◌≤◌, ◌≡◌, sym, ap, ◌∙◌, List, [], ◌∷◌, ◌++◌, append-nil, arith, ltb, lt→ltb, le→ltb,
  ltb→le, Bool-cases, if◌then◌else◌, inl, inr,
}
use haproxy_spoa_firehol_mmd.Prelude.Lists.{
  length, All, length-append, take_all, replicate, length-replicate, overwrite, overwrite_end,
}
use haproxy_spoa_firehol_mmd.Prelude.Bytes.{IsU64}
use haproxy_spoa_firehol_mmd.Prelude.Result.{frame_too_long, Result, ok, err, ◌>>=◌}
use haproxy_spoa_firehol_mmd.Spoa.Writer.{Endian}
use haproxy_spoa_firehol_mmd.Spoa.Writer.Words.{be32, length-be32}
use haproxy_spoa_firehol_mmd.Spoa.Writer.Writes.{
  Writes, Writes-done, Writes-then, Writes-byte, Writes-bytes, Writes-varint, Writes-string,
  Writes-u32_be,
}
use haproxy_spoa_firehol_mmd.Spoa.TypedData.Encode.{encode-Writes}
use haproxy_spoa_firehol_mmd.Spoa.Frame.{
  FrameType, AckVar, frame_code, scope_code, flags_fin, action_set_var, set_var_arg_count, max_size,
  ack_frame_size, write_var, write_vars, write_ack, encode_agent_ack_into, encode_agent_ack, resize,
  frame_size,
}
use haproxy_spoa_firehol_mmd.Spoa.Frame.Sizes.{
  checked, checked-cases, checked-bind, var_wire, vars_wire, vars_size_lem, frame_body,
  frame_size_lem, IsValidVar,
}
use haproxy_spoa_firehol_mmd.Spoa.Frame.Fields.{framed, framed_fits, framed_over, payload_short}

write_var-Writes : (v : AckVar) → IsValidVar v → Writes (write_var v) (var_wire v)
unfolding write_var
write_var-Writes v (n, h) = Writes-then (Writes-byte action_set_var) (
    Writes-then (Writes-byte set_var_arg_count) (
      Writes-then (Writes-byte (scope_code v.scope))
        (Writes-then (Writes-string v.name n) (encode-Writes v.value h))))

write_vars-Writes :
    (vars : List AckVar) → All IsValidVar vars → Writes (write_vars vars) (vars_wire vars)
unfolding write_vars
write_vars-Writes [] h = Writes-done
write_vars-Writes (v ∷ vars) (hv, h) =
    Writes-then (write_var-Writes v hv) (write_vars-Writes vars h)

-- What an acknowledgement holds behind its length.
abbrev pub ack_body : ℕ → ℕ → List AckVar → List ℕ
ack_body s f vars = frame_body FrameType.agent_ack s f (vars_wire vars)

write_ack-Writes :
    (e : Endian) (size s f : ℕ) (vars : List AckVar)
    → size ≤ max_size
    → IsU64 s
    → IsU64 f
    → All IsValidVar vars
    → Writes (write_ack e size s f vars) (be32 size ++ ack_body s f vars)
unfolding write_ack
write_ack-Writes e size s f vars small hs hf h = Writes-then (Writes-u32_be e size (omega arith)) (
    Writes-then (Writes-byte (frame_code FrameType.agent_ack)) (
      Writes-then (Writes-bytes flags_fin) (
        Writes-then (Writes-varint s hs)
          (Writes-then (Writes-varint f hf) (write_vars-Writes vars h)))))

ack_frame_size_lem :
    (s f : ℕ) (vars : List AckVar)
    → IsU64 s
    → IsU64 f
    → All IsValidVar vars
    → ack_frame_size s f vars ≡ checked (length (ack_body s f vars))
unfolding ack_frame_size
ack_frame_size_lem s f vars hs hf h =
    let payload = vars_wire vars in
    let zero_add : 0 + length payload ≡ length payload = omega arith in
    rw (vars_size_lem 0 vars h (omega arith) ∙ ap checked zero_add) (
      checked-bind (length payload) (length (ack_body s f vars)) (λ n. frame_size s f n)
        (λ _. frame_size_lem FrameType.agent_ack s f payload hs hf)
        (payload_short FrameType.agent_ack s f payload))

-- What `encode_agent_ack_into` owes: 0 and an untouched span where the frame has no room, and
-- otherwise the frame at the front of the span and its length.
abbrev pub ack_into : List ℕ → List ℕ → Result (List ℕ × ℕ)
ack_into out body =
    if ltb max_size (length body)
    then err frame_too_long
    else if ltb (length out) (4 + length body)
    then ok (out, 0)
    else ok (overwrite out 0 (be32 (length body) ++ body), 4 + length body)

ack_written :
    (e : Endian) (out : List ℕ) (s f : ℕ) (vars : List AckVar)
    → length (ack_body s f vars) ≤ max_size
    → 4 + length (ack_body s f vars) ≤ length out
    → IsU64 s
    → IsU64 f
    → All IsValidVar vars
    → let body = ack_body s f vars in
      write_ack e (length body) s f vars (record { buffer = out; pos = 0 })
      ≡ ok (record { buffer = overwrite out 0 (be32 (length body) ++ body); pos = 4 + length body })
ack_written e out s f vars small room hs hf h =
    let body = ack_body s f vars in
    (write_ack-Writes e (length body) s f vars small hs hf h).run (record { buffer = out; pos = 0 })
      (omega arith)
    ∙ ground (arith, length-append (be32 (length body)) body, length-be32 (length body))

-- With valid variables `encode_agent_ack_into` throws only for a frame beyond 32 bits, returns 0 and
-- leaves the span alone only where the frame has no room, and otherwise writes the whole frame at
-- the front of the span, leaves the bytes behind it, and returns its length.
pub encode_agent_ack_into_lem :
    (e : Endian) (out : List ℕ) (s f : ℕ) (vars : List AckVar)
    → IsU64 s
    → IsU64 f
    → All IsValidVar vars
    → encode_agent_ack_into e out s f vars ≡ ack_into out (ack_body s f vars)
unfolding encode_agent_ack_into
encode_agent_ack_into_lem e out s f vars hs hf h =
    let body = ack_body s f vars in
    rw (ack_frame_size_lem s f vars hs hf h) (elim (checked-cases (length body)) [
      | inl (fits, c) ↦
          rw (c, ◌>>=◌, le→ltb max_size (length body) fits)
            (elim (Bool-cases (ltb (length out) (4 + length body))) [
              | inl full ↦ rw full
              | inr room ↦ rw (room, ack_written e out s f vars fits (ltb→le _ _ room) hs hf h)
            ])
      | inr (over, c) ↦ rw (c, ◌>>=◌, lt→ltb max_size (length body) over)
    ])

resize_same : (n : ℕ) (out : List ℕ) → n ≡ length out → resize n out ≡ out
unfolding resize
resize_same n out e =
    ap (λ (t : List ℕ). t ++ replicate (n - length out) 0) (take_all n out (omega arith))
    ∙ ap (λ (k : ℕ). out ++ replicate k 0) (let z : n - length out ≡ 0 = omega arith in z)
    ∙ append-nil out

-- With a span of just the frame's size.
ack_into_exact :
    (body : List ℕ)
    → length body ≤ max_size
    → ack_into (replicate (4 + length body) 0) body
      ≡ ok (be32 (length body) ++ body, 4 + length body)
ack_into_exact body h =
    let zeros : List ℕ = replicate (4 + length body) 0 in
    let room : length zeros ≡ 4 + length body = length-replicate (4 + length body) 0 in
    let frame : length (be32 (length body) ++ body) ≡ 4 + length body =
      omega (arith, length-append (be32 (length body)) body, length-be32 (length body)) in
    rw (le→ltb max_size (length body) h, le→ltb (length zeros) (4 + length body) (omega arith))
      (ap (λ (t : List ℕ). ok (t, 4 + length body))
        (overwrite_end [] zeros (be32 (length body) ++ body) (room ∙ sym frame)))

-- With valid variables the allocating encoder gives the frame, or throws where it exceeds 32 bits.
pub encode_agent_ack-framed :
    (e : Endian) (s f : ℕ) (vars : List AckVar)
    → IsU64 s
    → IsU64 f
    → All IsValidVar vars
    → encode_agent_ack e s f vars ≡ framed (ack_body s f vars)
unfolding encode_agent_ack
encode_agent_ack-framed e s f vars hs hf h =
    let body = ack_body s f vars in
    rw (ack_frame_size_lem s f vars hs hf h) (elim (checked-cases (length body)) [
      | inl (fits, c) ↦
          rw
            (
              c,
              ◌>>=◌,
              encode_agent_ack_into_lem e (replicate (4 + length body) 0) s f vars hs hf h
                  ∙ ack_into_exact body fits,
            )
            (ap ok (
                resize_same (4 + length body) (be32 (length body) ++ body) (
                  omega
                    (arith, length-append (be32 (length body)) body, length-be32 (length body))))
              ∙ sym (framed_fits body fits))
      | inr (over, c) ↦ rw (c, ◌>>=◌) (sym (framed_over body over))
    ])
