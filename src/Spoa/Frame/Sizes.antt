-- ===== src/Spoa/Frame/Sizes.antt =====
-- The sizes that the encoders add up beforehand are the lengths of what they write, and the only
-- thing that they refuse is a frame that does not fit the 32-bit length.
use haproxy_spoa_firehol_mmd.Prelude.{
  ℕ, ◌+◌, ◌≤◌, ◌<◌, ◌≡◌, sym, ap, ◌∙◌, List, [], ◌∷◌, ◌++◌, arith, leb, if◌then◌else◌, Bool-cases,
  inl, inr, ◌⊎◌,
}
use haproxy_spoa_firehol_mmd.Prelude.Lists.{length, All, length-append}
use haproxy_spoa_firehol_mmd.Prelude.Bytes.{IsU64}
use haproxy_spoa_firehol_mmd.Prelude.Result.{frame_too_long, Result, ok, err, ◌>>=◌}
use haproxy_spoa_firehol_mmd.Spoa.Varint.Encoding.{encoding}
use haproxy_spoa_firehol_mmd.Spoa.Varint.Encode.{encoded_size-length}
use haproxy_spoa_firehol_mmd.Spoa.Reader.Reads.{prefixed}
use haproxy_spoa_firehol_mmd.Spoa.Writer.{length_prefixed_size}
use haproxy_spoa_firehol_mmd.Spoa.Writer.Writes.{length_prefixed_size-length}
use haproxy_spoa_firehol_mmd.Spoa.TypedData.{TypedData}
use haproxy_spoa_firehol_mmd.Spoa.TypedData
use haproxy_spoa_firehol_mmd.Spoa.TypedData.Wire.{IsValid, wire}
use haproxy_spoa_firehol_mmd.Spoa.TypedData.Encode.{encoded_size-length-wire}
use haproxy_spoa_firehol_mmd.Spoa.Message.{Arg}
use haproxy_spoa_firehol_mmd.Spoa.Frame.{
  AckVar, max_size, add_size, field_size, frame_size, fields_size, vars_size, scope_code, flags_fin,
  FrameType, frame_code, action_set_var, set_var_arg_count,
}

-- A size, if a frame may have it.
abbrev pub checked : ℕ → Result ℕ
checked n = if leb n max_size then ok n else err frame_too_long

add_size_lem : (size extra : ℕ) → add_size size extra ≡ checked (size + extra)
unfolding add_size
add_size_lem size extra = ground arith

pub checked-cases :
    (n : ℕ)
    → ((n ≤ max_size) × (checked n ≡ ok n)) ⊎ ((max_size < n) × (checked n ≡ err frame_too_long))
checked-cases n = elim (Bool-cases (leb n max_size)) [
  | inl fits ↦ inl (ground arith, rw fits)
  | inr over ↦ inr (ground arith, rw over)
]

pub checked_over : (n : ℕ) → max_size < n → checked n ≡ err frame_too_long
checked_over n h = ground arith

-- Sums of checked sizes are checked sums.
pub checked-bind :
    (a b : ℕ) (f : ℕ → Result ℕ)
    → (a ≤ max_size → f a ≡ checked b)
    → a ≤ b
    → (checked a >>= f) ≡ checked b
checked-bind a b f h le = elim (checked-cases a) [
  | inl (fits, e) ↦ rw (e, ◌>>=◌) (h fits)
  | inr (over, e) ↦ rw (e, ◌>>=◌) (sym (checked_over b (omega arith)))
]

add_size-bind :
    (size extra total : ℕ) (f : ℕ → Result ℕ)
    → (size + extra ≤ max_size → f (size + extra) ≡ checked total)
    → size + extra ≤ total
    → (add_size size extra >>= f) ≡ checked total
add_size-bind size extra total f h le =
    rw (add_size_lem size extra) (checked-bind (size + extra) total f h le)

-- The wire form of a field, and the members of a C++ argument.
abbrev pub field_wire : List ℕ → TypedData → List ℕ
field_wire name value = prefixed name ++ wire value

abbrev pub IsValidArg : Arg → Type 0
IsValidArg a = IsU64 (length a.name) × IsValid a.value

abbrev pub IsValidVar : AckVar → Type 0
IsValidVar v = IsU64 (length v.name) × IsValid v.value

pub field_size_lem :
    (name : List ℕ) (value : TypedData)
    → IsU64 (length name)
    → IsValid value
    → field_size name value ≡ checked (length (field_wire name value))
unfolding field_size
field_size_lem name value n v =
    add_size_lem (length_prefixed_size (length name)) (TypedData.encoded_size value)
    ∙ ap checked (
        omega (
          arith,
          length_prefixed_size-length name n,
          encoded_size-length-wire value v,
          length-append (prefixed name) (wire value),
        ))

abbrev pub fields_wire : List Arg → List ℕ
fields_wire [] = []
fields_wire (a ∷ fields) = field_wire a.name a.value ++ fields_wire fields

pub fields_size_lem :
    (size : ℕ) (fields : List Arg)
    → All IsValidArg fields
    → size ≤ max_size
    → fields_size size fields ≡ checked (size + length (fields_wire fields))
unfolding fields_size
fields_size_lem size [] h le = ground arith
fields_size_lem size (a ∷ fields) ((n, v), h) le =
    let f = length (field_wire a.name a.value) in
    let total = size + length (fields_wire (a ∷ fields)) in
    let sum : size + f + length (fields_wire fields) ≡ total =
      omega (arith, length-append (field_wire a.name a.value) (fields_wire fields)) in
    rw (field_size_lem a.name a.value n v) (
      checked-bind f total (λ extra. add_size size extra >>= λ s. fields_size s fields)
        (λ _.
          add_size-bind size f total (λ s. fields_size s fields)
            (λ fits. fields_size_lem (size + f) fields h fits ∙ ap checked sum) (omega arith))
        (omega arith))

abbrev pub var_wire : AckVar → List ℕ
var_wire v = action_set_var ∷ set_var_arg_count ∷ scope_code v.scope ∷ field_wire v.name v.value

abbrev pub vars_wire : List AckVar → List ℕ
vars_wire [] = []
vars_wire (v ∷ vars) = var_wire v ++ vars_wire vars

pub vars_size_lem :
    (size : ℕ) (vars : List AckVar)
    → All IsValidVar vars
    → size ≤ max_size
    → vars_size size vars ≡ checked (size + length (vars_wire vars))
unfolding vars_size
vars_size_lem size [] h le = ground arith
vars_size_lem size (a ∷ vars) ((n, v), h) le =
    let f = length (field_wire a.name a.value) in
    let total = size + length (vars_wire (a ∷ vars)) in
    let sum : size + 3 + f + length (vars_wire vars) ≡ total =
      omega (arith, length-append (var_wire a) (vars_wire vars)) in
    let rest = λ (t : ℕ). vars_size t vars in
    add_size-bind size 3 total
      (λ s. field_size a.name a.value >>= λ extra. add_size s extra >>= rest)
      (λ _. rw (field_size_lem a.name a.value n v) (
        checked-bind f total (λ extra. add_size (size + 3) extra >>= rest)
          (λ _.
            add_size-bind (size + 3) f total rest
              (λ fits. vars_size_lem (size + 3 + f) vars h fits ∙ ap checked sum) (omega arith))
          (omega arith)))
      (omega arith)

-- What a frame holds behind its length, around the given payload.
abbrev pub frame_body : FrameType → ℕ → ℕ → List ℕ → List ℕ
frame_body type stream_id frame_id payload =
    frame_code type ∷ (flags_fin ++ (encoding stream_id ++ (encoding frame_id ++ payload)))

pub frame_size_lem :
    (type : FrameType) (stream_id frame_id : ℕ) (payload : List ℕ)
    → IsU64 stream_id
    → IsU64 frame_id
    → frame_size stream_id frame_id (length payload)
      ≡ checked (length (frame_body type stream_id frame_id payload))
unfolding frame_size
frame_size_lem type s f payload hs hf =
    let outer = length-append (encoding s) (encoding f ++ payload) in
    let inner = length-append (encoding f) payload in
    let es = encoded_size-length s hs in
    let ef = encoded_size-length f hf in
    add_size-bind _ _ _ _
      (λ _.
        add_size-bind _ _ _ _
          (λ _. add_size_lem _ _ ∙ ap checked (omega (arith, outer, inner, es, ef)))
          (omega (arith, outer, inner, es, ef)))
      (omega (arith, outer, inner, es, ef))
