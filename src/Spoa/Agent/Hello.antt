-- ===== src/Spoa/Agent/Hello.antt =====
-- The size of the answer to a HELLO frame.
use haproxy_spoa_firehol_mmd.Prelude.{
  ℕ, ◌≤◌, ◌≡◌, refl, ap, ◌&&◌, List, [], ◌∷◌, ◌++◌, arith, inl, inr, bytes_eq, Bool-cases,
}
use haproxy_spoa_firehol_mmd.Prelude.Lists.{length, All, length-append}
use haproxy_spoa_firehol_mmd.Prelude.Text.{ascii}
use haproxy_spoa_firehol_mmd.Prelude.Bytes.{IsU32}
use haproxy_spoa_firehol_mmd.Spoa.Varint.Encoding.{encoding, length-encoding}
use haproxy_spoa_firehol_mmd.Spoa.Message.{Arg}
use haproxy_spoa_firehol_mmd.Spoa.TypedData.{TypedType, TypedData, type_code, type_of}
use haproxy_spoa_firehol_mmd.Spoa.TypedData.Wire.{IsValid, header}
use haproxy_spoa_firehol_mmd.Spoa.TypedData.Wire
use haproxy_spoa_firehol_mmd.Spoa.Reader.Reads.{prefixed}
use haproxy_spoa_firehol_mmd.Spoa.Frame.{FrameType, max_size, arg, hello_fields}
use haproxy_spoa_firehol_mmd.Spoa.Frame.Sizes.{IsValidArg, fields_wire, frame_body}
use haproxy_spoa_firehol_mmd.Spoa.Parse.{has_type, u32}
use haproxy_spoa_firehol_mmd.Spoa.Parse.Hello.{last_value, updated}

-- The last value of a field of a valid list is in the range of its type.
pub last_u32 :
    (name : List ℕ) (old : ℕ) (args : List Arg)
    → IsU32 old
    → All IsValidArg args
    → IsU32 (last_value name TypedType.uint32 u32 old args)
last_u32 name old [] h valid = h
last_u32 name old (a ∷ args) h ((n, v), valid) =
    last_u32 name (updated name TypedType.uint32 u32 old a) args (updated_u32 name old a h v) valid
  where
    u32_range : (v : TypedData) → IsValid v → IsU32 (u32 v)
    u32_range (TypedData.uint32 n) h = h
    u32_range TypedData.null h = omega arith
    u32_range (TypedData.boolean b) h = omega arith
    u32_range (TypedData.int32 z) h = omega arith
    u32_range (TypedData.int64 z) h = omega arith
    u32_range (TypedData.uint64 n) h = omega arith
    u32_range (TypedData.ipv4 o) h = omega arith
    u32_range (TypedData.ipv6 o) h = omega arith
    u32_range (TypedData.string t) h = omega arith
    u32_range (TypedData.binary t) h = omega arith

    updated_u32 :
        (name : List ℕ) (old : ℕ) (a : Arg)
        → IsU32 old
        → IsValid a.value
        → IsU32 (updated name TypedType.uint32 u32 old a)
    updated_u32 name old a h v =
        elim (Bool-cases (bytes_eq a.name name && has_type a.value TypedType.uint32)) [
          | inl same ↦ rw same (u32_range a.value v)
          | inr other ↦ rw other h
        ]

-- The body of the answer to a HELLO frame.
abbrev pub answer_hello : ℕ → ℕ → ℕ → List ℕ
answer_hello s f size = frame_body FrameType.agent_hello s f (fields_wire (hello_fields size))

-- The fields of the answer: all but one encode a text.
hello_front : List ℕ
hello_front =
    fields_wire (arg (ascii "version") (TypedData.string (ascii "2.0")) ∷ [])
    ++ (prefixed (ascii "max-frame-size") ++ (3 ∷ []))

hello_back : List ℕ
hello_back = fields_wire (arg (ascii "capabilities") (TypedData.string (ascii "pipelining")) ∷ [])

length-hello_front : length hello_front ≡ 29
unfolding hello_front encoding Wire.payload header type_code type_of
length-hello_front = refl

length-hello_back : length hello_back ≡ 25
unfolding hello_back encoding Wire.payload header type_code type_of
length-hello_back = refl

hello_fields_split :
    (size : ℕ) → fields_wire (hello_fields size) ≡ hello_front ++ (encoding size ++ hello_back)
unfolding hello_fields hello_front hello_back encoding Wire.payload header type_code type_of
hello_fields_split size = refl

length-hello_fields : (size : ℕ) → length (fields_wire (hello_fields size)) ≤ 100
length-hello_fields size = omega (
  arith,
  ap length (hello_fields_split size),
  length-append hello_front (encoding size ++ hello_back),
  length-append (encoding size) hello_back,
  length-encoding size,
  length-hello_front,
  length-hello_back,
)

pub length-answer_hello : (s f size : ℕ) → IsU32 size → length (answer_hello s f size) ≤ max_size
length-answer_hello s f size h =
    let fields = fields_wire (hello_fields size) in
    omega (
      arith,
      length-append (encoding s) (encoding f ++ fields),
      length-append (encoding f) fields,
      length-encoding s,
      length-encoding f,
      length-hello_fields size,
    )
