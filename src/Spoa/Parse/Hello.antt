-- ===== src/Spoa/Parse/Hello.antt =====
-- What the fields of a HELLO or DISCONNECT frame amount to: of each known name and type the last value,
-- in whatever order the fields come, and nothing of the others.
use haproxy_spoa_firehol_mmd.Prelude.{
  ℕ, ◌≡◌, refl, ap, ◌∙◌, true, false, ◌&&◌, List, [], ◌∷◌, arith, if◌then◌else◌, bytes_eq,
  bytes_eq→eq,
}
use haproxy_spoa_firehol_mmd.Prelude.Lists.{length, All}
use haproxy_spoa_firehol_mmd.Prelude.Text.{ascii}
use haproxy_spoa_firehol_mmd.Prelude.Bytes.{IsU64}
use haproxy_spoa_firehol_mmd.Prelude.Result.{ok}
use haproxy_spoa_firehol_mmd.Spoa.Reader.{Reader, ◌>>=◌, remaining, rest}
use haproxy_spoa_firehol_mmd.Spoa.Reader.Reads.{remaining-rest}
use haproxy_spoa_firehol_mmd.Spoa.TypedData.{TypedType, TypedData}
use haproxy_spoa_firehol_mmd.Spoa.Message.{Arg}
use haproxy_spoa_firehol_mmd.Spoa.Frame.{FrameType}
use haproxy_spoa_firehol_mmd.Spoa.Frame.Sizes.{IsValidArg, fields_wire}
use haproxy_spoa_firehol_mmd.Spoa.Parse.{
  HaproxyHello, HaproxyDisconnect, hello, disconnect, has_type, str, u32, as_boolean, visit_hello,
  empty_hello, visit_disconnect, empty_disconnect, parse_hello, parse_disconnect, parse_body, parse,
}
use haproxy_spoa_firehol_mmd.Spoa.Parse.Fields.{
  visit_all, for_each_field-visits, payload, read_frame_lem, parse_run,
}

-- The value after a field, and the last value in a list of fields.
abbrev pub updated {ℓ} : {A : Type ℓ} → List ℕ → TypedType → (TypedData → A) → A → Arg → A
updated name t pick old a = if bytes_eq a.name name && has_type a.value t then pick a.value else old

abbrev pub last_value {ℓ} : {A : Type ℓ} → List ℕ → TypedType → (TypedData → A) → A → List Arg → A
last_value name t pick old [] = old
last_value name t pick old (a ∷ args) = last_value name t pick (updated name t pick old a) args

-- A name is at most one of two names that differ.
one_name :
    (name k j : List ℕ) → bytes_eq k j ≡ false → bytes_eq name k ≡ true → bytes_eq name j ≡ false
one_name name k j differ e = ap (λ n. bytes_eq n j) (bytes_eq→eq name k e) ∙ differ

abbrev pub last_hello : HaproxyHello → List Arg → HaproxyHello
last_hello h args = record h {
  engine_id = last_value (ascii "engine-id") TypedType.string str h.engine_id args;
  supported_versions =
      last_value (ascii "supported-versions") TypedType.string str h.supported_versions args;
  max_frame_size = last_value (ascii "max-frame-size") TypedType.uint32 u32 h.max_frame_size args;
  healthcheck = last_value (ascii "healthcheck") TypedType.boolean as_boolean h.healthcheck args;
}

-- The names are different texts.
names_differ :
    (n : List ℕ)
    → let k₁ = ascii "engine-id" in
      let k₂ = ascii "supported-versions" in
      let k₃ = ascii "max-frame-size" in
      let k₄ = ascii "healthcheck" in
      (bytes_eq n k₁ ≡ true → bytes_eq n k₂ ≡ false)
      × (bytes_eq n k₁ ≡ true → bytes_eq n k₃ ≡ false)
      × (bytes_eq n k₁ ≡ true → bytes_eq n k₄ ≡ false)
      × (bytes_eq n k₂ ≡ true → bytes_eq n k₃ ≡ false)
      × (bytes_eq n k₂ ≡ true → bytes_eq n k₄ ≡ false)
      × (bytes_eq n k₃ ≡ true → bytes_eq n k₄ ≡ false)
unfolding bytes_eq
names_differ n = (
  one_name n _ _ refl,
  one_name n _ _ refl,
  one_name n _ _ refl,
  one_name n _ _ refl,
  one_name n _ _ refl,
  one_name n _ _ refl,
)

visit_hello_lem : (h : HaproxyHello) (a : Arg) → visit_hello h a ≡ last_hello h (a ∷ [])
unfolding visit_hello
visit_hello_lem h a = let d = names_differ a.name in ground arith

visit_all-hello :
    (args : List Arg) (h : HaproxyHello) → visit_all visit_hello h args ≡ last_hello h args
visit_all-hello [] h = refl
visit_all-hello (a ∷ args) h =
    visit_all-hello args (visit_hello h a) ∙ ap (λ g. last_hello g args) (visit_hello_lem h a)

abbrev pub last_disconnect : HaproxyDisconnect → List Arg → HaproxyDisconnect
last_disconnect d args = record d {
  status_code = last_value (ascii "status-code") TypedType.uint32 u32 d.status_code args;
  message = last_value (ascii "message") TypedType.string str d.message args;
}

status-ne-message :
    (n : List ℕ) → bytes_eq n (ascii "status-code") ≡ true → bytes_eq n (ascii "message") ≡ false
unfolding bytes_eq
status-ne-message n = one_name n _ _ refl

visit_disconnect_lem :
    (d : HaproxyDisconnect) (a : Arg) → visit_disconnect d a ≡ last_disconnect d (a ∷ [])
unfolding visit_disconnect
visit_disconnect_lem d a = ground (arith, status-ne-message a.name)

visit_all-disconnect :
    (args : List Arg) (d : HaproxyDisconnect)
    → visit_all visit_disconnect d args ≡ last_disconnect d args
visit_all-disconnect [] d = refl
visit_all-disconnect (a ∷ args) d =
    visit_all-disconnect args (visit_disconnect d a)
    ∙ ap (λ g. last_disconnect g args) (visit_disconnect_lem d a)

hello_run :
    (s f : ℕ) (args : List Arg) (r : Reader)
    → All IsValidArg args
    → rest r ≡ fields_wire args
    → (r' : Reader) × (parse_body FrameType.haproxy_hello s f r
        ≡ ok (hello (last_hello (empty_hello s f) args), r'))
unfolding parse_body parse_hello
hello_run s f args r h e =
    let (r', run) =
      for_each_field-visits visit_hello args (remaining r) (empty_hello s f) r h e
        (omega (arith, remaining-rest r, ap length e)) in
    (r', rw (run, ◌>>=◌) (ap (λ g. ok (hello g, r')) (visit_all-hello args (empty_hello s f))))

disconnect_run :
    (s f : ℕ) (args : List Arg) (r : Reader)
    → All IsValidArg args
    → rest r ≡ fields_wire args
    → (r' : Reader) × (parse_body FrameType.haproxy_disconnect s f r
        ≡ ok (disconnect (last_disconnect (empty_disconnect s f) args), r'))
unfolding parse_body parse_disconnect
disconnect_run s f args r h e =
    let (r', run) =
      for_each_field-visits visit_disconnect args (remaining r) (empty_disconnect s f) r h e
        (omega (arith, remaining-rest r, ap length e)) in
    (
      r',
      rw (run, ◌>>=◌)
          (ap (λ g. ok (disconnect g, r')) (visit_all-disconnect args (empty_disconnect s f))),
    )

-- The HELLO frame of any list of valid fields, in any order and with unknown or repeated ones among
-- them, is parsed: each member is the last value of its name and type, or the default.
pub parse-hello :
    (flags : List ℕ) (s f : ℕ) (args : List Arg)
    → length flags ≡ 4
    → IsU64 s
    → IsU64 f
    → All IsValidArg args
    → parse FrameType.haproxy_hello (payload flags s f (fields_wire args))
      ≡ ok (hello (last_hello (empty_hello s f) args))
parse-hello flags s f args four hs hf h =
    let (r, e, start) =
      read_frame_lem FrameType.haproxy_hello flags s f (fields_wire args) four hs hf in
    let (r', run) = hello_run s f args r h e in
    parse_run FrameType.haproxy_hello _ _ r' (start ∙ run)

-- The same for a DISCONNECT frame.
pub parse-disconnect :
    (flags : List ℕ) (s f : ℕ) (args : List Arg)
    → length flags ≡ 4
    → IsU64 s
    → IsU64 f
    → All IsValidArg args
    → parse FrameType.haproxy_disconnect (payload flags s f (fields_wire args))
      ≡ ok (disconnect (last_disconnect (empty_disconnect s f) args))
parse-disconnect flags s f args four hs hf h =
    let (r, e, start) =
      read_frame_lem FrameType.haproxy_disconnect flags s f (fields_wire args) four hs hf in
    let (r', run) = disconnect_run s f args r h e in
    parse_run FrameType.haproxy_disconnect _ _ r' (start ∙ run)
