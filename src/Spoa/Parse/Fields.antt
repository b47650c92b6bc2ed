-- ===== src/Spoa/Parse/Fields.antt =====
-- HELLO and DISCONNECT frames: the loop visits every field of a well-formed payload in order.
use mathlib.Core.Path.{subst}
use haproxy_spoa_firehol_mmd.Prelude.{
  ℕ, zero, suc, ◌==◌, ◌≤◌, ◌≡◌, refl, ap, ◌∙◌, false, List, [], ◌∷◌, ◌++◌, arith,
}
use haproxy_spoa_firehol_mmd.Prelude.Lists.{length, All, length-append}
use haproxy_spoa_firehol_mmd.Prelude.Bytes.{IsU64}
use haproxy_spoa_firehol_mmd.Prelude.Result.{ok}
use haproxy_spoa_firehol_mmd.Spoa.Varint.Encoding.{encoding, length-encoding}
use haproxy_spoa_firehol_mmd.Spoa.Reader.{
  Reader, Read, ◌>>=◌, is_empty, rest, read_bytes, read_varint,
}
use haproxy_spoa_firehol_mmd.Spoa.Reader.Reads.{
  Reads, Reads-bind, Reads-map, Reads-bytes, Reads-varint, Reads-string, advance, rest-advance,
  remaining-rest, prefixed,
}
use haproxy_spoa_firehol_mmd.Spoa.TypedData.Wire.{wire}
use haproxy_spoa_firehol_mmd.Spoa.TypedData.Decode.{decode-Reads}
use haproxy_spoa_firehol_mmd.Spoa.Message.{Arg}
use haproxy_spoa_firehol_mmd.Spoa.Frame.{FrameType}
use haproxy_spoa_firehol_mmd.Spoa.Frame.Sizes.{IsValidArg, field_wire, fields_wire}
use haproxy_spoa_firehol_mmd.Spoa.Parse.{
  read_arg, for_each_field, parse_body, read_frame, parse, InFrame,
}

pub read_arg-Reads : (a : Arg) → IsValidArg a → Reads read_arg (field_wire a.name a.value) a
unfolding read_arg
read_arg-Reads a (n, v) =
    Reads-bind _ (Reads-string a.name n) (Reads-map _ (decode-Reads a.value v))

pub is_empty-rest : (r : Reader) → is_empty r ≡ (length (rest r) == 0)
unfolding is_empty
is_empty-rest r = ap (λ n. n == 0) (remaining-rest r)

pub not_empty : (r : Reader) → 1 ≤ length (rest r) → is_empty r ≡ false
not_empty r h = is_empty-rest r ∙ ground arith

pub two-le-field_wire : (a : Arg) → 2 ≤ length (field_wire a.name a.value)
two-le-field_wire a = omega (
  arith,
  length-append (prefixed a.name) (wire a.value),
  length-append (encoding (length a.name)) a.name,
  length-encoding (length a.name),
)

-- A state after all the visits.
abbrev pub visit_all {ℓ} : {S : Type ℓ} → (S → Arg → S) → S → List Arg → S
visit_all visit s [] = s
visit_all visit s (a ∷ args) = visit_all visit (visit s a) args

module _ {ℓ} {S : Type ℓ} (visit : S → Arg → S) where
  -- The loop's outcome where the unread bytes are the fields' wire forms.
  pub for_each_field-visits :
      (args : List Arg) (fuel : ℕ) (s : S) (r : Reader)
      → All IsValidArg args
      → rest r ≡ fields_wire args
      → length (fields_wire args) ≤ fuel
      → (r' : Reader) × (for_each_field visit fuel s r ≡ ok (visit_all visit s args, r'))
  unfolding for_each_field
  for_each_field-visits [] zero s r h e le = (r, rw (is_empty-rest r, e))
  for_each_field-visits [] (suc fuel) s r h e le = (r, rw (is_empty-rest r, e))
  for_each_field-visits (a ∷ args) zero s r h e le = absurd (
      omega
        (arith, two-le-field_wire a, length-append (field_wire a.name a.value) (fields_wire args)))
  for_each_field-visits (a ∷ args) (suc fuel) s r (v, h) e le =
      let w = field_wire a.name a.value in
      let parts = length-append w (fields_wire args) in
      let (r', more) =
        for_each_field-visits args fuel (visit s a) (advance r (length w)) h
          (rest-advance r w (fields_wire args) e) (omega (arith, two-le-field_wire a, parts)) in
      (
        r',
        rw
            (
              not_empty r (omega (arith, two-le-field_wire a, parts, ap length e)),
              (read_arg-Reads a v).run r (fields_wire args) e,
              ◌>>=◌,
            )
            more,
      )

-- A payload of flags, IDs and a body.
abbrev pub payload : List ℕ → ℕ → ℕ → List ℕ → List ℕ
payload flags s f body = flags ++ (encoding s ++ (encoding f ++ body))

bind_run {ℓ κ} :
    {A : Type ℓ} {B : Type κ} {p : Read A} {wire : List ℕ} {a : A} (k : A → Read B) (r : Reader)
    (tail : List ℕ)
    → Reads p wire a
    → rest r ≡ wire ++ tail
    → (p >>= k) r ≡ k a (advance r (length wire))
bind_run k r tail h e = rw (h.run r tail e, ◌>>=◌)

-- `parse` reads the flags and the IDs, and leaves the reader at the body.
pub read_frame_lem :
    (type : FrameType) (flags : List ℕ) (s f : ℕ) (body : List ℕ)
    → length flags ≡ 4
    → IsU64 s
    → IsU64 f
    → (r : Reader) × (rest r ≡ body)
      × (read_frame type (record { buf = payload flags s f body; pos = 0 }) ≡ parse_body type s f r)
unfolding read_frame
read_frame_lem type flags s f body four hs hf =
    let start : Reader = record { buf = payload flags s f body; pos = 0 } in
    let r₁ = advance start (length flags) in
    let r₂ = advance r₁ (length (encoding s)) in
    let r₃ = advance r₂ (length (encoding f)) in
    let e₀ : rest start ≡ payload flags s f body = unfold rest in refl in
    let e₁ : rest r₁ ≡ encoding s ++ (encoding f ++ body) = rest-advance start flags _ e₀ in
    let e₂ : rest r₂ ≡ encoding f ++ body = rest-advance r₁ (encoding s) _ e₁ in
    let flags_read : Reads (read_bytes 4) flags flags =
      subst (λ n. Reads (read_bytes n) flags flags) four (Reads-bytes flags) in
    (
      r₃,
      rest-advance r₂ (encoding f) body e₂,
      bind_run (λ fl. read_varint >>= λ s. read_varint >>= parse_body type s) start _ flags_read e₀
          ∙ bind_run (λ s. read_varint >>= parse_body type s) r₁ _ (Reads-varint s hs) e₁
          ∙ bind_run (parse_body type s) r₂ _ (Reads-varint f hf) e₂,
    )

pub parse_run :
    (type : FrameType) (bytes : List ℕ) (g : InFrame) (r : Reader)
    → read_frame type (record { buf = bytes; pos = 0 }) ≡ ok (g, r)
    → parse type bytes ≡ ok g
unfolding parse
parse_run type bytes g r e = rw (e, parse)
