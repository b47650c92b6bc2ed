-- ===== src/Spoa/Parse/Kind.antt =====
-- What `parse` returns is the variant that the frame type names.
use mathlib.Core.Path.{subst}
use haproxy_spoa_firehol_mmd.Prelude.{ℕ, ◌≡◌, refl, List}
use haproxy_spoa_firehol_mmd.Prelude.Result.{Result, ok, err}
use haproxy_spoa_firehol_mmd.Spoa.Reader.{Reader, Read, ◌>>=◌, pure, read_bytes, read_varint}
use haproxy_spoa_firehol_mmd.Spoa.Frame.{FrameType}
use haproxy_spoa_firehol_mmd.Spoa.Parse.{
  InFrame, hello, disconnect, notify, parse_hello, parse_disconnect, parse_notify, parse_body,
  read_frame, parse,
}

-- What holds of the value of a read that succeeds.
abbrev Holds {ℓ κ} : {A : Type ℓ} → (A → Type κ) → Result (A × Reader) → Type κ
Holds P (ok (a, r)) = P a
Holds P (err e) = Unit

Holds-bind {ℓ κ μ} :
    {A : Type ℓ} {B : Type κ} (P : B → Type μ) (f : A → Read B)
    → ((a : A) (r : Reader) → Holds P (f a r))
    → (o : Result (A × Reader)) → Holds P (elim o [ ok (a, r') ↦ f a r' | err e ↦ err e ])
Holds-bind P f h (ok (a, r)) = h a r
Holds-bind P f h (err e) = tt

-- The frame type that a parsed frame stands for.
unfoldable pub kind : InFrame → FrameType
kind (hello h) = FrameType.haproxy_hello
kind (disconnect d) = FrameType.haproxy_disconnect
kind (notify n) = FrameType.notify

abbrev IsOfKind : FrameType → InFrame → Type 0
IsOfKind type g = kind g ≡ type

parse_body-kind :
    (type : FrameType) (s f : ℕ) (r : Reader) → Holds (IsOfKind type) (parse_body type s f r)
unfolding parse_body kind
parse_body-kind FrameType.haproxy_hello s f r =
    Holds-bind (IsOfKind FrameType.haproxy_hello) (λ h. pure (hello h)) (λ h r'. refl)
      (parse_hello s f r)
parse_body-kind FrameType.haproxy_disconnect s f r =
    Holds-bind (IsOfKind FrameType.haproxy_disconnect) (λ d. pure (disconnect d)) (λ d r'. refl)
      (parse_disconnect s f r)
parse_body-kind FrameType.notify s f r =
    Holds-bind (IsOfKind FrameType.notify) (λ n. pure (notify n)) (λ n r'. refl)
      (parse_notify s f r)
parse_body-kind FrameType.agent_hello s f r = tt
parse_body-kind FrameType.agent_disconnect s f r = tt
parse_body-kind FrameType.agent_ack s f r = tt
parse_body-kind (FrameType.other n) s f r = tt

read_frame-kind : (type : FrameType) (r : Reader) → Holds (IsOfKind type) (read_frame type r)
unfolding read_frame
read_frame-kind type r =
    Holds-bind (IsOfKind type) (λ flags. read_varint >>= λ s. read_varint >>= parse_body type s)
      (λ flags r₁.
        Holds-bind (IsOfKind type) (λ s. read_varint >>= parse_body type s)
          (λ s r₂.
            Holds-bind (IsOfKind type) (parse_body type s) (λ f r₃. parse_body-kind type s f r₃)
              (read_varint r₂))
          (read_varint r₁))
      (read_bytes 4 r)

Holds-ok {ℓ} :
    (P : InFrame → Type ℓ) (o : Result (InFrame × Reader)) (g : InFrame)
    → Holds P o
    → elim o as (λ o. Result InFrame) [ ok (f, r) ↦ ok f | err e ↦ err e ] ≡ ok g
    → P g
Holds-ok P (ok (f, r)) g h e = subst P (cc) h
Holds-ok P (err e) g h e' = absurd (cc)

-- What `parse` returns is the variant that the frame type names. The types that only an agent sends
-- and the unknown ones never give a frame.
pub parse-kind :
    (type : FrameType) (payload : List ℕ) (g : InFrame) → parse type payload ≡ ok g → kind g ≡ type
unfolding parse
parse-kind type payload g e =
    let start : Reader = record { buf = payload; pos = 0 } in
    Holds-ok (IsOfKind type) (read_frame type start) g (read_frame-kind type start) e
