-- ===== src/Spoa/Reader/Reads.antt =====
-- What a read takes off the front of the unread bytes.
use haproxy_spoa_firehol_mmd.Prelude.{
  ℕ, ◌+◌, ◌-◌, ◌≡◌, sym, ap, ◌∙◌, List, [], ◌∷◌, ◌++◌, append_assoc, arith, le→ltb,
}
use haproxy_spoa_firehol_mmd.Prelude.Lists.{
  length, drop, length-append, length-drop, drop-drop, drop-append, take-append,
}
use haproxy_spoa_firehol_mmd.Prelude.Bytes.{IsU64}
use haproxy_spoa_firehol_mmd.Prelude.Result.{ok}
use haproxy_spoa_firehol_mmd.Spoa.Varint.Encoding.{encoding}
use haproxy_spoa_firehol_mmd.Spoa.Varint.RoundTrip.{decode-encoding}
use haproxy_spoa_firehol_mmd.Spoa.Reader.{
  Reader, Read, ◌>>=◌, pure, remaining, rest, read_bytes, first, read_byte, read_varint,
  read_checked, read_length_prefixed, read_string,
}

abbrev pub advance : Reader → ℕ → Reader
advance r k = record r { pos = r.pos + k }

-- Where the unread bytes begin with `wire`, the read succeeds with `a` and moves just behind `wire`.
pub record Reads {ℓ} {A : Type ℓ} (p : Read A) (wire : List ℕ) (a : A) : Type ℓ where
  pub run :
      (r : Reader) (tail : List ℕ) → rest r ≡ wire ++ tail → p r ≡ ok (a, advance r (length wire))

pub rest-advance :
    (r : Reader) (wire tail : List ℕ)
    → rest r ≡ wire ++ tail
    → rest (advance r (length wire)) ≡ tail
unfolding rest
rest-advance r wire tail e =
    sym (drop-drop r.pos (length wire) r.buf) ∙ ap (drop (length wire)) e ∙ drop-append wire tail

pub remaining-rest : (r : Reader) → remaining r ≡ length (rest r)
unfolding remaining rest
remaining-rest r = sym (length-drop r.pos r.buf)

advance_zero : (r : Reader) → r ≡ advance r 0
advance_zero r = λ i. record { buf = r.buf; pos = add_zero i }
  where
    add_zero : r.pos ≡ r.pos + 0
    add_zero = omega arith

advance_twice : (r : Reader) (m n k : ℕ) → k ≡ m + n → advance (advance r m) n ≡ advance r k
advance_twice r m n k e = λ i. record { buf = r.buf; pos = sum i }
  where
    sum : r.pos + m + n ≡ r.pos + k
    sum = omega arith

pub Reads-pure {ℓ} : {A : Type ℓ} (a : A) → Reads (pure a) [] a
Reads-pure a = record { run = λ r tail e. ap (λ s. ok (a, s)) (advance_zero r) }

bind_ok {ℓ κ} :
    {A : Type ℓ} {B : Type κ} (p : Read A) (f : A → Read B) (r r' : Reader) (a : A)
    → p r ≡ ok (a, r')
    → (p >>= f) r ≡ f a r'
bind_ok p f r r' a e = rw (e, ◌>>=◌)

pub Reads-bind {ℓ κ} :
    {A : Type ℓ} {B : Type κ} {p : Read A} (f : A → Read B) {v w : List ℕ} {a : A} {b : B}
    → Reads p v a
    → Reads (f a) w b
    → Reads (p >>= f) (v ++ w) b
Reads-bind {p} f {v} {w} {a} {b} hp hf = record {
  run = λ r tail e.
      let front : rest r ≡ v ++ (w ++ tail) = e ∙ append_assoc v w tail in
      bind_ok p f r (advance r (length v)) a (hp.run r (w ++ tail) front)
      ∙ hf.run (advance r (length v)) tail (rest-advance r v (w ++ tail) front)
      ∙ ap (λ s. ok (b, s)) (advance_twice r (length v) (length w) _ (length-append v w));
}

-- The read of a value that has been read in full needs nothing more.
pub Reads-map {ℓ κ} :
    {A : Type ℓ} {B : Type κ} {p : Read A} (f : A → B) {v : List ℕ} {a : A}
    → Reads p v a
    → Reads (do x ← p; pure (f x)) v (f a)
Reads-map {p} f {v} {a} hp = record {
  run = λ r tail e. bind_ok p (λ x. pure (f x)) r (advance r (length v)) a (hp.run r tail e);
}

read_bytes_run :
    (bytes tail : List ℕ) (r : Reader)
    → rest r ≡ bytes ++ tail
    → read_bytes (length bytes) r ≡ ok (bytes, advance r (length bytes))
unfolding read_bytes rest
read_bytes_run bytes tail r e = rw (
  le→ltb (length r.buf - r.pos) (length bytes)
      (omega (arith, length-drop r.pos r.buf, ap length e, length-append bytes tail)),
  e,
  take-append bytes tail,
)

pub Reads-bytes : (bytes : List ℕ) → Reads (read_bytes (length bytes)) bytes bytes
Reads-bytes bytes = record { run = λ r tail e. read_bytes_run bytes tail r e }

pub Reads-byte : (b : ℕ) → Reads read_byte (b ∷ []) b
unfolding read_byte
Reads-byte b = Reads-map first (Reads-bytes (b ∷ []))

read_varint_run :
    (n : ℕ) (tail : List ℕ) (r : Reader)
    → IsU64 n
    → rest r ≡ encoding n ++ tail
    → read_varint r ≡ ok (n, advance r (length (encoding n)))
unfolding read_varint
read_varint_run n tail r h e = rw (e, read_varint) (rw (decode-encoding n tail h))

pub Reads-varint : (n : ℕ) → IsU64 n → Reads read_varint (encoding n) n
Reads-varint n h = record { run = λ r tail e. read_varint_run n tail r h e }

read_checked_run :
    (bytes tail : List ℕ) (r : Reader)
    → rest r ≡ bytes ++ tail
    → read_checked (length bytes) r ≡ ok (bytes, advance r (length bytes))
unfolding read_checked remaining
read_checked_run bytes tail r e =
    rw
      (le→ltb (length r.buf - r.pos) (length bytes)
        (omega (arith, remaining-rest r, ap length e, length-append bytes tail)))
      (read_bytes_run bytes tail r e)

-- The wire form of a byte string: its length and its bytes.
abbrev pub prefixed : List ℕ → List ℕ
prefixed bytes = encoding (length bytes) ++ bytes

pub Reads-length-prefixed :
    (bytes : List ℕ) → IsU64 (length bytes) → Reads read_length_prefixed (prefixed bytes) bytes
unfolding read_length_prefixed
Reads-length-prefixed bytes h =
    Reads-bind read_checked (Reads-varint (length bytes) h)
      (record { run = λ r tail e. read_checked_run bytes tail r e })

pub Reads-string :
    (bytes : List ℕ) → IsU64 (length bytes) → Reads read_string (prefixed bytes) bytes
unfolding read_string
Reads-string = Reads-length-prefixed
