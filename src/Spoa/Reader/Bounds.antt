-- ===== src/Spoa/Reader/Bounds.antt =====
-- No read leaves the buffer, and how far a read moves at least.
use mathlib.Core.Logic.{◌≢◌}
use haproxy_spoa_firehol_mmd.Prelude.{
  ℕ, ◌+◌, ◌-◌, ◌≤◌, ◌≡◌, refl, ap, ◌∙◌, arith, ltb, Bool-cases, inl, inr, Option-cases,
}
use haproxy_spoa_firehol_mmd.Prelude.Lists.{length, length-drop}
use haproxy_spoa_firehol_mmd.Prelude.Result.{Result, ok, err, stuck}
use haproxy_spoa_firehol_mmd.Spoa.Varint.{decode}
use haproxy_spoa_firehol_mmd.Spoa.Varint.Decode.{decode_bounds}
use haproxy_spoa_firehol_mmd.Spoa.Reader.{
  Reader, Read, ◌>>=◌, pure, remaining, rest, read_bytes, first, read_byte, read_varint,
  read_checked, read_length_prefixed, read_string,
}

-- The outcome of a read that began at `r`: it threw, or it moved at least `k` bytes on and stayed in
-- the same buffer.
abbrev pub Moves {ℓ} : {A : Type ℓ} → ℕ → Reader → Result (A × Reader) → Type 0
Moves k r (ok (a, r')) = (r'.buf ≡ r.buf) × (r.pos + k ≤ r'.pos) × (r'.pos ≤ length r.buf)
Moves k r (err e) = e ≢ stuck

pub record Safe {ℓ} {A : Type ℓ} (k : ℕ) (p : Read A) : Type ℓ where
  pub run : (r : Reader) → r.pos ≤ length r.buf → Moves k r (p r)

pub Safe-pure {ℓ} : {A : Type ℓ} (a : A) → Safe 0 (pure a)
Safe-pure a = record { run = λ r h. (refl, omega arith, h) }

pub Moves-later {ℓ} :
    {A : Type ℓ} (j k : ℕ) (r r' : Reader) (o : Result (A × Reader))
    → r'.buf ≡ r.buf
    → r.pos + j ≤ r'.pos
    → Moves k r' o
    → Moves (j + k) r o
Moves-later j k r r' (ok (a, q)) same far (same', far', inside) =
    (same' ∙ same, omega arith, omega (arith, ap length same))
Moves-later j k r r' (err e) same far h = h

pub Moves-bind {ℓ κ} :
    {A : Type ℓ} {B : Type κ} (j k : ℕ) (f : A → Read B)
    → ((a : A) → Safe k (f a))
    → (r : Reader) (o : Result (A × Reader)) → Moves j r o
    → Moves (j + k) r (elim o [ ok (a, r') ↦ f a r' | err e ↦ err e ])
Moves-bind j k f hf r (ok (a, r')) (same, far, inside) =
    Moves-later j k r r' (f a r') same far ((hf a).run r' (omega (arith, ap length same)))
Moves-bind j k f hf r (err e) h = h

pub Safe-bind {ℓ κ} :
    {A : Type ℓ} {B : Type κ} {j k : ℕ} {p : Read A} (f : A → Read B)
    → Safe j p
    → ((a : A) → Safe k (f a))
    → Safe (j + k) (p >>= f)
Safe-bind {j} {k} {p} f hp hf = record { run = λ r h. Moves-bind j k f hf r (p r) (hp.run r h) }

Moves-weaken {ℓ} :
    {A : Type ℓ} (j k : ℕ) (r : Reader) (o : Result (A × Reader))
    → k ≤ j
    → Moves j r o
    → Moves k r o
Moves-weaken j k r (ok (a, q)) le (same, far, inside) = (same, omega arith, inside)
Moves-weaken j k r (err e) le h = h

pub Safe-weaken {ℓ} : {A : Type ℓ} {j : ℕ} (k : ℕ) {p : Read A} → k ≤ j → Safe j p → Safe k p
Safe-weaken {j} k {p} le hp = record { run = λ r h. Moves-weaken j k r (p r) le (hp.run r h) }

read_bytes-Moves : (n : ℕ) (r : Reader) → r.pos ≤ length r.buf → Moves n r (read_bytes n r)
unfolding read_bytes
read_bytes-Moves n r h = elim (Bool-cases (ltb (length r.buf - r.pos) n)) [
  | inl short ↦ rw short (λ e. cc)
  | inr room ↦ rw room (refl, omega arith, ground arith)
]

pub Safe-bytes : (n : ℕ) → Safe n (read_bytes n)
Safe-bytes n = record { run = read_bytes-Moves n }

pub Safe-byte : Safe 1 read_byte
unfolding read_byte
Safe-byte = Safe-bind _ (Safe-bytes 1) (λ bytes. Safe-pure (first bytes))

read_varint-Moves : (r : Reader) → r.pos ≤ length r.buf → Moves 1 r (read_varint r)
unfolding read_varint rest
read_varint-Moves r h = elim (Option-cases (decode (rest r))) [
  | inl bad ↦ rw (bad, read_varint) (λ e. cc)
  | inr (d, good) ↦
      let bounds = decode_bounds (rest r) d good in
      rw (good, read_varint) (refl, omega arith, omega (arith, bounds, length-drop r.pos r.buf))
]

pub Safe-varint : Safe 1 read_varint
Safe-varint = record { run = read_varint-Moves }

read_checked-Moves : (n : ℕ) (r : Reader) → r.pos ≤ length r.buf → Moves 0 r (read_checked n r)
unfolding read_checked
read_checked-Moves n r h = elim (Bool-cases (ltb (remaining r) n)) [
  | inl short ↦ rw short (λ e. cc)
  | inr room ↦ rw room (Moves-weaken n 0 r (read_bytes n r) (omega arith) (read_bytes-Moves n r h))
]

pub Safe-length_prefixed : Safe 1 read_length_prefixed
unfolding read_length_prefixed
Safe-length_prefixed =
    Safe-bind read_checked Safe-varint (λ n. record { run = read_checked-Moves n })

pub Safe-string : Safe 1 read_string
unfolding read_string
Safe-string = Safe-length_prefixed
