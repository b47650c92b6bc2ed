-- ===== src/Prelude/Bytes.antt =====
-- Bytes, words, and masks on a byte as arithmetic; each mask is a table of at most 256 entries.
use Prim.Native.Nat.{ℕ, zero, suc, ◌+◌, ◌*◌, ◌/◌, ◌%◌, ◌^◌, ◌<◌, bit_and, bit_or}
use mathlib.Core.Path.{◌≡◌, refl, sym, ◌∙◌}
use mathlib.Core.Bool.{Bool, true, false}
use native.Mathlib.Omega.{arith}
use haproxy_spoa_firehol_mmd.Prelude.Tests.{◌==◌, if◌then◌else◌}

abbrev pub IsByte : ℕ → Type 0
IsByte b = b < 256

abbrev pub IsU32 : ℕ → Type 0
IsU32 v = v < 2 ^ 32

abbrev pub IsU64 : ℕ → Type 0
IsU64 v = v < 2 ^ 64

module _ (f g : ℕ → ℕ) where
  agree_below : ℕ → Bool
  agree_below zero = true
  agree_below (suc n) = if f n == g n then agree_below n else false

  agree_below→eq : (n : ℕ) → agree_below n ≡ true → (i : ℕ) → i < n → f i ≡ g i
  unfolding agree_below
  agree_below→eq zero e i h = absurd (omega arith)
  agree_below→eq (suc n) e i h = ground (arith, agree_below→eq n (ground arith) i)

pub bit_and_0f : (b : ℕ) → b < 256 → bit_and b 0x0F ≡ b % 16
unfolding agree_below
bit_and_0f = agree_below→eq _ _ 256 refl

-- The flag of a boolean in the header byte of a typed value.
pub bit_and_10 : (b : ℕ) → b < 256 → bit_and b 0x10 ≡ b / 16 % 2 * 16
unfolding agree_below
bit_and_10 = agree_below→eq _ _ 256 refl

pub bit_or_80 : (b : ℕ) → b < 256 → bit_or b 0x80 ≡ b % 128 + 128
unfolding agree_below
bit_or_80 = agree_below→eq _ _ 256 refl

pub bit_or_f0 : (b : ℕ) → b < 256 → bit_or b 0xF0 ≡ b % 16 + 240
unfolding agree_below
bit_or_f0 = agree_below→eq _ _ 256 refl

pub bit_or_10 : (b : ℕ) → b < 16 → bit_or b 0x10 ≡ b + 16
unfolding agree_below
bit_or_10 = agree_below→eq _ _ 16 refl

pub bit_or_00 : (b : ℕ) → b < 16 → bit_or b 0 ≡ b
unfolding agree_below
bit_or_00 = agree_below→eq _ _ 16 refl

-- A tag of three bits above five bits, and tags above three bits.
pub bit_or_32 : (tag low : ℕ) → tag < 8 → low < 32 → bit_or (tag * 32) low ≡ tag * 32 + low
unfolding agree_below
bit_or_32 tag low t l = table_32 (tag * 32 + low) (omega arith) tag low (omega arith) (omega arith)
  where
    table : (i : ℕ) → i < 256 → bit_or (i / 32 * 32) (i % 32) ≡ i
    table = agree_below→eq (λ i. bit_or (i / 32 * 32) (i % 32)) (λ i. i) 256 refl

    table_32 :
        (i : ℕ)
        → i < 256
        → (tag low : ℕ) → i / 32 ≡ tag
        → i % 32 ≡ low
        → bit_or (tag * 32) low ≡ tag * 32 + low
    table_32 i h tag low a b = rw (sym a, sym b) (table i h ∙ omega arith)

pub bit_or_8 : (tag low : ℕ) → tag < 32 → low < 8 → bit_or (tag * 8) low ≡ tag * 8 + low
unfolding agree_below
bit_or_8 tag low t l = table_8 (tag * 8 + low) (omega arith) tag low (omega arith) (omega arith)
  where
    table : (i : ℕ) → i < 256 → bit_or (i / 8 * 8) (i % 8) ≡ i
    table = agree_below→eq (λ i. bit_or (i / 8 * 8) (i % 8)) (λ i. i) 256 refl

    table_8 :
        (i : ℕ)
        → i < 256
        → (tag low : ℕ) → i / 8 ≡ tag
        → i % 8 ≡ low
        → bit_or (tag * 8) low ≡ tag * 8 + low
    table_8 i h tag low a b = rw (sym a, sym b) (table i h ∙ omega arith)

-- Two halves of a byte.
pub bit_or_16 : (high low : ℕ) → high < 16 → low < 16 → bit_or (high * 16) low ≡ high * 16 + low
unfolding agree_below
bit_or_16 high low t l =
    table_16 (high * 16 + low) (omega arith) high low (omega arith) (omega arith)
  where
    table : (i : ℕ) → i < 256 → bit_or (i / 16 * 16) (i % 16) ≡ i
    table = agree_below→eq (λ i. bit_or (i / 16 * 16) (i % 16)) (λ i. i) 256 refl

    table_16 :
        (i : ℕ)
        → i < 256
        → (high low : ℕ) → i / 16 ≡ high
        → i % 16 ≡ low
        → bit_or (high * 16) low ≡ high * 16 + low
    table_16 i h high low a b = rw (sym a, sym b) (table i h ∙ omega arith)
