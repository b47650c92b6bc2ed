-- ===== src/Spoa/Varint/Encoding.antt =====
-- What the encoders write, in plain arithmetic.
use haproxy_spoa_firehol_mmd.Prelude.{
  ℕ, zero, suc, ◌+◌, ◌-◌, ◌/◌, ◌%◌, ◌^◌, ◌≤◌, ◌<◌, List, [], ◌∷◌, arith, ltb, if◌then◌else◌,
}
use haproxy_spoa_firehol_mmd.Prelude.Lists.{length, All}
use haproxy_spoa_firehol_mmd.Prelude.Bytes.{IsByte, IsU64}

-- The groups of `q` after the first byte, for `q` below 128 ^ (k + 1).
unfoldable pub groups : ℕ → ℕ → List ℕ
groups zero q = q ∷ []
groups (suc k) q =
    let rest = groups k ((q - 128) / 128) in if ltb q 128 then q ∷ [] else (q % 128 + 128) ∷ rest

unfoldable pub encoding : ℕ → List ℕ
encoding n = if ltb n 240 then n ∷ [] else (n % 16 + 240) ∷ groups 8 ((n - 240) / 16)

groups-IsByte : (k q : ℕ) → q < 128 ^ suc k → All IsByte (groups k q)
unfolding groups
groups-IsByte zero q h = omega arith
groups-IsByte (suc k) q h = ground (arith, groups-IsByte k ((q - 128) / 128) (omega arith))

pub encoding-IsByte : (n : ℕ) → IsU64 n → All IsByte (encoding n)
unfolding encoding
encoding-IsByte n h = ground (arith, groups-IsByte 8 ((n - 240) / 16) (omega arith))

length-groups : (k q : ℕ) → (1 ≤ length (groups k q)) × (length (groups k q) ≤ k + 1)
unfolding groups
length-groups zero q = omega arith
length-groups (suc k) q = ground (arith, length-groups k ((q - 128) / 128))

pub length-encoding : (n : ℕ) → (1 ≤ length (encoding n)) × (length (encoding n) ≤ 10)
unfolding encoding
length-encoding n = ground (arith, length-groups 8 ((n - 240) / 16))
