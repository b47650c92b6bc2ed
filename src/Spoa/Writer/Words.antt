-- ===== src/Spoa/Writer/Words.antt =====
-- The four bytes of a frame's length, whatever the host's byte order.
use haproxy_spoa_firehol_mmd.Prelude.{ℕ, ◌+◌, ◌*◌, ◌/◌, ◌%◌, ◌^◌, ◌≡◌, refl, List, [], ◌∷◌, arith}
use haproxy_spoa_firehol_mmd.Prelude.Lists.{length}
use haproxy_spoa_firehol_mmd.Prelude.Bytes.{IsU32}
use haproxy_spoa_firehol_mmd.Spoa.Writer.{Endian, little, big, memory_u32, bswap32, to_be}

-- A uint32_t in network order.
unfoldable pub be32 : ℕ → List ℕ
be32 v = (v / 2 ^ 24) ∷ (v / 2 ^ 16 % 256) ∷ (v / 2 ^ 8 % 256) ∷ (v % 256) ∷ []

-- The number that four bytes stand for in network order, `seastar::read_be<uint32_t>`.
unfoldable pub be32_value : List ℕ → ℕ
be32_value (a ∷ b ∷ c ∷ d ∷ []) = a * 2 ^ 24 + b * 2 ^ 16 + c * 2 ^ 8 + d
be32_value _ = 0

-- On either kind of host the bytes that reach memory are in network order.
pub memory_u32-to_be : (e : Endian) (v : ℕ) → IsU32 v → memory_u32 e (to_be e v) ≡ be32 v
unfolding memory_u32 to_be bswap32 be32
memory_u32-to_be little v h = ground arith
memory_u32-to_be big v h = ground arith

pub length-be32 : (v : ℕ) → length (be32 v) ≡ 4
unfolding be32
length-be32 v = refl

pub be32_value-be32 : (v : ℕ) → be32_value (be32 v) ≡ v
unfolding be32_value be32
be32_value-be32 v = omega arith
