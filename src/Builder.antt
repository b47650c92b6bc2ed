-- ===== src/Builder.antt =====
-- src/mmdb_builder/builder.cpp: the encoders of a control byte with a size, and of a pointer. A byte that
-- is pushed is the value modulo 256.
pub mod Headers
pub mod Values
pub mod Trie
pub mod Prune
pub mod Search
pub mod Used
pub mod Pool
pub mod Network
use Prim.Native.Nat.{bit_or}
use haproxy_spoa_firehol_mmd.Prelude.{
  ℕ, ◌+◌, ◌*◌, ◌/◌, ◌%◌, ◌-◌, List, [], ◌∷◌, ◌++◌, ltb, if◌then◌else◌,
}

unfoldable pub ctrl_type : ℕ → ℕ
ctrl_type type = if ltb type 8 then type * 32 % 256 else 0

-- The branches on the size.
unfoldable pub size_bytes : ℕ → ℕ → List ℕ
size_bytes ctrl size =
    if ltb size 29
    then bit_or ctrl size ∷ []
    else if ltb size 285
    then bit_or ctrl 29 ∷ (size - 29) % 256 ∷ []
    else if ltb size 65821
    then bit_or ctrl 30 ∷ (size - 285) / 256 % 256 ∷ (size - 285) % 256 ∷ []
    else let rem = size - 65821 in
      bit_or ctrl 31 ∷ rem / 65536 % 256 ∷ rem / 256 % 256 ∷ rem % 256 ∷ []

unfoldable pub encode_ctrl_and_size : List ℕ → ℕ → ℕ → List ℕ
encode_ctrl_and_size out type size =
    let sized = out ++ size_bytes (ctrl_type type) size in
    if ltb type 8 then sized else sized ++ ((type - 7) % 256 ∷ [])

unfoldable pub pointer_bytes : ℕ → List ℕ
pointer_bytes offset =
    if ltb offset 2048
    then bit_or 0x20 (offset / 256 % 8) ∷ offset % 256 ∷ []
    else if ltb offset 526336
    then (let o = offset - 2048 in bit_or 0x28 (o / 65536 % 8) ∷ o / 256 % 256 ∷ o % 256 ∷ [])
    else if ltb offset 134744064
    then (let o = offset - 526336 in
        bit_or 0x30 (o / 16777216 % 8) ∷ o / 65536 % 256 ∷ o / 256 % 256 ∷ o % 256 ∷ [])
    else 0x38
      ∷ offset / 16777216 % 256
      ∷ offset / 65536 % 256
      ∷ offset / 256 % 256
      ∷ offset % 256
      ∷ []

unfoldable pub encode_pointer : List ℕ → ℕ → List ℕ
encode_pointer out offset = out ++ pointer_bytes offset
