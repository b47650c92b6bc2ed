-- ===== src/Spoa/Entry.antt =====
-- `format_entry` of src/mmdb/mmdb.cpp and the helpers that it prints with. The library's list of an entry's
-- data is a list of its nodes, and the cursor is what is left of it; a null cursor is the empty list.
-- The text of a double or float is that of `std::to_string`. A uint128 is a number
-- (MMDB_UINT128_IS_BYTE_ARRAY is 0).
pub mod Dump
use haproxy_spoa_firehol_mmd.Prelude.{
  ℕ, zero, suc, ◌+◌, ◌-◌, ◌/◌, ◌%◌, ◌==◌, Bool, true, false, List, [], ◌∷◌, ◌++◌, Option, none,
  some, ltb, if◌then◌else◌,
}
use haproxy_spoa_firehol_mmd.Prelude.Int.{ℤ, pos, negsuc}
use haproxy_spoa_firehol_mmd.Prelude.Lists.{length}
use haproxy_spoa_firehol_mmd.Prelude.Text.{ascii}
use haproxy_spoa_firehol_mmd.Spoa.Database.{digits_loop}

-- A node: its type with what the code reads of it. Maps and arrays have their size.
pub data Node : Type 0 where
  map array : ℕ → Node
  utf8_string double float : List ℕ → Node
  boolean : Bool → Node
  uint16 uint32 uint64 uint128 : ℕ → Node
  int32 : ℤ → Node
  bytes : List ℕ → Node
  other : Node

-- `append_integer`: at most 20 digits, and a sign.
unfoldable pub append_unsigned : List ℕ → ℕ → List ℕ
append_unsigned out n = out ++ digits_loop 20 n []

unfoldable pub append_integer : List ℕ → ℤ → List ℕ
append_integer out (pos n) = append_unsigned out n
append_integer out (negsuc n) = append_unsigned (out ++ ascii "-") (n + 1)

-- `hex_digits[n]`
unfoldable pub hex_digit : ℕ → ℕ
hex_digit n = if ltb n 10 then 48 + n else 87 + n

unfoldable pub append_hex : List ℕ → List ℕ → List ℕ
append_hex out [] = out
append_hex out (b ∷ bs) = append_hex (out ++ (hex_digit (b / 16) ∷ hex_digit (b % 16) ∷ [])) bs

-- The loop of `append_uint128`, on fuel: 32 digits.
unfoldable pub hex_loop : ℕ → ℕ → List ℕ → List ℕ
hex_loop zero value digits = digits
hex_loop (suc fuel) value digits =
    let digits' = hex_digit (value % 16) ∷ digits in
    let more = hex_loop fuel (value / 16) digits' in if value / 16 == 0 then digits' else more

unfoldable pub append_uint128 : List ℕ → ℕ → List ℕ
append_uint128 out value = out ++ hex_loop 32 value []

-- `out` and the cursor.
abbrev pub Dumped : Type 0
Dumped = List ℕ × List Node

-- The key of a map's member, if the cursor stands at a text.
unfoldable pub dump_key : List ℕ → List Node → Dumped
dump_key out (utf8_string s ∷ cursor) = (out ++ ascii "\"" ++ s ++ ascii "\":", cursor)
dump_key out cursor = (out, cursor)

-- The loops over the members, with `left` rounds to go; `dump` is the call of `dump_node`.
unfoldable pub dump_members :
    (List ℕ → List Node → Option Dumped) → Bool → Bool → ℕ → List ℕ → List Node → Option Dumped
dump_members dump keyed first zero out cursor = some (out, cursor)
dump_members dump keyed first (suc left) out cursor =
    let begun = if first then out else out ++ ascii "," in
    let (out', cursor') = if keyed then dump_key begun cursor else (begun, cursor) in
    elim (dump out' cursor') [
      | none ↦ none
      | some (out'', cursor'') ↦ dump_members dump keyed false left out'' cursor''
    ]

abbrev pub close_with : List ℕ → Option Dumped → Option Dumped
close_with text none = none
close_with text (some (out, cursor)) = some (out ++ text, cursor)

-- The switch of `dump_node`, after the cursor has moved on.
unfoldable pub dump_switch :
    (List ℕ → List Node → Option Dumped) → Node → List ℕ → List Node → Option Dumped
dump_switch dump (map size) out cursor =
    close_with (ascii "}") (dump_members dump true true size (out ++ ascii "{") cursor)
dump_switch dump (array size) out cursor =
    close_with (ascii "]") (dump_members dump false true size (out ++ ascii "[") cursor)
dump_switch dump (utf8_string s) out cursor = some (out ++ ascii "\"" ++ s ++ ascii "\"", cursor)
dump_switch dump (double text) out cursor = some (out ++ text, cursor)
dump_switch dump (float text) out cursor = some (out ++ text, cursor)
dump_switch dump (boolean b) out cursor =
    some (out ++ (if b then ascii "true" else ascii "false"), cursor)
dump_switch dump (uint16 n) out cursor = some (append_unsigned out n, cursor)
dump_switch dump (uint32 n) out cursor = some (append_unsigned out n, cursor)
dump_switch dump (int32 z) out cursor = some (append_integer out z, cursor)
dump_switch dump (uint64 n) out cursor = some (append_unsigned out n, cursor)
dump_switch dump (bytes bs) out cursor = some (append_hex (out ++ ascii "0x") bs, cursor)
dump_switch dump (uint128 n) out cursor = some (append_uint128 out n, cursor)
dump_switch dump other out cursor = some (out ++ ascii "null", cursor)

-- `dump_node`, on fuel: `none` is fuel that runs out.
unfoldable pub dump_node : ℕ → List ℕ → List Node → Option Dumped
dump_node fuel out [] = some (out ++ ascii "null", [])
dump_node zero out (node ∷ cursor) = none
dump_node (suc fuel) out (node ∷ cursor) = dump_switch (dump_node fuel) node out cursor

-- Behind the test of `found_entry`: `none` is a status that is not MMDB_SUCCESS. A call nests at most
-- once for each node.
unfoldable pub format_entry : Bool → Option (List Node) → Option (List ℕ)
format_entry false nodes = some []
format_entry true none = some (ascii "(failed to read entry data)")
format_entry true (some []) = some (ascii "(failed to read entry data)")
format_entry true (some (node ∷ nodes)) =
    elim (dump_node (length (node ∷ nodes)) [] (node ∷ nodes)) [
      | none ↦ none
      | some (out, cursor) ↦ some out
    ]
