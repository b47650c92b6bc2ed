-- ===== src/Tests/Entries.antt =====
-- An entry printed.
use haproxy_spoa_firehol_mmd.Prelude.{◌≡◌, refl, true, [], ◌∷◌, some}
use haproxy_spoa_firehol_mmd.Prelude.Text.{ascii}
use haproxy_spoa_firehol_mmd.Spoa.Database.{digits_loop}
use haproxy_spoa_firehol_mmd.Spoa.Entry.{
  utf8_string, uint32, bytes, dump_node, dump_switch, dump_members, dump_key, append_hex,
  append_unsigned, hex_digit, format_entry,
}
use haproxy_spoa_firehol_mmd.Spoa.Entry.Dump.{
  Value, leaf, map_of, array_of, end, member, nodes, text, IsValue, format_entry-nodes,
}

abbrev entry : Value
entry = map_of (
    member (ascii "category")
      (array_of (member [] (leaf (utf8_string (ascii "tor"))) (member [] (leaf (uint32 7)) end)))
      (member (ascii "raw") (leaf (bytes (10 ∷ 255 ∷ []))) end))

entry-IsValue : IsValue entry
unfolding IsValue
entry-IsValue = ((tt, (tt, tt)), (tt, tt))

entry_printed :
    format_entry true (some (nodes entry))
    ≡ some (ascii "{\"category\":[\"tor\",7],\"raw\":0x0aff}")
unfolding format_entry nodes dump_node dump_switch dump_members dump_key append_hex append_unsigned
    digits_loop hex_digit
entry_printed = refl

format_entry-nodes_example : format_entry true (some (nodes entry)) ≡ some (text entry)
format_entry-nodes_example = format_entry-nodes entry entry-IsValue
