-- ===== src/Spoa/Entry/Dump.antt =====
-- Values as trees, their list of nodes, and their text: what `format_entry` prints of a whole value.
use haproxy_spoa_firehol_mmd.Prelude.{
  ℕ, zero, suc, ◌+◌, ◌/◌, ◌%◌, ◌≤◌, ◌≡◌, refl, sym, ap, ap₂, ◌∙◌, Bool, true, false, List, [], ◌∷◌,
  ◌++◌, append_assoc, append-nil, Option, none, some, arith, if◌then◌else◌,
}
use haproxy_spoa_firehol_mmd.Prelude.Int.{pos, negsuc}
use haproxy_spoa_firehol_mmd.Prelude.Lists.{length, length-append}
use haproxy_spoa_firehol_mmd.Prelude.Text.{ascii}
use haproxy_spoa_firehol_mmd.Spoa.Database.{digits_loop}
use haproxy_spoa_firehol_mmd.Spoa.Entry.{
  Node, map, array, utf8_string, double, float, boolean, uint16, uint32, uint64, uint128, int32,
  bytes, other, append_unsigned, append_integer, hex_digit, append_hex, hex_loop, append_uint128,
  Dumped, dump_key, dump_members, close_with, dump_switch, dump_node, format_entry,
}

-- A value of the database. A leaf is a node that is no map and no array.
mutual
  pub data Value : Type 0 where
    leaf : Node → Value
    map_of array_of : Members → Value

  pub data Members : Type 0 where
    end : Members
    member : List ℕ → Value → Members → Members

abbrev pub size : Members → ℕ
size end = 0
size (member key v ms) = suc (size ms)

-- The nodes of a value, in the order of the library's list. An array's members have no key.
unfoldable mutual
  pub nodes : Value → List Node
  nodes (leaf n) = n ∷ []
  nodes (map_of ms) = map (size ms) ∷ member_nodes true ms
  nodes (array_of ms) = array (size ms) ∷ member_nodes false ms

  pub member_nodes : Bool → Members → List Node
  member_nodes keyed end = []
  member_nodes true (member key v ms) = utf8_string key ∷ (nodes v ++ member_nodes true ms)
  member_nodes false (member key v ms) = nodes v ++ member_nodes false ms

unfoldable pub hex_text : List ℕ → List ℕ
hex_text [] = []
hex_text (b ∷ bs) = hex_digit (b / 16) ∷ hex_digit (b % 16) ∷ hex_text bs

unfoldable pub leaf_text : Node → List ℕ
leaf_text (utf8_string s) = ascii "\"" ++ (s ++ ascii "\"")
leaf_text (double text) = text
leaf_text (float text) = text
leaf_text (boolean b) = if b then ascii "true" else ascii "false"
leaf_text (uint16 n) = digits_loop 20 n []
leaf_text (uint32 n) = digits_loop 20 n []
leaf_text (uint64 n) = digits_loop 20 n []
leaf_text (int32 (pos n)) = digits_loop 20 n []
leaf_text (int32 (negsuc n)) = ascii "-" ++ digits_loop 20 (n + 1) []
leaf_text (bytes bs) = ascii "0x" ++ hex_text bs
leaf_text (uint128 n) = hex_loop 32 n []
leaf_text _ = ascii "null"

-- The text of a value: JSON, with bytes and wide integers in hexadecimal.
abbrev pub comma : Bool → List ℕ
comma first = if first then [] else ascii ","

abbrev pub key_text : Bool → List ℕ → List ℕ
key_text keyed key = if keyed then ascii "\"" ++ (key ++ ascii "\":") else []

unfoldable mutual
  pub text : Value → List ℕ
  text (leaf n) = leaf_text n
  text (map_of ms) = ascii "{" ++ (members_text true true ms ++ ascii "}")
  text (array_of ms) = ascii "[" ++ (members_text false true ms ++ ascii "]")

  pub members_text : Bool → Bool → Members → List ℕ
  members_text keyed first end = []
  members_text keyed first (member key v ms) =
      comma first ++ (key_text keyed key ++ (text v ++ members_text keyed false ms))

abbrev pub IsLeaf : Node → Type 0
IsLeaf (map n) = ⊥
IsLeaf (array n) = ⊥
IsLeaf _ = Unit

unfoldable mutual
  pub IsValue : Value → Type 0
  IsValue (leaf n) = IsLeaf n
  IsValue (map_of ms) = AreValues ms
  IsValue (array_of ms) = AreValues ms

  pub AreValues : Members → Type 0
  AreValues end = Unit
  AreValues (member key v ms) = IsValue v × AreValues ms

append_hex_lem : (out bs : List ℕ) → append_hex out bs ≡ out ++ hex_text bs
unfolding append_hex hex_text
append_hex_lem out [] = sym (append-nil out)
append_hex_lem out (b ∷ bs) =
    append_hex_lem (out ++ (hex_digit (b / 16) ∷ hex_digit (b % 16) ∷ [])) bs
    ∙ append_assoc out (hex_digit (b / 16) ∷ hex_digit (b % 16) ∷ []) (hex_text bs)

dump_switch-leaf :
    (dump : List ℕ → List Node → Option Dumped) (n : Node) (out : List ℕ) (cursor : List Node)
    → IsLeaf n
    → dump_switch dump n out cursor ≡ some (out ++ leaf_text n, cursor)
unfolding dump_switch leaf_text append_unsigned append_integer append_uint128
dump_switch-leaf dump (utf8_string s) out cursor h = simp append_assoc
dump_switch-leaf dump (double t) out cursor h = refl
dump_switch-leaf dump (float t) out cursor h = refl
dump_switch-leaf dump (boolean b) out cursor h = refl
dump_switch-leaf dump (uint16 n) out cursor h = refl
dump_switch-leaf dump (uint32 n) out cursor h = refl
dump_switch-leaf dump (uint64 n) out cursor h = refl
dump_switch-leaf dump (uint128 n) out cursor h = refl
dump_switch-leaf dump (int32 (pos n)) out cursor h = refl
dump_switch-leaf dump (int32 (negsuc n)) out cursor h = simp append_assoc
dump_switch-leaf dump (bytes bs) out cursor h =
    rw (append_hex_lem (out ++ ascii "0x") bs) (simp append_assoc)
dump_switch-leaf dump other out cursor h = refl
dump_switch-leaf dump (map n) out cursor h = absurd h
dump_switch-leaf dump (array n) out cursor h = absurd h

-- The text before a member's value.
abbrev lead : List ℕ → Bool → Bool → List ℕ → List ℕ
lead out keyed first key = out ++ (comma first ++ key_text keyed key)

-- The rest of a round, after the value of the member.
abbrev go_on : (List ℕ → List Node → Option Dumped) → Bool → ℕ → Option Dumped → Option Dumped
go_on dump keyed left none = none
go_on dump keyed left (some (out, cursor)) = dump_members dump keyed false left out cursor

member_step :
    (dump : List ℕ → List Node → Option Dumped) (keyed first : Bool) (key : List ℕ) (v : Value)
    (ms : Members) (out out' : List ℕ) (rest : List Node)
    → dump (lead out keyed first key) (nodes v ++ (member_nodes keyed ms ++ rest))
      ≡ some (out', member_nodes keyed ms ++ rest)
    → dump_members dump keyed first
        (size (member key v ms))
        out
        (member_nodes keyed (member key v ms) ++ rest)
      ≡ dump_members dump keyed false (size ms) out' (member_nodes keyed ms ++ rest)
unfolding dump_members member_nodes dump_key
member_step dump true true key v ms out out' rest e =
    ap (go_on dump true (size ms))
      (ap₂ dump (simp append_assoc) (append_assoc (nodes v) (member_nodes true ms) rest) ∙ e)
member_step dump true false key v ms out out' rest e =
    ap (go_on dump true (size ms))
      (ap₂ dump (simp append_assoc) (append_assoc (nodes v) (member_nodes true ms) rest) ∙ e)
member_step dump false true key v ms out out' rest e =
    ap (go_on dump false (size ms))
      (ap₂ dump (sym (append-nil out)) (append_assoc (nodes v) (member_nodes false ms) rest) ∙ e)
member_step dump false false key v ms out out' rest e =
    ap (go_on dump false (size ms))
      (ap₂ dump refl (append_assoc (nodes v) (member_nodes false ms) rest) ∙ e)

nodes-length :
    (keyed : Bool) (key : List ℕ) (v : Value) (ms : Members)
    → (length (nodes v) ≤ length (member_nodes keyed (member key v ms)))
      × (length (member_nodes keyed ms) ≤ length (member_nodes keyed (member key v ms)))
unfolding member_nodes
nodes-length true key v ms =
    let sum = length-append (nodes v) (member_nodes true ms) in
    (omega (arith, sum), omega (arith, sum))
nodes-length false key v ms =
    let sum = length-append (nodes v) (member_nodes false ms) in
    (omega (arith, sum), omega (arith, sum))

member_text :
    (keyed first : Bool) (key : List ℕ) (v : Value) (ms : Members) (out : List ℕ)
    → (lead out keyed first key ++ text v) ++ members_text keyed false ms
      ≡ out ++ members_text keyed first (member key v ms)
unfolding members_text
member_text keyed first key v ms out = simp append_assoc

enclosed :
    (out before inner after : List ℕ)
    → ((out ++ before) ++ inner) ++ after ≡ out ++ (before ++ (inner ++ after))
enclosed out before inner after = simp append_assoc

dump_end :
    (dump : List ℕ → List Node → Option Dumped) (keyed first : Bool) (out : List ℕ)
    (rest : List Node)
    → dump_members dump keyed first (size end) out (member_nodes keyed end ++ rest)
      ≡ some (out ++ members_text keyed first end, rest)
unfolding dump_members member_nodes members_text
dump_end dump true first out rest = ap (λ t. some (t, rest)) (sym (append-nil out))
dump_end dump false first out rest = ap (λ t. some (t, rest)) (sym (append-nil out))

mutual
  unfolding dump_node dump_switch nodes text IsValue

  dump_value :
      (v : Value) (fuel : ℕ) (out : List ℕ) (rest : List Node)
      → IsValue v
      → length (nodes v) ≤ fuel
      → dump_node fuel out (nodes v ++ rest) ≡ some (out ++ text v, rest)
  dump_value (leaf n) zero out rest h le = absurd (omega arith)
  dump_value (leaf n) (suc fuel) out rest h le = dump_switch-leaf (dump_node fuel) n out rest h
  dump_value (map_of ms) zero out rest h le = absurd (omega arith)
  dump_value (map_of ms) (suc fuel) out rest h le =
      ap (close_with (ascii "}"))
        (dump_all ms true true fuel (out ++ ascii "{") rest h (omega arith))
      ∙ ap (λ t. some (t, rest)) (enclosed out (ascii "{") (members_text true true ms) (ascii "}"))
  dump_value (array_of ms) zero out rest h le = absurd (omega arith)
  dump_value (array_of ms) (suc fuel) out rest h le =
      ap (close_with (ascii "]"))
        (dump_all ms false true fuel (out ++ ascii "[") rest h (omega arith))
      ∙ ap (λ t. some (t, rest)) (enclosed out (ascii "[") (members_text false true ms) (ascii "]"))

  dump_all :
      (ms : Members) (keyed first : Bool) (fuel : ℕ) (out : List ℕ) (rest : List Node)
      → AreValues ms
      → length (member_nodes keyed ms) ≤ fuel
      → dump_members (dump_node fuel) keyed first (size ms) out (member_nodes keyed ms ++ rest)
        ≡ some (out ++ members_text keyed first ms, rest)
  dump_all end keyed first fuel out rest h le = dump_end (dump_node fuel) keyed first out rest
  dump_all (member key v ms) keyed first fuel out rest (hv, h) le =
      let (value_short, rest_short) = nodes-length keyed key v ms in
      let out' = lead out keyed first key in
      member_step (dump_node fuel) keyed first key v ms out (out' ++ text v) rest
        (dump_value v fuel out' (member_nodes keyed ms ++ rest) hv (omega arith))
      ∙ dump_all ms keyed false fuel (out' ++ text v) rest h (omega arith)
      ∙ ap (λ t. some (t, rest)) (member_text keyed first key v ms out)

-- `dump_node` at a value consumes exactly the nodes of that value, those of nested members included, and
-- appends its text; as much fuel as there are nodes is enough.
pub dump_node-nodes :
    (v : Value) (fuel : ℕ) (out : List ℕ) (rest : List Node)
    → IsValue v
    → length (nodes v) ≤ fuel
    → dump_node fuel out (nodes v ++ rest) ≡ some (out ++ text v, rest)
dump_node-nodes v fuel out rest h le = dump_value v fuel out rest h le

first_node : (v : Value) → (n : Node) × (ns : List Node) × (nodes v ≡ n ∷ ns)
unfolding nodes
first_node (leaf n) = (n, [], refl)
first_node (map_of ms) = (map (size ms), member_nodes true ms, refl)
first_node (array_of ms) = (array (size ms), member_nodes false ms, refl)

format_entry-cons :
    (all : List Node) (n : Node) (ns : List Node) (out : List ℕ)
    → all ≡ n ∷ ns
    → dump_node (length all) [] all ≡ some (out, [])
    → format_entry true (some all) ≡ some out
unfolding format_entry
format_entry-cons [] n ns out same e = cc
format_entry-cons (m ∷ ms) n ns out same e = rw (e, format_entry)

-- `format_entry` of a found entry prints the text of its value, whatever its nesting: the nodes of the
-- value are enough fuel.
pub format_entry-nodes :
    (v : Value) → IsValue v → format_entry true (some (nodes v)) ≡ some (text v)
format_entry-nodes v h =
    let (n, ns, same) = first_node v in
    format_entry-cons (nodes v) n ns (text v) same (
      ap (dump_node (length (nodes v)) []) (sym (append-nil (nodes v)))
      ∙ dump_node-nodes v (length (nodes v)) [] [] h (omega arith))
