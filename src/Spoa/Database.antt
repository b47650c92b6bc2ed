-- ===== src/Spoa/Database.antt =====
-- The lookups of src/mmdb/mmdb.h and mmdb.cpp, with `parse_ipv6` of src/utils/net_utils.h. libmaxminddb
-- and `inet_pton` are a parameter: `Library`. An entry is an offset in the database.
pub mod Visits
pub mod Address
use haproxy_spoa_firehol_mmd.Prelude.{
  ℕ, zero, suc, ◌+◌, ◌-◌, ◌/◌, ◌%◌, ◌==◌, Bool, true, false, not, ◌&&◌, ◌||◌, List, [], ◌∷◌, ◌++◌,
  Option, none, some, ltb, leb, if◌then◌else◌,
}
use haproxy_spoa_firehol_mmd.Prelude.Lists.{length}
use haproxy_spoa_firehol_mmd.Prelude.Int.{ℤ, pos, negsuc, ◌+ℤ◌}
use haproxy_spoa_firehol_mmd.Prelude.Text.{ascii}
use haproxy_spoa_firehol_mmd.Utils.Ipv4.{parse_ipv4}

-- The tags of `MMDB_entry_data_s` that the code tests.
pub data DataType : Type 0 where
  type_array type_utf8_string type_other : DataType

-- `MMDB_entry_data_s`: the type, where the value stands, its size, and the bytes of a text.
pub record EntryData : Type 0 where
  pub type : DataType
  pub offset : ℕ
  pub data_size : ℕ
  pub bytes : List ℕ

-- `MMDB_lookup_result_s`
pub record LookupResult : Type 0 where
  pub found_entry : Bool
  pub entry : ℕ

-- An open database as the library shows it. `get_value` is `MMDB_aget_value` with a path of one step,
-- `none` where its status is not MMDB_SUCCESS; `inet_pton` is that of AF_INET6, on the bytes up to the
-- terminator.
pub record Library : Type 0 where
  pub lookup_sockaddr : List ℕ → LookupResult × ℤ
  pub lookup_name : List ℕ → LookupResult × ℤ × ℤ
  pub get_value : ℕ → List ℕ → Option EntryData
  pub inet_pton : List ℕ → Option (List ℕ)
  pub invalid_data_error : ℤ

-- `MMDB_SUCCESS`
abbrev pub success : ℤ
success = pos 0

abbrev pub is_zero : ℤ → Bool
is_zero (pos n) = n == 0
is_zero (negsuc n) = false

-- What C code reads of a text: the bytes in front of the first NUL.
unfoldable pub c_string : List ℕ → List ℕ
c_string [] = []
c_string (c ∷ cs) = let rest = c_string cs in if c == 0 then [] else c ∷ rest

-- `INET6_ADDRSTRLEN`
abbrev pub inet6_addrstrlen : ℕ
inet6_addrstrlen = 46

unfoldable pub parse_ipv6 : Library → List ℕ → Option (List ℕ)
parse_ipv6 lib text =
    if length text == 0 || leb inet6_addrstrlen (length text)
    then none
    else lib.inet_pton (c_string text)

-- Both fill a socket address and pass it on.
unfoldable pub lookup_ipv4 : Library → List ℕ → LookupResult × ℤ
lookup_ipv4 lib octets = lib.lookup_sockaddr octets

unfoldable pub lookup_ipv6 : Library → List ℕ → LookupResult × ℤ
lookup_ipv6 lib octets = lib.lookup_sockaddr octets

-- The fallback of `lookup_string`. The text is copied to the stack or to the heap, and a NUL added.
unfoldable pub lookup_host : Library → List ℕ → LookupResult × ℤ
lookup_host lib text =
    let (result, gai_error, error) = lib.lookup_name (c_string text) in
    (
      result,
      if is_zero gai_error then error else (lib.invalid_data_error +ℤ negsuc 999) +ℤ gai_error,
    )

unfoldable pub lookup_string : Library → List ℕ → LookupResult × ℤ
lookup_string lib text = elim (parse_ipv4 text) [
  | some octets ↦ lookup_ipv4 lib octets
  | none ↦ elim (parse_ipv6 lib text) [
    | some octets ↦ lookup_ipv6 lib octets
    | none ↦ lookup_host lib text
  ]
]

pub record CategoryArray : Type 0 where
  pub entry : ℕ
  pub size : ℕ

abbrev pub no_categories : CategoryArray
no_categories = record { entry = 0; size = 0 }

abbrev is_array : DataType → Bool
is_array DataType.type_array = true
is_array _ = false

abbrev is_utf8_string : DataType → Bool
is_utf8_string DataType.type_utf8_string = true
is_utf8_string _ = false

unfoldable pub category_array : Library → LookupResult → CategoryArray
category_array lib result =
    if result.found_entry
    then (elim (lib.get_value result.entry (ascii "category")) [
      | none ↦ no_categories
      | some d ↦
          if is_array d.type then record { entry = d.offset; size = d.data_size } else no_categories
    ])
    else no_categories

-- `std::to_chars` on an unsigned number, on fuel: the digits in front of `out`.
unfoldable pub digits_loop : ℕ → ℕ → List ℕ → List ℕ
digits_loop zero n out = out
digits_loop (suc fuel) n out =
    let out' = (48 + n % 10) ∷ out in
    let more = digits_loop fuel (n / 10) out' in if ltb n 10 then out' else more

-- Ten digits hold a uint32_t.
unfoldable pub to_chars : ℕ → List ℕ
to_chars n = digits_loop 10 n []

unfoldable pub category_at : Library → CategoryArray → ℕ → Option (List ℕ)
category_at lib array index = elim (lib.get_value array.entry (to_chars index)) [
  | none ↦ none
  | some d ↦ if is_utf8_string d.type then some d.bytes else none
]

-- The loop of `for_each_category`, with `left` rounds to go. `visit` updates the state that it captures
-- and says whether to go on.
module _ {ℓ} {S : Type ℓ} (lib : Library) (visit : List ℕ → S → S × Bool) where
  unfoldable pub visit_loop : CategoryArray → ℕ → ℕ → S → S
  visit_loop array zero index s = s
  visit_loop array (suc left) index s = elim (category_at lib array index) [
    | none ↦ visit_loop array left (suc index) s
    | some category ↦
        let step = visit category s in
        let rest = visit_loop array left (suc index) (step.0) in if step.1 then rest else step.0
  ]

  unfoldable pub for_each_category : LookupResult → S → S
  for_each_category result s =
      let array = category_array lib result in visit_loop array array.size 0 s

-- The loop of `get_categories`.
unfoldable pub collect_loop : Library → CategoryArray → ℕ → ℕ → List (List ℕ)
collect_loop lib array zero index = []
collect_loop lib array (suc left) index =
    let rest = collect_loop lib array left (suc index) in
    elim (category_at lib array index) [ none ↦ rest | some category ↦ category ∷ rest ]

unfoldable pub get_categories : Library → LookupResult → List (List ℕ)
get_categories lib result =
    let array = category_array lib result in collect_loop lib array array.size 0
