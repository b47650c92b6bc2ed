-- ===== src/Builder/Pool.antt =====
-- The class DataPool of src/mmdb_builder/builder.hpp and builder.cpp: `intern` and `store`. A view of an
-- interned string is its bytes, so that the set of strings has no part; the hash only chooses a bucket of
-- the map, which is the list of its entries. IDs are assumed to fit a uint32_t.
pub mod Intern
pub mod Cells
use haproxy_spoa_firehol_mmd.Prelude.{
  ℕ, suc, ◌+◌, ◌*◌, ◌%◌, ◌^◌, ◌==◌, Bool, true, false, ◌&&◌, ◌||◌, not, List, [], ◌∷◌, ◌++◌, Option,
  none, some, leb, if◌then◌else◌, bytes_eq,
}
use haproxy_spoa_firehol_mmd.Prelude.Int.{to_u64}
use haproxy_spoa_firehol_mmd.Prelude.Lists.{length, get_or}
use haproxy_spoa_firehol_mmd.Spoa.Categories.{bytes_lt}
use haproxy_spoa_firehol_mmd.Builder.Values.{
  Scalar, monostate, string_view, bytes, uint16, uint32, uint64, int32, boolean, double, float,
}

-- `InternalData`
pub data Value : Type 0 where
  scalar : Scalar → Value
  map : List (ℕ × ℕ) → Value
  array : List ℕ → Value

-- `Data`; the members of an object are those of a std::map, by their keys.
mutual
  pub data Data : Type 0 where
    value : Scalar → Data
    object : Members → Data
    array_of : Items → Data

  pub data Members : Type 0 where
    no_member : Members
    member : List ℕ → Data → Members → Members

  pub data Items : Type 0 where
    no_item : Items
    item : Data → Items → Items

-- `operator==` of floating point numbers, by their bits: a NaN equals nothing, and the zeros are equal.
unfoldable pub same_number : ℕ → ℕ → ℕ → ℕ → Bool
same_number sign infinity a b =
    leb (a % sign) infinity
    && leb (b % sign) infinity
    && (a == b || (a % sign == 0 && b % sign == 0))

unfoldable pub same_scalar : Scalar → Scalar → Bool
same_scalar monostate monostate = true
same_scalar (string_view a) (string_view b) = bytes_eq a b
same_scalar (bytes a) (bytes b) = bytes_eq a b
same_scalar (uint16 a) (uint16 b) = a == b
same_scalar (uint32 a) (uint32 b) = a == b
same_scalar (uint64 a) (uint64 b) = a == b
same_scalar (int32 a) (int32 b) = to_u64 a == to_u64 b
same_scalar (boolean a) (boolean b) = if a then b else not b
same_scalar (double a) (double b) = same_number (2 ^ 63) (2047 * 2 ^ 52) a b
same_scalar (float a) (float b) = same_number (2 ^ 31) (255 * 2 ^ 23) a b
same_scalar _ _ = false

unfoldable pub same_fields : List (ℕ × ℕ) → List (ℕ × ℕ) → Bool
same_fields [] [] = true
same_fields ((k, v) ∷ fs) ((k', v') ∷ fs') = k == k' && v == v' && same_fields fs fs'
same_fields _ _ = false

unfoldable pub same : Value → Value → Bool
same (scalar a) (scalar b) = same_scalar a b
same (map a) (map b) = same_fields a b
same (array a) (array b) = bytes_eq a b
same _ _ = false

pub record Pool : Type 0 where
  pub id_to_data : List Value
  pub data_to_id : List (Value × ℕ)

-- 0 is reserved for no data.
abbrev pub empty_pool : Pool
empty_pool = record { id_to_data = scalar monostate ∷ []; data_to_id = [] }

abbrev pub data_at : Pool → ℕ → Value
data_at p i = get_or p.id_to_data i (scalar monostate)

unfoldable pub find : Value → List (Value × ℕ) → Option ℕ
find v [] = none
find v ((w, i) ∷ entries) = let rest = find v entries in if same v w then some i else rest

unfoldable pub add : Value → Pool → ℕ × Pool
add v p =
    let id = length p.id_to_data in
    (id, record { id_to_data = p.id_to_data ++ (v ∷ []); data_to_id = (v, id) ∷ p.data_to_id })

unfoldable pub intern_as : Option ℕ → Value → Pool → ℕ × Pool
intern_as none v p = add v p
intern_as (some id) v p = (id, p)

unfoldable pub intern : Value → Pool → ℕ × Pool
intern v p = intern_as (find v p.data_to_id) v p

unfoldable pub text_of : Value → List ℕ
text_of (scalar (string_view s)) = s
text_of _ = []

-- `std::sort` by the texts of the keys, which may be any algorithm: insertion.
unfoldable pub insert_field : Pool → ℕ × ℕ → List (ℕ × ℕ) → List (ℕ × ℕ)
insert_field p f [] = f ∷ []
insert_field p f (g ∷ gs) =
    let rest = insert_field p f gs in
    if bytes_lt (text_of (data_at p g.0)) (text_of (data_at p f.0)) then g ∷ rest else f ∷ g ∷ gs

unfoldable pub sort_fields : Pool → List (ℕ × ℕ) → List (ℕ × ℕ)
sort_fields p [] = []
sort_fields p (f ∷ fs) = insert_field p f (sort_fields p fs)

unfoldable pub store_scalar : Scalar → Pool → ℕ × Pool
store_scalar monostate p = (0, p)
store_scalar v p = intern (scalar v) p

unfoldable mutual
  pub store : Data → Pool → ℕ × Pool
  store (value v) p = store_scalar v p
  store (object ms) p =
      let (fields, p') = store_members ms p in intern (map (sort_fields p' fields)) p'
  store (array_of is) p = let (elements, p') = store_items is p in intern (array elements) p'

  pub store_members : Members → Pool → List (ℕ × ℕ) × Pool
  store_members no_member p = ([], p)
  store_members (member key d ms) p =
      let (k, p₁) = intern (scalar (string_view key)) p in
      let (v, p₂) = store d p₁ in let (fields, p₃) = store_members ms p₂ in ((k, v) ∷ fields, p₃)

  pub store_items : Items → Pool → List ℕ × Pool
  store_items no_item p = ([], p)
  store_items (item d is) p =
      let (e, p₁) = store d p in let (elements, p₂) = store_items is p₁ in (e ∷ elements, p₂)
