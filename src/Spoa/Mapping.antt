-- ===== src/Spoa/Mapping.antt =====
-- The ownership of a mapped database: the constructors, the moves, `open` and `close` of the class Mmdb
-- of src/mmdb/mmdb.h and mmdb.cpp. A handle of libmaxminddb is a number, 0 for the empty one; the
-- library's mappings are a store. `MMDB_open` is a parameter: its status on a path.
pub mod Balance
use haproxy_spoa_firehol_mmd.Prelude.{
  ℕ, suc, ◌+◌, ◌==◌, Bool, true, false, List, [], ◌∷◌, if◌then◌else◌,
}
use haproxy_spoa_firehol_mmd.Prelude.Int.{ℤ}
use haproxy_spoa_firehol_mmd.Spoa.Database.{is_zero, c_string}

-- `mmdb_`, `open_` and `path_`
pub record Mmdb : Type 0 where
  pub handle : ℕ
  pub is_open : Bool
  pub path : List ℕ

-- The mappings that have been opened and not closed, and the next handle.
pub record Mappings : Type 0 where
  pub live : List ℕ
  pub next : ℕ

-- `Mmdb() = default`
abbrev pub empty : Mmdb
empty = record { handle = 0; is_open = false; path = [] }

-- `MMDB_close`: a mapping goes, once.
unfoldable pub remove : ℕ → List ℕ → List ℕ
remove h [] = []
remove h (x ∷ xs) = let rest = remove h xs in if x == h then xs else x ∷ rest

unfoldable pub close : Mmdb → Mappings → Mmdb × Mappings
close m s = if m.is_open then (empty, record s { live = remove m.handle s.live }) else (m, s)

module _ (mmdb_open : List ℕ → ℤ) where
  -- Whether it throws, with the object and the mappings after it.
  unfoldable pub open_path : List ℕ → Mmdb → Mappings → Bool × Mmdb × Mappings
  open_path path m s =
      let (m', s') = close m s in
      if is_zero (mmdb_open (c_string path))
      then (
        false,
        record { handle = s'.next; is_open = true; path = path },
        record { live = s'.next ∷ s'.live; next = suc s'.next },
      )
      else (true, m', s')

-- What `std::exchange(other.mmdb_, {})` and the like leave in `other`. The path that a move leaves is not
-- specified: `moved`.
abbrev emptied : List ℕ → Mmdb
emptied moved = record { handle = 0; is_open = false; path = moved }

-- The move constructor: the new object, and `other` after it.
unfoldable pub move_construct : List ℕ → Mmdb → Mmdb × Mmdb
move_construct moved other =
    (record { handle = other.handle; is_open = other.is_open; path = other.path }, emptied moved)

-- The move assignment from another object, where `this != &other`.
unfoldable pub move_assign : List ℕ → Mmdb → Mmdb → Mappings → Mmdb × Mmdb × Mappings
move_assign moved m other s =
    let (m', s') = close m s in
    (
      record { handle = other.handle; is_open = other.is_open; path = other.path },
      emptied moved,
      s',
    )
