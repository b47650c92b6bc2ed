-- ===== src/Spoa/Categories.antt =====
-- src/spoa/drop_categories.h and drop_categories.cpp: the configured categories and their counters.
-- The unordered map is an association list: the code never depends on its order.
pub mod Counting
pub mod Load
pub mod Names
use haproxy_spoa_firehol_mmd.Prelude.{
  ℕ, ◌+◌, ◌%◌, ◌^◌, ◌==◌, Bool, true, false, ◌&&◌, ◌||◌, List, [], ◌∷◌, ◌++◌, Option, none, some,
  ltb, if◌then◌else◌, bytes_eq,
}
use haproxy_spoa_firehol_mmd.Prelude.Text.{ascii}
use haproxy_spoa_firehol_mmd.Utils.Strings.{trim}

-- `categories_`
abbrev pub Categories : Type 0
Categories = List (List ℕ × ℕ)

-- `empty()` of a text.
abbrev pub is_nil : List ℕ → Bool
is_nil [] = true
is_nil (c ∷ cs) = false

-- The rest of `std::views::split` after a first character: there is a last piece, maybe an empty one.
abbrev cons_first : ℕ → List (List ℕ) → List (List ℕ)
cons_first c [] = (c ∷ []) ∷ []
cons_first c (p ∷ ps) = (c ∷ p) ∷ ps

unfoldable pub pieces : ℕ → List ℕ → List (List ℕ)
pieces sep [] = [] ∷ []
pieces sep (c ∷ cs) = let rest = pieces sep cs in if c == sep then [] ∷ rest else cons_first c rest

-- `std::views::split(text, sep)`: nothing of an empty text.
unfoldable pub split : ℕ → List ℕ → List (List ℕ)
split sep [] = []
split sep (c ∷ cs) = pieces sep (c ∷ cs)

-- `categories_.find(name)`: the counter.
unfoldable pub find : List ℕ → Categories → Option ℕ
find name [] = none
find name ((key, n) ∷ m) = if bytes_eq key name then some n else find name m

unfoldable pub try_emplace : List ℕ → ℕ → Categories → Categories
try_emplace name n m = elim (find name m) [ none ↦ (name, n) ∷ m | some old ↦ m ]

-- The loop of `load`.
unfoldable pub load_tokens : Categories → List (List ℕ) → Categories
load_tokens m [] = m
load_tokens m (token ∷ tokens) =
    let name = trim token in load_tokens (if is_nil name then m else try_emplace name 0 m) tokens

unfoldable pub load : List ℕ → Categories
load config = load_tokens [] (split b',' config)

-- `operator<` of std::string_view.
unfoldable pub bytes_lt : List ℕ → List ℕ → Bool
bytes_lt xs [] = false
bytes_lt [] (y ∷ ys) = true
bytes_lt (x ∷ xs) (y ∷ ys) = ltb x y || x == y && bytes_lt xs ys

-- `std::ranges::sort`, which may be any algorithm: insertion.
unfoldable pub insert : List ℕ → List (List ℕ) → List (List ℕ)
insert x [] = x ∷ []
insert x (y ∷ ys) = let rest = insert x ys in if bytes_lt y x then y ∷ rest else x ∷ y ∷ ys

unfoldable pub sort : List (List ℕ) → List (List ℕ)
sort [] = []
sort (x ∷ xs) = insert x (sort xs)

unfoldable pub keys : Categories → List (List ℕ)
keys [] = []
keys ((key, n) ∷ m) = key ∷ keys m

unfoldable pub names : Categories → List (List ℕ)
names m = sort (keys m)

-- The loop of `names_string`, with what `out` holds.
unfoldable pub join_names : List ℕ → List (List ℕ) → List ℕ
join_names out [] = out
join_names out (name ∷ more) =
    join_names ((if is_nil out then out else out ++ ascii ", ") ++ name) more

unfoldable pub names_string : Categories → List ℕ
names_string m = join_names [] (names m)

-- `it->second.fetch_add(1)`, modulo 2^64.
unfoldable pub increment : List ℕ → Categories → Categories
increment name [] = []
increment name ((key, n) ∷ m) =
    let rest = increment name m in
    if bytes_eq key name then (key, (n + 1) % 2 ^ 64) ∷ m else (key, n) ∷ rest

-- `match_and_increment(std::string_view)`: the name, or an empty view, and the new counters. The view
-- returned is the map's own copy of the name.
unfoldable pub match_and_increment : List ℕ → Categories → List ℕ × Categories
match_and_increment category m = elim (find category m) [
  | none ↦ ([], m)
  | some n ↦ (category, increment category m)
]

-- `match_and_increment(std::span)`
unfoldable pub match_first : List (List ℕ) → Categories → List ℕ × Categories
match_first [] m = ([], m)
match_first (c ∷ cs) m =
    let step = match_and_increment c m in
    let rest = match_first cs (step.1) in if is_nil (step.0) then rest else step

unfoldable pub blocked : List ℕ → Categories → ℕ
blocked name m = elim (find name m) [ none ↦ 0 | some n ↦ n ]
