-- ===== src/Spoa/Categories/Counting.antt =====
-- Counting: exactly one configured category is counted, the first of a list.
use haproxy_spoa_firehol_mmd.Prelude.{
  ◌<◌, ℕ, ◌+◌, ◌%◌, ◌^◌, ◌≡◌, refl, sym, ap, ◌∙◌, Bool, true, false, List, [], ◌∷◌, Option, none,
  some, arith, inl, inr, if◌then◌else◌, bytes_eq, bytes_eq_refl, bytes_eq→eq, Bool-cases,
  Option-cases,
}
use haproxy_spoa_firehol_mmd.Spoa.Categories.{
  Categories, is_nil, find, increment, match_and_increment, match_first, blocked,
}

-- Every key is a name, not empty, and every counter is a uint64_t. `load` sees to it.
abbrev pub IsConfigured : Categories → Type 0
IsConfigured [] = Unit
IsConfigured ((key, n) ∷ m) = (is_nil key ≡ false) × (n < 2 ^ 64) × IsConfigured m

pub find-named :
    (name : List ℕ) (m : Categories) {n : ℕ}
    → IsConfigured m
    → find name m ≡ some n
    → is_nil name ≡ false
unfolding find
find-named name [] h e = cc
find-named name ((key, k) ∷ m) {n = n} (hk, hn, h) e = elim (Bool-cases (bytes_eq key name)) [
  | inl same ↦ ap is_nil (sym (bytes_eq→eq key name same)) ∙ hk
  | inr other ↦ find-named name m {n = n} h (ground arith)
]

-- Incrementing keeps the names.
pub increment-IsConfigured :
    (name : List ℕ) (m : Categories) → IsConfigured m → IsConfigured (increment name m)
unfolding increment
increment-IsConfigured name [] h = tt
increment-IsConfigured name ((key, k) ∷ m) (hk, hn, h) = elim (Bool-cases (bytes_eq key name)) [
  | inl same ↦ rw same (hk, (let r : (k + 1) % 2 ^ 64 < 2 ^ 64 = omega arith in r), h)
  | inr other ↦ rw other (hk, hn, increment-IsConfigured name m h)
]

pub find-lt :
    (name : List ℕ) (m : Categories) {n : ℕ} → IsConfigured m → find name m ≡ some n → n < 2 ^ 64
unfolding find
find-lt name [] h e = cc
find-lt name ((key, k) ∷ m) {n = n} (hk, hn, h) e = elim (Bool-cases (bytes_eq key name)) [
  | inl same ↦ let head : k ≡ n = ground arith in omega (arith, head)
  | inr other ↦ find-lt name m {n = n} h (ground arith)
]

pub blocked-lt : (name : List ℕ) (m : Categories) → IsConfigured m → blocked name m < 2 ^ 64
unfolding blocked
blocked-lt name m h = elim (Option-cases (find name m)) [
  | inl none_here ↦ rw (none_here, blocked) (omega arith)
  | inr (n, here) ↦ rw (here, blocked) (find-lt name m {n = n} h here)
]

-- The counter of every name after an increment.
pub find-increment :
    (name other : List ℕ) (m : Categories)
    → find other (increment name m) ≡ (
        if bytes_eq name other
        then (elim (find other m) [ none ↦ none | some n ↦ some ((n + 1) % 2 ^ 64) ])
        else find other m)
unfolding find increment
find-increment name other [] = ground arith
find-increment name other ((key, n) ∷ m) = elim (Bool-cases (bytes_eq key name)) [
  | inl same ↦ rw (same, bytes_eq→eq key name same) (ground arith)
  | inr differ ↦ elim (Bool-cases (bytes_eq key other)) [
    | inl here ↦ rw (differ, here) (rw (name_differs key name other differ here))
    | inr there ↦ rw (differ, there) (find-increment name other m)
  ]
]
  where
    name_differs :
        (key name other : List ℕ)
        → bytes_eq key name ≡ false
        → bytes_eq key other ≡ true
        → bytes_eq name other ≡ false
    name_differs key name other differ here = elim (Bool-cases (bytes_eq name other)) [
      | inl e ↦ absurd (
          let c : true ≡ false =
            rw (bytes_eq→eq key other here, bytes_eq→eq name other e, bytes_eq_refl other) at
              differ in
          cc)
      | inr ne ↦ ne
    ]

-- The first of the names that is configured, and whether it is a certain name.
abbrev pub first_configured : List (List ℕ) → Categories → Option (List ℕ)
first_configured [] m = none
first_configured (c ∷ cs) m = elim (find c m) [ none ↦ first_configured cs m | some n ↦ some c ]

abbrev pub is_name : List ℕ → Option (List ℕ) → Bool
is_name name none = false
is_name name (some c) = bytes_eq c name

-- What counting one name, or none, gives.
abbrev pub count_one : Option (List ℕ) → Categories → List ℕ × Categories
count_one none m = ([], m)
count_one (some c) m = (c, increment c m)

pub match_unknown :
    (c : List ℕ) (m : Categories) → find c m ≡ none → match_and_increment c m ≡ ([], m)
unfolding match_and_increment
match_unknown c m e = rw (e, match_and_increment)

pub match_known :
    (c : List ℕ) (m : Categories) (n : ℕ)
    → find c m ≡ some n
    → match_and_increment c m ≡ (c, increment c m)
unfolding match_and_increment
match_known c m n e = rw (e, match_and_increment)

match_first-count_one :
    (cs : List (List ℕ)) (m : Categories)
    → IsConfigured m
    → match_first cs m ≡ count_one (first_configured cs m) m
unfolding match_first
match_first-count_one [] m h = refl
match_first-count_one (c ∷ cs) m h = elim (Option-cases (find c m)) [
  | inl unknown ↦
      rw (match_unknown c m unknown, unknown, first_configured) (match_first-count_one cs m h)
  | inr (n, known) ↦
      rw (match_known c m n known, known, first_configured, find-named c m {n = n} h known)
]

pub first_configured-find :
    (cs : List (List ℕ)) (m : Categories) {c : List ℕ}
    → first_configured cs m ≡ some c
    → (n : ℕ) × (find c m ≡ some n)
first_configured-find [] m e = cc
first_configured-find (c ∷ cs) m {c = d} e = elim (Option-cases (find c m)) [
  | inl unknown ↦
      first_configured-find cs m {c = d}
        (let next : first_configured cs m ≡ some d = ground arith in next)
  | inr (n, known) ↦ (n, let same : c ≡ d = ground arith in rw (sym same) known)
]

blocked-found : (name : List ℕ) (m : Categories) {n : ℕ} → find name m ≡ some n → blocked name m ≡ n
unfolding blocked
blocked-found name m e = rw (e, blocked)

blocked_same :
    (name : List ℕ) (m m' : Categories)
    → find name m ≡ find name m'
    → blocked name m ≡ blocked name m'
unfolding blocked
blocked_same name m m' e = rw (e, blocked)

pub blocked-count_one :
    (o : Option (List ℕ)) (m : Categories) (name : List ℕ)
    → ((c : List ℕ) → o ≡ some c → (n : ℕ) × (find c m ≡ some n))
    → blocked name ((count_one o m).1)
      ≡ (if is_name name o then (blocked name m + 1) % 2 ^ 64 else blocked name m)
blocked-count_one none m name h = refl
blocked-count_one (some c) m name h =
    let (n, known) = h c refl in
    elim (Bool-cases (bytes_eq c name)) [
      | inl same ↦
          let counter : find name m ≡ some n = rw (bytes_eq→eq c name same) at known in
          rw same (
            blocked-found name (increment c m) (find-increment c name m ∙ rw (same, counter))
            ∙ ap (λ k. (k + 1) % 2 ^ 64) (sym (blocked-found name m counter)))
      | inr other ↦
          rw other (blocked_same name (increment c m) m (find-increment c name m ∙ rw other))
    ]

-- Of a list of categories, the first one that is configured is returned, or the empty view where there
-- is none. Its counter, and no other, goes up by one modulo 2^64.
pub match_first_lem :
    (cs : List (List ℕ)) (m : Categories)
    → IsConfigured m
    → let (matched, m') = match_first cs m in
      (matched ≡ elim (first_configured cs m) [ none ↦ [] | some c ↦ c ])
      × IsConfigured m'
      × ((name : List ℕ)
          → blocked name m' ≡ (
              if is_name name (first_configured cs m)
              then (blocked name m + 1) % 2 ^ 64
              else blocked name m))
match_first_lem cs m h = rw (match_first-count_one cs m h) (
  returned (first_configured cs m) m,
  named (first_configured cs m) m h,
  λ name.
      blocked-count_one (first_configured cs m) m name
        (λ c e. first_configured-find cs m {c = c} e),
)
  where
    returned :
        (o : Option (List ℕ)) (m : Categories)
        → ((count_one o m).0) ≡ elim o as (λ _. List ℕ) [ none ↦ [] | some c ↦ c ]
    returned none m = refl
    returned (some c) m = refl

    named :
        (o : Option (List ℕ)) (m : Categories) → IsConfigured m → IsConfigured ((count_one o m).1)
    named none m h = h
    named (some c) m h = increment-IsConfigured c m h
