-- ===== src/Spoa/Categories/Load.antt =====
-- Loading the configuration.
use haproxy_spoa_firehol_mmd.Prelude.{
  ◌^◌, ◌<◌, ℕ, ◌≡◌, refl, sym, ap, ◌∙◌, Bool, true, false, ◌&&◌, ◌||◌, not, List, [], ◌∷◌, Option,
  none, some, arith, inl, inr, if◌then◌else◌, bytes_eq, bytes_eq→eq, Bool-cases, Option-cases, suc,
}
use haproxy_spoa_firehol_mmd.Utils.Strings.{trim}
use haproxy_spoa_firehol_mmd.Spoa.Categories.{
  Categories, is_nil, split, find, try_emplace, load_tokens, load, keys, names,
}
use haproxy_spoa_firehol_mmd.Spoa.Categories.Counting.{IsConfigured}
use haproxy_spoa_firehol_mmd.Spoa.Categories.Names.{IsSorted, occurrences, names_lem}

-- A name is listed if it is not empty and one of the tokens is the name with white space around it.
unfoldable pub is_listed : List ℕ → List (List ℕ) → Bool
is_listed name [] = false
is_listed name (token ∷ tokens) =
    not (is_nil name) && bytes_eq (trim token) name || is_listed name tokens

-- Every counter of a loaded map is 0.
abbrev zero_if : Bool → Option ℕ
zero_if true = some 0
zero_if false = none

-- What a map gives for a name after a name was added, if `new` holds, with the counter 0.
abbrev or_zero : Option ℕ → Bool → Option ℕ
or_zero none new = zero_if new
or_zero (some n) new = some n

or_zero-false : (o : Option ℕ) → or_zero o false ≡ o
or_zero-false none = refl
or_zero-false (some n) = refl

or_zero-or : (o : Option ℕ) (a b : Bool) → or_zero (or_zero o a) b ≡ or_zero o (a || b)
or_zero-or none true b = refl
or_zero-or none false b = refl
or_zero-or (some n) a b = refl

try_emplace_new :
    (key : List ℕ) (m : Categories) → find key m ≡ none → try_emplace key 0 m ≡ (key, 0) ∷ m
unfolding try_emplace
try_emplace_new key m e = rw (e, try_emplace)

try_emplace_old :
    (key : List ℕ) (m : Categories) {n : ℕ} → find key m ≡ some n → try_emplace key 0 m ≡ m
unfolding try_emplace
try_emplace_old key m e = rw (e, try_emplace)

find_head :
    (name key : List ℕ) (m : Categories)
    → find key m ≡ none
    → find name ((key, 0) ∷ m) ≡ or_zero (find name m) (bytes_eq key name)
unfolding find
find_head name key m absent = elim (Bool-cases (bytes_eq key name)) [
  | inl same ↦
      let none_here : find name m ≡ none = rw (bytes_eq→eq key name same) at absent in
      rw (same, none_here)
  | inr other ↦ rw other (sym (or_zero-false (find name m)))
]

find-try_emplace :
    (name key : List ℕ) (m : Categories)
    → find name (try_emplace key 0 m) ≡ or_zero (find name m) (bytes_eq key name)
find-try_emplace name key m = elim (Option-cases (find key m)) [
  | inl absent ↦ rw (try_emplace_new key m absent) (find_head name key m absent)
  | inr (n, present) ↦
      rw (try_emplace_old key m {n = n} present) (elim (Bool-cases (bytes_eq key name)) [
        | inl same ↦
            let here : find name m ≡ some n = rw (bytes_eq→eq key name same) at present in
            rw (here, or_zero)
        | inr other ↦ rw other (sym (or_zero-false (find name m)))
      ])
]

-- The empty name is not added.
nil_not_added :
    (name token : List ℕ)
    → is_nil (trim token) ≡ true
    → (not (is_nil name) && bytes_eq (trim token) name) ≡ false
nil_not_added name token h = elim (Bool-cases (bytes_eq (trim token) name)) [
  | inl same ↦ rw (sym (bytes_eq→eq (trim token) name same), h)
  | inr other ↦ ground (arith)
]

name_added :
    (name token : List ℕ)
    → is_nil (trim token) ≡ false
    → (not (is_nil name) && bytes_eq (trim token) name) ≡ bytes_eq (trim token) name
name_added name token h = elim (Bool-cases (bytes_eq (trim token) name)) [
  | inl same ↦ rw (sym (bytes_eq→eq (trim token) name same), h)
  | inr other ↦ ground (arith)
]

find-load_tokens :
    (name : List ℕ) (m : Categories) (tokens : List (List ℕ))
    → find name (load_tokens m tokens) ≡ or_zero (find name m) (is_listed name tokens)
unfolding load_tokens is_listed
find-load_tokens name m [] = sym (or_zero-false (find name m))
find-load_tokens name m (token ∷ tokens) = elim (Bool-cases (is_nil (trim token))) [
  | inl blank ↦ rw (blank, nil_not_added name token blank) (find-load_tokens name m tokens)
  | inr named ↦
      rw (named, name_added name token named)
        (find-load_tokens name (try_emplace (trim token) 0 m) tokens
          ∙ ap (λ o. or_zero o (is_listed name tokens)) (find-try_emplace name (trim token) m)
          ∙ or_zero-or (find name m) (bytes_eq (trim token) name) (is_listed name tokens))
]

try_emplace-IsConfigured :
    (key : List ℕ) (m : Categories)
    → is_nil key ≡ false
    → IsConfigured m
    → IsConfigured (try_emplace key 0 m)
try_emplace-IsConfigured key m hk h = elim (Option-cases (find key m)) [
  | inl absent ↦ rw (try_emplace_new key m absent) (hk, (let r : 0 < 2 ^ 64 = omega arith in r), h)
  | inr (n, present) ↦ rw (try_emplace_old key m {n = n} present) h
]

load_tokens-IsConfigured :
    (m : Categories) (tokens : List (List ℕ)) → IsConfigured m → IsConfigured (load_tokens m tokens)
unfolding load_tokens
load_tokens-IsConfigured m [] h = h
load_tokens-IsConfigured m (token ∷ tokens) h = elim (Bool-cases (is_nil (trim token))) [
  | inl blank ↦ rw blank (load_tokens-IsConfigured m tokens h)
  | inr named ↦ rw named (
      load_tokens-IsConfigured (try_emplace (trim token) 0 m) tokens
        (try_emplace-IsConfigured (trim token) m named h))
]

-- After `load` a name is configured, with the counter 0, exactly if it is not empty and one of the
-- tokens between the commas is the name with white space around it; and no empty name is configured.
pub load_lem :
    (config : List ℕ)
    → IsConfigured (load config)
      × ((name : List ℕ)
          → find name (load config) ≡ (if is_listed name (split b',' config) then some 0 else none))
unfolding load find
load_lem config =
    let tokens = split b',' config in
    (load_tokens-IsConfigured [] tokens tt, λ name. found name tokens)
  where
    zero_if-if : (b : Bool) → zero_if b ≡ (if b then some 0 else none)
    zero_if-if true = refl
    zero_if-if false = refl

    found :
        (name : List ℕ) (tokens : List (List ℕ))
        → find name (load_tokens [] tokens) ≡ (if is_listed name tokens then some 0 else none)
    found name tokens = find-load_tokens name [] tokens ∙ zero_if-if (is_listed name tokens)

-- A map has each of its names once.
abbrev once : Option ℕ → ℕ
once none = 0
once (some n) = 1

abbrev IsOnce : Categories → Type 0
IsOnce m = (name : List ℕ) → occurrences name (keys m) ≡ once (find name m)

head_once :
    (name key : List ℕ) (m : Categories)
    → IsOnce m
    → find key m ≡ none
    → occurrences name (keys ((key, 0) ∷ m)) ≡ once (find name ((key, 0) ∷ m))
unfolding keys occurrences find
head_once name key m h absent = elim (Bool-cases (bytes_eq key name)) [
  | inl same ↦
      let none_here : find name m ≡ none = rw (bytes_eq→eq key name same) at absent in
      rw (same, once) (ap suc (h name ∙ rw (none_here, once)))
  | inr other ↦ rw (other, once) (h name)
]

try_emplace-IsOnce : (key : List ℕ) (m : Categories) → IsOnce m → IsOnce (try_emplace key 0 m)
try_emplace-IsOnce key m h = elim (Option-cases (find key m)) [
  | inl absent ↦ λ name. rw (try_emplace_new key m absent) (head_once name key m h absent)
  | inr (n, present) ↦ λ name. rw (try_emplace_old key m {n = n} present) (h name)
]

load_tokens-IsOnce :
    (m : Categories) (tokens : List (List ℕ)) → IsOnce m → IsOnce (load_tokens m tokens)
unfolding load_tokens
load_tokens-IsOnce m [] h = h
load_tokens-IsOnce m (token ∷ tokens) h = elim (Bool-cases (is_nil (trim token))) [
  | inl blank ↦ rw blank (load_tokens-IsOnce m tokens h)
  | inr named ↦ rw named (
      load_tokens-IsOnce (try_emplace (trim token) 0 m) tokens
        (try_emplace-IsOnce (trim token) m h))
]

-- After `load`, `names` has the listed names in ascending order, each once however often it is listed,
-- and no other.
pub names-load :
    (config : List ℕ)
    → IsSorted (names (load config))
      × ((name : List ℕ)
          → occurrences name (names (load config))
            ≡ (if is_listed name (split b',' config) then 1 else 0))
names-load config =
    let (sorted, same) = names_lem (load config) in
    (sorted, λ name. same name ∙ loaded_once config name ∙ counted name config)
  where
    loaded_once :
        (config name : List ℕ)
        → occurrences name (keys (load config)) ≡ once (find name (load config))
    loaded_once config name =
        unfold load in
        load_tokens-IsOnce [] (split b',' config) (λ name. unfold find keys occurrences in refl)
          name

    once-if : (b : Bool) → once (if b then some 0 else none) ≡ (if b then 1 else 0)
    once-if true = refl
    once-if false = refl

    counted :
        (name config : List ℕ)
        → once (find name (load config)) ≡ (if is_listed name (split b',' config) then 1 else 0)
    counted name config =
        ap once ((load_lem config).1 name) ∙ once-if (is_listed name (split b',' config))
