-- ===== src/Spoa/Agent/Evaluate.antt =====
-- One argument of a NOTIFY frame, and what the answer to all of them depends on.
use haproxy_spoa_firehol_mmd.Prelude.{
  ℕ, suc, ◌+◌, ◌%◌, ◌^◌, ◌≡◌, refl, ap, Bool, true, false, not, ◌||◌, List, [], ◌∷◌, ◌++◌, Option,
  none, some, inl, inr, if◌then◌else◌, Bool-cases, bytes_eq,
}
use haproxy_spoa_firehol_mmd.Spoa.Message.{Arg, Message}
use haproxy_spoa_firehol_mmd.Spoa.Categories.{Categories, find, increment}
use haproxy_spoa_firehol_mmd.Spoa.Categories.Counting.{
  IsConfigured, increment-IsConfigured, find-increment, first_configured, count_one, is_name,
}
use haproxy_spoa_firehol_mmd.Spoa.Database.{Library}
use haproxy_spoa_firehol_mmd.Spoa.Agent.{Agent, is_supported, lookup_value, evaluate_argument}
use haproxy_spoa_firehol_mmd.Spoa.Agent.Lookup.{
  found_categories, is_some, counted_lookup, evaluate_lookup_lem,
}

-- What the database has for an argument.
abbrev pub arg_categories : Option Library → Arg → List (List ℕ)
arg_categories none a = []
arg_categories (some lib) a =
    if is_supported a.value then found_categories lib (lookup_value lib a.value) else []

-- The configured category of an argument.
abbrev pub arg_match : Option Library → Categories → Arg → Option (List ℕ)
arg_match db m a = first_configured (arg_categories db a) m

-- The specification of `handle_notify`'s flags, and of how often a name is counted.
abbrev pub any_bad : Option Library → Categories → List Arg → Bool
any_bad db m [] = false
any_bad db m (a ∷ args) = is_some (arg_match db m a) || any_bad db m args

abbrev pub any_unsupported : List Arg → Bool
any_unsupported [] = false
any_unsupported (a ∷ args) = not (is_supported a.value) || any_unsupported args

abbrev pub hits : List ℕ → Option Library → Categories → List Arg → ℕ
hits name db m [] = 0
hits name db m (a ∷ args) =
    if is_name name (arg_match db m a) then suc (hits name db m args) else hits name db m args

abbrev pub all_args : List Message → List Arg
all_args [] = []
all_args (m ∷ ms) = m.args ++ all_args ms

-- Counting changes no name, so it does not change what matches.
abbrev pub SameNames : Categories → Categories → Type 0
SameNames m m' = (name : List ℕ) → is_some (find name m) ≡ is_some (find name m')

pub first_configured_same :
    (cs : List (List ℕ)) (m m' : Categories)
    → SameNames m m'
    → first_configured cs m ≡ first_configured cs m'
first_configured_same [] m m' s = refl
first_configured_same (c ∷ cs) m m' s =
    same_step c (find c m) (find c m') (s c) (first_configured_same cs m m' s)
  where
    same_step :
        (c : List ℕ) {x y : Option (List ℕ)} (o o' : Option ℕ)
        → is_some o ≡ is_some o'
        → x ≡ y
        → elim o as (λ _. Option (List ℕ)) [ none ↦ x | some n ↦ some c ]
          ≡ elim o' as (λ _. Option (List ℕ)) [ none ↦ y | some n ↦ some c ]
    same_step c none none e h = h
    same_step c none (some n) e h = absurd (cc)
    same_step c (some n) none e h = absurd (cc)
    same_step c (some n) (some n') e h = refl

increment-SameNames : (c : List ℕ) (m : Categories) → SameNames m (increment c m)
increment-SameNames c m name = elim (Bool-cases (bytes_eq c name)) [
  | inl same ↦ rw (find-increment c name m, same) (kept (find name m))
  | inr other ↦ rw (find-increment c name m, other)
]
  where
    kept :
        (o : Option ℕ)
        → is_some o
          ≡ is_some (elim o as (λ _. Option ℕ) [ none ↦ none | some n ↦ some ((n + 1) % 2 ^ 64) ])
    kept none = refl
    kept (some n) = refl

pub count_one-SameNames : (o : Option (List ℕ)) (m : Categories) → SameNames m ((count_one o m).1)
count_one-SameNames none m name = refl
count_one-SameNames (some c) m name = increment-SameNames c m name

pub count_one-IsConfigured :
    (o : Option (List ℕ)) (m : Categories) → IsConfigured m → IsConfigured ((count_one o m).1)
count_one-IsConfigured none m h = h
count_one-IsConfigured (some c) m h = increment-IsConfigured c m h

-- The state of the agent after an argument.
abbrev pub counted_argument : Option Library → Arg → Agent → Agent
counted_argument none a agent = agent
counted_argument (some lib) a agent =
    if is_supported a.value then counted_lookup lib (lookup_value lib a.value) agent else agent

pub or_false : (b : Bool) → b ≡ (b || false)
or_false true = refl
or_false false = refl

pub or_assoc : (a b c : Bool) → ((a || b) || c) ≡ (a || (b || c))
or_assoc true b c = refl
or_assoc false b c = refl

pub evaluate_argument_lem :
    (log : Bool) (db : Option Library) (a : Arg) (agent : Agent) (ip_bad : Bool)
    → IsConfigured agent.drop_categories
    → evaluate_argument log db a (agent, ip_bad) ≡ (
      is_supported a.value,
      (counted_argument db a agent, ip_bad || is_some (arg_match db agent.drop_categories a)),
    )
unfolding evaluate_argument
evaluate_argument_lem log none a agent ip_bad h =
    ap (λ b. (is_supported a.value, (agent, b))) (or_false ip_bad)
evaluate_argument_lem log (some lib) a agent ip_bad h = elim (Bool-cases (is_supported a.value)) [
  | inr unsupported ↦ rw unsupported (ap (λ b. (false, (agent, b))) (or_false ip_bad))
  | inl supported ↦
      let r = lookup_value lib a.value in
      rw supported (ap (λ s. (true, s)) (evaluate_lookup_lem log lib (r.0) (r.1) agent ip_bad h))
]

pub counted_argument-categories :
    (db : Option Library) (a : Arg) (agent : Agent)
    → let m = agent.drop_categories in
      (counted_argument db a agent).drop_categories ≡ (count_one (arg_match db m a) m).1
counted_argument-categories none a agent = refl
counted_argument-categories (some lib) a agent = elim (Bool-cases (is_supported a.value)) [
  | inr unsupported ↦ rw unsupported
  | inl supported ↦ rw supported
]
