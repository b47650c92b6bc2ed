-- ===== src/Spoa/Agent/Lookup.antt =====
-- One lookup.
use haproxy_spoa_firehol_mmd.Prelude.{
  ℕ, ◌≡◌, refl, ap, ◌∙◌, Bool, true, false, ◌&&◌, ◌||◌, List, [], ◌∷◌, ◌++◌, Option, none, some,
  inl, inr, if◌then◌else◌, Option-cases, Bool-cases,
}
use haproxy_spoa_firehol_mmd.Prelude.Int.{ℤ}
use haproxy_spoa_firehol_mmd.Spoa.Categories.{Categories, is_nil, find, increment}
use haproxy_spoa_firehol_mmd.Spoa.Categories.Counting.{
  IsConfigured, find-named, match_unknown, match_known, first_configured, first_configured-find,
  count_one,
}
use haproxy_spoa_firehol_mmd.Spoa.Database.{
  LookupResult, Library, is_zero, for_each_category, get_categories,
}
use haproxy_spoa_firehol_mmd.Spoa.Database.Visits.{visit_until, for_each_category-get_categories}
use haproxy_spoa_firehol_mmd.Spoa.Agent.{
  Agent, Visit, visit_category, inc_lookups, inc_lookup_errors, evaluate_lookup,
}

-- The match and the counters of a visit.
abbrev outcome : Visit → List ℕ × Categories
outcome v = (v.matched, v.counters)

-- The categories that the log line shows.
abbrev shown : Bool → List ℕ → Visit → List (List ℕ)
shown log c v = if log then v.categories ++ (c ∷ []) else v.categories

visit_matched :
    (log : Bool) (c : List ℕ) (v : Visit)
    → is_nil v.matched ≡ false
    → visit_category log c v ≡ (record v { categories = shown log c v }, log)
unfolding visit_category
visit_matched true c v h = rw h
visit_matched false c v h = rw h (rw h)

-- Nothing has been matched yet.
abbrev pub fresh : List (List ℕ) → Categories → Visit
fresh categories m = record { matched = []; categories = categories; counters = m }

visit_unknown :
    (log : Bool) (c : List ℕ) (v : List (List ℕ)) (m : Categories)
    → find c m ≡ none
    → visit_category log c (fresh v m) ≡ (fresh (shown log c (fresh v m)) m, true)
unfolding visit_category
visit_unknown true c v m e = rw (match_unknown c m e)
visit_unknown false c v m e = rw (match_unknown c m e)

visit_known :
    (log : Bool) (c : List ℕ) (v : List (List ℕ)) (m : Categories) (n : ℕ)
    → find c m ≡ some n
    → is_nil c ≡ false
    → visit_category log c (fresh v m) ≡ (
      record { matched = c; categories = shown log c (fresh v m); counters = increment c m },
      log,
    )
unfolding visit_category
visit_known true c v m n e h = rw (match_known c m n e)
visit_known false c v m n e h = rw (match_known c m n e) (rw h)

-- After a match nothing is counted any more.
visit_until-matched :
    (lib : Library) (log : Bool) (cs : List (List ℕ)) (v : Visit)
    → is_nil v.matched ≡ false
    → outcome (visit_until lib (visit_category log) cs v) ≡ outcome v
unfolding visit_until
visit_until-matched lib log [] v h = refl
visit_until-matched lib true (c ∷ cs) v h =
    rw (visit_matched true c v h)
      (visit_until-matched lib true cs (record v { categories = shown true c v }) h)
visit_until-matched lib false (c ∷ cs) v h = rw (visit_matched false c v h)

-- With the log or without it, the visits count the first configured category and no other.
visit_until-count_one :
    (lib : Library) (log : Bool) (cs shown_before : List (List ℕ)) (m : Categories)
    → IsConfigured m
    → outcome (visit_until lib (visit_category log) cs (fresh shown_before m))
      ≡ count_one (first_configured cs m) m
unfolding visit_until
visit_until-count_one lib log [] before m h = refl
visit_until-count_one lib log (c ∷ cs) before m h = elim (Option-cases (find c m)) [
  | inl unknown ↦
      rw (visit_unknown log c before m unknown, unknown, first_configured)
        (visit_until-count_one lib log cs (shown log c (fresh before m)) m h)
  | inr (n, known) ↦
      rw
        (
          visit_known log c before m n known (find-named c m {n = n} h known),
          known,
          first_configured,
        )
        (stop_or_go log cs
          (record {
            matched = c;
            categories = shown log c (fresh before m);
            counters = increment c m;
          })
          (find-named c m {n = n} h known))
]
  where
    stop_or_go :
        (log : Bool) (cs : List (List ℕ)) (v : Visit)
        → is_nil v.matched ≡ false
        → outcome (if log then visit_until lib (visit_category log) cs v else v) ≡ outcome v
    stop_or_go true cs v h = visit_until-matched lib true cs v h
    stop_or_go false cs v h = refl

-- What a lookup that succeeds found, as `get_categories` lists it.
abbrev pub found_categories : Library → LookupResult × ℤ → List (List ℕ)
found_categories lib (result, error) =
    if is_zero error && result.found_entry then get_categories lib result else []

abbrev pub is_some {ℓ} : {A : Type ℓ} → Option A → Bool
is_some none = false
is_some (some a) = true

-- What the metrics and the categories become.
abbrev pub counted_lookup : Library → LookupResult × ℤ → Agent → Agent
counted_lookup lib (result, error) agent =
    let m = agent.drop_categories in
    let counted = inc_lookups agent in
    let o = first_configured (found_categories lib (result, error)) m in
    record (if is_zero error then counted else inc_lookup_errors counted) {
      drop_categories = (count_one o m).1;
    }

matched-count_one :
    (o : Option (List ℕ)) (m : Categories) (ip_bad : Bool)
    → ((c : List ℕ) → o ≡ some c → is_nil c ≡ false)
    → (if is_nil ((count_one o m).0) then ip_bad else true) ≡ (ip_bad || is_some o)
matched-count_one none m true h = refl
matched-count_one none m false h = refl
matched-count_one (some c) m true h = rw (h c refl)
matched-count_one (some c) m false h = rw (h c refl)

-- The state after a lookup that found an entry, from what was matched and the counters.
abbrev after_visits : Agent → Bool → List ℕ × Categories → Agent × Bool
after_visits agent ip_bad (matched, m) =
    (record (inc_lookups agent) { drop_categories = m }, if is_nil matched then ip_bad else true)

counted_visits :
    (o : Option (List ℕ)) (agent : Agent) (ip_bad : Bool)
    → ((c : List ℕ) → o ≡ some c → is_nil c ≡ false)
    → after_visits agent ip_bad (count_one o agent.drop_categories) ≡ (
      record (inc_lookups agent) { drop_categories = (count_one o agent.drop_categories).1 },
      ip_bad || is_some o,
    )
counted_visits o agent ip_bad h =
    ap
      (λ b.
        let s : Agent × Bool = (
          record (inc_lookups agent) { drop_categories = (count_one o agent.drop_categories).1 },
          b,
        ) in
        s)
      (matched-count_one o agent.drop_categories ip_bad h)

or_false : (b : Bool) → b ≡ (b || false)
or_false true = refl
or_false false = refl

visits :
    (log : Bool) (lib : Library) (result : LookupResult) (m : Categories)
    → IsConfigured m
    → outcome (for_each_category lib (visit_category log) result (fresh [] m))
      ≡ count_one (first_configured (get_categories lib result) m) m
visits log lib result m h =
    ap outcome (for_each_category-get_categories lib (visit_category log) result (fresh [] m))
    ∙ visit_until-count_one lib log (get_categories lib result) [] m h

configured-named :
    (cs : List (List ℕ)) (m : Categories) (c : List ℕ)
    → IsConfigured m
    → first_configured cs m ≡ some c
    → is_nil c ≡ false
configured-named cs m c h e =
    let (n, known) = first_configured-find cs m {c = c} e in find-named c m {n = n} h known

-- What `evaluate_lookup` owes.
abbrev evaluated : Library → LookupResult × ℤ → Agent × Bool → Agent × Bool
evaluated lib r (agent, ip_bad) = (
  counted_lookup lib r agent,
  ip_bad || is_some (first_configured (found_categories lib r) agent.drop_categories),
)

success_case :
    (log : Bool) (lib : Library) (found : Bool) (entry : ℕ) (error : ℤ) (agent : Agent)
    (ip_bad : Bool)
    → IsConfigured agent.drop_categories
    → is_zero error ≡ true
    → let result : LookupResult = record { found_entry = found; entry = entry } in
      evaluate_lookup log lib (result, error) (agent, ip_bad)
      ≡ evaluated lib (result, error) (agent, ip_bad)
unfolding evaluate_lookup inc_lookups
success_case log lib false entry error agent ip_bad h fine =
    rw fine (ap (λ b. (inc_lookups agent, b)) (or_false ip_bad))
success_case log lib true entry error agent ip_bad h fine =
    let result : LookupResult = record { found_entry = true; entry = entry } in
    let cs = get_categories lib result in
    let m = agent.drop_categories in
    rw fine (
      ap (after_visits agent ip_bad) (visits log lib result m h)
      ∙ counted_visits (first_configured cs m) agent ip_bad (λ c e. configured-named cs m c h e))

-- `evaluate_lookup` counts the lookup, and an error as an error. `ip_bad` is set exactly if the entry
-- that was found has a configured category, and the first such one is counted. The log level changes
-- nothing of it.
pub evaluate_lookup_lem :
    (log : Bool) (lib : Library) (result : LookupResult) (error : ℤ) (agent : Agent) (ip_bad : Bool)
    → IsConfigured agent.drop_categories
    → evaluate_lookup log lib (result, error) (agent, ip_bad) ≡ (
      counted_lookup lib (result, error) agent,
      ip_bad
          || is_some
              (first_configured (found_categories lib (result, error)) agent.drop_categories),
    )
unfolding evaluate_lookup inc_lookups inc_lookup_errors
evaluate_lookup_lem log lib result error agent ip_bad h = elim (Bool-cases (is_zero error)) [
  | inr failed ↦ rw failed (ap (λ b. (inc_lookup_errors (inc_lookups agent), b)) (or_false ip_bad))
  | inl fine ↦ success_case log lib result.found_entry result.entry error agent ip_bad h fine
]
