-- ===== src/Spoa/Agent/Loop.antt =====
-- The loops over all arguments of a NOTIFY frame.
use haproxy_spoa_firehol_mmd.Prelude.{
  ℕ, suc, ◌+◌, ◌%◌, ◌^◌, ◌<◌, ◌≡◌, refl, sym, ap, ◌∙◌, Bool, true, false, not, ◌||◌, List, [], ◌∷◌,
  ◌++◌, Option, arith, if◌then◌else◌,
}
use haproxy_spoa_firehol_mmd.Spoa.Message.{Arg, Message}
use haproxy_spoa_firehol_mmd.Spoa.Categories.{Categories, blocked}
use haproxy_spoa_firehol_mmd.Spoa.Categories.Counting.{
  blocked-lt, IsConfigured, first_configured-find, count_one, is_name, blocked-count_one,
}
use haproxy_spoa_firehol_mmd.Spoa.Database.{Library}
use haproxy_spoa_firehol_mmd.Spoa.Agent.{
  Agent, is_supported, evaluate_argument, Evaluation, evaluate_args, evaluate_messages,
}
use haproxy_spoa_firehol_mmd.Spoa.Agent.Evaluate.{
  arg_categories, arg_match, any_bad, any_unsupported, hits, all_args, SameNames,
  first_configured_same, count_one-SameNames, count_one-IsConfigured, counted_argument, or_false,
  or_assoc, evaluate_argument_lem, counted_argument-categories,
}
use haproxy_spoa_firehol_mmd.Spoa.Agent.Lookup.{is_some}

-- What the loop over the arguments makes of an evaluation, against the names of `m`.
abbrev Evaluated : Option Library → Categories → List Arg → Evaluation → Evaluation → Type 0
Evaluated db m args e e' =
    (e'.ip_bad ≡ (e.ip_bad || any_bad db m args))
    × (e'.not_implemented ≡ (e.not_implemented || any_unsupported args))
    × ((name : List ℕ)
        → blocked name e'.agent.drop_categories
          ≡ (blocked name e.agent.drop_categories + hits name db m args) % 2 ^ 64)

-- The counter of a name after one argument.
counted_once :
    (db : Option Library) (a : Arg) (agent : Agent) (name : List ℕ)
    → let m = agent.drop_categories in
      blocked name ((counted_argument db a agent).drop_categories)
      ≡ (if is_name name (arg_match db m a) then (blocked name m + 1) % 2 ^ 64 else blocked name m)
counted_once db a agent name =
    let m = agent.drop_categories in
    ap (blocked name) (counted_argument-categories db a agent)
    ∙ blocked-count_one (arg_match db m a) m name
        (λ c e. first_configured-find (arg_categories db a) m {c = c} e)

add_hits :
    (hit : Bool) (b rest k : ℕ)
    → b < 2 ^ 64
    → k ≡ (if hit then (b + 1) % 2 ^ 64 else b)
    → (k + rest) % 2 ^ 64 ≡ (b + (if hit then suc rest else rest)) % 2 ^ 64
add_hits true b rest k h e = omega arith
add_hits false b rest k h e = omega arith

-- The body of the loop.
abbrev after_argument : Evaluation → Bool × (Agent × Bool) → Evaluation
after_argument e (supported, (agent, ip_bad)) = record {
  agent = agent;
  ip_bad = ip_bad;
  not_implemented = if not supported then true else e.not_implemented;
}

evaluate_args_step :
    (log : Bool) (db : Option Library) (a : Arg) (args : List Arg) (e : Evaluation)
    → IsConfigured e.agent.drop_categories
    → evaluate_args log db (a ∷ args) e
      ≡ evaluate_args log db args (
          after_argument e (
            is_supported a.value,
            (
              counted_argument db a e.agent,
              e.ip_bad || is_some (arg_match db e.agent.drop_categories a),
            ),
          ))
unfolding evaluate_args
evaluate_args_step log db a args e h =
    ap (λ t. evaluate_args log db args (after_argument e t))
      (evaluate_argument_lem log db a e.agent e.ip_bad h)

set_or :
    (supported before : Bool) → (if not supported then true else before) ≡ (before || not supported)
set_or true true = refl
set_or true false = refl
set_or false true = refl
set_or false false = refl

evaluate_args-Evaluated :
    (log : Bool) (db : Option Library) (m : Categories) (args : List Arg) (e : Evaluation)
    → IsConfigured e.agent.drop_categories
    → SameNames m e.agent.drop_categories
    → Evaluated db m args e (evaluate_args log db args e)
evaluate_args-Evaluated log db m [] e h s =
    unfold evaluate_args in
    (
      or_false e.ip_bad,
      or_false e.not_implemented,
      λ name. omega (arith, blocked-lt name e.agent.drop_categories h),
    )
evaluate_args-Evaluated log db m (a ∷ args) e h s =
    let m' = e.agent.drop_categories in
    let same_match : arg_match db m a ≡ arg_match db m' a =
      first_configured_same (arg_categories db a) m m' s in
    let agent' = counted_argument db a e.agent in
    let dc : agent'.drop_categories ≡ (count_one (arg_match db m' a) m').1 =
      counted_argument-categories db a e.agent in
    let e₁ : Evaluation = record {
      agent = agent';
      ip_bad = e.ip_bad || is_some (arg_match db m' a);
      not_implemented = if not (is_supported a.value) then true else e.not_implemented;
    } in
    let named : IsConfigured agent'.drop_categories =
      rw dc (count_one-IsConfigured (arg_match db m' a) m' h) in
    let names : SameNames m agent'.drop_categories =
      λ name. s name ∙ rw dc (count_one-SameNames (arg_match db m' a) m' name) in
    let (bad, missing, counts) = evaluate_args-Evaluated log db m args e₁ named names in
    rw (evaluate_args_step log db a args e h) (
      bad
          ∙ rw (sym same_match)
              (or_assoc e.ip_bad (is_some (arg_match db m a)) (any_bad db m args)),
      missing
          ∙ rw (set_or (is_supported a.value) e.not_implemented)
              (or_assoc e.not_implemented (not (is_supported a.value)) (any_unsupported args)),
      λ name.
          let total =
            add_hits (is_name name (arg_match db m a)) (blocked name m') (hits name db m args)
              (blocked name agent'.drop_categories) (blocked-lt name m' h)
              (counted_once db a e.agent name ∙ rw same_match) in
          counts name ∙ total,
    )

evaluate_args-nil :
    (log : Bool) (db : Option Library) (e : Evaluation) → evaluate_args log db [] e ≡ e
unfolding evaluate_args
evaluate_args-nil log db e = refl

evaluate_args-append :
    (log : Bool) (db : Option Library) (xs ys : List Arg) (e : Evaluation)
    → evaluate_args log db (xs ++ ys) e ≡ evaluate_args log db ys (evaluate_args log db xs e)
unfolding evaluate_args
evaluate_args-append log db [] ys e = refl
evaluate_args-append log db (a ∷ xs) ys e =
    evaluate_args-append log db xs ys
      (after_argument e (evaluate_argument log db a (e.agent, e.ip_bad)))

evaluate_messages-all_args :
    (log : Bool) (db : Option Library) (ms : List Message) (e : Evaluation)
    → evaluate_messages log db ms e ≡ evaluate_args log db (all_args ms) e
unfolding evaluate_messages
evaluate_messages-all_args log db [] e = sym (evaluate_args-nil log db e)
evaluate_messages-all_args log db (m ∷ ms) e =
    evaluate_messages-all_args log db ms (evaluate_args log db m.args e)
    ∙ sym (evaluate_args-append log db m.args (all_args ms) e)

-- The loops over the messages and their arguments, from the start: `ip_bad` is set exactly if one of the
-- arguments has a configured category, `not_implemented` exactly if one of them has a type that is not
-- supported, and each name's counter goes up by the number of arguments whose first configured category
-- it is, modulo 2^64. The log level changes nothing of it.
pub evaluate_messages_lem :
    (log : Bool) (db : Option Library) (ms : List Message) (agent : Agent)
    → IsConfigured agent.drop_categories
    → let m = agent.drop_categories in
      let args = all_args ms in
      let e' =
        evaluate_messages log db ms
          (record { agent = agent; ip_bad = false; not_implemented = false }) in
      (e'.ip_bad ≡ any_bad db m args)
      × (e'.not_implemented ≡ any_unsupported args)
      × ((name : List ℕ)
          → blocked name e'.agent.drop_categories ≡ (blocked name m + hits name db m args) % 2 ^ 64)
evaluate_messages_lem log db ms agent h =
    let e : Evaluation = record { agent = agent; ip_bad = false; not_implemented = false } in
    rw (evaluate_messages-all_args log db ms e)
      (evaluate_args-Evaluated log db agent.drop_categories (all_args ms) e h (λ name. refl))
