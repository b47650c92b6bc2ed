-- ===== src/Scheduler/Fields.antt =====
-- Five fields become six.
use haproxy_spoa_firehol_mmd.Prelude.{
  ℕ, ◌+◌, ◌==◌, ◌≡◌, refl, Bool, true, false, not, ◌&&◌, List, [], ◌∷◌, ◌++◌, arith, if◌then◌else◌,
  Bool-cases, inl, inr,
}
use haproxy_spoa_firehol_mmd.Prelude.Text.{ascii}
use haproxy_spoa_firehol_mmd.Scheduler.{is_space, count_loop, count_fields, normalize_cron_expr}

count_loop_add :
    (count : ℕ) (in_field : Bool) (cs : List ℕ)
    → count_loop (count + 1) in_field cs ≡ count_loop count in_field cs + 1
unfolding count_loop
count_loop_add count in_field [] = refl
count_loop_add count in_field (c ∷ cs) = elim (Bool-cases (not (is_space c) && not in_field)) [
  | inl begins ↦ rw begins (count_loop_add (count + 1) (not (is_space c)) cs)
  | inr goes_on ↦ rw goes_on (count_loop_add count (not (is_space c)) cs)
]

-- A second in front is one more field.
seconds_field : (expr : List ℕ) → count_fields (ascii "0 " ++ expr) ≡ count_fields expr + 1
unfolding count_fields count_loop is_space
seconds_field expr = count_loop_add 0 false expr

-- `normalize_cron_expr` gives an expression of five fields a sixth, and leaves every other as it is.
pub normalize_cron_expr_lem :
    (expr : List ℕ)
    → (count_fields (normalize_cron_expr expr)
        ≡ (if count_fields expr == 5 then 6 else count_fields expr))
      × (count_fields (normalize_cron_expr (normalize_cron_expr expr))
          ≡ count_fields (normalize_cron_expr expr))
unfolding normalize_cron_expr
normalize_cron_expr_lem expr = elim (Bool-cases (count_fields expr == 5)) [
  | inl five ↦
      let six : count_fields (ascii "0 " ++ expr) ≡ 6 =
        omega (arith, seconds_field expr, five_fields five) in
      rw (five, six) (refl, six)
  | inr other ↦ rw (other, other) (refl, refl)
]
  where
    five_fields : {n : ℕ} → (n == 5) ≡ true → n ≡ 5
    five_fields h = ground arith
