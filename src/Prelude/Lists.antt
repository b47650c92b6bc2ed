-- ===== src/Prelude/Lists.antt =====
-- Lists measured and indexed by native numbers, under the library's names.
use Prim.Native.Nat.{ℕ, zero, suc, ◌+◌, ◌-◌, ◌≤◌}
use mathlib.Core.Path.{◌≡◌, refl, ap, ap₂, sym, ◌∙◌}
use mathlib.Core.List.{List, [], ◌∷◌, ◌++◌, append-nil}
use native.Mathlib.Omega.{arith}

module _ {ℓ} {A : Type ℓ} where
  abbrev pub length : List A → ℕ
  length [] = 0
  length (x ∷ xs) = suc (length xs)

  abbrev pub take : ℕ → List A → List A
  take zero xs = []
  take (suc n) [] = []
  take (suc n) (x ∷ xs) = x ∷ take n xs

  abbrev pub drop : ℕ → List A → List A
  drop zero xs = xs
  drop (suc n) [] = []
  drop (suc n) (x ∷ xs) = drop n xs

  abbrev pub get_or : List A → ℕ → A → A
  get_or [] i d = d
  get_or (x ∷ xs) zero d = x
  get_or (x ∷ xs) (suc i) d = get_or xs i d

  -- A write out of bounds changes nothing.
  abbrev pub set : List A → ℕ → A → List A
  set [] i v = []
  set (x ∷ xs) zero v = v ∷ xs
  set (x ∷ xs) (suc i) v = x ∷ set xs i v

  abbrev pub replicate : ℕ → A → List A
  replicate zero v = []
  replicate (suc n) v = v ∷ replicate n v

  abbrev pub All {κ} : (A → Type κ) → List A → Type κ
  All P [] = Unit {κ}
  All P (x ∷ xs) = P x × All P xs

  pub length-append : (xs ys : List A) → length (xs ++ ys) ≡ length xs + length ys
  length-append [] ys = omega arith
  length-append (x ∷ xs) ys = omega (arith, length-append xs ys)

  pub length-take : (n : ℕ) (xs : List A) → n ≤ length xs → length (take n xs) ≡ n
  length-take zero xs h = refl
  length-take (suc n) [] h = absurd (omega arith)
  length-take (suc n) (x ∷ xs) h = omega (arith, length-take n xs (omega arith))

  pub length-drop : (n : ℕ) (xs : List A) → length (drop n xs) ≡ length xs - n
  length-drop zero xs = omega arith
  length-drop (suc n) [] = omega arith
  length-drop (suc n) (x ∷ xs) = omega (arith, length-drop n xs)

  pub length-replicate : (n : ℕ) (v : A) → length (replicate n v) ≡ n
  length-replicate zero v = refl
  length-replicate (suc n) v = ap suc (length-replicate n v)

  pub take-append : (xs ys : List A) → take (length xs) (xs ++ ys) ≡ xs
  take-append [] ys = refl
  take-append (x ∷ xs) ys = ap (◌∷◌ x) (take-append xs ys)

  pub drop-append : (xs ys : List A) → drop (length xs) (xs ++ ys) ≡ ys
  drop-append [] ys = refl
  drop-append (x ∷ xs) ys = drop-append xs ys

  pub take-append-drop : (n : ℕ) (xs : List A) → take n xs ++ drop n xs ≡ xs
  take-append-drop zero xs = refl
  take-append-drop (suc n) [] = refl
  take-append-drop (suc n) (x ∷ xs) = ap (◌∷◌ x) (take-append-drop n xs)

  pub drop-nil : (n : ℕ) → drop n [] ≡ []
  drop-nil zero = refl
  drop-nil (suc n) = refl

  pub drop-drop : (m n : ℕ) (xs : List A) → drop n (drop m xs) ≡ drop (m + n) xs
  drop-drop zero n xs = ap (λ k. drop k xs) (omega arith)
  drop-drop (suc m) n [] = drop-nil n ∙ sym (drop-nil (suc m + n))
  drop-drop (suc m) n (x ∷ xs) =
      drop-drop m n xs
      ∙ ap (λ k. drop k (x ∷ xs)) (let e : suc (m + n) ≡ suc m + n = omega arith in e)

  pub drop_all : (xs : List A) → drop (length xs) xs ≡ []
  drop_all [] = refl
  drop_all (x ∷ xs) = drop_all xs

  pub take_all : (n : ℕ) (xs : List A) → length xs ≤ n → take n xs ≡ xs
  take_all zero [] h = refl
  take_all zero (x ∷ xs) h = absurd (omega arith)
  take_all (suc n) [] h = refl
  take_all (suc n) (x ∷ xs) h = ap (◌∷◌ x) (take_all n xs (omega arith))

  pub length-set : (xs : List A) (i : ℕ) (v : A) → length (set xs i v) ≡ length xs
  length-set [] i v = refl
  length-set (x ∷ xs) zero v = refl
  length-set (x ∷ xs) (suc i) v = ap suc (length-set xs i v)

  -- `memcpy` of a run of values over the ones that stand from index `i` on, value by value.
  unfoldable pub overwrite : List A → ℕ → List A → List A
  overwrite xs i [] = xs
  overwrite xs i (v ∷ vs) = overwrite (set xs i v) (suc i) vs

  pub length-overwrite :
      (xs : List A) (i : ℕ) (vs : List A) → length (overwrite xs i vs) ≡ length xs
  unfolding overwrite
  length-overwrite xs i [] = refl
  length-overwrite xs i (v ∷ vs) = length-overwrite (set xs i v) (suc i) vs ∙ length-set xs i v

  overwrite-suc :
      (x : A) (xs : List A) (i : ℕ) (vs : List A)
      → overwrite (x ∷ xs) (suc i) vs ≡ x ∷ overwrite xs i vs
  unfolding overwrite
  overwrite-suc x xs i [] = refl
  overwrite-suc x xs i (v ∷ vs) = overwrite-suc x (set xs i v) (suc i) vs

  overwrite_cons :
      (x v : A) (xs vs : List A) → overwrite (x ∷ xs) zero (v ∷ vs) ≡ v ∷ overwrite xs zero vs
  unfolding overwrite
  overwrite_cons x v xs vs = overwrite-suc v xs zero vs

  overwrite-nil : (xs : List A) (i : ℕ) → overwrite xs i [] ≡ xs
  unfolding overwrite
  overwrite-nil xs i = refl

  drop_same : (m n : ℕ) (xs : List A) → m ≡ n → drop m xs ≡ drop n xs
  drop_same m n xs e = ap (λ k. drop k xs) e

  -- In bounds, the written run replaces as many values and leaves the others.
  pub overwrite_lem :
      (xs : List A) (i : ℕ) (vs : List A)
      → i + length vs ≤ length xs
      → overwrite xs i vs ≡ take i xs ++ (vs ++ drop (i + length vs) xs)
  overwrite_lem xs zero [] h = overwrite-nil xs zero
  overwrite_lem [] zero (v ∷ vs) h = absurd (omega arith)
  overwrite_lem (x ∷ xs) zero (v ∷ vs) h =
      overwrite_cons x v xs vs
      ∙ ap (◌∷◌ v) (overwrite_lem xs zero vs (omega arith))
      ∙ ap (λ t. v ∷ (vs ++ t))
          (drop_same (suc (0 + length vs)) (0 + suc (length vs)) (x ∷ xs) (omega arith))
  overwrite_lem [] (suc i) vs h = absurd (omega arith)
  overwrite_lem (x ∷ xs) (suc i) vs h =
      overwrite-suc x xs i vs
      ∙ ap (◌∷◌ x) (overwrite_lem xs i vs (omega arith))
      ∙ ap (λ t. x ∷ (take i xs ++ (vs ++ t)))
          (drop_same (suc (i + length vs)) (suc i + length vs) (x ∷ xs) (omega arith))

  overwrite_same :
      (xs : List A) (i j : ℕ) (vs : List A) → i ≡ j → overwrite xs i vs ≡ overwrite xs j vs
  overwrite_same xs i j vs e = ap (λ k. overwrite xs k vs) e

  -- Two runs, one behind the other.
  pub overwrite-append :
      (xs : List A) (i : ℕ) (vs ws : List A)
      → overwrite (overwrite xs i vs) (i + length vs) ws ≡ overwrite xs i (vs ++ ws)
  unfolding overwrite
  overwrite-append xs i [] ws = overwrite_same xs _ i ws (omega arith)
  overwrite-append xs i (v ∷ vs) ws =
      overwrite_same (overwrite (set xs i v) (suc i) vs) _ (suc i + length vs) ws (omega arith)
      ∙ overwrite-append (set xs i v) (suc i) vs ws

  -- A run that fills the end of a list.
  pub overwrite_end :
      (xs ys vs : List A) → length ys ≡ length vs → overwrite (xs ++ ys) (length xs) vs ≡ xs ++ vs
  overwrite_end xs ys vs e =
      overwrite_lem (xs ++ ys) (length xs) vs (omega (arith, fits))
      ∙ ap₂ (λ s t. s ++ (vs ++ t)) (take-append xs ys)
          (drop_same _ (length (xs ++ ys)) (xs ++ ys) (omega (arith, fits)) ∙ drop_all (xs ++ ys))
      ∙ ap (◌++◌ xs) (append-nil vs)
    where
      fits : length (xs ++ ys) ≡ length xs + length vs
      fits = omega (arith, length-append xs ys)
