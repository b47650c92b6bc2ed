-- ===== src/Builder/Trie/Below.antt =====
-- Labels below a label: those of the nodes of a subtree.
use haproxy_spoa_firehol_mmd.Prelude.{
  ℕ, zero, suc, ◌+◌, ◌-◌, ◌≤◌, ◌≡◌, ◌≢◌, refl, sym, ap, ◌∙◌, Bool, true, List, [], ◌∷◌, arith,
}
use haproxy_spoa_firehol_mmd.Prelude.Lists.{length, drop, drop-drop}
use haproxy_spoa_firehol_mmd.Builder.Trie.Walk.{bits_to}

abbrev pub Below : List Bool → List Bool → Type 0
Below p v = (length p ≤ length v) × (drop (length v - length p) v ≡ p)

pub Below-refl : (p : List Bool) → Below p p
Below-refl p =
    (omega arith, ap (λ n. drop n p) (let e : length p - length p ≡ 0 = omega arith in e))

pub Below-cons : (p v : List Bool) (b : Bool) → Below p v → Below p (b ∷ v)
Below-cons p v b (le, e) = (
  omega arith,
  ap (λ n. drop n (b ∷ v))
        (let f : suc (length v) - length p ≡ suc (length v - length p) = omega arith in f)
      ∙ e,
)

pub Below-tail : (p v : List Bool) (b : Bool) → Below (b ∷ p) v → Below p v
Below-tail p v b (le, e) = (
  omega arith,
  ap (λ n. drop n v)
        (let f : length v - length p ≡ (length v - suc (length p)) + 1 = omega arith in f)
      ∙ sym (drop-drop (length v - suc (length p)) 1 v)
      ∙ ap (drop 1) e,
)

-- The two sides of a node have no label in common.
pub Below-apart : (p v : List Bool) (b b' : Bool) → b ≢ b' → Below (b ∷ p) v → Below (b' ∷ p) v → ⊥
Below-apart p v b b' ne (le, e) (le', e') = ne (head_eq (sym e ∙ e'))
  where
    head_of : List Bool → Bool
    head_of [] = true
    head_of (x ∷ xs) = x

    head_eq : (b ∷ p) ≡ (b' ∷ p) → b ≡ b'
    head_eq h = ap head_of h

pub length-bits_to : (a : List ℕ) (k : ℕ) → length (bits_to a k) ≡ k
unfolding bits_to
length-bits_to a zero = refl
length-bits_to a (suc k) = ap suc (length-bits_to a k)

drop-bits_to : (a : List ℕ) (m n : ℕ) → drop m (bits_to a (m + n)) ≡ bits_to a n
unfolding bits_to
drop-bits_to a zero n = ap (bits_to a) (omega arith)
drop-bits_to a (suc m) n =
    ap (λ k. drop (suc m) (bits_to a k)) (let e : suc m + n ≡ suc (m + n) = omega arith in e)
    ∙ drop-bits_to a m n

-- An address comes below a prefix exactly if it begins with it.
pub Below-bits_to :
    (a bits : List ℕ) (n k : ℕ)
    → Below (bits_to bits n) (bits_to a k)
    → bits_to a n ≡ bits_to bits n
Below-bits_to a bits n k (le, e) =
    let le' : n ≤ k = omega (arith, length-bits_to bits n, length-bits_to a k) in
    let whole : k ≡ (k - n) + n = omega arith in
    let cut : length (bits_to a k) - length (bits_to bits n) ≡ k - n =
      omega (arith, length-bits_to bits n, length-bits_to a k) in
    sym (drop-bits_to a (k - n) n)
    ∙ ap (λ j. drop (k - n) (bits_to a j)) (sym whole)
    ∙ ap (λ j. drop j (bits_to a k)) (sym cut)
    ∙ e
