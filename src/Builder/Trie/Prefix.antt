-- ===== src/Builder/Trie/Prefix.antt =====
-- Addresses of a network: those that agree with it in its first bits.
use haproxy_spoa_firehol_mmd.Prelude.{
  ℕ, zero, suc, ◌/◌, ◌<◌, ◌≤◌, ◌≡◌, ◌≢◌, ◌==◌, refl, sym, ap, ◌∙◌, Bool, true, false, not, ◌&&◌,
  List, [], ◌∷◌, arith, inl, inr, Bool-cases,
}
use haproxy_spoa_firehol_mmd.Prelude.Lists.{length, take, get_or}
use haproxy_spoa_firehol_mmd.Builder.Trie.{Nodes, child, bit_at}
use haproxy_spoa_firehol_mmd.Builder.Trie.Walk.{
  Finds, Finds.stop, Finds.down, Way, Way.here, Way.step, IsTrie, Finds-same, bits_to,
}
use haproxy_spoa_firehol_mmd.Builder.Trie.Below.{Below-bits_to, length-bits_to}
use haproxy_spoa_firehol_mmd.Builder.Trie.Sides.{MergedInto, Merged}

abbrev pub same_bit : Bool → Bool → Bool
same_bit true b = b
same_bit false b = not b

-- Whether the first `n` bits of two addresses are the same.
unfoldable pub agrees : List ℕ → List ℕ → ℕ → Bool
agrees a bits zero = true
agrees a bits (suc n) = same_bit (bit_at a n) (bit_at bits n) && agrees a bits n

same_bit→eq : (b c : Bool) → same_bit b c ≡ true → b ≡ c
same_bit→eq true c h = sym h
same_bit→eq false true h = cc
same_bit→eq false false h = refl

same_bit_refl : (b : Bool) → same_bit b b ≡ true
same_bit_refl true = refl
same_bit_refl false = refl

and_parts : (b c : Bool) → (b && c) ≡ true → (b ≡ true) × (c ≡ true)
and_parts true c h = (refl, h)
and_parts false c h = cc

pub agrees-bit :
    (a bits : List ℕ) (n : ℕ)
    → agrees a bits n ≡ true
    → (j : ℕ) → j < n
    → bit_at a j ≡ bit_at bits j
unfolding agrees
agrees-bit a bits zero h j lt = absurd (omega arith)
agrees-bit a bits (suc n) h j lt =
    let (last, before) = and_parts (same_bit (bit_at a n) (bit_at bits n)) (agrees a bits n) h in
    elim (Bool-cases (j == n)) [
      | inl e ↦ (let same : j ≡ n = ground arith in rw same (same_bit→eq _ _ last))
      | inr ne ↦ agrees-bit a bits n before j (ground arith)
    ]

head_or : List Bool → Bool
head_or [] = true
head_or (b ∷ bs) = b

tail_of : List Bool → List Bool
tail_of [] = []
tail_of (b ∷ bs) = bs

pub bits_to-agrees :
    (a bits : List ℕ) (n : ℕ) → bits_to a n ≡ bits_to bits n → agrees a bits n ≡ true
unfolding agrees bits_to head_or tail_of
bits_to-agrees a bits zero h = refl
bits_to-agrees a bits (suc n) h =
    rw (ap head_or h, same_bit_refl (bit_at bits n)) (bits_to-agrees a bits n (ap tail_of h))

pub Way-le : (t : Nodes) (a : List ℕ) (i k j n : ℕ) → Way t a i k j n → k ≤ n
Way-le t a i k j n (here _ _) = omega arith
Way-le t a i k j n (step _ _ c _ _ e ne w) = omega (arith, Way-le t a c (suc k) j n w)

-- A way is that of every address with the same bits.
pub Way-agree :
    (t : Nodes) (a bits : List ℕ) (i k j n : ℕ)
    → ((m : ℕ) → m < n → bit_at a m ≡ bit_at bits m)
    → Way t a i k j n
    → Way t bits i k j n
Way-agree t a bits i k j n same (here _ _) = here i k
Way-agree t a bits i k j n same (step _ _ c _ _ e ne w) =
    step i k c j n
      (ap (λ b. child b (t.at i)) (sym (same k (omega (arith, Way-le t a c (suc k) j n w)))) ∙ e) ne
      (Way-agree t a bits c (suc k) j n same w)

get_or-take : (n : ℕ) (xs : List ℕ) (j : ℕ) → j < n → get_or (take n xs) j 0 ≡ get_or xs j 0
get_or-take zero xs j h = absurd (omega arith)
get_or-take (suc n) [] j h = refl
get_or-take (suc n) (x ∷ xs) zero h = refl
get_or-take (suc n) (x ∷ xs) (suc j) h = get_or-take n xs j (omega arith)

-- Addresses that begin with the same twelve bytes begin with the same 96 bits.
pub bit_at-take :
    (a bits : List ℕ) → take 12 a ≡ take 12 bits → (m : ℕ) → m < 96 → bit_at a m ≡ bit_at bits m
unfolding bit_at
bit_at-take a bits e m h =
    let byte : get_or a (m / 8) 0 ≡ get_or bits (m / 8) 0 =
      sym (get_or-take 12 a (m / 8) (omega arith))
      ∙ ap (λ xs. get_or xs (m / 8) 0) e
      ∙ get_or-take 12 bits (m / 8) (omega arith) in
    rw byte refl

module _ {Pool : Type 0} (deep_merge : ℕ → ℕ → Pool → ℕ × Pool) where
  -- What a merge at the end of a way makes of what an address finds.
  abbrev pub Inserted : Bool → ℕ → ℕ → ℕ → Type 0
  Inserted true d x y = MergedInto deep_merge d x y
  Inserted false d x y = y ≡ x

  module _ (t t' : Nodes) (l : ℕ → List Bool) (s : IsTrie t l) (a bits : List ℕ) (r n d : ℕ)
      (m : Merged deep_merge t t' l r d) (end : l r ≡ bits_to bits n) where
    along :
        (i k x j o : ℕ)
        → agrees a bits n ≡ true
        → j ≡ r
        → o ≡ n
        → i < t.size
        → length (l i) ≡ k
        → Way t bits i k j o
        → Finds t a i k x
        → (y : ℕ) × Finds t' a i k y × MergedInto deep_merge d x y
    along i k x j o same jr on h e (here _ _) f = rw jr (m.effect a k x (rw (sym jr) f))
    along i k x j o same jr on h e (step _ _ c _ _ ce ne w) f =
        let bit : bit_at a k ≡ bit_at bits k =
          agrees-bit a bits n same k (omega (arith, Way-le t bits c (suc k) j o w)) in
        let next : child (bit_at a k) (t.at i) ≡ c = ap (λ b. child b (t.at i)) bit ∙ ce in
        let there : child (bit_at bits k) (t.at i) ≢ 0 = λ z. ne (sym ce ∙ z) in
        let inside : c < t.size = rw (← ce) (s.below i (bit_at bits k) h there) in
        let deeper : length (l c) ≡ suc k =
          ap (λ v. length (l v)) (sym ce)
          ∙ ap length (s.labelled i (bit_at bits k) h there)
          ∙ ap suc e in
        let unchanged : t'.at i ≡ t.at i = m.frame i h (λ v. absurd (
          omega
            (arith, v.0, ap length end, length-bits_to bits n, Way-le t bits c (suc k) j o w))) in
        elim f [
          | stop _ _ _ z _ ↦ absurd (ne (sym next ∙ z))
          | down _ _ c' _ e' ne' g ↦
              let same_c : c' ≡ c = sym e' ∙ next in
              let (y, found, into) =
                along c (suc k) x j o same jr on inside deeper w (rw (sym same_c) g) in
              (y, down i k c y (ap (child (bit_at a k)) unchanged ∙ next) ne found, into)
        ]

    -- An address of the network finds what it found with the data merged into it, any other what it found.
    pub Finds-Inserted :
        (x : ℕ)
        → Way t bits 0 0 r n
        → Finds t a 0 0 x
        → (y : ℕ) × Finds t' a 0 0 y × Inserted (agrees a bits n) d x y
    unfolding bits_to
    Finds-Inserted x w f = elim (Bool-cases (agrees a bits n)) [
      | inl yes_it ↦ rw yes_it (along 0 0 x r n yes_it refl refl s.some_node (ap length s.root) w f)
      | inr not_it ↦ rw not_it (
        x,
        Finds-same t l s a t' (λ k v. v ≡ bits_to a k) (λ k v on. ap (λ u. bit_at a k ∷ u) on)
            (λ j k lt on.
              m.frame j lt (λ v. outside not_it (Below-bits_to a bits n k (rw (on, end) at v))))
            0 0 x s.some_node s.root f,
        refl,
      )
    ]
      where
        outside : agrees a bits n ≡ false → bits_to a n ≡ bits_to bits n → ⊥
        outside h e = let h' = bits_to-agrees a bits n e in cc
