-- ===== src/Builder/Pool/Intern.antt =====
-- Interning: the ID stands for the value, and the values that are there stay.
use haproxy_spoa_firehol_mmd.Prelude.{
  ℕ, zero, suc, ◌<◌, ◌≤◌, ◌≡◌, refl, sym, ap, ◌∙◌, true, List, [], ◌∷◌, ◌++◌, Option, none, some,
  arith, Bool-cases, inl, inr, bytes_eq→eq,
}
use haproxy_spoa_firehol_mmd.Prelude.Lists.{length, length-append, get_or}
use haproxy_spoa_firehol_mmd.Builder.Values.{monostate, string_view}
use haproxy_spoa_firehol_mmd.Builder.Pool.{
  Value, scalar, map, array, same_scalar, same_fields, same, Pool, empty_pool, data_at, find, add,
  intern_as, intern,
}

-- Equal to no other value.
abbrev pub IsExact : Value → Type 0
IsExact v = (w : Value) → same v w ≡ true → v ≡ w

pub string-IsExact : (s : List ℕ) → IsExact (scalar (string_view s))
unfolding same same_scalar
string-IsExact s (scalar (string_view b)) h = ap (λ t. scalar (string_view t)) (bytes_eq→eq s b h)
string-IsExact s _ h = absurd cc

pub array-IsExact : (a : List ℕ) → IsExact (array a)
unfolding same
array-IsExact a (array b) h = ap array (bytes_eq→eq a b h)
array-IsExact a _ h = absurd cc

same_fields-eq : (a b : List (ℕ × ℕ)) → same_fields a b ≡ true → a ≡ b
unfolding same_fields
same_fields-eq [] [] h = refl
same_fields-eq [] (g ∷ gs) h = absurd cc
same_fields-eq (f ∷ fs) [] h = absurd cc
same_fields-eq ((k, v) ∷ fs) ((k', v') ∷ fs') h = ground (arith, same_fields-eq fs fs')

pub map-IsExact : (a : List (ℕ × ℕ)) → IsExact (map a)
unfolding same
map-IsExact a (map b) h = ap map (same_fields-eq a b h)
map-IsExact a _ h = absurd cc

-- The pool has a value at 0, and the map gives a value the ID of an equal one.
pub record IsPool (p : Pool) : Type 0 where
  pub some_data : 0 < length p.id_to_data
  pub known :
      (v : Value) (i : ℕ)
      → find v p.data_to_id ≡ some i
      → (0 < i) × (i < length p.id_to_data) × (same v (data_at p i) ≡ true)

-- What is there stays.
pub record Grown (p p' : Pool) : Type 0 where
  pub sized : length p.id_to_data ≤ length p'.id_to_data
  pub kept : (i : ℕ) → i < length p.id_to_data → data_at p' i ≡ data_at p i

pub Grown-refl : (p : Pool) → Grown p p
Grown-refl p = record { sized = omega arith; kept = λ i lt. refl }

pub Grown-trans : (p q r : Pool) → Grown p q → Grown q r → Grown p r
Grown-trans p q r g h = record {
  sized = omega (arith, g.sized, h.sized);
  kept = λ i lt. h.kept i (omega (arith, g.sized)) ∙ g.kept i lt;
}

-- The value stands under the ID.
pub record Holds (p : Pool) (i : ℕ) (v : Value) : Type 0 where
  pub positive : 0 < i
  pub there : i < length p.id_to_data
  pub is : data_at p i ≡ v

pub Holds-Grown : (p p' : Pool) (i : ℕ) (v : Value) → Grown p p' → Holds p i v → Holds p' i v
Holds-Grown p p' i v g h = record {
  positive = h.positive;
  there = omega (arith, g.sized, h.there);
  is = g.kept i h.there ∙ h.is;
}

-- The pool behind a call.
pub record Interned (p : Pool) (r : ℕ × Pool) (v : Value) : Type 0 where
  pub pool : IsPool r.1
  pub grown : Grown p r.1
  pub held : Holds r.1 r.0 v

get_or-front :
    (xs ys : List Value) (i : ℕ) (d : Value) → i < length xs → get_or (xs ++ ys) i d ≡ get_or xs i d
get_or-front [] ys i d h = absurd (omega arith)
get_or-front (x ∷ xs) ys zero d h = refl
get_or-front (x ∷ xs) ys (suc i) d h = get_or-front xs ys i d (omega arith)

get_or-last : (xs : List Value) (y d : Value) → get_or (xs ++ (y ∷ [])) (length xs) d ≡ y
get_or-last [] y d = refl
get_or-last (x ∷ xs) y d = get_or-last xs y d

add-Interned : (v : Value) (p : Pool) → IsPool p → Interned p (add v p) v
unfolding add find
add-Interned v p i =
    let longer = length-append p.id_to_data (v ∷ []) in
    let front : (j : ℕ)
        → j < length p.id_to_data
        → get_or (p.id_to_data ++ (v ∷ [])) j (scalar monostate) ≡ data_at p j =
      λ j lt. get_or-front p.id_to_data (v ∷ []) j (scalar monostate) lt in
    record {
      pool = record {
        some_data = omega (arith, longer);
        known = λ w j e. elim (Bool-cases (same w v)) [
          | inl here ↦
              (let at_end : length p.id_to_data ≡ j = some_inj _ _ (rw here at e) in
                (
                  omega (arith, i.some_data),
                  omega (arith, longer),
                  rw (sym at_end, get_or-last p.id_to_data v (scalar monostate)) here,
                ))
          | inr behind ↦
              (let (positive, inside, equal) = i.known w j (rw behind at e) in
                (positive, omega (arith, longer, inside), rw (front j inside) equal))
        ];
      };
      grown = record { sized = omega (arith, longer); kept = front };
      held = record {
        positive = i.some_data;
        there = omega (arith, longer);
        is = get_or-last p.id_to_data v (scalar monostate);
      };
    }
  where
    some_inj : (a b : ℕ) → some a ≡ some b → a ≡ b
    some_inj a b e = cc

-- Interning gives an ID under which the value stands; what is there stays.
pub intern-Interned : (v : Value) (p : Pool) → IsExact v → IsPool p → Interned p (intern v p) v
unfolding intern intern_as
intern-Interned v p exact i = by_entry (find v p.data_to_id) refl
  where
    by_entry : (o : Option ℕ) → find v p.data_to_id ≡ o → Interned p (intern_as o v p) v
    by_entry none e = add-Interned v p i
    by_entry (some j) e =
        let (positive, inside, equal) = i.known v j e in
        record {
          pool = i;
          grown = Grown-refl p;
          held = record {
            positive = positive;
            there = inside;
            is = sym (exact (data_at p j) equal);
          };
        }

pub empty_pool-IsPool : IsPool empty_pool
unfolding find
empty_pool-IsPool = record { some_data = omega arith; known = λ v i e. absurd cc }
