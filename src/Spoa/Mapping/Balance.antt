-- ===== src/Spoa/Mapping/Balance.antt =====
-- No mapping is lost, and none is closed twice.
use haproxy_spoa_firehol_mmd.Prelude.{
  ℕ, suc, ◌+◌, ◌-◌, ◌==◌, ◌<◌, ◌≡◌, refl, Bool, true, false, ◌&&◌, List, [], ◌∷◌, arith,
  if◌then◌else◌, Bool-cases, inl, inr,
}
use haproxy_spoa_firehol_mmd.Prelude.Lists.{All}
use haproxy_spoa_firehol_mmd.Prelude.Int.{ℤ}
use haproxy_spoa_firehol_mmd.Spoa.Database.{is_zero, c_string}
use haproxy_spoa_firehol_mmd.Spoa.Mapping.{
  Mmdb, Mappings, empty, remove, close, open_path, move_assign,
}

-- How often a handle is live, and how often an object owns it.
unfoldable pub times : ℕ → List ℕ → ℕ
times h [] = 0
times h (x ∷ xs) = let rest = times h xs in if x == h then suc rest else rest

abbrev pub owns : ℕ → Mmdb → ℕ
owns h m = if m.is_open && (m.handle == h) then 1 else 0

times-remove :
    (h x : ℕ) (xs : List ℕ) → times h (remove x xs) ≡ times h xs - (if x == h then 1 else 0)
unfolding times remove
times-remove h x [] = ground arith
times-remove h x (y ∷ ys) = ground (arith, times-remove h x ys)

-- The object and the `others` own exactly the live mappings, each of which was handed out before.
pub record Balanced (others : ℕ → ℕ) (m : Mmdb) (s : Mappings) : Type 0 where
  pub owned : (h : ℕ) → times h s.live ≡ others h + owns h m
  pub used : All (λ h. h < s.next) s.live

All-remove : (x n : ℕ) (xs : List ℕ) → All (λ h. h < n) xs → All (λ h. h < n) (remove x xs)
unfolding remove
All-remove x n [] a = tt
All-remove x n (y ∷ ys) (hy, a) = elim (Bool-cases (y == x)) [
  | inl same ↦ rw same a
  | inr other ↦ rw other (hy, All-remove x n ys a)
]

All-later : (n : ℕ) (xs : List ℕ) → All (λ h. h < n) xs → All (λ h. h < suc n) xs
All-later n [] a = tt
All-later n (x ∷ xs) (h, a) = (omega arith, All-later n xs a)

times_unused : (n : ℕ) (xs : List ℕ) → All (λ h. h < n) xs → times n xs ≡ 0
unfolding times
times_unused n [] a = refl
times_unused n (x ∷ xs) (h, a) = ground (arith, times_unused n xs a)

close_opened :
    (others : ℕ → ℕ) (handle : ℕ) (path : List ℕ) (s : Mappings)
    → Balanced others (record { handle = handle; is_open = true; path = path }) s
    → Balanced others empty (record s { live = remove handle s.live })
close_opened others handle path s b = record {
  owned = λ h. omega (arith, times-remove h handle s.live, b.owned h, own h);
  used = All-remove handle s.next s.live b.used;
}
  where
    own :
        (h : ℕ)
        → owns h (record { handle = handle; is_open = true; path = path })
          ≡ (if handle == h then 1 else 0)
    own h = refl

close_fields :
    (others : ℕ → ℕ) (handle : ℕ) (is_open : Bool) (path : List ℕ) (s : Mappings)
    → let m : Mmdb = record { handle = handle; is_open = is_open; path = path } in
      Balanced others m s → Balanced others ((close m s).0) ((close m s).1)
unfolding close
close_fields others handle false path s b = b
close_fields others handle true path s b = close_opened others handle path s b

-- `close` gives up what the object owns, and only that.
close-Balanced :
    (others : ℕ → ℕ) (m : Mmdb) (s : Mappings)
    → Balanced others m s
    → Balanced others ((close m s).0) ((close m s).1)
close-Balanced others m s b = close_fields others m.handle m.is_open m.path s b

closed_owns : (m : Mmdb) (s : Mappings) (h : ℕ) → owns h ((close m s).0) ≡ 0
closed_owns m s h = go m.handle m.is_open m.path s h
  where
    go :
        (handle : ℕ) (is_open : Bool) (path : List ℕ) (s : Mappings) (h : ℕ)
        → owns h ((close (record { handle = handle; is_open = is_open; path = path }) s).0) ≡ 0
    go handle false path s h = unfold close in refl
    go handle true path s h = unfold close in refl

-- A fresh mapping for an object that owns nothing.
add_fresh :
    (others : ℕ → ℕ) (m : Mmdb) (s : Mappings) (path : List ℕ)
    → Balanced others m s
    → ((h : ℕ) → owns h m ≡ 0)
    → Balanced others
        (record { handle = s.next; is_open = true; path = path })
        (record { live = s.next ∷ s.live; next = suc s.next })
unfolding times
add_fresh others m s path b none_owned = record {
  owned = λ h. ground (arith, b.owned h, none_owned h, times_unused s.next s.live b.used);
  used = (omega arith, All-later s.next s.live b.used);
}

open_path-Balanced :
    (mmdb_open : List ℕ → ℤ) (others : ℕ → ℕ) (path : List ℕ) (m : Mmdb) (s : Mappings)
    → Balanced others m s
    → Balanced others ((open_path mmdb_open path m s).1) ((open_path mmdb_open path m s).2)
unfolding open_path
open_path-Balanced mmdb_open others path m s b =
    let b' = close-Balanced others m s b in
    elim (Bool-cases (is_zero (mmdb_open (c_string path)))) [
      | inl succeeded ↦
          rw succeeded (add_fresh others ((close m s).0) ((close m s).1) path b' (closed_owns m s))
      | inr failed ↦ rw failed b'
    ]

move_assign-Balanced :
    (others : ℕ → ℕ) (moved : List ℕ) (m other : Mmdb) (s : Mappings)
    → Balanced (λ h. others h + owns h other) m s
    → let (m', other', s') = move_assign moved m other s in
      Balanced (λ h. others h + owns h other') m' s'
unfolding move_assign
move_assign-Balanced others moved m other s b =
    let c = close-Balanced (λ h. others h + owns h other) m s b in
    record { owned = λ h. omega (arith, c.owned h, closed_owns m s h); used = c.used }

-- Two objects and the `others` own exactly the mappings that are live. Closing one, opening a path in it,
-- whether that succeeds or throws, and moving the other into it keep this: each mapping that is given
-- up is closed, once, and none is lost.
pub ownership_kept :
    (mmdb_open : List ℕ → ℤ) (others : ℕ → ℕ) (path moved : List ℕ) (m other : Mmdb) (s : Mappings)
    → Balanced (λ h. others h + owns h other) m s
    → let (closed, s₁) = close m s in
      let (thrown, opened, s₂) = open_path mmdb_open path m s in
      let (assigned, other', s₃) = move_assign moved m other s in
      Balanced (λ h. others h + owns h other) closed s₁
      × Balanced (λ h. others h + owns h other) opened s₂
      × Balanced (λ h. others h + owns h other') assigned s₃
ownership_kept mmdb_open others path moved m other s b = (
  close-Balanced (λ h. others h + owns h other) m s b,
  open_path-Balanced mmdb_open (λ h. others h + owns h other) path m s b,
  move_assign-Balanced others moved m other s b,
)
