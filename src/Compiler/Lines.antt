-- ===== src/Compiler/Lines.antt =====
-- The lines of a text, and the reader's way through them.
use haproxy_spoa_firehol_mmd.Prelude.{
  ℕ, ◌≤◌, ◌≡◌, ◌==◌, refl, ap, true, false, List, [], ◌∷◌, none, some, arith, if◌then◌else◌, inl,
  inr, Bool-cases, Option-cases,
}
use haproxy_spoa_firehol_mmd.Prelude.Lists.{length}
use haproxy_spoa_firehol_mmd.Utils.Strings.{split_at}
use haproxy_spoa_firehol_mmd.Compiler.{next_line}

abbrev pub in_front : ℕ → List (List ℕ) → List (List ℕ)
in_front c [] = (c ∷ []) ∷ []
in_front c (line ∷ lines) = (c ∷ line) ∷ lines

-- The lines: what is between the ends of lines; nothing stands behind the last one.
unfoldable pub lines_of : List ℕ → List (List ℕ)
lines_of [] = []
lines_of (c ∷ cs) = let more = lines_of cs in if c == 10 then [] ∷ more else in_front c more

next_line_end : (c : ℕ) (cs : List ℕ) → (c == 10) ≡ true → next_line (c ∷ cs) ≡ ([], cs)
unfolding next_line split_at
next_line_end c cs e = rw (e, next_line) refl

split_at-none :
    (c : ℕ) (cs : List ℕ) → (c == 10) ≡ false → split_at 10 cs ≡ none → split_at 10 (c ∷ cs) ≡ none
unfolding split_at
split_at-none c cs e f = rw (e, f) refl

split_at-some :
    (c : ℕ) (cs line rest : List ℕ)
    → (c == 10) ≡ false
    → split_at 10 cs ≡ some (line, rest)
    → split_at 10 (c ∷ cs) ≡ some (c ∷ line, rest)
unfolding split_at
split_at-some c cs line rest e f = rw (e, f) refl

next_line_more :
    (c : ℕ) (cs : List ℕ)
    → (c == 10) ≡ false
    → next_line (c ∷ cs) ≡ (c ∷ (next_line cs).0, (next_line cs).1)
unfolding next_line
next_line_more c cs e = elim (Option-cases (split_at 10 cs)) [
  | inl without ↦ rw (split_at-none c cs e without, without, next_line) refl
  | inr ((line, rest), found) ↦ rw (split_at-some c cs line rest e found, found, next_line) refl
]

next_line_nil : next_line [] ≡ ([], [])
unfolding next_line split_at
next_line_nil = refl

-- The first line, and the text behind it, which is shorter.
pub next_line-lines_of :
    (c : ℕ) (cs : List ℕ)
    → (lines_of (c ∷ cs) ≡ (next_line (c ∷ cs)).0 ∷ lines_of (next_line (c ∷ cs)).1)
      × (length (next_line (c ∷ cs)).1 ≤ length cs)
unfolding lines_of
next_line-lines_of c [] = elim (Bool-cases (c == 10)) [
  | inl e ↦ rw (next_line_end c [] e, e) (refl, omega arith)
  | inr ne ↦ rw (next_line_more c [] ne, ne, next_line_nil) (refl, omega arith)
]
next_line-lines_of c (d ∷ ds) =
    let (lines, shorter) = next_line-lines_of d ds in
    elim (Bool-cases (c == 10)) [
      | inl e ↦ rw (next_line_end c (d ∷ ds) e, e) (refl, omega arith)
      | inr ne ↦ rw (next_line_more c (d ∷ ds) ne, ne) (ap (in_front c) lines, omega arith)
    ]
