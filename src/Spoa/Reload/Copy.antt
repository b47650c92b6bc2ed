-- ===== src/Spoa/Reload/Copy.antt =====
-- A snapshot is the whole file.
use haproxy_spoa_firehol_mmd.Prelude.{
  ℕ, suc, ◌<◌, ◌≡◌, sym, ap, ◌∙◌, Bool, true, false, List, [], ◌∷◌, ◌++◌, arith, append_assoc,
  append-nil,
}
use haproxy_spoa_firehol_mmd.Prelude.Lists.{length, take, drop, take-append-drop, length-drop}
use haproxy_spoa_firehol_mmd.Spoa.Reload.{
  CopyCall, moves, unsupported, CopyResult, copied, failed, copying, copy_contents,
}

-- What is copied and what is left are the file.
moved :
    (n b : ℕ) (source copy : List ℕ)
    → (copy ++ (b ∷ take n source)) ++ drop n source ≡ copy ++ (b ∷ source)
moved n b source copy =
    append_assoc copy (b ∷ take n source) (drop n source)
    ∙ ap (λ v. copy ++ (b ∷ v)) (take-append-drop n source)

-- However many bytes the calls move, and whatever interrupts them or makes the copy go on with
-- `sendfile`: what is copied at the end is what had been copied and all that was left.
pub copy_contents_whole :
    (calls : List CopyCall) (use_sendfile : Bool) (source copy whole : List ℕ)
    → copy_contents calls use_sendfile source copy ≡ copied whole
    → whole ≡ copy ++ source
unfolding copy_contents
copy_contents_whole [] u source copy whole e = cc
copy_contents_whole (moves n ∷ calls) u [] copy whole e =
    sym (copied_inj copy whole e) ∙ sym (append-nil copy)
  where
    content : CopyResult → List ℕ
    content (copied c) = c
    content failed = []
    content copying = []

    copied_inj : (a b : List ℕ) → copied a ≡ copied b → a ≡ b
    copied_inj a b e = ap content e
copy_contents_whole (moves n ∷ calls) u (b ∷ source) copy whole e =
    copy_contents_whole calls u (drop n source) (copy ++ (b ∷ take n source)) whole e
    ∙ moved n b source copy
copy_contents_whole (CopyCall.interrupted ∷ calls) u source copy whole e =
    copy_contents_whole calls u source copy whole e
copy_contents_whole (unsupported ∷ calls) true source copy whole e = cc
copy_contents_whole (unsupported ∷ calls) false source copy whole e =
    copy_contents_whole calls true source copy whole e
copy_contents_whole (CopyCall.fails ∷ calls) u source copy whole e = cc

-- Calls that do not fail: `copy_file_range` may turn out to be unsupported once, `sendfile` not.
abbrev pub Works : Bool → List CopyCall → Type 0
Works u [] = Unit
Works u (moves n ∷ calls) = Works u calls
Works u (CopyCall.interrupted ∷ calls) = Works u calls
Works true (unsupported ∷ calls) = ⊥
Works false (unsupported ∷ calls) = Works true calls
Works u (CopyCall.fails ∷ calls) = ⊥

-- The calls that are not interrupted.
abbrev pub moving : List CopyCall → ℕ
moving [] = 0
moving (moves n ∷ calls) = suc (moving calls)
moving (CopyCall.interrupted ∷ calls) = moving calls
moving (unsupported ∷ calls) = moving calls
moving (CopyCall.fails ∷ calls) = moving calls

-- The copy ends with the whole file once more calls have moved bytes than the file has, if none fails.
pub copy_contents_ends :
    (calls : List CopyCall) (use_sendfile : Bool) (source copy : List ℕ)
    → Works use_sendfile calls
    → length source < moving calls
    → copy_contents calls use_sendfile source copy ≡ copied (copy ++ source)
unfolding copy_contents
copy_contents_ends [] u source copy w h = absurd (omega arith)
copy_contents_ends (moves n ∷ calls) u [] copy w h = ap copied (sym (append-nil copy))
copy_contents_ends (moves n ∷ calls) u (b ∷ source) copy w h =
    copy_contents_ends calls u (drop n source) (copy ++ (b ∷ take n source)) w
      (omega (arith, length-drop n source))
    ∙ ap copied (moved n b source copy)
copy_contents_ends (CopyCall.interrupted ∷ calls) u source copy w h =
    copy_contents_ends calls u source copy w h
copy_contents_ends (unsupported ∷ calls) true source copy w h = absurd w
copy_contents_ends (unsupported ∷ calls) false source copy w h =
    copy_contents_ends calls true source copy w h
copy_contents_ends (CopyCall.fails ∷ calls) true source copy w h = absurd w
copy_contents_ends (CopyCall.fails ∷ calls) false source copy w h = absurd w
