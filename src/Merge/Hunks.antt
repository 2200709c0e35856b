-- ===== src/Merge/Hunks.antt =====
-- The hunks of an alignment, applied to the base, give the other side back.
use go_notes.Base.{
  ℕ, zero, suc, ◌+◌, ◌-◌, ◌≤◌, ◌≡◌, refl, sym, ap, ◌∙◌, Option, none, some, List, [], ◌∷◌, ◌++◌,
  arith, Text, length, take, drop, append_assoc, append-nil, length-drop,
}
use go_notes.Diff.{Aligned, align, lines}
use go_notes.Diff.Sides.{lefts, rights, align_sides}
use go_notes.Merge.{Hunk, hunks_from, hunks_of, splice}

take_all : (n : ℕ) (xs : List Text) → length xs ≤ n → take n xs ≡ xs
take_all zero [] h = refl
take_all (suc n) [] h = refl
take_all zero (x ∷ xs) h = absurd (omega arith)
take_all (suc n) (x ∷ xs) h = ap (λ u. x ∷ u) (take_all n xs (omega arith))

take_next :
    (n : ℕ) (xs r : List Text) (t : Text)
    → drop n xs ≡ t ∷ r
    → take (suc n) xs ≡ take n xs ++ t ∷ []
take_next zero [] r t h = cc
take_next zero (x ∷ xs) r t h = let e : x ≡ t = cc in ap (λ u. u ∷ []) e
take_next (suc n) [] r t h = cc
take_next (suc n) (x ∷ xs) r t h = ap (λ u. x ∷ u) (take_next n xs r t h)

drop-drop : (c d i : ℕ) (xs : List Text) → i ≡ c + d → drop d (drop c xs) ≡ drop i xs
drop-drop zero d i xs e = let q : i ≡ d = omega arith in rw q
drop-drop (suc c) d zero xs e = absurd (omega arith)
drop-drop (suc c) zero (suc i) [] e = refl
drop-drop (suc c) (suc d) (suc i) [] e = refl
drop-drop (suc c) d (suc i) (x ∷ xs) e = drop-drop c d i xs (omega arith)

drop_next : (i : ℕ) (xs r : List Text) (t : Text) → drop i xs ≡ t ∷ r → drop (i + 1) xs ≡ r
drop_next i xs r t h = sym (drop-drop i 1 (i + 1) xs refl) ∙ ap (drop 1) h

-- Lines from the cursor up to one more, where the next line is known.
between_next :
    (c i : ℕ) (xs r : List Text) (t : Text)
    → c ≤ i
    → drop i xs ≡ t ∷ r
    → take (i + 1 - c) (drop c xs) ≡ take (i - c) (drop c xs) ++ t ∷ []
between_next c i xs r t h e =
    let n : i + 1 - c ≡ suc (i - c) = omega arith in
    ap (λ k. take k (drop c xs)) n
    ∙ take_next (i - c) (drop c xs) r t (drop-drop c (i - c) i xs (omega arith) ∙ e)

splice_hunk :
    (base : List Text) (c : ℕ) (h : Hunk) (hs : List Hunk) (out : List Text)
    → c ≤ h.base_start
    → h.base_start ≤ length base
    → splice base h.base_end hs ≡ some out
    → splice base c (h ∷ hs)
      ≡ some (take (h.base_start - c) (drop c base) ++ (h.replacement ++ out))
unfolding splice
splice_hunk base c h hs out a b e = ground (arith, e)

splice_end : (base : List Text) (c : ℕ) → c ≤ length base → splice base c [] ≡ some (drop c base)
unfolding splice
splice_end base c h = ground arith

abbrev start_of : ℕ → Option Hunk → ℕ
start_of i none = i
start_of i (some h) = h.base_start

abbrev text_of : Option Hunk → List Text
text_of none = []
text_of (some h) = h.replacement

abbrev EndsAt : ℕ → Option Hunk → Type 0
EndsAt i none = Unit
EndsAt i (some h) = h.base_end ≡ i

-- The hunks that the loop still makes, applied from a cursor: what lies between the cursor and the
-- start of the current hunk, its text so far, and the right side of the pieces to come.
spliced :
    (ps : List Aligned) (base : List Text) (i c : ℕ) (current : Option Hunk)
    → c ≤ start_of i current
    → start_of i current ≤ i
    → EndsAt i current
    → drop i base ≡ lefts ps
    → i + length (lefts ps) ≡ length base
    → splice base c (hunks_from i current ps)
      ≡ some (take (start_of i current - c) (drop c base) ++ (text_of current ++ rights ps))
unfolding hunks_from
spliced [] base i c none a b e d l =
    splice_end base c (omega arith)
    ∙ ap some
        (sym (append-nil _ ∙ take_all (i - c) (drop c base) (omega (arith, length-drop c base))))
spliced [] base i c (some h) a b e d l =
    splice_hunk base c h [] [] a (omega arith)
      (splice_end base h.base_end (omega (arith, e)) ∙ ap some (ap (λ k. drop k base) e ∙ d))
spliced (Aligned.common t ∷ ps) base i c none a b e d l =
    spliced ps base (i + 1) c none (omega arith) (omega arith) tt (drop_next i base _ t d)
      (omega arith)
    ∙ ap some (
        ap (λ u. u ++ rights ps) (between_next c i base _ t a d)
        ∙ append_assoc (take (i - c) (drop c base)) (t ∷ []) (rights ps))
spliced (Aligned.common t ∷ ps) base i c (some h) a b e d l =
    let none_left : i - i ≡ 0 = omega arith in
    let rest =
      spliced ps base (i + 1) i none (omega arith) (omega arith) tt (drop_next i base _ t d)
        (omega arith) in
    let one : take (i + 1 - i) (drop i base) ≡ t ∷ [] =
      between_next i i base _ t (omega arith) d
      ∙ ap (λ k. take k (drop i base) ++ t ∷ []) none_left in
    splice_hunk base c h (hunks_from (i + 1) none ps) (t ∷ rights ps) a (omega arith) (
      ap (λ k. splice base k (hunks_from (i + 1) none ps)) e
      ∙ rest
      ∙ ap some (ap (λ u. u ++ rights ps) one))
spliced (Aligned.left t ∷ ps) base i c none a b e d l =
    spliced ps base (i + 1) c (some (record { base_start = i; base_end = i + 1; replacement = [] }))
      a (omega arith) refl (drop_next i base _ t d) (omega arith)
spliced (Aligned.left t ∷ ps) base i c (some h) a b e d l =
    spliced ps base (i + 1) c (some (record h { base_end = i + 1 })) a (omega arith) refl
      (drop_next i base _ t d) (omega arith)
spliced (Aligned.right t ∷ ps) base i c none a b e d l =
    spliced ps base i c (some (record { base_start = i; base_end = i; replacement = t ∷ [] })) a b
      refl d l
spliced (Aligned.right t ∷ ps) base i c (some h) a b e d l =
    spliced ps base i c (some (record h { replacement = h.replacement ++ t ∷ [] })) a b e d l
    ∙ ap some (
        ap (λ u. take (h.base_start - c) (drop c base) ++ u)
          (append_assoc h.replacement (t ∷ []) (rights ps)))

-- The hunks of an alignment are in order and never reach past the base: applying them to the left
-- side does not panic, and gives the right side.
pub splice-hunks_of : (ps : List Aligned) → splice (lefts ps) 0 (hunks_of ps) ≡ some (rights ps)
unfolding hunks_of
splice-hunks_of ps =
    spliced ps (lefts ps) 0 0 none (omega arith) (omega arith) tt refl (omega arith)

-- The edits of one version against the base, applied to the lines of the base, give the lines of
-- that version.
pub splice-align :
    (base mine : Text) → splice (lines base) 0 (hunks_of (align base mine)) ≡ some (lines mine)
splice-align base mine =
    let (l, r) = align_sides base mine in
    ap (λ ls. splice ls 0 (hunks_of (align base mine))) (sym l)
    ∙ splice-hunks_of (align base mine)
    ∙ ap some r
