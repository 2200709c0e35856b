-- ===== src/Diff/Sides.antt =====
-- The alignment spells both texts: its left side is one, its right side the other.
use mathlib.Core.List.{reverse-append, reverse-reverse}
use go_notes.Base.{
  ℕ, zero, suc, ◌+◌, ◌-◌, ◌≤◌, ◌≡◌, refl, sym, ap, ◌∙◌, inl, inr, Bool, true, false, ◌||◌, List, [],
  ◌∷◌, ◌++◌, map, reverse, arith, ltb, leb, if◌then◌else◌, Text, same_text, same_text_iff,
  Bool-cases, length, take, drop, append-nil, take-append-drop, drop-append-length, length-append,
  length-drop,
}
use go_notes.Diff.{
  Aligned, run_length, lcs_table, walk, cell, lcs_align, middle_of, align_lines, align, lines,
  max_diff_lines,
}

abbrev pub lefts : List Aligned → List Text
lefts [] = []
lefts (Aligned.common t ∷ ps) = t ∷ lefts ps
lefts (Aligned.left t ∷ ps) = t ∷ lefts ps
lefts (Aligned.right t ∷ ps) = lefts ps

abbrev pub rights : List Aligned → List Text
rights [] = []
rights (Aligned.common t ∷ ps) = t ∷ rights ps
rights (Aligned.left t ∷ ps) = rights ps
rights (Aligned.right t ∷ ps) = t ∷ rights ps

lefts-append : (ps qs : List Aligned) → lefts (ps ++ qs) ≡ lefts ps ++ lefts qs
lefts-append [] qs = refl
lefts-append (Aligned.common t ∷ ps) qs = ap (λ u. t ∷ u) (lefts-append ps qs)
lefts-append (Aligned.left t ∷ ps) qs = ap (λ u. t ∷ u) (lefts-append ps qs)
lefts-append (Aligned.right t ∷ ps) qs = lefts-append ps qs

rights-append : (ps qs : List Aligned) → rights (ps ++ qs) ≡ rights ps ++ rights qs
rights-append [] qs = refl
rights-append (Aligned.common t ∷ ps) qs = ap (λ u. t ∷ u) (rights-append ps qs)
rights-append (Aligned.left t ∷ ps) qs = rights-append ps qs
rights-append (Aligned.right t ∷ ps) qs = ap (λ u. t ∷ u) (rights-append ps qs)

common_sides :
    (ts : List Text) → (lefts (map Aligned.common ts) ≡ ts) × (rights (map Aligned.common ts) ≡ ts)
common_sides [] = (refl, refl)
common_sides (t ∷ ts) = let (a, b) = common_sides ts in (ap (λ u. t ∷ u) a, ap (λ u. t ∷ u) b)

left_sides :
    (ts : List Text) → (lefts (map Aligned.left ts) ≡ ts) × (rights (map Aligned.left ts) ≡ [])
left_sides [] = (refl, refl)
left_sides (t ∷ ts) = let (a, b) = left_sides ts in (ap (λ u. t ∷ u) a, b)

right_sides :
    (ts : List Text) → (lefts (map Aligned.right ts) ≡ []) × (rights (map Aligned.right ts) ≡ ts)
right_sides [] = (refl, refl)
right_sides (t ∷ ts) = let (a, b) = right_sides ts in (a, ap (λ u. t ∷ u) b)

walk_sides :
    (table : List (List ℕ)) (i j : ℕ) (ls rs : List Text)
    → (lefts (walk table i j ls rs) ≡ ls) × (rights (walk table i j ls rs) ≡ rs)
unfolding walk
walk_sides table i j [] rs = right_sides rs
walk_sides table i j (x ∷ xs) [] = left_sides (x ∷ xs)
walk_sides table i j (x ∷ xs) (y ∷ ys) = elim (Bool-cases (same_text x y)) [
  | inl e ↦
      let (a, b) = walk_sides table (i + 1) (j + 1) xs ys in
      rw e (ap (λ u. x ∷ u) a, ap (λ u. x ∷ u) b ∙ ap (λ u. u ∷ ys) ((same_text_iff x y).0 e))
  | inr e ↦ elim (Bool-cases (leb (cell table i (j + 1)) (cell table (i + 1) j))) [
    | inl d ↦
        let (a, b) = walk_sides table (i + 1) j xs (y ∷ ys) in rw (e, d) (ap (λ u. x ∷ u) a, b)
    | inr d ↦
        let (a, b) = walk_sides table i (j + 1) (x ∷ xs) ys in rw (e, d) (a, ap (λ u. y ∷ u) b)
  ]
]

-- The run that is counted is the same on both sides, and fits in both.
run_agrees :
    (ls rs : List Text)
    → (take (run_length ls rs) ls ≡ take (run_length ls rs) rs)
      × (run_length ls rs ≤ length ls)
      × (run_length ls rs ≤ length rs)
unfolding run_length
run_agrees [] rs = (refl, omega arith, omega arith)
run_agrees (a ∷ ls) [] = (refl, omega arith, omega arith)
run_agrees (a ∷ ls) (b ∷ rs) = elim (Bool-cases (same_text a b)) [
  | inl e ↦
      let (p, q, r) = run_agrees ls rs in
      rw e (cc (p, (same_text_iff a b).0 e), omega (arith, q), omega (arith, r))
  | inr e ↦ rw e (refl, omega arith, omega arith)
]

drop_more : (h k m : ℕ) (xs : List Text) → m ≡ h + k → drop m xs ≡ drop k (drop h xs)
drop_more zero k m xs e = let q : m ≡ k = omega arith in rw q
drop_more (suc h) k zero xs e = absurd (omega arith)
drop_more (suc h) zero (suc m) [] e = refl
drop_more (suc h) (suc k) (suc m) [] e = refl
drop_more (suc h) k (suc m) (x ∷ xs) e = drop_more h k m xs (omega arith)

length-reverse : (xs : List Text) → length (reverse xs) ≡ length xs
length-reverse [] = refl
length-reverse (x ∷ xs) =
    ap length (reverse-append (x ∷ []) xs)
    ∙ omega (arith, length-append (reverse xs) (x ∷ []), length-reverse xs)

-- The last members of a list, counted from the front of its reverse.
drop-reverse :
    (xs : List Text) (n : ℕ)
    → n ≤ length xs
    → drop (length xs - n) xs ≡ reverse (take n (reverse xs))
drop-reverse xs n h =
    let r = reverse xs in
    let spelt : xs ≡ reverse (drop n r) ++ reverse (take n r) =
      sym (reverse-reverse xs)
      ∙ ap reverse (sym (take-append-drop n r))
      ∙ reverse-append (take n r) (drop n r) in
    let long : length xs - n ≡ length (reverse (drop n r)) =
      omega (arith, length-reverse (drop n r), length-drop n r, length-reverse xs) in
    ap (drop (length xs - n)) spelt
    ∙ ap (λ k. drop k (reverse (drop n r) ++ reverse (take n r))) long
    ∙ drop-append-length (reverse (drop n r)) (reverse (take n r))

tail_agrees :
    (ls rs : List Text)
    → let n = run_length (reverse ls) (reverse rs) in
      drop (length ls - n) ls ≡ drop (length rs - n) rs
tail_agrees ls rs =
    let (p, q, r) = run_agrees (reverse ls) (reverse rs) in
    drop-reverse ls _ (omega (arith, length-reverse ls, q))
    ∙ ap reverse p
    ∙ sym (drop-reverse rs _ (omega (arith, length-reverse rs, r)))

-- A text's lines are its head, its middle and its tail.
three_parts :
    (xs : List Text) (h n : ℕ)
    → h ≤ length xs
    → n ≤ length (drop h xs)
    → (take h xs ++ (middle_of xs h n ++ drop (length xs - n) xs) ≡ xs)
      × (drop (length xs - n) xs ≡ drop (length (drop h xs) - n) (drop h xs))
three_parts xs h n a b =
    let k : length xs - n - h ≡ length (drop h xs) - n = omega (arith, length-drop h xs) in
    let d : drop (length xs - n) xs ≡ drop (length (drop h xs) - n) (drop h xs) =
      drop_more h (length (drop h xs) - n) (length xs - n) xs (omega (arith, length-drop h xs)) in
    (
      ap (λ z. take h xs ++ z)
            (ap (λ j. take j (drop h xs) ++ drop (length xs - n) xs) k
              ∙ ap (λ z. take (length (drop h xs) - n) (drop h xs) ++ z) d
              ∙ take-append-drop (length (drop h xs) - n) (drop h xs))
          ∙ take-append-drop h xs,
      d,
    )

middle_sides :
    (ls rs : List Text) (big : Bool)
    → let ps = (if big then map Aligned.right rs ++ map Aligned.left ls else lcs_align ls rs) in
      (lefts ps ≡ ls) × (rights ps ≡ rs)
unfolding lcs_align
middle_sides ls rs true = (
  lefts-append (map Aligned.right rs) (map Aligned.left ls)
      ∙ cc ((right_sides rs).0, (left_sides ls).0),
  rights-append (map Aligned.right rs) (map Aligned.left ls)
      ∙ ap (λ z. z ++ rights (map Aligned.left ls)) ((right_sides rs).1)
      ∙ ap (λ z. rs ++ z) ((left_sides ls).1)
      ∙ append-nil rs,
)
middle_sides ls rs false = walk_sides (lcs_table ls rs) 0 0 ls rs

-- The alignment of two lists of lines spells the first with its left pieces and the second with
-- its right pieces: no line is lost, invented or moved, whichever way the middle is compared.
pub align_lines_sides :
    (ls rs : List Text) → (lefts (align_lines ls rs) ≡ ls) × (rights (align_lines ls rs) ≡ rs)
unfolding align_lines
align_lines_sides ls rs =
    let h = run_length ls rs in
    let n = run_length (reverse (drop h ls)) (reverse (drop h rs)) in
    let (p, hl, hr) = run_agrees ls rs in
    let (_, tl, tr) = run_agrees (reverse (drop h ls)) (reverse (drop h rs)) in
    let (el, dl) = three_parts ls h n hl (omega (arith, tl, length-reverse (drop h ls))) in
    let (er, dr) = three_parts rs h n hr (omega (arith, tr, length-reverse (drop h rs))) in
    let big =
      ltb max_diff_lines (length (middle_of ls h n))
      || ltb max_diff_lines (length (middle_of rs h n)) in
    let (ml, mr) = middle_sides (middle_of ls h n) (middle_of rs h n) big in
    let t : drop (length ls - n) ls ≡ drop (length rs - n) rs =
      dl ∙ tail_agrees (drop h ls) (drop h rs) ∙ sym dr in
    let ps = map Aligned.common (take h ls) in
    let qs =
      (if big
        then map Aligned.right (middle_of rs h n) ++ map Aligned.left (middle_of ls h n)
        else lcs_align (middle_of ls h n) (middle_of rs h n)) in
    let os = map Aligned.common (drop (length ls - n) ls) in
    (
      join_sides lefts lefts-append ps qs os ((common_sides (take h ls)).0) ml
            ((common_sides (drop (length ls - n) ls)).0)
          ∙ el,
      join_sides rights rights-append ps qs os ((common_sides (take h ls)).1 ∙ p) mr
            ((common_sides (drop (length ls - n) ls)).1 ∙ t)
          ∙ er,
    )
  where
    join_sides :
        (f : List Aligned → List Text)
        → ((ps qs : List Aligned) → f (ps ++ qs) ≡ f ps ++ f qs)
        → (ps qs os : List Aligned) {xs ys zs : List Text} → f ps ≡ xs
        → f qs ≡ ys
        → f os ≡ zs
        → f (ps ++ (qs ++ os)) ≡ xs ++ (ys ++ zs)
    join_sides f fa ps qs os a b c = cc (fa ps (qs ++ os), fa qs os)

-- The alignment of two texts spells the lines of both.
pub align_sides : (a b : Text) → (lefts (align a b) ≡ lines a) × (rights (align a b) ≡ lines b)
unfolding align
align_sides a b = align_lines_sides (lines a) (lines b)
