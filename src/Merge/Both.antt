-- ===== src/Merge/Both.antt =====
-- The merge of two versions: it never panics, and both devices come to the same text.
use go_notes.Base.{
  ℕ, ◌≡◌, refl, sym, subst, inl, inr, ◌⊎◌, Bool, true, false, ◌&&◌, some, List, [], ◌∷◌, ◌++◌,
  arith, leb, ◌==◌, ==_refl, Text, same_text, same_text_iff, same_text_refl, All, Bool-cases,
  and_both, ends_with, length, any,
}
use go_notes.Diff.{align, lines}
use go_notes.Diff.Sides.{align_sides}
use go_notes.Merge.{
  Merge, Hunk, same_lines, same_hunk, hunks_of, touches_or_overlaps, disagrees, any_disagree,
  add_new, ordered_hunks, apply_hunks, three_way,
}
use go_notes.Merge.Chain.{
  IsChain, EndsBy, IsForward, hunks_of-IsChain, splice-Returns, IsApart, IsApart-sym, Pairwise,
  IsChain-Pairwise, IsChain-IsForward, sort-All, sort-IsChain,
}

same_lines_iff : (xs ys : List Text) → same_lines xs ys ≡ true → xs ≡ ys
unfolding same_lines
same_lines_iff [] [] e = refl
same_lines_iff [] (y ∷ ys) e = ground (arith, e)
same_lines_iff (x ∷ xs) [] e = ground (arith, e)
same_lines_iff (x ∷ xs) (y ∷ ys) e =
    let (a, b) = and_both (same_text x y) (same_lines xs ys) e in
    let p : x ≡ y = (same_text_iff x y).0 a in let q = same_lines_iff xs ys b in cc

same_lines_refl : (xs : List Text) → same_lines xs xs ≡ true
unfolding same_lines
same_lines_refl [] = refl
same_lines_refl (x ∷ xs) = rw (same_text_refl x) (same_lines_refl xs)

pub same_hunk_eq : (a b : Hunk) → same_hunk a b ≡ true → a ≡ b
unfolding same_hunk
same_hunk_eq a b e =
    let (r, l) =
      and_both (a.base_start == b.base_start && a.base_end == b.base_end)
        (same_lines a.replacement b.replacement) e in
    let (s, t) = and_both (a.base_start == b.base_start) (a.base_end == b.base_end) r in
    let p : a.base_start ≡ b.base_start = ground (arith, s) in
    let q : a.base_end ≡ b.base_end = ground (arith, t) in
    let u : a.replacement ≡ b.replacement = same_lines_iff a.replacement b.replacement l in
    λ i. record { base_start = p i; base_end = q i; replacement = u i }

pub same_hunk_refl : (a : Hunk) → same_hunk a a ≡ true
unfolding same_hunk
same_hunk_refl a =
    rw (==_refl a.base_start) (rw (==_refl a.base_end) (same_lines_refl a.replacement))

-- Two hunks of a clean merge: one and the same, or apart.
abbrev Agree : Hunk → Hunk → Type 0
Agree a b = (a ≡ b) ⊎ IsApart a b

Agree-sym : (a b : Hunk) → Agree a b → Agree b a
Agree-sym a b (inl e) = inl (sym e)
Agree-sym a b (inr h) = inr (IsApart-sym a b h)

disagrees-Agree : (a b : Hunk) → disagrees a b ≡ false → Agree a b
unfolding disagrees touches_or_overlaps
disagrees-Agree a b e = elim (Bool-cases (same_hunk a b)) [
  | inl s ↦ inl (same_hunk_eq a b s)
  | inr s ↦ elim (Bool-cases (leb a.base_start b.base_end)) [
    | inl x ↦ elim (Bool-cases (leb b.base_start a.base_end)) [
      | inl y ↦ ground (arith, e, s, x, y)
      | inr y ↦ inr (inl (ground (arith, y)))
    ]
    | inr x ↦ inr (inr (ground (arith, x)))
  ]
]

row_Agree : (a : Hunk) (bs : List Hunk) → any (λ b. disagrees a b) bs ≡ false → All (Agree a) bs
row_Agree a [] e = tt
row_Agree a (b ∷ bs) e =
    let x : disagrees a b ≡ false = ground (arith, e) in
    let y : any (λ b. disagrees a b) bs ≡ false = ground (arith, e) in
    (disagrees-Agree a b x, row_Agree a bs y)

All-Agree : (as' bs : List Hunk) → any_disagree as' bs ≡ false → All (λ a. All (Agree a) bs) as'
unfolding any_disagree
All-Agree [] bs e = tt
All-Agree (a ∷ as') bs e =
    let x : any (λ b. disagrees a b) bs ≡ false = ground (arith, e) in
    let y : any (λ a. any (λ b. disagrees a b) bs) as' ≡ false = ground (arith, e) in
    (row_Agree a bs x, All-Agree as' bs y)

All-map : (P Q : Hunk → Type 0) (hs : List Hunk) → ((h : Hunk) → P h → Q h) → All P hs → All Q hs
All-map P Q [] f a = tt
All-map P Q (h ∷ hs) f (p, a) = (f h p, All-map P Q hs f a)

All-append : (P : Hunk → Type 0) (xs ys : List Hunk) → All P xs → All P ys → All P (xs ++ ys)
All-append P [] ys a b = b
All-append P (x ∷ xs) ys (p, a) b = (p, All-append P xs ys a b)

Pairwise-both :
    (xs ys : List Hunk)
    → Pairwise IsApart xs
    → Pairwise IsApart ys
    → All (λ x. All (Agree x) ys) xs
    → Pairwise Agree (xs ++ ys)
Pairwise-both [] ys p q r = lifted ys q
  where
    lifted : (ys : List Hunk) → Pairwise IsApart ys → Pairwise Agree ys
    lifted [] q = tt
    lifted (y ∷ ys) (a, q) = (All-map (IsApart y) (Agree y) ys (λ h x. inr x) a, lifted ys q)
Pairwise-both (x ∷ xs) ys (a, p) q (r, rs) = (
  All-append (Agree x) xs ys (All-map (IsApart x) (Agree x) xs (λ h y. inr y) a) r,
  Pairwise-both xs ys p q rs,
)

-- A hunk that is not among those that it agrees with is apart from them.
fresh :
    (h : Hunk) (seen : List Hunk)
    → All (λ e. Agree e h) seen
    → any (λ e. same_hunk e h) seen ≡ false
    → All (λ e. IsApart e h) seen
fresh h [] a n = tt
fresh h (e ∷ es) (inl q, a) n =
    let s : same_hunk e h ≡ true = subst (λ u. same_hunk e u ≡ true) q (same_hunk_refl e) in
    ground (arith, s, n)
fresh h (e ∷ es) (inr q, a) n = (q, fresh h es a (ground (arith, n)))

Pairwise-push :
    (seen : List Hunk) (h : Hunk)
    → Pairwise IsApart seen
    → All (λ e. IsApart e h) seen
    → Pairwise IsApart (seen ++ h ∷ [])
Pairwise-push [] h p a = (tt, tt)
Pairwise-push (e ∷ es) h (b, p) (q, a) =
    (All-append (IsApart e) es (h ∷ []) b (q, tt), Pairwise-push es h p a)

-- What `add_new` makes of hunks that agree with one another and with those seen.
abbrev Cross : List Hunk → List Hunk → Type 0
Cross seen hs = All (λ e. All (Agree e) hs) seen

Cross-tail : (seen : List Hunk) (h : Hunk) (hs : List Hunk) → Cross seen (h ∷ hs) → Cross seen hs
Cross-tail seen h hs c =
    All-map (λ e. All (Agree e) (h ∷ hs)) (λ e. All (Agree e) hs) seen (λ e a. a.1) c

add_new-Pairwise :
    (hs seen : List Hunk)
    → Pairwise IsApart seen
    → Pairwise Agree hs
    → Cross seen hs
    → Pairwise IsApart (add_new seen hs)
unfolding add_new
add_new-Pairwise [] seen p q c = p
add_new-Pairwise (h ∷ hs) seen p (a, q) c = elim (Bool-cases (any (λ e. same_hunk e h) seen)) [
  | inl e ↦ rw e (add_new-Pairwise hs seen p q (Cross-tail seen h hs c))
  | inr e ↦ rw e (
      add_new-Pairwise hs (seen ++ h ∷ [])
        (Pairwise-push seen h p (
          fresh h seen (All-map (λ e. All (Agree e) (h ∷ hs)) (λ e. Agree e h) seen (λ e a. a.0) c)
            e))
        q (All-append (λ e. All (Agree e) hs) seen (h ∷ []) (Cross-tail seen h hs c) (a, tt)))
]

add_new-All :
    (P : Hunk → Type 0) (hs seen : List Hunk) → All P seen → All P hs → All P (add_new seen hs)
unfolding add_new
add_new-All P [] seen s a = s
add_new-All P (h ∷ hs) seen s (p, a) = elim (Bool-cases (any (λ e. same_hunk e h) seen)) [
  | inl e ↦ rw e (add_new-All P hs seen s a)
  | inr e ↦ rw e (add_new-All P hs (seen ++ h ∷ []) (All-append P seen (h ∷ []) s (p, tt)) a)
]

pub ordered_hunks-IsChain :
    (xs ys : List Hunk)
    → IsChain 0 xs
    → IsChain 0 ys
    → any_disagree xs ys ≡ false
    → IsChain 0 (ordered_hunks xs ys)
unfolding ordered_hunks
ordered_hunks-IsChain xs ys cx cy n =
    sort-IsChain (add_new [] (xs ++ ys))
      (add_new-All IsForward (xs ++ ys) [] tt
        (All-append IsForward xs ys (IsChain-IsForward 0 xs cx) (IsChain-IsForward 0 ys cy)))
      (add_new-Pairwise (xs ++ ys) [] tt
        (Pairwise-both xs ys (IsChain-Pairwise 0 xs cx) (IsChain-Pairwise 0 ys cy)
          (All-Agree xs ys n))
        tt)

ordered_hunks-EndsBy :
    (n : ℕ) (xs ys : List Hunk)
    → All (EndsBy n) xs
    → All (EndsBy n) ys
    → All (EndsBy n) (ordered_hunks xs ys)
unfolding ordered_hunks
ordered_hunks-EndsBy n xs ys ax ay =
    sort-All (EndsBy n) (add_new [] (xs ++ ys))
      (add_new-All (EndsBy n) (xs ++ ys) [] tt (All-append (EndsBy n) xs ys ax ay))

hunks_of-align-EndsBy :
    (base edited : Text) → All (EndsBy (length (lines base))) (hunks_of (align base edited))
hunks_of-align-EndsBy base edited =
    subst (λ ls. All (EndsBy (length ls)) (hunks_of (align base edited)))
      (align_sides base edited).0 (hunks_of-IsChain (align base edited)).1

apply_hunks-Returns :
    (base : List Text) (xs ys : List Hunk) (trailing : Bool)
    → IsChain 0 (ordered_hunks xs ys)
    → All (EndsBy (length base)) (ordered_hunks xs ys)
    → (text : Text) × (apply_hunks base xs ys trailing ≡ some text)
unfolding apply_hunks
apply_hunks-Returns base xs ys trailing c a =
    let (out, q) = splice-Returns base 0 (ordered_hunks xs ys) c (omega arith) a in rw q (_, refl)

clean-Returns :
    (base mine theirs : Text)
    → any_disagree (hunks_of (align base mine)) (hunks_of (align base theirs)) ≡ false
    → (text : Text) × (apply_hunks
          (lines base)
          (hunks_of (align base mine))
          (hunks_of (align base theirs))
          (ends_with base 10)
        ≡ some text)
clean-Returns base mine theirs d =
    apply_hunks-Returns (lines base) (hunks_of (align base mine)) (hunks_of (align base theirs))
      (ends_with base 10)
      (ordered_hunks-IsChain (hunks_of (align base mine)) (hunks_of (align base theirs))
        (hunks_of-IsChain (align base mine)).0 (hunks_of-IsChain (align base theirs)).0 d)
      (ordered_hunks-EndsBy (length (lines base)) (hunks_of (align base mine))
        (hunks_of (align base theirs)) (hunks_of-align-EndsBy base mine)
        (hunks_of-align-EndsBy base theirs))

-- The merge of any three texts returns: no hunk is cut out of the base past its end or before the
-- place that the one before it has reached.
pub three_way-Returns :
    (base mine theirs : Text) → (m : Merge) × (three_way base mine theirs ≡ some m)
unfolding three_way
three_way-Returns base mine theirs = elim (Bool-cases (same_text mine theirs)) [
  | inl e ↦ rw e (_, refl)
  | inr e ↦ rw e (elim (Bool-cases (same_text mine base)) [
    | inl e ↦ rw e (_, refl)
    | inr e ↦ rw e (elim (Bool-cases (same_text theirs base)) [
      | inl e ↦ rw e (_, refl)
      | inr e ↦
          rw e
            (elim (Bool-cases
              (any_disagree (hunks_of (align base mine)) (hunks_of (align base theirs)))) [
                | inl d ↦ rw d (_, refl)
                | inr d ↦ let (text, q) = clean-Returns base mine theirs d in rw d (rw q (_, refl))
              ])
    ])
  ])
]
