-- ===== src/Merge/Symmetric.antt =====
-- The merge does not depend on which of the two versions is one's own.
use go_notes.Base.{
  ◌≡◌, refl, sym, ap, ◌∙◌, subst, inl, inr, ◌⊎◌, Bool, true, false, some, List, [], ◌∷◌, ◌++◌,
  arith, Text, same_text, same_text_iff, same_text_refl, Bool-cases, ends_with, any,
}
use go_notes.Diff.{align, lines}
use go_notes.Merge.{
  clean, Hunk, same_hunk, hunks_of, touches_or_overlaps, disagrees, any_disagree, add_new,
  ordered_hunks, splice, finished, apply_hunks, as_clean, three_way,
}
use go_notes.Merge.Chain.{IsChain, hunks_of-IsChain}
use go_notes.Merge.Both.{same_hunk_eq, same_hunk_refl, ordered_hunks-IsChain}
use go_notes.Merge.Members.{
  In, IsChain-ext, In-sort, sort-In, append-In, In-append, add_new-In, In-add_new,
}

ordered_hunks-In : (h : Hunk) (xs ys : List Hunk) → In h (ordered_hunks xs ys) → In h xs ⊎ In h ys
unfolding ordered_hunks
ordered_hunks-In h xs ys m =
    elim (add_new-In h (xs ++ ys) [] (sort-In h (add_new [] (xs ++ ys)) m)) [
      | inl n ↦ absurd n
      | inr n ↦ append-In h xs ys n
    ]

In-ordered_hunks : (h : Hunk) (xs ys : List Hunk) → In h xs ⊎ In h ys → In h (ordered_hunks xs ys)
unfolding ordered_hunks
In-ordered_hunks h xs ys m =
    In-sort h (add_new [] (xs ++ ys)) (In-add_new h (xs ++ ys) [] (inr (In-append h xs ys m)))

swapped : (A B : Type 0) → A ⊎ B → B ⊎ A
swapped A B (inl a) = inr a
swapped A B (inr b) = inl b

ordered_hunks-crosses :
    (h : Hunk) (xs ys : List Hunk) → In h (ordered_hunks xs ys) → In h (ordered_hunks ys xs)
ordered_hunks-crosses h xs ys m =
    In-ordered_hunks h ys xs (swapped (In h xs) (In h ys) (ordered_hunks-In h xs ys m))

ordered_hunks_comm :
    (xs ys : List Hunk)
    → IsChain 0 xs
    → IsChain 0 ys
    → any_disagree xs ys ≡ false
    → any_disagree ys xs ≡ false
    → ordered_hunks xs ys ≡ ordered_hunks ys xs
ordered_hunks_comm xs ys c d n k =
    IsChain-ext (ordered_hunks xs ys) (ordered_hunks ys xs) 0 (ordered_hunks-IsChain xs ys c d n)
      (ordered_hunks-IsChain ys xs d c k) (λ h. ordered_hunks-crosses h xs ys)
      (λ h. ordered_hunks-crosses h ys xs)

same_hunk_comm : (a b : Hunk) → same_hunk a b ≡ true → same_hunk b a ≡ true
same_hunk_comm a b e = subst (λ k. same_hunk k a ≡ true) (same_hunk_eq a b e) (same_hunk_refl a)

disagrees_comm : (a b : Hunk) → disagrees a b ≡ false → disagrees b a ≡ false
unfolding disagrees touches_or_overlaps
disagrees_comm a b e = elim (Bool-cases (same_hunk a b)) [
  | inl s ↦ let t = same_hunk_comm a b s in ground (arith, t)
  | inr s ↦ ground (arith, e, s)
]

any_disagree-nil : (xs : List Hunk) → any_disagree xs [] ≡ false
unfolding any_disagree
any_disagree-nil [] = refl
any_disagree-nil (x ∷ xs) = any_disagree-nil xs

any_disagree-cons :
    (y : Hunk) (ys xs : List Hunk)
    → any (λ b. disagrees y b) xs ≡ false
    → any_disagree xs ys ≡ false
    → any_disagree xs (y ∷ ys) ≡ false
unfolding any_disagree
any_disagree-cons y ys [] r a = refl
any_disagree-cons y ys (x ∷ xs) r a =
    let p : disagrees x y ≡ false = disagrees_comm y x (ground (arith, r)) in
    let q : any (λ a. any (λ b. disagrees a b) (y ∷ ys)) xs ≡ false =
      any_disagree-cons y ys xs (ground (arith, r)) (ground (arith, a)) in
    let w : any (λ b. disagrees x b) ys ≡ false = ground (arith, a) in ground (arith, p, q, w)

any_disagree-head :
    (x : Hunk) (xs ys : List Hunk)
    → any_disagree (x ∷ xs) ys ≡ false
    → (any (λ b. disagrees x b) ys ≡ false) × (any_disagree xs ys ≡ false)
unfolding any_disagree
any_disagree-head x xs ys e = (ground (arith, e), ground (arith, e))

any_disagree_comm : (xs ys : List Hunk) → any_disagree xs ys ≡ false → any_disagree ys xs ≡ false
any_disagree_comm [] ys e = any_disagree-nil ys
any_disagree_comm (x ∷ xs) ys e =
    let (p, q) = any_disagree-head x xs ys e in
    any_disagree-cons x xs ys p (any_disagree_comm xs ys q)

any_disagree_swap : (xs ys : List Hunk) → any_disagree xs ys ≡ any_disagree ys xs
any_disagree_swap xs ys = elim (Bool-cases (any_disagree xs ys)) [
  | inr e ↦ e ∙ sym (any_disagree_comm xs ys e)
  | inl e ↦ elim (Bool-cases (any_disagree ys xs)) [
    | inl f ↦ e ∙ sym f
    | inr f ↦ let g = any_disagree_comm ys xs f in ground (arith, e, g)
  ]
]

same_text_comm : (a b : Text) → same_text a b ≡ same_text b a
same_text_comm a b = elim (Bool-cases (same_text a b)) [
  | inl e ↦ e ∙ sym (turned a b e)
  | inr e ↦ elim (Bool-cases (same_text b a)) [
    | inl f ↦ let g = turned b a f in ground (arith, e, g)
    | inr f ↦ e ∙ sym f
  ]
]
  where
    turned : (a b : Text) → same_text a b ≡ true → same_text b a ≡ true
    turned a b e = subst (λ t. same_text t a ≡ true) ((same_text_iff a b).0 e) (same_text_refl a)

apply_hunks_comm :
    (base : List Text) (xs ys : List Hunk) (trailing : Bool)
    → ordered_hunks xs ys ≡ ordered_hunks ys xs
    → apply_hunks base xs ys trailing ≡ apply_hunks base ys xs trailing
unfolding apply_hunks
apply_hunks_comm base xs ys trailing e = ap (λ hs. finished trailing (splice base 0 hs)) e

-- Both devices come to the same result: the merge of two versions is the merge of them the other way
-- round, whether the texts are the same, one of them is the base, they disagree or they combine.
pub three_way_comm :
    (base mine theirs : Text) → three_way base mine theirs ≡ three_way base theirs mine
unfolding three_way
three_way_comm base mine theirs = rw (same_text_comm theirs mine) (
    rw (any_disagree_swap (hunks_of (align base theirs)) (hunks_of (align base mine)))
      (elim (Bool-cases (same_text mine theirs)) [
        | inl e ↦ rw e (ap (λ t. some (clean t)) ((same_text_iff mine theirs).0 e))
        | inr e ↦ rw e (elim (Bool-cases (same_text mine base)) [
          | inl m ↦ rw m (rw (other_differs e m) refl)
          | inr m ↦ rw m (elim (Bool-cases (same_text theirs base)) [
            | inl t ↦ rw t refl
            | inr t ↦
                rw t
                  (elim (Bool-cases
                    (any_disagree (hunks_of (align base mine)) (hunks_of (align base theirs)))) [
                      | inl d ↦ rw d refl
                      | inr d ↦ rw d (combined d)
                    ])
          ])
        ])
      ]))
  where
    combined :
        any_disagree (hunks_of (align base mine)) (hunks_of (align base theirs)) ≡ false
        → as_clean (
            apply_hunks
              (lines base)
              (hunks_of (align base mine))
              (hunks_of (align base theirs))
              (ends_with base 10))
          ≡ as_clean (
              apply_hunks
                (lines base)
                (hunks_of (align base theirs))
                (hunks_of (align base mine))
                (ends_with base 10))
    combined d =
        let xs = hunks_of (align base mine) in
        let ys = hunks_of (align base theirs) in
        ap as_clean (
          apply_hunks_comm (lines base) xs ys (ends_with base 10) (
            ordered_hunks_comm xs ys (hunks_of-IsChain (align base mine)).0
              (hunks_of-IsChain (align base theirs)).0 d (any_disagree_comm xs ys d)))

    other_differs :
        same_text mine theirs ≡ false → same_text mine base ≡ true → same_text theirs base ≡ false
    other_differs e m =
        subst (λ b. same_text theirs b ≡ false) ((same_text_iff mine base).0 m)
          (same_text_comm theirs mine ∙ e)
