-- ===== src/Merge/Members.antt =====
-- The members of a list of hunks: what sorting and joining keep of them, and that they determine a chain.
use go_notes.Base.{
  ℕ, ◌+◌, ◌≤◌, ◌<◌, ◌≡◌, refl, sym, ap, subst, inl, inr, ◌⊎◌, Bool, true, false, List, [], ◌∷◌,
  ◌++◌, arith, leb, if◌then◌else◌, Bool-cases, any,
}
use go_notes.Merge.{Hunk, same_hunk, add_new, insert_by_start, sort_by_start}
use go_notes.Merge.Chain.{IsChain}
use go_notes.Merge.Both.{same_hunk_eq}

abbrev pub In : Hunk → List Hunk → Type 0
In h [] = ⊥
In h (g ∷ gs) = (h ≡ g) ⊎ In h gs

In-later :
    (lo : ℕ) (gs : List Hunk) (h : Hunk)
    → IsChain lo gs
    → In h gs
    → (lo ≤ h.base_start) × (h.base_start ≤ h.base_end)
In-later lo [] h c m = absurd m
In-later lo (g ∷ gs) h (x, y, c) (inl e) =
    subst (λ k. (lo ≤ k.base_start) × (k.base_start ≤ k.base_end)) (sym e) (x, y)
In-later lo (g ∷ gs) h (x, y, c) (inr m) =
    let (a, b) = In-later (g.base_end + 1) gs h c m in (omega arith, b)

tail_In :
    (x : Hunk) (xs ys : List Hunk) (lo : ℕ)
    → x.base_start < lo
    → IsChain lo xs
    → ((h : Hunk) → In h (x ∷ xs) → In h (x ∷ ys))
    → (h : Hunk) → In h xs
    → In h ys
tail_In x xs ys lo l c f h m = elim (f h (inr m)) [
  | inl e ↦
      let (a, b) = In-later lo xs h c m in
      let p : h.base_start ≡ x.base_start = ap (λ (k : Hunk). k.base_start) e in
      absurd (omega arith)
  | inr n ↦ n
]

-- Two chains of the same hunks are one list.
pub IsChain-ext :
    (xs ys : List Hunk) (lo : ℕ)
    → IsChain lo xs
    → IsChain lo ys
    → ((h : Hunk) → In h xs → In h ys)
    → ((h : Hunk) → In h ys → In h xs)
    → xs ≡ ys
IsChain-ext [] [] lo c d f g = refl
IsChain-ext [] (y ∷ ys) lo c d f g = absurd (g y (inl refl))
IsChain-ext (x ∷ xs) [] lo c d f g = absurd (f x (inl refl))
IsChain-ext (x ∷ xs) (y ∷ ys) lo (p, q, c) (r, s, d) f g =
    let e : x ≡ y = heads (f x (inl refl)) (g y (inl refl)) in
    let f' : (h : Hunk) → In h (x ∷ xs) → In h (x ∷ ys) =
      subst (λ k. (h : Hunk) → In h (x ∷ xs) → In h (k ∷ ys)) (sym e) f in
    let g' : (h : Hunk) → In h (x ∷ ys) → In h (x ∷ xs) =
      subst (λ k. (h : Hunk) → In h (k ∷ ys) → In h (x ∷ xs)) (sym e) g in
    let d' : IsChain (x.base_end + 1) ys =
      subst (λ (k : Hunk). IsChain (k.base_end + 1) ys) (sym e) d in
    let t : xs ≡ ys =
      IsChain-ext xs ys (x.base_end + 1) c d' (tail_In x xs ys (x.base_end + 1) (omega arith) c f')
        (tail_In x ys xs (x.base_end + 1) (omega arith) d' g') in
    cc
  where
    heads : In x (y ∷ ys) → In y (x ∷ xs) → x ≡ y
    heads (inl e) m = e
    heads (inr n) (inl e) = sym e
    heads (inr n) (inr m) =
        let (a, b) = In-later (y.base_end + 1) ys x d n in
        let (a', b') = In-later (x.base_end + 1) xs y c m in absurd (omega arith)

insert-In : (h g : Hunk) (gs : List Hunk) → In h (insert_by_start g gs) → In h (g ∷ gs)
unfolding insert_by_start
insert-In h g [] m = m
insert-In h g (k ∷ gs) m = by_test (insert-In h g gs) (leb g.base_start k.base_start) m
  where
    by_test :
        (In h (insert_by_start g gs) → In h (g ∷ gs))
        → (b : Bool) → In h (if b then g ∷ k ∷ gs else k ∷ insert_by_start g gs)
        → In h (g ∷ k ∷ gs)
    by_test f true m = m
    by_test f false (inl e) = inr (inl e)
    by_test f false (inr m) = elim (f m) [ inl e ↦ inl e | inr n ↦ inr (inr n) ]

In-insert : (h g : Hunk) (gs : List Hunk) → In h (g ∷ gs) → In h (insert_by_start g gs)
unfolding insert_by_start
In-insert h g [] m = m
In-insert h g (k ∷ gs) m = by_test (In-insert h g gs) (leb g.base_start k.base_start) m
  where
    by_test :
        (In h (g ∷ gs) → In h (insert_by_start g gs))
        → (b : Bool) → In h (g ∷ k ∷ gs)
        → In h (if b then g ∷ k ∷ gs else k ∷ insert_by_start g gs)
    by_test f true m = m
    by_test f false (inl e) = inr (f (inl e))
    by_test f false (inr (inl e)) = inl e
    by_test f false (inr (inr m)) = inr (f (inr m))

pub sort-In : (h : Hunk) (gs : List Hunk) → In h (sort_by_start gs) → In h gs
unfolding sort_by_start
sort-In h [] m = m
sort-In h (g ∷ gs) m = elim (insert-In h g (sort_by_start gs) m) [
  | inl e ↦ inl e
  | inr n ↦ inr (sort-In h gs n)
]

pub In-sort : (h : Hunk) (gs : List Hunk) → In h gs → In h (sort_by_start gs)
unfolding sort_by_start
In-sort h [] m = absurd m
In-sort h (g ∷ gs) (inl e) = In-insert h g (sort_by_start gs) (inl e)
In-sort h (g ∷ gs) (inr m) = In-insert h g (sort_by_start gs) (inr (In-sort h gs m))

pub append-In : (h : Hunk) (xs ys : List Hunk) → In h (xs ++ ys) → In h xs ⊎ In h ys
append-In h [] ys m = inr m
append-In h (x ∷ xs) ys (inl e) = inl (inl e)
append-In h (x ∷ xs) ys (inr m) = elim (append-In h xs ys m) [ inl n ↦ inl (inr n) | inr n ↦ inr n ]

pub In-append : (h : Hunk) (xs ys : List Hunk) → In h xs ⊎ In h ys → In h (xs ++ ys)
In-append h [] ys (inl m) = absurd m
In-append h [] ys (inr m) = m
In-append h (x ∷ xs) ys (inl (inl e)) = inl e
In-append h (x ∷ xs) ys (inl (inr m)) = inr (In-append h xs ys (inl m))
In-append h (x ∷ xs) ys (inr m) = inr (In-append h xs ys (inr m))

any_same-In : (h : Hunk) (seen : List Hunk) → any (λ e. same_hunk e h) seen ≡ true → In h seen
any_same-In h [] e = absurd (ground (arith, e))
any_same-In h (g ∷ gs) e = elim (Bool-cases (same_hunk g h)) [
  | inl s ↦ inl (sym (same_hunk_eq g h s))
  | inr s ↦ inr (any_same-In h gs (ground (arith, e, s)))
]

pub add_new-In : (h : Hunk) (hs seen : List Hunk) → In h (add_new seen hs) → In h seen ⊎ In h hs
unfolding add_new
add_new-In h [] seen m = inl m
add_new-In h (g ∷ gs) seen m = by_test (add_new-In h gs) (any (λ e. same_hunk e g) seen) m
  where
    pushed : In h (seen ++ g ∷ []) ⊎ In h gs → In h seen ⊎ In h (g ∷ gs)
    pushed (inr n) = inr (inr n)
    pushed (inl n) = elim (append-In h seen (g ∷ []) n) [
      | inl k ↦ inl k
      | inr (inl e) ↦ inr (inl e)
      | inr (inr n) ↦ absurd n
    ]

    by_test :
        ((s : List Hunk) → In h (add_new s gs) → In h s ⊎ In h gs)
        → (b : Bool) → In h (add_new (if b then seen else seen ++ g ∷ []) gs)
        → In h seen ⊎ In h (g ∷ gs)
    by_test f true m = elim (f seen m) [ inl n ↦ inl n | inr n ↦ inr (inr n) ]
    by_test f false m = pushed (f (seen ++ g ∷ []) m)

pub In-add_new : (h : Hunk) (hs seen : List Hunk) → In h seen ⊎ In h hs → In h (add_new seen hs)
unfolding add_new
In-add_new h [] seen (inl m) = m
In-add_new h [] seen (inr m) = absurd m
In-add_new h (g ∷ gs) seen m = elim (Bool-cases (any (λ e. same_hunk e g) seen)) [
  | inl e ↦ rw e (In-add_new h gs seen (kept e m))
  | inr e ↦ rw e (In-add_new h gs (seen ++ g ∷ []) (moved m))
]
  where
    kept : any (λ e. same_hunk e g) seen ≡ true → In h seen ⊎ In h (g ∷ gs) → In h seen ⊎ In h gs
    kept e (inl m) = inl m
    kept e (inr (inl p)) = inl (subst (λ k. In k seen) (sym p) (any_same-In g seen e))
    kept e (inr (inr m)) = inr m

    moved : In h seen ⊎ In h (g ∷ gs) → In h (seen ++ g ∷ []) ⊎ In h gs
    moved (inl m) = inl (In-append h seen (g ∷ []) (inl m))
    moved (inr (inl p)) = inl (In-append h seen (g ∷ []) (inr (inl p)))
    moved (inr (inr m)) = inr m
