-- ===== src/Base/Lists.antt =====
-- Lists measured and indexed by native numbers, tests over their members, and the last element.
use Prim.Native.Nat.{ℕ, zero, suc, ◌+◌, ◌-◌, min}
use mathlib.Core.Path.{◌≡◌, refl, sym, ap}
use mathlib.Core.Bool.{Bool, true, false, not, ◌&&◌, ◌||◌}
use mathlib.Core.Logic.{◌⊎◌, inl, inr}
use mathlib.Core.List.{List, [], ◌∷◌, ◌++◌}
use mathlib.Core.Option.{Option, none, some}
use native.Mathlib.Omega.{arith}
use go_notes.Base.Bools.{if◌then◌else◌}

module _ {ℓ} {A : Type ℓ} where
  abbrev pub length : List A → ℕ
  length [] = 0
  length (x ∷ xs) = suc (length xs)

  abbrev pub get_elem? : List A → ℕ → Option A
  get_elem? [] i = none
  get_elem? (x ∷ xs) zero = some x
  get_elem? (x ∷ xs) (suc i) = get_elem? xs i

  abbrev pub take : ℕ → List A → List A
  take zero xs = []
  take (suc n) [] = []
  take (suc n) (x ∷ xs) = x ∷ take n xs

  abbrev pub drop : ℕ → List A → List A
  drop zero xs = xs
  drop (suc n) [] = []
  drop (suc n) (x ∷ xs) = drop n xs

  pub length-append : (xs ys : List A) → length (xs ++ ys) ≡ length xs + length ys
  length-append [] ys = omega arith
  length-append (x ∷ xs) ys = omega (arith, length-append xs ys)

  pub take-append-drop : (n : ℕ) (xs : List A) → take n xs ++ drop n xs ≡ xs
  take-append-drop zero xs = refl
  take-append-drop (suc n) [] = refl
  take-append-drop (suc n) (x ∷ xs) = ap (λ ys. x ∷ ys) (take-append-drop n xs)

module _ {ℓ} {A : Type ℓ} where
  pub length-take : (n : ℕ) (xs : List A) → length (take n xs) ≡ min n (length xs)
  length-take zero xs = omega arith
  length-take (suc n) [] = omega arith
  length-take (suc n) (x ∷ xs) = omega (arith, length-take n xs)

  pub length-drop : (n : ℕ) (xs : List A) → length (drop n xs) ≡ length xs - n
  length-drop zero xs = omega arith
  length-drop (suc n) [] = omega arith
  length-drop (suc n) (x ∷ xs) = omega (arith, length-drop n xs)

  pub get_elem?-append-length :
      (xs ys : List A) → get_elem? (xs ++ ys) (length xs) ≡ get_elem? ys zero
  get_elem?-append-length [] ys = refl
  get_elem?-append-length (x ∷ xs) ys = get_elem?-append-length xs ys

  pub take-append-length : (xs ys : List A) → take (length xs) (xs ++ ys) ≡ xs
  take-append-length [] ys = refl
  take-append-length (x ∷ xs) ys = ap (λ zs. x ∷ zs) (take-append-length xs ys)

  pub drop-append-length : (xs ys : List A) → drop (length xs) (xs ++ ys) ≡ ys
  drop-append-length [] ys = refl
  drop-append-length (x ∷ xs) ys = drop-append-length xs ys

  -- Every member passes the test.
  abbrev pub all : (A → Bool) → List A → Bool
  all p [] = true
  all p (x ∷ xs) = p x && all p xs

  -- Some member passes the test.
  abbrev pub any : (A → Bool) → List A → Bool
  any p [] = false
  any p (x ∷ xs) = p x || any p xs

  abbrev pub filter : (A → Bool) → List A → List A
  filter p [] = []
  filter p (x ∷ xs) = let rest = filter p xs in if p x then x ∷ rest else rest

  abbrev pub last? : List A → Option A
  last? [] = none
  last? (x ∷ []) = some x
  last? (x ∷ y ∷ xs) = last? (y ∷ xs)

-- What holds of every member.
abbrev pub All {ℓ κ} : {A : Type ℓ} → (A → Type κ) → List A → Type κ
All P [] = Unit
All P (x ∷ xs) = P x × All P xs

-- One more member in front of those searched.
abbrev pub or_first : Bool → Option ℕ → Option ℕ
or_first b (some i) = some (suc i)
or_first true none = some 0
or_first false none = none

or_first-some :
    (b : Bool) (o : Option ℕ) (i : ℕ)
    → or_first b o ≡ some i
    → ((j : ℕ) × (o ≡ some j) × (i ≡ suc j)) ⊎ ((o ≡ none) × (b ≡ true) × (i ≡ 0))
or_first-some b (some j) i h = inl (j, refl, ground arith)
or_first-some true none i h = inr (refl, refl, ground arith)
or_first-some false none i h = cc

module _ {ℓ} {A : Type ℓ} where
  -- `rposition`: the index of the last member that passes.
  unfoldable pub rposition : (A → Bool) → List A → Option ℕ
  rposition p [] = none
  rposition p (x ∷ xs) = or_first (p x) (rposition p xs)

  -- A write out of bounds changes nothing.
  abbrev pub set : List A → ℕ → A → List A
  set [] i v = []
  set (x ∷ xs) zero v = v ∷ xs
  set (x ∷ xs) (suc i) v = x ∷ set xs i v

module _ {ℓ} {A : Type ℓ} where
  pub rposition-none :
      (p : A → Bool) (xs : List A) → rposition p xs ≡ none → all (λ x. not (p x)) xs ≡ true
  unfolding rposition
  rposition-none p [] h = refl
  rposition-none p (x ∷ xs) h = ground (arith, rposition-none p xs)

  -- The last member that passes splits the list.
  pub rposition-some :
      (p : A → Bool) (xs : List A) (i : ℕ)
      → rposition p xs ≡ some i
      → (pre : List A) × (x : A) × (post : List A) × (xs ≡ pre ++ x ∷ post)
        × (length pre ≡ i)
        × (p x ≡ true)
        × (all (λ y. not (p y)) post ≡ true)
  rposition-some p [] i h = absurd (unfold rposition in cc h)
  rposition-some p (x ∷ xs) i h =
      elim (or_first-some (p x) (rposition p xs) i (unfold rposition in h)) [
        | inl (j, e, q) ↦
            let (pre, y, post, s, l, t, n) = rposition-some p xs j e in
            (x ∷ pre, y, post, ap (λ zs. x ∷ zs) s, omega arith, t, n)
        | inr (e, t, q) ↦ ([], x, xs, refl, sym q, t, rposition-none p xs e)
      ]

  pub get_elem?-middle : (xs ys : List A) (x : A) → get_elem? (xs ++ x ∷ ys) (length xs) ≡ some x
  get_elem?-middle [] ys x = refl
  get_elem?-middle (y ∷ xs) ys x = get_elem?-middle xs ys x

  pub set-middle : (xs ys : List A) (x v : A) → set (xs ++ x ∷ ys) (length xs) v ≡ xs ++ v ∷ ys
  set-middle [] ys x v = refl
  set-middle (y ∷ xs) ys x v = ap (λ zs. y ∷ zs) (set-middle xs ys x v)

  pub all-append : (p : A → Bool) (xs ys : List A) → all p (xs ++ ys) ≡ (all p xs && all p ys)
  all-append p [] ys = refl
  all-append p (x ∷ xs) ys = ground (arith, all-append p xs ys)
