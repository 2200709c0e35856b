-- ===== src/Merge/Chain.antt =====
-- Hunks that stand apart: those of one alignment do, and a list of them in order is applied without a
-- panic.
use go_notes.Base.{
  ℕ, ◌+◌, ◌≤◌, ◌<◌, ◌≡◌, refl, inl, inr, ◌⊎◌, false, ◌||◌, Option, none, some, List, [], ◌∷◌, arith,
  ltb, leb, Text, All, Bool-cases, leb→le, length,
}
use go_notes.Diff.{Aligned}
use go_notes.Diff.Sides.{lefts}
use go_notes.Merge.{
  Hunk, current_or, flush, hunks_from, hunks_of, splice, insert_by_start, sort_by_start,
}

-- In order, from a line on: at least one line of the base stands between two hunks.
abbrev pub IsChain : ℕ → List Hunk → Type 0
IsChain lo [] = Unit
IsChain lo (h ∷ hs) =
    (lo ≤ h.base_start) × (h.base_start ≤ h.base_end) × IsChain (h.base_end + 1) hs

abbrev pub EndsBy : ℕ → Hunk → Type 0
EndsBy n h = h.base_end ≤ n

abbrev pub IsForward : Hunk → Type 0
IsForward h = h.base_start ≤ h.base_end

-- The hunk that the loop has begun.
abbrev Begun : ℕ → ℕ → Option Hunk → Type 0
Begun lo i none = lo ≤ i
Begun lo i (some h) = (lo ≤ h.base_start) × (h.base_start ≤ h.base_end) × (h.base_end ≡ i)

hunks_from-IsChain :
    (ps : List Aligned) (lo i : ℕ) (current : Option Hunk)
    → Begun lo i current
    → IsChain lo (hunks_from i current ps)
unfolding hunks_from
hunks_from-IsChain [] lo i none b = tt
hunks_from-IsChain [] lo i (some h) (x, y, z) = (x, y, tt)
hunks_from-IsChain (Aligned.common _ ∷ ps) lo i none b =
    hunks_from-IsChain ps lo (i + 1) none (omega arith)
hunks_from-IsChain (Aligned.common _ ∷ ps) lo i (some h) (x, y, z) =
    (x, y, hunks_from-IsChain ps (h.base_end + 1) (i + 1) none (omega arith))
hunks_from-IsChain (Aligned.left _ ∷ ps) lo i none b =
    hunks_from-IsChain ps lo (i + 1) _ (b, omega arith, refl)
hunks_from-IsChain (Aligned.left _ ∷ ps) lo i (some h) (x, y, z) =
    hunks_from-IsChain ps lo (i + 1) _ (x, omega arith, refl)
hunks_from-IsChain (Aligned.right _ ∷ ps) lo i none b =
    hunks_from-IsChain ps lo i _ (b, omega arith, refl)
hunks_from-IsChain (Aligned.right _ ∷ ps) lo i (some h) b = hunks_from-IsChain ps lo i _ b

abbrev Short : ℕ → Option Hunk → Type 0
Short i none = Unit
Short i (some h) = h.base_end ≤ i

flush-EndsBy :
    (n i : ℕ) (current : Option Hunk) (hs : List Hunk)
    → i ≤ n
    → Short i current
    → All (EndsBy n) hs
    → All (EndsBy n) (flush current hs)
flush-EndsBy n i none hs h s a = a
flush-EndsBy n i (some g) hs h s a = (omega arith, a)

hunks_from-EndsBy :
    (ps : List Aligned) (n i : ℕ) (current : Option Hunk)
    → Short i current
    → i + length (lefts ps) ≤ n
    → All (EndsBy n) (hunks_from i current ps)
unfolding hunks_from
hunks_from-EndsBy [] n i current s h = flush-EndsBy n i current [] (omega arith) s tt
hunks_from-EndsBy (Aligned.common _ ∷ ps) n i current s h =
    flush-EndsBy n i current _ (omega arith) s
      (hunks_from-EndsBy ps n (i + 1) none tt (omega arith))
hunks_from-EndsBy (Aligned.left _ ∷ ps) n i current s h =
    hunks_from-EndsBy ps n (i + 1) (some (record (current_or i current) { base_end = i + 1 }))
      (omega arith) (omega arith)
hunks_from-EndsBy (Aligned.right t ∷ ps) n i none s h = hunks_from-EndsBy ps n i _ (omega arith) h
hunks_from-EndsBy (Aligned.right t ∷ ps) n i (some g) s h = hunks_from-EndsBy ps n i _ s h

-- The hunks of an alignment stand apart, in order, inside the left side.
pub hunks_of-IsChain :
    (ps : List Aligned) → IsChain 0 (hunks_of ps) × All (EndsBy (length (lefts ps))) (hunks_of ps)
unfolding hunks_of
hunks_of-IsChain ps = (
  hunks_from-IsChain ps 0 0 none (omega arith),
  hunks_from-EndsBy ps (length (lefts ps)) 0 none tt (omega arith),
)

-- A chain inside the base is applied without a panic.
pub splice-Returns :
    (base : List Text) (cursor : ℕ) (hs : List Hunk)
    → IsChain cursor hs
    → cursor ≤ length base
    → All (EndsBy (length base)) hs
    → (out : List Text) × (splice base cursor hs ≡ some out)
unfolding splice
splice-Returns base cursor [] c l a =
    let e : ltb (length base) cursor ≡ false = ground arith in rw e (_, refl)
splice-Returns base cursor (h ∷ hs) (x, y, c) l (b, a) =
    let (out, q) = splice-Returns base h.base_end hs (weaken hs c) b a in
    let e : (ltb h.base_start cursor || ltb (length base) h.base_start) ≡ false = ground arith in
    rw e (rw q (_, refl))
  where
    weaken : (hs : List Hunk) → IsChain (h.base_end + 1) hs → IsChain h.base_end hs
    weaken [] c = tt
    weaken (g ∷ gs) (x, y, c) = (omega arith, y, c)

abbrev pub IsApart : Hunk → Hunk → Type 0
IsApart a b = (a.base_end < b.base_start) ⊎ (b.base_end < a.base_start)

pub IsApart-sym : (a b : Hunk) → IsApart a b → IsApart b a
IsApart-sym a b (inl h) = inr h
IsApart-sym a b (inr h) = inl h

abbrev pub Pairwise : (Hunk → Hunk → Type 0) → List Hunk → Type 0
Pairwise R [] = Unit
Pairwise R (h ∷ hs) = All (R h) hs × Pairwise R hs

pub IsChain-later :
    (lo : ℕ) (hs : List Hunk) (h : Hunk) → IsChain lo hs → h.base_end < lo → All (IsApart h) hs
IsChain-later lo [] h c l = tt
IsChain-later lo (g ∷ gs) h (x, y, c) l =
    (inl (omega arith), IsChain-later (g.base_end + 1) gs h c (omega arith))

pub IsChain-Pairwise : (lo : ℕ) (hs : List Hunk) → IsChain lo hs → Pairwise IsApart hs
IsChain-Pairwise lo [] c = tt
IsChain-Pairwise lo (h ∷ hs) (x, y, c) =
    (IsChain-later (h.base_end + 1) hs h c (omega arith), IsChain-Pairwise (h.base_end + 1) hs c)

pub IsChain-IsForward : (lo : ℕ) (hs : List Hunk) → IsChain lo hs → All IsForward hs
IsChain-IsForward lo [] c = tt
IsChain-IsForward lo (h ∷ hs) (x, y, c) = (y, IsChain-IsForward (h.base_end + 1) hs c)

insert-IsChain :
    (h : Hunk) (gs : List Hunk) (lo : ℕ)
    → IsForward h
    → lo ≤ h.base_start
    → IsChain lo gs
    → All (IsApart h) gs
    → IsChain lo (insert_by_start h gs)
unfolding insert_by_start
insert-IsChain h [] lo f l c a = (l, f, tt)
insert-IsChain h (g ∷ gs) lo f l (x, y, c) (a, as') =
    elim (Bool-cases (leb h.base_start g.base_start)) [
      | inl e ↦ rw e (l, f, (before a (leb→le h.base_start g.base_start e), y, c))
      | inr e ↦
          rw e (x, y, insert-IsChain h gs (g.base_end + 1) f (behind a (ground (arith, e))) c as')
    ]
  where
    before : IsApart h g → h.base_start ≤ g.base_start → h.base_end + 1 ≤ g.base_start
    before (inl p) q = omega arith
    before (inr p) q = omega arith

    behind : IsApart h g → g.base_start < h.base_start → g.base_end + 1 ≤ h.base_start
    behind (inl p) q = omega arith
    behind (inr p) q = omega arith

insert-All :
    (P : Hunk → Type 0) (h : Hunk) (gs : List Hunk) → P h → All P gs → All P (insert_by_start h gs)
unfolding insert_by_start
insert-All P h [] p a = (p, tt)
insert-All P h (g ∷ gs) p (b, a) = elim (Bool-cases (leb h.base_start g.base_start)) [
  | inl e ↦ rw e (p, (b, a))
  | inr e ↦ rw e (b, insert-All P h gs p a)
]

pub sort-All : (P : Hunk → Type 0) (hs : List Hunk) → All P hs → All P (sort_by_start hs)
unfolding sort_by_start
sort-All P [] a = tt
sort-All P (h ∷ hs) (p, a) = insert-All P h (sort_by_start hs) p (sort-All P hs a)

-- Sorting hunks that stand apart puts them in order.
pub sort-IsChain :
    (hs : List Hunk) → All IsForward hs → Pairwise IsApart hs → IsChain 0 (sort_by_start hs)
unfolding sort_by_start
sort-IsChain [] f p = tt
sort-IsChain (h ∷ hs) (f, fs) (a, p) =
    insert-IsChain h (sort_by_start hs) 0 f (omega arith) (sort-IsChain hs fs p)
      (sort-All (IsApart h) hs a)
