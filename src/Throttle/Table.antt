-- ===== src/Throttle/Table.antt =====
-- The laws of the table of attempts.
use go_notes.Base.{
  ◌≡◌, refl, inl, inr, Bool, Option, none, some, [], ◌∷◌, arith, if◌then◌else◌, Text, same_text,
  same_text_iff, Bool-cases,
}
use go_notes.Throttle.{Attempts, Entries, get, put, retain, remove}

abbrev pub IsDistinct : Entries → Type 0
IsDistinct [] = Unit
IsDistinct ((k, a) ∷ m) = (get k m ≡ none) × IsDistinct m

abbrev pub sift : (Attempts → Bool) → Option Attempts → Option Attempts
sift p none = none
sift p (some a) = if p a then some a else none

pub get-put :
    (k j : Text) (a : Attempts) (m : Entries)
    → get j (put k a m) ≡ (if same_text k j then some a else get j m)
unfolding get put
get-put k j a [] = refl
get-put k j a ((i, b) ∷ m) =
    ground (arith, get-put k j a m, same_text_iff i k, same_text_iff i j, same_text_iff k j)

pub get-remove :
    (k j : Text) (m : Entries) → get j (remove k m) ≡ (if same_text k j then none else get j m)
unfolding get remove
get-remove k j [] = ground arith
get-remove k j ((i, b) ∷ m) =
    ground (arith, get-remove k j m, same_text_iff i k, same_text_iff i j, same_text_iff k j)

pub get-retain :
    (p : Attempts → Bool) (j : Text) (m : Entries)
    → IsDistinct m
    → get j (retain p m) ≡ sift p (get j m)
unfolding get retain
get-retain p j [] d = refl
get-retain p j ((i, b) ∷ m) (n, d) = elim (Bool-cases (same_text i j)) [
  | inl e ↦
      let s : i ≡ j = (same_text_iff i j).0 e in
      ground (arith, get-retain p j m d, n, same_text_iff i j)
  | inr e ↦ ground (arith, get-retain p j m d)
]

pub put-IsDistinct : (k : Text) (a : Attempts) (m : Entries) → IsDistinct m → IsDistinct (put k a m)
unfolding put
put-IsDistinct k a [] d = (unfold get in refl, tt)
put-IsDistinct k a ((i, b) ∷ m) (n, d) = elim (Bool-cases (same_text i k)) [
  | inl e ↦ rw e (n, d)
  | inr e ↦ rw e (
    ground (arith, get-put k i a m, same_text_iff i k, same_text_iff k i),
    put-IsDistinct k a m d,
  )
]

pub retain-IsDistinct : (p : Attempts → Bool) (m : Entries) → IsDistinct m → IsDistinct (retain p m)
unfolding retain
retain-IsDistinct p [] d = tt
retain-IsDistinct p ((i, b) ∷ m) (n, d) = elim (Bool-cases (p b)) [
  | inl e ↦ rw e (ground (arith, get-retain p i m d), retain-IsDistinct p m d)
  | inr e ↦ rw e (retain-IsDistinct p m d)
]

pub remove-IsDistinct : (k : Text) (m : Entries) → IsDistinct m → IsDistinct (remove k m)
unfolding remove
remove-IsDistinct k [] d = tt
remove-IsDistinct k ((i, b) ∷ m) (n, d) = elim (Bool-cases (same_text i k)) [
  | inl e ↦ rw e (remove-IsDistinct k m d)
  | inr e ↦ rw e (ground (arith, get-remove k i m), remove-IsDistinct k m d)
]
