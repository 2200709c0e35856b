-- ===== src/Base/Words.antt =====
-- White space as `char::is_whitespace` knows it, and the operations of `str` that go by it.
use Prim.Native.Nat.{ℕ, zero, suc, ◌+◌, ◌-◌, ◌≤◌}
use mathlib.Core.Path.{◌≡◌, refl}
use mathlib.Core.Logic.{inl, inr}
use mathlib.Core.Bool.{Bool, true, false, not, ◌&&◌, ◌||◌}
use mathlib.Core.List.{List, [], ◌∷◌, ◌++◌}
use native.Mathlib.Omega.{arith}
use go_notes.Base.Bools.{Bool-cases, and_both, ltb, leb, ◌==◌, if◌then◌else◌}
use go_notes.Base.Lists.{all, length}
use go_notes.Base.Strings.{Text, starts_with, trim_start, trim_end, unless_blank}

-- The property White_Space
unfoldable pub is_whitespace : ℕ → Bool
is_whitespace c =
    (leb 9 c && leb c 13)
    || c == 32
    || c == 0x85
    || c == 0xa0
    || c == 0x1680
    || (leb 0x2000 c && leb c 0x200a)
    || c == 0x2028
    || c == 0x2029
    || c == 0x202f
    || c == 0x205f
    || c == 0x3000

unfoldable pub trim : Text → Text
unfolding trim_start trim_end is_whitespace
trim s = trim_end is_whitespace (trim_start is_whitespace s)

-- A character at the front of the words behind it.
abbrev pub grow : ℕ → Bool → List Text → List Text
grow c true [] = (c ∷ []) ∷ []
grow c true (w ∷ ws) = (c ∷ w) ∷ ws
grow c false ws = (c ∷ []) ∷ ws

-- Whether the next character goes on with a word.
abbrev pub goes_on : Text → Bool
unfolding is_whitespace
goes_on [] = false
goes_on (c ∷ _) = not (is_whitespace c)

unfoldable pub split_whitespace : Text → List Text
unfolding is_whitespace
split_whitespace [] = []
split_whitespace (c ∷ s) =
    let rest = split_whitespace s in if is_whitespace c then rest else grow c (goes_on s) rest

-- `join(" ")` and the like
unfoldable pub join_with : Text → List Text → Text
join_with sep [] = []
join_with sep (w ∷ []) = w
join_with sep (v ∷ w ∷ ws) = v ++ (sep ++ join_with sep (w ∷ ws))

-- `replace(pattern, " ")`, from left to right; the number counts what is left of a match.
unfoldable pub blank_out : Text → ℕ → Text → Text
unfolding starts_with
blank_out pattern skip [] = []
blank_out pattern (suc skip) (c ∷ s) = blank_out pattern skip s
blank_out pattern zero (c ∷ s) =
    let hit = starts_with (c ∷ s) pattern in
    (if hit then 32 else c) ∷ blank_out pattern (if hit then length pattern - 1 else 0) s

-- The order of `str`, which is that of its bytes and of its scalar values.
unfoldable pub text_le : Text → Text → Bool
text_le [] t = true
text_le (c ∷ s) [] = false
text_le (c ∷ s) (d ∷ t) = let rest = text_le s t in if c == d then rest else ltb c d

pub length-trim_start : (p : ℕ → Bool) (s : Text) → length (trim_start p s) ≤ length s
unfolding trim_start
length-trim_start p [] = omega arith
length-trim_start p (c ∷ s) = ground (arith, length-trim_start p s)

length-unless_blank : (p : ℕ → Bool) (c : ℕ) (s : Text) → length (unless_blank p c s) ≤ length s + 1
length-unless_blank p c [] = ground arith
length-unless_blank p c (d ∷ s) = ground arith

pub length-trim_end : (p : ℕ → Bool) (s : Text) → length (trim_end p s) ≤ length s
unfolding trim_end
length-trim_end p [] = omega arith
length-trim_end p (c ∷ s) =
    omega (arith, length-trim_end p s, length-unless_blank p c (trim_end p s))

-- Blanks at the end do not count.
pub trim_end_blanks :
    (p : ℕ → Bool) (s t : Text) → all p t ≡ true → trim_end p (s ++ t) ≡ trim_end p s
unfolding trim_end
trim_end_blanks p [] t h = vanish t h
  where
    vanish : (t : Text) → all p t ≡ true → trim_end p t ≡ []
    vanish [] h = refl
    vanish (c ∷ t) h = let (a, b) = and_both (p c) (all p t) h in rw (vanish t b) (rw a refl)
trim_end_blanks p (c ∷ s) t h = rw (trim_end_blanks p s t h)

-- Blanks behind a text do not change what `trim` leaves.
pub trim_blanks : (s t : Text) → all is_whitespace t ≡ true → trim (s ++ t) ≡ trim s
unfolding trim
trim_blanks [] t h = all_gone t h
  where
    all_gone : (t : Text) → all is_whitespace t ≡ true → trim t ≡ []
    all_gone [] h = refl
    all_gone (c ∷ t) h =
        let (a, b) = and_both (is_whitespace c) (all is_whitespace t) h in rw a (all_gone t b)
trim_blanks (c ∷ s) t h = elim (Bool-cases (is_whitespace c)) [
  | inl e ↦ rw e (trim_blanks s t h)
  | inr e ↦ rw e (trim_end_blanks is_whitespace (c ∷ s) t h)
]

pub length-trim : (s : Text) → length (trim s) ≤ length s
unfolding trim
length-trim s = omega (
  arith,
  length-trim_end is_whitespace (trim_start is_whitespace s),
  length-trim_start is_whitespace s,
)
