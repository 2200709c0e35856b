-- ===== src/Base/Strings.antt =====
-- Text as a list of Unicode scalar values (Rust's `chars`), its UTF-8 bytes (`len`, `as_bytes`), and
-- the tests of `str` that the program uses.
use Prim.Native.Nat.{ℕ, zero, suc, ◌+◌, ◌-◌, ◌/◌, ◌%◌, ◌≤◌}
use Prim.Native.Char.{code}
use Prim.Native.String.{String}
use mathlib.Core.Path.{◌≡◌, refl, sym}
use mathlib.Core.Logic.{◌↔◌, ◌≢◌, ◌⊎◌, inl, inr}
use mathlib.Core.Bool.{Bool, true, false, ◌&&◌, ◌||◌}
use mathlib.Core.List.{cons-ne-nil, List, [], ◌∷◌, ◌++◌, append_assoc}
use mathlib.Core.Option.{Option, none, some}
use native.Mathlib.Omega.{arith}
use go_notes.Base.Bools.{and_both, Bool-cases, ==_refl, ltb, leb, ◌==◌, if◌then◌else◌}
use go_notes.Base.Lists.{all, any, length, length-append}

abbrev pub Text : Type 0
Text = List ℕ

-- The scalar values of a literal.
abbrev pub codes : String → Text
codes String.[] = []
codes (String.◌∷◌ c s) = code c ∷ codes s

-- The UTF-8 bytes of one scalar value.
unfoldable pub encode_char : ℕ → List ℕ
encode_char c =
    if ltb c 0x80
    then c ∷ []
    else if ltb c 0x800
    then (192 + c / 64) ∷ (128 + c % 64) ∷ []
    else if ltb c 0x10000
    then (224 + c / 4096) ∷ (128 + c / 64 % 64) ∷ (128 + c % 64) ∷ []
    else (240 + c / 262144) ∷ (128 + c / 4096 % 64) ∷ (128 + c / 64 % 64) ∷ (128 + c % 64) ∷ []

-- `as_bytes`
unfoldable pub encode : Text → List ℕ
unfolding encode_char
encode [] = []
encode (c ∷ s) = encode_char c ++ encode s

-- `len`, in bytes
unfoldable pub byte_len : Text → ℕ
unfolding encode
byte_len s = length (encode s)

unfoldable pub same_text : Text → Text → Bool
same_text [] [] = true
same_text [] (d ∷ t) = false
same_text (c ∷ s) [] = false
same_text (c ∷ s) (d ∷ t) = c == d && same_text s t

unfoldable pub starts_with : Text → Text → Bool
starts_with s [] = true
starts_with [] (d ∷ t) = false
starts_with (c ∷ s) (d ∷ t) = c == d && starts_with s t

unfoldable pub contains : Text → ℕ → Bool
contains [] d = false
contains (c ∷ s) d = c == d || contains s d

unfoldable pub ends_with : Text → ℕ → Bool
ends_with [] d = false
ends_with (c ∷ []) d = c == d
ends_with (c ∷ e ∷ s) d = ends_with (e ∷ s) d

-- `split`: at every separator, always at least one part.
abbrev pub onto : ℕ → List Text → List Text
onto c [] = (c ∷ []) ∷ []
onto c (p ∷ ps) = (c ∷ p) ∷ ps

unfoldable pub split : Text → ℕ → List Text
split [] sep = [] ∷ []
split (c ∷ s) sep = let rest = split s sep in if c == sep then [] ∷ rest else onto c rest

-- `split_once`: at the first separator.
abbrev pub before : ℕ → Option (Text × Text) → Option (Text × Text)
before c none = none
before c (some (a, b)) = some (c ∷ a, b)

unfoldable pub split_once : Text → ℕ → Option (Text × Text)
split_once [] sep = none
split_once (c ∷ s) sep =
    let rest = split_once s sep in if c == sep then some ([], s) else before c rest

-- `rsplit_once`: at the last separator.
abbrev pub or_here : ℕ → ℕ → Text → Option (Text × Text) → Option (Text × Text)
or_here c sep s none = if c == sep then some ([], s) else none
or_here c sep s (some (a, b)) = some (c ∷ a, b)

unfoldable pub rsplit_once : Text → ℕ → Option (Text × Text)
rsplit_once [] sep = none
rsplit_once (c ∷ s) sep = or_here c sep s (rsplit_once s sep)

-- A slice `&s[n..]` at a byte offset; `none` is the panic at an offset that is past the end or not
-- on a character boundary.
unfoldable pub slice_from : Text → ℕ → Option Text
unfolding encode_char
slice_from s zero = some s
slice_from [] (suc n) = none
slice_from (c ∷ s) (suc n) =
    let w = length (encode_char c) in
    let rest = slice_from s (suc n - w) in if ltb (suc n) w then none else rest

-- A slice `&s[..n]`, with the same panics.
abbrev pub behind : ℕ → Option Text → Option Text
behind c none = none
behind c (some a) = some (c ∷ a)

unfoldable pub slice_to : Text → ℕ → Option Text
unfolding encode_char
slice_to s zero = some []
slice_to [] (suc n) = none
slice_to (c ∷ s) (suc n) =
    let w = length (encode_char c) in
    let rest = behind c (slice_to s (suc n - w)) in if ltb (suc n) w then none else rest

-- `to_ascii_lowercase`
unfoldable pub to_ascii_lowercase : Text → Text
to_ascii_lowercase [] = []
to_ascii_lowercase (c ∷ s) = (if leb b'A' c && leb c b'Z' then c + 32 else c) ∷ to_ascii_lowercase s

-- `trim_start_matches` and `trim_end_matches`
unfoldable pub trim_start : (ℕ → Bool) → Text → Text
trim_start p [] = []
trim_start p (c ∷ s) = let rest = trim_start p s in if p c then rest else c ∷ s

abbrev pub unless_blank : (ℕ → Bool) → ℕ → Text → Text
unless_blank p c [] = if p c then [] else c ∷ []
unless_blank p c (d ∷ s) = c ∷ d ∷ s

unfoldable pub trim_end : (ℕ → Bool) → Text → Text
trim_end p [] = []
trim_end p (c ∷ s) = unless_blank p c (trim_end p s)

-- `contains` of a slice of texts
unfoldable pub member : Text → List Text → Bool
unfolding same_text
member s [] = false
member s (t ∷ ts) = same_text s t || member s ts

pub same_text_iff : (s t : Text) → (same_text s t ≡ true) ↔ (s ≡ t)
unfolding same_text
same_text_iff [] [] = ground arith
same_text_iff [] (d ∷ t) = ground arith
same_text_iff (c ∷ s) [] = ground arith
same_text_iff (c ∷ s) (d ∷ t) = ground (arith, same_text_iff s t)

pub same_text_refl : (s : Text) → same_text s s ≡ true
same_text_refl s = (same_text_iff s s).1 refl

pub encode-append : (s t : Text) → encode (s ++ t) ≡ encode s ++ encode t
unfolding encode
encode-append [] t = refl
encode-append (c ∷ s) t = simp (encode-append s t, append_assoc)

pub byte_len-append : (s t : Text) → byte_len (s ++ t) ≡ byte_len s + byte_len t
unfolding byte_len
byte_len-append s t = rw encode-append (length-append (encode s) (encode t))

-- Any two prefixes split the text at the same place.
pub starts_with_append : (s t : Text) → starts_with (s ++ t) s ≡ true
unfolding starts_with
starts_with_append [] t = refl
starts_with_append (c ∷ s) t = ground (arith, starts_with_append s t)

pub starts_with_elim : (s t : Text) → starts_with s t ≡ true → (rest : Text) × (s ≡ t ++ rest)
unfolding starts_with
starts_with_elim s [] h = (s, refl)
starts_with_elim [] (d ∷ t) h = absurd (cc)
starts_with_elim (c ∷ s) (d ∷ t) h =
    let (rest, e) = starts_with_elim s t (ground arith) in (rest, ground arith)

pub byte_len-cons : (c : ℕ) (s : Text) → byte_len (c ∷ s) ≡ length (encode_char c) + byte_len s
unfolding byte_len encode
byte_len-cons c s = length-append (encode_char c) (encode s)

pub encode_char_width : (c : ℕ) → (1 ≤ length (encode_char c)) × (length (encode_char c) ≤ 4)
unfolding encode_char
encode_char_width c = ground arith

slice_from_over :
    (c : ℕ) (s : Text) (n m : ℕ)
    → suc m ≡ length (encode_char c) + n
    → slice_from (c ∷ s) (suc m) ≡ slice_from s n
slice_from_over c s n m h =
    let e : suc m - length (encode_char c) ≡ n = omega arith in
    let b : ltb (suc m) (length (encode_char c)) ≡ false = ground arith in
    unfold slice_from in rw (b, e)

slice_from-cons :
    (c : ℕ) (s : Text) (n : ℕ) → slice_from (c ∷ s) (length (encode_char c) + n) ≡ slice_from s n
slice_from-cons c s n =
    let w = length (encode_char c) in
    let e : w + n ≡ suc (w + n - 1) = omega (arith, encode_char_width c) in
    rw e (slice_from_over c s n (w + n - 1) (sym e))

-- The slice behind a prefix is the rest: no panic.
pub slice_from-append : (s t : Text) → slice_from (s ++ t) (byte_len s) ≡ some t
slice_from-append [] t = unfold byte_len slice_from in refl
slice_from-append (c ∷ s) t = rw (byte_len-cons, slice_from-cons) (slice_from-append s t)

slice_to_over :
    (c : ℕ) (s : Text) (n m : ℕ)
    → suc m ≡ length (encode_char c) + n
    → slice_to (c ∷ s) (suc m) ≡ behind c (slice_to s n)
slice_to_over c s n m h =
    let e : suc m - length (encode_char c) ≡ n = omega arith in
    let b : ltb (suc m) (length (encode_char c)) ≡ false = ground arith in
    unfold slice_to in rw (b, e)

slice_to-cons :
    (c : ℕ) (s : Text) (n : ℕ)
    → slice_to (c ∷ s) (length (encode_char c) + n) ≡ behind c (slice_to s n)
slice_to-cons c s n =
    let w = length (encode_char c) in
    let e : w + n ≡ suc (w + n - 1) = omega (arith, encode_char_width c) in
    rw e (slice_to_over c s n (w + n - 1) (sym e))

pub slice_to-append : (s t : Text) → slice_to (s ++ t) (byte_len s) ≡ some s
slice_to-append [] [] = unfold byte_len slice_to in refl
slice_to-append [] (d ∷ t) = unfold byte_len slice_to in refl
slice_to-append (c ∷ s) t = rw (byte_len-cons, slice_to-cons) (rw (slice_to-append s t) refl)

pub starts_with-cons : (c d : ℕ) (s : Text) → starts_with (c ∷ s) (d ∷ []) ≡ (c == d)
unfolding starts_with
starts_with-cons c d [] = ground arith
starts_with-cons c d (e ∷ s) = ground arith

pub ends_with_elim : (s : Text) (d : ℕ) → ends_with s d ≡ true → (r : Text) × (s ≡ r ++ d ∷ [])
unfolding ends_with
ends_with_elim [] d h = absurd (cc)
ends_with_elim (c ∷ []) d h = ([], ground arith)
ends_with_elim (c ∷ e ∷ s) d h = let (r, p) = ends_with_elim (e ∷ s) d h in (c ∷ r, cc)

pub ends_with_last : (r : Text) (d : ℕ) → ends_with (r ++ d ∷ []) d ≡ true
unfolding ends_with
ends_with_last [] d = ==_refl d
ends_with_last (c ∷ []) d = ==_refl d
ends_with_last (c ∷ e ∷ s) d = ends_with_last (e ∷ s) d

pub split-append :
    (sep : ℕ) (s t : Text) → contains s sep ≡ false → split (s ++ sep ∷ t) sep ≡ s ∷ split t sep
unfolding split contains
split-append sep [] t h = rw (==_refl sep)
split-append sep (c ∷ s) t h =
    let e : (c == sep) ≡ false = ground arith in
    let rest : split (s ++ sep ∷ t) sep ≡ s ∷ split t sep = split-append sep s t (ground arith) in
    rw (e, rest)

pub split_whole : (sep : ℕ) (s : Text) → contains s sep ≡ false → split s sep ≡ s ∷ []
unfolding split contains
split_whole sep [] h = refl
split_whole sep (c ∷ s) h =
    let e : (c == sep) ≡ false = ground arith in
    let rest : split s sep ≡ s ∷ [] = split_whole sep s (ground arith) in rw (e, rest)

split-ne-nil : (sep : ℕ) (s : Text) → split s sep ≢ []
unfolding split
split-ne-nil sep [] = cons-ne-nil [] []
split-ne-nil sep (c ∷ s) = elim (Bool-cases (c == sep)) [
  | inl e ↦ rw e (cons-ne-nil [] (split s sep))
  | inr e ↦ rw e (onto-ne-nil (split s sep))
]
  where
    onto-ne-nil : (ps : List Text) → onto c ps ≢ []
    onto-ne-nil [] = cons-ne-nil (c ∷ []) []
    onto-ne-nil (p ∷ ps) = cons-ne-nil (c ∷ p) ps

onto-append : (c : ℕ) (ps qs : List Text) → ps ≢ [] → onto c (ps ++ qs) ≡ onto c ps ++ qs
onto-append c [] qs h = absurd (h refl)
onto-append c (p ∷ ps) qs h = refl

-- Splitting a text that is two texts round a separator.
pub split-join : (sep : ℕ) (s t : Text) → split (s ++ sep ∷ t) sep ≡ split s sep ++ split t sep
unfolding split
split-join sep [] t = rw (==_refl sep)
split-join sep (c ∷ s) t = elim (Bool-cases (c == sep)) [
  | inl e ↦ rw (e, split-join sep s t)
  | inr e ↦
      rw (e, split-join sep s t) (onto-append c (split s sep) (split t sep) (split-ne-nil sep s))
]

pub rsplit_once-none : (s : Text) (sep : ℕ) → contains s sep ≡ false → rsplit_once s sep ≡ none
unfolding rsplit_once contains
rsplit_once-none [] sep h = refl
rsplit_once-none (c ∷ s) sep h =
    let e : (c == sep) ≡ false = ground arith in rw (rsplit_once-none s sep (ground arith), e)

pub rsplit_once_last :
    (a b : Text) (sep : ℕ) → contains b sep ≡ false → rsplit_once (a ++ sep ∷ b) sep ≡ some (a, b)
unfolding rsplit_once
rsplit_once_last [] b sep h = rw (rsplit_once-none b sep h, ==_refl sep)
rsplit_once_last (c ∷ a) b sep h = rw (rsplit_once_last a b sep h)

or_here-some :
    (c sep : ℕ) (s a b : Text)
    → or_here c sep s none ≡ some (a, b)
    → contains s sep ≡ false
    → (c ∷ s ≡ a ++ sep ∷ b) × (contains b sep ≡ false)
or_here-some c sep s [] b e h = ground arith
or_here-some c sep s (x ∷ a) b e h = absurd (ground arith)

-- The two halves of a split at the last separator spell the text, and the second has no separator.
pub rsplit_once_sound :
    (s : Text) (sep : ℕ)
    → ((rsplit_once s sep ≡ none) × (contains s sep ≡ false))
      ⊎ ((a : Text) × (b : Text) × (rsplit_once s sep ≡ some (a, b))
          × (s ≡ a ++ sep ∷ b)
          × (contains b sep ≡ false))
unfolding rsplit_once contains
rsplit_once_sound [] sep = inl (refl, refl)
rsplit_once_sound (c ∷ s) sep = elim (rsplit_once_sound s sep) [
  | inl (e, h) ↦ elim (Bool-cases (c == sep)) [
    | inl here ↦ inr ([], s, rw (e, here), ground arith, h)
    | inr other ↦ inl (rw (e, other), rw other h)
  ]
  | inr (a, b, e, p, h) ↦ inr (c ∷ a, b, rw e, cc p, h)
]

any-onto :
    (c d : ℕ) (ps : List Text)
    → any (λ p. contains p d) (onto c ps) ≡ ((c == d) || any (λ p. contains p d) ps)
unfolding contains
any-onto c d [] = ground arith
any-onto c d (p ∷ ps) = ground arith

-- A character that is not the separator stands in the text exactly if it stands in some part.
pub any-split :
    (sep d : ℕ) (s : Text)
    → (sep == d) ≡ false
    → any (λ p. contains p d) (split s sep) ≡ contains s d
unfolding split contains
any-split sep d [] h = refl
any-split sep d (c ∷ s) h = elim (Bool-cases (c == sep)) [
  | inl e ↦ let other : (c == d) ≡ false = ground arith in rw (e, any-split sep d s h, other)
  | inr e ↦ rw (e, any-onto c d (split s sep), any-split sep d s h)
]

pub member-all :
    (p : Text → Bool) (s : Text) (ts : List Text)
    → member s ts ≡ true
    → all p ts ≡ true
    → p s ≡ true
unfolding member
member-all p s [] h k = cc
member-all p s (t ∷ ts) h k = elim (Bool-cases (same_text s t)) [
  | inl e ↦ rw ((same_text_iff s t).0 e) ((and_both (p t) (all p ts) k).0)
  | inr e ↦ member-all p s ts (rw e at h) ((and_both (p t) (all p ts) k).1)
]
