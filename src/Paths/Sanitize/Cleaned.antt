-- ===== src/Paths/Sanitize/Cleaned.antt =====
-- The cleaned name keeps every rule but one: it may still be a reserved device name.
use go_notes.Base.{
  ℕ, zero, suc, ◌≤◌, ◌≡◌, refl, ap, ◌≢◌, inl, inr, Bool, true, false, Option, none, some, [], ◌∷◌,
  ◌++◌, map, arith, ltb, ◌==◌, Text, byte_len, contains, slice_to, trim_start, trim_end, All,
  Bool-cases, Option-cases, append_assoc, ends_with, ==_iff, ◌-◌, encode, unless_blank, behind,
  byte_len-cons, byte_len-append, length, encode_char,
}
use go_notes.Paths.{is_control, max_component_bytes}
use go_notes.Paths.Rules.{IsNameChar}
use go_notes.Paths.Sanitize.{replace_char, is_blank, truncate_floor, cleaned}

replace_char-IsNameChar : (c : ℕ) → IsNameChar (replace_char c)
unfolding replace_char is_control contains
replace_char-IsNameChar c = ground arith

replaced : (s : Text) → All IsNameChar (map replace_char s)
replaced [] = tt
replaced (c ∷ s) = (replace_char-IsNameChar c, replaced s)

module _ (P : ℕ → Type 0) where
  All-prefix : (a b : Text) → All P (a ++ b) → All P a
  All-prefix [] b h = tt
  All-prefix (c ∷ a) b (g, h) = (g, All-prefix a b h)

  All-trim_start : (p : ℕ → Bool) (s : Text) → All P s → All P (trim_start p s)
  unfolding trim_start
  All-trim_start p [] h = tt
  All-trim_start p (c ∷ s) (g, h) = elim (Bool-cases (p c)) [
    | inl e ↦ rw e (All-trim_start p s h)
    | inr e ↦ rw e (g, h)
  ]

-- What `trim_end` leaves is a prefix.
trim_end_prefix : (p : ℕ → Bool) (s : Text) → (r : Text) × (s ≡ trim_end p s ++ r)
unfolding trim_end
trim_end_prefix p [] = ([], refl)
trim_end_prefix p (c ∷ s) = let (r, e) = trim_end_prefix p s in step (trim_end p s) r e
  where
    step : (t r : Text) → s ≡ t ++ r → (r' : Text) × (c ∷ s ≡ unless_blank p c t ++ r')
    step [] r e = elim (Bool-cases (p c)) [
      | inl b ↦ (c ∷ r, rw b (ap (λ t. c ∷ t) e))
      | inr b ↦ (r, rw b (ap (λ t. c ∷ t) e))
    ]
    step (d ∷ t) r e = (r, ap (λ t. c ∷ t) e)

blank_last :
    (p : ℕ → Bool) (c d : ℕ) (t : Text)
    → p d ≡ true
    → ends_with t d ≡ false
    → ends_with (unless_blank p c t) d ≡ false
unfolding ends_with
blank_last p c d [] h ih = elim (Bool-cases (p c)) [
  | inl b ↦ rw b
  | inr b ↦ elim (Bool-cases (c == d)) [ inl e ↦ cc (ap p ((==_iff c d).0 e)) | inr e ↦ rw b e ]
]
blank_last p c d (y ∷ t) h ih = ih

-- No text that `trim_end` leaves ends in a character that it trims.
trim_end_last : (p : ℕ → Bool) (s : Text) (d : ℕ) → p d ≡ true → ends_with (trim_end p s) d ≡ false
unfolding trim_end ends_with
trim_end_last p [] d h = refl
trim_end_last p (c ∷ s) d h = blank_last p c d (trim_end p s) h (trim_end_last p s d h)

trim_start_first : (p : ℕ → Bool) (s r : Text) (d : ℕ) → trim_start p s ≡ d ∷ r → p d ≡ false
unfolding trim_start
trim_start_first p [] r d h = cc
trim_start_first p (c ∷ s) r d h = elim (Bool-cases (p c)) [
  | inl b ↦ trim_start_first p s r d (rw b at h)
  | inr b ↦ ground (arith, h, b)
]

slice_to_prefix : (s : Text) (n : ℕ) (a : Text) → slice_to s n ≡ some a → (b : Text) × (s ≡ a ++ b)
unfolding slice_to
slice_to_prefix s zero a h = (s, ground arith)
slice_to_prefix [] (suc n) a h = cc
slice_to_prefix (c ∷ s) (suc n) a h =
    step a (slice_to s (suc n - length (encode_char c)))
      (slice_to_prefix s (suc n - length (encode_char c))) (ground arith)
  where
    step :
        (a : Text) (o : Option Text)
        → ((a' : Text) → o ≡ some a' → (b : Text) × (s ≡ a' ++ b))
        → behind c o ≡ some a
        → (b : Text) × (c ∷ s ≡ a ++ b)
    step a none ih e = cc
    step [] (some a') ih e = cc
    step (x ∷ a) (some a') ih e = let (b, q) = ih a' refl in (b, cc)

slice_to_len : (s : Text) (n : ℕ) (a : Text) → slice_to s n ≡ some a → byte_len a ≡ n
unfolding slice_to
slice_to_len s zero a h = let e : a ≡ [] = ground arith in rw e (unfold byte_len encode in refl)
slice_to_len [] (suc n) a h = cc
slice_to_len (c ∷ s) (suc n) a h =
    step a (slice_to s (suc n - length (encode_char c)))
      (slice_to_len s (suc n - length (encode_char c))) (ground arith) (ground arith)
  where
    step :
        (a : Text) (o : Option Text)
        → ((a' : Text) → o ≡ some a' → byte_len a' ≡ suc n - length (encode_char c))
        → behind c o ≡ some a
        → ltb (suc n) (length (encode_char c)) ≡ false
        → byte_len a ≡ suc n
    step a none ih e w = cc
    step [] (some a') ih e w = cc
    step (x ∷ a) (some a') ih e w =
        let p : x ∷ a ≡ c ∷ a' = cc in rw p (ground (arith, byte_len-cons c a', ih a'))

truncate_down :
    (s : Text) (n : ℕ) → slice_to s (suc n) ≡ none → truncate_floor s (suc n) ≡ truncate_floor s n
unfolding truncate_floor
truncate_down s n e = ground (arith, e)

truncate_here : (s a : Text) (n : ℕ) → slice_to s (suc n) ≡ some a → truncate_floor s (suc n) ≡ a
unfolding truncate_floor
truncate_here s a n e = ground (arith, e)

truncate_zero : (s : Text) → truncate_floor s zero ≡ []
unfolding truncate_floor
truncate_zero s = refl

truncate_prefix : (s : Text) (n : ℕ) → (b : Text) × (s ≡ truncate_floor s n ++ b)
truncate_prefix s zero = (s, rw truncate_zero)
truncate_prefix s (suc n) = elim (Option-cases (slice_to s (suc n))) [
  | inl e ↦ let (b, q) = truncate_prefix s n in (b, cc (truncate_down s n e, q))
  | inr (a, e) ↦ let (b, q) = slice_to_prefix s (suc n) a e in (b, cc (truncate_here s a n e, q))
]

byte_len_nil : byte_len [] ≡ 0
unfolding byte_len encode
byte_len_nil = refl

truncate_len : (s : Text) (n : ℕ) → byte_len (truncate_floor s n) ≤ n
truncate_len s zero = rw truncate_zero (omega (arith, byte_len_nil))
truncate_len s (suc n) = elim (Option-cases (slice_to s (suc n))) [
  | inl e ↦ rw (truncate_down s n e) (omega (arith, truncate_len s n))
  | inr (a, e) ↦ rw (truncate_here s a n e) (omega (arith, slice_to_len s (suc n) a e))
]

-- The text that the two trimmings and the cut work on.
abbrev started : Text → Text
started input = trim_start is_blank (map replace_char input)

cleaned_prefix : (input : Text) → (b : Text) × (started input ≡ cleaned input ++ b)
cleaned_prefix input =
    elim (Bool-cases (ltb max_component_bytes (byte_len (trim_end is_blank (started input))))) [
      | inl e ↦
          let t = trim_end is_blank (started input) in
          let u = truncate_floor t max_component_bytes in
          let (a, p) = trim_end_prefix is_blank (started input) in
          let (b, q) = truncate_prefix t max_component_bytes in
          let (d, r) = trim_end_prefix is_blank u in
          (
            d ++ (b ++ a),
            unfold cleaned in rw e (spelt (started input) t u (trim_end is_blank u) a b d p q r),
          )
      | inr e ↦
          let (a, p) = trim_end_prefix is_blank (started input) in (a, unfold cleaned in rw e p)
    ]
  where
    spelt : (s t u v a b d : Text) → s ≡ t ++ a → t ≡ u ++ b → u ≡ v ++ d → s ≡ v ++ (d ++ (b ++ a))
    spelt s t u v a b d p q r = rw (p, q, r) (simp append_assoc)

cleaned_short : (input : Text) → byte_len (cleaned input) ≤ max_component_bytes
unfolding cleaned
cleaned_short input =
    elim (Bool-cases (ltb max_component_bytes (byte_len (trim_end is_blank (started input))))) [
      | inl e ↦
          let u = truncate_floor (trim_end is_blank (started input)) max_component_bytes in
          let (d, r) = trim_end_prefix is_blank u in
          rw e (
            omega (
              arith,
              ap byte_len r,
              byte_len-append (trim_end is_blank u) d,
              truncate_len (trim_end is_blank (started input)) max_component_bytes,
            ))
      | inr e ↦ rw e (ground (arith, e))
    ]

cleaned_last : (input : Text) (d : ℕ) → is_blank d ≡ true → ends_with (cleaned input) d ≡ false
unfolding cleaned
cleaned_last input d h =
    elim (Bool-cases (ltb max_component_bytes (byte_len (trim_end is_blank (started input))))) [
      | inl e ↦ rw e (trim_end_last is_blank _ d h)
      | inr e ↦ rw e (trim_end_last is_blank _ d h)
    ]

cleaned_first : (input r : Text) (d : ℕ) → is_blank d ≡ true → cleaned input ≢ d ∷ r
cleaned_first input r d h e =
    let (b, p) = cleaned_prefix input in
    let q : started input ≡ d ∷ (r ++ b) = cc (p, ap (λ t. t ++ b) e) in
    cc (h, trim_start_first is_blank (map replace_char input) (r ++ b) d q)

pub cleaned_chars : (input : Text) → All IsNameChar (cleaned input)
cleaned_chars input =
    let (b, p) = cleaned_prefix input in
    All-prefix IsNameChar (cleaned input) b
      (rw p at (All-trim_start IsNameChar is_blank (map replace_char input) (replaced input)))

-- What the cleaned name satisfies, whatever the input: every rule of a component but two. It may
-- be empty, and it may be a reserved device name.
pub record IsClean (s : Text) : Type 0 where
  pub short : byte_len s ≤ max_component_bytes
  pub chars : All IsNameChar s
  pub visible : (r : Text) → s ≢ b'.' ∷ r
  pub no_space_first : (r : Text) → s ≢ b' ' ∷ r
  pub no_space_last : ends_with s b' ' ≡ false
  pub no_dot_last : ends_with s b'.' ≡ false

pub cleaned-IsClean : (input : Text) → IsClean (cleaned input)
cleaned-IsClean input = record {
  short = cleaned_short input;
  chars = cleaned_chars input;
  visible = λ r. cleaned_first input r b'.' refl;
  no_space_first = λ r. cleaned_first input r b' ' refl;
  no_space_last = cleaned_last input b' ' refl;
  no_dot_last = cleaned_last input b'.' refl;
}
