-- ===== src/Paths/Rules.antt =====
-- What `validate_component` and `validate_rel_path` accept.
use go_notes.Base.{
  ℕ, ◌<◌, ◌≤◌, ◌≡◌, refl, ap, ◌≢◌, ◌↔◌, ◌⊎◌, inl, inr, false, [], ◌∷◌, ◌++◌, arith, ltb, ◌==◌, Text,
  codes, byte_len, same_text, same_text_iff, starts_with, contains, ends_with, starts_with-cons,
  ends_with_elim, ends_with_last, ok, All, Bool-cases,
}
use go_notes.Paths.{
  is_control, scan_chars, check_edges, is_reserved, validate_component, max_component_bytes,
  illegal_chars,
}

-- A character that may stand in a name.
pub record IsNameChar (c : ℕ) : Type 0 where
  pub printable : 0x20 ≤ c
  pub not_c1 : (c < 0x7f) ⊎ (0x9f < c)
  pub portable :
      (c ≢ b'<') × (c ≢ b'>') × (c ≢ b':') × (c ≢ b'"') × (c ≢ b'|') × (c ≢ b'?') × (c ≢ b'*')
  pub not_slash : c ≢ b'/'
  pub not_backslash : c ≢ b'\\'

char_rule :
    (c : ℕ)
    → (is_control c ≡ false)
      × (contains illegal_chars c ≡ false)
      × ((c == b'/') ≡ false)
      × ((c == b'\\') ≡ false)
    → IsNameChar c
unfolding is_control contains
char_rule c h = ground arith

char_rule_back :
    (c : ℕ)
    → IsNameChar c
    → (is_control c ≡ false)
      × (contains illegal_chars c ≡ false)
      × ((c == b'/') ≡ false)
      × ((c == b'\\') ≡ false)
unfolding is_control contains
char_rule_back c h = ground arith

scan_chars_step :
    (c : ℕ) (s : Text)
    → scan_chars (c ∷ s) ≡ ok tt
    → (is_control c ≡ false)
      × (contains illegal_chars c ≡ false)
      × ((c == b'/') ≡ false)
      × ((c == b'\\') ≡ false)
      × (scan_chars s ≡ ok tt)
unfolding scan_chars
scan_chars_step c s h = ground arith

scan_chars_sound : (s : Text) → scan_chars s ≡ ok tt → All IsNameChar s
scan_chars_sound [] h = tt
scan_chars_sound (c ∷ s) h =
    let (a, b, d, e, rest) = scan_chars_step c s h in
    (char_rule c (a, b, d, e), scan_chars_sound s rest)

pub scan_chars_complete : (s : Text) → All IsNameChar s → scan_chars s ≡ ok tt
unfolding scan_chars
scan_chars_complete [] h = refl
scan_chars_complete (c ∷ s) (g, h) =
    let (a, b, d, e) = char_rule_back c g in rw (a, b, d, e) (scan_chars_complete s h)

-- What a component must be: the rules that `validate_component` enforces, each stated of the name.
pub record IsComponent (s : Text) : Type 0 where
  pub named : s ≢ []
  pub short : byte_len s ≤ max_component_bytes
  pub chars : All IsNameChar s
  pub visible : (r : Text) → s ≢ b'.' ∷ r
  pub no_space_first : (r : Text) → s ≢ b' ' ∷ r
  pub no_space_last : (r : Text) → s ≢ r ++ b' ' ∷ []
  pub no_dot_last : (r : Text) → s ≢ r ++ b'.' ∷ []
  pub portable : is_reserved s ≡ false

pub check_edges_sound :
    (s : Text)
    → check_edges s ≡ ok tt
    → (starts_with s (codes ".") ≡ false)
      × (starts_with s (codes " ") ≡ false)
      × (ends_with s b' ' ≡ false)
      × (ends_with s b'.' ≡ false)
      × (is_reserved s ≡ false)
unfolding check_edges
check_edges_sound s h = ground arith

tests_sound :
    (s : Text)
    → validate_component s ≡ ok tt
    → (same_text s [] ≡ false)
      × (byte_len s ≤ max_component_bytes)
      × (scan_chars s ≡ ok tt)
      × (check_edges s ≡ ok tt)
unfolding validate_component
tests_sound s h = ground arith

not_first : (s : Text) (c : ℕ) → starts_with s (c ∷ []) ≡ false → (r : Text) → s ≢ c ∷ r
not_first s c h r e = ground (arith, ap (λ t. starts_with t (c ∷ [])) e, starts_with-cons c c r)

not_last : (s : Text) (c : ℕ) → ends_with s c ≡ false → (r : Text) → s ≢ r ++ c ∷ []
not_last s c h r e = cc (h, ap (λ t. ends_with t c) e, ends_with_last r c)

pub validate_component_sound : (s : Text) → validate_component s ≡ ok tt → IsComponent s
validate_component_sound s h =
    let (named, short, chars, edges) = tests_sound s h in
    let (dot, space, space_last, dot_last, res) = check_edges_sound s edges in
    record {
      named = λ e. cc (named, (same_text_iff s []).1 e);
      short = short;
      chars = scan_chars_sound s chars;
      visible = not_first s b'.' dot;
      no_space_first = not_first s b' ' space;
      no_space_last = not_last s b' ' space_last;
      no_dot_last = not_last s b'.' dot_last;
      portable = res;
    }

first_false : (s : Text) (c : ℕ) → ((r : Text) → s ≢ c ∷ r) → starts_with s (c ∷ []) ≡ false
first_false [] c h = unfold starts_with in refl
first_false (d ∷ s) c h = elim (Bool-cases (d == c)) [
  | inl e ↦ absurd (h s (ground arith))
  | inr e ↦ rw starts_with-cons e
]

last_false : (s : Text) (c : ℕ) → ((r : Text) → s ≢ r ++ c ∷ []) → ends_with s c ≡ false
last_false s c h = elim (Bool-cases (ends_with s c)) [
  | inl e ↦ let (r, p) = ends_with_elim s c e in absurd (h r p)
  | inr e ↦ e
]

pub same_false : (s t : Text) → s ≢ t → same_text s t ≡ false
same_false s t h = elim (Bool-cases (same_text s t)) [
  | inl e ↦ absurd (h ((same_text_iff s t).0 e))
  | inr e ↦ e
]

pub check_edges_complete : (s : Text) → IsComponent s → check_edges s ≡ ok tt
unfolding check_edges
check_edges_complete s h = rw (
  first_false s b'.' h.visible,
  first_false s b' ' h.no_space_first,
  last_false s b' ' h.no_space_last,
  last_false s b'.' h.no_dot_last,
  h.portable,
)

-- A component is accepted exactly when it is not empty, has at most 200 bytes, has only characters
-- that are legal on every system, starts with neither a dot nor a space, ends with neither, and is
-- not a reserved device name.
pub validate_component_iff : (s : Text) → (validate_component s ≡ ok tt) ↔ IsComponent s
validate_component_iff s = (
  validate_component_sound s,
  λ h.
      unfold validate_component in
      rw
        (
          same_false s [] h.named,
          not_over (byte_len s) h.short,
          same_false s (codes ".") (h.visible []),
          same_false s (codes "..") (h.visible (codes ".")),
          scan_chars_complete s h.chars,
        )
        (check_edges_complete s h),
)
  where
    not_over : (n : ℕ) → n ≤ max_component_bytes → ltb max_component_bytes n ≡ false
    not_over n h = ground arith
