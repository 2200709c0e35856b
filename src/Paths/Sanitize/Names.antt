-- ===== src/Paths/Sanitize/Names.antt =====
-- When `sanitize_component` returns a name that `validate_component` accepts.
use go_notes.Base.{
  ℕ, ◌+◌, ◌≤◌, ◌≡◌, refl, ap, sym, ◌∙◌, ◌≢◌, ◌⊎◌, inl, inr, Bool, true, false, not, ◌&&◌, none,
  some, [], ◌∷◌, ◌++◌, arith, leb, ◌==◌, if◌then◌else◌, Text, codes, byte_len, encode, same_text,
  same_text_iff, contains, split_once, member, member-all, to_ascii_lowercase, all, All, Bool-cases,
  Result-cases, ok, err, append_assoc, ends_with, ends_with_last, byte_len-cons, byte_len-append,
  length, length-append, encode_char,
}
use go_notes.Paths.{PathError, is_reserved, reserved_stems, head_or, validate_component}
use go_notes.Paths.Rules.{IsNameChar, IsComponent, same_false, validate_component_iff}
use go_notes.Paths.Sanitize.{cleaned, sanitize_component}
use go_notes.Paths.Sanitize.Cleaned.{IsClean, cleaned-IsClean}

split_once-none : (s : Text) (sep : ℕ) → contains s sep ≡ false → split_once s sep ≡ none
unfolding split_once contains
split_once-none [] sep h = refl
split_once-none (c ∷ s) sep h =
    let e : (c == sep) ≡ false = ground arith in rw (split_once-none s sep (ground arith), e)

split_both :
    (s t : Text) (sep : ℕ)
    → contains s sep ≡ true
    → (a : Text) × (b : Text) × (split_once (s ++ t) sep ≡ some (a, b ++ t))
      × (split_once s sep ≡ some (a, b))
unfolding split_once contains
split_both [] t sep h = absurd (cc)
split_both (c ∷ s) t sep h = elim (Bool-cases (c == sep)) [
  | inl e ↦ ([], s, rw e, rw e)
  | inr e ↦ let (a, b, p, q) = split_both s t sep (rw e at h) in (c ∷ a, b, rw (e, p), rw (e, q))
]

-- Text behind the first separator does not change what stands before it.
head_stable :
    (s t : Text) (sep : ℕ)
    → contains s sep ≡ true
    → head_or (s ++ t) (split_once (s ++ t) sep) ≡ head_or s (split_once s sep)
head_stable s t sep h = let (a, b, e, e') = split_both s t sep h in rw (e, e') refl

lower-append :
    (s t : Text) → to_ascii_lowercase (s ++ t) ≡ to_ascii_lowercase s ++ to_ascii_lowercase t
unfolding to_ascii_lowercase
lower-append [] t = refl
lower-append (c ∷ s) t =
    ap (λ u. (if leb b'A' c && leb c b'Z' then c + 32 else c) ∷ u) (lower-append s t)

lower_width :
    (c : ℕ)
    → length (encode_char (if leb b'A' c && leb c b'Z' then c + 32 else c)) ≡ length (encode_char c)
unfolding encode_char
lower_width c = ground arith

lower-byte_len : (s : Text) → byte_len (to_ascii_lowercase s) ≡ byte_len s
unfolding to_ascii_lowercase
lower-byte_len [] = refl
lower-byte_len (c ∷ s) = omega (
  arith,
  byte_len-cons c s,
  byte_len-cons (if leb b'A' c && leb c b'Z' then c + 32 else c) (to_ascii_lowercase s),
  lower-byte_len s,
  lower_width c,
)

-- A reserved stem is short, and no longer reserved with a dash and a digit behind it.
stem_test : Text → Bool
stem_test s = leb (byte_len s) 4 && not (member (s ++ codes "-1") reserved_stems)

stems_pass : all stem_test reserved_stems ≡ true
unfolding stem_test byte_len member encode_char
stems_pass = refl

stem_facts :
    (s : Text)
    → member s reserved_stems ≡ true
    → (byte_len s ≤ 4) × (member (s ++ codes "-1") reserved_stems ≡ false)
unfolding stem_test
stem_facts s h = let p = member-all stem_test s reserved_stems h stems_pass in ground (arith, p)

reserved_whole :
    (s : Text)
    → contains s b'.' ≡ false
    → is_reserved s ≡ member (to_ascii_lowercase s) reserved_stems
unfolding is_reserved
reserved_whole s h = rw (split_once-none s b'.' h)

suffix_lacks : (s : Text) → contains s b'.' ≡ false → contains (s ++ codes "-1") b'.' ≡ false
unfolding contains
suffix_lacks [] h = refl
suffix_lacks (c ∷ s) h = ground (arith, suffix_lacks s)

All-suffix : (s : Text) → All IsNameChar s → All IsNameChar (s ++ codes "-1")
All-suffix [] h = (omega arith, (omega arith, tt))
All-suffix (c ∷ s) (g, h) = (g, All-suffix s h)

ends_with-end : (r : Text) (d e : ℕ) → ends_with (r ++ d ∷ []) e ≡ (d == e)
unfolding ends_with
ends_with-end [] d e = refl
ends_with-end (c ∷ []) d e = refl
ends_with-end (c ∷ x ∷ r) d e = ends_with-end (x ∷ r) d e

suffix_last : (s r : Text) (e : ℕ) → (b'1' == e) ≡ false → s ++ codes "-1" ≢ r ++ e ∷ []
suffix_last s r e h p =
    let q : (s ++ b'-' ∷ []) ++ b'1' ∷ [] ≡ r ++ e ∷ [] =
      append_assoc s (b'-' ∷ []) (b'1' ∷ []) ∙ p in
    cc (h, ap (λ t. ends_with t e) q, ends_with-end (s ++ b'-' ∷ []) b'1' e, ends_with_last r e)

suffix_first : (s r : Text) (d : ℕ) → s ≢ [] → ((r' : Text) → s ≢ d ∷ r') → s ++ codes "-1" ≢ d ∷ r
suffix_first [] r d h k e = h refl
suffix_first (c ∷ s) r d h k e = let p : c ≡ d = cc in k s (ap (λ x. x ∷ s) p)

reserved_short : (s : Text) → contains s b'.' ≡ false → is_reserved s ≡ true → byte_len s ≤ 4
reserved_short s lacks h =
    let m : member (to_ascii_lowercase s) reserved_stems ≡ true =
      sym (reserved_whole s lacks) ∙ h in
    omega (arith, (stem_facts (to_ascii_lowercase s) m).0, lower-byte_len s)

suffix_free :
    (s : Text)
    → contains s b'.' ≡ false
    → is_reserved s ≡ true
    → is_reserved (s ++ codes "-1") ≡ false
suffix_free s lacks h =
    let m : member (to_ascii_lowercase s) reserved_stems ≡ true =
      sym (reserved_whole s lacks) ∙ h in
    let lower_suffix : to_ascii_lowercase (codes "-1") ≡ codes "-1" =
      unfold to_ascii_lowercase in refl in
    rw (reserved_whole (s ++ codes "-1") (suffix_lacks s lacks), lower-append, lower_suffix)
      ((stem_facts (to_ascii_lowercase s) m).1)

suffix_len : byte_len (codes "-1") ≡ 2
unfolding byte_len encode
suffix_len = refl

suffixed-IsComponent :
    (s : Text)
    → IsClean s
    → s ≢ []
    → contains s b'.' ≡ false
    → is_reserved s ≡ true
    → IsComponent (s ++ codes "-1")
suffixed-IsComponent s clean named lacks res = record {
  named = λ e. omega (arith, ap length e, length-append s (codes "-1"));
  short = omega (arith, reserved_short s lacks res, byte_len-append s (codes "-1"), suffix_len);
  chars = All-suffix s clean.chars;
  visible = λ r. suffix_first s r b'.' named clean.visible;
  no_space_first = λ r. suffix_first s r b' ' named clean.no_space_first;
  no_space_last = λ r. suffix_last s r b' ' refl;
  no_dot_last = λ r. suffix_last s r b'.' refl;
  portable = suffix_free s lacks res;
}

clean-IsComponent : (s : Text) → IsClean s → s ≢ [] → is_reserved s ≡ false → IsComponent s
clean-IsComponent s clean named free = record {
  named = named;
  short = clean.short;
  chars = clean.chars;
  visible = clean.visible;
  no_space_first = clean.no_space_first;
  no_space_last =
      λ r e. cc (clean.no_space_last, ap (λ t. ends_with t b' ') e, ends_with_last r b' ');
  no_dot_last = λ r e. cc (clean.no_dot_last, ap (λ t. ends_with t b'.') e, ends_with_last r b'.');
  portable = free;
}

-- The three results of `sanitize_component`, each with its condition.
sanitize_empty :
    (input fallback : Text) → cleaned input ≡ [] → sanitize_component input fallback ≡ fallback
sanitize_empty input fallback e =
    let refused : validate_component [] ≡ err PathError.empty_component =
      unfold validate_component same_text in refl in
    unfold sanitize_component in rw (e, refused) (unfold same_text in refl)

-- A cleaned name that is neither empty nor reserved is the result, and is a legal component.
pub sanitize_kept :
    (input fallback : Text)
    → cleaned input ≢ []
    → is_reserved (cleaned input) ≡ false
    → (sanitize_component input fallback ≡ cleaned input) × IsComponent (cleaned input)
sanitize_kept input fallback named free =
    let c = clean-IsComponent (cleaned input) (cleaned-IsClean input) named free in
    (unfold sanitize_component in rw ((validate_component_iff (cleaned input)).1 c), c)

pub sanitize_suffixed :
    (input fallback : Text)
    → is_reserved (cleaned input) ≡ true
    → cleaned input ≢ []
    → sanitize_component input fallback ≡ cleaned input ++ codes "-1"
sanitize_suffixed input fallback res named =
    elim (Result-cases (validate_component (cleaned input))) [
      | inl (a, e) ↦ cc (res, ((validate_component_iff (cleaned input)).0 e).portable)
      | inr (x, e) ↦
          let ne = same_false (cleaned input) [] named in unfold sanitize_component in rw (e, ne)
    ]

-- With an acceptable fallback, the name is one that `validate_component` accepts, unless the
-- cleaned input is a reserved device name with an extension.
pub sanitize_component_valid :
    (input fallback : Text)
    → validate_component fallback ≡ ok tt
    → (contains (cleaned input) b'.' ≡ false) ⊎ (is_reserved (cleaned input) ≡ false)
    → validate_component (sanitize_component input fallback) ≡ ok tt
sanitize_component_valid input fallback hf h = elim (Bool-cases (same_text (cleaned input) [])) [
  | inl e ↦ rw (sanitize_empty input fallback ((same_text_iff (cleaned input) []).0 e)) hf
  | inr e ↦
      let named : cleaned input ≢ [] = λ p. cc (e, (same_text_iff (cleaned input) []).1 p) in
      elim (Bool-cases (is_reserved (cleaned input))) [
        | inl res ↦ rw (sanitize_suffixed input fallback res named) (
            (validate_component_iff _).1 (
              suffixed-IsComponent (cleaned input) (cleaned-IsClean input) named (ground arith)
                res))
        | inr free ↦
            let (p, c) = sanitize_kept input fallback named free in
            rw p ((validate_component_iff _).1 c)
      ]
]

-- A reserved device name with an extension, such as `con.txt`, is turned into a name that
-- `validate_component` refuses: the suffix goes behind the extension, and the part before the
-- first dot stays reserved.
pub sanitize_component_refused :
    (input fallback : Text)
    → is_reserved (cleaned input) ≡ true
    → contains (cleaned input) b'.' ≡ true
    → validate_component (sanitize_component input fallback) ≢ ok tt
sanitize_component_refused input fallback res dotted h =
    let named : cleaned input ≢ [] = λ p. cc (dotted, ap (λ t. contains t b'.') p, nil_lacks) in
    let c =
      (validate_component_iff (cleaned input ++ codes "-1")).0
        (rw (sanitize_suffixed input fallback res named) at h) in
    cc (c.portable, still_reserved (cleaned input) dotted, res)
  where
    nil_lacks : contains [] b'.' ≡ false
    nil_lacks = unfold contains in refl

    still_reserved :
        (s : Text) → contains s b'.' ≡ true → is_reserved (s ++ codes "-1") ≡ is_reserved s
    still_reserved s h = unfold is_reserved in rw (head_stable s (codes "-1") b'.' h)
