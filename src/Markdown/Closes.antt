-- ===== src/Markdown/Closes.antt =====
-- What the tests of `scan_wiki_syntax` say: where a link is closed, what one is made of, what a tag has.
use go_notes.Base.{
  ℕ, zero, suc, ◌+◌, ◌-◌, ◌≤◌, ◌<◌, ◌≡◌, ◌≢◌, refl, sym, ap, ◌∙◌, subst, inl, inr, Bool, true,
  false, not, ◌&&◌, ◌||◌, Option, none, some, [], ◌∷◌, arith, ltb, ◌==◌, if◌then◌else◌, Text,
  Bool-cases, drop, length, get_elem?,
}
use go_notes.Markdown.Scan.{
  LinkKind, Range, ParsedLink, is_char, next_is, close_in, find_wiki_close, unless_blank_target,
  is_tag_char, tag_run,
}

pub get_elem?-drop : (n k : ℕ) (s : Text) → get_elem? (drop n s) k ≡ get_elem? s (n + k)
get_elem?-drop zero k s = let q : k ≡ 0 + k = omega arith in ap (get_elem? s) q
get_elem?-drop (suc n) k [] = refl
get_elem?-drop (suc n) k (c ∷ s) =
    let q : suc (n + k) ≡ suc n + k = omega arith in get_elem?-drop n k s ∙ ap (get_elem? (c ∷ s)) q

some_nat : (m n : ℕ) → some m ≡ some n → m ≡ n
some_nat m n e = cc e

-- A link that is closed at `c`: two brackets, before the limit.
close_in-Sound :
    (i limit : ℕ) (s : Text) (c : ℕ)
    → close_in i limit s ≡ some c
    → (k : ℕ) × (c ≡ i + k)
      × (c + 1 < limit)
      × (get_elem? s k ≡ some b']')
      × (get_elem? s (suc k) ≡ some b']')
unfolding close_in
close_in-Sound i limit [] c e = absurd (cc e)
close_in-Sound i limit (x ∷ s) c e = elim (Bool-cases (not (ltb (i + 1) limit) || x == 10)) [
  | inl h ↦ absurd (refused h e)
  | inr h ↦ elim (Bool-cases (x == b']' && next_is b']' s)) [
    | inl t ↦ here s h t (found h t e)
    | inr t ↦ behind h (close_in-Sound (i + 1) limit s c (later h t e))
  ]
]
  where
    refused :
        (not (ltb (i + 1) limit) || x == 10) ≡ true
        → (if not (ltb (i + 1) limit) || x == 10
            then none
            else if x == b']' && next_is b']' s
            then some i
            else close_in (i + 1) limit s)
          ≡ some c
        → ⊥
    refused h e = cc (
        subst
          (λ b.
            (if b
              then none
              else if x == b']' && next_is b']' s
              then some i
              else close_in (i + 1) limit s)
            ≡ some c)
          h e)

    passed :
        (not (ltb (i + 1) limit) || x == 10) ≡ false
        → (if not (ltb (i + 1) limit) || x == 10
            then none
            else if x == b']' && next_is b']' s
            then some i
            else close_in (i + 1) limit s)
          ≡ some c
        → (if x == b']' && next_is b']' s then some i else close_in (i + 1) limit s) ≡ some c
    passed h e =
        subst
          (λ b.
            (if b
              then none
              else if x == b']' && next_is b']' s
              then some i
              else close_in (i + 1) limit s)
            ≡ some c)
          h e

    found :
        (not (ltb (i + 1) limit) || x == 10) ≡ false
        → (x == b']' && next_is b']' s) ≡ true
        → (if not (ltb (i + 1) limit) || x == 10
            then none
            else if x == b']' && next_is b']' s
            then some i
            else close_in (i + 1) limit s)
          ≡ some c
        → i ≡ c
    found h t e =
        some_nat i c
          (subst (λ b. (if b then some i else close_in (i + 1) limit s) ≡ some c) t (passed h e))

    later :
        (not (ltb (i + 1) limit) || x == 10) ≡ false
        → (x == b']' && next_is b']' s) ≡ false
        → (if not (ltb (i + 1) limit) || x == 10
            then none
            else if x == b']' && next_is b']' s
            then some i
            else close_in (i + 1) limit s)
          ≡ some c
        → close_in (i + 1) limit s ≡ some c
    later h t e =
        subst (λ b. (if b then some i else close_in (i + 1) limit s) ≡ some c) t (passed h e)

    here :
        (s : Text)
        → (not (ltb (i + 1) limit) || x == 10) ≡ false
        → (x == b']' && next_is b']' s) ≡ true
        → i ≡ c
        → (k : ℕ) × (c ≡ i + k)
          × (c + 1 < limit)
          × (get_elem? (x ∷ s) k ≡ some b']')
          × (get_elem? (x ∷ s) (suc k) ≡ some b']')
    here [] h t q = absurd (ground (arith, t))
    here (y ∷ s) h t q =
        let p : y ≡ b']' = ground (arith, t) in
        let r : x ≡ b']' = ground (arith, t) in
        (0, omega arith, ground (arith, h, q), ap some r, ap some p)

    behind :
        (not (ltb (i + 1) limit) || x == 10) ≡ false
        → (k : ℕ) × (c ≡ i + 1 + k)
          × (c + 1 < limit)
          × (get_elem? s k ≡ some b']')
          × (get_elem? s (suc k) ≡ some b']')
        → (k : ℕ) × (c ≡ i + k)
          × (c + 1 < limit)
          × (get_elem? (x ∷ s) k ≡ some b']')
          × (get_elem? (x ∷ s) (suc k) ≡ some b']')
    behind h (k, p, q, f, g) = (suc k, omega arith, q, f, g)

pub find_wiki_close-Sound :
    (source : Text) (from limit c : ℕ)
    → find_wiki_close source from limit ≡ some c
    → (from ≤ c)
      × (c + 1 < limit)
      × (get_elem? source c ≡ some b']')
      × (get_elem? source (c + 1) ≡ some b']')
unfolding find_wiki_close
find_wiki_close-Sound source from limit c e =
    let (k, p, q, f, g) = close_in-Sound from limit (drop from source) c e in
    let r : c + 1 ≡ from + suc k = omega arith in
    (
      omega arith,
      q,
      ap (get_elem? source) p ∙ sym (get_elem?-drop from k source) ∙ f,
      ap (get_elem? source) r ∙ sym (get_elem?-drop from (suc k) source) ∙ g,
    )

-- Two closing brackets before the limit, with no line feed ahead of them, close a link.
close_in-Some :
    (i limit : ℕ) (s : Text) (k : ℕ)
    → i + k + 1 < limit
    → get_elem? s k ≡ some b']'
    → get_elem? s (suc k) ≡ some b']'
    → ((j : ℕ) → j < k → get_elem? s j ≢ some 10)
    → (c : ℕ) × (close_in i limit s ≡ some c)
unfolding close_in
close_in-Some i limit [] k l f g h = absurd (cc f)
close_in-Some i limit (x ∷ s) zero l f g h =
    let room : ltb (i + 1) limit ≡ true = ground arith in
    let r : x ≡ b']' = cc f in (i, rw r (rw room (rw (next_is-get b']' s g) refl)))
  where
    next_is-get : (y : ℕ) (s : Text) → get_elem? s zero ≡ some y → next_is y s ≡ true
    next_is-get y [] e = absurd (cc e)
    next_is-get y (z ∷ s) e = let q : z ≡ y = cc e in ground arith
close_in-Some i limit (x ∷ s) (suc k) l f g h =
    let room : ltb (i + 1) limit ≡ true = ground arith in
    let line : (x == 10) ≡ false = ground (arith, no_line) in
    let (c, e) =
      close_in-Some (i + 1) limit s k (omega arith) f g (λ j m. h (suc j) (omega arith)) in
    rw room (rw line (by_test (x == b']' && next_is b']' s) (close_in (i + 1) limit s) c e))
  where
    no_line : x ≢ 10
    no_line e = h zero (omega arith) (ap some e)

    by_test :
        (b : Bool) (o : Option ℕ) (c : ℕ)
        → o ≡ some c
        → (c' : ℕ) × ((if b then some i else o) ≡ some c')
    by_test true o c e = (i, refl)
    by_test false o c e = (c, e)

pub find_wiki_close-Some :
    (source : Text) (from limit c : ℕ)
    → from ≤ c
    → c + 1 < limit
    → get_elem? source c ≡ some b']'
    → get_elem? source (c + 1) ≡ some b']'
    → ((j : ℕ) → from ≤ j → j < c → get_elem? source j ≢ some 10)
    → (c' : ℕ) × (find_wiki_close source from limit ≡ some c')
unfolding find_wiki_close
find_wiki_close-Some source from limit c l m f g h =
    let q : from + (c - from) ≡ c = omega arith in
    let r : from + suc (c - from) ≡ c + 1 = omega arith in
    close_in-Some from limit (drop from source) (c - from) (omega arith)
      (get_elem?-drop from (c - from) source ∙ ap (get_elem? source) q ∙ f)
      (get_elem?-drop from (suc (c - from)) source ∙ ap (get_elem? source) r ∙ g)
      (λ j k e. h (from + j) (omega arith) (omega arith) (sym (get_elem?-drop from j source) ∙ e))

-- What a link says of itself, for a target that is not blank.
pub parsed_target :
    (relation anchor alias : Option Text) (kind : LinkKind) (context : Text) (span : Range)
    (target : Text)
    → ((l : ParsedLink)
        → unless_blank_target relation anchor alias kind context span target ≡ some l
        → (l.span ≡ span) × (l.kind ≡ kind))
      × (unless_blank_target relation anchor alias kind context span target ≡ none → target ≡ [])
parsed_target relation anchor alias kind context span [] = (λ l e. absurd (cc e), λ _. refl)
parsed_target relation anchor alias kind context span (c ∷ s) = (
  (λ l e. (
    ap (λ (k : ParsedLink). k.span) (sym (unwrapped e)),
    ap (λ (k : ParsedLink). k.kind) (sym (unwrapped e)),
  )),
  λ e. absurd (cc e),
)
  where
    unwrapped : {x y : ParsedLink} → some x ≡ some y → x ≡ y
    unwrapped e = cc e

pub char_there : (c : ℕ) (o : Option ℕ) → is_char c o ≡ true → o ≡ some c
char_there c none e = absurd (ground (arith, e))
char_there c (some d) e = let q : d ≡ c = ground (arith, e) in ap some q

-- A run of a tag has no bracket.
pub tag_run-bracket : (s : Text) (k : ℕ) → k < length (tag_run s) → get_elem? s k ≢ some b'['
unfolding tag_run is_tag_char
tag_run-bracket [] k h e = absurd (cc e)
tag_run-bracket (c ∷ s) k h e = elim (Bool-cases (is_tag_char c)) [
  | inl t ↦ by_place k (rw t at h) e t (tag_run-bracket s)
  | inr t ↦ let z : k < 0 = rw t at h in omega arith
]
  where
    by_place :
        (k : ℕ)
        → k < suc (length (tag_run s))
        → get_elem? (c ∷ s) k ≡ some b'['
        → is_tag_char c ≡ true
        → ((j : ℕ) → j < length (tag_run s) → get_elem? s j ≢ some b'[')
        → ⊥
    by_place zero h e t g = let q : c ≡ b'[' = cc e in ground (arith, t, q)
    by_place (suc k) h e t g = g k (omega arith) e
