-- ===== src/Paths/Within.antt =====
-- `is_within`, `rebase`: containment in a folder, and the rewriting of paths under a move.
use mathlib.Core.List.{cons-ne-nil}
use go_notes.Base.{
  ℕ, zero, ◌+◌, ◌≡◌, refl, sym, ◌≢◌, ◌↔◌, ◌⊎◌, inl, inr, Bool, true, false, ◌&&◌, Option, none,
  some, [], ◌∷◌, ◌++◌, arith, ltb, ◌==◌, Text, get_elem?, encode, encode-append, byte_len,
  same_text, same_text_iff, starts_with, starts_with_append, starts_with_elim,
  get_elem?-append-length, encode_char_width, length, ap, length-append, Bool-cases, same_text_refl,
  byte_len-append, byte_len-cons, slice_from, slice_from-append, append_assoc,
}
use go_notes.Paths.{is_byte, is_within, rebase, join}

first_byte : (c : ℕ) (s : Text) → is_byte b'/' (get_elem? (encode (c ∷ s)) zero) ≡ (c == b'/')
unfolding encode
first_byte c s = ground arith

byte_behind : (f s : Text) → get_elem? (encode (f ++ s)) (byte_len f) ≡ get_elem? (encode s) zero
unfolding byte_len
byte_behind f s = rw encode-append (get_elem?-append-length (encode f) (encode s))

is_byte_slash :
    (s : Text) → is_byte b'/' (get_elem? (encode s) zero) ≡ true → (r : Text) × (s ≡ b'/' ∷ r)
is_byte_slash [] h = absurd (unfold encode in cc h)
is_byte_slash (c ∷ s) h = (s, ground (arith, first_byte c s))

-- The prefix test that `is_within` makes for a folder that is not the root.
below : (path folder : Text) → Bool
below path folder =
    ltb (byte_len folder) (byte_len path)
    && starts_with path folder
    && is_byte b'/' (get_elem? (encode path) (byte_len folder))

below_elim : (p f : Text) → below p f ≡ true → (r : Text) × (p ≡ f ++ b'/' ∷ r)
unfolding below
below_elim p f h =
    let (rest, e) = starts_with_elim p f (ground arith) in
    let at : is_byte b'/' (get_elem? (encode (f ++ rest)) (byte_len f)) ≡ true =
      rw (← e) (ground arith) in
    let (r, e') = is_byte_slash rest (rw (← byte_behind f rest) at) in (r, cc)

below_intro : (f r : Text) → below (f ++ b'/' ∷ r) f ≡ true
unfolding below
below_intro f r =
    let longer : ltb (byte_len f) (byte_len (f ++ b'/' ∷ r)) ≡ true =
      ground (arith, byte_len-append f (b'/' ∷ r), byte_len-cons b'/' r, encode_char_width b'/') in
    rw (longer, starts_with_append, byte_behind, first_byte)

is_within-below : (p f : Text) → f ≢ [] → is_within p f ≡ below p f
unfolding is_within below
is_within-below p [] h = absurd (h refl)
is_within-below p (c ∷ f) h = unfold same_text in refl

-- `is_within` decides containment: everything is inside the root, and a path is inside another
-- folder exactly when it is that folder, a separator and anything more. A sibling that merely
-- shares a prefix is not inside.
pub is_within_iff :
    (p f : Text) → (is_within p f ≡ true) ↔ ((f ≡ []) ⊎ ((r : Text) × (p ≡ f ++ b'/' ∷ r)))
is_within_iff p [] = (λ _. inl refl, λ _. unfold is_within same_text in refl)
is_within_iff p (c ∷ f) = (
  (λ h. inr (below_elim p (c ∷ f) (rw (is_within-below p (c ∷ f) (cons-ne-nil c f)) at h))),
  elim [
    | inl e ↦ cc e
    | inr (r, e) ↦ rw (e, is_within-below _ (c ∷ f) (cons-ne-nil c f)) (below_intro (c ∷ f) r)
  ],
)

-- What a move of `from` to `to` makes of a path: the reference that `rebase` implements.
pub data Rebased (from to : Text) : Text → Option Text → Type 0 where
  self : Rebased from to from (some to)
  inside : (r p : Text) → from ≢ [] → p ≡ from ++ b'/' ∷ r → Rebased from to p (some (join to r))
  outside : (p : Text) → p ≢ from → ((r : Text) → p ≢ from ++ b'/' ∷ r) → Rebased from to p none

byte_len_slash : byte_len (b'/' ∷ []) ≡ 1
unfolding byte_len encode
byte_len_slash = refl

slice_below : (f r : Text) → slice_from (f ++ b'/' ∷ r) (byte_len f + 1) ≡ some r
slice_below f r =
    let e : byte_len f + 1 ≡ byte_len (f ++ b'/' ∷ []) =
      omega (arith, byte_len-append f (b'/' ∷ []), byte_len_slash) in
    let p : f ++ b'/' ∷ r ≡ (f ++ b'/' ∷ []) ++ r = sym (append_assoc f (b'/' ∷ []) r) in
    rw (e, p) (slice_from-append (f ++ b'/' ∷ []) r)

rebase_self : (from to : Text) → rebase from from to ≡ some (some to)
unfolding rebase
rebase_self from to = rw same_text_refl

-- A path inside the folder moves with it, whatever characters the names hold.
pub rebase_inside :
    (from to r : Text) → from ≢ [] → rebase (from ++ b'/' ∷ r) from to ≡ some (some (join to r))
unfolding rebase
rebase_inside from to r h =
    let inside : is_within (from ++ b'/' ∷ r) from ≡ true =
      (is_within_iff _ from).1 (inr (r, refl)) in
    elim (Bool-cases (same_text (from ++ b'/' ∷ r) from)) [
      | inl e ↦ absurd (longer from r ((same_text_iff _ from).0 e))
      | inr e ↦ rw (e, inside, slice_below from r)
    ]
  where
    longer : (f r : Text) → f ++ b'/' ∷ r ≡ f → ⊥
    longer f r e = omega (arith, ap length e, length-append f (b'/' ∷ r))

-- For every folder but the root, `rebase` returns without a panic: the target for the folder
-- itself, the same rest below the target for a path that is the folder, a separator and a rest, and
-- nothing for a path that is neither.
pub rebase-Rebased :
    (from to p : Text)
    → from ≢ []
    → (o : Option Text) × (rebase p from to ≡ some o) × Rebased from to p o
rebase-Rebased from to p h = elim (Bool-cases (same_text p from)) [
  | inl e ↦
      let same : p ≡ from = (same_text_iff p from).0 e in
      (some to, rw same (rebase_self from to), rw same self)
  | inr differs ↦ elim (Bool-cases (is_within p from)) [
    | inl h' ↦ elim ((is_within_iff p from).0 h') [
      | inl root ↦ absurd (h root)
      | inr (r, e) ↦ (some (join to r), rw e (rebase_inside from to r h), inside r p h e)
    ]
    | inr away ↦
        (none, unfold rebase in rw (differs, away), outside p (ne p from differs) (apart p away))
  ]
]
  where
    ne : (p q : Text) → same_text p q ≡ false → p ≢ q
    ne p q d e = cc (d, (same_text_iff p q).1 e)

    apart : (q : Text) → is_within q from ≡ false → (r : Text) → q ≢ from ++ b'/' ∷ r
    apart q away r e = cc (away, (is_within_iff q from).1 (inr (r, e)))

-- Moving a folder and moving it back restores every path inside it, for two folders that are not
-- the root.
pub rebase-rebase :
    (from to r : Text)
    → from ≢ []
    → to ≢ []
    → (q : Text) × (rebase (from ++ b'/' ∷ r) from to ≡ some (some q))
      × (rebase q to from ≡ some (some (from ++ b'/' ∷ r)))
rebase-rebase from to r hf ht = (
  to ++ b'/' ∷ r,
  rw (rebase_inside from to r hf, join_to to r ht),
  rw (rebase_inside to from r ht, join_to from r hf),
)
  where
    join_to : (a b : Text) → a ≢ [] → join a b ≡ a ++ b'/' ∷ b
    join_to [] b h = absurd (h refl)
    join_to (c ∷ a) b h = unfold join same_text in refl
