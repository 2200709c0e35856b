-- ===== src/Chunk/Drift.antt =====
-- `word_set`, `jaccard` and `drift_boundary`: whether a paragraph has left the topic before it. The
-- letters and digits of Unicode are a parameter. A set is a list of texts without repetition. The
-- quotients in floating point are compared as fractions, which is the same below 2^40 words.
use go_notes.Base.{
  ℕ, ◌+◌, ◌-◌, ◌*◌, Bool, true, false, not, ◌&&◌, ◌||◌, Option, none, some, List, [], ◌∷◌, map,
  filter, ltb, leb, if◌then◌else◌, Text, codes, length, member, to_ascii_lowercase, trim, slice_to,
  slice_from,
}
use go_notes.Chunk.{min_chars}

abbrev pub topic_drift_enabled : Bool
topic_drift_enabled = false

abbrev pub stopwords : List Text
stopwords =
    codes "the"
    ∷ codes "and"
    ∷ codes "a"
    ∷ codes "an"
    ∷ codes "of"
    ∷ codes "to"
    ∷ codes "in"
    ∷ codes "on"
    ∷ codes "for"
    ∷ codes "is"
    ∷ codes "it"
    ∷ codes "its"
    ∷ codes "this"
    ∷ codes "that"
    ∷ codes "with"
    ∷ codes "as"
    ∷ codes "at"
    ∷ codes "by"
    ∷ codes "or"
    ∷ codes "be"
    ∷ codes "are"
    ∷ codes "was"
    ∷ codes "were"
    ∷ codes "i"
    ∷ []

abbrev pub onto_first : ℕ → List Text → List Text
onto_first c [] = (c ∷ []) ∷ []
onto_first c (w ∷ ws) = (c ∷ w) ∷ ws

-- `split` by a test on characters
unfoldable pub split_by : (ℕ → Bool) → Text → List Text
split_by p [] = [] ∷ []
split_by p (c ∷ s) = let rest = split_by p s in if p c then [] ∷ rest else onto_first c rest

abbrev pub deduped : List Text → List Text
deduped [] = []
deduped (w ∷ ws) = let rest = deduped ws in if member w rest then rest else w ∷ rest

abbrev pub is_significant : Text → Bool
is_significant w = leb 3 (length w) && not (member w stopwords)

unfoldable pub word_set : (ℕ → Bool) → Text → List Text
unfolding split_by to_ascii_lowercase member
word_set is_alphanumeric t =
    deduped
      (filter is_significant (map to_ascii_lowercase (split_by (λ c. not (is_alphanumeric c)) t)))

-- Whether the overlap is below 0.12; no overlap is known where a side is empty.
unfoldable pub overlap_is_low : List Text → List Text → Bool
unfolding member
overlap_is_low [] b = false
overlap_is_low a [] = false
overlap_is_low (v ∷ a) (w ∷ b) =
    let shared = length (filter (λ t. member t (w ∷ b)) (v ∷ a)) in
    ltb (shared * 100) ((length (v ∷ a) + length (w ∷ b) - shared) * 12)

abbrev pub is_empty : Text → Bool
is_empty [] = true
is_empty (_ ∷ _) = false

-- The decision, once the two parts are cut and trimmed.
abbrev pub drifted : (ℕ → Bool) → Text → Text → Text → ℕ → Bool
drifted is_alphanumeric before new_text heading max_chars =
    not (ltb (length before) min_chars || ltb (length new_text) min_chars)
    && (is_empty heading || ltb max_chars (length before * 2))
    && overlap_is_low (word_set is_alphanumeric before) (word_set is_alphanumeric new_text)

abbrev pub drifted_parts : (ℕ → Bool) → Text → ℕ → Option Text → Option Text → Option Bool
drifted_parts is_alphanumeric heading max_chars (some before) (some new_text) =
    some (drifted is_alphanumeric (trim before) (trim new_text) heading max_chars)
drifted_parts is_alphanumeric heading max_chars (some before) none = none
drifted_parts is_alphanumeric heading max_chars none new_text = none

-- `none` is the panic of a slice past the end or inside a character.
unfoldable pub drift_boundary : (ℕ → Bool) → Text → ℕ → Text → ℕ → Option Bool
unfolding word_set overlap_is_low trim slice_to slice_from
drift_boundary is_alphanumeric current boundary heading max_chars =
    drifted_parts is_alphanumeric heading max_chars (slice_to current boundary)
      (slice_from current boundary)
