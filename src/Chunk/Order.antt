-- ===== src/Chunk/Order.antt =====
-- Passages never change once they are made, and the cost of the drift heuristic.
use go_notes.Base.{
  ℕ, ◌*◌, max, ◌≡◌, refl, ◌∙◌, sym, ap, Bool, true, false, Option, none, some, List, [], ◌∷◌, ◌++◌,
  append_assoc, append-nil, if◌then◌else◌, Text, Option-cases, Bool-cases, inl, inr, length, ltb,
  leb, suc, zero, subst, byte_len, slice_to, slice_from, trim, take, arith,
}
use go_notes.Markdown.{body_without_frontmatter}
use go_notes.Chunk.{
  min_chars, Chunk, Event, start_code_block, end_code_block, start_heading, end_heading,
  start_paragraph, start_item, end_paragraph, end_item, text, code, soft_break, hard_break, other,
  Chunker, opening, flushed, flush, split_at_space, cut_head, cut_long, push_text,
}
use go_notes.Chunk.Mermaid.{extract_mermaid_labels}
use go_notes.Chunk.Steps.{
  in_prose, on_break, on_start_paragraph, on_end_code, on_prose_text, on_end_heading, split_off,
  after_drift, close_split, close_paragraph, on_end_paragraph, step, scan, and_then, closed,
  with_body, chunks_inner,
}

-- The second list goes on from the first.
abbrev pub Extends : List Chunk → List Chunk → Type 0
Extends older newer = (more : List Chunk) × (newer ≡ older ++ more)

Extends-refl : (o : List Chunk) → Extends o o
Extends-refl o = ([], sym (append-nil o))

Extends-trans : (a b c : List Chunk) → Extends a b → Extends b c → Extends a c
Extends-trans a b c (x, e) (y, f) = (x ++ y, f ∙ ap (λ u. u ++ y) e ∙ append_assoc a x y)

flushed-Extends : (t heading : Text) (out : List Chunk) → Extends out (flushed t heading out)
unfolding flushed
flushed-Extends t heading out = by_test (leb min_chars (length (trim t)))
  where
    by_test :
        (b : Bool)
        → Extends out (
            if b
            then out ++ record { ordinal = length out; heading = heading; body = trim t } ∷ []
            else out)
    by_test true = (_, refl)
    by_test false = Extends-refl out

on_end_heading-Extends : (s : Chunker) (h : Option ℕ) → Extends s.out (on_end_heading h s).out
on_end_heading-Extends s none = Extends-refl s.out
on_end_heading-Extends s (some level) = Extends-refl s.out

close_paragraph-Extends :
    (max_chars : ℕ) (s : Chunker) → Extends s.out (close_paragraph max_chars s).out
close_paragraph-Extends max_chars s = by_test (leb max_chars (length (s.current ++ 10 ∷ 10 ∷ [])))
  where
    by_test :
        (b : Bool)
        → Extends s.out
            (if b
              then flush (record s { current = s.current ++ 10 ∷ 10 ∷ [] })
              else record s { current = s.current ++ 10 ∷ 10 ∷ [] }).out
    by_test true = flushed-Extends _ s.heading_at_start s.out
    by_test false = Extends-refl s.out

-- What a step that returns has kept.
abbrev pub Keeps : List Chunk → Option Chunker → Type 0
Keeps out o = (s : Chunker) → o ≡ some s → Extends out s.out

some_state : {s t : Chunker} → some s ≡ some t → s ≡ t
some_state e = cc e

kept : (out : List Chunk) (s : Chunker) → Extends out s.out → Keeps out (some s)
kept out s h t e = subst (λ (u : Chunker). Extends out u.out) (some_state e) h

cut_long-Keeps : (fuel max_chars : ℕ) (s : Chunker) → Keeps s.out (cut_long fuel max_chars s)
unfolding cut_long
cut_long-Keeps zero max_chars s t q = by_test (ltb (max_chars * 2) (length s.current)) t q
  where
    by_test : (b : Bool) → Keeps s.out (if b then none else some s)
    by_test true t e = ground (arith, e)
    by_test false t e = kept s.out s (Extends-refl s.out) t e
cut_long-Keeps (suc fuel) max_chars s t q =
    elim (Bool-cases (ltb (max_chars * 2) (length s.current))) [
      | inl e ↦
          Extends-trans _ _ _
            (unfold cut_head in
              flushed-Extends (take (split_at_space s.current max_chars) s.current)
                s.heading_at_start s.out)
            (cut_long-Keeps fuel max_chars (cut_head max_chars s) t (rw e at q))
      | inr e ↦ kept s.out s (Extends-refl s.out) t (rw e at q)
    ]

on_prose_text-Keeps :
    (max_chars : ℕ) (t : Text) (s : Chunker) (h : Option ℕ)
    → Keeps s.out (on_prose_text max_chars t s h)
on_prose_text-Keeps max_chars t s (some _) = kept s.out _ (Extends-refl s.out)
on_prose_text-Keeps max_chars t s none = by_code s.in_code s.in_mermaid
  where
    by_code :
        (a b : Bool)
        → Keeps s.out (
            if a
            then some (if b then record s { mermaid_buffer = s.mermaid_buffer ++ t } else s)
            else push_text max_chars t s)
    by_code true true = kept s.out _ (Extends-refl s.out)
    by_code true false = kept s.out _ (Extends-refl s.out)
    by_code false b =
        cut_long-Keeps (length (s.current ++ t)) max_chars (record s { current = s.current ++ t })

close_split-Keeps :
    (max_chars : ℕ) (s : Chunker) (a b : Option Text)
    → Keeps s.out (close_split max_chars (split_off s a b))
close_split-Keeps max_chars s (some a) (some b) t e =
    kept s.out _
      (Extends-trans _ _ _ (flushed-Extends a s.heading_at_start s.out) (
        close_paragraph-Extends max_chars
          (record s { out = flushed a s.heading_at_start s.out; current = b })))
      t e
close_split-Keeps max_chars s (some a) none t e = ground (arith, e)
close_split-Keeps max_chars s none b t e = ground (arith, e)

after_drift-Keeps :
    (max_chars : ℕ) (s : Chunker) (o : Option Bool) → Keeps s.out (after_drift max_chars s o)
after_drift-Keeps max_chars s none t e = ground (arith, e)
after_drift-Keeps max_chars s (some true) t e =
    close_split-Keeps max_chars s (slice_to s.current s.paragraph_start)
      (slice_from s.current s.paragraph_start) t e
after_drift-Keeps max_chars s (some false) t e =
    kept s.out _ (close_paragraph-Extends max_chars s) t e

on_break-Extends : (s : Chunker) → Extends s.out (on_break s).out
on_break-Extends s = by_test (in_prose s)
  where
    by_test :
        (b : Bool)
        → Extends s.out (if b then record s { current = s.current ++ 32 ∷ [] } else s).out
    by_test true = Extends-refl s.out
    by_test false = Extends-refl s.out

on_start_paragraph-Extends : (s : Chunker) → Extends s.out (on_start_paragraph s).out
on_start_paragraph-Extends s = by_test (in_prose s)
  where
    by_test :
        (b : Bool)
        → Extends s.out (if b then record s { paragraph_start = byte_len s.current } else s).out
    by_test true = Extends-refl s.out
    by_test false = Extends-refl s.out

on_end_code-Extends : (s : Chunker) → Extends s.out (on_end_code s).out
on_end_code-Extends s = by_test s.in_mermaid
  where
    by_test :
        (b : Bool)
        → Extends s.out (
            if b
            then flushed (extract_mermaid_labels s.mermaid_buffer) s.heading_at_start s.out
            else s.out)
    by_test true = flushed-Extends _ s.heading_at_start s.out
    by_test false = Extends-refl s.out

module _ (is_alphanumeric : ℕ → Bool) (topic_drift : Bool) (max_chars : ℕ) where
  on_end_paragraph-Keeps :
      (s : Chunker) → Keeps s.out (on_end_paragraph is_alphanumeric topic_drift max_chars s)
  on_end_paragraph-Keeps s = by_test (in_prose s) _
    where
      by_test :
          (b : Bool) (o : Option Bool)
          → Keeps s.out (if b then after_drift max_chars s o else some s)
      by_test true o t e = after_drift-Keeps max_chars s o t e
      by_test false o t e = kept s.out s (Extends-refl s.out) t e

  step-Keeps :
      (e : Event) (s : Chunker) → Keeps s.out (step is_alphanumeric topic_drift max_chars e s)
  unfolding step
  step-Keeps (start_code_block kind) s =
      kept s.out _ (flushed-Extends s.current s.heading_at_start s.out)
  step-Keeps end_code_block s = kept s.out _ (on_end_code-Extends s)
  step-Keeps (start_heading level) s =
      kept s.out _ (flushed-Extends s.current s.heading_at_start s.out)
  step-Keeps end_heading s = kept s.out _ (on_end_heading-Extends s s.in_heading)
  step-Keeps start_paragraph s = kept s.out _ (on_start_paragraph-Extends s)
  step-Keeps start_item s = kept s.out _ (on_start_paragraph-Extends s)
  step-Keeps (text t) s = on_prose_text-Keeps max_chars t s s.in_heading
  step-Keeps (code t) s = on_prose_text-Keeps max_chars t s s.in_heading
  step-Keeps end_paragraph s = on_end_paragraph-Keeps s
  step-Keeps end_item s = on_end_paragraph-Keeps s
  step-Keeps soft_break s = kept s.out _ (on_break-Extends s)
  step-Keeps hard_break s = kept s.out _ (on_break-Extends s)
  step-Keeps other s = kept s.out s (Extends-refl s.out)

  scan-Keeps :
      (es : List Event) (s : Chunker)
      → Keeps s.out (scan is_alphanumeric topic_drift max_chars es s)
  unfolding scan
  scan-Keeps [] s t q = kept s.out s (Extends-refl s.out) t q
  scan-Keeps (e ∷ es) s t q = elim (Option-cases (step is_alphanumeric topic_drift max_chars e s)) [
    | inl n ↦ ground (arith, rw n at q)
    | inr (s', m) ↦ Extends-trans _ _ _ (step-Keeps e s s' m) (scan-Keeps es s' t (rw m at q))
  ]

  scan-append :
      (es fs : List Event) (s : Chunker)
      → scan is_alphanumeric topic_drift max_chars (es ++ fs) s
        ≡ and_then is_alphanumeric topic_drift max_chars
            (scan is_alphanumeric topic_drift max_chars fs)
            (scan is_alphanumeric topic_drift max_chars es s)
  unfolding scan
  scan-append [] fs s = refl
  scan-append (e ∷ es) fs s = elim (Option-cases (step is_alphanumeric topic_drift max_chars e s)) [
    | inl n ↦ rw n refl
    | inr (s', m) ↦ rw m (scan-append es fs s')
  ]

  closed-Extends :
      (s : Chunker) (o : Option Chunker) (out : List Chunk)
      → Keeps s.out o
      → closed is_alphanumeric topic_drift max_chars o ≡ some out
      → Extends s.out out
  closed-Extends s none out k e = ground (arith, e)
  closed-Extends s (some t) out k e =
      subst (λ u. Extends s.out u) (some_out e)
        (Extends-trans _ _ _ (k t refl) (flushed-Extends t.current t.heading_at_start t.out))
    where
      some_out : {x y : List Chunk} → some x ≡ some y → x ≡ y
      some_out e = cc e

-- The passages that are made by some point of a note stand at the front of what `chunks_inner` returns
-- for the note, whatever follows there, and whether drift is looked for or not.
pub chunks_inner-Extends :
    (is_alphanumeric : ℕ → Bool) (parse : Text → List Event) (markdown body : Text) (max_chars : ℕ)
    (topic_drift : Bool) (es fs : List Event) (s : Chunker) (out : List Chunk)
    → body_without_frontmatter markdown ≡ some body
    → parse body ≡ es ++ fs
    → scan is_alphanumeric topic_drift (max max_chars min_chars) es opening ≡ some s
    → chunks_inner is_alphanumeric parse markdown max_chars topic_drift ≡ some out
    → Extends s.out out
unfolding chunks_inner
chunks_inner-Extends is_alphanumeric parse markdown body max_chars topic_drift es fs s out b p q r =
    let m = max max_chars min_chars in
    let k : Keeps s.out (scan is_alphanumeric topic_drift m (parse body) opening) = rw p (
      rw (scan-append is_alphanumeric topic_drift m es fs opening)
        (rw q (scan-Keeps is_alphanumeric topic_drift m fs s))) in
    closed-Extends is_alphanumeric topic_drift m s
      (scan is_alphanumeric topic_drift m (parse body) opening) out k (unwrapped r)
  where
    unwrapped :
        chunks_inner is_alphanumeric parse markdown max_chars topic_drift ≡ some out
        → closed is_alphanumeric topic_drift max_chars
            (scan is_alphanumeric topic_drift (max max_chars min_chars) (parse body) opening)
          ≡ some out
    unwrapped r =
        subst
          (λ o.
            with_body
              (λ b.
                closed is_alphanumeric topic_drift max_chars
                  (scan is_alphanumeric topic_drift (max max_chars min_chars) (parse b) opening))
              o
            ≡ some out)
          b r
