-- ===== src/Chunk/Whole.antt =====
-- The whole of `chunks`, with the drift heuristic off: it returns, and what the passages are like.
use go_notes.Base.{
  ℕ, ◌*◌, ◌≤◌, max, ◌≡◌, refl, Bool, true, false, some, List, [], ◌∷◌, if◌then◌else◌, Text, All,
  length, arith,
}
use go_notes.Markdown.{body_without_frontmatter}
use go_notes.Markdown.Frontmatter.{body_without_frontmatter-Returns}
use go_notes.Chunk.{
  min_chars, Chunk, Event, start_code_block, end_code_block, start_heading, end_heading,
  start_paragraph, start_item, end_paragraph, end_item, text, code, soft_break, hard_break, other,
  Chunker, opening, flush,
}
use go_notes.Chunk.Steps.{
  is_mermaid, in_prose, close_paragraph, on_end_paragraph, step, scan, closed, chunks_inner, chunks,
}
use go_notes.Chunk.Passages.{
  IsNumbered, IsLong, IsSound, IsReady, LeadsTo, Suits, empty_fine, flush-IsReady, on_text-IsReady,
  close_paragraph-IsReady, on_break-IsReady, on_end_code-IsReady, on_end_heading-IsReady,
  on_start_paragraph-IsReady,
}

module _ (is_alphanumeric : ℕ → Bool) (Q : Text → Type 0) (max_chars : ℕ)
    (short : (t : Text) → length t ≤ max_chars * 2 → Q t) (p : 1 ≤ max_chars) where
  on_end_paragraph-IsReady :
      (s : Chunker) → IsReady Q s → LeadsTo Q (on_end_paragraph is_alphanumeric false max_chars s)
  on_end_paragraph-IsReady s r = by_test (in_prose s)
    where
      by_test : (b : Bool) → LeadsTo Q (if b then some (close_paragraph max_chars s) else some s)
      by_test true =
          (close_paragraph max_chars s, refl, close_paragraph-IsReady Q max_chars short s r)
      by_test false = (s, refl, r)

  step-IsReady :
      (e : Event) (s : Chunker)
      → Suits Q e
      → IsReady Q s
      → LeadsTo Q (step is_alphanumeric false max_chars e s)
  unfolding step
  step-IsReady (start_code_block kind) s h r =
      let f = flush-IsReady Q max_chars short s r in
      (_, refl, record { sound = f.sound; passage = f.passage; diagram = h })
  step-IsReady end_code_block s h r = (_, refl, on_end_code-IsReady Q max_chars short s r)
  step-IsReady (start_heading level) s h r =
      let f = flush-IsReady Q max_chars short s r in
      (_, refl, record { sound = f.sound; passage = f.passage; diagram = f.diagram })
  step-IsReady end_heading s h r =
      (_, refl, on_end_heading-IsReady Q max_chars short s s.in_heading r)
  step-IsReady start_paragraph s h r = (_, refl, on_start_paragraph-IsReady Q max_chars short s r)
  step-IsReady start_item s h r = (_, refl, on_start_paragraph-IsReady Q max_chars short s r)
  step-IsReady (text t) s h r = on_text-IsReady Q max_chars short t s p r
  step-IsReady (code t) s h r = on_text-IsReady Q max_chars short t s p r
  step-IsReady end_paragraph s h r = on_end_paragraph-IsReady s r
  step-IsReady end_item s h r = on_end_paragraph-IsReady s r
  step-IsReady soft_break s h r = (_, refl, on_break-IsReady Q max_chars short s r)
  step-IsReady hard_break s h r = (_, refl, on_break-IsReady Q max_chars short s r)
  step-IsReady other s h r = (s, refl, r)

  scan-IsReady :
      (es : List Event) (s : Chunker)
      → All (Suits Q) es
      → IsReady Q s
      → LeadsTo Q (scan is_alphanumeric false max_chars es s)
  unfolding scan
  scan-IsReady [] s h r = (s, refl, r)
  scan-IsReady (e ∷ es) s (h, hs) r =
      let (s', q, r') = step-IsReady e s h r in rw q (scan-IsReady es s' hs r')

  opening-IsReady : IsReady Q opening
  opening-IsReady = record {
    sound = record { numbered = tt; long = tt; fine = tt };
    passage = empty_fine Q max_chars short;
    diagram = λ e t. ground (arith, e);
  }

  pub scanned :
      (es : List Event)
      → All (Suits Q) es
      → (out : List Chunk) × (closed is_alphanumeric false max_chars
            (scan is_alphanumeric false max_chars es opening)
          ≡ some out)
        × IsSound Q out
  scanned es h =
      let (s, q, r) = scan-IsReady es opening h opening-IsReady in
      ((flush s).out, rw q refl, (flush-IsReady Q max_chars short s r).sound)

abbrev Anything : Text → Type 0
Anything t = Unit

All-suit : (es : List Event) → All (Suits Anything) es
All-suit [] = tt
All-suit (e ∷ es) = (suits e, All-suit es)
  where
    suits : (e : Event) → Suits Anything e
    suits (start_code_block kind) = λ _ _. tt
    suits end_code_block = tt
    suits (start_heading level) = tt
    suits end_heading = tt
    suits start_paragraph = tt
    suits start_item = tt
    suits (text t) = tt
    suits (code t) = tt
    suits end_paragraph = tt
    suits end_item = tt
    suits soft_break = tt
    suits hard_break = tt
    suits other = tt

-- For every note `chunks` returns, without a panic and with every loop at its end: the passages are
-- numbered from zero in their order, and each has at least eighty characters.
pub chunks-IsNumbered :
    (is_alphanumeric : ℕ → Bool) (parse : Text → List Event) (markdown : Text) (max_chars : ℕ)
    → (out : List Chunk) × (chunks is_alphanumeric parse markdown max_chars ≡ some out)
      × IsNumbered 0 out
      × All IsLong out
unfolding chunks chunks_inner
chunks-IsNumbered is_alphanumeric parse markdown max_chars =
    let (body, q) = body_without_frontmatter-Returns markdown in
    let (out, e, s) =
      scanned is_alphanumeric Anything (max max_chars min_chars) (λ _ _. tt) (omega arith)
        (parse body) (All-suit (parse body)) in
    (out, rw q e, s.numbered, s.long)

-- No event opens a diagram.
abbrev pub IsPlain : Event → Type 0
IsPlain (start_code_block kind) = is_mermaid kind ≡ false
IsPlain _ = Unit

-- At most twice the cap, which is at least eighty.
abbrev pub Fits : ℕ → Text → Type 0
Fits max_chars t = length t ≤ max max_chars min_chars * 2

plain_suit : (max_chars : ℕ) (es : List Event) → All IsPlain es → All (Suits (Fits max_chars)) es
plain_suit max_chars [] h = tt
plain_suit max_chars (start_code_block kind ∷ es) (e, h) =
    ((λ q t. ground (arith, e, q)), plain_suit max_chars es h)
plain_suit max_chars (end_code_block ∷ es) (_, h) = (tt, plain_suit max_chars es h)
plain_suit max_chars (start_heading level ∷ es) (_, h) = (tt, plain_suit max_chars es h)
plain_suit max_chars (end_heading ∷ es) (_, h) = (tt, plain_suit max_chars es h)
plain_suit max_chars (start_paragraph ∷ es) (_, h) = (tt, plain_suit max_chars es h)
plain_suit max_chars (start_item ∷ es) (_, h) = (tt, plain_suit max_chars es h)
plain_suit max_chars (text t ∷ es) (_, h) = (tt, plain_suit max_chars es h)
plain_suit max_chars (code t ∷ es) (_, h) = (tt, plain_suit max_chars es h)
plain_suit max_chars (end_paragraph ∷ es) (_, h) = (tt, plain_suit max_chars es h)
plain_suit max_chars (end_item ∷ es) (_, h) = (tt, plain_suit max_chars es h)
plain_suit max_chars (soft_break ∷ es) (_, h) = (tt, plain_suit max_chars es h)
plain_suit max_chars (hard_break ∷ es) (_, h) = (tt, plain_suit max_chars es h)
plain_suit max_chars (other ∷ es) (_, h) = (tt, plain_suit max_chars es h)

-- In a note without a diagram no passage has more than twice the characters of the cap, which counts
-- as eighty where it is less.
pub chunks_bounded :
    (is_alphanumeric : ℕ → Bool) (parse : Text → List Event) (markdown body : Text) (max_chars : ℕ)
    → body_without_frontmatter markdown ≡ some body
    → All IsPlain (parse body)
    → (out : List Chunk) × (chunks is_alphanumeric parse markdown max_chars ≡ some out)
      × All (λ (c : Chunk). Fits max_chars c.body) out
unfolding chunks chunks_inner
chunks_bounded is_alphanumeric parse markdown body max_chars q h =
    let (out, e, s) =
      scanned is_alphanumeric (Fits max_chars) (max max_chars min_chars) (λ t q. q) (omega arith)
        (parse body) (plain_suit max_chars (parse body) h) in
    (out, rw q e, s.fine)
