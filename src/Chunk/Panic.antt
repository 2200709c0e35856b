-- ===== src/Chunk/Panic.antt =====
-- The drift heuristic on a list item that holds a code block.
use go_notes.Base.{
  ℕ, zero, suc, ◌+◌, ◌*◌, ◌≤◌, ◌<◌, max, ◌≡◌, refl, sym, subst, Bool, true, false, Option, none,
  some, List, [], ◌∷◌, ◌++◌, map, if◌then◌else◌, Text, length, length-append, byte_len,
  byte_len-append, encode, slice_to, slice_from, ltb, leb, arith, trim, trim_start, trim_end,
}
use go_notes.Markdown.{body_without_frontmatter}
use go_notes.Chunk.{
  min_chars, Event, start_code_block, end_code_block, start_paragraph, start_item, end_paragraph,
  end_item, text, other, Chunker, opening, cut_long, push_text,
}
use go_notes.Chunk.Drift.{drift_boundary}
use go_notes.Chunk.Steps.{
  in_prose, on_prose_text, on_start_code, on_end_code, step, scan, chunks_inner,
}

cut_long_short :
    (fuel max_chars : ℕ) (s : Chunker)
    → length s.current ≤ max_chars * 2
    → cut_long fuel max_chars s ≡ some s
unfolding cut_long
cut_long_short zero max_chars s h =
    let e : ltb (max_chars * 2) (length s.current) ≡ false = ground arith in rw e refl
cut_long_short (suc fuel) max_chars s h =
    let e : ltb (max_chars * 2) (length s.current) ≡ false = ground arith in rw e refl

-- At the start of the text no drift is found.
drift_boundary_start :
    (p : ℕ → Bool) (t heading : Text) (max_chars : ℕ)
    → drift_boundary p t 0 heading max_chars ≡ some false
unfolding drift_boundary slice_to slice_from trim trim_start trim_end
drift_boundary_start p t heading max_chars = refl

drift_boundary_past :
    (p : ℕ → Bool) (n : ℕ) (heading : Text) (max_chars : ℕ)
    → 0 < n
    → drift_boundary p [] n heading max_chars ≡ none
unfolding drift_boundary slice_to slice_from
drift_boundary_past p zero heading max_chars h = elim h [ ]
drift_boundary_past p (suc n) heading max_chars h = refl

-- A paragraph, then a list whose item is a code block and nothing else, as a parser reports them; the
-- code is a list of texts.
abbrev pub note_events : Text → Option Text → List Text → List Event → List Event
note_events t kind inside rest =
    start_paragraph
      ∷ text t
      ∷ end_paragraph
      ∷ other
      ∷ start_item
      ∷ start_code_block kind
      ∷ map text inside
    ++ end_code_block ∷ end_item ∷ rest

module _ (p : ℕ → Bool) (m : ℕ) where
  passes :
      (e : Event) (es : List Event) (s s' : Chunker) (o : Option Chunker)
      → step p true m e s ≡ some s'
      → scan p true m es s' ≡ o
      → scan p true m (e ∷ es) s ≡ o
  unfolding scan
  passes e es s s' o h k = rw h k

  item_panics :
      (s : Chunker) (es : List Event)
      → in_prose s ≡ true
      → s.current ≡ []
      → 0 < s.paragraph_start
      → scan p true m (end_item ∷ es) s ≡ none
  unfolding scan step
  item_panics s es i c b =
      let e : drift_boundary p s.current s.paragraph_start s.heading_at_start m ≡ none =
        rw c (drift_boundary_past p s.paragraph_start s.heading_at_start m b) in
      rw i (rw e refl)

  -- What the text of a code block leaves as it was.
  record InBlock (s : Chunker) : Type 0 where
    in_block : s.in_code ≡ true
    no_heading : s.in_heading ≡ none
    cleared : s.current ≡ []
    behind : 0 < s.paragraph_start

  code_step :
      (t : Text) (s : Chunker)
      → InBlock s
      → (s' : Chunker) × (step p true m (text t) s ≡ some s') × InBlock s'
  unfolding step
  code_step t s b =
      subst (λ h. (s' : Chunker) × (on_prose_text m t s h ≡ some s') × InBlock s')
        (sym b.no_heading)
        (subst (λ c. (s' : Chunker) × (in_text c ≡ some s') × InBlock s') (sym b.in_block)
          (by_diagram s.in_mermaid))
    where
      in_text : Bool → Option Chunker
      in_text c =
          if c
          then some
              (if s.in_mermaid then record s { mermaid_buffer = s.mermaid_buffer ++ t } else s)
          else push_text m t s

      by_diagram :
          (d : Bool)
          → (s' : Chunker) × (some
                (if d then record s { mermaid_buffer = s.mermaid_buffer ++ t } else s)
              ≡ some s')
            × InBlock s'
      by_diagram true = (
        _,
        refl,
        record {
          in_block = b.in_block;
          no_heading = b.no_heading;
          cleared = b.cleared;
          behind = b.behind;
        },
      )
      by_diagram false = (s, refl, b)

  block_panics :
      (inside : List Text) (es : List Event) (s : Chunker)
      → InBlock s
      → scan p true m (map text inside ++ end_code_block ∷ end_item ∷ es) s ≡ none
  unfolding step
  block_panics [] es s b =
      passes end_code_block _ s (on_end_code s) none refl
        (item_panics (on_end_code s) es (rw b.no_heading refl) b.cleared b.behind)
  block_panics (t ∷ inside) es s b =
      let (s', e, b') = code_step t s b in
      passes (text t) _ s s' none e (block_panics inside es s' b')

  text_step :
      (t : Text)
      → length t ≤ m * 2
      → step p true m (text t) opening ≡ some (record opening { current = t })
  unfolding step
  text_step t h = cut_long_short (length t) m (record opening { current = t }) h

  paragraph_step :
      (t : Text)
      → leb m (length (t ++ 10 ∷ 10 ∷ [])) ≡ false
      → step p true m end_paragraph (record opening { current = t })
        ≡ some (record opening { current = t ++ 10 ∷ 10 ∷ [] })
  unfolding step
  paragraph_step t l = rw l refl

  note_panics :
      (t : Text) (kind : Option Text) (inside : List Text) (rest : List Event)
      → length t + 2 < m
      → scan p true m (note_events t kind inside rest) opening ≡ none
  unfolding step byte_len encode
  note_panics t kind inside rest h =
      let ended = t ++ 10 ∷ 10 ∷ [] in
      let l : leb m (length ended) ≡ false = ground (arith, length-append t (10 ∷ 10 ∷ [])) in
      let b : 0 < byte_len ended =
        unfold byte_len in omega (arith, byte_len-append t (10 ∷ 10 ∷ []), line_ends) in
      let s = record opening { current = ended } in
      let item = record s { paragraph_start = byte_len ended } in
      let block = on_start_code kind item in
      passes start_paragraph _ opening opening none refl (
        passes (text t) _ opening (record opening { current = t }) none (text_step t (omega arith))
          (passes end_paragraph _ (record opening { current = t }) s none (paragraph_step t l)
            (passes other _ s s none refl (
              passes start_item _ s item none refl (
                passes (start_code_block kind) _ item block none refl (
                  block_panics inside rest block (record {
                    in_block = refl;
                    no_heading = refl;
                    cleared = refl;
                    behind = b;
                  })))))))
    where
      line_ends : byte_len (10 ∷ 10 ∷ []) ≡ 2
      line_ends = refl

-- With the drift heuristic on, a note that begins with a paragraph of one text, shorter than the cap by
-- more than two characters, and then a list whose first item is a code block and nothing else, makes
-- `chunks_inner` panic, whatever the code and whatever follows: the block clears the buffer, and the end
-- of the item cuts it at the position where the item began.
pub chunks_inner_panics :
    (is_alphanumeric : ℕ → Bool) (parse : Text → List Event) (markdown body t : Text)
    (kind : Option Text) (inside : List Text) (rest : List Event) (max_chars : ℕ)
    → body_without_frontmatter markdown ≡ some body
    → parse body ≡ note_events t kind inside rest
    → length t + 2 < max max_chars min_chars
    → chunks_inner is_alphanumeric parse markdown max_chars true ≡ none
unfolding chunks_inner
chunks_inner_panics is_alphanumeric parse markdown body t kind inside rest max_chars q p h =
    let e = note_panics is_alphanumeric (max max_chars min_chars) t kind inside rest h in
    rw q (rw p (rw e refl))
