-- ===== src/Chunk/Steps.antt =====
-- `chunks_inner`: what each event does, and the loop over the events.
use go_notes.Base.{
  ℕ, max, Bool, true, false, not, ◌&&◌, Option, none, some, List, [], ◌∷◌, ◌++◌, filter, ltb, leb,
  if◌then◌else◌, Text, length, trim, byte_len, slice_to, slice_from,
}
use go_notes.Markdown.{body_without_frontmatter}
use go_notes.Chunk.{
  min_chars, Chunk, Event, start_code_block, end_code_block, start_heading, end_heading,
  start_paragraph, start_item, end_paragraph, end_item, text, code, soft_break, hard_break, other,
  Chunker, opening, flushed, flush, cut_long, push_text, heading_path,
}
use go_notes.Chunk.Mermaid.{is_mermaid_language, extract_mermaid_labels}
use go_notes.Chunk.Drift.{topic_drift_enabled, is_empty, drift_boundary}

abbrev pub is_mermaid : Option Text → Bool
is_mermaid none = false
is_mermaid (some language) = is_mermaid_language language

-- Neither in code nor in a heading.
abbrev pub in_prose : Chunker → Bool
in_prose s = not s.in_code && elim (s.in_heading) [ none ↦ true | some _ ↦ false ]

abbrev pub on_start_code : Option Text → Chunker → Chunker
on_start_code kind s = record (flush s) {
  in_code = true;
  in_mermaid = is_mermaid kind;
  mermaid_buffer = [];
}

abbrev pub on_end_code : Chunker → Chunker
on_end_code s = record s {
  in_code = false;
  out =
      if s.in_mermaid
      then flushed (extract_mermaid_labels s.mermaid_buffer) s.heading_at_start s.out
      else s.out;
  in_mermaid = false;
}

abbrev pub on_start_heading : ℕ → Chunker → Chunker
on_start_heading level s = record (flush s) { in_heading = some level; heading_text = [] }

-- The headings once one of a level has ended.
unfoldable pub next_headings : ℕ → Text → List (ℕ × Text) → List (ℕ × Text)
unfolding trim
next_headings level heading_text headings =
    let kept = filter (λ (h : ℕ × Text). ltb h.0 level) headings in
    if is_empty (trim heading_text) then kept else kept ++ (level, trim heading_text) ∷ []

abbrev pub on_end_heading : Option ℕ → Chunker → Chunker
on_end_heading none s = s
on_end_heading (some level) s =
    let headings = next_headings level s.heading_text s.headings in
    record s { in_heading = none; headings = headings; heading_at_start = heading_path headings }

abbrev pub on_start_paragraph : Chunker → Chunker
on_start_paragraph s = if in_prose s then record s { paragraph_start = byte_len s.current } else s

-- Text in code is kept in a diagram only.
abbrev pub on_prose_text : ℕ → Text → Chunker → Option ℕ → Option Chunker
on_prose_text max_chars t s (some _) = some (record s { heading_text = s.heading_text ++ t })
on_prose_text max_chars t s none =
    if s.in_code
    then some (if s.in_mermaid then record s { mermaid_buffer = s.mermaid_buffer ++ t } else s)
    else push_text max_chars t s

abbrev pub on_text : ℕ → Text → Chunker → Option Chunker
on_text max_chars t s = on_prose_text max_chars t s s.in_heading

abbrev pub on_break : Chunker → Chunker
on_break s = if in_prose s then record s { current = s.current ++ 32 ∷ [] } else s

-- The paragraph that has ended becomes the start of a passage of its own.
abbrev pub split_off : Chunker → Option Text → Option Text → Option Chunker
split_off s (some head) (some tail) =
    some (record s { out = flushed head s.heading_at_start s.out; current = tail })
split_off s (some head) none = none
split_off s none tail = none

abbrev pub close_paragraph : ℕ → Chunker → Chunker
close_paragraph max_chars s =
    let s' = record s { current = s.current ++ 10 ∷ 10 ∷ [] } in
    if leb max_chars (length s'.current) then flush s' else s'

abbrev pub close_split : ℕ → Option Chunker → Option Chunker
close_split max_chars none = none
close_split max_chars (some s) = some (close_paragraph max_chars s)

abbrev pub after_drift : ℕ → Chunker → Option Bool → Option Chunker
after_drift max_chars s none = none
after_drift max_chars s (some true) =
    close_split max_chars
      (split_off s (slice_to s.current s.paragraph_start) (slice_from s.current s.paragraph_start))
after_drift max_chars s (some false) = some (close_paragraph max_chars s)

-- The letters and digits, the cap, and whether drift is looked for.
module _ (is_alphanumeric : ℕ → Bool) (topic_drift : Bool) (max_chars : ℕ) where
  abbrev pub on_end_paragraph : Chunker → Option Chunker
  on_end_paragraph s =
      if in_prose s
      then after_drift max_chars s (
          if topic_drift
          then drift_boundary is_alphanumeric s.current s.paragraph_start s.heading_at_start
              max_chars
          else some false)
      else some s

  unfoldable pub step : Event → Chunker → Option Chunker
  unfolding drift_boundary flushed cut_long next_headings heading_path extract_mermaid_labels
      is_mermaid_language
  step (start_code_block kind) s = some (on_start_code kind s)
  step end_code_block s = some (on_end_code s)
  step (start_heading level) s = some (on_start_heading level s)
  step end_heading s = some (on_end_heading s.in_heading s)
  step start_paragraph s = some (on_start_paragraph s)
  step start_item s = some (on_start_paragraph s)
  step (text t) s = on_text max_chars t s
  step (code t) s = on_text max_chars t s
  step end_paragraph s = on_end_paragraph s
  step end_item s = on_end_paragraph s
  step soft_break s = some (on_break s)
  step hard_break s = some (on_break s)
  step other s = some s

  abbrev pub and_then : (Chunker → Option Chunker) → Option Chunker → Option Chunker
  and_then go none = none
  and_then go (some s) = go s

  -- The loop over the events.
  unfoldable pub scan : List Event → Chunker → Option Chunker
  unfolding step
  scan [] s = some s
  scan (e ∷ es) s = and_then (scan es) (step e s)

  abbrev pub closed : Option Chunker → Option (List Chunk)
  closed none = none
  closed (some s) = some ((flush s).out)

-- The value of a call that can panic, used by what comes after it.
abbrev pub with_body : (Text → Option (List Chunk)) → Option Text → Option (List Chunk)
with_body go none = none
with_body go (some body) = go body

-- `parse` is the parser, over the body of the note.
unfoldable pub chunks_inner :
    (is_alphanumeric : ℕ → Bool)
    → (parse : Text → List Event) → Text
    → ℕ
    → Bool
    → Option (List Chunk)
unfolding scan flushed body_without_frontmatter
chunks_inner is_alphanumeric parse markdown max_chars topic_drift =
    with_body
      (λ body.
        closed is_alphanumeric topic_drift max_chars
          (scan is_alphanumeric topic_drift (max max_chars min_chars) (parse body) opening))
      (body_without_frontmatter markdown)

unfoldable pub chunks : (ℕ → Bool) → (Text → List Event) → Text → ℕ → Option (List Chunk)
unfolding chunks_inner
chunks is_alphanumeric parse markdown max_chars =
    chunks_inner is_alphanumeric parse markdown max_chars topic_drift_enabled
