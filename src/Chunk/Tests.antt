-- ===== src/Chunk/Tests.antt =====
-- crates/server/src/chunk.rs at concrete notes.
use go_notes.Base.{
  ℕ, ◌≡◌, refl, Bool, true, false, ◌&&◌, ◌||◌, none, some, List, [], ◌∷◌, ◌++◌, leb, Text, codes,
  All, arith, max, starts_with, same_text, trim_end, byte_len, encode, encode_char, slice_to,
  slice_from, trim, trim_start, is_whitespace,
}
use go_notes.Markdown.{
  body_without_frontmatter, split_frontmatter, find_fence, split_inclusive, strip_prefix, is_fence,
}
use go_notes.Chunk.{
  min_chars, Chunk, Event, start_paragraph, end_paragraph, start_heading, end_heading, text,
  Chunker, opening, flushed, cut_long, heading_path, after_last_space,
}
use go_notes.Chunk.Drift.{drift_boundary}
use go_notes.Chunk.Mermaid.{extract_mermaid_labels, is_mermaid_language}
use go_notes.Chunk.Steps.{chunks_inner, chunks, scan, step, next_headings}
use go_notes.Chunk.Passages.{IsNumbered, IsLong}
use go_notes.Chunk.Whole.{Fits, chunks-IsNumbered, chunks_bounded}
use go_notes.Chunk.Order.{Extends, chunks_inner-Extends}
use go_notes.Chunk.Panic.{note_events, chunks_inner_panics}

abbrev is_letter : ℕ → Bool
is_letter c = (leb 97 c && leb c 122) || (leb 65 c && leb c 90)

-- A note that is one paragraph.
abbrev one_paragraph : Text → List Event
one_paragraph body = start_paragraph ∷ text body ∷ end_paragraph ∷ []

abbrev note : Text
note =
    codes
      "---\ntags: a\n---\nThe boiler is serviced every spring, and the number of the firm is on the label."

abbrev note_body : Text
note_body = codes "The boiler is serviced every spring, and the number of the firm is on the label."

note-body : body_without_frontmatter note ≡ some note_body
unfolding body_without_frontmatter split_frontmatter find_fence split_inclusive strip_prefix
    is_fence starts_with same_text trim_end byte_len encode encode_char slice_to slice_from
note-body = refl

chunks-IsNumbered_example :
    (out : List Chunk) × (chunks is_letter one_paragraph note 200 ≡ some out)
    × IsNumbered 0 out
    × All IsLong out
chunks-IsNumbered_example = chunks-IsNumbered is_letter one_paragraph note 200

chunks_bounded_example :
    (out : List Chunk) × (chunks is_letter one_paragraph note 200 ≡ some out)
    × All (λ (c : Chunk). Fits 200 c.body) out
chunks_bounded_example =
    chunks_bounded is_letter one_paragraph note note_body 200 note-body (tt, (tt, (tt, tt)))

-- The same paragraph twice, with a heading between.
abbrev first_half : Text → List Event
first_half body = start_paragraph ∷ text body ∷ end_paragraph ∷ start_heading 1 ∷ []

abbrev second_half : Text → List Event
second_half body = end_heading ∷ start_paragraph ∷ text body ∷ end_paragraph ∷ []

abbrev two_sections : Text → List Event
two_sections body = first_half body ++ second_half body

abbrev at_heading : Chunker
at_heading = record opening {
  out = record { ordinal = 0; heading = []; body = note_body } ∷ [];
  in_heading = some 1;
}

abbrev two_passages : List Chunk
two_passages =
    record { ordinal = 0; heading = []; body = note_body }
    ∷ record { ordinal = 1; heading = []; body = note_body }
    ∷ []

half_scanned :
    scan is_letter false (max 200 min_chars) (first_half note_body) opening ≡ some at_heading
unfolding scan step drift_boundary flushed cut_long next_headings heading_path
    extract_mermaid_labels is_mermaid_language trim trim_end trim_start is_whitespace byte_len
    encode encode_char after_last_space
half_scanned = refl

both_passages : chunks_inner is_letter two_sections note 200 false ≡ some two_passages
unfolding chunks_inner scan step drift_boundary flushed cut_long next_headings heading_path
    extract_mermaid_labels is_mermaid_language trim trim_end trim_start is_whitespace byte_len
    encode encode_char after_last_space body_without_frontmatter split_frontmatter find_fence
    split_inclusive strip_prefix is_fence starts_with same_text slice_to slice_from
both_passages = refl

chunks_inner-Extends_example : Extends at_heading.out two_passages
chunks_inner-Extends_example =
    chunks_inner-Extends is_letter two_sections note note_body 200 false (first_half note_body)
      (second_half note_body) at_heading two_passages note-body refl half_scanned both_passages

-- A paragraph and a list item that is a block of code.
abbrev with_code : Text → List Event
with_code body = note_events body none (codes "cargo run\n" ∷ []) []

chunks_inner_panics_example : chunks_inner is_letter with_code note 200 true ≡ none
chunks_inner_panics_example =
    chunks_inner_panics is_letter with_code note note_body note_body none (codes "cargo run\n" ∷ [])
      [] 200 note-body refl (omega arith)
