-- ===== src/Markdown.antt =====
-- crates/server/src/markdown.rs: the YAML block at the front of a note, and in Markdown.Scan its links
-- and tags. `none` is the panic of a slice.
pub mod Frontmatter
pub mod Scan
pub mod Closes
pub mod Found
pub mod Spans
mod Tests
use go_notes.Base.{
  ℕ, zero, suc, ◌+◌, ◌-◌, Bool, true, false, ◌||◌, Option, none, some, List, [], ◌∷◌, ◌++◌, ◌==◌,
  if◌then◌else◌, Text, codes, same_text, starts_with, trim_end, byte_len, slice_from, slice_to,
  length, drop,
}

-- `strip_prefix`
unfoldable pub strip_prefix : Text → Text → Option Text
unfolding starts_with
strip_prefix s prefix = if starts_with s prefix then some (drop (length prefix) s) else none

-- `split_inclusive`: every part but the last ends with the separator.
abbrev pub in_front : ℕ → List Text → List Text
in_front c [] = (c ∷ []) ∷ []
in_front c (p ∷ ps) = (c ∷ p) ∷ ps

unfoldable pub split_inclusive : Text → ℕ → List Text
split_inclusive [] sep = []
split_inclusive (c ∷ s) sep =
    let rest = split_inclusive s sep in if c == sep then (c ∷ []) ∷ rest else in_front c rest

abbrev pub is_line_end : ℕ → Bool
is_line_end c = c == 10 || c == 13

-- A line that closes the block.
unfoldable pub is_fence : Text → Bool
unfolding same_text trim_end
is_fence line =
    let trimmed = trim_end is_line_end line in
    same_text trimmed (codes "---") || same_text trimmed (codes "...")

-- The YAML, the body and the byte offset of the body.
abbrev pub Parts : Type 0
Parts = Option Text × Text × ℕ

abbrev pub as_parts : ℕ → Option Text → Option Text → Option Parts
as_parts body_start none body = none
as_parts body_start (some yaml) none = none
as_parts body_start (some yaml) (some body) = some (some yaml, body, body_start)

-- The loop over the lines behind the opening fence.
unfoldable pub find_fence : (content rest : Text) (offset : ℕ) → List Text → Option Parts
unfolding is_fence byte_len slice_to slice_from
find_fence content rest offset [] = some (none, content, 0)
find_fence content rest offset (line ∷ ls) =
    let later = find_fence content rest (offset + byte_len line) ls in
    let body_start = (byte_len content - byte_len rest) + offset + byte_len line in
    if is_fence line
    then as_parts body_start (slice_to rest offset) (slice_from content body_start)
    else later

abbrev pub opened : Text → Option Text → Option Parts
opened content none = some (none, content, 0)
opened content (some rest) = find_fence content rest 0 (split_inclusive rest 10)

abbrev pub or_else : Option Text → Option Text → Option Text
or_else none o = o
or_else (some s) o = some s

unfoldable pub split_frontmatter : Text → Option Parts
unfolding strip_prefix find_fence split_inclusive
split_frontmatter content =
    opened content
      (or_else (strip_prefix content (codes "---\n")) (strip_prefix content (codes "---\r\n")))

abbrev pub body_of : Option Parts → Option Text
body_of none = none
body_of (some (yaml, body, offset)) = some body

unfoldable pub body_without_frontmatter : Text → Option Text
unfolding split_frontmatter
body_without_frontmatter content = body_of (split_frontmatter content)
