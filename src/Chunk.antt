-- ===== src/Chunk.antt =====
-- crates/server/src/chunk.rs: the passages of a note that are embedded. The parser of Markdown is a
-- parameter: a note is its list of events. The cut of `split_at_space` stands at the boundary of a
-- character and is counted in characters; `paragraph_start` is in bytes. `none` is the panic of a
-- slice, or a loop that is not at its end when the fuel is.
pub mod Mermaid
pub mod Drift
pub mod Steps
pub mod Passages
pub mod Whole
pub mod Order
pub mod Panic
mod Tests
use go_notes.Base.{
  ℕ, zero, suc, ◌+◌, ◌-◌, ◌*◌, max, Bool, true, false, not, ◌&&◌, ◌||◌, Option, none, some, List,
  [], ◌∷◌, ◌++◌, map, filter, ltb, leb, ◌==◌, if◌then◌else◌, Text, codes, length, take, drop, trim,
  join_with,
}

abbrev pub min_chars : ℕ
min_chars = 80

abbrev pub default_chunk_chars : ℕ
default_chunk_chars = 1500

pub record Chunk : Type 0 where
  pub ordinal : ℕ
  pub heading : Text
  pub body : Text

unfoldable pub embedding_text : Chunk → Text
embedding_text c = elim (c.heading) [ [] ↦ c.body | h ∷ hs ↦ (h ∷ hs) ++ (10 ∷ 10 ∷ c.body) ]

-- The events of `pulldown_cmark` that the code tells apart. A code block has the language of its
-- fence, if it is fenced; a level is the number of a heading, from one.
pub data Event : Type 0 where
  start_code_block : Option Text → Event
  end_code_block : Event
  start_heading : (level : ℕ) → Event
  end_heading : Event
  start_paragraph start_item end_paragraph end_item : Event
  text code : Text → Event
  soft_break hard_break other : Event

-- The variables of the loop.
pub record Chunker : Type 0 where
  pub out : List Chunk
  pub headings : List (ℕ × Text)
  pub current : Text
  pub heading_at_start : Text
  pub in_code : Bool
  pub in_heading : Option ℕ
  pub heading_text : Text
  pub in_mermaid : Bool
  pub mermaid_buffer : Text
  pub paragraph_start : ℕ

abbrev pub opening : Chunker
opening = record {
  out = [];
  headings = [];
  current = [];
  heading_at_start = [];
  in_code = false;
  in_heading = none;
  heading_text = [];
  in_mermaid = false;
  mermaid_buffer = [];
  paragraph_start = 0;
}

-- What `flush` adds to the passages, for a text that is then cleared.
unfoldable pub flushed : Text → Text → List Chunk → List Chunk
unfolding trim
flushed passage heading out =
    if leb min_chars (length (trim passage))
    then out ++ record { ordinal = length out; heading = heading; body = trim passage } ∷ []
    else out

-- `flush` of `current`
abbrev pub flush : Chunker → Chunker
flush s = record s { out = flushed s.current s.heading_at_start s.out; current = [] }

-- The position behind the last space, if there is one.
unfoldable pub after_last_space : Text → Option ℕ
after_last_space [] = none
after_last_space (c ∷ s) = elim (after_last_space s) [
  | some i ↦ some (i + 1)
  | none ↦ if c == 32 then some 1 else none
]

abbrev pub or_cut : ℕ → Option ℕ → ℕ
or_cut cut none = cut
or_cut cut (some i) = i

unfoldable pub split_at_space : Text → ℕ → ℕ
unfolding after_last_space
split_at_space passage limit =
    let cut = if ltb limit (length passage) then limit else length passage in
    or_cut cut (after_last_space (take cut passage))

-- One round of the loop that cuts an overlong paragraph.
unfoldable pub cut_head : ℕ → Chunker → Chunker
unfolding flushed split_at_space
cut_head max_chars s =
    let head = split_at_space s.current max_chars in
    record s {
      out = flushed (take head s.current) s.heading_at_start s.out;
      current = drop head s.current;
      paragraph_start = 0;
    }

abbrev pub resume : Bool → (Chunker → Option Chunker) → Chunker → Chunker → Option Chunker
resume true go s' s = go s'
resume false go s' s = some s

-- That loop, on fuel; `none` where it would go on without any.
unfoldable pub cut_long : ℕ → ℕ → Chunker → Option Chunker
unfolding cut_head
cut_long zero max_chars s = if ltb (max_chars * 2) (length s.current) then none else some s
cut_long (suc fuel) max_chars s =
    resume (ltb (max_chars * 2) (length s.current)) (cut_long fuel max_chars) (cut_head max_chars s)
      s

-- A round takes at least one character away, so the characters of `current` are fuel enough.
abbrev pub push_text : ℕ → Text → Chunker → Option Chunker
push_text max_chars t s =
    cut_long (length (s.current ++ t)) max_chars (record s { current = s.current ++ t })

unfoldable pub heading_path : List (ℕ × Text) → Text
unfolding join_with
heading_path headings = join_with (codes " > ") (map (λ (h : ℕ × Text). h.1) headings)
