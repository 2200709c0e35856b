-- ===== src/Chunk/Mermaid.antt =====
-- `is_mermaid_language` and `extract_mermaid_labels`: the labels of a diagram without its syntax.
use go_notes.Base.{
  Bool, false, ◌||◌, List, [], ◌∷◌, ◌++◌, map, ◌==◌, if◌then◌else◌, Text, codes, same_text, member,
  to_ascii_lowercase, trim, split_whitespace, join_with, blank_out, contains,
}
use go_notes.Diff.{lines}

unfoldable pub is_mermaid_language : Text → Bool
unfolding same_text to_ascii_lowercase trim
is_mermaid_language language = same_text (to_ascii_lowercase (trim language)) (codes "mermaid")

abbrev pub mermaid_declarations : List Text
mermaid_declarations =
    codes "graph"
    ∷ codes "flowchart"
    ∷ codes "sequencediagram"
    ∷ codes "classdiagram"
    ∷ codes "statediagram"
    ∷ codes "statediagram-v2"
    ∷ codes "gantt"
    ∷ codes "gitgraph"
    ∷ codes "erdiagram"
    ∷ codes "journey"
    ∷ codes "pie"
    ∷ codes "mindmap"
    ∷ codes "timeline"
    ∷ codes "c4context"
    ∷ codes "c4container"
    ∷ codes "c4component"
    ∷ codes "c4dynamic"
    ∷ codes "c4deployment"
    ∷ []

abbrev pub mermaid_directions : List Text
mermaid_directions = codes "td" ∷ codes "tb" ∷ codes "lr" ∷ codes "rl" ∷ codes "bt" ∷ []

abbrev pub mermaid_arrows : List Text
mermaid_arrows =
    codes "-.->"
    ∷ codes "==>"
    ∷ codes "-->>"
    ∷ codes "->>"
    ∷ codes "--x"
    ∷ codes "--)"
    ∷ codes "-.-"
    ∷ codes "..>"
    ∷ codes "-->"
    ∷ codes "---"
    ∷ codes "->"
    ∷ codes "--"
    ∷ []

-- The line without a declaration at its front.
abbrev pub undeclared : Text → List Text → Text
undeclared line [] = line
undeclared line (first ∷ words) =
    if member (to_ascii_lowercase first) mermaid_declarations
    then join_with (codes " ") words
    else line

abbrev pub is_direction : List Text → Bool
is_direction (only ∷ []) = member (to_ascii_lowercase only) mermaid_directions
is_direction _ = false

abbrev pub blank_arrows : List Text → Text → Text
blank_arrows [] line = line
blank_arrows (a ∷ as') line = blank_arrows as' (blank_out a 0 line)

-- The pipe, then the brackets and the quote, become spaces.
abbrev pub blank_marks : Text → Text
blank_marks line =
    map (λ c. if contains (codes "[](){}\"") c then 32 else c)
      (map (λ c. if c == b'|' then 32 else c) line)

abbrev pub cleaned_line : Text → Text
cleaned_line line =
    join_with (codes " ") (split_whitespace (blank_marks (blank_arrows mermaid_arrows line)))

-- What one line of the source adds.
unfoldable pub label_of : Text → List Text
unfolding trim split_whitespace member to_ascii_lowercase join_with blank_out contains same_text
label_of raw_line =
    let whole = trim raw_line in
    let line = undeclared whole (split_whitespace whole) in
    let cleaned = cleaned_line line in
    if same_text whole []
      || is_direction (split_whitespace line)
      || same_text (trim line) []
      || same_text cleaned []
    then []
    else cleaned ∷ []

abbrev pub labels : List Text → List Text
labels [] = []
labels (l ∷ ls) = label_of l ++ labels ls

unfoldable pub extract_mermaid_labels : Text → Text
unfolding lines label_of join_with
extract_mermaid_labels source = join_with (10 ∷ []) (labels (lines source))
