-- ===== src/Markdown/Tests.antt =====
-- crates/server/src/markdown.rs at a concrete note.
use go_notes.Base.{Bool, [], ◌≤◌, ◌+◌, ◌-◌, ◌&&◌, ◌||◌, leb, ◌≡◌, Option, some, Text, codes, ℕ}
use go_notes.Markdown.{split_frontmatter}
use go_notes.Markdown.Scan.{Range, scan, scan_wiki_syntax}
use go_notes.Markdown.Found.{IsOpening}
use go_notes.Markdown.Spans.{IsApart, IsCovered, scan_wiki_syntax-IsApart}
use go_notes.Markdown.Frontmatter.{IsCut, split_frontmatter-IsCut}

abbrev note : Text
note = codes "---\ntags: a\n---\nThe body."

split_frontmatter-IsCut_example :
    (yaml : Option Text) × (body : Text) × (offset : ℕ) × (split_frontmatter note
      ≡ some (yaml, body, offset))
    × IsCut note yaml body offset
split_frontmatter-IsCut_example = split_frontmatter-IsCut note

abbrev is_letter : ℕ → Bool
is_letter c = (leb 97 c && leb c 122) || (leb 65 c && leb c 90)

-- An embed right behind a link, in a note without a block at its front.
abbrev linked : Text
linked = codes "See [[a]]![[is::b|c]] #tag"

abbrev whole : Range
whole = record { start = 0; stop = 26 }

scan_wiki_syntax-IsApart_example :
    ((n : ℕ)
      → 26 ≤ 0 + n
      → scan is_letter is_letter linked whole [] n 0
        ≡ scan is_letter is_letter linked whole [] (26 - 0) 0)
    × IsApart is_letter is_letter linked whole [] 0
        (scan_wiki_syntax is_letter is_letter linked whole []).0
    × ((x c : ℕ)
        → 0 ≤ x
        → IsOpening is_letter is_letter linked whole [] x c
        → IsCovered is_letter is_letter linked whole [] x
            (scan_wiki_syntax is_letter is_letter linked whole []).0)
scan_wiki_syntax-IsApart_example = scan_wiki_syntax-IsApart is_letter is_letter linked whole []
