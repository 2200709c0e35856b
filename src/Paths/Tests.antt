-- ===== src/Paths/Tests.antt =====
-- crates/shared/src/paths.rs at concrete paths.
use go_notes.Base.{
  ◌≡◌, refl, ◌≢◌, ◌≤◌, ◌↔◌, inr, true, false, ◌++◌, Option, some, [], ◌∷◌, Text, codes, ok, arith,
  same_text, byte_len, contains, split, member, encode, starts_with, to_ascii_lowercase, split_once,
  ends_with, All, trim_start, trim_end,
}
use go_notes.Paths.{
  max_path_bytes, validate_component, validate_rel_path, validate_folder_path, join, rebase,
  is_reserved, scan_chars, check_edges, validate_components, is_control,
}
use go_notes.Paths.Rules.{IsComponent}
use go_notes.Paths.Whole.{validate_rel_path_iff}
use go_notes.Paths.Within.{Rebased, rebase-Rebased, rebase-rebase}
use go_notes.Paths.Sanitize.{sanitize_component, cleaned, replace_char}
use go_notes.Paths.Sanitize.Names.{sanitize_component_valid, sanitize_component_refused}

abbrev budget : Text
budget = codes "Projects/Budget.md"

budget_accepted : validate_rel_path budget ≡ ok tt
unfolding validate_rel_path validate_components validate_component scan_chars check_edges
    is_reserved is_control same_text byte_len encode starts_with contains split member
    to_ascii_lowercase split_once ends_with
budget_accepted = refl

projects_accepted : validate_folder_path (codes "Projects") ≡ ok tt
unfolding validate_folder_path validate_rel_path validate_components validate_component scan_chars
    check_edges is_reserved is_control same_text byte_len encode starts_with contains split member
    to_ascii_lowercase split_once ends_with
projects_accepted = refl

name_accepted : validate_component (codes "Budget.md") ≡ ok tt
unfolding validate_component scan_chars check_edges is_reserved is_control same_text byte_len encode
    starts_with contains split member to_ascii_lowercase split_once ends_with
name_accepted = refl

untitled_accepted : validate_component (codes "untitled") ≡ ok tt
unfolding validate_component scan_chars check_edges is_reserved is_control same_text byte_len encode
    starts_with contains split member to_ascii_lowercase split_once ends_with
untitled_accepted = refl

validate_rel_path_iff_example :
    (validate_rel_path budget ≡ ok tt)
    ↔ ((byte_len budget ≤ max_path_bytes) × All IsComponent (split budget b'/'))
validate_rel_path_iff_example = validate_rel_path_iff budget

budget_short : byte_len (join (codes "Projects") (codes "Budget.md")) ≤ max_path_bytes
unfolding byte_len encode join same_text
budget_short = omega arith

no_slash : contains (codes "Budget.md") b'/' ≡ false
unfolding contains
no_slash = refl

rebase-Rebased_example :
    (o : Option Text) × (rebase budget (codes "Projects") (codes "Archive") ≡ some o)
    × Rebased (codes "Projects") (codes "Archive") budget o
rebase-Rebased_example =
    rebase-Rebased (codes "Projects") (codes "Archive") budget (λ e. ground (arith, e))

rebase-rebase_example :
    (q : Text) × (rebase (codes "Projects" ++ b'/' ∷ codes "a.md") (codes "Projects") (codes "Old")
      ≡ some (some q))
    × (rebase q (codes "Old") (codes "Projects")
        ≡ some (some (codes "Projects" ++ b'/' ∷ codes "a.md")))
rebase-rebase_example =
    rebase-rebase (codes "Projects") (codes "Old") (codes "a.md") (λ e. ground (arith, e))
      (λ e. ground (arith, e))

-- A title with a colon and a trailing dot.
abbrev title : Text
title = codes "a:b."

cleaned_title : cleaned title ≡ codes "a-b"
unfolding cleaned replace_char is_control trim_start trim_end contains byte_len encode
cleaned_title = refl

title_not_reserved : is_reserved (cleaned title) ≡ false
unfolding is_reserved member to_ascii_lowercase split_once same_text cleaned replace_char is_control
    trim_start trim_end contains byte_len encode
title_not_reserved = refl

title_kept : cleaned title ≢ []
unfolding cleaned replace_char is_control trim_start trim_end contains byte_len encode
title_kept e = ground (arith, e)

sanitize_component_valid_example :
    validate_component (sanitize_component title (codes "untitled")) ≡ ok tt
sanitize_component_valid_example =
    sanitize_component_valid title (codes "untitled") untitled_accepted (inr title_not_reserved)

device_reserved : is_reserved (cleaned (codes "con.txt")) ≡ true
unfolding is_reserved member to_ascii_lowercase split_once same_text cleaned replace_char is_control
    trim_start trim_end contains byte_len encode
device_reserved = refl

device_dotted : contains (cleaned (codes "con.txt")) b'.' ≡ true
unfolding cleaned replace_char is_control trim_start trim_end contains byte_len encode
device_dotted = refl

sanitize_component_refused_example :
    validate_component (sanitize_component (codes "con.txt") (codes "untitled")) ≢ ok tt
sanitize_component_refused_example =
    sanitize_component_refused (codes "con.txt") (codes "untitled") device_reserved device_dotted
