-- ===== src/Paths.antt =====
-- crates/shared/src/paths.rs: the syntactic rules for vault-relative paths. The definitions stand
-- here; the modules below prove what they guarantee.
pub mod Sanitize
pub mod Whole
pub mod Rules
pub mod Within
mod Tests
use go_notes.Base.{
  ℕ, ◌+◌, Bool, true, false, not, ◌&&◌, ◌||◌, Option, none, some, List, [], ◌∷◌, ◌++◌, ltb, leb,
  ◌==◌, if◌then◌else◌, Text, codes, Result, ok, err, ◌>>◌, get_elem?, encode, byte_len, same_text,
  starts_with, contains, ends_with, split, split_once, rsplit_once, slice_from, to_ascii_lowercase,
  member,
}

abbrev pub max_component_bytes : ℕ
max_component_bytes = 200

abbrev pub max_path_bytes : ℕ
max_path_bytes = 1024

pub data PathError : Type 0 where
  empty too_long absolute backslash empty_component dot_component parent_component : PathError
  control_character : PathError
  illegal_character : ℕ → PathError
  leading_dot leading_or_trailing_space trailing_dot component_too_long reserved_name : PathError
  not_markdown : PathError

abbrev pub Checked : Type 0
Checked = Result PathError (Unit {0})

abbrev pub illegal_chars : Text
illegal_chars = codes "<>:\"|?*"

abbrev pub reserved_stems : List Text
reserved_stems =
    codes "con"
    ∷ codes "prn"
    ∷ codes "aux"
    ∷ codes "nul"
    ∷ codes "com1"
    ∷ codes "com2"
    ∷ codes "com3"
    ∷ codes "com4"
    ∷ codes "com5"
    ∷ codes "com6"
    ∷ codes "com7"
    ∷ codes "com8"
    ∷ codes "com9"
    ∷ codes "lpt1"
    ∷ codes "lpt2"
    ∷ codes "lpt3"
    ∷ codes "lpt4"
    ∷ codes "lpt5"
    ∷ codes "lpt6"
    ∷ codes "lpt7"
    ∷ codes "lpt8"
    ∷ codes "lpt9"
    ∷ []

-- `char::is_control`, the general category Cc
unfoldable pub is_control : ℕ → Bool
is_control c = ltb c 0x20 || (leb 0x7f c && leb c 0x9f)

-- The loop over the characters of a component.
unfoldable pub scan_chars : Text → Checked
unfolding is_control
scan_chars [] = ok tt
scan_chars (c ∷ s) =
    let rest = scan_chars s in
    if is_control c
    then err control_character
    else if contains illegal_chars c
    then err (illegal_character c)
    else if c == b'/'
    then err empty_component
    else if c == b'\\'
    then err backslash
    else rest

-- The part before the first dot, or the whole name, in lower case.
abbrev head_or : Text → Option (Text × Text) → Text
head_or s none = s
head_or s (some (a, _)) = a

unfoldable pub is_reserved : Text → Bool
is_reserved component =
    member (to_ascii_lowercase (head_or component (split_once component b'.'))) reserved_stems

-- The tests that follow the loop.
unfoldable pub check_edges : Text → Checked
check_edges component =
    if starts_with component (codes ".")
    then err leading_dot
    else if starts_with component (codes " ") || ends_with component b' '
    then err leading_or_trailing_space
    else if ends_with component b'.'
    then err trailing_dot
    else if is_reserved component
    then err reserved_name
    else ok tt

unfoldable pub validate_component : Text → Checked
validate_component component =
    if same_text component []
    then err empty_component
    else if ltb max_component_bytes (byte_len component)
    then err component_too_long
    else if same_text component (codes ".")
    then err dot_component
    else if same_text component (codes "..")
    then err parent_component
    else (do scan_chars component; check_edges component)

-- `for component in path.split('/')`
unfoldable pub validate_components : List Text → Checked
validate_components [] = ok tt
validate_components (c ∷ cs) = do validate_component c; validate_components cs

unfoldable pub validate_rel_path : Text → Checked
validate_rel_path path =
    if same_text path []
    then err empty
    else if ltb max_path_bytes (byte_len path)
    then err too_long
    else if starts_with path (codes "/")
    then err absolute
    else if contains path b'\\'
    then err backslash
    else validate_components (split path b'/')

unfoldable pub validate_folder_path : Text → Checked
validate_folder_path path = if same_text path [] then ok tt else validate_rel_path path

unfoldable pub basename : Text → Text
basename path = elim (rsplit_once path b'/') [ none ↦ path | some (_, name) ↦ name ]

unfoldable pub parent_of : Text → Text
parent_of path = elim (rsplit_once path b'/') [ none ↦ [] | some (parent, _) ↦ parent ]

-- `ends_with(".md")`: the text is something followed by the three characters.
unfoldable pub ends_with_text : Text → Text → Bool
ends_with_text [] t = same_text [] t
ends_with_text (c ∷ s) t = same_text (c ∷ s) t || ends_with_text s t

unfoldable pub has_md_extension : Text → Bool
unfolding basename
has_md_extension path =
    let name = basename path in
    ltb 3 (byte_len name) && ends_with_text (to_ascii_lowercase name) (codes ".md")

unfoldable pub validate_note_path : Text → Checked
validate_note_path path = do
  validate_rel_path path
  if not (has_md_extension path) then err not_markdown else ok tt

unfoldable pub stem : Text → Text
unfolding basename
stem path =
    let name = basename path in
    elim (rsplit_once name b'.') [
      | none ↦ name
      | some (s, _) ↦ if not (same_text s []) then s else name
    ]

unfoldable pub join : Text → Text → Text
join parent component = if same_text parent [] then component else parent ++ b'/' ∷ component

unfoldable pub title_from_path : Text → Text
unfolding stem
title_from_path path = stem path

abbrev is_byte : ℕ → Option ℕ → Bool
is_byte b none = false
is_byte b (some c) = c == b

unfoldable pub is_within : Text → Text → Bool
is_within path folder =
    if same_text folder []
    then true
    else ltb (byte_len folder) (byte_len path)
      && starts_with path folder
      && is_byte b'/' (get_elem? (encode path) (byte_len folder))

-- The outer `none` is a panic of the slice.
unfoldable pub rebase : Text → Text → Text → Option (Option Text)
rebase path from to =
    if same_text path from
    then some (some to)
    else if is_within path from
    then elim (slice_from path (byte_len from + 1)) [
      | none ↦ none
      | some rest ↦ some (some (join to rest))
    ]
    else some none
