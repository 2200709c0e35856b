-- ===== src/Paths/Sanitize.antt =====
-- `sanitize_component`: the making of a legal name from a title. The modules below prove what comes
-- out of it.
pub mod Cleaned
pub mod Names
use go_notes.Base.{
  ℕ, zero, suc, ◌+◌, Bool, true, false, ◌||◌, Option, none, some, [], ◌∷◌, ◌++◌, map, ltb, ◌==◌,
  if◌then◌else◌, Text, codes, ok, err, byte_len, same_text, contains, slice_to, trim_start,
  trim_end,
}
use go_notes.Paths.{Checked, is_control, illegal_chars, max_component_bytes, validate_component}

unfoldable pub replace_char : ℕ → ℕ
unfolding is_control
replace_char c =
    if is_control c || contains illegal_chars c || c == b'/' || c == b'\\' then b'-' else c

abbrev pub is_blank : ℕ → Bool
is_blank c = c == b' ' || c == b'.'

-- `while end > 0 && !is_char_boundary(end) { end -= 1 }; truncate(end)`
unfoldable pub truncate_floor : Text → ℕ → Text
truncate_floor s zero = []
truncate_floor s (suc end) = elim (slice_to s (suc end)) [
  | some a ↦ a
  | none ↦ truncate_floor s end
]

-- The name before the last check.
unfoldable pub cleaned : Text → Text
unfolding replace_char
cleaned input =
    let trimmed = trim_end is_blank (trim_start is_blank (map replace_char input)) in
    if ltb max_component_bytes (byte_len trimmed)
    then trim_end is_blank (truncate_floor trimmed max_component_bytes)
    else trimmed

-- What the verdict on the cleaned name makes of it.
abbrev pub finish : Text → Text → Checked → Text
finish result fallback (ok _) = result
finish result fallback (err _) = if same_text result [] then fallback else result ++ codes "-1"

unfoldable pub sanitize_component : Text → Text → Text
sanitize_component input fallback =
    let result = cleaned input in finish result fallback (validate_component result)
