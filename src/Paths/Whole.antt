-- ===== src/Paths/Whole.antt =====
-- Whole paths: what `validate_rel_path` accepts, how `join` keeps it, and what `basename` and
-- `parent_of` take apart.
use go_notes.Base.{
  ℕ, ◌≤◌, ◌≡◌, refl, sym, ◌∙◌, ◌≢◌, ◌↔◌, inl, inr, true, false, none, some, List, [], ◌∷◌, ◌++◌,
  arith, ltb, ◌==◌, Text, codes, byte_len, same_text, same_text_iff, starts_with, starts_with-cons,
  contains, split, split-join, split_whole, rsplit_once, rsplit_once_last, rsplit_once_sound,
  rsplit_once-none, ok, All, Bool-cases, ==_iff, any, any-split,
}
use go_notes.Paths.{
  validate_component, validate_components, validate_rel_path, validate_folder_path,
  validate_note_path, has_md_extension, basename, parent_of, join, max_path_bytes,
}
use go_notes.Paths.Rules.{
  IsNameChar, IsComponent, same_false, validate_component_sound, validate_component_iff,
}

abbrev pub Accepted : Text → Type 0
Accepted c = validate_component c ≡ ok tt

components_sound : (cs : List Text) → validate_components cs ≡ ok tt → All IsComponent cs
unfolding validate_components
components_sound [] h = tt
components_sound (c ∷ cs) h =
    (validate_component_sound c (ground arith), components_sound cs (ground arith))

components_complete : (cs : List Text) → All IsComponent cs → validate_components cs ≡ ok tt
unfolding validate_components
components_complete [] h = refl
components_complete (c ∷ cs) (g, h) = rw ((validate_component_iff c).1 g) (components_complete cs h)

lacks_backslash : (s : Text) → All IsNameChar s → contains s b'\\' ≡ false
unfolding contains
lacks_backslash [] g = refl
lacks_backslash (c ∷ s) (g, h) = ground (arith, g.not_backslash, lacks_backslash s h)

lacks_slash : (s : Text) → All IsNameChar s → contains s b'/' ≡ false
unfolding contains
lacks_slash [] g = refl
lacks_slash (c ∷ s) (g, h) = ground (arith, g.not_slash, lacks_slash s h)

parts_lack : (cs : List Text) → All IsComponent cs → any (λ p. contains p b'\\') cs ≡ false
parts_lack [] h = refl
parts_lack (c ∷ cs) (g, h) = rw (lacks_backslash c g.chars, parts_lack cs h)

no_backslash : (p : Text) → All IsComponent (split p b'/') → contains p b'\\' ≡ false
no_backslash p h = rw (← any-split b'/' b'\\' p refl) (parts_lack (split p b'/') h)

slash_first : (q : Text) → All IsComponent (split (b'/' ∷ q) b'/') → ⊥
unfolding split
slash_first q g = g.0.named refl

no_part : All IsComponent (split [] b'/') → ⊥
unfolding split
no_part g = g.0.named refl

not_absolute : (p : Text) → All IsComponent (split p b'/') → starts_with p (codes "/") ≡ false
not_absolute [] h = unfold starts_with in refl
not_absolute (c ∷ p) h = elim (Bool-cases (c == b'/')) [
  | inl e ↦ absurd (slash_first p (rw ((==_iff c b'/').0 e) at h))
  | inr e ↦ rw starts_with-cons e
]

not_empty : (p : Text) → All IsComponent (split p b'/') → same_text p [] ≡ false
not_empty [] h = absurd (no_part h)
not_empty (c ∷ p) h = unfold same_text in refl

-- A path is accepted exactly when it has at most 1024 bytes and every part between slashes is a
-- component: none is empty, hidden, `.` or `..`. So a path cannot be absolute or climb out of the vault.
pub validate_rel_path_iff :
    (p : Text)
    → (validate_rel_path p ≡ ok tt)
      ↔ ((byte_len p ≤ max_path_bytes) × All IsComponent (split p b'/'))
validate_rel_path_iff p = (
  λ h. (
    unfold validate_rel_path in ground arith,
    components_sound _ (unfold validate_rel_path in ground arith),
  ),
  λ (short, parts).
      unfold validate_rel_path in
      rw
        (not_empty p parts, not_over (byte_len p) short, not_absolute p parts, no_backslash p parts)
        (components_complete _ parts),
)
  where
    not_over : (n : ℕ) → n ≤ max_path_bytes → ltb max_path_bytes n ≡ false
    not_over n h = ground arith

All-append :
    (cs ds : List Text) → All IsComponent cs → All IsComponent ds → All IsComponent (cs ++ ds)
All-append [] ds h k = k
All-append (c ∷ cs) ds (g, h) k = (g, All-append cs ds h k)

-- Joining a component to an accepted folder, the root included, gives an accepted path, as long as
-- the whole has at most 1024 bytes.
pub validate_rel_path-join :
    (parent component : Text)
    → validate_folder_path parent ≡ ok tt
    → validate_component component ≡ ok tt
    → byte_len (join parent component) ≤ max_path_bytes
    → validate_rel_path (join parent component) ≡ ok tt
unfolding join validate_folder_path
validate_rel_path-join parent component hp hc short = elim (Bool-cases (same_text parent [])) [
  | inl root ↦
      let e : join parent component ≡ component = rw root in
      (validate_rel_path_iff (join parent component)).1 (
        short,
        rw
            (
              e,
              split_whole b'/' component
                  (lacks_slash component (validate_component_sound component hc).chars),
            )
            (validate_component_sound component hc, tt),
      )
  | inr deep ↦
      let e : join parent component ≡ parent ++ b'/' ∷ component = rw deep in
      let parts : All IsComponent (split parent b'/') =
        ((validate_rel_path_iff parent).0 (ground arith)).1 in
      (validate_rel_path_iff (join parent component)).1 (
        short,
        rw
            (
              e,
              split-join b'/' parent component,
              split_whole b'/' component
                  (lacks_slash component (validate_component_sound component hc).chars),
            )
            (All-append _ (component ∷ []) parts (validate_component_sound component hc, tt)),
      )
]

taken_none : (p : Text) → rsplit_once p b'/' ≡ none → (basename p ≡ p) × (parent_of p ≡ [])
unfolding basename parent_of
taken_none p e = ground (arith, e)

taken_some :
    (p a b : Text) → rsplit_once p b'/' ≡ some (a, b) → (basename p ≡ b) × (parent_of p ≡ a)
unfolding basename parent_of
taken_some p a b e = ground (arith, e)

-- `basename` and `parent_of` take apart what `join` put together, for a name without a slash.
pub basename-join :
    (parent name : Text)
    → contains name b'/' ≡ false
    → (basename (join parent name) ≡ name) × (parent_of (join parent name) ≡ parent)
unfolding join
basename-join parent name h = elim (Bool-cases (same_text parent [])) [
  | inl root ↦ rw root (
    (taken_none name (rsplit_once-none name b'/' h)).0,
    (taken_none name (rsplit_once-none name b'/' h)).1 ∙ sym ((same_text_iff parent []).0 root),
  )
  | inr deep ↦ rw deep (taken_some _ parent name (rsplit_once_last parent name b'/' h))
]

parent_named : (p a b : Text) → validate_rel_path p ≡ ok tt → p ≡ a ++ b'/' ∷ b → a ≢ []
parent_named p a b h e root =
    let q : p ≡ b'/' ∷ b = rw root at e in
    slash_first b (rw q at (((validate_rel_path_iff p).0 h).1))

-- Joining the parent of an accepted path with its basename gives the path back.
pub join-basename : (p : Text) → validate_rel_path p ≡ ok tt → join (parent_of p) (basename p) ≡ p
join-basename p h = elim (rsplit_once_sound p b'/') [
  | inl (e, _) ↦
      let (name, parent) = taken_none p e in rw (name, parent) (unfold join same_text in refl)
  | inr (a, b, e, spelt, _) ↦
      let (name, parent) = taken_some p a b e in
      rw (name, parent)
        (unfold join in rw (same_false a [] (parent_named p a b h spelt)) (sym spelt))
]

-- An accepted note path is an accepted path whose last component is more than the ending `.md`, in
-- any case of its letters.
pub validate_note_path_iff :
    (p : Text)
    → (validate_note_path p ≡ ok tt) ↔ ((validate_rel_path p ≡ ok tt) × (has_md_extension p ≡ true))
unfolding validate_note_path
validate_note_path_iff p = ground arith
