-- ===== src/Config/Reader/Sections.antt =====
-- src/core/config/ConfigReader.cpp: the configurations that the reader makes of the sections of a text.
use allpix_fork.Base.{
  ℕ, ◌+◌, ◌≡◌, refl, sym, ap, ◌∙◌, true, false, List, [], ◌∷◌, ◌++◌, inl, inr, arith, Option, none,
  some, ◌==◌, if◌then◌else◌, Bool-cases, Result-cases, map, Str, lower, is_alnum, append_assoc, ok,
  bind-eq-ok, Option-cases, append-nil,
}
use allpix_fork.Text.{trim}
use allpix_fork.Config.{Configuration, FileSystem, new, set_text, assign}
use allpix_fork.Config.Reader.{
  ConfigReader, empty, add_configuration, Reading, read_trimmed, read_line, read_lines, lines,
  close_last, canonical_name, add_named, add, get_configurations, scan_header, add_previous,
  setting_line, header_line, is_name_byte,
}
use allpix_fork.Config.Reader.Comments.{differ}
use allpix_fork.Config.Reader.Line.{parse_key_value}
use allpix_fork.Config.Reader.Index.{lower_name, matching, get_configurations-matching}
use allpix_fork.Config.Reader.Contents.{
  Content, nothing, header, setting, name_in, pair_of, content_of, FileSection, titled,
  with_setting, sections_of, is_blank, counted, file_sections, with_name, section_of,
}

map-matching :
    (n : Str) (cs : List Configuration)
    → map section_of (matching lower_name n cs) ≡ with_name n (map section_of cs)
map-matching n [] = refl
map-matching n (c ∷ cs) = ground (arith, map-matching n cs)

map-concat {ℓ κ} :
    {A : Type ℓ} {B : Type κ} (f : A → B) (xs ys : List A) → map f (xs ++ ys) ≡ map f xs ++ map f ys
map-concat f [] ys = refl
map-concat f (x ∷ xs) ys = ap (◌∷◌ (f x)) (map-concat f xs ys)

abbrev unless_blank : FileSection → List FileSection
unless_blank b = if is_blank b then [] else b ∷ []

counted-sections_of :
    (f : Str) (b c : FileSection) (cs : List Content)
    → counted (b ∷ sections_of f c cs) ≡ unless_blank b ++ counted (sections_of f c cs)
counted-sections_of f b c [] = ground arith
counted-sections_of f b c (nothing ∷ cs) = counted-sections_of f b c cs
counted-sections_of f b c (header name ∷ cs) = ground arith
counted-sections_of f b c (setting e ∷ cs) = counted-sections_of f b (with_setting c e) cs

abbrev arranged : ConfigReader → List FileSection
arranged r = map section_of r.conf_array

arranged-add_configuration :
    (r : ConfigReader) (c : Configuration)
    → arranged (add_configuration r c) ≡ arranged r ++ (section_of c ∷ [])
unfolding add_configuration
arranged-add_configuration r c = map-concat section_of r.conf_array (c ∷ [])

arranged-add_previous :
    (s : Reading)
    → arranged (add_previous s) ≡ arranged s.reader ++ unless_blank (section_of s.conf)
arranged-add_previous s =
    ground (arith, arranged-add_configuration s.reader s.conf, append-nil (arranged s.reader))

-- What a line does, by its content.
abbrev Follows : Str → Reading → Reading → Content → Type 0
Follows f s t nothing =
    (arranged t.reader ≡ arranged s.reader) × (section_of t.conf ≡ section_of s.conf)
Follows f s t (header name) =
    (arranged t.reader ≡ arranged (add_previous s)) × (section_of t.conf ≡ titled name f)
Follows f s t (setting e) =
    (arranged t.reader ≡ arranged s.reader)
    × (section_of t.conf ≡ with_setting (section_of s.conf) e)

name_byte-bracket : (c : ℕ) → is_name_byte c ≡ true → (c == b']') ≡ false
unfolding is_alnum
name_byte-bracket c h = differ is_name_byte c b']' refl h

-- A scan that stops at the bracket has read the name in front of it.
scan_header-name_in :
    (line name remain : Str) (stop : ℕ)
    → scan_header line ≡ some (name, stop, remain)
    → (stop == b']') ≡ true
    → name_in line ≡ name
unfolding scan_header
scan_header-name_in [] name remain stop h e = cc
scan_header-name_in (c ∷ []) name remain stop h e = ground arith
scan_header-name_in (c ∷ d ∷ s) name remain stop h e = elim (Bool-cases (is_name_byte c)) [
  | inl k ↦ elim (Option-cases (scan_header (d ∷ s))) [
    | inl x ↦ absurd (ground arith)
    | inr ((name', stop', remain'), x) ↦
        ground (arith, name_byte-bracket c k, scan_header-name_in (d ∷ s) name' remain' stop' x)
  ]
  | inr k ↦ ground arith
]

begin-Follows :
    (f : Str) (s t : Reading) (line : Str) (h : Option (Str × ℕ × Str))
    → scan_header line ≡ h
    → header_line f s h ≡ ok t
    → Follows f s t (header (name_in line))
unfolding assign
begin-Follows f s t line none e k = cc
begin-Follows f s t line (some (name, stop, remain)) e k =
    ground (arith, scan_header-name_in line name remain stop e)

setting-Follows :
    (f : Str) (s t : Reading) (line : Str)
    → setting_line f s line ≡ ok t
    → Follows f s t (pair_of (parse_key_value line))
unfolding set_text
setting-Follows f s t line h = elim (Result-cases (parse_key_value line)) [
  | inl (e, k) ↦ rw k (ground arith)
  | inr (e, k) ↦ ground arith
]

read_trimmed-Follows :
    (f : Str) (s t : Reading) (line : Str)
    → read_trimmed f s line ≡ ok t
    → Follows f s t (content_of line)
unfolding read_trimmed
read_trimmed-Follows f s t [] h = ground arith
read_trimmed-Follows f s t (c ∷ line) h = elim (Bool-cases (c == b'#')) [
  | inl a ↦ rw a (ground arith)
  | inr a ↦ elim (Bool-cases (c == b'[')) [
    | inl b ↦ rw (a, b) (begin-Follows f s t line (scan_header line) refl (ground arith))
    | inr b ↦ rw (a, b) (setting-Follows f s t (c ∷ line) (ground arith))
  ]
]

abbrev finished : Str → Reading → List Content → List FileSection
finished f s cs = arranged s.reader ++ counted (sections_of f (section_of s.conf) cs)

finished-step :
    (f : Str) (s t : Reading) (c : Content) (cs : List Content)
    → Follows f s t c
    → finished f t cs ≡ finished f s (c ∷ cs)
finished-step f s t nothing cs (r, e) = rw (r, e) refl
finished-step f s t (header name) cs (r, e) =
    rw (r, e, arranged-add_previous s, counted-sections_of f (section_of s.conf) (titled name f) cs)
      (append_assoc (arranged s.reader) (unless_blank (section_of s.conf))
        (counted (sections_of f (titled name f) cs)))
finished-step f s t (setting p) cs (r, e) = rw (r, e) refl

read_lines-finished :
    (f : Str) (ls : List Str) (s t : Reading)
    → read_lines f s ls ≡ ok t
    → finished f t [] ≡ finished f s (map (λ line. content_of (trim line)) ls)
unfolding read_lines read_line
read_lines-finished f [] s t h = ground arith
read_lines-finished f (l ∷ ls) s t h =
    let (u, e, k) = bind-eq-ok (read_line f s l) (λ u. read_lines f u ls) h in
    read_lines-finished f ls u t k
    ∙ finished-step f (record s { line_num = s.line_num + 1 }) u (content_of (trim l))
        (map (λ line. content_of (trim line)) ls)
        (read_trimmed-Follows f (record s { line_num = s.line_num + 1 }) u (trim l) e)

add_named-file_sections :
    (d : ConfigReader) (stream f : Str)
    → add_named empty stream f ≡ ok d
    → arranged d ≡ file_sections f stream
unfolding add_named
add_named-file_sections d stream f h =
    let begun : Reading = record { reader = empty; conf = new [] f; line_num = 0 } in
    let (s, e, k) = bind-eq-ok (read_lines f begun (lines stream)) close_last h in
    let same : add_configuration s.reader s.conf ≡ d = ground arith in
    ap arranged (sym same)
    ∙ arranged-add_configuration s.reader s.conf
    ∙ read_lines-finished f (lines stream) begun s e

-- When an empty reader has read a file without an error, the configurations under a name are the sections
-- of the file that have this name in any case of the letters, in the order of the file, with the
-- canonical path and their settings: those below the header (or, for the section without a name that
-- opens the file, above the first one), the last one under a key. A section without a name and
-- settings does not count unless it is the last of the file.
pub get_configurations-file_sections :
    (fs : FileSystem) (d : ConfigReader) (stream file_name n : Str)
    → add fs empty stream file_name ≡ ok d
    → (f : Str) × (canonical_name fs file_name ≡ ok f)
      × (map section_of (get_configurations d n) ≡ with_name (map lower n) (file_sections f stream))
unfolding add
get_configurations-file_sections fs d stream file_name n h =
    let (f, e, k) = bind-eq-ok (canonical_name fs file_name) (add_named empty stream) h in
    (
      f,
      e,
      ap (map section_of) (get_configurations-matching fs d stream file_name n (unfold add in h))
          ∙ map-matching (map lower n) d.conf_array
          ∙ ap (with_name (map lower n)) (add_named-file_sections d stream f k),
    )
