-- ===== src/MeshConverter/Lines.antt =====
-- tools/mesh_converter/parsers/DFISEParser.cpp: the regular expressions for the lines of a file.
use allpix_fork.Base.{
  ℕ, ◌-◌, Bool, true, false, not, ◌&&◌, ◌||◌, Option, none, some, [], ◌∷◌, Str, codes, equal,
  is_alpha, is_space, is_alnum, all, length, take, drop, ◌==◌, if◌then◌else◌,
}

-- The longest prefix of bytes that pass a test, and the rest.
unfoldable pub span : (ℕ → Bool) → Str → Str × Str
span test [] = ([], [])
span test (c ∷ s) =
    let (word, rest) = span test s in if test c then (c ∷ word, rest) else ([], c ∷ s)

abbrev pub is_empty : Str → Bool
is_empty [] = true
is_empty (c ∷ s) = false

-- `([a-zA-Z]+) \{`.
unfoldable pub simple_header : Str → Option Str
unfolding span is_alpha equal
simple_header line =
    let (name, rest) = span is_alpha line in
    if not (is_empty name) && equal rest (codes " {") then some name else none

-- `([a-zA-Z]+) \((\S+)\) \{`, where the text in brackets ends before the last three bytes.
unfoldable pub header_data : Str → Option Str
unfolding equal is_space
header_data rest =
    let inner = drop 2 rest in
    let body = take (length inner - 3) inner in
    if equal (take 2 rest) (codes " (")
      && (equal (drop (length inner - 3) inner) (codes ") {")
          && (not (is_empty body) && all (λ c. not (is_space c)) body))
    then some body
    else none

abbrev name_with : Str → Option Str → Option (Str × Str)
name_with name none = none
name_with name (some body) = some (name, body)

unfoldable pub data_header : Str → Option (Str × Str)
unfolding span header_data is_alpha
data_header line =
    let (name, rest) = span is_alpha line in
    if is_empty name then none else name_with name (header_data rest)

-- `([a-zA-Z]+)\s+=\s+([\S ]+)`, before the value is trimmed.
abbrev value_part : Str → Option Str
value_part [] = none
value_part (c ∷ s) =
    let (blanks, value) = span is_space s in
    if c == b'='
      && (not (is_empty blanks)
          && (not (is_empty value) && all (λ b. not (is_space b) || b == b' ') value))
    then some value
    else none

unfoldable pub key_value : Str → Option (Str × Str)
unfolding span is_alpha is_space
key_value line =
    let (name, rest) = span is_alpha line in
    let (blanks, equation) = span is_space rest in
    if is_empty name || is_empty blanks then none else name_with name (value_part equation)

-- `[-\w\.]`.
abbrev is_region_byte : ℕ → Bool
is_region_byte c = is_alnum c || (c == b'_' || (c == b'-' || c == b'.'))

-- `\s+\]` to the end.
abbrev region_end : Str → Bool
region_end rest =
    let (blanks, bracket) = span is_space rest in not (is_empty blanks) && equal bracket (codes "]")

abbrev region_closed : Str → Str → Option Str
region_closed name [] = none
region_closed name (c ∷ rest) = if c == b'"' && region_end rest then some name else none

abbrev region_quoted : Str → Option Str
region_quoted [] = none
region_quoted (c ∷ s) =
    let (name, rest) = span is_region_byte s in
    if c == b'"' && not (is_empty name) then region_closed name rest else none

-- `\[\s+"([-\w\.]+)"\s+\]`.
unfoldable pub validity_region : Str → Option Str
unfolding span is_alnum is_space equal
validity_region [] = none
validity_region (c ∷ s) =
    let (blanks, rest) = span is_space s in
    if c == b'[' && not (is_empty blanks) then region_quoted rest else none
