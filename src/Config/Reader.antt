-- ===== src/Config/Reader.antt =====
-- src/core/config/ConfigReader.cpp: reading sections of keys and values from a text.
pub mod Line
pub mod Comments
pub mod Accepted
pub mod KeyValue
pub mod Contents
pub mod Index
pub mod Lines
pub mod Sections
mod Tests
use mathlib.Core.Option.{map as option_map}
use allpix_fork.Base.{
  ℕ, zero, suc, ◌+◌, Bool, true, false, not, ◌&&◌, ◌||◌, List, [], ◌∷◌, ◌++◌, map, Option, none,
  some, ◌==◌, ltb, if◌then◌else◌, Str, Dict, lookup, insert, contains, equal, lower, is_alpha,
  is_alnum, find, front, length, take, drop, all, Result, ok, err, ◌>>=◌, ◌>>◌, throw_if, catch,
  Error, key_value_parse_error, config_parse_error, out_of_range, filesystem_error, key_not_valid,
  value_is_empty, missing_equality_sign,
}
use allpix_fork.Text.{trim, is_empty, is_quote}
use allpix_fork.Config.{Configuration, FileSystem, new, assign, set_text, merge, at}
use allpix_fork.Config.Reader.Line.{parse_key_value}

-- `conf_map_` holds iterators into `conf_array_`, which only grows at its end: positions stand for them.
pub record ConfigReader : Type 0 where
  pub conf_array : List Configuration
  pub conf_map : Dict (List ℕ)

abbrev pub empty : ConfigReader
empty = record { conf_array = []; conf_map = [] }

-- `conf_map_[name]`, which is empty where the key is new.
abbrev pub entry {ℓ} : {A : Type ℓ} → Option (List A) → List A
entry none = []
entry (some is) = is

abbrev pub push_entry : Str → ℕ → Dict (List ℕ) → Dict (List ℕ)
push_entry name i m = insert name (entry (lookup name m) ++ (i ∷ [])) m

-- `addConfiguration`.
unfoldable pub add_configuration : ConfigReader → Configuration → ConfigReader
add_configuration r config = record {
  conf_array = r.conf_array ++ (config ∷ []);
  conf_map = push_entry (map lower config.name) (length r.conf_array) r.conf_map;
}

-- `copy_init_map`: the loop over the array, from position `i`.
unfoldable pub init_map : ℕ → List Configuration → Dict (List ℕ) → Dict (List ℕ)
init_map i [] m = m
init_map i (c ∷ cs) m = init_map (suc i) cs (push_entry c.name i m)

-- The copy constructor and `operator=`.
unfoldable pub copy : ConfigReader → ConfigReader
unfolding init_map
copy other = record { conf_array = other.conf_array; conf_map = init_map 0 other.conf_array [] }

-- `clear()`.
unfoldable pub clear : ConfigReader → ConfigReader
clear r = empty

-- The scan of a section header, behind its `[`: the name, the byte at which the scan stops and what
-- follows it. The scan never passes the last byte, and there is none behind a line of one byte.
abbrev pub cons_name : ℕ → Str × ℕ × Str → Str × ℕ × Str
cons_name c (name, stop, remain) = (c ∷ name, stop, remain)

abbrev pub is_name_byte : ℕ → Bool
is_name_byte c = is_alnum c || c == b'_'

unfoldable pub scan_header : Str → Option (Str × ℕ × Str)
scan_header [] = none
scan_header (c ∷ []) = some ([], c, [])
scan_header (c ∷ d ∷ s) =
    let rest = option_map (cons_name c) (scan_header (d ∷ s)) in
    if is_name_byte c then rest else some ([], c, d ∷ s)

-- The state of the loop of `add`.
pub record Reading : Type 0 where
  pub reader : ConfigReader
  pub conf : Configuration
  pub line_num : ℕ

abbrev starts_comment : Str → Bool
starts_comment [] = false
starts_comment (c ∷ s) = c == b'#'

abbrev pub no_settings : Dict Str → Bool
no_settings [] = true
no_settings (e ∷ m) = false

-- A section that has no name and no settings is not added.
abbrev pub add_previous : Reading → ConfigReader
add_previous s =
    if not (is_empty s.conf.name) || not (no_settings s.conf.config)
    then add_configuration s.reader s.conf
    else s.reader

abbrev pub begin_section : Str → Reading → Str × ℕ × Str → Result Reading
begin_section file_name s (name, stop, remain0) =
    let remain = trim remain0 in
    if stop == b']' && (is_empty remain || starts_comment remain)
    then ok (record s { reader = add_previous s; conf = assign s.conf (new name file_name) })
    else err (config_parse_error file_name s.line_num)

-- `line.substr(idx + 1)` on the line "[" starts behind the end of the string.
abbrev pub header_line : Str → Reading → Option (Str × ℕ × Str) → Result Reading
header_line file_name s none = err out_of_range
header_line file_name s (some h) = begin_section file_name s h

abbrev pub line_error {ℓ} : {A : Type ℓ} → Str → ℕ → Error → Result A
line_error file_name n (key_value_parse_error line why) = err (config_parse_error file_name n)
line_error file_name n e = err e

abbrev pub setting_line : Str → Reading → Str → Result Reading
setting_line file_name s line =
    catch (parse_key_value line) (line_error file_name s.line_num) >>= λ e.
    ok (record s { conf = set_text s.conf e.0 e.1 })

-- One trimmed line.
unfoldable pub read_trimmed : Str → Reading → Str → Result Reading
read_trimmed file_name s [] = ok s
read_trimmed file_name s (c ∷ line) =
    if c == b'#'
    then ok s
    else if c == b'['
    then header_line file_name s (scan_header line)
    else if is_alpha c
    then setting_line file_name s (c ∷ line)
    else err (config_parse_error file_name s.line_num)

-- One round of the loop.
unfoldable pub read_line : Str → Reading → Str → Result Reading
unfolding read_trimmed
read_line file_name s line =
    read_trimmed file_name (record s { line_num = s.line_num + 1 }) (trim line)

unfoldable pub read_lines : Str → Reading → List Str → Result Reading
unfolding read_line
read_lines file_name s [] = ok s
read_lines file_name s (line ∷ lines) =
    read_line file_name s line >>= λ t. read_lines file_name t lines

-- `std::getline` until the end of the stream: the pieces between newlines, the last one included.
abbrev pub cons_line : ℕ → List Str → List Str
cons_line c [] = (c ∷ []) ∷ []
cons_line c (l ∷ ls) = (c ∷ l) ∷ ls

unfoldable pub lines : Str → List Str
lines [] = [] ∷ []
lines (c ∷ s) = let ls = lines s in if c == b'\n' then [] ∷ ls else cons_line c ls

abbrev pub canonical_name : FileSystem → Str → Result Str
canonical_name fs [] = ok []
canonical_name fs (c ∷ s) = elim (fs.canonical (c ∷ s)) [
  | none ↦ err filesystem_error
  | some p ↦ ok p
]

-- `add(stream, file_name)`, behind the conversion of the file name.
abbrev pub close_last : Reading → Result ConfigReader
close_last s = ok (add_configuration s.reader s.conf)

unfoldable pub add_named : ConfigReader → Str → Str → Result ConfigReader
unfolding read_lines lines
add_named r stream file_name =
    read_lines file_name (record { reader = r; conf = new [] file_name; line_num = 0 })
      (lines stream)
    >>= close_last

unfoldable pub add : FileSystem → ConfigReader → Str → Str → Result ConfigReader
unfolding add_named
add fs r stream file_name = canonical_name fs file_name >>= add_named r stream

-- `hasConfiguration`, `countConfigurations` and `getConfigurations`.
unfoldable pub has_configuration : ConfigReader → Str → Bool
has_configuration r name = contains (map lower name) r.conf_map

unfoldable pub count_configurations : ConfigReader → Str → ℕ
unfolding has_configuration
count_configurations r name =
    if has_configuration r (map lower name)
    then length (entry (lookup (map lower name) r.conf_map))
    else 0

abbrev pub get_elem? {ℓ} : {A : Type ℓ} → List A → ℕ → Option A
get_elem? [] i = none
get_elem? (x ∷ xs) zero = some x
get_elem? (x ∷ xs) (suc i) = get_elem? xs i

abbrev pub push_some {ℓ} : {A : Type ℓ} → Option A → List A → List A
push_some none cs = cs
push_some (some c) cs = c ∷ cs

-- The configurations at the positions.
abbrev pub at_positions {ℓ} : {A : Type ℓ} → List A → List ℕ → List A
at_positions cs [] = []
at_positions cs (i ∷ is) = push_some (get_elem? cs i) (at_positions cs is)

unfoldable pub get_configurations : ConfigReader → Str → List Configuration
unfolding has_configuration
get_configurations r name =
    if has_configuration r (map lower name)
    then at_positions r.conf_array (entry (lookup (map lower name) r.conf_map))
    else []

unfoldable pub all_configurations : ConfigReader → List Configuration
all_configurations r = r.conf_array

abbrev first_path : List Configuration → Str
first_path [] = []
first_path (c ∷ cs) = c.path

abbrev merge_list : Configuration → List Configuration → Configuration
merge_list c [] = c
merge_list c (d ∷ ds) = merge_list (merge c d) ds

abbrev header_of : ConfigReader → List Configuration → Configuration
header_of r [] = new [] (first_path r.conf_array)
header_of r (c ∷ cs) = merge_list c (c ∷ cs)

-- `getHeaderConfiguration`.
unfoldable pub get_header_configuration : ConfigReader → Configuration
unfolding get_configurations
get_header_configuration r = header_of r (get_configurations r [])
