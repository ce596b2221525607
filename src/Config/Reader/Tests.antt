-- ===== src/Config/Reader/Tests.antt =====
-- Runs of the reader, and its theorems at concrete files.
use allpix_fork.Base.{
  ◌≡◌, refl, true, false, List, [], ◌∷◌, map, some, Str, codes, equal, elem, lower, find, ok, err,
  config_parse_error, is_alnum, is_alpha, is_digit,
}
use allpix_fork.Text.{trim, whitespace}
use allpix_fork.Text.Trim.{IsTrimmed}
use allpix_fork.Config.{Configuration, FileSystem, new}
use allpix_fork.Config.Reader.{
  ConfigReader, empty, lines, add_named, add, get_configurations, canonical_name,
}
use allpix_fork.Config.Reader.Line.{parse_key_value}
use allpix_fork.Config.Reader.KeyValue.{IsPair, pair_line, parse_key_value-written}
use allpix_fork.Config.Reader.Contents.{section_of, with_name, file_sections, titled}
use allpix_fork.Config.Reader.Sections.{get_configurations-file_sections}
use allpix_fork.Config.Reader.Lines.{StopsAt, bracket, add_named-StopsAt}
use allpix_fork.Text.{trim_with}
use allpix_fork.Base.{contains, find_first_not_of, find_last_not_of, lookup, substr}
use allpix_fork.Base.{insert, before}
use allpix_fork.Config.{set_text, assign, register_marker, assign_markers}
use allpix_fork.Config.Reader.{scan_header, add_configuration}
use allpix_fork.Config.Reader.Line.{cut_comment}

abbrev value : Str
value = codes "\"a # b\""

abbrev written : Str
written = pair_line (codes "my_key") (codes " ") (codes " ") value (some (codes " ", codes "note"))

written-IsPair :
    IsPair (codes "my_key") (codes " ") (codes " ") value (some (codes " ", codes "note"))
unfolding is_alnum elem
written-IsPair = record {
  key = refl;
  before_pad = refl;
  after_pad = refl;
  tail = refl;
  nonempty = refl;
  trimmed = record { starts = refl; ends = refl };
  hash = refl;
  closed = refl;
}

written-IsTrimmed : IsTrimmed whitespace written
unfolding elem
written-IsTrimmed = record { starts = refl; ends = refl }

parse_key_value-written_example : parse_key_value written ≡ ok (codes "my_key", value)
parse_key_value-written_example =
    parse_key_value-written (codes "my_key") (codes " ") (codes " ") value
      (some (codes " ", codes "note")) written-IsPair written-IsTrimmed

read_pair : parse_key_value (codes " k= 1 # one") ≡ ok (codes "k", codes "1")
unfolding parse_key_value find trim trim_with find_first_not_of elem find_last_not_of substr
    is_alnum
read_pair = refl

abbrev file_system : FileSystem
file_system = record {
  is_absolute = λ p. true;
  parent_path = λ p. [];
  join = λ p q. q;
  canonical = λ p. some p;
}

abbrev stream : Str
stream = codes "k = 1\n[Mod]\nk = 2\n[mod]"

abbrev section : Str → List (Str × Str) → Configuration
section name values = record {
  name = name;
  path = codes "f";
  config = values;
  used_keys = map (λ e. (e.0, false)) values;
}

-- The markers of the section before are still there.
abbrev reader : ConfigReader
reader = record {
  conf_array =
      section [] ((codes "k", codes "1") ∷ [])
      ∷ section (codes "Mod") ((codes "k", codes "2") ∷ [])
      ∷ record (section (codes "mod") []) { used_keys = (codes "k", false) ∷ [] }
      ∷ [];
  conf_map = ([], 0 ∷ []) ∷ (codes "mod", 1 ∷ 2 ∷ []) ∷ [];
}

added : add file_system empty stream (codes "f") ≡ ok reader
unfolding add trim trim_with find_first_not_of elem find_last_not_of substr is_alpha find is_alnum
    scan_header add_configuration set_text insert assign register_marker assign_markers equal
    contains before lookup lower is_digit cut_comment parse_key_value
added = refl

get_configurations-file_sections_example :
    (f : Str) × (canonical_name file_system (codes "f") ≡ ok f)
    × (map section_of (get_configurations reader (codes "MOD"))
        ≡ with_name (map lower (codes "MOD")) (file_sections f stream))
get_configurations-file_sections_example =
    get_configurations-file_sections file_system reader stream (codes "f") (codes "MOD") added

-- The sections of this file, counted by hand.
three_sections :
    file_sections (codes "f") stream
    ≡ record { name = []; settings = (codes "k", codes "1") ∷ []; path = codes "f" }
      ∷ record { name = codes "Mod"; settings = (codes "k", codes "2") ∷ []; path = codes "f" }
      ∷ titled (codes "mod") (codes "f")
      ∷ []
unfolding trim trim_with find_first_not_of elem find_last_not_of substr find is_alnum insert equal
    before cut_comment parse_key_value lines
three_sections = refl

abbrev one_section : ConfigReader
one_section = record {
  conf_array = section (codes "Mod") [] ∷ [];
  conf_map = (codes "mod", 0 ∷ []) ∷ [];
}

found_before : get_configurations one_section (codes "Mod") ≡ section (codes "Mod") [] ∷ []
unfolding get_configurations contains equal lower lookup
found_before = refl

stops :
    add_named empty (codes "k = 1\nno pair") (codes "f") ≡ err (config_parse_error (codes "f") 2)
unfolding add_named trim trim_with find_first_not_of elem find_last_not_of substr is_alpha
    parse_key_value find is_alnum
stops = refl

add_named-StopsAt_example :
    StopsAt
      (codes "f")
      (record { reader = empty; conf = new [] (codes "f"); line_num = 0 })
      (lines (codes "k = 1\nno pair"))
      (config_parse_error (codes "f") 2)
add_named-StopsAt_example =
    add_named-StopsAt empty (codes "k = 1\nno pair") (codes "f") (config_parse_error (codes "f") 2)
      stops

trimmed_bracket : trim (codes " [ ") ≡ bracket
unfolding trim trim_with find_first_not_of elem find_last_not_of substr
trimmed_bracket = refl
