-- ===== src/Config/Reader/Contents.antt =====
-- src/core/config/ConfigReader.cpp: the sections that the lines of a text hold.
use allpix_fork.Base.{
  Bool, ◌&&◌, List, [], ◌∷◌, ◌==◌, if◌then◌else◌, map, Str, Dict, insert, lower, equal, Result, ok,
  err,
}
use allpix_fork.Text.{trim, is_empty}
use allpix_fork.Config.{Configuration}
use allpix_fork.Config.Reader.{lines, no_settings}
use allpix_fork.Config.Reader.Line.{parse_key_value}

-- What one line says: nothing, the begin of a section, or a setting.
pub data Content : Type 0 where
  nothing : Content
  header : Str → Content
  setting : Str × Str → Content

-- The text in front of the closing bracket.
abbrev pub name_in : Str → Str
name_in [] = []
name_in (c ∷ s) = let rest = name_in s in if c == b']' then [] else c ∷ rest

abbrev pub pair_of : Result (Str × Str) → Content
pair_of (ok e) = setting e
pair_of (err e) = nothing

abbrev pub content_of : Str → Content
content_of [] = nothing
content_of (c ∷ s) =
    if c == b'#'
    then nothing
    else if c == b'['
    then header (name_in s)
    else pair_of (parse_key_value (c ∷ s))

-- A section: its name, the settings below its header, a later one in place of an earlier one with the
-- same key, and the file.
pub record FileSection : Type 0 where
  pub name : Str
  pub settings : Dict Str
  pub path : Str

abbrev pub titled : Str → Str → FileSection
titled name path = record { name = name; settings = []; path = path }

abbrev pub with_setting : FileSection → Str × Str → FileSection
with_setting b e = record b { settings = insert e.0 e.1 b.settings }

-- The sections of the lines of file `f`, where section `b` is open in front of them.
abbrev pub sections_of : Str → FileSection → List Content → List FileSection
sections_of f b [] = b ∷ []
sections_of f b (nothing ∷ cs) = sections_of f b cs
sections_of f b (header name ∷ cs) = b ∷ sections_of f (titled name f) cs
sections_of f b (setting e ∷ cs) = sections_of f (with_setting b e) cs

-- A section without a name and settings does not count, unless it is the last one.
abbrev pub is_blank : FileSection → Bool
is_blank b = is_empty b.name && no_settings b.settings

abbrev pub counted : List FileSection → List FileSection
counted [] = []
counted (b ∷ []) = b ∷ []
counted (b ∷ c ∷ bs) = if is_blank b then counted (c ∷ bs) else b ∷ counted (c ∷ bs)

abbrev pub contents : Str → List Content
contents stream = map (λ line. content_of (trim line)) (lines stream)

abbrev pub file_sections : Str → Str → List FileSection
file_sections f stream = counted (sections_of f (titled [] f) (contents stream))

-- The sections with a name, in any case of the letters.
abbrev pub with_name : Str → List FileSection → List FileSection
with_name n [] = []
with_name n (b ∷ bs) = if equal (map lower b.name) n then b ∷ with_name n bs else with_name n bs

-- A configuration as a section: its markers of use left out.
abbrev pub section_of : Configuration → FileSection
section_of c = record { name = c.name; settings = c.config; path = c.path }
