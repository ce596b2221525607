-- ===== src/Manager/Sections.antt =====
-- How the sections of the main file are told apart.
use allpix_fork.Base.{
  ◌≡◌, refl, sym, ap, ◌∙◌, Bool, true, false, not, ◌&&◌, ◌||◌, List, [], ◌∷◌, ◌++◌, append_assoc,
  append-nil, map, Option, none, some, if◌then◌else◌, Str, lower, is_some, lookup, Bool-cases, inl,
  inr,
}
use allpix_fork.Config.{Configuration, merge}
use allpix_fork.Config.Markers.{merge-lookup}
use allpix_fork.Config.Reader.{ConfigReader, get_header_configuration, all_configurations}
use allpix_fork.Manager.{ConfigManager, is_name_of, store_config, store_configs, from_reader}
use allpix_fork.Manager.Options.{or_else}

abbrev pub is_ignored : List Str → Configuration → Bool
is_ignored ignore c = is_name_of (map lower c.name) ignore

-- A global section that is not ignored.
abbrev pub is_global : List Str → List Str → Configuration → Bool
is_global global ignore c = not (is_ignored ignore c) && is_name_of (map lower c.name) global

abbrev pub module_sections : List Str → List Str → List Configuration → List Configuration
module_sections global ignore [] = []
module_sections global ignore (c ∷ cs) =
    if is_ignored ignore c || is_name_of (map lower c.name) global
    then module_sections global ignore cs
    else c ∷ module_sections global ignore cs

-- The text that the first of the global sections with the key has.
abbrev pub global_text : List Str → List Str → Str → List Configuration → Option Str
global_text global ignore k [] = none
global_text global ignore k (c ∷ cs) =
    if is_global global ignore c
    then or_else (lookup k c.config) (global_text global ignore k cs)
    else global_text global ignore k cs

nothing_else : (o : Option Str) → o ≡ or_else o none
nothing_else none = refl
nothing_else (some a) = refl

in_order : (a b c : Option Str) → or_else (if is_some a then a else b) c ≡ or_else a (or_else b c)
in_order none b c = refl
in_order (some a) b c = refl

-- The two cases of a section, and what they leave of the manager.
data Stored (s : ConfigManager) (c : Configuration) (t : ConfigManager) : Type 0 where
  ignored : is_name_of (map lower c.name) s.ignore_names ≡ true → t ≡ s → Stored s c t
  merged :
      is_name_of (map lower c.name) s.ignore_names ≡ false
      → is_name_of (map lower c.name) s.global_names ≡ true
      → t ≡ record s { global_config = merge s.global_config c }
      → Stored s c t
  appended :
      is_name_of (map lower c.name) s.ignore_names ≡ false
      → is_name_of (map lower c.name) s.global_names ≡ false
      → t ≡ record s { module_configs = s.module_configs ++ (c ∷ []) }
      → Stored s c t

store_config-Stored : (s : ConfigManager) (c : Configuration) → Stored s c (store_config s c)
unfolding store_config
store_config-Stored s c = elim (Bool-cases (is_name_of (map lower c.name) s.ignore_names)) [
  | inl e ↦ ignored e (rw e refl)
  | inr e ↦ elim (Bool-cases (is_name_of (map lower c.name) s.global_names)) [
    | inl f ↦ merged e f (rw e (rw f refl))
    | inr f ↦ appended e f (rw e (rw f refl))
  ]
]

store_configs-modules :
    (s : ConfigManager) (cs : List Configuration)
    → (store_configs s cs).module_configs
      ≡ s.module_configs ++ module_sections s.global_names s.ignore_names cs
unfolding store_configs
store_configs-modules s [] = sym (append-nil s.module_configs)
store_configs-modules s (c ∷ cs) = elim (store_config-Stored s c) [
  | ignored e t ↦
      ap (λ x. (store_configs x cs).module_configs) t ∙ store_configs-modules s cs ∙ rw e refl
  | merged e f t ↦
      ap (λ x. (store_configs x cs).module_configs) t
      ∙ store_configs-modules (record s { global_config = merge s.global_config c }) cs
      ∙ rw e (rw f refl)
  | appended e f t ↦
      ap (λ x. (store_configs x cs).module_configs) t
      ∙ store_configs-modules (record s { module_configs = s.module_configs ++ (c ∷ []) }) cs
      ∙ append_assoc s.module_configs (c ∷ []) (module_sections s.global_names s.ignore_names cs)
      ∙ rw e (rw f refl)
]

store_configs-global :
    (s : ConfigManager) (cs : List Configuration) (k : Str)
    → lookup k (store_configs s cs).global_config.config
      ≡ or_else (lookup k s.global_config.config) (global_text s.global_names s.ignore_names k cs)
unfolding store_configs
store_configs-global s [] k = nothing_else (lookup k s.global_config.config)
store_configs-global s (c ∷ cs) k = elim (store_config-Stored s c) [
  | ignored e t ↦
      ap (λ x. lookup k (store_configs x cs).global_config.config) t
      ∙ store_configs-global s cs k
      ∙ rw e refl
  | merged e f t ↦
      ap (λ x. lookup k (store_configs x cs).global_config.config) t
      ∙ store_configs-global (record s { global_config = merge s.global_config c }) cs k
      ∙ ap (λ o. or_else o (global_text s.global_names s.ignore_names k cs))
          (merge-lookup c.config s.global_config k)
      ∙ in_order (lookup k s.global_config.config) (lookup k c.config)
          (global_text s.global_names s.ignore_names k cs)
      ∙ rw e (rw f refl)
  | appended e f t ↦
      ap (λ x. lookup k (store_configs x cs).global_config.config) t
      ∙ store_configs-global (record s { module_configs = s.module_configs ++ (c ∷ []) }) cs k
      ∙ rw e (rw f refl)
]

-- The sections of the file become, by their names without regard to case: nothing, if they are to be
-- ignored; a part of the global configuration, in which a key has the value of the first place that has
-- it, beginning with the header of the file; else module configurations, in the order of the file.
pub from_reader-sections :
    (r : ConfigReader) (global ignore : List Str) (k : Str)
    → ((from_reader r global ignore).module_configs
        ≡ module_sections (map (map lower) global) (map (map lower) ignore) (all_configurations r))
      × (lookup k (from_reader r global ignore).global_config.config
          ≡ or_else (lookup k (get_header_configuration r).config) (
              global_text
                (map (map lower) global)
                (map (map lower) ignore)
                k
                (all_configurations r)))
unfolding from_reader
from_reader-sections r global ignore k = (
  store_configs-modules _ (all_configurations r),
  store_configs-global _ (all_configurations r) k,
)
