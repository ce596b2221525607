-- ===== src/Manager/Tests.antt =====
-- Runs of the option parser and the manager, and their theorems at concrete configurations.
use allpix_fork.Base.{
  ◌≡◌, refl, true, false, List, [], ◌∷◌, map, none, Str, codes, equal, lower, lookup, find, ok, err,
  identifier_already_added, identifier_not_found,
}
use allpix_fork.Base.Int.{pos}
use allpix_fork.Text.{trim}
use allpix_fork.Config.{Configuration}
use allpix_fork.Config.Reader.{ConfigReader, get_header_configuration, all_configurations}
use allpix_fork.Config.Reader.Line.{parse_key_value}
use allpix_fork.Manager.{
  ModuleIdentifier, ConfigManager, from_reader, load_module_options, find_instance,
  add_instance_configuration, drop_instance_configuration,
}
use allpix_fork.Manager.CommandLine.{no_options}
use allpix_fork.Manager.Options.{or_else, last_value, options_for, load_module_options-lookup}
use allpix_fork.Manager.Sections.{module_sections, global_text, from_reader-sections}
use allpix_fork.Manager.Instances.{Below, drop_instance_configuration-add_instance_configuration}
use allpix_fork.Text.{trim_with}
use allpix_fork.Base.{before, elem, find_first_not_of, find_last_not_of, insert, is_alnum, substr}
use allpix_fork.Config.{register_marker}

abbrev section : Str → Str → Configuration
section name value = record {
  name = name;
  path = codes "/main.conf";
  config = (codes "k", value) ∷ [];
  used_keys = (codes "k", false) ∷ [];
}

abbrev manager : ConfigManager
manager = record {
  global_names = codes "allpix" ∷ [];
  ignore_names = codes "ignore" ∷ [];
  module_option_parser = no_options;
  module_configs = section (codes "M") (codes "1") ∷ section (codes "N") (codes "1") ∷ [];
  global_config = section [] (codes "1");
  detector_configs = [];
  instance_configs = [];
  instance_identifier_to_config = [];
  next_node = 0;
}

abbrev options : List Str
options = codes "M.k = 2" ∷ codes "k = 3" ∷ []

abbrev with_options : ConfigManager
with_options = record manager {
  module_option_parser = record {
    global_options = (codes "k", codes "3") ∷ [];
    identifier_options = (codes "M", (codes "k", codes "2") ∷ []) ∷ [];
  };
  module_configs = section (codes "M") (codes "2") ∷ section (codes "N") (codes "1") ∷ [];
  global_config = section [] (codes "3");
}

loaded : load_module_options manager options ≡ ok (true, with_options)
unfolding load_module_options parse_key_value find trim trim_with find_first_not_of elem
    find_last_not_of is_alnum equal register_marker
loaded = refl

load_module_options-lookup_example :
    (lookup (codes "k") with_options.global_config.config
      ≡ or_else
          (last_value (codes "k") with_options.module_option_parser.global_options)
          (lookup (codes "k") manager.global_config.config))
    × (map (λ c. lookup (codes "k") c.config) with_options.module_configs
        ≡ map
            (λ c.
              or_else
                (last_value (codes "k") (options_for with_options.module_option_parser c.name))
                (lookup (codes "k") c.config))
            manager.module_configs)
load_module_options-lookup_example =
    load_module_options-lookup manager with_options options true (codes "k") loaded

no_dot : find b'.' (codes "M") ≡ none
unfolding find
no_dot = refl

-- The key of that option is `M.k`.
option_key : parse_key_value (trim (codes "M.k = 2")) ≡ ok (codes "M.k", codes "2")
unfolding parse_key_value find trim trim_with find_first_not_of elem find_last_not_of substr
    is_alnum
option_key = refl

abbrev reader : ConfigReader
reader = record {
  conf_array =
      section [] (codes "1")
      ∷ section (codes "Allpix") (codes "2")
      ∷ section (codes "M") (codes "3")
      ∷ section (codes "Ignore") (codes "4")
      ∷ [];
  conf_map =
      ([], 0 ∷ []) ∷ (codes "allpix", 1 ∷ []) ∷ (codes "ignore", 3 ∷ []) ∷ (codes "m", 2 ∷ []) ∷ [];
}

from_reader-sections_example :
    ((from_reader reader (codes "Allpix" ∷ [] ∷ []) (codes "Ignore" ∷ [])).module_configs
      ≡ module_sections
          (map (map lower) (codes "Allpix" ∷ [] ∷ []))
          (map (map lower) (codes "Ignore" ∷ []))
          (all_configurations reader))
    × (lookup
          (codes "k")
          (from_reader reader (codes "Allpix" ∷ [] ∷ []) (codes "Ignore" ∷ [])).global_config.config
        ≡ or_else (lookup (codes "k") (get_header_configuration reader).config) (
            global_text
              (map (map lower) (codes "Allpix" ∷ [] ∷ []))
              (map (map lower) (codes "Ignore" ∷ []))
              (codes "k")
              (all_configurations reader)))
from_reader-sections_example =
    from_reader-sections reader (codes "Allpix" ∷ [] ∷ []) (codes "Ignore" ∷ []) (codes "k")

modules_of_reader :
    (from_reader reader (codes "Allpix" ∷ [] ∷ []) (codes "Ignore" ∷ [])).module_configs
    ≡ section (codes "M") (codes "3") ∷ []
unfolding from_reader equal lower
modules_of_reader = refl

abbrev first_instance : ModuleIdentifier
first_instance = record { name = codes "M"; identifier = codes "d1"; prio = pos 1 }

abbrev named : Configuration
named = record (section (codes "M") (codes "1")) {
  config = (codes "identifier", codes "\"d1\"") ∷ (codes "k", codes "1") ∷ [];
  used_keys = (codes "identifier", false) ∷ (codes "k", false) ∷ [];
}

abbrev with_instance : ConfigManager
with_instance = record manager {
  instance_configs = (0, named) ∷ [];
  instance_identifier_to_config = (first_instance, 0) ∷ [];
  next_node = 1;
}

not_in_use : find_instance first_instance manager.instance_identifier_to_config ≡ none
unfolding find_instance
not_in_use = refl

added :
    add_instance_configuration manager first_instance (section (codes "M") (codes "1"))
    ≡ ok (named, with_instance)
unfolding add_instance_configuration insert equal before
added = refl

drop_instance_configuration-add_instance_configuration_example :
    (c : Configuration) × (t : ConfigManager) × (add_instance_configuration manager first_instance
        (section (codes "M") (codes "1"))
      ≡ ok (c, t))
    × Below t.next_node t.instance_configs
    × (t.instance_configs ≡ (0, c) ∷ [])
    × (add_instance_configuration t first_instance (section (codes "M") (codes "1"))
        ≡ err identifier_already_added)
    × (r : ConfigManager) × (drop_instance_configuration t first_instance ≡ ok r)
    × (r.instance_configs ≡ [])
    × (r.instance_identifier_to_config ≡ [])
    × (drop_instance_configuration r first_instance ≡ err identifier_not_found)
drop_instance_configuration-add_instance_configuration_example =
    drop_instance_configuration-add_instance_configuration manager first_instance
      (section (codes "M") (codes "1")) tt not_in_use
