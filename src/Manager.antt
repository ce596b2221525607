-- ===== src/Manager.antt =====
-- src/core/config/ConfigManager.cpp: `ConfigManager`, the configurations of a run, with the options of
-- Manager.CommandLine. Log output is left out. A `std::set` of names is a list in which a name is looked
-- up.
pub mod CommandLine
pub mod Options
pub mod Sections
pub mod Instances
mod Tests
use allpix_fork.Base.{
  ℕ, ◌+◌, Bool, true, false, not, ◌&&◌, ◌||◌, List, [], ◌∷◌, ◌++◌, map, Option, none, some, ◌==◌,
  if◌then◌else◌, Str, codes, equal, lower, find, substr, length, is_some, Dict, lookup, insert,
  contains, Result, ok, err, ◌>>=◌, ◌>>◌, throw_if, Error, config_file_unavailable,
  identifier_already_added, identifier_not_found, filesystem_error,
}
use allpix_fork.Base.Int.{ℤ, ltb_ℤ}
use allpix_fork.Text.{trim, to_string_str}
use allpix_fork.Config.{Configuration, FileSystem, set_text, merge, new}
use allpix_fork.Config.Access.{store}
use allpix_fork.Config.Paths.{get_path}
use allpix_fork.Config.Reader.{
  ConfigReader, empty, add, get_header_configuration, all_configurations,
}
use allpix_fork.Config.Reader.Line.{parse_key_value}
use allpix_fork.Manager.CommandLine.{
  OptionParser, no_options, parse_option, is_nil, apply_global_options, apply_options,
}

-- src/core/module/ModuleIdentifier.hpp.
pub record ModuleIdentifier : Type 0 where
  pub name : Str
  pub identifier : Str
  pub prio : ℤ

unfoldable pub get_unique_name : ModuleIdentifier → Str
get_unique_name m = if is_nil m.identifier then m.name else m.name ++ (b':' ∷ m.identifier)

abbrev equal_ℤ : ℤ → ℤ → Bool
equal_ℤ a b = not (ltb_ℤ a b) && not (ltb_ℤ b a)

-- `operator==`, which is also when neither is less in the order of the map.
unfoldable pub same_identifier : ModuleIdentifier → ModuleIdentifier → Bool
unfolding get_unique_name
same_identifier a b = equal (get_unique_name a) (get_unique_name b) && equal_ℤ a.prio b.prio

-- The elements of `instance_configs` carry a number each, by which the iterators of the map find them.
pub record ConfigManager : Type 0 where
  pub global_names : List Str
  pub ignore_names : List Str
  pub module_option_parser : OptionParser
  pub module_configs : List Configuration
  pub global_config : Configuration
  pub detector_configs : List Configuration
  pub instance_configs : List (ℕ × Configuration)
  pub instance_identifier_to_config : List (ModuleIdentifier × ℕ)
  pub next_node : ℕ

abbrev pub is_name_of : Str → List Str → Bool
is_name_of n [] = false
is_name_of n (m ∷ names) = equal m n || is_name_of n names

-- One round of the loop of the constructor over the configurations that have been read.
unfoldable pub store_config : ConfigManager → Configuration → ConfigManager
store_config s config =
    let config_name = map lower config.name in
    if is_name_of config_name s.ignore_names
    then s
    else if is_name_of config_name s.global_names
    then record s { global_config = merge s.global_config config }
    else record s { module_configs = s.module_configs ++ (config ∷ []) }

unfoldable pub store_configs : ConfigManager → List Configuration → ConfigManager
unfolding store_config
store_configs s [] = s
store_configs s (config ∷ configs) = store_configs (store_config s config) configs

-- What the constructor does with the file that it has read.
unfoldable pub from_reader : ConfigReader → List Str → List Str → ConfigManager
unfolding store_configs get_header_configuration all_configurations
from_reader reader global ignore =
    store_configs
      (record {
        global_names = map (map lower) global;
        ignore_names = map (map lower) ignore;
        module_option_parser = no_options;
        module_configs = [];
        global_config = get_header_configuration reader;
        detector_configs = [];
        instance_configs = [];
        instance_identifier_to_config = [];
        next_node = 0;
      })
      (all_configurations reader)

-- The files of the system: `none` for one that cannot be opened or is not a regular file.
pub record Files : Type 0 where
  pub system : FileSystem
  pub contents : Str → Option Str

abbrev or_unavailable : Str → Option Str → Result Str
or_unavailable name none = err (config_file_unavailable name)
or_unavailable name (some text) = ok text

abbrev or_no_stream : Option Str → Str
or_no_stream none = []
or_no_stream (some text) = text

abbrev canonical_or_throw : Option Str → Result Str
canonical_or_throw none = err filesystem_error
canonical_or_throw (some path) = ok path

unfoldable pub loop_options : OptionParser → List Configuration → Bool × List Configuration
unfolding apply_options
loop_options p [] = (false, [])
loop_options p (config ∷ configs) =
    let (applied, c) = apply_options p config.name config in
    let (later, cs) = loop_options p configs in (applied || later, c ∷ cs)

unfoldable pub parse_options : OptionParser → List Str → Result OptionParser
unfolding parse_option
parse_options p [] = ok p
parse_options p (option ∷ options) = parse_option p option >>= λ q. parse_options q options

-- `loadModuleOptions`.
unfoldable pub load_module_options : ConfigManager → List Str → Result (Bool × ConfigManager)
unfolding parse_options apply_global_options loop_options
load_module_options s options = parse_options s.module_option_parser options >>= λ p.
    let (on_global, global) = apply_global_options p s.global_config in
    let (on_modules, modules) = loop_options p s.module_configs in
    ok (
      on_modules || on_global,
      record s { module_option_parser = p; global_config = global; module_configs = modules },
    )

module _ (files : Files) where
  -- The constructor.
  unfoldable pub new_manager : Str → List Str → List Str → Result ConfigManager
  unfolding from_reader add
  new_manager file_name global ignore =
      or_unavailable file_name (files.contents file_name) >>= λ text.
      canonical_or_throw (files.system.canonical file_name) >>= λ path.
      add files.system empty text path >>= λ reader. ok (from_reader reader global ignore)

  -- `parse_detectors`.
  unfoldable pub parse_detectors : ConfigManager → Result ConfigManager
  unfolding get_path add all_configurations
  parse_detectors s =
      if not (is_nil s.detector_configs)
      then ok s
      else (get_path files.system s.global_config (codes "detectors_file") true >>= λ r.
          add files.system empty (or_no_stream (files.contents r.0)) r.0 >>= λ reader.
          ok (record s { global_config = r.1; detector_configs = all_configurations reader }))

  -- `loadDetectorOptions`: the global options in its parser are never applied.
  unfoldable pub load_detector_options : ConfigManager → List Str → Result (Bool × ConfigManager)
  unfolding parse_options loop_options
  load_detector_options s options = parse_options no_options options >>= λ p.
      parse_detectors s >>= λ t.
      let (applied, detectors) = loop_options p t.detector_configs in
      ok (applied, record t { detector_configs = detectors })

unfoldable pub find_instance : ModuleIdentifier → List (ModuleIdentifier × ℕ) → Option ℕ
unfolding same_identifier
find_instance i [] = none
find_instance i ((j, node) ∷ rest) = if same_identifier j i then some node else find_instance i rest

-- `addInstanceConfiguration`: the new configuration, and the manager.
unfoldable pub add_instance_configuration :
    ConfigManager → ModuleIdentifier → Configuration → Result (Configuration × ConfigManager)
unfolding find_instance store apply_options to_string_str
add_instance_configuration s identifier config =
    throw_if (is_some (find_instance identifier s.instance_identifier_to_config))
      identifier_already_added
    >> (store config (codes "identifier") (to_string_str identifier.identifier) false >>= λ c.
        let (applied, ret_config) =
          apply_options s.module_option_parser (get_unique_name identifier) c in
        ok (
          ret_config,
          record s {
            instance_configs = s.instance_configs ++ ((s.next_node, ret_config) ∷ []);
            instance_identifier_to_config =
                (identifier, s.next_node) ∷ s.instance_identifier_to_config;
            next_node = s.next_node + 1;
          },
        ))

abbrev pub erase_node : ℕ → List (ℕ × Configuration) → List (ℕ × Configuration)
erase_node node [] = []
erase_node node ((n, c) ∷ rest) = if n == node then rest else (n, c) ∷ erase_node node rest

unfoldable pub erase_instance :
    ModuleIdentifier → List (ModuleIdentifier × ℕ) → List (ModuleIdentifier × ℕ)
unfolding same_identifier
erase_instance i [] = []
erase_instance i ((j, node) ∷ rest) =
    if same_identifier j i then rest else (j, node) ∷ erase_instance i rest

unfoldable pub drop_node : ConfigManager → ModuleIdentifier → Option ℕ → Result ConfigManager
unfolding erase_instance
drop_node s identifier none = err identifier_not_found
drop_node s identifier (some node) = ok (record s {
  instance_configs = erase_node node s.instance_configs;
  instance_identifier_to_config = erase_instance identifier s.instance_identifier_to_config;
})

-- `dropInstanceConfiguration`.
unfoldable pub drop_instance_configuration : ConfigManager → ModuleIdentifier → Result ConfigManager
unfolding find_instance drop_node
drop_instance_configuration s identifier =
    drop_node s identifier (find_instance identifier s.instance_identifier_to_config)
