-- ===== src/Loader.antt =====
-- src/core/module/ModuleManager.cpp: which instances of a module are created, and which of them stay on the
-- list of modules to run; src/core/geometry/GeometryManager.cpp: the detectors by name and type, in a
-- geometry that is closed. A pointer to a module is its number. The module libraries, execution times and
-- log output are left out.
pub mod Priority
pub mod Detectors
mod Tests
use allpix_fork.Base.{
  ℕ, ◌+◌, Bool, true, false, not, ◌&&◌, ◌||◌, List, [], ◌∷◌, ◌++◌, map, Option, none, some, ◌==◌,
  if◌then◌else◌, Str, codes, equal, Result, ok, err, ◌>>=◌, ◌>>◌, throw_if, catch, map_result,
  Error, identifier_already_added, ambiguous_instantiation, invalid_value, detector_name,
  detector_exists, invalid_detector, invalid_model, geometry_closed,
}
use allpix_fork.Base.Int.{ℤ, pos, ltb_ℤ}
use allpix_fork.Text.{from_string_str}
use allpix_fork.Config.{Configuration, has}
use allpix_fork.Config.Access.{get, get_array}
use allpix_fork.Manager.{
  ModuleIdentifier, get_unique_name, ConfigManager, drop_instance_configuration,
}
use allpix_fork.Manager.CommandLine.{is_nil}

pub record Detector : Type 0 where
  pub name : Str
  pub type : Str

pub record GeometryManager : Type 0 where
  pub closed : Bool
  pub detectors : List Detector
  pub detector_names : List Str

abbrev pub is_name : Str → List Str → Bool
is_name n [] = false
is_name n (m ∷ names) = equal m n || is_name n names

-- `addDetector` of a detector that is there, and `hasDetector`.
unfoldable pub add_detector : GeometryManager → Detector → Result GeometryManager
add_detector g d =
    throw_if g.closed geometry_closed
    >> throw_if (equal d.name (codes "global")) (detector_name d.name)
    >> throw_if (is_name d.name g.detector_names) (detector_exists d.name)
    >> ok (record g {
      detectors = g.detectors ++ (d ∷ []);
      detector_names = d.name ∷ g.detector_names;
    })

unfoldable pub has_detector : GeometryManager → Str → Bool
has_detector g name = is_name name g.detector_names

abbrev pub first_named : Str → List Detector → Result Detector
first_named name [] = err (invalid_detector name)
first_named name (d ∷ ds) = if equal d.name name then ok d else first_named name ds

unfoldable pub get_detector : GeometryManager → Str → Result Detector
get_detector g name = first_named name g.detectors

abbrev pub of_type : Str → List Detector → List Detector
of_type type [] = []
of_type type (d ∷ ds) = if equal d.type type then d ∷ of_type type ds else of_type type ds

unfoldable pub get_detectors_by_type : GeometryManager → Str → Result (List Detector)
get_detectors_by_type g type =
    let result = of_type type g.detectors in
    throw_if (is_nil result) (invalid_model type) >> ok result

-- The identifier that the names of the messages give: of a unique module, and of a detector module.
unfoldable pub unique_identifier : Str → Str → Str
unique_identifier input output =
    if is_nil output then input else if is_nil input then output else input ++ (b'_' ∷ output)

unfoldable pub detector_identifier : Str → Str → Str
detector_identifier input output =
    (if is_nil input then [] else b'_' ∷ input) ++ (if is_nil output then [] else b'_' ∷ output)

-- `create_unique_modules`: the identifier of the only instance, and the configuration with its keys marked.
unfoldable pub unique_instance : Configuration → Result (ModuleIdentifier × Configuration)
unfolding has get from_string_str unique_identifier
unique_instance config =
    throw_if (has config (codes "name")) (invalid_value (codes "name") config.name [])
    >> throw_if (has config (codes "type")) (invalid_value (codes "type") config.name [])
    >> (get from_string_str config (codes "input") >>= λ input.
        get from_string_str input.1 (codes "output") >>= λ output. ok (
          record {
            name = config.name;
            identifier = unique_identifier input.0 output.0;
            prio = pos 0;
          },
          output.1,
        ))

abbrev pub instance_of : Str → Str → ℕ → Detector → Detector × ModuleIdentifier
instance_of module_name identifier prio d =
    (d, record { name = module_name; identifier = d.name ++ identifier; prio = pos prio })

-- The loop over the names.
unfoldable pub by_names :
    GeometryManager → Str → Str → List Str → Result (List (Detector × ModuleIdentifier))
unfolding get_detector
by_names g module_name identifier names =
    map_result (λ name. get_detector g name >>= λ d. ok (instance_of module_name identifier 0 d))
      names

-- The detectors of one type that have not been instantiated by name.
abbrev pub not_named : List Str → List Detector → List Detector
not_named names [] = []
not_named names (d ∷ ds) =
    if is_name d.name names then not_named names ds else d ∷ not_named names ds

-- The loop over the types.
unfoldable pub by_types :
    GeometryManager → Str → Str → List Str → List Str → Result (List (Detector × ModuleIdentifier))
unfolding get_detectors_by_type
by_types g module_name identifier names [] = ok []
by_types g module_name identifier names (type ∷ types) = get_detectors_by_type g type >>= λ ds.
    by_types g module_name identifier names types >>= λ rest.
    ok (map (instance_of module_name identifier 1) (not_named names ds) ++ rest)

-- `getArray` of a key that need not be there, and whether it is.
unfoldable pub array_if_any : Configuration → Str → Result (Option (List Str) × Configuration)
unfolding has get_array from_string_str
array_if_any config key =
    if has config key
    then (get_array from_string_str config key >>= λ r. ok (some r.0, r.1))
    else ok (none, config)

abbrev pub elements : Option (List Str) → List Str
elements none = []
elements (some xs) = xs

-- The flag `instances_created` behind the two selections: the second sets it again.
abbrev pub created : Option (List Str) → Option (List Str) → Bool
created none none = false
created (some names) none = not (is_nil names)
created names (some types) = not (is_nil types)

-- The instances for all detectors, if there has been no selection.
unfoldable pub others :
    GeometryManager
    → Str
    → Str
    → Option (List Str)
    → Option (List Str)
    → List (Detector × ModuleIdentifier)
others g module_name identifier names types =
    if created names types then [] else map (instance_of module_name identifier 2) g.detectors

-- `create_detector_modules`: the list of instantiations.
unfoldable pub detector_instances :
    GeometryManager → Configuration → Result (List (Detector × ModuleIdentifier) × Configuration)
unfolding get from_string_str array_if_any by_names by_types others detector_identifier
detector_instances g config = get from_string_str config (codes "input") >>= λ input.
    get from_string_str input.1 (codes "output") >>= λ output.
    let identifier = detector_identifier input.0 output.0 in
    array_if_any output.1 (codes "name") >>= λ names.
    by_names g config.name identifier (elements names.0) >>= λ named.
    array_if_any names.1 (codes "type") >>= λ types.
    by_types g config.name identifier (elements names.0) (elements types.0) >>= λ typed.
    ok (named ++ (typed ++ others g config.name identifier names.0 types.0), types.1)

-- The state of the loop over the created modules.
pub record ModuleManager : Type 0 where
  pub modules : List ℕ
  pub id_to_module : List (ModuleIdentifier × ℕ)
  pub conf_manager : ConfigManager

unfoldable pub find_unique : Str → List (ModuleIdentifier × ℕ) → Option (ModuleIdentifier × ℕ)
unfolding get_unique_name
find_unique n [] = none
find_unique n ((i, m) ∷ rest) =
    if equal n (get_unique_name i) then some (i, m) else find_unique n rest

abbrev pub erase_module : ℕ → List ℕ → List ℕ
erase_module m [] = []
erase_module m (k ∷ ks) = if k == m then ks else k ∷ erase_module m ks

-- The erasure of the entry that has been found.
unfoldable pub erase_unique : Str → List (ModuleIdentifier × ℕ) → List (ModuleIdentifier × ℕ)
unfolding get_unique_name
erase_unique n [] = []
erase_unique n ((i, m) ∷ rest) =
    if equal n (get_unique_name i) then rest else (i, m) ∷ erase_unique n rest

abbrev pub append_module : ModuleManager → ModuleIdentifier → ℕ → ModuleManager
append_module s identifier pointer = record s {
  modules = s.modules ++ (pointer ∷ []);
  id_to_module = (identifier, pointer) ∷ s.id_to_module;
}

-- What becomes of a module when one with its unique name has, or has not, been found.
unfoldable pub resolve :
    Str
    → ModuleManager
    → ModuleIdentifier
    → ℕ
    → Option (ModuleIdentifier × ℕ)
    → Result ModuleManager
unfolding drop_instance_configuration erase_unique
resolve name s identifier pointer none = ok (append_module s identifier pointer)
resolve name s identifier pointer (some (i, m)) =
    if ltb_ℤ identifier.prio i.prio
    then (drop_instance_configuration s.conf_manager i >>= λ c. ok (
        append_module
          (record {
            modules = erase_module m s.modules;
            id_to_module = erase_unique (get_unique_name identifier) s.id_to_module;
            conf_manager = c;
          })
          identifier pointer))
    else if not (ltb_ℤ i.prio identifier.prio)
    then err (ambiguous_instantiation name)
    else (drop_instance_configuration s.conf_manager identifier >>= λ c.
        ok (record s { conf_manager = c }))

-- One round of the loop of `load`, for a section of the given name.
unfoldable pub register_module : Str → ModuleManager → ModuleIdentifier → ℕ → Result ModuleManager
unfolding find_unique resolve
register_module name s identifier pointer =
    resolve name s identifier pointer (find_unique (get_unique_name identifier) s.id_to_module)

unfoldable pub register_modules :
    Str → ModuleManager → List (ModuleIdentifier × ℕ) → Result ModuleManager
unfolding register_module
register_modules name s [] = ok s
register_modules name s ((identifier, pointer) ∷ rest) =
    register_module name s identifier pointer >>= λ t. register_modules name t rest
