-- ===== src/Loader/Tests.antt =====
-- Runs of the selection of instances, and the theorems at concrete lists.
use allpix_fork.Base.{
  ℕ, ◌≡◌, refl, false, [], ◌∷◌, if◌then◌else◌, Str, codes, equal, ok, err, ambiguous_instantiation,
}
use allpix_fork.Base.Int.{pos}
use allpix_fork.Config.{new}
use allpix_fork.Manager.{ModuleIdentifier, get_unique_name}
use allpix_fork.Manager.CommandLine.{no_options}
use allpix_fork.Loader.{
  Detector, GeometryManager, add_detector, has_detector, detector_identifier, unique_identifier,
  ModuleManager, register_module,
}
use allpix_fork.Loader.Priority.{priority, better, Distinct, register_module-priority}
use allpix_fork.Loader.Detectors.{Named}

abbrev detector : Str → Detector
detector name = record { name = name; type = codes "timepix" }

abbrev one_detector : GeometryManager
one_detector = record {
  closed = false;
  detectors = detector (codes "d1") ∷ [];
  detector_names = codes "d1" ∷ [];
}

abbrev two_detectors : GeometryManager
two_detectors = record {
  closed = false;
  detectors = detector (codes "d1") ∷ detector (codes "d2") ∷ [];
  detector_names = codes "d2" ∷ codes "d1" ∷ [];
}

one-Named : Named one_detector
unfolding has_detector
one-Named n = refl

second_added : add_detector one_detector (detector (codes "d2")) ≡ ok two_detectors
unfolding add_detector equal
second_added = refl

names_of_outputs :
    (detector_identifier (codes "a") (codes "b") ≡ codes "_a_b")
    × (unique_identifier (codes "a") (codes "b") ≡ codes "a_b")
    × (unique_identifier [] (codes "b") ≡ codes "b")
unfolding detector_identifier unique_identifier
names_of_outputs = (refl, refl, refl)

abbrev instance_prio : ℕ → ModuleIdentifier
instance_prio p = record { name = codes "M"; identifier = codes "d1"; prio = pos p }

abbrev one_module : ModuleManager
one_module = record {
  modules = 7 ∷ [];
  id_to_module = (instance_prio 2, 7) ∷ [];
  conf_manager = record {
    global_names = [];
    ignore_names = [];
    module_option_parser = no_options;
    module_configs = [];
    global_config = new [] [];
    detector_configs = [];
    instance_configs = (0, new [] []) ∷ (1, new [] []) ∷ [];
    instance_identifier_to_config = (instance_prio 0, 1) ∷ (instance_prio 2, 0) ∷ [];
    next_node = 2;
  };
}

abbrev replaced_module : ModuleManager
replaced_module = record {
  modules = 8 ∷ [];
  id_to_module = (instance_prio 0, 8) ∷ [];
  conf_manager = record one_module.conf_manager {
    instance_configs = (1, new [] []) ∷ [];
    instance_identifier_to_config = (instance_prio 0, 1) ∷ [];
  };
}

replaces : register_module (codes "M") one_module (instance_prio 0) 8 ≡ ok replaced_module
unfolding register_module equal
replaces = refl

ambiguous :
    register_module (codes "M") one_module (instance_prio 2) 8
    ≡ err (ambiguous_instantiation (codes "M"))
unfolding register_module equal
ambiguous = refl

register_module-priority_example :
    Distinct replaced_module.id_to_module
    × (priority replaced_module (codes "M:d1") ≡ (
        if equal (codes "M:d1") (get_unique_name (instance_prio 0))
        then better (priority one_module (get_unique_name (instance_prio 0))) (pos 0)
        else priority one_module (codes "M:d1")))
register_module-priority_example =
    register_module-priority (codes "M") (codes "M:d1") one_module replaced_module (instance_prio 0)
      8 (tt, tt) replaces
