-- ===== src/Manager/Instances.antt =====
-- The configurations of the module instances.
use allpix_fork.Base.{
  ℕ, ◌+◌, ◌<◌, ◌≡◌, refl, ap, ◌∙◌, true, List, [], ◌∷◌, ◌++◌, none, some, equal_refl, arith, ok,
  err, identifier_already_added, identifier_not_found,
}
use allpix_fork.Text.{to_string_str}
use allpix_fork.Base.{codes, insert}
use allpix_fork.Config.{Configuration}
use allpix_fork.Config.{register_marker}
use allpix_fork.Manager.CommandLine.{apply_options}
use allpix_fork.Manager.{
  ModuleIdentifier, get_unique_name, same_identifier, ConfigManager, find_instance,
  add_instance_configuration, erase_node, erase_instance, drop_node, drop_instance_configuration,
}

-- The numbers of the elements have all been given out.
abbrev pub Below : ℕ → List (ℕ × Configuration) → Type 0
Below n [] = Unit {0}
Below n ((m, c) ∷ rest) = (m < n) × Below n rest

Below-last :
    (n : ℕ) (c : Configuration) (xs : List (ℕ × Configuration))
    → Below n xs
    → Below (n + 1) (xs ++ ((n, c) ∷ []))
Below-last n c [] h = (omega arith, tt)
Below-last n c ((m, d) ∷ xs) h = (omega (arith, h.0), Below-last n c xs h.1)

erase_node-last :
    (n : ℕ) (c : Configuration) (xs : List (ℕ × Configuration))
    → Below n xs
    → erase_node n (xs ++ ((n, c) ∷ [])) ≡ xs
erase_node-last n c [] h = ground arith
erase_node-last n c ((m, d) ∷ xs) h = ground (arith, erase_node-last n c xs h.1)

same_identifier_refl : (i : ModuleIdentifier) → same_identifier i i ≡ true
unfolding same_identifier
same_identifier_refl i = ground (arith, equal_refl (get_unique_name i))

-- The manager after an identifier and its configuration have been stored.
abbrev stored : ConfigManager → ModuleIdentifier → Configuration → ConfigManager
stored s i c = record s {
  instance_configs = s.instance_configs ++ ((s.next_node, c) ∷ []);
  instance_identifier_to_config = (i, s.next_node) ∷ s.instance_identifier_to_config;
  next_node = s.next_node + 1;
}

-- The configuration that a new instance gets, before the options of the command line.
abbrev identified : ModuleIdentifier → Configuration → Configuration
identified i config = record config {
  config = insert (codes "identifier") (to_string_str i.identifier) config.config;
  used_keys = register_marker (codes "identifier") config.used_keys;
}

-- An identifier that is not in use can be added.
add_instance_configuration-stored :
    (s : ConfigManager) (i : ModuleIdentifier) (config : Configuration)
    → find_instance i s.instance_identifier_to_config ≡ none
    → (c : Configuration) × (add_instance_configuration s i config ≡ ok (c, stored s i c))
unfolding add_instance_configuration
add_instance_configuration-stored s i config f =
    ((apply_options s.module_option_parser (get_unique_name i) (identified i config)).1, rw f refl)

find-stored :
    (s : ConfigManager) (i : ModuleIdentifier) (c : Configuration)
    → find_instance i (stored s i c).instance_identifier_to_config ≡ some s.next_node
unfolding find_instance
find-stored s i c = ground (arith, same_identifier_refl i)

already_added :
    (s : ConfigManager) (i : ModuleIdentifier) (c : Configuration) (n : ℕ)
    → find_instance i s.instance_identifier_to_config ≡ some n
    → add_instance_configuration s i c ≡ err identifier_already_added
unfolding add_instance_configuration
already_added s i c n f = rw f refl

erase_instance-stored :
    (s : ConfigManager) (i : ModuleIdentifier) (c : Configuration)
    → erase_instance i (stored s i c).instance_identifier_to_config
      ≡ s.instance_identifier_to_config
unfolding erase_instance
erase_instance-stored s i c = ground (arith, same_identifier_refl i)

dropped :
    (s : ConfigManager) (i : ModuleIdentifier) (n : ℕ)
    → find_instance i s.instance_identifier_to_config ≡ some n
    → (r : ConfigManager) × (drop_instance_configuration s i ≡ ok r)
      × (r.instance_configs ≡ erase_node n s.instance_configs)
      × (r.instance_identifier_to_config ≡ erase_instance i s.instance_identifier_to_config)
unfolding drop_instance_configuration drop_node
dropped s i n f = (_, ap (drop_node s i) f, refl, refl)

not_found :
    (s : ConfigManager) (i : ModuleIdentifier)
    → find_instance i s.instance_identifier_to_config ≡ none
    → drop_instance_configuration s i ≡ err identifier_not_found
unfolding drop_instance_configuration drop_node
not_found s i f = ap (drop_node s i) f

-- An identifier that is not in use can be added to a manager, whose elements carry numbers that have
-- been given out; they still do then. The new configuration stands behind those of the other instances.
-- Adding the identifier again is an error. Dropping it gives back the configurations of the instances and
-- their identifiers as they were, and it can then be dropped no more.
pub drop_instance_configuration-add_instance_configuration :
    (s : ConfigManager) (i : ModuleIdentifier) (config : Configuration)
    → Below s.next_node s.instance_configs
    → find_instance i s.instance_identifier_to_config ≡ none
    → (c : Configuration) × (t : ConfigManager) × (add_instance_configuration s i config
        ≡ ok (c, t))
      × Below t.next_node t.instance_configs
      × (t.instance_configs ≡ s.instance_configs ++ ((s.next_node, c) ∷ []))
      × (add_instance_configuration t i config ≡ err identifier_already_added)
      × (r : ConfigManager) × (drop_instance_configuration t i ≡ ok r)
      × (r.instance_configs ≡ s.instance_configs)
      × (r.instance_identifier_to_config ≡ s.instance_identifier_to_config)
      × (drop_instance_configuration r i ≡ err identifier_not_found)
drop_instance_configuration-add_instance_configuration s i config b f =
    let (c, run) = add_instance_configuration-stored s i config f in
    let found = find-stored s i c in
    let (r, drop, configs, ids) = dropped (stored s i c) i s.next_node found in
    let same = ids ∙ erase_instance-stored s i c in
    (
      c,
      stored s i c,
      run,
      Below-last s.next_node c s.instance_configs b,
      refl,
      already_added (stored s i c) i config s.next_node found,
      r,
      drop,
      configs ∙ erase_node-last s.next_node c s.instance_configs b,
      same,
      not_found r i (ap (find_instance i) same ∙ f),
    )
