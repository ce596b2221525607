-- ===== src/Manager/Options.antt =====
-- What the options of the command line do to a configuration.
use allpix_fork.Base.{
  ℕ, zero, suc, ◌+◌, ◌≤◌, ◌≡◌, refl, sym, ap, ◌∙◌, Bool, true, false, not, List, [], ◌∷◌, ◌++◌, map,
  Option, none, some, if◌then◌else◌, Str, equal, equal_iff, find, substr, length, is_some, lookup,
  lookup-insert, contains-lookup, ok, bind-eq-ok, arith, Bool-cases, inl, inr, take, drop,
  take-length-append,
}
use allpix_fork.Text.{trim}
use allpix_fork.Config.{Configuration, set_text}
use allpix_fork.Config.Markers.{lookup-set_text}
use allpix_fork.Config.Reader.Line.{parse_key_value}
use allpix_fork.Manager.{parse_options, loop_options, ConfigManager, load_module_options}
use allpix_fork.Manager.CommandLine.{
  OptionParser, options_of, add_option, parse_option, apply_texts, apply_global_options,
  apply_options,
}

-- The value of the last option of that key.
abbrev pub or_else {ℓ} : {A : Type ℓ} → Option A → Option A → Option A
or_else none b = b
or_else (some a) b = some a

abbrev pub last_value : Str → List (Str × Str) → Option Str
last_value k [] = none
last_value k ((j, v) ∷ os) = or_else (last_value k os) (if equal j k then some v else none)

-- Options take the place of the values of the file, a later option that of an earlier one, and no other
-- key changes.
pub apply_texts-lookup :
    (c : Configuration) (os : List (Str × Str)) (k : Str)
    → lookup k (apply_texts c os).config ≡ or_else (last_value k os) (lookup k c.config)
unfolding apply_texts
apply_texts-lookup c [] k = refl
apply_texts-lookup c ((j, v) ∷ os) k =
    apply_texts-lookup (set_text c j v) os k
    ∙ ap (or_else (last_value k os)) (lookup-set_text c j k v)
    ∙ assoc (last_value k os)
  where
    assoc :
        (a : Option Str)
        → or_else a (if equal j k then some v else lookup k c.config)
          ≡ or_else (or_else a (if equal j k then some v else none)) (lookup k c.config)
    assoc none = ground arith
    assoc (some a) = refl

abbrev pub options_for : OptionParser → Str → List (Str × Str)
options_for p identifier = options_of (lookup identifier p.identifier_options)

find-dot : (s t : Str) → find b'.' s ≡ none → find b'.' (s ++ (b'.' ∷ t)) ≡ some (length s)
unfolding find
find-dot [] t h = refl
find-dot (c ∷ s) t h = ground (arith, find-dot s t)

take-all : (n : ℕ) (s : Str) → length s ≤ n → take n s ≡ s
take-all zero [] h = refl
take-all (suc n) [] h = refl
take-all zero (c ∷ s) h = absurd (omega arith)
take-all (suc n) (c ∷ s) h = ap (◌∷◌ c) (take-all n s (omega arith))

drop-dot : (s t : Str) → drop (length s + 1) (s ++ (b'.' ∷ t)) ≡ t
drop-dot [] t = refl
drop-dot (c ∷ s) t =
    let step : length (c ∷ s) + 1 ≡ suc (length s + 1) = omega arith in
    ap (λ n. drop n (c ∷ (s ++ (b'.' ∷ t)))) step ∙ drop-dot s t

length-dot : (s t : Str) → length t ≤ length (s ++ (b'.' ∷ t))
length-dot [] t = omega arith
length-dot (c ∷ s) t = omega (arith, length-dot s t)

add_option-for :
    (p : OptionParser) (i k v j : Str)
    → options_for (add_option p (i ++ (b'.' ∷ k)) v (some (length i))) j
      ≡ (if equal i j then options_for p j ++ ((k, v) ∷ []) else options_for p j)
unfolding add_option substr
add_option-for p i k v j = rw (take-length-append i (b'.' ∷ k)) (
    rw (drop-dot i k) (
      rw (take-all (length (i ++ (b'.' ∷ k))) k (length-dot i k)) (
        ap options_of (lookup-insert i j (options_for p i ++ ((k, v) ∷ [])) p.identifier_options)
        ∙ elim (Bool-cases (equal i j)) [
          | inl e ↦
              let same : i ≡ j = (equal_iff i j).0 e in
              rw e (ap (λ x. options_for p x ++ ((k, v) ∷ [])) same)
          | inr e ↦ rw e refl
        ])))

-- An option whose key is a name without a dot, a dot and a key becomes the last one for that name, and
-- leaves the options for other names and the global options as they are. An option whose key has no dot
-- becomes the last global one.
pub parse_option-split :
    (p : OptionParser) (line i k v j : Str)
    → find b'.' i ≡ none
    → (parse_key_value (trim line) ≡ ok (i ++ (b'.' ∷ k), v)
        → (q : OptionParser) × (parse_option p line ≡ ok q)
          × (q.global_options ≡ p.global_options)
          × (options_for q j
              ≡ (if equal i j then options_for p j ++ ((k, v) ∷ []) else options_for p j)))
      × (parse_key_value (trim line) ≡ ok (i, v)
          → parse_option p line
            ≡ ok (record p { global_options = p.global_options ++ ((i, v) ∷ []) }))
unfolding parse_option add_option
parse_option-split p line i k v j n = (
  λ e. (
    add_option p (i ++ (b'.' ∷ k)) v (some (length i)),
    rw e (ap (λ o. ok (add_option p (i ++ (b'.' ∷ k)) v o)) (find-dot i k n)),
    refl,
    add_option-for p i k v j,
  ),
  λ e. rw e (ap (λ o. ok (add_option p i v o)) n),
)

none_applied : (c : Configuration) → apply_texts c [] ≡ c
unfolding apply_texts
none_applied c = refl

apply_options-texts :
    (p : OptionParser) (i : Str) (c : Configuration)
    → (apply_options p i c).1 ≡ apply_texts c (options_for p i)
unfolding apply_options
apply_options-texts p i c =
    rw (contains-lookup i p.identifier_options) (go (lookup i p.identifier_options))
  where
    go :
        (o : Option (List (Str × Str)))
        → (if◌then◌else◌ {A = Bool × Configuration}
            (not (is_some o))
            (false, c)
            (true, apply_texts c (options_of o))).1
          ≡ apply_texts c (options_of o)
    go none = sym (none_applied c)
    go (some os) = refl

loop_options-map :
    (p : OptionParser) (cs : List Configuration)
    → (loop_options p cs).1 ≡ map (λ c. apply_texts c (options_for p c.name)) cs
unfolding loop_options
loop_options-map p [] = refl
loop_options-map p (c ∷ cs) = rw (apply_options-texts p c.name c) (rw (loop_options-map p cs) refl)

-- The options that have been parsed so far are applied to the global configuration and to every module
-- configuration, to the latter those for its name: a key has the value of the last such option, else the
-- one that it had.
pub load_module_options-lookup :
    (s t : ConfigManager) (options : List Str) (applied : Bool) (k : Str)
    → load_module_options s options ≡ ok (applied, t)
    → (lookup k t.global_config.config
        ≡ or_else
            (last_value k t.module_option_parser.global_options)
            (lookup k s.global_config.config))
      × (map (λ c. lookup k c.config) t.module_configs
          ≡ map
              (λ c.
                or_else
                  (last_value k (options_for t.module_option_parser c.name))
                  (lookup k c.config))
              s.module_configs)
unfolding load_module_options apply_global_options
load_module_options-lookup s t options applied k h =
    let a = bind-eq-ok (parse_options s.module_option_parser options) _ h in
    let parser : t.module_option_parser ≡ a.0 = ground arith in
    let global : t.global_config ≡ apply_texts s.global_config a.0.global_options = ground arith in
    let modules : t.module_configs ≡ (loop_options a.0 s.module_configs).1 = ground arith in
    rw parser (
      ap (λ c. lookup k c.config) global ∙ apply_texts-lookup s.global_config a.0.global_options k,
      ap (map (λ c. lookup k c.config)) (modules ∙ loop_options-map a.0 s.module_configs)
          ∙ texts a.0 s.module_configs,
    )
  where
    texts :
        (p : OptionParser) (cs : List Configuration)
        → map (λ c. lookup k c.config) (map (λ c. apply_texts c (options_for p c.name)) cs)
          ≡ map (λ c. or_else (last_value k (options_for p c.name)) (lookup k c.config)) cs
    texts p [] = refl
    texts p (c ∷ cs) = rw (apply_texts-lookup c (options_for p c.name) k) (rw (texts p cs) refl)
