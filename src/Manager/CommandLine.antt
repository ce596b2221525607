-- ===== src/Manager/CommandLine.antt =====
-- src/core/config/OptionParser.cpp: the options of the command line.
use allpix_fork.Base.{
  ℕ, ◌+◌, Bool, true, false, not, List, [], ◌∷◌, ◌++◌, Option, none, some, if◌then◌else◌, Str, find,
  substr, length, Dict, lookup, insert, contains, Result, ok, ◌>>=◌,
}
use allpix_fork.Text.{trim}
use allpix_fork.Config.{Configuration, set_text}
use allpix_fork.Config.Reader.Line.{parse_key_value}

pub record OptionParser : Type 0 where
  pub global_options : List (Str × Str)
  pub identifier_options : Dict (List (Str × Str))

abbrev pub no_options : OptionParser
no_options = record { global_options = []; identifier_options = [] }

abbrev pub options_of : Option (List (Str × Str)) → List (Str × Str)
options_of none = []
options_of (some os) = os

-- What `parseOption` does with a key and its value; `dot_pos` is the place of the first dot.
unfoldable pub add_option : OptionParser → Str → Str → Option ℕ → OptionParser
unfolding lookup insert substr
add_option p key value none = record p { global_options = p.global_options ++ ((key, value) ∷ []) }
add_option p key value (some dot_pos) =
    let identifier = substr 0 dot_pos key in
    record p {
      identifier_options =
          insert identifier
            (options_of (lookup identifier p.identifier_options)
              ++ ((substr (dot_pos + 1) (length key) key, value) ∷ []))
            p.identifier_options;
    }

-- `parseOption(line)`.
unfoldable pub parse_option : OptionParser → Str → Result OptionParser
unfolding add_option
parse_option p line = parse_key_value (trim line) >>= λ e. ok (add_option p e.0 e.1 (find b'.' e.0))

unfoldable pub apply_texts : Configuration → List (Str × Str) → Configuration
unfolding set_text
apply_texts config [] = config
apply_texts config ((key, value) ∷ os) = apply_texts (set_text config key value) os

abbrev pub is_nil {ℓ} : {A : Type ℓ} → List A → Bool
is_nil [] = true
is_nil (x ∷ xs) = false

-- `applyGlobalOptions` and `applyOptions`: the result and the configuration afterwards.
unfoldable pub apply_global_options : OptionParser → Configuration → Bool × Configuration
unfolding apply_texts
apply_global_options p config = (not (is_nil p.global_options), apply_texts config p.global_options)

unfoldable pub apply_options : OptionParser → Str → Configuration → Bool × Configuration
unfolding apply_texts contains lookup
apply_options p identifier config =
    if not (contains identifier p.identifier_options)
    then (false, config)
    else (true, apply_texts config (options_of (lookup identifier p.identifier_options)))
