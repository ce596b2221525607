-- ===== src/Config.antt =====
-- src/core/config/Configuration.cpp and Configuration.tpp: the keys of one section, with the markers of
-- those that have been read.
pub mod Markers
pub mod Value
pub mod Access
pub mod Paths
pub mod Reader
mod Tests
use allpix_fork.Base.{
  ℕ, ◌+◌, Bool, true, false, not, ◌&&◌, ◌||◌, List, [], ◌∷◌, ◌++◌, Option, none, some, ◌==◌,
  if◌then◌else◌, Str, Dict, lookup, insert, contains, Result, ok, err, ◌>>=◌, ◌>>◌, throw_if, catch,
  Error, invalid_argument, out_of_range, missing_key, no_keys, path_not_found,
}

-- `AccessMarker` is the dictionary `used_keys`.
pub record Configuration : Type 0 where
  pub name : Str
  pub path : Str
  pub config : Dict Str
  pub used_keys : Dict Bool

-- `Configuration(name, path)`.
abbrev pub new : Str → Str → Configuration
new name path = record { name = name; path = path; config = []; used_keys = [] }

-- `registerMarker`: `emplace` leaves a marker that is there as it is.
unfoldable pub register_marker : Str → Dict Bool → Dict Bool
register_marker key markers = if contains key markers then markers else insert key false markers

abbrev pub at {ℓ} : {V : Type ℓ} → Option V → Result V
at none = err out_of_range
at (some v) = ok v

-- `markUsed` and `isUsed`.
unfoldable pub mark_used : Str → Dict Bool → Result (Dict Bool)
mark_used key markers = at (lookup key markers) >>= λ _. ok (insert key true markers)

unfoldable pub is_used : Str → Dict Bool → Result Bool
is_used key markers = at (lookup key markers)

-- `AccessMarker::operator=` and the copy constructor: the markers of the right side are stored on top of
-- those that are there.
unfoldable pub assign_markers : Dict Bool → Dict Bool → Dict Bool
unfolding register_marker
assign_markers [] markers = markers
assign_markers ((key, value) ∷ rhs) markers =
    assign_markers rhs (insert key value (register_marker key markers))

-- `operator=` of a configuration.
unfoldable pub assign : Configuration → Configuration → Configuration
assign lhs rhs = record rhs { used_keys = assign_markers rhs.used_keys lhs.used_keys }

unfoldable pub has : Configuration → Str → Bool
has c key = contains key c.config

unfoldable pub count_keys : Configuration → List Str → ℕ
count_keys c [] = 0
count_keys c (key ∷ keys) = (if has c key then 1 else 0) + count_keys c keys

abbrev no_key : List Str → Bool
no_key [] = true
no_key (k ∷ ks) = false

unfoldable pub count : Configuration → List Str → Result ℕ
unfolding count_keys
count c keys = throw_if (no_key keys) (invalid_argument no_keys) >> ok (count_keys c keys)

-- `catch(std::out_of_range&)` that becomes a `MissingKeyError`.
abbrev pub or_missing {ℓ} : {A : Type ℓ} → Str → Str → Error → Result A
or_missing key section out_of_range = err (missing_key key section)
or_missing key section e = err e

-- `getText(key)`: the text, and the configuration with the key marked.
unfoldable pub get_text : Configuration → Str → Result (Str × Configuration)
unfolding mark_used
get_text c key =
    catch
      (mark_used key c.used_keys >>= λ used.
        at (lookup key c.config) >>= λ text. ok (text, record c { used_keys = used }))
      (or_missing key c.name)

-- `getText(key, def)`.
unfoldable pub get_text_or : Configuration → Str → Str → Result (Str × Configuration)
unfolding get_text
get_text_or c key def = if has c key then get_text c key else ok (def, c)

unfoldable pub set_text : Configuration → Str → Str → Configuration
set_text c key val = record c {
  config = insert key val c.config;
  used_keys = register_marker key c.used_keys;
}

-- `setAlias`, without the warning that it may log.
unfoldable pub set_alias : Configuration → Str → Str → Result Configuration
unfolding mark_used
set_alias c new_key old_key =
    if not (has c old_key) || has c new_key
    then ok c
    else catch
        (at (lookup old_key c.config) >>= λ text.
          mark_used old_key (register_marker new_key c.used_keys) >>= λ used.
          ok (record c { config = insert new_key text c.config; used_keys = used }))
        (or_missing old_key c.name)

-- `merge`: the loop over the other configuration.
unfoldable pub merge_entries : Configuration → Dict Str → Configuration
merge_entries c [] = c
merge_entries c ((key, value) ∷ other) =
    merge_entries (if has c key then c else set_text c key value) other

abbrev pub merge : Configuration → Configuration → Configuration
merge c other = merge_entries c other.config

abbrev pub is_internal : Str → Bool
is_internal [] = false
is_internal (c ∷ key) = c == b'_'

-- `getAll`.
abbrev pub visible : Dict Str → Dict Str
visible [] = []
visible ((key, value) ∷ m) = if is_internal key then visible m else (key, value) ∷ visible m

unfoldable pub get_all : Configuration → Dict Str
get_all c = visible c.config

abbrev pub unused_loop : Dict Bool → Dict Str → Result (List Str)
unused_loop used [] = ok []
unused_loop used ((key, value) ∷ m) =
    is_used key used >>= λ u. unused_loop used m >>= λ keys. ok (if u then keys else key ∷ keys)

unfoldable pub get_unused_keys : Configuration → Result (List Str)
get_unused_keys c = unused_loop c.used_keys (get_all c)

-- `path_to_absolute`: paths and their operations are those of `std::filesystem`; `canonical` is `none`
-- where it throws.
pub record FileSystem : Type 0 where
  pub is_absolute : Str → Bool
  pub parent_path : Str → Str
  pub join : Str → Str → Str
  pub canonical : Str → Option Str

abbrev or_not_found : Option Str → Result Str
or_not_found none = err (invalid_argument path_not_found)
or_not_found (some p) = ok p

unfoldable pub path_to_absolute : FileSystem → Configuration → Str → Bool → Result Str
path_to_absolute fs c path0 canonicalize_path =
    let path = if fs.is_absolute path0 then path0 else fs.join (fs.parent_path c.path) path0 in
    if canonicalize_path then or_not_found (fs.canonical path) else ok path
