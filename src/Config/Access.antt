-- ===== src/Config/Access.antt =====
-- `get`, `getArray`, `getMatrix` and the setters of Configuration.tpp. A conversion `conv` is
-- `from_string<T>` and `show` is `to_string`. An exception ends the access: the marker that it may have
-- set is not kept.
pub mod RoundTrip
use allpix_fork.Base.{
  ℕ, Bool, true, false, not, List, [], ◌∷◌, ◌++◌, Option, none, some, if◌then◌else◌, Str, lookup,
  insert, Result, ok, err, ◌>>=◌, ◌>>◌, throw_if, catch, Error, invalid_argument, out_of_range,
  codes, overflow_error, missing_key, invalid_key, matrix_dimensions, undefined_behaviour,
}
use allpix_fork.Text.{split}
use allpix_fork.Config.{Configuration, at, has, mark_used, register_marker}
use allpix_fork.Config.Value.{Node, Nodes, nil, cons, value, children, parse_value, drop_last}

-- The handlers behind an access.
abbrev pub key_error {ℓ} : {A : Type ℓ} → Str → Str → Str → Error → Result A
key_error key section text out_of_range = err (missing_key key section)
key_error key section text (invalid_argument r) = err (invalid_key key section text)
key_error key section text overflow_error = err (invalid_key key section text)
key_error key section text e = err e

-- The handler round one conversion.
abbrev pub value_error {ℓ} : {A : Type ℓ} → Str → Str → Str → Error → Result A
value_error key section text (invalid_argument r) = err (invalid_key key section text)
value_error key section text e = err e

-- The text of a key, where an error message shows it.
abbrev pub text_of : Option Str → Str
text_of none = []
text_of (some s) = s

module _ {ℓ} {T : Type ℓ} (conv : Str → Result T) where
  -- One conversion, with its handler.
  unfoldable pub convert_value : Configuration → Str → Str → Result T
  convert_value c key text = catch (conv text) (value_error key c.name text)

  -- `get<T>(key)`.
  unfoldable pub get : Configuration → Str → Result (T × Configuration)
  unfolding mark_used
  get c key =
      catch
        (at (lookup key c.config) >>= λ str. parse_value str >>= λ node.
          mark_used key c.used_keys >>= λ used.
          convert_value c key (value node) >>= λ v. ok (v, record c { used_keys = used }))
        (key_error key c.name (text_of (lookup key c.config)))

  -- `get<T>(key, def)`.
  unfoldable pub get_or : Configuration → Str → T → Result (T × Configuration)
  unfolding get
  get_or c key def = if has c key then get c key else ok (def, c)

  -- The loop of `getArray` over the children of a node.
  unfoldable pub convert_children : Configuration → Str → Nodes → Result (List T)
  unfolding convert_value
  convert_children c key nil = ok []
  convert_children c key (cons n ns) =
      convert_value c key (value n) >>= λ v. convert_children c key ns >>= λ vs. ok (v ∷ vs)

  -- `getArray<T>(key)`.
  unfoldable pub get_array : Configuration → Str → Result (List T × Configuration)
  unfolding mark_used
  get_array c key =
      catch
        (at (lookup key c.config) >>= λ str. mark_used key c.used_keys >>= λ used.
          parse_value str >>= λ node.
          convert_children c key (children node) >>= λ vs. ok (vs, record c { used_keys = used }))
        (key_error key c.name (text_of (lookup key c.config)))

  unfoldable pub get_array_or : Configuration → Str → List T → Result (List T × Configuration)
  unfolding get_array
  get_array_or c key def = if has c key then get_array c key else ok (def, c)

  abbrev no_children : Nodes → Bool
  no_children nil = true
  no_children (cons n ns) = false

  -- The loop of `getMatrix` over the rows.
  unfoldable pub convert_rows : Configuration → Str → Nodes → Result (List (List T))
  unfolding convert_children
  convert_rows c key nil = ok []
  convert_rows c key (cons n ns) =
      throw_if (no_children (children n)) (invalid_argument matrix_dimensions)
      >> (convert_children c key (children n) >>= λ row.
          convert_rows c key ns >>= λ rows. ok (row ∷ rows))

  -- `getMatrix<T>(key)`.
  unfoldable pub get_matrix : Configuration → Str → Result (List (List T) × Configuration)
  unfolding mark_used
  get_matrix c key =
      catch
        (at (lookup key c.config) >>= λ str. mark_used key c.used_keys >>= λ used.
          parse_value str >>= λ node.
          convert_rows c key (children node) >>= λ vs. ok (vs, record c { used_keys = used }))
        (key_error key c.name (text_of (lookup key c.config)))

  unfoldable pub get_matrix_or :
      Configuration → Str → List (List T) → Result (List (List T) × Configuration)
  unfolding get_matrix
  get_matrix_or c key def = if has c key then get_matrix c key else ok (def, c)

-- `str.pop_back()`, which is undefined on an empty string.
abbrev pub pop_back : Str → Result Str
pop_back [] = err undefined_behaviour
pop_back (c ∷ s) = ok (drop_last (c ∷ s))

-- The assignments at the end of the setters.
unfoldable pub store : Configuration → Str → Str → Bool → Result Configuration
unfolding mark_used register_marker
store c key str mark =
    let c' = record c {
      config = insert key str c.config;
      used_keys = register_marker key c.used_keys;
    } in
    let marked = mark_used key c'.used_keys >>= λ used. ok (record c' { used_keys = used }) in
    if mark then marked else ok c'

module _ {ℓ} {T : Type ℓ} (show : T → Str) where
  -- `set<T>(key, val, mark_used)`.
  unfoldable pub set : Configuration → Str → T → Bool → Result Configuration
  unfolding store
  set c key val mark = store c key (show val) mark

  unfoldable pub set_default : Configuration → Str → T → Result Configuration
  unfolding set
  set_default c key val = if has c key then ok c else set c key val true

  -- The loop that appends every element and a comma.
  unfoldable pub append_elements : Str → List T → Str
  append_elements str [] = str
  append_elements str (el ∷ val) = append_elements ((str ++ show el) ++ (b',' ∷ [])) val

  -- `setArray<T>(key, val, mark_used)`.
  unfoldable pub set_array : Configuration → Str → List T → Bool → Result Configuration
  unfolding append_elements store
  set_array c key val mark = pop_back (append_elements [] val) >>= λ str. store c key str mark

  unfoldable pub set_default_array : Configuration → Str → List T → Result Configuration
  unfolding set_array
  set_default_array c key val = if has c key then ok c else set_array c key val true

  -- The loop of `setMatrix`; the string is never empty where `pop_back` is called.
  unfoldable pub append_rows : Str → List (List T) → Str
  unfolding append_elements
  append_rows str [] = str
  append_rows str (col ∷ val) =
      append_rows (drop_last (append_elements (str ++ (b'[' ∷ [])) col) ++ (b']' ∷ b',' ∷ [])) val

  -- `setMatrix<T>(key, val)`.
  unfoldable pub set_matrix : Configuration → Str → List (List T) → Result Configuration
  unfolding append_rows store
  set_matrix c key [] = ok c
  set_matrix c key (col ∷ val) =
      store c key (drop_last (append_rows (b'[' ∷ []) (col ∷ val)) ++ (b']' ∷ [])) false

-- `set<T>(key, val, units)`; `conv` is `from_string<Units::UnitType>` and `display` is `Units::display`.
module _ {ℓ κ} {T : Type ℓ} {U : Type κ} (show : T → Str) (conv : Str → Result U)
    (display : U → List Str → Result Str) where
  unfoldable pub append_displayed : Str → List U → List Str → Result Str
  append_displayed ret_str [] units = ok ret_str
  append_displayed ret_str (element ∷ rest) units =
      display element units >>= λ s. append_displayed (ret_str ++ (s ++ (b',' ∷ []))) rest units

  unfoldable pub set_units : Configuration → Str → T → List Str → Result Configuration
  unfolding split append_displayed store
  set_units c key val units = split conv (show val) (codes " \t,") >>= λ elements.
      append_displayed [] elements units >>= λ ret_str.
      pop_back ret_str >>= λ str. store c key str false
