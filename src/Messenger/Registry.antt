-- ===== src/Messenger/Registry.antt =====
-- src/core/messenger/Messenger.cpp: the registration and removal of delegates, and `isSatisfied`.
use allpix_fork.Base.{
  ℕ, Bool, true, false, not, List, [], ◌∷◌, ◌++◌, Option, none, some, ◌==◌, if◌then◌else◌, Str,
  codes, Dict, lookup, is_some, Result, ok, err, ◌>>=◌, out_of_range,
}
use allpix_fork.Messenger.{
  TypeIndex, Module, BaseDelegate, DelegateTypes, Messenger, LocalMessenger, or_empty, at_both,
  put_both, setting,
}

-- `LocalMessenger::isSatisfied`.
abbrev pub find_delegate : ℕ → List (ℕ × TypeIndex × Str) → Option (TypeIndex × Str)
find_delegate id [] = none
find_delegate id ((i, t, n) ∷ rest) = if i == id then some (t, n) else find_delegate id rest

unfoldable pub satisfied_by : Option (Dict DelegateTypes) → Option (TypeIndex × Str) → Result Bool
unfolding lookup
satisfied_by none place = ok false
satisfied_by (some m) none = err out_of_range
satisfied_by (some m) (some (t, n)) = ok (is_some (lookup t m))

unfoldable pub is_satisfied : Messenger → LocalMessenger → BaseDelegate → Result Bool
unfolding lookup
is_satisfied g l d =
    satisfied_by (lookup d.obj.unique_name l.messages) (find_delegate d.id g.delegate_to_iterator)

-- The name under which `add_delegate` registers.
unfoldable pub listened_name : BaseDelegate → Module → Result Str
unfolding setting
listened_name d m =
    if d.flags.ignore_name
    then ok (codes "*")
    else if d.flags.unnamed_only
    then ok (codes "?")
    else setting m (codes "input")

-- `emplace`, which leaves an entry that is there.
abbrev pub emplace_place :
    ℕ → TypeIndex → Str → List (ℕ × TypeIndex × Str) → List (ℕ × TypeIndex × Str)
emplace_place id t n m = if is_some (find_delegate id m) then m else (id, t, n) ∷ m

-- `add_delegate(message_type, module, delegate)`, without the entry in the module's own list.
unfoldable pub add_delegate : Messenger → TypeIndex → Module → BaseDelegate → Result Messenger
unfolding listened_name at_both put_both
add_delegate g t m d = listened_name d m >>= λ n. ok (record {
  delegates = put_both t n (or_empty (at_both t n g.delegates) ++ (d ∷ [])) g.delegates;
  delegate_to_iterator = emplace_place d.id t n g.delegate_to_iterator;
})

-- The erasure at an iterator: the element of that delegate.
abbrev pub erase_delegate : ℕ → List BaseDelegate → List BaseDelegate
erase_delegate id [] = []
erase_delegate id (d ∷ ds) = if d.id == id then ds else d ∷ erase_delegate id ds

abbrev pub erase_place : ℕ → List (ℕ × TypeIndex × Str) → List (ℕ × TypeIndex × Str)
erase_place id [] = []
erase_place id ((i, t, n) ∷ rest) = if i == id then rest else (i, t, n) ∷ erase_place id rest

unfoldable pub remove_at : Messenger → ℕ → Option (TypeIndex × Str) → Result Messenger
unfolding at_both put_both
remove_at g id none = err out_of_range
remove_at g id (some (t, n)) = ok (record {
  delegates = put_both t n (erase_delegate id (or_empty (at_both t n g.delegates))) g.delegates;
  delegate_to_iterator = erase_place id g.delegate_to_iterator;
})

-- `remove_delegate(delegate)`.
unfoldable pub remove_delegate : Messenger → ℕ → Result Messenger
remove_delegate g id = remove_at g id (find_delegate id g.delegate_to_iterator)

-- `check_delegates` of module/Module.cpp, on the delegates of a module, up to the first that is not satisfied.
unfoldable pub check_delegates : Messenger → LocalMessenger → List BaseDelegate → Result Bool
unfolding is_satisfied
check_delegates g l [] = ok true
check_delegates g l (d ∷ ds) =
    let rest = check_delegates g l ds in
    if not d.flags.required
    then rest
    else (is_satisfied g l d >>= λ b. if b then rest else ok false)
