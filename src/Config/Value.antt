-- ===== src/Config/Value.antt =====
-- `Configuration::parse_value`: a value as a tree of bracketed lists.
pub mod Fuel
pub mod Items
pub mod Plain
pub mod Lists
use allpix_fork.Base.{
  ℕ, zero, suc, ◌+◌, ◌-◌, Bool, true, false, not, ◌&&◌, ◌||◌, List, [], ◌∷◌, ◌++◌, Option, none,
  some, ◌==◌, ltb, if◌then◌else◌, Str, Dict, is_space, back, length, take, drop, Result, ok, err,
  ◌>>=◌, ◌>>◌, throw_if, invalid_argument, element_is_empty, quotes_not_balanced,
  invalid_start_bracket, brackets_not_matched, brackets_not_balanced, invalid_end_bracket,
  undefined_behaviour, out_of_fuel,
}
use allpix_fork.Text.{trim, is_empty, is_quote}

-- `parse_node`.
mutual
  pub data Node : Type 0 where
    node : Str → Nodes → Node

  pub data Nodes : Type 0 where
    nil : Nodes
    cons : Node → Nodes → Nodes

abbrev pub value : Node → Str
value (node v ns) = v

abbrev pub children : Node → Nodes
children (node v ns) = ns

abbrev pub push_back : Nodes → Node → Nodes
push_back nil n = cons n nil
push_back (cons m ns) n = cons m (push_back ns n)

-- The state of the loop over the characters. `quote` is the mark that `str.find` is looking for, `prev`
-- the character before this one, none at the first, and `item` the text from `lst` to this one.
pub record Scan : Type 0 where
  pub quote : Option ℕ
  pub prev : Option ℕ
  pub in_dpt : ℕ
  pub in_dpt_chg : Bool
  pub item : Str
  pub nodes : Nodes

-- On zero level a pair of brackets is added implicitly.
abbrev pub start : Bool → Scan
start top = record {
  quote = none;
  prev = none;
  in_dpt = if top then 1 else 0;
  in_dpt_chg = false;
  item = [];
  nodes = nil;
}

abbrev pub is_some : Option ℕ → Bool
is_some none = false
is_some (some c) = true

-- The character goes to the item, but for the first one below zero level, which `lst` passes over.
abbrev pub keep : Bool → Scan → ℕ → Scan
keep top s c = record s {
  prev = some c;
  item = if top || is_some s.prev then s.item ++ (c ∷ []) else s.item;
}

-- `++in_dpt` and `--in_dpt`, with the checks in front of them.
abbrev pub brackets : Scan → ℕ → Result Scan
brackets s c =
    if c == b'['
    then throw_if (not s.in_dpt_chg && is_some s.prev) (invalid_argument invalid_start_bracket)
      >> ok (record s { in_dpt = s.in_dpt + 1; in_dpt_chg = true })
    else if c == b']'
    then throw_if (s.in_dpt == 0) (invalid_argument brackets_not_matched)
      >> ok (record s { in_dpt = s.in_dpt - 1; in_dpt_chg = true })
    else ok s

-- `isspace(str[i - 1]) == 0 && str[i - 1] != ','`; at the first character the read is out of bounds.
abbrev pub after_item : Option ℕ → Result Bool
after_item none = err undefined_behaviour
after_item (some c) = ok (not (is_space c) && not (c == b','))

-- Whether this character ends an item at the zero level.
abbrev pub separates : Scan → ℕ → Result Bool
separates s c =
    if s.in_dpt == 1
    then if c == b',' then ok true else if is_space c then after_item s.prev else ok false
    else ok false

-- `child` parses an item one level down.
module _ (child : Str → Result Node) (top : Bool) where
  unfoldable pub finish_item : Scan → ℕ → Bool → Result Scan
  finish_item s c true =
      child s.item >>= λ n. ok (record s { prev = some c; item = []; nodes = push_back s.nodes n })
  finish_item s c false = ok (keep top s c)

  abbrev pub closes_quote : ℕ → ℕ → Option ℕ
  closes_quote q c = if c == q then none else some q

  abbrev pub unquoted : Scan → ℕ → Result Scan
  unquoted s c =
      if is_quote c
      then ok (record (keep top s c) { quote = some c })
      else (brackets s c >>= λ t. separates t c >>= λ b. finish_item t c b)

  unfoldable pub step : Scan → ℕ → Result Scan
  unfolding finish_item
  step s c = elim s.quote [
    | some q ↦ ok (record (keep top s c) { quote = closes_quote q c })
    | none ↦ unquoted s c
  ]

  unfoldable pub scan : Scan → Str → Result Scan
  scan s [] = ok s
  scan s (c ∷ str) = step s c >>= λ t. scan t str

-- All but the last character.
abbrev pub drop_last : Str → Str
drop_last [] = []
drop_last (c ∷ []) = []
drop_last (c ∷ d ∷ s) = c ∷ drop_last (d ∷ s)

abbrev pub ends_with : ℕ → Str → Bool
ends_with q s = elim (back s) [ none ↦ false | some c ↦ c == q ]

-- Zero level where brackets were explicitly added.
abbrev pub unwrap : Node → Node
unwrap (node v (cons (node w (cons n ns)) nil)) = node w (cons n ns)
unwrap n = n

-- What follows the loop.
unfoldable pub finish : (Str → Result Node) → Bool → Str → Scan → Result Node
finish child top str s =
    throw_if (is_some s.quote) (invalid_argument quotes_not_balanced)
    >> throw_if (not (s.in_dpt == (if top then 1 else 0))) (invalid_argument brackets_not_balanced)
    >> (if top
        then (child s.item >>= λ n. ok (unwrap (node str (push_back s.nodes n))))
        else if s.in_dpt_chg
        then throw_if (not (ends_with b']' str)) (invalid_argument invalid_end_bracket)
          >> (child (drop_last s.item) >>= λ n.
              ok (node (drop_last (drop 1 str)) (push_back s.nodes n)))
        else ok (node str nil))

-- The body of `parse_value` on the trimmed string.
unfoldable pub parse_trimmed : (Str → Result Node) → Bool → Str → Result Node
unfolding scan finish
parse_trimmed child top [] = err (invalid_argument element_is_empty)
parse_trimmed child top (c ∷ str) =
    scan child top (start top) (c ∷ str) >>= λ s. finish child top (c ∷ str) s

-- `parse_value(str, depth)`; `top` is `depth == 0`. An item is shorter than the text that it stands in,
-- but at zero level, where it may be all of it.
unfoldable pub parse_fuel : ℕ → Bool → Str → Result Node
unfolding parse_trimmed
parse_fuel zero top str0 = err out_of_fuel
parse_fuel (suc fuel) top str0 = parse_trimmed (parse_fuel fuel false) top (trim str0)

unfoldable pub parse_value : Str → Result Node
unfolding parse_fuel
parse_value str = parse_fuel (length str + 2) true str
