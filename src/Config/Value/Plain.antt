-- ===== src/Config/Value/Plain.antt =====
-- Values whose items hold no quotation mark, bracket, comma or space.
use allpix_fork.Base.{
  ℕ, suc, ◌≡◌, refl, sym, ap, ◌∙◌, Bool, true, false, List, [], ◌∷◌, ◌++◌, none, some, arith, All,
  Str, Result, ok, append-nil,
}
use allpix_fork.Text.{is_empty}
use allpix_fork.Config.Value.{
  Node, Nodes, nil, cons, node, push_back, Scan, scan, finish, start, keep, parse_trimmed,
  parse_fuel, unwrap,
}
use allpix_fork.Config.Value.Items.{
  IsItem, trim_item, kept, step-plain, scan-step, scan-plain, leaf, push_all, separated, items,
  scan-separated, push_all-concat, push_all-cons,
}

-- A list of values with nothing below them.
abbrev pub leaves : List Str → Nodes
leaves [] = nil
leaves (w ∷ ws) = cons (leaf w) (leaves ws)

push_all-leaves : (ws : List Str) → push_all nil ws ≡ leaves ws
push_all-leaves [] = refl
push_all-leaves (w ∷ ws) = push_all-cons (leaf w) nil ws ∙ ap (cons (leaf w)) (push_all-leaves ws)

unwrap-leaves :
    (t x : Str) (ws : List Str) → unwrap (node t (leaves (x ∷ ws))) ≡ node t (leaves (x ∷ ws))
unwrap-leaves t x [] = refl
unwrap-leaves t x (w ∷ ws) = refl

unwrap-concat :
    (t w : Str) (ws : List Str)
    → unwrap (node t (leaves (ws ++ (w ∷ [])))) ≡ node t (leaves (ws ++ (w ∷ [])))
unwrap-concat t w [] = refl
unwrap-concat t w (x ∷ ws) = unwrap-leaves t x (ws ++ (w ∷ []))

finish-kept :
    (child : Str → Result Node) (c : ℕ) (w : Str)
    → finish child false (c ∷ w) (kept (record (start false) { prev = some c }) w)
      ≡ ok (leaf (c ∷ w))
unfolding finish
finish-kept child c w = refl

module _ (child : Str → Result Node) (top : Bool) where
  scan-nil : (s : Scan) → scan child top s [] ≡ ok s
  unfolding scan
  scan-nil s = refl

  parse_trimmed-scan :
      (c : ℕ) (str : Str) (s : Scan)
      → scan child top (start top) (c ∷ str) ≡ ok s
      → parse_trimmed child top (c ∷ str) ≡ finish child top (c ∷ str) s
  unfolding parse_trimmed
  parse_trimmed-scan c str s h = rw h refl

item-trimmed :
    (child : Str → Result Node) (w : Str) → IsItem w → parse_trimmed child false w ≡ ok (leaf w)
item-trimmed child [] i = cc (i.nonempty)
item-trimmed child (c ∷ w) i =
    parse_trimmed-scan child false c w (kept first w) (
      scan-step child false (start false) first c w
        (step-plain child false (start false) c refl (ground (arith, i.plain)))
      ∙ ap (scan child false first) (sym (append-nil w))
      ∙ scan-plain child false w [] first refl refl (ground (arith, i.plain))
      ∙ scan-nil child false (kept first w))
    ∙ finish-kept child c w
  where
    first : Scan
    first = keep false (start false) c

-- An item is a leaf, at any depth below zero.
pub parse-item : (fuel : ℕ) (w : Str) → IsItem w → parse_fuel (suc fuel) false w ≡ ok (leaf w)
unfolding parse_fuel
parse-item fuel w i = rw (trim_item w i) (item-trimmed (parse_fuel fuel false) w i)

pub All-item :
    (fuel : ℕ) (ws : List Str)
    → All IsItem ws
    → All (λ w. parse_fuel (suc fuel) false w ≡ ok (leaf w)) ws
All-item fuel [] i = tt
All-item fuel (w ∷ ws) i = (parse-item fuel w i.0, All-item fuel ws i.1)

-- The text of a list of items.
abbrev pub listed : List Str → Str → Str
listed ws w = separated ws ++ w

finish_top :
    (child : Str → Result Node) (str : Str) (s : Scan) (n : Node)
    → s.quote ≡ none
    → s.in_dpt ≡ 1
    → child s.item ≡ ok n
    → finish child true str s ≡ ok (unwrap (node str (push_back s.nodes n)))
unfolding finish
finish_top child str s n q d h = rw (q, d, h) refl

list-scan :
    (child : Str → Result Node) (ws : List Str) (w : Str)
    → All IsItem ws
    → IsItem w
    → All (λ x. child x ≡ ok (leaf x)) ws
    → scan child true (start true) (listed ws w) ≡ ok (kept (items (start true) ws) w)
list-scan child ws w i j h =
    scan-separated child true ws w (start true) refl refl refl refl i h
    ∙ ap (scan child true (items (start true) ws)) (sym (append-nil w))
    ∙ scan-plain child true w [] (items (start true) ws) refl refl j.plain
    ∙ scan-nil child true (kept (items (start true) ws) w)

pub list-trimmed :
    (child : Str → Result Node) (ws : List Str) (w t : Str)
    → listed ws w ≡ t
    → is_empty t ≡ false
    → All IsItem ws
    → IsItem w
    → All (λ x. child x ≡ ok (leaf x)) ws
    → child w ≡ ok (leaf w)
    → parse_trimmed child true t ≡ ok (node t (leaves (ws ++ (w ∷ []))))
list-trimmed child ws w [] e n i j h k = cc
list-trimmed child ws w (c ∷ t) e n i j h k =
    parse_trimmed-scan child true c t (kept (items (start true) ws) w)
      (ap (scan child true (start true)) (sym e) ∙ list-scan child ws w i j h)
    ∙ finish_top child (c ∷ t) (kept (items (start true) ws) w) (leaf w) refl refl k
    ∙ ap (λ ns. ok (unwrap (node (c ∷ t) ns)))
        (push_all-concat nil ws w ∙ push_all-leaves (ws ++ (w ∷ [])))
    ∙ ap ok (unwrap-concat (c ∷ t) w ws)
