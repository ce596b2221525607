-- ===== src/Config/Value/Items.antt =====
-- src/core/config/Configuration.cpp: the scan of items that hold no quotation mark, bracket, comma or space.
use allpix_fork.Base.{
  ℕ, ◌≡◌, refl, ap, ◌∙◌, Bool, true, false, not, ◌&&◌, ◌||◌, List, [], ◌∷◌, ◌++◌, Option, none,
  some, arith, ◌==◌, all, All, Str, elem, Result, ok, is_space, append_assoc, append-nil,
  find_first_of,
}
use allpix_fork.Text.{trim, is_empty, whitespace, is_quote}
use allpix_fork.Text.Trim.{trim_trimmed}
use allpix_fork.Text.Convert.{IsWord-IsTrimmed}
use allpix_fork.Config.Value.{
  Node, Nodes, nil, cons, node, push_back, Scan, step, scan, is_some, keep,
}

abbrev pub is_plain : ℕ → Bool
is_plain c =
    not (is_quote c)
    && (not (c == b'[') && (not (c == b']') && (not (c == b',') && not (is_space c))))

-- An item that `parse_value` takes as it stands.
pub record IsItem (w : Str) : Type 0 where
  pub nonempty : is_empty w ≡ false
  pub plain : all is_plain w ≡ true

pub plain-whitespace : (c : ℕ) → is_plain c ≡ true → elem c whitespace ≡ false
unfolding is_space elem
plain-whitespace c h = ground arith

plain-no_space : (w : Str) → all is_plain w ≡ true → find_first_of whitespace w ≡ none
unfolding find_first_of
plain-no_space [] h = refl
plain-no_space (c ∷ w) h = ground (arith, plain-whitespace c, plain-no_space w)

pub trim_item : (w : Str) → IsItem w → trim w ≡ w
unfolding trim
trim_item w i =
    trim_trimmed whitespace w
      (IsWord-IsTrimmed (record { nonempty = i.nonempty; no_space = plain-no_space w i.plain }))

abbrev last_of : Option ℕ → Str → Option ℕ
last_of p [] = p
last_of p (c ∷ w) = last_of (some c) w

-- The state behind a run of characters that all go to the item.
abbrev pub kept : Scan → Str → Scan
kept s w = record s { prev = last_of s.prev w; item = s.item ++ w }

module _ (child : Str → Result Node) (top : Bool) where
  pub step-plain :
      (s : Scan) (c : ℕ)
      → s.quote ≡ none
      → is_plain c ≡ true
      → step child top s c ≡ ok (keep top s c)
  unfolding step
  step-plain s c q h = ground arith

  pub scan-step :
      (s t : Scan) (c : ℕ) (rest : Str)
      → step child top s c ≡ ok t
      → scan child top s (c ∷ rest) ≡ scan child top t rest
  unfolding scan
  scan-step s t c rest h = rw h refl

  keep-kept : (s : Scan) (c : ℕ) → (top || is_some s.prev) ≡ true → keep top s c ≡ kept s (c ∷ [])
  keep-kept s c h = rw h refl

  pub scan-plain :
      (w rest : Str) (s : Scan)
      → s.quote ≡ none
      → (top || is_some s.prev) ≡ true
      → all is_plain w ≡ true
      → scan child top s (w ++ rest) ≡ scan child top (kept s w) rest
  scan-plain [] rest s q p h = rw append-nil refl
  scan-plain (c ∷ w) rest s q p h =
      scan-step s (kept s (c ∷ [])) c (w ++ rest)
        (step-plain s c q (ground arith) ∙ ap ok (keep-kept s c p))
      ∙ scan-plain w rest (kept s (c ∷ [])) q (ground arith) (ground arith)
      ∙ rw (append_assoc s.item (c ∷ []) w) refl

  step_comma :
      (s : Scan) (n : Node)
      → s.quote ≡ none
      → s.in_dpt ≡ 1
      → child s.item ≡ ok n
      → step child top s b','
        ≡ ok (record s { prev = some b','; item = []; nodes = push_back s.nodes n })
  unfolding step
  step_comma s n q d e = ground arith

abbrev pub leaf : Str → Node
leaf w = node w nil

abbrev pub push_all : Nodes → List Str → Nodes
push_all ns [] = ns
push_all ns (w ∷ ws) = push_all (push_back ns (leaf w)) ws

-- Every item with a comma behind it.
abbrev pub separated : List Str → Str
separated [] = []
separated (w ∷ ws) = w ++ (b',' ∷ separated ws)

abbrev last_comma : Option ℕ → List Str → Option ℕ
last_comma p [] = p
last_comma p (w ∷ ws) = last_comma (some b',') ws

abbrev pub items : Scan → List Str → Scan
items s ws = record s { prev = last_comma s.prev ws; item = []; nodes = push_all s.nodes ws }

module _ (child : Str → Result Node) (top : Bool) where
  pub scan-separated :
      (ws : List Str) (rest : Str) (s : Scan)
      → s.quote ≡ none
      → s.in_dpt ≡ 1
      → s.item ≡ []
      → (top || is_some s.prev) ≡ true
      → All IsItem ws
      → All (λ w. child w ≡ ok (leaf w)) ws
      → scan child top s (separated ws ++ rest) ≡ scan child top (items s ws) rest
  scan-separated [] rest s q d e p i h = ap (λ x. scan child top (record s { item = x }) rest) e
  scan-separated (w ∷ ws) rest s q d e p i h = rw (append_assoc w (b',' ∷ separated ws) rest) (
      scan-plain child top w (b',' ∷ (separated ws ++ rest)) s q p i.0.plain
      ∙ scan-step child top (kept s w) (items s (w ∷ [])) b',' (separated ws ++ rest)
          (step_comma child top (kept s w) (leaf w) q d (rw e h.0))
      ∙ scan-separated ws rest (items s (w ∷ [])) q d refl (ground arith) i.1 h.1)

pub push_all-concat :
    (ns : Nodes) (ws : List Str) (w : Str)
    → push_back (push_all ns ws) (leaf w) ≡ push_all ns (ws ++ (w ∷ []))
push_all-concat ns [] w = refl
push_all-concat ns (x ∷ ws) w = push_all-concat (push_back ns (leaf x)) ws w

pub push_all-cons :
    (n : Node) (ns : Nodes) (ws : List Str) → push_all (cons n ns) ws ≡ cons n (push_all ns ws)
push_all-cons n ns [] = refl
push_all-cons n ns (w ∷ ws) = push_all-cons n (push_back ns (leaf w)) ws
