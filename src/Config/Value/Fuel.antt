-- ===== src/Config/Value/Fuel.antt =====
-- `parse_value` ends: the fuel of the model is never used up.
use allpix_fork.Base.{
  ℕ, zero, suc, ◌+◌, ◌≤◌, ◌<◌, ◌≡◌, refl, ap, Bool, true, false, ◌||◌, [], ◌∷◌, ◌++◌, Option, some,
  none, arith, if◌then◌else◌, Str, length, length-append, Result, ok, err, ◌>>=◌, Error, Reason,
  invalid_argument, undefined_behaviour, ◌⊎◌, inl, inr,
}
use allpix_fork.Text.{trim, whitespace, is_quote}
use allpix_fork.Text.Trim.{trim-splits}
use allpix_fork.Config.Value.{
  Node, Scan, keep, brackets, separates, finish_item, closes_quote, unquoted, push_back, step, scan,
  finish, start, is_some, drop_last, parse_trimmed, parse_fuel, parse_value,
}

-- The exception of `parse_value`, and the read in front of a text.
abbrev is_thrown : Error → Bool
is_thrown (invalid_argument r) = true
is_thrown undefined_behaviour = true
is_thrown e = false

-- No error, or one that the program has.
abbrev Ends : {A : Type 0} → Result A → Type 0
Ends (ok a) = Unit {0}
Ends (err e) = is_thrown e ≡ true

-- Room for the item and `n` more characters, once the first character has been read.
abbrev Within : ℕ → ℕ → Result Scan → Type 0
Within L n (ok t) = (length t.item + n ≤ L) × (is_some t.prev ≡ true)
Within L n (err e) = is_thrown e ≡ true

abbrev slack : Bool → Option ℕ → ℕ
slack top prev = if top || is_some prev then 0 else 1

length-trim : (s : Str) → length (trim s) ≤ length s
unfolding trim
length-trim s =
    let (pre, post, e, p, q) = trim-splits whitespace s in
    omega (arith, ap length e, length-append pre (trim s ++ post), length-append (trim s) post)

length-drop_last : (s : Str) → length (drop_last s) ≤ length s
length-drop_last [] = omega arith
length-drop_last (c ∷ []) = omega arith
length-drop_last (c ∷ d ∷ s) = omega (arith, length-drop_last (d ∷ s))

-- The item and the character before are those of `s`.
abbrev SameItem : Scan → Result Scan → Type 0
SameItem s (ok t) = (t.item ≡ s.item) × (t.prev ≡ s.prev)
SameItem s (err e) = is_thrown e ≡ true

brackets-SameItem : (s : Scan) (c : ℕ) → SameItem s (brackets s c)
brackets-SameItem s c = ground arith

separates-Ends : (t : Scan) (c : ℕ) → Ends (separates t c)
separates-Ends t c = ground arith

module _ (child : Str → Result Node) (top : Bool) (L : ℕ)
    (ends : (s : Str) → length s ≤ L → Ends (child s)) where
  keep-Within :
      (s : Scan) (c n : ℕ) (q : Option ℕ)
      → length s.item + suc n ≤ L + slack top s.prev
      → Within L n (ok (record (keep top s c) { quote = q }))
  keep-Within s c n q h = (kept (top || is_some s.prev) h, refl)
    where
      kept :
          (b : Bool)
          → length s.item + suc n ≤ L + (if b then 0 else 1)
          → length (if b then s.item ++ (c ∷ []) else s.item) + n ≤ L
      kept true h = omega (arith, length-append s.item (c ∷ []))
      kept false h = omega arith

  child-Within :
      (t : Scan) (c n : ℕ) (r : Result Node)
      → n ≤ L
      → Ends r
      → Within L n
          (r >>= λ m. ok (record t { prev = some c; item = []; nodes = push_back t.nodes m }))
  child-Within t c n (ok m) l e = (omega arith, refl)
  child-Within t c n (err x) l e = e

  finish_item-Within :
      (t : Scan) (c n : ℕ) (b : Bool)
      → length t.item + suc n ≤ L + slack top t.prev
      → Within L n (finish_item child top t c b)
  unfolding finish_item
  finish_item-Within t c n true h =
      child-Within t c n (child t.item) (room (top || is_some t.prev) h)
        (ends t.item (fits (top || is_some t.prev) h))
    where
      room : (b : Bool) → length t.item + suc n ≤ L + (if b then 0 else 1) → n ≤ L
      room true h = omega arith
      room false h = omega arith

      fits : (b : Bool) → length t.item + suc n ≤ L + (if b then 0 else 1) → length t.item ≤ L
      fits true h = omega arith
      fits false h = omega arith
  finish_item-Within t c n false h = keep-Within t c n t.quote h

  separates-Within :
      (t : Scan) (c n : ℕ) (r : Result Bool)
      → length t.item + suc n ≤ L + slack top t.prev
      → Ends r
      → Within L n (r >>= λ b. finish_item child top t c b)
  separates-Within t c n (ok b) h e = finish_item-Within t c n b h
  separates-Within t c n (err x) h e = e

  brackets-Within :
      (s : Scan) (c n : ℕ) (r : Result Scan)
      → length s.item + suc n ≤ L + slack top s.prev
      → SameItem s r
      → Within L n (r >>= λ t. separates t c >>= λ b. finish_item child top t c b)
  brackets-Within s c n (ok t) h e =
      separates-Within t c n (separates t c) (rw e.0 (rw e.1 h)) (separates-Ends t c)
  brackets-Within s c n (err x) h e = e

  step-Within :
      (s : Scan) (c n : ℕ)
      → length s.item + suc n ≤ L + slack top s.prev
      → Within L n (step child top s c)
  unfolding step
  step-Within s c n h = go s.quote
    where
      unquoted-Within :
          (b : Bool)
          → Within L n (
              if b
              then ok (record (keep top s c) { quote = some c })
              else brackets s c >>= λ t. separates t c >>= λ b. finish_item child top t c b)
      unquoted-Within true = keep-Within s c n (some c) h
      unquoted-Within false = brackets-Within s c n (brackets s c) h (brackets-SameItem s c)

      go :
          (q : Option ℕ)
          → Within L n (elim q [
            | some q ↦ ok (record (keep top s c) { quote = closes_quote child top q c })
            | none ↦ unquoted child top s c
          ])
      go (some q) = keep-Within s c n (closes_quote child top q c) h
      go none = unquoted-Within (is_quote c)

  Within-bind :
      (n : ℕ) (r : Result Scan) (k : Scan → Result Scan)
      → Within L n r
      → ((t : Scan) → is_some t.prev ≡ true → length t.item + n ≤ L → Within L 0 (k t))
      → Within L 0 (r >>= k)
  Within-bind n (ok t) k w f = f t w.1 w.0
  Within-bind n (err e) k w f = w

  scan-Within :
      (str : Str) (s : Scan)
      → is_some s.prev ≡ true
      → length s.item + length str ≤ L
      → Within L 0 (scan child top s str)
  unfolding scan
  scan-Within [] s p h = (omega arith, p)
  scan-Within (c ∷ str) s p h =
      Within-bind (length str) (step child top s c) (λ t. scan child top t str)
        (step-Within s c (length str) (omega arith)) (λ t. scan-Within str t)

  scan-start :
      (c : ℕ) (str : Str)
      → suc (length str) ≤ L + (if top then 0 else 1)
      → Within L 0 (scan child top (start top) (c ∷ str))
  unfolding scan
  scan-start c str h =
      Within-bind (length str) (step child top (start top) c) (λ t. scan child top t str)
        (step-Within (start top) c (length str) (ground arith)) (λ t. scan-Within str t)

  finish-Ends : (str : Str) (s : Scan) → length s.item ≤ L → Ends (finish child top str s)
  unfolding finish
  finish-Ends str s h =
      ground (arith, ends s.item, ends (drop_last s.item), length-drop_last s.item)

  finish-bind :
      (str : Str) (r : Result Scan) → Within L 0 r → Ends (r >>= λ s. finish child top str s)
  finish-bind str (ok s) w = finish-Ends str s (omega arith)
  finish-bind str (err e) w = w

  parse_trimmed-Ends :
      (str : Str) → length str ≤ L + (if top then 0 else 1) → Ends (parse_trimmed child top str)
  unfolding parse_trimmed
  parse_trimmed-Ends [] h = refl
  parse_trimmed-Ends (c ∷ str) h = finish-bind (c ∷ str) _ (scan-start c str h)

no_text : (child : Str → Result Node) (t : Str) → length t ≤ 0 → Ends (parse_trimmed child false t)
unfolding parse_trimmed
no_text child [] h = refl
no_text child (c ∷ t) h = absurd (omega arith)

parse_fuel-Ends :
    (fuel : ℕ) (top : Bool) (str : Str)
    → length str + (if top then 1 else 0) < fuel
    → Ends (parse_fuel fuel top str)
unfolding parse_fuel
parse_fuel-Ends zero top str h = absurd (omega arith)
parse_fuel-Ends (suc fuel) true str h =
    parse_trimmed-Ends (parse_fuel fuel false) true (length str)
      (λ s l. parse_fuel-Ends fuel false s (omega arith)) (trim str)
      (omega (arith, length-trim str))
parse_fuel-Ends (suc zero) false str h =
    no_text (parse_fuel zero false) (trim str) (omega (arith, length-trim str))
parse_fuel-Ends (suc (suc fuel)) false str h =
    parse_trimmed-Ends (parse_fuel (suc fuel) false) false fuel
      (λ s l. parse_fuel-Ends (suc fuel) false s (omega arith)) (trim str)
      (omega (arith, length-trim str))

-- A tree, the exception `std::invalid_argument`, or a read in front of the text.
abbrev pub IsEnd : Result Node → Type 0
IsEnd r =
    ((n : Node) × (r ≡ ok n))
    ⊎ ((why : Reason) × (r ≡ err (invalid_argument why)))
    ⊎ (r ≡ err undefined_behaviour)

Ends-IsEnd : (r : Result Node) → Ends r → IsEnd r
Ends-IsEnd (ok n) h = inl (n, refl)
Ends-IsEnd (err (invalid_argument why)) h = inr (inl (why, refl))
Ends-IsEnd (err undefined_behaviour) h = inr (inr refl)
Ends-IsEnd (err e) h = cc

-- The recursion of `parse_value` ends on every string: with the fuel that the model gives it, it is never
-- cut off, but returns a tree, throws `std::invalid_argument`, or reads in front of a text, which is
-- undefined.
pub parse_value_ends : (str : Str) → IsEnd (parse_value str)
unfolding parse_value
parse_value_ends str = Ends-IsEnd _ (parse_fuel-Ends (length str + 2) true str (omega arith))
