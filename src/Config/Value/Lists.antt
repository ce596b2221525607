-- ===== src/Config/Value/Lists.antt =====
-- `parse_value` on the text that the setters write for a list.
use allpix_fork.Base.{
  ℕ, suc, ◌+◌, ◌≡◌, refl, sym, ap, ◌∙◌, true, false, List, [], ◌∷◌, ◌++◌, arith, All, all, Str,
  length, ok, append_assoc, append-nil,
}
use allpix_fork.Text.{trim, is_empty, whitespace}
use allpix_fork.Text.Trim.{trim_trimmed, starts_kept, ends_kept}
use allpix_fork.Config.Value.{node, drop_last, parse_trimmed, parse_fuel, parse_value}
use allpix_fork.Config.Value.Plain.{listed, leaves, parse-item, All-item, list-trimmed}
use allpix_fork.Config.Value.Items.{is_plain, plain-whitespace, IsItem, separated}

ends_kept-append : (ds x y : Str) (c : ℕ) → ends_kept ds (x ++ (c ∷ y)) ≡ ends_kept ds (c ∷ y)
ends_kept-append ds [] y c = refl
ends_kept-append ds (b ∷ []) y c = refl
ends_kept-append ds (b ∷ d ∷ x) y c = ends_kept-append ds (d ∷ x) y c

plain-ends : (w : Str) → all is_plain w ≡ true → ends_kept whitespace w ≡ true
plain-ends [] h = refl
plain-ends (c ∷ []) h = ground (arith, plain-whitespace c)
plain-ends (c ∷ d ∷ w) h = plain-ends (d ∷ w) (ground arith)

item-ends : (x w : Str) → IsItem w → ends_kept whitespace (x ++ w) ≡ true
item-ends x [] i = cc (i.nonempty)
item-ends x (c ∷ w) i = ends_kept-append whitespace x w c ∙ plain-ends (c ∷ w) i.plain

item-starts : (w x : Str) → IsItem w → starts_kept whitespace (w ++ x) ≡ true
item-starts [] x i = cc (i.nonempty)
item-starts (c ∷ w) x i = ground (arith, plain-whitespace c, i.plain)

listed-starts :
    (ws : List Str) (w : Str)
    → All IsItem ws
    → IsItem w
    → starts_kept whitespace (listed ws w) ≡ true
listed-starts [] w i j = rw (append-nil w) at (item-starts w [] j)
listed-starts (x ∷ ws) w i j = rw (append_assoc x (b',' ∷ separated ws) w) (item-starts x _ i.0)

trim-listed :
    (ws : List Str) (w : Str) → All IsItem ws → IsItem w → trim (listed ws w) ≡ listed ws w
unfolding trim
trim-listed ws w i j =
    trim_trimmed whitespace (listed ws w)
      (record { starts = listed-starts ws w i j; ends = item-ends (separated ws) w j })

append-nonempty : (x w : Str) → is_empty w ≡ false → is_empty (x ++ w) ≡ false
append-nonempty [] w h = h
append-nonempty (c ∷ x) w h = refl

pub parse_value-fuel :
    (str : Str)
    → parse_value str ≡ parse_trimmed (parse_fuel (suc (length str)) false) true (trim str)
unfolding parse_value parse_fuel
parse_value-fuel str = let e : length str + 2 ≡ suc (suc (length str)) = omega arith in rw e refl

pub parse_value-listed :
    (ws : List Str) (w : Str)
    → All IsItem ws
    → IsItem w
    → parse_value (listed ws w) ≡ ok (node (listed ws w) (leaves (ws ++ (w ∷ []))))
parse_value-listed ws w i j =
    let n = length (listed ws w) in
    parse_value-fuel (listed ws w)
    ∙ ap (parse_trimmed (parse_fuel (suc n) false) true) (trim-listed ws w i j)
    ∙ list-trimmed (parse_fuel (suc n) false) ws w (listed ws w) refl
        (append-nonempty (separated ws) w j.nonempty) i j (All-item n ws i) (parse-item n w j)

-- The text of a list, as the setters build it: all but the last item, and the last.
abbrev pub inits {ℓ} : {A : Type ℓ} → A → List A → List A
inits x [] = []
inits x (y ∷ ys) = x ∷ inits y ys

abbrev pub last {ℓ} : {A : Type ℓ} → A → List A → A
last x [] = x
last x (y ∷ ys) = last y ys

pub inits-last {ℓ} : {A : Type ℓ} (x : A) (xs : List A) → inits x xs ++ (last x xs ∷ []) ≡ x ∷ xs
inits-last x [] = refl
inits-last x (y ∷ ys) = ap (◌∷◌ x) (inits-last y ys)

pub drop_last-append : (x y : Str) (c : ℕ) → drop_last (x ++ (c ∷ y)) ≡ x ++ drop_last (c ∷ y)
drop_last-append [] y c = refl
drop_last-append (b ∷ []) y c = refl
drop_last-append (b ∷ d ∷ x) y c = ap (◌∷◌ b) (drop_last-append (d ∷ x) y c)

drop_last-cons :
    (c d : ℕ) (y s : Str) → drop_last (c ∷ (y ++ (d ∷ s))) ≡ c ∷ drop_last (y ++ (d ∷ s))
drop_last-cons c d [] s = refl
drop_last-cons c d (b ∷ y) s = refl

pub drop_last-separated :
    (x : Str) (xs : List Str) → drop_last (separated (x ∷ xs)) ≡ listed (inits x xs) (last x xs)
drop_last-separated x [] = drop_last-append x [] b',' ∙ append-nil x
drop_last-separated x (y ∷ ys) =
    drop_last-append x (separated (y ∷ ys)) b','
    ∙ ap (◌++◌ x)
        (drop_last-cons b',' b',' y (separated ys) ∙ ap (◌∷◌ b',') (drop_last-separated y ys))
    ∙ sym (append_assoc x (b',' ∷ separated (inits y ys)) (last y ys))

pub All-inits {ℓ κ} :
    {A : Type ℓ} (P : A → Type κ) (x : A) (xs : List A)
    → All P (x ∷ xs)
    → All P (inits x xs) × P (last x xs)
All-inits P x [] h = (tt, h.0)
All-inits P x (y ∷ ys) h = let r = All-inits P y ys h.1 in ((h.0, r.0), r.1)
