-- ===== src/Units/Terms.antt =====
-- `get` and `convert` against a reading of the expression as a list of units, each with the operator in
-- front of it.
use allpix_fork.Base.{
  ℕ, ◌≡◌, refl, sym, ap, ◌∙◌, true, false, List, [], ◌∷◌, ◌++◌, map, arith, if◌then◌else◌,
  Bool-cases, inl, inr, all, Str, lower, map-lower_idem, Dict, lookup, Result, ok, err, ◌>>=◌,
  append-nil, append_assoc, elem, equal, lookup-insert, contains-lookup, is_some, invalid_argument,
  unit_exists,
}
use allpix_fork.Text.{trim, is_empty, whitespace}
use allpix_fork.Text.Trim.{trim-is_empty}
use allpix_fork.Units.{
  Real, swapped, add, is_operator, single, get_single, get_single_inverse, get_unit, get_loop, get,
  convert_unit, convert_loop, convert,
}

-- Puts a byte in front of the first unit.
abbrev pub prepend : ℕ → List (ℕ × Str) → List (ℕ × Str)
prepend c [] = []
prepend c ((op, u) ∷ ts) = (op, c ∷ u) ∷ ts

-- The units of an expression whose first unit stands behind `op`.
abbrev pub terms : ℕ → Str → List (ℕ × Str)
terms op [] = (op, []) ∷ []
terms op (c ∷ s) =
    let next = terms c s in
    let more = terms op s in if is_operator c then (op, []) ∷ next else prepend c more

-- Text in front of the first unit.
abbrev extend : Str → List (ℕ × Str) → List (ℕ × Str)
extend acc [] = []
extend acc ((op, u) ∷ ts) = (op, acc ++ u) ∷ ts

extend-prepend :
    (acc : Str) (c : ℕ) (ts : List (ℕ × Str))
    → extend acc (prepend c ts) ≡ extend (acc ++ (c ∷ [])) ts
extend-prepend acc c [] = refl
extend-prepend acc c ((op, u) ∷ ts) = rw (append_assoc acc (c ∷ []) u)

extend-nil : (ts : List (ℕ × Str)) → extend [] ts ≡ ts
extend-nil [] = refl
extend-nil ((op, u) ∷ ts) = refl

-- Applies an operation for each term, in order, up to the first error.
abbrev pub fold_terms {ℓ} : {D : Type ℓ} → (ℕ → D → Str → Result D) → D → List (ℕ × Str) → Result D
fold_terms f x [] = ok x
fold_terms f x ((op, u) ∷ ts) = f op x u >>= λ y. fold_terms f y ts

-- The lower case of every unit.
abbrev pub lower_terms : List (ℕ × Str) → List (ℕ × Str)
lower_terms [] = []
lower_terms ((op, u) ∷ ts) = (op, map lower u) ∷ lower_terms ts

lower_terms-prepend :
    (c : ℕ) (ts : List (ℕ × Str)) → lower_terms (prepend c ts) ≡ prepend (lower c) (lower_terms ts)
lower_terms-prepend c [] = refl
lower_terms-prepend c ((op, u) ∷ ts) = refl

lower-is_operator : (c : ℕ) → is_operator (lower c) ≡ is_operator c
unfolding lower
lower-is_operator c = ground arith

lower_operator : (c : ℕ) → is_operator c ≡ true → lower c ≡ c
unfolding lower
lower_operator c h = ground arith

terms-lower : (op : ℕ) (s : Str) → terms op (map lower s) ≡ lower_terms (terms op s)
terms-lower op [] = refl
terms-lower op (c ∷ s) = elim (Bool-cases (is_operator c)) [
  | inl e ↦ rw (lower-is_operator c, e, lower_operator c e) (ap (◌∷◌ (op, [])) (terms-lower c s))
  | inr e ↦ rw (lower-is_operator c, e) (rw (terms-lower op s, lower_terms-prepend c (terms op s)))
]

bind-ok {ℓ} : {A : Type ℓ} (m : Result A) → (m >>= λ a. ok a) ≡ m
bind-ok (ok a) = refl
bind-ok (err e) = refl

bind-ext {ℓ} :
    {A B : Type ℓ} (m : Result A) (f g : A → Result B)
    → ((a : A) → f a ≡ g a)
    → (m >>= f) ≡ (m >>= g)
bind-ext (ok a) f g h = h a
bind-ext (err e) f g h = refl

module _ (r : Real) (units : Dict r.D) where
  get_loop-terms :
      (op : ℕ) (x : r.D) (acc s : Str)
      → get_loop r units op x acc s ≡ fold_terms (get_unit r units) x (extend acc (terms op s))
  unfolding get_loop
  get_loop-terms op x acc [] = rw append-nil (sym (bind-ok (get_unit r units op x acc)))
  get_loop-terms op x acc (c ∷ s) = elim (Bool-cases (is_operator c)) [
    | inl e ↦
        rw (e, append-nil acc)
          (bind-ext (get_unit r units op x acc) _ _ (λ v.
            get_loop-terms c v [] s
            ∙ ap (fold_terms (get_unit r units) v) (extend-nil (terms c s))))
    | inr e ↦ rw e (
        get_loop-terms op x (acc ++ (c ∷ [])) s
        ∙ ap (fold_terms (get_unit r units) x) (sym (extend-prepend acc c (terms op s))))
  ]

  convert_loop-terms :
      (op : ℕ) (x : r.D) (acc s : Str)
      → convert_loop r units op x acc s
        ≡ fold_terms (convert_unit r units) x (extend acc (terms op s))
  unfolding convert_loop
  convert_loop-terms op x acc [] = rw append-nil (sym (bind-ok (convert_unit r units op x acc)))
  convert_loop-terms op x acc (c ∷ s) = elim (Bool-cases (is_operator c)) [
    | inl e ↦
        rw (e, append-nil acc)
          (bind-ext (convert_unit r units op x acc) _ _ (λ v.
            convert_loop-terms c v [] s
            ∙ ap (fold_terms (convert_unit r units) v) (extend-nil (terms c s))))
    | inr e ↦ rw e (
        convert_loop-terms op x (acc ++ (c ∷ [])) s
        ∙ ap (fold_terms (convert_unit r units) x) (sym (extend-prepend acc c (terms op s))))
  ]

  -- The value of a unit expression is the product of its terms from the left, starting at one; that of
  -- a blank expression is one.
  pub get-terms :
      (s : Str)
      → get r units s ≡ (
          if is_empty (trim s)
          then ok r.one
          else fold_terms (get_unit r units) r.one (terms b'*' s))
  unfolding get
  get-terms s = rw (get_loop-terms b'*' r.one [] s, extend-nil (terms b'*' s)) refl

lower-whitespace : (c : ℕ) → elem (lower c) whitespace ≡ elem c whitespace
unfolding lower elem
lower-whitespace c = ground arith

all-lower-whitespace :
    (s : Str) → all (λ c. elem c whitespace) (map lower s) ≡ all (λ c. elem c whitespace) s
all-lower-whitespace [] = refl
all-lower-whitespace (c ∷ s) = ground (arith, lower-whitespace c, all-lower-whitespace s)

trim-empty_lower : (s : Str) → is_empty (trim (map lower s)) ≡ is_empty (trim s)
unfolding trim
trim-empty_lower s =
    trim-is_empty whitespace (map lower s)
    ∙ all-lower-whitespace s
    ∙ sym (trim-is_empty whitespace s)

module _ (r : Real) (units : Dict r.D) where
  pub single-lower : (u : Str) → single r units (map lower u) ≡ single r units u
  unfolding single
  single-lower u = rw (trim-empty_lower u, map-lower_idem u) refl

  single-swapped : (u : Str) → single (swapped r) units u ≡ single r units u
  unfolding single
  single-swapped u = refl

  convert_unit-swapped :
      (op : ℕ) (x : r.D) (u : Str)
      → convert_unit r units op x (map lower u) ≡ get_unit (swapped r) units op x u
  unfolding get_single get_single_inverse
  convert_unit-swapped op x u = rw (single-lower u, single-swapped u) refl

  fold-swapped :
      (x : r.D) (ts : List (ℕ × Str))
      → fold_terms (convert_unit r units) x (lower_terms ts)
        ≡ fold_terms (get_unit (swapped r) units) x ts
  fold-swapped x [] = refl
  fold-swapped x ((op, u) ∷ ts) =
      rw (convert_unit-swapped op x u)
        (bind-ext (get_unit (swapped r) units op x u) _ _ (λ y. fold-swapped y ts))

  -- Converting to an expression of units starts from the input and goes through the same terms as `get`,
  -- with division in the place of multiplication and the other way round, in any case of the letters.
  pub convert-terms :
      (x : r.D) (s : Str)
      → convert r units x s ≡ fold_terms (get_unit (swapped r) units) x (terms b'*' s)
  unfolding convert
  convert-terms x s =
      convert_loop-terms r units b'*' x [] (map lower s)
      ∙ ap (fold_terms (convert_unit r units) x)
          (extend-nil (terms b'*' (map lower s)) ∙ terms-lower b'*' s)
      ∙ fold-swapped x (terms b'*' s)

-- When `add` has accepted a unit, it is found under every spelling of its name that is not blank, and
-- under every other name that is not blank what was found before.
pub add-single :
    (r : Real) (units added : Dict r.D) (name u : Str) (value : r.D)
    → add units name value ≡ ok added
    → is_empty (trim u) ≡ false
    → single r added u
      ≡ (if equal (map lower name) (map lower u) then ok value else single r units u)
unfolding add single
add-single r units added name u value h n =
    ground (arith, lookup-insert (map lower name) (map lower u) value units)

pub add_twice :
    (r : Real) (units : Dict r.D) (name u : Str) (value : r.D)
    → map lower name ≡ map lower u
    → is_some (lookup (map lower u) units) ≡ true
    → add units name value ≡ err (invalid_argument unit_exists)
unfolding add
add_twice r units name u value e h = rw (e, contains-lookup (map lower u) units, h) refl
