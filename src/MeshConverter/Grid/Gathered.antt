-- ===== src/MeshConverter/Grid/Gathered.antt =====
-- tools/mesh_converter/parsers/DFISEParser.cpp: what the element numbers of a region add to its vertices.
use allpix_fork.Base.{
  ℕ, zero, suc, ◌<◌, ◌≡◌, refl, ap, ◌∙◌, Option, some, List, [], ◌∷◌, ◌++◌, map, Str, Dict, lookup,
  lookup-insert, equal, equal_iff, length, if◌then◌else◌, Result, ok, err, Error, runtime_error,
  element_index, All, Result-cases, arith, inl, inr,
}
use allpix_fork.MeshConverter.Shapes.{get_elem?, checked_get, or_empty, append_region, add_region}
use allpix_fork.MeshConverter.Shapes.Below.{Ensures}

Ensures_weaken {ℓ κ λ'} :
    {A : Type ℓ} (P : A → Type κ) (Q : A → Type λ') (m : Result A)
    → Ensures P m
    → ((a : A) → P a → Ensures Q (ok a))
    → Ensures Q m
Ensures_weaken P Q (ok a) h f = f a h
Ensures_weaken P Q (err e) h f = tt

-- What region `n` has once it is given the vertices of an element, if the element is named for it.
abbrev pub gain : Str → List (List ℕ) → Option (List ℕ) → Str × ℕ → Option (List ℕ)
gain n elements has (region, i) =
    if equal region n then some (or_empty has ++ or_empty (get_elem? elements i)) else has

-- The vertices that a list of regions and element numbers gives a region, behind what it has: those of its
-- elements, one element after the other. A region that is not in the list has none.
abbrev pub gathered : Str → List (List ℕ) → Option (List ℕ) → List (Str × ℕ) → Option (List ℕ)
gathered n elements has [] = has
gathered n elements has (e ∷ named) = gathered n elements (gain n elements has e) named

abbrev pub of_region : Str → List ℕ → List (Str × ℕ)
of_region region is = map (λ i. (region, i)) is

pub gathered-append :
    (n : Str) (es : List (List ℕ)) (has : Option (List ℕ)) (t u : List (Str × ℕ))
    → gathered n es has (t ++ u) ≡ gathered n es (gathered n es has t) u
gathered-append n es has [] u = refl
gathered-append n es has (e ∷ t) u = gathered-append n es (gain n es has e) t u

get_elem?-append {ℓ} :
    {A : Type ℓ} (xs ys : List A) (i : ℕ) → i < length xs → get_elem? (xs ++ ys) i ≡ get_elem? xs i
get_elem?-append [] ys i h = absurd (omega arith)
get_elem?-append (x ∷ xs) ys zero h = refl
get_elem?-append (x ∷ xs) ys (suc i) h = get_elem?-append xs ys i (omega arith)

pub ok_eq {ℓ} : {A : Type ℓ} {a b : A} → ok a ≡ ok b → a ≡ b
ok_eq h = ground arith

-- The numbers that are named are those of elements.
abbrev pub Known : ℕ → List (Str × ℕ) → Type 0
Known n = All (λ (e : Str × ℕ). e.1 < n)

pub gathered-more :
    (n : Str) (es more : List (List ℕ)) (has : Option (List ℕ)) (t : List (Str × ℕ))
    → Known (length es) t
    → gathered n (es ++ more) has t ≡ gathered n es has t
gathered-more n es more has [] h = refl
gathered-more n es more has ((r, i) ∷ t) h =
    rw (get_elem?-append es more i h.0) (gathered-more n es more (gain n es has (r, i)) t h.1)

checked_get-ok {ℓ} :
    {A : Type ℓ} (e : Error) (xs : List A) (i : ℕ) (a : A)
    → checked_get e xs i ≡ ok a
    → (get_elem? xs i ≡ some a) × (i < length xs)
unfolding checked_get
checked_get-ok e [] i a h = cc
checked_get-ok e (x ∷ xs) zero a h = (ground arith, omega arith)
checked_get-ok e (x ∷ xs) (suc i) a h =
    let (at, below) = checked_get-ok e xs i a h in (at, omega arith)

append_region-lookup :
    (name n : Str) (element : List ℕ) (m : Dict (List ℕ))
    → lookup n (append_region name element m)
      ≡ (if equal name n then some (or_empty (lookup n m) ++ element) else lookup n m)
unfolding append_region
append_region-lookup name n element m =
    ground (arith, lookup-insert name n (or_empty (lookup name m) ++ element) m, equal_iff name n)

-- What a list of element numbers adds to a region.
abbrev pub Gathers : List (List ℕ) → Dict (List ℕ) → List (Str × ℕ) → Dict (List ℕ) → Type 0
Gathers es old t m = Known (length es) t × ((n : Str) → lookup n m ≡ gathered n es (lookup n old) t)

pub add_region-Gathers :
    (es : List (List ℕ)) (region : Str) (is : List ℕ) (old : Dict (List ℕ))
    → Ensures (Gathers es old (of_region region is)) (add_region es region is old)
unfolding add_region
add_region-Gathers es region [] old = (tt, λ n. refl)
add_region-Gathers es region (i ∷ is) old =
    elim (Result-cases (checked_get (runtime_error element_index) es i)) [
      | inr (e, k) ↦ rw k tt
      | inl (element, k) ↦
          let (at, below) = checked_get-ok (runtime_error element_index) es i element k in
          rw k (
            Ensures_weaken (Gathers es (append_region region element old) (of_region region is))
              (Gathers es old (of_region region (i ∷ is)))
              (add_region es region is (append_region region element old))
              (add_region-Gathers es region is (append_region region element old))
              (λ m v. (
                (below, v.0),
                λ n.
                    v.1 n
                    ∙ ap (λ has. gathered n es has (of_region region is))
                        (ground (arith, at, append_region-lookup region n element old)),
              )))
    ]
