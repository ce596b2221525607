-- ===== src/MeshConverter/Grid/Sorted.antt =====
-- tools/mesh_converter/parsers/DFISEParser.cpp: the indices of a region once they are sorted and made unique.
use allpix_fork.Base.{
  ℕ, suc, ◌≤◌, ◌≡◌, refl, ◌∙◌, Bool, false, ◌||◌, List, [], ◌∷◌, leb, ◌==◌, arith, Bool-cases, inl,
  inr,
}
use allpix_fork.MeshConverter.Shapes.{drop_same, unique}
use allpix_fork.MeshConverter.Grid.{insert_sorted, sort}

abbrev pub mem : ℕ → List ℕ → Bool
mem a [] = false
mem a (x ∷ xs) = x == a || mem a xs

-- From `lo` on and in order, with repetitions and without.
abbrev pub Sorted : ℕ → List ℕ → Type 0
Sorted lo [] = Unit {0}
Sorted lo (x ∷ xs) = (lo ≤ x) × Sorted x xs

abbrev pub Ascending : ℕ → List ℕ → Type 0
Ascending lo [] = Unit {0}
Ascending lo (x ∷ xs) = (lo ≤ x) × Ascending (suc x) xs

insert_sorted-Sorted :
    (lo a : ℕ) (xs : List ℕ) → lo ≤ a → Sorted lo xs → Sorted lo (insert_sorted a xs)
unfolding insert_sorted
insert_sorted-Sorted lo a [] h s = (h, tt)
insert_sorted-Sorted lo a (x ∷ xs) h s = elim (Bool-cases (leb a x)) [
  | inl first ↦ rw first (h, (ground arith, s.1))
  | inr later ↦ rw later (s.0, insert_sorted-Sorted x a xs (ground arith) s.1)
]

sort-Sorted : (xs : List ℕ) → Sorted 0 (sort xs)
unfolding sort
sort-Sorted [] = tt
sort-Sorted (x ∷ xs) = insert_sorted-Sorted 0 x (sort xs) (omega arith) (sort-Sorted xs)

drop_same-Ascending : (x : ℕ) (xs : List ℕ) → Sorted x xs → Ascending (suc x) (drop_same x xs)
unfolding drop_same
drop_same-Ascending x [] s = tt
drop_same-Ascending x (y ∷ ys) s = elim (Bool-cases (x == y)) [
  | inl same ↦ let e : x ≡ y = ground arith in rw same (drop_same-Ascending x ys (rw e s.1))
  | inr other ↦ rw other (ground arith, drop_same-Ascending y ys s.1)
]

unique-Ascending : (lo : ℕ) (xs : List ℕ) → Sorted lo xs → Ascending lo (unique xs)
unfolding unique
unique-Ascending lo [] s = tt
unique-Ascending lo (x ∷ xs) s = (s.0, drop_same-Ascending x xs s.1)

mem-insert_sorted : (a x : ℕ) (xs : List ℕ) → mem a (insert_sorted x xs) ≡ (x == a || mem a xs)
unfolding insert_sorted
mem-insert_sorted a x [] = refl
mem-insert_sorted a x (y ∷ ys) = ground (arith, mem-insert_sorted a x ys)

mem-sort : (a : ℕ) (xs : List ℕ) → mem a (sort xs) ≡ mem a xs
unfolding sort
mem-sort a [] = refl
mem-sort a (x ∷ xs) = ground (arith, mem-insert_sorted a x (sort xs), mem-sort a xs)

mem-drop_same : (a x : ℕ) (xs : List ℕ) → (x == a || mem a (drop_same x xs)) ≡ (x == a || mem a xs)
unfolding drop_same
mem-drop_same a x [] = refl
mem-drop_same a x (y ∷ ys) = ground (arith, mem-drop_same a x ys, mem-drop_same a y ys)

mem-unique : (a : ℕ) (xs : List ℕ) → mem a (unique xs) ≡ mem a xs
unfolding unique
mem-unique a [] = refl
mem-unique a (x ∷ xs) = mem-drop_same a x xs

-- The same indices, each once and in order.
pub unique-sort :
    (xs : List ℕ) → Ascending 0 (unique (sort xs)) × ((a : ℕ) → mem a (unique (sort xs)) ≡ mem a xs)
unique-sort xs =
    (unique-Ascending 0 (sort xs) (sort-Sorted xs), λ a. mem-unique a (sort xs) ∙ mem-sort a xs)
