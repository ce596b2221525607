-- ===== src/MeshConverter/Shapes.antt =====
-- tools/mesh_converter/parsers/DFISEParser.cpp: the edges, faces and elements of `read_meshes`, line by
-- line. A vertex is known by its index.
pub mod Below
pub mod Bounds
use mathlib.Core.List.{reverse}
use allpix_fork.Base.{
  ℕ, zero, suc, ◌+◌, ◌-◌, Bool, true, false, not, ◌&&◌, ◌||◌, Option, none, some, List, [], ◌∷◌,
  ◌++◌, Str, Dict, lookup, insert, leb, ◌==◌, if◌then◌else◌, Result, ok, err, Error, runtime_error,
  undefined_behaviour, vertex_index, edge_index, face_index, element_index, element_type, throw_if,
  ◌>>=◌, ◌>>◌,
}
use allpix_fork.Base.Int.{ℤ, pos, negsuc}
use allpix_fork.MeshConverter.Numbers.{Stream, read_signed, read_counted, next_value}

-- `Point`, of three coordinates or of two.
pub data Point (D : Type 0) : Type 0 where
  point3 : D → D → D → Point D
  point2 : D → D → Point D

-- `vec[i]`, where `none` is out of bounds.
abbrev pub get_elem? {ℓ} : {A : Type ℓ} → List A → ℕ → Option A
get_elem? [] i = none
get_elem? (x ∷ xs) zero = some x
get_elem? (x ∷ xs) (suc i) = get_elem? xs i

-- An index of an edge or a face: a negative one, from -1 on, stands for the reversed item.
abbrev pub position : ℤ → ℕ
position (pos n) = n
position (negsuc n) = n

abbrev pub is_reversed : ℤ → Bool
is_reversed (pos n) = false
is_reversed (negsuc n) = true

abbrev pub swap_pair : Bool → ℕ × ℕ → ℕ × ℕ
swap_pair true (a, b) = (b, a)
swap_pair false (a, b) = (a, b)

-- A bounds check that throws, and the item.
unfoldable pub checked_get {ℓ} : {A : Type ℓ} → Error → List A → ℕ → Result A
checked_get e xs i = elim (get_elem? xs i) [ none ↦ err e | some a ↦ ok a ]

-- `face.back()` and `face.front()` of a vector that is not empty.
abbrev pub last_or : ℕ → List ℕ → ℕ
last_or d [] = d
last_or d (x ∷ xs) = last_or x xs

-- Whether `face` is not empty and ends with a vertex.
abbrev pub ends_with : ℕ → List ℕ → Bool
ends_with v [] = false
ends_with v (x ∷ xs) = last_or x xs == v

-- `std::unique` with the `erase` after it.
unfoldable pub drop_same : ℕ → List ℕ → List ℕ
drop_same x [] = []
drop_same x (y ∷ ys) = if x == y then drop_same x ys else y ∷ drop_same y ys

unfoldable pub unique : List ℕ → List ℕ
unfolding drop_same
unique [] = []
unique (x ∷ xs) = x ∷ drop_same x xs

-- `pop_back`.
abbrev pub init_of : List ℕ → List ℕ
init_of [] = []
init_of (x ∷ []) = []
init_of (x ∷ y ∷ xs) = x ∷ init_of (y ∷ xs)

-- The swap of the first and the last vertex, if they differ. `front` of an empty vector is undefined.
unfoldable pub join_ends : List ℕ → Result (List ℕ)
join_ends [] = err undefined_behaviour
join_ends (x ∷ []) = ok (x ∷ [])
join_ends (x ∷ y ∷ xs) =
    let z = last_or y xs in ok (if x == z then x ∷ y ∷ xs else z ∷ (init_of (y ∷ xs) ++ (x ∷ [])))

-- `std::reverse` of all but the first vertex, which is undefined for an empty vector.
unfoldable pub reverse_tail : List ℕ → Result (List ℕ)
reverse_tail [] = err undefined_behaviour
reverse_tail (x ∷ xs) = ok (x ∷ reverse xs)

-- Two and three numbers at a time; what is left over is dropped.
unfoldable pub pairs {ℓ} : {A : Type ℓ} → List A → List (A × A)
pairs [] = []
pairs (x ∷ []) = []
pairs (x ∷ y ∷ rest) = (x, y) ∷ pairs rest

unfoldable pub points2 : {D : Type 0} → List D → List (Point D)
points2 [] = []
points2 (y ∷ []) = []
points2 (y ∷ z ∷ rest) = point2 y z ∷ points2 rest

unfoldable pub points3 : {D : Type 0} → List D → List (Point D)
points3 [] = []
points3 (x ∷ []) = []
points3 (x ∷ y ∷ []) = []
points3 (x ∷ y ∷ z ∷ rest) = point3 x y z ∷ points3 rest

-- The loop over the edges of a line, which checks both vertices.
unfoldable pub add_edges : ℕ → List (ℕ × ℕ) → List (ℕ × ℕ) → Result (List (ℕ × ℕ))
add_edges n known [] = ok known
add_edges n known ((a, b) ∷ rest) =
    throw_if (leb n a || leb n b) (runtime_error vertex_index)
    >> add_edges n (known ++ ((a, b) ∷ [])) rest

-- One round of the loop over the edges of a face.
abbrev pub extend_face : List ℕ → ℕ × ℕ → List ℕ
extend_face face (a, b) = if ends_with b face then face ++ (b ∷ a ∷ []) else face ++ (a ∷ b ∷ [])

unfoldable pub face_loop : List (ℕ × ℕ) → ℕ → List ℕ → Stream ℤ → Result (List ℕ)
unfolding next_value checked_get
face_loop edges zero face s = ok face
face_loop edges (suc n) face s =
    let (edge_idx, s') = next_value (pos 0) s in
    checked_get (runtime_error edge_index) edges (position edge_idx) >>= λ edge.
    face_loop edges n (extend_face face (swap_pair (is_reversed edge_idx) edge)) s'

-- A line of the faces: the number of edges, and the edges.
unfoldable pub read_face : List (ℕ × ℕ) → Str → Result (List ℕ)
unfolding read_counted face_loop join_ends unique
read_face edges line =
    let (n, s) = read_counted line in
    face_loop edges n [] s >>= λ face. join_ends face >>= λ joined. ok (init_of (unique joined))

-- The number of parts of an element, by its type.
unfoldable pub element_size : ℤ → Result ℕ
element_size (pos k) =
    if k == 0
    then ok 1
    else if k == 1
    then ok 2
    else if k == 2
    then ok 3
    else if k == 3 || k == 5
    then ok 4
    else if k == 6 || k == 7
    then ok 5
    else if k == 8
    then ok 6
    else err (runtime_error element_type)
element_size (negsuc k) = err (runtime_error element_type)

-- What one part adds to an element: the ends of an edge, the vertices of a face, or nothing.
unfoldable pub edge_part : List (ℕ × ℕ) → ℤ → Result (List ℕ)
unfolding checked_get
edge_part edges idx = checked_get (runtime_error edge_index) edges (position idx) >>= λ edge.
    let (a, b) = swap_pair (is_reversed idx) edge in ok (a ∷ b ∷ [])

unfoldable pub face_part : List (List ℕ) → ℤ → Result (List ℕ)
unfolding checked_get reverse_tail
face_part faces idx = checked_get (runtime_error face_index) faces (position idx) >>= λ face.
    if is_reversed idx then reverse_tail face else ok face

unfoldable pub element_part : List (ℕ × ℕ) → List (List ℕ) → ℕ → ℤ → Result (List ℕ)
unfolding edge_part face_part
element_part edges faces size idx =
    if size == 3 || size == 2
    then edge_part edges idx
    else if size == 4
    then face_part faces idx
    else ok []

unfoldable pub element_loop :
    List (ℕ × ℕ) → List (List ℕ) → ℕ → ℕ → List ℕ → Stream ℤ → Result (List ℕ)
unfolding element_part next_value
element_loop edges faces size zero element s = ok element
element_loop edges faces size (suc n) element s =
    let (idx, s') = next_value (pos 0) s in
    element_part edges faces size idx >>= λ part.
    element_loop edges faces size n (element ++ part) s'

-- A line of the elements.
unfoldable pub read_element : List (ℕ × ℕ) → List (List ℕ) → Str → Result (List ℕ)
unfolding read_signed element_size element_loop next_value
read_element edges faces line =
    let (k, s) = next_value (pos 0) (read_signed line) in
    element_size k >>= λ size. element_loop edges faces size size [] s

abbrev pub or_empty : Option (List ℕ) → List ℕ
or_empty none = []
or_empty (some vs) = vs

-- `regions_vertices[region].insert(end, …)` for one element.
unfoldable pub append_region : Str → List ℕ → Dict (List ℕ) → Dict (List ℕ)
unfolding lookup insert
append_region name element m = insert name (or_empty (lookup name m) ++ element) m

unfoldable pub add_region : List (List ℕ) → Str → List ℕ → Dict (List ℕ) → Result (Dict (List ℕ))
unfolding append_region checked_get
add_region elements name [] m = ok m
add_region elements name (i ∷ rest) m =
    checked_get (runtime_error element_index) elements i >>= λ element.
    add_region elements name rest (append_region name element m)
