-- ===== src/MeshConverter/Shapes/Bounds.antt =====
-- tools/mesh_converter/parsers/DFISEParser.cpp: the vertices of edges, faces and elements are vertices that
-- have been read.
use allpix_fork.Base.{
  ℕ, zero, suc, ◌<◌, Bool, true, false, ◌||◌, List, [], ◌∷◌, ◌++◌, Str, Dict, lookup, insert, equal,
  before, leb, ◌==◌, if◌then◌else◌, ok, ◌>>=◌, All, All-append, arith, Bool-cases, inl, inr,
}
use allpix_fork.Base.Int.{ℤ, pos}
use allpix_fork.MeshConverter.Numbers.{Stream, next_value, read_counted, read_signed}
use allpix_fork.MeshConverter.Shapes.{
  position, is_reversed, swap_pair, checked_get, ends_with, unique, init_of, join_ends,
  reverse_tail, add_edges, extend_face, face_loop, read_face, edge_part, face_part, element_part,
  element_size, element_loop, read_element, or_empty, append_region, add_region,
}
use allpix_fork.MeshConverter.Shapes.Below.{
  Ensures, Ensures_bind, any, checked_get-Ensures, Below, Edge, Below-init_of, Below-unique,
  join_ends-Below, reverse_tail-Below, Edge-swap_pair,
}

-- What holds of the result of a step that does not throw.
pub add_edges-Edge :
    (n : ℕ) (known more : List (ℕ × ℕ))
    → All (Edge n) known
    → Ensures (All (Edge n)) (add_edges n known more)
unfolding add_edges
add_edges-Edge n known [] h = h
add_edges-Edge n known ((a, b) ∷ more) h = elim (Bool-cases (leb n a || leb n b)) [
  | inl beyond ↦ rw beyond tt
  | inr inside ↦ rw inside (
      add_edges-Edge n (known ++ ((a, b) ∷ [])) more
        (All-append (Edge n) known ((a, b) ∷ []) h ((ground arith, ground arith), tt)))
]

extend_face-Below :
    (n : ℕ) (face : List ℕ) (e : ℕ × ℕ) → Below n face → Edge n e → Below n (extend_face face e)
extend_face-Below n face e h k = elim (Bool-cases (ends_with e.1 face)) [
  | inl joined ↦ rw joined (All-append (λ v. v < n) face (e.1 ∷ e.0 ∷ []) h (k.1, (k.0, tt)))
  | inr apart ↦ rw apart (All-append (λ v. v < n) face (e.0 ∷ e.1 ∷ []) h (k.0, (k.1, tt)))
]

face_loop-Below :
    (n : ℕ) (edges : List (ℕ × ℕ)) (k : ℕ) (face : List ℕ) (s : Stream ℤ)
    → All (Edge n) edges
    → Below n face
    → Ensures (Below n) (face_loop edges k face s)
unfolding face_loop
face_loop-Below n edges zero face s he h = h
face_loop-Below n edges (suc k) face s he h =
    let r = next_value (pos 0) s in
    Ensures_bind (Edge n) (Below n) (checked_get _ edges (position r.0))
      (λ edge. face_loop edges k (extend_face face (swap_pair (is_reversed r.0) edge)) r.1)
      (checked_get-Ensures (Edge n) _ edges (position r.0) he)
      (λ edge he'.
        face_loop-Below n edges k _ r.1 he
          (extend_face-Below n face _ h (Edge-swap_pair n (is_reversed r.0) edge he')))

pub read_face-Below :
    (n : ℕ) (edges : List (ℕ × ℕ)) (line : Str)
    → All (Edge n) edges
    → Ensures (Below n) (read_face edges line)
unfolding read_face
read_face-Below n edges line he =
    let r = read_counted line in
    Ensures_bind (Below n) (Below n) (face_loop edges r.0 [] r.1)
      (λ face. join_ends face >>= λ joined. ok (init_of (unique joined)))
      (face_loop-Below n edges r.0 [] r.1 he tt)
      (λ face h.
        Ensures_bind (Below n) (Below n) (join_ends face) (λ joined. ok (init_of (unique joined)))
          (join_ends-Below n face h)
          (λ joined k. Below-init_of n (unique joined) (Below-unique n joined k)))

edge_part-Below :
    (n : ℕ) (edges : List (ℕ × ℕ)) (idx : ℤ)
    → All (Edge n) edges
    → Ensures (Below n) (edge_part edges idx)
unfolding edge_part
edge_part-Below n edges idx he =
    Ensures_bind (Edge n) (Below n) (checked_get _ edges (position idx))
      (λ edge. let r = swap_pair (is_reversed idx) edge in ok (r.0 ∷ r.1 ∷ []))
      (checked_get-Ensures (Edge n) _ edges (position idx) he)
      (λ edge h. let k = Edge-swap_pair n (is_reversed idx) edge h in (k.0, (k.1, tt)))

reversed_if-Below :
    (n : ℕ) (swap : Bool) (face : List ℕ)
    → Below n face
    → Ensures (Below n) (if swap then reverse_tail face else ok face)
reversed_if-Below n true face h = reverse_tail-Below n face h
reversed_if-Below n false face h = h

face_part-Below :
    (n : ℕ) (faces : List (List ℕ)) (idx : ℤ)
    → All (Below n) faces
    → Ensures (Below n) (face_part faces idx)
unfolding face_part
face_part-Below n faces idx hf =
    Ensures_bind (Below n) (Below n) (checked_get _ faces (position idx))
      (λ face. if is_reversed idx then reverse_tail face else ok face)
      (checked_get-Ensures (Below n) _ faces (position idx) hf)
      (λ face h. reversed_if-Below n (is_reversed idx) face h)

module _ (n : ℕ) (edges : List (ℕ × ℕ)) (faces : List (List ℕ)) (he : All (Edge n) edges)
    (hf : All (Below n) faces) where
  element_part-Below : (size : ℕ) (idx : ℤ) → Ensures (Below n) (element_part edges faces size idx)
  unfolding element_part
  element_part-Below size idx = elim (Bool-cases (size == 3 || size == 2)) [
    | inl by_edge ↦ rw by_edge (edge_part-Below n edges idx he)
    | inr other ↦ elim (Bool-cases (size == 4)) [
      | inl by_face ↦ rw (other, by_face) (face_part-Below n faces idx hf)
      | inr neither ↦ rw (other, neither) tt
    ]
  ]

  element_loop-Below :
      (size k : ℕ) (element : List ℕ) (s : Stream ℤ)
      → Below n element
      → Ensures (Below n) (element_loop edges faces size k element s)
  unfolding element_loop
  element_loop-Below size zero element s h = h
  element_loop-Below size (suc k) element s h =
      let r = next_value (pos 0) s in
      Ensures_bind (Below n) (Below n) (element_part edges faces size r.0)
        (λ part. element_loop edges faces size k (element ++ part) r.1)
        (element_part-Below size r.0)
        (λ part hp.
          element_loop-Below size k (element ++ part) r.1
            (All-append (λ v. v < n) element part h hp))

  pub read_element-Below : (line : Str) → Ensures (Below n) (read_element edges faces line)
  unfolding read_element
  read_element-Below line =
      let r = next_value (pos 0) (read_signed line) in
      Ensures_bind (λ _. Unit {0}) (Below n) (element_size r.0)
        (λ size. element_loop edges faces size size [] r.1) (any (element_size r.0))
        (λ size _. element_loop-Below size size [] r.1 tt)

-- All the vertices of regions.
abbrev pub Regions : ℕ → Dict (List ℕ) → Type 0
Regions n = All (λ (e : Str × List ℕ). Below n e.1)

or_empty-Below :
    (n : ℕ) (name : Str) (m : Dict (List ℕ)) → Regions n m → Below n (or_empty (lookup name m))
unfolding lookup
or_empty-Below n name [] h = tt
or_empty-Below n name ((k, vs) ∷ m) h = elim (Bool-cases (equal k name)) [
  | inl same ↦ rw same h.0
  | inr other ↦ rw other (or_empty-Below n name m h.1)
]

insert-Regions :
    (n : ℕ) (name : Str) (vs : List ℕ) (m : Dict (List ℕ))
    → Below n vs
    → Regions n m
    → Regions n (insert name vs m)
unfolding insert
insert-Regions n name vs [] h hm = (h, tt)
insert-Regions n name vs ((k, ws) ∷ m) h hm = elim (Bool-cases (equal k name)) [
  | inl same ↦ rw same (h, hm.1)
  | inr other ↦ elim (Bool-cases (before name k)) [
    | inl first ↦ rw (other, first) (h, hm)
    | inr later ↦ rw (other, later) (hm.0, insert-Regions n name vs m h hm.1)
  ]
]

pub add_region-Regions :
    (n : ℕ) (elements : List (List ℕ)) (name : Str) (is : List ℕ) (m : Dict (List ℕ))
    → All (Below n) elements
    → Regions n m
    → Ensures (Regions n) (add_region elements name is m)
unfolding add_region
add_region-Regions n elements name [] m he h = h
add_region-Regions n elements name (i ∷ is) m he h =
    Ensures_bind (Below n) (Regions n) (checked_get _ elements i)
      (λ element. add_region elements name is (append_region name element m))
      (checked_get-Ensures (Below n) _ elements i he)
      (λ element k. add_region-Regions n elements name is _ he (
        insert-Regions n name _ m
          (All-append (λ v. v < n) (or_empty (lookup name m)) element (or_empty-Below n name m h) k)
          h))
