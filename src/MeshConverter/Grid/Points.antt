-- ===== src/MeshConverter/Grid/Points.antt =====
-- tools/mesh_converter/parsers/DFISEParser.cpp: the points that `read_meshes` returns for the regions.
use allpix_fork.Base.{
  ℕ, zero, suc, ◌<◌, ◌≡◌, refl, subst, ap, ◌∙◌, none, some, lookup, List, [], ◌∷◌, Str, Dict, map,
  length, leb, Result, ok, Error, undefined_behaviour, ◌>>=◌, arith, Bool-cases, inl, inr,
}
use allpix_fork.MeshConverter.Shapes.{Point, get_elem?, checked_get, unique}
use allpix_fork.MeshConverter.Shapes.Bounds.{Regions}
use allpix_fork.MeshConverter.Shapes.Below.{Ensures, Below, Below-unique}
use allpix_fork.MeshConverter.Grid.{
  Grid, empty_grid, insert_sorted, sort, read_lines, vertex_points, region_points, read_meshes,
}
use allpix_fork.MeshConverter.Grid.Gathered.{gathered}
use allpix_fork.MeshConverter.Grid.Regions.{named, read_lines-gathered}
use allpix_fork.MeshConverter.Grid.Sorted.{mem, Ascending, unique-sort}
use allpix_fork.MeshConverter.Grid.Indices.{IsIndexed, read_lines-IsIndexed}

Below-insert_sorted : (n a : ℕ) (xs : List ℕ) → a < n → Below n xs → Below n (insert_sorted a xs)
unfolding insert_sorted
Below-insert_sorted n a [] ha h = (ha, tt)
Below-insert_sorted n a (x ∷ xs) ha h = elim (Bool-cases (leb a x)) [
  | inl first ↦ rw first (ha, h)
  | inr later ↦ rw later (h.0, Below-insert_sorted n a xs ha h.1)
]

Below-sort : (n : ℕ) (xs : List ℕ) → Below n xs → Below n (sort xs)
unfolding sort
Below-sort n [] h = tt
Below-sort n (x ∷ xs) h = Below-insert_sorted n x (sort xs) h.0 (Below-sort n xs h.1)

checked_get-some {ℓ} :
    {A : Type ℓ} (e : Error) (xs : List A) (i : ℕ)
    → i < length xs
    → (a : A) × (checked_get e xs i ≡ ok a) × (get_elem? xs i ≡ some a)
unfolding checked_get
checked_get-some e [] i h = absurd (omega arith)
checked_get-some e (x ∷ xs) zero h = (x, refl, refl)
checked_get-some e (x ∷ xs) (suc i) h = checked_get-some e xs i (omega arith)

module _ {D : Type 0} where
  -- The points are the vertices under the indices, each once and by ascending index.
  abbrev pub Named : List (Point D) → List ℕ → List (Point D) → Type 0
  Named vertices is ps =
      (ids : List ℕ) × Ascending 0 ids
      × ((a : ℕ) → mem a ids ≡ mem a is)
      × (map (get_elem? vertices) ids ≡ map some ps)

  -- The regions with their points.
  abbrev pub Matches : List (Point D) → Dict (List ℕ) → Dict (List (Point D)) → Type 0
  Matches vertices [] [] = Unit {0}
  Matches vertices ((name, is) ∷ regions) ((name', ps) ∷ m) =
      (name ≡ name') × Named vertices is ps × Matches vertices regions m
  Matches vertices _ _ = ⊥

  vertex_points-some :
      (vertices : List (Point D)) (is : List ℕ)
      → Below (length vertices) is
      → (ps : List (Point D)) × (vertex_points vertices is ≡ ok ps)
        × (map (get_elem? vertices) is ≡ map some ps)
  unfolding vertex_points
  vertex_points-some vertices [] h = ([], refl, refl)
  vertex_points-some vertices (i ∷ is) h =
      let (p, read, at) = checked_get-some undefined_behaviour vertices i h.0 in
      let (ps, rest, same) = vertex_points-some vertices is h.1 in
      (p ∷ ps, rw (read, rest) refl, cc (at, same))

  region_points-Matches :
      (vertices : List (Point D)) (regions : Dict (List ℕ))
      → Regions (length vertices) regions
      → (m : Dict (List (Point D))) × (region_points vertices regions ≡ ok m)
        × Matches vertices regions m
  unfolding region_points
  region_points-Matches vertices [] h = ([], refl, tt)
  region_points-Matches vertices ((name, is) ∷ regions) h =
      let (ps, read, same) =
        vertex_points-some vertices (unique (sort is))
          (Below-unique (length vertices) (sort is) (Below-sort (length vertices) is h.0)) in
      let (m, rest, matches) = region_points-Matches vertices regions h.1 in
      let (ascending, members) = unique-sort is in
      (
        (name, ps) ∷ m,
        rw (read, rest) refl,
        (refl, (unique (sort is), ascending, members, same), matches),
      )

  -- If the lines of a grid are read without an error, `read_meshes` returns points: it looks up no vertex
  -- that does not exist, although it does not check these look-ups. The points of a region are its
  -- vertices, each once, by ascending index. A region has the vertices of the elements whose numbers
  -- lines in its section give, one element after the other in the order of the lines, and no region
  -- is returned for which no line gives a number.
  pub read_meshes-Matches :
      (doubles : Str → List D) (lines : List Str) (g : Grid D)
      → read_lines doubles empty_grid lines ≡ ok g
      → ((m : Dict (List (Point D))) × (read_meshes doubles lines ≡ ok m)
          × Matches g.vertices g.regions_vertices m)
        × ((n : Str)
            → lookup n g.regions_vertices
              ≡ gathered n g.elements none (named doubles empty_grid lines))
  unfolding read_meshes lookup
  read_meshes-Matches doubles lines g e =
      let indexed =
        subst (Ensures (IsIndexed {D = D})) e
          (read_lines-IsIndexed doubles empty_grid lines (tt, tt, tt, tt)) in
      let (m, points, matches) = region_points-Matches g.vertices g.regions_vertices indexed.3 in
      (
        (
          m,
          ap (λ (r : Result (Grid D)). r >>= λ h. region_points h.vertices h.regions_vertices) e
              ∙ points,
          matches,
        ),
        (read_lines-gathered doubles lines empty_grid g e).1,
      )
