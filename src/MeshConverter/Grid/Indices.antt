-- ===== src/MeshConverter/Grid/Indices.antt =====
-- tools/mesh_converter/parsers/DFISEParser.cpp: `read_meshes` never reads a vertex that does not exist.
use allpix_fork.Base.{
  ℕ, ◌<◌, ◌≤◌, Bool, true, false, not, List, [], ◌∷◌, ◌++◌, Str, codes, equal, length,
  length-append, ◌==◌, ok, Error, throw_if, ◌>>◌, All, All-append, arith, Bool-cases, inl, inr,
}
use allpix_fork.Text.{trim}
use allpix_fork.MeshConverter.{Section}
use allpix_fork.MeshConverter.Numbers.{read_unsigned}
use allpix_fork.MeshConverter.Shapes.{Point, pairs, add_edges, read_face, read_element, add_region}
use allpix_fork.MeshConverter.Shapes.Bounds.{
  Regions, add_edges-Edge, read_face-Below, read_element-Below, add_region-Regions,
}
use allpix_fork.MeshConverter.Shapes.Below.{Ensures, Ensures_bind, Below, Edge}
use allpix_fork.MeshConverter.Grid.Headers.{read_line-Ensures}
use allpix_fork.MeshConverter.Grid.{Grid, read_data, read_line, read_lines, is_elements}

All-weaken {ℓ κ λ'} :
    {A : Type ℓ} (P : A → Type κ) (Q : A → Type λ') (xs : List A)
    → ((a : A) → P a → Q a)
    → All P xs
    → All Q xs
All-weaken P Q [] f h = tt
All-weaken P Q (x ∷ xs) f h = (f x h.0, All-weaken P Q xs f h.1)

Below-mono : (n m : ℕ) (xs : List ℕ) → n ≤ m → Below n xs → Below m xs
Below-mono n m xs le h = All-weaken (λ v. v < n) (λ v. v < m) xs (λ v k. omega arith) h

module _ {D : Type 0} where
  -- All vertices that edges, faces, elements and regions name are below the number of vertices.
  abbrev pub Indexed : ℕ → Grid D → Type 0
  Indexed n g =
      All (Edge n) g.edges
      × All (Below n) g.faces
      × All (Below n) g.elements
      × Regions n g.regions_vertices

  abbrev pub IsIndexed : Grid D → Type 0
  IsIndexed g = Indexed (length g.vertices) g

  Indexed-mono : (n m : ℕ) (g : Grid D) → n ≤ m → Indexed n g → Indexed m g
  Indexed-mono n m g le h = (
    All-weaken (Edge n) (Edge m) g.edges (λ e k. (omega arith, omega arith)) h.0,
    All-weaken (Below n) (Below m) g.faces (λ f k. Below-mono n m f le k) h.1,
    All-weaken (Below n) (Below m) g.elements (λ f k. Below-mono n m f le k) h.2,
    All-weaken (λ (e : Str × List ℕ). Below n e.1) (λ (e : Str × List ℕ). Below m e.1)
        g.regions_vertices (λ e k. Below-mono n m e.1 le k) h.3,
  )

  more_vertices :
      (g : Grid D) (ps : List (Point D))
      → IsIndexed g
      → IsIndexed (record g { vertices = g.vertices ++ ps })
  more_vertices g ps h =
      Indexed-mono (length g.vertices) (length (g.vertices ++ ps)) g
        (omega (arith, length-append g.vertices ps)) h

  unless :
      (test : Bool) (e : Error) (g : Grid D)
      → IsIndexed g
      → Ensures IsIndexed (throw_if test e >> ok g)
  unless true e g h = tt
  unless false e g h = h

  read_data-IsIndexed :
      (doubles : Str → List D) (section : Section) (g : Grid D) (line : Str)
      → IsIndexed g
      → Ensures IsIndexed (read_data doubles section g line)
  unfolding read_data
  read_data-IsIndexed doubles Section.header g line h =
      unless (not (equal line (codes "DF-ISE text"))) _ g h
  read_data-IsIndexed doubles Section.vertices g line h = elim (Bool-cases (g.dimension == 3)) [
    | inl three ↦ rw three (more_vertices g _ h)
    | inr other ↦ elim (Bool-cases (g.dimension == 2)) [
      | inl two ↦ rw (other, two) (more_vertices g _ h)
      | inr neither ↦ rw (other, neither) h
    ]
  ]
  read_data-IsIndexed doubles Section.edges g line h =
      Ensures_bind (All (Edge (length g.vertices))) IsIndexed
        (add_edges (length g.vertices) g.edges (pairs (read_unsigned line).read))
        (λ edges. ok (record g { edges = edges }))
        (add_edges-Edge (length g.vertices) g.edges (pairs (read_unsigned line).read) h.0)
        (λ edges k. (k, h.1, h.2, h.3))
  read_data-IsIndexed doubles Section.faces g line h =
      Ensures_bind (Below (length g.vertices)) IsIndexed (read_face g.edges line)
        (λ face. ok (record g { faces = g.faces ++ (face ∷ []) }))
        (read_face-Below (length g.vertices) g.edges line h.0)
        (λ face k.
          (h.0, All-append (Below (length g.vertices)) g.faces (face ∷ []) h.1 (k, tt), h.2, h.3))
  read_data-IsIndexed doubles Section.elements g line h =
      Ensures_bind (Below (length g.vertices)) IsIndexed (read_element g.edges g.faces line)
        (λ element. ok (record g { elements = g.elements ++ (element ∷ []) }))
        (read_element-Below (length g.vertices) g.edges g.faces h.0 h.1 line)
        (λ element k. (
          h.0,
          h.1,
          All-append (Below (length g.vertices)) g.elements (element ∷ []) h.2 (k, tt),
          h.3,
        ))
  read_data-IsIndexed doubles Section.region g line h =
      elim (Bool-cases (is_elements g.nesting.sub)) [
        | inl inside ↦ rw inside (
            Ensures_bind (Regions (length g.vertices)) IsIndexed
              (add_region g.elements g.region (read_unsigned line).read g.regions_vertices)
              (λ m. ok (record g { regions_vertices = m }))
              (add_region-Regions (length g.vertices) g.elements g.region (read_unsigned line).read
                g.regions_vertices h.2 h.3)
              (λ m k. (h.0, h.1, h.2, k)))
        | inr outside ↦ rw outside h
      ]
  read_data-IsIndexed doubles _ g line h = h

  read_line-IsIndexed :
      (doubles : Str → List D) (g : Grid D) (line : Str)
      → IsIndexed g
      → Ensures IsIndexed (read_line doubles g line)
  read_line-IsIndexed doubles g line h =
      read_line-Ensures IsIndexed (λ k n region dimension data_count v. v) doubles g line h
        (λ item. read_data-IsIndexed doubles g.nesting.main g (trim line) h)

  pub read_lines-IsIndexed :
      (doubles : Str → List D) (g : Grid D) (lines : List Str)
      → IsIndexed g
      → Ensures IsIndexed (read_lines doubles g lines)
  unfolding read_lines
  read_lines-IsIndexed doubles g [] h = h
  read_lines-IsIndexed doubles g (line ∷ rest) h =
      Ensures_bind IsIndexed IsIndexed (read_line doubles g line) (λ k. read_lines doubles k rest)
        (read_line-IsIndexed doubles g line h) (λ k hk. read_lines-IsIndexed doubles k rest hk)
