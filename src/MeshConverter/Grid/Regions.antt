-- ===== src/MeshConverter/Grid/Regions.antt =====
-- tools/mesh_converter/parsers/DFISEParser.cpp: which elements the lines of a grid name for which region, and
-- what `read_meshes` keeps for the regions.
use allpix_fork.Base.{
  ℕ, ◌≡◌, refl, sym, ap, ◌∙◌, Bool, true, ◌&&◌, List, [], ◌∷◌, ◌++◌, Str, codes, lookup, equal,
  length, ◌==◌, if◌then◌else◌, ok, err, append_assoc, append-nil, bind-eq-ok, arith, Bool-cases,
  inl, inr, subst,
}
use allpix_fork.Text.{trim}
use allpix_fork.MeshConverter.{Section}
use allpix_fork.MeshConverter.Numbers.{read_unsigned}
use allpix_fork.MeshConverter.Shapes.{pairs, add_edges, read_face, read_element, add_region}
use allpix_fork.MeshConverter.Shapes.Below.{Ensures, Ensures_bind, any}
use allpix_fork.MeshConverter.Grid.{
  Grid, is_region, is_elements, read_data, read_trimmed, read_line, read_lines,
}
use allpix_fork.MeshConverter.Grid.Headers.{is_data, read_line-Ensures}
use allpix_fork.MeshConverter.Grid.Gathered.{
  gathered, of_region, gathered-append, gathered-more, ok_eq, Gathers, add_region-Gathers,
}

module _ {D : Type 0} where
  -- The regions and the numbers that a line of data in a section of region elements names.
  abbrev pub named_in : Bool → Grid D → Section → Str → List (Str × ℕ)
  named_in item g section text =
      if item && (is_region section && is_elements g.nesting.sub)
      then of_region g.region (read_unsigned text).read
      else []

  abbrev pub named_by : Grid D → Str → List (Str × ℕ)
  named_by g line = named_in (is_data (trim line)) g g.nesting.main (trim line)

  -- Those of all lines, each in the state behind the lines before it.
  abbrev pub named : (Str → List D) → Grid D → List Str → List (Str × ℕ)
  named doubles g [] = []
  named doubles g (line ∷ rest) = elim (read_line doubles g line) [
    | ok h ↦ named_by g line ++ named doubles h rest
    | err e ↦ []
  ]

  named-line :
      (doubles : Str → List D) (g h : Grid D) (line : Str) (rest : List Str)
      → read_line doubles g line ≡ ok h
      → named doubles g (line ∷ rest) ≡ named_by g line ++ named doubles h rest
  named-line doubles g h line rest e = rw (e, named) refl

  -- Elements are added behind the old ones, and the regions gather what is named.
  abbrev Extended : Grid D → List (Str × ℕ) → Grid D → Type 0
  Extended g t h =
      ((more : List (List ℕ)) × (h.elements ≡ g.elements ++ more))
      × Gathers g.elements g.regions_vertices t h.regions_vertices

  unchanged : (g : Grid D) → Extended g [] g
  unchanged g = (([], sym (append-nil g.elements)), (tt, λ n. refl))

  read_data-Extended :
      (doubles : Str → List D) (section : Section) (g : Grid D) (text : Str)
      → Ensures (Extended g (named_in true g section text)) (read_data doubles section g text)
  unfolding read_data
  read_data-Extended doubles Section.header g text =
      elim (Bool-cases (equal text (codes "DF-ISE text"))) [
        | inl a ↦ rw a (unchanged g)
        | inr a ↦ rw a tt
      ]
  read_data-Extended doubles Section.vertices g text = elim (Bool-cases (g.dimension == 3)) [
    | inl three ↦ rw three (unchanged g)
    | inr other ↦ elim (Bool-cases (g.dimension == 2)) [
      | inl two ↦ rw (other, two) (unchanged g)
      | inr neither ↦ rw (other, neither) (unchanged g)
    ]
  ]
  read_data-Extended doubles Section.edges g text =
      Ensures_bind (λ _. Unit {0}) (Extended g [])
        (add_edges (length g.vertices) g.edges (pairs (read_unsigned text).read))
        (λ edges. ok (record g { edges = edges })) (any _) (λ edges _. unchanged g)
  read_data-Extended doubles Section.faces g text =
      Ensures_bind (λ _. Unit {0}) (Extended g []) (read_face g.edges text)
        (λ face. ok (record g { faces = g.faces ++ (face ∷ []) })) (any _) (λ face _. unchanged g)
  read_data-Extended doubles Section.elements g text =
      Ensures_bind (λ _. Unit {0}) (Extended g []) (read_element g.edges g.faces text)
        (λ element. ok (record g { elements = g.elements ++ (element ∷ []) })) (any _)
        (λ element _. ((element ∷ [], refl), (tt, λ n. refl)))
  read_data-Extended doubles Section.region g text = elim (Bool-cases (is_elements g.nesting.sub)) [
    | inl inside ↦ rw inside (
        Ensures_bind
          (Gathers g.elements g.regions_vertices (of_region g.region (read_unsigned text).read))
          (Extended g (of_region g.region (read_unsigned text).read))
          (add_region g.elements g.region (read_unsigned text).read g.regions_vertices)
          (λ m. ok (record g { regions_vertices = m }))
          (add_region-Gathers g.elements g.region (read_unsigned text).read g.regions_vertices)
          (λ m v. (([], sym (append-nil g.elements)), v)))
    | inr outside ↦ rw outside (unchanged g)
  ]
  read_data-Extended doubles _ g text = unchanged g

  read_line-data :
      (doubles : Str → List D) (g : Grid D) (line : Str)
      → is_data (trim line) ≡ true
      → read_line doubles g line ≡ read_data doubles g.nesting.main g (trim line)
  unfolding read_line read_trimmed
  read_line-data doubles g line h = ground arith

  read_line-Extended :
      (doubles : Str → List D) (g : Grid D) (line : Str)
      → Ensures (Extended g (named_by g line)) (read_line doubles g line)
  read_line-Extended doubles g line = elim (Bool-cases (is_data (trim line))) [
    | inl item ↦
        rw (read_line-data doubles g line item, item)
          (read_data-Extended doubles g.nesting.main g (trim line))
    | inr other ↦ rw other (
        read_line-Ensures (Extended g []) (λ k n region dimension data_count v. v) doubles g line
          (unchanged g) (λ item. absurd (ground arith)))
  ]

  -- The regions hold the vertices of the elements that the lines name for them, in the order of the lines.
  pub read_lines-gathered :
      (doubles : Str → List D) (lines : List Str) (g h : Grid D)
      → read_lines doubles g lines ≡ ok h
      → ((more : List (List ℕ)) × (h.elements ≡ g.elements ++ more))
        × ((n : Str)
            → lookup n h.regions_vertices
              ≡ gathered n h.elements (lookup n g.regions_vertices) (named doubles g lines))
  unfolding read_lines
  read_lines-gathered doubles [] g h e =
      subst
        (λ (k : Grid D).
          ((more : List (List ℕ)) × (k.elements ≡ g.elements ++ more))
          × ((n : Str) → lookup n k.regions_vertices ≡ lookup n g.regions_vertices))
        (ok_eq e) (([], sym (append-nil g.elements)), λ n. refl)
  read_lines-gathered doubles (line ∷ rest) g h e =
      let (u, read, k) = bind-eq-ok (read_line doubles g line) (λ u. read_lines doubles u rest) e in
      let (grown, (known, first)) =
        subst (Ensures (Extended g (named_by g line))) read (read_line-Extended doubles g line) in
      let ((later, all'), second) = read_lines-gathered doubles rest u h k in
      let same : h.elements ≡ g.elements ++ (grown.0 ++ later) =
        all' ∙ ap (λ es. es ++ later) grown.1 ∙ append_assoc g.elements grown.0 later in
      (
        (grown.0 ++ later, same),
        λ n.
            second n
            ∙ ap (λ has. gathered n h.elements has (named doubles u rest))
                (first n
                  ∙ sym (
                      gathered-more n g.elements (grown.0 ++ later) (lookup n g.regions_vertices)
                        (named_by g line) known)
                  ∙ ap (λ es. gathered n es (lookup n g.regions_vertices) (named_by g line))
                      (sym same))
            ∙ sym (
                gathered-append n h.elements (lookup n g.regions_vertices) (named_by g line)
                  (named doubles u rest))
            ∙ ap (gathered n h.elements (lookup n g.regions_vertices))
                (sym (named-line doubles g u line rest read)),
      )
