-- ===== src/MeshConverter/Grid.antt =====
-- tools/mesh_converter/parsers/DFISEParser.cpp: `read_meshes`, which reads the vertices, edges, faces and
-- elements of a grid and returns the points of every region.
pub mod Gathered
pub mod Headers
pub mod Indices
pub mod Regions
pub mod Sorted
pub mod Points
use allpix_fork.Base.{
  ℕ, zero, suc, ◌+◌, ◌-◌, Bool, true, false, not, ◌&&◌, ◌||◌, Option, none, some, List, [], ◌∷◌,
  ◌++◌, Str, codes, equal, elem, Dict, lookup, insert, length, leb, ◌==◌, if◌then◌else◌, Result, ok,
  err, runtime_error, undefined_behaviour, no_text_header, vertex_count, face_count, element_count,
  throw_if, map_result, ◌>>=◌, ◌>>◌, substr,
}
use allpix_fork.Text.{trim, whitespace}
use allpix_fork.MeshConverter.{Section, Nesting, outside, enter, enter_sub, ignore, close, is_none}
use allpix_fork.MeshConverter.Numbers.{Stream, read_unsigned, stoul}
use allpix_fork.MeshConverter.Lines.{is_empty, simple_header, data_header, key_value}
use allpix_fork.MeshConverter.Shapes.{
  Point, get_elem?, checked_get, unique, pairs, points2, points3, add_edges, read_face,
  read_element, add_region,
}

-- The variables of `read_meshes`.
pub record Grid (D : Type 0) : Type 0 where
  pub nesting : Nesting
  pub vertices : List (Point D)
  pub edges : List (ℕ × ℕ)
  pub faces : List (List ℕ)
  pub elements : List (List ℕ)
  pub regions_vertices : Dict (List ℕ)
  pub region : Str
  pub dimension : ℕ
  pub data_count : ℕ

abbrev pub empty_grid : {D : Type 0} → Grid D
empty_grid = record {
  nesting = outside;
  vertices = [];
  edges = [];
  faces = [];
  elements = [];
  regions_vertices = [];
  region = [];
  dimension = 1;
  data_count = 0;
}

-- `std::sort` on numbers.
unfoldable pub insert_sorted : ℕ → List ℕ → List ℕ
insert_sorted a [] = a ∷ []
insert_sorted a (b ∷ bs) = if leb a b then a ∷ b ∷ bs else b ∷ insert_sorted a bs

unfoldable pub sort : List ℕ → List ℕ
unfolding insert_sorted
sort [] = []
sort (a ∷ as') = insert_sorted a (sort as')

abbrev pub is_region : Section → Bool
is_region Section.region = true
is_region _ = false

abbrev pub is_elements : Section → Bool
is_elements Section.elements = true
is_elements _ = false

abbrev pub is_info : Section → Bool
is_info Section.info = true
is_info _ = false

module _ {D : Type 0} where
  abbrev nest : Grid D → Nesting → Grid D
  nest g n = record g { nesting = n }

  -- A header without data.
  unfoldable pub open_simple : Grid D → Str → Grid D
  unfolding ignore equal
  open_simple g name =
      if equal name (codes "Info")
      then nest g (enter Section.info g.nesting)
      else if equal name (codes "Data")
      then nest g (record g.nesting { in_data = true })
      else nest g (ignore g.nesting)

  -- A header with the number of items that follow.
  abbrev counted : Grid D → Nesting → Str → Result (Grid D)
  counted g n text = stoul text >>= λ k. ok (record g { nesting = n; data_count = k })

  -- A header with data. The sections change before the number is read, and a number that cannot be read
  -- ends the reader.
  unfoldable pub open_data : Grid D → Str × Str → Result (Grid D)
  unfolding ignore stoul equal substr
  open_data g (name, text) =
      if equal name (codes "Region")
      then ok (record g {
        nesting = enter Section.region g.nesting;
        region = substr 1 (length text - 2) text;
      })
      else if equal name (codes "Vertices")
      then counted g (enter Section.vertices g.nesting) text
      else if equal name (codes "Edges")
      then counted g (enter Section.edges g.nesting) text
      else if equal name (codes "Faces")
      then counted g (enter Section.faces g.nesting) text
      else if equal name (codes "Elements")
      then counted g
          (if is_region g.nesting.main
            then enter_sub Section.elements g.nesting
            else enter Section.elements g.nesting)
          text
      else ok (nest g (ignore g.nesting))

  -- The check of the number of items at the end of a section; that of the edges has the text of the
  -- vertices.
  unfoldable pub check_count : Section → Grid D → Result (Unit {0})
  check_count Section.vertices g =
      throw_if (not (length g.vertices == g.data_count)) (runtime_error vertex_count)
  check_count Section.edges g =
      throw_if (not (length g.edges == g.data_count)) (runtime_error vertex_count)
  check_count Section.faces g =
      throw_if (not (length g.faces == g.data_count)) (runtime_error face_count)
  check_count Section.elements g =
      throw_if (not (length g.elements == g.data_count)) (runtime_error element_count)
  check_count _ g = ok tt

  unfoldable pub close_section : Grid D → Result (Grid D)
  unfolding check_count close
  close_section g = check_count g.nesting.main g >> (close g.nesting >>= λ n. ok (nest g n))

  -- A line with a key and a value.
  abbrev set_dimension : Grid D → ℕ → Grid D
  set_dimension g n =
      if n == 3 || n == 2
      then record g { dimension = n }
      else nest g (enter Section.ignored g.nesting)

  unfoldable pub read_key : Grid D → Option (Str × Str) → Result (Grid D)
  unfolding stoul equal trim
  read_key g none = ok g
  read_key g (some (key, value)) =
      if is_info g.nesting.main && equal key (codes "dimension")
      then (stoul (trim value) >>= λ n. ok (set_dimension g n))
      else ok g

  -- Any other line, by the section. `doubles` gives the numbers that the line holds.
  unfoldable pub read_data : (Str → List D) → Section → Grid D → Str → Result (Grid D)
  unfolding points2 points3 pairs add_edges read_face read_element add_region read_unsigned equal
  read_data doubles Section.header g line =
      throw_if (not (equal line (codes "DF-ISE text"))) (runtime_error no_text_header) >> ok g
  read_data doubles Section.vertices g line =
      if g.dimension == 3
      then ok (record g { vertices = g.vertices ++ points3 (doubles line) })
      else if g.dimension == 2
      then ok (record g { vertices = g.vertices ++ points2 (doubles line) })
      else ok g
  read_data doubles Section.edges g line =
      add_edges (length g.vertices) g.edges (pairs (read_unsigned line).read) >>= λ edges.
      ok (record g { edges = edges })
  read_data doubles Section.faces g line =
      read_face g.edges line >>= λ face. ok (record g { faces = g.faces ++ (face ∷ []) })
  read_data doubles Section.elements g line = read_element g.edges g.faces line >>= λ element.
      ok (record g { elements = g.elements ++ (element ∷ []) })
  read_data doubles Section.region g line =
      if is_elements g.nesting.sub
      then (add_region g.elements g.region (read_unsigned line).read g.regions_vertices >>= λ m.
          ok (record g { regions_vertices = m }))
      else ok g
  read_data doubles _ g line = ok g

  abbrev open_with : Grid D → Option Str → Option (Str × Str) → Result (Grid D)
  open_with g (some name) data_part = ok (open_simple g name)
  open_with g none (some (name, text)) = open_data g (name, text)
  open_with g none none = ok g

  -- One line of the file that is not empty once it is trimmed.
  unfoldable pub read_trimmed : (Str → List D) → Grid D → Str → Result (Grid D)
  unfolding open_simple open_data close_section read_key read_data simple_header data_header
      key_value elem
  read_trimmed doubles g line =
      if elem b'{' line
      then open_with g (simple_header line) (data_header line)
      else if elem b'}' line
      then close_section g
      else if elem b'=' line
      then read_key g (key_value line)
      else read_data doubles g.nesting.main g line

  unfoldable pub read_line : (Str → List D) → Grid D → Str → Result (Grid D)
  unfolding read_trimmed trim
  read_line doubles g line =
      let text = trim line in if is_empty text then ok g else read_trimmed doubles g text

  unfoldable pub read_lines : (Str → List D) → Grid D → List Str → Result (Grid D)
  unfolding read_line
  read_lines doubles g [] = ok g
  read_lines doubles g (line ∷ rest) = read_line doubles g line >>= λ h. read_lines doubles h rest

  -- `vertices[i]` is not checked by the source.
  unfoldable pub vertex_points : List (Point D) → List ℕ → Result (List (Point D))
  unfolding checked_get
  vertex_points vertices indices = map_result (checked_get undefined_behaviour vertices) indices

  unfoldable pub region_points : List (Point D) → Dict (List ℕ) → Result (Dict (List (Point D)))
  unfolding vertex_points sort unique
  region_points vertices [] = ok []
  region_points vertices ((name, indices) ∷ rest) =
      vertex_points vertices (unique (sort indices)) >>= λ points.
      region_points vertices rest >>= λ m. ok ((name, points) ∷ m)

  -- `read_meshes` on the lines of the file.
  unfoldable pub read_meshes : (Str → List D) → List Str → Result (Dict (List (Point D)))
  unfolding read_lines region_points
  read_meshes doubles lines =
      read_lines doubles empty_grid lines >>= λ g. region_points g.vertices g.regions_vertices
