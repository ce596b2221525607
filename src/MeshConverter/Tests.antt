-- ===== src/MeshConverter/Tests.antt =====
-- tools/mesh_converter/parsers/DFISEParser.cpp: tests, and the theorems at concrete inputs.
use allpix_fork.Base.{
  ℕ, ◌≡◌, refl, true, false, none, some, List, [], ◌∷◌, map, Str, codes, ok, err, runtime_error,
  undefined_behaviour, find_first_not_of, find_last_not_of, ◌≢◌, ◌%◌, equal, length, Dict,
  field_count, lookup,
}
use allpix_fork.Text.{trim_with}
use allpix_fork.Base.Int.{pos, negsuc}
use allpix_fork.MeshConverter.Numbers.{read_signed, read_unsigned, stoul}
use allpix_fork.MeshConverter.Lines.{simple_header, data_header, key_value, validity_region}
use allpix_fork.MeshConverter.Shapes.{Point, point2, point3, read_face}
use allpix_fork.MeshConverter.{Section}
use allpix_fork.Base.{◌&&◌, ◌++◌, if◌then◌else◌}
use allpix_fork.MeshConverter.Field.{field_points}
use allpix_fork.MeshConverter.Grid.{Grid, empty_grid, read_line, read_lines, read_meshes}
use allpix_fork.MeshConverter.Grid.Gathered.{gathered}
use allpix_fork.MeshConverter.Grid.Regions.{named}
use allpix_fork.MeshConverter.Grid.Points.{Matches, read_meshes-Matches}
use allpix_fork.MeshConverter.Field.{Field, empty_field, close_values, store, read_fields}
use allpix_fork.MeshConverter.Field.Values.{
  coordinates, stored, close_values-electric, close_values-stored,
}

-- In these tests the numbers are the natural numbers that a line holds.
doubles : Str → List ℕ
doubles line = (read_unsigned line).read

signs :
    read_signed (codes " 3 -1  +20x 4")
    ≡ record { read = pos 3 ∷ negsuc 0 ∷ pos 20 ∷ []; failed = pos 0 }
unfolding read_signed
signs = refl

wrapped : stoul (codes "-1") ≡ ok 0xffff_ffff_ffff_ffff
unfolding stoul
wrapped = refl

info_header : simple_header (codes "Info {") ≡ some (codes "Info")
unfolding simple_header
info_header = refl

vertices_header : data_header (codes "Vertices (8) {") ≡ some (codes "Vertices", codes "8")
unfolding data_header
vertices_header = refl

dimension_key : key_value (codes "dimension   = 3") ≡ some (codes "dimension", codes "3")
unfolding key_value
dimension_key = refl

region_name : validity_region (codes "[ \"Silicon_1.b\" ]") ≡ some (codes "Silicon_1.b")
unfolding validity_region
region_name = refl

-- A triangle whose second edge is reversed.
triangle : read_face ((0, 1) ∷ (2, 1) ∷ (2, 0) ∷ []) (codes "3 0 -2 2") ≡ ok (0 ∷ 1 ∷ 2 ∷ [])
unfolding read_face
triangle = refl

no_edges : read_face ((0, 1) ∷ []) (codes "0") ≡ err undefined_behaviour
unfolding read_face
no_edges = refl

abbrev square : List Str
square = map codes (
    "DF-ISE text" ∷ "" ∷ "Info {" ∷ "  dimension = 2" ∷ "}" ∷ "Data {" ∷ "  Vertices (4) {"
    ∷ "    0 0 5 0" ∷ "    5 7 0 7" ∷ "  }" ∷ "  Edges (5) {" ∷ "    0 1 1 2 2 3 3 0 0 2" ∷ "  }"
    ∷ "  Elements (2) {" ∷ "    2 0 1 -5" ∷ "    2 4 2 3" ∷ "  }" ∷ "  Region (\"bulk\") {"
    ∷ "    material = Silicon" ∷ "    Elements (1) {" ∷ "      1" ∷ "    }" ∷ "  }" ∷ "}" ∷ [])

square_region :
    read_meshes doubles square ≡ ok ((codes "bulk", point2 0 0 ∷ point2 5 7 ∷ point2 0 7 ∷ []) ∷ [])
unfolding read_meshes doubles trim_with find_first_not_of find_last_not_of
square_region = refl

abbrev known_grid : Grid ℕ
known_grid = record empty_grid {
  nesting = record { main = Section.none; sub = Section.none; in_data = false };
  vertices = point2 0 0 ∷ point2 5 0 ∷ point2 5 7 ∷ point2 0 7 ∷ [];
  edges = (0, 1) ∷ (1, 2) ∷ (2, 3) ∷ (3, 0) ∷ (0, 2) ∷ [];
  elements = (0 ∷ 1 ∷ 1 ∷ 2 ∷ 2 ∷ 0 ∷ []) ∷ (0 ∷ 2 ∷ 2 ∷ 3 ∷ 3 ∷ 0 ∷ []) ∷ [];
  regions_vertices = (codes "bulk", 0 ∷ 2 ∷ 2 ∷ 3 ∷ 3 ∷ 0 ∷ []) ∷ [];
  region = codes "bulk";
  dimension = 2;
  data_count = 1;
}

square_read : read_lines doubles empty_grid square ≡ ok known_grid
unfolding read_lines doubles trim_with find_first_not_of find_last_not_of
square_read = refl

read_meshes-Matches_example :
    ((m : Dict (List (Point ℕ))) × (read_meshes doubles square ≡ ok m)
      × Matches known_grid.vertices known_grid.regions_vertices m)
    × ((n : Str)
        → lookup n known_grid.regions_vertices
          ≡ gathered n known_grid.elements none (named doubles empty_grid square))
read_meshes-Matches_example = read_meshes-Matches doubles square known_grid square_read

square_named : named doubles empty_grid square ≡ (codes "bulk", 1) ∷ []
unfolding doubles trim_with find_first_not_of find_last_not_of read_line
square_named = refl

abbrev field_file : List Str
field_file = map codes (
    "DF-ISE text" ∷ "Data {" ∷ "  Dataset (\"ElectricField\") {" ∷ "    type = vector"
    ∷ "    dimension = 3" ∷ "    location = vertex" ∷ "    validity = [ \"bulk\" ]"
    ∷ "    Values (6) {" ∷ "      1 2 3 4" ∷ "      5 6" ∷ "    }" ∷ "  }" ∷ "}" ∷ [])

field_read :
    read_fields doubles 0 field_file
    ≡ ok ((codes "bulk", (codes "ElectricField", point3 1 2 3 ∷ point3 4 5 6 ∷ []) ∷ []) ∷ [])
unfolding read_fields doubles trim_with find_first_not_of find_last_not_of read_unsigned
field_read = refl

abbrev collected : List ℕ → ℕ → Field ℕ
collected values count = record empty_field {
  nesting = record { main = Section.electric_field; sub = Section.values; in_data = true };
  values = values;
  region = codes "bulk";
  observable = codes "ElectricField";
  dimension = 3;
  data_count = count;
}

abbrev ClosesAs : Field ℕ → Type 0
ClosesAs f =
    (f.data_count ≡ length f.values
      → length f.values % 3 ≡ 0
      → (ps : List (Point ℕ)) × (close_values 0 Section.electric_field f ≡ ok (store f ps))
        × (coordinates ps ≡ f.values))
    × (f.data_count ≢ length f.values
        → close_values 0 Section.electric_field f ≡ err (runtime_error field_count))
    × (f.data_count ≡ length f.values
        → length f.values % 3 ≢ 0
        → close_values 0 Section.electric_field f ≡ err undefined_behaviour)

close_values-electric_example : ClosesAs (collected (7 ∷ 8 ∷ []) 2)
close_values-electric_example = close_values-electric 0 (collected (7 ∷ 8 ∷ []) 2) refl refl

close_values-stored_example :
    (g : Field ℕ) × (close_values 0 Section.electric_field (collected (7 ∷ 8 ∷ 9 ∷ []) 3) ≡ ok g)
    × ((r o : Str)
        → stored r o g.fields ≡ (
            if equal (codes "bulk") r && equal (codes "ElectricField") o
            then stored r o [] ++ (point3 7 8 9 ∷ [])
            else stored r o []))
    × (g.values ≡ [])
unfolding field_points
close_values-stored_example =
    close_values-stored 0 Section.electric_field (collected (7 ∷ 8 ∷ 9 ∷ []) 3) (point3 7 8 9 ∷ [])
      refl refl refl refl
