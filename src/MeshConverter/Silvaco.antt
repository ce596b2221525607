-- ===== src/MeshConverter/Silvaco.antt =====
-- tools/mesh_converter/parsers/SilvacoParser.cpp: the reader of grids and fields that are tables without
-- headers. The number of columns of the first line says what the lines hold.
pub mod Both
mod Tests
use allpix_fork.Base.{
  ℕ, Bool, true, false, List, [], ◌∷◌, ◌++◌, Str, codes, Dict, length, map, ◌==◌, if◌then◌else◌,
  Result, ok, err, runtime_error, observable_dimension, ◌>>=◌,
}
use allpix_fork.Text.{trim}
use allpix_fork.MeshConverter.Lines.{is_empty}
use allpix_fork.MeshConverter.Shapes.{Point, point3, points2, points3}
use allpix_fork.MeshConverter.FieldPoints.{emplace_points, vectors3, vectors2}

abbrev pub silicon : Str
silicon = codes "Silicon"

-- The dimension is counted on the first line only, and stays one if that line is empty.
abbrev pub next_dimension : {D : Type 0} → Bool → ℕ → List D → ℕ
next_dimension is_first dimension numbers = if is_first then length numbers else dimension

module _ {D : Type 0} (doubles : Str → List D) where
  unfoldable pub line_points : ℕ → List D → List (Point D)
  unfolding points3 points2
  line_points dimension numbers =
      if dimension == 3 then points3 numbers else if dimension == 2 then points2 numbers else []

  -- The loop of `read_meshes`; the Boolean says whether the line is the first one.
  unfoldable pub mesh_lines : Bool → ℕ → List Str → List (Point D)
  unfolding line_points trim
  mesh_lines is_first dimension [] = []
  mesh_lines is_first dimension (line ∷ rest) =
      let text = trim line in
      let d = next_dimension is_first dimension (doubles text) in
      let skipped = mesh_lines false dimension rest in
      let later = mesh_lines false d rest in
      if is_empty text then skipped else line_points d (doubles text) ++ later

  unfoldable pub read_meshes : List Str → Dict (List (Point D))
  unfolding mesh_lines
  read_meshes lines = (silicon, mesh_lines true 1 lines) ∷ []

  -- The points of one line of a field: a potential, or a vector in two or three dimensions.
  unfoldable pub line_values : D → ℕ → List D → Result (List (Point D))
  unfolding vectors3 vectors2
  line_values nought dimension numbers =
      if dimension == 1
      then ok (map (λ x. point3 x nought nought) numbers)
      else if dimension == 3
      then vectors3 numbers
      else if dimension == 2
      then vectors2 nought numbers
      else err (runtime_error observable_dimension)

  -- The loop of `read_fields`.
  unfoldable pub field_lines :
      D
      → Str
      → Bool
      → ℕ
      → Dict (Dict (List (Point D)))
      → List Str
      → Result (Dict (Dict (List (Point D))))
  unfolding line_values trim emplace_points
  field_lines nought observable is_first dimension m [] = ok m
  field_lines nought observable is_first dimension m (line ∷ rest) =
      let text = trim line in
      let d = next_dimension is_first dimension (doubles text) in
      let skipped = field_lines nought observable false dimension m rest in
      let read = line_values nought d (doubles text) >>= λ ps.
      field_lines nought observable false d (emplace_points silicon observable m ps) rest in
      if is_empty text then skipped else read

  unfoldable pub read_fields : D → Str → List Str → Result (Dict (Dict (List (Point D))))
  unfolding field_lines
  read_fields nought observable lines = field_lines nought observable true 1 [] lines
