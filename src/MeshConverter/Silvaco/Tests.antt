-- ===== src/MeshConverter/Silvaco/Tests.antt =====
-- tools/mesh_converter/parsers/SilvacoParser.cpp: tests, and the theorem at a concrete input.
use allpix_fork.Base.{
  ℕ, ◌≡◌, refl, ◌&&◌, List, [], ◌∷◌, Str, codes, equal, Dict, ok, err, runtime_error,
  observable_dimension, elem, substr, find_first_not_of, find_last_not_of, if◌then◌else◌,
}
use allpix_fork.Text.{trim, trim_with}
use allpix_fork.MeshConverter.Numbers.{read_unsigned}
use allpix_fork.MeshConverter.Shapes.{Point, point2, point3}
use allpix_fork.MeshConverter.Field.Values.{stored}
use allpix_fork.MeshConverter.Silvaco.{silicon, read_meshes, read_fields}
use allpix_fork.MeshConverter.Silvaco.Both.{read_fields-read_meshes}

-- In these tests the numbers are the natural numbers that a line holds.
doubles : Str → List ℕ
doubles line = (read_unsigned line).read

flat :
    read_meshes doubles (codes "1 2" ∷ codes "3 4 5 6 7" ∷ [])
    ≡ ((codes "Silicon", point2 1 2 ∷ point2 3 4 ∷ point2 5 6 ∷ []) ∷ [])
unfolding read_meshes doubles trim_with find_first_not_of find_last_not_of read_unsigned elem substr
flat = refl

potentials :
    read_fields doubles 0 (codes "V") (codes "4" ∷ [] ∷ codes "5" ∷ [])
    ≡ ok ((codes "Silicon", (codes "V", point3 4 0 0 ∷ point3 5 0 0 ∷ []) ∷ []) ∷ [])
unfolding read_fields doubles trim_with find_first_not_of find_last_not_of read_unsigned elem substr
    equal
potentials = refl

-- A first line that is empty leaves one column.
blank_first : read_meshes doubles ([] ∷ codes "1 2 3" ∷ []) ≡ ((codes "Silicon", []) ∷ [])
unfolding read_meshes doubles trim_with find_first_not_of find_last_not_of read_unsigned elem substr
blank_first = refl

four_columns :
    read_fields doubles 0 (codes "E") (codes "1 2 3 4" ∷ [])
    ≡ err (runtime_error observable_dimension)
unfolding read_fields doubles trim_with find_first_not_of find_last_not_of read_unsigned elem substr
    equal
four_columns = refl

read_fields-read_meshes_example :
    (ps : List (Point ℕ)) × (n : Dict (Dict (List (Point ℕ)))) × (read_meshes doubles
        (codes "1 2 3" ∷ codes "4 5 6 7 8 9" ∷ [])
      ≡ (silicon, ps) ∷ [])
    × (read_fields doubles 0 (codes "E") (codes "1 2 3" ∷ codes "4 5 6 7 8 9" ∷ []) ≡ ok n)
    × ((r o : Str) → stored r o n ≡ (if equal silicon r && equal (codes "E") o then ps else []))
unfolding doubles trim_with find_first_not_of find_last_not_of read_unsigned trim elem substr
read_fields-read_meshes_example =
    read_fields-read_meshes doubles 0 (codes "E") (codes "1 2 3") (codes "4 5 6 7 8 9" ∷ []) refl
      refl (refl, tt)
