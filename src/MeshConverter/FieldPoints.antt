-- ===== src/MeshConverter/FieldPoints.antt =====
-- tools/mesh_converter/parsers/DFISEParser.cpp: the points of a field, and the map that holds them.
use allpix_fork.Base.{
  Bool, true, false, Option, none, some, List, [], ◌∷◌, ◌++◌, Str, codes, equal, Dict, lookup,
  insert, if◌then◌else◌, Result, ok, err, Reason, is_some, undefined_behaviour, potential_count,
  field_count, point_count, ◌>>=◌,
}
use allpix_fork.MeshConverter.{Section}
use allpix_fork.MeshConverter.Shapes.{Point, point3}

-- The section of a dataset.
unfoldable pub dataset_section : Str → Section
unfolding equal
dataset_section text =
    if equal text (codes "ElectricField")
    then Section.electric_field
    else if equal text (codes "ElectrostaticPotential")
    then Section.electrostatic_potential
    else if equal text (codes "DopingConcentration")
    then Section.doping_concentration
    else if equal text (codes "DonorConcentration")
    then Section.donor_concentration
    else if equal text (codes "AcceptorConcentration")
    then Section.acceptor_concentration
    else Section.ignored

abbrev pub is_values : Section → Bool
is_values Section.values = true
is_values _ = false

-- The observable of a section with one value for each point.
abbrev pub scalar_name : Section → Option Str
scalar_name Section.electrostatic_potential = some (codes "ElectrostaticPotential")
scalar_name Section.doping_concentration = some (codes "DopingConcentration")
scalar_name Section.donor_concentration = some (codes "DonorConcentration")
scalar_name Section.acceptor_concentration = some (codes "AcceptorConcentration")
scalar_name _ = none

abbrev pub or_empty_list : {A : Type 0} → Option (List A) → List A
or_empty_list none = []
or_empty_list (some as') = as'

abbrev pub wrong_count : Section → Reason
wrong_count Section.electrostatic_potential = potential_count
wrong_count Section.electric_field = field_count
wrong_count _ = point_count

abbrev pub has_values : Section → Bool
has_values Section.electric_field = true
has_values section = is_some (scalar_name section)

-- `map[region][observable].emplace_back(point)`.
unfoldable pub emplace_point :
    {D : Type 0} → Str → Str → Dict (Dict (List (Point D))) → Point D → Dict (Dict (List (Point D)))
unfolding lookup insert
emplace_point region observable m p =
    let inner = or_empty_list (lookup region m) in
    insert region (insert observable (or_empty_list (lookup observable inner) ++ (p ∷ [])) inner) m

unfoldable pub emplace_points :
    {D : Type 0}
    → Str
    → Str
    → Dict (Dict (List (Point D)))
    → List (Point D)
    → Dict (Dict (List (Point D)))
unfolding emplace_point
emplace_points region observable m [] = m
emplace_points region observable m (p ∷ ps) =
    emplace_points region observable (emplace_point region observable m p) ps

-- The loops over the values of an electric field in three and in two dimensions, which read beyond the
-- end of the vector if the values do not come out even.
unfoldable pub vectors3 : {D : Type 0} → List D → Result (List (Point D))
vectors3 [] = ok []
vectors3 (x ∷ []) = err undefined_behaviour
vectors3 (x ∷ y ∷ []) = err undefined_behaviour
vectors3 (x ∷ y ∷ z ∷ rest) = vectors3 rest >>= λ ps. ok (point3 x y z ∷ ps)

unfoldable pub vectors2 : {D : Type 0} → D → List D → Result (List (Point D))
vectors2 nought [] = ok []
vectors2 nought (x ∷ []) = err undefined_behaviour
vectors2 nought (x ∷ y ∷ rest) = vectors2 nought rest >>= λ ps. ok (point3 nought x y ∷ ps)
