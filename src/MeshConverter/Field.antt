-- ===== src/MeshConverter/Field.antt =====
-- tools/mesh_converter/parsers/DFISEParser.cpp: `read_fields`, which reads the values of fields and returns
-- them by region and observable.
pub mod Values
use allpix_fork.Base.{
  ℕ, zero, suc, ◌+◌, ◌-◌, Bool, true, false, not, ◌&&◌, ◌||◌, Option, none, some, List, [], ◌∷◌,
  ◌++◌, Str, codes, equal, elem, Dict, lookup, insert, length, map, ◌==◌, if◌then◌else◌, Result, ok,
  err, runtime_error, Reason, is_some, undefined_behaviour, potential_count, field_count,
  point_count, throw_if, ◌>>=◌, ◌>>◌, substr,
}
use allpix_fork.Text.{trim}
use allpix_fork.MeshConverter.{Section, Nesting, outside, enter, enter_sub, ignore, close}
use allpix_fork.MeshConverter.Numbers.{stoul}
use allpix_fork.MeshConverter.Lines.{
  is_empty, simple_header, data_header, key_value, validity_region,
}
use allpix_fork.MeshConverter.Shapes.{Point, point3}
use allpix_fork.MeshConverter.FieldPoints.{
  dataset_section, is_values, scalar_name, wrong_count, has_values, emplace_points, vectors3,
  vectors2,
}

-- The variables of `read_fields`.
pub record Field (D : Type 0) : Type 0 where
  pub nesting : Nesting
  pub fields : Dict (Dict (List (Point D)))
  pub values : List D
  pub region : Str
  pub observable : Str
  pub dimension : ℕ
  pub data_count : ℕ

abbrev pub empty_field : {D : Type 0} → Field D
empty_field = record {
  nesting = outside;
  fields = [];
  values = [];
  region = [];
  observable = [];
  dimension = 1;
  data_count = 0;
}

module _ {D : Type 0} where
  abbrev nest : Field D → Nesting → Field D
  nest f n = record f { nesting = n }

  abbrev skip_section : Field D → Field D
  skip_section f = nest f (enter Section.ignored f.nesting)

  -- A header without data, as in the grid.
  unfoldable pub open_simple : Field D → Str → Field D
  unfolding ignore equal
  open_simple f name =
      if equal name (codes "Info")
      then nest f (enter Section.info f.nesting)
      else if equal name (codes "Data")
      then nest f (record f.nesting { in_data = true })
      else nest f (ignore f.nesting)

  unfoldable pub open_data : Field D → Str × Str → Result (Field D)
  unfolding ignore stoul equal substr dataset_section
  open_data f (name, text) =
      if equal name (codes "Dataset")
      then ok (nest f (enter (dataset_section (substr 1 (length text - 2) text)) f.nesting))
      else if equal name (codes "Values")
      then (stoul text >>= λ k.
          ok (record f { nesting = enter_sub Section.values f.nesting; data_count = k }))
      else ok (nest f (ignore f.nesting))

  -- The first two tests of a key: the region, and the place of the values.
  abbrev set_region : Field D → Option Str → Field D
  set_region f none = skip_section f
  set_region f (some name) = record f { region = name }

  unfoldable pub read_place : Field D → Str → Str → Field D
  unfolding equal validity_region
  read_place f key value =
      let g = if equal key (codes "validity") then set_region f (validity_region value) else f in
      if equal key (codes "location") && not (equal value (codes "vertex"))
      then skip_section g
      else g

  -- The tests of a section that holds a field: its type, and its dimension.
  abbrev check_dimension : Field D → Str → Str → (ℕ → Bool) → Result (Field D)
  check_dimension f key value allowed =
      if equal key (codes "dimension")
      then (stoul value >>= λ n.
          ok (if allowed n then record f { dimension = n } else skip_section f))
      else ok f

  unfoldable pub read_kind : Field D → Str → Str → Str → Str → (ℕ → Bool) → Result (Field D)
  unfolding equal stoul
  read_kind f observable kind key value allowed =
      let g = record f { observable = observable } in
      check_dimension
        (if equal key (codes "type") && not (equal value kind) then skip_section g else g) key value
        allowed

  abbrev read_scalar : Field D → Str → Str → Option Str → Result (Field D)
  read_scalar f key value none = ok f
  read_scalar f key value (some observable) =
      read_kind f observable (codes "scalar") key value (λ n. n == 1)

  unfoldable pub read_section : Section → Field D → Str → Str → Result (Field D)
  unfolding read_kind
  read_section Section.electric_field f key value =
      read_kind f (codes "ElectricField") (codes "vector") key value (λ n. n == 3 || n == 2)
  read_section section f key value = read_scalar f key value (scalar_name section)

  unfoldable pub read_key : Field D → Option (Str × Str) → Result (Field D)
  unfolding read_place read_section trim
  read_key f none = ok f
  read_key f (some (key, text)) =
      let value = trim text in
      let g = read_place f key value in read_section g.nesting.main g key value

  abbrev pub store : Field D → List (Point D) → Field D
  store f ps = record f { fields = emplace_points f.region f.observable f.fields ps; values = [] }

  -- The points of the values, by the section and the dimension.
  unfoldable pub field_points : D → Section → Field D → Result (List (Point D))
  unfolding vectors3 vectors2
  field_points nought Section.electric_field f =
      if f.dimension == 3
      then vectors3 f.values
      else if f.dimension == 2
      then vectors2 nought f.values
      else ok []
  field_points nought _ f = ok (map (λ x. point3 x nought nought) f.values)

  -- The end of the values of a field.
  unfoldable pub close_values : D → Section → Field D → Result (Field D)
  unfolding field_points emplace_points
  close_values nought section f =
      if has_values section && is_values f.nesting.sub
      then (throw_if (not (f.data_count == length f.values)) (runtime_error (wrong_count section))
          >> (field_points nought section f >>= λ ps. ok (store f ps)))
      else ok f

  unfoldable pub close_section : D → Field D → Result (Field D)
  unfolding close_values close
  close_section nought f =
      close_values nought f.nesting.main f >>= λ g. close g.nesting >>= λ n. ok (nest g n)

  unfoldable pub read_data : (Str → List D) → Field D → Str → Field D
  read_data doubles f line =
      if has_values f.nesting.main && is_values f.nesting.sub
      then record f { values = f.values ++ doubles line }
      else f

  abbrev open_with : Field D → Option Str → Option (Str × Str) → Result (Field D)
  open_with f (some name) data_part = ok (open_simple f name)
  open_with f none (some (name, text)) = open_data f (name, text)
  open_with f none none = ok f

  unfoldable pub read_trimmed : (Str → List D) → D → Field D → Str → Result (Field D)
  unfolding open_simple open_data close_section read_key read_data simple_header data_header
      key_value elem
  read_trimmed doubles nought f line =
      if elem b'{' line
      then open_with f (simple_header line) (data_header line)
      else if elem b'=' line
      then read_key f (key_value line)
      else if elem b'}' line
      then close_section nought f
      else ok (read_data doubles f line)

  unfoldable pub read_line : (Str → List D) → D → Field D → Str → Result (Field D)
  unfolding read_trimmed trim
  read_line doubles nought f line =
      let text = trim line in if is_empty text then ok f else read_trimmed doubles nought f text

  unfoldable pub read_lines : (Str → List D) → D → Field D → List Str → Result (Field D)
  unfolding read_line
  read_lines doubles nought f [] = ok f
  read_lines doubles nought f (line ∷ rest) =
      read_line doubles nought f line >>= λ g. read_lines doubles nought g rest

  -- `read_fields` on the lines of the file.
  unfoldable pub read_fields : (Str → List D) → D → List Str → Result (Dict (Dict (List (Point D))))
  unfolding read_lines
  read_fields doubles nought lines =
      read_lines doubles nought empty_field lines >>= λ f. ok f.fields
