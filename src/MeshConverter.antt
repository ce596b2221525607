-- ===== src/MeshConverter.antt =====
-- tools/mesh_converter/parsers/DFISEParser.cpp: the reader of grids and fields in the DF-ISE text format.
--
-- A file is given as the lines that `getline` reads from it. The numbers that a line gives to
-- `sstr >> x` for a `double` come from a parameter. Logging is left out.
pub mod Numbers
pub mod Lines
pub mod Shapes
pub mod Grid
pub mod FieldPoints
pub mod Field
pub mod Silvaco
mod Tests
use allpix_fork.Base.{
  ℕ, Bool, true, false, if◌then◌else◌, Result, ok, err, runtime_error, block_nesting,
}

-- `DFSection`.
pub data Section : Type 0 where
  none ignored header info region coordinates vertices edges faces elements : Section
  donor_concentration doping_concentration acceptor_concentration : Section
  electric_field electrostatic_potential values : Section

abbrev pub is_none : Section → Bool
is_none none = true
is_none _ = false

-- Where a reader stands: `main_section`, `sub_section` and `in_data_block`.
pub record Nesting : Type 0 where
  pub main : Section
  pub sub : Section
  pub in_data : Bool

abbrev pub outside : Nesting
outside = record { main = header; sub = none; in_data = false }

abbrev pub enter : Section → Nesting → Nesting
enter section n = record n { main = section }

abbrev pub enter_sub : Section → Nesting → Nesting
enter_sub section n = record n { sub = section }

-- A section that the reader passes over.
unfoldable pub ignore : Nesting → Nesting
ignore n = if is_none n.main then record n { main = ignored } else record n { sub = ignored }

-- The end of a section.
unfoldable pub close : Nesting → Result Nesting
close n =
    if is_none n.sub
    then (if is_none n.main
        then (if n.in_data
            then ok (record n { in_data = false })
            else err (runtime_error block_nesting))
        else ok (record n { main = none }))
    else ok (record n { sub = none })
