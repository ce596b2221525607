-- ===== src/MeshConverter/Grid/Headers.antt =====
-- tools/mesh_converter/parsers/DFISEParser.cpp: the lines of `read_meshes` that are no data keep what is said
-- of the vertices, edges, faces, elements and regions.
use allpix_fork.Base.{
  ℕ, ◌≡◌, Bool, true, false, not, ◌&&◌, ◌||◌, Option, none, some, Str, codes, equal, elem, ◌==◌,
  if◌then◌else◌, Result, ok, err, ◌>>=◌, ◌>>◌, Bool-cases, inl, inr, refl, List,
}
use allpix_fork.Text.{trim}
use allpix_fork.MeshConverter.{Nesting, close}
use allpix_fork.MeshConverter.Numbers.{stoul}
use allpix_fork.MeshConverter.Lines.{is_empty, simple_header, data_header, key_value}
use allpix_fork.MeshConverter.Shapes.Below.{Ensures, Ensures_bind, any}
use allpix_fork.MeshConverter.Grid.{
  Grid, open_simple, open_data, check_count, close_section, read_key, read_data, read_trimmed,
  read_line, open_with, nest, is_info, set_dimension, counted,
}

-- A line of data: it is no header, no end of a section and no key with a value.
abbrev pub is_data : Str → Bool
is_data text =
    not (is_empty text) && (not (elem b'{' text) && (not (elem b'}' text) && not (elem b'=' text)))

-- A property that does not look at the section, the region, the dimension and the number of items.
module _ {D : Type 0} (P : Grid D → Type 0)
    (free : (g : Grid D) (n : Nesting) (region : Str) (dimension data_count : ℕ)
      → P g
      → P (record g {
        nesting = n;
        region = region;
        dimension = dimension;
        data_count = data_count;
      })) where
  open_simple-Ensures : (g : Grid D) (name : Str) → P g → P (open_simple g name)
  unfolding open_simple
  open_simple-Ensures g name h = elim (Bool-cases (equal name (codes "Info"))) [
    | inl first ↦ rw first (free g _ _ _ _ h)
    | inr other ↦ elim (Bool-cases (equal name (codes "Data"))) [
      | inl second ↦ rw (other, second) (free g _ _ _ _ h)
      | inr neither ↦ rw (other, neither) (free g _ _ _ _ h)
    ]
  ]

  counted-Ensures : (g : Grid D) (n : Nesting) (text : Str) → P g → Ensures P (counted g n text)
  counted-Ensures g n text h =
      Ensures_bind (λ _. Unit {0}) P (stoul text)
        (λ k. ok (record g { nesting = n; data_count = k })) (any (stoul text))
        (λ k _. free g _ _ _ _ h)

  branch :
      (test : Bool) (m k : Result (Grid D))
      → Ensures P m
      → Ensures P k
      → Ensures P (if test then m else k)
  branch true m k h l = h
  branch false m k h l = l

  open_data-Ensures : (g : Grid D) (part : Str × Str) → P g → Ensures P (open_data g part)
  unfolding open_data
  open_data-Ensures g (name, text) h = branch (equal name (codes "Region")) _ _ (free g _ _ _ _ h) (
      branch (equal name (codes "Vertices")) _ _ (counted-Ensures g _ text h) (
        branch (equal name (codes "Edges")) _ _ (counted-Ensures g _ text h) (
          branch (equal name (codes "Faces")) _ _ (counted-Ensures g _ text h) (
            branch (equal name (codes "Elements")) _ _ (counted-Ensures g _ text h)
              (free g _ _ _ _ h)))))

  close_section-Ensures : (g : Grid D) → P g → Ensures P (close_section g)
  unfolding close_section
  close_section-Ensures g h = then_close (check_count g.nesting.main g)
    where
      then_close :
          (m : Result (Unit {0})) → Ensures P (m >> (close g.nesting >>= λ n. ok (nest g n)))
      then_close (err e) = tt
      then_close (ok _) =
          Ensures_bind (λ _. Unit {0}) P (close g.nesting) (λ n. ok (nest g n))
            (any (close g.nesting)) (λ n _. free g _ _ _ _ h)

  set_dimension-Ensures : (g : Grid D) (n : ℕ) → P g → P (set_dimension g n)
  set_dimension-Ensures g n h = elim (Bool-cases (n == 3 || n == 2)) [
    | inl allowed ↦ rw allowed (free g _ _ _ _ h)
    | inr other ↦ rw other (free g _ _ _ _ h)
  ]

  read_key-Ensures : (g : Grid D) (part : Option (Str × Str)) → P g → Ensures P (read_key g part)
  unfolding read_key
  read_key-Ensures g none h = h
  read_key-Ensures g (some (key, value)) h =
      branch (is_info g.nesting.main && equal key (codes "dimension")) _ _
        (Ensures_bind (λ _. Unit {0}) P (stoul (trim value)) (λ n. ok (set_dimension g n))
          (any (stoul (trim value))) (λ n _. set_dimension-Ensures g n h))
        h

  open_with-Ensures :
      (g : Grid D) (simple : Option Str) (part : Option (Str × Str))
      → P g
      → Ensures P (open_with g simple part)
  open_with-Ensures g (some name) part h = open_simple-Ensures g name h
  open_with-Ensures g none (some (name, text)) h = open_data-Ensures g (name, text) h
  open_with-Ensures g none none h = h

  by_test :
      (test : Bool) (m k : Result (Grid D))
      → Ensures P m
      → (test ≡ false → Ensures P k)
      → Ensures P (if test then m else k)
  by_test true m k h l = h
  by_test false m k h l = l refl

  pub read_line-Ensures :
      (doubles : Str → List D) (g : Grid D) (line : Str)
      → P g
      → (is_data (trim line) ≡ true → Ensures P (read_data doubles g.nesting.main g (trim line)))
      → Ensures P (read_line doubles g line)
  unfolding read_line read_trimmed
  read_line-Ensures doubles g line h item =
      let text = trim line in
      by_test (is_empty text) _ _ h (λ a.
        by_test (elem b'{' text) _ _ (open_with-Ensures g (simple_header text) (data_header text) h)
          (λ b. by_test (elem b'}' text) _ _ (close_section-Ensures g h) (λ c.
            by_test (elem b'=' text) _ _ (read_key-Ensures g (key_value text) h)
              (λ d. item (rw (a, b, c, d) refl)))))
