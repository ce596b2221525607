-- ===== src/MeshConverter/Silvaco/Both.antt =====
-- tools/mesh_converter/parsers/SilvacoParser.cpp: the grid and the field that one table gives.
use allpix_fork.Base.{
  ℕ, ◌%◌, ◌≡◌, refl, ap, ◌∙◌, Bool, true, false, ◌&&◌, List, [], ◌∷◌, ◌++◌, append_assoc, Str,
  equal, Dict, length, if◌then◌else◌, ok, arith, Bool-cases, inl, inr,
}
use allpix_fork.Text.{trim}
use allpix_fork.MeshConverter.Lines.{is_empty}
use allpix_fork.MeshConverter.Shapes.{Point, points3}
use allpix_fork.MeshConverter.FieldPoints.{emplace_points, vectors3}
use allpix_fork.MeshConverter.Field.Values.{stored, stored-emplace_points}
use allpix_fork.MeshConverter.Silvaco.{
  silicon, line_points, mesh_lines, read_meshes, line_values, field_lines, read_fields,
}

vectors3-points3 : {D : Type 0} (xs : List D) → length xs % 3 ≡ 0 → vectors3 xs ≡ ok (points3 xs)
unfolding vectors3 points3
vectors3-points3 [] e = refl
vectors3-points3 (x ∷ []) e = absurd (omega arith)
vectors3-points3 (x ∷ y ∷ []) e = absurd (omega arith)
vectors3-points3 (x ∷ y ∷ z ∷ rest) e = rw (vectors3-points3 rest (omega arith)) refl

appended :
    {A : Type 0} (b : Bool) (ps qs w : List A) {x y : List A}
    → x ≡ (if b then y ++ qs else y)
    → y ≡ (if b then w ++ ps else w)
    → x ≡ (if b then w ++ (ps ++ qs) else w)
appended true ps qs w f g = f ∙ ap (λ (l : List _). l ++ qs) g ∙ append_assoc w ps qs
appended false ps qs w f g = f ∙ g

module _ {D : Type 0} where
  -- `n` has some more points of one observable than `m`.
  abbrev pub Adds :
      Str → Dict (Dict (List (Point D))) → Dict (Dict (List (Point D))) → List (Point D) → Type 0
  Adds observable m n ps =
      (r o : Str)
      → stored r o n
        ≡ (if equal silicon r && equal observable o then stored r o m ++ ps else stored r o m)

  Adds-append :
      (observable : Str) (m n k : Dict (Dict (List (Point D)))) (ps qs : List (Point D))
      → Adds observable m n ps
      → Adds observable n k qs
      → Adds observable m k (ps ++ qs)
  Adds-append observable m n k ps qs f g r o =
      appended (equal silicon r && equal observable o) ps qs (stored r o m) (g r o) (f r o)

module _ {D : Type 0} (doubles : Str → List D) where
  -- Every line holds some number of triples.
  abbrev pub AreTriples : List Str → Type 0
  AreTriples [] = Unit {0}
  AreTriples (line ∷ rest) = (length (doubles (trim line)) % 3 ≡ 0) × AreTriples rest

  Read : D → Str → Bool → ℕ → Dict (Dict (List (Point D))) → List Str → Type 0
  Read nought observable is_first dimension m lines =
      (n : Dict (Dict (List (Point D)))) × (field_lines doubles nought observable is_first dimension
          m lines
        ≡ ok n)
      × Adds observable m n (mesh_lines doubles is_first dimension lines)

  lines-Read :
      (nought : D) (observable : Str) (m : Dict (Dict (List (Point D)))) (lines : List Str)
      → AreTriples lines
      → Read nought observable false 3 m lines
  unfolding Read field_lines mesh_lines line_values line_points emplace_points
  lines-Read nought observable m [] t =
      (m, refl, λ r o. stored-emplace_points silicon observable r o m [])
  lines-Read nought observable m (line ∷ rest) (even, t) =
      elim (Bool-cases (is_empty (trim line))) [
        | inl blank ↦ rw blank (lines-Read nought observable m rest t)
        | inr full ↦
            let ps = points3 (doubles (trim line)) in
            let (n, e, adds) =
              lines-Read nought observable (emplace_points silicon observable m ps) rest t in
            rw (full, vectors3-points3 (doubles (trim line)) even)
              (
                n,
                e,
                Adds-append observable m (emplace_points silicon observable m ps) n ps
                    (mesh_lines doubles false 3 rest)
                    (λ r o. stored-emplace_points silicon observable r o m ps) adds,
              )
      ]

  -- A table whose first line has three columns, and whose other lines hold triples, gives the same points
  -- as a grid and as a field: the reader of grids has them as the points of silicon, and the reader of
  -- fields has them under silicon and the observable, and nothing else.
  pub read_fields-read_meshes :
      (nought : D) (observable first : Str) (rest : List Str)
      → is_empty (trim first) ≡ false
      → length (doubles (trim first)) ≡ 3
      → AreTriples rest
      → (ps : List (Point D)) × (n : Dict (Dict (List (Point D)))) × (read_meshes doubles
            (first ∷ rest)
          ≡ (silicon, ps) ∷ [])
        × (read_fields doubles nought observable (first ∷ rest) ≡ ok n)
        × ((r o : Str) → stored r o n ≡ (if equal silicon r && equal observable o then ps else []))
  unfolding read_fields read_meshes Read field_lines mesh_lines line_values line_points
  read_fields-read_meshes nought observable first rest full three t =
      let ps = points3 (doubles (trim first)) in
      let m : Dict (Dict (List (Point D))) = emplace_points silicon observable [] ps in
      let (n, e, adds) = lines-Read nought observable m rest t in
      (
        ps ++ mesh_lines doubles false 3 rest,
        n,
        rw (full, three) refl,
        rw (full, three, vectors3-points3 (doubles (trim first)) (ap (λ k. k % 3) three)) e,
        λ r o.
            Adds-append observable [] m n ps (mesh_lines doubles false 3 rest)
              (λ r o. stored-emplace_points silicon observable r o [] ps) adds r o,
      )
