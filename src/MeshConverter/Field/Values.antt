-- ===== src/MeshConverter/Field/Values.antt =====
-- tools/mesh_converter/parsers/DFISEParser.cpp: what becomes of the values of a field.
use allpix_fork.Base.{
  ℕ, zero, suc, ◌*◌, ◌/◌, ◌%◌, ◌≡◌, ◌≢◌, refl, ap, ◌∙◌, Bool, true, false, ◌&&◌, List, [], ◌∷◌,
  ◌++◌, append_assoc, append-nil, Str, equal, equal_iff, Dict, lookup, lookup-insert, length,
  if◌then◌else◌, ok, err, runtime_error, undefined_behaviour, field_count, arith, Bool-cases, inl,
  inr,
}
use allpix_fork.MeshConverter.{Section}
use allpix_fork.MeshConverter.Shapes.{Point, point2, point3}
use allpix_fork.MeshConverter.Field.{Field, field_points, close_values, store}
use allpix_fork.MeshConverter.FieldPoints.{
  is_values, has_values, or_empty_list, emplace_point, emplace_points, vectors3,
}

module _ {D : Type 0} where
  -- The coordinates of points, one after the other.
  abbrev pub coordinates : List (Point D) → List D
  coordinates [] = []
  coordinates (point3 x y z ∷ ps) = x ∷ y ∷ z ∷ coordinates ps
  coordinates (point2 y z ∷ ps) = y ∷ z ∷ coordinates ps

  vectors3-ok :
      (k : ℕ) (xs : List D)
      → length xs ≡ 3 * k
      → (ps : List (Point D)) × (vectors3 xs ≡ ok ps) × (coordinates ps ≡ xs)
  unfolding vectors3
  vectors3-ok k [] e = ([], refl, refl)
  vectors3-ok k (x ∷ []) e = absurd (omega arith)
  vectors3-ok k (x ∷ y ∷ []) e = absurd (omega arith)
  vectors3-ok zero (x ∷ y ∷ z ∷ rest) e = absurd (omega arith)
  vectors3-ok (suc k) (x ∷ y ∷ z ∷ rest) e =
      let (ps, read, same) = vectors3-ok k rest (omega arith) in
      (point3 x y z ∷ ps, rw read refl, ap (λ (r : List D). x ∷ y ∷ z ∷ r) same)

  vectors3-uneven : (xs : List D) → length xs % 3 ≢ 0 → vectors3 xs ≡ err undefined_behaviour
  unfolding vectors3
  vectors3-uneven [] n = absurd (n refl)
  vectors3-uneven (x ∷ []) n = refl
  vectors3-uneven (x ∷ y ∷ []) n = refl
  vectors3-uneven (x ∷ y ∷ z ∷ rest) n = rw (vectors3-uneven rest (λ e. n (omega arith))) refl

  -- The values of an electric field in three dimensions, at the end of their section. If they are as
  -- many as announced and come out even, they are stored as vectors that hold them in their order; if
  -- they are another number, the reader stops; and if they are as many as announced but no multiple of
  -- three, the reader reads beyond their end.
  pub close_values-electric :
      (nought : D) (f : Field D)
      → is_values f.nesting.sub ≡ true
      → f.dimension ≡ 3
      → (f.data_count ≡ length f.values
          → length f.values % 3 ≡ 0
          → (ps : List (Point D)) × (close_values nought Section.electric_field f ≡ ok (store f ps))
            × (coordinates ps ≡ f.values))
        × (f.data_count ≢ length f.values
            → close_values nought Section.electric_field f ≡ err (runtime_error field_count))
        × (f.data_count ≡ length f.values
            → length f.values % 3 ≢ 0
            → close_values nought Section.electric_field f ≡ err undefined_behaviour)
  unfolding close_values field_points
  close_values-electric nought f inside three = (
    λ announced even.
        let count : length f.values ≡ 3 * (length f.values / 3) = omega arith in
        let (ps, read, same) = vectors3-ok (length f.values / 3) f.values count in
        (ps, ground arith, same),
    λ other. ground arith,
    λ announced uneven. ground (arith, vectors3-uneven f.values uneven),
  )

-- The points stored for a region and an observable.
abbrev pub stored : {D : Type 0} → Str → Str → Dict (Dict (List (Point D))) → List (Point D)
stored region observable m = or_empty_list (lookup observable (or_empty_list (lookup region m)))

chain :
    {A : Type 0} (b : Bool) (p : A) (ps y : List A) {a x : List A}
    → x ≡ (if b then y ++ (p ∷ []) else y)
    → a ≡ (if b then x ++ ps else x)
    → a ≡ (if b then y ++ (p ∷ ps) else y)
chain true p ps y one more = more ∙ ap (λ (l : List _). l ++ ps) one ∙ append_assoc y (p ∷ []) ps
chain false p ps y one more = more ∙ one

module _ {D : Type 0} where
  stored-emplace_point :
      (region observable r o : Str) (m : Dict (Dict (List (Point D)))) (p : Point D)
      → stored r o (emplace_point region observable m p)
        ≡ (if equal region r && equal observable o then stored r o m ++ (p ∷ []) else stored r o m)
  unfolding emplace_point
  stored-emplace_point region observable r o m p =
      rw (lookup-insert) (elim (Bool-cases (equal region r)) [
        | inl same ↦
            let e : region ≡ r = (equal_iff region r).0 same in
            rw (same, lookup-insert, e)
              (elim (Bool-cases (equal observable o)) [
                | inl alike ↦ rw (alike, (equal_iff observable o).0 alike) refl
                | inr other ↦ rw other refl
              ])
        | inr other ↦ rw other refl
      ])

  pub stored-emplace_points :
      (region observable r o : Str) (m : Dict (Dict (List (Point D)))) (ps : List (Point D))
      → stored r o (emplace_points region observable m ps)
        ≡ (if equal region r && equal observable o then stored r o m ++ ps else stored r o m)
  unfolding emplace_points
  stored-emplace_points region observable r o m [] =
      elim (Bool-cases (equal region r && equal observable o)) [
        | inl same ↦ rw (same, append-nil) refl
        | inr other ↦ rw other refl
      ]
  stored-emplace_points region observable r o m (p ∷ ps) =
      chain (equal region r && equal observable o) p ps (stored r o m)
        (stored-emplace_point region observable r o m p)
        (stored-emplace_points region observable r o (emplace_point region observable m p) ps)

  -- At the end of the values of a field of any kind, if the values are as many as announced and make
  -- points, these points are added, in their order, behind those of the region and the observable that
  -- the section has named, no other region or observable changes, and no value is left for the next
  -- section.
  pub close_values-stored :
      (nought : D) (section : Section) (f : Field D) (ps : List (Point D))
      → has_values section ≡ true
      → is_values f.nesting.sub ≡ true
      → f.data_count ≡ length f.values
      → field_points nought section f ≡ ok ps
      → (g : Field D) × (close_values nought section f ≡ ok g)
        × ((r o : Str)
            → stored r o g.fields ≡ (
                if equal f.region r && equal f.observable o
                then stored r o f.fields ++ ps
                else stored r o f.fields))
        × (g.values ≡ [])
  unfolding close_values
  close_values-stored nought section f ps kind inside announced points = (
    store f ps,
    ground arith,
    λ r o. stored-emplace_points f.region f.observable r o f.fields ps,
    refl,
  )
