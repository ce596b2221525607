-- ===== src/Loader/Detectors.antt =====
-- The detectors of the geometry by their names.
use allpix_fork.Base.{
  ◌≡◌, refl, sym, ap, ◌∙◌, Bool, true, false, ◌||◌, List, [], ◌∷◌, ◌++◌, if◌then◌else◌, Str, codes,
  equal, equal_iff, Error, throw_if, ok, err, ◌>>◌, invalid_detector, arith, Bool-cases, inl, inr,
}
use allpix_fork.Loader.{
  Detector, GeometryManager, is_name, add_detector, has_detector, first_named, get_detector,
}

abbrev pub listed : Str → List Detector → Bool
listed n [] = false
listed n (d ∷ ds) = equal d.name n || listed n ds

-- `detector_names` holds the names of the detectors.
abbrev pub Named : GeometryManager → Type 0
Named g = (n : Str) → has_detector g n ≡ listed n g.detectors

listed-append :
    (n : Str) (ds : List Detector) (d : Detector)
    → listed n (ds ++ (d ∷ [])) ≡ (equal d.name n || listed n ds)
listed-append n [] d = refl
listed-append n (e ∷ ds) d = ground (arith, listed-append n ds d)

first-append :
    (n : Str) (ds : List Detector) (d : Detector)
    → first_named n (ds ++ (d ∷ [])) ≡ (
        if listed n ds
        then first_named n ds
        else if equal d.name n
        then ok d
        else err (invalid_detector n))
first-append n [] d = refl
first-append n (e ∷ ds) d = ground (arith, first-append n ds d)

first-missing :
    (n : Str) (ds : List Detector)
    → listed n ds ≡ false
    → first_named n ds ≡ err (invalid_detector n)
first-missing n [] h = refl
first-missing n (e ∷ ds) h = ground (arith, first-missing n ds)

three_checks :
    {A : Type 0} (a b c : Bool) (e f g : Error) (x y : A)
    → (throw_if a e >> throw_if b f >> throw_if c g >> ok x) ≡ ok y
    → (c ≡ false) × (y ≡ x)
three_checks true b c e f g x y h = cc
three_checks false true c e f g x y h = cc
three_checks false false true e f g x y h = cc
three_checks false false false e f g x y h = (refl, ground arith)

add_detector-added :
    (g h : GeometryManager) (d : Detector)
    → add_detector g d ≡ ok h
    → (has_detector g d.name ≡ false)
      × (h.detectors ≡ g.detectors ++ (d ∷ []))
      × (h.detector_names ≡ d.name ∷ g.detector_names)
unfolding add_detector has_detector
add_detector-added g h d a =
    let r =
      three_checks g.closed (equal d.name (codes "global")) (is_name d.name g.detector_names) _ _ _
        _ h a in
    (r.0, ap (λ x. x.detectors) r.1, ap (λ x. x.detector_names) r.1)

-- A detector that is added without an error is the one that is found under its name, which no detector
-- had before; what is found under every other name stays the same; and the set of names still holds the
-- names of the detectors.
pub get_detector-add_detector :
    (g h : GeometryManager) (d : Detector) (n : Str)
    → Named g
    → add_detector g d ≡ ok h
    → (get_detector g d.name ≡ err (invalid_detector d.name))
      × (get_detector h n ≡ (if equal d.name n then ok d else get_detector g n))
      × Named h
unfolding get_detector has_detector
get_detector-add_detector g h d n w a =
    let r = add_detector-added g h d a in
    (
      first-missing d.name g.detectors (sym (w d.name) ∙ r.0),
      ap (first_named n) r.1 ∙ first-append n g.detectors d ∙ found r.0,
      λ k.
          ap (is_name k) r.2
          ∙ ap (λ b. equal d.name k || b) (w k)
          ∙ sym (listed-append k g.detectors d)
          ∙ ap (listed k) (sym r.1),
    )
  where
    found :
        has_detector g d.name ≡ false
        → (if listed n g.detectors
            then first_named n g.detectors
            else if equal d.name n
            then ok d
            else err (invalid_detector n))
          ≡ (if equal d.name n then ok d else first_named n g.detectors)
    found f = elim (Bool-cases (equal d.name n)) [
      | inl e ↦
          let same : d.name ≡ n = (equal_iff d.name n).0 e in
          rw e (rw (ap (λ x. listed x g.detectors) (sym same) ∙ sym (w d.name) ∙ f) refl)
      | inr e ↦ elim (Bool-cases (listed n g.detectors)) [
        | inl l ↦ rw e (rw l refl)
        | inr l ↦ rw e (rw l (sym (first-missing n g.detectors l)))
      ]
    ]
