-- ===== src/Geometry/Distance.antt =====
-- src/core/geometry/HexagonalPixelDetectorModel.cpp: `hex_distance` is a distance on axial coordinates.
use allpix_fork.Base.{ℕ, ◌+◌, ◌*◌, ◌/◌, ◌≤◌, ◌≡◌, ◌↔◌, ◌∙◌, sym, refl, arith}
use allpix_fork.Base.Int.{ℤ, pos, ◌+ℤ◌, ◌-ℤ◌, int_laws}
use allpix_fork.Geometry.{Index, magnitude}
use allpix_fork.Geometry.Hexagonal.{hex_distance}

-- The length of a step in axial coordinates.
pub hex_length : ℤ → ℤ → ℕ
hex_length a b = (magnitude a + magnitude b + magnitude (a +ℤ b)) / 2

magnitude-add : (a b : ℤ) → magnitude (a +ℤ b) ≤ magnitude a + magnitude b
unfolding ◌+ℤ◌
magnitude-add a b = ground arith

pub magnitude-sub : (a b : ℤ) → magnitude (b -ℤ a) ≡ magnitude (a -ℤ b)
unfolding ◌-ℤ◌
magnitude-sub a b = ground arith

pub magnitude_zero : (a b : ℤ) → magnitude (a -ℤ b) ≡ 0 → a ≡ b
unfolding ◌-ℤ◌
magnitude_zero a b h = ground arith

magnitude-negate : (a : ℤ) → magnitude (pos 0 -ℤ a) ≡ magnitude a
unfolding ◌-ℤ◌
magnitude-negate a = ground arith

-- The three parts have an even sum, so the division loses nothing.
hex_length-double : (a b : ℤ) → 2 * hex_length a b ≡ magnitude a + magnitude b + magnitude (a +ℤ b)
unfolding hex_length ◌+ℤ◌
hex_length-double a b = ground arith

pub hex_distance-length : (p q : Index) → hex_distance p q ≡ hex_length (p.x -ℤ q.x) (p.y -ℤ q.y)
unfolding hex_distance hex_length
hex_distance-length p q =
    let third : pos 0 -ℤ p.x -ℤ p.y +ℤ q.x +ℤ q.y ≡ pos 0 -ℤ (p.x -ℤ q.x +ℤ (p.y -ℤ q.y)) =
      omega int_laws in
    rw (third, magnitude-negate) refl

magnitude-le-add : (a b : ℤ) → magnitude a ≤ magnitude (a +ℤ b) + magnitude b
unfolding ◌+ℤ◌
magnitude-le-add a b = ground arith

magnitude-le-add_right : (a b : ℤ) → magnitude b ≤ magnitude (a +ℤ b) + magnitude a
unfolding ◌+ℤ◌
magnitude-le-add_right a b = ground arith

pub hex_length-bounds : (a b : ℤ) → (magnitude a ≤ hex_length a b) × (magnitude b ≤ hex_length a b)
hex_length-bounds a b = (
  omega (arith, hex_length-double a b, magnitude-le-add a b),
  omega (arith, hex_length-double a b, magnitude-le-add_right a b),
)

hex_length-sub : (a b c d : ℤ) → hex_length (b -ℤ a) (d -ℤ c) ≡ hex_length (a -ℤ b) (c -ℤ d)
unfolding hex_length
hex_length-sub a b c d =
    let back : b -ℤ a +ℤ (d -ℤ c) ≡ pos 0 -ℤ (a -ℤ b +ℤ (c -ℤ d)) = omega int_laws in
    rw (magnitude-sub a b, magnitude-sub c d, back, magnitude-negate) refl

hex_length-add : (a b c d : ℤ) → hex_length (a +ℤ c) (b +ℤ d) ≤ hex_length a b + hex_length c d
hex_length-add a b c d =
    let regrouped : a +ℤ c +ℤ (b +ℤ d) ≡ a +ℤ b +ℤ (c +ℤ d) = omega int_laws in
    let third : magnitude (a +ℤ c +ℤ (b +ℤ d)) ≤ magnitude (a +ℤ b) + magnitude (c +ℤ d) =
      rw regrouped (magnitude-add (a +ℤ b) (c +ℤ d)) in
    omega (
      arith,
      hex_length-double a b,
      hex_length-double c d,
      hex_length-double (a +ℤ c) (b +ℤ d),
      magnitude-add a c,
      magnitude-add b d,
    )

sub_self : (a : ℤ) → a -ℤ a ≡ pos 0
sub_self a = omega int_laws

pub hex_distance_sym : (p q : Index) → hex_distance q p ≡ hex_distance p q
hex_distance_sym p q =
    rw (hex_distance-length q p, hex_distance-length p q) (hex_length-sub p.x q.x p.y q.y)

hex_length_zero : hex_length (pos 0) (pos 0) ≡ 0
unfolding hex_length ◌+ℤ◌
hex_length_zero = refl

hex_distance_self : (p : Index) → hex_distance p p ≡ 0
hex_distance_self p = rw (hex_distance-length p p, sub_self p.x, sub_self p.y) hex_length_zero

hex_distance_zero : (p q : Index) → hex_distance p q ≡ 0 → p ≡ q
hex_distance_zero p q h =
    let close : hex_length (p.x -ℤ q.x) (p.y -ℤ q.y) ≡ 0 = sym (hex_distance-length p q) ∙ h in
    let bounds = hex_length-bounds (p.x -ℤ q.x) (p.y -ℤ q.y) in
    let column : p.x ≡ q.x = magnitude_zero p.x q.x (omega arith) in
    let row : p.y ≡ q.y = magnitude_zero p.y q.y (omega arith) in cc

hex_distance_triangle : (p q r : Index) → hex_distance p r ≤ hex_distance p q + hex_distance q r
hex_distance_triangle p q r =
    let columns : p.x -ℤ r.x ≡ p.x -ℤ q.x +ℤ (q.x -ℤ r.x) = omega int_laws in
    let rows : p.y -ℤ r.y ≡ p.y -ℤ q.y +ℤ (q.y -ℤ r.y) = omega int_laws in
    rw (hex_distance-length p r, hex_distance-length p q, hex_distance-length q r, columns, rows)
      (hex_length-add (p.x -ℤ q.x) (p.y -ℤ q.y) (q.x -ℤ r.x) (q.y -ℤ r.y))

-- The hexagonal distance is a metric: it is zero exactly between equal indices, it is symmetric, and
-- a detour over a third index is never shorter.
pub hex_distance-metric :
    (p q r : Index)
    → ((hex_distance p q ≡ 0) ↔ (p ≡ q))
      × (hex_distance q p ≡ hex_distance p q)
      × (hex_distance p r ≤ hex_distance p q + hex_distance q r)
hex_distance-metric p q r = (
  (hex_distance_zero p q, λ e. rw (← e) (hex_distance_self p)),
  hex_distance_sym p q,
  hex_distance_triangle p q r,
)
