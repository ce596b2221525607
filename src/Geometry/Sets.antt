-- ===== src/Geometry/Sets.antt =====
-- src/core/geometry/*DetectorModel.cpp: what the two loops of `getNeighbors` collect in their set.
use allpix_fork.Base.{
  ℕ, zero, suc, ◌^◌, ◌<◌, ◌≡◌, refl, sym, ◌∙◌, Bool, true, false, ◌&&◌, ◌||◌, List, [], ◌∷◌, arith,
  leb, if◌then◌else◌, ◌↔◌, inl, inr, Bool-cases,
}
use allpix_fork.Base.Int.{ℤ, pos, ◌+ℤ◌, ◌-ℤ◌, ltb_ℤ}
use allpix_fork.Geometry.{
  Index, eqb_ℤ, leb_ℤ, less, rounds, magnitude, to_int, insert, scan_column, scan_columns,
  scan_square,
}

pub and_parts : (a b : Bool) → (a && b) ≡ true → (a ≡ true) × (b ≡ true)
and_parts a b h = (ground arith, ground arith)

-- The branch of a conditional that is taken.
taken : (b u v : Bool) → b ≡ true → (if b then u else v) ≡ false → u ≡ false
taken b u v e h = ground arith

passed : (b u v : Bool) → b ≡ false → (if b then u else v) ≡ false → v ≡ false
passed b u v e h = ground arith

eqb_ℤ_sym : (a b : ℤ) → eqb_ℤ b a ≡ eqb_ℤ a b
eqb_ℤ_sym a b = ground arith

pub eqb_ℤ_iff : (a b : ℤ) → (eqb_ℤ a b ≡ true) ↔ (a ≡ b)
eqb_ℤ_iff a b = (λ h. ground arith, λ h. ground arith)

unfoldable pub eqb_index : Index → Index → Bool
eqb_index p q = eqb_ℤ p.x q.x && eqb_ℤ p.y q.y

pub eqb_index_eq : (p q : Index) → eqb_index p q ≡ true → p ≡ q
unfolding eqb_index
eqb_index_eq p q h =
    let both : (eqb_ℤ p.x q.x ≡ true) × (eqb_ℤ p.y q.y ≡ true) = and_parts _ _ h in
    cc ((eqb_ℤ_iff p.x q.x).0 both.0, (eqb_ℤ_iff p.y q.y).0 both.1)

pub eqb_index_refl : (p : Index) → eqb_index p p ≡ true
unfolding eqb_index
eqb_index_refl p = ground (arith, (eqb_ℤ_iff p.x p.x).1 refl, (eqb_ℤ_iff p.y p.y).1 refl)

ltb_ℤ_total : (a b : ℤ) → ltb_ℤ a b ≡ false → ltb_ℤ b a ≡ false → a ≡ b
ltb_ℤ_total a b h k = ground arith

same_column : (p q : Index) → p.x ≡ q.x → less p q ≡ false → less q p ≡ false → p ≡ q
unfolding less
same_column p q e h k =
    let rows =
      ltb_ℤ_total p.y q.y (taken _ _ _ ((eqb_ℤ_iff p.x q.x).1 e) h)
        (taken _ _ _ ((eqb_ℤ_iff q.x p.x).1 (sym e)) k) in
    cc

other_column : (p q : Index) → eqb_ℤ p.x q.x ≡ false → less p q ≡ false → less q p ≡ false → p ≡ q
unfolding less
other_column p q e h k =
    let other_way : eqb_ℤ q.x p.x ≡ false = eqb_ℤ_sym p.x q.x ∙ e in
    let columns = ltb_ℤ_total p.x q.x (passed _ _ _ e h) (passed _ _ _ other_way k) in
    cc ((eqb_ℤ_iff p.x q.x).1 columns)

-- Two indices of which neither comes first are equal, which is what `std::set` asks of the order.
less_total : (p q : Index) → less p q ≡ false → less q p ≡ false → p ≡ q
unfolding less
less_total p q h k = elim (Bool-cases (eqb_ℤ p.x q.x)) [
  | inl same ↦ same_column p q ((eqb_ℤ_iff p.x q.x).0 same) h k
  | inr other ↦ other_column p q other h k
]

abbrev pub contains : Index → List Index → Bool
contains p [] = false
contains p (q ∷ qs) = eqb_index p q || contains p qs

pub contains-insert :
    (p q : Index) (found : List Index)
    → contains p (insert q found) ≡ (eqb_index p q || contains p found)
unfolding insert
contains-insert p q [] = refl
contains-insert p q (r ∷ found) = elim (Bool-cases (less q r)) [
  | inl first ↦ rw first
  | inr later ↦ elim (Bool-cases (less r q)) [
    | inl after ↦ ground (arith, contains-insert p q found)
    | inr same ↦ ground (arith, less_total q r later same, Bool-cases (eqb_index p r))
  ]
]

-- Whether an `int` is one of `n` from `lo` on.
unfoldable pub in_span : ℕ → ℤ → ℤ → Bool
unfolding ◌+ℤ◌
in_span n lo a = leb_ℤ lo a && ltb_ℤ a (lo +ℤ pos n)

in_span_zero : (lo a : ℤ) → in_span 0 lo a ≡ false
unfolding in_span
in_span_zero lo a = ground arith

in_span-suc : (n : ℕ) (lo a : ℤ) → in_span (suc n) lo a ≡ (eqb_ℤ a lo || in_span n (lo +ℤ pos 1) a)
unfolding in_span
in_span-suc n lo a = ground arith

-- Only the column and the row of an index decide whether it is let in.
admit : (Index → Bool) → Index → List Index → List Index
admit wanted q found = if wanted q then insert q found else found

contains-admit :
    (wanted : Index → Bool) (p q : Index) (found : List Index)
    → contains p (admit wanted q found) ≡ (contains p found || (eqb_index p q && wanted p))
unfolding admit
contains-admit wanted p q found = elim (Bool-cases (eqb_index p q)) [
  | inl same ↦
      rw (← eqb_index_eq p q same) (ground (arith, contains-insert p p found, eqb_index_refl p))
  | inr other ↦ ground (arith, contains-insert p q found)
]

module _ (wanted : Index → Bool) (p : Index) where
  contains-scan_column :
      (x : ℤ) (n : ℕ) (y : ℤ) (found : List Index)
      → contains p (scan_column wanted x n y found)
        ≡ (contains p found || (eqb_ℤ p.x x && (in_span n y p.y && wanted p)))
  unfolding scan_column eqb_index admit
  contains-scan_column x zero y found = ground (arith, in_span_zero y p.y)
  contains-scan_column x (suc n) y found =
      let q : Index = record { x = x; y = y } in
      ground (
        arith,
        contains-scan_column x n (y +ℤ pos 1) (admit wanted q found),
        contains-admit wanted p q found,
        in_span-suc n y p.y,
      )

  pub contains-scan_columns :
      (m : ℕ) (x : ℤ) (n : ℕ) (y : ℤ) (found : List Index)
      → contains p (scan_columns wanted m x n y found)
        ≡ (contains p found || (in_span m x p.x && (in_span n y p.y && wanted p)))
  unfolding scan_columns
  contains-scan_columns zero x n y found = ground (arith, in_span_zero x p.x)
  contains-scan_columns (suc m) x n y found = ground (
    arith,
    contains-scan_columns m (x +ℤ pos 1) n y (scan_column wanted x n y found),
    contains-scan_column x n y found,
    in_span-suc m x p.x,
  )

-- The rounds of the loops reach the indices within the distance, and no others.
in_span_around :
    (c a : ℤ) (d : ℕ)
    → in_span (rounds (c -ℤ pos d) (c +ℤ pos d)) (c -ℤ pos d) a ≡ leb (magnitude (c -ℤ a)) d
unfolding in_span ◌-ℤ◌
in_span_around c a d = ground arith

pub to_int-small : (n : ℕ) → n < 2 ^ 31 → to_int n ≡ pos n
to_int-small n h = ground arith

pub contains-scan_square :
    (wanted : Index → Bool) (p idx : Index) (distance : ℕ)
    → distance < 2 ^ 31
    → contains p (scan_square wanted idx distance) ≡ (
        leb (magnitude (idx.x -ℤ p.x)) distance
        && (leb (magnitude (idx.y -ℤ p.y)) distance && wanted p))
unfolding scan_square
contains-scan_square wanted p idx distance small =
    rw
      (
        to_int-small distance small,
        contains-scan_columns wanted p,
        in_span_around idx.x p.x,
        in_span_around idx.y p.y,
      )
      refl
