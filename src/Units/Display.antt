-- ===== src/Units/Display.antt =====
-- Which unit `display` chooses.
use mathlib.Core.List.{Mem, mem-cons_self, mem-cons_of_mem}
use allpix_fork.Base.{
  ◌≡◌, refl, sym, subst, ◌∙◌, Bool, true, not, ◌&&◌, ◌||◌, List, [], ◌∷◌, ◌⊎◌, inl, inr, arith,
  if◌then◌else◌, Bool-cases, All, Str, Dict, Result, ok, ◌>>=◌,
}
use allpix_fork.Base.Int.{ℤ, pos, negsuc}
use allpix_fork.Units.{Real, ltℤ, is_positive, improves, int_min, best_loop, best_unit, convert}

-- `b` is no worse than `e`: it is positive and not above `e` if `e` is positive, else positive or not
-- below `e`.
abbrev pub as_good : ℤ → ℤ → Bool
as_good b e =
    if is_positive e then is_positive b && not (ltℤ e b) else is_positive b || not (ltℤ b e)

as_good_refl : (b : ℤ) → as_good b b ≡ true
as_good_refl (pos n) = ground arith
as_good_refl (negsuc n) = ground arith

as_good_trans : (a b c : ℤ) → as_good a b ≡ true → as_good b c ≡ true → as_good a c ≡ true
as_good_trans (pos a) (pos b) (pos c) h k = ground arith
as_good_trans a b c h k = ground arith

abbrev better : ℤ → ℤ → ℤ
better best e = if improves best e then e else best

better-as_good :
    (best e : ℤ) → (as_good (better best e) best ≡ true) × (as_good (better best e) e ≡ true)
better-as_good (pos a) (pos b) = ground arith
better-as_good a b = ground arith

-- The last two clauses of the choice: `w` with exponent `b` is no worse than what came before.
abbrev Chosen : (Str → ℤ) → ℤ → Str → List Str → Str → ℤ → Type 0
Chosen e best unit us w b =
    (((w ≡ unit) × (b ≡ best)) ⊎ (Mem w us × (b ≡ e w)))
    × (as_good b best ≡ true)
    × All (λ u. as_good b (e u) ≡ true) us

better_pick :
    (e : Str → ℤ) (best : ℤ) (unit u w : Str) (us : List Str)
    → w ≡ (if improves best (e u) then u else unit)
    → ((w ≡ unit) × (better best (e u) ≡ best)) ⊎ (Mem w (u ∷ us) × (better best (e u) ≡ e w))
better_pick e best unit u w us h = elim (Bool-cases (improves best (e u))) [
  | inl i ↦
      let same : w ≡ u = rw i at h in
      inr (subst (λ v. Mem v (u ∷ us)) (sym same) mem-cons_self, rw (i, same) refl)
  | inr i ↦ inl (rw i at h, rw i refl)
]

best_loop-Chosen :
    (exponent : Str → Result ℤ) (e : Str → ℤ) (best : ℤ) (unit : Str) (us : List Str)
    → All (λ u. exponent u ≡ ok (e u)) us
    → (w : Str) × (b : ℤ) × (best_loop exponent best unit us ≡ ok w) × Chosen e best unit us w b
unfolding best_loop
best_loop-Chosen exponent e best unit [] h =
    (unit, best, refl, (inl (refl, refl), as_good_refl best, tt))
best_loop-Chosen exponent e best unit (u ∷ us) h =
    let (w, b, run, (from, over, rest)) =
      best_loop-Chosen exponent e (better best (e u)) (if improves best (e u) then u else unit) us
        h.1 in
    let good = better-as_good best (e u) in
    (
      w,
      b,
      rw h.0 run,
      (
        origin w b from,
        as_good_trans b (better best (e u)) best over good.0,
        (as_good_trans b (better best (e u)) (e u) over good.1, rest),
      ),
    )
  where
    origin :
        (w : Str) (b : ℤ)
        → ((w ≡ (if improves best (e u) then u else unit)) × (b ≡ better best (e u)))
          ⊎ (Mem w us × (b ≡ e w))
        → ((w ≡ unit) × (b ≡ best)) ⊎ (Mem w (u ∷ us) × (b ≡ e w))
    origin w b (inl (p, q)) = elim (better_pick e best unit u w us p) [
      | inl (x, y) ↦ inl (x, q ∙ y)
      | inr (x, y) ↦ inr (x, q ∙ y)
    ]
    origin w b (inr (m, q)) = inr (mem-cons_of_mem u m, q)

above_min : (b x : ℤ) → ltℤ int_min x ≡ true → as_good b x ≡ true → b ≡ int_min → ⊥
above_min b (pos n) h g e = ground arith
above_min b (negsuc n) h g e = ground arith

module _ (r : Real) (units : Dict r.D) (frexp : r.D → ℤ) (print : r.D → Str) where
  -- Of units to all of which the input converts, with exponents above INT_MIN, `display` picks one. If
  -- the input is above one in some of them, it is above one in the unit picked and in no unit both above
  -- one and smaller; else it is largest there.
  pub best_unit-as_good :
      (input : r.D) (v : Str → r.D) (u : Str) (us : List Str)
      → All
          (λ n. (convert r units input n ≡ ok (v n)) × (ltℤ int_min (frexp (v n)) ≡ true))
          (u ∷ us)
      → (w : Str) × (best_unit r units frexp print input (u ∷ us) ≡ ok w)
        × Mem w (u ∷ us)
        × All (λ n. as_good (frexp (v w)) (frexp (v n)) ≡ true) (u ∷ us)
  unfolding best_unit
  best_unit-as_good input v u us h =
      let (w, b, run, (from, over, good)) =
        best_loop-Chosen (λ n. convert r units input n >>= λ x. ok (frexp x)) (λ n. frexp (v n))
          int_min [] (u ∷ us) (exponents (u ∷ us) h) in
      picked w b run from good
    where
      exponents :
          (ns : List Str)
          → All (λ n. (convert r units input n ≡ ok (v n)) × (ltℤ int_min (frexp (v n)) ≡ true)) ns
          → All (λ n. (convert r units input n >>= λ x. ok (frexp x)) ≡ ok (frexp (v n))) ns
      exponents [] h = tt
      exponents (n ∷ ns) h = (rw h.0.0 refl, exponents ns h.1)

      picked :
          (w : Str) (b : ℤ)
          → best_loop (λ n. convert r units input n >>= λ x. ok (frexp x)) int_min [] (u ∷ us)
            ≡ ok w
          → ((w ≡ []) × (b ≡ int_min)) ⊎ (Mem w (u ∷ us) × (b ≡ frexp (v w)))
          → All (λ n. as_good b (frexp (v n)) ≡ true) (u ∷ us)
          → (w' : Str) × (best_loop
                (λ n. convert r units input n >>= λ x. ok (frexp x))
                int_min
                []
                (u ∷ us)
              ≡ ok w')
            × Mem w' (u ∷ us)
            × All (λ n. as_good (frexp (v w')) (frexp (v n)) ≡ true) (u ∷ us)
      picked w b run (inl (p, q)) good = absurd (above_min b (frexp (v u)) h.0.1 good.0 q)
      picked w b run (inr (m, q)) good =
          (w, run, m, subst (λ x. All (λ n. as_good x (frexp (v n)) ≡ true) (u ∷ us)) q good)
