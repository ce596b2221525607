-- ===== src/Loader/Priority.antt =====
-- Of the instances with one unique name the one of the highest priority stays.
use allpix_fork.Base.{
  ℕ, ◌≡◌, refl, sym, ap, ◌∙◌, true, false, List, [], ◌∷◌, Option, none, some, if◌then◌else◌, Str,
  equal, equal_iff, ok, err, Error, bind-eq-ok, arith, Bool-cases, inl, inr, subst,
}
use allpix_fork.Base.Int.{ℤ, ltb_ℤ}
use allpix_fork.Manager.{ModuleIdentifier, get_unique_name, drop_instance_configuration}
use allpix_fork.Loader.{ModuleManager, find_unique, erase_unique, resolve, register_module}

abbrev pub prio_of : Option (ModuleIdentifier × ℕ) → Option ℤ
prio_of none = none
prio_of (some (i, m)) = some i.prio

-- The priority of the instance with a unique name.
abbrev pub priority : ModuleManager → Str → Option ℤ
priority s n = prio_of (find_unique n s.id_to_module)

-- A lower number is a higher priority.
abbrev pub better : Option ℤ → ℤ → Option ℤ
better none x = some x
better (some y) x = some (if ltb_ℤ x y then x else y)

abbrev pub Absent : Str → List (ModuleIdentifier × ℕ) → Type 0
Absent n [] = Unit {0}
Absent n ((i, m) ∷ rest) = (equal n (get_unique_name i) ≡ false) × Absent n rest

-- No two entries have the same unique name.
abbrev pub Distinct : List (ModuleIdentifier × ℕ) → Type 0
Distinct [] = Unit {0}
Distinct ((i, m) ∷ rest) = Absent (get_unique_name i) rest × Distinct rest

ok_injective : {A : Type 0} {a b : A} → ok a ≡ ok b → a ≡ b
ok_injective h = ground arith

err_not_ok : {A : Type 0} {e : Error} {a : A} → err e ≡ ok a → ⊥
err_not_ok h = cc

find-Absent : (n : Str) (ms : List (ModuleIdentifier × ℕ)) → find_unique n ms ≡ none → Absent n ms
unfolding find_unique
find-Absent n [] h = tt
find-Absent n ((i, m) ∷ ms) h = elim (Bool-cases (equal n (get_unique_name i))) [
  | inl e ↦ absurd (ground arith)
  | inr e ↦ (e, find-Absent n ms (ground arith))
]

Absent-find : (n : Str) (ms : List (ModuleIdentifier × ℕ)) → Absent n ms → find_unique n ms ≡ none
unfolding find_unique
Absent-find n [] h = refl
Absent-find n ((i, m) ∷ ms) h = rw h.0 (Absent-find n ms h.1)

erase-other :
    (n k : Str) (ms : List (ModuleIdentifier × ℕ))
    → equal n k ≡ false
    → find_unique k (erase_unique n ms) ≡ find_unique k ms
unfolding find_unique erase_unique
erase-other n k [] h = refl
erase-other n k ((i, m) ∷ ms) h = ground (
  arith,
  equal_iff n k,
  equal_iff n (get_unique_name i),
  equal_iff k (get_unique_name i),
  erase-other n k ms h,
)

erase-Absent-other :
    (n k : Str) (ms : List (ModuleIdentifier × ℕ)) → Absent k ms → Absent k (erase_unique n ms)
unfolding erase_unique
erase-Absent-other n k [] h = tt
erase-Absent-other n k ((i, m) ∷ ms) h = elim (Bool-cases (equal n (get_unique_name i))) [
  | inl e ↦ rw e h.1
  | inr e ↦ rw e (h.0, erase-Absent-other n k ms h.1)
]

erase-Distinct :
    (n : Str) (ms : List (ModuleIdentifier × ℕ))
    → Distinct ms
    → Distinct (erase_unique n ms) × Absent n (erase_unique n ms)
unfolding erase_unique
erase-Distinct n [] h = (tt, tt)
erase-Distinct n ((i, m) ∷ ms) h = elim (Bool-cases (equal n (get_unique_name i))) [
  | inl e ↦
      let same : n ≡ get_unique_name i = (equal_iff n (get_unique_name i)).0 e in
      rw e (h.1, subst (λ x. Absent x ms) (sym same) h.0)
  | inr e ↦
      let rest = erase-Distinct n ms h.1 in
      rw e ((erase-Absent-other n (get_unique_name i) ms h.0, rest.0), (e, rest.1))
]

find-cons :
    (n : Str) (i : ModuleIdentifier) (m : ℕ) (ms : List (ModuleIdentifier × ℕ))
    → find_unique n ((i, m) ∷ ms)
      ≡ (if equal n (get_unique_name i) then some (i, m) else find_unique n ms)
unfolding find_unique
find-cons n i m ms = refl

-- The three ways in which a registration succeeds, and the entries afterwards.
data Resolved (s t : ModuleManager) (i : ModuleIdentifier) (m : ℕ)
    : Option (ModuleIdentifier × ℕ) → Type 0 where
  fresh : t.id_to_module ≡ (i, m) ∷ s.id_to_module → Resolved s t i m none
  replaced :
      (j : ModuleIdentifier) (k : ℕ)
      → ltb_ℤ i.prio j.prio ≡ true
      → t.id_to_module ≡ (i, m) ∷ erase_unique (get_unique_name i) s.id_to_module
      → Resolved s t i m (some (j, k))
  dropped :
      (j : ModuleIdentifier) (k : ℕ)
      → ltb_ℤ i.prio j.prio ≡ false
      → t.id_to_module ≡ s.id_to_module
      → Resolved s t i m (some (j, k))

resolve-Resolved :
    (name : Str) (s t : ModuleManager) (i : ModuleIdentifier) (m : ℕ)
    (o : Option (ModuleIdentifier × ℕ))
    → resolve name s i m o ≡ ok t
    → Resolved s t i m o
unfolding resolve
resolve-Resolved name s t i m none r = fresh (ground arith)
resolve-Resolved name s t i m (some (j, k)) r = elim (Bool-cases (ltb_ℤ i.prio j.prio)) [
  | inl e ↦
      let a = bind-eq-ok (drop_instance_configuration s.conf_manager j) _ (rw e at r) in
      replaced j k e (ap (λ x. x.id_to_module) (sym (ok_injective a.2)))
  | inr e ↦ elim (Bool-cases (ltb_ℤ j.prio i.prio)) [
    | inl f ↦
        let a = bind-eq-ok (drop_instance_configuration s.conf_manager i) _ (rw f at (rw e at r)) in
        dropped j k e (ap (λ x. x.id_to_module) (sym (ok_injective a.2)))
    | inr f ↦ absurd (err_not_ok (rw f at (rw e at r)))
  ]
]

-- A module that is registered without an error keeps the unique names distinct. The priority under its
-- unique name is then the better one of its own and of that before, and those under all other names are
-- as they were.
pub register_module-priority :
    (name n : Str) (s t : ModuleManager) (i : ModuleIdentifier) (m : ℕ)
    → Distinct s.id_to_module
    → register_module name s i m ≡ ok t
    → Distinct t.id_to_module
      × (priority t n ≡ (
          if equal n (get_unique_name i)
          then better (priority s (get_unique_name i)) i.prio
          else priority s n))
unfolding register_module
register_module-priority name n s t i m d h =
    go (find_unique u s.id_to_module) refl
      (resolve-Resolved name s t i m (find_unique u s.id_to_module) h)
  where
    u : Str
    u = get_unique_name i

    replaced_as :
        (j : ModuleIdentifier)
        → ltb_ℤ i.prio j.prio ≡ true
        → prio_of (if equal n u then some (i, m) else find_unique n (erase_unique u s.id_to_module))
          ≡ (if equal n u then better (some j.prio) i.prio else priority s n)
    replaced_as j f = elim (Bool-cases (equal n u)) [
      | inl q ↦ rw q (rw f refl)
      | inr q ↦ rw q (
          ap prio_of
            (erase-other u n s.id_to_module (ground (arith, equal_iff n u, equal_iff u n))))
    ]

    dropped_as :
        (j : ModuleIdentifier) (k : ℕ)
        → ltb_ℤ i.prio j.prio ≡ false
        → find_unique u s.id_to_module ≡ some (j, k)
        → priority s n ≡ (
            if equal n u
            then better (prio_of (find_unique u s.id_to_module)) i.prio
            else priority s n)
    dropped_as j k f e = elim (Bool-cases (equal n u)) [
      | inl q ↦
          let same : n ≡ u = (equal_iff n u).0 q in
          rw q (
            rw e (
              ap (priority s) same
              ∙ ap prio_of e
              ∙ sym (ap (λ b. some (if b then i.prio else j.prio)) f)))
      | inr q ↦ rw q refl
    ]

    go :
        (o : Option (ModuleIdentifier × ℕ))
        → find_unique u s.id_to_module ≡ o
        → Resolved s t i m o
        → Distinct t.id_to_module
          × (priority t n ≡ (
              if equal n u
              then better (prio_of (find_unique u s.id_to_module)) i.prio
              else priority s n))
    go none e (fresh g) = rw g (
        rw e (
          (find-Absent u s.id_to_module e, d),
          ap prio_of (find-cons n i m s.id_to_module) ∙ ground arith,
        ))
    go _ e (replaced j k f g) =
        let erased = erase-Distinct u s.id_to_module d in
        rw g (
          rw e (
            (erased.1, erased.0),
            ap prio_of (find-cons n i m (erase_unique u s.id_to_module)) ∙ replaced_as j f,
          ))
    go _ e (dropped j k f g) = rw g (d, dropped_as j k f e)
