-- ===== src/MeshConverter/Shapes/Below.antt =====
-- tools/mesh_converter/parsers/DFISEParser.cpp: steps that keep the vertices of a list below a bound.
use mathlib.Core.List.{reverse, reverse-cons}
use allpix_fork.Base.{
  ℕ, zero, suc, ◌<◌, Bool, true, false, List, [], ◌∷◌, ◌==◌, Result, ok, err, Error, ◌>>=◌, All,
  All-append, Bool-cases, inl, inr,
}
use allpix_fork.MeshConverter.Shapes.{
  swap_pair, checked_get, last_or, drop_same, unique, init_of, join_ends, reverse_tail,
}

abbrev pub Ensures {ℓ κ} : {A : Type ℓ} → (A → Type κ) → Result A → Type κ
Ensures P (ok a) = P a
Ensures P (err e) = Unit

pub Ensures_bind {ℓ κ λ' μ} :
    {A : Type ℓ} {B : Type κ} (P : A → Type λ') (Q : B → Type μ) (m : Result A) (f : A → Result B)
    → Ensures P m
    → ((a : A) → P a → Ensures Q (f a))
    → Ensures Q (m >>= f)
Ensures_bind P Q (ok a) f h next = next a h
Ensures_bind P Q (err e) f h next = tt

pub any {ℓ} : {A : Type ℓ} (m : Result A) → Ensures (λ (_ : A). Unit {0}) m
any (ok a) = tt
any (err e) = tt

-- The entries of a list that is read with a check.
pub checked_get-Ensures {ℓ κ} :
    {A : Type ℓ} (P : A → Type κ) (e : Error) (xs : List A) (i : ℕ)
    → All P xs
    → Ensures P (checked_get e xs i)
unfolding checked_get
checked_get-Ensures P e [] i h = tt
checked_get-Ensures P e (x ∷ xs) zero h = h.0
checked_get-Ensures P e (x ∷ xs) (suc i) h = checked_get-Ensures P e xs i h.1

-- A vertex is below the number of vertices; both ends of an edge are, and all vertices of a list are.
abbrev pub Below : ℕ → List ℕ → Type 0
Below n = All (λ v. v < n)

abbrev pub Edge : ℕ → ℕ × ℕ → Type 0
Edge n e = (e.0 < n) × (e.1 < n)

Below-last_or : (n d : ℕ) (xs : List ℕ) → d < n → Below n xs → last_or d xs < n
Below-last_or n d [] hd h = hd
Below-last_or n d (x ∷ xs) hd h = Below-last_or n x xs h.0 h.1

pub Below-init_of : (n : ℕ) (xs : List ℕ) → Below n xs → Below n (init_of xs)
Below-init_of n [] h = tt
Below-init_of n (x ∷ []) h = tt
Below-init_of n (x ∷ y ∷ xs) h = (h.0, Below-init_of n (y ∷ xs) h.1)

Below-drop_same : (n x : ℕ) (xs : List ℕ) → Below n xs → Below n (drop_same x xs)
unfolding drop_same
Below-drop_same n x [] h = tt
Below-drop_same n x (y ∷ ys) h = elim (Bool-cases (x == y)) [
  | inl same ↦ rw same (Below-drop_same n x ys h.1)
  | inr other ↦ rw other (h.0, Below-drop_same n y ys h.1)
]

pub Below-unique : (n : ℕ) (xs : List ℕ) → Below n xs → Below n (unique xs)
unfolding unique
Below-unique n [] h = tt
Below-unique n (x ∷ xs) h = (h.0, Below-drop_same n x xs h.1)

pub join_ends-Below : (n : ℕ) (xs : List ℕ) → Below n xs → Ensures (Below n) (join_ends xs)
unfolding join_ends
join_ends-Below n [] h = tt
join_ends-Below n (x ∷ []) h = h
join_ends-Below n (x ∷ y ∷ xs) h = elim (Bool-cases (x == last_or y xs)) [
  | inl same ↦ rw same h
  | inr other ↦ rw other (
    Below-last_or n y xs h.1.0 h.1.1,
    All-append (λ v. v < n) (init_of (y ∷ xs)) (x ∷ []) (Below-init_of n (y ∷ xs) h.1) (h.0, tt),
  )
]

All-reverse {ℓ κ} : {A : Type ℓ} (P : A → Type κ) (xs : List A) → All P xs → All P (reverse xs)
All-reverse P [] h = tt
All-reverse P (x ∷ xs) h =
    rw (reverse-cons x xs) (All-append P (reverse xs) (x ∷ []) (All-reverse P xs h.1) (h.0, tt))

pub reverse_tail-Below : (n : ℕ) (xs : List ℕ) → Below n xs → Ensures (Below n) (reverse_tail xs)
unfolding reverse_tail
reverse_tail-Below n [] h = tt
reverse_tail-Below n (x ∷ xs) h = (h.0, All-reverse (λ v. v < n) xs h.1)

pub Edge-swap_pair : (n : ℕ) (swap : Bool) (e : ℕ × ℕ) → Edge n e → Edge n (swap_pair swap e)
Edge-swap_pair n true e h = (h.1, h.0)
Edge-swap_pair n false e h = h
