-- ===== src/ThreadPool/Events/Counts.antt =====
-- How the operations of the queue move events between its parts.
use allpix_fork.Base.{
  ℕ, suc, ◌+◌, ◌≤◌, ◌<◌, ◌≡◌, refl, sym, true, List, [], ◌∷◌, ◌++◌, ◌==◌, ==_iff, ltb, arith,
  if◌then◌else◌, length, Bool-cases, inl, inr, subst,
}
use allpix_fork.ThreadPool.{insert_id, advance, emplace}
use allpix_fork.ThreadPool.Complete.{From, mem, rest_of, next_of, advance-From}
use allpix_fork.ThreadPool.Events.{erase, count, count_ids, Consecutive, Ordered}

pub count-erase :
    (i n : ℕ) (is : List ℕ)
    → mem n is ≡ true
    → count i (erase n is) + (if i == n then 1 else 0) ≡ count i is
count-erase i n [] h = cc
count-erase i n (j ∷ is) h = ground (arith, count-erase i n is)

pub length-erase : (n : ℕ) (is : List ℕ) → mem n is ≡ true → length (erase n is) + 1 ≡ length is
length-erase n [] h = cc
length-erase n (j ∷ is) h = ground (arith, length-erase n is)

pub count-mem : (n : ℕ) (is : List ℕ) → mem n is ≡ true → 1 ≤ count n is
count-mem n [] h = cc
count-mem n (j ∷ is) h = ground (arith, count-mem n is)

pub From-count : (lo i : ℕ) (is : List ℕ) → From lo is → i < lo → count i is ≡ 0
From-count lo i [] f h = refl
From-count lo i (j ∷ is) f h = ground (arith, From-count (suc j) i is f.1)

pub count-insert_id :
    (i n : ℕ) (is : List ℕ)
    → count n is ≡ 0
    → count i (insert_id n is) ≡ (if i == n then 1 else 0) + count i is
unfolding insert_id
count-insert_id i n [] h = ground arith
count-insert_id i n (j ∷ is) h = ground (arith, count-insert_id i n is)

pub count-advance :
    (is : List ℕ) (c i : ℕ)
    → From c is
    → c ≤ i
    → count i is ≡ (if ltb i (next_of (advance is c)) then 1 else count i (rest_of (advance is c)))
unfolding advance
count-advance [] c i f h = ground arith
count-advance (j ∷ is) c i f h = elim (Bool-cases (j == c)) [
  | inl e ↦
      let same : j ≡ c = (==_iff j c).0 e in
      let g = subst (λ k. From (suc k) is) same f.1 in
      rw e (
        ground (
          arith,
          same,
          count-advance is (suc c) i g,
          (advance-From is (suc c) g).1,
          From-count (suc c) i is g,
        ))
  | inr e ↦ rw e (ground arith)
]

pub count-emplace :
    (i n v : ℕ) (b : List (ℕ × ℕ))
    → count_ids i (emplace n v b) ≡ (if i == n then 1 else 0) + count_ids i b
unfolding emplace
count-emplace i n v [] = refl
count-emplace i n v ((m, w) ∷ b) = ground (arith, count-emplace i n v b)

pub length-emplace : (n v : ℕ) (b : List (ℕ × ℕ)) → length (emplace n v b) ≡ length b + 1
unfolding emplace
length-emplace n v [] = refl
length-emplace n v ((m, w) ∷ b) = ground (arith, length-emplace n v b)

pub emplace-Ordered :
    (lo n : ℕ) (b : List (ℕ × ℕ)) → lo ≤ n → Ordered lo b → Ordered lo (emplace n n b)
unfolding emplace
emplace-Ordered lo n [] h o = (h, refl, tt)
emplace-Ordered lo n ((m, w) ∷ b) h o = ground (arith, emplace-Ordered m n b)

pub Ordered-mono : (a b : ℕ) (p : List (ℕ × ℕ)) → a ≤ b → Ordered b p → Ordered a p
Ordered-mono a b [] h o = tt
Ordered-mono a b ((n, v) ∷ p) h o = (omega arith, o.1, o.2)

pub Consecutive-concat :
    (first last : ℕ) (vs : List ℕ)
    → Consecutive first vs last
    → Consecutive first (vs ++ (last ∷ [])) (last + 1)
Consecutive-concat first last [] h = (sym h, omega arith)
Consecutive-concat first last (v ∷ vs) h = (h.0, Consecutive-concat (suc first) last vs h.1)

pub count_ids-pop :
    (i n v : ℕ) (b : List (ℕ × ℕ))
    → count_ids i ((n, v) ∷ b) ≡ (if i == n then 1 else 0) + count_ids i b
count_ids-pop i n v b = refl
