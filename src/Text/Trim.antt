-- ===== src/Text/Trim.antt =====
-- What `trim` removes and what it keeps.
use allpix_fork.Base.{
  ℕ, suc, ◌+◌, ◌-◌, ◌≡◌, ◌≢◌, refl, ap, ◌∙◌, Bool, true, false, not, [], ◌∷◌, ◌++◌, Option, none,
  some, inl, inr, arith, if◌then◌else◌, Bool-cases, take, all, Str, elem, find_first_not_of,
  find_last_not_of, substr, append-nil,
}
use allpix_fork.Text.{trim_with, is_empty}

-- The reference: drop delimiters in front, then at the end.
abbrev pub strip_front : Str → Str → Str
strip_front ds [] = []
strip_front ds (c ∷ s) = if elem c ds then strip_front ds s else c ∷ s

abbrev keep_last : Bool → ℕ → Str → Str
keep_last b c (x ∷ xs) = c ∷ x ∷ xs
keep_last true c [] = []
keep_last false c [] = c ∷ []

abbrev pub strip_back : Str → Str → Str
strip_back ds [] = []
strip_back ds (c ∷ s) = keep_last (elem c ds) c (strip_back ds s)

abbrev upto : Option ℕ → Str → Str
upto none s = []
upto (some e) s = take (suc e) s

take_last : (ds s : Str) → upto (find_last_not_of ds s) s ≡ strip_back ds s
unfolding find_last_not_of
take_last ds [] = refl
take_last ds (c ∷ []) = ground arith
take_last ds (c ∷ d ∷ s) = ground (arith, take_last ds (d ∷ s))

abbrev between : Option ℕ → Option ℕ → Str → Str
between none e s = []
between (some b) none s = []
between (some b) (some e) s = substr b (e - b + 1) s

between-strip :
    (ds s : Str)
    → between (find_first_not_of ds s) (find_last_not_of ds s) s ≡ strip_back ds (strip_front ds s)
unfolding find_first_not_of find_last_not_of substr
between-strip ds [] = refl
between-strip ds (c ∷ s) = elim (Bool-cases (elem c ds)) [
  | inl e ↦ rw e (ground (arith, between-strip ds s))
  | inr e ↦ ground (arith, take_last ds (c ∷ s))
]

pub trim-strip : (ds s : Str) → trim_with ds s ≡ strip_back ds (strip_front ds s)
unfolding trim_with
trim-strip ds s = ground (arith, between-strip ds s)

-- No delimiter at either end.
abbrev pub starts_kept : Str → Str → Bool
starts_kept ds [] = true
starts_kept ds (c ∷ s) = not (elem c ds)

abbrev pub ends_kept : Str → Str → Bool
ends_kept ds [] = true
ends_kept ds (c ∷ []) = not (elem c ds)
ends_kept ds (c ∷ d ∷ s) = ends_kept ds (d ∷ s)

pub record IsTrimmed (ds s : Str) : Type 0 where
  pub starts : starts_kept ds s ≡ true
  pub ends : ends_kept ds s ≡ true

abbrev pub IsDelims : Str → Str → Type 0
IsDelims ds s = all (λ c. elem c ds) s ≡ true

strip_front-starts : (ds s : Str) → starts_kept ds (strip_front ds s) ≡ true
strip_front-starts ds [] = refl
strip_front-starts ds (c ∷ s) = ground (arith, strip_front-starts ds s)

strip_back-ends : (ds s : Str) → ends_kept ds (strip_back ds s) ≡ true
strip_back-ends ds [] = refl
strip_back-ends ds (c ∷ s) = ground (arith, strip_back-ends ds s)

strip_back-starts : (ds s : Str) → starts_kept ds s ≡ true → starts_kept ds (strip_back ds s) ≡ true
strip_back-starts ds [] h = refl
strip_back-starts ds (c ∷ s) h = ground arith

pub trim-IsTrimmed : (ds s : Str) → IsTrimmed ds (trim_with ds s)
trim-IsTrimmed ds s = rw (trim-strip ds s) (record {
  starts = strip_back-starts ds _ (strip_front-starts ds s);
  ends = strip_back-ends ds (strip_front ds s);
})

front_of : (ds s : Str) → (pre : Str) × (s ≡ pre ++ strip_front ds s) × IsDelims ds pre
front_of ds [] = ([], refl, refl)
front_of ds (c ∷ s) = elim (Bool-cases (elem c ds)) [
  | inl e ↦ let (pre, p, q) = front_of ds s in (c ∷ pre, rw e (ap (◌∷◌ c) p), rw e q)
  | inr e ↦ ([], rw e refl, refl)
]

back_cons :
    (ds : Str) (c : ℕ) (r s post : Str)
    → s ≡ r ++ post
    → IsDelims ds post
    → (p : Str) × (c ∷ s ≡ keep_last (elem c ds) c r ++ p) × IsDelims ds p
back_cons ds c (x ∷ r) s post e h = (post, ap (◌∷◌ c) e, h)
back_cons ds c [] s post e h = elim (Bool-cases (elem c ds)) [
  | inl d ↦ (c ∷ post, rw d (ap (◌∷◌ c) e), rw d h)
  | inr d ↦ (post, rw d (ap (◌∷◌ c) e), h)
]

back_of : (ds s : Str) → (post : Str) × (s ≡ strip_back ds s ++ post) × IsDelims ds post
back_of ds [] = ([], refl, refl)
back_of ds (c ∷ s) = let (post, p, q) = back_of ds s in back_cons ds c (strip_back ds s) s post p q

-- What `trim` takes away, on both sides, are delimiters.
pub trim-splits :
    (ds s : Str)
    → (pre post : Str) × (s ≡ pre ++ (trim_with ds s ++ post)) × IsDelims ds pre × IsDelims ds post
trim-splits ds s =
    let (pre, p, q) = front_of ds s in
    let (post, p', q') = back_of ds (strip_front ds s) in
    (pre, post, rw (trim-strip ds s) (p ∙ ap (◌++◌ pre) p'), q, q')

strip_front-delims :
    (ds pre s : Str) → IsDelims ds pre → strip_front ds (pre ++ s) ≡ strip_front ds s
strip_front-delims ds [] s h = refl
strip_front-delims ds (c ∷ pre) s h = ground (arith, strip_front-delims ds pre s)

strip_front_self :
    (ds s post : Str) → starts_kept ds s ≡ true → s ≢ [] → strip_front ds (s ++ post) ≡ s ++ post
strip_front_self ds [] post h n = absurd (n refl)
strip_front_self ds (c ∷ s) post h n = ground arith

strip_front_all : (ds s : Str) → IsDelims ds s → strip_front ds s ≡ []
strip_front_all ds [] h = refl
strip_front_all ds (c ∷ s) h = ground (arith, strip_front_all ds s)

strip_back_all : (ds s : Str) → IsDelims ds s → strip_back ds s ≡ []
strip_back_all ds [] h = refl
strip_back_all ds (c ∷ s) h = ground (arith, strip_back_all ds s)

strip_back_self :
    (ds s post : Str) → ends_kept ds s ≡ true → IsDelims ds post → strip_back ds (s ++ post) ≡ s
strip_back_self ds [] post h q = strip_back_all ds post q
strip_back_self ds (c ∷ []) post h q = ground (arith, strip_back_all ds post q)
strip_back_self ds (c ∷ d ∷ s) post h q = ground (arith, strip_back_self ds (d ∷ s) post h q)

-- `trim` recovers a text that neither starts nor ends with a delimiter from any padding of delimiters.
pub trim-padded :
    (ds pre s post : Str)
    → IsDelims ds pre
    → IsTrimmed ds s
    → IsDelims ds post
    → trim_with ds (pre ++ (s ++ post)) ≡ s
trim-padded ds pre [] post p t q =
    trim-strip ds (pre ++ post)
    ∙ rw (strip_front-delims ds pre post p, strip_front_all ds post q) refl
trim-padded ds pre (c ∷ s) post p t q =
    trim-strip ds (pre ++ (c ∷ s ++ post))
    ∙ rw (strip_front-delims ds pre (c ∷ s ++ post) p) (
        rw (strip_front_self ds (c ∷ s) post t.starts (λ e. cc))
          (strip_back_self ds (c ∷ s) post t.ends q))

pub trim_trimmed : (ds s : Str) → IsTrimmed ds s → trim_with ds s ≡ s
trim_trimmed ds s t = rw (append-nil) at (trim-padded ds [] s [] refl t refl)

pub trim_idem : (ds s : Str) → trim_with ds (trim_with ds s) ≡ trim_with ds s
trim_idem ds s = trim_trimmed ds _ (trim-IsTrimmed ds s)

strip_back-empty : (ds s : Str) → is_empty (strip_back ds s) ≡ all (λ c. elem c ds) s
strip_back-empty ds [] = refl
strip_back-empty ds (c ∷ s) = ground (arith, strip_back-empty ds s)

strip_front-empty : (ds s : Str) → all (λ c. elem c ds) (strip_front ds s) ≡ all (λ c. elem c ds) s
strip_front-empty ds [] = refl
strip_front-empty ds (c ∷ s) = ground (arith, strip_front-empty ds s)

-- Nothing is left exactly of a text that is all delimiters.
pub trim-is_empty : (ds s : Str) → is_empty (trim_with ds s) ≡ all (λ c. elem c ds) s
trim-is_empty ds s =
    ap is_empty (trim-strip ds s) ∙ strip_back-empty ds (strip_front ds s) ∙ strip_front-empty ds s
