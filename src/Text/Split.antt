-- ===== src/Text/Split.antt =====
-- `split` against a scan of the string that knows nothing of positions.
use allpix_fork.Base.{
  ℕ, zero, suc, ◌<◌, ◌≡◌, refl, sym, ap, ◌∙◌, List, [], ◌∷◌, ◌++◌, inl, inr, none, some, arith,
  if◌then◌else◌, Option-cases, length, take, drop, Str, elem, find_first_of, Result, ok, map_result,
  append-nil, append_assoc, length-drop-le,
}
use allpix_fork.Text.{trim_with, push_token, split_loop, split, is_empty}
use allpix_fork.Text.Trim.{IsDelims, trim-splits}

-- A finished token, if there is one.
abbrev pub flush : Str → List Str
flush [] = []
flush (c ∷ s) = (c ∷ s) ∷ []

-- The maximal runs of bytes that are no delimiters; `acc` is the run read so far.
abbrev pub words_from : Str → Str → Str → List Str
words_from ds acc [] = flush acc
words_from ds acc (c ∷ s) =
    let stop = flush acc ++ words_from ds [] s in
    let go = words_from ds (acc ++ (c ∷ [])) s in if elem c ds then stop else go

abbrev pub words : Str → Str → List Str
words ds s = words_from ds [] s

words_from-none :
    (ds acc s : Str) → find_first_of ds s ≡ none → words_from ds acc s ≡ flush (acc ++ s)
unfolding find_first_of
words_from-none ds acc [] h = rw append-nil
words_from-none ds acc (c ∷ s) h =
    ground (arith, words_from-none ds (acc ++ (c ∷ [])) s, append_assoc acc (c ∷ []) s)

words_from-some :
    (ds acc s : Str) (i : ℕ)
    → find_first_of ds s ≡ some i
    → words_from ds acc s ≡ flush (acc ++ take i s) ++ words_from ds [] (drop (suc i) s)
unfolding find_first_of
words_from-some ds acc [] i h = cc
words_from-some ds acc (c ∷ s) zero h = ground (arith, append-nil acc)
words_from-some ds acc (c ∷ s) (suc i) h =
    ground (arith, words_from-some ds (acc ++ (c ∷ [])) s i, append_assoc acc (c ∷ []) (take i s))

length-drop_lt :
    (ds s : Str) (i : ℕ) → find_first_of ds s ≡ some i → length (drop (suc i) s) < length s
unfolding find_first_of
length-drop_lt ds [] i h = cc
length-drop_lt ds (c ∷ s) i h = omega (arith, length-drop-le i s)

push_token-flush {ℓ} :
    {T : Type ℓ} (conv : Str → Result T) (t : Str) (ws : List Str)
    → push_token conv t (map_result conv ws) ≡ map_result conv (flush t ++ ws)
push_token-flush conv [] ws = refl
push_token-flush conv (c ∷ s) ws = refl

-- With more fuel than bytes the loop converts the words in order, up to the first that fails.
pub split_loop-words {ℓ} :
    {T : Type ℓ} (conv : Str → Result T) (ds : Str) (fuel : ℕ) (s : Str)
    → length s < fuel
    → split_loop conv ds fuel s ≡ map_result conv (words ds s)
unfolding split_loop
split_loop-words conv ds zero s h = absurd (omega arith)
split_loop-words conv ds (suc fuel) s h = elim (Option-cases (find_first_of ds s)) [
  | inl e ↦
      rw (e, split_loop)
        (push_token-flush conv s []
          ∙ ap (map_result conv) (rw append-nil (sym (words_from-none ds [] s e))))
  | inr (i, e) ↦
      rw (e, split_loop)
        (rw
          (split_loop-words conv ds fuel (drop (suc i) s) (omega (arith, length-drop_lt ds s i e)))
          (push_token-flush conv (take i s) _
            ∙ ap (map_result conv) (sym (words_from-some ds [] s i e))))
]

words-delims : (ds pre s : Str) → IsDelims ds pre → words ds (pre ++ s) ≡ words ds s
words-delims ds [] s h = refl
words-delims ds (c ∷ pre) s h = ground (arith, words-delims ds pre s)

words_from-append_delims :
    (ds acc s post : Str) → IsDelims ds post → words_from ds acc (s ++ post) ≡ words_from ds acc s
words_from-append_delims ds acc [] [] h = refl
words_from-append_delims ds acc [] (c ∷ post) h =
    ground (arith, words_from-append_delims ds [] [] post, append-nil (flush acc))
words_from-append_delims ds acc (c ∷ s) post h = ground (
  arith,
  words_from-append_delims ds [] s post,
  words_from-append_delims ds (acc ++ (c ∷ [])) s post,
)

words-trim : (ds s : Str) → words ds (trim_with ds s) ≡ words ds s
words-trim ds s =
    let (pre, post, e, p, q) = trim-splits ds s in
    sym (words_from-append_delims ds [] (trim_with ds s) post q)
    ∙ sym (words-delims ds pre (trim_with ds s ++ post) p)
    ∙ ap (words ds) (sym e)

split_nonempty {ℓ} :
    {T : Type ℓ} (conv : Str → Result T) (ds t : Str)
    → (if is_empty t then ok [] else split_loop conv ds (suc (length t)) t)
      ≡ map_result conv (words ds t)
split_nonempty conv ds [] = refl
split_nonempty conv ds (c ∷ s) = split_loop-words conv ds _ (c ∷ s) (omega arith)

-- `split` converts the maximal runs of non-delimiters of the whole string, in order, and fails with
-- the error of the first run that does not convert.
pub split-words {ℓ} :
    {T : Type ℓ} (conv : Str → Result T) (str ds : Str)
    → split conv str ds ≡ map_result conv (words ds str)
unfolding split
split-words conv str ds =
    split_nonempty conv ds (trim_with ds str) ∙ ap (map_result conv) (words-trim ds str)
