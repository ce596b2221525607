-- ===== src/Config/Reader/Comments.antt =====
-- src/core/config/ConfigReader.cpp: how a comment is cut off a line.
use allpix_fork.Base.{
  ℕ, ◌≡◌, refl, ap, ◌∙◌, Bool, true, false, not, ◌&&◌, ◌||◌, [], ◌∷◌, ◌++◌, inl, inr, arith, Option,
  none, some, ◌==◌, ==_iff, Bool-cases, all, Str, elem, length, find, append-nil,
}
use allpix_fork.Text.{whitespace}
use allpix_fork.Text.Trim.{IsDelims}
use allpix_fork.Config.Reader.Line.{next_quote, is_open, cut_comment}

pub find-append : (q : ℕ) (x y : Str) → find q x ≡ none → find q (x ++ (q ∷ y)) ≡ some (length x)
unfolding find
find-append q [] y h = ground (arith, ==_iff q q)
find-append q (c ∷ x) y h = ground (arith, find-append q x y)

pub differ : (p : ℕ → Bool) (c q : ℕ) → p q ≡ false → p c ≡ true → (c == q) ≡ false
differ p c q n h = elim (Bool-cases (c == q)) [
  | inl e ↦ let same : p c ≡ p q = ap p ((==_iff c q).0 e) in cc
  | inr e ↦ e
]

pub find-none_of_all :
    (p : ℕ → Bool) (q : ℕ) (x : Str) → p q ≡ false → all p x ≡ true → find q x ≡ none
unfolding find
find-none_of_all p q [] n h = refl
find-none_of_all p q (c ∷ x) n h = ground (arith, find-none_of_all p q x n, differ p c q n)

pub find-none_append :
    (q : ℕ) (x y : Str) → find q x ≡ none → find q y ≡ none → find q (x ++ y) ≡ none
unfolding find
find-none_append q [] y h k = k
find-none_append q (c ∷ x) y h k = ground (arith, find-none_append q x y)

-- The mark that is open behind a text, and whether no `#` stands outside the marks.
abbrev pub quote_after : Option ℕ → Str → Option ℕ
quote_after q [] = q
quote_after q (c ∷ s) = quote_after (next_quote q c) s

abbrev pub no_hash : Option ℕ → Str → Bool
no_hash q [] = true
no_hash q (c ∷ s) = (is_open (next_quote q c) || not (c == b'#')) && no_hash (next_quote q c) s

cut_comment-append :
    (q : Option ℕ) (v rest : Str)
    → no_hash q v ≡ true
    → cut_comment q (v ++ rest) ≡ v ++ cut_comment (quote_after q v) rest
unfolding cut_comment
cut_comment-append q [] rest h = refl
cut_comment-append q (c ∷ v) rest h = ground (arith, cut_comment-append (next_quote q c) v rest)

cut_comment-whitespace :
    (p rest : Str)
    → IsDelims whitespace p
    → cut_comment none (p ++ rest) ≡ p ++ cut_comment none rest
unfolding cut_comment elem
cut_comment-whitespace [] rest h = refl
cut_comment-whitespace (c ∷ p) rest h = ground (arith, cut_comment-whitespace p rest)

-- A comment behind a value, or nothing.
abbrev pub tail_of : Option (Str × Str) → Str
tail_of none = []
tail_of (some (pad, comment)) = pad ++ (b'#' ∷ comment)

abbrev pub tail_pad : Option (Str × Str) → Str
tail_pad none = []
tail_pad (some (pad, comment)) = pad

pub cut_tail :
    (v : Str) (t : Option (Str × Str))
    → no_hash none v ≡ true
    → quote_after none v ≡ none
    → IsDelims whitespace (tail_pad t)
    → cut_comment none (v ++ tail_of t) ≡ v ++ tail_pad t
cut_tail v none h q p = cut_comment-append none v [] h ∙ unfold cut_comment in refl
cut_tail v (some (pad, comment)) h q p =
    cut_comment-append none v (pad ++ (b'#' ∷ comment)) h
    ∙ ap (◌++◌ v) (
        rw q (cut_comment-whitespace pad (b'#' ∷ comment) p ∙ unfold cut_comment in append-nil pad))
