-- ===== src/Config/Reader/KeyValue.antt =====
-- src/core/config/ConfigReader.cpp: `parseKeyValue` reads back a pair that is written on a line.
use allpix_fork.Base.{
  ℕ, suc, ◌≡◌, refl, sym, ap, ◌∙◌, true, false, [], ◌∷◌, ◌++◌, arith, Option, none, some, all, Str,
  elem, length, drop, find, is_alnum, take-length-append, ok, append-nil,
}
use allpix_fork.Text.{trim, is_empty, whitespace}
use allpix_fork.Text.Trim.{IsDelims, IsTrimmed, starts_kept, ends_kept, trim-padded, trim_trimmed}
use allpix_fork.Config.Reader.Line.{
  cut_comment, is_key_byte, split_at, parse_trimmed, parse_key_value,
}
use allpix_fork.Config.Reader.Comments.{
  find-append, find-none_of_all, find-none_append, quote_after, no_hash, tail_of, tail_pad,
  cut_tail,
}

-- What a key, the text around the equals sign and a value have to be.
pub record IsPair (k before after v : Str) (t : Option (Str × Str)) : Type 0 where
  pub key : all is_key_byte k ≡ true
  pub before_pad : IsDelims whitespace before
  pub after_pad : IsDelims whitespace after
  pub tail : IsDelims whitespace (tail_pad t)
  pub nonempty : is_empty v ≡ false
  pub trimmed : IsTrimmed whitespace v
  pub hash : no_hash none v ≡ true
  pub closed : quote_after none v ≡ none

abbrev pub pair_line : Str → Str → Str → Str → Option (Str × Str) → Str
pair_line k before after v t = (k ++ before) ++ (b'=' ∷ (after ++ (v ++ tail_of t)))

equals_pos :
    (k before : Str)
    → all is_key_byte k ≡ true
    → IsDelims whitespace before
    → find b'=' (k ++ before) ≡ none
unfolding is_alnum elem
equals_pos k before h p =
    find-none_append b'=' k before (find-none_of_all is_key_byte b'=' k refl h)
      (find-none_of_all (λ c. elem c whitespace) b'=' before refl p)

key_byte-kept : (c : ℕ) → is_key_byte c ≡ true → elem c whitespace ≡ false
unfolding is_alnum elem
key_byte-kept c h = ground arith

key-ends : (k : Str) → all is_key_byte k ≡ true → ends_kept whitespace k ≡ true
key-ends [] h = refl
key-ends (c ∷ []) h = ground (arith, key_byte-kept c)
key-ends (c ∷ d ∷ k) h = key-ends (d ∷ k) (ground arith)

key-starts : (k : Str) → all is_key_byte k ≡ true → starts_kept whitespace k ≡ true
key-starts [] h = refl
key-starts (c ∷ k) h = ground (arith, key_byte-kept c)

trim_key :
    (k before : Str)
    → all is_key_byte k ≡ true
    → IsDelims whitespace before
    → trim (k ++ before) ≡ k
unfolding trim
trim_key k before h p =
    trim-padded whitespace [] k before refl
      (record { starts = key-starts k h; ends = key-ends k h }) p

ends_kept-of_append : (ds x y : Str) (c : ℕ) → ends_kept ds (x ++ (c ∷ y)) ≡ ends_kept ds (c ∷ y)
ends_kept-of_append ds [] y c = refl
ends_kept-of_append ds (b ∷ []) y c = refl
ends_kept-of_append ds (b ∷ d ∷ x) y c = ends_kept-of_append ds (d ∷ x) y c

starts_kept-append :
    (ds v y : Str) → is_empty v ≡ false → starts_kept ds (v ++ y) ≡ starts_kept ds v
starts_kept-append ds [] y n = cc
starts_kept-append ds (c ∷ v) y n = refl

-- The value's side of the line, in front of which only whitespace is trimmed.
trim_value :
    (after v x : Str) (head : Str)
    → IsDelims whitespace after
    → is_empty v ≡ false
    → IsTrimmed whitespace v
    → ends_kept whitespace (head ++ (b'=' ∷ (after ++ (v ++ x)))) ≡ true
    → trim (after ++ (v ++ x)) ≡ v ++ x
unfolding trim
trim_value after [] x head p n t e = cc
trim_value after (c ∷ v) x head p n t e = rw (append-nil (c ∷ (v ++ x))) at (
    trim-padded whitespace after (c ∷ (v ++ x)) [] p (record { starts = t.starts; ends = ends })
      refl)
  where
    ends : ends_kept whitespace (c ∷ (v ++ x)) ≡ true
    ends =
        sym (ends_kept-of_append whitespace (b'=' ∷ after) (v ++ x) c)
        ∙ sym (ends_kept-of_append whitespace head (after ++ (c ∷ (v ++ x))) b'=')
        ∙ e

drop-suc-length : (x y : Str) (c : ℕ) → drop (suc (length x)) (x ++ (c ∷ y)) ≡ y
drop-suc-length [] y c = refl
drop-suc-length (b ∷ x) y c = drop-suc-length x y c

trim_self : (s : Str) → IsTrimmed whitespace s → trim s ≡ s
unfolding trim
trim_self s t = trim_trimmed whitespace s t

split_at-written :
    (line x y k v : Str)
    → line ≡ x ++ (b'=' ∷ y)
    → trim x ≡ k
    → all is_key_byte k ≡ true
    → is_empty (cut_comment none (trim y)) ≡ false
    → trim (cut_comment none (trim y)) ≡ v
    → split_at line (length x) ≡ ok (k, v)
split_at-written line x y k v e tk h n tv =
    rw (e, take-length-append x (b'=' ∷ y), drop-suc-length x y b'=', tk, h, n, tv) refl

parse_trimmed-split :
    (line : Str) (pos : ℕ) → find b'=' line ≡ some pos → parse_trimmed line ≡ split_at line pos
unfolding parse_trimmed
parse_trimmed-split line pos f = rw (f, parse_trimmed) refl

pub parse_key_value-split :
    (line : Str) (pos : ℕ)
    → trim line ≡ line
    → find b'=' line ≡ some pos
    → parse_key_value line ≡ split_at line pos
unfolding parse_key_value
parse_key_value-split line pos e f = ap parse_trimmed e ∙ parse_trimmed-split line pos f

value_nonempty : (v p : Str) → is_empty v ≡ false → is_empty (v ++ p) ≡ false
value_nonempty [] p h = cc
value_nonempty (c ∷ v) p h = refl

trim_after : (v p : Str) → IsTrimmed whitespace v → IsDelims whitespace p → trim (v ++ p) ≡ v
unfolding trim
trim_after v p t d = trim-padded whitespace [] v p refl t d

-- A key of key bytes and a value that is not empty, has no whitespace around it, closes its quotation
-- marks and has no `#` outside of them are read back from a line in which they are written, if the line
-- has no whitespace around it, whatever whitespace stands round the equals sign, with or without a
-- comment behind the value.
pub parse_key_value-written :
    (k before after v : Str) (t : Option (Str × Str))
    → IsPair k before after v t
    → IsTrimmed whitespace (pair_line k before after v t)
    → parse_key_value (pair_line k before after v t) ≡ ok (k, v)
parse_key_value-written k before after v t p line =
    let right =
      trim_value after v (tail_of t) (k ++ before) p.after_pad p.nonempty p.trimmed line.ends in
    let cut : cut_comment none (trim (after ++ (v ++ tail_of t))) ≡ v ++ tail_pad t =
      rw right (cut_tail v t p.hash p.closed p.tail) in
    parse_key_value-split (pair_line k before after v t) (length (k ++ before))
      (trim_self (pair_line k before after v t) line)
      (find-append b'=' (k ++ before) (after ++ (v ++ tail_of t))
        (equals_pos k before p.key p.before_pad))
    ∙ split_at-written (pair_line k before after v t) (k ++ before) (after ++ (v ++ tail_of t)) k v
        refl (trim_key k before p.key p.before_pad) p.key
        (rw cut (value_nonempty v (tail_pad t) p.nonempty))
        (rw cut (trim_after v (tail_pad t) p.trimmed p.tail))
