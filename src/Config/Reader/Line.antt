-- ===== src/Config/Reader/Line.antt =====
-- src/core/config/ConfigReader.cpp: `parseKeyValue`, on one line.
use allpix_fork.Base.{
  ℕ, suc, Bool, true, false, not, ◌&&◌, ◌||◌, [], ◌∷◌, Option, none, some, ◌==◌, if◌then◌else◌, Str,
  is_alnum, find, take, drop, all, Result, ok, err, ◌>>◌, throw_if, key_value_parse_error,
  key_not_valid, value_is_empty, missing_equality_sign,
}
use allpix_fork.Text.{trim, is_empty, is_quote}

-- `last_quote` after one character: an opening mark is remembered until the same one closes it.
abbrev pub next_quote : Option ℕ → ℕ → Option ℕ
next_quote none c = if is_quote c then some c else none
next_quote (some q) c = if c == q then none else some q

abbrev pub is_open : Option ℕ → Bool
is_open none = false
is_open (some q) = true

-- The loop that cuts the value at the first `#` outside quotation marks.
unfoldable pub cut_comment : Option ℕ → Str → Str
cut_comment q [] = []
cut_comment q (c ∷ s) =
    let rest = c ∷ cut_comment (next_quote q c) s in
    if not (is_open (next_quote q c)) && c == b'#' then [] else rest

abbrev pub is_key_byte : ℕ → Bool
is_key_byte ch = is_alnum ch || (ch == b'_' || (ch == b'.' || ch == b':'))

abbrev pub split_at : Str → ℕ → Result (Str × Str)
split_at line pos =
    let key = trim (take pos line) in
    let value = cut_comment none (trim (drop (suc pos) line)) in
    throw_if (not (all is_key_byte key)) (key_value_parse_error line key_not_valid)
    >> throw_if (is_empty value) (key_value_parse_error line value_is_empty)
    >> ok (key, trim value)

-- `parseKeyValue(line)`, on the trimmed line.
unfoldable pub parse_trimmed : Str → Result (Str × Str)
unfolding cut_comment
parse_trimmed line = elim (find b'=' line) [
  | none ↦ err (key_value_parse_error line missing_equality_sign)
  | some pos ↦ split_at line pos
]

unfoldable pub parse_key_value : Str → Result (Str × Str)
unfolding parse_trimmed
parse_key_value line = parse_trimmed (trim line)
