-- ===== src/Config/Reader/Lines.antt =====
-- Errors carry the line on which the reader stops.
use allpix_fork.Base.{
  ℕ, ◌+◌, ◌≡◌, refl, ap, List, [], ◌∷◌, ◌++◌, ◌⊎◌, inl, inr, arith, none, Result-cases, Str, length,
  Result, ok, err, ◌>>=◌, Error, config_parse_error, out_of_range,
}
use allpix_fork.Text.{trim}
use allpix_fork.Config.{new}
use allpix_fork.Config.Reader.{
  ConfigReader, Reading, read_trimmed, read_line, read_lines, lines, close_last, add_named,
  scan_header, line_error, setting_line,
}
use allpix_fork.Config.Reader.Line.{parse_key_value}

setting-err :
    (f : Str) (n : ℕ) (line : Str) (e : Error)
    → parse_key_value line ≡ err e
    → line_error {A = Str × Str} f n e ≡ err (config_parse_error f n)
unfolding parse_key_value
setting-err f n line e h = ground arith

setting_line-err :
    (f : Str) (s : Reading) (line : Str) (e : Error)
    → setting_line f s line ≡ err e
    → e ≡ config_parse_error f s.line_num
setting_line-err f s line e h = elim (Result-cases (parse_key_value line)) [
  | inl (p, k) ↦ absurd (ground arith)
  | inr (x, k) ↦ ground (arith, setting-err f s.line_num line x k)
]

-- A lone bracket: the only line whose error is not a parse error.
abbrev pub bracket : Str
bracket = b'[' ∷ []

scan_header-none : (line : Str) → scan_header line ≡ none → line ≡ []
unfolding scan_header
scan_header-none [] h = refl
scan_header-none (c ∷ []) h = cc
scan_header-none (c ∷ d ∷ s) h = ground (arith, scan_header-none (d ∷ s))

read_trimmed-err :
    (f : Str) (s : Reading) (line : Str) (e : Error)
    → read_trimmed f s line ≡ err e
    → (e ≡ config_parse_error f s.line_num) ⊎ ((e ≡ out_of_range) × (line ≡ bracket))
unfolding read_trimmed
read_trimmed-err f s [] e h = cc
read_trimmed-err f s (c ∷ line) e h =
    ground (arith, setting_line-err f s (c ∷ line) e, scan_header-none line)

read_line-num :
    (f : Str) (s t : Reading) (line : Str) → read_line f s line ≡ ok t → t.line_num ≡ s.line_num + 1
unfolding read_line
read_line-num f s t line h = of_trimmed (trim line) h
  where
    of_trimmed :
        (l : Str)
        → read_trimmed f (record s { line_num = s.line_num + 1 }) l ≡ ok t
        → t.line_num ≡ s.line_num + 1
    of_trimmed [] h = ground arith
    of_trimmed (c ∷ l) h = ground arith

-- Where reading stops: the lines before, which were read, and the line that is refused.
pub record StopsAt (f : Str) (s : Reading) (ls : List Str) (e : Error) : Type 0 where
  pub read : List Str
  pub refused : Str
  pub rest : List Str
  pub state : Reading
  pub splits : ls ≡ read ++ (refused ∷ rest)
  pub reads : read_lines f s read ≡ ok state
  pub refuses : read_line f state refused ≡ err e
  pub error :
      (e ≡ config_parse_error f (s.line_num + length read + 1))
      ⊎ ((e ≡ out_of_range) × (trim refused ≡ bracket))

StopsAt-here :
    (f : Str) (s : Reading) (l : Str) (ls : List Str) (e : Error)
    → read_line f s l ≡ err e
    → StopsAt f s (l ∷ ls) e
StopsAt-here f s l ls e h = record {
  read = [];
  refused = l;
  rest = ls;
  state = s;
  splits = refl;
  reads = unfold read_lines in refl;
  refuses = h;
  error = ground (
    arith,
    read_trimmed-err f (record s { line_num = s.line_num + 1 }) (trim l) e (unfold read_line in h),
  );
}

StopsAt-cons :
    (f : Str) (s t : Reading) (l : Str) (ls : List Str) (e : Error)
    → read_line f s l ≡ ok t
    → StopsAt f t ls e
    → StopsAt f s (l ∷ ls) e
StopsAt-cons f s t l ls e h v = record {
  read = l ∷ v.read;
  refused = v.refused;
  rest = v.rest;
  state = v.state;
  splits = ap (◌∷◌ l) v.splits;
  reads = unfold read_lines in rw (h, read_lines) v.reads;
  refuses = v.refuses;
  error = ground (arith, v.error, read_line-num f s t l h);
}

read_lines-StopsAt :
    (f : Str) (ls : List Str) (s : Reading) (e : Error)
    → read_lines f s ls ≡ err e
    → StopsAt f s ls e
unfolding read_lines
read_lines-StopsAt f [] s e h = cc
read_lines-StopsAt f (l ∷ ls) s e h = elim (Result-cases (read_line f s l)) [
  | inl (t, k) ↦ StopsAt-cons f s t l ls e k (read_lines-StopsAt f ls t e (rw (k, read_lines) at h))
  | inr (x, k) ↦ StopsAt-here f s l ls e (ground arith)
]

close-err : (m : Result Reading) (e : Error) → (m >>= close_last) ≡ err e → m ≡ err e
close-err (ok s) e h = cc
close-err (err x) e h = ground arith

-- A text that is not read is refused at one line: the lines before it are read, this line, in the state
-- behind them, is refused with the error, and the error has the number of the line in the text, blank
-- lines and comments counted, unless the line is a lone bracket.
pub add_named-StopsAt :
    (r : ConfigReader) (stream f : Str) (e : Error)
    → add_named r stream f ≡ err e
    → StopsAt f (record { reader = r; conf = new [] f; line_num = 0 }) (lines stream) e
unfolding add_named
add_named-StopsAt r stream f e h =
    read_lines-StopsAt f (lines stream) (record { reader = r; conf = new [] f; line_num = 0 }) e
      (close-err _ e h)

-- A line that is a lone bracket is refused with an error that is no parse error and has no line.
pub lone_bracket :
    (f : Str) (s : Reading) (line : Str) (ls : List Str)
    → trim line ≡ bracket
    → read_lines f s (line ∷ ls) ≡ err out_of_range
unfolding read_lines scan_header
lone_bracket f s line ls h = rw h refl
