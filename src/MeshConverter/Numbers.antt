-- ===== src/MeshConverter/Numbers.antt =====
-- tools/mesh_converter/parsers/DFISEParser.cpp: the integers that `sstr >> n` reads from a line, and
-- `std::stoul`.
--
-- A read skips whitespace and takes a sign and digits. After the first read that fails every later one
-- fails too, and leaves its variable as it is.
use allpix_fork.Base.{
  ℕ, zero, suc, ◌+◌, ◌-◌, ◌*◌, ◌%◌, ◌^◌, Bool, true, false, List, [], ◌∷◌, Str, is_digit, is_space,
  leb, ltb, ◌==◌, if◌then◌else◌, Result, ok, err, invalid_argument, out_of_range,
  conversion_not_possible,
}
use allpix_fork.Base.Int.{ℤ, pos, negsuc}

-- What has been read of a number: nothing, a sign, or a sign and digits. After `stop` no read succeeds.
pub data Mode : Type 0 where
  blank stop : Mode
  signed : Bool → Mode
  digits : Bool → ℕ → Mode

abbrev begin : ℕ → Mode
begin c =
    if is_space c
    then blank
    else if c == b'-'
    then signed true
    else if c == b'+'
    then signed false
    else if is_digit c
    then digits false (c - b'0')
    else stop

abbrev digit_value : ℕ → ℕ
digit_value c = c - b'0'

unfoldable pub next_mode : Mode → ℕ → Mode
unfolding is_space is_digit
next_mode blank c = begin c
next_mode stop c = stop
next_mode (signed negative) c = if is_digit c then digits negative (digit_value c) else stop
next_mode (digits negative n) c =
    if is_digit c then digits negative (n * 10 + digit_value c) else begin c

-- A number ends at the first byte that is no digit.
unfoldable pub ended : Mode → ℕ → List (Bool × ℕ) → List (Bool × ℕ)
unfolding is_digit
ended (digits negative n) c rest = if is_digit c then rest else (negative, n) ∷ rest
ended _ c rest = rest

-- The numbers of a text up to the first read that fails, each with whether it is negative.
unfoldable pub numbers : Mode → Str → List (Bool × ℕ)
unfolding next_mode ended
numbers (digits negative n) [] = (negative, n) ∷ []
numbers _ [] = []
numbers mode (c ∷ s) = ended mode c (numbers (next_mode mode c) s)

-- The values that are read, and the value that the first failing read gives its variable, which is zero
-- before: a number beyond the range of the type is cut to it, and anything else leaves zero.
pub record Stream (A : Type 0) : Type 0 where
  pub read : List A
  pub failed : A

abbrev more : {A : Type 0} → A → Stream A → Stream A
more a s = record s { read = a ∷ s.read }

abbrev last : {A : Type 0} → A → Stream A
last a = record { read = []; failed = a }

-- `unsigned long` and `size_t`, where a negative number wraps.
unfoldable pub unsigned_stream : List (Bool × ℕ) → Stream ℕ
unsigned_stream [] = last 0
unsigned_stream ((negative, n) ∷ rest) =
    let later = unsigned_stream rest in
    if leb (2 ^ 64) n
    then last (2 ^ 64 - 1)
    else more (if negative then (2 ^ 64 - n) % 2 ^ 64 else n) later

-- `-n`.
abbrev minus : ℕ → ℤ
minus zero = pos 0
minus (suc n) = negsuc n

-- `long`.
unfoldable pub signed_stream : List (Bool × ℕ) → Stream ℤ
signed_stream [] = last (pos 0)
signed_stream ((negative, n) ∷ rest) =
    let later = signed_stream rest in
    if negative
    then (if ltb (2 ^ 63) n then last (negsuc (2 ^ 63 - 1)) else more (minus n) later)
    else if leb (2 ^ 63) n
    then last (pos (2 ^ 63 - 1))
    else more (pos n) later

unfoldable pub read_unsigned : Str → Stream ℕ
unfolding numbers unsigned_stream
read_unsigned line = unsigned_stream (numbers blank line)

unfoldable pub read_signed : Str → Stream ℤ
unfolding numbers signed_stream
read_signed line = signed_stream (numbers blank line)

-- One read: the value of the variable, which was zero, and the stream afterwards.
abbrev take_value : {A : Type 0} → A → A → List A → A × Stream A
take_value nought failed (a ∷ as') = (a, record { read = as'; failed = failed })
take_value nought failed [] = (failed, last nought)

unfoldable pub next_value : {A : Type 0} → A → Stream A → A × Stream A
next_value nought s = take_value nought s.failed s.read

-- A `size_t` and then values of type `long` from one line.
abbrev counted_values : List (Bool × ℕ) → ℕ × Stream ℤ
counted_values [] = (0, last (pos 0))
counted_values ((negative, n) ∷ rest) =
    if leb (2 ^ 64) n
    then (2 ^ 64 - 1, last (pos 0))
    else (if negative then (2 ^ 64 - n) % 2 ^ 64 else n, signed_stream rest)

unfoldable pub read_counted : Str → ℕ × Stream ℤ
unfolding numbers signed_stream
read_counted line = counted_values (numbers blank line)

abbrev first_number : List (Bool × ℕ) → Result ℕ
first_number [] = err (invalid_argument conversion_not_possible)
first_number ((negative, n) ∷ rest) =
    if leb (2 ^ 64) n then err out_of_range else ok (if negative then (2 ^ 64 - n) % 2 ^ 64 else n)

-- `std::stoul`.
unfoldable pub stoul : Str → Result ℕ
unfolding numbers
stoul s = first_number (numbers blank s)
