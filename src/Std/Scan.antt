-- ===== src/Std/Scan.antt =====
-- The scanners of the C library that the conversions from text use, on the bytes of a C string:
-- `strtoll` and `strtoull` with base 0, and `sscanf` with directives for numbers, characters and
-- white space. A number that does not fit the width of its `sscanf` conversion is narrowed, as the
-- library of the target machines does.
use mariadb_columnstore_api.Prelude.{
  ℕ, zero, suc, ◌+◌, ◌-◌, ◌*◌, ◌%◌, ◌^◌, min, ℤ, pos, negsuc, List, [], ◌∷◌, Bool, true, false,
  ◌&&◌, ◌||◌, ltb, leb, ◌==◌, if◌then◌else◌, length,
}

-- The bytes in front of the first NUL.
unfoldable pub until_nul : List ℕ → List ℕ
until_nul [] = []
until_nul (c ∷ s) = if c == 0 then [] else c ∷ until_nul s

-- `strstr(s, ".")`
unfoldable pub from_dot : List ℕ → List ℕ
from_dot [] = []
from_dot (c ∷ s) = if c == b'.' then c ∷ s else from_dot s

unfoldable pub is_space : ℕ → Bool
is_space c = (c == 32) || (leb 9 c && leb c 13)

unfoldable pub skip_space : List ℕ → List ℕ
unfolding is_space
skip_space [] = []
skip_space (c ∷ s) = if is_space c then skip_space s else c ∷ s

-- The value of a digit in a base up to 16; 99 is no digit.
unfoldable pub digit : ℕ → ℕ
digit c =
    if leb b'0' c && leb c b'9'
    then c - b'0'
    else if leb b'a' c && leb c b'f'
    then c - b'a' + 10
    else if leb b'A' c && leb c b'F'
    then c - b'A' + 10
    else 99

-- The number that the longest run of digits spells, added to `acc`, and what follows.
unfoldable pub run_of : ℕ → ℕ → List ℕ → ℕ × List ℕ
unfolding digit
run_of base acc [] = (acc, [])
run_of base acc (c ∷ s) =
    let rest = run_of base (acc * base + digit c) s in
    if ltb (digit c) base then rest else (acc, c ∷ s)

unfoldable pub starts_digit : ℕ → List ℕ → Bool
unfolding digit
starts_digit base [] = false
starts_digit base (c ∷ s) = ltb (digit c) base

-- An optional sign; `true` is minus.
unfoldable pub sign_of : List ℕ → Bool × List ℕ
sign_of [] = (false, [])
sign_of (c ∷ s) = if c == b'-' then (true, s) else if c == b'+' then (false, s) else (false, c ∷ s)

-- The base that a prefix selects, and the digits: 16 behind `0x`, 8 from a `0` on, 10 otherwise.
unfoldable pub base_of : List ℕ → ℕ × List ℕ
unfolding starts_digit
base_of [] = (10, [])
base_of (c ∷ []) = if c == b'0' then (8, c ∷ []) else (10, c ∷ [])
base_of (c ∷ x ∷ s) =
    if c == b'0'
    then (if ((x == b'x') || (x == b'X')) && starts_digit 16 s then (16, s) else (8, c ∷ x ∷ s))
    else (10, c ∷ x ∷ s)

-- What a scanner of one integer finds: the sign, the magnitude, and the rest of the text, where
-- `endptr` points. With no digits the rest is the whole text.
pub record Scanned : Type 0 where
  pub minus : Bool
  pub magnitude : ℕ
  pub rest : List ℕ

unfoldable pub scan_in_base : List ℕ → Bool → ℕ × List ℕ → Scanned
unfolding starts_digit run_of
scan_in_base whole minus (base, s) =
    let (n, rest) = run_of base 0 s in
    if starts_digit base s
    then record { minus = minus; magnitude = n; rest = rest }
    else record { minus = false; magnitude = 0; rest = whole }

unfoldable pub scan_base0 : List ℕ → Scanned
unfolding skip_space sign_of base_of scan_in_base
scan_base0 s = let (minus, t) = sign_of (skip_space s) in scan_in_base s minus (base_of t)

-- `strtoul(s, NULL, 10)`. A minus sign negates modulo 2 ^ 64.
unfoldable pub strtoul : List ℕ → ℕ
unfolding skip_space sign_of scan_in_base
strtoul s =
    let (minus, t) = sign_of (skip_space s) in
    let r = scan_in_base s minus (10, t) in
    if ltb (2 ^ 64 - 1) r.magnitude
    then 2 ^ 64 - 1
    else if r.minus
    then (2 ^ 64 - r.magnitude) % 2 ^ 64
    else r.magnitude

-- `strtoll(s, &tmp, 0)`: the value, `*tmp == '\0'`, and whether `errno` is set.
unfoldable pub strtoll : List ℕ → ℤ × Bool × Bool
unfolding scan_base0
strtoll s =
    let r = scan_base0 s in
    let at_end = length r.rest == 0 in
    if r.minus
    then (if ltb (2 ^ 63) r.magnitude
        then (negsuc (2 ^ 63 - 1), at_end, true)
        else if r.magnitude == 0
        then (pos 0, at_end, false)
        else (negsuc (r.magnitude - 1), at_end, false))
    else if ltb (2 ^ 63 - 1) r.magnitude
    then (pos (2 ^ 63 - 1), at_end, true)
    else (pos r.magnitude, at_end, false)

-- `strtoull(s, &tmp, 0)`. A minus sign negates modulo 2 ^ 64.
unfoldable pub strtoull : List ℕ → ℕ × Bool × Bool
unfolding scan_base0
strtoull s =
    let r = scan_base0 s in
    let at_end = length r.rest == 0 in
    if ltb (2 ^ 64 - 1) r.magnitude
    then (2 ^ 64 - 1, at_end, true)
    else if r.minus
    then ((2 ^ 64 - r.magnitude) % 2 ^ 64, at_end, false)
    else (r.magnitude, at_end, false)

-- A directive of a `sscanf` format: a number, a character, or a run of white space.
pub data Directive : Type 0 where
  number : Directive
  literal : ℕ → Directive
  blank : Directive

-- The outcome: the numbers read, as signs and magnitudes, and whether the input ended before the
-- first conversion, for which `sscanf` answers EOF.
pub record Fields : Type 0 where
  pub values : List (Bool × ℕ)
  pub at_eof : Bool

abbrev stop : Bool → Fields
stop e = record { values = []; at_eof = e }

abbrev push : Bool × ℕ → Fields → Fields
push v f = record { values = v ∷ f.values; at_eof = false }

-- One directive more, in front of the outcome of the others; `first` says that no number has been
-- read yet.
unfoldable pub sscanf_from : Bool → List Directive → List ℕ → Fields
unfolding skip_space sign_of starts_digit run_of
sscanf_from first [] s = stop false
sscanf_from first (blank ∷ ds) s = sscanf_from first ds (skip_space s)
sscanf_from first (literal c ∷ ds) [] = stop first
sscanf_from first (literal c ∷ ds) (x ∷ s) =
    let rest = sscanf_from first ds s in if x == c then rest else stop false
sscanf_from first (number ∷ ds) s =
    let t = skip_space s in
    let (minus, u) = sign_of t in
    let (n, v) = run_of 10 0 u in
    let rest = sscanf_from false ds v in
    if length t == 0
    then stop first
    else if starts_digit 10 u
    then push (minus, min n (2 ^ 64 - 1)) rest
    else stop false

unfoldable pub sscanf : List Directive → List ℕ → Fields
unfolding sscanf_from
sscanf = sscanf_from true

-- The count that `sscanf` returns.
unfoldable pub count_of : Fields → ℤ
count_of f = if f.at_eof then negsuc 0 else pos (length f.values)

-- The word of modulus `m` that the `i`-th number is stored as, and 0, which the fields start from,
-- where it was not read.
unfoldable pub field : ℕ → ℕ → List (Bool × ℕ) → ℕ
field m i [] = 0
field m zero ((minus, n) ∷ vs) = if minus then (2 ^ 64 - n) % m else n % m
field m (suc i) (v ∷ vs) = field m i vs
