-- ===== src/Args.antt =====
-- The command line of both benchmarks (main, parse_positive_long and parse_size_value in
-- rpBenchmark1/main.c and rpBenchmark2/main.c), with the C library's strtol and strtoull. A text is
-- the list of its bytes before the NUL.
pub mod Decimal
pub mod Accepted
use rp_maksym_zaveriukha.Base.{
  ℕ, zero, suc, ◌+◌, ◌-◌, ◌*◌, ◌%◌, ◌^◌, ◌==◌, ltb, leb, not, ◌&&◌, ◌||◌, Bool, true, false, List,
  [], ◌∷◌, Option, none, some, if◌then◌else◌,
}

abbrev pub long_max : ℕ
long_max = 2 ^ 63 - 1

abbrev pub ullong_max : ℕ
ullong_max = 2 ^ 64 - 1

-- `isspace` in the C locale.
abbrev pub is_space : ℕ → Bool
is_space c = (c == 32) || (leb 9 c && leb c 13)

abbrev pub is_digit : ℕ → Bool
is_digit c = leb 48 c && leb c 57

pub skip_space : List ℕ → List ℕ
skip_space [] = []
skip_space (c ∷ cs) = let rest = skip_space cs in if is_space c then rest else c ∷ cs

-- The digits at the front of a text: their value, and what follows.
pub scan_digits : ℕ → List ℕ → ℕ × List ℕ
scan_digits acc [] = (acc, [])
scan_digits acc (c ∷ cs) =
    let rest = scan_digits (acc * 10 + (c - 48)) cs in if is_digit c then rest else (acc, c ∷ cs)

-- A number as it stands in a text: whether there is a minus sign, the value of the digits, and what
-- follows. `none` where there is no digit: then `end` is the start of the text and the value is 0.
pub record Numeral : Type 0 where
  pub negative : Bool
  pub value : ℕ
  pub rest : List ℕ

pub unsigned : Bool → List ℕ → Option Numeral
unsigned negative [] = none
unsigned negative (c ∷ cs) =
    if is_digit c
    then some (record {
      negative = negative;
      value = (scan_digits 0 (c ∷ cs)).0;
      rest = (scan_digits 0 (c ∷ cs)).1;
    })
    else none

pub signed : List ℕ → Option Numeral
signed [] = none
signed (c ∷ cs) =
    if c == b'-'
    then unsigned true cs
    else if c == b'+'
    then unsigned false cs
    else unsigned false (c ∷ cs)

unfoldable pub numeral : List ℕ → Option Numeral
unfolding skip_space scan_digits unsigned signed
numeral text = signed (skip_space text)

abbrev pub is_empty : List ℕ → Bool
is_empty [] = true
is_empty (c ∷ cs) = false

-- strtol: a value outside the range of `long` is replaced by the nearest one in it. Only whether it
-- is positive, and its value then, are asked for: `none` is a value that is not positive.
abbrev pub strtol : Numeral → Option ℕ
strtol n =
    if n.negative || (n.value == 0)
    then none
    else if ltb long_max n.value
    then some long_max
    else some n.value

-- strtoull: a value above the range is replaced by the largest one, and a minus sign negates modulo
-- 2^64.
abbrev pub strtoull : Numeral → ℕ
strtoull n =
    if ltb ullong_max n.value
    then ullong_max
    else if n.negative
    then (2 ^ 64 - n.value) % 2 ^ 64
    else n.value

-- `none` is the exit with "Invalid …".
unfoldable pub parse_positive_long : List ℕ → Option ℕ
parse_positive_long text = elim (numeral text) [
  | none ↦ none
  | some n ↦ if is_empty n.rest then strtol n else none
]

unfoldable pub parse_size_value : List ℕ → Option ℕ
parse_size_value text = elim (numeral text) [
  | none ↦ none
  | some n ↦ if is_empty n.rest && not (strtoull n == 0) then some (strtoull n) else none
]

-- The arguments of a benchmark: for rpBenchmark1 `size` is the second and `rounds` the third, for
-- rpBenchmark2 the other way round.
pub record Config : Type 0 where
  pub nr_proc : ℕ
  pub rounds : ℕ
  pub size : ℕ

abbrev pub check_nr_proc : Config → Option Config
check_nr_proc c = if ltb c.nr_proc 2 then none else if ltb 1024 c.nr_proc then none else some c

-- The start of rpBenchmark2's main, up to com_initialize, on the arguments after the program's name;
-- `none` is an exit with a message.
unfoldable pub db_main : List (List ℕ) → Option Config
db_main (a ∷ b ∷ c ∷ []) = elim (parse_positive_long a) [
  | none ↦ none
  | some n ↦ elim (parse_positive_long b) [
    | none ↦ none
    | some r ↦ elim (parse_size_value c) [
      | none ↦ none
      | some s ↦ check_nr_proc (record { nr_proc = n; rounds = r; size = s })
    ]
  ]
]
db_main _ = none

-- The start of rpBenchmark1's main.
unfoldable pub all_to_all_main : List (List ℕ) → Option Config
all_to_all_main (a ∷ b ∷ c ∷ []) = elim (parse_positive_long a) [
  | none ↦ none
  | some n ↦ elim (parse_size_value b) [
    | none ↦ none
    | some s ↦ elim (parse_positive_long c) [
      | none ↦ none
      | some r ↦ check_nr_proc (record { nr_proc = n; rounds = r; size = s })
    ]
  ]
]
all_to_all_main _ = none
