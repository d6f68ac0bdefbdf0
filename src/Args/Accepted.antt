-- ===== src/Args/Accepted.antt =====
-- What main accepts.
use rp_maksym_zaveriukha.Base.{
  ℕ, ◌^◌, ◌≤◌, ◌<◌, ◌≡◌, refl, List, [], ◌∷◌, Option, none, some, arith,
}
use rp_maksym_zaveriukha.Com.Names.{decimal}
use rp_maksym_zaveriukha.Args.{
  long_max, Config, parse_positive_long, parse_size_value, check_nr_proc, db_main, all_to_all_main,
}
use rp_maksym_zaveriukha.Args.Decimal.{parse_positive_long-decimal, parse_size_value-decimal}

-- The configurations that the benchmarks run with.
pub record IsAccepted (c : Config) : Type 0 where
  pub two : 2 ≤ c.nr_proc
  pub few : c.nr_proc ≤ 1024
  pub some_rounds : 0 < c.rounds
  pub rounds_fit : c.rounds < 2 ^ 63
  pub some_bytes : 0 < c.size
  pub size_fits : c.size < 2 ^ 64

parse_positive_long-pos :
    (text : List ℕ) (v : ℕ) → parse_positive_long text ≡ some v → (0 < v) × (v ≤ long_max)
unfolding parse_positive_long
parse_positive_long-pos text v h = ground arith

parse_size_value-pos :
    (text : List ℕ) (v : ℕ) → parse_size_value text ≡ some v → (0 < v) × (v < 2 ^ 64)
unfolding parse_size_value
parse_size_value-pos text v h = ground arith

accepted :
    (n r s : Option ℕ) {c : Config}
    → ((v : ℕ) → r ≡ some v → (0 < v) × (v ≤ long_max))
    → ((v : ℕ) → s ≡ some v → (0 < v) × (v < 2 ^ 64))
    → elim n [
      | none ↦ none
      | some n' ↦ elim r [
        | none ↦ none
        | some r' ↦ elim s [
          | none ↦ none
          | some s' ↦ check_nr_proc (record { nr_proc = n'; rounds = r'; size = s' })
        ]
      ]
    ]
      ≡ some c
    → IsAccepted c
accepted none r s hr hs h = cc
accepted (some n) none s hr hs h = cc
accepted (some n) (some r) none hr hs h = cc
accepted (some n) (some r) (some s) hr hs h = ground (arith, hr r refl, hs s refl)

-- Whatever the command line, the database benchmark goes on to com_initialize only with 2 to 1024
-- processes, a positive number of requests of less than 64 bits and a positive response size of at
-- most 64 bits.
pub db_main-IsAccepted : (args : List (List ℕ)) {c : Config} → db_main args ≡ some c → IsAccepted c
unfolding db_main
db_main-IsAccepted [] h = cc
db_main-IsAccepted (x ∷ []) h = cc
db_main-IsAccepted (x ∷ y ∷ []) h = cc
db_main-IsAccepted (x ∷ y ∷ z ∷ []) h =
    accepted (parse_positive_long x) (parse_positive_long y) (parse_size_value z)
      (parse_positive_long-pos y) (parse_size_value-pos z) h
db_main-IsAccepted (x ∷ y ∷ z ∷ u ∷ rest) h = cc

-- The same holds of rpBenchmark1, which reads the size before the number of rounds.
pub all_to_all_main-swap :
    (a b c : List ℕ) → all_to_all_main (a ∷ b ∷ c ∷ []) ≡ db_main (a ∷ c ∷ b ∷ [])
unfolding all_to_all_main db_main
all_to_all_main-swap a b c = ground arith

-- On 2 to 1024 processes, a positive number of requests below 2^63 and a positive size below 2^64,
-- all in decimal, the database benchmark starts with exactly these numbers.
pub db_main-decimal :
    (n r s : ℕ)
    → 2 ≤ n
    → n ≤ 1024
    → 0 < r
    → r < 2 ^ 63
    → 0 < s
    → s < 2 ^ 64
    → db_main (decimal n ∷ decimal r ∷ decimal s ∷ [])
      ≡ some (record { nr_proc = n; rounds = r; size = s })
unfolding db_main
db_main-decimal n r s two few pr fr ps fs = ground (
  arith,
  parse_positive_long-decimal n,
  parse_positive_long-decimal r,
  parse_size_value-decimal s ps fs,
)
