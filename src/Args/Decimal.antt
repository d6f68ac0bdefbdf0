-- ===== src/Args/Decimal.antt =====
-- What the parsers make of a number in decimal, with and without a minus sign.
use rp_maksym_zaveriukha.Base.{
  ℕ, zero, suc, ◌+◌, ◌-◌, ◌*◌, ◌/◌, ◌%◌, ◌^◌, ◌<◌, ◌≡◌, ◌≢◌, ◌∙◌, refl, ap, ◌==◌, ltb, Bool, true,
  false, List, [], ◌∷◌, ◌++◌, none, some, arith, Bool-cases, inl, inr, if◌then◌else◌,
}
use rp_maksym_zaveriukha.Com.Names.{digits_of, decimal}
use rp_maksym_zaveriukha.Com.Names.Laws.{value_from, value_from-digits_of}
use rp_maksym_zaveriukha.Args.{
  long_max, is_digit, skip_space, scan_digits, unsigned, signed, numeral, parse_positive_long,
  parse_size_value,
}

abbrev AllDigits : List ℕ → Type 0
AllDigits [] = Unit
AllDigits (c ∷ cs) = (is_digit c ≡ true) × AllDigits cs

AllDigits-append : (xs ys : List ℕ) → AllDigits xs → AllDigits ys → AllDigits (xs ++ ys)
AllDigits-append [] ys h k = k
AllDigits-append (x ∷ xs) ys h k = (h.0, AllDigits-append xs ys h.1 k)

AllDigits-digits_of : (f n : ℕ) → AllDigits (digits_of f n)
unfolding digits_of
AllDigits-digits_of zero n = tt
AllDigits-digits_of (suc f) n = elim (Bool-cases (ltb n 10)) [
  | inl small ↦ rw small (ground arith, tt)
  | inr big ↦ rw big (
      AllDigits-append (digits_of f (n / 10)) ((48 + n % 10) ∷ []) (AllDigits-digits_of f (n / 10))
        (ground arith, tt))
]

scan_digits-AllDigits :
    (acc : ℕ) (ds : List ℕ) → AllDigits ds → scan_digits acc ds ≡ (value_from acc ds, [])
unfolding scan_digits value_from
scan_digits-AllDigits acc [] h = refl
scan_digits-AllDigits acc (d ∷ ds) h = rw (h.0) (scan_digits-AllDigits (acc * 10 + (d - 48)) ds h.1)

-- A nonempty list of digits is read as a whole.
unsigned-AllDigits :
    (negative : Bool) (ds : List ℕ)
    → AllDigits ds
    → ds ≢ []
    → unsigned negative ds
      ≡ some (record { negative = negative; value = value_from 0 ds; rest = [] })
unfolding unsigned
unsigned-AllDigits negative [] h ne = absurd (ne refl)
unsigned-AllDigits negative (d ∷ ds) h ne = ground (arith, scan_digits-AllDigits 0 (d ∷ ds) h)

append-ne-nil : (xs : List ℕ) (y : ℕ) → xs ++ (y ∷ []) ≢ []
append-ne-nil [] y h = cc
append-ne-nil (x ∷ xs) y h = cc

digits_of-ne-nil : (f n : ℕ) → digits_of (suc f) n ≢ []
unfolding digits_of
digits_of-ne-nil f n = elim (Bool-cases (ltb n 10)) [
  | inl small ↦ rw small (λ h. cc)
  | inr big ↦ rw big (append-ne-nil (digits_of f (n / 10)) (48 + n % 10))
]

unsigned-decimal :
    (negative : Bool) (n : ℕ)
    → unsigned negative (decimal n) ≡ some (record { negative = negative; value = n; rest = [] })
unfolding decimal
unsigned-decimal negative n =
    unsigned-AllDigits negative (digits_of (suc n) n) (AllDigits-digits_of (suc n) n)
      (digits_of-ne-nil n n)
    ∙ ap (λ v. some (record { negative = negative; value = v; rest = [] }))
        (value_from-digits_of (suc n) n (omega arith))

skip_space-AllDigits : (ds : List ℕ) → AllDigits ds → skip_space ds ≡ ds
unfolding skip_space
skip_space-AllDigits [] h = refl
skip_space-AllDigits (d ∷ ds) h = ground arith

signed-AllDigits : (ds : List ℕ) → AllDigits ds → signed ds ≡ unsigned false ds
unfolding signed unsigned
signed-AllDigits [] h = refl
signed-AllDigits (d ∷ ds) h = ground arith

decimal-AllDigits : (n : ℕ) → AllDigits (decimal n)
unfolding decimal
decimal-AllDigits n = AllDigits-digits_of (suc n) n

numeral-decimal :
    (n : ℕ) → numeral (decimal n) ≡ some (record { negative = false; value = n; rest = [] })
unfolding numeral
numeral-decimal n =
    rw (skip_space-AllDigits (decimal n) (decimal-AllDigits n))
      (signed-AllDigits (decimal n) (decimal-AllDigits n) ∙ unsigned-decimal false n)

numeral-minus :
    (n : ℕ) → numeral (b'-' ∷ decimal n) ≡ some (record { negative = true; value = n; rest = [] })
unfolding numeral
numeral-minus n = unsigned-decimal true n

-- parse_positive_long on a number in decimal: refused if it is 0, LONG_MAX if it is larger than
-- that, else the number; with a minus sign before it, refused.
pub parse_positive_long-decimal :
    (n : ℕ)
    → (parse_positive_long (decimal n)
        ≡ (if n == 0 then none else if ltb long_max n then some long_max else some n))
      × (parse_positive_long (b'-' ∷ decimal n) ≡ none)
unfolding parse_positive_long
parse_positive_long-decimal n = (ground (arith, numeral-decimal n), ground (arith, numeral-minus n))

-- parse_size_value on a positive number of at most 64 bits in decimal gives the number; with a
-- minus sign before it, it gives 2^64 less the number.
pub parse_size_value-decimal :
    (n : ℕ)
    → 0 < n
    → n < 2 ^ 64
    → (parse_size_value (decimal n) ≡ some n)
      × (parse_size_value (b'-' ∷ decimal n) ≡ some (2 ^ 64 - n))
unfolding parse_size_value
parse_size_value-decimal n pos h =
    (ground (arith, numeral-decimal n), ground (arith, numeral-minus n))
