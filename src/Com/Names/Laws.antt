-- ===== src/Com/Names/Laws.antt =====
-- Names of segments: when they are equal, and whether they fit the buffer.
use native.Mathlib.Nat.{pow-suc}
use rp_maksym_zaveriukha.Base.{
  ℕ, zero, suc, ◌+◌, ◌-◌, ◌*◌, ◌/◌, ◌%◌, ◌^◌, ◌≤◌, ◌<◌, ◌≡◌, ◌∙◌, sym, refl, ap, true, List, [],
  ◌∷◌, ◌++◌, arith, ltb, length, drop, length-append, Bool-cases, inl, inr, ==_refl,
}
use rp_maksym_zaveriukha.Com.{Name}
use rp_maksym_zaveriukha.Com.Names.{digits_of, own_name, fits_name, eq_name}

-- The number that digits stand for, read from the left.
unfoldable pub value_from : ℕ → List ℕ → ℕ
value_from acc [] = acc
value_from acc (c ∷ cs) = value_from (acc * 10 + (c - 48)) cs

value_from-append :
    (acc : ℕ) (xs ys : List ℕ) → value_from acc (xs ++ ys) ≡ value_from (value_from acc xs) ys
unfolding value_from
value_from-append acc [] ys = refl
value_from-append acc (x ∷ xs) ys = value_from-append (acc * 10 + (x - 48)) xs ys

pub value_from-digits_of : (f n : ℕ) → n < f → value_from 0 (digits_of f n) ≡ n
unfolding value_from digits_of
value_from-digits_of zero n h = absurd (omega arith)
value_from-digits_of (suc f) n h = elim (Bool-cases (ltb n 10)) [
  | inl small ↦ rw small (omega arith)
  | inr big ↦ rw big (
      value_from-append 0 (digits_of f (n / 10)) ((48 + n % 10) ∷ [])
      ∙ rw (value_from-digits_of f (n / 10) (ground arith)) (omega arith))
]

value-own_name : (pid : ℕ) → value_from 0 (drop 9 (own_name pid)) ≡ pid
unfolding own_name
value-own_name pid = value_from-digits_of (suc pid) pid (omega arith)

-- Two process ids that give the same segment name are equal.
pub own_name-injective : (p q : ℕ) → own_name p ≡ own_name q → p ≡ q
own_name-injective p q e =
    sym (value-own_name p) ∙ ap (λ name. value_from 0 (drop 9 name)) e ∙ value-own_name q

length-digits_of : (k f n : ℕ) → n < 10 ^ suc k → length (digits_of f n) ≤ suc k
unfolding digits_of
length-digits_of k zero n h = omega arith
length-digits_of zero (suc f) n h = ground arith
length-digits_of (suc k) (suc f) n h = elim (Bool-cases (ltb n 10)) [
  | inl small ↦ rw small (omega arith)
  | inr big ↦ rw big (
      omega (
        arith,
        length-append (digits_of f (n / 10)) ((48 + n % 10) ∷ []),
        length-digits_of k f (n / 10) (omega (arith, pow-suc 10 (suc k))),
      ))
]

-- The segment name of a process id below 2^63 fits the buffer of 128 bytes.
pub own_name-fits : (pid : ℕ) → pid < 2 ^ 63 → fits_name (own_name pid) ≡ true
unfolding own_name
own_name-fits pid h = ground (arith, length-digits_of 18 (suc pid) pid (omega arith))

pub eq_name_refl : (x : Name) → eq_name x x ≡ true
unfolding eq_name
eq_name_refl [] = refl
eq_name_refl (c ∷ cs) = rw (==_refl c, eq_name_refl cs)

pub eq_name→eq : (x y : Name) → eq_name x y ≡ true → x ≡ y
unfolding eq_name
eq_name→eq [] [] h = refl
eq_name→eq [] (d ∷ ds) h = cc
eq_name→eq (c ∷ cs) [] h = cc
eq_name→eq (c ∷ cs) (d ∷ ds) h = ground (arith, eq_name→eq cs ds)
