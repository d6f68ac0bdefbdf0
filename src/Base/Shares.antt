-- ===== src/Base/Shares.antt =====
-- A sum split by a key, and what follows where the shares are at most 1.
use Prim.Native.Nat.{ℕ, zero, suc, ◌+◌, ◌-◌, ◌≤◌, ◌<◌}
use mathlib.Core.Path.{◌≡◌, refl, ap}
use mathlib.Core.Logic.{◌≢◌, inl, inr}
use native.Mathlib.Omega.{arith}
use native.Mathlib.Decide.{dec_lt}
use rp_maksym_zaveriukha.Base.Tests.{◌==◌, ltb, if◌then◌else◌, Bool-cases}
use rp_maksym_zaveriukha.Base.Family.{total, total-eq-zero}

-- The sum of `f` over the numbers below `m`.
abbrev pub below : (ℕ → ℕ) → ℕ → ℕ
below f m = total f m (λ r. r)

pub below_add : (a b : ℕ → ℕ) (m : ℕ) → below (λ r. a r + b r) m ≡ below a m + below b m
unfolding total
below_add a b zero = omega arith
below_add a b (suc m) = omega (arith, below_add a b m)

pub below_one : (x k m : ℕ) → below (λ r. if k == r then x else 0) m ≡ (if ltb k m then x else 0)
unfolding total
below_one x k zero = ground arith
below_one x k (suc m) = ground (arith, below_one x k m)

pub below_ext : (a b : ℕ → ℕ) (m : ℕ) → ((r : ℕ) → a r ≡ b r) → below a m ≡ below b m
unfolding total
below_ext a b zero same = refl
below_ext a b (suc m) same = omega (arith, same m, below_ext a b m same)

module _ {ℓ} {A : Type ℓ} (key w : A → ℕ) where
  -- The share of `r`.
  abbrev pub share : ℕ → A → ℕ
  share r a = if key a == r then w a else 0

  pub total-shares :
      (n m : ℕ) (g : ℕ → A)
      → ((j : ℕ) → j < n → key (g j) < m)
      → total w n g ≡ below (λ r. total (share r) n g) m
  unfolding total
  total-shares zero m g small = omega (arith, total-eq-zero (λ r. 0) m (λ r. r) (λ j lt. refl))
  total-shares (suc n) m g small = ground (
    arith,
    total-shares n m g (λ j lt. small j (omega arith)),
    below_add (λ r. share r (g n)) (λ r. total (share r) n g) m,
    below_one (w (g n)) (key (g n)) m,
    small n (omega arith),
  )

-- Where at most one member counts, the sum is at most 1.
pub total_le_one {ℓ} :
    {A : Type ℓ} (w : A → ℕ) (n : ℕ) (g : ℕ → A)
    → ((j : ℕ) → j < n → w (g j) ≤ 1)
    → ((i j : ℕ) → i < n → j < n → i ≢ j → 0 < w (g i) → w (g j) ≡ 0)
    → total w n g ≤ 1
unfolding total
total_le_one w zero g small apart = omega arith
total_le_one w (suc n) g small apart = elim (Bool-cases (w (g n) == 0)) [
  | inl nothing ↦ ground (
    arith,
    total_le_one w n g (λ j lt. small j (omega arith))
        (λ i j hi hj. apart i j (omega arith) (omega arith)),
  )
  | inr one ↦ omega (
    arith,
    small n (omega arith),
    total-eq-zero w n g
        (λ j lt. apart n j (omega arith) (omega arith) (omega arith) (ground arith)),
  )
]

-- `m` shares of at most 1 that make up `m` are 1 each.
below_bound : (f : ℕ → ℕ) (m : ℕ) → ((r : ℕ) → r < m → f r ≤ 1) → below f m ≤ m
unfolding total
below_bound f zero small = omega arith
below_bound f (suc m) small =
    omega (arith, small m (omega arith), below_bound f m (λ r lt. small r (omega arith)))

below_lack : (f : ℕ → ℕ) (m k : ℕ) → ((r : ℕ) → r < m → f r ≤ 1) → k < m → below f m + (1 - f k) ≤ m
unfolding total
below_lack f zero k small lt = absurd (omega arith)
below_lack f (suc m) k small lt = elim (dec_lt k m) [
  | yes lower ↦
      omega (arith, below_lack f m k (λ r h. small r (omega arith)) lower, small m (omega arith))
  | no top ↦
      let e : k ≡ m = omega arith in
      omega (arith, below_bound f m (λ r h. small r (omega arith)), small m (omega arith), ap f e)
]

pub full_shares :
    (f : ℕ → ℕ) (m k : ℕ) → ((r : ℕ) → r < m → f r ≤ 1) → k < m → m ≤ below f m → f k ≡ 1
full_shares f m k small lt all = omega (arith, below_lack f m k small lt, small k lt)
