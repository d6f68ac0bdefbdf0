-- ===== src/Base/Family.antt =====
-- Families `ℕ → A`: an array of slots, of processes or of threads. Update at one index, and the
-- sum of a weight over the first `n` members, taken apart into one member and the rest.
use Prim.Native.Nat.{ℕ, zero, suc, ◌+◌, ◌*◌, ◌≤◌, ◌<◌}
use mathlib.Core.Path.{◌≡◌, refl}
use mathlib.Core.Logic.{◌≢◌, inl, inr}
use native.Mathlib.Omega.{arith}
use rp_maksym_zaveriukha.Base.Tests.{◌==◌, if◌then◌else◌, Bool-cases}

abbrev pub update {ℓ} : {A : Type ℓ} → (ℕ → A) → ℕ → A → ℕ → A
update f i a j = if i == j then a else f j

module _ {ℓ} {A : Type ℓ} (w : A → ℕ) where
  unfoldable pub total : (n : ℕ) (members : ℕ → A) → ℕ
  total zero members = 0
  total (suc k) members = w (members k) + total k members

  -- The sum without member `i`.
  rest : (i n : ℕ) (members : ℕ → A) → ℕ
  rest i zero members = 0
  rest i (suc k) members = (if i == k then 0 else w (members k)) + rest i k members

  rest-update : (i n : ℕ) (g : ℕ → A) (a : A) → rest i n (update g i a) ≡ rest i n g
  unfolding rest
  rest-update i zero g a = refl
  rest-update i (suc k) g a = ground (arith, rest-update i k g a)

  rest_of_le : (i n : ℕ) (g : ℕ → A) → n ≤ i → rest i n g ≡ total n g
  unfolding rest total
  rest_of_le i zero g h = refl
  rest_of_le i (suc k) g h = ground (arith, rest_of_le i k g)

  total-rest : (i n : ℕ) (g : ℕ → A) → i < n → total n g ≡ w (g i) + rest i n g
  unfolding rest total
  total-rest i zero g h = absurd (omega arith)
  total-rest i (suc k) g h = ground (arith, total-rest i k g, rest_of_le i k g)

  le-rest : (i j n : ℕ) (g : ℕ → A) → i ≢ j → j < n → w (g j) ≤ rest i n g
  unfolding rest
  le-rest i j zero g ne h = absurd (omega arith)
  le-rest i j (suc k) g ne h = ground (arith, le-rest i j k g ne)

  -- Members of the same weight have the same sum.
  pub total_ext : (n : ℕ) (g h : ℕ → A) → ((j : ℕ) → w (g j) ≡ w (h j)) → total n g ≡ total n h
  unfolding total
  total_ext zero g h same = refl
  total_ext (suc k) g h same = omega (arith, same k, total_ext k g h same)

  pub total-update :
      (n : ℕ) (g : ℕ → A) (i : ℕ) (a : A)
      → i < n
      → total n (update g i a) + w (g i) ≡ total n g + w a
  total-update n g i a h =
      ground (arith, total-rest i n g, total-rest i n (update g i a), rest-update i n g a)

  pub total-eq-zero : (n : ℕ) (g : ℕ → A) → ((j : ℕ) → j < n → w (g j) ≡ 0) → total n g ≡ 0
  unfolding total
  total-eq-zero zero g none_counts = refl
  total-eq-zero (suc k) g none_counts =
      omega (
        arith,
        none_counts k (omega arith),
        total-eq-zero k g (λ j lt. none_counts j (omega arith)),
      )

  -- One member is at most the sum, and so are two different ones together.
  pub le-total : (n : ℕ) (g : ℕ → A) (i : ℕ) → i < n → w (g i) ≤ total n g
  le-total n g i h = omega (arith, total-rest i n g h)

  pub add-le-total : (n : ℕ) (g : ℕ → A) (i j : ℕ) → i < j → j < n → w (g i) + w (g j) ≤ total n g
  add-le-total n g i j h k =
      omega (arith, total-rest i n g (omega arith), le-rest i j n g (omega arith) k)

  pub two-le-total :
      (n : ℕ) (g : ℕ → A) (i j : ℕ) → i < n → j < n → i ≢ j → w (g i) + w (g j) ≤ total n g
  two-le-total n g i j hi hj ne = omega (arith, total-rest i n g hi, le-rest i j n g ne hj)

  -- A sum that is not zero has a member that is not.
  pub total-pos : (n : ℕ) (g : ℕ → A) → 0 < total n g → (j : ℕ) × (j < n) × (0 < w (g j))
  unfolding total
  total-pos zero g h = absurd (omega arith)
  total-pos (suc k) g h = elim (Bool-cases (w (g k) == 0)) [
    | inl nothing ↦ let (j, lt, p) = total-pos k g (ground arith) in (j, omega arith, p)
    | inr something ↦ (k, omega arith, ground arith)
  ]

pub total_le {ℓ} :
    {A : Type ℓ} (v w : A → ℕ) (n : ℕ) (g : ℕ → A)
    → ((j : ℕ) → j < n → v (g j) ≤ w (g j))
    → total v n g ≤ total w n g
unfolding total
total_le v w zero g less = omega arith
total_le v w (suc k) g less =
    omega (arith, less k (omega arith), total_le v w k g (λ j lt. less j (omega arith)))

pub total-constant {ℓ} :
    {A : Type ℓ} (w : A → ℕ) (n c : ℕ) (g : ℕ → A)
    → ((j : ℕ) → j < n → w (g j) ≡ c)
    → total w n g ≡ n * c
unfolding total
total-constant w zero c g h = omega arith
total-constant w (suc k) c g h =
    omega (arith, h k (omega arith), total-constant w k c g (λ j lt. h j (omega arith)))
