-- ===== src/Stats/Exact.antt =====
-- The arithmetic that the statistics are compared with.
use rp_maksym_zaveriukha.Base.{ℕ, ◌+◌, ◌≡◌, ◌<◌, ◌≤◌}
use rp_maksym_zaveriukha.Stats.{Double, whole}

-- Arithmetic without rounding, as far as whole numbers up to `limit` go: a division by one of them can
-- be undone.
pub record IsExact {ℓ} (W : Type ℓ) ⦃d : Double W⦄ (limit : ℕ) : Type ℓ where
  pub plus_comm : (x y : W) → d.plus x y ≡ d.plus y x
  pub plus_assoc : (x y z : W) → d.plus (d.plus x y) z ≡ d.plus x (d.plus y z)
  pub plus_zero : (x : W) → d.plus (whole 0) x ≡ x
  pub minus-plus : (x y : W) → d.minus (d.plus x y) y ≡ x
  pub plus-minus : (x y : W) → d.plus (d.minus x y) y ≡ x
  pub times_comm : (x y : W) → d.times x y ≡ d.times y x
  pub times_assoc : (x y z : W) → d.times (d.times x y) z ≡ d.times x (d.times y z)
  pub times_one : (x : W) → d.times (whole 1) x ≡ x
  pub times_zero : (x : W) → d.times (whole 0) x ≡ whole 0
  pub times-plus : (x y z : W) → d.times x (d.plus y z) ≡ d.plus (d.times x y) (d.times x z)
  pub whole_suc : (k : ℕ) → whole (k + 1) ≡ d.plus (whole k) (whole 1)
  pub times-over : (k : ℕ) (x : W) → 0 < k → k ≤ limit → d.times (whole k) (d.over x (whole k)) ≡ x
