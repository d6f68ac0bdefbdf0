-- ===== src/Stats/Welford.antt =====
-- The running mean and sum of squares are those of all samples, where the arithmetic does not round.
use mathlib.Core.Path.{subst}
use rp_maksym_zaveriukha.Base.{
  ℕ, ◌+◌, ◌-◌, ◌≡◌, ◌≤◌, List, [], ◌∷◌, length, arith, refl, sym, ◌∙◌, ap, ltb, false,
}
use rp_maksym_zaveriukha.Stats.Exact.{IsExact}
use rp_maksym_zaveriukha.Stats.{
  Double, WelfordStats, whole, welford_init, welford_update, welford_sample_variance, latency_stats,
}

module _ {ℓ} {W : Type ℓ} ⦃d : Double W⦄ (limit : ℕ) (exact : IsExact W limit) where
  infixl 70 ◌⊗◌
  infixl 60 ◌⊕◌
  abbrev ◌⊕◌ : W → W → W
  x ⊕ y = d.plus x y

  abbrev ◌⊗◌ : W → W → W
  x ⊗ y = d.times x y

  times-plus-left : (x y z : W) → (x ⊕ y) ⊗ z ≡ x ⊗ z ⊕ y ⊗ z
  times-plus-left x y z =
      rw
        (
          exact.times_comm (x ⊕ y) z,
          exact.times-plus z x y,
          exact.times_comm z x,
          exact.times_comm z y,
        )
        refl

  cancel : (x y z : W) → x ⊕ z ≡ y ⊕ z → x ≡ y
  cancel x y z h = sym (exact.minus-plus x z) ∙ ap (λ v. d.minus v z) h ∙ exact.minus-plus y z

  shuffle : (s a q b c : W) → (s ⊕ a) ⊕ ((q ⊕ b) ⊕ c) ≡ (s ⊕ q) ⊕ (c ⊕ (b ⊕ a))
  shuffle s a q b c =
      exact.plus_assoc s a ((q ⊕ b) ⊕ c)
      ∙ ap (λ v. s ⊕ v)
          (exact.plus_comm a ((q ⊕ b) ⊕ c)
            ∙ exact.plus_assoc (q ⊕ b) c a
            ∙ exact.plus_assoc q b (c ⊕ a)
            ∙ ap (λ v. q ⊕ v)
                (exact.plus_comm b (c ⊕ a)
                  ∙ exact.plus_assoc c a b
                  ∙ ap (λ v. c ⊕ v) (exact.plus_comm a b)))
      ∙ sym (exact.plus_assoc s q (c ⊕ (b ⊕ a)))

  -- The statistics of `k` samples with this sum and sum of squares.
  record Holds (k : ℕ) (sum squares : W) (s : WelfordStats W) : Type ℓ where
    count : s.n ≡ k
    mean : whole k ⊗ s.mean ≡ sum
    m2 : s.m2 ⊕ whole k ⊗ (s.mean ⊗ s.mean) ≡ squares

  module _ (k : ℕ) (bound : k + 1 ≤ limit) (m x : W) where
    -- The names of welford_update, and the quotient that it adds to the mean.
    abbrev delta : W
    delta = d.minus x m

    abbrev quotient : W
    quotient = d.over delta (whole (k + 1))

    abbrev mean' : W
    mean' = m ⊕ quotient

    abbrev delta2 : W
    delta2 = d.minus x mean'

    undone : whole (k + 1) ⊗ quotient ≡ delta
    undone = exact.times-over (k + 1) delta (omega arith) bound

    next_times : (y : W) → whole (k + 1) ⊗ y ≡ whole k ⊗ y ⊕ y
    next_times y =
        rw (exact.whole_suc k, times-plus-left (whole k) (whole 1) y, exact.times_one y) refl

    split : delta ≡ delta2 ⊕ quotient
    split = ap (λ v. d.minus v m) (sym together) ∙ exact.minus-plus (delta2 ⊕ quotient) m
      where
        together : (delta2 ⊕ quotient) ⊕ m ≡ x
        together =
            exact.plus_assoc delta2 quotient m
            ∙ ap (λ v. delta2 ⊕ v) (exact.plus_comm quotient m)
            ∙ exact.plus-minus x mean'

    old_share : whole k ⊗ quotient ≡ delta2
    old_share =
        cancel (whole k ⊗ quotient) delta2 quotient (sym (next_times quotient) ∙ undone ∙ split)

    new_sum : whole (k + 1) ⊗ mean' ≡ whole k ⊗ m ⊕ x
    new_sum =
        exact.times-plus (whole (k + 1)) m quotient
        ∙ ap (λ v. v ⊕ whole (k + 1) ⊗ quotient) (next_times m)
        ∙ ap (λ v. (whole k ⊗ m ⊕ m) ⊕ v) undone
        ∙ exact.plus_assoc (whole k ⊗ m) m delta
        ∙ ap (λ v. whole k ⊗ m ⊕ v) (exact.plus_comm m delta ∙ exact.plus-minus x m)

    -- The square of a sample.
    square : x ⊗ x ≡ x ⊗ mean' ⊕ (m ⊗ delta2 ⊕ delta ⊗ delta2)
    square =
        ap (λ v. x ⊗ v) (sym (exact.plus_comm mean' delta2 ∙ exact.plus-minus x mean'))
        ∙ exact.times-plus x mean' delta2
        ∙ ap (λ v. x ⊗ mean' ⊕ v)
            (ap (λ v. v ⊗ delta2) (sym (exact.plus_comm m delta ∙ exact.plus-minus x m))
              ∙ times-plus-left m delta delta2)

    new_square : whole (k + 1) ⊗ (mean' ⊗ mean') ≡ (whole k ⊗ (m ⊗ m) ⊕ m ⊗ delta2) ⊕ x ⊗ mean'
    new_square =
        sym (exact.times_assoc (whole (k + 1)) mean' mean')
        ∙ ap (λ v. v ⊗ mean') new_sum
        ∙ times-plus-left (whole k ⊗ m) x mean'
        ∙ ap (λ v. v ⊕ x ⊗ mean')
            (exact.times-plus (whole k ⊗ m) m quotient
              ∙ ap (λ v. v ⊕ (whole k ⊗ m) ⊗ quotient) (exact.times_assoc (whole k) m m)
              ∙ ap (λ v. whole k ⊗ (m ⊗ m) ⊕ v) moved)
      where
        moved : (whole k ⊗ m) ⊗ quotient ≡ m ⊗ delta2
        moved =
            ap (λ v. v ⊗ quotient) (exact.times_comm (whole k) m)
            ∙ exact.times_assoc m (whole k) quotient
            ∙ ap (λ v. m ⊗ v) old_share

    new_m2 :
        (v : W)
        → (v ⊕ delta ⊗ delta2) ⊕ whole (k + 1) ⊗ (mean' ⊗ mean') ≡ (v ⊕ whole k ⊗ (m ⊗ m)) ⊕ x ⊗ x
    new_m2 v =
        ap (λ u. (v ⊕ delta ⊗ delta2) ⊕ u) new_square
        ∙ shuffle v (delta ⊗ delta2) (whole k ⊗ (m ⊗ m)) (m ⊗ delta2) (x ⊗ mean')
        ∙ ap (λ u. (v ⊕ whole k ⊗ (m ⊗ m)) ⊕ u) (sym square)

  update-Holds :
      (k : ℕ) (sum squares x : W) (s : WelfordStats W)
      → k + 1 ≤ limit
      → Holds k sum squares s
      → Holds (k + 1) (sum ⊕ x) (squares ⊕ x ⊗ x) (welford_update s x)
  update-Holds k sum squares x s bound h = record {
    count = ap (λ v. v + 1) h.count;
    mean = rw (h.count) (new_sum k bound s.mean x ∙ ap (λ v. v ⊕ x) h.mean);
    m2 = rw (h.count) (new_m2 k bound s.mean x s.m2 ∙ ap (λ v. v ⊕ x ⊗ x) h.m2);
  }

  -- The sums of a list, from the left.
  pub sum_from : W → List W → W
  sum_from a [] = a
  sum_from a (x ∷ xs) = sum_from (a ⊕ x) xs

  pub squares_from : W → List W → W
  squares_from a [] = a
  squares_from a (x ∷ xs) = squares_from (a ⊕ x ⊗ x) xs

  all-Holds :
      (xs : List W) (k : ℕ) (sum squares : W) (s : WelfordStats W)
      → k + length xs ≤ limit
      → Holds k sum squares s
      → Holds (k + length xs) (sum_from sum xs) (squares_from squares xs) (latency_stats s xs)
  unfolding sum_from squares_from latency_stats
  all-Holds [] k sum squares s bound h = subst (λ v. Holds v sum squares s) (omega arith) h
  all-Holds (x ∷ xs) k sum squares s bound h =
      subst
        (λ v.
          Holds v (sum_from (sum ⊕ x) xs) (squares_from (squares ⊕ x ⊗ x) xs)
            (latency_stats (welford_update s x) xs))
        (omega arith)
        (all-Holds xs (k + 1) (sum ⊕ x) (squares ⊕ x ⊗ x) (welford_update s x)
          (omega (arith, bound)) (update-Holds k sum squares x s (omega (arith, bound)) h))

  init-Holds : Holds 0 (whole 0) (whole 0) welford_init
  init-Holds = record {
    count = refl;
    mean = exact.times_zero (whole 0);
    m2 = exact.plus_zero (whole 0 ⊗ (whole 0 ⊗ whole 0)) ∙ exact.times_zero (whole 0 ⊗ whole 0);
  }

  variance_lem :
      (k : ℕ) (sum squares : W) (s : WelfordStats W)
      → 2 ≤ k
      → k ≤ limit
      → Holds k sum squares s
      → whole (k - 1) ⊗ welford_sample_variance s ⊕ whole k ⊗ (s.mean ⊗ s.mean) ≡ squares
  variance_lem k sum squares s two bound h =
      ap (λ v. v ⊕ whole k ⊗ (s.mean ⊗ s.mean)) undone_variance ∙ h.m2
    where
      undone_variance : whole (k - 1) ⊗ welford_sample_variance s ≡ s.m2
      undone_variance =
          let e : ltb k 2 ≡ false = ground (arith, two) in
          rw (h.count, e)
            (exact.times-over (k - 1) s.m2 (omega (arith, two)) (omega (arith, two, bound)))

  -- For two samples or more, and no more than can be divided by, where the arithmetic does not
  -- round: the running mean of welford_update times the number of samples is their sum, and
  -- welford_sample_variance times the number less one, plus the number times the square of the
  -- mean, is the sum of their squares. So the one pass gives the mean and the variance of the
  -- two-pass formulas.
  pub welford_lem :
      (xs : List W)
      → 2 ≤ length xs
      → length xs ≤ limit
      → ((latency_stats welford_init xs).n ≡ length xs)
        × (whole (length xs) ⊗ (latency_stats welford_init xs).mean ≡ sum_from (whole 0) xs)
        × (whole (length xs - 1) ⊗ welford_sample_variance (latency_stats welford_init xs)
              ⊕ whole (length xs)
                ⊗ ((latency_stats welford_init xs).mean ⊗ (latency_stats welford_init xs).mean)
            ≡ squares_from (whole 0) xs)
  welford_lem xs two bound =
      let e : 0 + length xs ≡ length xs = omega arith in
      let h =
        subst
          (λ v.
            Holds v (sum_from (whole 0) xs) (squares_from (whole 0) xs)
              (latency_stats welford_init xs))
          e (all-Holds xs 0 (whole 0) (whole 0) welford_init (omega (arith, bound)) init-Holds) in
      (
        h.count,
        h.mean,
        variance_lem (length xs) (sum_from (whole 0) xs) (squares_from (whole 0) xs)
            (latency_stats welford_init xs) two bound h,
      )
