-- ===== src/Db/Compute/Target.antt =====
-- The round robin over the other processes.
use rp_maksym_zaveriukha.Base.{
  ℕ, ◌+◌, ◌-◌, ◌%◌, ◌≤◌, ◌<◌, ◌≡◌, ◌≢◌, ◌∙◌, sym, refl, arith, ltb, if◌then◌else◌,
}
use native.Mathlib.Nat.{mod-eq_of_lt, mod-eq-sub-mod, mod-lt, mod-add-mod}
use native.Mathlib.Decide.{dec_lt}
use rp_maksym_zaveriukha.Db.Compute.{target_of}

-- A sum of a rank and at most `n` steps, modulo `n`.
wrap_around : (n a : ℕ) → a < n + n → 0 < n → a % n ≡ (if ltb a n then a else a - n)
wrap_around n a h p = elim (dec_lt a n) [
  | yes below ↦ ground (arith, mod-eq_of_lt below)
  | no above ↦ ground (
    arith,
    mod-eq-sub-mod {n = a} {m = n} (omega arith),
    mod-eq_of_lt {n = a - n} {m = n} (omega arith),
  )
]

-- The target without `%`: the ranks after the own one, then those before it.
target_cases :
    (rank n i j : ℕ)
    → rank < n
    → i % (n - 1) ≡ j
    → j < n - 1
    → target_of rank n i ≡ (if ltb (rank + 1 + j) n then rank + 1 + j else rank + 1 + j - n)
unfolding target_of
target_cases rank n i j r e h = rw e (wrap_around n (rank + 1 + j) (omega arith) (omega arith))

-- With at least two processes, every target of the compute thread is an existing rank and not its
-- own.
pub target_is_remote :
    (rank nr_proc i : ℕ)
    → rank < nr_proc
    → 2 ≤ nr_proc
    → (target_of rank nr_proc i < nr_proc) × (target_of rank nr_proc i ≢ rank)
target_is_remote rank nr_proc i r two = ground (
  arith,
  target_cases rank nr_proc i (i % (nr_proc - 1)) r refl (mod-lt i {m = nr_proc - 1} (omega arith)),
)

module _ (rank nr_proc start : ℕ) (r : rank < nr_proc) (round : start % (nr_proc - 1) ≡ 0) where
  offset : (j : ℕ) → j < nr_proc - 1 → (start + j) % (nr_proc - 1) ≡ j
  offset j h =
      sym (mod-add-mod start (nr_proc - 1) j)
      ∙ rw round (omega (arith, mod-eq_of_lt {n = 0 + j} {m = nr_proc - 1} (omega arith)))

  -- Request `j` of a round, without `%`.
  target_in_round :
      (j : ℕ)
      → j < nr_proc - 1
      → target_of rank nr_proc (start + j)
        ≡ (if ltb (rank + 1 + j) nr_proc then rank + 1 + j else rank + 1 + j - nr_proc)
  target_in_round j h = target_cases rank nr_proc (start + j) j r (offset j h) h

  -- The request of the round that goes to `q`.
  request_to : ℕ → ℕ
  request_to q = if ltb rank q then q - rank - 1 else q + nr_proc - rank - 1

  request_to-lt : (q : ℕ) → q < nr_proc → q ≢ rank → request_to q < nr_proc - 1
  unfolding request_to
  request_to-lt q h ne = ground arith

  target-request_to :
      (q : ℕ) → q < nr_proc → q ≢ rank → target_of rank nr_proc (start + request_to q) ≡ q
  unfolding request_to
  target-request_to q h ne = target_in_round (request_to q) (request_to-lt q h ne) ∙ ground arith

  request_to_unique :
      (q j : ℕ)
      → q < nr_proc
      → j < nr_proc - 1
      → target_of rank nr_proc (start + j) ≡ q
      → j ≡ request_to q
  unfolding request_to
  request_to_unique q j h lt e = ground (arith, target_in_round j lt)

  -- In each round of nr_proc - 1 requests of the compute thread, every rank other than its own is
  -- the target of exactly one.
  pub round_robin :
      (q : ℕ)
      → q < nr_proc
      → q ≢ rank
      → (i : ℕ) × (i < nr_proc - 1)
        × (target_of rank nr_proc (start + i) ≡ q)
        × ((j : ℕ) → j < nr_proc - 1 → target_of rank nr_proc (start + j) ≡ q → j ≡ i)
  round_robin q h ne = (
    request_to q,
    request_to-lt q h ne,
    target-request_to q h ne,
    λ j lt e. request_to_unique q j h lt e,
  )
