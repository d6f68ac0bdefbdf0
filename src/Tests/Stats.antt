-- ===== src/Tests/Stats.antt =====
-- The statistics over the field of three elements, where sums of up to two samples can be divided.
use rp_maksym_zaveriukha.Base.{
  ℕ, zero, suc, ◌≡◌, ◌<◌, ◌≤◌, List, [], ◌∷◌, ℤ, pos, negsuc, length, none, some, arith, refl,
}
use rp_maksym_zaveriukha.Stats.{
  Double, whole, welford_init, welford_sample_variance, latency_stats, AllToAllReport,
  run_all_to_all_benchmark,
}
use rp_maksym_zaveriukha.Stats.Exact.{IsExact}
use rp_maksym_zaveriukha.Stats.Messages.{all_sends, reported_messages}
use rp_maksym_zaveriukha.Stats.Welford.{sum_from, squares_from, welford_lem}

data Three : Type 0 where
  nought one two : Three

abbrev after : Three → Three
after nought = one
after one = two
after two = nought

abbrev add : Three → Three → Three
add nought y = y
add one y = after y
add two y = after (after y)

abbrev negate : Three → Three
negate nought = nought
negate one = two
negate two = one

abbrev multiply : Three → Three → Three
multiply nought y = nought
multiply one y = y
multiply two y = negate y

abbrev count_up : ℕ → Three
count_up zero = nought
count_up (suc n) = after (count_up n)

abbrev of_integer : ℤ → Three
of_integer (pos n) = count_up n
of_integer (negsuc n) = negate (after (count_up n))

instance abbrev three_double : Double Three
three_double = record {
  of_long = of_integer;
  plus = add;
  minus = λ x y. add x (negate y);
  times = multiply;
  over = multiply;
  sqrt = λ x. x;
}

add_comm : (x y : Three) → add x y ≡ add y x
add_comm x y = ground arith

add_assoc : (x y z : Three) → add (add x y) z ≡ add x (add y z)
add_assoc x y z = ground arith

multiply_assoc : (x y z : Three) → multiply (multiply x y) z ≡ multiply x (multiply y z)
multiply_assoc x y z = ground arith

multiply-add : (x y z : Three) → multiply x (add y z) ≡ add (multiply x y) (multiply x z)
multiply-add x y z = ground arith

after-add : (x : Three) → after x ≡ add x one
after-add x = ground arith

divides : (k : ℕ) (x : Three) → 0 < k → k ≤ 2 → multiply (count_up k) (multiply x (count_up k)) ≡ x
divides zero x p b = absurd (omega (arith, p))
divides (suc zero) x p b = ground arith
divides (suc (suc zero)) x p b = ground arith
divides (suc (suc (suc k))) x p b = absurd (omega (arith, b))

Three-IsExact : IsExact Three 2
Three-IsExact = record {
  plus_comm = add_comm;
  plus_assoc = add_assoc;
  plus_zero = λ x. refl;
  minus-plus = λ x y. ground arith;
  plus-minus = λ x y. ground arith;
  times_comm = λ x y. ground arith;
  times_assoc = multiply_assoc;
  times_one = λ x. refl;
  times_zero = λ x. refl;
  times-plus = multiply-add;
  whole_suc = λ k. ground (arith, after-add (count_up k));
  times-over = divides;
}

abbrev samples : List Three
samples = one ∷ two ∷ []

welford_lem_example :
    ((latency_stats welford_init samples).n ≡ length samples)
    × (multiply (count_up 2) (latency_stats welford_init samples).mean
        ≡ sum_from 2 Three-IsExact (whole 0) samples)
    × (add (multiply (count_up 1) (welford_sample_variance (latency_stats welford_init samples))) (
          multiply (count_up 2) (
            multiply
              (latency_stats welford_init samples).mean
              (latency_stats welford_init samples).mean))
        ≡ squares_from 2 Three-IsExact (whole 0) samples)
welford_lem_example = welford_lem 2 Three-IsExact samples (omega arith) (omega arith)

abbrev took_two : Three
took_two = two

abbrev small_report : AllToAllReport Three
small_report = elim (run_all_to_all_benchmark 0 2 1 4 took_two) [
  | none ↦ record {
    nr_proc = 0;
    msg_size = 0;
    repeat = 0;
    measured_time = nought;
    messages_per_cycle = nought;
    total_messages = nought;
    avg_cycle_us = nought;
    avg_message_us = nought;
    throughput_mib_s = nought;
  }
  | some r ↦ r
]

reported_messages_example : small_report.total_messages ≡ whole (all_sends 2 1 4)
reported_messages_example = reported_messages 2 Three-IsExact 2 1 4 took_two small_report refl
