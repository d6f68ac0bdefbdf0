-- ===== src/Stats.antt =====
-- Times, statistics and reports: elapsed_seconds of both benchmarks, the welford functions and the
-- computations of run_distributed_db_benchmark in rpBenchmark2/main.c, and those of
-- run_all_to_all_benchmark in rpBenchmark1/main.c. A `double` is any type with the operations that the
-- code uses; the constants 0.0, 1e6 and 1024.0 are whole numbers.
pub mod Exact
pub mod Welford
pub mod Messages
use rp_maksym_zaveriukha.Base.{
  ◌^◌, ℕ, ◌+◌, ◌-◌, ◌*◌, ◌==◌, ltb, List, [], ◌∷◌, Option, none, some, ℤ, pos, negsuc,
  if◌then◌else◌,
}

pub record Double {ℓ} (W : Type ℓ) : Type ℓ where
  pub of_long : ℤ → W  -- the cast
  pub plus : W → W → W
  pub minus : W → W → W
  pub times : W → W → W
  pub over : W → W → W
  pub sqrt : W → W

-- `struct timespec` of a clock that starts at 0.
pub record Timespec : Type 0 where
  pub tv_sec : ℕ
  pub tv_nsec : ℕ

pub record WelfordStats {ℓ} (W : Type ℓ) : Type ℓ where
  pub n : ℕ
  pub mean : W
  pub m2 : W

abbrev pub long_minus : ℕ → ℕ → ℤ
long_minus a b = if ltb a b then negsuc (b - a - 1) else pos (a - b)

-- What run_distributed_db_benchmark prints.
pub record DbReport {ℓ} (W : Type ℓ) : Type ℓ where
  pub rank : ℕ
  pub nr_proc : ℕ
  pub requests_per_process : ℕ
  pub response_size : ℕ
  pub total_time : W
  pub mean_latency_us : W
  pub stddev_latency_us : W
  pub requests_per_second : W
  pub response_mib_s : W

-- What run_all_to_all_benchmark prints.
pub record AllToAllReport {ℓ} (W : Type ℓ) : Type ℓ where
  pub nr_proc : ℕ
  pub msg_size : ℕ
  pub repeat : ℕ
  pub measured_time : W
  pub messages_per_cycle : W
  pub total_messages : W
  pub avg_cycle_us : W
  pub avg_message_us : W
  pub throughput_mib_s : W

-- A product of `long`s; `none` where it overflows, which C leaves undefined.
abbrev pub total_system_requests : (requests_per_process nr_proc : ℕ) → Option ℕ
total_system_requests requests_per_process nr_proc =
    if ltb (requests_per_process * nr_proc) (2 ^ 63)
    then some (requests_per_process * nr_proc)
    else none

module _ {ℓ} {W : Type ℓ} ⦃d : Double W⦄ where
  abbrev pub whole : ℕ → W
  whole n = d.of_long (pos n)

  abbrev pub elapsed_seconds : Timespec → Timespec → W
  elapsed_seconds start end =
      d.plus (d.of_long (long_minus end.tv_sec start.tv_sec))
        (d.over (d.of_long (long_minus end.tv_nsec start.tv_nsec)) (whole 1000000000))

  abbrev pub welford_init : WelfordStats W
  welford_init = record { n = 0; mean = whole 0; m2 = whole 0 }

  abbrev pub welford_update : WelfordStats W → W → WelfordStats W
  welford_update s x = record { n = n; mean = mean; m2 = d.plus s.m2 (d.times delta delta2) }
    where
      n : ℕ
      n = s.n + 1

      delta : W
      delta = d.minus x s.mean

      mean : W
      mean = d.plus s.mean (d.over delta (whole n))

      delta2 : W
      delta2 = d.minus x mean

  abbrev pub welford_sample_variance : WelfordStats W → W
  welford_sample_variance s = if ltb s.n 2 then whole 0 else d.over s.m2 (whole (s.n - 1))

  abbrev pub welford_stddev : WelfordStats W → W
  welford_stddev s = d.sqrt (welford_sample_variance s)

  -- The latencies that the compute thread measures, in the order of its requests.
  abbrev pub latency_us : Timespec → Timespec → W
  latency_us start end = d.times (elapsed_seconds start end) (whole 1000000)

  unfoldable pub latency_stats : WelfordStats W → List W → WelfordStats W
  latency_stats s [] = s
  latency_stats s (x ∷ xs) = latency_stats (welford_update s x) xs

  abbrev pub mib : W → W
  mib bytes = d.over bytes (d.times (whole 1024) (whole 1024))

  -- `benchmark_start` and `benchmark_end` are the times around the threads, `stats` what the compute
  -- thread has left.
  abbrev pub db_report :
      (rank nr_proc requests_per_process response_size : ℕ)
      → WelfordStats W
      → Timespec
      → Timespec
      → Option (DbReport W)
  db_report rank nr_proc requests_per_process response_size stats benchmark_start benchmark_end =
      elim (total_system_requests requests_per_process nr_proc) [
        | none ↦ none
        | some system_requests ↦ some (record {
          rank = rank;
          nr_proc = nr_proc;
          requests_per_process = requests_per_process;
          response_size = response_size;
          total_time = total_time;
          mean_latency_us = stats.mean;
          stddev_latency_us = welford_stddev stats;
          requests_per_second = d.over (whole system_requests) total_time;
          response_mib_s =
              mib (d.over (d.times (whole system_requests) (whole response_size)) total_time);
        })
      ]
    where
      total_time : W
      total_time = elapsed_seconds benchmark_start benchmark_end

  -- Only process 0 prints.
  abbrev pub run_all_to_all_benchmark :
      (rank nr_proc msg_size repeat : ℕ) → W → Option (AllToAllReport W)
  run_all_to_all_benchmark rank nr_proc msg_size repeat measured_time =
      if rank == 0
      then some (record {
        nr_proc = nr_proc;
        msg_size = msg_size;
        repeat = repeat;
        measured_time = measured_time;
        messages_per_cycle = messages_per_cycle;
        total_messages = total_messages;
        avg_cycle_us = d.times (d.over measured_time (whole repeat)) (whole 1000000);
        avg_message_us = d.times (d.over measured_time total_messages) (whole 1000000);
        throughput_mib_s = mib (d.over (d.times total_messages (whole msg_size)) measured_time);
      })
      else none
    where
      messages_per_cycle : W
      messages_per_cycle = d.times (whole nr_proc) (whole (nr_proc - 1))

      total_messages : W
      total_messages = d.times messages_per_cycle (whole repeat)
