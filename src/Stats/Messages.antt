-- ===== src/Stats/Messages.antt =====
-- The number of messages in the report of the all-to-all benchmark is the number of messages that its
-- senders send.
use rp_maksym_zaveriukha.Base.{
  pos, ℕ, zero, suc, ◌+◌, ◌-◌, ◌*◌, ◌≡◌, length, Option, none, some, arith, sym, ◌∙◌, ap, total,
  total-constant,
}
use rp_maksym_zaveriukha.AllToAll.{sender_thread_main}
use rp_maksym_zaveriukha.AllToAll.Lengths.{length-sender_thread_main}
use rp_maksym_zaveriukha.Stats.{Double, AllToAllReport, whole, run_all_to_all_benchmark}
use rp_maksym_zaveriukha.Stats.Exact.{IsExact}

-- The sends of the first `nr_proc` senders together.
abbrev pub all_sends : (nr_proc size repeat : ℕ) → ℕ
all_sends nr_proc size repeat =
    total (λ r. length (sender_thread_main r nr_proc size repeat)) nr_proc (λ r. r)

module _ {ℓ} {W : Type ℓ} ⦃d : Double W⦄ (limit : ℕ) (exact : IsExact W limit) where
  same : (a b : ℕ) → a ≡ b → d.of_long (pos a) ≡ d.of_long (pos b)
  same a b e = ap (λ v. d.of_long (pos v)) e

  next : (k a : ℕ) → k ≡ a + 1 → d.of_long (pos k) ≡ d.plus (whole a) (whole 1)
  next k a e = same k (a + 1) e ∙ exact.whole_suc a

  whole_plus : (a b : ℕ) → whole (a + b) ≡ d.plus (whole a) (whole b)
  whole_plus zero b = same (0 + b) b (omega arith) ∙ sym (exact.plus_zero (whole b))
  whole_plus (suc a) b =
      next (suc a + b) (a + b) (omega arith)
      ∙ ap (λ v. d.plus v (whole 1)) (whole_plus a b)
      ∙ exact.plus_assoc (whole a) (whole b) (whole 1)
      ∙ ap (λ v. d.plus (whole a) v) (exact.plus_comm (whole b) (whole 1))
      ∙ sym (exact.plus_assoc (whole a) (whole 1) (whole b))
      ∙ ap (λ v. d.plus v (whole b)) (sym (next (suc a) a (omega arith)))

  whole_times : (a b : ℕ) → whole (a * b) ≡ d.times (whole a) (whole b)
  whole_times zero b = same (0 * b) 0 (omega arith) ∙ sym (exact.times_zero (whole b))
  whole_times (suc a) b =
      same (suc a * b) (a * b + b) (omega arith)
      ∙ whole_plus (a * b) b
      ∙ ap (λ v. d.plus v (whole b)) (whole_times a b)
      ∙ sym split
    where
      split : d.times (whole (suc a)) (whole b) ≡ d.plus (d.times (whole a) (whole b)) (whole b)
      split =
          ap (λ v. d.times v (whole b)) (next (suc a) a (omega arith))
          ∙ exact.times_comm (d.plus (whole a) (whole 1)) (whole b)
          ∙ exact.times-plus (whole b) (whole a) (whole 1)
          ∙ ap (λ v. d.plus v (d.times (whole b) (whole 1))) (exact.times_comm (whole b) (whole a))
          ∙ ap (λ v. d.plus (d.times (whole a) (whole b)) v)
              (exact.times_comm (whole b) (whole 1) ∙ exact.times_one (whole b))

  abbrev messages_of : Option (AllToAllReport W) → W
  messages_of none = whole 0
  messages_of (some r) = r.total_messages

  -- Where the arithmetic does not round, the number of messages in the report of process 0 of the
  -- all-to-all benchmark is the number of calls of com_send of all sender threads together.
  pub reported_messages :
      (nr_proc msg_size repeat : ℕ) (measured_time : W) (report : AllToAllReport W)
      → run_all_to_all_benchmark 0 nr_proc msg_size repeat measured_time ≡ some report
      → report.total_messages ≡ whole (all_sends nr_proc msg_size repeat)
  reported_messages nr_proc msg_size repeat measured_time report e =
      sym (ap messages_of e)
      ∙ ap (λ v. d.times v (whole repeat)) (sym (whole_times nr_proc (nr_proc - 1)))
      ∙ sym (whole_times (nr_proc * (nr_proc - 1)) repeat)
      ∙ same (nr_proc * (nr_proc - 1) * repeat) (all_sends nr_proc msg_size repeat) (
          omega (
            arith,
            total-constant (λ r. length (sender_thread_main r nr_proc msg_size repeat)) nr_proc
                (repeat * (nr_proc - 1)) (λ r. r)
                (λ r lt. length-sender_thread_main r nr_proc msg_size repeat lt),
          ))
