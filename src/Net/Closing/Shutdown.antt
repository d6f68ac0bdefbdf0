-- ===== src/Net/Closing/Shutdown.antt =====
-- The router stops only after every process has finished.
use mathlib.Core.Path.{subst}
use rp_maksym_zaveriukha.Base.{
  ℕ, ◌<◌, ◌≤◌, ◌≡◌, ◌≢◌, ◌==◌, ◌⊎◌, true, false, List, arith, refl, sym, ◌∙◌, ap, ℤ, minus_one,
  is_rank_below, Option, none, some, Bool-cases, inl, inr, total, total-pos, total-eq-zero,
  total_le_one, total-shares, full_shares, share,
}
use rp_maksym_zaveriukha.Com.{Name, World}
use rp_maksym_zaveriukha.Com.Region.{Segments}
use rp_maksym_zaveriukha.Com.Initialize.{com_initialize}
use rp_maksym_zaveriukha.Com.Send.{SendPc}
use rp_maksym_zaveriukha.Com.Finalize.{FinalizePc}
use rp_maksym_zaveriukha.Net.Thread.{Pc, sending, finalizing, exited, left}
use rp_maksym_zaveriukha.Net.System.{Sent, System, Reach}
use rp_maksym_zaveriukha.Net.Weights.{awaits, routes}
use rp_maksym_zaveriukha.Net.Tokens.{Tokens}
use rp_maksym_zaveriukha.Net.Start.Forked.{Pids}
use rp_maksym_zaveriukha.Net.Start.{Started, system_of, com_initialize-Started, Started-Tokens}
use rp_maksym_zaveriukha.Net.Flow.{Flow, Fact}
use rp_maksym_zaveriukha.Net.Sound.{Checked, Exists}
use rp_maksym_zaveriukha.Net.Sound.Exits.{inv}
use rp_maksym_zaveriukha.Net.Sound.Kept.{Sound}
use rp_maksym_zaveriukha.Net.Closing.{Stopped, counted, is_ending, Last}
use rp_maksym_zaveriukha.Net.Closing.Kept.{Closing, Reach-Closing}

counted_le_one : (p : Pc) → counted p ≤ 1
counted_le_one (finalizing (FinalizePc.post_lock is_last)) = omega arith
counted_le_one (finalizing FinalizePc.wait_empty) = omega arith
counted_le_one (finalizing FinalizePc.post_full) = omega arith
counted_le_one (finalizing (FinalizePc.unmap is_last)) = omega arith
counted_le_one (exited is_last) = omega arith
counted_le_one _ = omega arith

counted-is_ending : (p : Pc) → 0 < counted p → is_ending p ≡ true
counted-is_ending (finalizing q) h = refl
counted-is_ending (exited b) h = refl
counted-is_ending _ h = absurd (omega (arith, h))

Exists-not : (w : World) (dest : ℤ) → dest ≡ minus_one → ¬ (Exists w dest)
Exists-not w dest e h = cc (ap (λ r. is_rank_below r w.shared.nr_proc) e, h)

-- The thread that waits for the router's answer to a shutdown request.
awaits-Last :
    (w : World) (sent : List Sent) (r : ℕ) (p : Pc)
    → Fact w sent r p
    → Checked w r p
    → Last w p
    → 0 < awaits p
    → w.shared.server_box.dest_rank ≡ minus_one
    → w.shared.nr_proc ≤ w.shared.finalized_count
awaits-Last w sent r (sending msg dest dests SendPc.wait_delivered) f c l h e =
    absurd (Exists-not w dest (sym f.2.dest_is ∙ e) c.1)
awaits-Last w sent r (finalizing (FinalizePc.unmap true)) f c l h e = l
awaits-Last w sent r (finalizing (FinalizePc.unmap false)) f c l h e = absurd (omega (arith, h))
awaits-Last w sent r (exited true) f c l h e = l
awaits-Last w sent r (exited false) f c l h e = absurd (omega (arith, h))
awaits-Last w sent r _ f c l h e = absurd (omega (arith, h))

module _ {n : ℕ} {s : System} (tk : Tokens n s) (cl : Closing n s) where
  -- The threads of process `r` that have counted it.
  abbrev finishers : ℕ → ℕ
  finishers r = total (share (λ t. t.rank) (λ t. counted t.pc) r) n s.threads

  other_share :
      (r i j : ℕ)
      → i < n
      → j < n
      → i ≢ j
      → 0 < share (λ t. t.rank) (λ t. counted t.pc) r (s.threads i)
      → share (λ t. t.rank) (λ t. counted t.pc) r (s.threads j) ≡ 0
  other_share r i j hi hj ne h =
      ground (arith, counted-is_ending (s.threads i).pc, cl.alone i j hi hj ne, h)

  one_finisher : (r : ℕ) → finishers r ≤ 1
  one_finisher r =
      total_le_one (share (λ t. t.rank) (λ t. counted t.pc) r) n s.threads
        (λ j lt. ground (arith, counted_le_one (s.threads j).pc)) (other_share r)

  -- Where as many threads have counted as there are processes, every process has been counted.
  counted_in :
      s.world.shared.nr_proc ≤ s.world.shared.finalized_count
      → (r : ℕ) → r < s.world.shared.nr_proc
      → (i : ℕ) × (i < n) × ((s.threads i).rank ≡ r) × (counted (s.threads i).pc ≡ 1)
  counted_in all r lt = found (
      total-pos (share (λ t. t.rank) (λ t. counted t.pc) r) n s.threads
        (omega (arith, whole_share)))
    where
      whole_share : finishers r ≡ 1
      whole_share =
          full_shares finishers s.world.shared.nr_proc r (λ r h. one_finisher r) lt
            (omega (
              arith,
              all,
              cl.count,
              total-shares (λ t. t.rank) (λ t. counted t.pc) n s.world.shared.nr_proc s.threads
                  tk.ranks,
            ))

      found :
          (i : ℕ) × (i < n) × (0 < share (λ t. t.rank) (λ t. counted t.pc) r (s.threads i))
          → (i : ℕ) × (i < n) × ((s.threads i).rank ≡ r) × (counted (s.threads i).pc ≡ 1)
      found (i, hi, h) =
          (i, hi, ground (arith, h), ground (arith, h, counted_le_one (s.threads i).pc))

  -- Then the other threads have left.
  left_or_counted :
      s.world.shared.nr_proc ≤ s.world.shared.finalized_count
      → (k : ℕ) → k < n
      → ((s.threads k).pc ≡ left) ⊎ (counted (s.threads k).pc ≡ 1)
  left_or_counted all k lt = compared (counted_in all (s.threads k).rank (tk.ranks k lt))
    where
      compared :
          (i : ℕ) × (i < n)
            × ((s.threads i).rank ≡ (s.threads k).rank)
            × (counted (s.threads i).pc ≡ 1)
          → ((s.threads k).pc ≡ left) ⊎ (counted (s.threads k).pc ≡ 1)
      compared (i, hi, same, one) = elim (Bool-cases (i == k)) [
        | inl same_thread ↦
            inr (let e : i ≡ k = ground arith in sym (ap (λ j. counted (s.threads j).pc) e) ∙ one)
        | inr other ↦ inl (
            cl.alone i k hi lt (ground arith) (sym same)
              (counted-is_ending (s.threads i).pc (omega (arith, one))))
      ]

-- `n` threads of `nr_proc` processes, the thread `i` in the process of rank `rank_of i`, start in the
-- world that com_initialize leaves.
module _ (nr_proc n router_pid : ℕ) (pids rank_of : ℕ → ℕ) (entries : Option (List Name))
    (shm : Segments) {w : World} {s : System} (distinct : Pids nr_proc pids)
    (started : com_initialize nr_proc router_pid pids entries shm ≡ some w)
    (ranks : (i : ℕ) → i < n → rank_of i < nr_proc) (run : Reach n (system_of w rank_of) s) where
  -- In every state reached from com_initialize (distinct process ids, threads with existing ranks,
  -- any schedule), once the router has stopped, every rank below the shared nr_proc has a thread
  -- that has counted its process in com_finalize, and every thread has done so or has returned from
  -- its start routine.
  pub router_stops_last :
      (r k : ℕ)
      → r < s.world.shared.nr_proc
      → k < n
      → s.router ≡ none
      → ((i : ℕ) × (i < n) × ((s.threads i).rank ≡ r) × (counted (s.threads i).pc ≡ 1))
        × (((s.threads k).pc ≡ left) ⊎ (counted (s.threads k).pc ≡ 1))
  router_stops_last r k hr lt stopped = (counted_in tk cl all r hr, left_or_counted tk cl all k lt)
    where
      tk : Tokens n s
      tk = (inv nr_proc n router_pid pids rank_of entries shm distinct started ranks run).0

      known : Tokens n s × Flow n s × Sound n s
      known = inv nr_proc n router_pid pids rank_of entries shm distinct started ranks run

      world : Started nr_proc pids w
      world = com_initialize-Started nr_proc router_pid pids entries shm distinct started

      cl : Closing n s
      cl = Reach-Closing (Started-Tokens n rank_of world ranks) fresh run
        where
          fresh : Closing n (system_of w rank_of)
          fresh = record {
            count =
                world.initial.none_final
                ∙ sym (
                    total-eq-zero (λ t. counted t.pc) n (system_of w rank_of).threads
                      (λ i h. refl));
            last = λ i h. tt;
            alone = λ i j hi hj ne same f. cc;
            stopped = tt;
          }

      found :
          (j : ℕ) × (j < n) × (0 < awaits (s.threads j).pc)
          → s.world.shared.nr_proc ≤ s.world.shared.finalized_count
      found (j, hj, waits) =
          awaits-Last s.world s.sent (s.threads j).rank (s.threads j).pc (known.1.facts j hj)
            (known.2 j hj) (cl.last j hj) waits (subst (Stopped s.world) stopped cl.stopped)

      all : s.world.shared.nr_proc ≤ s.world.shared.finalized_count
      all =
          found (
            total-pos (λ t. awaits t.pc) n s.threads
              (omega (arith, tk.requests, ap routes stopped)))
