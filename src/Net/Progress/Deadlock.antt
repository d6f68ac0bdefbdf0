-- ===== src/Net/Progress/Deadlock.antt =====
-- Where every thread and the router wait, no call but com_recv is in progress.
use mathlib.Core.Path.{subst}
use rp_maksym_zaveriukha.Base.{
  ℕ, ◌<◌, ◌≡◌, ◌≢◌, ◌==◌, inl, inr, true, false, List, Option, some, arith, ap, Bool-cases, total,
  total-eq-zero, le-total,
}
use rp_maksym_zaveriukha.Com.{Name, World, blocked}
use rp_maksym_zaveriukha.Com.Region.{Segments}
use rp_maksym_zaveriukha.Com.Initialize.{com_initialize}
use rp_maksym_zaveriukha.Com.Router.{RouterPc, server_loop}
use rp_maksym_zaveriukha.Net.Thread.{exited, thread_step}
use rp_maksym_zaveriukha.Net.System.{System, Reach}
use rp_maksym_zaveriukha.Net.Weights.{fills, awaits, counts, reads, owns, routes, delivers}
use rp_maksym_zaveriukha.Net.Tokens.{Tokens}
use rp_maksym_zaveriukha.Net.Start.Forked.{Pids}
use rp_maksym_zaveriukha.Net.Start.{system_of}
use rp_maksym_zaveriukha.Net.Delivery.{inv}
use rp_maksym_zaveriukha.Net.Flow.{Flow, RouterFact, carries, acked, inbox_weight}
use rp_maksym_zaveriukha.Net.Progress.{
  Unacknowledged, Waits, thread_step-Waits, RouterWaits, server_loop-RouterWaits,
}
use rp_maksym_zaveriukha.Net.Progress.Weighed.{
  Quiet, Waits-fills, Waits-counts, Waits-reads, Waits-carries, Waits-acked, Waits-awaits,
  Waits-owns, Waits-Quiet,
}

-- What the hypotheses of the theorem give in any state with the invariants.
module _ {n : ℕ} {s : System} (tk : Tokens n s) (fl : Flow n s) (p : RouterPc)
    (running : s.router ≡ some p) (router_waits : RouterWaits s.world p)
    (waits : (i : ℕ) → i < n → Waits (s.threads i).rank s.world (s.threads i).pc)
    (started : (i : ℕ) → i < n → (s.threads i).pc ≢ exited true)
    (unread : (d : ℕ) → d < s.world.shared.nr_proc → (s.world.shared.slots d).full ≡ 0) where
  none_fills : total (λ t. fills t.pc) n s.threads ≡ 0
  none_fills =
      total-eq-zero (λ t. fills t.pc) n s.threads
        λ i lt. Waits-fills (s.threads i).rank s.world (s.threads i).pc (waits i lt)

  none_reads : (d : ℕ) → total (reads d) n s.threads ≡ 0
  none_reads d =
      total-eq-zero (reads d) n s.threads
        λ i lt. Waits-reads (s.threads i).rank s.world d (s.threads i).pc (waits i lt)

  -- The router waits for a request.
  router_ready :
      (q : RouterPc)
      → s.router ≡ some q
      → RouterFact s.world (some q)
      → RouterWaits s.world q
      → (routes s.router ≡ 0) × (s.world.shared.server_box.full ≡ 0)
  router_ready RouterPc.wait_full e f h = (ap routes e, h)
  router_ready (RouterPc.wait_inbox d) e f h =
      absurd (omega (arith, tk.inbox d, h, unread d f.0, none_reads d, ap (delivers d) e))
  router_ready (RouterPc.post_inbox d) e f h = absurd h
  router_ready (RouterPc.post_delivered d) e f h = absurd h

  ready : (routes s.router ≡ 0) × (s.world.shared.server_box.full ≡ 0)
  ready = router_ready p running (subst (RouterFact s.world) running fl.routing) router_waits

  none_awaits : total (λ t. awaits t.pc) n s.threads ≡ 0
  none_awaits = elim (Bool-cases (s.world.shared.server_box.delivered == 0)) [
    | inl none_delivered ↦ ground (arith, tk.requests, ready)
    | inr some_delivered ↦
        total-eq-zero (λ t. awaits t.pc) n s.threads
          λ i lt.
            Waits-awaits (s.threads i).rank s.world (s.threads i).pc (waits i lt) (started i lt)
              (ground arith)
  ]

  free : 0 < s.world.shared.server_box.empty
  free = omega (arith, tk.box, tk.requests, ready, none_fills, none_awaits)

  acknowledged : (r : ℕ) → ¬ (Unacknowledged s.world r)
  acknowledged r (pending, none_full) = omega (
    arith,
    fl.account r,
    pending,
    none_full,
    total-eq-zero (inbox_weight r) s.world.shared.nr_proc s.world.shared.slots
        (λ d lt. ground (arith, unread d lt)),
    total-eq-zero (carries r) n s.threads
        (λ i lt. Waits-carries (s.threads i).rank s.world r (s.threads i).pc (waits i lt)),
    total-eq-zero (acked r) n s.threads
        (λ i lt. Waits-acked (s.threads i).rank s.world r (s.threads i).pc (waits i lt)),
  )

  module _ (i : ℕ) (lt : i < n) where
    idle_awaits : awaits (s.threads i).pc ≡ 0
    idle_awaits = omega (arith, le-total (λ t. awaits t.pc) n s.threads i lt, none_awaits)

    idle_owns : (r : ℕ) → owns r (s.threads i) ≡ 0
    idle_owns r =
        Waits-owns (s.threads i).rank s.world (acknowledged (s.threads i).rank) free r
          (s.threads i).pc (waits i lt) idle_awaits

  unlocked : (r : ℕ) → (s.world.procs r).locked ≡ false
  unlocked r =
      ground (arith, tk.owner r, total-eq-zero (owns r) n s.threads (λ i lt. idle_owns i lt r))

  lock_free : 0 < s.world.shared.finalize_lock
  lock_free = omega (
    arith,
    tk.finalize_lock,
    total-eq-zero (λ t. counts t.pc) n s.threads
        (λ i lt. Waits-counts (s.threads i).rank s.world (s.threads i).pc (waits i lt)),
  )

  all_Quiet : (i : ℕ) → i < n → Quiet (s.threads i).pc
  all_Quiet i lt =
      Waits-Quiet (s.threads i).rank s.world (acknowledged (s.threads i).rank) free (s.threads i).pc
        (waits i lt) (idle_awaits i lt) (idle_owns i lt (s.threads i).rank)
        (unlocked (s.threads i).rank) lock_free

-- `n` threads of `nr_proc` processes, the thread `i` in the process of rank `rank_of i`, start in the
-- world that com_initialize leaves.
module _ (nr_proc n router_pid : ℕ) (pids rank_of : ℕ → ℕ) (entries : Option (List Name))
    (shm : Segments) {w : World} {s : System} (distinct : Pids nr_proc pids)
    (started : com_initialize nr_proc router_pid pids entries shm ≡ some w)
    (ranks : (i : ℕ) → i < n → rank_of i < nr_proc) (run : Reach n (system_of w rank_of) s) where
  -- In a state reached from com_initialize (distinct process ids, threads with existing ranks, any
  -- schedule) in which the router has not stopped, com_finalize has not made the shutdown request
  -- and returned, and no inbox holds an unread message: if the router and every thread wait, then
  -- every thread is outside all calls or waits in com_recv for a message. So no semaphore, mutex or
  -- acknowledgement is waited for in vain.
  pub no_deadlock :
      (p : RouterPc)
      → s.router ≡ some p
      → server_loop p s.world ≡ blocked
      → ((i : ℕ) → i < n → thread_step (s.threads i).rank (s.threads i).pc s.world ≡ blocked)
      → ((i : ℕ) → i < n → (s.threads i).pc ≢ exited true)
      → ((d : ℕ) → d < s.world.shared.nr_proc → (s.world.shared.slots d).full ≡ 0)
      → (i : ℕ) → i < n
      → Quiet (s.threads i).pc
  no_deadlock p running router_waits waits not_over unread i lt =
      let (tk, fl) = inv nr_proc n router_pid pids rank_of entries shm distinct started ranks run in
      all_Quiet tk fl p running (server_loop-RouterWaits p s.world router_waits)
        (λ j h. thread_step-Waits (s.threads j).rank (s.threads j).pc s.world (waits j h)) not_over
        unread i lt
