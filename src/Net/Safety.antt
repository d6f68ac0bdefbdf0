-- ===== src/Net/Safety.antt =====
-- Mutual exclusion in the states that the system reaches: which threads may be at the plain accesses
-- between two semaphore operations.
use native.Mathlib.Decide.{dec_lt}
use rp_maksym_zaveriukha.Base.{
  ℕ, ◌≡◌, ◌≢◌, ◌≤◌, ◌<◌, true, Option, some, List, [], arith, total, le-total, add-le-total,
}
use rp_maksym_zaveriukha.Com.{Name, World, failed, already_active, not_active}
use rp_maksym_zaveriukha.Com.Buffer.{WaitPc, PreparePc}
use rp_maksym_zaveriukha.Com.Recv.{RecvPc}
use rp_maksym_zaveriukha.Com.Send.{SendPc}
use rp_maksym_zaveriukha.Com.Finalize.{FinalizePc}
use rp_maksym_zaveriukha.Net.Thread.{
  Pc, Thread, preparing, choosing, sending, receiving, finalizing, thread_step,
}
use rp_maksym_zaveriukha.Net.System.{System, Reach}
use rp_maksym_zaveriukha.Net.Weights.{bit, fills, awaits, routes, reads, delivers, owns}
use rp_maksym_zaveriukha.Net.Local.{Owned}
use rp_maksym_zaveriukha.Net.Tokens.{Tokens, Reach-Tokens, thread-Owned}
use rp_maksym_zaveriukha.Net.Start.Forked.{Pids}
use rp_maksym_zaveriukha.Net.Start.{com_initialize-Started, system_of, Started-Tokens}
use rp_maksym_zaveriukha.Com.Initialize.{com_initialize}
use rp_maksym_zaveriukha.Com.Region.{Segments}

-- Of two members with weight 1 in a sum of at most 1, one is the other.
pub one_holder :
    (w : Thread → ℕ) (n : ℕ) (f : ℕ → Thread) (i j : ℕ)
    → i < n
    → j < n
    → total w n f ≤ 1
    → w (f i) ≡ 1
    → w (f j) ≡ 1
    → i ≡ j
one_holder w n f i j hi hj small a b = elim (dec_lt i j) [
  | yes lt ↦ absurd (omega (arith, add-le-total w n f i j lt hj))
  | no ge ↦ elim (dec_lt j i) [
    | yes gt ↦ absurd (omega (arith, add-le-total w n f j i gt hi))
    | no le ↦ omega arith
  ]
]

-- The checks of the flag pass where the flag and the mutex agree.
checks :
    (rank : ℕ) (p : Pc) (w : World)
    → Owned rank p w
    → bit (w.procs rank).locked ≡ bit (w.procs rank).active
    → (thread_step rank p w ≢ failed already_active) × (thread_step rank p w ≢ failed not_active)
unfolding thread_step
checks rank (sending msg dest dests SendPc.enter) w o e = ground arith
checks rank (preparing msg dests (PreparePc.draining WaitPc.test)) w o e = ground arith
checks rank (choosing msg []) w o e = ground arith
checks rank (receiving RecvPc.wait_full) w o e = ground arith
checks rank (finalizing (FinalizePc.draining WaitPc.test)) w o e = ground arith
checks rank (finalizing (FinalizePc.post_lock true)) w o e = ground arith
checks rank _ w o e = ground arith

-- `n` threads of `nr_proc` processes, the thread `i` in the process of rank `rank_of i`, start in the
-- world that com_initialize leaves.
module _ (nr_proc n router_pid : ℕ) (pids rank_of : ℕ → ℕ) (entries : Option (List Name))
    (shm : Segments) {w : World} {s : System} (distinct : Pids nr_proc pids)
    (started : com_initialize nr_proc router_pid pids entries shm ≡ some w)
    (ranks : (i : ℕ) → i < n → rank_of i < nr_proc) (run : Reach n (system_of w rank_of) s) where
  inv : Tokens n s
  inv =
      Reach-Tokens
        (Started-Tokens n rank_of
          (com_initialize-Started nr_proc router_pid pids entries shm distinct started) ranks)
        run

  -- In every state reached from com_initialize (distinct process ids, threads with existing ranks,
  -- any schedule), two threads that may touch the mailbox of the router, in com_send or
  -- com_finalize, are the same thread; and then the router serves no request and has not stopped,
  -- and no request waits in the mailbox.
  pub mailbox_exclusive :
      (i j : ℕ)
      → i < n
      → j < n
      → fills (s.threads i).pc ≡ 1
      → fills (s.threads j).pc ≡ 1
      → (i ≡ j) × (routes s.router ≡ 0) × (s.world.shared.server_box.full ≡ 0)
  mailbox_exclusive i j hi hj a b = (
    one_holder (λ t. fills t.pc) n s.threads i j hi hj (omega (arith, inv.box)) a b,
    omega (arith, inv.box, le-total (λ t. fills t.pc) n s.threads i hi),
    omega (arith, inv.box, le-total (λ t. fills t.pc) n s.threads i hi),
  )

  -- In every state reached from com_initialize (distinct process ids, threads with existing ranks,
  -- any schedule), two threads that wait in com_send for their delivery, or have sent the shutdown
  -- request in com_finalize, are the same thread.
  pub one_waiter :
      (i j : ℕ) → i < n → j < n → awaits (s.threads i).pc ≡ 1 → awaits (s.threads j).pc ≡ 1 → i ≡ j
  one_waiter i j hi hj a b =
      one_holder (λ t. awaits t.pc) n s.threads i j hi hj (omega (arith, inv.box, inv.requests)) a b

  -- In every state reached from com_initialize (distinct process ids, threads with existing ranks,
  -- any schedule), two threads that read the inbox of one process in com_recv are the same thread,
  -- and then the router is not writing that inbox.
  pub inbox_exclusive :
      (d i j : ℕ)
      → i < n
      → j < n
      → reads d (s.threads i) ≡ 1
      → reads d (s.threads j) ≡ 1
      → (i ≡ j) × (delivers d s.router ≡ 0)
  inbox_exclusive d i j hi hj a b = (
    one_holder (reads d) n s.threads i j hi hj (omega (arith, inv.inbox d)) a b,
    omega (arith, inv.inbox d, le-total (reads d) n s.threads i hi),
  )

  -- In every state reached from com_initialize (distinct process ids, threads with existing ranks,
  -- any schedule), two threads of one process that are between com_prepare_send_buffer and
  -- com_finish_send_buffer are the same thread.
  pub buffer_exclusive :
      (r i j : ℕ) → i < n → j < n → owns r (s.threads i) ≡ 1 → owns r (s.threads j) ≡ 1 → i ≡ j
  buffer_exclusive r i j hi hj a b = one_holder (owns r) n s.threads i j hi hj small a b
    where
      small : total (owns r) n s.threads ≤ 1
      small = ground (arith, inv.owner r)

  -- In every state reached from com_initialize (distinct process ids, threads with existing ranks,
  -- any schedule), the semaphores of the mailbox, the finalize lock and the two semaphores of every
  -- inbox are at most 1.
  pub binary_semaphores :
      (d : ℕ)
      → (s.world.shared.server_box.empty ≤ 1)
        × (s.world.shared.server_box.full ≤ 1)
        × (s.world.shared.server_box.delivered ≤ 1)
        × (s.world.shared.finalize_lock ≤ 1)
        × ((s.world.shared.slots d).empty ≤ 1)
        × ((s.world.shared.slots d).full ≤ 1)
  binary_semaphores d = omega (arith, inv.box, inv.finalize_lock, inv.inbox d)

  -- In every state reached from com_initialize (distinct process ids, threads with existing ranks,
  -- any schedule), no step of a thread ends its process by a failed check of g_send_buffer_active,
  -- neither when it takes the send buffer nor when it gives it back.
  pub buffer_checks_pass :
      (i : ℕ)
      → i < n
      → (thread_step (s.threads i).rank (s.threads i).pc s.world ≢ failed already_active)
        × (thread_step (s.threads i).rank (s.threads i).pc s.world ≢ failed not_active)
  buffer_checks_pass i hi =
      checks (s.threads i).rank (s.threads i).pc s.world (thread-Owned inv i hi)
        (omega (arith, inv.owner (s.threads i).rank, inv.flag (s.threads i).rank))
