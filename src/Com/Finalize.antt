-- ===== src/Com/Finalize.antt =====
-- com_finalize of rpBenchmark2/com.c, one step for each semaphore operation.
use rp_maksym_zaveriukha.Base.{ℕ, ◌+◌, ◌-◌, ◌==◌, Bool, true, false, [], minus_one, if◌then◌else◌}
use rp_maksym_zaveriukha.Com.{
  World, SharedState, ServerMailbox, Process, Outcome, next, returned, blocked, call, set_box,
  set_proc,
}
use rp_maksym_zaveriukha.Com.Buffer.{WaitPc, test, wait_for_pending_acks, com_finish_send_buffer}

pub data FinalizePc : Type 0 where
  enter : FinalizePc
  draining : WaitPc → FinalizePc
  wait_lock : FinalizePc
  post_lock : Bool → FinalizePc  -- `is_last`
  wait_empty post_full : FinalizePc
  unmap : Bool → FinalizePc  -- `is_last`

-- The shutdown request.
abbrev pub sentinel : ServerMailbox → ServerMailbox
sentinel box = record box {
  empty = box.empty - 1;
  src_rank = minus_one;
  dest_rank = minus_one;
  msg_id = 0;
  size = 0;
  shm_name = [];
}

abbrev pub detach : Process → Process
detach p = record p { mapped = false; mapping_capacity = 0; attached = false }

abbrev set_shared : World → SharedState → World
set_shared w g = record w { shared = g }

-- The result is the final value of the local `is_last`; the C function returns nothing.
unfoldable pub com_finalize : ℕ → FinalizePc → World → Outcome FinalizePc Bool
unfolding com_finish_send_buffer wait_for_pending_acks
com_finalize rank enter w =
    if (w.procs rank).active
    then call {P = Unit} (λ _. enter) (λ _. draining test) (com_finish_send_buffer rank w)
    else next w (draining test)
com_finalize rank (draining p) w = call draining (λ _. wait_lock) (wait_for_pending_acks rank p w)
com_finalize rank wait_lock w =
    if g.finalize_lock == 0
    then blocked
    else next
        (set_shared w (record g {
          finalize_lock = g.finalize_lock - 1;
          finalized_count = g.finalized_count + 1;
        }))
        (post_lock (g.finalized_count + 1 == g.nr_proc))
  where
    g : SharedState
    g = w.shared
com_finalize rank (post_lock is_last) w =
    next (set_shared w (record g { finalize_lock = g.finalize_lock + 1 }))
      (if is_last then wait_empty else unmap false)
  where
    g : SharedState
    g = w.shared
com_finalize rank wait_empty w =
    if box.empty == 0 then blocked else next (set_box w (sentinel box)) post_full
  where
    box : ServerMailbox
    box = w.shared.server_box
com_finalize rank post_full w = next (set_box w (record box { full = box.full + 1 })) (unmap true)
  where
    box : ServerMailbox
    box = w.shared.server_box
com_finalize rank (unmap is_last) w = returned (set_proc w rank (detach (w.procs rank))) is_last
