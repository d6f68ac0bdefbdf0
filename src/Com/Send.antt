-- ===== src/Com/Send.antt =====
-- com_send of rpBenchmark2/com.c, one step for each semaphore operation.
use rp_maksym_zaveriukha.Base.{
  ℕ, ◌+◌, ◌-◌, ◌%◌, ◌^◌, ◌==◌, not, ℤ, pos, is_rank_below, if◌then◌else◌,
}
use rp_maksym_zaveriukha.Com.{
  World, ServerMailbox, ProcessSlot, Process, Outcome, next, returned, blocked, failed,
  invalid_rank, size_mismatch, set_box, set_slot, set_proc,
}

-- `g_next_msg_id++` on the 32-bit pattern of the `int`.
abbrev pub next_id : ℕ → ℕ
next_id n = (n + 1) % 2 ^ 32

-- Each point stands before the operation that it names; `my_msg_id` is live at the first.
pub data SendPc : Type 0 where
  enter : SendPc
  wait_empty : ℕ → SendPc
  post_full wait_delivered post_empty count : SendPc

abbrev pub fill_box : ℕ → ℤ → ℕ → ℕ → World → ServerMailbox
fill_box my_rank rank size my_msg_id w = record box {
  empty = box.empty - 1;
  src_rank = pos my_rank;
  dest_rank = rank;
  msg_id = my_msg_id;
  size = size;
  shm_name = (w.shared.slots my_rank).own_shm_name;
}
  where
    box : ServerMailbox
    box = w.shared.server_box

-- `my_rank` is `g_rank`, `rank` and `size` are the arguments.
unfoldable pub com_send : ℕ → ℤ → ℕ → SendPc → World → Outcome SendPc Unit
com_send my_rank rank size enter w =
    if not (is_rank_below rank w.shared.nr_proc)
    then failed invalid_rank
    else if not ((w.shared.slots my_rank).prepared_size == size)
    then failed size_mismatch
    else next (set_proc w my_rank (record p { next_msg_id = next_id p.next_msg_id }))
        (wait_empty p.next_msg_id)
  where
    p : Process
    p = w.procs my_rank
com_send my_rank rank size (wait_empty my_msg_id) w =
    if w.shared.server_box.empty == 0
    then blocked
    else next (set_box w (fill_box my_rank rank size my_msg_id w)) post_full
com_send my_rank rank size post_full w =
    next (set_box w (record box { full = box.full + 1 })) wait_delivered
  where
    box : ServerMailbox
    box = w.shared.server_box
com_send my_rank rank size wait_delivered w =
    if box.delivered == 0
    then blocked
    else next (set_box w (record box { delivered = box.delivered - 1 })) post_empty
  where
    box : ServerMailbox
    box = w.shared.server_box
com_send my_rank rank size post_empty w =
    next (set_box w (record box { empty = box.empty + 1 })) count
  where
    box : ServerMailbox
    box = w.shared.server_box
com_send my_rank rank size count w =
    returned (set_slot w my_rank (record slot { pending_acks = slot.pending_acks + 1 })) tt
  where
    slot : ProcessSlot
    slot = w.shared.slots my_rank
