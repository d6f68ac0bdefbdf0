-- ===== src/Com/Router.antt =====
-- server_loop of rpBenchmark2/com.c: the router process.
use rp_maksym_zaveriukha.Base.{
  ℕ, ◌+◌, ◌-◌, ◌==◌, not, is_rank_below, is_minus_one, index, if◌then◌else◌,
}
use rp_maksym_zaveriukha.Com.{
  World, ServerMailbox, ProcessSlot, Outcome, next, returned, blocked, failed, invalid_rank,
  set_box, set_slot,
}

-- Each point stands before the operation that it names, with the index of `dest_box`.
pub data RouterPc : Type 0 where
  wait_full : RouterPc
  wait_inbox : ℕ → RouterPc
  post_inbox : ℕ → RouterPc
  post_delivered : ℕ → RouterPc

abbrev pub fill_inbox : ServerMailbox → ProcessSlot → ProcessSlot
fill_inbox box slot = record slot {
  empty = slot.empty - 1;
  src_rank = box.src_rank;
  msg_id = box.msg_id;
  size = box.size;
  inbox_shm_name = box.shm_name;
}

-- The result is the `break` on the sentinel -1.
unfoldable pub server_loop : RouterPc → World → Outcome RouterPc Unit
server_loop wait_full w =
    if box.full == 0
    then blocked
    else if is_minus_one box.dest_rank
    then returned (set_box w (record box { full = box.full - 1 })) tt
    else if not (is_rank_below box.dest_rank w.shared.nr_proc)
    then failed invalid_rank
    else next (set_box w (record box { full = box.full - 1 })) (wait_inbox (index box.dest_rank))
  where
    box : ServerMailbox
    box = w.shared.server_box
server_loop (wait_inbox dest) w =
    if (w.shared.slots dest).empty == 0
    then blocked
    else next (set_slot w dest (fill_inbox w.shared.server_box (w.shared.slots dest)))
        (post_inbox dest)
server_loop (post_inbox dest) w =
    next (set_slot w dest (record slot { full = slot.full + 1 })) (post_delivered dest)
  where
    slot : ProcessSlot
    slot = w.shared.slots dest
server_loop (post_delivered dest) w =
    next (set_box w (record box { delivered = box.delivered + 1 })) wait_full
  where
    box : ServerMailbox
    box = w.shared.server_box
