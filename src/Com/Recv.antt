-- ===== src/Com/Recv.antt =====
-- com_recv of rpBenchmark2/com.c, one step for each semaphore operation and for the copy.
use rp_maksym_zaveriukha.Base.{
  ℕ, ◌+◌, ◌-◌, ◌==◌, List, [], none, some, ℤ, minus_one, is_rank_below, index, if◌then◌else◌,
}
use rp_maksym_zaveriukha.Com.{
  World, ProcessSlot, Outcome, next, returned, blocked, failed, no_segment, out_of_bounds, set_slot,
}
use rp_maksym_zaveriukha.Com.Segment.{read_message_from_segment}

-- The locals: `sender_rank`, `sender_msg_id`, `*size`, and the copy of the message.
pub data RecvPc : Type 0 where
  wait_full : RecvPc
  copy : ℤ → ℕ → ℕ → RecvPc
  post_empty : ℤ → ℕ → ℕ → List ℕ → RecvPc
  acknowledge : ℤ → ℕ → ℕ → List ℕ → RecvPc
  post_ack : ℤ → ℕ → List ℕ → RecvPc

-- What the caller gets: the message and its size.
pub record Message : Type 0 where
  pub bytes : List ℕ
  pub size : ℕ

abbrev pub clear_inbox : ProcessSlot → ProcessSlot
clear_inbox slot = record slot { src_rank = minus_one; msg_id = 0; size = 0; inbox_shm_name = [] }

unfoldable pub com_recv : ℕ → RecvPc → World → Outcome RecvPc Message
unfolding read_message_from_segment
com_recv rank wait_full w =
    if slot.full == 0
    then blocked
    else next (set_slot w rank (record slot { full = slot.full - 1 }))
        (copy slot.src_rank slot.msg_id slot.size)
  where
    slot : ProcessSlot
    slot = w.shared.slots rank
com_recv rank (copy sender_rank sender_msg_id size) w =
    elim (read_message_from_segment w.shm (w.shared.slots rank).inbox_shm_name
      (w.shared.slots rank).size) [
        | none ↦ failed no_segment
        | some msg ↦
            next (set_slot w rank (clear_inbox (w.shared.slots rank)))
              (post_empty sender_rank sender_msg_id size msg)
      ]
com_recv rank (post_empty sender_rank sender_msg_id size msg) w =
    next (set_slot w rank (record slot { empty = slot.empty + 1 }))
      (acknowledge sender_rank sender_msg_id size msg)
  where
    slot : ProcessSlot
    slot = w.shared.slots rank
com_recv rank (acknowledge sender_rank sender_msg_id size msg) w =
    if is_rank_below sender_rank w.shared.nr_proc
    then next (set_slot w (index sender_rank) sender_slot) (post_ack sender_rank size msg)
    else failed out_of_bounds
  where
    sender_slot : ProcessSlot
    sender_slot = record (w.shared.slots (index sender_rank)) {
      ack_from_rank = ℤ.pos rank;
      ack_msg_id = sender_msg_id;
    }
com_recv rank (post_ack sender_rank size msg) w =
    returned (set_slot w (index sender_rank) (record slot { ack_full = slot.ack_full + 1 }))
      (record { bytes = msg; size = size })
  where
    slot : ProcessSlot
    slot = w.shared.slots (index sender_rank)
