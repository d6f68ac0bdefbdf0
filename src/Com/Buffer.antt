-- ===== src/Com/Buffer.antt =====
-- The send buffer of rpBenchmark2/com.c: send_buffer_lock_checked, send_buffer_unlock_checked,
-- wait_for_pending_acks, com_prepare_send_buffer and com_finish_send_buffer.
use rp_maksym_zaveriukha.Base.{
  ℕ, ◌-◌, ◌==◌, ltb, Bool, true, false, not, ◌||◌, List, none, some, minus_one, if◌then◌else◌,
}
use rp_maksym_zaveriukha.Com.{
  World, Process, ProcessSlot, Outcome, next, returned, blocked, failed, call, already_active,
  not_active, no_segment, set_slot, set_proc,
}
use rp_maksym_zaveriukha.Com.Segment.{shm_set, ftruncate}

-- The mutex is taken and `g_send_buffer_active` is set under it.
unfoldable pub send_buffer_lock_checked : {P : Type 0} → ℕ → World → Outcome P Unit
send_buffer_lock_checked rank w =
    if p.locked
    then blocked
    else if p.active
    then failed already_active
    else returned (set_proc w rank (record p { locked = true; active = true })) tt
  where
    p : Process
    p = w.procs rank

unfoldable pub send_buffer_unlock_checked : {P : Type 0} → ℕ → World → Outcome P Unit
send_buffer_unlock_checked rank w =
    if p.active
    then returned (set_proc w rank (record p { locked = false; active = false })) tt
    else failed not_active
  where
    p : Process
    p = w.procs rank

-- `test`: the condition of the while loop, and the sem_wait under it; `acked`: after the sem_wait.
pub data WaitPc : Type 0 where
  test acked : WaitPc

abbrev pub reset_acks : ProcessSlot → ProcessSlot
reset_acks slot = record slot { ack_msg_id = 0; ack_from_rank = minus_one; prepared_size = 0 }

unfoldable pub wait_for_pending_acks : ℕ → WaitPc → World → Outcome WaitPc Unit
wait_for_pending_acks rank test w =
    if slot.pending_acks == 0
    then returned (set_slot w rank (reset_acks slot)) tt
    else if slot.ack_full == 0
    then blocked
    else next (set_slot w rank (record slot { ack_full = slot.ack_full - 1 })) acked
  where
    slot : ProcessSlot
    slot = w.shared.slots rank
wait_for_pending_acks rank acked w =
    next (set_slot w rank (record slot { pending_acks = slot.pending_acks - 1 })) test
  where
    slot : ProcessSlot
    slot = w.shared.slots rank

pub data PreparePc : Type 0 where
  lock : PreparePc
  draining : WaitPc → PreparePc
  mapping : PreparePc

-- `if (size > slot->capacity) ftruncate …`, and the old mapping, if any, is given up.
abbrev pub grow : ℕ → ℕ → List ℕ → World → World
grow rank size bytes w =
    if ltb (w.shared.slots rank).capacity size
    then record (set_proc (set_slot w rank (record (w.shared.slots rank) { capacity = size })) rank
        (if (w.procs rank).mapped
          then record (w.procs rank) { mapped = false; mapping_capacity = 0 }
          else w.procs rank)) {
            shm = shm_set w.shm (w.shared.slots rank).own_shm_name (ftruncate size bytes);
          }
    else w

-- `if (g_send_mapping == NULL || g_send_mapping_capacity < size) mmap …`
abbrev pub remap : ℕ → ℕ → World → World
remap rank size w =
    if not (w.procs rank).mapped || ltb (w.procs rank).mapping_capacity size
    then set_proc w rank (record (w.procs rank) { mapped = true; mapping_capacity = size })
    else w

-- The result tells whether the pointer is not NULL.
abbrev pub set_prepared_size : ℕ → ℕ → World → World
set_prepared_size rank size w =
    set_slot w rank (record (w.shared.slots rank) { prepared_size = size })

unfoldable pub com_prepare_send_buffer : ℕ → ℕ → PreparePc → World → Outcome PreparePc Bool
unfolding send_buffer_lock_checked wait_for_pending_acks
com_prepare_send_buffer rank size lock w =
    call (λ p. p) (λ _. draining test) (send_buffer_lock_checked rank w)
com_prepare_send_buffer rank size (draining p) w =
    call draining (λ _. mapping) (wait_for_pending_acks rank p w)
com_prepare_send_buffer rank size mapping w = elim (w.shm (w.shared.slots rank).own_shm_name) [
  | none ↦ failed no_segment
  | some bytes ↦
      if size == 0
      then returned (set_prepared_size rank 0 (grow rank size bytes w)) false
      else returned (set_prepared_size rank size (remap rank size (grow rank size bytes w))) true
]

unfoldable pub com_finish_send_buffer : {P : Type 0} → ℕ → World → Outcome P Unit
unfolding send_buffer_unlock_checked
com_finish_send_buffer rank w = send_buffer_unlock_checked rank (set_prepared_size rank 0 w)
