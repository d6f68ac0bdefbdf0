-- ===== src/Db/Slot.antt =====
-- The response slot of rpBenchmark2/main.c: the receiver thread puts a response there, the compute
-- thread waits for it. Each function is a sequence of atomic steps: a semaphore operation, or the
-- section under the mutex.
pub mod Handover
use rp_maksym_zaveriukha.Base.{
  ℕ, ◌+◌, ◌-◌, ◌==◌, Bool, false, Option, none, some, ℤ, minus_one, if◌then◌else◌,
}

pub record ResponseSlot : Type 0 where
  pub request_id : ℤ
  pub size : ℕ
  pub empty_sem : ℕ
  pub full_sem : ℕ

-- One atomic step, as for the queue.
pub data Progress (P R : Type 0) : Type 0 where
  next : ResponseSlot → P → Progress P R
  returned : ResponseSlot → R → Progress P R
  blocked : Progress P R

unfoldable pub response_slot_init : ResponseSlot
response_slot_init = record { request_id = minus_one; size = 0; empty_sem = 1; full_sem = 0 }

pub data SetPc : Type 0 where
  wait_empty locked post_full : SetPc

unfoldable pub response_slot_set : ℤ → ℕ → SetPc → ResponseSlot → Progress SetPc Unit
response_slot_set request_id size wait_empty s =
    if s.empty_sem == 0 then blocked else next (record s { empty_sem = s.empty_sem - 1 }) locked
response_slot_set request_id size locked s =
    next (record s { request_id = request_id; size = size }) post_full
response_slot_set request_id size post_full s = returned (record s { full_sem = s.full_sem + 1 }) tt

-- The locals `got_request_id` and `*response_size` are live after the locked section.
pub data WaitPc : Type 0 where
  wait_full locked : WaitPc
  post_empty : ℤ → ℕ → WaitPc

abbrev pub same_int : ℤ → ℤ → Bool
same_int (ℤ.pos m) (ℤ.pos n) = m == n
same_int (ℤ.negsuc m) (ℤ.negsuc n) = m == n
same_int _ _ = false

-- `none` is the exit on a response to another request.
unfoldable pub response_slot_wait : ℤ → WaitPc → ResponseSlot → Progress WaitPc (Option ℕ)
response_slot_wait expected wait_full s =
    if s.full_sem == 0 then blocked else next (record s { full_sem = s.full_sem - 1 }) locked
response_slot_wait expected locked s =
    next (record s { request_id = minus_one; size = 0 }) (post_empty s.request_id s.size)
response_slot_wait expected (post_empty got_request_id response_size) s =
    returned (record s { empty_sem = s.empty_sem + 1 })
      (if same_int got_request_id expected then some response_size else none)
