-- ===== src/Db/Slot/Handover.antt =====
-- The response slot between its two threads in rpBenchmark2/main.c: receiver_thread_main sets it,
-- compute_thread_main waits for it. Their steps are interleaved in any order.
pub mod Order
use rp_maksym_zaveriukha.Base.{List, [], ◌∷◌, ◌++◌, ℕ, Option, none, some, ℤ}
use rp_maksym_zaveriukha.Db.Slot.{
  ResponseSlot, next, returned, blocked, SetPc, WaitPc, response_slot_init, response_slot_set,
  response_slot_wait,
}

-- A response as the slot holds it: the request's id and the size.
abbrev pub Response : Type 0
Response = ℤ × ℕ

pub data Setter : Type 0 where
  ready : Setter
  setting : ℤ → ℕ → SetPc → Setter

-- `stopped` is the exit on a response to another request.
pub data Waiter : Type 0 where
  idle : Waiter
  waiting : ℤ → WaitPc → Waiter
  stopped : Waiter

-- `given` and `taken` record the responses that were written and that response_slot_wait has read
-- and let go, oldest first; no step reads them.
pub record Handover : Type 0 where
  pub slot : ResponseSlot
  pub setter : Setter
  pub waiter : Waiter
  pub given : List Response
  pub taken : List Response

pub data Move : Type 0 where
  give : ℤ → ℕ → Move  -- the receiver thread calls response_slot_set
  expect : ℤ → Move  -- the compute thread calls response_slot_wait
  set wait : Move  -- one atomic step of the call that is under way

abbrev pub record_set : ℤ → ℕ → SetPc → List Response → List Response
record_set id size SetPc.locked given = given ++ ((id, size) ∷ [])
record_set id size _ given = given

abbrev pub record_wait : WaitPc → List Response → List Response
record_wait (WaitPc.post_empty id size) taken = taken ++ ((id, size) ∷ [])
record_wait _ taken = taken

abbrev pub after_wait : Option ℕ → Waiter
after_wait none = stopped
after_wait (some size) = idle

pub setter_step : Setter → Handover → Option Handover
setter_step ready h = none
setter_step (setting id size pc) h = elim (response_slot_set id size pc h.slot) [
  | next s pc' ↦
      some
        (record h { slot = s; setter = setting id size pc'; given = record_set id size pc h.given })
  | returned s _ ↦ some (record h { slot = s; setter = ready })
  | blocked ↦ none
]

pub waiter_step : Waiter → Handover → Option Handover
waiter_step idle h = none
waiter_step (waiting id pc) h = elim (response_slot_wait id pc h.slot) [
  | next s pc' ↦ some (record h { slot = s; waiter = waiting id pc' })
  | returned s r ↦
      some (record h { slot = s; waiter = after_wait r; taken = record_wait pc h.taken })
  | blocked ↦ none
]
waiter_step stopped h = none

abbrev pub begin_set : ℤ → ℕ → Setter → Handover → Option Handover
begin_set id size ready h = some (record h { setter = setting id size SetPc.wait_empty })
begin_set id size _ h = none

abbrev pub begin_wait : ℤ → Waiter → Handover → Option Handover
begin_wait id idle h = some (record h { waiter = waiting id WaitPc.wait_full })
begin_wait id _ h = none

-- `none` where the thread cannot make that move now.
unfoldable pub handover_step : Move → Handover → Option Handover
unfolding setter_step waiter_step
handover_step (give id size) h = begin_set id size h.setter h
handover_step (expect id) h = begin_wait id h.waiter h
handover_step set h = setter_step h.setter h
handover_step wait h = waiter_step h.waiter h

-- A schedule, from the first move on; moves that cannot be made are passed over.
unfoldable pub play : List Move → Handover → Handover
unfolding handover_step
play [] h = h
play (m ∷ ms) h = play ms (elim (handover_step m h) [ none ↦ h | some h' ↦ h' ])

unfoldable pub handover_start : Handover
unfolding response_slot_init
handover_start = record {
  slot = response_slot_init;
  setter = ready;
  waiter = idle;
  given = [];
  taken = [];
}
