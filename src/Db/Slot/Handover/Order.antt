-- ===== src/Db/Slot/Handover/Order.antt =====
-- The invariant of the response slot and its two threads: no response is lost or overwritten.
use mathlib.Core.List.{append_assoc, append-nil}
use rp_maksym_zaveriukha.Base.{
  ℕ, ◌+◌, ◌≡◌, ◌==◌, refl, List, [], ◌∷◌, ◌++◌, Option, none, some, ℤ, arith, if◌then◌else◌,
}
use rp_maksym_zaveriukha.Db.Slot.{SetPc, WaitPc, response_slot_set, response_slot_wait}
use rp_maksym_zaveriukha.Db.Slot.Handover.{
  Response, Setter, ready, setting, Waiter, waiting, stopped, Handover, Move, give, expect, set,
  wait, setter_step, waiter_step, handover_step, play, handover_start,
}

-- The slot taken for writing; a response written and not yet announced.
abbrev pub writes : Setter → ℕ
writes (setting id size SetPc.locked) = 1
writes _ = 0

abbrev pub posts : Setter → ℕ
posts (setting id size SetPc.post_full) = 1
posts _ = 0

-- An announcement taken; the slot read and not yet given back; the response in hand.
abbrev pub holds : Waiter → ℕ
holds (waiting id WaitPc.locked) = 1
holds _ = 0

abbrev pub returns : Waiter → ℕ
returns (waiting id (WaitPc.post_empty got size)) = 1
returns _ = 0

abbrev pub in_hand : Waiter → List Response
in_hand (waiting id (WaitPc.post_empty got size)) = (got, size) ∷ []
in_hand _ = []

-- The response that lies in the slot, if one does.
abbrev pub unread : Handover → List Response
unread h =
    if h.slot.full_sem + posts h.setter + holds h.waiter == 0
    then []
    else (h.slot.request_id, h.slot.size) ∷ []

pub record Handed (h : Handover) : Type 0 where
  pub one :
      h.slot.empty_sem
        + h.slot.full_sem
        + writes h.setter
        + posts h.setter
        + holds h.waiter
        + returns h.waiter
      ≡ 1
  pub order : h.given ≡ h.taken ++ (in_hand h.waiter ++ unread h)

abbrev Kept : Option Handover → Type 0
Kept none = Unit
Kept (some h) = Handed h

setter_step-Handed :
    (st : Setter) (h : Handover) → Handed h → h.setter ≡ st → Kept (setter_step st h)
unfolding setter_step response_slot_set
setter_step-Handed ready h f e = tt
setter_step-Handed (setting id size SetPc.wait_empty) h f e = ground arith
setter_step-Handed (setting id size SetPc.locked) h f e =
    ground (arith, append_assoc h.taken (in_hand h.waiter) ((id, size) ∷ []))
setter_step-Handed (setting id size SetPc.post_full) h f e = ground arith

waiter_step-Handed :
    (wt : Waiter) (h : Handover) → Handed h → h.waiter ≡ wt → Kept (waiter_step wt h)
unfolding waiter_step response_slot_wait
waiter_step-Handed Waiter.idle h f e = tt
waiter_step-Handed (waiting id WaitPc.wait_full) h f e = ground arith
waiter_step-Handed (waiting id WaitPc.locked) h f e = ground arith
waiter_step-Handed (waiting id (WaitPc.post_empty got size)) h f e =
    ground (arith, append_assoc h.taken ((got, size) ∷ []) (unread h))
waiter_step-Handed stopped h f e = tt

handover_step-Handed : (m : Move) (h : Handover) → Handed h → Kept (handover_step m h)
unfolding handover_step
handover_step-Handed (give id size) h f = ground arith
handover_step-Handed (expect id) h f = ground arith
handover_step-Handed set h f = setter_step-Handed h.setter h f refl
handover_step-Handed wait h f = waiter_step-Handed h.waiter h f refl

play-Handed : (ms : List Move) {h : Handover} → Handed h → Handed (play ms h)
unfolding play
play-Handed [] f = f
play-Handed (m ∷ ms) {h} f =
    play-Handed ms (settle (handover_step m h) (handover_step-Handed m h f))
  where
    settle : (o : Option Handover) → Kept o → Handed (elim o [ none ↦ h | some h' ↦ h' ])
    settle none k = f
    settle (some h') k = k

handover_start-Handed : Handed handover_start
unfolding handover_start
handover_start-Handed = record { one = refl; order = refl }

-- From the initial slot and for every schedule of the receiver thread's calls of response_slot_set
-- and the compute thread's calls of response_slot_wait: the responses that response_slot_wait has
-- returned, then the one it is about to return, then the one that lies in the slot, are in order
-- exactly the responses that response_slot_set has written.
pub slot_order :
    (ms : List Move)
    → (play ms handover_start).given
      ≡ (play ms handover_start).taken
        ++ (in_hand (play ms handover_start).waiter ++ unread (play ms handover_start))
slot_order ms = (play-Handed ms handover_start-Handed).order

empty_for :
    (h : Handover) (id : ℤ) (size : ℕ)
    → Handed h
    → h.setter ≡ setting id size SetPc.locked
    → h.given ≡ h.taken
empty_for h id size f e = ground (arith, append-nil h.taken)

-- From the initial slot and for every schedule of those calls, when response_slot_set is about to
-- write a response, every response written before has been returned by response_slot_wait: none is
-- overwritten.
pub slot_free_for_set :
    (ms : List Move) (id : ℤ) (size : ℕ)
    → (play ms handover_start).setter ≡ setting id size SetPc.locked
    → (play ms handover_start).given ≡ (play ms handover_start).taken
slot_free_for_set ms id size e =
    empty_for (play ms handover_start) id size (play-Handed ms handover_start-Handed) e
