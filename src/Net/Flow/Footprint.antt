-- ===== src/Net/Flow/Footprint.antt =====
-- What one step of a thread may change.
use rp_maksym_zaveriukha.Base.{ℕ, ◌≡◌, ◌<◌, ◌≤◌, none, Bool, true, false, [], arith}
use rp_maksym_zaveriukha.Com.{Name, World}
use rp_maksym_zaveriukha.Com.Names.{eq_name}
use rp_maksym_zaveriukha.Com.Buffer.{WaitPc, PreparePc}
use rp_maksym_zaveriukha.Com.Send.{SendPc}
use rp_maksym_zaveriukha.Com.Recv.{RecvPc}
use rp_maksym_zaveriukha.Com.Finalize.{FinalizePc}
use rp_maksym_zaveriukha.Net.Thread.{
  Pc, preparing, writing, choosing, sending, receiving, finalizing, thread_step,
}
use rp_maksym_zaveriukha.Net.Local.{Turns}

-- The points whose step writes the segment, the request in the mailbox, an inbox, or the count of
-- pending acknowledgements.
abbrev pub writes_segment : Pc → Bool
writes_segment (preparing msg dests PreparePc.mapping) = true
writes_segment (writing msg dests) = true
writes_segment _ = false

abbrev pub writes_box : Pc → Bool
writes_box (sending msg dest dests (SendPc.wait_empty id)) = true
writes_box (finalizing FinalizePc.wait_empty) = true
writes_box _ = false

abbrev pub clears_inbox : Pc → Bool
clears_inbox (receiving (RecvPc.copy src id size)) = true
clears_inbox _ = false

abbrev pub takes_inbox : Pc → Bool
takes_inbox (receiving RecvPc.wait_full) = true
takes_inbox _ = false

abbrev pub counts_acks : Pc → Bool
counts_acks (preparing msg dests (PreparePc.draining WaitPc.acked)) = true
counts_acks (sending msg dest dests SendPc.count) = true
counts_acks (finalizing (FinalizePc.draining WaitPc.acked)) = true
counts_acks _ = false

-- The fields of the slot of process `d`.
pub record SlotFrame (d rank : ℕ) (w : World) (p : Pc) (w' : World) : Type 0 where
  pub own : (w'.shared.slots d).own_shm_name ≡ (w.shared.slots d).own_shm_name
  pub inbox :
      (rank ≡ d → clears_inbox p ≡ false)
      → ((w'.shared.slots d).src_rank ≡ (w.shared.slots d).src_rank)
        × ((w'.shared.slots d).size ≡ (w.shared.slots d).size)
        × ((w'.shared.slots d).inbox_shm_name ≡ (w.shared.slots d).inbox_shm_name)
  pub full : (rank ≡ d → takes_inbox p ≡ false) → (w'.shared.slots d).full ≡ (w.shared.slots d).full
  pub less : (w'.shared.slots d).full ≤ (w.shared.slots d).full
  pub pending :
      (rank ≡ d → counts_acks p ≡ false)
      → (w'.shared.slots d).pending_acks ≡ (w.shared.slots d).pending_acks

pub thread_step-SlotFrame :
    (rank : ℕ) (p : Pc) (w : World) (d : ℕ)
    → Turns (λ w' p'. SlotFrame d rank w p w') (thread_step rank p w)
unfolding thread_step
thread_step-SlotFrame rank (sending msg dest dests SendPc.enter) w d = ground arith
thread_step-SlotFrame rank (preparing msg dests (PreparePc.draining WaitPc.test)) w d = ground arith
thread_step-SlotFrame rank (preparing msg dests PreparePc.mapping) w d = ground arith
thread_step-SlotFrame rank (choosing msg []) w d = ground arith
thread_step-SlotFrame rank (receiving RecvPc.wait_full) w d = ground arith
thread_step-SlotFrame rank (finalizing (FinalizePc.draining WaitPc.test)) w d = ground arith
thread_step-SlotFrame rank (finalizing (FinalizePc.post_lock true)) w d = ground arith
thread_step-SlotFrame rank _ w d = ground arith

-- The request in the mailbox, and every segment but the own one.
pub record WorldFrame (rank : ℕ) (w : World) (p : Pc) (w' : World) : Type 0 where
  pub request :
      writes_box p ≡ false
      → (w'.shared.server_box.src_rank ≡ w.shared.server_box.src_rank)
        × (w'.shared.server_box.dest_rank ≡ w.shared.server_box.dest_rank)
        × (w'.shared.server_box.size ≡ w.shared.server_box.size)
        × (w'.shared.server_box.shm_name ≡ w.shared.server_box.shm_name)
  pub waits : writes_box p ≡ true → 0 < w.shared.server_box.empty
  pub segments : writes_segment p ≡ false → w'.shm ≡ w.shm

pub thread_step-WorldFrame :
    (rank : ℕ) (p : Pc) (w : World) → Turns (λ w' p'. WorldFrame rank w p w') (thread_step rank p w)
unfolding thread_step
thread_step-WorldFrame rank (sending msg dest dests SendPc.enter) w = ground arith
thread_step-WorldFrame rank (preparing msg dests (PreparePc.draining WaitPc.test)) w = ground arith
thread_step-WorldFrame rank (preparing msg dests PreparePc.mapping) w = ground arith
thread_step-WorldFrame rank (choosing msg []) w = ground arith
thread_step-WorldFrame rank (receiving RecvPc.wait_full) w = ground arith
thread_step-WorldFrame rank (finalizing (FinalizePc.draining WaitPc.test)) w = ground arith
thread_step-WorldFrame rank (finalizing (FinalizePc.post_lock true)) w = ground arith
thread_step-WorldFrame rank _ w = ground arith

-- Another segment is left alone in any case, and no segment goes away.
abbrev pub OtherSegment : ℕ → World → World → Name → Type 0
OtherSegment rank w w' name =
    (eq_name (w.shared.slots rank).own_shm_name name ≡ false → w'.shm name ≡ w.shm name)
    × (w'.shm name ≡ none → w.shm name ≡ none)

pub thread_step-OtherSegment :
    (rank : ℕ) (p : Pc) (w : World) (name : Name)
    → Turns (λ w' p'. OtherSegment rank w w' name) (thread_step rank p w)
unfolding thread_step
thread_step-OtherSegment rank (sending msg dest dests SendPc.enter) w name = ground arith
thread_step-OtherSegment rank (preparing msg dests (PreparePc.draining WaitPc.test)) w name =
    ground arith
thread_step-OtherSegment rank (preparing msg dests PreparePc.mapping) w name = ground arith
thread_step-OtherSegment rank (choosing msg []) w name = ground arith
thread_step-OtherSegment rank (receiving RecvPc.wait_full) w name = ground arith
thread_step-OtherSegment rank (finalizing (FinalizePc.draining WaitPc.test)) w name = ground arith
thread_step-OtherSegment rank (finalizing (FinalizePc.post_lock true)) w name = ground arith
thread_step-OtherSegment rank _ w name = ground arith
