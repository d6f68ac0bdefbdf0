-- ===== src/Net/Sound.antt =====
-- What keeps the checks of com_send, com_recv and server_loop from ending a process: the prepared size
-- of the buffer and the ranks in the locals of a thread.
pub mod Kept
pub mod Exits
pub mod Mapped
pub mod Remaps
pub mod Mapping
pub mod Copied
use rp_maksym_zaveriukha.Base.{
  ℕ, ◌+◌, ◌<◌, ◌≡◌, ◌==◌, Bool, true, false, List, [], ◌∷◌, ℤ, pos, arith, refl, sym, ◌∙◌, ap,
  length, is_rank_below, Option, none, some, Bool-cases, inl, inr,
}
use rp_maksym_zaveriukha.Com.{World, call, Failure, failed, next, set_slot, no_segment}
use rp_maksym_zaveriukha.Com.Segment.{read_message_from_segment}
use rp_maksym_zaveriukha.Com.Buffer.{WaitPc, PreparePc}
use rp_maksym_zaveriukha.Com.Send.{SendPc}
use rp_maksym_zaveriukha.Com.Recv.{RecvPc, com_recv, clear_inbox}
use rp_maksym_zaveriukha.Com.Finalize.{FinalizePc}
use rp_maksym_zaveriukha.Net.Thread.{
  Pc, preparing, writing, choosing, sending, receiving, received, finalizing, thread_step,
  write_message,
}
use rp_maksym_zaveriukha.Net.System.{Sent}
use rp_maksym_zaveriukha.Net.Local.{Turns}
use rp_maksym_zaveriukha.Net.Flow.{Fact}

abbrev pub Prepared : World → ℕ → List ℕ → Type 0
Prepared w r msg = (w.shared.slots r).prepared_size ≡ length msg

abbrev pub Exists : World → ℤ → Type 0
Exists w rank = is_rank_below rank w.shared.nr_proc ≡ true

-- For a thread of process `r` at each program point.
abbrev pub Checked : World → ℕ → Pc → Type 0
Checked w r (writing msg dests) = Prepared w r msg
Checked w r (choosing msg dests) = Prepared w r msg
Checked w r (sending msg dest dests SendPc.enter) = Prepared w r msg
Checked w r (sending msg dest dests p) = Prepared w r msg × Exists w dest
Checked w r (receiving (RecvPc.post_empty src id size msg)) = Exists w src
Checked w r (receiving (RecvPc.acknowledge src id size msg)) = Exists w src
Checked w r _ = Unit

-- The points whose step sets the prepared size.
abbrev pub prepares : Pc → Bool
prepares (preparing msg dests (PreparePc.draining WaitPc.test)) = true
prepares (preparing msg dests PreparePc.mapping) = true
prepares (choosing msg []) = true
prepares (finalizing FinalizePc.enter) = true
prepares (finalizing (FinalizePc.draining WaitPc.test)) = true
prepares _ = false

pub record CheckFrame (d rank : ℕ) (w : World) (p : Pc) (w' : World) : Type 0 where
  pub count : w'.shared.nr_proc ≡ w.shared.nr_proc
  pub prepared :
      (rank ≡ d → prepares p ≡ false)
      → (w'.shared.slots d).prepared_size ≡ (w.shared.slots d).prepared_size

pub thread_step-CheckFrame :
    (rank : ℕ) (p : Pc) (w : World) (d : ℕ)
    → Turns (λ w' p'. CheckFrame d rank w p w') (thread_step rank p w)
unfolding thread_step
thread_step-CheckFrame rank (sending msg dest dests SendPc.enter) w d = ground arith
thread_step-CheckFrame rank (preparing msg dests (PreparePc.draining WaitPc.test)) w d =
    ground arith
thread_step-CheckFrame rank (preparing msg dests PreparePc.mapping) w d = ground arith
thread_step-CheckFrame rank (choosing msg []) w d = ground arith
thread_step-CheckFrame rank (receiving RecvPc.wait_full) w d = ground arith
thread_step-CheckFrame rank (finalizing (FinalizePc.draining WaitPc.test)) w d = ground arith
thread_step-CheckFrame rank (finalizing (FinalizePc.post_lock true)) w d = ground arith
thread_step-CheckFrame rank _ w d = ground arith

abbrev NewChecked : ℕ → Pc → World → Type 0
NewChecked rank p w = Turns (λ w' p'. Checked w' rank p') (thread_step rank p w)

copied-Checked :
    (rank : ℕ) (src : ℤ) (id size : ℕ) (w : World) (o : Option (List ℕ))
    → Exists w src
    → Turns
        (λ w p. Checked w rank p)
        (call receiving received
          (elim o [ none ↦ failed no_segment | some m ↦ next w (RecvPc.post_empty src id size m) ]))
copied-Checked rank src id size w none h = tt
copied-Checked rank src id size w (some m) h = h

pub thread_step-Checked :
    (rank : ℕ) (p : Pc) (w : World) (sent : List Sent)
    → Fact w sent rank p
    → Checked w rank p
    → NewChecked rank p w
unfolding thread_step com_recv
thread_step-Checked rank (writing msg dests) w sent f c = ground (arith, c)
thread_step-Checked rank (sending msg dest dests SendPc.enter) w sent f c = ground (arith, c)
thread_step-Checked rank (sending msg dest dests SendPc.count) w sent f c = ground (arith, c)
thread_step-Checked rank (preparing msg dests (PreparePc.draining WaitPc.test)) w sent f c =
    ground arith
thread_step-Checked rank (preparing msg dests PreparePc.mapping) w sent f c = ground arith
thread_step-Checked rank (choosing msg []) w sent f c = ground arith
thread_step-Checked rank (choosing msg (x ∷ xs)) w sent f c = c
thread_step-Checked rank (receiving RecvPc.wait_full) w sent f c = ground arith
thread_step-Checked rank (receiving (RecvPc.copy src id size)) w sent f c =
    copied-Checked rank src id size (set_slot w rank (clear_inbox (w.shared.slots rank)))
      (read_message_from_segment w.shm (w.shared.slots rank).inbox_shm_name
        (w.shared.slots rank).size)
      (ground (arith, f.0, f.2.src, f.2.exists))
thread_step-Checked rank (finalizing (FinalizePc.draining WaitPc.test)) w sent f c = ground arith
thread_step-Checked rank (finalizing (FinalizePc.post_lock true)) w sent f c = ground arith
thread_step-Checked rank _ w sent f c = ground arith
