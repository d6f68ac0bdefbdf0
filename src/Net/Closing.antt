-- ===== src/Net/Closing.antt =====
-- How com_finalize counts: what each step of a thread does to `finalized_count`, and what a thread
-- knows of it.
pub mod Kept
pub mod Shutdown
use rp_maksym_zaveriukha.Base.{
  ℕ, ◌+◌, ◌≡◌, ◌≤◌, ◌==◌, ◌⊎◌, Bool, true, false, List, [], ◌∷◌, minus_one, is_minus_one, ℤ, pos,
  negsuc, arith, refl, ap, Bool-cases, inl, inr, Option, none, some,
}
use rp_maksym_zaveriukha.Com.{World}
use rp_maksym_zaveriukha.Com.Buffer.{WaitPc, PreparePc}
use rp_maksym_zaveriukha.Com.Send.{SendPc}
use rp_maksym_zaveriukha.Com.Recv.{RecvPc}
use rp_maksym_zaveriukha.Com.Router.{RouterPc, server_loop}
use rp_maksym_zaveriukha.Com.Finalize.{FinalizePc}
use rp_maksym_zaveriukha.Net.Thread.{
  Pc, preparing, choosing, sending, receiving, finalizing, exited, thread_step,
}
use rp_maksym_zaveriukha.Net.Local.{Turns}
use rp_maksym_zaveriukha.Net.Routing.{Routes}

-- A thread that has counted its process.
abbrev pub counted : Pc → ℕ
counted (finalizing (FinalizePc.post_lock is_last)) = 1
counted (finalizing FinalizePc.wait_empty) = 1
counted (finalizing FinalizePc.post_full) = 1
counted (finalizing (FinalizePc.unmap is_last)) = 1
counted (exited is_last) = 1
counted _ = 0

-- A thread inside com_finalize or after it.
abbrev pub is_ending : Pc → Bool
is_ending (finalizing p) = true
is_ending (exited is_last) = true
is_ending _ = false

-- A thread that has found its process to be the last one.
abbrev pub Last : World → Pc → Type 0
Last w (finalizing (FinalizePc.post_lock true)) = w.shared.nr_proc ≤ w.shared.finalized_count
Last w (finalizing FinalizePc.wait_empty) = w.shared.nr_proc ≤ w.shared.finalized_count
Last w (finalizing FinalizePc.post_full) = w.shared.nr_proc ≤ w.shared.finalized_count
Last w (finalizing (FinalizePc.unmap true)) = w.shared.nr_proc ≤ w.shared.finalized_count
Last w (exited true) = w.shared.nr_proc ≤ w.shared.finalized_count
Last w _ = Unit

pub record CountLaw (w : World) (p : Pc) (w' : World) (p' : Pc) : Type 0 where
  pub count : w'.shared.finalized_count + counted p ≡ w.shared.finalized_count + counted p'
  pub more : w.shared.finalized_count ≤ w'.shared.finalized_count
  pub processes : w'.shared.nr_proc ≡ w.shared.nr_proc
  pub last : Last w p → Last w' p'

pub thread_step-CountLaw :
    (rank : ℕ) (p : Pc) (w : World) → Turns (CountLaw w p) (thread_step rank p w)
unfolding thread_step
thread_step-CountLaw rank (sending msg dest dests SendPc.enter) w = ground arith
thread_step-CountLaw rank (preparing msg dests (PreparePc.draining WaitPc.test)) w = ground arith
thread_step-CountLaw rank (choosing msg []) w = ground arith
thread_step-CountLaw rank (receiving RecvPc.wait_full) w = ground arith
thread_step-CountLaw rank (finalizing (FinalizePc.draining WaitPc.test)) w = ground arith
thread_step-CountLaw rank (finalizing FinalizePc.wait_lock) w =
    elim (Bool-cases (w.shared.finalized_count + 1 == w.shared.nr_proc)) [
      | inl e ↦ rw e (ground arith)
      | inr e ↦ rw e (ground arith)
    ]
thread_step-CountLaw rank (finalizing (FinalizePc.post_lock true)) w = ground arith
thread_step-CountLaw rank (finalizing (FinalizePc.post_lock false)) w = ground arith
thread_step-CountLaw rank (finalizing (FinalizePc.unmap true)) w = ground arith
thread_step-CountLaw rank (finalizing (FinalizePc.unmap false)) w = ground arith
thread_step-CountLaw rank _ w = ground arith

-- A thread comes into com_finalize only by calling it.
pub thread_step-ending :
    (rank : ℕ) (p : Pc) (w : World)
    → Turns (λ w' p'. is_ending p' ≡ true → is_ending p ≡ true) (thread_step rank p w)
unfolding thread_step
thread_step-ending rank (sending msg dest dests SendPc.enter) w = ground arith
thread_step-ending rank (preparing msg dests (PreparePc.draining WaitPc.test)) w = ground arith
thread_step-ending rank (choosing msg []) w = ground arith
thread_step-ending rank (receiving RecvPc.wait_full) w = ground arith
thread_step-ending rank (finalizing (FinalizePc.draining WaitPc.test)) w = ground arith
thread_step-ending rank _ w = ground arith

pub Last-frame :
    (w w' : World) (p : Pc)
    → w'.shared.nr_proc ≡ w.shared.nr_proc
    → w.shared.finalized_count ≤ w'.shared.finalized_count
    → Last w p
    → Last w' p
Last-frame w w' (finalizing (FinalizePc.post_lock true)) same more h = omega (arith, same, more, h)
Last-frame w w' (finalizing (FinalizePc.post_lock false)) same more h = tt
Last-frame w w' (finalizing FinalizePc.wait_empty) same more h = omega (arith, same, more, h)
Last-frame w w' (finalizing FinalizePc.post_full) same more h = omega (arith, same, more, h)
Last-frame w w' (finalizing (FinalizePc.unmap true)) same more h = omega (arith, same, more, h)
Last-frame w w' (finalizing (FinalizePc.unmap false)) same more h = tt
Last-frame w w' (exited true) same more h = omega (arith, same, more, h)
Last-frame w w' (exited false) same more h = tt
Last-frame w w' _ same more h = tt

-- Once the router has stopped, the shutdown request lies in the mailbox.
abbrev pub Stopped : World → Option RouterPc → Type 0
Stopped w none = w.shared.server_box.dest_rank ≡ minus_one
Stopped w (some p) = Unit

pub record RouterCount (w : World) (w' : World) (q : Option RouterPc) : Type 0 where
  pub count : w'.shared.finalized_count ≡ w.shared.finalized_count
  pub processes : w'.shared.nr_proc ≡ w.shared.nr_proc
  pub stopped : Stopped w' q

is_minus_one-eq : (r : ℤ) → is_minus_one r ≡ true → r ≡ minus_one
is_minus_one-eq (pos n) h = cc
is_minus_one-eq (negsuc n) h = ap negsuc (ground arith)

pub server_loop-RouterCount : (p : RouterPc) (w : World) → Routes (RouterCount w) (server_loop p w)
unfolding server_loop
server_loop-RouterCount RouterPc.wait_full w =
    ground (arith, is_minus_one-eq w.shared.server_box.dest_rank)
server_loop-RouterCount (RouterPc.wait_inbox d) w = ground arith
server_loop-RouterCount (RouterPc.post_inbox d) w = ground arith
server_loop-RouterCount (RouterPc.post_delivered d) w = ground arith
