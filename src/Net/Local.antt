-- ===== src/Net/Local.antt =====
-- Conservation laws of one step of one thread, whatever the other threads do.
use rp_maksym_zaveriukha.Base.{ℕ, ◌+◌, ◌≡◌, ◌≢◌, ◌≤◌, true, false, [], arith}
use rp_maksym_zaveriukha.Com.{World, Ensures, Outcome, next, returned, blocked, failed}
use rp_maksym_zaveriukha.Com.Buffer.{WaitPc, PreparePc}
use rp_maksym_zaveriukha.Com.Send.{SendPc}
use rp_maksym_zaveriukha.Com.Recv.{RecvPc}
use rp_maksym_zaveriukha.Com.Finalize.{FinalizePc}
use rp_maksym_zaveriukha.Net.Thread.{
  left, Pc, idle, preparing, choosing, sending, receiving, finalizing, thread_step,
}
use rp_maksym_zaveriukha.Net.Weights.{bit, fills, awaits, counts, reads_of, owns_of, is_final}

-- The mailbox's semaphores, the lock of com_finalize, and the weights of the thread.
abbrev pub BoxLaw : World → Pc → World → Pc → Type 0
BoxLaw w p w' p' =
    (w'.shared.server_box.empty
        + w'.shared.server_box.full
        + w'.shared.server_box.delivered
        + fills p'
      ≡ w.shared.server_box.empty
        + w.shared.server_box.full
        + w.shared.server_box.delivered
        + fills p)
    × (w'.shared.server_box.full + w'.shared.server_box.delivered + awaits p
        ≡ w.shared.server_box.full + w.shared.server_box.delivered + awaits p')
    × (w'.shared.finalize_lock + counts p' ≡ w.shared.finalize_lock + counts p)

-- A predicate on the state and the program point after a step of a thread, if it makes one.
abbrev pub Turns {ℓ} : (World → Pc → Type ℓ) → Outcome Pc Unit → Type ℓ
Turns G o = Ensures G (λ w _. G w idle) o

module _ {ℓ κ} (G : World → Pc → Type ℓ) (H : World → Pc → Type κ) where
  pub Turns-map :
      (o : Outcome Pc Unit) → ((w : World) (p : Pc) → G w p → H w p) → Turns G o → Turns H o
  Turns-map (next w p) f h = f w p h
  Turns-map (returned w r) f h = f w idle h
  Turns-map blocked f h = tt
  Turns-map (failed e) f h = tt

  pub Turns-pair : (o : Outcome Pc Unit) → Turns G o → Turns H o → Turns (λ w p. G w p × H w p) o
  Turns-pair (next w p) g h = (g, h)
  Turns-pair (returned w r) g h = (g, h)
  Turns-pair blocked g h = tt
  Turns-pair (failed e) g h = tt

pub Turns-forall {ℓ} :
    (G : ℕ → World → Pc → Type ℓ) (o : Outcome Pc Unit)
    → ((d : ℕ) → Turns (G d) o)
    → Turns (λ w p. (d : ℕ) → G d w p) o
Turns-forall G (next w p) h = h
Turns-forall G (returned w r) h = h
Turns-forall G blocked h = tt
Turns-forall G (failed e) h = tt

pub thread_step-BoxLaw : (rank : ℕ) (p : Pc) (w : World) → Turns (BoxLaw w p) (thread_step rank p w)
unfolding thread_step
thread_step-BoxLaw rank (sending msg dest dests SendPc.enter) w = ground arith
thread_step-BoxLaw rank (preparing msg dests (PreparePc.draining WaitPc.test)) w = ground arith
thread_step-BoxLaw rank (choosing msg []) w = ground arith
thread_step-BoxLaw rank (receiving RecvPc.wait_full) w = ground arith
thread_step-BoxLaw rank (finalizing (FinalizePc.draining WaitPc.test)) w = ground arith
thread_step-BoxLaw rank (finalizing (FinalizePc.post_lock true)) w = ground arith
thread_step-BoxLaw rank _ w = ground arith

-- The semaphores of the inbox of process `d`.
abbrev pub InboxLaw : ℕ → ℕ → World → Pc → World → Pc → Type 0
InboxLaw d rank w p w' p' =
    (w'.shared.slots d).empty + (w'.shared.slots d).full + reads_of d rank p'
    ≡ (w.shared.slots d).empty + (w.shared.slots d).full + reads_of d rank p

pub thread_step-InboxLaw :
    (rank : ℕ) (p : Pc) (w : World) (d : ℕ) → Turns (InboxLaw d rank w p) (thread_step rank p w)
unfolding thread_step
thread_step-InboxLaw rank (sending msg dest dests SendPc.enter) w d = ground arith
thread_step-InboxLaw rank (preparing msg dests (PreparePc.draining WaitPc.test)) w d = ground arith
thread_step-InboxLaw rank (choosing msg []) w d = ground arith
thread_step-InboxLaw rank (receiving RecvPc.wait_full) w d = ground arith
thread_step-InboxLaw rank (finalizing (FinalizePc.draining WaitPc.test)) w d = ground arith
thread_step-InboxLaw rank (finalizing (FinalizePc.post_lock true)) w d = ground arith
thread_step-InboxLaw rank _ w d = ground arith

-- The mutex of the send buffer of process `r`, and the flag under it.
abbrev pub OwnerLaw : ℕ → ℕ → World → Pc → World → Pc → Type 0
OwnerLaw r rank w p w' p' =
    (bit (w'.procs r).locked + owns_of r rank p ≡ bit (w.procs r).locked + owns_of r rank p')
    × (bit (w'.procs r).active + owns_of r rank p ≡ bit (w.procs r).active + owns_of r rank p')

-- What the law needs of the thread: a thread that has the buffer has the mutex and the flag, and
-- com_finalize starts with the buffer free.
pub record Owned (rank : ℕ) (p : Pc) (w : World) : Type 0 where
  pub has_lock : owns_of rank rank p ≤ bit (w.procs rank).locked
  pub has_flag : owns_of rank rank p ≤ bit (w.procs rank).active
  pub is_free : is_final p ≡ true → (w.procs rank).active ≡ false

pub thread_step-OwnerLaw :
    (rank : ℕ) (p : Pc) (w : World)
    → Owned rank p w
    → (r : ℕ) → Turns (OwnerLaw r rank w p) (thread_step rank p w)
unfolding thread_step
thread_step-OwnerLaw rank (sending msg dest dests SendPc.enter) w o r = ground arith
thread_step-OwnerLaw rank (preparing msg dests (PreparePc.draining WaitPc.test)) w o r =
    ground arith
thread_step-OwnerLaw rank (choosing msg []) w o r = ground arith
thread_step-OwnerLaw rank (receiving RecvPc.wait_full) w o r = ground arith
thread_step-OwnerLaw rank (finalizing (FinalizePc.draining WaitPc.test)) w o r = ground arith
thread_step-OwnerLaw rank (finalizing (FinalizePc.post_lock true)) w o r = ground arith
thread_step-OwnerLaw rank _ w o r = ground arith

-- A thread is in com_finalize after a step only if it was before, no step changes `nr_proc`, and a
-- thread that has left makes no step.
abbrev pub FrameLaw : World → Pc → World → Pc → Type 0
FrameLaw w p w' p' =
    (is_final p' ≡ true → is_final p ≡ true) × (w'.shared.nr_proc ≡ w.shared.nr_proc) × (p ≢ left)

pub thread_step-FrameLaw :
    (rank : ℕ) (p : Pc) (w : World) → Turns (FrameLaw w p) (thread_step rank p w)
unfolding thread_step
thread_step-FrameLaw rank (sending msg dest dests SendPc.enter) w = ground arith
thread_step-FrameLaw rank (preparing msg dests (PreparePc.draining WaitPc.test)) w = ground arith
thread_step-FrameLaw rank (choosing msg []) w = ground arith
thread_step-FrameLaw rank (receiving RecvPc.wait_full) w = ground arith
thread_step-FrameLaw rank (finalizing (FinalizePc.draining WaitPc.test)) w = ground arith
thread_step-FrameLaw rank (finalizing (FinalizePc.post_lock true)) w = ground arith
thread_step-FrameLaw rank _ w = ground arith
