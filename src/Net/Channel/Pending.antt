-- ===== src/Net/Channel/Pending.antt =====
-- The messages that wait for the router, over a step of one thread.
use mathlib.Core.Path.{subst}
use rp_maksym_zaveriukha.Base.{
  ℕ, ◌+◌, ◌≡◌, ◌<◌, ◌==◌, ◌⊎◌, inl, inr, ◌≢◌, true, false, List, [], ◌∷◌, ◌++◌, ℤ, pos, arith, refl,
  sym, ◌∙◌, ap,
}
use rp_maksym_zaveriukha.Com.{World}
use rp_maksym_zaveriukha.Com.Buffer.{WaitPc, PreparePc}
use rp_maksym_zaveriukha.Com.Send.{SendPc}
use rp_maksym_zaveriukha.Com.Recv.{RecvPc}
use rp_maksym_zaveriukha.Com.Finalize.{FinalizePc}
use rp_maksym_zaveriukha.Net.Thread.{
  Pc, preparing, choosing, sending, receiving, finalizing, exited, thread_step,
}
use rp_maksym_zaveriukha.Net.System.{Sent, log_sent}
use rp_maksym_zaveriukha.Net.Weights.{bit, fills, awaits, owns_of}
use rp_maksym_zaveriukha.Net.Local.{Turns}
use rp_maksym_zaveriukha.Net.Flow.{Fact, Requested, Written, Logged}
use rp_maksym_zaveriukha.Net.Channel.{matches, only, outgoing_of, copying_of, logged_for}

-- The call of com_send is recorded by the next step.
abbrev pub CallsSend : Pc → Type 0
CallsSend (choosing msg (dest ∷ dests)) = Unit
CallsSend _ = ⊥

pub outgoing-quiet :
    (r d a b rank : ℕ) (p : Pc) → awaits p ≡ 0 → outgoing_of r d a rank p ≡ outgoing_of r d b rank p
outgoing-quiet r d a b rank (sending msg dest dests SendPc.wait_delivered) h =
    absurd (omega (arith, h))
outgoing-quiet r d a b rank (sending msg dest dests SendPc.enter) h = refl
outgoing-quiet r d a b rank (sending msg dest dests (SendPc.wait_empty id)) h = refl
outgoing-quiet r d a b rank (sending msg dest dests SendPc.post_full) h = refl
outgoing-quiet r d a b rank _ h = refl

only-foreign :
    (r d rank : ℕ) (dest : ℤ) (msg : List ℕ)
    → bit (rank == r) ≡ 0
    → only (matches r d rank dest) msg ≡ []
only-foreign r d rank dest msg h = ground arith

-- Only the thread that holds the send buffer of `r` has a message of `r` on its way.
pub outgoing-owns : (r d c rank : ℕ) (p : Pc) → owns_of r rank p ≡ 0 → outgoing_of r d c rank p ≡ []
outgoing-owns r d c rank (sending msg dest dests SendPc.wait_delivered) h =
    ground (arith, only-foreign r d rank dest msg h)
outgoing-owns r d c rank (sending msg dest dests SendPc.enter) h = only-foreign r d rank dest msg h
outgoing-owns r d c rank (sending msg dest dests (SendPc.wait_empty id)) h =
    only-foreign r d rank dest msg h
outgoing-owns r d c rank (sending msg dest dests SendPc.post_full) h =
    only-foreign r d rank dest msg h
outgoing-owns r d c rank _ h = refl

-- The request that the router serves is the message on its way of the thread that waits.
pub awaits-outgoing :
    (w : World) (sent : List Sent) (rank e : ℕ) (p : Pc)
    → Fact w sent rank p
    → 0 < awaits p
    → w.shared.server_box.dest_rank ≡ pos e
    → (msg : List ℕ) × Written w rank msg
      × Logged rank (pos e) msg sent
      × Requested w rank (pos e) msg
      × (owns_of rank rank p ≡ 1)
      × ((r d : ℕ) → outgoing_of r d 0 rank p ≡ only (matches r d rank (pos e)) msg)
awaits-outgoing w sent rank e (sending msg dest dests SendPc.wait_delivered) f h is = (
  msg,
  f.0,
  subst (λ x. Logged rank x msg sent) (sym f.2.dest_is ∙ is) f.1,
  subst (λ x. Requested w rank x msg) (sym f.2.dest_is ∙ is) f.2,
  ground arith,
  λ r d. ap (λ x. only (matches r d rank x) msg) (sym f.2.dest_is ∙ is),
)
awaits-outgoing w sent rank e (finalizing (FinalizePc.unmap true)) f h is = cc
awaits-outgoing w sent rank e (finalizing (FinalizePc.unmap false)) f h is =
    absurd (omega (arith, h))
awaits-outgoing w sent rank e (exited true) f h is = cc
awaits-outgoing w sent rank e (exited false) f h is = absurd (omega (arith, h))
awaits-outgoing w sent rank e _ f h is = absurd (omega (arith, h))

-- Once it is handed over, it is no longer on its way.
pub outgoing-closed :
    (r d c rank : ℕ) (p : Pc) → 0 < c → 0 < awaits p → outgoing_of r d c rank p ≡ []
outgoing-closed r d c rank (sending msg dest dests SendPc.wait_delivered) lt h = ground arith
outgoing-closed r d c rank (sending msg dest dests SendPc.enter) lt h = absurd (omega (arith, h))
outgoing-closed r d c rank (sending msg dest dests (SendPc.wait_empty id)) lt h =
    absurd (omega (arith, h))
outgoing-closed r d c rank (sending msg dest dests SendPc.post_full) lt h =
    absurd (omega (arith, h))
outgoing-closed r d c rank _ lt h = refl

-- What a step of a thread other than a call of com_send does to its message on the way: nothing. And
-- `delivered` is taken by the thread that waits for it.
pub record PendingLaw (r d a rank : ℕ) (w : World) (p : Pc) (w' : World) (p' : Pc) : Type 0 where
  pub mine :
      ¬ (CallsSend p)
      → outgoing_of r d (w'.shared.server_box.delivered + a) rank p'
        ≡ outgoing_of r d (w.shared.server_box.delivered + a) rank p
  pub answered : (w'.shared.server_box.delivered ≡ w.shared.server_box.delivered) ⊎ (awaits p ≡ 1)

pub thread_step-PendingLaw :
    (r d a rank : ℕ) (p : Pc) (w : World)
    → (0 < fills p → w.shared.server_box.delivered + a ≡ 0)
    → Turns (PendingLaw r d a rank w p) (thread_step rank p w)
unfolding thread_step
thread_step-PendingLaw r d a rank (sending msg dest dests SendPc.enter) w h = ground arith
thread_step-PendingLaw r d a rank (sending msg dest dests SendPc.post_full) w h = ground (arith, h)
thread_step-PendingLaw r d a rank (sending msg dest dests SendPc.wait_delivered) w h = ground arith
thread_step-PendingLaw r d a rank (preparing msg dests (PreparePc.draining WaitPc.test)) w h =
    ground arith
thread_step-PendingLaw r d a rank (choosing msg []) w h = ground arith
thread_step-PendingLaw r d a rank (choosing msg (x ∷ xs)) w h = ground arith
thread_step-PendingLaw r d a rank (receiving RecvPc.wait_full) w h = ground arith
thread_step-PendingLaw r d a rank (finalizing (FinalizePc.draining WaitPc.test)) w h = ground arith
thread_step-PendingLaw r d a rank (finalizing (FinalizePc.post_lock true)) w h = ground arith
thread_step-PendingLaw r d a rank _ w h = ground arith

-- A call of com_send puts a message on its way, `many` times: once if it is one of `r` for `d`.
pub record CallLaw (r d c rank : ℕ) (sent : List Sent) (w : World) (p : Pc) (w' : World) (p' : Pc)
    : Type 0 where
  pub msg : List ℕ
  pub many : ℕ
  pub same : w' ≡ w
  pub before : (b : ℕ) → outgoing_of r d b rank p ≡ []
  pub after : outgoing_of r d c rank p' ≡ only many msg
  pub owner : many ≢ 0 → owns_of r rank p ≡ 1
  pub idle : copying_of d rank p ≡ 0
  pub logged :
      logged_for r d (log_sent (record { rank = rank; pc = p }) sent)
      ≡ logged_for r d sent ++ only many msg

pub thread_step-CallLaw :
    (r d c rank : ℕ) (sent : List Sent) (p : Pc) (w : World)
    → CallsSend p
    → Turns (CallLaw r d c rank sent w p) (thread_step rank p w)
unfolding thread_step
thread_step-CallLaw r d c rank sent (choosing msg (dest ∷ dests)) w h = record {
  msg = msg;
  many = matches r d rank dest;
  same = refl;
  before = λ b. refl;
  after = refl;
  owner = λ ne. ground arith;
  idle = refl;
  logged = refl;
}
thread_step-CallLaw r d c rank sent (choosing msg []) w h = absurd h
thread_step-CallLaw r d c rank sent _ w h = absurd h

pub CallsSend-cases : (p : Pc) → CallsSend p ⊎ (¬ (CallsSend p))
CallsSend-cases (choosing msg []) = inr (λ h. h)
CallsSend-cases (choosing msg (dest ∷ dests)) = inl tt
CallsSend-cases _ = inr (λ h. h)

pub log_sent-quiet :
    (rank : ℕ) (p : Pc) (sent : List Sent)
    → ¬ (CallsSend p)
    → log_sent (record { rank = rank; pc = p }) sent ≡ sent
log_sent-quiet rank (choosing msg []) sent h = refl
log_sent-quiet rank (choosing msg (dest ∷ dests)) sent h = absurd (h tt)
log_sent-quiet rank _ sent h = refl
