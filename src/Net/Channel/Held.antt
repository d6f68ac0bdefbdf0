-- ===== src/Net/Channel/Held.antt =====
-- The inbox of one process, over a step of one thread.
use mathlib.Core.Path.{subst}
use mathlib.Core.List.{append-nil}
use rp_maksym_zaveriukha.Base.{
  ℕ, ◌+◌, ◌≡◌, ◌==◌, List, [], ◌++◌, ℤ, pos, arith, refl, sym, ◌∙◌, ap, Option, none, some, true,
  index, Bool-cases, inl, inr, ◌⊎◌, ==_refl,
}
use rp_maksym_zaveriukha.Com.{World, call, Failure, failed, next, set_slot, no_segment}
use rp_maksym_zaveriukha.Com.Buffer.{WaitPc, PreparePc}
use rp_maksym_zaveriukha.Com.Segment.{read_message_from_segment}
use rp_maksym_zaveriukha.Com.Send.{SendPc}
use rp_maksym_zaveriukha.Com.Recv.{RecvPc, com_recv, clear_inbox}
use rp_maksym_zaveriukha.Com.Finalize.{FinalizePc}
use rp_maksym_zaveriukha.Net.Thread.{
  Pc, preparing, choosing, sending, receiving, received, finalizing, thread_step,
}
use rp_maksym_zaveriukha.Net.System.{Sent, log_got}
use rp_maksym_zaveriukha.Net.Weights.{reads_of}
use rp_maksym_zaveriukha.Net.Local.{Turns}
use rp_maksym_zaveriukha.Net.Flow.{Fact, Carried}
use rp_maksym_zaveriukha.Net.Flow.Own.{read-Carried}
use rp_maksym_zaveriukha.Net.Channel.{matches, only, logged_for, copying_of, content, freed}

pub copying-reads :
    (d rank : ℕ) (p : Pc)
    → copying_of d rank p ≡ 0 ⊎ ((copying_of d rank p ≡ 1) × (reads_of d rank p ≡ 1))
copying-reads d rank (receiving (RecvPc.copy src id size)) = elim (Bool-cases (rank == d)) [
  | inl e ↦ inr (rw e (refl, refl))
  | inr e ↦ inl (rw e refl)
]
copying-reads d rank _ = inl refl

-- A message is in the inbox until it is copied.
pub record HeldLaw (d rank : ℕ) (w : World) (p : Pc) (w' : World) (p' : Pc) : Type 0 where
  pub keeps :
      copying_of d rank p ≡ 0
      → (w'.shared.slots d).full + copying_of d rank p' ≡ (w.shared.slots d).full
  pub frees :
      copying_of d rank p ≡ 1
      → ((w'.shared.slots d).full ≡ (w.shared.slots d).full) × (copying_of d rank p' ≡ 0)

pub thread_step-HeldLaw :
    (d rank : ℕ) (p : Pc) (w : World) → Turns (HeldLaw d rank w p) (thread_step rank p w)
unfolding thread_step
thread_step-HeldLaw d rank (sending msg dest dests SendPc.enter) w = ground arith
thread_step-HeldLaw d rank (preparing msg dests (PreparePc.draining WaitPc.test)) w = ground arith
thread_step-HeldLaw d rank (choosing msg []) w = ground arith
thread_step-HeldLaw d rank (receiving RecvPc.wait_full) w = ground arith
thread_step-HeldLaw d rank (finalizing (FinalizePc.draining WaitPc.test)) w = ground arith
thread_step-HeldLaw d rank (finalizing (FinalizePc.post_lock true)) w = ground arith
thread_step-HeldLaw d rank _ w = ground arith

-- The message of an inbox is the one that its sender wrote.
pub content-Carried :
    (w : World) (sent : List Sent) (d : ℕ) (c : Carried w sent d) → content w d ≡ c.msg
unfolding content
content-Carried w sent d c = rw (content, read-Carried d w sent c) refl

-- What a step of a thread adds to the log of the copies: the content of the inbox that it frees.
abbrev pub GotLaw : ℕ → ℕ → ℕ → List Sent → World → Pc → World → Pc → Type 0
GotLaw r d rank got w p w' p' =
    logged_for r d (log_got rank p p' got)
    ≡ logged_for r d got ++ only (freed r d rank w p) (content w d)

copied-freed :
    (r d rank from : ℕ) (src : ℤ) (id size : ℕ) (w : World) (msg : List ℕ)
    → content w rank ≡ msg
    → src ≡ (w.shared.slots rank).src_rank
    → src ≡ pos from
    → only (matches r d (index src) (pos rank)) msg
      ≡ only (freed r d rank w (receiving (RecvPc.copy src id size))) (content w d)
copied-freed r d rank from src id size w msg c a b = elim (Bool-cases (rank == d)) [
  | inl same ↦
      let e : rank ≡ d = ground arith in
      subst
        (λ k.
          only (matches r k (index src) (pos rank)) msg
          ≡ only (freed r k rank w (receiving (RecvPc.copy src id size))) (content w k))
        e (rw (==_refl rank, c, sym a, b) (ground arith))
  | inr other ↦ rw (b, other) (ground arith)
]

-- The copy goes on with what it has read.
copied-GotLaw :
    (r d rank from : ℕ) (src : ℤ) (id size : ℕ) (got : List Sent) (w w' : World)
    (o : Option (List ℕ)) (msg : List ℕ) (e : Failure)
    → o ≡ some msg
    → content w rank ≡ msg
    → src ≡ (w.shared.slots rank).src_rank
    → src ≡ pos from
    → Turns (GotLaw r d rank got w (receiving (RecvPc.copy src id size))) (
        call receiving received
          (elim o [ none ↦ failed e | some m ↦ next w' (RecvPc.post_empty src id size m) ]))
copied-GotLaw r d rank from src id size got w w' none msg e h c a b = tt
copied-GotLaw r d rank from src id size got w w' (some m) msg e h c a b =
    let same : m ≡ msg = cc in
    ap (λ x. logged_for r d got ++ x)
      (copied-freed r d rank from src id size w m (c ∙ sym same) a b)

pub thread_step-GotLaw :
    (r d rank : ℕ) (got sent : List Sent) (p : Pc) (w : World)
    → Fact w sent rank p
    → Turns (GotLaw r d rank got w p) (thread_step rank p w)
unfolding thread_step com_recv
thread_step-GotLaw r d rank got sent (receiving (RecvPc.copy src id size)) w f =
    copied-GotLaw r d rank f.2.from src id size got w
      (set_slot w rank (clear_inbox (w.shared.slots rank)))
      (read_message_from_segment w.shm (w.shared.slots rank).inbox_shm_name
        (w.shared.slots rank).size)
      f.2.msg no_segment (read-Carried rank w sent f.2) (content-Carried w sent rank f.2) f.0
      (f.0 ∙ f.2.src)
thread_step-GotLaw r d rank got sent (sending msg dest dests SendPc.enter) w f =
    ground (arith, append-nil (logged_for r d got))
thread_step-GotLaw r d rank got sent (preparing msg dests (PreparePc.draining WaitPc.test)) w f =
    ground (arith, append-nil (logged_for r d got))
thread_step-GotLaw r d rank got sent (choosing msg []) w f =
    ground (arith, append-nil (logged_for r d got))
thread_step-GotLaw r d rank got sent (receiving RecvPc.wait_full) w f =
    ground (arith, append-nil (logged_for r d got))
thread_step-GotLaw r d rank got sent (finalizing (FinalizePc.draining WaitPc.test)) w f =
    ground (arith, append-nil (logged_for r d got))
thread_step-GotLaw r d rank got sent (finalizing (FinalizePc.post_lock true)) w f =
    ground (arith, append-nil (logged_for r d got))
thread_step-GotLaw r d rank got sent _ w f = ground (arith, append-nil (logged_for r d got))
