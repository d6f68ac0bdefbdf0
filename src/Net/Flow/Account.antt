-- ===== src/Net/Flow/Account.antt =====
-- The account of the acknowledgements of one process over a step of a thread.
use mathlib.Core.Path.{subst}
use rp_maksym_zaveriukha.Base.{
  ℕ, ◌+◌, ◌-◌, ◌≡◌, ◌<◌, ◌≤◌, ◌==◌, ◌⊎◌, inl, inr, true, false, List, [], arith, refl, sym, Option,
  Bool-cases, if◌then◌else◌, total, total_ext, total-update,
}
use rp_maksym_zaveriukha.Com.{World}
use rp_maksym_zaveriukha.Com.Buffer.{WaitPc, PreparePc}
use rp_maksym_zaveriukha.Com.Send.{SendPc}
use rp_maksym_zaveriukha.Com.Recv.{RecvPc}
use rp_maksym_zaveriukha.Com.Router.{RouterPc}
use rp_maksym_zaveriukha.Com.Finalize.{FinalizePc}
use rp_maksym_zaveriukha.Net.Thread.{
  Pc, preparing, choosing, sending, receiving, finalizing, thread_step,
}
use rp_maksym_zaveriukha.Net.System.{Sent}
use rp_maksym_zaveriukha.Net.Local.{Turns, Turns-map, Turns-pair, Turns-forall}
use rp_maksym_zaveriukha.Net.Flow.{
  Fact, inbox_weight, from_rank, carries_of, acked_of, uncounted_of, delivered_from, announces,
}
use rp_maksym_zaveriukha.Net.Flow.Footprint.{
  takes_inbox, clears_inbox, SlotFrame, thread_step-SlotFrame,
}

-- What the account needs of the state before the step.
pub record Ready (rank : ℕ) (p : Pc) (w : World) (sent : List Sent) (router : Option RouterPc)
    : Type 0 where
  pub fact : Fact w sent rank p
  pub exists : rank < w.shared.nr_proc
  pub box_free :
      0 < w.shared.server_box.empty → w.shared.server_box.delivered + announces router ≡ 0
  pub once : w.shared.server_box.delivered + announces router ≤ 1
  pub binary : (w.shared.slots rank).full ≤ 1
  pub cleared : clears_inbox p ≡ true → (w.shared.slots rank).full ≡ 0

-- The message that this step takes out of the inbox.
abbrev pub took : ℕ → ℕ → World → Pc → ℕ
took r rank w p = if takes_inbox p then from_rank r (w.shared.slots rank).src_rank else 0

abbrev pub TotalLaw : ℕ → ℕ → World → Pc → World → Type 0
TotalLaw r rank w p w' =
    total (inbox_weight r) w.shared.nr_proc w'.shared.slots + took r rank w p
    ≡ total (inbox_weight r) w.shared.nr_proc w.shared.slots

inbox_weight-frame :
    (r d rank : ℕ) (w : World) (p : Pc) (w' : World)
    → SlotFrame d rank w p w'
    → takes_inbox p ≡ false
    → (clears_inbox p ≡ true → (w.shared.slots rank).full ≡ 0)
    → inbox_weight r (w'.shared.slots d) ≡ inbox_weight r (w.shared.slots d)
inbox_weight-frame r d rank w p w' f no_take cleared = elim (Bool-cases (clears_inbox p)) [
  | inl clears ↦ elim (Bool-cases (rank == d)) [
    | inl same ↦ ground (arith, f.full (λ _. no_take), cleared clears)
    | inr other ↦ ground (arith, f.full (λ _. no_take), f.inbox (ground arith))
  ]
  | inr keeps ↦ ground (arith, f.full (λ _. no_take), f.inbox (λ _. keeps))
]

TotalLaw-other :
    (r rank : ℕ) (p : Pc) (w : World)
    → takes_inbox p ≡ false
    → (clears_inbox p ≡ true → (w.shared.slots rank).full ≡ 0)
    → Turns (λ w' p'. TotalLaw r rank w p w') (thread_step rank p w)
TotalLaw-other r rank p w no_take cleared =
    Turns-map (λ w' p'. (d : ℕ) → SlotFrame d rank w p w') (λ w' p'. TotalLaw r rank w p w')
      (thread_step rank p w)
      (λ w' p' f. ground (
        arith,
        total_ext (inbox_weight r) w.shared.nr_proc w'.shared.slots w.shared.slots
            (λ d. inbox_weight-frame r d rank w p w' (f d) no_take cleared),
      ))
      (Turns-forall (λ d w' p'. SlotFrame d rank w p w') (thread_step rank p w)
        (thread_step-SlotFrame rank p w))

TotalLaw-take :
    (r rank : ℕ) (w : World)
    → rank < w.shared.nr_proc
    → (w.shared.slots rank).full ≤ 1
    → Turns
        (λ w' p'. TotalLaw r rank w (receiving RecvPc.wait_full) w')
        (thread_step rank (receiving RecvPc.wait_full) w)
unfolding thread_step
TotalLaw-take r rank w lt le = ground (
  arith,
  total-update (inbox_weight r) w.shared.nr_proc w.shared.slots rank
      (record (w.shared.slots rank) { full = (w.shared.slots rank).full - 1 }) lt,
)

abbrev pub LocalLaw : ℕ → ℕ → Option RouterPc → World → Pc → World → Pc → Type 0
LocalLaw r rank router w p w' p' =
    (w'.shared.slots r).ack_full
      + carries_of r p'
      + acked_of r rank p'
      + (w.shared.slots r).pending_acks
      + delivered_from r w router
      + uncounted_of r rank p
    ≡ (w.shared.slots r).ack_full
      + carries_of r p
      + acked_of r rank p
      + took r rank w p
      + (w'.shared.slots r).pending_acks
      + delivered_from r w' router
      + uncounted_of r rank p'

thread_step-LocalLaw :
    (r rank : ℕ) (router : Option RouterPc) (p : Pc) (w : World) (sent : List Sent)
    → Ready rank p w sent router
    → Turns (LocalLaw r rank router w p) (thread_step rank p w)
unfolding thread_step
thread_step-LocalLaw r rank router (sending msg dest dests SendPc.enter) w sent h = ground arith
thread_step-LocalLaw r rank router (sending msg dest dests (SendPc.wait_empty id)) w sent h =
    ground (arith, h.box_free)
thread_step-LocalLaw r rank router (sending msg dest dests SendPc.wait_delivered) w sent h =
    ground (arith, h.once, h.fact)
thread_step-LocalLaw r rank router (preparing msg dests (PreparePc.draining WaitPc.test)) w sent h =
    ground arith
thread_step-LocalLaw r rank router (preparing msg dests (PreparePc.draining WaitPc.acked)) w sent
      h =
    ground (arith, h.fact)
thread_step-LocalLaw r rank router (choosing msg []) w sent h = ground arith
thread_step-LocalLaw r rank router (receiving RecvPc.wait_full) w sent h = ground arith
thread_step-LocalLaw r rank router (receiving (RecvPc.post_ack src size msg)) w sent h =
    ground (arith, h.fact)
thread_step-LocalLaw r rank router (finalizing (FinalizePc.draining WaitPc.test)) w sent h =
    ground arith
thread_step-LocalLaw r rank router (finalizing (FinalizePc.draining WaitPc.acked)) w sent h =
    ground (arith, h.fact)
thread_step-LocalLaw r rank router (finalizing (FinalizePc.post_lock true)) w sent h = ground arith
thread_step-LocalLaw r rank router (finalizing FinalizePc.wait_empty) w sent h =
    ground (arith, h.box_free)
thread_step-LocalLaw r rank router _ w sent h = ground arith

takes_inbox-cases : (p : Pc) → (p ≡ receiving RecvPc.wait_full) ⊎ (takes_inbox p ≡ false)
takes_inbox-cases (receiving RecvPc.wait_full) = inl refl
takes_inbox-cases _ = inr refl

thread_step-TotalLaw :
    (r rank : ℕ) (router : Option RouterPc) (p : Pc) (w : World) (sent : List Sent)
    → Ready rank p w sent router
    → Turns (λ w' p'. TotalLaw r rank w p w') (thread_step rank p w)
thread_step-TotalLaw r rank router p w sent h = elim (takes_inbox-cases p) [
  | inl e ↦
      subst (λ q. Turns (λ w' p'. TotalLaw r rank w q w') (thread_step rank q w)) (sym e)
        (TotalLaw-take r rank w h.exists h.binary)
  | inr no_take ↦ TotalLaw-other r rank p w no_take h.cleared
]

-- The account of process `r` keeps its balance.
abbrev pub AccountLaw : ℕ → ℕ → Option RouterPc → World → Pc → World → Pc → Type 0
AccountLaw r rank router w p w' p' =
    (w'.shared.slots r).ack_full
      + total (inbox_weight r) w.shared.nr_proc w'.shared.slots
      + carries_of r p'
      + acked_of r rank p'
      + (w.shared.slots r).pending_acks
      + delivered_from r w router
      + uncounted_of r rank p
    ≡ (w.shared.slots r).ack_full
      + total (inbox_weight r) w.shared.nr_proc w.shared.slots
      + carries_of r p
      + acked_of r rank p
      + (w'.shared.slots r).pending_acks
      + delivered_from r w' router
      + uncounted_of r rank p'

pub thread_step-AccountLaw :
    (r rank : ℕ) (router : Option RouterPc) (p : Pc) (w : World) (sent : List Sent)
    → Ready rank p w sent router
    → Turns (AccountLaw r rank router w p) (thread_step rank p w)
thread_step-AccountLaw r rank router p w sent h =
    Turns-map (λ w' p'. TotalLaw r rank w p w' × LocalLaw r rank router w p w' p')
      (AccountLaw r rank router w p) (thread_step rank p w) (λ w' p' l. omega (arith, l.0, l.1))
      (Turns-pair (λ w' p'. TotalLaw r rank w p w') (LocalLaw r rank router w p)
        (thread_step rank p w) (thread_step-TotalLaw r rank router p w sent h)
        (thread_step-LocalLaw r rank router p w sent h))
