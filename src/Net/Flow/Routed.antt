-- ===== src/Net/Flow/Routed.antt =====
-- What one step of the router changes: the facts, the inboxes and the account.
use rp_maksym_zaveriukha.Base.{
  ℕ, ◌+◌, ◌≡◌, ◌<◌, ◌≤◌, ◌==◌, Bool, true, false, arith, refl, Option, some, total, total-update,
}
use rp_maksym_zaveriukha.Com.{World}
use rp_maksym_zaveriukha.Com.Router.{RouterPc, server_loop, fill_inbox}
use rp_maksym_zaveriukha.Net.Routing.{Routes}
use rp_maksym_zaveriukha.Net.Flow.{RouterFact, inbox_weight, delivered_from, announces}

-- The inbox that the router fills in this step, and the one that it hands over.
abbrev pub fills_inbox : RouterPc → ℕ → Bool
fills_inbox (RouterPc.wait_inbox e) d = e == d
fills_inbox _ d = false

abbrev pub hands_inbox : RouterPc → ℕ → Bool
hands_inbox (RouterPc.post_inbox e) d = e == d
hands_inbox _ d = false

pub record RouterFrame (d : ℕ) (w : World) (p : RouterPc) (w' : World) : Type 0 where
  pub shm : w'.shm ≡ w.shm
  pub request :
      (w'.shared.server_box.src_rank ≡ w.shared.server_box.src_rank)
      × (w'.shared.server_box.dest_rank ≡ w.shared.server_box.dest_rank)
      × (w'.shared.server_box.size ≡ w.shared.server_box.size)
      × (w'.shared.server_box.shm_name ≡ w.shared.server_box.shm_name)
  pub own : (w'.shared.slots d).own_shm_name ≡ (w.shared.slots d).own_shm_name
  pub pending : (w'.shared.slots d).pending_acks ≡ (w.shared.slots d).pending_acks
  pub inbox :
      fills_inbox p d ≡ false
      → ((w'.shared.slots d).src_rank ≡ (w.shared.slots d).src_rank)
        × ((w'.shared.slots d).size ≡ (w.shared.slots d).size)
        × ((w'.shared.slots d).inbox_shm_name ≡ (w.shared.slots d).inbox_shm_name)
  pub waits : fills_inbox p d ≡ true → 0 < (w.shared.slots d).empty
  pub full : hands_inbox p d ≡ false → (w'.shared.slots d).full ≡ (w.shared.slots d).full

pub server_loop-RouterFrame :
    (p : RouterPc) (w : World) (d : ℕ) → Routes (λ w' p'. RouterFrame d w p w') (server_loop p w)
unfolding server_loop
server_loop-RouterFrame RouterPc.wait_full w d = ground arith
server_loop-RouterFrame (RouterPc.wait_inbox e) w d = ground arith
server_loop-RouterFrame (RouterPc.post_inbox e) w d = ground arith
server_loop-RouterFrame (RouterPc.post_delivered e) w d = ground arith

pub server_loop-RouterFact :
    (p : RouterPc) (w : World)
    → RouterFact w (some p)
    → Routes (λ w' p'. RouterFact w' p') (server_loop p w)
unfolding server_loop
server_loop-RouterFact RouterPc.wait_full w h = ground arith
server_loop-RouterFact (RouterPc.wait_inbox e) w h = ground (arith, h)
server_loop-RouterFact (RouterPc.post_inbox e) w h = ground (arith, h)
server_loop-RouterFact (RouterPc.post_delivered e) w h = ground arith

-- What the account needs of the state before the step.
pub record RouterReady (p : RouterPc) (w : World) : Type 0 where
  pub fact : RouterFact w (some p)
  pub not_delivered : w.shared.server_box.full + announces (some p) ≤ 1
  pub alone : (e : ℕ) → p ≡ RouterPc.post_inbox e → w.shared.server_box.delivered ≡ 0
  pub empty_inbox :
      (e : ℕ)
      → p ≡ RouterPc.wait_inbox e
      → 0 < (w.shared.slots e).empty
      → (w.shared.slots e).full ≡ 0
  pub not_full : (e : ℕ) → p ≡ RouterPc.post_inbox e → (w.shared.slots e).full ≡ 0

abbrev pub RouterAccountLaw : ℕ → World → Option RouterPc → World → Option RouterPc → Type 0
RouterAccountLaw r w p w' p' =
    (w'.shared.slots r).ack_full
      + total (inbox_weight r) w.shared.nr_proc w'.shared.slots
      + delivered_from r w p
    ≡ (w.shared.slots r).ack_full
      + total (inbox_weight r) w.shared.nr_proc w.shared.slots
      + delivered_from r w' p'

pub server_loop-RouterAccountLaw :
    (r : ℕ) (p : RouterPc) (w : World)
    → RouterReady p w
    → Routes (RouterAccountLaw r w (some p)) (server_loop p w)
unfolding server_loop
server_loop-RouterAccountLaw r RouterPc.wait_full w h = ground arith
server_loop-RouterAccountLaw r (RouterPc.wait_inbox e) w h = ground (
  arith,
  h.empty_inbox e refl,
  h.fact,
  total-update (inbox_weight r) w.shared.nr_proc w.shared.slots e
      (fill_inbox w.shared.server_box (w.shared.slots e)),
)
server_loop-RouterAccountLaw r (RouterPc.post_inbox e) w h = ground (
  arith,
  h.alone e refl,
  h.not_full e refl,
  h.fact,
  total-update (inbox_weight r) w.shared.nr_proc w.shared.slots e
      (record (w.shared.slots e) { full = (w.shared.slots e).full + 1 }),
)
server_loop-RouterAccountLaw r (RouterPc.post_delivered e) w h = ground arith
