-- ===== src/Net/Routing.antt =====
-- Conservation laws of one step of the router.
use rp_maksym_zaveriukha.Base.{ℕ, ◌+◌, ◌≡◌, Option, none, some, arith}
use rp_maksym_zaveriukha.Com.{World, Ensures, Outcome}
use rp_maksym_zaveriukha.Com.Router.{RouterPc, server_loop}
use rp_maksym_zaveriukha.Net.Weights.{routes, delivers}

-- A predicate on the state and the router after a step of the router, if it makes one.
abbrev pub Routes {ℓ} : (World → Option RouterPc → Type ℓ) → Outcome RouterPc Unit → Type ℓ
Routes G o = Ensures (λ w p. G w (some p)) (λ w _. G w none) o

-- What a step of the router leaves alone, and the semaphores of the mailbox.
pub record RouterLaw (w : World) (p : Option RouterPc) (w' : World) (p' : Option RouterPc)
    : Type 0 where
  pub same : w'.shared.nr_proc ≡ w.shared.nr_proc
  pub lock : w'.shared.finalize_lock ≡ w.shared.finalize_lock
  pub procs : w'.procs ≡ w.procs
  pub empty : w'.shared.server_box.empty ≡ w.shared.server_box.empty
  pub requests :
      w'.shared.server_box.full + w'.shared.server_box.delivered + routes p'
      ≡ w.shared.server_box.full + w.shared.server_box.delivered + routes p

pub server_loop-RouterLaw :
    (p : RouterPc) (w : World) → Routes (RouterLaw w (some p)) (server_loop p w)
unfolding server_loop
server_loop-RouterLaw RouterPc.wait_full w = ground arith
server_loop-RouterLaw (RouterPc.wait_inbox d) w = ground arith
server_loop-RouterLaw (RouterPc.post_inbox d) w = ground arith
server_loop-RouterLaw (RouterPc.post_delivered d) w = ground arith

-- The semaphores of the inbox of process `d`.
abbrev pub RouterInboxLaw : ℕ → World → Option RouterPc → World → Option RouterPc → Type 0
RouterInboxLaw d w p w' p' =
    (w'.shared.slots d).empty + (w'.shared.slots d).full + delivers d p'
    ≡ (w.shared.slots d).empty + (w.shared.slots d).full + delivers d p

pub server_loop-RouterInboxLaw :
    (p : RouterPc) (w : World) (d : ℕ) → Routes (RouterInboxLaw d w (some p)) (server_loop p w)
unfolding server_loop
server_loop-RouterInboxLaw RouterPc.wait_full w d = ground arith
server_loop-RouterInboxLaw (RouterPc.wait_inbox e) w d = ground arith
server_loop-RouterInboxLaw (RouterPc.post_inbox e) w d = ground arith
server_loop-RouterInboxLaw (RouterPc.post_delivered e) w d = ground arith
