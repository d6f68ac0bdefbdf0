-- ===== src/Net/Progress.antt =====
-- Which program points a thread or the router may wait at, and what it waits for.
pub mod Weighed
pub mod Deadlock
use rp_maksym_zaveriukha.Base.{ℕ, ◌<◌, ◌≡◌, ◌⊎◌, Bool, true, false, List, [], ◌∷◌, arith}
use rp_maksym_zaveriukha.Com.{World, blocked}
use rp_maksym_zaveriukha.Com.Buffer.{WaitPc, PreparePc}
use rp_maksym_zaveriukha.Com.Send.{SendPc}
use rp_maksym_zaveriukha.Com.Recv.{RecvPc}
use rp_maksym_zaveriukha.Com.Router.{RouterPc, server_loop}
use rp_maksym_zaveriukha.Com.Finalize.{FinalizePc}
use rp_maksym_zaveriukha.Net.Thread.{
  Pc, idle, preparing, choosing, sending, receiving, finalizing, exited, left, thread_step,
}
use rp_maksym_zaveriukha.Net.Weights.{fills, awaits, counts, reads_of, owns_of}
use rp_maksym_zaveriukha.Net.Flow.{carries_of, acked_of}

-- A process waits for an acknowledgement.
abbrev pub Unacknowledged : World → ℕ → Type 0
Unacknowledged w r = (0 < (w.shared.slots r).pending_acks) × ((w.shared.slots r).ack_full ≡ 0)

-- What a thread of process `rank` that waits at a point waits for.
abbrev pub Waits : ℕ → World → Pc → Type 0
Waits rank w idle = Unit
Waits rank w left = Unit
Waits rank w (exited is_last) = Unit
Waits rank w (preparing msg dests PreparePc.lock) = (w.procs rank).locked ≡ true
Waits rank w (preparing msg dests (PreparePc.draining WaitPc.test)) = Unacknowledged w rank
Waits rank w (sending msg dest dests (SendPc.wait_empty id)) = w.shared.server_box.empty ≡ 0
Waits rank w (sending msg dest dests SendPc.wait_delivered) = w.shared.server_box.delivered ≡ 0
Waits rank w (receiving RecvPc.wait_full) = (w.shared.slots rank).full ≡ 0
Waits rank w (finalizing (FinalizePc.draining WaitPc.test)) = Unacknowledged w rank
Waits rank w (finalizing FinalizePc.wait_lock) = w.shared.finalize_lock ≡ 0
Waits rank w (finalizing FinalizePc.wait_empty) = w.shared.server_box.empty ≡ 0
Waits rank w _ = ⊥

pub thread_step-Waits :
    (rank : ℕ) (p : Pc) (w : World) → thread_step rank p w ≡ blocked → Waits rank w p
unfolding thread_step
thread_step-Waits rank (preparing msg dests PreparePc.lock) w h = ground arith
thread_step-Waits rank (preparing msg dests (PreparePc.draining WaitPc.test)) w h = ground arith
thread_step-Waits rank (sending msg dest dests SendPc.enter) w h = ground arith
thread_step-Waits rank (sending msg dest dests (SendPc.wait_empty id)) w h = ground arith
thread_step-Waits rank (sending msg dest dests SendPc.wait_delivered) w h = ground arith
thread_step-Waits rank (choosing msg []) w h = ground arith
thread_step-Waits rank (receiving RecvPc.wait_full) w h = ground arith
thread_step-Waits rank (finalizing (FinalizePc.draining WaitPc.test)) w h = ground arith
thread_step-Waits rank (finalizing FinalizePc.wait_lock) w h = ground arith
thread_step-Waits rank (finalizing FinalizePc.wait_empty) w h = ground arith
thread_step-Waits rank (finalizing (FinalizePc.post_lock true)) w h = ground arith
thread_step-Waits rank _ w h = ground arith

abbrev pub RouterWaits : World → RouterPc → Type 0
RouterWaits w RouterPc.wait_full = w.shared.server_box.full ≡ 0
RouterWaits w (RouterPc.wait_inbox d) = (w.shared.slots d).empty ≡ 0
RouterWaits w _ = ⊥

pub server_loop-RouterWaits :
    (p : RouterPc) (w : World) → server_loop p w ≡ blocked → RouterWaits w p
unfolding server_loop
server_loop-RouterWaits RouterPc.wait_full w h = ground arith
server_loop-RouterWaits (RouterPc.wait_inbox d) w h = ground arith
server_loop-RouterWaits (RouterPc.post_inbox d) w h = cc
server_loop-RouterWaits (RouterPc.post_delivered d) w h = cc
