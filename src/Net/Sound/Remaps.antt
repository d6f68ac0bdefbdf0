-- ===== src/Net/Sound/Remaps.antt =====
-- The steps of a thread that change the mapping of its process or the capacity of its segment.
use rp_maksym_zaveriukha.Base.{ℕ, ◌≡◌, Bool, true, false, [], arith}
use rp_maksym_zaveriukha.Com.{World}
use rp_maksym_zaveriukha.Com.Buffer.{WaitPc, PreparePc}
use rp_maksym_zaveriukha.Com.Send.{SendPc}
use rp_maksym_zaveriukha.Com.Recv.{RecvPc}
use rp_maksym_zaveriukha.Com.Finalize.{FinalizePc}
use rp_maksym_zaveriukha.Net.Thread.{
  Pc, preparing, choosing, sending, receiving, finalizing, thread_step,
}
use rp_maksym_zaveriukha.Net.Local.{Turns}

-- The points whose step changes the mapping or the capacity.
abbrev pub remaps : Pc → Bool
remaps (preparing msg dests PreparePc.mapping) = true
remaps (finalizing (FinalizePc.unmap is_last)) = true
remaps _ = false

pub record MapFrame (d rank : ℕ) (w : World) (p : Pc) (w' : World) : Type 0 where
  pub count : w'.shared.nr_proc ≡ w.shared.nr_proc
  pub kept :
      (rank ≡ d → remaps p ≡ false)
      → ((w'.shared.slots d).capacity ≡ (w.shared.slots d).capacity)
        × ((w'.procs d).mapped ≡ (w.procs d).mapped)
        × ((w'.procs d).mapping_capacity ≡ (w.procs d).mapping_capacity)

pub thread_step-MapFrame :
    (rank : ℕ) (p : Pc) (w : World) (d : ℕ)
    → Turns (λ w' p'. MapFrame d rank w p w') (thread_step rank p w)
unfolding thread_step
thread_step-MapFrame rank (sending msg dest dests SendPc.enter) w d = ground arith
thread_step-MapFrame rank (preparing msg dests (PreparePc.draining WaitPc.test)) w d = ground arith
thread_step-MapFrame rank (preparing msg dests PreparePc.mapping) w d = ground arith
thread_step-MapFrame rank (choosing msg []) w d = ground arith
thread_step-MapFrame rank (receiving RecvPc.wait_full) w d = ground arith
thread_step-MapFrame rank (finalizing (FinalizePc.draining WaitPc.test)) w d = ground arith
thread_step-MapFrame rank (finalizing (FinalizePc.post_lock true)) w d = ground arith
thread_step-MapFrame rank _ w d = ground arith
