-- ===== src/Net/Progress/Weighed.antt =====
-- What a thread that waits does not hold.
use rp_maksym_zaveriukha.Base.{ℕ, ◌<◌, ◌≡◌, ◌≢◌, true, false, arith, refl}
use rp_maksym_zaveriukha.Com.{World}
use rp_maksym_zaveriukha.Com.Buffer.{WaitPc, PreparePc}
use rp_maksym_zaveriukha.Com.Send.{SendPc}
use rp_maksym_zaveriukha.Com.Recv.{RecvPc}
use rp_maksym_zaveriukha.Com.Finalize.{FinalizePc}
use rp_maksym_zaveriukha.Net.Thread.{
  Pc, idle, preparing, writing, choosing, sending, receiving, finalizing, exited, left,
}
use rp_maksym_zaveriukha.Net.Weights.{fills, awaits, counts, reads_of, owns_of}
use rp_maksym_zaveriukha.Net.Flow.{carries_of, acked_of}
use rp_maksym_zaveriukha.Net.Progress.{Unacknowledged, Waits}

-- A thread outside every call, or in com_recv where no message is there.
abbrev pub Quiet : Pc → Type 0
Quiet idle = Unit
Quiet left = Unit
Quiet (exited is_last) = Unit
Quiet (receiving RecvPc.wait_full) = Unit
Quiet _ = ⊥

module _ (rank : ℕ) (w : World) where
  pub Waits-fills : (p : Pc) → Waits rank w p → fills p ≡ 0
  Waits-fills (sending msg dest dests SendPc.post_full) h = absurd h
  Waits-fills (sending msg dest dests SendPc.post_empty) h = absurd h
  Waits-fills (finalizing FinalizePc.post_full) h = absurd h
  Waits-fills _ h = refl

  pub Waits-counts : (p : Pc) → Waits rank w p → counts p ≡ 0
  Waits-counts (finalizing (FinalizePc.post_lock is_last)) h = absurd h
  Waits-counts _ h = refl

  pub Waits-reads : (d : ℕ) (p : Pc) → Waits rank w p → reads_of d rank p ≡ 0
  Waits-reads d (receiving (RecvPc.copy src id size)) h = absurd h
  Waits-reads d (receiving (RecvPc.post_empty src id size msg)) h = absurd h
  Waits-reads d _ h = refl

  pub Waits-carries : (r : ℕ) (p : Pc) → Waits rank w p → carries_of r p ≡ 0
  Waits-carries r (receiving (RecvPc.copy src id size)) h = absurd h
  Waits-carries r (receiving (RecvPc.post_empty src id size msg)) h = absurd h
  Waits-carries r (receiving (RecvPc.acknowledge src id size msg)) h = absurd h
  Waits-carries r (receiving (RecvPc.post_ack src size msg)) h = absurd h
  Waits-carries r _ h = refl

  pub Waits-acked : (r : ℕ) (p : Pc) → Waits rank w p → acked_of r rank p ≡ 0
  Waits-acked r (preparing msg dests (PreparePc.draining WaitPc.acked)) h = absurd h
  Waits-acked r (finalizing (FinalizePc.draining WaitPc.acked)) h = absurd h
  Waits-acked r _ h = refl

  -- A thread that waits for its delivery has none.
  pub Waits-awaits :
      (p : Pc) → Waits rank w p → p ≢ exited true → 0 < w.shared.server_box.delivered → awaits p ≡ 0
  Waits-awaits (sending msg dest dests SendPc.wait_delivered) h running more =
      absurd (omega (arith, h))
  Waits-awaits (finalizing (FinalizePc.unmap is_last)) h running more = absurd h
  Waits-awaits (exited true) h running more = absurd (running refl)
  Waits-awaits (exited false) h running more = refl
  Waits-awaits _ h running more = refl

  module _ (acknowledged : ¬ (Unacknowledged w rank)) (free : 0 < w.shared.server_box.empty) where
    pub Waits-owns : (r : ℕ) (p : Pc) → Waits rank w p → awaits p ≡ 0 → owns_of r rank p ≡ 0
    Waits-owns r (preparing msg dests (PreparePc.draining WaitPc.test)) h a =
        absurd (acknowledged h)
    Waits-owns r (preparing msg dests (PreparePc.draining WaitPc.acked)) h a = absurd h
    Waits-owns r (preparing msg dests PreparePc.mapping) h a = absurd h
    Waits-owns r (writing msg dests) h a = absurd h
    Waits-owns r (choosing msg dests) h a = absurd h
    Waits-owns r (sending msg dest dests SendPc.enter) h a = absurd h
    Waits-owns r (sending msg dest dests (SendPc.wait_empty id)) h a =
        absurd (omega (arith, h, free))
    Waits-owns r (sending msg dest dests SendPc.post_full) h a = absurd h
    Waits-owns r (sending msg dest dests SendPc.wait_delivered) h a = absurd (omega (arith, a))
    Waits-owns r (sending msg dest dests SendPc.post_empty) h a = absurd h
    Waits-owns r (sending msg dest dests SendPc.count) h a = absurd h
    Waits-owns r _ h a = refl

    pub Waits-Quiet :
        (p : Pc)
        → Waits rank w p
        → awaits p ≡ 0
        → owns_of rank rank p ≡ 0
        → (w.procs rank).locked ≡ false
        → 0 < w.shared.finalize_lock
        → Quiet p
    Waits-Quiet idle h a o unlocked lock = tt
    Waits-Quiet left h a o unlocked lock = tt
    Waits-Quiet (exited is_last) h a o unlocked lock = tt
    Waits-Quiet (receiving RecvPc.wait_full) h a o unlocked lock = tt
    Waits-Quiet (preparing msg dests PreparePc.lock) h a o unlocked lock = cc (h, unlocked)
    Waits-Quiet (preparing msg dests (PreparePc.draining WaitPc.test)) h a o unlocked lock =
        absurd (acknowledged h)
    Waits-Quiet (sending msg dest dests (SendPc.wait_empty id)) h a o unlocked lock =
        absurd (omega (arith, h, free))
    Waits-Quiet (sending msg dest dests SendPc.wait_delivered) h a o unlocked lock =
        absurd (omega (arith, a))
    Waits-Quiet (finalizing (FinalizePc.draining WaitPc.test)) h a o unlocked lock =
        absurd (acknowledged h)
    Waits-Quiet (finalizing FinalizePc.wait_lock) h a o unlocked lock =
        absurd (omega (arith, h, lock))
    Waits-Quiet (finalizing FinalizePc.wait_empty) h a o unlocked lock =
        absurd (omega (arith, h, free))
    Waits-Quiet _ h a o unlocked lock = absurd h
