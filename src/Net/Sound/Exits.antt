-- ===== src/Net/Sound/Exits.antt =====
-- Which exits a thread and the router can come to.
use rp_maksym_zaveriukha.Base.{
  ℕ, ◌<◌, ◌≡◌, ◌≢◌, ◌⊎◌, true, false, List, [], arith, ℤ, minus_one, is_rank_below, is_minus_one,
  Option, none, some, Option-cases, inl, inr, total-pos,
}
use rp_maksym_zaveriukha.Com.{Name, World, Failure, next, failed, call, invalid_rank, no_segment}
use rp_maksym_zaveriukha.Com.Region.{Segments}
use rp_maksym_zaveriukha.Com.Initialize.{com_initialize}
use rp_maksym_zaveriukha.Com.Buffer.{WaitPc, PreparePc}
use rp_maksym_zaveriukha.Com.Send.{SendPc}
use rp_maksym_zaveriukha.Com.Recv.{RecvPc, com_recv}
use rp_maksym_zaveriukha.Com.Router.{RouterPc, server_loop}
use rp_maksym_zaveriukha.Com.Finalize.{FinalizePc}
use rp_maksym_zaveriukha.Net.Thread.{
  Pc, preparing, writing, choosing, sending, receiving, received, finalizing, exited, thread_step,
}
use rp_maksym_zaveriukha.Net.System.{Sent, System, Reach}
use rp_maksym_zaveriukha.Net.Weights.{bit, awaits}
use rp_maksym_zaveriukha.Net.Local.{Owned}
use rp_maksym_zaveriukha.Net.Tokens.{Tokens, thread-Owned}
use rp_maksym_zaveriukha.Net.Start.Forked.{Pids}
use rp_maksym_zaveriukha.Net.Start.{system_of, com_initialize-Started, Started-Tokens}
use rp_maksym_zaveriukha.Net.Flow.{Flow, Fact}
use rp_maksym_zaveriukha.Net.Flow.Own.{read-Carried}
use rp_maksym_zaveriukha.Net.Delivery.{Started-Flow}
use rp_maksym_zaveriukha.Net.Sound.{Exists, Checked}
use rp_maksym_zaveriukha.Net.Sound.Kept.{Sound, Reach-Sound}

-- The thread is about to call com_send with a rank that does not exist.
abbrev pub WrongRank : World → Pc → Type 0
WrongRank w (sending msg dest dests SendPc.enter) = is_rank_below dest w.shared.nr_proc ≡ false
WrongRank w _ = ⊥

-- What is known of a thread before its step.
record Standing (rank : ℕ) (p : Pc) (w : World) (sent : List Sent) : Type 0 where
  fact : Fact w sent rank p
  checked : Checked w rank p
  owned : Owned rank p w
  agree : bit (w.procs rank).locked ≡ bit (w.procs rank).active
  segment : (bytes : List ℕ) × (w.shm (w.shared.slots rank).own_shm_name ≡ some bytes)

abbrev Excused : World → Pc → Failure → Type 0
Excused w p e = (e ≡ invalid_rank) × WrongRank w p

copy-fails :
    (src : ℤ) (id size : ℕ) (w w' : World) (p : Pc) (o : Option (List ℕ)) (msg : List ℕ)
    (e : Failure)
    → o ≡ some msg
    → call {S = Unit} receiving received
        (elim o [ none ↦ failed no_segment | some m ↦ next w' (RecvPc.post_empty src id size m) ])
      ≡ failed e
    → Excused w p e
copy-fails src id size w w' p none msg e h k = cc
copy-fails src id size w w' p (some m) msg e h k = cc

fails :
    (rank : ℕ) (p : Pc) (w : World) (sent : List Sent) (e : Failure)
    → Standing rank p w sent
    → thread_step rank p w ≡ failed e
    → Excused w p e
unfolding thread_step com_recv
fails rank (preparing msg dests PreparePc.lock) w sent e s h = ground (arith, s.agree)
fails rank (preparing msg dests (PreparePc.draining WaitPc.test)) w sent e s h = ground arith
fails rank (preparing msg dests PreparePc.mapping) w sent e s h = ground (arith, s.segment)
fails rank (writing msg dests) w sent e s h = ground (arith, s.segment)
fails rank (choosing msg []) w sent e s h = ground (arith, s.owned)
fails rank (sending msg dest dests SendPc.enter) w sent e s h = ground (arith, s.checked)
fails rank (receiving RecvPc.wait_full) w sent e s h = ground arith
fails rank (receiving (RecvPc.copy src id size)) w sent e s h =
    copy-fails src id size w _ (receiving (RecvPc.copy src id size)) _ s.fact.2.msg e
      (read-Carried rank w sent s.fact.2) h
fails rank (receiving (RecvPc.acknowledge src id size msg)) w sent e s h = ground (arith, s.checked)
fails rank (finalizing FinalizePc.enter) w sent e s h = ground arith
fails rank (finalizing (FinalizePc.draining WaitPc.test)) w sent e s h = ground arith
fails rank (finalizing (FinalizePc.post_lock true)) w sent e s h = ground arith
fails rank _ w sent e s h = ground arith

-- The request in the mailbox is the shutdown request, or for a rank that exists.
awaits-Exists :
    (w : World) (sent : List Sent) (r : ℕ) (p : Pc)
    → Fact w sent r p
    → Checked w r p
    → 0 < awaits p
    → (w.shared.server_box.dest_rank ≡ minus_one) ⊎ Exists w (w.shared.server_box.dest_rank)
awaits-Exists w sent r (sending msg dest dests SendPc.wait_delivered) f c h =
    inr (rw (f.2.dest_is) (c.1))
awaits-Exists w sent r (finalizing (FinalizePc.unmap true)) f c h = inl f.1
awaits-Exists w sent r (finalizing (FinalizePc.unmap false)) f c h = absurd (omega (arith, h))
awaits-Exists w sent r (exited true) f c h = inl f.1
awaits-Exists w sent r (exited false) f c h = absurd (omega (arith, h))
awaits-Exists w sent r _ f c h = absurd (omega (arith, h))

router_fails :
    (p : RouterPc) (w : World) (e : Failure)
    → server_loop p w ≡ failed e
    → (0 < w.shared.server_box.full)
      × (is_minus_one w.shared.server_box.dest_rank ≡ false)
      × (is_rank_below w.shared.server_box.dest_rank w.shared.nr_proc ≡ false)
unfolding server_loop
router_fails RouterPc.wait_full w e h = ground arith
router_fails (RouterPc.wait_inbox d) w e h = ground arith
router_fails (RouterPc.post_inbox d) w e h = cc
router_fails (RouterPc.post_delivered d) w e h = cc

-- `n` threads of `nr_proc` processes, the thread `i` in the process of rank `rank_of i`, start in the
-- world that com_initialize leaves.
module _ (nr_proc n router_pid : ℕ) (pids rank_of : ℕ → ℕ) (entries : Option (List Name))
    (shm : Segments) {w : World} {s : System} (distinct : Pids nr_proc pids)
    (started : com_initialize nr_proc router_pid pids entries shm ≡ some w)
    (ranks : (i : ℕ) → i < n → rank_of i < nr_proc) (run : Reach n (system_of w rank_of) s) where
  pub inv : Tokens n s × Flow n s × Sound n s
  inv =
      Reach-Sound
        (Started-Tokens n rank_of
          (com_initialize-Started nr_proc router_pid pids entries shm distinct started) ranks)
        (Started-Flow n rank_of distinct
          (com_initialize-Started nr_proc router_pid pids entries shm distinct started))
        (λ i lt. tt) run

  -- In every state reached from com_initialize (distinct process ids, threads with existing ranks,
  -- any schedule), the only step of a thread that ends its process with a message is com_send on a
  -- rank that does not exist: no check of the prepared size or of g_send_buffer_active fails, no
  -- segment is missing, and no acknowledgement goes outside the array of slots.
  pub only_wrong_ranks_exit :
      (i : ℕ) (e : Failure)
      → i < n
      → thread_step (s.threads i).rank (s.threads i).pc s.world ≡ failed e
      → (e ≡ invalid_rank) × WrongRank s.world (s.threads i).pc
  only_wrong_ranks_exit i e lt h =
      fails (s.threads i).rank (s.threads i).pc s.world s.sent e (standing inv) h
    where
      standing :
          Tokens n s × Flow n s × Sound n s
          → Standing (s.threads i).rank (s.threads i).pc s.world s.sent
      standing (tk, fl, sd) = record {
        fact = fl.facts i lt;
        checked = sd i lt;
        owned = thread-Owned tk i lt;
        agree = omega (arith, tk.owner (s.threads i).rank, tk.flag (s.threads i).rank);
        segment =
            elim (Option-cases
              (s.world.shm (s.world.shared.slots (s.threads i).rank).own_shm_name)) [
                | inl gone ↦ absurd (fl.segment (s.threads i).rank (tk.ranks i lt) gone)
                | inr there ↦ there
              ];
      }

  -- In every state reached from com_initialize (distinct process ids, threads with existing ranks,
  -- any schedule), the router never ends by its check of the destination's rank.
  pub router_never_exits :
      (p : RouterPc) (e : Failure) → s.router ≡ some p → server_loop p s.world ≢ failed e
  router_never_exits p e running h = found (
      total-pos (λ t. awaits t.pc) n s.threads
        (omega (arith, inv.0.requests, router_fails p s.world e h)))
    where
      found : (j : ℕ) × (j < n) × (0 < awaits (s.threads j).pc) → ⊥
      found (j, hj, waits) =
          elim (awaits-Exists s.world s.sent (s.threads j).rank (s.threads j).pc (inv.1.facts j hj)
            (inv.2 j hj) waits) [
              | inl final ↦ ground (arith, router_fails p s.world e h, final)
              | inr exists ↦ cc (exists, (router_fails p s.world e h).2)
            ]
