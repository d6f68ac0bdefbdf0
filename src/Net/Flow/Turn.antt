-- ===== src/Net/Flow/Turn.antt =====
-- A step of a thread keeps the flow of the messages.
pub mod Alone
use mathlib.Core.Path.{subst}
use rp_maksym_zaveriukha.Base.{
  ℕ, ◌+◌, ◌≡◌, ◌≢◌, ◌<◌, ◌==◌, ◌⊎◌, inl, inr, true, false, List, arith, pos, refl, sym, ◌∙◌, ap,
  Option, some, Bool-cases, Option-cases, le-total, total-update, update, ==_refl,
}
use rp_maksym_zaveriukha.Com.{World, Outcome}
use rp_maksym_zaveriukha.Com.Buffer.{WaitPc, PreparePc}
use rp_maksym_zaveriukha.Com.Send.{SendPc}
use rp_maksym_zaveriukha.Com.Recv.{RecvPc}
use rp_maksym_zaveriukha.Com.Router.{RouterPc}
use rp_maksym_zaveriukha.Com.Finalize.{FinalizePc}
use rp_maksym_zaveriukha.Net.Thread.{
  Pc, preparing, writing, choosing, sending, receiving, finalizing, exited, Thread, thread_step,
}
use rp_maksym_zaveriukha.Net.System.{Sent, System, set_pc, log_sent}
use rp_maksym_zaveriukha.Net.Weights.{
  bit, awaits, fills, owns_of, reads, reads_of, routes, delivers, is_final,
}
use rp_maksym_zaveriukha.Net.Local.{
  Turns, Turns-map, Turns-pair, Turns-forall, thread_step-FrameLaw,
}
use rp_maksym_zaveriukha.Net.Tokens.{Tokens}
use rp_maksym_zaveriukha.Net.Safety.{one_holder}
use rp_maksym_zaveriukha.Net.Flow.{
  Flow, Fact, RouterFact, Carried, carries, carries_of, acked, uncounted,
}
use rp_maksym_zaveriukha.Net.Flow.Footprint.{
  writes_segment, writes_box, clears_inbox, counts_acks, SlotFrame, WorldFrame, OtherSegment,
  thread_step-SlotFrame, thread_step-WorldFrame, thread_step-OtherSegment,
}
use rp_maksym_zaveriukha.Net.Flow.Facts.{
  log_sent-Logged, Carried-frame, keeps_segment, keeps_box, keeps_pending, keeps_inbox, Stable,
  Fact-frame,
}
use rp_maksym_zaveriukha.Net.Flow.Own.{Known, thread_step-NewFact}
use rp_maksym_zaveriukha.Net.Flow.Account.{Ready, AccountLaw, thread_step-AccountLaw}
use rp_maksym_zaveriukha.Net.Flow.Exclusive.{
  announces-routes, two_owners, writes_segment-owns, no_Carried, not_carried,
}
use rp_maksym_zaveriukha.Net.Flow.Turn.Alone.{
  clears_inbox-reads, keeps_segment-owns, keeps_box-busy, turn-Ready, two_owning, pending_alone,
  inbox_alone, reader_alone, Frames,
}

module _ {n : ℕ} {s : System} (tk : Tokens n s) (fl : Flow n s) (i : ℕ) (lt : i < n) where
  abbrev me : Thread
  me = s.threads i

  module _ {w : World} {p : Pc} (f : Frames tk fl i lt w p) where
    pub shm_kept :
        (r : ℕ)
        → r < s.world.shared.nr_proc
        → (writes_segment me.pc ≡ true → me.rank ≢ r)
        → w.shm (s.world.shared.slots r).own_shm_name
          ≡ s.world.shm (s.world.shared.slots r).own_shm_name
    shm_kept r h ne = elim (Bool-cases (writes_segment me.pc)) [
      | inl writes ↦ (f.other r).0 (fl.names me.rank r (tk.ranks i lt) h (ne writes))
      | inr reads_only ↦
          ap (λ g. g (s.world.shared.slots r).own_shm_name) (f.world.segments reads_only)
    ]

    still_Carried :
        (d : ℕ) (c : Carried s.world s.sent d)
        → (me.rank ≡ d → clears_inbox me.pc ≡ false)
        → (writes_segment me.pc ≡ true → me.rank ≢ c.from)
        → Carried w (log_sent me s.sent) d
    still_Carried d c keeps ne =
        Carried-frame c f.same_count (λ r. (f.slot r).own) ((f.slot d).inbox keeps).0
          ((f.slot d).inbox keeps).1 ((f.slot d).inbox keeps).2 (shm_kept c.from c.exists ne)
          (log_sent-Logged me s.sent c.from (pos d) c.msg)

    box_alone : (j : ℕ) → j < n → keeps_box (s.threads j).pc ≡ true → writes_box me.pc ≡ false
    box_alone j hj k = elim (Bool-cases (writes_box me.pc)) [
      | inr keeps ↦ keeps
      | inl writes ↦ absurd (
          omega (
            arith,
            f.world.waits writes,
            tk.box,
            tk.requests,
            keeps_box-busy (s.threads j).pc k,
            le-total (λ t. fills t.pc) n s.threads j hj,
            le-total (λ t. awaits t.pc) n s.threads j hj,
          ))
    ]

    stable :
        (j : ℕ)
        → j < n
        → i ≢ j
        → Stable s.world w s.sent (log_sent me s.sent) (s.threads j).rank (s.threads j).pc
    stable j hj ne = record {
      own = (f.slot (s.threads j).rank).own;
      segment = λ k. shm_kept (s.threads j).rank (tk.ranks j hj) (λ writes.
          (two_owning tk fl i lt) j hj ne (writes_segment-owns me.rank me.pc writes)
            (keeps_segment-owns (s.threads j).rank (s.threads j).pc k));
      box = λ k. f.world.request (box_alone j hj k);
      pending = λ k. (f.slot (s.threads j).rank).pending ((pending_alone tk fl i lt) j hj ne k);
      inbox = λ k. (
        ((f.slot (s.threads j).rank).inbox ((inbox_alone tk fl i lt) j hj ne k)).0,
        ((f.slot (s.threads j).rank).inbox ((inbox_alone tk fl i lt) j hj ne k)).1,
        λ c.
            still_Carried (s.threads j).rank c ((inbox_alone tk fl i lt) j hj ne k)
              ((reader_alone tk fl i lt) j hj k c),
      );
      log = log_sent-Logged me s.sent;
    }

    -- The threads after the step.
    abbrev after : ℕ → Thread
    after = update s.threads i (record me { pc = p })

    new_facts : (j : ℕ) → j < n → Fact w (log_sent me s.sent) (after j).rank (after j).pc
    new_facts j hj = elim (Bool-cases (i == j)) [
      | inl same ↦ rw same f.fact
      | inr other ↦
          rw other (Fact-frame (s.threads j).pc (stable j hj (ground arith)) (fl.facts j hj))
    ]

    full_keeps :
        (d : ℕ) → 0 < (s.world.shared.slots d).full → me.rank ≡ d → clears_inbox me.pc ≡ false
    full_keeps d h same = elim (Bool-cases (clears_inbox me.pc)) [
      | inr keeps ↦ keeps
      | inl clears ↦ absurd (
          omega (
            arith,
            subst (λ r. (s.world.shared.slots r).full ≡ 0) same
                ((turn-Ready tk fl i lt).cleared clears),
          ))
    ]

    moved :
        (d : ℕ)
        → 0 < (s.world.shared.slots d).full
        → (d < s.world.shared.nr_proc) × Carried s.world s.sent d
        → (d < w.shared.nr_proc) × Carried w (log_sent me s.sent) d
    moved d h (exists, c) = (
      rw (f.same_count) exists,
      still_Carried d c (full_keeps d h)
          (λ writes same. no_Carried tk fl i lt writes d exists h (c.src ∙ ap pos (sym same))),
    )

    new_inboxes :
        (d : ℕ)
        → 0 < (w.shared.slots d).full
        → (d < w.shared.nr_proc) × Carried w (log_sent me s.sent) d
    new_inboxes d h =
        moved d (omega (arith, (f.slot d).less)) (fl.inboxes d (omega (arith, (f.slot d).less)))

    box_idle : routes s.router ≡ 1 → writes_box me.pc ≡ false
    box_idle busy = elim (Bool-cases (writes_box me.pc)) [
      | inr keeps ↦ keeps
      | inl writes ↦ absurd (omega (arith, f.world.waits writes, tk.box, busy))
    ]

    undelivered : (d : ℕ) → delivers d s.router ≡ 1 → me.rank ≡ d → clears_inbox me.pc ≡ false
    undelivered d busy same = elim (Bool-cases (clears_inbox me.pc)) [
      | inr keeps ↦ keeps
      | inl clears ↦ absurd (
          omega (
            arith,
            tk.inbox d,
            busy,
            le-total (reads d) n s.threads i lt,
            subst (λ r. reads_of r me.rank me.pc ≡ 1) same
                (clears_inbox-reads me.rank me.pc clears),
          ))
    ]

    handed :
        (d : ℕ)
        → (w.shared.server_box.src_rank ≡ s.world.shared.server_box.src_rank)
          × (w.shared.server_box.dest_rank ≡ s.world.shared.server_box.dest_rank)
          × (w.shared.server_box.size ≡ s.world.shared.server_box.size)
          × (w.shared.server_box.shm_name ≡ s.world.shared.server_box.shm_name)
        → ((w.shared.slots d).src_rank ≡ (s.world.shared.slots d).src_rank)
          × ((w.shared.slots d).size ≡ (s.world.shared.slots d).size)
          × ((w.shared.slots d).inbox_shm_name ≡ (s.world.shared.slots d).inbox_shm_name)
        → RouterFact s.world (some (RouterPc.post_inbox d))
        → RouterFact w (some (RouterPc.post_inbox d))
    handed d b k h = (
      rw (f.same_count) h.0,
      b.1 ∙ h.1,
      k.0 ∙ h.2 ∙ sym b.0,
      k.1 ∙ h.3 ∙ sym b.2,
      k.2 ∙ h.4 ∙ sym b.3,
    )

    routing_kept : (q : Option RouterPc) → s.router ≡ q → RouterFact s.world q → RouterFact w q
    routing_kept (some (RouterPc.wait_inbox d)) e h =
        (rw (f.same_count) h.0, (f.world.request (box_idle (ap routes e))).1 ∙ h.1)
    routing_kept (some (RouterPc.post_inbox d)) e h =
        handed d (f.world.request (box_idle (ap routes e)))
          ((f.slot d).inbox (undelivered d (ap (delivers d) e ∙ ap bit (==_refl d)))) h
    routing_kept _ e h = ground arith

    new_routing : RouterFact w s.router
    new_routing = routing_kept s.router refl fl.routing

    pub set_pc-Flow : Flow n (set_pc s i w p)
    set_pc-Flow = record {
      segment = λ r h gone.
          fl.segment r (rw f.same_count at h)
            ((f.other r).1 (ap (w.shm) (sym (f.slot r).own) ∙ gone));
      names = λ q r hq hr ne.
          rw ((f.slot q).own, (f.slot r).own)
            (fl.names q r (rw f.same_count at hq) (rw f.same_count at hr) ne);
      facts = new_facts;
      inboxes = new_inboxes;
      routing = new_routing;
      account = λ r. rw (f.same_count) (
          omega (
            arith,
            fl.account r,
            f.account r,
            total-update (carries r) n s.threads i (record me { pc = p }) lt,
            total-update (acked r) n s.threads i (record me { pc = p }) lt,
            total-update (uncounted r) n s.threads i (record me { pc = p }) lt,
          ));
    }
