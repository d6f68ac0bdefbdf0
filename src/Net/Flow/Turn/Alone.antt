-- ===== src/Net/Flow/Turn/Alone.antt =====
-- What a step of a thread ensures, and that no other thread relies on what the step changes.
use mathlib.Core.Path.{subst}
use rp_maksym_zaveriukha.Base.{
  ℕ, ◌+◌, ◌≡◌, ◌≢◌, ◌<◌, ◌⊎◌, inl, inr, true, false, List, arith, refl, sym, ◌∙◌, ap, Bool-cases,
  Option-cases, le-total, ==_refl,
}
use rp_maksym_zaveriukha.Com.{World, Outcome}
use rp_maksym_zaveriukha.Com.Buffer.{WaitPc, PreparePc}
use rp_maksym_zaveriukha.Com.Send.{SendPc}
use rp_maksym_zaveriukha.Com.Recv.{RecvPc}
use rp_maksym_zaveriukha.Com.Finalize.{FinalizePc}
use rp_maksym_zaveriukha.Net.Thread.{
  left, Pc, preparing, writing, choosing, sending, receiving, finalizing, exited, Thread,
  thread_step,
}
use rp_maksym_zaveriukha.Net.System.{Sent, System, log_sent}
use rp_maksym_zaveriukha.Net.Weights.{awaits, fills, owns_of, reads, reads_of, is_final}
use rp_maksym_zaveriukha.Net.Local.{
  Turns, Turns-map, Turns-pair, Turns-forall, thread_step-FrameLaw,
}
use rp_maksym_zaveriukha.Net.Tokens.{Tokens}
use rp_maksym_zaveriukha.Net.Safety.{one_holder}
use rp_maksym_zaveriukha.Net.Flow.{Flow, Fact, Carried, carries_of}
use rp_maksym_zaveriukha.Net.Flow.Footprint.{
  writes_segment, clears_inbox, counts_acks, SlotFrame, WorldFrame, OtherSegment,
  thread_step-SlotFrame, thread_step-WorldFrame, thread_step-OtherSegment,
}
use rp_maksym_zaveriukha.Net.Flow.Facts.{keeps_segment, keeps_box, keeps_pending, keeps_inbox}
use rp_maksym_zaveriukha.Net.Flow.Own.{Known, thread_step-NewFact}
use rp_maksym_zaveriukha.Net.Flow.Account.{Ready, AccountLaw, thread_step-AccountLaw}
use rp_maksym_zaveriukha.Net.Flow.Exclusive.{announces-routes, two_owners, not_carried}

pub clears_inbox-reads : (r : ℕ) (p : Pc) → clears_inbox p ≡ true → reads_of r r p ≡ 1
clears_inbox-reads r (receiving (RecvPc.copy src id size)) h = ground arith
clears_inbox-reads r _ h = cc

pub keeps_inbox-clears : (p : Pc) → keeps_inbox p ≡ clears_inbox p
keeps_inbox-clears (receiving (RecvPc.copy src id size)) = refl
keeps_inbox-clears _ = refl

pub keeps_segment-owns : (r : ℕ) (p : Pc) → keeps_segment p ≡ true → owns_of r r p ≡ 1
keeps_segment-owns r (choosing msg dests) h = ground arith
keeps_segment-owns r (sending msg dest dests p) h = ground arith
keeps_segment-owns r _ h = cc

pub keeps_box-busy : (p : Pc) → keeps_box p ≡ true → fills p + awaits p ≡ 1
keeps_box-busy (sending msg dest dests SendPc.post_full) h = omega arith
keeps_box-busy (sending msg dest dests SendPc.wait_delivered) h = omega arith
keeps_box-busy (finalizing FinalizePc.post_full) h = omega arith
keeps_box-busy (finalizing (FinalizePc.unmap true)) h = omega arith
keeps_box-busy (finalizing (FinalizePc.unmap false)) h = cc
keeps_box-busy (exited true) h = omega arith
keeps_box-busy (exited false) h = cc
keeps_box-busy _ h = cc

keeps_pending-cases :
    (r : ℕ) (p : Pc) → keeps_pending p ≡ true → (owns_of r r p ≡ 1) ⊎ (is_final p ≡ true)
keeps_pending-cases r (preparing msg dests (PreparePc.draining WaitPc.acked)) h = inl (ground arith)
keeps_pending-cases r (preparing msg dests PreparePc.mapping) h = inl (ground arith)
keeps_pending-cases r (writing msg dests) h = inl (ground arith)
keeps_pending-cases r (finalizing (FinalizePc.draining WaitPc.acked)) h = inr refl
keeps_pending-cases r _ h = cc

counts_acks-cases :
    (r : ℕ) (p : Pc) → counts_acks p ≡ true → (owns_of r r p ≡ 1) ⊎ (is_final p ≡ true)
counts_acks-cases r (preparing msg dests (PreparePc.draining WaitPc.acked)) h = inl (ground arith)
counts_acks-cases r (sending msg dest dests SendPc.count) h = inl (ground arith)
counts_acks-cases r (finalizing (FinalizePc.draining WaitPc.acked)) h = inr refl
counts_acks-cases r _ h = cc

reading-carries :
    (w : World) (sent : List Sent) (r : ℕ) (p : Pc)
    → keeps_inbox p ≡ true
    → Fact w sent r p
    → (c : Carried w sent r) → carries_of c.from p ≡ 1
reading-carries w sent r (receiving (RecvPc.copy src id size)) k f c =
    rw (f.0, c.src, ==_refl c.from) refl
reading-carries w sent r _ k f c = cc

module _ {n : ℕ} {s : System} (tk : Tokens n s) (fl : Flow n s) (i : ℕ) (lt : i < n) where
  abbrev me : Thread
  me = s.threads i

  -- All laws of one step.
  pub record Frames (w : World) (p : Pc) : Type 0 where
    pub slot : (d : ℕ) → SlotFrame d me.rank s.world me.pc w
    pub world : WorldFrame me.rank s.world me.pc w
    pub other : (r : ℕ) → OtherSegment me.rank s.world w (s.world.shared.slots r).own_shm_name
    pub same_count : w.shared.nr_proc ≡ s.world.shared.nr_proc
    pub fact : Fact w (log_sent me s.sent) me.rank p
    pub account : (r : ℕ) → AccountLaw r me.rank s.router s.world me.pc w p

  known : Known me.rank me.pc s.world s.sent
  known = record {
    fact = fl.facts i lt;
    segment = elim (Option-cases (s.world.shm (s.world.shared.slots me.rank).own_shm_name)) [
      | inl gone ↦ absurd (fl.segment me.rank (tk.ranks i lt) gone)
      | inr there ↦ there
    ];
    inbox = λ h. (fl.inboxes me.rank h).1;
  }

  pub turn-Ready : Ready me.rank me.pc s.world s.sent s.router
  turn-Ready = record {
    fact = fl.facts i lt;
    exists = tk.ranks i lt;
    box_free = λ h. omega (arith, tk.box, announces-routes s.router);
    once = omega (arith, tk.box, announces-routes s.router);
    binary = omega (arith, tk.inbox me.rank);
    cleared = λ h. omega (
      arith,
      tk.inbox me.rank,
      le-total (reads me.rank) n s.threads i lt,
      clears_inbox-reads me.rank me.pc h,
    );
  }

  pub thread_step-Frames : Turns Frames (thread_step me.rank me.pc s.world)
  thread_step-Frames =
      Turns-map _ Frames o
        (λ w p h. record {
          slot = h.0;
          world = h.1.0;
          other = h.1.1.0;
          same_count = h.1.1.1.0.1;
          fact = h.1.1.1.1.0;
          account = h.1.1.1.1.1;
        })
        (Turns-pair _ _ o (Turns-forall _ o (thread_step-SlotFrame me.rank me.pc s.world)) (
          Turns-pair _ _ o (thread_step-WorldFrame me.rank me.pc s.world) (
            Turns-pair _ _ o
              (Turns-forall _ o (λ r.
                thread_step-OtherSegment me.rank me.pc s.world
                  (s.world.shared.slots r).own_shm_name))
              (Turns-pair _ _ o (thread_step-FrameLaw me.rank me.pc s.world) (
                Turns-pair _ _ o (thread_step-NewFact me.rank me.pc s.world s.sent known) (
                  Turns-forall _ o (λ r.
                    thread_step-AccountLaw r me.rank s.router me.pc s.world s.sent turn-Ready)))))))
    where
      o : Outcome Pc Unit
      o = thread_step me.rank me.pc s.world

  two_readers :
      (j : ℕ)
      → j < n
      → i ≢ j
      → clears_inbox me.pc ≡ true
      → keeps_inbox (s.threads j).pc ≡ true
      → me.rank ≢ (s.threads j).rank
  two_readers j hj ne a b same = ne (
      one_holder (reads (s.threads j).rank) n s.threads i j lt hj
        (omega (arith, tk.inbox (s.threads j).rank))
        (subst (λ r. reads_of r me.rank me.pc ≡ 1) same (clears_inbox-reads me.rank me.pc a))
        (clears_inbox-reads (s.threads j).rank (s.threads j).pc
          (sym (keeps_inbox-clears (s.threads j).pc) ∙ b)))

  pub two_owning :
      (j : ℕ)
      → j < n
      → i ≢ j
      → owns_of me.rank me.rank me.pc ≡ 1
      → owns_of (s.threads j).rank (s.threads j).rank (s.threads j).pc ≡ 1
      → me.rank ≢ (s.threads j).rank
  two_owning j hj ne a b same = omega (
    arith,
    two_owners tk fl (s.threads j).rank i j lt hj ne,
    subst (λ r. owns_of r me.rank me.pc ≡ 1) same a,
  )

  -- Only one of two threads of a process touches the count of pending acknowledgements.
  pub pending_alone :
      (j : ℕ)
      → j < n
      → i ≢ j
      → keeps_pending (s.threads j).pc ≡ true
      → me.rank ≡ (s.threads j).rank
      → counts_acks me.pc ≡ false
  pending_alone j hj ne k same = elim (Bool-cases (counts_acks me.pc)) [
    | inr idle_acks ↦ idle_acks
    | inl counts ↦ elim (counts_acks-cases me.rank me.pc counts) [
      | inr final ↦
          let gone : (s.threads j).pc ≡ left = tk.alone i j lt hj ne (sym same) final in
          absurd (cc (k, ap keeps_pending gone))
      | inl owner ↦ elim (keeps_pending-cases (s.threads j).rank (s.threads j).pc k) [
        | inr final ↦ ap counts_acks (tk.alone j i hj lt (λ e. ne (sym e)) same final)
        | inl other ↦ absurd (two_owning j hj ne owner other same)
      ]
    ]
  ]

  pub inbox_alone :
      (j : ℕ)
      → j < n
      → i ≢ j
      → keeps_inbox (s.threads j).pc ≡ true
      → me.rank ≡ (s.threads j).rank
      → clears_inbox me.pc ≡ false
  inbox_alone j hj ne k same = elim (Bool-cases (clears_inbox me.pc)) [
    | inl clears ↦ absurd (two_readers j hj ne clears k same)
    | inr keeps ↦ keeps
  ]

  -- A segment from which a thread reads is not being written.
  pub reader_alone :
      (j : ℕ)
      → j < n
      → keeps_inbox (s.threads j).pc ≡ true
      → (c : Carried s.world s.sent (s.threads j).rank) → writes_segment me.pc ≡ true
      → me.rank ≢ c.from
  reader_alone j hj k c writes same = omega (
    arith,
    not_carried tk fl i lt writes j hj,
    subst (λ r. carries_of r (s.threads j).pc ≡ 1) (sym same)
        (reading-carries s.world s.sent (s.threads j).rank (s.threads j).pc k (fl.facts j hj) c),
  )
