-- ===== src/Net/Channel/Turn.antt =====
-- The channel over a step of a thread.
use mathlib.Core.Path.{subst}
use mathlib.Core.List.{append-nil}
use rp_maksym_zaveriukha.Base.{
  ℕ, ◌+◌, ◌≡◌, ◌≢◌, ◌<◌, ◌==◌, List, ◌++◌, pos, arith, refl, sym, ◌∙◌, ap, true, false, Bool-cases,
  inl, inr, total-update, total-pos, le-total, two-le-total, total_le, collect, collect_ext,
}
use rp_maksym_zaveriukha.Com.{World, Outcome}
use rp_maksym_zaveriukha.Com.Segment.{read_message_from_segment}
use rp_maksym_zaveriukha.Com.Recv.{RecvPc}
use rp_maksym_zaveriukha.Net.Thread.{Pc, receiving, Thread, thread_step}
use rp_maksym_zaveriukha.Net.System.{Sent, System, set_pc}
use rp_maksym_zaveriukha.Net.Weights.{awaits, fills, reads}
use rp_maksym_zaveriukha.Net.Local.{Turns, Turns-map, Turns-pair}
use rp_maksym_zaveriukha.Net.Tokens.{Tokens}
use rp_maksym_zaveriukha.Net.Flow.{Flow, Fact, Carried, announces}
use rp_maksym_zaveriukha.Net.Flow.Facts.{keeps_inbox}
use rp_maksym_zaveriukha.Net.Flow.Footprint.{writes_segment, clears_inbox}
use rp_maksym_zaveriukha.Net.Flow.Exclusive.{no_Carried, announces-routes}
use rp_maksym_zaveriukha.Net.Flow.Turn.{shm_kept}
use rp_maksym_zaveriukha.Net.Flow.Turn.Alone.{Frames, thread_step-Frames, reader_alone}
use rp_maksym_zaveriukha.Net.Channel.{
  only, outgoing, copying, copying_of, content, arrived, handed_over, held, freed,
}
use rp_maksym_zaveriukha.Net.Channel.Pending.{
  CallsSend, outgoing-quiet, PendingLaw, thread_step-PendingLaw,
}
use rp_maksym_zaveriukha.Net.Channel.Held.{
  copying-reads, HeldLaw, GotLaw, thread_step-HeldLaw, thread_step-GotLaw,
}

-- A thread that copies holds the description of a message.
copying-Fact :
    (w : World) (sent : List Sent) (d rank : ℕ) (p : Pc)
    → 0 < copying_of d rank p
    → Fact w sent rank p
    → (rank ≡ d) × (keeps_inbox p ≡ true) × Carried w sent rank
copying-Fact w sent d rank (receiving (RecvPc.copy src id size)) h f =
    (ground (arith, h), refl, f.2)
copying-Fact w sent d rank _ h f = absurd (omega (arith, h))

keeps-clears : (d rank : ℕ) (p : Pc) → copying_of d rank p ≡ 0 → rank ≡ d → clears_inbox p ≡ false
keeps-clears d rank (receiving (RecvPc.copy src id size)) h e = ground arith
keeps-clears d rank _ h e = refl

module _ {n : ℕ} {s : System} (tk : Tokens n s) (fl : Flow n s) (r d i : ℕ) (lt : i < n) where
  abbrev me : Thread
  me = s.threads i

  pub record Passing (w : World) (p : Pc) : Type 0 where
    pub frames : Frames tk fl i lt w p
    pub pending : PendingLaw r d (announces s.router) me.rank s.world me.pc w p
    pub inbox : HeldLaw d me.rank s.world me.pc w p
    pub got : GotLaw r d me.rank s.got s.world me.pc w p

  pub thread_step-Passing : Turns Passing (thread_step me.rank me.pc s.world)
  thread_step-Passing =
      Turns-map _ Passing o
        (λ w p h. record { frames = h.0; pending = h.1.0; inbox = h.1.1.0; got = h.1.1.1 })
        (Turns-pair _ _ o (thread_step-Frames tk fl i lt) (
          Turns-pair _ _ o
            (thread_step-PendingLaw r d (announces s.router) me.rank me.pc s.world (λ h. omega (
              arith,
              tk.box,
              announces-routes s.router,
              le-total (λ t. fills t.pc) n s.threads i lt,
            )))
            (Turns-pair _ _ o (thread_step-HeldLaw d me.rank me.pc s.world)
              (thread_step-GotLaw r d me.rank s.got s.sent me.pc s.world (fl.facts i lt)))))
    where
      o : Outcome Pc Unit
      o = thread_step me.rank me.pc s.world

  -- The message in an inbox is not being overwritten.
  held_Carried :
      0 < held n d s
      → (c : Carried s.world s.sent d) × (writes_segment me.pc ≡ true → me.rank ≢ c.from)
  held_Carried h = elim (Bool-cases ((s.world.shared.slots d).full == 0)) [
    | inl none_full ↦ copied (total-pos (copying d) n s.threads (ground arith))
    | inr full ↦
        let (exists, c) = fl.inboxes d (ground arith) in
        (
          c,
          λ writes same.
              no_Carried tk fl i lt writes d exists (ground arith) (c.src ∙ ap pos (sym same)),
        )
  ]
    where
      copied :
          (j : ℕ) × (j < n) × (0 < copying d (s.threads j))
          → (c : Carried s.world s.sent d) × (writes_segment me.pc ≡ true → me.rank ≢ c.from)
      copied (j, hj, h) =
          let (same, k, c) =
            copying-Fact s.world s.sent d (s.threads j).rank (s.threads j).pc h (fl.facts j hj) in
          subst
            (λ q. (c : Carried s.world s.sent q) × (writes_segment me.pc ≡ true → me.rank ≢ c.from))
            same (c, reader_alone tk fl i lt j hj k c)

  module _ {w : World} {p : Pc} (f : Passing w p) where
    abbrev s' : System
    s' = set_pc s i w p

    pub other_outgoing :
        (j : ℕ)
        → j < n
        → i ≢ j
        → outgoing r d (handed_over s') (s.threads j) ≡ outgoing r d (handed_over s) (s.threads j)
    other_outgoing j hj ne = elim (f.pending.answered) [
      | inl same ↦ ap (λ x. outgoing r d (x + announces s.router) (s.threads j)) same
      | inr waits ↦
          outgoing-quiet r d (handed_over s') (handed_over s) (s.threads j).rank (s.threads j).pc (
            omega (
              arith,
              waits,
              tk.box,
              tk.requests,
              two-le-total (λ t. awaits t.pc) n s.threads i j lt hj ne,
            ))
    ]

    pub pending_kept :
        ¬ (CallsSend me.pc)
        → collect (outgoing r d (handed_over s')) n s'.threads
          ≡ collect (outgoing r d (handed_over s)) n s.threads
    pending_kept quiet = collect_ext _ _ n s'.threads s.threads λ j hj. elim (Bool-cases (i == j)) [
      | inl same ↦ rw same (
          f.pending.mine quiet
          ∙ ap (λ k. outgoing r d (handed_over s) (s.threads k)) (ground arith))
      | inr other ↦ rw other (other_outgoing j hj (ground arith))
    ]

    held_kept : copying_of d me.rank me.pc ≡ 0 → held n d s' ≡ held n d s
    held_kept h =
        omega
          (arith, f.inbox.keeps h, total-update (copying d) n s.threads i (record me { pc = p }) lt)

    held_freed :
        copying_of d me.rank me.pc ≡ 1 → reads d me ≡ 1 → (held n d s ≡ 1) × (held n d s' ≡ 0)
    held_freed h read = omega (
      arith,
      f.inbox.frees h,
      total-update (copying d) n s.threads i (record me { pc = p }) lt,
      tk.inbox d,
      le-total (copying d) n s.threads i lt,
      total_le (copying d) (reads d) n s.threads
          (λ j hj. omega (arith, copying-reads d (s.threads j).rank (s.threads j).pc)),
    )

    content_kept : copying_of d me.rank me.pc ≡ 0 → 0 < held n d s → content w d ≡ content s.world d
    unfolding content read_message_from_segment
    content_kept h full =
        let (c, apart) = held_Carried full in
        rw
          (
            content,
            read_message_from_segment,
            ((f.frames.slot d).inbox (keeps-clears d me.rank me.pc h)).2,
            c.name,
            shm_kept tk fl i lt f.frames c.from c.exists apart,
            c.written.there,
            ((f.frames.slot d).inbox (keeps-clears d me.rank me.pc h)).1,
          )
          refl

    pub arrived_step :
        arrived r d (held n d s) s.world
        ≡ only (freed r d me.rank s.world me.pc) (content s.world d) ++ arrived r d (held n d s') w
    arrived_step = elim (copying-reads d me.rank me.pc) [
      | inl keeps ↦ elim (Bool-cases (held n d s == 0)) [
        | inl nothing ↦ rw (keeps, held_kept keeps, nothing) refl
        | inr something ↦
            rw
              (
                keeps,
                held_kept keeps,
                something,
                content_kept keeps (ground arith),
                ((f.frames.slot d).inbox (keeps-clears d me.rank me.pc keeps)).0,
              )
              refl
      ]
      | inr frees ↦
          rw (frees.0, (held_freed frees.0 frees.1).0, (held_freed frees.0 frees.1).1)
            (sym (append-nil _))
    ]
