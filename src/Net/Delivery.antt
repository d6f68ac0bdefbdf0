-- ===== src/Net/Delivery.antt =====
-- What com_recv returns and what the segments hold, in every state that the system reaches.
use rp_maksym_zaveriukha.Base.{
  ℤ, negsuc, Bool-cases, inl, inr, ◌==◌, ℕ, ◌+◌, ◌≡◌, ◌≢◌, ◌<◌, arith, refl, sym, ◌∙◌, ap, Option,
  none, some, pos, List, length, true, false, total, total-eq-zero,
}
use rp_maksym_zaveriukha.Com.{Name, World}
use mathlib.Core.Path.{subst}
use rp_maksym_zaveriukha.Com.Names.{own_name, eq_name}
use rp_maksym_zaveriukha.Com.Region.{Segments}
use rp_maksym_zaveriukha.Com.Recv.{Message}
use rp_maksym_zaveriukha.Com.Initialize.{com_initialize}
use rp_maksym_zaveriukha.Net.Thread.{received, idle, Thread}
use rp_maksym_zaveriukha.Net.System.{System, Reach}
use rp_maksym_zaveriukha.Net.Tokens.{Tokens}
use rp_maksym_zaveriukha.Net.Start.Forked.{Pids, names_differ}
use rp_maksym_zaveriukha.Net.Start.{Started, com_initialize-Started, system_of, Started-Tokens}
use rp_maksym_zaveriukha.Net.Flow.{
  from_rank, Logged, Carried, Flow, Fact, inbox_weight, carries, acked, uncounted, delivered_from,
}
use rp_maksym_zaveriukha.Net.Flow.Footprint.{writes_segment}
use rp_maksym_zaveriukha.Net.Flow.Exclusive.{no_Carried, not_carried}
use rp_maksym_zaveriukha.Net.Flow.Invariant.{Reach-Flow}

pub Started-Flow :
    {nr_proc : ℕ} {pids : ℕ → ℕ} {w : World} (n : ℕ) (rank_of : ℕ → ℕ)
    → Pids nr_proc pids
    → Started nr_proc pids w
    → Flow n (system_of w rank_of)
Started-Flow {nr_proc} {pids} {w} n rank_of ok h = record {
  segment = λ r lt gone. there r (rw h.initial.count at lt) gone;
  names = λ q r hq hr ne. differ q r (rw h.initial.count at hq) (rw h.initial.count at hr) ne;
  facts = λ i lt. tt;
  inboxes = λ d full. absurd (omega (arith, h.initial.slot d));
  routing = tt;
  account = λ r. ground (
    arith,
    h.initial.slot r,
    h.initial.box,
    total-eq-zero (inbox_weight r) w.shared.nr_proc w.shared.slots
        (λ d lt. ground (arith, h.initial.slot d)),
    total-eq-zero (carries r) n threads (λ i lt. refl),
    total-eq-zero (acked r) n threads (λ i lt. refl),
    total-eq-zero (uncounted r) n threads (λ i lt. refl),
  );
}
  where
    threads : ℕ → Thread
    threads i = record { rank = rank_of i; pc = idle }

    there : (r : ℕ) → r < nr_proc → w.shm (w.shared.slots r).own_shm_name ≢ none
    there r lt gone =
        let a : w.shm (own_name (pids r)) ≡ none = ap (w.shm) (sym (h.segmented r lt).0) ∙ gone in
        cc (a, (h.segmented r lt).1)

    differ :
        (q r : ℕ)
        → q < nr_proc
        → r < nr_proc
        → q ≢ r
        → eq_name (w.shared.slots q).own_shm_name (w.shared.slots r).own_shm_name ≡ false
    differ q r hq hr ne =
        rw ((h.segmented q hq).0, (h.segmented r hr).0) (names_differ ok q r hq hr ne)

other_rank : (src : ℤ) (r : ℕ) → src ≢ pos r → from_rank r src ≡ 0
other_rank (pos q) r ne = elim (Bool-cases (q == r)) [
  | inl same ↦ absurd (ne (ap pos (ground arith)))
  | inr other ↦ rw other refl
]
other_rank (negsuc q) r ne = refl

-- `n` threads of `nr_proc` processes, the thread `i` in the process of rank `rank_of i`, start in the
-- world that com_initialize leaves.
module _ (nr_proc n router_pid : ℕ) (pids rank_of : ℕ → ℕ) (entries : Option (List Name))
    (shm : Segments) {w : World} {s : System} (distinct : Pids nr_proc pids)
    (started : com_initialize nr_proc router_pid pids entries shm ≡ some w)
    (ranks : (i : ℕ) → i < n → rank_of i < nr_proc) (run : Reach n (system_of w rank_of) s) where
  pub inv : Tokens n s × Flow n s
  inv =
      Reach-Flow
        (Started-Tokens n rank_of
          (com_initialize-Started nr_proc router_pid pids entries shm distinct started) ranks)
        (Started-Flow n rank_of distinct
          (com_initialize-Started nr_proc router_pid pids entries shm distinct started))
        run

  -- In every state reached from com_initialize (distinct process ids, threads with existing ranks,
  -- any schedule), a message that com_recv has returned to a thread and that is not yet freed was
  -- passed, with the same bytes, to com_send in some process for exactly that thread's rank, and
  -- the size that com_recv returned is its length.
  pub received_was_sent :
      (i : ℕ) (m : Message)
      → i < n
      → (s.threads i).pc ≡ received m
      → (m.size ≡ length m.bytes) × ((src : ℕ) × Logged src (pos (s.threads i).rank) m.bytes s.sent)
  received_was_sent i m lt e = subst (Fact s.world s.sent (s.threads i).rank) e (inv.1.facts i lt)

  -- In every state reached from com_initialize (distinct process ids, threads with existing ranks,
  -- any schedule), every full inbox belongs to an existing rank and describes a message of an
  -- existing process: its rank, its size and its segment's name, and the segment starts with the
  -- bytes that were passed to com_send for the inbox's rank.
  pub inbox_describes_message :
      (d : ℕ)
      → 0 < (s.world.shared.slots d).full
      → (d < s.world.shared.nr_proc) × Carried s.world s.sent d
  inbox_describes_message d h = inv.1.inboxes d h

  -- In every state reached from com_initialize (distinct process ids, threads with existing ranks,
  -- any schedule), while a thread maps or writes the segment of its process, no full inbox of an
  -- existing rank holds a message of that process, and no thread is inside com_recv with one,
  -- whether or not an inbox is full.
  pub unread_not_rewritten :
      (i d j : ℕ)
      → i < n
      → d < s.world.shared.nr_proc
      → j < n
      → writes_segment (s.threads i).pc ≡ true
      → (inbox_weight (s.threads i).rank (s.world.shared.slots d) ≡ 0)
        × (carries (s.threads i).rank (s.threads j) ≡ 0)
  unread_not_rewritten i d j hi hd hj writes = (
    no_unread (no_Carried inv.0 inv.1 i hi writes d hd),
    not_carried inv.0 inv.1 i hi writes j hj,
  )
    where
      no_unread :
          (0 < (s.world.shared.slots d).full
            → (s.world.shared.slots d).src_rank ≢ pos (s.threads i).rank)
          → inbox_weight (s.threads i).rank (s.world.shared.slots d) ≡ 0
      no_unread other = elim (Bool-cases ((s.world.shared.slots d).full == 0)) [
        | inl empty ↦ rw empty refl
        | inr full ↦
            rw full (
              other_rank (s.world.shared.slots d).src_rank (s.threads i).rank
                (other (ground arith)))
      ]

  -- In every state reached from com_initialize (distinct process ids, threads with existing ranks,
  -- any schedule), for each process, the acknowledgements that wait for it, its messages in full
  -- inboxes, those inside com_recv, and the acknowledgements that it has taken and not yet
  -- subtracted make up its pending_acks, its message in the mailbox if that is delivered and not
  -- yet answered, and its com_sends between the answer and the count.
  pub acks_balance :
      (r : ℕ)
      → (s.world.shared.slots r).ack_full
          + total (inbox_weight r) s.world.shared.nr_proc s.world.shared.slots
          + total (carries r) n s.threads
          + total (acked r) n s.threads
        ≡ (s.world.shared.slots r).pending_acks
          + delivered_from r s.world s.router
          + total (uncounted r) n s.threads
  acks_balance r = inv.1.account r
