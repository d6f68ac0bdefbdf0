-- ===== src/Net/Flow/Own.antt =====
-- What a thread knows after its own step.
use mathlib.Core.Path.{subst}
use rp_maksym_zaveriukha.Base.{
  ℕ, ◌-◌, ◌≡◌, ◌<◌, ◌==◌, inl, inr, true, false, List, [], ◌∷◌, arith, ℤ, refl, ◌∙◌, ap, length,
  take, drop, Option, none, some, take-length-append, Bool-cases, if◌then◌else◌,
}
use rp_maksym_zaveriukha.Com.{World, call, Failure, no_segment, next, failed, set_slot}
use rp_maksym_zaveriukha.Com.Names.Laws.{eq_name_refl}
use rp_maksym_zaveriukha.Com.Buffer.{WaitPc, PreparePc}
use rp_maksym_zaveriukha.Com.Send.{SendPc}
use rp_maksym_zaveriukha.Com.Recv.{com_recv, RecvPc, clear_inbox}
use rp_maksym_zaveriukha.Com.Finalize.{FinalizePc}
use rp_maksym_zaveriukha.Com.Segment.{read_message_from_segment, memcpy, shm_set}
use rp_maksym_zaveriukha.Net.Thread.{
  Pc, preparing, writing, choosing, sending, receiving, received, finalizing, thread_step,
  write_message,
}
use rp_maksym_zaveriukha.Net.System.{Sent, log_sent}
use rp_maksym_zaveriukha.Net.Local.{Turns}
use rp_maksym_zaveriukha.Net.Flow.{Written, Carried, Copied, Fact}
use rp_maksym_zaveriukha.Net.Flow.Facts.{Carried-frame, Written-frame, Requested-frame}

-- What the thread's next step is given.
pub record Known (rank : ℕ) (p : Pc) (w : World) (sent : List Sent) : Type 0 where
  pub fact : Fact w sent rank p
  pub segment : (bytes : List ℕ) × (w.shm (w.shared.slots rank).own_shm_name ≡ some bytes)
  pub inbox : 0 < (w.shared.slots rank).full → Carried w sent rank

abbrev pub log_after : ℕ → Pc → List Sent → List Sent
log_after rank p sent = log_sent (record { rank = rank; pc = p }) sent

abbrev pub NewFact : ℕ → Pc → World → List Sent → Type 0
NewFact rank p w sent =
    Turns (λ w' p'. Fact w' (log_after rank p sent) rank p') (thread_step rank p w)

write-Written :
    (rank : ℕ) (msg : List ℕ) (w : World) (bytes : List ℕ)
    → w.shm (w.shared.slots rank).own_shm_name ≡ some bytes
    → Written
        (record w { shm = shm_set w.shm (w.shared.slots rank).own_shm_name (memcpy msg bytes) })
        rank
        msg
write-Written rank msg w bytes e = record {
  bytes = memcpy msg bytes;
  there = rw (eq_name_refl (w.shared.slots rank).own_shm_name) refl;
  starts = take-length-append msg (drop (length msg) bytes);
}

empty-Written :
    (rank : ℕ) (msg : List ℕ) (w : World) (bytes : List ℕ)
    → w.shm (w.shared.slots rank).own_shm_name ≡ some bytes
    → length msg ≡ 0
    → Written w rank msg
empty-Written rank [] w bytes e h = record { bytes = bytes; there = e; starts = refl }
empty-Written rank (b ∷ bs) w bytes e h = absurd (omega (arith, h))

abbrev Wrote : ℕ → List ℕ → Option World → Type 0
Wrote rank msg none = Unit
Wrote rank msg (some w) = Written w rank msg

write_message-Wrote :
    (rank : ℕ) (msg : List ℕ) (w : World) (bytes : List ℕ)
    → w.shm (w.shared.slots rank).own_shm_name ≡ some bytes
    → Wrote rank msg (write_message rank msg w)
write_message-Wrote rank msg w bytes e = elim (Bool-cases (length msg == 0)) [
  | inl zero ↦ rw zero (empty-Written rank msg w bytes e (ground arith))
  | inr more ↦ rw (more, e) (write-Written rank msg w bytes e)
]

Wrote-Turns :
    (rank : ℕ) (msg : List ℕ) (dests : List ℤ) (sent : List Sent) (o : Option World) (e : Failure)
    → Wrote rank msg o
    → Turns
        (λ w p. Fact w sent rank p)
        (elim o [ none ↦ failed e | some w ↦ next w (choosing msg dests) ])
Wrote-Turns rank msg dests sent none e h = tt
Wrote-Turns rank msg dests sent (some w) e h = h

writing-NewFact :
    (rank : ℕ) (msg : List ℕ) (dests : List ℤ) (w : World) (sent : List Sent)
    → Known rank (writing msg dests) w sent
    → NewFact rank (writing msg dests) w sent
unfolding thread_step
writing-NewFact rank msg dests w sent k =
    Wrote-Turns rank msg dests sent (write_message rank msg w) no_segment
      (write_message-Wrote rank msg w k.segment.0 k.segment.1)

enter-NewFact :
    (rank : ℕ) (msg : List ℕ) (dest : ℤ) (dests : List ℤ) (w : World) (sent : List Sent)
    → Known rank (sending msg dest dests SendPc.enter) w sent
    → NewFact rank (sending msg dest dests SendPc.enter) w sent
unfolding thread_step
enter-NewFact rank msg dest dests w sent k = ground (arith, k.fact)

wait_empty-NewFact :
    (rank : ℕ) (msg : List ℕ) (dest : ℤ) (dests : List ℤ) (id : ℕ) (w : World) (sent : List Sent)
    → Known rank (sending msg dest dests (SendPc.wait_empty id)) w sent
    → NewFact rank (sending msg dest dests (SendPc.wait_empty id)) w sent
unfolding thread_step
wait_empty-NewFact rank msg dest dests id w sent k = ground (arith, k.fact)

taken-Carried :
    (rank v : ℕ) (w : World) (sent : List Sent)
    → Carried w sent rank
    → Carried (set_slot w rank (record (w.shared.slots rank) { full = v })) sent rank
taken-Carried rank v w sent c =
    Carried-frame c refl (λ r. ground arith) (ground arith) (ground arith) (ground arith) refl
      (λ l. l)

wait_full-NewFact :
    (rank : ℕ) (w : World) (sent : List Sent)
    → Known rank (receiving RecvPc.wait_full) w sent
    → NewFact rank (receiving RecvPc.wait_full) w sent
unfolding thread_step
wait_full-NewFact rank w sent k =
    ground (arith, k.inbox, taken-Carried rank ((w.shared.slots rank).full - 1) w sent)

-- What is read is the message.
pub read-Carried :
    (d : ℕ) (w : World) (sent : List Sent) (c : Carried w sent d)
    → read_message_from_segment w.shm (w.shared.slots d).inbox_shm_name (w.shared.slots d).size
      ≡ some c.msg
unfolding read_message_from_segment
read-Carried d w sent c =
    rw (c.name, read_message_from_segment, c.written.there, c.size)
      (ap some (taken c.msg c.written.bytes c.written.starts))
  where
    taken :
        (msg bytes : List ℕ)
        → take (length msg) bytes ≡ msg
        → (if length msg == 0 then [] else take (length msg) bytes) ≡ msg
    taken [] bytes e = refl
    taken (b ∷ bs) bytes e = ground (arith, e)

copy-Turns :
    (rank : ℕ) (src : ℤ) (id size : ℕ) (w : World) (sent : List Sent) (o : Option (List ℕ))
    (msg : List ℕ) (e : Failure)
    → o ≡ some msg
    → Copied sent rank src size msg
    → Turns
        (λ w p. Fact w sent rank p)
        (call receiving received
          (elim o [ none ↦ failed e | some m ↦ next w (RecvPc.post_empty src id size m) ]))
copy-Turns rank src id size w sent none msg e h c = tt
copy-Turns rank src id size w sent (some m) msg e h c = subst (Copied sent rank src size) (cc) c

copy-NewFact :
    (rank : ℕ) (src : ℤ) (id size : ℕ) (w : World) (sent : List Sent)
    → Known rank (receiving (RecvPc.copy src id size)) w sent
    → NewFact rank (receiving (RecvPc.copy src id size)) w sent
unfolding thread_step com_recv
copy-NewFact rank src id size w sent k =
    copy-Turns rank src id size (set_slot w rank (clear_inbox (w.shared.slots rank))) sent
      (read_message_from_segment w.shm (w.shared.slots rank).inbox_shm_name
        (w.shared.slots rank).size)
      k.fact.2.msg no_segment (read-Carried rank w sent k.fact.2)
      (record {
        from = k.fact.2.from;
        src_is = k.fact.0 ∙ k.fact.2.src;
        size_is = k.fact.1 ∙ k.fact.2.size;
        logged = k.fact.2.logged;
      })

pub thread_step-NewFact :
    (rank : ℕ) (p : Pc) (w : World) (sent : List Sent) → Known rank p w sent → NewFact rank p w sent
unfolding thread_step
thread_step-NewFact rank (writing msg dests) w sent k = writing-NewFact rank msg dests w sent k
thread_step-NewFact rank (sending msg dest dests SendPc.enter) w sent k =
    enter-NewFact rank msg dest dests w sent k
thread_step-NewFact rank (sending msg dest dests (SendPc.wait_empty id)) w sent k =
    wait_empty-NewFact rank msg dest dests id w sent k
thread_step-NewFact rank (receiving RecvPc.wait_full) w sent k = wait_full-NewFact rank w sent k
thread_step-NewFact rank (receiving (RecvPc.copy src id size)) w sent k =
    copy-NewFact rank src id size w sent k
thread_step-NewFact rank (sending msg dest dests SendPc.post_full) w sent k = (
  Written-frame refl refl k.fact.0,
  k.fact.1,
  Requested-frame refl (refl, refl, refl, refl) k.fact.2,
)
thread_step-NewFact rank (sending msg dest dests SendPc.wait_delivered) w sent k =
    ground (arith, k.fact)
thread_step-NewFact rank (sending msg dest dests SendPc.post_empty) w sent k =
    Written-frame refl refl k.fact
thread_step-NewFact rank (sending msg dest dests SendPc.count) w sent k = ground (arith, k.fact)
thread_step-NewFact rank (preparing msg dests (PreparePc.draining WaitPc.test)) w sent k =
    ground arith
thread_step-NewFact rank (preparing msg dests PreparePc.mapping) w sent k = ground (arith, k.fact)
thread_step-NewFact rank (choosing msg []) w sent k = ground arith
thread_step-NewFact rank (choosing msg (d ∷ ds)) w sent k = (k.fact, inl refl)
thread_step-NewFact rank (receiving (RecvPc.acknowledge src id size msg)) w sent k =
    ground (arith, k.fact)
thread_step-NewFact rank (receiving (RecvPc.post_empty src id size msg)) w sent k = k.fact
thread_step-NewFact rank (receiving (RecvPc.post_ack src size msg)) w sent k =
    (k.fact.size_is, (k.fact.from, k.fact.logged))
thread_step-NewFact rank (finalizing (FinalizePc.draining WaitPc.test)) w sent k = ground arith
thread_step-NewFact rank (finalizing (FinalizePc.post_lock true)) w sent k = ground arith
thread_step-NewFact rank (finalizing FinalizePc.post_full) w sent k = k.fact
thread_step-NewFact rank (finalizing (FinalizePc.unmap true)) w sent k = k.fact
thread_step-NewFact rank (finalizing (FinalizePc.unmap false)) w sent k = tt
thread_step-NewFact rank _ w sent k = ground arith
