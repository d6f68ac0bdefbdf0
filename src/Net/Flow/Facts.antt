-- ===== src/Net/Flow/Facts.antt =====
-- How the facts of a thread arise by its own step, and when they outlive the steps of others.
use rp_maksym_zaveriukha.Base.{
  ℕ, ◌≡◌, inr, Bool, true, false, List, [], ◌∷◌, arith, ℤ, pos, refl, sym, ◌∙◌, ap,
}
use rp_maksym_zaveriukha.Com.{World}
use rp_maksym_zaveriukha.Com.Buffer.{WaitPc, PreparePc}
use rp_maksym_zaveriukha.Com.Send.{SendPc}
use rp_maksym_zaveriukha.Com.Recv.{RecvPc}
use rp_maksym_zaveriukha.Com.Finalize.{FinalizePc}
use rp_maksym_zaveriukha.Net.Thread.{
  Pc, preparing, writing, choosing, sending, receiving, received, finalizing, exited, Thread,
}
use rp_maksym_zaveriukha.Net.System.{Sent, log_sent}
use rp_maksym_zaveriukha.Net.Flow.{Logged, Written, Requested, Carried, Copied, Fact}

log_pc-Logged :
    (rank : ℕ) (p : Pc) (sent : List Sent) (r : ℕ) (dest : ℤ) (msg : List ℕ)
    → Logged r dest msg sent
    → Logged r dest msg (log_sent (record { rank = rank; pc = p }) sent)
log_pc-Logged rank (choosing m []) sent r dest msg l = l
log_pc-Logged rank (choosing m (d ∷ ds)) sent r dest msg l = inr l
log_pc-Logged rank _ sent r dest msg l = l

pub log_sent-Logged :
    (t : Thread) (sent : List Sent) (r : ℕ) (dest : ℤ) (msg : List ℕ)
    → Logged r dest msg sent
    → Logged r dest msg (log_sent t sent)
log_sent-Logged t sent r dest msg l = log_pc-Logged t.rank t.pc sent r dest msg l

-- The inbox of `d` still describes its message after a step that leaves it and the segment alone.
pub Carried-frame :
    {w w' : World} {sent sent' : List Sent} {d : ℕ} (c : Carried w sent d)
    → w'.shared.nr_proc ≡ w.shared.nr_proc
    → ((r : ℕ) → (w'.shared.slots r).own_shm_name ≡ (w.shared.slots r).own_shm_name)
    → (w'.shared.slots d).src_rank ≡ (w.shared.slots d).src_rank
    → (w'.shared.slots d).size ≡ (w.shared.slots d).size
    → (w'.shared.slots d).inbox_shm_name ≡ (w.shared.slots d).inbox_shm_name
    → w'.shm (w.shared.slots c.from).own_shm_name ≡ w.shm (w.shared.slots c.from).own_shm_name
    → (Logged c.from (pos d) c.msg sent → Logged c.from (pos d) c.msg sent')
    → Carried w' sent' d
Carried-frame {w} {w'} c nr own src size name shm log = record {
  from = c.from;
  msg = c.msg;
  exists = rw nr (c.exists);
  src = src ∙ c.src;
  size = size ∙ c.size;
  name = name ∙ c.name ∙ sym (own c.from);
  written = record {
    bytes = c.written.bytes;
    there = ap (w'.shm) (own c.from) ∙ shm ∙ c.written.there;
    starts = c.written.starts;
  };
  logged = log c.logged;
}

-- What a fact at point `q` reads.
abbrev pub keeps_segment : Pc → Bool
keeps_segment (choosing msg dests) = true
keeps_segment (sending msg dest dests p) = true
keeps_segment _ = false

abbrev pub keeps_box : Pc → Bool
keeps_box (sending msg dest dests SendPc.post_full) = true
keeps_box (sending msg dest dests SendPc.wait_delivered) = true
keeps_box (finalizing FinalizePc.post_full) = true
keeps_box (finalizing (FinalizePc.unmap true)) = true
keeps_box (exited true) = true
keeps_box _ = false

abbrev pub keeps_pending : Pc → Bool
keeps_pending (preparing msg dests (PreparePc.draining WaitPc.acked)) = true
keeps_pending (preparing msg dests PreparePc.mapping) = true
keeps_pending (writing msg dests) = true
keeps_pending (finalizing (FinalizePc.draining WaitPc.acked)) = true
keeps_pending _ = false

abbrev pub keeps_inbox : Pc → Bool
keeps_inbox (receiving (RecvPc.copy src id size)) = true
keeps_inbox _ = false

pub record Stable (w w' : World) (sent sent' : List Sent) (r : ℕ) (q : Pc) : Type 0 where
  pub own : (w'.shared.slots r).own_shm_name ≡ (w.shared.slots r).own_shm_name
  pub segment :
      keeps_segment q ≡ true
      → w'.shm (w.shared.slots r).own_shm_name ≡ w.shm (w.shared.slots r).own_shm_name
  pub box :
      keeps_box q ≡ true
      → (w'.shared.server_box.src_rank ≡ w.shared.server_box.src_rank)
        × (w'.shared.server_box.dest_rank ≡ w.shared.server_box.dest_rank)
        × (w'.shared.server_box.size ≡ w.shared.server_box.size)
        × (w'.shared.server_box.shm_name ≡ w.shared.server_box.shm_name)
  pub pending :
      keeps_pending q ≡ true → (w'.shared.slots r).pending_acks ≡ (w.shared.slots r).pending_acks
  pub inbox :
      keeps_inbox q ≡ true
      → ((w'.shared.slots r).src_rank ≡ (w.shared.slots r).src_rank)
        × ((w'.shared.slots r).size ≡ (w.shared.slots r).size)
        × (Carried w sent r → Carried w' sent' r)
  pub log : (q : ℕ) (dest : ℤ) (msg : List ℕ) → Logged q dest msg sent → Logged q dest msg sent'

module _ {w w' : World} {r : ℕ} where
  pub Written-frame :
      {msg : List ℕ}
      → (w'.shared.slots r).own_shm_name ≡ (w.shared.slots r).own_shm_name
      → w'.shm (w.shared.slots r).own_shm_name ≡ w.shm (w.shared.slots r).own_shm_name
      → Written w r msg
      → Written w' r msg
  Written-frame own shm f = record {
    bytes = f.bytes;
    there = ap (w'.shm) own ∙ shm ∙ f.there;
    starts = f.starts;
  }

  pub Requested-frame :
      {dest : ℤ} {msg : List ℕ}
      → (w'.shared.slots r).own_shm_name ≡ (w.shared.slots r).own_shm_name
      → (w'.shared.server_box.src_rank ≡ w.shared.server_box.src_rank)
        × (w'.shared.server_box.dest_rank ≡ w.shared.server_box.dest_rank)
        × (w'.shared.server_box.size ≡ w.shared.server_box.size)
        × (w'.shared.server_box.shm_name ≡ w.shared.server_box.shm_name)
      → Requested w r dest msg
      → Requested w' r dest msg
  Requested-frame own (a, b, c, d) f = record {
    src = a ∙ f.src;
    dest_is = b ∙ f.dest_is;
    size = c ∙ f.size;
    name = d ∙ f.name ∙ sym own;
  }

module _ {sent sent' : List Sent} {r : ℕ} where
  Copied-frame :
      {src : ℤ} {size : ℕ} {msg : List ℕ}
      → ((q : ℕ) (dest : ℤ) (msg : List ℕ) → Logged q dest msg sent → Logged q dest msg sent')
      → Copied sent r src size msg
      → Copied sent' r src size msg
  Copied-frame {src} {size} {msg} log f = record {
    from = f.from;
    src_is = f.src_is;
    size_is = f.size_is;
    logged = log f.from (pos r) msg f.logged;
  }

module _ {w w' : World} {sent sent' : List Sent} {r : ℕ} where
  pub Fact-frame : (q : Pc) → Stable w w' sent sent' r q → Fact w sent r q → Fact w' sent' r q
  Fact-frame (preparing msg dests (PreparePc.draining WaitPc.acked)) s f = rw (s.pending refl) f
  Fact-frame (preparing msg dests PreparePc.mapping) s f = s.pending refl ∙ f
  Fact-frame (writing msg dests) s f = s.pending refl ∙ f
  Fact-frame (choosing msg dests) s f = Written-frame s.own (s.segment refl) f
  Fact-frame (sending msg dest dests SendPc.enter) s f =
      (Written-frame s.own (s.segment refl) f.0, s.log r dest msg f.1)
  Fact-frame (sending msg dest dests (SendPc.wait_empty id)) s f =
      (Written-frame s.own (s.segment refl) f.0, s.log r dest msg f.1)
  Fact-frame (sending msg dest dests SendPc.post_full) s f = (
    Written-frame s.own (s.segment refl) f.0,
    s.log r dest msg f.1,
    Requested-frame s.own (s.box refl) f.2,
  )
  Fact-frame (sending msg dest dests SendPc.wait_delivered) s f = (
    Written-frame s.own (s.segment refl) f.0,
    s.log r dest msg f.1,
    Requested-frame s.own (s.box refl) f.2,
  )
  Fact-frame (sending msg dest dests SendPc.post_empty) s f = Written-frame s.own (s.segment refl) f
  Fact-frame (sending msg dest dests SendPc.count) s f = Written-frame s.own (s.segment refl) f
  Fact-frame (receiving (RecvPc.copy src id size)) s f =
      (f.0 ∙ sym (s.inbox refl).0, f.1 ∙ sym (s.inbox refl).1, (s.inbox refl).2 f.2)
  Fact-frame (receiving (RecvPc.post_empty src id size msg)) s f = Copied-frame s.log f
  Fact-frame (receiving (RecvPc.acknowledge src id size msg)) s f = Copied-frame s.log f
  Fact-frame (receiving (RecvPc.post_ack src size msg)) s f = Copied-frame s.log f
  Fact-frame (received m) s f = (f.0, (f.1.0, s.log f.1.0 (pos r) m.bytes f.1.1))
  Fact-frame (finalizing (FinalizePc.draining WaitPc.acked)) s f = rw (s.pending refl) f
  Fact-frame (finalizing FinalizePc.post_full) s f = ((s.box refl).0 ∙ f.0, (s.box refl).1 ∙ f.1)
  Fact-frame (finalizing (FinalizePc.unmap true)) s f = ((s.box refl).0 ∙ f.0, (s.box refl).1 ∙ f.1)
  Fact-frame (exited true) s f = ((s.box refl).0 ∙ f.0, (s.box refl).1 ∙ f.1)
  Fact-frame _ s f = ground arith
