-- ===== src/Net/Flow.antt =====
-- Where a message is on its way from com_send to the return of com_recv: what each thread, the router
-- and each inbox know of it, and how the acknowledgements are accounted for.
pub mod Footprint
pub mod Facts
pub mod Own
pub mod Account
pub mod Routed
pub mod Exclusive
pub mod Turn
pub mod Invariant
use rp_maksym_zaveriukha.Base.{
  ℕ, ◌+◌, ◌<◌, ◌≡◌, ◌≢◌, ◌⊎◌, ◌==◌, Bool, true, false, List, [], ◌∷◌, Option, none, some, ℤ, pos,
  negsuc, minus_one, take, length, total, if◌then◌else◌,
}
use rp_maksym_zaveriukha.Com.{World, ProcessSlot, ServerMailbox}
use rp_maksym_zaveriukha.Com.Names.{eq_name}
use rp_maksym_zaveriukha.Com.Buffer.{WaitPc, PreparePc}
use rp_maksym_zaveriukha.Com.Send.{SendPc}
use rp_maksym_zaveriukha.Com.Recv.{RecvPc, Message}
use rp_maksym_zaveriukha.Com.Router.{RouterPc}
use rp_maksym_zaveriukha.Com.Finalize.{FinalizePc}
use rp_maksym_zaveriukha.Net.Thread.{
  Pc, idle, preparing, writing, choosing, sending, receiving, received, finalizing, exited, Thread,
}
use rp_maksym_zaveriukha.Net.System.{Sent, System}
use rp_maksym_zaveriukha.Net.Weights.{bit}

-- com_send was called in process `r` for `dest`, with `msg` in the send buffer.
abbrev pub Logged : ℕ → ℤ → List ℕ → List Sent → Type 0
Logged r dest msg [] = ⊥
Logged r dest msg (x ∷ xs) =
    (x ≡ record { src = r; dest = dest; bytes = msg }) ⊎ Logged r dest msg xs

-- The segment of process `r` starts with `msg`.
pub record Written (w : World) (r : ℕ) (msg : List ℕ) : Type 0 where
  pub bytes : List ℕ
  pub there : w.shm (w.shared.slots r).own_shm_name ≡ some bytes
  pub starts : take (length msg) bytes ≡ msg

-- The mailbox holds the request of process `r`.
pub record Requested (w : World) (r : ℕ) (dest : ℤ) (msg : List ℕ) : Type 0 where
  pub src : w.shared.server_box.src_rank ≡ pos r
  pub dest_is : w.shared.server_box.dest_rank ≡ dest
  pub size : w.shared.server_box.size ≡ length msg
  pub name : w.shared.server_box.shm_name ≡ (w.shared.slots r).own_shm_name

-- The inbox of process `d` describes a message that lies in the sender's segment.
pub record Carried (w : World) (sent : List Sent) (d : ℕ) : Type 0 where
  pub from : ℕ
  pub msg : List ℕ
  pub exists : from < w.shared.nr_proc
  pub src : (w.shared.slots d).src_rank ≡ pos from
  pub size : (w.shared.slots d).size ≡ length msg
  pub name : (w.shared.slots d).inbox_shm_name ≡ (w.shared.slots from).own_shm_name
  pub written : Written w from msg
  pub logged : Logged from (pos d) msg sent

-- A message that com_recv has copied for process `d`.
pub record Copied (sent : List Sent) (d : ℕ) (src : ℤ) (size : ℕ) (msg : List ℕ) : Type 0 where
  pub from : ℕ
  pub src_is : src ≡ pos from
  pub size_is : size ≡ length msg
  pub logged : Logged from (pos d) msg sent

abbrev pub Shutdown : World → Type 0
Shutdown w =
    (w.shared.server_box.src_rank ≡ minus_one) × (w.shared.server_box.dest_rank ≡ minus_one)

-- What a thread of process `r` knows at each program point.
abbrev pub Fact : World → List Sent → ℕ → Pc → Type 0
Fact w sent r (preparing msg dests (PreparePc.draining WaitPc.acked)) =
    0 < (w.shared.slots r).pending_acks
Fact w sent r (preparing msg dests PreparePc.mapping) = (w.shared.slots r).pending_acks ≡ 0
Fact w sent r (writing msg dests) = (w.shared.slots r).pending_acks ≡ 0
Fact w sent r (choosing msg dests) = Written w r msg
Fact w sent r (sending msg dest dests SendPc.enter) = Written w r msg × Logged r dest msg sent
Fact w sent r (sending msg dest dests (SendPc.wait_empty id)) =
    Written w r msg × Logged r dest msg sent
Fact w sent r (sending msg dest dests SendPc.post_full) =
    Written w r msg × Logged r dest msg sent × Requested w r dest msg
Fact w sent r (sending msg dest dests SendPc.wait_delivered) =
    Written w r msg × Logged r dest msg sent × Requested w r dest msg
Fact w sent r (sending msg dest dests SendPc.post_empty) = Written w r msg
Fact w sent r (sending msg dest dests SendPc.count) = Written w r msg
Fact w sent r (receiving (RecvPc.copy src id size)) =
    (src ≡ (w.shared.slots r).src_rank) × (size ≡ (w.shared.slots r).size) × Carried w sent r
Fact w sent r (receiving (RecvPc.post_empty src id size msg)) = Copied sent r src size msg
Fact w sent r (receiving (RecvPc.acknowledge src id size msg)) = Copied sent r src size msg
Fact w sent r (receiving (RecvPc.post_ack src size msg)) = Copied sent r src size msg
Fact w sent r (received m) = (m.size ≡ length m.bytes) × ((q : ℕ) × Logged q (pos r) m.bytes sent)
Fact w sent r (finalizing (FinalizePc.draining WaitPc.acked)) = 0 < (w.shared.slots r).pending_acks
Fact w sent r (finalizing FinalizePc.post_full) = Shutdown w
Fact w sent r (finalizing (FinalizePc.unmap true)) = Shutdown w
Fact w sent r (exited true) = Shutdown w
Fact w sent r _ = Unit

-- What the router knows.
abbrev pub RouterFact : World → Option RouterPc → Type 0
RouterFact w (some (RouterPc.wait_inbox d)) =
    (d < w.shared.nr_proc) × (w.shared.server_box.dest_rank ≡ pos d)
RouterFact w (some (RouterPc.post_inbox d)) =
    (d < w.shared.nr_proc)
    × (w.shared.server_box.dest_rank ≡ pos d)
    × ((w.shared.slots d).src_rank ≡ w.shared.server_box.src_rank)
    × ((w.shared.slots d).size ≡ w.shared.server_box.size)
    × ((w.shared.slots d).inbox_shm_name ≡ w.shared.server_box.shm_name)
RouterFact w _ = Unit

-- Whether a rank field names process `r`.
abbrev pub from_rank : ℕ → ℤ → ℕ
from_rank r (pos q) = bit (q == r)
from_rank r (negsuc q) = 0

-- A message of process `r` in an inbox, in the hands of com_recv, and an acknowledgement taken from
-- the semaphore.
abbrev pub inbox_weight : ℕ → ProcessSlot → ℕ
inbox_weight r slot = if slot.full == 0 then 0 else from_rank r slot.src_rank

abbrev pub carries_of : ℕ → Pc → ℕ
carries_of r (receiving (RecvPc.copy src id size)) = from_rank r src
carries_of r (receiving (RecvPc.post_empty src id size msg)) = from_rank r src
carries_of r (receiving (RecvPc.acknowledge src id size msg)) = from_rank r src
carries_of r (receiving (RecvPc.post_ack src size msg)) = from_rank r src
carries_of r _ = 0

abbrev pub acked_of : ℕ → ℕ → Pc → ℕ
acked_of r rank (preparing msg dests (PreparePc.draining WaitPc.acked)) = bit (rank == r)
acked_of r rank (finalizing (FinalizePc.draining WaitPc.acked)) = bit (rank == r)
acked_of r rank _ = 0

-- A message of process `r` that is delivered and not yet counted in `pending_acks`.
abbrev pub uncounted_of : ℕ → ℕ → Pc → ℕ
uncounted_of r rank (sending msg dest dests SendPc.post_empty) = bit (rank == r)
uncounted_of r rank (sending msg dest dests SendPc.count) = bit (rank == r)
uncounted_of r rank _ = 0

abbrev pub announces : Option RouterPc → ℕ
announces (some (RouterPc.post_delivered d)) = 1
announces _ = 0

abbrev pub delivered_from : ℕ → World → Option RouterPc → ℕ
delivered_from r w p =
    if w.shared.server_box.delivered + announces p == 0
    then 0
    else from_rank r w.shared.server_box.src_rank

abbrev pub carries : ℕ → Thread → ℕ
carries r t = carries_of r t.pc

abbrev pub acked : ℕ → Thread → ℕ
acked r t = acked_of r t.rank t.pc

abbrev pub uncounted : ℕ → Thread → ℕ
uncounted r t = uncounted_of r t.rank t.pc

-- `n` threads. The messages of each process that were delivered are those that it has counted and not
-- yet taken off, and each of them is in an inbox, in the hands of com_recv, or acknowledged.
pub record Flow (n : ℕ) (s : System) : Type 0 where
  pub segment :
      (r : ℕ)
      → r < s.world.shared.nr_proc
      → s.world.shm (s.world.shared.slots r).own_shm_name ≢ none
  pub names :
      (q r : ℕ)
      → q < s.world.shared.nr_proc
      → r < s.world.shared.nr_proc
      → q ≢ r
      → eq_name (s.world.shared.slots q).own_shm_name (s.world.shared.slots r).own_shm_name ≡ false
  pub facts : (i : ℕ) → i < n → Fact s.world s.sent (s.threads i).rank (s.threads i).pc
  pub inboxes :
      (d : ℕ)
      → 0 < (s.world.shared.slots d).full
      → (d < s.world.shared.nr_proc) × Carried s.world s.sent d
  pub routing : RouterFact s.world s.router
  pub account :
      (r : ℕ)
      → (s.world.shared.slots r).ack_full
          + total (inbox_weight r) s.world.shared.nr_proc s.world.shared.slots
          + total (carries r) n s.threads
          + total (acked r) n s.threads
        ≡ (s.world.shared.slots r).pending_acks
          + delivered_from r s.world s.router
          + total (uncounted r) n s.threads
