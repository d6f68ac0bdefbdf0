-- ===== src/Net/Channel.antt =====
-- The channel from process `r` to process `d`: the messages that com_send was called with and com_recv
-- has not copied yet, oldest first, as an abstract queue.
pub mod Pending
pub mod Held
pub mod Turn
pub mod Stepped
pub mod Routed
pub mod Posted
pub mod Refinement
use rp_maksym_zaveriukha.Base.{
  ℕ, ◌+◌, ◌≡◌, ◌==◌, List, [], ◌∷◌, ◌++◌, none, some, ℤ, if◌then◌else◌, total, collect,
}
use rp_maksym_zaveriukha.Com.{World}
use rp_maksym_zaveriukha.Com.Segment.{read_message_from_segment}
use rp_maksym_zaveriukha.Com.Send.{SendPc}
use rp_maksym_zaveriukha.Com.Recv.{RecvPc}
use rp_maksym_zaveriukha.Net.Thread.{Pc, sending, receiving, Thread}
use rp_maksym_zaveriukha.Net.System.{Sent, System}
use rp_maksym_zaveriukha.Net.Weights.{bit}
use rp_maksym_zaveriukha.Net.Flow.{from_rank, announces}

-- What lies in the channel, what has been put in, and what has been taken out.
pub record View : Type 0 where
  pub queue : List (List ℕ)
  pub put_in : List (List ℕ)
  pub taken : List (List ℕ)

-- A step of an abstract FIFO channel: a message goes in at the end, or the first one comes out.
pub data ChannelStep (v v' : View) : Type 0 where
  put :
      (msg : List ℕ)
      → v'.queue ≡ v.queue ++ (msg ∷ [])
      → v'.put_in ≡ v.put_in ++ (msg ∷ [])
      → v'.taken ≡ v.taken
      → ChannelStep v v'
  take :
      (msg : List ℕ)
      → v.queue ≡ msg ∷ v'.queue
      → v'.put_in ≡ v.put_in
      → v'.taken ≡ v.taken ++ (msg ∷ [])
      → ChannelStep v v'
  stay : v'.queue ≡ v.queue → v'.put_in ≡ v.put_in → v'.taken ≡ v.taken → ChannelStep v v'

-- The messages of a log for `r` and `d`, oldest first.
abbrev pub matches : ℕ → ℕ → ℕ → ℤ → ℕ
matches r d src dest = if src == r then from_rank d dest else 0

abbrev pub only : ℕ → List ℕ → List (List ℕ)
only n msg = if n == 0 then [] else msg ∷ []

abbrev pub logged_for : ℕ → ℕ → List Sent → List (List ℕ)
logged_for r d [] = []
logged_for r d (x ∷ xs) = logged_for r d xs ++ only (matches r d x.src x.dest) x.bytes

-- The message of a thread on its way to the mailbox, or in it; `closed` is not 0 once the router has
-- handed the request over.
abbrev pub outgoing_of : ℕ → ℕ → ℕ → ℕ → Pc → List (List ℕ)
outgoing_of r d closed rank (sending msg dest dests SendPc.enter) = only (matches r d rank dest) msg
outgoing_of r d closed rank (sending msg dest dests (SendPc.wait_empty id)) =
    only (matches r d rank dest) msg
outgoing_of r d closed rank (sending msg dest dests SendPc.post_full) =
    only (matches r d rank dest) msg
outgoing_of r d closed rank (sending msg dest dests SendPc.wait_delivered) =
    if closed == 0 then only (matches r d rank dest) msg else []
outgoing_of r d closed rank _ = []

abbrev pub outgoing : ℕ → ℕ → ℕ → Thread → List (List ℕ)
outgoing r d closed t = outgoing_of r d closed t.rank t.pc

abbrev pub copying_of : ℕ → ℕ → Pc → ℕ
copying_of d rank (receiving (RecvPc.copy src id size)) = bit (rank == d)
copying_of d rank _ = 0

abbrev pub copying : ℕ → Thread → ℕ
copying d t = copying_of d t.rank t.pc

-- What the inbox of process `d` describes.
unfoldable pub content : World → ℕ → List ℕ
content w d =
    elim (read_message_from_segment w.shm (w.shared.slots d).inbox_shm_name
      (w.shared.slots d).size) [ none ↦ [] | some msg ↦ msg ]

-- The message in the inbox of process `d`, full or about to be copied.
abbrev pub arrived : ℕ → ℕ → ℕ → World → List (List ℕ)
arrived r d held w =
    if held == 0 then [] else only (from_rank r (w.shared.slots d).src_rank) (content w d)

-- What a step of a thread takes out: its message, or nothing.
abbrev pub freed : ℕ → ℕ → ℕ → World → Pc → ℕ
freed r d rank w p = if copying_of d rank p == 0 then 0 else from_rank r (w.shared.slots d).src_rank

abbrev pub handed_over : System → ℕ
handed_over s = s.world.shared.server_box.delivered + announces s.router

abbrev pub held : ℕ → ℕ → System → ℕ
held n d s = (s.world.shared.slots d).full + total (copying d) n s.threads

-- The view of a system of `n` threads.
abbrev pub view : ℕ → ℕ → ℕ → System → View
view n r d s = record {
  queue = arrived r d (held n d s) s.world ++ collect (outgoing r d (handed_over s)) n s.threads;
  put_in = logged_for r d s.sent;
  taken = logged_for r d s.got;
}
