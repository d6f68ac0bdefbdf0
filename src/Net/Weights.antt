-- ===== src/Net/Weights.antt =====
-- What a thread or the router holds at each program point, as numbers to be summed over threads.
use rp_maksym_zaveriukha.Base.{ℕ, ◌==◌, Bool, true, false, Option, none, some}
use rp_maksym_zaveriukha.Com.Buffer.{PreparePc}
use rp_maksym_zaveriukha.Com.Send.{SendPc}
use rp_maksym_zaveriukha.Com.Recv.{RecvPc}
use rp_maksym_zaveriukha.Com.Router.{RouterPc}
use rp_maksym_zaveriukha.Com.Finalize.{FinalizePc}
use rp_maksym_zaveriukha.Net.Thread.{
  Pc, preparing, writing, choosing, sending, receiving, finalizing, exited, Thread,
}

abbrev pub bit : Bool → ℕ
bit true = 1
bit false = 0

-- A thread that may touch the mailbox.
abbrev pub fills : Pc → ℕ
fills (sending msg dest dests SendPc.post_full) = 1
fills (sending msg dest dests SendPc.post_empty) = 1
fills (finalizing FinalizePc.post_full) = 1
fills _ = 0

-- A thread that waits until the router has delivered its request, and the one that has sent the
-- shutdown request.
abbrev pub awaits : Pc → ℕ
awaits (sending msg dest dests SendPc.wait_delivered) = 1
awaits (finalizing (FinalizePc.unmap is_last)) = bit is_last
awaits (exited is_last) = bit is_last
awaits _ = 0

-- The router between its sem_wait(full) and its sem_post(delivered), and once it has stopped.
abbrev pub routes : Option RouterPc → ℕ
routes none = 1
routes (some RouterPc.wait_full) = 0
routes (some _) = 1

-- A thread in the critical section of com_finalize.
abbrev pub counts : Pc → ℕ
counts (finalizing (FinalizePc.post_lock is_last)) = 1
counts _ = 0

-- A thread that reads the inbox of process `d`, and the router that writes it.
abbrev pub reads_of : ℕ → ℕ → Pc → ℕ
reads_of d rank (receiving (RecvPc.copy src id size)) = bit (rank == d)
reads_of d rank (receiving (RecvPc.post_empty src id size msg)) = bit (rank == d)
reads_of d rank _ = 0

abbrev pub reads : ℕ → Thread → ℕ
reads d t = reads_of d t.rank t.pc

abbrev pub delivers : ℕ → Option RouterPc → ℕ
delivers d (some (RouterPc.post_inbox e)) = bit (e == d)
delivers d _ = 0

-- A thread that holds the send buffer of process `r`.
abbrev pub owns_of : ℕ → ℕ → Pc → ℕ
owns_of r rank (preparing msg dests (PreparePc.draining p)) = bit (rank == r)
owns_of r rank (preparing msg dests PreparePc.mapping) = bit (rank == r)
owns_of r rank (writing msg dests) = bit (rank == r)
owns_of r rank (choosing msg dests) = bit (rank == r)
owns_of r rank (sending msg dest dests p) = bit (rank == r)
owns_of r rank _ = 0

abbrev pub owns : ℕ → Thread → ℕ
owns r t = owns_of r t.rank t.pc

-- A thread inside com_finalize.
abbrev pub is_final : Pc → Bool
is_final (finalizing p) = true
is_final _ = false
