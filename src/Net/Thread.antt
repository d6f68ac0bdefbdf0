-- ===== src/Net/Thread.antt =====
-- One thread of a user process: com_mcast of rpBenchmark2/com.c, and the same sequence of calls with
-- another list of destinations in send_raw_message and sender_thread_main; com_recv; com_finalize.
use rp_maksym_zaveriukha.Base.{
  ℕ, zero, suc, ◌+◌, ◌==◌, Bool, List, [], ◌∷◌, Option, none, some, ℤ, pos, if◌then◌else◌, length,
}
use rp_maksym_zaveriukha.Com.{World, Outcome, next, blocked, failed, call, no_segment}
use rp_maksym_zaveriukha.Com.Segment.{shm_set, memcpy}
use rp_maksym_zaveriukha.Com.Buffer.{PreparePc, com_prepare_send_buffer, com_finish_send_buffer}
use rp_maksym_zaveriukha.Com.Send.{SendPc, com_send}
use rp_maksym_zaveriukha.Com.Recv.{RecvPc, Message, com_recv}
use rp_maksym_zaveriukha.Com.Finalize.{FinalizePc, com_finalize}

-- The locals of a send are the message, the rank that com_send is called for, and the ranks left.
pub data Pc : Type 0 where
  idle : Pc
  preparing : List ℕ → List ℤ → PreparePc → Pc
  writing : List ℕ → List ℤ → Pc
  choosing : List ℕ → List ℤ → Pc  -- head of the loop over the destinations
  sending : List ℕ → ℤ → List ℤ → SendPc → Pc
  receiving : RecvPc → Pc
  received : Message → Pc  -- com_recv has returned, and the caller has not freed the message
  finalizing : FinalizePc → Pc
  exited : Bool → Pc  -- after com_finalize; whether the thread was the last process there
  left : Pc  -- the start routine has returned

pub record Thread : Type 0 where
  pub rank : ℕ  -- `g_rank` of its process
  pub pc : Pc

-- `if (size > 0) memcpy(buf, msg, size)`, through the mapping of the process's own segment.
abbrev pub write_message : ℕ → List ℕ → World → Option World
write_message rank msg w =
    if length msg == 0 then some w else elim (w.shm (w.shared.slots rank).own_shm_name) [
      | none ↦ none
      | some bytes ↦
          some
            (record w { shm = shm_set w.shm (w.shared.slots rank).own_shm_name (memcpy msg bytes) })
    ]

-- One atomic step of a thread of process `rank`.
unfoldable pub thread_step : ℕ → Pc → World → Outcome Pc Unit
unfolding com_prepare_send_buffer com_finish_send_buffer com_send com_recv com_finalize
thread_step rank idle w = blocked
thread_step rank (preparing msg dests p) w =
    call (preparing msg dests) (λ _. writing msg dests)
      (com_prepare_send_buffer rank (length msg) p w)
thread_step rank (writing msg dests) w = elim (write_message rank msg w) [
  | none ↦ failed no_segment
  | some w' ↦ next w' (choosing msg dests)
]
thread_step rank (choosing msg []) w =
    call {P = Unit} (λ _. idle) (λ _. idle) (com_finish_send_buffer rank w)
thread_step rank (choosing msg (dest ∷ dests)) w = next w (sending msg dest dests SendPc.enter)
thread_step rank (sending msg dest dests p) w =
    call (sending msg dest dests) (λ _. choosing msg dests) (com_send rank dest (length msg) p w)
thread_step rank (receiving p) w = call receiving received (com_recv rank p w)
thread_step rank (received m) w = next w idle
thread_step rank (finalizing p) w = call finalizing exited (com_finalize rank p w)
thread_step rank (exited b) w = blocked
thread_step rank left w = blocked

-- `for (i = 0; i < nr_proc; i++) if (i != g_rank) …`: the destinations from `i` on, `k` rounds left.
others_from : ℕ → ℕ → ℕ → List ℤ
others_from rank i zero = []
others_from rank i (suc k) =
    let rest = others_from rank (i + 1) k in if i == rank then rest else pos i ∷ rest

-- The calls of com_mcast in order.
unfoldable pub com_mcast : ℕ → ℕ → List ℕ → Pc
unfolding others_from
com_mcast rank nr_proc msg = preparing msg (others_from rank 0 nr_proc) PreparePc.lock
