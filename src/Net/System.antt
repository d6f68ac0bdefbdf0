-- ===== src/Net/System.antt =====
-- All threads and the router over one world, and the runs of the system.
use rp_maksym_zaveriukha.Base.{
  ℕ, ◌<◌, ◌≡◌, ◌≢◌, List, [], ◌∷◌, Option, none, some, ℤ, pos, index, update,
}
use rp_maksym_zaveriukha.Com.{World, Outcome, next, returned, blocked, failed}
use rp_maksym_zaveriukha.Com.Buffer.{PreparePc}
use rp_maksym_zaveriukha.Com.Recv.{RecvPc}
use rp_maksym_zaveriukha.Com.Router.{RouterPc, server_loop}
use rp_maksym_zaveriukha.Com.Finalize.{FinalizePc}
use rp_maksym_zaveriukha.Net.Thread.{
  Pc, idle, preparing, choosing, receiving, finalizing, left, Thread, thread_step,
}

-- One call of com_send: the caller's rank, the destination, and what the caller wrote.
pub record Sent : Type 0 where
  pub src : ℕ
  pub dest : ℤ
  pub bytes : List ℕ

-- `router` is `none` once the router has left its loop. `sent` records the calls of com_send and `got`
-- the messages that com_recv has copied, the last one first; no step reads them.
pub record System : Type 0 where
  pub sent : List Sent
  pub got : List Sent
  pub world : World
  pub router : Option RouterPc
  pub threads : ℕ → Thread

-- What an idle thread may begin. `leave` is the return of a thread's start routine.
pub data Call : Type 0 where
  transmit : List ℕ → List ℤ → Call
  receive finalize leave : Call

abbrev pub entry : Call → Pc
entry (transmit msg dests) = preparing msg dests PreparePc.lock
entry receive = receiving RecvPc.wait_full
entry finalize = finalizing FinalizePc.enter
entry leave = left

-- com_finalize is called by the one thread that is left of its process: the benchmarks join their
-- threads first.
abbrev pub MayCall : ℕ → System → ℕ → Call → Type 0
MayCall n s i finalize =
    (j : ℕ) → j < n → i ≢ j → (s.threads j).rank ≡ (s.threads i).rank → (s.threads j).pc ≡ left
MayCall n s i other = Unit

abbrev pub log_sent : Thread → List Sent → List Sent
log_sent t sent = elim (t.pc) [
  | choosing msg dests ↦ elim dests [
    | [] ↦ sent
    | dest ∷ _ ↦ record { src = t.rank; dest = dest; bytes = msg } ∷ sent
  ]
  | _ ↦ sent
]

-- A thread of process `rank` goes on from the first point to the second.
abbrev pub log_got : ℕ → Pc → Pc → List Sent → List Sent
log_got rank (receiving (RecvPc.copy _ _ _)) (receiving (RecvPc.post_empty src id size msg)) got =
    record { src = index src; dest = pos rank; bytes = msg } ∷ got
log_got rank _ _ got = got

abbrev pub set_pc : System → ℕ → World → Pc → System
set_pc s i w p = record s {
  sent = log_sent (s.threads i) s.sent;
  got = log_got (s.threads i).rank (s.threads i).pc p s.got;
  world = w;
  threads = update s.threads i (record (s.threads i) { pc = p });
}

-- The router, or thread `i`, after a step; `none` where it waits, or has failed.
abbrev pub reroute : System → Outcome RouterPc Unit → Option System
reroute s (next w p) = some (record s { world = w; router = some p })
reroute s (returned w _) = some (record s { world = w; router = none })
reroute s blocked = none
reroute s (failed e) = none

unfoldable pub router_turn : System → Option System
router_turn s = elim (s.router) [ none ↦ none | some p ↦ reroute s (server_loop p s.world) ]

abbrev pub resume : System → ℕ → Outcome Pc Unit → Option System
resume s i (next w p) = some (set_pc s i w p)
resume s i (returned w _) = some (set_pc s i w idle)
resume s i blocked = none
resume s i (failed e) = none

unfoldable pub thread_turn : ℕ → System → Option System
thread_turn i s = resume s i (thread_step (s.threads i).rank (s.threads i).pc s.world)

-- One step of a system of `n` threads.
pub data Step (n : ℕ) (s : System) : System → Type 0 where
  route : {t : System} → router_turn s ≡ some t → Step n s t
  turn : (i : ℕ) {t : System} → i < n → thread_turn i s ≡ some t → Step n s t
  begin :
      (i : ℕ) (c : Call)
      → i < n
      → (s.threads i).pc ≡ idle
      → MayCall n s i c
      → Step n s (set_pc s i s.world (entry c))

pub data Reach (n : ℕ) (start : System) : System → Type 0 where
  here : Reach n start start
  later : {s t : System} → Reach n start s → Step n s t → Reach n start t
