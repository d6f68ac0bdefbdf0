-- ===== src/Net/Channel/Refinement.antt =====
-- The processes and the router implement one abstract FIFO channel for each pair of processes.
use mathlib.Core.List.{append-nil, append_assoc}
use rp_maksym_zaveriukha.Base.{
  ℕ, ◌≡◌, ◌<◌, List, [], ◌∷◌, ◌++◌, Option, some, arith, refl, sym, ◌∙◌, ap, collect, collect_nil,
  total-eq-zero,
}
use rp_maksym_zaveriukha.Com.{Name, World}
use rp_maksym_zaveriukha.Com.Region.{Segments}
use rp_maksym_zaveriukha.Com.Initialize.{com_initialize}
use rp_maksym_zaveriukha.Com.Recv.{RecvPc}
use rp_maksym_zaveriukha.Net.Thread.{Pc, idle, sending, receiving, received, exited, left}
use rp_maksym_zaveriukha.Net.System.{System, Step, route, turn, begin, Reach, here, later}
use rp_maksym_zaveriukha.Net.Tokens.{Tokens}
use rp_maksym_zaveriukha.Net.Start.Forked.{Pids}
use rp_maksym_zaveriukha.Net.Start.{system_of, com_initialize-Started}
use rp_maksym_zaveriukha.Net.Flow.{Flow}
use rp_maksym_zaveriukha.Net.Delivery.{inv}
use rp_maksym_zaveriukha.Net.Channel.{
  View, ChannelStep, put, take, stay, view, outgoing, outgoing_of, copying, copying_of, handed_over,
  held, logged_for,
}
use rp_maksym_zaveriukha.Net.Channel.Stepped.{turn-ChannelStep, begin-ChannelStep}
use rp_maksym_zaveriukha.Net.Channel.Posted.{route-ChannelStep}

Step-ChannelStep :
    {n : ℕ} {s t : System} (r d : ℕ)
    → Tokens n s
    → Flow n s
    → Step n s t
    → ChannelStep (view n r d s) (view n r d t)
Step-ChannelStep r d tk fl (route h) = route-ChannelStep tk fl r d h
Step-ChannelStep r d tk fl (turn i lt h) = turn-ChannelStep tk fl r d i lt h
Step-ChannelStep r d tk fl (begin i c lt e m) = begin-ChannelStep tk fl r d i lt c e

-- What went in is what came out, followed by what is in the channel.
abbrev Accounted : View → Type 0
Accounted v = v.put_in ≡ v.taken ++ v.queue

ChannelStep-Accounted : (v v' : View) → ChannelStep v v' → Accounted v → Accounted v'
ChannelStep-Accounted v v' (put msg q i o) h =
    rw (i, h, o, q) (append_assoc v.taken v.queue (msg ∷ []))
ChannelStep-Accounted v v' (take msg q i o) h =
    rw (i, h, o, q) (sym (append_assoc v.taken (msg ∷ []) v'.queue))
ChannelStep-Accounted v v' (stay q i o) h = rw (i, h, o, q) refl

-- A thread outside all calls, with a message that com_recv has returned or without, or in com_recv where
-- it waits for a message.
abbrev pub Resting : Pc → Type 0
Resting idle = Unit
Resting left = Unit
Resting (received m) = Unit
Resting (exited is_last) = Unit
Resting (receiving RecvPc.wait_full) = Unit
Resting _ = ⊥

Resting-copying : (d rank : ℕ) (p : Pc) → Resting p → copying_of d rank p ≡ 0
Resting-copying d rank (receiving RecvPc.wait_full) h = refl
Resting-copying d rank (receiving (RecvPc.copy src id size)) h = absurd h
Resting-copying d rank _ h = refl

Resting-outgoing : (r d c rank : ℕ) (p : Pc) → Resting p → outgoing_of r d c rank p ≡ []
Resting-outgoing r d c rank (sending msg dest dests q) h = absurd h
Resting-outgoing r d c rank _ h = refl

-- Where every thread rests and the inbox is empty, so is the channel.
Resting-queue :
    (s : System) (n r d : ℕ)
    → ((j : ℕ) → j < n → Resting (s.threads j).pc)
    → (s.world.shared.slots d).full ≡ 0
    → (view n r d s).queue ≡ []
Resting-queue s n r d resting empty = rw (none_held, pending) refl
  where
    none_held : held n d s ≡ 0
    none_held = omega (
      arith,
      empty,
      total-eq-zero (copying d) n s.threads
          (λ j lt. Resting-copying d (s.threads j).rank (s.threads j).pc (resting j lt)),
    )

    pending : collect (outgoing r d (handed_over s)) n s.threads ≡ []
    pending = collect_nil _ n s.threads λ j lt.
        Resting-outgoing r d (handed_over s) (s.threads j).rank (s.threads j).pc (resting j lt)

-- `n` threads of `nr_proc` processes, the thread `i` in the process of rank `rank_of i`, start in the
-- world that com_initialize leaves.
module _ (nr_proc n router_pid : ℕ) (pids rank_of : ℕ → ℕ) (entries : Option (List Name))
    (shm : Segments) {w : World} (distinct : Pids nr_proc pids)
    (started : com_initialize nr_proc router_pid pids entries shm ≡ some w)
    (ranks : (i : ℕ) → i < n → rank_of i < nr_proc) where
  -- For each pair of processes, every step of a thread or of the router in a state reached from
  -- com_initialize (distinct process ids, threads with existing ranks, any schedule) puts one
  -- message at the end of an abstract queue, takes the first one out, or leaves the queue alone. A
  -- message goes in when com_send is called in the one process for the other, comes out when
  -- com_recv copies it there, and is the same list of bytes.
  pub channel_refined :
      {s t : System} (run : Reach n (system_of w rank_of) s) (r d : ℕ)
      → Step n s t
      → ChannelStep (view n r d s) (view n r d t)
  channel_refined run r d st =
      let (tk, fl) = inv nr_proc n router_pid pids rank_of entries shm distinct started ranks run in
      Step-ChannelStep r d tk fl st

  -- In every state reached from com_initialize (distinct process ids, threads with existing ranks,
  -- any schedule) and for each pair of processes, the messages that com_send was called with in the
  -- one for the other are exactly those that com_recv has copied there from it, in the same order,
  -- followed by those that are still on their way: none is lost, doubled, changed or overtaken.
  pub received_in_order :
      {s : System} (run : Reach n (system_of w rank_of) s) (r d : ℕ)
      → logged_for r d s.sent ≡ logged_for r d s.got ++ (view n r d s).queue
  received_in_order here r d = sym (
      Resting-queue (system_of w rank_of) n r d (λ j lt. tt)
        ((com_initialize-Started nr_proc router_pid pids entries shm distinct started).initial.slot
          d).1)
  received_in_order (later run st) r d =
      ChannelStep-Accounted _ _ (channel_refined run r d st) (received_in_order run r d)

  -- In a state reached from com_initialize (distinct process ids, threads with existing ranks, any
  -- schedule) in which every thread is outside all calls (it may hold a message that com_recv has
  -- returned, have come back from com_finalize, or have left its start routine) or waits for a
  -- message at the start of com_recv, and the inbox of a process is empty, that process has copied
  -- every message that another process has called com_send with for it, in order.
  pub nothing_lost :
      {s : System} (run : Reach n (system_of w rank_of) s) (r d : ℕ)
      → ((j : ℕ) → j < n → Resting (s.threads j).pc)
      → (s.world.shared.slots d).full ≡ 0
      → logged_for r d s.sent ≡ logged_for r d s.got
  nothing_lost {s} run r d resting empty =
      received_in_order run r d
      ∙ ap (λ q. logged_for r d s.got ++ q) (Resting-queue s n r d resting empty)
      ∙ append-nil (logged_for r d s.got)
