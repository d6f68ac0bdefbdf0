-- ===== src/Net/Sound/Copied.antt =====
-- The copy of com_mcast into the send buffer stays within the mapping, and the mapping within the segment.
use mathlib.Core.Path.{subst}
use rp_maksym_zaveriukha.Base.{
  ℕ, ◌<◌, ◌≤◌, ◌≡◌, true, List, arith, ◌∙◌, ap, none, some, Option, ℤ, length, Bool-cases,
  Option-cases, inl, inr,
}
use rp_maksym_zaveriukha.Com.{Name, World, Outcome, next, returned, blocked, failed}
use rp_maksym_zaveriukha.Com.Region.{Segments}
use rp_maksym_zaveriukha.Com.Initialize.{com_initialize}
use rp_maksym_zaveriukha.Com.Router.{RouterPc, server_loop}
use rp_maksym_zaveriukha.Net.Thread.{writing}
use rp_maksym_zaveriukha.Net.System.{
  System, router_turn, reroute, Step, route, turn, begin, Reach, here, later,
}
use rp_maksym_zaveriukha.Net.Routing.{Routes}
use rp_maksym_zaveriukha.Net.Tokens.{Tokens, Step-Tokens}
use rp_maksym_zaveriukha.Net.Start.Forked.{Pids}
use rp_maksym_zaveriukha.Net.Start.{Started, system_of, com_initialize-Started, Started-Tokens}
use rp_maksym_zaveriukha.Net.Flow.{Flow}
use rp_maksym_zaveriukha.Net.Flow.Invariant.{Step-Flow}
use rp_maksym_zaveriukha.Net.Delivery.{Started-Flow}
use rp_maksym_zaveriukha.Net.Sound.Mapped.{room_of, room, Backed, Fits}
use rp_maksym_zaveriukha.Net.Sound.Mapping.{
  Mapped, Fits-frame, Backed-frame, turn-Mapped, begin-Mapped,
}

-- The router touches none of this.
record RouterMap (w w' : World) : Type 0 where
  count : w'.shared.nr_proc ≡ w.shared.nr_proc
  procs : w'.procs ≡ w.procs
  shm : w'.shm ≡ w.shm
  slots :
      (d : ℕ)
      → ((w'.shared.slots d).capacity ≡ (w.shared.slots d).capacity)
        × ((w'.shared.slots d).own_shm_name ≡ (w.shared.slots d).own_shm_name)

server_loop-RouterMap :
    (p : RouterPc) (w : World) → Routes (λ w' q. RouterMap w w') (server_loop p w)
unfolding server_loop
server_loop-RouterMap RouterPc.wait_full w = ground arith
server_loop-RouterMap (RouterPc.wait_inbox e) w = ground arith
server_loop-RouterMap (RouterPc.post_inbox e) w = ground arith
server_loop-RouterMap (RouterPc.post_delivered e) w = ground arith

Mapped-routed :
    {n : ℕ} {s : System} (w : World) (q : Option RouterPc)
    → Mapped n s
    → RouterMap s.world w
    → Mapped n (record s { world = w; router = q })
Mapped-routed {s = s} w q mp l = record {
  backed = λ r h.
      Backed-frame s.world w r
        ((l.slots r).0, ap (λ f. (f r).mapped) l.procs, ap (λ f. (f r).mapping_capacity) l.procs)
        (ap (λ name. room_of (w.shm name)) (l.slots r).1
          ∙ ap (λ f. room_of (f (s.world.shared.slots r).own_shm_name)) l.shm)
        (mp.backed r (omega (arith, h, l.count)));
  fits = λ j hj.
      Fits-frame s.world w (s.threads j).rank (s.threads j).pc
        (λ _. ap (λ f. (f (s.threads j).rank).mapping_capacity) l.procs) (mp.fits j hj);
}

routed_outcome :
    {n : ℕ} (s : System) (o : Outcome RouterPc Unit) {t : System}
    → Mapped n s
    → Routes (λ w' q. RouterMap s.world w') o
    → reroute s o ≡ some t
    → Mapped n t
routed_outcome {n} s (next w q) mp f h = subst (Mapped n) (cc) (Mapped-routed w (some q) mp f)
routed_outcome {n} s (returned w x) mp f h = subst (Mapped n) (cc) (Mapped-routed w none mp f)
routed_outcome s blocked mp f h = cc
routed_outcome s (failed x) mp f h = cc

route-Mapped : {n : ℕ} (s : System) {t : System} → Mapped n s → router_turn s ≡ some t → Mapped n t
unfolding router_turn
route-Mapped s mp h = elim (Option-cases s.router) [
  | inl stopped ↦ cc
  | inr (p, e) ↦
      routed_outcome s (server_loop p s.world) mp (server_loop-RouterMap p s.world) (rw e at h)
]

Step-Mapped : {n : ℕ} {s t : System} → Step n s t → Tokens n s → Flow n s → Mapped n s → Mapped n t
Step-Mapped {s = s} (route h) tk fl mp = route-Mapped s mp h
Step-Mapped (turn i lt h) tk fl mp = turn-Mapped tk fl mp i lt h
Step-Mapped (begin i c lt e m) tk fl mp = begin-Mapped tk fl mp i lt c

Reach-Mapped :
    {n : ℕ} {start s : System}
    → Tokens n start
    → Flow n start
    → Mapped n start
    → Reach n start s
    → Tokens n s × Flow n s × Mapped n s
Reach-Mapped tk fl mp here = (tk, fl, mp)
Reach-Mapped tk fl mp (later r st) =
    let (tk', fl', mp') = Reach-Mapped tk fl mp r in
    (Step-Tokens st tk', Step-Flow st tk' fl', Step-Mapped st tk' fl' mp')

Started-Mapped :
    {nr_proc : ℕ} {pids : ℕ → ℕ} {w : World} (n : ℕ) (rank_of : ℕ → ℕ)
    → Started nr_proc pids w
    → Mapped n (system_of w rank_of)
Started-Mapped {w = w} n rank_of st = record {
  backed = λ r h. record {
    segment = omega (arith, st.initial.slot r);
    mapping = omega (arith, ap (λ p. p.mapping_capacity) (st.initial.process r));
    unmapped = λ _. ap (λ p. p.mapping_capacity) (st.initial.process r);
  };
  fits = λ i lt. tt;
}

-- `n` threads of `nr_proc` processes, the thread `i` in the process of rank `rank_of i`, start in the
-- world that com_initialize leaves.
module _ (nr_proc n router_pid : ℕ) (pids rank_of : ℕ → ℕ) (entries : Option (List Name))
    (shm : Segments) {w : World} {s : System} (distinct : Pids nr_proc pids)
    (started : com_initialize nr_proc router_pid pids entries shm ≡ some w)
    (ranks : (i : ℕ) → i < n → rank_of i < nr_proc) (run : Reach n (system_of w rank_of) s) where
  -- In every state reached from com_initialize (distinct process ids, threads with existing ranks,
  -- any schedule), when a thread is about to copy its message into the send buffer that
  -- com_prepare_send_buffer has returned, the message is no longer than the mapping of its process,
  -- which is there unless the message is empty, and the mapping is no longer than the segment.
  pub copy_within_mapping :
      (i : ℕ) (msg : List ℕ) (dests : List ℤ)
      → i < n
      → (s.threads i).pc ≡ writing msg dests
      → (length msg ≤ (s.world.procs (s.threads i).rank).mapping_capacity)
        × (0 < length msg → (s.world.procs (s.threads i).rank).mapped ≡ true)
        × ((s.world.procs (s.threads i).rank).mapping_capacity ≤ room s.world (s.threads i).rank)
  copy_within_mapping i msg dests lt e = (
    fits,
    λ some_bytes. elim (Bool-cases (s.world.procs (s.threads i).rank).mapped) [
      | inl m ↦ m
      | inr m ↦ absurd (omega (arith, some_bytes, fits, backed.unmapped m))
    ],
    omega (arith, backed.mapping, backed.segment),
  )
    where
      world : Started nr_proc pids w
      world = com_initialize-Started nr_proc router_pid pids entries shm distinct started

      inv : Tokens n s × Flow n s × Mapped n s
      inv =
          Reach-Mapped (Started-Tokens n rank_of world ranks)
            (Started-Flow n rank_of distinct world) (Started-Mapped n rank_of world) run

      backed : Backed s.world (s.threads i).rank
      backed = inv.2.backed (s.threads i).rank (inv.0.ranks i lt)

      fits : length msg ≤ (s.world.procs (s.threads i).rank).mapping_capacity
      fits = subst (Fits s.world (s.threads i).rank) e (inv.2.fits i lt)
