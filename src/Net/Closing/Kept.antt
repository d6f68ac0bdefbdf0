-- ===== src/Net/Closing/Kept.antt =====
-- Every step keeps the count of the processes that have finished.
use mathlib.Core.Path.{subst}
use rp_maksym_zaveriukha.Base.{
  ℕ, ◌<◌, ◌≡◌, ◌≢◌, ◌==◌, true, false, arith, refl, ◌∙◌, ap, Option, none, some, Bool-cases,
  Option-cases, inl, inr, total, total-update, update,
}
use rp_maksym_zaveriukha.Com.{World, Outcome, next, returned, blocked, failed}
use rp_maksym_zaveriukha.Com.Router.{RouterPc, server_loop}
use rp_maksym_zaveriukha.Net.Thread.{Pc, idle, left, Thread, thread_step}
use rp_maksym_zaveriukha.Net.System.{
  System, Call, transmit, receive, finalize, leave, entry, MayCall, set_pc, thread_turn,
  router_turn, reroute, Step, route, turn, begin, Reach, here, later,
}
use rp_maksym_zaveriukha.Net.Weights.{routes}
use rp_maksym_zaveriukha.Net.Local.{Turns-map, Turns-pair, thread_step-FrameLaw}
use rp_maksym_zaveriukha.Net.Routing.{Routes}
use rp_maksym_zaveriukha.Net.Tokens.{Tokens, resume_inv, Reach-Tokens}
use rp_maksym_zaveriukha.Net.Flow.Footprint.{writes_box, WorldFrame, thread_step-WorldFrame}
use rp_maksym_zaveriukha.Net.Closing.{
  counted, is_ending, Last, Last-frame, CountLaw, thread_step-CountLaw, thread_step-ending, Stopped,
  RouterCount, server_loop-RouterCount,
}

pub record Closing (n : ℕ) (s : System) : Type 0 where
  pub count : s.world.shared.finalized_count ≡ total (λ t. counted t.pc) n s.threads
  pub last : (i : ℕ) → i < n → Last s.world (s.threads i).pc
  pub alone :
      (i j : ℕ)
      → i < n
      → j < n
      → i ≢ j
      → (s.threads j).rank ≡ (s.threads i).rank
      → is_ending (s.threads i).pc ≡ true
      → (s.threads j).pc ≡ left
  pub stopped : Stopped s.world s.router

module _ {n : ℕ} {s : System} (tk : Tokens n s) (cl : Closing n s) where
  module _ (i : ℕ) (lt : i < n) where
    abbrev me : Thread
    me = s.threads i

    -- The threads after the step.
    abbrev after : Pc → ℕ → Thread
    after p = update s.threads i (record me { pc = p })

    -- What is left to show of `set_pc`.
    abbrev Alone : Pc → Type 0
    Alone p =
        (a b : ℕ)
        → a < n
        → b < n
        → a ≢ b
        → (after p b).rank ≡ (after p a).rank
        → is_ending (after p a).pc ≡ true
        → (after p b).pc ≡ left

    -- The mailbox is not written once the router has stopped.
    still_stopped :
        (w : World) (q : Option RouterPc)
        → s.router ≡ q
        → WorldFrame me.rank s.world me.pc w
        → Stopped s.world q
        → Stopped w q
    still_stopped w none e f h = (f.request quiet).1 ∙ h
      where
        quiet : writes_box me.pc ≡ false
        quiet = elim (Bool-cases (writes_box me.pc)) [
          | inr keeps ↦ keeps
          | inl writes ↦ absurd (omega (arith, f.waits writes, tk.box, ap routes e))
        ]
    still_stopped w (some p) e f h = tt

    set_pc-Closing :
        (w : World) (p : Pc)
        → CountLaw s.world me.pc w p
        → WorldFrame me.rank s.world me.pc w
        → Alone p
        → Closing n (set_pc s i w p)
    set_pc-Closing w p l f al = record {
      count = omega (
        arith,
        cl.count,
        l.count,
        total-update (λ t. counted t.pc) n s.threads i (record me { pc = p }) lt,
      );
      last = λ j hj. elim (Bool-cases (i == j)) [
        | inl same ↦ rw same (l.last (cl.last i lt))
        | inr other ↦
            rw other (Last-frame s.world w (s.threads j).pc l.processes l.more (cl.last j hj))
      ];
      alone = al;
      stopped = still_stopped w s.router refl f cl.stopped;
    }

    turn-Closing : {t : System} → thread_turn i s ≡ some t → Closing n t
    unfolding thread_turn
    turn-Closing e =
        resume_inv (Closing n) s i o
          (Turns-map _ (λ w p. Closing n (set_pc s i w p)) o
            (λ w p h. set_pc-Closing w p (h.0) (h.1.0) (λ a b ha hb ne same f. ground (
              arith,
              h.1.1.1,
              h.1.1.0,
              cl.alone a b ha hb ne,
              cl.alone i b lt hb,
              cl.alone a i ha lt,
            )))
            (Turns-pair _ _ o (thread_step-CountLaw me.rank me.pc s.world) (
              Turns-pair _ _ o (thread_step-WorldFrame me.rank me.pc s.world) (
                Turns-pair _ _ o (thread_step-FrameLaw me.rank me.pc s.world)
                  (thread_step-ending me.rank me.pc s.world)))))
          e
      where
        o : Outcome Pc Unit
        o = thread_step me.rank me.pc s.world

    begin-Closing :
        (c : Call) → me.pc ≡ idle → MayCall n s i c → Closing n (set_pc s i s.world (entry c))
    begin-Closing c e m = set_pc-Closing s.world (entry c) (begun c) frame (kept c m)
      where
        frame : WorldFrame me.rank s.world me.pc s.world
        frame = record {
          request = λ _. (refl, refl, refl, refl);
          waits = λ h. ground (arith, e);
          segments = λ _. refl;
        }

        begun : (c : Call) → CountLaw s.world me.pc s.world (entry c)
        begun (transmit msg dests) = ground (arith, e)
        begun receive = ground (arith, e)
        begun finalize = ground (arith, e)
        begun leave = ground (arith, e)

        kept : (c : Call) → MayCall n s i c → Alone (entry c)
        kept (transmit msg dests) m a b ha hb ne same f =
            ground (arith, cl.alone a b ha hb ne, cl.alone a i ha lt)
        kept receive m a b ha hb ne same f =
            ground (arith, cl.alone a b ha hb ne, cl.alone a i ha lt)
        kept finalize m a b ha hb ne same f =
            ground (arith, cl.alone a b ha hb ne, cl.alone a i ha lt, m b hb)
        kept leave m a b ha hb ne same f = ground (arith, cl.alone a b ha hb ne, cl.alone a i ha lt)

routed_outcome :
    {n : ℕ} (s : System) (o : Outcome RouterPc Unit) {t : System}
    → Closing n s
    → Routes (RouterCount s.world) o
    → reroute s o ≡ some t
    → Closing n t
routed_outcome {n} s (next w q) {t} cl f h =
    let same : record s { world = w; router = some q } ≡ t = cc in
    subst (Closing n) same (record {
      count = f.count ∙ cl.count;
      last = λ j hj.
          Last-frame s.world w (s.threads j).pc f.processes (omega (arith, f.count)) (cl.last j hj);
      alone = cl.alone;
      stopped = f.stopped;
    })
routed_outcome {n} s (returned w x) {t} cl f h =
    let same : record s { world = w; router = none } ≡ t = cc in
    subst (Closing n) same (record {
      count = f.count ∙ cl.count;
      last = λ j hj.
          Last-frame s.world w (s.threads j).pc f.processes (omega (arith, f.count)) (cl.last j hj);
      alone = cl.alone;
      stopped = f.stopped;
    })
routed_outcome s blocked cl f h = cc
routed_outcome s (failed x) cl f h = cc

route-Closing : {n : ℕ} {s t : System} → Closing n s → router_turn s ≡ some t → Closing n t
unfolding router_turn
route-Closing {n} {s} cl h = elim (Option-cases s.router) [
  | inl stopped ↦ cc
  | inr (p, e) ↦
      routed_outcome s (server_loop p s.world) cl (server_loop-RouterCount p s.world) (rw e at h)
]

Step-Closing : {n : ℕ} {s t : System} → Step n s t → Tokens n s → Closing n s → Closing n t
Step-Closing (route h) tk cl = route-Closing cl h
Step-Closing (turn i lt h) tk cl = turn-Closing tk cl i lt h
Step-Closing (begin i c lt e m) tk cl = begin-Closing tk cl i lt c e m

pub Reach-Closing :
    {n : ℕ} {start s : System} → Tokens n start → Closing n start → Reach n start s → Closing n s
Reach-Closing tk cl here = cl
Reach-Closing tk cl (later r st) = Step-Closing st (Reach-Tokens tk r) (Reach-Closing tk cl r)
