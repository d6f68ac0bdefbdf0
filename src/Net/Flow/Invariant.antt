-- ===== src/Net/Flow/Invariant.antt =====
-- Every step of the system keeps the flow of the messages.
pub mod Route
use mathlib.Core.Path.{subst}
use rp_maksym_zaveriukha.Base.{
  ℕ, ◌+◌, ◌≡◌, ◌<◌, inl, inr, true, false, List, arith, pos, refl, sym, ◌∙◌, ap, Option, some,
  Bool-cases, Option-cases, total, le-total, total-pos, ==_refl,
}
use rp_maksym_zaveriukha.Com.{World, Outcome, next, returned, blocked, failed}
use rp_maksym_zaveriukha.Com.Send.{SendPc}
use rp_maksym_zaveriukha.Com.Router.{RouterPc, server_loop}
use rp_maksym_zaveriukha.Com.Finalize.{FinalizePc}
use rp_maksym_zaveriukha.Net.Thread.{Pc, idle, sending, finalizing, exited, thread_step}
use rp_maksym_zaveriukha.Net.System.{
  Sent, System, Call, transmit, receive, finalize, leave, entry, set_pc, log_sent, thread_turn,
  router_turn, reroute, Step, route, turn, begin, Reach, here, later,
}
use rp_maksym_zaveriukha.Net.Weights.{bit, awaits, reads, routes, delivers}
use rp_maksym_zaveriukha.Net.Local.{Turns-map}
use rp_maksym_zaveriukha.Net.Routing.{Routes, RouterLaw, server_loop-RouterLaw}
use rp_maksym_zaveriukha.Net.Tokens.{Tokens, resume_inv, Step-Tokens}
use rp_maksym_zaveriukha.Net.Flow.{
  delivered_from, Logged, Written, Requested, Flow, Fact, RouterFact, Carried, announces,
}
use rp_maksym_zaveriukha.Net.Flow.Facts.{Carried-frame, keeps_inbox, Stable, Fact-frame}
use rp_maksym_zaveriukha.Net.Flow.Routed.{
  fills_inbox, hands_inbox, RouterFrame, RouterReady, RouterAccountLaw, server_loop-RouterFrame,
  server_loop-RouterFact, server_loop-RouterAccountLaw,
}
use rp_maksym_zaveriukha.Net.Flow.Account.{AccountLaw}
use rp_maksym_zaveriukha.Net.Flow.Exclusive.{announces-routes}
use rp_maksym_zaveriukha.Net.Flow.Turn.{set_pc-Flow}
use rp_maksym_zaveriukha.Net.Flow.Turn.Alone.{
  Frames, thread_step-Frames, clears_inbox-reads, keeps_inbox-clears,
}
use rp_maksym_zaveriukha.Net.Flow.Invariant.Route.{route-Flow}

turn-Flow :
    {n : ℕ} {s : System}
    → Tokens n s
    → Flow n s
    → (i : ℕ) {t : System} → i < n
    → thread_turn i s ≡ some t
    → Flow n t
unfolding thread_turn
turn-Flow {n} {s} tk fl i lt e =
    resume_inv (Flow n) s i (thread_step (s.threads i).rank (s.threads i).pc s.world)
      (Turns-map (Frames tk fl i lt) (λ w p. Flow n (set_pc s i w p))
        (thread_step (s.threads i).rank (s.threads i).pc s.world)
        (λ w p f. set_pc-Flow tk fl i lt f) (thread_step-Frames tk fl i lt))
      e

entry-Fact : (w : World) (sent : List Sent) (r : ℕ) (c : Call) → Fact w sent r (entry c)
entry-Fact w sent r (transmit msg dests) = tt
entry-Fact w sent r receive = tt
entry-Fact w sent r finalize = tt
entry-Fact w sent r leave = tt

pub begin-Frames :
    {n : ℕ} {s : System} (tk : Tokens n s) (fl : Flow n s) (i : ℕ) (lt : i < n) (c : Call)
    → (s.threads i).pc ≡ idle
    → Frames tk fl i lt s.world (entry c)
begin-Frames {n} {s} tk fl i lt c e = record {
  slot = λ d. record {
    own = refl;
    inbox = λ _. (refl, refl, refl);
    full = λ _. refl;
    less = omega arith;
    pending = λ _. refl;
  };
  world = record {
    request = λ _. (refl, refl, refl, refl);
    waits = λ h. ground (arith, e);
    segments = λ _. refl;
  };
  other = λ r. (λ _. refl, λ h. h);
  same_count = refl;
  fact = entry-Fact s.world (log_sent (s.threads i) s.sent) (s.threads i).rank c;
  account = λ r. balanced r c;
}
  where
    balanced :
        (r : ℕ) (c : Call)
        → AccountLaw r (s.threads i).rank s.router s.world (s.threads i).pc s.world (entry c)
    balanced r (transmit msg dests) = ground (arith, e)
    balanced r receive = ground (arith, e)
    balanced r finalize = ground (arith, e)
    balanced r leave = ground (arith, e)

pub Step-Flow : {n : ℕ} {s t : System} → Step n s t → Tokens n s → Flow n s → Flow n t
Step-Flow (route h) tk fl = route-Flow tk fl h
Step-Flow (turn i lt h) tk fl = turn-Flow tk fl i lt h
Step-Flow (begin i c lt e m) tk fl = set_pc-Flow tk fl i lt (begin-Frames tk fl i lt c e)

pub Reach-Flow :
    {n : ℕ} {start s : System}
    → Tokens n start
    → Flow n start
    → Reach n start s
    → Tokens n s × Flow n s
Reach-Flow tk fl here = (tk, fl)
Reach-Flow tk fl (later r st) =
    let (tk', fl') = Reach-Flow tk fl r in (Step-Tokens st tk', Step-Flow st tk' fl')
