-- ===== src/Net/Channel/Stepped.antt =====
-- A step of a thread is a step of the channel.
use mathlib.Core.List.{append-nil, append_assoc}
use mathlib.Core.Path.{subst}
use rp_maksym_zaveriukha.Base.{
  some, ℕ, ◌≡◌, ◌≢◌, ◌<◌, ◌==◌, List, [], ◌∷◌, ◌++◌, arith, refl, sym, ◌∙◌, ap, ==_refl, true,
  false, Bool-cases, inl, inr, collect, collect_ext, collect_nil, collect_one,
}
use rp_maksym_zaveriukha.Com.{World, Outcome}
use rp_maksym_zaveriukha.Net.Thread.{Pc, Thread, idle, thread_step}
use rp_maksym_zaveriukha.Net.System.{
  System, Call, transmit, receive, finalize, leave, entry, set_pc, thread_turn,
}
use rp_maksym_zaveriukha.Net.Weights.{owns}
use rp_maksym_zaveriukha.Net.Local.{Turns, Turns-map, Turns-pair, Turns-forall}
use rp_maksym_zaveriukha.Net.Tokens.{Tokens, resume_inv}
use rp_maksym_zaveriukha.Net.Flow.{Flow, announces}
use rp_maksym_zaveriukha.Net.Flow.Exclusive.{two_owners}
use rp_maksym_zaveriukha.Net.Flow.Invariant.{begin-Frames}
use rp_maksym_zaveriukha.Net.Channel.{
  View, ChannelStep, put, take, stay, only, logged_for, outgoing, content, arrived, handed_over,
  held, freed, view,
}
use rp_maksym_zaveriukha.Net.Channel.Pending.{
  CallsSend, CallsSend-cases, PendingLaw, CallLaw, thread_step-CallLaw, log_sent-quiet,
  outgoing-owns,
}
use rp_maksym_zaveriukha.Net.Channel.Held.{HeldLaw, GotLaw}
use rp_maksym_zaveriukha.Net.Channel.Turn.{
  Passing, thread_step-Passing, pending_kept, other_outgoing, arrived_step,
}

-- A message comes out, or nothing happens.
pub only-ChannelStep :
    (v v' : View) (k : ℕ) (msg : List ℕ)
    → v.queue ≡ only k msg ++ v'.queue
    → v'.put_in ≡ v.put_in
    → v'.taken ≡ v.taken ++ only k msg
    → ChannelStep v v'
only-ChannelStep v v' k msg queue put_in taken = elim (Bool-cases (k == 0)) [
  | inl nothing ↦
      stay (sym (rw nothing at queue)) put_in ((rw nothing at taken) ∙ append-nil v.taken)
  | inr one ↦ take msg (rw one at queue) put_in (rw one at taken)
]

module _ {n : ℕ} {s : System} (tk : Tokens n s) (fl : Flow n s) (r d i : ℕ) (lt : i < n) where
  abbrev me : Thread
  me = s.threads i

  module _ {w : World} {p : Pc} (f : Passing tk fl r d i lt w p) where
    abbrev s' : System
    s' = set_pc s i w p

    quiet_step : ¬ (CallsSend me.pc) → ChannelStep (view n r d s) (view n r d s')
    quiet_step quiet =
        only-ChannelStep (view n r d s) (view n r d s') (freed r d me.rank s.world me.pc)
          (content s.world d)
          (rw (pending_kept tk fl r d i lt f quiet, arrived_step tk fl r d i lt f)
            (append_assoc (only (freed r d me.rank s.world me.pc) (content s.world d))
              (arrived r d (held n d s') w) (collect (outgoing r d (handed_over s)) n s.threads)))
          (ap (logged_for r d) (log_sent-quiet me.rank me.pc s.sent quiet)) (f.got)

    module _ (c : CallLaw r d (handed_over s') me.rank s.sent s.world me.pc w p) where
      arrived_kept : arrived r d (held n d s') w ≡ arrived r d (held n d s) s.world
      arrived_kept = sym (rw (c.idle) at (arrived_step tk fl r d i lt f))

      taken_kept : logged_for r d s'.got ≡ logged_for r d s.got
      taken_kept = (rw (c.idle) at (f.got)) ∙ append-nil (logged_for r d s.got)

      unheard : (j : ℕ) → i ≡ j → outgoing r d (handed_over s) (s.threads j) ≡ []
      unheard j e =
          ap (λ k. outgoing r d (handed_over s) (s.threads k)) (sym e) ∙ c.before (handed_over s)

      same_pending :
          c.many == 0 ≡ true
          → collect (outgoing r d (handed_over s')) n s'.threads
            ≡ collect (outgoing r d (handed_over s)) n s.threads
      same_pending none_for = collect_ext _ _ n s'.threads s.threads λ j hj.
          elim (Bool-cases (i == j)) [
            | inl same ↦ rw same ((rw none_for at c.after) ∙ sym (unheard j (ground arith)))
            | inr other ↦ rw other (other_outgoing tk fl r d i lt f j hj (ground arith))
          ]

      alone : c.many == 0 ≡ false → (j : ℕ) → j < n → i ≢ j → owns r (s.threads j) ≡ 0
      alone one j hj ne = omega (arith, two_owners tk fl r i j lt hj ne, c.owner (ground arith))

      pending_before : c.many == 0 ≡ false → collect (outgoing r d (handed_over s)) n s.threads ≡ []
      pending_before one = collect_nil _ n s.threads λ j hj. elim (Bool-cases (i == j)) [
        | inl same ↦ unheard j (ground arith)
        | inr other ↦
            outgoing-owns r d (handed_over s) (s.threads j).rank (s.threads j).pc
              (alone one j hj (ground arith))
      ]

      pending_after :
          c.many == 0 ≡ false → collect (outgoing r d (handed_over s')) n s'.threads ≡ c.msg ∷ []
      pending_after one =
          collect_one _ n s'.threads i lt (λ j hj ne.
            let e : (i == j) ≡ false = ground arith in
            rw e (
              outgoing-owns r d (handed_over s') (s.threads j).rank (s.threads j).pc
                (alone one j hj ne)))
          ∙ rw (==_refl i) ((rw one at c.after))

      called : ChannelStep (view n r d s) (view n r d s')
      called = elim (Bool-cases (c.many == 0)) [
        | inl none_for ↦
            stay (rw (arrived_kept, same_pending none_for) refl)
              ((rw none_for at c.logged) ∙ append-nil _) taken_kept
        | inr one ↦
            put c.msg (rw (arrived_kept, pending_before one, pending_after one, append-nil) refl)
              (rw one at c.logged) taken_kept
      ]

  turned :
      Turns
        (λ w p. ChannelStep (view n r d s) (view n r d (set_pc s i w p)))
        (thread_step me.rank me.pc s.world)
  turned = elim (CallsSend-cases me.pc) [
    | inl calls ↦
        Turns-map _ (λ w p. ChannelStep (view n r d s) (view n r d (set_pc s i w p))) o
          (λ w p h. called (h.0) (h.1 (handed_over (set_pc s i w p))))
          (Turns-pair _ _ o (thread_step-Passing tk fl r d i lt) (
            Turns-forall (λ c. CallLaw r d c me.rank s.sent s.world me.pc) o
              (λ c. thread_step-CallLaw r d c me.rank s.sent me.pc s.world calls)))
    | inr quiet ↦ Turns-map _ _ o (λ w p f. quiet_step f quiet) (thread_step-Passing tk fl r d i lt)
  ]
    where
      o : Outcome Pc Unit
      o = thread_step me.rank me.pc s.world

  pub turn-ChannelStep :
      {t : System} → thread_turn i s ≡ some t → ChannelStep (view n r d s) (view n r d t)
  unfolding thread_turn
  turn-ChannelStep e =
      resume_inv (λ t. ChannelStep (view n r d s) (view n r d t)) s i
        (thread_step me.rank me.pc s.world) turned e

  pub begin-ChannelStep :
      (c : Call)
      → me.pc ≡ idle
      → ChannelStep (view n r d s) (view n r d (set_pc s i s.world (entry c)))
  begin-ChannelStep c e =
      quiet_step (begin-Passing c) (subst (λ q. ¬ (CallsSend q)) (sym e) (λ h. h))
    where
      begin-Passing : (c : Call) → Passing tk fl r d i lt s.world (entry c)
      begin-Passing c = record {
        frames = begin-Frames tk fl i lt c e;
        pending = begun c;
        inbox = begun_inbox c;
        got = begun_got c;
      }
        where
          begun :
              (c : Call)
              → PendingLaw r d (announces s.router) me.rank s.world me.pc s.world (entry c)
          begun (transmit msg dests) = ground (arith, e)
          begun receive = ground (arith, e)
          begun finalize = ground (arith, e)
          begun leave = ground (arith, e)

          begun_inbox : (c : Call) → HeldLaw d me.rank s.world me.pc s.world (entry c)
          begun_inbox (transmit msg dests) = ground (arith, e)
          begun_inbox receive = ground (arith, e)
          begun_inbox finalize = ground (arith, e)
          begun_inbox leave = ground (arith, e)

          begun_got : (c : Call) → GotLaw r d me.rank s.got s.world me.pc s.world (entry c)
          begun_got c =
              subst (λ q. GotLaw r d me.rank s.got s.world q s.world (entry c)) (sym e)
                (sym (append-nil (logged_for r d s.got)))
