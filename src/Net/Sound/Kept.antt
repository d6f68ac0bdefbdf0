-- ===== src/Net/Sound/Kept.antt =====
-- Every step keeps the prepared sizes and ranks that the checks ask for.
use mathlib.Core.Path.{subst}
use rp_maksym_zaveriukha.Base.{
  ℕ, ◌<◌, ◌≡◌, ◌≢◌, ◌==◌, ◌⊎◌, Bool, true, false, [], arith, refl, sym, ◌∙◌, ap, none, some,
  Bool-cases, Option-cases, inl, inr,
}
use rp_maksym_zaveriukha.Com.{World, Outcome, next, returned, blocked, failed}
use rp_maksym_zaveriukha.Com.Buffer.{WaitPc, PreparePc}
use rp_maksym_zaveriukha.Com.Send.{SendPc}
use rp_maksym_zaveriukha.Com.Recv.{RecvPc}
use rp_maksym_zaveriukha.Com.Router.{RouterPc, server_loop}
use rp_maksym_zaveriukha.Com.Finalize.{FinalizePc}
use rp_maksym_zaveriukha.Net.Thread.{
  Pc, preparing, writing, choosing, sending, receiving, finalizing, left, Thread, thread_step,
}
use rp_maksym_zaveriukha.Net.System.{
  System, Call, transmit, receive, finalize, leave, entry, set_pc, thread_turn, router_turn,
  reroute, Step, route, turn, begin, Reach, here, later,
}
use rp_maksym_zaveriukha.Net.Weights.{owns_of, is_final}
use rp_maksym_zaveriukha.Net.Local.{Turns-map, Turns-pair, Turns-forall}
use rp_maksym_zaveriukha.Net.Routing.{Routes}
use rp_maksym_zaveriukha.Net.Tokens.{Tokens, resume_inv, Step-Tokens}
use rp_maksym_zaveriukha.Net.Flow.{Flow}
use rp_maksym_zaveriukha.Net.Flow.Exclusive.{two_owners}
use rp_maksym_zaveriukha.Net.Flow.Invariant.{Step-Flow}
use rp_maksym_zaveriukha.Net.Sound.{
  Checked, prepares, CheckFrame, thread_step-CheckFrame, thread_step-Checked,
}

abbrev pub Sound : ℕ → System → Type 0
Sound n s = (i : ℕ) → i < n → Checked s.world (s.threads i).rank (s.threads i).pc

-- The points at which a thread relies on the prepared size.
abbrev relies : Pc → Bool
relies (writing msg dests) = true
relies (choosing msg dests) = true
relies (sending msg dest dests p) = true
relies _ = false

relies-owns : (r : ℕ) (p : Pc) → relies p ≡ true → owns_of r r p ≡ 1
relies-owns r (writing msg dests) h = ground arith
relies-owns r (choosing msg dests) h = ground arith
relies-owns r (sending msg dest dests p) h = ground arith
relies-owns r _ h = cc

prepares-cases : (r : ℕ) (p : Pc) → prepares p ≡ true → (owns_of r r p ≡ 1) ⊎ (is_final p ≡ true)
prepares-cases r (preparing msg dests (PreparePc.draining WaitPc.test)) h = inl (ground arith)
prepares-cases r (preparing msg dests PreparePc.mapping) h = inl (ground arith)
prepares-cases r (choosing msg []) h = inl (ground arith)
prepares-cases r (finalizing FinalizePc.enter) h = inr refl
prepares-cases r (finalizing (FinalizePc.draining WaitPc.test)) h = inr refl
prepares-cases r _ h = cc

Checked-frame :
    (w w' : World) (r : ℕ) (q : Pc)
    → w'.shared.nr_proc ≡ w.shared.nr_proc
    → (relies q ≡ true → (w'.shared.slots r).prepared_size ≡ (w.shared.slots r).prepared_size)
    → Checked w r q
    → Checked w' r q
Checked-frame w w' r (writing msg dests) nr same c = same refl ∙ c
Checked-frame w w' r (choosing msg dests) nr same c = same refl ∙ c
Checked-frame w w' r (sending msg dest dests SendPc.enter) nr same c = same refl ∙ c
Checked-frame w w' r (sending msg dest dests (SendPc.wait_empty id)) nr same c =
    (same refl ∙ c.0, rw nr (c.1))
Checked-frame w w' r (sending msg dest dests SendPc.post_full) nr same c =
    (same refl ∙ c.0, rw nr (c.1))
Checked-frame w w' r (sending msg dest dests SendPc.wait_delivered) nr same c =
    (same refl ∙ c.0, rw nr (c.1))
Checked-frame w w' r (sending msg dest dests SendPc.post_empty) nr same c =
    (same refl ∙ c.0, rw nr (c.1))
Checked-frame w w' r (sending msg dest dests SendPc.count) nr same c =
    (same refl ∙ c.0, rw nr (c.1))
Checked-frame w w' r (receiving (RecvPc.post_empty src id size msg)) nr same c = rw nr c
Checked-frame w w' r (receiving (RecvPc.acknowledge src id size msg)) nr same c = rw nr c
Checked-frame w w' r _ nr same c = ground arith

module _ {n : ℕ} {s : System} (tk : Tokens n s) (fl : Flow n s) (sd : Sound n s) where
  module _ (i : ℕ) (lt : i < n) where
    abbrev me : Thread
    me = s.threads i

    -- No other thread of the process relies on the size while this one sets it.
    apart :
        (j : ℕ)
        → j < n
        → i ≢ j
        → relies (s.threads j).pc ≡ true
        → me.rank ≡ (s.threads j).rank
        → prepares me.pc ≡ false
    apart j hj ne k same = elim (Bool-cases (prepares me.pc)) [
      | inr keeps ↦ keeps
      | inl sets ↦ elim (prepares-cases me.rank me.pc sets) [
        | inr final ↦
            let gone : (s.threads j).pc ≡ left = tk.alone i j lt hj ne (sym same) final in
            absurd (cc (k, ap relies gone))
        | inl owner ↦ absurd (
            omega (
              arith,
              two_owners tk fl (s.threads j).rank i j lt hj ne,
              subst (λ r. owns_of r me.rank me.pc ≡ 1) same owner,
              relies-owns (s.threads j).rank (s.threads j).pc k,
            ))
      ]
    ]

    set_pc-Sound :
        (w : World) (p : Pc)
        → ((d : ℕ) → CheckFrame d me.rank s.world me.pc w)
        → Checked w me.rank p
        → Sound n (set_pc s i w p)
    set_pc-Sound w p frame own j hj = elim (Bool-cases (i == j)) [
      | inl same ↦ rw same own
      | inr other ↦ rw other (
          Checked-frame s.world w (s.threads j).rank (s.threads j).pc (frame 0).count
            (λ k. (frame (s.threads j).rank).prepared (apart j hj (ground arith) k)) (sd j hj))
    ]

    turn-Sound : {t : System} → thread_turn i s ≡ some t → Sound n t
    unfolding thread_turn
    turn-Sound e =
        resume_inv (Sound n) s i o
          (Turns-map _ (λ w p. Sound n (set_pc s i w p)) o (λ w p h. set_pc-Sound w p (h.0) (h.1))
            (Turns-pair _ _ o (Turns-forall _ o (thread_step-CheckFrame me.rank me.pc s.world))
              (thread_step-Checked me.rank me.pc s.world s.sent (fl.facts i lt) (sd i lt))))
          e
      where
        o : Outcome Pc Unit
        o = thread_step me.rank me.pc s.world

    begin-Sound : (c : Call) → Sound n (set_pc s i s.world (entry c))
    begin-Sound c =
        set_pc-Sound s.world (entry c) (λ d. record { count = refl; prepared = λ _. refl })
          (fresh c)
      where
        fresh : (c : Call) → Checked s.world me.rank (entry c)
        fresh (transmit msg dests) = tt
        fresh receive = tt
        fresh finalize = tt
        fresh leave = tt

abbrev RouterCheck : ℕ → World → World → Type 0
RouterCheck d w w' =
    (w'.shared.nr_proc ≡ w.shared.nr_proc)
    × ((w'.shared.slots d).prepared_size ≡ (w.shared.slots d).prepared_size)

server_loop-RouterCheck :
    (p : RouterPc) (w : World) (d : ℕ) → Routes (λ w' q. RouterCheck d w w') (server_loop p w)
unfolding server_loop
server_loop-RouterCheck RouterPc.wait_full w d = ground arith
server_loop-RouterCheck (RouterPc.wait_inbox e) w d = ground arith
server_loop-RouterCheck (RouterPc.post_inbox e) w d = ground arith
server_loop-RouterCheck (RouterPc.post_delivered e) w d = ground arith

route_outcome :
    (n : ℕ) (s : System) (o : Outcome RouterPc Unit) {t : System}
    → Sound n s
    → ((d : ℕ) → Routes (λ w' q. RouterCheck d s.world w') o)
    → reroute s o ≡ some t
    → Sound n t
route_outcome n s (next w q) {t} sd f h =
    let same : record s { world = w; router = some q } ≡ t = cc in
    subst (Sound n) same (λ j hj.
      Checked-frame s.world w (s.threads j).rank (s.threads j).pc (f 0).0
        (λ _. (f (s.threads j).rank).1) (sd j hj))
route_outcome n s (returned w x) {t} sd f h =
    let same : record s { world = w; router = none } ≡ t = cc in
    subst (Sound n) same (λ j hj.
      Checked-frame s.world w (s.threads j).rank (s.threads j).pc (f 0).0
        (λ _. (f (s.threads j).rank).1) (sd j hj))
route_outcome n s blocked sd f h = cc
route_outcome n s (failed x) sd f h = cc

route-Sound : (n : ℕ) (s : System) {t : System} → Sound n s → router_turn s ≡ some t → Sound n t
unfolding router_turn
route-Sound n s sd h = elim (Option-cases s.router) [
  | inl stopped ↦ cc
  | inr (p, e) ↦
      route_outcome n s (server_loop p s.world) sd (server_loop-RouterCheck p s.world) (rw e at h)
]

Step-Sound : {n : ℕ} {s t : System} → Step n s t → Tokens n s → Flow n s → Sound n s → Sound n t
Step-Sound {n} {s} (route h) tk fl sd = route-Sound n s sd h
Step-Sound (turn i lt h) tk fl sd = turn-Sound tk fl sd i lt h
Step-Sound (begin i c lt e m) tk fl sd = begin-Sound tk fl sd i lt c

pub Reach-Sound :
    {n : ℕ} {start s : System}
    → Tokens n start
    → Flow n start
    → Sound n start
    → Reach n start s
    → Tokens n s × Flow n s × Sound n s
Reach-Sound tk fl sd here = (tk, fl, sd)
Reach-Sound tk fl sd (later r st) =
    let (tk', fl', sd') = Reach-Sound tk fl sd r in
    (Step-Tokens st tk', Step-Flow st tk' fl', Step-Sound st tk' fl' sd')
