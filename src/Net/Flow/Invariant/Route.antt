-- ===== src/Net/Flow/Invariant/Route.antt =====
-- A step of the router keeps the flow of the messages.
use mathlib.Core.Path.{subst}
use rp_maksym_zaveriukha.Base.{
  ℕ, ◌+◌, ◌≡◌, ◌<◌, inl, inr, true, false, List, arith, pos, refl, sym, ◌∙◌, ap, Option, some,
  Bool-cases, Option-cases, total, le-total, total-pos, ==_refl,
}
use rp_maksym_zaveriukha.Com.{World, Outcome, next, returned, blocked, failed}
use rp_maksym_zaveriukha.Com.Send.{SendPc}
use rp_maksym_zaveriukha.Com.Router.{RouterPc, server_loop}
use rp_maksym_zaveriukha.Com.Finalize.{FinalizePc}
use rp_maksym_zaveriukha.Net.Thread.{Pc, sending, finalizing, exited}
use rp_maksym_zaveriukha.Net.System.{Sent, System, router_turn, reroute}
use rp_maksym_zaveriukha.Net.Weights.{bit, awaits, reads, routes, delivers}
use rp_maksym_zaveriukha.Net.Routing.{Routes, RouterLaw, server_loop-RouterLaw}
use rp_maksym_zaveriukha.Net.Tokens.{Tokens}
use rp_maksym_zaveriukha.Net.Flow.{
  delivered_from, Logged, Written, Requested, Flow, Fact, RouterFact, Carried, announces,
}
use rp_maksym_zaveriukha.Net.Flow.Facts.{Carried-frame, keeps_inbox, Stable, Fact-frame}
use rp_maksym_zaveriukha.Net.Flow.Routed.{
  fills_inbox, hands_inbox, RouterFrame, RouterReady, RouterAccountLaw, server_loop-RouterFrame,
  server_loop-RouterFact, server_loop-RouterAccountLaw,
}
use rp_maksym_zaveriukha.Net.Flow.Exclusive.{announces-routes}
use rp_maksym_zaveriukha.Net.Flow.Turn.Alone.{clears_inbox-reads, keeps_inbox-clears}

hands_inbox-eq : (p : RouterPc) (d : ℕ) → hands_inbox p d ≡ true → p ≡ RouterPc.post_inbox d
hands_inbox-eq (RouterPc.post_inbox e) d h = ap RouterPc.post_inbox (ground arith)
hands_inbox-eq _ d h = cc

-- The request in the mailbox comes from the thread that waits.
awaits-Requested :
    (w : World) (sent : List Sent) (r d : ℕ) (p : Pc)
    → Fact w sent r p
    → 0 < awaits p
    → w.shared.server_box.dest_rank ≡ pos d
    → (msg : List ℕ) × Written w r msg × Logged r (pos d) msg sent × Requested w r (pos d) msg
awaits-Requested w sent r d (sending msg dest dests SendPc.wait_delivered) f h e = (
  msg,
  f.0,
  subst (λ x. Logged r x msg sent) (sym f.2.dest_is ∙ e) f.1,
  subst (λ x. Requested w r x msg) (sym f.2.dest_is ∙ e) f.2,
)
awaits-Requested w sent r d (finalizing (FinalizePc.unmap true)) f h e = cc
awaits-Requested w sent r d (finalizing (FinalizePc.unmap false)) f h e = absurd (omega (arith, h))
awaits-Requested w sent r d (exited true) f h e = cc
awaits-Requested w sent r d (exited false) f h e = absurd (omega (arith, h))
awaits-Requested w sent r d _ f h e = absurd (omega (arith, h))

module _ {n : ℕ} {s : System} (tk : Tokens n s) (fl : Flow n s) (p : RouterPc)
    (e : s.router ≡ some p) where
  pub record RouterFrames (w : World) (q : Option RouterPc) : Type 0 where
    pub slot : (d : ℕ) → RouterFrame d s.world p w
    pub fact : RouterFact w q
    pub account : (r : ℕ) → RouterAccountLaw r s.world (some p) w q
    pub same_count : w.shared.nr_proc ≡ s.world.shared.nr_proc

  pub route-RouterReady : RouterReady p s.world
  route-RouterReady = record {
    fact = subst (RouterFact s.world) e fl.routing;
    not_delivered = omega (arith, tk.box, announces-routes s.router, ap announces e);
    alone = λ d h. omega (arith, tk.box, ap routes e, ap (λ x. routes (some x)) h);
    empty_inbox = λ d h lt. omega (arith, tk.inbox d);
    not_full = λ d h.
        omega (
          arith,
          tk.inbox d,
          ap (delivers d) e,
          ap (λ x. delivers d (some x)) h,
          ap bit (==_refl d),
        );
  }

  pub all_Frames : (o : Outcome RouterPc Unit) → o ≡ server_loop p s.world → Routes RouterFrames o
  all_Frames (next w q) h = record {
    slot = λ d.
        subst (Routes (λ w' p'. RouterFrame d s.world p w')) (sym h)
          (server_loop-RouterFrame p s.world d);
    fact =
        subst (Routes RouterFact) (sym h) (server_loop-RouterFact p s.world route-RouterReady.fact);
    account = λ r.
        subst (Routes (RouterAccountLaw r s.world (some p))) (sym h)
          (server_loop-RouterAccountLaw r p s.world route-RouterReady);
    same_count =
        (subst (Routes (RouterLaw s.world (some p))) (sym h)
          (server_loop-RouterLaw p s.world)).same;
  }
  all_Frames (returned w q) h = record {
    slot = λ d.
        subst (Routes (λ w' p'. RouterFrame d s.world p w')) (sym h)
          (server_loop-RouterFrame p s.world d);
    fact =
        subst (Routes RouterFact) (sym h) (server_loop-RouterFact p s.world route-RouterReady.fact);
    account = λ r.
        subst (Routes (RouterAccountLaw r s.world (some p))) (sym h)
          (server_loop-RouterAccountLaw r p s.world route-RouterReady);
    same_count =
        (subst (Routes (RouterLaw s.world (some p))) (sym h)
          (server_loop-RouterLaw p s.world)).same;
  }
  all_Frames blocked h = tt
  all_Frames (failed x) h = tt

  module _ {w : World} {q : Option RouterPc} (f : RouterFrames w q) where
    -- The fields of an inbox that the router does not fill.
    still_Carried :
        (d : ℕ) → fills_inbox p d ≡ false → Carried s.world s.sent d → Carried w s.sent d
    still_Carried d keeps c =
        Carried-frame c f.same_count (λ r. (f.slot r).own) ((f.slot d).inbox keeps).0
          ((f.slot d).inbox keeps).1 ((f.slot d).inbox keeps).2
          (ap (λ g. g (s.world.shared.slots c.from).own_shm_name) (f.slot d).shm) (λ l. l)

    pub not_filled :
        (d : ℕ)
        → 0 < (s.world.shared.slots d).full + total (reads d) n s.threads
        → fills_inbox p d ≡ false
    not_filled d h = elim (Bool-cases (fills_inbox p d)) [
      | inr keeps ↦ keeps
      | inl fills ↦ absurd (omega (arith, (f.slot d).waits fills, tk.inbox d, h))
    ]

    stable : (j : ℕ) → j < n → Stable s.world w s.sent s.sent (s.threads j).rank (s.threads j).pc
    stable j hj = record {
      own = (f.slot (s.threads j).rank).own;
      segment =
          λ k. ap (λ g. g (s.world.shared.slots (s.threads j).rank).own_shm_name) (f.slot 0).shm;
      box = λ k. (f.slot 0).request;
      pending = λ k. (f.slot (s.threads j).rank).pending;
      inbox = λ k. (
        ((f.slot (s.threads j).rank).inbox (reader j hj k)).0,
        ((f.slot (s.threads j).rank).inbox (reader j hj k)).1,
        still_Carried (s.threads j).rank (reader j hj k),
      );
      log = λ r dest msg l. l;
    }
      where
        reader :
            (j : ℕ)
            → j < n
            → keeps_inbox (s.threads j).pc ≡ true
            → fills_inbox p (s.threads j).rank ≡ false
        reader j hj k = not_filled (s.threads j).rank (
            omega (
              arith,
              le-total (reads (s.threads j).rank) n s.threads j hj,
              clears_inbox-reads (s.threads j).rank (s.threads j).pc
                  (sym (keeps_inbox-clears (s.threads j).pc) ∙ k),
            ))

    -- The inbox that the router hands over.
    handed : (d : ℕ) → p ≡ RouterPc.post_inbox d → (d < w.shared.nr_proc) × Carried w s.sent d
    handed d h = found (
        total-pos (λ t. awaits t.pc) n s.threads
          (omega (arith, tk.requests, ap routes e, ap (λ x. routes (some x)) h)))
      where
        posted : RouterFact s.world (some (RouterPc.post_inbox d))
        posted = subst (λ x. RouterFact s.world (some x)) h route-RouterReady.fact

        keeps : fills_inbox p d ≡ false
        keeps = ap (λ x. fills_inbox x d) h

        build :
            (j : ℕ)
            → j < n
            → (msg : List ℕ) × Written s.world (s.threads j).rank msg
              × Logged (s.threads j).rank (pos d) msg s.sent
              × Requested s.world (s.threads j).rank (pos d) msg
            → Carried s.world s.sent d
        build j hj (msg, written, logged, request) = record {
          from = (s.threads j).rank;
          msg = msg;
          exists = tk.ranks j hj;
          src = posted.2 ∙ request.src;
          size = posted.3 ∙ request.size;
          name = posted.4 ∙ request.name;
          written = written;
          logged = logged;
        }

        found :
            (j : ℕ) × (j < n) × (0 < awaits (s.threads j).pc)
            → (d < w.shared.nr_proc) × Carried w s.sent d
        found (j, hj, waits) = (
          rw (f.same_count) posted.0,
          still_Carried d keeps (
              build j hj (
                awaits-Requested s.world s.sent (s.threads j).rank d (s.threads j).pc
                  (fl.facts j hj) waits posted.1)),
        )

    new_inboxes :
        (d : ℕ) → 0 < (w.shared.slots d).full → (d < w.shared.nr_proc) × Carried w s.sent d
    new_inboxes d h = elim (Bool-cases (hands_inbox p d)) [
      | inl hands ↦ handed d (hands_inbox-eq p d hands)
      | inr keeps ↦ (
        rw (f.same_count) (fl.inboxes d (omega (arith, (f.slot d).full keeps))).0,
        still_Carried d (not_filled d (omega (arith, (f.slot d).full keeps)))
            (fl.inboxes d (omega (arith, (f.slot d).full keeps))).1,
      )
    ]

    routed-Flow : Flow n (record s { world = w; router = q })
    routed-Flow = record {
      segment = λ r h gone. fl.segment r (rw f.same_count at h) (
          ap (λ g. g (s.world.shared.slots r).own_shm_name) (sym (f.slot 0).shm)
          ∙ ap (w.shm) (sym (f.slot r).own)
          ∙ gone);
      names = λ a r ha hr ne.
          rw ((f.slot a).own, (f.slot r).own)
            (fl.names a r (rw f.same_count at ha) (rw f.same_count at hr) ne);
      facts = λ j hj. Fact-frame (s.threads j).pc (stable j hj) (fl.facts j hj);
      inboxes = new_inboxes;
      routing = f.fact;
      account = λ r. rw (f.same_count) (
          omega (
            arith,
            fl.account r,
            f.account r,
            (f.slot r).pending,
            ap (delivered_from r s.world) e,
          ));
    }

  rerouted-Flow :
      (o : Outcome RouterPc Unit) {t : System}
      → Routes RouterFrames o
      → reroute s o ≡ some t
      → Flow n t
  rerouted-Flow (next w q) f h = subst (Flow n) (cc) (routed-Flow f)
  rerouted-Flow (returned w r) f h = subst (Flow n) (cc) (routed-Flow f)
  rerouted-Flow blocked f h = cc
  rerouted-Flow (failed x) f h = cc

pub route-Flow :
    {n : ℕ} {s : System} → Tokens n s → Flow n s → {t : System} → router_turn s ≡ some t → Flow n t
unfolding router_turn
route-Flow {n} {s} tk fl h = elim (Option-cases s.router) [
  | inl stopped ↦ cc
  | inr (p, e) ↦
      rerouted-Flow tk fl p e (server_loop p s.world)
        (all_Frames tk fl p e (server_loop p s.world) refl) (rw e at h)
]
