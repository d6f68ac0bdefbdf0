-- ===== src/Net/Channel/Posted.antt =====
-- The router hands the message of the thread that waits over to the inbox of its destination.
use mathlib.Core.Path.{subst}
use rp_maksym_zaveriukha.Base.{
  ℕ, ◌≡◌, ◌≢◌, ◌<◌, ◌==◌, List, [], pos, arith, refl, sym, ◌∙◌, ap, Option, none, some, false,
  Bool-cases, Option-cases, inl, inr, total-pos, two-le-total, collect, collect_ext, collect_nil,
  collect_one, ==_refl, ==_iff,
}
use rp_maksym_zaveriukha.Com.{World, Outcome, next, returned, blocked, failed}
use rp_maksym_zaveriukha.Com.Router.{RouterPc, server_loop}
use rp_maksym_zaveriukha.Net.System.{System, router_turn, reroute}
use rp_maksym_zaveriukha.Net.Weights.{bit, awaits, owns, routes, delivers}
use rp_maksym_zaveriukha.Net.Routing.{Routes}
use rp_maksym_zaveriukha.Net.Tokens.{Tokens}
use rp_maksym_zaveriukha.Net.Flow.{
  Flow, RouterFact, Carried, from_rank, announces, Written, Logged, Requested,
}
use rp_maksym_zaveriukha.Net.Flow.Routed.{hands_inbox, fills_inbox}
use rp_maksym_zaveriukha.Net.Flow.Exclusive.{two_owners}
use rp_maksym_zaveriukha.Net.Flow.Invariant.Route.{RouterFrames, all_Frames, route-RouterReady}
use rp_maksym_zaveriukha.Net.Channel.{
  ChannelStep, stay, matches, only, outgoing, content, arrived, handed_over, held, view,
}
use rp_maksym_zaveriukha.Net.Channel.Pending.{
  outgoing-quiet, outgoing-closed, outgoing-owns, awaits-outgoing,
}
use rp_maksym_zaveriukha.Net.Channel.Held.{content-Carried}
use rp_maksym_zaveriukha.Net.Channel.Routed.{
  posts, posts-cases, PostLaw, server_loop-PostLaw, held_after, content_kept, copies_read,
  arrived_kept, quiet_route,
}

module _ {n : ℕ} {s : System} (tk : Tokens n s) (fl : Flow n s) (p : RouterPc)
    (e : s.router ≡ some p) (r d : ℕ) where
  module _ {w : World} {q : Option RouterPc} (f : RouterFrames tk fl p e w q)
      (l : PostLaw d s.world p w q) where
    abbrev s' : System
    s' = record s { world = w; router = q }

    module _ (b : ℕ) (posting : p ≡ RouterPc.post_inbox b) where
      posted : RouterFact s.world (some (RouterPc.post_inbox b))
      posted = subst (λ x. RouterFact s.world (some x)) posting (route-RouterReady tk fl p e).fact

      before : handed_over s ≡ 0
      before = omega (
        arith,
        tk.box,
        ap routes e,
        ap announces e,
        ap (λ x. routes (some x)) posting,
        ap (λ x. announces (some x)) posting,
      )

      after : handed_over s' ≡ 1
      after = omega (arith, l.over, before, ap announces e, ap posts posting)

      module _ (j : ℕ) (hj : j < n) (waits : 0 < awaits (s.threads j).pc) where
        abbrev sender : ℕ
        sender = (s.threads j).rank

        module _ (msg : List ℕ) (written : Written s.world sender msg)
            (logged : Logged sender (pos b) msg s.sent)
            (request : Requested s.world sender (pos b) msg) (owner : owns sender (s.threads j) ≡ 1)
            (out : outgoing r d 0 (s.threads j) ≡ only (matches r d sender (pos b)) msg) where
          others :
              (k : ℕ)
              → k < n
              → j ≢ k
              → outgoing r d (handed_over s') (s.threads k)
                ≡ outgoing r d (handed_over s) (s.threads k)
          others k hk ne =
              outgoing-quiet r d (handed_over s') (handed_over s) (s.threads k).rank
                (s.threads k).pc
                (omega (
                  arith,
                  waits,
                  tk.box,
                  tk.requests,
                  two-le-total (λ t. awaits t.pc) n s.threads j k hj hk ne,
                ))

          gone : outgoing r d (handed_over s') (s.threads j) ≡ []
          gone =
              outgoing-closed r d (handed_over s') sender (s.threads j).pc (omega (arith, after))
                waits

          there : outgoing r d (handed_over s) (s.threads j) ≡ only (matches r d sender (pos b)) msg
          there = rw before out

          module _ (is_d : b ≡ d) where
            posted_here : RouterFact s.world (some (RouterPc.post_inbox d))
            posted_here = subst (λ k. RouterFact s.world (some (RouterPc.post_inbox k))) is_d posted

            keeps : fills_inbox p d ≡ false
            keeps = ap (λ x. fills_inbox x d) posting

            empty_before : held n d s ≡ 0
            empty_before = omega (
              arith,
              tk.inbox d,
              (copies_read tk fl p e r d f l),
              ap (delivers d) e,
              ap (λ x. delivers d (some x)) posting,
              ap (λ k. bit (k == d)) is_d,
              ap bit (==_refl d),
            )

            full_after : held n d s' ≡ 1
            full_after = omega (
              arith,
              (held_after tk fl p e r d f l),
              empty_before,
              ap (λ x. bit (hands_inbox x d)) posting,
              ap (λ k. bit (k == d)) is_d,
              ap bit (==_refl d),
            )

            src_after : (w.shared.slots d).src_rank ≡ pos sender
            src_after = ((f.slot d).inbox keeps).0 ∙ posted_here.2 ∙ request.src

            described : Carried s.world s.sent d
            described = record {
              from = sender;
              msg = msg;
              exists = tk.ranks j hj;
              src = posted_here.2 ∙ request.src;
              size = posted_here.3 ∙ request.size;
              name = posted_here.4 ∙ request.name;
              written = written;
              logged = subst (λ k. Logged sender (pos k) msg s.sent) is_d logged;
            }

            content_after : content w d ≡ msg
            unfolding described
            content_after =
                (content_kept tk fl p e r d f l) keeps ∙ content-Carried s.world s.sent d described

            arrived_after : arrived r d (held n d s') w ≡ only (from_rank r (pos sender)) msg
            arrived_after = rw (full_after, src_after, content_after) refl

          same_pending :
              matches r d sender (pos b) ≡ 0
              → collect (outgoing r d (handed_over s')) n s.threads
                ≡ collect (outgoing r d (handed_over s)) n s.threads
          same_pending none_for = collect_ext _ _ n s.threads s.threads λ k hk.
              elim (Bool-cases (j == k)) [
                | inl same ↦
                    subst
                      (λ x.
                        outgoing r d (handed_over s') (s.threads x)
                        ≡ outgoing r d (handed_over s) (s.threads x))
                      ((==_iff j k).0 same) (gone ∙ sym (there ∙ ap (λ x. only x msg) none_for))
                | inr other ↦ others k hk (ground arith)
              ]

          foreign : matches r d sender (pos b) ≡ 0 → ChannelStep (view n r d s) (view n r d s')
          foreign none_for = stay (rw (same_arrived, same_pending none_for) refl) refl refl
            where
              same_arrived : arrived r d (held n d s') w ≡ arrived r d (held n d s) s.world
              same_arrived = elim (Bool-cases (b == d)) [
                | inl same ↦
                    let is_d : b ≡ d = ground arith in
                    arrived_after is_d ∙ (rw (empty_before is_d) (ground arith))
                | inr other ↦
                    (arrived_kept tk fl p e r d f l) (ap (λ x. hands_inbox x d) posting ∙ other)
              ]

          own : sender ≡ r → b ≡ d → ChannelStep (view n r d s) (view n r d s')
          own is_r is_d =
              stay
                (rw (arrived_after is_d, empty_before is_d, none_after, one_before) (ground arith))
                refl refl
            where
              nobody : (k : ℕ) → k < n → j ≢ k → owns r (s.threads k) ≡ 0
              nobody k hk ne = omega (
                arith,
                two_owners tk fl r j k hj hk ne,
                subst (λ x. owns x (s.threads j) ≡ 1) is_r owner,
              )

              none_after : collect (outgoing r d (handed_over s')) n s.threads ≡ []
              none_after = collect_nil _ n s.threads λ k hk. elim (Bool-cases (j == k)) [
                | inl same ↦
                    subst (λ x. outgoing r d (handed_over s') (s.threads x) ≡ [])
                      ((==_iff j k).0 same) gone
                | inr other ↦
                    outgoing-owns r d (handed_over s') (s.threads k).rank (s.threads k).pc
                      (nobody k hk (ground arith))
              ]

              one_before :
                  collect (outgoing r d (handed_over s)) n s.threads
                  ≡ only (matches r d sender (pos b)) msg
              one_before =
                  collect_one _ n s.threads j hj (λ k hk ne.
                    outgoing-owns r d (handed_over s) (s.threads k).rank (s.threads k).pc
                      (nobody k hk ne))
                  ∙ there

      post_route : ChannelStep (view n r d s) (view n r d s')
      post_route = found (
          total-pos (λ t. awaits t.pc) n s.threads
            (omega (arith, tk.requests, ap routes e, ap (λ x. routes (some x)) posting)))
        where
          found :
              (j : ℕ) × (j < n) × (0 < awaits (s.threads j).pc)
              → ChannelStep (view n r d s) (view n r d s')
          found (j, hj, waits) =
              let (msg, written, logged, request, owner, out) =
                awaits-outgoing s.world s.sent (s.threads j).rank b (s.threads j).pc (fl.facts j hj)
                  waits posted.1 in
              elim (Bool-cases (matches r d (s.threads j).rank (pos b) == 0)) [
                | inl none_for ↦
                    foreign j hj waits msg written logged request owner (out r d) (ground arith)
                | inr one ↦
                    own j hj waits msg written logged request owner (out r d) (ground arith)
                      (ground arith)
              ]

    routed_step : ChannelStep (view n r d s) (view n r d s')
    routed_step = elim (posts-cases p) [
      | inl (b, posting) ↦ post_route b posting
      | inr quiet ↦ (quiet_route tk fl p e r d f l) quiet
    ]

  abbrev Simulated : System → Type 0
  Simulated t = ChannelStep (view n r d s) (view n r d t)

  rerouted :
      (o : Outcome RouterPc Unit) {t : System}
      → Routes (RouterFrames tk fl p e) o
      → Routes (PostLaw d s.world p) o
      → reroute s o ≡ some t
      → ChannelStep (view n r d s) (view n r d t)
  rerouted (next w q) {t} f l h =
      let same : record s { world = w; router = some q } ≡ t = cc in
      subst Simulated same (routed_step f l)
  rerouted (returned w x) {t} f l h =
      let same : record s { world = w; router = none } ≡ t = cc in
      subst Simulated same (routed_step f l)
  rerouted blocked f l h = cc
  rerouted (failed x) f l h = cc

pub route-ChannelStep :
    {n : ℕ} {s : System} (tk : Tokens n s) (fl : Flow n s) (r d : ℕ) {t : System}
    → router_turn s ≡ some t
    → ChannelStep (view n r d s) (view n r d t)
unfolding router_turn
route-ChannelStep {n} {s} tk fl r d h = elim (Option-cases s.router) [
  | inl stopped ↦ cc
  | inr (p, e) ↦
      rerouted tk fl p e r d (server_loop p s.world)
        (all_Frames tk fl p e (server_loop p s.world) refl) (server_loop-PostLaw d p s.world)
        (rw e at h)
]
