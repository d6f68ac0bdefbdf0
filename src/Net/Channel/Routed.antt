-- ===== src/Net/Channel/Routed.antt =====
-- A step of the router that hands nothing over leaves the channel alone.
use rp_maksym_zaveriukha.Base.{
  ℕ, ◌+◌, ◌≡◌, ◌<◌, ◌≤◌, ◌==◌, ◌⊎◌, [], arith, refl, ap, Option, none, some, false, Bool-cases, inl,
  inr, total, total_le,
}
use rp_maksym_zaveriukha.Com.{World}
use rp_maksym_zaveriukha.Com.Segment.{read_message_from_segment}
use rp_maksym_zaveriukha.Com.Router.{RouterPc, server_loop}
use rp_maksym_zaveriukha.Net.System.{System}
use rp_maksym_zaveriukha.Net.Weights.{bit, reads}
use rp_maksym_zaveriukha.Net.Routing.{Routes}
use rp_maksym_zaveriukha.Net.Tokens.{Tokens}
use rp_maksym_zaveriukha.Net.Flow.{Flow, announces}
use rp_maksym_zaveriukha.Net.Flow.Routed.{hands_inbox, fills_inbox}
use rp_maksym_zaveriukha.Net.Flow.Invariant.Route.{RouterFrames, not_filled}
use rp_maksym_zaveriukha.Net.Channel.{
  ChannelStep, stay, copying, content, arrived, handed_over, held, view,
}
use rp_maksym_zaveriukha.Net.Channel.Held.{copying-reads}

abbrev pub posts : RouterPc → ℕ
posts (RouterPc.post_inbox e) = 1
posts _ = 0

pub posts-cases : (p : RouterPc) → ((e : ℕ) × (p ≡ RouterPc.post_inbox e)) ⊎ (posts p ≡ 0)
posts-cases (RouterPc.post_inbox e) = inl (e, refl)
posts-cases _ = inr refl

pub posts-hands : (p : RouterPc) (d : ℕ) → posts p ≡ 0 → hands_inbox p d ≡ false
posts-hands (RouterPc.post_inbox e) d h = absurd (omega (arith, h))
posts-hands _ d h = refl

pub record PostLaw (d : ℕ) (w : World) (p : RouterPc) (w' : World) (q : Option RouterPc)
    : Type 0 where
  pub over :
      w'.shared.server_box.delivered + announces q
      ≡ w.shared.server_box.delivered + announces (some p) + posts p
  pub full : (w'.shared.slots d).full ≡ (w.shared.slots d).full + bit (hands_inbox p d)

pub server_loop-PostLaw :
    (d : ℕ) (p : RouterPc) (w : World) → Routes (PostLaw d w p) (server_loop p w)
unfolding server_loop
server_loop-PostLaw d RouterPc.wait_full w = ground arith
server_loop-PostLaw d (RouterPc.wait_inbox e) w = ground arith
server_loop-PostLaw d (RouterPc.post_inbox e) w = ground arith
server_loop-PostLaw d (RouterPc.post_delivered e) w = ground arith

module _ {n : ℕ} {s : System} (tk : Tokens n s) (fl : Flow n s) (p : RouterPc)
    (e : s.router ≡ some p) (r d : ℕ) where
  module _ {w : World} {q : Option RouterPc} (f : RouterFrames tk fl p e w q)
      (l : PostLaw d s.world p w q) where
    abbrev s' : System
    s' = record s { world = w; router = q }

    pub held_after : held n d s' ≡ held n d s + bit (hands_inbox p d)
    held_after = omega (arith, l.full)

    pub content_kept : fills_inbox p d ≡ false → content w d ≡ content s.world d
    unfolding content
    content_kept keeps = λ i.
        elim (read_message_from_segment ((f.slot d).shm i) (((f.slot d).inbox keeps).2 i)
          (((f.slot d).inbox keeps).1 i)) [ none ↦ [] | some msg ↦ msg ]

    pub copies_read : total (copying d) n s.threads ≤ total (reads d) n s.threads
    copies_read =
        total_le (copying d) (reads d) n s.threads
          (λ j hj. omega (arith, copying-reads d (s.threads j).rank (s.threads j).pc))

    held_kept : hands_inbox p d ≡ false → held n d s' ≡ held n d s
    held_kept keeps = omega (arith, rw keeps at held_after)

    pub arrived_kept :
        hands_inbox p d ≡ false → arrived r d (held n d s') w ≡ arrived r d (held n d s) s.world
    arrived_kept keeps = elim (Bool-cases (held n d s == 0)) [
      | inl nothing ↦ rw (held_kept keeps, nothing) refl
      | inr something ↦
          let more : 0 < held n d s = ground arith in
          let k : fills_inbox p d ≡ false =
            not_filled tk fl p e f d (omega (arith, copies_read, more)) in
          rw (held_kept keeps, something, content_kept k, ((f.slot d).inbox k).0) refl
    ]

    pub quiet_route : posts p ≡ 0 → ChannelStep (view n r d s) (view n r d s')
    quiet_route h = stay (rw (arrived_kept (posts-hands p d h), same) refl) refl refl
      where
        same : handed_over s' ≡ handed_over s
        same = omega (arith, l.over, ap announces e, h)
