-- ===== src/Net/Tokens.antt =====
-- Who may touch what: each semaphore's value and the threads that stand behind it make up a
-- constant, in every state that the system reaches.
use mathlib.Core.Path.{subst}
use rp_maksym_zaveriukha.Base.{
  ℕ, ◌+◌, ◌≡◌, ◌≢◌, ◌<◌, ◌==◌, true, false, Option, none, some, arith, refl, update, total,
  total-update, le-total, total-eq-zero, Bool-cases, Option-cases, inl, inr,
}
use rp_maksym_zaveriukha.Com.{World, Outcome, next, returned, blocked, failed}
use rp_maksym_zaveriukha.Com.Buffer.{PreparePc}
use rp_maksym_zaveriukha.Com.Router.{RouterPc, server_loop}
use rp_maksym_zaveriukha.Net.Thread.{left, Pc, idle, finalizing, Thread, thread_step}
use rp_maksym_zaveriukha.Net.System.{
  System, Call, transmit, receive, finalize, leave, entry, MayCall, set_pc, resume, reroute,
  router_turn, thread_turn, Step, route, turn, begin, Reach, here, later,
}
use rp_maksym_zaveriukha.Net.Weights.{
  bit, fills, awaits, routes, counts, reads, delivers, owns_of, owns, is_final,
}
use rp_maksym_zaveriukha.Net.Routing.{
  Routes, RouterLaw, RouterInboxLaw, server_loop-RouterLaw, server_loop-RouterInboxLaw,
}
use rp_maksym_zaveriukha.Net.Local.{
  Turns, Turns-map, Turns-pair, Turns-forall, BoxLaw, InboxLaw, OwnerLaw, FrameLaw, Owned,
  thread_step-BoxLaw, thread_step-InboxLaw, thread_step-OwnerLaw, thread_step-FrameLaw,
}

-- `n` threads.
pub record Tokens (n : ℕ) (s : System) : Type 0 where
  pub ranks : (i : ℕ) → i < n → (s.threads i).rank < s.world.shared.nr_proc
  pub box :
      s.world.shared.server_box.empty
        + s.world.shared.server_box.full
        + s.world.shared.server_box.delivered
        + routes s.router
        + total (λ t. fills t.pc) n s.threads
      ≡ 1
  pub requests :
      s.world.shared.server_box.full + s.world.shared.server_box.delivered + routes s.router
      ≡ total (λ t. awaits t.pc) n s.threads
  pub finalize_lock : s.world.shared.finalize_lock + total (λ t. counts t.pc) n s.threads ≡ 1
  pub inbox :
      (d : ℕ)
      → (s.world.shared.slots d).empty
          + (s.world.shared.slots d).full
          + delivers d s.router
          + total (reads d) n s.threads
        ≡ 1
  pub owner : (r : ℕ) → bit (s.world.procs r).locked ≡ total (owns r) n s.threads
  pub flag : (r : ℕ) → bit (s.world.procs r).active ≡ total (owns r) n s.threads
  pub alone :
      (i j : ℕ)
      → i < n
      → j < n
      → i ≢ j
      → (s.threads j).rank ≡ (s.threads i).rank
      → is_final (s.threads i).pc ≡ true
      → (s.threads j).pc ≡ left

-- A turn of a thread, from what its step ensures.
pub resume_inv {ℓ} :
    (P : System → Type ℓ) (s : System) (i : ℕ) (o : Outcome Pc Unit) {t : System}
    → Turns (λ w p. P (set_pc s i w p)) o
    → resume s i o ≡ some t
    → P t
resume_inv P s i (next w p) h e = subst P (cc) h
resume_inv P s i (returned w r) h e = subst P (cc) h
resume_inv P s i blocked h e = cc
resume_inv P s i (failed f) h e = cc

owns_of-ne : (r rank : ℕ) (p : Pc) → rank ≢ r → owns_of r rank p ≡ 0
owns_of-ne r rank idle h = refl
owns_of-ne r rank (Pc.preparing msg dests (PreparePc.draining q)) h = ground arith
owns_of-ne r rank _ h = ground arith

owns_of-final : (r rank : ℕ) (p : Pc) → is_final p ≡ true → owns_of r rank p ≡ 0
owns_of-final r rank (finalizing q) f = refl
owns_of-final r rank _ f = cc

module _ {n : ℕ} {s : System} (inv : Tokens n s) where
  open inv use {ranks, box, requests, finalize_lock, inbox, owner, flag, alone}

  -- While a thread is in com_finalize, nobody owns the buffer of its process.
  final-free :
      (i : ℕ)
      → i < n
      → is_final (s.threads i).pc ≡ true
      → (s.world.procs (s.threads i).rank).active ≡ false
  final-free i lt f = ground (
    arith,
    flag (s.threads i).rank,
    total-eq-zero (owns (s.threads i).rank) n s.threads idle_of_others,
  )
    where
      idle_of_others : (j : ℕ) → j < n → owns (s.threads i).rank (s.threads j) ≡ 0
      idle_of_others j h = elim (Bool-cases (i == j)) [
        | inl same ↦
            ground (arith, owns_of-final (s.threads i).rank (s.threads i).rank (s.threads i).pc f)
        | inr other ↦ ground (
          arith,
          owns_of-ne (s.threads i).rank (s.threads j).rank (s.threads j).pc,
          alone i j lt h,
        )
      ]

  pub thread-Owned : (i : ℕ) → i < n → Owned (s.threads i).rank (s.threads i).pc s.world
  thread-Owned i lt = record {
    has_lock =
        omega
          (arith, owner (s.threads i).rank, le-total (owns (s.threads i).rank) n s.threads i lt);
    has_flag =
        omega (arith, flag (s.threads i).rank, le-total (owns (s.threads i).rank) n s.threads i lt);
    is_free = final-free i lt;
  }

  module _ (i : ℕ) (lt : i < n) where
    abbrev me : Thread
    me = s.threads i

    -- The laws of one step together.
    record Laws (w : World) (p : Pc) : Type 0 where
      box_law : BoxLaw s.world me.pc w p
      inbox_law : (d : ℕ) → InboxLaw d me.rank s.world me.pc w p
      owner_law : (r : ℕ) → OwnerLaw r me.rank s.world me.pc w p
      frame_law : FrameLaw s.world me.pc w p

    -- What is left to show of `set_pc`.
    abbrev Alone : Pc → Type 0
    Alone p =
        (a b : ℕ)
        → a < n
        → b < n
        → a ≢ b
        → (update s.threads i (record me { pc = p }) b).rank
          ≡ (update s.threads i (record me { pc = p }) a).rank
        → is_final (update s.threads i (record me { pc = p }) a).pc ≡ true
        → (update s.threads i (record me { pc = p }) b).pc ≡ left

    thread_step-Laws : Turns Laws (thread_step me.rank me.pc s.world)
    thread_step-Laws =
        Turns-map _ Laws o
          (λ w p h. record {
            box_law = h.0;
            inbox_law = h.1.0;
            owner_law = h.1.1.0;
            frame_law = h.1.1.1;
          })
          (Turns-pair _ _ o (thread_step-BoxLaw me.rank me.pc s.world) (
            Turns-pair _ _ o (Turns-forall _ o (thread_step-InboxLaw me.rank me.pc s.world)) (
              Turns-pair _ _ o
                (Turns-forall _ o (thread_step-OwnerLaw me.rank me.pc s.world (thread-Owned i lt)))
                (thread_step-FrameLaw me.rank me.pc s.world))))
      where
        o : Outcome Pc Unit
        o = thread_step me.rank me.pc s.world

    set_pc-Tokens :
        (w : World) (p : Pc)
        → w.shared.nr_proc ≡ s.world.shared.nr_proc
        → BoxLaw s.world me.pc w p
        → ((d : ℕ) → InboxLaw d me.rank s.world me.pc w p)
        → ((r : ℕ) → OwnerLaw r me.rank s.world me.pc w p)
        → Alone p
        → Tokens n (set_pc s i w p)
    set_pc-Tokens w p same b k o al = record {
      ranks = λ j h. ground (arith, ranks j h, ranks i lt);
      box = omega (arith, total-update (λ t. fills t.pc) n s.threads i me' lt);
      requests = omega (arith, total-update (λ t. awaits t.pc) n s.threads i me' lt);
      finalize_lock = omega (arith, total-update (λ t. counts t.pc) n s.threads i me' lt);
      inbox = λ d. omega (arith, total-update (reads d) n s.threads i me' lt, inbox d, k d);
      owner = λ r. omega (arith, total-update (owns r) n s.threads i me' lt, owner r, o r);
      flag = λ r. omega (arith, total-update (owns r) n s.threads i me' lt, flag r, o r);
      alone = al;
    }
      where
        me' : Thread
        me' = record me { pc = p }

    Laws-Tokens : (w : World) (p : Pc) → Laws w p → Tokens n (set_pc s i w p)
    Laws-Tokens w p l =
        set_pc-Tokens w p l.frame_law.1 l.box_law l.inbox_law l.owner_law λ a b ha hb ne e f.
          ground (arith, l.frame_law, alone a b ha hb ne, alone i b lt hb, alone a i ha lt)

    begin-Tokens :
        (c : Call) → me.pc ≡ idle → MayCall n s i c → Tokens n (set_pc s i s.world (entry c))
    begin-Tokens (transmit msg dests) q m =
        set_pc-Tokens s.world (entry (transmit msg dests)) refl (ground arith) (λ d. ground arith)
          (λ r. ground arith)
          λ a b ha hb ne e f. ground (arith, alone a b ha hb ne, alone a i ha lt)
    begin-Tokens receive q m =
        set_pc-Tokens s.world (entry receive) refl (ground arith) (λ d. ground arith)
          (λ r. ground arith)
          λ a b ha hb ne e f. ground (arith, alone a b ha hb ne, alone a i ha lt)
    begin-Tokens finalize q m =
        set_pc-Tokens s.world (entry finalize) refl (ground arith) (λ d. ground arith)
          (λ r. ground arith)
          λ a b ha hb ne e f. ground (arith, alone a b ha hb ne, alone a i ha lt, m b hb)
    begin-Tokens leave q m =
        set_pc-Tokens s.world (entry leave) refl (ground arith) (λ d. ground arith)
          (λ r. ground arith)
          λ a b ha hb ne e f. ground (arith, alone a b ha hb ne, alone a i ha lt)

  turn-Tokens : (i : ℕ) {t : System} → i < n → thread_turn i s ≡ some t → Tokens n t
  unfolding thread_turn
  turn-Tokens i lt e =
      resume_inv (Tokens n) s i (thread_step (s.threads i).rank (s.threads i).pc s.world)
        (Turns-map _ _ (thread_step (s.threads i).rank (s.threads i).pc s.world) (Laws-Tokens i lt)
          (thread_step-Laws i lt))
        e

  Routing-Tokens :
      (p : RouterPc) (w : World) (p' : Option RouterPc)
      → s.router ≡ some p
      → RouterLaw s.world (some p) w p'
      → ((d : ℕ) → RouterInboxLaw d s.world (some p) w p')
      → Tokens n (record s { world = w; router = p' })
  Routing-Tokens p w p' e l k = record {
    ranks = λ i h. rw (l.same) (ranks i h);
    box = ground (arith, box);
    requests = ground arith;
    finalize_lock = omega arith;
    inbox = λ d. ground (arith, inbox d, k d);
    owner = λ r. rw (l.procs) (owner r);
    flag = λ r. rw (l.procs) (flag r);
    alone = alone;
  }

  route_outcome :
      (p : RouterPc) (o : Outcome RouterPc Unit) {t : System}
      → s.router ≡ some p
      → Routes (RouterLaw s.world (some p)) o
      → ((d : ℕ) → Routes (RouterInboxLaw d s.world (some p)) o)
      → reroute s o ≡ some t
      → Tokens n t
  route_outcome p (next w p') e l k h = subst (Tokens n) (cc) (Routing-Tokens p w (some p') e l k)
  route_outcome p (returned w r) e l k h = subst (Tokens n) (cc) (Routing-Tokens p w none e l k)
  route_outcome p blocked e l k h = cc
  route_outcome p (failed f) e l k h = cc

  route-Tokens : {t : System} → router_turn s ≡ some t → Tokens n t
  unfolding router_turn
  route-Tokens h = elim (Option-cases s.router) [
    | inl stopped ↦ cc
    | inr (p, e) ↦
        route_outcome p (server_loop p s.world) e (server_loop-RouterLaw p s.world)
          (server_loop-RouterInboxLaw p s.world) (rw e at h)
  ]

-- Every step of the system keeps the tokens.
pub Step-Tokens : {n : ℕ} {s t : System} → Step n s t → Tokens n s → Tokens n t
Step-Tokens (route h) inv = route-Tokens inv h
Step-Tokens (turn i lt h) inv = turn-Tokens inv i lt h
Step-Tokens (begin i c lt e m) inv = begin-Tokens inv i lt c e m

pub Reach-Tokens : {n : ℕ} {start s : System} → Tokens n start → Reach n start s → Tokens n s
Reach-Tokens inv here = inv
Reach-Tokens inv (later r st) = Step-Tokens st (Reach-Tokens inv r)
