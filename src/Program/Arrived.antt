-- ===== src/Program/Arrived.antt =====
-- What a process has copied, taken apart by the sender.
use rp_maksym_zaveriukha.Base.{
  ℕ, ◌+◌, ◌<◌, ◌≤◌, ◌≡◌, ◌==◌, List, [], ◌∷◌, ◌++◌, some, Option-cases, map, arith, refl, ap, ◌∙◌,
  if◌then◌else◌, Bool-cases, inl, inr, below, below_add, below_one, below_ext, total-eq-zero,
}
use mathlib.Core.List.{append-nil}
use rp_maksym_zaveriukha.Com.{World, Outcome, next, returned, blocked, failed}
use rp_maksym_zaveriukha.Com.Router.{RouterPc, server_loop}
use rp_maksym_zaveriukha.Net.Thread.{Pc, idle, choosing, thread_step}
use rp_maksym_zaveriukha.Net.System.{
  Sent, System, entry, log_sent, set_pc, reroute, route, turn, begin, Reach, here, later,
  thread_turn, router_turn,
}
use rp_maksym_zaveriukha.Net.Local.{Turns}
use rp_maksym_zaveriukha.Net.Tokens.{resume_inv}
use rp_maksym_zaveriukha.Net.Flow.{from_rank}
use rp_maksym_zaveriukha.Net.Start.{system_of}
use rp_maksym_zaveriukha.Net.Channel.{logged_for, only}
use rp_maksym_zaveriukha.Db.Receiver.{Verdict, stop}
use rp_maksym_zaveriukha.Db.Receiver.Loop.{stops_in}
use rp_maksym_zaveriukha.Program.{all_for, verdict, as_stop, stops}
use rp_maksym_zaveriukha.Program.Counts.{weighed-append}

stops_in-head : (v : Verdict) (vs : List Verdict) → stops_in (v ∷ vs) ≡ as_stop v + stops_in vs
stops_in-head stop vs = omega arith
stops_in-head _ vs = omega arith

pub stops_in-verdict : (ms : List (List ℕ)) → stops_in (map verdict ms) ≡ stops ms
stops_in-verdict [] = refl
stops_in-verdict (m ∷ ms) =
    omega (arith, stops_in-head (verdict m) (map verdict ms), stops_in-verdict ms)

pub stops_in-append : (xs ys : List Verdict) → stops_in (xs ++ ys) ≡ stops_in xs + stops_in ys
stops_in-append [] ys = omega arith
stops_in-append (x ∷ xs) ys =
    omega (arith, stops_in-head x (xs ++ ys), stops_in-head x xs, stops_in-append xs ys)

stops-logged_for :
    (r d : ℕ) (x : Sent) (xs : List Sent)
    → stops (logged_for r d (x ∷ xs))
      ≡ stops (logged_for r d xs)
        + (if x.src == r then stops (only (from_rank d x.dest) x.bytes) else 0)
stops-logged_for r d x xs = elim (Bool-cases (x.src == r)) [
  | inl same ↦
      rw same (weighed-append as_stop (logged_for r d xs) (only (from_rank d x.dest) x.bytes))
  | inr other ↦ rw other (weighed-append as_stop (logged_for r d xs) [])
]

-- The STOPs from the ranks below `m`, where there are none from others.
pub stops-all_for :
    (d m : ℕ) (log : List Sent)
    → ((r : ℕ) → m ≤ r → stops (logged_for r d log) ≡ 0)
    → stops (all_for d log) ≡ below (λ r. stops (logged_for r d log)) m
stops-all_for d m [] strangers = omega (arith, total-eq-zero (λ r. 0) m (λ r. r) (λ j lt. refl))
stops-all_for d m (x ∷ xs) strangers = ground (
  arith,
  weighed-append as_stop (all_for d xs) (only (from_rank d x.dest) x.bytes),
  stops-all_for d m xs (λ r h. omega (arith, stops-logged_for r d x xs, strangers r h)),
  below_ext (λ r. stops (logged_for r d (x ∷ xs)))
      (λ r.
        stops (logged_for r d xs)
        + (if x.src == r then stops (only (from_rank d x.dest) x.bytes) else 0))
      m (λ r. stops-logged_for r d x xs),
  below_add (λ r. stops (logged_for r d xs))
      (λ r. if x.src == r then stops (only (from_rank d x.dest) x.bytes) else 0) m,
  below_one (stops (only (from_rank d x.dest) x.bytes)) x.src m,
  stops-logged_for x.src d x xs,
  strangers x.src,
)

-- Every thread keeps its rank, and no message is sent from a rank that no thread has.
pub record Placed (rank_of : ℕ → ℕ) (m d : ℕ) (s : System) : Type 0 where
  pub ranks : (i : ℕ) → (s.threads i).rank ≡ rank_of i
  pub strangers : (r : ℕ) → m ≤ r → logged_for r d s.sent ≡ []

log_sent-other :
    (r d rank : ℕ) (p : Pc) (log : List Sent)
    → rank < r
    → logged_for r d (log_sent (record { rank = rank; pc = p }) log) ≡ logged_for r d log
log_sent-other r d rank (choosing msg []) log h = refl
log_sent-other r d rank (choosing msg (dest ∷ dests)) log h =
    ground (arith, append-nil (logged_for r d log))
log_sent-other r d rank _ log h = refl

set_pc-Placed :
    {rank_of : ℕ → ℕ} {m d : ℕ} {s : System} (i : ℕ) (w : World) (p : Pc)
    → rank_of i < m
    → Placed rank_of m d s
    → Placed rank_of m d (set_pc s i w p)
set_pc-Placed {d = d} {s = s} i w p lt pl = record {
  ranks = λ j. ground (arith, pl.ranks j);
  strangers = λ r h.
      log_sent-other r d (s.threads i).rank (s.threads i).pc s.sent (omega (arith, pl.ranks i))
      ∙ pl.strangers r h;
}

every_turn :
    (P : World → Pc → Type 0) (o : Outcome Pc Unit) → ((w : World) (p : Pc) → P w p) → Turns P o
every_turn P (next w p) h = h w p
every_turn P (returned w r) h = h w idle
every_turn P blocked h = tt
every_turn P (failed e) h = tt

turn-Placed :
    {rank_of : ℕ → ℕ} {m d : ℕ} {s t : System} (i : ℕ)
    → rank_of i < m
    → Placed rank_of m d s
    → thread_turn i s ≡ some t
    → Placed rank_of m d t
unfolding thread_turn
turn-Placed {rank_of} {m} {d} {s} i lt pl e =
    resume_inv (Placed rank_of m d) s i (thread_step (s.threads i).rank (s.threads i).pc s.world)
      (every_turn (λ w p. Placed rank_of m d (set_pc s i w p))
        (thread_step (s.threads i).rank (s.threads i).pc s.world)
        (λ w p. set_pc-Placed i w p lt pl))
      e

reroute-same :
    (s : System) (o : Outcome RouterPc Unit) {t : System}
    → reroute s o ≡ some t
    → (t.threads ≡ s.threads) × (t.sent ≡ s.sent)
reroute-same s (next w p) h = (cc, cc)
reroute-same s (returned w r) h = (cc, cc)
reroute-same s blocked h = cc
reroute-same s (failed e) h = cc

router_turn-same :
    (s : System) {t : System} → router_turn s ≡ some t → (t.threads ≡ s.threads) × (t.sent ≡ s.sent)
unfolding router_turn
router_turn-same s h = elim (Option-cases s.router) [
  | inl stopped ↦ cc
  | inr (p, e) ↦ reroute-same s (server_loop p s.world) (rw e at h)
]

pub Reach-Placed :
    (n m d : ℕ) (rank_of : ℕ → ℕ) {w : World} {s : System}
    → ((i : ℕ) → i < n → rank_of i < m)
    → Reach n (system_of w rank_of) s
    → Placed rank_of m d s
Reach-Placed n m d rank_of ranks here = record { ranks = λ i. refl; strangers = λ r h. refl }
Reach-Placed n m d rank_of ranks (later {s = s} run (route h)) =
    let pl = Reach-Placed n m d rank_of ranks run in
    let (same, sent) = router_turn-same s h in
    record {
      ranks = λ i. ap (λ f. (f i).rank) same ∙ pl.ranks i;
      strangers = λ r lt. ap (logged_for r d) sent ∙ pl.strangers r lt;
    }
Reach-Placed n m d rank_of ranks (later run (turn i lt h)) =
    turn-Placed i (ranks i lt) (Reach-Placed n m d rank_of ranks run) h
Reach-Placed n m d rank_of ranks (later {s = s} run (begin i c lt e may)) =
    set_pc-Placed i s.world (entry c) (ranks i lt) (Reach-Placed n m d rank_of ranks run)
