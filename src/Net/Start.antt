-- ===== src/Net/Start.antt =====
-- The state in which the user processes leave com_initialize, and that it satisfies what the
-- invariants ask of a start.
pub mod Forked
use mathlib.Core.Path.{subst}
use rp_maksym_zaveriukha.Base.{
  ℕ, zero, suc, ◌+◌, ◌-◌, ◌<◌, ◌≡◌, ◌∙◌, sym, refl, ap, List, [], Option, some, pos, arith,
  total-eq-zero,
}
use rp_maksym_zaveriukha.Com.{Name, World}
use rp_maksym_zaveriukha.Com.Region.{Segments, create_shared_region}
use rp_maksym_zaveriukha.Com.Segment.{cleanup_old_segments_with_prefix}
use rp_maksym_zaveriukha.Com.Initialize.{
  fresh_process, set_ready, set_start, fork_from, wait_ready, post_start, pass_start,
  com_initialize,
}
use rp_maksym_zaveriukha.Com.Router.{RouterPc}
use rp_maksym_zaveriukha.Net.Thread.{idle, Thread}
use rp_maksym_zaveriukha.Net.System.{System}
use rp_maksym_zaveriukha.Net.Tokens.{Tokens}
use rp_maksym_zaveriukha.Net.Weights.{fills, awaits, counts, reads, owns}
use rp_maksym_zaveriukha.Net.Start.Forked.{Initial, Segmented, Pids, Arrived, fork_from_lem}

wait_ready_lem :
    (k m : ℕ) (w : World) → w.shared.ready_sem ≡ m + k → wait_ready k w ≡ some (set_ready w m)
unfolding wait_ready
wait_ready_lem zero m w e = ap (λ v. some (set_ready w v)) (omega (arith, e))
wait_ready_lem (suc k) m w e =
    ground (arith, wait_ready_lem k m (set_ready w (w.shared.ready_sem - 1)) (omega (arith, e)))

post_start_lem : (k : ℕ) (w : World) → post_start k w ≡ set_start w (w.shared.start_sem + k)
unfolding post_start
post_start_lem zero w = ap (λ v. set_start w v) (omega arith)
post_start_lem (suc k) w =
    post_start_lem k (set_start w (w.shared.start_sem + 1)) ∙ ap (λ v. set_start w v) (omega arith)

pass_start_lem :
    (k m : ℕ) (w : World) → w.shared.start_sem ≡ m + k → pass_start k w ≡ some (set_start w m)
unfolding pass_start
pass_start_lem zero m w e = ap (λ v. some (set_start w v)) (omega (arith, e))
pass_start_lem (suc k) m w e =
    ground (arith, pass_start_lem k m (set_start w (w.shared.start_sem - 1)) (omega (arith, e)))

-- The world after com_initialize.
pub record Started (nr_proc : ℕ) (pids : ℕ → ℕ) (w : World) : Type 0 where
  pub initial : Initial nr_proc w
  pub segmented : Segmented nr_proc pids w
  pub nobody_ready : w.shared.ready_sem ≡ 0
  pub all_started : w.shared.start_sem ≡ 0

barrier_lem :
    (n : ℕ) (w : World)
    → w.shared.start_sem ≡ 0
    → pass_start n (post_start n (set_ready w 0)) ≡ some (set_start (set_ready w 0) 0)
barrier_lem n w e =
    rw (post_start_lem n (set_ready w 0))
      (pass_start_lem n 0 (set_start (set_ready w 0) (w.shared.start_sem + n)) (omega (arith, e)))

-- The parent's state before the first fork.
abbrev before : ℕ → ℕ → Option (List Name) → Segments → World
before nr_proc router_pid entries shm = record {
  shared = record (create_shared_region nr_proc) { server_pid = pos router_pid };
  procs = λ _. fresh_process;
  shm = cleanup_old_segments_with_prefix entries shm;
}

before-Initial :
    (nr_proc router_pid : ℕ) (entries : Option (List Name)) (shm : Segments)
    → Initial nr_proc (before nr_proc router_pid entries shm)
unfolding create_shared_region
before-Initial nr_proc router_pid entries shm = record {
  count = refl;
  box = refl;
  lock = refl;
  none_final = refl;
  slot = λ r. (refl, refl, refl, refl, refl);
  mailbox = (refl, refl, refl);
  globals = λ r. (refl, refl, refl, refl, refl);
  ack = λ r. (refl, refl);
  process = λ r. refl;
}

com_initialize_path :
    (nr_proc router_pid : ℕ) (pids : ℕ → ℕ) (entries : Option (List Name)) (shm : Segments)
    (w : World)
    → fork_from nr_proc 0 pids (before nr_proc router_pid entries shm) ≡ some w
    → w.shared.ready_sem ≡ nr_proc
    → w.shared.start_sem ≡ 0
    → com_initialize nr_proc router_pid pids entries shm ≡ some (set_start (set_ready w 0) 0)
unfolding com_initialize
com_initialize_path nr_proc router_pid pids entries shm w e f g =
    rw (com_initialize, e, wait_ready_lem nr_proc 0 w (omega (arith, f))) (barrier_lem nr_proc w g)

-- com_initialize succeeds for distinct process ids below 2^63, whatever segments were there before:
-- it returns a world in which the semaphores of the mailbox, of all slots and of com_finalize, the
-- finalize counter, the slots' pending acknowledgements, capacities and prepared sizes, and the id
-- counter, mapping and buffer lock of each process have their initial values, each process has an
-- empty segment under its own name, and both barrier semaphores are back at 0.
pub com_initialize_lem :
    (nr_proc router_pid : ℕ) (pids : ℕ → ℕ) (entries : Option (List Name)) (shm : Segments)
    → Pids nr_proc pids
    → (w : World) × (com_initialize nr_proc router_pid pids entries shm ≡ some w)
      × Started nr_proc pids w
unfolding create_shared_region
com_initialize_lem nr_proc router_pid pids entries shm ok = finish (
    fork_from_lem ok nr_proc 0 (before nr_proc router_pid entries shm) (omega arith)
      (before-Initial nr_proc router_pid entries shm) (λ r lt. absurd (omega arith)))
  where
    finish :
        (w : World) × Arrived ok nr_proc 0 (before nr_proc router_pid entries shm) w
        → (w : World) × (com_initialize nr_proc router_pid pids entries shm ≡ some w)
          × Started nr_proc pids w
    finish (w, a) = (
      set_start (set_ready w 0) 0,
      com_initialize_path nr_proc router_pid pids entries shm w a.path (omega (arith, a.ready))
          (a.start),
      record {
        initial = record {
          count = a.initial.count;
          box = a.initial.box;
          lock = a.initial.lock;
          none_final = a.initial.none_final;
          slot = a.initial.slot;
          mailbox = a.initial.mailbox;
          globals = a.initial.globals;
          ack = a.initial.ack;
          process = a.initial.process;
        };
        segmented = a.segmented;
        nobody_ready = refl;
        all_started = refl;
      },
    )

-- The same of the world that com_initialize is known to give.
pub com_initialize-Started :
    (nr_proc router_pid : ℕ) (pids : ℕ → ℕ) (entries : Option (List Name)) (shm : Segments)
    {w : World}
    → Pids nr_proc pids
    → com_initialize nr_proc router_pid pids entries shm ≡ some w
    → Started nr_proc pids w
com_initialize-Started nr_proc router_pid pids entries shm {w} ok e =
    given (com_initialize_lem nr_proc router_pid pids entries shm ok)
  where
    path : (w' : World) → com_initialize nr_proc router_pid pids entries shm ≡ some w' → w' ≡ w
    path w' f = cc

    given :
        (w' : World) × (com_initialize nr_proc router_pid pids entries shm ≡ some w')
          × Started nr_proc pids w'
        → Started nr_proc pids w
    given (w', f, h) = subst (Started nr_proc pids) (path w' f) h

-- The system of `nr_proc` processes whose threads have the given ranks.
abbrev pub system_of : World → (ℕ → ℕ) → System
system_of w rank_of = record {
  sent = [];
  got = [];
  world = w;
  router = some RouterPc.wait_full;
  threads = λ i. record { rank = rank_of i; pc = idle };
}

pub Started-Tokens :
    {nr_proc : ℕ} {pids : ℕ → ℕ} {w : World} (n : ℕ) (rank_of : ℕ → ℕ)
    → Started nr_proc pids w
    → ((i : ℕ) → i < n → rank_of i < nr_proc)
    → Tokens n (system_of w rank_of)
Started-Tokens {nr_proc} {pids} {w} n rank_of h lt = record {
  ranks = λ i l. omega (arith, h.initial.count, lt i l);
  box =
      rw (h.initial.box) (omega (arith, total-eq-zero (λ t. fills t.pc) n (threads) (λ i l. refl)));
  requests =
      rw (h.initial.box)
        (omega (arith, total-eq-zero (λ t. awaits t.pc) n (threads) (λ i l. refl)));
  finalize_lock =
      omega (arith, h.initial.lock, total-eq-zero (λ t. counts t.pc) n (threads) (λ i l. refl));
  inbox = λ d. omega (arith, h.initial.slot d, total-eq-zero (reads d) n (threads) (λ i l. refl));
  owner = λ r. rw (h.initial.process r) (sym (total-eq-zero (owns r) n (threads) (λ i l. refl)));
  flag = λ r. rw (h.initial.process r) (sym (total-eq-zero (owns r) n (threads) (λ i l. refl)));
  alone = λ i j hi hj ne e f. cc;
}
  where
    threads : ℕ → Thread
    threads i = record { rank = rank_of i; pc = idle }
