-- ===== src/Net/Start/Forked.antt =====
-- The loop of com_initialize that forks the processes: each of them reaches the barrier with a new
-- segment under its own name.
use mathlib.Core.Path.{subst}
use rp_maksym_zaveriukha.Base.{
  ℕ, zero, suc, ◌+◌, ◌<◌, ◌≡◌, ◌≢◌, ◌∙◌, refl, ◌==◌, ◌^◌, true, false, [], some, pos, arith,
  Bool-cases, inl, inr,
}
use rp_maksym_zaveriukha.Com.{World, returned, set_slot}
use rp_maksym_zaveriukha.Com.Names.{own_name, eq_name}
use rp_maksym_zaveriukha.Com.Names.Laws.{
  own_name-injective, own_name-fits, eq_name→eq, eq_name_refl,
}
use rp_maksym_zaveriukha.Com.Region.{shm_unlink, fresh_box}
use rp_maksym_zaveriukha.Com.Segment.{create_process_segment, shm_set}
use rp_maksym_zaveriukha.Com.Initialize.{fresh_process, set_ready, fork_from}

-- The state after com_initialize of `nr_proc` processes.
pub record Initial (nr_proc : ℕ) (w : World) : Type 0 where
  pub count : w.shared.nr_proc ≡ nr_proc
  pub box : w.shared.server_box ≡ fresh_box
  pub lock : w.shared.finalize_lock ≡ 1
  pub none_final : w.shared.finalized_count ≡ 0
  pub slot :
      (r : ℕ)
      → ((w.shared.slots r).empty ≡ 1)
        × ((w.shared.slots r).full ≡ 0)
        × ((w.shared.slots r).ack_full ≡ 0)
        × ((w.shared.slots r).pending_acks ≡ 0)
        × ((w.shared.slots r).capacity ≡ 0)
  pub mailbox :
      (w.shared.server_box.empty ≡ 1)
      × (w.shared.server_box.full ≡ 0)
      × (w.shared.server_box.delivered ≡ 0)
  pub globals :
      (r : ℕ)
      → ((w.procs r).next_msg_id ≡ 1)
        × ((w.procs r).mapped ≡ false)
        × ((w.procs r).mapping_capacity ≡ 0)
        × ((w.procs r).locked ≡ false)
        × ((w.procs r).active ≡ false)
  pub ack : (r : ℕ) → ((w.shared.slots r).ack_empty ≡ 1) × ((w.shared.slots r).prepared_size ≡ 0)
  pub process : (r : ℕ) → w.procs r ≡ fresh_process

-- Every process up to `i` has its own segment, which is empty.
abbrev pub Segmented : ℕ → (ℕ → ℕ) → World → Type 0
Segmented i pids w =
    (r : ℕ)
    → r < i
    → ((w.shared.slots r).own_shm_name ≡ own_name (pids r)) × (w.shm (own_name (pids r)) ≡ some [])

-- Process ids are distinct, and numbers of 63 bits.
pub record Pids (nr_proc : ℕ) (pids : ℕ → ℕ) : Type 0 where
  pub distinct : (a b : ℕ) → a < nr_proc → b < nr_proc → pids a ≡ pids b → a ≡ b
  pub small : (a : ℕ) → a < nr_proc → pids a < 2 ^ 63

module _ {nr_proc : ℕ} {pids : ℕ → ℕ} (ok : Pids nr_proc pids) where
  -- `slots[i].pid = pid` in the parent, and what child `i` does up to the barrier.
  abbrev named : ℕ → World → World
  named i w = set_slot w i (record (w.shared.slots i) { pid = pos (pids i) })

  abbrev forked : ℕ → World → World
  forked i w =
      record (set_slot (named i w) i (record ((named i w).shared.slots i) {
        pid = pos (pids i);
        capacity = 0;
        own_shm_name = own_name (pids i);
      })) { shm = shm_set (shm_unlink w.shm (own_name (pids i))) (own_name (pids i)) [] }

  create_process_segment_lem :
      (i : ℕ) (w : World)
      → i < nr_proc
      → create_process_segment i (pids i) (named i w) ≡ returned (forked i w) tt
  unfolding create_process_segment
  create_process_segment_lem i w h = rw (own_name-fits (pids i) (ok.small i h))

  pub names_differ :
      (a b : ℕ)
      → a < nr_proc
      → b < nr_proc
      → a ≢ b
      → eq_name (own_name (pids a)) (own_name (pids b)) ≡ false
  names_differ a b ha hb ne = elim (Bool-cases (eq_name (own_name (pids a)) (own_name (pids b)))) [
    | inl same ↦ absurd (
        ne (
          ok.distinct a b ha hb (
            own_name-injective (pids a) (pids b)
              (eq_name→eq (own_name (pids a)) (own_name (pids b)) same))))
    | inr other ↦ other
  ]

  forked-Initial :
      (i v : ℕ) (w : World) → Initial nr_proc w → Initial nr_proc (set_ready (forked i w) v)
  forked-Initial i v w h = record {
    count = h.count;
    box = h.box;
    lock = h.lock;
    none_final = h.none_final;
    slot = λ r. ground (arith, h.slot r, h.slot i);
    mailbox = h.mailbox;
    globals = h.globals;
    ack = λ r. ground (arith, h.ack r, h.ack i);
    process = h.process;
  }

  forked-Segmented :
      (i v : ℕ) (w : World)
      → i < nr_proc
      → Segmented i pids w
      → Segmented (i + 1) pids (set_ready (forked i w) v)
  forked-Segmented i v w h seg r lt = elim (Bool-cases (i == r)) [
    | inl same ↦ mine i r v w (eq_of i r same)
    | inr other ↦ ground (arith, names_differ i r h, seg r)
  ]
    where
      eq_of : (a b : ℕ) → (a == b) ≡ true → a ≡ b
      eq_of a b e = ground (arith)

      mine :
          (i r v : ℕ) (w : World)
          → i ≡ r
          → ((set_ready (forked i w) v).shared.slots r).own_shm_name ≡ own_name (pids r)
            × (set_ready (forked i w) v).shm (own_name (pids r)) ≡ some []
      mine i r v w e = ground (arith, eq_name_refl (own_name (pids i)))

  fork_next :
      (k i : ℕ) (w w' : World)
      → create_process_segment i (pids i) (named i w) ≡ returned w' tt
      → fork_from (suc k) i pids w
        ≡ fork_from k (i + 1) pids (set_ready w' (w'.shared.ready_sem + 1))
  unfolding fork_from
  fork_next k i w w' e = rw (fork_from, e) refl

  -- The children from `i` on, `k` of them, have reached the barrier.
  pub record Arrived (k i : ℕ) (w w' : World) : Type 0 where
    pub path : fork_from k i pids w ≡ some w'
    pub initial : Initial nr_proc w'
    pub segmented : Segmented nr_proc pids w'
    pub ready : w'.shared.ready_sem ≡ w.shared.ready_sem + k
    pub start : w'.shared.start_sem ≡ w.shared.start_sem

  fork_one :
      (k i : ℕ) (w w' : World)
      → i < nr_proc
      → Arrived k (i + 1) (set_ready (forked i w) (w.shared.ready_sem + 1)) w'
      → Arrived (suc k) i w w'
  fork_one k i w w' h a = record {
    path = fork_next k i w (forked i w) (create_process_segment_lem i w h) ∙ a.path;
    initial = a.initial;
    segmented = a.segmented;
    ready = omega (arith, a.ready);
    start = a.start;
  }

  pub fork_from_lem :
      (k i : ℕ) (w : World)
      → i + k ≡ nr_proc
      → Initial nr_proc w
      → Segmented i pids w
      → (w' : World) × Arrived k i w w'
  unfolding fork_from
  fork_from_lem zero i w e h seg = (
    w,
    record {
      path = refl;
      initial = h;
      segmented = subst (λ n. Segmented n pids w) (omega arith) seg;
      ready = omega arith;
      start = refl;
    },
  )
  fork_from_lem (suc k) i w e h seg = extend (
      fork_from_lem k (i + 1) (set_ready (forked i w) (w.shared.ready_sem + 1)) (omega arith)
        (forked-Initial i (w.shared.ready_sem + 1) w h)
        (forked-Segmented i (w.shared.ready_sem + 1) w (omega arith) seg))
    where
      extend :
          (w' : World) × Arrived k (i + 1) (set_ready (forked i w) (w.shared.ready_sem + 1)) w'
          → (w' : World) × Arrived (suc k) i w w'
      extend (w', a) = (w', fork_one k i w w' (omega arith) a)
