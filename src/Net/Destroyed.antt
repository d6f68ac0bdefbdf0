-- ===== src/Net/Destroyed.antt =====
-- What destroy_shared_region does to the segments of the processes.
use rp_maksym_zaveriukha.Base.{
  ℕ, zero, suc, ◌+◌, ◌≤◌, ◌<◌, ◌≡◌, ◌∙◌, refl, ◌==◌, false, List, none, some, arith, Bool-cases,
  inl, inr,
}
use rp_maksym_zaveriukha.Com.{Name, ProcessSlot, SharedState}
use rp_maksym_zaveriukha.Com.Names.{own_name, eq_name}
use rp_maksym_zaveriukha.Com.Names.Laws.{eq_name_refl}
use rp_maksym_zaveriukha.Com.Region.{
  Segments, shm_unlink, unlink_slot, unlink_from, destroy_shared_region,
}
use rp_maksym_zaveriukha.Net.Start.Forked.{Pids, names_differ}

-- The segments after the loop from slot `i` on: those of the processes from `i` on are gone, all
-- other names are as before.
pub record Gone (nr_proc i : ℕ) (pids : ℕ → ℕ) (shm shm' : Segments) : Type 0 where
  pub removed : (r : ℕ) → i ≤ r → r < nr_proc → shm' (own_name (pids r)) ≡ none
  pub kept :
      (name : Name)
      → ((r : ℕ) → i ≤ r → r < nr_proc → eq_name (own_name (pids r)) name ≡ false)
      → shm' name ≡ shm name

-- Slot `r` names the segment of its process, which is there.
pub record Named (pids : ℕ → ℕ) (slots : ℕ → ProcessSlot) (shm : Segments) (r : ℕ) : Type 0 where
  pub name : (slots r).own_shm_name ≡ own_name (pids r)
  pub bytes : List ℕ
  pub there : shm (own_name (pids r)) ≡ some bytes

unlink_slot_lem :
    (pids : ℕ → ℕ) (slots : ℕ → ProcessSlot) (shm : Segments) (r : ℕ)
    → Named pids slots shm r
    → unlink_slot (slots r) shm ≡ some (shm_unlink shm (own_name (pids r)))
unfolding unlink_slot own_name
unlink_slot_lem pids slots shm r h = rw (h.name, h.there) refl

unlink_next :
    (k i : ℕ) (slots : ℕ → ProcessSlot) (shm shm' : Segments)
    → unlink_slot (slots i) shm ≡ some shm'
    → unlink_from (suc k) i slots shm ≡ unlink_from k (i + 1) slots shm'
unfolding unlink_from
unlink_next k i slots shm shm' e = rw (unlink_from, e) refl

module _ {nr_proc : ℕ} {pids : ℕ → ℕ} (ok : Pids nr_proc pids) (slots : ℕ → ProcessSlot) where
  still_Named :
      (i r : ℕ) (shm : Segments)
      → i < r
      → r < nr_proc
      → Named pids slots shm r
      → Named pids slots (shm_unlink shm (own_name (pids i))) r
  still_Named i r shm lt h n = record {
    name = n.name;
    bytes = n.bytes;
    there = rw (names_differ ok i r (omega arith) h (omega arith)) (n.there);
  }

  Gone-suc :
      (i : ℕ) (shm shm' : Segments)
      → i < nr_proc
      → Gone nr_proc (i + 1) pids (shm_unlink shm (own_name (pids i))) shm'
      → Gone nr_proc i pids shm shm'
  Gone-suc i shm shm' lt g = record {
    removed = λ r le h. elim (Bool-cases (i == r)) [
      | inl same ↦ mine r (ground arith)
      | inr other ↦ g.removed r (ground arith) h
    ];
    kept = λ name differ.
        g.kept name (λ r le h. differ r (omega arith) h)
        ∙ unlinked name (differ i (omega arith) lt);
  }
    where
      mine : (r : ℕ) → i ≡ r → shm' (own_name (pids r)) ≡ none
      mine r e = rw (← e) (
          g.kept (own_name (pids i)) (λ q le h. names_differ ok q i h lt (omega arith))
          ∙ rw (eq_name_refl (own_name (pids i))) refl)

      unlinked :
          (name : Name)
          → eq_name (own_name (pids i)) name ≡ false
          → shm_unlink shm (own_name (pids i)) name ≡ shm name
      unlinked name e = rw e refl

  unlink_from_lem :
      (k i : ℕ) (shm : Segments)
      → i + k ≡ nr_proc
      → ((r : ℕ) → i ≤ r → r < nr_proc → Named pids slots shm r)
      → (shm' : Segments) × (unlink_from k i slots shm ≡ some shm') × Gone nr_proc i pids shm shm'
  unfolding unlink_from
  unlink_from_lem zero i shm e named =
      (shm, refl, record { removed = λ r le h. absurd (omega arith); kept = λ name differ. refl })
  unlink_from_lem (suc k) i shm e named = step (
      unlink_from_lem k (i + 1) (shm_unlink shm (own_name (pids i))) (omega arith)
        (λ r le h. still_Named i r shm (omega arith) h (named r (omega arith) h)))
    where
      step :
          (shm' : Segments) × (unlink_from k (i + 1) slots (shm_unlink shm (own_name (pids i)))
              ≡ some shm')
            × Gone nr_proc (i + 1) pids (shm_unlink shm (own_name (pids i))) shm'
          → (shm' : Segments) × (unlink_from (suc k) i slots shm ≡ some shm')
            × Gone nr_proc i pids shm shm'
      step (shm', path, g) = (
        shm',
        unlink_next k i slots shm (shm_unlink shm (own_name (pids i)))
              (unlink_slot_lem pids slots shm i (named i (omega arith) (omega arith)))
            ∙ path,
        Gone-suc i shm shm' (omega arith) g,
      )

-- If the process ids are distinct and at most 63 bits long and each slot names the segment of its
-- process, which exists, destroy_shared_region succeeds; afterwards the segments of all processes
-- are gone, and a segment of any other name is as before.
pub destroy_shared_region_lem :
    (nr_proc : ℕ) (pids : ℕ → ℕ) (g : SharedState) (shm : Segments) (name : Name)
    → Pids nr_proc pids
    → g.nr_proc ≡ nr_proc
    → ((r : ℕ) → r < nr_proc → Named pids g.slots shm r)
    → ((r : ℕ) → r < nr_proc → eq_name (own_name (pids r)) name ≡ false)
    → (shm' : Segments) × (destroy_shared_region g shm ≡ some shm')
      × ((r : ℕ) → r < nr_proc → shm' (own_name (pids r)) ≡ none)
      × (shm' name ≡ shm name)
unfolding destroy_shared_region
destroy_shared_region_lem nr_proc pids g shm name ok e named differ =
    rw e (result (unlink_from_lem ok g.slots nr_proc 0 shm (omega arith) (λ r le h. named r h)))
  where
    result :
        (shm' : Segments) × (unlink_from nr_proc 0 g.slots shm ≡ some shm')
          × Gone nr_proc 0 pids shm shm'
        → (shm' : Segments) × (unlink_from nr_proc 0 g.slots shm ≡ some shm')
          × ((r : ℕ) → r < nr_proc → shm' (own_name (pids r)) ≡ none)
          × (shm' name ≡ shm name)
    result (shm', path, gone) =
        (shm', path, λ r h. gone.removed r (omega arith) h, gone.kept name (λ r le h. differ r h))
