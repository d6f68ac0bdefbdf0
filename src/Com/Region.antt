-- ===== src/Com/Region.antt =====
-- create_shared_region and destroy_shared_region of rpBenchmark2/com.c.
use rp_maksym_zaveriukha.Base.{
  ℕ, zero, suc, ◌+◌, List, [], ◌∷◌, Option, none, some, minus_one, if◌then◌else◌,
}
use rp_maksym_zaveriukha.Com.{Name, ServerMailbox, ProcessSlot, SharedState}
use rp_maksym_zaveriukha.Com.Names.{eq_name}

abbrev pub fresh_box : ServerMailbox
fresh_box = record {
  empty = 1;
  full = 0;
  delivered = 0;
  src_rank = minus_one;
  dest_rank = minus_one;
  msg_id = 0;
  size = 0;
  shm_name = [];
}

-- The body of the loop over the slots.
abbrev pub fresh_slot : ProcessSlot
fresh_slot = record {
  pid = minus_one;
  empty = 1;
  full = 0;
  ack_empty = 1;
  ack_full = 0;
  src_rank = minus_one;
  msg_id = 0;
  ack_from_rank = minus_one;
  ack_msg_id = 0;
  pending_acks = 0;
  size = 0;
  capacity = 0;
  prepared_size = 0;
  own_shm_name = [];
  inbox_shm_name = [];
}

unfoldable pub create_shared_region : ℕ → SharedState
create_shared_region nr_proc = record {
  nr_proc = nr_proc;
  server_pid = minus_one;
  finalized_count = 0;
  ready_sem = 0;
  start_sem = 0;
  finalize_lock = 1;
  server_box = fresh_box;
  slots = λ _. fresh_slot;
}

-- The POSIX segments by name, as `World.shm`.
abbrev pub Segments : Type 0
Segments = Name → Option (List ℕ)

abbrev pub shm_unlink : Segments → Name → Segments
shm_unlink shm name n = if eq_name name n then none else shm n

-- One round of the first loop of destroy_shared_region: `none` where shm_unlink finds no segment of
-- that name, and the code stops with an error.
unfoldable pub unlink_slot : ProcessSlot → Segments → Option Segments
unlink_slot slot shm = elim (slot.own_shm_name) [
  | [] ↦ some shm
  | c ∷ cs ↦ elim (shm (c ∷ cs)) [ none ↦ none | some _ ↦ some (shm_unlink shm (c ∷ cs)) ]
]

unfoldable pub unlink_from : ℕ → ℕ → (ℕ → ProcessSlot) → Segments → Option Segments
unlink_from zero i slots shm = some shm
unlink_from (suc k) i slots shm = elim (unlink_slot (slots i) shm) [
  | none ↦ none
  | some shm' ↦ unlink_from k (i + 1) slots shm'
]

-- What is left of the segments. The semaphores and the region itself are gone afterwards.
unfoldable pub destroy_shared_region : SharedState → Segments → Option Segments
unfolding unlink_from unlink_slot
destroy_shared_region g shm = unlink_from g.nr_proc 0 g.slots shm
