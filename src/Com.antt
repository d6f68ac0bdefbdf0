-- ===== src/Com.antt =====
-- The data of the communication layer (rpBenchmark2/com.c, and the same types in
-- rpBenchmark1/com.c): the shared region, the globals of one process, the shared-memory segments,
-- and what one atomic step of a function may do.
pub mod Names
pub mod Region
pub mod Segment
pub mod Buffer
pub mod Send
pub mod Recv
pub mod Router
pub mod Finalize
pub mod Initialize
use rp_maksym_zaveriukha.Base.{ℕ, Bool, List, Option, ℤ, update}

-- A segment's name: the bytes before the terminating NUL.
abbrev pub Name : Type 0
Name = List ℕ

-- COM_SHM_NAME_LEN
abbrev pub com_shm_name_len : ℕ
com_shm_name_len = 128

-- A `sem_t` is its value. An `int` that holds a rank is a `ℤ`; a `msg_id` is the 32-bit pattern of
-- the `int`.
pub record ServerMailbox : Type 0 where
  pub empty : ℕ
  pub full : ℕ
  pub delivered : ℕ
  pub src_rank : ℤ
  pub dest_rank : ℤ
  pub msg_id : ℕ
  pub size : ℕ
  pub shm_name : Name

pub record ProcessSlot : Type 0 where
  pub pid : ℤ
  pub empty : ℕ
  pub full : ℕ
  pub ack_empty : ℕ
  pub ack_full : ℕ
  pub src_rank : ℤ
  pub msg_id : ℕ
  pub ack_from_rank : ℤ
  pub ack_msg_id : ℕ
  pub pending_acks : ℕ
  pub size : ℕ
  pub capacity : ℕ
  pub prepared_size : ℕ
  pub own_shm_name : Name
  pub inbox_shm_name : Name

-- `slots` has `nr_proc` members; an index from `nr_proc` on lies outside the region.
pub record SharedState : Type 0 where
  pub nr_proc : ℕ
  pub server_pid : ℤ
  pub finalized_count : ℕ
  pub ready_sem : ℕ
  pub start_sem : ℕ
  pub finalize_lock : ℕ
  pub server_box : ServerMailbox
  pub slots : ℕ → ProcessSlot

-- The static variables of one user process. `locked` is the state of `g_send_buffer_lock`, `mapped`
-- tells that `g_send_mapping` is not NULL, and `attached` that `g_shared` is not NULL.
pub record Process : Type 0 where
  pub next_msg_id : ℕ
  pub mapped : Bool
  pub mapping_capacity : ℕ
  pub locked : Bool
  pub active : Bool
  pub attached : Bool

-- All that the processes share, the globals of each, and the POSIX segments by name.
pub record World : Type 0 where
  pub shared : SharedState
  pub procs : ℕ → Process
  pub shm : Name → Option (List ℕ)

-- Where the code prints a message and leaves by `exit(1)`. `out_of_bounds` marks an access outside
-- an array, which C leaves undefined.
pub data Failure : Type 0 where
  invalid_rank size_mismatch already_active not_active no_segment name_too_long : Failure
  out_of_bounds : Failure

-- One atomic step of a function with program points `P` and result `R`: it goes on, returns, waits
-- for a semaphore or a mutex, or ends the process.
pub data Outcome (P R : Type 0) : Type 0 where
  next : World → P → Outcome P R
  returned : World → R → Outcome P R
  blocked : Outcome P R
  failed : Failure → Outcome P R

-- A call of another function: its steps, under a name of the caller's program points, then the
-- caller's next point.
abbrev pub call : {P Q R S : Type 0} → (P → Q) → (R → Q) → Outcome P R → Outcome Q S
call within then_at (next w p) = next w (within p)
call within then_at (returned w r) = next w (then_at r)
call within then_at blocked = blocked
call within then_at (failed e) = failed e

-- What holds of the state and the program point after a step, if the step goes on or returns.
abbrev pub Ensures {ℓ} :
    {P R : Type 0} → (World → P → Type ℓ) → (World → R → Type ℓ) → Outcome P R → Type ℓ
Ensures goes ends (next w p) = goes w p
Ensures goes ends (returned w r) = ends w r
Ensures goes ends blocked = Unit
Ensures goes ends (failed e) = Unit

abbrev pub set_box : World → ServerMailbox → World
set_box w b = record w { shared = record (w.shared) { server_box = b } }

abbrev pub set_slot : World → ℕ → ProcessSlot → World
set_slot w r s = record w { shared = record (w.shared) { slots = update w.shared.slots r s } }

abbrev pub set_proc : World → ℕ → Process → World
set_proc w r p = record w { procs = update w.procs r p }
