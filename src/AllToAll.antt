-- ===== src/AllToAll.antt =====
-- The all-to-all benchmark, rpBenchmark1/main.c: the test pattern, the sender's and the receiver's
-- loops.
pub mod Balance
pub mod Lengths
use rp_maksym_zaveriukha.Base.{
  ℕ, zero, suc, ◌+◌, ◌-◌, ◌*◌, ◌%◌, ◌^◌, ◌==◌, ltb, not, List, [], ◌∷◌, ◌++◌, Option, none, some,
  if◌then◌else◌,
}

-- fill_message from index `i` on, `k` bytes left; `(size_t)cycle` wraps with the sum.
unfoldable pub fill_from : (base cycle i k : ℕ) → List ℕ
fill_from base cycle i zero = []
fill_from base cycle i (suc k) =
    (base + (i + cycle) % 2 ^ 64 % 26) % 256 ∷ fill_from base cycle (i + 1) k

unfoldable pub fill_message : (size rank cycle : ℕ) → List ℕ
unfolding fill_from
fill_message size rank cycle = fill_from ((65 + rank % 26) % 256) cycle 0 size

-- One com_send: the destination and the message.
abbrev pub Send : Type 0
Send = ℕ × List ℕ

-- The loop over the destinations, from `dest` on, `k` left.
unfoldable pub sends_from : (rank : ℕ) → List ℕ → (dest k : ℕ) → List Send
sends_from rank msg dest zero = []
sends_from rank msg dest (suc k) =
    let rest = sends_from rank msg (dest + 1) k in if dest == rank then rest else (dest, msg) ∷ rest

-- The loop over the cycles, from `cycle` on, `k` left.
unfoldable pub cycles_from : (rank nr_proc msg_size cycle k : ℕ) → List Send
cycles_from rank nr_proc msg_size cycle zero = []
cycles_from rank nr_proc msg_size cycle (suc k) =
    sends_from rank (fill_message msg_size rank cycle) 0 nr_proc
    ++ cycles_from rank nr_proc msg_size (cycle + 1) k

-- The calls of com_send of one sender thread, in order.
unfoldable pub sender_thread_main : (rank nr_proc msg_size repeat : ℕ) → List Send
unfolding cycles_from sends_from
sender_thread_main rank nr_proc msg_size repeat = cycles_from rank nr_proc msg_size 0 repeat

-- How the receiver ends: with this many receives still missing when no more messages come, by the exit
-- for a message of another size, or with a product that overflows.
pub data Reception : Type 0 where
  missing : ℕ → Reception
  wrong_size overflows : Reception

-- The receiver's loop over the sizes that com_recv returns, `k` receives left.
unfoldable pub receive_from : (msg_size k : ℕ) → List ℕ → Reception
receive_from msg_size zero sizes = missing 0
receive_from msg_size (suc k) [] = missing (suc k)
receive_from msg_size (suc k) (sz ∷ sizes) =
    let rest = receive_from msg_size k sizes in if not (sz == msg_size) then wrong_size else rest

-- A product of `long`s; `none` where it overflows, which C leaves undefined.
abbrev pub total_receives : (repeat nr_proc : ℕ) → Option ℕ
total_receives repeat nr_proc =
    if ltb (repeat * (nr_proc - 1)) (2 ^ 63) then some (repeat * (nr_proc - 1)) else none

abbrev pub receive_all : ℕ → List ℕ → Option ℕ → Reception
receive_all msg_size sizes none = overflows
receive_all msg_size sizes (some k) = receive_from msg_size k sizes

unfoldable pub receiver_thread_main : (nr_proc msg_size repeat : ℕ) → List ℕ → Reception
unfolding receive_from
receiver_thread_main nr_proc msg_size repeat sizes =
    receive_all msg_size sizes (total_receives repeat nr_proc)
