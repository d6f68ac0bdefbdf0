-- ===== src/AllToAll/Balance.antt =====
-- What all senders together send to one process is what its receiver waits for.
use mathlib.Core.List.{append-nil}
use rp_maksym_zaveriukha.Base.{
  ℕ, zero, suc, ◌+◌, ◌-◌, ◌*◌, ◌%◌, ◌^◌, ◌<◌, ◌≡◌, ◌≢◌, ◌∙◌, refl, ap, ◌==◌, ltb, List, [], ◌∷◌,
  ◌++◌, some, arith, length, replicate, get_or, if◌then◌else◌, Bool-cases, inl, inr, ==_refl,
}
use rp_maksym_zaveriukha.AllToAll.{
  fill_from, fill_message, Send, sends_from, cycles_from, sender_thread_main, receive_from,
  total_receives, receiver_thread_main, missing, receive_all,
}

-- The messages of a list that go to process `d`, and their sizes.
abbrev pub sizes_to : ℕ → List Send → List ℕ
sizes_to d [] = []
sizes_to d ((dest, msg) ∷ sends) =
    if dest == d then length msg ∷ sizes_to d sends else sizes_to d sends

sizes_to-append :
    (d : ℕ) (xs ys : List Send) → sizes_to d (xs ++ ys) ≡ sizes_to d xs ++ sizes_to d ys
sizes_to-append d [] ys = refl
sizes_to-append d ((dest, msg) ∷ xs) ys = ground (arith, sizes_to-append d xs ys)

length-fill_from : (base cycle i k : ℕ) → length (fill_from base cycle i k) ≡ k
unfolding fill_from
length-fill_from base cycle i zero = refl
length-fill_from base cycle i (suc k) = ap suc (length-fill_from base cycle (i + 1) k)

length-fill_message : (size rank cycle : ℕ) → length (fill_message size rank cycle) ≡ size
unfolding fill_message
length-fill_message size rank cycle = length-fill_from ((65 + rank % 26) % 256) cycle 0 size

-- One cycle of one sender reaches each other process once.
sizes_to-sends_from :
    (d rank : ℕ) (msg : List ℕ) (dest k : ℕ)
    → sizes_to d (sends_from rank msg dest k) ≡ (
        if d == rank
        then []
        else if ltb d dest
        then []
        else if ltb d (dest + k)
        then length msg ∷ []
        else [])
unfolding sends_from
sizes_to-sends_from d rank msg dest zero = ground arith
sizes_to-sends_from d rank msg dest (suc k) =
    ground (arith, sizes_to-sends_from d rank msg (dest + 1) k)

one_cycle :
    (d rank nr_proc size cycle : ℕ)
    → d < nr_proc
    → d ≢ rank
    → sizes_to d (sends_from rank (fill_message size rank cycle) 0 nr_proc) ≡ size ∷ []
one_cycle d rank nr_proc size cycle h ne = ground (
  arith,
  sizes_to-sends_from d rank (fill_message size rank cycle) 0 nr_proc,
  length-fill_message size rank cycle,
)

own_cycle :
    (d nr_proc size cycle : ℕ)
    → sizes_to d (sends_from d (fill_message size d cycle) 0 nr_proc) ≡ []
own_cycle d nr_proc size cycle =
    ground (arith, sizes_to-sends_from d d (fill_message size d cycle) 0 nr_proc)

from_other :
    (d rank nr_proc size cycle k : ℕ)
    → d < nr_proc
    → d ≢ rank
    → sizes_to d (cycles_from rank nr_proc size cycle k) ≡ replicate k size
unfolding cycles_from
from_other d rank nr_proc size cycle zero h ne = refl
from_other d rank nr_proc size cycle (suc k) h ne =
    sizes_to-append d (sends_from rank (fill_message size rank cycle) 0 nr_proc)
      (cycles_from rank nr_proc size (cycle + 1) k)
    ∙ rw (
      one_cycle d rank nr_proc size cycle h ne,
      from_other d rank nr_proc size (cycle + 1) k h ne,
    )

from_self : (d nr_proc size cycle k : ℕ) → sizes_to d (cycles_from d nr_proc size cycle k) ≡ []
unfolding cycles_from
from_self d nr_proc size cycle zero = refl
from_self d nr_proc size cycle (suc k) =
    sizes_to-append d (sends_from d (fill_message size d cycle) 0 nr_proc)
      (cycles_from d nr_proc size (cycle + 1) k)
    ∙ rw (own_cycle d nr_proc size cycle, from_self d nr_proc size (cycle + 1) k)

-- All that the senders of ranks below `r` send to `d`.
pub sent_by_below : (d nr_proc size repeat r : ℕ) → List ℕ
sent_by_below d nr_proc size repeat zero = []
sent_by_below d nr_proc size repeat (suc r) =
    sent_by_below d nr_proc size repeat r ++ sizes_to d (sender_thread_main r nr_proc size repeat)

replicate_eq : (a : ℕ) {m n : ℕ} → m ≡ n → replicate m a ≡ replicate n a
replicate_eq a e = ap (λ k. replicate k a) e

replicate-append : (m n a : ℕ) → replicate m a ++ replicate n a ≡ replicate (m + n) a
replicate-append zero n a = replicate_eq a (omega arith)
replicate-append (suc m) n a =
    ap (λ l. a ∷ l) (replicate-append m n a)
    ∙ replicate_eq a {m = suc (m + n)} {n = suc m + n} (omega arith)

-- The ranks below `r` other than `d`.
others_below : ℕ → ℕ → ℕ
others_below d zero = 0
others_below d (suc r) = if d == r then others_below d r else others_below d r + 1

others_below_lem : (d r : ℕ) → others_below d r ≡ (if ltb d r then r - 1 else r)
unfolding others_below
others_below_lem d zero = ground arith
others_below_lem d (suc r) = ground (arith, others_below_lem d r)

sent_by_below_lem :
    (d nr_proc size repeat r : ℕ)
    → d < nr_proc
    → sent_by_below d nr_proc size repeat r ≡ replicate (repeat * others_below d r) size
unfolding sent_by_below sender_thread_main others_below
sent_by_below_lem d nr_proc size repeat zero h =
    replicate_eq size {m = 0} {n = repeat * 0} (omega arith)
sent_by_below_lem d nr_proc size repeat (suc r) h = elim (Bool-cases (d == r)) [
  | inl same ↦
      rw (same, sent_by_below_lem d nr_proc size repeat r h)
        (let e : d ≡ r = ground arith in rw (← e, from_self d nr_proc size 0 repeat, append-nil))
  | inr other ↦
      rw
        (
          other,
          sent_by_below_lem d nr_proc size repeat r h,
          from_other d r nr_proc size 0 repeat h (ground arith),
        )
        (replicate-append (repeat * others_below d r) repeat size
          ∙ replicate_eq size {m = repeat * others_below d r + repeat}
              {n = repeat * (others_below d r + 1)} (omega arith))
]

receive_from-replicate : (size k : ℕ) → receive_from size k (replicate k size) ≡ missing 0
unfolding receive_from
receive_from-replicate size zero = refl
receive_from-replicate size (suc k) = rw (==_refl size, receive_from-replicate size k)

-- Where repeat * (nr_proc - 1) is below 2^63, so that the receiver's product does not overflow: the
-- senders of all processes together send to each process exactly that many messages, each of the
-- configured size, and on them the receiver's loop ends with no receive left and no size error.
pub all_received :
    (d nr_proc size repeat : ℕ)
    → d < nr_proc
    → repeat * (nr_proc - 1) < 2 ^ 63
    → (sent_by_below d nr_proc size repeat nr_proc ≡ replicate (repeat * (nr_proc - 1)) size)
      × (receiver_thread_main nr_proc size repeat (sent_by_below d nr_proc size repeat nr_proc)
          ≡ missing 0)
unfolding receiver_thread_main
all_received d nr_proc size repeat h small = (
  counted,
  ap (receive_all size (sent_by_below d nr_proc size repeat nr_proc)) no_overflow
      ∙ ap (receive_from size (repeat * (nr_proc - 1))) counted
      ∙ receive_from-replicate size (repeat * (nr_proc - 1)),
)
  where
    counted : sent_by_below d nr_proc size repeat nr_proc ≡ replicate (repeat * (nr_proc - 1)) size
    counted =
        sent_by_below_lem d nr_proc size repeat nr_proc h
        ∙ replicate_eq size (ap (λ k. repeat * k) (ground (arith, others_below_lem d nr_proc)))

    no_overflow : total_receives repeat nr_proc ≡ some (repeat * (nr_proc - 1))
    no_overflow = ground arith

get_or-fill_from :
    (base cycle i k j : ℕ)
    → j < k
    → get_or (fill_from base cycle i k) j 0 ≡ (base + (i + j + cycle) % 2 ^ 64 % 26) % 256
unfolding fill_from
get_or-fill_from base cycle i zero j h = absurd (omega arith)
get_or-fill_from base cycle i (suc k) zero h = omega arith
get_or-fill_from base cycle i (suc k) (suc j) h =
    get_or-fill_from base cycle (i + 1) k j (omega arith) ∙ omega arith

-- Byte j of the test pattern of a cycle is 65 plus the rank modulo 26 plus j + cycle modulo 26, for
-- j below the size and j + cycle below 2^64.
pub fill_message_pattern :
    (size rank cycle j : ℕ)
    → j < size
    → j + cycle < 2 ^ 64
    → get_or (fill_message size rank cycle) j 0 ≡ 65 + rank % 26 + (j + cycle) % 26
unfolding fill_message
fill_message_pattern size rank cycle j h small =
    get_or-fill_from ((65 + rank % 26) % 256) cycle 0 size j h ∙ omega arith
