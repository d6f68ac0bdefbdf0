-- ===== src/AllToAll/Lengths.antt =====
-- How many messages a sender thread sends.
use rp_maksym_zaveriukha.Base.{
  ℕ, zero, suc, ◌+◌, ◌-◌, ◌*◌, ◌≡◌, ◌<◌, ◌&&◌, ltb, leb, List, length, length-append, if◌then◌else◌,
  arith, ◌∙◌,
}
use rp_maksym_zaveriukha.AllToAll.{sends_from, cycles_from, sender_thread_main, fill_message}

length-sends_from :
    (rank : ℕ) (msg : List ℕ) (dest k : ℕ)
    → length (sends_from rank msg dest k)
      ≡ (if leb dest rank && ltb rank (dest + k) then k - 1 else k)
unfolding sends_from
length-sends_from rank msg dest zero = ground arith
length-sends_from rank msg dest (suc k) = ground (arith, length-sends_from rank msg (dest + 1) k)

length-cycles_from :
    (rank nr_proc size cycle k : ℕ)
    → rank < nr_proc
    → length (cycles_from rank nr_proc size cycle k) ≡ k * (nr_proc - 1)
unfolding cycles_from
length-cycles_from rank nr_proc size cycle zero h = omega arith
length-cycles_from rank nr_proc size cycle (suc k) h =
    length-append (sends_from rank (fill_message size rank cycle) 0 nr_proc)
      (cycles_from rank nr_proc size (cycle + 1) k)
    ∙ omega (
      arith,
      length-sends_from rank (fill_message size rank cycle) 0 nr_proc,
      length-cycles_from rank nr_proc size (cycle + 1) k h,
      one_less,
    )
  where
    one_less : (if leb 0 rank && ltb rank (0 + nr_proc) then nr_proc - 1 else nr_proc) ≡ nr_proc - 1
    one_less = ground (arith, h)

pub length-sender_thread_main :
    (rank nr_proc size repeat : ℕ)
    → rank < nr_proc
    → length (sender_thread_main rank nr_proc size repeat) ≡ repeat * (nr_proc - 1)
unfolding sender_thread_main
length-sender_thread_main rank nr_proc size repeat h =
    length-cycles_from rank nr_proc size 0 repeat h
