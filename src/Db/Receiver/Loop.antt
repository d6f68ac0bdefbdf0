-- ===== src/Db/Receiver/Loop.antt =====
-- When the receiver's loop ends.
use mathlib.Core.Path.{subst}
use rp_maksym_zaveriukha.Base.{
  ℕ, suc, ◌+◌, ◌-◌, ◌≡◌, ◌&&◌, ◌||◌, Bool, true, false, List, [], ◌∷◌, ◌++◌, arith, refl, ap, sym,
  ◌∙◌, Bool-cases, inl, inr, if◌then◌else◌,
}
use rp_maksym_zaveriukha.Db.Receiver.{
  Verdict, Fault, exits, waits, to_handler, to_compute, stop, local_done, fault, closes, is_over,
  receiver_loop,
}

abbrev pub stops_in : List Verdict → ℕ
stops_in [] = 0
stops_in (stop ∷ vs) = suc (stops_in vs)
stops_in (_ ∷ vs) = stops_in vs

abbrev pub done_in : List Verdict → Bool
done_in [] = false
done_in (local_done ∷ vs) = true
done_in (_ ∷ vs) = done_in vs

abbrev pub is_clean : List Verdict → Bool
is_clean [] = true
is_clean (fault f ∷ vs) = false
is_clean (_ ∷ vs) = is_clean vs

-- What a loop that ends by its condition has read.
pub record Read (nr_proc stops : ℕ) (done : Bool) (vs left : List Verdict) : Type 0 where
  pub taken : List Verdict
  pub split : vs ≡ taken ++ left
  pub counted : stops + stops_in taken ≡ nr_proc - 1
  pub finished : (done || done_in taken) ≡ true
  pub clean : is_clean taken ≡ true

-- One message without fault, in terms of the counts.
receiver_loop-cons :
    (nr_proc stops : ℕ) (done : Bool) (v : Verdict) (vs : List Verdict)
    → is_clean (v ∷ []) ≡ true
    → receiver_loop nr_proc stops done (v ∷ vs) ≡ (
        if is_over nr_proc stops done
        then closes (v ∷ vs)
        else receiver_loop nr_proc (stops + stops_in (v ∷ [])) (done || done_in (v ∷ [])) vs)
unfolding receiver_loop
receiver_loop-cons nr_proc stops done stop vs c = ground arith
receiver_loop-cons nr_proc stops done local_done vs c = ground arith
receiver_loop-cons nr_proc stops done (fault f) vs c = cc
receiver_loop-cons nr_proc stops done to_handler vs c = ground arith
receiver_loop-cons nr_proc stops done (to_compute i n) vs c = ground arith

-- A faulty message ends the loop, if the loop is not over.
receiver_loop-fault :
    (nr_proc stops : ℕ) (done : Bool) (v : Verdict) (vs : List Verdict)
    → is_clean (v ∷ []) ≡ false
    → is_over nr_proc stops done ≡ false
    → (f : Fault) × (receiver_loop nr_proc stops done (v ∷ vs) ≡ exits f)
unfolding receiver_loop
receiver_loop-fault nr_proc stops done (fault f) vs c o = (f, rw o)
receiver_loop-fault nr_proc stops done stop vs c o = cc
receiver_loop-fault nr_proc stops done local_done vs c o = cc
receiver_loop-fault nr_proc stops done to_handler vs c o = cc
receiver_loop-fault nr_proc stops done (to_compute i n) vs c o = cc

stops_in-cons :
    (v : Verdict) (vs : List Verdict) → stops_in (v ∷ vs) ≡ stops_in (v ∷ []) + stops_in vs
stops_in-cons stop vs = omega arith
stops_in-cons _ vs = omega arith

done_in-cons :
    (v : Verdict) (vs : List Verdict) → done_in (v ∷ vs) ≡ (done_in (v ∷ []) || done_in vs)
done_in-cons local_done vs = refl
done_in-cons _ vs = refl

is_clean-cons :
    (v : Verdict) (vs : List Verdict) → is_clean (v ∷ vs) ≡ (is_clean (v ∷ []) && is_clean vs)
is_clean-cons (fault f) vs = refl
is_clean-cons _ vs = refl

Read-more :
    (v : Verdict) {nr_proc stops : ℕ} {done : Bool} {vs left : List Verdict}
    → is_clean (v ∷ []) ≡ true
    → Read nr_proc (stops + stops_in (v ∷ [])) (done || done_in (v ∷ [])) vs left
    → Read nr_proc stops done (v ∷ vs) left
Read-more v {done = d} c r = record {
  taken = v ∷ r.taken;
  split = ap (λ l. v ∷ l) r.split;
  counted = omega (arith, stops_in-cons v r.taken, r.counted);
  finished = ground (arith, done_in-cons v r.taken, r.finished);
  clean = ground (arith, is_clean-cons v r.taken, r.clean);
}

over_now :
    (nr_proc stops : ℕ) (done : Bool) (vs : List Verdict)
    → is_over nr_proc stops done ≡ true
    → Read nr_proc stops done vs vs
over_now nr_proc stops done vs h = record {
  taken = [];
  split = refl;
  counted = ground arith;
  finished = ground arith;
  clean = refl;
}

loop_over :
    (nr_proc stops : ℕ) (done : Bool) (v : Verdict) (vs : List Verdict)
    → is_over nr_proc stops done ≡ true
    → receiver_loop nr_proc stops done (v ∷ vs) ≡ closes (v ∷ vs)
unfolding receiver_loop
loop_over nr_proc stops done v vs h = rw h

closes-injective : {a b : List Verdict} → closes a ≡ closes b → a ≡ b
closes-injective h = cc

closes_now :
    (nr_proc stops : ℕ) (done : Bool) (v : Verdict) (vs : List Verdict) {left : List Verdict}
    → is_over nr_proc stops done ≡ true
    → receiver_loop nr_proc stops done (v ∷ vs) ≡ closes left
    → Read nr_proc stops done (v ∷ vs) left
closes_now nr_proc stops done v vs o h =
    subst (Read nr_proc stops done (v ∷ vs))
      (closes-injective (sym (loop_over nr_proc stops done v vs o) ∙ h))
      (over_now nr_proc stops done (v ∷ vs) o)

closes_nil :
    (nr_proc stops : ℕ) (done : Bool) {left : List Verdict}
    → receiver_loop nr_proc stops done [] ≡ closes left
    → Read nr_proc stops done [] left
unfolding receiver_loop
closes_nil nr_proc stops done {left} h = elim (Bool-cases (is_over nr_proc stops done)) [
  | inl o ↦
      subst (Read nr_proc stops done []) (closes-injective (rw o at h))
        (over_now nr_proc stops done [] o)
  | inr o ↦ let e : waits stops done ≡ closes left = rw o at h in cc
]

-- If the receiver's loop comes to close the request queue, the messages that it has read hold, with
-- what it had counted before, one STOP for each other process and a LOCAL_DONE, and none of them
-- was faulty; the rest is left unread.
pub closes-Read :
    (nr_proc stops : ℕ) (done : Bool) (vs : List Verdict) {left : List Verdict}
    → receiver_loop nr_proc stops done vs ≡ closes left
    → Read nr_proc stops done vs left
closes-Read nr_proc stops done [] h = closes_nil nr_proc stops done h
closes-Read nr_proc stops done (v ∷ vs) h = elim (Bool-cases (is_over nr_proc stops done)) [
  | inl now ↦ closes_now nr_proc stops done v vs now h
  | inr later ↦ elim (Bool-cases (is_clean (v ∷ []))) [
    | inl c ↦ Read-more v c (
        closes-Read nr_proc (stops + stops_in (v ∷ [])) (done || done_in (v ∷ [])) vs
          (ground (arith, receiver_loop-cons nr_proc stops done v vs c)))
    | inr c ↦ let (f, e) = receiver_loop-fault nr_proc stops done v vs c later in cc
  ]
]

receiver_loop-nil :
    (nr_proc stops : ℕ) (done : Bool)
    → is_over nr_proc stops done ≡ true
    → receiver_loop nr_proc stops done [] ≡ closes []
unfolding receiver_loop
receiver_loop-nil nr_proc stops done h = rw h

ends_later :
    (nr_proc stops : ℕ) (done : Bool) (v : Verdict) (vs : List Verdict)
    → is_clean (v ∷ []) ≡ true
    → is_over nr_proc stops done ≡ false
    → (left : List Verdict) × (receiver_loop nr_proc
          (stops + stops_in (v ∷ []))
          (done || done_in (v ∷ []))
          vs
        ≡ closes left)
    → (left : List Verdict) × (receiver_loop nr_proc stops done (v ∷ vs) ≡ closes left)
ends_later nr_proc stops done v vs c o (left, e) =
    (left, receiver_loop-cons nr_proc stops done v vs c ∙ rw o e)

-- On any messages without a fault that complete the STOPs of all other processes and the
-- LOCAL_DONE, the receiver's loop ends by closing the request queue.
pub receiver_loop_ends :
    (nr_proc stops : ℕ) (done : Bool) (vs : List Verdict)
    → is_clean vs ≡ true
    → stops + stops_in vs ≡ nr_proc - 1
    → (done || done_in vs) ≡ true
    → (left : List Verdict) × (receiver_loop nr_proc stops done vs ≡ closes left)
receiver_loop_ends nr_proc stops done [] c n d =
    ([], receiver_loop-nil nr_proc stops done (ground arith))
receiver_loop_ends nr_proc stops done (v ∷ vs) c n d =
    elim (Bool-cases (is_over nr_proc stops done)) [
      | inl now ↦ (v ∷ vs, loop_over nr_proc stops done v vs now)
      | inr later ↦ ends_later nr_proc stops done v vs (ground (arith, is_clean-cons v vs)) later (
          receiver_loop_ends nr_proc (stops + stops_in (v ∷ [])) (done || done_in (v ∷ [])) vs
            (ground (arith, is_clean-cons v vs)) (omega (arith, stops_in-cons v vs))
            (ground (arith, done_in-cons v vs)))
    ]
