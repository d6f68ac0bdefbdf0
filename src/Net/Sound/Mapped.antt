-- ===== src/Net/Sound/Mapped.antt =====
-- The mapping of the send buffer: it lies within the segment, and the message that a thread is about to
-- copy lies within it.
use rp_maksym_zaveriukha.Base.{
  ℕ, zero, suc, ◌+◌, ◌≤◌, ◌≡◌, ◌==◌, ltb, if◌then◌else◌, ℤ, true, false, List, [], ◌∷◌, arith, refl,
  ap, length, drop, length-append, Option, none, some, Bool-cases, Option-cases, inl, inr,
}
use rp_maksym_zaveriukha.Com.{World, call, failed, returned, no_segment}
use rp_maksym_zaveriukha.Com.Names.Laws.{eq_name_refl}
use rp_maksym_zaveriukha.Com.Segment.{ftruncate, memcpy}
use rp_maksym_zaveriukha.Com.Buffer.{
  WaitPc, PreparePc, com_prepare_send_buffer, grow, remap, set_prepared_size,
}
use rp_maksym_zaveriukha.Com.Send.{SendPc}
use rp_maksym_zaveriukha.Com.Recv.{RecvPc}
use rp_maksym_zaveriukha.Com.Finalize.{FinalizePc}
use rp_maksym_zaveriukha.Net.Thread.{
  Pc, preparing, writing, choosing, sending, receiving, finalizing, thread_step,
}
use rp_maksym_zaveriukha.Net.Local.{Turns}

abbrev pub room_of : Option (List ℕ) → ℕ
room_of none = 0
room_of (some bytes) = length bytes

abbrev pub room : World → ℕ → ℕ
room w r = room_of (w.shm (w.shared.slots r).own_shm_name)

pub record Backed (w : World) (r : ℕ) : Type 0 where
  pub segment : (w.shared.slots r).capacity ≤ room w r
  pub mapping : (w.procs r).mapping_capacity ≤ (w.shared.slots r).capacity
  pub unmapped : (w.procs r).mapped ≡ false → (w.procs r).mapping_capacity ≡ 0

length-ftruncate : (n : ℕ) (bytes : List ℕ) → length (ftruncate n bytes) ≡ n
length-ftruncate zero bytes = refl
length-ftruncate (suc n) [] = ap suc (length-ftruncate n [])
length-ftruncate (suc n) (b ∷ bs) = ap suc (length-ftruncate n bs)

length-drop : (n : ℕ) (bytes : List ℕ) → length bytes ≤ n + length (drop n bytes)
length-drop zero bytes = omega arith
length-drop (suc n) [] = omega arith
length-drop (suc n) (b ∷ bs) = omega (arith, length-drop n bs)

length-memcpy : (msg bytes : List ℕ) → length bytes ≤ length (memcpy msg bytes)
length-memcpy msg bytes =
    omega (arith, length-append msg (drop (length msg) bytes), length-drop (length msg) bytes)

Backed-grow :
    (r size : ℕ) (bytes : List ℕ) (w : World)
    → Backed w r
    → Backed (grow r size bytes w) r × (size ≤ ((grow r size bytes w).shared.slots r).capacity)
Backed-grow r size bytes w b = elim (Bool-cases (ltb (w.shared.slots r).capacity size)) [
  | inl small ↦ elim (Bool-cases (w.procs r).mapped) [
    | inl m ↦
        rw (small, m)
          (
            record {
              segment = ground (
                arith,
                eq_name_refl (w.shared.slots r).own_shm_name,
                length-ftruncate size bytes,
              );
              mapping = ground arith;
              unmapped = ground arith;
            },
            ground arith,
          )
    | inr m ↦
        rw (small, m)
          (
            record {
              segment = ground (
                arith,
                eq_name_refl (w.shared.slots r).own_shm_name,
                length-ftruncate size bytes,
              );
              mapping = ground (arith, b.unmapped);
              unmapped = ground (arith, b.unmapped);
            },
            ground arith,
          )
  ]
  | inr enough ↦ rw enough (b, ground arith)
]

Backed-remap :
    (r size : ℕ) (w : World)
    → Backed w r
    → size ≤ (w.shared.slots r).capacity
    → Backed (remap r size w) r × (size ≤ ((remap r size w).procs r).mapping_capacity)
Backed-remap r size w b h = elim (Bool-cases (w.procs r).mapped) [
  | inl m ↦ elim (Bool-cases (ltb (w.procs r).mapping_capacity size)) [
    | inl small ↦
        rw (m, small)
          (
            record {
              segment = ground (arith, b.segment);
              mapping = ground arith;
              unmapped = ground arith;
            },
            ground arith,
          )
    | inr enough ↦ rw (m, enough) (b, ground arith)
  ]
  | inr m ↦ rw m (
    record { segment = ground (arith, b.segment); mapping = ground arith; unmapped = ground arith },
    ground arith,
  )
]

-- At `writing` the message fits the mapping.
abbrev pub Fits : World → ℕ → Pc → Type 0
Fits w r (writing msg dests) = length msg ≤ (w.procs r).mapping_capacity
Fits w r _ = Unit

prepared-Backed :
    (r size : ℕ) (msg : List ℕ) (dests : List ℤ) (w : World) (o : Option (List ℕ))
    → size ≡ length msg
    → Backed w r
    → Turns
        (λ w' p'. Backed w' r × Fits w' r p')
        (call
          (preparing msg dests)
          (λ _. writing msg dests)
          (elim o [
            | none ↦ failed no_segment
            | some bytes ↦
                if size == 0
                then returned (set_prepared_size r 0 (grow r size bytes w)) false
                else returned (set_prepared_size r size (remap r size (grow r size bytes w))) true
          ]))
prepared-Backed r size msg dests w none e b = tt
prepared-Backed r size msg dests w (some bytes) e b = elim (Bool-cases (size == 0)) [
  | inl empty ↦
      rw empty (renamed 0 (grow r size bytes w) (Backed-grow r size bytes w b).0, ground arith)
  | inr full ↦
      rw full
        (renamed size (remap r size (grow r size bytes w)) remapped.0, omega (arith, e, remapped.1))
]
  where
    renamed : (n : ℕ) (v : World) → Backed v r → Backed (set_prepared_size r n v) r
    renamed n v h = record {
      segment = ground (arith, h.segment);
      mapping = ground (arith, h.mapping);
      unmapped = h.unmapped;
    }

    remapped :
        Backed (remap r size (grow r size bytes w)) r
        × (size ≤ ((remap r size (grow r size bytes w)).procs r).mapping_capacity)
    remapped =
        Backed-remap r size (grow r size bytes w) (Backed-grow r size bytes w b).0
          (Backed-grow r size bytes w b).1

written-Backed :
    (r : ℕ) (msg : List ℕ) (dests : List ℤ) (w : World)
    → Backed w r
    → Turns (λ w' p'. Backed w' r × Fits w' r p') (thread_step r (writing msg dests) w)
unfolding thread_step
written-Backed r msg dests w b = elim (Bool-cases (length msg == 0)) [
  | inl empty ↦ rw (thread_step, empty) (b, tt)
  | inr full ↦ elim (Option-cases (w.shm (w.shared.slots r).own_shm_name)) [
    | inl gone ↦ rw (thread_step, full, gone) tt
    | inr (bytes, there) ↦
        rw (thread_step, full, there)
          (
            record {
              segment = ground (
                arith,
                eq_name_refl (w.shared.slots r).own_shm_name,
                length-memcpy msg bytes,
                b.segment,
                there,
              );
              mapping = b.mapping;
              unmapped = b.unmapped;
            },
            tt,
          )
  ]
]

pub thread_step-Backed :
    (rank : ℕ) (p : Pc) (w : World)
    → Backed w rank
    → Turns (λ w' p'. Backed w' rank × Fits w' rank p') (thread_step rank p w)
unfolding thread_step com_prepare_send_buffer
thread_step-Backed rank (preparing msg dests PreparePc.mapping) w b =
    prepared-Backed rank (length msg) msg dests w (w.shm (w.shared.slots rank).own_shm_name) refl b
thread_step-Backed rank (writing msg dests) w b = written-Backed rank msg dests w b
thread_step-Backed rank (sending msg dest dests SendPc.enter) w b =
    ground (arith, b.segment, b.mapping, b.unmapped)
thread_step-Backed rank (preparing msg dests (PreparePc.draining WaitPc.test)) w b =
    ground (arith, b.segment, b.mapping, b.unmapped)
thread_step-Backed rank (choosing msg []) w b = ground (arith, b.segment, b.mapping, b.unmapped)
thread_step-Backed rank (receiving RecvPc.wait_full) w b =
    ground (arith, b.segment, b.mapping, b.unmapped)
thread_step-Backed rank (finalizing (FinalizePc.draining WaitPc.test)) w b =
    ground (arith, b.segment, b.mapping, b.unmapped)
thread_step-Backed rank (finalizing (FinalizePc.post_lock true)) w b =
    ground (arith, b.segment, b.mapping, b.unmapped)
thread_step-Backed rank _ w b = ground (arith, b.segment, b.mapping, b.unmapped)
