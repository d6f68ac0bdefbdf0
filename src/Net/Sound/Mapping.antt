-- ===== src/Net/Sound/Mapping.antt =====
-- The steps of the threads keep every mapping within its segment.
use mathlib.Core.Path.{subst}
use rp_maksym_zaveriukha.Base.{
  ℕ, ◌<◌, ◌≡◌, ◌≢◌, ◌==◌, ◌⊎◌, Bool, true, false, arith, refl, sym, ◌∙◌, ap, some, Bool-cases, inl,
  inr,
}
use rp_maksym_zaveriukha.Com.{World, Outcome}
use rp_maksym_zaveriukha.Com.Buffer.{PreparePc}
use rp_maksym_zaveriukha.Com.Finalize.{FinalizePc}
use rp_maksym_zaveriukha.Net.Thread.{Pc, preparing, writing, finalizing, left, Thread, thread_step}
use rp_maksym_zaveriukha.Net.System.{
  System, Call, transmit, receive, finalize, leave, entry, set_pc, thread_turn,
}
use rp_maksym_zaveriukha.Net.Weights.{owns_of, is_final}
use rp_maksym_zaveriukha.Net.Local.{Turns-map, Turns-pair, Turns-forall}
use rp_maksym_zaveriukha.Net.Tokens.{Tokens, resume_inv}
use rp_maksym_zaveriukha.Net.Flow.{Flow}
use rp_maksym_zaveriukha.Net.Flow.Footprint.{
  thread_step-SlotFrame, OtherSegment, thread_step-OtherSegment,
}
use rp_maksym_zaveriukha.Net.Flow.Exclusive.{two_owners}
use rp_maksym_zaveriukha.Net.Sound.Mapped.{room_of, room, Backed, Fits, thread_step-Backed}
use rp_maksym_zaveriukha.Net.Sound.Remaps.{remaps, MapFrame, thread_step-MapFrame}

pub record Mapped (n : ℕ) (s : System) : Type 0 where
  pub backed : (r : ℕ) → r < s.world.shared.nr_proc → Backed s.world r
  pub fits : (i : ℕ) → i < n → Fits s.world (s.threads i).rank (s.threads i).pc

pub is_writing : Pc → Bool
is_writing (writing msg dests) = true
is_writing _ = false

writing-owns : (r : ℕ) (p : Pc) → is_writing p ≡ true → owns_of r r p ≡ 1
unfolding is_writing
writing-owns r (writing msg dests) h = ground arith
writing-owns r _ h = cc

left-idle : is_writing left ≢ true
unfolding is_writing
left-idle e = cc

remaps-cases : (r : ℕ) (p : Pc) → remaps p ≡ true → (owns_of r r p ≡ 1) ⊎ (is_final p ≡ true)
remaps-cases r (preparing msg dests PreparePc.mapping) h = inl (ground arith)
remaps-cases r (finalizing (FinalizePc.unmap is_last)) h = inr refl
remaps-cases r _ h = cc

pub Fits-frame :
    (w w' : World) (r : ℕ) (p : Pc)
    → (is_writing p ≡ true → (w'.procs r).mapping_capacity ≡ (w.procs r).mapping_capacity)
    → Fits w r p
    → Fits w' r p
unfolding is_writing
Fits-frame w w' r (writing msg dests) same f = omega (arith, same refl, f)
Fits-frame w w' r _ same f = ground arith

pub Backed-frame :
    (w w' : World) (r : ℕ)
    → ((w'.shared.slots r).capacity ≡ (w.shared.slots r).capacity)
      × ((w'.procs r).mapped ≡ (w.procs r).mapped)
      × ((w'.procs r).mapping_capacity ≡ (w.procs r).mapping_capacity)
    → room w' r ≡ room w r
    → Backed w r
    → Backed w' r
Backed-frame w w' r same e b = record {
  segment = omega (arith, same.0, e, b.segment);
  mapping = omega (arith, same.0, same.2, b.mapping);
  unmapped = λ h. same.2 ∙ b.unmapped (sym same.1 ∙ h);
}

-- What a step of a thread of process `rank` does.
record MapStep (rank : ℕ) (w : World) (p : Pc) (w' : World) (p' : Pc) : Type 0 where
  own : Backed w' rank × Fits w' rank p'
  frame : (d : ℕ) → MapFrame d rank w p w'
  names : (d : ℕ) → (w'.shared.slots d).own_shm_name ≡ (w.shared.slots d).own_shm_name
  others : (d : ℕ) → OtherSegment rank w w' (w.shared.slots d).own_shm_name

module _ {n : ℕ} {s : System} (tk : Tokens n s) (fl : Flow n s) (mp : Mapped n s) where
  module _ (i : ℕ) (lt : i < n) where
    abbrev me : Thread
    me = s.threads i

    -- No other thread of the process is about to copy while this one changes the mapping.
    alone_mapping :
        (j : ℕ)
        → j < n
        → i ≢ j
        → is_writing (s.threads j).pc ≡ true
        → me.rank ≡ (s.threads j).rank
        → remaps me.pc ≡ false
    alone_mapping j hj ne k same = elim (Bool-cases (remaps me.pc)) [
      | inr keeps ↦ keeps
      | inl sets ↦ elim (remaps-cases me.rank me.pc sets) [
        | inr final ↦
            let gone : (s.threads j).pc ≡ left = tk.alone i j lt hj ne (sym same) final in
            let none_writes : is_writing left ≡ true = sym (ap is_writing gone) ∙ k in
            absurd (left-idle none_writes)
        | inl owner ↦ absurd (
            omega (
              arith,
              two_owners tk fl (s.threads j).rank i j lt hj ne,
              subst (λ r. owns_of r me.rank me.pc ≡ 1) same owner,
              writing-owns (s.threads j).rank (s.threads j).pc k,
            ))
      ]
    ]

    other_room :
        (w : World) (p : Pc) (r : ℕ)
        → MapStep me.rank s.world me.pc w p
        → r < s.world.shared.nr_proc
        → me.rank ≢ r
        → room w r ≡ room s.world r
    other_room w p r l hr ne =
        ap (λ name. room_of (w.shm name)) (l.names r)
        ∙ ap room_of ((l.others r).0 (fl.names me.rank r (tk.ranks i lt) hr ne))

    set_pc-Mapped :
        (w : World) (p : Pc) → MapStep me.rank s.world me.pc w p → Mapped n (set_pc s i w p)
    set_pc-Mapped w p l = record {
      backed = λ r h.
          let hr : r < s.world.shared.nr_proc = omega (arith, h, (l.frame 0).count) in
          elim (Bool-cases (me.rank == r)) [
            | inl same ↦ let e : me.rank ≡ r = ground arith in subst (Backed w) e l.own.0
            | inr other ↦
                Backed-frame s.world w r ((l.frame r).kept (λ e. ground arith))
                  (other_room w p r l hr (ground arith)) (mp.backed r hr)
          ];
      fits = λ j hj. elim (Bool-cases (i == j)) [
        | inl same ↦ rw same l.own.1
        | inr other ↦ rw other (
            Fits-frame s.world w (s.threads j).rank (s.threads j).pc
              (λ k. ((l.frame (s.threads j).rank).kept (alone_mapping j hj (ground arith) k)).2)
              (mp.fits j hj))
      ];
    }

    pub turn-Mapped : {t : System} → thread_turn i s ≡ some t → Mapped n t
    unfolding thread_turn
    turn-Mapped e =
        resume_inv (Mapped n) s i o
          (Turns-map _ (λ w p. Mapped n (set_pc s i w p)) o
            (λ w p h.
              set_pc-Mapped w p (record {
                own = h.0;
                frame = h.1.0;
                names = λ d. (h.1.1.0 d).own;
                others = h.1.1.1;
              }))
            (Turns-pair _ _ o
              (thread_step-Backed me.rank me.pc s.world (mp.backed me.rank (tk.ranks i lt)))
              (Turns-pair _ _ o (Turns-forall _ o (thread_step-MapFrame me.rank me.pc s.world)) (
                Turns-pair _ _ o (Turns-forall _ o (thread_step-SlotFrame me.rank me.pc s.world)) (
                  Turns-forall _ o (λ d.
                    thread_step-OtherSegment me.rank me.pc s.world
                      (s.world.shared.slots d).own_shm_name))))))
          e
      where
        o : Outcome Pc Unit
        o = thread_step me.rank me.pc s.world

    pub begin-Mapped : (c : Call) → Mapped n (set_pc s i s.world (entry c))
    begin-Mapped c = set_pc-Mapped s.world (entry c) (record {
      own = (mp.backed me.rank (tk.ranks i lt), fresh c);
      frame = λ d. record { count = refl; kept = λ _. (refl, refl, refl) };
      names = λ d. refl;
      others = λ d. (λ _. refl, λ h. h);
    })
      where
        fresh : (c : Call) → Fits s.world me.rank (entry c)
        fresh (transmit msg dests) = tt
        fresh receive = tt
        fresh finalize = tt
        fresh leave = tt
