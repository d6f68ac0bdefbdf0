-- ===== src/Net/Flow/Exclusive.antt =====
-- While a process prepares or writes its segment, none of its messages is under way.
use mathlib.Core.Path.{subst}
use native.Mathlib.Decide.{dec_lt}
use rp_maksym_zaveriukha.Base.{
  ℕ, ◌+◌, ◌≡◌, ◌≢◌, ◌<◌, ◌≤◌, ◌==◌, ◌⊎◌, inl, inr, true, false, List, arith, pos, minus_one, refl,
  ap, Option, none, some, Bool-cases, total, le-total, add-le-total, total-eq-zero,
}
use rp_maksym_zaveriukha.Com.{World}
use rp_maksym_zaveriukha.Com.Buffer.{PreparePc}
use rp_maksym_zaveriukha.Com.Send.{SendPc}
use rp_maksym_zaveriukha.Com.Router.{RouterPc}
use rp_maksym_zaveriukha.Com.Finalize.{FinalizePc}
use rp_maksym_zaveriukha.Net.Thread.{Pc, preparing, writing, sending, finalizing, exited}
use rp_maksym_zaveriukha.Net.System.{Sent, System}
use rp_maksym_zaveriukha.Net.Weights.{awaits, owns, owns_of, routes}
use rp_maksym_zaveriukha.Net.Tokens.{Tokens}
use rp_maksym_zaveriukha.Net.Flow.{
  Flow, Fact, from_rank, inbox_weight, carries, uncounted, uncounted_of, delivered_from, announces,
}
use rp_maksym_zaveriukha.Net.Flow.Footprint.{writes_segment}

pub writes_segment-owns : (r : ℕ) (p : Pc) → writes_segment p ≡ true → owns_of r r p ≡ 1
writes_segment-owns r (preparing msg dests PreparePc.mapping) h = ground arith
writes_segment-owns r (writing msg dests) h = ground arith
writes_segment-owns r _ h = cc

writes_segment-pending :
    (w : World) (sent : List Sent) (r : ℕ) (p : Pc)
    → writes_segment p ≡ true
    → Fact w sent r p
    → (w.shared.slots r).pending_acks ≡ 0
writes_segment-pending w sent r (preparing msg dests PreparePc.mapping) h f = f
writes_segment-pending w sent r (writing msg dests) h f = f
writes_segment-pending w sent r _ h f = cc

writes_segment-uncounted :
    (r rank : ℕ) (p : Pc) → writes_segment p ≡ true → uncounted_of r rank p ≡ 0
writes_segment-uncounted r rank (preparing msg dests PreparePc.mapping) h = refl
writes_segment-uncounted r rank (writing msg dests) h = refl
writes_segment-uncounted r rank _ h = cc

uncounted-owns : (r rank : ℕ) (p : Pc) → uncounted_of r rank p ≤ owns_of r rank p
uncounted-owns r rank (sending msg dest dests SendPc.post_empty) = omega arith
uncounted-owns r rank (sending msg dest dests SendPc.count) = omega arith
uncounted-owns r rank _ = omega arith

pub announces-routes : (p : Option RouterPc) → announces p ≤ routes p
announces-routes (some (RouterPc.post_delivered d)) = omega arith
announces-routes (some RouterPc.wait_full) = omega arith
announces-routes (some (RouterPc.wait_inbox d)) = omega arith
announces-routes (some (RouterPc.post_inbox d)) = omega arith
announces-routes none = omega arith

-- A thread that the router is to answer.
awaits-cases :
    (w : World) (sent : List Sent) (r : ℕ) (p : Pc)
    → Fact w sent r p
    → (awaits p ≡ 0)
      ⊎ ((w.shared.server_box.src_rank ≡ minus_one)
          ⊎ ((w.shared.server_box.src_rank ≡ pos r)
              × (owns_of r r p ≡ 1)
              × (writes_segment p ≡ false)))
awaits-cases w sent r (sending msg dest dests SendPc.wait_delivered) f =
    inr (inr (f.2.src, ground arith, refl))
awaits-cases w sent r (finalizing (FinalizePc.unmap true)) f = inr (inl f.0)
awaits-cases w sent r (finalizing (FinalizePc.unmap false)) f = inl refl
awaits-cases w sent r (exited true) f = inr (inl f.0)
awaits-cases w sent r (exited false) f = inl refl
awaits-cases w sent r _ f = inl refl

module _ {n : ℕ} {s : System} (tk : Tokens n s) (fl : Flow n s) where
  pub two_owners :
      (r i j : ℕ) → i < n → j < n → i ≢ j → owns r (s.threads i) + owns r (s.threads j) ≤ 1
  two_owners r i j hi hj ne = elim (dec_lt i j) [
    | yes below ↦ ground (arith, add-le-total (owns r) n s.threads i j below hj, tk.owner r)
    | no above ↦
        let e : j < i = omega arith in
        ground (arith, add-le-total (owns r) n s.threads j i e hi, tk.owner r)
  ]

  module _ (i : ℕ) (lt : i < n) (w : writes_segment (s.threads i).pc ≡ true) where
    abbrev mine : ℕ
    mine = (s.threads i).rank

    no_uncounted : (j : ℕ) → j < n → uncounted mine (s.threads j) ≡ 0
    no_uncounted j h = elim (Bool-cases (i == j)) [
      | inl same ↦
          subst (λ k. uncounted mine (s.threads k) ≡ 0) (ground arith)
            (writes_segment-uncounted mine mine (s.threads i).pc w)
      | inr other ↦ omega (
        arith,
        uncounted-owns mine (s.threads j).rank (s.threads j).pc,
        two_owners mine i j lt h (ground arith),
        writes_segment-owns mine (s.threads i).pc w,
      )
    ]

    same_owner :
        (j : ℕ)
        → from_rank mine s.world.shared.server_box.src_rank ≢ 0
        → s.world.shared.server_box.src_rank ≡ pos (s.threads j).rank
        → (s.threads j).rank ≡ mine
    same_owner j h src = ground arith

    other_writer :
        (j : ℕ)
        → j < n
        → from_rank mine s.world.shared.server_box.src_rank ≢ 0
        → s.world.shared.server_box.src_rank ≡ pos (s.threads j).rank
        → owns_of (s.threads j).rank (s.threads j).rank (s.threads j).pc ≡ 1
        → ¬ (writes_segment (s.threads j).pc ≡ false)
    other_writer j hj h src o keeps = elim (Bool-cases (i == j)) [
      | inl same ↦
          let e : i ≡ j = ground arith in
          ground (arith, ap (λ k. writes_segment (s.threads k).pc) e)
      | inr other ↦ omega (
        arith,
        two_owners mine i j lt hj (ground arith),
        writes_segment-owns mine (s.threads i).pc w,
        subst (λ k. owns_of k (s.threads j).rank (s.threads j).pc ≡ 1) (same_owner j h src) o,
      )
    ]

    not_awaited :
        from_rank mine s.world.shared.server_box.src_rank ≢ 0
        → (j : ℕ) → j < n
        → awaits (s.threads j).pc ≡ 0
    not_awaited h j hj =
        elim (awaits-cases s.world s.sent (s.threads j).rank (s.threads j).pc (fl.facts j hj)) [
          | inl z ↦ z
          | inr (inl m) ↦ absurd (h (rw m refl))
          | inr (inr (src, o, keeps)) ↦ absurd (other_writer j hj h src o keeps)
        ]

    none_delivered : delivered_from mine s.world s.router ≡ 0
    none_delivered = elim (Bool-cases (from_rank mine s.world.shared.server_box.src_rank == 0)) [
      | inl foreign ↦ ground arith
      | inr own ↦ ground (
        arith,
        tk.requests,
        announces-routes s.router,
        total-eq-zero (λ t. awaits t.pc) n s.threads (not_awaited (ground arith)),
      )
    ]

    balanced :
        total (inbox_weight mine) s.world.shared.nr_proc s.world.shared.slots
          + total (carries mine) n s.threads
        ≡ 0
    balanced = omega (
      arith,
      fl.account mine,
      none_delivered,
      writes_segment-pending s.world s.sent mine (s.threads i).pc w (fl.facts i lt),
      total-eq-zero (uncounted mine) n s.threads no_uncounted,
    )

    -- A message of the process lies in no inbox and in no receiver's hands.
    pub no_Carried :
        (d : ℕ)
        → d < s.world.shared.nr_proc
        → 0 < (s.world.shared.slots d).full
        → (s.world.shared.slots d).src_rank ≢ pos mine
    no_Carried d hd full src = ground (
      arith,
      balanced,
      le-total (inbox_weight mine) s.world.shared.nr_proc s.world.shared.slots d hd,
    )

    pub not_carried : (j : ℕ) → j < n → carries mine (s.threads j) ≡ 0
    not_carried j hj = omega (arith, balanced, le-total (carries mine) n s.threads j hj)
