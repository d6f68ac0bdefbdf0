-- ===== src/Program/Outputs.antt =====
-- What the compute thread of a process sends to another one, as the receiver there judges it.
use mathlib.Core.List.{append-nil}
use mathlib.Core.Path.{subst}
use rp_maksym_zaveriukha.Base.{
  ℕ, zero, suc, ◌+◌, ◌<◌, ◌≤◌, ◌≡◌, ◌≢◌, ◌==◌, ◌^◌, ◌%◌, ◌⊎◌, List, [], ◌∷◌, ◌++◌, arith, refl, sym,
  ap, ◌∙◌, Bool-cases, inl, inr,
}
use rp_maksym_zaveriukha.Db.Message.{send_control_message, msg_stop, msg_local_done}
use rp_maksym_zaveriukha.Db.Compute.{
  Pads, Answer, Send, Computed, sent, no_answer, wrong_id, wrong_size, prepend, key_of, request_of,
  stops_from, farewells, compute_from, compute_thread_main,
}
use rp_maksym_zaveriukha.Db.Compute.Exchange.{requests_from}
use rp_maksym_zaveriukha.Program.{to_rank, verdict, as_stop, stops}
use rp_maksym_zaveriukha.Program.Counts.{late, late-append-unstopped, weighed-append}
use rp_maksym_zaveriukha.Program.Judged.{verdict-send_request, verdict-send_control_message}

-- What a compute thread that finishes has sent.
pub prepend_sent :
    (m : Send) (c : Computed) {ms : List Send}
    → prepend m c ≡ sent ms
    → (ms' : List Send) × (c ≡ sent ms') × (ms ≡ m ∷ ms')
prepend_sent m (sent ms') h = (ms', refl, cc)
prepend_sent m (no_answer ms') h = cc
prepend_sent m wrong_id h = cc
prepend_sent m wrong_size h = cc

pub to_rank-append :
    (d : ℕ) (xs ys : List Send) → to_rank d (xs ++ ys) ≡ to_rank d xs ++ to_rank d ys
to_rank-append d [] ys = refl
to_rank-append d ((e, m) ∷ xs) ys = ground (arith, to_rank-append d xs ys)

module _ (pads : Pads) (r nr_proc response_size : ℕ) where
  pub compute_from_sent :
      (i k : ℕ) (answers : List Answer) {ms : List Send}
      → compute_from pads r nr_proc response_size i k answers ≡ sent ms
      → ms
        ≡ requests_from pads r nr_proc response_size i k ++ farewells pads r nr_proc response_size
  unfolding compute_from
  compute_from_sent i zero answers h = cc
  compute_from_sent i (suc k) [] h = cc
  compute_from_sent i (suc k) ((request_id, size) ∷ answers) {ms} h =
      found
        (prepend_sent (request_of pads r nr_proc response_size i)
          (compute_from pads r nr_proc response_size (i + 1) k answers) (ground (arith, h)))
        (λ ms' e. compute_from_sent (i + 1) k answers e)
    where
      found :
          (ms' : List Send) × (compute_from pads r nr_proc response_size (i + 1) k answers
              ≡ sent ms')
            × (ms ≡ request_of pads r nr_proc response_size i ∷ ms')
          → ((ms' : List Send)
              → compute_from pads r nr_proc response_size (i + 1) k answers ≡ sent ms'
              → ms'
                ≡ requests_from pads r nr_proc response_size (i + 1) k
                  ++ farewells pads r nr_proc response_size)
          → ms
            ≡ requests_from pads r nr_proc response_size i (suc k)
              ++ farewells pads r nr_proc response_size
      found (ms', e, split) more =
          split ∙ ap (λ l. request_of pads r nr_proc response_size i ∷ l) (more ms' e)

  pub requests-unstopped :
      (d i k : ℕ)
      → r < 2 ^ 32
      → response_size < 2 ^ 64
      → stops (to_rank d (requests_from pads r nr_proc response_size i k)) ≡ 0
  unfolding request_of key_of
  requests-unstopped d i zero hr hs = refl
  requests-unstopped d i (suc k) hr hs = ground (
    arith,
    requests-unstopped d (i + 1) k hr hs,
    verdict-send_request (pads.request i) r (i % 2 ^ 32) (key_of r i) response_size hr (omega arith)
        (omega arith) hs,
  )

  -- A rank gets at most one STOP, and the own rank none.
  pub no_stop_for :
      (d i k : ℕ) → (d < i) ⊎ (r ≡ d) → to_rank d (stops_from pads r nr_proc response_size i k) ≡ []
  unfolding stops_from
  no_stop_for d i zero h = refl
  no_stop_for d i (suc k) (inl h) = ground (arith, no_stop_for d (i + 1) k (inl (omega arith)))
  no_stop_for d i (suc k) (inr h) = ground (arith, no_stop_for d (i + 1) k (inr h))

  one_stop :
      (d i k : ℕ)
      → (to_rank d (stops_from pads r nr_proc response_size i k) ≡ [])
        ⊎ (to_rank d (stops_from pads r nr_proc response_size i k)
            ≡ send_control_message (pads.control d) r msg_stop ∷ [])
  unfolding stops_from
  one_stop d i zero = inl refl
  one_stop d i (suc k) = elim (Bool-cases (i == r)) [
    | inl own ↦ rw own (one_stop d (i + 1) k)
    | inr other ↦ elim (Bool-cases (i == d)) [
      | inl now ↦ inr (
          rw (other, now, no_stop_for d (i + 1) k (inl (ground (arith, now))))
            (let e : i ≡ d = ground (arith, now) in
              ap (λ j. send_control_message (pads.control j) r msg_stop ∷ []) e))
      | inr later ↦ rw (other, later) (one_stop d (i + 1) k)
    ]
  ]

  -- What a process gets at the end: a STOP, or LOCAL_DONE.
  pub record Tidy (d : ℕ) (ms : List (List ℕ)) : Type 0 where
    pub one : stops ms ≤ 1
    pub own : r ≡ d → stops ms ≡ 0
    pub ordered : late ms ≡ 0

  Tidy-nil : (d : ℕ) → Tidy d []
  Tidy-nil d = record { one = omega arith; own = λ e. refl; ordered = refl }

  Tidy-local_done :
      (d : ℕ) → r < 2 ^ 32 → Tidy d (send_control_message (pads.control r) r msg_local_done ∷ [])
  Tidy-local_done d h = record {
    one = omega (arith, quiet);
    own = λ e. omega (arith, quiet);
    ordered = ground (arith, quiet);
  }
    where
      quiet : as_stop (verdict (send_control_message (pads.control r) r msg_local_done)) ≡ 0
      quiet = ap as_stop (verdict-send_control_message (pads.control r) r h).1

  Tidy-stop :
      (d : ℕ) → r < 2 ^ 32 → r ≢ d → Tidy d (send_control_message (pads.control d) r msg_stop ∷ [])
  Tidy-stop d h other = record {
    one = omega (arith, ap as_stop (verdict-send_control_message (pads.control d) r h).0);
    own = λ e. absurd (other e);
    ordered = ground (arith, ap as_stop (verdict-send_control_message (pads.control d) r h).0);
  }

  pub farewells-Tidy :
      (d : ℕ) → r < 2 ^ 32 → Tidy d (to_rank d (farewells pads r nr_proc response_size))
  unfolding farewells
  farewells-Tidy d h = elim (Bool-cases (r == d)) [
    | inl own ↦
        rw
          (
            to_rank-append d (stops_from pads r nr_proc response_size 0 nr_proc)
                ((r, send_control_message (pads.control r) r msg_local_done) ∷ []),
            no_stop_for d 0 nr_proc (inr (ground (arith, own))),
            own,
          )
          (Tidy-local_done d h)
    | inr other ↦
        rw
          (
            to_rank-append d (stops_from pads r nr_proc response_size 0 nr_proc)
                ((r, send_control_message (pads.control r) r msg_local_done) ∷ []),
            other,
            append-nil (to_rank d (stops_from pads r nr_proc response_size 0 nr_proc)),
          )
          (at_most_one (ground (arith, other)) (one_stop d 0 nr_proc))
  ]
    where
      at_most_one :
          {ms : List (List ℕ)}
          → r ≢ d
          → (ms ≡ []) ⊎ (ms ≡ send_control_message (pads.control d) r msg_stop ∷ [])
          → Tidy d ms
      at_most_one other (inl e) = subst (Tidy d) (sym e) (Tidy-nil d)
      at_most_one other (inr e) = subst (Tidy d) (sym e) (Tidy-stop d h other)

  pub computed-Tidy :
      (d requests_per_process : ℕ) (answers : List Answer) {ms : List Send}
      → r < 2 ^ 32
      → response_size < 2 ^ 64
      → compute_thread_main pads r nr_proc response_size requests_per_process answers ≡ sent ms
      → Tidy d (to_rank d ms)
  unfolding compute_thread_main
  computed-Tidy d k answers {ms} hr hs h =
      rw
        (
          compute_from_sent 0 k answers h,
          to_rank-append d (requests_from pads r nr_proc response_size 0 k)
              (farewells pads r nr_proc response_size),
        )
        (with_requests _ _ (requests-unstopped d 0 k hr hs) (farewells-Tidy d hr))
    where
      with_requests : (xs ys : List (List ℕ)) → stops xs ≡ 0 → Tidy d ys → Tidy d (xs ++ ys)
      with_requests xs ys none_yet t = record {
        one = omega (arith, weighed-append as_stop xs ys, none_yet, t.one);
        own = λ e. omega (arith, weighed-append as_stop xs ys, none_yet, t.own e);
        ordered = late-append-unstopped xs ys none_yet ∙ t.ordered;
      }
