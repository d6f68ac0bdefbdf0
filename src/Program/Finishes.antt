-- ===== src/Program/Finishes.antt =====
-- When the compute thread finishes, and what it has sent then.
use rp_maksym_zaveriukha.Base.{
  ℕ, zero, suc, ◌+◌, ◌<◌, ◌≤◌, ◌≡◌, ◌≢◌, ◌==◌, ◌^◌, ◌%◌, ◌↔◌, false, map, List, [], ◌∷◌, ◌++◌,
  arith, refl, ap, ◌∙◌, take, Bool-cases, inl, inr,
}
use rp_maksym_zaveriukha.Db.Message.{read_header, send_control_message, msg_stop, msg_local_done}
use rp_maksym_zaveriukha.Db.Compute.{
  Pads, Answer, Send, sent, request_of, stops_from, farewells, compute_from, compute_thread_main,
}
use rp_maksym_zaveriukha.Db.Compute.Exchange.{
  expected_from, requests_from, compute_thread_main-expected_from,
}
use rp_maksym_zaveriukha.Program.{
  to_rank, messages, as_stop, as_request, as_done, stops, requests, dones,
}
use rp_maksym_zaveriukha.Program.Counts.{late, weighed-append, late-append-unstopped}
use rp_maksym_zaveriukha.Program.Judged.{verdict-send_control_message}
use rp_maksym_zaveriukha.Program.Outputs.{
  prepend_sent, to_rank-append, requests-unstopped, no_stop_for, farewells-Tidy,
}
use rp_maksym_zaveriukha.Program.Said.{
  messages-append, Said, requests-asked, requests-headed, requests-remote,
}

module _ (pads : Pads) (r nr_proc response_size : ℕ) (hr : r < 2 ^ 32)
    (hs : response_size < 2 ^ 64) where
  stops_from-asked :
      (i k : ℕ) → requests (messages (stops_from pads r nr_proc response_size i k)) ≡ 0
  unfolding stops_from
  stops_from-asked i zero = refl
  stops_from-asked i (suc k) = ground (
    arith,
    stops_from-asked (i + 1) k,
    ap as_request (verdict-send_control_message (pads.control i) r hr).0,
  )

  -- Each other rank gets its STOP.
  stop_for :
      (d i k : ℕ)
      → d ≢ r
      → i ≤ d
      → d < i + k
      → to_rank d (stops_from pads r nr_proc response_size i k)
        ≡ send_control_message (pads.control d) r msg_stop ∷ []
  unfolding stops_from
  stop_for d i zero other h lt = absurd (omega (arith, h, lt))
  stop_for d i (suc k) other h lt = elim (Bool-cases (i == d)) [
    | inl now ↦
        let e : i ≡ d = ground (arith, now) in
        let ne : (i == r) ≡ false = ground (arith, other, e) in
        rw (ne, now, no_stop_for pads r nr_proc response_size d (i + 1) k (inl (omega (arith, e))))
          (ap (λ j. send_control_message (pads.control j) r msg_stop ∷ []) e)
    | inr later ↦ ground (arith, later, stop_for d (i + 1) k other)
  ]

  farewells-Said :
      (d : ℕ)
      → d ≢ r
      → d < nr_proc
      → Said r response_size d 0 (farewells pads r nr_proc response_size)
  unfolding farewells
  farewells-Said d other lt = record {
    headed = refl;
    asked = omega (
      arith,
      ap requests (messages-append stop_list last),
      weighed-append as_request (messages stop_list) (messages last),
      stops_from-asked 0 nr_proc,
      ap as_request (verdict-send_control_message (pads.control r) r hr).1,
    );
    remote =
        rw (own, own_last)
          (omega (arith, ap as_request (verdict-send_control_message (pads.control r) r hr).1));
    done =
        rw (own, own_last)
          (omega (arith, ap as_done (verdict-send_control_message (pads.control r) r hr).1));
    stopped =
        rw (theirs)
          (omega (arith, ap as_stop (verdict-send_control_message (pads.control d) r hr).0));
    ordered = (farewells-Tidy pads r nr_proc response_size d hr).ordered;
  }
    where
      stop_list : List Send
      stop_list = stops_from pads r nr_proc response_size 0 nr_proc

      last : List Send
      last = (r, send_control_message (pads.control r) r msg_local_done) ∷ []

      own_last : to_rank r last ≡ send_control_message (pads.control r) r msg_local_done ∷ []
      own_last = ground arith

      own : to_rank r (stop_list ++ last) ≡ to_rank r last
      own =
          to_rank-append r stop_list last
          ∙ ap (λ l. l ++ to_rank r last)
              (no_stop_for pads r nr_proc response_size r 0 nr_proc (inr refl))

      theirs : to_rank d (stop_list ++ last) ≡ send_control_message (pads.control d) r msg_stop ∷ []
      theirs =
          to_rank-append d stop_list last
          ∙ rw (stop_for d 0 nr_proc other (omega arith) (omega (arith, lt)))
              (ground (arith, other))

  sends-Said :
      (d k : ℕ)
      → r < nr_proc
      → d ≢ r
      → d < nr_proc
      → Said r response_size d k
          (requests_from pads r nr_proc response_size 0 k ++ farewells pads r nr_proc response_size)
  sends-Said d k lt other ltd = record {
    headed =
        ap (λ l. map read_header (take k l)) (messages-append first rest)
        ∙ requests-headed pads r nr_proc response_size hr hs 0 k (messages rest);
    asked = omega (
      arith,
      ap requests (messages-append first rest),
      weighed-append as_request (messages first) (messages rest),
      requests-asked pads r nr_proc response_size hr hs 0 k,
      said.asked,
    );
    remote = ap requests to_self ∙ said.remote;
    done = ap dones to_self ∙ said.done;
    stopped = omega (
      arith,
      ap stops (to_rank-append d first rest),
      weighed-append as_stop (to_rank d first) (to_rank d rest),
      requests-unstopped pads r nr_proc response_size d 0 k hr hs,
      said.stopped,
    );
    ordered =
        ap late (to_rank-append d first rest)
        ∙ late-append-unstopped (to_rank d first) (to_rank d rest)
            (requests-unstopped pads r nr_proc response_size d 0 k hr hs)
        ∙ said.ordered;
  }
    where
      first : List Send
      first = requests_from pads r nr_proc response_size 0 k

      rest : List Send
      rest = farewells pads r nr_proc response_size

      said : Said r response_size d 0 rest
      said = farewells-Said d other ltd

      to_self : to_rank r (first ++ rest) ≡ to_rank r rest
      to_self =
          to_rank-append r first rest
          ∙ ap (λ l. l ++ to_rank r rest)
              (requests-remote pads r nr_proc response_size hr hs 0 k lt
                (omega (arith, lt, ltd, other)))

  -- The answers that it has taken.
  checked :
      (i k : ℕ) (answers : List Answer) {ms : List Send}
      → compute_from pads r nr_proc response_size i k answers ≡ sent ms
      → take k answers ≡ expected_from response_size i k
  unfolding compute_from
  checked i zero answers h = refl
  checked i (suc k) [] h = cc
  checked i (suc k) ((request_id, size) ∷ answers) {ms} h =
      elim (Bool-cases (request_id == i % 2 ^ 32)) [
        | inr wrong ↦ cc (h, wrong)
        | inl id_is ↦ elim (Bool-cases (size == response_size)) [
          | inr wrong ↦ ground (arith, h, id_is, wrong)
          | inl size_is ↦
              let (ms', e, split) =
                prepend_sent (request_of pads r nr_proc response_size i)
                  (compute_from pads r nr_proc response_size (i + 1) k answers) {ms = ms}
                  (ground (arith, h, id_is, size_is)) in
              let a : request_id ≡ i % 2 ^ 32 = ground (arith, id_is) in
              let b : size ≡ response_size = ground (arith, size_is) in
              cc (a, b, checked (i + 1) k answers e)
        ]
      ]

-- In a process of at most 2^32, with a response size below 2^64 and another process `d`: the
-- compute thread finishes exactly if the first answers that it gets, one for each of its requests,
-- carry the ids of its requests in order and the configured size. Then the first messages that it
-- has sent carry, in order, the type, id, key, rank and size of its requests, the receivers judge
-- exactly these as requests, none of them went to its own process, its own process got one
-- LOCAL_DONE, and process `d` one STOP and no request after it.
pub compute_thread_finishes :
    (pads : Pads) (r nr_proc response_size k d : ℕ) (answers : List Answer)
    → r < nr_proc
    → nr_proc ≤ 2 ^ 32
    → response_size < 2 ^ 64
    → d < nr_proc
    → d ≢ r
    → (take k answers ≡ expected_from response_size 0 k) ↔ (
        (ms : List Send) × (compute_thread_main pads r nr_proc response_size k answers ≡ sent ms)
        × Said r response_size d k ms)
unfolding compute_thread_main
compute_thread_finishes pads r nr_proc response_size k d answers lt few hs ltd other = (
  λ e. (
    _,
    compute_thread_main-expected_from pads r nr_proc response_size k answers e,
    sends-Said pads r nr_proc response_size (omega (arith, lt, few)) hs d k lt other ltd,
  ),
  λ (ms, e, said). checked pads r nr_proc response_size (omega (arith, lt, few)) hs 0 k answers e,
)
