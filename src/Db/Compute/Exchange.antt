-- ===== src/Db/Compute/Exchange.antt =====
-- One request and its response, from the compute thread over the handler of another process and back.
use rp_maksym_zaveriukha.Base.{
  ℕ, zero, suc, ◌+◌, ◌%◌, ◌^◌, ◌<◌, ◌≡◌, ◌∙◌, sym, ap, refl, List, [], ◌∷◌, ◌++◌, some, arith,
  ==_refl, take, none, ltb, if◌then◌else◌,
}
use mathlib.Core.List.{append-nil}
use rp_maksym_zaveriukha.Db.Message.{
  MessageHeader, Padding, header_bytes, header_size, read_header, send_request, send_response,
  response_bytes, msg_request,
}
use rp_maksym_zaveriukha.Db.Message.RoundTrip.{read_header-header_bytes}
use rp_maksym_zaveriukha.Db.Compute.{
  Answer, Send, sent, request_of, farewells, compute_from, compute_thread_main, handle_request,
  Pads, responds, overruns, answer_to,
}

send_response_lem :
    (pad : Padding) (source_rank request_id key size : ℕ)
    → size < 2 ^ 64
    → send_response pad source_rank request_id key size ≡ (
        if ltb (header_size + size) (2 ^ 64)
        then some (response_bytes pad source_rank request_id key size)
        else none)
unfolding send_response
send_response_lem pad source_rank request_id key size h = ground arith

answered :
    (pad : Padding) (to source_rank request_id key size : ℕ)
    → size < 2 ^ 64
    → answer_to to (send_response pad source_rank request_id key size) ≡ (
        if ltb (header_size + size) (2 ^ 64)
        then responds (to, response_bytes pad source_rank request_id key size)
        else overruns)
answered pad to source_rank request_id key size h =
    ap (answer_to to) (send_response_lem pad source_rank request_id key size h) ∙ ground arith

-- The request handler treats a request that send_request has built, for fields that fit their C
-- types, as follows: where 24 and the size stay below 2^64, it sends exactly one response, to the
-- process that asked, with the request's id, key and size, and its own rank as the source; for the
-- sizes where the sum wraps, send_response writes past its buffer.
pub handle_request-send_request :
    (pad pad' : Padding) (responder source_rank request_id key size : ℕ)
    → source_rank < 2 ^ 32
    → request_id < 2 ^ 32
    → key < 2 ^ 32
    → size < 2 ^ 64
    → handle_request pad responder (send_request pad' source_rank request_id key size) header_size
      ≡ (if ltb (header_size + size) (2 ^ 64)
          then responds (source_rank, response_bytes pad responder request_id key size)
          else overruns)
unfolding handle_request send_request
handle_request-send_request pad pad' responder source_rank request_id key size r i k s = ground (
  arith,
  ap read_header (sym (append-nil (header_bytes pad' h)))
      ∙ (read_header-header_bytes pad' h [] (omega arith)).1,
  answered pad source_rank responder request_id key size s,
)
  where
    h : MessageHeader
    h = record {
      type = msg_request;
      request_id = request_id;
      source_rank = source_rank;
      key = key;
      response_size = size;
    }

-- The answers that the compute thread expects, from request `i` on.
abbrev pub expected_from : (response_size i k : ℕ) → List Answer
expected_from response_size i zero = []
expected_from response_size i (suc k) =
    (i % 2 ^ 32, response_size) ∷ expected_from response_size (i + 1) k

abbrev pub requests_from : Pads → (rank nr_proc response_size i k : ℕ) → List Send
requests_from pads rank nr_proc response_size i zero = []
requests_from pads rank nr_proc response_size i (suc k) =
    request_of pads rank nr_proc response_size i
    ∷ requests_from pads rank nr_proc response_size (i + 1) k

-- The compute thread goes on to its end if the answers begin with those that it expects.
pub compute_from_expected :
    (pads : Pads) (rank nr_proc response_size i k : ℕ) (answers : List Answer)
    → take k answers ≡ expected_from response_size i k
    → compute_from pads rank nr_proc response_size i k answers
      ≡ sent (
          requests_from pads rank nr_proc response_size i k
          ++ farewells pads rank nr_proc response_size)
unfolding compute_from
compute_from_expected pads rank nr_proc response_size i zero answers h = refl
compute_from_expected pads rank nr_proc response_size i (suc k) [] h = cc
compute_from_expected pads rank nr_proc response_size i (suc k) ((request_id, size) ∷ answers) h =
    let id_is : request_id ≡ i % 2 ^ 32 = cc in
    let size_is : size ≡ response_size = cc in
    let more : take k answers ≡ expected_from response_size (i + 1) k = cc in
    rw (
      id_is,
      size_is,
      ==_refl (i % 2 ^ 32),
      ==_refl response_size,
      compute_from_expected pads rank nr_proc response_size (i + 1) k answers more,
    )

pub compute_thread_main-expected_from :
    (pads : Pads) (rank nr_proc response_size requests : ℕ) (answers : List Answer)
    → take requests answers ≡ expected_from response_size 0 requests
    → compute_thread_main pads rank nr_proc response_size requests answers
      ≡ sent (
          requests_from pads rank nr_proc response_size 0 requests
          ++ farewells pads rank nr_proc response_size)
unfolding compute_thread_main
compute_thread_main-expected_from pads rank nr_proc response_size requests answers h =
    compute_from_expected pads rank nr_proc response_size 0 requests answers h
