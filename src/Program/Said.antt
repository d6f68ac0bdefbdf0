-- ===== src/Program/Said.antt =====
-- What a compute thread says to the others: the requests.
use mathlib.Core.List.{append-nil}
use rp_maksym_zaveriukha.Base.{
  ℕ, zero, suc, ◌+◌, ◌<◌, ◌≤◌, ◌≡◌, ◌^◌, ◌%◌, ◌*◌, map, List, [], ◌∷◌, ◌++◌, arith, refl, sym, ap,
  ◌∙◌, take,
}
use rp_maksym_zaveriukha.Db.Message.{
  MessageHeader, Padding, header_bytes, read_header, send_request, msg_request,
}
use rp_maksym_zaveriukha.Db.Message.RoundTrip.{read_header-header_bytes}
use rp_maksym_zaveriukha.Db.Compute.{Pads, Send, key_of, request_of}
use rp_maksym_zaveriukha.Db.Compute.Target.{target_is_remote}
use rp_maksym_zaveriukha.Db.Compute.Exchange.{requests_from}
use rp_maksym_zaveriukha.Program.{to_rank, messages, stops, requests, dones}
use rp_maksym_zaveriukha.Program.Counts.{late}
use rp_maksym_zaveriukha.Program.Judged.{verdict-send_request}

pub messages-append : (xs ys : List Send) → messages (xs ++ ys) ≡ messages xs ++ messages ys
messages-append [] ys = refl
messages-append ((d, m) ∷ xs) ys = ap (λ l. m ∷ l) (messages-append xs ys)

-- The headers of the requests of process `r` from the number `i` on, `k` of them.
abbrev pub request_headers : (r response_size i k : ℕ) → List MessageHeader
request_headers r response_size i zero = []
request_headers r response_size i (suc k) =
    record {
      type = msg_request;
      request_id = i % 2 ^ 32;
      source_rank = r;
      key = (r * 1000000 + i) % 2 ^ 32;
      response_size = response_size;
    }
    ∷ request_headers r response_size (i + 1) k

-- What a compute thread of process `r` has sent at its end, as the other processes judge it: first `k`
-- messages with the headers of its requests, no other request, none to itself, one LOCAL_DONE to itself, one STOP to process `d` and no request there after it.
pub record Said (r response_size d k : ℕ) (ms : List Send) : Type 0 where
  pub headed : map read_header (take k (messages ms)) ≡ request_headers r response_size 0 k
  pub asked : requests (messages ms) ≡ k
  pub remote : requests (to_rank r ms) ≡ 0
  pub done : dones (to_rank r ms) ≡ 1
  pub stopped : stops (to_rank d ms) ≡ 1
  pub ordered : late (to_rank d ms) ≡ 0

module _ (pads : Pads) (r nr_proc response_size : ℕ) (hr : r < 2 ^ 32)
    (hs : response_size < 2 ^ 64) where
  pub requests-asked :
      (i k : ℕ) → requests (messages (requests_from pads r nr_proc response_size i k)) ≡ k
  unfolding request_of key_of
  requests-asked i zero = refl
  requests-asked i (suc k) = ground (
    arith,
    requests-asked (i + 1) k,
    verdict-send_request (pads.request i) r (i % 2 ^ 32) (key_of r i) response_size hr (omega arith)
        (omega arith) hs,
  )

  read_header-send_request :
      (pad : Padding) (request_id key : ℕ)
      → request_id < 2 ^ 32
      → key < 2 ^ 32
      → read_header (send_request pad r request_id key response_size) ≡ record {
        type = msg_request;
        request_id = request_id;
        source_rank = r;
        key = key;
        response_size = response_size;
      }
  unfolding send_request
  read_header-send_request pad request_id key hi hk =
      ap read_header (sym (append-nil (header_bytes pad h)))
      ∙ (read_header-header_bytes pad h [] (record {
        type = omega arith;
        request_id = hi;
        source_rank = hr;
        key = hk;
        response_size = hs;
      })).1
    where
      h : MessageHeader
      h = record {
        type = msg_request;
        request_id = request_id;
        source_rank = r;
        key = key;
        response_size = response_size;
      }

  pub requests-headed :
      (i k : ℕ) (rest : List (List ℕ))
      → map read_header (take k (messages (requests_from pads r nr_proc response_size i k) ++ rest))
        ≡ request_headers r response_size i k
  unfolding request_of key_of
  requests-headed i zero rest = refl
  requests-headed i (suc k) rest = rw (
    read_header-send_request (pads.request i) (i % 2 ^ 32) ((r * 1000000 + i) % 2 ^ 32)
        (omega arith) (omega arith),
    requests-headed (i + 1) k rest,
  )

  pub requests-remote :
      (i k : ℕ)
      → r < nr_proc
      → 2 ≤ nr_proc
      → to_rank r (requests_from pads r nr_proc response_size i k) ≡ []
  unfolding request_of
  requests-remote i zero lt two = refl
  requests-remote i (suc k) lt two =
      ground (arith, requests-remote (i + 1) k lt two, target_is_remote r nr_proc i lt two)
