-- ===== src/Db/Queue/Pipe.antt =====
-- The queue between its two threads in rpBenchmark2/main.c: receiver_thread_main pushes and at the
-- end closes, request_handler_thread_main pops until it is told to stop. Their steps are interleaved
-- in any order.
pub mod Order
use rp_maksym_zaveriukha.Base.{
  ℕ, Bool, true, false, List, [], ◌∷◌, ◌++◌, Option, none, some, if◌then◌else◌,
}
use rp_maksym_zaveriukha.Db.Queue.{
  QueueItem, RequestQueue, Progress, next, returned, blocked, PushPc, PopPc, ClosePc,
  request_queue_init, request_queue_push, request_queue_pop, request_queue_close,
}

pub data Producer : Type 0 where
  ready : Producer
  pushing : QueueItem → PushPc → Producer
  closing : ClosePc → Producer
  finished : Producer

pub data Consumer : Type 0 where
  idle : Consumer
  popping : PopPc → Consumer
  stopped : Consumer

-- `accepted` and `taken` record the items that went in and out, oldest first; no step reads them.
pub record Pipe : Type 0 where
  pub queue : RequestQueue
  pub producer : Producer
  pub consumer : Consumer
  pub accepted : List QueueItem
  pub taken : List QueueItem

pub data Move : Type 0 where
  offer : QueueItem → Move  -- the producer calls request_queue_push
  shut : Move  -- the producer calls request_queue_close
  ask : Move  -- the consumer calls request_queue_pop
  produce consume : Move  -- one atomic step of the call that is under way

abbrev pub accept : QueueItem → PushPc → Bool → List QueueItem → List QueueItem
accept item PushPc.locked false accepted = accepted ++ (item ∷ [])
accept item _ _ accepted = accepted

pub producer_step : Producer → Pipe → Option Pipe
producer_step ready p = none
producer_step (pushing item pc) p = elim (request_queue_push item pc p.queue) [
  | next q pc' ↦ some (record p {
    queue = q;
    producer = pushing item pc';
    accepted = accept item pc p.queue.closed p.accepted;
  })
  | returned q _ ↦ some (record p { queue = q; producer = ready })
  | blocked ↦ none
]
producer_step (closing pc) p = elim (request_queue_close pc p.queue) [
  | next q pc' ↦ some (record p { queue = q; producer = closing pc' })
  | returned q _ ↦ some (record p { queue = q; producer = finished })
  | blocked ↦ none
]
producer_step finished p = none

abbrev pub after_pop : Option QueueItem → RequestQueue → Pipe → Pipe
after_pop none q p = record p { queue = q; consumer = stopped }
after_pop (some item) q p = record p { queue = q; consumer = idle; taken = p.taken ++ (item ∷ []) }

pub consumer_step : Consumer → Pipe → Option Pipe
consumer_step idle p = none
consumer_step (popping pc) p = elim (request_queue_pop pc p.queue) [
  | next q pc' ↦ some (record p { queue = q; consumer = popping pc' })
  | returned q r ↦ some (after_pop r q p)
  | blocked ↦ none
]
consumer_step stopped p = none

abbrev pub begin_push : QueueItem → Producer → Pipe → Option Pipe
begin_push item ready p = some (record p { producer = pushing item PushPc.wait_space })
begin_push item _ p = none

abbrev pub begin_close : Producer → Pipe → Option Pipe
begin_close ready p = some (record p { producer = closing ClosePc.mark })
begin_close _ p = none

abbrev pub begin_pop : Consumer → Pipe → Option Pipe
begin_pop idle p = some (record p { consumer = popping PopPc.wait_item })
begin_pop _ p = none

-- `none` where the thread cannot make that move now.
unfoldable pub pipe_step : Move → Pipe → Option Pipe
unfolding producer_step consumer_step
pipe_step (offer item) p = begin_push item p.producer p
pipe_step shut p = begin_close p.producer p
pipe_step ask p = begin_pop p.consumer p
pipe_step produce p = producer_step p.producer p
pipe_step consume p = consumer_step p.consumer p

-- A schedule, from the first move on; moves that cannot be made are passed over.
unfoldable pub run : List Move → Pipe → Pipe
unfolding pipe_step
run [] p = p
run (m ∷ ms) p = run ms (elim (pipe_step m p) [ none ↦ p | some p' ↦ p' ])

unfoldable pub pipe_start : List QueueItem → Pipe
unfolding request_queue_init
pipe_start items = record {
  queue = request_queue_init items;
  producer = ready;
  consumer = idle;
  accepted = [];
  taken = [];
}
