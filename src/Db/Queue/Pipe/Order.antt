-- ===== src/Db/Queue/Pipe/Order.antt =====
-- The invariant of the queue and its two threads: first in, first out, without loss or overwriting.
use mathlib.Core.List.{append_assoc, append-nil}
use rp_maksym_zaveriukha.Base.{
  ℕ, ◌+◌, ◌<◌, ◌≡◌, ◌≢◌, refl, Bool, true, false, List, [], ◌∷◌, ◌++◌, Option, none, some, arith,
  length, length-set,
}
use rp_maksym_zaveriukha.Db.Queue.{
  QueueItem, request_queue_capacity, PushPc, PopPc, ClosePc, request_queue_push, request_queue_pop,
  request_queue_close,
}
use rp_maksym_zaveriukha.Db.Queue.Contents.{IsValid, contents, window-set, window_of_pos}
use rp_maksym_zaveriukha.Db.Queue.Pipe.{
  Pipe, Producer, ready, pushing, closing, finished, Consumer, popping, stopped, Move, offer, shut,
  ask, produce, consume, producer_step, consumer_step, pipe_step, run, pipe_start,
}

-- A space taken and not yet filled; an item put in and not yet announced.
abbrev pub wants : Producer → ℕ
wants (pushing item PushPc.locked) = 1
wants (pushing item PushPc.give_back) = 1
wants _ = 0

abbrev pub posts : Producer → ℕ
posts (pushing item PushPc.post_item) = 1
posts _ = 0

-- An announcement taken; a space emptied and not yet announced; the item in hand.
abbrev pub holds : Consumer → ℕ
holds (popping PopPc.locked) = 1
holds _ = 0

abbrev pub returns : Consumer → ℕ
returns (popping (PopPc.post_space item)) = 1
returns _ = 0

abbrev pub in_hand : Consumer → List QueueItem
in_hand (popping (PopPc.post_space item)) = item ∷ []
in_hand _ = []

-- The announcement of request_queue_close, until the consumer stops on it.
abbrev pub farewell : Producer → Consumer → ℕ
farewell finished stopped = 0
farewell finished _ = 1
farewell _ _ = 0

abbrev pub has_closed : Producer → Bool
has_closed (closing ClosePc.post) = true
has_closed finished = true
has_closed _ = false

pub record Fifo (p : Pipe) : Type 0 where
  pub valid : IsValid p.queue
  pub order : p.accepted ≡ p.taken ++ (in_hand p.consumer ++ contents p.queue)
  pub spaces :
      p.queue.spaces_sem + p.queue.count + wants p.producer + returns p.consumer
      ≡ request_queue_capacity
  pub announced :
      p.queue.items_sem + posts p.producer + holds p.consumer
      ≡ p.queue.count + farewell p.producer p.consumer
  pub closes : p.queue.closed ≡ has_closed p.producer
  pub drained : p.consumer ≡ stopped → (p.producer ≡ finished) × (p.queue.count ≡ 0)

abbrev Kept : Option Pipe → Type 0
Kept none = Unit
Kept (some p) = Fifo p

producer_step-Fifo :
    (pr : Producer) (p : Pipe) → Fifo p → p.producer ≡ pr → Kept (producer_step pr p)
unfolding producer_step request_queue_push request_queue_close
producer_step-Fifo ready p f e = tt
producer_step-Fifo (pushing item PushPc.wait_space) p f e = ground arith
producer_step-Fifo (pushing item PushPc.locked) p f e = ground (
  arith,
  length-set p.queue.items p.queue.tail item,
  window-set p.queue.items item p.queue.count p.queue.head p.queue.tail,
  append_assoc p.taken (in_hand p.consumer ++ contents p.queue) (item ∷ []),
  append_assoc (in_hand p.consumer) (contents p.queue) (item ∷ []),
)
producer_step-Fifo (pushing item PushPc.give_back) p f e = ground arith
producer_step-Fifo (pushing item PushPc.post_item) p f e = ground arith
producer_step-Fifo (closing ClosePc.mark) p f e = ground arith
producer_step-Fifo (closing ClosePc.post) p f e = ground arith
producer_step-Fifo finished p f e = tt

consumer_step-Fifo : (c : Consumer) (p : Pipe) → Fifo p → p.consumer ≡ c → Kept (consumer_step c p)
unfolding consumer_step request_queue_pop
consumer_step-Fifo Consumer.idle p f e = tt
consumer_step-Fifo (popping PopPc.wait_item) p f e = ground arith
consumer_step-Fifo (popping PopPc.locked) p f e =
    ground (arith, window_of_pos p.queue.items p.queue.head p.queue.count)
consumer_step-Fifo (popping (PopPc.post_space item)) p f e =
    ground (arith, append_assoc p.taken (item ∷ []) (contents p.queue))
consumer_step-Fifo stopped p f e = tt

pipe_step-Fifo : (m : Move) (p : Pipe) → Fifo p → Kept (pipe_step m p)
unfolding pipe_step
pipe_step-Fifo (offer item) p f = ground arith
pipe_step-Fifo shut p f = ground arith
pipe_step-Fifo ask p f = ground arith
pipe_step-Fifo produce p f = producer_step-Fifo p.producer p f refl
pipe_step-Fifo consume p f = consumer_step-Fifo p.consumer p f refl

-- Every schedule keeps the invariant.
pub run-Fifo : (ms : List Move) {p : Pipe} → Fifo p → Fifo (run ms p)
unfolding run
run-Fifo [] f = f
run-Fifo (m ∷ ms) {p} f = run-Fifo ms (settle (pipe_step m p) (pipe_step-Fifo m p f))
  where
    settle : (o : Option Pipe) → Kept o → Fifo (elim o [ none ↦ p | some p' ↦ p' ])
    settle none k = f
    settle (some p') k = k

pub pipe_start-Fifo :
    (items : List QueueItem) → length items ≡ request_queue_capacity → Fifo (pipe_start items)
unfolding pipe_start
pipe_start-Fifo items h = ground arith

drained_order :
    (p : Pipe) → Fifo p → p.consumer ≡ stopped → (p.producer ≡ finished) × (p.taken ≡ p.accepted)
drained_order p f e = ground (arith, append-nil p.taken)

asleep :
    (p : Pipe)
    → Fifo p
    → p.consumer ≡ popping PopPc.wait_item
    → p.queue.items_sem ≡ 0
    → posts p.producer ≡ 0
    → p.producer ≢ closing ClosePc.post
    → (p.queue.count ≡ 0) × (p.queue.closed ≡ false)
asleep p f e h k g = ground arith

module _ (ms : List Move) (items : List QueueItem)
    (storage : length items ≡ request_queue_capacity) where
  fifo : Fifo (run ms (pipe_start items))
  fifo = run-Fifo ms (pipe_start-Fifo items storage)

  -- From an empty queue over an array of 1024 items, and for every schedule of the receiver's
  -- pushes and close and the handler's pops: what request_queue_pop has returned, then the item it
  -- is about to return, then the items in the ring, are in order exactly the items that
  -- request_queue_push has taken.
  pub pipe_order :
      (run ms (pipe_start items)).accepted
      ≡ (run ms (pipe_start items)).taken
        ++ (in_hand (run ms (pipe_start items)).consumer
            ++ contents (run ms (pipe_start items)).queue)
  pipe_order = fifo.order

  -- From an empty queue over an array of 1024 items and for every schedule of the receiver's pushes
  -- and close and the handler's pops, once request_queue_pop has told the handler to stop,
  -- request_queue_close has returned and every item that was taken has been returned by
  -- request_queue_pop, in order.
  pub stop_means_drained :
      (run ms (pipe_start items)).consumer ≡ stopped
      → ((run ms (pipe_start items)).producer ≡ finished)
        × ((run ms (pipe_start items)).taken ≡ (run ms (pipe_start items)).accepted)
  stop_means_drained e = drained_order (run ms (pipe_start items)) fifo e

  -- From an empty queue over an array of 1024 items and for every schedule of the receiver's pushes
  -- and close and the handler's pops, where the handler waits for an item, none is announced, and
  -- the receiver is not about to announce an item or the end, the ring is empty and not closed.
  pub no_lost_wakeup :
      (run ms (pipe_start items)).consumer ≡ popping PopPc.wait_item
      → (run ms (pipe_start items)).queue.items_sem ≡ 0
      → (posts (run ms (pipe_start items)).producer ≡ 0)
      → ((run ms (pipe_start items)).producer ≢ closing ClosePc.post)
      → ((run ms (pipe_start items)).queue.count ≡ 0)
        × ((run ms (pipe_start items)).queue.closed ≡ false)
  no_lost_wakeup e h k g = asleep (run ms (pipe_start items)) fifo e h k g

  -- From an empty queue over an array of 1024 items and for every schedule of the receiver's pushes
  -- and close and the handler's pops, when request_queue_push has taken a space and is about to
  -- write its item, the ring holds fewer than 1024 items.
  pub room_for_push :
      (item : QueueItem)
      → (run ms (pipe_start items)).producer ≡ pushing item PushPc.locked
      → (run ms (pipe_start items)).queue.count < request_queue_capacity
  room_for_push item e = ground (arith, fifo)
