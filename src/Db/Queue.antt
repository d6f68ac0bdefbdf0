-- ===== src/Db/Queue.antt =====
-- The request queue of rpBenchmark2/main.c: a ring of REQUEST_QUEUE_CAPACITY items under a mutex, with
-- two counting semaphores. Each function is a sequence of atomic steps: a semaphore operation, or the
-- section under the mutex.
pub mod Contents
pub mod Pipe
use rp_maksym_zaveriukha.Base.{
  ℕ, ◌+◌, ◌-◌, ◌%◌, ◌==◌, ltb, Bool, true, false, List, Option, none, some, get_or, set, replicate,
  if◌then◌else◌,
}

-- REQUEST_QUEUE_CAPACITY
abbrev pub request_queue_capacity : ℕ
request_queue_capacity = 1024

-- The bytes that `msg` points to, and `size`.
pub record QueueItem : Type 0 where
  pub msg : List ℕ
  pub size : ℕ

pub record RequestQueue : Type 0 where
  pub items : List QueueItem
  pub head : ℕ
  pub tail : ℕ
  pub count : ℕ
  pub closed : Bool
  pub items_sem : ℕ
  pub spaces_sem : ℕ

-- One atomic step: it goes on, returns, or waits for a semaphore.
pub data Progress (P R : Type 0) : Type 0 where
  next : RequestQueue → P → Progress P R
  returned : RequestQueue → R → Progress P R
  blocked : Progress P R

-- An item that was never written.
abbrev pub no_item : QueueItem
no_item = record { msg = List.[]; size = 0 }

-- `items` is the array as it stands in memory.
unfoldable pub request_queue_init : List QueueItem → RequestQueue
request_queue_init items = record {
  items = items;
  head = 0;
  tail = 0;
  count = 0;
  closed = false;
  items_sem = 0;
  spaces_sem = request_queue_capacity;
}

pub data PushPc : Type 0 where
  wait_space locked give_back post_item : PushPc

-- The result tells whether the item was taken; a closed queue frees the message.
unfoldable pub request_queue_push : QueueItem → PushPc → RequestQueue → Progress PushPc Bool
request_queue_push item wait_space q =
    if q.spaces_sem == 0 then blocked else next (record q { spaces_sem = q.spaces_sem - 1 }) locked
request_queue_push item locked q =
    if q.closed
    then next q give_back
    else next
        (record q {
          items = set q.items q.tail item;
          tail = (q.tail + 1) % request_queue_capacity;
          count = q.count + 1;
        })
        post_item
request_queue_push item give_back q = returned (record q { spaces_sem = q.spaces_sem + 1 }) false
request_queue_push item post_item q = returned (record q { items_sem = q.items_sem + 1 }) true

pub data PopPc : Type 0 where
  wait_item locked : PopPc
  post_space : QueueItem → PopPc

-- `none` is the return value 0, of a queue that is closed and empty.
unfoldable pub request_queue_pop : PopPc → RequestQueue → Progress PopPc (Option QueueItem)
request_queue_pop wait_item q =
    if q.items_sem == 0 then blocked else next (record q { items_sem = q.items_sem - 1 }) locked
request_queue_pop locked q =
    if ltb 0 q.count
    then next (record q { head = (q.head + 1) % request_queue_capacity; count = q.count - 1 })
        (post_space (get_or q.items q.head no_item))
    else if q.closed
    then returned q none
    else next q wait_item
request_queue_pop (post_space item) q =
    returned (record q { spaces_sem = q.spaces_sem + 1 }) (some item)

pub data ClosePc : Type 0 where
  mark post : ClosePc

unfoldable pub request_queue_close : ClosePc → RequestQueue → Progress ClosePc Unit
request_queue_close mark q = next (record q { closed = true }) post
request_queue_close post q = returned (record q { items_sem = q.items_sem + 1 }) tt
