-- ===== src/Db/Queue/Contents.antt =====
-- The items that a queue holds, oldest first, and what push and pop do to them under the mutex.
use rp_maksym_zaveriukha.Base.{
  ℕ, zero, suc, ◌+◌, ◌-◌, ◌%◌, ◌≤◌, ◌<◌, ◌≡◌, ap, false, List, [], ◌∷◌, ◌++◌, arith, length, get_or,
  set, length-set, get_or-set_self, get_or-set_ne,
}
use rp_maksym_zaveriukha.Db.Queue.{
  QueueItem, RequestQueue, request_queue_capacity, no_item, next, PushPc, PopPc, request_queue_push,
  request_queue_pop,
}

-- The `n` items from index `h` on, going round at the end of the array.
abbrev pub window : List QueueItem → ℕ → ℕ → List QueueItem
window items h zero = []
window items h (suc n) = get_or items h no_item ∷ window items ((h + 1) % request_queue_capacity) n

abbrev pub contents : RequestQueue → List QueueItem
contents q = window q.items q.head q.count

-- The array has its size, the indices lie in it, and `tail` is where the window ends.
pub record IsValid (q : RequestQueue) : Type 0 where
  pub storage : length q.items ≡ request_queue_capacity
  pub head_in : q.head < request_queue_capacity
  pub fits : q.count ≤ request_queue_capacity
  pub ends : q.tail ≡ (q.head + q.count) % request_queue_capacity

-- A write just past the window lengthens it by that item.
pub window-set :
    (items : List QueueItem) (x : QueueItem) (n h i : ℕ)
    → length items ≡ request_queue_capacity
    → h < request_queue_capacity
    → n < request_queue_capacity
    → i ≡ (h + n) % request_queue_capacity
    → window (set items i x) h (suc n) ≡ window items h n ++ (x ∷ [])
window-set items x zero h i hs hh hn e = ground (arith, get_or-set_self items h x no_item)
window-set items x (suc n) h i hs hh hn e = ground (
  arith,
  get_or-set_ne items {i = i} {j = h} x no_item,
  window-set items x n ((h + 1) % request_queue_capacity) i,
)

-- What the locked section of push makes of a valid queue that is open and has room.
pub push_locked :
    (item : QueueItem) (q : RequestQueue)
    → IsValid q
    → q.closed ≡ false
    → q.count < request_queue_capacity
    → (q' : RequestQueue) × (request_queue_push item PushPc.locked q ≡ next q' PushPc.post_item)
      × IsValid q'
      × (contents q' ≡ contents q ++ (item ∷ []))
unfolding request_queue_push
push_locked item q v c h = (
  record q {
    items = set q.items q.tail item;
    tail = (q.tail + 1) % request_queue_capacity;
    count = q.count + 1;
  },
  rw c,
  ground (arith, length-set q.items q.tail item),
  ground (arith, window-set q.items item q.count q.head q.tail),
)

-- `window` matches on `suc`, the code tests `count > 0`.
pub window_of_pos :
    (items : List QueueItem) (h n : ℕ)
    → 0 < n
    → window items h n
      ≡ get_or items h no_item ∷ window items ((h + 1) % request_queue_capacity) (n - 1)
window_of_pos items h zero p = absurd (omega arith)
window_of_pos items h (suc n) p = ap (λ k. window items h (suc k)) (omega arith)

-- What the locked section of pop makes of a valid queue that is not empty.
pub pop_locked :
    (q : RequestQueue)
    → IsValid q
    → 0 < q.count
    → (q' : RequestQueue) × (item : QueueItem) × (request_queue_pop PopPc.locked q
        ≡ next q' (PopPc.post_space item))
      × IsValid q'
      × (contents q ≡ item ∷ contents q')
unfolding request_queue_pop
pop_locked q v h = (
  record q { head = (q.head + 1) % request_queue_capacity; count = q.count - 1 },
  get_or q.items q.head no_item,
  ground arith,
  ground arith,
  ground (arith, window_of_pos q.items q.head q.count h),
)
