-- ===== src/EzQueue.antt =====
-- The growing ring buffer of pointers of src/libs/ezqueue/ezqueue.c.
pub mod Contents
pub mod Fifo
pub mod Resize
pub mod Append
pub mod Take
pub mod Refine
pub mod Run
pub mod Life
mod Tests
use multithreaded_c_server.Common.{
  ℕ, zero, suc, ◌+◌, ◌-◌, ◌*◌, ◌/◌, ◌%◌, ◌<◌, ◌≡◌, Bool, true, false, not, ◌&&◌, ◌||◌, Option, none,
  some, List, [], ◌∷◌, ltb, ◌==◌, if◌then◌else◌, Ptr, Malloc, null, ℤ, success, failure, is_zero,
  uint16_max, to_uint16, ◌>>=◌, load, store,
}

-- `ezqueue_t`. `pp_buf` is the block, with the contents of each slot; NULL is the empty list.
pub record EzQueue : Type 0 where
  pub pp_buf : List Ptr
  pub num_items : ℕ
  pub max_items : ℕ
  pub idx_head : ℕ
  pub idx_tail : ℕ

-- `(uint16_t)-1`, the index that an empty queue keeps.
abbrev pub no_index : ℕ
no_index = uint16_max

-- `malloc` is what the call of malloc returns, for the number of slots asked for. An operation on
-- `p_ezqueue` takes NULL as `none` and returns the object's new state beside its result.
pub init : Malloc Ptr → Option EzQueue → ℕ → ℤ × Option EzQueue
init malloc none max_items = (failure, none)
init malloc (some q) max_items =
    if max_items == 0 then (failure, some q) else elim (malloc max_items) [
      | none ↦ (failure, some q)
      | some p_buf ↦ (
        success,
        some (record {
          pp_buf = p_buf;
          num_items = 0;
          max_items = max_items;
          idx_head = no_index;
          idx_tail = no_index;
        }),
      )
    ]

pub deinit : Option EzQueue → ℤ × Option EzQueue
deinit none = (failure, none)
deinit (some q) = (
  success,
  some (record {
    pp_buf = [];
    num_items = 0;
    max_items = 0;
    idx_head = no_index;
    idx_tail = no_index;
  }),
)

-- The size after a resize. The product is computed in `int` and kept in a `uint16_t`.
unfoldable pub grown : ℕ → ℕ
grown max_items = if ltb (uint16_max / 2) max_items then uint16_max else to_uint16 (max_items * 2)

-- The copying loop of `ezq_resize`, from `idx` on, with `k` rounds left.
unfoldable pub copy_items : EzQueue → (k idx : ℕ) → List Ptr → Option (List Ptr)
copy_items q zero idx p_new = some p_new
copy_items q (suc k) idx p_new = do
  item ← load q.pp_buf ((q.idx_head + idx) % q.max_items)
  p_new' ← store p_new idx item
  copy_items q k (idx + 1) p_new'

pub resize : Malloc Ptr → EzQueue → Option (ℤ × EzQueue)
resize malloc q =
    if q.max_items == uint16_max then some (failure, q) else elim (malloc (grown q.max_items)) [
      | none ↦ some (failure, q)
      | some p_new ↦ copy_items q q.num_items 0 p_new >>= λ p_new'. some (
        success,
        record q {
          pp_buf = p_new';
          max_items = grown q.max_items;
          idx_head = 0;
          idx_tail = to_uint16 (q.num_items + uint16_max);
        },
      )
    ]

pub make_room : Malloc Ptr → EzQueue → Option (ℤ × EzQueue)
unfolding resize
make_room malloc q = if q.num_items == q.max_items then resize malloc q else some (success, q)

-- The part of `ezq_enqueue` behind the resize: move the tail on and write there.
pub append_item : EzQueue → Ptr → Option (ℤ × EzQueue)
append_item q item =
    let tail = if q.num_items == 0 then 0 else (q.idx_tail + 1) % q.max_items in
    let head = if q.num_items == 0 then 0 else q.idx_head in
    store q.pp_buf tail item >>= λ pp_buf. some (
      success,
      record q {
        pp_buf = pp_buf;
        num_items = to_uint16 (q.num_items + 1);
        idx_head = head;
        idx_tail = tail;
      },
    )

pub enqueue_object : Malloc Ptr → EzQueue → Ptr → Option (ℤ × EzQueue)
unfolding make_room append_item
enqueue_object malloc q item = do
  (res, q') ← make_room malloc q
  if is_zero res then append_item q' item else some (res, q')

pub enqueue : Malloc Ptr → Option EzQueue → Ptr → Option (ℤ × Option EzQueue)
unfolding enqueue_object
enqueue malloc none item = some (failure, none)
enqueue malloc (some q) item = do (res, q') ← enqueue_object malloc q item; some (res, some q')

-- The queue once its head is taken off.
pub drop_head : EzQueue → EzQueue
drop_head q =
    if q.num_items == 1
    then record q { num_items = 0; idx_head = no_index; idx_tail = no_index }
    else record q {
      num_items = to_uint16 (q.num_items + uint16_max);
      idx_head = (q.idx_head + 1) % q.max_items;
    }

pub dequeue_object : EzQueue → Ptr → Option (ℤ × EzQueue × Ptr)
unfolding drop_head
dequeue_object q out =
    if q.num_items == 0
    then some (failure, q, out)
    else load q.pp_buf q.idx_head >>= λ item. some (success, drop_head q, item)

-- `pp_out` is NULL, or holds the value of `*pp_out`.
pub dequeue : Option EzQueue → Option Ptr → Option (ℤ × Option EzQueue × Option Ptr)
unfolding dequeue_object
dequeue none out = some (failure, none, out)
dequeue (some q) none = some (failure, some q, none)
dequeue (some q) (some out) = do
  (res, q', item) ← dequeue_object q out
  some (res, some q', some item)

-- `free_func` is NULL or acts on a state `S` of its own. The loop has `fuel` rounds.
module _ {S : Type 0} (free_func : Option (Ptr → S → S)) where
  pub release : Ptr → S → S
  release item s = elim free_func [ none ↦ s | some f ↦ if item == null then s else f item s ]

  pub clear_loop : ℕ → EzQueue → S → Option (EzQueue × S)
  unfolding dequeue_object release
  clear_loop zero q s = none
  clear_loop (suc fuel) q s =
      if ltb 0 q.num_items
      then (dequeue_object q null >>= λ next. clear_loop fuel next.1 (release next.2 s))
      else some (q, s)

  pub clear : Option EzQueue → S → Option (ℤ × Option EzQueue × S)
  unfolding clear_loop
  clear none s = some (failure, none, s)
  clear (some q) s = do (q', s') ← clear_loop (suc q.num_items) q s; some (success, some q', s')
