-- ===== src/ConnMgr.antt =====
-- The connection manager of src/libs/connmgr/connmgr.c: the connections, an entry for poll for
-- each of them, and a queue of the connections to come. Logging and locks are left out.
pub mod Update
pub mod Step
pub mod Add
pub mod Remove
pub mod Create
pub mod Together
pub mod Destroy
pub mod Start
pub mod Tests
use multithreaded_c_server.Common.{
  ℕ, zero, suc, ◌+◌, ◌*◌, ◌/◌, Bool, true, false, not, ◌||◌, Option, none, some, List, [], ◌∷◌, ltb,
  ◌==◌, if◌then◌else◌, Ptr, null, Malloc, Realloc, ℤ, pos, negsuc, success, failure, is_zero,
  is_some, get_or_else, uint16_max, to_uint16, ◌>>=◌, store, replicate, Byte,
}
use multithreaded_c_server.Compact.{compact_loop}
use multithreaded_c_server.Conn.{
  Conn, ConnType, internal_conn, inbound_conn, read_header, special_conn, header_size,
}
use multithreaded_c_server.EzArray
use multithreaded_c_server.EzArray.{EzArray, push, set_at, get_at, compact}
use multithreaded_c_server.EzQueue
use multithreaded_c_server.EzQueue.{EzQueue, enqueue, dequeue, clear}

-- `struct pollfd`
pub record PollFd : Type 0 where
  pub fd : ℤ
  pub events : ℕ
  pub revents : ℕ

-- An entry of zero bytes.
abbrev pub no_poll : PollFd
no_poll = record { fd = pos 0; events = 0; revents = 0 }

-- `conn_mgr_t`. The containers are the objects that the pointers lead to.
pub record ConnMgr : Type 0 where
  pub p_conns : Option EzArray
  pub p_pfds : List PollFd
  pub p_new_conns : Option EzQueue
  pub max_conns : ℕ
  pub num_active_conns : ℕ

-- The connection contexts on the heap, by address; the descriptors closed, the latest first; and
-- the contexts whose two buffers were freed and whose mutex was destroyed, by address, the latest
-- first.
pub record World : Type 0 where
  pub contexts : Ptr → Option Conn
  pub closed : List ℤ
  pub destroyed : List Ptr

-- The heap after a write, or a call of free, at an address.
abbrev pub update : (Ptr → Option Conn) → Ptr → Option Conn → Ptr → Option Conn
update contexts p c p' = if p' == p then c else contexts p'

-- What the allocations of `connmgr_init` return: two objects with what they hold, and three blocks.
pub record InitMemory : Type 0 where
  pub conns : Option EzArray
  pub conn_slots : Malloc Ptr
  pub pfds : Malloc PollFd
  pub queue : Option EzQueue
  pub queue_slots : Malloc Ptr

pub init_object : InitMemory → ConnMgr → ℕ → ℤ × ConnMgr
init_object memory mgr n =
    let (made, conns) = EzArray.init memory.conn_slots memory.conns n in
    let (queued, queue) = EzQueue.init memory.queue_slots memory.queue n in
    if is_zero made
    then elim (memory.pfds n) [
      | none ↦ (failure, mgr)
      | some block ↦
          if is_zero queued
          then (
            success,
            record {
              p_conns = conns;
              p_pfds = replicate n no_poll;
              p_new_conns = queue;
              max_conns = n;
              num_active_conns = 0;
            },
          )
          else (failure, mgr)
    ]
    else (failure, mgr)

unfoldable pub init : InitMemory → Option ConnMgr → ℕ → ℤ × Option ConnMgr
unfolding init_object
init memory none n = (failure, none)
init memory (some mgr) n =
    if n == 0
    then (failure, some mgr)
    else let (res, mgr') = init_object memory mgr n in (res, some mgr')

pub deinit : Option ConnMgr → ℤ × Option ConnMgr
deinit none = (failure, none)
deinit (some mgr) = (success, some (record mgr { p_conns = none; p_pfds = []; p_new_conns = none }))

abbrev pub is_inbound : ConnType → Bool
is_inbound inbound_conn = true
is_inbound internal_conn = false

-- `connmgr_destroy_conn`: a context that is not on the heap any more is undefined behaviour.
pub destroy_conn : Ptr → World → Option World
destroy_conn p w =
    if p == null
    then some w
    else (w.contexts p >>= λ c. some (record w {
      contexts = update w.contexts p none;
      closed = c.fd ∷ w.closed;
      destroyed = if is_inbound c.type then p ∷ w.destroyed else w.destroyed;
    }))

-- The same as a callback.
abbrev pub destroy_next : Ptr → Option World → Option World
destroy_next p none = none
destroy_next p (some w) = destroy_conn p w

-- The loop of `connmgr_destroy_all_conns`, from `idx` on, with `k` rounds left. The results of
-- `ezarr_get_at` and `ezarr_set_at` are not acted on.
unfoldable pub destroy_loop : (k idx : ℕ) → Option EzArray → World → Option (Option EzArray × World)
destroy_loop zero idx conns w = some (conns, w)
destroy_loop (suc k) idx conns w = do
  (found, item) ← get_at conns idx (some null)
  w' ← destroy_conn (get_or_else item null) w
  (res, conns') ←
      if get_or_else item null == null then some (success, conns) else set_at conns idx null
  destroy_loop k (idx + 1) conns' w'

unfoldable pub destroy_all_conns : Option ConnMgr → World → Option (ℤ × Option ConnMgr × World)
unfolding destroy_loop
destroy_all_conns none w = some (failure, none, w)
destroy_all_conns (some mgr) w = do
  (conns, w1) ← destroy_loop mgr.num_active_conns 0 mgr.p_conns w
  (res, queue, w2) ← clear (some destroy_next) mgr.p_new_conns (some w1)
  w' ← w2
  some (res, some (record mgr { p_conns = conns; p_new_conns = queue }), w')

-- What the allocations for one connection return, and `pthread_mutex_init`: the address of a
-- context with what it holds, and the two buffers.
pub record ConnMemory : Type 0 where
  pub ctx : Option (Ptr × Conn)
  pub mutex_res : ℤ
  pub recv_buf : Option (List Byte)
  pub send_buf : Option (List Byte)

-- The context as `connmgr_create_new_conn` fills it, or the result that it returns without one.
pub data Made : Type 0 where
  filled : Conn → Made
  given_up : ℤ → Made

-- `res` holds what the call returns if it gives up: the code sets it to the result of the mutex
-- call, and the failed allocations leave it.
unfoldable pub fill_conn : ConnMemory → Conn → ℤ → ConnType → (res : ℤ) → Made
fill_conn memory blank fd inbound_conn res =
    let res = memory.mutex_res in
    if is_zero res
    then elim memory.recv_buf [
      | none ↦ given_up res
      | some p_recv_buf ↦ elim memory.send_buf [
        | none ↦ given_up res
        | some p_send_buf ↦ filled (record {
          type = inbound_conn;
          ref_count = pos 0;
          fd = fd;
          p_recv_buf = p_recv_buf;
          bytes_read = 0;
          bytes_to_read = header_size;
          p_send_buf = p_send_buf;
          bytes_sent = 0;
          bytes_to_send = 0;
          state = read_header;
        })
      ]
    ]
    else given_up res
fill_conn memory blank fd internal_conn res =
    filled (record blank { type = internal_conn; ref_count = pos 0; fd = fd; state = special_conn })

-- After a failed enqueue the two buffers are freed. An internal connection has none: its pointers
-- are indeterminate, and to free them is undefined behaviour.
unfoldable pub enqueue_conn :
    Malloc Ptr → Ptr → Conn → ConnType → ConnMgr → World → Option (ℤ × ConnMgr × World)
enqueue_conn malloc p c type mgr w = do
  (res, queue) ← enqueue malloc mgr.p_new_conns p
  let mgr' = record mgr { p_new_conns = queue }
  if is_zero res
      then some (res, mgr', record w { contexts = update w.contexts p (some c) })
      else elim type [ internal_conn ↦ none | inbound_conn ↦ some (res, mgr', w) ]

unfoldable pub add_made :
    Malloc Ptr → Ptr → Made → ConnType → ConnMgr → World → Option (ℤ × ConnMgr × World)
unfolding enqueue_conn
add_made malloc p (given_up res) type mgr w = some (res, mgr, w)
add_made malloc p (filled c) type mgr w = enqueue_conn malloc p c type mgr w

unfoldable pub create_conn :
    Malloc Ptr → ConnMemory → ℤ → ConnMgr → ConnType → World → Option (ℤ × ConnMgr × World)
unfolding add_made fill_conn
create_conn malloc memory fd mgr type w = elim memory.ctx [
  | none ↦ some (failure, mgr, w)
  | some (p, blank) ↦ add_made malloc p (fill_conn memory blank fd type failure) type mgr w
]

unfoldable pub create_new_conn :
    Malloc Ptr
    → ConnMemory
    → ℤ
    → Option ConnMgr
    → ConnType
    → World
    → Option (ℤ × Option ConnMgr × World)
unfolding create_conn
create_new_conn malloc memory fd none type w = some (failure, none, w)
create_new_conn malloc memory (negsuc n) (some mgr) type w = some (failure, some mgr, w)
create_new_conn malloc memory (pos fd) (some mgr) type w = do
  (res, mgr', w') ← create_conn malloc memory (pos fd) mgr type w
  some (res, some mgr', w')
