-- ===== src/Lib.antt =====
-- A verification library for the multithreaded C server: its containers, its connections and the
-- protocol that it answers.
--
-- The server keeps one context per connection (src/libs/connmgr). The event loop of src/main.c
-- polls the sockets and has a thread pool (src/libs/concurinc) run one task per connection that is
-- ready; the task calls src/libs/net_io, which reads a header, then the content that it announces,
-- has src/libs/protocols make the response, and sends it. New connections wait in an ezqueue_t
-- (src/libs/ezqueue) and live in an ezarray_t (src/libs/ezarray).
--
-- Which file models what:
--   EzQueue.antt and EzQueue/ : ezq_init, ezq_deinit, ezq_enqueue, ezq_dequeue, ezq_clear and
--     ezq_resize of src/libs/ezqueue/ezqueue.c. EzQueue/Fifo is the queue they promise.
--   EzArray.antt and EzArray/ : ezarr_init, ezarr_deinit, ezarr_push, ezarr_set_at, ezarr_get_at,
--     ezarr_compact and ezarr_resize of src/libs/ezarray/ezarray.c.
--   Compact.antt and Compact/ : the compaction loop that ezarr_compact and
--     connmgr_remove_closed_connections both write out.
--   Pong.antt and Pong/ : proto_pingpong_create_response of src/libs/protocols/pong.c.
--   Conn.antt : conn_ctx_t of src/libs/connmgr/connmgr.h.
--   ConnMgr.antt and ConnMgr/ : connmgr_init, connmgr_deinit, connmgr_destroy_all_conns,
--     connmgr_create_new_conn and connmgr_destroy_conn of src/libs/connmgr/connmgr.c, and in
--     ConnMgr/Update.antt connmgr_update_connections with what it calls.
--   NetIo.antt and NetIo/ : nl_recvall, nl_sendall, read_header, read_content,
--     nl_handle_sock_data_in and nl_handle_sock_data_out of src/libs/net_io/netio.c, and in
--     NetIo/Accept.antt nl_accept and nl_set_nonblocking.
--   CoinQueue.antt and CoinQueue/ : coin_queue_init, coin_queue_push, coin_queue_pop and
--     coin_queue_destroy of src/libs/concurinc/src/coin_queue.c.
--   ThreadPool.antt and ThreadPool/ : src/libs/concurinc/src/concurinc.c. ThreadPool/Worker is
--     coin_thread_worker; ThreadPool/Boss is coin_tpool_submit, coin_tpool_wait and the flag of
--     coin_tpool_stop_workers; ThreadPool/System interleaves them. ThreadPool/Context is
--     coin_tpool_ctx_init and coin_tpool_ctx_destroy, ThreadPool/Threads coin_initialize_workers and
--     coin_tpool_stop_workers, ThreadPool/Tpool coin_tpool_init and coin_tpool_destroy.
--   Server.antt and Server/ : src/main.c. Server.antt is task_io_read and task_io_send;
--     Server/Closing is the start of a round of the event loop, in which connections are closed
--     and connmgr_update_connections is called; Server/Polling is what the loop does with the
--     results of poll.
--   Common.antt and Common/ : C values, blocks of memory, bytes, and what the modules share.
--
-- How the code is rendered. An operation on an object takes its state, NULL as `none`, and returns
-- the result beside the new state. A block is the list of its slots; a read or write outside it is
-- undefined behaviour, `none` or `fault`. A `uint16_t` or `size_t` keeps its wrap-around. What
-- malloc, calloc and realloc return is a parameter, with the C standard's promises on the size and
-- the contents as the hypotheses MallocLaw, CallocLaw and ReallocLaw. What recv and send answer is
-- a list of replies, one for each call, and so is what accept answers; the hypotheses Delivers and
-- Takes say that no call returns more than was asked for. htons and ntohs are the operations of
-- the interface ByteOrder; fields of two bytes are read with the low byte first, as on x86.
--
-- Loops. The loops over slots have as many rounds as there are slots. nl_recvall, nl_sendall and
-- nl_accept recur on the list of replies, and a call whose replies run out before it returns is
-- `pending`. The loops of src/main.c have a round for each connection there is at their start, and
-- clear_loop and add_loop one round more than there are items; the loop of coin_queue_destroy is
-- given more rounds than there are nodes.
--
-- Threads. The pool is a step relation: each shared access of a worker, or of the thread that owns
-- the pool, is a step, and the steps interleave in any order; coin_queue_push and coin_queue_pop,
-- which are called with the queue's mutex held, are one step each. A mutex records its owner; a
-- call of a pthread function may fail wherever the code looks at its result; a thread in a
-- condition variable may wake up at any time. To unlock a mutex that one does not hold is undefined
-- behaviour, and no step stands for it: a worker whose last lock failed ends before its unlock.
-- Memory has fewer than 2^64 nodes. For the event loop, a call of coin_tpool_submit is a status
-- and whether the task is queued, which it is also where the status is that of a failed signal or
-- unlock. The set-up and the end of the pool are functions on a ledger
-- of what is held, with what each call answers as an argument; how a join ends depends on whether
-- the shutdown flag is set, and a join of a thread that never ends is `pending`.
--
-- Not modelled: logging; opening a listening socket; the set-up, the signal thread and the
-- shutdown of the process in src/main.c; tests/client.py. Who waits for the mutex of a connection
-- is left out: a task has its connection to itself, as the mutex gives it.
pub mod CoinQueue
pub mod Common
pub mod Compact
pub mod Conn
pub mod ConnMgr
pub mod EzArray
pub mod EzQueue
pub mod NetIo
pub mod Pong
pub mod Server
pub mod ThreadPool
