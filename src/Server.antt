-- ===== src/Server.antt =====
-- src/main.c: the tasks that the thread pool runs on a connection, and in the children the event
-- loop.
pub mod Serve
pub mod Closing
pub mod Polling
pub mod Refs
mod Tests
use multithreaded_c_server.Common.{
  ◌++◌, ℕ, zero, suc, ◌||◌, ◌&&◌, not, Bool, true, false, Option, none, some, List, [], ◌∷◌,
  if◌then◌else◌, get_or_else, ℤ, pos, negsuc, success, Byte, ByteOrder,
}
use multithreaded_c_server.Common.Run.{Run, done, ◌>>=◌}
use multithreaded_c_server.Conn.{
  Conn, ConnState, read_header, read_content, write_response, pending_close, special_conn,
}
use multithreaded_c_server.NetIo.{Received, Sent, handle_sock_data_in, handle_sock_data_out}

-- `int` subtraction of one, far from its ends.
abbrev pub less_one : ℤ → ℤ
less_one (pos zero) = negsuc 0
less_one (pos (suc n)) = pos n
less_one (negsuc n) = negsuc (suc n)

abbrev pub reads : ConnState → Bool
reads read_header = true
reads read_content = true
reads s = false

abbrev pub writes : ConnState → Bool
writes write_response = true
writes s = false

abbrev pub release_ref : Conn → Conn
release_ref c = record c { ref_count = less_one c.ref_count }

-- The connection's mutex is held throughout: a failure to lock it is logged, and no more. What the
-- handlers return is logged as well.
pub task_io_read : ByteOrder → (g_should_shutdown : Bool) → List Received → Conn → Run Conn
task_io_read order g_should_shutdown script c =
    if reads c.state && not g_should_shutdown
    then (handle_sock_data_in order (some c) script >>= λ out.
        done (release_ref (get_or_else out.1 c)))
    else done (release_ref c)

-- With the bytes that go out.
pub task_io_send : (g_should_shutdown : Bool) → List Sent → Conn → Run (Conn × List Byte)
task_io_send g_should_shutdown script c =
    if writes c.state && not g_should_shutdown
    then (handle_sock_data_out (some c) script >>= λ out.
        done (release_ref (get_or_else out.1 c), out.2))
    else done (release_ref c, [])

-- A task, with what the kernel answers to its calls.
pub data Task : Type 0 where
  read_task : List Received → Task
  send_task : List Sent → Task

-- The connection after some tasks, and what they put on the wire.
pub run_tasks : ByteOrder → Bool → List Task → Conn → Run (Conn × List Byte)
unfolding task_io_read task_io_send
run_tasks order g_should_shutdown [] c = done (c, [])
run_tasks order g_should_shutdown (read_task script ∷ ts) c =
    task_io_read order g_should_shutdown script c >>= λ c'. run_tasks order g_should_shutdown ts c'
run_tasks order g_should_shutdown (send_task script ∷ ts) c =
    task_io_send g_should_shutdown script c >>= λ out.
    run_tasks order g_should_shutdown ts out.0 >>= λ rest. done (rest.0, out.1 ++ rest.1)
