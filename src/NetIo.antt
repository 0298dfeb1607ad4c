-- ===== src/NetIo.antt =====
-- Reading and answering one connection, src/libs/net_io/netio.c. What the kernel answers to each
-- call of recv and send is an argument, a list of replies. Logging is left out.
pub mod Receive
pub mod Answer
pub mod Message
pub mod Transmit
pub mod Exchange
pub mod Keeps
pub mod Accept
pub mod Limit
mod AcceptTests
pub mod Tests
use multithreaded_c_server.Common.{
  ℕ, suc, ◌+◌, ◌-◌, ◌*◌, ◌/◌, ◌%◌, ◌^◌, Bool, true, false, Option, none, some, List, [], ◌∷◌, ◌++◌,
  get_or_else, length, take, drop, replicate, ltb, leb, ◌==◌, if◌then◌else◌, ℤ, success, failure,
  to_uint16, load, copy_in, Byte, to_word, ByteOrder,
}
use multithreaded_c_server.Common.{◌>>=◌ as and_then}
pub use multithreaded_c_server.Common.Run.{Run, done, fault, pending, ◌>>=◌, checked}
use multithreaded_c_server.Conn.{
  Conn, ConnState, read_header, read_content, write_response, pending_close, special_conn,
  header_size, io_buf_size,
}
use multithreaded_c_server.Pong.{create_response}

-- The values of errno that the code tells apart.
pub data Errno : Type 0 where
  eintr ewouldblock eagain : Errno
  other_errno : ℕ → Errno

-- `nl_internal_err_t`
pub data IoErr : Type 0 where
  generic_error io_success io_eof io_ewouldblock recv_err send_err : IoErr

-- What a call of recv answers: the bytes that arrived, none at the end of the stream, or -1.
pub data Received : Type 0 where
  got : List Byte → Received
  recv_failed : Errno → Received

-- What a call of send answers: how many bytes it took, or -1.
pub data Sent : Type 0 where
  took : ℕ → Sent
  send_failed : Errno → Sent

-- `size_t` addition and subtraction.
abbrev pub add_size : ℕ → ℕ → ℕ
add_size a b = (a + b) % 2 ^ 64

abbrev pub sub_size : ℕ → ℕ → ℕ
sub_size a b = (a + 2 ^ 64 - b) % 2 ^ 64

-- `memset(buf, 0, n)`
unfoldable pub zero_fill : ℕ → List Byte → Option (List Byte)
zero_fill n buf = if leb n (length buf) then some (replicate n 0 ++ drop n buf) else none

-- The error of a failed recv, EINTR aside.
pub recv_error : Errno → IoErr
recv_error ewouldblock = io_ewouldblock
recv_error eagain = io_ewouldblock
recv_error e = recv_err

-- The loop of `nl_recvall`, which fills `buf` from `off` on until `len` bytes are in.
pub recv_loop : List Received → List Byte → (off len total : ℕ) → Run (IoErr × ℕ × List Byte)
unfolding recv_error
recv_loop [] buf off len total = if ltb total len then pending else done (io_success, total, buf)
recv_loop (recv_failed eintr ∷ rs) buf off len total =
    let again = recv_loop rs buf off len total in
    if ltb total len then again else done (io_success, total, buf)
recv_loop (recv_failed e ∷ rs) buf off len total =
    if ltb total len then done (recv_error e, total, buf) else done (io_success, total, buf)
recv_loop (got [] ∷ rs) buf off len total =
    if ltb total len then done (io_eof, total, buf) else done (io_success, total, buf)
recv_loop (got (b ∷ bs) ∷ rs) buf off len total =
    let next = checked (copy_in buf (off + total) (b ∷ bs)) >>= λ buf'.
    recv_loop rs buf' off len (total + length (b ∷ bs)) in
    if ltb total len then next else done (io_success, total, buf)

-- `nl_recvall` at `buf + off`: the outcome, the bytes read and the buffer.
pub recvall : List Received → List Byte → (off len : ℕ) → Run (IoErr × ℕ × List Byte)
unfolding recv_loop
recvall script buf off len = recv_loop script buf off len 0

pub send_error : Errno → IoErr
send_error ewouldblock = io_ewouldblock
send_error eagain = io_ewouldblock
send_error e = send_err

-- The loop of `nl_sendall`, with the bytes that the kernel took so far.
pub send_loop : List Sent → List Byte → (len total : ℕ) → List Byte → Run (IoErr × ℕ × List Byte)
unfolding send_error
send_loop [] buf len total wire = if ltb total len then pending else done (io_success, total, wire)
send_loop (send_failed eintr ∷ rs) buf len total wire =
    let again = send_loop rs buf len total wire in
    if ltb total len then again else done (io_success, total, wire)
send_loop (send_failed e ∷ rs) buf len total wire =
    if ltb total len then done (send_error e, total, wire) else done (io_success, total, wire)
send_loop (took k ∷ rs) buf len total wire =
    let next =
      if leb (total + k) (length buf)
      then send_loop rs buf len (total + k) (wire ++ take k (drop total buf))
      else fault in
    if ltb total len then next else done (io_success, total, wire)

pub sendall : List Sent → List Byte → ℕ → Run (IoErr × ℕ × List Byte)
unfolding send_loop
sendall script buf len = send_loop script buf len 0 []

-- A received count moves from `bytes_to_read` to `bytes_read`.
abbrev pub count_received : Conn → ℕ → List Byte → Conn
count_received c n buf = record c {
  p_recv_buf = buf;
  bytes_read = add_size c.bytes_read n;
  bytes_to_read = sub_size c.bytes_to_read n;
}

module _ (order : ByteOrder) where
  -- The length in a header, of which two bytes are copied into a zeroed `size_t`.
  pub incoming_len : List Byte → Option ℕ
  incoming_len buf =
      and_then (load buf 1)
        λ low. and_then (load buf 2) λ high. some (order.ntohs (to_word low high))

  pub after_header : IoErr → Conn → Run (ℤ × Conn)
  unfolding incoming_len
  after_header io_success c =
      if c.bytes_read == header_size
      then (checked (incoming_len c.p_recv_buf) >>= λ len.
          done (success, record c { bytes_to_read = len; state = read_content }))
      else done (success, c)
  after_header io_ewouldblock c = done (success, c)
  after_header io_eof c = done (success, record c { state = pending_close })
  after_header e c = done (failure, c)

  pub read_header_of : Conn → List Received → Run (ℤ × Conn)
  unfolding after_header recvall
  read_header_of c script = do
    (err, n, buf) ← recvall script c.p_recv_buf c.bytes_read c.bytes_to_read
    after_header err (count_received c n buf)

  -- A complete message: the response is made, and the low half-word of `bytes_to_send` is set.
  pub make_response : Conn → Run Conn
  make_response c =
      checked (
        create_response order (some c.p_recv_buf) (some c.p_send_buf) (to_uint16 c.bytes_read)
          (some (to_uint16 c.bytes_to_send)))
      >>= λ made. checked (zero_fill io_buf_size c.p_recv_buf) >>= λ cleared. done (record c {
        p_send_buf = get_or_else made.1 c.p_send_buf;
        bytes_to_send = c.bytes_to_send / 2 ^ 16 * 2 ^ 16 + get_or_else made.2 0;
        bytes_to_read = 0;
        bytes_read = 0;
        state = write_response;
        p_recv_buf = cleared;
      })

  pub after_content : IoErr → Conn → Run (ℤ × Conn)
  unfolding make_response
  after_content io_success c =
      if c.bytes_to_read == 0
      then (make_response c >>= λ c'. done (success, c'))
      else done (success, c)
  after_content io_ewouldblock c = done (success, c)
  after_content io_eof c = done (success, record c { state = pending_close })
  after_content e c = done (failure, c)

  pub read_content_of : Conn → List Received → Run (ℤ × Conn)
  unfolding after_content recvall
  read_content_of c script = do
    (err, n, buf) ← recvall script c.p_recv_buf c.bytes_read c.bytes_to_read
    after_content err (count_received c n buf)

  pub read_in_state : ConnState → Conn → List Received → Run (ℤ × Conn)
  unfolding read_header_of read_content_of
  read_in_state read_header c script = read_header_of c script
  read_in_state read_content c script = read_content_of c script
  read_in_state other c script = done (failure, c)

  -- `nl_handle_sock_data_in`. NULL is `none`.
  pub handle_sock_data_in : Option Conn → List Received → Run (ℤ × Option Conn)
  unfolding read_in_state
  handle_sock_data_in none script = done (failure, none)
  handle_sock_data_in (some c) script = do
    (res, c') ← read_in_state c.state c script
    done (res, some c')

-- A sent count moves from `bytes_to_send` to `bytes_sent`.
abbrev pub count_sent : Conn → ℕ → Conn
count_sent c n = record c {
  bytes_to_send = sub_size c.bytes_to_send n;
  bytes_sent = add_size c.bytes_sent n;
}

pub after_send : IoErr → Conn → Run (ℤ × Conn)
after_send io_success c =
    if c.bytes_to_send == 0
    then (checked (zero_fill io_buf_size c.p_send_buf) >>= λ cleared. done (
      success,
      record c {
        bytes_to_send = 0;
        bytes_sent = 0;
        state = read_header;
        bytes_to_read = header_size;
        p_send_buf = cleared;
      },
    ))
    else done (success, c)
after_send io_ewouldblock c = done (success, c)
after_send e c = done (failure, c)

-- `nl_handle_sock_data_out`, with the bytes that went out.
pub handle_sock_data_out : Option Conn → List Sent → Run (ℤ × Option Conn × List Byte)
unfolding after_send sendall
handle_sock_data_out none script = done (failure, none, [])
handle_sock_data_out (some c) script = do
  (err, n, wire) ← sendall script c.p_send_buf c.bytes_to_send
  (res, c') ← after_send err (count_sent c n)
  done (res, some c', wire)
