-- ===== src/NetIo/Answer.antt =====
-- What happens to a connection when its message is complete.
use multithreaded_c_server.Common.{
  ℕ, ◌+◌, ◌*◌, ◌/◌, ◌^◌, ◌≤◌, ◌≡◌, refl, ap₂, ◌∙◌, some, List, ◌++◌, arith, length, length-append,
  length-replicate, length-drop, take, drop, replicate, Byte, ByteOrder, to_uint16, success,
}
use multithreaded_c_server.Conn.{Conn, write_response, io_buf_size}
use multithreaded_c_server.NetIo.{done, make_response, zero_fill}
use multithreaded_c_server.Pong.{create_response, message_size}
use multithreaded_c_server.Pong.Reply.{IsBytes, reply_to, create_response-reply_to}

pub zero_fill_lem :
    (n : ℕ) (buf : List Byte)
    → n ≤ length buf
    → (zeroed : List Byte) × (zero_fill n buf ≡ some zeroed) × (length zeroed ≡ length buf)
unfolding zero_fill
zero_fill_lem n buf h = (
  replicate n 0 ++ drop n buf,
  ground arith,
  omega (
    arith,
    length-append (replicate n 0) (drop n buf),
    length-replicate {A = Byte} n 0,
    length-drop n buf,
  ),
)

-- What a connection is in once the message `msg` is answered.
pub record Answered (msg : List Byte) (c : Conn) : Type 0 where
  pub responding : c.state ≡ write_response
  pub reply : take 11 c.p_send_buf ≡ reply_to msg
  pub reply_size : c.bytes_to_send ≡ 11
  pub read_none : c.bytes_read ≡ 0
  pub expects_none : c.bytes_to_read ≡ 0
  pub recv_size : length c.p_recv_buf ≡ io_buf_size
  pub send_size : length c.p_send_buf ≡ io_buf_size

pub make_response-Answered :
    (order : ByteOrder) (c : Conn) (msg : List Byte)
    → take (length msg) c.p_recv_buf ≡ msg
    → IsBytes msg
    → length msg ≤ io_buf_size
    → c.bytes_read ≡ length msg
    → c.bytes_to_send ≡ 0
    → length c.p_recv_buf ≡ io_buf_size
    → length c.p_send_buf ≡ io_buf_size
    → (c' : Conn) × (make_response order c ≡ done c') × Answered msg c'
unfolding make_response
make_response-Answered order c msg front ok fits counted none_left recv_size send_size =
    let (out', made, reply, size) =
      create_response-reply_to order c.p_recv_buf msg c.p_send_buf 0 front ok (omega arith)
        (omega arith) in
    let (zeroed, cleared, zeroed_size) = zero_fill_lem io_buf_size c.p_recv_buf (omega arith) in
    let asked : create_response order (some c.p_recv_buf) (some c.p_send_buf)
          (to_uint16 c.bytes_read) (some (to_uint16 c.bytes_to_send))
        ≡ some (success, some out', some message_size) =
      ap₂ (λ n s. create_response order (some c.p_recv_buf) (some c.p_send_buf) n (some s))
        (omega arith) (omega arith)
      ∙ made in
    (
      record c {
        p_send_buf = out';
        bytes_to_send = c.bytes_to_send / 2 ^ 16 * 2 ^ 16 + message_size;
        bytes_to_read = 0;
        bytes_read = 0;
        state = write_response;
        p_recv_buf = zeroed;
      },
      rw (asked, cleared),
      record {
        responding = refl;
        reply = reply;
        reply_size = omega arith;
        read_none = refl;
        expects_none = refl;
        recv_size = zeroed_size ∙ recv_size;
        send_size = size ∙ send_size;
      },
    )
