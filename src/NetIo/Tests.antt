-- ===== src/NetIo/Tests.antt =====
-- A ping in three pieces, its pong, and the two cases that go wrong.
use multithreaded_c_server.Common.{
  ℕ, zero, suc, ◌+◌, ◌*◌, ◌<◌, ◌≡◌, refl, sym, inl, inr, Bool, true, ◌&&◌, ltb, some, List, [], ◌∷◌,
  ◌++◌, arith, length, length-replicate, replicate, take, pos, success, Byte, ByteOrder, to_word,
  low_byte, high_byte, overlay,
}
use multithreaded_c_server.Conn.{
  Conn, inbound_conn, read_header, read_content, write_response, io_buf_size,
}
use multithreaded_c_server.NetIo.{
  done, fault, eintr, ewouldblock, io_ewouldblock, Received, got, recv_failed, took, send_failed,
  recvall, sendall, handle_sock_data_in, handle_sock_data_out,
}
use multithreaded_c_server.NetIo.Receive.{full, interrupted, arrives, blocks, recvall_lem}
use multithreaded_c_server.NetIo.Answer.{Answered}
use multithreaded_c_server.NetIo.Message.{IsMessage, Holds}
use multithreaded_c_server.NetIo.Transmit
use multithreaded_c_server.NetIo.Transmit.{Takes, takes, all_out, sendall_lem}
use multithreaded_c_server.NetIo.Exchange.{
  Arrives, some_more, the_rest, polls, polls-Answered, reply_sent, reply_repeats, content_overflows,
}
use multithreaded_c_server.Pong.Reply.{reply_to, IsBytes, create_response-reply_to}
use multithreaded_c_server.Pong.Replies.{Replies}

-- A little-endian host.
pub swap_bytes : ℕ → ℕ
swap_bytes w = low_byte w * 256 + high_byte w

pub swapped : (a b : Byte) → a < 256 → b < 256 → swap_bytes (256 * a + b) ≡ to_word a b
unfolding swap_bytes
swapped a b p q = omega arith

pub swapped_back : (a b : Byte) → a < 256 → b < 256 → swap_bytes (to_word a b) ≡ 256 * a + b
unfolding swap_bytes
swapped_back a b p q = omega arith

abbrev pub little_endian : ByteOrder
little_endian = record {
  htons = swap_bytes;
  ntohs = swap_bytes;
  htons_word = swapped;
  ntohs_word = swapped_back;
}

-- A buffer of IO_BUF_SIZE bytes, shut so that it is not written out.
pub blank_buffer : List Byte
blank_buffer = replicate io_buf_size 0

length-blank_buffer : length blank_buffer ≡ io_buf_size
unfolding blank_buffer
length-blank_buffer = length-replicate {A = Byte} io_buf_size 0

abbrev pub fresh : Conn
fresh = record {
  type = inbound_conn;
  ref_count = pos 0;
  fd = pos 5;
  p_recv_buf = blank_buffer;
  bytes_read = 0;
  bytes_to_read = 3;
  p_send_buf = blank_buffer;
  bytes_sent = 0;
  bytes_to_send = 0;
  state = read_header;
}

-- A ping of client 7, volley 4, as tests/client.py packs it.
abbrev pub ping : List Byte
ping = 0 ∷ 0 ∷ 8 ∷ 0 ∷ 7 ∷ 4 ∷ b'p' ∷ b'i' ∷ b'n' ∷ b'g' ∷ 0 ∷ []

all_bytes : List Byte → Bool
all_bytes [] = true
all_bytes (b ∷ bs) = ltb b 256 && all_bytes bs

all_bytes-IsBytes : (bs : List Byte) → all_bytes bs ≡ true → IsBytes bs
unfolding all_bytes
all_bytes-IsBytes [] e i = omega arith
all_bytes-IsBytes (b ∷ bs) e zero = ground arith
all_bytes-IsBytes (b ∷ bs) e (suc i) = all_bytes-IsBytes bs (ground arith) i

ping-IsBytes : IsBytes ping
unfolding all_bytes
ping-IsBytes = all_bytes-IsBytes ping refl

pub ping-IsMessage : IsMessage ping
ping-IsMessage = record { bytes_ok = ping-IsBytes; whole = refl; fits = omega arith }

pub fresh-Holds : Holds fresh ping 0
fresh-Holds = record {
  recv_size = length-blank_buffer;
  send_size = length-blank_buffer;
  nothing_to_send = refl;
  within = omega arith;
  counted = refl;
  front = refl;
  in_header = λ _. (refl, refl);
  in_content = λ late. absurd (omega arith);
}

-- Two bytes, then the third after an interruption, then the body.
abbrev pub pieces : List (List Received)
pieces =
    (got (0 ∷ 0 ∷ []) ∷ recv_failed ewouldblock ∷ [])
    ∷ (recv_failed eintr ∷ got (8 ∷ []) ∷ [])
    ∷ (got (0 ∷ 7 ∷ 4 ∷ b'p' ∷ b'i' ∷ b'n' ∷ b'g' ∷ 0 ∷ []) ∷ [])
    ∷ []

pub pieces-Arrives : Arrives ping 0 pieces
pieces-Arrives =
    some_more {bytes = 0 ∷ 0 ∷ []} (arrives {left = 1} {more = []} refl (blocks (omega arith)) refl)
      (inr refl) refl (inl (omega arith))
      (some_more {bytes = 8 ∷ []}
        (interrupted (omega arith) (arrives {left = 0} {more = []} refl (full refl) refl))
        (inl refl) refl (inl (omega arith))
        (the_rest {bytes = 0 ∷ 7 ∷ 4 ∷ b'p' ∷ b'i' ∷ b'n' ∷ b'g' ∷ 0 ∷ []}
          (arrives {left = 0} {more = []} refl (full refl) refl) (inl refl) refl (omega arith)
          refl))

polls-Answered_example :
    (c' : Conn) × (polls little_endian fresh pieces ≡ done (some c')) × Answered ping c'
polls-Answered_example =
    polls-Answered little_endian ping-IsMessage fresh fresh-Holds pieces-Arrives

abbrev pong : List Byte
pong = 1 ∷ 0 ∷ 11 ∷ 0 ∷ 7 ∷ 5 ∷ b'p' ∷ b'o' ∷ b'n' ∷ b'g' ∷ 0 ∷ []

reply_to-ping : reply_to ping ≡ pong
unfolding reply_to
reply_to-ping = refl

recvall_lem_example :
    recvall (got (8 ∷ []) ∷ recv_failed ewouldblock ∷ []) blank_buffer 2 3
    ≡ done (io_ewouldblock, 1, overlay blank_buffer 2 (8 ∷ []))
recvall_lem_example =
    recvall_lem blank_buffer 2 3 (arrives {left = 2} {more = []} refl (blocks (omega arith)) refl)
      (omega (arith, length-blank_buffer))

sendall_lem_example :
    sendall (took 4 ∷ send_failed ewouldblock ∷ []) ping 11
    ≡ done (io_ewouldblock, 4, 0 ∷ 0 ∷ 8 ∷ 0 ∷ [])
sendall_lem_example =
    sendall_lem ping 11
      (takes {left = 7} (omega arith) refl (Transmit.blocks (omega arith) refl) refl) (omega arith)

-- The send buffer behind the reply.
blank_tail : List Byte
blank_tail = replicate 1013 0

length-blank_tail : length blank_tail ≡ 1013
unfolding blank_tail
length-blank_tail = length-replicate {A = Byte} 1013 0

abbrev answered : Conn
answered = record fresh {
  bytes_to_read = 0;
  p_send_buf = pong ++ blank_tail;
  bytes_to_send = 11;
  state = write_response;
}

answered-Answered : Answered ping answered
answered-Answered = record {
  responding = refl;
  reply = sym reply_to-ping;
  reply_size = refl;
  read_none = refl;
  expects_none = refl;
  recv_size = length-blank_buffer;
  send_size = omega (arith, length-blank_tail);
}

reply_sent_example :
    (c' : Conn) × (handle_sock_data_out (some answered) (took 11 ∷ [])
      ≡ done (success, some c', reply_to ping))
    × Holds c' ping 0
reply_sent_example =
    reply_sent ping ping answered-Answered
      (takes {left = 0} (omega arith) refl (all_out refl refl) refl)

reply_repeats_example :
    (c1 c2 : Conn) × (handle_sock_data_out (some answered) (took 4 ∷ send_failed ewouldblock ∷ [])
      ≡ done (success, some c1, take 4 (reply_to ping)))
    × (handle_sock_data_out (some c1) (took 7 ∷ [])
        ≡ done (success, some c2, take 7 (reply_to ping)))
    × (c2.state ≡ read_header)
reply_repeats_example =
    reply_repeats ping answered-Answered
      (takes {left = 7} (omega arith) refl (Transmit.blocks (omega arith) refl) refl)
      (takes {left = 0} (omega arith) refl (all_out refl refl) refl)

-- A header that announces 1280 bytes.
abbrev boast : List Byte
boast = 0 ∷ 5 ∷ 0 ∷ []

boast-IsBytes : IsBytes boast
unfolding all_bytes
boast-IsBytes = all_bytes-IsBytes boast refl

content_overflows_example :
    (c1 : Conn) × (handle_sock_data_in little_endian (some fresh) (got boast ∷ [])
      ≡ done (success, some c1))
    × (c1.state ≡ read_content)
    × (c1.bytes_to_read ≡ 1280)
    × (handle_sock_data_in little_endian (some c1) (got (b'x' ∷ blank_buffer) ∷ []) ≡ fault)
content_overflows_example =
    content_overflows little_endian fresh boast b'x' blank_buffer [] refl refl refl
      length-blank_buffer boast-IsBytes refl (arrives {left = 0} refl (full refl) refl)
      (omega (arith, length-blank_buffer)) (omega (arith, length-blank_buffer))

create_response-reply_to_example :
    Replies little_endian (ping ++ blank_tail) blank_buffer 11 0 (reply_to ping)
create_response-reply_to_example =
    create_response-reply_to little_endian (ping ++ blank_tail) ping blank_buffer 0 refl
      ping-IsBytes (omega (arith, length-blank_tail)) (omega (arith, length-blank_buffer))
