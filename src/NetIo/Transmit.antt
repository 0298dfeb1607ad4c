-- ===== src/NetIo/Transmit.antt =====
-- Sending a response: what goes out on the wire, and what the connection is ready for next.
use multithreaded_c_server.Common.{
  ℕ, ◌+◌, ◌≤◌, ◌<◌, ◌≡◌, refl, ap, ◌∙◌, true, some, List, [], ◌∷◌, arith, length, take, take_more,
  leb, lt→ltb, le→not_ltb, ◌==◌, Byte, success,
}
use multithreaded_c_server.Conn.{Conn, read_header, header_size, io_buf_size}
use multithreaded_c_server.NetIo.{
  eintr, ewouldblock, eagain, other_errno, IoErr, io_success, io_ewouldblock, send_err, Sent, took,
  send_failed, done, send_error, send_loop, sendall, sub_size, count_sent, handle_sock_data_out,
}
use multithreaded_c_server.NetIo.Answer.{zero_fill_lem}

-- The replies of a stream socket to the sending of `need` bytes in all: it takes no more than it
-- is given, with interruptions, until all are out, it would block, or it fails. `count` is how
-- many it took, and `err` how it ended.
pub data Takes : List Sent → ℕ → ℕ → IoErr → Type 0 where
  all_out :
      {rs : List Sent} {need count : ℕ} → need ≡ 0 → count ≡ 0 → Takes rs need count io_success
  interrupted :
      {rs : List Sent} {need count : ℕ} {err : IoErr}
      → 0 < need
      → Takes rs need count err
      → Takes (send_failed eintr ∷ rs) need count err
  takes :
      {rs : List Sent} {need left more count k : ℕ} {err : IoErr}
      → 0 < need
      → need ≡ k + left
      → Takes rs left more err
      → count ≡ k + more
      → Takes (took k ∷ rs) need count err
  blocks :
      {rs : List Sent} {need count : ℕ}
      → 0 < need
      → count ≡ 0
      → Takes (send_failed ewouldblock ∷ rs) need count io_ewouldblock
  tries_again :
      {rs : List Sent} {need count : ℕ}
      → 0 < need
      → count ≡ 0
      → Takes (send_failed eagain ∷ rs) need count io_ewouldblock
  breaks :
      {rs : List Sent} {need count : ℕ} (e : ℕ)
      → 0 < need
      → count ≡ 0
      → Takes (send_failed (other_errno e) ∷ rs) need count send_err

pub Takes-counts :
    {rs : List Sent} {need count : ℕ} {err : IoErr}
    → Takes rs need count err
    → (count ≤ need) × (err ≡ io_success → count ≡ need) × (count ≡ need → err ≡ io_success)
Takes-counts (all_out e z) = (omega arith, λ _. omega arith, λ _. refl)
Takes-counts (interrupted pos t) = Takes-counts t
Takes-counts (takes pos e t s) =
    let (le, all, whole) = Takes-counts t in
    (omega arith, λ ok. omega (arith, all ok), λ ok. whole (omega arith))
Takes-counts (blocks pos z) = (omega arith, λ e. cc, λ e. absurd (omega arith))
Takes-counts (tries_again pos z) = (omega arith, λ e. cc, λ e. absurd (omega arith))
Takes-counts (breaks k pos z) = (omega arith, λ e. cc, λ e. absurd (omega arith))

send_loop_full :
    (rs : List Sent) (buf : List Byte) (len total : ℕ) (wire : List Byte)
    → len ≤ total
    → send_loop rs buf len total wire ≡ done (io_success, total, wire)
unfolding send_loop
send_loop_full [] buf len total wire h = rw (le→not_ltb total len h)
send_loop_full (send_failed eintr ∷ rs) buf len total wire h = rw (le→not_ltb total len h)
send_loop_full (send_failed e ∷ rs) buf len total wire h = rw (le→not_ltb total len h)
send_loop_full (took k ∷ rs) buf len total wire h = rw (le→not_ltb total len h)

leb_of_le : (a b : ℕ) → a ≤ b → leb a b ≡ true
leb_of_le a b h = ground arith

send_loop_lem :
    {rs : List Sent} {need count : ℕ} {err : IoErr} (buf : List Byte) (len total : ℕ)
    → Takes rs need count err
    → total + need ≡ len
    → len ≤ length buf
    → send_loop rs buf len total (take total buf)
      ≡ done (err, total + count, take (total + count) buf)
unfolding send_loop send_error
send_loop_lem {rs} buf len total (all_out e z) sum room =
    send_loop_full rs buf len total (take total buf) (omega arith)
    ∙ ap (λ (n : ℕ). done (io_success, n, take n buf)) (omega arith)
send_loop_lem buf len total (interrupted pos t) sum room =
    rw (lt→ltb total len (omega arith)) (send_loop_lem buf len total t sum room)
send_loop_lem {err} buf len total (takes {more} {k} pos e t s) sum room =
    rw
      (
        lt→ltb total len (omega arith),
        leb_of_le (total + k) (length buf) (omega arith),
        ← take_more total k buf,
      )
      (send_loop_lem buf len (total + k) t (omega arith) room
        ∙ ap (λ (n : ℕ). done (err, n, take n buf)) (omega arith))
send_loop_lem buf len total (blocks pos z) sum room =
    rw (lt→ltb total len (omega arith))
      (ap (λ (n : ℕ). done (io_ewouldblock, n, take n buf)) (omega arith))
send_loop_lem buf len total (tries_again pos z) sum room =
    rw (lt→ltb total len (omega arith))
      (ap (λ (n : ℕ). done (io_ewouldblock, n, take n buf)) (omega arith))
send_loop_lem buf len total (breaks k pos z) sum room =
    rw (lt→ltb total len (omega arith))
      (ap (λ (n : ℕ). done (send_err, n, take n buf)) (omega arith))

-- `nl_sendall` returns, if the socket answers as it should and the buffer holds all the bytes to
-- send: the bytes that went out are the first of the buffer, and their number is reported.
pub sendall_lem :
    {rs : List Sent} {count : ℕ} {err : IoErr} (buf : List Byte) (len : ℕ)
    → Takes rs len count err
    → len ≤ length buf
    → sendall rs buf len ≡ done (err, count, take count buf)
unfolding sendall
sendall_lem {count} {err} buf len t room =
    send_loop_lem buf len 0 t (omega arith) room
    ∙ ap (λ (n : ℕ). done (err, n, take n buf)) (omega arith)

module _ (c : Conn) {rs : List Sent} {count : ℕ} (size : length c.p_send_buf ≡ io_buf_size)
    (small : c.bytes_to_send ≤ io_buf_size) where
  -- A call that sends all that is left puts the connection back to reading a header.
  pub send_rest :
      {err : IoErr}
      → Takes rs c.bytes_to_send count err
      → count ≡ c.bytes_to_send
      → (c' : Conn) × (handle_sock_data_out (some c) rs
          ≡ done (success, some c', take c.bytes_to_send c.p_send_buf))
        × (c'.state ≡ read_header)
        × (c'.bytes_to_read ≡ header_size)
        × (c'.bytes_to_send ≡ 0)
        × (c'.bytes_sent ≡ 0)
        × (c'.bytes_read ≡ c.bytes_read)
        × (c'.p_recv_buf ≡ c.p_recv_buf)
        × (length c'.p_send_buf ≡ io_buf_size)
  unfolding handle_sock_data_out
  send_rest t all =
      let (zeroed, cleared, zeroed_size) = zero_fill_lem io_buf_size c.p_send_buf (omega arith) in
      let none_left : (sub_size c.bytes_to_send count == 0) ≡ true = ground arith in
      (
        record c {
          bytes_to_send = 0;
          bytes_sent = 0;
          state = read_header;
          bytes_to_read = header_size;
          p_send_buf = zeroed;
        },
        rw
            (
              sendall_lem c.p_send_buf c.bytes_to_send t (omega arith),
              (Takes-counts t).2 all,
              none_left,
              cleared,
            )
            (ap
              (λ (n : ℕ). done (
                success,
                some (record c {
                  bytes_to_send = 0;
                  bytes_sent = 0;
                  state = read_header;
                  bytes_to_read = header_size;
                  p_send_buf = zeroed;
                }),
                take n c.p_send_buf,
              ))
              all),
        refl,
        refl,
        refl,
        refl,
        refl,
        refl,
        zeroed_size ∙ size,
      )

  -- A call that would block keeps the counts, and sends from the start of the buffer.
  pub send_part :
      Takes rs c.bytes_to_send count io_ewouldblock
      → handle_sock_data_out (some c) rs
        ≡ done (success, some (count_sent c count), take count c.p_send_buf)
  unfolding handle_sock_data_out
  send_part t = rw (sendall_lem c.p_send_buf c.bytes_to_send t (omega arith))
