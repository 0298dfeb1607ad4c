-- ===== src/NetIo/Message.antt =====
-- A message that arrives in pieces: what a connection holds of it after each poll.
use native.Mathlib.Decide.{dec_lt, ℕ_discrete}
use multithreaded_c_server.Common.{
  ℕ, ◌+◌, ◌-◌, ◌*◌, ◌%◌, ◌^◌, ◌≤◌, ◌<◌, ◌≡◌, refl, sym, ap, ap₂, ◌∙◌, ◌⊎◌, inl, inr, true, some,
  List, ◌++◌, arith, length, take, drop, get_or, ◌==◌, load, load-get_or, get_or-take, overlay,
  length-overlay, take-overlay, Byte, ByteOrder, success, take_more, take_all,
}
use multithreaded_c_server.Conn.{
  Conn, ConnState, read_header, read_content, header_size, io_buf_size,
}
use multithreaded_c_server.NetIo.{
  recvall, IoErr, io_success, io_ewouldblock, Received, done, count_received, sub_size,
  incoming_len, read_header_of, read_content_of, read_in_state, handle_sock_data_in,
}
use multithreaded_c_server.NetIo.Receive.{Delivers, Delivers-counts, recvall_lem}
use multithreaded_c_server.NetIo.Answer.{Answered, make_response-Answered}
use multithreaded_c_server.Pong.Reply.{byte_at, IsBytes}

-- The number of bytes that follow the header of a message, as its header says.
abbrev pub body_len : List Byte → ℕ
body_len msg = 256 * byte_at msg 1 + byte_at msg 2

-- A whole message that fits the receive buffer.
pub record IsMessage (msg : List Byte) : Type 0 where
  pub bytes_ok : IsBytes msg
  pub whole : length msg ≡ header_size + body_len msg
  pub fits : length msg ≤ io_buf_size

-- The connection has received the first `k` bytes of `msg`, and has sent all that it had to send.
pub record Holds (c : Conn) (msg : List Byte) (k : ℕ) : Type 0 where
  pub recv_size : length c.p_recv_buf ≡ io_buf_size
  pub send_size : length c.p_send_buf ≡ io_buf_size
  pub nothing_to_send : c.bytes_to_send ≡ 0
  pub within : k ≤ length msg
  pub counted : c.bytes_read ≡ k
  pub front : take k c.p_recv_buf ≡ take k msg
  pub in_header : k < header_size → (c.state ≡ read_header) × (c.bytes_to_read ≡ header_size - k)
  pub in_content : header_size ≤ k → (c.state ≡ read_content) × (c.bytes_to_read ≡ length msg - k)

-- How one reading ends on a live connection: with all bytes in, or for lack of more.
abbrev pub GoesOn : IoErr → Type 0
GoesOn err = (err ≡ io_success) ⊎ (err ≡ io_ewouldblock)

-- The connection once `bytes` are in.
abbrev filled : Conn → List Byte → Conn
filled c bytes = count_received c (length bytes) (overlay c.p_recv_buf c.bytes_read bytes)

-- Its buffer then begins with that much more of the message.
filled_front :
    (c : Conn) (msg : List Byte) (k : ℕ) (bytes : List Byte)
    → IsMessage msg
    → Holds c msg k
    → bytes ≡ take (length bytes) (drop k msg)
    → k + length bytes ≤ length msg
    → take (k + length bytes) (filled c bytes).p_recv_buf ≡ take (k + length bytes) msg
filled_front c msg k bytes m h next room =
    ap (λ n. take (k + length bytes) (overlay c.p_recv_buf n bytes)) h.counted
    ∙ take-overlay c.p_recv_buf k bytes (omega arith)
    ∙ ap₂ ◌++◌ h.front next
    ∙ sym (take_more k (length bytes) msg)

-- The length of the body, read out of a buffer that begins with the header.
pub incoming-body_len :
    (order : ByteOrder) (msg : List Byte) (buf : List Byte)
    → IsBytes msg
    → length buf ≡ io_buf_size
    → take header_size buf ≡ take header_size msg
    → incoming_len order buf ≡ some (body_len msg)
unfolding incoming_len
incoming-body_len order msg buf ok size front =
    rw (load_at 1 (omega arith), load_at 2 (omega arith))
      (ap some (order.ntohs_word _ _ (ok 1) (ok 2)))
  where
    load_at : (i : ℕ) → i < header_size → load buf i ≡ some (byte_at msg i)
    load_at i lt =
        load-get_or buf i 0 (omega arith)
        ∙ ap some (
            sym (get_or-take header_size i buf 0 lt)
            ∙ ap (λ b. get_or b i 0) front
            ∙ get_or-take header_size i msg 0 lt)

-- Less than all arrived, so the reading ended for lack of more.
must_block :
    {rs : List Received} {need : ℕ} {bytes : List Byte} {err : IoErr}
    → Delivers rs need bytes err
    → GoesOn err
    → length bytes < need
    → err ≡ io_ewouldblock
must_block d (inl e) less = absurd (omega (arith, (Delivers-counts d).1 e))
must_block d (inr e) less = e

-- The handler of the state that a connection is in.
pub handle_in_state :
    (order : ByteOrder) (c : Conn) {c' : Conn} (s : ConnState) (rs : List Received)
    → c.state ≡ s
    → read_in_state order s c rs ≡ done (success, c')
    → handle_sock_data_in order (some c) rs ≡ done (success, some c')
unfolding handle_sock_data_in
handle_in_state order c s rs e r = rw (ap (λ t. read_in_state order t c rs) e ∙ r)

module _ (order : ByteOrder) {c : Conn} {msg : List Byte} {k : ℕ} (m : IsMessage msg)
    (h : Holds c msg k) {rs : List Received} {bytes : List Byte} {err : IoErr}
    (d : Delivers rs c.bytes_to_read bytes err) (live : GoesOn err)
    (next : bytes ≡ take (length bytes) (drop k msg)) where
  -- What both kinds of reading do first.
  received :
      k + c.bytes_to_read ≤ length msg
      → recvall rs c.p_recv_buf c.bytes_read c.bytes_to_read
        ≡ done (err, length bytes, overlay c.p_recv_buf c.bytes_read bytes)
  received room = recvall_lem c.p_recv_buf c.bytes_read c.bytes_to_read d (omega arith)

  -- The connection after a reading that does not complete a phase.
  filled-Holds :
      k + length bytes ≤ length msg
      → (k + length bytes < header_size
          → (c.state ≡ read_header) × (c.bytes_to_read ≡ header_size - k))
      → (header_size ≤ k + length bytes
          → (c.state ≡ read_content) × (c.bytes_to_read ≡ length msg - k))
      → Holds (filled c bytes) msg (k + length bytes)
  filled-Holds room early late = record {
    recv_size = length-overlay c.p_recv_buf c.bytes_read bytes ∙ h.recv_size;
    send_size = h.send_size;
    nothing_to_send = h.nothing_to_send;
    within = room;
    counted = omega arith;
    front = filled_front c msg k bytes m h next room;
    in_header = λ e. let (s, n) = early e in (s, omega arith);
    in_content = λ e. let (s, n) = late e in (s, omega arith);
  }

  -- The connection once the header is in.
  headed : Conn
  headed = record (filled c bytes) { bytes_to_read = body_len msg; state = read_content }

  headed-Holds :
      k < header_size → k + length bytes ≡ header_size → Holds headed msg (k + length bytes)
  unfolding headed
  headed-Holds early complete =
      let room : k + length bytes ≤ length msg = omega (arith, m.whole) in
      record {
        recv_size = length-overlay c.p_recv_buf c.bytes_read bytes ∙ h.recv_size;
        send_size = h.send_size;
        nothing_to_send = h.nothing_to_send;
        within = room;
        counted = omega arith;
        front = filled_front c msg k bytes m h next room;
        in_header = λ e. absurd (omega arith);
        in_content = λ e. (refl, omega (arith, m.whole));
      }

  -- A reading in the header.
  header_step :
      k < header_size
      → (c' : Conn) × (read_header_of order c rs ≡ done (success, c'))
        × Holds c' msg (k + length bytes)
  unfolding read_header_of headed
  header_step early =
      let (reading, need) = h.in_header early in
      let counts = Delivers-counts d in
      let start = received (omega (arith, m.whole)) in
      elim (ℕ_discrete (k + length bytes) header_size) [
        | yes complete ↦
            let whole_header : ((c.bytes_read + length bytes) % 2 ^ 64 == header_size) ≡ true =
              ground arith in
            let front = filled_front c msg k bytes m h next (omega (arith, m.whole)) in
            (
              headed,
              rw (
                start,
                counts.2 (omega arith),
                whole_header,
                incoming-body_len order msg (filled c bytes).p_recv_buf m.bytes_ok
                    (length-overlay c.p_recv_buf c.bytes_read bytes ∙ h.recv_size)
                    (ap (λ n. take n (filled c bytes).p_recv_buf) (sym complete)
                      ∙ front
                      ∙ ap (λ n. take n msg) complete),
              ),
              headed-Holds early complete,
            )
        | no more ↦ (
          filled c bytes,
          rw (start, must_block d live (omega arith)),
          filled-Holds (omega (arith, m.whole)) (λ e. (reading, need)) (λ e. absurd (omega arith)),
        )
      ]

  -- A reading in the body that does not complete it.
  content_step :
      header_size ≤ k
      → k + length bytes < length msg
      → (c' : Conn) × (read_content_of order c rs ≡ done (success, c'))
        × Holds c' msg (k + length bytes)
  unfolding read_content_of
  content_step late more =
      let (reading, need) = h.in_content late in
      (
        filled c bytes,
        rw (received (omega arith), must_block d live (omega arith)),
        filled-Holds (omega arith) (λ e. absurd (omega arith)) (λ e. (reading, need)),
      )

  -- A reading that completes the body.
  content_end :
      header_size ≤ k
      → k + length bytes ≡ length msg
      → (c' : Conn) × (read_content_of order c rs ≡ done (success, c')) × Answered msg c'
  unfolding read_content_of
  content_end late complete =
      let (reading, need) = h.in_content late in
      let counts = Delivers-counts d in
      let start = received (omega arith) in
      let all_in : (sub_size c.bytes_to_read (length bytes) == 0) ≡ true = ground arith in
      let front = filled_front c msg k bytes m h next (omega arith) in
      let (c', made, answered) =
        make_response-Answered order (filled c bytes) msg
          (ap (λ n. take n (filled c bytes).p_recv_buf) (sym complete)
            ∙ front
            ∙ ap (λ n. take n msg) complete
            ∙ take_all (length msg) msg (omega arith))
          m.bytes_ok m.fits (omega arith) h.nothing_to_send
          (length-overlay c.p_recv_buf c.bytes_read bytes ∙ h.recv_size) h.send_size in
      (c', rw (start, counts.2 (omega arith), all_in, made), answered)

  -- What one poll makes of the bytes that it brings.
  abbrev pub Progress : Conn → Type 0
  Progress c' =
      (((k < header_size) ⊎ (k + length bytes < length msg)) × Holds c' msg (k + length bytes))
      ⊎ ((header_size ≤ k) × (k + length bytes ≡ length msg) × Answered msg c')

  -- A poll that brings the next bytes of a message, in whatever portions, and finds the stream
  -- open, adds them to what the connection holds. The one that brings the last of the body, or
  -- the first after the header of an empty one, answers the message.
  pub poll-Progress :
      (c' : Conn) × (handle_sock_data_in order (some c) rs ≡ done (success, some c')) × Progress c'
  unfolding read_in_state
  poll-Progress = elim (dec_lt k header_size) [
    | yes early ↦
        let (c', e, w) = header_step early in
        (c', handle_in_state order c read_header rs (h.in_header early).0 e, inl (inl early, w))
    | no late ↦ elim (ℕ_discrete (k + length bytes) (length msg)) [
      | yes complete ↦
          let (c', e, w) = content_end (omega arith) complete in
          (
            c',
            handle_in_state order c read_content rs (h.in_content (omega arith)).0 e,
            inr (omega arith, complete, w),
          )
      | no more ↦
          let less : k + length bytes < length msg =
            omega (arith, Delivers-counts d, h.in_content (omega arith), h.within) in
          let (c', e, w) = content_step (omega arith) less in
          (
            c',
            handle_in_state order c read_content rs (h.in_content (omega arith)).0 e,
            inl (inr less, w),
          )
    ]
  ]
