-- ===== src/NetIo/Exchange.antt =====
-- Whole exchanges: a request in any pieces, its reply, and the two cases that go wrong.
use native.Mathlib.Decide.{dec_lt}
use multithreaded_c_server.Common.{
  ℕ, ◌+◌, ◌-◌, ◌≤◌, ◌<◌, ◌≡◌, refl, sym, ap, ◌∙◌, subst, ◌⊎◌, inl, inr, Option, some, List, [], ◌∷◌,
  arith, length, take-take, take, drop, Byte, ByteOrder, success, copy_in_fault, ltb, lt→ltb,
  if◌then◌else◌, get_or_else, ◌%◌, ◌^◌, ◌==◌, true, ap₂, overlay, length-overlay, take-overlay,
  take_all,
}
use multithreaded_c_server.Conn.{Conn, read_header, read_content, header_size, io_buf_size}
use multithreaded_c_server.NetIo.{
  IoErr, io_ewouldblock, Received, got, Sent, Run, done, fault, ◌>>=◌, handle_sock_data_in,
  handle_sock_data_out, read_in_state, read_header_of, count_received, count_sent, io_success,
}
use multithreaded_c_server.NetIo.Receive.{Delivers, recvall_lem}
use multithreaded_c_server.NetIo.Answer.{Answered}
use multithreaded_c_server.NetIo.Message.{
  IsMessage, Holds, GoesOn, poll-Progress, body_len, incoming-body_len, handle_in_state,
}
use multithreaded_c_server.NetIo.Transmit.{Takes, Takes-counts, send_rest, send_part}
use multithreaded_c_server.Pong.Reply.{reply_to, IsBytes}

-- What a connection that holds `k` bytes of a message asks for.
abbrev pub asked : List Byte → ℕ → ℕ
asked msg k = if ltb k header_size then header_size - k else length msg - k

-- The polls after the first `k` bytes of a message: each brings the next bytes that are asked for,
-- or some of them, and the last brings the end.
pub data Arrives (msg : List Byte) : ℕ → List (List Received) → Type 0 where
  some_more :
      {k : ℕ} {rs : List Received} {rss : List (List Received)} {bytes : List Byte} {err : IoErr}
      → Delivers rs (asked msg k) bytes err
      → GoesOn err
      → bytes ≡ take (length bytes) (drop k msg)
      → (k < header_size) ⊎ (k + length bytes < length msg)
      → Arrives msg (k + length bytes) rss
      → Arrives msg k (rs ∷ rss)
  the_rest :
      {k : ℕ} {rs : List Received} {bytes : List Byte} {err : IoErr}
      → Delivers rs (asked msg k) bytes err
      → GoesOn err
      → bytes ≡ take (length bytes) (drop k msg)
      → header_size ≤ k
      → k + length bytes ≡ length msg
      → Arrives msg k (rs ∷ [])

-- The polls of a connection, one after the other, as long as each succeeds.
pub polls : ByteOrder → Conn → List (List Received) → Run (Option Conn)
polls order c [] = done (some c)
polls order c (rs ∷ rss) =
    handle_sock_data_in order (some c) rs >>= λ out. polls order (get_or_else out.1 c) rss

pub asked-bytes_to_read :
    {c : Conn} {msg : List Byte} {k : ℕ} → Holds c msg k → asked msg k ≡ c.bytes_to_read
asked-bytes_to_read {k} h = elim (dec_lt k header_size) [
  | yes early ↦ ground (arith, h.in_header early)
  | no late ↦ ground (arith, h.in_content (omega arith))
]

-- However a request that fits the buffer is cut up on its way, a connection that holds the first
-- part of it, or nothing yet, ends up with the reply to it in its send buffer, ready to send, and
-- no byte outside a buffer is touched, if each poll brings the next of the bytes that are asked
-- for.
pub polls-Answered :
    (order : ByteOrder) {msg : List Byte}
    → IsMessage msg
    → (c : Conn) {k : ℕ} {rss : List (List Received)} → Holds c msg k
    → Arrives msg k rss
    → (c' : Conn) × (polls order c rss ≡ done (some c')) × Answered msg c'
unfolding polls
polls-Answered order m c h (some_more {rs} {bytes} {err} d live next more after) =
    let d' = subst (λ n. Delivers rs n bytes err) (asked-bytes_to_read h) d in
    let (c1, e, step) = poll-Progress order m h d' live next in
    elim step [
      | inl (open_end, h1) ↦
          let (c', e', w) = polls-Answered order m c1 h1 after in (c', rw e e', w)
      | inr (late, whole, w) ↦ absurd (omega arith)
    ]
polls-Answered order m c h (the_rest {rs} {bytes} {err} d live next late whole) =
    let d' = subst (λ n. Delivers rs n bytes err) (asked-bytes_to_read h) d in
    let (c1, e, step) = poll-Progress order m h d' live next in
    elim step [ inl (open_end, h1) ↦ absurd (omega arith) | inr (late', whole', w) ↦ (c1, rw e, w) ]

-- A reply that goes out in one call is on the wire byte for byte, and the connection is then
-- ready for any next message.
pub reply_sent :
    {c : Conn} (msg next : List Byte) {rs : List Sent} {err : IoErr}
    → Answered msg c
    → Takes rs 11 11 err
    → (c' : Conn) × (handle_sock_data_out (some c) rs ≡ done (success, some c', reply_to msg))
      × Holds c' next 0
reply_sent {c} msg next {rs} {err} a t =
    let t' = subst (λ n. Takes rs n 11 err) (sym a.reply_size) t in
    let (c', e, state, expects, sends, sent, reads, recv, size) =
      send_rest c a.send_size (omega (arith, a.reply_size)) t' (sym a.reply_size) in
    (
      c',
      e
          ∙ ap (λ w. done (success, some c', w))
              (ap (λ n. take n c.p_send_buf) a.reply_size ∙ a.reply),
      record {
        recv_size = ap length recv ∙ a.recv_size;
        send_size = size;
        nothing_to_send = sends;
        within = omega arith;
        counted = reads ∙ a.read_none;
        front = refl;
        in_header = λ _. (state, expects);
        in_content = λ late. absurd (omega arith);
      },
    )

-- A reply that goes out in two calls begins twice: the second call starts again at the front of
-- the send buffer, so the wire carries the first `n` bytes of the reply and then its first
-- `11 - n`, and the connection goes on to the next message.
pub reply_repeats :
    {c : Conn} (msg : List Byte) {rs rs' : List Sent} {n : ℕ} {err : IoErr}
    → Answered msg c
    → Takes rs 11 n io_ewouldblock
    → Takes rs' (11 - n) (11 - n) err
    → (c1 c2 : Conn) × (handle_sock_data_out (some c) rs
        ≡ done (success, some c1, take n (reply_to msg)))
      × (handle_sock_data_out (some c1) rs' ≡ done (success, some c2, take (11 - n) (reply_to msg)))
      × (c2.state ≡ read_header)
reply_repeats {c} msg {rs} {rs'} {n} {err} a t t' =
    let first =
      send_part c a.send_size (omega (arith, a.reply_size))
        (subst (λ k. Takes rs k n io_ewouldblock) (sym a.reply_size) t) in
    let c1 = count_sent c n in
    let left : c1.bytes_to_send ≡ 11 - n = omega (arith, Takes-counts t, a.reply_size) in
    let (c2, e, state, expects, sends, sent, reads, recv, size) =
      send_rest c1 a.send_size (omega arith) (subst (λ k. Takes rs' k (11 - n) err) (sym left) t')
        (sym left) in
    (
      c1,
      c2,
      first ∙ ap (λ w. done (success, some c1, w)) (reply_part n (omega (arith, Takes-counts t))),
      e
          ∙ ap (λ w. done (success, some c2, w))
              (ap (λ k. take k c.p_send_buf) left ∙ reply_part (11 - n) (omega arith)),
      state,
    )
  where
    reply_part : (k : ℕ) → k ≤ 11 → take k c.p_send_buf ≡ take k (reply_to msg)
    reply_part k small = sym (take-take k 11 c.p_send_buf small) ∙ ap (take k) a.reply

overflowing_read :
    (order : ByteOrder) (c : Conn) (b : Byte) (bs : List Byte) (rs : List Received)
    → c.bytes_read ≤ length c.p_recv_buf
    → length c.p_recv_buf < c.bytes_read + length (b ∷ bs)
    → length (b ∷ bs) ≤ c.bytes_to_read
    → read_in_state order read_content c (got (b ∷ bs) ∷ rs) ≡ fault
unfolding read_in_state
overflowing_read order c b bs rs inside past asked_for = rw (
  lt→ltb 0 c.bytes_to_read (omega arith),
  copy_in_fault c.p_recv_buf (c.bytes_read + 0) (b ∷ bs) (omega arith) (omega arith),
)

-- The connection once the header is in.
abbrev announced : Conn → List Byte → Conn
announced c header = record (count_received c 3 (overlay c.p_recv_buf c.bytes_read header)) {
  bytes_to_read = body_len header;
  state = read_content;
}

-- A header of any length is taken, and the next poll then reads the content that it announces.
header_believed :
    (order : ByteOrder) (c : Conn) (header : List Byte) {rs : List Received}
    → c.state ≡ read_header
    → c.bytes_read ≡ 0
    → c.bytes_to_read ≡ header_size
    → length c.p_recv_buf ≡ io_buf_size
    → IsBytes header
    → length header ≡ header_size
    → Delivers rs header_size header io_success
    → handle_sock_data_in order (some c) rs ≡ done (success, some (announced c header))
unfolding read_in_state read_header_of
header_believed order c header {rs} state none_read need size ok three d =
    handle_in_state order c read_header rs state (
      rw
        (
          recvall_lem c.p_recv_buf c.bytes_read c.bytes_to_read
              (subst (λ n. Delivers rs n header io_success) (sym need) d) (omega arith),
          three,
          whole_header,
          incoming-body_len order header (overlay c.p_recv_buf c.bytes_read header) ok
              (length-overlay c.p_recv_buf c.bytes_read header ∙ size) front,
        )
        refl)
  where
    whole_header : ((c.bytes_read + 3) % 2 ^ 64 == header_size) ≡ true
    whole_header = ground arith

    front : take header_size (overlay c.p_recv_buf c.bytes_read header) ≡ take header_size header
    front =
        let all_in : header_size ≡ 0 + length header = omega (arith, three) in
        ap₂ (λ n k. take n (overlay c.p_recv_buf k header)) all_in none_read
        ∙ take-overlay c.p_recv_buf 0 header (omega arith)
        ∙ sym (take_all header_size header (omega arith))

-- A header that announces more than the buffer can hold is believed: when a connection that waits
-- for a message gets a whole header, and the next poll brings at once more bytes than fit behind
-- the header, no more than were announced, the first poll succeeds and asks for as many bytes as
-- the header says, and the second writes past the end of `p_recv_buf`.
pub content_overflows :
    (order : ByteOrder) (c : Conn) (header : List Byte) (b : Byte) (bs : List Byte)
    {rs : List Received} (rs' : List Received)
    → c.state ≡ read_header
    → c.bytes_read ≡ 0
    → c.bytes_to_read ≡ header_size
    → length c.p_recv_buf ≡ io_buf_size
    → IsBytes header
    → length header ≡ header_size
    → Delivers rs header_size header io_success
    → io_buf_size < header_size + length (b ∷ bs)
    → length (b ∷ bs) ≤ body_len header
    → (c1 : Conn) × (handle_sock_data_in order (some c) rs ≡ done (success, some c1))
      × (c1.state ≡ read_content)
      × (c1.bytes_to_read ≡ body_len header)
      × (handle_sock_data_in order (some c1) (got (b ∷ bs) ∷ rs') ≡ fault)
unfolding handle_sock_data_in
content_overflows order c header b bs rs' state none_read need size ok three d past asked_for =
    let c1 = announced c header in
    let held : length c1.p_recv_buf ≡ io_buf_size =
      length-overlay c.p_recv_buf c.bytes_read header ∙ size in
    (
      c1,
      header_believed order c header state none_read need size ok three d,
      refl,
      refl,
      rw (overflowing_read order c1 b bs rs' (omega (arith, held)) (omega (arith, held)) asked_for)
          refl,
    )
