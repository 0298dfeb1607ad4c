-- ===== src/Server/Serve.antt =====
-- Tasks that serve one connection, one after the other.
use multithreaded_c_server.Common.{
  ℕ, suc, ◌+◌, ◌≡◌, refl, sym, ap, subst, ◌∙◌, inl, inr, true, false, Option, some, List, [], ◌∷◌,
  length, arith, pos, success, Byte, ByteOrder,
}
use mathlib.Core.List.{append-nil}
use native.Mathlib.Decide.{dec_lt}
use mathlib.Core.Option.{some-injective}
use multithreaded_c_server.Common.Run.{Run, done}
use multithreaded_c_server.Conn.{Conn, header_size}
use multithreaded_c_server.NetIo.{Received, Sent, IoErr, handle_sock_data_in}
use multithreaded_c_server.NetIo.Keeps.{
  SameConn, Kept, handle_sock_data_in-Kept, handle_sock_data_out-Kept,
}
use multithreaded_c_server.NetIo.Receive.{Delivers}
use multithreaded_c_server.NetIo.Answer.{Answered}
use multithreaded_c_server.NetIo.Message.{IsMessage, Holds, poll-Progress}
use multithreaded_c_server.NetIo.Transmit.{Takes}
use multithreaded_c_server.NetIo.Exchange.{
  Arrives, some_more, the_rest, reply_sent, asked-bytes_to_read,
}
use multithreaded_c_server.Pong.Reply.{reply_to}
use multithreaded_c_server.Server.{
  Task, read_task, send_task, run_tasks, less_one, reads, writes, release_ref, task_io_read,
  task_io_send,
}

-- A reading task for each of some polls, and then others.
abbrev pub reads_of : List (List Received) → List Task → List Task
reads_of [] ts = ts
reads_of (rs ∷ rss) ts = read_task rs ∷ reads_of rss ts

Kept-of :
    {A : Type 0} (get : A → Option Conn) (c c' : Conn) (r : Run A) (a : A)
    → Kept get c r
    → r ≡ done a
    → get a ≡ some c'
    → SameConn c c'
Kept-of get c c' r a kept e at =
    let (c2, at2, same) = subst (Kept get c) e kept in
    subst (SameConn c) (some-injective _ _ (sym at2 ∙ at)) same

Holds-release : {c : Conn} {msg : List Byte} {k : ℕ} → Holds c msg k → Holds (release_ref c) msg k
Holds-release h = record {
  recv_size = h.recv_size;
  send_size = h.send_size;
  nothing_to_send = h.nothing_to_send;
  within = h.within;
  counted = h.counted;
  front = h.front;
  in_header = h.in_header;
  in_content = h.in_content;
}

Answered-release : {c : Conn} {msg : List Byte} → Answered msg c → Answered msg (release_ref c)
Answered-release a = record {
  responding = a.responding;
  reply = a.reply;
  reply_size = a.reply_size;
  read_none = a.read_none;
  expects_none = a.expects_none;
  recv_size = a.recv_size;
  send_size = a.send_size;
}

Holds-reads : {c : Conn} {msg : List Byte} {k : ℕ} → Holds c msg k → reads c.state ≡ true
Holds-reads {k} h = elim (dec_lt k header_size) [
  | yes early ↦ ap reads (h.in_header early).0
  | no late ↦ ap reads (h.in_content (omega arith)).0
]

-- A reading task on a connection that reads.
read_task_lem :
    (order : ByteOrder) (c c' : Conn) (script : List Received) (m : ℕ)
    → reads c.state ≡ true
    → handle_sock_data_in order (some c) script ≡ done (success, some c')
    → c.ref_count ≡ pos (suc m)
    → (task_io_read order false script c ≡ done (release_ref c'))
      × ((release_ref c').ref_count ≡ pos m)
unfolding task_io_read
read_task_lem order c c' script m reading handled refs =
    let (count, fd, type) =
      Kept-of (λ out. out.1) c c' _ _ (handle_sock_data_in-Kept order c script) handled refl in
    (rw (reading, handled) refl, ap less_one (count ∙ refs))

reads-Answered :
    (order : ByteOrder) {msg : List Byte}
    → IsMessage msg
    → (c : Conn) {k : ℕ} {rss : List (List Received)} (m : ℕ) (ts : List Task) → Holds c msg k
    → Arrives msg k rss
    → c.ref_count ≡ pos (length rss + m)
    → (c' : Conn) × (run_tasks order false (reads_of rss ts) c ≡ run_tasks order false ts c')
      × Answered msg c'
      × (c'.ref_count ≡ pos m)
unfolding run_tasks
reads-Answered order is c m ts h (some_more {rs} {rss} {bytes} {err} d live next more after) refs =
    let d' = subst (λ n. Delivers rs n bytes err) (asked-bytes_to_read h) d in
    let (c1, e, step) = poll-Progress order is h d' live next in
    let (ran, refs1) =
      read_task_lem order c c1 rs (length rss + m) (Holds-reads h) e
        (refs ∙ ap pos (omega arith)) in
    elim step [
      | inl (open_end, h1) ↦
          let (c', rest, w, left) =
            reads-Answered order is (release_ref c1) m ts (Holds-release h1) after refs1 in
          (c', rw ran rest, w, left)
      | inr (late, whole, w) ↦ absurd (omega arith)
    ]
reads-Answered order is c m ts h (the_rest {rs} {bytes} {err} d live next late whole) refs =
    let d' = subst (λ n. Delivers rs n bytes err) (asked-bytes_to_read h) d in
    let (c1, e, step) = poll-Progress order is h d' live next in
    let (ran, refs1) =
      read_task_lem order c c1 rs m (Holds-reads h) e (refs ∙ ap pos (omega arith)) in
    elim step [
      | inl (open_end, h1) ↦ absurd (omega arith)
      | inr (late', whole', w) ↦ (release_ref c1, rw ran refl, Answered-release w, refs1)
    ]

-- A request is served by the tasks that the event loop submits: a reading task for each poll that
-- brings the next of the bytes asked for, and a sending task whose call of send takes the reply at
-- once. The wire then carries the reply to the request byte for byte, the connection is ready for
-- any next message, and each task has given back its reference. The request must fit the buffer.
pub request_served :
    (order : ByteOrder) {msg : List Byte} (next : List Byte)
    → IsMessage msg
    → (c : Conn) {k : ℕ} {rss : List (List Received)} {rs : List Sent} {err : IoErr} (n : ℕ)
    → Holds c msg k
    → Arrives msg k rss
    → Takes rs 11 11 err
    → c.ref_count ≡ pos (length rss + suc n)
    → (c' : Conn) × (run_tasks order false (reads_of rss (send_task rs ∷ [])) c
        ≡ done (c', reply_to msg))
      × Holds c' next 0
      × (c'.ref_count ≡ pos n)
unfolding run_tasks task_io_send
request_served order {msg} next is c {rs} n h arrives goes_out refs =
    let (c1, ran, w, refs1) =
      reads-Answered order is c (suc n) (send_task rs ∷ []) h arrives refs in
    let (c2, sent, h2) = reply_sent msg next w goes_out in
    let (count, fd, type) =
      Kept-of (λ out. out.1) c1 c2 _ _ (handle_sock_data_out-Kept c1 rs) sent refl in
    (
      release_ref c2,
      ran
          ∙ rw (ap writes w.responding, sent)
              (ap (λ b. done (release_ref c2, b)) (append-nil (reply_to msg))),
      Holds-release h2,
      ap less_one (count ∙ refs1),
    )
