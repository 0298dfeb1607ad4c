-- ===== src/ConnMgr/Create.antt =====
-- `connmgr_create_new_conn`: a context in the queue of connections to come, or why there is none.
use multithreaded_c_server.Common.{
  ℕ, ◌≡◌, ap, sym, subst, ◌⊎◌, inl, inr, true, false, Bool-cases, Option-cases, arith, Option, none,
  negsuc, failure, some, List, Ptr, Malloc, MallocLaw, ℤ, pos, success, is_some, is_zero, Byte,
  if◌then◌else◌,
}
use multithreaded_c_server.Conn.{Conn, inbound_conn, read_header, header_size}
use multithreaded_c_server.EzQueue.{EzQueue, grown}
use multithreaded_c_server.EzQueue.Contents as QueueOf
use multithreaded_c_server.EzQueue.Fifo
use multithreaded_c_server.EzQueue.Fifo.{Fifo}
use multithreaded_c_server.EzQueue.Refine.{as_fifo, enqueue_refines}
use multithreaded_c_server.ConnMgr.{ConnMgr, World, update, ConnMemory, create_new_conn}

-- A context that waits for the header of its first message.
abbrev pub fresh_conn : ℕ → List Byte → List Byte → Conn
fresh_conn fd p_recv_buf p_send_buf = record {
  type = inbound_conn;
  ref_count = pos 0;
  fd = pos fd;
  p_recv_buf = p_recv_buf;
  bytes_read = 0;
  bytes_to_read = header_size;
  p_send_buf = p_send_buf;
  bytes_sent = 0;
  bytes_to_send = 0;
  state = read_header;
}

-- What the abstract queue's answer to the new context makes of a call.
abbrev pub Creates :
    ConnMgr → World → Ptr → Conn → ℤ × Fifo → Option (ℤ × Option ConnMgr × World) → Type 0
Creates mgr w p c answer out =
    (q' : EzQueue) × (out
      ≡ some (
        answer.0,
        some (record mgr { p_new_conns = some q' }),
        if is_zero answer.0 then record w { contexts = update w.contexts p (some c) } else w,
      ))
    × QueueOf.IsValid q'
    × (as_fifo q' ≡ answer.1)

-- With memory for its parts, an inbound connection is queued as the abstract queue says: its
-- context, ready to read a header, is then on the heap, and where the queue refuses it the call
-- reports that, and the heap is as before.
pub create_new_conn-Creates :
    (malloc : Malloc Ptr) (memory : ConnMemory) (fd : ℕ) (mgr : ConnMgr) (w : World) {q : EzQueue}
    {p : Ptr} {blank : Conn} {p_recv_buf p_send_buf : List Byte}
    → MallocLaw malloc
    → mgr.p_new_conns ≡ some q
    → QueueOf.IsValid q
    → memory.ctx ≡ some (p, blank)
    → memory.mutex_res ≡ success
    → memory.recv_buf ≡ some p_recv_buf
    → memory.send_buf ≡ some p_send_buf
    → Creates mgr w p
        (fresh_conn fd p_recv_buf p_send_buf)
        (Fifo.put (is_some (malloc (grown q.max_items))) (as_fifo q) p)
        (create_new_conn malloc memory (pos fd) (some mgr) inbound_conn w)
unfolding create_new_conn
create_new_conn-Creates malloc memory fd mgr w {q} {p} law queue valid ctx mutex recv send =
    let (q', done, valid', same) = enqueue_refines malloc p law valid in
    (
      q',
      elim (Bool-cases
          (is_zero (Fifo.put (is_some (malloc (grown q.max_items))) (as_fifo q) p).0)) [
            | inl e ↦ rw (ctx, mutex, recv, send, queue, done, e)
            | inr e ↦ rw (ctx, mutex, recv, send, queue, done, e)
          ],
      valid',
      same,
    )

is_zero-success : (res : ℤ) → is_zero res ≡ true → res ≡ success
is_zero-success (pos n) e = ap pos (ground (arith, e))
is_zero-success (negsuc n) e = absurd cc

module _ (malloc : Malloc Ptr) (memory : ConnMemory) (fd : ℕ) (mgr : ConnMgr) (w : World)
    (q : EzQueue) where
  -- How a call for an inbound connection ends.
  pub data CreateEnds : Option (ℤ × Option ConnMgr × World) → Type 0 where
    no_context : memory.ctx ≡ none → CreateEnds (some (failure, some mgr, w))
    no_mutex :
        {p : Ptr} {blank : Conn}
        → memory.ctx ≡ some (p, blank)
        → is_zero memory.mutex_res ≡ false
        → CreateEnds (some (memory.mutex_res, some mgr, w))
    unreported :
        {p : Ptr} {blank : Conn}
        → memory.ctx ≡ some (p, blank)
        → memory.mutex_res ≡ success
        → (memory.recv_buf ≡ none) ⊎ (memory.send_buf ≡ none)
        → CreateEnds (some (success, some mgr, w))
    answered :
        {p : Ptr} {blank : Conn} {p_recv_buf p_send_buf : List Byte}
        {out : Option (ℤ × Option ConnMgr × World)}
        → memory.ctx ≡ some (p, blank)
        → memory.mutex_res ≡ success
        → memory.recv_buf ≡ some p_recv_buf
        → memory.send_buf ≡ some p_send_buf
        → Creates mgr w p
            (fresh_conn fd p_recv_buf p_send_buf)
            (Fifo.put (is_some (malloc (grown q.max_items))) (as_fifo q) p)
            out
        → CreateEnds out

  -- What `connmgr_create_new_conn` reports of an inbound connection with a descriptor that is not
  -- negative, whatever the allocations and
  -- the mutex call return: an error if there is no context or no mutex, what the abstract queue
  -- says if there is everything, but success if only a buffer is missing, though there is then no
  -- new connection and nothing has changed. The queue is valid and malloc keeps its contract.
  pub create_new_conn-CreateEnds :
      MallocLaw malloc
      → mgr.p_new_conns ≡ some q
      → QueueOf.IsValid q
      → CreateEnds (create_new_conn malloc memory (pos fd) (some mgr) inbound_conn w)
  unfolding create_new_conn
  create_new_conn-CreateEnds law queue valid = elim (Option-cases memory.ctx) [
    | inl e ↦ subst CreateEnds (rw e) (no_context e)
    | inr ((p, blank), e) ↦ elim (Bool-cases (is_zero memory.mutex_res)) [
      | inr bad ↦ subst CreateEnds (rw (e, bad)) (no_mutex e bad)
      | inl good ↦
          let ok : memory.mutex_res ≡ success = is_zero-success memory.mutex_res good in
          elim (Option-cases memory.recv_buf) [
            | inl no_recv ↦
                subst CreateEnds (rw (e, good, no_recv, sym ok)) (unreported e ok (inl no_recv))
            | inr (recv, some_recv) ↦ elim (Option-cases memory.send_buf) [
              | inl no_send ↦
                  subst CreateEnds (rw (e, good, some_recv, no_send, sym ok))
                    (unreported e ok (inr no_send))
              | inr (send, some_send) ↦ answered e ok some_recv some_send (
                  create_new_conn-Creates malloc memory fd mgr w law queue valid e ok some_recv
                    some_send)
            ]
          ]
    ]
  ]
