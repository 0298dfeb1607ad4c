-- ===== src/NetIo/Receive.antt =====
-- The loops around recv and send, against what a stream socket delivers and takes.
use multithreaded_c_server.Common.{
  ℕ, suc, ◌+◌, ◌≤◌, ◌<◌, ◌≡◌, refl, sym, ap, ap₂, ◌∙◌, List, [], ◌∷◌, ◌++◌, arith, length,
  length-append, lt→ltb, le→not_ltb, overlay, copy_in-overlay, overlay-append, overlay-nil,
  length-overlay, Byte,
}
use multithreaded_c_server.NetIo.{
  eintr, ewouldblock, eagain, other_errno, IoErr, io_success, io_eof, io_ewouldblock, recv_err,
  Received, got, recv_failed, Run, done, recv_error, recv_loop, recvall,
}

-- The replies of a stream socket to reads of `need` bytes in all: never more than asked for, with
-- interruptions, until all are in, the stream ends, it would block, or it fails. `bytes` is what
-- arrived, and `err` how it ended.
pub data Delivers : List Received → ℕ → List Byte → IoErr → Type 0 where
  full : {rs : List Received} {need : ℕ} → need ≡ 0 → Delivers rs need [] io_success
  interrupted :
      {rs : List Received} {need : ℕ} {bytes : List Byte} {err : IoErr}
      → 0 < need
      → Delivers rs need bytes err
      → Delivers (recv_failed eintr ∷ rs) need bytes err
  arrives :
      {rs : List Received} {need left : ℕ} {b : Byte} {bs more bytes : List Byte} {err : IoErr}
      → need ≡ length (b ∷ bs) + left
      → Delivers rs left more err
      → bytes ≡ b ∷ (bs ++ more)
      → Delivers (got (b ∷ bs) ∷ rs) need bytes err
  ends : {rs : List Received} {need : ℕ} → 0 < need → Delivers (got [] ∷ rs) need [] io_eof
  blocks :
      {rs : List Received} {need : ℕ}
      → 0 < need
      → Delivers (recv_failed ewouldblock ∷ rs) need [] io_ewouldblock
  tries_again :
      {rs : List Received} {need : ℕ}
      → 0 < need
      → Delivers (recv_failed eagain ∷ rs) need [] io_ewouldblock
  breaks :
      {rs : List Received} {need : ℕ} (k : ℕ)
      → 0 < need
      → Delivers (recv_failed (other_errno k) ∷ rs) need [] recv_err

-- All the bytes arrived, exactly where the outcome is success; never more than asked for.
pub Delivers-counts :
    {rs : List Received} {need : ℕ} {bytes : List Byte} {err : IoErr}
    → Delivers rs need bytes err
    → (length bytes ≤ need)
      × (err ≡ io_success → length bytes ≡ need)
      × (length bytes ≡ need → err ≡ io_success)
Delivers-counts (full e) = (omega arith, λ _. omega arith, λ _. refl)
Delivers-counts (interrupted pos d) = Delivers-counts d
Delivers-counts (arrives {bs} {more} e d split) =
    let (le, all, whole) = Delivers-counts d in
    (
      omega (arith, ap length split, length-append bs more),
      λ s. omega (arith, all s, ap length split, length-append bs more),
      λ s. whole (omega (arith, ap length split, length-append bs more)),
    )
Delivers-counts (ends pos) = (omega arith, λ e. cc, λ e. absurd (omega arith))
Delivers-counts (blocks pos) = (omega arith, λ e. cc, λ e. absurd (omega arith))
Delivers-counts (tries_again pos) = (omega arith, λ e. cc, λ e. absurd (omega arith))
Delivers-counts (breaks k pos) = (omega arith, λ e. cc, λ e. absurd (omega arith))

-- Nothing more is read once all the bytes are in.
recv_loop_full :
    (rs : List Received) (buf : List Byte) (off len total : ℕ)
    → len ≤ total
    → recv_loop rs buf off len total ≡ done (io_success, total, buf)
unfolding recv_loop
recv_loop_full [] buf off len total h = rw (le→not_ltb total len h)
recv_loop_full (recv_failed eintr ∷ rs) buf off len total h = rw (le→not_ltb total len h)
recv_loop_full (recv_failed e ∷ rs) buf off len total h = rw (le→not_ltb total len h)
recv_loop_full (got [] ∷ rs) buf off len total h = rw (le→not_ltb total len h)
recv_loop_full (got (b ∷ bs) ∷ rs) buf off len total h = rw (le→not_ltb total len h)

-- The loop stops with nothing more read.
stopped :
    (err : IoErr) (buf : List Byte) (off total : ℕ)
    → ◌≡◌ {A = Run (IoErr × ℕ × List Byte)}
        (done (err, total, buf))
        (done (err, total + 0, overlay buf (off + total) []))
stopped err buf off total =
    ap₂ (λ (n : ℕ) (b : List Byte). done (err, n, b)) (omega arith)
      (sym (overlay-nil buf (off + total)))

recv_loop_lem :
    {rs : List Received} {need : ℕ} {bytes : List Byte} {err : IoErr} (buf : List Byte)
    (off len total : ℕ)
    → Delivers rs need bytes err
    → total + need ≡ len
    → off + len ≤ length buf
    → recv_loop rs buf off len total
      ≡ done (err, total + length bytes, overlay buf (off + total) bytes)
unfolding recv_loop recv_error
recv_loop_lem {rs} buf off len total (full e) sum room =
    recv_loop_full rs buf off len total (omega arith) ∙ stopped io_success buf off total
recv_loop_lem buf off len total (interrupted pos d) sum room =
    rw (lt→ltb total len (omega arith)) (recv_loop_lem buf off len total d sum room)
recv_loop_lem {err} buf off len total (arrives {left} {b} {bs} {more} e d split) sum room =
    let fits : off + total + length (b ∷ bs) ≤ length buf = omega arith in
    let buf' = overlay buf (off + total) (b ∷ bs) in
    rw (lt→ltb total len (omega arith), copy_in-overlay buf (off + total) (b ∷ bs) fits)
      (recv_loop_lem buf' off len (total + suc (length bs)) d (omega arith)
          (omega (arith, length-overlay buf (off + total) (b ∷ bs)))
        ∙ ap₂ (λ (n : ℕ) (c : List Byte). done (err, n, c))
            (omega (arith, ap length split, length-append bs more))
            (ap (λ n. overlay buf' n more) {y = off + total + length (b ∷ bs)} (omega arith)
              ∙ sym (overlay-append buf (off + total) (b ∷ bs) more)
              ∙ ap (overlay buf (off + total)) (sym split)))
recv_loop_lem buf off len total (ends pos) sum room =
    rw (lt→ltb total len (omega arith)) (stopped io_eof buf off total)
recv_loop_lem buf off len total (blocks pos) sum room =
    rw (lt→ltb total len (omega arith)) (stopped io_ewouldblock buf off total)
recv_loop_lem buf off len total (tries_again pos) sum room =
    rw (lt→ltb total len (omega arith)) (stopped io_ewouldblock buf off total)
recv_loop_lem buf off len total (breaks k pos) sum room =
    rw (lt→ltb total len (omega arith)) (stopped recv_err buf off total)

-- `nl_recvall` returns, if the socket answers as it should and the buffer has room for all the
-- bytes asked for: it puts the bytes that arrived at `off`, leaves the rest of the buffer alone,
-- and reports their number and how the reading ended.
pub recvall_lem :
    {rs : List Received} {bytes : List Byte} {err : IoErr} (buf : List Byte) (off len : ℕ)
    → Delivers rs len bytes err
    → off + len ≤ length buf
    → recvall rs buf off len ≡ done (err, length bytes, overlay buf off bytes)
unfolding recvall
recvall_lem {bytes} {err} buf off len d room =
    recv_loop_lem buf off len 0 d (omega arith) room
    ∙ ap₂ (λ (n m : ℕ). done (err, n, overlay buf m bytes)) (omega arith) (omega arith)
