-- ===== src/NetIo/Keeps.antt =====
-- Reading and writing on a connection leave its reference count, descriptor and kind alone.
use mathlib.Core.Option.{some-injective}
use multithreaded_c_server.Common.{
  subst, sym, success, ◌==◌, ◌≡◌, refl, Bool, true, false, Option, some, List, if◌then◌else◌, ℤ,
  Byte, ByteOrder,
}
use multithreaded_c_server.Conn.{
  Conn, ConnState, read_header, read_content, write_response, pending_close, special_conn,
  header_size, io_buf_size,
}
use multithreaded_c_server.NetIo.{
  IoErr, generic_error, io_success, io_eof, io_ewouldblock, recv_err, send_err, Received, Sent, Run,
  done, fault, pending, ◌>>=◌, checked, zero_fill, incoming_len, recvall, sendall, count_received,
  count_sent, after_header, make_response, after_content, read_in_state, handle_sock_data_in,
  after_send, handle_sock_data_out,
}

abbrev pub SameConn : Conn → Conn → Type 0
SameConn c c' = (c'.ref_count ≡ c.ref_count) × (c'.fd ≡ c.fd) × (c'.type ≡ c.type)

-- If a run has a result, there is a connection in it, the same one as before.
abbrev pub Kept : {A : Type 0} → (A → Option Conn) → Conn → Run A → Type 0
Kept get c (done a) = (c' : Conn) × (get a ≡ some c') × SameConn c c'
Kept get c fault = Unit {0}
Kept get c pending = Unit {0}

module _ {A : Type 0} (get : A → Option Conn) (c : Conn) where
  if-Kept : (b : Bool) (x y : Run A) → Kept get c x → Kept get c y → Kept get c (if b then x else y)
  if-Kept true x y kx ky = kx
  if-Kept false x y kx ky = ky

  bind-Kept :
      {B : Type 0} (r : Run B) (f : B → Run A) → ((b : B) → Kept get c (f b)) → Kept get c (r >>= f)
  bind-Kept (done b) f kf = kf b
  bind-Kept fault f kf = tt
  bind-Kept pending f kf = tt

abbrev with_res : ℤ × Conn → Option Conn
with_res out = some out.1

-- Nothing of it is touched.
same : (c : Conn) → SameConn c c
same c = (refl, refl, refl)

make_response-Kept : (order : ByteOrder) (c : Conn) → Kept some c (make_response order c)
unfolding make_response
make_response-Kept order c = bind-Kept some c (checked _) _ (λ made.
    bind-Kept some c (checked (zero_fill io_buf_size c.p_recv_buf)) _
      (λ cleared. (_, refl, same c)))

after_header-Kept :
    (order : ByteOrder) (err : IoErr) (c : Conn) → Kept with_res c (after_header order err c)
unfolding after_header
after_header-Kept order io_success c =
    if-Kept with_res c (c.bytes_read == header_size) _ _
      (bind-Kept with_res c (checked (incoming_len order c.p_recv_buf)) _
        (λ len. (_, refl, same c)))
      (_, refl, same c)
after_header-Kept order io_ewouldblock c = (_, refl, same c)
after_header-Kept order io_eof c = (_, refl, same c)
after_header-Kept order generic_error c = (_, refl, same c)
after_header-Kept order recv_err c = (_, refl, same c)
after_header-Kept order send_err c = (_, refl, same c)

result-Kept :
    (c : Conn) (r : Run Conn) → Kept some c r → Kept with_res c (r >>= λ c'. done (success, c'))
result-Kept c (done c') (c2, e, kept) =
    (c', refl, subst (SameConn c) (sym (some-injective _ _ e)) kept)
result-Kept c fault kept = tt
result-Kept c pending kept = tt

after_content-Kept :
    (order : ByteOrder) (err : IoErr) (c : Conn) → Kept with_res c (after_content order err c)
unfolding after_content
after_content-Kept order io_success c =
    if-Kept with_res c (c.bytes_to_read == 0) _ _
      (result-Kept c (make_response order c) (make_response-Kept order c)) (_, refl, same c)
after_content-Kept order io_ewouldblock c = (_, refl, same c)
after_content-Kept order io_eof c = (_, refl, same c)
after_content-Kept order generic_error c = (_, refl, same c)
after_content-Kept order recv_err c = (_, refl, same c)
after_content-Kept order send_err c = (_, refl, same c)

abbrev after_read : ℤ × Option Conn → Option Conn
after_read out = out.1

read_in_state-Kept :
    (order : ByteOrder) (state : ConnState) (c : Conn) (script : List Received)
    → Kept with_res c (read_in_state order state c script)
unfolding read_in_state
read_in_state-Kept order read_header c script =
    bind-Kept with_res c (recvall script c.p_recv_buf c.bytes_read c.bytes_to_read) _
      (λ out. after_header-Kept order out.0 (count_received c out.1 out.2))
read_in_state-Kept order read_content c script =
    bind-Kept with_res c (recvall script c.p_recv_buf c.bytes_read c.bytes_to_read) _
      (λ out. after_content-Kept order out.0 (count_received c out.1 out.2))
read_in_state-Kept order write_response c script = (_, refl, same c)
read_in_state-Kept order pending_close c script = (_, refl, same c)
read_in_state-Kept order special_conn c script = (_, refl, same c)

wrapped-Kept :
    (c : Conn) (r : Run (ℤ × Conn))
    → Kept with_res c r
    → Kept after_read c (r >>= λ out. done (out.0, some out.1))
wrapped-Kept c (done out) kept = kept
wrapped-Kept c fault kept = tt
wrapped-Kept c pending kept = tt

pub handle_sock_data_in-Kept :
    (order : ByteOrder) (c : Conn) (script : List Received)
    → Kept (λ out. out.1) c (handle_sock_data_in order (some c) script)
unfolding handle_sock_data_in
handle_sock_data_in-Kept order c script =
    wrapped-Kept c (read_in_state order c.state c script)
      (read_in_state-Kept order c.state c script)

after_send-Kept : (err : IoErr) (c : Conn) → Kept with_res c (after_send err c)
unfolding after_send
after_send-Kept io_success c =
    if-Kept with_res c (c.bytes_to_send == 0) _ _
      (bind-Kept with_res c (checked (zero_fill io_buf_size c.p_send_buf)) _
        (λ cleared. (_, refl, same c)))
      (_, refl, same c)
after_send-Kept io_ewouldblock c = (_, refl, same c)
after_send-Kept io_eof c = (_, refl, same c)
after_send-Kept generic_error c = (_, refl, same c)
after_send-Kept recv_err c = (_, refl, same c)
after_send-Kept send_err c = (_, refl, same c)

wrapped_out-Kept :
    (c : Conn) (wire : List Byte) (r : Run (ℤ × Conn))
    → Kept with_res c r
    → Kept {A = ℤ × Option Conn × List Byte}
        (λ out. out.1)
        c
        (r >>= λ out. done (out.0, some out.1, wire))
wrapped_out-Kept c wire (done out) kept = kept
wrapped_out-Kept c wire fault kept = tt
wrapped_out-Kept c wire pending kept = tt

pub handle_sock_data_out-Kept :
    (c : Conn) (script : List Sent) → Kept (λ out. out.1) c (handle_sock_data_out (some c) script)
unfolding handle_sock_data_out
handle_sock_data_out-Kept c script =
    bind-Kept (λ out. out.1) c (sendall script c.p_send_buf c.bytes_to_send) _
      (λ out.
        wrapped_out-Kept c out.2 (after_send out.0 (count_sent c out.1))
          (after_send-Kept out.0 (count_sent c out.1)))
