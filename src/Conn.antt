-- ===== src/Conn.antt =====
-- `conn_ctx_t` of src/libs/connmgr/connmgr.h: the state of one connection.
use multithreaded_c_server.Common.{ℕ, List, ℤ, Byte}

-- `conn_type_t`
pub data ConnType : Type 0 where
  internal_conn inbound_conn : ConnType

pub data ConnState : Type 0 where
  read_header read_content write_response pending_close special_conn : ConnState

-- The mutex and the address are left out: who holds the mutex is a matter of the callers, and
-- nothing reads the address. A buffer that was not allocated is the empty list.
pub record Conn : Type 0 where
  pub type : ConnType
  pub ref_count : ℤ
  pub fd : ℤ
  pub p_recv_buf : List Byte
  pub bytes_read : ℕ
  pub bytes_to_read : ℕ
  pub p_send_buf : List Byte
  pub bytes_sent : ℕ
  pub bytes_to_send : ℕ
  pub state : ConnState

abbrev pub header_size : ℕ
header_size = 3

abbrev pub io_buf_size : ℕ
io_buf_size = 1024
