-- ===== src/Pong.antt =====
-- The ping-pong protocol of src/libs/protocols/pong.c. Logging is left out.
pub mod Replies
pub mod Reply
use multithreaded_c_server.Common.{
  ℕ, suc, ◌+◌, ◌%◌, Bool, not, ◌&&◌, ◌||◌, Option, none, some, List, [], ◌∷◌, ◌==◌, if◌then◌else◌,
  ℤ, success, failure, ◌>>=◌, load, copy_in, Byte, to_word, low_byte, high_byte, ByteOrder,
}

abbrev pub ping_type : ℕ
ping_type = 0

abbrev pub pong_type : ℕ
pong_type = 1

abbrev pub ping_pong_err : ℕ
ping_pong_err = 2

-- `sizeof(ping_pong_t)`, packed: 1 + 2 + 2 + 1 + 5.
abbrev pub message_size : ℕ
message_size = 11

-- `ping_pong_t`. `len` and `cli_id` are the values that the host reads in the fields.
pub record PingPong : Type 0 where
  pub type : Byte
  pub len : ℕ
  pub cli_id : ℕ
  pub volley : Byte
  pub buf : List Byte

-- Its bytes.
unfoldable pub bytes : PingPong → List Byte
bytes m =
    m.type
    ∷ low_byte m.len
    ∷ high_byte m.len
    ∷ low_byte m.cli_id
    ∷ high_byte m.cli_id
    ∷ m.volley
    ∷ m.buf

abbrev pub no_text : List Byte
no_text = 0 ∷ 0 ∷ 0 ∷ 0 ∷ 0 ∷ []

-- "pong" and its terminator.
abbrev pub pong_text : List Byte
pong_text = b'p' ∷ b'o' ∷ b'n' ∷ b'g' ∷ 0 ∷ []

module _ (order : ByteOrder) where
  open order use {htons, ntohs}

  pub error_response : ℕ → PingPong
  error_response cli_id = record {
    type = ping_pong_err;
    len = htons message_size;
    cli_id = htons cli_id;
    volley = 0;
    buf = no_text;
  }

  pub pong_response : (cli_id : ℕ) → Byte → PingPong
  pong_response cli_id volley = record {
    type = pong_type;
    len = htons message_size;
    cli_id = htons cli_id;
    volley = (volley + 1) % 256;
    buf = pong_text;
  }

  -- The response to a message of the right length, from the fields of `p_in`.
  pub respond : List Byte → Option PingPong
  unfolding error_response pong_response
  respond p_in = do
    type ← load p_in 0
    low ← load p_in 3
    high ← load p_in 4
    volley ← load p_in 5
    c0 ← load p_in 6
    c1 ← load p_in 7
    c2 ← load p_in 8
    c3 ← load p_in 9
    some (
        if not (type == ping_type) || not (c0 == b'p' && c1 == b'i' && c2 == b'n' && c3 == b'g')
        then error_response (ntohs (to_word low high))
        else pong_response (ntohs (to_word low high)) volley)

  -- `p_in_buf`, `p_out_buf` and `p_out_len` may be NULL. The call returns its result, the output
  -- buffer and `*p_out_len`.
  pub create_response :
      Option (List Byte)
      → Option (List Byte)
      → ℕ
      → Option ℕ
      → Option (ℤ × Option (List Byte) × Option ℕ)
  unfolding respond
  create_response none out inbuf_len out_len = some (failure, out, out_len)
  create_response (some p_in) none inbuf_len out_len = some (failure, none, out_len)
  create_response (some p_in) (some out) inbuf_len none = some (failure, some out, none)
  create_response (some p_in) (some out) inbuf_len (some out_len) = do
    response ← if inbuf_len == message_size then respond p_in else some (error_response 0)
    out' ← copy_in out 0 (bytes response)
    some (success, some out', some message_size)
