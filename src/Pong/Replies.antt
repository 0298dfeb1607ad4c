-- ===== src/Pong/Replies.antt =====
-- Every message gets one of two replies, in network byte order.
use multithreaded_c_server.Common.{
  ℕ, ◌+◌, ◌%◌, ◌≤◌, ◌<◌, ◌≡◌, ◌≢◌, refl, ap, ◌∙◌, some, List, [], ◌∷◌, arith, length, take, ◌==◌,
  if◌then◌else◌, success, overlay, copy_in-overlay, length-overlay, take-overlay, Byte, to_word,
  low_byte, high_byte, ByteOrder,
}
use multithreaded_c_server.Pong.{
  PingPong, bytes, pong_text, no_text, message_size, respond, error_response, pong_response,
  create_response,
}

-- The bytes of a reply on the wire, given as type, client id (high byte first), volley and text.
abbrev pub wire : Byte → (id_high id_low volley : Byte) → List Byte → List Byte
wire type id_high id_low volley text = type ∷ 0 ∷ 11 ∷ id_high ∷ id_low ∷ volley ∷ text

module _ (order : ByteOrder) where
  open order use {htons, ntohs, htons_word, ntohs_word}

  -- What a call writes: the reply over the front of the output buffer, and its length.
  abbrev pub Replies : List Byte → List Byte → ℕ → ℕ → List Byte → Type 0
  Replies p_in out inbuf_len out_len reply =
      (out' : List Byte) × (create_response order (some p_in) (some out) inbuf_len (some out_len)
        ≡ some (success, some out', some message_size))
      × (take message_size out' ≡ reply)
      × (length out' ≡ length out)

  -- A client id is written as it was read.
  id_kept : (h l : Byte) → h < 256 → l < 256 → htons (ntohs (to_word h l)) ≡ to_word h l
  id_kept h l p q = ap htons (ntohs_word h l p q) ∙ htons_word h l p q

  size_word : htons message_size ≡ to_word 0 11
  size_word = htons_word 0 11 (omega arith) (omega arith)

  word_bytes :
      (h l : Byte)
      → h < 256
      → l < 256
      → (low_byte (to_word h l) ≡ h) × (high_byte (to_word h l) ≡ l)
  word_bytes h l p q = omega arith

  pub bytes-error_response :
      (h l : Byte)
      → h < 256
      → l < 256
      → bytes (error_response order (ntohs (to_word h l))) ≡ wire 2 h l 0 no_text
  unfolding bytes error_response
  bytes-error_response h l p q =
      let (low, high) = word_bytes h l p q in rw (size_word, id_kept h l p q, low, high)

  bytes-error_response_zero : bytes (error_response order 0) ≡ wire 2 0 0 0 no_text
  unfolding bytes error_response
  bytes-error_response_zero = rw (size_word, htons_word 0 0 (omega arith) (omega arith))

  pub bytes-pong_response :
      (h l v : Byte)
      → h < 256
      → l < 256
      → bytes (pong_response order (ntohs (to_word h l)) v) ≡ wire 1 h l ((v + 1) % 256) pong_text
  unfolding bytes pong_response
  bytes-pong_response h l v p q =
      let (low, high) = word_bytes h l p q in rw (size_word, id_kept h l p q, low, high)

  -- The copy of the eleven bytes of a reply.
  pub Replies-copy :
      (p_in out : List Byte) (inbuf_len out_len : ℕ) (m : PingPong) (reply : List Byte)
      → message_size ≤ length out
      → bytes m ≡ reply
      → length reply ≡ message_size
      → (if inbuf_len == message_size then respond order p_in else some (error_response order 0))
        ≡ some m
      → Replies p_in out inbuf_len out_len reply
  unfolding create_response
  Replies-copy p_in out inbuf_len out_len m reply room e size r = (
    overlay out 0 reply,
    rw (r, e, copy_in-overlay out 0 reply (omega arith)),
    ap (λ n. take n (overlay out 0 reply)) {x = message_size} {y = 0 + length reply} (omega arith)
        ∙ take-overlay out 0 reply (omega arith),
    length-overlay out 0 reply,
  )

  -- A message of the wrong length is answered by an error with client id 0.
  pub wrong_length :
      (p_in out : List Byte) (inbuf_len out_len : ℕ)
      → inbuf_len ≢ message_size
      → message_size ≤ length out
      → Replies p_in out inbuf_len out_len (wire 2 0 0 0 (0 ∷ 0 ∷ 0 ∷ 0 ∷ 0 ∷ []))
  wrong_length p_in out inbuf_len out_len wrong room =
      Replies-copy p_in out inbuf_len out_len (error_response order 0) _ room
        bytes-error_response_zero refl (ground arith)
