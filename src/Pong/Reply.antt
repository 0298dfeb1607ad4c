-- ===== src/Pong/Reply.antt =====
-- The reply to a message as a function of its bytes, and that it is what the code sends.
use multithreaded_c_server.Common.{
  ℕ, ◌+◌, ◌%◌, ◌≤◌, ◌<◌, ◌≡◌, refl, sym, ap, ◌∙◌, inl, inr, Bool, true, false, Bool-cases, not,
  ◌&&◌, ◌||◌, some, List, [], ◌∷◌, arith, length, take, get_or, ◌==◌, if◌then◌else◌, load,
  load-get_or, get_or-take, Byte, to_word, ByteOrder,
}
use multithreaded_c_server.Pong.{PingPong, bytes, respond, error_response, pong_response}
use multithreaded_c_server.Pong.Replies.{
  wire, Replies, wrong_length, Replies-copy, bytes-pong_response, bytes-error_response,
}

abbrev pub byte_at : List Byte → ℕ → Byte
byte_at msg i = get_or msg i 0

abbrev pub IsBytes : List Byte → Type 0
IsBytes msg = (i : ℕ) → byte_at msg i < 256

-- Type 0, and a text that begins with "ping".
abbrev pub is_ping : List Byte → Bool
is_ping msg =
    byte_at msg 0 == 0
    && (byte_at msg 6 == b'p'
        && byte_at msg 7 == b'i'
        && byte_at msg 8 == b'n'
        && byte_at msg 9 == b'g')

unfoldable pub reply_to : List Byte → List Byte
reply_to msg =
    if length msg == 11
    then if is_ping msg
      then wire 1 (byte_at msg 3) (byte_at msg 4) ((byte_at msg 5 + 1) % 256)
          (b'p' ∷ b'o' ∷ b'n' ∷ b'g' ∷ 0 ∷ [])
      else wire 2 (byte_at msg 3) (byte_at msg 4) 0 (0 ∷ 0 ∷ 0 ∷ 0 ∷ 0 ∷ [])
    else wire 2 0 0 0 (0 ∷ 0 ∷ 0 ∷ 0 ∷ 0 ∷ [])

-- The code tests for what is wrong with a message.
negated {ℓ} :
    {A : Type ℓ} (a b : Bool) (x y : A)
    → (if not a || not b then x else y) ≡ (if a && b then y else x)
negated true true x y = refl
negated true false x y = refl
negated false b x y = refl

module _ (order : ByteOrder) (p_in msg : List Byte) (front : take (length msg) p_in ≡ msg)
    (size : length msg ≡ 11) (room : 11 ≤ length p_in) where
  open order use {ntohs}

  load_at : (i : ℕ) → i < 11 → load p_in i ≡ some (byte_at msg i)
  load_at i h =
      load-get_or p_in i 0 (omega arith)
      ∙ ap some
          (sym (get_or-take (length msg) i p_in 0 (omega arith)) ∙ ap (λ b. get_or b i 0) front)

  response_of : PingPong
  response_of =
      if is_ping msg
      then pong_response order (ntohs (to_word (byte_at msg 3) (byte_at msg 4))) (byte_at msg 5)
      else error_response order (ntohs (to_word (byte_at msg 3) (byte_at msg 4)))

  respond-response_of : respond order p_in ≡ some response_of
  unfolding respond response_of
  respond-response_of =
      rw
        (
          load_at 0 (omega arith),
          load_at 3 (omega arith),
          load_at 4 (omega arith),
          load_at 5 (omega arith),
          load_at 6 (omega arith),
          load_at 7 (omega arith),
          load_at 8 (omega arith),
          load_at 9 (omega arith),
        )
        (ap some (negated (byte_at msg 0 == 0) _ _ _))

  reply_sized :
      IsBytes msg
      → (m : PingPong) × (respond order p_in ≡ some m)
        × (bytes m ≡ reply_to msg)
        × (length (reply_to msg) ≡ 11)
  unfolding response_of reply_to
  reply_sized ok = (
    response_of,
    respond-response_of,
    elim (Bool-cases (is_ping msg)) [
      | inl e ↦ rw (eleven, e) (bytes-pong_response order _ _ (byte_at msg 5) (ok 3) (ok 4))
      | inr e ↦ rw (eleven, e) (bytes-error_response order _ _ (ok 3) (ok 4))
    ],
    elim (Bool-cases (is_ping msg)) [ inl e ↦ rw (eleven, e) | inr e ↦ rw (eleven, e) ],
  )
    where
      eleven : (length msg == 11) ≡ true
      eleven = ground arith

-- `proto_pingpong_create_response` answers the message at the front of a buffer by the reply that
-- `reply_to` gives: a pong with the same client id and the next volley to a ping, an error to
-- anything else. It writes eleven bytes and reports that length.
pub create_response-reply_to :
    (order : ByteOrder) (p_in msg out : List Byte) (out_len : ℕ)
    → take (length msg) p_in ≡ msg
    → IsBytes msg
    → 11 ≤ length p_in
    → 11 ≤ length out
    → Replies order p_in out (length msg) out_len (reply_to msg)
unfolding reply_to
create_response-reply_to order p_in msg out out_len front ok room_in room =
    elim (Bool-cases (length msg == 11)) [
      | inl e ↦
          let size : length msg ≡ 11 = ground arith in
          let (m, r, b, n) = reply_sized order p_in msg front size room_in ok in
          Replies-copy order p_in out (length msg) out_len m (reply_to msg) room b n (rw e r)
      | inr e ↦ rw e (wrong_length order p_in out (length msg) out_len (ground arith) room)
    ]
