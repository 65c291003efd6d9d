-- ===== src/Http/ServerConnection/Messages.antt =====
-- Web messages from ServerConnection of include/crab/http/connection.hxx to the parsers of
-- include/crab/http/web_message_parser.hpp.
use Prim.Native.Nat.{bit_and}
use crablib.Base.{
  ℕ, ◌+◌, ◌^◌, ◌≤◌, ◌<◌, min, ◌≡◌, refl, ap, ◌∙◌, true, false, not, ◌&&◌, ◌||◌, none, some, List,
  [], ◌∷◌, ◌++◌, append-nil, append_assoc, arith, ltb, ◌==◌, if◌then◌else◌, Bool-cases, ok, err,
  inl, inr, Bytes, length, IsBytes, IsBytes-take, IsBytes-append, length-take, length-append,
  take-length_add, drop-length_add,
}
use crablib.Http.Header.{is_empty}
use crablib.Http.BufferedSocket.{BufferOptions}
use crablib.Http.ServerConnection.{
  ServerConnection, Call, Done, Opcode, text, binary, close, ping, pong, WebMessage, code, is_data,
  is_close, is_state_websocket, cancel_ping_timer, clear_read_buffer, write_shutdown, is_write_now,
  ping_after, web_message_create_close_body, message_body, write_message,
}
use crablib.Http.ServerConnection.Sends.{sent_bytes, Sends}
use crablib.WebMessage.Header as Header
use crablib.WebMessage.Header.{saver, is_opcode_supported}
use crablib.WebMessage.Header.RoundTrip.{parsed, parse-saver}
use crablib.WebMessage.Body as Body
use crablib.WebMessage.Body.{BodyParser}
use crablib.WebMessage.Body.Stream.{after, parse_lem, start-IsValid}
use crablib.WebMessage.Mask.Reference.{mask_spec_zero}

pub code_supported : (op : Opcode) → is_opcode_supported (code op) ≡ true
unfolding is_opcode_supported
code_supported text = refl
code_supported binary = refl
code_supported close = refl
code_supported ping = refl
code_supported pong = refl

-- Fewer than 2 ^ 64 bytes, and at most 125 where the opcode is 8 or above.
message_body-length :
    (m : WebMessage)
    → length m.body < 2 ^ 64
    → (length (message_body m) < 2 ^ 64)
      × ((is_data m.opcode ≡ false) → length (message_body m) ≤ 125)
unfolding message_body
message_body-length m h = elim (Bool-cases (is_data m.opcode)) [
  | inl e ↦ ground arith
  | inr e ↦ ground (
    arith,
    length-take 125 (web_message_create_close_body m.body m.close_code),
    length-take 125 m.body,
  )
]

close_body-IsBytes :
    (reason : Bytes) (close_code : ℕ)
    → IsBytes reason
    → close_code < 2 ^ 16
    → IsBytes (web_message_create_close_body reason close_code)
unfolding web_message_create_close_body
close_body-IsBytes reason close_code h k =
    elim (Bool-cases (is_empty reason && close_code == 1005)) [
      | inl e ↦ rw e tt
      | inr e ↦ rw e (elim (Bool-cases (ltb close_code 1000)) [
        | inl low ↦ rw low (omega arith, (omega arith, h))
        | inr high ↦ rw high (omega arith, (omega arith, h))
      ])
    ]

message_body-IsBytes :
    (m : WebMessage) → IsBytes m.body → m.close_code < 2 ^ 16 → IsBytes (message_body m)
unfolding message_body
message_body-IsBytes m h k = elim (Bool-cases (is_data m.opcode)) [
  | inl e ↦ rw e h
  | inr e ↦ elim (Bool-cases (is_close m.opcode)) [
    | inl f ↦
        rw (e, f)
          (IsBytes-take 125 (web_message_create_close_body m.body m.close_code)
            (close_body-IsBytes m.body m.close_code h k))
    | inr f ↦ rw (e, f) (IsBytes-take 125 m.body h)
  ]
]

control_not_data : (op : Opcode) → (bit_and (code op) 0x08 == 0) ≡ false → is_data op ≡ false
control_not_data text h = absurd (ground arith)
control_not_data binary h = absurd (ground arith)
control_not_data close h = refl
control_not_data ping h = refl
control_not_data pong h = refl

abbrev written : WebMessage → Bytes
written m = saver true (code m.opcode) (length (message_body m)) none ++ message_body m

-- What follows the message has no bytes.
abbrev closing : WebMessage → BufferOptions → List Call
closing m bo =
    if is_close m.opcode
    then cancel_ping_timer ∷ (clear_read_buffer ∷ (write_shutdown ∷ []))
    else ping_after bo

closing-bytes : (m : WebMessage) (bo : BufferOptions) → sent_bytes (closing m bo) ≡ []
closing-bytes m bo = elim (Bool-cases (is_close m.opcode)) [
  | inl e ↦ rw e refl
  | inr e ↦ rw e (elim (Bool-cases (is_write_now bo)) [ inl f ↦ rw f refl | inr f ↦ rw f refl ])
]

write_message-Sends :
    (c : ServerConnection) (m : WebMessage) (bo : BufferOptions)
    → c.is_open ≡ true
    → is_state_websocket c.state ≡ true
    → (not (is_data m.opcode) || not c.writing_web_message_body) ≡ true
    → Sends (λ d. d ≡ c) (written m) (write_message c m bo)
unfolding write_message
write_message-Sends c m bo opened s free =
    rw (opened, s, free)
      (
        refl,
        ap
              (λ last.
                saver true (code m.opcode) (length (message_body m)) none
                ++ (message_body m ++ last))
              (closing-bytes m bo)
            ∙ ap (◌++◌ (saver true (code m.opcode) (length (message_body m)) none))
                (append-nil (message_body m)),
      )

pub calls_of :
    (c : ServerConnection) (val : Bytes) (done : Done)
    → Sends (λ d. d ≡ c) val done
    → (calls : List Call) × (done ≡ ok (c, calls)) × (sent_bytes calls ≡ val)
calls_of c val (ok (d, calls)) (e, bytes) = (calls, ap (λ d'. ok (d', calls)) e, bytes)
calls_of c val (err e) p = elim p [ ]

-- The payload of a frame without a key.
parse_unmasked :
    (gap : BodyParser → ℕ) (payload rest : Bytes)
    → length payload < 2 ^ 64
    → IsBytes payload
    → IsBytes rest
    → (q : BodyParser) × (Body.parse gap (Body.start (length payload) none) (payload ++ rest)
        ≡ some (ok (q, rest)))
      × (q.body ≡ payload)
      × (Body.is_good q ≡ true)
unfolding Body.start Body.is_good
parse_unmasked gap payload rest len h r =
    let p = Body.start (length payload) none in
    let v = start-IsValid (length payload) none len (λ j e. absurd (ground arith)) in
    let cut : min (length (payload ++ rest)) (length payload) ≡ length payload + 0 =
      omega (arith, length-append payload rest) in
    let t = take-length_add payload rest 0 ∙ append-nil payload in
    (
      after p payload,
      parse_lem gap p (payload ++ rest) v (IsBytes-append payload rest h r)
          ∙ rw (cut, t, drop-length_add payload rest 0),
      mask_spec_zero 0 payload,
      ground arith,
    )

-- An open ServerConnection in a WebSocket state, with no fragmented message under way where the
-- message is of data, writes a message without an exception and stays as it is. From its bytes a
-- fresh WebMessageHeaderParser reads a final frame of the message's opcode, without a key, and a
-- WebMessageBodyParser for that frame then reads the body that is sent, for a body of fewer than
-- 2 ^ 64 bytes and a close code of 16 bits; it leaves what follows.
pub write_message-parse :
    (gap : BodyParser → ℕ) (c : ServerConnection) (m : WebMessage) (bo : BufferOptions)
    (rest : Bytes)
    → c.is_open ≡ true
    → is_state_websocket c.state ≡ true
    → (not (is_data m.opcode) || not c.writing_web_message_body) ≡ true
    → length m.body < 2 ^ 64
    → IsBytes m.body
    → m.close_code < 2 ^ 16
    → IsBytes rest
    → (calls : List Call) × (frame : Header.Parser) × (left : Bytes) × (q : BodyParser)
      × (write_message c m bo ≡ ok (c, calls))
      × (Header.parse Header.initial (sent_bytes calls ++ rest) ≡ ok (frame, left))
      × (Header.is_good frame ≡ true)
      × (frame.fin ≡ true)
      × (frame.opcode ≡ code m.opcode)
      × (frame.masking_key ≡ none)
      × (Body.parse gap (Body.start frame.payload_len frame.masking_key) left ≡ some (ok (q, rest)))
      × (Body.is_good q ≡ true)
      × (q.body ≡ message_body m)
unfolding Header.is_good
write_message-parse gap c m bo rest opened s free len h k r =
    let body = message_body m in
    let (fits, short) = message_body-length m len in
    let (calls, done, bytes) =
      calls_of c (written m) (write_message c m bo) (write_message-Sends c m bo opened s free) in
    let (q, read, whole, good) = parse_unmasked gap body rest fits (message_body-IsBytes m h k) r in
    (
      calls,
      parsed true (code m.opcode) (length body) none,
      body ++ rest,
      q,
      done,
      rw (bytes, append_assoc)
          (parse-saver true (code m.opcode) (length body) none (body ++ rest)
            (code_supported m.opcode) fits tt (λ e. (short (control_not_data m.opcode e), refl))),
      refl,
      refl,
      refl,
      refl,
      read,
      good,
      whole,
    )
