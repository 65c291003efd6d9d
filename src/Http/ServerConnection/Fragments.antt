-- ===== src/Http/ServerConnection/Fragments.antt =====
-- Web messages that ServerConnection of include/crab/http/connection.hxx sends in several frames,
-- and what WebMessageHeaderParser of include/crab/http/web_message_parser.hxx makes of them.
use Prim.Native.Nat.{bit_and}
use crablib.Base.{
  ℕ, ◌<◌, ◌≡◌, refl, sym, ap, ◌∙◌, true, false, none, some, List, [], ◌∷◌, ◌++◌, append-nil,
  append_assoc, arith, ◌==◌, Bool-cases, ok, err, runtime_error, inl, inr, Bytes, length,
}
use crablib.Http.BufferedSocket.{BufferOptions}
use crablib.Http.ServerConnection.{
  ServerConnection, Call, Done, then_do, Opcode, text, binary, close, ping, pong, code, is_data,
  is_state_websocket, is_write_now, ping_after, write_opcode, write_body, write_last_chunk,
}
use crablib.Http.ServerConnection.Sends.{sent_bytes, Sends, Sends-then, write_all, IsPut}
use crablib.Http.Chunked.RoundTrip.{concat, AllFit}
use crablib.Http.ServerConnection.Messages.{calls_of, code_supported}
use crablib.WebMessage.Header as Header
use crablib.WebMessage.Header.{saver}
use crablib.WebMessage.Header.RoundTrip.{parsed, parse-saver}
use crablib.WebMessage.Header.Frames.{parse-continuation}
use crablib.WebMessage.Layout.{read_frame, read_frame-saver, Continues, last, more}

-- The frames of the pieces, one for each that is not empty, with opcode 0 and not final.
abbrev frames : List Bytes → Bytes
frames [] = []
frames ([] ∷ vals) = frames vals
frames ((x ∷ xs) ∷ vals) = (saver false 0 (length (x ∷ xs)) none ++ (x ∷ xs)) ++ frames vals

-- All behind the first frame; the last one is final and empty.
abbrev fragments : List Bytes → Bytes
fragments vals = frames vals ++ saver true 0 0 none

-- `write(opcode)`, a `write` for each piece, and `write_last_chunk`.
unfoldable pub stream_message :
    (Bytes → BufferOptions → Call) → BufferOptions → ServerConnection → Opcode → List Bytes → Done
stream_message put bo c op vals =
    then_do (write_opcode c op)
      (λ d. then_do (write_all put bo d vals) (λ e. write_last_chunk e bo))

-- The connection `c` in the middle of a message.
abbrev in_message : ServerConnection → ServerConnection
in_message c = record c { writing_web_message_body = true }

ping-bytes : (bo : BufferOptions) → sent_bytes (ping_after bo) ≡ []
ping-bytes bo = elim (Bool-cases (is_write_now bo)) [ inl e ↦ rw e refl | inr e ↦ rw e refl ]

regroup : (a b c d e : Bytes) → (((a ++ b) ++ c) ++ d) ++ e ≡ a ++ (b ++ ((c ++ d) ++ e))
regroup a b c d e = simp append_assoc refl

module _ (put : Bytes → BufferOptions → Call) (bo : BufferOptions) (puts : IsPut put)
    (c : ServerConnection) where
  empty-Sends :
      (d : ServerConnection)
      → d ≡ in_message c
      → Sends (λ e. e ≡ in_message c) [] (write_body put d [] bo)
  unfolding write_body
  empty-Sends d e = rw e (refl, refl)

  piece-Sends :
      (x : ℕ) (xs : Bytes) (d : ServerConnection)
      → d ≡ in_message c
      → Sends
          (λ e. e ≡ in_message c)
          (saver false 0 (length (x ∷ xs)) none ++ (x ∷ xs))
          (write_body put d (x ∷ xs) bo)
  unfolding write_body
  piece-Sends x xs d e =
      let some_bytes : (length (x ∷ xs) == 0) ≡ false = ground arith in
      rw (e, some_bytes)
        (
          refl,
          ap (◌++◌ (saver false 0 (length (x ∷ xs)) none)) (
              puts (x ∷ xs) bo (ping_after bo)
              ∙ ap (◌++◌ (x ∷ xs)) (ping-bytes bo)
              ∙ append-nil (x ∷ xs)),
        )

  frames-Sends :
      (vals : List Bytes) (d : ServerConnection)
      → d ≡ in_message c
      → Sends (λ e. e ≡ in_message c) (frames vals) (write_all put bo d vals)
  unfolding write_all
  frames-Sends [] d e = (e, refl)
  frames-Sends ([] ∷ vals) d e =
      Sends-then (λ z. z ≡ in_message c) (λ z. z ≡ in_message c) [] (frames vals) _ _
        (empty-Sends d e) (λ f g. frames-Sends vals f g)
  frames-Sends ((x ∷ xs) ∷ vals) d e =
      Sends-then (λ z. z ≡ in_message c) (λ z. z ≡ in_message c)
        (saver false 0 (length (x ∷ xs)) none ++ (x ∷ xs)) (frames vals) _ _ (piece-Sends x xs d e)
        (λ f g. frames-Sends vals f g)

  last-Sends :
      (d : ServerConnection)
      → d ≡ in_message c
      → c.writing_web_message_body ≡ false
      → Sends (λ e. e ≡ c) (saver true 0 0 none) (write_last_chunk d bo)
  unfolding write_last_chunk
  last-Sends d e plain = rw e (
    ap (λ t. record c { writing_web_message_body = t }) (sym plain),
    ap (◌++◌ (saver true 0 0 none)) (ping-bytes bo) ∙ append-nil (saver true 0 0 none),
  )

  opcode-Sends :
      (op : Opcode)
      → c.is_open ≡ true
      → is_state_websocket c.state ≡ true
      → is_data op ≡ true
      → c.writing_web_message_body ≡ false
      → Sends (λ e. e ≡ in_message c) (saver false (code op) 0 none) (write_opcode c op)
  unfolding write_opcode
  opcode-Sends op opened s data_op plain =
      simp (opened, s, data_op, plain) (refl, append-nil (saver false (code op) 0 none))

refused :
    (vals : List Bytes) (rest : Bytes)
    → Header.parse Header.initial (fragments vals ++ rest) ≡ err (runtime_error "Invalid opcode")
refused [] rest = parse-continuation true 0 none rest
refused ([] ∷ vals) rest = refused vals rest
refused ((x ∷ xs) ∷ vals) rest =
    ap (Header.parse Header.initial) (
      regroup (saver false 0 (length (x ∷ xs)) none) (x ∷ xs) (frames vals) (saver true 0 0 none)
        rest)
    ∙ parse-continuation false (length (x ∷ xs)) none ((x ∷ xs) ++ (fragments vals ++ rest))

fragments-Continues :
    (vals : List Bytes) (rest : Bytes)
    → AllFit vals
    → Continues (fragments vals ++ rest) (concat vals) rest
fragments-Continues [] rest fit = last (read_frame-saver true 0 (omega arith) [] rest (omega arith))
fragments-Continues ([] ∷ vals) rest (h, fit) = fragments-Continues vals rest fit
fragments-Continues ((x ∷ xs) ∷ vals) rest (h, fit) =
    let val = x ∷ xs in
    let header = saver false 0 (length val) none in
    more
      (ap read_frame (regroup header val (frames vals) (saver true 0 0 none) rest)
        ∙ read_frame-saver false 0 (omega arith) val (fragments vals ++ rest) h)
      (fragments-Continues vals rest fit)

code-bound : (op : Opcode) → code op < 16
code-bound text = omega arith
code-bound binary = omega arith
code-bound close = omega arith
code-bound ping = omega arith
code-bound pong = omega arith

data_fits : (op : Opcode) → is_data op ≡ true → (bit_and (code op) 0x08 == 0) ≡ true
data_fits text h = refl
data_fits binary h = refl
data_fits close h = absurd (ground arith)
data_fits ping h = absurd (ground arith)
data_fits pong h = absurd (ground arith)

-- An open ServerConnection in a WebSocket state with no fragmented message under way writes a
-- message of data in pieces, each of fewer than 2 ^ 64 bytes, by write(opcode), a write of each
-- piece and write_last_chunk, without an exception, and is then as before. Its bytes are what RFC
-- 6455 demands: a first frame of the message's opcode, not final and empty, then frames of opcode 0,
-- of which the last one alone is final, and whose payloads put together are the pieces; what follows
-- is left. From the same bytes a fresh WebMessageHeaderParser reads the first frame, but the next
-- one, given the rest, throws "Invalid opcode", whatever the pieces are.
pub stream_message-parse :
    (put : Bytes → BufferOptions → Call) (bo : BufferOptions) (c : ServerConnection) (op : Opcode)
    (vals : List Bytes) (rest : Bytes)
    → IsPut put
    → c.is_open ≡ true
    → is_state_websocket c.state ≡ true
    → is_data op ≡ true
    → c.writing_web_message_body ≡ false
    → AllFit vals
    → (calls : List Call) × (left : Bytes) × (stream_message put bo c op vals ≡ ok (c, calls))
      × (read_frame (sent_bytes calls ++ rest) ≡ some (false, code op, [], left))
      × Continues left (concat vals) rest
      × (Header.parse Header.initial (sent_bytes calls ++ rest)
          ≡ ok (parsed false (code op) 0 none, left))
      × (Header.parse Header.initial left ≡ err (runtime_error "Invalid opcode"))
unfolding stream_message
stream_message-parse put bo c op vals rest puts opened s data_op plain fit =
    let first = saver false (code op) 0 none in
    let all =
      Sends-then (λ z. z ≡ in_message c) (λ z. z ≡ c) first (fragments vals) _ _
        (opcode-Sends put bo puts c op opened s data_op plain)
        (λ d e.
          Sends-then (λ z. z ≡ in_message c) (λ z. z ≡ c) (frames vals) (saver true 0 0 none) _ _
            (frames-Sends put bo puts c vals d e) (λ f g. last-Sends put bo puts c f g plain)) in
    let left = fragments vals ++ rest in
    let (calls, done, bytes) = calls_of c (first ++ fragments vals) _ all in
    let text : sent_bytes calls ++ rest ≡ first ++ left =
      ap (λ t. t ++ rest) bytes ∙ append_assoc first (fragments vals) rest in
    (
      calls,
      left,
      done,
      ap read_frame text ∙ read_frame-saver false (code op) (code-bound op) [] left (omega arith),
      fragments-Continues vals rest fit,
      ap (Header.parse Header.initial) text
          ∙ parse-saver false (code op) 0 none left (code_supported op) (omega arith) tt
              (λ e. absurd (ground (arith, data_fits op data_op))),
      refused vals rest,
    )
