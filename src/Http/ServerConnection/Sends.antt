-- ===== src/Http/ServerConnection/Sends.antt =====
-- The bytes that each function of ServerConnection of include/crab/http/connection.hxx sends.
use mathlib.Core.Path.{subst}
use crablib.Base.{
  ℕ, zero, suc, ◌+◌, ◌-◌, ◌<◌, ◌≡◌, refl, sym, ap, ap₂, ◌∙◌, inl, inr, true, false, ◌||◌, Option,
  none, some, List, [], ◌∷◌, ◌++◌, append-nil, append_assoc, arith, leb, ◌==◌, if◌then◌else◌,
  Bool-cases, ok, err, ◌>>=◌, Bytes, codes, length, length-append,
}
use crablib.Http.Header.{ResponseHeader}
use crablib.Http.Chunked.{print_hex, write_chunk, last_chunk}
use crablib.Http.Chunked.RoundTrip.{write_chunks, concat}
use crablib.Http.Print.Response.{to_string, is_websocket_upgrade}
use crablib.Http.BufferedSocket.{BufferOptions}
use crablib.Http.ServerConnection.{
  ServerConnection, State, request_header, response_header, response_body, Call, Done, check,
  then_do, answered, write_header, write_body, write_last_chunk, write_response, next_request,
  close_unless_alive,
}

-- The bytes that calls give to the socket, in order.
abbrev pub sent_bytes : List Call → Bytes
sent_bytes [] = []
sent_bytes (Call.buffer val ∷ calls) = val ++ sent_bytes calls
sent_bytes (Call.write val bo ∷ calls) = val ++ sent_bytes calls
sent_bytes (Call.write_string val bo ∷ calls) = val ++ sent_bytes calls
sent_bytes (_ ∷ calls) = sent_bytes calls

sent_bytes-append : (xs ys : List Call) → sent_bytes (xs ++ ys) ≡ sent_bytes xs ++ sent_bytes ys
sent_bytes-append [] ys = refl
sent_bytes-append (Call.buffer val ∷ xs) ys =
    ap (◌++◌ val) (sent_bytes-append xs ys) ∙ sym (append_assoc val (sent_bytes xs) (sent_bytes ys))
sent_bytes-append (Call.write val bo ∷ xs) ys =
    ap (◌++◌ val) (sent_bytes-append xs ys) ∙ sym (append_assoc val (sent_bytes xs) (sent_bytes ys))
sent_bytes-append (Call.write_string val bo ∷ xs) ys =
    ap (◌++◌ val) (sent_bytes-append xs ys) ∙ sym (append_assoc val (sent_bytes xs) (sent_bytes ys))
sent_bytes-append (Call.write_shutdown ∷ xs) ys = sent_bytes-append xs ys
sent_bytes-append (Call.clear_read_buffer ∷ xs) ys = sent_bytes-append xs ys
sent_bytes-append (Call.set_ping_timer ∷ xs) ys = sent_bytes-append xs ys
sent_bytes-append (Call.cancel_ping_timer ∷ xs) ys = sent_bytes-append xs ys

-- A function that ends well, in a state with `P` and with these bytes sent.
abbrev pub Sends : (ServerConnection → Type 0) → Bytes → Done → Type 0
Sends P val (ok (c, calls)) = P c × (sent_bytes calls ≡ val)
Sends P val (err e) = ⊥

pub Sends-then :
    (P Q : ServerConnection → Type 0) (a b : Bytes) (m : Done) (f : ServerConnection → Done)
    → Sends P a m
    → ((c : ServerConnection) → P c → Sends Q b (f c))
    → Sends Q (a ++ b) (then_do m f)
Sends-then P Q a b (ok (c, calls)) f (p, e) go = after (f c) (go c p)
  where
    after : (n : Done) → Sends Q b n → Sends Q (a ++ b) (n >>= λ q. ok (q.0, calls ++ q.1))
    after (err e) q = elim q [ ]
    after (ok (d, more)) (q, g) = (q, sent_bytes-append calls more ∙ ap₂ ◌++◌ e g)
Sends-then P Q a b (err e) f p go = elim p [ ]

-- The pieces of a body, one after another.
unfoldable pub write_all :
    (Bytes → BufferOptions → Call) → BufferOptions → ServerConnection → List Bytes → Done
write_all put bo c [] = ok (c, [])
write_all put bo c (val ∷ vals) = then_do (write_body put c val bo) (λ d. write_all put bo d vals)

-- In the middle of a body, with this much left.
pub record IsWriting (left : Option ℕ) (c : ServerConnection) : Type 0 where
  pub body : c.state ≡ response_body
  pub plain : c.writing_web_message_body ≡ false
  pub remaining : c.remaining_body_content_length ≡ left

-- Waiting for the next request.
pub record IsFinished (c : ServerConnection) : Type 0 where
  pub ready : c.state ≡ request_header
  pub plain : c.writing_web_message_body ≡ false

pub write_header-Sends :
    (c : ServerConnection) (resp : ResponseHeader) (bo : BufferOptions)
    → c.is_open ≡ true
    → c.state ≡ response_header
    → c.writing_web_message_body ≡ false
    → is_websocket_upgrade resp ≡ false
    → (resp.transfer_encoding_chunked || crablib.Http.ServerConnection.is_some resp.content_length)
      ≡ true
    → Sends (IsWriting resp.content_length) (to_string (answered c resp)) (write_header c resp bo)
unfolding write_header answered
write_header-Sends c resp bo opened s plain upgrade sized =
    rw (opened, s, upgrade, sized)
      (
        record { body = refl; plain = plain; remaining = refl },
        append-nil (to_string (answered c resp)),
      )

-- Either function of the socket takes the bytes as they are.
abbrev pub IsPut : (Bytes → BufferOptions → Call) → Type 0
IsPut put =
    (val : Bytes) (bo : BufferOptions) (calls : List Call)
    → sent_bytes (put val bo ∷ calls) ≡ val ++ sent_bytes calls

chunk-Sends :
    (put : Bytes → BufferOptions → Call) (c : ServerConnection) (val : Bytes) (bo : BufferOptions)
    → IsWriting none c
    → Sends (IsWriting none) (write_chunk val) (write_body put c val bo)
unfolding write_body write_chunk
chunk-Sends put c [] bo w = simp (w.body, w.plain, w.remaining) (w, refl)
chunk-Sends put c (x ∷ xs) bo w =
    let some_bytes : (length (x ∷ xs) == 0) ≡ false = ground arith in
    simp (w.body, w.plain, w.remaining, some_bytes)
      (w, append_assoc (print_hex 16 (length (x ∷ xs))) (codes "\r\n") ((x ∷ xs) ++ codes "\r\n"))

pub chunks-Sends :
    (put : Bytes → BufferOptions → Call) (bo : BufferOptions) (vals : List Bytes)
    (c : ServerConnection)
    → IsWriting none c
    → Sends (IsWriting none) (write_chunks vals) (write_all put bo c vals)
unfolding write_all
chunks-Sends put bo [] c w = (w, refl)
chunks-Sends put bo (val ∷ vals) c w =
    Sends-then (IsWriting none) (IsWriting none) (write_chunk val) (write_chunks vals) _ _
      (chunk-Sends put c val bo w) (λ d v. chunks-Sends put bo vals d v)

close_sends : (c : ServerConnection) → sent_bytes (close_unless_alive c) ≡ []
unfolding close_unless_alive
close_sends c = elim (Bool-cases c.request_parser.req.keep_alive) [
  | inl e ↦ simp e refl
  | inr e ↦ simp e refl
]

pub last_chunk-Sends :
    (c : ServerConnection) (bo : BufferOptions)
    → IsWriting none c
    → Sends IsFinished last_chunk (write_last_chunk c bo)
unfolding write_last_chunk next_request
last_chunk-Sends c bo w =
    simp (w.body, w.plain, w.remaining)
      (record { ready = refl; plain = refl }, ap (◌++◌ last_chunk) (close_sends c))

-- Bytes of a body of known length.
sized-Sends :
    (put : Bytes → BufferOptions → Call) (c : ServerConnection) (val : Bytes) (bo : BufferOptions)
    (left : ℕ)
    → IsPut put
    → IsWriting (some left) c
    → length val < left
    → Sends (IsWriting (some (left - length val))) val (write_body put c val bo)
unfolding write_body
sized-Sends put c val bo left puts w b =
    let fits : leb (length val) left ≡ true = ground arith in
    let more : (left - length val == 0) ≡ false = ground arith in
    simp (w.body, w.plain, w.remaining, fits, more)
      (record { body = refl; plain = refl; remaining = refl }, puts val bo [] ∙ append-nil val)

pub final-Sends :
    (put : Bytes → BufferOptions → Call) (c : ServerConnection) (val : Bytes) (bo : BufferOptions)
    (left : ℕ)
    → IsPut put
    → IsWriting (some left) c
    → length val ≡ left
    → Sends IsFinished val (write_body put c val bo)
unfolding write_body next_request
final-Sends put c val bo left puts w b =
    let fits : leb (length val) left ≡ true = ground arith in
    let done : (left - length val == 0) ≡ true = ground arith in
    simp (w.body, w.plain, w.remaining, fits, done)
      (
        record { ready = refl; plain = refl },
        puts val bo (close_unless_alive c) ∙ ap (◌++◌ val) (close_sends c) ∙ append-nil val,
      )

-- What is left of a body of known length.
abbrev pub IsLeft : ℕ → ServerConnection → Type 0
IsLeft zero c = IsFinished c
IsLeft (suc k) c = IsWriting (some (suc k)) c

abbrev pub AllNonempty : List Bytes → Type 0
AllNonempty [] = Unit
AllNonempty (val ∷ vals) = (0 < length val) × AllNonempty vals

IsLeft-Sends :
    (put : Bytes → BufferOptions → Call) (c : ServerConnection) (val : Bytes) (bo : BufferOptions)
    (k m : ℕ)
    → IsPut put
    → IsWriting (some (suc k)) c
    → length val + m ≡ suc k
    → Sends (IsLeft m) val (write_body put c val bo)
IsLeft-Sends put c val bo k zero puts w e = final-Sends put c val bo (suc k) puts w (omega arith)
IsLeft-Sends put c val bo k (suc m) puts w e =
    let rest : suc k - length val ≡ suc m = omega arith in
    subst (λ (z : ℕ). Sends (IsWriting (some z)) val (write_body put c val bo)) rest
      (sized-Sends put c val bo (suc k) puts w (omega arith))

pub pieces-Sends :
    (put : Bytes → BufferOptions → Call) (bo : BufferOptions) (vals : List Bytes)
    (c : ServerConnection) (n m : ℕ)
    → IsPut put
    → IsLeft n c
    → AllNonempty vals
    → length (concat vals) + m ≡ n
    → Sends (IsLeft m) (concat vals) (write_all put bo c vals)
unfolding write_all
pieces-Sends put bo [] c n m puts w some_bytes e =
    let same : n ≡ m = omega arith in (subst (λ (z : ℕ). IsLeft z c) same w, refl)
pieces-Sends put bo (val ∷ vals) c zero m puts w some_bytes e =
    absurd (omega (arith, length-append val (concat vals), some_bytes.0))
pieces-Sends put bo (val ∷ vals) c (suc k) m puts w some_bytes e =
    let rest = length (concat vals) + m in
    Sends-then (IsLeft rest) (IsLeft m) val (concat vals) _ _
      (IsLeft-Sends put c val bo k rest puts w (omega (arith, length-append val (concat vals))))
      (λ d v. pieces-Sends put bo vals d rest m puts v some_bytes.1 refl)

pub start-IsLeft : (n : ℕ) (c : ServerConnection) → 0 < n → IsWriting (some n) c → IsLeft n c
start-IsLeft zero c p w = absurd (omega arith)
start-IsLeft (suc k) c p w = w

pub left_state :
    (m : ℕ) (c : ServerConnection)
    → IsLeft m c
    → c.state ≡ (if m == 0 then request_header else response_body)
left_state zero c f = f.ready
left_state (suc m) c w = w.body ∙ ground arith
