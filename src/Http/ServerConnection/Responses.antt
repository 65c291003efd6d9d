-- ===== src/Http/ServerConnection/Responses.antt =====
-- The bytes of a response that ServerConnection of include/crab/http/connection.hxx writes.
use mathlib.Core.Path.{subst}
use crablib.Base.{
  ℕ, ◌-◌, ◌≤◌, ◌<◌, ◌≡◌, refl, ap, ◌∙◌, true, false, Option, none, some, List, ◌++◌, append_assoc,
  arith, ◌==◌, if◌then◌else◌, ok, err, Bytes, length,
}
use crablib.Http.Body as Body
use crablib.Http.Body.{BodyParser}
use crablib.Http.Header.{ResponseHeader}
use crablib.Http.Chunked.{last_chunk}
use crablib.Http.Chunked.RoundTrip.{write_chunks, concat, AllFit, parse-write_chunks}
use crablib.Http.Print.Response.{to_string, is_websocket_upgrade}
use crablib.Http.BufferedSocket.{BufferOptions, write_now, buffer_only}
use crablib.Http.ServerConnection.{
  ServerConnection, State, request_header, response_header, response_body, Call, Done, check,
  then_do, answered, write_header, write_body, write_last_chunk, write_response, next_request,
  close_unless_alive,
}
use crablib.Http.ServerConnection.Sends.{
  sent_bytes, Sends, Sends-then, write_all, IsWriting, IsFinished, write_header-Sends, IsPut,
  chunks-Sends, last_chunk-Sends, final-Sends, IsLeft, AllNonempty, pieces-Sends, start-IsLeft,
  left_state,
}

-- A response with a body in pieces: the header, the pieces and, for chunks, the end.
unfoldable pub stream_chunks :
    (Bytes → BufferOptions → Call)
    → BufferOptions
    → ServerConnection
    → ResponseHeader
    → List Bytes
    → Done
stream_chunks put bo c resp vals =
    then_do (write_header c resp bo)
      (λ d. then_do (write_all put bo d vals) (λ e. write_last_chunk e bo))

unfoldable pub stream_sized :
    (Bytes → BufferOptions → Call)
    → BufferOptions
    → ServerConnection
    → ResponseHeader
    → List Bytes
    → Done
stream_sized put bo c resp vals = then_do (write_header c resp bo) (λ d. write_all put bo d vals)

ends :
    (P : ServerConnection → Type 0) (val : Bytes) (m : Done)
    → Sends P val m
    → (c : ServerConnection) × (calls : List Call) × (m ≡ ok (c, calls))
      × P c
      × (sent_bytes calls ≡ val)
ends P val (ok (c, calls)) (p, e) = (c, calls, refl, p, e)
ends P val (err x) p = elim p [ ]

module _ (put : Bytes → BufferOptions → Call) (bo : BufferOptions) (c : ServerConnection)
    (resp : ResponseHeader) (vals : List Bytes) (puts : IsPut put) (opened : c.is_open ≡ true)
    (ready : c.state ≡ response_header) (plain : c.writing_web_message_body ≡ false)
    (upgrade : is_websocket_upgrade resp ≡ false) where
  -- On an open ServerConnection that waits for a response, and is not in the middle of a web
  -- message, a header for chunked encoding, that is no upgrade and has no content length, followed
  -- by any pieces of fewer than 2^64 bytes and by write_last_chunk, is written without an
  -- exception, as the text of the header and a body that a fresh BodyParser reads back as the
  -- pieces put together, leaving what follows. The connection then waits for the next request.
  -- The header has the version and keep_alive of the request, and all else as given: where it has
  -- no date, none is sent.
  pub parse-stream_chunks :
      (rest : Bytes)
      → resp.transfer_encoding_chunked ≡ true
      → resp.content_length ≡ none
      → AllFit vals
      → (d : ServerConnection) × (calls : List Call) × (text : Bytes) × (q : BodyParser)
        × (stream_chunks put bo c resp vals ≡ ok (d, calls))
        × (d.state ≡ request_header)
        × (sent_bytes calls ≡ to_string (answered c resp) ++ text)
        × (Body.parse (Body.start none true) (text ++ rest) ≡ some (ok (q, rest)))
        × (q.body ≡ concat vals)
  unfolding stream_chunks
  parse-stream_chunks rest chunked unsized fit =
      let h = write_header-Sends c resp bo opened ready plain upgrade (ground arith) in
      let h' =
        subst
          (λ (z : Option ℕ).
            Sends (IsWriting z) (to_string (answered c resp)) (write_header c resp bo))
          unsized h in
      let all =
        Sends-then (IsWriting none) IsFinished (to_string (answered c resp))
          (write_chunks vals ++ last_chunk) _ _ h'
          (λ d w.
            Sends-then (IsWriting none) IsFinished (write_chunks vals) last_chunk _ _
              (chunks-Sends put bo vals d w) (λ e v. last_chunk-Sends e bo v)) in
      let (d, calls, e, f, g) = ends IsFinished _ _ all in
      let (q, parsed, body, good) = parse-write_chunks vals rest fit in
      (
        d,
        calls,
        write_chunks vals ++ last_chunk,
        q,
        e,
        f.ready,
        g,
        ap (Body.parse (Body.start none true)) (append_assoc (write_chunks vals) last_chunk rest)
            ∙ parsed,
        body,
      )

  -- On an open ServerConnection that waits for a response, and is not in the middle of a web
  -- message, a header with a content length above 0, that is no upgrade, followed by pieces that
  -- are not empty and come to no more than this length, is written without an exception, as the
  -- text of the header and the pieces put together. The connection waits for the next request if
  -- they come to the length, and for more of the body if not.
  -- The header has the version and keep_alive of the request, and all else as given: where it has
  -- no date, none is sent.
  pub stream_sized-concat :
      (n : ℕ)
      → resp.content_length ≡ some n
      → 0 < n
      → AllNonempty vals
      → length (concat vals) ≤ n
      → (d : ServerConnection) × (calls : List Call) × (stream_sized put bo c resp vals
          ≡ ok (d, calls))
        × (sent_bytes calls ≡ to_string (answered c resp) ++ concat vals)
        × (d.state ≡ (if length (concat vals) == n then request_header else response_body))
  unfolding stream_sized
  stream_sized-concat n sized some_left some_bytes fits =
      let m = n - length (concat vals) in
      let h = write_header-Sends c resp bo opened ready plain upgrade (ground arith) in
      let h' =
        subst
          (λ (z : Option ℕ).
            Sends (IsWriting z) (to_string (answered c resp)) (write_header c resp bo))
          sized h in
      let all =
        Sends-then (IsWriting (some n)) (IsLeft m) (to_string (answered c resp)) (concat vals) _ _
          h'
          (λ d w.
            pieces-Sends put bo vals d n m puts (start-IsLeft n d some_left w) some_bytes
              (omega arith)) in
      let (d, calls, e, f, g) = ends (IsLeft m) _ _ all in
      (d, calls, e, g, left_state m d f ∙ ground arith)

module _ (c : ServerConnection) (resp : ResponseHeader) (body : Bytes) (opened : c.is_open ≡ true)
    (ready : c.state ≡ response_header) (plain : c.writing_web_message_body ≡ false)
    (upgrade : is_websocket_upgrade resp ≡ false) where
  -- On an open ServerConnection that waits for a response, and is not in the middle of a web
  -- message, a response that is no upgrade and whose content length is that of its body is written
  -- without an exception, as the text of its header and its body, empty or not. The connection
  -- then waits for the next request.
  -- The header has the version and keep_alive of the request, and all else as given: where it has
  -- no date, none is sent.
  pub write_response-body :
      resp.transfer_encoding_chunked ≡ false
      → resp.content_length ≡ some (length body)
      → (d : ServerConnection) × (calls : List Call) × (write_response c resp body ≡ ok (d, calls))
        × (d.state ≡ request_header)
        × (sent_bytes calls ≡ to_string (answered c resp) ++ body)
  unfolding write_response
  write_response-body unchunked sized =
      let header = to_string (answered c resp) in
      let same : write_response c resp body
          ≡ then_do (write_header c resp buffer_only)
              (λ d. write_body Call.write_string d body write_now) =
        simp (opened, unchunked) refl in
      let size : crablib.Http.ServerConnection.is_some resp.content_length ≡ true =
        ap crablib.Http.ServerConnection.is_some sized in
      let h = write_header-Sends c resp buffer_only opened ready plain upgrade (ground arith) in
      let h' =
        subst (λ (z : Option ℕ). Sends (IsWriting z) header (write_header c resp buffer_only)) sized
          h in
      let all = Sends-then (IsWriting (some (length body))) IsFinished header body _ _ h' (λ d w.
        final-Sends Call.write_string d body write_now (length body) (λ val bo calls. refl) w
          refl) in
      let (d, calls, e, f, g) = ends IsFinished _ _ all in (d, calls, same ∙ e, f.ready, g)
