-- ===== src/Http/ServerConnection.antt =====
-- The writing side of ServerConnection of include/crab/http/connection.hpp and connection.hxx.
-- What a function does to the socket, the read buffer and the ping timer is the list of its calls
-- of them, in order. The handler's buffer and the parsers of frames are not part of the state.
pub mod Sends
pub mod Responses
pub mod Messages
pub mod Fragments
use Prim.Native.String.{String}
use crablib.Base.{
  ℕ, zero, suc, ◌+◌, ◌-◌, ◌*◌, ◌/◌, ◌%◌, ◌^◌, ◌≤◌, ◌<◌, min, ◌≡◌, refl, sym, ap, ap₂, ◌∙◌, ◌≢◌, ◌↔◌,
  ◌⊎◌, inl, inr, Bool, true, false, not, ◌&&◌, ◌||◌, Option, none, some, List, [], ◌∷◌, ◌++◌, map,
  reverse, append-nil, append_assoc, arith, ltb, leb, ◌==◌, if◌then◌else◌, Bool-cases, Result, ok,
  err, throw, Error, runtime_error, logic_error, ◌>>=◌, Bytes, codes, length, get_elem?, get_or,
  take, drop, length-append, length-take, length-drop, take-append-drop, take-length_add,
  drop-length_add, take_all, take-length, drop-length, take-append, drop-append, drop-drop,
  take_two, drop-take, take-take, length_zero, equal,
}
use crablib.Http.Header.{initial_common, RequestHeader, ResponseHeader, is_empty}
use crablib.Http.RequestState as RequestState
use crablib.Http.RequestState.{RequestParser}
use crablib.Http.Chunked.{print_hex, last_chunk}
use crablib.Http.Print.Response.{to_string, is_websocket_upgrade, request_is_websocket_upgrade}
use crablib.Http.BufferedSocket.{BufferOptions, write_now, buffer_only}
use crablib.Streams.Buffer.{invariant}
use crablib.WebMessage.Header.{saver}

pub data State : Type 0 where
  request_header request_body request_ready response_header response_body : State
  web_message_header web_message_body web_message_ready : State

-- A call of `sock.buffer`, of either `sock.write`, and so on.
pub data Call : Type 0 where
  buffer : Bytes → Call
  write : Bytes → BufferOptions → Call
  write_string : Bytes → BufferOptions → Call
  write_shutdown : Call
  clear_read_buffer : Call
  set_ping_timer : Call
  cancel_ping_timer : Call

pub record ServerConnection : Type 0 where
  pub is_open : Bool
  pub request_parser : RequestParser
  pub state : State
  pub writing_web_message_body : Bool
  pub remaining_body_content_length : Option ℕ

abbrev pub Done : Type 0
Done = Result (ServerConnection × List Call)

pub data Opcode : Type 0 where
  text binary close ping pong : Opcode

pub record WebMessage : Type 0 where
  pub opcode : Opcode
  pub body : Bytes
  pub close_code : ℕ

abbrev pub code : Opcode → ℕ
code text = 1
code binary = 2
code close = 8
code ping = 9
code pong = 10

abbrev pub is_data : Opcode → Bool
is_data text = true
is_data binary = true
is_data _ = false

abbrev pub is_close : Opcode → Bool
is_close close = true
is_close _ = false

abbrev pub is_state_websocket : State → Bool
is_state_websocket web_message_header = true
is_state_websocket web_message_body = true
is_state_websocket web_message_ready = true
is_state_websocket _ = false

abbrev pub is_response_header : State → Bool
is_response_header response_header = true
is_response_header _ = false

abbrev pub is_response_body : State → Bool
is_response_body response_body = true
is_response_body _ = false

abbrev pub is_writing_body : ServerConnection → Bool
is_writing_body c = c.writing_web_message_body || is_response_body c.state

-- `invariant` in front of the rest of a function.
abbrev pub check : Bool → String → Done → Done
check true msg rest = rest
check false msg rest = err (logic_error msg)

abbrev pub is_some : Option ℕ → Bool
is_some none = false
is_some (some n) = true

abbrev pub is_write_now : BufferOptions → Bool
is_write_now write_now = true
is_write_now buffer_only = false

abbrev pub ping_after : BufferOptions → List Call
ping_after bo = if is_write_now bo then set_ping_timer ∷ [] else []

-- `write(ResponseHeader &resp, bo)` fills in the version and keep_alive, not the date; what it fills
-- in is seen in the text.
unfoldable pub answered : ServerConnection → ResponseHeader → ResponseHeader
answered c resp = record resp {
  common = record resp.common {
    http_version_major = c.request_parser.req.http_version_major;
    http_version_minor = c.request_parser.req.http_version_minor;
    keep_alive = c.request_parser.req.keep_alive;
  };
}

unfoldable pub write_header : ServerConnection → ResponseHeader → BufferOptions → Done
write_header c resp bo =
    if not c.is_open
    then ok (c, [])
    else check (is_response_header c.state) "Connection unexpected write" (
        check (not (is_websocket_upgrade resp))
          "Please use web_socket_upgrade() function for web socket upgrade"
          (check (resp.transfer_encoding_chunked || is_some resp.content_length)
            "Please set either chunked encoding or content_length"
            (ok (
              record c {
                remaining_body_content_length = resp.content_length;
                state = response_body;
              },
              write_string (to_string (answered c resp)) bo ∷ [],
            ))))

-- What follows the last byte of a response.
unfoldable pub close_unless_alive : ServerConnection → List Call
close_unless_alive c =
    if not c.request_parser.req.keep_alive then clear_read_buffer ∷ (write_shutdown ∷ []) else []

unfoldable pub next_request : ServerConnection → ServerConnection
next_request c = record c { request_parser = RequestState.initial; state = request_header }

-- `write(val, count, bo)` and `write(std::string &&ss, bo)`, which differ in the function of the
-- socket that they call, `put`. The text of `%llx` has 16 digits at most.
unfoldable pub write_body :
    (Bytes → BufferOptions → Call) → ServerConnection → Bytes → BufferOptions → Done
write_body put c val bo = check (is_writing_body c) "Connection unexpected write" (
    if c.writing_web_message_body
    then (if length val == 0
        then ok (c, [])
        else ok (c, buffer (saver false 0 (length val) none) ∷ (put val bo ∷ ping_after bo)))
    else elim c.remaining_body_content_length [
      | some remaining ↦ check (leb (length val) remaining) "Overshoot content-length" (
          let left = remaining - length val in
          let d = record c { remaining_body_content_length = some left } in
          if left == 0
          then ok (next_request d, put val bo ∷ close_unless_alive c)
          else ok (d, put val bo ∷ []))
      | none ↦
          if length val == 0
          then ok (c, [])
          else ok (
            c,
            buffer (print_hex 16 (length val) ++ codes "\r\n")
                ∷ (buffer val ∷ (write (codes "\r\n") bo ∷ [])),
          )
    ])

unfoldable pub write_last_chunk : ServerConnection → BufferOptions → Done
write_last_chunk c bo = check (is_writing_body c) "Connection unexpected write" (
    if c.writing_web_message_body
    then ok (
      record c { writing_web_message_body = false },
      write (saver true 0 0 none) bo ∷ ping_after bo,
    )
    else check (is_response_body c.state) "Connection unexpected write" (
        check (not (is_some c.remaining_body_content_length))
          "write_last_chunk is for chunked encoding only"
          (ok (next_request c, write_string last_chunk bo ∷ close_unless_alive c))))

-- One function after another.
abbrev pub then_do : Done → (ServerConnection → Done) → Done
then_do first second = first >>= λ r. second r.0 >>= λ q. ok (q.0, r.1 ++ q.1)

-- `write(Response &&resp)`
unfoldable pub write_response : ServerConnection → ResponseHeader → Bytes → Done
write_response c resp body =
    if not c.is_open
    then ok (c, [])
    else then_do (write_header c resp buffer_only) (λ d.
      let written =
        write_body write_string d body
          (if resp.transfer_encoding_chunked then buffer_only else write_now) in
      if resp.transfer_encoding_chunked
      then then_do written (λ e. write_last_chunk e write_now)
      else written)

-- details::web_message_create_close_body; a `uint16_t` is below 2^16.
unfoldable pub web_message_create_close_body : Bytes → ℕ → Bytes
web_message_create_close_body reason close_code =
    if is_empty reason && close_code == 1005
    then []
    else (let sent = if ltb close_code 1000 then 1000 else close_code in
        (sent / 256) ∷ ((sent % 256) ∷ reason))

-- The body that is sent: control messages are cut at 125 bytes.
unfoldable pub message_body : WebMessage → Bytes
message_body m =
    if is_data m.opcode
    then m.body
    else take 125
        (if is_close m.opcode then web_message_create_close_body m.body m.close_code else m.body)

-- `write(WebMessage &&message, bo)`
unfoldable pub write_message : ServerConnection → WebMessage → BufferOptions → Done
write_message c m bo =
    if not c.is_open
    then ok (c, [])
    else check (is_state_websocket c.state) "Connection unexpected write" (
        check (not (is_data m.opcode) || not c.writing_web_message_body)
          "Sending new message before previous one finished"
          (let body = message_body m in
            ok (
              c,
              buffer (saver true (code m.opcode) (length body) none)
                  ∷ (write_string body bo
                      ∷ (if is_close m.opcode
                          then cancel_ping_timer ∷ (clear_read_buffer ∷ (write_shutdown ∷ []))
                          else ping_after bo)),
            )))

-- `write(WebMessageOpcode opcode)`
unfoldable pub write_opcode : ServerConnection → Opcode → Done
write_opcode c opcode =
    if not c.is_open
    then ok (c, [])
    else check (is_state_websocket c.state) "Connection unexpected write" (
        check (is_data opcode) "Control frames must not be fragmented" (
          check (not c.writing_web_message_body) "Sending new message before previous one finished"
            (ok (
              record c { writing_web_message_body = true },
              buffer (saver false (code opcode) 0 none) ∷ [],
            ))))

-- A new `ResponseHeader` with the fields that web_socket_upgrade sets.
unfoldable pub upgrade_response : Bytes → ResponseHeader
upgrade_response accept = record {
  common = record initial_common { connection_upgrade = true; upgrade_websocket = true };
  status = 101;
  status_text = [];
  sec_websocket_accept = accept;
  date = [];
  server = [];
}

-- `generate_sec_websocket_accept` is SHA-1 and Base64 of other projects, and a parameter.
unfoldable pub web_socket_upgrade : (Bytes → Bytes) → ServerConnection → Done
web_socket_upgrade generate_sec_websocket_accept c =
    if not c.is_open
    then ok (c, [])
    else check (is_response_header c.state) "Connection unexpected write" (
        if not (request_is_websocket_upgrade c.request_parser.req)
        then throw "Attempt to upgrade non-upgradable connection"
        else ok (
          record c { state = web_message_header },
          write_string
                (to_string (
                  upgrade_response
                    (generate_sec_websocket_accept c.request_parser.req.sec_websocket_key)))
                write_now
              ∷ (set_ping_timer ∷ []),
        ))

-- Of `close()`, what concerns this side.
unfoldable pub close_connection : ServerConnection → ServerConnection
close_connection c = record c {
  is_open = false;
  state = request_header;
  writing_web_message_body = false;
}
