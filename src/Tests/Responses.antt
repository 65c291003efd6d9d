-- ===== src/Tests/Responses.antt =====
-- Tests and instances for the responses of a connection.
use crablib.Base.{
  ◌≡◌, refl, true, false, none, some, List, [], ◌∷◌, ◌++◌, arith, ◌==◌, if◌then◌else◌, ok, err,
  runtime_error, Bytes, codes, length,
}
use crablib.Http.Body as Body
use crablib.Http.Body.{BodyParser}
use crablib.Http.Header.{initial_common, ResponseHeader}
use crablib.Http.RequestState as RequestState
use crablib.Http.Chunked.RoundTrip.{concat}
use crablib.Http.Print.Response.{to_string, is_websocket_upgrade}
use crablib.Http.BufferedSocket.{write_now}
use crablib.Http.ServerConnection.{
  ServerConnection, request_header, response_header, response_body, Call, answered, write_response,
  web_message_header, WebMessage, ping, text, code, message_body, write_message,
}
use crablib.Http.ServerConnection.Responses.{
  stream_chunks, stream_sized, parse-stream_chunks, stream_sized-concat, write_response-body,
}
use crablib.Http.ServerConnection.Sends.{sent_bytes}
use crablib.Http.ServerConnection.Messages.{write_message-parse}
use crablib.Http.ServerConnection.Fragments.{stream_message, stream_message-parse}
use crablib.WebMessage.Header as Header
use crablib.WebMessage.Layout.{read_frame, Continues}
use crablib.WebMessage.Header.RoundTrip.{parsed}
use crablib.WebMessage.Body as WebBody

-- A connection that has read a request.
abbrev answering : ServerConnection
answering = record {
  is_open = true;
  request_parser = RequestState.initial;
  state = response_header;
  writing_web_message_body = false;
  remaining_body_content_length = none;
}

abbrev chunked_answer : ResponseHeader
chunked_answer = record {
  common = record initial_common { transfer_encoding_chunked = true };
  status = 200;
  status_text = [];
  sec_websocket_accept = [];
  date = [];
  server = [];
}

abbrev sized_answer : ResponseHeader
sized_answer = record chunked_answer { common = record initial_common { content_length = some 3 } }

chunked_answer_plain : is_websocket_upgrade chunked_answer ≡ false
unfolding is_websocket_upgrade
chunked_answer_plain = refl

sized_answer_plain : is_websocket_upgrade sized_answer ≡ false
unfolding is_websocket_upgrade
sized_answer_plain = refl

abbrev two_pieces : List Bytes
two_pieces = codes "ab" ∷ (codes "c" ∷ [])

parse-stream_chunks_example :
    (d : ServerConnection) × (calls : List Call) × (text : Bytes) × (q : BodyParser)
    × (stream_chunks Call.write write_now answering chunked_answer two_pieces ≡ ok (d, calls))
    × (d.state ≡ request_header)
    × (sent_bytes calls ≡ to_string (answered answering chunked_answer) ++ text)
    × (Body.parse (Body.start none true) (text ++ codes "GET") ≡ some (ok (q, codes "GET")))
    × (q.body ≡ concat two_pieces)
parse-stream_chunks_example =
    parse-stream_chunks Call.write write_now answering chunked_answer two_pieces
      (λ val bo calls. refl) refl refl refl chunked_answer_plain (codes "GET") refl refl
      (omega arith, (omega arith, tt))

stream_sized-concat_example :
    (d : ServerConnection) × (calls : List Call) × (stream_sized Call.write write_now answering
        sized_answer two_pieces
      ≡ ok (d, calls))
    × (sent_bytes calls ≡ to_string (answered answering sized_answer) ++ concat two_pieces)
    × (d.state ≡ (if length (concat two_pieces) == 3 then request_header else response_body))
stream_sized-concat_example =
    stream_sized-concat Call.write write_now answering sized_answer two_pieces
      (λ val bo calls. refl) refl refl refl sized_answer_plain 3 refl (omega arith)
      (omega arith, (omega arith, tt)) (omega arith)

write_response-body_example :
    (d : ServerConnection) × (calls : List Call) × (write_response answering sized_answer
        (codes "abc")
      ≡ ok (d, calls))
    × (d.state ≡ request_header)
    × (sent_bytes calls ≡ to_string (answered answering sized_answer) ++ codes "abc")
write_response-body_example =
    write_response-body answering sized_answer (codes "abc") refl refl refl sized_answer_plain refl
      refl

-- A ping in the middle of a fragmented message.
abbrev in_message : crablib.Http.ServerConnection.ServerConnection
in_message = record answering { state = web_message_header; writing_web_message_body = true }

abbrev hello : WebMessage
hello = record { opcode = ping; body = codes "hi"; close_code = 1005 }

write_message-parse_example :
    (calls : List Call) × (frame : Header.Parser) × (left : Bytes) × (q : WebBody.BodyParser)
    × (write_message in_message hello write_now ≡ ok (in_message, calls))
    × (Header.parse Header.initial (sent_bytes calls ++ (7 ∷ [])) ≡ ok (frame, left))
    × (Header.is_good frame ≡ true)
    × (frame.fin ≡ true)
    × (frame.opcode ≡ code ping)
    × (frame.masking_key ≡ none)
    × (WebBody.parse (λ p. 3) (WebBody.start frame.payload_len frame.masking_key) left
        ≡ some (ok (q, 7 ∷ [])))
    × (WebBody.is_good q ≡ true)
    × (q.body ≡ message_body hello)
write_message-parse_example =
    write_message-parse (λ p. 3) in_message hello write_now (7 ∷ []) refl refl refl (omega arith)
      (omega arith, (omega arith, tt)) (omega arith) (omega arith, tt)

abbrev upgraded : crablib.Http.ServerConnection.ServerConnection
upgraded = record answering { state = web_message_header }

-- A text message of two pieces, with an empty write between them.
abbrev three_writes : List Bytes
three_writes = codes "ab" ∷ ([] ∷ (codes "c" ∷ []))

stream_message-parse_example :
    (calls : List Call) × (left : Bytes) × (stream_message Call.write write_now upgraded text
        three_writes
      ≡ ok (upgraded, calls))
    × (read_frame (sent_bytes calls ++ (7 ∷ [])) ≡ some (false, 1, [], left))
    × Continues left (codes "abc") (7 ∷ [])
    × (Header.parse Header.initial (sent_bytes calls ++ (7 ∷ []))
        ≡ ok (parsed false 1 0 none, left))
    × (Header.parse Header.initial left ≡ err (runtime_error "Invalid opcode"))
stream_message-parse_example =
    stream_message-parse Call.write write_now upgraded text three_writes (7 ∷ [])
      (λ val bo calls. refl) refl refl refl refl (omega arith, (omega arith, (omega arith, tt)))
