-- ===== src/Tests.antt =====
-- Runs of the models at concrete inputs: each applies a theorem where its hypotheses hold.
mod Heaps
mod Streams
mod Sockets
mod Responses
mod Rings
use crablib.Base.{
  ℕ, ◌+◌, ◌≤◌, true, none, some, List, [], ◌∷◌, ◌++◌, Bytes, IsBytes, codes, length, ok, err,
  runtime_error, out_of_range, ◌≡◌, refl, inl, inr, arith,
}
use crablib.Chars.Hex.{to_hex, from_hex, from_hex-to_hex}
use crablib.IntegerCast.{integer_parse, integer_saver}
use crablib.IntegerCast.Decimal.{integer_parse-decimal, integer_parse-integer_saver}
use crablib.WebMessage.Header
use crablib.WebMessage.Header.{saver, is_opcode_supported}
use crablib.WebMessage.Header.RoundTrip.{parsed, parse-saver}
use crablib.WebMessage.Mask.{mask_data}
use crablib.WebMessage.Mask.Reference.{mask_spec, mask_data-mask_spec}
use crablib.WebMessage.Body as MessageBody
use crablib.WebMessage.Body.Stream.{
  after, taken, untaken, start-IsValid, parse_lem, parse-mask_spec,
}
use crablib.Http.Body as HttpBody
use crablib.Http.Body.Bytewise
use crablib.Http.Body.Bytewise.Equivalence
use crablib.Http.Url.{url_encode, url_decode}
use crablib.Http.Url.RoundTrip.{url_decode-url_encode}
use crablib.Http.Query.{parse_query_string}
use crablib.Http.Query.Encoded.{query_of, assign_all, AllBytes, parse_query_string-query_of}
use crablib.Loop
use crablib.Loop.Chunks
use crablib.WebMessage.Body.Stream
use crablib.Http.Chunked.{last_chunk}
use crablib.Http.Chunked.RoundTrip.{write_chunks, concat, parse-write_chunks}
use crablib.Http.Uri.{parse_uri}
use crablib.Http.Uri.Segments.{path_text, resolve, AllPlain, parse_uri-path_text}
use crablib.Http.Cookie.{parse_cookie_string}
use crablib.Http.Cookie.Pairs.{AllPairs, cookie_text, parse_cookie_string-cookie_text}
use crablib.Http.Print.{to_string}
use crablib.Http.Print.Bare.{bare, IsMethod, IsPath, IsQuery, parse-to_string}
use crablib.Http.RequestState
use crablib.Http.Request
use crablib.Http.Request.Bounds.{Request-total_length}
use crablib.Http.ResponseState
use crablib.Http.Response
use crablib.Http.Response.Bounds.{Response-total_length}

abbrev four_bytes : Bytes
four_bytes = 72 ∷ 105 ∷ 33 ∷ 255 ∷ []

four_bytes-IsBytes : IsBytes four_bytes
four_bytes-IsBytes = (omega arith, (omega arith, (omega arith, (omega arith, tt))))

-- A masked text frame of 300 bytes, with a byte behind its header.
text_supported : is_opcode_supported 1 ≡ true
unfolding is_opcode_supported
text_supported = refl

parse-saver_example :
    Header.parse Header.initial (saver true 1 300 (some 0x01020304) ++ 7 ∷ [])
    ≡ ok (parsed true 1 300 (some 0x01020304), 7 ∷ [])
parse-saver_example =
    parse-saver true 1 300 (some 0x01020304) (7 ∷ []) text_supported (omega arith) (omega arith)
      (λ e. absurd (ground arith))

-- Four bytes at an address three below a multiple of 8.
mask_data-mask_spec_example :
    mask_data 3 1 four_bytes 0x01020304 ≡ mask_spec 0x01020304 1 four_bytes
mask_data-mask_spec_example =
    mask_data-mask_spec 3 1 four_bytes 0x01020304 (omega arith) four_bytes-IsBytes

from_hex-to_hex_example : from_hex (to_hex four_bytes) ≡ some four_bytes
from_hex-to_hex_example = from_hex-to_hex four_bytes four_bytes-IsBytes

url_decode-url_encode_example : url_decode (url_encode four_bytes true) ≡ four_bytes
url_decode-url_encode_example = url_decode-url_encode four_bytes true four_bytes-IsBytes

integer_parse-integer_saver_example : integer_parse 2 (integer_saver 2 65535) ≡ ok 65535
integer_parse-integer_saver_example =
    integer_parse-integer_saver 2 65535 (inr (inl refl)) (omega arith)

integer_parse-decimal_example :
    integer_parse 1 (codes "300") ≡ err (out_of_range "Number overflow ")
integer_parse-decimal_example =
    integer_parse-decimal 1 b'3' (codes "00") (inl refl) (refl, (refl, (refl, tt))) (omega arith)

-- A string that lies two bytes below a multiple of 8, whatever the parser's state.
abbrev gap_two : MessageBody.BodyParser → ℕ
gap_two p = 2

abbrev masked_start : MessageBody.BodyParser
masked_start = MessageBody.start 3 (some 0x01020304)

masked_start-IsValid : Stream.IsValid masked_start
masked_start-IsValid = start-IsValid 3 (some 0x01020304) (omega arith) (λ key e. ground arith)

parse_lem_example :
    MessageBody.parse gap_two masked_start four_bytes
    ≡ some
        (ok (after masked_start (taken masked_start four_bytes), untaken masked_start four_bytes))
parse_lem_example =
    parse_lem gap_two masked_start four_bytes masked_start-IsValid four_bytes-IsBytes

parse-mask_spec_example :
    (q : MessageBody.BodyParser) × (MessageBody.parse gap_two
        (MessageBody.start 4 (some 9))
        (mask_spec 9 0 four_bytes ++ 1 ∷ [])
      ≡ some (ok (q, 1 ∷ [])))
    × (q.body ≡ four_bytes)
    × (MessageBody.is_good q ≡ true)
parse-mask_spec_example =
    parse-mask_spec gap_two four_bytes (1 ∷ []) 9 (omega arith) (omega arith) four_bytes-IsBytes
      (omega arith, tt)

-- "ab" of three bytes, then "cd".
abbrev two_taken : MessageBody.BodyParser
two_taken = after masked_start (codes "ab")

masked_first : MessageBody.parse gap_two masked_start (codes "ab") ≡ some (ok (two_taken, []))
unfolding MessageBody.start
masked_first =
    parse_lem gap_two masked_start (codes "ab") masked_start-IsValid
      (omega arith, (omega arith, tt))

-- A chunked body.
abbrev chunked : HttpBody.BodyParser
chunked = HttpBody.start none true

chunked-IsValid : Bytewise.IsValid chunked
chunked-IsValid = Equivalence.start-IsValid none true (λ n e. absurd (ground arith))

parse-bytewise_example :
    HttpBody.parse chunked (codes "3\r\nabc\r\n0\r\n\r\nGET")
    ≡ some (Equivalence.bytewise chunked (codes "3\r\nabc\r\n0\r\n\r\nGET"))
parse-bytewise_example =
    Equivalence.parse-bytewise chunked (codes "3\r\nabc\r\n0\r\n\r\nGET") chunked-IsValid

-- The parser behind the first byte of a chunk of twelve.
abbrev size_read : HttpBody.BodyParser
size_read = record chunked {
  state = HttpBody.State.chunk_size;
  remaining_bytes = 0xC;
  chunk_header_total_length = 1;
}

chunk_first : HttpBody.parse chunked (codes "c") ≡ some (ok (size_read, []))
unfolding HttpBody.parse HttpBody.start HttpBody.consume Chunks.parse
    crablib.Chars.Hex.from_hex_digit HttpBody.consume_byte crablib.Chars.is_sp
chunk_first = refl

abbrev pairs : List (Bytes × Bytes)
pairs = (codes "a b", codes "1&2") ∷ (codes "c", []) ∷ []

pairs-AllBytes : AllBytes pairs
unfolding AllBytes
pairs-AllBytes = (
  (
    (omega arith, (omega arith, (omega arith, tt))),
    (omega arith, (omega arith, (omega arith, tt))),
  ),
  (((omega arith, tt), tt), tt),
)

parse_query_string-query_of_example : parse_query_string (query_of pairs) ≡ assign_all [] pairs
parse_query_string-query_of_example = parse_query_string-query_of pairs pairs-AllBytes

-- A request that ends behind its first line, with what comes next.
abbrev request_read : RequestState.RequestParser
request_read = record RequestState.initial {
  state = RequestState.State.uri_start;
  req = record RequestState.initial.req { method = codes "GET" };
  total_length = 4;
}

request_first : Request.parse RequestState.initial (codes "GET ") ≡ ok (request_read, [])
unfolding Request.parse Request.consume Loop.parse crablib.Chars.is_char crablib.Chars.is_ctl
    crablib.Chars.is_tspecial crablib.Chars.is_sp
request_first = refl

Request-total_length_example :
    (request_read.total_length ≤ 8192) × (request_read.total_length + 0 ≡ 0 + 4)
Request-total_length_example =
    Request-total_length RequestState.initial request_read (codes "GET ") [] (omega arith)
      (omega arith) request_first

abbrev response_read : ResponseState.ResponseParser
response_read = record ResponseState.initial {
  state = ResponseState.State.http_version_major_start;
  total_length = 5;
}

response_first : Response.parse ResponseState.initial (codes "HTTP/") ≡ ok (response_read, [])
unfolding Response.parse Response.consume Loop.parse
response_first = refl

Response-total_length_example :
    (response_read.total_length ≤ 8192) × (response_read.total_length + 0 ≡ 0 + 5)
Response-total_length_example =
    Response-total_length ResponseState.initial response_read (codes "HTTP/") [] (omega arith)
      (omega arith) response_first

-- Three calls of `write`, one of them with no bytes, and a byte behind the body.
abbrev three_writes : List Bytes
three_writes = codes "ab" ∷ [] ∷ codes "c" ∷ []

parse-write_chunks_example :
    (q : HttpBody.BodyParser) × (HttpBody.parse
        (HttpBody.start none true)
        (write_chunks three_writes ++ (last_chunk ++ codes "G"))
      ≡ some (ok (q, codes "G")))
    × (q.body ≡ concat three_writes)
    × (HttpBody.is_good q ≡ true)
parse-write_chunks_example =
    parse-write_chunks three_writes (codes "G") (omega arith, (omega arith, (omega arith, tt)))

-- "http://h/a/../b"
abbrev two_segments : List Bytes
two_segments = codes "a" ∷ codes ".." ∷ []

parse_uri-path_text_example :
    (parse_uri (codes "http" ++ (codes "://" ++ (codes "h" ++ path_text two_segments (codes "b"))))
      ≡ ok (record {
        scheme = codes "http";
        user_info = [];
        host = codes "h";
        port = [];
        path = path_text (resolve [] two_segments) (codes "b");
        query = [];
      }))
    × AllPlain (resolve [] two_segments)
parse_uri-path_text_example =
    parse_uri-path_text (codes "http") (codes "h") (codes "b") two_segments
      (refl, (refl, (refl, (refl, tt)))) ((refl, refl, refl), tt)
      (((refl, refl, refl), tt), (((refl, refl, refl), ((refl, refl, refl), tt)), tt))
      ((refl, refl, refl), tt)

-- "a=1; b="
abbrev two_cookies : List (Bytes × Bytes)
two_cookies = (codes "a", codes "1") ∷ (codes "b", []) ∷ []

two_cookies-AllPairs : AllPairs two_cookies
unfolding crablib.Chars.trim_right crablib.Chars.is_sp
two_cookies-AllPairs = (
  record {
    key_bytes = ((refl, refl), tt);
    key_start = refl;
    key_end = refl;
    value_bytes = (refl, tt);
    value_start = refl;
    value_end = refl;
  },
  (
    record {
      key_bytes = ((refl, refl), tt);
      key_start = refl;
      key_end = refl;
      value_bytes = tt;
      value_start = tt;
      value_end = refl;
    },
    tt,
  ),
)

parse_cookie_string-cookie_text_example :
    parse_cookie_string (cookie_text two_cookies) ≡ assign_all [] two_cookies
parse_cookie_string-cookie_text_example =
    parse_cookie_string-cookie_text two_cookies two_cookies-AllPairs

-- "GET / HTTP/1.1" with the query string "a=1".
get_IsMethod : IsMethod (codes "GET")
unfolding crablib.Chars.is_sp crablib.Chars.is_char crablib.Chars.is_ctl crablib.Chars.is_tspecial
get_IsMethod = ((refl, refl), ((refl, refl), ((refl, refl), tt)))

root_IsPath : IsPath (codes "/")
unfolding crablib.Chars.is_sp crablib.Chars.is_ctl
root_IsPath = ((refl, refl, refl, refl, refl), tt)

short_IsQuery : IsQuery (codes "a=1")
unfolding crablib.Chars.is_sp crablib.Chars.is_ctl
short_IsQuery = ((refl, refl, refl), ((refl, refl, refl), ((refl, refl, refl), tt)))

parse-to_string_example :
    (r : RequestState.RequestParser) × (Request.parse RequestState.initial
        (to_string (bare (codes "GET") (codes "/") (codes "a=1")) ++ codes "x")
      ≡ ok (r, codes "x"))
    × (r.req ≡ bare (codes "GET") (codes "/") (codes "a=1"))
    × (Request.is_good r ≡ true)
parse-to_string_example =
    parse-to_string b'G' (codes "ET") b'/' [] (codes "a=1") (codes "x") get_IsMethod root_IsPath
      short_IsQuery (omega arith)
