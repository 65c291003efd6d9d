-- ===== src/Http/Header.antt =====
-- `Header`, `RequestResponseHeader`, `RequestHeader` and `ResponseHeader` of
-- include/crab/http/types.hpp, and the branches of `process_ready_header` that the parsers of
-- requests and of responses share, word for word, in include/crab/http/request_parser.hxx and
-- response_parser.hxx.
use crablib.Base.{
  ℕ, Bool, true, false, not, if◌then◌else◌, Option, none, some, List, [], ◌∷◌, ◌++◌, Bytes, codes,
  equal, Result, ok, err, throw,
}
use crablib.Chars.{lower, parse_content_type_value}
use crablib.IntegerCast.{integer_parse}

pub record Header : Type 0 where
  pub name : Bytes
  pub value : Bytes

pub record Common : Type 0 where
  pub http_version_major : ℕ
  pub http_version_minor : ℕ
  pub headers : List Header
  pub keep_alive : Bool
  pub content_length : Option ℕ
  pub transfer_encoding_chunked : Bool
  pub transfer_encodings : List Bytes
  pub connection_upgrade : Bool
  pub upgrade_websocket : Bool
  pub content_type_mime : Bytes
  pub content_type_suffix : Bytes

abbrev pub initial_common : Common
initial_common = record {
  http_version_major = 1;
  http_version_minor = 1;
  headers = [];
  keep_alive = true;
  content_length = none;
  transfer_encoding_chunked = false;
  transfer_encodings = [];
  connection_upgrade = false;
  upgrade_websocket = false;
  content_type_mime = [];
  content_type_suffix = [];
}

pub record RequestHeader : Type 0 where
  pub common : Common
  pub open common use *
  pub method : Bytes
  pub path : Bytes
  pub query_string : Bytes
  pub basic_authorization : Bytes
  pub host : Bytes
  pub origin : Bytes
  pub sec_websocket_key : Bytes
  pub sec_websocket_version : Bytes

pub record ResponseHeader : Type 0 where
  pub common : Common
  pub open common use *
  pub status : ℕ
  pub status_text : Bytes
  pub sec_websocket_accept : Bytes
  pub date : Bytes
  pub server : Bytes

abbrev pub is_empty {ℓ} : {A : Type ℓ} → List A → Bool
is_empty [] = true
is_empty (_ ∷ _) = false

-- `content-length`; any exception of `integer_cast<uint64_t>` is nested in the new one.
length_from : Common → Result ℕ → Result Common
length_from c (ok n) = ok (record c { content_length = some n })
length_from c (err e) = throw "Content length is not a number"

length_once : Common → Option ℕ → Bytes → Result Common
length_once c (some _) value = throw "content length specified more than once"
length_once c none value = length_from c (integer_parse 8 value)

unfoldable pub content_length_header : Common → Bytes → Result Common
unfolding length_once length_from
content_length_header c = length_once c c.content_length

-- `transfer-encoding`
unfoldable pub transfer_encoding_header : Common → Bytes → Result Common
unfolding lower
transfer_encoding_header c raw =
    let value = lower raw in
    if equal value (codes "chunked")
    then (if not (is_empty c.transfer_encodings)
        then throw "chunk encoding must be applied last"
        else ok (record c { transfer_encoding_chunked = true }))
    else if equal value (codes "identity")
    then ok c
    else ok (record c { transfer_encodings = c.transfer_encodings ++ value ∷ [] })

-- `content-type`
unfoldable pub content_type_header : Common → Bytes → Common
unfolding parse_content_type_value
content_type_header c value =
    let (mime, suffix) = parse_content_type_value value in
    record c { content_type_mime = mime; content_type_suffix = suffix }

-- `connection`
unfoldable pub connection_header : Common → Bytes → Result Common
unfolding lower
connection_header c raw =
    let value = lower raw in
    if equal value (codes "close")
    then ok (record c { keep_alive = false })
    else if equal value (codes "keep-alive")
    then ok (record c { keep_alive = true })
    else if equal value (codes "upgrade")
    then ok (record c { connection_upgrade = true })
    else throw "Invalid 'connection' header value"

-- `upgrade`
unfoldable pub upgrade_header : Common → Bytes → Result Common
unfolding lower
upgrade_header c raw =
    if equal (lower raw) (codes "websocket")
    then ok (record c { upgrade_websocket = true })
    else throw "Invalid 'upgrade' header value"

-- `req.headers.emplace_back(header)`
abbrev pub add_header : Common → Header → Common
add_header c h = record c { headers = c.headers ++ h ∷ [] }
