-- ===== src/Http/RequestState.antt =====
-- The state of `RequestParser` of include/crab/http/request_parser.hpp, and what it does with a header
-- that is complete: `process_ready_header` of request_parser.hxx.
use crablib.Base.{
  ℕ, Bool, false, not, ◌&&◌, ◌||◌, if◌then◌else◌, Option, none, some, [], ◌∷◌, ◌++◌, Bytes, codes,
  equal, Result, ok, err, ◌>>=◌,
}
use crablib.Chars.{is_char, is_ctl, is_tspecial, trim_right, parse_authorization_basic}
use crablib.Http.Header.{
  Header, RequestHeader, Common, initial_common, is_empty, content_length_header,
  transfer_encoding_header, content_type_header, connection_header, upgrade_header, add_header,
}

pub data State : Type 0 where
  method_start method_start_lf method uri_start uri uri_percent1 uri_percent2 : State
  uri_query_string uri_anchor : State
  http_version_h http_version_ht http_version_htt http_version_http http_version_slash : State
  http_version_major_start http_version_major http_version_minor_start http_version_minor : State
  status_line_cr status_line_lf first_header_line_start header_line_start header_name : State
  header_colon space_before_header_value header_value header_lf final_lf good : State

pub record RequestParser : Type 0 where
  pub state : State
  pub max_total_length : ℕ
  pub req : RequestHeader
  pub header : Header
  pub header_cms_list : Bool
  pub percent1_hex_digit : ℕ
  pub total_length : ℕ

abbrev pub initial : RequestParser
initial = record {
  state = State.method_start;
  max_total_length = 8192;
  req = record {
    common = initial_common;
    method = [];
    path = [];
    query_string = [];
    basic_authorization = [];
    host = [];
    origin = [];
    sec_websocket_key = [];
    sec_websocket_version = [];
  };
  header = record { name = []; value = [] };
  header_cms_list = false;
  percent1_hex_digit = 0;
  total_length = 0;
}

abbrev pub to : RequestParser → State → Result RequestParser
to p s = ok (record p { state = s })

-- Members of `req` by name.
abbrev pub set_common : RequestHeader → Result Common → Result RequestHeader
set_common r (ok c) = ok (record r { common = c })
set_common r (err e) = err e

authorization : RequestHeader → Option Bytes → RequestHeader
authorization r none = r
authorization r (some auth) = record r { basic_authorization = auth }

-- `process_ready_header` behind `trim_right`, by the header's name. The source changes
-- `header.value` in place; each caller clears it next.
pub by_name : RequestHeader → Header → Result RequestHeader
unfolding authorization
by_name r h =
    if equal h.name (codes "content-length")
    then set_common r (content_length_header r.common h.value)
    else if equal h.name (codes "transfer-encoding")
    then set_common r (transfer_encoding_header r.common h.value)
    else if equal h.name (codes "host")
    then ok (record r { host = h.value })
    else if equal h.name (codes "origin")
    then ok (record r { origin = h.value })
    else if equal h.name (codes "content-type")
    then ok (record r { common = content_type_header r.common h.value })
    else if equal h.name (codes "connection")
    then set_common r (connection_header r.common h.value)
    else if equal h.name (codes "authorization")
    then ok (authorization r (parse_authorization_basic h.value))
    else if equal h.name (codes "upgrade")
    then set_common r (upgrade_header r.common h.value)
    else if equal h.name (codes "sec-websocket-key")
    then ok (record r { sec_websocket_key = h.value })
    else if equal h.name (codes "sec-websocket-version")
    then ok (record r { sec_websocket_version = h.value })
    else ok (record r { common = add_header r.common h })

-- An empty item of a comma-separated list is skipped.
unfoldable pub process_ready_header : RequestParser → Result RequestParser
unfolding by_name
process_ready_header p =
    let h = record p.header { value = trim_right p.header.value } in
    if p.header_cms_list && is_empty h.value
    then ok p
    else (by_name p.req h >>= λ r. ok (record p { req = r }))

-- Appends to the strings that are being read.
abbrev pub push_method : RequestParser → ℕ → RequestParser
push_method p c = record p { req = record p.req { method = p.req.method ++ c ∷ [] } }

abbrev pub push_path : RequestParser → ℕ → RequestParser
push_path p c = record p { req = record p.req { path = p.req.path ++ c ∷ [] } }

abbrev pub push_query : RequestParser → ℕ → RequestParser
push_query p c = record p { req = record p.req { query_string = p.req.query_string ++ c ∷ [] } }

abbrev pub push_name : RequestParser → ℕ → RequestParser
push_name p c = record p { header = record p.header { name = p.header.name ++ c ∷ [] } }

abbrev pub push_value : RequestParser → ℕ → RequestParser
push_value p c = record p { header = record p.header { value = p.header.value ++ c ∷ [] } }

abbrev pub set_major : RequestParser → ℕ → RequestParser
set_major p n = record p {
  req = record p.req { common = record p.req.common { http_version_major = n } };
}

abbrev pub set_minor : RequestParser → ℕ → RequestParser
set_minor p n = record p {
  req = record p.req { common = record p.req.common { http_version_minor = n } };
}

-- The bytes that no token has.
abbrev pub is_no_token : ℕ → Bool
is_no_token c = not (is_char c) || is_ctl c || is_tspecial c
