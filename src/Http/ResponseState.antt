-- ===== src/Http/ResponseState.antt =====
-- The state of `ResponseParser` of include/crab/http/response_parser.hpp, and what it does with a header
-- that is complete: `process_ready_header` of response_parser.hxx.
use crablib.Base.{
  ℕ, Bool, false, not, ◌&&◌, ◌||◌, if◌then◌else◌, [], ◌∷◌, ◌++◌, codes, equal, Result, ok, err,
  ◌>>=◌,
}
use crablib.Chars.{is_char, is_ctl, is_tspecial, trim_right}
use crablib.Http.Header.{
  Header, ResponseHeader, Common, initial_common, is_empty, content_length_header,
  transfer_encoding_header, content_type_header, connection_header, upgrade_header, add_header,
}

pub data State : Type 0 where
  http_version_h http_version_ht http_version_htt http_version_http http_version_slash : State
  http_version_major_start http_version_major http_version_minor_start http_version_minor : State
  status_code_1 status_code_2 status_code_3 status_code_space status_text_start status_text : State
  status_line_lf first_header_line_start header_line_start header_name : State
  header_colon space_before_header_value header_value header_lf final_lf good : State

pub record ResponseParser : Type 0 where
  pub state : State
  pub max_total_length : ℕ
  pub req : ResponseHeader
  pub header : Header
  pub header_cms_list : Bool
  pub total_length : ℕ

abbrev pub initial : ResponseParser
initial = record {
  state = State.http_version_h;
  max_total_length = 8192;
  req = record {
    common = initial_common;
    status = 0;
    status_text = [];
    sec_websocket_accept = [];
    date = [];
    server = [];
  };
  header = record { name = []; value = [] };
  header_cms_list = false;
  total_length = 0;
}

abbrev pub to : ResponseParser → State → Result ResponseParser
to p s = ok (record p { state = s })

-- Members of `req` by name.
abbrev pub set_common : ResponseHeader → Result Common → Result ResponseHeader
set_common r (ok c) = ok (record r { common = c })
set_common r (err e) = err e

-- `process_ready_header` behind `trim_right`, by the header's name. The source changes
-- `header.value` in place; each caller clears it next.
pub by_name : ResponseHeader → Header → Result ResponseHeader
by_name r h =
    if equal h.name (codes "content-length")
    then set_common r (content_length_header r.common h.value)
    else if equal h.name (codes "transfer-encoding")
    then set_common r (transfer_encoding_header r.common h.value)
    else if equal h.name (codes "content-type")
    then ok (record r { common = content_type_header r.common h.value })
    else if equal h.name (codes "connection")
    then set_common r (connection_header r.common h.value)
    else if equal h.name (codes "upgrade")
    then set_common r (upgrade_header r.common h.value)
    else if equal h.name (codes "sec-websocket-accept")
    then ok (record r { sec_websocket_accept = h.value })
    else if equal h.name (codes "date")
    then ok (record r { date = h.value })
    else if equal h.name (codes "server")
    then ok (record r { server = h.value })
    else ok (record r { common = add_header r.common h })

-- An empty item of a comma-separated list is skipped.
unfoldable pub process_ready_header : ResponseParser → Result ResponseParser
unfolding by_name
process_ready_header p =
    let h = record p.header { value = trim_right p.header.value } in
    if p.header_cms_list && is_empty h.value
    then ok p
    else (by_name p.req h >>= λ r. ok (record p { req = r }))

-- Appends to the strings that are being read.
abbrev pub push_text : ResponseParser → ℕ → ResponseParser
push_text p c = record p { req = record p.req { status_text = p.req.status_text ++ c ∷ [] } }

abbrev pub push_name : ResponseParser → ℕ → ResponseParser
push_name p c = record p { header = record p.header { name = p.header.name ++ c ∷ [] } }

abbrev pub push_value : ResponseParser → ℕ → ResponseParser
push_value p c = record p { header = record p.header { value = p.header.value ++ c ∷ [] } }

abbrev pub set_major : ResponseParser → ℕ → ResponseParser
set_major p n = record p {
  req = record p.req { common = record p.req.common { http_version_major = n } };
}

abbrev pub set_minor : ResponseParser → ℕ → ResponseParser
set_minor p n = record p {
  req = record p.req { common = record p.req.common { http_version_minor = n } };
}

abbrev pub set_status : ResponseParser → ℕ → ResponseParser
set_status p n = record p { req = record p.req { status = n } }

-- The bytes that no token has.
abbrev pub is_no_token : ℕ → Bool
is_no_token c = not (is_char c) || is_ctl c || is_tspecial c
