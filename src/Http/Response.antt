-- ===== src/Http/Response.antt =====
-- `ResponseParser::consume` and `parse` of include/crab/http/response_parser.hxx and .hpp.
pub mod Bounds
use crablib.Base.{
  ℕ, zero, suc, ◌+◌, ◌-◌, ◌*◌, ◌%◌, ◌^◌, Bool, true, false, not, ◌&&◌, ◌||◌, ltb, leb, ◌==◌,
  if◌then◌else◌, [], ◌∷◌, ◌++◌, Bytes, codes, equal, Result, ok, err, throw, logic_error, ◌>>=◌,
}
use crablib.Chars.{is_sp, is_ctl, is_digit, to_lower, trim_right}
use crablib.Http.ResponseState.{
  State, ResponseParser, to, process_ready_header, push_text, set_status, push_name, push_value,
  set_major, set_minor, is_no_token,
}
use crablib.Loop

-- A letter of "HTTP/".
abbrev expect : ResponseParser → ℕ → ℕ → State → Result ResponseParser → Result ResponseParser
expect p input letter next refused = if not (input == letter) then refused else to p next

-- The start of a header's name, where the header before it is done.
name_start : ResponseParser → ℕ → Result ResponseParser
name_start p input =
    if input == b'\r'
    then to p State.final_lf
    else if input == b'\n'
    then to p State.good
    else if is_no_token input
    then throw "Invalid character at header line start"
    else to (push_name p (to_lower input)) State.header_name

header_colon_case : ResponseParser → ℕ → Result ResponseParser
header_colon_case p input =
    if is_sp input
    then to p State.header_colon
    else if not (input == b':')
    then throw "':' expected"
    else ok (record p {
      header_cms_list =
          equal p.header.name (codes "connection")
          || equal p.header.name (codes "transfer-encoding");
      state = State.space_before_header_value;
    })

-- At a comma of a list, its item is taken.
next_item : ResponseParser → Result ResponseParser
next_item p = do
  q ← process_ready_header p
  to (record q { header = record q.header { value = [] } }) State.space_before_header_value

header_value_case : ResponseParser → ℕ → Result ResponseParser
unfolding next_item
header_value_case p input =
    if input == b'\r'
    then to p State.header_lf
    else if input == b'\n'
    then to p State.header_line_start
    else if is_ctl input
    then throw "Invalid character (control) in header value"
    else if p.header_cms_list && input == b','
    then next_item p
    else to (push_value p input) State.header_value

-- A header is done where the next line does not go on with it.
next_header : ResponseParser → ℕ → Result ResponseParser
unfolding name_start
next_header p input = do
  q ← process_ready_header p
  name_start (record q { header = record { name = []; value = [] } }) input

status_text_case : ResponseParser → ℕ → Result ResponseParser
status_text_case p input =
    if input == b'\r'
    then to p State.status_line_lf
    else if input == b'\n'
    then to p State.first_header_line_start
    else if is_ctl input
    then throw "Invalid character (control) in status text"
    else to (push_text p input) State.status_text

-- The cases of `switch (state)`.
consume_state : State → ResponseParser → ℕ → Result ResponseParser
unfolding name_start status_text_case header_colon_case header_value_case next_header
consume_state State.http_version_h p input =
    expect p input b'H' State.http_version_ht (throw "Invalid http version, 'H' is expected")
consume_state State.http_version_ht p input =
    expect p input b'T' State.http_version_htt (throw "Invalid http version, 'T' is expected")
consume_state State.http_version_htt p input =
    expect p input b'T' State.http_version_http (throw "Invalid http version, 'T' is expected")
consume_state State.http_version_http p input =
    expect p input b'P' State.http_version_slash (throw "Invalid http version, 'P' is expected")
consume_state State.http_version_slash p input =
    expect p input b'/' State.http_version_major_start
      (throw "Invalid http version, '/' is expected")
consume_state State.http_version_major_start p input =
    if not (is_digit input)
    then throw "Invalid http version major start, must be digit"
    else to (set_major p (input - b'0')) State.http_version_major
consume_state State.http_version_major p input =
    let major = p.req.http_version_major * 10 + (input - b'0') in
    if input == b'.'
    then to p State.http_version_minor_start
    else if not (is_digit input)
    then throw "Invalid http version major, must be digit"
    else if ltb 1 major
    then throw "Unsupported http version"
    else to (set_major p major) State.http_version_major
consume_state State.http_version_minor_start p input =
    if not (is_digit input)
    then throw "Invalid http version minor start, must be digit"
    else to (set_minor p (input - b'0')) State.http_version_minor
consume_state State.http_version_minor p input =
    let c = p.req.common in
    let keep = c.http_version_major == 1 && leb 1 c.http_version_minor in
    let minor = c.http_version_minor * 10 + (input - b'0') in
    if is_sp input
    then to (record p { req = record p.req { common = record c { keep_alive = keep } } })
        State.status_code_1
    else if not (is_digit input)
    then throw "Invalid http version minor, must be digit"
    else if ltb 99 minor
    then throw "Invalid http version minor, too big"
    else to (set_minor p minor) State.http_version_minor
consume_state State.status_code_1 p input =
    if is_sp input
    then to p State.status_code_1
    else if not (is_digit input)
    then throw "Invalid http status code symbol 1, must be digit"
    else to (set_status p (p.req.status * 10 + (input - b'0'))) State.status_code_2
consume_state State.status_code_2 p input =
    if not (is_digit input)
    then throw "Invalid http status code symbol 2, must be digit"
    else to (set_status p (p.req.status * 10 + (input - b'0'))) State.status_code_3
consume_state State.status_code_3 p input =
    if not (is_digit input)
    then throw "Invalid http status code symbol 3, must be digit"
    else to (set_status p (p.req.status * 10 + (input - b'0'))) State.status_code_space
consume_state State.status_code_space p input =
    if input == b'\r'
    then to p State.status_line_lf
    else if input == b'\n'
    then to p State.first_header_line_start
    else if not (is_sp input)
    then throw "Invalid http status code, space expected"
    else to p State.status_text_start
consume_state State.status_text_start p input =
    if is_sp input then to p State.status_text_start else status_text_case p input
consume_state State.status_text p input = status_text_case p input
consume_state State.status_line_lf p input =
    if not (input == b'\n') then throw "Newline is expected" else to p State.first_header_line_start
consume_state State.first_header_line_start p input =
    name_start (record p { req = record p.req { status_text = trim_right p.req.status_text } })
      input
consume_state State.header_line_start p input =
    if is_sp input then to (push_value p input) State.header_value else next_header p input
consume_state State.header_name p input =
    if is_sp input
    then to p State.header_colon
    else if not (input == b':')
    then (if is_no_token input
        then throw "Invalid character at header name"
        else to (push_name p (to_lower input)) State.header_name)
    else header_colon_case p input
consume_state State.header_colon p input = header_colon_case p input
consume_state State.space_before_header_value p input =
    if is_sp input then to p State.space_before_header_value else header_value_case p input
consume_state State.header_value p input = header_value_case p input
consume_state State.header_lf p input =
    if not (input == b'\n') then throw "Expecting newline" else to p State.header_line_start
consume_state State.final_lf p input =
    if not (input == b'\n') then throw "Expecting final newline" else to p State.good
consume_state State.good p input = err (logic_error "Invalid response parser state")

-- `if (++total_length > max_total_length)` stands before the switch.
unfoldable pub consume : ResponseParser → ℕ → Result ResponseParser
unfolding consume_state
consume p input =
    let q = record p { total_length = (p.total_length + 1) % 2 ^ 64 } in
    if ltb q.max_total_length q.total_length
    then throw "HTTP Header too long - security violation"
    else consume_state q.state q input

abbrev is_good_state : State → Bool
is_good_state State.good = true
is_good_state _ = false

abbrev pub is_good : ResponseParser → Bool
is_good p = is_good_state p.state

unfoldable pub parse : ResponseParser → Bytes → Result (ResponseParser × Bytes)
unfolding Loop.parse
parse = Loop.parse is_good consume
