-- ===== src/Http/Print.antt =====
-- `to_string_common` and `RequestHeader::to_string` of include/crab/http/types.hxx. A number goes to
-- the stream in decimal, without leading zeros.
pub mod Bare
pub mod Response
use crablib.Base.{
  ℕ, Bool, true, false, not, ◌&&◌, ◌||◌, ◌==◌, if◌then◌else◌, Option, none, some, List, [], ◌∷◌,
  ◌++◌, Bytes, codes,
}
use crablib.IntegerCast.{integer_saver}
use crablib.Http.Header.{Header, Common, RequestHeader, is_empty}

abbrev decimal_text : ℕ → Bytes
decimal_text = integer_saver 8

-- A line of the header, unless its value is empty.
abbrev line_unless_empty : Bytes → Bytes → Bytes
line_unless_empty name value = if is_empty value then [] else name ++ (value ++ codes "\r\n")

content_type_line : Common → Bytes
content_type_line c =
    if is_empty c.content_type_mime
    then []
    else codes "content-type: "
      ++ (c.content_type_mime
          ++ ((if is_empty c.content_type_suffix then [] else codes "; " ++ c.content_type_suffix)
              ++ codes "\r\n"))

content_length_line : Option ℕ → Bytes
content_length_line none = []
content_length_line (some n) = codes "content-length: " ++ (decimal_text n ++ codes "\r\n")

connection_lines : Common → Bytes
connection_lines c =
    if c.http_version_major == 1 && (c.http_version_minor == 0 && c.keep_alive)
    then codes "connection: keep-alive\r\n"
    else if c.http_version_major == 1 && (c.http_version_minor == 1 && not c.keep_alive)
    then codes "connection: close\r\n"
    else if c.connection_upgrade && c.upgrade_websocket
    then codes "connection: upgrade\r\nupgrade: websocket\r\n"
    else []

-- Each name behind a blank, and behind a comma too unless it is the first.
encoding_names : List Bytes → Bool → Bytes
encoding_names [] first = []
encoding_names (te ∷ rest) first =
    (if first then codes " " else codes ", ") ++ (te ++ encoding_names rest false)

transfer_encoding_line : Common → Bytes
transfer_encoding_line c =
    let names =
      if c.transfer_encoding_chunked
      then c.transfer_encodings ++ codes "chunked" ∷ []
      else c.transfer_encodings in
    if is_empty names
    then []
    else codes "transfer-encoding:" ++ (encoding_names names true ++ codes "\r\n")

header_lines : List Header → Bytes
header_lines [] = []
header_lines (h ∷ rest) = h.name ++ (codes ": " ++ (h.value ++ (codes "\r\n" ++ header_lines rest)))

unfoldable pub to_string_common : Common → Bytes
unfolding content_type_line content_length_line connection_lines encoding_names
    transfer_encoding_line header_lines
to_string_common c =
    content_type_line c
    ++ (content_length_line c.content_length
        ++ (connection_lines c ++ (transfer_encoding_line c ++ header_lines c.headers)))

unfoldable pub to_string : RequestHeader → Bytes
unfolding to_string_common
to_string r =
    r.method
    ++ (b' '
        ∷ (r.path
            ++ ((if is_empty r.query_string then [] else b'?' ∷ r.query_string)
                ++ (codes " HTTP/"
                    ++ (decimal_text r.http_version_major
                        ++ (b'.'
                            ∷ (decimal_text r.http_version_minor
                                ++ (codes "\r\n"
                                    ++ (line_unless_empty (codes "host: ") r.host
                                        ++ (line_unless_empty (codes "origin: ") r.origin
                                            ++ (line_unless_empty (codes "authorization: basic ")
                                                  r.basic_authorization
                                                ++ (to_string_common r.common
                                                    ++ (line_unless_empty
                                                          (codes "sec-websocket-key: ")
                                                          r.sec_websocket_key
                                                        ++ (line_unless_empty
                                                            (codes "sec-websocket-version: ")
                                                            r.sec_websocket_version
                                                            ++ codes "\r\n"))))))))))))))
