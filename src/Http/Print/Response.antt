-- ===== src/Http/Print/Response.antt =====
-- ResponseHeader::to_string, status_to_string and is_websocket_upgrade of
-- include/crab/http/types.hxx, and set_uri and get_uri of a request.
use crablib.Base.{
  ℕ, Bool, not, ◌&&◌, Option, none, some, [], ◌∷◌, ◌++◌, ◌==◌, if◌then◌else◌, Bytes, codes, equal,
}
use crablib.IntegerCast.{integer_saver}
use crablib.Http.Header.{RequestHeader, ResponseHeader, is_empty}
use crablib.Http.Print.{to_string_common}

-- `ss << n` for a number.
abbrev decimal_text : ℕ → Bytes
decimal_text = integer_saver 8

unfoldable pub status_to_string : ℕ → Bytes
status_to_string status =
    if status == 101
    then codes "Switching Protocols"
    else if status == 200
    then codes "OK"
    else if status == 400
    then codes "Bad request"
    else if status == 401
    then codes "Unauthorized"
    else if status == 403
    then codes "Forbidden"
    else if status == 404
    then codes "Not found"
    else if status == 422
    then codes "Unprocessable Entity"
    else if status == 500
    then codes "Internal Error"
    else if status == 501
    then codes "Not implemented"
    else if status == 502
    then codes "Service temporarily overloaded"
    else if status == 503
    then codes "Gateway timeout"
    else codes "Unknown"

-- A line, unless its value is empty.
abbrev optional_line : Bytes → Bytes → Bytes
optional_line name value = if is_empty value then [] else name ++ (value ++ codes "\r\n")

unfoldable pub to_string : ResponseHeader → Bytes
unfolding status_to_string
to_string r =
    codes "HTTP/"
    ++ (decimal_text r.http_version_major
        ++ (b'.'
            ∷ (decimal_text r.http_version_minor
                ++ (b' '
                    ∷ (decimal_text r.status
                        ++ (b' '
                            ∷ ((if is_empty r.status_text
                                  then status_to_string r.status
                                  else r.status_text)
                                ++ (codes "\r\n"
                                    ++ (optional_line (codes "date: ") r.date
                                        ++ (to_string_common r.common
                                            ++ (optional_line (codes "sec-websocket-accept: ")
                                                  r.sec_websocket_accept
                                                ++ codes "\r\n")))))))))))

unfoldable pub request_is_websocket_upgrade : RequestHeader → Bool
request_is_websocket_upgrade r =
    equal r.method (codes "GET")
    && r.http_version_major == 1
    && r.http_version_minor == 1
    && r.connection_upgrade
    && r.upgrade_websocket
    && not (is_empty r.sec_websocket_key)
    && equal r.sec_websocket_version (codes "13")
    && r.keep_alive

unfoldable pub is_websocket_upgrade : ResponseHeader → Bool
is_websocket_upgrade r =
    r.status == 101
    && r.connection_upgrade
    && r.upgrade_websocket
    && not (is_empty r.sec_websocket_accept)

-- The text in front of the first '?', and the text behind it, if there is one.
abbrev pub cut_query : Bytes → Bytes × Option Bytes
cut_query [] = ([], none)
cut_query (c ∷ cs) =
    let rest = cut_query cs in if c == b'?' then ([], some cs) else (c ∷ rest.0, rest.1)

unfoldable pub set_uri : RequestHeader → Bytes → RequestHeader
set_uri r uri =
    let cut = cut_query uri in
    elim cut.1 [
      | none ↦ record r { path = uri }
      | some query ↦ record r { path = cut.0; query_string = query }
    ]

unfoldable pub get_uri : RequestHeader → Bytes
get_uri r = if is_empty r.query_string then r.query_string else r.path ++ (b'?' ∷ r.query_string)
