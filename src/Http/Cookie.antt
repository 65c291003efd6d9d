-- ===== src/Http/Cookie.antt =====
-- `CookieParser` of include/crab/http/query_parser.hpp and .hxx.
pub mod Pairs
use crablib.Base.{ℕ, ◌||◌, ◌==◌, if◌then◌else◌, [], ◌∷◌, ◌++◌, Bytes}
use crablib.Chars.{is_sp, trim_right}
use crablib.Http.Query.{Map, assign}

pub data State : Type 0 where
  key_ws_before key value_ws_before value : State

pub record CookieParser : Type 0 where
  pub parsed : Map
  pub state : State
  pub key_ : Bytes
  pub value_ : Bytes

abbrev pub initial : CookieParser
initial = record { parsed = []; state = State.key_ws_before; key_ = []; value_ = [] }

unfoldable pub persist_pair : CookieParser → CookieParser
persist_pair p = record p {
  parsed = assign (trim_right p.key_) (trim_right p.value_) p.parsed;
  key_ = [];
  value_ = [];
}

abbrev to : CookieParser → State → CookieParser
to p s = record p { state = s }

consume_end_in : State → CookieParser → CookieParser
consume_end_in State.key_ws_before p = p
consume_end_in _ p = to (persist_pair p) State.key_ws_before

unfoldable pub consume_end : CookieParser → CookieParser
unfolding consume_end_in
consume_end p = consume_end_in p.state p

key_case : CookieParser → ℕ → CookieParser
key_case p input =
    if input == b';'
    then to (persist_pair p) State.key_ws_before
    else if input == b'='
    then to p State.value_ws_before
    else record p { key_ = p.key_ ++ input ∷ []; state = State.key }

value_case : CookieParser → ℕ → CookieParser
value_case p input =
    if input == b';'
    then to (persist_pair p) State.key_ws_before
    else record p { value_ = p.value_ ++ input ∷ []; state = State.value }

consume_in : State → CookieParser → ℕ → CookieParser
unfolding key_case value_case
consume_in State.key_ws_before p input =
    if is_sp input || input == b';' then to p State.key_ws_before else key_case p input
consume_in State.key p input = key_case p input
consume_in State.value_ws_before p input =
    if is_sp input then to p State.value_ws_before else value_case p input
consume_in State.value p input = value_case p input

unfoldable pub consume : CookieParser → ℕ → CookieParser
unfolding consume_in
consume p = consume_in p.state p

unfoldable pub parse : CookieParser → Bytes → CookieParser
parse p [] = p
parse p (c ∷ cs) = parse (consume p c) cs

unfoldable pub parse_cookie_string : Bytes → Map
unfolding consume_end parse
parse_cookie_string str = (consume_end (parse initial str)).parsed
