-- ===== src/Http/Query.antt =====
-- `QueryParser` of include/crab/http/query_parser.hpp and .hxx. The map of the source is an association
-- list in which a key stands once; its order is that of the first assignments.
pub mod Encoded
use crablib.Base.{
  ℕ, ◌+◌, ◌*◌, ◌%◌, Bool, true, false, not, ◌&&◌, ◌||◌, ◌==◌, if◌then◌else◌, Option, none, some,
  List, [], ◌∷◌, ◌++◌, Bytes, equal,
}
use crablib.Chars.Hex.{from_hex_digit}
use crablib.Http.Header.{is_empty}

abbrev pub Map : Type 0
Map = List (Bytes × Bytes)

-- `parsed[key] = value`
unfoldable pub assign : Bytes → Bytes → Map → Map
assign k v [] = (k, v) ∷ []
assign k v ((j, w) ∷ m) = if equal j k then (k, v) ∷ m else (j, w) ∷ assign k v m

pub data State : Type 0 where
  key key_percent1 key_percent2 value value_percent1 value_percent2 : State

pub record QueryParser : Type 0 where
  pub parsed : Map
  pub state : State
  pub percent1_hex_sym : ℕ
  pub key_ : Bytes
  pub value_ : Bytes

abbrev pub initial : QueryParser
initial = record { parsed = []; state = State.key; percent1_hex_sym = 0; key_ = []; value_ = [] }

-- The second of two equal keys wins.
abbrev pub persist_pair : QueryParser → QueryParser
persist_pair p = record p { parsed = assign p.key_ p.value_ p.parsed; key_ = []; value_ = [] }

abbrev push_key : QueryParser → ℕ → QueryParser
push_key p c = record p { key_ = p.key_ ++ c ∷ [] }

abbrev push_value : QueryParser → ℕ → QueryParser
push_value p c = record p { value_ = p.value_ ++ c ∷ [] }

abbrev to : QueryParser → State → QueryParser
to p s = record p { state = s }

-- `persist_pair` unless the key is empty.
abbrev persist_key : QueryParser → QueryParser
persist_key p = if is_empty p.key_ then p else persist_pair p

consume_end_in : State → QueryParser → QueryParser
consume_end_in State.key p = to (persist_key p) State.key
consume_end_in State.value p = to (persist_pair p) State.key
consume_end_in State.key_percent1 p = to (persist_pair (push_key p b'%')) State.key
consume_end_in State.key_percent2 p =
    to (persist_pair (push_key (push_key p b'%') p.percent1_hex_sym)) State.key
consume_end_in State.value_percent1 p = to (persist_pair (push_value p b'%')) State.key
consume_end_in State.value_percent2 p =
    to (persist_pair (push_value (push_value p b'%') p.percent1_hex_sym)) State.key

unfoldable pub consume_end : QueryParser → QueryParser
unfolding consume_end_in
consume_end p = consume_end_in p.state p

-- `from_hex_digit(percent1_hex_sym) * 16 + digit2`, as a byte; the first digit was tested when it
-- was read.
abbrev digit_value : Option ℕ → ℕ
digit_value none = 0
digit_value (some d) = d

abbrev hex_byte : QueryParser → ℕ → ℕ
hex_byte p digit2 = (digit_value (from_hex_digit p.percent1_hex_sym) * 16 + digit2) % 256

-- The first and the second byte behind a percent sign, in a key and in a value.
key_digit1 : QueryParser → ℕ → Option ℕ → QueryParser
key_digit1 p input none = to (push_key (push_key p b'%') input) State.key
key_digit1 p input (some _) = record p { percent1_hex_sym = input; state = State.key_percent2 }

key_digit2 : QueryParser → ℕ → Option ℕ → QueryParser
key_digit2 p input none =
    to (push_key (push_key (push_key p b'%') p.percent1_hex_sym) input) State.key
key_digit2 p input (some digit2) = to (push_key p (hex_byte p digit2)) State.key

value_digit1 : QueryParser → ℕ → Option ℕ → QueryParser
value_digit1 p input none = to (push_value (push_value p b'%') input) State.value
value_digit1 p input (some _) = record p { percent1_hex_sym = input; state = State.value_percent2 }

value_digit2 : QueryParser → ℕ → Option ℕ → QueryParser
value_digit2 p input none =
    to (push_value (push_value (push_value p b'%') p.percent1_hex_sym) input) State.value
value_digit2 p input (some digit2) = to (push_value p (hex_byte p digit2)) State.value

abbrev plus_to_space : ℕ → ℕ
plus_to_space input = if input == b'+' then b' ' else input

consume_in : State → QueryParser → ℕ → QueryParser
unfolding key_digit1 key_digit2 value_digit1 value_digit2
consume_in State.key p input =
    if input == b'&'
    then to (persist_key p) State.key
    else if input == b'%'
    then to p State.key_percent1
    else if input == b'='
    then to p State.value
    else to (push_key p (plus_to_space input)) State.key
consume_in State.key_percent1 p input =
    if input == b'='
    then to (push_key p b'%') State.value
    else key_digit1 p input (from_hex_digit input)
consume_in State.key_percent2 p input =
    if input == b'='
    then to (push_key (push_key p b'%') p.percent1_hex_sym) State.value
    else key_digit2 p input (from_hex_digit input)
consume_in State.value p input =
    if input == b'&'
    then to (persist_pair p) State.key
    else if input == b'%'
    then to p State.value_percent1
    else to (push_value p (plus_to_space input)) State.value
consume_in State.value_percent1 p input =
    if input == b'&'
    then to (push_value p b'%') State.key
    else value_digit1 p input (from_hex_digit input)
consume_in State.value_percent2 p input =
    if input == b'='
    then to (push_value (push_value p b'%') p.percent1_hex_sym) State.value
    else value_digit2 p input (from_hex_digit input)

unfoldable pub consume : QueryParser → ℕ → QueryParser
unfolding consume_in
consume p = consume_in p.state p

-- `parse(begin, end)`
unfoldable pub parse : QueryParser → Bytes → QueryParser
parse p [] = p
parse p (c ∷ cs) = parse (consume p c) cs

unfoldable pub parse_query_string : Bytes → Map
unfolding consume_end parse
parse_query_string str = (consume_end (parse initial str)).parsed
