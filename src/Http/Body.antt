-- ===== src/Http/Body.antt =====
-- `BodyParser` of include/crab/http/request_parser.hpp and .hxx: a body of known length, or one in
-- chunks. `body` is its `StringStream`, whose `write` appends.
pub mod Bytewise
use crablib.Base.{
  ℕ, zero, suc, ◌+◌, ◌-◌, ◌*◌, ◌/◌, ◌%◌, ◌^◌, min, Bool, true, false, not, ◌&&◌, ◌||◌, ltb, ◌==◌,
  if◌then◌else◌, Option, none, some, [], ◌∷◌, ◌++◌, Bytes, Result, ok, err, throw, logic_error,
  ◌>>=◌, length, take, drop,
}
use crablib.Chars.{is_sp, is_char, is_ctl, is_tspecial}
use crablib.Chars.Hex.{from_hex_digit}
use crablib.Loop.Chunks

pub data State : Type 0 where
  content_length_body chunk_size_start chunk_size chunk_size_extension chunk_size_lf : State
  chunk_body chunk_body_cr chunk_body_lf : State
  trailer_line_start trailer trailer_lf final_lf good : State

pub record BodyParser : Type 0 where
  pub state : State
  pub body : Bytes
  pub max_chunk_header_total_length : ℕ
  pub max_trailers_total_length : ℕ
  pub remaining_bytes : ℕ
  pub chunk_header_total_length : ℕ
  pub trailers_total_length : ℕ

-- `BodyParser()`
abbrev pub initial : BodyParser
initial = record {
  state = State.good;
  body = [];
  max_chunk_header_total_length = 256;
  max_trailers_total_length = 4096;
  remaining_bytes = 0;
  chunk_header_total_length = 0;
  trailers_total_length = 0;
}

-- The first argument's `none` means that no content length was given.
unfoldable pub start : Option ℕ → Bool → BodyParser
start content_length true = record initial { state = State.chunk_size_start }
start none false = initial
start (some n) false = record initial {
  remaining_bytes = n;
  state = if n == 0 then State.good else State.content_length_body;
}

-- The body bytes of the input, at most `remaining_bytes` of them; `done` is the parser's next state
-- when they are complete.
abbrev write_body : BodyParser → BodyParser → Bytes → BodyParser × Bytes
write_body p done input =
    let wr = min (length input) p.remaining_bytes in
    let left = p.remaining_bytes - wr in
    let next = if left == 0 then done else p in
    (record next { body = p.body ++ take wr input; remaining_bytes = left }, drop wr input)

abbrev count_chunk_header : BodyParser → BodyParser
count_chunk_header p = record p {
  chunk_header_total_length = (p.chunk_header_total_length + 1) % 2 ^ 64;
}

abbrev count_trailer : BodyParser → BodyParser
count_trailer p = record p { trailers_total_length = (p.trailers_total_length + 1) % 2 ^ 64 }

abbrev to : BodyParser → State → Result BodyParser
to p s = ok (record p { state = s })

-- `(remaining_bytes == 0) ? TRAILER_LINE_START : CHUNK_BODY`
abbrev after_chunk_header : BodyParser → Result BodyParser
after_chunk_header p =
    to p (if p.remaining_bytes == 0 then State.trailer_line_start else State.chunk_body)

-- The first digit of a chunk's size, and a further one.
first_digit : BodyParser → Option ℕ → Result BodyParser
first_digit p none = throw "Chunk size must start with hex digit"
first_digit p (some digit) = ok (record p { remaining_bytes = digit; state = State.chunk_size })

next_digit : BodyParser → Option ℕ → Result BodyParser
next_digit p none = throw "Chunk size must be hex number"
next_digit p (some digit) =
    if ltb ((2 ^ 64 - 1 - 15) / 16) p.remaining_bytes
    then throw "Chunk size too big"
    else ok (record p {
      remaining_bytes = (p.remaining_bytes * 16 + digit) % 2 ^ 64;
      state = State.chunk_size;
    })

-- The cases of `switch (state)`; `p` has its counter advanced already.
consume_state : State → BodyParser → ℕ → Result BodyParser
unfolding first_digit next_digit
consume_state State.chunk_body_cr p input =
    if is_sp input
    then to p State.chunk_body_cr
    else if input == b'\r'
    then to p State.chunk_body_lf
    else if input == b'\n'
    then to p State.chunk_size_start
    else throw "CR is expected after chunk body"
consume_state State.chunk_body_lf p input =
    if not (input == b'\n')
    then throw "LF is expected after chunk body"
    else to p State.chunk_size_start
consume_state State.chunk_size_start p input =
    if is_sp input then to p State.chunk_size_start else first_digit p (from_hex_digit input)
consume_state State.chunk_size p input =
    if is_sp input || input == b';'
    then to p State.chunk_size_extension
    else if input == b'\r'
    then to p State.chunk_size_lf
    else if input == b'\n'
    then after_chunk_header p
    else next_digit p (from_hex_digit input)
consume_state State.chunk_size_extension p input =
    if input == b'\r'
    then to p State.chunk_size_lf
    else if input == b'\n'
    then after_chunk_header p
    else to p State.chunk_size_extension
consume_state State.chunk_size_lf p input =
    if not (input == b'\n') then throw "Newline is expected" else after_chunk_header p
consume_state State.trailer_line_start p input =
    if input == b'\r'
    then to p State.final_lf
    else if input == b'\n'
    then to p State.good
    else if not (is_char input) || is_ctl input || is_tspecial input
    then throw "Invalid character at header line start"
    else to p State.trailer
consume_state State.trailer p input =
    if input == b'\r' then to p State.trailer_lf else to p State.trailer
consume_state State.trailer_lf p input =
    if not (input == b'\n') then throw "Newline is expected" else to p State.trailer_line_start
consume_state State.final_lf p input =
    if not (input == b'\n') then throw "Newline is expected" else to p State.good
consume_state _ p input = err (logic_error "Invalid chunked body parser state")

-- Whether a state counts its bytes as trailer or as chunk header.
abbrev is_trailer : State → Bool
is_trailer State.trailer_line_start = true
is_trailer State.trailer = true
is_trailer State.trailer_lf = true
is_trailer State.final_lf = true
is_trailer _ = false

-- `consume(uint8_t input)`
unfoldable pub consume_byte : BodyParser → ℕ → Result BodyParser
unfolding consume_state
consume_byte p input =
    if ltb p.max_chunk_header_total_length p.chunk_header_total_length
    then throw "HTTP Chunk Header too long - security violation"
    else if ltb p.max_trailers_total_length p.trailers_total_length
    then throw "HTTP Trailer too long - security violation"
    else if is_trailer p.state
    then consume_state p.state (count_trailer p) input
    else consume_state p.state (count_chunk_header p) input

consume_in : State → BodyParser → Bytes → Result (BodyParser × Bytes)
consume_in State.content_length_body p input =
    ok (write_body p (record p { state = State.good }) input)
consume_in State.chunk_body p input =
    ok
      (write_body p (record p { chunk_header_total_length = 0; state = State.chunk_body_cr }) input)
consume_in _ p [] = ok (p, [])
consume_in _ p (c ∷ cs) = (consume_byte p c >>= λ q. ok (q, cs))

-- `consume(begin, end)`, which is called only where `begin != end`.
unfoldable pub consume : BodyParser → Bytes → Result (BodyParser × Bytes)
unfolding consume_in
consume p = consume_in p.state p

abbrev is_good_state : State → Bool
is_good_state State.good = true
is_good_state _ = false

abbrev pub is_good : BodyParser → Bool
is_good p = is_good_state p.state

-- Each round takes a byte at least.
unfoldable pub parse : BodyParser → Bytes → Option (Result (BodyParser × Bytes))
parse p input = Chunks.parse is_good consume (suc (length input)) p input
