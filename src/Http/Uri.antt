-- ===== src/Http/Uri.antt =====
-- `URI` and `URIParser` of include/crab/http/query_parser.hpp and .hxx.
pub mod Segments
use crablib.Base.{
  ℕ, ◌+◌, ◌*◌, ◌%◌, Bool, true, false, not, ◌==◌, if◌then◌else◌, Option, none, some, List, [], ◌∷◌,
  ◌++◌, Bytes, codes, equal, Result, ok, err, throw, logic_error, ◌>>=◌,
}
use crablib.Chars.Hex.{from_hex_digit}
use crablib.Http.Header.{is_empty}
use crablib.Http.Url.{url_decode, url_encode}

pub record Uri : Type 0 where
  pub scheme : Bytes
  pub user_info : Bytes
  pub host : Bytes
  pub port : Bytes
  pub path : Bytes
  pub query : Bytes

-- `URI::to_string`
unfoldable pub to_string : Uri → Bytes
unfolding url_encode
to_string u =
    u.scheme
    ++ (codes "://"
        ++ ((if is_empty u.user_info then [] else url_encode u.user_info false ++ codes "@")
            ++ (u.host
                ++ ((if is_empty u.port then [] else b':' ∷ u.port)
                    ++ (url_encode u.path true
                        ++ (if is_empty u.query then [] else b'?' ∷ u.query))))))

pub data State : Type 0 where
  scheme scheme_sep1 scheme_sep2 host port path path_hex1 path_hex2 query good : State

pub record UriParser : Type 0 where
  pub uri : Uri
  pub state : State
  pub percent1_hex_sym : ℕ
  pub user_info_assigned : Bool
  pub path_components_ : List Bytes
  pub cur_path_ : Bytes

abbrev pub initial : UriParser
initial = record {
  uri = record { scheme = []; user_info = []; host = []; port = []; path = []; query = [] };
  state = State.scheme;
  percent1_hex_sym = 0;
  user_info_assigned = false;
  path_components_ = [];
  cur_path_ = [];
}

-- `path_components_.pop_back()`
unfoldable pub pop_back {ℓ} : {A : Type ℓ} → List A → List A
pop_back [] = []
pop_back (x ∷ []) = []
pop_back (x ∷ y ∷ xs) = x ∷ pop_back (y ∷ xs)

-- Up from the root is no step.
unfoldable pub persist_path_component : UriParser → UriParser
unfolding pop_back
persist_path_component p =
    let components =
      if equal p.cur_path_ (codes "..")
      then pop_back p.path_components_
      else if equal p.cur_path_ (codes ".")
      then p.path_components_
      else p.path_components_ ++ p.cur_path_ ∷ [] in
    record p { path_components_ = components; cur_path_ = [] }

abbrev to : UriParser → State → Result UriParser
to p s = ok (record p { state = s })

abbrev push_path : UriParser → ℕ → UriParser
push_path p c = record p { cur_path_ = p.cur_path_ ++ c ∷ [] }

-- At an '@' what was read for host and port becomes the user information.
at_sign : UriParser → Bytes → Result UriParser
at_sign p info =
    if p.user_info_assigned
    then throw "URI parser - second @ is prohibited"
    else ok (record p {
      user_info_assigned = true;
      uri = record p.uri { user_info = url_decode info; host = []; port = [] };
      state = State.host;
    })

abbrev digit_value : Option ℕ → ℕ
digit_value none = 0
digit_value (some d) = d

path_digit1 : UriParser → ℕ → Option ℕ → Result UriParser
path_digit1 p input none = to (push_path (push_path p b'%') input) State.path
path_digit1 p input (some _) = ok (record p { percent1_hex_sym = input; state = State.path_hex2 })

path_digit2 : UriParser → ℕ → Option ℕ → Result UriParser
path_digit2 p input none =
    to (push_path (push_path (push_path p b'%') p.percent1_hex_sym) input) State.path
path_digit2 p input (some digit2) =
    to (push_path p ((digit_value (from_hex_digit p.percent1_hex_sym) * 16 + digit2) % 256))
      State.path

consume_in : State → UriParser → ℕ → Result UriParser
unfolding at_sign path_digit1 path_digit2 persist_path_component
consume_in State.scheme p input =
    if input == b':'
    then to p State.scheme_sep1
    else to (record p { uri = record p.uri { scheme = p.uri.scheme ++ input ∷ [] } }) State.scheme
consume_in State.scheme_sep1 p input =
    if not (input == b'/')
    then throw "Invalid URI parser state: '/' expected after scheme"
    else to p State.scheme_sep2
consume_in State.scheme_sep2 p input =
    if not (input == b'/')
    then throw "Invalid URI parser state: '//' expected after scheme"
    else to p State.host
-- In state HOST the source clears the host alone; no port has been read there.
consume_in State.host p input =
    if input == b'@'
    then (at_sign p p.uri.host >>= λ q. ok (record q { uri = record q.uri { port = p.uri.port } }))
    else if input == b'/'
    then to p State.path
    else if input == b':'
    then to p State.port
    else to (record p { uri = record p.uri { host = p.uri.host ++ input ∷ [] } }) State.host
consume_in State.port p input =
    if input == b'@'
    then at_sign p (p.uri.host ++ b':' ∷ p.uri.port)
    else if input == b'/'
    then to p State.path
    else to (record p { uri = record p.uri { port = p.uri.port ++ input ∷ [] } }) State.port
consume_in State.path p input =
    if input == b'%'
    then to p State.path_hex1
    else if input == b'?'
    then to p State.query
    else if input == b'/'
    then to (persist_path_component p) State.path
    else to (push_path p input) State.path
consume_in State.path_hex1 p input =
    if input == b'?'
    then to (push_path p b'%') State.query
    else path_digit1 p input (from_hex_digit input)
consume_in State.path_hex2 p input =
    if input == b'?'
    then to (push_path (push_path p b'%') p.percent1_hex_sym) State.query
    else path_digit2 p input (from_hex_digit input)
consume_in State.query p input =
    to (record p { uri = record p.uri { query = p.uri.query ++ input ∷ [] } }) State.query
consume_in State.good p input = err (logic_error "Invalid URI parser state at main consume")

unfoldable pub consume : UriParser → ℕ → Result UriParser
unfolding consume_in
consume p = consume_in p.state p

-- `for (auto &&pc : path_components_) uri.path.append('/' + pc);`
unfoldable pub append_components : Bytes → List Bytes → Bytes
append_components out [] = out
append_components out (pc ∷ rest) = append_components (out ++ b'/' ∷ pc) rest

-- A percent sign that the input ends behind stands for itself.
flush_percent : State → UriParser → UriParser
flush_percent State.path_hex1 p = record (push_path p b'%') { state = State.path }
flush_percent State.path_hex2 p = record (push_path (push_path p b'%') p.percent1_hex_sym) {
  state = State.path;
}
flush_percent _ p = p

accept : State → UriParser → Result UriParser
accept State.host p = to p State.good
accept State.port p = to p State.good
accept State.path p = to p State.good
accept State.query p = to p State.good
accept _ p = throw "Invalid URI parser state at consume_last"

unfoldable pub consume_end : UriParser → Result UriParser
unfolding flush_percent accept append_components
consume_end p =
    let q = flush_percent p.state p in
    let path = append_components q.uri.path q.path_components_ ++ b'/' ∷ q.cur_path_ in
    accept q.state (record q { uri = record q.uri { path = path } })

unfoldable pub parse : UriParser → Bytes → Result UriParser
parse p [] = ok p
parse p (c ∷ cs) = (consume p c >>= λ q. parse q cs)

unfoldable pub parse_uri : Bytes → Result Uri
unfolding parse consume_end
parse_uri str = do p ← parse initial str; q ← consume_end p; ok q.uri
