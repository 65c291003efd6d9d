-- ===== src/Http/Query/Encoded.antt =====
-- `QueryParser` on a query string whose keys and values were written by `url_encode`.
use crablib.Base.{
  ℕ, ◌/◌, ◌%◌, ◌<◌, Bool, true, false, not, ◌&&◌, ◌==◌, List, [], ◌∷◌, ◌++◌, Bytes, IsBytes, ◌≡◌,
  refl, ap, sym, ◌∙◌, inl, inr, arith, Bool-cases, append-nil, append_assoc, holds_below,
  below_sound,
}
use crablib.Chars.{is_uri_reserved}
use crablib.Chars.Hex.{hex_digit, from_hex_digit-hex_digit}
use crablib.Http.Url.{encode_byte, url_encode}
use crablib.Http.Query.{
  Map, assign, State, QueryParser, consume, consume_end, parse, parse_query_string,
}

-- A byte that `url_encode` keeps has no meaning to the parser.
abbrev IsPlain : ℕ → Type 0
IsPlain c =
    ((c == b'&') ≡ false) × ((c == b'%') ≡ false) × ((c == b'=') ≡ false) × ((c == b'+') ≡ false)

unreserved_not : (c d : ℕ) → is_uri_reserved d ≡ true → is_uri_reserved c ≡ false → (c == d) ≡ false
unreserved_not c d r h = elim (Bool-cases (c == d)) [
  | inl e ↦ let same : c ≡ d = ground arith in cc (r, rw same at h)
  | inr e ↦ e
]

unreserved-IsPlain : (c : ℕ) → is_uri_reserved c ≡ false → IsPlain c
unreserved-IsPlain c h = (
  unreserved_not c b'&' (unfold is_uri_reserved in refl) h,
  unreserved_not c b'%' (unfold is_uri_reserved in refl) h,
  unreserved_not c b'=' (unfold is_uri_reserved in refl) h,
  unreserved_not c b'+' (unfold is_uri_reserved in refl) h,
)

hex_digit_table : ℕ → Bool
hex_digit_table n = not (hex_digit n == b'=') && not (hex_digit n == b'&')

hex_digit_all : holds_below 16 hex_digit_table ≡ true
unfolding hex_digit hex_digit_table holds_below
hex_digit_all = refl

hex_digit_not : (n : ℕ) → n < 16 → ((hex_digit n == b'=') ≡ false) × ((hex_digit n == b'&') ≡ false)
unfolding hex_digit_table
hex_digit_not n h = ground (arith, below_sound 16 hex_digit_table n hex_digit_all h)

-- The parser in a key or a value.
abbrev at_key : Map → Bytes → ℕ → QueryParser
at_key m k s = record { parsed = m; state = State.key; percent1_hex_sym = s; key_ = k; value_ = [] }

abbrev at_value : Map → Bytes → Bytes → ℕ → QueryParser
at_value m k v s = record {
  parsed = m;
  state = State.value;
  percent1_hex_sym = s;
  key_ = k;
  value_ = v;
}

encode_byte-append :
    (c : ℕ) (xs ys : Bytes) → encode_byte false c xs ++ ys ≡ encode_byte false c (xs ++ ys)
unfolding encode_byte
encode_byte-append c xs ys = elim (Bool-cases (is_uri_reserved c)) [ inl r ↦ rw r | inr r ↦ rw r ]

module _ (m : Map) where
  key_plain :
      (k : Bytes) (s c : ℕ) (rest : Bytes)
      → IsPlain c
      → parse (at_key m k s) (c ∷ rest) ≡ parse (at_key m (k ++ c ∷ []) s) rest
  unfolding parse consume
  key_plain k s c rest (h1, h2, h3, h4) = rw (h1, h2, h3, h4)

  key_percent :
      (k : Bytes) (s c : ℕ) (rest : Bytes)
      → c < 256
      → parse (at_key m k s) (b'%' ∷ hex_digit (c / 16 % 16) ∷ hex_digit (c % 16) ∷ rest)
        ≡ parse (at_key m (k ++ c ∷ []) (hex_digit (c / 16 % 16))) rest
  unfolding parse consume
  key_percent k s c rest b =
      rw
        (
          (hex_digit_not (c / 16 % 16) (omega arith)).0,
          from_hex_digit-hex_digit (c / 16 % 16) (omega arith),
          (hex_digit_not (c % 16) (omega arith)).0,
          from_hex_digit-hex_digit (c % 16) (omega arith),
          from_hex_digit-hex_digit (c / 16 % 16) (omega arith),
        )
        (ap (λ (t : ℕ). parse (at_key m (k ++ t ∷ []) (hex_digit (c / 16 % 16))) rest)
          (omega arith))

  value_plain :
      (k v : Bytes) (s c : ℕ) (rest : Bytes)
      → IsPlain c
      → parse (at_value m k v s) (c ∷ rest) ≡ parse (at_value m k (v ++ c ∷ []) s) rest
  unfolding parse consume
  value_plain k v s c rest (h1, h2, h3, h4) = rw (h1, h2, h4)

  value_percent :
      (k v : Bytes) (s c : ℕ) (rest : Bytes)
      → c < 256
      → parse (at_value m k v s) (b'%' ∷ hex_digit (c / 16 % 16) ∷ hex_digit (c % 16) ∷ rest)
        ≡ parse (at_value m k (v ++ c ∷ []) (hex_digit (c / 16 % 16))) rest
  unfolding parse consume
  value_percent k v s c rest b =
      rw
        (
          (hex_digit_not (c / 16 % 16) (omega arith)).1,
          from_hex_digit-hex_digit (c / 16 % 16) (omega arith),
          (hex_digit_not (c % 16) (omega arith)).0,
          from_hex_digit-hex_digit (c % 16) (omega arith),
          from_hex_digit-hex_digit (c / 16 % 16) (omega arith),
        )
        (ap (λ (t : ℕ). parse (at_value m k (v ++ t ∷ []) (hex_digit (c / 16 % 16))) rest)
          (omega arith))

  -- What one byte of a key or a value becomes, the parser reads as that byte.
  key_byte :
      (k : Bytes) (s c : ℕ) (rest : Bytes)
      → c < 256
      → (t : ℕ) × (parse (at_key m k s) (encode_byte false c rest)
          ≡ parse (at_key m (k ++ c ∷ []) t) rest)
  unfolding encode_byte
  key_byte k s c rest b = elim (Bool-cases (is_uri_reserved c)) [
    | inl r ↦ (hex_digit (c / 16 % 16), rw r (key_percent k s c rest b))
    | inr r ↦ (s, rw r (key_plain k s c rest (unreserved-IsPlain c r)))
  ]

  value_byte :
      (k v : Bytes) (s c : ℕ) (rest : Bytes)
      → c < 256
      → (t : ℕ) × (parse (at_value m k v s) (encode_byte false c rest)
          ≡ parse (at_value m k (v ++ c ∷ []) t) rest)
  unfolding encode_byte
  value_byte k v s c rest b = elim (Bool-cases (is_uri_reserved c)) [
    | inl r ↦ (hex_digit (c / 16 % 16), rw r (value_percent k v s c rest b))
    | inr r ↦ (s, rw r (value_plain k v s c rest (unreserved-IsPlain c r)))
  ]

  key_encoded :
      (cs k : Bytes) (s : ℕ) (rest : Bytes)
      → IsBytes cs
      → (t : ℕ) × (parse (at_key m k s) (url_encode cs false ++ rest)
          ≡ parse (at_key m (k ++ cs) t) rest)
  unfolding url_encode
  key_encoded [] k s rest h = (s, rw (append-nil k))
  key_encoded (c ∷ cs) k s rest (b, h) =
      let (t, one) = key_byte k s c (url_encode cs false ++ rest) b in
      let (u, more) = key_encoded cs (k ++ c ∷ []) t rest h in
      (
        u,
        rw (encode_byte-append c (url_encode cs false) rest, one, more, append_assoc k (c ∷ []) cs),
      )

  value_encoded :
      (cs k v : Bytes) (s : ℕ) (rest : Bytes)
      → IsBytes cs
      → (t : ℕ) × (parse (at_value m k v s) (url_encode cs false ++ rest)
          ≡ parse (at_value m k (v ++ cs) t) rest)
  unfolding url_encode
  value_encoded [] k v s rest h = (s, rw (append-nil v))
  value_encoded (c ∷ cs) k v s rest (b, h) =
      let (t, one) = value_byte k v s c (url_encode cs false ++ rest) b in
      let (u, more) = value_encoded cs k (v ++ c ∷ []) t rest h in
      (
        u,
        rw (encode_byte-append c (url_encode cs false) rest, one, more, append_assoc v (c ∷ []) cs),
      )

  -- A pair up to the end of its value.
  pair_encoded :
      (k v : Bytes) (s : ℕ) (rest : Bytes)
      → IsBytes k
      → IsBytes v
      → (t : ℕ) × (parse
            (at_key m [] s)
            (url_encode k false ++ (b'=' ∷ (url_encode v false ++ rest)))
          ≡ parse (at_value m k v t) rest)
  unfolding parse consume
  pair_encoded k v s rest bk bv =
      let (t, one) = key_encoded k [] s (b'=' ∷ (url_encode v false ++ rest)) bk in
      let (u, two) = value_encoded v k [] t rest bv in (u, one ∙ two)

-- The query string of a list of pairs, as a form writes it.
unfoldable pub query_of : List (Bytes × Bytes) → Bytes
query_of [] = []
query_of ((k, v) ∷ []) = url_encode k false ++ (b'=' ∷ url_encode v false)
query_of ((k, v) ∷ (p ∷ ps)) =
    url_encode k false ++ (b'=' ∷ (url_encode v false ++ (b'&' ∷ query_of (p ∷ ps))))

-- The pairs assigned in their order.
unfoldable pub assign_all : Map → List (Bytes × Bytes) → Map
assign_all m [] = m
assign_all m ((k, v) ∷ ps) = assign_all (assign k v m) ps

unfoldable pub AllBytes : List (Bytes × Bytes) → Type 0
AllBytes [] = Unit
AllBytes ((k, v) ∷ ps) = (IsBytes k × IsBytes v) × AllBytes ps

parse-query_of :
    (ps : List (Bytes × Bytes)) (m : Map) (s : ℕ)
    → AllBytes ps
    → (consume_end (parse (at_key m [] s) (query_of ps))).parsed ≡ assign_all m ps
unfolding AllBytes query_of assign_all consume_end parse consume
parse-query_of [] m s h = refl
parse-query_of ((k, v) ∷ []) m s ((bk, bv), h) =
    let (t, one) = pair_encoded m k v s [] bk bv in
    ap (λ q. (consume_end (parse (at_key m [] s) (url_encode k false ++ (b'=' ∷ q)))).parsed)
      (sym (append-nil (url_encode v false)))
    ∙ ap (λ q. (consume_end q).parsed) one
parse-query_of ((k, v) ∷ (p ∷ ps)) m s ((bk, bv), h) =
    let (t, one) = pair_encoded m k v s (b'&' ∷ query_of (p ∷ ps)) bk bv in
    ap (λ q. (consume_end q).parsed) one ∙ parse-query_of (p ∷ ps) (assign k v m) t h

-- A query string of pairs whose keys and values were encoded by `url_encode` is parsed into the
-- map that assigns the decoded pairs in their order, for all strings of bytes.
pub parse_query_string-query_of :
    (ps : List (Bytes × Bytes)) → AllBytes ps → parse_query_string (query_of ps) ≡ assign_all [] ps
unfolding parse_query_string
parse_query_string-query_of ps h = parse-query_of ps [] 0 h
