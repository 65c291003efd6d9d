-- ===== src/Http/Cookie/Pairs.antt =====
-- `CookieParser` of include/crab/http/query_parser.hxx on the text of a `cookie` header.
use crablib.Base.{
  false, List, [], ◌∷◌, ◌++◌, Bytes, codes, ◌≡◌, refl, ap, sym, ◌∙◌, append_assoc, append-nil, ◌==◌,
  ℕ,
}
use crablib.Chars.{is_sp, trim_right}
use crablib.Http.Query.{Map, assign}
use crablib.Http.Query.Encoded.{assign_all}
use crablib.Http.Cookie.{
  State, CookieParser, persist_pair, consume, consume_end, parse, parse_cookie_string,
}

-- The bytes of a key and of a value; neither starts or ends with a blank.
abbrev KeyBytes : Bytes → Type 0
KeyBytes [] = Unit
KeyBytes (c ∷ cs) = (((c == b';') ≡ false) × ((c == b'=') ≡ false)) × KeyBytes cs

abbrev ValueBytes : Bytes → Type 0
ValueBytes [] = Unit
ValueBytes (c ∷ cs) = ((c == b';') ≡ false) × ValueBytes cs

abbrev NoBlankStart : Bytes → Type 0
NoBlankStart [] = Unit
NoBlankStart (c ∷ cs) = is_sp c ≡ false

pub record IsPair (k v : Bytes) : Type 0 where
  pub key_bytes : KeyBytes k
  pub key_start : NoBlankStart k
  pub key_end : trim_right k ≡ k
  pub value_bytes : ValueBytes v
  pub value_start : NoBlankStart v
  pub value_end : trim_right v ≡ v

abbrev pub AllPairs : List (Bytes × Bytes) → Type 0
AllPairs [] = Unit
AllPairs ((k, v) ∷ ps) = IsPair k v × AllPairs ps

-- "k1=v1; k2=v2"
abbrev pub cookie_text : List (Bytes × Bytes) → Bytes
cookie_text [] = []
cookie_text ((k, v) ∷ []) = k ++ b'=' ∷ v
cookie_text ((k, v) ∷ (p ∷ ps)) = k ++ b'=' ∷ (v ++ (codes "; " ++ cookie_text (p ∷ ps)))

module _ (m : Map) where
  abbrev at : State → Bytes → Bytes → CookieParser
  at s k v = record { parsed = m; state = s; key_ = k; value_ = v }

  key_read :
      (cs k rest : Bytes)
      → KeyBytes cs
      → parse (at State.key k []) (cs ++ rest) ≡ parse (at State.key (k ++ cs) []) rest
  unfolding parse consume
  key_read [] k rest h = ap (λ t. parse (at State.key t []) rest) (sym (append-nil k))
  key_read (c ∷ cs) k rest ((e1, e2), h) =
      let one : consume (at State.key k []) c ≡ at State.key (k ++ c ∷ []) [] = rw (e1, e2) in
      ap (λ q. parse q (cs ++ rest)) one
      ∙ key_read cs (k ++ c ∷ []) rest h
      ∙ ap (λ t. parse (at State.key t []) rest) (append_assoc k (c ∷ []) cs)

  whole_key_read :
      (k rest : Bytes)
      → KeyBytes k
      → NoBlankStart k
      → parse (at State.key_ws_before [] []) (k ++ b'=' ∷ rest)
        ≡ parse (at State.value_ws_before k []) rest
  unfolding parse consume is_sp
  whole_key_read [] rest h n = refl
  whole_key_read (c ∷ cs) rest ((e1, e2), h) n =
      let one : consume (at State.key_ws_before [] []) c ≡ at State.key (c ∷ []) [] =
        rw (n, e1, e2) in
      ap (λ q. parse q (cs ++ b'=' ∷ rest)) one ∙ key_read cs (c ∷ []) (b'=' ∷ rest) h

  value_read :
      (cs k v rest : Bytes)
      → ValueBytes cs
      → parse (at State.value k v) (cs ++ rest) ≡ parse (at State.value k (v ++ cs)) rest
  unfolding parse consume
  value_read [] k v rest h = ap (λ t. parse (at State.value k t) rest) (sym (append-nil v))
  value_read (c ∷ cs) k v rest (e, h) =
      let one : consume (at State.value k v) c ≡ at State.value k (v ++ c ∷ []) = rw e in
      ap (λ q. parse q (cs ++ rest)) one
      ∙ value_read cs k (v ++ c ∷ []) rest h
      ∙ ap (λ t. parse (at State.value k t) rest) (append_assoc v (c ∷ []) cs)

-- Where the value starts, a first byte that is no blank is kept.
value_start_read :
    (m : Map) (c : ℕ) (cs k rest : Bytes)
    → ValueBytes (c ∷ cs)
    → is_sp c ≡ false
    → parse (at m State.value_ws_before k []) ((c ∷ cs) ++ rest)
      ≡ parse (at m State.value k (c ∷ cs)) rest
unfolding parse
value_start_read m c cs k rest (e, h) n =
    let one : consume (at m State.value_ws_before k []) c ≡ at m State.value k (c ∷ []) =
      unfold consume in rw (n, e) in
    ap (λ q. parse q (cs ++ rest)) one ∙ value_read m cs k (c ∷ []) rest h

-- The state where the value `v` is read.
abbrev value_state : Bytes → State
value_state [] = State.value_ws_before
value_state (_ ∷ _) = State.value

whole_value_read :
    (m : Map) (v k rest : Bytes)
    → ValueBytes v
    → NoBlankStart v
    → parse (at m State.value_ws_before k []) (v ++ rest) ≡ parse (at m (value_state v) k v) rest
whole_value_read m [] k rest h n = refl
whole_value_read m (c ∷ cs) k rest h n = value_start_read m c cs k rest h n

-- A pair is stored at its semicolon, and where the text ends.
stored_at_semicolon :
    (m : Map) (v k rest : Bytes)
    → trim_right k ≡ k
    → trim_right v ≡ v
    → parse (at m (value_state v) k v) (codes "; " ++ rest)
      ≡ parse (at (assign k v m) State.key_ws_before [] []) rest
unfolding parse consume is_sp persist_pair
stored_at_semicolon m [] k rest ek ev = rw (ek, ev)
stored_at_semicolon m (c ∷ cs) k rest ek ev = rw (ek, ev)

stored_at_end :
    (m : Map) (v k : Bytes)
    → trim_right k ≡ k
    → trim_right v ≡ v
    → (consume_end (at m (value_state v) k v)).parsed ≡ assign k v m
unfolding consume_end persist_pair
stored_at_end m [] k ek ev = rw (ek, ev)
stored_at_end m (c ∷ cs) k ek ev = rw (ek, ev)

parse-cookie_text :
    (ps : List (Bytes × Bytes)) (m : Map)
    → AllPairs ps
    → (consume_end (parse (at m State.key_ws_before [] []) (cookie_text ps))).parsed
      ≡ assign_all m ps
unfolding assign_all parse consume_end
parse-cookie_text [] m h = refl
parse-cookie_text ((k, v) ∷ []) m (h, hs) =
    ap (λ q. (consume_end q).parsed)
      (whole_key_read m k v h.key_bytes h.key_start
        ∙ ap (parse (at m State.value_ws_before k [])) (sym (append-nil v))
        ∙ whole_value_read m v k [] h.value_bytes h.value_start)
    ∙ stored_at_end m v k h.key_end h.value_end
parse-cookie_text ((k, v) ∷ (p ∷ ps)) m (h, hs) =
    ap (λ q. (consume_end q).parsed)
      (whole_key_read m k (v ++ (codes "; " ++ cookie_text (p ∷ ps))) h.key_bytes h.key_start
        ∙ whole_value_read m v k (codes "; " ++ cookie_text (p ∷ ps)) h.value_bytes h.value_start
        ∙ stored_at_semicolon m v k (cookie_text (p ∷ ps)) h.key_end h.value_end)
    ∙ parse-cookie_text (p ∷ ps) (assign k v m) hs

-- The text "k1=v1; k2=v2" of cookies, in whose keys stand no ';' or '=', in whose values no ';', and
-- neither of which starts or ends with a blank, is parsed into the map that assigns the pairs in
-- their order. Keys and values may be empty, and a key may be repeated.
pub parse_cookie_string-cookie_text :
    (ps : List (Bytes × Bytes))
    → AllPairs ps
    → parse_cookie_string (cookie_text ps) ≡ assign_all [] ps
unfolding parse_cookie_string
parse_cookie_string-cookie_text ps h = parse-cookie_text ps [] h
