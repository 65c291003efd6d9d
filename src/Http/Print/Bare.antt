-- ===== src/Http/Print/Bare.antt =====
-- A request of a method, a path and a query string, printed by `RequestHeader::to_string` and read
-- by `RequestParser`.
use crablib.Base.{
  ℕ, suc, ◌+◌, ◌≤◌, true, false, [], ◌∷◌, ◌++◌, Bytes, codes, length, ok, ◌≡◌, refl, ap, sym, ◌∙◌,
  arith, ◌==◌, append_assoc, append-nil,
}
use crablib.Loop
use crablib.Chars.{is_sp, is_ctl}
use crablib.Http.Header.{RequestHeader}
use crablib.Http.RequestState.{State, RequestParser, initial, is_no_token}
use crablib.Http.Request.{consume, is_good, parse}
use crablib.IntegerCast.{integer_saver}
use crablib.Http.Print.{to_string}

abbrev pub bare : Bytes → Bytes → Bytes → RequestHeader
bare m p q = record initial.req { method = m; path = p; query_string = q }

-- The parser that has read `n` bytes of such a request.
abbrev pub at : State → Bytes → Bytes → Bytes → ℕ → RequestParser
at s m p q n = record initial { state = s; req = bare m p q; total_length = n }

abbrev pub IsMethod : Bytes → Type 0
IsMethod [] = Unit
IsMethod (c ∷ cs) = ((is_sp c ≡ false) × (is_no_token c ≡ false)) × IsMethod cs

-- A byte of a path that stands for itself.
abbrev IsPathByte : ℕ → Type 0
IsPathByte c =
    (is_sp c ≡ false)
    × (is_ctl c ≡ false)
    × ((c == b'#') ≡ false)
    × ((c == b'?') ≡ false)
    × ((c == b'%') ≡ false)

abbrev pub IsPath : Bytes → Type 0
IsPath [] = Unit
IsPath (c ∷ cs) = IsPathByte c × IsPath cs

abbrev pub IsQuery : Bytes → Type 0
IsQuery [] = Unit
IsQuery (c ∷ cs) = ((is_sp c ≡ false) × (is_ctl c ≡ false) × ((c == b'#') ≡ false)) × IsQuery cs

-- One byte, where `n` were read.
step :
    (p q : RequestParser) (c : ℕ) (rest : Bytes)
    → is_good p ≡ false
    → consume p c ≡ ok q
    → parse p (c ∷ rest) ≡ parse q rest
unfolding parse
step p q c rest g e = Loop.parse_step is_good consume p c rest g e

method_read :
    (cs m rest : Bytes) (n : ℕ)
    → IsMethod cs
    → n + length cs ≤ 8192
    → parse (at State.method m [] [] n) (cs ++ rest)
      ≡ parse (at State.method (m ++ cs) [] [] (n + length cs)) rest
unfolding consume
method_read [] m rest n h short =
    ap (λ t. parse (at State.method t [] [] n) rest) (sym (append-nil m))
    ∙ ap (λ (t : ℕ). parse (at State.method (m ++ []) [] [] t) rest) (omega arith)
method_read (c ∷ cs) m rest n ((e1, e2), h) short =
    step (at State.method m [] [] n) (at State.method (m ++ c ∷ []) [] [] (n + 1)) c (cs ++ rest)
      refl (ground arith)
    ∙ method_read cs (m ++ c ∷ []) rest (n + 1) h (omega arith)
    ∙ ap (λ t. parse (at State.method t [] [] (n + 1 + length cs)) rest)
        (append_assoc m (c ∷ []) cs)
    ∙ ap (λ (t : ℕ). parse (at State.method (m ++ c ∷ cs) [] [] t) rest) (omega arith)

path_read :
    (cs m p rest : Bytes) (n : ℕ)
    → IsPath cs
    → n + length cs ≤ 8192
    → parse (at State.uri m p [] n) (cs ++ rest)
      ≡ parse (at State.uri m (p ++ cs) [] (n + length cs)) rest
unfolding consume
path_read [] m p rest n h short =
    ap (λ t. parse (at State.uri m t [] n) rest) (sym (append-nil p))
    ∙ ap (λ (t : ℕ). parse (at State.uri m (p ++ []) [] t) rest) (omega arith)
path_read (c ∷ cs) m p rest n ((e1, e2, e3, e4, e5), h) short =
    step (at State.uri m p [] n) (at State.uri m (p ++ c ∷ []) [] (n + 1)) c (cs ++ rest) refl
      (ground arith)
    ∙ path_read cs m (p ++ c ∷ []) rest (n + 1) h (omega arith)
    ∙ ap (λ t. parse (at State.uri m t [] (n + 1 + length cs)) rest) (append_assoc p (c ∷ []) cs)
    ∙ ap (λ (t : ℕ). parse (at State.uri m (p ++ c ∷ cs) [] t) rest) (omega arith)

query_read :
    (cs m p q rest : Bytes) (n : ℕ)
    → IsQuery cs
    → n + length cs ≤ 8192
    → parse (at State.uri_query_string m p q n) (cs ++ rest)
      ≡ parse (at State.uri_query_string m p (q ++ cs) (n + length cs)) rest
unfolding consume
query_read [] m p q rest n h short =
    ap (λ t. parse (at State.uri_query_string m p t n) rest) (sym (append-nil q))
    ∙ ap (λ (t : ℕ). parse (at State.uri_query_string m p (q ++ []) t) rest) (omega arith)
query_read (c ∷ cs) m p q rest n ((e1, e2, e3), h) short =
    step (at State.uri_query_string m p q n) (at State.uri_query_string m p (q ++ c ∷ []) (n + 1)) c
      (cs ++ rest) refl (ground arith)
    ∙ query_read cs m p (q ++ c ∷ []) rest (n + 1) h (omega arith)
    ∙ ap (λ t. parse (at State.uri_query_string m p t (n + 1 + length cs)) rest)
        (append_assoc q (c ∷ []) cs)
    ∙ ap (λ (t : ℕ). parse (at State.uri_query_string m p (q ++ c ∷ cs) t) rest) (omega arith)

-- What is printed before the version.
abbrev query_text : Bytes → Bytes
query_text [] = []
query_text (c ∷ cs) = b'?' ∷ c ∷ cs

abbrev version_text : Bytes
version_text = codes "HTTP/1.1\r\n\r\n"

to_string-bare :
    (m p q : Bytes)
    → to_string (bare m p q) ≡ m ++ (b' ' ∷ (p ++ (query_text q ++ (b' ' ∷ version_text))))
unfolding to_string integer_saver
to_string-bare m p [] = refl
to_string-bare m p (c ∷ cs) = refl

module _ (m p q : Bytes) where
  version_read :
      (n : ℕ) (rest : Bytes)
      → n + 12 ≤ 8192
      → parse (at State.http_version_h m p q n) (version_text ++ rest)
        ≡ ok (at State.good m p q (n + 12), rest)
  unfolding consume is_sp parse
  version_read n rest short =
      step (at State.http_version_h m p q n) (at State.http_version_ht m p q (n + 1)) b'H'
        (codes "TTP/1.1\r\n\r\n" ++ rest) refl (ground arith)
      ∙ step (at State.http_version_ht m p q (n + 1)) (at State.http_version_htt m p q (n + 2)) b'T'
          (codes "TP/1.1\r\n\r\n" ++ rest) refl (ground arith)
      ∙ step (at State.http_version_htt m p q (n + 2)) (at State.http_version_http m p q (n + 3))
          b'T' (codes "P/1.1\r\n\r\n" ++ rest) refl (ground arith)
      ∙ step (at State.http_version_http m p q (n + 3)) (at State.http_version_slash m p q (n + 4))
          b'P' (codes "/1.1\r\n\r\n" ++ rest) refl (ground arith)
      ∙ step (at State.http_version_slash m p q (n + 4))
          (at State.http_version_major_start m p q (n + 5)) b'/' (codes "1.1\r\n\r\n" ++ rest) refl
          (ground arith)
      ∙ step (at State.http_version_major_start m p q (n + 5))
          (at State.http_version_major m p q (n + 6)) b'1' (codes ".1\r\n\r\n" ++ rest) refl
          (ground arith)
      ∙ step (at State.http_version_major m p q (n + 6))
          (at State.http_version_minor_start m p q (n + 7)) b'.' (codes "1\r\n\r\n" ++ rest) refl
          (ground arith)
      ∙ step (at State.http_version_minor_start m p q (n + 7))
          (at State.http_version_minor m p q (n + 8)) b'1' (codes "\r\n\r\n" ++ rest) refl
          (ground arith)
      ∙ step (at State.http_version_minor m p q (n + 8)) (at State.status_line_lf m p q (n + 9))
          b'\r' (codes "\n\r\n" ++ rest) refl (ground arith)
      ∙ step (at State.status_line_lf m p q (n + 9))
          (at State.first_header_line_start m p q (n + 10)) b'\n' (codes "\r\n" ++ rest) refl
          (ground arith)
      ∙ step (at State.first_header_line_start m p q (n + 10)) (at State.final_lf m p q (n + 11))
          b'\r' (codes "\n" ++ rest) refl (ground arith)
      ∙ step (at State.final_lf m p q (n + 11)) (at State.good m p q (n + 12)) b'\n' rest refl
          (ground arith)
      ∙ Loop.parse_good is_good consume (at State.good m p q (n + 12)) rest refl

query_part_read :
    (m p q rest : Bytes) (n : ℕ)
    → IsQuery q
    → n + length q + 2 ≤ 8192
    → (k : ℕ) × (k ≤ n + length q + 2)
      × (parse (at State.uri m p [] n) (query_text q ++ (b' ' ∷ rest))
          ≡ parse (at State.http_version_h m p q k) rest)
unfolding consume is_sp is_ctl
query_part_read m p [] rest n h short = (
  n + 1,
  omega arith,
  step (at State.uri m p [] n) (at State.http_version_h m p [] (n + 1)) b' ' rest refl
      (ground arith),
)
query_part_read m p (c ∷ cs) rest n h short =
    let k = n + 1 + suc (length cs) in
    (
      k + 1,
      omega arith,
      step (at State.uri m p [] n) (at State.uri_query_string m p [] (n + 1)) b'?'
            ((c ∷ cs) ++ (b' ' ∷ rest)) refl (ground arith)
          ∙ query_read (c ∷ cs) m p [] (b' ' ∷ rest) (n + 1) h (omega arith)
          ∙ step (at State.uri_query_string m p (c ∷ cs) k)
              (at State.http_version_h m p (c ∷ cs) (k + 1)) b' ' rest refl (ground arith),
    )

method_part_read :
    (a : ℕ) (ms rest : Bytes)
    → IsMethod (a ∷ ms)
    → length ms + 2 ≤ 8192
    → parse initial ((a ∷ ms) ++ (b' ' ∷ rest))
      ≡ parse (at State.uri_start (a ∷ ms) [] [] (length ms + 2)) rest
unfolding consume is_sp is_ctl
method_part_read a ms rest ((e1, e2), h) short =
    step initial (at State.method (a ∷ []) [] [] 1) a (ms ++ (b' ' ∷ rest)) refl (ground arith)
    ∙ method_read ms (a ∷ []) (b' ' ∷ rest) 1 h (omega arith)
    ∙ step (at State.method (a ∷ ms) [] [] (1 + length ms))
        (at State.uri_start (a ∷ ms) [] [] (length ms + 2)) b' ' rest refl (ground arith)

path_part_read :
    (m : Bytes) (c : ℕ) (cs rest : Bytes) (n : ℕ)
    → IsPath (c ∷ cs)
    → n + suc (length cs) ≤ 8192
    → parse (at State.uri_start m [] [] n) ((c ∷ cs) ++ rest)
      ≡ parse (at State.uri m (c ∷ cs) [] (n + 1 + length cs)) rest
unfolding consume
path_part_read m c cs rest n ((e1, e2, e3, e4, e5), h) short =
    step (at State.uri_start m [] [] n) (at State.uri m (c ∷ []) [] (n + 1)) c (cs ++ rest) refl
      (ground arith)
    ∙ path_read cs m (c ∷ []) rest (n + 1) h (omega arith)

-- A request with a method, a path, perhaps a query string, and no headers, as `RequestHeader` prints
-- it, is read back by a fresh `RequestParser`, which ends in its last state and leaves what follows.
-- The method has at least one byte, all of them of a token; the path at least one, with no blank,
-- control character, '#', '?' or '%'; the query string no blank, control character or '#'. They
-- have at most 8000 bytes together.
pub parse-to_string :
    (a : ℕ) (ms : Bytes) (c : ℕ) (cs q rest : Bytes)
    → IsMethod (a ∷ ms)
    → IsPath (c ∷ cs)
    → IsQuery q
    → length ms + length cs + length q + 2 ≤ 8000
    → (r : RequestParser) × (parse initial (to_string (bare (a ∷ ms) (c ∷ cs) q) ++ rest)
        ≡ ok (r, rest))
      × (r.req ≡ bare (a ∷ ms) (c ∷ cs) q)
      × (is_good r ≡ true)
parse-to_string a ms c cs q rest im ip iq short =
    let m = a ∷ ms in
    let p = c ∷ cs in
    let after_query = b' ' ∷ version_text in
    let n = length ms + 2 + 1 + length cs in
    let (k, few, queried) = query_part_read m p q (version_text ++ rest) n iq (omega arith) in
    (
      at State.good m p q (k + 12),
      rw
          (
            to_string-bare m p q,
            append_assoc m (b' ' ∷ (p ++ (query_text q ++ after_query))) rest,
            append_assoc p (query_text q ++ after_query) rest,
            append_assoc (query_text q) after_query rest,
          )
          (method_part_read a ms (p ++ (query_text q ++ (after_query ++ rest))) im (omega arith)
            ∙ path_part_read m c cs (query_text q ++ (after_query ++ rest)) (length ms + 2) ip
                (omega arith)
            ∙ queried
            ∙ version_read m p q k rest (omega arith)),
      refl,
      refl,
    )
