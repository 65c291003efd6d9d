-- ===== src/Http/Response/Bounds.antt =====
-- How many bytes `ResponseParser` takes: include/crab/http/response_parser.hxx.
use crablib.Base.{
  ℕ, suc, ◌+◌, ◌%◌, ◌^◌, ◌≤◌, ◌<◌, ◌&&◌, [], ◌++◌, Bytes, length, ltb, if◌then◌else◌, Result, ok,
  err, ◌>>=◌, ◌≡◌, refl, ◌∙◌, inl, inr, arith, tests, Bool-cases,
}
use crablib.Loop
use crablib.Chars.{trim_right}
use crablib.Http.Header.{Header, ResponseHeader, is_empty}
use crablib.Http.ResponseState.{State, ResponseParser, by_name, process_ready_header}
use crablib.Http.Response.{
  name_start, next_item, header_value_case, next_header, consume_state, consume, is_good, parse,
}

-- A result that has the counters of `p`.
abbrev Kept : ResponseParser → Result ResponseParser → Type 0
Kept p (ok q) = (q.total_length ≡ p.total_length) × (q.max_total_length ≡ p.max_total_length)
Kept p (err e) = Unit

process_ready_header-Kept : (p : ResponseParser) → Kept p (process_ready_header p)
unfolding process_ready_header
process_ready_header-Kept p =
    let h = record p.header { value = trim_right p.header.value } in by_item h (by_name p.req h)
  where
    by_item :
        (h : Header) (m : Result ResponseHeader)
        → Kept p (
            if p.header_cms_list && is_empty h.value
            then ok p
            else (m >>= λ r. ok (record p { req = r })))
    by_item h (ok r) = ground arith
    by_item h (err e) = ground arith

next_item-Kept : (p : ResponseParser) → Kept p (next_item p)
unfolding next_item
next_item-Kept p = by_result (process_ready_header p) (process_ready_header-Kept p)
  where
    by_result :
        (m : Result ResponseParser)
        → Kept p m
        → Kept p (
            m >>= λ q. ok (record q {
              header = record q.header { value = [] };
              state = State.space_before_header_value;
            }))
    by_result (ok q) k = k
    by_result (err e) k = k

name_start-Kept : (p : ResponseParser) (c : ℕ) → Kept p (name_start p c)
unfolding name_start
name_start-Kept p c = ground arith

next_header-Kept : (p : ResponseParser) (c : ℕ) → Kept p (next_header p c)
unfolding next_header
next_header-Kept p c = by_result (process_ready_header p) (process_ready_header-Kept p)
  where
    by_result :
        (m : Result ResponseParser)
        → Kept p m
        → Kept p (m >>= λ q. name_start (record q { header = record { name = []; value = [] } }) c)
    by_result (ok q) k =
        let r = record q { header = record { name = []; value = [] } } in
        then_kept (name_start r c) (name_start-Kept r c)
      where
        then_kept : (m : Result ResponseParser) → Kept q m → Kept p m
        then_kept (ok x) (a, b) = (a ∙ k.0, b ∙ k.1)
        then_kept (err e) u = u
    by_result (err e) k = k

header_value_case-Kept : (p : ResponseParser) (c : ℕ) → Kept p (header_value_case p c)
unfolding header_value_case
header_value_case-Kept p c = ground (arith, next_item-Kept p)

consume_state-Kept : (s : State) (p : ResponseParser) (c : ℕ) → Kept p (consume_state s p c)
unfolding consume_state
consume_state-Kept State.header_value p c = header_value_case-Kept p c
consume_state-Kept State.space_before_header_value p c = ground (arith, header_value_case-Kept p c)
consume_state-Kept State.header_line_start p c = ground (arith, next_header-Kept p c)
consume_state-Kept State.first_header_line_start p c =
    name_start-Kept (record p { req = record p.req { status_text = trim_right p.req.status_text } })
      c
consume_state-Kept _ p c = ground arith

abbrev Within : ℕ → ResponseParser → Type 0
Within m p = (p.total_length ≤ m) × (p.max_total_length ≡ m)

consume-counts :
    (m : ℕ) (p q : ResponseParser) (c : ℕ)
    → m + 1 < 2 ^ 64
    → Within m p
    → consume p c ≡ ok q
    → Within m q × (q.total_length ≡ suc p.total_length)
unfolding consume
consume-counts m p q c small (w, same) e =
    let n = (p.total_length + 1) % 2 ^ 64 in
    let p' = record p { total_length = n } in
    elim (Bool-cases (ltb p.max_total_length n)) [
      | inl over ↦ absurd (ground (arith, over))
      | inr room ↦
          let k =
            kept p' (consume_state p.state p' c) (consume_state-Kept p.state p' c) (rw room at e) in
          let l : n ≤ p.max_total_length = omega (arith, tests) in
          ((omega (arith, k.0), k.1 ∙ same), omega (arith, k.0))
    ]
  where
    kept : (p' : ResponseParser) (r : Result ResponseParser) → Kept p' r → r ≡ ok q → Kept p' (ok q)
    kept p' (ok x) k f = ground (arith, k)
    kept p' (err x) k f = absurd (ground arith)

-- However much input there is, a parser that has read no more than its limit allows either
-- throws, or has then taken at most `max_total_length` bytes in all; `total_length` counts
-- exactly the bytes taken, and the others are left. The limit must be below 2 ^ 64 - 1.
pub Response-total_length :
    (p q : ResponseParser) (input rest : Bytes)
    → p.max_total_length + 1 < 2 ^ 64
    → p.total_length ≤ p.max_total_length
    → parse p input ≡ ok (q, rest)
    → (q.total_length ≤ p.max_total_length)
      × (q.total_length + length rest ≡ p.total_length + length input)
unfolding parse
Response-total_length p q input rest small fits e =
    let m = p.max_total_length in
    let (w, counted) =
      Loop.parse_counts is_good consume (Within m) (λ x. x.total_length)
        (λ x y c h s. consume-counts m x y c small h s) input p (fits, refl) e in
    (w.0, counted)

-- A response may arrive in pieces: where the parser takes the first one whole, what it makes of the
-- second one, exceptions included, is what a single call makes of both.
Response-parse_pieces :
    (p q : ResponseParser) (xs ys : Bytes)
    → parse p xs ≡ ok (q, [])
    → parse p (xs ++ ys) ≡ parse q ys
unfolding parse
Response-parse_pieces p q xs ys e = Loop.parse_pieces is_good consume p q xs ys e
