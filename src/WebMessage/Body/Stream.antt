-- ===== src/WebMessage/Body/Stream.antt =====
-- What `WebMessageBodyParser` makes of its input, however the input is cut.
use crablib.Base.{
  ℕ, zero, suc, ◌+◌, ◌-◌, ◌^◌, ◌≤◌, ◌<◌, min, true, false, ◌==◌, if◌then◌else◌, Option, none, some,
  [], ◌∷◌, ◌++◌, Bytes, IsBytes, IsBytes-take, IsBytes-append, IsBytes-parts, length, length-take,
  length-drop, length-append, append_assoc, take_all, take-length_add, drop-length_add, take, drop,
  ◌≡◌, ◌⊎◌, inl, inr, append-nil, sym, Bool-cases, refl, arith, Result, ok, ap, ◌∙◌,
}
use native.Mathlib.Decide.{dec_le}
use crablib.Loop.Chunks
use crablib.WebMessage.Mask.Reference.{
  mask_spec, mask_spec_zero, mask_spec-append, mask_spec_twice, length-mask_spec, IsBytes-mask_spec,
  mask_data-mask_spec,
}
use crablib.WebMessage.Body.{
  State, BodyParser, start, append_masked, consume_in, consume, is_good, parse,
}

-- Fewer than 2 ^ 64 bytes are behind and before the parser together, and it is done when none are
-- left. Without a key the shift does not move.
pub record IsValid (p : BodyParser) : Type 0 where
  pub key_fits : p.masking_key < 2 ^ 32
  pub in_range : p.masking_shift + p.remaining_bytes < 2 ^ 64
  pub done : p.state ≡ (if p.remaining_bytes == 0 then State.good else State.body)

abbrev state_at : ℕ → State
state_at left = if left == 0 then State.good else State.body

abbrev shifted : ℕ → ℕ → ℕ → ℕ
shifted key shift n = if key == 0 then shift else shift + n

-- The parser after the bytes `input` of its payload.
abbrev pub after : BodyParser → Bytes → BodyParser
after p input = record p {
  body = p.body ++ mask_spec p.masking_key p.masking_shift input;
  remaining_bytes = p.remaining_bytes - length input;
  state = state_at (p.remaining_bytes - length input);
  masking_shift = shifted p.masking_key p.masking_shift (length input);
}

-- The bytes that belong to the body.
abbrev pub taken : BodyParser → Bytes → Bytes
taken p input = take (min (length input) p.remaining_bytes) input

abbrev pub untaken : BodyParser → Bytes → Bytes
untaken p input = drop (min (length input) p.remaining_bytes) input

module _ (gap : BodyParser → ℕ) where
  append_masked_lem :
      (p : BodyParser) (bytes : Bytes)
      → p.masking_key < 2 ^ 32
      → p.masking_shift + length bytes < 2 ^ 64
      → IsBytes bytes
      → append_masked gap p bytes ≡ record p {
        body = p.body ++ mask_spec p.masking_key p.masking_shift bytes;
        masking_shift =
            if p.masking_key == 0 then p.masking_shift else p.masking_shift + length bytes;
      }
  unfolding append_masked
  append_masked_lem p bytes k s h = ground (
    arith,
    mask_data-mask_spec (gap p) p.masking_shift bytes p.masking_key k h,
    mask_spec_zero p.masking_shift bytes,
  )

  consume_body :
      (p : BodyParser) (input : Bytes)
      → IsValid p
      → is_good p ≡ false
      → IsBytes input
      → consume gap p input ≡ (after p (taken p input), untaken p input)
  unfolding consume is_good
  consume_body p input v g h =
      let state_body : p.state ≡ State.body = ground arith in
      let taken_length = length-take (min (length input) p.remaining_bytes) input in
      ap (λ s. consume_in gap s p input) state_body
      ∙ ground (
        arith,
        append_masked_lem p (taken p input) v.key_fits (omega (arith, v.in_range, taken_length))
            (IsBytes-take _ input h),
        taken_length,
      )

after_nil : (p : BodyParser) → IsValid p → after p [] ≡ p
unfolding mask_spec
after_nil p v = ground (arith, append-nil p.body)

after-IsValid :
    (p : BodyParser) (input : Bytes)
    → IsValid p
    → length input ≤ p.remaining_bytes
    → IsValid (after p input)
after-IsValid p input v h = ground arith

none_taken :
    (p : BodyParser) (input : Bytes)
    → IsValid p
    → min (length input) p.remaining_bytes ≡ 0
    → ◌≡◌ {A = Option (Result (BodyParser × Bytes))}
        (some (ok (p, input)))
        (some (ok (after p (taken p input), untaken p input)))
none_taken p input v e = rw e (ap (λ q. some (ok (q, input))) (sym (after_nil p v)))

good-finished : (p : BodyParser) → IsValid p → is_good p ≡ true → p.remaining_bytes ≡ 0
unfolding is_good
good-finished p v g = ground arith

module _ (gap : BodyParser → ℕ) where
  parse_rest :
      (fuel : ℕ) (p : BodyParser) (rest : Bytes)
      → (is_good p ≡ true) ⊎ (rest ≡ [])
      → Chunks.parse is_good (λ q bytes. ok (consume gap q bytes)) (suc fuel) p rest
        ≡ some (ok (p, rest))
  parse_rest fuel p rest (inl g) = Chunks.parse_good is_good _ fuel p rest g
  parse_rest fuel p rest (inr e) = rw e (unfold Chunks.parse in refl)

  parse_body :
      (p : BodyParser) (c : ℕ) (cs : Bytes)
      → IsValid p
      → is_good p ≡ false
      → IsBytes (c ∷ cs)
      → parse gap p (c ∷ cs) ≡ some (ok (after p (taken p (c ∷ cs)), untaken p (c ∷ cs)))
  unfolding parse
  parse_body p c cs v g h =
      Chunks.parse_step is_good (λ q rest. ok (consume gap q rest)) (suc (length cs)) p c cs g
        (ap ok (consume_body gap p (c ∷ cs) v g h))
      ∙ parse_rest (length cs) (after p (taken p (c ∷ cs))) _
          (elim (dec_le (length (c ∷ cs)) p.remaining_bytes) [
            | yes small ↦
                inr (take_all (min (length (c ∷ cs)) p.remaining_bytes) (c ∷ cs) (omega arith)).1
            | no large ↦ inl (
                unfold is_good in
                ground (arith, length-take (min (length (c ∷ cs)) p.remaining_bytes) (c ∷ cs)))
          ])

  -- A valid parser takes the bytes of its payload and no more, stops when the payload is complete, and
  -- has then appended them to the body, unmasked by the key's bytes in turn. It never runs out of
  -- rounds. Whatever the alignment of the string's memory, the result is the same.
  pub parse_lem :
      (p : BodyParser) (input : Bytes)
      → IsValid p
      → IsBytes input
      → parse gap p input ≡ some (ok (after p (taken p input), untaken p input))
  parse_lem p [] v h =
      unfold parse in parse_rest 0 p [] (inr refl) ∙ none_taken p [] v (omega arith)
  parse_lem p (c ∷ cs) v h = elim (Bool-cases (is_good p)) [
    | inl g ↦
        let finished : p.remaining_bytes ≡ 0 = good-finished p v g in
        unfold parse in
        parse_rest (suc (length cs)) p (c ∷ cs) (inl g) ∙ none_taken p (c ∷ cs) v (omega arith)
    | inr g ↦ parse_body p c cs v g h
  ]

pub start-IsValid :
    (len : ℕ) (mk : Option ℕ)
    → len < 2 ^ 64
    → ((key : ℕ) → mk ≡ some key → key < 2 ^ 32)
    → IsValid (start len mk)
unfolding start
start-IsValid len none h k = ground arith
start-IsValid len (some key) h k = ground (arith, k key refl)

shifted_twice :
    (key shift m n : ℕ) → shifted key (shifted key shift m) n ≡ shifted key shift (m + n)
shifted_twice key shift m n = ground arith

mask_spec-shifted :
    (key shift m : ℕ) (ys : Bytes)
    → mask_spec key (shifted key shift m) ys ≡ mask_spec key (shift + m) ys
mask_spec-shifted zero shift m ys = mask_spec_zero shift ys ∙ sym (mask_spec_zero (shift + m) ys)
mask_spec-shifted (suc key) shift m ys =
    let moved : shifted (suc key) shift m ≡ shift + m = ground arith in
    ap (λ t. mask_spec (suc key) t ys) moved

after-after :
    (p : BodyParser) (xs ys : Bytes)
    → length xs ≤ p.remaining_bytes
    → after (after p xs) ys ≡ after p (xs ++ ys)
after-after p xs ys h =
    let left : p.remaining_bytes - length xs - length ys ≡ p.remaining_bytes - length (xs ++ ys) =
      omega (arith, length-append xs ys) in
    let shift =
      shifted_twice p.masking_key p.masking_shift (length xs) (length ys)
      ∙ ap (shifted p.masking_key p.masking_shift) (sym (length-append xs ys)) in
    let bytes =
      append_assoc p.body (mask_spec p.masking_key p.masking_shift xs) _
      ∙ ap (λ t. p.body ++ (mask_spec p.masking_key p.masking_shift xs ++ t))
          (mask_spec-shifted p.masking_key p.masking_shift (length xs) ys)
      ∙ ap (◌++◌ p.body) (sym (mask_spec-append p.masking_key xs ys p.masking_shift)) in
    λ i. record p {
      body = bytes i;
      remaining_bytes = left i;
      state = state_at (left i);
      masking_shift = shift i;
    }

untaken-nil : (p : BodyParser) (xs : Bytes) → untaken p xs ≡ [] → length xs ≤ p.remaining_bytes
untaken-nil p xs e = omega (arith, length-drop (min (length xs) p.remaining_bytes) xs, ap length e)

taken-append :
    (p : BodyParser) (xs ys : Bytes)
    → length xs ≤ p.remaining_bytes
    → (taken p (xs ++ ys) ≡ xs ++ taken (after p xs) ys)
      × (untaken p (xs ++ ys) ≡ untaken (after p xs) ys)
taken-append p xs ys h =
    let m = min (length ys) (p.remaining_bytes - length xs) in
    let e : min (length (xs ++ ys)) p.remaining_bytes ≡ length xs + m =
      omega (arith, length-append xs ys) in
    (rw e (take-length_add xs ys m), rw e (drop-length_add xs ys m))

-- Cutting the input of a valid parser in two changes nothing: what the parser makes of the second
-- piece, after it took the first one whole, is what it makes of both at once, wherever the string
-- lies in memory in the one case and in the other.
parse-append_masked :
    (gap gap' : BodyParser → ℕ) (p q : BodyParser) (xs ys : Bytes)
    → IsValid p
    → IsBytes (xs ++ ys)
    → parse gap p xs ≡ some (ok (q, []))
    → parse gap q ys ≡ parse gap' p (xs ++ ys)
parse-append_masked gap gap' p q xs ys v h e =
    let (hx, hy) = IsBytes-parts xs ys h in
    let first = sym (parse_lem gap p xs v hx) ∙ e in
    let room = untaken-nil p xs (ground (arith, first)) in
    let all = (take_all (min (length xs) p.remaining_bytes) xs (omega arith)).0 in
    let reached : q ≡ after p xs = ground (arith, first, all) in
    let (t, u) = taken-append p xs ys room in
    rw (reached, parse_lem gap (after p xs) ys (after-IsValid p xs v room) hy)
      (rw (after-after p xs (taken (after p xs) ys) room, ← t, ← u)
        (sym (parse_lem gap' p (xs ++ ys) v h)))

-- A payload of fewer than 2 ^ 64 bytes that was masked by its sender with a key below 2 ^ 32 comes out
-- as it was, the parser ends in its last state, and the bytes behind the payload are left.
pub parse-mask_spec :
    (gap : BodyParser → ℕ) (payload rest : Bytes) (key : ℕ)
    → length payload < 2 ^ 64
    → key < 2 ^ 32
    → IsBytes payload
    → IsBytes rest
    → (q : BodyParser) × (parse gap
          (start (length payload) (some key))
          (mask_spec key 0 payload ++ rest)
        ≡ some (ok (q, rest)))
      × (q.body ≡ payload)
      × (is_good q ≡ true)
unfolding start is_good
parse-mask_spec gap payload rest key len k h r =
    let p = start (length payload) (some key) in
    let v = start-IsValid (length payload) (some key) len (λ j e. ground arith) in
    let masked = mask_spec key 0 payload in
    let same = length-mask_spec key 0 payload in
    let cut : min (length (masked ++ rest)) (length payload) ≡ length masked + 0 =
      omega (arith, same, length-append masked rest) in
    let t = take-length_add masked rest 0 ∙ append-nil masked in
    let bytes = IsBytes-append masked rest (IsBytes-mask_spec key 0 payload h) r in
    (
      after p masked,
      parse_lem gap p (masked ++ rest) v bytes ∙ rw (cut, t, drop-length_add masked rest 0),
      mask_spec_twice key 0 payload,
      ground (arith, same),
    )
