-- ===== src/Http/Chunked/Pieces.antt =====
-- How `BodyParser` reads the size line, the bytes and the line end of a chunk, and the last chunk.
use crablib.Base.{
  ℕ, zero, suc, ◌+◌, ◌*◌, ◌/◌, ◌%◌, ◌^◌, ◌≤◌, ◌<◌, Bool, true, false, not, ◌&&◌, ◌==◌, [], ◌∷◌,
  ◌++◌, Bytes, codes, length, ok, ◌≡◌, refl, ap, ◌∙◌, inl, inr, arith, Bool-cases, append_assoc,
  holds_below, below_sound,
}
use native.Mathlib.Nat.{pow-suc}
use crablib.Chars.Hex.{hex_digit, from_hex_digit-hex_digit}
use crablib.Chars.{is_sp}
use crablib.Loop
use crablib.Http.Body.{State, BodyParser, is_good, consume_byte}
use crablib.Http.Body.Bytewise.{step}
use crablib.Http.Body.Bytewise.Equivalence.{bytewise}
use crablib.Http.Chunked.{print_hex, last_chunk}

-- The parser that waits for the rest of a chunked body, in state `s`.
abbrev pub at : State → Bytes → ℕ → ℕ → BodyParser
at s b r h = record {
  state = s;
  body = b;
  max_chunk_header_total_length = 256;
  max_trailers_total_length = 4096;
  remaining_bytes = r;
  chunk_header_total_length = h;
  trailers_total_length = 0;
}

hex_digit_table : ℕ → Bool
hex_digit_table n =
    let c = hex_digit n in not (is_sp c) && not (c == b';') && not (c == b'\r') && not (c == b'\n')

hex_digit_all : holds_below 16 hex_digit_table ≡ true
unfolding hex_digit hex_digit_table holds_below is_sp
hex_digit_all = refl

hex_digit_not :
    (n : ℕ)
    → n < 16
    → (is_sp (hex_digit n) ≡ false)
      × ((hex_digit n == b';') ≡ false)
      × ((hex_digit n == b'\r') ≡ false)
      × ((hex_digit n == b'\n') ≡ false)
unfolding hex_digit_table
hex_digit_not n h = ground (arith, below_sound 16 hex_digit_table n hex_digit_all h)

module _ (b : Bytes) where
  first_digit_read :
      (d h : ℕ) (cs : Bytes)
      → d < 16
      → h ≤ 256
      → bytewise (at State.chunk_size_start b 0 h) (hex_digit d ∷ cs)
        ≡ bytewise (at State.chunk_size b d (h + 1)) cs
  unfolding step consume_byte
  first_digit_read d h cs small short =
      Loop.parse_step is_good step (at State.chunk_size_start b 0 h) (hex_digit d) cs refl
        (ground (arith, hex_digit_not d small, from_hex_digit-hex_digit d small))

  next_digit_read :
      (r d h : ℕ) (cs : Bytes)
      → d < 16
      → h ≤ 256
      → r * 16 + d < 2 ^ 64
      → bytewise (at State.chunk_size b r h) (hex_digit d ∷ cs)
        ≡ bytewise (at State.chunk_size b (r * 16 + d) (h + 1)) cs
  unfolding step consume_byte
  next_digit_read r d h cs small short fits =
      Loop.parse_step is_good step (at State.chunk_size b r h) (hex_digit d) cs refl
        (ground (arith, hex_digit_not d small, from_hex_digit-hex_digit d small))

  -- The digits of a number, and how many bytes of chunk header they are.
  unfoldable pub SizeRead : ℕ → ℕ → ℕ → Bytes → Type 0
  SizeRead left n h cs =
      (k : ℕ) × (k ≤ suc left)
      × (bytewise (at State.chunk_size_start b 0 h) (print_hex (suc left) n ++ cs)
          ≡ bytewise (at State.chunk_size b n (h + k)) cs)

  one_digit_read :
      (left n h : ℕ) (cs : Bytes) → (n / 16 == 0) ≡ true → h ≤ 256 → SizeRead left n h cs
  unfolding print_hex SizeRead
  one_digit_read left n h cs last short =
      let same : n % 16 ≡ n = ground arith in
      (
        1,
        omega arith,
        rw (last, first_digit_read (n % 16) h cs (omega arith) short)
            (ap (λ (t : ℕ). bytewise (at State.chunk_size b t (h + 1)) cs) same),
      )

  pub size_read :
      (left n h : ℕ) (cs : Bytes)
      → n < 16 ^ suc left
      → n < 2 ^ 64
      → h + left ≤ 255
      → SizeRead left n h cs
  unfolding SizeRead print_hex
  size_read zero n h cs small fits short = one_digit_read zero n h cs (ground arith) (omega arith)
  size_read (suc left) n h cs small fits short = elim (Bool-cases (n / 16 == 0)) [
    | inl last ↦ one_digit_read (suc left) n h cs last (omega arith)
    | inr more ↦ longer more (
        size_read left (n / 16) h (hex_digit (n % 16) ∷ cs) (omega (arith, pow-suc 16 (suc left)))
          (omega arith) (omega arith))
  ]
    where
      longer :
          (n / 16 == 0) ≡ false
          → SizeRead left (n / 16) h (hex_digit (n % 16) ∷ cs)
          → SizeRead (suc left) n h cs
      longer more (k, few, read) =
          let whole : n / 16 * 16 + n % 16 ≡ n = omega arith in
          let last =
            next_digit_read (n / 16) (n % 16) (h + k) cs (omega arith) (omega arith)
              (omega arith) in
          (
            k + 1,
            omega arith,
            rw (more, append_assoc (print_hex (suc left) (n / 16)) (hex_digit (n % 16) ∷ []) cs)
                  read
                ∙ last
                ∙ ap (λ (t : ℕ). bytewise (at State.chunk_size b t (h + k + 1)) cs) whole
                ∙ ap (λ (t : ℕ). bytewise (at State.chunk_size b n t) cs) (omega arith),
          )

  -- One byte of the line ends behind a size and behind a chunk.
  pub size_line_read :
      (r h : ℕ) (cs : Bytes)
      → h ≤ 250
      → bytewise (at State.chunk_size b (suc r) h) (codes "\r\n" ++ cs)
        ≡ bytewise (at State.chunk_body b (suc r) (h + 2)) cs
  unfolding step consume_byte is_sp
  size_line_read r h cs short =
      Loop.parse_step is_good step (at State.chunk_size b (suc r) h) b'\r' (b'\n' ∷ cs) refl
        (ground arith)
      ∙ Loop.parse_step is_good step (at State.chunk_size_lf b (suc r) (h + 1)) b'\n' cs refl
          (ground arith)

  pub chunk_line_read :
      (cs : Bytes)
      → bytewise (at State.chunk_body_cr b 0 0) (codes "\r\n" ++ cs)
        ≡ bytewise (at State.chunk_size_start b 0 2) cs
  unfolding step consume_byte is_sp
  chunk_line_read cs =
      Loop.parse_step is_good step (at State.chunk_body_cr b 0 0) b'\r' (b'\n' ∷ cs) refl refl
      ∙ Loop.parse_step is_good step (at State.chunk_body_lf b 0 1) b'\n' cs refl refl

  -- The parser that has read the whole body.
  abbrev pub finished : ℕ → BodyParser
  finished h = record (at State.good b 0 h) { trailers_total_length = 2 }

  pub last_read :
      (h : ℕ) (rest : Bytes)
      → h ≤ 200
      → bytewise (at State.chunk_size_start b 0 h) (last_chunk ++ rest)
        ≡ ok (finished (h + 3), rest)
  unfolding step consume_byte is_sp hex_digit
  last_read h rest short =
      first_digit_read 0 h (codes "\r\n\r\n" ++ rest) (omega arith) (omega arith)
      ∙ Loop.parse_step is_good step (at State.chunk_size b 0 (h + 1)) b'\r'
          (codes "\n\r\n" ++ rest) refl (ground arith)
      ∙ Loop.parse_step is_good step (at State.chunk_size_lf b 0 (h + 2)) b'\n'
          (codes "\r\n" ++ rest) refl (ground arith)
      ∙ Loop.parse_step is_good step (at State.trailer_line_start b 0 (h + 3)) b'\r'
          (codes "\n" ++ rest) refl (ground arith)
      ∙ Loop.parse_step is_good step
          (record (at State.final_lf b 0 (h + 3)) { trailers_total_length = 1 }) b'\n' rest refl
          (ground arith)
      ∙ Loop.parse_good is_good step (finished (h + 3)) rest refl

-- The bytes of a chunk.
pub data_read :
    (x : ℕ) (xs b : Bytes) (h : ℕ) (cs : Bytes)
    → bytewise (at State.chunk_body b (suc (length xs)) h) ((x ∷ xs) ++ cs)
      ≡ bytewise (at State.chunk_body_cr (b ++ x ∷ xs) 0 0) cs
unfolding step
data_read x [] b h cs = Loop.parse_step is_good step (at State.chunk_body b 1 h) x cs refl refl
data_read x (y ∷ ys) b h cs =
    Loop.parse_step is_good step (at State.chunk_body b (suc (suc (length ys))) h) x
      ((y ∷ ys) ++ cs) refl (ground arith)
    ∙ data_read y ys (b ++ x ∷ []) h cs
    ∙ ap (λ t. bytewise (at State.chunk_body_cr t 0 0) cs) (append_assoc b (x ∷ []) (y ∷ ys))
