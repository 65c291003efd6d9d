-- ===== src/WebMessage/Mask/Reference.antt =====
-- `mask_data` against the masking of RFC 6455, section 5.3.
use Prim.Native.Nat.{bit_and, bit_xor}
use crablib.Base.{
  sym, ℕ, zero, suc, ap, ap₂, Bool-cases, inl, inr, take-append-drop, ◌∙◌, ◌+◌, ◌-◌, ◌*◌, ◌/◌, ◌%◌,
  ◌^◌, ◌<◌, [], ◌∷◌, ◌++◌, Bytes, IsBytes, IsBytes-take, IsBytes-drop, leb, length, take, drop, ◌≡◌,
  refl, arith,
}
use crablib.WebMessage.Mask.{rol, mask_bytes, mask_words, mask_aligned, mask_data}
use crablib.Bits.{or_shifted, and_31, xor_low, xor_twice, xor_zero}

-- Byte `j` of the key, the highest first.
abbrev pub key_byte : ℕ → ℕ → ℕ
key_byte key j = key / 2 ^ (24 - 8 * j) % 256

-- The payload from position `i` on: byte `i` takes the key's byte `i % 4`.
unfoldable pub mask_spec : ℕ → ℕ → Bytes → Bytes
mask_spec key i [] = []
mask_spec key i (d ∷ ds) = bit_xor d (key_byte key (i % 4)) ∷ mask_spec key (i + 1) ds

-- The key turned left by `j` bytes.
abbrev turned : ℕ → ℕ → ℕ
turned key j = key % 2 ^ (32 - 8 * j) * 2 ^ (8 * j) + key / 2 ^ (32 - 8 * j)

rol_8 : (m : ℕ) → m < 2 ^ 32 → rol m 8 ≡ m % 2 ^ 24 * 2 ^ 8 + m / 2 ^ 24
unfolding rol
rol_8 m h = ground (arith, or_shifted 8 (m % 2 ^ 24) (m / 2 ^ 24) (omega arith))

module _ (key : ℕ) (fits : key < 2 ^ 32) where
  rol-turned : (j : ℕ) → j < 4 → rol (turned key j) 8 ≡ turned key ((j + 1) % 4)
  rol-turned zero h = omega (arith, rol_8 (turned key 0) (omega arith))
  rol-turned (suc zero) h = omega (arith, rol_8 (turned key 1) (omega arith))
  rol-turned (suc (suc zero)) h = omega (arith, rol_8 (turned key 2) (omega arith))
  rol-turned (suc (suc (suc zero))) h = omega (arith, rol_8 (turned key 3) (omega arith))
  rol-turned (suc (suc (suc (suc j)))) h = absurd (omega arith)

  rol_by : (j : ℕ) → j < 4 → (s : ℕ) → bit_and s 31 ≡ 8 * j → rol key s ≡ turned key j
  unfolding rol
  rol_by zero h s e = rw e (ground (arith, or_shifted 0 key 0 (omega arith)))
  rol_by (suc zero) h s e =
      rw e (ground (arith, or_shifted 8 (key % 2 ^ 24) (key / 2 ^ 24) (omega arith)))
  rol_by (suc (suc zero)) h s e =
      rw e (ground (arith, or_shifted 16 (key % 2 ^ 16) (key / 2 ^ 16) (omega arith)))
  rol_by (suc (suc (suc zero))) h s e =
      rw e (ground (arith, or_shifted 24 (key % 2 ^ 8) (key / 2 ^ 8) (omega arith)))
  rol_by (suc (suc (suc (suc j)))) h s e = absurd (omega arith)

  rol_start : (s : ℕ) → rol key (8 * s % 2 ^ 64) ≡ turned key (s % 4)
  rol_start s =
      rol_by (s % 4) (omega arith) (8 * s % 2 ^ 64) (omega (arith, and_31 (8 * s % 2 ^ 64)))

  -- The byte that `mask >> 8 * (3 - k)` gives.
  turned-key_byte : (j : ℕ) → j < 4 → rol (turned key j) 8 % 256 ≡ key_byte key j
  turned-key_byte zero h = omega (arith, rol-turned 0 h)
  turned-key_byte (suc zero) h = omega (arith, rol-turned 1 h)
  turned-key_byte (suc (suc zero)) h = omega (arith, rol-turned 2 h)
  turned-key_byte (suc (suc (suc zero))) h = omega (arith, rol-turned 3 h)
  turned-key_byte (suc (suc (suc (suc j)))) h = absurd (omega arith)

  turned-bytes :
      (j : ℕ)
      → j < 4
      → let m = turned key j in
        (m / 2 ^ 24 % 256 ≡ key_byte key j)
        × (m / 2 ^ 16 % 256 ≡ key_byte key ((j + 1) % 4))
        × (m / 2 ^ 8 % 256 ≡ key_byte key ((j + 2) % 4))
        × (m % 256 ≡ key_byte key ((j + 3) % 4))
  turned-bytes zero h = omega arith
  turned-bytes (suc zero) h = omega arith
  turned-bytes (suc (suc zero)) h = omega arith
  turned-bytes (suc (suc (suc zero))) h = omega arith
  turned-bytes (suc (suc (suc (suc j)))) h = absurd (omega arith)

  turn_next : (i : ℕ) → rol (turned key (i % 4)) 8 ≡ turned key ((i + 1) % 4)
  turn_next i = rol-turned (i % 4) (omega arith) ∙ ap (turned key) (omega arith)

  mask_byte_lem :
      (d i : ℕ)
      → d < 256
      → bit_xor d (turned key ((i + 1) % 4)) % 256 ≡ bit_xor d (key_byte key (i % 4))
  mask_byte_lem d i h =
      ap (λ m. bit_xor d m % 256) (sym (turn_next i))
      ∙ xor_low d (rol (turned key (i % 4)) 8)
      ∙ ap₂ bit_xor (omega arith) (turned-key_byte (i % 4) (omega arith))

  mask_bytes-mask_spec :
      (ds : Bytes) (i : ℕ)
      → IsBytes ds
      → mask_bytes (turned key (i % 4)) ds ≡ (turned key ((i + length ds) % 4), mask_spec key i ds)
  unfolding mask_bytes mask_spec
  mask_bytes-mask_spec [] i h = ap (λ (t : ℕ). (turned key (t % 4), [])) (omega arith)
  mask_bytes-mask_spec (d ∷ ds) i (hd, h) =
      rw (turn_next i, mask_bytes-mask_spec ds (i + 1) h)
        (ap₂ (λ (t b : ℕ). (turned key (t % 4), b ∷ mask_spec key (i + 1) ds)) (omega arith)
          (mask_byte_lem d i hd))

  -- The four bytes of the mask from position `i` on.
  next_bytes :
      (i : ℕ)
      → let m = turned key (i % 4) in
        (m / 2 ^ 24 % 256 ≡ key_byte key (i % 4))
        × (m / 2 ^ 16 % 256 ≡ key_byte key ((i + 1) % 4))
        × (m / 2 ^ 8 % 256 ≡ key_byte key ((i + 2) % 4))
        × (m % 256 ≡ key_byte key ((i + 3) % 4))
  next_bytes i =
      let (b0, b1, b2, b3) = turned-bytes (i % 4) (omega arith) in
      (
        b0,
        b1 ∙ ap (key_byte key) (omega arith),
        b2 ∙ ap (key_byte key) (omega arith),
        b3 ∙ ap (key_byte key) (omega arith),
      )

  -- The word loop and the bytes behind it.
  abbrev words_and_rest : ℕ → Bytes → Bytes
  words_and_rest m ds = let (middle, tail) = mask_words m ds in middle ++ (mask_bytes m tail).1

  short_case :
      (ds : Bytes) (i : ℕ)
      → IsBytes ds
      → (mask_bytes (turned key (i % 4)) ds).1 ≡ mask_spec key i ds
  short_case ds i h = ap (λ r. r.1) (mask_bytes-mask_spec ds i h)

  words-mask_spec :
      (ds : Bytes) (i : ℕ)
      → IsBytes ds
      → words_and_rest (turned key (i % 4)) ds ≡ mask_spec key i ds
  unfolding mask_words mask_spec
  words-mask_spec (a ∷ b ∷ c ∷ d ∷ e ∷ f ∷ g ∷ x ∷ rest) i h =
      let (b0, b1, b2, b3) = next_bytes i in
      let at = λ (s t : ℕ) (same : s ≡ t). ap (key_byte key) same in
      let tail = words-mask_spec rest (i + 1 + 1 + 1 + 1 + 1 + 1 + 1 + 1) h.1.1.1.1.1.1.1.1 in
      ap₂ ◌∷◌ (ap (bit_xor a) b0) (
        ap₂ ◌∷◌ (ap (bit_xor b) b1) (
          ap₂ ◌∷◌ (ap (bit_xor c) (b2 ∙ at ((i + 2) % 4) ((i + 1 + 1) % 4) (omega arith))) (
            ap₂ ◌∷◌ (ap (bit_xor d) (b3 ∙ at ((i + 3) % 4) ((i + 1 + 1 + 1) % 4) (omega arith))) (
              ap₂ ◌∷◌ (ap (bit_xor e) (b0 ∙ at (i % 4) ((i + 1 + 1 + 1 + 1) % 4) (omega arith))) (
                ap₂ ◌∷◌
                  (ap (bit_xor f)
                    (b1 ∙ at ((i + 1) % 4) ((i + 1 + 1 + 1 + 1 + 1) % 4) (omega arith)))
                  (ap₂ ◌∷◌
                    (ap (bit_xor g)
                      (b2 ∙ at ((i + 2) % 4) ((i + 1 + 1 + 1 + 1 + 1 + 1) % 4) (omega arith)))
                    (ap₂ ◌∷◌
                      (ap (bit_xor x)
                        (b3 ∙ at ((i + 3) % 4) ((i + 1 + 1 + 1 + 1 + 1 + 1 + 1) % 4) (omega arith)))
                      (ap (λ (t : ℕ). words_and_rest (turned key t) rest) (omega arith)
                        ∙ tail))))))))
  words-mask_spec short i h = short_case short i h

pub mask_spec-append :
    (key : ℕ) (xs ys : Bytes) (i : ℕ)
    → mask_spec key i (xs ++ ys) ≡ mask_spec key i xs ++ mask_spec key (i + length xs) ys
unfolding mask_spec
mask_spec-append key [] ys i = ap (λ (t : ℕ). mask_spec key t ys) (omega arith)
mask_spec-append key (x ∷ xs) ys i = ap (◌∷◌ (bit_xor x (key_byte key (i % 4)))) (
    mask_spec-append key xs ys (i + 1)
    ∙ ap (λ (t : ℕ). mask_spec key (i + 1) xs ++ mask_spec key t ys) (omega arith))

mask_aligned-mask_spec :
    (key gap i : ℕ) (ds : Bytes)
    → key < 2 ^ 32
    → IsBytes ds
    → mask_aligned (turned key (i % 4)) gap ds ≡ mask_spec key i ds
unfolding mask_aligned
mask_aligned-mask_spec key gap i ds fits h =
    rw (mask_bytes-mask_spec key fits (take gap ds) i (IsBytes-take gap ds h)) (
      ap (◌++◌ (mask_spec key i (take gap ds)))
        (words-mask_spec key fits (drop gap ds) (i + length (take gap ds)) (IsBytes-drop gap ds h))
      ∙ sym (mask_spec-append key (take gap ds) (drop gap ds) i)
      ∙ ap (mask_spec key i) (take-append-drop gap ds))

-- Wherever the data lies in memory, masking by words with a key below 2 ^ 32 gives what masking
-- each byte by its own byte of the key gives: byte `i` takes the key's byte `(masking_shift + i) % 4`.
pub mask_data-mask_spec :
    (gap masking_shift : ℕ) (ds : Bytes) (key : ℕ)
    → key < 2 ^ 32
    → IsBytes ds
    → mask_data gap masking_shift ds key ≡ mask_spec key masking_shift ds
unfolding mask_data
mask_data-mask_spec gap shift ds key fits h =
    rw (rol_start key fits shift) (elim (Bool-cases (leb (gap + 8) (length ds))) [
      | inl room ↦ rw room (mask_aligned-mask_spec key gap shift ds fits h)
      | inr no_room ↦ rw no_room (short_case key fits ds shift h)
    ])

pub mask_spec_twice : (key i : ℕ) (ds : Bytes) → mask_spec key i (mask_spec key i ds) ≡ ds
unfolding mask_spec
mask_spec_twice key i [] = refl
mask_spec_twice key i (d ∷ ds) =
    ap₂ ◌∷◌ (xor_twice d (key_byte key (i % 4))) (mask_spec_twice key (i + 1) ds)

xor-lt : (a b : ℕ) → a < 256 → b < 256 → bit_xor a b < 256
xor-lt a b p q =
    let same : bit_xor a b % 256 ≡ bit_xor a b =
      xor_low a b ∙ ap₂ bit_xor (omega arith) (omega arith) in
    omega (arith, same)

pub IsBytes-mask_spec : (key i : ℕ) (ds : Bytes) → IsBytes ds → IsBytes (mask_spec key i ds)
unfolding mask_spec
IsBytes-mask_spec key i [] h = tt
IsBytes-mask_spec key i (d ∷ ds) (x, h) =
    (xor-lt d (key_byte key (i % 4)) x (omega arith), IsBytes-mask_spec key (i + 1) ds h)

-- Masking twice with one key below 2 ^ 32 and one shift gives the data back, also where the two calls see the
-- data at addresses of different alignment.
mask_data_twice :
    (gap gap' masking_shift : ℕ) (ds : Bytes) (key : ℕ)
    → key < 2 ^ 32
    → IsBytes ds
    → mask_data gap' masking_shift (mask_data gap masking_shift ds key) key ≡ ds
mask_data_twice gap gap' shift ds key fits h = rw (mask_data-mask_spec gap shift ds key fits h) (
    mask_data-mask_spec gap' shift (mask_spec key shift ds) key fits
      (IsBytes-mask_spec key shift ds h)
    ∙ mask_spec_twice key shift ds)

pub length-mask_spec : (key i : ℕ) (ds : Bytes) → length (mask_spec key i ds) ≡ length ds
unfolding mask_spec
length-mask_spec key i [] = refl
length-mask_spec key i (d ∷ ds) = ap suc (length-mask_spec key (i + 1) ds)

-- A key of four zero bytes masks nothing.
pub mask_spec_zero : (i : ℕ) (ds : Bytes) → mask_spec 0 i ds ≡ ds
unfolding mask_spec
mask_spec_zero i [] = refl
mask_spec_zero i (d ∷ ds) =
    let blank : key_byte 0 (i % 4) ≡ 0 = omega arith in
    ap₂ ◌∷◌ (ap (bit_xor d) blank ∙ xor_zero d) (mask_spec_zero (i + 1) ds)
