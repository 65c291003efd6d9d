-- ===== src/Base/Lists.antt =====
-- Lists measured and indexed by native numbers, under the library's names.
use Prim.Native.Nat.{ℕ, zero, suc, ◌+◌, ◌-◌, ◌≤◌, ◌<◌, min}
use Prim.Native.Char.{code}
use Prim.Native.String.{String}
use mathlib.Core.Path.{◌≡◌, refl, sym, ap, ◌∙◌}
use mathlib.Core.Logic.{◌↔◌}
use mathlib.Core.Bool.{Bool, true, false, ◌&&◌}
use mathlib.Core.List.{List, [], ◌∷◌, ◌++◌}
use mathlib.Core.Option.{Option, none, some}
use native.Mathlib.Omega.{arith}
use crablib.Base.Tests.{◌==◌}

abbrev pub Bytes : Type 0
Bytes = List ℕ

-- The code points of a text: its bytes, if it is ASCII.
abbrev pub codes : String → Bytes
codes String.[] = []
codes (String.◌∷◌ c s) = code c ∷ codes s

module _ {ℓ} {A : Type ℓ} where
  abbrev pub length : List A → ℕ
  length [] = 0
  length (x ∷ xs) = suc (length xs)

  abbrev pub get_elem? : List A → ℕ → Option A
  get_elem? [] i = none
  get_elem? (x ∷ xs) zero = some x
  get_elem? (x ∷ xs) (suc i) = get_elem? xs i

  abbrev pub get_or : List A → ℕ → A → A
  get_or [] i d = d
  get_or (x ∷ xs) zero d = x
  get_or (x ∷ xs) (suc i) d = get_or xs i d

  -- A write out of bounds changes nothing.
  abbrev pub set : List A → ℕ → A → List A
  set [] i v = []
  set (x ∷ xs) zero v = v ∷ xs
  set (x ∷ xs) (suc i) v = x ∷ set xs i v

  abbrev pub take : ℕ → List A → List A
  take zero xs = []
  take (suc n) [] = []
  take (suc n) (x ∷ xs) = x ∷ take n xs

  abbrev pub drop : ℕ → List A → List A
  drop zero xs = xs
  drop (suc n) [] = []
  drop (suc n) (x ∷ xs) = drop n xs

  pub length-append : (xs ys : List A) → length (xs ++ ys) ≡ length xs + length ys
  length-append [] ys = omega arith
  length-append (x ∷ xs) ys = omega (arith, length-append xs ys)

  pub length_zero : (xs : List A) → length xs ≡ 0 → xs ≡ []
  length_zero [] h = refl
  length_zero (x ∷ xs) h = absurd (omega (arith, h))

  pub take-append-drop : (n : ℕ) (xs : List A) → take n xs ++ drop n xs ≡ xs
  take-append-drop zero xs = refl
  take-append-drop (suc n) [] = refl
  take-append-drop (suc n) (x ∷ xs) = ap (◌∷◌ x) (take-append-drop n xs)

  pub length-take : (n : ℕ) (xs : List A) → length (take n xs) ≡ min n (length xs)
  length-take zero xs = omega arith
  length-take (suc n) [] = omega arith
  length-take (suc n) (x ∷ xs) = omega (arith, length-take n xs)

  pub length-drop : (n : ℕ) (xs : List A) → length (drop n xs) ≡ length xs - n
  length-drop zero xs = omega arith
  length-drop (suc n) [] = omega arith
  length-drop (suc n) (x ∷ xs) = omega (arith, length-drop n xs)

  pub take-length_add : (xs ys : List A) (n : ℕ) → take (length xs + n) (xs ++ ys) ≡ xs ++ take n ys
  take-length_add [] ys n = ap (λ (t : ℕ). take t ys) (omega arith)
  take-length_add (x ∷ xs) ys n =
      ap (λ (t : ℕ). take t (x ∷ (xs ++ ys))) {y = suc (length xs + n)} (omega arith)
      ∙ ap (◌∷◌ x) (take-length_add xs ys n)

  pub drop-length_add : (xs ys : List A) (n : ℕ) → drop (length xs + n) (xs ++ ys) ≡ drop n ys
  drop-length_add [] ys n = ap (λ (t : ℕ). drop t ys) (omega arith)
  drop-length_add (x ∷ xs) ys n =
      ap (λ (t : ℕ). drop t (x ∷ (xs ++ ys))) {y = suc (length xs + n)} (omega arith)
      ∙ drop-length_add xs ys n

  pub take_all : (n : ℕ) (xs : List A) → length xs ≤ n → (take n xs ≡ xs) × (drop n xs ≡ [])
  take_all zero [] h = (refl, refl)
  take_all (suc n) [] h = (refl, refl)
  take_all zero (x ∷ xs) h = absurd (omega arith)
  take_all (suc n) (x ∷ xs) h = let (t, d) = take_all n xs (omega arith) in (ap (◌∷◌ x) t, d)

  pub take-length : (xs ys : List A) → take (length xs) (xs ++ ys) ≡ xs
  take-length [] ys = refl
  take-length (x ∷ xs) ys = ap (◌∷◌ x) (take-length xs ys)

  pub drop-length : (xs ys : List A) → drop (length xs) (xs ++ ys) ≡ ys
  drop-length [] ys = refl
  drop-length (x ∷ xs) ys = drop-length xs ys

  drop_nil : (n : ℕ) → drop n [] ≡ []
  drop_nil zero = refl
  drop_nil (suc n) = refl

  take_nil : (n : ℕ) → take n [] ≡ []
  take_nil zero = refl
  take_nil (suc n) = refl

  pub drop-drop : (n m : ℕ) (xs : List A) → drop n (drop m xs) ≡ drop (m + n) xs
  drop-drop n zero xs = ap (λ (t : ℕ). drop t xs) (omega arith)
  drop-drop n (suc m) [] = drop_nil n ∙ sym (drop_nil (suc m + n))
  drop-drop n (suc m) (x ∷ xs) =
      drop-drop n m xs ∙ ap (λ (t : ℕ). drop t (x ∷ xs)) {x = suc (m + n)} (omega arith)

  pub take_two : (n m : ℕ) (xs : List A) → take n xs ++ take m (drop n xs) ≡ take (n + m) xs
  take_two zero m xs = ap (λ (t : ℕ). take t xs) (omega arith)
  take_two (suc n) m [] = take_nil m ∙ sym (take_nil (suc n + m))
  take_two (suc n) m (x ∷ xs) =
      ap (◌∷◌ x) (take_two n m xs) ∙ ap (λ (t : ℕ). take t (x ∷ xs)) {x = suc (n + m)} (omega arith)

  pub take-take : (n m : ℕ) (xs : List A) → n ≤ m → take n (take m xs) ≡ take n xs
  take-take zero m xs h = refl
  take-take (suc n) zero xs h = absurd (omega arith)
  take-take (suc n) (suc m) [] h = refl
  take-take (suc n) (suc m) (x ∷ xs) h = ap (◌∷◌ x) (take-take n m xs (omega arith))

  pub drop-take : (n m : ℕ) (xs : List A) → n ≤ m → drop n (take m xs) ≡ take (m - n) (drop n xs)
  drop-take zero m xs h = ap (λ (t : ℕ). take t xs) (omega arith)
  drop-take (suc n) zero xs h = absurd (omega arith)
  drop-take (suc n) (suc m) [] h = sym (take_nil (suc m - suc n))
  drop-take (suc n) (suc m) (x ∷ xs) h =
      drop-take n m xs (omega arith) ∙ ap (λ (t : ℕ). take t (drop n xs)) (omega arith)

  pub take-append : (n : ℕ) (xs ys : List A) → n ≤ length xs → take n (xs ++ ys) ≡ take n xs
  take-append zero xs ys h = refl
  take-append (suc n) [] ys h = absurd (omega arith)
  take-append (suc n) (x ∷ xs) ys h = ap (◌∷◌ x) (take-append n xs ys (omega arith))

  pub drop-append : (n : ℕ) (xs ys : List A) → n ≤ length xs → drop n (xs ++ ys) ≡ drop n xs ++ ys
  drop-append zero xs ys h = refl
  drop-append (suc n) [] ys h = absurd (omega arith)
  drop-append (suc n) (x ∷ xs) ys h = drop-append n xs ys (omega arith)

abbrev pub equal : Bytes → Bytes → Bool
equal [] [] = true
equal (x ∷ xs) (y ∷ ys) = x == y && equal xs ys
equal _ _ = false

pub equal_iff : (a b : Bytes) → (equal a b ≡ true) ↔ (a ≡ b)
equal_iff (x ∷ a) (y ∷ b) = ground (arith, equal_iff a b)
equal_iff _ _ = ground arith

-- Values of bytes.
abbrev pub IsBytes : Bytes → Type 0
IsBytes [] = Unit
IsBytes (d ∷ ds) = (d < 256) × IsBytes ds

pub IsBytes-take : (n : ℕ) (ds : Bytes) → IsBytes ds → IsBytes (take n ds)
IsBytes-take zero ds h = tt
IsBytes-take (suc n) [] h = tt
IsBytes-take (suc n) (d ∷ ds) (x, h) = (x, IsBytes-take n ds h)

pub IsBytes-drop : (n : ℕ) (ds : Bytes) → IsBytes ds → IsBytes (drop n ds)
IsBytes-drop zero ds h = h
IsBytes-drop (suc n) [] h = tt
IsBytes-drop (suc n) (d ∷ ds) (x, h) = IsBytes-drop n ds h

pub IsBytes-append : (xs ys : Bytes) → IsBytes xs → IsBytes ys → IsBytes (xs ++ ys)
IsBytes-append [] ys hx hy = hy
IsBytes-append (x ∷ xs) ys (b, hx) hy = (b, IsBytes-append xs ys hx hy)

pub IsBytes-parts : (xs ys : Bytes) → IsBytes (xs ++ ys) → IsBytes xs × IsBytes ys
IsBytes-parts [] ys h = (tt, h)
IsBytes-parts (x ∷ xs) ys (b, h) = let (hx, hy) = IsBytes-parts xs ys h in ((b, hx), hy)
