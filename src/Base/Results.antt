-- ===== src/Base/Results.antt =====
-- Fallible code: a C++ exception is a value of `Error`, with the text that it carries.
use Prim.Native.String.{String}

pub data Error : Type 0 where
  runtime_error : String → Error
  logic_error : String → Error
  out_of_range : String → Error

pub data Result {ℓ} (A : Type ℓ) : Type ℓ where
  ok : A → Result A
  err : Error → Result A

-- `throw std::runtime_error{msg}`
abbrev pub throw {ℓ} : {A : Type ℓ} → String → Result A
throw msg = err (runtime_error msg)

-- Go on with the value; an exception goes through.
infixl 5 ◌>>=◌
abbrev pub ◌>>=◌ {ℓ κ} : {V : Type ℓ} {W : Type κ} → Result V → (V → Result W) → Result W
err thrown >>= go_on = err thrown
ok v >>= go_on = go_on v
