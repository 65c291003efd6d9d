-- ===== src/WebMessage/Header/Frames.antt =====
-- The length of what `WebMessageHeaderSaver` writes, and its frames with opcode 0:
-- include/crab/http/web_message_parser.hpp and web_message_parser.hxx.
use crablib.Base.{
  ℕ, ◌≤◌, Bool, true, false, Option, none, some, ◌++◌, Bytes, length, err, runtime_error, ◌≡◌, refl,
  arith, length-append,
}
use crablib.Loop
use crablib.WebMessage.Header.{
  initial, big_endian, saver, mask_bit, length_bytes, key_bytes, consume, is_good, parse,
}

length-length_bytes : (len mask : ℕ) → length (length_bytes len mask) ≤ 9
unfolding big_endian
length-length_bytes len mask = ground arith

length-key_bytes : (mk : Option ℕ) → length (key_bytes mk) ≤ 4
unfolding big_endian
length-key_bytes none = omega arith
length-key_bytes (some key) = omega arith

-- A header never outgrows the 16 bytes of `buffer`: it has at least 2 and at most 14 bytes.
length-saver :
    (fin : Bool) (op len : ℕ) (mk : Option ℕ)
    → (2 ≤ length (saver fin op len mk)) × (length (saver fin op len mk) ≤ 14)
unfolding saver
length-saver fin op len mk = (
  ground (arith, length-append (length_bytes len (mask_bit mk)) (key_bytes mk)),
  ground (
    arith,
    length-append (length_bytes len (mask_bit mk)) (key_bytes mk),
    length-length_bytes len (mask_bit mk),
    length-key_bytes mk,
  ),
)

-- The frames with opcode 0 that `ServerConnection::write` sends behind the first one of a message are
-- refused by `WebMessageHeaderParser`: whatever their final bit, length and key are, it throws.
pub parse-continuation :
    (fin : Bool) (len : ℕ) (mk : Option ℕ) (rest : Bytes)
    → parse initial (saver fin 0 len mk ++ rest) ≡ err (runtime_error "Invalid opcode")
unfolding saver parse consume is_good
parse-continuation true len mk rest =
    Loop.parse_throws is_good consume initial 128
      (length_bytes len (mask_bit mk) ++ key_bytes mk ++ rest) refl refl
parse-continuation false len mk rest =
    Loop.parse_throws is_good consume initial 0
      (length_bytes len (mask_bit mk) ++ key_bytes mk ++ rest) refl refl
