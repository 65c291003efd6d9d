-- ===== src/Http/Chunked.antt =====
-- The chunks that `ServerConnection::write` and `write_last_chunk` of
-- include/crab/http/connection.hxx put on the wire where a body has no content length.
pub mod Pieces
pub mod RoundTrip
use crablib.Base.{ℕ, zero, suc, ◌/◌, ◌%◌, ◌==◌, if◌then◌else◌, [], ◌∷◌, ◌++◌, Bytes, codes, length}
use crablib.Chars.Hex.{hex_digit}
use crablib.Http.Header.{is_empty}

-- `%llx` of `std::sprintf`, on fuel for the digits: 16 for an `unsigned long long`.
unfoldable pub print_hex : ℕ → ℕ → Bytes
print_hex zero value = []
print_hex (suc left) value =
    let more = print_hex left (value / 16) in
    let last = hex_digit (value % 16) ∷ [] in if value / 16 == 0 then last else more ++ last

-- The bytes of `write(val, count)`; an empty chunk would end the body, so nothing is written.
unfoldable pub write_chunk : Bytes → Bytes
unfolding print_hex
write_chunk val =
    if is_empty val
    then []
    else print_hex 16 (length val) ++ (codes "\r\n" ++ (val ++ codes "\r\n"))

-- The bytes of `write_last_chunk()`.
abbrev pub last_chunk : Bytes
last_chunk = codes "0\r\n\r\n"
