-- ===== src/Http/Chunked/RoundTrip.antt =====
-- What a connection writes as chunks, `BodyParser` reads back.
use crablib.Base.{
  ℕ, suc, ◌+◌, ◌^◌, ◌≤◌, ◌<◌, true, none, some, List, [], ◌∷◌, ◌++◌, Bytes, codes, length, ok, ◌≡◌,
  refl, ap, sym, ◌∙◌, arith, append_assoc, append-nil,
}
use crablib.Http.Body.{State, BodyParser, start, is_good, parse}
use crablib.Http.Body.Bytewise.Equivalence.{bytewise, parse-bytewise, start-IsValid}
use crablib.Http.Chunked.{print_hex, write_chunk, last_chunk}
use crablib.Http.Chunked.Pieces.{
  at, finished, SizeRead, size_read, size_line_read, chunk_line_read, last_read, data_read,
}

-- A chunk, or nothing where there are no bytes, read behind few bytes of chunk header.
chunk_read :
    (val b : Bytes) (h : ℕ) (cs : Bytes)
    → length val < 2 ^ 64
    → h ≤ 200
    → (k : ℕ) × (k ≤ 200)
      × (bytewise (at State.chunk_size_start b 0 h) (write_chunk val ++ cs)
          ≡ bytewise (at State.chunk_size_start (b ++ val) 0 k) cs)
unfolding write_chunk SizeRead
chunk_read [] b h cs fits short =
    (h, short, ap (λ t. bytewise (at State.chunk_size_start t 0 h) cs) (sym (append-nil b)))
chunk_read (x ∷ xs) b h cs fits short =
    let n = suc (length xs) in
    let line = codes "\r\n" in
    let (k, few, size) =
      size_read b 15 n h (line ++ ((x ∷ xs) ++ (line ++ cs))) (omega arith) fits (omega arith) in
    (
      2,
      omega arith,
      rw (append_assoc (print_hex 16 n) (line ++ ((x ∷ xs) ++ line)) cs, append_assoc xs line cs)
            size
          ∙ size_line_read b (length xs) (h + k) ((x ∷ xs) ++ (line ++ cs)) (omega arith)
          ∙ data_read x xs b (h + k + 2) (line ++ cs)
          ∙ chunk_line_read (b ++ x ∷ xs) cs,
    )

-- The chunks of several calls of `write`, and the bytes that they carry.
abbrev pub write_chunks : List Bytes → Bytes
write_chunks [] = []
write_chunks (val ∷ vals) = write_chunk val ++ write_chunks vals

abbrev pub concat : List Bytes → Bytes
concat [] = []
concat (val ∷ vals) = val ++ concat vals

abbrev pub AllFit : List Bytes → Type 0
AllFit [] = Unit
AllFit (val ∷ vals) = (length val < 2 ^ 64) × AllFit vals

chunks_read :
    (vals : List Bytes) (b : Bytes) (h : ℕ) (rest : Bytes)
    → AllFit vals
    → h ≤ 200
    → (k : ℕ) × (bytewise
          (at State.chunk_size_start b 0 h)
          (write_chunks vals ++ (last_chunk ++ rest))
        ≡ ok (finished (b ++ concat vals) k, rest))
chunks_read [] b h rest fit short = (h + 3, rw (append-nil b) (last_read b h rest short))
chunks_read (val ∷ vals) b h rest (one, fit) short =
    let (k, few, first) =
      chunk_read val b h (write_chunks vals ++ (last_chunk ++ rest)) one short in
    let (m, more) = chunks_read vals (b ++ val) k rest fit few in
    (
      m,
      rw (append_assoc (write_chunk val) (write_chunks vals) (last_chunk ++ rest)) first
          ∙ more
          ∙ ap (λ t. ok (finished t m, rest)) (append_assoc b val (concat vals)),
    )

-- A chunked body that a connection writes by any number of calls, each with fewer than 2 ^ 64 bytes
-- and some perhaps with none, is read back by a fresh `BodyParser` as the bytes of all calls in
-- order. The parser ends in its last state and leaves what follows the last chunk.
pub parse-write_chunks :
    (vals : List Bytes) (rest : Bytes)
    → AllFit vals
    → (q : BodyParser) × (parse (start none true) (write_chunks vals ++ (last_chunk ++ rest))
        ≡ some (ok (q, rest)))
      × (q.body ≡ concat vals)
      × (is_good q ≡ true)
unfolding start
parse-write_chunks vals rest fit =
    let valid = start-IsValid none true (λ n e. absurd (ground arith)) in
    let (k, read) = chunks_read vals [] 0 rest fit (omega arith) in
    (
      finished (concat vals) k,
      parse-bytewise (start none true) (write_chunks vals ++ (last_chunk ++ rest)) valid
          ∙ ap some read,
      refl,
      refl,
    )
