-- ===== src/Streams/Buffer.antt =====
-- Buffer of include/crab/streams.hpp and streams.hxx: a circular buffer. The memory that its
-- pointers point into is the list `impl`, and a pointer is a position in it. A throwing call
-- gives no state back. Positions stay below twice the capacity, so they do not wrap.
pub mod Parts
pub mod Content
pub mod Queue
pub mod ReadFrom
pub mod Transfer
use Prim.Native.String.{String}
use mathlib.Core.Option
use crablib.Base.{
  ℕ, zero, suc, ◌+◌, ◌-◌, ◌*◌, ◌/◌, ◌%◌, ◌^◌, ◌≤◌, ◌<◌, min, ◌≡◌, refl, sym, ap, ap₂, ◌∙◌, ◌≢◌, ◌↔◌,
  ◌⊎◌, inl, inr, Bool, true, false, not, ◌&&◌, ◌||◌, Option, none, some, List, [], ◌∷◌, ◌++◌, map,
  reverse, append-nil, append_assoc, arith, ltb, leb, ◌==◌, if◌then◌else◌, Bool-cases, Result, ok,
  err, throw, Error, runtime_error, logic_error, ◌>>=◌, Bytes, codes, length, get_elem?, get_or,
  take, drop, length-append, length-take, length-drop, take-append-drop, take-length_add,
  drop-length_add, take_all,
}
use crablib.Loop.Chunks.{and_then}
use crablib.Streams.{IStream, OStream}

pub record Buffer : Type 0 where
  pub impl : Bytes
  pub read_pos : ℕ
  pub write_pos : ℕ

-- `invariant(expr, msg)`; the text before the message names the place, and is left out.
abbrev pub invariant : {A : Type 0} → Bool → String → A → Result A
invariant true msg a = ok a
invariant false msg a = err (logic_error msg)

abbrev pub zeros : ℕ → Bytes
zeros zero = []
zeros (suc n) = 0 ∷ zeros n

-- `Buffer(si)`
unfoldable pub new : ℕ → Buffer
new si = record { impl = zeros si; read_pos = 0; write_pos = 0 }

unfoldable pub capacity : Buffer → ℕ
capacity b = length b.impl

unfoldable pub size : Buffer → ℕ
size b = b.write_pos - b.read_pos

unfoldable pub clear : Buffer → Buffer
clear b = record b { read_pos = 0; write_pos = 0 }

-- `clear(new_size)`, with what `resize` keeps and adds.
unfoldable pub clear_resize : Buffer → ℕ → Buffer
clear_resize b new_size = record {
  impl = take new_size b.impl ++ zeros (new_size - length b.impl);
  read_pos = 0;
  write_pos = 0;
}

unfoldable pub full : Buffer → Bool
full b = b.read_pos + length b.impl == b.write_pos

unfoldable pub read_count : Buffer → ℕ
read_count b =
    if ltb b.write_pos (length b.impl) then b.write_pos - b.read_pos else length b.impl - b.read_pos

unfoldable pub write_count : Buffer → ℕ
write_count b =
    if ltb b.write_pos (length b.impl)
    then length b.impl - b.write_pos
    else b.read_pos - (b.write_pos - length b.impl)

-- The position of `write_ptr()`; `read_ptr()` is at `read_pos`.
unfoldable pub write_ptr : Buffer → ℕ
write_ptr b = if ltb b.write_pos (length b.impl) then b.write_pos else b.write_pos - length b.impl

unfoldable pub read_count2 : Buffer → ℕ
read_count2 b = if ltb b.write_pos (length b.impl) then 0 else b.write_pos - length b.impl

unfoldable pub write_count2 : Buffer → ℕ
write_count2 b = if ltb b.write_pos (length b.impl) then b.read_pos else 0

unfoldable pub did_write : Buffer → ℕ → Result Buffer
did_write b count =
    let write_pos = b.write_pos + count in
    invariant (leb write_pos (b.read_pos + length b.impl)) "Writing past end of Buffer"
      (record b { write_pos = write_pos })

unfoldable pub did_write_undo : Buffer → ℕ → Result Buffer
did_write_undo b count =
    invariant (leb (b.read_pos + count) b.write_pos) "Writing undo past read_pos"
      (record b { write_pos = b.write_pos - count })

-- The positions behind the ones that are at the end of the memory, and those of an empty buffer.
unfoldable pub wrap : Buffer → Buffer
wrap b =
    if leb (length b.impl) b.read_pos
    then record b { read_pos = b.read_pos - length b.impl; write_pos = b.write_pos - length b.impl }
    else b

unfoldable pub reset : Buffer → Buffer
reset b = if b.read_pos == b.write_pos then record b { read_pos = 0; write_pos = 0 } else b

unfoldable pub did_read : Buffer → ℕ → Result Buffer
did_read b count =
    let read_pos = b.read_pos + count in
    invariant (leb read_pos b.write_pos) "Reading past end of Buffer"
      (reset (wrap (record b { read_pos = read_pos })))

-- `memcpy(impl.data() + pos, val, n)`, and the bytes that a copy of `n` bytes from `pos` reads.
unfoldable pub store : Bytes → ℕ → Bytes → Bytes
store impl pos val = take pos impl ++ (val ++ drop (pos + length val) impl)

unfoldable pub load : Bytes → ℕ → ℕ → Bytes
load impl pos n = take n (drop pos impl)

unfoldable pub read_some : Buffer → ℕ → Result (Bytes × Buffer)
read_some b count =
    let rc = min count (read_count b) in did_read b rc >>= λ r. ok (load b.impl b.read_pos rc, r)

unfoldable pub write_some : Buffer → Bytes → Result (ℕ × Buffer)
write_some b val =
    let rc = min (length val) (write_count b) in
    did_write (record b { impl = store b.impl (write_ptr b) (take rc val) }) rc >>= λ r. ok (rc, r)

abbrev pub istream : IStream Buffer
istream = record { read_some = read_some }

abbrev pub ostream : OStream Buffer
ostream = record { write_some = write_some }

-- `none` where the source returns false.
unfoldable pub peek : Buffer → ℕ → Option Bytes
peek b count =
    let rc = read_count b in
    if ltb (size b) count
    then none
    else some (
        if leb count rc
        then load b.impl b.read_pos count
        else load b.impl b.read_pos rc ++ load b.impl 0 (count - rc))

-- Reading from another stream, with the number of bytes read.
module _ {S : Type 0} (source : IStream S) where
  unfoldable pub read_from_loop : ℕ → Buffer → S → ℕ → Option (Result (ℕ × Buffer × S))
  read_from_loop zero b s total_count = none
  read_from_loop (suc rounds) b s total_count =
      let wc = write_count b in
      let round = and_then (source.read_some s wc) (λ r.
        let count = length r.0 in
        and_then (did_write (record b { impl = store b.impl (write_ptr b) r.0 }) count) (λ c.
          let rest = read_from_loop rounds c r.1 (total_count + count) in
          if count == 0 then some (ok (total_count + count, c, r.1)) else rest)) in
      if wc == 0 then some (ok (total_count, b, s)) else round

  unfoldable pub read_from : Buffer → S → Option (Result (ℕ × Buffer × S))
  read_from b s = read_from_loop (length b.impl + 1) b s 0

  -- With the Boolean that the source returns.
  unfoldable pub read_enough_data : Buffer → S → ℕ → Option (Result (Bool × Buffer × S))
  read_enough_data b s count =
      if ltb (size b) count
      then Option.map
          (λ (m : Result (ℕ × Buffer × S)). m >>= λ r. ok (leb count (size r.1), r.1, r.2))
          (read_from b s)
      else some (ok (true, b, s))

module _ {S : Type 0} (out : OStream S) where
  unfoldable pub write_to_loop : ℕ → Buffer → S → ℕ → ℕ → Option (Result (ℕ × Buffer × S))
  write_to_loop zero b s max_count total_count = none
  write_to_loop (suc rounds) b s max_count total_count =
      let rc = min (read_count b) max_count in
      let round = and_then (out.write_some s (load b.impl b.read_pos rc)) (λ r.
        let count = r.0 in
        and_then (did_read b count) (λ c.
          let rest = write_to_loop rounds c r.1 (max_count - count) (total_count + count) in
          if count == 0 then some (ok (total_count + count, c, r.1)) else rest)) in
      if rc == 0 then some (ok (total_count, b, s)) else round

  unfoldable pub write_to : Buffer → S → ℕ → Option (Result (ℕ × Buffer × S))
  write_to b s max_count = write_to_loop (size b + 1) b s max_count 0
