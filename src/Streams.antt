-- ===== src/Streams.antt =====
-- include/crab/streams.hpp and streams.hxx: IStream and OStream, with the loops that every stream
-- shares. A stream is a state with its virtual function; `S` is the state of a derived class. The
-- memory that a caller reads into is the list of bytes that comes back, whose length is the
-- number that the source returns. The fuel of a loop bounds its rounds; `none` means that it ran out.
pub mod Buffer
pub mod Contract
pub mod IMemory
pub mod OMemory
pub mod Vector
pub mod Combined
use crablib.Base.{
  ℕ, zero, suc, ◌+◌, ◌-◌, ◌*◌, ◌/◌, ◌%◌, ◌^◌, ◌≤◌, ◌<◌, min, ◌≡◌, refl, sym, ap, ap₂, ◌∙◌, ◌≢◌, ◌↔◌,
  ◌⊎◌, inl, inr, Bool, true, false, not, ◌&&◌, ◌||◌, Option, none, some, List, [], ◌∷◌, ◌++◌, map,
  reverse, append-nil, append_assoc, arith, ltb, leb, ◌==◌, if◌then◌else◌, Bool-cases, Result, ok,
  err, throw, Error, runtime_error, logic_error, ◌>>=◌, Bytes, codes, length, get_elem?, get_or,
  take, drop, length-append, length-take, length-drop, take-append-drop, take-length_add,
  drop-length_add, take_all,
}
use crablib.Loop.Chunks.{and_then}

pub record IStream (S : Type 0) : Type 0 where
  pub read_some : S → ℕ → Result (Bytes × S)

-- `write_some` returns how many of the bytes it took.
pub record OStream (S : Type 0) : Type 0 where
  pub write_some : S → Bytes → Result (ℕ × S)

-- What was read, in front of what the rounds to come read.
abbrev pub behind : {S : Type 0} → Bytes → Option (Result (Bytes × S)) → Option (Result (Bytes × S))
behind xs none = none
behind xs (some (err e)) = some (err e)
behind xs (some (ok (ys, s))) = some (ok (xs ++ ys, s))

module _ {S : Type 0} (stream : IStream S) where
  unfoldable pub read_loop : ℕ → S → ℕ → Option (Result (Bytes × S))
  read_loop zero s count = none
  read_loop (suc rounds) s count =
      let round = and_then (stream.read_some s count) (λ r.
        let rest = read_loop rounds r.1 (count - length r.0) in
        if length r.0 == 0
        then some (throw "crab::IStream reading from empty stream")
        else behind r.0 rest) in
      if count == 0 then some (ok ([], s)) else round

  -- Each round reads a byte at least, or is the last.
  unfoldable pub read : S → ℕ → Option (Result (Bytes × S))
  read s count = read_loop (count + 1) s count

module _ {S : Type 0} (stream : OStream S) where
  unfoldable pub write_loop : ℕ → S → Bytes → Option (Result S)
  write_loop zero s val = none
  write_loop (suc rounds) s val =
      let round = and_then (stream.write_some s val) (λ r.
        let rest = write_loop rounds r.1 (drop r.0 val) in
        if r.0 == 0 then some (throw "crab::OStream writing to full stream") else rest) in
      if length val == 0 then some (ok s) else round

  unfoldable pub write : S → Bytes → Option (Result S)
  write s val = write_loop (length val + 1) s val

  unfoldable pub write_byte : S → ℕ → Option (Result S)
  write_byte s val = write s (val ∷ [])
