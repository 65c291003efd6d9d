-- ===== src/Streams/Vector.antt =====
-- VectorStream and StringStream of include/crab/streams.hpp and streams.hxx, with what they
-- inherit from IVectorStream and OVectorStream, or IStringStream and OStringStream: a vector of
-- bytes and a string are lists of bytes here.
use crablib.Base.{
  ℕ, zero, suc, ◌+◌, ◌-◌, ◌≤◌, min, ◌≡◌, refl, sym, ap, ◌∙◌, inl, inr, Option, none, some, [], ◌++◌,
  arith, ◌==◌, if◌then◌else◌, Bool-cases, Result, ok, Bytes, length, take, drop, length-append,
  length-drop, take_all, drop-append, drop-drop, length_zero,
}
use crablib.Loop.Chunks.{and_then}
use crablib.Streams.{IStream, OStream}
use crablib.Streams.Contract.{IsIStream, IsOStream}

pub record VectorStream : Type 0 where
  pub impl : Bytes
  pub read_pos : ℕ

abbrev pub new : Bytes → VectorStream
new impl = record { impl = impl; read_pos = 0 }

unfoldable pub size : VectorStream → ℕ
size s = length s.impl - s.read_pos

unfoldable pub read_some : VectorStream → ℕ → Result (Bytes × VectorStream)
read_some s count =
    let rc = min count (length s.impl - s.read_pos) in
    ok (take rc (drop s.read_pos s.impl), record s { read_pos = s.read_pos + rc })

unfoldable pub write_some : VectorStream → Bytes → Result (ℕ × VectorStream)
write_some s val = ok (length val, record s { impl = s.impl ++ val })

-- The buffer is given away, and the stream is empty.
unfoldable pub clear : VectorStream → Bytes × VectorStream
clear s = (s.impl, record { impl = []; read_pos = 0 })

abbrev pub istream : IStream VectorStream
istream = record { read_some = read_some }

abbrev pub ostream : OStream VectorStream
ostream = record { write_some = write_some }

-- The loop of write_to, and write_to for all that is there.
module _ {S : Type 0} (out : OStream S) where
  unfoldable pub write_to_loop :
      ℕ → VectorStream → S → ℕ → ℕ → Option (Result (ℕ × VectorStream × S))
  write_to_loop zero s o max_count total_count = none
  write_to_loop (suc rounds) s o max_count total_count =
      let rc = min (size s) max_count in
      let round = and_then (out.write_some o (take rc (drop s.read_pos s.impl))) (λ r.
        let next : VectorStream = record s { read_pos = s.read_pos + r.0 } in
        let rest = write_to_loop rounds next r.1 (max_count - r.0) (total_count + r.0) in
        if r.0 == 0 then some (ok (total_count + r.0, next, r.1)) else rest) in
      if rc == 0 then some (ok (total_count, s, o)) else round

  unfoldable pub write_to : VectorStream → S → ℕ → Option (Result (ℕ × VectorStream × S))
  write_to s o max_count = write_to_loop (size s + 1) s o max_count 0

unfoldable pub contents : VectorStream → Bytes
contents s = drop s.read_pos s.impl

abbrev pub IsInside : VectorStream → Type 0
IsInside s = s.read_pos ≤ length s.impl

pub istream-IsIStream : IsIStream istream contents IsInside
unfolding read_some contents
istream-IsIStream = record {
  reads = λ s count v.
      let n = min count (length s.impl - s.read_pos) in
      (
        n,
        record s { read_pos = s.read_pos + n },
        refl,
        sym (drop-drop n s.read_pos s.impl),
        omega arith,
        omega arith,
        omega (arith, length-drop s.read_pos s.impl),
        λ z. elim (Bool-cases (count == 0)) [
          | inl c ↦ inl (ground arith)
          | inr c ↦
              inr (
                length_zero (drop s.read_pos s.impl)
                  (ground (arith, length-drop s.read_pos s.impl)))
        ],
      );
}

-- What is written can be read behind what is there, without a limit.
pub ostream-IsOStream : IsOStream ostream contents (λ s. none) IsInside
unfolding write_some contents
ostream-IsOStream = record {
  writes = λ s val v. (
    length val,
    record s { impl = s.impl ++ val },
    refl,
    drop-append s.read_pos s.impl val v
        ∙ ap (◌++◌ (drop s.read_pos s.impl)) (sym (take_all (length val) val (omega arith)).0),
    omega (arith, length-append s.impl val),
    omega arith,
    refl,
    (λ l e. absurd (ground arith)),
    λ z. inl (length_zero val z),
  );
}

pub size-contents : (s : VectorStream) → size s ≡ length (contents s)
unfolding size contents
size-contents s = sym (length-drop s.read_pos s.impl)
