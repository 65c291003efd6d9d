-- ===== src/Streams/IMemory.antt =====
-- IMemoryStream of include/crab/streams.hpp and streams.hxx.
use crablib.Base.{
  ℕ, zero, suc, ◌+◌, ◌-◌, ◌≤◌, min, ◌≡◌, refl, sym, inl, inr, Option, none, some, arith, ◌==◌,
  if◌then◌else◌, Bool-cases, Result, ok, Bytes, length, take, drop, length-take, length-drop,
  drop-take, take-take, length_zero,
}
use crablib.Loop.Chunks.{and_then}
use crablib.Streams.{IStream, OStream}
use crablib.Streams.Contract.{IsIStream}

-- The bytes from `data` on, of which `si` belong to the stream.
pub record IMemoryStream : Type 0 where
  pub memory : Bytes
  pub si : ℕ

unfoldable pub size : IMemoryStream → ℕ
size s = s.si

unfoldable pub read_some : IMemoryStream → ℕ → Result (Bytes × IMemoryStream)
read_some s count =
    let rc = min count s.si in
    ok (take rc s.memory, record { memory = drop rc s.memory; si = s.si - rc })

abbrev pub istream : IStream IMemoryStream
istream = record { read_some = read_some }

-- The loop of write_to: `data` goes on by what was written, and `si` by what was offered.
module _ {S : Type 0} (out : OStream S) where
  unfoldable pub write_to_loop :
      ℕ → IMemoryStream → S → ℕ → ℕ → Option (Result (ℕ × IMemoryStream × S))
  write_to_loop zero s o max_count total_count = none
  write_to_loop (suc rounds) s o max_count total_count =
      let rc = min (size s) max_count in
      let round = and_then (out.write_some o (take rc s.memory)) (λ r.
        let next : IMemoryStream = record { memory = drop r.0 s.memory; si = s.si - rc } in
        let rest = write_to_loop rounds next r.1 (max_count - r.0) (total_count + r.0) in
        if r.0 == 0 then some (ok (total_count + r.0, next, r.1)) else rest) in
      if rc == 0 then some (ok (total_count, s, o)) else round

  unfoldable pub write_to : IMemoryStream → S → ℕ → Option (Result (ℕ × IMemoryStream × S))
  write_to s o max_count = write_to_loop (s.si + 1) s o max_count 0

unfoldable pub contents : IMemoryStream → Bytes
contents s = take s.si s.memory

-- The size counts bytes that are there.
abbrev pub IsBacked : IMemoryStream → Type 0
IsBacked s = s.si ≤ length s.memory

pub istream-IsIStream : IsIStream istream contents IsBacked
unfolding read_some contents
istream-IsIStream = record {
  reads = λ s count v.
      let n = min count s.si in
      (
        n,
        record { memory = drop n s.memory; si = s.si - n },
        refl_at s n (omega arith),
        drop_rest s n (omega arith),
        omega (arith, length-drop n s.memory),
        omega arith,
        omega (arith, length-take s.si s.memory),
        λ z. elim (Bool-cases (count == 0)) [
          | inl c ↦ inl (ground arith)
          | inr c ↦
              inr (length_zero (take s.si s.memory) (ground (arith, length-take s.si s.memory)))
        ],
      );
}
  where
    refl_at :
        (s : IMemoryStream) (n : ℕ)
        → n ≤ s.si
        → ◌≡◌ {A = Result (Bytes × IMemoryStream)}
            (ok (take n s.memory, record { memory = drop n s.memory; si = s.si - n }))
            (ok (take n (take s.si s.memory), record { memory = drop n s.memory; si = s.si - n }))
    refl_at s n h = rw (take-take n s.si s.memory h) refl

    drop_rest :
        (s : IMemoryStream) (n : ℕ)
        → n ≤ s.si
        → take (s.si - n) (drop n s.memory) ≡ drop n (take s.si s.memory)
    drop_rest s n h = sym (drop-take n s.si s.memory h)
