-- ===== src/Streams/OMemory.antt =====
-- OMemoryStream of include/crab/streams.hpp and streams.hxx.
use crablib.Base.{
  ℕ, ◌+◌, ◌-◌, min, refl, ap, inl, inr, some, ◌++◌, arith, ◌==◌, Bool-cases, Result, ok, Bytes,
  length, take, length-append, length-take, length_zero,
}
use crablib.Streams.{OStream}
use crablib.Streams.Contract.{IsOStream}

-- The bytes in front of `data`, which were written, and the room from there on.
pub record OMemoryStream : Type 0 where
  pub written : Bytes
  pub si : ℕ

unfoldable pub write_some : OMemoryStream → Bytes → Result (ℕ × OMemoryStream)
write_some s val =
    let rc = min (length val) s.si in
    ok (rc, record { written = s.written ++ take rc val; si = s.si - rc })

abbrev pub ostream : OStream OMemoryStream
ostream = record { write_some = write_some }

pub ostream-IsOStream :
    IsOStream ostream (λ s. s.written) (λ s. some (length s.written + s.si)) (λ s. Unit)
unfolding write_some
ostream-IsOStream = record {
  writes = λ s val v.
      let n = min (length val) s.si in
      (
        n,
        record { written = s.written ++ take n val; si = s.si - n },
        refl,
        refl,
        tt,
        omega arith,
        ap some (omega (arith, length-append s.written (take n val), length-take n val)),
        (λ l e. ground arith),
        λ z. elim (Bool-cases (length val == 0)) [
          | inl c ↦ inl (length_zero val (ground arith))
          | inr c ↦ inr (ap some (ground arith))
        ],
      );
}
