-- ===== src/Streams/Buffer/ReadFrom.antt =====
-- Buffer of include/crab/streams.hxx as a stream, and Buffer::read_from.
use mathlib.Core.Path.{subst}
use crablib.Base.{
  ℕ, zero, suc, ◌+◌, ◌≤◌, ◌<◌, min, ◌≡◌, refl, sym, ap, ap₂, ◌∙◌, ◌⊎◌, inl, inr, some, [], ◌++◌,
  append-nil, append_assoc, arith, ◌==◌, Bool-cases, ok, Bytes, length, take, drop, length-append,
  length-take, length-drop, drop-drop, take_two, length_zero,
}
use crablib.Streams.{IStream}
use crablib.Streams.Contract.{IsIStream, IsOStream}
use crablib.Streams.Buffer.{
  Buffer, istream, ostream, capacity, read_count, write_count, write_ptr, did_write, store,
  read_from_loop, read_from,
}
use crablib.Streams.Buffer.Parts.{content, IsBuffer}
use crablib.Streams.Buffer.Queue.{
  Became, did_write-Became, read_some_lem, write_some_lem, read_count_zero, read_count_le,
  write_count_zero, write_count_le,
}

-- A buffer is a stream to read from, and one to write to.
pub istream-IsIStream : IsIStream istream content IsBuffer
istream-IsIStream = record {
  reads = λ b count v.
      let (r, e, f) = read_some_lem b v count in
      let le = read_count_le b v in
      (
        min count (read_count b),
        r,
        e,
        f.bytes,
        f.valid,
        omega arith,
        omega arith,
        λ z. elim (Bool-cases (count == 0)) [
          | inl c ↦ inl (ground arith)
          | inr c ↦ inr (read_count_zero b v (ground arith))
        ],
      );
}

pub ostream-IsOStream : IsOStream ostream content (λ b. some (capacity b)) IsBuffer
ostream-IsOStream = record {
  writes = λ b val v.
      let (r, e, f) = write_some_lem b v val in
      let le = write_count_le b v in
      (
        min (length val) (write_count b),
        r,
        e,
        f.bytes,
        f.valid,
        omega arith,
        ap some f.same,
        (λ l e. ground arith),
        λ z. elim (Bool-cases (length val == 0)) [
          | inl c ↦ inl (length_zero val (ground arith))
          | inr c ↦ inr (ap some (sym (write_count_zero b v (ground arith))))
        ],
      );
}

module _ {S : Type 0} (stream : IStream S) (contents : S → Bytes) (Valid : S → Type 0)
    (promise : IsIStream stream contents Valid) where
  -- All bytes that leave the stream are in the buffer behind those it had, and reading goes on
  -- until the buffer is full or the stream is empty.
  pub record Read (b : Buffer) (s : S) (total : ℕ) (r : Buffer) (t : S) : Type 0 where
    pub valid : IsBuffer r
    pub source : Valid t
    pub same : capacity r ≡ capacity b
    pub bytes : content r ≡ content b ++ take total (contents s)
    pub rest : contents t ≡ drop total (contents s)
    pub count : total ≤ length (contents s)
    pub done : (length (content r) ≡ capacity b) ⊎ (contents t ≡ [])

  Read-then :
      (b : Buffer) (s : S) (n : ℕ) (c : Buffer) (t : S) (m : ℕ) (r : Buffer) (t' : S)
      → Became b (content b ++ take n (contents s)) c
      → contents t ≡ drop n (contents s)
      → n ≤ length (contents s)
      → Read c t m r t'
      → Read b s (n + m) r t'
  Read-then b s n c t m r t' f left le z = record {
    valid = z.valid;
    source = z.source;
    same = z.same ∙ f.same;
    bytes =
        z.bytes
        ∙ ap₂ (λ (x y : Bytes). x ++ take m y) f.bytes left
        ∙ append_assoc (content b) (take n (contents s)) (take m (drop n (contents s)))
        ∙ ap (◌++◌ (content b)) (take_two n m (contents s));
    rest = z.rest ∙ ap (drop m) left ∙ drop-drop m n (contents s);
    count = omega (arith, z.count, ap length left, length-drop n (contents s));
    done = elim z.done [ inl d ↦ inl (d ∙ f.same) | inr d ↦ inr d ];
  }

  read_from_loop_lem :
      (rounds : ℕ) (b : Buffer) (s : S) (total : ℕ)
      → capacity b < rounds + length (content b)
      → IsBuffer b
      → Valid s
      → (n : ℕ) × (r : Buffer) × (t : S) × (read_from_loop stream rounds b s total
          ≡ some (ok (total + n, r, t)))
        × Read b s n r t
  unfolding read_from_loop
  read_from_loop_lem zero b s total f v u = absurd (omega (arith, write_count_le b v))
  read_from_loop_lem (suc k) b s total f v u = elim (Bool-cases (write_count b == 0)) [
    | inl no_room ↦ rw no_room (
      0,
      b,
      s,
      ap (λ (m : ℕ). some (ok (m, b, s))) {y = total + 0} (omega arith),
      record {
        valid = v;
        source = u;
        same = refl;
        bytes = sym (append-nil (content b));
        rest = refl;
        count = omega arith;
        done = inl (write_count_zero b v (ground arith));
      },
    )
    | inr room ↦
        let (n, t, e, left, w, le, lt, stuck) = promise.reads s (write_count b) u in
        let len : length (take n (contents s)) ≡ n = omega (arith, length-take n (contents s)) in
        let (c, g, f2) = did_write-Became b v (take n (contents s)) (omega arith) in
        let bytes : length (content c) ≡ length (content b) + n =
          ap length f2.bytes
          ∙ length-append (content b) (take n (contents s))
          ∙ ap (λ (z : ℕ). length (content b) + z) len in
        let g' : did_write (record b { impl = store b.impl (write_ptr b) (take n (contents s)) }) n
            ≡ ok c =
          subst
            (λ (z : ℕ).
              did_write (record b { impl = store b.impl (write_ptr b) (take n (contents s)) }) z
              ≡ ok c)
            len g in
        elim (Bool-cases (n == 0)) [
          | inl stop ↦
              let empty : contents s ≡ [] = elim (stuck (ground arith)) [
                | inl p ↦ absurd (ground arith)
                | inr p ↦ p
              ] in
              rw (room, e, len, g', stop)
                (
                  n,
                  c,
                  t,
                  refl,
                  record {
                    valid = f2.valid;
                    source = w;
                    same = f2.same;
                    bytes = f2.bytes;
                    rest = left;
                    count = lt;
                    done = inr (
                        length_zero (contents t) (
                          omega
                            (arith, ap length left, length-drop n (contents s), ap length empty)));
                  },
                )
          | inr moved ↦
              let (n2, r, t2, h, z) =
                read_from_loop_lem k c t (total + n) (ground (arith, f2.same)) f2.valid w in
              rw (room, e, len, g', moved, h)
                (
                  n + n2,
                  r,
                  t2,
                  ap (λ (m : ℕ). some (ok (m, r, t2))) (omega arith),
                  Read-then b s n c t n2 r t2 f2 left lt z,
                )
        ]
  ]

  -- Buffer::read_from, with a valid buffer and a stream that keeps IStream's promise, always ends,
  -- and never throws. The buffer stays valid, with the same capacity, and holds as many of the
  -- stream's bytes as the number returned behind those it held; the stream has the rest. In the
  -- end the buffer is full or the stream is empty.
  pub read_from_lem :
      (b : Buffer) (s : S)
      → IsBuffer b
      → Valid s
      → (n : ℕ) × (r : Buffer) × (t : S) × (read_from stream b s ≡ some (ok (n, r, t)))
        × Read b s n r t
  unfolding read_from capacity
  read_from_lem b s v u =
      let (n, r, t, e, z) = read_from_loop_lem (length b.impl + 1) b s 0 (omega arith) v u in
      (n, r, t, e ∙ ap (λ (m : ℕ). some (ok (m, r, t))) {x = 0 + n} {y = n} (omega arith), z)
