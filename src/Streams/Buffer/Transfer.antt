-- ===== src/Streams/Buffer/Transfer.antt =====
-- Buffer::write_to of include/crab/streams.hxx, with a stream that keeps
-- what every stream promises.
use crablib.Base.{
  ℕ, zero, suc, ◌+◌, ◌-◌, ◌≤◌, ◌<◌, min, ◌≡◌, refl, sym, ap, ap₂, ◌∙◌, ◌⊎◌, inl, inr, Option, some,
  [], ◌++◌, append-nil, append_assoc, arith, ◌==◌, Bool-cases, ok, Bytes, length, take, drop,
  length-append, length-take, length-drop, drop-drop, take_two, take-take,
}
use crablib.Streams.{OStream}
use crablib.Streams.Contract.{IsOStream}
use crablib.Streams.Buffer.{Buffer, size, capacity, read_count, write_to_loop, write_to}
use crablib.Streams.Buffer.Parts.{content, IsBuffer}
use crablib.Streams.Buffer.Queue.{
  Became, did_read-Became, load-content, read_count_zero, read_count_le, size-content,
}

module _ {S : Type 0} (stream : OStream S) (contents : S → Bytes) (limit : S → Option ℕ)
    (Valid : S → Type 0) (promise : IsOStream stream contents limit Valid) where
  -- All bytes that leave the buffer are in the stream behind those it had, and writing goes on
  -- until the buffer is empty, as many bytes as allowed are written or the stream is full.
  pub record Written (b : Buffer) (s : S) (max_count total : ℕ) (r : Buffer) (t : S) : Type 0 where
    pub valid : IsBuffer r
    pub target : Valid t
    pub same : capacity r ≡ capacity b
    pub limits : limit t ≡ limit s
    pub bytes : contents t ≡ contents s ++ take total (content b)
    pub rest : content r ≡ drop total (content b)
    pub count : total ≤ length (content b)
    pub within : total ≤ max_count
    pub done : (content r ≡ []) ⊎ ((total ≡ max_count) ⊎ (limit s ≡ some (length (contents t))))

  Written-then :
      (b : Buffer) (s : S) (max_count n : ℕ) (c : Buffer) (t : S) (m : ℕ) (r : Buffer) (t' : S)
      → Became b (drop n (content b)) c
      → contents t ≡ contents s ++ take n (content b)
      → limit t ≡ limit s
      → n ≤ length (content b)
      → n ≤ max_count
      → Written c t (max_count - n) m r t'
      → Written b s max_count (n + m) r t'
  Written-then b s max_count n c t m r t' f put same le allowed z = record {
    valid = z.valid;
    target = z.target;
    same = z.same ∙ f.same;
    limits = z.limits ∙ same;
    bytes =
        z.bytes
        ∙ ap₂ (λ (x y : Bytes). x ++ take m y) put f.bytes
        ∙ append_assoc (contents s) (take n (content b)) (take m (drop n (content b)))
        ∙ ap (◌++◌ (contents s)) (take_two n m (content b));
    rest = z.rest ∙ ap (drop m) f.bytes ∙ drop-drop m n (content b);
    count = omega (arith, z.count, ap length f.bytes, length-drop n (content b));
    within = omega (arith, z.within);
    done = elim z.done [
      | inl d ↦ inl d
      | inr other ↦ elim other [
        | inl d ↦ inr (inl (omega arith))
        | inr d ↦ inr (inr (sym same ∙ d))
      ]
    ];
  }

  write_to_loop_lem :
      (rounds : ℕ) (b : Buffer) (s : S) (max_count total : ℕ)
      → length (content b) < rounds
      → IsBuffer b
      → Valid s
      → (n : ℕ) × (r : Buffer) × (t : S) × (write_to_loop stream rounds b s max_count total
          ≡ some (ok (total + n, r, t)))
        × Written b s max_count n r t
  unfolding write_to_loop
  write_to_loop_lem zero b s max_count total f v u = absurd (omega arith)
  write_to_loop_lem (suc k) b s max_count total f v u =
      let rc = min (read_count b) max_count in
      let fits = read_count_le b v in
      elim (Bool-cases (rc == 0)) [
        | inl over ↦ rw over (
          0,
          b,
          s,
          ap (λ (m : ℕ). some (ok (m, b, s))) {y = total + 0} (omega arith),
          record {
            valid = v;
            target = u;
            same = refl;
            limits = refl;
            bytes = sym (append-nil (contents s));
            rest = refl;
            count = omega arith;
            within = omega arith;
            done = elim (Bool-cases (max_count == 0)) [
              | inl z ↦ inr (inl (ground arith))
              | inr z ↦ inl (read_count_zero b v (ground arith))
            ];
          },
        )
        | inr some_left ↦
            let loaded = load-content b v rc (omega arith) in
            let (n, t, e, put, w, le, same, room, stuck) =
              promise.writes s (take rc (content b)) u in
            let len : n ≤ rc = omega (arith, le, length-take rc (content b)) in
            let taken : take n (take rc (content b)) ≡ take n (content b) =
              take-take n rc (content b) len in
            let (c, g, f2) = did_read-Became b v n (omega arith) in
            let put' : contents t ≡ contents s ++ take n (content b) =
              put ∙ ap (◌++◌ (contents s)) taken in
            elim (Bool-cases (n == 0)) [
              | inl stop ↦
                  let n_zero : n ≡ 0 = ground arith in
                  rw (some_left, loaded, e, g, stop)
                    (
                      n,
                      c,
                      t,
                      refl,
                      record {
                        valid = f2.valid;
                        target = w;
                        same = f2.same;
                        limits = same;
                        bytes = put';
                        rest = f2.bytes;
                        count = omega arith;
                        within = omega arith;
                        done = elim (stuck (ground arith)) [
                          | inl p ↦ absurd (ground (arith, ap length p, length-take rc (content b)))
                          | inr p ↦ inr (
                              inr (
                                p
                                ∙ ap some (
                                    omega (
                                      arith,
                                      ap length put',
                                      length-append (contents s) (take n (content b)),
                                      length-take n (content b),
                                      n_zero,
                                    ))))
                        ];
                      },
                    )
              | inr moved ↦
                  let (n2, r, t2, h, z) =
                    write_to_loop_lem k c t (max_count - n) (total + n)
                      (ground (arith, ap length f2.bytes, length-drop n (content b))) f2.valid w in
                  rw (some_left, loaded, e, g, moved, h)
                    (
                      n + n2,
                      r,
                      t2,
                      ap (λ (m : ℕ). some (ok (m, r, t2))) (omega arith),
                      Written-then b s max_count n c t n2 r t2 f2 put' same (omega arith)
                          (omega arith) z,
                    )
            ]
      ]

  -- Buffer::write_to, with a valid buffer and a stream that keeps OStream's promise, always ends,
  -- and never throws. The stream has as many of the buffer's bytes as the number returned, at most
  -- max_count, behind those it had; the buffer stays valid, with the same capacity, and holds the
  -- rest. In the end the buffer is empty, max_count bytes are written or the stream is at its
  -- limit.
  pub write_to_lem :
      (b : Buffer) (s : S) (max_count : ℕ)
      → IsBuffer b
      → Valid s
      → (n : ℕ) × (r : Buffer) × (t : S) × (write_to stream b s max_count ≡ some (ok (n, r, t)))
        × Written b s max_count n r t
  unfolding write_to
  write_to_lem b s max_count v u =
      let (n, r, t, e, z) =
        write_to_loop_lem (size b + 1) b s max_count 0 (omega (arith, size-content b v)) v u in
      (n, r, t, e ∙ ap (λ (m : ℕ). some (ok (m, r, t))) {x = 0 + n} {y = n} (omega arith), z)
