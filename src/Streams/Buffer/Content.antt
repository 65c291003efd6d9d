-- ===== src/Streams/Buffer/Content.antt =====
-- The bytes in a Buffer of include/crab/streams.hpp, in order, and what each call does to them.
use crablib.Base.{
  ℕ, ◌+◌, ◌-◌, ◌≤◌, ◌≡◌, refl, sym, ap, ap₂, ◌∙◌, inl, inr, [], ◌++◌, append-nil, append_assoc,
  arith, ltb, leb, ◌==◌, Bool-cases, ok, Bytes, length, take, drop, length-append, length-take,
  length-drop, take-append-drop, drop-length_add, take_all, take-length, drop-append, length_zero,
}
use crablib.Streams.Buffer.{Buffer, write_count, write_ptr, did_read, did_write, wrap, reset, store}
use crablib.Streams.Buffer.Parts.{IsBuffer, Holds, straight, wrapped}

-- Copying bytes behind the first part of a list, over as many of the next one.
pub store_lem :
    (a c val : Bytes)
    → length val ≤ length c
    → store (a ++ c) (length a) val ≡ a ++ (val ++ drop (length val) c)
unfolding store
store_lem a c val b = rw (take-length a c, drop-length_add a c (length val)) refl

pub length-store :
    (impl val : Bytes) (pos : ℕ)
    → pos + length val ≤ length impl
    → length (store impl pos val) ≡ length impl
unfolding store
length-store impl val pos b = ground (
  arith,
  length-append (take pos impl) (val ++ drop (pos + length val) impl),
  length-append val (drop (pos + length val) impl),
  length-take pos impl,
  length-drop (pos + length val) impl,
)

-- Positions and memory after a write that has room.
did_write_ok :
    (b : Buffer) (val : Bytes)
    → IsBuffer b
    → length val ≤ write_count b
    → let impl = store b.impl (write_ptr b) val in
      (did_write (record b { impl = impl }) (length val)
        ≡ ok (record { impl = impl; read_pos = b.read_pos; write_pos = b.write_pos + length val }))
      × (length impl ≡ length b.impl)
      × IsBuffer
          (record { impl = impl; read_pos = b.read_pos; write_pos = b.write_pos + length val })
unfolding did_write write_count write_ptr
did_write_ok b val v fits =
    let n =
      length-store b.impl val (write_ptr b)
        (unfold write_ptr in ground (arith, v.ordered, v.bounded, v.inside)) in
    (
      ground (arith, n, v.ordered, v.bounded, v.inside),
      n,
      record {
        ordered = omega (arith, v.ordered);
        bounded = ground (arith, n, v.ordered, v.bounded, v.inside);
        inside = ground (arith, n, v.inside);
      },
    )

module _ (b : Buffer) (q : Bytes) where
  -- Bytes that fit behind the ones held, copied there and counted, are held behind them.
  pub did_write-Holds :
      (val : Bytes)
      → Holds b q
      → length val ≤ write_count b
      → (r : Buffer) × (did_write (record b { impl = store b.impl (write_ptr b) val }) (length val)
          ≡ ok r)
        × Holds r (q ++ val)
        × (length r.impl ≡ length b.impl)
  did_write-Holds val (straight pre post e r w v) fits =
      let (done, n, u) = did_write_ok b val v fits in
      let size : length b.impl ≡ length pre + (length q + length post) =
        ap length e
        ∙ length-append pre (q ++ post)
        ∙ ap (λ (t : ℕ). length pre + t) (length-append q post) in
      elim (Bool-cases (ltb b.write_pos (length b.impl))) [
        | inl inner ↦
            let at_end : write_ptr b ≡ length (pre ++ q) =
              unfold write_ptr in ground (arith, length-append pre q) in
            let room : length val ≤ length post = unfold write_count in ground arith in
            let cut : store b.impl (write_ptr b) val
                ≡ pre ++ ((q ++ val) ++ drop (length val) post) =
              ap₂ (λ (m : Bytes) (p : ℕ). store m p val) (e ∙ sym (append_assoc pre q post)) at_end
              ∙ store_lem (pre ++ q) post val room
              ∙ simp append_assoc refl in
            (
              _,
              done,
              straight pre (drop (length val) post) cut r (omega (arith, w, length-append q val)) u,
              n,
            )
        | inr outer ↦
            let at_start : write_ptr b ≡ 0 = unfold write_ptr in ground arith in
            let room : length val ≤ length pre = unfold write_count in ground arith in
            let all : post ≡ [] = length_zero post (ground arith) in
            let cut : store b.impl (write_ptr b) val ≡ val ++ (drop (length val) pre ++ q) =
              ap₂ (λ (m : Bytes) (p : ℕ). store m p val)
                (e ∙ ap (λ (t : Bytes). pre ++ (q ++ t)) all ∙ ap (◌++◌ pre) (append-nil q))
                at_start
              ∙ store_lem [] (pre ++ q) val (omega (arith, length-append pre q))
              ∙ ap (◌++◌ val) (drop-append (length val) pre q room) in
            (
              _,
              done,
              wrapped val (drop (length val) pre) q cut refl
                  (omega (arith, r, length-drop (length val) pre)) (ground (arith, n)) u,
              n,
            )
      ]
  did_write-Holds val (wrapped tail gap head e f r w v) fits =
      let (done, n, u) = did_write_ok b val v fits in
      let size : length b.impl ≡ length tail + (length gap + length head) =
        ap length e
        ∙ length-append tail (gap ++ head)
        ∙ ap (λ (t : ℕ). length tail + t) (length-append gap head) in
      let at_end : write_ptr b ≡ length tail = unfold write_ptr in ground arith in
      let room : length val ≤ length gap = unfold write_count in ground arith in
      let cut : store b.impl (write_ptr b) val ≡ (tail ++ val) ++ (drop (length val) gap ++ head) =
        ap₂ (λ (m : Bytes) (p : ℕ). store m p val) e at_end
        ∙ store_lem tail (gap ++ head) val (omega (arith, length-append gap head))
        ∙ ap (λ (t : Bytes). tail ++ (val ++ t)) (drop-append (length val) gap head room)
        ∙ sym (append_assoc tail val (drop (length val) gap ++ head)) in
      (
        _,
        done,
        wrapped (tail ++ val) (drop (length val) gap) head cut
            (ap (λ (t : Bytes). t ++ val) f ∙ append_assoc head tail val)
            (omega (arith, r, length-append tail val, length-drop (length val) gap))
            (omega (arith, w, n, length-append tail val)) u,
        n,
      )

pub Holds-size : (b : Buffer) (q : Bytes) → Holds b q → b.write_pos ≡ b.read_pos + length q
Holds-size b q (straight pre post e r w v) = omega arith
Holds-size b q (wrapped tail gap head e f r w v) = omega (
  arith,
  ap length e,
  length-append tail (gap ++ head),
  length-append gap head,
  ap length f,
  length-append head tail,
)

pub Holds-IsBuffer : (b : Buffer) (q : Bytes) → Holds b q → IsBuffer b
Holds-IsBuffer b q (straight pre post e r w v) = v
Holds-IsBuffer b q (wrapped tail gap head e f r w v) = v

pub at_zero : (b : Buffer) → Holds (record b { read_pos = 0; write_pos = 0 }) []
at_zero b =
    straight [] b.impl refl refl refl
      (record { ordered = omega arith; bounded = omega arith; inside = inl refl })

reset-Holds : (b : Buffer) (q : Bytes) → Holds b q → Holds (reset b) q × ((reset b).impl ≡ b.impl)
unfolding reset
reset-Holds b q h = elim (Bool-cases (b.read_pos == b.write_pos)) [
  | inl e ↦
      let none_left : q ≡ [] = length_zero q (ground (arith, Holds-size b q h)) in
      rw (e, none_left) (at_zero b, refl)
  | inr e ↦ rw e (h, refl)
]

wrap-Holds :
    (b : Buffer) (q : Bytes) (n : ℕ)
    → Holds b q
    → n ≤ length q
    → Holds (wrap (record b { read_pos = b.read_pos + n })) (drop n q)
      × ((wrap (record b { read_pos = b.read_pos + n })).impl ≡ b.impl)
unfolding wrap
wrap-Holds b q n (straight pre post e r w v) fits =
    let size : length b.impl ≡ length pre + (length q + length post) =
      ap length e
      ∙ length-append pre (q ++ post)
      ∙ ap (λ (t : ℕ). length pre + t) (length-append q post) in
    elim (Bool-cases (leb (length b.impl) (b.read_pos + n))) [
      | inl over ↦
          let all : drop n q ≡ [] =
            (take_all n q (ground (arith, v.inside, v.ordered, v.bounded))).1 in
          let p : b.read_pos + n - length b.impl ≡ 0 = ground arith in
          let t : b.write_pos - length b.impl ≡ 0 = ground arith in
          rw (over, all, p, t) (at_zero b, refl)
      | inr inner ↦
          let cut : b.impl ≡ (pre ++ take n q) ++ (drop n q ++ post) =
            e
            ∙ ap (λ (t : Bytes). pre ++ (t ++ post)) (sym (take-append-drop n q))
            ∙ simp append_assoc refl in
          rw inner (
            straight (pre ++ take n q) post cut
                (omega (arith, r, length-append pre (take n q), length-take n q))
                (omega (arith, w, length-append pre (take n q), length-take n q, length-drop n q))
                (record {
                  ordered = omega arith;
                  bounded = omega (arith, v.bounded);
                  inside = inr (ground arith);
                }),
            refl,
          )
    ]
wrap-Holds b q n (wrapped tail gap head e f r w v) fits =
    let size : length b.impl ≡ length tail + (length gap + length head) =
      ap length e
      ∙ length-append tail (gap ++ head)
      ∙ ap (λ (t : ℕ). length tail + t) (length-append gap head) in
    let held : length q ≡ length head + length tail = ap length f ∙ length-append head tail in
    elim (Bool-cases (leb (length b.impl) (b.read_pos + n))) [
      | inl over ↦
          let m = n - length head in
          let p : b.read_pos + n - length b.impl ≡ m = ground arith in
          let t : b.write_pos - length b.impl ≡ length tail = ground arith in
          let back : n ≡ length head + m = ground arith in
          let left : drop n q ≡ drop m tail = ap₂ drop back f ∙ drop-length_add head tail m in
          let cut : b.impl ≡ take m tail ++ (drop m tail ++ (gap ++ head)) =
            e
            ∙ ap (λ (t : Bytes). t ++ (gap ++ head)) (sym (take-append-drop m tail))
            ∙ append_assoc (take m tail) (drop m tail) (gap ++ head) in
          rw (over, left, p, t)
            (
              straight (take m tail) (gap ++ head) cut (omega (arith, length-take m tail))
                  (omega (arith, length-take m tail, length-drop m tail))
                  (record {
                    ordered = omega arith;
                    bounded = omega arith;
                    inside = elim (Bool-cases (m == 0)) [
                      | inl z ↦ inl (ground arith)
                      | inr nz ↦ inr (ground (arith, v.inside))
                    ];
                  }),
              refl,
            )
      | inr inner ↦
          let cut : b.impl ≡ tail ++ ((gap ++ take n head) ++ drop n head) =
            e
            ∙ ap (λ (t : Bytes). tail ++ (gap ++ t)) (sym (take-append-drop n head))
            ∙ simp append_assoc refl in
          let short : n ≤ length head = ground arith in
          rw inner (
            wrapped tail (gap ++ take n head) (drop n head) cut
                (ap (drop n) f ∙ drop-append n head tail short)
                (omega (arith, r, length-append gap (take n head), length-take n head)) w
                (record {
                  ordered = ground arith;
                  bounded = omega (arith, v.bounded);
                  inside = inr (ground arith);
                }),
            refl,
          )
    ]

-- Bytes that are held may be taken from the front.
pub did_read-Holds :
    (b : Buffer) (q : Bytes) (n : ℕ)
    → Holds b q
    → n ≤ length q
    → (r : Buffer) × (did_read b n ≡ ok r) × Holds r (drop n q) × (r.impl ≡ b.impl)
unfolding did_read
did_read-Holds b q n h fits =
    let (w, same) = wrap-Holds b q n h fits in
    let (u, kept) = reset-Holds _ (drop n q) w in
    (_, ground (arith, Holds-size b q h), u, kept ∙ same)
