-- ===== src/Streams/Buffer/Parts.antt =====
-- A Buffer of include/crab/streams.hpp as the parts of its memory, and the bytes it holds.
use crablib.Base.{
  ℕ, ◌+◌, ◌-◌, ◌≤◌, ◌<◌, ◌≡◌, refl, sym, ap, ap₂, ◌∙◌, ◌⊎◌, inl, inr, true, [], ◌++◌, append-nil,
  arith, leb, if◌then◌else◌, Bool-cases, Bytes, length, take, drop, length-append, length-take,
  length-drop, take-append-drop, drop-length_add, take_all, take-length, drop-length, drop-drop,
  length_zero,
}
use crablib.Streams.Buffer.{Buffer}

-- What the buffer holds: the bytes behind `read_pos`, and then those at the start of the memory.
unfoldable pub content : Buffer → Bytes
content b =
    if leb b.write_pos (length b.impl)
    then take (b.write_pos - b.read_pos) (drop b.read_pos b.impl)
    else drop b.read_pos b.impl ++ take (b.write_pos - length b.impl) b.impl

-- The positions are in order, and the first one is inside the memory.
pub record IsBuffer (b : Buffer) : Type 0 where
  pub ordered : b.read_pos ≤ b.write_pos
  pub bounded : b.write_pos ≤ b.read_pos + length b.impl
  pub inside : (b.read_pos ≡ 0) ⊎ (b.read_pos < length b.impl)

-- The memory cut into its parts: `q` is what the buffer holds.
pub data Holds (b : Buffer) (q : Bytes) : Type 0 where
  straight :
      (pre post : Bytes)
      → b.impl ≡ pre ++ (q ++ post)
      → b.read_pos ≡ length pre
      → b.write_pos ≡ length pre + length q
      → IsBuffer b
      → Holds b q
  wrapped :
      (tail gap head : Bytes)
      → b.impl ≡ tail ++ (gap ++ head)
      → q ≡ head ++ tail
      → b.read_pos ≡ length tail + length gap
      → b.write_pos ≡ length b.impl + length tail
      → IsBuffer b
      → Holds b q

pub Holds-content : (b : Buffer) (q : Bytes) → Holds b q → content b ≡ q
unfolding content
Holds-content b q (straight pre post e r w v) =
    let n : length b.impl ≡ length pre + (length q + length post) =
      ap length e
      ∙ length-append pre (q ++ post)
      ∙ ap (λ (t : ℕ). length pre + t) (length-append q post) in
    let inner : leb b.write_pos (length b.impl) ≡ true = ground arith in
    let d : drop b.read_pos b.impl ≡ q ++ post = ap₂ drop r e ∙ drop-length pre (q ++ post) in
    let t : b.write_pos - b.read_pos ≡ length q = omega arith in
    rw (inner, d, t) (take-length q post)
Holds-content b q (wrapped tail gap head e f r w v) =
    let n : length b.impl ≡ length tail + (length gap + length head) =
      ap length e
      ∙ length-append tail (gap ++ head)
      ∙ ap (λ (t : ℕ). length tail + t) (length-append gap head) in
    let d : drop b.read_pos b.impl ≡ head =
      ap₂ drop r e ∙ drop-length_add tail (gap ++ head) (length gap) ∙ drop-length gap head in
    elim (Bool-cases (leb b.write_pos (length b.impl))) [
      | inl inner ↦
          let none_left : tail ≡ [] = length_zero tail (ground arith) in
          let t : b.write_pos - b.read_pos ≡ length head = ground arith in
          rw (inner, d, t, f, none_left)
            ((take_all (length head) head (omega arith)).0 ∙ sym (append-nil head))
      | inr outer ↦
          let t : b.write_pos - length b.impl ≡ length tail = ground arith in
          let p : take (length tail) b.impl ≡ tail =
            ap (take (length tail)) e ∙ take-length tail (gap ++ head) in
          rw (outer, d, t, p) (sym f)
    ]

pub content-Holds : (b : Buffer) → IsBuffer b → Holds b (content b)
unfolding content
content-Holds b v =
    let n = length b.impl in
    elim (Bool-cases (leb b.write_pos n)) [
      | inl inner ↦
          let d = length-drop b.read_pos b.impl in
          let held = take (b.write_pos - b.read_pos) (drop b.read_pos b.impl) in
          rw inner (
            straight (take b.read_pos b.impl)
              (drop (b.write_pos - b.read_pos) (drop b.read_pos b.impl))
              (sym (
                ap (◌++◌ (take b.read_pos b.impl))
                  (take-append-drop (b.write_pos - b.read_pos) (drop b.read_pos b.impl))
                ∙ take-append-drop b.read_pos b.impl))
              (ground (arith, length-take b.read_pos b.impl, v.inside))
              (ground (
                arith,
                length-take b.read_pos b.impl,
                length-take (b.write_pos - b.read_pos) (drop b.read_pos b.impl),
                d,
              ))
              v)
      | inr outer ↦
          let over = b.write_pos - n in
          let rest : drop b.read_pos b.impl ≡ drop (b.read_pos - over) (drop over b.impl) = sym (
            drop-drop (b.read_pos - over) over b.impl
            ∙ ap (λ (t : ℕ). drop t b.impl) (ground arith)) in
          rw outer (
            wrapped (take over b.impl) (take (b.read_pos - over) (drop over b.impl))
              (drop b.read_pos b.impl)
              (sym (
                ap
                  (λ (t : Bytes).
                    take over b.impl ++ (take (b.read_pos - over) (drop over b.impl) ++ t))
                  rest
                ∙ ap (◌++◌ (take over b.impl))
                    (take-append-drop (b.read_pos - over) (drop over b.impl))
                ∙ take-append-drop over b.impl))
              refl
              (ground (
                arith,
                length-take over b.impl,
                length-take (b.read_pos - over) (drop over b.impl),
                length-drop over b.impl,
              ))
              (ground (arith, length-take over b.impl)) v)
    ]
