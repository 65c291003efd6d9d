-- ===== src/Streams/Buffer/Queue.antt =====
-- Buffer of include/crab/streams.hpp is a queue of bytes of bounded length.
use mathlib.Core.Path.{subst}
use crablib.Base.{
  ℕ, ◌+◌, ◌-◌, ◌≤◌, ◌<◌, min, ◌≡◌, refl, sym, ap, ap₂, ◌∙◌, inl, inr, none, some, [], ◌++◌, arith,
  ltb, leb, ◌==◌, if◌then◌else◌, Bool-cases, ok, Bytes, length, take, drop, length-append,
  length-take, take-length_add, drop-length_add, take_all, drop-length, take-append, length_zero,
}
use crablib.Streams.Buffer.{
  Buffer, new, size, capacity, full, read_count, write_count, write_ptr, did_read, did_write, store,
  load, read_some, write_some, peek,
}
use crablib.Streams.Buffer.Content.{Holds-size, Holds-IsBuffer, did_read-Holds, did_write-Holds}
use crablib.Streams.Buffer.Parts.{
  content, IsBuffer, Holds, straight, wrapped, Holds-content, content-Holds,
}

module _ (b : Buffer) (v : IsBuffer b) where
  pub size-content : size b ≡ length (content b)
  unfolding size
  size-content = omega (arith, Holds-size b (content b) (content-Holds b v))

  pub full-content : full b ≡ (length (content b) == capacity b)
  unfolding full capacity
  full-content = ground (arith, Holds-size b (content b) (content-Holds b v))

  -- Nothing can be read from an empty buffer only, and written to a full one only.
  pub read_count_zero : read_count b ≡ 0 → content b ≡ []
  unfolding read_count
  read_count_zero e =
      length_zero (content b) (
        ground
          (arith, Holds-size b (content b) (content-Holds b v), v.inside, v.ordered, v.bounded))

  pub write_count_zero : write_count b ≡ 0 → length (content b) ≡ capacity b
  unfolding write_count capacity
  write_count_zero e =
      ground (arith, Holds-size b (content b) (content-Holds b v), v.inside, v.ordered, v.bounded)

  pub read_count_le : read_count b ≤ length (content b)
  unfolding read_count
  read_count_le =
      ground (arith, Holds-size b (content b) (content-Holds b v), v.inside, v.ordered, v.bounded)

  pub write_count_le : length (content b) + write_count b ≤ capacity b
  unfolding write_count capacity
  write_count_le =
      ground (arith, Holds-size b (content b) (content-Holds b v), v.inside, v.ordered, v.bounded)

load_lem :
    (b : Buffer) (q : Bytes) (n : ℕ)
    → Holds b q
    → n ≤ read_count b
    → load b.impl b.read_pos n ≡ take n q
unfolding load read_count
load_lem b q n (straight pre post e r w v) fits =
    let d : drop b.read_pos b.impl ≡ q ++ post = ap₂ drop r e ∙ drop-length pre (q ++ post) in
    let size : length b.impl ≡ length pre + (length q + length post) =
      ap length e
      ∙ length-append pre (q ++ post)
      ∙ ap (λ (t : ℕ). length pre + t) (length-append q post) in
    rw d (take-append n q post (ground arith))
load_lem b q n (wrapped tail gap head e f r w v) fits =
    let d : drop b.read_pos b.impl ≡ head =
      ap₂ drop r e ∙ drop-length_add tail (gap ++ head) (length gap) ∙ drop-length gap head in
    let size : length b.impl ≡ length tail + (length gap + length head) =
      ap length e
      ∙ length-append tail (gap ++ head)
      ∙ ap (λ (t : ℕ). length tail + t) (length-append gap head) in
    rw (d, f) (sym (take-append n head tail (ground arith)))

-- Beyond the bytes in front of the memory's end, the ones at its start are read.
load_both :
    (b : Buffer) (q : Bytes) (n : ℕ)
    → Holds b q
    → read_count b < n
    → n ≤ length q
    → load b.impl b.read_pos (read_count b) ++ load b.impl 0 (n - read_count b) ≡ take n q
unfolding load read_count
load_both b q n (straight pre post e r w v) far fits =
    let size : length b.impl ≡ length pre + (length q + length post) =
      ap length e
      ∙ length-append pre (q ++ post)
      ∙ ap (λ (t : ℕ). length pre + t) (length-append q post) in
    absurd (ground arith)
load_both b q n (wrapped tail gap head e f r w v) far fits =
    let d : drop b.read_pos b.impl ≡ head =
      ap₂ drop r e ∙ drop-length_add tail (gap ++ head) (length gap) ∙ drop-length gap head in
    let size : length b.impl ≡ length tail + (length gap + length head) =
      ap length e
      ∙ length-append tail (gap ++ head)
      ∙ ap (λ (t : ℕ). length tail + t) (length-append gap head) in
    let held : length q ≡ length head + length tail = ap length f ∙ length-append head tail in
    let count : read_count b ≡ length head = unfold read_count in ground arith in
    let k = n - length head in
    let second : take k b.impl ≡ take k tail =
      ap (take k) e ∙ take-append k tail (gap ++ head) (omega arith) in
    let back : n ≡ length head + k = omega arith in
    let whole : take n q ≡ head ++ take k tail = ap₂ take back f ∙ take-length_add head tail k in
    rw (count, d, whole) (ap₂ ◌++◌ (take_all (length head) head (omega arith)).0 second)

-- The buffer `r` has the same capacity, and holds `q`.
pub record Became (b : Buffer) (q : Bytes) (r : Buffer) : Type 0 where
  pub valid : IsBuffer r
  pub same : capacity r ≡ capacity b
  pub bytes : content r ≡ q

Holds-Became : (b r : Buffer) (q : Bytes) → Holds r q → length r.impl ≡ length b.impl → Became b q r
unfolding capacity
Holds-Became b r q h e = record {
  valid = Holds-IsBuffer r q h;
  same = e;
  bytes = Holds-content r q h;
}

module _ (b : Buffer) (v : IsBuffer b) where
  pub did_read-Became :
      (n : ℕ)
      → n ≤ length (content b)
      → (r : Buffer) × (did_read b n ≡ ok r) × Became b (drop n (content b)) r
  did_read-Became n fits =
      let (r, e, h, same) = did_read-Holds b (content b) n (content-Holds b v) fits in
      (r, e, Holds-Became b r _ h (ap length same))

  pub did_write-Became :
      (val : Bytes)
      → length val ≤ write_count b
      → (r : Buffer) × (did_write (record b { impl = store b.impl (write_ptr b) val }) (length val)
          ≡ ok r)
        × Became b (content b ++ val) r
  did_write-Became val fits =
      let (r, e, h, same) = did_write-Holds b (content b) val (content-Holds b v) fits in
      (r, e, Holds-Became b r _ h same)

  pub load-content : (n : ℕ) → n ≤ read_count b → load b.impl b.read_pos n ≡ take n (content b)
  load-content n fits = load_lem b (content b) n (content-Holds b v) fits

  -- Buffer::read_some on a valid buffer never throws: it gives the first bytes held, as many as
  -- asked for or as lie in front of the memory's end, and leaves a valid buffer of the same
  -- capacity that holds the rest.
  pub read_some_lem :
      (count : ℕ)
      → let n = min count (read_count b) in
        (r : Buffer) × (read_some b count ≡ ok (take n (content b), r))
        × Became b (drop n (content b)) r
  unfolding read_some
  read_some_lem count =
      let n = min count (read_count b) in
      let (r, e, f) = did_read-Became n (omega (arith, read_count_le b v)) in
      rw (e, load-content n (omega arith)) (r, refl, f)

  -- Buffer::write_some on a valid buffer never throws: it takes the first bytes given, as many as
  -- lie free in one piece, and leaves a valid buffer of the same capacity that holds them behind
  -- what it held.
  pub write_some_lem :
      (val : Bytes)
      → let n = min (length val) (write_count b) in
        (r : Buffer) × (write_some b val ≡ ok (n, r)) × Became b (content b ++ take n val) r
  unfolding write_some
  write_some_lem val =
      let n = min (length val) (write_count b) in
      let t : length (take n val) ≡ n = omega (arith, length-take n val) in
      let (r, e, f) = did_write-Became (take n val) (omega arith) in
      let e' =
        subst
          (λ (k : ℕ).
            did_write (record b { impl = store b.impl (write_ptr b) (take n val) }) k ≡ ok r)
          t e in
      rw e' (r, refl, f)

  -- Buffer::peek on a valid buffer gives the first bytes held, as many as asked for, from both
  -- parts of the memory, and fails just where there are fewer.
  pub peek_lem :
      (count : ℕ)
      → peek b count
        ≡ (if leb count (length (content b)) then some (take count (content b)) else none)
  unfolding peek
  peek_lem count =
      let s = size-content b v in
      elim (Bool-cases (ltb (size b) count)) [
        | inl short ↦ ground arith
        | inr enough ↦ elim (Bool-cases (leb count (read_count b))) [
          | inl near ↦ ground (arith, load-content count)
          | inr far ↦ ground (arith, load_both b (content b) count (content-Holds b v))
        ]
      ]

-- A new buffer is empty.
pub new-IsBuffer : (si : ℕ) → IsBuffer (new si)
unfolding new
new-IsBuffer si = record { ordered = omega arith; bounded = omega arith; inside = inl refl }
