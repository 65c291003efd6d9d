-- ===== src/Streams/Contract.antt =====
-- What a stream of include/crab/streams.hpp promises, and what its callers get from it.
use mathlib.Core.Path.{subst}
use crablib.Base.{
  ℕ, zero, suc, ◌+◌, ◌-◌, ◌≤◌, ◌<◌, ◌≡◌, refl, sym, ap, ◌∙◌, ◌⊎◌, inl, inr, Bool, true, false,
  Option, none, some, [], ◌++◌, append-nil, append_assoc, arith, leb, ◌==◌, if◌then◌else◌,
  Bool-cases, ok, throw, Bytes, length, take, drop, length-append, length-take, length-drop,
  take-append-drop, drop-drop, take_two, length_zero,
}
use crablib.Streams.{IStream, OStream, read_loop, read, write_loop, write}

-- A finite stream gives its bytes in order, as many as asked for at most, and none only if
-- none is asked for or left.
pub record IsIStream {S : Type 0} (stream : IStream S) (contents : S → Bytes) (Valid : S → Type 0)
    : Type 0 where
  pub reads :
      (s : S) (count : ℕ)
      → Valid s
      → (n : ℕ) × (r : S) × (stream.read_some s count ≡ ok (take n (contents s), r))
        × (contents r ≡ drop n (contents s))
        × Valid r
        × (n ≤ count)
        × (n ≤ length (contents s))
        × (n ≡ 0 → (count ≡ 0) ⊎ (contents s ≡ []))

-- As many bytes fit behind those that a stream has taken; `none` is no limit.
abbrev pub Fits : ℕ → Option ℕ → Type 0
Fits n none = Unit
Fits n (some l) = n ≤ l

abbrev pub fits : ℕ → Option ℕ → Bool
fits n none = true
fits n (some l) = leb n l

fits-Fits : (n : ℕ) (limit : Option ℕ) → fits n limit ≡ true → Fits n limit
fits-Fits n none e = tt
fits-Fits n (some l) e = ground arith

not_fits : (n : ℕ) (limit : Option ℕ) → fits n limit ≡ false → (l : ℕ) × (limit ≡ some l) × (l < n)
not_fits n none e = absurd (cc)
not_fits n (some l) e = (l, refl, ground arith)

-- A stream puts the first bytes of what it is given behind those it has taken, and takes none
-- only if none is given or it is full.
pub record IsOStream {S : Type 0} (stream : OStream S) (contents : S → Bytes) (limit : S → Option ℕ)
    (Valid : S → Type 0) : Type 0 where
  pub writes :
      (s : S) (val : Bytes)
      → Valid s
      → (n : ℕ) × (r : S) × (stream.write_some s val ≡ ok (n, r))
        × (contents r ≡ contents s ++ take n val)
        × Valid r
        × (n ≤ length val)
        × (limit r ≡ limit s)
        × ((l : ℕ) → limit s ≡ some l → length (contents s) ≤ l)
        × (n ≡ 0 → (val ≡ []) ⊎ (limit s ≡ some (length (contents s))))

module _ {S : Type 0} (stream : IStream S) (contents : S → Bytes) (Valid : S → Type 0)
    (promise : IsIStream stream contents Valid) where
  read_loop_lem :
      (rounds count : ℕ) (s : S)
      → count < rounds
      → Valid s
      → count ≤ length (contents s)
      → (r : S) × (read_loop stream rounds s count ≡ some (ok (take count (contents s), r)))
        × (contents r ≡ drop count (contents s))
        × Valid r
  unfolding read_loop
  read_loop_lem zero count s f v b = absurd (omega arith)
  read_loop_lem (suc k) count s f v b = elim (Bool-cases (count == 0)) [
    | inl none_asked ↦ let z : count ≡ 0 = ground arith in rw (none_asked, z) (s, refl, refl, v)
    | inr some_asked ↦
        let (n, t, e, left, u, le, lt, stuck) = promise.reads s count v in
        let len : length (take n (contents s)) ≡ n = omega (arith, length-take n (contents s)) in
        let moved : (n == 0) ≡ false = ground arith in
        let back : n + (count - n) ≡ count = omega arith in
        let (r, g, after, w) =
          read_loop_lem k (count - n) t (ground arith) u
            (omega (arith, ap length left, length-drop n (contents s))) in
        let both : take n (contents s) ++ take (count - n) (contents t) ≡ take count (contents s) =
          ap (λ (z : Bytes). take n (contents s) ++ take (count - n) z) left
          ∙ take_two n (count - n) (contents s)
          ∙ ap (λ (z : ℕ). take z (contents s)) back in
        rw (some_asked, e, len, moved, g)
          (
            r,
            ap (λ (z : Bytes). some (ok (z, r))) both,
            after
                ∙ ap (drop (count - n)) left
                ∙ drop-drop (count - n) n (contents s)
                ∙ ap (λ (z : ℕ). drop z (contents s)) back,
            w,
          )
  ]

  read_loop_short :
      (rounds count : ℕ) (s : S)
      → count < rounds
      → Valid s
      → length (contents s) < count
      → read_loop stream rounds s count ≡ some (throw "crab::IStream reading from empty stream")
  unfolding read_loop
  read_loop_short zero count s f v b = absurd (omega arith)
  read_loop_short (suc k) count s f v b =
      let asked : (count == 0) ≡ false = ground arith in
      let (n, t, e, left, u, le, lt, stuck) = promise.reads s count v in
      let len : length (take n (contents s)) ≡ n = omega (arith, length-take n (contents s)) in
      elim (Bool-cases (n == 0)) [
        | inl stop ↦ rw (asked, e, len, stop) refl
        | inr moved ↦
            let g =
              read_loop_short k (count - n) t (ground arith) u
                (ground (arith, ap length left, length-drop n (contents s))) in
            rw (asked, e, len, moved, g) refl
      ]

  -- read gives as many bytes as asked for, in order, or throws where there are fewer.
  pub read_lem :
      (s : S) (count : ℕ)
      → Valid s
      → (count ≤ length (contents s)
          → (r : S) × (read stream s count ≡ some (ok (take count (contents s), r)))
            × (contents r ≡ drop count (contents s))
            × Valid r)
        × (length (contents s) < count
            → read stream s count ≡ some (throw "crab::IStream reading from empty stream"))
  unfolding read
  read_lem s count v = (
    (λ b. read_loop_lem (count + 1) count s (omega arith) v b),
    λ b. read_loop_short (count + 1) count s (omega arith) v b,
  )

  -- IStream::read, on a stream that keeps IStream's promise, always ends: it gives the bytes asked
  -- for, in order, and leaves the rest, if there are as many, and throws if there are fewer.
  pub read-contents :
      (s : S) (count : ℕ)
      → Valid s
      → let enough = leb count (length (contents s)) in
        (r : S) × Valid r
        × (contents r ≡ (if enough then drop count (contents s) else contents s))
        × (read stream s count
            ≡ some (
                if enough
                then ok (take count (contents s), r)
                else throw "crab::IStream reading from empty stream"))
  read-contents s count v =
      let (there, short) = read_lem s count v in
      elim (Bool-cases (leb count (length (contents s)))) [
        | inl e ↦ let (r, g, after, w) = there (ground arith) in (r, w, rw e after, rw (e, g) refl)
        | inr e ↦ (s, v, rw e refl, rw (e, short (ground arith)) refl)
      ]

module _ {S : Type 0} (stream : OStream S) (contents : S → Bytes) (limit : S → Option ℕ)
    (Valid : S → Type 0) (promise : IsOStream stream contents limit Valid) where
  write_loop_lem :
      (rounds : ℕ) (val : Bytes) (s : S)
      → length val < rounds
      → Valid s
      → Fits (length (contents s) + length val) (limit s)
      → (r : S) × (write_loop stream rounds s val ≡ some (ok r))
        × (contents r ≡ contents s ++ val)
        × Valid r
  unfolding write_loop
  write_loop_lem zero val s f v b = absurd (omega arith)
  write_loop_lem (suc k) val s f v b = elim (Bool-cases (length val == 0)) [
    | inl none_given ↦ rw none_given (
      s,
      refl,
      sym (ap (◌++◌ (contents s)) (length_zero val (ground arith)) ∙ append-nil (contents s)),
      v,
    )
    | inr given ↦
        let (n, t, e, put, u, le, same, room, stuck) = promise.writes s val v in
        let moved : (n == 0) ≡ false = elim (Bool-cases (n == 0)) as (λ _. (n == 0) ≡ false) [
          | inl z ↦ elim (stuck (ground arith)) [
            | inl p ↦ absurd (ground (arith, ap length p))
            | inr p ↦ absurd (
                let room_left : length (contents s) + length val ≤ length (contents s) =
                  subst (λ (z : Option ℕ). Fits (length (contents s) + length val) z) p b in
                ground arith)
          ]
          | inr p ↦ p
        ] in
        let (r, g, after, w) =
          write_loop_lem k (drop n val) t (ground (arith, length-drop n val)) u (
            subst (λ (z : Option ℕ). Fits (length (contents t) + length (drop n val)) z) (sym same)
              (subst (λ (z : ℕ). Fits z (limit s))
                (omega (
                  arith,
                  ap length put,
                  length-append (contents s) (take n val),
                  length-take n val,
                  length-drop n val,
                ))
                b)) in
        rw (given, e, moved, g)
          (
            r,
            refl,
            after
                ∙ ap (λ (z : Bytes). z ++ drop n val) put
                ∙ append_assoc (contents s) (take n val) (drop n val)
                ∙ ap (◌++◌ (contents s)) (take-append-drop n val),
            w,
          )
  ]

  write_loop_throws :
      (rounds l : ℕ) (val : Bytes) (s : S)
      → length val < rounds
      → Valid s
      → limit s ≡ some l
      → l < length (contents s) + length val
      → write_loop stream rounds s val ≡ some (throw "crab::OStream writing to full stream")
  unfolding write_loop
  write_loop_throws zero l val s f v bound b = absurd (omega arith)
  write_loop_throws (suc k) l val s f v bound b =
      let (n, t, e, put, u, le, same, room, stuck) = promise.writes s val v in
      let given : (length val == 0) ≡ false = ground (arith, room l bound) in
      elim (Bool-cases (n == 0)) [
        | inl stop ↦ rw (given, e, stop) refl
        | inr moved ↦
            let g =
              write_loop_throws k l (drop n val) t (ground (arith, length-drop n val)) u
                (same ∙ bound)
                (omega (
                  arith,
                  ap length put,
                  length-append (contents s) (take n val),
                  length-take n val,
                  length-drop n val,
                )) in
            rw (given, e, moved, g) refl
      ]

  -- write puts all bytes behind those taken before, or throws where they do not fit.
  pub write_lem :
      (s : S) (val : Bytes)
      → Valid s
      → (Fits (length (contents s) + length val) (limit s)
          → (r : S) × (write stream s val ≡ some (ok r))
            × (contents r ≡ contents s ++ val)
            × Valid r)
        × ((l : ℕ)
            → limit s ≡ some l
            → l < length (contents s) + length val
            → write stream s val ≡ some (throw "crab::OStream writing to full stream"))
  unfolding write
  write_lem s val v = (
    (λ b. write_loop_lem (length val + 1) val s (omega arith) v b),
    λ l e b. write_loop_throws (length val + 1) l val s (omega arith) v e b,
  )

  -- OStream::write, on a stream that keeps OStream's promise, always ends: all bytes given stand
  -- behind those the stream had, if its limit allows for them, and it throws if not.
  pub write-contents :
      (s : S) (val : Bytes)
      → Valid s
      → let there = fits (length (contents s) + length val) (limit s) in
        (r : S) × Valid r
        × (contents r ≡ (if there then contents s ++ val else contents s))
        × (write stream s val
            ≡ some (if there then ok r else throw "crab::OStream writing to full stream"))
  write-contents s val v =
      let (there, full) = write_lem s val v in
      elim (Bool-cases (fits (length (contents s) + length val) (limit s))) [
        | inl e ↦
            let (r, g, after, w) = there (fits-Fits _ (limit s) e) in
            (r, w, rw e after, rw (e, g) refl)
        | inr e ↦
            let (l, bound, over) = not_fits _ (limit s) e in
            (s, v, rw e refl, rw (e, full l bound over) refl)
      ]
