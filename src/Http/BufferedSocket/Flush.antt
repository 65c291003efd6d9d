-- ===== src/Http/BufferedSocket/Flush.antt =====
-- BufferedTCPSocket::write() of include/crab/http/connection.hxx: the streams that wait are sent.
use crablib.Base.{
  ℕ, zero, suc, ◌+◌, ◌-◌, ◌≤◌, ◌<◌, min, ◌≡◌, refl, sym, ap, ap₂, ◌∙◌, inl, inr, Bool, not, ◌&&◌,
  some, List, [], ◌∷◌, ◌++◌, append-nil, append_assoc, arith, ◌==◌, Bool-cases, ok, Bytes, length,
  take, drop, length-append, length-take, length-drop, drop-drop, take_two, take-take, length_zero,
}
use crablib.Streams.Vector
use crablib.Streams.Vector.{VectorStream}
use crablib.Http.BufferedSocket.{
  TcpSocket, BufferedTcpSocket, is_empty, max_size, flush_loop, send_shutdown, finish, flush,
}
use crablib.Http.BufferedSocket.Pending.{
  StaysOrCloses, IsTcpSocket, StaysOrCloses-then, pending, AllInside, keep_order, IsBuffered,
  accepted,
}

module _ {S : Type 0} (net : TcpSocket S) (sent : S → Bytes) (promise : IsTcpSocket net sent) where
  write_to_loop_sends :
      (rounds max total : ℕ) (x : VectorStream) (s : S)
      → Vector.size x < rounds
      → Vector.IsInside x
      → (n : ℕ) × (y : VectorStream) × (t : S) × (Vector.write_to_loop net.stream rounds x s max
            total
          ≡ some (ok (total + n, y, t)))
        × Vector.IsInside y
        × (n ≤ Vector.size x)
        × (sent t ≡ sent s ++ take n (Vector.contents x))
        × (Vector.contents y ≡ drop n (Vector.contents x))
        × StaysOrCloses (net.is_open s) (net.is_open t)
  unfolding Vector.write_to_loop Vector.size Vector.contents
  write_to_loop_sends zero max total x s f v = absurd (omega arith)
  write_to_loop_sends (suc k) max total x s f v =
      let rc = min (Vector.size x) max in
      let whole = drop x.read_pos x.impl in
      elim (Bool-cases (rc == 0)) [
        | inl over ↦ rw over (
          0,
          x,
          s,
          ap (λ (m : ℕ). some (ok (m, x, s))) {y = total + 0} (omega arith),
          v,
          omega arith,
          sym (append-nil (sent s)),
          refl,
          inl refl,
        )
        | inr more ↦
            let (n, t, e, le, put, opened) = promise.writes s (take rc whole) in
            let len : n ≤ rc = omega (arith, length-take rc whole) in
            let room = length-drop x.read_pos x.impl in
            let y : VectorStream = record x { read_pos = x.read_pos + n } in
            let put' : sent t ≡ sent s ++ take n whole =
              put ∙ ap (◌++◌ (sent s)) (take-take n rc whole len) in
            let left : drop (x.read_pos + n) x.impl ≡ drop n whole =
              sym (drop-drop n x.read_pos x.impl) in
            elim (Bool-cases (n == 0)) [
              | inl stop ↦
                  rw (more, e, stop)
                    (n, y, t, refl, omega (arith, v), omega arith, put', left, opened)
              | inr moved ↦
                  let (n2, z, t2, g, w, fits, put2, left2, opened2) =
                    write_to_loop_sends k (max - n) (total + n) y t
                      (unfold Vector.size in ground arith) (omega (arith, v)) in
                  rw (more, e, moved, g)
                    (
                      n + n2,
                      z,
                      t2,
                      ap (λ (m : ℕ). some (ok (m, z, t2))) {x = total + n + n2}
                          {y = total + (n + n2)} (omega arith),
                      w,
                      omega (arith, fits),
                      put2
                          ∙ ap₂ (λ (a b : Bytes). a ++ take n2 b) put' left
                          ∙ append_assoc (sent s) (take n whole) (take n2 (drop n whole))
                          ∙ ap (◌++◌ (sent s)) (take_two n n2 whole),
                      left2 ∙ ap (drop n2) left ∙ drop-drop n2 n whole,
                      StaysOrCloses-then _ _ _ opened opened2,
                    )
            ]
      ]

  front_sends :
      (x : VectorStream) (s : S)
      → Vector.IsInside x
      → (n : ℕ) × (y : VectorStream) × (t : S) × (Vector.write_to net.stream x s max_size
          ≡ some (ok (n, y, t)))
        × Vector.IsInside y
        × (n ≤ length (Vector.contents x))
        × (sent t ≡ sent s ++ take n (Vector.contents x))
        × (Vector.contents y ≡ drop n (Vector.contents x))
        × StaysOrCloses (net.is_open s) (net.is_open t)
  unfolding Vector.write_to Vector.size Vector.contents
  front_sends x s v =
      let (n, y, t, e, w, le, put, left, rest) =
        write_to_loop_sends (Vector.size x + 1) max_size 0 x s (omega arith) v in
      (
        n,
        y,
        t,
        e ∙ ap (λ (m : ℕ). some (ok (m, y, t))) {x = 0 + n} {y = n} (omega arith),
        w,
        omega (arith, le, length-drop x.read_pos x.impl),
        put,
        left,
        rest,
      )

  -- What flush_loop leaves, from the streams `xs` and the socket `s`.
  record Flushed (xs : List VectorStream) (s : S) (ys : List VectorStream) (total : ℕ) (t : S)
      : Type 0 where
    streams : AllInside ys
    counted : total ≡ length (pending ys)
    order : sent t ++ pending ys ≡ sent s ++ pending xs
    opens : StaysOrCloses (net.is_open s) (net.is_open t)

  flush_loop_lem :
      (xs : List VectorStream) (total : ℕ) (s : S)
      → AllInside xs
      → total ≡ length (pending xs)
      → (ys : List VectorStream) × (rest : ℕ) × (t : S) × (flush_loop net xs total s
          ≡ some (ok (ys, rest, t)))
        × Flushed xs s ys rest t
  unfolding flush_loop
  flush_loop_lem [] total s v e =
      ([], total, s, refl, record { streams = v; counted = e; order = refl; opens = inl refl })
  flush_loop_lem (x ∷ xs) total s v e =
      let (n, y, t, g, w, le, put, left, opens) = front_sends x s v.0 in
      let sizes : total ≡ length (Vector.contents x) + length (pending xs) =
        e ∙ length-append (Vector.contents x) (pending xs) in
      let rest : length (Vector.contents y) ≡ length (Vector.contents x) - n =
        ap length left ∙ length-drop n (Vector.contents x) in
      elim (Bool-cases (Vector.size y == 0)) [
        | inr more ↦
            rw (g, more)
              (
                y ∷ xs,
                total - n,
                t,
                refl,
                record {
                  streams = (w, v.1);
                  counted = omega (arith, rest, length-append (Vector.contents y) (pending xs));
                  order =
                      keep_order (sent s) (sent t) (Vector.contents x) (Vector.contents y)
                        (pending xs) n put left;
                  opens = opens;
                },
              )
        | inl done ↦
            let none_left : Vector.contents y ≡ [] =
              length_zero (Vector.contents y) (ground (arith, Vector.size-contents y)) in
            let (zs, rest_total, u, h, f) =
              flush_loop_lem xs (total - n) t v.1 (omega (arith, ap length none_left)) in
            rw (g, done, h)
              (
                zs,
                rest_total,
                u,
                refl,
                record {
                  streams = f.streams;
                  counted = f.counted;
                  order =
                      f.order
                      ∙ ap (λ (z : Bytes). sent t ++ (z ++ pending xs)) (sym none_left)
                      ∙ keep_order (sent s) (sent t) (Vector.contents x) (Vector.contents y)
                          (pending xs) n put left;
                  opens = StaysOrCloses-then _ _ _ opens f.opens;
                },
              )
      ]

  finish_lem :
      (was : Bool) (b : BufferedTcpSocket S)
      → IsBuffered b
      → IsBuffered (finish net was b)
        × (accepted sent (finish net was b) ≡ accepted sent b)
        × StaysOrCloses (net.is_open b.sock) (net.is_open (finish net was b).sock)
        × ((finish net was b).write_shutdown_asked ≡ b.write_shutdown_asked)
  unfolding finish send_shutdown
  finish_lem was b v =
      elim (Bool-cases (b.write_shutdown_asked && is_empty b.data_to_write && not was)) [
        | inl e ↦
            let (same, opens) = promise.shuts b.sock in
            rw e (
              record { streams = v.streams; counted = v.counted },
              ap (λ (z : Bytes). z ++ pending b.data_to_write) same,
              opens,
              refl,
            )
        | inr e ↦ rw e (v, refl, inl refl, refl)
      ]

  pub flush_lem :
      (b : BufferedTcpSocket S)
      → IsBuffered b
      → (r : BufferedTcpSocket S) × (flush net b ≡ some (ok r))
        × IsBuffered r
        × (accepted sent r ≡ accepted sent b)
        × StaysOrCloses (net.is_open b.sock) (net.is_open r.sock)
        × (r.write_shutdown_asked ≡ b.write_shutdown_asked)
  unfolding flush
  flush_lem b v =
      let (ys, total, t, e, f) =
        flush_loop_lem b.data_to_write b.total_data_to_write b.sock v.streams v.counted in
      let c : BufferedTcpSocket S = record b {
        data_to_write = ys;
        total_data_to_write = total;
        sock = t;
      } in
      let (w, same, opens, asked) =
        finish_lem (is_empty b.data_to_write) c
          (record { streams = f.streams; counted = f.counted }) in
      rw e (
        finish net (is_empty b.data_to_write) c,
        refl,
        w,
        same ∙ f.order,
        StaysOrCloses-then _ _ _ f.opens opens,
        asked,
      )
