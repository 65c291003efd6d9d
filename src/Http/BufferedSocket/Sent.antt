-- ===== src/Http/BufferedSocket/Sent.antt =====
-- No byte that BufferedTCPSocket of include/crab/http/connection.hxx accepts is lost, sent twice
-- or out of order.
use crablib.Base.{
  ℕ, ◌+◌, ◌≤◌, ◌≡◌, refl, sym, ap, ◌∙◌, ◌⊎◌, inl, inr, Bool, true, false, not, ◌||◌, some, ◌++◌,
  append-nil, append_assoc, arith, ◌==◌, Bool-cases, ok, Bytes, length, take, drop, length-append,
  length-drop, take_all, take_two,
}
use crablib.Http.BufferedSocket.{
  TcpSocket, BufferedTcpSocket, BufferOptions, write_now, buffer_only, is_empty, buffer, flush,
  write, write_string,
}
use crablib.Http.BufferedSocket.Flush.{flush_lem}
use crablib.Http.BufferedSocket.Pending.{
  IsTcpSocket, StaysOrCloses, StaysOrCloses-then, pending, no_pending, push_back_lem, IsBuffered,
  accepted, Took,
}

module _ {S : Type 0} (net : TcpSocket S) (sent : S → Bytes) (promise : IsTcpSocket net sent) where
  nothing_taken :
      (b : BufferedTcpSocket S) (val : Bytes)
      → IsBuffered b
      → (length val ≡ 0) ⊎ ((net.is_open b.sock ≡ false) ⊎ (b.write_shutdown_asked ≡ true))
      → Took net sent b val b 0
  nothing_taken b val v why = record {
    valid = v;
    order = sym (append-nil (accepted sent b));
    part = omega arith;
    asked = refl;
    opens = inl refl;
    refused = λ _. refl;
    whole = elim why [ inl e ↦ inl (sym e) | inr e ↦ inr e ];
  }

  buffer_lem :
      (b : BufferedTcpSocket S) (val : Bytes)
      → IsBuffered b
      → (k : ℕ) × Took net sent b val (buffer net b val) k × ((buffer net b val).sock ≡ b.sock)
  unfolding buffer
  buffer_lem b val v =
      elim (Bool-cases (not (net.is_open b.sock) || b.write_shutdown_asked || length val == 0)) [
        | inl off ↦ rw off (
          0,
          nothing_taken b val v (why_off (net.is_open b.sock) b.write_shutdown_asked off),
          refl,
        )
        | inr on ↦
            let (w, e) = push_back_lem b.data_to_write val v.streams in
            let all = (take_all (length val) val (omega arith)).0 in
            rw on (
              length val,
              record {
                valid = record {
                  streams = w;
                  counted =
                      omega (
                        arith,
                        v.counted,
                        ap length e,
                        length-append (pending b.data_to_write) val,
                      );
                };
                order =
                    ap (◌++◌ (sent b.sock)) (e ∙ ap (◌++◌ (pending b.data_to_write)) (sym all))
                    ∙ sym (
                        append_assoc (sent b.sock) (pending b.data_to_write)
                          (take (length val) val));
                part = omega arith;
                whole = inl refl;
                asked = refl;
                opens = inl refl;
                refused = λ why. elim why [
                  | inl o ↦ absurd (ground arith)
                  | inr a ↦ absurd (ground arith)
                ];
              },
              refl,
            )
      ]
    where
      why_off :
          (o a : Bool)
          → (not o || a || length val == 0) ≡ true
          → (length val ≡ 0) ⊎ ((o ≡ false) ⊎ (a ≡ true))
      why_off o a e = ground arith

  -- Flushing afterwards changes nothing of this.
  flush-Took :
      (b c : BufferedTcpSocket S) (val : Bytes) (k : ℕ)
      → Took net sent b val c k
      → (r : BufferedTcpSocket S) × (flush net c ≡ some (ok r)) × Took net sent b val r k
  flush-Took b c val k t =
      let (r, e, v, same, opens, asked) = flush_lem net sent promise c t.valid in
      (
        r,
        e,
        record {
          valid = v;
          order = same ∙ t.order;
          part = t.part;
          asked = asked ∙ t.asked;
          opens = StaysOrCloses-then _ _ _ t.opens opens;
          refused = t.refused;
          whole = elim t.whole [
            | inl all ↦ inl all
            | inr why ↦ elim why [
              | inl off ↦ inr (inl (elim opens [ inl s ↦ s ∙ off | inr s ↦ s ]))
              | inr a ↦ inr (inr a)
            ]
          ];
        },
      )

  direct-Took :
      (b : BufferedTcpSocket S) (val : Bytes) (n m : ℕ) (t : S) (c : BufferedTcpSocket S)
      → IsBuffered b
      → (not (net.is_open b.sock) || b.write_shutdown_asked) ≡ false
      → StaysOrCloses (net.is_open b.sock) (net.is_open t)
      → is_empty b.data_to_write ≡ true
      → n ≤ length val
      → sent t ≡ sent b.sock ++ take n val
      → Took net sent (record b { sock = t }) (drop n val) c m
      → Took net sent b val c (n + m)
  direct-Took b val n m t c v on opens none_left le put k = record {
    valid = k.valid;
    order =
        let e = no_pending b.data_to_write none_left in
        k.order
        ∙ ap (λ (p : Bytes). (sent t ++ p) ++ take m (drop n val)) e
        ∙ ap (λ (z : Bytes). z ++ take m (drop n val)) (append-nil (sent t) ∙ put)
        ∙ append_assoc (sent b.sock) (take n val) (take m (drop n val))
        ∙ ap (◌++◌ (sent b.sock)) (take_two n m val)
        ∙ ap (λ (z : Bytes). z ++ take (n + m) val)
            (sym (append-nil (sent b.sock)) ∙ ap (◌++◌ (sent b.sock)) (sym e));
    part = omega (arith, k.part, length-drop n val);
    asked = k.asked;
    opens = StaysOrCloses-then _ _ _ opens k.opens;
    refused = λ why. absurd (elim why [ inl o ↦ ground arith | inr a ↦ ground arith ]);
    whole = elim k.whole [ inl all ↦ inl (omega (arith, length-drop n val)) | inr why ↦ inr why ];
  }

  pub write-Took :
      (b : BufferedTcpSocket S) (val : Bytes) (bo : BufferOptions)
      → IsBuffered b
      → (r : BufferedTcpSocket S) × (k : ℕ) × (write net b val bo ≡ some (ok r))
        × Took net sent b val r k
  unfolding write
  write-Took b val buffer_only v =
      let (k, t, s) = buffer_lem b val v in (buffer net b val, k, refl, t)
  write-Took b val write_now v =
      elim (Bool-cases (not (net.is_open b.sock) || b.write_shutdown_asked)) [
        | inl off ↦ rw off (
          b,
          0,
          refl,
          nothing_taken b val v (inr (why_off (net.is_open b.sock) b.write_shutdown_asked off)),
        )
        | inr on ↦ elim (Bool-cases (is_empty b.data_to_write)) [
          | inr busy ↦
              let (k, t, s) = buffer_lem b val v in
              let (r, e, u) = flush-Took b (buffer net b val) val k t in
              rw (on, busy, e) (r, k, refl, u)
          | inl idle ↦
              let (n, t, e, le, put, opens) = promise.writes b.sock val in
              let (m, k, s) =
                buffer_lem (record b { sock = t }) (drop n val)
                  (record { streams = v.streams; counted = v.counted }) in
              let (r, f, u) =
                flush-Took b (buffer net (record b { sock = t }) (drop n val)) val (n + m)
                  (direct-Took b val n m t _ v on opens idle le put k) in
              rw (on, idle, e, f) (r, n + m, refl, u)
        ]
      ]
    where
      why_off : (o a : Bool) → (not o || a) ≡ true → (o ≡ false) ⊎ (a ≡ true)
      why_off o a e = ground arith

  pub write_string-Took :
      (b : BufferedTcpSocket S) (val : Bytes) (bo : BufferOptions)
      → IsBuffered b
      → (r : BufferedTcpSocket S) × (k : ℕ) × (write_string net b val bo ≡ some (ok r))
        × Took net sent b val r k
  unfolding write_string
  write_string-Took b val buffer_only v =
      let (k, t, s) = buffer_lem b val v in (buffer net b val, k, refl, t)
  write_string-Took b val write_now v =
      let (k, t, s) = buffer_lem b val v in
      let (r, e, u) = flush-Took b (buffer net b val) val k t in (r, k, e, u)
