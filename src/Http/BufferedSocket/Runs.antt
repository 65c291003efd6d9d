-- ===== src/Http/BufferedSocket/Runs.antt =====
-- A BufferedTCPSocket of include/crab/http/connection.hxx through any sequence of calls.
use mathlib.Core.Path.{subst}
use crablib.Base.{
  ℕ, ◌≤◌, ◌≡◌, refl, sym, ap, ap₂, ◌∙◌, ◌⊎◌, inl, inr, Bool, true, false, not, ◌&&◌, ◌||◌, some, [],
  ◌++◌, append-nil, append_assoc, arith, Bool-cases, ok, Bytes, length, take, drop,
  take-append-drop, take_all,
}
use crablib.Http.BufferedSocket.{
  TcpSocket, BufferedTcpSocket, BufferOptions, is_empty, send_shutdown, close, write, write_string,
  write_shutdown, sock_handler, shutdown_timer_handler,
}
use crablib.Http.BufferedSocket.Sent.{write-Took, write_string-Took}
use crablib.Http.BufferedSocket.Flush.{flush_lem}
use crablib.Http.BufferedSocket.Pending.{
  IsTcpSocket, StaysOrCloses, IsBuffered, IsOver, Took, accepted, pending,
}

module _ {S : Type 0} (net : TcpSocket S) (sent : S → Bytes) where
  -- A socket with nothing to write.
  abbrev pub fresh : S → BufferedTcpSocket S
  fresh s = record {
    sock = s;
    data_to_write = [];
    total_data_to_write = 0;
    write_shutdown_asked = false;
    shutdown_timer_is_set = false;
  }

  -- The states that calls and events lead to from a new connection, with all bytes of the calls
  -- to write, in order.
  pub data Run : BufferedTcpSocket S → Bytes → Type 0 where
    start : (s : S) → sent s ≡ [] → Run (fresh s) []
    wrote :
        {b r : BufferedTcpSocket S} {w : Bytes} (val : Bytes) (bo : BufferOptions)
        → Run b w
        → write net b val bo ≡ some (ok r)
        → Run r (w ++ val)
    wrote_string :
        {b r : BufferedTcpSocket S} {w : Bytes} (val : Bytes) (bo : BufferOptions)
        → Run b w
        → write_string net b val bo ≡ some (ok r)
        → Run r (w ++ val)
    shut : {b : BufferedTcpSocket S} {w : Bytes} → Run b w → Run (write_shutdown net b) w
    handled :
        {b r : BufferedTcpSocket S} {w : Bytes}
        → Run b w
        → sock_handler net b ≡ some (ok r)
        → Run r w
    timed_out :
        {b : BufferedTcpSocket S} {w : Bytes} → Run b w → Run (shutdown_timer_handler net b) w

  -- What was accepted is the front of what was written, and all of it while the socket is open
  -- and no shutdown was asked for.
  pub record Front (b : BufferedTcpSocket S) (w : Bytes) : Type 0 where
    pub valid : IsBuffered b
    pub lost : Bytes
    pub order : (sent b.sock ++ pending b.data_to_write) ++ lost ≡ w
    pub why : (lost ≡ []) ⊎ IsOver net b

same : {A : Type 0} (a b : A) → some (ok a) ≡ some (ok b) → a ≡ b
same a b e = ground (arith, e)

module _ {S : Type 0} (net : TcpSocket S) (sent : S → Bytes) (promise : IsTcpSocket net sent) where
  -- Bytes that were lost before leave none to be taken.
  Took-Front :
      (b r : BufferedTcpSocket S) (w val : Bytes) (k : ℕ)
      → Front net sent b w
      → Took net sent b val r k
      → Front net sent r (w ++ val)
  Took-Front b r w val k f t = elim f.why [
    | inl none_lost ↦ record {
      valid = t.valid;
      lost = drop k val;
      order =
          ap (λ (z : Bytes). z ++ drop k val) t.order
          ∙ append_assoc (accepted sent b) (take k val) (drop k val)
          ∙ ap₂ ◌++◌
              (sym (append-nil (accepted sent b))
                ∙ ap (◌++◌ (accepted sent b)) (sym none_lost)
                ∙ f.order)
              (take-append-drop k val);
      why = elim t.whole [
        | inl all ↦ inl (take_all k val (omega arith)).1
        | inr over ↦ elim over [ inl o ↦ inr (inl o) | inr a ↦ inr (inr (t.asked ∙ a)) ]
      ];
    }
    | inr over ↦ record {
      valid = t.valid;
      lost = f.lost ++ val;
      order =
          ap (λ (z : Bytes). z ++ (f.lost ++ val))
            (t.order
              ∙ ap (λ (n : ℕ). accepted sent b ++ take n val) (t.refused over)
              ∙ append-nil (accepted sent b))
          ∙ sym (append_assoc (accepted sent b) f.lost val)
          ∙ ap (λ (z : Bytes). z ++ val) f.order;
      why = elim over [
        | inl o ↦ inr (inl (elim t.opens [ inl s ↦ s ∙ o | inr s ↦ s ]))
        | inr a ↦ inr (inr (t.asked ∙ a))
      ];
    }
  ]

  -- Closing loses what was not sent.
  close_Front :
      (b : BufferedTcpSocket S) (w : Bytes) → Front net sent b w → Front net sent (close net b) w
  unfolding close
  close_Front b w f =
      let (same, off) = promise.closes b.sock in
      record {
        valid = record { streams = tt; counted = refl };
        lost = pending b.data_to_write ++ f.lost;
        order =
            ap (λ (z : Bytes). z ++ (pending b.data_to_write ++ f.lost))
              (append-nil (sent (net.close b.sock)) ∙ same)
            ∙ sym (append_assoc (sent b.sock) (pending b.data_to_write) f.lost)
            ∙ f.order;
        why = inr (inl off);
      }

  timeout_Front :
      (b : BufferedTcpSocket S) (w : Bytes)
      → Front net sent b w
      → Front net sent (shutdown_timer_handler net b) w
  unfolding shutdown_timer_handler
  timeout_Front b w f = close_Front b w f

  shut_Front :
      (b : BufferedTcpSocket S) (w : Bytes)
      → Front net sent b w
      → Front net sent (write_shutdown net b) w
  unfolding write_shutdown send_shutdown
  shut_Front b w f =
      let (same, opens) = promise.shuts b.sock in
      elim (Bool-cases (not (net.is_open b.sock) || b.write_shutdown_asked)) [
        | inl off ↦ rw off f
        | inr on ↦ elim (Bool-cases (is_empty b.data_to_write)) [
          | inr busy ↦
              rw (on, busy)
                (record {
                  valid = record { streams = f.valid.streams; counted = f.valid.counted };
                  lost = f.lost;
                  order = f.order;
                  why = inr (inr refl);
                })
          | inl idle ↦
              rw (on, idle)
                (record {
                  valid = record { streams = f.valid.streams; counted = f.valid.counted };
                  lost = f.lost;
                  order =
                      ap (λ (z : Bytes). (z ++ pending b.data_to_write) ++ f.lost) same ∙ f.order;
                  why = inr (inr refl);
                })
        ]
      ]

  handled_Front :
      (b : BufferedTcpSocket S) (w : Bytes)
      → Front net sent b w
      → (r : BufferedTcpSocket S) × (sock_handler net b ≡ some (ok r)) × Front net sent r w
  unfolding sock_handler
  handled_Front b w f = elim (Bool-cases (net.is_open b.sock)) [
    | inr off ↦ rw off (close net b, refl, close_Front b w f)
    | inl on ↦
        let (r, e, v, same, opens, asked) = flush_lem net sent promise b f.valid in
        let (still, opens2) = promise.receives r.sock 4096 in
        let over : (c : Bool)
            → StaysOrCloses (net.is_open r.sock) c
            → (f.lost ≡ []) ⊎ ((c ≡ false) ⊎ (r.write_shutdown_asked ≡ true)) =
          λ c o. elim f.why [
            | inl n ↦ inl n
            | inr why ↦ elim why [ inl off ↦ absurd (ground arith) | inr a ↦ inr (inr (asked ∙ a)) ]
          ] in
        elim (Bool-cases (r.write_shutdown_asked && is_empty r.data_to_write)) [
          | inr more ↦
              rw (on, e, more)
                (
                  r,
                  refl,
                  record {
                    valid = v;
                    lost = f.lost;
                    order = ap (λ (z : Bytes). z ++ f.lost) same ∙ f.order;
                    why = over (net.is_open r.sock) (inl refl);
                  },
                )
          | inl gone ↦
              rw (on, e, gone)
                (
                  record r { sock = (net.read_some r.sock 4096).1 },
                  refl,
                  record {
                    valid = record { streams = v.streams; counted = v.counted };
                    lost = f.lost;
                    order =
                        ap (λ (z : Bytes). (z ++ pending r.data_to_write) ++ f.lost) still
                        ∙ ap (λ (z : Bytes). z ++ f.lost) same
                        ∙ f.order;
                    why = over (net.is_open (net.read_some r.sock 4096).1) opens2;
                  },
                )
        ]
  ]

  Run-Front : {b : BufferedTcpSocket S} {w : Bytes} → Run net sent b w → Front net sent b w
  Run-Front (start s e) = record {
    valid = record { streams = tt; counted = refl };
    lost = [];
    order = append-nil (sent s ++ []) ∙ append-nil (sent s) ∙ e;
    why = inl refl;
  }
  Run-Front (wrote {b} {r} {w} val bo h e) =
      let f = Run-Front h in
      let (c, k, g, t) = write-Took net sent promise b val bo f.valid in
      subst (λ (z : BufferedTcpSocket S). Front net sent z (w ++ val)) (same c r (sym g ∙ e))
        (Took-Front b c w val k f t)
  Run-Front (wrote_string {b} {r} {w} val bo h e) =
      let f = Run-Front h in
      let (c, k, g, t) = write_string-Took net sent promise b val bo f.valid in
      subst (λ (z : BufferedTcpSocket S). Front net sent z (w ++ val)) (same c r (sym g ∙ e))
        (Took-Front b c w val k f t)
  Run-Front (shut {b} {w} h) = shut_Front b w (Run-Front h)
  Run-Front (handled {b} {r} {w} h e) =
      let (c, g, f) = handled_Front b w (Run-Front h) in
      subst (λ (z : BufferedTcpSocket S). Front net sent z w) (same c r (sym g ∙ e)) f
  Run-Front (timed_out {b} {w} h) = timeout_Front b w (Run-Front h)

  -- Through any calls of a BufferedTCPSocket's write, write_shutdown and handlers, over a socket
  -- that sends in order, may close and loses nothing before, the bytes given to the socket
  -- followed by those that wait are the front of all bytes of the calls to write, in order. They
  -- are all of them unless the socket is closed or a shutdown was asked for. total_data_to_write
  -- is the number of those that wait.
  pub Run-accepted :
      (b : BufferedTcpSocket S) (w : Bytes)
      → Run net sent b w
      → (lost : Bytes) × ((sent b.sock ++ pending b.data_to_write) ++ lost ≡ w)
        × ((lost ≡ []) ⊎ ((net.is_open b.sock ≡ false) ⊎ (b.write_shutdown_asked ≡ true)))
        × (b.total_data_to_write ≡ length (pending b.data_to_write))
  Run-accepted b w h = let f = Run-Front h in (f.lost, f.order, f.why, f.valid.counted)

  -- In every state of a BufferedTCPSocket that is so reached, write ends without an exception, at
  -- once or buffered. The bytes given to the socket followed by those that wait are those before
  -- followed by the first of the bytes written; they are all of these unless the socket is closed
  -- then or a shutdown was asked for before.
  pub Run-write :
      (b : BufferedTcpSocket S) (w val : Bytes) (bo : BufferOptions)
      → Run net sent b w
      → (r : BufferedTcpSocket S) × (k : ℕ) × (write net b val bo ≡ some (ok r))
        × (k ≤ length val)
        × (sent r.sock ++ pending r.data_to_write
            ≡ (sent b.sock ++ pending b.data_to_write) ++ take k val)
        × ((k ≡ length val) ⊎ ((net.is_open r.sock ≡ false) ⊎ (b.write_shutdown_asked ≡ true)))
  Run-write b w val bo h =
      let (r, k, e, t) = write-Took net sent promise b val bo (Run-Front h).valid in
      (r, k, e, t.part, t.order, t.whole)
