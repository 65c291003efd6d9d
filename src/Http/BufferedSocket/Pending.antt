-- ===== src/Http/BufferedSocket/Pending.antt =====
-- The bytes that wait in a BufferedTCPSocket of include/crab/http/connection.hxx, and what it
-- expects of its socket.
use crablib.Base.{
  ℕ, ◌≤◌, ◌≡◌, refl, sym, ap, ap₂, ◌∙◌, ◌⊎◌, inl, inr, Bool, true, false, ◌&&◌, List, [], ◌∷◌, ◌++◌,
  append-nil, append_assoc, arith, ltb, Bool-cases, ok, Bytes, length, take, drop, length-append,
  take-append-drop, drop-append,
}
use crablib.Streams.Vector
use crablib.Streams.Vector.{VectorStream}
use crablib.Http.BufferedSocket.{TcpSocket, BufferedTcpSocket, is_empty, push_back}

-- An open socket stays so, or is closed.
abbrev pub StaysOrCloses : Bool → Bool → Type 0
StaysOrCloses before now = (now ≡ before) ⊎ (now ≡ false)

-- A socket sends the first of the bytes it is given behind those it has sent, and may close.
pub record IsTcpSocket {S : Type 0} (net : TcpSocket S) (sent : S → Bytes) : Type 0 where
  pub writes :
      (s : S) (val : Bytes)
      → (n : ℕ) × (r : S) × (net.stream.write_some s val ≡ ok (n, r))
        × (n ≤ length val)
        × (sent r ≡ sent s ++ take n val)
        × StaysOrCloses (net.is_open s) (net.is_open r)
  pub shuts :
      (s : S)
      → (sent (net.write_shutdown s) ≡ sent s)
        × StaysOrCloses (net.is_open s) (net.is_open (net.write_shutdown s))
  pub closes : (s : S) → (sent (net.close s) ≡ sent s) × (net.is_open (net.close s) ≡ false)
  pub receives :
      (s : S) (count : ℕ)
      → (sent (net.read_some s count).1 ≡ sent s)
        × StaysOrCloses (net.is_open s) (net.is_open (net.read_some s count).1)

pub StaysOrCloses-then : (a b c : Bool) → StaysOrCloses a b → StaysOrCloses b c → StaysOrCloses a c
StaysOrCloses-then a b c (inl e) (inl f) = inl (f ∙ e)
StaysOrCloses-then a b c (inr e) (inl f) = inr (f ∙ e)
StaysOrCloses-then a b c _ (inr f) = inr f

-- The bytes in the streams, in order.
abbrev pub pending : List VectorStream → Bytes
pending [] = []
pending (x ∷ xs) = Vector.contents x ++ pending xs

abbrev pub AllInside : List VectorStream → Type 0
AllInside [] = Unit
AllInside (x ∷ xs) = Vector.IsInside x × AllInside xs

pub keep_order :
    (a b c d p : Bytes) (n : ℕ) → b ≡ a ++ take n c → d ≡ drop n c → b ++ (d ++ p) ≡ a ++ (c ++ p)
keep_order a b c d p n put left =
    ap₂ (λ (u w : Bytes). u ++ (w ++ p)) put left
    ∙ append_assoc a (take n c) (drop n c ++ p)
    ∙ ap (◌++◌ a) (
        sym (append_assoc (take n c) (drop n c) p)
        ∙ ap (λ (z : Bytes). z ++ p) (take-append-drop n c))

pub no_pending : (xs : List VectorStream) → is_empty xs ≡ true → pending xs ≡ []
no_pending [] e = refl
no_pending (x ∷ xs) e = absurd (cc)

pub push_back_lem :
    (xs : List VectorStream) (val : Bytes)
    → AllInside xs
    → AllInside (push_back xs val) × (pending (push_back xs val) ≡ pending xs ++ val)
unfolding push_back
push_back_lem [] val v = ((omega arith, tt), unfold Vector.contents in append-nil val)
push_back_lem (x ∷ []) val v =
    elim (Bool-cases (ltb (Vector.size x) 1024 && ltb (length val) 1024)) [
      | inl small ↦ rw small (
        (omega (arith, v.0, length-append x.impl val), tt),
        unfold Vector.contents in
            append-nil (drop x.read_pos (x.impl ++ val))
            ∙ drop-append x.read_pos x.impl val v.0
            ∙ ap (λ (z : Bytes). z ++ val) (sym (append-nil (drop x.read_pos x.impl))),
      )
      | inr large ↦ rw large (
        (v.0, (omega arith, tt)),
        unfold Vector.contents in
            ap (◌++◌ (drop x.read_pos x.impl)) (append-nil val)
            ∙ ap (λ (z : Bytes). z ++ val) (sym (append-nil (drop x.read_pos x.impl))),
      )
    ]
push_back_lem (x ∷ (y ∷ ys)) val v =
    let (w, e) = push_back_lem (y ∷ ys) val v.1 in
    (
      (v.0, w),
      ap (◌++◌ (Vector.contents x)) e
          ∙ sym (append_assoc (Vector.contents x) (pending (y ∷ ys)) val),
    )

-- The streams are whole and counted.
pub record IsBuffered {S : Type 0} (b : BufferedTcpSocket S) : Type 0 where
  pub streams : AllInside b.data_to_write
  pub counted : b.total_data_to_write ≡ length (pending b.data_to_write)

-- All bytes accepted so far, the sent ones first.
abbrev pub accepted : {S : Type 0} → (S → Bytes) → BufferedTcpSocket S → Bytes
accepted sent b = sent b.sock ++ pending b.data_to_write

-- No more bytes are taken.
abbrev pub IsOver : {S : Type 0} → TcpSocket S → BufferedTcpSocket S → Type 0
IsOver net b = (net.is_open b.sock ≡ false) ⊎ (b.write_shutdown_asked ≡ true)

-- What a call with the bytes `val` leaves: the first `k` of them are accepted behind the others,
-- and all are, unless the socket is closed then or a shutdown was asked for before.
pub record Took {S : Type 0} (net : TcpSocket S) (sent : S → Bytes) (b : BufferedTcpSocket S)
    (val : Bytes) (r : BufferedTcpSocket S) (k : ℕ) : Type 0 where
  pub valid : IsBuffered r
  pub order : accepted sent r ≡ accepted sent b ++ take k val
  pub part : k ≤ length val
  pub whole : (k ≡ length val) ⊎ ((net.is_open r.sock ≡ false) ⊎ (b.write_shutdown_asked ≡ true))
  pub asked : r.write_shutdown_asked ≡ b.write_shutdown_asked
  pub opens : StaysOrCloses (net.is_open b.sock) (net.is_open r.sock)
  pub refused : IsOver net b → k ≡ 0
