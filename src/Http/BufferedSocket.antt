-- ===== src/Http/BufferedSocket.antt =====
-- BufferedTCPSocket of include/crab/http/connection.hpp and connection.hxx. The socket below it
-- is a parameter: a state with its operations. The handler that is called at the end of
-- sock_handler and shutdown_timer_handler is user code. `total_data_to_write` does not wrap: it counts
-- bytes that lie in memory.
pub mod Pending
pub mod Flush
pub mod Sent
pub mod Runs
use mathlib.Core.Option
use crablib.Base.{
  ℕ, zero, suc, ◌+◌, ◌-◌, ◌*◌, ◌/◌, ◌%◌, ◌^◌, ◌≤◌, ◌<◌, min, ◌≡◌, refl, sym, ap, ap₂, ◌∙◌, ◌≢◌, ◌↔◌,
  ◌⊎◌, inl, inr, Bool, true, false, not, ◌&&◌, ◌||◌, Option, none, some, List, [], ◌∷◌, ◌++◌, map,
  reverse, append-nil, append_assoc, arith, ltb, leb, ◌==◌, if◌then◌else◌, Bool-cases, Result, ok,
  err, throw, Error, runtime_error, logic_error, ◌>>=◌, Bytes, codes, length, get_elem?, get_or,
  take, drop, length-append, length-take, length-drop, take-append-drop, take-length_add,
  drop-length_add, take_all, take-length, drop-length, take-append, drop-append, drop-drop,
  take_two, drop-take, take-take, length_zero,
}
use crablib.Loop.Chunks.{and_then}
use crablib.Streams.{OStream}
use crablib.Streams.Vector
use crablib.Streams.Vector.{VectorStream}

-- What TCPSocketTLS offers.
pub record TcpSocket (S : Type 0) : Type 0 where
  pub stream : OStream S
  pub read_some : S → ℕ → Bytes × S
  pub is_open : S → Bool
  pub write_shutdown : S → S
  pub close : S → S

pub data BufferOptions : Type 0 where
  write_now buffer_only : BufferOptions

pub record BufferedTcpSocket (S : Type 0) : Type 0 where
  pub sock : S
  pub data_to_write : List VectorStream
  pub total_data_to_write : ℕ
  pub write_shutdown_asked : Bool
  pub shutdown_timer_is_set : Bool

abbrev pub is_empty : {A : Type 0} → List A → Bool
is_empty [] = true
is_empty (x ∷ xs) = false

-- The bytes go to the last stream, if that one and they are short, and into a new one otherwise.
unfoldable pub push_back : List VectorStream → Bytes → List VectorStream
push_back [] val = Vector.new val ∷ []
push_back (x ∷ []) val =
    if ltb (Vector.size x) 1024 && ltb (length val) 1024
    then record x { impl = x.impl ++ val } ∷ []
    else x ∷ (Vector.new val ∷ [])
push_back (x ∷ (y ∷ ys)) val = x ∷ push_back (y ∷ ys) val

-- `front().write_to(sock)` writes all that the stream has, up to the largest `size_t`.
abbrev pub max_size : ℕ
max_size = 2 ^ 64 - 1

-- What one round of write's loop does with what the first stream wrote; the total never falls
-- below 0, as it counts all bytes of the streams.
abbrev pub after_front :
    {S : Type 0}
    → List VectorStream
    → ℕ
    → Option (Result (ℕ × VectorStream × S))
    → (ℕ → S → Option (Result (List VectorStream × ℕ × S)))
    → Option (Result (List VectorStream × ℕ × S))
after_front xs total none go_on = none
after_front xs total (some (err e)) go_on = some (err e)
after_front xs total (some (ok (n, y, t))) go_on =
    let rest = go_on (total - n) t in
    if not (Vector.size y == 0) then some (ok (y ∷ xs, total - n, t)) else rest

module _ {S : Type 0} (net : TcpSocket S) where
  unfoldable pub close : BufferedTcpSocket S → BufferedTcpSocket S
  close b = record {
    sock = net.close b.sock;
    data_to_write = [];
    total_data_to_write = 0;
    write_shutdown_asked = false;
    shutdown_timer_is_set = false;
  }

  unfoldable pub read_some : BufferedTcpSocket S → ℕ → Bytes × BufferedTcpSocket S
  read_some b count =
      if b.write_shutdown_asked
      then ([], b)
      else (let r = net.read_some b.sock count in (r.0, record b { sock = r.1 }))

  unfoldable pub write_some : BufferedTcpSocket S → Bytes → Result (ℕ × BufferedTcpSocket S)
  write_some b val =
      if b.write_shutdown_asked || not (is_empty b.data_to_write)
      then ok (0, b)
      else (net.stream.write_some b.sock val >>= λ r. ok (r.0, record b { sock = r.1 }))

  -- Both functions of this name.
  unfoldable pub buffer : BufferedTcpSocket S → Bytes → BufferedTcpSocket S
  buffer b val =
      if not (net.is_open b.sock) || b.write_shutdown_asked || length val == 0
      then b
      else record b {
        total_data_to_write = b.total_data_to_write + length val;
        data_to_write = push_back b.data_to_write val;
      }

  -- The loop of write: what is left of the streams, their bytes and the socket.
  unfoldable pub flush_loop :
      List VectorStream → ℕ → S → Option (Result (List VectorStream × ℕ × S))
  flush_loop [] total s = some (ok ([], total, s))
  flush_loop (x ∷ xs) total s =
      after_front xs total (Vector.write_to net.stream x s max_size)
        (λ left t. flush_loop xs left t)

  -- `sock.write_shutdown(); shutdown_timer.once(WM_SHUTDOWN_TIMEOUT_SEC);`
  unfoldable pub send_shutdown : BufferedTcpSocket S → BufferedTcpSocket S
  send_shutdown b = record b { sock = net.write_shutdown b.sock; shutdown_timer_is_set = true }

  unfoldable pub finish : Bool → BufferedTcpSocket S → BufferedTcpSocket S
  finish was_empty b =
      if b.write_shutdown_asked && is_empty b.data_to_write && not was_empty
      then send_shutdown b
      else b

  -- `write()`
  unfoldable pub flush : BufferedTcpSocket S → Option (Result (BufferedTcpSocket S))
  flush b =
      Option.map
        (λ (m : Result (List VectorStream × ℕ × S)). m >>= λ r. ok (
          finish (is_empty b.data_to_write)
            (record b { data_to_write = r.0; total_data_to_write = r.1; sock = r.2 })))
        (flush_loop b.data_to_write b.total_data_to_write b.sock)

  -- `write(val, count, bo)`
  unfoldable pub write :
      BufferedTcpSocket S → Bytes → BufferOptions → Option (Result (BufferedTcpSocket S))
  write b val buffer_only = some (ok (buffer b val))
  write b val write_now =
      if not (net.is_open b.sock) || b.write_shutdown_asked
      then some (ok b)
      else if is_empty b.data_to_write
      then and_then (net.stream.write_some b.sock val)
          (λ r. flush (buffer (record b { sock = r.1 }) (drop r.0 val)))
      else flush (buffer b val)

  -- `write(std::string &&ss, bo)`
  unfoldable pub write_string :
      BufferedTcpSocket S → Bytes → BufferOptions → Option (Result (BufferedTcpSocket S))
  write_string b ss buffer_only = some (ok (buffer b ss))
  write_string b ss write_now = flush (buffer b ss)

  unfoldable pub write_shutdown : BufferedTcpSocket S → BufferedTcpSocket S
  write_shutdown b =
      let asked : BufferedTcpSocket S = record b { write_shutdown_asked = true } in
      if not (net.is_open b.sock) || b.write_shutdown_asked
      then b
      else if is_empty b.data_to_write
      then send_shutdown asked
      else asked

  -- What sock_handler does before it calls the handler.
  unfoldable pub sock_handler : BufferedTcpSocket S → Option (Result (BufferedTcpSocket S))
  sock_handler b =
      if net.is_open b.sock
      then Option.map
          (λ (m : Result (BufferedTcpSocket S)). m >>= λ r. ok (
            if r.write_shutdown_asked && is_empty r.data_to_write
            then record r { sock = (net.read_some r.sock 4096).1 }
            else r))
          (flush b)
      else some (ok (close b))

  unfoldable pub shutdown_timer_handler : BufferedTcpSocket S → BufferedTcpSocket S
  shutdown_timer_handler b = close b
