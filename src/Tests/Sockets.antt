-- ===== src/Tests/Sockets.antt =====
-- Tests and instances for the connections.
use crablib.Base.{
  ℕ, ◌≤◌, min, ◌≡◌, refl, ◌⊎◌, inl, Bool, true, false, some, [], ◌++◌, arith, ok, Bytes, codes,
  length, take,
}
use crablib.Http.BufferedSocket.{TcpSocket, BufferedTcpSocket, write_now, buffer_only, write}
use crablib.Http.BufferedSocket.Pending.{IsTcpSocket, pending}
use crablib.Http.BufferedSocket.Runs.{Run, start, wrote, fresh, Run-accepted, Run-write}

-- A socket that sends two bytes at most in one call.
record Wire : Type 0 where
  bytes : Bytes
  is_open : Bool

abbrev wire : TcpSocket Wire
wire = record {
  stream = record {
    write_some = λ s val.
        ok (min 2 (length val), record s { bytes = s.bytes ++ take (min 2 (length val)) val });
  };
  read_some = λ s count. ([], s);
  is_open = λ s. s.is_open;
  write_shutdown = λ s. s;
  close = λ s. record s { is_open = false };
}

abbrev on_wire : Wire → Bytes
on_wire s = s.bytes

wire-IsTcpSocket : IsTcpSocket wire on_wire
wire-IsTcpSocket = record {
  writes = λ s val. (
    min 2 (length val),
    record s { bytes = s.bytes ++ take (min 2 (length val)) val },
    refl,
    omega arith,
    refl,
    inl refl,
  );
  shuts = λ s. (refl, inl refl);
  closes = λ s. (refl, refl);
  receives = λ s count. (refl, inl refl);
}

abbrev new_wire : Wire
new_wire = record { bytes = []; is_open = true }

first_write :
    (r : BufferedTcpSocket Wire) × (k : ℕ) × (write wire
        (fresh wire on_wire new_wire)
        (codes "abc")
        buffer_only
      ≡ some (ok r))
    × (k ≤ 3)
    × (on_wire r.sock ++ pending r.data_to_write ≡ ([] ++ []) ++ take k (codes "abc"))
    × ((k ≡ 3) ⊎ ((r.sock.is_open ≡ false) ⊎ (◌≡◌ {A = Bool} false true)))
first_write =
    Run-write wire on_wire wire-IsTcpSocket (fresh wire on_wire new_wire) [] (codes "abc")
      buffer_only (start new_wire refl)

-- "abc" waits.
waiting : BufferedTcpSocket Wire
waiting = first_write.0

waiting-Run : Run wire on_wire waiting (codes "abc")
unfolding waiting
waiting-Run = wrote (codes "abc") buffer_only (start new_wire refl) first_write.2

Run-accepted_example :
    (lost : Bytes) × ((on_wire waiting.sock ++ pending waiting.data_to_write) ++ lost ≡ codes "abc")
    × ((lost ≡ []) ⊎ ((waiting.sock.is_open ≡ false) ⊎ (waiting.write_shutdown_asked ≡ true)))
    × (waiting.total_data_to_write ≡ length (pending waiting.data_to_write))
Run-accepted_example = Run-accepted wire on_wire wire-IsTcpSocket waiting (codes "abc") waiting-Run

Run-write_example :
    (r : BufferedTcpSocket Wire) × (k : ℕ) × (write wire waiting (codes "de") write_now
      ≡ some (ok r))
    × (k ≤ 2)
    × (on_wire r.sock ++ pending r.data_to_write
        ≡ (on_wire waiting.sock ++ pending waiting.data_to_write) ++ take k (codes "de"))
    × ((k ≡ 2) ⊎ ((r.sock.is_open ≡ false) ⊎ (waiting.write_shutdown_asked ≡ true)))
Run-write_example =
    Run-write wire on_wire wire-IsTcpSocket waiting (codes "abc") (codes "de") write_now waiting-Run
