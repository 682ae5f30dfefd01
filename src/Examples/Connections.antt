-- ===== src/Examples/Connections.antt =====
-- Connections over systems that take everything, or fail.
use libkzr.Prelude.{
  ℕ, ◌+◌, ◌-◌, ◌^◌, ◌≡◌, ◌≢◌, refl, ap, true, [], ◌∷◌, length, replicate, if◌then◌else◌, ◌==◌,
  arith,
}
use libkzr.Prelude.Int.{pos, negsuc}
use libkzr.Outcome.{returns, throws, undefined, only_wrote, expected_four_bytes, no_bind}
use libkzr.StringStream.{StringStream, empty_stream}
use libkzr.MessageStream.{Text, str}
use libkzr.Connection
use libkzr.Examples.Many.{many, length-many}
use libkzr.Connection.{RawConnection, framed, message_size, spaces}
use libkzr.Connection.Framing.{write_wraps}
use libkzr.Connection.Reading.{read_fails}
use libkzr.FileHandleConnection.{System, file_connection, destruct, is_valid_handle}
use libkzr.FileHandleConnection.Laws.{write_error, invalid_handle_silent}
use libkzr.SocketConnection.{SocketConnection, dial, announce}
use libkzr.SocketConnection
use libkzr.SocketConnection.Modes.{dials, announces, call, settled, run, run-first}
use libkzr.UnixDomainSocketConnection.{SocketSystem, perform_dial, perform_announce}
use libkzr.UnixDomainSocketConnection.Address.{dial_long_path, dial_connects}
use libkzr.UnixDomainSocketConnection.Announce.{announce-carry_out_all}

-- A connection that takes every byte, and delivers the size of a 7-byte message and then its contents.
abbrev eager : RawConnection ℕ
eager = record {
  raw_write = λ text calls. (returns (length text), calls + 1);
  raw_read = λ text calls.
      if calls == 0 then (returns (4, 7 ∷ 0 ∷ 0 ∷ 0 ∷ []), 1) else (returns (3, 1 ∷ 2 ∷ 3 ∷ []), 2);
}

abbrev three_bytes : StringStream
three_bytes = record empty_stream { unread = 1 ∷ 2 ∷ 3 ∷ []; put_position = 3 }

read_fails_example :
    ((Connection.read eager (0, three_bytes)).0 ≢ returns tt)
    × ((Connection.read eager (0, three_bytes)).1.1 ≡ three_bytes)
read_fails_example = read_fails eager 0 three_bytes

-- A message two bytes short of 4 GiB, and one of 4 GiB.
abbrev near_limit : StringStream
near_limit = record empty_stream { unread = many (2 ^ 32 - 2) }

abbrev over_limit : StringStream
over_limit = record empty_stream { unread = many (2 ^ 32) }

write_wraps_example :
    Connection.write eager near_limit 0
    ≡ (throws (only_wrote (length (str near_limit) + 4) (length (str near_limit) + 4 - 2 ^ 32)), 1)
unfolding str
write_wraps_example =
    write_wraps eager near_limit 0 1 (omega (arith, length-many (2 ^ 32 - 2)))
      (omega (arith, length-many (2 ^ 32 - 2)))
      (unfold framed in ap (λ (n : ℕ). (returns n, 1)) (omega arith))

-- A system that takes every byte and counts its calls, and one whose write(2) fails.
abbrev pub taking : System ℕ
taking = record {
  sys_write = λ fd text calls. (pos (length text), calls + 1);
  sys_read = λ fd size calls. (pos 0, [], calls + 1);
  sys_close = λ fd calls. calls + 1;
  capacity = length;
}

abbrev failing : System ℕ
failing = record taking { sys_write = λ fd text calls. (negsuc 0, calls + 1) }

write_error_example :
    Connection.write
      (file_connection failing (record { handle = pos 3; destroy = true }))
      three_bytes
      0
    ≡ (throws (only_wrote (2 ^ 64 - 1) (length (str three_bytes) + 4)), 1)
unfolding str
write_error_example = write_error failing 3 true three_bytes 0 1 (omega arith) refl

invalid_handle_silent_example :
    (Connection.write
        (file_connection taking (record { handle = negsuc 0; destroy = true }))
        three_bytes
        0
      ≡ (throws (only_wrote 0 (length (str three_bytes) + 4)), 0))
    × (Connection.read
          (file_connection taking (record { handle = negsuc 0; destroy = true }))
          (0, three_bytes)
        ≡ (throws (expected_four_bytes 0), (0, three_bytes)))
    × (destruct taking (record { handle = negsuc 0; destroy = true }) 0 ≡ 0)
unfolding str
invalid_handle_silent_example = invalid_handle_silent taking 0 true three_bytes 0 (omega arith)

-- A socket system that counts its calls, and where bind(2) fails.
abbrev pub sockets : SocketSystem ℕ
sockets = record {
  sys_socket = λ domain type protocol calls. (pos 3, calls + 1);
  sys_connect = λ fd path len calls. (pos 0, calls + 1);
  sys_ignore_sigpipe = λ calls. calls + 1;
  sys_reuse_address = λ fd calls. (pos 0, calls + 1);
  sys_unlink = λ path calls. calls + 1;
  sys_bind = λ fd path len calls. (negsuc 0, calls + 1);
  sys_chmod_user = λ path calls. calls + 1;
  sys_listen = λ fd backlog calls. (pos 0, calls + 1);
}

abbrev fresh : SocketConnection
fresh = record {
  file = record { handle = pos 3; destroy = true };
  domain = pos 1;
  type = pos 1;
  protocol = pos 0;
  mode = SocketConnection.undefined;
  address = [];
}

abbrev invalid : SocketConnection
invalid = record fresh { file = record { handle = negsuc 0; destroy = true } }

abbrev pub tmp : Text
tmp = b'/' ∷ b't' ∷ []

run-first_example :
    run
      (perform_dial sockets)
      (perform_announce sockets)
      (dials tmp ∷ announces [] ∷ dials [] ∷ [])
      (fresh, 0)
    ≡ (
      settled (call (perform_dial sockets) (perform_announce sockets) (dials tmp) (fresh, 0)).0,
      (call (perform_dial sockets) (perform_announce sockets) (dials tmp) (fresh, 0)).1,
    )
unfolding is_valid_handle
run-first_example =
    run-first (perform_dial sockets) (perform_announce sockets) (dials tmp)
      (announces [] ∷ dials [] ∷ []) fresh 0 refl refl

dial_long_path_example : dial (perform_dial sockets) (replicate 120 b'x') (fresh, 0) ≡ (
  undefined,
  (record fresh { mode = SocketConnection.connect_to; address = replicate 120 b'x' }, 0),
)
unfolding is_valid_handle
dial_long_path_example =
    dial_long_path sockets (replicate 120 b'x') fresh 0 (omega arith) (omega arith) refl refl

dial_connects_example :
    dial (perform_dial sockets) tmp (fresh, 0)
    ≡ (returns tt, (record fresh { mode = SocketConnection.connect_to; address = tmp }, 1))
unfolding is_valid_handle
dial_connects_example = dial_connects sockets tmp fresh 0 (omega arith) (omega arith) refl refl

announce-carry_out_all_example :
    announce (perform_announce sockets) tmp (fresh, 0)
    ≡ (throws no_bind, (record fresh { mode = SocketConnection.listen; address = tmp }, 4))
unfolding is_valid_handle
announce-carry_out_all_example = announce-carry_out_all sockets tmp fresh 0 (omega arith) refl refl
