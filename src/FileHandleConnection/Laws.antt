-- ===== src/FileHandleConnection/Laws.antt =====
-- Connections over a file descriptor: what a message costs in system calls, and how the failures of
-- the system come back.
use libkzr.Prelude.{ℕ, ◌+◌, ◌-◌, ◌%◌, ◌^◌, ◌<◌, ◌≡◌, refl, Bool, length, eq→==, ne→==, arith}
use libkzr.Prelude.Int.{pos, negsuc}
use libkzr.Outcome.{returns, throws, ◌>>=◌, only_wrote, expected_four_bytes}
use libkzr.StringStream.{StringStream}
use libkzr.MessageStream.{str}
use libkzr.Connection.{framed, write, read}
use libkzr.Connection.Framing.{write-framed}
use libkzr.FileHandleConnection.{System, FileHandle, destruct, file_connection}

module _ {W : Type 0} (sys : System W) where
  abbrev open_handle : ℕ → Bool → FileHandle
  open_handle fd d = record { handle = pos fd; destroy = d }

  abbrev invalid_handle : ℕ → Bool → FileHandle
  invalid_handle n d = record { handle = negsuc n; destroy = d }

  -- On a valid descriptor, a message whose size with the four bytes in front fits 32 bits is one
  -- call of write(2). If that takes the whole frame, `write` returns.
  pub write_whole :
      (fd : ℕ) (d : Bool) (msg : StringStream) (w w' : W)
      → length (str msg) + 4 < 2 ^ 32
      → sys.sys_write (pos fd) (framed (length (str msg) + 4) (str msg)) w
        ≡ (pos (length (str msg) + 4), w')
      → write (file_connection sys (open_handle fd d)) msg w ≡ (returns tt, w')
  unfolding file_connection ◌>>=◌
  write_whole fd d msg w w' fits sent =
      let size = length (str msg) + 4 in
      let counted : size % 2 ^ 64 ≡ size = omega arith in
      rw (write-framed (file_connection sys (open_handle fd d)) msg w fits)
        (rw (sent, counted) (rw (eq→== size size refl)))

  -- On a valid descriptor, and for a message whose size with the four bytes in front fits 32 bits, a
  -- failed write(2), -1, is reported as 2 ^ 64 - 1 bytes written.
  pub write_error :
      (fd : ℕ) (d : Bool) (msg : StringStream) (w w' : W)
      → length (str msg) + 4 < 2 ^ 32
      → sys.sys_write (pos fd) (framed (length (str msg) + 4) (str msg)) w ≡ (negsuc 0, w')
      → write (file_connection sys (open_handle fd d)) msg w
        ≡ (throws (only_wrote (2 ^ 64 - 1) (length (str msg) + 4)), w')
  unfolding file_connection ◌>>=◌
  write_error fd d msg w w' fits failed =
      let size = length (str msg) + 4 in
      rw (write-framed (file_connection sys (open_handle fd d)) msg w fits)
        (rw failed (rw (ne→== (2 ^ 64 - 1) size (omega arith))))

  -- With a negative descriptor there is no system call, whatever the system would do with it: writing a message whose size with the four
  -- bytes in front fits 32 bits throws, reading throws, and the destructor does nothing.
  pub invalid_handle_silent :
      (n : ℕ) (d : Bool) (msg : StringStream) (w : W)
      → length (str msg) + 4 < 2 ^ 32
      → (write (file_connection sys (invalid_handle n d)) msg w
          ≡ (throws (only_wrote 0 (length (str msg) + 4)), w))
        × (read (file_connection sys (invalid_handle n d)) (w, msg)
            ≡ (throws (expected_four_bytes 0), (w, msg)))
        × (destruct sys (invalid_handle n d) w ≡ w)
  unfolding file_connection read destruct ◌>>=◌
  invalid_handle_silent n d msg w fits = (
    rw (write-framed (file_connection sys (invalid_handle n d)) msg w fits)
        (rw (ne→== 0 (length (str msg) + 4) (omega arith))),
    refl,
    refl,
  )
