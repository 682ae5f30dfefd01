-- ===== src/FileHandleConnection.antt =====
-- FileHandleConnection.h and FileHandleConnection.cc: a connection over a file descriptor. The system
-- calls and the capacity of a std::string are not the library's: they are parameters.
pub mod Laws
use libkzr.Prelude.{
  ℕ, suc, ◌-◌, ◌%◌, ◌^◌, ◌≤◌, Bool, true, false, ◌&&◌, List, length, if◌then◌else◌,
}
use libkzr.Prelude.Int.{ℤ, pos, negsuc}
use libkzr.Prelude.Bytes.{Byte}
use libkzr.Outcome.{Outcome, returns, Action}
use libkzr.MessageStream.{Text, overlay}
use libkzr.Connection.{RawConnection}

-- read(2), write(2) and close(2) on the state `W` of the system, for any int as the descriptor.
pub record System (W : Type 0) : Type 0 where
  -- The bytes to write, and what the call returns.
  pub sys_write : ℤ → Text → W → ℤ × W
  -- The size of the buffer, what the call returns, and the bytes that it stored.
  pub sys_read : ℤ → ℕ → W → ℤ × Text × W
  pub sys_close : ℤ → W → W
  pub capacity : Text → ℕ

pub record FileHandle : Type 0 where
  pub handle : ℤ
  pub destroy : Bool

abbrev pub is_valid : ℤ → Bool
is_valid (pos fd) = true
is_valid (negsuc n) = false

unfoldable pub is_valid_handle : FileHandle → Bool
is_valid_handle h = is_valid h.handle

-- A ssize_t as a size_t.
abbrev pub to_size : ℤ → ℕ
to_size (pos n) = n % 2 ^ 64
to_size (negsuc n) = 2 ^ 64 - suc n % 2 ^ 64

module _ {W : Type 0} (sys : System W) where
  abbrev pub wrote : ℤ × W → Outcome ℕ × W
  wrote (n, w) = (returns (to_size n), w)

  unfoldable pub raw_write : FileHandle → Text → Action W ℕ
  unfolding is_valid_handle
  raw_write h text w =
      if is_valid_handle h then wrote (sys.sys_write h.handle text w) else (returns 0, w)

  abbrev pub have_read : Text → ℤ × Text × W → Outcome (ℕ × Text) × W
  have_read text (n, bytes, w) = (returns (to_size n, overlay bytes text), w)

  -- The system may fill the whole capacity; what lands behind the size is not part of the string.
  unfoldable pub raw_read : FileHandle → Text → Action W (ℕ × Text)
  unfolding is_valid_handle
  raw_read h text w =
      if is_valid_handle h
      then have_read text (sys.sys_read h.handle (sys.capacity text) w)
      else (returns (0, text), w)

  -- The destructor.
  unfoldable pub destruct : FileHandle → W → W
  unfolding is_valid_handle
  destruct h w = if is_valid_handle h && h.destroy then sys.sys_close h.handle w else w

  unfoldable pub file_connection : FileHandle → RawConnection W
  unfolding raw_write raw_read
  file_connection h = record { raw_write = raw_write h; raw_read = raw_read h }
