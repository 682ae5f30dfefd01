-- ===== src/StringStream.antt =====
-- std::stringstream of the C++ standard library, as far as MessageStream uses it. The buffer is
-- split at the get position into what has been read and what has not; the put position is a number.
-- Memory for the buffer never runs out, so no operation here sets badbit.
pub mod Frame
pub mod Splice
pub mod Preserves
pub mod Bounded
use libkzr.Prelude.{
  ℕ, zero, suc, ◌+◌, ◌-◌, ◌≤◌, Bool, true, false, not, ◌||◌, Option, none, some, List, [], ◌∷◌,
  ◌++◌, length, take, drop, ltb, if◌then◌else◌,
}
use libkzr.Prelude.Bytes.{Byte}
use libkzr.Outcome.{returns, Action, pure}

pub record StringStream : Type 0 where
  pub taken : List Byte
  pub unread : List Byte
  pub put_position : ℕ
  pub eofbit : Bool
  pub failbit : Bool
  pub badbit : Bool

abbrev pub empty_stream : StringStream
empty_stream = record {
  taken = [];
  unread = [];
  put_position = 0;
  eofbit = false;
  failbit = false;
  badbit = false;
}

-- The whole buffer, `str()`.
abbrev pub contents : StringStream → List Byte
contents s = s.taken ++ s.unread

abbrev pub good : StringStream → Bool
good s = not (s.eofbit || (s.failbit || s.badbit))

-- `str(text)` replaces the buffer and moves both positions to its start; the flags stay.
unfoldable pub set_contents : List Byte → Action StringStream (Unit {0})
set_contents text s = pure tt (record s { taken = []; unread = text; put_position = 0 })

unfoldable pub clear : Action StringStream (Unit {0})
clear s = pure tt (record s { eofbit = false; failbit = false; badbit = false })

-- A write at index `i`, or behind the last byte.
abbrev pub write_at : ℕ → Byte → List Byte → List Byte
write_at i c [] = c ∷ []
write_at zero c (x ∷ xs) = c ∷ xs
write_at (suc i) c (x ∷ xs) = x ∷ write_at i c xs

-- The buffer after one character at the put position.
unfoldable pub store : Byte → StringStream → StringStream
store c s =
    if ltb s.put_position (length s.taken)
    then record s { taken = write_at s.put_position c s.taken; put_position = s.put_position + 1 }
    else record s {
      unread = write_at (s.put_position - length s.taken) c s.unread;
      put_position = s.put_position + 1;
    }

-- A stream with a flag set takes no output.
unfoldable pub put : Byte → Action StringStream (Unit {0})
unfolding store
put c s = pure tt (if good s then store c s else s)

unfoldable pub store_all : List Byte → StringStream → StringStream
store_all [] s = s
store_all (c ∷ cs) s = store_all cs (store c s)

unfoldable pub write : List Byte → Action StringStream (Unit {0})
unfolding store_all store
write cs s = pure tt (if good s then store_all cs s else s)

-- `get(c)`: none if no character was assigned.
unfoldable pub get_from : List Byte → Action StringStream (Option Byte)
get_from [] s = pure none (record s { eofbit = true; failbit = true })
get_from (c ∷ cs) s = pure (some c) (record s { taken = s.taken ++ c ∷ []; unread = cs })

unfoldable pub get : Action StringStream (Option Byte)
unfolding get_from
get s = if good s then get_from s.unread s else pure none (record s { failbit = true })

-- `read(p, n)`: the characters stored, `gcount()` many.
unfoldable pub read : ℕ → Action StringStream (List Byte)
read n s =
    if good s
    then (if ltb (length s.unread) n
        then pure s.unread
            (record s { taken = s.taken ++ s.unread; unread = []; eofbit = true; failbit = true })
        else pure (take n s.unread)
            (record s { taken = s.taken ++ take n s.unread; unread = drop n s.unread }))
    else pure [] (record s { failbit = true })

-- `peek()`: none stands for `traits_type::eof()`, which is -1.
unfoldable pub peek_from : List Byte → Action StringStream (Option Byte)
peek_from [] s = pure none (record s { eofbit = true })
peek_from (c ∷ cs) s = pure (some c) s

unfoldable pub peek : Action StringStream (Option Byte)
unfolding peek_from
peek s = if good s then peek_from s.unread s else pure none (record s { failbit = true })
