-- ===== src/MessageStream/RoundTrip.antt =====
-- Values sent into a stream and taken out of it again, and values that are refused.
use libkzr.Prelude.{
  ℕ, ◌/◌, ◌%◌, ◌^◌, ◌≤◌, ◌<◌, ◌≡◌, ◌↔◌, ap, List, [], length, append-nil, arith, ne→==,
}
use libkzr.Prelude.Bytes.{Byte, little_endian}
use libkzr.Outcome.{returns, throws, string_too_long, vector_too_long}
use libkzr.StringStream.{StringStream}
use libkzr.StringStream.Frame.{Writes, Reads, IsWritable, append, advance}
use libkzr.MessageStream.{
  Text, OnStream, ArgumentOrder, right_to_left, overlay, encode_u32, decode_u32, encode_u64,
  decode_u64, encode_string, decode_string, encode_vector,
}
use libkzr.MessageStream.Wire.{IsText, u64_as_read, string_bytes}
use libkzr.MessageStream.Encode.{encode_u32-Writes, encode_u64-Writes, encode_string-Writes}
use libkzr.MessageStream.Decode.{decode_u32-Reads, decode_u64-Reads, decode_string-Reads}

-- The stream after `bs` has been appended to one whose input was used up, and taken off again.
abbrev pub passed : StringStream → List Byte → StringStream
passed s bs = advance (append s bs) bs []

-- What writes some bytes and what reads them make a round trip.
pub round_trip :
    {A : Type 0} {m : OnStream (Unit {0})} {p : OnStream A} {bs : List Byte} {a : A}
    → Writes m bs
    → Reads p bs a
    → (s : StringStream) → IsWritable s
    → s.unread ≡ []
    → p (m s).1 ≡ (returns a, passed s bs)
round_trip {bs} w r s ws used =
    rw (w.at s ws) (r.at (append s bs) [] ws.is_good (rw (used, append-nil)))

-- Through a writable stream whose input is used up, a uint32_t comes back.
pub decode_u32-encode_u32 :
    (v : ℕ) (s : StringStream)
    → v < 2 ^ 32
    → IsWritable s
    → s.unread ≡ []
    → decode_u32 (encode_u32 v s).1 ≡ (returns v, passed s (little_endian 4 v))
decode_u32-encode_u32 v s h = round_trip (encode_u32-Writes v) (decode_u32-Reads v h) s

-- Through a writable stream whose input is used up, a uint64_t comes back as it was if the compiler
-- evaluates the arguments of `build` from left to right, and with its halves exchanged if from right
-- to left; either way its eight bytes are used up.
pub decode_u64-encode_u64 :
    (order : ArgumentOrder) (v : ℕ) (s : StringStream)
    → v < 2 ^ 64
    → IsWritable s
    → s.unread ≡ []
    → decode_u64 order (encode_u64 v s).1
      ≡ (returns (u64_as_read order v), passed s (little_endian 8 v))
decode_u64-encode_u64 order v s h = round_trip (encode_u64-Writes v) (decode_u64-Reads order v h) s

same_halves : (v : ℕ) → v < 2 ^ 64 → (u64_as_read right_to_left v ≡ v) ↔ (v / 2 ^ 32 ≡ v % 2 ^ 32)
unfolding u64_as_read
same_halves v h = (λ e. omega arith, λ e. omega arith)

-- Through a writable stream whose input is used up, and with arguments evaluated from right to left,
-- a uint64_t survives exactly if its two halves are equal.
decode_u64-swapped_iff :
    (v : ℕ) (s : StringStream)
    → v < 2 ^ 64
    → IsWritable s
    → s.unread ≡ []
    → ((decode_u64 right_to_left (encode_u64 v s).1).0 ≡ returns v) ↔ (v / 2 ^ 32 ≡ v % 2 ^ 32)
decode_u64-swapped_iff v s h ws used =
    rw (decode_u64-encode_u64 right_to_left v s h ws used)
      (λ e. (same_halves v h).0 (cc e), λ e. ap returns ((same_halves v h).1 e))

-- Through a writable stream whose input is used up, a text that fits the wire goes over the front of
-- the target string, which keeps its size: a target of the text's own length becomes the text, and
-- an empty target stays empty.
pub decode_string-encode_string :
    (target v : Text) (s : StringStream)
    → IsText v
    → IsWritable s
    → s.unread ≡ []
    → decode_string target (encode_string v s).1
      ≡ (returns (overlay v target), passed s (string_bytes v))
decode_string-encode_string target v s h =
    round_trip (encode_string-Writes v h.1) (decode_string-Reads target v h) s

-- Of a text and a vector that 16-bit lengths cannot describe, each is refused before a byte is written.
pub encode_too_long :
    {A : Type 0} (encode : A → OnStream (Unit {0})) (v : Text) (xs : List A) (s : StringStream)
    → 2 ^ 16 ≤ length v
    → 2 ^ 16 ≤ length xs
    → (encode_string v s ≡ (throws (string_too_long (length v)), s))
      × (encode_vector encode xs s ≡ (throws (vector_too_long (length xs)), s))
unfolding encode_string encode_vector
encode_too_long encode v xs s hv hx = (
  rw (ne→== (length v % 2 ^ 16) (length v) (omega arith)),
  rw (ne→== (length xs % 2 ^ 16) (length xs) (omega arith)),
)
