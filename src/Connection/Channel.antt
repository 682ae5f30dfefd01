-- ===== src/Connection/Channel.antt =====
-- The bytes that a connection has taken, and the messages in them: `Connection::write` against a list of
-- messages. A connection here takes whatever it is handed, as a file or a pipe with room does.
use libkzr.Prelude.{
  ℕ, zero, suc, ◌+◌, ◌^◌, ◌≤◌, ◌<◌, ◌≡◌, refl, ap, ◌∙◌, Option, none, some, List, [], ◌∷◌, ◌++◌,
  append-nil, append_assoc, map, All, length, take, drop, length-append, take-append, drop-append,
  ltb, le→ltb, eq→==, if◌then◌else◌, arith,
}
use mathlib.Core.Option
use libkzr.Outcome.{Action, Outcome, returns, throws, undefined, pure, ◌>>=◌, ◌>>◌}
use libkzr.StringStream.{StringStream}
use libkzr.MessageStream.{Text, str}
use libkzr.Connection.{RawConnection, framed, message_size, write}
use libkzr.Connection.Framing.{message_size-framed, write-framed}

-- A connection with the bytes that it has taken so far, in their order.
pub record Channel (C : Type 0) : Type 0 where
  pub raw : RawConnection C
  pub sent : C → Text
  pub takes :
      (text : Text) (c : C)
      → length text < 2 ^ 32
      → (raw.raw_write text c).0 ≡ returns (length text)
  pub sent-raw_write :
      (text : Text) (c : C) → length text < 2 ^ 32 → sent (raw.raw_write text c).1 ≡ sent c ++ text

-- Messages one behind the other, each with its size in front.
abbrev pub frame : Text → Text
frame m = framed (length m + 4) m

unfoldable pub frames : List Text → Text
frames [] = []
frames (m ∷ ms) = frame m ++ frames ms

-- The first message of a text that begins with this size, and what is behind it.
abbrev pub cut : Text → Outcome ℕ → Option (Text × Text)
cut bytes (returns size) =
    if ltb size 4
    then none
    else if ltb (length bytes) size
    then none
    else some (drop 4 (take size bytes), drop size bytes)
cut bytes (throws e) = none
cut bytes undefined = none

-- None where the size is wrong, or the message is not all there.
unfoldable pub take_frame : Text → Option (Text × Text)
take_frame bytes = cut bytes (message_size bytes)

abbrev pub and_then : (Text → Option (List Text)) → Option (Text × Text) → Option (List Text)
and_then f none = none
and_then f (some (m, rest)) = Option.map (λ ms. m ∷ ms) (f rest)

-- All messages of a text. Each takes four bytes at least, so its length is enough fuel.
unfoldable pub unframe : ℕ → Text → Option (List Text)
unframe fuel [] = some []
unframe zero (b ∷ bytes) = none
unframe (suc fuel) (b ∷ bytes) = and_then (unframe fuel) (take_frame (b ∷ bytes))

abbrev pub Fits : Text → Type 0
Fits m = length m + 4 < 2 ^ 32

length-frame : (m : Text) → length (frame m) ≡ length m + 4
unfolding framed
length-frame m = omega arith

size-frame : (m rest : Text) → Fits m → message_size (frame m ++ rest) ≡ returns (length m + 4)
unfolding framed
size-frame m rest h = message_size-framed (length m + 4) (m ++ rest) h

payload-frame : (m : Text) → drop 4 (frame m) ≡ m
unfolding framed
payload-frame m = refl

cut_whole :
    (xs rest : Text) (n : ℕ)
    → length xs ≡ n
    → 4 ≤ n
    → cut (xs ++ rest) (returns n) ≡ some (drop 4 xs, rest)
cut_whole xs rest n e h =
    let all_there : n ≤ length (xs ++ rest) = omega (arith, length-append xs rest) in
    rw (le→ltb n 4 h, le→ltb (length (xs ++ rest)) n all_there)
      (rw (← e) (rw (take-append xs rest, drop-append xs rest)))

-- The message at the front of a text, if its size with the four bytes in front fits 32 bits, is found.
pub take_frame-frame : (m rest : Text) → Fits m → take_frame (frame m ++ rest) ≡ some (m, rest)
unfolding take_frame
take_frame-frame m rest h =
    ap (cut (frame m ++ rest)) (size-frame m rest h)
    ∙ (cut_whole (frame m) rest (length m + 4) (length-frame m) (omega arith)
        ∙ ap (λ t. some (t, rest)) (payload-frame m))

take_frame-nil : (p : Text × Text) → take_frame [] ≡ some p → take_frame [] ≡ none
unfolding take_frame message_size
take_frame-nil p e = refl

unframe-step :
    (fuel : ℕ) (bytes m rest : Text) (ms : List Text)
    → take_frame bytes ≡ some (m, rest)
    → unframe fuel rest ≡ some ms
    → unframe (suc fuel) bytes ≡ some (m ∷ ms)
unfolding unframe
unframe-step fuel [] m rest ms e es = absurd (cc (take_frame-nil (m, rest) e))
unframe-step fuel (b ∷ bytes) m rest ms e es = rw e (rw es)

-- The messages of any number of frames are found again, with the number of the bytes as fuel or more.
pub unframe-frames :
    (ms : List Text) (fuel : ℕ)
    → All Fits ms
    → length (frames ms) ≤ fuel
    → unframe fuel (frames ms) ≡ some ms
unfolding frames
unframe-frames [] fuel h le = unfold unframe in refl
unframe-frames (m ∷ ms) zero h le =
    absurd (omega (arith, length-append (frame m) (frames ms), length-frame m))
unframe-frames (m ∷ ms) (suc fuel) (h, hs) le =
    unframe-step fuel (frames (m ∷ ms)) m (frames ms) ms (take_frame-frame m (frames ms) h) (
      unframe-frames ms fuel hs
        (omega (arith, length-append (frame m) (frames ms), length-frame m)))

module _ {C : Type 0} (ch : Channel C) where
  unfoldable pub write_all : List StringStream → Action C (Unit {0})
  write_all [] = pure tt
  write_all (m ∷ ms) = do write ch.raw m; write_all ms

  -- `write` of a message whose size with the four bytes in front fits 32 bits returns, and the bytes
  -- of its frame are sent behind what was sent before.
  pub sent-write :
      (msg : StringStream) (c : C)
      → Fits (str msg)
      → ((write ch.raw msg c).0 ≡ returns tt)
        × (ch.sent (write ch.raw msg c).1 ≡ ch.sent c ++ frame (str msg))
  unfolding ◌>>=◌
  sent-write msg c h =
      let size = length (str msg) + 4 in
      let fits : length (frame (str msg)) < 2 ^ 32 = omega (arith, h, length-frame (str msg)) in
      let taken : (ch.raw.raw_write (frame (str msg)) c).0 ≡ returns size =
        ch.takes (frame (str msg)) c fits ∙ ap returns (length-frame (str msg)) in
      rw (write-framed ch.raw msg c h)
        (rw taken (rw (eq→== size size refl) (refl, ch.sent-raw_write (frame (str msg)) c fits)))

  -- Any number of messages whose sizes with the four bytes in front fit 32 bits, written one behind the
  -- other: every `write` returns, and what was sent is what was sent before and then their frames, in
  -- the order of the calls.
  pub sent-write_all :
      (ms : List StringStream) (c : C)
      → All (λ m. Fits (str m)) ms
      → ((write_all ms c).0 ≡ returns tt)
        × (ch.sent (write_all ms c).1 ≡ ch.sent c ++ frames (map str ms))
  unfolding write_all frames ◌>>=◌
  sent-write_all [] c h = (refl, rw append-nil)
  sent-write_all (m ∷ ms) c (h, hs) =
      let (returned, first) = sent-write m c h in
      let (rest, later) = sent-write_all ms (write ch.raw m c).1 hs in
      rw returned (
        rest,
        later
            ∙ (ap (λ t. t ++ frames (map str ms)) first
                ∙ append_assoc (ch.sent c) (frame (str m)) (frames (map str ms))),
      )
