-- ===== src/Interaction/Transport.antt =====
-- The three layers together: interactions are encoded, each onto a MessageStream of its own, and written
-- to a connection; at the other end each frame is written into a MessageStream and decoded.
use libkzr.Prelude.{
  ◌≡◌, refl, sym, ap, ◌∙◌, some, List, [], ◌∷◌, ◌++◌, append-nil, append_assoc, map, All, length,
  arith,
}
use mathlib.Core.Option
use libkzr.Outcome.{Action, Outcome, returns, throws, undefined, pure, continue, ◌>>=◌, ◌>>◌}
use libkzr.StringStream.{StringStream, empty_stream}
use libkzr.StringStream.Frame.{IsWritable, append}
use libkzr.MessageStream
use libkzr.MessageStream.{Text, ArgumentOrder, str}
use libkzr.MessageStream.Storage.{write-Writes}
use libkzr.Connection
use libkzr.Connection.Channel.{Channel, Fits, frame, frames, unframe, unframe-frames, sent-write}
use libkzr.Interaction.{Interaction, encode_interaction, decode_interaction}
use libkzr.Interaction.Wire.{IsInteraction, interaction_bytes, received_interaction}
use libkzr.Interaction.Encode.{encode_interaction_bytes}
use libkzr.Interaction.RoundTrip.{decode_interaction-Reads}

module _ {C : Type 0} (ch : Channel C) where
  -- A SendInteraction: `<<` onto a fresh MessageStream, and that onto the connection.
  unfoldable pub send : Interaction → Action C (Unit {0})
  send x c =
      let (r, msg) = encode_interaction x empty_stream in
      continue r (λ _. Connection.write ch.raw msg) c

  unfoldable pub send_all : List Interaction → Action C (Unit {0})
  send_all [] = pure tt
  send_all (x ∷ xs) = do send x; send_all xs

-- The value of the variable behind a `>>` that returned.
abbrev pub delivered : Outcome (Unit {0}) × (Interaction × StringStream) → Outcome Interaction
delivered (returns _, (x, _)) = returns x
delivered (throws e, _) = throws e
delivered (undefined, _) = undefined

-- What Connection::read is for: the message of a frame goes into a MessageStream, from which `>>` reads
-- into a variable that holds `held`.
unfoldable pub deliver : ArgumentOrder → Interaction → Text → Outcome Interaction
deliver order held message =
    delivered (decode_interaction order (held, (MessageStream.write message empty_stream).1))

empty-IsWritable : IsWritable empty_stream
empty-IsWritable = record { is_good = refl; at_end = refl }

deliver-bytes :
    (order : ArgumentOrder) (held x : Interaction)
    → IsInteraction x
    → deliver order held (interaction_bytes x) ≡ returns (received_interaction order x)
unfolding deliver
deliver-bytes order held x w =
    let bytes = interaction_bytes x in
    ap (λ p. delivered (decode_interaction order (held, p.1)))
      ((write-Writes bytes).at empty_stream empty-IsWritable)
    ∙ ap delivered (
        decode_interaction-Reads order held x w (append empty_stream bytes) [] refl
          (sym (append-nil bytes)))

map-deliver :
    (order : ArgumentOrder) (held : Interaction) (xs : List Interaction)
    → All IsInteraction xs
    → map (deliver order held) (map interaction_bytes xs)
      ≡ map (λ x. returns (received_interaction order x)) xs
map-deliver order held [] w = refl
map-deliver order held (x ∷ xs) (w, ws) =
    rw (deliver-bytes order held x w) (rw (map-deliver order held xs ws))

module _ {C : Type 0} (ch : Channel C) where
  sent-send :
      (x : Interaction) (c : C)
      → IsInteraction x
      → Fits (interaction_bytes x)
      → ((send ch x c).0 ≡ returns tt)
        × (ch.sent (send ch x c).1 ≡ ch.sent c ++ frame (interaction_bytes x))
  unfolding send str
  sent-send x c w h =
      rw (encode_interaction_bytes x empty_stream w empty-IsWritable)
        (sent-write ch (append empty_stream (interaction_bytes x)) c h)

  -- Interactions that fit the wire, and whose sizes with the four bytes in front fit 32 bits, sent one
  -- after the other over a connection that takes whatever it is handed: every call returns, and the
  -- connection has got the frames of their bytes, in that order, behind what it had.
  pub sent-send_all :
      (xs : List Interaction) (c : C)
      → All IsInteraction xs
      → All (λ x. Fits (interaction_bytes x)) xs
      → ((send_all ch xs c).0 ≡ returns tt)
        × (ch.sent (send_all ch xs c).1 ≡ ch.sent c ++ frames (map interaction_bytes xs))
  unfolding send_all frames ◌>>=◌
  sent-send_all [] c w h = (refl, rw append-nil)
  sent-send_all (x ∷ xs) c (w, ws) (h, hs) =
      let (returned, first) = sent-send x c w h in
      let (rest, later) = sent-send_all xs (send ch x c).1 ws hs in
      rw returned (
        rest,
        later
            ∙ (ap (λ t. t ++ frames (map interaction_bytes xs)) first
                ∙ append_assoc (ch.sent c) (frame (interaction_bytes x))
                    (frames (map interaction_bytes xs))),
      )

  map-Fits :
      (xs : List Interaction)
      → All (λ x. Fits (interaction_bytes x)) xs
      → All Fits (map interaction_bytes xs)
  map-Fits [] h = h
  map-Fits (x ∷ xs) (h, hs) = (h, map-Fits xs hs)

  -- Interactions that fit the wire, and whose sizes with the four bytes in front fit 32 bits, sent one
  -- after the other over a connection that has taken nothing yet and takes whatever it is handed: taking
  -- what it got apart into messages, and decoding each into a variable that holds `held`, gives each
  -- interaction as it is received, in the order of sending.
  pub deliver-send_all :
      (order : ArgumentOrder) (held : Interaction) (xs : List Interaction) (c : C)
      → All IsInteraction xs
      → All (λ x. Fits (interaction_bytes x)) xs
      → ch.sent c ≡ []
      → let got = ch.sent (send_all ch xs c).1 in
        Option.map (map (deliver order held)) (unframe (length got) got)
        ≡ some (map (λ x. returns (received_interaction order x)) xs)
  deliver-send_all order held xs c w h none_yet =
      let whole =
        (sent-send_all xs c w h).1 ∙ ap (λ t. t ++ frames (map interaction_bytes xs)) none_yet in
      rw whole (
        rw
          (unframe-frames (map interaction_bytes xs) (length (frames (map interaction_bytes xs)))
            (map-Fits xs h) (omega arith))
          (rw (map-deliver order held xs w)))
